-- ===== src/Subscription/Radix.antt =====
-- src/core/codex/src/subscription_index.rs: `Radix`, the index from paths of item keys to responses.
-- A `BTreeMap` of children is an association list in ascending order of its keys. A loop runs on
-- fuel, and `none` means that the fuel ran out.
pub mod Stored
pub mod Split
pub mod Insert
pub mod Prefixes
pub mod Index
use mini_sub2api.Base.{
  ℕ, zero, suc, ◌+◌, String, Option, none, some, List, [], ◌∷◌, ◌++◌, map, any, length, take, drop,
  ltb, ◌==◌, str_eq, if◌then◌else◌,
}

mutual
  pub data Radix : Type 0 where
    node : List ℕ → List String → Children → Radix

  pub data Children : Type 0 where
    empty : Children
    entry : ℕ → Radix → Children → Children

abbrev pub edge : Radix → List ℕ
edge (node e ts cs) = e

-- `BTreeMap::get`
unfoldable pub get : ℕ → Children → Option Radix
get k empty = none
get k (entry j t cs) = if j == k then some t else get k cs

-- `BTreeMap::insert`
unfoldable pub insert_child : ℕ → Radix → Children → Children
insert_child k t empty = entry k t empty
insert_child k t (entry j u cs) =
    if j == k
    then entry k t cs
    else if ltb k j
    then entry k t (entry j u cs)
    else entry j u (insert_child k t cs)

-- `edge.iter().zip(remaining).take_while(|(a, b)| a == b).count()`
unfoldable pub common : List ℕ → List ℕ → ℕ
common (x ∷ xs) (y ∷ ys) = if x == y then suc (common xs ys) else 0
common _ _ = 0

-- `if !terminals.contains(&response) { terminals.push(response) }`
unfoldable pub push_terminal : String → List String → List String
push_terminal response ts = if any (λ t. str_eq t response) ts then ts else ts ++ response ∷ []

-- The child that `entry(key).or_insert_with(…)` yields: the one there, or a fresh leaf.
abbrev pub or_fresh : List ℕ → Option Radix → Radix
or_fresh remaining (some t) = t
or_fresh remaining none = node remaining [] empty

-- `if common < edge.len()`: the rest of the edge moves to a child with all that the node had.
unfoldable pub split : ℕ → Radix → Radix
split n (node e ts cs) = elim (drop n e) [
  | [] ↦ node e ts cs
  | k ∷ suffix ↦ node (take n e) [] (insert_child k (node (k ∷ suffix) ts cs) empty)
]

-- The body of the loop behind the split: `remaining` is what the edge does not cover.
unfoldable pub settle : (Radix → List ℕ → Option Radix) → String → List ℕ → Radix → Option Radix
settle descend response [] (node e ts cs) = some (node e (push_terminal response ts) cs)
settle descend response (k ∷ rest) (node e ts cs) =
    elim (descend (or_fresh (k ∷ rest) (get k cs)) (k ∷ rest)) [
      | none ↦ none
      | some t ↦ some (node e ts (insert_child k t cs))
    ]

unfoldable pub insert_loop : ℕ → String → Radix → List ℕ → Option Radix
unfolding settle split common
insert_loop zero response t remaining = none
insert_loop (suc fuel) response t remaining =
    let n = common (edge t) remaining in
    settle (insert_loop fuel response) response (drop n remaining) (split n t)

-- Enough for every valid index: `insert-Inserts` in Radix/Insert.
unfoldable pub insert : Radix → List ℕ → String → Option Radix
unfolding insert_loop
insert t path response = insert_loop (length path + 2) response t path

-- What `path` leaves behind a prefix, if it starts with it.
unfoldable pub strip_prefix : List ℕ → List ℕ → Option (List ℕ)
strip_prefix [] path = some path
strip_prefix (x ∷ xs) [] = none
strip_prefix (x ∷ xs) (y ∷ ys) = if x == y then strip_prefix xs ys else none

-- The child that the walk goes on to.
abbrev pub next_child : List ℕ → Children → Option Radix
next_child [] cs = none
next_child (k ∷ rest) cs = get k cs

-- `path[offset..]` is passed on as `rest`.
unfoldable pub prefixes_loop : ℕ → Radix → ℕ → List ℕ → Option (List (ℕ × String))
unfolding strip_prefix get
prefixes_loop zero t offset rest = none
prefixes_loop (suc fuel) (node e ts cs) offset rest = elim (strip_prefix e rest) [
  | none ↦ some []
  | some rest' ↦
      let offset' = offset + length e in
      let found = map (λ id. (offset', id)) ts in
      elim (next_child rest' cs) [
        | none ↦ some found
        | some child ↦ elim (prefixes_loop fuel child offset' rest') [
          | none ↦ none
          | some more ↦ some (found ++ more)
        ]
      ]
]

unfoldable pub prefixes : Radix → List ℕ → Option (List (ℕ × String))
unfolding prefixes_loop
prefixes t path = prefixes_loop (length path + 2) t 0 path

-- `Radix::default()`
abbrev pub default : Radix
default = node [] [] empty
