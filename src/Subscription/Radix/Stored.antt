-- ===== src/Subscription/Radix/Stored.antt =====
-- What an index holds: the relation `Stored`, the order of keys that every walk relies on, and the
-- laws of the map of children.
use mini_sub2api.Base.{
  ℕ, ◌≡◌, refl, inl, inr, ◌≢◌, String, Bool, true, some, List, [], ◌∷◌, ◌++◌, any, take, drop, ◌==◌,
  ltb, str_eq, if◌then◌else◌, arith, Bool-cases,
}
use mini_sub2api.Subscription.Radix.{
  Radix, Children, node, empty, entry, edge, get, insert_child, common,
}

abbrev pub contains : String → List String → Bool
contains id ts = any (λ t. str_eq t id) ts

-- `id` is a terminal of the node that `path` leads to: `path` is the edges on the way, joined, and
-- each child is found under the key that its part of the path begins with.
pub data Stored : Radix → List ℕ → String → Type 0 where
  here :
      {e : List ℕ} {ts : List String} {cs : Children} {path : List ℕ} {id : String}
      → path ≡ e
      → contains id ts ≡ true
      → Stored (node e ts cs) path id
  below :
      {e : List ℕ} {ts : List String} {cs : Children} {path : List ℕ} {id : String} (k : ℕ)
      (rest : List ℕ) (t : Radix)
      → path ≡ e ++ k ∷ rest
      → get k cs ≡ some t
      → Stored t (k ∷ rest) id
      → Stored (node e ts cs) path id

-- The edge of every child begins with the key of the child.
mutual
  pub data IsValid : Radix → Type 0 where
    valid : {e : List ℕ} {ts : List String} {cs : Children} → AreValid cs → IsValid (node e ts cs)

  pub data AreValid : Children → Type 0 where
    none_left : AreValid empty
    one_more :
        {k : ℕ} {t : Radix} {cs : Children} (rest : List ℕ)
        → edge t ≡ k ∷ rest
        → IsValid t
        → AreValid cs
        → AreValid (entry k t cs)

pub get-insert_child :
    (j k : ℕ) (t : Radix) (cs : Children)
    → get j (insert_child k t cs) ≡ (if k == j then some t else get j cs)
unfolding get insert_child
get-insert_child j k t empty = refl
get-insert_child j k t (entry i u cs) = ground (arith, get-insert_child j k t cs)

pub get-AreValid :
    {cs : Children} (k : ℕ) (t : Radix)
    → AreValid cs
    → get k cs ≡ some t
    → ((rest : List ℕ) × (edge t ≡ k ∷ rest)) × IsValid t
unfolding get
get-AreValid k t none_left e = cc
get-AreValid k t (one_more {k = j} {t = u} rest starts v vs) e = elim (Bool-cases (j == k)) [
  | inl same ↦
      let p : u ≡ t = ground arith in
      let q : j ≡ k = ground arith in ((rest, rw (← p) (rw (← q) starts)), rw (← p) v)
  | inr other ↦ get-AreValid k t vs (ground arith)
]

pub insert_child-AreValid :
    {cs : Children} (k : ℕ) (t : Radix) (rest : List ℕ)
    → edge t ≡ k ∷ rest
    → IsValid t
    → AreValid cs
    → AreValid (insert_child k t cs)
unfolding insert_child
insert_child-AreValid k t rest e v none_left = one_more rest e v none_left
insert_child-AreValid k t rest e v (one_more {k = j} more starts w vs) =
    elim (Bool-cases (j == k)) [
      | inl same ↦ rw same (one_more rest e v vs)
      | inr other ↦ rw other (elim (Bool-cases (ltb k j)) [
        | inl lt ↦ rw lt (one_more rest e v (one_more more starts w vs))
        | inr ge ↦ rw ge (one_more more starts w (insert_child-AreValid k t rest e v vs))
      ])
    ]

-- The first keys that differ, if neither list has ended.
abbrev pub Differ : List ℕ → List ℕ → Type 0
Differ (x ∷ xs) (y ∷ ys) = x ≢ y
Differ _ _ = Unit

pub common_lem :
    (e path : List ℕ)
    → (take (common e path) path ≡ take (common e path) e)
      × Differ (drop (common e path) e) (drop (common e path) path)
unfolding common
common_lem [] path = (refl, tt)
common_lem (x ∷ xs) [] = (refl, tt)
common_lem (x ∷ xs) (y ∷ ys) = elim (Bool-cases (x == y)) [
  | inl same ↦ rw same (ground (arith, (common_lem xs ys).0), (common_lem xs ys).1)
  | inr other ↦ rw other (refl, ground arith)
]
