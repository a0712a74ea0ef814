-- ===== src/Subscription/Radix/Insert.antt =====
-- `insert` returns on every valid index, keeps it valid, and adds exactly the new pair.
use mathlib.Core.List.{append-nil}
use mini_sub2api.Base.{
  ℕ, zero, suc, ◌+◌, ◌≤◌, ◌<◌, ◌≡◌, refl, sym, ap, ◌∙◌, ◌⊎◌, inl, inr, String, true, Option, some,
  List, [], ◌∷◌, ◌++◌, length, take, drop, take-append-drop, ◌==◌, str_eq, eq_iff, arith,
  Bool-cases, Option-cases, subst, if◌then◌else◌,
}
use mini_sub2api.Subscription.Radix.{
  Radix, Children, node, empty, edge, get, insert_child, common, push_terminal, or_fresh, split,
  settle, insert_loop, insert,
}
use mini_sub2api.Subscription.Radix.Stored.{
  Stored, here, below, contains, IsValid, AreValid, valid, none_left, insert_child-AreValid,
  get-AreValid, get-insert_child, common_lem,
}
use mini_sub2api.Subscription.Radix.Split.{Stored-split, split-IsValid, edge-split}

-- The contract of an insertion of `response` at `path` into `t`.
pub record Inserts (t : Radix) (path : List ℕ) (response : String) (t' : Radix) : Type 0 where
  pub valid' : IsValid t'
  pub new : Stored t' path response
  pub old : (q : List ℕ) (id : String) → Stored t q id → Stored t' q id
  pub only :
      (q : List ℕ) (id : String) → Stored t' q id → Stored t q id ⊎ ((q ≡ path) × (id ≡ response))

contains-append :
    (id x : String) (ts : List String)
    → contains id (ts ++ x ∷ []) ≡ (if contains id ts then true else str_eq x id)
contains-append id x [] = ground arith
contains-append id x (t ∷ ts) = ground (arith, contains-append id x ts)

push_terminal_self : (r : String) (ts : List String) → contains r (push_terminal r ts) ≡ true
unfolding push_terminal
push_terminal_self r ts = ground (arith, contains-append r r ts, eq_iff r r)

push_terminal_old :
    (r id : String) (ts : List String)
    → contains id ts ≡ true
    → contains id (push_terminal r ts) ≡ true
unfolding push_terminal
push_terminal_old r id ts h = ground (arith, contains-append id r ts)

push_terminal_only :
    (r id : String) (ts : List String)
    → contains id (push_terminal r ts) ≡ true
    → (contains id ts ≡ true) ⊎ (id ≡ r)
unfolding push_terminal
push_terminal_only r id ts h = ground (arith, contains-append id r ts, eq_iff r id)

-- The path ends at this node.
push-Inserts :
    (e : List ℕ) (ts : List String) (cs : Children) (response : String)
    → AreValid cs
    → ((q : List ℕ) (id : String)
        → Stored (node e (push_terminal response ts) cs) q id
        → Stored (node e ts cs) q id ⊎ ((q ≡ e) × (id ≡ response)))
      × ((q : List ℕ) (id : String)
          → Stored (node e ts cs) q id
          → Stored (node e (push_terminal response ts) cs) q id)
push-Inserts e ts cs response v = (only, old)
  where
    only :
        (q : List ℕ) (id : String)
        → Stored (node e (push_terminal response ts) cs) q id
        → Stored (node e ts cs) q id ⊎ ((q ≡ e) × (id ≡ response))
    only q id (here p c) = elim (push_terminal_only response id ts c) [
      | inl h ↦ inl (here p h)
      | inr h ↦ inr (p, h)
    ]
    only q id (below k rest t p g s) = inl (below k rest t p g s)

    old :
        (q : List ℕ) (id : String)
        → Stored (node e ts cs) q id
        → Stored (node e (push_terminal response ts) cs) q id
    old q id (here p c) = here p (push_terminal_old response id ts c)
    old q id (below k rest t p g s) = below k rest t p g s

-- The child that the walk goes on to holds what the map holds under the key.
or_fresh-old :
    (k : ℕ) (r : List ℕ) (cs : Children) (t : Radix) (q : List ℕ) (id : String)
    → get k cs ≡ some t
    → Stored t q id
    → Stored (or_fresh (k ∷ r) (get k cs)) q id
or_fresh-old k r cs t q id g s = rw g s

not-Stored-fresh : (e q : List ℕ) (id : String) → ¬ Stored (node e [] empty) q id
unfolding get
not-Stored-fresh e q id (here p c) = cc
not-Stored-fresh e q id (below k rest t p g s) = cc

or_fresh-only :
    (k : ℕ) (r : List ℕ) (cs : Children) (q : List ℕ) (id : String)
    → Stored (or_fresh (k ∷ r) (get k cs)) q id
    → (t : Radix) × (get k cs ≡ some t) × Stored t q id
or_fresh-only k r cs q id s = elim (Option-cases (get k cs)) [
  | inl e ↦ absurd (not-Stored-fresh (k ∷ r) q id (rw e at s))
  | inr (t, e) ↦ (t, e, rw e at s)
]

or_fresh-IsValid :
    (k : ℕ) (r : List ℕ) (cs : Children)
    → AreValid cs
    → ((rest : List ℕ) × (edge (or_fresh (k ∷ r) (get k cs)) ≡ k ∷ rest))
      × IsValid (or_fresh (k ∷ r) (get k cs))
or_fresh-IsValid k r cs v = elim (Option-cases (get k cs)) [
  | inl e ↦ rw e ((r, refl), valid none_left)
  | inr (t, e) ↦ rw e (get-AreValid k t v e)
]

-- The path goes on below this node, into the child `c` that becomes `c'`.
module _ (e : List ℕ) (ts : List String) (cs : Children) (k : ℕ) (r : List ℕ) (response : String)
    (c' : Radix) (inserted : Inserts (or_fresh (k ∷ r) (get k cs)) (k ∷ r) response c') where
  descend-only :
      (q : List ℕ) (id : String)
      → Stored (node e ts (insert_child k c' cs)) q id
      → Stored (node e ts cs) q id ⊎ ((q ≡ e ++ k ∷ r) × (id ≡ response))
  descend-only q id (here p c) = inl (here p c)
  descend-only q id (below j rest t p g s) = elim (Bool-cases (k == j)) [
    | inl same ↦
        let kj : k ≡ j = ground arith in
        let ct : c' ≡ t = ground (arith, get-insert_child j k c' cs) in
        elim (inserted.only (j ∷ rest) id (subst (λ z. Stored z (j ∷ rest) id) (sym ct) s)) [
          | inl was ↦
              let (u, g', s') = or_fresh-only k r cs (j ∷ rest) id was in
              inl (below j rest u p (rw (← kj) g') s')
          | inr (pq, pid) ↦ inr (p ∙ ap (◌++◌ e) pq, pid)
        ]
    | inr other ↦ inl (below j rest t p (ground (arith, get-insert_child j k c' cs)) s)
  ]

  descend-old :
      (q : List ℕ) (id : String)
      → Stored (node e ts cs) q id
      → Stored (node e ts (insert_child k c' cs)) q id
  descend-old q id (here p c) = here p c
  descend-old q id (below j rest t p g s) = elim (Bool-cases (k == j)) [
    | inl same ↦
        let kj : k ≡ j = ground arith in
        below j rest c' p (ground (arith, get-insert_child j k c' cs))
          (inserted.old (j ∷ rest) id (or_fresh-old k r cs t (j ∷ rest) id (rw kj g) s))
    | inr other ↦ below j rest t p (ground (arith, get-insert_child j k c' cs)) s
  ]

-- One pass behind the split, given the call for the child.
settle-Inserts :
    (descend : Radix → List ℕ → Option Radix) (response : String) (rest : List ℕ) (t : Radix)
    → IsValid t
    → ((c : Radix) (k : ℕ) (r s : List ℕ)
        → rest ≡ k ∷ r
        → edge c ≡ k ∷ s
        → IsValid c
        → (c' : Radix) × (descend c (k ∷ r) ≡ some c')
          × ((s' : List ℕ) × (edge c' ≡ k ∷ s'))
          × Inserts c (k ∷ r) response c')
    → (t' : Radix) × (settle descend response rest t ≡ some t')
      × (edge t' ≡ edge t)
      × Inserts t (edge t ++ rest) response t'
unfolding settle
settle-Inserts descend response [] (node e ts cs) (valid v) rec =
    let both = push-Inserts e ts cs response v in
    (
      node e (push_terminal response ts) cs,
      refl,
      refl,
      record {
        valid' = valid v;
        new = here (append-nil e) (push_terminal_self response ts);
        old = both.1;
        only = λ q id s. rw (append-nil e) (both.0 q id s);
      },
    )
settle-Inserts descend response (k ∷ r) (node e ts cs) (valid v) rec =
    let ((s, starts), vc) = or_fresh-IsValid k r cs v in
    let (c', run, (s', starts'), inserted) =
      rec (or_fresh (k ∷ r) (get k cs)) k r s refl starts vc in
    (
      node e ts (insert_child k c' cs),
      rw (run, settle),
      refl,
      record {
        valid' = valid (insert_child-AreValid k c' s' starts' inserted.valid' v);
        new = below k r c' refl (ground (arith, get-insert_child k k c' cs)) inserted.new;
        old = descend-old e ts cs k r response c' inserted;
        only = descend-only e ts cs k r response c' inserted;
      },
    )

length-drop-le : (n : ℕ) (xs : List ℕ) → length (drop n xs) ≤ length xs
length-drop-le zero xs = omega arith
length-drop-le (suc n) [] = omega arith
length-drop-le (suc n) (x ∷ xs) = omega (arith, length-drop-le n xs)

-- The first keys agree, so the child covers at least one key of what is left.
common-cons : (k : ℕ) (r s : List ℕ) → common (k ∷ s) (k ∷ r) ≡ suc (common s r)
unfolding common
common-cons k r s = ground arith

-- Fuel above what the node's edge leaves of the path.
abbrev Fits : ℕ → Radix → List ℕ → Type 0
Fits fuel t path = length (drop (common (edge t) path) path) < fuel

abbrev Returns : ℕ → String → Radix → List ℕ → Type 0
Returns fuel response t path =
    (t' : Radix) × (insert_loop fuel response t path ≡ some t')
    × (edge t' ≡ take (common (edge t) path) (edge t))
    × Inserts t path response t'

child-Returns :
    (fuel : ℕ) (response : String) (c : Radix) (k : ℕ) (r s : List ℕ)
    → edge c ≡ k ∷ s
    → IsValid c
    → length (k ∷ r) < suc fuel
    → ((c' : Radix) (p : List ℕ) → IsValid c' → Fits fuel c' p → Returns fuel response c' p)
    → (c' : Radix) × (insert_loop fuel response c (k ∷ r) ≡ some c')
      × ((s' : List ℕ) × (edge c' ≡ k ∷ s'))
      × Inserts c (k ∷ r) response c'
child-Returns fuel response c k r s starts vc h ih =
    let n : common (edge c) (k ∷ r) ≡ suc (common s r) = rw (starts, common-cons) in
    let (c', run, kept, i) =
      ih c (k ∷ r) vc (rw n (omega (arith, length-drop-le (common s r) r))) in
    (c', run, (take (common s r) s, kept ∙ rw (n, starts)), i)

loop_step :
    (fuel : ℕ) (response : String) (t : Radix) (path : List ℕ)
    → IsValid t
    → Fits (suc fuel) t path
    → ((c : Radix) (p : List ℕ) → IsValid c → Fits fuel c p → Returns fuel response c p)
    → Returns (suc fuel) response t path
unfolding insert_loop
loop_step fuel response t path v h ih =
    let n = common (edge t) path in
    let (t', run, kept, i) =
      settle-Inserts (insert_loop fuel response) response (drop n path) (split n t)
        (split-IsValid n t v)
        (λ c k r s e starts vc.
          child-Returns fuel response c k r s starts vc (subst (λ z. length z < suc fuel) e h)
            ih) in
    let whole : edge (split n t) ++ drop n path ≡ path =
      rw (edge-split n t, ← (common_lem (edge t) path).0) (take-append-drop n path) in
    (
      t',
      run,
      kept ∙ edge-split n t,
      record {
        valid' = i.valid';
        new = rw whole at i.new;
        old = λ q id s. i.old q id ((Stored-split n t q id).1 s);
        only = λ q id s. elim (i.only q id s) [
          | inl was ↦ inl ((Stored-split n t q id).0 was)
          | inr (e, e') ↦ inr (e ∙ whole, e')
        ];
      },
    )

insert_loop-Returns :
    (fuel : ℕ) (response : String) (t : Radix) (path : List ℕ)
    → IsValid t
    → Fits fuel t path
    → Returns fuel response t path
insert_loop-Returns zero response t path v h = absurd (omega arith)
insert_loop-Returns (suc fuel) response t path v h =
    loop_step fuel response t path v h (λ c p vc hc. insert_loop-Returns fuel response c p vc hc)

-- On every valid index, at every path, `insert` returns: the result is valid, holds the response at
-- the path, holds all that the index held, and nothing else.
pub insert-Inserts :
    (t : Radix) (path : List ℕ) (response : String)
    → IsValid t
    → (t' : Radix) × (insert t path response ≡ some t') × Inserts t path response t'
unfolding insert
insert-Inserts t path response v =
    let (t', run, kept, i) =
      insert_loop-Returns (length path + 2) response t path v
        (omega (arith, length-drop-le (common (edge t) path) path)) in
    (t', run, i)
