-- ===== src/Subscription/Radix/Split.antt =====
-- Splitting an edge changes nothing that the index holds.
use mathlib.Core.List.{append_assoc, append-nil}
use mini_sub2api.Base.{
  ℕ, ◌≡◌, refl, sym, ap, ◌∙◌, ◌↔◌, String, List, [], ◌∷◌, ◌++◌, take, drop, take-append-drop, arith,
  subst,
}
use mini_sub2api.Subscription.Radix.{
  Radix, Children, node, empty, entry, edge, get, insert_child, split,
}
use mini_sub2api.Subscription.Radix.Stored.{
  Stored, here, below, IsValid, valid, none_left, one_more,
}

Stored-prepend :
    (a b r : List ℕ) (ts : List String) (cs : Children) (id : String)
    → Stored (node b ts cs) r id
    → Stored (node (a ++ b) ts cs) (a ++ r) id
Stored-prepend a b r ts cs id (here e c) = here (ap (◌++◌ a) e) c
Stored-prepend a b r ts cs id (below k rest t e g s) =
    below k rest t (ap (◌++◌ a) e ∙ sym (append_assoc a b (k ∷ rest))) g s

Stored-strip :
    (a b q : List ℕ) (ts : List String) (cs : Children) (id : String)
    → Stored (node (a ++ b) ts cs) q id
    → (r : List ℕ) × (q ≡ a ++ r) × Stored (node b ts cs) r id
Stored-strip a b q ts cs id (here e c) = (b, e, here refl c)
Stored-strip a b q ts cs id (below k rest t e g s) =
    (b ++ k ∷ rest, e ∙ append_assoc a b (k ∷ rest), below k rest t refl g s)

-- Whatever a node with a nonempty edge holds, it holds under the first key of the edge.
pub Stored-head :
    (k : ℕ) (s r : List ℕ) (ts : List String) (cs : Children) (id : String)
    → Stored (node (k ∷ s) ts cs) r id
    → (rest : List ℕ) × (r ≡ k ∷ rest)
Stored-head k s r ts cs id (here e c) = (s, e)
Stored-head k s r ts cs id (below j rest t e g u) = (s ++ j ∷ rest, e)

hoist-Stored :
    (a : List ℕ) (k : ℕ) (s q : List ℕ) (ts : List String) (cs : Children) (id : String)
    → Stored (node a [] (entry k (node (k ∷ s) ts cs) empty)) q id
    → Stored (node (a ++ k ∷ s) ts cs) q id
unfolding get
hoist-Stored a k s q ts cs id (here e c) = cc
hoist-Stored a k s q ts cs id (below j rest t e g u) =
    let p : t ≡ node (k ∷ s) ts cs = ground arith in
    subst (λ z. Stored (node (a ++ k ∷ s) ts cs) z id) (sym e)
      (Stored-prepend a (k ∷ s) (j ∷ rest) ts cs id (subst (λ z. Stored z (j ∷ rest) id) p u))

lower-Stored :
    (a : List ℕ) (k : ℕ) (s q : List ℕ) (ts : List String) (cs : Children) (id : String)
    → Stored (node (a ++ k ∷ s) ts cs) q id
    → Stored (node a [] (entry k (node (k ∷ s) ts cs) empty)) q id
unfolding get
lower-Stored a k s q ts cs id h =
    let (r, e, u) = Stored-strip a (k ∷ s) q ts cs id h in
    let (rest, e') = Stored-head k s r ts cs id u in
    below k rest (node (k ∷ s) ts cs) (e ∙ ap (◌++◌ a) e') (ground arith)
      (subst (λ z. Stored (node (k ∷ s) ts cs) z id) e' u)

pub Stored-split :
    (n : ℕ) (t : Radix) (q : List ℕ) (id : String) → Stored (split n t) q id ↔ Stored t q id
unfolding split insert_child
Stored-split n (node e ts cs) q id = go (drop n e) refl
  where
    go :
        (d : List ℕ)
        → drop n e ≡ d
        → Stored (split n (node e ts cs)) q id ↔ Stored (node e ts cs) q id
    go [] p = rw (p, split) (λ h. h, λ h. h)
    go (k ∷ s) p =
        let whole : take n e ++ k ∷ s ≡ e = ap (◌++◌ (take n e)) (sym p) ∙ take-append-drop n e in
        rw (p, split)
          (
            λ h.
                subst (λ z. Stored (node z ts cs) q id) whole
                  (hoist-Stored (take n e) k s q ts cs id h),
            λ h.
                lower-Stored (take n e) k s q ts cs id
                  (subst (λ z. Stored (node z ts cs) q id) (sym whole) h),
          )

pub split-IsValid : (n : ℕ) (t : Radix) → IsValid t → IsValid (split n t)
unfolding split insert_child
split-IsValid n (node e ts cs) (valid v) = go (drop n e) refl
  where
    go : (d : List ℕ) → drop n e ≡ d → IsValid (split n (node e ts cs))
    go [] p = rw (p, split) (valid v)
    go (k ∷ s) p = rw (p, split) (valid (one_more s refl (valid v) none_left))

-- The split node keeps as much of the edge as the path shares.
pub edge-split : (n : ℕ) (t : Radix) → edge (split n t) ≡ take n (edge t)
unfolding split
edge-split n (node e ts cs) = go (drop n e) refl
  where
    go : (d : List ℕ) → drop n e ≡ d → edge (split n (node e ts cs)) ≡ take n e
    go [] p =
        rw (p, split) (sym (take-append-drop n e) ∙ ap (◌++◌ (take n e)) p ∙ append-nil (take n e))
    go (k ∷ s) p = rw (p, split)
