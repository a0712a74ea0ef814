-- ===== src/Subscription/Radix/Index.antt =====
-- The index as its client sees it: after any sequence of insertions, the completed responses along a
-- path are those that were inserted at a prefix of it.
use mini_sub2api.Base.{
  ℕ, ◌≡◌, refl, sym, ◌⊎◌, inl, inr, ◌↔◌, String, Option, none, some, List, [], ◌∷◌, ◌++◌, length,
  In, arith, subst,
}
use mini_sub2api.Subscription.Radix.{Radix, get, insert, prefixes, default}
use mini_sub2api.Subscription.Radix.Stored.{Stored, here, below, IsValid, valid, none_left}
use mini_sub2api.Subscription.Radix.Insert.{insert-Inserts}
use mini_sub2api.Subscription.Radix.Prefixes.{prefixes-Along}

abbrev pub Insertion : Type 0
Insertion = List ℕ × String

-- Insertions one after the other.
unfoldable pub insert_all : List Insertion → Radix → Option Radix
insert_all [] t = some t
insert_all ((path, response) ∷ more) t = elim (insert t path response) [
  | none ↦ none
  | some t' ↦ insert_all more t'
]

default-IsValid : IsValid default
default-IsValid = valid none_left

not-Stored-default : (q : List ℕ) (id : String) → ¬ Stored default q id
unfolding get
not-Stored-default q id (here p c) = cc
not-Stored-default q id (below k rest t p g s) = cc

insert_all-Stored :
    (ops : List Insertion) (t : Radix)
    → IsValid t
    → (t' : Radix) × (insert_all ops t ≡ some t')
      × IsValid t'
      × ((q : List ℕ) (id : String)
          → Stored t' q id ↔ (Stored t q id ⊎ In {A = Insertion} (q, id) ops))
unfolding insert_all
insert_all-Stored [] t v =
    (t, refl, v, λ q id. (λ s. inl s, λ h. elim h [ inl s ↦ s | inr n ↦ absurd n ]))
insert_all-Stored ((path, response) ∷ more) t v =
    let (u, run, i) = insert-Inserts t path response v in
    let (t', run', v', iff) = insert_all-Stored more u i.valid' in
    (
      t',
      rw (run, insert_all) run',
      v',
      λ q id. (
        λ s. elim ((iff q id).0 s) [
          | inl was ↦ elim (i.only q id was) [
            | inl older ↦ inl older
            | inr (p, e) ↦ inr (inl (ground arith))
          ]
          | inr later ↦ inr (inr later)
        ],
        λ h. elim h [
          | inl older ↦ (iff q id).1 (inl (i.old q id older))
          | inr (inl same) ↦
              (iff q id).1 (inl (subst (λ (z : Insertion). Stored u z.0 z.1) (sym same) i.new))
          | inr (inr later) ↦ (iff q id).1 (inr later)
        ],
      ),
    )

-- After any sequence of insertions into the empty index, at any path: every insertion returns, the
-- lookup returns, and it reports `id` at offset `m` exactly when `id` was inserted at a prefix of
-- the path that is `m` keys long.
pub prefixes-insert_all :
    (ops : List Insertion) (path : List ℕ)
    → (t : Radix) × (found : List (ℕ × String)) × (insert_all ops default ≡ some t)
      × (prefixes t path ≡ some found)
      × ((m : ℕ) (id : String)
          → In {A = ℕ × String} (m, id) found ↔ (
              (p : List ℕ) × (s : List ℕ) × (path ≡ p ++ s)
              × (m ≡ length p)
              × In {A = Insertion} (p, id) ops))
prefixes-insert_all ops path =
    let (t, built, v, stored) = insert_all-Stored ops default default-IsValid in
    let (found, run, reports) = prefixes-Along t path v in
    (
      t,
      found,
      built,
      run,
      λ m id. (
        λ h.
            let a = (reports m id).0 h in
            elim ((stored a.prefix id).0 a.stored) [
              | inl none' ↦ absurd (not-Stored-default a.prefix id none')
              | inr i ↦ (a.prefix, a.suffix, a.joined, omega (arith, a.at), i)
            ],
        λ (p, s, joined, at, i). (reports m id).1 (record {
          prefix = p;
          suffix = s;
          joined = joined;
          at = omega arith;
          stored = (stored p id).1 (inr i);
        }),
      ),
    )
