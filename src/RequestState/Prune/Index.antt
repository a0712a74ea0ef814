-- ===== src/RequestState/Prune/Index.antt =====
-- src/core/codex/src/request_state_prune.rs: the wire entries of a scope and their reverse index.
use mini_sub2api.Base.{
  ◌≡◌, refl, sym, ◌∙◌, ap, subst, String, false, some, none, Option-cases, inl, inr, arith, str_eq,
  eq_iff,
}
use mathlib.Core.Option.{some-injective}
use mini_sub2api.Base.TextMap.{
  lookup, remove, IsDistinct, lookup-remove_ne, lookup-remove-some, remove-IsDistinct,
}
use mini_sub2api.RequestState.Types.{ScopeState, EntryKind, WireIdEntry}
use mini_sub2api.RequestState.Prune.{Wires, wires, remove_pair, remove_from}
use mini_sub2api.RequestState.Prune.Wires.{remove_from-preserves}

-- Each entry is found by its upstream lookup, and the index finds nothing else.
abbrev pub Points : Wires → Type 0
Points w =
    (k : String) (v : WireIdEntry) → lookup k w.0 ≡ some v → lookup v.upstream_lookup w.1 ≡ some k

abbrev pub PointsBack : Wires → Type 0
PointsBack w =
    (u k : String)
    → lookup u w.1 ≡ some k
    → (v : WireIdEntry) × (lookup k w.0 ≡ some v) × (v.upstream_lookup ≡ u)

-- The keys of a `BTreeMap` are distinct.
abbrev pub IsIndexed : Wires → Type 0
IsIndexed w = IsDistinct w.0 × IsDistinct w.1 × Points w × PointsBack w

differ : {s t : String} → (s ≡ t → ⊥) → str_eq s t ≡ false
differ {s} {t} h = ground (arith, eq_iff s t)

remove_there-IsIndexed :
    (key : String) (entry : WireIdEntry) (w : Wires)
    → IsIndexed w
    → lookup key w.0 ≡ some entry
    → IsIndexed (remove key w.0, remove entry.upstream_lookup w.1)
remove_there-IsIndexed key entry w (d, d', points, back) there =
    let own = points key entry there in
    (
      remove-IsDistinct key w.0 d,
      remove-IsDistinct entry.upstream_lookup w.1 d',
      λ k v h.
          let (apart, was) = lookup-remove-some k key v w.0 d h in
          let here = points k v was in
          lookup-remove_ne v.upstream_lookup entry.upstream_lookup w.1 (
            differ (λ same.
              let one : some k ≡ some key = sym here ∙ (ap (λ u. lookup u w.1) (sym same) ∙ own) in
              ground (arith, eq_iff key k)))
          ∙ here,
      λ u k h.
          let (apart, was) = lookup-remove-some u entry.upstream_lookup k w.1 d' h in
          let (v, found, same) = back u k was in
          (
            v,
            lookup-remove_ne k key w.0 (
                  differ (λ same_key.
                    let one : some v ≡ some entry =
                      sym found ∙ (ap (λ j. lookup j w.0) (sym same_key) ∙ there) in
                    let up : entry.upstream_lookup ≡ u =
                      ap (λ e. e.upstream_lookup) (sym (some-injective v entry one)) ∙ same in
                    ground (arith, eq_iff entry.upstream_lookup u)))
                ∙ found,
            same,
          ),
    )

remove_pair-none : (key : String) (w : Wires) → lookup key w.0 ≡ none → remove_pair key w ≡ w
unfolding remove_pair
remove_pair-none key w e = rw (e, remove_pair) refl

remove_pair-some :
    (key : String) (entry : WireIdEntry) (w : Wires)
    → lookup key w.0 ≡ some entry
    → remove_pair key w ≡ (remove key w.0, remove entry.upstream_lookup w.1)
unfolding remove_pair
remove_pair-some key entry w e = rw (e, remove_pair) refl

pub remove_pair-IsIndexed : (key : String) (w : Wires) → IsIndexed w → IsIndexed (remove_pair key w)
remove_pair-IsIndexed key w h = elim (Option-cases (lookup key w.0)) [
  | inl e ↦ subst IsIndexed (sym (remove_pair-none key w e)) h
  | inr (entry, e) ↦
      subst IsIndexed (sym (remove_pair-some key entry w e))
        (remove_there-IsIndexed key entry w h e)
]

pub remove_from-IsIndexed :
    (kind : EntryKind) (key : String) (s : ScopeState)
    → IsIndexed (wires s)
    → IsIndexed (wires (remove_from kind key s))
remove_from-IsIndexed kind key s = remove_from-preserves IsIndexed remove_pair-IsIndexed kind key s
