-- ===== src/RequestState/Prune/Scopes.antt =====
-- src/core/codex/src/request_state_prune_policy.rs: the scope that `prune_scope_count` and `evict_one`
-- choose.
use mini_sub2api.Base.{
  ◌≡◌, refl, sym, subst, Option, String, Bool, true, false, not, some, none, List, [], ◌∷◌, map,
  filter, arith, eq_iff, All, Bool-cases, filter_yes, filter_no, inl, inr,
}
use mathlib.Core.Option.{some-injective}
use mini_sub2api.Base.TextMap.{TextMap, has_text, contains_key, keys}
use mini_sub2api.RequestState.Types.{ScopeState, PersistedRequestState}
use mini_sub2api.RequestState.Prune.Protect.{ProtectedStateKeys}
use mini_sub2api.RequestState.Prune.Policy.{Candidate, earliest, key_of, oldest_scope}
use mini_sub2api.RequestState.Prune.Earliest.{earliest-All, earliest-none}
use mini_sub2api.RequestState.Prune.Selection.{keys-All}

abbrev scope_candidate : String × ScopeState → Candidate
scope_candidate e = record { day = e.1.last_seen_day; scope_key = e.0; key = e.0 }

key_of-some :
    (o : Option Candidate) (key : String)
    → key_of o ≡ some key
    → (c : Candidate) × (o ≡ some c) × (c.key ≡ key)
key_of-some none key h = cc
key_of-some (some c) key h = (c, refl, some-injective c.key key h)

key_of-none : (o : Option Candidate) → key_of o ≡ none → o ≡ none
key_of-none none h = refl
key_of-none (some c) h = cc

module _ (p : ProtectedStateKeys) where
  abbrev is_free : String × ScopeState → Bool
  is_free e = not (has_text e.0 p.scopes)

  abbrev scopes_left : TextMap ScopeState → List Candidate
  scopes_left scopes = map scope_candidate (filter is_free scopes)

  abbrev IsFree {κ} : (String → Type κ) → Candidate → Type κ
  IsFree Q c = Q c.key × (has_text c.key p.scopes ≡ false)

  scopes_left-All {κ} :
      (Q : String → Type κ) (scopes : TextMap ScopeState)
      → All Q (keys scopes)
      → All (IsFree Q) (scopes_left scopes)
  scopes_left-All Q [] a = tt
  scopes_left-All Q ((k, s) ∷ scopes) a = elim (Bool-cases (is_free (k, s))) [
    | inl y ↦
        subst (λ xs. All (IsFree Q) (map scope_candidate xs))
          (sym (filter_yes is_free (k, s) scopes y))
          ((a.0, ground arith), scopes_left-All Q scopes a.1)
    | inr n ↦
        subst (λ xs. All (IsFree Q) (map scope_candidate xs))
          (sym (filter_no is_free (k, s) scopes n)) (scopes_left-All Q scopes a.1)
  ]

  -- The chosen scope is there and is not protected.
  pub oldest_scope-free :
      (state : PersistedRequestState) (key : String)
      → oldest_scope p state ≡ some key
      → (contains_key key state.scopes ≡ true) × (has_text key p.scopes ≡ false)
  unfolding oldest_scope
  oldest_scope-free state key h =
      let (c, e, same) = key_of-some (earliest (scopes_left state.scopes)) key h in
      subst (λ k. (contains_key k state.scopes ≡ true) × (has_text k p.scopes ≡ false)) same
        (earliest-All
          (λ x. (contains_key x.key state.scopes ≡ true) × (has_text x.key p.scopes ≡ false))
          (scopes_left state.scopes) c
          (scopes_left-All (λ k. contains_key k state.scopes ≡ true) state.scopes
            (keys-All state.scopes))
          e)

  left_none :
      (scopes : TextMap ScopeState)
      → scopes_left scopes ≡ []
      → (k : String) → contains_key k scopes ≡ true
      → has_text k p.scopes ≡ true
  left_none [] h k c = cc
  left_none ((j, s) ∷ scopes) h k c = elim (Bool-cases (is_free (j, s))) [
    | inl y ↦
        let q = subst (λ xs. map scope_candidate xs ≡ []) (filter_yes is_free (j, s) scopes y) h in
        cc
    | inr n ↦
        let q = subst (λ xs. map scope_candidate xs ≡ []) (filter_no is_free (j, s) scopes n) h in
        let rest = left_none scopes q k in ground (arith, rest, eq_iff j k)
  ]

  -- Where none is chosen, all scopes are protected.
  pub oldest_scope-none :
      (state : PersistedRequestState)
      → oldest_scope p state ≡ none
      → (k : String) → contains_key k state.scopes ≡ true
      → has_text k p.scopes ≡ true
  unfolding oldest_scope
  oldest_scope-none state h = left_none state.scopes (
      earliest-none (scopes_left state.scopes)
        (key_of-none (earliest (scopes_left state.scopes)) h))
