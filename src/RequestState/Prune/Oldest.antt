-- ===== src/RequestState/Prune/Oldest.antt =====
-- src/core/codex/src/request_state_prune.rs: what `oldest_entry` returns.
use mini_sub2api.Base.{
  ◌≡◌, refl, sym, ◌∙◌, subst, String, true, false, Option, some, none, Bool-cases, Option-cases,
  inl, inr,
}
use mini_sub2api.Base.Order.{int_ltb}
use mini_sub2api.Base.TextMap.{lookup, IsDistinct}
use mini_sub2api.RequestState.Types.{ScopeState, PersistedRequestState, EntryKind}
use mini_sub2api.RequestState.Prune.{holds}
use mini_sub2api.RequestState.Prune.Protect.{ProtectedStateKeys, removable}
use mini_sub2api.RequestState.Prune.Earliest.{earliest-All, earliest-none, earliest-day}
use mini_sub2api.RequestState.Prune.Policy.{
  entry_day, day_in, Candidate, selects, candidates, oldest_candidate, oldest_entry,
}
use mini_sub2api.RequestState.Prune.Selection.{
  found_in, IsCandidate, candidates-All, All-candidates,
}

module _ (p : ProtectedStateKeys) (kind : EntryKind) where
  -- An entry of the kind, in a scope that is asked for, may be removed.
  abbrev pub IsRemovable :
      Option String → PersistedRequestState → String → ScopeState → String → Type 0
  IsRemovable only state k s key =
      (lookup k state.scopes ≡ some s)
      × (selects only k ≡ true)
      × (holds s kind key ≡ true)
      × (removable s k p kind key ≡ true)

  -- With no entry, none may be removed. An entry may be removed, and no other that may be was last seen
  -- on an earlier day.
  abbrev pub IsOldest : Option String → PersistedRequestState → Option (String × String) → Type 0
  IsOldest only state none =
      (k : String) (s : ScopeState) (key : String)
      → lookup k state.scopes ≡ some s
      → selects only k ≡ true
      → holds s kind key ≡ true
      → removable s k p kind key ≡ false
  IsOldest only state (some e) =
      ((s : ScopeState) × IsRemovable only state e.0 s e.1)
      × ((k : String) (s : ScopeState) (key : String)
          → IsRemovable only state k s key
          → int_ltb (entry_day kind s key) (day_in kind state e) ≡ false)

  candidate_lem :
      (only : Option String) (state : PersistedRequestState) (c : Candidate)
      → IsDistinct state.scopes
      → oldest_candidate p kind only state ≡ some c
      → IsCandidate p kind state.scopes c × (selects only c.scope_key ≡ true)
  unfolding oldest_candidate
  candidate_lem only state c d h =
      earliest-All (λ x. IsCandidate p kind state.scopes x × (selects only x.scope_key ≡ true))
        (candidates p kind only state.scopes) c
        (candidates-All p kind only state.scopes state.scopes (found_in state.scopes d)) h

  no_candidate :
      (only : Option String) (state : PersistedRequestState)
      → oldest_candidate p kind only state ≡ none
      → IsOldest only state none
  unfolding oldest_candidate
  no_candidate only state h k s key e y held = elim (Bool-cases (removable s k p kind key)) [
    | inl free ↦ absurd (
        All-candidates p kind (λ x. ⊥) only state.scopes
          (rw (earliest-none (candidates p kind only state.scopes) h) tt) k s key e y held free)
    | inr n ↦ n
  ]

  candidate_day :
      (only : Option String) (state : PersistedRequestState) (c : Candidate)
      → oldest_candidate p kind only state ≡ some c
      → (k : String) (s : ScopeState) (key : String) → IsRemovable only state k s key
      → int_ltb (entry_day kind s key) c.day ≡ false
  unfolding oldest_candidate
  candidate_day only state c h k s key (e, y, held, free) =
      All-candidates p kind (λ x. int_ltb x.day c.day ≡ false) only state.scopes
        (earliest-day (candidates p kind only state.scopes) c h) k s key e y held free

  -- `oldest_entry` returns none exactly if no entry of the kind, in a scope that is asked for, may be
  -- removed. Otherwise it returns the keys of such an entry, and no entry of the kind that may be
  -- removed, in a scope that is asked for, was last seen on an earlier day than that entry.
  pub oldest_entry-IsOldest :
      (only : Option String) (state : PersistedRequestState)
      → IsDistinct state.scopes
      → IsOldest only state (oldest_entry p kind only state)
  unfolding oldest_entry day_in
  oldest_entry-IsOldest only state d = elim (Option-cases (oldest_candidate p kind only state)) [
    | inl e ↦ rw (e, oldest_entry) (no_candidate only state e)
    | inr (c, e) ↦
        let ((s, at_c, held, free, day), sel) = candidate_lem only state c d e in
        let same : day_in kind state (c.scope_key, c.key) ≡ c.day = sym (day ∙ (rw at_c refl)) in
        rw (e, oldest_entry)
          (
            (s, (at_c, sel, held, free)),
            λ k r key may.
                subst (λ z. int_ltb (entry_day kind r key) z ≡ false) (sym same)
                  (candidate_day only state c e k r key may),
          )
  ]

  pub oldest_entry-none :
      (only : Option String) (state : PersistedRequestState)
      → IsDistinct state.scopes
      → oldest_entry p kind only state ≡ none
      → IsOldest only state none
  oldest_entry-none only state d h =
      subst (IsOldest only state) h (oldest_entry-IsOldest only state d)

  pub oldest_entry-some :
      (only : Option String) (state : PersistedRequestState) (e : String × String)
      → IsDistinct state.scopes
      → oldest_entry p kind only state ≡ some e
      → IsOldest only state (some e)
  oldest_entry-some only state e d h =
      subst (IsOldest only state) h (oldest_entry-IsOldest only state d)
