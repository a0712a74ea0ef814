-- ===== src/RequestState/Prune/Rounds.antt =====
-- src/core/codex/src/request_state_prune_policy.rs: the loops of `prune`.
use mini_sub2api.Base.{
  ℕ, zero, suc, ◌≤◌, ◌<◌, ◌≡◌, refl, subst, String, Bool, true, false, Option, some, none, length,
  arith, ltb, eq_iff, Option-cases, Bool-cases, inl, inr,
}
use mini_sub2api.Base.TextMap.{lookup, IsDistinct, lookup-update}
use mini_sub2api.RequestState.Types.{
  ScopeState, PersistedRequestState, EntryKind, maximum, scope_maximum, max_scopes,
}
use mini_sub2api.RequestState.Prune.{holds, remove_from}
use mini_sub2api.RequestState.Prune.Protect.{ProtectedStateKeys}
use mini_sub2api.RequestState.Prune.Policy.{
  selects, scope_count, total_entries, oldest_entry, oldest_scope, remove_entry, remove_scope,
  prune_scope, prune_total, prune_scope_count,
}
use mini_sub2api.RequestState.Prune.Counts.{remove_from_fewer}
use mini_sub2api.RequestState.Prune.Oldest.{oldest_entry-some, oldest_entry-none}
use mini_sub2api.RequestState.Prune.Scopes.{oldest_scope-free, oldest_scope-none}
use mini_sub2api.RequestState.Prune.Steps.{Removes, Removals, Removals-IsDistinct}
use mini_sub2api.RequestState.Prune.Totals.{total-remove_entry, length-remove_scope}
use mini_sub2api.RequestState.Prune.Ends.{Blocked, Ends, Ends-now, Ends-refused, Ends-after}

ltb_yes : {m n : ℕ} → ltb m n ≡ true → m < n
ltb_yes h = ground arith

ltb_no : {m n : ℕ} → ltb m n ≡ false → n ≤ m
ltb_no h = ground arith

scope_count-remove_entry :
    (kind : EntryKind) (sk k : String) (s : ScopeState) (state : PersistedRequestState)
    → lookup sk state.scopes ≡ some s
    → holds s kind k ≡ true
    → scope_count kind (lookup sk (remove_entry kind sk k state).scopes)
      < scope_count kind (lookup sk state.scopes)
unfolding remove_entry
scope_count-remove_entry kind sk k s state e h =
    let new = lookup-update sk sk (remove_from kind k) state.scopes in
    let new' : lookup sk (remove_entry kind sk k state).scopes ≡ some (remove_from kind k s) =
      ground (arith, eq_iff sk sk) in
    rw (new', e) (remove_from_fewer kind k s h)

module _ (p : ProtectedStateKeys) where
  -- The step that `oldest_entry` chooses.
  pub chosen :
      (kind : EntryKind) (only : Option String) (state : PersistedRequestState)
      (c : String × String)
      → IsDistinct state.scopes
      → oldest_entry p kind only state ≡ some c
      → (s : ScopeState) × (lookup c.0 state.scopes ≡ some s)
        × (holds s kind c.1 ≡ true)
        × (selects only c.0 ≡ true)
        × Removes p state (remove_entry kind c.0 c.1 state)
  chosen kind only state c d e =
      let ((s, (at_c, sel, held, free)), least) = oldest_entry-some p kind only state c d e in
      (s, at_c, held, sel, Removes.entry kind c.0 c.1 s state at_c held free)

  pub IsDistinct-after :
      {a b : PersistedRequestState} → Removes p a b → IsDistinct a.scopes → IsDistinct b.scopes
  IsDistinct-after {a} step d = Removals-IsDistinct (Removals.then (Removals.none_left a) step) d

  abbrev pub ScopeWithin : EntryKind → String → PersistedRequestState → Type 0
  ScopeWithin kind k state = scope_count kind (lookup k state.scopes) ≤ scope_maximum kind

  pub prune_scope-Ends :
      (fuel : ℕ) (kind : EntryKind) (k : String) (changed : Bool) (a : PersistedRequestState)
      → IsDistinct a.scopes
      → scope_count kind (lookup k a.scopes) < fuel
      → Ends p (ScopeWithin kind k) changed a (prune_scope p fuel kind k changed a)
  unfolding prune_scope
  prune_scope-Ends zero kind k changed a d h = absurd (omega arith)
  prune_scope-Ends (suc fuel) kind k changed a d h =
      elim (Bool-cases (ltb (scope_maximum kind) (scope_count kind (lookup k a.scopes)))) [
        | inl full ↦ elim (Option-cases (oldest_entry p kind (some k) a)) [
          | inl e ↦
              rw (full, e, prune_scope)
                (Ends-refused p (ScopeWithin kind k) changed a (
                  Blocked.scope_full kind k (ltb_yes full) (λ s key at_k held.
                    oldest_entry-none p kind (some k) a d e k s key at_k
                      (ground (arith, eq_iff k k)) held)))
          | inr (c, e) ↦
              let (s, at_c, held, sel, step) = chosen kind (some k) a c d e in
              let same : c.0 ≡ k = (eq_iff c.0 k).0 sel in
              let at_k = subst (λ x. lookup x a.scopes ≡ some s) same at_c in
              let step_k = subst (λ x. Removes p a (remove_entry kind x c.1 a)) same step in
              rw (full, e, prune_scope)
                (Ends-after p (ScopeWithin kind k) changed a (remove_entry kind k c.1 a) _ step_k (
                  prune_scope-Ends fuel kind k true (remove_entry kind k c.1 a)
                    (IsDistinct-after step_k d)
                    (omega (arith, scope_count-remove_entry kind k c.1 s a at_k held))))
        ]
        | inr low ↦ rw (low, prune_scope) (Ends-now p (ScopeWithin kind k) changed a (ltb_no low))
      ]

  abbrev pub TotalWithin : EntryKind → PersistedRequestState → Type 0
  TotalWithin kind state = total_entries state kind ≤ maximum kind

  pub prune_total-Ends :
      (fuel : ℕ) (kind : EntryKind) (changed : Bool) (a : PersistedRequestState)
      → IsDistinct a.scopes
      → total_entries a kind < fuel
      → Ends p (TotalWithin kind) changed a (prune_total p fuel kind changed a)
  unfolding prune_total
  prune_total-Ends zero kind changed a d h = absurd (omega arith)
  prune_total-Ends (suc fuel) kind changed a d h =
      elim (Bool-cases (ltb (maximum kind) (total_entries a kind))) [
        | inl full ↦ elim (Option-cases (oldest_entry p kind none a)) [
          | inl e ↦
              rw (full, e, prune_total)
                (Ends-refused p (TotalWithin kind) changed a (
                  Blocked.ledger_full kind (ltb_yes full) (λ k s key at_k held.
                    oldest_entry-none p kind none a d e k s key at_k refl held)))
          | inr (c, e) ↦
              let (s, at_c, held, sel, step) = chosen kind none a c d e in
              rw (full, e, prune_total)
                (Ends-after p (TotalWithin kind) changed a (remove_entry kind c.0 c.1 a) _ step (
                  prune_total-Ends fuel kind true (remove_entry kind c.0 c.1 a)
                    (IsDistinct-after step d)
                    (omega (arith, total-remove_entry kind c.0 c.1 s a at_c held))))
        ]
        | inr low ↦ rw (low, prune_total) (Ends-now p (TotalWithin kind) changed a (ltb_no low))
      ]

  abbrev pub ScopesWithin : PersistedRequestState → Type 0
  ScopesWithin state = length state.scopes ≤ max_scopes

  pub prune_scope_count-Ends :
      (fuel : ℕ) (changed : Bool) (a : PersistedRequestState)
      → IsDistinct a.scopes
      → length a.scopes < fuel
      → Ends p ScopesWithin changed a (prune_scope_count p fuel changed a)
  unfolding prune_scope_count
  prune_scope_count-Ends zero changed a d h = absurd (omega arith)
  prune_scope_count-Ends (suc fuel) changed a d h =
      elim (Bool-cases (ltb max_scopes (length a.scopes))) [
        | inl full ↦ elim (Option-cases (oldest_scope p a)) [
          | inl e ↦
              rw (full, e, prune_scope_count)
                (Ends-refused p ScopesWithin changed a
                  (Blocked.too_many_scopes (ltb_yes full) (oldest_scope-none p a e)))
          | inr (key, e) ↦
              let (there, free) = oldest_scope-free p a key e in
              let step = Removes.scope key a there free in
              rw (full, e, prune_scope_count)
                (Ends-after p ScopesWithin changed a (remove_scope key a) _ step (
                  prune_scope_count-Ends fuel true (remove_scope key a) (IsDistinct-after step d)
                    (omega (arith, length-remove_scope key a there))))
        ]
        | inr low ↦ rw (low, prune_scope_count) (Ends-now p ScopesWithin changed a (ltb_no low))
      ]
