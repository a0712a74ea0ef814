-- ===== src/RequestState/Prune/Steps.antt =====
-- src/core/codex/src/request_state_prune.rs and request_state_prune_policy.rs: the changes that pruning
-- makes to a ledger, as steps.
use mini_sub2api.Base.{
  ◌≡◌, sym, subst, String, true, false, some, arith, str_eq, eq_iff, Bool-cases, inl, inr,
}
use mini_sub2api.Base.TextMap.{
  lookup, contains_key, has_text, IsDistinct, remove-IsDistinct, update-IsDistinct, lookup-update,
  lookup-remove-some,
}
use mini_sub2api.RequestState.Types.{ScopeState, PersistedRequestState, EntryKind}
use mini_sub2api.RequestState.Prune.{holds, remove_from}
use mini_sub2api.RequestState.Prune.Protect.{ProtectedStateKeys, removable}
use mini_sub2api.RequestState.Prune.Policy.{remove_entry, remove_scope}

pub data Removes (p : ProtectedStateKeys)
    : PersistedRequestState → PersistedRequestState → Type 0 where
  entry :
      (kind : EntryKind) (scope_key key : String) (s : ScopeState) (state : PersistedRequestState)
      → lookup scope_key state.scopes ≡ some s
      → holds s kind key ≡ true
      → removable s scope_key p kind key ≡ true
      → Removes p state (remove_entry kind scope_key key state)
  scope :
      (key : String) (state : PersistedRequestState)
      → contains_key key state.scopes ≡ true
      → has_text key p.scopes ≡ false
      → Removes p state (remove_scope key state)

pub data Removals (p : ProtectedStateKeys)
    : PersistedRequestState → PersistedRequestState → Type 0 where
  none_left : (state : PersistedRequestState) → Removals p state state
  then : {a b c : PersistedRequestState} → Removals p a b → Removes p b c → Removals p a c

pub Removals-append :
    {p : ProtectedStateKeys} {a b c : PersistedRequestState}
    → Removals p a b
    → Removals p b c
    → Removals p a c
Removals-append r (Removals.none_left _) = r
Removals-append r (Removals.then q s) = Removals.then (Removals-append r q) s

-- A property that a removal preserves, removals do.
pub Removals-preserves {κ} :
    {p : ProtectedStateKeys} (P : PersistedRequestState → Type κ)
    → ((a b : PersistedRequestState) → Removes p a b → P a → P b)
    → (a b : PersistedRequestState) → Removals p a b
    → P a
    → P b
Removals-preserves P f a _ (Removals.none_left _) h = h
Removals-preserves P f a c (Removals.then {b = b} q s) h = f b c s (Removals-preserves P f a b q h)

Removes-IsDistinct :
    (p : ProtectedStateKeys) (a b : PersistedRequestState)
    → Removes p a b
    → IsDistinct a.scopes
    → IsDistinct b.scopes
unfolding remove_entry remove_scope
Removes-IsDistinct p _ _ (Removes.entry kind scope_key key s state e h r) d =
    update-IsDistinct scope_key (remove_from kind key) state.scopes d
Removes-IsDistinct p _ _ (Removes.scope key state e h) d = remove-IsDistinct key state.scopes d

pub Removals-IsDistinct :
    {p : ProtectedStateKeys} {a b : PersistedRequestState}
    → Removals p a b
    → IsDistinct a.scopes
    → IsDistinct b.scopes
Removals-IsDistinct {p} {a} {b} r d =
    Removals-preserves (λ s. IsDistinct s.scopes) (Removes-IsDistinct p) a b r d

-- Each scope that is left comes from one that was there, by removals of entries.
module _ {κ} (R : ScopeState → ScopeState → Type κ) (same : (s : ScopeState) → R s s)
    (trans : (s r q : ScopeState) → R s r → R r q → R s q)
    (removed : (kind : EntryKind) (key : String) (s : ScopeState)
      → R s (remove_from kind key s)) where
  abbrev pub Comes : PersistedRequestState → PersistedRequestState → Type κ
  Comes a b =
      (k : String) (r : ScopeState)
      → lookup k b.scopes ≡ some r
      → (s : ScopeState) × (lookup k a.scopes ≡ some s) × R s r

  Removes-Comes :
      (p : ProtectedStateKeys) (a b : PersistedRequestState)
      → Removes p a b
      → IsDistinct a.scopes
      → Comes a b
  unfolding remove_entry remove_scope
  Removes-Comes p _ _ (Removes.entry kind scope_key key s state e h free) d k r there =
      let new = lookup-update k scope_key (remove_from kind key) state.scopes in
      elim (Bool-cases (str_eq scope_key k)) [
        | inl y ↦
            let here : lookup k state.scopes ≡ some s = ground (arith, eq_iff scope_key k) in
            let result : r ≡ remove_from kind key s = ground arith in
            (s, here, subst (R s) (sym result) (removed kind key s))
        | inr n ↦ (r, ground arith, same r)
      ]
  Removes-Comes p _ _ (Removes.scope key state e h) d k r there =
      (r, (lookup-remove-some k key r state.scopes d there).1, same r)

  pub Removals-Comes :
      (p : ProtectedStateKeys) (a b : PersistedRequestState)
      → Removals p a b
      → IsDistinct a.scopes
      → Comes a b
  Removals-Comes p a _ (Removals.none_left _) d k r there = (r, there, same r)
  Removals-Comes p a c (Removals.then {b = b} q step) d k r there =
      let (s, at_b, near) = Removes-Comes p b c step (Removals-IsDistinct q d) k r there in
      let (o, at_a, far) = Removals-Comes p a b q d k s at_b in (o, at_a, trans o s r far near)
