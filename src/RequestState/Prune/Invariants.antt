-- ===== src/RequestState/Prune/Invariants.antt =====
-- src/core/codex/src/request_state_prune.rs and request_state_prune_policy.rs: entries, indexes and
-- scopes of a ledger along the steps.
use mini_sub2api.Base.{
  ◌≤◌, ◌≡◌, sym, ◌∙◌, subst, String, true, some, arith, str_eq, eq_iff, Option-cases, Bool-cases,
  inl, inr,
}
use mathlib.Core.Option.{some-injective}
use mini_sub2api.Base.TextMap.{lookup, has_text, IsDistinct, lookup-update, lookup-remove_ne}
use mini_sub2api.RequestState.Types.{ScopeState, PersistedRequestState, EntryKind}
use mini_sub2api.RequestState.Prune.{holds, remove_from, wires}
use mini_sub2api.RequestState.Prune.Protect.{ProtectedStateKeys, has_place, places, removable}
use mini_sub2api.RequestState.Prune.Policy.{scope_count, remove_entry, remove_scope}
use mini_sub2api.RequestState.Prune.Counts.{Shrinks, Shrinks-trans, remove_from-Shrinks}
use mini_sub2api.RequestState.Prune.Index.{IsIndexed, remove_from-IsIndexed}
use mini_sub2api.RequestState.Prune.Outlive.{guarded, remove_from-Outlives}
use mini_sub2api.RequestState.Prune.Steps.{
  Removes, Removals, Removals-preserves, Comes, Removals-Comes,
}

-- The ledger has an entry under the key in the scope.
abbrev pub HoldsAt : PersistedRequestState → EntryKind → String → String → Type 0
HoldsAt state kind scope_key key =
    (s : ScopeState) × (lookup scope_key state.scopes ≡ some s) × (holds s kind key ≡ true)

-- An edit protects the entry, and its scope.
abbrev pub IsProtected : ProtectedStateKeys → EntryKind → String → String → Type 0
IsProtected p kind scope_key key =
    (guarded kind ≡ true)
    × (has_place scope_key key (places p kind) ≡ true)
    × (has_text scope_key p.scopes ≡ true)

Removes-HoldsAt :
    (p : ProtectedStateKeys) (kind : EntryKind) (scope_key key : String)
    → IsProtected p kind scope_key key
    → (a b : PersistedRequestState) → Removes p a b
    → HoldsAt a kind scope_key key
    → HoldsAt b kind scope_key key
unfolding remove_entry remove_scope
Removes-HoldsAt p kind sk k (g, there, kept) _ _ (Removes.entry removed sk' k' s state e h free)
      (r, at_a, held) =
    let new = lookup-update sk sk' (remove_from removed k') state.scopes in
    elim (Bool-cases (str_eq sk' sk)) [
      | inl y ↦
          let same : sk' ≡ sk = (eq_iff sk' sk).0 y in
          let at_sk : lookup sk state.scopes ≡ some s =
            subst (λ x. lookup x state.scopes ≡ some s) same e in
          let one : r ≡ s = some-injective r s (sym at_a ∙ at_sk) in
          (
            remove_from removed k' s,
            ground arith,
            remove_from-Outlives sk p s removed k'
                (subst (λ x. removable s x p removed k' ≡ true) same free) kind k g there
                (subst (λ x. holds x kind k ≡ true) one held),
          )
      | inr n ↦ (r, ground arith, held)
    ]
Removes-HoldsAt p kind sk k (g, there, kept) _ _ (Removes.scope key state c free) (r, at_a, held) =
    (r, lookup-remove_ne sk key state.scopes (ground (arith, eq_iff key sk)) ∙ at_a, held)

pub Removals-HoldsAt :
    (p : ProtectedStateKeys) (kind : EntryKind) (scope_key key : String)
    → IsProtected p kind scope_key key
    → (a b : PersistedRequestState) → Removals p a b
    → HoldsAt a kind scope_key key
    → HoldsAt b kind scope_key key
Removals-HoldsAt p kind sk k protected a b =
    Removals-preserves (λ s. HoldsAt s kind sk k) (Removes-HoldsAt p kind sk k protected) a b

-- The index of every scope fits its wire entries.
abbrev pub AllIndexed : PersistedRequestState → Type 0
AllIndexed state =
    (k : String) (s : ScopeState) → lookup k state.scopes ≡ some s → IsIndexed (wires s)

pub Removals-AllIndexed :
    (p : ProtectedStateKeys) (a b : PersistedRequestState)
    → Removals p a b
    → IsDistinct a.scopes
    → AllIndexed a
    → AllIndexed b
Removals-AllIndexed p a b r d indexed k s at_b =
    let (o, at_a, f) =
      Removals-Comes (λ s r. IsIndexed (wires s) → IsIndexed (wires r)) (λ s h. h)
        (λ s r q f g h. g (f h)) remove_from-IsIndexed p a b r d k s at_b in
    f (indexed k o at_a)

Removals-Shrinks :
    (p : ProtectedStateKeys) (a b : PersistedRequestState)
    → Removals p a b
    → IsDistinct a.scopes
    → Comes Shrinks (λ s kind. omega arith) Shrinks-trans remove_from-Shrinks a b
Removals-Shrinks p a b r d =
    Removals-Comes Shrinks (λ s kind. omega arith) Shrinks-trans remove_from-Shrinks p a b r d

-- No scope gets longer.
pub Removals-scope_count :
    (p : ProtectedStateKeys) (a b : PersistedRequestState)
    → Removals p a b
    → IsDistinct a.scopes
    → (kind : EntryKind) (k : String)
    → scope_count kind (lookup k b.scopes) ≤ scope_count kind (lookup k a.scopes)
Removals-scope_count p a b r d kind k = elim (Option-cases (lookup k b.scopes)) [
  | inl e ↦ rw e (omega arith)
  | inr (s, e) ↦ let (o, at_a, le) = Removals-Shrinks p a b r d k s e in rw (e, at_a) (le kind)
]
