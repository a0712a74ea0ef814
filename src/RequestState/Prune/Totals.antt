-- ===== src/RequestState/Prune/Totals.antt =====
-- src/core/codex/src/request_state_prune.rs: the counts of the whole ledger along the steps.
use mini_sub2api.Base.{◌≤◌, ◌<◌, ◌≡◌, String, true, some, [], ◌∷◌, length, arith}
use mini_sub2api.Base.TextMap.{
  TextMap, lookup, update, remove, contains_key, length-remove, length-update,
}
use mini_sub2api.RequestState.Types.{ScopeState, PersistedRequestState, EntryKind}
use mini_sub2api.RequestState.Prune.{entry_count, holds, remove_from}
use mini_sub2api.RequestState.Prune.Protect.{ProtectedStateKeys}
use mini_sub2api.RequestState.Prune.Policy.{total_in, total_entries, remove_entry, remove_scope}
use mini_sub2api.RequestState.Prune.Counts.{
  remove_from-Shrinks, remove_from_fewer, length-remove_held,
}
use mini_sub2api.RequestState.Prune.Steps.{Removes, Removals, Removals-preserves}

total_in-update :
    (kind : EntryKind) (k : String) (f : ScopeState → ScopeState)
    → ((s : ScopeState) → entry_count (f s) kind ≤ entry_count s kind)
    → (m : TextMap ScopeState) → total_in kind (update k f m) ≤ total_in kind m
total_in-update kind k f h [] = omega arith
total_in-update kind k f h ((j, s) ∷ m) = ground (arith, h s, total_in-update kind k f h m)

total_in-update_fewer :
    (kind : EntryKind) (k : String) (f : ScopeState → ScopeState) (s : ScopeState)
    (m : TextMap ScopeState)
    → lookup k m ≡ some s
    → entry_count (f s) kind < entry_count s kind
    → total_in kind (update k f m) < total_in kind m
total_in-update_fewer kind k f s [] e h = cc
total_in-update_fewer kind k f s ((j, r) ∷ m) e h =
    ground (arith, total_in-update_fewer kind k f s m)

total_in-remove :
    (kind : EntryKind) (k : String) (m : TextMap ScopeState)
    → total_in kind (remove k m) ≤ total_in kind m
total_in-remove kind k [] = omega arith
total_in-remove kind k ((j, s) ∷ m) = ground (arith, total_in-remove kind k m)

-- The totals and the number of scopes.
abbrev pub AtMost : PersistedRequestState → PersistedRequestState → Type 0
AtMost a b =
    ((kind : EntryKind) → total_entries b kind ≤ total_entries a kind)
    × (length b.scopes ≤ length a.scopes)

Removes-AtMost :
    (p : ProtectedStateKeys) (o a b : PersistedRequestState)
    → Removes p a b
    → AtMost o a
    → AtMost o b
unfolding total_entries remove_entry remove_scope
Removes-AtMost p o _ _ (Removes.entry kind sk k s state e h free) (t, n) = (
  λ kind'. omega (
    arith,
    t kind',
    total_in-update kind' sk (remove_from kind k) (λ s. remove_from-Shrinks kind k s kind')
        state.scopes,
  ),
  omega (arith, n, length-update sk (remove_from kind k) state.scopes),
)
Removes-AtMost p o _ _ (Removes.scope key state c h) (t, n) = (
  λ kind. omega (arith, t kind, total_in-remove kind key state.scopes),
  omega (arith, n, length-remove key state.scopes),
)

pub Removals-AtMost :
    (p : ProtectedStateKeys) (a b : PersistedRequestState) → Removals p a b → AtMost a b
unfolding total_entries
Removals-AtMost p a b r =
    Removals-preserves (AtMost a) (Removes-AtMost p a) a b r ((λ kind. omega arith), omega arith)

pub total-remove_entry :
    (kind : EntryKind) (sk k : String) (s : ScopeState) (state : PersistedRequestState)
    → lookup sk state.scopes ≡ some s
    → holds s kind k ≡ true
    → total_entries (remove_entry kind sk k state) kind < total_entries state kind
unfolding total_entries remove_entry
total-remove_entry kind sk k s state e h =
    total_in-update_fewer kind sk (remove_from kind k) s state.scopes e
      (remove_from_fewer kind k s h)

pub length-remove_scope :
    (key : String) (state : PersistedRequestState)
    → contains_key key state.scopes ≡ true
    → length (remove_scope key state).scopes < length state.scopes
unfolding remove_scope
length-remove_scope key state h = length-remove_held key state.scopes h
