-- ===== src/RequestState/Prune/Protect.antt =====
-- src/core/codex/src/request_state_prune.rs: `removable`, which spares what an edit protects.
use mini_sub2api.Base.{
  String, Bool, true, false, not, ◌&&◌, ◌||◌, Option, none, some, List, any, str_eq,
}
use mini_sub2api.Base.TextMap.{has_text, lookup, values}
use mini_sub2api.RequestState.Types.{TurnEntry, WireIdOwner, ScopeState, EntryKind}
use mini_sub2api.RequestState.Prune.{
  among, owned_by, session_thread_ids, descendant_thread_ids, descendant_turn_ids,
}

-- `BTreeSet<(String, String)>`: the key of a scope and the key of an entry.
abbrev pub Places : Type 0
Places = List (String × String)

abbrev pub has_place : String → String → Places → Bool
has_place scope_key key ps = any (λ p. str_eq p.0 scope_key && str_eq p.1 key) ps

pub record ProtectedStateKeys : Type 0 where
  pub scopes : List String
  pub installations : Places
  pub conversations : Places
  pub child_threads : Places
  pub turns : Places
  pub generated_items : Places
  pub compaction_markers : Places
  pub wire_ids : Places

unfoldable pub places : ProtectedStateKeys → EntryKind → Places
places p EntryKind.installation_entry = p.installations
places p EntryKind.conversation_entry = p.conversations
places p EntryKind.child_thread_entry = p.child_threads
places p EntryKind.turn_entry = p.turns
places p EntryKind.generated_item_entry = p.generated_items
places p EntryKind.compaction_marker_entry = p.compaction_markers
places p EntryKind.wire_id_entry = p.wire_ids

-- Whether the turn that an item names runs in one of the threads.
abbrev pub item_in : List TurnEntry → List String → Option String → Bool
item_in turns thread_ids none = false
item_in turns thread_ids (some turn_id) =
    any (λ t. str_eq t.id turn_id && has_text t.thread_id thread_ids) turns

module _ (s : ScopeState) (scope_key : String) (protected : ProtectedStateKeys) where
  unfoldable pub protected_thread_ids : List String → Bool
  protected_thread_ids thread_ids =
      any (λ e. has_text e.1.id thread_ids && has_place scope_key e.0 protected.child_threads)
        s.child_threads
      || (any (λ e. has_text e.1.thread_id thread_ids && has_place scope_key e.0 protected.turns)
            s.turns
          || any
              (λ e.
                item_in (values s.turns) thread_ids e.1.turn_id
                && has_place scope_key e.0 protected.generated_items)
              s.generated_items)

  unfoldable pub protected_owned_response : (WireIdOwner → Bool) → Bool
  protected_owned_response owns =
      any (λ e. owned_by owns e.1 && has_place scope_key e.0 protected.wire_ids) s.wire_ids

  unfoldable pub protected_conversation_graph : String → Bool
  unfolding protected_thread_ids protected_owned_response
  protected_conversation_graph session_id =
      protected_thread_ids (session_thread_ids s session_id)
      || protected_owned_response
          (λ owner. str_eq session_id "" || str_eq owner.session_id session_id)

  unfoldable pub protected_thread_graph : String → Bool
  unfolding protected_thread_ids protected_owned_response
  protected_thread_graph thread_id =
      let thread_ids = descendant_thread_ids s thread_id in
      protected_thread_ids thread_ids
      || any (λ id. protected_owned_response (λ owner. str_eq owner.thread_id id)) thread_ids

  unfoldable pub protected_turn_graph : String → Bool
  protected_turn_graph turn_id =
      let turn_ids = descendant_turn_ids s turn_id in
      any (λ e. has_text e.1.id turn_ids && has_place scope_key e.0 protected.turns) s.turns
      || any (λ e. among turn_ids e.1.turn_id && has_place scope_key e.0 protected.generated_items)
          s.generated_items

  -- The second half of `removable`. It is asked for keys of the scope, where indexing finds them.
  unfoldable pub graph_protected : EntryKind → String → Bool
  unfolding protected_conversation_graph protected_thread_graph protected_turn_graph
  graph_protected EntryKind.conversation_entry key = elim (lookup key s.conversations) [
    | none ↦ true
    | some entry ↦ protected_conversation_graph entry.id
  ]
  graph_protected EntryKind.child_thread_entry key = elim (lookup key s.child_threads) [
    | none ↦ true
    | some entry ↦ protected_thread_graph entry.id
  ]
  graph_protected EntryKind.turn_entry key = elim (lookup key s.turns) [
    | none ↦ true
    | some entry ↦ protected_turn_graph entry.id
  ]
  graph_protected EntryKind.installation_entry key = false
  graph_protected EntryKind.generated_item_entry key = false
  graph_protected EntryKind.compaction_marker_entry key = false
  graph_protected EntryKind.wire_id_entry key = false

  unfoldable pub removable : EntryKind → String → Bool
  unfolding graph_protected places
  removable kind key =
      not (has_place scope_key key (places protected kind)) && not (graph_protected kind key)
