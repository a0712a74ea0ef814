-- ===== src/RequestState/Prune/Outlive.antt =====
-- src/core/codex/src/request_state_prune.rs: protected entries when another entry is removed.
use mini_sub2api.Base.{
  ◌≡◌, refl, sym, subst, String, Bool, true, false, not, Option, some, List, arith, str_eq,
}
use mini_sub2api.Base.TextMap.{TextMap, lookup, contains_key, remove, retain, values, has_text}
use mini_sub2api.RequestState.Types.{ScopeState, EntryKind, CompactionMarkerEntry}
use mini_sub2api.RequestState.Prune.{
  Wires, among, holds, if_found, remove_from, wires, with_wires, remove_pair, if_found-preserves,
  remove_thread_graphs, remove_conversation_graph, remove_child_thread_graph, remove_turn_graph,
  session_thread_ids, descendant_thread_ids, descendant_turn_ids,
}
use mini_sub2api.RequestState.Prune.Protect.{
  has_place, places, ProtectedStateKeys, item_in, protected_thread_ids,
  protected_conversation_graph, protected_thread_graph, protected_turn_graph, graph_protected,
  removable,
}
use mini_sub2api.RequestState.Prune.Wires.{
  turns-clear_current_turns, generated_items-clear_current_turns,
}
use mini_sub2api.RequestState.Prune.Kept.{
  contains_key-remove_ne, contains_key-retain, contains_key-of_lookup, turn_stays, item_stays,
  conversations_stay, child_threads_stay, installations-remove_thread_graphs,
  conversations-remove_thread_graphs, child_threads-remove_thread_graphs,
  installations-clear_current_turns,
}
use mini_sub2api.RequestState.Prune.Guard.{
  apart, none_such, and_left, or_left, or_right, not-true, child_outside, turn_outside,
  item_outside, with_entry, other_session, removable_place, conversation_free, child_thread_free,
  turn_free,
}

-- The kinds whose protected entries outlive the others' removal. A compaction marker goes with its
-- thread and a wire pair with what it names, and `removable` does not ask for either.
unfoldable pub guarded : EntryKind → Bool
guarded EntryKind.installation_entry = true
guarded EntryKind.conversation_entry = true
guarded EntryKind.child_thread_entry = true
guarded EntryKind.turn_entry = true
guarded EntryKind.generated_item_entry = true
guarded EntryKind.compaction_marker_entry = false
guarded EntryKind.wire_id_entry = false

module _ (scope_key : String) (p : ProtectedStateKeys) (kind : EntryKind) (k : String) where
  -- A protected entry of the first scope is one of the second.
  abbrev Outlives : ScopeState → ScopeState → Type 0
  Outlives s r =
      guarded kind ≡ true
      → has_place scope_key k (places p kind) ≡ true
      → holds s kind k ≡ true
      → holds r kind k ≡ true

module _ (scope_key : String) (p : ProtectedStateKeys) (s : ScopeState) where
  -- Removing the graphs of threads that hold nothing protected.
  thread_graphs-Outlives :
      (ids : List String)
      → protected_thread_ids s scope_key p ids ≡ false
      → (r : ScopeState) → r.scoped_installations ≡ s.scoped_installations
      → r.turns ≡ s.turns
      → r.generated_items ≡ s.generated_items
      → (kind : EntryKind) (k : String) → Outlives scope_key p kind k r (remove_thread_graphs ids r)
  unfolding holds places guarded
  thread_graphs-Outlives ids h r ei et eg EntryKind.installation_entry k g there held =
      subst (λ m. contains_key k m ≡ true) (sym (installations-remove_thread_graphs ids r)) held
  thread_graphs-Outlives ids h r ei et eg EntryKind.conversation_entry k g there held =
      subst (λ m. contains_key k m ≡ true) (sym (conversations-remove_thread_graphs ids r)) held
  thread_graphs-Outlives ids h r ei et eg EntryKind.child_thread_entry k g there held =
      subst (λ m. contains_key k m ≡ true) (sym (child_threads-remove_thread_graphs ids r)) held
  thread_graphs-Outlives ids h r ei et eg EntryKind.turn_entry k g there held =
      with_entry _ k r.turns held (λ v e. contains_key-of_lookup k v _ (
        turn_stays ids r k v e
          (turn_outside s scope_key p ids k v h (subst (λ m. lookup k m ≡ some v) et e) there)))
  thread_graphs-Outlives ids h r ei et eg EntryKind.generated_item_entry k g there held =
      with_entry _ k r.generated_items held (λ v e. contains_key-of_lookup k v _ (
        item_stays ids r k v e (
          subst (λ m. item_in (values m) ids v.turn_id ≡ false) (sym et)
            (item_outside s scope_key p ids k v h (subst (λ m. lookup k m ≡ some v) eg e) there))))
  thread_graphs-Outlives ids h r ei et eg EntryKind.compaction_marker_entry k g there held =
      absurd (ground arith)
  thread_graphs-Outlives ids h r ei et eg EntryKind.wire_id_entry k g there held =
      absurd (ground arith)

  conversation-Outlives :
      (key id : String)
      → has_place scope_key key p.conversations ≡ false
      → protected_thread_ids s scope_key p (session_thread_ids s id) ≡ false
      → (kind : EntryKind) (k : String)
      → Outlives scope_key p kind k s
          (remove_conversation_graph id (record s { conversations = remove key s.conversations }))
  unfolding holds places guarded remove_conversation_graph
  conversation-Outlives key id out h EntryKind.installation_entry k g there held =
      thread_graphs-Outlives (session_thread_ids s id) h _ refl refl refl
        EntryKind.installation_entry k g there held
  conversation-Outlives key id out h EntryKind.conversation_entry k g there held =
      thread_graphs-Outlives (session_thread_ids s id) h _ refl refl refl
        EntryKind.conversation_entry k g there
        (contains_key-remove_ne key k s.conversations
          (apart scope_key key k p.conversations out there) held)
  conversation-Outlives key id out h EntryKind.child_thread_entry k g there held =
      thread_graphs-Outlives (session_thread_ids s id) h _ refl refl refl
        EntryKind.child_thread_entry k g there
        (contains_key-retain (λ t. not (str_eq t.session_id id)) k s.child_threads held
          (λ v e. not-true (
            other_session s id k v e
              (child_outside s scope_key p (session_thread_ids s id) k v h e there))))
  conversation-Outlives key id out h EntryKind.turn_entry k g there held =
      thread_graphs-Outlives (session_thread_ids s id) h _ refl refl refl EntryKind.turn_entry k g
        there held
  conversation-Outlives key id out h EntryKind.generated_item_entry k g there held =
      thread_graphs-Outlives (session_thread_ids s id) h _ refl refl refl
        EntryKind.generated_item_entry k g there held
  conversation-Outlives key id out h EntryKind.compaction_marker_entry k g there held =
      absurd (ground arith)
  conversation-Outlives key id out h EntryKind.wire_id_entry k g there held = absurd (ground arith)

  child_thread-Outlives :
      (id : String)
      → protected_thread_ids s scope_key p (descendant_thread_ids s id) ≡ false
      → (kind : EntryKind) (k : String)
      → Outlives scope_key p kind k s (remove_child_thread_graph id s)
  unfolding holds places guarded remove_child_thread_graph
  child_thread-Outlives id h EntryKind.installation_entry k g there held =
      thread_graphs-Outlives (descendant_thread_ids s id) h _ refl refl refl
        EntryKind.installation_entry k g there held
  child_thread-Outlives id h EntryKind.conversation_entry k g there held =
      thread_graphs-Outlives (descendant_thread_ids s id) h _ refl refl refl
        EntryKind.conversation_entry k g there held
  child_thread-Outlives id h EntryKind.child_thread_entry k g there held =
      thread_graphs-Outlives (descendant_thread_ids s id) h _ refl refl refl
        EntryKind.child_thread_entry k g there
        (contains_key-retain (λ t. not (has_text t.id (descendant_thread_ids s id))) k
          s.child_threads held
          (λ v e.
            not-true (child_outside s scope_key p (descendant_thread_ids s id) k v h e there)))
  child_thread-Outlives id h EntryKind.turn_entry k g there held =
      thread_graphs-Outlives (descendant_thread_ids s id) h _ refl refl refl EntryKind.turn_entry k
        g there held
  child_thread-Outlives id h EntryKind.generated_item_entry k g there held =
      thread_graphs-Outlives (descendant_thread_ids s id) h _ refl refl refl
        EntryKind.generated_item_entry k g there held
  child_thread-Outlives id h EntryKind.compaction_marker_entry k g there held =
      absurd (ground arith)
  child_thread-Outlives id h EntryKind.wire_id_entry k g there held = absurd (ground arith)

  turn-Outlives :
      (id : String)
      → protected_turn_graph s scope_key p id ≡ false
      → (kind : EntryKind) (k : String) → Outlives scope_key p kind k s (remove_turn_graph id s)
  unfolding holds places guarded remove_turn_graph protected_turn_graph
  turn-Outlives id h EntryKind.installation_entry k g there held =
      subst (λ m. contains_key k m ≡ true)
        (sym (installations-clear_current_turns (descendant_turn_ids s id) s)) held
  turn-Outlives id h EntryKind.conversation_entry k g there held =
      conversations_stay (descendant_turn_ids s id) s k held
  turn-Outlives id h EntryKind.child_thread_entry k g there held =
      child_threads_stay (descendant_turn_ids s id) s k held
  turn-Outlives id h EntryKind.turn_entry k g there held =
      subst
        (λ m.
          contains_key k (retain (λ t. not (has_text t.id (descendant_turn_ids s id))) m) ≡ true)
        (sym (turns-clear_current_turns (descendant_turn_ids s id) s))
        (contains_key-retain (λ t. not (has_text t.id (descendant_turn_ids s id))) k s.turns held
          (λ v e. not-true (and_left (none_such _ k v s.turns (or_left _ _ h) e) there)))
  turn-Outlives id h EntryKind.generated_item_entry k g there held =
      subst
        (λ m.
          contains_key k (retain (λ i. not (among (descendant_turn_ids s id) i.turn_id)) m) ≡ true)
        (sym (generated_items-clear_current_turns (descendant_turn_ids s id) s))
        (contains_key-retain (λ i. not (among (descendant_turn_ids s id) i.turn_id)) k
          s.generated_items held
          (λ v e. not-true (and_left (none_such _ k v s.generated_items (or_right _ _ h) e) there)))
  turn-Outlives id h EntryKind.compaction_marker_entry k g there held = absurd (ground arith)
  turn-Outlives id h EntryKind.wire_id_entry k g there held = absurd (ground arith)

  -- A removal that looks up its entry leaves the scope alone where there is none.
  found-Outlives :
      {V : Type 0} (o : Option V) (f : V → ScopeState) (kind : EntryKind) (k : String)
      → ((v : V) → o ≡ some v → Outlives scope_key p kind k s (f v))
      → Outlives scope_key p kind k s (if_found o s f)
  found-Outlives o f kind k h =
      if_found-preserves (Outlives scope_key p kind k s) o s f (λ g there held. held) h

  installation-Outlives :
      (key : String) (w : Wires)
      → has_place scope_key key p.installations ≡ false
      → (kind : EntryKind) (k : String)
      → Outlives scope_key p kind k s
          (with_wires (record s { scoped_installations = remove key s.scoped_installations }) w)
  unfolding holds places guarded
  installation-Outlives key w out EntryKind.installation_entry k g there held =
      contains_key-remove_ne key k s.scoped_installations
        (apart scope_key key k p.installations out there) held
  installation-Outlives key w out EntryKind.conversation_entry k g there held = held
  installation-Outlives key w out EntryKind.child_thread_entry k g there held = held
  installation-Outlives key w out EntryKind.turn_entry k g there held = held
  installation-Outlives key w out EntryKind.generated_item_entry k g there held = held
  installation-Outlives key w out EntryKind.compaction_marker_entry k g there held = held
  installation-Outlives key w out EntryKind.wire_id_entry k g there held = absurd (ground arith)

  item-Outlives :
      (key : String) (w : Wires)
      → has_place scope_key key p.generated_items ≡ false
      → (kind : EntryKind) (k : String)
      → Outlives scope_key p kind k s
          (with_wires (record s { generated_items = remove key s.generated_items }) w)
  unfolding holds places guarded
  item-Outlives key w out EntryKind.installation_entry k g there held = held
  item-Outlives key w out EntryKind.conversation_entry k g there held = held
  item-Outlives key w out EntryKind.child_thread_entry k g there held = held
  item-Outlives key w out EntryKind.turn_entry k g there held = held
  item-Outlives key w out EntryKind.generated_item_entry k g there held =
      contains_key-remove_ne key k s.generated_items
        (apart scope_key key k p.generated_items out there) held
  item-Outlives key w out EntryKind.compaction_marker_entry k g there held = held
  item-Outlives key w out EntryKind.wire_id_entry k g there held = absurd (ground arith)

  -- Dropping compaction markers and wire pairs.
  rest-Outlives :
      (m : TextMap CompactionMarkerEntry) (w : Wires) (kind : EntryKind) (k : String)
      → Outlives scope_key p kind k s (with_wires (record s { compaction_markers = m }) w)
  unfolding holds guarded
  rest-Outlives m w EntryKind.installation_entry k g there held = held
  rest-Outlives m w EntryKind.conversation_entry k g there held = held
  rest-Outlives m w EntryKind.child_thread_entry k g there held = held
  rest-Outlives m w EntryKind.turn_entry k g there held = held
  rest-Outlives m w EntryKind.generated_item_entry k g there held = held
  rest-Outlives m w EntryKind.compaction_marker_entry k g there held = absurd (ground arith)
  rest-Outlives m w EntryKind.wire_id_entry k g there held = absurd (ground arith)

  pub remove_from-Outlives :
      (removed : EntryKind) (key : String)
      → removable s scope_key p removed key ≡ true
      → (kind : EntryKind) (k : String) → Outlives scope_key p kind k s (remove_from removed key s)
  unfolding remove_from places graph_protected protected_conversation_graph protected_thread_graph
  remove_from-Outlives EntryKind.installation_entry key h kind k =
      found-Outlives (lookup key s.scoped_installations) _ kind k (λ v e.
        installation-Outlives key _
          (removable_place s scope_key p EntryKind.installation_entry key h) kind k)
  remove_from-Outlives EntryKind.conversation_entry key h kind k =
      found-Outlives (lookup key s.conversations) _ kind k (λ v e.
        conversation-Outlives key v.id
          (removable_place s scope_key p EntryKind.conversation_entry key h)
          (conversation_free s scope_key p key v e h) kind k)
  remove_from-Outlives EntryKind.child_thread_entry key h kind k =
      found-Outlives (lookup key s.child_threads) _ kind k
        (λ v e. child_thread-Outlives v.id (child_thread_free s scope_key p key v e h) kind k)
  remove_from-Outlives EntryKind.turn_entry key h kind k =
      found-Outlives (lookup key s.turns) _ kind k
        (λ v e. turn-Outlives v.id (turn_free s scope_key p key v e h) kind k)
  remove_from-Outlives EntryKind.generated_item_entry key h kind k =
      found-Outlives (lookup key s.generated_items) _ kind k (λ v e.
        item-Outlives key _ (removable_place s scope_key p EntryKind.generated_item_entry key h)
          kind k)
  remove_from-Outlives EntryKind.compaction_marker_entry key h kind k =
      rest-Outlives (remove key s.compaction_markers) (wires s) kind k
  remove_from-Outlives EntryKind.wire_id_entry key h kind k =
      rest-Outlives s.compaction_markers (remove_pair key (wires s)) kind k
