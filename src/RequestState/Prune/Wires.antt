-- ===== src/RequestState/Prune/Wires.antt =====
-- src/core/codex/src/request_state_prune.rs: what the removal of an entry does to the wire pairs.
use mini_sub2api.Base.{◌≡◌, refl, subst, sym, String, Bool, List, [], ◌∷◌}
use mini_sub2api.Base.TextMap.{lookup, remove}
use mini_sub2api.RequestState.Types.{WireIdDomain, WireIdOwner, ScopeState, EntryKind}
use mini_sub2api.RequestState.Prune.{
  Wires, wires, remove_pair, remove_pairs, remove_wire_pairs, remove_owned_response_pairs,
  remove_thread_graph, remove_thread_graphs, remove_conversation_graph, remove_child_thread_graph,
  clear_current_turn, clear_current_turns, remove_turn_graph, remove_from, if_found-preserves,
  descendant_thread_ids, descendant_turn_ids, session_thread_ids, turn_ids_in, item_ids_of,
}

pub wires-clear_current_turns :
    (ids : List String) (s : ScopeState) → wires (clear_current_turns ids s) ≡ wires s
unfolding clear_current_turns clear_current_turn
wires-clear_current_turns [] s = refl
wires-clear_current_turns (id ∷ ids) s = wires-clear_current_turns ids (clear_current_turn id s)

pub turns-clear_current_turns :
    (ids : List String) (s : ScopeState) → (clear_current_turns ids s).turns ≡ s.turns
unfolding clear_current_turns clear_current_turn
turns-clear_current_turns [] s = refl
turns-clear_current_turns (id ∷ ids) s = turns-clear_current_turns ids (clear_current_turn id s)

pub generated_items-clear_current_turns :
    (ids : List String) (s : ScopeState)
    → (clear_current_turns ids s).generated_items ≡ s.generated_items
unfolding clear_current_turns clear_current_turn
generated_items-clear_current_turns [] s = refl
generated_items-clear_current_turns (id ∷ ids) s =
    generated_items-clear_current_turns ids (clear_current_turn id s)

module _ (P : Wires → Type 0)
    (step : (key : String) (w : Wires) → P w → P (remove_pair key w)) where
  pub remove_pairs-preserves : (ks : List String) (w : Wires) → P w → P (remove_pairs ks w)
  unfolding remove_pairs
  remove_pairs-preserves [] w h = h
  remove_pairs-preserves (k ∷ ks) w h = remove_pairs-preserves ks (remove_pair k w) (step k w h)

  pub remove_wire_pairs-preserves :
      (domain : WireIdDomain) (ids : List String) (w : Wires)
      → P w
      → P (remove_wire_pairs domain ids w)
  unfolding remove_wire_pairs
  remove_wire_pairs-preserves domain [] w h = h
  remove_wire_pairs-preserves domain (id ∷ ids) w h = remove_pairs-preserves _ w h

  pub remove_owned_response_pairs-preserves :
      (predicate : WireIdOwner → Bool) (w : Wires)
      → P w
      → P (remove_owned_response_pairs predicate w)
  unfolding remove_owned_response_pairs
  remove_owned_response_pairs-preserves predicate w h = remove_pairs-preserves _ w h

  remove_thread_graphs-preserves :
      (ids : List String) (s : ScopeState) → P (wires s) → P (wires (remove_thread_graphs ids s))
  unfolding remove_thread_graphs remove_thread_graph
  remove_thread_graphs-preserves [] s h = h
  remove_thread_graphs-preserves (id ∷ ids) s h =
      remove_thread_graphs-preserves ids (remove_thread_graph id s) (
        remove_wire_pairs-preserves WireIdDomain.item (item_ids_of (turn_ids_in id s) s) _
          (remove_wire_pairs-preserves WireIdDomain.turn (turn_ids_in id s) (wires s) h))

  remove_conversation_graph-preserves :
      (id : String) (s : ScopeState) → P (wires s) → P (wires (remove_conversation_graph id s))
  unfolding remove_conversation_graph
  remove_conversation_graph-preserves id s h = remove_owned_response_pairs-preserves _ _ (
      remove_thread_graphs-preserves (session_thread_ids s id) _ (
        remove_wire_pairs-preserves WireIdDomain.thread (session_thread_ids s id) _
          (remove_wire_pairs-preserves WireIdDomain.session (id ∷ []) (wires s) h)))

  remove_child_thread_graph-preserves :
      (id : String) (s : ScopeState) → P (wires s) → P (wires (remove_child_thread_graph id s))
  unfolding remove_child_thread_graph
  remove_child_thread_graph-preserves id s h = remove_owned_response_pairs-preserves _ _ (
      remove_thread_graphs-preserves (descendant_thread_ids s id) _
        (remove_wire_pairs-preserves WireIdDomain.thread (descendant_thread_ids s id) (wires s) h))

  remove_turn_graph-preserves :
      (id : String) (s : ScopeState) → P (wires s) → P (wires (remove_turn_graph id s))
  unfolding remove_turn_graph
  remove_turn_graph-preserves id s h =
      let ids = descendant_turn_ids s id in
      remove_wire_pairs-preserves WireIdDomain.item (item_ids_of ids s) _ (
        remove_wire_pairs-preserves WireIdDomain.turn ids (wires (clear_current_turns ids s))
          (subst P (sym (wires-clear_current_turns ids s)) h))

  pub remove_from-preserves :
      (kind : EntryKind) (key : String) (s : ScopeState)
      → P (wires s)
      → P (wires (remove_from kind key s))
  unfolding remove_from
  remove_from-preserves EntryKind.installation_entry key s h =
      if_found-preserves (λ r. P (wires r)) (lookup key s.scoped_installations) s _ h
        (λ entry e.
          remove_wire_pairs-preserves WireIdDomain.installation (entry.id ∷ []) (wires s) h)
  remove_from-preserves EntryKind.conversation_entry key s h =
      if_found-preserves (λ r. P (wires r)) (lookup key s.conversations) s _ h
        (λ entry e.
          remove_conversation_graph-preserves entry.id
            (record s { conversations = remove key s.conversations }) h)
  remove_from-preserves EntryKind.child_thread_entry key s h =
      if_found-preserves (λ r. P (wires r)) (lookup key s.child_threads) s _ h
        (λ entry e. remove_child_thread_graph-preserves entry.id s h)
  remove_from-preserves EntryKind.turn_entry key s h =
      if_found-preserves (λ r. P (wires r)) (lookup key s.turns) s _ h
        (λ entry e. remove_turn_graph-preserves entry.id s h)
  remove_from-preserves EntryKind.generated_item_entry key s h =
      if_found-preserves (λ r. P (wires r)) (lookup key s.generated_items) s _ h
        (λ entry e. remove_wire_pairs-preserves WireIdDomain.item (entry.id ∷ []) (wires s) h)
  remove_from-preserves EntryKind.compaction_marker_entry key s h = h
  remove_from-preserves EntryKind.wire_id_entry key s h = step key (wires s) h
