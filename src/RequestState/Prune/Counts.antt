-- ===== src/RequestState/Prune/Counts.antt =====
-- src/core/codex/src/request_state_prune.rs: the sizes of the maps when an entry is removed.
use mini_sub2api.Base.{
  ℕ, ◌≤◌, ◌<◌, ◌≡◌, subst, sym, String, true, false, not, some, List, [], ◌∷◌, length, arith,
  eq_iff, Option-cases, inl, inr,
}
use mini_sub2api.Base.TextMap.{
  TextMap, contains_key, lookup, remove, retain, values, has_text, length-remove,
  length-remove_there, length-retain, length-retain_drop, length-map_values,
}
use mini_sub2api.RequestState.Types.{ScopeState, EntryKind}
use mini_sub2api.RequestState.Prune.{
  Wires, entry_count, holds, remove_pair, remove_thread_graph, remove_thread_graphs,
  remove_conversation_graph, remove_child_thread_graph, clear_current_turn, clear_current_turns,
  remove_turn_graph, remove_from, if_found, if_found-preserves, descendant_thread_ids,
  descendant_turn_ids, session_thread_ids, joins_thread, joins_turn,
}
use mini_sub2api.RequestState.Prune.Descend.{descend-Includes}
use mini_sub2api.RequestState.Prune.Wires.{remove_from-preserves, turns-clear_current_turns}

-- The second scope has at most as many entries of each kind.
abbrev pub Shrinks : ScopeState → ScopeState → Type 0
Shrinks s r = (kind : EntryKind) → entry_count r kind ≤ entry_count s kind

pub Shrinks-trans : (s r q : ScopeState) → Shrinks s r → Shrinks r q → Shrinks s q
Shrinks-trans s r q h k kind = omega (arith, h kind, k kind)

length-remove_pair :
    (n : ℕ) (key : String) (w : Wires) → length w.0 ≤ n → length (remove_pair key w).0 ≤ n
unfolding remove_pair
length-remove_pair n key w h = ground (arith, length-remove key w.0)

-- The maps but the wire pairs, of which `remove_from-preserves` speaks.
abbrev Thins : ScopeState → ScopeState → Type 0
Thins s r =
    (length r.scoped_installations ≤ length s.scoped_installations)
    × (length r.conversations ≤ length s.conversations)
    × (length r.child_threads ≤ length s.child_threads)
    × (length r.turns ≤ length s.turns)
    × (length r.generated_items ≤ length s.generated_items)
    × (length r.compaction_markers ≤ length s.compaction_markers)

≤-trans : {l m n : ℕ} → l ≤ m → m ≤ n → l ≤ n
≤-trans h k = omega arith

remove_thread_graph-Thins : (id : String) (s : ScopeState) → Thins s (remove_thread_graph id s)
unfolding remove_thread_graph
remove_thread_graph-Thins id s = (
  omega arith,
  omega arith,
  omega arith,
  length-retain _ s.turns,
  length-retain _ s.generated_items,
  length-retain _ s.compaction_markers,
)

remove_thread_graphs-Thins :
    (ids : List String) (s : ScopeState) → Thins s (remove_thread_graphs ids s)
unfolding remove_thread_graphs
remove_thread_graphs-Thins [] s = ground arith
remove_thread_graphs-Thins (id ∷ ids) s = ground (
  arith,
  remove_thread_graph-Thins id s,
  remove_thread_graphs-Thins ids (remove_thread_graph id s),
)

≤-of_eq : {m n : ℕ} → m ≡ n → m ≤ n
≤-of_eq h = omega arith

clear_current_turn-Thins : (id : String) (s : ScopeState) → Thins s (clear_current_turn id s)
unfolding clear_current_turn
clear_current_turn-Thins id s = (
  omega arith,
  ≤-of_eq (length-map_values _ s.conversations),
  ≤-of_eq (length-map_values _ s.child_threads),
  omega arith,
  omega arith,
  omega arith,
)

clear_current_turns-Thins :
    (ids : List String) (s : ScopeState) → Thins s (clear_current_turns ids s)
unfolding clear_current_turns
clear_current_turns-Thins [] s = ground arith
clear_current_turns-Thins (id ∷ ids) s =
    ground (
      arith,
      clear_current_turn-Thins id s,
      clear_current_turns-Thins ids (clear_current_turn id s),
    )

remove_conversation_graph-Thins :
    (id : String) (s : ScopeState) → Thins s (remove_conversation_graph id s)
unfolding remove_conversation_graph
remove_conversation_graph-Thins id s =
    let m = remove_thread_graphs-Thins (session_thread_ids s id) _ in
    (m.0, m.1, ≤-trans m.2 (length-retain _ s.child_threads), m.3, m.4, m.5)

remove_child_thread_graph-Thins :
    (id : String) (s : ScopeState) → Thins s (remove_child_thread_graph id s)
unfolding remove_child_thread_graph
remove_child_thread_graph-Thins id s =
    let m = remove_thread_graphs-Thins (descendant_thread_ids s id) _ in
    (m.0, m.1, ≤-trans m.2 (length-retain _ s.child_threads), m.3, m.4, m.5)

remove_turn_graph-Thins : (id : String) (s : ScopeState) → Thins s (remove_turn_graph id s)
unfolding remove_turn_graph
remove_turn_graph-Thins id s =
    let m = clear_current_turns-Thins (descendant_turn_ids s id) s in
    (m.0, m.1, m.2, ≤-trans (length-retain _ _) m.3, ≤-trans (length-retain _ _) m.4, m.5)

Thins-refl : (s : ScopeState) → Thins s s
Thins-refl s = ground arith

remove_from-Thins :
    (kind : EntryKind) (key : String) (s : ScopeState) → Thins s (remove_from kind key s)
unfolding remove_from
remove_from-Thins EntryKind.installation_entry key s =
    if_found-preserves (Thins s) (lookup key s.scoped_installations) s _ (Thins-refl s)
      (λ entry e. ground (arith, length-remove key s.scoped_installations))
remove_from-Thins EntryKind.conversation_entry key s =
    if_found-preserves (Thins s) (lookup key s.conversations) s _ (Thins-refl s) (λ entry e.
      let m =
        remove_conversation_graph-Thins entry.id
          (record s { conversations = remove key s.conversations }) in
      (m.0, ≤-trans m.1 (length-remove key s.conversations), m.2, m.3, m.4, m.5))
remove_from-Thins EntryKind.child_thread_entry key s =
    if_found-preserves (Thins s) (lookup key s.child_threads) s _ (Thins-refl s)
      (λ entry e. remove_child_thread_graph-Thins entry.id s)
remove_from-Thins EntryKind.turn_entry key s =
    if_found-preserves (Thins s) (lookup key s.turns) s _ (Thins-refl s)
      (λ entry e. remove_turn_graph-Thins entry.id s)
remove_from-Thins EntryKind.generated_item_entry key s =
    if_found-preserves (Thins s) (lookup key s.generated_items) s _ (Thins-refl s)
      (λ entry e. ground (arith, length-remove key s.generated_items))
remove_from-Thins EntryKind.compaction_marker_entry key s =
    ground (arith, length-remove key s.compaction_markers)
remove_from-Thins EntryKind.wire_id_entry key s = Thins-refl s

pub remove_from-Shrinks :
    (kind : EntryKind) (key : String) (s : ScopeState) → Shrinks s (remove_from kind key s)
unfolding entry_count
remove_from-Shrinks kind key s EntryKind.installation_entry = (remove_from-Thins kind key s).0
remove_from-Shrinks kind key s EntryKind.conversation_entry = (remove_from-Thins kind key s).1
remove_from-Shrinks kind key s EntryKind.child_thread_entry = (remove_from-Thins kind key s).2
remove_from-Shrinks kind key s EntryKind.turn_entry = (remove_from-Thins kind key s).3
remove_from-Shrinks kind key s EntryKind.generated_item_entry = (remove_from-Thins kind key s).4
remove_from-Shrinks kind key s EntryKind.compaction_marker_entry = (remove_from-Thins kind key s).5
remove_from-Shrinks kind key s EntryKind.wire_id_entry =
    remove_from-preserves (λ w. length w.0 ≤ length s.wire_ids)
      (length-remove_pair (length s.wire_ids)) kind key s (omega arith)

pub length-remove_held {ℓ} :
    {V : Type ℓ} (key : String) (m : TextMap V)
    → contains_key key m ≡ true
    → length (remove key m) < length m
length-remove_held key m h = elim (Option-cases (lookup key m)) [
  | inl e ↦ ground arith
  | inr (v, e) ↦ ground (arith, length-remove_there key v m e)
]

if_held {ℓ} :
    {V : Type ℓ} (Q : ScopeState → Type 0) (key : String) (m : TextMap V) (s : ScopeState)
    (f : V → ScopeState)
    → contains_key key m ≡ true
    → ((v : V) → lookup key m ≡ some v → Q (f v))
    → Q (if_found (lookup key m) s f)
if_held Q key m s f h k = elim (Option-cases (lookup key m)) [
  | inl e ↦ absurd (ground arith)
  | inr (v, e) ↦ rw e (k v e)
]

<-≤-trans : {l m n : ℕ} → l ≤ m → m < n → l < n
<-≤-trans h k = omega arith

root_id : (id : String) (ids : List String) → has_text id ids ≡ true → not (has_text id ids) ≡ false
root_id id ids h = ground arith

pub remove_from_fewer :
    (kind : EntryKind) (key : String) (s : ScopeState)
    → holds s kind key ≡ true
    → entry_count (remove_from kind key s) kind < entry_count s kind
unfolding entry_count holds remove_from remove_child_thread_graph remove_turn_graph remove_pair
    remove_conversation_graph descendant_thread_ids descendant_turn_ids
remove_from_fewer EntryKind.installation_entry key s h =
    if_held (λ r. length r.scoped_installations < length s.scoped_installations) key
      s.scoped_installations s _ h (λ entry e. length-remove_held key s.scoped_installations h)
remove_from_fewer EntryKind.conversation_entry key s h =
    if_held (λ r. length r.conversations < length s.conversations) key s.conversations s _ h
      (λ entry e.
        <-≤-trans
          (remove_conversation_graph-Thins entry.id
            (record s { conversations = remove key s.conversations })).1
          (length-remove_held key s.conversations h))
remove_from_fewer EntryKind.child_thread_entry key s h =
    if_held (λ r. length r.child_threads < length s.child_threads) key s.child_threads s _ h
      (λ entry e. <-≤-trans (remove_thread_graphs-Thins (descendant_thread_ids s entry.id) _).2 (
        length-retain_drop _ key entry s.child_threads e (
          root_id entry.id _ (
            descend-Includes _ joins_thread (values s.child_threads) (entry.id ∷ []) entry.id
              (ground (arith, eq_iff entry.id entry.id))))))
remove_from_fewer EntryKind.turn_entry key s h =
    if_held (λ r. length r.turns < length s.turns) key s.turns s _ h
      (λ entry e.
        subst
          (λ m.
            length (retain (λ t. not (has_text t.id (descendant_turn_ids s entry.id))) m)
            < length s.turns)
          (sym (turns-clear_current_turns (descendant_turn_ids s entry.id) s))
          (length-retain_drop _ key entry s.turns e (
            root_id entry.id _ (
              descend-Includes _ (joins_turn entry.id) (values s.turns) (entry.id ∷ []) entry.id
                (ground (arith, eq_iff entry.id entry.id))))))
remove_from_fewer EntryKind.generated_item_entry key s h =
    if_held (λ r. length r.generated_items < length s.generated_items) key s.generated_items s _ h
      (λ entry e. length-remove_held key s.generated_items h)
remove_from_fewer EntryKind.compaction_marker_entry key s h =
    length-remove_held key s.compaction_markers h
remove_from_fewer EntryKind.wire_id_entry key s h = elim (Option-cases (lookup key s.wire_ids)) [
  | inl e ↦ absurd (ground arith)
  | inr (v, e) ↦ rw e (length-remove_held key s.wire_ids h)
]
