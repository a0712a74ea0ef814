-- ===== src/RequestState/Prune.antt =====
-- src/core/codex/src/request_state_prune.rs: removing an entry of a scope with all that hangs on it.
pub mod Descend
pub mod Protect
pub mod Policy
pub mod Wires
pub mod Counts
pub mod Index
pub mod Kept
pub mod Guard
pub mod Outlive
pub mod Earliest
pub mod Selection
pub mod Oldest
pub mod Steps
pub mod Scopes
pub mod Invariants
pub mod Totals
pub mod Ends
pub mod Rounds
pub mod Expiry
pub mod Result
pub mod Evict
pub mod Reach
pub mod Traces
use mini_sub2api.Base.{
  ℕ, ◌≡◌, refl, String, Bool, true, false, not, ◌&&◌, ◌||◌, Option, none, some, List, [], ◌∷◌, map,
  filter, any, length, str_eq, if◌then◌else◌,
}
use mini_sub2api.Base.TextMap.{
  TextMap, contains_key, has_text, lookup, remove, retain, map_values, keys, values,
}
use mini_sub2api.RequestState.Types.{
  WireIdDomain, WireIdDomain-discrete, WireIdOwner, WireIdEntry, TurnEntry, ChildThreadEntry,
  GeneratedItemEntry, ConversationEntry, CompactionMarkerEntry, ScopeState, EntryKind,
}
use mini_sub2api.RequestState.Prune.Descend.{descend}

-- `option.as_ref().is_some_and(|id| ids.contains(id))`
abbrev pub among : List String → Option String → Bool
among ids none = false
among ids (some id) = has_text id ids

unfoldable pub entry_count : ScopeState → EntryKind → ℕ
entry_count s EntryKind.installation_entry = length s.scoped_installations
entry_count s EntryKind.conversation_entry = length s.conversations
entry_count s EntryKind.child_thread_entry = length s.child_threads
entry_count s EntryKind.turn_entry = length s.turns
entry_count s EntryKind.generated_item_entry = length s.generated_items
entry_count s EntryKind.compaction_marker_entry = length s.compaction_markers
entry_count s EntryKind.wire_id_entry = length s.wire_ids

unfoldable pub entry_keys : ScopeState → EntryKind → List String
entry_keys s EntryKind.installation_entry = keys s.scoped_installations
entry_keys s EntryKind.conversation_entry = keys s.conversations
entry_keys s EntryKind.child_thread_entry = keys s.child_threads
entry_keys s EntryKind.turn_entry = keys s.turns
entry_keys s EntryKind.generated_item_entry = keys s.generated_items
entry_keys s EntryKind.compaction_marker_entry = keys s.compaction_markers
entry_keys s EntryKind.wire_id_entry = keys s.wire_ids

-- The key is that of an entry of the kind.
unfoldable pub holds : ScopeState → EntryKind → String → Bool
holds s EntryKind.installation_entry key = contains_key key s.scoped_installations
holds s EntryKind.conversation_entry key = contains_key key s.conversations
holds s EntryKind.child_thread_entry key = contains_key key s.child_threads
holds s EntryKind.turn_entry key = contains_key key s.turns
holds s EntryKind.generated_item_entry key = contains_key key s.generated_items
holds s EntryKind.compaction_marker_entry key = contains_key key s.compaction_markers
holds s EntryKind.wire_id_entry key = contains_key key s.wire_ids

-- The wire pairs with their reverse index.
abbrev pub Wires : Type 0
Wires = TextMap WireIdEntry × TextMap String

-- `if let Some(entry) = wire_ids.remove(&key)`, and its entry of the index.
unfoldable pub remove_pair : String → Wires → Wires
remove_pair key w = elim (lookup key w.0) [
  | none ↦ w
  | some entry ↦ (remove key w.0, remove entry.upstream_lookup w.1)
]

unfoldable pub remove_pairs : List String → Wires → Wires
remove_pairs [] w = w
remove_pairs (key ∷ ks) w = remove_pairs ks (remove_pair key w)

abbrev pub wires : ScopeState → Wires
wires s = (s.wire_ids, s.wire_upstream_index)

abbrev pub with_wires : ScopeState → Wires → ScopeState
with_wires s w = record s { wire_ids = w.0; wire_upstream_index = w.1 }

unfoldable pub same_domain : WireIdDomain → WireIdDomain → Bool
same_domain a b = elim (WireIdDomain-discrete a b) [ yes _ ↦ true | no _ ↦ false ]

unfoldable pub remove_wire_pairs : WireIdDomain → List String → Wires → Wires
remove_wire_pairs domain [] w = w
remove_wire_pairs domain (id ∷ ids) w =
    remove_pairs
      (keys
        (filter (λ e. same_domain e.1.domain domain && has_text e.1.upstream_id (id ∷ ids)) w.0))
      w

abbrev pub owned_by : (WireIdOwner → Bool) → WireIdEntry → Bool
owned_by predicate entry = elim entry.owner [ none ↦ false | some owner ↦ predicate owner ]

unfoldable pub remove_owned_response_pairs : (WireIdOwner → Bool) → Wires → Wires
remove_owned_response_pairs predicate w =
    remove_pairs (keys (filter (λ e. owned_by predicate e.1) w.0)) w

-- The loop of `descendant_thread_ids`, and that of `descendant_turn_ids`.
unfoldable pub joins_thread : List String → ChildThreadEntry → Bool
joins_thread ids child = among ids child.parent_thread_id

unfoldable pub joins_turn : String → List String → TurnEntry → Bool
joins_turn root ids turn = str_eq turn.root_turn_id root || among ids turn.parent_turn_id

unfoldable pub descendant_thread_ids : ScopeState → String → List String
descendant_thread_ids s root = descend (λ t. t.id) joins_thread (values s.child_threads) (root ∷ [])

unfoldable pub descendant_turn_ids : ScopeState → String → List String
descendant_turn_ids s root = descend (λ t. t.id) (joins_turn root) (values s.turns) (root ∷ [])

abbrev pub turn_ids_in : String → ScopeState → List String
turn_ids_in thread_id s =
    map (λ t. t.id) (filter (λ t. str_eq t.thread_id thread_id) (values s.turns))

abbrev pub item_ids_of : List String → ScopeState → List String
item_ids_of turn_ids s =
    map (λ i. i.id) (filter (λ i. among turn_ids i.turn_id) (values s.generated_items))

unfoldable pub remove_thread_graph : String → ScopeState → ScopeState
remove_thread_graph thread_id s =
    let turn_ids = turn_ids_in thread_id s in
    let item_ids = item_ids_of turn_ids s in
    let w =
      remove_wire_pairs WireIdDomain.item item_ids
        (remove_wire_pairs WireIdDomain.turn turn_ids (wires s)) in
    record s {
      turns = retain (λ t. not (str_eq t.thread_id thread_id)) s.turns;
      generated_items = retain (λ i. not (among turn_ids i.turn_id)) s.generated_items;
      compaction_markers = retain (λ m. not (str_eq m.thread_id thread_id)) s.compaction_markers;
      wire_ids = w.0;
      wire_upstream_index = w.1;
    }

-- `for thread_id in &thread_ids`
unfoldable pub remove_thread_graphs : List String → ScopeState → ScopeState
unfolding remove_thread_graph
remove_thread_graphs [] s = s
remove_thread_graphs (id ∷ ids) s = remove_thread_graphs ids (remove_thread_graph id s)

abbrev pub session_thread_ids : ScopeState → String → List String
session_thread_ids s session_id =
    session_id
    ∷ map (λ t. t.id) (filter (λ t. str_eq t.session_id session_id) (values s.child_threads))

abbrev pub drop_owned : (WireIdOwner → Bool) → ScopeState → ScopeState
drop_owned predicate s = with_wires s (remove_owned_response_pairs predicate (wires s))

unfoldable pub remove_conversation_graph : String → ScopeState → ScopeState
remove_conversation_graph session_id s =
    let thread_ids = session_thread_ids s session_id in
    let w =
      remove_wire_pairs WireIdDomain.thread thread_ids
        (remove_wire_pairs WireIdDomain.session (session_id ∷ []) (wires s)) in
    drop_owned (λ owner. str_eq owner.session_id session_id)
      (remove_thread_graphs thread_ids (record s {
        child_threads = retain (λ t. not (str_eq t.session_id session_id)) s.child_threads;
        wire_ids = w.0;
        wire_upstream_index = w.1;
      }))

unfoldable pub remove_child_thread_graph : String → ScopeState → ScopeState
remove_child_thread_graph thread_id s =
    let thread_ids = descendant_thread_ids s thread_id in
    let w = remove_wire_pairs WireIdDomain.thread thread_ids (wires s) in
    drop_owned (λ owner. has_text owner.thread_id thread_ids)
      (remove_thread_graphs thread_ids (record s {
        child_threads = retain (λ t. not (has_text t.id thread_ids)) s.child_threads;
        wire_ids = w.0;
        wire_upstream_index = w.1;
      }))

-- `if entry.current_turn_id.as_deref() == Some(turn_id)`
abbrev pub unless_current : String → Option String → Option String
unless_current turn_id none = none
unless_current turn_id (some id) = if str_eq id turn_id then none else some id

unfoldable pub clear_current_turn : String → ScopeState → ScopeState
clear_current_turn turn_id s = record s {
  conversations =
      map_values (λ c. record c { current_turn_id = unless_current turn_id c.current_turn_id })
        s.conversations;
  child_threads =
      map_values (λ t. record t { current_turn_id = unless_current turn_id t.current_turn_id })
        s.child_threads;
}

unfoldable pub clear_current_turns : List String → ScopeState → ScopeState
unfolding clear_current_turn
clear_current_turns [] s = s
clear_current_turns (id ∷ ids) s = clear_current_turns ids (clear_current_turn id s)

unfoldable pub remove_turn_graph : String → ScopeState → ScopeState
remove_turn_graph turn_id s =
    let turn_ids = descendant_turn_ids s turn_id in
    let item_ids = item_ids_of turn_ids s in
    let cleared = clear_current_turns turn_ids s in
    let w =
      remove_wire_pairs WireIdDomain.item item_ids
        (remove_wire_pairs WireIdDomain.turn turn_ids (wires cleared)) in
    record cleared {
      turns = retain (λ t. not (has_text t.id turn_ids)) cleared.turns;
      generated_items = retain (λ i. not (among turn_ids i.turn_id)) cleared.generated_items;
      wire_ids = w.0;
      wire_upstream_index = w.1;
    }

-- `if let Some(entry) = ...`, on a scope that is left alone otherwise.
abbrev pub if_found {ℓ} : {A : Type ℓ} → Option A → ScopeState → (A → ScopeState) → ScopeState
if_found none s f = s
if_found (some a) s f = f a

-- `remove_entry`, on the scope of the entry.
unfoldable pub remove_from : EntryKind → String → ScopeState → ScopeState
remove_from EntryKind.installation_entry key s =
    if_found (lookup key s.scoped_installations) s (λ entry.
      let w = remove_wire_pairs WireIdDomain.installation (entry.id ∷ []) (wires s) in
      record s {
        scoped_installations = remove key s.scoped_installations;
        wire_ids = w.0;
        wire_upstream_index = w.1;
      })
remove_from EntryKind.conversation_entry key s = if_found (lookup key s.conversations) s (λ entry.
    remove_conversation_graph entry.id (record s { conversations = remove key s.conversations }))
remove_from EntryKind.child_thread_entry key s =
    if_found (lookup key s.child_threads) s (λ entry. remove_child_thread_graph entry.id s)
remove_from EntryKind.turn_entry key s =
    if_found (lookup key s.turns) s (λ entry. remove_turn_graph entry.id s)
remove_from EntryKind.generated_item_entry key s =
    if_found (lookup key s.generated_items) s (λ entry.
      let w = remove_wire_pairs WireIdDomain.item (entry.id ∷ []) (wires s) in
      record s {
        generated_items = remove key s.generated_items;
        wire_ids = w.0;
        wire_upstream_index = w.1;
      })
remove_from EntryKind.compaction_marker_entry key s = record s {
  compaction_markers = remove key s.compaction_markers;
}
remove_from EntryKind.wire_id_entry key s = with_wires s (remove_pair key (wires s))

pub if_found-preserves {ℓ κ} :
    {A : Type ℓ} (Q : ScopeState → Type κ) (o : Option A) (s : ScopeState) (f : A → ScopeState)
    → Q s
    → ((a : A) → o ≡ some a → Q (f a))
    → Q (if_found o s f)
if_found-preserves Q none s f h k = h
if_found-preserves Q (some a) s f h k = k a refl
