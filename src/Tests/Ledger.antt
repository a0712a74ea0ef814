-- ===== src/Tests/Ledger.antt =====
-- Ledgers on which the theorems on pruning are run.
use mini_sub2api.Base.{
  ◌≡◌, ◌↔◌, refl, subst, String, true, false, some, none, [], ◌∷◌, arith, str_eq, eq_iff,
  Bool-cases, inl, inr,
}
use mathlib.Core.Option.{some-injective}
use mini_sub2api.Base.Int.{pos}
use mini_sub2api.Base.TextMap.{lookup, has_text, IsDistinct}
use mini_sub2api.RequestState.Types.{
  WireIdDomain, WireIdOrigin, ChildThreadEntry, TurnEntry, GeneratedItemEntry, WireIdEntry,
  ScopeState, PersistedRequestState, EntryKind,
}
use mini_sub2api.RequestState.Prune.{
  holds, wires, remove_turn_graph, remove_child_thread_graph, descendant_turn_ids,
  descendant_thread_ids, entry_keys, joins_turn,
}
use mini_sub2api.RequestState.Prune.Descend.{descend, descend_on, round}
use mini_sub2api.RequestState.Prune.Protect.{
  ProtectedStateKeys, places, removable, graph_protected, protected_turn_graph,
}
use mini_sub2api.RequestState.Prune.Policy.{
  Outcome, earlier, prune, expire_kind, evict_one, evicting_kinds, oldest_entry, oldest_candidate,
  entry_day, candidates, earliest,
}
use mini_sub2api.RequestState.Prune.Index.{IsIndexed}
use mini_sub2api.RequestState.Prune.Outlive.{guarded}
use mini_sub2api.RequestState.Prune.Invariants.{HoldsAt, IsProtected, AllIndexed}
use mini_sub2api.RequestState.Prune.Oldest.{IsOldest, oldest_entry-IsOldest}
use mini_sub2api.RequestState.Prune.Expiry.{Expired, expire_kind-Expired}
use mini_sub2api.RequestState.Prune.Ends.{ledger, Ends}
use mini_sub2api.RequestState.Prune.Result.{
  IsWithinLimits, prune-Ends, prune-HoldsAt, prune-AllIndexed,
}
use mini_sub2api.RequestState.Prune.Evict.{EvictsOne, evict_one_lem}
use mini_sub2api.RequestState.Prune.Reach.{TurnDescends, ThreadDescends}
use mini_sub2api.RequestState.Prune.Traces.{
  NoTurnTrace, NoThreadTrace, remove_turn_graph-NoTurnTrace,
  remove_child_thread_graph-NoThreadTrace,
}

abbrev old_turn : TurnEntry
old_turn = record {
  id = "t1";
  thread_id = "c1";
  inventory_source_thread_id = none;
  classifier = false;
  root_turn_id = "t1";
  parent_turn_id = none;
  started_at_unix_ms = pos 1000;
  last_seen_day = pos 10;
}

abbrev new_turn : TurnEntry
new_turn = record old_turn { id = "t2"; parent_turn_id = some "t1"; last_seen_day = pos 90 }

abbrev thread_entry : ChildThreadEntry
thread_entry = record {
  id = "c1";
  session_id = "s1";
  parent_thread_id = none;
  window_number = 0;
  current_turn_id = some "t2";
  last_seen_day = pos 90;
}

abbrev item_entry : GeneratedItemEntry
item_entry = record {
  id = "i1";
  turn_id = some "t1";
  create_time_micros = none;
  last_seen_day = pos 10;
}

abbrev turn_wire : WireIdEntry
turn_wire = record {
  domain = WireIdDomain.turn;
  origin = WireIdOrigin.downstream;
  downstream_id = "d1";
  upstream_id = "t1";
  upstream_lookup = "turn:t1";
  owner = none;
  last_seen_day = pos 10;
}

abbrev one_scope : ScopeState
one_scope = record {
  last_seen_day = pos 90;
  scoped_installations = [];
  conversations = [];
  child_threads = ("child", thread_entry) ∷ [];
  turns = ("first", old_turn) ∷ ("second", new_turn) ∷ [];
  generated_items = ("item", item_entry) ∷ [];
  compaction_markers = [];
  wire_ids = ("wire", turn_wire) ∷ [];
  wire_upstream_index = ("turn:t1", "wire") ∷ [];
}

abbrev one_ledger : PersistedRequestState
one_ledger = record {
  version = 1;
  revision = 1;
  installation_id = "inst";
  owners = [];
  scopes = ("scope", one_scope) ∷ [];
  tool_inventory_revocations = [];
  tool_inventory_uncertain = false;
  tool_inventory_revision = 0;
}

abbrev nothing_protected : ProtectedStateKeys
nothing_protected = record {
  scopes = [];
  installations = [];
  conversations = [];
  child_threads = [];
  turns = [];
  generated_items = [];
  compaction_markers = [];
  wire_ids = [];
}

abbrev turn_protected : ProtectedStateKeys
turn_protected = record nothing_protected {
  scopes = "scope" ∷ [];
  turns = ("scope", "second") ∷ [];
}

one_ledger-IsDistinct : IsDistinct one_ledger.scopes
one_ledger-IsDistinct = (refl, tt)

prune-Ends_example :
    Ends turn_protected IsWithinLimits false one_ledger (prune turn_protected (pos 100) one_ledger)
prune-Ends_example = prune-Ends turn_protected (pos 100) one_ledger one_ledger-IsDistinct

expire_kind-Expired_example :
    Expired turn_protected
      (pos 70)
      EntryKind.generated_item_entry
      false
      one_ledger
      (expire_kind turn_protected (pos 70) EntryKind.generated_item_entry false one_ledger)
expire_kind-Expired_example =
    expire_kind-Expired turn_protected (pos 70) EntryKind.generated_item_entry false one_ledger
      one_ledger-IsDistinct

second-IsProtected : IsProtected turn_protected EntryKind.turn_entry "scope" "second"
unfolding guarded places
second-IsProtected = (refl, refl, refl)

second-HoldsAt : HoldsAt one_ledger EntryKind.turn_entry "scope" "second"
unfolding holds
second-HoldsAt = (one_scope, refl, refl)

prune-HoldsAt_example :
    (out : Outcome) × (prune turn_protected (pos 100) one_ledger ≡ some out)
    × HoldsAt (ledger out) EntryKind.turn_entry "scope" "second"
prune-HoldsAt_example =
    prune-HoldsAt turn_protected (pos 100) one_ledger EntryKind.turn_entry "scope" "second"
      one_ledger-IsDistinct second-IsProtected second-HoldsAt

evict_one_lem_example :
    EvictsOne turn_protected evicting_kinds one_ledger (evict_one turn_protected one_ledger)
evict_one_lem_example = evict_one_lem turn_protected one_ledger one_ledger-IsDistinct

remove_turn_graph-NoTurnTrace_example :
    ((k : String)
      → (has_text k (descendant_turn_ids one_scope "t1") ≡ true) ↔ TurnDescends one_scope "t1" k)
    × NoTurnTrace "t1" (descendant_turn_ids one_scope "t1") (remove_turn_graph "t1" one_scope)
remove_turn_graph-NoTurnTrace_example = remove_turn_graph-NoTurnTrace "t1" one_scope

remove_child_thread_graph-NoThreadTrace_example :
    ((k : String)
      → (has_text k (descendant_thread_ids one_scope "c1") ≡ true)
        ↔ ThreadDescends one_scope "c1" k)
    × NoThreadTrace
        (descendant_thread_ids one_scope "c1")
        (remove_child_thread_graph "c1" one_scope)
remove_child_thread_graph-NoThreadTrace_example =
    remove_child_thread_graph-NoThreadTrace "c1" one_scope

single : {V : Type 0} (j k : String) (v w : V) → lookup k ((j, v) ∷ []) ≡ some w → (j ≡ k) × (v ≡ w)
single j k v w h = elim (Bool-cases (str_eq j k)) [
  | inl y ↦ ((eq_iff j k).0 y, some-injective v w (ground arith))
  | inr n ↦ absurd (ground arith)
]

one_scope-IsIndexed : IsIndexed (wires one_scope)
one_scope-IsIndexed = (
  (refl, tt),
  (refl, tt),
  λ k v h.
      let (ek, ev) = single "wire" k turn_wire v h in
      subst (λ x. lookup x.upstream_lookup one_scope.wire_upstream_index ≡ some k) ev
        (subst (λ x. lookup "turn:t1" one_scope.wire_upstream_index ≡ some x) ek refl),
  λ u k h.
      let (eu, ek) = single "turn:t1" u "wire" k h in
      (turn_wire, subst (λ x. lookup x one_scope.wire_ids ≡ some turn_wire) ek refl, eu),
)

one_ledger-AllIndexed : AllIndexed one_ledger
one_ledger-AllIndexed k s h =
    let (ek, es) = single "scope" k one_scope s h in
    subst (λ x. IsIndexed (wires x)) es one_scope-IsIndexed

prune-AllIndexed_example :
    (out : Outcome) × (prune nothing_protected (pos 100) one_ledger ≡ some out)
    × AllIndexed (ledger out)
prune-AllIndexed_example =
    prune-AllIndexed nothing_protected (pos 100) one_ledger one_ledger-IsDistinct
      one_ledger-AllIndexed

-- The turn that was seen first is the oldest.
first_turn-oldest :
    oldest_entry nothing_protected EntryKind.turn_entry none one_ledger ≡ some ("scope", "first")
unfolding oldest_entry oldest_candidate candidates earliest earlier entry_day entry_keys removable
    graph_protected places protected_turn_graph descendant_turn_ids descend descend_on round
    joins_turn
first_turn-oldest = refl

oldest_entry-IsOldest_example :
    IsOldest nothing_protected EntryKind.turn_entry none one_ledger
      (oldest_entry nothing_protected EntryKind.turn_entry none one_ledger)
oldest_entry-IsOldest_example =
    oldest_entry-IsOldest nothing_protected EntryKind.turn_entry none one_ledger
      one_ledger-IsDistinct
