-- ===== src/RequestState/Prune/Guard.antt =====
-- src/core/codex/src/request_state_prune.rs: the tests for protected entries, read for one entry.
use mini_sub2api.Base.{
  map, filter, ◌≡◌, sym, ◌∙◌, ap, String, Bool, true, false, not, ◌&&◌, ◌||◌, some, none, List, [],
  ◌∷◌, any, arith, str_eq, eq_iff, Option-cases, inl, inr,
}
use mini_sub2api.Base.TextMap.{TextMap, lookup, contains_key, values, has_text, any-lookup}
use mini_sub2api.RequestState.Types.{
  ScopeState, EntryKind, ChildThreadEntry, TurnEntry, GeneratedItemEntry, ConversationEntry,
}
use mini_sub2api.RequestState.Prune.{session_thread_ids, descendant_thread_ids}
use mini_sub2api.RequestState.Prune.Protect.{
  Places, has_place, places, ProtectedStateKeys, item_in, protected_thread_ids,
  protected_conversation_graph, protected_thread_graph, protected_turn_graph, graph_protected,
  removable,
}

pub apart :
    (scope_key key key' : String) (ps : Places)
    → has_place scope_key key ps ≡ false
    → has_place scope_key key' ps ≡ true
    → str_eq key key' ≡ false
apart scope_key key key' ps out there = ground (arith, eq_iff key key')

pub none_such :
    {V : Type 0} (p : String × V → Bool) (k : String) (v : V) (m : TextMap V)
    → any p m ≡ false
    → lookup k m ≡ some v
    → p (k, v) ≡ false
none_such p k v m h e = ground (arith, any-lookup p k v m)

pub and_left : {a b : Bool} → (a && b) ≡ false → b ≡ true → a ≡ false
and_left h k = ground arith

pub or_left : (a b : Bool) → (a || b) ≡ false → a ≡ false
or_left a b h = ground arith

pub or_right : (a b : Bool) → (a || b) ≡ false → b ≡ false
or_right a b h = ground arith

pub not-true : {a : Bool} → a ≡ false → not a ≡ true
not-true h = ground arith

module _ (s : ScopeState) (scope_key : String) (p : ProtectedStateKeys) (ids : List String) where
  pub child_outside :
      (k : String) (v : ChildThreadEntry)
      → protected_thread_ids s scope_key p ids ≡ false
      → lookup k s.child_threads ≡ some v
      → has_place scope_key k p.child_threads ≡ true
      → has_text v.id ids ≡ false
  unfolding protected_thread_ids
  child_outside k v h e there = and_left (none_such _ k v s.child_threads (or_left _ _ h) e) there

  pub turn_outside :
      (k : String) (v : TurnEntry)
      → protected_thread_ids s scope_key p ids ≡ false
      → lookup k s.turns ≡ some v
      → has_place scope_key k p.turns ≡ true
      → has_text v.thread_id ids ≡ false
  unfolding protected_thread_ids
  turn_outside k v h e there =
      and_left (none_such _ k v s.turns (or_left _ _ (or_right _ _ h)) e) there

  pub item_outside :
      (k : String) (v : GeneratedItemEntry)
      → protected_thread_ids s scope_key p ids ≡ false
      → lookup k s.generated_items ≡ some v
      → has_place scope_key k p.generated_items ≡ true
      → item_in (values s.turns) ids v.turn_id ≡ false
  unfolding protected_thread_ids
  item_outside k v h e there =
      and_left (none_such _ k v s.generated_items (or_right _ _ (or_right _ _ h)) e) there

pub with_entry {ℓ} :
    {V : Type ℓ} (Q : Type 0) (k : String) (m : TextMap V)
    → contains_key k m ≡ true
    → ((v : V) → lookup k m ≡ some v → Q)
    → Q
with_entry Q k m h f = elim (Option-cases (lookup k m)) [
  | inl e ↦ absurd (ground arith)
  | inr (v, e) ↦ f v e
]

-- A child thread of the session is one of its threads.
session_member :
    (id k : String) (v : ChildThreadEntry) (m : TextMap ChildThreadEntry)
    → lookup k m ≡ some v
    → str_eq v.session_id id ≡ true
    → has_text v.id (map (λ t. t.id) (filter (λ t. str_eq t.session_id id) (values m))) ≡ true
session_member id k v [] e h = cc
session_member id k v ((j, w) ∷ m) e h = ground (arith, session_member id k v m, eq_iff v.id v.id)

pub other_session :
    (s : ScopeState) (id k : String) (v : ChildThreadEntry)
    → lookup k s.child_threads ≡ some v
    → has_text v.id (session_thread_ids s id) ≡ false
    → str_eq v.session_id id ≡ false
other_session s id k v e h = ground (arith, session_member id k v s.child_threads e)

-- The two halves of `removable`.
pub removable_place :
    (s : ScopeState) (scope_key : String) (p : ProtectedStateKeys) (kind : EntryKind) (key : String)
    → removable s scope_key p kind key ≡ true
    → has_place scope_key key (places p kind) ≡ false
unfolding removable
removable_place s scope_key p kind key h = ground arith

pub removable_graph :
    (s : ScopeState) (scope_key : String) (p : ProtectedStateKeys) (kind : EntryKind) (key : String)
    → removable s scope_key p kind key ≡ true
    → graph_protected s scope_key p kind key ≡ false
unfolding removable
removable_graph s scope_key p kind key h = ground arith

module _ (s : ScopeState) (scope_key : String) (p : ProtectedStateKeys) (key : String) where
  pub conversation_free :
      (v : ConversationEntry)
      → lookup key s.conversations ≡ some v
      → removable s scope_key p EntryKind.conversation_entry key ≡ true
      → protected_thread_ids s scope_key p (session_thread_ids s v.id) ≡ false
  unfolding graph_protected protected_conversation_graph
  conversation_free v e h =
      let free = removable_graph s scope_key p EntryKind.conversation_entry key h in
      or_left _ _ (
        sym (
          ap
            (λ o. elim o [ none ↦ true | some c ↦ protected_conversation_graph s scope_key p c.id ])
            e)
        ∙ free)

  pub child_thread_free :
      (v : ChildThreadEntry)
      → lookup key s.child_threads ≡ some v
      → removable s scope_key p EntryKind.child_thread_entry key ≡ true
      → protected_thread_ids s scope_key p (descendant_thread_ids s v.id) ≡ false
  unfolding graph_protected protected_thread_graph
  child_thread_free v e h =
      let free = removable_graph s scope_key p EntryKind.child_thread_entry key h in
      or_left _ _ (
        sym
          (ap (λ o. elim o [ none ↦ true | some c ↦ protected_thread_graph s scope_key p c.id ]) e)
        ∙ free)

  pub turn_free :
      (v : TurnEntry)
      → lookup key s.turns ≡ some v
      → removable s scope_key p EntryKind.turn_entry key ≡ true
      → protected_turn_graph s scope_key p v.id ≡ false
  unfolding graph_protected
  turn_free v e h =
      let free = removable_graph s scope_key p EntryKind.turn_entry key h in
      sym (ap (λ o. elim o [ none ↦ true | some c ↦ protected_turn_graph s scope_key p c.id ]) e)
      ∙ free
