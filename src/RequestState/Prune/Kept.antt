-- ===== src/RequestState/Prune/Kept.antt =====
-- src/core/codex/src/request_state_prune.rs: what the removal of graphs leaves in each map.
use mini_sub2api.Base.{
  ◌≡◌, refl, String, Bool, true, false, ◌&&◌, Option, some, none, List, [], ◌∷◌, map, filter, any,
  arith, str_eq, eq_iff, Option-cases, inl, inr,
}
use mini_sub2api.Base.TextMap.{
  TextMap, lookup, contains_key, remove, retain, map_values, values, has_text, lookup-remove_ne,
  lookup-retain, lookup-map_values,
}
use mini_sub2api.RequestState.Types.{ScopeState, TurnEntry, GeneratedItemEntry}
use mini_sub2api.RequestState.Prune.{
  among, remove_thread_graph, remove_thread_graphs, clear_current_turn, clear_current_turns,
  turn_ids_in,
}
use mini_sub2api.RequestState.Prune.Protect.{item_in}

module _ {ℓ} {V : Type ℓ} where
  pub contains_key-of_lookup :
      (k : String) (v : V) (m : TextMap V) → lookup k m ≡ some v → contains_key k m ≡ true
  contains_key-of_lookup k v m h = ground arith

  pub contains_key-remove_ne :
      (key k : String) (m : TextMap V)
      → str_eq key k ≡ false
      → contains_key k m ≡ true
      → contains_key k (remove key m) ≡ true
  contains_key-remove_ne key k m n h = ground (arith, lookup-remove_ne k key m n)

  -- An entry stays that passes the test of `retain`.
  pub contains_key-retain :
      (p : V → Bool) (k : String) (m : TextMap V)
      → contains_key k m ≡ true
      → ((v : V) → lookup k m ≡ some v → p v ≡ true)
      → contains_key k (retain p m) ≡ true
  contains_key-retain p k m h pass = elim (Option-cases (lookup k m)) [
    | inl e ↦ absurd (ground arith)
    | inr (v, e) ↦ contains_key-of_lookup k v (retain p m) (lookup-retain p k v m e (pass v e))
  ]

  pub contains_key-map_values :
      (f : V → V) (k : String) (m : TextMap V)
      → contains_key k m ≡ true
      → contains_key k (map_values f m) ≡ true
  contains_key-map_values f k m h = elim (Option-cases (lookup k m)) [
    | inl e ↦ absurd (ground arith)
    | inr (v, e) ↦ ground (arith, lookup-map_values k f m)
  ]

  -- A test that fails for all entries fails for those that are left.
  any-retain :
      (q : V → Bool) (p : V → Bool) (m : TextMap V)
      → any p (values m) ≡ false
      → any p (values (retain q m)) ≡ false
  any-retain q p [] h = refl
  any-retain q p ((j, v) ∷ m) h = ground (arith, any-retain q p m)

-- An item of a turn of the first thread is in the threads.
item_in-first :
    (id : String) (ids : List String) (turns : List TurnEntry) (turn_id : String)
    → item_in turns (id ∷ ids) (some turn_id) ≡ false
    → has_text turn_id (map (λ t. t.id) (filter (λ t. str_eq t.thread_id id) turns)) ≡ false
item_in-first id ids [] turn_id h = refl
item_in-first id ids (t ∷ ts) turn_id h =
    ground (arith, item_in-first id ids ts turn_id, eq_iff t.thread_id id, eq_iff id t.thread_id)

item_in-rest :
    (id : String) (ids : List String) (turns : List TurnEntry) (turn_id : String)
    → item_in turns (id ∷ ids) (some turn_id) ≡ false
    → item_in turns ids (some turn_id) ≡ false
item_in-rest id ids [] turn_id h = refl
item_in-rest id ids (t ∷ ts) turn_id h = ground (arith, item_in-rest id ids ts turn_id)

-- An item that is in none of the threads is of no turn of the first, and stays in none of the others.
outside_first :
    (id : String) (ids : List String) (s : ScopeState) (turn_id : Option String)
    → item_in (values s.turns) (id ∷ ids) turn_id ≡ false
    → among (turn_ids_in id s) turn_id ≡ false
outside_first id ids s none h = refl
outside_first id ids s (some turn_id) h = item_in-first id ids (values s.turns) turn_id h

outside_rest :
    (id : String) (ids : List String) (s : ScopeState) (turn_id : Option String)
    → item_in (values s.turns) (id ∷ ids) turn_id ≡ false
    → item_in (values (remove_thread_graph id s).turns) ids turn_id ≡ false
unfolding remove_thread_graph
outside_rest id ids s none h = refl
outside_rest id ids s (some turn_id) h =
    any-retain _ (λ t. str_eq t.id turn_id && has_text t.thread_id ids) s.turns
      (item_in-rest id ids (values s.turns) turn_id h)

pub turn_stays :
    (ids : List String) (s : ScopeState) (k : String) (v : TurnEntry)
    → lookup k s.turns ≡ some v
    → has_text v.thread_id ids ≡ false
    → lookup k (remove_thread_graphs ids s).turns ≡ some v
unfolding remove_thread_graphs remove_thread_graph
turn_stays [] s k v e h = e
turn_stays (id ∷ ids) s k v e h =
    turn_stays ids (remove_thread_graph id s) k v
      (lookup-retain _ k v s.turns e (ground (arith, eq_iff v.thread_id id, eq_iff id v.thread_id)))
      (ground arith)

pub item_stays :
    (ids : List String) (s : ScopeState) (k : String) (v : GeneratedItemEntry)
    → lookup k s.generated_items ≡ some v
    → item_in (values s.turns) ids v.turn_id ≡ false
    → lookup k (remove_thread_graphs ids s).generated_items ≡ some v
unfolding remove_thread_graphs remove_thread_graph
item_stays [] s k v e h = e
item_stays (id ∷ ids) s k v e h =
    let out = outside_first id ids s v.turn_id h in
    item_stays ids (remove_thread_graph id s) k v
      (lookup-retain _ k v s.generated_items e (ground arith)) (outside_rest id ids s v.turn_id h)

-- Removing the graphs of threads leaves the other maps alone.
pub installations-remove_thread_graphs :
    (ids : List String) (s : ScopeState)
    → (remove_thread_graphs ids s).scoped_installations ≡ s.scoped_installations
unfolding remove_thread_graphs remove_thread_graph
installations-remove_thread_graphs [] s = refl
installations-remove_thread_graphs (id ∷ ids) s =
    installations-remove_thread_graphs ids (remove_thread_graph id s)

pub conversations-remove_thread_graphs :
    (ids : List String) (s : ScopeState)
    → (remove_thread_graphs ids s).conversations ≡ s.conversations
unfolding remove_thread_graphs remove_thread_graph
conversations-remove_thread_graphs [] s = refl
conversations-remove_thread_graphs (id ∷ ids) s =
    conversations-remove_thread_graphs ids (remove_thread_graph id s)

pub child_threads-remove_thread_graphs :
    (ids : List String) (s : ScopeState)
    → (remove_thread_graphs ids s).child_threads ≡ s.child_threads
unfolding remove_thread_graphs remove_thread_graph
child_threads-remove_thread_graphs [] s = refl
child_threads-remove_thread_graphs (id ∷ ids) s =
    child_threads-remove_thread_graphs ids (remove_thread_graph id s)

-- Clearing the current turns keeps every conversation and child thread.
pub installations-clear_current_turns :
    (ids : List String) (s : ScopeState)
    → (clear_current_turns ids s).scoped_installations ≡ s.scoped_installations
unfolding clear_current_turns clear_current_turn
installations-clear_current_turns [] s = refl
installations-clear_current_turns (id ∷ ids) s =
    installations-clear_current_turns ids (clear_current_turn id s)

pub conversations_stay :
    (ids : List String) (s : ScopeState) (k : String)
    → contains_key k s.conversations ≡ true
    → contains_key k (clear_current_turns ids s).conversations ≡ true
unfolding clear_current_turns clear_current_turn
conversations_stay [] s k h = h
conversations_stay (id ∷ ids) s k h =
    conversations_stay ids (clear_current_turn id s) k
      (contains_key-map_values _ k s.conversations h)

pub child_threads_stay :
    (ids : List String) (s : ScopeState) (k : String)
    → contains_key k s.child_threads ≡ true
    → contains_key k (clear_current_turns ids s).child_threads ≡ true
unfolding clear_current_turns clear_current_turn
child_threads_stay [] s k h = h
child_threads_stay (id ∷ ids) s k h =
    child_threads_stay ids (clear_current_turn id s) k
      (contains_key-map_values _ k s.child_threads h)
