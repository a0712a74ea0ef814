-- ===== src/RequestState/Prune/Traces.antt =====
-- src/core/codex/src/request_state_prune.rs: what refers to the threads and turns of a removed graph.
use mini_sub2api.Base.{
  ◌≡◌, ◌↔◌, refl, sym, subst, String, Bool, true, false, not, ◌&&◌, Option, some, none, List, [],
  ◌∷◌, arith, str_eq, eq_iff, All, All-mono, Bool-cases, inl, inr,
}
use mini_sub2api.Base.TextMap.{TextMap, has_text, retain, map_values, values}
use mini_sub2api.RequestState.Types.{ScopeState, ChildThreadEntry, TurnEntry}
use mini_sub2api.RequestState.Prune.{
  among, unless_current, clear_current_turn, clear_current_turns, joins_turn, joins_thread,
  descendant_turn_ids, descendant_thread_ids, remove_turn_graph, remove_thread_graph,
  remove_thread_graphs, remove_child_thread_graph,
}
use mini_sub2api.RequestState.Prune.Descend.{descend-Closed}
use mini_sub2api.RequestState.Prune.Reach.{
  TurnDescends, ThreadDescends, turn_descends, thread_descends,
}
use mini_sub2api.RequestState.Prune.Wires.{
  turns-clear_current_turns, generated_items-clear_current_turns,
}
use mini_sub2api.RequestState.Prune.Kept.{child_threads-remove_thread_graphs}

module _ {ℓ κ} {V : Type ℓ} where
  All-map_values {μ} :
      (P : V → Type κ) (Q : V → Type μ) (f : V → V)
      → ((v : V) → P v → Q (f v))
      → (m : TextMap V) → All P (values m)
      → All Q (values (map_values f m))
  All-map_values P Q f h [] a = tt
  All-map_values P Q f h (e ∷ m) a = (h e.1 a.0, All-map_values P Q f h m a.1)

  All-retain :
      (P : V → Type κ) (test : V → Bool) (m : TextMap V)
      → All P (values m)
      → All P (values (retain test m))
  All-retain P test [] a = tt
  All-retain P test ((k, v) ∷ m) a = elim (Bool-cases (test v)) [
    | inl y ↦ rw (y, retain) (a.0, All-retain P test m a.1)
    | inr n ↦ rw (n, retain) (All-retain P test m a.1)
  ]

  retain-All :
      (P : V → Type κ) (test : V → Bool) (m : TextMap V)
      → All (λ v. test v ≡ true → P v) (values m)
      → All P (values (retain test m))
  retain-All P test [] a = tt
  retain-All P test ((k, v) ∷ m) a = elim (Bool-cases (test v)) [
    | inl y ↦ rw (y, retain) (a.0 y, retain-All P test m a.1)
    | inr n ↦ rw (n, retain) (retain-All P test m a.1)
  ]

All-any {ℓ κ} : {A : Type ℓ} (P : A → Type κ) (xs : List A) → ((x : A) → P x) → All P xs
All-any P [] h = tt
All-any P (x ∷ xs) h = (h x, All-any P xs h)

cleared_one :
    (id : String) (done : List String) (o : Option String)
    → among done o ≡ false
    → among (id ∷ done) (unless_current id o) ≡ false
cleared_one id done none h = refl
cleared_one id done (some t) h = ground (arith, eq_iff t id, eq_iff id t)

among_none : (o : Option String) → among [] o ≡ false
among_none none = refl
among_none (some t) = refl

regroup :
    (id : String) (ids done : List String) (o : Option String)
    → among (id ∷ done) o ≡ false
    → among ids o ≡ false
    → (among done o ≡ false) × (among (id ∷ ids) o ≡ false)
regroup id ids done none h k = (refl, refl)
regroup id ids done (some t) h k = ground arith

cleared_conversations :
    (ids : List String) (s : ScopeState) (done : List String)
    → All (λ c. among done c.current_turn_id ≡ false) (values s.conversations)
    → All
        (λ c. (among done c.current_turn_id ≡ false) × (among ids c.current_turn_id ≡ false))
        (values (clear_current_turns ids s).conversations)
unfolding clear_current_turns clear_current_turn
cleared_conversations [] s done a =
    All-mono _ _ (λ c h. (h, among_none c.current_turn_id)) (values s.conversations) a
cleared_conversations (id ∷ ids) s done a =
    All-mono _ _ (λ c h. regroup id ids done c.current_turn_id h.0 h.1) _
      (cleared_conversations ids (clear_current_turn id s) (id ∷ done) (
        All-map_values _ (λ c. among (id ∷ done) c.current_turn_id ≡ false) _
          (λ c h. cleared_one id done c.current_turn_id h) s.conversations a))

cleared_child_threads :
    (ids : List String) (s : ScopeState) (done : List String)
    → All (λ c. among done c.current_turn_id ≡ false) (values s.child_threads)
    → All
        (λ c. (among done c.current_turn_id ≡ false) × (among ids c.current_turn_id ≡ false))
        (values (clear_current_turns ids s).child_threads)
unfolding clear_current_turns clear_current_turn
cleared_child_threads [] s done a =
    All-mono _ _ (λ c h. (h, among_none c.current_turn_id)) (values s.child_threads) a
cleared_child_threads (id ∷ ids) s done a =
    All-mono _ _ (λ c h. regroup id ids done c.current_turn_id h.0 h.1) _
      (cleared_child_threads ids (clear_current_turn id s) (id ∷ done) (
        All-map_values _ (λ c. among (id ∷ done) c.current_turn_id ≡ false) _
          (λ c h. cleared_one id done c.current_turn_id h) s.child_threads a))

-- A turn of the scope is neither one of the turns nor a child of one, nor has it the root.
abbrev pub NoTurn : String → List String → TurnEntry → Type 0
NoTurn root ids t = (has_text t.id ids ≡ false) × (joins_turn root ids t ≡ false)

abbrev pub NoTurnTrace : String → List String → ScopeState → Type 0
NoTurnTrace root ids s =
    All (NoTurn root ids) (values s.turns)
    × All (λ i. among ids i.turn_id ≡ false) (values s.generated_items)
    × All (λ c. among ids c.current_turn_id ≡ false) (values s.conversations)
    × All (λ t. among ids t.current_turn_id ≡ false) (values s.child_threads)

not-false : {a : Bool} → not a ≡ true → a ≡ false
not-false h = ground arith

left_false : (a b : Bool) → (a && not b) ≡ false → b ≡ false → a ≡ false
left_false a b h k = ground arith

turns_closed :
    (id : String) (s : ScopeState)
    → All
        (λ t.
          (joins_turn id (descendant_turn_ids s id) t
            && not (has_text t.id (descendant_turn_ids s id)))
          ≡ false)
        (values s.turns)
unfolding descendant_turn_ids
turns_closed id s = descend-Closed (λ t. t.id) (joins_turn id) (values s.turns) (id ∷ [])

no_turn_trace :
    (id : String) (s : ScopeState)
    → NoTurnTrace id (descendant_turn_ids s id) (remove_turn_graph id s)
unfolding remove_turn_graph
no_turn_trace id s =
    let ids = descendant_turn_ids s id in
    (
      subst (λ m. All (NoTurn id ids) (values (retain (λ t. not (has_text t.id ids)) m)))
          (sym (turns-clear_current_turns ids s))
          (retain-All (NoTurn id ids) (λ t. not (has_text t.id ids)) s.turns
            (All-mono _ _
              (λ t closed out. (
                not-false out,
                left_false (joins_turn id ids t) (has_text t.id ids) closed (not-false out),
              ))
              (values s.turns) (turns_closed id s))),
      subst
          (λ m.
            All (λ i. among ids i.turn_id ≡ false)
              (values (retain (λ i. not (among ids i.turn_id)) m)))
          (sym (generated_items-clear_current_turns ids s))
          (retain-All _ (λ i. not (among ids i.turn_id)) s.generated_items
            (All-any _ (values s.generated_items) (λ i out. not-false out))),
      All-mono _ _ (λ c h. h.1) _
          (cleared_conversations ids s []
            (All-any _ (values s.conversations) (λ c. among_none c.current_turn_id))),
      All-mono _ _ (λ c h. h.1) _
          (cleared_child_threads ids s []
            (All-any _ (values s.child_threads) (λ c. among_none c.current_turn_id))),
    )

-- The identifiers that the removal of a turn collects are the turn's own, those of the turns that have
-- it as their root, those of the children of turns that are collected, and no others. After the
-- removal, no turn that is left has one of them as its own or as its parent, or the removed turn as its
-- root; no generated item is of one of them; and none of them is the current turn of a conversation or
-- of a child thread.
pub remove_turn_graph-NoTurnTrace :
    (id : String) (s : ScopeState)
    → ((k : String) → (has_text k (descendant_turn_ids s id) ≡ true) ↔ TurnDescends s id k)
      × NoTurnTrace id (descendant_turn_ids s id) (remove_turn_graph id s)
remove_turn_graph-NoTurnTrace id s = (turn_descends s id, no_turn_trace id s)

-- Turns and markers of the threads are gone once their graphs are.
module _ {V : Type 0} (thread_of : V → String) where
  abbrev Outside : List String → V → Type 0
  Outside ids v = has_text (thread_of v) ids ≡ false

  Outside-more :
      (id : String) (done : List String) (m : TextMap V)
      → All (Outside done) (values m)
      → All (Outside (id ∷ done)) (values (retain (λ v. not (str_eq (thread_of v) id)) m))
  Outside-more id done m a =
      retain-All (Outside (id ∷ done)) (λ v. not (str_eq (thread_of v) id)) m
        (All-mono (Outside done) _
          (λ v h out. ground (arith, eq_iff (thread_of v) id, eq_iff id (thread_of v))) (values m)
          a)

  Outside-regroup :
      (id : String) (done ids : List String) (v : V)
      → Outside (id ∷ done) v × Outside ids v
      → Outside done v × Outside (id ∷ ids) v
  Outside-regroup id done ids v (h, k) = ground arith

turns-Outside :
    (ids : List String) (s : ScopeState) (done : List String)
    → All (Outside (λ t. t.thread_id) done) (values s.turns)
    → All
        (λ t. Outside (λ t. t.thread_id) done t × Outside (λ t. t.thread_id) ids t)
        (values (remove_thread_graphs ids s).turns)
unfolding remove_thread_graphs remove_thread_graph
turns-Outside [] s done a = All-mono _ _ (λ t h. (h, refl)) (values s.turns) a
turns-Outside (id ∷ ids) s done a =
    All-mono _ _ (Outside-regroup (λ t. t.thread_id) id done ids) _ (
      turns-Outside ids (remove_thread_graph id s) (id ∷ done)
        (Outside-more (λ t. t.thread_id) id done s.turns a))

markers-Outside :
    (ids : List String) (s : ScopeState) (done : List String)
    → All (Outside (λ m. m.thread_id) done) (values s.compaction_markers)
    → All
        (λ m. Outside (λ m. m.thread_id) done m × Outside (λ m. m.thread_id) ids m)
        (values (remove_thread_graphs ids s).compaction_markers)
unfolding remove_thread_graphs remove_thread_graph
markers-Outside [] s done a = All-mono _ _ (λ m h. (h, refl)) (values s.compaction_markers) a
markers-Outside (id ∷ ids) s done a =
    All-mono _ _ (Outside-regroup (λ m. m.thread_id) id done ids) _ (
      markers-Outside ids (remove_thread_graph id s) (id ∷ done)
        (Outside-more (λ m. m.thread_id) id done s.compaction_markers a))

threads_closed :
    (id : String) (s : ScopeState)
    → All
        (λ t.
          (joins_thread (descendant_thread_ids s id) t
            && not (has_text t.id (descendant_thread_ids s id)))
          ≡ false)
        (values s.child_threads)
unfolding descendant_thread_ids
threads_closed id s = descend-Closed (λ t. t.id) joins_thread (values s.child_threads) (id ∷ [])

abbrev pub NoThread : List String → ChildThreadEntry → Type 0
NoThread ids t = (has_text t.id ids ≡ false) × (joins_thread ids t ≡ false)

abbrev pub NoThreadTrace : List String → ScopeState → Type 0
NoThreadTrace ids s =
    All (NoThread ids) (values s.child_threads)
    × All (λ t. has_text t.thread_id ids ≡ false) (values s.turns)
    × All (λ m. has_text m.thread_id ids ≡ false) (values s.compaction_markers)

no_thread_trace :
    (id : String) (s : ScopeState)
    → NoThreadTrace (descendant_thread_ids s id) (remove_child_thread_graph id s)
unfolding remove_child_thread_graph
no_thread_trace id s =
    let ids = descendant_thread_ids s id in
    (
      subst (λ m. All (NoThread ids) (values m)) (sym (child_threads-remove_thread_graphs ids _))
          (retain-All (NoThread ids) (λ t. not (has_text t.id ids)) s.child_threads
            (All-mono _ _
              (λ t closed out. (
                not-false out,
                left_false (joins_thread ids t) (has_text t.id ids) closed (not-false out),
              ))
              (values s.child_threads) (threads_closed id s))),
      All-mono _ _ (λ t h. h.1) _ (turns-Outside ids _ [] (All-any _ (values s.turns) (λ t. refl))),
      All-mono _ _ (λ m h. h.1) _
          (markers-Outside ids _ [] (All-any _ (values s.compaction_markers) (λ m. refl))),
    )

-- The identifiers that the removal of a child thread collects are the thread's own, those of the child
-- threads whose parent is collected, and no others. After the removal, no child thread that is left
-- has one of them as its own or as its parent, and no turn and no compaction marker is of one of them.
pub remove_child_thread_graph-NoThreadTrace :
    (id : String) (s : ScopeState)
    → ((k : String) → (has_text k (descendant_thread_ids s id) ≡ true) ↔ ThreadDescends s id k)
      × NoThreadTrace (descendant_thread_ids s id) (remove_child_thread_graph id s)
remove_child_thread_graph-NoThreadTrace id s = (thread_descends s id, no_thread_trace id s)
