-- ===== src/RequestState/Prune/Reach.antt =====
-- src/core/codex/src/request_state_prune.rs: what `descendant_thread_ids` and `descendant_turn_ids` are.
use mini_sub2api.Base.{
  ℕ, zero, suc, ◌+◌, ◌≡◌, refl, sym, String, Bool, true, false, not, ◌&&◌, ◌||◌, ◌⊎◌, ◌↔◌, Option,
  some, none, List, [], ◌∷◌, ◌++◌, length, eq_iff, str_eq, arith, subst, Bool-cases, inl, inr, All,
  In,
}
use mini_sub2api.Base.TextMap.{has_text, values}
use mini_sub2api.RequestState.Types.{ScopeState, ChildThreadEntry, TurnEntry}
use mini_sub2api.RequestState.Prune.{
  among, joins_turn, joins_thread, descendant_turn_ids, descendant_thread_ids,
}
use mini_sub2api.RequestState.Prune.Descend.{
  round, descend_on, descend, descend-Closed, descend-Includes,
}

has_text-split :
    (k j : String) (ids : List String)
    → has_text k (ids ++ j ∷ []) ≡ true
    → (has_text k ids ≡ true) ⊎ (j ≡ k)
has_text-split k j [] h = inr ((eq_iff j k).0 (ground arith))
has_text-split k j (i ∷ ids) h = elim (Bool-cases (str_eq i k)) [
  | inl y ↦ inl (ground arith)
  | inr n ↦ elim (has_text-split k j ids (ground arith)) [
    | inl there ↦ inl (ground arith)
    | inr same ↦ inr same
  ]
]

All-with {κ} : {A : Type 0} (P : A → Type κ) (xs : List A) → ((x : A) → In x xs → P x) → All P xs
All-with P [] h = tt
All-with P (x ∷ xs) h = (h x (inl refl), All-with P xs (λ y m. h y (inr m)))

All-at {κ} : {A : Type 0} (P : A → Type κ) (xs : List A) (x : A) → All P xs → In x xs → P x
All-at P [] x a m = elim m [ ]
All-at P (y ∷ xs) x a (inl e) = subst P (sym e) a.0
All-at P (y ∷ xs) x a (inr m) = All-at P xs x a.1 m

-- What holds of the start, and of each node that joins identifiers of which it holds, holds of all
-- identifiers that the loop collects.
module _ {A : Type 0} (id : A → String) (joins : List String → A → Bool) (P : String → Type 0) where
  abbrev HoldsOf : List String → Type 0
  HoldsOf ids = (k : String) → has_text k ids ≡ true → P k

  abbrev Step : A → Type 0
  Step n = (ids : List String) → HoldsOf ids → joins ids n ≡ true → P (id n)

  HoldsOf-snoc : (ids : List String) (j : String) → HoldsOf ids → P j → HoldsOf (ids ++ j ∷ [])
  HoldsOf-snoc ids j h p k m = elim (has_text-split k j ids m) [
    | inl there ↦ h k there
    | inr same ↦ subst P same p
  ]

  round-HoldsOf :
      (ns : List A) (ids : List String)
      → All Step ns
      → HoldsOf ids
      → HoldsOf (round id joins ns ids).0
  unfolding round
  round-HoldsOf [] ids steps h = h
  round-HoldsOf (n ∷ ns) ids steps h =
      elim (Bool-cases (joins ids n && not (has_text (id n) ids))) [
        | inl new ↦
            let joined : joins ids n ≡ true = ground arith in
            rw new (
              round-HoldsOf ns (ids ++ id n ∷ []) steps.1
                (HoldsOf-snoc ids (id n) h (steps.0 ids h joined)))
        | inr old ↦ rw old (round-HoldsOf ns ids steps.1 h)
      ]

  descend_on-HoldsOf :
      (fuel : ℕ) (ns : List A) (ids : List String)
      → All Step ns
      → HoldsOf ids
      → HoldsOf (descend_on id joins fuel ns ids)
  unfolding descend_on
  descend_on-HoldsOf zero ns ids steps h = h
  descend_on-HoldsOf (suc fuel) ns ids steps h = elim (Bool-cases (round id joins ns ids).1) [
    | inl more ↦
        rw more (
          descend_on-HoldsOf fuel ns (round id joins ns ids).0 steps (round-HoldsOf ns ids steps h))
    | inr done ↦ rw done (round-HoldsOf ns ids steps h)
  ]

  descend-HoldsOf :
      (ns : List A) (ids : List String)
      → All Step ns
      → HoldsOf ids
      → HoldsOf (descend id joins ns ids)
  unfolding descend
  descend-HoldsOf ns ids = descend_on-HoldsOf (length ns + 1) ns ids

-- The turns that descend from `root`: itself, those that name it as their root, and the children of
-- those that descend.
pub data TurnDescends (s : ScopeState) (root : String) : String → Type 0 where
  itself : TurnDescends s root root
  rooted :
      (t : TurnEntry) → In t (values s.turns) → t.root_turn_id ≡ root → TurnDescends s root t.id
  child :
      (t : TurnEntry) (parent : String)
      → In t (values s.turns)
      → t.parent_turn_id ≡ some parent
      → TurnDescends s root parent
      → TurnDescends s root t.id

-- The child threads that descend from `root`: itself, and the children of those that descend.
pub data ThreadDescends (s : ScopeState) (root : String) : String → Type 0 where
  itself : ThreadDescends s root root
  child :
      (t : ChildThreadEntry) (parent : String)
      → In t (values s.child_threads)
      → t.parent_thread_id ≡ some parent
      → ThreadDescends s root parent
      → ThreadDescends s root t.id

only_root : (root k : String) → has_text k (root ∷ []) ≡ true → root ≡ k
only_root root k h = (eq_iff root k).0 (ground arith)

among_cases :
    (ids : List String) (o : Option String)
    → among ids o ≡ true
    → (parent : String) × (o ≡ some parent) × (has_text parent ids ≡ true)
among_cases ids none h = cc
among_cases ids (some parent) h = (parent, refl, h)

among_parent :
    (ids : List String) (o : Option String) (parent : String)
    → o ≡ some parent
    → has_text parent ids ≡ true
    → among ids o ≡ true
among_parent ids o parent e h = rw e h

or-cases : (a b : Bool) → (a || b) ≡ true → (a ≡ true) ⊎ (b ≡ true)
or-cases a b h = ground arith

and_not : (a b : Bool) → (a && not b) ≡ false → a ≡ true → b ≡ true
and_not a b h k = ground arith

turn_sound :
    (s : ScopeState) (root k : String)
    → has_text k (descendant_turn_ids s root) ≡ true
    → TurnDescends s root k
unfolding descendant_turn_ids joins_turn
turn_sound s root =
    descend-HoldsOf (λ t. t.id) (joins_turn root) (TurnDescends s root) (values s.turns) (root ∷ [])
      (All-with _ (values s.turns) (λ t m ids h joined.
        elim (or-cases (str_eq t.root_turn_id root) (among ids t.parent_turn_id) joined) [
          | inl y ↦ TurnDescends.rooted t m ((eq_iff t.root_turn_id root).0 y)
          | inr y ↦
              let (parent, e, there) = among_cases ids t.parent_turn_id y in
              TurnDescends.child t parent m e (h parent there)
        ]))
      (λ k h. subst (TurnDescends s root) (only_root root k h) TurnDescends.itself)

turn-joined :
    (s : ScopeState) (root : String) (t : TurnEntry)
    → In t (values s.turns)
    → joins_turn root (descendant_turn_ids s root) t ≡ true
    → has_text t.id (descendant_turn_ids s root) ≡ true
unfolding descendant_turn_ids
turn-joined s root t m joined =
    and_not _ _
      (All-at _ (values s.turns) t
        (descend-Closed (λ t. t.id) (joins_turn root) (values s.turns) (root ∷ [])) m)
      joined

joins_rooted :
    (root : String) (ids : List String) (t : TurnEntry)
    → t.root_turn_id ≡ root
    → joins_turn root ids t ≡ true
unfolding joins_turn
joins_rooted root ids t e = ground (arith, eq_iff t.root_turn_id root)

joins_child :
    (root : String) (ids : List String) (t : TurnEntry) (parent : String)
    → t.parent_turn_id ≡ some parent
    → has_text parent ids ≡ true
    → joins_turn root ids t ≡ true
unfolding joins_turn
joins_child root ids t parent e h = ground (arith, among_parent ids t.parent_turn_id parent e h)

turn_complete :
    (s : ScopeState) (root k : String)
    → TurnDescends s root k
    → has_text k (descendant_turn_ids s root) ≡ true
unfolding descendant_turn_ids
turn_complete s root _ TurnDescends.itself =
    descend-Includes (λ t. t.id) (joins_turn root) (values s.turns) (root ∷ []) root
      (ground (arith, eq_iff root root))
turn_complete s root _ (TurnDescends.rooted t m e) =
    turn-joined s root t m (joins_rooted root (descendant_turn_ids s root) t e)
turn_complete s root _ (TurnDescends.child t parent m e d) =
    turn-joined s root t m
      (joins_child root (descendant_turn_ids s root) t parent e (turn_complete s root parent d))

-- `descendant_turn_ids` collects the turns that descend, and no others.
pub turn_descends :
    (s : ScopeState) (root k : String)
    → (has_text k (descendant_turn_ids s root) ≡ true) ↔ TurnDescends s root k
turn_descends s root k = (turn_sound s root k, turn_complete s root k)

thread_sound :
    (s : ScopeState) (root k : String)
    → has_text k (descendant_thread_ids s root) ≡ true
    → ThreadDescends s root k
unfolding descendant_thread_ids joins_thread
thread_sound s root =
    descend-HoldsOf (λ t. t.id) joins_thread (ThreadDescends s root) (values s.child_threads)
      (root ∷ [])
      (All-with _ (values s.child_threads) (λ t m ids h joined.
        let (parent, e, there) = among_cases ids t.parent_thread_id joined in
        ThreadDescends.child t parent m e (h parent there)))
      (λ k h. subst (ThreadDescends s root) (only_root root k h) ThreadDescends.itself)

thread_complete :
    (s : ScopeState) (root k : String)
    → ThreadDescends s root k
    → has_text k (descendant_thread_ids s root) ≡ true
unfolding descendant_thread_ids joins_thread
thread_complete s root _ ThreadDescends.itself =
    descend-Includes (λ t. t.id) joins_thread (values s.child_threads) (root ∷ []) root
      (ground (arith, eq_iff root root))
thread_complete s root _ (ThreadDescends.child t parent m e d) =
    and_not _ _
      (All-at _ (values s.child_threads) t
        (descend-Closed (λ t. t.id) joins_thread (values s.child_threads) (root ∷ [])) m)
      (among_parent (descendant_thread_ids s root) t.parent_thread_id parent e
        (thread_complete s root parent d))

-- `descendant_thread_ids` collects the threads that descend, and no others.
pub thread_descends :
    (s : ScopeState) (root k : String)
    → (has_text k (descendant_thread_ids s root) ≡ true) ↔ ThreadDescends s root k
thread_descends s root k = (thread_sound s root k, thread_complete s root k)
