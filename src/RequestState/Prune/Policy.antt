-- ===== src/RequestState/Prune/Policy.antt =====
-- src/core/codex/src/request_state_prune_policy.rs and the selection of entries in
-- src/core/codex/src/request_state_prune.rs: `prune`, `evict_one` and `prune_expired`.
use mini_sub2api.Base.{
  ℕ, zero, suc, ◌+◌, ◌-◌, ◌^◌, leb, min, String, Bool, true, false, not, Option, none, some, List,
  [], ◌∷◌, ◌++◌, map, filter, length, ltb, str_eq, if◌then◌else◌,
}
use mini_sub2api.Base.Int.{ℤ, pos, negsuc}
use mini_sub2api.Base.Order.{text_ltb, int_ltb}
use mini_sub2api.Base.TextMap.{TextMap, has_text, lookup, remove, update, keys}
use mini_sub2api.RequestState.Types.{
  ScopeState, PersistedRequestState, EntryKind, maximum, scope_maximum, max_scopes,
  detail_retention_days,
}
use mini_sub2api.RequestState.Prune.{entry_count, entry_keys, remove_from}
use mini_sub2api.RequestState.Prune.Protect.{ProtectedStateKeys, removable}

-- The day of the entry under a key, which is one of the map.
abbrev pub day_of {ℓ} : {V : Type ℓ} → (V → ℤ) → Option V → ℤ
day_of day none = pos 0
day_of day (some v) = day v

unfoldable pub entry_day : EntryKind → ScopeState → String → ℤ
entry_day EntryKind.installation_entry s key =
    day_of (λ e. e.last_seen_day) (lookup key s.scoped_installations)
entry_day EntryKind.conversation_entry s key =
    day_of (λ e. e.last_seen_day) (lookup key s.conversations)
entry_day EntryKind.child_thread_entry s key =
    day_of (λ e. e.last_seen_day) (lookup key s.child_threads)
entry_day EntryKind.turn_entry s key = day_of (λ e. e.last_seen_day) (lookup key s.turns)
entry_day EntryKind.generated_item_entry s key =
    day_of (λ e. e.last_seen_day) (lookup key s.generated_items)
entry_day EntryKind.compaction_marker_entry s key =
    day_of (λ e. e.last_seen_day) (lookup key s.compaction_markers)
entry_day EntryKind.wire_id_entry s key = day_of (λ e. e.last_seen_day) (lookup key s.wire_ids)

-- `self.entry_day(kind, scope_key, key)`, which finds the scope first. It is one of the ledger.
unfoldable pub day_in : EntryKind → PersistedRequestState → String × String → ℤ
day_in kind state entry = day_of (λ s. entry_day kind s entry.1) (lookup entry.0 state.scopes)

-- The triple of which `min` is taken.
pub record Candidate : Type 0 where
  pub day : ℤ
  pub scope_key : String
  pub key : String

-- The order of the triples that `min` compares.
unfoldable pub earlier : Candidate → Candidate → Bool
earlier a b =
    if int_ltb a.day b.day
    then true
    else if int_ltb b.day a.day
    then false
    else if text_ltb a.scope_key b.scope_key
    then true
    else if text_ltb b.scope_key a.scope_key
    then false
    else text_ltb a.key b.key

-- `Iterator::min`: of equal elements the first.
unfoldable pub earliest : List Candidate → Option Candidate
earliest [] = none
earliest (c ∷ cs) = elim (earliest cs) [
  | none ↦ some c
  | some d ↦ if earlier d c then some d else some c
]

-- `.map(|(key, _)| key.clone())` on the chosen scope.
abbrev pub key_of : Option Candidate → Option String
key_of none = none
key_of (some c) = some c.key

-- `only_scope.is_none_or(|only| *scope_key == only)`
abbrev pub selects : Option String → String → Bool
selects none scope_key = true
selects (some only) scope_key = str_eq scope_key only

-- How many entries of the kind a scope has. It bounds the rounds of the loop over the scope.
abbrev pub scope_count : EntryKind → Option ScopeState → ℕ
scope_count kind none = 0
scope_count kind (some s) = entry_count s kind

abbrev pub total_in : EntryKind → TextMap ScopeState → ℕ
total_in kind [] = 0
total_in kind ((k, s) ∷ scopes) = entry_count s kind + total_in kind scopes

unfoldable pub total_entries : PersistedRequestState → EntryKind → ℕ
total_entries state kind = total_in kind state.scopes

unfoldable pub remove_entry :
    EntryKind → String → String → PersistedRequestState → PersistedRequestState
remove_entry kind scope_key key state = record state {
  scopes = update scope_key (remove_from kind key) state.scopes;
}

-- How `prune` ends: with `Ok` and whether it changed the ledger, or by `bail!`. The ledger is the
-- caller's either way.
pub data Outcome : Type 0 where
  finished : Bool → PersistedRequestState → Outcome
  refused : PersistedRequestState → Outcome

abbrev pub after : Option Outcome → (Bool → PersistedRequestState → Option Outcome) → Option Outcome
after none k = none
after (some (Outcome.refused state)) k = some (Outcome.refused state)
after (some (Outcome.finished changed state)) k = k changed state

-- A `for` loop over keys or kinds. An error in its body ends the function.
abbrev pub for_each :
    {X : Type 0}
    → (X → Bool → PersistedRequestState → Option Outcome)
    → List X
    → Bool
    → PersistedRequestState
    → Option Outcome
for_each f [] changed state = some (Outcome.finished changed state)
for_each f (x ∷ xs) changed state =
    after (f x changed state) (λ changed' state'. for_each f xs changed' state')

-- The first list of kinds of `prune`, and the second.
abbrev pub kinds : List EntryKind
kinds =
    EntryKind.installation_entry ∷ EntryKind.conversation_entry ∷ EntryKind.child_thread_entry
    ∷ EntryKind.turn_entry ∷ EntryKind.generated_item_entry ∷ EntryKind.compaction_marker_entry
    ∷ EntryKind.wire_id_entry ∷ []

unfoldable pub remove_scope : String → PersistedRequestState → PersistedRequestState
remove_scope key state = record state { scopes = remove key state.scopes }

-- `day.saturating_sub(DETAIL_RETENTION_DAYS)` on 64 bits.
unfoldable pub cutoff : ℤ → ℤ
cutoff (pos n) =
    if leb detail_retention_days n
    then pos (n - detail_retention_days)
    else negsuc (detail_retention_days - n - 1)
cutoff (negsuc n) = negsuc (min (n + detail_retention_days) (2 ^ 63 - 1))

abbrev pub expiring_kinds : List EntryKind
expiring_kinds =
    EntryKind.wire_id_entry ∷ EntryKind.generated_item_entry ∷ EntryKind.compaction_marker_entry
    ∷ EntryKind.turn_entry ∷ []

abbrev pub evicting_kinds : List EntryKind
evicting_kinds =
    EntryKind.wire_id_entry ∷ EntryKind.generated_item_entry ∷ EntryKind.compaction_marker_entry
    ∷ EntryKind.turn_entry ∷ EntryKind.child_thread_entry ∷ EntryKind.conversation_entry
    ∷ EntryKind.installation_entry ∷ []

module _ (protected : ProtectedStateKeys) where
  abbrev pub scope_candidates : EntryKind → String → ScopeState → List Candidate
  scope_candidates kind scope_key s =
      map (λ key. record { day = entry_day kind s key; scope_key = scope_key; key = key })
        (filter (λ key. removable s scope_key protected kind key) (entry_keys s kind))

  unfoldable pub candidates : EntryKind → Option String → TextMap ScopeState → List Candidate
  candidates kind only [] = []
  candidates kind only ((scope_key, s) ∷ scopes) =
      if selects only scope_key
      then scope_candidates kind scope_key s ++ candidates kind only scopes
      else candidates kind only scopes

  -- The iterator of `oldest_entry` up to `min`.
  unfoldable pub oldest_candidate :
      EntryKind → Option String → PersistedRequestState → Option Candidate
  unfolding candidates earliest
  oldest_candidate kind only state = earliest (candidates kind only state.scopes)

  unfoldable pub oldest_entry :
      EntryKind → Option String → PersistedRequestState → Option (String × String)
  unfolding oldest_candidate
  oldest_entry kind only state = elim (oldest_candidate kind only state) [
    | none ↦ none
    | some c ↦ some (c.scope_key, c.key)
  ]

  -- The `while` loop for one scope.
  unfoldable pub prune_scope :
      ℕ → EntryKind → String → Bool → PersistedRequestState → Option Outcome
  prune_scope zero kind scope_key changed state = none
  prune_scope (suc fuel) kind scope_key changed state =
      elim (ltb (scope_maximum kind) (scope_count kind (lookup scope_key state.scopes))) [
        | false ↦ some (Outcome.finished changed state)
        | true ↦ elim (oldest_entry kind (some scope_key) state) [
          | none ↦ some (Outcome.refused state)
          | some e ↦ prune_scope fuel kind scope_key true (remove_entry kind scope_key e.1 state)
        ]
      ]

  unfoldable pub prune_kind : EntryKind → Bool → PersistedRequestState → Option Outcome
  unfolding prune_scope
  prune_kind kind changed state =
      for_each
        (λ k changed' state'.
          prune_scope (suc (scope_count kind (lookup k state'.scopes))) kind k changed' state')
        (keys state.scopes) changed state

  -- The `while` loop for the whole ledger.
  unfoldable pub prune_total : ℕ → EntryKind → Bool → PersistedRequestState → Option Outcome
  prune_total zero kind changed state = none
  prune_total (suc fuel) kind changed state = elim (ltb (maximum kind) (total_entries state kind)) [
    | false ↦ some (Outcome.finished changed state)
    | true ↦ elim (oldest_entry kind none state) [
      | none ↦ some (Outcome.refused state)
      | some e ↦ prune_total fuel kind true (remove_entry kind e.0 e.1 state)
    ]
  ]

  unfoldable pub prune_ledger : EntryKind → Bool → PersistedRequestState → Option Outcome
  unfolding prune_total
  prune_ledger kind changed state = prune_total (suc (total_entries state kind)) kind changed state

  -- The scope that was seen first of those that are not protected, by the key it is under.
  unfoldable pub oldest_scope : PersistedRequestState → Option String
  unfolding earliest
  oldest_scope state = key_of (
      earliest (
        map (λ e. record { day = e.1.last_seen_day; scope_key = e.0; key = e.0 })
          (filter (λ e. not (has_text e.0 protected.scopes)) state.scopes)))

  unfoldable pub prune_scope_count : ℕ → Bool → PersistedRequestState → Option Outcome
  prune_scope_count zero changed state = none
  prune_scope_count (suc fuel) changed state = elim (ltb max_scopes (length state.scopes)) [
    | false ↦ some (Outcome.finished changed state)
    | true ↦ elim (oldest_scope state) [
      | none ↦ some (Outcome.refused state)
      | some key ↦ prune_scope_count fuel true (remove_scope key state)
    ]
  ]

  -- The `loop` of `prune_expired` for one kind. An entry that was never seen does not expire.
  unfoldable pub expire : ℕ → ℤ → EntryKind → Bool → PersistedRequestState → Option Outcome
  expire zero limit kind changed state = none
  expire (suc fuel) limit kind changed state = elim (oldest_entry kind none state) [
    | none ↦ some (Outcome.finished changed state)
    | some e ↦ elim (int_ltb (day_in kind state e) limit) [
      | false ↦ some (Outcome.finished changed state)
      | true ↦ expire fuel limit kind true (remove_entry kind e.0 e.1 state)
    ]
  ]

  unfoldable pub expire_kind : ℤ → EntryKind → Bool → PersistedRequestState → Option Outcome
  unfolding expire
  expire_kind limit kind changed state =
      expire (suc (total_entries state kind)) limit kind changed state

  unfoldable pub prune_expired : ℤ → PersistedRequestState → Option Outcome
  unfolding expire_kind
  prune_expired day state = for_each (expire_kind (cutoff day)) expiring_kinds false state

  -- Each loop has a round more than there are entries or scopes to remove.
  unfoldable pub prune : ℤ → PersistedRequestState → Option Outcome
  unfolding prune_expired prune_kind prune_ledger prune_scope_count
  prune day state = after (prune_expired day state) (λ changed1 state1.
      after (for_each prune_kind kinds changed1 state1) (λ changed2 state2.
        after (for_each prune_ledger kinds changed2 state2)
          (λ changed3 state3. prune_scope_count (suc (length state3.scopes)) changed3 state3)))

  -- The `for` loop of `evict_one`, and the scope that it falls back to.
  unfoldable pub evict_first : List EntryKind → PersistedRequestState → Bool × PersistedRequestState
  evict_first [] state = elim (oldest_scope state) [
    | none ↦ (false, state)
    | some key ↦ (true, remove_scope key state)
  ]
  evict_first (kind ∷ rest) state = elim (oldest_entry kind none state) [
    | none ↦ evict_first rest state
    | some e ↦ (true, remove_entry kind e.0 e.1 state)
  ]

  unfoldable pub evict_one : PersistedRequestState → Bool × PersistedRequestState
  unfolding evict_first
  evict_one state = evict_first evicting_kinds state
