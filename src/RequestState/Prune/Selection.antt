-- ===== src/RequestState/Prune/Selection.antt =====
-- src/core/codex/src/request_state_prune.rs: the candidates of `oldest_entry`.
use mini_sub2api.Base.{
  ◌≡◌, refl, sym, subst, String, Bool, true, false, Option, some, List, [], ◌∷◌, ◌++◌, map, filter,
  arith, str_eq, eq_iff, All, All-mono, All-append, All-parts, filter_yes, filter_no, Bool-cases,
  inl, inr,
}
use mathlib.Core.Option.{some-injective}
use mini_sub2api.Base.TextMap.{TextMap, has_text, lookup, contains_key, keys, IsDistinct}
use mini_sub2api.RequestState.Types.{ScopeState, EntryKind}
use mini_sub2api.RequestState.Prune.{holds, entry_keys}
use mini_sub2api.RequestState.Prune.Protect.{ProtectedStateKeys, removable}
use mini_sub2api.RequestState.Prune.Policy.{
  entry_day, Candidate, selects, scope_candidates, candidates,
}

-- The entries of a map are found in it under their keys, where no key is there twice.
pub found_in {ℓ} :
    {V : Type ℓ} (m : TextMap V) → IsDistinct m → All (λ e. lookup e.0 m ≡ some e.1) m
found_in [] d = tt
found_in ((k, v) ∷ m) d = (
  ground (arith, eq_iff k k),
  All-mono (λ e. lookup e.0 m ≡ some e.1) (λ e. lookup e.0 ((k, v) ∷ m) ≡ some e.1)
      (λ e h. ground (arith, eq_iff k e.0)) m (found_in m d.1),
)

pub keys-All {ℓ} : {V : Type ℓ} (m : TextMap V) → All (λ k. contains_key k m ≡ true) (keys m)
keys-All [] = tt
keys-All ((k, v) ∷ m) = (
  ground (arith, eq_iff k k),
  All-mono (λ j. contains_key j m ≡ true) (λ j. contains_key j ((k, v) ∷ m) ≡ true)
      (λ j h. ground (arith, eq_iff k j)) (keys m) (keys-All m),
)

entry_keys-All :
    (s : ScopeState) (kind : EntryKind) → All (λ k. holds s kind k ≡ true) (entry_keys s kind)
unfolding entry_keys holds
entry_keys-All s EntryKind.installation_entry = keys-All s.scoped_installations
entry_keys-All s EntryKind.conversation_entry = keys-All s.conversations
entry_keys-All s EntryKind.child_thread_entry = keys-All s.child_threads
entry_keys-All s EntryKind.turn_entry = keys-All s.turns
entry_keys-All s EntryKind.generated_item_entry = keys-All s.generated_items
entry_keys-All s EntryKind.compaction_marker_entry = keys-All s.compaction_markers
entry_keys-All s EntryKind.wire_id_entry = keys-All s.wire_ids

held-keys {ℓ} :
    {V : Type ℓ} (k : String) (m : TextMap V) → contains_key k m ≡ true → has_text k (keys m) ≡ true
held-keys k [] h = cc
held-keys k ((j, v) ∷ m) h = ground (arith, held-keys k m)

holds-entry_keys :
    (s : ScopeState) (kind : EntryKind) (k : String)
    → holds s kind k ≡ true
    → has_text k (entry_keys s kind) ≡ true
unfolding entry_keys holds
holds-entry_keys s EntryKind.installation_entry k = held-keys k s.scoped_installations
holds-entry_keys s EntryKind.conversation_entry k = held-keys k s.conversations
holds-entry_keys s EntryKind.child_thread_entry k = held-keys k s.child_threads
holds-entry_keys s EntryKind.turn_entry k = held-keys k s.turns
holds-entry_keys s EntryKind.generated_item_entry k = held-keys k s.generated_items
holds-entry_keys s EntryKind.compaction_marker_entry k = held-keys k s.compaction_markers
holds-entry_keys s EntryKind.wire_id_entry k = held-keys k s.wire_ids

-- What holds of the images of a list's elements that pass a test holds of that of each such text.
image-All {κ} :
    (Q : Candidate → Type κ) (f : String → Candidate) (test : String → Bool) (ks : List String)
    (k : String)
    → All Q (map f (filter test ks))
    → has_text k ks ≡ true
    → test k ≡ true
    → Q (f k)
image-All Q f test [] k a h y = cc
image-All Q f test (j ∷ ks) k a h y = elim (Bool-cases (test j)) [
  | inl t ↦
      let both = subst (λ xs. All Q (map f xs)) (filter_yes test j ks t) a in
      elim (Bool-cases (str_eq j k)) [
        | inl e ↦ subst (λ x. Q (f x)) ((eq_iff j k).0 e) both.0
        | inr n ↦ image-All Q f test ks k both.1 (ground arith) y
      ]
  | inr t ↦
      let rest = subst (λ xs. All Q (map f xs)) (filter_no test j ks t) a in
      image-All Q f test ks k rest (ground (arith, eq_iff j k)) y
]

All-image {κ} :
    (Q : Candidate → Type κ) (f : String → Candidate) (test : String → Bool) (ks : List String)
    → All (λ k. test k ≡ true → Q (f k)) ks
    → All Q (map f (filter test ks))
All-image Q f test [] a = tt
All-image Q f test (j ∷ ks) a = elim (Bool-cases (test j)) [
  | inl t ↦
      subst (λ xs. All Q (map f xs)) (sym (filter_yes test j ks t))
        (a.0 t, All-image Q f test ks a.1)
  | inr t ↦ subst (λ xs. All Q (map f xs)) (sym (filter_no test j ks t)) (All-image Q f test ks a.1)
]

module _ (p : ProtectedStateKeys) (kind : EntryKind) where
  -- The candidate names an entry of a scope that may be removed, and its day.
  abbrev pub IsCandidate : TextMap ScopeState → Candidate → Type 0
  IsCandidate scopes c =
      (s : ScopeState) × (lookup c.scope_key scopes ≡ some s)
      × (holds s kind c.key ≡ true)
      × (removable s c.scope_key p kind c.key ≡ true)
      × (c.day ≡ entry_day kind s c.key)

  abbrev pub candidate_of : String → ScopeState → String → Candidate
  candidate_of scope_key s key = record {
    day = entry_day kind s key;
    scope_key = scope_key;
    key = key;
  }

  pub candidates-All :
      (only : Option String) (all_scopes scopes : TextMap ScopeState)
      → All (λ e. lookup e.0 all_scopes ≡ some e.1) scopes
      → All
          (λ c. IsCandidate all_scopes c × (selects only c.scope_key ≡ true))
          (candidates p kind only scopes)
  unfolding candidates
  candidates-All only all_scopes [] h = tt
  candidates-All only all_scopes ((k, s) ∷ scopes) h = elim (Bool-cases (selects only k)) [
    | inl y ↦
        rw (y, candidates)
          (All-append _ (scope_candidates p kind k s) (candidates p kind only scopes)
            (All-image _ (candidate_of k s) (λ key. removable s k p kind key) (entry_keys s kind)
              (All-mono (λ key. holds s kind key ≡ true) _
                (λ key held free. ((s, h.0, held, free, refl), y)) (entry_keys s kind)
                (entry_keys-All s kind)))
            (candidates-All only all_scopes scopes h.1))
    | inr n ↦ rw (n, candidates) (candidates-All only all_scopes scopes h.1)
  ]

  candidates_selected :
      (only : Option String) (k : String) (s : ScopeState) (scopes : TextMap ScopeState)
      → selects only k ≡ true
      → candidates p kind only ((k, s) ∷ scopes)
        ≡ scope_candidates p kind k s ++ candidates p kind only scopes
  unfolding candidates
  candidates_selected only k s scopes y = rw (y, candidates) refl

  candidates_skipped :
      (only : Option String) (k : String) (s : ScopeState) (scopes : TextMap ScopeState)
      → selects only k ≡ false
      → candidates p kind only ((k, s) ∷ scopes) ≡ candidates p kind only scopes
  unfolding candidates
  candidates_skipped only k s scopes n = rw (n, candidates) refl

  -- What holds of all candidates holds of each entry that may be removed.
  pub All-candidates {κ} :
      (Q : Candidate → Type κ) (only : Option String) (scopes : TextMap ScopeState)
      → All Q (candidates p kind only scopes)
      → (k : String) (s : ScopeState) (key : String) → lookup k scopes ≡ some s
      → selects only k ≡ true
      → holds s kind key ≡ true
      → removable s k p kind key ≡ true
      → Q (candidate_of k s key)
  unfolding candidates
  All-candidates Q only [] a k s key e y held free = cc
  All-candidates Q only ((j, r) ∷ scopes) a k s key e y held free =
      elim (Bool-cases (selects only j)) [
        | inl yj ↦
            let (here, rest) =
              All-parts Q (scope_candidates p kind j r) (candidates p kind only scopes)
                (subst (All Q) (candidates_selected only j r scopes yj) a) in
            elim (Bool-cases (str_eq j k)) [
              | inl same ↦
                  let q : j ≡ k = (eq_iff j k).0 same in
                  let q' : r ≡ s = some-injective r s (ground arith) in
                  let here' = subst (λ i. All Q (scope_candidates p kind i r)) q here in
                  image-All Q (candidate_of k s) (λ key. removable s k p kind key)
                    (entry_keys s kind) key
                    (subst (λ x. All Q (scope_candidates p kind k x)) q' here')
                    (holds-entry_keys s kind key held) free
              | inr n ↦ All-candidates Q only scopes rest k s key (ground arith) y held free
            ]
        | inr nj ↦
            All-candidates Q only scopes (subst (All Q) (candidates_skipped only j r scopes nj) a) k
              s key (ground (arith, eq_iff j k)) y held free
      ]
