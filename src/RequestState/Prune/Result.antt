-- ===== src/RequestState/Prune/Result.antt =====
-- src/core/codex/src/request_state_prune_policy.rs: `prune`, `prune_expired` and `evict_one` as a whole.
use mini_sub2api.Base.{
  ℕ, suc, ◌≤◌, ◌≡◌, String, Bool, false, some, [], ◌∷◌, All, length, arith, eq_iff, Option-cases,
  inl, inr,
}
use mini_sub2api.Base.Int.{ℤ}
use mini_sub2api.Base.TextMap.{TextMap, lookup, keys, IsDistinct}
use mini_sub2api.RequestState.Types.{
  PersistedRequestState, EntryKind, maximum, scope_maximum, max_scopes,
}
use mini_sub2api.RequestState.Prune.Protect.{ProtectedStateKeys}
use mini_sub2api.RequestState.Prune.Policy.{
  scope_count, total_entries, Outcome, prune_kind, prune_ledger, expire_kind, prune_expired, prune,
  kinds, expiring_kinds, cutoff,
}
use mini_sub2api.RequestState.Prune.Counts.{Shrinks, Shrinks-trans, remove_from-Shrinks}
use mini_sub2api.RequestState.Prune.Steps.{
  Removals, Removals-append, Removals-IsDistinct, Removals-Comes,
}
use mini_sub2api.RequestState.Prune.Totals.{Removals-AtMost}
use mini_sub2api.RequestState.Prune.Invariants.{
  Removals-scope_count, HoldsAt, IsProtected, Removals-HoldsAt, AllIndexed, Removals-AllIndexed,
}
use mini_sub2api.RequestState.Prune.Ends.{ledger, Ends, Ends-map, Ends-chain, for_each-Ends}
use mini_sub2api.RequestState.Prune.Rounds.{
  ScopeWithin, TotalWithin, ScopesWithin, prune_scope-Ends, prune_total-Ends,
  prune_scope_count-Ends,
}
use mini_sub2api.RequestState.Prune.Expiry.{FreshEnough, expire_kind-Ends}

keys-lookup {κ} :
    {V : Type 0} (P : String → Type κ) (m : TextMap V) (k : String) (v : V)
    → All P (keys m)
    → lookup k m ≡ some v
    → P k
keys-lookup P [] k v a e = cc
keys-lookup P ((j, w) ∷ m) k v a e = ground (arith, keys-lookup P m k v a.1, eq_iff j k)

-- Every scope keeps to the limit of the kind, and every kind to the limits.
abbrev pub KindWithin : EntryKind → PersistedRequestState → Type 0
KindWithin kind state = (k : String) → scope_count kind (lookup k state.scopes) ≤ scope_maximum kind

abbrev pub IsWithinLimits : PersistedRequestState → Type 0
IsWithinLimits state =
    ((kind : EntryKind) → KindWithin kind state)
    × ((kind : EntryKind) → total_entries state kind ≤ maximum kind)
    × (length state.scopes ≤ max_scopes)

all_kinds : (P : EntryKind → Type 0) → All P kinds → (kind : EntryKind) → P kind
all_kinds P a EntryKind.installation_entry = a.0
all_kinds P a EntryKind.conversation_entry = a.1.0
all_kinds P a EntryKind.child_thread_entry = a.1.1.0
all_kinds P a EntryKind.turn_entry = a.1.1.1.0
all_kinds P a EntryKind.generated_item_entry = a.1.1.1.1.0
all_kinds P a EntryKind.compaction_marker_entry = a.1.1.1.1.1.0
all_kinds P a EntryKind.wire_id_entry = a.1.1.1.1.1.1.0

≤-trans : {l m n : ℕ} → l ≤ m → m ≤ n → l ≤ n
≤-trans h k = omega arith

KindWithin-mono :
    (p : ProtectedStateKeys) (kind : EntryKind) (a b : PersistedRequestState)
    → Removals p a b
    → IsDistinct a.scopes
    → KindWithin kind a
    → KindWithin kind b
KindWithin-mono p kind a b r d g k = ≤-trans (Removals-scope_count p a b r d kind k) (g k)

TotalWithin-mono :
    (p : ProtectedStateKeys) (kind : EntryKind) (a b : PersistedRequestState)
    → Removals p a b
    → IsDistinct a.scopes
    → TotalWithin p kind a
    → TotalWithin p kind b
TotalWithin-mono p kind a b r d g = ≤-trans ((Removals-AtMost p a b r).0 kind) g

module _ (p : ProtectedStateKeys) where
  prune_kind-Ends :
      (kind : EntryKind) (changed : Bool) (a : PersistedRequestState)
      → IsDistinct a.scopes
      → Ends p (KindWithin kind) changed a (prune_kind p kind changed a)
  unfolding prune_kind
  prune_kind-Ends kind changed a d =
      Ends-map p (λ b. All (λ k. ScopeWithin p kind k b) (keys a.scopes)) (KindWithin kind) changed
        a _
        (λ b r all k. elim (Option-cases (lookup k b.scopes)) [
          | inl e ↦ rw e (omega arith)
          | inr (s, e) ↦
              let (o, at_a, le) =
                Removals-Comes Shrinks (λ s kind. omega arith) Shrinks-trans remove_from-Shrinks p a
                  b r d k s e in
              keys-lookup (λ j. ScopeWithin p kind j b) a.scopes k o all at_a
        ])
        (for_each-Ends p (ScopeWithin p kind) _
          (λ k b c r d' g. ≤-trans (Removals-scope_count p b c r d' kind k) g)
          (λ k flag b d'.
            prune_scope-Ends p (suc (scope_count kind (lookup k b.scopes))) kind k flag b d'
              (omega arith))
          (keys a.scopes) changed a d)

  prune_ledger-Ends :
      (kind : EntryKind) (changed : Bool) (a : PersistedRequestState)
      → IsDistinct a.scopes
      → Ends p (TotalWithin p kind) changed a (prune_ledger p kind changed a)
  unfolding prune_ledger
  prune_ledger-Ends kind changed a d =
      prune_total-Ends p (suc (total_entries a kind)) kind changed a d (omega arith)

  prune_expired-Ends :
      (day : ℤ) (a : PersistedRequestState)
      → IsDistinct a.scopes
      → Ends p (λ b. Unit) false a (prune_expired p day a)
  unfolding prune_expired
  prune_expired-Ends day a d =
      Ends-map p (λ b. All (λ kind. Unit) expiring_kinds) (λ b. Unit) false a _ (λ b r g. tt)
        (for_each-Ends p (λ kind b. Unit) (expire_kind p (cutoff day)) (λ kind b c r d' g. tt)
          (λ kind flag b d'.
            Ends-map p (FreshEnough p (cutoff day) kind) (λ c. Unit) flag b _ (λ c r g. tt)
              (expire_kind-Ends p (cutoff day) kind flag b d'))
          expiring_kinds false a d)

  -- Pruning a ledger always ends. When it succeeds, every scope and the whole ledger keep to the limits of
  -- all kinds, and the number of scopes to its own; when it is refused, a limit is exceeded and nothing
  -- that counts towards it may be removed. All changes were removals that protection allows, and if the
  -- flag says that nothing was changed, nothing was.
  pub prune-Ends :
      (day : ℤ) (a : PersistedRequestState)
      → IsDistinct a.scopes
      → Ends p IsWithinLimits false a (prune p day a)
  unfolding prune
  prune-Ends day a d =
      Ends-chain p (λ b. Unit) IsWithinLimits false a _ _ (prune_expired-Ends day a d)
        (λ flag1 b1 r1 g1.
          let d1 = Removals-IsDistinct r1 d in
          Ends-chain p (λ b. All (λ kind. KindWithin kind b) kinds) IsWithinLimits flag1 b1 _ _
            (for_each-Ends p KindWithin (prune_kind p) (KindWithin-mono p) prune_kind-Ends kinds
              flag1 b1 d1)
            (λ flag2 b2 r2 g2.
              let d2 = Removals-IsDistinct r2 d1 in
              Ends-chain p (λ b. All (λ kind. TotalWithin p kind b) kinds) IsWithinLimits flag2 b2 _
                _
                (for_each-Ends p (TotalWithin p) (prune_ledger p) (TotalWithin-mono p)
                  prune_ledger-Ends kinds flag2 b2 d2)
                (λ flag3 b3 r3 g3.
                  let d3 = Removals-IsDistinct r3 d2 in
                  Ends-map p (ScopesWithin p) IsWithinLimits flag3 b3 _
                    (λ b r g.
                      let r' = Removals-append r3 r in
                      (
                        λ kind.
                            KindWithin-mono p kind b2 b r' d2
                              (all_kinds (λ x. KindWithin x b2) g2 kind),
                        λ kind.
                            TotalWithin-mono p kind b3 b r d3
                              (all_kinds (λ x. TotalWithin p x b3) g3 kind),
                        g,
                      ))
                    (prune_scope_count-Ends p (suc (length b3.scopes)) flag3 b3 d3 (omega arith)))))

  -- Pruning returns, and an entry that an edit protects with its scope is still there afterwards, whether
  -- pruning succeeds or is refused. It holds of installations, conversations, child threads, turns and
  -- generated items.
  pub prune-HoldsAt :
      (day : ℤ) (a : PersistedRequestState) (kind : EntryKind) (scope_key key : String)
      → IsDistinct a.scopes
      → IsProtected p kind scope_key key
      → HoldsAt a kind scope_key key
      → (out : Outcome) × (prune p day a ≡ some out) × HoldsAt (ledger out) kind scope_key key
  prune-HoldsAt day a kind sk k d protected held =
      let (out, e, r, fits) = prune-Ends day a d in
      (out, e, Removals-HoldsAt p kind sk k protected a (ledger out) r held)

  -- Pruning returns, and where the wire entries of every scope and the scope's reverse index were inverse
  -- to each other, they still are, whether pruning succeeds or is refused.
  pub prune-AllIndexed :
      (day : ℤ) (a : PersistedRequestState)
      → IsDistinct a.scopes
      → AllIndexed a
      → (out : Outcome) × (prune p day a ≡ some out) × AllIndexed (ledger out)
  prune-AllIndexed day a d indexed =
      let (out, e, r, fits) = prune-Ends day a d in
      (out, e, Removals-AllIndexed p a (ledger out) r d indexed)
