-- ===== src/RequestState/Prune/Expiry.antt =====
-- src/core/codex/src/request_state_prune_policy.rs: the loop of `prune_expired`.
use mini_sub2api.Base.{
  ℕ, zero, suc, ◌<◌, ◌≡◌, ◌⊎◌, refl, sym, ◌∙◌, subst, String, Bool, true, false, Option, some, none,
  arith, Option-cases, Bool-cases, inl, inr,
}
use mini_sub2api.Base.Int.{ℤ}
use mini_sub2api.Base.Order.{int_ltb}
use mini_sub2api.Base.TextMap.{lookup, IsDistinct}
use mini_sub2api.RequestState.Types.{ScopeState, PersistedRequestState, EntryKind}
use mini_sub2api.RequestState.Prune.{holds}
use mini_sub2api.RequestState.Prune.Protect.{ProtectedStateKeys, removable}
use mini_sub2api.RequestState.Prune.Policy.{
  entry_day, day_in, total_entries, oldest_entry, remove_entry, Outcome, expire, expire_kind,
}
use mini_sub2api.RequestState.Prune.Earliest.{int_ltb_trans}
use mini_sub2api.RequestState.Prune.Oldest.{oldest_entry-some, oldest_entry-none}
use mini_sub2api.RequestState.Prune.Steps.{Removes, Removals, Removals-append}
use mini_sub2api.RequestState.Prune.Totals.{total-remove_entry}
use mini_sub2api.RequestState.Prune.Rounds.{IsDistinct-after}
use mini_sub2api.RequestState.Prune.Ends.{Ends}

module _ (p : ProtectedStateKeys) where
  -- No entry of the kind that may be removed was last seen before the limit.
  abbrev pub FreshEnough : ℤ → EntryKind → PersistedRequestState → Type 0
  FreshEnough limit kind state =
      (k : String) (s : ScopeState) (key : String)
      → lookup k state.scopes ≡ some s
      → holds s kind key ≡ true
      → removable s k p kind key ≡ true
      → int_ltb (entry_day kind s key) limit ≡ false

  -- A ledger with one entry of the kind removed, which may be removed and was last seen before the
  -- limit.
  pub data Expires (limit : ℤ) (kind : EntryKind)
      : PersistedRequestState → PersistedRequestState → Type 0 where
    entry :
        (k key : String) (s : ScopeState) (state : PersistedRequestState)
        → lookup k state.scopes ≡ some s
        → holds s kind key ≡ true
        → removable s k p kind key ≡ true
        → int_ltb (entry_day kind s key) limit ≡ true
        → Expires limit kind state (remove_entry kind k key state)

  pub data Expiries (limit : ℤ) (kind : EntryKind)
      : PersistedRequestState → PersistedRequestState → Type 0 where
    none_left : (state : PersistedRequestState) → Expiries limit kind state state
    first :
        {a b c : PersistedRequestState}
        → Expires limit kind a b
        → Expiries limit kind b c
        → Expiries limit kind a c

  -- The flag is as it was and so is the ledger, or the flag is set and there are fewer entries of the
  -- kind.
  abbrev pub TellsChange :
      EntryKind → Bool → Bool → PersistedRequestState → PersistedRequestState → Type 0
  TellsChange kind changed flag a b =
      ((flag ≡ changed) × (b ≡ a)) ⊎ ((flag ≡ true) × (total_entries b kind < total_entries a kind))

  abbrev pub Expired : ℤ → EntryKind → Bool → PersistedRequestState → Option Outcome → Type 0
  Expired limit kind changed a o =
      (flag : Bool) × (b : PersistedRequestState) × (o ≡ some (Outcome.finished flag b))
      × Expiries limit kind a b
      × FreshEnough limit kind b
      × TellsChange kind changed flag a b

  Expired-now :
      (limit : ℤ) (kind : EntryKind) (changed : Bool) (a : PersistedRequestState)
      → FreshEnough limit kind a
      → Expired limit kind changed a (some (Outcome.finished changed a))
  Expired-now limit kind changed a fresh =
      (changed, a, refl, Expiries.none_left a, fresh, inl (refl, refl))

  tells_more :
      (kind : EntryKind) (changed flag : Bool) (a b c : PersistedRequestState)
      → total_entries b kind < total_entries a kind
      → TellsChange kind true flag b c
      → TellsChange kind changed flag a c
  tells_more kind changed flag a b c fewer (inl (set, same)) =
      inr (set, subst (λ x. total_entries x kind < total_entries a kind) (sym same) fewer)
  tells_more kind changed flag a b c fewer (inr (set, more)) = inr (set, omega arith)

  Expired-after :
      (limit : ℤ) (kind : EntryKind) (changed : Bool) (a b : PersistedRequestState)
      (o : Option Outcome)
      → Expires limit kind a b
      → total_entries b kind < total_entries a kind
      → Expired limit kind true b o
      → Expired limit kind changed a o
  Expired-after limit kind changed a b o step fewer (flag, c, e, more, fresh, tells) =
      (flag, c, e, Expiries.first step more, fresh, tells_more kind changed flag a b c fewer tells)

  Expires-Removes :
      (limit : ℤ) (kind : EntryKind) (a b : PersistedRequestState)
      → Expires limit kind a b
      → Removes p a b
  Expires-Removes limit kind a _ (Expires.entry k key s _ at_k held free old) =
      Removes.entry kind k key s a at_k held free

  expire-Expired :
      (fuel : ℕ) (limit : ℤ) (kind : EntryKind) (changed : Bool) (a : PersistedRequestState)
      → IsDistinct a.scopes
      → total_entries a kind < fuel
      → Expired limit kind changed a (expire p fuel limit kind changed a)
  unfolding expire day_in
  expire-Expired zero limit kind changed a d h = absurd (omega arith)
  expire-Expired (suc fuel) limit kind changed a d h =
      elim (Option-cases (oldest_entry p kind none a)) [
        | inl e ↦
            rw (e, expire)
              (Expired-now limit kind changed a (λ k s key at_k held free.
                absurd
                  (ground (arith, oldest_entry-none p kind none a d e k s key at_k refl held))))
        | inr (c, e) ↦
            let ((s, (at_c, sel, held, free)), least) = oldest_entry-some p kind none a c d e in
            let day : day_in kind a c ≡ entry_day kind s c.1 = rw at_c refl in
            elim (Bool-cases (int_ltb (day_in kind a c) limit)) [
              | inl old ↦
                  let step =
                    Expires.entry c.0 c.1 s a at_c held free
                      (subst (λ z. int_ltb z limit ≡ true) day old) in
                  let fewer = total-remove_entry kind c.0 c.1 s a at_c held in
                  rw (e, old, expire)
                    (Expired-after limit kind changed a (remove_entry kind c.0 c.1 a) _ step fewer (
                      expire-Expired fuel limit kind true (remove_entry kind c.0 c.1 a)
                        (IsDistinct-after p (Expires-Removes limit kind a _ step) d) (omega arith)))
              | inr young ↦
                  rw (e, young, expire)
                    (Expired-now limit kind changed a (λ k r key at_k held_k free_k.
                      int_ltb_trans (entry_day kind r key) (day_in kind a c) limit
                        (least k r key (at_k, refl, held_k, free_k)) young))
            ]
      ]

  -- Expiring a kind of entries always finishes. All that was done to the ledger is to remove, one after
  -- the other, entries of the kind that protection allows to remove and that were last seen before the
  -- limit, each with its graph; afterwards no entry of the kind that may be removed was last seen before
  -- the limit; and either the ledger and the flag are as they were, or the flag is set and there are
  -- fewer entries of the kind.
  pub expire_kind-Expired :
      (limit : ℤ) (kind : EntryKind) (changed : Bool) (a : PersistedRequestState)
      → IsDistinct a.scopes
      → Expired limit kind changed a (expire_kind p limit kind changed a)
  unfolding expire_kind
  expire_kind-Expired limit kind changed a d =
      expire-Expired (suc (total_entries a kind)) limit kind changed a d (omega arith)

  Expiries-Removals :
      (limit : ℤ) (kind : EntryKind) (a b : PersistedRequestState)
      → Expiries limit kind a b
      → Removals p a b
  Expiries-Removals limit kind a _ (Expiries.none_left _) = Removals.none_left a
  Expiries-Removals limit kind a c (Expiries.first {b = b} step more) =
      Removals-append (Removals.then (Removals.none_left a) (Expires-Removes limit kind a b step))
        (Expiries-Removals limit kind b c more)

  unset :
      (kind : EntryKind) (changed flag : Bool) (a b : PersistedRequestState)
      → TellsChange kind changed flag a b
      → flag ≡ false
      → (changed ≡ false) × (b ≡ a)
  unset kind changed flag a b (inl (kept, same)) f = (sym kept ∙ f, same)
  unset kind changed flag a b (inr (set, fewer)) f = absurd (ground arith)

  -- As one of the parts of `prune`.
  pub expire_kind-Ends :
      (limit : ℤ) (kind : EntryKind) (changed : Bool) (a : PersistedRequestState)
      → IsDistinct a.scopes
      → Ends p (FreshEnough limit kind) changed a (expire_kind p limit kind changed a)
  expire_kind-Ends limit kind changed a d =
      let (flag, b, e, more, fresh, tells) = expire_kind-Expired limit kind changed a d in
      (
        Outcome.finished flag b,
        e,
        Expiries-Removals limit kind a b more,
        (fresh, unset kind changed flag a b tells),
      )
