-- ===== src/RequestState/Prune/Evict.antt =====
-- src/core/codex/src/request_state_prune_policy.rs: `evict_one`.
use mini_sub2api.Base.{
  ◌≡◌, ◌⊎◌, refl, String, Bool, true, false, some, none, List, [], ◌∷◌, All, Option-cases, inl, inr,
}
use mini_sub2api.Base.TextMap.{lookup, has_text, contains_key, IsDistinct}
use mini_sub2api.RequestState.Types.{ScopeState, PersistedRequestState, EntryKind}
use mini_sub2api.RequestState.Prune.{holds}
use mini_sub2api.RequestState.Prune.Protect.{ProtectedStateKeys, removable}
use mini_sub2api.RequestState.Prune.Policy.{
  oldest_entry, oldest_scope, evict_first, evicting_kinds, evict_one,
}
use mini_sub2api.RequestState.Prune.Oldest.{oldest_entry-some, oldest_entry-none}
use mini_sub2api.RequestState.Prune.Scopes.{oldest_scope-free, oldest_scope-none}
use mini_sub2api.RequestState.Prune.Steps.{Removes}

module _ (p : ProtectedStateKeys) where
  -- No entry of the kind may be removed.
  abbrev pub IsKept : PersistedRequestState → EntryKind → Type 0
  IsKept state kind =
      (k : String) (s : ScopeState) (key : String)
      → lookup k state.scopes ≡ some s
      → holds s kind key ≡ true
      → removable s k p kind key ≡ false

  abbrev pub NothingLeft : List EntryKind → PersistedRequestState → Type 0
  NothingLeft rest state =
      All (IsKept state) rest
      × ((k : String) → contains_key k state.scopes ≡ true → has_text k p.scopes ≡ true)

  abbrev pub EvictsOne :
      List EntryKind → PersistedRequestState → Bool × PersistedRequestState → Type 0
  EvictsOne rest a r =
      ((r.0 ≡ true) × Removes p a r.1) ⊎ ((r.0 ≡ false) × (r.1 ≡ a) × NothingLeft rest a)

  evict_first_lem :
      (rest : List EntryKind) (a : PersistedRequestState)
      → IsDistinct a.scopes
      → EvictsOne rest a (evict_first p rest a)
  unfolding evict_first
  evict_first_lem [] a d = elim (Option-cases (oldest_scope p a)) [
    | inl e ↦ rw (e, evict_first) (inr (refl, refl, (tt, oldest_scope-none p a e)))
    | inr (key, e) ↦
        let (there, free) = oldest_scope-free p a key e in
        rw (e, evict_first) (inl (refl, Removes.scope key a there free))
  ]
  evict_first_lem (kind ∷ rest) a d = elim (Option-cases (oldest_entry p kind none a)) [
    | inl e ↦
        rw (e, evict_first)
          (elim (evict_first_lem rest a d) [
            | inl h ↦ inl h
            | inr (f, same, (kept, scopes)) ↦ inr (
              f,
              same,
              (
                (
                  (λ k s key at_k held. oldest_entry-none p kind none a d e k s key at_k refl held),
                  kept,
                ),
                scopes,
              ),
            )
          ])
    | inr (c, e) ↦
        let ((s, (at_c, sel, held, free)), least) = oldest_entry-some p kind none a c d e in
        rw (e, evict_first) (inl (refl, Removes.entry kind c.0 c.1 s a at_c held free))
  ]

  -- `evict_one` either makes one removal, which protection allows, or says that it has changed nothing,
  -- changes nothing, and then no entry of any kind may be removed and all scopes are protected.
  pub evict_one_lem :
      (a : PersistedRequestState) → IsDistinct a.scopes → EvictsOne evicting_kinds a (evict_one p a)
  unfolding evict_one
  evict_one_lem a d = evict_first_lem evicting_kinds a d
