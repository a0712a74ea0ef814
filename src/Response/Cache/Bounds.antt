-- ===== src/Response/Cache/Bounds.antt =====
-- `remember` always returns, and no sequence of calls exceeds the bounds or loses a reservation.
use mini_sub2api.Base.{
  ℕ, ◌≡◌, refl, inl, inr, String, true, false, not, Option, none, some, List, [], ◌∷◌, ltb, arith,
  Bool-cases, Option-cases,
}
use mini_sub2api.Base.Int.{ℤ}
use mini_sub2api.Base.Json
use mini_sub2api.Base.Json.{Value, Fields, insert_field, text_of, set_index}
use mini_sub2api.RequestState.WireId.{is_valid_wire_id}
use mini_sub2api.Response.Delta.{DeltaId}
use mini_sub2api.Response.Cache.State.{
  Digest, StateStamp, Pair, Store, max_id_bytes, clear, find_pair,
}
use mini_sub2api.Response.Cache.Translate.{Translation, resolve, replace_all, is_current, translate}
use mini_sub2api.Response.Cache.Remember.{
  pair_bytes, is_some, store_pair, admit, remember_field, remember_fields, remember,
}
use mini_sub2api.Response.Cache.Accounting.{
  IsValid, clear-IsValid, store_pair-IsValid, enter_epoch-IsValid,
}
use mini_sub2api.Response.Cache.Eviction.{evict_total}

module _ (capacity : String → ℕ) (others : ℕ) where
  abbrev Keeps : Option Store → Type 0
  Keeps r = (s' : Store) × (r ≡ some s') × IsValid capacity others s'

  admit-IsValid :
      (pair : Pair) (s : Store) → IsValid capacity others s → Keeps (admit capacity pair s)
  unfolding admit
  admit-IsValid pair s v = elim (Bool-cases (ltb max_id_bytes (pair_bytes capacity pair))) [
    | inl large ↦ (s, rw large, v)
    | inr small ↦
        let (room, run, r) =
          evict_total capacity others (pair_bytes capacity pair) s v (ground arith) in
        (
          store_pair capacity pair room,
          rw (small, run, admit),
          store_pair-IsValid capacity others pair r.sound r.fits r.free,
        )
  ]

  remember_field-IsValid :
      (id : DeltaId) (text : Option String) (s : Store)
      → IsValid capacity others s
      → Keeps (remember_field capacity id text s)
  unfolding remember_field
  remember_field-IsValid id none s v = (s, refl, v)
  remember_field-IsValid id (some downstream) s v =
      elim (Bool-cases (not (is_valid_wire_id downstream))) [
        | inl invalid ↦ (s, rw invalid, v)
        | inr ok ↦ elim (Bool-cases (is_some (find_pair id s.cache.entries))) [
          | inl there ↦ (s, rw (ok, there), v)
          | inr new ↦ rw (ok, new) (admit-IsValid _ s v)
        ]
      ]

  remember_fields-IsValid :
      (ids : List DeltaId) (translated : Value) (s : Store)
      → IsValid capacity others s
      → Keeps (remember_fields capacity ids translated s)
  unfolding remember_fields
  remember_fields-IsValid [] translated s v = (s, refl, v)
  remember_fields-IsValid (id ∷ ids) translated s v =
      let (s', run, v') = remember_field-IsValid id (text_of (Json.get translated id.field)) s v in
      rw (run, remember_fields) (remember_fields-IsValid ids translated s' v')

  -- On every valid store, for every event, `remember` returns, and the store is valid again: at most
  -- 64 pairs and 16 KiB, the byte count exact, and in the shared budget exactly the bytes of its
  -- pairs beside what the budget counted before.
  pub remember-IsValid :
      (identity : Digest) (stamp : Option StateStamp) (day : ℤ) (ids : List DeltaId)
      (translated : Value) (s : Store)
      → IsValid capacity others s
      → (s' : Store) × (remember capacity identity stamp day ids translated s ≡ some s')
        × IsValid capacity others s'
  unfolding remember
  remember-IsValid identity none day ids translated s v =
      (clear s, refl, clear-IsValid capacity others v)
  remember-IsValid identity (some stamp) day ids translated s v =
      remember_fields-IsValid ids translated _ (enter_epoch-IsValid capacity others _ v)

replace_all-object :
    (fs : Fields) (replacements : List (String × String))
    → (fs' : Fields) × (replace_all (Value.object fs) replacements ≡ some (Value.object fs'))
unfolding replace_all set_index
replace_all-object fs [] = (fs, refl)
replace_all-object fs ((k, r) ∷ more) = replace_all-object (insert_field k (Value.string r) fs) more

module _ (capacity : String → ℕ) (others : ℕ) where
  pub translate-IsValid :
      (identity : Digest) (stamp : Option StateStamp) (day : ℤ) (ids : List DeltaId) (fs : Fields)
      (s : Store)
      → IsValid capacity others s
      → (r : Translation) × (translate identity stamp day ids (Value.object fs) s ≡ some r)
        × IsValid capacity others r.store
  unfolding translate
  translate-IsValid identity stamp day ids fs s v =
      elim (Bool-cases (is_current identity stamp day s)) [
        | inr stale ↦ (
          record { store = clear s; value = Value.object fs; hit = false },
          rw (stale, translate),
          clear-IsValid capacity others v,
        )
        | inl fresh ↦ elim (Option-cases (resolve s.cache.entries ids)) [
          | inl miss ↦ (
            record { store = s; value = Value.object fs; hit = false },
            rw (fresh, miss, translate),
            v,
          )
          | inr (replacements, hit) ↦
              let (fs', done) = replace_all-object fs replacements in
              (
                record { store = s; value = Value.object fs'; hit = true },
                rw (fresh, translate) (rw (hit, translate) (rw (done, translate))),
                v,
              )
        ]
      ]
