-- ===== src/Response/Cache/Correct.antt =====
-- A hit of the cache is right: `remember` keeps the translations right, and `translate` uses them.
use mathlib.Core.Option.{some-injective, none-ne-some}
use mini_sub2api.Base.{
  ℕ, ◌≡◌, refl, sym, ◌∙◌, ◌⊎◌, inl, inr, String, true, false, Option, none, some, List, [], ◌∷◌,
  Bool-cases, Option-cases, subst, All, str_eq, eq_iff, In, ◌≢◌,
}
use mini_sub2api.Base.Int.{ℤ}
use mini_sub2api.Base.Json.{
  Value, Fields, get_field, insert_field, set_index, get_field-insert_field,
}
use mini_sub2api.Response.Delta.{DeltaId}
use mini_sub2api.Response.Cache.State.{
  Digest, StateStamp, CacheEpoch, Pair, Store, clear, find_pair, is_pair_of, in_epoch,
}
use mini_sub2api.Response.Cache.Translate.{Translation, resolve, replace_all, is_current, translate}
use mini_sub2api.Response.Cache.Remember.{enter_epoch, remember}
use mini_sub2api.Response.Cache.Accounting.{IsValid}
use mini_sub2api.Response.Cache.Bounds.{remember-IsValid}
use mini_sub2api.Response.Cache.Coherence.{
  SoundIn, is_pair_of-id_of, in_epoch-eq, Entry, Holds, Sound, Translates, cleared-Entry,
  remember_fields-Holds,
}

module _ (means : CacheEpoch → DeltaId → String → Type 0) where
  Holds-Sound : (epoch : CacheEpoch) (s : Store) → Holds means epoch s → Sound means s
  Holds-Sound epoch s h = rw (h.0) (h.1)

  enter_epoch-Holds :
      (capacity : String → ℕ) (epoch : CacheEpoch) (s : Store)
      → Sound means s
      → Holds means epoch (enter_epoch capacity epoch s)
  unfolding enter_epoch clear
  enter_epoch-Holds capacity epoch s h = elim (Bool-cases (in_epoch epoch s.cache.epoch)) [
    | inl same ↦
        rw (same, enter_epoch)
          (
            in_epoch-eq epoch s.cache.epoch same,
            subst (λ o. SoundIn means o s.cache.entries) (in_epoch-eq epoch s.cache.epoch same) h,
          )
    | inr other ↦ rw (other, enter_epoch) (refl, cleared-Entry means epoch s.cache.entries)
  ]

  -- Let `means` say which downstream texts are right for an identifier in an epoch. On a valid store
  -- every pair of whose cache is right in its epoch, and with a translated event that has, when there
  -- is a stamp, right texts for the identifiers of the event, `remember` returns a valid store every
  -- pair of whose cache is right.
  pub remember-Sound :
      (capacity : String → ℕ) (others : ℕ) (identity : Digest) (stamp : Option StateStamp) (day : ℤ)
      (ids : List DeltaId) (translated : Value) (s : Store)
      → IsValid capacity others s
      → Sound means s
      → ((σ : StateStamp)
          → stamp ≡ some σ
          → All
              (Translates means (record { identity = identity; stamp = σ; day = day }) translated)
              ids)
      → (s' : Store) × (remember capacity identity stamp day ids translated s ≡ some s')
        × IsValid capacity others s'
        × Sound means s'
  unfolding remember clear
  remember-Sound capacity others identity none day ids translated s v h right =
      let (s', run, v') = remember-IsValid capacity others identity none day ids translated s v in
      let same : clear s ≡ s' = some-injective (clear s) s' run in
      (s', run, v', subst (Sound means) same tt)
  remember-Sound capacity others identity (some stamp) day ids translated s v h right =
      let epoch : CacheEpoch = record { identity = identity; stamp = stamp; day = day } in
      let (s', run, v') =
        remember-IsValid capacity others identity (some stamp) day ids translated s v in
      (
        s',
        run,
        v',
        Holds-Sound epoch s' (
            remember_fields-Holds means epoch capacity ids translated _ s' (right stamp refl) run
              (enter_epoch-Holds capacity epoch s h)),
      )

  -- The field `k` is as it was and belongs to no identifier, or has a right text for one that it
  -- belongs to.
  abbrev pub Rewritten : CacheEpoch → List DeltaId → Fields → Fields → String → Type 0
  Rewritten epoch ids fs fs' k =
      ((get_field k fs' ≡ get_field k fs) × All (λ id. id.field ≢ k) ids)
      ⊎ ((id : DeltaId) × (downstream : String) × In id ids
          × (id.field ≡ k)
          × means epoch id downstream
          × (get_field k fs' ≡ some (Value.string downstream)))

  module _ (epoch : CacheEpoch) where
    find_pair-means :
        (id : DeltaId) (es : List (Option Pair)) (p : Pair)
        → All (Entry means epoch) es
        → find_pair id es ≡ some p
        → means epoch id p.downstream
    unfolding find_pair
    find_pair-means id [] p h e = absurd (none-ne-some p e)
    find_pair-means id (none ∷ es) p h e = find_pair-means id es p h.1 e
    find_pair-means id (some q ∷ es) p h e = elim (Bool-cases (is_pair_of id q)) [
      | inl is ↦
          let same : find_pair id (some q ∷ es) ≡ some q = rw is in
          let q≡p : q ≡ p = some-injective q p (sym same ∙ e) in
          subst (λ z. means epoch id z.downstream) q≡p
            (subst (λ z. means epoch z q.downstream) (is_pair_of-id_of id q is) h.0)
      | inr other ↦
          let next : find_pair id (some q ∷ es) ≡ find_pair id es = rw other in
          find_pair-means id es p h.1 (sym next ∙ e)
    ]

    -- Writing the replacements, which have a right text for each identifier.
    abbrev Writes : List DeltaId → Fields → List (String × String) → Type 0
    Writes ids fs replacements =
        (fs' : Fields) × (replace_all (Value.object fs) replacements ≡ some (Value.object fs'))
        × ((k : String) → Rewritten epoch ids fs fs' k)

    write_first :
        (id : DeltaId) (ids : List DeltaId) (d k : String) (fs fs' : Fields)
        → means epoch id d
        → Rewritten epoch ids (insert_field id.field (Value.string d) fs) fs' k
        → Rewritten epoch (id ∷ ids) fs fs' k
    write_first id ids d k fs fs' m (inr (id', d', member, at, m', now)) =
        inr (id', d', inr member, at, m', now)
    write_first id ids d k fs fs' m (inl (kept, others)) =
        let after = kept ∙ get_field-insert_field id.field k (Value.string d) fs in
        elim (Bool-cases (str_eq id.field k)) [
          | inl is ↦ inr (id, d, inl refl, (eq_iff id.field k).0 is, m, after ∙ rw is)
          | inr other ↦
              inl (after ∙ rw other, (λ q. let is = (eq_iff id.field k).1 q in cc, others))
        ]

    resolve-Rewritten :
        (ids : List DeltaId) (es : List (Option Pair)) (replacements : List (String × String))
        (fs : Fields)
        → All (Entry means epoch) es
        → resolve es ids ≡ some replacements
        → Writes ids fs replacements
    unfolding resolve replace_all set_index
    resolve-Rewritten [] es replacements fs h e =
        subst (Writes [] fs) (some-injective [] replacements e) (fs, refl, λ k. inl (refl, tt))
    resolve-Rewritten (id ∷ ids) es replacements fs h e = elim (Option-cases (find_pair id es)) [
      | inl miss ↦
          let lost : resolve es (id ∷ ids) ≡ none = rw (miss, resolve) in
          absurd (none-ne-some replacements (sym lost ∙ e))
      | inr (p, hit) ↦ elim (Option-cases (resolve es ids)) [
        | inl miss ↦
            let lost : resolve es (id ∷ ids) ≡ none = rw (hit, miss, resolve) in
            absurd (none-ne-some replacements (sym lost ∙ e))
        | inr (rest, more) ↦
            let all_found : resolve es (id ∷ ids) ≡ some ((id.field, p.downstream) ∷ rest) =
              rw (hit, more, resolve) in
            let (fs', done, each) =
              resolve-Rewritten ids es rest (insert_field id.field (Value.string p.downstream) fs) h
                more in
            subst (Writes (id ∷ ids) fs)
              (some-injective ((id.field, p.downstream) ∷ rest) replacements (sym all_found ∙ e))
              (
                fs',
                done,
                λ k.
                    write_first id ids p.downstream k fs fs' (find_pair-means id es p h hit)
                      (each k),
              )
      ]
    ]

  -- What `translate` returns for the event object `fs` is right: a hit needs a stamp.
  abbrev pub Right : Digest → Option StateStamp → ℤ → List DeltaId → Fields → Translation → Type 0
  Right identity stamp day ids fs r =
      ((r.hit ≡ false) × (r.value ≡ Value.object fs))
      ⊎ ((σ : StateStamp) × (stamp ≡ some σ)
          × (r.hit ≡ true)
          × ((fs' : Fields) × (r.value ≡ Value.object fs')
              × ((k : String)
                  → Rewritten (record { identity = identity; stamp = σ; day = day }) ids fs fs' k)))

  -- If every pair of the cache is right in its epoch, `translate` returns on every event object, and
  -- every pair of the cache that it leaves is right. Either it reports a miss and the event is as it
  -- was, or there is a stamp and it reports a hit, and each field of the event is as it was, belonging
  -- to none of the identifiers, or has a text that is right, in the epoch of the call, for an
  -- identifier of that field.
  pub translate-Right :
      (identity : Digest) (stamp : Option StateStamp) (day : ℤ) (ids : List DeltaId) (fs : Fields)
      (s : Store)
      → Sound means s
      → (r : Translation) × (translate identity stamp day ids (Value.object fs) s ≡ some r)
        × Sound means r.store
        × Right identity stamp day ids fs r
  unfolding translate is_current clear
  translate-Right identity none day ids fs s h =
      (record { store = clear s; value = Value.object fs; hit = false }, refl, tt, inl (refl, refl))
  translate-Right identity (some stamp) day ids fs s h =
      let epoch : CacheEpoch = record { identity = identity; stamp = stamp; day = day } in
      elim (Bool-cases (in_epoch epoch s.cache.epoch)) [
        | inr stale ↦ (
          record { store = clear s; value = Value.object fs; hit = false },
          rw (stale, translate),
          tt,
          inl (refl, refl),
        )
        | inl fresh ↦ elim (Option-cases (resolve s.cache.entries ids)) [
          | inl miss ↦ (
            record { store = s; value = Value.object fs; hit = false },
            rw (fresh, miss, translate),
            h,
            inl (refl, refl),
          )
          | inr (replacements, found) ↦
              let sound : All (Entry means epoch) s.cache.entries =
                subst (λ o. SoundIn means o s.cache.entries) (in_epoch-eq epoch s.cache.epoch fresh)
                  h in
              let (fs', done, each) =
                resolve-Rewritten epoch ids s.cache.entries replacements fs sound found in
              (
                record { store = s; value = Value.object fs'; hit = true },
                rw (fresh, translate) (rw (found, translate) (rw (done, translate))),
                h,
                inr (stamp, refl, refl, (fs', refl, each)),
              )
        ]
      ]
