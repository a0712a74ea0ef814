-- ===== src/Response/Cache/Coherence.antt =====
-- What the cached translations mean: a pair in the cache was a right translation in its epoch.
use mathlib.Core.Option.{some-injective, none-ne-some}
use mini_sub2api.Base.{
  ℕ, zero, suc, ◌+◌, ◌≡◌, sym, ap, ◌∙◌, inl, inr, String, Bool, true, not, Option, none, some, List,
  [], ◌∷◌, map, set, arith, Bool-cases, Option-cases, subst, All, decided-holds, ◌&&◌, ◌||◌, str_eq,
  eq_iff, ltb,
}
use mini_sub2api.Base.Json
use mini_sub2api.Base.Json.{Value, text_of}
use mini_sub2api.RequestState.Types.{WireIdDomain, WireIdDomain-discrete}
use mini_sub2api.RequestState.WireId.{is_valid_wire_id}
use mini_sub2api.Response.Delta.{DeltaId}
use mini_sub2api.Response.Cache.State.{
  CacheEpoch, CacheEpoch-discrete, Pair, Store, max_id_bytes, max_entries, reserve, find_pair,
  is_pair_of, in_epoch, same_domain,
}
use mini_sub2api.Response.Cache.Remember.{
  pair_bytes, take_slot, advance, evict_step, evict, store_pair, admit, remember_field,
  remember_fields, is_some, is_over, current,
}

-- The identifier that a pair is about.
abbrev pub id_of : Pair → DeltaId
id_of p = record { field = p.field; domain = p.domain; upstream = p.upstream }

same_domain-eq : (a b : WireIdDomain) → same_domain a b ≡ true → a ≡ b
unfolding same_domain
same_domain-eq a b h = decided-holds (WireIdDomain-discrete a b) h

and-true : (a b : Bool) → (a && b) ≡ true → (a ≡ true) × (b ≡ true)
and-true a b h = ground arith

pub is_pair_of-id_of : (id : DeltaId) (p : Pair) → is_pair_of id p ≡ true → id_of p ≡ id
unfolding is_pair_of
is_pair_of-id_of id p h =
    let (a, rest) = and-true (str_eq p.field id.field) _ h in
    let (b, c) = and-true (same_domain p.domain id.domain) (str_eq p.upstream id.upstream) rest in
    let f = (eq_iff p.field id.field).0 a in
    let d = same_domain-eq p.domain id.domain b in let u = (eq_iff p.upstream id.upstream).0 c in cc

pub in_epoch-eq :
    (epoch : CacheEpoch) (o : Option CacheEpoch) → in_epoch epoch o ≡ true → o ≡ some epoch
unfolding in_epoch
in_epoch-eq epoch none h = cc
in_epoch-eq epoch (some e) h = ap some (decided-holds (CacheEpoch-discrete e epoch) h)

module _ (means : CacheEpoch → DeltaId → String → Type 0) where
  -- The pair of a slot is a right translation.
  abbrev pub Entry : CacheEpoch → Option Pair → Type 0
  Entry epoch none = Unit
  Entry epoch (some p) = means epoch (id_of p) p.downstream

  abbrev pub Holds : CacheEpoch → Store → Type 0
  Holds epoch s = (s.cache.epoch ≡ some epoch) × All (Entry epoch) s.cache.entries

  abbrev pub SoundIn : Option CacheEpoch → List (Option Pair) → Type 0
  SoundIn none es = Unit
  SoundIn (some epoch) es = All (Entry epoch) es

  -- Every pair of the cache is a right translation in the epoch of the cache.
  abbrev pub Sound : Store → Type 0
  Sound s = SoundIn s.cache.epoch s.cache.entries

  -- A text, where there is one, is a right translation.
  abbrev pub Meant : CacheEpoch → DeltaId → Option String → Type 0
  Meant epoch id none = Unit
  Meant epoch id (some downstream) = means epoch id downstream

  -- What the translated event has for an identifier is a right translation of it.
  abbrev pub Translates : CacheEpoch → Value → DeltaId → Type 0
  Translates epoch translated id = Meant epoch id (text_of (Json.get translated id.field))

  module _ (epoch : CacheEpoch) where
    set-Entry :
        (es : List (Option Pair)) (i : ℕ) (e : Option Pair)
        → All (Entry epoch) es
        → Entry epoch e
        → All (Entry epoch) (set es i e)
    set-Entry [] i e h k = h
    set-Entry (x ∷ es) zero e h k = (k, h.1)
    set-Entry (x ∷ es) (suc i) e h k = (h.0, set-Entry es i e h.1 k)

    pub cleared-Entry :
        (es : List (Option Pair)) → All (Entry epoch) (map {B = Option Pair} (λ _. none) es)
    cleared-Entry [] = tt
    cleared-Entry (e ∷ es) = (tt, cleared-Entry es)

    module _ (capacity : String → ℕ) where
      take_slot-Holds :
          (e : Option Pair) (s : Store) → Holds epoch s → Holds epoch (take_slot capacity e s)
      unfolding take_slot
      take_slot-Holds none s h = h
      take_slot-Holds (some p) s h = (h.0, set-Entry s.cache.entries s.cache.next none h.1 tt)

      evict_step-Holds :
          (bytes : ℕ) (s : Store) → Holds epoch s → Holds epoch (evict_step capacity bytes s)
      unfolding evict_step advance
      evict_step-Holds bytes s h =
          let k = take_slot-Holds (current capacity s) s h in
          elim (Bool-cases (is_over capacity bytes (take_slot capacity (current capacity s) s))) [
            | inl over ↦ rw (over, evict_step) k
            | inr fits ↦ rw (fits, evict_step) k
          ]

      evict-Holds :
          (fuel bytes : ℕ) (s s' : Store)
          → evict capacity fuel bytes s ≡ some s'
          → Holds epoch s
          → Holds epoch s'
      unfolding evict
      evict-Holds zero bytes s s' run h = absurd (none-ne-some s' run)
      evict-Holds (suc fuel) bytes s s' run h =
          elim (Bool-cases (is_over capacity bytes s || is_some (current capacity s))) [
            | inl more ↦
                let again : evict capacity (suc fuel) bytes s
                    ≡ evict capacity fuel bytes (evict_step capacity bytes s) =
                  rw more in
                evict-Holds fuel bytes (evict_step capacity bytes s) s' (sym again ∙ run)
                  (evict_step-Holds bytes s h)
            | inr done ↦
                let stop : evict capacity (suc fuel) bytes s ≡ some s = rw done in
                subst (Holds epoch) (some-injective s s' (sym stop ∙ run)) h
          ]

      store_pair-Holds :
          (p : Pair) (s : Store)
          → means epoch (id_of p) p.downstream
          → Holds epoch s
          → Holds epoch (store_pair capacity p s)
      unfolding store_pair
      store_pair-Holds p s m h = elim (Option-cases (reserve s.budget (pair_bytes capacity p))) [
        | inl refused ↦ rw (refused, store_pair) h
        | inr (b, granted) ↦
            rw (granted, store_pair) (h.0, set-Entry s.cache.entries s.cache.next (some p) h.1 m)
      ]

      admit-Holds :
          (p : Pair) (s s' : Store)
          → means epoch (id_of p) p.downstream
          → admit capacity p s ≡ some s'
          → Holds epoch s
          → Holds epoch s'
      unfolding admit
      admit-Holds p s s' m run h = elim (Bool-cases (ltb max_id_bytes (pair_bytes capacity p))) [
        | inl large ↦
            let kept : admit capacity p s ≡ some s = rw large in
            subst (Holds epoch) (some-injective s s' (sym kept ∙ run)) h
        | inr small ↦
            elim (Option-cases (evict capacity (max_entries + 2) (pair_bytes capacity p) s)) [
              | inl stuck ↦
                  let lost : admit capacity p s ≡ none = rw (small, stuck, admit) in
                  absurd (none-ne-some s' (sym lost ∙ run))
              | inr (room, made) ↦
                  let kept : admit capacity p s ≡ some (store_pair capacity p room) =
                    rw (small, made, admit) in
                  subst (Holds epoch)
                    (some-injective (store_pair capacity p room) s' (sym kept ∙ run))
                    (store_pair-Holds p room m (evict-Holds _ _ s room made h))
            ]
      ]

      remember_field-Holds :
          (id : DeltaId) (text : Option String) (s s' : Store)
          → Meant epoch id text
          → remember_field capacity id text s ≡ some s'
          → Holds epoch s
          → Holds epoch s'
      unfolding remember_field
      remember_field-Holds id none s s' m run h = subst (Holds epoch) (some-injective s s' run) h
      remember_field-Holds id (some d) s s' m run h = elim (Bool-cases (not (is_valid_wire_id d))) [
        | inl invalid ↦
            let kept : remember_field capacity id (some d) s ≡ some s = rw invalid in
            subst (Holds epoch) (some-injective s s' (sym kept ∙ run)) h
        | inr ok ↦ elim (Bool-cases (is_some (find_pair id s.cache.entries))) [
          | inl there ↦
              let kept : remember_field capacity id (some d) s ≡ some s = rw (ok, there) in
              subst (Holds epoch) (some-injective s s' (sym kept ∙ run)) h
          | inr new ↦
              let p : Pair = record {
                field = id.field;
                domain = id.domain;
                upstream = id.upstream;
                downstream = d;
              } in
              let kept : remember_field capacity id (some d) s ≡ admit capacity p s =
                rw (ok, new) in
              admit-Holds p s s' m (sym kept ∙ run) h
        ]
      ]

      pub remember_fields-Holds :
          (ids : List DeltaId) (translated : Value) (s s' : Store)
          → All (Translates epoch translated) ids
          → remember_fields capacity ids translated s ≡ some s'
          → Holds epoch s
          → Holds epoch s'
      unfolding remember_fields
      remember_fields-Holds [] translated s s' m run h =
          subst (Holds epoch) (some-injective s s' run) h
      remember_fields-Holds (id ∷ ids) translated s s' m run h =
          elim (Option-cases
            (remember_field capacity id (text_of (Json.get translated id.field)) s)) [
              | inl stuck ↦
                  let lost : remember_fields capacity (id ∷ ids) translated s ≡ none =
                    rw (stuck, remember_fields) in
                  absurd (none-ne-some s' (sym lost ∙ run))
              | inr (s1, made) ↦
                  let more : remember_fields capacity (id ∷ ids) translated s
                      ≡ remember_fields capacity ids translated s1 =
                    rw (made, remember_fields) in
                  remember_fields-Holds ids translated s1 s' m.1 (sym more ∙ run) (
                    remember_field-Holds id (text_of (Json.get translated id.field)) s s1 m.0 made
                      h)
            ]
