-- ===== src/Response/Cache/Accounting.antt =====
-- The byte accounting of the cache: what it holds, what it has reserved, and what the others have.
use mini_sub2api.Base.{
  ℕ, ◌+◌, ◌-◌, ◌%◌, ◌≤◌, ◌<◌, ◌≡◌, refl, sym, ap, ◌∙◌, inl, inr, String, false, Option, none, some,
  length, arith, Bool-cases, Option-cases, set,
}
use mini_sub2api.Response.Cache.State.{
  Pair, CacheBudget, CacheEpoch, Store, max_entries, max_id_bytes, usize_range, reserve, release,
  clear, in_epoch,
}
use mini_sub2api.Response.Cache.Remember.{
  pair_bytes, take_slot, advance, is_over, current, evict_step, store_pair, enter_epoch,
}
use mini_sub2api.Response.Cache.Slots.{
  total, entry_bytes, total-set, total-cleared, length-cleared, length-set,
}

-- What holds between calls. `others` is what the budget counts beyond the pairs of this cache: the
-- fixed part of this cache and all of the other caches.
pub record IsValid (capacity : String → ℕ) (others : ℕ) (s : Store) : Type 0 where
  pub slots : length s.cache.entries ≡ max_entries
  pub place : s.cache.next < max_entries
  pub counted : s.cache.id_bytes ≡ total capacity s.cache.entries
  pub bounded : s.cache.id_bytes ≤ max_id_bytes
  pub held : s.budget.used ≡ others + s.cache.id_bytes
  pub within : s.budget.used ≤ s.budget.maximum
  pub ranged : s.budget.used < usize_range

-- Giving back no more than is counted does not wrap around.
pub release-used :
    (b : CacheBudget) (bytes : ℕ)
    → bytes ≤ b.used
    → b.used < usize_range
    → (release b bytes).used ≡ b.used - bytes
unfolding release usize_range
release-used b bytes h k = omega arith

pub release-maximum : (b : CacheBudget) (bytes : ℕ) → (release b bytes).maximum ≡ b.maximum
unfolding release
release-maximum b bytes = refl

pub reserve-some :
    (b b' : CacheBudget) (bytes : ℕ)
    → reserve b bytes ≡ some b'
    → (b'.used ≡ b.used + bytes)
      × (b'.used ≤ b'.maximum)
      × (b'.used < usize_range)
      × (b'.maximum ≡ b.maximum)
unfolding reserve
reserve-some b b' bytes h = ground arith

next-lt : (n : ℕ) → (n + 1) % max_entries < max_entries
unfolding max_entries
next-lt n = omega arith

zero-lt : 0 < max_entries
unfolding max_entries
zero-lt = omega arith

module _ (capacity : String → ℕ) (others : ℕ) where
  pub clear-IsValid : {s : Store} → IsValid capacity others s → IsValid capacity others (clear s)
  unfolding clear
  clear-IsValid {s} v =
      let used = release-used s.budget s.cache.id_bytes (omega arith) v.ranged in
      record {
        slots = length-cleared s.cache.entries ∙ v.slots;
        place = zero-lt;
        counted = sym (total-cleared capacity s.cache.entries);
        bounded = omega arith;
        held = omega arith;
        within = omega (arith, release-maximum s.budget s.cache.id_bytes);
        ranged = omega arith;
      }

  take_slot-IsValid :
      {s : Store} (e : Option Pair)
      → current capacity s ≡ e
      → IsValid capacity others s
      → IsValid capacity others (take_slot capacity e s)
  unfolding take_slot
  take_slot-IsValid none h v = v
  take_slot-IsValid {s} (some p) h v =
      let bytes = pair_bytes capacity p in
      let freed : total capacity (set s.cache.entries s.cache.next none) + bytes
          ≡ total capacity s.cache.entries =
        omega (
          arith,
          total-set capacity s.cache.entries s.cache.next none (rw v.slots v.place),
          ap (entry_bytes capacity) h,
        ) in
      let used = release-used s.budget bytes (omega arith) v.ranged in
      record {
        slots = length-set s.cache.entries s.cache.next none ∙ v.slots;
        place = v.place;
        counted = omega arith;
        bounded = omega arith;
        held = omega arith;
        within = omega (arith, release-maximum s.budget bytes);
        ranged = omega arith;
      }

  advance-IsValid :
      {s : Store} → IsValid capacity others s → IsValid capacity others (advance capacity s)
  unfolding advance
  advance-IsValid {s} v = record {
    slots = v.slots;
    place = next-lt s.cache.next;
    counted = v.counted;
    bounded = v.bounded;
    held = v.held;
    within = v.within;
    ranged = v.ranged;
  }

  pub step-IsValid :
      {s : Store} (bytes : ℕ)
      → IsValid capacity others s
      → IsValid capacity others (evict_step capacity bytes s)
  unfolding evict_step
  step-IsValid {s} bytes v =
      let t = take_slot capacity (current capacity s) s in
      let w = take_slot-IsValid (current capacity s) refl v in
      elim (Bool-cases (is_over capacity bytes t)) [
        | inl over ↦ rw (over, evict_step) (advance-IsValid w)
        | inr fits ↦ rw (fits, evict_step) w
      ]

  pub store_pair-IsValid :
      {s : Store} (pair : Pair)
      → IsValid capacity others s
      → is_over capacity (pair_bytes capacity pair) s ≡ false
      → current capacity s ≡ none
      → IsValid capacity others (store_pair capacity pair s)
  unfolding store_pair
  store_pair-IsValid {s} pair v fits free =
      let bytes = pair_bytes capacity pair in
      elim (Option-cases (reserve s.budget bytes)) [
        | inl refused ↦ rw (refused, store_pair) v
        | inr (b, granted) ↦
            let r = reserve-some s.budget b bytes granted in
            let room : s.cache.id_bytes + bytes ≤ max_id_bytes = ground arith in
            let added : total capacity (set s.cache.entries s.cache.next (some pair))
                ≡ total capacity s.cache.entries + bytes =
              omega (
                arith,
                total-set capacity s.cache.entries s.cache.next (some pair) (rw v.slots v.place),
                ap (entry_bytes capacity) free,
              ) in
            rw (granted, store_pair)
              (record {
                slots = length-set s.cache.entries s.cache.next (some pair) ∙ v.slots;
                place = next-lt s.cache.next;
                counted = omega arith;
                bounded = omega arith;
                held = omega arith;
                within = omega arith;
                ranged = omega arith;
              })
      ]

  pub enter_epoch-IsValid :
      {s : Store} (epoch : CacheEpoch)
      → IsValid capacity others s
      → IsValid capacity others (enter_epoch capacity epoch s)
  unfolding enter_epoch
  enter_epoch-IsValid {s} epoch v =
      let w = clear-IsValid v in
      elim (Bool-cases (in_epoch epoch s.cache.epoch)) [
        | inl same ↦ rw (same, enter_epoch) v
        | inr other ↦
            rw (other, enter_epoch)
              (record {
                slots = w.slots;
                place = w.place;
                counted = w.counted;
                bounded = w.bounded;
                held = w.held;
                within = w.within;
                ranged = w.ranged;
              })
      ]
