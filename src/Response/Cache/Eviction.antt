-- ===== src/Response/Cache/Eviction.antt =====
-- The `while` loop of `remember` ends: after at most 64 rounds that are over the limit the ring is
-- empty, and a round that is not over it is the last but one.
use mathlib.Core.List.{append-nil, append_assoc}
use mini_sub2api.Base.{
  ℕ, zero, suc, ◌+◌, ◌%◌, ◌≤◌, ◌<◌, ◌≡◌, refl, sym, ap, ◌∙◌, inl, inr, String, true, false, Option,
  none, some, List, [], ◌∷◌, ◌++◌, length, length-append, set, replicate, take, drop,
  take-append-drop, ltb→lt, arith, Bool-cases, Option-cases, ◌||◌, subst,
}
use mini_sub2api.Response.Cache.State.{Pair, Store, max_entries, max_id_bytes, slot}
use mini_sub2api.Response.Cache.Remember.{
  take_slot, advance, is_over, current, evict_step, evict, is_some,
}
use mini_sub2api.Response.Cache.Slots.{
  total, total-replicate, total-ring, slot-set, ring, ring_step,
}
use mini_sub2api.Response.Cache.Accounting.{IsValid, step-IsValid}

set-slot : (es : List (Option Pair)) (i : ℕ) → slot es i ≡ none → i < length es → set es i none ≡ es
unfolding slot
set-slot [] i e h = absurd (omega arith)
set-slot (x ∷ es) zero e h = ap (λ z. z ∷ es) (sym e)
set-slot (x ∷ es) (suc i) e h = ap (◌∷◌ x) (set-slot es i e (omega arith))

replicate-snoc : (j : ℕ) → replicate {A = Option Pair} j none ++ none ∷ [] ≡ replicate (suc j) none
replicate-snoc zero = refl
replicate-snoc (suc j) = ap (◌∷◌ none) (replicate-snoc j)

length-ring : (es : List (Option Pair)) (i : ℕ) → length (ring es i) ≡ length es
length-ring es i = omega (
  arith,
  length-append {0} (drop i es) (take i es),
  length-append {0} (take i es) (drop i es),
  ap length (take-append-drop i es),
)

tail_eq : {x y : Option Pair} {xs ys : List (Option Pair)} → x ∷ xs ≡ y ∷ ys → xs ≡ ys
tail_eq e = cc

module _ (capacity : String → ℕ) (others : ℕ) (bytes : ℕ) where
  -- What the loop leaves behind.
  pub record Room (s s' : Store) : Type 0 where
    pub sound : IsValid capacity others s'
    pub fits : is_over capacity bytes s' ≡ false
    pub free : current capacity s' ≡ none
    pub same_epoch : s'.cache.epoch ≡ s.cache.epoch

  abbrev Returns : ℕ → Store → Type 0
  Returns fuel s = (s' : Store) × (evict capacity fuel bytes s ≡ some s') × Room s s'

  take_slot-entries :
      (s : Store)
      → IsValid capacity others s
      → (take_slot capacity (current capacity s) s).cache.entries
        ≡ set s.cache.entries s.cache.next none
  unfolding take_slot
  take_slot-entries s v = elim (Option-cases (current capacity s)) [
    | inl e ↦ rw (e, take_slot) (sym (set-slot s.cache.entries s.cache.next e (rw v.slots v.place)))
    | inr (p, e) ↦ rw (e, take_slot)
  ]

  take_slot-next :
      (e : Option Pair) (s : Store)
      → ((take_slot capacity e s).cache.next ≡ s.cache.next)
        × ((take_slot capacity e s).cache.epoch ≡ s.cache.epoch)
        × ((take_slot capacity e s).cache.id_bytes ≤ s.cache.id_bytes)
  unfolding take_slot
  take_slot-next none s = (refl, refl, omega arith)
  take_slot-next (some p) s = (refl, refl, omega arith)

  -- A store that is within the limit and has a free slot ends the loop.
  evict_stop :
      (fuel : ℕ) (s : Store)
      → 0 < fuel
      → is_over capacity bytes s ≡ false
      → current capacity s ≡ none
      → evict capacity fuel bytes s ≡ some s
  unfolding evict
  evict_stop zero s h fits free = absurd (omega arith)
  evict_stop (suc fuel) s h fits free = rw (fits, free)

  -- A round that does not stay over the limit leaves its slot free.
  settled :
      (fuel : ℕ) (s : Store)
      → 0 < fuel
      → IsValid capacity others s
      → is_over capacity bytes (take_slot capacity (current capacity s) s) ≡ false
      → let t = take_slot capacity (current capacity s) s in
        (evict_step capacity bytes s ≡ t) × (evict capacity fuel bytes t ≡ some t) × Room s t
  unfolding evict_step
  settled fuel s h v fits =
      let t = take_slot capacity (current capacity s) s in
      let kept = take_slot-next (current capacity s) s in
      let step : evict_step capacity bytes s ≡ t = rw (fits, evict_step) in
      let free : current capacity t ≡ none =
        ap (λ es. slot es t.cache.next) (take_slot-entries s v)
        ∙ ap (slot (set s.cache.entries s.cache.next none)) kept.0
        ∙ slot-set s.cache.entries s.cache.next none (rw v.slots v.place) in
      (
        step,
        evict_stop fuel t h fits free,
        record {
          sound = subst (IsValid capacity others) step (step-IsValid capacity others bytes v);
          fits = fits;
          free = free;
          same_epoch = kept.1;
        },
      )

  -- A round that stays over the limit moves a freed slot to the end of the ring.
  passed :
      (s : Store) (x : Option Pair) (xs : List (Option Pair)) (j : ℕ)
      → IsValid capacity others s
      → is_over capacity bytes (take_slot capacity (current capacity s) s) ≡ true
      → ring s.cache.entries s.cache.next ≡ (x ∷ xs) ++ replicate j none
      → let s1 = evict_step capacity bytes s in
        (ring s1.cache.entries s1.cache.next ≡ xs ++ replicate (suc j) none)
        × (s1.cache.epoch ≡ s.cache.epoch)
  unfolding evict_step advance
  passed s x xs j v over h =
      let es = s.cache.entries in
      let i = s.cache.next in
      let kept = take_slot-next (current capacity s) s in
      let (rest, now, later) = ring_step es i none (rw v.slots v.place) in
      let tails : rest ≡ xs ++ replicate j none = tail_eq (sym now ∙ h) in
      rw (over, evict_step)
        (
          ap (λ z. ring z ((t.cache.next + 1) % max_entries)) (take_slot-entries s v)
              ∙ ap (λ n. ring (set es i none) ((n + 1) % max_entries)) kept.0
              ∙ ap (λ n. ring (set es i none) ((i + 1) % n)) (sym v.slots)
              ∙ later
              ∙ ap (λ z. z ++ none ∷ []) tails
              ∙ append_assoc xs (replicate j none) (none ∷ [])
              ∙ ap (◌++◌ xs) (replicate-snoc j),
          kept.1,
        )
    where
      t : Store
      t = take_slot capacity (current capacity s) s

  -- Being over the limit needs an occupied slot.
  over-total :
      (s : Store)
      → IsValid capacity others s
      → bytes ≤ max_id_bytes
      → is_over capacity bytes s ≡ true
      → 0 < total capacity (ring s.cache.entries s.cache.next)
  over-total s v small over =
      omega (arith, total-ring capacity s.cache.entries s.cache.next, ltb→lt _ _ over)

  small-still :
      (s : Store)
      → is_over capacity bytes s ≡ false
      → is_over capacity bytes (take_slot capacity (current capacity s) s) ≡ false
  small-still s fits = let kept = take_slot-next (current capacity s) s in ground arith

  -- One more round, whatever its reason.
  round :
      (fuel : ℕ) (s : Store)
      → (is_over capacity bytes s || is_some (current capacity s)) ≡ true
      → evict capacity (suc fuel) bytes s ≡ evict capacity fuel bytes (evict_step capacity bytes s)
  unfolding evict
  round fuel s more = rw more

  settled-Returns :
      (fuel : ℕ) (s : Store)
      → 0 < fuel
      → IsValid capacity others s
      → (is_over capacity bytes s || is_some (current capacity s)) ≡ true
      → is_over capacity bytes (take_slot capacity (current capacity s) s) ≡ false
      → Returns (suc fuel) s
  settled-Returns fuel s h v more fits =
      let (step, stop, room) = settled fuel s h v fits in
      (
        take_slot capacity (current capacity s) s,
        round fuel s more ∙ ap (evict capacity fuel bytes) step ∙ stop,
        room,
      )

  fits-Returns :
      (fuel : ℕ) (s : Store)
      → 0 < fuel
      → IsValid capacity others s
      → is_over capacity bytes s ≡ false
      → Returns (suc fuel) s
  fits-Returns fuel s h v fits = elim (Option-cases (current capacity s)) [
    | inl e ↦ (
      s,
      evict_stop (suc fuel) s (omega arith) fits e,
      record { sound = v; fits = fits; free = e; same_epoch = refl },
    )
    | inr (p, e) ↦ settled-Returns fuel s h v (rw (fits, e)) (small-still s fits)
  ]

  over-Returns :
      (fuel : ℕ) (x : Option Pair) (xs : List (Option Pair)) (j : ℕ) (s : Store)
      → 0 < fuel
      → IsValid capacity others s
      → is_over capacity bytes s ≡ true
      → ring s.cache.entries s.cache.next ≡ (x ∷ xs) ++ replicate j none
      → ((s1 : Store)
          → IsValid capacity others s1
          → ring s1.cache.entries s1.cache.next ≡ xs ++ replicate (suc j) none
          → Returns fuel s1)
      → Returns (suc fuel) s
  over-Returns fuel x xs j s pos v over h rec =
      elim (Bool-cases (is_over capacity bytes (take_slot capacity (current capacity s) s))) [
        | inl still ↦
            let (moved, epoch) = passed s x xs j v still h in
            let (s', run, room) =
              rec (evict_step capacity bytes s) (step-IsValid capacity others bytes v) moved in
            (
              s',
              round fuel s (rw over) ∙ run,
              record {
                sound = room.sound;
                fits = room.fits;
                free = room.free;
                same_epoch = room.same_epoch ∙ epoch;
              },
            )
        | inr fits ↦ settled-Returns fuel s pos v (rw over) fits
      ]

  -- What is left to visit is `xs`, and the last `j` slots that were visited are free.
  evict-Returns :
      (fuel : ℕ) (xs : List (Option Pair)) (j : ℕ) (s : Store)
      → IsValid capacity others s
      → bytes ≤ max_id_bytes
      → ring s.cache.entries s.cache.next ≡ xs ++ replicate j none
      → length xs + 2 ≤ fuel
      → Returns fuel s
  evict-Returns zero xs j s v small h enough = absurd (omega arith)
  evict-Returns (suc fuel) [] j s v small h enough = elim (Bool-cases (is_over capacity bytes s)) [
    | inl over ↦ absurd (
        omega (arith, over-total s v small over, ap (total capacity) h, total-replicate capacity j))
    | inr fits ↦ fits-Returns fuel s (omega arith) v fits
  ]
  evict-Returns (suc fuel) (x ∷ xs) j s v small h enough =
      elim (Bool-cases (is_over capacity bytes s)) [
        | inl over ↦
            over-Returns fuel x xs j s (omega arith) v over h
              (λ s1 v1 h1. evict-Returns fuel xs (suc j) s1 v1 small h1 (omega arith))
        | inr fits ↦ fits-Returns fuel s (omega arith) v fits
      ]

  -- On every valid store, for a pair of at most 16 KiB, the loop returns. The store that it leaves is
  -- valid and in the same epoch, has room for the pair under the limit, and the slot at `next` is free.
  pub evict_total :
      (s : Store) → IsValid capacity others s → bytes ≤ max_id_bytes → Returns (max_entries + 2) s
  evict_total s v small =
      evict-Returns (max_entries + 2) (ring s.cache.entries s.cache.next) 0 s v small
        (sym (append-nil (ring s.cache.entries s.cache.next)))
        (omega (arith, length-ring s.cache.entries s.cache.next, v.slots))
