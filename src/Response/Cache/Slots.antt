-- ===== src/Response/Cache/Slots.antt =====
-- The ring of slots: the bytes that its pairs hold, and the ring read from `next` on.
use mathlib.Core.List.{append_assoc, append-nil}
use native.Mathlib.Nat.{mod_self, mod-eq_of_lt}
use mini_sub2api.Base.{
  ℕ, zero, suc, ◌+◌, ◌%◌, ◌<◌, ◌≡◌, refl, sym, ap, ◌∙◌, String, Option, none, some, List, [], ◌∷◌,
  ◌++◌, map, length, length-append, set, take, drop, take-append-drop, replicate, arith,
}
use mini_sub2api.Response.Cache.State.{Pair, slot}
use mini_sub2api.Response.Cache.Remember.{pair_bytes}

module _ (capacity : String → ℕ) where
  abbrev pub entry_bytes : Option Pair → ℕ
  entry_bytes none = 0
  entry_bytes (some p) = pair_bytes capacity p

  -- The sum over all occupied slots.
  unfoldable pub total : List (Option Pair) → ℕ
  total [] = 0
  total (e ∷ es) = entry_bytes e + total es

  pub total-set :
      (es : List (Option Pair)) (i : ℕ) (e : Option Pair)
      → i < length es
      → total (set es i e) + entry_bytes (slot es i) ≡ total es + entry_bytes e
  unfolding total slot
  total-set [] i e h = absurd (omega arith)
  total-set (x ∷ es) zero e h = omega arith
  total-set (x ∷ es) (suc i) e h = omega (arith, total-set es i e (omega arith))

  pub total-append : (xs ys : List (Option Pair)) → total (xs ++ ys) ≡ total xs + total ys
  unfolding total
  total-append [] ys = omega arith
  total-append (x ∷ xs) ys = omega (arith, total-append xs ys)

  pub total-replicate : (n : ℕ) → total (replicate n none) ≡ 0
  unfolding total
  total-replicate zero = refl
  total-replicate (suc n) = omega (arith, total-replicate n)

  pub total-cleared : (es : List (Option Pair)) → total (map (λ _. none) es) ≡ 0
  unfolding total
  total-cleared [] = refl
  total-cleared (e ∷ es) = omega (arith, total-cleared es)

pub length-cleared :
    (es : List (Option Pair)) → length (map {B = Option Pair} (λ _. none) es) ≡ length es
length-cleared [] = refl
length-cleared (e ∷ es) = ap suc (length-cleared es)

pub length-set :
    (es : List (Option Pair)) (i : ℕ) (e : Option Pair) → length (set es i e) ≡ length es
length-set [] i e = refl
length-set (x ∷ es) zero e = refl
length-set (x ∷ es) (suc i) e = ap suc (length-set es i e)

pub slot-set :
    (es : List (Option Pair)) (i : ℕ) (e : Option Pair) → i < length es → slot (set es i e) i ≡ e
unfolding slot
slot-set [] i e h = absurd (omega arith)
slot-set (x ∷ es) zero e h = refl
slot-set (x ∷ es) (suc i) e h = slot-set es i e (omega arith)

-- The slots in the order in which `next` comes to them.
abbrev pub ring : List (Option Pair) → ℕ → List (Option Pair)
ring es i = drop i es ++ take i es

-- A slot splits the list.
pub record Split (es : List (Option Pair)) (i : ℕ) : Type 0 where
  pub before : List (Option Pair)
  pub after : List (Option Pair)
  pub whole : es ≡ before ++ slot es i ∷ after
  pub at : length before ≡ i

pub Split-slot : (es : List (Option Pair)) (i : ℕ) → i < length es → Split es i
unfolding slot
Split-slot [] i h = absurd (omega arith)
Split-slot (e ∷ es) zero h = record { before = []; after = es; whole = refl; at = refl }
Split-slot (e ∷ es) (suc i) h =
    let r = Split-slot es i (omega arith) in
    record { before = e ∷ r.before; after = r.after; whole = ap (◌∷◌ e) r.whole; at = ap suc r.at }

pub set-middle :
    (xs ys : List (Option Pair)) (x e : Option Pair)
    → set (xs ++ x ∷ ys) (length xs) e ≡ xs ++ e ∷ ys
set-middle [] ys x e = refl
set-middle (z ∷ xs) ys x e = ap (◌∷◌ z) (set-middle xs ys x e)

drop-middle : (xs ys : List (Option Pair)) → drop (length xs) (xs ++ ys) ≡ ys
drop-middle [] ys = refl
drop-middle (x ∷ xs) ys = drop-middle xs ys

take-middle : (xs ys : List (Option Pair)) → take (length xs) (xs ++ ys) ≡ xs
take-middle [] ys = refl
take-middle (x ∷ xs) ys = ap (◌∷◌ x) (take-middle xs ys)

pub ring-middle : (xs ys : List (Option Pair)) → ring (xs ++ ys) (length xs) ≡ ys ++ xs
ring-middle xs ys = rw (drop-middle xs ys, take-middle xs ys)

ring_step_core :
    (xs ys : List (Option Pair)) (e : Option Pair) (n : ℕ)
    → n ≡ length xs + suc (length ys)
    → ring (xs ++ e ∷ ys) ((length xs + 1) % n) ≡ (ys ++ xs) ++ e ∷ []
ring_step_core xs [] e n h =
    let wraps : (length xs + 1) % n ≡ 0 =
      let p : n ≡ length xs + 1 = omega arith in rw p (mod_self (length xs + 1)) in
    rw wraps (append-nil (xs ++ e ∷ []))
ring_step_core xs (y ∷ ys) e n h =
    let inside : (length xs + 1) % n ≡ length (xs ++ e ∷ []) =
      rw (length-append xs (e ∷ [])) (mod-eq_of_lt (omega arith)) in
    let grouped : xs ++ e ∷ y ∷ ys ≡ (xs ++ e ∷ []) ++ y ∷ ys =
      sym (append_assoc xs (e ∷ []) (y ∷ ys)) in
    rw (inside, grouped, ring-middle (xs ++ e ∷ []) (y ∷ ys))
      (sym (append_assoc (y ∷ ys) xs (e ∷ [])))

-- The slot at `next` comes first; when `next` moves on, what it leaves behind comes last.
pub ring_step :
    (es : List (Option Pair)) (i : ℕ) (e : Option Pair)
    → i < length es
    → (rest : List (Option Pair)) × (ring es i ≡ slot es i ∷ rest)
      × (ring (set es i e) ((i + 1) % length es) ≡ rest ++ e ∷ [])
ring_step es i e h =
    let r = Split-slot es i h in
    let x = slot es i in
    let count : length es ≡ length r.before + suc (length r.after) =
      ap length r.whole ∙ length-append r.before (x ∷ r.after) in
    let written : set es i e ≡ r.before ++ e ∷ r.after =
      ap (λ z. set es z e) (sym r.at)
      ∙ ap (λ z. set z (length r.before) e) r.whole
      ∙ set-middle r.before r.after x e in
    (
      r.after ++ r.before,
      ap (λ z. ring es z) (sym r.at)
          ∙ ap (λ z. ring z (length r.before)) r.whole
          ∙ ring-middle r.before (x ∷ r.after),
      ap (λ z. ring z ((i + 1) % length es)) written
          ∙ ap (λ z. ring (r.before ++ e ∷ r.after) ((z + 1) % length es)) (sym r.at)
          ∙ ring_step_core r.before r.after e (length es) count,
    )

-- The bytes are the same, from whichever slot they are counted.
pub total-ring :
    (capacity : String → ℕ) (es : List (Option Pair)) (i : ℕ)
    → total capacity (ring es i) ≡ total capacity es
total-ring capacity es i = omega (
  arith,
  total-append capacity (drop i es) (take i es),
  total-append capacity (take i es) (drop i es),
  ap (total capacity) (take-append-drop i es),
)
