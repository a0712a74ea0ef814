-- ===== src/Sse/Outlook.antt =====
-- The reading that is still ahead of a reader of src/core/codex/src/response_sse_reader.rs, and a
-- bound on the rounds that it takes.
use mini_sub2api.Base.{
  ℕ, zero, suc, ◌+◌, ◌*◌, ◌≤◌, ◌<◌, ◌≡◌, refl, true, false, Option, none, some, List, [], ◌∷◌, ◌++◌,
  length, take, drop, leb, arith, inl, inr, ◌⊎◌,
}
use mini_sub2api.Sse.Frame.{Frame}
use mini_sub2api.Sse.Reader.{SseReadError, Delivery, SseReader, Turn}
use mini_sub2api.Sse.Stream.{Reading, stream, received}

abbrev pub incoming_bytes : Option (List Delivery) → List ℕ × Option SseReadError
incoming_bytes none = ([], none)
incoming_bytes (some deliveries) = received deliveries

-- The reading that the stream still holds for a reader.
abbrev pub outlook : SseReader → Reading
outlook r =
    let i = incoming_bytes r.incoming in
    stream r.maximum i.1 r.event_bytes (r.pending ++ i.0) r.frame

pub List-cases : (xs : List ℕ) → (xs ≡ []) ⊎ ((y : ℕ) × (ys : List ℕ) × (xs ≡ y ∷ ys))
List-cases [] = inl refl
List-cases (x ∷ xs) = inr (x, xs, refl)

pub length-drop : (n : ℕ) (xs : List ℕ) → n ≤ length xs → length (drop n xs) + n ≡ length xs
length-drop zero xs h = omega arith
length-drop (suc n) [] h = absurd (omega arith)
length-drop (suc n) (x ∷ xs) h = omega (arith, length-drop n xs (omega arith))

pub length-take : (n : ℕ) (xs : List ℕ) → n ≤ length xs → length (take n xs) ≡ n
length-take zero xs h = refl
length-take (suc n) [] h = absurd (omega arith)
length-take (suc n) (x ∷ xs) h = omega (arith, length-take n xs (omega arith))

pub stream-large :
    (maximum : ℕ) (ending : Option SseReadError) (e : ℕ) (bytes more : List ℕ) (f : Frame)
    → 0 < length bytes
    → maximum ≤ e
    → stream maximum ending e (bytes ++ more) f ≡ ([], some SseReadError.event_too_large)
unfolding stream
stream-large maximum ending e [] more f h k = absurd (omega arith)
stream-large maximum ending e (b ∷ bytes) more f h k =
    let large : leb maximum e ≡ true = ground arith in rw large

abbrev pub size : List Delivery → ℕ
size [] = 0
size (Delivery.bytes chunk ∷ rest) = 1 + 2 * length chunk + size rest
size (Delivery.failed ∷ rest) = 1 + size rest

abbrev pub ahead : Option (List Delivery) → List ℕ → ℕ
ahead none [] = 1
ahead none (_ ∷ _) = 2
ahead (some deliveries) _ = 3 + size deliveries

-- A bound on the rounds that are left.
abbrev pub weight : SseReader → ℕ
weight r = 2 * length r.pending + ahead r.incoming r.frame.buffer

pub ahead-le : (i : Option (List Delivery)) (b b' : List ℕ) → ahead i b ≤ ahead i b' + 1
ahead-le none [] [] = omega arith
ahead-le none [] (_ ∷ _) = omega arith
ahead-le none (_ ∷ _) [] = omega arith
ahead-le none (_ ∷ _) (_ ∷ _) = omega arith
ahead-le (some ds) b b' = omega arith

pub ahead-pos : (i : Option (List Delivery)) (b : List ℕ) → 0 < ahead i b
ahead-pos none [] = omega arith
ahead-pos none (_ ∷ _) = omega arith
ahead-pos (some ds) b = omega arith

abbrev pub Later : ℕ → Option ℕ → Type 0
Later limit none = Unit
Later limit (some d) = limit < d

-- No deadline of the reader, now or renewed, comes before `limit` has passed.
pub record Quiet (limit : ℕ) (r : SseReader) : Type 0 where
  pub idle_later : limit < r.idle_deadline
  pub output_later : limit < r.output_deadline
  pub terminal_later : Later limit r.terminal_deadline
  pub idle_long : limit < r.timeouts.idle
  pub output_long : limit < r.timeouts.output_idle
  pub tail_long : limit < r.timeouts.terminal_tail

-- A turn within `limit` whose wait brings a delivery.
abbrev pub Prompt : ℕ → Turn → Type 0
Prompt limit t = (t.now ≤ limit) × (t.elapsed ≡ false)
