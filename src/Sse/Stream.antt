-- ===== src/Sse/Stream.antt =====
-- The events of a byte stream, read one byte at a time: the description that the reader of
-- src/core/codex/src/response_sse_reader.rs, which works on chunks, is compared with.
use mini_sub2api.Base.{
  ℕ, zero, suc, ◌+◌, ◌≤◌, ◌<◌, ◌≡◌, false, Option, none, some, List, [], ◌∷◌, ◌++◌, length, take,
  drop, leb, if◌then◌else◌, ap, ◌∙◌, arith, Bool-cases, inl, inr,
}
use mini_sub2api.Sse.Frame.{Frame, frame_byte, Scan, scan}
use mini_sub2api.Sse.Reader.{SseReadError, Delivery}

-- The events that are read, and `none` at the end of the stream or the error.
abbrev pub Reading : Type 0
Reading = List (List ℕ) × Option SseReadError

abbrev pub emit : List ℕ → Reading → Reading
emit event rest = (event ∷ rest.0, rest.1)

-- The framing after an event.
abbrev pub emptied : Frame → Frame
emptied f = record f { buffer = []; stream_start = false }

-- What is left at the end of the stream is a last event; an error drops it.
abbrev pub last_events : Option SseReadError → List ℕ → Reading
last_events (some e) buffer = ([], some e)
last_events none [] = ([], none)
last_events none (b ∷ bs) = ((b ∷ bs) ∷ [], none)

module _ (maximum : ℕ) (ending : Option SseReadError) where
  unfoldable pub stream : ℕ → List ℕ → Frame → Reading
  stream event_bytes [] f = last_events ending f.buffer
  stream event_bytes (byte ∷ bytes) f =
      let next = frame_byte byte f in
      let more = stream (event_bytes + 1) bytes next.0 in
      let fresh = stream 0 bytes (emptied next.0) in
      if leb maximum event_bytes
      then ([], some SseReadError.event_too_large)
      else if next.1
      then emit next.0.buffer fresh
      else more

  -- The stream after a scan of some of the bytes.
  abbrev pub resume : ℕ → Scan → List ℕ → List ℕ → Reading
  resume event_bytes s bytes more =
      if s.complete
      then emit s.frame.buffer (stream 0 (drop s.take bytes ++ more) (emptied s.frame))
      else stream (event_bytes + s.take) (drop s.take bytes ++ more) s.frame

  resume-suc :
      (event_bytes byte : ℕ) (s : Scan) (bytes more : List ℕ)
      → resume (event_bytes + 1) s bytes more
        ≡ resume event_bytes (record s { take = suc s.take }) (byte ∷ bytes) more
  resume-suc e byte s bytes more =
      let same : e + 1 + s.take ≡ e + suc s.take = omega arith in
      ap
        (λ n.
          if s.complete
          then emit s.frame.buffer (stream 0 (drop s.take bytes ++ more) (emptied s.frame))
          else stream n (drop s.take bytes ++ more) s.frame)
        same

  pub stream-scan :
      (n event_bytes : ℕ) (bytes more : List ℕ) (f : Frame)
      → n ≤ length bytes
      → event_bytes + n ≤ maximum
      → stream event_bytes (bytes ++ more) f ≡ resume event_bytes (scan (take n bytes) f) bytes more
  unfolding stream scan
  stream-scan zero e bytes more f h k =
      let same : e ≡ e + 0 = omega arith in ap (λ n. stream n (bytes ++ more) f) same
  stream-scan (suc n) e [] more f h k = absurd (omega arith)
  stream-scan (suc n) e (b ∷ bytes) more f h k =
      let small : leb maximum e ≡ false = ground arith in
      elim (Bool-cases ((frame_byte b f).1)) [
        | inl complete ↦ rw (small, complete)
        | inr part ↦
            rw (small, part)
              (stream-scan n (e + 1) bytes more (frame_byte b f).0 (omega arith) (omega arith)
                ∙ resume-suc e b (scan (take n bytes) (frame_byte b f).0) bytes more)
      ]

-- A scan takes no more than it is given, and something when it is given something.
pub scan-take : (bytes : List ℕ) (f : Frame) → (scan bytes f).take ≤ length bytes
unfolding scan
scan-take [] f = omega arith
scan-take (b ∷ bytes) f = elim (Bool-cases ((frame_byte b f).1)) [
  | inl complete ↦ rw complete (omega arith)
  | inr part ↦ rw part (omega (arith, scan-take bytes (frame_byte b f).0))
]

pub scan-takes : (bytes : List ℕ) (f : Frame) → 0 < length bytes → 0 < (scan bytes f).take
unfolding scan
scan-takes [] f h = absurd (omega arith)
scan-takes (b ∷ bytes) f h = elim (Bool-cases ((frame_byte b f).1)) [
  | inl complete ↦ rw complete (omega arith)
  | inr part ↦ rw part (omega arith)
]

-- The bytes that the deliveries bring before the first read error, and how they end.
unfoldable pub received : List Delivery → List ℕ × Option SseReadError
received [] = ([], none)
received (Delivery.bytes chunk ∷ rest) = let r = received rest in (chunk ++ r.0, r.1)
received (Delivery.failed ∷ rest) = ([], some SseReadError.upstream)
