-- ===== src/Sse/Events.antt =====
-- What the events look like that the reader of src/core/codex/src/response_sse_reader.rs returns.
use mini_sub2api.Base.{
  ℕ, ◌+◌, ◌-◌, ◌≤◌, ◌≡◌, ◌⊎◌, refl, false, ◌&&◌, Option, none, some, List, [], ◌∷◌, ◌++◌, length,
  take, drop, min, ltb, ◌==◌, arith, Bool-cases, inl, inr, All, All-append, length-append,
  same_codes, if◌then◌else◌,
}
use mini_sub2api.Base.Json.{Value}
use mini_sub2api.Sse.Payload.{carriage_return, line_feed, is_break}
use mini_sub2api.Sse.Progress.{Class}
use mini_sub2api.Sse.Frame.{Frame, Scan, scan, skip_mark, frame_byte, longer, byte_order_mark}
use mini_sub2api.Sse.Reader.{
  SseReadError, Timeouts, Delivery, SseReader, Turn, Outcome, with_timeouts, class_of, note_class,
  take_event, check_deadline, deadline, read_pending, receive, turn, close, read_all,
}
use mini_sub2api.Sse.Stream.{scan-take}
use mini_sub2api.Sse.Outlook.{length-take}

abbrev IsClean : List ℕ → Type 0
IsClean = All (λ c. (c == carriage_return) ≡ false)

-- A buffer that holds at most `n` bytes and no carriage return.
record Fits (n : ℕ) (buffer : List ℕ) : Type 0 where
  short : length buffer ≤ n
  clean : IsClean buffer

push-Fits :
    (n c : ℕ) (buffer : List ℕ)
    → (c == carriage_return) ≡ false
    → Fits n buffer
    → Fits (n + 1) (buffer ++ c ∷ [])
push-Fits n c buffer h f = record {
  short = omega (arith, f.short, length-append {0} buffer (c ∷ []));
  clean = All-append (λ z. (z == carriage_return) ≡ false) buffer (c ∷ []) f.clean (h, tt);
}

skip_mark-Fits : (n : ℕ) (f : Frame) → Fits n f.buffer → Fits n (skip_mark f).buffer
unfolding skip_mark
skip_mark-Fits n f h = elim (Bool-cases (f.stream_start && (length f.buffer == 3))) [
  | inr later ↦ rw (later, skip_mark) h
  | inl third ↦ elim (Bool-cases (same_codes f.buffer byte_order_mark)) [
    | inl mark ↦ rw (third, mark, skip_mark) (record { short = omega arith; clean = tt })
    | inr other ↦ rw (third, other, skip_mark) h
  ]
]

not_break : (b : ℕ) → is_break b ≡ false → (b == carriage_return) ≡ false
not_break b h = ground arith

frame_byte-Fits : (n b : ℕ) (f : Frame) → Fits n f.buffer → Fits (n + 1) (frame_byte b f).0.buffer
unfolding frame_byte
frame_byte-Fits n b f h = elim (Bool-cases (f.line_cr && (b == line_feed))) [
  | inl second ↦
      rw (second, frame_byte) (record { short = omega (arith, h.short); clean = h.clean })
  | inr first ↦ elim (Bool-cases (is_break b)) [
    | inl end ↦ rw (first, end, frame_byte) (push-Fits n line_feed f.buffer refl h)
    | inr part ↦
        rw (first, part, frame_byte)
          (skip_mark-Fits (n + 1)
            (record f {
              line_cr = b == carriage_return;
              buffer = f.buffer ++ b ∷ [];
              line_length = longer f.line_length;
            })
            (push-Fits n b f.buffer (not_break b part) h))
  ]
]

-- An event that a reading returns: not longer than the maximum, and without carriage returns.
abbrev pub IsFramed : ℕ → List ℕ → Type 0
IsFramed maximum event = (length event ≤ maximum) × IsClean event

scan-Fits :
    (n : ℕ) (bytes : List ℕ) (f : Frame)
    → Fits n f.buffer
    → Fits (n + (scan bytes f).take) (scan bytes f).frame.buffer
unfolding scan
scan-Fits n [] f h = record { short = omega (arith, h.short); clean = h.clean }
scan-Fits n (b ∷ bytes) f h =
    let next = frame_byte-Fits n b f h in
    elim (Bool-cases ((frame_byte b f).1)) [
      | inl complete ↦ rw (complete, scan) next
      | inr part ↦
          let rest = scan-Fits (n + 1) bytes (frame_byte b f).0 next in
          rw (part, scan) (record { short = omega (arith, rest.short); clean = rest.clean })
    ]

-- What a reader has buffered of an event: as many bytes as it counts at most, which do not exceed the
-- maximum, and no carriage return.
abbrev Holds : ℕ → SseReader → Type 0
Holds maximum r =
    (r.maximum ≡ maximum) × (r.event_bytes ≤ maximum) × Fits r.event_bytes r.frame.buffer

-- What a round leaves or returns.
abbrev Framed : ℕ → Outcome → Type 0
Framed maximum (Outcome.again r) = Holds maximum r
Framed maximum (Outcome.event e r) = IsFramed maximum e × Holds maximum r
Framed maximum (Outcome.finished r) = Unit
Framed maximum (Outcome.error x r) = Unit

module _ (utf8 : List ℕ → Option (List ℕ)) (trim : List ℕ → List ℕ) (parse : List ℕ → Option Value)
    (maximum : ℕ) where
  note_class-Holds :
      (now : ℕ) (class : Option Class) (r : SseReader)
      → Holds maximum r
      → Holds maximum (note_class utf8 trim parse now class r)
  unfolding note_class
  note_class-Holds now none r h = h
  note_class-Holds now (some class) r h = h

  take_event-Holds :
      (now : ℕ) (r : SseReader)
      → r.maximum ≡ maximum
      → Holds maximum (take_event utf8 trim parse now r)
  unfolding take_event
  take_event-Holds now r e =
      note_class-Holds now (class_of utf8 trim parse r.frame.buffer)
        (record r { frame = record r.frame { buffer = [] }; event_bytes = 0 })
        (e, omega arith, record { short = omega arith; clean = tt })

  read_pending-Framed :
      (now : ℕ) (r : SseReader)
      → Holds maximum r
      → Framed maximum (read_pending utf8 trim parse now r)
  unfolding read_pending
  read_pending-Framed now r (same, within, fits) =
      let n : ℕ = min (r.maximum - r.event_bytes) (length r.pending) in
      let s : Scan = scan (take n r.pending) r.frame in
      elim (Bool-cases (n == 0)) [
        | inl full ↦ rw (full, read_pending) tt
        | inr room ↦
            let taken = scan-take (take n r.pending) r.frame in
            let cut = length-take n r.pending (ground arith) in
            let more : r.event_bytes + s.take ≤ maximum = ground arith in
            let next = scan-Fits r.event_bytes (take n r.pending) r.frame fits in
            elim (Bool-cases s.complete) [
              | inl complete ↦
                  rw (room, complete, read_pending)
                    (
                      (omega (arith, next.short), next.clean),
                      take_event-Holds now
                          (record r {
                            frame = record s.frame { stream_start = false };
                            event_bytes = r.event_bytes + s.take;
                            pending = drop s.take r.pending;
                          })
                          same,
                    )
              | inr part ↦ rw (room, part, read_pending) (same, more, next)
            ]
      ]

  receive-Framed :
      (t : Turn) (r : SseReader) (i : Option (List Delivery)) (b : List ℕ)
      → let r' = record r { incoming = i; frame = record r.frame { buffer = b } } in
        Holds maximum r' → Framed maximum (receive utf8 trim parse t r')
  unfolding receive
  receive-Framed t r none [] h = tt
  receive-Framed t r none (x ∷ xs) (same, within, fits) = (
    (omega (arith, fits.short), fits.clean),
    take_event-Holds t.taken_at
        (record r { incoming = none; frame = record r.frame { buffer = x ∷ xs } }) same,
  )
  receive-Framed t r (some ds) b h = elim (Bool-cases t.elapsed) [
    | inl late ↦ rw (late, receive) h
    | inr early ↦ rw (early, receive) (delivered ds)
  ]
    where
      r' : SseReader
      r' = record r { incoming = some ds; frame = record r.frame { buffer = b } }

      delivered :
          (es : List Delivery)
          → Framed maximum (elim es [
            | [] ↦ Outcome.again (record r' { incoming = none })
            | Delivery.bytes chunk ∷ rest ↦
                Outcome.again (record r' { incoming = some rest; pending = chunk })
            | Delivery.failed ∷ rest ↦ Outcome.error SseReadError.upstream (close r')
          ])
      delivered [] = h
      delivered (Delivery.bytes chunk ∷ rest) = h
      delivered (Delivery.failed ∷ rest) = tt

  -- What a round does after the check of the deadline.
  abbrev go_on : Turn → SseReader → Outcome
  go_on t r = elim r.pending [
    | [] ↦ receive utf8 trim parse t r
    | _ ∷ _ ↦ read_pending utf8 trim parse t.taken_at r
  ]

  go_on-Framed :
      (t : Turn) (r : SseReader) (p : List ℕ)
      → Holds maximum r
      → Framed maximum (go_on t (record r { pending = p }))
  go_on-Framed t r [] h = receive-Framed t (record r { pending = [] }) r.incoming r.frame.buffer h
  go_on-Framed t r (b ∷ bs) h = read_pending-Framed t.taken_at (record r { pending = b ∷ bs }) h

  turn-Framed_from :
      (t : Turn) (r : SseReader) (i : Option (List Delivery)) (d : Option ℕ)
      → let r' = record r { incoming = i; terminal_deadline = d } in
        Holds maximum r' → Framed maximum (turn utf8 trim parse t r')
  unfolding turn check_deadline
  turn-Framed_from t r none d h =
      go_on-Framed t (record r { incoming = none; terminal_deadline = d }) r.pending h
  turn-Framed_from t r (some ds) d h = elim (Bool-cases (ltb t.now (deadline r'))) [
    | inl early ↦ rw (early, turn) (go_on-Framed t r' r.pending h)
    | inr late ↦ rw (late, turn) (over d)
  ]
    where
      r' : SseReader
      r' = record r { incoming = some ds; terminal_deadline = d }

      over :
          (o : Option ℕ)
          → Framed maximum
              (elim (elim o as (λ _. SseReader ⊎ SseReadError) [
                | some _ ↦ inl (record r' { incoming = none })
                | none ↦ inr (
                    if ltb r'.output_deadline r'.idle_deadline
                    then if r'.has_output
                      then SseReadError.output_idle_timeout
                      else SseReadError.first_output_timeout
                    else SseReadError.idle_timeout)
              ]) [ inr e ↦ Outcome.error e (close r') | inl q ↦ go_on t q ])
      over none = tt
      over (some e) = go_on-Framed t (record r' { incoming = none }) r.pending h

  read_on-Framed :
      (t : Turn) (ts : List Turn) (r : SseReader) (o : Outcome)
      → turn utf8 trim parse t r ≡ o
      → Framed maximum o
      → ((r' : SseReader)
          → Holds maximum r'
          → All (IsFramed maximum) (read_all utf8 trim parse ts r').0)
      → All (IsFramed maximum) (read_all utf8 trim parse (t ∷ ts) r).0
  unfolding read_all
  read_on-Framed t ts r (Outcome.again r') e h rec = rw (e, read_all) (rec r' h)
  read_on-Framed t ts r (Outcome.event event r') e (framed, h) rec =
      rw (e, read_all) (framed, rec r' h)
  read_on-Framed t ts r (Outcome.finished r') e h rec = rw (e, read_all) tt
  read_on-Framed t ts r (Outcome.error x r') e h rec = rw (e, read_all) tt

  Holds-Framed :
      (ts : List Turn) (r : SseReader)
      → Holds maximum r
      → All (IsFramed maximum) (read_all utf8 trim parse ts r).0
  unfolding read_all
  Holds-Framed [] r h = tt
  Holds-Framed (t ∷ ts) r h =
      read_on-Framed t ts r (turn utf8 trim parse t r) refl
        (turn-Framed_from t r r.incoming r.terminal_deadline h) (λ r' h'. Holds-Framed ts r' h')

  -- Every event that a new reader returns has at most `maximum` bytes and no carriage return, whatever
  -- the upstream delivers, whenever the rounds happen and whichever deadlines pass.
  pub read_all-IsFramed :
      (start : ℕ) (timeouts : Timeouts) (deliveries : List Delivery) (ts : List Turn)
      → All
          (IsFramed maximum)
          (read_all utf8 trim parse ts (with_timeouts start deliveries maximum timeouts)).0
  unfolding with_timeouts
  read_all-IsFramed start timeouts deliveries ts =
      Holds-Framed ts (with_timeouts start deliveries maximum timeouts)
        (refl, omega arith, record { short = omega arith; clean = tt })
