-- ===== src/Sse/Reading.antt =====
-- The reader of src/core/codex/src/response_sse_reader.rs reads the events of the byte stream,
-- however the bytes are cut into deliveries, as long as no deadline passes.
use mini_sub2api.Base.{
  ℕ, ◌+◌, ◌≤◌, ◌<◌, ◌≡◌, refl, sym, ap, ◌∙◌, true, false, Option, none, some, List, [], ◌∷◌, length,
  ltb, arith, lt→ltb, subst, inl, All,
}
use mini_sub2api.Base.Json.{Value}
use mini_sub2api.Sse.Reader.{
  Timeouts, Delivery, SseReader, Turn, Outcome, with_timeouts, deadline, first_frame, class_of,
  take_event, check_deadline, receive, turn, read_all,
}
use mini_sub2api.Sse.Stream.{emit, stream, received}
use mini_sub2api.Sse.Outlook.{outlook, size, weight, ahead-le, ahead-pos, Quiet, Prompt}
use mini_sub2api.Sse.Rounds.{
  note_class-Quiet, note_class-outlook, deadline-later, moved, moved-Quiet, Follows,
  read_pending-Follows,
}

module _ (utf8 : List ℕ → Option (List ℕ)) (trim : List ℕ → List ℕ) (parse : List ℕ → Option Value)
    (limit : ℕ) where
  -- A reader with nothing pending.
  abbrev waiting : SseReader → Option (List Delivery) → List ℕ → SseReader
  waiting r i b = moved utf8 trim parse limit r i (record r.frame { buffer = b }) r.event_bytes []

  waiting-Follows :
      (t : Turn) (r : SseReader) (i : Option (List Delivery)) (b : List ℕ)
      → Quiet limit r
      → t.elapsed ≡ false
      → Follows utf8 trim parse limit (waiting r i b) (receive utf8 trim parse t (waiting r i b))
  unfolding receive take_event stream received
  waiting-Follows t r none [] q prompt = refl
  waiting-Follows t r none (x ∷ xs) q prompt =
      let after : SseReader =
        moved utf8 trim parse limit r none (record r.frame { buffer = [] }) 0 [] in
      let class = class_of utf8 trim parse (x ∷ xs) in
      let (same, weighs) = note_class-outlook utf8 trim parse limit t.taken_at class after in
      (
        note_class-Quiet utf8 trim parse limit t.taken_at class after
            (moved-Quiet utf8 trim parse limit r none (record r.frame { buffer = [] }) 0 [] q),
        omega (arith, weighs),
        ap (emit (x ∷ xs)) (sym same),
      )
  waiting-Follows t r (some []) b q prompt =
      rw (prompt, receive)
        (
          moved-Quiet utf8 trim parse limit r none (record r.frame { buffer = b }) r.event_bytes []
              q,
          omega (arith, ahead-le none b []),
          refl,
        )
  waiting-Follows t r (some (Delivery.bytes chunk ∷ rest)) b q prompt =
      rw (prompt, receive)
        (
          moved-Quiet utf8 trim parse limit r (some rest) (record r.frame { buffer = b })
              r.event_bytes chunk q,
          omega arith,
          refl,
        )
  waiting-Follows t r (some (Delivery.failed ∷ rest)) b q prompt = rw (prompt, receive) refl

  receive-Follows :
      (t : Turn) (r : SseReader)
      → Quiet limit r
      → t.elapsed ≡ false
      → r.pending ≡ []
      → Follows utf8 trim parse limit r (receive utf8 trim parse t r)
  receive-Follows t r q prompt bare =
      subst
        (λ p.
          Follows utf8 trim parse limit (record r { pending = p })
            (receive utf8 trim parse t (record r { pending = p })))
        (sym bare) (waiting-Follows t r r.incoming r.frame.buffer q prompt)

  check_deadline-prompt :
      (now : ℕ) (r : SseReader) (i : Option (List Delivery))
      → Quiet limit r
      → now ≤ limit
      → let r' = record r { incoming = i } in check_deadline utf8 trim parse now r' ≡ inl r'
  unfolding check_deadline deadline
  check_deadline-prompt now r none q h = refl
  check_deadline-prompt now r (some ds) q h =
      let early : ltb now (deadline r) ≡ true =
        lt→ltb now (deadline r) (omega (arith, deadline-later utf8 trim parse limit r q)) in
      rw early

  pending-Follows :
      (t : Turn) (r : SseReader) (p : List ℕ)
      → Quiet limit r
      → Prompt limit t
      → let r' = record r { pending = p } in
        Follows utf8 trim parse limit r' (turn utf8 trim parse t r')
  unfolding turn
  pending-Follows t r [] q prompt =
      let on_time = check_deadline-prompt t.now r' r.incoming q' prompt.0 in
      rw (on_time, turn) (receive-Follows t r' q' prompt.1 refl)
    where
      r' : SseReader
      r' = record r { pending = [] }

      q' : Quiet limit r'
      q' = moved-Quiet utf8 trim parse limit r r.incoming r.frame r.event_bytes [] q
  pending-Follows t r (b ∷ bs) q prompt =
      let on_time = check_deadline-prompt t.now r' r.incoming q' prompt.0 in
      rw (on_time, turn) (read_pending-Follows utf8 trim parse limit t.taken_at r' q' (omega arith))
    where
      r' : SseReader
      r' = record r { pending = b ∷ bs }

      q' : Quiet limit r'
      q' = moved-Quiet utf8 trim parse limit r r.incoming r.frame r.event_bytes (b ∷ bs) q

  turn-Follows :
      (t : Turn) (r : SseReader)
      → Quiet limit r
      → Prompt limit t
      → Follows utf8 trim parse limit r (turn utf8 trim parse t r)
  turn-Follows t r q prompt = pending-Follows t r r.pending q prompt

  abbrev Reads : List Turn → SseReader → Type 0
  Reads ts r = read_all utf8 trim parse ts r ≡ ((outlook r).0, some (outlook r).1)

  weight-pos : (r : SseReader) → 0 < weight r
  weight-pos r = omega (arith, ahead-pos r.incoming r.frame.buffer)

  read_on :
      (t : Turn) (ts : List Turn) (r : SseReader) (o : Outcome)
      → turn utf8 trim parse t r ≡ o
      → Follows utf8 trim parse limit r o
      → ((r' : SseReader) → Quiet limit r' → weight r' < weight r → Reads ts r')
      → Reads (t ∷ ts) r
  unfolding read_all
  read_on t ts r (Outcome.again r') e (q, less, same) rec =
      rw (e, read_all) (rec r' q less ∙ ap (λ z. (z.0, some z.1)) (sym same))
  read_on t ts r (Outcome.event event r') e (q, less, same) rec =
      rw (e, read_all)
        (ap (λ z. (event ∷ z.0, z.1)) (rec r' q less) ∙ ap (λ z. (z.0, some z.1)) (sym same))
  read_on t ts r (Outcome.finished r') e same rec =
      rw (e, read_all) (ap (λ z. (z.0, some z.1)) (sym same))
  read_on t ts r (Outcome.error x r') e same rec =
      rw (e, read_all) (ap (λ z. (z.0, some z.1)) (sym same))

  Quiet-Reads :
      (ts : List Turn) (r : SseReader)
      → Quiet limit r
      → All (Prompt limit) ts
      → weight r ≤ length ts
      → Reads ts r
  Quiet-Reads [] r q prompt enough = absurd (omega (arith, weight-pos r))
  Quiet-Reads (t ∷ ts) r q prompt enough =
      read_on t ts r (turn utf8 trim parse t r) refl (turn-Follows t r q prompt.0)
        (λ r' q' less. Quiet-Reads ts r' q' prompt.1 (omega arith))

  -- Let each of the three timeouts be longer than `limit`, each turn happen within `limit` and each
  -- wait bring a delivery. Then a new reader with enough turns, twice as many as there are bytes
  -- and one more for each delivery and three, reads exactly the events of the concatenated bytes,
  -- read one at a time, and ends as that reading does: at the end of the stream, at the read error
  -- of the upstream, or at an event that exceeds the maximum.
  pub read_all-stream :
      (start maximum : ℕ) (timeouts : Timeouts) (deliveries : List Delivery) (ts : List Turn)
      → limit < timeouts.idle
      → limit < timeouts.output_idle
      → limit < timeouts.terminal_tail
      → All (Prompt limit) ts
      → 3 + size deliveries ≤ length ts
      → let sent = received deliveries in
        let reading = stream maximum sent.1 0 sent.0 first_frame in
        read_all utf8 trim parse ts (with_timeouts start deliveries maximum timeouts)
        ≡ (reading.0, some reading.1)
  unfolding with_timeouts
  read_all-stream start maximum timeouts deliveries ts idle output tail prompt enough =
      Quiet-Reads ts (with_timeouts start deliveries maximum timeouts)
        (record {
          idle_later = omega arith;
          output_later = omega arith;
          terminal_later = tt;
          idle_long = idle;
          output_long = output;
          tail_long = tail;
        })
        prompt (omega arith)
