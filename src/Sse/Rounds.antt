-- ===== src/Sse/Rounds.antt =====
-- A round of `next_event` in src/core/codex/src/response_sse_reader.rs that finds bytes pending reads
-- the first events of what is ahead, and keeps the deadlines late.
use mini_sub2api.Base.{
  ℕ, ◌+◌, ◌-◌, ◌≤◌, ◌<◌, ◌≡◌, refl, sym, ap, ◌∙◌, min, Option, none, some, List, [], ◌++◌, length,
  take, drop, ◌==◌, arith, Bool-cases, inl, inr,
}
use mini_sub2api.Base.Json.{Value}
use mini_sub2api.Sse.Progress.{Class}
use mini_sub2api.Sse.Frame.{Frame, scan}
use mini_sub2api.Sse.Reader.{
  Delivery, SseReader, Outcome, deadline, class_of, note_class, take_event, read_pending,
}
use mini_sub2api.Sse.Stream.{emit, emptied, stream, resume, stream-scan, scan-take, scan-takes}
use mini_sub2api.Sse.Outlook.{
  incoming_bytes, outlook, length-drop, length-take, stream-large, weight, ahead-le, Later, Quiet,
}

module _ (utf8 : List ℕ → Option (List ℕ)) (trim : List ℕ → List ℕ) (parse : List ℕ → Option Value)
    (limit : ℕ) where
  terminal-Later :
      (now tail : ℕ) (class : Class) (d : Option ℕ)
      → limit < tail
      → Later limit d
      → Later limit (elim d [
        | some d ↦ some d
        | none ↦ elim class [ Class.terminal ↦ some (now + tail) | _ ↦ none ]
      ])
  terminal-Later now tail class (some d) h k = k
  terminal-Later now tail Class.terminal none h k = omega arith
  terminal-Later now tail Class.status none h k = tt
  terminal-Later now tail Class.text none h k = tt
  terminal-Later now tail Class.reasoning none h k = tt
  terminal-Later now tail Class.tool none h k = tt
  terminal-Later now tail Class.media none h k = tt
  terminal-Later now tail Class.item none h k = tt
  terminal-Later now tail Class.empty none h k = tt
  terminal-Later now tail Class.other none h k = tt
  terminal-Later now tail Class.invalid none h k = tt

  pub note_class-Quiet :
      (now : ℕ) (class : Option Class) (r : SseReader)
      → Quiet limit r
      → Quiet limit (note_class utf8 trim parse now class r)
  unfolding note_class
  note_class-Quiet now none r q = q
  note_class-Quiet now (some class) r q = record {
    idle_later = omega (arith, q.idle_long);
    output_later = ground (arith, q.output_long, q.output_later);
    terminal_later =
        terminal-Later now r.timeouts.terminal_tail class r.terminal_deadline q.tail_long
          q.terminal_later;
    idle_long = q.idle_long;
    output_long = q.output_long;
    tail_long = q.tail_long;
  }

  pub note_class-outlook :
      (now : ℕ) (class : Option Class) (r : SseReader)
      → (outlook (note_class utf8 trim parse now class r) ≡ outlook r)
        × (weight (note_class utf8 trim parse now class r) ≡ weight r)
  unfolding note_class
  note_class-outlook now none r = (refl, refl)
  note_class-outlook now (some class) r = (refl, refl)

  soonest :
      (d : Option ℕ) (i o : ℕ)
      → Later limit d
      → limit < i
      → limit < o
      → limit < elim d [ none ↦ min i o | some d ↦ d ]
  soonest none i o h j k = ground arith
  soonest (some d) i o h j k = h

  pub deadline-later : (r : SseReader) → Quiet limit r → limit < deadline r
  unfolding deadline
  deadline-later r q =
      soonest r.terminal_deadline r.idle_deadline r.output_deadline q.terminal_later q.idle_later
        q.output_later

  abbrev pub moved : SseReader → Option (List Delivery) → Frame → ℕ → List ℕ → SseReader
  moved r i f e p = record r { incoming = i; frame = f; event_bytes = e; pending = p }

  pub moved-Quiet :
      (r : SseReader) (i : Option (List Delivery)) (f : Frame) (e : ℕ) (p : List ℕ)
      → Quiet limit r
      → Quiet limit (moved r i f e p)
  moved-Quiet r i f e p q = record {
    idle_later = q.idle_later;
    output_later = q.output_later;
    terminal_later = q.terminal_later;
    idle_long = q.idle_long;
    output_long = q.output_long;
    tail_long = q.tail_long;
  }

  abbrev available : SseReader → ℕ
  available r = min (r.maximum - r.event_bytes) (length r.pending)

  -- What a round does to the reading that is ahead.
  abbrev pub Follows : SseReader → Outcome → Type 0
  Follows r (Outcome.again r') = Quiet limit r' × (weight r' < weight r) × (outlook r ≡ outlook r')
  Follows r (Outcome.event e r') =
      Quiet limit r' × (weight r' < weight r) × (outlook r ≡ emit e (outlook r'))
  Follows r (Outcome.finished r') = outlook r ≡ ([], none)
  Follows r (Outcome.error x r') = outlook r ≡ ([], some x)

  pub read_pending-Follows :
      (now : ℕ) (r : SseReader)
      → Quiet limit r
      → 0 < length r.pending
      → Follows r (read_pending utf8 trim parse now r)
  unfolding read_pending take_event
  read_pending-Follows now r q h = elim (Bool-cases (available r == 0)) [
    | inl full ↦
        rw (full, read_pending)
          (stream-large r.maximum (incoming_bytes r.incoming).1 r.event_bytes r.pending
            (incoming_bytes r.incoming).0 r.frame h (ground arith))
    | inr room ↦
        let n = available r in
        let s = scan (take n r.pending) r.frame in
        let more = (incoming_bytes r.incoming).0 in
        let ending = (incoming_bytes r.incoming).1 in
        let fits : n ≤ length r.pending = ground arith in
        let some_room : 0 < n = ground arith in
        let cut = length-take n r.pending fits in
        let taken = scan-take (take n r.pending) r.frame in
        let takes = scan-takes (take n r.pending) r.frame (omega arith) in
        let left = length-drop s.take r.pending (omega arith) in
        let read =
          stream-scan r.maximum (incoming_bytes r.incoming).1 n r.event_bytes r.pending more r.frame
            fits (ground arith) in
        elim (Bool-cases s.complete) [
          | inl complete ↦
              let after : SseReader =
                moved r r.incoming (emptied s.frame) 0 (drop s.take r.pending) in
              let class = class_of utf8 trim parse s.frame.buffer in
              let resumed : resume r.maximum ending r.event_bytes s r.pending more
                  ≡ emit s.frame.buffer (outlook after) =
                rw complete in
              let (same, weighs) = note_class-outlook now class after in
              rw (room, complete, read_pending)
                (
                  note_class-Quiet now class after
                      (moved-Quiet r r.incoming (emptied s.frame) 0 (drop s.take r.pending) q),
                  omega (arith, left, takes, weighs, ahead-le r.incoming [] r.frame.buffer),
                  read ∙ resumed ∙ ap (emit s.frame.buffer) (sym same),
                )
          | inr part ↦
              let resumed : resume r.maximum ending r.event_bytes s r.pending more
                  ≡ stream r.maximum ending (r.event_bytes + s.take) (drop s.take r.pending ++ more)
                      s.frame =
                rw part in
              rw (room, part, read_pending)
                (
                  moved-Quiet r r.incoming s.frame (r.event_bytes + s.take) (drop s.take r.pending)
                      q,
                  omega (arith, left, takes, ahead-le r.incoming s.frame.buffer r.frame.buffer),
                  read ∙ resumed,
                )
        ]
  ]
