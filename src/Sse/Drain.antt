-- ===== src/Sse/Drain.antt =====
-- The end of a reading of src/core/codex/src/response_sse_reader.rs after the deadline of the tail.
use mini_sub2api.Base.{
  ℕ, ◌+◌, ◌-◌, ◌*◌, ◌≤◌, ◌<◌, ◌≡◌, refl, sym, ap, ◌∙◌, subst, false, Option, none, some, List, [],
  ◌∷◌, length, take, drop, min, ◌==◌, arith, Bool-cases, inl, inr,
}
use mini_sub2api.Base.Json.{Value}
use mini_sub2api.Sse.Progress.{Class}
use mini_sub2api.Sse.Frame.{Frame, Scan, scan}
use mini_sub2api.Sse.Reader.{
  SseReadError, SseReader, Turn, Outcome, class_of, note_class, take_event, check_deadline,
  read_pending, receive, turn, read_all,
}
use mini_sub2api.Sse.Stream.{scan-take, scan-takes}
use mini_sub2api.Sse.Outlook.{ahead, ahead-le, ahead-pos, weight, length-drop, length-take}
use mini_sub2api.Sse.Tail.{late_turn}

-- A round that goes on leaves less to do, and no upstream.
abbrev Drains : SseReader → Outcome → Type 0
Drains r (Outcome.again r') = (r'.incoming ≡ none) × (weight r' < weight r)
Drains r (Outcome.event e r') = (r'.incoming ≡ none) × (weight r' < weight r)
Drains r (Outcome.finished r') = Unit
Drains r (Outcome.error x r') = Unit

module _ (utf8 : List ℕ → Option (List ℕ)) (trim : List ℕ → List ℕ)
    (parse : List ℕ → Option Value) where
  -- The reader with no upstream, a frame, a count of bytes and bytes that are pending.
  abbrev without : SseReader → Frame → ℕ → List ℕ → SseReader
  without r f n p = record r { incoming = none; frame = f; event_bytes = n; pending = p }

  note_class-without :
      (now : ℕ) (class : Option Class) (r : SseReader)
      → let r' = note_class utf8 trim parse now class r in
        (r'.incoming ≡ r.incoming) × (weight r' ≡ weight r)
  unfolding note_class
  note_class-without now none r = (refl, refl)
  note_class-without now (some class) r = (refl, refl)

  read_pending-Drains :
      (now n : ℕ) (r : SseReader) (f : Frame) (p : List ℕ)
      → 0 < length p
      → Drains (without r f n p) (read_pending utf8 trim parse now (without r f n p))
  unfolding read_pending take_event
  read_pending-Drains now n r f p h =
      let k : ℕ = min (r.maximum - n) (length p) in
      let s : Scan = scan (take k p) f in
      elim (Bool-cases (k == 0)) [
        | inl full ↦ rw (full, read_pending) tt
        | inr room ↦
            let cut = length-take k p (ground arith) in
            let some_room : 0 < k = ground arith in
            let taken = scan-take (take k p) f in
            let takes = scan-takes (take k p) f (omega arith) in
            let left = length-drop s.take p (omega arith) in
            elim (Bool-cases s.complete) [
              | inl complete ↦
                  let after : SseReader =
                    without r (record s.frame { buffer = []; stream_start = false }) 0
                      (drop s.take p) in
                  let class = class_of utf8 trim parse s.frame.buffer in
                  let (kept, weighs) = note_class-without now class after in
                  rw (room, complete, read_pending)
                    (kept, omega (arith, left, takes, weighs, ahead-le none [] f.buffer))
              | inr part ↦
                  rw (room, part, read_pending)
                    (refl, omega (arith, left, takes, ahead-le none s.frame.buffer f.buffer))
            ]
      ]

  receive-Drains :
      (t : Turn) (n : ℕ) (r : SseReader) (f : Frame) (b : List ℕ)
      → let r' = without r (record f { buffer = b }) n [] in
        Drains r' (receive utf8 trim parse t r')
  unfolding receive take_event
  receive-Drains t n r f [] = tt
  receive-Drains t n r f (x ∷ xs) =
      let after : SseReader = without r (record f { buffer = [] }) 0 [] in
      let (kept, weighs) =
        note_class-without t.taken_at (class_of utf8 trim parse (x ∷ xs)) after in
      (kept, omega (arith, weighs))

  turn-Drains_from :
      (t : Turn) (n : ℕ) (r : SseReader) (f : Frame) (p : List ℕ)
      → Drains (without r f n p) (turn utf8 trim parse t (without r f n p))
  unfolding turn check_deadline
  turn-Drains_from t n r f [] = receive-Drains t n r f f.buffer
  turn-Drains_from t n r f (b ∷ bs) = read_pending-Drains t.taken_at n r f (b ∷ bs) (omega arith)

  turn-Drains : (t : Turn) (r : SseReader) → r.incoming ≡ none → Drains r (turn utf8 trim parse t r)
  turn-Drains t r e =
      subst
        (λ i.
          Drains (record r { incoming = i }) (turn utf8 trim parse t (record r { incoming = i })))
        (sym e) (turn-Drains_from t r.event_bytes r r.frame r.pending)

  -- The reading ends within the rounds.
  abbrev pub EndsIn : List Turn → SseReader → Type 0
  EndsIn ts r = (ending : Option SseReadError) × ((read_all utf8 trim parse ts r).1 ≡ some ending)

  go_on-EndsIn :
      (t : Turn) (ts : List Turn) (r : SseReader) (o : Outcome)
      → turn utf8 trim parse t r ≡ o
      → Drains r o
      → ((r' : SseReader) → r'.incoming ≡ none → weight r' < weight r → EndsIn ts r')
      → EndsIn (t ∷ ts) r
  unfolding read_all
  go_on-EndsIn t ts r (Outcome.again r') e (cut, less) rec = rw (e, read_all) (rec r' cut less)
  go_on-EndsIn t ts r (Outcome.event event r') e (cut, less) rec =
      rw (e, read_all) (rec r' cut less)
  go_on-EndsIn t ts r (Outcome.finished r') e h rec = rw (e, read_all) (none, refl)
  go_on-EndsIn t ts r (Outcome.error x r') e h rec = rw (e, read_all) (some x, refl)

  none-EndsIn :
      (ts : List Turn) (r : SseReader) → r.incoming ≡ none → weight r ≤ length ts → EndsIn ts r
  none-EndsIn [] r e enough = absurd (omega (arith, ahead-pos r.incoming r.frame.buffer))
  none-EndsIn (t ∷ ts) r e enough =
      go_on-EndsIn t ts r (turn utf8 trim parse t r) refl (turn-Drains t r e)
        (λ r' cut less. none-EndsIn ts r' cut (omega arith))

  none_weight :
      (r : SseReader) (b : List ℕ) → 2 * length r.pending + ahead none b ≤ 2 * length r.pending + 2
  none_weight r [] = omega arith
  none_weight r (x ∷ xs) = omega arith

  same_reading :
      (t : Turn) (ts : List Turn) (r q : SseReader)
      → turn utf8 trim parse t r ≡ turn utf8 trim parse t q
      → read_all utf8 trim parse (t ∷ ts) r ≡ read_all utf8 trim parse (t ∷ ts) q
  unfolding read_all
  same_reading t ts r q e =
      ap
        (λ o. elim o [
          | Outcome.again r' ↦ read_all utf8 trim parse ts r'
          | Outcome.finished r' ↦ ([], some none)
          | Outcome.error x r' ↦ ([], some (some x))
          | Outcome.event event r' ↦
              let rest = read_all utf8 trim parse ts r' in (event ∷ rest.0, rest.1)
        ])
        e

  -- A reading whose first round comes after the deadline of the tail returns what it would return if
  -- the upstream had ended, whatever the upstream still delivers or withholds; and with two
  -- rounds for each byte that is pending and two more, whenever the later rounds happen, it ends, with
  -- the end of the stream or an error.
  pub read_all-after_tail :
      (t : Turn) (ts : List Turn) (d : ℕ) (r : SseReader)
      → r.terminal_deadline ≡ some d
      → d ≤ t.now
      → 2 * length r.pending + 2 ≤ length (t ∷ ts)
      → (read_all utf8 trim parse (t ∷ ts) r
          ≡ read_all utf8 trim parse (t ∷ ts) (record r { incoming = none }))
        × EndsIn (t ∷ ts) r
  read_all-after_tail t ts d r h late enough =
      let same =
        same_reading t ts r (record r { incoming = none })
          (late_turn utf8 trim parse t d r r.incoming h late) in
      let (ending, e) =
        none-EndsIn (t ∷ ts) (record r { incoming = none }) refl
          (omega (arith, none_weight r r.frame.buffer)) in
      (same, (ending, ap (λ z. z.1) same ∙ e))
