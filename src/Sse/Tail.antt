-- ===== src/Sse/Tail.antt =====
-- The deadline that the first terminal event of src/core/codex/src/response_sse_reader.rs sets.
use mini_sub2api.Base.{
  ℕ, ◌≤◌, ◌≡◌, refl, false, Option, none, some, List, [], ◌∷◌, ltb, ◌==◌, length, take, min, ◌-◌,
  arith, Bool-cases, inl, inr,
}
use mini_sub2api.Base.Json.{Value}
use mini_sub2api.Sse.Progress.{Class}
use mini_sub2api.Sse.Frame.{scan}
use mini_sub2api.Sse.Reader.{
  SseReadError, Delivery, SseReader, Turn, Outcome, note_class, take_event, check_deadline,
  read_pending, receive, turn, deadline, close,
}

-- The reader that a round leaves.
abbrev pub left_by : Outcome → SseReader
left_by (Outcome.again r) = r
left_by (Outcome.finished r) = r
left_by (Outcome.event e r) = r
left_by (Outcome.error x r) = r

module _ (utf8 : List ℕ → Option (List ℕ)) (trim : List ℕ → List ℕ)
    (parse : List ℕ → Option Value) where
  note_class-tail :
      (now d : ℕ) (class : Option Class) (r : SseReader)
      → r.terminal_deadline ≡ some d
      → (note_class utf8 trim parse now class r).terminal_deadline ≡ some d
  unfolding note_class
  note_class-tail now d none r h = h
  note_class-tail now d (some class) r h = rw h

  read_pending-tail :
      (now d : ℕ) (r : SseReader)
      → r.terminal_deadline ≡ some d
      → (left_by (read_pending utf8 trim parse now r)).terminal_deadline ≡ some d
  unfolding read_pending take_event close
  read_pending-tail now d r h =
      elim (Bool-cases (min (r.maximum - r.event_bytes) (length r.pending) == 0)) [
        | inl full ↦ rw (full, read_pending) h
        | inr room ↦
            elim (Bool-cases
              (scan (take (min (r.maximum - r.event_bytes) (length r.pending)) r.pending)
                r.frame).complete) [
                  | inl complete ↦ rw (room, complete, read_pending) (note_class-tail now d _ _ h)
                  | inr part ↦ rw (room, part, read_pending) h
                ]
      ]

  receive-tail :
      (t : Turn) (d : ℕ) (i : Option (List Delivery)) (b : List ℕ) (r : SseReader)
      → r.terminal_deadline ≡ some d
      → let r' = record r { incoming = i; frame = record r.frame { buffer = b } } in
        (left_by (receive utf8 trim parse t r')).terminal_deadline ≡ some d
  unfolding receive take_event close
  receive-tail t d none [] r h = h
  receive-tail t d none (x ∷ xs) r h = note_class-tail t.taken_at d _ _ h
  receive-tail t d (some ds) b r h = elim (Bool-cases t.elapsed) [
    | inl late ↦ rw (late, receive) h
    | inr early ↦ rw (early, receive) (delivered ds)
  ]
    where
      r' : SseReader
      r' = record r { incoming = some ds; frame = record r.frame { buffer = b } }

      delivered :
          (es : List Delivery)
          → (left_by (elim es [
            | [] ↦ Outcome.again (record r' { incoming = none })
            | Delivery.bytes chunk ∷ rest ↦
                Outcome.again (record r' { incoming = some rest; pending = chunk })
            | Delivery.failed ∷ rest ↦ Outcome.error SseReadError.upstream (close r')
          ])).terminal_deadline
            ≡ some d
      delivered [] = h
      delivered (Delivery.bytes chunk ∷ rest) = h
      delivered (Delivery.failed ∷ rest) = h

  -- What a round does after the check of the deadline.
  abbrev go_on : Turn → SseReader → Outcome
  go_on t r = elim r.pending [
    | [] ↦ receive utf8 trim parse t r
    | _ ∷ _ ↦ read_pending utf8 trim parse t.taken_at r
  ]

  go_on-tail :
      (t : Turn) (d : ℕ) (r : SseReader) (p : List ℕ)
      → r.terminal_deadline ≡ some d
      → (left_by (go_on t (record r { pending = p }))).terminal_deadline ≡ some d
  go_on-tail t d r [] h = receive-tail t d r.incoming r.frame.buffer (record r { pending = [] }) h
  go_on-tail t d r (b ∷ bs) h = read_pending-tail t.taken_at d (record r { pending = b ∷ bs }) h

  turn-tail_from :
      (t : Turn) (d : ℕ) (r : SseReader) (i : Option (List Delivery))
      → r.terminal_deadline ≡ some d
      → let r' = record r { incoming = i } in
        (left_by (turn utf8 trim parse t r')).terminal_deadline ≡ some d
  unfolding turn check_deadline
  turn-tail_from t d r none h = go_on-tail t d (record r { incoming = none }) r.pending h
  turn-tail_from t d r (some ds) h = elim (Bool-cases (ltb t.now (deadline r'))) [
    | inl early ↦ rw (early, turn) (go_on-tail t d r' r.pending h)
    | inr late ↦ rw (late, h, turn) (go_on-tail t d (record r { incoming = none }) r.pending h)
  ]
    where
      r' : SseReader
      r' = record r { incoming = some ds }

  -- Once a terminal event has set the deadline of the tail, no round changes it, whatever it reads,
  -- further terminal events included, and however it ends.
  pub turn-terminal_deadline :
      (t : Turn) (d : ℕ) (r : SseReader)
      → r.terminal_deadline ≡ some d
      → (left_by (turn utf8 trim parse t r)).terminal_deadline ≡ some d
  turn-terminal_deadline t d r h = turn-tail_from t d r r.incoming h

  pub late_turn :
      (t : Turn) (d : ℕ) (r : SseReader) (i : Option (List Delivery))
      → r.terminal_deadline ≡ some d
      → d ≤ t.now
      → turn utf8 trim parse t (record r { incoming = i })
        ≡ turn utf8 trim parse t (record r { incoming = none })
  unfolding turn check_deadline deadline
  late_turn t d r none h late = refl
  late_turn t d r (some ds) h late =
      let over : ltb t.now d ≡ false = ground arith in rw (h, turn) (rw over)
