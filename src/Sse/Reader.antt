-- ===== src/Sse/Reader.antt =====
-- src/core/codex/src/response_sse_reader.rs: the reader and `next_event`. The instants that the
-- code reads and whether a wait runs into its deadline are given turn by turn; what the upstream
-- will deliver is part of the state. Diagnostics are left out: nothing reads them back.
use mini_sub2api.Base.{
  ℕ, ◌+◌, ◌-◌, min, Bool, true, false, Option, none, some, List, [], ◌∷◌, length, take, drop, ltb,
  ◌==◌, ◌⊎◌, inl, inr, same_codes, if◌then◌else◌,
}
use mini_sub2api.Base.Json.{Value}
use mini_sub2api.Sse.Progress.{Class, is_output, classify}
use mini_sub2api.Sse.Payload.{data_payload}
use mini_sub2api.Sse.Frame.{Frame, scan}

pub record Timeouts : Type 0 where
  pub idle : ℕ
  pub output_idle : ℕ
  pub terminal_tail : ℕ

pub data SseReadError : Type 0 where
  upstream event_too_large idle_timeout first_output_timeout output_idle_timeout : SseReadError

-- What `upstream.next()` delivers: bytes or a read error.
pub data Delivery : Type 0 where
  bytes : List ℕ → Delivery
  failed : Delivery

pub record SseReader : Type 0 where
  pub incoming : Option (List Delivery)
  pub frame : Frame
  pub event_bytes : ℕ
  pub pending : List ℕ
  pub maximum : ℕ
  pub timeouts : Timeouts
  pub idle_deadline : ℕ
  pub output_deadline : ℕ
  pub has_output : Bool
  pub terminal_deadline : Option ℕ

abbrev pub first_frame : Frame
first_frame = record { buffer = []; line_length = 0; line_cr = false; stream_start = true }

unfoldable pub with_timeouts : ℕ → List Delivery → ℕ → Timeouts → SseReader
with_timeouts now deliveries maximum timeouts = record {
  incoming = some deliveries;
  frame = first_frame;
  event_bytes = 0;
  pending = [];
  maximum = maximum;
  timeouts = timeouts;
  idle_deadline = now + timeouts.idle;
  output_deadline = now + timeouts.output_idle;
  has_output = false;
  terminal_deadline = none;
}

unfoldable pub close : SseReader → SseReader
close r = record r { incoming = none; frame = record r.frame { buffer = [] }; pending = [] }

unfoldable pub deadline : SseReader → ℕ
deadline r = elim r.terminal_deadline [ none ↦ min r.idle_deadline r.output_deadline | some d ↦ d ]

-- The instants that one round of the loop reads, and whether its wait ends without a delivery.
pub record Turn : Type 0 where
  pub now : ℕ
  pub taken_at : ℕ
  pub elapsed : Bool

-- How one round of the loop ends.
pub data Outcome : Type 0 where
  again finished : SseReader → Outcome
  event : List ℕ → SseReader → Outcome
  error : SseReadError → SseReader → Outcome

-- The text that marks the end of a stream.
abbrev pub done_marker : List ℕ
done_marker = 91 ∷ 68 ∷ 79 ∷ 78 ∷ 69 ∷ 93 ∷ []

-- `std::str::from_utf8` as code points, `str::trim`, and the parser of JSON.
module _ (utf8 : List ℕ → Option (List ℕ)) (trim : List ℕ → List ℕ)
    (parse : List ℕ → Option Value) where
  -- The class of an event that has data other than blanks and the end marker.
  unfoldable pub class_of : List ℕ → Option Class
  class_of buffer = elim (utf8 buffer) [
    | none ↦ none
    | some text ↦ elim (data_payload text) [
      | none ↦ none
      | some data_text ↦
          if same_codes (trim data_text) []
          then none
          else if same_codes (trim data_text) done_marker
          then none
          else some (classify (parse data_text))
    ]
  ]

  -- The deadlines after an event of a class.
  unfoldable pub note_class : ℕ → Option Class → SseReader → SseReader
  note_class now none r = r
  note_class now (some class) r = record r {
    idle_deadline = now + r.timeouts.idle;
    has_output = if is_output class then true else r.has_output;
    output_deadline = if is_output class then now + r.timeouts.output_idle else r.output_deadline;
    terminal_deadline = elim r.terminal_deadline [
      | some d ↦ some d
      | none ↦ elim class [ Class.terminal ↦ some (now + r.timeouts.terminal_tail) | _ ↦ none ]
    ];
  }

  -- `take_event`, which returns the buffer and leaves it empty.
  unfoldable pub take_event : ℕ → SseReader → SseReader
  unfolding note_class
  take_event now r =
      note_class now (class_of r.frame.buffer)
        (record r { frame = record r.frame { buffer = [] }; event_bytes = 0 })

  -- The deadline check at the head of the loop: the error of a deadline that has passed, or the
  -- reader that goes on.
  unfoldable pub check_deadline : ℕ → SseReader → SseReader ⊎ SseReadError
  check_deadline now r = elim r.incoming [
    | none ↦ inl r
    | some _ ↦ if ltb now (deadline r) then inl r else elim r.terminal_deadline [
      | some _ ↦ inl (record r { incoming = none })
      | none ↦ inr (
          if ltb r.output_deadline r.idle_deadline
          then if r.has_output
            then SseReadError.output_idle_timeout
            else SseReadError.first_output_timeout
          else SseReadError.idle_timeout)
    ]
  ]

  -- The round for bytes that are pending.
  unfoldable pub read_pending : ℕ → SseReader → Outcome
  unfolding take_event close
  read_pending now r =
      let available = min (r.maximum - r.event_bytes) (length r.pending) in
      let s = scan (take available r.pending) r.frame in
      let r' = record r {
        frame = s.frame;
        event_bytes = r.event_bytes + s.take;
        pending = drop s.take r.pending;
      } in
      if available == 0
      then Outcome.error SseReadError.event_too_large (close r)
      else if s.complete
      then Outcome.event s.frame.buffer
          (take_event now (record r' { frame = record s.frame { stream_start = false } }))
      else Outcome.again r'

  -- The round that waits for the upstream, or ends after it.
  unfoldable pub receive : Turn → SseReader → Outcome
  unfolding take_event close
  receive t r = elim r.incoming [
    | none ↦ elim r.frame.buffer [
      | [] ↦ Outcome.finished r
      | _ ∷ _ ↦ Outcome.event r.frame.buffer (take_event t.taken_at r)
    ]
    | some deliveries ↦ if t.elapsed then Outcome.again r else elim deliveries [
      | [] ↦ Outcome.again (record r { incoming = none })
      | Delivery.bytes chunk ∷ rest ↦
          Outcome.again (record r { incoming = some rest; pending = chunk })
      | Delivery.failed ∷ rest ↦ Outcome.error SseReadError.upstream (close r)
    ]
  ]

  -- One round of the loop of `next_event`.
  unfoldable pub turn : Turn → SseReader → Outcome
  unfolding check_deadline read_pending receive close
  turn t r = elim (check_deadline t.now r) [
    | inr e ↦ Outcome.error e (close r)
    | inl r' ↦ elim r'.pending [ [] ↦ receive t r' | _ ∷ _ ↦ read_pending t.taken_at r' ]
  ]

  -- How a reading ends: the end of the stream or an error.
  abbrev pub Ending : Type 0
  Ending = Option SseReadError

  -- A client that calls `next_event` until it ends: the events, and the ending unless the turns
  -- run out.
  unfoldable pub read_all : List Turn → SseReader → List (List ℕ) × Option Ending
  unfolding turn
  read_all [] r = ([], none)
  read_all (t ∷ ts) r = elim (turn t r) [
    | Outcome.again r' ↦ read_all ts r'
    | Outcome.finished r' ↦ ([], some none)
    | Outcome.error e r' ↦ ([], some (some e))
    | Outcome.event e r' ↦ let rest = read_all ts r' in (e ∷ rest.0, rest.1)
  ]
