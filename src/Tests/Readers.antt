-- ===== src/Tests/Readers.antt =====
-- The event reader and the classifier at small inputs.
use mini_sub2api.Base.{
  String, inl, inr, true, ℕ, zero, suc, ◌≡◌, refl, false, none, some, List, [], ◌∷◌, replicate, All,
  lowercase, same_codes, to_ascii_lowercase, arith,
}
use mini_sub2api.Base.Json.{Value, Fields}
use mini_sub2api.Sse.Progress.{classify}
use mini_sub2api.Sse.Reader.{
  Timeouts, Delivery, Turn, first_frame, with_timeouts, read_all, SseReader, turn,
}
use mini_sub2api.Sse.Stream.{stream, received}
use mini_sub2api.Sse.Outlook.{Prompt}
use mini_sub2api.Sse.Reading.{read_all-stream}
use mini_sub2api.Sse.Events.{IsFramed, read_all-IsFramed}
use mini_sub2api.Sse.Tail.{left_by, turn-terminal_deadline}
use mini_sub2api.Sse.Drain.{EndsIn, read_all-after_tail}
use mini_sub2api.Sse.Classes.{append_fields, classify-foreign, classify-case}

abbrev long_timeouts : Timeouts
long_timeouts = record { idle = 300; output_idle = 300; terminal_tail = 11 }

-- `data: a` and a blank line, with line breaks cut by the deliveries, and the start of an event.
abbrev deliveries : List Delivery
deliveries =
    Delivery.bytes (100 ∷ 97 ∷ 116 ∷ 97 ∷ 58 ∷ 32 ∷ 97 ∷ 13 ∷ [])
    ∷ Delivery.bytes (10 ∷ 13 ∷ [])
    ∷ Delivery.bytes (10 ∷ 58 ∷ [])
    ∷ []

abbrev prompt_turn : Turn
prompt_turn = record { now = 1; taken_at = 2; elapsed = false }

All-Prompt : (n : ℕ) → All (Prompt 10) (replicate n prompt_turn)
All-Prompt zero = tt
All-Prompt (suc n) = ((omega arith, refl), All-Prompt n)

read_all-stream_example :
    read_all
      (λ bytes. some bytes)
      (λ text. text)
      (λ _. none)
      (replicate 40 prompt_turn)
      (with_timeouts 0 deliveries 20 long_timeouts)
    ≡ (
      (stream 20 (received deliveries).1 0 (received deliveries).0 first_frame).0,
      some (stream 20 (received deliveries).1 0 (received deliveries).0 first_frame).1,
    )
read_all-stream_example =
    read_all-stream (λ bytes. some bytes) (λ text. text) (λ _. none) 10 0 20 long_timeouts
      deliveries (replicate 40 prompt_turn) (omega arith) (omega arith) (omega arith)
      (All-Prompt 40) (omega arith)

read_all-IsFramed_example :
    All
      (IsFramed 20)
      (read_all
        (λ bytes. some bytes)
        (λ text. text)
        (λ _. none)
        (replicate 40 prompt_turn)
        (with_timeouts 0 deliveries 20 long_timeouts)).0
read_all-IsFramed_example =
    read_all-IsFramed (λ bytes. some bytes) (λ text. text) (λ _. none) 20 0 long_timeouts deliveries
      (replicate 40 prompt_turn)

abbrev kind_field : Fields
kind_field = Fields.field "type" (Value.string "response.output_text.delta") Fields.end

abbrev delta_field : Fields
delta_field = Fields.field "delta" (Value.string "hello") Fields.end

classify-foreign_example :
    classify (
      some (
        Value.object (
          append_fields kind_field
            (Fields.field "sequence_number" (Value.number "3") delta_field))))
    ≡ classify (some (Value.object (append_fields kind_field delta_field)))
unfolding lowercase same_codes to_ascii_lowercase
classify-foreign_example =
    classify-foreign "sequence_number" (Value.number "3") kind_field delta_field refl

abbrev item_event : String → String → Fields
item_event item kind =
    Fields.field item (Value.object (Fields.field kind (Value.string "reasoning") Fields.end))
      kind_field

classify-case_example :
    classify (some (Value.object (item_event "ITEM" "Type")))
    ≡ classify (some (Value.object (item_event "item" "type")))
unfolding lowercase to_ascii_lowercase
classify-case_example =
    classify-case (item_event "ITEM" "Type") (item_event "item" "type")
      (refl, inr (_, _, refl, refl, (refl, refl, tt)), (refl, inl refl, tt))

-- A reader whose first terminal event set the end of the tail to instant 1.
abbrev tail_reader : SseReader
tail_reader = record {
  incoming = some deliveries;
  frame = first_frame;
  event_bytes = 0;
  pending = 58 ∷ 10 ∷ 10 ∷ [];
  maximum = 20;
  timeouts = long_timeouts;
  idle_deadline = 300;
  output_deadline = 300;
  has_output = true;
  terminal_deadline = some 1;
}

turn-terminal_deadline_example :
    (left_by (
      turn
        (λ bytes. some bytes)
        (λ text. text)
        (λ _. none)
        prompt_turn
        tail_reader)).terminal_deadline
    ≡ some 1
turn-terminal_deadline_example =
    turn-terminal_deadline (λ bytes. some bytes) (λ text. text) (λ _. none) prompt_turn 1
      tail_reader refl

abbrev tail_turns : List Turn
tail_turns = replicate 7 prompt_turn

read_all-after_tail_example :
    (read_all
        (λ bytes. some bytes)
        (λ text. text)
        (λ _. none)
        (prompt_turn ∷ tail_turns)
        tail_reader
      ≡ read_all
          (λ bytes. some bytes)
          (λ text. text)
          (λ _. none)
          (prompt_turn ∷ tail_turns)
          (record tail_reader { incoming = none }))
    × EndsIn (λ bytes. some bytes) (λ text. text) (λ _. none) (prompt_turn ∷ tail_turns) tail_reader
read_all-after_tail_example =
    read_all-after_tail (λ bytes. some bytes) (λ text. text) (λ _. none) prompt_turn tail_turns 1
      tail_reader refl (omega arith) (omega arith)
