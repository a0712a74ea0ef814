-- ===== src/Sse/Frame.antt =====
-- src/core/codex/src/response_sse_reader.rs: the framing of `next_event`, on the bytes received.
use mini_sub2api.Base.{
  ℕ, suc, ◌+◌, min, Bool, true, false, ◌&&◌, List, [], ◌∷◌, ◌++◌, length, ◌==◌, if◌then◌else◌,
  same_codes,
}
use mini_sub2api.Sse.Payload.{line_feed, carriage_return, is_break}

-- The fields of `SseReader` that the framing uses; `event_bytes` is kept beside them.
pub record Frame : Type 0 where
  pub buffer : List ℕ
  pub line_length : ℕ
  pub line_cr : Bool
  pub stream_start : Bool

abbrev pub byte_order_mark : List ℕ
byte_order_mark = 0xef ∷ 0xbb ∷ 0xbf ∷ []

-- `self.line_length.saturating_add(1).min(2)` on a byte.
abbrev pub longer : ℕ → ℕ
longer n = min (min (n + 1) 255) 2

-- The test for a byte order mark after a byte of a line was pushed.
unfoldable pub skip_mark : Frame → Frame
skip_mark f =
    if f.stream_start && (length f.buffer == 3)
    then if same_codes f.buffer byte_order_mark
      then record f { buffer = []; line_length = 0; stream_start = false }
      else record f { stream_start = false }
    else f

-- The body of the `for` loop: the framing after a byte, and whether the event is complete.
unfoldable pub frame_byte : ℕ → Frame → Frame × Bool
unfolding skip_mark
frame_byte byte f =
    if f.line_cr && (byte == line_feed)
    then (record f { line_cr = false }, false)
    else if is_break byte
    then (
      record f {
        line_cr = byte == carriage_return;
        buffer = f.buffer ++ line_feed ∷ [];
        line_length = 0;
      },
      f.line_length == 0,
    )
    else (
      skip_mark (record f {
        line_cr = byte == carriage_return;
        buffer = f.buffer ++ byte ∷ [];
        line_length = longer f.line_length;
      }),
      false,
    )

pub record Scan : Type 0 where
  pub frame : Frame
  pub take : ℕ
  pub complete : Bool

-- The `for` loop over the bytes that are available.
unfoldable pub scan : List ℕ → Frame → Scan
unfolding frame_byte
scan [] f = record { frame = f; take = 0; complete = false }
scan (byte ∷ bytes) f =
    let next = frame_byte byte f in
    let rest = scan bytes next.0 in
    if next.1
    then record { frame = next.0; take = 1; complete = true }
    else record rest { take = suc rest.take }
