-- ===== src/AsciiJson.antt =====
-- src/core/codex/src/ascii_json.rs: the JSON formatter that leaves no character outside ASCII. Texts
-- are lists of code points; what is written is ASCII, one byte for each code point.
pub mod Roundtrip
use mini_sub2api.Base.{ℕ, ◌+◌, ◌-◌, ◌/◌, ◌%◌, List, [], ◌∷◌, ◌++◌, leb, ltb, if◌then◌else◌}

-- `{code_unit:04x}`
unfoldable pub hex_digit : ℕ → ℕ
hex_digit d = if ltb d 10 then 48 + d else 87 + d

unfoldable pub hex4 : ℕ → List ℕ
hex4 u =
    hex_digit (u / 4096 % 16)
    ∷ hex_digit (u / 256 % 16)
    ∷ hex_digit (u / 16 % 16)
    ∷ hex_digit (u % 16)
    ∷ []

-- `char::encode_utf16`
unfoldable pub encode_utf16 : ℕ → List ℕ
encode_utf16 c =
    if ltb c 0x10000
    then c ∷ []
    else (0xd800 + (c - 0x10000) / 1024) ∷ (0xdc00 + (c - 0x10000) % 1024) ∷ []

-- The inner loop: `\u` and the digits of each unit.
unfoldable pub write_units : List ℕ → List ℕ
write_units [] = []
write_units (u ∷ us) = 92 ∷ 117 ∷ (hex4 u ++ write_units us)

-- The loop over the characters; `run` is the text from `start` on, all of it ASCII.
unfoldable pub write_from : List ℕ → List ℕ → List ℕ
write_from run [] = run
write_from run (c ∷ cs) =
    let more = write_from (run ++ c ∷ []) cs in
    let fresh = write_from [] cs in
    if leb c 127 then more else run ++ (write_units (encode_utf16 c) ++ fresh)

unfoldable pub write_string_fragment : List ℕ → List ℕ
unfolding write_from
write_string_fragment fragment = write_from [] fragment
