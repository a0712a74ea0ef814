-- ===== src/AsciiJson/Roundtrip.antt =====
-- What the formatter writes is ASCII, and reading its escapes gives the fragment back.
use mathlib.Core.List.{append_assoc, append-nil}
use mathlib.Core.Option.{some-injective, none-ne-some}
use mini_sub2api.Base.{
  ℕ, ◌+◌, ◌-◌, ◌*◌, ◌/◌, ◌%◌, ◌<◌, ◌≡◌, refl, sym, ap, ◌∙◌, Bool, true, false, ◌&&◌, ◌||◌, Option,
  none, some, List, [], ◌∷◌, ◌++◌, Option-cases, leb, ltb, ◌==◌, if◌then◌else◌, arith, Bool-cases,
  inl, inr, All, All-append, subst,
}
use mini_sub2api.AsciiJson.{
  hex_digit, hex4, encode_utf16, write_units, write_from, write_string_fragment,
}

-- A digit of an escape: 0 to 9, a to f or A to F.
abbrev pub is_hex : ℕ → Bool
is_hex c = (leb 48 c && leb c 57) || ((leb 97 c && leb c 102) || (leb 65 c && leb c 70))

abbrev pub hex_value : ℕ → ℕ
hex_value c = if leb c 57 then c - 48 else if leb c 70 then c - 55 else c - 87

abbrev pub unit_value : ℕ → ℕ → ℕ → ℕ → ℕ
unit_value a b c d = hex_value a * 4096 + hex_value b * 256 + hex_value c * 16 + hex_value d

-- What may stand after a backslash here: a small u and four digits.
abbrev pub is_escape : ℕ → ℕ → ℕ → ℕ → ℕ → Bool
is_escape u a b c d = (u == 117) && (is_hex a && (is_hex b && (is_hex c && is_hex d)))

abbrev pub push_unit : ℕ → Option (List ℕ) → Option (List ℕ)
push_unit u none = none
push_unit u (some us) = some (u ∷ us)

-- Reading the escapes: the code units of a text, or none where a backslash starts no escape.
unfoldable pub read_units : List ℕ → Option (List ℕ)
read_units (x ∷ u ∷ a ∷ b ∷ c ∷ d ∷ rest) =
    let escaped = push_unit (unit_value a b c d) (read_units rest) in
    let plain = push_unit x (read_units (u ∷ a ∷ b ∷ c ∷ d ∷ rest)) in
    if x == 92 then (if is_escape u a b c d then escaped else none) else plain
read_units (x ∷ xs) = let plain = push_unit x (read_units xs) in if x == 92 then none else plain
read_units [] = some []

abbrev pub is_high : ℕ → Bool
is_high u = leb 0xd800 u && ltb u 0xdc00

abbrev pub is_low : ℕ → Bool
is_low u = leb 0xdc00 u && ltb u 0xe000

-- Joining surrogate pairs: the code points of a list of code units. A surrogate with no partner stays.
unfoldable pub decode_utf16 : List ℕ → List ℕ
decode_utf16 [] = []
decode_utf16 (h ∷ []) = h ∷ []
decode_utf16 (h ∷ l ∷ us) =
    let paired = decode_utf16 us in
    let single = decode_utf16 (l ∷ us) in
    if is_high h && is_low l
    then (0x10000 + (h - 0xd800) * 1024 + (l - 0xdc00)) ∷ paired
    else h ∷ single

-- The text that is read.
abbrev pub decode_units : Option (List ℕ) → Option (List ℕ)
decode_units none = none
decode_units (some us) = some (decode_utf16 us)

abbrev pub read_text : List ℕ → Option (List ℕ)
read_text bytes = decode_units (read_units bytes)

-- A character of a fragment: a code point that is no surrogate, and no backslash, which the
-- serializer writes itself.
abbrev pub IsPlain : ℕ → Type 0
IsPlain c = (c < 0x110000) × (is_high c ≡ false) × ((c == 92) ≡ false)

hex_value-hex_digit : (n : ℕ) → n < 16 → hex_value (hex_digit n) ≡ n
unfolding hex_digit
hex_value-hex_digit n h = ground arith

is_hex-hex_digit : (n : ℕ) → n < 16 → is_hex (hex_digit n) ≡ true
unfolding hex_digit
is_hex-hex_digit n h = ground arith

read_units-plain :
    (c : ℕ) (xs : List ℕ) → (c == 92) ≡ false → read_units (c ∷ xs) ≡ push_unit c (read_units xs)
unfolding read_units
read_units-plain c [] h = rw h refl
read_units-plain c (_ ∷ []) h = rw h refl
read_units-plain c (_ ∷ _ ∷ []) h = rw h refl
read_units-plain c (_ ∷ _ ∷ _ ∷ []) h = rw h refl
read_units-plain c (_ ∷ _ ∷ _ ∷ _ ∷ []) h = rw h refl
read_units-plain c (_ ∷ _ ∷ _ ∷ _ ∷ _ ∷ rest) h = rw h refl

unit_value-hex4 :
    (u : ℕ)
    → u < 0x10000
    → unit_value
        (hex_digit (u / 4096 % 16))
        (hex_digit (u / 256 % 16))
        (hex_digit (u / 16 % 16))
        (hex_digit (u % 16))
      ≡ u
unit_value-hex4 u h = omega (
  arith,
  hex_value-hex_digit (u / 4096 % 16) (omega arith),
  hex_value-hex_digit (u / 256 % 16) (omega arith),
  hex_value-hex_digit (u / 16 % 16) (omega arith),
  hex_value-hex_digit (u % 16) (omega arith),
)

is_escape-hex4 :
    (u : ℕ)
    → is_escape 117
        (hex_digit (u / 4096 % 16))
        (hex_digit (u / 256 % 16))
        (hex_digit (u / 16 % 16))
        (hex_digit (u % 16))
      ≡ true
is_escape-hex4 u =
    rw
      (
        is_hex-hex_digit (u / 4096 % 16) (omega arith),
        is_hex-hex_digit (u / 256 % 16) (omega arith),
        is_hex-hex_digit (u / 16 % 16) (omega arith),
        is_hex-hex_digit (u % 16) (omega arith),
      )
      refl

-- The units that are read before the rest.
abbrev push_units : List ℕ → Option (List ℕ) → Option (List ℕ)
push_units us none = none
push_units us (some vs) = some (us ++ vs)

push_units-nil : (o : Option (List ℕ)) → o ≡ push_units [] o
push_units-nil none = refl
push_units-nil (some vs) = refl

push_units-cons :
    (u : ℕ) (us : List ℕ) (o : Option (List ℕ))
    → push_unit u (push_units us o) ≡ push_units (u ∷ us) o
push_units-cons u us none = refl
push_units-cons u us (some vs) = refl

read_units-write_units :
    (us xs : List ℕ)
    → All (λ u. u < 0x10000) us
    → read_units (write_units us ++ xs) ≡ push_units us (read_units xs)
unfolding read_units write_units hex4
read_units-write_units [] xs h = push_units-nil (read_units xs)
read_units-write_units (u ∷ us) xs h = rw (is_escape-hex4 u) (
    rw (unit_value-hex4 u h.0)
      (ap (push_unit u) (read_units-write_units us xs h.1) ∙ push_units-cons u us (read_units xs)))

decode_utf16-plain :
    (c : ℕ) (us : List ℕ) → is_high c ≡ false → decode_utf16 (c ∷ us) ≡ c ∷ decode_utf16 us
unfolding decode_utf16
decode_utf16-plain c [] h = refl
decode_utf16-plain c (l ∷ us) h = rw h refl

decode_utf16-encode_utf16 :
    (c : ℕ) (us : List ℕ) → IsPlain c → decode_utf16 (encode_utf16 c ++ us) ≡ c ∷ decode_utf16 us
unfolding encode_utf16 decode_utf16
decode_utf16-encode_utf16 c us (range, single, plain) = elim (Bool-cases (ltb c 0x10000)) [
  | inl basic ↦ rw (basic, encode_utf16) (decode_utf16-plain c us single)
  | inr astral ↦
      let high : is_high (0xd800 + (c - 0x10000) / 1024) ≡ true = ground arith in
      let joined : 0x10000
            + (0xd800 + (c - 0x10000) / 1024 - 0xd800) * 1024
            + (0xdc00 + (c - 0x10000) % 1024 - 0xdc00)
          ≡ c =
        ground arith in
      let low : is_low (0xdc00 + (c - 0x10000) % 1024) ≡ true = ground arith in
      rw (astral, encode_utf16)
        (rw (high, low, decode_utf16) (ap (λ z. z ∷ decode_utf16 us) joined))
]

encode_utf16-units : (c : ℕ) → c < 0x110000 → All (λ u. u < 0x10000) (encode_utf16 c)
unfolding encode_utf16
encode_utf16-units c range = elim (Bool-cases (ltb c 0x10000)) [
  | inl basic ↦ rw (basic, encode_utf16) (ground arith, tt)
  | inr astral ↦ rw (astral, encode_utf16) (omega arith, (omega arith, tt))
]

write_from-run : (run cs : List ℕ) → write_from run cs ≡ run ++ write_from [] cs
unfolding write_from
write_from-run run [] = sym (append-nil run)
write_from-run run (c ∷ cs) = elim (Bool-cases (leb c 127)) [
  | inl ascii ↦ rw ascii (
      write_from-run (run ++ c ∷ []) cs
      ∙ append_assoc run (c ∷ []) (write_from [] cs)
      ∙ ap (◌++◌ run) (sym (write_from-run (c ∷ []) cs)))
  | inr wide ↦ rw wide refl
]

-- What the loop writes for the first character.
write_from-cons :
    (c : ℕ) (cs : List ℕ)
    → write_from [] (c ∷ cs) ≡ (
        if leb c 127
        then c ∷ write_from [] cs
        else write_units (encode_utf16 c) ++ write_from [] cs)
unfolding write_from
write_from-cons c cs = elim (Bool-cases (leb c 127)) [
  | inl ascii ↦ rw ascii (write_from-run (c ∷ []) cs)
  | inr wide ↦ rw wide refl
]

read_text-cons :
    (c : ℕ) (us xs cs : List ℕ)
    → ((vs : List ℕ) → decode_utf16 (us ++ vs) ≡ c ∷ decode_utf16 vs)
    → read_units xs ≡ push_units us (read_units cs)
    → (ds : List ℕ) → read_text cs ≡ some ds
    → read_text xs ≡ some (c ∷ ds)
read_text-cons c us xs cs decoded read ds rest = elim (Option-cases (read_units cs)) [
  | inl e ↦
      let lost : none ≡ some ds = sym (ap decode_units e) ∙ rest in absurd (none-ne-some ds lost)
  | inr (vs, e) ↦
      let same : decode_utf16 vs ≡ ds =
        some-injective (decode_utf16 vs) ds (sym (ap decode_units e) ∙ rest) in
      ap decode_units (read ∙ ap (push_units us) e) ∙ ap some (decoded vs ∙ ap (◌∷◌ c) same)
]

-- What is written for a fragment is read as JSON reads it: every backslash starts an escape of a small
-- u and four hexadecimal digits, and joining surrogate pairs gives the fragment back, if its
-- characters are code points other than surrogates and the backslash.
pub read_text-write_string_fragment :
    (cs : List ℕ) → All IsPlain cs → read_text (write_string_fragment cs) ≡ some cs
unfolding write_string_fragment write_from read_units decode_utf16
read_text-write_string_fragment [] h = refl
read_text-write_string_fragment (c ∷ cs) h =
    let rest = read_text-write_string_fragment cs h.1 in
    elim (Bool-cases (leb c 127)) [
      | inl ascii ↦
          let wrote : write_from [] (c ∷ cs) ≡ c ∷ write_from [] cs =
            write_from-cons c cs ∙ rw ascii in
          ap read_text wrote
          ∙ read_text-cons c (c ∷ []) (c ∷ write_from [] cs) (write_from [] cs)
              (λ vs. decode_utf16-plain c vs h.0.1)
              (read_units-plain c (write_from [] cs) h.0.2
                ∙ (ap (push_unit c) (push_units-nil (read_units (write_from [] cs)))
                    ∙ push_units-cons c [] (read_units (write_from [] cs))))
              cs rest
      | inr wide ↦
          let wrote : write_from [] (c ∷ cs) ≡ write_units (encode_utf16 c) ++ write_from [] cs =
            write_from-cons c cs ∙ rw wide in
          ap read_text wrote
          ∙ read_text-cons c (encode_utf16 c) (write_units (encode_utf16 c) ++ write_from [] cs)
              (write_from [] cs) (λ vs. decode_utf16-encode_utf16 c vs h.0)
              (read_units-write_units (encode_utf16 c) (write_from [] cs)
                (encode_utf16-units c h.0.0))
              cs rest
    ]

abbrev pub IsAscii : ℕ → Type 0
IsAscii c = c < 128

hex_digit-IsAscii : (n : ℕ) → n < 16 → IsAscii (hex_digit n)
unfolding hex_digit
hex_digit-IsAscii n h = ground arith

write_units-IsAscii : (us : List ℕ) → All IsAscii (write_units us)
unfolding write_units hex4
write_units-IsAscii [] = tt
write_units-IsAscii (u ∷ us) =
    let digit : (n : ℕ) → n < 16 → IsAscii (hex_digit n) = hex_digit-IsAscii in
    (
      omega arith,
      (
        omega arith,
        (
          digit _ (omega arith),
          (
            digit _ (omega arith),
            (digit _ (omega arith), (digit _ (omega arith), write_units-IsAscii us)),
          ),
        ),
      ),
    )

-- Whatever the fragment is, only ASCII is written.
pub write_string_fragment-IsAscii : (cs : List ℕ) → All IsAscii (write_string_fragment cs)
unfolding write_string_fragment write_from
write_string_fragment-IsAscii [] = tt
write_string_fragment-IsAscii (c ∷ cs) =
    let rest = write_string_fragment-IsAscii cs in
    elim (Bool-cases (leb c 127)) [
      | inl ascii ↦
          let wrote : c ∷ write_from [] cs ≡ write_from [] (c ∷ cs) =
            sym (write_from-cons c cs ∙ rw ascii) in
          subst (All IsAscii) wrote (ground arith, rest)
      | inr wide ↦
          let wrote : write_units (encode_utf16 c) ++ write_from [] cs ≡ write_from [] (c ∷ cs) =
            sym (write_from-cons c cs ∙ rw wide) in
          subst (All IsAscii) wrote (
            All-append IsAscii (write_units (encode_utf16 c)) (write_from [] cs)
              (write_units-IsAscii (encode_utf16 c)) rest)
    ]
