-- ===== src/Tests/Texts.antt =====
-- The ASCII formatter at a small fragment.
use mini_sub2api.Base.{
  String, Bool, false, Option, none, some, str_eq, codes, if◌then◌else◌, All-of_all, ℕ, ◌≡◌, refl,
  List, [], ◌∷◌, All, arith,
}
use mini_sub2api.Terminal.{is_safe, detect}
use mini_sub2api.Terminal.Characters.{Safe, detect-Safe}
use mini_sub2api.AsciiJson.{write_string_fragment}
use mini_sub2api.AsciiJson.Roundtrip.{
  IsPlain, IsAscii, read_text, read_text-write_string_fragment, write_string_fragment-IsAscii,
}

-- A letter, a Han character and an emoji.
abbrev fragment : List ℕ
fragment = 97 ∷ 0x6771 ∷ 0x1f680 ∷ []

fragment-IsPlain : All IsPlain fragment
fragment-IsPlain =
    ((omega arith, refl, refl), ((omega arith, refl, refl), ((omega arith, refl, refl), tt)))

read_text-write_string_fragment_example : read_text (write_string_fragment fragment) ≡ some fragment
read_text-write_string_fragment_example = read_text-write_string_fragment fragment fragment-IsPlain

write_string_fragment-IsAscii_example : All IsAscii (write_string_fragment fragment)
write_string_fragment-IsAscii_example = write_string_fragment-IsAscii fragment

-- An environment with a terminal that reports its version.
abbrev konsole : String → Option (List ℕ)
konsole name = if str_eq name "KONSOLE_VERSION" then some (codes "23.08") else none

abbrev never_blank : List ℕ → Bool
never_blank text = false

detect-Safe_example : All Safe (detect never_blank konsole)
unfolding is_safe
detect-Safe_example =
    detect-Safe never_blank konsole tt (All-of_all is_safe (codes "23.08") refl) tt
