-- ===== src/Base/Text.antt =====
-- Texts as code points, and comparison that ignores the case of ASCII letters.
use Prim.Native.Char.{code}
use Prim.Native.String.{String}
use Prim.Native.Nat.{ℕ, ◌+◌}
use mathlib.Core.Bool.{Bool, true, false, ◌&&◌}
use mathlib.Core.List.{List, [], ◌∷◌, map}
use mathlib.Core.Path.{◌≡◌, refl}
use native.Mathlib.Omega.{arith}
use mini_sub2api.Base.Tests.{leb, ◌==◌, if◌then◌else◌}

-- The code points of a text. Two texts have the same code points when they have the same bytes.
abbrev pub codes : String → List ℕ
codes String.[] = []
codes (String.◌∷◌ c s) = code c ∷ codes s

-- `u8::to_ascii_lowercase`; what is not an ASCII capital stays.
unfoldable pub to_ascii_lowercase : ℕ → ℕ
to_ascii_lowercase c = if leb b'A' c && leb c b'Z' then c + 32 else c

unfoldable pub lowercase : String → List ℕ
unfolding to_ascii_lowercase
lowercase s = map to_ascii_lowercase (codes s)

-- Equality of lists of code points.
unfoldable pub same_codes : List ℕ → List ℕ → Bool
same_codes [] [] = true
same_codes (x ∷ xs) (y ∷ ys) = (x == y) && same_codes xs ys
same_codes _ _ = false

pub same_codes-eq : (xs ys : List ℕ) → same_codes xs ys ≡ true → xs ≡ ys
unfolding same_codes
same_codes-eq [] [] h = refl
same_codes-eq [] (y ∷ ys) h = cc
same_codes-eq (x ∷ xs) [] h = cc
same_codes-eq (x ∷ xs) (y ∷ ys) h = ground (arith, same_codes-eq xs ys)

-- `str::eq_ignore_ascii_case`
unfoldable pub eq_ignore_ascii_case : String → String → Bool
unfolding same_codes lowercase
eq_ignore_ascii_case a b = same_codes (lowercase a) (lowercase b)

-- Two texts that agree up to case are told apart from no third text.
pub eq_ignore_ascii_case-congr :
    (a b c : String)
    → eq_ignore_ascii_case b c ≡ true
    → eq_ignore_ascii_case a b ≡ eq_ignore_ascii_case a c
unfolding eq_ignore_ascii_case
eq_ignore_ascii_case-congr a b c h = rw (same_codes-eq (lowercase b) (lowercase c) h)
