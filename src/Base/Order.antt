-- ===== src/Base/Order.antt =====
-- The derived orders of texts (by bytes, which is by code points) and of signed integers, as tests.
use mini_sub2api.Base.{ℕ, String, Bool, true, false, List, [], ◌∷◌, codes, ltb, if◌then◌else◌}
use mini_sub2api.Base.Int.{ℤ, pos, negsuc}

unfoldable pub codes_ltb : List ℕ → List ℕ → Bool
codes_ltb [] [] = false
codes_ltb [] (_ ∷ _) = true
codes_ltb (_ ∷ _) [] = false
codes_ltb (x ∷ xs) (y ∷ ys) =
    let rest = codes_ltb xs ys in if ltb x y then true else if ltb y x then false else rest

abbrev pub text_ltb : String → String → Bool
text_ltb s t = codes_ltb (codes s) (codes t)

abbrev pub int_ltb : ℤ → ℤ → Bool
int_ltb (pos m) (pos n) = ltb m n
int_ltb (pos m) (negsuc n) = false
int_ltb (negsuc m) (pos n) = true
int_ltb (negsuc m) (negsuc n) = ltb n m
