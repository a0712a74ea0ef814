-- ===== src/Base/KeySet.antt =====
-- A `BTreeSet<u64>`: keys in ascending order, each once.
use Prim.Native.Nat.{ℕ}
use mathlib.Core.Bool.{Bool, true, false, ◌&&◌, ◌||◌}
use mathlib.Core.List.{List, [], ◌∷◌}
use mathlib.Core.Path.{◌≡◌, refl}
use native.Mathlib.Omega.{arith}
use mini_sub2api.Base.Lists.{filter}
use mini_sub2api.Base.Tests.{ltb, ◌==◌, if◌then◌else◌}

-- `contains`
unfoldable pub has_key : ℕ → List ℕ → Bool
has_key k [] = false
has_key k (j ∷ js) = (j == k) || has_key k js

-- `insert`
unfoldable pub insert_key : ℕ → List ℕ → List ℕ
insert_key k [] = k ∷ []
insert_key k (j ∷ js) =
    if j == k then j ∷ js else if ltb k j then k ∷ j ∷ js else j ∷ insert_key k js

-- `extend`, and `collect` from the empty set
unfoldable pub extend_keys : List ℕ → List ℕ → List ℕ
unfolding insert_key
extend_keys set [] = set
extend_keys set (k ∷ ks) = extend_keys (insert_key k set) ks

pub has_key-insert_key :
    (j k : ℕ) (set : List ℕ) → has_key j (insert_key k set) ≡ ((k == j) || has_key j set)
unfolding has_key insert_key
has_key-insert_key j k [] = refl
has_key-insert_key j k (i ∷ is) = ground (arith, has_key-insert_key j k is)

pub has_key-extend_keys :
    (j : ℕ) (set ks : List ℕ) → has_key j (extend_keys set ks) ≡ (has_key j set || has_key j ks)
unfolding extend_keys has_key
has_key-extend_keys j set [] = ground arith
has_key-extend_keys j set (k ∷ ks) =
    ground (arith, has_key-extend_keys j (insert_key k set) ks, has_key-insert_key j k set)

-- `is_empty`
abbrev pub is_empty : List ℕ → Bool
is_empty [] = true
is_empty (k ∷ ks) = false

pub has_key-nil : (k : ℕ) → has_key k [] ≡ false
unfolding has_key
has_key-nil k = refl

pub has_key-empty : (k : ℕ) (set : List ℕ) → is_empty set ≡ true → has_key k set ≡ false
unfolding has_key
has_key-empty k [] h = refl
has_key-empty k (j ∷ js) h = cc

pub has_key-filter :
    (k : ℕ) (hidden ks : List ℕ)
    → has_key k (filter (λ key. has_key key hidden) ks) ≡ (has_key k ks && has_key k hidden)
unfolding has_key
has_key-filter k hidden [] = refl
has_key-filter k hidden (j ∷ ks) = ground (arith, has_key-filter k hidden ks)
