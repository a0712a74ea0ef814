-- ===== src/Base/TextMap.antt =====
-- `BTreeMap<String, V>` as the list of its entries. No operation here depends on their order.
use mini_sub2api.Base.{
  ◌+◌, ◌≤◌, ◌<◌, ◌≡◌, refl, sym, ◌∙◌, inl, inr, String, Bool, true, false, Option, none, some, List,
  [], ◌∷◌, map, length, any, str_eq, eq_iff, if◌then◌else◌, arith, Bool-cases, All,
}

abbrev pub TextMap {ℓ} : Type ℓ → Type ℓ
TextMap V = List (String × V)

abbrev pub has_text : String → List String → Bool
has_text k ks = any (λ j. str_eq j k) ks

module _ {ℓ} {V : Type ℓ} where
  abbrev pub lookup : String → TextMap V → Option V
  lookup k [] = none
  lookup k ((j, v) ∷ m) = if str_eq j k then some v else lookup k m

  abbrev pub contains_key : String → TextMap V → Bool
  contains_key k m = elim (lookup k m) [ none ↦ false | some _ ↦ true ]

  abbrev pub keys : TextMap V → List String
  keys m = map (λ e. e.0) m

  abbrev pub values : TextMap V → List V
  values m = map (λ e. e.1) m

  abbrev pub remove : String → TextMap V → TextMap V
  remove k [] = []
  remove k ((j, v) ∷ m) = if str_eq j k then m else (j, v) ∷ remove k m

  -- `get_mut` and an assignment through it.
  abbrev pub update : String → (V → V) → TextMap V → TextMap V
  update k f [] = []
  update k f ((j, v) ∷ m) = if str_eq j k then (j, f v) ∷ m else (j, v) ∷ update k f m

  -- `values_mut`
  abbrev pub map_values : (V → V) → TextMap V → TextMap V
  map_values f m = map (λ e. (e.0, f e.1)) m

  -- `retain` with a test of the value.
  abbrev pub retain : (V → Bool) → TextMap V → TextMap V
  retain p [] = []
  retain p ((j, v) ∷ m) = if p v then (j, v) ∷ retain p m else retain p m

  -- No key is there twice.
  abbrev pub IsDistinct : TextMap V → Type ℓ
  IsDistinct [] = Unit
  IsDistinct ((k, v) ∷ m) = (lookup k m ≡ none) × IsDistinct m

  pub length-remove : (k : String) (m : TextMap V) → length (remove k m) ≤ length m
  length-remove k [] = omega arith
  length-remove k ((j, v) ∷ m) = ground (arith, length-remove k m)

  pub length-remove_there :
      (k : String) (v : V) (m : TextMap V)
      → lookup k m ≡ some v
      → length (remove k m) + 1 ≡ length m
  length-remove_there k v [] h = cc
  length-remove_there k v ((j, w) ∷ m) h = ground (arith, length-remove_there k v m)

  pub length-retain : (p : V → Bool) (m : TextMap V) → length (retain p m) ≤ length m
  length-retain p [] = omega arith
  length-retain p ((j, v) ∷ m) = ground (arith, length-retain p m)

  pub length-retain_drop :
      (p : V → Bool) (k : String) (v : V) (m : TextMap V)
      → lookup k m ≡ some v
      → p v ≡ false
      → length (retain p m) < length m
  length-retain_drop p k v [] h n = cc
  length-retain_drop p k v ((j, w) ∷ m) h n =
      ground (arith, length-retain p m, length-retain_drop p k v m)

  pub length-map_values : (f : V → V) (m : TextMap V) → length (map_values f m) ≡ length m
  length-map_values f [] = refl
  length-map_values f (e ∷ m) = ground (arith, length-map_values f m)

  pub length-update : (k : String) (f : V → V) (m : TextMap V) → length (update k f m) ≡ length m
  length-update k f [] = refl
  length-update k f ((j, v) ∷ m) = ground (arith, length-update k f m)

  pub lookup-remove_ne :
      (j k : String) (m : TextMap V) → str_eq k j ≡ false → lookup j (remove k m) ≡ lookup j m
  lookup-remove_ne j k [] h = refl
  lookup-remove_ne j k ((i, v) ∷ m) h =
      ground (arith, lookup-remove_ne j k m, eq_iff i k, eq_iff i j, eq_iff k j)

  pub lookup-remove_self :
      (k : String) (m : TextMap V) → IsDistinct m → lookup k (remove k m) ≡ none
  lookup-remove_self k [] d = refl
  lookup-remove_self k ((i, v) ∷ m) d = ground (arith, lookup-remove_self k m d.1, eq_iff i k)

  pub lookup-retain :
      (p : V → Bool) (k : String) (v : V) (m : TextMap V)
      → lookup k m ≡ some v
      → p v ≡ true
      → lookup k (retain p m) ≡ some v
  lookup-retain p k v [] h y = cc
  lookup-retain p k v ((i, w) ∷ m) h y = ground (arith, lookup-retain p k v m)

  pub lookup-update :
      (j k : String) (f : V → V) (m : TextMap V)
      → lookup j (update k f m) ≡ (
          if str_eq k j
          then elim (lookup j m) [ none ↦ none | some v ↦ some (f v) ]
          else lookup j m)
  lookup-update j k f [] = ground arith
  lookup-update j k f ((i, v) ∷ m) =
      ground (arith, lookup-update j k f m, eq_iff i k, eq_iff i j, eq_iff k j)

  pub lookup-map_values :
      (j : String) (f : V → V) (m : TextMap V)
      → lookup j (map_values f m) ≡ elim (lookup j m) [ none ↦ none | some v ↦ some (f v) ]
  lookup-map_values j f [] = refl
  lookup-map_values j f ((i, v) ∷ m) = ground (arith, lookup-map_values j f m)

  pub lookup-All {κ} :
      (P : V → Type κ) (k : String) (v : V) (m : TextMap V)
      → All (λ e. P e.1) m
      → lookup k m ≡ some v
      → P v
  lookup-All P k v [] a h = cc
  lookup-All P k v ((j, w) ∷ m) a h = ground (arith, lookup-All P k v m a.1)

  -- A value that passes a test under its key makes the test hold for some entry.
  pub any-lookup :
      (p : String × V → Bool) (k : String) (v : V) (m : TextMap V)
      → lookup k m ≡ some v
      → p (k, v) ≡ true
      → any p m ≡ true
  any-lookup p k v [] h y = cc
  any-lookup p k v ((j, w) ∷ m) h y = ground (arith, any-lookup p k v m, eq_iff j k)

  remove-none : (j k : String) (m : TextMap V) → lookup j m ≡ none → lookup j (remove k m) ≡ none
  remove-none j k [] h = refl
  remove-none j k ((i, v) ∷ m) h = ground (arith, remove-none j k m)

  pub remove-IsDistinct : (k : String) (m : TextMap V) → IsDistinct m → IsDistinct (remove k m)
  remove-IsDistinct k [] d = tt
  remove-IsDistinct k ((i, v) ∷ m) d = elim (Bool-cases (str_eq i k)) [
    | inl e ↦ rw e d.1
    | inr n ↦ rw n (remove-none i k m d.0, remove-IsDistinct k m d.1)
  ]

  pub update-IsDistinct :
      (k : String) (f : V → V) (m : TextMap V) → IsDistinct m → IsDistinct (update k f m)
  update-IsDistinct k f [] d = tt
  update-IsDistinct k f ((i, v) ∷ m) d = elim (Bool-cases (str_eq i k)) [
    | inl e ↦ rw e (d.0, d.1)
    | inr n ↦ rw n (ground (arith, lookup-update i k f m), update-IsDistinct k f m d.1)
  ]

  -- What a removal leaves was there, under a key that is not the removed one.
  pub lookup-remove-some :
      (j k : String) (v : V) (m : TextMap V)
      → IsDistinct m
      → lookup j (remove k m) ≡ some v
      → (str_eq k j ≡ false) × (lookup j m ≡ some v)
  lookup-remove-some j k v m d h = elim (Bool-cases (str_eq k j)) [
    | inl e ↦
        let same : k ≡ j = (eq_iff k j).0 e in
        let gone : lookup j (remove k m) ≡ none = rw (← same) (lookup-remove_self k m d) in
        absurd (ground arith)
    | inr n ↦ (n, sym (lookup-remove_ne j k m n) ∙ h)
  ]
