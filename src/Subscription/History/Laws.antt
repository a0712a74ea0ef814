-- ===== src/Subscription/History/Laws.antt =====
-- A history reads as the list of all its items, and knows which of their keys are hidden.
use mathlib.Core.List.{reverse, reverse-cons, append_assoc, append-nil}
use mini_sub2api.Base.{
  ℕ, zero, suc, ◌+◌, ◌-◌, ◌≡◌, refl, sym, ap, ◌∙◌, Bool, false, not, ◌&&◌, ◌||◌, Option, none, some,
  List, [], ◌∷◌, ◌++◌, length, length-append, get_elem?, filter, leb, if◌then◌else◌, arith,
  Bool-cases, inl, inr,
}
use native.Mathlib.Nat.{sub-zero}
use mini_sub2api.Base.KeySet.{
  has_key, extend_keys, is_empty, has_key-extend_keys, has_key-nil, has_key-filter, has_key-empty,
}
use mini_sub2api.Subscription.History.{
  Block, Item, History, root, child, block, key_ids, extend_with_hidden, collect_hidden,
  hidden_reasoning, get, blocks, block_items, items,
}

module _ {ℓ} {V : Type ℓ} where
  block_items-append :
      (xs ys : List (Block V)) → block_items (xs ++ ys) ≡ block_items xs ++ block_items ys
  unfolding block_items
  block_items-append [] ys = refl
  block_items-append (b ∷ xs) ys =
      rw (block_items-append xs ys) (sym (append_assoc b.items (block_items xs) (block_items ys)))

  items-root : (b : Block V) → items (root b) ≡ b.items
  unfolding items
  items-root b = append-nil b.items

  items-child : (p : History V) (b : Block V) → items (child p b) ≡ items p ++ b.items
  unfolding items
  items-child p b =
      ap block_items (reverse-cons b (blocks p))
      ∙ block_items-append (reverse (blocks p)) (b ∷ [])
      ∙ ap (◌++◌ (block_items (reverse (blocks p)))) (append-nil b.items)

  -- The recorded lengths and flags are those of the items and hidden keys up to each block.
  abbrev pub IsConsistent : History V → Type 0
  IsConsistent (root b) =
      (b.len ≡ length b.items) × (b.has_hidden_reasoning ≡ not (is_empty b.hidden_reasoning))
  IsConsistent (child p b) =
      (b.len ≡ (block p).len + length b.items)
      × (b.has_hidden_reasoning
          ≡ (not (is_empty b.hidden_reasoning) || (block p).has_hidden_reasoning))
      × IsConsistent p

  -- The items that an optional parent contributes, and its consistency.
  abbrev pub parent_items : Option (History V) → List (Item V)
  parent_items none = []
  parent_items (some p) = items p

  abbrev pub ParentIsConsistent : Option (History V) → Type 0
  ParentIsConsistent none = Unit {0}
  ParentIsConsistent (some p) = IsConsistent p

  abbrev pub parent_hides : ℕ → Option (History V) → Bool
  parent_hides k none = false
  parent_hides k (some p) = has_key k (hidden_reasoning p)

  len-items : (h : History V) → IsConsistent h → (block h).len ≡ length (items h)
  len-items (root b) c = c.0 ∙ ap length (sym (items-root b))
  len-items (child p b) c =
      omega
        (arith, c.0, len-items p c.2, ap length (items-child p b), length-append (items p) b.items)

  get_elem?-append :
      (xs ys : List (Item V)) (i : ℕ)
      → get_elem? (xs ++ ys) i
        ≡ (if leb (length xs) i then get_elem? ys (i - length xs) else get_elem? xs i)
  get_elem?-append [] ys i = rw sub-zero (ground arith)
  get_elem?-append (x ∷ xs) ys zero = ground arith
  get_elem?-append (x ∷ xs) ys (suc i) = ground (arith, get_elem?-append xs ys i)

  -- In a history whose recorded lengths and flags are consistent, indexing finds what the list of
  -- all items has at that place.
  pub get-items : (h : History V) (i : ℕ) → IsConsistent h → get h i ≡ get_elem? (items h) i
  unfolding get
  get-items (root b) i c = rw (sub-zero, items-root b)
  get-items (child p b) i c =
      rw (items-child p b, get_elem?-append (items p) b.items i, len-items p c.2, get-items p i c.2)

  -- An extension of a consistent parent, or of none, is consistent, and its items are those of the
  -- parent followed by its own.
  pub extend_with_hidden-items :
      (parent : Option (History V)) (own : List (Item V)) (hidden : List ℕ)
      → ParentIsConsistent parent
      → IsConsistent (extend_with_hidden parent own hidden)
        × (items (extend_with_hidden parent own hidden) ≡ parent_items parent ++ own)
  unfolding extend_with_hidden
  extend_with_hidden-items none own hidden c = ((omega arith, ground arith), items-root _)
  extend_with_hidden-items (some p) own hidden c = ((refl, refl, c), items-child p _)

  -- A key in the hidden sets of the blocks up to the root.
  abbrev hides : ℕ → History V → Bool
  hides k (root b) = has_key k b.hidden_reasoning
  hides k (child p b) = has_key k b.hidden_reasoning || hides k p

  has_key-collect_hidden :
      (k : ℕ) (set : List ℕ) (h : History V)
      → has_key k (collect_hidden set h) ≡ (has_key k set || hides k h)
  unfolding collect_hidden
  has_key-collect_hidden k set (root b) = has_key-extend_keys k set b.hidden_reasoning
  has_key-collect_hidden k set (child p b) = ground (
    arith,
    has_key-collect_hidden k (extend_keys set b.hidden_reasoning) p,
    has_key-extend_keys k set b.hidden_reasoning,
  )

  -- A cleared flag means that no block up to the root hides a key.
  hides-unflagged :
      (k : ℕ) (h : History V)
      → IsConsistent h
      → (block h).has_hidden_reasoning ≡ false
      → hides k h ≡ false
  hides-unflagged k (root b) c f = has_key-empty k b.hidden_reasoning (ground arith)
  hides-unflagged k (child p b) c f =
      ground (arith, has_key-empty k b.hidden_reasoning, hides-unflagged k p c.2)

  has_key-hidden_reasoning :
      (k : ℕ) (h : History V) → IsConsistent h → has_key k (hidden_reasoning h) ≡ hides k h
  unfolding hidden_reasoning
  has_key-hidden_reasoning k h c = elim (Bool-cases (block h).has_hidden_reasoning) [
    | inl flagged ↦
        rw (flagged, hidden_reasoning)
          (has_key-collect_hidden k [] h ∙ ap (λ b. b || hides k h) (has_key-nil k))
    | inr clear ↦ rw (clear, hidden_reasoning) (has_key-nil k ∙ sym (hides-unflagged k h c clear))
  ]

  -- With a consistent parent, or none, a key is in the hidden reasoning of an extension exactly when
  -- it is in the parent's, or is the key of an own item and among the hidden keys that are passed.
  pub extend_with_hidden-hidden_reasoning :
      (parent : Option (History V)) (own : List (Item V)) (hidden : List ℕ) (k : ℕ)
      → ParentIsConsistent parent
      → has_key k (hidden_reasoning (extend_with_hidden parent own hidden))
        ≡ ((has_key k (key_ids own) && has_key k hidden) || parent_hides k parent)
  unfolding extend_with_hidden
  extend_with_hidden-hidden_reasoning none own hidden k c =
      let keys = filter (λ key. has_key key hidden) (key_ids own) in
      ground (
        arith,
        has_key-hidden_reasoning k (extend_with_hidden none own hidden)
            (extend_with_hidden-items none own hidden c).0,
        has_key-extend_keys k [] keys,
        has_key-filter k hidden (key_ids own),
        has_key-nil k,
      )
  extend_with_hidden-hidden_reasoning (some p) own hidden k c =
      let keys = filter (λ key. has_key key hidden) (key_ids own) in
      ground (
        arith,
        has_key-hidden_reasoning k (extend_with_hidden (some p) own hidden)
            (extend_with_hidden-items (some p) own hidden c).0,
        has_key-hidden_reasoning k p c,
        has_key-extend_keys k [] keys,
        has_key-filter k hidden (key_ids own),
        has_key-nil k,
      )
