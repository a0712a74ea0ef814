-- ===== src/Subscription/History.antt =====
-- src/core/codex/src/subscription_index.rs: interned items and `History`, a chain of blocks that
-- share their parents. The JSON value of an item is any type. The source's `parent: Option<Arc<…>>`
-- is the choice between `root` and `child`.
pub mod Laws
use mathlib.Core.List.{reverse}
use mini_sub2api.Base.{
  ℕ, ◌+◌, ◌-◌, Bool, true, false, not, ◌||◌, Option, none, some, List, [], ◌∷◌, ◌++◌, map, length,
  get_elem?, filter, leb, if◌then◌else◌,
}
use mini_sub2api.Base.KeySet.{has_key, extend_keys, is_empty}

-- An interned key.
pub record Key : Type 0 where
  pub id : ℕ
  pub bytes : List ℕ

-- An interned item.
pub record Item {ℓ} (V : Type ℓ) : Type ℓ where
  pub value : V
  pub key : Key
  pub lookup_key : Key
  pub bytes : List ℕ

pub record Block {ℓ} (V : Type ℓ) : Type ℓ where
  pub items : List (Item V)
  pub len : ℕ
  pub hidden_reasoning : List ℕ
  pub has_hidden_reasoning : Bool

pub data History {ℓ} (V : Type ℓ) : Type ℓ where
  root : Block V → History V
  child : History V → Block V → History V

module _ {ℓ} {V : Type ℓ} where
  abbrev pub block : History V → Block V
  block (root b) = b
  block (child p b) = b

  abbrev pub key_ids : List (Item V) → List ℕ
  key_ids = map (λ item. item.key.id)

  -- `parent.as_ref().map_or(0, |parent| parent.len)`
  abbrev pub inherited_len : Option (History V) → ℕ
  inherited_len none = 0
  inherited_len (some p) = (block p).len

  abbrev pub inherited_flag : Option (History V) → Bool
  inherited_flag none = false
  inherited_flag (some p) = (block p).has_hidden_reasoning

  abbrev pub attach : Option (History V) → Block V → History V
  attach none b = root b
  attach (some p) b = child p b

  unfoldable pub extend_with_hidden : Option (History V) → List (Item V) → List ℕ → History V
  extend_with_hidden parent items hidden =
      let own = extend_keys [] (filter (λ key. has_key key hidden) (key_ids items)) in
      attach parent (record {
        items = items;
        len = inherited_len parent + length items;
        hidden_reasoning = own;
        has_hidden_reasoning = not (is_empty own) || inherited_flag parent;
      })

  -- The loop of `hidden_reasoning`, from a block up to the root.
  unfoldable pub collect_hidden : List ℕ → History V → List ℕ
  collect_hidden hidden (root b) = extend_keys hidden b.hidden_reasoning
  collect_hidden hidden (child p b) = collect_hidden (extend_keys hidden b.hidden_reasoning) p

  unfoldable pub hidden_reasoning : History V → List ℕ
  unfolding collect_hidden
  hidden_reasoning h = if not (block h).has_hidden_reasoning then [] else collect_hidden [] h

  -- The loop of `get`: a block without a parent inherits 0 items.
  unfoldable pub get : History V → ℕ → Option (Item V)
  get (root b) index = get_elem? b.items (index - 0)
  get (child p b) index =
      let above = get p index in
      if leb (block p).len index then get_elem? b.items (index - (block p).len) else above

  -- The blocks from the last one up to the root, as the loop of `items` pushes them.
  unfoldable pub blocks : History V → List (Block V)
  blocks (root b) = b ∷ []
  blocks (child p b) = b ∷ blocks p

  -- `flat_map(|block| block.items.iter())`
  unfoldable pub block_items : List (Block V) → List (Item V)
  block_items [] = []
  block_items (b ∷ bs) = b.items ++ block_items bs

  unfoldable pub items : History V → List (Item V)
  unfolding blocks block_items
  items h = block_items (reverse (blocks h))

  unfoldable pub values : History V → List V
  unfolding items
  values h = map (λ item. item.value) (items h)
