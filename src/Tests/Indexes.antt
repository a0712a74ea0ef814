-- ===== src/Tests/Indexes.antt =====
-- The index of completed responses and the chains of history blocks at small inputs.
use mini_sub2api.Base.{
  ℕ, ◌≡◌, refl, ◌↔◌, String, true, ◌&&◌, ◌||◌, some, List, [], ◌∷◌, ◌++◌, length, In, get_elem?,
}
use mini_sub2api.Base.KeySet.{has_key}
use mini_sub2api.Subscription.Radix.{Radix, prefixes, default}
use mini_sub2api.Subscription.Radix.Index.{Insertion, insert_all, prefixes-insert_all}
use mini_sub2api.Subscription.History
use mini_sub2api.Subscription.History.{
  Item, Block, root, child, key_ids, items, extend_with_hidden, hidden_reasoning,
}
use mini_sub2api.Subscription.History.Laws.{
  IsConsistent, parent_items, parent_hides, get-items, extend_with_hidden-items,
  extend_with_hidden-hidden_reasoning,
}

-- A path, a shorter one that splits its edge, and one that branches off.
abbrev three : List Insertion
three = ((1 ∷ 2 ∷ 3 ∷ []), "a") ∷ ((1 ∷ []), "b") ∷ ((1 ∷ 2 ∷ 4 ∷ []), "c") ∷ []

abbrev long_path : List ℕ
long_path = 1 ∷ 2 ∷ 3 ∷ 9 ∷ []

prefixes-insert_all_example :
    (t : Radix) × (found : List (ℕ × String)) × (insert_all three default ≡ some t)
    × (prefixes t long_path ≡ some found)
    × ((m : ℕ) (id : String)
        → In {A = ℕ × String} (m, id) found ↔ (
            (p : List ℕ) × (s : List ℕ) × (long_path ≡ p ++ s)
            × (m ≡ length p)
            × In {A = Insertion} (p, id) three))
prefixes-insert_all_example = prefixes-insert_all three long_path

abbrev small_item : ℕ → Item ℕ
small_item n = record {
  value = n;
  key = record { id = n; bytes = [] };
  lookup_key = record { id = n; bytes = [] };
  bytes = [];
}

abbrev first_block : Block ℕ
first_block = record {
  items = small_item 1 ∷ small_item 2 ∷ [];
  len = 2;
  hidden_reasoning = 2 ∷ [];
  has_hidden_reasoning = true;
}

abbrev second_block : Block ℕ
second_block = record {
  items = small_item 3 ∷ [];
  len = 3;
  hidden_reasoning = [];
  has_hidden_reasoning = true;
}

first-IsConsistent : IsConsistent (root first_block)
first-IsConsistent = (refl, refl)

second-IsConsistent : IsConsistent (child (root first_block) second_block)
second-IsConsistent = (refl, refl, first-IsConsistent)

get-items_example :
    History.get (child (root first_block) second_block) 2
    ≡ get_elem? (items (child (root first_block) second_block)) 2
get-items_example = get-items (child (root first_block) second_block) 2 second-IsConsistent

extend_with_hidden-items_example :
    IsConsistent (extend_with_hidden (some (root first_block)) (small_item 3 ∷ []) (3 ∷ []))
    × (items (extend_with_hidden (some (root first_block)) (small_item 3 ∷ []) (3 ∷ []))
        ≡ parent_items (some (root first_block)) ++ small_item 3 ∷ [])
extend_with_hidden-items_example =
    extend_with_hidden-items (some (root first_block)) (small_item 3 ∷ []) (3 ∷ [])
      first-IsConsistent

extend_with_hidden-hidden_reasoning_example :
    has_key 3
      (hidden_reasoning (extend_with_hidden (some (root first_block)) (small_item 3 ∷ []) (3 ∷ [])))
    ≡ ((has_key 3 (key_ids (small_item 3 ∷ [])) && has_key 3 (3 ∷ []))
        || parent_hides 3 (some (root first_block)))
extend_with_hidden-hidden_reasoning_example =
    extend_with_hidden-hidden_reasoning (some (root first_block)) (small_item 3 ∷ []) (3 ∷ []) 3
      first-IsConsistent
