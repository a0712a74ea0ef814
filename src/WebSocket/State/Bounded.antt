-- ===== src/WebSocket/State/Bounded.antt =====
-- src/core/codex/src/responses_websocket_state_output.rs: the size of the output that a connection keeps.
use mini_sub2api.Base.{
  ℕ, ◌+◌, ◌-◌, ◌≤◌, ◌<◌, ◌≡◌, refl, none, List, [], ◌∷◌, arith, Option-cases, Bool-cases, inl, inr,
  leb, ltb,
}
use mini_sub2api.Base.Json.{Value}
use mini_sub2api.WebSocket.Parts.{Parts}
use mini_sub2api.WebSocket.Equivalence.{equivalent_items}
use mini_sub2api.WebSocket.State.{ActiveOperation, abandon_output}
use mini_sub2api.WebSocket.State.Output.{output_at, insert_output, keep_item}

-- The indexes ascend from the bound and stay under the limit.
abbrev pub Ascends : ℕ → ℕ → List (ℕ × Value) → Type 0
Ascends limit low [] = Unit
Ascends limit low ((i, v) ∷ m) = (low ≤ i) × (i < limit) × Ascends limit (i + 1) m

insert_output-Ascends :
    (limit low i : ℕ) (v : Value) (m : List (ℕ × Value))
    → low ≤ i
    → i < limit
    → output_at i m ≡ none
    → Ascends limit low m
    → Ascends limit low (insert_output i v m)
unfolding insert_output output_at
insert_output-Ascends limit low i v [] h k n a = (h, k, tt)
insert_output-Ascends limit low i v ((j, w) ∷ m) h k n a = elim (Bool-cases (ltb i j)) [
  | inl y ↦ rw (y, insert_output) (h, k, (ground arith, a.1, a.2))
  | inr y ↦
      rw (y, insert_output)
        (a.0, a.1, insert_output-Ascends limit (j + 1) i v m (ground arith) k (ground arith) a.2)
]

module _ (parts : Parts) where
  abbrev pub total_len : List (ℕ × Value) → ℕ
  total_len [] = 0
  total_len ((i, v) ∷ m) = parts.encoded_len v + total_len m

  total_len-insert_output :
      (i : ℕ) (v : Value) (m : List (ℕ × Value))
      → total_len (insert_output i v m) ≡ parts.encoded_len v + total_len m
  unfolding insert_output
  total_len-insert_output i v [] = refl
  total_len-insert_output i v ((j, w) ∷ m) = ground (arith, total_len-insert_output i v m)

  -- The output of an active operation keeps to the limits, and its bytes are counted.
  abbrev pub FitsLimits : ℕ → ℕ → ActiveOperation parts → Type 0
  FitsLimits items bytes a =
      Ascends items 0 a.output × (a.output_bytes ≡ total_len a.output) × (a.output_bytes ≤ bytes)

module _ {parts : Parts} where
  pub abandon_output-FitsLimits :
      (items bytes : ℕ) (a : ActiveOperation parts)
      → FitsLimits parts items bytes (abandon_output a)
  unfolding abandon_output
  abandon_output-FitsLimits items bytes a = (tt, refl, omega arith)

  pub keep_item-FitsLimits :
      (items bytes i : ℕ) (item : Value) (encoded : ℕ) (a : ActiveOperation parts)
      → encoded ≡ parts.encoded_len item
      → encoded ≤ bytes - a.output_bytes
      → FitsLimits parts items bytes a
      → FitsLimits parts items bytes (keep_item items i item encoded a)
  unfolding keep_item
  keep_item-FitsLimits items bytes i item encoded a same le h = elim (Bool-cases (leb items i)) [
    | inl y ↦ rw (y, keep_item) (abandon_output-FitsLimits items bytes a)
    | inr n ↦ elim (Option-cases (output_at i a.output)) [
      | inr (previous, e) ↦ elim (Bool-cases (equivalent_items parts (previous ∷ []) (item ∷ []))) [
        | inl y ↦ rw (n, e, y, keep_item) h
        | inr n' ↦ rw (n, e, n', keep_item) (abandon_output-FitsLimits items bytes a)
      ]
      | inl e ↦
          rw (n, e, keep_item)
            (
              insert_output-Ascends items 0 i item a.output (omega arith) (ground arith) e h.0,
              ground (arith, total_len-insert_output parts i item a.output),
              omega (arith, h.2, le),
            )
    ]
  ]
