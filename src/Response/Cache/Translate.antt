-- ===== src/Response/Cache/Translate.antt =====
-- src/core/codex/src/response_id_cache.rs: `translate`.
use mini_sub2api.Base.{
  String, Bool, true, false, not, Option, none, some, List, [], ◌∷◌, if◌then◌else◌,
}
use mini_sub2api.Base.Int.{ℤ}
use mini_sub2api.Base.Json.{Value, set_index}
use mini_sub2api.Response.Delta.{DeltaId}
use mini_sub2api.Response.Cache.State.{StateStamp, Digest, Pair, Store, in_epoch, find_pair, clear}

-- Resolves every identifier before any field is written.
unfoldable pub resolve : List (Option Pair) → List DeltaId → Option (List (String × String))
resolve entries [] = some []
resolve entries (id ∷ ids) = elim (find_pair id entries) [
  | none ↦ none
  | some pair ↦ elim (resolve entries ids) [
    | none ↦ none
    | some rest ↦ some ((id.field, pair.downstream) ∷ rest)
  ]
]

-- `value[field] = Value::String(replacement)`, in order; `none` is the panic of the indexing.
unfoldable pub replace_all : Value → List (String × String) → Option Value
replace_all value [] = some value
replace_all value ((field, replacement) ∷ more) =
    elim (set_index value field (Value.string replacement)) [
      | none ↦ none
      | some value' ↦ replace_all value' more
    ]

pub record Translation : Type 0 where
  pub store : Store
  pub value : Value
  pub hit : Bool

-- `epoch.is_none() || self.epoch != epoch`, the other way round.
unfoldable pub is_current : Digest → Option StateStamp → ℤ → Store → Bool
is_current identity none day s = false
is_current identity (some stamp) day s =
    in_epoch (record { identity = identity; stamp = stamp; day = day }) s.cache.epoch

unfoldable pub translate :
    Digest → Option StateStamp → ℤ → List DeltaId → Value → Store → Option Translation
translate identity stamp day fields value s =
    if not (is_current identity stamp day s)
    then some (record { store = clear s; value = value; hit = false })
    else elim (resolve s.cache.entries fields) [
      | none ↦ some (record { store = s; value = value; hit = false })
      | some replacements ↦ elim (replace_all value replacements) [
        | none ↦ none
        | some value' ↦ some (record { store = s; value = value'; hit = true })
      ]
    ]
