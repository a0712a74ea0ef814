-- ===== src/Response/Cache/Remember.antt =====
-- src/core/codex/src/response_id_cache.rs: `remember`. The capacity of a text (fixed while it is
-- stored) is chosen by the standard library: it is a parameter.
use mini_sub2api.Base.{
  ℕ, zero, suc, ◌+◌, ◌-◌, ◌%◌, String, Bool, true, false, not, ◌||◌, Option, none, some, List, [],
  ◌∷◌, ltb, if◌then◌else◌, set,
}
use mini_sub2api.Base.Int.{ℤ}
use mini_sub2api.Base.Json
use mini_sub2api.Base.Json.{Value, text_of}
use mini_sub2api.RequestState.WireId.{is_valid_wire_id}
use mini_sub2api.Response.Delta.{DeltaId}
use mini_sub2api.Response.Cache.State.{
  StateStamp, Digest, CacheEpoch, Pair, Store, max_entries, max_id_bytes, reserve, release,
  in_epoch, find_pair, slot, clear,
}

abbrev pub is_some {ℓ} : {A : Type ℓ} → Option A → Bool
is_some none = false
is_some (some _) = true

module _ (capacity : String → ℕ) where
  unfoldable pub pair_bytes : Pair → ℕ
  pair_bytes pair = capacity pair.upstream + capacity pair.downstream + 64

  -- `if let Some(removed) = self.entries[self.next].take()`
  unfoldable pub take_slot : Option Pair → Store → Store
  take_slot none s = s
  take_slot (some removed) s = record {
    cache = record {
      entries = set s.cache.entries s.cache.next none;
      next = s.cache.next;
      id_bytes = s.cache.id_bytes - pair_bytes removed;
      epoch = s.cache.epoch;
    };
    budget = release s.budget (pair_bytes removed);
  }

  unfoldable pub advance : Store → Store
  advance s = record {
    cache = record {
      entries = s.cache.entries;
      next = (s.cache.next + 1) % max_entries;
      id_bytes = s.cache.id_bytes;
      epoch = s.cache.epoch;
    };
    budget = s.budget;
  }

  abbrev pub is_over : ℕ → Store → Bool
  is_over bytes s = ltb max_id_bytes (s.cache.id_bytes + bytes)

  abbrev pub current : Store → Option Pair
  current s = slot s.cache.entries s.cache.next

  -- The body of the `while` loop.
  unfoldable pub evict_step : ℕ → Store → Store
  unfolding take_slot advance
  evict_step bytes s =
      let freed = take_slot (current s) s in if is_over bytes freed then advance freed else freed

  -- The `while` loop, on fuel.
  unfoldable pub evict : ℕ → ℕ → Store → Option Store
  unfolding evict_step
  evict zero bytes s = none
  evict (suc fuel) bytes s =
      let rest = evict fuel bytes (evict_step bytes s) in
      if is_over bytes s || is_some (current s) then rest else some s

  -- The pair goes into the slot at `next`, unless the budget refuses it.
  unfoldable pub store_pair : Pair → Store → Store
  store_pair pair s = elim (reserve s.budget (pair_bytes pair)) [
    | none ↦ s
    | some budget ↦ record {
      cache = record {
        entries = set s.cache.entries s.cache.next (some pair);
        next = (s.cache.next + 1) % max_entries;
        id_bytes = s.cache.id_bytes + pair_bytes pair;
        epoch = s.cache.epoch;
      };
      budget = budget;
    }
  ]

  -- The rest of the loop body, for a pair that is not there yet. The fuel is enough:
  -- `evict_total` in Cache/Eviction.
  unfoldable pub admit : Pair → Store → Option Store
  unfolding evict store_pair
  admit pair s =
      if ltb max_id_bytes (pair_bytes pair)
      then some s
      else elim (evict (max_entries + 2) (pair_bytes pair) s) [
        | none ↦ none
        | some room ↦ some (store_pair pair room)
      ]

  -- One field, with the text that the translated event has for it.
  unfoldable pub remember_field : DeltaId → Option String → Store → Option Store
  unfolding admit
  remember_field id none s = some s
  remember_field id (some downstream) s =
      if not (is_valid_wire_id downstream)
      then some s
      else if is_some (find_pair id s.cache.entries)
      then some s
      else admit
          (record {
            field = id.field;
            domain = id.domain;
            upstream = id.upstream;
            downstream = downstream;
          })
          s

  unfoldable pub remember_fields : List DeltaId → Value → Store → Option Store
  unfolding remember_field
  remember_fields [] translated s = some s
  remember_fields (id ∷ ids) translated s =
      elim (remember_field id (text_of (Json.get translated id.field)) s) [
        | none ↦ none
        | some s' ↦ remember_fields ids translated s'
      ]

  -- `if self.epoch != Some(epoch)`
  unfoldable pub enter_epoch : CacheEpoch → Store → Store
  enter_epoch epoch s =
      let fresh = clear s in
      if in_epoch epoch s.cache.epoch then s else record {
        cache = record {
          entries = fresh.cache.entries;
          next = fresh.cache.next;
          id_bytes = fresh.cache.id_bytes;
          epoch = some epoch;
        };
        budget = fresh.budget;
      }

  unfoldable pub remember :
      Digest → Option StateStamp → ℤ → List DeltaId → Value → Store → Option Store
  unfolding remember_fields enter_epoch
  remember identity none day fields translated s = some (clear s)
  remember identity (some stamp) day fields translated s =
      remember_fields fields translated
        (enter_epoch (record { identity = identity; stamp = stamp; day = day }) s)
