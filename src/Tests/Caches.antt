-- ===== src/Tests/Caches.antt =====
-- The identifier cache at an event with one identifier.
use mathlib.Core.Option.{some-injective}
use mini_sub2api.Base.{
  ℕ, ◌+◌, ◌≡◌, refl, sym, ◌∙◌, subst, String, none, some, List, [], ◌∷◌, length, replicate, set,
  codes, arith,
}
use mini_sub2api.Base.Int.{pos}
use mini_sub2api.Base.Json.{Value, Fields, get_field}
use mini_sub2api.RequestState.Types.{WireIdDomain}
use mini_sub2api.RequestState.WireId.{is_valid_wire_id}
use mini_sub2api.Carriers.Query.{tables}
use mini_sub2api.Response.Delta.{DeltaId, inspect, eligible, inspect_rules, inspect_rule}
use mini_sub2api.Response.Found.{AreIn, inspect-AreIn}
use mini_sub2api.Response.Cache.State.{
  Digest, StateStamp, CacheEpoch, CacheBudget, Store, max_entries, max_id_bytes, usize_range,
  reserve, release, new_cache, drop_cache, clear, in_epoch, find_pair, slot,
}
use mini_sub2api.Response.Cache.Translate.{Translation, translate}
use mini_sub2api.Response.Cache.Remember.{
  pair_bytes, evict, evict_step, take_slot, advance, store_pair, admit, remember_field,
  remember_fields, enter_epoch, remember,
}
use mini_sub2api.Response.Cache.Accounting.{IsValid}
use mini_sub2api.Response.Cache.Eviction.{Room, evict_total}
use mini_sub2api.Response.Cache.Bounds.{remember-IsValid}
use mini_sub2api.Response.Cache.Run.{
  Call, translating, remembering, run, new_cache-IsValid, drop_cache-run,
}
use mini_sub2api.Response.Cache.Coherence.{Sound}
use mini_sub2api.Response.Cache.Correct.{Right, remember-Sound, translate-Right}

abbrev text_bytes : String → ℕ
text_bytes s = length (codes s)

abbrev empty_budget : CacheBudget
empty_budget = record { used = 0; maximum = 2097152 }

abbrev fresh : Store
fresh = record {
  cache = record { entries = replicate 64 none; next = 0; id_bytes = 0; epoch = none };
  budget = record { used = 1000; maximum = 2097152 };
}

made : new_cache 1000 empty_budget ≡ some fresh
unfolding new_cache reserve usize_range max_entries
made = refl

fresh-IsValid : IsValid text_bytes 1000 fresh
unfolding usize_range
fresh-IsValid =
    new_cache-IsValid text_bytes 1000 empty_budget fresh (omega arith) (omega arith) made

abbrev stamp : StateStamp
stamp = record {
  device = 1;
  inode = 2;
  bytes = 3;
  modified = (pos 4, pos 5);
  changed = (pos 6, pos 7);
}

abbrev identity : Digest
identity = 7 ∷ []

abbrev one_id : List DeltaId
one_id = record { field = "item_id"; domain = WireIdDomain.item; upstream = "up" } ∷ []

abbrev upstream_event : Fields
upstream_event =
    Fields.field "type" (Value.string "response.output_text.delta")
      (Fields.field "item_id" (Value.string "up") Fields.end)

abbrev translated_event : Value
translated_event = Value.object (Fields.field "item_id" (Value.string "down") Fields.end)

remember-IsValid_example :
    (s' : Store) × (remember text_bytes identity (some stamp) (pos 1) one_id translated_event fresh
      ≡ some s')
    × IsValid text_bytes 1000 s'
remember-IsValid_example =
    remember-IsValid text_bytes 1000 identity (some stamp) (pos 1) one_id translated_event fresh
      fresh-IsValid

evict_total_example :
    (s' : Store) × (evict text_bytes (max_entries + 2) 70 fresh ≡ some s')
    × Room text_bytes 1000 70 fresh s'
unfolding max_id_bytes
evict_total_example = evict_total text_bytes 1000 70 fresh fresh-IsValid (omega arith)

abbrev two_calls : List Call
two_calls =
    remembering identity (some stamp) (pos 1) one_id translated_event
    ∷ translating identity (some stamp) (pos 1) one_id upstream_event
    ∷ []

drop_cache-run_example :
    (s' : Store) × (run text_bytes two_calls fresh ≡ some s')
    × IsValid text_bytes (0 + 1000) s'
    × ((drop_cache 1000 s').used ≡ 0)
unfolding usize_range
drop_cache-run_example =
    drop_cache-run text_bytes 1000 empty_budget fresh two_calls (omega arith) (omega arith) made

-- The one right text is "down".
abbrev IsDown : CacheEpoch → DeltaId → String → Type 0
IsDown epoch id text = text ≡ "down"

abbrev with_pair : Store
with_pair = record {
  cache = record {
    entries = set (replicate 64 none) 0 (
        some (record {
          field = "item_id";
          domain = WireIdDomain.item;
          upstream = "up";
          downstream = "down";
        }));
    next = 1;
    id_bytes = 70;
    epoch = some (record { identity = identity; stamp = stamp; day = pos 1 });
  };
  budget = record { used = 1070; maximum = 2097152 };
}

remember-Sound_example :
    (s' : Store) × (remember text_bytes identity (some stamp) (pos 1) one_id translated_event fresh
      ≡ some s')
    × IsValid text_bytes 1000 s'
    × Sound IsDown s'
unfolding get_field
remember-Sound_example =
    remember-Sound IsDown text_bytes 1000 identity (some stamp) (pos 1) one_id translated_event
      fresh fresh-IsValid tt (λ σ e. (refl, tt))

-- The pair is what `remember` keeps of the event.
remembered :
    remember text_bytes identity (some stamp) (pos 1) one_id translated_event fresh ≡ some with_pair
unfolding remember remember_fields remember_field admit evict evict_step take_slot advance
    store_pair enter_epoch clear in_epoch release reserve usize_range max_entries max_id_bytes
    pair_bytes slot find_pair get_field is_valid_wire_id
remembered = refl

with_pair-Sound : Sound IsDown with_pair
unfolding get_field
with_pair-Sound =
    let (s', run, valid, sound) =
      remember-Sound IsDown text_bytes 1000 identity (some stamp) (pos 1) one_id translated_event
        fresh fresh-IsValid tt (λ σ e. (refl, tt)) in
    subst (Sound IsDown) (some-injective s' with_pair (sym run ∙ remembered)) sound

translate-Right_example :
    (r : Translation) × (translate identity
        (some stamp)
        (pos 1)
        one_id
        (Value.object upstream_event)
        with_pair
      ≡ some r)
    × Sound IsDown r.store
    × Right IsDown identity (some stamp) (pos 1) one_id upstream_event r
translate-Right_example =
    translate-Right IsDown identity (some stamp) (pos 1) one_id upstream_event with_pair
      with_pair-Sound

found_one : inspect (Value.object upstream_event) ≡ some one_id
unfolding inspect eligible inspect_rules inspect_rule tables get_field is_valid_wire_id
found_one = refl

inspect-AreIn_example :
    (object : Fields) × (Value.object upstream_event ≡ Value.object object) × AreIn object one_id
inspect-AreIn_example = inspect-AreIn (Value.object upstream_event) one_id found_one
