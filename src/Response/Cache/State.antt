-- ===== src/Response/Cache/State.antt =====
-- src/core/codex/src/response_id_cache.rs: a ring of 64 identifier pairs under a byte budget that
-- several caches share. The budget's atomic counter is a number that each operation passes on.
use native.Mathlib.Decide.{ℕ_discrete}
use mini_sub2api.Base.{
  ℕ, ◌+◌, ◌-◌, ◌%◌, ◌^◌, String, Bool, false, ◌&&◌, Option, none, some, List, [], ◌∷◌, map, ltb,
  leb, str_eq, if◌then◌else◌, get_elem?, replicate, decided,
}
use mini_sub2api.Base.Int.{ℤ, ℤ-discrete}
use mini_sub2api.RequestState.Types.{WireIdDomain, WireIdDomain-discrete}
use mini_sub2api.Response.Delta.{DeltaId}

unfoldable pub max_entries : ℕ
max_entries = 64

unfoldable pub max_id_bytes : ℕ
max_id_bytes = 16384

-- `usize` has 64 bits.
unfoldable pub usize_range : ℕ
usize_range = 2 ^ 64

pub record CacheBudget : Type 0 where
  pub used : ℕ
  pub maximum : ℕ

-- `fetch_update` with `checked_add` and the limit; `none` when it refuses.
unfoldable pub reserve : CacheBudget → ℕ → Option CacheBudget
reserve b bytes =
    if ltb (b.used + bytes) usize_range && leb (b.used + bytes) b.maximum
    then some (record b { used = b.used + bytes })
    else none

-- `fetch_sub`, which wraps around.
unfoldable pub release : CacheBudget → ℕ → CacheBudget
release b bytes = record b { used = (b.used + usize_range - bytes) % usize_range }

-- `StateStamp`: the device, inode and length of the ledger file and its two times.
pub record StateStamp : Type 0 where
  pub device : ℕ
  pub inode : ℕ
  pub bytes : ℕ
  pub modified : ℤ × ℤ
  pub changed : ℤ × ℤ

-- `CacheIdentity`: the 32 bytes of a digest.
abbrev pub Digest : Type 0
Digest = List ℕ

pub record CacheEpoch : Type 0 where
  pub identity : Digest
  pub stamp : StateStamp
  pub day : ℤ

unfoldable pub CacheEpoch-discrete : Discrete CacheEpoch
unfolding ℕ_discrete ℤ-discrete
CacheEpoch-discrete = hlevel (ℕ_discrete, ℤ-discrete)

pub record Pair : Type 0 where
  pub field : String
  pub domain : WireIdDomain
  pub upstream : String
  pub downstream : String

pub record ResponseIdCache : Type 0 where
  pub entries : List (Option Pair)
  pub next : ℕ
  pub id_bytes : ℕ
  pub epoch : Option CacheEpoch

-- A cache together with the budget that it draws on.
pub record Store : Type 0 where
  pub cache : ResponseIdCache
  pub budget : CacheBudget

-- `self.epoch == Some(epoch)`
unfoldable pub in_epoch : CacheEpoch → Option CacheEpoch → Bool
in_epoch epoch none = false
in_epoch epoch (some e) = decided (CacheEpoch-discrete e epoch)

unfoldable pub same_domain : WireIdDomain → WireIdDomain → Bool
same_domain a b = decided (WireIdDomain-discrete a b)

-- The test by which both loops look a pair up.
unfoldable pub is_pair_of : DeltaId → Pair → Bool
is_pair_of id pair =
    str_eq pair.field id.field
    && (same_domain pair.domain id.domain && str_eq pair.upstream id.upstream)

-- `entries.iter().flatten().find(…)`
unfoldable pub find_pair : DeltaId → List (Option Pair) → Option Pair
find_pair id [] = none
find_pair id (none ∷ entries) = find_pair id entries
find_pair id (some pair ∷ entries) = if is_pair_of id pair then some pair else find_pair id entries

-- The entry at an index, which stays below 64; an index past the end reads as an empty slot.
unfoldable pub slot : List (Option Pair) → ℕ → Option Pair
slot entries i = elim (get_elem? entries i) [ none ↦ none | some entry ↦ entry ]

-- The size of the struct plus 128 is chosen by the compiler: `base_bytes` is a parameter.
-- `CacheBudget::cache`
unfoldable pub new_cache : ℕ → CacheBudget → Option Store
new_cache base_bytes budget = elim (reserve budget base_bytes) [
  | none ↦ none
  | some b ↦ some (record {
    cache = record { entries = replicate max_entries none; next = 0; id_bytes = 0; epoch = none };
    budget = b;
  })
]

unfoldable pub clear : Store → Store
clear s = record {
  cache = record {
    entries = map (λ _. none) s.cache.entries;
    next = 0;
    id_bytes = 0;
    epoch = none;
  };
  budget = release s.budget s.cache.id_bytes;
}

-- `Drop`
unfoldable pub drop_cache : ℕ → Store → CacheBudget
drop_cache base_bytes s = release s.budget (base_bytes + s.cache.id_bytes)
