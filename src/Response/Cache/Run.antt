-- ===== src/Response/Cache/Run.antt =====
-- The life of a cache: `CacheBudget::cache`, any calls of `translate` and `remember`, and `Drop`.
use mathlib.Core.Option.{some-injective, none-ne-some}
use mini_sub2api.Base.{
  ℕ, ◌+◌, ◌≤◌, ◌<◌, ◌≡◌, refl, sym, String, Option, none, some, List, [], ◌∷◌, replicate, arith,
  Option-cases, subst, inl, inr,
}
use mini_sub2api.Base.Int.{ℤ}
use mini_sub2api.Base.Json.{Value, Fields}
use mini_sub2api.Response.Delta.{DeltaId}
use mini_sub2api.Response.Cache.State.{
  Digest, StateStamp, CacheBudget, Store, max_entries, usize_range, reserve, new_cache, drop_cache,
}
use mini_sub2api.Response.Cache.Translate.{translate}
use mini_sub2api.Response.Cache.Remember.{remember}
use mini_sub2api.Response.Cache.Slots.{total-replicate}
use mini_sub2api.Response.Cache.Accounting.{IsValid, release-used, reserve-some}
use mini_sub2api.Response.Cache.Bounds.{remember-IsValid, translate-IsValid}

abbrev fresh_store : CacheBudget → Store
fresh_store b = record {
  cache = record { entries = replicate max_entries none; next = 0; id_bytes = 0; epoch = none };
  budget = b;
}

-- A call on a cache. The events that `translate` is given are objects.
pub data Call : Type 0 where
  translating : Digest → Option StateStamp → ℤ → List DeltaId → Fields → Call
  remembering : Digest → Option StateStamp → ℤ → List DeltaId → Value → Call

module _ (capacity : String → ℕ) where
  unfoldable pub call : Call → Store → Option Store
  call (translating identity stamp day ids fs) s =
      elim (translate identity stamp day ids (Value.object fs) s) [
        | none ↦ none
        | some r ↦ some r.store
      ]
  call (remembering identity stamp day ids translated) s =
      remember capacity identity stamp day ids translated s

  unfoldable pub run : List Call → Store → Option Store
  unfolding call
  run [] s = some s
  run (c ∷ cs) s = elim (call c s) [ none ↦ none | some s' ↦ run cs s' ]

  call-IsValid :
      (others : ℕ) (c : Call) (s : Store)
      → IsValid capacity others s
      → (s' : Store) × (call c s ≡ some s') × IsValid capacity others s'
  unfolding call
  call-IsValid others (translating identity stamp day ids fs) s v =
      let (r, done, v') = translate-IsValid capacity others identity stamp day ids fs s v in
      (r.store, rw (done, call), v')
  call-IsValid others (remembering identity stamp day ids translated) s v =
      remember-IsValid capacity others identity stamp day ids translated s v

  run-IsValid :
      (others : ℕ) (cs : List Call) (s : Store)
      → IsValid capacity others s
      → (s' : Store) × (run cs s ≡ some s') × IsValid capacity others s'
  unfolding run
  run-IsValid others [] s v = (s, refl, v)
  run-IsValid others (c ∷ cs) s v =
      let (s', done, v') = call-IsValid others c s v in rw (done, run) (run-IsValid others cs s' v')

  pub new_cache-IsValid :
      (base : ℕ) (b : CacheBudget) (s : Store)
      → b.used ≤ b.maximum
      → b.used < usize_range
      → new_cache base b ≡ some s
      → IsValid capacity (b.used + base) s
  unfolding new_cache max_entries
  new_cache-IsValid base b s within ranged made = elim (Option-cases (reserve b base)) [
    | inl refused ↦ absurd (
        none-ne-some {A = Store} s (
          subst (λ r. elim r [ none ↦ none | some b' ↦ some (fresh_store b') ] ≡ some s) refused
            made))
    | inr (b', granted) ↦
        let r = reserve-some b b' base granted in
        let is_fresh : fresh_store b' ≡ s = some-injective {A = Store} (fresh_store b') s (
          subst (λ r. elim r [ none ↦ none | some b' ↦ some (fresh_store b') ] ≡ some s) granted
            made) in
        subst (IsValid capacity (b.used + base)) is_fresh (record {
          slots = refl;
          place = omega arith;
          counted = sym (total-replicate capacity max_entries);
          bounded = omega arith;
          held = omega arith;
          within = omega arith;
          ranged = omega arith;
        })
  ]

  -- Take a budget within its limits from which `CacheBudget::cache` makes a cache. Whatever calls
  -- of `translate` and `remember` follow, each returns, the cache is valid after them, and dropping
  -- it then leaves in the budget exactly what was counted before it was made.
  pub drop_cache-run :
      (base : ℕ) (b : CacheBudget) (s : Store) (cs : List Call)
      → b.used ≤ b.maximum
      → b.used < usize_range
      → new_cache base b ≡ some s
      → (s' : Store) × (run cs s ≡ some s')
        × IsValid capacity (b.used + base) s'
        × ((drop_cache base s').used ≡ b.used)
  unfolding drop_cache
  drop_cache-run base b s cs within ranged made =
      let (s', done, v) =
        run-IsValid (b.used + base) cs s (new_cache-IsValid base b s within ranged made) in
      (
        s',
        done,
        v,
        omega (
          arith,
          release-used s'.budget (base + s'.cache.id_bytes) (omega (arith, v.held)) v.ranged,
          v.held,
        ),
      )
