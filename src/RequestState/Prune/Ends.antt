-- ===== src/RequestState/Prune/Ends.antt =====
-- src/core/codex/src/request_state_prune_policy.rs: how a loop of `prune` ends, and how ends are chained.
use mini_sub2api.Base.{
  ◌<◌, ◌≡◌, refl, sym, ◌∙◌, subst, String, Bool, true, false, Option, some, List, [], ◌∷◌, All,
  length, arith,
}
use mini_sub2api.Base.TextMap.{lookup, has_text, contains_key, IsDistinct}
use mini_sub2api.RequestState.Types.{
  ScopeState, PersistedRequestState, EntryKind, maximum, scope_maximum, max_scopes,
}
use mini_sub2api.RequestState.Prune.{holds}
use mini_sub2api.RequestState.Prune.Protect.{ProtectedStateKeys, removable}
use mini_sub2api.RequestState.Prune.Policy.{scope_count, total_entries, Outcome, after, for_each}
use mini_sub2api.RequestState.Prune.Steps.{Removes, Removals, Removals-append, Removals-IsDistinct}

abbrev pub ledger : Outcome → PersistedRequestState
ledger (Outcome.finished changed state) = state
ledger (Outcome.refused state) = state

-- A limit is exceeded, and nothing that counts towards it may be removed.
pub data Blocked (p : ProtectedStateKeys) (state : PersistedRequestState) : Type 0 where
  scope_full :
      (kind : EntryKind) (scope_key : String)
      → scope_maximum kind < scope_count kind (lookup scope_key state.scopes)
      → ((s : ScopeState) (key : String)
          → lookup scope_key state.scopes ≡ some s
          → holds s kind key ≡ true
          → removable s scope_key p kind key ≡ false)
      → Blocked p state
  ledger_full :
      (kind : EntryKind)
      → maximum kind < total_entries state kind
      → ((scope_key : String) (s : ScopeState) (key : String)
          → lookup scope_key state.scopes ≡ some s
          → holds s kind key ≡ true
          → removable s scope_key p kind key ≡ false)
      → Blocked p state
  too_many_scopes :
      max_scopes < length state.scopes
      → ((key : String) → contains_key key state.scopes ≡ true → has_text key p.scopes ≡ true)
      → Blocked p state

module _ (p : ProtectedStateKeys) where
  -- Of a ledger and the flag that a loop starts with: the ledger that it ends with meets the goal, and
  -- is the same one where the flag says that nothing was changed.
  abbrev pub Fits :
      (PersistedRequestState → Type 0) → Bool → PersistedRequestState → Outcome → Type 0
  Fits Goal changed a (Outcome.finished flag b) =
      Goal b × (flag ≡ false → (changed ≡ false) × (b ≡ a))
  Fits Goal changed a (Outcome.refused b) = Blocked p b

  abbrev pub Ends :
      (PersistedRequestState → Type 0) → Bool → PersistedRequestState → Option Outcome → Type 0
  Ends Goal changed a o =
      (out : Outcome) × (o ≡ some out) × Removals p a (ledger out) × Fits Goal changed a out

  pub Ends-now :
      (Goal : PersistedRequestState → Type 0) (changed : Bool) (a : PersistedRequestState)
      → Goal a
      → Ends Goal changed a (some (Outcome.finished changed a))
  Ends-now Goal changed a g =
      (Outcome.finished changed a, refl, Removals.none_left a, (g, λ e. (e, refl)))

  pub Ends-refused :
      (Goal : PersistedRequestState → Type 0) (changed : Bool) (a : PersistedRequestState)
      → Blocked p a
      → Ends Goal changed a (some (Outcome.refused a))
  Ends-refused Goal changed a h = (Outcome.refused a, refl, Removals.none_left a, h)

  Fits-after :
      (Goal : PersistedRequestState → Type 0) (changed : Bool) (a b : PersistedRequestState)
      (out : Outcome)
      → Fits Goal true b out
      → Fits Goal changed a out
  Fits-after Goal changed a b (Outcome.finished flag c) (g, same) =
      (g, λ e. absurd (ground (arith, (same e).0)))
  Fits-after Goal changed a b (Outcome.refused c) h = h

  -- A loop that has removed something sets its flag and goes on.
  pub Ends-after :
      (Goal : PersistedRequestState → Type 0) (changed : Bool) (a b : PersistedRequestState)
      (o : Option Outcome)
      → Removes p a b
      → Ends Goal true b o
      → Ends Goal changed a o
  Ends-after Goal changed a b o step (out, e, r, fits) = (
    out,
    e,
    Removals-append (Removals.then (Removals.none_left a) step) r,
    Fits-after Goal changed a b out fits,
  )

  Fits-chain :
      (Goal : PersistedRequestState → Type 0) (changed flag : Bool) (a b : PersistedRequestState)
      (out : Outcome)
      → (flag ≡ false → (changed ≡ false) × (b ≡ a))
      → Fits Goal flag b out
      → Fits Goal changed a out
  Fits-chain Goal changed flag a b (Outcome.finished last c) first (g, same) =
      (g, λ e. let (f, cb) = same e in let (h, ba) = first f in (h, cb ∙ ba))
  Fits-chain Goal changed flag a b (Outcome.refused c) first h = h

  Ends-go :
      (Goal Next : PersistedRequestState → Type 0) (changed : Bool) (a : PersistedRequestState)
      (out : Outcome) (k : Bool → PersistedRequestState → Option Outcome)
      → Removals p a (ledger out)
      → Fits Goal changed a out
      → ((flag : Bool) (b : PersistedRequestState)
          → Removals p a b
          → Goal b
          → Ends Next flag b (k flag b))
      → Ends Next changed a (after (some out) k)
  Ends-go Goal Next changed a (Outcome.finished flag b) k r (g, same) f =
      let (out, e, r', fits) = f flag b r g in
      (out, e, Removals-append r r', Fits-chain Next changed flag a b out same fits)
  Ends-go Goal Next changed a (Outcome.refused b) k r h f = (Outcome.refused b, refl, r, h)

  -- What comes after a part that ends well starts from its ledger and its flag.
  pub Ends-chain :
      (Goal Next : PersistedRequestState → Type 0) (changed : Bool) (a : PersistedRequestState)
      (o : Option Outcome) (k : Bool → PersistedRequestState → Option Outcome)
      → Ends Goal changed a o
      → ((flag : Bool) (b : PersistedRequestState)
          → Removals p a b
          → Goal b
          → Ends Next flag b (k flag b))
      → Ends Next changed a (after o k)
  Ends-chain Goal Next changed a o k (out, e, r, fits) f =
      subst (λ x. Ends Next changed a (after x k)) (sym e)
        (Ends-go Goal Next changed a out k r fits f)

  Fits-map :
      (Goal Next : PersistedRequestState → Type 0) (changed : Bool) (a : PersistedRequestState)
      (out : Outcome)
      → (Goal (ledger out) → Next (ledger out))
      → Fits Goal changed a out
      → Fits Next changed a out
  Fits-map Goal Next changed a (Outcome.finished flag b) f (g, same) = (f g, same)
  Fits-map Goal Next changed a (Outcome.refused b) f h = h

  -- A goal that follows for every ledger that removals lead to.
  pub Ends-map :
      (Goal Next : PersistedRequestState → Type 0) (changed : Bool) (a : PersistedRequestState)
      (o : Option Outcome)
      → ((b : PersistedRequestState) → Removals p a b → Goal b → Next b)
      → Ends Goal changed a o
      → Ends Next changed a o
  Ends-map Goal Next changed a o f (out, e, r, fits) =
      (out, e, r, Fits-map Goal Next changed a out (f (ledger out) r) fits)

-- A loop over a list, whose body meets its goal for each element, meets all of them.
module _ (p : ProtectedStateKeys) {X : Type 0} (Goal : X → PersistedRequestState → Type 0)
    (f : X → Bool → PersistedRequestState → Option Outcome)
    (mono : (x : X) (a b : PersistedRequestState)
      → Removals p a b
      → IsDistinct a.scopes
      → Goal x a
      → Goal x b)
    (each : (x : X) (changed : Bool) (a : PersistedRequestState)
      → IsDistinct a.scopes
      → Ends p (Goal x) changed a (f x changed a)) where
  pub for_each-Ends :
      (xs : List X) (changed : Bool) (a : PersistedRequestState)
      → IsDistinct a.scopes
      → Ends p (λ b. All (λ x. Goal x b) xs) changed a (for_each f xs changed a)
  for_each-Ends [] changed a d = Ends-now p (λ b. Unit) changed a tt
  for_each-Ends (x ∷ xs) changed a d =
      Ends-chain p (Goal x) (λ b. All (λ y. Goal y b) (x ∷ xs)) changed a (f x changed a) _
        (each x changed a d)
        (λ flag b r g.
          let d' = Removals-IsDistinct r d in
          Ends-map p (λ c. All (λ y. Goal y c) xs) (λ c. All (λ y. Goal y c) (x ∷ xs)) flag b _
            (λ c q rest. (mono x b c q d' g, rest)) (for_each-Ends xs flag b d'))
