-- ===== src/RequestState/Prune/Earliest.antt =====
-- src/core/codex/src/request_state_prune.rs: the minimum that `oldest_entry` takes of the candidates.
use mini_sub2api.Base.{
  ◌≡◌, refl, sym, ◌∙◌, subst, true, false, some, none, List, [], ◌∷◌, arith, All, All-mono,
  Option-cases, Bool-cases, inl, inr, if◌then◌else◌,
}
use mathlib.Core.Option.{some-injective}
use mini_sub2api.Base.Int.{ℤ, pos, negsuc}
use mini_sub2api.Base.Order.{int_ltb}
use mini_sub2api.RequestState.Prune.Policy.{Candidate, earlier, earliest}

earliest_alone :
    (d : Candidate) (cs : List Candidate) → earliest cs ≡ none → earliest (d ∷ cs) ≡ some d
unfolding earliest
earliest_alone d cs e = rw (e, earliest) refl

earliest_first :
    (d f : Candidate) (cs : List Candidate)
    → earliest cs ≡ some f
    → earliest (d ∷ cs) ≡ (if earlier f d then some f else some d)
unfolding earliest
earliest_first d f cs e = rw (e, earliest) refl

pub earliest-All {κ} :
    (P : Candidate → Type κ) (cs : List Candidate) (c : Candidate)
    → All P cs
    → earliest cs ≡ some c
    → P c
unfolding earliest
earliest-All P [] c a h = cc
earliest-All P (d ∷ cs) c a h = elim (Option-cases (earliest cs)) [
  | inl e ↦ subst P (some-injective d c (sym (earliest_alone d cs e) ∙ h)) a.0
  | inr (f, e) ↦
      let step = sym (earliest_first d f cs e) ∙ h in
      elim (Bool-cases (earlier f d)) [
        | inl y ↦ earliest-All P cs c a.1 (ground (arith, e))
        | inr n ↦ subst P (some-injective d c (ground arith)) a.0
      ]
]

pub int_ltb_trans : (x y z : ℤ) → int_ltb x y ≡ false → int_ltb y z ≡ false → int_ltb x z ≡ false
int_ltb_trans (pos x) (pos y) (pos z) h k = ground arith
int_ltb_trans (pos x) (pos y) (negsuc z) h k = ground arith
int_ltb_trans (pos x) (negsuc y) (pos z) h k = ground arith
int_ltb_trans (pos x) (negsuc y) (negsuc z) h k = ground arith
int_ltb_trans (negsuc x) (pos y) (pos z) h k = ground arith
int_ltb_trans (negsuc x) (pos y) (negsuc z) h k = ground arith
int_ltb_trans (negsuc x) (negsuc y) (pos z) h k = ground arith
int_ltb_trans (negsuc x) (negsuc y) (negsuc z) h k = ground arith

int_ltb_irrefl : (x : ℤ) → int_ltb x x ≡ false
int_ltb_irrefl (pos x) = ground arith
int_ltb_irrefl (negsuc x) = ground arith

int_ltb_asym : (x y : ℤ) → int_ltb x y ≡ true → int_ltb y x ≡ false
int_ltb_asym (pos x) (pos y) h = ground arith
int_ltb_asym (pos x) (negsuc y) h = ground arith
int_ltb_asym (negsuc x) (pos y) h = ground arith
int_ltb_asym (negsuc x) (negsuc y) h = ground arith

earlier-day : (f d : Candidate) → earlier f d ≡ true → int_ltb d.day f.day ≡ false
unfolding earlier
earlier-day f d h = ground (arith, int_ltb_asym f.day d.day)

not_earlier-day : (f d : Candidate) → earlier f d ≡ false → int_ltb f.day d.day ≡ false
unfolding earlier
not_earlier-day f d h = ground arith

pub earliest-none : (cs : List Candidate) → earliest cs ≡ none → cs ≡ []
unfolding earliest
earliest-none [] h = refl
earliest-none (d ∷ cs) h = elim (Option-cases (earliest cs)) [
  | inl e ↦ let step : some d ≡ none = sym (earliest_alone d cs e) ∙ h in cc
  | inr (f, e) ↦
      let step = sym (earliest_first d f cs e) ∙ h in
      elim (Bool-cases (earlier f d)) [
        | inl y ↦ let q : some f ≡ none = ground (arith, step) in cc
        | inr n ↦ let q : some d ≡ none = ground (arith, step) in cc
      ]
]

-- No candidate was last seen on an earlier day than the one that is chosen.
pub earliest-day :
    (cs : List Candidate) (c : Candidate)
    → earliest cs ≡ some c
    → All (λ d. int_ltb d.day c.day ≡ false) cs
unfolding earliest
earliest-day [] c h = tt
earliest-day (d ∷ cs) c h = elim (Option-cases (earliest cs)) [
  | inl e ↦
      let same = some-injective d c (sym (earliest_alone d cs e) ∙ h) in
      (rw (← same) (int_ltb_irrefl d.day), rw (earliest-none cs e) tt)
  | inr (f, e) ↦
      let step = sym (earliest_first d f cs e) ∙ h in
      let least = earliest-day cs f e in
      elim (Bool-cases (earlier f d)) [
        | inl y ↦
            let same : f ≡ c = some-injective f c (ground (arith, step)) in
            subst (λ x. (int_ltb d.day x.day ≡ false) × All (λ y. int_ltb y.day x.day ≡ false) cs)
              same (earlier-day f d y, least)
        | inr n' ↦
            let same : d ≡ c = some-injective d c (ground (arith, step)) in
            subst (λ x. (int_ltb d.day x.day ≡ false) × All (λ y. int_ltb y.day x.day ≡ false) cs)
              same
              (
                int_ltb_irrefl d.day,
                All-mono (λ x. int_ltb x.day f.day ≡ false) (λ x. int_ltb x.day d.day ≡ false)
                    (λ x q. int_ltb_trans x.day f.day d.day q (not_earlier-day f d n')) cs least,
              )
      ]
]
