-- ===== src/RequestState/Prune/Descend.antt =====
-- src/core/codex/src/request_state_prune.rs: the loop that `descendant_thread_ids` and
-- `descendant_turn_ids` share. A round that adds nothing ends it.
use mini_sub2api.Base.{
  ℕ, zero, suc, ◌+◌, ◌≤◌, ◌<◌, ◌≡◌, refl, ◌∙◌, sym, ap, String, Bool, true, false, not, ◌&&◌, List,
  [], ◌∷◌, ◌++◌, length, if◌then◌else◌, eq_iff, arith, subst, Bool-cases, inl, inr, All,
}
use mini_sub2api.Base.TextMap.{has_text}

module _ {A : Type 0} (id : A → String) (joins : List String → A → Bool) where
  -- The `for` loop: the identifiers, and whether one was added.
  unfoldable pub round : List A → List String → List String × Bool
  round [] ids = (ids, false)
  round (n ∷ ns) ids =
      let more = round ns (ids ++ id n ∷ []) in
      if joins ids n && not (has_text (id n) ids) then (more.0, true) else round ns ids

  -- The `loop`, on fuel.
  unfoldable pub descend_on : ℕ → List A → List String → List String
  unfolding round
  descend_on zero ns ids = ids
  descend_on (suc fuel) ns ids =
      let next = round ns ids in
      let rest = descend_on fuel ns next.0 in if next.1 then rest else next.0

  -- A round that does not end the loop adds a node, and there is a round more than there are nodes.
  unfoldable pub descend : List A → List String → List String
  unfolding descend_on
  descend ns ids = descend_on (length ns + 1) ns ids

  -- How many nodes are not there yet.
  abbrev pub missing : List String → List A → ℕ
  missing ids [] = 0
  missing ids (n ∷ ns) = if has_text (id n) ids then missing ids ns else suc (missing ids ns)

  -- No node is left that would join and is not there.
  abbrev pub IsClosed : List String → List A → Type 0
  IsClosed ids = All (λ n. (joins ids n && not (has_text (id n) ids)) ≡ false)

  -- Each identifier of the first list is in the second.
  abbrev pub Includes : List String → List String → Type 0
  Includes ids ids' = (k : String) → has_text k ids ≡ true → has_text k ids' ≡ true

  has_text-append :
      (k j : String) (ids : List String) → has_text k ids ≡ true → has_text k (ids ++ j ∷ []) ≡ true
  has_text-append k j [] h = cc
  has_text-append k j (i ∷ ids) h = ground (arith, has_text-append k j ids)

  has_text-snoc : (j : String) (ids : List String) → has_text j (ids ++ j ∷ []) ≡ true
  has_text-snoc j [] = ground (arith, eq_iff j j)
  has_text-snoc j (i ∷ ids) = ground (arith, has_text-snoc j ids)

  pub round-Includes : (ns : List A) (ids : List String) → Includes ids (round ns ids).0
  unfolding round
  round-Includes [] ids k h = h
  round-Includes (n ∷ ns) ids k h = elim (Bool-cases (joins ids n && not (has_text (id n) ids))) [
    | inl new ↦ rw new (round-Includes ns (ids ++ id n ∷ []) k (has_text-append k (id n) ids h))
    | inr old ↦ rw old (round-Includes ns ids k h)
  ]

  missing-Includes :
      (ids ids' : List String)
      → Includes ids ids'
      → (ns : List A) → missing ids' ns ≤ missing ids ns
  missing-Includes ids ids' h [] = omega arith
  missing-Includes ids ids' h (n ∷ ns) = ground (arith, h (id n), missing-Includes ids ids' h ns)

  missing-length : (ids : List String) (ns : List A) → missing ids ns ≤ length ns
  missing-length ids [] = omega arith
  missing-length ids (n ∷ ns) = ground (arith, missing-length ids ns)

  missing_head :
      (ids r : List String) (n : A) (ns : List A)
      → has_text (id n) ids ≡ false
      → has_text (id n) r ≡ true
      → missing r ns ≤ missing ids ns
      → missing r (n ∷ ns) < missing ids (n ∷ ns)
  missing_head ids r n ns out there le = ground arith

  missing_tail :
      (ids r : List String) (n : A) (ns : List A)
      → (has_text (id n) ids ≡ true → has_text (id n) r ≡ true)
      → missing r ns < missing ids ns
      → missing r (n ∷ ns) < missing ids (n ∷ ns)
  missing_tail ids r n ns kept less = ground arith

  round_new :
      (n : A) (ns : List A) (ids : List String)
      → (joins ids n && not (has_text (id n) ids)) ≡ true
      → round (n ∷ ns) ids ≡ ((round ns (ids ++ id n ∷ [])).0, true)
  unfolding round
  round_new n ns ids new = rw new

  round_old :
      (n : A) (ns : List A) (ids : List String)
      → (joins ids n && not (has_text (id n) ids)) ≡ false
      → round (n ∷ ns) ids ≡ round ns ids
  unfolding round
  round_old n ns ids old = rw old

  round-missing :
      (ns : List A) (ids : List String)
      → (round ns ids).1 ≡ true
      → missing (round ns ids).0 ns < missing ids ns
  unfolding round
  round-missing [] ids h = cc
  round-missing (n ∷ ns) ids h = elim (Bool-cases (joins ids n && not (has_text (id n) ids))) [
    | inl new ↦
        let grown = round-Includes ns (ids ++ id n ∷ []) in
        let out : has_text (id n) ids ≡ false = ground arith in
        subst (λ (r : List String × Bool). missing r.0 (n ∷ ns) < missing ids (n ∷ ns))
          (sym (round_new n ns ids new))
          (missing_head ids (round ns (ids ++ id n ∷ [])).0 n ns out
            (grown (id n) (has_text-snoc (id n) ids))
            (missing-Includes ids (round ns (ids ++ id n ∷ [])).0
              (λ k m. grown k (has_text-append k (id n) ids m)) ns))
    | inr old ↦
        let same = round_old n ns ids old in
        subst (λ (r : List String × Bool). missing r.0 (n ∷ ns) < missing ids (n ∷ ns)) (sym same)
          (missing_tail ids (round ns ids).0 n ns (round-Includes ns ids (id n))
            (round-missing ns ids (ap (λ (r : List String × Bool). r.1) (sym same) ∙ h)))
  ]

  round-still :
      (ns : List A) (ids : List String)
      → (round ns ids).1 ≡ false
      → ((round ns ids).0 ≡ ids) × IsClosed ids ns
  unfolding round
  round-still [] ids h = (refl, tt)
  round-still (n ∷ ns) ids h = elim (Bool-cases (joins ids n && not (has_text (id n) ids))) [
    | inl new ↦
        let added : true ≡ false =
          ap (λ (r : List String × Bool). r.1) (sym (round_new n ns ids new)) ∙ h in
        cc
    | inr old ↦
        let same = round_old n ns ids old in
        let (kept, closed) =
          round-still ns ids (ap (λ (r : List String × Bool). r.1) (sym same) ∙ h) in
        (ap (λ (r : List String × Bool). r.0) same ∙ kept, (old, closed))
  ]

  descend_on-Closed :
      (fuel : ℕ) (ns : List A) (ids : List String)
      → missing ids ns < fuel
      → IsClosed (descend_on fuel ns ids) ns
  unfolding descend_on
  descend_on-Closed zero ns ids h = absurd (omega arith)
  descend_on-Closed (suc fuel) ns ids h = elim (Bool-cases (round ns ids).1) [
    | inl more ↦
        rw more
          (descend_on-Closed fuel ns (round ns ids).0 (omega (arith, round-missing ns ids more)))
    | inr done ↦ let (same, closed) = round-still ns ids done in rw done (rw same closed)
  ]

  descend_on-Includes :
      (fuel : ℕ) (ns : List A) (ids : List String) → Includes ids (descend_on fuel ns ids)
  unfolding descend_on
  descend_on-Includes zero ns ids k h = h
  descend_on-Includes (suc fuel) ns ids k h = elim (Bool-cases (round ns ids).1) [
    | inl more ↦
        rw more (descend_on-Includes fuel ns (round ns ids).0 k (round-Includes ns ids k h))
    | inr done ↦ rw done (round-Includes ns ids k h)
  ]

  -- The loop ends because a round adds nothing: each node that would join is there.
  pub descend-Closed : (ns : List A) (ids : List String) → IsClosed (descend ns ids) ns
  unfolding descend
  descend-Closed ns ids =
      descend_on-Closed (length ns + 1) ns ids (omega (arith, missing-length ids ns))

  pub descend-Includes : (ns : List A) (ids : List String) → Includes ids (descend ns ids)
  unfolding descend
  descend-Includes ns ids = descend_on-Includes (length ns + 1) ns ids
