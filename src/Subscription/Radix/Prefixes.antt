-- ===== src/Subscription/Radix/Prefixes.antt =====
-- `prefixes` returns on every valid index, and reports exactly the responses stored along the path.
use mathlib.Core.List.{append_assoc, append_cancel_left}
use mini_sub2api.Base.{
  ℕ, zero, suc, ◌+◌, ◌<◌, ◌≡◌, refl, sym, ap, ◌∙◌, ◌⊎◌, inl, inr, ◌↔◌, String, true, none, some,
  List, [], ◌∷◌, ◌++◌, map, length, length-append, In, In-append, eq_iff, arith, Option-cases,
  subst,
}
use mini_sub2api.Subscription.Radix.{
  Radix, Children, node, edge, strip_prefix, next_child, prefixes_loop, prefixes,
}
use mini_sub2api.Subscription.Radix.Split.{Stored-head}
use mini_sub2api.Subscription.Radix.Stored.{
  Stored, here, below, contains, IsValid, AreValid, valid, get-AreValid,
}

strip_prefix-append : (e r : List ℕ) → strip_prefix e (e ++ r) ≡ some r
unfolding strip_prefix
strip_prefix-append [] r = refl
strip_prefix-append (x ∷ e) r = ground (arith, strip_prefix-append e r)

strip_prefix-eq : (e path r : List ℕ) → strip_prefix e path ≡ some r → path ≡ e ++ r
unfolding strip_prefix
strip_prefix-eq [] path r h = ground arith
strip_prefix-eq (x ∷ e) [] r h = cc
strip_prefix-eq (x ∷ e) (y ∷ path) r h = ground (arith, strip_prefix-eq e path r)

In-terminals :
    (m n : ℕ) (id : String) (ts : List String)
    → In {A = ℕ × String} (m, id) (map (λ t. (n, t)) ts) ↔ ((m ≡ n) × (contains id ts ≡ true))
In-terminals m n id [] = (λ h. absurd h, λ h. cc)
In-terminals m n id (t ∷ ts) =
    let rest = In-terminals m n id ts in
    (λ h. ground (arith, eq_iff t id, rest.0), λ h. ground (arith, eq_iff t id, rest.1))

-- A response `m` keys down the path: what the walk from offset `offset` has to report.
pub record Along (t : Radix) (offset : ℕ) (path : List ℕ) (m : ℕ) (id : String) : Type 0 where
  pub prefix : List ℕ
  pub suffix : List ℕ
  pub joined : path ≡ prefix ++ suffix
  pub at : m ≡ offset + length prefix
  pub stored : Stored t prefix id

abbrev Reports : ℕ → Radix → ℕ → List ℕ → Type 0
Reports fuel t offset path =
    (found : List (ℕ × String)) × (prefixes_loop fuel t offset path ≡ some found)
    × ((m : ℕ) (id : String) → In {A = ℕ × String} (m, id) found ↔ Along t offset path m id)

-- The fuel exceeds what the node's edge leaves of the path, if it lies on the path.
abbrev Fits : ℕ → Radix → List ℕ → Type 0
Fits fuel t path =
    (0 < fuel) × ((r : List ℕ) → strip_prefix (edge t) path ≡ some r → length r < fuel)

Stored-starts :
    (t : Radix) (k : ℕ) (s q : List ℕ) (id : String)
    → edge t ≡ k ∷ s
    → Stored t q id
    → (rest : List ℕ) × (q ≡ k ∷ rest)
Stored-starts (node e ts cs) k s q id p h =
    Stored-head k s q ts cs id (subst (λ z. Stored (node z ts cs) q id) p h)

-- A response along the path is a terminal of the node or lies along the rest, below the child.
Along-cases :
    (e : List ℕ) (ts : List String) (cs : Children) (offset : ℕ) (rest : List ℕ) (m : ℕ)
    (id : String)
    → Along (node e ts cs) offset (e ++ rest) m id
    → ((m ≡ offset + length e) × (contains id ts ≡ true))
      ⊎ ((c : Radix) × (next_child rest cs ≡ some c) × Along c (offset + length e) rest m id)
Along-cases e ts cs offset rest m id a = go a.prefix a.suffix a.joined a.at a.stored
  where
    go :
        (p s : List ℕ)
        → e ++ rest ≡ p ++ s
        → m ≡ offset + length p
        → Stored (node e ts cs) p id
        → ((m ≡ offset + length e) × (contains id ts ≡ true))
          ⊎ ((c : Radix) × (next_child rest cs ≡ some c) × Along c (offset + length e) rest m id)
    go p s j at (here q c) = inl (rw (← q) at, c)
    go p s j at (below k more t q g u) =
        let tail : rest ≡ k ∷ (more ++ s) =
          append_cancel_left e rest (k ∷ (more ++ s))
            (j ∙ ap (λ z. z ++ s) q ∙ append_assoc e (k ∷ more) s) in
        inr (
          t,
          rw tail g,
          record {
            prefix = k ∷ more;
            suffix = s;
            joined = tail;
            at = omega (arith, ap length q, length-append {0} e (k ∷ more));
            stored = u;
          },
        )

Along-here :
    (e : List ℕ) (ts : List String) (cs : Children) (offset : ℕ) (rest : List ℕ) (m : ℕ)
    (id : String)
    → m ≡ offset + length e
    → contains id ts ≡ true
    → Along (node e ts cs) offset (e ++ rest) m id
Along-here e ts cs offset rest m id p c = record {
  prefix = e;
  suffix = rest;
  joined = refl;
  at = p;
  stored = here refl c;
}

Along-below :
    (e : List ℕ) (ts : List String) (cs : Children) (offset : ℕ) (rest : List ℕ) (m : ℕ)
    (id : String) (c : Radix)
    → AreValid cs
    → next_child rest cs ≡ some c
    → Along c (offset + length e) rest m id
    → Along (node e ts cs) offset (e ++ rest) m id
Along-below e ts cs offset [] m id c v g a = cc
Along-below e ts cs offset (k ∷ r) m id c v g a =
    let ((s, starts), _) = get-AreValid k c v g in
    let (more, p) = Stored-starts c k s a.prefix id starts a.stored in
    record {
      prefix = e ++ a.prefix;
      suffix = a.suffix;
      joined = ap (◌++◌ e) a.joined ∙ sym (append_assoc e a.prefix a.suffix);
      at = omega (arith, a.at, length-append {0} e a.prefix);
      stored = below k more c (ap (◌++◌ e) p) g (rw (← p) a.stored);
    }

-- Off the path nothing is stored along it.
Along-strip :
    (e : List ℕ) (ts : List String) (cs : Children) (offset : ℕ) (path : List ℕ) (m : ℕ)
    (id : String)
    → Along (node e ts cs) offset path m id
    → (r : List ℕ) × (strip_prefix e path ≡ some r)
Along-strip e ts cs offset path m id a = go a.prefix a.suffix a.joined a.stored
  where
    go :
        (p s : List ℕ)
        → path ≡ p ++ s
        → Stored (node e ts cs) p id
        → (r : List ℕ) × (strip_prefix e path ≡ some r)
    go p s j (here q c) = (s, rw (j, q) (strip_prefix-append e s))
    go p s j (below k more t q g u) = (
      (k ∷ more) ++ s,
      rw (j, q, append_assoc e (k ∷ more) s) (strip_prefix-append e ((k ∷ more) ++ s)),
    )

child-Fits :
    (fuel : ℕ) (cs : Children) (rest : List ℕ) (c : Radix)
    → AreValid cs
    → next_child rest cs ≡ some c
    → length rest < suc fuel
    → Fits fuel c rest × IsValid c
child-Fits fuel cs [] c v g h = cc
child-Fits fuel cs (k ∷ r) c v g h =
    let ((s, starts), vc) = get-AreValid k c v g in
    (
      (
        omega arith,
        λ r' e. omega (
          arith,
          ap length (strip_prefix-eq (edge c) (k ∷ r) r' e ∙ ap (λ z. z ++ r') starts),
          length-append {0} (k ∷ s) r',
        ),
      ),
      vc,
    )

-- The walk ends at this node.
stop-Reports :
    (e : List ℕ) (ts : List String) (cs : Children) (offset : ℕ) (rest : List ℕ)
    → next_child rest cs ≡ none
    → (m : ℕ) (id : String)
    → In {A = ℕ × String} (m, id) (map (λ t. (offset + length e, t)) ts)
      ↔ Along (node e ts cs) offset (e ++ rest) m id
stop-Reports e ts cs offset rest g m id =
    let terms = In-terminals m (offset + length e) id ts in
    (
      λ h. Along-here e ts cs offset rest m id (terms.0 h).0 (terms.0 h).1,
      λ a. elim (Along-cases e ts cs offset rest m id a) [
        | inl here' ↦ terms.1 here'
        | inr (c, g', _) ↦ cc
      ],
    )

-- The walk goes on to the child `c`, from where `more` is reported.
descend-Reports :
    (e : List ℕ) (ts : List String) (cs : Children) (offset : ℕ) (rest : List ℕ) (c : Radix)
    (more : List (ℕ × String))
    → AreValid cs
    → next_child rest cs ≡ some c
    → ((m : ℕ) (id : String)
        → In {A = ℕ × String} (m, id) more ↔ Along c (offset + length e) rest m id)
    → (m : ℕ) (id : String)
    → In {A = ℕ × String} (m, id) (map (λ t. (offset + length e, t)) ts ++ more)
      ↔ Along (node e ts cs) offset (e ++ rest) m id
descend-Reports e ts cs offset rest c more v g ih m id =
    let terms = In-terminals m (offset + length e) id ts in
    let both = In-append {A = ℕ × String} (m, id) (map (λ t. (offset + length e, t)) ts) more in
    (
      λ h. elim (both.0 h) [
        | inl l ↦ Along-here e ts cs offset rest m id (terms.0 l).0 (terms.0 l).1
        | inr r ↦ Along-below e ts cs offset rest m id c v g ((ih m id).0 r)
      ],
      λ a. elim (Along-cases e ts cs offset rest m id a) [
        | inl here' ↦ both.1 (inl (terms.1 here'))
        | inr (c', g', a') ↦
            let same : c' ≡ c = cc in
            both.1 (inr ((ih m id).1 (subst (λ z. Along z (offset + length e) rest m id) same a')))
      ],
    )

-- One pass of the loop, given the walk below the child.
pass-Reports :
    (fuel : ℕ) (e : List ℕ) (ts : List String) (cs : Children) (offset : ℕ) (rest : List ℕ)
    → AreValid cs
    → ((c : Radix) → next_child rest cs ≡ some c → Reports fuel c (offset + length e) rest)
    → Reports (suc fuel) (node e ts cs) offset (e ++ rest)
unfolding prefixes_loop
pass-Reports fuel e ts cs offset rest v ih = elim (Option-cases (next_child rest cs)) [
  | inl g ↦ (
    map (λ t. (offset + length e, t)) ts,
    rw (strip_prefix-append e rest, prefixes_loop) (rw (g, prefixes_loop)),
    stop-Reports e ts cs offset rest g,
  )
  | inr (c, g) ↦
      let (more, run, iff) = ih c g in
      (
        map (λ t. (offset + length e, t)) ts ++ more,
        ground (arith, strip_prefix-append e rest, g, run),
        descend-Reports e ts cs offset rest c more v g iff,
      )
]

prefixes_loop-Reports :
    (fuel : ℕ) (t : Radix) (offset : ℕ) (path : List ℕ)
    → IsValid t
    → Fits fuel t path
    → Reports fuel t offset path
unfolding prefixes_loop
prefixes_loop-Reports zero t offset path v h = absurd (omega (arith, h.0))
prefixes_loop-Reports (suc fuel) (node e ts cs) offset path (valid v) h =
    elim (Option-cases (strip_prefix e path)) [
      | inl off ↦ (
        [],
        rw (off, prefixes_loop),
        λ m id. (λ i. absurd i, λ a. let (r, on) = Along-strip e ts cs offset path m id a in cc),
      )
      | inr (rest, on) ↦
          subst (Reports (suc fuel) (node e ts cs) offset) (sym (strip_prefix-eq e path rest on)) (
            pass-Reports fuel e ts cs offset rest v (λ c g.
              let (fits, vc) = child-Fits fuel cs rest c v g (h.1 rest on) in
              prefixes_loop-Reports fuel c (offset + length e) rest vc fits))
    ]

-- On every valid index, at every path, `prefixes` returns, and it reports `id` at offset `m` exactly
-- when `id` is stored at a prefix of the path that is `m` keys long.
pub prefixes-Along :
    (t : Radix) (path : List ℕ)
    → IsValid t
    → (found : List (ℕ × String)) × (prefixes t path ≡ some found)
      × ((m : ℕ) (id : String) → In {A = ℕ × String} (m, id) found ↔ Along t 0 path m id)
unfolding prefixes
prefixes-Along t path v = prefixes_loop-Reports (length path + 2) t 0 path v (
  omega arith,
  λ r e. omega (arith, ap length (strip_prefix-eq (edge t) path r e), length-append {0} (edge t) r),
)
