-- ===== src/WebSocket/State/Continued.antt =====
-- src/core/codex/src/responses_websocket_state.rs and responses_websocket_reuse.rs: the requests that
-- continue a cached response.
use mini_sub2api.Base.{
  ℕ, zero, suc, ◌+◌, ◌≤◌, ◌≡◌, refl, sym, ◌∙◌, ap, subst, Bool, true, false, not, ◌&&◌, ◌||◌,
  Option, none, some, List, [], ◌∷◌, ◌++◌, length, take, drop, take-append-drop, str_eq,
  if◌then◌else◌, arith, Option-cases, Bool-cases, inl, inr,
}
use mini_sub2api.WebSocket.State.Orderly.{abandon-pending, abandon-nothing}
use mathlib.Core.Option.{some-injective}
use mini_sub2api.Base.Json.{Value, Fields, as_object, insert_field, items_of}
use mini_sub2api.WebSocket.Types.{
  PublicCreateMode, UpstreamProfile, emulates_codex, uses_subscription_transport,
}
use mini_sub2api.WebSocket.Parts.{Parts}
use mini_sub2api.WebSocket.Equivalence.{equivalent_items_for_reuse}
use mini_sub2api.WebSocket.Reuse.{
  RequestSnapshot, ReuseBaseline, has_explicit_state_carrier, request_snapshot, continues,
  incremental_input, same_text,
}
use mini_sub2api.WebSocket.State.{SocketState, automatic_reuse_enabled, fail_operation, set_phase}
use mini_sub2api.WebSocket.State.Plan.{
  pending_kind, ordered, plain_mode, continue_with, choose_automatic, choose_mode, plan_public_from,
  plan_public_create, abandon_pending_operation,
}

length-take : {A : Type 0} (n : ℕ) (xs : List A) → n ≤ length xs → length (take n xs) ≡ n
length-take zero xs h = refl
length-take (suc n) [] h = absurd (omega arith)
length-take (suc n) (x ∷ xs) h = omega (arith, length-take n xs (omega arith))

-- `mode == PublicCreateMode::Incremental`
unfoldable pub is_incremental : PublicCreateMode → Bool
is_incremental PublicCreateMode.incremental = true
is_incremental _ = false

module _ (parts : Parts) where
  -- The front of the current input stands for the cached request and its output.
  abbrev pub IsFront : ReuseBaseline → RequestSnapshot → List Value → List Value → Type 0
  IsFront b c front delta =
      (c.input ≡ front ++ delta)
      × (length front ≡ length b.request.comparison_input + length b.output)
      × (same_text b.request.thread_id c.thread_id ≡ true)
      × (parts.same_value (Value.object b.request.properties) (Value.object c.properties) ≡ true)
      × (str_eq b.response_id "" ≡ false)
      × (equivalent_items_for_reuse parts (b.request.comparison_input ++ b.output)
            (take (length b.request.comparison_input + length b.output) c.comparison_input)
          ≡ true)

  incremental_input-IsFront :
      (b : ReuseBaseline) (c : RequestSnapshot) (delta : List Value)
      → incremental_input parts b c ≡ some delta
      → (front : List Value) × IsFront b c front delta
  unfolding incremental_input continues
  incremental_input-IsFront b c delta h =
      let n = length b.request.comparison_input + length b.output in
      let yes' : continues parts b c ≡ true = ground (arith, Bool-cases (continues parts b c)) in
      let same : drop n c.input ≡ delta =
        some-injective _ _ (sym (rw (yes', incremental_input) refl) ∙ h) in
      (
        take n c.input,
        (
          sym (take-append-drop n c.input) ∙ ap (λ d. take n c.input ++ d) same,
          length-take n c.input (ground arith),
          ground arith,
          ground arith,
          ground arith,
          ground arith,
        ),
      )

  -- What a request that continues the baseline is planned as.
  abbrev pub ContinuesWith :
      Option ReuseBaseline → Option RequestSnapshot → Value → Value → Option ReuseBaseline → Type 0
  ContinuesWith baseline snapshot request frame kept =
      (b : ReuseBaseline) × (c : RequestSnapshot) × (front : List Value) × (delta : List Value)
      × (fields : Fields) × (baseline ≡ some b)
      × (snapshot ≡ some c)
      × (as_object request ≡ some fields)
      × IsFront b c front delta
      × (frame
          ≡ Value.object (
              insert_field "input" (Value.array (items_of delta))
                (insert_field "previous_response_id" (Value.string b.response_id) fields)))
      × (kept ≡ some b)

  continue_none :
      (b : ReuseBaseline) (delta : List Value) (request : Value)
      → as_object request ≡ none
      → continue_with b delta request ≡ (PublicCreateMode.full, request, none)
  unfolding continue_with
  continue_none b delta request n = rw (n, continue_with) refl

  continue_with-ContinuesWith :
      (b : ReuseBaseline) (c : RequestSnapshot) (delta : List Value) (request : Value)
      → incremental_input parts b c ≡ some delta
      → is_incremental (continue_with b delta request).0 ≡ true
      → ContinuesWith
          (some b)
          (some c)
          request
          (continue_with b delta request).1
          (continue_with b delta request).2
  unfolding continue_with is_incremental
  continue_with-ContinuesWith b c delta request e h = elim (Option-cases (as_object request)) [
    | inl n ↦
        let q : false ≡ true =
          subst (λ r. is_incremental r.0 ≡ true) (continue_none b delta request n) h in
        cc
    | inr (fields, y) ↦
        let (front, f) = incremental_input-IsFront b c delta e in
        rw (y, continue_with) (b, c, front, delta, fields, refl, refl, refl, f, refl, refl)
  ]

  choose_some :
      (b : ReuseBaseline) (c : RequestSnapshot) (delta : List Value) (request : Value)
      → incremental_input parts b c ≡ some delta
      → choose_automatic parts (some b) (some c) request ≡ continue_with b delta request
  unfolding choose_automatic
  choose_some b c delta request y = rw (y, choose_automatic) refl

  choose_automatic-ContinuesWith :
      (baseline : Option ReuseBaseline) (snapshot : Option RequestSnapshot) (request : Value)
      → is_incremental (choose_automatic parts baseline snapshot request).0 ≡ true
      → ContinuesWith baseline snapshot request
          (choose_automatic parts baseline snapshot request).1
          (choose_automatic parts baseline snapshot request).2
  unfolding choose_automatic is_incremental
  choose_automatic-ContinuesWith (some b) (some c) request h =
      elim (Option-cases (incremental_input parts b c)) [
        | inl n ↦ absurd (ground (arith, n))
        | inr (delta, y) ↦
            subst (λ r. ContinuesWith (some b) (some c) request r.1 r.2)
              (sym (choose_some b c delta request y))
              (continue_with-ContinuesWith b c delta request y
                (subst (λ r. is_incremental r.0 ≡ true) (choose_some b c delta request y) h))
      ]
  choose_automatic-ContinuesWith none snapshot request h = absurd (ground arith)
  choose_automatic-ContinuesWith (some b) none request h = absurd (ground arith)

  choose_mode-ContinuesWith :
      (explicit automatic : Bool) (profile : UpstreamProfile) (baseline : Option ReuseBaseline)
      (snapshot : Option RequestSnapshot) (request : Value)
      → is_incremental (choose_mode parts explicit automatic profile baseline snapshot request).0
        ≡ true
      → (explicit ≡ false)
        × (automatic ≡ true)
        × ContinuesWith baseline snapshot request
            (choose_mode parts explicit automatic profile baseline snapshot request).1
            (choose_mode parts explicit automatic profile baseline snapshot request).2
  unfolding choose_mode plain_mode is_incremental
  choose_mode-ContinuesWith true automatic profile baseline snapshot request h =
      absurd (ground arith)
  choose_mode-ContinuesWith false false profile baseline snapshot request h = absurd (ground arith)
  choose_mode-ContinuesWith false true profile baseline snapshot request h =
      (refl, refl, choose_automatic-ContinuesWith baseline snapshot request h)

or_false : (x y : Bool) → (x || y) ≡ false → y ≡ false
or_false x y h = ground arith

and_true : (x y : Bool) → (x && y) ≡ true → x ≡ true
and_true x y h = ground arith

module _ {parts : Parts} where
  abandoned_baseline :
      (s : SocketState parts) (b : ReuseBaseline)
      → (abandon_pending_operation s).baseline ≡ some b
      → (pending_kind s ≡ none) × (abandon_pending_operation s ≡ s)
  unfolding fail_operation set_phase
  abandoned_baseline s b h = elim (Option-cases (pending_kind s)) [
    | inl e ↦ (e, abandon-nothing s e)
    | inr (k, e) ↦
        let q : none ≡ some b =
          subst (λ (r : SocketState parts). r.baseline ≡ some b) (abandon-pending k s e) h in
        cc
  ]

  emulated :
      (a : SocketState parts) → automatic_reuse_enabled a ≡ true → emulates_codex a.profile ≡ true
  unfolding automatic_reuse_enabled emulates_codex uses_subscription_transport
  emulated a h = ground arith

  plan_public_from-ContinuesWith :
      (request : Value) (pending : Option parts.Pending) (a : SocketState parts)
      → is_incremental (plan_public_from request pending a).0 ≡ true
      → (automatic_reuse_enabled a ≡ true)
        × (has_explicit_state_carrier request ≡ false)
        × (frame : Value) × ((plan_public_from request pending a).1
            ≡ ordered parts.finalize_wire_order frame)
        × ContinuesWith parts a.baseline
            (request_snapshot request)
            request
            frame
            (plan_public_from request pending a).2.baseline
  unfolding plan_public_from set_phase
  plan_public_from-ContinuesWith request pending a h =
      let explicit = a.rebuilt_reference || has_explicit_state_carrier request in
      let automatic = automatic_reuse_enabled a && not explicit in
      let snapshot = if automatic then request_snapshot request else none in
      let chosen = choose_mode parts explicit automatic a.profile a.baseline snapshot request in
      let (no_state, auto, cont) =
        choose_mode-ContinuesWith parts explicit automatic a.profile a.baseline snapshot request
          h in
      let enabled = and_true (automatic_reuse_enabled a) (not explicit) auto in
      let taken : snapshot ≡ request_snapshot request = rw auto refl in
      (
        enabled,
        or_false a.rebuilt_reference (has_explicit_state_carrier request) no_state,
        chosen.1,
        rw (emulated a enabled) refl,
        subst (λ o. ContinuesWith parts a.baseline o request chosen.1 chosen.2) taken cont,
      )

  -- When a public request is planned as incremental, nothing was planned or active, automatic reuse is
  -- on for a bare caller of a subscription, the request carries no state of its own, and its input is
  -- a front that stands for the input and the output of the cached request, followed by the input that
  -- is sent. The frame that is sent names the cached response and has the rest of the request's fields.
  pub plan_public_create-ContinuesWith :
      (request : Value) (pending : Option parts.Pending) (s : SocketState parts)
      → is_incremental (plan_public_create request pending s).0 ≡ true
      → (pending_kind s ≡ none)
        × (automatic_reuse_enabled s ≡ true)
        × (has_explicit_state_carrier request ≡ false)
        × (frame : Value) × ((plan_public_create request pending s).1
            ≡ ordered parts.finalize_wire_order frame)
        × ContinuesWith parts s.baseline
            (request_snapshot request)
            request
            frame
            (plan_public_create request pending s).2.baseline
  unfolding plan_public_create
  plan_public_create-ContinuesWith request pending s h =
      let a = abandon_pending_operation s in
      let (enabled, no_state, frame, sent, cont) =
        plan_public_from-ContinuesWith request pending a h in
      let (idle, same) = abandoned_baseline s cont.0 cont.5 in
      (
        idle,
        subst (λ r. automatic_reuse_enabled r ≡ true) same enabled,
        no_state,
        frame,
        sent,
        subst
            (λ (r : SocketState parts).
              ContinuesWith parts r.baseline (request_snapshot request) request frame
                (plan_public_create request pending s).2.baseline)
            same cont,
      )
