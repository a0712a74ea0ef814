-- ===== src/WebSocket/State/Limits.antt =====
-- src/core/codex/src/responses_websocket_state.rs: the output that is kept in the states that a connection
-- reaches.
use mini_sub2api.Base.{
  ℕ, ◌-◌, ◌≤◌, ◌≡◌, refl, sym, subst, String, Bool, true, false, not, ◌&&◌, Option, none, some,
  arith, Option-cases, Bool-cases, inl, inr, if◌then◌else◌,
}
use mini_sub2api.Base.Json.{Value, get}
use mini_sub2api.WebSocket.Types.{PrewarmMode, OperationKind, same_kind}
use mini_sub2api.WebSocket.Interrupt
use mini_sub2api.WebSocket.Parts.{Parts}
use mini_sub2api.WebSocket.Reuse.{request_snapshot, encoded_len_within, reusable_item}
use mini_sub2api.WebSocket.State.{
  ActiveOperation, SocketState, new_state, set_phase, mark_rebuilt_reference,
  disable_automatic_reuse, fail_operation, fail_active, reset_for_reconnect, expire_baseline,
  abandon_cached_bodies, abandon_active, active_unless,
}
use mini_sub2api.WebSocket.State.Output.{
  complete, is_valid_end, measure_item, take_item, observed_compaction, index_of,
  observe_output_item,
}
use mini_sub2api.WebSocket.State.Plan.{
  present, pending_kind, setup_allowed, setup_frame_of, start_setup, plan_hidden_setup,
  plan_public_from, plan_public_create, abandon_pending_operation, start, activate,
}
use mini_sub2api.WebSocket.State.Observe.{observe_server_event, request_interrupt}
use mini_sub2api.WebSocket.State.Cases.{noted, observe_active-cases}
use mini_sub2api.WebSocket.State.Orderly.{abandon-pending, abandon-nothing}
use mini_sub2api.WebSocket.State.Moves.{Moves, Reached}
use mini_sub2api.WebSocket.State.Bounded.{
  FitsLimits, abandon_output-FitsLimits, keep_item-FitsLimits,
}

within_len :
    (parts : Parts) (item : Value) (maximum n : ℕ)
    → encoded_len_within parts item maximum ≡ some n
    → (n ≡ parts.encoded_len item) × (n ≤ maximum)
unfolding encoded_len_within
within_len parts item maximum n h = ground arith

module _ {parts : Parts} where
  measure_item-FitsLimits :
      (items bytes : ℕ) (event item : Value) (a : ActiveOperation parts)
      → FitsLimits parts items bytes a
      → FitsLimits parts items bytes (measure_item items bytes event item a)
  unfolding measure_item
  measure_item-FitsLimits items bytes event item a h =
      elim (Option-cases (encoded_len_within parts item (bytes - a.output_bytes))) [
        | inl e ↦ rw (e, measure_item) (abandon_output-FitsLimits items bytes a)
        | inr (n, e) ↦
            let (same, le) = within_len parts item (bytes - a.output_bytes) n e in
            rw (e, measure_item)
              (keep_item-FitsLimits items bytes (index_of event a) item n a same le h)
      ]

  if-FitsLimits :
      (items bytes : ℕ) (b : Bool) (x y : ActiveOperation parts)
      → FitsLimits parts items bytes x
      → FitsLimits parts items bytes y
      → FitsLimits parts items bytes (if b then x else y)
  if-FitsLimits items bytes true x y h k = h
  if-FitsLimits items bytes false x y h k = k

  take_item-FitsLimits :
      (items bytes : ℕ) (event : Value) (o : Option Value) (a : ActiveOperation parts)
      → FitsLimits parts items bytes a
      → FitsLimits parts items bytes (take_item items bytes event o a)
  unfolding take_item
  take_item-FitsLimits items bytes event none a h =
      if-FitsLimits items bytes a.reusable _ _ (abandon_output-FitsLimits items bytes a) h
  take_item-FitsLimits items bytes event (some item) a h =
      if-FitsLimits items bytes a.reusable _ _
        (if-FitsLimits items bytes (reusable_item item) _ _
          (measure_item-FitsLimits items bytes event item a h)
          (abandon_output-FitsLimits items bytes a))
        h

  observe_output_item-FitsLimits :
      (items bytes : ℕ) (event : Value) (a : ActiveOperation parts)
      → FitsLimits parts items bytes a
      → FitsLimits parts items bytes (observe_output_item items bytes event a)
  unfolding observe_output_item
  observe_output_item-FitsLimits items bytes event a h = elim (Option-cases (get event "item")) [
    | inl e ↦ rw (e, observe_output_item) (take_item-FitsLimits items bytes event none a h)
    | inr (item, e) ↦
        rw (e, observe_output_item)
          (take_item-FitsLimits items bytes event (some item) (observed_compaction (some item) a) h)
  ]

  abbrev pub FitsActive : ℕ → ℕ → Option (ActiveOperation parts) → Type 0
  FitsActive items bytes none = Unit
  FitsActive items bytes (some a) = FitsLimits parts items bytes a

  -- What is kept of the output of the active response keeps to the limits.
  abbrev pub IsBounded : SocketState parts → Type 0
  IsBounded s = FitsActive s.max_output_items s.max_output_bytes s.active

  active_unless-FitsActive :
      (items bytes : ℕ) (k : OperationKind) (o : Option (ActiveOperation parts))
      → FitsActive items bytes o
      → FitsActive items bytes (active_unless k o)
  active_unless-FitsActive items bytes k none h = tt
  active_unless-FitsActive items bytes k (some a) h = elim (Bool-cases (same_kind a.kind k)) [
    | inl y ↦ rw (y, active_unless) tt
    | inr n ↦ rw (n, active_unless) h
  ]

  fail_operation-IsBounded :
      (k : OperationKind) (s : SocketState parts) → IsBounded s → IsBounded (fail_operation k s)
  unfolding fail_operation set_phase
  fail_operation-IsBounded k s h =
      active_unless-FitsActive s.max_output_items s.max_output_bytes k s.active h

  abandon_pending-IsBounded :
      (s : SocketState parts) → IsBounded s → IsBounded (abandon_pending_operation s)
  abandon_pending-IsBounded s h = elim (Option-cases (pending_kind s)) [
    | inl e ↦ subst IsBounded (sym (abandon-nothing s e)) h
    | inr (k, e) ↦ subst IsBounded (sym (abandon-pending k s e)) (fail_operation-IsBounded k s h)
  ]

  setup-IsBounded :
      (request : Value) (mode : PrewarmMode) (s : SocketState parts)
      → IsBounded s
      → IsBounded (plan_hidden_setup request mode s).1
  unfolding plan_hidden_setup start_setup set_phase
  setup-IsBounded request mode s h = elim (Bool-cases (setup_allowed request s)) [
    | inr n ↦ rw (n, plan_hidden_setup) h
    | inl y ↦ elim (Option-cases (setup_frame_of parts request mode)) [
      | inl e ↦ rw (y, e, plan_hidden_setup) h
      | inr (frame, e) ↦ elim (Option-cases (request_snapshot frame)) [
        | inl e' ↦ rw (y, e, plan_hidden_setup) (rw (e', start_setup) h)
        | inr (snapshot, e') ↦ rw (y, e, plan_hidden_setup) (rw (e', start_setup) h)
      ]
    ]
  ]

  attempt-IsBounded :
      (kind : OperationKind) (s : SocketState parts) → IsBounded s → IsBounded (activate kind s).1
  unfolding activate start set_phase
  attempt-IsBounded kind s h = elim (Option-cases s.planned) [
    | inl e ↦ rw (e, activate) h
    | inr (p, e) ↦ elim (Bool-cases (same_kind p.kind kind && not (present s.active))) [
      | inr n ↦ rw (e, n, activate) h
      | inl y ↦ rw (e, y, activate) (tt, refl, omega arith)
    ]
  ]

  complete-IsBounded :
      (event : Value) (a : ActiveOperation parts) (s : SocketState parts)
      → IsBounded (complete event a s).1
  unfolding complete set_phase fail_active
  complete-IsBounded event a s = elim (Bool-cases (is_valid_end event a)) [
    | inl y ↦ rw (y, complete) tt
    | inr n ↦ rw (n, complete) tt
  ]

  observe-IsBounded :
      (event : Value) (s : SocketState parts)
      → IsBounded s
      → IsBounded (observe_server_event event s).2
  unfolding observe_server_event fail_active set_phase
  observe-IsBounded event s h = elim (Option-cases s.active) [
    | inl e ↦ rw (e, observe_server_event) h
    | inr (a, e) ↦
        let fits = subst (FitsActive s.max_output_items s.max_output_bytes) e h in
        rw (e, observe_server_event)
          (observe_active-cases (λ r. IsBounded r.1) event a s fits tt
            (λ i l.
              observe_output_item-FitsLimits s.max_output_items s.max_output_bytes event _ fits)
            (λ i l. complete-IsBounded event _ (noted event a s)) (λ i l. fits))
  ]

  interrupt-IsBounded :
      (id : String) (s : SocketState parts) → IsBounded s → IsBounded (request_interrupt id s).1
  unfolding request_interrupt
  interrupt-IsBounded id s h = elim (Option-cases s.active) [
    | inl e ↦ rw (e, request_interrupt) h
    | inr (a, e) ↦
        elim (Bool-cases
          (same_kind a.kind OperationKind.public_create && not (present a.pending_compaction))) [
            | inr n ↦ rw (e, n, request_interrupt) h
            | inl y ↦ elim (Option-cases (Interrupt.request id a.interruption)) [
              | inl e' ↦ rw (e, y, e', request_interrupt) h
              | inr (i, e') ↦
                  rw (e, y, e', request_interrupt)
                    (subst (FitsActive s.max_output_items s.max_output_bytes) e h)
            ]
          ]
  ]

  abandon_active-FitsActive :
      (items bytes : ℕ) (o : Option (ActiveOperation parts))
      → FitsActive items bytes (abandon_active o)
  abandon_active-FitsActive items bytes none = tt
  abandon_active-FitsActive items bytes (some a) = abandon_output-FitsLimits items bytes _

  Moves-IsBounded : (s r : SocketState parts) → Moves s r → IsBounded s → IsBounded r
  unfolding expire_baseline disable_automatic_reuse mark_rebuilt_reference reset_for_reconnect
      abandon_cached_bodies plan_public_create plan_public_from set_phase
  Moves-IsBounded _ _ (Moves.setup request mode s) h = setup-IsBounded request mode s h
  Moves-IsBounded _ _ (Moves.create request pending s) h = abandon_pending-IsBounded s h
  Moves-IsBounded _ _ (Moves.attempt kind s) h = attempt-IsBounded kind s h
  Moves-IsBounded _ _ (Moves.observe event s) h = observe-IsBounded event s h
  Moves-IsBounded _ _ (Moves.interrupt id s) h = interrupt-IsBounded id s h
  Moves-IsBounded _ _ (Moves.fail kind s) h = fail_operation-IsBounded kind s h
  Moves-IsBounded _ _ (Moves.reset s) h = tt
  Moves-IsBounded _ _ (Moves.expire s) h = h
  Moves-IsBounded _ _ (Moves.abandon s) h =
      abandon_active-FitsActive s.max_output_items s.max_output_bytes s.active
  Moves-IsBounded _ _ (Moves.disable s) h = h
  Moves-IsBounded _ _ (Moves.rebuilt b s) h = h

  -- In every state that a connection reaches, the items that are kept of the active response have
  -- ascending indexes under the limit on items, and their encoded lengths add up to the counted bytes,
  -- which keep to the limit on bytes.
  pub Reached-IsBounded : (s : SocketState parts) → Reached s → IsBounded s
  unfolding new_state
  Reached-IsBounded _ (Reached.fresh caller profile items bytes) = tt
  Reached-IsBounded r (Reached.then {s} before move) =
      Moves-IsBounded s r move (Reached-IsBounded s before)
