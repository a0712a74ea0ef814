-- ===== src/WebSocket/State/Reached.antt =====
-- src/core/codex/src/responses_websocket_state.rs: the phases in the states that a connection reaches.
use mini_sub2api.Base.{
  ℕ, ◌-◌, ◌≡◌, refl, sym, subst, String, true, not, ◌&&◌, Option, none, some, arith, Option-cases,
  Bool-cases, inl, inr,
}
use mini_sub2api.Base.Json.{Value, get}
use mini_sub2api.WebSocket.Types.{PrewarmMode, OperationKind, OperationPhase, same_kind}
use mini_sub2api.WebSocket.Interrupt
use mini_sub2api.WebSocket.Interrupt.{InterruptState}
use mini_sub2api.WebSocket.Parts.{Parts}
use mini_sub2api.WebSocket.Reuse.{request_snapshot, encoded_len_within}
use mini_sub2api.WebSocket.State.{
  ActiveOperation, SocketState, new_state, set_phase, mark_rebuilt_reference,
  disable_automatic_reuse, expire_baseline, abandon_cached_bodies, abandon_output,
}
use mini_sub2api.WebSocket.State.Output.{
  complete, is_valid_end, keep_item, measure_item, take_item, observed_compaction, index_of,
  observe_output_item,
}
use mini_sub2api.WebSocket.State.Plan.{
  present, setup_allowed, setup_frame_of, start_setup, plan_hidden_setup, plan_public_from,
  plan_public_create, abandon_pending_operation, start, activate,
}
use mini_sub2api.WebSocket.State.Observe.{observe_active, observe_server_event, request_interrupt}
use mini_sub2api.WebSocket.State.Cases.{noted, observe_active-cases}
use mini_sub2api.WebSocket.State.Orderly.{
  IsOrderly, planned_kind, active_kind, noted-orderly, abandon-AbandonsAll,
  fail_operation-IsOrderly, fail_active-IsOrderly, reset-IsOrderly,
}
use mini_sub2api.WebSocket.State.Phases.{
  orderly, orderly-planned, orderly-started, orderly-ended, not_both, is_planned, is_running,
}
use mini_sub2api.WebSocket.State.Moves.{Moves, Reached}

module _ {parts : Parts} where
  start_setup-IsOrderly :
      (frame : Value) (s : SocketState parts)
      → s.planned ≡ none
      → s.active ≡ none
      → IsOrderly s
      → IsOrderly (start_setup frame s).1
  unfolding start_setup set_phase
  start_setup-IsOrderly frame s ep ea h = elim (Option-cases (request_snapshot frame)) [
    | inl e ↦ rw (e, start_setup) h
    | inr (snapshot, e) ↦
        rw (e, start_setup)
          (rw ea (
            orderly-planned OperationKind.hidden_setup s.setup_phase s.public_phase (
              subst (λ o. orderly (planned_kind o) none s.setup_phase s.public_phase ≡ true) ep
                (subst
                  (λ o.
                    orderly (planned_kind s.planned) (active_kind o) s.setup_phase s.public_phase
                    ≡ true)
                  ea h))))
  ]

  setup_allowed-none :
      (request : Value) (s : SocketState parts)
      → setup_allowed request s ≡ true
      → (s.planned ≡ none) × (s.active ≡ none)
  unfolding setup_allowed
  setup_allowed-none request s h = ground (arith, Option-cases s.planned, Option-cases s.active)

  setup-IsOrderly :
      (request : Value) (mode : PrewarmMode) (s : SocketState parts)
      → IsOrderly s
      → IsOrderly (plan_hidden_setup request mode s).1
  unfolding plan_hidden_setup
  setup-IsOrderly request mode s h = elim (Bool-cases (setup_allowed request s)) [
    | inr n ↦ rw (n, plan_hidden_setup) h
    | inl y ↦ elim (Option-cases (setup_frame_of parts request mode)) [
      | inl e ↦ rw (y, e, plan_hidden_setup) h
      | inr (frame, e) ↦
          let (ep, ea) = setup_allowed-none request s y in
          rw (y, e, plan_hidden_setup) (start_setup-IsOrderly frame s ep ea h)
    ]
  ]

  create-IsOrderly :
      (request : Value) (pending : Option parts.Pending) (s : SocketState parts)
      → IsOrderly s
      → IsOrderly (plan_public_create request pending s).2
  unfolding plan_public_create plan_public_from set_phase
  create-IsOrderly request pending s h =
      let a = abandon_pending_operation s in
      let (ep, ea, ho) = abandon-AbandonsAll s h in
      subst
        (λ o.
          orderly (some OperationKind.public_create) (active_kind o) a.setup_phase
            OperationPhase.planned
          ≡ true)
        (sym ea)
        (orderly-planned OperationKind.public_create a.setup_phase a.public_phase (
          subst (λ o. orderly (planned_kind o) none a.setup_phase a.public_phase ≡ true) ep
            (subst
              (λ o.
                orderly (planned_kind a.planned) (active_kind o) a.setup_phase a.public_phase
                ≡ true)
              ea ho)))

  attempt-IsOrderly :
      (kind : OperationKind) (s : SocketState parts) → IsOrderly s → IsOrderly (activate kind s).1
  unfolding activate start set_phase
  attempt-IsOrderly kind s h = elim (Option-cases s.planned) [
    | inl e ↦ rw (e, activate) h
    | inr (p, e) ↦ elim (Bool-cases (same_kind p.kind kind && not (present s.active))) [
      | inr n ↦ rw (e, n, activate) h
      | inl y ↦
          let ea : s.active ≡ none = ground (arith, Option-cases s.active) in
          rw (e, y, activate)
            (orderly-started p.kind s.setup_phase s.public_phase (
              subst (λ o. orderly (planned_kind o) none s.setup_phase s.public_phase ≡ true) e
                (subst
                  (λ o.
                    orderly (planned_kind s.planned) (active_kind o) s.setup_phase s.public_phase
                    ≡ true)
                  ea h)))
    ]
  ]

  keep_item-kind :
      (max_items : ℕ) (item : Value) (encoded : ℕ) (i : ℕ) (a : ActiveOperation parts)
      → (keep_item max_items i item encoded a).kind ≡ a.kind
  unfolding keep_item abandon_output
  keep_item-kind max_items item encoded i a = ground arith

  measure_item-kind :
      (max_items max_bytes : ℕ) (event item : Value) (a : ActiveOperation parts)
      → (measure_item max_items max_bytes event item a).kind ≡ a.kind
  unfolding measure_item abandon_output
  measure_item-kind max_items max_bytes event item a =
      elim (Option-cases (encoded_len_within parts item (max_bytes - a.output_bytes))) [
        | inl e ↦ rw (e, measure_item) refl
        | inr (n, e) ↦ rw (e, measure_item) (keep_item-kind max_items item n (index_of event a) a)
      ]

  take_item-kind :
      (max_items max_bytes : ℕ) (event : Value) (o : Option Value) (a : ActiveOperation parts)
      → (take_item max_items max_bytes event o a).kind ≡ a.kind
  unfolding take_item abandon_output
  take_item-kind max_items max_bytes event none a = ground arith
  take_item-kind max_items max_bytes event (some item) a =
      ground (arith, measure_item-kind max_items max_bytes event item a)

  observe_output_item-kind :
      (max_items max_bytes : ℕ) (event : Value) (a : ActiveOperation parts)
      → (observe_output_item max_items max_bytes event a).kind ≡ a.kind
  unfolding observe_output_item
  observe_output_item-kind max_items max_bytes event a = elim (Option-cases (get event "item")) [
    | inl e ↦ rw (e, observe_output_item) (take_item-kind max_items max_bytes event none a)
    | inr (item, e) ↦
        rw (e, observe_output_item)
          (take_item-kind max_items max_bytes event (some item) (observed_compaction (some item) a))
  ]

  complete-IsOrderly :
      (event : Value) (a : ActiveOperation parts) (s : SocketState parts)
      → orderly (planned_kind s.planned) (some a.kind) s.setup_phase s.public_phase ≡ true
      → IsOrderly (complete event a s).1
  unfolding complete set_phase is_planned is_running
  complete-IsOrderly event a s h = elim (Bool-cases (is_valid_end event a)) [
    | inl y ↦
        let ep : planned_kind s.planned ≡ none =
          not_both (planned_kind s.planned) a.kind s.setup_phase s.public_phase h in
        rw (y, complete)
          (rw ep (
            orderly-ended a.kind (planned_kind s.planned) OperationPhase.completed s.setup_phase
              s.public_phase refl refl h))
    | inr n ↦
        rw (n, complete)
          (fail_active-IsOrderly a.kind (record s { active = none }) (planned_kind s.planned) h)
  ]

  observe_active-IsOrderly :
      (event : Value) (a : ActiveOperation parts) (s : SocketState parts)
      → s.active ≡ some a
      → IsOrderly s
      → IsOrderly (observe_active event a s).1
  unfolding observe_output_item
  observe_active-IsOrderly event a s e h =
      let seen = noted-orderly event a s e h in
      observe_active-cases (λ r. IsOrderly r.1) event a s seen
        (fail_active-IsOrderly a.kind (noted event a s) (planned_kind (noted event a s).planned)
          seen)
        (λ i l.
          subst
            (λ k.
              orderly (planned_kind (noted event a s).planned) (some k)
                (noted event a s).setup_phase (noted event a s).public_phase
              ≡ true)
            (sym (
              observe_output_item-kind (noted event a s).max_output_items
                (noted event a s).max_output_bytes event _))
            seen)
        (λ i l. complete-IsOrderly event _ (noted event a s) seen) (λ i l. seen)

  observe-IsOrderly :
      (event : Value) (s : SocketState parts)
      → IsOrderly s
      → IsOrderly (observe_server_event event s).2
  unfolding observe_server_event
  observe-IsOrderly event s h = elim (Option-cases s.active) [
    | inl e ↦ rw (e, observe_server_event) h
    | inr (a, e) ↦ rw (e, observe_server_event) (observe_active-IsOrderly event a s e h)
  ]

  interrupt-IsOrderly :
      (id : String) (s : SocketState parts) → IsOrderly s → IsOrderly (request_interrupt id s).1
  unfolding request_interrupt
  interrupt-IsOrderly id s h = elim (Option-cases s.active) [
    | inl e ↦ rw (e, request_interrupt) h
    | inr (a, e) ↦
        elim (Bool-cases
          (same_kind a.kind OperationKind.public_create && not (present a.pending_compaction))) [
            | inr n ↦ rw (e, n, request_interrupt) h
            | inl y ↦ elim (Option-cases (Interrupt.request id a.interruption)) [
              | inl e' ↦ rw (e, y, e', request_interrupt) h
              | inr (i, e') ↦
                  rw (e, y, e', request_interrupt)
                    (subst
                      (λ o.
                        orderly (planned_kind s.planned) (active_kind o) s.setup_phase
                          s.public_phase
                        ≡ true)
                      e h)
            ]
          ]
  ]

  abandon-IsOrderly : (s : SocketState parts) → IsOrderly s → IsOrderly (abandon_cached_bodies s)
  unfolding abandon_cached_bodies abandon_output
  abandon-IsOrderly s h = ground (arith, Option-cases s.planned, Option-cases s.active)

  -- Every step keeps the phases in order.
  Moves-IsOrderly : (s r : SocketState parts) → Moves s r → IsOrderly s → IsOrderly r
  unfolding expire_baseline disable_automatic_reuse mark_rebuilt_reference
  Moves-IsOrderly _ _ (Moves.setup request mode s) h = setup-IsOrderly request mode s h
  Moves-IsOrderly _ _ (Moves.create request pending s) h = create-IsOrderly request pending s h
  Moves-IsOrderly _ _ (Moves.attempt kind s) h = attempt-IsOrderly kind s h
  Moves-IsOrderly _ _ (Moves.observe event s) h = observe-IsOrderly event s h
  Moves-IsOrderly _ _ (Moves.interrupt id s) h = interrupt-IsOrderly id s h
  Moves-IsOrderly _ _ (Moves.fail kind s) h = fail_operation-IsOrderly kind s h
  Moves-IsOrderly _ _ (Moves.reset s) h = reset-IsOrderly s
  Moves-IsOrderly _ _ (Moves.expire s) h = h
  Moves-IsOrderly _ _ (Moves.abandon s) h = abandon-IsOrderly s h
  Moves-IsOrderly _ _ (Moves.disable s) h = h
  Moves-IsOrderly _ _ (Moves.rebuilt b s) h = h

  -- In every state that a connection reaches, a kind of operation is in the planned phase exactly when it
  -- is the planned operation, it is in an attempted or an observed phase exactly when it is the active
  -- operation, and nothing is planned while something is active.
  pub Reached-IsOrderly : (s : SocketState parts) → Reached s → IsOrderly s
  unfolding new_state orderly is_planned is_running
  Reached-IsOrderly _ (Reached.fresh caller profile items bytes) = refl
  Reached-IsOrderly r (Reached.then {s} before move) =
      Moves-IsOrderly s r move (Reached-IsOrderly s before)
