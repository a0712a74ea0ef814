-- ===== src/WebSocket/State/Cases.antt =====
-- src/core/codex/src/responses_websocket_state.rs: the ways in which an observed event changes the state.
use mini_sub2api.Base.{
  ℕ, String, false, ◌&&◌, ◌||◌, Option, none, some, str_eq, Bool-cases, Option-cases, inl, inr,
}
use mini_sub2api.Base.TextMap.{has_text}
use mini_sub2api.Base.Json.{Value, get, text_of}
use mini_sub2api.WebSocket.Types.{OperationPhase}
use mini_sub2api.WebSocket.Interrupt
use mini_sub2api.WebSocket.Interrupt.{InterruptState, completes}
use mini_sub2api.WebSocket.Parts.{Parts}
use mini_sub2api.WebSocket.State.{ActiveOperation, SocketState, set_phase, fail_active}
use mini_sub2api.WebSocket.State.Output.{observe_output_item, complete}
use mini_sub2api.WebSocket.State.Observe.{
  note_token, observe_parts, dispatch, observe_active, failing_types,
}

module _ {parts : Parts} where
  dispatch-cases {κ} :
      (Q : Option parts.Pending × SocketState parts → Type κ) (event_type : String) (event : Value)
      (a : ActiveOperation parts) (s : SocketState parts)
      → Q (
        none,
        record s {
          active = some (observe_output_item s.max_output_items s.max_output_bytes event a);
        },
      )
      → Q (complete event a s)
      → Q (none, fail_active a.kind s)
      → Q (none, record s { active = some a })
      → Q (dispatch event_type event a s)
  unfolding dispatch
  dispatch-cases Q event_type event a s item done fail rest =
      elim (Bool-cases (str_eq event_type "response.output_item.done")) [
        | inl y ↦ rw (y, dispatch) item
        | inr n ↦
            elim (Bool-cases (
              str_eq event_type "response.completed"
              || (str_eq event_type "response.incomplete" && completes a.interruption event))) [
                | inl y ↦ rw (n, y, dispatch) done
                | inr n' ↦ elim (Bool-cases (has_text event_type failing_types)) [
                  | inl y ↦ rw (n, n', y, dispatch) fail
                  | inr n'' ↦ rw (n, n', n'', dispatch) rest
                ]
              ]
      ]

  -- The state when the event has been seen, before it is looked at.
  abbrev pub noted : Value → ActiveOperation parts → SocketState parts → SocketState parts
  noted event a s =
      set_phase a.kind OperationPhase.response_observed
        (record s { setup_turn_state = note_token parts a.kind event s.setup_turn_state })

  -- The observations fail, or change the interruption and the life cycle only.
  observe_parts-cases {κ} :
      (Q : Option (ActiveOperation parts) → Type κ) (max_items : ℕ) (event : Value)
      (a : ActiveOperation parts)
      → Q none
      → ((i : InterruptState) (l : parts.Lifecycle)
          → Q (some (record a { interruption = i; output_lifecycle = l })))
      → Q (observe_parts max_items event a)
  unfolding observe_parts
  observe_parts-cases Q max_items event a fail ok =
      elim (Option-cases (Interrupt.observe event a.interruption)) [
        | inl e ↦ rw (e, observe_parts) fail
        | inr (i, e) ↦ elim (Bool-cases (parts.is_valid_done event)) [
          | inr n ↦ rw (e, n, observe_parts) fail
          | inl y ↦
              elim (Option-cases
                (parts.observe_with_interrupt event max_items i.requested a.output_lifecycle)) [
                  | inl e' ↦ rw (e, y, e', observe_parts) fail
                  | inr (l, e') ↦ rw (e, y, e', observe_parts) (ok i l)
                ]
        ]
      ]

  -- An event of an active operation leaves one of these states.
  pub observe_active-cases {κ} :
      (Q : Option parts.Pending × SocketState parts → Type κ) (event : Value)
      (a : ActiveOperation parts) (s : SocketState parts)
      → Q (none, record (noted event a s) { active = some (record a { reusable = false }) })
      → Q (none, fail_active a.kind (noted event a s))
      → ((i : InterruptState) (l : parts.Lifecycle)
          → Q (
            none,
            record (noted event a s) {
              active = some (
                  observe_output_item
                    (noted event a s).max_output_items
                    (noted event a s).max_output_bytes
                    event
                    (record a { interruption = i; output_lifecycle = l }));
            },
          ))
      → ((i : InterruptState) (l : parts.Lifecycle)
          → Q (
              complete event
                (record a { interruption = i; output_lifecycle = l })
                (noted event a s)))
      → ((i : InterruptState) (l : parts.Lifecycle)
          → Q (
            none,
            record (noted event a s) {
              active = some (record a { interruption = i; output_lifecycle = l });
            },
          ))
      → Q (observe_active event a s)
  unfolding observe_active
  observe_active-cases Q event a s untyped fail item done rest =
      elim (Option-cases (text_of (get event "type"))) [
        | inl e ↦ rw (e, observe_active) untyped
        | inr (event_type, e) ↦
            rw (e, observe_active)
              (observe_parts-cases
                (λ o. Q (elim o [
                  | none ↦ (none, fail_active a.kind (noted event a s))
                  | some b ↦ dispatch event_type event b (noted event a s)
                ]))
                s.max_output_items event a fail
                (λ i l.
                  dispatch-cases Q event_type event
                    (record a { interruption = i; output_lifecycle = l }) (noted event a s)
                    (item i l) (done i l) fail (rest i l)))
      ]
