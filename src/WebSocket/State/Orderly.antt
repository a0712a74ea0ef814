-- ===== src/WebSocket/State/Orderly.antt =====
-- src/core/codex/src/responses_websocket_state.rs: the phases, and what is planned and active.
use mini_sub2api.Base.{
  ◌≡◌, refl, sym, ◌∙◌, ap, subst, true, Option, none, some, arith, Option-cases, inl, inr,
}
use mini_sub2api.Base.Json.{Value}
use mini_sub2api.WebSocket.Types.{OperationKind, OperationPhase, same_kind}
use mini_sub2api.WebSocket.Parts.{Parts}
use mini_sub2api.WebSocket.State.Plan.{pending_kind, abandon_pending_operation}
use mini_sub2api.WebSocket.State.Cases.{noted}
use mini_sub2api.WebSocket.State.{
  PlannedOperation, ActiveOperation, SocketState, set_phase, fail_operation, fail_active,
  reset_for_reconnect, active_unless, planned_unless,
}
use mini_sub2api.WebSocket.State.Phases.{
  is_planned, is_running, orderly, other_kind, orderly-failed, orderly-ended, orderly-observed,
  not_both,
}

module _ {parts : Parts} where
  abbrev pub planned_kind : Option (PlannedOperation parts) → Option OperationKind
  planned_kind none = none
  planned_kind (some p) = some p.kind

  abbrev pub active_kind : Option (ActiveOperation parts) → Option OperationKind
  active_kind none = none
  active_kind (some a) = some a.kind

  abbrev pub IsOrderly : SocketState parts → Type 0
  IsOrderly s =
      orderly (planned_kind s.planned) (active_kind s.active) s.setup_phase s.public_phase ≡ true

  planned_kind-unless :
      (k : OperationKind) (o : Option (PlannedOperation parts))
      → planned_kind (planned_unless k o) ≡ other_kind k (planned_kind o)
  planned_kind-unless k none = refl
  planned_kind-unless k (some p) = ground arith

  active_kind-unless :
      (k : OperationKind) (o : Option (ActiveOperation parts))
      → active_kind (active_unless k o) ≡ other_kind k (active_kind o)
  active_kind-unless k none = refl
  active_kind-unless k (some a) = ground arith

  pub fail_operation-IsOrderly :
      (k : OperationKind) (s : SocketState parts) → IsOrderly s → IsOrderly (fail_operation k s)
  unfolding fail_operation set_phase
  fail_operation-IsOrderly k s h =
      rw (planned_kind-unless k s.planned, active_kind-unless k s.active)
        (orderly-failed k (planned_kind s.planned) (active_kind s.active) s.setup_phase
          s.public_phase h)

  pub reset-IsOrderly : (s : SocketState parts) → IsOrderly (reset_for_reconnect s)
  unfolding reset_for_reconnect orderly is_planned is_running
  reset-IsOrderly s = refl

  pub fail_active-IsOrderly :
      (k : OperationKind) (s : SocketState parts) (plan : Option OperationKind)
      → orderly plan (some k) s.setup_phase s.public_phase ≡ true
      → IsOrderly (fail_active k s)
  unfolding fail_active set_phase is_planned is_running
  fail_active-IsOrderly k s plan h =
      orderly-ended k plan OperationPhase.failed s.setup_phase s.public_phase refl refl h

  -- The last case of an active operation with the kind that it had.
  with_active-IsOrderly :
      (s : SocketState parts) (a : ActiveOperation parts)
      → orderly (planned_kind s.planned) (some a.kind) s.setup_phase s.public_phase ≡ true
      → IsOrderly (record s { active = some a })
  with_active-IsOrderly s a h = h

  pub noted-orderly :
      (event : Value) (a : ActiveOperation parts) (s : SocketState parts)
      → s.active ≡ some a
      → IsOrderly s
      → orderly
          (planned_kind (noted event a s).planned)
          (some a.kind)
          (noted event a s).setup_phase
          (noted event a s).public_phase
        ≡ true
  unfolding set_phase
  noted-orderly event a s e h =
      orderly-observed a.kind (planned_kind s.planned) s.setup_phase s.public_phase (
        subst
          (λ o.
            orderly (planned_kind s.planned) (active_kind o) s.setup_phase s.public_phase ≡ true)
          e h)

  unless_self : (a : ActiveOperation parts) → active_unless a.kind (some a) ≡ none
  unfolding same_kind
  unless_self a = ground arith

  planned_unless_self : (p : PlannedOperation parts) → planned_unless p.kind (some p) ≡ none
  unfolding same_kind
  planned_unless_self p = ground arith

  pub abandon-pending :
      (k : OperationKind) (s : SocketState parts)
      → pending_kind s ≡ some k
      → abandon_pending_operation s ≡ fail_operation k s
  unfolding abandon_pending_operation
  abandon-pending k s e = ap (λ o. elim o [ none ↦ s | some kind ↦ fail_operation kind s ]) e

  pub abandon-nothing :
      (s : SocketState parts) → pending_kind s ≡ none → abandon_pending_operation s ≡ s
  unfolding abandon_pending_operation
  abandon-nothing s e = ap (λ o. elim o [ none ↦ s | some kind ↦ fail_operation kind s ]) e

  failed_planned :
      (k : OperationKind) (s : SocketState parts)
      → s.planned ≡ none
      → (fail_operation k s).planned ≡ none
  unfolding fail_operation set_phase
  failed_planned k s e = ap (planned_unless k) e

  failed_own :
      (p : PlannedOperation parts) (s : SocketState parts)
      → s.planned ≡ some p
      → (fail_operation p.kind s).planned ≡ none
  unfolding fail_operation set_phase
  failed_own p s e = ap (planned_unless p.kind) e ∙ planned_unless_self p

  failed_active :
      (k : OperationKind) (a : ActiveOperation parts) (s : SocketState parts)
      → s.active ≡ some a
      → k ≡ a.kind
      → (fail_operation k s).active ≡ none
  unfolding fail_operation set_phase
  failed_active k a s e h =
      ap (active_unless k) e ∙ (ap (λ j. active_unless j (some a)) h ∙ unless_self a)

  failed_no_active :
      (k : OperationKind) (s : SocketState parts)
      → s.active ≡ none
      → (fail_operation k s).active ≡ none
  unfolding fail_operation set_phase
  failed_no_active k s e = ap (active_unless k) e

  -- After the pending operation is abandoned nothing is planned or active.
  abbrev AbandonsAll : SocketState parts → Type 0
  AbandonsAll s = (s.planned ≡ none) × (s.active ≡ none) × IsOrderly s

  kind_none : (o : Option (PlannedOperation parts)) → planned_kind o ≡ none → o ≡ none
  kind_none none h = refl
  kind_none (some p) h = cc

  pub abandon-AbandonsAll :
      (s : SocketState parts) → IsOrderly s → AbandonsAll (abandon_pending_operation s)
  abandon-AbandonsAll s h = elim (Option-cases s.active) [
    | inr (a, ea) ↦
        let ep = kind_none s.planned (
          not_both (planned_kind s.planned) a.kind s.setup_phase s.public_phase (
            subst
              (λ o.
                orderly (planned_kind s.planned) (active_kind o) s.setup_phase s.public_phase
                ≡ true)
              ea h)) in
        subst AbandonsAll (sym (abandon-pending a.kind s (rw ea refl))) (
          failed_planned a.kind s ep,
          failed_active a.kind a s ea refl,
          fail_operation-IsOrderly a.kind s h,
        )
    | inl ea ↦ elim (Option-cases s.planned) [
      | inr (p, ep) ↦
          subst AbandonsAll (sym (abandon-pending p.kind s (rw (ea, ep) refl)))
            (failed_own p s ep, failed_no_active p.kind s ea, fail_operation-IsOrderly p.kind s h)
      | inl ep ↦ subst AbandonsAll (sym (abandon-nothing s (rw (ea, ep) refl))) (ep, ea, h)
    ]
  ]
