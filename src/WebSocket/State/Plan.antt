-- ===== src/WebSocket/State/Plan.antt =====
-- src/core/codex/src/responses_websocket_state.rs: planning a hidden setup or a public request, and
-- marking it as attempted.
use mini_sub2api.Base.{
  Bool, true, false, not, ◌&&◌, ◌||◌, Option, none, some, List, [], if◌then◌else◌,
}
use mini_sub2api.Base.Json.{Value, Fields, get, as_object, insert_field, items_of}
use mini_sub2api.WebSocket.Types.{
  UpstreamProfile, PrewarmMode, PublicCreateMode, OperationKind, OperationPhase, is_idle, same_kind,
  emulates_codex,
}
use mini_sub2api.WebSocket.Interrupt.{no_interruption}
use mini_sub2api.WebSocket.Parts.{Parts}
use mini_sub2api.WebSocket.Reuse.{
  RequestSnapshot, ReuseBaseline, has_explicit_state_carrier, request_snapshot, lite_prewarm_prefix,
  incremental_input, array_of,
}
use mini_sub2api.WebSocket.State.{
  PlannedOperation, SocketState, set_phase, automatic_reuse_enabled, fail_operation,
}

abbrev pub present {ℓ} : {A : Type ℓ} → Option A → Bool
present none = false
present (some _) = true

-- `PublicCreateMode::Full`, or the passthrough of an API key.
unfoldable pub plain_mode : UpstreamProfile → PublicCreateMode
plain_mode UpstreamProfile.api_key_passthrough = PublicCreateMode.passthrough
plain_mode UpstreamProfile.codex_subscription = PublicCreateMode.full

-- `finalize_wire_order`, on objects only.
abbrev pub ordered : (Value → Value) → Value → Value
ordered f frame = elim (as_object frame) [ none ↦ frame | some _ ↦ f frame ]

-- `frame.insert("input", ...)` and `frame.insert("generate", false)`
abbrev setup_frame : Fields → List Value → Value
setup_frame fields prefix = Value.object (
    insert_field "generate" (Value.boolean false)
      (insert_field "input" (Value.array (items_of prefix)) fields))

-- The frame that continues the baseline. It has an object, since there is a snapshot of it.
unfoldable pub continue_with :
    ReuseBaseline → List Value → Value → PublicCreateMode × Value × Option ReuseBaseline
continue_with baseline delta request = elim (as_object request) [
  | none ↦ (PublicCreateMode.full, request, none)
  | some fields ↦ (
    PublicCreateMode.incremental,
    Value.object (
        insert_field "input" (Value.array (items_of delta))
          (insert_field "previous_response_id" (Value.string baseline.response_id) fields)),
    some baseline,
  )
]

module _ (parts : Parts) where
  abbrev prefix_for : PrewarmMode → Value → List Value → List Value
  prefix_for PrewarmMode.ordinary request input = parts.ordinary_prewarm_prefix request
  prefix_for PrewarmMode.responses_lite request input = lite_prewarm_prefix input

  -- The frame, if there is one.
  unfoldable pub setup_frame_of : Value → PrewarmMode → Option Value
  setup_frame_of request mode = elim (request_snapshot request) [
    | none ↦ none
    | some _ ↦ elim (as_object request) [
      | none ↦ none
      | some fields ↦ elim (array_of (get request "input")) [
        | none ↦ none
        | some input ↦ some (setup_frame fields (prefix_for mode request input))
      ]
    ]
  ]

  unfoldable pub choose_automatic :
      Option ReuseBaseline
      → Option RequestSnapshot
      → Value
      → PublicCreateMode × Value × Option ReuseBaseline
  unfolding continue_with
  choose_automatic (some baseline) (some current) request =
      elim (incremental_input parts baseline current) [
        | none ↦ (PublicCreateMode.full, request, none)
        | some delta ↦ continue_with baseline delta request
      ]
  choose_automatic none snapshot request = (PublicCreateMode.full, request, none)
  choose_automatic (some baseline) none request = (PublicCreateMode.full, request, none)

  -- The mode, the frame and the baseline that is kept.
  unfoldable pub choose_mode :
      Bool
      → Bool
      → UpstreamProfile
      → Option ReuseBaseline
      → Option RequestSnapshot
      → Value
      → PublicCreateMode × Value × Option ReuseBaseline
  unfolding choose_automatic plain_mode
  choose_mode explicit automatic profile baseline snapshot request =
      if explicit
      then (PublicCreateMode.explicit_state, request, none)
      else if not automatic
      then (plain_mode profile, request, none)
      else choose_automatic baseline snapshot request

module _ {parts : Parts} where
  unfoldable pub setup_allowed : Value → SocketState parts → Bool
  setup_allowed request s =
      automatic_reuse_enabled s
      && (not s.rebuilt_reference
          && (is_idle s.setup_phase
              && (not (present s.baseline)
                  && (not (present s.planned)
                      && (not (present s.active) && not (has_explicit_state_carrier request))))))

  unfoldable pub start_setup : Value → SocketState parts → Option Value × SocketState parts
  unfolding set_phase
  start_setup frame s = elim (request_snapshot frame) [
    | none ↦ (none, s)
    | some snapshot ↦ (
      some (parts.finalize_wire_order frame),
      set_phase OperationKind.hidden_setup OperationPhase.planned (record s {
        planned = some (record {
          kind = OperationKind.hidden_setup;
          request = some snapshot;
          pending_compaction = none;
        });
      }),
    )
  ]

  -- `plan_hidden_setup_with_synthesized_ids`, whose identifiers are not read.
  unfoldable pub plan_hidden_setup :
      Value → PrewarmMode → SocketState parts → Option Value × SocketState parts
  unfolding setup_allowed setup_frame_of start_setup
  plan_hidden_setup request mode s =
      if setup_allowed request s
      then (elim (setup_frame_of parts request mode) [
        | none ↦ (none, s)
        | some frame ↦ start_setup frame s
      ])
      else (none, s)

  abbrev pub pending_kind : SocketState parts → Option OperationKind
  pending_kind s = elim s.active [
    | some a ↦ some a.kind
    | none ↦ elim s.planned [ none ↦ none | some p ↦ some p.kind ]
  ]

  unfoldable pub abandon_pending_operation : SocketState parts → SocketState parts
  unfolding fail_operation
  abandon_pending_operation s = elim (pending_kind s) [
    | none ↦ s
    | some kind ↦ fail_operation kind s
  ]

  -- From the abandoned state on.
  unfoldable pub plan_public_from :
      Value
      → Option parts.Pending
      → SocketState parts
      → PublicCreateMode × Value × SocketState parts
  unfolding choose_mode set_phase
  plan_public_from request pending s =
      let explicit = s.rebuilt_reference || has_explicit_state_carrier request in
      let automatic = automatic_reuse_enabled s && not explicit in
      let snapshot = if automatic then request_snapshot request else none in
      let chosen = choose_mode parts explicit automatic s.profile s.baseline snapshot request in
      (
        chosen.0,
        (if emulates_codex s.profile then ordered parts.finalize_wire_order chosen.1 else chosen.1),
        set_phase OperationKind.public_create OperationPhase.planned (record s {
          baseline = chosen.2;
          rebuilt_reference = false;
          planned = some (record {
            kind = OperationKind.public_create;
            request = snapshot;
            pending_compaction = pending;
          });
        }),
      )

  -- `plan_public_create_with_state`
  unfoldable pub plan_public_create :
      Value
      → Option parts.Pending
      → SocketState parts
      → PublicCreateMode × Value × SocketState parts
  unfolding plan_public_from abandon_pending_operation
  plan_public_create request pending s =
      plan_public_from request pending (abandon_pending_operation s)

  unfoldable pub start : PlannedOperation parts → SocketState parts → SocketState parts
  unfolding set_phase
  start p s = set_phase p.kind OperationPhase.attempted (record s {
    planned = none;
    active = some (record {
      kind = p.kind;
      request = p.request;
      output = [];
      output_bytes = 0;
      compaction_output = parts.no_compaction;
      output_lifecycle = parts.no_output;
      interruption = no_interruption;
      reusable = true;
      pending_compaction = p.pending_compaction;
    });
  })

  -- `mark_hidden_setup_attempted` and `mark_public_create_attempted`
  unfoldable pub activate : OperationKind → SocketState parts → Bool × SocketState parts
  unfolding start
  activate expected s = elim s.planned [
    | none ↦ (false, s)
    | some p ↦
        if same_kind p.kind expected && not (present s.active)
        then (true, start p s)
        else (false, s)
  ]
