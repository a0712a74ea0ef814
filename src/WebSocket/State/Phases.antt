-- ===== src/WebSocket/State/Phases.antt =====
-- src/core/codex/src/responses_websocket_state.rs: the phases of the two kinds of operations.
use mini_sub2api.Base.{◌≡◌, refl, Bool, true, false, not, ◌&&◌, Option, none, some, arith}
use mini_sub2api.WebSocket.Types.{OperationKind, OperationPhase, same_kind}
use mini_sub2api.WebSocket.State.{setup_after, public_after}

unfoldable pub is_planned : OperationPhase → Bool
is_planned OperationPhase.planned = true
is_planned _ = false

-- An attempt that has not ended.
unfoldable pub is_running : OperationPhase → Bool
is_running OperationPhase.attempted = true
is_running OperationPhase.response_observed = true
is_running _ = false

abbrev pub is_of : OperationKind → Option OperationKind → Bool
is_of k none = false
is_of k (some j) = same_kind j k

abbrev pub same_test : Bool → Bool → Bool
same_test true b = b
same_test false b = not b

abbrev pub some_kind : Option OperationKind → Bool
some_kind none = false
some_kind (some _) = true

-- A kind of operation is in the planned phase when it is what is planned and in a running phase when it
-- is what is active, and nothing is planned while something is active.
unfoldable pub orderly :
    Option OperationKind → Option OperationKind → OperationPhase → OperationPhase → Bool
orderly plan run setup public =
    not (some_kind plan && some_kind run)
    && (same_test (is_planned setup) (is_of OperationKind.hidden_setup plan)
        && (same_test (is_planned public) (is_of OperationKind.public_create plan)
            && (same_test (is_running setup) (is_of OperationKind.hidden_setup run)
                && same_test (is_running public) (is_of OperationKind.public_create run))))

-- The kind that is left when operations of a kind fail.
abbrev pub other_kind : OperationKind → Option OperationKind → Option OperationKind
other_kind k none = none
other_kind k (some j) = elim (same_kind j k) [ true ↦ none | false ↦ some j ]

pub orderly-failed :
    (k : OperationKind) (plan run : Option OperationKind) (setup public : OperationPhase)
    → orderly plan run setup public ≡ true
    → orderly
        (other_kind k plan)
        (other_kind k run)
        (setup_after k OperationPhase.failed setup)
        (public_after k OperationPhase.failed public)
      ≡ true
unfolding orderly is_planned is_running same_kind
orderly-failed k plan run setup public h = ground arith

-- The active operation ends, with a phase that is neither planned nor running.
pub orderly-ended :
    (k : OperationKind) (plan : Option OperationKind) (phase setup public : OperationPhase)
    → is_planned phase ≡ false
    → is_running phase ≡ false
    → orderly plan (some k) setup public ≡ true
    → orderly none none (setup_after k phase setup) (public_after k phase public) ≡ true
unfolding orderly same_kind
orderly-ended k plan phase setup public hp hr h = ground arith

pub orderly-observed :
    (k : OperationKind) (plan : Option OperationKind) (setup public : OperationPhase)
    → orderly plan (some k) setup public ≡ true
    → orderly plan
        (some k)
        (setup_after k OperationPhase.response_observed setup)
        (public_after k OperationPhase.response_observed public)
      ≡ true
unfolding orderly same_kind is_planned is_running
orderly-observed k plan setup public h = ground arith

pub orderly-planned :
    (k : OperationKind) (setup public : OperationPhase)
    → orderly none none setup public ≡ true
    → orderly
        (some k)
        none
        (setup_after k OperationPhase.planned setup)
        (public_after k OperationPhase.planned public)
      ≡ true
unfolding orderly same_kind is_planned is_running
orderly-planned k setup public h = ground arith

pub orderly-started :
    (k : OperationKind) (setup public : OperationPhase)
    → orderly (some k) none setup public ≡ true
    → orderly none
        (some k)
        (setup_after k OperationPhase.attempted setup)
        (public_after k OperationPhase.attempted public)
      ≡ true
unfolding orderly same_kind is_planned is_running
orderly-started k setup public h = ground arith

pub not_both :
    (plan : Option OperationKind) (k : OperationKind) (setup public : OperationPhase)
    → orderly plan (some k) setup public ≡ true
    → plan ≡ none
unfolding orderly
not_both none k setup public h = refl
not_both (some j) k setup public h = absurd (ground arith)
