-- ===== src/RequestState/WireId.antt =====
-- src/core/codex/src/request_state_validation.rs: the check of one wire identifier.
use Prim.Native.String.{len}
use mini_sub2api.Base.{ℕ, String, Bool, not, ◌&&◌, ◌||◌, leb, ◌==◌, ltb, any, codes}

abbrev pub max_wire_id_bytes : ℕ
max_wire_id_bytes = 512

-- `char::is_control`: the general category Cc.
unfoldable pub is_control : ℕ → Bool
is_control c = ltb c 32 || (leb 127 c && leb c 159)

-- `validate_wire_id(value).is_ok()`; `len` counts bytes.
unfoldable pub is_valid_wire_id : String → Bool
unfolding is_control
is_valid_wire_id value =
    not (len value == 0)
    && (leb (len value) max_wire_id_bytes && not (any is_control (codes value)))
