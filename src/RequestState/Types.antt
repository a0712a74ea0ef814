-- ===== src/RequestState/Types.antt =====
-- src/core/codex/src/request_state_types.rs: the ledger of a request's identities.
use mini_sub2api.Base.{ℕ, String, Bool, Option, List}
use mini_sub2api.Base.Int.{ℤ}
use mini_sub2api.Base.TextMap.{TextMap}

pub data WireIdDomain : Type 0 where
  context_window installation session thread turn response : WireIdDomain
  conversation stream item call approval : WireIdDomain

pub WireIdDomain-discrete : Discrete WireIdDomain
WireIdDomain-discrete = hlevel

pub data WireIdOrigin : Type 0 where
  downstream upstream : WireIdOrigin

pub record IdentityEntry : Type 0 where
  pub id : String
  pub last_seen_day : ℤ

pub record ConversationEntry : Type 0 where
  pub id : String
  pub window_number : ℕ
  pub current_turn_id : Option String
  pub last_seen_day : ℤ

pub record ChildThreadEntry : Type 0 where
  pub id : String
  pub session_id : String
  pub parent_thread_id : Option String
  pub window_number : ℕ
  pub current_turn_id : Option String
  pub last_seen_day : ℤ

pub record TurnEntry : Type 0 where
  pub id : String
  pub thread_id : String
  pub inventory_source_thread_id : Option String
  pub classifier : Bool
  pub root_turn_id : String
  pub parent_turn_id : Option String
  pub started_at_unix_ms : ℤ
  pub last_seen_day : ℤ

pub record GeneratedItemEntry : Type 0 where
  pub id : String
  pub turn_id : Option String
  pub create_time_micros : Option ℤ
  pub last_seen_day : ℤ

pub record CompactionMarkerEntry : Type 0 where
  pub thread_id : String
  pub window_number : ℕ
  pub last_seen_day : ℤ

pub record WireIdOwner : Type 0 where
  pub session_id : String
  pub thread_id : String

pub record WireIdEntry : Type 0 where
  pub domain : WireIdDomain
  pub origin : WireIdOrigin
  pub downstream_id : String
  pub upstream_id : String
  pub upstream_lookup : String
  pub owner : Option WireIdOwner
  pub last_seen_day : ℤ

pub record ScopeState : Type 0 where
  pub last_seen_day : ℤ
  pub scoped_installations : TextMap IdentityEntry
  pub conversations : TextMap ConversationEntry
  pub child_threads : TextMap ChildThreadEntry
  pub turns : TextMap TurnEntry
  pub generated_items : TextMap GeneratedItemEntry
  pub compaction_markers : TextMap CompactionMarkerEntry
  pub wire_ids : TextMap WireIdEntry
  pub wire_upstream_index : TextMap String

pub record PersistedRequestState : Type 0 where
  pub version : ℕ
  pub revision : ℕ
  pub installation_id : String
  pub owners : List String
  pub scopes : TextMap ScopeState
  pub tool_inventory_revocations : List String
  pub tool_inventory_uncertain : Bool
  pub tool_inventory_revision : ℕ

-- The seven kinds of entries that are counted and pruned.
pub data EntryKind : Type 0 where
  installation_entry conversation_entry child_thread_entry turn_entry : EntryKind
  generated_item_entry compaction_marker_entry wire_id_entry : EntryKind

-- `MAX_SCOPED_INSTALLATIONS` and the other limits on a whole ledger.
unfoldable pub maximum : EntryKind → ℕ
maximum EntryKind.installation_entry = 2048
maximum EntryKind.conversation_entry = 16384
maximum EntryKind.child_thread_entry = 65536
maximum EntryKind.turn_entry = 262144
maximum EntryKind.generated_item_entry = 524288
maximum EntryKind.compaction_marker_entry = 262144
maximum EntryKind.wire_id_entry = 1048576

-- `MAX_SCOPE_INSTALLATIONS` and the other limits on one scope.
unfoldable pub scope_maximum : EntryKind → ℕ
scope_maximum EntryKind.installation_entry = 64
scope_maximum EntryKind.conversation_entry = 8192
scope_maximum EntryKind.child_thread_entry = 16384
scope_maximum EntryKind.turn_entry = 65536
scope_maximum EntryKind.generated_item_entry = 131072
scope_maximum EntryKind.compaction_marker_entry = 65536
scope_maximum EntryKind.wire_id_entry = 262144

unfoldable pub max_scopes : ℕ
max_scopes = 1024

-- `DETAIL_RETENTION_DAYS`
unfoldable pub detail_retention_days : ℕ
detail_retention_days = 30
