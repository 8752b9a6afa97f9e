-- ===== src/Receiver/Codex/Rows.antt =====
-- internal/db/codex_types.go: the rows of Codex that the receiver stores.
use cc_otel.Prelude.Int.{ℤ}
use cc_otel.Prelude.Text.{Text}

-- db.CodexAPIRequest, without its row id and the columns that no handler sets.
pub record CodexApiRequest : Type 0 where
  pub timestamp : ℤ
  pub session_id : Text
  pub user_id : Text
  pub request_id : Text
  pub conversation_id : Text
  pub model : Text
  pub duration_ms : ℤ
  pub http_status : ℤ
  pub endpoint : Text
  pub event_name : Text
  pub terminal_type : Text
  pub service_name : Text
  pub service_version : Text
  pub error_message : Text

pub record CodexTokenUpdate (F : Type 0) : Type 0 where
  pub request_row_id : ℤ
  pub session_id : Text
  pub model : Text
  pub timestamp : ℤ
  pub input_tokens : ℤ
  pub output_tokens : ℤ
  pub cache_read_tokens : ℤ
  pub cache_creation_tokens : ℤ
  pub reasoning_tokens : ℤ
  pub total_tokens : ℤ
  pub cost_usd : F
  pub duration_ms : ℤ
  pub ttft_ms : ℤ

-- db.CodexEvent, without the fields that no handler sets.
pub record CodexEvent : Type 0 where
  pub timestamp : ℤ
  pub session_id : Text
  pub conversation_id : Text
  pub event_name : Text
  pub duration_ms : ℤ
  pub error_message : Text
  pub prompt_text : Text
  pub prompt_length : ℤ
  pub tool_name : Text
  pub call_id : Text
  pub decision : Text
  pub source : Text
  pub success : ℤ
  pub arguments_length : ℤ
  pub output_length : ℤ
  pub tool_origin : Text
  pub mcp_server : Text
  pub terminal_type : Text
  pub service_name : Text
  pub service_version : Text
