-- ===== src/Receiver/Codex/Records.antt =====
-- internal/receiver/codex_parser.go: what the handlers read from a Codex record, and the rows that
-- they build from it.
use cc_otel.Prelude.{ℕ, Bool, not, none, some, [], ltb, ◌&&◌, ◌||◌, if◌then◌else◌, length, take}
use cc_otel.Prelude.Int.{ℤ, pos, ltb_ℤ, eqb_ℤ, ◌+ℤ◌}
use cc_otel.Prelude.Text.{Text, codes, text_eq, has_prefix}
use cc_otel.Tokens.{wrap64, sat_add, uncached_input}
use cc_otel.Receiver.Attrs.{FloatText, Attrs, attr, parse_attr_int, any_value_to_string, is_set}
use cc_otel.Receiver.Event.{LogRecord, five_minutes, behind}
use cc_otel.Receiver.Codex.Rows.{CodexApiRequest, CodexTokenUpdate, CodexEvent}

abbrev no_event : ℤ → Text → CodexEvent
no_event ts session_id = record {
  timestamp = ts;
  session_id = session_id;
  conversation_id = session_id;
  event_name = [];
  duration_ms = pos 0;
  error_message = [];
  prompt_text = [];
  prompt_length = pos 0;
  tool_name = [];
  call_id = [];
  decision = [];
  source = [];
  success = pos 0;
  arguments_length = pos 0;
  output_length = pos 0;
  tool_origin = [];
  mcp_server = [];
  terminal_type = [];
  service_name = [];
  service_version = [];
}

module _ {F : Type 0} (ft : FloatText F) where
  unfoldable name_from_body : Text → Text
  name_from_body s =
      if has_prefix s (codes "codex.")
      then s
      else if has_prefix s (codes "response.") || text_eq s (codes "error")
      then codes "codex.websocket_event"
      else if has_prefix s (codes "claude_code.")
      then behind 12 s
      else []

  unfoldable pub event_name_from_codex_log : LogRecord F → Attrs → Text
  unfolding name_from_body
  event_name_from_codex_log lr attrs =
      if is_set (attr attrs (codes "event.name"))
      then attr attrs (codes "event.name")
      else elim lr.body [ none ↦ [] | some body ↦ name_from_body (any_value_to_string ft body) ]

  unfoldable kind_from_body : Text → Text
  kind_from_body s = if has_prefix s (codes "response.") || text_eq s (codes "error") then s else []

  unfoldable pub event_kind_from_log : LogRecord F → Attrs → Text
  unfolding kind_from_body
  event_kind_from_log lr attrs =
      if is_set (attr attrs (codes "event.kind"))
      then attr attrs (codes "event.kind")
      else elim lr.body [ none ↦ [] | some body ↦ kind_from_body (any_value_to_string ft body) ]

-- The first clock reading that is there, on int64.
unfoldable first_clock : ℕ → ℕ → ℤ
first_clock a b = if ltb 0 a then wrap64 (pos a) else if ltb 0 b then wrap64 (pos b) else pos 0

unfoldable pub codex_log_unix_nanos : {F : Type 0} → LogRecord F → ℤ
unfolding first_clock
codex_log_unix_nanos lr = first_clock lr.time_unix_nano lr.observed_time_unix_nano

unfoldable pub codex_log_observed_unix_nanos : {F : Type 0} → LogRecord F → ℤ
unfolding first_clock
codex_log_observed_unix_nanos lr = first_clock lr.observed_time_unix_nano lr.time_unix_nano

-- A record's time, with the guard against clocks that run ahead.
unfoldable pub codex_time : {F : Type 0} → ℤ → LogRecord F → ℤ
unfolding codex_log_unix_nanos
codex_time now lr =
    let nanos = codex_log_unix_nanos lr in
    let ts = if ltb_ℤ (pos 0) nanos then nanos else now in
    if ltb_ℤ (now +ℤ five_minutes) ts then now else ts

unfoldable pub observed_nanos : {F : Type 0} → ℤ → LogRecord F → ℤ
unfolding codex_log_observed_unix_nanos
observed_nanos ts lr =
    let observed = codex_log_observed_unix_nanos lr in
    if eqb_ℤ observed (pos 0) then ts else observed

unfoldable pub attr_int_or_len : Attrs → Text → Text → ℤ
attr_int_or_len attrs int_key string_key =
    let v = parse_attr_int attrs int_key in
    if ltb_ℤ (pos 0) v then v else pos (length (attr attrs string_key))

unfoldable pub tool_result_error : Attrs → ℤ → Text
tool_result_error attrs success =
    let msg = attr attrs (codes "error.message") in
    if is_set msg || eqb_ℤ success (pos 1) then msg else take 200 (attr attrs (codes "output"))

unfoldable pub tool_origin_or_derive : Attrs → Text
tool_origin_or_derive attrs =
    if is_set (attr attrs (codes "tool_origin"))
    then attr attrs (codes "tool_origin")
    else if is_set (attr attrs (codes "mcp_server"))
    then codes "mcp"
    else codes "builtin"

-- A request whose stream may still complete: no error, and a status of 2xx or none.
unfoldable pub pending_stream : Attrs → Bool
pending_stream attrs =
    let status = parse_attr_int attrs (codes "http.response.status_code") in
    not (is_set (attr attrs (codes "error.message")))
    && (eqb_ℤ status (pos 0) || (not (ltb_ℤ status (pos 200)) && not (ltb_ℤ (pos 299) status)))

unfoldable pub codex_api_request : ℤ → Attrs → CodexApiRequest
unfolding pending_stream
codex_api_request ts attrs = record {
  timestamp = ts;
  session_id = attr attrs (codes "conversation.id");
  user_id =
      if is_set (attr attrs (codes "user.id"))
      then attr attrs (codes "user.id")
      else attr attrs (codes "env");
  request_id = attr attrs (codes "auth.request_id");
  conversation_id = attr attrs (codes "conversation.id");
  model = attr attrs (codes "model");
  duration_ms = if pending_stream attrs then pos 0 else parse_attr_int attrs (codes "duration_ms");
  http_status = parse_attr_int attrs (codes "http.response.status_code");
  endpoint = attr attrs (codes "endpoint");
  event_name = codes "codex.api_request";
  terminal_type = attr attrs (codes "terminal.type");
  service_name = attr attrs (codes "service.name");
  service_version = attr attrs (codes "service.version");
  error_message = attr attrs (codes "error.message");
}

-- A completion that carries no count and no time.
unfoldable pub is_token_less : Attrs → Bool
is_token_less attrs =
    eqb_ℤ (parse_attr_int attrs (codes "input_token_count")) (pos 0)
    && eqb_ℤ (parse_attr_int attrs (codes "output_token_count")) (pos 0)
    && eqb_ℤ (parse_attr_int attrs (codes "cached_token_count")) (pos 0)
    && eqb_ℤ (parse_attr_int attrs (codes "cache_write_token_count")) (pos 0)
    && eqb_ℤ (parse_attr_int attrs (codes "reasoning_token_count")) (pos 0)
    && eqb_ℤ (parse_attr_int attrs (codes "tool_token_count")) (pos 0)
    && eqb_ℤ (parse_attr_int attrs (codes "ttft_ms")) (pos 0)

-- The input side without its cached parts.
unfoldable pub codex_input : Attrs → ℤ
codex_input attrs =
    let input = parse_attr_int attrs (codes "input_token_count") in
    if ltb_ℤ (pos 0) input
    then uncached_input input (parse_attr_int attrs (codes "cached_token_count"))
        (parse_attr_int attrs (codes "cache_write_token_count"))
    else input

unfoldable pub codex_total : Attrs → ℤ
codex_total attrs =
    let total = parse_attr_int attrs (codes "tool_token_count") in
    if eqb_ℤ total (pos 0)
    then sat_add (parse_attr_int attrs (codes "input_token_count"))
        (parse_attr_int attrs (codes "output_token_count"))
    else total

unfoldable pub token_update : {F : Type 0} → ℤ → Attrs → F → ℤ → ℤ → CodexTokenUpdate F
unfolding codex_input codex_total
token_update ts attrs cost row_id duration_ms = record {
  request_row_id = row_id;
  session_id = attr attrs (codes "conversation.id");
  model = attr attrs (codes "model");
  timestamp = ts;
  input_tokens = codex_input attrs;
  output_tokens = parse_attr_int attrs (codes "output_token_count");
  cache_read_tokens = parse_attr_int attrs (codes "cached_token_count");
  cache_creation_tokens = parse_attr_int attrs (codes "cache_write_token_count");
  reasoning_tokens = parse_attr_int attrs (codes "reasoning_token_count");
  total_tokens = codex_total attrs;
  cost_usd = cost;
  duration_ms = duration_ms;
  ttft_ms = parse_attr_int attrs (codes "ttft_ms");
}

unfoldable pub user_prompt_event : ℤ → Attrs → CodexEvent
user_prompt_event ts attrs = record (no_event ts (attr attrs (codes "conversation.id"))) {
  event_name = codes "codex.user_prompt";
  prompt_text = attr attrs (codes "prompt");
  prompt_length = parse_attr_int attrs (codes "prompt_length");
  terminal_type = attr attrs (codes "terminal.type");
  service_name = attr attrs (codes "service.name");
  service_version = attr attrs (codes "service.version");
}

unfoldable pub tool_decision_event : ℤ → Attrs → CodexEvent
tool_decision_event ts attrs = record (no_event ts (attr attrs (codes "conversation.id"))) {
  tool_name = attr attrs (codes "tool_name");
  call_id = attr attrs (codes "call_id");
  decision = attr attrs (codes "decision");
  source = attr attrs (codes "source");
  terminal_type = attr attrs (codes "terminal.type");
}

unfoldable pub success_of : Attrs → ℤ
success_of attrs =
    if text_eq (attr attrs (codes "success")) (codes "true")
      || text_eq (attr attrs (codes "success")) (codes "1")
    then pos 1
    else pos 0

unfoldable pub tool_result_event : ℤ → Attrs → CodexEvent
unfolding success_of attr_int_or_len tool_origin_or_derive tool_result_error
tool_result_event ts attrs = record (no_event ts (attr attrs (codes "conversation.id"))) {
  tool_name = attr attrs (codes "tool_name");
  call_id = attr attrs (codes "call_id");
  duration_ms = parse_attr_int attrs (codes "duration_ms");
  success = success_of attrs;
  arguments_length = attr_int_or_len attrs (codes "arguments_length") (codes "arguments");
  output_length = attr_int_or_len attrs (codes "output_length") (codes "output");
  tool_origin = tool_origin_or_derive attrs;
  mcp_server = attr attrs (codes "mcp_server");
  error_message = tool_result_error attrs (success_of attrs);
  terminal_type = attr attrs (codes "terminal.type");
}
