-- ===== src/Receiver/Event.antt =====
-- internal/receiver/receiver.go: a log record, the event it is parsed to, and the row of an
-- api_request. Times are nanoseconds of the Unix epoch; `now` is the clock's reading.
pub mod Bounds
use cc_otel.Prelude.{
  ℕ, zero, suc, Bool, true, false, Option, none, some, List, [], ◌∷◌, ◌≡◌, refl, if◌then◌else◌, ltb,
  ◌||◌,
}
use cc_otel.Prelude.Int.{ℤ, pos, ltb_ℤ, ◌+ℤ◌}
use cc_otel.Prelude.Text.{Text, codes, text_eq, has_prefix, trim_space, to_lower}
use cc_otel.Tokens.{wrap64}
use cc_otel.Receiver.Attrs.{
  FloatText, AnyValue, Attrs, attr, parse_attr_int, parse_attr_float, any_value_to_string,
  extract_attrs, add_missing, is_set,
}

-- logspb.LogRecord; its clock readings are uint64, 0 for an absent one.
pub record LogRecord (F : Type 0) : Type 0 where
  pub time_unix_nano : ℕ
  pub observed_time_unix_nano : ℕ
  pub body : Option (AnyValue F)
  pub attributes : List (Text × AnyValue F)
  pub span_id : Text

-- db.Event, without its row id.
pub record Event (F : Type 0) : Type 0 where
  pub timestamp : ℤ
  pub session_id : Text
  pub user_id : Text
  pub prompt_id : Text
  pub prompt_text : Text
  pub prompt_length : ℤ
  pub event_name : Text
  pub event_sequence : ℤ
  pub model : Text
  pub input_tokens : ℤ
  pub output_tokens : ℤ
  pub cache_read_tokens : ℤ
  pub cache_creation_tokens : ℤ
  pub cost_usd : F
  pub duration_ms : ℤ
  pub ttft_ms : ℤ
  pub speed : Text
  pub terminal_type : Text
  pub tool_name : Text
  pub decision : Text
  pub source : Text
  pub decision_source : Text
  pub decision_type : Text
  pub success : ℤ
  pub tool_result_size_bytes : ℤ
  pub error_type : Text
  pub error_message : Text
  pub error_code : ℤ
  pub request_id : Text
  pub error_retryable : ℤ
  pub service_name : Text
  pub service_version : Text
  pub host_arch : Text
  pub os_type : Text
  pub os_version : Text

-- db.APIRequest, without its row id and the columns that only the Codex path fills.
pub record ApiRequest (F : Type 0) : Type 0 where
  pub timestamp : ℤ
  pub session_id : Text
  pub user_id : Text
  pub prompt_id : Text
  pub prompt_length : ℤ
  pub model : Text
  pub actual_model : Text
  pub input_tokens : ℤ
  pub output_tokens : ℤ
  pub cache_read_tokens : ℤ
  pub cache_creation_tokens : ℤ
  pub cost_usd : F
  pub duration_ms : ℤ
  pub ttft_ms : ℤ
  pub request_id : Text
  pub event_name : Text
  pub event_sequence : ℤ
  pub speed : Text
  pub terminal_type : Text
  pub tool_name : Text
  pub decision : Text
  pub source : Text
  pub service_name : Text
  pub service_version : Text
  pub host_arch : Text
  pub os_type : Text
  pub os_version : Text
  pub error_type : Text
  pub error_message : Text
  pub error_code : ℤ
  pub error_retryable : ℤ

abbrev pub default_service_name : Text
default_service_name = codes "claude-code"

unfoldable pub normalize_service_name : Text → Text
unfolding text_eq trim_space
normalize_service_name service_name =
    if text_eq (trim_space service_name) [] then default_service_name else service_name

-- 5 * time.Minute
abbrev pub five_minutes : ℤ
five_minutes = pos 300000000000

-- A record's time, with the guard against clocks that run ahead.
unfoldable pub event_time : ℤ → ℕ → ℤ
event_time now time_unix_nano =
    let ts = if ltb 0 time_unix_nano then wrap64 (pos time_unix_nano) else now in
    if ltb_ℤ (now +ℤ five_minutes) ts then now else ts

-- The part of s behind a prefix of n bytes.
abbrev pub behind : ℕ → Text → Text
behind zero s = s
behind (suc n) [] = []
behind (suc n) (c ∷ s) = behind n s

module _ {F : Type 0} (ft : FloatText F) where
  unfoldable pub event_name_from_log_body : Option (AnyValue F) → Text
  unfolding any_value_to_string has_prefix
  event_name_from_log_body none = []
  event_name_from_log_body (some body) =
      let s = any_value_to_string ft body in
      if has_prefix s (codes "claude_code.") then behind 12 s else []

  unfoldable pub parse_event : ℤ → LogRecord F → List (Text × AnyValue F) → Event F
  unfolding extract_attrs add_missing event_time attr parse_attr_int parse_attr_float text_eq
      event_name_from_log_body
  parse_event now lr resource =
      let attrs = add_missing ft resource (extract_attrs ft lr.attributes) in
      let event_name = attr attrs (codes "event.name") in
      let service_name = attr attrs (codes "service.name") in
      record {
        timestamp = event_time now lr.time_unix_nano;
        session_id = attr attrs (codes "session.id");
        user_id = attr attrs (codes "user.id");
        prompt_id = attr attrs (codes "prompt.id");
        prompt_text = attr attrs (codes "prompt");
        prompt_length = parse_attr_int attrs (codes "prompt_length");
        event_name = if is_set event_name then event_name else event_name_from_log_body lr.body;
        event_sequence = parse_attr_int attrs (codes "event.sequence");
        model = attr attrs (codes "model");
        input_tokens = parse_attr_int attrs (codes "input_tokens");
        output_tokens = parse_attr_int attrs (codes "output_tokens");
        cache_read_tokens = parse_attr_int attrs (codes "cache_read_tokens");
        cache_creation_tokens = parse_attr_int attrs (codes "cache_creation_tokens");
        cost_usd = parse_attr_float ft attrs (codes "cost_usd");
        duration_ms = parse_attr_int attrs (codes "duration_ms");
        ttft_ms = parse_attr_int attrs (codes "ttft_ms");
        speed = attr attrs (codes "speed");
        terminal_type = attr attrs (codes "terminal.type");
        tool_name = attr attrs (codes "tool_name");
        decision = attr attrs (codes "decision");
        source = attr attrs (codes "source");
        decision_source = attr attrs (codes "decision_source");
        decision_type = attr attrs (codes "decision_type");
        success =
            if text_eq (attr attrs (codes "success")) (codes "true")
              || text_eq (attr attrs (codes "success")) (codes "1")
            then pos 1
            else pos 0;
        tool_result_size_bytes = parse_attr_int attrs (codes "tool_result_size_bytes");
        error_type = attr attrs (codes "error.type");
        error_message = attr attrs (codes "error.message");
        error_code = parse_attr_int attrs (codes "error.code");
        request_id = attr attrs (codes "request_id");
        error_retryable = parse_attr_int attrs (codes "error.retryable");
        service_name = if is_set service_name then service_name else default_service_name;
        service_version = attr attrs (codes "service.version");
        host_arch = attr attrs (codes "host.arch");
        os_type = attr attrs (codes "os.type");
        os_version = attr attrs (codes "os.version");
      }

-- The caller sets `actual_model`.
unfoldable pub api_request_from_event : {F : Type 0} → Event F → ApiRequest F
api_request_from_event e = record {
  timestamp = e.timestamp;
  session_id = e.session_id;
  user_id = e.user_id;
  prompt_id = e.prompt_id;
  prompt_length = e.prompt_length;
  model = e.model;
  actual_model = [];
  input_tokens = e.input_tokens;
  output_tokens = e.output_tokens;
  cache_read_tokens = e.cache_read_tokens;
  cache_creation_tokens = e.cache_creation_tokens;
  cost_usd = e.cost_usd;
  duration_ms = e.duration_ms;
  ttft_ms = e.ttft_ms;
  request_id = e.request_id;
  event_name = e.event_name;
  event_sequence = e.event_sequence;
  speed = e.speed;
  terminal_type = e.terminal_type;
  tool_name = e.tool_name;
  decision = e.decision;
  source = e.source;
  service_name = e.service_name;
  service_version = e.service_version;
  host_arch = e.host_arch;
  os_type = e.os_type;
  os_version = e.os_version;
  error_type = e.error_type;
  error_message = e.error_message;
  error_code = e.error_code;
  error_retryable = e.error_retryable;
}
