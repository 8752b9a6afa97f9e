-- ===== src/Receiver/Tests.antt =====
-- A store that counts its statements, and a small export.
use cc_otel.Prelude.{
  ℕ, ◌+◌, ◌≤◌, true, false, Option, none, some, List, [], ◌∷◌, ◌≡◌, refl, arith, ltb, ◌==◌,
}
use cc_otel.Prelude.Int.{pos}
use cc_otel.Prelude.Text.{Text, codes, text_eq}
use cc_otel.Prelude.Table.{lookup}
use cc_otel.Receiver.Decimal.{format_int, format_nat, digits, parse_nat}
use cc_otel.Receiver.Attrs.{
  FloatText, AnyValue, string_value, int_value, Attrs, attr, add_missing, extract_attrs,
  parse_attr_int,
}
use cc_otel.Receiver.Attrs.Bounds.{IsNearest, parse_attr_int-IsNearest}
use cc_otel.Receiver.Attrs.Merged.{merged_lookup, last_value, first_value, or_else}
use cc_otel.Receiver.Event.{LogRecord, Event, parse_event}
use cc_otel.Receiver.Event.Bounds.{EventFits, parse_event-EventFits, dsh_api_request-EventFits}
use cc_otel.Receiver.Dsh.{AssistantMessage, Usage, no_timing, dsh_api_request, dsh_row}
use cc_otel.Receiver.Codex.Tracker.{new_tracker}
use cc_otel.Receiver.Dsh.{is_dsh_scope}
use cc_otel.Prelude.Text.{has_prefix}
use cc_otel.Receiver.Attrs.{service_name_from_resource}
use cc_otel.Receiver.Services.{refused, Services, Ingest, no_stats, inserted}
use cc_otel.Receiver.Spans.{Span, ScopeSpans, ResourceSpans, client}
use cc_otel.Receiver.AiSdk
use cc_otel.Receiver.AiSdk.{map_ai_sdk_span}
use cc_otel.Receiver.Logs
use cc_otel.Receiver.Logs.{ScopeLogs, ResourceLogs, export_logs, internal_error}
use cc_otel.Receiver.Logs.Losses.{
  Refuses, AllClaude, all_records, scopes_size, lost_export_is_error,
}
use cc_otel.Receiver.Logs.Counts.{sum_of, resource_size, record_size, ledger_size}
use cc_otel.Receiver.Logs.Delivery.{verdict, export_logs-verdict}
use cc_otel.Receiver.Traces.{export_traces}
use cc_otel.Receiver.Traces.Counts.{resource_spans_size, scope_spans_size, export_traces-verdict}

-- Floats that are whole numbers.
abbrev floats : FloatText ℕ
floats = record {
  zero = 0;
  is_positive = λ x. ltb 0 x;
  is_zero = λ x. x == 0;
  format_float = format_nat;
  truncate = pos;
  parse_float = parse_nat;
}

-- Prompts are refused, and every other statement succeeds.
abbrev services : Services ℕ ℕ
services = record {
  clock = λ s. pos 1000000000000;
  insert_request = λ r s. (inserted, s + 1);
  insert_user_prompt = λ e s. (false, s);
  insert_tool_decision = λ e s. (true, s + 1);
  insert_tool_result = λ e s. (true, s + 1);
  insert_api_error = λ e s. (true, s + 1);
  insert_event = λ e s. (true, s + 1);
  insert_codex_api_request = λ r s. (some (pos 1), s + 1);
  update_codex_api_request_tokens = λ u s. (true, s + 1);
  insert_codex_user_prompt = λ e s. (true, s + 1);
  insert_codex_tool_decision = λ e s. (true, s + 1);
  insert_codex_tool_result = λ e s. (true, s + 1);
  update_codex_request_duration = λ row session model ts ms s. (some true, s + 1);
  update_codex_request_ttft = λ row session model ts ms s. (true, s + 1);
  update_codex_turn_ttft = λ conversation model ts ms s. (some false, s);
  insert_codex_raw_event = λ name ts attrs s. (true, s + 1);
  backfill_ttft_by_request_id = λ id ttft s. (some false, s);
  backfill_ttft_nearest = λ session prompt model end ttft s. (some false, s);
  backfill_ttft_nearest_loose = λ session model end window ttft s. (none, s);
  enqueue_pending_ttft_span = λ id session model end ttft raw s. (true, s + 1);
  pricer = none;
  resolve_actual_model = λ model. model;
  notify = λ s. s;
  notify_source = λ tag s. s;
  decode_step_ref = λ body. none;
  decode_message = λ body. none;
}

abbrev empty_ingest : Ingest ℕ
empty_ingest = record { store = 0; stats = no_stats; codex = new_tracker; dsh = [] }

abbrev named : Text → LogRecord ℕ
named name = record {
  time_unix_nano = 5;
  observed_time_unix_nano = 0;
  body = none;
  attributes =
      (codes "event.name", string_value name) ∷ (codes "input_tokens", int_value (pos 42)) ∷ [];
  span_id = [];
}

abbrev no_resource : List (Text × AnyValue ℕ)
no_resource = []

abbrev scope : ScopeLogs ℕ
scope = record {
  scope_name = [];
  log_records = named (codes "api_request") ∷ named (codes "user_prompt") ∷ [];
}

abbrev logs : List (ResourceLogs ℕ)
logs = record { resource = no_resource; scope_logs = scope ∷ [] } ∷ []

export_logs-verdict_example :
    let (answer, after) = export_logs floats services logs empty_ingest in
    let n = sum_of (resource_size floats services) logs in
    (after.stats.total ≡ n) × (after.stats.failed ≤ n) × (answer ≡ verdict n after.stats.failed)
unfolding sum_of resource_size record_size ledger_size
export_logs-verdict_example = export_logs-verdict floats services logs empty_ingest (ground arith)

abbrev usage_attrs : Attrs
usage_attrs =
    (codes "model", codes "glm-5")
    ∷ (codes "ai.usage.inputTokens", codes "100")
    ∷ (codes "ai.usage.cachedInputTokens", codes "60")
    ∷ (codes "ai.usage.outputTokens", codes "7")
    ∷ []

abbrev span : Span ℕ
span = record {
  name = codes "ai.streamText.doStream";
  kind = client;
  start_time_unix_nano = 1;
  end_time_unix_nano = 2000001;
  attributes = (codes "ttft_ms", int_value (pos 9)) ∷ [];
  span_id_hex = codes "ab";
}

abbrev scope_spans : ScopeSpans ℕ
scope_spans = record { scope_name = []; scope_version = []; spans = span ∷ span ∷ [] }

abbrev spans : List (ResourceSpans ℕ)
spans = record { resource = no_resource; scope_spans = scope_spans ∷ [] } ∷ []

export_traces-verdict_example :
    let (answer, after) = export_traces floats services spans empty_ingest in
    let n = sum_of (resource_spans_size floats services) spans in
    (after.stats.total ≡ n) × (after.stats.failed ≤ n) × (answer ≡ verdict n after.stats.failed)
unfolding sum_of resource_spans_size scope_spans_size
export_traces-verdict_example =
    export_traces-verdict floats services spans empty_ingest (omega arith)

parse_event-EventFits_example :
    EventFits (pos 9) (parse_event floats (pos 9) (named (codes "api_request")) no_resource)
parse_event-EventFits_example =
    parse_event-EventFits floats (pos 9) (named (codes "api_request")) no_resource

abbrev usage : Usage
usage = record {
  input_tokens = pos 9223372036854775807;
  output_tokens = pos 1;
  cache_read_tokens = pos 0;
  cache_write_tokens = pos 0;
  reasoning_tokens = pos 0;
}

abbrev body : AssistantMessage
body = record { turn = pos 1; step = pos 2; model = codes "deepseek"; usage = some usage }

abbrev or_event : Option (Event ℕ) → Event ℕ
or_event none = parse_event floats (pos 9) (named []) no_resource
or_event (some e) = e

abbrev ledger_row : Option (Event ℕ)
ledger_row = dsh_api_request floats (pos 9) (named []) [] no_timing body

dsh_api_request-EventFits_example : EventFits (pos 9) (or_event ledger_row)
unfolding dsh_api_request dsh_row
dsh_api_request-EventFits_example =
    dsh_api_request-EventFits floats (pos 9) (named []) [] no_timing body (or_event ledger_row) refl

abbrev capped : Attrs
capped = (codes "input_tokens", codes "9223372036854775807") ∷ []

parse_attr_int-IsNearest_example :
    IsNearest (pos 9223372036854775807) (parse_attr_int capped (codes "input_tokens"))
unfolding attr lookup text_eq format_int format_nat digits
parse_attr_int-IsNearest_example =
    parse_attr_int-IsNearest capped (codes "input_tokens") (pos 9223372036854775807) (omega arith)
      refl

abbrev own : List (Text × AnyValue ℕ)
own = (codes "k", int_value (pos 1)) ∷ (codes "k", int_value (pos 2)) ∷ []

merged_lookup_example :
    lookup (codes "k") (add_missing floats own (extract_attrs floats own))
    ≡ or_else (last_value floats (codes "k") own) (first_value floats (codes "k") own)
merged_lookup_example = merged_lookup floats (codes "k") own own

abbrev or_record : Option (LogRecord ℕ) → LogRecord ℕ
or_record none = named []
or_record (some lr) = lr

abbrev mapped_record : LogRecord ℕ
mapped_record = or_record (map_ai_sdk_span floats span usage_attrs [])

abbrev gone_services : Services ℕ ℕ
gone_services = record services {
  insert_request = λ r s. (refused, s);
  insert_tool_decision = λ e s. (false, s);
  insert_tool_result = λ e s. (false, s);
  insert_api_error = λ e s. (false, s);
  insert_event = λ e s. (false, s);
}

gone : Refuses gone_services
gone = record {
  request = λ r s. refl;
  prompt = λ e s. refl;
  decision = λ e s. refl;
  result = λ e s. refl;
  api_failure = λ e s. refl;
  event = λ e s. refl;
}

lost_export_is_error_example :
    (export_logs floats gone_services logs empty_ingest).0
    ≡ internal_error (all_records logs) (all_records logs)
unfolding AllClaude all_records scopes_size sum_of Logs.resource_logs_is_dsh
    service_name_from_resource text_eq Logs.any_dsh_scope is_dsh_scope has_prefix
    Logs.is_codex_service
lost_export_is_error_example =
    lost_export_is_error floats gone_services gone logs empty_ingest ((refl, refl), tt)
      (omega arith) (omega arith)
