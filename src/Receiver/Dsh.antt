-- ===== src/Receiver/Dsh.antt =====
-- internal/receiver/dsh.go: the ledger of DeepSeek Harness. The steps of a session are timed by
-- their events, and each assistant message with usage becomes an api_request.
pub mod Steps
pub mod Refinement
pub mod Identity
mod Tests
use cc_otel.Prelude.{
  ℕ, suc, ◌/◌, Bool, true, false, Option, none, some, List, [], ◌∷◌, ◌++◌, if◌then◌else◌, ltb, ◌&&◌,
}
use cc_otel.Prelude.Int.{ℤ, pos, negsuc, ltb_ℤ, eqb_ℤ, ◌+ℤ◌, ◌-ℤ◌}
use cc_otel.Prelude.Text.{Text, codes, text_eq, has_prefix}
use cc_otel.Tokens.{wrap64, sub64}
use cc_otel.Receiver.Decimal.{parse_int, format_int}
use cc_otel.Receiver.Attrs.{
  FloatText, AnyValue, Attrs, attr, clamp_token_mag, extract_attrs, add_missing, is_set,
  service_name_from_resource,
}
use cc_otel.Receiver.Event.{LogRecord, Event, five_minutes, normalize_service_name}

abbrev pub dsh_scope_name : Text
dsh_scope_name = codes "@deepseek-ai/dsh-session-telemetry-otel"

unfoldable pub is_dsh_scope : Text → Bool
unfolding has_prefix
is_dsh_scope name = has_prefix name dsh_scope_name

pub record StepKey : Type 0 where
  pub session_id : Text
  pub turn : ℤ
  pub step : ℤ

unfoldable pub step_key_eq : StepKey → StepKey → Bool
unfolding text_eq
step_key_eq j k = text_eq j.session_id k.session_id && eqb_ℤ j.turn k.turn && eqb_ℤ j.step k.step

-- The boundaries seen of an open step, 0 for one not seen yet, and when it was seen last.
pub record StepTiming : Type 0 where
  pub start_nanos : ℤ
  pub first_token_nanos : ℤ
  pub seen : ℤ

abbrev pub no_timing : StepTiming
no_timing = record { start_nanos = pos 0; first_token_nanos = pos 0; seen = pos 0 }

-- dshStepTracker.steps
abbrev pub Steps : Type 0
Steps = List (StepKey × StepTiming)

unfoldable pub find_step : StepKey → Steps → Option StepTiming
find_step k [] = none
find_step k ((j, t) ∷ s) = let rest = find_step k s in if step_key_eq j k then some t else rest

unfoldable pub delete_step : StepKey → Steps → Steps
delete_step k [] = []
delete_step k ((j, t) ∷ s) =
    let rest = delete_step k s in if step_key_eq j k then rest else (j, t) ∷ rest

-- steps[k] = t
unfoldable pub put_step : StepKey → StepTiming → Steps → Steps
unfolding delete_step
put_step k t s = (k, t) ∷ delete_step k s

-- 30 * time.Minute
abbrev pub dsh_step_ttl : ℤ
dsh_step_ttl = pos 1800000000000

unfoldable pub evict : ℤ → Steps → Steps
evict now [] = []
evict now ((j, t) ∷ s) =
    let rest = evict now s in if ltb_ℤ t.seen (now -ℤ dsh_step_ttl) then rest else (j, t) ∷ rest

unfoldable pub note_start : ℤ → StepKey → ℤ → Steps → Steps
unfolding evict put_step
note_start now key nanos s =
    put_step key (record { start_nanos = nanos; first_token_nanos = pos 0; seen = now })
      (evict now s)

unfoldable pub note_first_token : ℤ → StepKey → ℤ → Steps → Steps
unfolding find_step put_step
note_first_token now key nanos s = elim (find_step key s) [
  | none ↦ s
  | some t ↦
      if eqb_ℤ t.first_token_nanos (pos 0)
      then put_step key
          (record { start_nanos = t.start_nanos; first_token_nanos = nanos; seen = now }) s
      else s
]

unfoldable pub take_step : StepKey → Steps → Option StepTiming × Steps
unfolding find_step delete_step
take_step key s = elim (find_step key s) [ none ↦ (none, s) | some t ↦ (some t, delete_step key s) ]

pub record Usage : Type 0 where
  pub input_tokens : ℤ
  pub output_tokens : ℤ
  pub cache_read_tokens : ℤ
  pub cache_write_tokens : ℤ
  pub reasoning_tokens : ℤ

-- dshAssistantMessage; of its source the model alone is read.
pub record AssistantMessage : Type 0 where
  pub turn : ℤ
  pub step : ℤ
  pub model : Text
  pub usage : Option Usage

unfoldable pub dsh_record_time : {F : Type 0} → ℤ → LogRecord F → ℤ
dsh_record_time now lr =
    if ltb 0 lr.time_unix_nano
    then wrap64 (pos lr.time_unix_nano)
    else if ltb 0 lr.observed_time_unix_nano
    then wrap64 (pos lr.observed_time_unix_nano)
    else now

unfoldable pub dsh_attrs :
    {F : Type 0} → FloatText F → LogRecord F → List (Text × AnyValue F) → Attrs
unfolding add_missing extract_attrs
dsh_attrs ft lr resource = add_missing ft resource (extract_attrs ft lr.attributes)

unfoldable pub dsh_request_id : Text → Text → Text → Text
dsh_request_id format_version session_id tail =
    if is_set format_version
    then codes "dsh-v" ++ (format_version ++ (codes "-" ++ (session_id ++ (codes "-" ++ tail))))
    else codes "dsh-" ++ (session_id ++ (codes "-" ++ tail))

-- (end - start) / 1e6 on int64, which rounds towards zero.
unfoldable pub millis_between : ℤ → ℤ → ℤ
millis_between start end = elim (sub64 end start) [
  | pos n ↦ pos (n / 1000000)
  | negsuc n ↦ pos 0 -ℤ pos (suc n / 1000000)
]

-- A record's time, with the guard against clocks that run ahead.
unfoldable pub dsh_nanos : {F : Type 0} → ℤ → LogRecord F → ℤ
unfolding dsh_record_time
dsh_nanos now lr =
    let nanos = dsh_record_time now lr in if ltb_ℤ (now +ℤ five_minutes) nanos then now else nanos

unfoldable pub request_tail : Text → ℤ → Text
unfolding parse_int format_int
request_tail seq_raw nanos =
    let seq = parse_int seq_raw in if seq.ok then format_int seq.value else format_int nanos

unfoldable pub duration_of : StepTiming → ℤ → ℤ
unfolding millis_between
duration_of timing nanos =
    if ltb_ℤ (pos 0) timing.start_nanos && ltb_ℤ timing.start_nanos nanos
    then millis_between timing.start_nanos nanos
    else pos 0

unfoldable pub ttft_of : StepTiming → ℤ
unfolding millis_between
ttft_of timing =
    if ltb_ℤ (pos 0) timing.start_nanos && ltb_ℤ timing.start_nanos timing.first_token_nanos
    then millis_between timing.start_nanos timing.first_token_nanos
    else pos 0

unfoldable pub dsh_event :
    {F : Type 0} → FloatText F → ℤ → Attrs → StepTiming → Text → Usage → Event F
unfolding attr parse_int clamp_token_mag normalize_service_name dsh_request_id request_tail
    duration_of ttft_of
dsh_event ft nanos attrs timing model usage = record {
  timestamp = nanos;
  session_id = attr attrs (codes "session.id");
  user_id = attr attrs (codes "user.id");
  prompt_id = [];
  prompt_text = [];
  prompt_length = pos 0;
  event_name = codes "api_request";
  event_sequence = (parse_int (attr attrs (codes "event.seq"))).value;
  model = model;
  input_tokens = clamp_token_mag usage.input_tokens;
  output_tokens = clamp_token_mag usage.output_tokens;
  cache_read_tokens = clamp_token_mag usage.cache_read_tokens;
  cache_creation_tokens = clamp_token_mag usage.cache_write_tokens;
  cost_usd = ft.zero;
  duration_ms = duration_of timing nanos;
  ttft_ms = ttft_of timing;
  speed = [];
  terminal_type = [];
  tool_name = [];
  decision = [];
  source = [];
  decision_source = [];
  decision_type = [];
  success = pos 0;
  tool_result_size_bytes = pos 0;
  error_type = [];
  error_message = [];
  error_code = pos 0;
  request_id =
      dsh_request_id (attr attrs (codes "session.format_version")) (attr attrs (codes "session.id"))
        (request_tail (attr attrs (codes "event.seq")) nanos);
  error_retryable = pos 0;
  service_name = normalize_service_name (attr attrs (codes "service.name"));
  service_version = attr attrs (codes "service.version");
  host_arch = [];
  os_type = [];
  os_version = [];
}

-- A message without usage has nothing to account for.
unfoldable pub dsh_row :
    {F : Type 0} → FloatText F → ℤ → Attrs → StepTiming → Text → Option Usage → Option (Event F)
dsh_row ft nanos attrs timing model none = none
dsh_row ft nanos attrs timing model (some usage) =
    some (dsh_event ft nanos attrs timing model usage)

unfoldable pub dsh_api_request :
    {F : Type 0}
    → FloatText F
    → ℤ
    → LogRecord F
    → Attrs
    → StepTiming
    → AssistantMessage
    → Option (Event F)
dsh_api_request ft now lr attrs timing body =
    dsh_row ft (dsh_nanos now lr) attrs timing body.model body.usage
