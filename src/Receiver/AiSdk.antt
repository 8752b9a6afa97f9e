-- ===== src/Receiver/AiSdk.antt =====
-- internal/receiver/opencode.go: spans of the AI SDK that carry token usage, which become records
-- of an api_request.
pub mod Usage
use cc_otel.Prelude.{
  ℕ, ◌-◌, ◌/◌, Bool, true, false, not, Option, none, some, List, [], ◌∷◌, ◌++◌, ltb, ◌==◌, ◌&&◌,
  ◌||◌, if◌then◌else◌,
}
use cc_otel.Prelude.Int.{ℤ, pos, ltb_ℤ, eqb_ℤ}
use cc_otel.Prelude.Text.{Text, codes, text_eq, trim_space}
use cc_otel.Tokens.{sub64, wrap64}
use cc_otel.Receiver.Decimal.{parse_int}
use cc_otel.Receiver.Attrs.{
  FloatText, AnyValue, string_value, int_value, Attrs, attr, is_set, pick_attr,
  service_name_from_resource,
}
use cc_otel.Receiver.Event.{LogRecord}
use cc_otel.Receiver.Spans.{Span}

unfoldable pub is_ai_sdk_usage_span : Text → Bool
is_ai_sdk_usage_span name =
    text_eq name (codes "ai.streamText.doStream")
    || text_eq name (codes "ai.generateText.doGenerate")

-- The first value that is not zero; 0 if there is none.
unfoldable pub first_non_zero : List ℤ → ℤ
first_non_zero [] = pos 0
first_non_zero (v ∷ vs) = if eqb_ℤ v (pos 0) then first_non_zero vs else v

module _ {F : Type 0} (ft : FloatText F) where
  -- A count that may have been written as a float; 0 for a text that is neither.
  unfoldable pub float_count : Text → ℤ
  float_count raw = elim (ft.parse_float raw) [ none ↦ pos 0 | some x ↦ ft.truncate x ]

  unfoldable pub count_of : Text → ℤ
  count_of raw =
      let p = parse_int raw in
      if p.ok && not (eqb_ℤ p.value (pos 0)) then p.value else float_count raw

  -- An empty text is neither an integer nor a float.
  unfoldable pub counts_at : Attrs → Attrs → Text → List ℤ
  counts_at attrs res_attrs k =
      let own = trim_space (attr attrs k) in
      let shared = trim_space (attr res_attrs k) in
      (if is_set own then count_of own else pos 0)
      ∷ (if is_set shared then count_of shared else pos 0)
      ∷ []

  unfoldable pub counts_of : Attrs → Attrs → List Text → List ℤ
  counts_of attrs res_attrs [] = []
  counts_of attrs res_attrs (k ∷ ks) = counts_at attrs res_attrs k ++ counts_of attrs res_attrs ks

  unfoldable pub pick_attr_int : Attrs → Attrs → List Text → ℤ
  pick_attr_int attrs res_attrs keys = first_non_zero (counts_of attrs res_attrs keys)

  -- A float that does not parse, or is 0, is passed over.
  unfoldable pub float_of : Text → F
  float_of raw = elim (ft.parse_float raw) [ none ↦ ft.zero | some x ↦ x ]

  unfoldable pub first_float : List Text → F
  first_float [] = ft.zero
  first_float (v ∷ vs) =
      let raw = trim_space v in
      let x = float_of raw in
      let rest = first_float vs in if is_set raw && not (ft.is_zero x) then x else rest

  unfoldable pub values_of : Attrs → Attrs → List Text → List Text
  values_of attrs res_attrs [] = []
  values_of attrs res_attrs (k ∷ ks) =
      attr attrs k ∷ attr res_attrs k ∷ values_of attrs res_attrs ks

  unfoldable pub pick_attr_float : Attrs → Attrs → List Text → F
  pick_attr_float attrs res_attrs keys = first_float (values_of attrs res_attrs keys)

unfoldable pub kv_str : {F : Type 0} → Text → Text → Text × AnyValue F
kv_str k v = (k, string_value v)

unfoldable pub kv_int : {F : Type 0} → Text → ℤ → Text × AnyValue F
kv_int k v = (k, int_value v)

-- The attribute of a value that is there.
unfoldable pub kv_set : {F : Type 0} → Text → Text → List (Text × AnyValue F)
kv_set k [] = []
kv_set k (c ∷ v) = kv_str k (c ∷ v) ∷ []

abbrev pub model_keys : List Text
model_keys =
    codes "ai.response.model"
    ∷ codes "ai.model.id"
    ∷ codes "gen_ai.request.model"
    ∷ codes "model"
    ∷ []

abbrev input_keys : List Text
input_keys = codes "ai.usage.inputTokens" ∷ codes "gen_ai.usage.input_tokens" ∷ []

abbrev cache_read_keys : List Text
cache_read_keys =
    codes "ai.usage.inputTokenDetails.cacheReadTokens"
    ∷ codes "ai.usage.cachedInputTokens"
    ∷ codes "gen_ai.usage.cache_read_input_tokens"
    ∷ []

abbrev cache_write_keys : List Text
cache_write_keys =
    codes "ai.usage.inputTokenDetails.cacheWriteTokens"
    ∷ codes "ai.usage.inputTokenDetails.cacheCreationTokens"
    ∷ codes "ai.usage.cacheWriteInputTokens"
    ∷ codes "gen_ai.usage.cache_creation_input_tokens"
    ∷ []

abbrev output_keys : List Text
output_keys = codes "ai.usage.outputTokens" ∷ codes "gen_ai.usage.output_tokens" ∷ []

abbrev pub session_keys : List Text
session_keys =
    codes "ai.telemetry.metadata.sessionId"
    ∷ codes "ai.request.headers.X-Session-Id"
    ∷ codes "session.id"
    ∷ codes "sessionId"
    ∷ []

abbrev pub user_keys : List Text
user_keys = codes "ai.telemetry.metadata.userId" ∷ codes "user.id" ∷ codes "userId" ∷ []

abbrev pub prompt_keys : List Text
prompt_keys = codes "prompt.id" ∷ codes "promptId" ∷ []

-- The four counts of a span.
pub record SpanUsage : Type 0 where
  pub input_total : ℤ
  pub cache_read : ℤ
  pub cache_write : ℤ
  pub output : ℤ

unfoldable pub span_usage : {F : Type 0} → FloatText F → Attrs → Attrs → SpanUsage
span_usage ft attrs res_attrs = record {
  input_total = pick_attr_int ft attrs res_attrs input_keys;
  cache_read = pick_attr_int ft attrs res_attrs cache_read_keys;
  cache_write = pick_attr_int ft attrs res_attrs cache_write_keys;
  output = pick_attr_int ft attrs res_attrs output_keys;
}

unfoldable pub has_usage : SpanUsage → Bool
has_usage u = not (
    eqb_ℤ u.input_total (pos 0)
    && eqb_ℤ u.output (pos 0)
    && eqb_ℤ u.cache_read (pos 0)
    && eqb_ℤ u.cache_write (pos 0))

-- The input without its cached parts, for a provider that includes them; one whose remainder is
-- negative does not include them, and reports the input itself.
unfoldable pub uncached_of : SpanUsage → ℤ
uncached_of u =
    let rest = sub64 (sub64 u.input_total u.cache_read) u.cache_write in
    if ltb_ℤ rest (pos 0) then u.input_total else rest

module _ {F : Type 0} (ft : FloatText F) where
  -- The duration that the model reports, or else that of the span.
  unfoldable pub span_duration : Span F → Attrs → Attrs → ℤ
  span_duration sp attrs res_attrs =
      let reported =
        ft.truncate (pick_attr_float ft attrs res_attrs (codes "ai.response.msToFinish" ∷ [])) in
      if eqb_ℤ reported (pos 0) && ltb sp.start_time_unix_nano sp.end_time_unix_nano
      then wrap64 (pos ((sp.end_time_unix_nano - sp.start_time_unix_nano) / 1000000))
      else reported

  -- The attributes of every record, and those that a span need not have.
  unfoldable pub fixed_attributes :
      Span F → Attrs → Attrs → Text → SpanUsage → List (Text × AnyValue F)
  fixed_attributes sp attrs res_attrs model u =
      kv_str (codes "event.name") (codes "api_request")
      ∷ kv_str (codes "model") model
      ∷ kv_int (codes "input_tokens") (uncached_of u)
      ∷ kv_int (codes "output_tokens") u.output
      ∷ kv_int (codes "cache_read_tokens") u.cache_read
      ∷ kv_int (codes "cache_creation_tokens") u.cache_write
      ∷ kv_int (codes "duration_ms") (span_duration sp attrs res_attrs)
      ∷ kv_int (codes "ttft_ms") (
          ft.truncate
            (pick_attr_float ft attrs res_attrs (codes "ai.response.msToFirstChunk" ∷ [])))
      ∷ kv_str (codes "request_id") sp.span_id_hex
      ∷ []

  unfoldable pub usage_attributes :
      Span F → Attrs → Attrs → Text → SpanUsage → List (Text × AnyValue F)
  usage_attributes sp attrs res_attrs model u =
      fixed_attributes sp attrs res_attrs model u
      ++ kv_set (codes "session.id") (pick_attr attrs res_attrs session_keys)
      ++ kv_set (codes "user.id") (pick_attr attrs res_attrs user_keys)
      ++ kv_set (codes "prompt.id") (pick_attr attrs res_attrs prompt_keys)

  unfoldable pub usage_record : Span F → Attrs → Attrs → Text → SpanUsage → LogRecord F
  usage_record sp attrs res_attrs model u = record {
    time_unix_nano =
        if sp.end_time_unix_nano == 0 then sp.start_time_unix_nano else sp.end_time_unix_nano;
    observed_time_unix_nano = 0;
    body = some (string_value (codes "api_request"));
    attributes = usage_attributes sp attrs res_attrs model u;
    span_id = [];
  }

  unfoldable pub map_ai_sdk_span : Span F → Attrs → Attrs → Option (LogRecord F)
  map_ai_sdk_span sp attrs res_attrs =
      let model = pick_attr attrs res_attrs model_keys in
      let u = span_usage ft attrs res_attrs in
      if not (is_set model) || not (has_usage u)
      then none
      else some (usage_record sp attrs res_attrs model u)

  unfoldable pub ai_sdk_resource : List (Text × AnyValue F) → List (Text × AnyValue F)
  ai_sdk_resource resource =
      if is_set (service_name_from_resource ft resource)
      then resource
      else kv_str (codes "service.name") (codes "opencode") ∷ resource
