-- ===== src/Receiver/Traces.antt =====
-- internal/receiver/traces.go: the export of traces. A span with usage becomes a log record and is
-- replayed through the export of logs; of another span the time to first token is joined to its row.
pub mod Counts
use cc_otel.Prelude.{
  ℕ, zero, suc, ◌/◌, Bool, true, false, not, Option, none, some, List, [], ◌∷◌, ltb, ◌&&◌, ◌||◌,
  if◌then◌else◌, ◌+◌, length,
}
use cc_otel.Prelude.Int.{ℤ, pos, negsuc, ltb_ℤ}
use cc_otel.Prelude.Text.{Text, codes}
use cc_otel.Receiver.Attrs.{
  FloatText, AnyValue, Attrs, attr, parse_attr_int, extract_attrs, is_set, pick_attr,
  first_non_empty_many,
}
use cc_otel.Receiver.Event.{LogRecord}
use cc_otel.Receiver.Spans.{Span, ScopeSpans, ResourceSpans, RawSpan, span_kind_string}
use cc_otel.Receiver.AiSdk.{is_ai_sdk_usage_span, map_ai_sdk_span, ai_sdk_resource}
use cc_otel.Receiver.Services.{
  Services, IngestStats, Ingest, recorded, failing, fail_one, run_counted,
}
use cc_otel.Receiver.Logs.{
  ScopeLogs, ResourceLogs, ExportAnswer, accepted, partial_success, internal_error, export_result,
  export_logs, handle_each,
}

abbrev session_keys : List Text
session_keys =
    codes "session.id" ∷ codes "session_id" ∷ codes "sessionId" ∷ codes "cc.session_id" ∷ []

abbrev prompt_keys : List Text
prompt_keys = codes "prompt.id" ∷ codes "prompt_id" ∷ codes "promptId" ∷ codes "cc.prompt_id" ∷ []

abbrev request_keys : List Text
request_keys =
    codes "request_id" ∷ codes "request.id" ∷ codes "requestId" ∷ codes "cc.request_id" ∷ []

abbrev model_keys : List Text
model_keys =
    codes "model"
    ∷ codes "model.name"
    ∷ codes "model_id"
    ∷ codes "modelId"
    ∷ codes "cc.model"
    ∷ codes "gen_ai.request.model"
    ∷ codes "gen_ai.response.model"
    ∷ []

-- The keys by which a span is joined to its row.
pub record JoinKeys : Type 0 where
  pub session_id : Text
  pub prompt_id : Text
  pub request_id : Text
  pub model : Text

unfoldable pub join_model : Attrs → Attrs → Text
join_model attrs res_attrs =
    let model = pick_attr attrs res_attrs model_keys in
    if is_set model
    then model
    else first_non_empty_many (
        attr attrs (codes "anthropic.model")
        ∷ attr res_attrs (codes "anthropic.model")
        ∷ attr attrs (codes "llm.model")
        ∷ attr res_attrs (codes "llm.model")
        ∷ [])

unfoldable pub join_keys : Attrs → Attrs → JoinKeys
join_keys attrs res_attrs = record {
  session_id = pick_attr attrs res_attrs session_keys;
  prompt_id = pick_attr attrs res_attrs prompt_keys;
  request_id = pick_attr attrs res_attrs request_keys;
  model = join_model attrs res_attrs;
}

-- A second of the epoch: of the span's end, of its start, or of its arrival.
unfoldable pub span_seconds : {F : Type 0} → ℤ → Span F → ℤ
span_seconds now_seconds sp =
    if ltb 0 sp.end_time_unix_nano
    then pos (sp.end_time_unix_nano / 1000000000)
    else if ltb 0 sp.start_time_unix_nano
    then pos (sp.start_time_unix_nano / 1000000000)
    else now_seconds

-- time.Now().Unix() of a reading in nanoseconds.
abbrev to_seconds : ℤ → ℤ
to_seconds (pos n) = pos (n / 1000000000)
to_seconds (negsuc n) = negsuc (n / 1000000000)

-- The next attempt, while the attempts before it found no row and met no error.
unfoldable pub try_next :
    {S : Type 0} → Bool → (S → Option Bool × S) → Option Bool × S → Option Bool × S
try_next applies attempt (none, s) = (none, s)
try_next applies attempt (some true, s) = (some true, s)
try_next applies attempt (some false, s) = if applies then attempt s else (some false, s)

-- The failures of the replayed records are those of their spans.
unfoldable pub fail_times : ℕ → IngestStats → IngestStats
fail_times zero stats = stats
fail_times (suc n) stats = fail_times n (fail_one stats)

unfoldable pub replay_failures : ℕ → ExportAnswer → ℕ
replay_failures converted accepted = 0
replay_failures converted (partial_success rejected) = rejected
replay_failures converted (internal_error failed total) = converted

module _ {F S : Type 0} (ft : FloatText F) (sv : Services F S) where
  unfoldable pub backfill : JoinKeys → ℤ → ℤ → S → Option Bool × S
  backfill k end_unix ttft s =
      let joined = is_set k.session_id && is_set k.model in
      try_next joined (sv.backfill_ttft_nearest_loose k.session_id k.model end_unix (pos 120) ttft)
        (try_next (is_set k.prompt_id && joined)
          (sv.backfill_ttft_nearest k.session_id k.prompt_id k.model end_unix ttft)
          (try_next (is_set k.request_id) (sv.backfill_ttft_by_request_id k.request_id ttft)
            (some false, s)))

  unfoldable pub backfill_answer :
      JoinKeys → ℤ → ℤ → RawSpan → Option Bool → Ingest S → Bool × Ingest S
  backfill_answer k end_unix ttft raw none st = (false, failing st)
  backfill_answer k end_unix ttft raw (some true) st = (true, st)
  backfill_answer k end_unix ttft raw (some false) st = (
    false,
    (run_counted (sv.enqueue_pending_ttft_span k.request_id k.session_id k.model end_unix ttft raw)
        st).1,
  )

  unfoldable pub join_ttft : JoinKeys → ℤ → ℤ → RawSpan → Ingest S → Bool × Ingest S
  join_ttft k end_unix ttft raw st =
      if not (is_set k.request_id) && (not (is_set k.session_id) || not (is_set k.model))
      then (false, st)
      else let (answer, store) = backfill k end_unix ttft st.store in
        backfill_answer k end_unix ttft raw answer (record st { store = store })

  unfoldable pub converted_span : Attrs → Span F → Option (LogRecord F)
  converted_span res_attrs sp =
      if is_ai_sdk_usage_span sp.name
      then map_ai_sdk_span ft sp (extract_attrs ft sp.attributes) res_attrs
      else none

  unfoldable pub raw_span : Attrs → ScopeSpans F → Span F → RawSpan
  raw_span res_attrs ss sp = record {
    span_name = sp.name;
    span_kind = span_kind_string sp.kind;
    start_unix_nano = sp.start_time_unix_nano;
    end_unix_nano = sp.end_time_unix_nano;
    attributes = extract_attrs ft sp.attributes;
    resource_attrs = res_attrs;
    scope_name = ss.scope_name;
    scope_version = ss.scope_version;
  }

  unfoldable pub plain_span : Attrs → ScopeSpans F → Span F → Ingest S → Bool × Ingest S
  plain_span res_attrs ss sp st =
      let attrs = extract_attrs ft sp.attributes in
      let ttft = parse_attr_int attrs (codes "ttft_ms") in
      if not (ltb_ℤ (pos 0) ttft)
      then (false, st)
      else join_ttft (join_keys attrs res_attrs) (span_seconds (to_seconds (sv.clock st.store)) sp)
          ttft (raw_span res_attrs ss sp) st

  -- A span that is converted waits for the replay.
  unfoldable pub span_answer :
      Attrs → ScopeSpans F → Span F → Option (LogRecord F) → Ingest S → Bool × Ingest S
  span_answer res_attrs ss sp none st = plain_span res_attrs ss sp st
  span_answer res_attrs ss sp (some lr) st = (false, st)

  unfoldable pub handle_span : Attrs → ScopeSpans F → Span F → Ingest S → Bool × Ingest S
  handle_span res_attrs ss sp st =
      span_answer res_attrs ss sp (converted_span res_attrs sp) (recorded st)

  unfoldable pub handle_resource_spans : ResourceSpans F → Ingest S → Bool × Ingest S
  handle_resource_spans rs st =
      let res_attrs = extract_attrs ft rs.resource in
      handle_each (λ ss. handle_each (handle_span res_attrs ss) ss.spans) rs.scope_spans st

  unfoldable pub add_record : Option (LogRecord F) → List (LogRecord F) → List (LogRecord F)
  add_record none rest = rest
  add_record (some lr) rest = lr ∷ rest

  unfoldable pub converted_spans : Attrs → List (Span F) → List (LogRecord F) → List (LogRecord F)
  converted_spans res_attrs [] rest = rest
  converted_spans res_attrs (sp ∷ sps) rest =
      add_record (converted_span res_attrs sp) (converted_spans res_attrs sps rest)

  unfoldable pub converted_scopes : Attrs → List (ScopeSpans F) → List (LogRecord F)
  converted_scopes res_attrs [] = []
  converted_scopes res_attrs (ss ∷ rest) =
      converted_spans res_attrs ss.spans (converted_scopes res_attrs rest)

  unfoldable pub add_batch :
      List (Text × AnyValue F) → List (LogRecord F) → List (ResourceLogs F) → List (ResourceLogs F)
  add_batch resource [] rest = rest
  add_batch resource (lr ∷ lrs) rest =
      let scope : ScopeLogs F = record { scope_name = []; log_records = lr ∷ lrs } in
      record { resource = ai_sdk_resource ft resource; scope_logs = scope ∷ [] } ∷ rest

  -- The converted records of each resource, under that resource.
  unfoldable pub ai_sdk_batches : List (ResourceSpans F) → List (ResourceLogs F)
  ai_sdk_batches [] = []
  ai_sdk_batches (rs ∷ rest) =
      add_batch rs.resource (converted_scopes (extract_attrs ft rs.resource) rs.scope_spans)
        (ai_sdk_batches rest)

unfoldable pub count_scopes : {F : Type 0} → List (ScopeLogs F) → ℕ
count_scopes [] = 0
count_scopes (sl ∷ rest) = length sl.log_records + count_scopes rest

unfoldable pub count_batches : {F : Type 0} → List (ResourceLogs F) → ℕ
count_batches [] = 0
count_batches (rl ∷ rest) = count_scopes rl.scope_logs + count_batches rest

module _ {F S : Type 0} (ft : FloatText F) (sv : Services F S) where
  -- The export of logs counts for itself; its failures are added to those of the spans.
  unfoldable pub replay_spans : List (ResourceLogs F) → Ingest S → Ingest S
  replay_spans [] st = st
  replay_spans (rl ∷ rest) st =
      let (answer, after) = export_logs ft sv (rl ∷ rest) st in
      let failures = replay_failures (count_batches (rl ∷ rest)) answer in
      record after { stats = fail_times failures st.stats }

  -- tracesServiceServer.Export; the counters start at zero.
  unfoldable pub export_traces : List (ResourceSpans F) → Ingest S → ExportAnswer × Ingest S
  export_traces req st =
      let (should_notify, spans) =
        handle_each (handle_resource_spans ft sv) req
          (record st { stats = record { total = 0; failed = 0 } }) in
      let after = replay_spans (ai_sdk_batches ft sv req) spans in
      (
        export_result after.stats,
        if should_notify then record after { store = sv.notify after.store } else after,
      )
