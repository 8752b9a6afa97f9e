-- ===== src/Receiver/Traces/Counts.antt =====
-- The delivery contract of an export of traces, the replay of its converted spans included.
use cc_otel.Prelude.{
  ℕ, zero, suc, ◌+◌, ◌≤◌, ◌<◌, Bool, true, false, not, ◌&&◌, ◌||◌, Option, none, some, List, [],
  ◌∷◌, ◌≡◌, refl, inl, inr, arith, ◌∙◌, ap, sym, subst, length,
}
use cc_otel.Prelude.Int.{ℤ, pos, ltb_ℤ}
use cc_otel.Prelude.Text.{Text, codes}
use cc_otel.Receiver.Attrs.{FloatText, AnyValue, Attrs, is_set, extract_attrs, parse_attr_int}
use cc_otel.Receiver.Event.{LogRecord}
use cc_otel.Receiver.Spans.{Span, ScopeSpans, ResourceSpans, RawSpan}
use cc_otel.Receiver.Services.{
  Services, IngestStats, Ingest, recorded, failing, record_one, fail_one,
}
use cc_otel.Receiver.Codex.Dispatch.Failures.{OneFailed, OneFailure, either, run_counted-OneFailure}
use cc_otel.Receiver.Logs.{ScopeLogs, ResourceLogs, export_logs, handle_each}
use cc_otel.Receiver.Logs.Counts.{sum_of, record_size, resource_size, ledger_size}
use cc_otel.Receiver.Logs.Delivery.{verdict, export_logs-verdict, export_result-verdict, same_stats}
use cc_otel.Receiver.Traces

-- So many spans were counted, and no more than `m` of them failed.
abbrev CountedSpans : ℕ → ℕ → IngestStats → Type 0
CountedSpans n m stats = (stats.total ≡ n) × (stats.failed ≤ m)

abbrev CountsSpans : {A S : Type 0} → (A → ℕ) → (A → ℕ) → (A → Ingest S → Bool × Ingest S) → Type 0
CountsSpans {A} {S} size risk f =
    (a : A) (n m : ℕ) (st : Ingest S)
    → n + size a < 4294967296
    → m + risk a < 4294967296
    → CountedSpans n m st.stats
    → CountedSpans (n + size a) (m + risk a) (f a st).1.stats

handle_each-CountsSpans :
    {A S : Type 0} (size risk : A → ℕ) (f : A → Ingest S → Bool × Ingest S)
    → CountsSpans size risk f
    → CountsSpans (sum_of size) (sum_of risk) (handle_each f)
unfolding handle_each sum_of
handle_each-CountsSpans size risk f c [] n m st p q h = ground (arith, h)
handle_each-CountsSpans size risk f c (a ∷ rest) n m st p q h =
    let first = c a n m st (omega (arith, p)) (omega (arith, q)) h in
    let others =
      handle_each-CountsSpans size risk f c rest (n + size a) (m + risk a) (f a st).1
        (omega (arith, p)) (omega (arith, q)) first in
    omega (arith, others)

fail_times_lem :
    (k n m : ℕ) (stats : IngestStats)
    → m + k < 4294967296
    → CountedSpans n m stats
    → CountedSpans n (m + k) (Traces.fail_times k stats)
unfolding Traces.fail_times fail_one
fail_times_lem zero n m stats p h = ground (arith, h)
fail_times_lem (suc k) n m stats p h =
    let rest = fail_times_lem k n (m + 1) (fail_one stats) (omega (arith, p)) (ground (arith, h)) in
    omega (arith, rest)

one_span :
    (n m : ℕ) (a b : IngestStats)
    → n + 1 < 4294967296
    → m + 1 < 4294967296
    → CountedSpans n m a
    → OneFailed (record_one a) b
    → CountedSpans (n + 1) (m + 1) b
unfolding record_one fail_one
one_span n m a b p q h (inl e) = subst (CountedSpans (n + 1) (m + 1)) (sym e) (ground arith)
one_span n m a b p q h (inr e) = subst (CountedSpans (n + 1) (m + 1)) (sym e) (ground arith)

-- A span that is not converted can fail by itself.
unfoldable risk_of : {F : Type 0} → Option (LogRecord F) → ℕ
risk_of none = 1
risk_of (some lr) = 0

sum_of_le :
    {A : Type 0} (size : A → ℕ) (xs : List A) → ((a : A) → size a ≤ 1) → sum_of size xs ≤ length xs
unfolding sum_of
sum_of_le size [] h = omega arith
sum_of_le size (a ∷ xs) h = omega (arith, h a, sum_of_le size xs h)

replay_failures_le :
    (converted n failed : ℕ)
    → n ≤ converted
    → failed ≤ n
    → Traces.replay_failures converted (verdict n failed) ≤ converted
unfolding Traces.replay_failures verdict
replay_failures_le converted n zero p q = omega arith
replay_failures_le converted n (suc failed) p q = ground arith

module _ {F S : Type 0} (ft : FloatText F) (sv : Services F S) where
  backfill_answer-OneFailure :
      (k : Traces.JoinKeys) (end_unix ttft : ℤ) (raw : RawSpan) (answer : Option Bool)
      (st : Ingest S)
      → OneFailure st (Traces.backfill_answer ft sv k end_unix ttft raw answer st).1
  unfolding Traces.backfill_answer failing
  backfill_answer-OneFailure k end_unix ttft raw none st = inr refl
  backfill_answer-OneFailure k end_unix ttft raw (some true) st = inl refl
  backfill_answer-OneFailure k end_unix ttft raw (some false) st = run_counted-OneFailure _ st

  join_ttft-OneFailure :
      (k : Traces.JoinKeys) (end_unix ttft : ℤ) (raw : RawSpan) (st : Ingest S)
      → OneFailure st (Traces.join_ttft ft sv k end_unix ttft raw st).1
  unfolding Traces.join_ttft
  join_ttft-OneFailure k end_unix ttft raw st =
      either st (not (is_set k.request_id) && (not (is_set k.session_id) || not (is_set k.model))) _
        _ (inl refl) (backfill_answer-OneFailure k end_unix ttft raw _ _)

  plain_span-OneFailure :
      (res_attrs : Attrs) (ss : ScopeSpans F) (sp : Span F) (st : Ingest S)
      → OneFailure st (Traces.plain_span ft sv res_attrs ss sp st).1
  unfolding Traces.plain_span
  plain_span-OneFailure res_attrs ss sp st =
      either st
        (not (ltb_ℤ (pos 0) (parse_attr_int (extract_attrs ft sp.attributes) (codes "ttft_ms")))) _
        _ (inl refl) (join_ttft-OneFailure _ _ _ _ st)

  span_answer-Counted :
      (res_attrs : Attrs) (ss : ScopeSpans F) (sp : Span F) (lr : Option (LogRecord F)) (n m : ℕ)
      (st : Ingest S)
      → n + 1 < 4294967296
      → m + risk_of lr < 4294967296
      → CountedSpans n m st.stats
      → CountedSpans
          (n + 1)
          (m + risk_of lr)
          (Traces.span_answer ft sv res_attrs ss sp lr (recorded st)).1.stats
  unfolding Traces.span_answer risk_of recorded record_one
  span_answer-Counted res_attrs ss sp none n m st p q h =
      one_span n m st.stats _ p q h (plain_span-OneFailure res_attrs ss sp (recorded st))
  span_answer-Counted res_attrs ss sp (some lr) n m st p q h = ground (arith, h)

  unfoldable span_risk : Attrs → Span F → ℕ
  span_risk res_attrs sp = risk_of (Traces.converted_span ft sv res_attrs sp)

  unfoldable scope_risk : Attrs → ScopeSpans F → ℕ
  scope_risk res_attrs ss = sum_of (span_risk res_attrs) ss.spans

  unfoldable resource_risk : ResourceSpans F → ℕ
  resource_risk rs = sum_of (scope_risk (extract_attrs ft rs.resource)) rs.scope_spans

  span-Counted :
      (res_attrs : Attrs) (ss : ScopeSpans F)
      → CountsSpans (λ sp. 1) (span_risk res_attrs) (Traces.handle_span ft sv res_attrs ss)
  unfolding Traces.handle_span span_risk
  span-Counted res_attrs ss sp n m st p q h =
      span_answer-Counted res_attrs ss sp (Traces.converted_span ft sv res_attrs sp) n m st p q h

  -- The spans of an export.
  unfoldable pub scope_spans_size : ScopeSpans F → ℕ
  scope_spans_size ss = sum_of (λ sp. 1) ss.spans

  unfoldable pub resource_spans_size : ResourceSpans F → ℕ
  resource_spans_size rs = sum_of scope_spans_size rs.scope_spans

  resource_spans-Counted :
      CountsSpans resource_spans_size resource_risk (Traces.handle_resource_spans ft sv)
  unfolding Traces.handle_resource_spans resource_spans_size resource_risk scope_spans_size
      scope_risk
  resource_spans-Counted rs =
      handle_each-CountsSpans _ _ _
        (λ ss.
          handle_each-CountsSpans _ _ _ (span-Counted (extract_attrs ft rs.resource) ss) ss.spans)
        rs.scope_spans

  -- Each span either can fail by itself or is converted.
  length-add_record :
      (lr : Option (LogRecord F)) (rest : List (LogRecord F))
      → risk_of lr + length (Traces.add_record ft sv lr rest) ≡ 1 + length rest
  unfolding Traces.add_record risk_of
  length-add_record none rest = omega arith
  length-add_record (some lr) rest = omega arith

  length-converted_spans :
      (res_attrs : Attrs) (sps : List (Span F)) (rest : List (LogRecord F))
      → sum_of (span_risk res_attrs) sps + length (Traces.converted_spans ft sv res_attrs sps rest)
        ≡ sum_of (λ sp. 1) sps + length rest
  unfolding Traces.converted_spans sum_of span_risk
  length-converted_spans res_attrs [] rest = omega arith
  length-converted_spans res_attrs (sp ∷ sps) rest = omega (
    arith,
    length-converted_spans res_attrs sps rest,
    length-add_record (Traces.converted_span ft sv res_attrs sp)
        (Traces.converted_spans ft sv res_attrs sps rest),
  )

  length-converted_scopes :
      (res_attrs : Attrs) (scopes : List (ScopeSpans F))
      → sum_of (scope_risk res_attrs) scopes
          + length (Traces.converted_scopes ft sv res_attrs scopes)
        ≡ sum_of scope_spans_size scopes
  unfolding Traces.converted_scopes sum_of scope_risk scope_spans_size
  length-converted_scopes res_attrs [] = omega arith
  length-converted_scopes res_attrs (ss ∷ scopes) = omega (
    arith,
    length-converted_scopes res_attrs scopes,
    length-converted_spans res_attrs ss.spans (Traces.converted_scopes ft sv res_attrs scopes),
  )

  count-add_batch :
      (resource : List (Text × AnyValue F)) (lrs : List (LogRecord F))
      (rest : List (ResourceLogs F))
      → Traces.count_batches (Traces.add_batch ft sv resource lrs rest)
        ≡ length lrs + Traces.count_batches rest
  unfolding Traces.add_batch Traces.count_batches Traces.count_scopes
  count-add_batch resource [] rest = omega arith
  count-add_batch resource (lr ∷ lrs) rest = omega arith

  count-batches :
      (req : List (ResourceSpans F))
      → sum_of resource_risk req + Traces.count_batches (Traces.ai_sdk_batches ft sv req)
        ≡ sum_of resource_spans_size req
  unfolding Traces.ai_sdk_batches Traces.count_batches sum_of resource_risk resource_spans_size
  count-batches [] = omega arith
  count-batches (rs ∷ req) = omega (
    arith,
    count-batches req,
    count-add_batch rs.resource
        (Traces.converted_scopes ft sv (extract_attrs ft rs.resource) rs.scope_spans)
        (Traces.ai_sdk_batches ft sv req),
    length-converted_scopes (extract_attrs ft rs.resource) rs.scope_spans,
  )

  record_size_le : (rl : ResourceLogs F) (lr : LogRecord F) → record_size ft sv rl lr ≤ 1
  unfolding record_size ledger_size
  record_size_le rl lr = ground arith

  scopes_size_le :
      (rl : ResourceLogs F) (scopes : List (ScopeLogs F))
      → sum_of (λ sl. sum_of (record_size ft sv rl) sl.log_records) scopes
        ≤ Traces.count_scopes scopes
  unfolding sum_of Traces.count_scopes
  scopes_size_le rl [] = omega arith
  scopes_size_le rl (sl ∷ scopes) = omega (
    arith,
    scopes_size_le rl scopes,
    sum_of_le (record_size ft sv rl) sl.log_records (record_size_le rl),
  )

  batches_size_le :
      (req : List (ResourceLogs F)) → sum_of (resource_size ft sv) req ≤ Traces.count_batches req
  unfolding sum_of resource_size Traces.count_batches
  batches_size_le [] = omega arith
  batches_size_le (rl ∷ req) = omega (arith, batches_size_le req, scopes_size_le rl rl.scope_logs)

  replay_le :
      (batches : List (ResourceLogs F)) (st : Ingest S)
      → Traces.count_batches batches < 4294967296
      → Traces.replay_failures (Traces.count_batches batches) (export_logs ft sv batches st).0
        ≤ Traces.count_batches batches
  replay_le batches st p =
      let size = batches_size_le batches in
      let (total, failed, answer) = export_logs-verdict ft sv batches st (omega (arith, p, size)) in
      subst
        (λ a.
          Traces.replay_failures (Traces.count_batches batches) a ≤ Traces.count_batches batches)
        (sym answer) (replay_failures_le _ _ _ size failed)

  replay-Counted :
      (batches : List (ResourceLogs F)) (n m : ℕ) (st : Ingest S)
      → m + Traces.count_batches batches < 4294967296
      → CountedSpans n m st.stats
      → CountedSpans n
          (m + Traces.count_batches batches)
          (Traces.replay_spans ft sv batches st).stats
  unfolding Traces.replay_spans
  replay-Counted [] n m st p h = ground (arith, h)
  replay-Counted (rl ∷ rest) n m st p h =
      let batches = rl ∷ rest in
      let few = replay_le batches st (omega (arith, p)) in
      let k =
        Traces.replay_failures (Traces.count_batches batches) (export_logs ft sv batches st).0 in
      let (total, failed) = fail_times_lem k n m st.stats (omega (arith, p, few)) h in
      (total, omega (arith, few, failed))

  -- An export of fewer than 2^32 spans counts every span once and a failure of it at most once,
  -- whether the span is handled here or converted and replayed as a log record. The exporter is
  -- told that all is accepted if nothing failed, of an internal error if as many failures as spans
  -- were counted, and of a partial success with the number of failures otherwise.
  pub export_traces-verdict :
      (req : List (ResourceSpans F)) (st : Ingest S)
      → sum_of resource_spans_size req < 4294967296
      → let (answer, after) = Traces.export_traces ft sv req st in
        let n = sum_of resource_spans_size req in
        (after.stats.total ≡ n) × (after.stats.failed ≤ n) × (answer ≡ verdict n after.stats.failed)
  unfolding Traces.export_traces
  export_traces-verdict req st fits =
      let n = sum_of resource_spans_size req in
      let m = sum_of resource_risk req in
      let batches = Traces.ai_sdk_batches ft sv req in
      let all = count-batches req in
      let start : Ingest S = record st { stats = record { total = 0; failed = 0 } } in
      let spans = handle_each (Traces.handle_resource_spans ft sv) req start in
      let by_span =
        handle_each-CountsSpans resource_spans_size resource_risk
          (Traces.handle_resource_spans ft sv) resource_spans-Counted req 0 0 start
          (omega (arith, fits)) (omega (arith, fits, all)) (refl, omega arith) in
      let done = Traces.replay_spans ft sv batches spans.1 in
      let counted =
        replay-Counted batches n m spans.1 (omega (arith, fits, all))
          (omega (arith, by_span.0), omega (arith, by_span.1)) in
      let same = same_stats ft sv spans.0 done (sv.notify done.store) in
      let total = ap (λ s. s.total) same in
      let failed = ap (λ s. s.failed) same in
      (
        omega (arith, total, counted.0),
        omega (arith, failed, counted.1, all),
        export_result-verdict n done.stats (counted.0, omega (arith, counted.1, all))
            ∙ ap (verdict n) (sym failed),
      )
