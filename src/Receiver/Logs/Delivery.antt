-- ===== src/Receiver/Logs/Delivery.antt =====
-- The delivery contract of an export of logs.
use cc_otel.Prelude.{
  ℕ, zero, suc, ◌≤◌, ◌<◌, Bool, true, false, List, ◌≡◌, refl, arith, if◌then◌else◌, ltb, subst, ap,
  sym, ◌∙◌,
}
use cc_otel.Receiver.Attrs.{FloatText}
use cc_otel.Receiver.Services.{Services, IngestStats, Ingest}
use cc_otel.Receiver.Logs.{
  ResourceLogs, ExportAnswer, accepted, partial_success, internal_error, export_result, export_logs,
  handle_each, handle_resource_logs,
}
use cc_otel.Receiver.Logs.Counts.{
  Counted, sum_of, resource_size, resource_logs-Counts, handle_each-Counts,
}

-- What the exporter is told of an export of `total` records of which `failed` could not be stored.
unfoldable pub verdict : ℕ → ℕ → ExportAnswer
verdict total zero = accepted
verdict total (suc failed) =
    if ltb (suc failed) total
    then partial_success (suc failed)
    else internal_error (suc failed) total

result_at :
    (total failed : ℕ)
    → failed ≤ total
    → export_result (record { total = total; failed = failed }) ≡ verdict total failed
unfolding export_result verdict
result_at total zero h = refl
result_at total (suc failed) h = ground arith

pub export_result-verdict :
    (n : ℕ) (stats : IngestStats) → Counted n stats → export_result stats ≡ verdict n stats.failed
export_result-verdict n stats (e, h) =
    subst (λ total. export_result stats ≡ verdict total stats.failed) e
      (result_at stats.total stats.failed (omega (arith, e, h)))

module _ {F S : Type 0} (ft : FloatText F) (sv : Services F S) where
  pub same_stats :
      (c : Bool) (st : Ingest S) (store : S)
      → (if c then record st { store = store } else st).stats ≡ st.stats
  same_stats true st store = refl
  same_stats false st store = refl

  -- An export of fewer than 2^32 records counts each record of the ledger that has a session, and
  -- every record of the other clients, once, and a failure of it at most once. The exporter is told
  -- that all is accepted if nothing failed, of an internal error if every record failed, and of a
  -- partial success with the number of failures otherwise.
  pub export_logs-verdict :
      (req : List (ResourceLogs F)) (st : Ingest S)
      → sum_of (resource_size ft sv) req < 4294967296
      → let (answer, after) = export_logs ft sv req st in
        let n = sum_of (resource_size ft sv) req in
        (after.stats.total ≡ n) × (after.stats.failed ≤ n) × (answer ≡ verdict n after.stats.failed)
  unfolding export_logs
  export_logs-verdict req st fits =
      let n = sum_of (resource_size ft sv) req in
      let start : Ingest S = record st { stats = record { total = 0; failed = 0 } } in
      let done = handle_each (handle_resource_logs ft sv) req start in
      let counted =
        handle_each-Counts (resource_size ft sv) (handle_resource_logs ft sv)
          (resource_logs-Counts ft sv) req 0 start (omega (arith, fits)) (refl, omega arith) in
      let same = same_stats done.0 done.1 (sv.notify done.1.store) in
      let total = ap (λ s. s.total) same in
      let failed = ap (λ s. s.failed) same in
      (
        omega (arith, total, counted.0),
        omega (arith, failed, counted.1),
        export_result-verdict n done.1.stats (omega (arith, counted.0), omega (arith, counted.1))
            ∙ ap (verdict n) (sym failed),
      )
