-- ===== src/Receiver/Logs/Losses.antt =====
-- That an export of which nothing was stored is never told that it was delivered.
use cc_otel.Prelude.{ℕ, ◌+◌, ◌<◌, Bool, false, List, [], ◌∷◌, ◌≡◌, refl, arith, sym, subst}
use cc_otel.Receiver.Attrs.{FloatText, service_name_from_resource}
use cc_otel.Receiver.Event.{Event, ApiRequest}
use cc_otel.Receiver.Services.{
  Services, IngestStats, Ingest, refused, recorded, failing, record_one, fail_one, run_counted,
}
use cc_otel.Receiver.Logs
use cc_otel.Receiver.Logs.Counts.{sum_of}

-- A database that is gone: every statement for Claude Code is refused.
pub record Refuses {F S : Type 0} (sv : Services F S) : Type 0 where
  pub request : (r : ApiRequest F) (s : S) → (sv.insert_request r s).0 ≡ refused
  pub prompt : (e : Event F) (s : S) → (sv.insert_user_prompt e s).0 ≡ false
  pub decision : (e : Event F) (s : S) → (sv.insert_tool_decision e s).0 ≡ false
  pub result : (e : Event F) (s : S) → (sv.insert_tool_result e s).0 ≡ false
  pub api_failure : (e : Event F) (s : S) → (sv.insert_api_error e s).0 ≡ false
  pub event : (e : Event F) (s : S) → (sv.insert_event e s).0 ≡ false

-- So many records were counted, and each of them failed.
abbrev Lost : ℕ → IngestStats → Type 0
Lost n stats = (stats.total ≡ n) × (stats.failed ≡ n)

abbrev Loses : {A S : Type 0} → (A → ℕ) → (A → Ingest S → Bool × Ingest S) → Type 0
Loses {A} {S} size f =
    (a : A) (n : ℕ) (st : Ingest S)
    → n + size a < 4294967296
    → Lost n st.stats
    → Lost (n + size a) (f a st).1.stats

handle_each-Loses :
    {A S : Type 0} (size : A → ℕ) (f : A → Ingest S → Bool × Ingest S)
    → Loses size f
    → Loses (sum_of size) (Logs.handle_each f)
unfolding Logs.handle_each sum_of
handle_each-Loses size f c [] n st fits h = ground (arith, h)
handle_each-Loses size f c (a ∷ rest) n st fits h =
    let first = c a n st (omega (arith, fits)) h in
    let others =
      handle_each-Loses size f c rest (n + size a) (f a st).1 (omega (arith, fits)) first in
    omega (arith, others)

run_counted_refused :
    {S : Type 0} (op : S → Bool × S) (st : Ingest S)
    → (op st.store).0 ≡ false
    → (run_counted op st).1.stats ≡ fail_one st.stats
unfolding run_counted failing
run_counted_refused op st h = rw h refl

one-Lost :
    (n : ℕ) (a b : IngestStats)
    → n + 1 < 4294967296
    → Lost n a
    → b ≡ fail_one (record_one a)
    → Lost (n + 1) b
unfolding record_one fail_one
one-Lost n a b fits h e = subst (Lost (n + 1)) (sym e) (ground arith)

-- Neither of the ledger nor of Codex.
abbrev pub IsClaude : {F : Type 0} → FloatText F → Logs.ResourceLogs F → Type 0
IsClaude ft rl =
    (Logs.resource_logs_is_dsh ft rl ≡ false)
    × (Logs.is_codex_service (service_name_from_resource ft rl.resource) ≡ false)

unfoldable pub AllClaude : {F : Type 0} → FloatText F → List (Logs.ResourceLogs F) → Type 0
AllClaude ft [] = Unit
AllClaude ft (rl ∷ req) = IsClaude ft rl × AllClaude ft req

unfoldable pub scopes_size : {F : Type 0} → List (Logs.ScopeLogs F) → ℕ
scopes_size = sum_of (λ sl. sum_of (λ lr. 1) sl.log_records)

unfoldable pub all_records : {F : Type 0} → List (Logs.ResourceLogs F) → ℕ
all_records = sum_of (λ rl. scopes_size rl.scope_logs)

module _ {F S : Type 0} (ft : FloatText F) (sv : Services F S) (gone : Refuses sv) where
  request_lost :
      (e : Event F) (st : Ingest S)
      → (Logs.store_api_request ft sv e st).1.stats ≡ fail_one st.stats
  unfolding Logs.store_api_request Logs.insert_answer failing
  request_lost e st = rw (gone.request _ st.store) refl

  event_lost :
      (c : Logs.EventCase) (e : Event F) (st : Ingest S)
      → (Logs.handle_event_case ft sv c e st).1.stats ≡ fail_one st.stats
  unfolding Logs.handle_event_case
  event_lost Logs.api_request e st = request_lost e st
  event_lost Logs.user_prompt e st = run_counted_refused _ st (gone.prompt e st.store)
  event_lost Logs.tool_decision e st = run_counted_refused _ st (gone.decision e st.store)
  event_lost Logs.tool_result e st = run_counted_refused _ st (gone.result e st.store)
  event_lost Logs.api_error e st = run_counted_refused _ st (gone.api_failure e st.store)
  event_lost Logs.any_event e st = run_counted_refused _ st (gone.event e st.store)

  record-Loses :
      (rl : Logs.ResourceLogs F)
      → IsClaude ft rl
      → Loses (λ lr. 1) (Logs.handle_record ft sv rl.resource)
  unfolding Logs.handle_record Logs.handle_claude_record recorded
  record-Loses rl (_, other) lr n st fits h =
      one-Lost n st.stats _ fits h (rw other (event_lost _ _ _))

  resource-Loses :
      (rl : Logs.ResourceLogs F) (n : ℕ) (st : Ingest S)
      → IsClaude ft rl
      → n + scopes_size rl.scope_logs < 4294967296
      → Lost n st.stats
      → Lost (n + scopes_size rl.scope_logs) (Logs.handle_resource_logs ft sv rl st).1.stats
  unfolding Logs.handle_resource_logs scopes_size
  resource-Loses rl n st c fits h =
      rw (Logs.handle_resource_logs, c.0)
        (handle_each-Loses _ _ (λ sl. handle_each-Loses _ _ (record-Loses rl c) sl.log_records)
          rl.scope_logs n st fits h)

  all-Lost :
      (req : List (Logs.ResourceLogs F)) (n : ℕ) (st : Ingest S)
      → AllClaude ft req
      → n + all_records req < 4294967296
      → Lost n st.stats
      → Lost
          (n + all_records req)
          (Logs.handle_each (Logs.handle_resource_logs ft sv) req st).1.stats
  unfolding Logs.handle_each all_records sum_of AllClaude
  all-Lost [] n st c fits h = ground (arith, h)
  all-Lost (rl ∷ req) n st c fits h =
      let first = resource-Loses rl n st c.0 (omega (arith, fits)) h in
      let others =
        all-Lost req (n + scopes_size rl.scope_logs) (Logs.handle_resource_logs ft sv rl st).1 c.1
          (omega (arith, fits)) first in
      omega (arith, others)

  answer-Lost :
      (n : ℕ) (stats : IngestStats)
      → 0 < n
      → Lost n stats
      → Logs.export_result stats ≡ Logs.internal_error n n
  unfolding Logs.export_result
  answer-Lost n stats p (e, f) = rw (e, f) (ground arith)

  -- With a database that is gone, an export of one record or more of Claude Code is told of an
  -- internal error with every record failed, so that its exporter does not take it for delivered.
  pub lost_export_is_error :
      (req : List (Logs.ResourceLogs F)) (st : Ingest S)
      → AllClaude ft req
      → 0 < all_records req
      → all_records req < 4294967296
      → (Logs.export_logs ft sv req st).0 ≡ Logs.internal_error (all_records req) (all_records req)
  unfolding Logs.export_logs
  lost_export_is_error req st c some_record fits =
      let start : Ingest S = record st { stats = record { total = 0; failed = 0 } } in
      let (total, failed) = all-Lost req 0 start c (omega (arith, fits)) (refl, refl) in
      answer-Lost (all_records req) _ some_record (omega (arith, total), omega (arith, failed))
