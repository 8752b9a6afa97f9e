-- ===== src/Receiver/Logs/Counts.antt =====
-- That the handlers count each record once, and a failure of it at most once.
use cc_otel.Prelude.{
  ℕ, ◌+◌, ◌≤◌, ◌<◌, Bool, true, false, Option, none, some, List, [], ◌∷◌, ◌≡◌, refl, inl, inr,
  arith, if◌then◌else◌, subst, sym,
}
use cc_otel.Prelude.Int.{ℤ}
use cc_otel.Prelude.Text.{Text, codes}
use cc_otel.Receiver.Attrs.{FloatText, AnyValue, Attrs, attr, is_set, service_name_from_resource}
use cc_otel.Receiver.Event.{LogRecord, Event}
use cc_otel.Receiver.Dsh.{StepKey, AssistantMessage, dsh_attrs}
use cc_otel.Receiver.Services.{
  Services, IngestStats, Ingest, recorded, failing, record_one, fail_one, InsertResult, inserted,
  ignored, refused,
}
use cc_otel.Receiver.Codex.Dispatch.Failures.{
  OneFailed, OneFailure, run_counted-OneFailure, dispatch_codex_log-OneFailure,
}
use cc_otel.Receiver.Logs

-- So many records were counted, and no more of them failed.
abbrev pub Counted : ℕ → IngestStats → Type 0
Counted n stats = (stats.total ≡ n) × (stats.failed ≤ n)

pub one_more :
    (n : ℕ) (a b : IngestStats)
    → n + 1 < 4294967296
    → Counted n a
    → OneFailed (record_one a) b
    → Counted (n + 1) b
unfolding record_one fail_one
one_more n a b fits h (inl e) = subst (Counted (n + 1)) (sym e) (ground arith)
one_more n a b fits h (inr e) = subst (Counted (n + 1)) (sym e) (ground arith)

branch-Counted :
    {S : Type 0} (c : Bool) (r r' : Bool × Ingest S) (n : ℕ)
    → n + (if c then 1 else 0) < 4294967296
    → (n + 1 < 4294967296 → Counted (n + 1) r.1.stats)
    → Counted n r'.1.stats
    → Counted (n + (if c then 1 else 0)) (if c then r else r').1.stats
branch-Counted true r r' n fits h k = h fits
branch-Counted false r r' n fits h k = ground (arith, k)

both-Counted :
    {S : Type 0} (c : Bool) (r r' : Bool × Ingest S) (n : ℕ)
    → Counted n r.1.stats
    → Counted n r'.1.stats
    → Counted n (if c then r else r').1.stats
both-Counted true r r' n h k = h
both-Counted false r r' n h k = k

-- A handler that counts `size a` records for the part `a` of an export.
abbrev pub Counts : {A S : Type 0} → (A → ℕ) → (A → Ingest S → Bool × Ingest S) → Type 0
Counts {A} {S} size f =
    (a : A) (n : ℕ) (st : Ingest S)
    → n + size a < 4294967296
    → Counted n st.stats
    → Counted (n + size a) (f a st).1.stats

unfoldable pub sum_of : {A : Type 0} → (A → ℕ) → List A → ℕ
sum_of size [] = 0
sum_of size (a ∷ rest) = size a + sum_of size rest

pub handle_each-Counts :
    {A S : Type 0} (size : A → ℕ) (f : A → Ingest S → Bool × Ingest S)
    → Counts size f
    → Counts (sum_of size) (Logs.handle_each f)
unfolding Logs.handle_each sum_of
handle_each-Counts size f c [] n st fits h = ground (arith, h)
handle_each-Counts size f c (a ∷ rest) n st fits h =
    let first = c a n st (omega (arith, fits)) h in
    let others =
      handle_each-Counts size f c rest (n + size a) (f a st).1 (omega (arith, fits)) first in
    omega (arith, others)

module _ {F S : Type 0} (ft : FloatText F) (sv : Services F S) where
  insert_answer-OneFailure :
      (answer : InsertResult) (st : Ingest S) → OneFailure st (Logs.insert_answer ft sv answer st).1
  unfolding Logs.insert_answer failing
  insert_answer-OneFailure inserted st = inl refl
  insert_answer-OneFailure ignored st = inl refl
  insert_answer-OneFailure refused st = inr refl

  store_api_request-OneFailure :
      (e : Event F) (st : Ingest S) → OneFailure st (Logs.store_api_request ft sv e st).1
  unfolding Logs.store_api_request
  store_api_request-OneFailure e st = insert_answer-OneFailure _ _

  ledger_row-OneFailure :
      (e : Option (Event F)) (st : Ingest S) → OneFailure st (Logs.store_ledger_row ft sv e st).1
  unfolding Logs.store_ledger_row
  ledger_row-OneFailure none st = inl refl
  ledger_row-OneFailure (some e) st = store_api_request-OneFailure _ _

  ledger_message-OneFailure :
      (attrs : Attrs) (lr : LogRecord F) (body : Option AssistantMessage) (st : Ingest S)
      → OneFailure st (Logs.ledger_message ft sv attrs lr body st).1
  unfolding Logs.ledger_message
  ledger_message-OneFailure attrs lr none st = inl refl
  ledger_message-OneFailure attrs lr (some body) st = ledger_row-OneFailure _ _

  at_step-OneFailure :
      (session_id : Text) (f : StepKey → Ingest S → Ingest S) (ref : Option (ℤ × ℤ)) (st : Ingest S)
      → ((k : StepKey) → (f k st).stats ≡ st.stats)
      → OneFailure st (Logs.at_step ft sv session_id f ref st).1
  unfolding Logs.at_step
  at_step-OneFailure session_id f none st h = inl refl
  at_step-OneFailure session_id f (some (turn, step)) st h = inl (h _)

  ledger_case-OneFailure :
      (c : Logs.LedgerCase) (attrs : Attrs) (lr : LogRecord F) (st : Ingest S)
      → OneFailure st (Logs.handle_ledger_case ft sv c attrs lr st).1
  unfolding Logs.handle_ledger_case Logs.on_step
  ledger_case-OneFailure Logs.step_start attrs lr st = at_step-OneFailure _ _ _ st (λ k. refl)
  ledger_case-OneFailure Logs.chunk attrs lr st = at_step-OneFailure _ _ _ st (λ k. refl)
  ledger_case-OneFailure Logs.step_end attrs lr st = at_step-OneFailure _ _ _ st (λ k. refl)
  ledger_case-OneFailure Logs.message attrs lr st = ledger_message-OneFailure attrs lr _ st
  ledger_case-OneFailure Logs.dropped attrs lr st = inl refl

  event_case-OneFailure :
      (c : Logs.EventCase) (e : Event F) (st : Ingest S)
      → OneFailure st (Logs.handle_event_case ft sv c e st).1
  unfolding Logs.handle_event_case
  event_case-OneFailure Logs.api_request e st = store_api_request-OneFailure e st
  event_case-OneFailure Logs.user_prompt e st = run_counted-OneFailure _ st
  event_case-OneFailure Logs.tool_decision e st = run_counted-OneFailure _ st
  event_case-OneFailure Logs.tool_result e st = run_counted-OneFailure _ st
  event_case-OneFailure Logs.api_error e st = run_counted-OneFailure _ st
  event_case-OneFailure Logs.any_event e st = run_counted-OneFailure _ st

  -- A record of the ledger is counted if it has a session, any other record always.
  unfoldable pub ledger_size : List (Text × AnyValue F) → LogRecord F → ℕ
  ledger_size resource lr =
      if is_set (attr (dsh_attrs ft lr resource) (codes "session.id")) then 1 else 0

  unfoldable pub record_size : Logs.ResourceLogs F → LogRecord F → ℕ
  record_size rl lr = if Logs.resource_logs_is_dsh ft rl then ledger_size rl.resource lr else 1

  unfoldable pub resource_size : Logs.ResourceLogs F → ℕ
  resource_size rl = sum_of (λ sl. sum_of (record_size rl) sl.log_records) rl.scope_logs

  dsh_record-Counts :
      (resource : List (Text × AnyValue F))
      → Counts (ledger_size resource) (Logs.handle_dsh_record ft sv resource)
  unfolding Logs.handle_dsh_record ledger_size recorded
  dsh_record-Counts resource lr n st fits h =
      branch-Counted (is_set (attr (dsh_attrs ft lr resource) (codes "session.id"))) _ _ n fits
        (λ f. one_more n st.stats _ f h (ledger_case-OneFailure _ _ lr (recorded st))) h

  log_record-Counts :
      (resource : List (Text × AnyValue F)) → Counts (λ lr. 1) (Logs.handle_record ft sv resource)
  unfolding Logs.handle_record Logs.handle_claude_record recorded
  log_record-Counts resource lr n st fits h =
      both-Counted (Logs.is_codex_service (service_name_from_resource ft resource)) _ _ (n + 1)
        (one_more n st.stats _ fits h
          (dispatch_codex_log-OneFailure ft sv lr resource (recorded st)))
        (one_more n st.stats _ fits h (event_case-OneFailure _ _ _))

  by_client-Counts :
      (rl : Logs.ResourceLogs F) (c : Bool)
      → Counts
          (λ lr. if c then ledger_size rl.resource lr else 1)
          (if c
            then Logs.handle_dsh_record ft sv rl.resource
            else Logs.handle_record ft sv rl.resource)
  by_client-Counts rl true = dsh_record-Counts rl.resource
  by_client-Counts rl false = log_record-Counts rl.resource

  pub resource_logs-Counts : Counts resource_size (Logs.handle_resource_logs ft sv)
  unfolding Logs.handle_resource_logs resource_size record_size
  resource_logs-Counts rl =
      let c = Logs.resource_logs_is_dsh ft rl in
      handle_each-Counts _ _ (λ sl. handle_each-Counts _ _ (by_client-Counts rl c) sl.log_records)
        rl.scope_logs
