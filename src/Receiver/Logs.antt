-- ===== src/Receiver/Logs.antt =====
-- internal/receiver/receiver.go and dsh.go: the export of logs. A batch holds the records of
-- several clients, each under its resource; the resource decides which handler reads them.
pub mod Counts
pub mod Delivery
pub mod Losses
use cc_otel.Prelude.{
  ℕ, ◌+◌, ◌%◌, Bool, true, false, not, Option, none, some, List, [], ◌∷◌, ltb, leb, ◌&&◌, ◌||◌,
  if◌then◌else◌,
}
use cc_otel.Prelude.Int.{ℤ, pos}
use cc_otel.Prelude.Text.{Text, codes, text_eq, to_lower}
use cc_otel.Pricing.Admin.Listing.{has_infix}
use cc_otel.Receiver.Attrs.{FloatText, AnyValue, Attrs, attr, is_set, service_name_from_resource}
use cc_otel.Receiver.Event.{LogRecord, Event, ApiRequest, parse_event, api_request_from_event}
use cc_otel.Receiver.Dsh.{
  StepKey, StepTiming, AssistantMessage, no_timing, is_dsh_scope, dsh_attrs, dsh_record_time,
  note_start, note_first_token, take_step, dsh_api_request,
}
use cc_otel.Receiver.Services.{
  Services, InsertResult, inserted, ignored, refused, IngestStats, Ingest, recorded, failing,
  run_counted, recomputed,
}
use cc_otel.Receiver.Codex.Dispatch.{dispatch_codex_log}

pub record ScopeLogs (F : Type 0) : Type 0 where
  pub scope_name : Text
  pub log_records : List (LogRecord F)

pub record ResourceLogs (F : Type 0) : Type 0 where
  pub resource : List (Text × AnyValue F)
  pub scope_logs : List (ScopeLogs F)

abbrev pub dsh_service_name : Text
dsh_service_name = codes "deepseek-harness"

unfoldable pub any_dsh_scope : {F : Type 0} → List (ScopeLogs F) → Bool
any_dsh_scope [] = false
any_dsh_scope (sl ∷ scopes) = is_dsh_scope sl.scope_name || any_dsh_scope scopes

unfoldable pub resource_logs_is_dsh : {F : Type 0} → FloatText F → ResourceLogs F → Bool
resource_logs_is_dsh ft rl =
    text_eq (service_name_from_resource ft rl.resource) dsh_service_name
    || any_dsh_scope rl.scope_logs

unfoldable pub is_codex_service : Text → Bool
is_codex_service name = is_set name && has_infix (to_lower name) (codes "codex")

-- The event types that the ledger's handler reads; it drops the others.
pub data LedgerCase : Type 0 where
  step_start chunk step_end message dropped : LedgerCase

unfoldable pub ledger_case : Text → LedgerCase
ledger_case name =
    if text_eq name (codes "step/start")
    then step_start
    else if text_eq name (codes "assistant/chunk")
    then chunk
    else if text_eq name (codes "step/end")
    then step_end
    else if text_eq name (codes "assistant/message")
    then message
    else dropped

-- The cases of the switch over the name of a Claude Code event.
pub data EventCase : Type 0 where
  api_request user_prompt tool_decision tool_result api_error any_event : EventCase

unfoldable pub event_case : Text → EventCase
event_case name =
    if text_eq name (codes "api_request")
    then api_request
    else if text_eq name (codes "user_prompt")
    then user_prompt
    else if text_eq name (codes "tool_decision")
    then tool_decision
    else if text_eq name (codes "tool_result")
    then tool_result
    else if text_eq name (codes "api_error")
    then api_error
    else any_event

-- The loops over the records: whether one of them asks for a notification.
unfoldable pub handle_each :
    {A S : Type 0} → (A → Ingest S → Bool × Ingest S) → List A → Ingest S → Bool × Ingest S
handle_each f [] st = (false, st)
handle_each f (a ∷ rest) st =
    let (now, st1) = f a st in let (later, st2) = handle_each f rest st1 in (now || later, st2)

module _ {F S : Type 0} (ft : FloatText F) (sv : Services F S) where
  unfoldable pub with_cost : Event F → Option F → Event F
  with_cost e none = e
  with_cost e (some c) = if ft.is_positive c then record e { cost_usd = c } else e

  unfoldable pub price_event : Event F → S → Event F × S
  unfolding with_cost
  price_event e s =
      let (cost, s') =
        recomputed sv e.service_name e.model e.input_tokens e.output_tokens e.cache_read_tokens
          e.cache_creation_tokens s in
      (with_cost e cost, s')

  unfoldable pub insert_answer : InsertResult → Ingest S → Bool × Ingest S
  insert_answer inserted st = (true, st)
  insert_answer ignored st = (false, st)
  insert_answer refused st = (false, failing st)

  unfoldable pub store_api_request : Event F → Ingest S → Bool × Ingest S
  store_api_request e st =
      let row : ApiRequest F = record (api_request_from_event e) {
        actual_model = sv.resolve_actual_model e.model;
      } in
      let (answer, store) = sv.insert_request row st.store in
      insert_answer answer (record st { store = store })

  unfoldable pub store_ledger_row : Option (Event F) → Ingest S → Bool × Ingest S
  unfolding price_event
  store_ledger_row none st = (false, st)
  store_ledger_row (some e) st =
      let (priced, store) = price_event e st.store in
      store_api_request priced (record st { store = store })

  unfoldable pub ledger_message :
      Attrs → LogRecord F → Option AssistantMessage → Ingest S → Bool × Ingest S
  ledger_message attrs lr none st = (false, st)
  ledger_message attrs lr (some body) st =
      let key : StepKey = record {
        session_id = attr attrs (codes "session.id");
        turn = body.turn;
        step = body.step;
      } in
      let (taken, steps) = take_step key st.dsh in
      let timing : StepTiming = elim taken [ none ↦ no_timing | some t ↦ t ] in
      store_ledger_row (dsh_api_request ft (sv.clock st.store) lr attrs timing body)
        (record st { dsh = steps })

  unfoldable pub at_step :
      Text → (StepKey → Ingest S → Ingest S) → Option (ℤ × ℤ) → Ingest S → Bool × Ingest S
  at_step session_id f none st = (false, st)
  at_step session_id f (some (turn, step)) st =
      (false, f (record { session_id = session_id; turn = turn; step = step }) st)

  -- What an event of a step's life cycle does to the step that its body names.
  unfoldable pub on_step :
      Attrs → LogRecord F → (StepKey → Ingest S → Ingest S) → Ingest S → Bool × Ingest S
  on_step attrs lr f st =
      at_step (attr attrs (codes "session.id")) f
        (elim lr.body [ none ↦ none | some body ↦ sv.decode_step_ref body ]) st

  unfoldable pub handle_ledger_case : LedgerCase → Attrs → LogRecord F → Ingest S → Bool × Ingest S
  handle_ledger_case step_start attrs lr st =
      on_step attrs lr
        (λ key st.
          let now = sv.clock st.store in
          record st { dsh = note_start now key (dsh_record_time now lr) st.dsh })
        st
  handle_ledger_case chunk attrs lr st =
      on_step attrs lr
        (λ key st.
          let now = sv.clock st.store in
          record st { dsh = note_first_token now key (dsh_record_time now lr) st.dsh })
        st
  handle_ledger_case step_end attrs lr st =
      on_step attrs lr (λ key st. record st { dsh = (take_step key st.dsh).1 }) st
  handle_ledger_case message attrs lr st =
      ledger_message attrs lr (elim lr.body [ none ↦ none | some body ↦ sv.decode_message body ]) st
  handle_ledger_case dropped attrs lr st = (false, st)

  -- A record without a session is no part of the ledger, and is not counted.
  unfoldable pub handle_dsh_record :
      List (Text × AnyValue F) → LogRecord F → Ingest S → Bool × Ingest S
  handle_dsh_record resource lr st =
      let attrs = dsh_attrs ft lr resource in
      if is_set (attr attrs (codes "session.id"))
      then handle_ledger_case (ledger_case (attr attrs (codes "event.type"))) attrs lr (recorded st)
      else (false, st)

  unfoldable pub handle_event_case : EventCase → Event F → Ingest S → Bool × Ingest S
  handle_event_case api_request e st = store_api_request e st
  handle_event_case user_prompt e st = (false, (run_counted (sv.insert_user_prompt e) st).1)
  handle_event_case tool_decision e st = (false, (run_counted (sv.insert_tool_decision e) st).1)
  handle_event_case tool_result e st = (false, (run_counted (sv.insert_tool_result e) st).1)
  handle_event_case api_error e st = (false, (run_counted (sv.insert_api_error e) st).1)
  handle_event_case any_event e st = (false, (run_counted (sv.insert_event e) st).1)

  unfoldable pub handle_claude_record :
      List (Text × AnyValue F) → LogRecord F → Ingest S → Bool × Ingest S
  unfolding price_event
  handle_claude_record resource lr st =
      let (e, store) = price_event (parse_event ft (sv.clock st.store) lr resource) st.store in
      handle_event_case (event_case e.event_name) e (record st { store = store })

  -- Codex's handler notifies by itself.
  unfoldable pub handle_record : List (Text × AnyValue F) → LogRecord F → Ingest S → Bool × Ingest S
  handle_record resource lr st =
      if is_codex_service (service_name_from_resource ft resource)
      then (false, (dispatch_codex_log ft sv lr resource (recorded st)).1)
      else handle_claude_record resource lr (recorded st)

  unfoldable pub handle_resource_logs : ResourceLogs F → Ingest S → Bool × Ingest S
  handle_resource_logs rl st =
      let each =
        if resource_logs_is_dsh ft rl
        then handle_dsh_record rl.resource
        else handle_record rl.resource in
      handle_each (λ sl. handle_each each sl.log_records) rl.scope_logs st

-- The answer to an export: accepted, accepted but for some records, or refused with the counts.
pub data ExportAnswer : Type 0 where
  accepted : ExportAnswer
  partial_success : ℕ → ExportAnswer
  internal_error : ℕ → ℕ → ExportAnswer

unfoldable pub export_result : IngestStats → ExportAnswer
export_result stats =
    if ltb 0 stats.failed
    then (if ltb 0 stats.total && leb stats.total stats.failed
        then internal_error stats.failed stats.total
        else partial_success stats.failed)
    else accepted

module _ {F S : Type 0} (ft : FloatText F) (sv : Services F S) where
  -- logsServiceServer.Export; the counters start at zero.
  unfoldable pub export_logs : List (ResourceLogs F) → Ingest S → ExportAnswer × Ingest S
  export_logs req st =
      let (should_notify, after) =
        handle_each (handle_resource_logs ft sv) req
          (record st { stats = record { total = 0; failed = 0 } }) in
      (
        export_result after.stats,
        if should_notify then record after { store = sv.notify after.store } else after,
      )
