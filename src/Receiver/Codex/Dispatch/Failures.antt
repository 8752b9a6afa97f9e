-- ===== src/Receiver/Codex/Dispatch/Failures.antt =====
-- How often one record can count as failed.
use cc_otel.Prelude.{
  Bool, true, false, Option, none, some, List, ◌≡◌, refl, ◌⊎◌, inl, inr, Bool-cases, if◌then◌else◌,
  not, ◌∙◌, ◌&&◌,
}
use cc_otel.Prelude.Int.{ℤ, pos, ltb_ℤ}
use cc_otel.Prelude.Text.{Text, codes, text_eq}
use cc_otel.Receiver.Attrs.{FloatText, AnyValue, Attrs, is_set}
use cc_otel.Receiver.Event.{LogRecord}
use cc_otel.Receiver.Services.{Services, Ingest, IngestStats, fail_one, failing, run_counted}
use cc_otel.Receiver.Codex.Tracker.{SpanInfo}
use cc_otel.Receiver.Codex.Rows.{CodexApiRequest}
use cc_otel.Receiver.Codex.Records.{
  is_token_less, pending_stream, codex_api_request, event_kind_from_log,
}
use cc_otel.Receiver.Codex.Dispatch

-- At most one failure was counted, and nothing else of the counters changed.
abbrev pub OneFailed : IngestStats → IngestStats → Type 0
OneFailed a b = (b ≡ a) ⊎ (b ≡ fail_one a)

abbrev pub OneFailure : {S : Type 0} → Ingest S → Ingest S → Type 0
OneFailure st st' = OneFailed st.stats st'.stats

pub keep : (a b c : IngestStats) → OneFailed a b → c ≡ b → OneFailed a c
keep a b c (inl e) h = inl (h ∙ e)
keep a b c (inr e) h = inr (h ∙ e)

-- Both ways on count one failure at most.
pub either :
    {S : Type 0} (st : Ingest S) (c : Bool) (r r' : Bool × Ingest S)
    → OneFailure st r.1
    → OneFailure st r'.1
    → OneFailure st (if c then r else r').1
either st true r r' h k = h
either st false r r' h k = k

pub run_counted-OneFailure :
    {S : Type 0} (op : S → Bool × S) (st : Ingest S) → OneFailure st (run_counted op st).1
unfolding run_counted failing
run_counted-OneFailure op st = elim (Bool-cases (op st.store).0) [
  | inl e ↦ rw e (inl refl)
  | inr e ↦ rw e (inr refl)
]

module _ {F S : Type 0} (ft : FloatText F) (sv : Services F S) where
  stats-announce : (r : Bool × Ingest S) → (Dispatch.announce ft sv r).1.stats ≡ r.1.stats
  unfolding Dispatch.announce Dispatch.notify_codex
  stats-announce (true, st) = refl
  stats-announce (false, st) = refl

  insert_codex-OneFailure :
      (op : S → Bool × S) (st : Ingest S) → OneFailure st (Dispatch.insert_codex ft sv op st).1
  unfolding Dispatch.insert_codex
  insert_codex-OneFailure op st =
      keep _ _ _ (run_counted-OneFailure op st) (stats-announce (run_counted op st))

  stats-fill_stashed :
      (row : ℤ) (req : CodexApiRequest) (st : Ingest S)
      → (Dispatch.fill_stashed ft sv row req st).stats ≡ st.stats
  unfolding Dispatch.fill_stashed
  stats-fill_stashed row req st = elim (Bool-cases (ltb_ℤ (pos 0) row)) [
    | inl e ↦ rw e refl
    | inr e ↦ rw e refl
  ]

  stats-record_pending :
      (ts : ℤ) (attrs : Attrs) (lr : LogRecord F) (row : ℤ) (req : CodexApiRequest) (st : Ingest S)
      → (Dispatch.record_pending ft sv ts attrs lr row req st).stats ≡ st.stats
  unfolding Dispatch.record_pending
  stats-record_pending ts attrs lr row req st = elim (Bool-cases (pending_stream attrs)) [
    | inl e ↦ rw e refl
    | inr e ↦ rw e refl
  ]

  request_answer-OneFailure :
      (ts : ℤ) (attrs : Attrs) (lr : LogRecord F) (req : CodexApiRequest) (answer : Option ℤ)
      (st : Ingest S)
      → OneFailure st (Dispatch.request_answer ft sv ts attrs lr req answer st).1
  unfolding Dispatch.request_answer failing Dispatch.notify_codex
  request_answer-OneFailure ts attrs lr req none st = inr refl
  request_answer-OneFailure ts attrs lr req (some row) st = inl (
      stats-record_pending ts attrs lr row req (Dispatch.fill_stashed ft sv row req st)
      ∙ stats-fill_stashed row req st)

  api_request-OneFailure :
      (ts : ℤ) (attrs : Attrs) (lr : LogRecord F) (st : Ingest S)
      → OneFailure st (Dispatch.handle_api_request ft sv ts attrs lr st).1
  unfolding Dispatch.handle_api_request
  api_request-OneFailure ts attrs lr st =
      let req = codex_api_request ts attrs in
      let answer = sv.insert_codex_api_request req st.store in
      either st (not (is_set req.model)) _ _ (inl refl)
        (request_answer-OneFailure ts attrs lr req answer.0 (record st { store = answer.1 }))

  created_for-OneFailure :
      (ts observed : ℤ) (found : Option (Text × SpanInfo)) (st : Ingest S)
      → OneFailure st (Dispatch.created_for ft sv ts observed found st).1
  unfolding Dispatch.created_for
  created_for-OneFailure ts observed none st = inl refl
  created_for-OneFailure ts observed (some (key, info)) st = inl refl

  stats-completion_answer :
      (key : Text) (r : Bool × Ingest S)
      → (Dispatch.completion_answer ft sv key r).1.stats ≡ r.1.stats
  unfolding Dispatch.completion_answer Dispatch.notify_codex
  stats-completion_answer key (true, st) = refl
  stats-completion_answer key (false, st) = refl

  completed-OneFailure :
      (ts : ℤ) (attrs : Attrs) (resource : List (Text × AnyValue F)) (lr : LogRecord F)
      (st : Ingest S)
      → OneFailure st (Dispatch.handle_completed ft sv ts attrs resource lr st).1
  unfolding Dispatch.handle_completed
  completed-OneFailure ts attrs resource lr st =
      either st (is_token_less attrs) _ _ (inl refl)
        (keep _ _ _ (run_counted-OneFailure _ _) (stats-completion_answer _ _))

  duration_row-OneFailure :
      (ts : ℤ) (info : SpanInfo) (ms : ℤ) (st : Ingest S)
      → OneFailure st (Dispatch.insert_duration_row ft sv ts info ms st).1
  unfolding Dispatch.insert_duration_row
  duration_row-OneFailure ts info ms st =
      either st (ltb_ℤ (pos 0) ms && is_set info.session_id && is_set info.model) _ _
        (insert_codex-OneFailure _ st) (inl refl)

  duration_answer-OneFailure :
      (ts : ℤ) (info : SpanInfo) (ms : ℤ) (updated : Option Bool) (st : Ingest S)
      → OneFailure st (Dispatch.duration_answer ft sv ts info ms updated st).1
  unfolding Dispatch.duration_answer failing Dispatch.notify_codex
  duration_answer-OneFailure ts info ms none st = inr refl
  duration_answer-OneFailure ts info ms (some true) st = inl refl
  duration_answer-OneFailure ts info ms (some false) st = duration_row-OneFailure ts info ms st

  websocket_for-OneFailure :
      (ts observed : ℤ) (kind : Text) (found : Option (Text × SpanInfo)) (st : Ingest S)
      → OneFailure st (Dispatch.websocket_for ft sv ts observed kind found st).1
  unfolding Dispatch.websocket_for Dispatch.handle_websocket_completed
  websocket_for-OneFailure ts observed kind none st = inl refl
  websocket_for-OneFailure ts observed kind (some (key, info)) st =
      either st (text_eq kind (codes "response.created")) _ _ (run_counted-OneFailure _ st) (
        either st (text_eq kind (codes "response.completed")) _ _
          (duration_answer-OneFailure ts info _ _ (record st { store = _ })) (inl refl))

  turn_answer-OneFailure :
      (ts : ℤ) (conversation_id model : Text) (ms : ℤ) (applied : Option Bool) (st : Ingest S)
      → OneFailure st (Dispatch.turn_answer ft sv ts conversation_id model ms applied st).1
  unfolding Dispatch.turn_answer failing
  turn_answer-OneFailure ts conversation_id model ms none st = inr refl
  turn_answer-OneFailure ts conversation_id model ms (some true) st = inl refl
  turn_answer-OneFailure ts conversation_id model ms (some false) st = inl refl

  sse_event-OneFailure :
      (ts : ℤ) (attrs : Attrs) (resource : List (Text × AnyValue F)) (lr : LogRecord F)
      (st : Ingest S)
      → OneFailure st (Dispatch.handle_sse_event ft sv ts attrs resource lr st).1
  unfolding Dispatch.handle_sse_event Dispatch.handle_created
  sse_event-OneFailure ts attrs resource lr st =
      let kind = event_kind_from_log ft lr attrs in
      either st (text_eq kind (codes "response.created")) _ _ (created_for-OneFailure ts _ _ st) (
        either st (text_eq kind (codes "response.completed")) _ _
          (completed-OneFailure ts attrs resource lr st) (inl refl))

  codex_case-OneFailure :
      (c : Dispatch.CodexCase) (ts : ℤ) (name : Text) (attrs : Attrs)
      (resource : List (Text × AnyValue F)) (lr : LogRecord F) (st : Ingest S)
      → OneFailure st (Dispatch.handle_codex_case ft sv c ts name attrs resource lr st).1
  unfolding Dispatch.handle_codex_case Dispatch.handle_websocket_request
      Dispatch.handle_websocket_event Dispatch.handle_turn_ttft
  codex_case-OneFailure Dispatch.api_request ts name attrs resource lr st =
      api_request-OneFailure ts attrs lr st
  codex_case-OneFailure Dispatch.sse_event ts name attrs resource lr st =
      sse_event-OneFailure ts attrs resource lr st
  codex_case-OneFailure Dispatch.user_prompt ts name attrs resource lr st =
      insert_codex-OneFailure _ st
  codex_case-OneFailure Dispatch.tool_decision ts name attrs resource lr st =
      insert_codex-OneFailure _ st
  codex_case-OneFailure Dispatch.tool_result ts name attrs resource lr st =
      insert_codex-OneFailure _ st
  codex_case-OneFailure Dispatch.websocket_request ts name attrs resource lr st = inl refl
  codex_case-OneFailure Dispatch.websocket_event ts name attrs resource lr st =
      websocket_for-OneFailure ts _ _ _ st
  codex_case-OneFailure Dispatch.turn_ttft ts name attrs resource lr st =
      turn_answer-OneFailure ts _ _ _ _ _
  codex_case-OneFailure Dispatch.other_codex ts name attrs resource lr st =
      run_counted-OneFailure _ st
  codex_case-OneFailure Dispatch.unknown ts name attrs resource lr st = inl refl

  -- A Codex record counts as failed at most once, whatever it is and whatever is refused.
  pub dispatch_codex_log-OneFailure :
      (lr : LogRecord F) (resource : List (Text × AnyValue F)) (st : Ingest S)
      → OneFailure st (Dispatch.dispatch_codex_log ft sv lr resource st).1
  unfolding Dispatch.dispatch_codex_log
  dispatch_codex_log-OneFailure lr resource st = codex_case-OneFailure _ _ _ _ resource lr st
