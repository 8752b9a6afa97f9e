-- ===== src/Receiver/Codex/Dispatch.antt =====
-- internal/receiver/codex_parser.go: dispatchCodexLog. Its answer says whether the record had an
-- effect.
pub mod Failures
use cc_otel.Prelude.{
  ℕ, ◌/◌, Bool, true, false, not, Option, none, some, List, [], ◌∷◌, ◌&&◌, ◌||◌, if◌then◌else◌,
}
use cc_otel.Prelude.Int.{ℤ, pos, negsuc, ltb_ℤ, eqb_ℤ}
use cc_otel.Prelude.Text.{Text, codes, text_eq, has_prefix}
use cc_otel.Receiver.Attrs.{
  FloatText, AnyValue, Attrs, attr, parse_attr_int, extract_attrs, add_missing, is_set,
  service_name_from_resource,
}
use cc_otel.Receiver.Event.{LogRecord}
use cc_otel.Receiver.Dsh.{millis_between}
use cc_otel.Receiver.Services.{Services, Ingest, failing, run_counted, recomputed, IngestStats}
use cc_otel.Receiver.Codex.Tracker.{
  SpanInfo, TurnTtftObs, CodexTracker, record_request, lookup_request, remove_request,
  stash_turn_ttft, drain_turn_ttft, codex_request_start_nanos,
}
use cc_otel.Receiver.Codex.Rows.{CodexApiRequest, CodexTokenUpdate, CodexEvent}
use cc_otel.Receiver.Codex.Records.{
  event_name_from_codex_log, event_kind_from_log, codex_time, observed_nanos, pending_stream,
  codex_api_request, is_token_less, codex_input, token_update, user_prompt_event,
  tool_decision_event, tool_result_event,
}

-- The cases of the switch over the event's name.
pub data CodexCase : Type 0 where
  api_request sse_event user_prompt tool_decision tool_result : CodexCase
  websocket_request websocket_event turn_ttft other_codex unknown : CodexCase

unfoldable pub codex_case : Text → CodexCase
codex_case name =
    if text_eq name (codes "codex.api_request")
    then api_request
    else if text_eq name (codes "codex.sse_event")
    then sse_event
    else if text_eq name (codes "codex.user_prompt")
    then user_prompt
    else if text_eq name (codes "codex.tool_decision")
    then tool_decision
    else if text_eq name (codes "codex.tool_result")
    then tool_result
    else if text_eq name (codes "codex.websocket_request")
    then websocket_request
    else if text_eq name (codes "codex.websocket_event")
    then websocket_event
    else if text_eq name (codes "codex.turn_ttft")
    then turn_ttft
    else if has_prefix name (codes "codex.")
    then other_codex
    else unknown

-- 10 * time.Minute
abbrev pub lookup_max_age : ℤ
lookup_max_age = pos 600000000000

-- Seconds of the epoch, rounded down.
abbrev unix_seconds : ℤ → ℤ
unix_seconds (pos n) = pos (n / 1000000000)
unix_seconds (negsuc n) = negsuc (n / 1000000000)

module _ {F S : Type 0} (ft : FloatText F) (sv : Services F S) where
  unfoldable pub notify_codex : Ingest S → Ingest S
  notify_codex st = record st {
    store = sv.notify_source (codes "codex") (sv.notify_source (codes "claude") st.store);
  }

  unfoldable pub announce : Bool × Ingest S → Bool × Ingest S
  announce (true, st) = (true, notify_codex st)
  announce (false, st) = (false, st)

  -- An insert that is counted when it is refused, and announced when it is not.
  unfoldable pub insert_codex : (S → Bool × S) → Ingest S → Bool × Ingest S
  insert_codex op st = announce (run_counted op st)

  -- The observations that came before their row; a refusal is not counted.
  unfoldable pub fill_ttft : ℤ → Text → Text → List TurnTtftObs → S → S
  fill_ttft row session_id model [] s = s
  fill_ttft row session_id model (o ∷ os) s =
      fill_ttft row session_id model os
        (sv.update_codex_request_ttft row session_id model o.ts_unix_nano o.ms s).1

  unfoldable pub fill_stashed : ℤ → CodexApiRequest → Ingest S → Ingest S
  unfolding fill_ttft
  fill_stashed row req st =
      if ltb_ℤ (pos 0) row
      then (let (os, tracker) =
            drain_turn_ttft req.conversation_id req.model req.timestamp st.codex in
          record st { store = fill_ttft row req.session_id req.model os st.store; codex = tracker })
      else st

  unfoldable pub record_pending :
      ℤ → Attrs → LogRecord F → ℤ → CodexApiRequest → Ingest S → Ingest S
  record_pending ts attrs lr row req st =
      if pending_stream attrs
      then (let start =
            codex_request_start_nanos (observed_nanos ts lr)
              (parse_attr_int attrs (codes "duration_ms")) in
          let info : SpanInfo = record {
            row_id = row;
            session_id = req.session_id;
            model = req.model;
            start_nanos = start;
          } in
          record st { codex = (record_request lr.span_id info st.codex).1 })
      else st

  unfoldable pub request_answer :
      ℤ → Attrs → LogRecord F → CodexApiRequest → Option ℤ → Ingest S → Bool × Ingest S
  request_answer ts attrs lr req none st = (false, failing st)
  request_answer ts attrs lr req (some row) st =
      (true, notify_codex (record_pending ts attrs lr row req (fill_stashed row req st)))

  unfoldable pub handle_api_request : ℤ → Attrs → LogRecord F → Ingest S → Bool × Ingest S
  handle_api_request ts attrs lr st =
      let req = codex_api_request ts attrs in
      if not (is_set req.model)
      then (false, st)
      else let (answer, store) = sv.insert_codex_api_request req st.store in
        request_answer ts attrs lr req answer (record st { store = store })

  unfoldable pub find_request : ℤ → Attrs → LogRecord F → CodexTracker → Option (Text × SpanInfo)
  find_request ts attrs lr tracker =
      lookup_request lr.span_id (attr attrs (codes "conversation.id")) (attr attrs (codes "model"))
        (observed_nanos ts lr) lookup_max_age tracker

  -- The row's time to first token, when it is positive; the answer is whether it was stored.
  unfoldable pub update_ttft : ℤ → ℤ → SpanInfo → S → Bool × S
  update_ttft ts observed info s =
      let ttft_ms = millis_between info.start_nanos observed in
      if ltb_ℤ (pos 0) ttft_ms
      then sv.update_codex_request_ttft info.row_id info.session_id info.model ts ttft_ms s
      else (true, s)

  -- Here a refusal is not counted.
  unfoldable pub created_for : ℤ → ℤ → Option (Text × SpanInfo) → Ingest S → Bool × Ingest S
  created_for ts observed none st = (false, st)
  created_for ts observed (some (key, info)) st =
      (false, record st { store = (update_ttft ts observed info st.store).1 })

  unfoldable pub handle_created : ℤ → Attrs → LogRecord F → Ingest S → Bool × Ingest S
  handle_created ts attrs lr st =
      created_for ts (observed_nanos ts lr) (find_request ts attrs lr st.codex) st

  -- The row and the duration of the request that a completion ends, and its key.
  unfoldable pub completed_span : ℤ → Option (Text × SpanInfo) → Text × ℤ × ℤ
  completed_span observed none = ([], pos 0, pos 0)
  completed_span observed (some (key, info)) =
      let duration_ms = millis_between info.start_nanos observed in
      (key, info.row_id, if ltb_ℤ (pos 0) duration_ms then duration_ms else pos 0)

  -- The completed request is removed with its row stored.
  unfoldable pub completion_answer : Text → Bool × Ingest S → Bool × Ingest S
  completion_answer key (true, st) =
      (true, notify_codex (record st { codex = remove_request key st.codex }))
  completion_answer key (false, st) = (false, st)

  unfoldable pub handle_completed :
      ℤ → Attrs → List (Text × AnyValue F) → LogRecord F → Ingest S → Bool × Ingest S
  handle_completed ts attrs resource lr st =
      if is_token_less attrs
      then (false, st)
      else let (cost, s1) =
          recomputed sv (service_name_from_resource ft resource) (attr attrs (codes "model"))
            (codex_input attrs) (parse_attr_int attrs (codes "output_token_count"))
            (parse_attr_int attrs (codes "cached_token_count"))
            (parse_attr_int attrs (codes "cache_write_token_count")) st.store in
        let (key, row, duration) =
          completed_span (observed_nanos ts lr) (find_request ts attrs lr st.codex) in
        let price : F = elim cost [ none ↦ ft.zero | some c ↦ c ] in
        let upd = token_update ts attrs price row duration in
        completion_answer key
          (run_counted (sv.update_codex_api_request_tokens upd) (record st { store = s1 }))

  unfoldable pub handle_sse_event :
      ℤ → Attrs → List (Text × AnyValue F) → LogRecord F → Ingest S → Bool × Ingest S
  handle_sse_event ts attrs resource lr st =
      let kind = event_kind_from_log ft lr attrs in
      if text_eq kind (codes "response.created")
      then handle_created ts attrs lr st
      else if text_eq kind (codes "response.completed")
      then handle_completed ts attrs resource lr st
      else (false, st)

  unfoldable pub handle_websocket_request : ℤ → Attrs → LogRecord F → Ingest S → Bool × Ingest S
  handle_websocket_request ts attrs lr st =
      let start =
        codex_request_start_nanos (observed_nanos ts lr)
          (parse_attr_int attrs (codes "duration_ms")) in
      let info : SpanInfo = record {
        row_id = pos 0;
        session_id = attr attrs (codes "conversation.id");
        model = attr attrs (codes "model");
        start_nanos = start;
      } in
      (false, record st { codex = (record_request lr.span_id info st.codex).1 })

  abbrev duration_only_row : ℤ → SpanInfo → ℤ → CodexApiRequest
  duration_only_row ts info duration_ms = record {
    timestamp = ts;
    session_id = info.session_id;
    user_id = [];
    request_id = [];
    conversation_id = info.session_id;
    model = info.model;
    duration_ms = duration_ms;
    http_status = pos 0;
    endpoint = [];
    event_name = codes "codex.websocket_event:response.completed";
    terminal_type = [];
    service_name = [];
    service_version = [];
    error_message = [];
  }

  abbrev is_stored : Option ℤ → Bool
  is_stored none = false
  is_stored (some row) = true

  -- A duration without a row gets a row of its own, if it has a session and a model.
  unfoldable pub insert_duration_row : ℤ → SpanInfo → ℤ → Ingest S → Bool × Ingest S
  insert_duration_row ts info duration_ms st =
      if ltb_ℤ (pos 0) duration_ms && is_set info.session_id && is_set info.model
      then insert_codex
          (λ s.
            let (row, s') = sv.insert_codex_api_request (duration_only_row ts info duration_ms) s in
            (is_stored row, s'))
          st
      else (false, st)

  unfoldable pub duration_answer : ℤ → SpanInfo → ℤ → Option Bool → Ingest S → Bool × Ingest S
  duration_answer ts info duration_ms none st = (false, failing st)
  duration_answer ts info duration_ms (some true) st = (true, notify_codex st)
  duration_answer ts info duration_ms (some false) st = insert_duration_row ts info duration_ms st

  unfoldable pub handle_websocket_completed : ℤ → ℤ → SpanInfo → Ingest S → Bool × Ingest S
  handle_websocket_completed ts observed info st =
      let elapsed = millis_between info.start_nanos observed in
      let duration_ms = if ltb_ℤ elapsed (pos 0) then pos 0 else elapsed in
      let (updated, store) =
        sv.update_codex_request_duration info.row_id info.session_id info.model ts duration_ms
          st.store in
      duration_answer ts info duration_ms updated (record st { store = store })

  unfoldable pub websocket_for :
      ℤ → ℤ → Text → Option (Text × SpanInfo) → Ingest S → Bool × Ingest S
  websocket_for ts observed kind none st = (false, st)
  websocket_for ts observed kind (some (key, info)) st =
      if text_eq kind (codes "response.created")
      then (false, (run_counted (update_ttft ts observed info) st).1)
      else if text_eq kind (codes "response.completed")
      then handle_websocket_completed ts observed info st
      else (false, st)

  unfoldable pub handle_websocket_event : ℤ → Attrs → LogRecord F → Ingest S → Bool × Ingest S
  handle_websocket_event ts attrs lr st =
      websocket_for ts (observed_nanos ts lr) (event_kind_from_log ft lr attrs)
        (find_request ts attrs lr st.codex) st

  unfoldable pub turn_answer : ℤ → Text → Text → ℤ → Option Bool → Ingest S → Bool × Ingest S
  turn_answer ts conversation_id model ms none st = (false, failing st)
  turn_answer ts conversation_id model ms (some true) st = (true, st)
  turn_answer ts conversation_id model ms (some false) st = (
    true,
    record st { codex = stash_turn_ttft (sv.clock st.store) conversation_id model ts ms st.codex },
  )

  unfoldable pub handle_turn_ttft : ℤ → Attrs → Ingest S → Bool × Ingest S
  handle_turn_ttft ts attrs st =
      let conversation_id = attr attrs (codes "conversation.id") in
      let model = attr attrs (codes "model") in
      let ms = parse_attr_int attrs (codes "duration_ms") in
      let (applied, store) = sv.update_codex_turn_ttft conversation_id model ts ms st.store in
      turn_answer ts conversation_id model ms applied (record st { store = store })

  unfoldable pub handle_codex_case :
      CodexCase
      → ℤ
      → Text
      → Attrs
      → List (Text × AnyValue F)
      → LogRecord F
      → Ingest S
      → Bool × Ingest S
  handle_codex_case api_request ts name attrs resource lr st = handle_api_request ts attrs lr st
  handle_codex_case sse_event ts name attrs resource lr st =
      handle_sse_event ts attrs resource lr st
  handle_codex_case user_prompt ts name attrs resource lr st =
      insert_codex (sv.insert_codex_user_prompt (user_prompt_event ts attrs)) st
  handle_codex_case tool_decision ts name attrs resource lr st =
      insert_codex (sv.insert_codex_tool_decision (tool_decision_event ts attrs)) st
  handle_codex_case tool_result ts name attrs resource lr st =
      insert_codex (sv.insert_codex_tool_result (tool_result_event ts attrs)) st
  handle_codex_case websocket_request ts name attrs resource lr st =
      handle_websocket_request ts attrs lr st
  handle_codex_case websocket_event ts name attrs resource lr st =
      handle_websocket_event ts attrs lr st
  handle_codex_case turn_ttft ts name attrs resource lr st = handle_turn_ttft ts attrs st
  handle_codex_case other_codex ts name attrs resource lr st =
      run_counted (sv.insert_codex_raw_event name (unix_seconds ts) attrs) st
  handle_codex_case unknown ts name attrs resource lr st = (false, st)

  unfoldable pub dispatch_codex_log :
      LogRecord F → List (Text × AnyValue F) → Ingest S → Bool × Ingest S
  dispatch_codex_log lr resource st =
      let attrs = add_missing ft resource (extract_attrs ft lr.attributes) in
      let ts = codex_time (sv.clock st.store) lr in
      let name = event_name_from_codex_log ft lr attrs in
      handle_codex_case (codex_case name) ts name attrs resource lr st
