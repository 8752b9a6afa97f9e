-- ===== src/Receiver/Services.antt =====
-- What the receiver calls: the repository's statements, the price registry, the model names of the
-- configuration, the broker, the clock, and the decoder of JSON bodies; and the state that the
-- handlers of one export pass on. A statement returns false, or none, when the database refuses it.
use cc_otel.Prelude.{ℕ, ◌+◌, ◌%◌, Bool, Option, none, some, if◌then◌else◌}
use cc_otel.Prelude.Int.{ℤ}
use cc_otel.Prelude.Text.{Text}
use cc_otel.Pricing.Name.{is_upstream_authoritative}
use cc_otel.Receiver.Attrs.{AnyValue, Attrs}
use cc_otel.Receiver.Event.{Event, ApiRequest}
use cc_otel.Receiver.Spans.{RawSpan}
use cc_otel.Receiver.Dsh.{Steps, AssistantMessage}
use cc_otel.Receiver.Codex.Tracker.{CodexTracker}
use cc_otel.Receiver.Codex.Rows.{CodexApiRequest, CodexTokenUpdate, CodexEvent}

-- The answer of InsertRequest: a row whose request_id is known is ignored.
pub data InsertResult : Type 0 where
  inserted ignored refused : InsertResult

-- pricer.Calc: the model, then input, output, cache-read and cache-creation tokens.
abbrev pub Calc : Type 0 → Type 0 → Type 0
Calc F S = Text → ℤ → ℤ → ℤ → ℤ → S → F × S

pub record Services (F S : Type 0) : Type 0 where
  pub clock : S → ℤ
  pub insert_request : ApiRequest F → S → InsertResult × S
  pub insert_user_prompt : Event F → S → Bool × S
  pub insert_tool_decision : Event F → S → Bool × S
  pub insert_tool_result : Event F → S → Bool × S
  pub insert_api_error : Event F → S → Bool × S
  pub insert_event : Event F → S → Bool × S
  pub insert_codex_api_request : CodexApiRequest → S → Option ℤ × S
  pub update_codex_api_request_tokens : CodexTokenUpdate F → S → Bool × S
  pub insert_codex_user_prompt : CodexEvent → S → Bool × S
  pub insert_codex_tool_decision : CodexEvent → S → Bool × S
  pub insert_codex_tool_result : CodexEvent → S → Bool × S
  pub update_codex_request_duration : ℤ → Text → Text → ℤ → ℤ → S → Option Bool × S
  pub update_codex_request_ttft : ℤ → Text → Text → ℤ → ℤ → S → Bool × S
  pub update_codex_turn_ttft : Text → Text → ℤ → ℤ → S → Option Bool × S
  pub insert_codex_raw_event : Text → ℤ → Attrs → S → Bool × S
  pub backfill_ttft_by_request_id : Text → ℤ → S → Option Bool × S
  pub backfill_ttft_nearest : Text → Text → Text → ℤ → ℤ → S → Option Bool × S
  pub backfill_ttft_nearest_loose : Text → Text → ℤ → ℤ → ℤ → S → Option Bool × S
  pub enqueue_pending_ttft_span : Text → Text → Text → ℤ → ℤ → RawSpan → S → Bool × S
  pub pricer : Option (Calc F S)
  pub resolve_actual_model : Text → Text
  pub notify : S → S
  pub notify_source : Text → S → S
  pub decode_step_ref : AnyValue F → Option (ℤ × ℤ)  -- the turn and the step
  pub decode_message : AnyValue F → Option AssistantMessage

-- ingestStats; its counters are uint32.
pub record IngestStats : Type 0 where
  pub total : ℕ
  pub failed : ℕ

abbrev pub no_stats : IngestStats
no_stats = record { total = 0; failed = 0 }

unfoldable pub record_one : IngestStats → IngestStats
record_one s = record s { total = (s.total + 1) % 4294967296 }

unfoldable pub fail_one : IngestStats → IngestStats
fail_one s = record s { failed = (s.failed + 1) % 4294967296 }

-- The store behind the services, the counters of the export, and the two trackers.
pub record Ingest (S : Type 0) : Type 0 where
  pub store : S
  pub stats : IngestStats
  pub codex : CodexTracker
  pub dsh : Steps

module _ {S : Type 0} where
  unfoldable pub recorded : Ingest S → Ingest S
  recorded st = record st { stats = record_one st.stats }

  unfoldable pub failing : Ingest S → Ingest S
  failing st = record st { stats = fail_one st.stats }

  -- A statement whose refusal is counted.
  unfoldable pub run_counted : (S → Bool × S) → Ingest S → Bool × Ingest S
  unfolding failing
  run_counted op st =
      let (ok, store) = op st.store in
      let after = record st { store = store } in (ok, if ok then after else failing after)

module _ {F S : Type 0} (sv : Services F S) where
  -- The price of a record that its own client does not report with authority.
  unfoldable pub recomputed : Text → Text → ℤ → ℤ → ℤ → ℤ → S → Option F × S
  recomputed service_name model input output cache_read cache_create s = elim sv.pricer [
    | none ↦ (none, s)
    | some calc ↦
        if is_upstream_authoritative service_name model
        then (none, s)
        else let (c, s') = calc model input output cache_read cache_create s in (some c, s')
  ]
