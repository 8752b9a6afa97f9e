-- ===== src/Receiver/Event/Bounds.antt =====
-- What a hostile exporter cannot make the receiver store.
use cc_otel.Prelude.{
  ℕ, Option, none, some, List, ◌≡◌, arith, if◌then◌else◌, inl, inr, Bool-cases, ◌/◌, ◌&&◌, ◌-◌, ◌≤◌,
  subst,
}
use mathlib.Core.Option.{some-injective}
use cc_otel.Prelude.Int.{ℤ, pos, negsuc, ltb_ℤ, ◌≤ℤ◌, ◌+ℤ◌, ◌-ℤ◌, int_laws}
use cc_otel.Prelude.Text.{Text, codes}
use cc_otel.Tokens.{InRange, sub64_exact}
use cc_otel.Receiver.Attrs.{FloatText, AnyValue, Attrs, add_missing, extract_attrs}
use cc_otel.Receiver.Attrs.Bounds.{WithinCap, parse_attr_int-WithinCap, clamp_token_mag-WithinCap}
use cc_otel.Receiver.Event.{LogRecord, Event, parse_event, event_time, five_minutes}
use cc_otel.Receiver.Dsh.{
  StepTiming, Usage, AssistantMessage, dsh_event, dsh_row, dsh_nanos, dsh_record_time,
  dsh_api_request, duration_of, ttft_of, millis_between,
}

-- The counters that sums are formed of, and the time.
pub record EventFits {F : Type 0} (now : ℤ) (e : Event F) : Type 0 where
  pub not_ahead : e.timestamp ≤ℤ now +ℤ five_minutes
  pub input : WithinCap e.input_tokens
  pub output : WithinCap e.output_tokens
  pub cache_read : WithinCap e.cache_read_tokens
  pub cache_creation : WithinCap e.cache_creation_tokens

guarded : (now ts : ℤ) → (if ltb_ℤ (now +ℤ five_minutes) ts then now else ts) ≤ℤ now +ℤ five_minutes
guarded now ts = elim (Bool-cases (ltb_ℤ (now +ℤ five_minutes) ts)) [
  | inl e ↦ rw e (omega int_laws)
  | inr e ↦ rw e (ground (arith, e))
]

-- Whatever a record says, its event is at most five minutes ahead of the clock and each of its
-- token counts lies in [-2^40, 2^40].
pub parse_event-EventFits :
    {F : Type 0} (ft : FloatText F) (now : ℤ) (lr : LogRecord F)
    (resource : List (Text × AnyValue F))
    → EventFits now (parse_event ft now lr resource)
unfolding parse_event event_time
parse_event-EventFits ft now lr resource =
    let attrs = add_missing ft resource (extract_attrs ft lr.attributes) in
    record {
      not_ahead = guarded now _;
      input = parse_attr_int-WithinCap attrs (codes "input_tokens");
      output = parse_attr_int-WithinCap attrs (codes "output_tokens");
      cache_read = parse_attr_int-WithinCap attrs (codes "cache_read_tokens");
      cache_creation = parse_attr_int-WithinCap attrs (codes "cache_creation_tokens");
    }

dsh_event-EventFits :
    {F : Type 0} (ft : FloatText F) (now : ℤ) (lr : LogRecord F) (attrs : Attrs)
    (timing : StepTiming) (model : Text) (usage : Usage)
    → EventFits now (dsh_event ft (dsh_nanos now lr) attrs timing model usage)
unfolding dsh_event dsh_nanos
dsh_event-EventFits ft now lr attrs timing model usage = record {
  not_ahead = guarded now (dsh_record_time now lr);
  input = clamp_token_mag-WithinCap usage.input_tokens;
  output = clamp_token_mag-WithinCap usage.output_tokens;
  cache_read = clamp_token_mag-WithinCap usage.cache_read_tokens;
  cache_creation = clamp_token_mag-WithinCap usage.cache_write_tokens;
}

dsh_row-EventFits :
    {F : Type 0} (ft : FloatText F) (now : ℤ) (lr : LogRecord F) (attrs : Attrs)
    (timing : StepTiming) (model : Text) (usage : Option Usage) (e : Event F)
    → dsh_row ft (dsh_nanos now lr) attrs timing model usage ≡ some e
    → EventFits now e
unfolding dsh_row
dsh_row-EventFits ft now lr attrs timing model none e h = cc
dsh_row-EventFits ft now lr attrs timing model (some usage) e h =
    subst (EventFits now) (some-injective _ _ h)
      (dsh_event-EventFits ft now lr attrs timing model usage)

-- A row of the ledger, whatever the body of its record says, is at most five minutes ahead of the
-- clock, and each of its token counts lies in [-2^40, 2^40].
pub dsh_api_request-EventFits :
    {F : Type 0} (ft : FloatText F) (now : ℤ) (lr : LogRecord F) (attrs : Attrs)
    (timing : StepTiming) (body : AssistantMessage) (e : Event F)
    → dsh_api_request ft now lr attrs timing body ≡ some e
    → EventFits now e
unfolding dsh_api_request
dsh_api_request-EventFits ft now lr attrs timing body e h =
    dsh_row-EventFits ft now lr attrs timing body.model body.usage e h

millis_ordered :
    (a b : ℕ) → a ≤ b → InRange (pos b) → millis_between (pos a) (pos b) ≡ pos ((b - a) / 1000000)
unfolding millis_between ◌-ℤ◌
millis_ordered a b h r =
    rw (millis_between, sub64_exact (pos b) (pos a) (ground arith)) (ground arith)

-- A step's duration and time to first token are never negative.
pub timing_nonneg :
    (timing : StepTiming) (nanos : ℤ)
    → InRange nanos
    → InRange timing.first_token_nanos
    → (pos 0 ≤ℤ duration_of timing nanos) × (pos 0 ≤ℤ ttft_of timing)
unfolding duration_of ttft_of
timing_nonneg timing nanos r s =
    (nonneg timing.start_nanos nanos r, nonneg timing.start_nanos timing.first_token_nanos s)
  where
    nonneg :
        (start end : ℤ)
        → InRange end
        → pos 0
          ≤ℤ (if ltb_ℤ (pos 0) start && ltb_ℤ start end then millis_between start end else pos 0)
    nonneg (pos a) (pos b) q = ground (arith, millis_ordered a b)
    nonneg (pos a) (negsuc b) q = ground arith
    nonneg (negsuc a) end q = ground arith
