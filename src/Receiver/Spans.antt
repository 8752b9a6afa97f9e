-- ===== src/Receiver/Spans.antt =====
-- internal/receiver/traces.go: a span as it arrives, and the raw copy that is kept of it.
use cc_otel.Prelude.{ℕ, List}
use cc_otel.Prelude.Text.{Text, codes}
use cc_otel.Receiver.Attrs.{AnyValue, Attrs}

pub data SpanKind : Type 0 where
  unspecified internal server client producer consumer : SpanKind

unfoldable pub span_kind_string : SpanKind → Text
span_kind_string client = codes "client"
span_kind_string server = codes "server"
span_kind_string producer = codes "producer"
span_kind_string consumer = codes "consumer"
span_kind_string internal = codes "internal"
span_kind_string unspecified = codes "unspecified"

-- tracepb.Span; its id is in hexadecimal, and its times are uint64, 0 for an absent one.
pub record Span (F : Type 0) : Type 0 where
  pub name : Text
  pub kind : SpanKind
  pub start_time_unix_nano : ℕ
  pub end_time_unix_nano : ℕ
  pub attributes : List (Text × AnyValue F)
  pub span_id_hex : Text

pub record ScopeSpans (F : Type 0) : Type 0 where
  pub scope_name : Text
  pub scope_version : Text
  pub spans : List (Span F)

pub record ResourceSpans (F : Type 0) : Type 0 where
  pub resource : List (Text × AnyValue F)
  pub scope_spans : List (ScopeSpans F)

pub record RawSpan : Type 0 where
  pub span_name : Text
  pub span_kind : Text
  pub start_unix_nano : ℕ
  pub end_unix_nano : ℕ
  pub attributes : Attrs
  pub resource_attrs : Attrs
  pub scope_name : Text
  pub scope_version : Text
