-- ===== src/Receiver/AiSdk/Usage.antt =====
-- What becomes of a span's token counts.
use cc_otel.Prelude.{false, ◌≡◌, inl, inr, Bool-cases, ltb→lt, ◌∙◌, ap}
use cc_otel.Prelude.Int.{pos, ltb_ℤ, ◌≤ℤ◌, ◌+ℤ◌, ◌-ℤ◌, int_laws}
use cc_otel.Prelude.Text.{Text, codes, text_eq}
use cc_otel.Tokens.{InRange, max_int64, sub64, sub64_exact}
use cc_otel.Receiver.Attrs.{Attrs}
use cc_otel.Receiver.Attrs.Bounds.{IsNearest}
use cc_otel.Receiver.Event.{Event}
use cc_otel.Receiver.AiSdk.{SpanUsage, uncached_of}

-- For a provider that includes the cached tokens in its input nothing is lost and nothing counted
-- twice.
pub uncached_of_lem :
    (u : SpanUsage)
    → InRange u.input_total
    → pos 0 ≤ℤ u.cache_read
    → pos 0 ≤ℤ u.cache_write
    → u.cache_read +ℤ u.cache_write ≤ℤ u.input_total
    → uncached_of u +ℤ (u.cache_read +ℤ u.cache_write) ≡ u.input_total
unfolding uncached_of
uncached_of_lem u r h k le =
    let first = u.input_total -ℤ u.cache_read in
    let inner = sub64_exact u.input_total u.cache_read (omega int_laws) in
    let outer = sub64_exact first u.cache_write (omega int_laws) in
    let rest : sub64 (sub64 u.input_total u.cache_read) u.cache_write ≡ first -ℤ u.cache_write =
      ap (λ x. sub64 x u.cache_write) inner ∙ outer in
    rw (uncached_of, rest)
      (elim (Bool-cases (ltb_ℤ (first -ℤ u.cache_write) (pos 0))) [
        | inl e ↦ absurd (omega (int_laws, ltb→lt _ _ e))
        | inr e ↦ rw e (omega int_laws)
      ])

-- A key of a count, which is none of the three optional ones.
abbrev IsCountKey : Text → Type 0
IsCountKey key =
    (text_eq (codes "session.id") key ≡ false)
    × (text_eq (codes "user.id") key ≡ false)
    × (text_eq (codes "prompt.id") key ≡ false)

-- The counts of a span fit in an int64, as do its cached tokens together, and of the input and the
-- cached tokens none is negative.
pub record UsageInRange (u : SpanUsage) : Type 0 where
  pub input : (pos 0 ≤ℤ u.input_total) × (u.input_total ≤ℤ max_int64)
  pub output : InRange u.output
  pub cache_read : pos 0 ≤ℤ u.cache_read
  pub cache_write : pos 0 ≤ℤ u.cache_write
  pub cached : u.cache_read +ℤ u.cache_write ≤ℤ max_int64

-- An event has the counts of a span, each the nearest in [-2^40, 2^40]: the input without the
-- cached tokens where it includes them, and the input as it is where there are more cached tokens.
pub record HasCounts {F : Type 0} (u : SpanUsage) (e : Event F) : Type 0 where
  pub input_inclusive :
      u.cache_read +ℤ u.cache_write ≤ℤ u.input_total
      → IsNearest (u.input_total -ℤ (u.cache_read +ℤ u.cache_write)) e.input_tokens
  pub input_exclusive :
      u.input_total +ℤ pos 1 ≤ℤ u.cache_read +ℤ u.cache_write
      → IsNearest u.input_total e.input_tokens
  pub output : IsNearest u.output e.output_tokens
  pub cache_read : IsNearest u.cache_read e.cache_read_tokens
  pub cache_write : IsNearest u.cache_write e.cache_creation_tokens
