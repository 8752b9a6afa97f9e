-- ===== src/Receiver/Attrs/Bounds.antt =====
-- What an exporter can make a handler read as an integer.
use cc_otel.Prelude.{◌≡◌, refl, arith, subst, sym}
use cc_otel.Prelude.Int.{ℤ, pos, negsuc, ◌≤ℤ◌}
use cc_otel.Prelude.Text.{Text}
use cc_otel.Tokens.{InRange}
use cc_otel.Receiver.Decimal.{format_int, parse_int}
use cc_otel.Receiver.Decimal.RoundTrip.{parse_int-format_int}
use cc_otel.Receiver.Attrs.{Attrs, attr, parse_attr_int, clamp_token_mag}

-- The integers that are stored lie in [-2^40, 2^40].
abbrev pub WithinCap : ℤ → Type 0
WithinCap v = (negsuc 1099511627775 ≤ℤ v) × (v ≤ℤ pos 1099511627776)

pub clamp_token_mag-WithinCap : (v : ℤ) → WithinCap (clamp_token_mag v)
unfolding clamp_token_mag
clamp_token_mag-WithinCap v = ground arith

pub clamp_token_mag_fit : (v : ℤ) → WithinCap v → clamp_token_mag v ≡ v
unfolding clamp_token_mag
clamp_token_mag_fit v h = ground arith

-- Whatever text an exporter sends, the integer read from it lies in [-2^40, 2^40].
pub parse_attr_int-WithinCap : (attrs : Attrs) (key : Text) → WithinCap (parse_attr_int attrs key)
unfolding parse_attr_int
parse_attr_int-WithinCap attrs key =
    ground (arith, clamp_token_mag-WithinCap (parse_int (attr attrs key)).value)

pub parse_attr_int-format_int :
    (attrs : Attrs) (key : Text) (v : ℤ)
    → InRange v
    → attr attrs key ≡ format_int v
    → parse_attr_int attrs key ≡ clamp_token_mag v
unfolding parse_attr_int
parse_attr_int-format_int attrs key v r e = rw (e, parse_int-format_int v r) refl

-- `x` is the number of [-2^40, 2^40] that is nearest to `v`.
pub record IsNearest (v x : ℤ) : Type 0 where
  pub inside : WithinCap v → x ≡ v
  pub above : pos 1099511627776 ≤ℤ v → x ≡ pos 1099511627776
  pub below : v ≤ℤ negsuc 1099511627775 → x ≡ negsuc 1099511627775

pub clamp-IsNearest : (v : ℤ) → IsNearest v (clamp_token_mag v)
unfolding clamp_token_mag
clamp-IsNearest v = record {
  inside = clamp_token_mag_fit v;
  above = λ h. ground arith;
  below = λ h. ground arith;
}

-- An attribute that is the decimal text of an int64 is read as that integer where it lies in
-- [-2^40, 2^40], as 2^40 where it is greater and as -2^40 where it is less.
pub parse_attr_int-IsNearest :
    (attrs : Attrs) (key : Text) (v : ℤ)
    → InRange v
    → attr attrs key ≡ format_int v
    → IsNearest v (parse_attr_int attrs key)
parse_attr_int-IsNearest attrs key v r e =
    subst (IsNearest v) (sym (parse_attr_int-format_int attrs key v r e)) (clamp-IsNearest v)
