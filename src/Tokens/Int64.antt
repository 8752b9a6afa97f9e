-- ===== src/Tokens/Int64.antt =====
-- Go's int64: an integer in range, whose sum, difference and product wrap around.
use cc_otel.Prelude.{ℕ, ◌-◌, ◌%◌, ◌≡◌, ltb, if◌then◌else◌, arith}
use cc_otel.Prelude.Int.{ℤ, pos, negsuc, ltb_ℤ, ◌+ℤ◌, ◌-ℤ◌, ◌*ℤ◌, ◌≤ℤ◌}

-- math.MaxInt64 and math.MinInt64
abbrev pub max_int64 : ℤ
max_int64 = pos 9223372036854775807

abbrev pub min_int64 : ℤ
min_int64 = negsuc 9223372036854775807

-- Two's complement at 64 bits, and the integer that the bits stand for.
bits64 : ℤ → ℕ
bits64 (pos n) = n % 18446744073709551616
bits64 (negsuc n) = 18446744073709551615 - n % 18446744073709551616

unfoldable pub wrap64 : ℤ → ℤ
unfolding bits64
wrap64 v =
    let b = bits64 v in
    if ltb b 9223372036854775808 then pos b else negsuc (18446744073709551615 - b)

-- a + b, a - b, -b and a * b on int64
unfoldable pub add64 : ℤ → ℤ → ℤ
add64 a b = wrap64 (a +ℤ b)

unfoldable pub sub64 : ℤ → ℤ → ℤ
sub64 a b = wrap64 (a -ℤ b)

unfoldable pub neg64 : ℤ → ℤ
neg64 b = wrap64 (pos 0 -ℤ b)

unfoldable pub mul64 : ℤ → ℤ → ℤ
mul64 a b = wrap64 (a *ℤ b)

abbrev pub InRange : ℤ → Type 0
InRange v = (min_int64 ≤ℤ v) × (v ≤ℤ max_int64)

-- The nearest int64.
unfoldable pub clamp64 : ℤ → ℤ
clamp64 v = if ltb_ℤ max_int64 v then max_int64 else if ltb_ℤ v min_int64 then min_int64 else v

pub wrap64_fit : (v : ℤ) → InRange v → wrap64 v ≡ v
unfolding wrap64
wrap64_fit (pos n) h = ground arith
wrap64_fit (negsuc n) h = ground arith

-- Where no bit is lost the operations are those of the integers.
pub sub64_exact : (a b : ℤ) → InRange (a -ℤ b) → sub64 a b ≡ a -ℤ b
unfolding sub64
sub64_exact a b h = wrap64_fit (a -ℤ b) h

pub mul64_exact : (a b : ℤ) → InRange (a *ℤ b) → mul64 a b ≡ a *ℤ b
unfolding mul64
mul64_exact a b h = wrap64_fit (a *ℤ b) h
