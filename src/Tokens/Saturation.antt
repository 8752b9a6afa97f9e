-- ===== src/Tokens/Saturation.antt =====
-- The saturating operations are the exact ones, clamped to the range of int64.
use cc_otel.Prelude.{inl, inr, Bool-cases, false, ◌≡◌, if◌then◌else◌, arith}
use cc_otel.Prelude.Int.{
  ℤ, pos, ltb_ℤ, eqb_ℤ, ◌+ℤ◌, ◌-ℤ◌, ◌≤ℤ◌, +ℤ_parts, -ℤ_parts, eq_of_parts, int_laws,
}
use cc_otel.Tokens.{
  neg64, sat_add, sat_sub, uncached_input, max_int64, min_int64, InRange, clamp64, wrap64_fit,
}

-- For two int64 the result is the exact sum, clamped to the range of int64.
pub sat_add_lem : (a b : ℤ) → InRange a → InRange b → sat_add a b ≡ clamp64 (a +ℤ b)
unfolding sat_add clamp64
sat_add_lem a b ha hb = ground (
  arith,
  +ℤ_parts a b,
  -ℤ_parts max_int64 a,
  -ℤ_parts min_int64 a,
  wrap64_fit (max_int64 -ℤ a),
  wrap64_fit (min_int64 -ℤ a),
  wrap64_fit (a +ℤ b),
  eq_of_parts (a +ℤ b) max_int64,
)

neg_InRange : (b : ℤ) → InRange b → eqb_ℤ b min_int64 ≡ false → InRange (pos 0 -ℤ b)
neg_InRange b h e = ground (arith, -ℤ_parts (pos 0) b)

neg64_fit : (b : ℤ) → InRange b → eqb_ℤ b min_int64 ≡ false → neg64 b ≡ pos 0 -ℤ b
unfolding neg64
neg64_fit b h e = wrap64_fit (pos 0 -ℤ b) (neg_InRange b h e)

add_neg : (a b : ℤ) → a +ℤ (pos 0 -ℤ b) ≡ a -ℤ b
add_neg a b = omega int_laws

-- For two int64 the result is the exact difference, clamped to the range of int64; where the
-- subtrahend is the least int64 it is the greatest one, whatever the minuend.
pub sat_sub_lem :
    (a b : ℤ)
    → InRange a
    → InRange b
    → sat_sub a b ≡ (if eqb_ℤ b min_int64 then max_int64 else clamp64 (a -ℤ b))
unfolding sat_sub
sat_sub_lem a b ha hb = elim (Bool-cases (eqb_ℤ b min_int64)) [
  | inl e ↦ rw e
  | inr e ↦
      rw (e, neg64_fit b hb e, ← add_neg a b) (sat_add_lem a (pos 0 -ℤ b) ha (neg_InRange b hb e))
]

clamp64-InRange : (v : ℤ) → InRange (clamp64 v)
unfolding clamp64
clamp64-InRange v = ground arith

sat_sub-InRange : (a b : ℤ) → InRange a → InRange b → InRange (sat_sub a b)
sat_sub-InRange a b ha hb = ground (arith, sat_sub_lem a b, clamp64-InRange (a -ℤ b))

-- Whatever three int64 an exporter reports, the folded count is an int64 that is not negative.
pub uncached_input_bounds :
    (input cache_read cache_create : ℤ)
    → InRange input
    → InRange cache_read
    → InRange cache_create
    → let v = uncached_input input cache_read cache_create in (pos 0 ≤ℤ v) × (v ≤ℤ max_int64)
unfolding uncached_input
uncached_input_bounds i r c hi hr hc =
    ground (arith, sat_sub-InRange (sat_sub i r) c (sat_sub-InRange i r hi hr) hc)

-- For cache counts that are not negative, whatever the input figure, the folded count is the
-- exact remainder input - cache_read - cache_create, or 0 where that is negative: neither
-- saturation nor wrap-around shows in the result.
pub uncached_input_lem :
    (input cache_read cache_create : ℤ)
    → InRange input
    → InRange cache_read
    → InRange cache_create
    → pos 0 ≤ℤ cache_read
    → pos 0 ≤ℤ cache_create
    → uncached_input input cache_read cache_create ≡ (
        if ltb_ℤ (input -ℤ cache_read -ℤ cache_create) (pos 0)
        then pos 0
        else input -ℤ cache_read -ℤ cache_create)
unfolding uncached_input clamp64
uncached_input_lem i r c hi hr hc pr pc = ground (
  arith,
  sat_sub_lem i r,
  sat_sub_lem (sat_sub i r) c,
  sat_sub-InRange i r hi hr,
  -ℤ_parts i r,
  -ℤ_parts (i -ℤ r) c,
  -ℤ_parts (sat_sub i r) c,
  eq_of_parts (i -ℤ r -ℤ c) (sat_sub i r -ℤ c),
)
