-- ===== src/Tokens.antt =====
-- internal/db/tokens.go: the saturating 64-bit arithmetic that folds cache tokens out of a
-- reported input figure. An int64 is an integer in range; its operations wrap around.
mod Int64
pub mod Saturation
mod Tests
use cc_otel.Prelude.{◌&&◌, if◌then◌else◌}
use cc_otel.Prelude.Int.{ℤ, pos, ltb_ℤ, eqb_ℤ}
unfoldable pub use Int64.{add64, sub64, neg64, mul64, clamp64, wrap64}
pub use Int64.{max_int64, min_int64, InRange, wrap64_fit, sub64_exact, mul64_exact}

unfoldable pub sat_add : ℤ → ℤ → ℤ
unfolding add64 sub64
sat_add a b =
    if ltb_ℤ (pos 0) a && ltb_ℤ (sub64 max_int64 a) b
    then max_int64
    else if ltb_ℤ a (pos 0) && ltb_ℤ b (sub64 min_int64 a)
    then min_int64
    else add64 a b

unfoldable pub sat_sub : ℤ → ℤ → ℤ
unfolding sat_add neg64
sat_sub a b = if eqb_ℤ b min_int64 then max_int64 else sat_add a (neg64 b)

unfoldable pub uncached_input : ℤ → ℤ → ℤ → ℤ
unfolding sat_sub
uncached_input input cache_read cache_create =
    let v = sat_sub (sat_sub input cache_read) cache_create in if ltb_ℤ v (pos 0) then pos 0 else v
