-- ===== src/Tokens/Tests.antt =====
-- The token arithmetic at concrete figures, hostile ones among them.
use cc_otel.Prelude.{◌≡◌, refl, arith, if◌then◌else◌}
use cc_otel.Prelude.Int.{pos, ltb_ℤ, ◌+ℤ◌, ◌-ℤ◌}
use cc_otel.Tokens.{uncached_input, max_int64, wrap64}
use cc_otel.Tokens.Saturation.{uncached_input_lem}

folds_caches : uncached_input (pos 1200) (pos 900) (pos 100) ≡ pos 200
unfolding uncached_input wrap64 ◌-ℤ◌ ◌+ℤ◌
folds_caches = refl

hostile_caches : uncached_input (pos 1) max_int64 max_int64 ≡ pos 0
unfolding uncached_input wrap64 ◌-ℤ◌ ◌+ℤ◌
hostile_caches = refl

uncached_input_lem_example : uncached_input (pos 1200) (pos 900) (pos 100) ≡ (
    if ltb_ℤ (pos 1200 -ℤ pos 900 -ℤ pos 100) (pos 0)
    then pos 0
    else pos 1200 -ℤ pos 900 -ℤ pos 100)
uncached_input_lem_example =
    uncached_input_lem (pos 1200) (pos 900) (pos 100) (omega arith, omega arith)
      (omega arith, omega arith) (omega arith, omega arith) (omega arith) (omega arith)
