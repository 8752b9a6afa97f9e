-- ===== src/Receiver/Codex/Tracker/Starts.antt =====
-- The start of a request, computed back from when it was observed.
use cc_otel.Prelude.{ℕ, ◌-◌, ◌≤◌, ◌∙◌, ◌≡◌, arith, ◌*◌, ◌/◌}
use cc_otel.Prelude.Int.{ℤ, pos, negsuc, ◌≤ℤ◌, ◌*ℤ◌, ◌-ℤ◌}
use cc_otel.Tokens.{InRange, sub64, mul64, sub64_exact, mul64_exact}
use cc_otel.Receiver.Codex.Tracker.{codex_request_start_nanos}

start_exact :
    (n m : ℕ)
    → InRange (pos n)
    → m ≤ n / 1000000
    → sub64 (pos n) (mul64 (pos m) (pos 1000000)) ≡ pos (n - m * 1000000)
unfolding ◌-ℤ◌ ◌*ℤ◌
start_exact n m r h =
    rw (mul64_exact (pos m) (pos 1000000) (grind arith))
      (sub64_exact (pos n) (pos m *ℤ pos 1000000) (grind arith) ∙ grind arith)

-- The start lies between the epoch and the observation.
pub start_bounds :
    (observed reported : ℤ)
    → InRange observed
    → pos 0 ≤ℤ observed
    → (pos 0 ≤ℤ codex_request_start_nanos observed reported)
      × (codex_request_start_nanos observed reported ≤ℤ observed)
unfolding codex_request_start_nanos
start_bounds (pos n) (pos m) r h = ground (arith, start_exact n m r)
start_bounds (pos n) (negsuc m) r h = ground arith
start_bounds (negsuc n) reported r h = ground arith
