-- ===== src/Receiver/Dsh/Tests.antt =====
-- The calls of one step, and two request identifiers.
use cc_otel.Prelude.{ℕ, none, List, [], ◌∷◌, ◌≡◌, refl, arith}
use cc_otel.Prelude.Int.{pos}
use cc_otel.Prelude.Text.{codes}
use cc_otel.Receiver.Dsh.{StepKey}
use cc_otel.Receiver.Dsh.Refinement.{
  StepCall, started, streamed, closed, run_steps, run_timings, tracker-Refines,
}
use cc_otel.Receiver.Dsh.Identity.{request_id_injective}

abbrev step : StepKey
step = record { session_id = codes "s"; turn = pos 1; step = pos 2 }

abbrev calls : List StepCall
calls = started (pos 5) step (pos 7) ∷ streamed (pos 6) step (pos 9) ∷ closed step ∷ []

tracker-Refines_example : run_steps calls [] ≡ run_timings calls (λ j. none)
tracker-Refines_example = tracker-Refines calls

abbrev seven : ℕ
seven = 7

request_id_injective_example : (codes "a-b" ≡ codes "a-b") × (seven ≡ seven)
request_id_injective_example =
    request_id_injective (codes "3") (codes "a-b") (codes "a-b") seven seven (omega arith)
      (omega arith) refl
