-- ===== src/Imports/Slot.antt =====
-- What becomes of the job that keeps the one slot: the states it may pass through, and that it
-- leaves.
use cc_otel.Prelude.{ℕ, ◌≡◌, true, false, Option, some, List, Option-cases, inl, inr, arith, subst}
use cc_otel.Prelude.Text.{Text, codes, text_eq, text_eq_self}
use cc_otel.Prelude.Table.{lookup}
use cc_otel.Imports.Job.{
  Job, refused, import_busy, invalid_job_state, import_in_progress, is_importing,
}
use cc_otel.Imports.Errors.{
  EngineError, merge_error, other_error, messages, message_of, public_import_error,
}
use cc_otel.Imports.Manager.{
  Manager, reserve_upload, start, abort_upload, sweep_job, has_active_job,
}
use cc_otel.Imports.Traces.{Step, run, new_manager, IsValid, Fits, JobFits, is_settled}
use cc_otel.Imports.Runs.{reached-IsValid}

pub job-Fits : (m : Manager) (j : Job) → m.job ≡ some j → IsValid m → JobFits j m.running m.closed
unfolding IsValid Fits
job-Fits m j e v = subst (λ o. Fits o m.running m.closed) e v

-- A running import is left alone: until it ends, no upload takes its place, it is not started
-- again, it is not aborted and no sweep removes it.
pub import_undisturbed :
    (dir : Text) (ss : List Step) (m : Manager) (j : Job) (now : ℕ) (random : Option Text)
    (name : Text)
    → run ss (new_manager dir) ≡ some m
    → m.closed ≡ false
    → m.job ≡ some j
    → is_importing j.state ≡ true
    → (reserve_upload now random name m ≡ (m, refused import_busy))
      × (start now j.job_id m ≡ (m, refused invalid_job_state))
      × (abort_upload j.job_id m ≡ (m, refused import_in_progress))
      × (sweep_job now m ≡ m)
unfolding reserve_upload start abort_upload sweep_job has_active_job is_settled
import_undisturbed dir ss m j now random name h c e b =
    let v = job-Fits m j e (reached-IsValid dir ss m h) in
    let self = text_eq_self j.job_id in
    (
      ground (arith, v.settled, self),
      ground (arith, v.settled, self),
      ground (arith, v.settled, self),
      ground (arith, v.settled, self),
    )

listed : (code : Text) → (k : Text) × (lookup k messages ≡ some (message_of code))
unfolding message_of lookup text_eq
listed code = elim (Option-cases (lookup code messages)) [
  | inl e ↦ (codes "import_failed", rw e)
  | inr (x, e) ↦ (code, rw e)
]

-- Whatever went wrong, the message shown is one of the fixed list, and never the engine's.
pub public_messages :
    (e : EngineError) (fallback : Text)
    → (code : Text) × (lookup code messages ≡ some (public_import_error e fallback).message)
unfolding public_import_error message_of lookup
public_messages (merge_error code table row) fallback = listed code
public_messages other_error fallback = listed fallback
