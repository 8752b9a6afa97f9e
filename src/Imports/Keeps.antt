-- ===== src/Imports/Keeps.antt =====
-- That each operation keeps a manager valid.
use cc_otel.Prelude.{
  ℕ, ◌≡◌, refl, ◌∙◌, Bool, true, false, not, ◌||◌, ◌&&◌, Option, none, some, List, [], Bool-cases,
  inl, inr, arith,
}
use cc_otel.Prelude.Int.{ℤ}
use cc_otel.Prelude.Text.{Text, text_eq}
use cc_otel.Imports.Job.{
  Job, Progress, is_inspecting, is_importing, is_ready, is_failed, is_uploading, is_busy,
}
use cc_otel.Imports.Manager.{
  Manager, Task, StagedFile, cancel_aborted, reserve_upload, complete_upload, report_progress,
  start, abort_upload, sweep_job, close, without_job, has_active_job, reserved_job, completed_job,
  started_job, is_expired,
}
use cc_otel.Imports.Tasks.{
  if-IsValid, none-alive, alive-others, no_task-tasks_of, doom-ending, cancel-ending,
  cancelled-Fits, inactive-own, starts-Fits, stays-Fits, find-own, same_id,
}
use cc_otel.Imports.Traces.{has_task, all_ending, own, is_settled, JobFits, Fits, IsValid}

abbrev pub manager : Option Job → List Task → Bool → Text → List StagedFile → Manager
manager o ts closed dir files = record {
  job = o;
  running = ts;
  closed = closed;
  dir = dir;
  files = files;
}

module _ (ts : List Task) (closed : Bool) (dir : Text) (files : List StagedFile) where
  pub complete-Fits :
      (now : ℕ) (id : Text) (size : ℤ) (sha256 : Text) (o : Option Job)
      → Fits o ts closed
      → IsValid (complete_upload now id size sha256 (manager o ts closed dir files)).0
  unfolding complete_upload IsValid Fits completed_job is_settled
  complete-Fits now id size sha256 none v = v
  complete-Fits now id size sha256 (some j) v =
      if-IsValid (not (text_eq j.job_id id)) _ _ (λ _. v)
        (λ h.
          if-IsValid (not (is_inspecting j.state) || not (is_uploading j.phase)) _ _ (λ _. v)
            (λ g. rw (same_id j.job_id id (ground arith)) (
              starts-Fits j (completed_job now size sha256 j) false closed ts refl refl refl
                (ground arith) (ground arith) (ground (arith, v.settled)) v)))

  pub report-Fits :
      (now : ℕ) (id : Text) (p : Progress) (o : Option Job)
      → is_uploading p.phase ≡ false
      → has_task id ts ≡ true
      → Fits o ts closed
      → IsValid (report_progress now id p (manager o ts closed dir files))
  unfolding report_progress IsValid Fits is_settled
  report-Fits now id p none u h v = v
  report-Fits now id p (some j) u h v = elim (Bool-cases (text_eq j.job_id id)) [
    | inl e ↦ rw e (
        stays-Fits j (record j { progress = p; phase = p.phase; updated_at = now }) closed ts refl
          refl refl refl (ground (arith, v.settled, find-own j ts closed v, same_id j.job_id id e))
          v)
    | inr e ↦ rw e v
  ]

  pub start-Fits :
      (now : ℕ) (id : Text) (o : Option Job)
      → Fits o ts closed
      → IsValid (start now id (manager o ts closed dir files)).0
  unfolding start IsValid Fits started_job is_settled
  start-Fits now id none v = v
  start-Fits now id (some j) v =
      if-IsValid (not (text_eq j.job_id id)) _ _ (λ _. v)
        (λ h.
          if-IsValid (not (is_ready j.state) && not (is_failed j.state && j.retryable)) _ _ (λ _. v)
            (λ g. rw (same_id j.job_id id (ground arith)) (
              starts-Fits j (started_job now j) true closed ts refl refl refl refl (ground arith)
                (ground (arith, v.settled)) v)))

  pub abort-Fits :
      (id : Text) (o : Option Job)
      → Fits o ts closed
      → IsValid (abort_upload id (manager o ts closed dir files)).0
  unfolding abort_upload IsValid Fits is_settled
  abort-Fits id none v = v
  abort-Fits id (some j) v =
      if-IsValid (not (text_eq j.job_id id)) _ _ (λ _. v)
        (λ h.
          if-IsValid (is_importing j.state) _ _ (λ _. v)
            (λ g. elim (Bool-cases j.cancel) [
              | inl e ↦ rw (e, same_id j.job_id id (ground arith)) (doom-ending j.job_id ts v.stale)
              | inr e ↦
                  rw e
                    (none-alive j.job_id ts (v.owned ∙ inactive-own j (cc (e, v.cancels))) v.stale)
            ]))

  pub cancels-Fits :
      (id : Text) (o : Option Job)
      → Fits o ts closed
      → IsValid (cancel_aborted id (manager o ts closed dir files))
  unfolding cancel_aborted IsValid Fits
  cancels-Fits id none v = cancel-ending id ts v
  cancels-Fits id (some j) v = cancelled-Fits id j ts closed v

  pub sweep-Fits :
      (now : ℕ) (o : Option Job)
      → Fits o ts closed
      → IsValid (sweep_job now (manager o ts closed dir files))
  unfolding sweep_job IsValid Fits is_expired is_settled
  sweep-Fits now none v = v
  sweep-Fits now (some j) v = elim (Bool-cases (not j.active && is_expired now j)) [
    | inl e ↦ rw e (none-alive j.job_id ts (v.owned ∙ inactive-own j (ground arith)) v.stale)
    | inr e ↦ rw e v
  ]

  -- A job that is over has no task.
  over-dead : (j : Job) → is_busy j.state ≡ false → JobFits j ts closed → all_ending ts ≡ true
  unfolding is_settled
  over-dead j g v =
      none-alive j.job_id ts (v.owned ∙ inactive-own j (ground (arith, v.settled))) v.stale

  reserved-Fits :
      (now : ℕ) (id path name : Text)
      → has_task id ts ≡ false
      → all_ending ts ≡ true
      → JobFits (reserved_job now id path name) ts closed
  unfolding reserved_job own is_settled
  reserved-Fits now id path name h d = record {
    owned = no_task-tasks_of id ts h;
    stale = alive-others id ts d;
    cancels = refl;
    settled = refl;
  }

  pub reserve-Fits :
      (now : ℕ) (id name : Text) (o : Option Job)
      → has_task id ts ≡ false
      → Fits o ts closed
      → IsValid (reserve_upload now (some id) name (manager o ts closed dir files)).0
  unfolding reserve_upload IsValid Fits has_active_job without_job
  reserve-Fits now id name none h v = reserved-Fits now id _ name h v
  reserve-Fits now id name (some j) h v =
      if-IsValid (is_busy j.state) _ _ (λ _. v)
        (λ g. reserved-Fits now id _ name h (over-dead j g v))

  pub no_random-Fits :
      (now : ℕ) (o : Option Job)
      → Fits o ts closed
      → IsValid (reserve_upload now none [] (manager o ts closed dir files)).0
  unfolding reserve_upload IsValid Fits has_active_job without_job
  no_random-Fits now none v = v
  no_random-Fits now (some j) v = if-IsValid (is_busy j.state) _ _ (λ _. v) (λ g. over-dead j g v)

  pub close-Fits :
      (o : Option Job) → Fits o ts closed → IsValid (close (manager o ts closed dir files))
  unfolding close IsValid Fits is_settled
  close-Fits none v = v
  close-Fits (some j) v = record {
    owned = v.owned;
    stale = v.stale;
    cancels = v.cancels;
    settled = ground (arith, v.settled);
  }
