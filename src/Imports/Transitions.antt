-- ===== src/Imports/Transitions.antt =====
-- The states that a job passes through, step by step.
use mathlib.Core.Option.{some-injective}
use cc_otel.Prelude.{
  ℕ, ◌≡◌, refl, Bool, true, false, not, ◌||◌, ◌&&◌, Option, none, some, List, [], arith, ◌∙◌, subst,
  sym, ap,
}
use cc_otel.Prelude.Text.{Text, text_eq}
use cc_otel.Imports.Job.{
  Job, MergeResult, ImportState, inspecting, ready, importing, succeeded, failed, is_importing,
  is_inspecting, is_ready, is_failed,
}
use cc_otel.Imports.Manager.{
  Manager, Task, reserve_upload, complete_upload, start, abort_upload, sweep_job, report_progress,
  has_active_job, without_job, started_job, completed_job, stage_file, cancel_aborted, end_abort,
  close,
}
use cc_otel.Imports.Finish.{
  find_task, end_inspection, end_merge, inspected_job, merged_job, idle_job, Inspected, Returned,
}
use cc_otel.Imports.Traces.{
  Step, reserve, no_random, stage, complete, report, inspection_ends, begin, merge_ends, abort,
  abort_cancels, abort_ends, sweep, shut, step, run, new_manager, IsValid, task_ends_merge,
  is_settled,
}
use cc_otel.Imports.Tasks.{find-own, same_id}
use cc_otel.Imports.Slot.{job-Fits}
use cc_otel.Imports.Runs.{reached-IsValid, ended, guarded}

-- The arrows between the states; a job that failed starts again only if it may be retried.
unfoldable pub may_become : ImportState → Bool → ImportState → Bool
may_become inspecting retryable k = is_inspecting k || is_ready k || is_failed k
may_become ready retryable k = is_ready k || is_importing k
may_become importing retryable succeeded = true
may_become importing retryable k = is_importing k || is_failed k
may_become succeeded retryable succeeded = true
may_become succeeded retryable _ = false
may_become failed retryable k = is_failed k || (retryable && is_importing k)

abbrev pub is_reservation : Step → Bool
is_reservation (reserve _ _ _) = true
is_reservation _ = false

stays : (s : ImportState) (r : Bool) → may_become s r s ≡ true
unfolding may_become
stays inspecting r = refl
stays ready r = refl
stays importing r = refl
stays succeeded r = refl
stays failed r = refl

complete-Arrow :
    (now : ℕ) (id : Text) (size : _) (sha256 : Text) (m : Manager) (j k : Job)
    → m.job ≡ some j
    → (complete_upload now id size sha256 m).0.job ≡ some k
    → may_become j.state j.retryable k.state ≡ true
unfolding complete_upload completed_job
complete-Arrow now id size sha256 m j k e h = ground (arith, stays j.state j.retryable)

start-Arrow :
    (now : ℕ) (id : Text) (m : Manager) (j k : Job)
    → m.job ≡ some j
    → (start now id m).0.job ≡ some k
    → may_become j.state j.retryable k.state ≡ true
unfolding start started_job may_become
start-Arrow now id m j k e h = ground (arith, stays j.state j.retryable)

abort-Arrow :
    (id : Text) (m : Manager) (j k : Job)
    → m.job ≡ some j
    → (abort_upload id m).0.job ≡ some k
    → may_become j.state j.retryable k.state ≡ true
unfolding abort_upload
abort-Arrow id m j k e h = ground (arith, stays j.state j.retryable)

sweep-Arrow :
    (now : ℕ) (m : Manager) (j k : Job)
    → m.job ≡ some j
    → (sweep_job now m).job ≡ some k
    → may_become j.state j.retryable k.state ≡ true
unfolding sweep_job
sweep-Arrow now m j k e h = ground (arith, stays j.state j.retryable)

report-Arrow :
    (now : ℕ) (id : Text) (p : _) (m : Manager) (j k : Job)
    → m.job ≡ some j
    → (report_progress now id p m).job ≡ some k
    → may_become j.state j.retryable k.state ≡ true
unfolding report_progress
report-Arrow now id p m j k e h = ground (arith, stays j.state j.retryable)

no_random-Arrow :
    (now : ℕ) (m : Manager) (j k : Job)
    → m.job ≡ some j
    → (reserve_upload now none [] m).0.job ≡ some k
    → may_become j.state j.retryable k.state ≡ true
unfolding reserve_upload has_active_job without_job
no_random-Arrow now m j k e h = ground (arith, stays j.state j.retryable)

merge-Arrow :
    (now : ℕ) (id : Text) (stopped : Bool) (r : Returned MergeResult) (m : Manager) (j k : Job)
    → m.job ≡ some j
    → (text_eq j.job_id id ≡ true → is_importing j.state ≡ true)
    → (end_merge now id stopped r m).0.job ≡ some k
    → may_become j.state j.retryable k.state ≡ true
unfolding end_merge merged_job idle_job may_become
merge-Arrow now id stopped r m j k e i h = ground (arith, stays j.state j.retryable, i)

inspection-Arrow :
    (now : ℕ) (id : Text) (stopped : Bool) (i : Inspected) (m : Manager) (j k : Job)
    → m.job ≡ some j
    → (text_eq j.job_id id ≡ true → is_inspecting j.state ≡ true)
    → (end_inspection now id stopped i m).job ≡ some k
    → may_become j.state j.retryable k.state ≡ true
unfolding end_inspection inspected_job idle_job may_become
inspection-Arrow now id stopped i m j k e w h = ground (arith, stays j.state j.retryable, w)

-- The job that a task works for has the state of the task.
task-state :
    (id : Text) (t : Task) (m : Manager) (j : Job)
    → IsValid m
    → m.job ≡ some j
    → find_task id m.running ≡ some t
    → text_eq j.job_id id ≡ true
    → (t.is_merge ≡ is_importing j.state) × (is_importing j.state || is_inspecting j.state ≡ true)
unfolding is_settled
task-state id t m j v e f s =
    let u = job-Fits m j e v in
    ground (arith, find-own j m.running m.closed u, same_id j.job_id id s, f, u.settled)

same-Arrow :
    (o : Option Job) (j k : Job)
    → o ≡ some j
    → o ≡ some k
    → may_become j.state j.retryable k.state ≡ true
same-Arrow o j k e e' =
    subst (λ x. may_become j.state j.retryable x.state ≡ true) (some-injective _ _ (sym e ∙ e'))
      (stays j.state j.retryable)

-- A step other than a reservation moves a job along the arrows of its life, from inspecting to ready
-- or failed, from ready to importing, from importing to succeeded or failed, and from failed back to
-- importing only where the failure may be retried, in every manager that a run reaches.
pub step-Arrow :
    (dir : Text) (ss : List Step) (s : Step) (m m' : Manager) (j k : Job)
    → run ss (new_manager dir) ≡ some m
    → step s m ≡ some m'
    → is_reservation s ≡ false
    → m.job ≡ some j
    → m'.job ≡ some k
    → may_become j.state j.retryable k.state ≡ true
unfolding step task_ends_merge stage_file cancel_aborted end_abort close
step-Arrow dir ss (reserve now id name) m m' j k r h n e e' = ground arith
step-Arrow dir ss (no_random now) m m' j k r h n e e' =
    no_random-Arrow now m j k e (ap (λ x. x.job) (some-injective _ _ h) ∙ e')
step-Arrow dir ss (stage path) m m' j k r h n e e' =
    same-Arrow m.job j k e (ap (λ x. x.job) (some-injective _ _ h) ∙ e')
step-Arrow dir ss (complete now id size sha256) m m' j k r h n e e' =
    complete-Arrow now id size sha256 m j k e (ap (λ x. x.job) (some-injective _ _ h) ∙ e')
step-Arrow dir ss (report now id p) m m' j k r h n e e' =
    report-Arrow now id p m j k e (ap (λ x. x.job) (guarded _ _ m' h).1 ∙ e')
step-Arrow dir ss (inspection_ends now id i) m m' j k r h n e e' =
    let (t, f, g, d) = ended (find_task id m.running) (λ t. t.is_merge) _ m' h in
    inspection-Arrow now id (m.closed || t.cancelled) i m j k e
      (λ w. ground (arith, task-state id t m j (reached-IsValid dir ss m r) e f w, g))
      (ap (λ x. x.job) d ∙ e')
step-Arrow dir ss (begin now id) m m' j k r h n e e' =
    start-Arrow now id m j k e (ap (λ x. x.job) (some-injective _ _ h) ∙ e')
step-Arrow dir ss (merge_ends now id g) m m' j k r h n e e' =
    let (t, f, i, d) = ended (find_task id m.running) (λ t. not t.is_merge) _ m' h in
    merge-Arrow now id (m.closed || t.cancelled) _ m j k e
      (λ w. ground (arith, task-state id t m j (reached-IsValid dir ss m r) e f w, i))
      (ap (λ x. x.job) d ∙ e')
step-Arrow dir ss (abort id) m m' j k r h n e e' =
    abort-Arrow id m j k e (ap (λ x. x.job) (some-injective _ _ h) ∙ e')
step-Arrow dir ss (abort_cancels id) m m' j k r h n e e' =
    same-Arrow m.job j k e (ap (λ x. x.job) (some-injective _ _ h) ∙ e')
step-Arrow dir ss (abort_ends path) m m' j k r h n e e' =
    same-Arrow m.job j k e (ap (λ x. x.job) (some-injective _ _ h) ∙ e')
step-Arrow dir ss (sweep now) m m' j k r h n e e' =
    sweep-Arrow now m j k e (ap (λ x. x.job) (some-injective _ _ h) ∙ e')
step-Arrow dir ss shut m m' j k r h n e e' =
    same-Arrow m.job j k e (ap (λ x. x.job) (some-injective _ _ h) ∙ e')
