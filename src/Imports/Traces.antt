-- ===== src/Imports/Traces.antt =====
-- Interleavings of the manager's operations, its tasks' reports and ends and the sweeps, as lists of
-- steps, and what holds in all of them.
use cc_otel.Prelude.{
  ℕ, ◌≡◌, Bool, true, false, not, ◌||◌, ◌&&◌, if◌then◌else◌, Option, none, some, List, [], ◌∷◌,
}
use cc_otel.Prelude.Int.{ℤ}
use cc_otel.Prelude.Text.{Text, text_eq}
use cc_otel.Imports.Job.{Job, Progress, is_inspecting, is_importing, is_uploading}
use cc_otel.Imports.Manager.{
  Manager, Task, new_task, reserve_upload, stage_file, complete_upload, report_progress, start,
  abort_upload, cancel_aborted, StagedFile, end_abort, sweep_job, close,
}
use cc_otel.Imports.Finish.{
  Inspected, Merged, find_task, drop_task, end_inspection, merge_outcome, end_merge,
}

pub data Step : Type 0 where
  reserve : ℕ → Text → Text → Step
  no_random : ℕ → Step
  stage : StagedFile → Step
  complete : ℕ → Text → ℤ → Text → Step
  report : ℕ → Text → Progress → Step
  inspection_ends : ℕ → Text → Inspected → Step
  begin : ℕ → Text → Step
  merge_ends : ℕ → Text → Merged → Step
  abort : Text → Step
  abort_cancels : Text → Step
  abort_ends : Text → Step
  sweep : ℕ → Step
  shut : Step

-- The tasks of a job.
unfoldable pub tasks_of : Text → List Task → List Task
tasks_of id [] = []
tasks_of id (t ∷ ts) = let rest = tasks_of id ts in if text_eq t.task_id id then t ∷ rest else rest

abbrev pub has_task : Text → List Task → Bool
has_task id ts = elim (find_task id ts) [ none ↦ false | some t ↦ true ]

-- What a task that ends does; the flags are those of its job, which nothing changes meanwhile.
unfoldable pub task_ends_merge : ℕ → Text → Merged → Bool → Manager → Manager
task_ends_merge now id g stopped m =
    let (only, too) : Bool × Bool = elim m.job [
      | none ↦ (false, false)
      | some j ↦ if text_eq j.job_id id then (j.codex_only, j.codex_too) else (false, false)
    ] in
    (end_merge now id stopped (merge_outcome only too g) m).0

-- `none` where a step cannot happen: an identifier of 128 random bits that a task still bears, a
-- report or an end without a task, or a report of the phase of the upload, which no engine makes.
-- The later steps of an abort may come at any time, which allows more runs than the code has.
unfoldable pub step : Step → Manager → Option Manager
step (reserve now id name) m =
    if has_task id m.running then none else some (reserve_upload now (some id) name m).0
step (no_random now) m = some (reserve_upload now none [] m).0
step (stage f) m = some (stage_file f m)
step (complete now id size sha256) m = some (complete_upload now id size sha256 m).0
step (report now id p) m =
    if is_uploading p.phase || not (has_task id m.running)
    then none
    else some (report_progress now id p m)
step (inspection_ends now id i) m = elim (find_task id m.running) [
  | none ↦ none
  | some t ↦
      if t.is_merge
      then none
      else some (record (end_inspection now id (m.closed || t.cancelled) i m) {
        running = drop_task id m.running;
      })
]
step (begin now id) m = some (start now id m).0
step (merge_ends now id g) m = elim (find_task id m.running) [
  | none ↦ none
  | some t ↦
      if not t.is_merge
      then none
      else some (record (task_ends_merge now id g (m.closed || t.cancelled) m) {
        running = drop_task id m.running;
      })
]
step (abort id) m = some (abort_upload id m).0
step (abort_cancels id) m = some (cancel_aborted id m)
step (abort_ends path) m = some (end_abort path m)
step (sweep now) m = some (sweep_job now m)
step shut m = some (close m)

unfoldable pub run : List Step → Manager → Option Manager
run [] m = some m
run (s ∷ ss) m = elim (step s m) [ none ↦ none | some m' ↦ run ss m' ]

abbrev pub new_manager : Text → Manager
new_manager dir = record { job = none; running = []; closed = false; dir = dir; files = [] }

-- The context of the task is cancelled, or an abort is about to cancel it.
abbrev pub is_ending : Task → Bool
is_ending t = t.cancelled || t.doomed

-- Only the tasks of the job, if any, are not ending.
unfoldable pub others_ending : Text → List Task → Bool
others_ending id [] = true
others_ending id (t ∷ ts) = (text_eq t.task_id id || is_ending t) && others_ending id ts

unfoldable pub all_ending : List Task → Bool
all_ending [] = true
all_ending (t ∷ ts) = is_ending t && all_ending ts

-- The task that an active job has: a merge exactly where the job is importing.
unfoldable pub own : Job → List Task
own j = if j.active then new_task j.job_id (is_importing j.state) ∷ [] else []

-- Whether a job is active where its state says so, unless the manager was closed.
unfoldable pub is_settled : Bool → Job → Bool
is_settled closed j =
    if is_importing j.state
    then j.active || closed
    else if is_inspecting j.state
    then (if is_uploading j.phase then not j.active else j.active || closed)
    else not j.active

pub record JobFits (j : Job) (ts : List Task) (closed : Bool) : Type 0 where
  pub owned : tasks_of j.job_id ts ≡ own j
  pub stale : others_ending j.job_id ts ≡ true
  pub cancels : j.cancel ≡ j.active
  pub settled : is_settled closed j ≡ true

unfoldable pub Fits : Option Job → List Task → Bool → Type 0
Fits none ts closed = all_ending ts ≡ true
Fits (some j) ts closed = JobFits j ts closed

-- A manager whose tasks are those its job needs.
unfoldable pub IsValid : Manager → Type 0
IsValid m = Fits m.job m.running m.closed
