-- ===== src/Imports/Manager.antt =====
-- internal/api/import_jobs.go: the operations of the importManager. What one of them does while it
-- holds the mutex is one step on the state; an abort goes on behind it in two further steps, its
-- call of cancel and the removal of the files. The goroutines that are started are the running tasks.
use cc_otel.Prelude.{
  ℕ, ◌+◌, Bool, true, false, not, leb, ◌||◌, ◌&&◌, if◌then◌else◌, Option, none, some, List, [], ◌∷◌,
  ◌++◌,
}
use cc_otel.Prelude.Int.{ℤ, pos}
use cc_otel.Prelude.Text.{Text, codes, text_eq}
use cc_otel.Imports.Job.{
  Job, inspecting, importing, phase_uploading, phase_inspecting, phase_importing, Progress, Reply,
  replied, refused, import_busy, import_not_found, invalid_job_state, import_in_progress,
  random_failed, is_inspecting, is_ready, is_importing, is_failed, is_uploading, is_busy,
  progress_of,
}

-- A goroutine of runInspection or runMerge, whether the cancel function of its context was called,
-- and whether an abort holds that function and has yet to call it.
pub record Task : Type 0 where
  pub task_id : Text  -- the job it works for
  pub is_merge : Bool
  pub cancelled : Bool
  pub doomed : Bool

-- A file, and whether os.Remove succeeds on it.
pub record StagedFile : Type 0 where
  pub path : Text
  pub removable : Bool

-- importManager; `files` are the staged files in its directory.
pub record Manager : Type 0 where
  pub job : Option Job
  pub running : List Task
  pub closed : Bool
  pub dir : Text
  pub files : List StagedFile

pub record Reservation : Type 0 where
  pub job_id : Text
  pub path : Text

unfoldable pub has_active_job : Manager → Bool
has_active_job m = elim m.job [ none ↦ false | some j ↦ is_busy j.state ]

-- os.Remove on one path, whose failure is ignored.
unfoldable pub remove_file : Text → List StagedFile → List StagedFile
remove_file path [] = []
remove_file path (f ∷ fs) =
    let rest = remove_file path fs in if text_eq f.path path && f.removable then rest else f ∷ rest

unfoldable pub remove_import_files : Text → List StagedFile → List StagedFile
remove_import_files path files =
    if text_eq path []
    then files
    else remove_file (path ++ codes "-shm")
        (remove_file (path ++ codes "-wal") (remove_file path files))

abbrev pub upload_path : Text → Text → Text
upload_path dir job_id = dir ++ b'/' ∷ job_id ++ codes ".db.upload"

-- The job of a reservation.
unfoldable pub reserved_job : ℕ → Text → Text → Text → Job
reserved_job now job_id path name = record {
  job_id = job_id;
  state = inspecting;
  phase = phase_uploading;
  created_at = now;
  updated_at = now;
  expires_at = 0;
  retryable = false;
  file = record { name = name; size_bytes = pos 0; sha256 = [] };
  progress = progress_of phase_uploading;
  inspected = none;
  merged = none;
  error = none;
  path = path;
  cancel = false;
  started_import = false;
  active = false;
  codex_only = false;
  codex_too = false;
}

-- The job that is over makes room: its files go.
unfoldable pub without_job : Manager → Manager
without_job m = elim m.job [
  | none ↦ m
  | some j ↦ record m { job = none; files = remove_import_files j.path m.files }
]

-- reserveUpload; `random` is the identifier read from the random source, `name` the base name of
-- the uploaded file.
unfoldable pub reserve_upload : ℕ → Option Text → Text → Manager → Manager × Reply Reservation
reserve_upload now random name m =
    if has_active_job m then (m, refused import_busy) else elim random [
      | none ↦ (without_job m, refused random_failed)
      | some id ↦
          let path = upload_path m.dir id in
          (
            record (without_job m) { job = some (reserved_job now id path name) },
            replied (record { job_id = id; path = path }),
          )
    ]

-- The file that the handler writes at the path of its reservation.
unfoldable pub stage_file : StagedFile → Manager → Manager
stage_file f m = record m { files = f ∷ m.files }

abbrev pub new_task : Text → Bool → Task
new_task id merge = record { task_id = id; is_merge = merge; cancelled = false; doomed = false }

unfoldable pub completed_job : ℕ → ℤ → Text → Job → Job
completed_job now size sha256 j = record j {
  file = record j.file { size_bytes = size; sha256 = sha256 };
  phase = phase_inspecting;
  progress = progress_of phase_inspecting;
  updated_at = now;
  cancel = true;
  active = true;
}

-- completeUpload, which starts the inspection
unfoldable pub complete_upload : ℕ → Text → ℤ → Text → Manager → Manager × Reply (Unit {0})
complete_upload now id size sha256 m = elim m.job [
  | none ↦ (m, refused import_not_found)
  | some j ↦
      if not (text_eq j.job_id id)
      then (m, refused import_not_found)
      else if not (is_inspecting j.state) || not (is_uploading j.phase)
      then (m, refused invalid_job_state)
      else (
        record m {
          job = some (completed_job now size sha256 j);
          running = new_task id false ∷ m.running;
        },
        replied tt,
      )
]

-- progressCallback
unfoldable pub report_progress : ℕ → Text → Progress → Manager → Manager
report_progress now id p m = elim m.job [
  | none ↦ m
  | some j ↦
      if text_eq j.job_id id
      then record m { job = some (record j { progress = p; phase = p.phase; updated_at = now }) }
      else m
]

unfoldable pub started_job : ℕ → Job → Job
started_job now j = record j {
  state = importing;
  phase = phase_importing;
  progress = progress_of phase_importing;
  updated_at = now;
  expires_at = 0;
  retryable = false;
  error = none;
  merged = none;
  cancel = true;
  active = true;
  started_import = true;
}

-- start, which starts the merge and returns a snapshot of the job
unfoldable pub start : ℕ → Text → Manager → Manager × Reply Job
start now id m = elim m.job [
  | none ↦ (m, refused import_not_found)
  | some j ↦
      if not (text_eq j.job_id id)
      then (m, refused import_not_found)
      else if not (is_ready j.state) && not (is_failed j.state && j.retryable)
      then (m, refused invalid_job_state)
      else (
        record m { job = some (started_job now j); running = new_task id true ∷ m.running },
        replied (started_job now j),
      )
]

-- An abort takes the cancel function of a job's task.
unfoldable pub doom_tasks : Text → List Task → List Task
doom_tasks id [] = []
doom_tasks id (t ∷ ts) =
    let rest = doom_tasks id ts in
    (if text_eq t.task_id id then record t { doomed = true } else t) ∷ rest

-- The abort calls the function that it took.
unfoldable pub cancel_tasks : Text → List Task → List Task
cancel_tasks id [] = []
cancel_tasks id (t ∷ ts) =
    let rest = cancel_tasks id ts in
    (if text_eq t.task_id id && t.doomed then record t { cancelled = true } else t) ∷ rest

-- abortUpload and delete, up to the unlock: the reply is the path whose files are removed at the end,
-- and whether the abort waits for the tasks before.
unfoldable pub abort_upload : Text → Manager → Manager × Reply (Text × Bool)
abort_upload id m = elim m.job [
  | none ↦ (m, refused import_not_found)
  | some j ↦
      if not (text_eq j.job_id id)
      then (m, refused import_not_found)
      else if is_importing j.state
      then (m, refused import_in_progress)
      else (
        record m { job = none; running = if j.cancel then doom_tasks id m.running else m.running },
        replied (j.path, j.active),
      )
]

-- Behind the unlock: cancel()
unfoldable pub cancel_aborted : Text → Manager → Manager
cancel_aborted id m = record m { running = cancel_tasks id m.running }

-- The end of an abort, which has waited for the tasks of an active job.
unfoldable pub end_abort : Text → Manager → Manager
end_abort path m = record m { files = remove_import_files path m.files }

-- status; a snapshot is a copy of the job
unfoldable pub status : Text → Manager → Option Job
status id m = elim m.job [
  | none ↦ none
  | some j ↦ if not (text_eq id []) && not (text_eq j.job_id id) then none else some j
]

-- The conditions of sweep on an idle job.
unfoldable pub is_expired : ℕ → Job → Bool
is_expired now j =
    (is_uploading j.phase && is_inspecting j.state && leb (j.created_at + 1800) now)
    || (is_failed j.state && leb (j.updated_at + 3600) now)
    || (is_ready j.state && leb (j.updated_at + 86400) now)

-- The first part of sweep, on the job. The files go behind the unlock, which is part of the step: no
-- other job has their paths.
unfoldable pub sweep_job : ℕ → Manager → Manager
sweep_job now m = elim m.job [
  | none ↦ m
  | some j ↦
      if not j.active && is_expired now j
      then record m { job = none; files = remove_import_files j.path m.files }
      else m
]

-- close, up to its wait for the tasks: the context that every task's is derived from is cancelled,
-- and with it every task's, so that the second cancel adds nothing.
unfoldable pub close : Manager → Manager
close m = record m { closed = true }
