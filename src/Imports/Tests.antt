-- ===== src/Imports/Tests.antt =====
-- The import manager at a concrete upload.
use cc_otel.Prelude.{◌≡◌, refl, true, Option, none, some, List, [], ◌∷◌, length}
use cc_otel.Prelude.Int.{pos}
use cc_otel.Prelude.Text.{Text, codes, text_eq, has_prefix}
use cc_otel.Imports.Job.{
  Job, Inspection, MergeResult, succeeded, refused, import_busy, invalid_job_state,
  import_in_progress,
}
use cc_otel.Imports.Manager.{
  Manager, StagedFile, upload_path, reserve_upload, start, abort_upload, sweep_job, has_active_job,
  without_job, complete_upload, completed_job, started_job, stage_file, reserved_job,
  remove_import_files, remove_file, doom_tasks,
}
use cc_otel.Imports.Finish.{
  Inspected, Merged, find_task, end_inspection, judge, inspected_job, idle_job, drop_task,
  end_merge, merged_job, merge_outcome, kept_files,
}
use cc_otel.Imports.Traces.{
  Step, reserve, stage, complete, inspection_ends, begin, merge_ends, abort, run, step, new_manager,
  task_ends_merge,
}
use cc_otel.Imports.Runs.{live_tasks, uncancelled_tasks}
use cc_otel.Imports.Slot.{import_undisturbed}
use cc_otel.Imports.Orphans.{
  DirEntry, sweep_files, is_skipped, known_import_orphan, has_suffix, without_stale,
  sweep_files_cleans,
}
use cc_otel.Imports.Transitions.{step-Arrow, may_become}

abbrev dir : Text
dir = codes "d"

abbrev upload : StagedFile
upload = record { path = upload_path dir (codes "a"); removable = true }

abbrev preview : Inspection
preview = record {
  source_rows = pos 3;
  new_rows = pos 2;
  duplicate_rows = pos 1;
  tables = [];
  ignored_tables = [];
  warnings = [];
}

abbrev inspected : Inspected
inspected = record { preview = record { value = preview; failure = none }; codex_rows = none }

abbrev result : MergeResult
result = record {
  scanned_rows = pos 3;
  inserted_rows = pos 2;
  duplicate_rows = pos 1;
  verified_identities = pos 3;
  started_at = pos 0;
  finished_at = pos 0;
  tables = [];
}

abbrev merged_well : Merged
merged_well = record {
  generic = record { value = result; failure = none };
  codex = record { value = result; failure = none };
}

abbrev readied : List Step
readied =
    reserve 10 (codes "a") (codes "x.db")
    ∷ stage upload
    ∷ complete 20 (codes "a") (pos 100) (codes "ff")
    ∷ inspection_ends 30 (codes "a") inspected
    ∷ []

abbrev started : List Step
started =
    reserve 10 (codes "a") (codes "x.db")
    ∷ stage upload
    ∷ complete 20 (codes "a") (pos 100) (codes "ff")
    ∷ inspection_ends 30 (codes "a") inspected
    ∷ begin 40 (codes "a")
    ∷ []

abbrev or_new : Option Manager → Manager
or_new none = new_manager dir
or_new (some m) = m

abbrev or_fresh : Option Job → Job
or_fresh none = reserved_job 0 [] [] []
or_fresh (some j) = j

abbrev ready_manager : Manager
ready_manager = or_new (run readied (new_manager dir))

abbrev ready_job : Job
ready_job = or_fresh ready_manager.job

abbrev busy_manager : Manager
busy_manager = or_new (run started (new_manager dir))

abbrev busy_job : Job
busy_job = or_fresh busy_manager.job

ready_runs : run readied (new_manager dir) ≡ some ready_manager
unfolding run step find_task has_active_job without_job reserve_upload complete_upload
    end_inspection judge inspected_job idle_job start completed_job started_job stage_file drop_task
    text_eq reserved_job remove_import_files
ready_runs = refl

busy_runs : run started (new_manager dir) ≡ some busy_manager
unfolding run step find_task has_active_job without_job reserve_upload complete_upload
    end_inspection judge inspected_job idle_job start completed_job started_job stage_file drop_task
    text_eq reserved_job remove_import_files
busy_runs = refl

-- A whole import, from the upload to the end of the merge.
import_succeeds :
    let m = or_new (run (merge_ends 50 (codes "a") merged_well ∷ []) busy_manager) in
    ((or_fresh m.job).state ≡ succeeded) × (m.running ≡ []) × (m.files ≡ [])
unfolding run step find_task has_active_job without_job reserve_upload complete_upload
    end_inspection judge inspected_job idle_job start completed_job started_job stage_file drop_task
    text_eq reserved_job remove_import_files end_merge merged_job merge_outcome task_ends_merge
    kept_files remove_file
import_succeeds = (refl, refl, refl)

import_undisturbed_example :
    (reserve_upload 60 (some (codes "b")) [] busy_manager ≡ (busy_manager, refused import_busy))
    × (start 60 busy_job.job_id busy_manager ≡ (busy_manager, refused invalid_job_state))
    × (abort_upload busy_job.job_id busy_manager ≡ (busy_manager, refused import_in_progress))
    × (sweep_job 60 busy_manager ≡ busy_manager)
unfolding run step find_task has_active_job without_job reserve_upload complete_upload
    end_inspection judge inspected_job idle_job start completed_job started_job stage_file drop_task
    text_eq reserved_job remove_import_files
import_undisturbed_example =
    import_undisturbed dir started busy_manager busy_job 60 (some (codes "b")) [] busy_runs refl
      refl refl

step-Arrow_example : may_become ready_job.state ready_job.retryable busy_job.state ≡ true
unfolding run step find_task has_active_job without_job reserve_upload complete_upload
    end_inspection judge inspected_job idle_job start completed_job started_job stage_file drop_task
    text_eq reserved_job remove_import_files
step-Arrow_example =
    step-Arrow dir readied (begin 40 (codes "a")) ready_manager busy_manager ready_job busy_job
      ready_runs refl refl refl refl

-- A second upload is inspected before the abort of the first cancels its inspection.
abbrev overtaken : List Step
overtaken =
    reserve 10 (codes "a") (codes "x.db")
    ∷ complete 20 (codes "a") (pos 100) (codes "ff")
    ∷ abort (codes "a")
    ∷ reserve 30 (codes "b") (codes "y.db")
    ∷ complete 40 (codes "b") (pos 100) (codes "ff")
    ∷ []

abbrev overtaken_manager : Manager
overtaken_manager = or_new (run overtaken (new_manager dir))

two_uncancelled :
    (length (uncancelled_tasks overtaken_manager.running) ≡ 2)
    × (length (live_tasks overtaken_manager.running) ≡ 1)
unfolding run step find_task has_active_job without_job reserve_upload complete_upload completed_job
    text_eq reserved_job remove_import_files abort_upload doom_tasks
two_uncancelled = (refl, refl)

abbrev listing : List DirEntry
listing =
    record { name = codes "a.db.upload"; mod_time = some 5; removable = true }
    ∷ record { name = codes "notes.db"; mod_time = some 5; removable = true }
    ∷ []

sweep_files_cleans_example :
    (sweep_files 100000 dir [] listing).0 ≡ without_stale 100000 dir [] listing
unfolding sweep_files is_skipped known_import_orphan has_suffix text_eq has_prefix
sweep_files_cleans_example = sweep_files_cleans 100000 dir [] listing refl
