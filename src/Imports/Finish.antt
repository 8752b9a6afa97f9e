-- ===== src/Imports/Finish.antt =====
-- internal/api/import_jobs.go: what runInspection and runMerge do with what the engine returns.
use cc_otel.Prelude.{
  ℕ, ◌+◌, Bool, true, false, not, if◌then◌else◌, Option, none, some, List, [], ◌∷◌, ◌++◌,
}
use cc_otel.Prelude.Int.{ℤ, pos, ltb_ℤ}
use cc_otel.Prelude.Text.{Text, codes, text_eq}
use cc_otel.Tokens.{add64}
use cc_otel.Imports.Job.{
  Job, ready, succeeded, failed, phase_preview, Inspection, MergeResult, TableStats,
}
use cc_otel.Imports.Errors.{EngineError, error_code, public_import_error}
use cc_otel.Imports.Manager.{Manager, Task, StagedFile, remove_import_files}

-- A value and an error, as Go returns them; of the value on an error nothing is used but by the
-- merge.
pub record Returned (A : Type 0) : Type 0 where
  pub value : A
  pub failure : Option EngineError

-- What the engine found out in an inspection: Inspect, and CodexArchiveRows (`none` on an error).
pub record Inspected : Type 0 where
  pub preview : Returned Inspection
  pub codex_rows : Option ℤ

-- What runInspection makes of it.
pub record Verdict : Type 0 where
  pub outcome : Returned Inspection
  pub codex_only : Bool
  pub codex_too : Bool

abbrev pub archive_name : Text
archive_name = codes "codex archive " ++ 226 ∷ 134 ∷ 146 ∷ codes " api_requests & events"

abbrev pub archive_stats : ℤ → ℤ → TableStats
archive_stats source new = record {
  name = archive_name;
  source_rows = source;
  new_rows = new;
  duplicate_rows = pos 0;
  inserted_rows = pos 0;
}

-- A legacy file of which only the archive can be imported.
unfoldable pub archive_preview : ℤ → Inspection
archive_preview rows = record {
  source_rows = rows;
  new_rows = rows;
  duplicate_rows = pos 0;
  tables = archive_stats rows rows ∷ [];
  ignored_tables = [];
  warnings = codes "legacy unified-table schema: only the codex archive will be imported" ∷ [];
}

-- The archive beside the tables of a modern file.
unfoldable pub with_archive : ℤ → Inspection → Inspection
with_archive rows p = record p {
  source_rows = add64 p.source_rows rows;
  tables = p.tables ++ archive_stats rows (pos 0) ∷ [];
}

abbrev pub plain : Returned Inspection → Verdict
plain r = record { outcome = r; codex_only = false; codex_too = false }

-- errors.As(err, &mergeErr) && mergeErr.Code == ErrUnsupportedSchema
unfoldable pub is_unsupported : EngineError → Bool
is_unsupported e = elim (error_code e) [
  | none ↦ false
  | some code ↦ text_eq code (codes "unsupported_schema")
]

unfoldable pub judge : Inspected → Verdict
judge i = elim i.codex_rows [
  | none ↦ plain i.preview
  | some rows ↦ if not (ltb_ℤ (pos 0) rows) then plain i.preview else elim i.preview.failure [
    | none ↦ record {
      outcome = record { value = with_archive rows i.preview.value; failure = none };
      codex_only = false;
      codex_too = true;
    }
    | some e ↦
        if is_unsupported e
        then record {
          outcome = record { value = archive_preview rows; failure = none };
          codex_only = true;
          codex_too = false;
        }
        else plain i.preview
  ]
]

-- The first task of a job leaves the running ones.
unfoldable pub find_task : Text → List Task → Option Task
find_task id [] = none
find_task id (t ∷ ts) = let rest = find_task id ts in if text_eq t.task_id id then some t else rest

unfoldable pub drop_task : Text → List Task → List Task
drop_task id [] = []
drop_task id (t ∷ ts) = let rest = drop_task id ts in if text_eq t.task_id id then ts else t ∷ rest

unfoldable pub idle_job : Job → Job
idle_job j = record j { active = false; cancel = false }

unfoldable pub inspected_job : ℕ → Verdict → Job → Job
inspected_job now v j = elim v.outcome.failure [
  | some e ↦ record j {
    updated_at = now;
    state = failed;
    retryable = false;
    expires_at = now + 3600;
    error = some (public_import_error e (codes "inspection_failed"));
  }
  | none ↦ record j {
    updated_at = now;
    state = ready;
    phase = phase_preview;
    progress = record j.progress {
      phase = phase_preview;
      processed_rows = v.outcome.value.source_rows;
      total_rows = v.outcome.value.source_rows;
      percent = 100;
    };
    inspected = some v.outcome.value;
    expires_at = now + 86400;
  }
]

-- The locked end of runInspection; `stopped` is ctx.Err() != nil.
unfoldable pub end_inspection : ℕ → Text → Bool → Inspected → Manager → Manager
end_inspection now id stopped i m =
    let v = judge i in
    elim m.job [
      | none ↦ m
      | some j ↦
          let j' = idle_job (record j { codex_only = v.codex_only; codex_too = v.codex_too }) in
          if not (text_eq j.job_id id)
          then m
          else if stopped
          then record m { job = some j' }
          else record m { job = some (inspected_job now v j') }
    ]

-- What the engine returned for a merge: of Merge and of CodexMerge.
pub record Merged : Type 0 where
  pub generic : Returned MergeResult
  pub codex : Returned MergeResult

unfoldable pub renamed : List TableStats → List TableStats
renamed [] = []
renamed (t ∷ ts) = record t { name = t.name ++ codes " (codex archive)" } ∷ renamed ts

unfoldable pub add_results : MergeResult → MergeResult → MergeResult
add_results r c = record r {
  scanned_rows = add64 r.scanned_rows c.scanned_rows;
  inserted_rows = add64 r.inserted_rows c.inserted_rows;
  duplicate_rows = add64 r.duplicate_rows c.duplicate_rows;
  verified_identities = add64 r.verified_identities c.verified_identities;
  tables = r.tables ++ renamed c.tables;
}

-- The calls of runMerge, by the flags of the job.
unfoldable pub merge_outcome : Bool → Bool → Merged → Returned MergeResult
merge_outcome codex_only codex_too g = if codex_only then g.codex else elim g.generic.failure [
  | some e ↦ g.generic
  | none ↦ if not codex_too then g.generic else elim g.codex.failure [
    | some e ↦ record { value = g.generic.value; failure = some e }
    | none ↦ record { value = add_results g.generic.value g.codex.value; failure = none }
  ]
]

unfoldable pub merged_job : ℕ → Returned MergeResult → Job → Job
merged_job now r j = elim r.failure [
  | some e ↦ record j {
    updated_at = now;
    merged = some r.value;
    state = failed;
    retryable = true;
    expires_at = now + 3600;
    error = some (public_import_error e (codes "import_failed"));
  }
  | none ↦ record j {
    updated_at = now;
    merged = some r.value;
    state = succeeded;
    retryable = false;
    expires_at = 0;
    error = none;
  }
]

-- The files go once the merge succeeded.
unfoldable pub kept_files : Returned MergeResult → Text → List StagedFile → List StagedFile
kept_files r path files = elim r.failure [ none ↦ remove_import_files path files | some e ↦ files ]

-- The locked end of runMerge; the flag tells whether the broker is notified after it.
unfoldable pub end_merge : ℕ → Text → Bool → Returned MergeResult → Manager → Manager × Bool
end_merge now id stopped r m = elim m.job [
  | none ↦ (m, false)
  | some j ↦
      let j' = idle_job j in
      if not (text_eq j.job_id id)
      then (m, false)
      else if stopped
      then (record m { job = some j' }, false)
      else (
        record m { job = some (merged_job now r j'); files = kept_files r j.path m.files },
        ltb_ℤ (pos 0) r.value.inserted_rows,
      )
]
