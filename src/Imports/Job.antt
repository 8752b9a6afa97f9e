-- ===== src/Imports/Job.antt =====
-- internal/api/import_jobs.go and internal/dbmerge/types.go: the data of an import job. Times are
-- Unix seconds; the percentage of a progress report is a whole number.
use cc_otel.Prelude.{ℕ, Bool, true, false, ◌||◌, Option, List, []}
use cc_otel.Prelude.Int.{ℤ, pos}
use cc_otel.Prelude.Text.{Text}

pub data ImportState : Type 0 where
  inspecting ready importing succeeded failed : ImportState

pub data Phase : Type 0 where
  phase_uploading phase_inspecting phase_preview phase_importing phase_verifying : Phase

pub data ImportError : Type 0 where
  import_busy import_not_found invalid_job_state import_in_progress random_failed : ImportError

-- What an operation returns: a value or one of the errors.
pub data Reply (A : Type 0) : Type 0 where
  replied : A → Reply A
  refused : ImportError → Reply A

pub record ImportFileStatus : Type 0 where
  pub name : Text
  pub size_bytes : ℤ
  pub sha256 : Text

pub record ImportJobError : Type 0 where
  pub code : Text
  pub message : Text
  pub table : Text
  pub row_number : ℤ

pub record Progress : Type 0 where
  pub phase : Phase
  pub current_table : Text
  pub processed_rows : ℤ
  pub total_rows : ℤ
  pub inserted_rows : ℤ
  pub duplicate_rows : ℤ
  pub percent : ℕ

pub record TableStats : Type 0 where
  pub name : Text
  pub source_rows : ℤ
  pub new_rows : ℤ
  pub duplicate_rows : ℤ
  pub inserted_rows : ℤ

pub record Inspection : Type 0 where
  pub source_rows : ℤ
  pub new_rows : ℤ
  pub duplicate_rows : ℤ
  pub tables : List TableStats
  pub ignored_tables : List Text
  pub warnings : List Text

-- dbmerge.Result
pub record MergeResult : Type 0 where
  pub scanned_rows : ℤ
  pub inserted_rows : ℤ
  pub duplicate_rows : ℤ
  pub verified_identities : ℤ
  pub started_at : ℤ
  pub finished_at : ℤ
  pub tables : List TableStats

-- importJob, with the fields of ImportJobStatus; `cancel` tells whether the function is set.
pub record Job : Type 0 where
  pub job_id : Text
  pub state : ImportState
  pub phase : Phase
  pub created_at : ℕ
  pub updated_at : ℕ
  pub expires_at : ℕ
  pub retryable : Bool
  pub file : ImportFileStatus
  pub progress : Progress
  pub inspected : Option Inspection  -- Preview
  pub merged : Option MergeResult  -- Result
  pub error : Option ImportJobError
  pub path : Text
  pub cancel : Bool
  pub started_import : Bool
  pub active : Bool
  pub codex_only : Bool
  pub codex_too : Bool

abbrev pub is_inspecting : ImportState → Bool
is_inspecting inspecting = true
is_inspecting _ = false

abbrev pub is_ready : ImportState → Bool
is_ready ready = true
is_ready _ = false

abbrev pub is_importing : ImportState → Bool
is_importing importing = true
is_importing _ = false

abbrev pub is_failed : ImportState → Bool
is_failed failed = true
is_failed _ = false

abbrev pub is_uploading : Phase → Bool
is_uploading phase_uploading = true
is_uploading _ = false

-- The states that keep the slot.
abbrev pub is_busy : ImportState → Bool
is_busy s = is_inspecting s || is_ready s || is_importing s

-- Progress{Phase: p}
abbrev pub progress_of : Phase → Progress
progress_of p = record {
  phase = p;
  current_table = [];
  processed_rows = pos 0;
  total_rows = pos 0;
  inserted_rows = pos 0;
  duplicate_rows = pos 0;
  percent = 0;
}
