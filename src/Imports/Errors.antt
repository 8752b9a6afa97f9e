-- ===== src/Imports/Errors.antt =====
-- internal/api/import_jobs.go, publicImportError: the error that a client of the API is shown.
use cc_otel.Prelude.{Option, none, some, [], ◌∷◌}
use cc_otel.Prelude.Int.{ℤ, pos}
use cc_otel.Prelude.Text.{Text, codes}
use cc_otel.Prelude.Table.{Table, lookup}
use cc_otel.Imports.Job.{ImportJobError}

-- An error of the engine: a MergeError, the first in its chain, or another one.
pub data EngineError : Type 0 where
  merge_error : Text → Text → ℤ → EngineError
  other_error : EngineError

abbrev pub error_code : EngineError → Option Text
error_code (merge_error code table row) = some code
error_code other_error = none

abbrev pub messages : Table Text
messages =
    (codes "invalid_sqlite", codes "The selected file is not a valid SQLite database.")
    ∷ (codes "integrity_check_failed", codes "The selected database failed its integrity check.")
    ∷ (codes "unsupported_schema", codes "The selected database schema is not supported.")
    ∷ (codes "inspection_failed", codes "Database inspection failed.")
    ∷ (codes "import_failed", codes "Database import failed.")
    ∷ (codes "verification_failed", codes "Imported data could not be verified.")
    ∷ []

unfoldable pub message_of : Text → Text
message_of code = elim (lookup code messages) [
  | none ↦ codes "Database import failed."
  | some message ↦ message
]

unfoldable pub public_import_error : EngineError → Text → ImportJobError
public_import_error (merge_error code table row) fallback = record {
  code = code;
  message = message_of code;
  table = table;
  row_number = row;
}
public_import_error other_error fallback = record {
  code = fallback;
  message = message_of fallback;
  table = [];
  row_number = pos 0;
}
