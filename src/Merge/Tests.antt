-- ===== src/Merge/Tests.antt =====
-- Batches of a small source, and the canonical text of a row.
use cc_otel.Prelude.{ℕ, ◌≡◌, refl, Bool, true, false, Option, some, List, [], ◌∷◌, length, arith}
use cc_otel.Prelude.Int.{pos}
use cc_otel.Prelude.Text.{Text, codes, text_eq}
use cc_otel.Merge.Batches.{
  Row, RowBatch, batch_limits, scan_batches, scan_rows, scan_row, make_room, flush, is_full,
  add_row, add_candidate, count_again, has_digest, estimate_row_bytes, values_bytes, value_bytes,
  clamp_limit, other,
}
use cc_otel.Merge.Accounts.{counted_in}
use cc_otel.Merge.Scans.{scan_batches_counts, rows_of}
use cc_otel.Merge.Identity.{
  ColumnValue, FloatBits, TableSpec, SourceRow, ColumnPart, text, kind_claude_request, column_parts,
  identity_values, identity_columns, value_part, normalize_value, value_of, has_request_id,
}
use cc_otel.Prelude.Table.{lookup}
use cc_otel.Merge.Identity.Injective.{AllFitting, identity_injective}

abbrev row : Text → Row
row table = record { table = table; values = (codes "id", other) ∷ [] }

abbrev source : List Row
source = row (codes "a") ∷ row (codes "a") ∷ row (codes "a") ∷ row (codes "b") ∷ []

abbrev alive : ℕ → Bool
alive _ = true

abbrev accepts : RowBatch → Bool
accepts _ = true

abbrev by_table : Row → Option Text
by_table r = some r.table

abbrev scanned : List RowBatch × Bool
scanned = scan_batches alive accepts by_table (pos 2) (pos 1000) source

scan_ends : scanned.1 ≡ true
unfolding scan_batches scan_rows scan_row make_room flush is_full add_row add_candidate count_again
    has_digest estimate_row_bytes values_bytes value_bytes clamp_limit batch_limits text_eq
scan_ends = refl

three_batches : length scanned.0 ≡ 3
unfolding scan_batches scan_rows scan_row make_room flush is_full add_row add_candidate count_again
    has_digest estimate_row_bytes values_bytes value_bytes clamp_limit batch_limits text_eq
three_batches = refl

-- The second batch is refused: the first one was handed over.
first_taken :
    length
      (scan_batches alive
        (λ b. text_eq b.table (codes "b"))
        by_table
        (pos 2)
        (pos 1000)
        (row (codes "b") ∷ source)).0
    ≡ 1
unfolding scan_batches scan_rows scan_row make_room flush is_full add_row add_candidate count_again
    has_digest estimate_row_bytes values_bytes value_bytes clamp_limit batch_limits text_eq
first_taken = refl

scan_batches_counts_example : counted_in (codes "a") scanned.0 ≡ rows_of by_table (codes "a") source
scan_batches_counts_example =
    scan_batches_counts alive accepts by_table (pos 2) (pos 1000) source (codes "a") scan_ends

abbrev no_floats : FloatBits Unit
no_floats = record {
  is_inf = λ _. false;
  is_nan = λ _. true;
  is_whole = λ _. false;
  at_least_min = λ _. false;
  at_most_max = λ _. false;
  to_int64 = λ _. pos 0;
  bits = λ _. 0;
}

abbrev requests : TableSpec
requests = record { kind = kind_claude_request; columns = [] }

-- A request with the identifier `id`.
abbrev request : ColumnValue Unit → SourceRow Unit
request id = record {
  table = codes "t";
  values = (codes "model", text (codes "m")) ∷ (codes "request_id", id) ∷ [];
}

abbrev key_parts : List ColumnPart
key_parts = record { column = codes "request_id"; tag = b's'; payload = codes "r1" } ∷ []

text_parts :
    column_parts no_floats (identity_values no_floats requests (request (text (codes "r1"))))
    ≡ some key_parts
unfolding column_parts identity_values value_part normalize_value value_of has_request_id
    identity_columns lookup text_eq
text_parts = refl

key_parts-AllFitting : AllFitting key_parts
unfolding AllFitting
key_parts-AllFitting = (omega arith, omega arith, tt)

identity_injective_example :
    (codes "t" ≡ codes "t")
    × (column_parts no_floats (identity_values no_floats requests (request (text (codes "r1"))))
        ≡ column_parts no_floats (identity_values no_floats requests (request (text (codes "r1")))))
identity_injective_example =
    identity_injective no_floats requests requests (request (text (codes "r1")))
      (request (text (codes "r1"))) key_parts key_parts text_parts text_parts (omega arith)
      (omega arith) key_parts-AllFitting key_parts-AllFitting refl
