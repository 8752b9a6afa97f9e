-- ===== src/Merge/Batches.antt =====
-- internal/dbmerge/batch.go: the rows of a source are cut into batches; within a batch, rows of the
-- same identity are one candidate with a count. The identity of a row is a parameter, and so are
-- the answers of the context and of the callback that a batch is handed to.
use cc_otel.Prelude.{
  ℕ, ◌+◌, Bool, true, false, not, ltb, leb, ◌||◌, ◌&&◌, ◌==◌, if◌then◌else◌, Option, none, some,
  List, [], ◌∷◌, ◌++◌, length,
}
use cc_otel.Prelude.Int.{ℤ, pos, pos_part, ltb_ℤ}
use cc_otel.Prelude.Text.{Text, text_eq}
use cc_otel.Prelude.Table.{contains}

-- A value of a row: a string, a byte slice or anything else.
pub data Value : Type 0 where
  string_value byte_slice : Text → Value
  other : Value

pub record Row : Type 0 where
  pub table : Text
  pub values : List (Text × Value)

pub record BatchLimits : Type 0 where
  pub rows : ℕ
  pub bytes : ℕ

pub record BatchCandidate : Type 0 where
  pub row : Row
  pub digest : Text
  pub ordinal : ℕ
  pub occurrences : ℕ

pub record RowBatch : Type 0 where
  pub table : Text
  pub candidates : List BatchCandidate
  pub source_rows : ℕ
  pub payload_bytes : ℕ

abbrev pub max_batch_size : ℕ
max_batch_size = 10000

abbrev pub max_batch_payload_bytes : ℕ
max_batch_payload_bytes = 134217728

-- A limit that is not positive or too large is the greatest one.
unfoldable pub clamp_limit : ℤ → ℕ → ℕ
clamp_limit n max = if not (ltb_ℤ (pos 0) n) || ltb_ℤ (pos max) n then max else pos_part n

unfoldable pub batch_limits : ℤ → ℤ → BatchLimits
batch_limits rows bytes = record {
  rows = clamp_limit rows max_batch_size;
  bytes = clamp_limit bytes max_batch_payload_bytes;
}

unfoldable pub value_bytes : Value → ℕ
value_bytes (string_value s) = length s
value_bytes (byte_slice s) = length s
value_bytes other = 16

unfoldable pub values_bytes : List (Text × Value) → ℕ
values_bytes [] = 0
values_bytes ((key, v) ∷ vs) = 32 + length key + value_bytes v + values_bytes vs

unfoldable pub estimate_row_bytes : Row → ℕ
estimate_row_bytes row = 64 + length row.table + values_bytes row.values

abbrev pub empty_batch : RowBatch
empty_batch = record { table = []; candidates = []; source_rows = 0; payload_bytes = 0 }

-- digests
unfoldable pub digests : List BatchCandidate → List Text
digests [] = []
digests (c ∷ cs) = c.digest ∷ digests cs

-- The loop of firstCandidates: the candidates whose digest is in the set.
unfoldable pub kept : List Text → List BatchCandidate → List BatchCandidate
kept first [] = []
kept first (c ∷ cs) = let rest = kept first cs in if contains c.digest first then c ∷ rest else rest

unfoldable pub first_candidates : List Text → RowBatch → RowBatch
first_candidates first b = record b { candidates = kept first b.candidates }

-- What the scan keeps; `yielded` are the batches that the callback took.
pub record Scan : Type 0 where
  pub yielded : List RowBatch
  pub batch : RowBatch
  pub ordinal : ℕ

-- The map `indexes` holds the place of each digest among the candidates.
unfoldable pub has_digest : Text → List BatchCandidate → Bool
has_digest d [] = false
has_digest d (c ∷ cs) = text_eq c.digest d || has_digest d cs

-- batch.Candidates[index].Occurrences++
unfoldable pub count_again : Text → List BatchCandidate → List BatchCandidate
count_again d [] = []
count_again d (c ∷ cs) =
    let rest = count_again d cs in
    if text_eq c.digest d then record c { occurrences = c.occurrences + 1 } ∷ cs else c ∷ rest

unfoldable pub add_candidate : Text → Row → ℕ → List BatchCandidate → List BatchCandidate
add_candidate d row ordinal cs =
    if has_digest d cs
    then count_again d cs
    else cs ++ record { row = row; digest = d; ordinal = ordinal; occurrences = 1 } ∷ []

unfoldable pub add_row : Text → Row → Scan → Scan
add_row d row s = record s {
  batch = record {
    table = if s.batch.source_rows == 0 then row.table else s.batch.table;
    candidates = add_candidate d row (s.ordinal + 1) s.batch.candidates;
    source_rows = s.batch.source_rows + 1;
    payload_bytes = s.batch.payload_bytes + estimate_row_bytes row;
  };
  ordinal = s.ordinal + 1;
}

-- The row does not go into the batch any more.
unfoldable pub is_full : BatchLimits → Row → RowBatch → Bool
is_full limits row b =
    not (b.source_rows == 0)
    && (not (text_eq b.table row.table)
        || leb limits.rows b.source_rows
        || ltb limits.bytes (b.payload_bytes + estimate_row_bytes row))

-- A scan that goes on, or one that an error ended, with the batches that the callback took before.
pub data Scanned : Type 0 where
  going : Scan → Scanned
  stopped : List RowBatch → Scanned

module _ (alive : ℕ → Bool) (accepts : RowBatch → Bool) (identity : Row → Option Text) where
  -- `accepts` is false where the context is cancelled or the callback fails.
  unfoldable pub flush : Scan → Scanned
  flush s =
      if s.batch.source_rows == 0
      then going s
      else if accepts s.batch
      then going (record s { yielded = s.yielded ++ s.batch ∷ []; batch = empty_batch })
      else stopped s.yielded

  unfoldable pub make_room : BatchLimits → Row → Scan → Scanned
  make_room limits row s = if is_full limits row s.batch then flush s else going s

  -- The callback of Scan.
  unfoldable pub scan_row : BatchLimits → Row → Scan → Scanned
  scan_row limits row s =
      if not (alive s.ordinal) then stopped s.yielded else elim (make_room limits row s) [
        | stopped bs ↦ stopped bs
        | going s' ↦ elim (identity row) [
          | none ↦ stopped s'.yielded
          | some d ↦ going (add_row d row s')
        ]
      ]

  unfoldable pub scan_rows : BatchLimits → List Row → Scan → Scanned
  scan_rows limits [] s = going s
  scan_rows limits (row ∷ rows) s = elim (scan_row limits row s) [
    | stopped bs ↦ stopped bs
    | going s' ↦ scan_rows limits rows s'
  ]

  -- scanBatches over the rows of a source: the batches that the callback took, in their order, and
  -- whether no error ended the scan.
  unfoldable pub scan_batches : ℤ → ℤ → List Row → List RowBatch × Bool
  scan_batches rows bytes source =
      let start : Scan = record { yielded = []; batch = empty_batch; ordinal = 0 } in
      elim (scan_rows (batch_limits rows bytes) source start) [
        | stopped bs ↦ (bs, false)
        | going s ↦ elim (flush s) [ stopped bs ↦ (bs, false) | going s' ↦ (s'.yielded, true) ]
      ]
