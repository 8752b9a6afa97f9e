-- ===== src/Merge/Identity.antt =====
-- internal/dbmerge/identity.go: the identity of a row, a digest over a canonical encoding of its
-- table, its columns and their values. The digest itself is a parameter.
pub mod Injective
use cc_otel.Prelude.{
  ℕ, zero, suc, ◌+◌, ◌-◌, ◌/◌, ◌%◌, Bool, true, false, Option, none, some, List, [], ◌∷◌, ◌++◌,
  if◌then◌else◌, length, map, not, ◌&&◌,
}
use mathlib.Core.Option
use cc_otel.Prelude.Int.{ℤ, pos, negsuc}
use cc_otel.Prelude.Text.{Text, codes}
use cc_otel.Prelude.Table.{Table, lookup}
use cc_otel.Prelude.Text.{text_eq}

-- A value of a row, as the database driver reads it; a float is a value of a parameter.
pub data ColumnValue (F : Type 0) : Type 0 where
  null : ColumnValue F
  integer : ℤ → ColumnValue F
  float : F → ColumnValue F
  text : Text → ColumnValue F
  bytes : Text → ColumnValue F
  boolean : Bool → ColumnValue F
  unsupported : ColumnValue F

-- What is asked of a float64.
pub record FloatBits (F : Type 0) : Type 0 where
  pub is_inf : F → Bool
  pub is_nan : F → Bool
  pub is_whole : F → Bool  -- math.Trunc(value) == value
  pub at_least_min : F → Bool  -- value >= math.MinInt64
  pub at_most_max : F → Bool  -- value <= math.MaxInt64
  pub to_int64 : F → ℤ
  pub bits : F → ℕ  -- math.Float64bits

-- binary.BigEndian with k bytes.
unfoldable pub big_endian : ℕ → ℕ → Text
big_endian zero n = []
big_endian (suc k) n = big_endian k (n / 256) ++ (n % 256 ∷ [])

-- uint64(v)
unfoldable pub to_uint64 : ℤ → ℕ
to_uint64 (pos n) = n % 18446744073709551616
to_uint64 (negsuc n) = 18446744073709551615 - n % 18446744073709551616

-- The length in 8 bytes, and the bytes.
unfoldable pub write_digest_bytes : Text → Text
write_digest_bytes payload = big_endian 8 (length payload) ++ payload

-- A column with the tag and the bytes of its value.
pub record ColumnPart : Type 0 where
  pub column : Text
  pub tag : ℕ
  pub payload : Text

module _ {F : Type 0} (fb : FloatBits F) where
  unfoldable pub normalize_value : ColumnValue F → ColumnValue F
  normalize_value (bytes s) = text s
  normalize_value (float x) =
      if not (fb.is_inf x)
        && not (fb.is_nan x)
        && fb.is_whole x
        && fb.at_least_min x
        && fb.at_most_max x
      then integer (fb.to_int64 x)
      else float x
  normalize_value v = v

  -- The tag and the bytes of a value; none for a type that has no encoding.
  unfoldable pub value_part : ColumnValue F → Option (ℕ × Text)
  value_part null = some (b'n', [])
  value_part (integer i) = some (b'i', big_endian 8 (to_uint64 i))
  value_part (float x) = some (b'f', big_endian 8 (fb.bits x))
  value_part (text s) = some (b's', s)
  value_part (bytes s) = some (b'b', s)
  value_part (boolean true) = some (b't', 1 ∷ [])
  value_part (boolean false) = some (b't', 0 ∷ [])
  value_part unsupported = none

  unfoldable pub column_parts : List (Text × ColumnValue F) → Option (List ColumnPart)
  column_parts [] = some []
  column_parts ((column, v) ∷ rest) = elim (value_part v) [
    | none ↦ none
    | some (tag, payload) ↦
        Option.map (λ parts. record { column = column; tag = tag; payload = payload } ∷ parts)
          (column_parts rest)
  ]

-- What is written for the columns.
unfoldable pub write_parts : List ColumnPart → Text
write_parts [] = []
write_parts (p ∷ rest) =
    write_digest_bytes p.column ++ (p.tag ∷ (write_digest_bytes p.payload ++ write_parts rest))

-- What canonicalDigest hashes.
unfoldable pub canonical_text :
    {F : Type 0} → FloatBits F → Text → List (Text × ColumnValue F) → Option Text
canonical_text fb table columns =
    Option.map (λ parts. write_digest_bytes table ++ write_parts parts) (column_parts fb columns)

pub data TableKind : Type 0 where
  kind_all_columns kind_claude_request kind_codex_request kind_raw kind_pending_ttft : TableKind

-- The kind and the columns of a table in the registry.
pub record TableSpec : Type 0 where
  pub kind : TableKind
  pub columns : List Text

pub record SourceRow (F : Type 0) : Type 0 where
  pub table : Text
  pub values : Table (ColumnValue F)

-- A missing column reads as nil.
unfoldable pub value_of : {F : Type 0} → Text → SourceRow F → ColumnValue F
value_of column row = elim (lookup column row.values) [ none ↦ null | some v ↦ v ]

-- requestID, _ := row.Values["request_id"].(string); requestID != ""
unfoldable pub has_request_id : {F : Type 0} → ColumnValue F → Bool
has_request_id (text []) = false
has_request_id (text (c ∷ s)) = true
has_request_id v = false

abbrev pub claude_columns : List Text
claude_columns =
    codes "timestamp"
    ∷ codes "session_id"
    ∷ codes "prompt_id"
    ∷ codes "event_sequence"
    ∷ codes "model"
    ∷ codes "input_tokens"
    ∷ codes "output_tokens"
    ∷ codes "duration_ms"
    ∷ []

abbrev pub codex_columns : List Text
codex_columns =
    codes "timestamp"
    ∷ codes "session_id"
    ∷ codes "model"
    ∷ codes "input_tokens"
    ∷ codes "output_tokens"
    ∷ codes "duration_ms"
    ∷ []

abbrev pub pending_columns : List Text
pending_columns = codes "session_id" ∷ codes "model" ∷ codes "span_end_unix" ∷ codes "ttft_ms" ∷ []

abbrev pub request_id_column : List Text
request_id_column = codes "request_id" ∷ []

unfoldable pub identity_columns : {F : Type 0} → TableSpec → SourceRow F → List Text
identity_columns spec row =
    let id = has_request_id (value_of (codes "request_id") row) in
    elim (spec.kind) [
      | kind_claude_request ↦ if id then request_id_column else claude_columns
      | kind_codex_request ↦ codex_columns
      | kind_pending_ttft ↦ if id then request_id_column else pending_columns
      | kind_all_columns ↦ spec.columns
      | kind_raw ↦ spec.columns
    ]

-- The identity columns with their values.
unfoldable pub identity_values :
    {F : Type 0} → FloatBits F → TableSpec → SourceRow F → List (Text × ColumnValue F)
identity_values fb spec row =
    map (λ column. (column, normalize_value fb (value_of column row))) (identity_columns spec row)

-- What the digest of a row of a known table is taken of; none when a value has no encoding.
unfoldable pub identity_for : {F : Type 0} → FloatBits F → TableSpec → SourceRow F → Option Text
identity_for fb spec row = canonical_text fb row.table (identity_values fb spec row)
