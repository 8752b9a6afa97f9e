-- ===== src/Merge/Identity/Injective.antt =====
-- That rows with the same canonical encoding have the same identity columns and values.
use cc_otel.Prelude.{
  ℕ, zero, suc, ◌+◌, ◌*◌, ◌/◌, ◌%◌, ◌<◌, some, List, [], ◌∷◌, ◌++◌, ◌≡◌, ◌≢◌, refl, arith, length,
  length-append, ap, sym, ◌∙◌,
}
use mathlib.Core.Option
use mathlib.Core.Option.{some-injective}
use cc_otel.Prelude.Text.{Text}
use cc_otel.Merge.Identity.{
  ColumnPart, ColumnValue, FloatBits, big_endian, canonical_text, column_parts, write_digest_bytes,
  write_parts, SourceRow, TableSpec, identity_values, identity_for,
}

-- 256 ^ k
unfoldable power256 : ℕ → ℕ
power256 zero = 1
power256 (suc k) = 256 * power256 k

-- The number that bytes spell behind `acc`.
unfoldable spelled : ℕ → Text → ℕ
spelled acc [] = acc
spelled acc (d ∷ s) = spelled (acc * 256 + d) s

spelled-append : (acc d : ℕ) (s : Text) → spelled acc (s ++ (d ∷ [])) ≡ spelled acc s * 256 + d
unfolding spelled
spelled-append acc d [] = refl
spelled-append acc d (c ∷ s) = spelled-append (acc * 256 + c) d s

spelled-big_endian : (k n : ℕ) → n < power256 k → spelled 0 (big_endian k n) ≡ n
unfolding spelled big_endian power256
spelled-big_endian zero n h = omega arith
spelled-big_endian (suc k) n h = omega (
  arith,
  spelled-append 0 (n % 256) (big_endian k (n / 256)),
  spelled-big_endian k (n / 256) (omega arith),
)

length-big_endian : (k n : ℕ) → length (big_endian k n) ≡ k
unfolding big_endian
length-big_endian zero n = refl
length-big_endian (suc k) n =
    omega
      (arith, length-append (big_endian k (n / 256)) (n % 256 ∷ []), length-big_endian k (n / 256))

big_endian_injective :
    (n m : ℕ)
    → n < 18446744073709551616
    → m < 18446744073709551616
    → big_endian 8 n ≡ big_endian 8 m
    → n ≡ m
unfolding power256
big_endian_injective n m h k e =
    sym (spelled-big_endian 8 n (omega arith))
    ∙ ap (spelled 0) e
    ∙ spelled-big_endian 8 m (omega arith)

append_apart : (a b x y : Text) → length a ≡ length b → a ++ x ≡ b ++ y → (a ≡ b) × (x ≡ y)
append_apart [] [] x y l e = (refl, e)
append_apart [] (d ∷ b) x y l e = absurd (omega (arith, l))
append_apart (c ∷ a) [] x y l e = absurd (omega (arith, l))
append_apart (c ∷ a) (d ∷ b) x y l e =
    let (same, rest) = append_apart a b x y (omega (arith, l)) (cc e) in
    let head : c ≡ d = cc e in (cc (same, head), rest)

append_assoc : (a b c : Text) → (a ++ b) ++ c ≡ a ++ (b ++ c)
append_assoc [] b c = refl
append_assoc (x ∷ a) b c = ap (λ t. x ∷ t) (append_assoc a b c)

-- Lengths are those of texts in memory.
abbrev Fits : Text → Type 0
Fits s = length s < 18446744073709551616

-- Bytes behind their length are found again in front of what follows.
bytes_apart :
    (s t x y : Text)
    → Fits s
    → Fits t
    → write_digest_bytes s ++ x ≡ write_digest_bytes t ++ y
    → (s ≡ t) × (x ≡ y)
unfolding write_digest_bytes
bytes_apart s t x y h k e =
    let e' =
      sym (append_assoc (big_endian 8 (length s)) s x)
      ∙ e
      ∙ append_assoc (big_endian 8 (length t)) t y in
    let (sizes, rest) =
      append_apart (big_endian 8 (length s)) (big_endian 8 (length t)) (s ++ x) (t ++ y)
        (length-big_endian 8 (length s) ∙ sym (length-big_endian 8 (length t))) e' in
    append_apart s t x y (big_endian_injective (length s) (length t) h k sizes) rest

-- Every length of a column fits in a uint64.
unfoldable pub AllFitting : List ColumnPart → Type 0
AllFitting [] = Unit
AllFitting (p ∷ rest) = Fits p.column × Fits p.payload × AllFitting rest

empty_apart : (p : ColumnPart) (rest : List ColumnPart) → [] ≢ write_parts (p ∷ rest)
unfolding write_parts write_digest_bytes
empty_apart p rest e = omega (
  arith,
  ap length e,
  length-big_endian 8 (length p.column),
  length-append (big_endian 8 (length p.column)) p.column,
  length-append (big_endian 8 (length p.column) ++ p.column)
      (p.tag ∷ (write_digest_bytes p.payload ++ write_parts rest)),
)

write_parts_injective :
    (ps qs : List ColumnPart)
    → AllFitting ps
    → AllFitting qs
    → write_parts ps ≡ write_parts qs
    → ps ≡ qs
unfolding write_parts AllFitting
write_parts_injective [] [] h k e = refl
write_parts_injective [] (q ∷ qs) h k e = absurd (empty_apart q qs e)
write_parts_injective (p ∷ ps) [] h k e = absurd (empty_apart p ps (sym e))
write_parts_injective (p ∷ ps) (q ∷ qs) h k e =
    let (column, behind) =
      bytes_apart p.column q.column (p.tag ∷ (write_digest_bytes p.payload ++ write_parts ps))
        (q.tag ∷ (write_digest_bytes q.payload ++ write_parts qs)) h.0 k.0 e in
    let tag : p.tag ≡ q.tag = cc behind in
    let tails : write_digest_bytes p.payload ++ write_parts ps
        ≡ write_digest_bytes q.payload ++ write_parts qs =
      cc behind in
    let (payload, others) =
      bytes_apart p.payload q.payload (write_parts ps) (write_parts qs) h.1 k.1 tails in
    let rest = write_parts_injective ps qs h.2 k.2 others in cc (column, tag, payload, rest)

pieces_apart :
    (table table' : Text) (ps qs : List ColumnPart)
    → Fits table
    → Fits table'
    → AllFitting ps
    → AllFitting qs
    → write_digest_bytes table ++ write_parts ps ≡ write_digest_bytes table' ++ write_parts qs
    → (table ≡ table') × (ps ≡ qs)
pieces_apart table table' ps qs f f' h k e =
    let (same, parts) = bytes_apart table table' (write_parts ps) (write_parts qs) f f' e in
    (same, write_parts_injective ps qs h k parts)

canonical_injective :
    {F : Type 0} (fb : FloatBits F)
    → (table table' : Text) (columns columns' : List (Text × ColumnValue F))
    → (ps qs : List ColumnPart) → column_parts fb columns ≡ some ps
    → column_parts fb columns' ≡ some qs
    → Fits table
    → Fits table'
    → AllFitting ps
    → AllFitting qs
    → canonical_text fb table columns ≡ canonical_text fb table' columns'
    → (table ≡ table') × (column_parts fb columns ≡ column_parts fb columns')
unfolding canonical_text
canonical_injective fb table table' columns columns' ps qs c c' f f' h k e =
    let left : canonical_text fb table columns ≡ some (write_digest_bytes table ++ write_parts ps) =
      ap (Option.map (λ parts. write_digest_bytes table ++ write_parts parts)) c in
    let right : canonical_text fb table' columns'
        ≡ some (write_digest_bytes table' ++ write_parts qs) =
      ap (Option.map (λ parts. write_digest_bytes table' ++ write_parts parts)) c' in
    let (same, parts) =
      pieces_apart table table' ps qs f f' h k (some-injective _ _ (sym left ∙ e ∙ right)) in
    (same, c ∙ ap some parts ∙ sym c')

-- Two rows whose identity values all have an encoding and for which IdentityFor hashes the same
-- text are rows of the same table, with the same identity columns in the same order and, in each
-- of them, the same tag and the same bytes; no text has 2^64 bytes.
pub identity_injective :
    {F : Type 0} (fb : FloatBits F)
    → (spec spec' : TableSpec) (row row' : SourceRow F) → (ps qs : List ColumnPart)
    → column_parts fb (identity_values fb spec row) ≡ some ps
    → column_parts fb (identity_values fb spec' row') ≡ some qs
    → Fits row.table
    → Fits row'.table
    → AllFitting ps
    → AllFitting qs
    → identity_for fb spec row ≡ identity_for fb spec' row'
    → (row.table ≡ row'.table)
      × (column_parts fb (identity_values fb spec row)
          ≡ column_parts fb (identity_values fb spec' row'))
unfolding identity_for
identity_injective fb spec spec' row row' ps qs c c' f f' h k e =
    canonical_injective fb row.table row'.table (identity_values fb spec row)
      (identity_values fb spec' row') ps qs c c' f f' h k e
