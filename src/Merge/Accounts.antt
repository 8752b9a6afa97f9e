-- ===== src/Merge/Accounts.antt =====
-- That the batches account for every row, and keep their bounds.
use cc_otel.Prelude.{
  ℕ, ◌+◌, ◌≤◌, ◌≡◌, refl, Bool, true, false, not, leb, ◌||◌, ◌&&◌, ◌==◌, if◌then◌else◌, List, [],
  ◌∷◌, ◌++◌, Bool-cases, inl, inr, arith, ◌∙◌, ap, subst,
}
use cc_otel.Prelude.Text.{Text, text_eq, text_eq_self, text_eq_iff}
use cc_otel.Merge.Batches.{
  Row, BatchLimits, BatchCandidate, RowBatch, Scan, empty_batch, has_digest, count_again,
  add_candidate, add_row, is_full,
}

-- How often an identity was counted.
unfoldable pub counted : Text → List BatchCandidate → ℕ
counted d [] = 0
counted d (c ∷ cs) = (if text_eq c.digest d then c.occurrences else 0) + counted d cs

unfoldable pub counted_in : Text → List RowBatch → ℕ
counted_in d [] = 0
counted_in d (b ∷ bs) = counted d b.candidates + counted_in d bs

pub counted-append :
    (d : Text) (cs es : List BatchCandidate) → counted d (cs ++ es) ≡ counted d cs + counted d es
unfolding counted
counted-append d [] es = omega arith
counted-append d (c ∷ cs) es = ground (arith, counted-append d cs es)

pub counted_in-append :
    (d : Text) (bs : List RowBatch) (b : RowBatch)
    → counted_in d (bs ++ b ∷ []) ≡ counted_in d bs + counted d b.candidates
unfolding counted_in
counted_in-append d [] b = omega arith
counted_in-append d (c ∷ bs) b = ground (arith, counted_in-append d bs b)

pub same-counted : (d e : Text) (x : Text) → text_eq x e ≡ true → text_eq x d ≡ text_eq e d
same-counted d e x h = ap (λ y. text_eq y d) ((text_eq_iff x e).0 h)

pub counted-count_again :
    (d e : Text) (cs : List BatchCandidate)
    → has_digest e cs ≡ true
    → counted d (count_again e cs) ≡ counted d cs + (if text_eq e d then 1 else 0)
unfolding counted count_again has_digest
counted-count_again d e [] h = cc
counted-count_again d e (c ∷ cs) h =
    ground (arith, counted-count_again d e cs, same-counted d e c.digest)

pub counted-add_candidate :
    (d e : Text) (row : Row) (n : ℕ) (cs : List BatchCandidate)
    → counted d (add_candidate e row n cs) ≡ counted d cs + (if text_eq e d then 1 else 0)
unfolding add_candidate counted
counted-add_candidate d e row n cs = elim (Bool-cases (has_digest e cs)) [
  | inl h ↦ rw h (counted-count_again d e cs h)
  | inr h ↦ rw h (counted-append d cs _ ∙ ground arith)
]

-- The rows of a batch.
unfoldable pub size : List BatchCandidate → ℕ
size [] = 0
size (c ∷ cs) = c.occurrences + size cs

unfoldable pub all_of : Text → List BatchCandidate → Bool
all_of table [] = true
all_of table (c ∷ cs) = text_eq c.row.table table && all_of table cs

pub size-append : (cs es : List BatchCandidate) → size (cs ++ es) ≡ size cs + size es
unfolding size
size-append [] es = omega arith
size-append (c ∷ cs) es = ground (arith, size-append cs es)

pub size-count_again :
    (e : Text) (cs : List BatchCandidate)
    → has_digest e cs ≡ true
    → size (count_again e cs) ≡ size cs + 1
unfolding size count_again has_digest
size-count_again e [] h = cc
size-count_again e (c ∷ cs) h = ground (arith, size-count_again e cs)

pub size-add_candidate :
    (e : Text) (row : Row) (n : ℕ) (cs : List BatchCandidate)
    → size (add_candidate e row n cs) ≡ size cs + 1
unfolding add_candidate size
size-add_candidate e row n cs = elim (Bool-cases (has_digest e cs)) [
  | inl h ↦ rw h (size-count_again e cs h)
  | inr h ↦ rw h (size-append cs _ ∙ ground arith)
]

pub all_of-append :
    (t : Text) (cs es : List BatchCandidate) → all_of t (cs ++ es) ≡ (all_of t cs && all_of t es)
unfolding all_of
all_of-append t [] es = refl
all_of-append t (c ∷ cs) es = ground (arith, all_of-append t cs es)

pub all_of-count_again :
    (t e : Text) (cs : List BatchCandidate) → all_of t (count_again e cs) ≡ all_of t cs
unfolding all_of count_again
all_of-count_again t e [] = refl
all_of-count_again t e (c ∷ cs) = ground (arith, all_of-count_again t e cs)

pub all_of-add_candidate :
    (e : Text) (row : Row) (n : ℕ) (cs : List BatchCandidate)
    → all_of row.table cs ≡ true
    → all_of row.table (add_candidate e row n cs) ≡ true
unfolding add_candidate all_of
all_of-add_candidate e row n cs v = elim (Bool-cases (has_digest e cs)) [
  | inl h ↦ rw h (all_of-count_again row.table e cs ∙ v)
  | inr h ↦ rw (
    h,
    all_of-append row.table cs
        (record { row = row; digest = e; ordinal = n; occurrences = 1 } ∷ []),
    v,
    text_eq_self row.table,
  )
]

pub counted≤size : (d : Text) (cs : List BatchCandidate) → counted d cs ≤ size cs
unfolding counted size
counted≤size d [] = omega arith
counted≤size d (c ∷ cs) = ground (arith, counted≤size d cs)

abbrev pub no_candidates : List BatchCandidate → Bool
no_candidates [] = true
no_candidates (c ∷ cs) = false

pub none-all_of :
    (t : Text) (cs : List BatchCandidate) → no_candidates cs ≡ true → all_of t cs ≡ true
unfolding all_of
none-all_of t [] h = refl
none-all_of t (c ∷ cs) h = cc

-- A batch is within its limits, where one row alone may exceed the number of bytes; it is of one
-- table, and its candidates account for its rows.
pub record BatchFits (limits : BatchLimits) (b : RowBatch) : Type 0 where
  pub accounted : size b.candidates ≡ b.source_rows
  pub within_rows : b.source_rows ≤ limits.rows
  pub within_bytes : leb b.payload_bytes limits.bytes || leb b.source_rows 1 ≡ true
  pub one_table : all_of b.table b.candidates ≡ true
  pub starts_empty : not (b.source_rows == 0) || no_candidates b.candidates ≡ true

-- Of the batches handed over each fits and has a row.
unfoldable pub AllFit : BatchLimits → List RowBatch → Type 0
AllFit limits [] = Unit
AllFit limits (b ∷ bs) = BatchFits limits b × (1 ≤ b.source_rows) × AllFit limits bs

pub AllFit-append :
    (limits : BatchLimits) (bs : List RowBatch) (b : RowBatch)
    → AllFit limits bs
    → BatchFits limits b
    → 1 ≤ b.source_rows
    → AllFit limits (bs ++ b ∷ [])
unfolding AllFit
AllFit-append limits [] b v f p = (f, p, tt)
AllFit-append limits (c ∷ bs) b v f p = (v.0, v.1, AllFit-append limits bs b v.2 f p)

pub empty-BatchFits : (limits : BatchLimits) → BatchFits limits empty_batch
unfolding size all_of
empty-BatchFits limits = record {
  accounted = refl;
  within_rows = omega arith;
  within_bytes = ground arith;
  one_table = refl;
  starts_empty = refl;
}

pub add_row-BatchFits :
    (limits : BatchLimits) (d : Text) (row : Row) (s : Scan)
    → 1 ≤ limits.rows
    → is_full limits row s.batch ≡ false
    → BatchFits limits s.batch
    → BatchFits limits (add_row d row s).batch
unfolding add_row is_full
add_row-BatchFits limits d row s p n f = record {
  accounted =
      size-add_candidate d row (s.ordinal + 1) s.batch.candidates ∙ ap (λ k. k + 1) f.accounted;
  within_rows = ground arith;
  within_bytes = ground arith;
  one_table = elim (Bool-cases (s.batch.source_rows == 0)) [
    | inl z ↦ rw z (
        all_of-add_candidate d row (s.ordinal + 1) s.batch.candidates
          (none-all_of row.table s.batch.candidates (ground (arith, f.starts_empty))))
    | inr z ↦
        let same = (text_eq_iff s.batch.table row.table).0 (ground arith) in
        rw (z, same)
          (all_of-add_candidate d row (s.ordinal + 1) s.batch.candidates
            (subst (λ t. all_of t s.batch.candidates ≡ true) same f.one_table))
  ];
  starts_empty = ground arith;
}
