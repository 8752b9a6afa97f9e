-- ===== src/Merge/Scans.antt =====
-- What scanBatches hands over: every row counted once, in batches within their limits.
use cc_otel.Prelude.{
  ℕ, ◌+◌, ◌≤◌, ◌≡◌, ◌⊎◌, refl, Bool, true, false, ◌==◌, if◌then◌else◌, Option, none, some, List, [],
  ◌∷◌, ◌++◌, Option-cases, Bool-cases, inl, inr, arith, subst,
}
use cc_otel.Prelude.Int.{ℤ, pos, ◌≤ℤ◌}
use cc_otel.Prelude.Text.{Text, text_eq}
use cc_otel.Merge.Batches.{
  Row, BatchLimits, RowBatch, Scan, Scanned, going, stopped, empty_batch, batch_limits, add_row,
  is_full, flush, make_room, scan_row, scan_rows, scan_batches, clamp_limit,
}
use cc_otel.Merge.Accounts.{
  counted, counted_in, counted_in-append, counted-add_candidate, counted≤size, BatchFits, AllFit,
  AllFit-append, empty-BatchFits, add_row-BatchFits,
}

-- Fits: the batches handed over, and the one that is filled.
pub record ScanFits (limits : BatchLimits) (s : Scan) : Type 0 where
  pub filled : BatchFits limits s.batch
  pub handed : AllFit limits s.yielded

-- How often the scan has counted an identity.
unfoldable pub total : Text → Scan → ℕ
total d s = counted_in d s.yielded + counted d s.batch.candidates

module _ (identity : Row → Option Text) where
  -- Whether a row has the identity.
  unfoldable pub bears : Text → Row → ℕ
  bears d row = elim (identity row) [ none ↦ 0 | some e ↦ if text_eq e d then 1 else 0 ]

  unfoldable pub rows_of : Text → List Row → ℕ
  rows_of d [] = 0
  rows_of d (row ∷ rows) = bears d row + rows_of d rows

-- What a limit `n` with the greatest one `max` becomes.
pub record IsLimit (n : ℤ) (max l : ℕ) : Type 0 where
  pub positive : 1 ≤ l
  pub bounded : l ≤ max
  pub given : pos 1 ≤ℤ n → n ≤ℤ pos max → n ≡ pos l

Scanned-cases :
    (p : Scanned) → ((bs : List RowBatch) × (p ≡ stopped bs)) ⊎ ((s : Scan) × (p ≡ going s))
Scanned-cases (going s) = inr (s, refl)
Scanned-cases (stopped bs) = inl (bs, refl)

module _ (alive : ℕ → Bool) (accepts : RowBatch → Bool) (identity : Row → Option Text) where
  flush-cases :
      (s s' : Scan)
      → flush alive accepts identity s ≡ going s'
      → (((s.batch.source_rows == 0) ≡ true) × (s ≡ s'))
        ⊎ (((s.batch.source_rows == 0) ≡ false)
            × (record s { yielded = s.yielded ++ s.batch ∷ []; batch = empty_batch } ≡ s'))
  unfolding flush
  flush-cases s s' h = ground arith

  flush-total :
      (d : Text) (s s' : Scan) → flush alive accepts identity s ≡ going s' → total d s' ≡ total d s
  unfolding flush counted total
  flush-total d s s' h = ground (arith, counted_in-append d s.yielded s.batch)

  flush-fits :
      (limits : BatchLimits) (s s' : Scan)
      → flush alive accepts identity s ≡ going s'
      → ScanFits limits s
      → ScanFits limits s'
  flush-fits limits s s' h v = elim (flush-cases s s' h) [
    | inl (z, e) ↦ subst (ScanFits limits) e v
    | inr (z, e) ↦ subst (ScanFits limits) e (record {
      filled = empty-BatchFits limits;
      handed = AllFit-append limits s.yielded s.batch v.handed v.filled (ground arith);
    })
  ]

  flush-full :
      (limits : BatchLimits) (row : Row) (s s' : Scan)
      → make_room alive accepts identity limits row s ≡ going s'
      → is_full limits row s'.batch ≡ false
  unfolding make_room flush is_full
  flush-full limits row s s' h = ground arith

  room-total :
      (d : Text) (limits : BatchLimits) (row : Row) (s s' : Scan)
      → make_room alive accepts identity limits row s ≡ going s'
      → total d s' ≡ total d s
  unfolding make_room
  room-total d limits row s s' h = elim (Bool-cases (is_full limits row s.batch)) [
    | inl e ↦ flush-total d s s' (ground arith)
    | inr e ↦ ground arith
  ]

  room-fits :
      (limits : BatchLimits) (row : Row) (s s' : Scan)
      → make_room alive accepts identity limits row s ≡ going s'
      → ScanFits limits s
      → ScanFits limits s'
  unfolding make_room
  room-fits limits row s s' h v = elim (Bool-cases (is_full limits row s.batch)) [
    | inl e ↦ flush-fits limits s s' (ground arith) v
    | inr e ↦ subst (ScanFits limits) (ground arith) v
  ]

  row-cases :
      (limits : BatchLimits) (row : Row) (s s' : Scan)
      → scan_row alive accepts identity limits row s ≡ going s'
      → (r : Scan) × (d : Text) × (make_room alive accepts identity limits row s ≡ going r)
        × (identity row ≡ some d)
        × (add_row d row r ≡ s')
  unfolding scan_row
  row-cases limits row s s' h =
      elim (Scanned-cases (make_room alive accepts identity limits row s)) [
        | inl (bs, e) ↦ ground arith
        | inr (r, e) ↦ elim (Option-cases (identity row)) [
          | inl n ↦ ground arith
          | inr (d, i) ↦ (r, d, e, i, ground arith)
        ]
      ]

  row-total :
      (d : Text) (limits : BatchLimits) (row : Row) (s s' : Scan)
      → scan_row alive accepts identity limits row s ≡ going s'
      → total d s' ≡ total d s + bears identity d row
  unfolding total add_row bears
  row-total d limits row s s' h =
      let (r, e, m, i, q) = row-cases limits row s s' h in
      ground (
        arith,
        room-total d limits row s r m,
        q,
        i,
        counted-add_candidate d e row (r.ordinal + 1) r.batch.candidates,
      )

  row-fits :
      (limits : BatchLimits) (row : Row) (s s' : Scan)
      → 1 ≤ limits.rows
      → scan_row alive accepts identity limits row s ≡ going s'
      → ScanFits limits s
      → ScanFits limits s'
  unfolding add_row
  row-fits limits row s s' p h v =
      let (r, e, m, i, q) = row-cases limits row s s' h in
      let w = room-fits limits row s r m v in
      subst (ScanFits limits) q (record {
        filled = add_row-BatchFits limits e row r p (flush-full limits row s r m) w.filled;
        handed = w.handed;
      })

  rows-total :
      (d : Text) (limits : BatchLimits) (rows : List Row) (s s' : Scan)
      → scan_rows alive accepts identity limits rows s ≡ going s'
      → total d s' ≡ total d s + rows_of identity d rows
  unfolding scan_rows rows_of
  rows-total d limits [] s s' h = ground arith
  rows-total d limits (row ∷ rows) s s' h =
      elim (Scanned-cases (scan_row alive accepts identity limits row s)) [
        | inl (bs, e) ↦ ground arith
        | inr (r, e) ↦
            let t = rows-total d limits rows r s' (ground arith) in
            let u = row-total d limits row s r e in ground arith
      ]

  rows-fits :
      (limits : BatchLimits) (rows : List Row) (s s' : Scan)
      → 1 ≤ limits.rows
      → scan_rows alive accepts identity limits rows s ≡ going s'
      → ScanFits limits s
      → ScanFits limits s'
  unfolding scan_rows
  rows-fits limits [] s s' p h v = subst (ScanFits limits) (ground arith) v
  rows-fits limits (row ∷ rows) s s' p h v =
      elim (Scanned-cases (scan_row alive accepts identity limits row s)) [
        | inl (bs, e) ↦ ground arith
        | inr (r, e) ↦ rows-fits limits rows r s' p (ground arith) (row-fits limits row s r p e v)
      ]

  abbrev fresh_scan : Scan
  fresh_scan = record { yielded = []; batch = empty_batch; ordinal = 0 }

  scan-cases :
      (rows bytes : ℤ) (source : List Row)
      → (scan_batches alive accepts identity rows bytes source).1 ≡ true
      → (s r : Scan) × (scan_rows alive accepts identity (batch_limits rows bytes) source fresh_scan
          ≡ going s)
        × (flush alive accepts identity s ≡ going r)
        × (r.yielded ≡ (scan_batches alive accepts identity rows bytes source).0)
  unfolding scan_batches
  scan-cases rows bytes source h =
      elim (Scanned-cases
        (scan_rows alive accepts identity (batch_limits rows bytes) source fresh_scan)) [
          | inl (cs, e) ↦ ground arith
          | inr (s, e) ↦ elim (Scanned-cases (flush alive accepts identity s)) [
            | inl (cs, n) ↦ ground arith
            | inr (r, i) ↦ (s, r, e, i, ground arith)
          ]
        ]

  limits-positive : (rows bytes : ℤ) → 1 ≤ (batch_limits rows bytes).rows
  unfolding batch_limits clamp_limit
  limits-positive rows bytes = ground arith

  flush-empty : (s s' : Scan) → flush alive accepts identity s ≡ going s' → s'.batch.source_rows ≡ 0
  unfolding flush
  flush-empty s s' h = ground arith

  fresh-ScanFits : (limits : BatchLimits) → ScanFits limits fresh_scan
  unfolding AllFit
  fresh-ScanFits limits = record { filled = empty-BatchFits limits; handed = tt }

  -- No row is lost and none is counted twice: whatever the limits, after a scan without an error the
  -- batches together count each identity as often as the source has a row that bears it.
  pub scan_batches_counts :
      (rows bytes : ℤ) (source : List Row) (d : Text)
      → (scan_batches alive accepts identity rows bytes source).1 ≡ true
      → counted_in d (scan_batches alive accepts identity rows bytes source).0
        ≡ rows_of identity d source
  unfolding total counted_in counted
  scan_batches_counts rows bytes source d h =
      let limits = batch_limits rows bytes in
      let (s, r, e, i, q) = scan-cases rows bytes source h in
      let v =
        rows-fits limits source fresh_scan s (limits-positive rows bytes) e
          (fresh-ScanFits limits) in
      let w = (flush-fits limits s r i v).filled in
      let t1 = rows-total d limits source fresh_scan s e in
      let t2 = flush-total d s r i in
      ground (arith, t1, t2, q, w.accounted, flush-empty s r i, counted≤size d r.batch.candidates)
