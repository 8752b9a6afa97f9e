-- ===== src/Receiver/Codex/Tracker/Capacity.antt =====
-- How many entries the map of pending requests can have.
use cc_otel.Prelude.{
  ℕ, zero, suc, ◌+◌, ◌-◌, ◌≤◌, [], ◌∷◌, ◌≡◌, refl, arith, inl, inr, Bool-cases, if◌then◌else◌,
  length, take, length-take, ltb,
}
use Prim.Native.Nat.{max}
use cc_otel.Prelude.Int.{ℤ}
use cc_otel.Prelude.Text.{Text, text_eq, text_eq_iff, text_eq_self}
use cc_otel.Prelude.Table.{Table, lookup, insert, erase}
use cc_otel.Tokens.{sub64}
use cc_otel.Receiver.Codex.Tracker.{
  SpanInfo, CodexTracker, evict_before, insert_span, sort_spans, erase_all, cap_spans,
  evicted_spans, evict_old, span_ttl, span_key, merged_with, record_request,
}

-- The entries of a key.
unfoldable pub count_key : Text → Table SpanInfo → ℕ
count_key k [] = 0
count_key k ((j, i) ∷ m) = (if text_eq j k then 1 else 0) + count_key k m

-- A Go map has one entry for a key.
abbrev pub Unique : Table SpanInfo → Type 0
Unique m = (k : Text) → count_key k m ≤ 1

length-erase : (k : Text) (m : Table SpanInfo) → length (erase k m) + count_key k m ≡ length m
unfolding erase count_key
length-erase k [] = refl
length-erase k ((j, i) ∷ m) = ground (arith, length-erase k m)

count_key-erase :
    (k j : Text) (m : Table SpanInfo)
    → count_key j (erase k m) ≡ (if text_eq k j then 0 else count_key j m)
unfolding erase count_key
count_key-erase k j [] = ground arith
count_key-erase k j ((l, i) ∷ m) =
    ground (arith, count_key-erase k j m, text_eq_iff l k, text_eq_iff l j, text_eq_iff k j)

count_key-insert :
    (k j : Text) (i : SpanInfo) (m : Table SpanInfo)
    → count_key j (insert k i m) ≡ (if text_eq k j then max 1 (count_key j m) else count_key j m)
unfolding insert count_key
count_key-insert k j i [] = ground arith
count_key-insert k j i ((l, h) ∷ m) =
    ground (arith, count_key-insert k j i m, text_eq_iff l k, text_eq_iff l j, text_eq_iff k j)

length-insert :
    (k : Text) (i : SpanInfo) (m : Table SpanInfo) → length (insert k i m) ≤ length m + 1
unfolding insert
length-insert k i [] = omega arith
length-insert k i ((l, h) ∷ m) = ground (arith, length-insert k i m)

count_key-insert_span :
    (k : Text) (e : Text × SpanInfo) (m : Table SpanInfo)
    → count_key k (insert_span e m) ≡ count_key k (e ∷ m)
unfolding insert_span count_key
count_key-insert_span k e [] = refl
count_key-insert_span k e (f ∷ m) = ground (arith, count_key-insert_span k e m)

count_key-sort_spans : (k : Text) (m : Table SpanInfo) → count_key k (sort_spans m) ≡ count_key k m
unfolding sort_spans count_key
count_key-sort_spans k [] = refl
count_key-sort_spans k (e ∷ m) =
    omega (arith, count_key-insert_span k e (sort_spans m), count_key-sort_spans k m)

length-insert_span :
    (e : Text × SpanInfo) (m : Table SpanInfo) → length (insert_span e m) ≡ length m + 1
unfolding insert_span
length-insert_span e [] = omega arith
length-insert_span e (f ∷ m) = ground (arith, length-insert_span e m)

length-sort_spans : (m : Table SpanInfo) → length (sort_spans m) ≡ length m
unfolding sort_spans
length-sort_spans [] = refl
length-sort_spans (e ∷ m) = omega (arith, length-insert_span e (sort_spans m), length-sort_spans m)

count_key-take : (k : Text) (n : ℕ) (m : Table SpanInfo) → count_key k (take n m) ≤ count_key k m
unfolding count_key
count_key-take k zero m = omega arith
count_key-take k (suc n) [] = omega arith
count_key-take k (suc n) (e ∷ m) = omega (arith, count_key-take k n m)

-- Entries of the map, one for each of their keys, can be deleted one after the other.
length-erase_all :
    (es m : Table SpanInfo)
    → Unique m
    → ((k : Text) → count_key k es ≤ count_key k m)
    → length (erase_all es m) + length es ≡ length m
unfolding erase_all count_key
length-erase_all [] m u within = omega arith
length-erase_all ((k, i) ∷ es) m u within =
    let here = within k in
    let once = u k in
    let gone = length-erase k m in
    let self = text_eq_self k in
    let rest =
      length-erase_all es (erase k m) (λ j. ground (arith, count_key-erase k j m, u j))
        (λ j. ground (arith, count_key-erase k j m, within j, u j, text_eq_iff k j)) in
    ground (arith, here, once, gone, self, rest)

count_key-erase_all :
    (j : Text) (es m : Table SpanInfo) → count_key j (erase_all es m) ≤ count_key j m
unfolding erase_all
count_key-erase_all j [] m = omega arith
count_key-erase_all j ((k, i) ∷ es) m =
    ground (arith, count_key-erase_all j es (erase k m), count_key-erase k j m)

count_key-evict_before :
    (j : Text) (cutoff : ℤ) (m : Table SpanInfo)
    → count_key j (evict_before cutoff m) ≤ count_key j m
unfolding evict_before count_key
count_key-evict_before j cutoff [] = omega arith
count_key-evict_before j cutoff ((k, i) ∷ m) = ground (arith, count_key-evict_before j cutoff m)

length-evict_before : (cutoff : ℤ) (m : Table SpanInfo) → length (evict_before cutoff m) ≤ length m
unfolding evict_before
length-evict_before cutoff [] = omega arith
length-evict_before cutoff ((k, i) ∷ m) = ground (arith, length-evict_before cutoff m)

length-cap_spans : (m : Table SpanInfo) → Unique m → length (cap_spans m) ≤ 10000
unfolding cap_spans
length-cap_spans m u = elim (Bool-cases (ltb 10000 (length m))) [
  | inl e ↦
      let n = length m - 10000 in
      let cut = length-take n (sort_spans m) in
      let all = length-sort_spans m in
      let left =
        length-erase_all (take n (sort_spans m)) m u
          (λ k. omega (arith, count_key-take k n (sort_spans m), count_key-sort_spans k m)) in
      rw e (ground (arith, cut, all, left))
  | inr e ↦ rw e (ground (arith, e))
]

cap_spans-Unique : (m : Table SpanInfo) → Unique m → Unique (cap_spans m)
unfolding cap_spans
cap_spans-Unique m u k =
    ground (arith, u k, count_key-erase_all k (take (length m - 10000) (sort_spans m)) m)

evict_before-Unique : (cutoff : ℤ) (m : Table SpanInfo) → Unique m → Unique (evict_before cutoff m)
evict_before-Unique cutoff m u k = omega (arith, u k, count_key-evict_before k cutoff m)

evict_old-Unique : (start : ℤ) (m : Table SpanInfo) → Unique m → Unique (evict_old start m)
unfolding evict_old
evict_old-Unique start m u k =
    ground (arith, u k, count_key-evict_before k (sub64 start span_ttl) m)

insert-Unique : (k : Text) (i : SpanInfo) (m : Table SpanInfo) → Unique m → Unique (insert k i m)
insert-Unique k i m u j = ground (arith, u j, count_key-insert k j i m)

pub record_request-Unique :
    (span_id : Text) (info : SpanInfo) (t : CodexTracker)
    → Unique t.spans
    → Unique (record_request span_id info t).1.spans
unfolding record_request evicted_spans
record_request-Unique span_id info t u =
    let kept = evict_old-Unique info.start_nanos t.spans u in
    insert-Unique _ _ _ (cap_spans-Unique (evict_old info.start_nanos t.spans) kept)

-- The cap is enforced before the new entry is added.
pub length-record_request :
    (span_id : Text) (info : SpanInfo) (t : CodexTracker)
    → Unique t.spans
    → length (record_request span_id info t).1.spans ≤ 10001
unfolding record_request evicted_spans
length-record_request span_id info t u =
    let old = evict_old info.start_nanos t.spans in
    let capped = length-cap_spans old (evict_old-Unique info.start_nanos t.spans u) in
    let (key, next) = span_key span_id t.next_fallback in
    omega (
      arith,
      capped,
      length-insert key (merged_with (lookup key (cap_spans old)) info) (cap_spans old),
    )

pub erase-Unique : (k : Text) (m : Table SpanInfo) → Unique m → Unique (erase k m)
erase-Unique k m u j = ground (arith, u j, count_key-erase k j m)

pub length-erase_le : (k : Text) (m : Table SpanInfo) → length (erase k m) ≤ length m
length-erase_le k m = omega (arith, length-erase k m)
