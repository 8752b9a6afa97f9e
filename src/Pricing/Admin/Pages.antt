-- ===== src/Pricing/Admin/Pages.antt =====
-- Pages of the admin table: in bounds while the product fits an int64, and a panic beyond.
use cc_otel.Prelude.{
  ℕ, zero, suc, [], ◌∷◌, ◌++◌, ◌+◌, ◌-◌, ◌*◌, ◌≤◌, ◌<◌, length-drop, sym, ◌≡◌, ◌∙◌, ap, refl,
  Option, none, some, List, length, take, drop, arith,
}
use cc_otel.Prelude.Int.{pos, ◌+ℤ◌, ◌-ℤ◌, ◌*ℤ◌}
use Prim.Native.Nat.{min}
use mathlib.Core.Option
use cc_otel.Tokens.{add64, sub64, mul64, wrap64, wrap64_fit, max_int64}
use cc_otel.Pricing.Admin.{slice_bounds, page_bounds, list_page, requested_page}

exact_product : (p s : ℕ) → pos p *ℤ pos s ≡ pos (p * s)
unfolding ◌*ℤ◌
exact_product p s = ground arith

product : (p s : ℕ) → p * s ≤ 9223372036854775807 → mul64 (pos p) (pos s) ≡ pos (p * s)
unfolding mul64
product p s h = ap wrap64 (exact_product p s) ∙ wrap64_fit (pos (p * s)) (omega arith, omega arith)

exact_sum : (a b : ℕ) → pos a +ℤ pos b ≡ pos (a + b)
unfolding ◌+ℤ◌
exact_sum a b = ground arith

exact_before : (k : ℕ) → pos (k + 1) -ℤ pos 1 ≡ pos k
unfolding ◌-ℤ◌
exact_before k = ground arith

sum : (a b : ℕ) → a + b ≤ 9223372036854775807 → add64 (pos a) (pos b) ≡ pos (a + b)
unfolding add64
sum a b h = ap wrap64 (exact_sum a b) ∙ wrap64_fit (pos (a + b)) (omega arith, omega arith)

before : (k : ℕ) → k + 1 ≤ 9223372036854775807 → sub64 (pos (k + 1)) (pos 1) ≡ pos k
unfolding sub64
before k h = ap wrap64 (exact_before k) ∙ wrap64_fit (pos k) (omega arith, omega arith)

-- Page k + 1 of s entries each, while its end is an int64, is cut at k * s and k * s + s, both held
-- to the number of entries: the bounds are in range, and nothing panics.
pub page_bounds_lem :
    (k s total : ℕ)
    → 0 < s
    → k + 1 ≤ 9223372036854775807
    → k * s + s ≤ 9223372036854775807
    → total + s ≤ 9223372036854775807
    → page_bounds (pos (k + 1)) (pos s) total ≡ some (min (k * s) total, min (k * s + s) total)
unfolding page_bounds slice_bounds
page_bounds_lem k s total hs hk h ht =
    ground (arith, before k hk, product k s (omega arith), sum (k * s) s h, sum total s ht)

zero_mul : (s : ℕ) → 0 ≡ 0 * s
zero_mul s = omega arith

mul_suc : (n s : ℕ) → n * s + s ≡ suc n * s
mul_suc n s = grind arith

zero_add : (n : ℕ) → n ≡ 0 + n
zero_add n = omega arith

suc_add : (a b : ℕ) → suc (a + b) ≡ suc a + b
suc_add a b = omega arith

min_zero : (b : ℕ) → min 0 b ≡ 0
min_zero b = omega arith

min-suc : (a b : ℕ) → min (suc a) (suc b) ≡ suc (min a b)
min-suc a b = omega arith

cut_length : (a n l : ℕ) {d : ℕ} → d ≡ l - a → min (a + n) l - min a l ≡ min n d
cut_length a n l e = omega arith

module _ {A : Type 0} where
  take_nil : (n : ℕ) → ◌≡◌ {A = List A} (take n []) []
  take_nil zero = refl
  take_nil (suc n) = refl

  drop_nil : (n : ℕ) → ◌≡◌ {A = List A} (drop n []) []
  drop_nil zero = refl
  drop_nil (suc n) = refl

  drop-min : (n : ℕ) (xs : List A) → drop (min n (length xs)) xs ≡ drop n xs
  drop-min zero xs = ap (λ m. drop m xs) (min_zero (length xs))
  drop-min (suc n) [] = drop_nil (min (suc n) 0)
  drop-min (suc n) (x ∷ xs) = ap (λ m. drop m (x ∷ xs)) (min-suc n (length xs)) ∙ drop-min n xs

  take-min : (n : ℕ) (xs : List A) → take (min n (length xs)) xs ≡ take n xs
  take-min zero xs = ap (λ m. take m xs) (min_zero (length xs))
  take-min (suc n) [] = take_nil (min (suc n) 0)
  take-min (suc n) (x ∷ xs) =
      ap (λ m. take m (x ∷ xs)) (min-suc n (length xs)) ∙ ap (λ t. x ∷ t) (take-min n xs)

  take-more : (a n : ℕ) (xs : List A) → take a xs ++ take n (drop a xs) ≡ take (a + n) xs
  take-more zero n xs = ap (λ m. take m xs) (zero_add n)
  take-more (suc a) n [] = take_nil n ∙ sym (take_nil (suc a + n))
  take-more (suc a) n (x ∷ xs) =
      ap (λ t. x ∷ t) (take-more a n xs) ∙ ap (λ m. take m (x ∷ xs)) (suc_add a n)

  -- A page whose bounds are held to the length is the same cut without that.
  cut_lem :
      (a n : ℕ) (xs : List A)
      → take (min (a + n) (length xs) - min a (length xs)) (drop (min a (length xs)) xs)
        ≡ take n (drop a xs)
  cut_lem a n xs =
      ap (take (min (a + n) (length xs) - min a (length xs))) (drop-min a xs)
      ∙ ap (λ m. take m (drop a xs)) (cut_length a n (length xs) (length-drop a xs))
      ∙ take-min n (drop a xs)

  -- A request for page k + 1, with a page size that the handler accepts and in a range that an
  -- int64 holds, gets the entries from k * s on, at most s of them.
  pub requested_page_lem :
      (k s : ℕ) (xs : List A)
      → 0 < s
      → s ≤ 200
      → k + 1 ≤ 9223372036854775807
      → k * s + s ≤ 9223372036854775807
      → length xs + s ≤ 9223372036854775807
      → requested_page (pos (k + 1)) (pos s) xs ≡ some (take s (drop (k * s) xs))
  unfolding requested_page list_page
  requested_page_lem k s xs hs ls hk h hl =
      ground (arith, page_bounds_lem k s (length xs) hs hk h hl, cut_lem (k * s) s xs)

-- The pages 1 to n in turn, one behind the other.
pub first_pages : {A : Type 0} → ℕ → ℕ → List A → Option (List A)
first_pages zero s xs = some []
first_pages (suc n) s xs = elim (first_pages n s xs) [
  | none ↦ none
  | some before ↦ Option.map (λ page. before ++ page) (requested_page (pos (n + 1)) (pos s) xs)
]

-- Reading the pages of an accepted size in turn, as far as an int64 holds their ends, gives the
-- entries in order: the first n pages are the first n * s entries, none twice and none left out.
pub first_pages_lem :
    {A : Type 0} (n s : ℕ) (xs : List A)
    → 0 < s
    → s ≤ 200
    → n ≤ 9223372036854775807
    → n * s ≤ 9223372036854775807
    → length xs + s ≤ 9223372036854775807
    → first_pages n s xs ≡ some (take (n * s) xs)
unfolding first_pages
first_pages_lem zero s xs hs ls hn h hl = ap (λ m. some (take m xs)) (zero_mul s)
first_pages_lem (suc n) s xs hs ls hn h hl =
    rw
      (
        first_pages_lem n s xs hs ls (omega arith) (grind arith) hl,
        requested_page_lem n s xs hs ls (omega arith) (grind arith) hl,
      )
      (ap some (take-more (n * s) s xs ∙ ap (λ m. take m xs) (mul_suc n s)))

-- A request for the greatest page number with an even page size panics: the product
-- (page - 1) * pageSize wraps around to a negative number, which the handler's clamps, that bound
-- the page size and not the page, let through.
pub greatest_page_panics :
    {A : Type 0} (k : ℕ) (entries : List A)
    → 0 < k
    → k ≤ 100
    → requested_page max_int64 (pos (2 * k)) entries ≡ none
unfolding requested_page list_page page_bounds slice_bounds add64 sub64 mul64 wrap64 ◌*ℤ◌ ◌+ℤ◌ ◌-ℤ◌
greatest_page_panics k entries p q = ground arith
