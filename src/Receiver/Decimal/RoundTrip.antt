-- ===== src/Receiver/Decimal/RoundTrip.antt =====
-- That the print of an int64 is read back.
use cc_otel.Prelude.{
  ℕ, zero, suc, ◌+◌, ◌*◌, ◌/◌, ◌%◌, ◌<◌, ◌==◌, ◌≡◌, refl, arith, Bool, true, false, Bool-cases, inl,
  inr, some, [], ◌∷◌, ◌∙◌, leb, ◌&&◌,
}
use cc_otel.Prelude.Int.{ℤ, pos, negsuc}
use cc_otel.Prelude.Text.{Text}
use cc_otel.Tokens.{InRange}
use cc_otel.Receiver.Decimal.{digits, format_nat, format_int, scan, parse_nat, signed, parse_int}

-- 10 ^ k
unfoldable power10 : ℕ → ℕ
power10 zero = 1
power10 (suc k) = 10 * power10 k

scan_digit : (n : ℕ) (out : Text) → scan ((48 + n % 10) ∷ out) (n / 10) ≡ scan out n
unfolding scan
scan_digit n out = ground arith

scan-digits : (k n : ℕ) (out : Text) → n < power10 k → scan (digits k n out) 0 ≡ scan out n
unfolding digits power10
scan-digits zero n out h = ground arith
scan-digits (suc k) n out h = elim (Bool-cases (n == 0)) [
  | inl e ↦ ground arith
  | inr e ↦ rw e (scan-digits k (n / 10) _ (omega arith) ∙ scan_digit n out)
]

unfoldable starts_with_digit : Text → Bool
starts_with_digit [] = false
starts_with_digit (c ∷ s) = leb 48 c && leb c 57

digits_start :
    (k n : ℕ) (out : Text)
    → starts_with_digit out ≡ true
    → starts_with_digit (digits k n out) ≡ true
unfolding digits starts_with_digit
digits_start zero n out h = h
digits_start (suc k) n out h =
    ground (arith, digits_start k (n / 10) ((48 + n % 10) ∷ out) (ground arith))

digits_first : (k n : ℕ) → (n == 0) ≡ false → starts_with_digit (digits (suc k) n []) ≡ true
unfolding digits starts_with_digit
digits_first k n h = rw h (digits_start k (n / 10) ((48 + n % 10) ∷ []) (ground arith))

format_nat_start : (n : ℕ) → starts_with_digit (format_nat n) ≡ true
unfolding format_nat starts_with_digit
format_nat_start n = elim (Bool-cases (n == 0)) [
  | inl e ↦ rw e refl
  | inr e ↦ rw e (digits_first 19 n e)
]

scan-format_nat : (n : ℕ) → n < 18446744073709551616 → scan (format_nat n) 0 ≡ some n
unfolding format_nat scan power10
scan-format_nat n h = elim (Bool-cases (n == 0)) [
  | inl e ↦ ground arith
  | inr e ↦ rw e (scan-digits 20 n [] (omega arith))
]

unsigned_parse : (s : Text) → starts_with_digit s ≡ true → parse_int s ≡ signed false (scan s 0)
unfolding parse_int parse_nat starts_with_digit
unsigned_parse [] h = cc
unsigned_parse (c ∷ s) h = ground arith

parse_nat-scan : (s : Text) → starts_with_digit s ≡ true → parse_nat s ≡ scan s 0
unfolding parse_nat starts_with_digit
parse_nat-scan [] h = cc
parse_nat-scan (c ∷ s) h = refl

-- Every int64 is read back from its decimal print.
pub parse_int-format_int :
    (v : ℤ) → InRange v → parse_int (format_int v) ≡ record { value = v; ok = true }
unfolding format_int signed parse_int
parse_int-format_int (pos n) h =
    rw (unsigned_parse _ (format_nat_start n), scan-format_nat n (omega arith)) (ground arith)
parse_int-format_int (negsuc n) h =
    rw (parse_nat-scan _ (format_nat_start (suc n)), scan-format_nat (suc n) (omega arith))
      (ground arith)
