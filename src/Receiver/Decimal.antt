-- ===== src/Receiver/Decimal.antt =====
-- The functions of Go's package strconv that the receiver calls: FormatInt and ParseInt at base
-- 10 and 64 bits. A parse returns a value also when it fails: 0 for a text that is no number, the
-- nearest int64 for a number out of range.
pub mod RoundTrip
use cc_otel.Prelude.{
  ℕ, zero, suc, ◌+◌, ◌-◌, ◌*◌, ◌/◌, ◌%◌, ltb, leb, ◌==◌, ◌||◌, ◌&&◌, if◌then◌else◌, Bool, true,
  false, Option, none, some, [], ◌∷◌, ◌≡◌, refl,
}
use cc_otel.Prelude.Int.{ℤ, pos, negsuc}
use cc_otel.Prelude.Text.{Text, codes}
use cc_otel.Tokens.{max_int64, min_int64}

-- Each round puts the last digit of n in front; a number of k digits needs k rounds.
unfoldable pub digits : ℕ → ℕ → Text → Text
digits zero n out = out
digits (suc k) n out =
    let rest = digits k (n / 10) ((48 + n % 10) ∷ out) in if n == 0 then out else rest

-- A number below 2^64 has at most 20 digits.
unfoldable pub format_nat : ℕ → Text
format_nat n = if n == 0 then 48 ∷ [] else digits 20 n []

-- strconv.FormatInt(v, 10)
unfoldable pub format_int : ℤ → Text
unfolding format_nat
format_int (pos n) = format_nat n
format_int (negsuc n) = 45 ∷ format_nat (suc n)

abbrev pub is_digit : ℕ → Bool
is_digit c = leb 48 c && leb c 57

unfoldable pub scan : Text → ℕ → Option ℕ
scan [] n = some n
scan (c ∷ s) n = let rest = scan s (n * 10 + (c - 48)) in if is_digit c then rest else none

-- One digit or more.
unfoldable pub parse_nat : Text → Option ℕ
unfolding scan
parse_nat [] = none
parse_nat (c ∷ s) = scan (c ∷ s) 0

pub record Parsed : Type 0 where
  pub value : ℤ
  pub ok : Bool

abbrev pub bad_syntax : Parsed
bad_syntax = record { value = pos 0; ok = false }

unfoldable pub signed : Bool → Option ℕ → Parsed
signed minus none = bad_syntax
signed false (some n) =
    if ltb 9223372036854775807 n
    then record { value = max_int64; ok = false }
    else record { value = pos n; ok = true }
signed true (some zero) = record { value = pos 0; ok = true }
signed true (some (suc n)) =
    if ltb 9223372036854775807 n
    then record { value = min_int64; ok = false }
    else record { value = negsuc n; ok = true }

-- strconv.ParseInt(s, 10, 64)
unfoldable pub parse_int : Text → Parsed
unfolding signed parse_nat
parse_int [] = bad_syntax
parse_int (c ∷ s) =
    if c == 43
    then signed false (parse_nat s)
    else if c == 45
    then signed true (parse_nat s)
    else signed false (parse_nat (c ∷ s))

format_samples :
    (format_int (pos 120) ≡ codes "120") × (format_int min_int64 ≡ codes "-9223372036854775808")
unfolding format_int digits
format_samples = (refl, refl)

parse_samples :
    (parse_int (codes "+7") ≡ record { value = pos 7; ok = true })
    × (parse_int (codes "-0") ≡ record { value = pos 0; ok = true })
    × (parse_int (codes "12a") ≡ bad_syntax)
    × (parse_int (codes "9223372036854775808") ≡ record { value = max_int64; ok = false })
unfolding parse_int
parse_samples = (refl, refl, refl, refl)
