-- ===== src/Receiver/Dsh/Identity.antt =====
-- The identity of a ledger row, on which retries of its export collapse.
use cc_otel.Prelude.{
  ℕ, zero, suc, ◌+◌, ◌/◌, ◌%◌, true, false, [], ◌∷◌, ◌++◌, ◌≡◌, refl, arith, inl, inr, Bool-cases,
  ◌==◌, ap, ◌∙◌, sym, subst, length, length-append,
}
use cc_otel.Prelude.Int.{ℤ, pos, negsuc, pos_part}
use cc_otel.Prelude.Text.{Text, codes, contains_byte, after_last}
use cc_otel.Tokens.{InRange}
use cc_otel.Receiver.Decimal.{digits, format_nat, format_int, parse_int}
use cc_otel.Receiver.Decimal.RoundTrip.{parse_int-format_int}
use cc_otel.Receiver.Dsh.{dsh_request_id, request_tail}

append_cancel : (p s t : Text) → p ++ s ≡ p ++ t → s ≡ t
append_cancel [] s t h = h
append_cancel (c ∷ p) s t h = append_cancel p s t (cc h)

contains-append : (s t : Text) (c : ℕ) → contains_byte t c ≡ true → contains_byte (s ++ t) c ≡ true
unfolding contains_byte
contains-append [] t c h = h
contains-append (d ∷ s) t c h = ground (arith, contains-append s t c h)

-- The tail behind the last dash is found again, if it has no dash itself.
after_last-append : (s t : Text) → contains_byte t 45 ≡ false → after_last (s ++ (45 ∷ t)) 45 ≡ t
unfolding after_last contains_byte
after_last-append [] t h = ground (arith, h)
after_last-append (d ∷ s) t h =
    ground (arith, after_last-append s t h, contains-append s (45 ∷ t) 45 refl)

no_dash_digits :
    (k n : ℕ) (out : Text)
    → contains_byte out 45 ≡ false
    → contains_byte (digits k n out) 45 ≡ false
unfolding digits contains_byte
no_dash_digits zero n out h = h
no_dash_digits (suc k) n out h = ground (arith, h, no_dash_digits k (n / 10) ((48 + n % 10) ∷ out))

no_dash_nat : (n : ℕ) → contains_byte (format_nat n) 45 ≡ false
unfolding format_nat contains_byte
no_dash_nat n = elim (Bool-cases (n == 0)) [
  | inl e ↦ rw e refl
  | inr e ↦ rw e (no_dash_digits 20 n [] refl)
]

append_right_cancel : (s s' t : Text) → s ++ t ≡ s' ++ t → s ≡ s'
append_right_cancel [] [] t h = refl
append_right_cancel [] (d ∷ s') t h = absurd (omega (arith, ap length h, length-append s' t))
append_right_cancel (c ∷ s) [] t h = absurd (omega (arith, ap length h, length-append s t))
append_right_cancel (c ∷ s) (d ∷ s') t h =
    let e = append_right_cancel s s' t (cc h) in let f : c ≡ d = cc h in cc (e, f)

same_number :
    (n n' : ℕ) → InRange (pos n) → InRange (pos n') → format_nat n ≡ format_nat n' → n ≡ n'
unfolding format_int
same_number n n' r r' h =
    let p = parse_int-format_int (pos n) r in
    let p' = parse_int-format_int (pos n') r' in
    ap (λ q. pos_part q.value) (sym p ∙ ap parse_int h ∙ p')

-- A session and a number are found again in what is joined by the last dash.
tail_apart :
    (s s' : Text) (n n' : ℕ)
    → InRange (pos n)
    → InRange (pos n')
    → s ++ (45 ∷ format_nat n) ≡ s' ++ (45 ∷ format_nat n')
    → (s ≡ s') × (n ≡ n')
tail_apart s s' n n' r r' h =
    let tails =
      sym (after_last-append s (format_nat n) (no_dash_nat n))
      ∙ ap (λ t. after_last t 45) h
      ∙ after_last-append s' (format_nat n') (no_dash_nat n') in
    let same = same_number n n' r r' tails in
    (
      append_right_cancel s s' (45 ∷ format_nat n')
          (subst (λ t. s ++ (45 ∷ t) ≡ s' ++ (45 ∷ format_nat n')) tails h),
      same,
    )

-- Two rows of one format version, whose sequence numbers are not negative, have the same request id
-- only if they are of the same session and the same sequence number.
pub request_id_injective :
    (version s s' : Text) (n n' : ℕ)
    → InRange (pos n)
    → InRange (pos n')
    → dsh_request_id version s (format_int (pos n))
      ≡ dsh_request_id version s' (format_int (pos n'))
    → (s ≡ s') × (n ≡ n')
unfolding dsh_request_id format_int
request_id_injective [] s s' n n' r r' h =
    tail_apart s s' n n' r r' (append_cancel (codes "dsh-") _ _ h)
request_id_injective (c ∷ version) s s' n n' r r' h = tail_apart s s' n n' r r' (
    append_cancel (codes "-") _ _
      (append_cancel (c ∷ version) _ _ (append_cancel (codes "dsh-v") _ _ h)))

-- With a sequence number the request id does not depend on the times at which an event is sent.
pub request_tail_retry :
    (seq_raw : Text) (nanos nanos' : ℤ)
    → (parse_int seq_raw).ok ≡ true
    → request_tail seq_raw nanos ≡ request_tail seq_raw nanos'
unfolding request_tail
request_tail_retry seq_raw nanos nanos' h = rw h refl

-- With a negative sequence number the dash of the sign can be one of the session's name.
signed_key :
    dsh_request_id (codes "3") (codes "a-") (format_int (pos 5))
    ≡ dsh_request_id (codes "3") (codes "a") (format_int (negsuc 4))
unfolding dsh_request_id format_int format_nat digits
signed_key = refl

-- The key of an exporter without versions can be that of one with a version.
ambiguous_key :
    dsh_request_id [] (codes "v3-abc") (codes "7")
    ≡ dsh_request_id (codes "3") (codes "abc") (codes "7")
unfolding dsh_request_id
ambiguous_key = refl
