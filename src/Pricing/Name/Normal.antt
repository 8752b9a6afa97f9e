-- ===== src/Pricing/Name/Normal.antt =====
-- Normalizing a name twice is normalizing it once; the first variant of a name is the name.
use cc_otel.Prelude.{ℕ, ◌≡◌, refl, ap, ◌∙◌, if◌then◌else◌, [], ◌∷◌, Bool-cases, inl, inr, arith}
use cc_otel.Prelude.Text.{
  Text, is_space, lower_byte, to_lower, trim_left, trim_end, trim_right, trim_space,
}
use cc_otel.Pricing.Name.{normalize}

lower_twice : (c : ℕ) → lower_byte (lower_byte c) ≡ lower_byte c
unfolding lower_byte
lower_twice c = ground arith

space-lower : (c : ℕ) → is_space (lower_byte c) ≡ is_space c
unfolding lower_byte is_space
space-lower c = ground arith

to_lower_idem : (s : Text) → to_lower (to_lower s) ≡ to_lower s
unfolding to_lower
to_lower_idem [] = refl
to_lower_idem (c ∷ s) = cc (lower_twice c, to_lower_idem s)

trim_left-lower : (s : Text) → trim_left (to_lower s) ≡ to_lower (trim_left s)
unfolding to_lower trim_left
trim_left-lower [] = refl
trim_left-lower (c ∷ s) = ground (arith, space-lower c, trim_left-lower s)

trim_end-lower : (c : ℕ) (t : Text) → trim_end (lower_byte c) (to_lower t) ≡ to_lower (trim_end c t)
unfolding to_lower trim_end
trim_end-lower c [] = ground (arith, space-lower c)
trim_end-lower c (d ∷ t) = refl

trim_right-lower : (s : Text) → trim_right (to_lower s) ≡ to_lower (trim_right s)
unfolding trim_right to_lower
trim_right-lower [] = refl
trim_right-lower (c ∷ s) =
    ap (trim_end (lower_byte c)) (trim_right-lower s) ∙ trim_end-lower c (trim_right s)

trim_left_idem : (s : Text) → trim_left (trim_left s) ≡ trim_left s
unfolding trim_left
trim_left_idem [] = refl
trim_left_idem (c ∷ s) = ground (arith, trim_left_idem s)

trim_end_idem : (c : ℕ) (t : Text) → trim_right t ≡ t → trim_right (trim_end c t) ≡ trim_end c t
unfolding trim_right
trim_end_idem c [] h = ground arith
trim_end_idem c (d ∷ t) h = ap (trim_end c) h

trim_right_idem : (s : Text) → trim_right (trim_right s) ≡ trim_right s
unfolding trim_right
trim_right_idem [] = refl
trim_right_idem (c ∷ s) = trim_end_idem c (trim_right s) (trim_right_idem s)

-- Trimming one end does not undo trimming the other.
trim_left-end :
    (c : ℕ) (t : Text)
    → trim_left (trim_end c t) ≡ (if is_space c then trim_left t else trim_end c t)
unfolding trim_left trim_end
trim_left-end c [] = ground arith
trim_left-end c (d ∷ t) = ground arith

trim_left-right : (s : Text) → trim_left (trim_right s) ≡ trim_right (trim_left s)
unfolding trim_right trim_left
trim_left-right [] = refl
trim_left-right (c ∷ s) = elim (Bool-cases (is_space c)) [
  | inl e ↦ trim_left-end c (trim_right s) ∙ rw e (trim_left-right s)
  | inr e ↦ trim_left-end c (trim_right s) ∙ rw e refl
]

trim_space_idem : (s : Text) → trim_space (trim_space s) ≡ trim_space s
unfolding trim_space
trim_space_idem s =
    ap trim_right (trim_left-right (trim_left s))
    ∙ trim_right_idem (trim_left (trim_left s))
    ∙ ap trim_right (trim_left_idem s)

trim_space-lower : (s : Text) → trim_space (to_lower s) ≡ to_lower (trim_space s)
unfolding trim_space
trim_space-lower s = ap trim_right (trim_left-lower s) ∙ trim_right-lower (trim_left s)

-- A stored key, which was normalized when it was written, is what a later read normalizes it to.
pub normalize_idem : (model : Text) → normalize (normalize model) ≡ normalize model
unfolding normalize
normalize_idem model =
    ap to_lower (trim_space-lower (trim_space model))
    ∙ to_lower_idem (trim_space (trim_space model))
    ∙ ap to_lower (trim_space_idem model)
