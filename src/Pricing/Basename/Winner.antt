-- ===== src/Pricing/Basename/Winner.antt =====
-- The winner among the candidates: the least in a strict total order, in every order of the map.
use mathlib.Core.Path.{subst}
use cc_otel.Prelude.{
  ℕ, ◌≡◌, refl, ap, sym, ◌⊎◌, inl, inr, Bool, true, false, List, [], ◌∷◌, Bool-cases, arith,
}
use cc_otel.Prelude.Text.{Text, text_eq, text_eq_iff, text_lt}
use cc_otel.Prelude.Table.{contains}
use cc_otel.Pricing.Basename.{basename_candidate_less, pick_from, pick_basename_winner}

text_lt_irrefl : (s : Text) → text_lt s s ≡ false
unfolding text_lt
text_lt_irrefl [] = refl
text_lt_irrefl (c ∷ s) = ground (arith, text_lt_irrefl s)

text_lt_trans : (s t u : Text) → text_lt s t ≡ true → text_lt t u ≡ true → text_lt s u ≡ true
unfolding text_lt
text_lt_trans s t [] a b = cc
text_lt_trans s [] (e ∷ u) a b = cc
text_lt_trans [] (d ∷ t) (e ∷ u) a b = refl
text_lt_trans (c ∷ s) (d ∷ t) (e ∷ u) a b = ground (arith, text_lt_trans s t u)

text_lt_total : (s t : Text) → text_lt s t ≡ false → text_lt t s ≡ false → s ≡ t
unfolding text_lt
text_lt_total [] [] a b = refl
text_lt_total [] (d ∷ t) a b = cc
text_lt_total (c ∷ s) [] a b = cc
text_lt_total (c ∷ s) (d ∷ t) a b = ground (arith, text_lt_total s t)

module _ (rank : Text → ℕ) where
  abbrev pub less : Text → Text → Bool
  less a b = basename_candidate_less a b rank

  less_irrefl : (a : Text) → less a a ≡ false
  unfolding basename_candidate_less
  less_irrefl a = ground (arith, text_lt_irrefl a)

  less_trans : (a b c : Text) → less a b ≡ true → less b c ≡ true → less a c ≡ true
  unfolding basename_candidate_less
  less_trans a b c p q = ground (arith, text_lt_trans a b c)

  pub less_total : (a b : Text) → less a b ≡ false → less b a ≡ false → a ≡ b
  unfolding basename_candidate_less
  less_total a b p q = ground (arith, text_lt_total a b)

  -- Not being beaten passes on along the order.
  unbeaten_below : (a b w : Text) → less a b ≡ true → less a w ≡ false → less b w ≡ false
  unbeaten_below a b w p q = ground (arith, less_trans a b w)

  unbeaten_trans : (a b w : Text) → less a b ≡ false → less b w ≡ false → less a w ≡ false
  unbeaten_trans a b w p q = ground (
    arith,
    less_total b w q,
    λ (e : less w b ≡ true). λ (f : less a w ≡ true). less_trans a w b f e,
  )

  -- What one pass over the candidates, none of them empty, keeps.
  abbrev Unbeaten : Text → List Text → Text → Type 0
  Unbeaten best cs w =
      ((w ≡ best) ⊎ (contains w cs ≡ true))
      × (less best w ≡ false)
      × ((c : Text) → contains c cs ≡ true → less c w ≡ false)

  Unbeaten-new :
      (best d : Text) (cs : List Text) (w : Text)
      → less d best ≡ true
      → Unbeaten d cs w
      → Unbeaten best (d ∷ cs) w
  unfolding contains
  Unbeaten-new best d cs w e (from, first, others) = (
    inr (ground (arith, from, text_eq_iff d w)),
    unbeaten_below d best w e first,
    λ c m. ground (arith, first, others c, text_eq_iff d c),
  )

  Unbeaten-old :
      (best d : Text) (cs : List Text) (w : Text)
      → less d best ≡ false
      → Unbeaten best cs w
      → Unbeaten best (d ∷ cs) w
  unfolding contains
  Unbeaten-old best d cs w e (from, first, others) = (
    ground (arith, from, text_eq_iff d w),
    first,
    λ c m. ground (arith, others c, text_eq_iff d c, unbeaten_trans d best w e first),
  )

  -- One round of the loop over the candidates.
  pick_new :
      (best d : Text) (cs : List Text)
      → text_eq best [] ≡ false
      → less d best ≡ true
      → pick_from best (d ∷ cs) rank ≡ pick_from d cs rank
  unfolding pick_from
  pick_new best d cs ne e = ap (λ b. pick_from b cs rank) (rw (ne, e) refl)

  pick_old :
      (best d : Text) (cs : List Text)
      → text_eq best [] ≡ false
      → less d best ≡ false
      → pick_from best (d ∷ cs) rank ≡ pick_from best cs rank
  unfolding pick_from
  pick_old best d cs ne e = ap (λ b. pick_from b cs rank) (rw (ne, e) refl)

  pick_from-Unbeaten :
      (best : Text) (cs : List Text)
      → text_eq best [] ≡ false
      → contains [] cs ≡ false
      → Unbeaten best cs (pick_from best cs rank)
  unfolding contains
  pick_from-Unbeaten best [] ne z = unfold pick_from in (inl refl, less_irrefl best, λ c m. cc)
  pick_from-Unbeaten best (d ∷ cs) ne z = elim (Bool-cases (less d best)) [
    | inl e ↦ subst (Unbeaten best (d ∷ cs)) (sym (pick_new best d cs ne e)) (
        Unbeaten-new best d cs (pick_from d cs rank) e
          (pick_from-Unbeaten d cs (ground arith) (ground arith)))
    | inr e ↦ subst (Unbeaten best (d ∷ cs)) (sym (pick_old best d cs ne e)) (
        Unbeaten-old best d cs (pick_from best cs rank) e
          (pick_from-Unbeaten best cs ne (ground arith)))
  ]

  -- The winner of a list of candidates, none of them empty.
  abbrev pub IsWinner : List Text → Text → Type 0
  IsWinner cs w = (contains w cs ≡ true) × ((c : Text) → contains c cs ≡ true → less c w ≡ false)

  Unbeaten-IsWinner : (d : Text) (cs : List Text) (w : Text) → Unbeaten d cs w → IsWinner (d ∷ cs) w
  unfolding contains
  Unbeaten-IsWinner d cs w (from, first, others) = (
    ground (arith, from, text_eq_iff d w),
    λ c m. ground (arith, first, others c, text_eq_iff d c),
  )

  pub pick-IsWinner :
      (d : Text) (cs : List Text)
      → contains [] (d ∷ cs) ≡ false
      → IsWinner (d ∷ cs) (pick_basename_winner (d ∷ cs) rank)
  unfolding pick_basename_winner pick_from contains text_eq
  pick-IsWinner d cs z =
      Unbeaten-IsWinner d cs (pick_from d cs rank)
        (pick_from-Unbeaten d cs (ground arith) (ground arith))
