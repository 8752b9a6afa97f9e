-- ===== src/Pricing/Basename/Candidates.antt =====
-- Which keys are candidates for a bare name, and which one the fallback returns.
use cc_otel.Prelude.{
  ℕ, ◌≡◌, refl, ap, ◌∙◌, sym, ◌↔◌, ◌⊎◌, ◌<◌, inl, inr, true, false, ◌&&◌, ◌||◌, List, [], ◌∷◌, ◌++◌,
  Bool-cases, arith,
}
use mathlib.Core.Bool.{false≢true}
use cc_otel.Prelude.Text.{Text, text_eq, text_eq_iff, text_lt, count, contains_byte, after_last}
use cc_otel.Prelude.Table.{contains}
use cc_otel.Pricing.Match.Prefixes.{SameKeys}
use cc_otel.Pricing.Basename.{
  is_candidate, collect, sort_insert, sort_strings, basename_candidates, basename_candidate_less,
  pick_basename_winner,
}
use cc_otel.Pricing.Basename.Winner.{less_total, pick-IsWinner}

-- q stands behind the last '/' of k exactly when k is a provider's text, '/' and q.
after_last-split :
    (q k : Text)
    → contains_byte q b'/' ≡ false
    → contains_byte k b'/' ≡ true
    → text_eq (after_last k b'/') q ≡ true
    → (p : Text) × (k ≡ p ++ b'/' ∷ q)
unfolding contains_byte after_last
after_last-split q [] nq h e = cc
after_last-split q (c ∷ k) nq h e = elim (Bool-cases (contains_byte k b'/')) [
  | inl s ↦ let (p, x) = after_last-split q k nq s (ground arith) in (c ∷ p, ap (λ t. c ∷ t) x)
  | inr s ↦ ([], ground (arith, text_eq_iff k q))
]

split-after_last :
    (q p : Text)
    → contains_byte q b'/' ≡ false
    → (contains_byte (p ++ b'/' ∷ q) b'/' ≡ true) × (after_last (p ++ b'/' ∷ q) b'/' ≡ q)
unfolding contains_byte after_last
split-after_last q [] nq = (refl, rw nq)
split-after_last q (c ∷ p) nq = let (h, e) = split-after_last q p nq in (ground arith, ground arith)

split-not_empty : (p q : Text) → text_eq (p ++ b'/' ∷ q) [] ≡ false
unfolding text_eq
split-not_empty [] q = refl
split-not_empty (c ∷ p) q = refl

-- For a bare name q, the candidates are the keys of the form provider/q.
pub is_candidate_iff :
    (q k : Text)
    → contains_byte q b'/' ≡ false
    → (is_candidate q k ≡ true) ↔ ((p : Text) × (k ≡ p ++ b'/' ∷ q))
is_candidate_iff q k nq = (
  λ h.
      after_last-split q k nq (unfold is_candidate in ground arith)
        (unfold is_candidate in ground arith),
  λ (p, e).
      unfold is_candidate in
      ground (
        arith,
        split-after_last q p nq,
        text_eq_iff (after_last k b'/') q,
        text_eq_iff k [],
        split-not_empty p q,
      ),
)

contains-collect :
    (q k : Text) (ks : List Text) → contains k (collect q ks) ≡ (contains k ks && is_candidate q k)
unfolding contains collect
contains-collect q k [] = refl
contains-collect q k (j ∷ ks) = ground (arith, contains-collect q k ks, text_eq_iff j k)

contains-sort_insert :
    (j k : Text) (ks : List Text) → contains k (sort_insert j ks) ≡ (text_eq j k || contains k ks)
unfolding contains sort_insert
contains-sort_insert j k [] = refl
contains-sort_insert j k (i ∷ ks) = ground (arith, contains-sort_insert j k ks)

contains-sort_strings : (k : Text) (ks : List Text) → contains k (sort_strings ks) ≡ contains k ks
unfolding contains sort_strings
contains-sort_strings k [] = refl
contains-sort_strings k (j ∷ ks) =
    ground (arith, contains-sort_strings k ks, contains-sort_insert j k (sort_strings ks))

contains-candidates :
    (q k : Text) (ks : List Text)
    → contains_byte q b'/' ≡ false
    → contains k (basename_candidates q ks) ≡ (contains k ks && is_candidate q k)
unfolding basename_candidates
contains-candidates q k ks nq =
    ground (arith, contains-sort_strings k (collect q ks), contains-collect q k ks)

no_empty_candidate :
    (q : Text) (ks : List Text)
    → contains_byte q b'/' ≡ false
    → contains [] (basename_candidates q ks) ≡ false
unfolding is_candidate
no_empty_candidate q ks nq = ground (arith, contains-candidates q [] ks nq, text_eq_iff [] [])

-- The key of a provider for the bare name q: some text, '/' and q.
abbrev pub IsProviders : Text → Text → Type 0
IsProviders q k = (p : Text) × (k ≡ p ++ b'/' ∷ q)

-- `a` is preferred to `b`: it has fewer '/', or as many and the higher source rank, or the same of
-- both and the smaller text.
abbrev pub Preferred : (Text → ℕ) → Text → Text → Type 0
Preferred rank a b =
    (count a b'/' < count b b'/')
    ⊎ ((count a b'/' ≡ count b b'/')
        × ((rank b < rank a) ⊎ ((rank a ≡ rank b) × (text_lt a b ≡ true))))

Preferred-less :
    (rank : Text → ℕ) (a b : Text) → Preferred rank a b → basename_candidate_less a b rank ≡ true
unfolding basename_candidate_less
Preferred-less rank a b (inl h) = ground (arith, h)
Preferred-less rank a b (inr (e, inl h)) = ground (arith, e, h)
Preferred-less rank a b (inr (e, inr (f, h))) = ground (arith, e, f, h)

-- What the fallback finds for a bare name: a candidate that no other beats, if there is any.
pub record Falls (rank : Text → ℕ) (q : Text) (ks : List Text) (found : List Text) : Type 0 where
  pub none_left : found ≡ [] → (k : Text) → contains k ks ≡ true → ¬ IsProviders q k
  pub winner :
      (d : Text) (ds : List Text)
      → found ≡ d ∷ ds
      → let w = pick_basename_winner found rank in
        (contains w ks ≡ true)
        × IsProviders q w
        × ((k : Text) → contains k ks ≡ true → IsProviders q k → ¬ Preferred rank k w)

-- For a bare name, the candidates are empty only if no key has the form provider/name; otherwise
-- the winner is a key of that form that no key of that form is preferred to, by fewer segments,
-- then by the higher source rank, then by the text.
pub basename_winner-Falls :
    (rank : Text → ℕ) (q : Text) (ks : List Text)
    → contains_byte q b'/' ≡ false
    → Falls rank q ks (basename_candidates q ks)
basename_winner-Falls rank q ks nq = record {
  none_left = λ e k m own.
      let fits = (is_candidate_iff q k nq).1 own in
      ground (arith, contains-candidates q k ks nq, in_none k e, fits);
  winner = λ d ds e.
      let (m, unbeaten) =
        rw (← e) at (pick-IsWinner rank d ds (rw (← e) (no_empty_candidate q ks nq))) in
      let w = pick_basename_winner (basename_candidates q ks) rank in
      (
        ground (arith, contains-candidates q w ks nq),
        (is_candidate_iff q w nq).0 (ground (arith, contains-candidates q w ks nq)),
        λ k c own p.
            let fits = (is_candidate_iff q k nq).1 own in
            let beaten = unbeaten k (contains-candidates q k ks nq ∙ ground arith) in
            false≢true (sym beaten ∙ Preferred-less rank k w p),
      );
}
  where
    in_none :
        (k : Text) → basename_candidates q ks ≡ [] → contains k (basename_candidates q ks) ≡ false
    in_none k e = rw e (unfold contains in refl)

same_winner :
    (rank : Text → ℕ) (cs ds : List Text)
    → SameKeys cs ds
    → contains [] cs ≡ false
    → pick_basename_winner cs rank ≡ pick_basename_winner ds rank
unfolding contains
same_winner rank [] [] same z = refl
same_winner rank [] (d ∷ ds) same z = absurd (false≢true (same d ∙ ground (arith, text_eq_iff d d)))
same_winner rank (c ∷ cs) [] same z =
    absurd (false≢true (sym (same c) ∙ ground (arith, text_eq_iff c c)))
same_winner rank (c ∷ cs) (d ∷ ds) same z =
    let (m, u) = pick-IsWinner rank c cs z in
    let (n, v) = pick-IsWinner rank d ds (sym (same []) ∙ z) in
    let w = pick_basename_winner (c ∷ cs) rank in
    let x = pick_basename_winner (d ∷ ds) rank in
    less_total rank w x (v w (sym (same w) ∙ m)) (u x (same x ∙ n))

-- In every order in which the map of keys is visited the fallback has the same winner.
pub basename_winner_any_order :
    (rank : Text → ℕ) (q : Text) (ks js : List Text)
    → contains_byte q b'/' ≡ false
    → SameKeys ks js
    → pick_basename_winner (basename_candidates q ks) rank
      ≡ pick_basename_winner (basename_candidates q js) rank
basename_winner_any_order rank q ks js nq same =
    same_winner rank (basename_candidates q ks) (basename_candidates q js)
      (λ k.
        contains-candidates q k ks nq
        ∙ ap (λ b. b && is_candidate q k) (same k)
        ∙ sym (contains-candidates q k js nq))
      (no_empty_candidate q ks nq)
