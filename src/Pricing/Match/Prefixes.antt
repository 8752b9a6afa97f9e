-- ===== src/Pricing/Match/Prefixes.antt =====
-- The loop for the longest prefix against a description of boundary prefixes.
use cc_otel.Prelude.{
  ℕ, ◌≤◌, ◌<◌, ◌≡◌, ◌≢◌, refl, ap, ◌∙◌, sym, ◌⊎◌, inl, inr, Bool, true, false, ◌&&◌, ◌||◌, not, ltb,
  leb, ◌==◌, if◌then◌else◌, List, [], ◌∷◌, ◌++◌, length, get_or, arith,
}
use cc_otel.Prelude.Text.{Text, text_eq, text_eq_iff, has_prefix}
use cc_otel.Prelude.Table.{contains}
use cc_otel.Pricing.Match.{prefix_step, longest_prefix}

-- '-', '.' or ':'
abbrev pub is_separator : ℕ → Bool
is_separator c = c == b'-' || c == b'.' || c == b':'

-- The text q goes on behind k with a separator.
pub record Extends (q k : Text) : Type 0 where
  pub separator : ℕ
  pub rest : Text
  pub splits : q ≡ k ++ separator ∷ rest
  pub separates : is_separator separator ≡ true
  pub not_empty : k ≢ []

-- The same as a test by recursion.
unfoldable pub extends : Text → Text → Bool
extends [] [] = false
extends (c ∷ q) [] = is_separator c
extends [] (d ∷ k) = false
extends (c ∷ q) (d ∷ k) = c == d && extends q k

extends_lem :
    (q k : Text)
    → (not (leb (length q) (length k)) && has_prefix q k && is_separator (get_or q (length k) 0))
      ≡ extends q k
unfolding extends has_prefix
extends_lem [] [] = refl
extends_lem (c ∷ q) [] = ground arith
extends_lem [] (d ∷ k) = ground arith
extends_lem (c ∷ q) (d ∷ k) = ground (arith, extends_lem q k)

unfoldable pub qualifies : Text → Text → Bool
qualifies q k = not (text_eq k []) && extends q k

-- One round keeps the longer of the best key so far and a qualifying key.
pub prefix_step_lem :
    (q best k : Text)
    → prefix_step q best k ≡ (if qualifies q k && ltb (length best) (length k) then k else best)
unfolding prefix_step qualifies
prefix_step_lem q best k = ground (arith, extends_lem q k)

extends→splits :
    (q k : Text)
    → extends q k ≡ true
    → (c : ℕ) × (rest : Text) × (q ≡ k ++ c ∷ rest) × (is_separator c ≡ true)
unfolding extends
extends→splits [] [] h = cc
extends→splits (c ∷ q) [] h = (c, q, refl, h)
extends→splits [] (d ∷ k) h = cc
extends→splits (c ∷ q) (d ∷ k) h =
    let (s, rest, e, sep) = extends→splits q k (ground arith) in (s, rest, ground arith, sep)

splits→extends :
    (k : Text) (c : ℕ) (rest : Text) → is_separator c ≡ true → extends (k ++ c ∷ rest) k ≡ true
unfolding extends
splits→extends [] c rest h = h
splits→extends (d ∷ k) c rest h = ground (arith, splits→extends k c rest h)

qualifies→extends : (q k : Text) → qualifies q k ≡ true → extends q k ≡ true
unfolding qualifies
qualifies→extends q k h = ground arith

pub qualifies→Extends : (q k : Text) → qualifies q k ≡ true → Extends q k
unfolding qualifies text_eq
qualifies→Extends q k h =
    let (s, rest, e, sep) = extends→splits q k (ground arith) in
    record {
      separator = s;
      rest = rest;
      splits = e;
      separates = sep;
      not_empty = λ z. ground (arith, text_eq_iff k []);
    }

pub Extends→qualifies : (q k : Text) → Extends q k → qualifies q k ≡ true
unfolding qualifies
Extends→qualifies q k x = ground (
  arith,
  x.splits,
  x.not_empty,
  text_eq_iff k [],
  splits→extends k x.separator x.rest x.separates,
)

-- Two prefixes of one text with one length are one.
extends_unique :
    (q k j : Text) → extends q k ≡ true → extends q j ≡ true → length k ≡ length j → k ≡ j
unfolding extends
extends_unique q [] [] a b e = refl
extends_unique q [] (d ∷ j) a b e = absurd (omega arith)
extends_unique q (d ∷ k) [] a b e = absurd (omega arith)
extends_unique [] (d ∷ k) (f ∷ j) a b e = cc
extends_unique (c ∷ q) (d ∷ k) (f ∷ j) a b e =
    ground (arith, extends_unique q k j (ground arith) (ground arith) (omega arith))

pub longest_prefix-le :
    (q best : Text) (ks : List Text) → length best ≤ length (longest_prefix q best ks)
unfolding longest_prefix
longest_prefix-le q best [] = omega arith
longest_prefix-le q best (k ∷ ks) =
    ground (arith, prefix_step_lem q best k, longest_prefix-le q (prefix_step q best k) ks)

pub longest_prefix_from :
    (q best : Text) (ks : List Text)
    → let r = longest_prefix q best ks in
      (r ≡ best) ⊎ ((contains r ks ≡ true) × (qualifies q r ≡ true))
unfolding longest_prefix contains
longest_prefix_from q best [] = inl refl
longest_prefix_from q best (k ∷ ks) = ground (
  arith,
  prefix_step_lem q best k,
  longest_prefix_from q (prefix_step q best k) ks,
  text_eq_iff k (longest_prefix q (prefix_step q best k) ks),
)

pub longest_prefix_longest :
    (q best : Text) (ks : List Text) (k : Text)
    → contains k ks ≡ true
    → qualifies q k ≡ true
    → length k ≤ length (longest_prefix q best ks)
unfolding longest_prefix contains
longest_prefix_longest q best [] k m h = cc
longest_prefix_longest q best (j ∷ ks) k m h = ground (
  arith,
  prefix_step_lem q best j,
  longest_prefix-le q (prefix_step q best j) ks,
  longest_prefix_longest q (prefix_step q best j) ks k,
  text_eq_iff j k,
)

-- Two key lists with the same keys: one map, visited in two orders.
abbrev pub SameKeys : List Text → List Text → Type 0
SameKeys ks js = (k : Text) → contains k ks ≡ contains k js

qualifies_pos : (q k : Text) → qualifies q k ≡ true → 0 < length k
unfolding qualifies text_eq
qualifies_pos q [] h = cc
qualifies_pos q (c ∷ k) h = omega arith

-- A result that qualifies is at least as long as the result over the same keys in another order.
at_least :
    (q : Text) (ks js : List Text)
    → SameKeys ks js
    → length (longest_prefix q [] js) ≤ length (longest_prefix q [] ks)
at_least q ks js same = elim (longest_prefix_from q [] js) [
  | inl e ↦ omega (arith, ap (length {A = ℕ}) e)
  | inr (m, h) ↦
      longest_prefix_longest q [] ks (longest_prefix q [] js) (same (longest_prefix q [] js) ∙ m) h
]

-- Whatever the order in which the map is visited, the loop ends with the same key.
pub longest_prefix_any_order :
    (q : Text) (ks js : List Text)
    → SameKeys ks js
    → longest_prefix q [] ks ≡ longest_prefix q [] js
longest_prefix_any_order q ks js same =
    both (longest_prefix_from q [] ks) (longest_prefix_from q [] js)
  where
    r : Text
    r = longest_prefix q [] ks

    t : Text
    t = longest_prefix q [] js

    even : length r ≡ length t
    even = omega (arith, at_least q ks js same, at_least q js ks (λ k. sym (same k)))

    both :
        (r ≡ []) ⊎ ((contains r ks ≡ true) × (qualifies q r ≡ true))
        → (t ≡ []) ⊎ ((contains t js ≡ true) × (qualifies q t ≡ true))
        → r ≡ t
    both (inl a) (inl b) = a ∙ sym b
    both (inl a) (inr (m, h)) =
        absurd (omega (arith, even, ap (length {A = ℕ}) a, qualifies_pos q t h))
    both (inr (m, h)) (inl b) =
        absurd (omega (arith, even, ap (length {A = ℕ}) b, qualifies_pos q r h))
    both (inr (m, h)) (inr (n, g)) =
        extends_unique q r t (qualifies→extends q r h) (qualifies→extends q t g) even
