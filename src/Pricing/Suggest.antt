-- ===== src/Pricing/Suggest.antt =====
-- internal/pricing/suggest.go: which providers of a model are official, and the order in which
-- they are offered.
use cc_otel.Prelude.{
  ℕ, ◌≡◌, refl, Bool, true, false, not, ◌||◌, ◌==◌, if◌then◌else◌, List, [], ◌∷◌, ◌++◌, arith,
}
use cc_otel.Prelude.Text.{Text, codes, text_eq, has_prefix, contains_byte, to_lower, trim_space}
use cc_otel.Pricing.Name.{normalize}

-- The part in front of the first such byte.
unfoldable pub before_first : ℕ → Text → Text
before_first c [] = []
before_first c (b ∷ s) = let rest = before_first c s in if b == c then [] else b ∷ rest

unfoldable pub org_of : Text → Text
org_of id = if contains_byte id b'/' then normalize (before_first b'/' id) else []

unfoldable pub is_official_tag : Text → Text → Bool
is_official_tag tag org =
    let t = normalize tag in
    if text_eq org [] then false else text_eq t org || has_prefix t (org ++ b'/' ∷ [])

unfoldable pub without_sep : Text → Text
without_sep [] = []
without_sep (c ∷ s) =
    let rest = without_sep s in
    if c == b'-' || c == b'_' || c == b'.' || c == b' ' then rest else c ∷ rest

unfoldable pub strip_sep : Text → Text
strip_sep s = without_sep (to_lower (trim_space s))

unfoldable pub is_official_provider : Text → Text → Bool
is_official_provider name org =
    if text_eq org [] then false else text_eq (strip_sep name) (strip_sep org)

unfoldable pub starts_with_any : Text → List Text → Bool
starts_with_any q [] = false
starts_with_any q (p ∷ ps) = has_prefix q p || starts_with_any q ps

abbrev pub low_bit_quants : List Text
low_bit_quants =
    codes "fp4"
    ∷ codes "fp6"
    ∷ codes "int4"
    ∷ codes "int3"
    ∷ codes "int2"
    ∷ codes "nf4"
    ∷ codes "q4"
    ∷ codes "q3"
    ∷ codes "q2"
    ∷ []

unfoldable pub quant_label : Text → Text
quant_label quant =
    let q = to_lower (trim_space quant) in
    if text_eq q [] || text_eq q (codes "unknown") || text_eq q (codes "none")
    then []
    else if starts_with_any q low_bit_quants
    then codes "quantized"
    else []

-- What the order reads of a ProviderSuggestion; `quote` is the rest of it.
pub record ProviderSuggestion (Q : Type 0) : Type 0 where
  pub provider : Text
  pub official : Bool
  pub quote : Q

module _ {Q : Type 0} where
  -- The loop: the official ones and the rest.
  unfoldable pub split_official :
      List (ProviderSuggestion Q) → List (ProviderSuggestion Q) × List (ProviderSuggestion Q)
  split_official [] = ([], [])
  split_official (p ∷ ps) =
      let (out, rest) = split_official ps in if p.official then (p ∷ out, rest) else (out, p ∷ rest)

  unfoldable pub order_providers_official_first :
      List (ProviderSuggestion Q) → List (ProviderSuggestion Q)
  order_providers_official_first all = let (out, rest) = split_official all in out ++ rest

  -- The providers with that mark, in their order.
  unfoldable pub marked : Bool → List (ProviderSuggestion Q) → List (ProviderSuggestion Q)
  marked b [] = []
  marked b (p ∷ ps) =
      let rest = marked b ps in
      if (if b then p.official else not p.official) then p ∷ rest else rest

  split-marked :
      (ps : List (ProviderSuggestion Q)) → split_official ps ≡ (marked true ps, marked false ps)
  unfolding split_official marked
  split-marked [] = refl
  split-marked (p ∷ ps) = ground (arith, split-marked ps)

  -- Every provider is offered: the official ones first and then the others, each in the order in
  -- which they came.
  pub order_providers_lem :
      (all : List (ProviderSuggestion Q))
      → order_providers_official_first all ≡ marked true all ++ marked false all
  unfolding order_providers_official_first
  order_providers_lem all = ground (arith, split-marked all)
