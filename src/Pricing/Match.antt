-- ===== src/Pricing/Match.antt =====
-- internal/pricing/match.go: how a model name resolves to a key of the price table.
pub mod Prefixes
pub mod Resolution
use cc_otel.Prelude.{
  ℕ, ◌+◌, ◌-◌, ◌≡◌, refl, Bool, ◌&&◌, ◌||◌, not, ltb, leb, ◌==◌, if◌then◌else◌, Option, none, some,
  List, [], ◌∷◌, ◌++◌, length, get_or,
}
use cc_otel.Prelude.Text.{Text, codes, text_eq, has_prefix}
use cc_otel.Prelude.Table.{Table, contains, lookup}
use cc_otel.Pricing.Name.{normalize, strip_variants}

pub data MatchKind : Type 0 where
  exact alias prefix basename miss : MatchKind

-- The first variant that is a key.
unfoldable pub first_key : List Text → List Text → Option Text
unfolding contains
first_key [] keys = none
first_key (v ∷ vs) keys = let rest = first_key vs keys in if contains v keys then some v else rest

-- The canonical key of the first variant that is an alias.
unfoldable pub first_alias : List Text → Table Text → Option Text
first_alias [] index = none
first_alias (v ∷ vs) index = elim (lookup v index) [
  | some canonical ↦ some canonical
  | none ↦ first_alias vs index
]

-- One round of the loop for the longest prefix.
unfoldable pub prefix_step : Text → Text → Text → Text
unfolding text_eq has_prefix
prefix_step q best k =
    if text_eq k [] || leb (length q) (length k)
    then best
    else if not (has_prefix q k)
    then best
    else let next = get_or q (length k) 0 in
      if not (next == b'-') && not (next == b'.') && not (next == b':')
      then best
      else if ltb (length best) (length k)
      then k
      else best

unfoldable pub longest_prefix : Text → Text → List Text → Text
unfolding prefix_step
longest_prefix q best [] = best
longest_prefix q best (k ∷ ks) = longest_prefix q (prefix_step q best k) ks

-- matchKey
unfoldable pub match_key : Text → List Text → Table Text → Text × MatchKind
unfolding first_key first_alias longest_prefix
match_key query keys alias_index =
    let q = normalize query in
    if text_eq q [] then ([], miss) else elim (first_key (strip_variants q) keys) [
      | some v ↦ (v, exact)
      | none ↦ elim (lookup q alias_index) [
        | some canonical ↦ (canonical, alias)
        | none ↦ elim (first_alias (strip_variants q) alias_index) [
          | some canonical ↦ (canonical, alias)
          | none ↦
              let best = longest_prefix q [] keys in
              if text_eq best [] then ([], miss) else (best, prefix)
        ]
      ]
    ]
