-- ===== src/Pricing/Tests.antt =====
-- The pricing package at concrete names.
use cc_otel.Prelude.{ℕ, ◌+◌, ◌*◌, ◌≡◌, refl, true, false, leb, ◌==◌, none, List, [], ◌∷◌, arith}
use cc_otel.Prelude.Int.{pos, pos_part}
use cc_otel.Prelude.Text.{Text, codes, text_eq, contains_byte}
use cc_otel.Prelude.Table.{contains, lookup}
use cc_otel.Tokens.{max_int64}
use cc_otel.Pricing.Name.{normalize, is_upstream_authoritative, strip_variants}
use cc_otel.Pricing.Price.{Floats}
use cc_otel.Pricing.Match.{match_key, prefix}
use cc_otel.Pricing.Match.Prefixes.{SameKeys}
use cc_otel.Pricing.Match.Resolution.{Resolves, match_key-Resolves, match_key_any_order}
use cc_otel.Pricing.Basename.{basename_candidates, basename_candidate_less, pick_basename_winner}
use cc_otel.Pricing.Basename.Candidates.{Falls, basename_winner-Falls, basename_winner_any_order}
use cc_otel.Pricing.Suggest.{
  ProviderSuggestion, is_official_provider, org_of, strip_sep, without_sep, before_first,
}
use cc_otel.Pricing.Admin.{requested_page}
use cc_otel.Pricing.Admin.Pages.{greatest_page_panics}

variants_of_tagged :
    strip_variants (codes "glm-4.6-20250805-preview")
    ≡ codes "glm-4.6-20250805-preview" ∷ codes "glm-4.6-20250805" ∷ codes "glm-4.6" ∷ []
unfolding strip_variants
variants_of_tagged = refl

authoritative_folds_case :
    is_upstream_authoritative (codes " Claude-Code ") (codes "Claude-Opus-4-1") ≡ true
unfolding is_upstream_authoritative
authoritative_folds_case = refl

other_client_not_authoritative :
    is_upstream_authoritative (codes "opencode") (codes "claude-opus-4-1") ≡ false
unfolding is_upstream_authoritative
other_client_not_authoritative = refl

abbrev models : List Text
models = codes "gpt-5" ∷ codes "gpt-5-codex" ∷ codes "z-ai/glm-5" ∷ codes "a/b/glm-5" ∷ []

longest_wins : match_key (codes "GPT-5-codex-mini") models [] ≡ (codes "gpt-5-codex", prefix)
unfolding match_key strip_variants normalize contains text_eq lookup
longest_wins = refl

match_key-Resolves_example :
    Resolves
      (normalize (codes "gpt-5-codex-mini"))
      models
      []
      (match_key (codes "gpt-5-codex-mini") models [])
match_key-Resolves_example = match_key-Resolves (codes "gpt-5-codex-mini") models []

swapped : SameKeys (codes "gpt-5" ∷ codes "o3" ∷ []) (codes "o3" ∷ codes "gpt-5" ∷ [])
unfolding contains
swapped k = ground arith

match_key_any_order_example :
    match_key (codes "gpt-5-mini") (codes "gpt-5" ∷ codes "o3" ∷ []) []
    ≡ match_key (codes "gpt-5-mini") (codes "o3" ∷ codes "gpt-5" ∷ []) []
match_key_any_order_example =
    match_key_any_order (codes "gpt-5-mini") (codes "gpt-5" ∷ codes "o3" ∷ [])
      (codes "o3" ∷ codes "gpt-5" ∷ []) [] swapped

fewest_segments :
    pick_basename_winner (basename_candidates (codes "glm-5") models) (λ k. 10) ≡ codes "z-ai/glm-5"
unfolding pick_basename_winner basename_candidates basename_candidate_less text_eq
fewest_segments = refl

basename_winner-Falls_example :
    Falls (λ k. 10) (codes "glm-5") models (basename_candidates (codes "glm-5") models)
unfolding contains_byte
basename_winner-Falls_example = basename_winner-Falls (λ k. 10) (codes "glm-5") models refl

swapped_providers : SameKeys (codes "a/x" ∷ codes "b/x" ∷ []) (codes "b/x" ∷ codes "a/x" ∷ [])
unfolding contains
swapped_providers k = ground arith

basename_winner_any_order_example :
    pick_basename_winner (basename_candidates (codes "x") (codes "a/x" ∷ codes "b/x" ∷ [])) (λ k. 1)
    ≡ pick_basename_winner
        (basename_candidates (codes "x") (codes "b/x" ∷ codes "a/x" ∷ []))
        (λ k. 1)
unfolding contains_byte
basename_winner_any_order_example =
    basename_winner_any_order (λ k. 1) (codes "x") (codes "a/x" ∷ codes "b/x" ∷ [])
      (codes "b/x" ∷ codes "a/x" ∷ []) refl swapped_providers

abbrev three : List ℕ
three = 7 ∷ 8 ∷ 9 ∷ []

greatest_page_panics_example : requested_page max_int64 (pos (2 * 100)) three ≡ none
greatest_page_panics_example = greatest_page_panics 100 three (omega arith) (omega arith)

abbrev whole : Floats
whole = record {
  F = ℕ;
  zero = 0;
  is_zero = λ x. x == 0;
  at_most_zero = λ x. leb x 0;
  is_negative = λ x. false;
  add = ◌+◌;
  mul = ◌*◌;
  of_int64 = pos_part;
  cache_read_fallback_mult = 1;
  cache_create_fallback_mult = 2;
}

abbrev offers : List (ProviderSuggestion ℕ)
offers =
    record { provider = codes "Novita"; official = false; quote = 1 }
    ∷ record { provider = codes "Z.AI"; official = true; quote = 2 }
    ∷ []

z_ai_is_official : is_official_provider (codes "Z.AI") (org_of (codes "z-ai/glm-5.2")) ≡ true
unfolding is_official_provider org_of strip_sep without_sep before_first normalize text_eq
    contains_byte
z_ai_is_official = refl
