-- ===== src/Pricing/Registry/Tests.antt =====
-- A small registry: one override, two table rows and a provider's key.
use cc_otel.Prelude.{
  ℕ, ◌+◌, ◌*◌, ◌≡◌, refl, leb, ◌==◌, true, false, Option, none, some, List, [], ◌∷◌, arith,
}
use cc_otel.Prelude.Int.{pos_part}
use cc_otel.Prelude.Text.{Text, codes, text_eq}
use cc_otel.Prelude.Table.{contains, lookup, insert}
use cc_otel.Pricing.Name.{normalize}
use cc_otel.Pricing.Price.{Floats, Entry}
use cc_otel.Pricing.Match.{exact}
use cc_otel.Pricing.Registry.{
  Registry, ConfigPrice, load_overrides, user_entry, rebuild_index, reload, new_registry,
  record_miss, lookup_model,
}
use cc_otel.Pricing.Registry.Index.{IsIndexed, new_registry-IsIndexed}
use cc_otel.Pricing.Registry.Lookups.{user_entry_wins, lookup_model-Answers, Answers}
use cc_otel.Pricing.Registry.Misses.{Tracks, record_miss-Tracks}
use cc_otel.Pricing.Registry.Writes.{Store, Outside, upsert, delete_model, reload_store, queried}
use cc_otel.Pricing.Registry.Writes.Effects.{
  IsSound, Priced, Unpriced, upsert-Priced, delete-Unpriced, find_row,
}

-- Prices as whole numbers of some small unit.
abbrev whole : Floats
whole = record {
  F = ℕ;
  zero = 0;
  is_zero = λ x. x == 0;
  at_most_zero = λ x. leb x 0;
  is_negative = λ x. false;
  add = ◌+◌;
  mul = ◌*◌;
  of_int64 = pos_part;
  cache_read_fallback_mult = 1;
  cache_create_fallback_mult = 2;
}

abbrev row : Text → ℕ → Text → Entry ℕ
row model input source = record {
  model = model;
  input = input;
  output = 9;
  cache_read = 0;
  cache_creation = 0;
  aliases = codes "GLM" ∷ [];
  source = source;
  fetched_at = 1;
  updated_at = 1;
}

abbrev rows : List (Entry ℕ)
rows = row (codes "glm-4.6") 5 (codes "seed") ∷ row (codes "z-ai/glm-5") 7 (codes "litellm") ∷ []

abbrev overrides : List (Text × ConfigPrice ℕ)
overrides =
    (
      codes " GLM-4.6 ",
      record { input = 3; output = 4; cache_read = 0; cache_creation = 0; aliases = [] },
    )
    ∷ []

abbrev or_blank : Option (Registry ℕ) → Registry ℕ
or_blank (some r) = r
or_blank none = record {
  user_by_key = [];
  table_by_key = [];
  key_set = [];
  alias_index = [];
  miss_counts = [];
  miss_order = [];
  last_reload = 0;
}

abbrev registry : Registry ℕ
registry = or_blank (new_registry overrides 100 (some rows))

registry_built : new_registry overrides 100 (some rows) ≡ some registry
unfolding new_registry reload
registry_built = refl

new_registry-IsIndexed_example : IsIndexed registry
new_registry-IsIndexed_example =
    new_registry-IsIndexed overrides 100 (some rows) registry registry_built

abbrev override : Entry ℕ
override = record {
  model = codes "glm-4.6";
  input = 3;
  output = 4;
  cache_read = 0;
  cache_creation = 0;
  aliases = [];
  source = codes "user";
  fetched_at = 0;
  updated_at = 0;
}

user_entry_wins_example : lookup_model (codes "GLM-4.6") registry ≡ (
  record { entry = some override; kind = exact; matched_key = normalize (codes "GLM-4.6") },
  registry,
)
unfolding normalize new_registry reload rebuild_index load_overrides user_entry lookup insert
    text_eq
user_entry_wins_example =
    user_entry_wins (codes "GLM-4.6") registry override new_registry-IsIndexed_example (λ e. cc)
      refl

lookup_model-Answers_example : Answers (codes "glm-5") registry
unfolding normalize
lookup_model-Answers_example =
    lookup_model-Answers (codes "glm-5") registry new_registry-IsIndexed_example (λ e. cc)

blank-Tracks : Tracks [] []
unfolding lookup contains
blank-Tracks = record { distinct = tt; counted = λ k. refl; bounded = omega arith }

record_miss-Tracks_example :
    Tracks
      (record_miss (codes "x") (or_blank none)).miss_order
      (record_miss (codes "x") (or_blank none)).miss_counts
record_miss-Tracks_example = record_miss-Tracks (codes "x") (or_blank none) blank-Tracks

abbrev store : Store ℕ
store = record { rows = rows; registry = registry }

store-IsSound : IsSound store
unfolding find_row text_eq
store-IsSound = record {
  primary_key = (refl, (refl, tt));
  indexed = new_registry-IsIndexed_example;
}

abbrev fine : Outside
fine = record { now = 200; exec_succeeds = true; query_succeeds = true }

abbrev saved : Entry ℕ
saved = row (codes "Kimi-K2") 6 (codes "openrouter")

upsert-Priced_example : Priced fine saved (codes "kimi-k2") (upsert whole fine saved store).0
unfolding upsert reload_store queried reload normalize new_registry rebuild_index load_overrides
    user_entry lookup insert text_eq
upsert-Priced_example =
    upsert-Priced whole fine saved store _ (codes "kimi-k2") store-IsSound refl refl refl

delete-Unpriced_example :
    Unpriced (normalize (codes "z-ai/glm-5")) (delete_model fine (codes "z-ai/glm-5") store).0
unfolding delete_model reload_store queried reload normalize new_registry rebuild_index
    load_overrides user_entry lookup insert text_eq
delete-Unpriced_example = delete-Unpriced fine (codes "z-ai/glm-5") store store-IsSound refl refl
