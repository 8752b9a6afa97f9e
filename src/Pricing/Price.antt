-- ===== src/Pricing/Price.antt =====
-- internal/pricing/pricing.go: an entry of the price table, the cost formula and the two rankings
-- of sources. Go's float64 is a parameter: a type with the operations that the formula uses.
pub mod Cost
use cc_otel.Prelude.{ℕ, Bool, ◌||◌, if◌then◌else◌, List, [], ◌∷◌}
use cc_otel.Prelude.Int.{ℤ}
use cc_otel.Prelude.Text.{Text, codes, text_eq}

pub record Floats : Type 1 where
  pub F : Type 0
  pub zero : F
  pub is_zero : F → Bool  -- x == 0
  pub at_most_zero : F → Bool  -- x <= 0
  pub is_negative : F → Bool  -- x < 0
  pub add : F → F → F
  pub mul : F → F → F
  pub of_int64 : ℤ → F  -- float64(n)
  pub cache_read_fallback_mult : F  -- 0.1
  pub cache_create_fallback_mult : F  -- 1.25

-- Entry, without the display field Variants.
pub record Entry (F : Type 0) : Type 0 where
  pub model : Text
  pub input : F
  pub output : F
  pub cache_read : F
  pub cache_creation : F
  pub aliases : List Text
  pub source : Text
  pub fetched_at : ℕ
  pub updated_at : ℕ

module _ (fl : Floats) where
  open fl use {
    F, zero, is_zero, add, mul, of_int64, cache_read_fallback_mult, cache_create_fallback_mult,
  }

  -- The rates that the formula uses for cached tokens.
  unfoldable pub cache_read_rate : Entry F → F
  cache_read_rate e =
      if is_zero e.cache_read then mul e.input cache_read_fallback_mult else e.cache_read

  unfoldable pub cache_creation_rate : Entry F → F
  cache_creation_rate e =
      if is_zero e.cache_creation then mul e.input cache_create_fallback_mult else e.cache_creation

  -- Entry.Calc
  unfoldable pub entry_calc : Entry F → ℤ → ℤ → ℤ → ℤ → F
  unfolding cache_read_rate cache_creation_rate
  entry_calc e input output cache_read cache_create =
      add
        (add (add (mul (of_int64 input) e.input) (mul (of_int64 output) e.output))
          (mul (of_int64 cache_read) (cache_read_rate e)))
        (mul (of_int64 cache_create) (cache_creation_rate e))

unfoldable pub source_rank : Text → ℕ
unfolding text_eq
source_rank source =
    if text_eq source (codes "user")
    then 40
    else if text_eq source (codes "litellm")
    then 30
    else if text_eq source (codes "openrouter")
    then 20
    else if text_eq source (codes "seed")
    then 10
    else 0

unfoldable pub display_rank : Text → ℕ
unfolding text_eq
display_rank source =
    if text_eq source (codes "manual") || text_eq source (codes "user")
    then 100
    else if text_eq source (codes "openrouter")
    then 80
    else if text_eq source (codes "litellm")
    then 60
    else if text_eq source (codes "seed")
    then 40
    else 0
