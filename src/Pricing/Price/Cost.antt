-- ===== src/Pricing/Price/Cost.antt =====
-- The cost formula and its fallback rates.
use cc_otel.Prelude.{◌≡◌, arith}
use cc_otel.Prelude.Int.{ℤ}
use cc_otel.Pricing.Price.{Floats, Entry, cache_read_rate, cache_creation_rate, entry_calc}

module _ (fl : Floats) where
  open fl use {F, mul, cache_read_fallback_mult, cache_create_fallback_mult, is_zero}

  -- An entry with its fallback rates written out.
  abbrev pub filled : Entry F → Entry F
  filled e = record e {
    cache_read = cache_read_rate fl e;
    cache_creation = cache_creation_rate fl e;
  }

  read_rate-filled : (e : Entry F) → cache_read_rate fl (filled e) ≡ cache_read_rate fl e
  unfolding cache_read_rate
  read_rate-filled e = ground arith

  creation_rate-filled :
      (e : Entry F) → cache_creation_rate fl (filled e) ≡ cache_creation_rate fl e
  unfolding cache_creation_rate
  creation_rate-filled e = ground arith

  -- Writing an entry's fallback rates out, and saving it so, changes no cost.
  pub entry_calc-filled :
      (e : Entry F) (input output cache_read cache_create : ℤ)
      → entry_calc fl (filled e) input output cache_read cache_create
        ≡ entry_calc fl e input output cache_read cache_create
  unfolding entry_calc
  entry_calc-filled e i o r c = ground (arith, read_rate-filled e, creation_rate-filled e)
