-- ===== src/Pricing/Registry/Stats.antt =====
-- internal/pricing/registry.go: Snapshot, which sums up the registry for the status page.
use cc_otel.Prelude.{ℕ, zero, suc, ◌+◌, ltb, ◌==◌, if◌then◌else◌, List, [], ◌∷◌, length}
use cc_otel.Prelude.Text.{Text}
use cc_otel.Prelude.Table.{Table}
use cc_otel.Pricing.Price.{Entry}
use cc_otel.Pricing.Registry.{Registry}

pub record Snapshot : Type 0 where
  pub table_size : ℕ
  pub user_overrides : ℕ
  pub last_edit_at : ℕ
  pub miss_count_24h : ℕ
  pub miss_models_top : List Text

-- The inner loop: the first of the greatest counts.
unfoldable pub greatest : Text × ℕ → Table ℕ → Text × ℕ
greatest max [] = max
greatest max (x ∷ xs) = greatest (if ltb max.1 x.1 then x else max) xs

-- The swap: the first entry with that count makes room for another.
unfoldable pub swap_in : Text × ℕ → ℕ → Table ℕ → Table ℕ
swap_in y n [] = []
swap_in y n (x ∷ xs) = let rest = swap_in y n xs in if x.1 == n then y ∷ xs else x ∷ rest

-- The outer loop, n rounds of the selection sort over what is left.
unfoldable pub select_top : ℕ → Table ℕ → List Text
select_top zero all = []
select_top (suc n) [] = []
select_top (suc n) (x ∷ xs) =
    let max = greatest x xs in
    max.0 ∷ select_top n (if max.1 == x.1 then xs else swap_in x max.1 xs)

unfoldable pub sum_misses : Table ℕ → ℕ
sum_misses [] = 0
sum_misses (x ∷ xs) = x.1 + sum_misses xs

module _ {F : Type 0} where
  unfoldable pub latest_edit : ℕ → Table (Entry F) → ℕ
  latest_edit last [] = last
  latest_edit last ((k, e) ∷ rows) =
      latest_edit (if ltb last e.updated_at then e.updated_at else last) rows

  unfoldable pub snapshot : Registry F → Snapshot
  snapshot r = record {
    table_size = length r.table_by_key;
    user_overrides = length r.user_by_key;
    last_edit_at = latest_edit 0 r.table_by_key;
    miss_count_24h = sum_misses r.miss_counts;
    miss_models_top = select_top 5 r.miss_counts;
  }
