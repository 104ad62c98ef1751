-- ===== src/TradingVenue/Bounds/Tests.antt =====
-- The search for bounds, run on a venue that quotes the amounts of one interval.
use native.Mathlib.Nat.{pow-suc}
use byreal_titan_integration.Base.{
  ℕ, zero, suc, ◌+◌, ◌^◌, ◌≤◌, ◌<◌, ◌≡◌, refl, ◌⊎◌, false, ◌&&◌, Result, ok, err, arith, leb,
  if◌then◌else◌,
}
use byreal_titan_integration.TradingVenue.Error.{TradingVenueError}
use byreal_titan_integration.TradingVenue.Request.{QuoteResult}
use byreal_titan_integration.TradingVenue.Bounds.{
  u64_max, probe, find_boundaries, find_boundaries_coarse, lower_loop, upper_loop, refine_lower,
  refine_upper, refine_lower_loop, refine_upper_loop,
}
use byreal_titan_integration.TradingVenue.Bounds.Coarse.{IsValidAt, IsInvalidAt, NeverFaults}
use byreal_titan_integration.TradingVenue.Bounds.Search.{
  AreBounds, no_value, find_boundaries_decides,
}
use byreal_titan_integration.TradingVenue.Bounds.Interval.{
  IsInterval, find_boundaries_interval, find_boundaries_missed,
}

abbrev pool : ℕ → ℕ → ℕ → Result TradingVenueError (QuoteResult (Unit {0}))
pool lo hi n = ok (record {
  input_mint = 1;
  output_mint = 2;
  amount = n;
  expected_output = if leb lo n && leb n hi then 1 else 0;
  not_enough_liquidity = false;
  price = tt;
})

pool-NeverFaults : (lo hi : ℕ) → NeverFaults (pool lo hi)
pool-NeverFaults lo hi n x e = cc

pool-IsInterval : (lo hi : ℕ) → IsInterval (pool lo hi) lo hi
unfolding probe
pool-IsInterval lo hi n = ground arith

runs : find_boundaries (pool 1000 9000) ≡ ok (1024, 8960)
unfolding find_boundaries find_boundaries_coarse lower_loop upper_loop refine_lower refine_upper
    refine_lower_loop refine_upper_loop probe
runs = refl

find_boundaries_decides_example :
    ((find_boundaries (pool 1000 9000) ≡ err no_value)
      × ((k : ℕ) → 2 ^ k < u64_max → IsInvalidAt (pool 1000 9000) (2 ^ k)))
    ⊎ ((r : ℕ × ℕ) × (find_boundaries (pool 1000 9000) ≡ ok r)
        × AreBounds (pool 1000 9000) r
        × ((k : ℕ) × (2 ^ k ≤ u64_max) × IsValidAt (pool 1000 9000) (2 ^ k)))
find_boundaries_decides_example =
    find_boundaries_decides (pool 1000 9000) (pool-NeverFaults 1000 9000)

find_boundaries_interval_example :
    (r : ℕ × ℕ) × (find_boundaries (pool 1000 9000) ≡ ok r)
    × (1000 ≤ r.0)
    × (r.0 < 1000 + 100)
    × (9000 < r.1 + 100)
    × (r.1 ≤ 9000)
find_boundaries_interval_example =
    find_boundaries_interval (pool 1000 9000) 1000 9000 12 (pool-NeverFaults 1000 9000)
      (omega arith) (omega arith) (pool-IsInterval 1000 9000) (omega arith) (omega arith)

pow_pos : (k : ℕ) → 0 < 2 ^ k
pow_pos zero = omega arith
pow_pos (suc k) = omega (arith, pow-suc 2 k, pow_pos k)

five_to_seven : (k : ℕ) → ¬ ((5 ≤ 2 ^ k) × (2 ^ k ≤ 7))
five_to_seven zero h = omega arith
five_to_seven (suc zero) h = omega arith
five_to_seven (suc (suc zero)) h = omega arith
five_to_seven (suc (suc (suc k))) h =
    omega (arith, pow-suc 2 (suc (suc k)), pow-suc 2 (suc k), pow-suc 2 k, pow_pos k)

find_boundaries_missed_example : find_boundaries (pool 5 7) ≡ err no_value
find_boundaries_missed_example =
    find_boundaries_missed (pool 5 7) 5 7 (pool-NeverFaults 5 7)
      (λ n valid. (pool-IsInterval 5 7 n).0 valid) five_to_seven
