-- ===== src/TradingVenue/Bounds.antt =====
-- trading_venue/bounds.rs: the search for the range of amounts that a venue can quote.
-- The quoting function is a parameter. Both loops run on fuel, 64 rounds: the coarse search doubles a
-- u64 in each round, and the refinement halves an interval of u64s; `Bounds.Search` proves it enough.
pub mod Coarse
pub mod Refine
pub mod Search
pub mod Interval
mod Tests
use byreal_titan_integration.Base.{
  ℕ, zero, suc, ◌+◌, ◌-◌, ◌*◌, ◌/◌, ◌%◌, ◌^◌, Bool, true, false, not, ◌||◌, Result, ok, err, fault,
  out_of_fuel, ◌>>=◌, min, ltb, leb, ◌==◌, if◌then◌else◌,
}
use byreal_titan_integration.TradingVenue.Error.{
  TradingVenueError, boundary_search_failed, no_quotable_value, static_str,
}
use byreal_titan_integration.TradingVenue.Request.{QuoteResult}

abbrev pub u64_max : ℕ
u64_max = 18446744073709551615

abbrev pub scaling_factor : ℕ
scaling_factor = 2

-- `u64::saturating_mul`
abbrev pub saturating_mul : ℕ → ℕ → ℕ
saturating_mul a b = min (a * b) u64_max

-- `high - low` of two u64s in a build without overflow checks.
abbrev pub wrapping_sub : ℕ → ℕ → ℕ
wrapping_sub a b = (a + 2 ^ 64 - b) % 2 ^ 64

module _ {F : Type 0} where
  pub valid_quote : QuoteResult F → Bool
  valid_quote q = not (q.not_enough_liquidity || q.expected_output == 0)

  -- What the code makes of one probe: an error counts as an invalid quote.
  pub probe : Result TradingVenueError (QuoteResult F) → Result TradingVenueError Bool
  unfolding valid_quote
  probe (ok q) = ok (valid_quote q)
  probe (err _) = ok false
  probe (fault x) = fault x

module _ {F : Type 0} (f : ℕ → Result TradingVenueError (QuoteResult F)) where
  -- Phase 1: `lower_low` and `lower_high`.
  pub lower_loop : ℕ → ℕ → ℕ → Result TradingVenueError (ℕ × ℕ)
  lower_loop zero low high = fault out_of_fuel
  lower_loop (suc fuel) low high =
      let next = saturating_mul high scaling_factor in
      let rest = lower_loop fuel high next in
      do
        valid ← probe (f high)
        if valid
            then ok (low, high)
            else if leb next high || next == u64_max
            then ok (high, u64_max)
            else rest

  -- Phase 2: `upper_low` and `upper_high`.
  pub upper_loop : ℕ → ℕ → ℕ → Result TradingVenueError (ℕ × ℕ)
  upper_loop zero low high = fault out_of_fuel
  upper_loop (suc fuel) low high =
      let next = saturating_mul high scaling_factor in
      let rest = upper_loop fuel high next in
      do
        valid ← probe (f high)
        if valid
            then if leb next high || next == u64_max then ok (high, u64_max) else rest
            else ok (low, high)

  pub find_boundaries_coarse : Result TradingVenueError (ℕ × ℕ × ℕ × ℕ)
  find_boundaries_coarse = do
    (lower_low, lower_high) ← lower_loop 64 0 1
    let upper_low = lower_high
    let upper_high = saturating_mul upper_low scaling_factor
    (upper_low, upper_high) ←
        (if leb upper_high upper_low
          then ok (upper_low, upper_low)
          else upper_loop 64 upper_low upper_high)
    ok (lower_low, lower_high, upper_low, upper_high)

  pub refine_lower_loop : ℕ → ℕ → ℕ → Result TradingVenueError ℕ
  refine_lower_loop zero low high = fault out_of_fuel
  refine_lower_loop (suc fuel) low high =
      let mid = high / 2 + low / 2 in
      let rest_low = refine_lower_loop fuel low mid in
      let rest_high = refine_lower_loop fuel mid high in
      if ltb 100 (wrapping_sub high low)
      then (do valid ← probe (f mid); if valid then rest_low else rest_high)
      else ok high

  pub refine_upper_loop : ℕ → ℕ → ℕ → Result TradingVenueError ℕ
  refine_upper_loop zero low high = fault out_of_fuel
  refine_upper_loop (suc fuel) low high =
      let mid = high / 2 + low / 2 in
      let rest_high = refine_upper_loop fuel mid high in
      let rest_low = refine_upper_loop fuel low mid in
      if ltb 100 (wrapping_sub high low)
      then (do valid ← probe (f mid); if valid then rest_high else rest_low)
      else ok low

  pub refine_lower : ℕ → ℕ → Result TradingVenueError ℕ
  refine_lower = refine_lower_loop 64

  pub refine_upper : ℕ → ℕ → Result TradingVenueError ℕ
  refine_upper = refine_upper_loop 64

  pub find_boundaries : Result TradingVenueError (ℕ × ℕ)
  find_boundaries = do
    (lower_low, lower_high, upper_low, upper_high) ← find_boundaries_coarse
    if lower_low == upper_high
        then err (
            boundary_search_failed
              (static_str "Search boundaries are all equal; search space collapsed"))
        else if lower_high == u64_max
        then err (
            no_quotable_value
              (static_str "No quotable value found; exponential search hit u64::MAX"))
        else (do
          lower_bound ← refine_lower lower_low lower_high
          upper_bound ← refine_upper upper_low upper_high
          ok (lower_bound, upper_bound))
