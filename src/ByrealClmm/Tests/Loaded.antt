-- ===== src/ByrealClmm/Tests/Loaded.antt =====
-- A swap over two loaded arrays, of which the pool's bitmap has both.
use byreal_titan_integration.Base.{
  ℕ, zero, suc, ◌+◌, ◌≤◌, ◌*◌, ◌/◌, ◌-◌, ◌-ℤ◌, ◌≤ℤ◌, ◌<ℤ◌, ◌≡◌, refl, sym, ap, ◌⊎◌, inl, inr, ℤ,
  pos, negsuc, ◌+ℤ◌, +ℤ_parts, Bool, true, false, [], ◌∷◌, none, some, leb, ok, err, Bool-cases,
  arith, get_elem?,
}
use byreal_titan_integration.TradingVenue.Error.{Message, TradingVenueError}
use byreal_titan_integration.TradingVenue.Request.{exact_in, QuoteRequest, QuoteResult}
use byreal_titan_integration.ByrealClmm.Venue.{ByrealClmmVenue, quote}
use byreal_titan_integration.ByrealClmm.Venue.Answers.{Answers}
use byreal_titan_integration.ByrealClmm.Venue.Loaded.{loaded_quote_ends}
use byreal_titan_integration.ByrealClmm.Library.{Library, SwapStep, TickState}
use byreal_titan_integration.ByrealClmm.TickArray.{
  FixedTickArraySnapshot, fixed, start_tick_index_of, get_tick_liquidity_net,
  fixed_get_tick_liquidity_net, tick_offset, fixed_next_initialized_tick, next_initialized_tick,
  first_initialized_tick, fixed_first_initialized_tick, scan_down,
}
use byreal_titan_integration.ByrealClmm.Core.{Core}
use byreal_titan_integration.ByrealClmm.Swap.{
  SwapState, SwapResult, compute_swap, target_price, run_swap, dynamic_fee_rate,
  simulate_swap_steps, swap_loop, swap_round, apply_amounts, cross,
}
use byreal_titan_integration.ByrealClmm.Navigate.{
  init_tick_nav_state, tick_liquidity_net, first_initialized_tick_array,
  is_overflow_default_tickarray_bitmap, find_next_initialized_tick_with_nav, find_start,
  loaded_tick_array_by_start_index, next_initialized_tick_array_start_index, next_start_loop,
}
use byreal_titan_integration.ByrealClmm.Swap.Ends.{IsExactIn}
use byreal_titan_integration.ByrealClmm.Swap.Steps.{loaded_steps_end}
use byreal_titan_integration.ByrealClmm.Swap.Totals.{Fills}
use byreal_titan_integration.ByrealClmm.Swap.Arrays.{IsGrid, IsFilled}
use byreal_titan_integration.ByrealClmm.Swap.Starts.{IsBitmap}
use byreal_titan_integration.ByrealClmm.Swap.Navigable.{AllArrays}
use byreal_titan_integration.ByrealClmm.Swap.Loaded.{IsCheck, loaded_swap_ends}
use byreal_titan_integration.ByrealClmm.Tests.{pool, ticks, tick, start_of}
use byreal_titan_integration.ByrealClmm.Tests.Crossing.{short_steps}

-- Below the array of 0 there is one at -20.
abbrev below : ℤ → Bool → Bool × ℤ
below (pos zero) true = (true, negsuc 19)
below last zero_for_one = (false, last)

abbrev two_starts : Library
two_starts = record short_steps {
  next_tick_array_in_bitmap = λ bitmap last spacing zero_for_one. below last zero_for_one;
}

abbrev lower_first : TickState
lower_first = record { tick = negsuc 19; liquidity_net = pos 0; liquidity_gross = 0 }

abbrev lower_second : TickState
lower_second = record { tick = negsuc 9; liquidity_net = pos 0; liquidity_gross = 3 }

abbrev lower : FixedTickArraySnapshot
lower = record { start_tick_index = negsuc 19; ticks = lower_first ∷ lower_second ∷ [] }

abbrev upper : FixedTickArraySnapshot
upper = record { start_tick_index = pos 0; ticks = ticks }

abbrev two_arrays : Core two_starts
two_arrays = record {
  market_id = 91;
  program_id = 90;
  reserve_mints = (5, 6);
  pool_state = pool;
  amm_config = some tt;
  bitmap_extension = none;
  dynamic_tick_arrays = (1000, fixed upper) ∷ (980, fixed lower) ∷ [];
  token0_vault_amount = 0;
  token1_vault_amount = 0;
  token0_program_id = 1;
  token1_program_id = 1;
  token0_pyth_oracle_data = none;
  token1_pyth_oracle_data = none;
  max_one_side_tick_arrays = 6;
  current_unix_timestamp = pos 77;
}

starts_below : (t : ℤ) → start_of t 10 ≤ℤ t
starts_below (pos n) = omega arith
starts_below (negsuc n) = omega arith

starts_above : (t : ℤ) → t <ℤ (start_of t 10 +ℤ pos 20)
starts_above (pos n) = omega (arith, +ℤ_parts (start_of (pos n) 10) (pos 20))
starts_above (negsuc n) = omega (arith, +ℤ_parts (start_of (negsuc n) 10) (pos 20))

starts_again : (t : ℤ) → start_of (start_of t 10) 10 ≡ start_of t 10
starts_again (pos n) = let e : n / 20 * 20 / 20 * 20 ≡ n / 20 * 20 = omega arith in ap pos e
starts_again (negsuc n) =
    let e : suc ((suc (n / 20) * 20 - 1) / 20) * 20 - 1 ≡ suc (n / 20) * 20 - 1 = omega arith in
    ap negsuc e

is_grid : IsGrid two_starts 10
is_grid = record {
  spaced = omega arith;
  sized = omega arith;
  start_below = starts_below;
  start_above = starts_above;
  start_again = starts_again;
  offset_below = λ s t o e. let first : 0 ≡ o = cc e in omega (arith, first);
}

below_finds :
    (last : ℤ)
    → (below last true).0 ≡ true
    → (start_of (below last true).1 10 ≡ (below last true).1)
      × (((below last true).1 +ℤ pos 20) ≤ℤ last)
below_finds (pos zero) found = (refl, omega (arith, +ℤ_parts (negsuc 19) (pos 20)))
below_finds (pos (suc n)) found = cc found
below_finds (negsuc n) found = cc found

below_misses :
    (last : ℤ)
    → start_of last 10 ≡ last
    → (below last true).0 ≡ false
    → (start_of (below last true).1 10 ≡ (below last true).1) × ((below last true).1 ≤ℤ last)
below_misses (pos zero) at missed = cc missed
below_misses (pos (suc n)) at missed = (at, omega arith)
below_misses (negsuc n) at missed = (at, omega arith)

is_bitmap : IsBitmap two_starts two_arrays true
is_bitmap = record {
  finds = λ last at found. below_finds last found;
  misses = λ last at missed. below_misses last at missed;
  extends = λ e last s found there. cc there;
}

is_check : IsCheck two_starts two_arrays true
is_check = record { extension = λ e s there. cc there; default = λ s e. cc e }

upper_placed :
    (i : ℕ) (t : TickState)
    → get_elem? upper.ticks i ≡ some t
    → leb 1 t.liquidity_gross ≡ true
    → (t.tick ≡ pos 0 +ℤ pos (i * 10)) × (negsuc 99 ≤ℤ t.tick) × (t.tick ≤ℤ pos 100)
unfolding ◌+ℤ◌
upper_placed zero t there set =
    let same : tick 0 5 ≡ t = cc there in rw (sym same) (refl, omega arith, omega arith)
upper_placed (suc zero) t there set =
    let same : tick 10 0 ≡ t = cc there in cc (rw (sym same) at set)
upper_placed (suc (suc i)) t there set = cc there

lower_placed :
    (i : ℕ) (t : TickState)
    → get_elem? lower.ticks i ≡ some t
    → leb 1 t.liquidity_gross ≡ true
    → (t.tick ≡ negsuc 19 +ℤ pos (i * 10)) × (negsuc 99 ≤ℤ t.tick) × (t.tick ≤ℤ pos 100)
unfolding ◌+ℤ◌
lower_placed zero t there set = let same : lower_first ≡ t = cc there in cc (rw (sym same) at set)
lower_placed (suc zero) t there set =
    let same : lower_second ≡ t = cc there in rw (sym same) (refl, omega arith, omega arith)
lower_placed (suc (suc i)) t there set = cc there

upper-IsFilled : IsFilled two_starts 10 upper
upper-IsFilled = record { full = refl; placed = λ i t init. upper_placed i t init.there init.set }

lower-IsFilled : IsFilled two_starts 10 lower
lower-IsFilled = record { full = refl; placed = λ i t init. lower_placed i t init.there init.set }

all_loaded : AllArrays two_starts two_arrays true two_arrays.dynamic_tick_arrays
unfolding start_tick_index_of
all_loaded = (
  record {
    array = upper-IsFilled;
    above = omega (arith, +ℤ_parts (pos 0) (pos 20));
    below = omega arith;
  },
  (
    record {
      array = lower-IsFilled;
      above = omega (arith, +ℤ_parts (negsuc 19) (pos 20));
      below = omega arith;
    },
    tt,
  ),
)

is_exact_in : (fee_rate : ℕ) → IsExactIn two_starts two_arrays true fee_rate 2 (pos 77)
is_exact_in fee_rate state sqrt_price_next step h =
    elim (Bool-cases (leb state.amount_specified_remaining 10)) [
      | inl few ↦
          let taken : state.amount_specified_remaining + 0 ≡ step.amount_in + step.fee_amount =
            ap
              (λ (r : Message ⊎ SwapStep). elim r [
                | inl e ↦ 0
                | inr s ↦ s.amount_in + s.fee_amount
              ])
              (rw (few) at h) in
          inr (omega arith)
      | inr many ↦
          let arrives : target_price two_starts two_arrays true sqrt_price_next 2
              ≡ step.sqrt_price_next_x64 =
            ap (λ (r : Message ⊎ SwapStep). elim r [ inl e ↦ 0 | inr s ↦ s.sqrt_price_next_x64 ])
              (rw (many) at h) in
          inl (sym arrives)
    ]

loaded_swap_ends_example :
    ((e : Message) × (compute_swap two_starts two_arrays 300 true 18 (pos 77) ≡ err e))
    ⊎ ((result : SwapResult) × (compute_swap two_starts two_arrays 300 true 18 (pos 77) ≡ ok result)
        × Fills two_starts two_arrays true (pos 77) 18 result)
loaded_swap_ends_example =
    loaded_swap_ends two_starts two_arrays true (pos 77) 108 300 18 is_grid is_bitmap is_check
      all_loaded is_exact_in (omega (arith, +ℤ_parts (negsuc 99) (pos 108))) (omega arith)

loaded_steps_end_example :
    ((e : Message) × (simulate_swap_steps two_starts two_arrays 300 400 18 2 true (pos 77) ≡ err e))
    ⊎ ((state : SwapState) × (simulate_swap_steps two_starts two_arrays 300 400 18 2 true (pos 77)
          ≡ ok state)
        × ((state.amount_specified_remaining ≡ 0) ⊎ (state.sqrt_price_x64 ≡ 2))
        × (state.amount_specified_remaining + state.fee_amount ≤ 18))
loaded_steps_end_example =
    loaded_steps_end two_starts two_arrays true (pos 77) 400 2 108 300 18 is_grid is_bitmap is_check
      all_loaded (is_exact_in 400) (omega (arith, +ℤ_parts (negsuc 99) (pos 108))) (omega arith)

-- The swap crosses the tick 0 into the lower array.
crossed :
    compute_swap two_starts two_arrays 300 true 18 (pos 77)
    ≡ ok (record { amount_in = 18; amount_out = 16; sqrt_price_x64 = 1000; fee_rate = 400 })
unfolding compute_swap run_swap dynamic_fee_rate simulate_swap_steps swap_loop swap_round
    apply_amounts cross init_tick_nav_state first_initialized_tick_array
    is_overflow_default_tickarray_bitmap find_next_initialized_tick_with_nav find_start
    loaded_tick_array_by_start_index next_initialized_tick_array_start_index next_start_loop
    fixed_next_initialized_tick next_initialized_tick first_initialized_tick
    fixed_first_initialized_tick scan_down start_tick_index_of ◌-ℤ◌ tick_liquidity_net
    get_tick_liquidity_net fixed_get_tick_liquidity_net tick_offset
crossed = refl

abbrev venue : ByrealClmmVenue two_starts
venue = record {
  core = two_arrays;
  token_info = [];
  initialized = true;
  current_epoch = 8;
  bounds_cache = (none, none);
}

abbrev request : QuoteRequest
request = record { input_mint = 5; output_mint = 6; amount = 18; swap_type = exact_in }

loaded_quote_ends_example :
    ((e : TradingVenueError) × (quote two_starts 300 venue request ≡ err e))
    ⊎ ((r : QuoteResult ℕ) × (quote two_starts 300 venue request ≡ ok r)
        × Answers two_starts 300 venue request r)
loaded_quote_ends_example =
    loaded_quote_ends two_starts venue request true 108 300 refl is_grid is_bitmap is_check
      all_loaded is_exact_in (omega (arith, +ℤ_parts (negsuc 99) (pos 108))) (omega arith)
