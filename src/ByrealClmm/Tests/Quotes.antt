-- ===== src/ByrealClmm/Tests/Quotes.antt =====
-- Quotes of a venue whose pool has one tick array.
use byreal_titan_integration.Base.{ℕ, ◌≡◌, refl, true, false, [], none, ok, ◌-ℤ◌}
use byreal_titan_integration.TradingVenue.Request.{exact_in, QuoteRequest, QuoteResult}
use byreal_titan_integration.ByrealClmm.Quote.{
  quote_with_price_upper_bound, ensure_quotable, answer, actual_curve_price,
  marginal_price_from_swap_state, priced_quote,
}
use byreal_titan_integration.ByrealClmm.Swap.{
  compute_swap, run_swap, dynamic_fee_rate, simulate_swap_steps, swap_loop, swap_round,
  apply_amounts, cross,
}
use byreal_titan_integration.ByrealClmm.Navigate.{
  init_tick_nav_state, tick_liquidity_net, first_initialized_tick_array,
  is_overflow_default_tickarray_bitmap, find_next_initialized_tick_with_nav, find_start,
  loaded_tick_array_by_start_index,
}
use byreal_titan_integration.ByrealClmm.TickArray.{
  get_tick_liquidity_net, fixed_get_tick_liquidity_net, tick_offset, fixed_next_initialized_tick,
  next_initialized_tick, scan_down, start_tick_index_of,
}
use byreal_titan_integration.ByrealClmm.Core.{
  ensure_open, ensure_swap_status_enabled, validate_mints, token_mints,
}
use byreal_titan_integration.ByrealClmm.Venue.{
  ByrealClmmVenue, ensure_exact_in, bounds_cache_for_mints, quote,
}
use byreal_titan_integration.ByrealClmm.Venue.Answers.{Answers, quote_ok}
use byreal_titan_integration.ByrealClmm.Tests.Crossing.{short_steps, one_array}

abbrev venue : ByrealClmmVenue short_steps
venue = record {
  core = one_array;
  token_info = [];
  initialized = true;
  current_epoch = 8;
  bounds_cache = (none, none);
}

abbrev request : QuoteRequest
request = record { input_mint = 5; output_mint = 6; amount = 8; swap_type = exact_in }

abbrev filled : QuoteResult ℕ
filled = record {
  input_mint = 5;
  output_mint = 6;
  amount = 8;
  expected_output = 8;
  not_enough_liquidity = false;
  price = 0;
}

answered : quote short_steps 111 venue request ≡ ok filled
unfolding quote ensure_exact_in bounds_cache_for_mints quote_with_price_upper_bound ensure_quotable
    answer actual_curve_price marginal_price_from_swap_state priced_quote compute_swap run_swap
    dynamic_fee_rate simulate_swap_steps swap_loop swap_round apply_amounts cross
    init_tick_nav_state first_initialized_tick_array is_overflow_default_tickarray_bitmap
    find_next_initialized_tick_with_nav find_start loaded_tick_array_by_start_index
    fixed_next_initialized_tick next_initialized_tick scan_down start_tick_index_of ensure_open
    ensure_swap_status_enabled validate_mints token_mints ◌-ℤ◌ tick_liquidity_net
    get_tick_liquidity_net fixed_get_tick_liquidity_net tick_offset
answered = refl

quote_ok_example : Answers short_steps 111 venue request filled
quote_ok_example = quote_ok short_steps 111 venue request filled answered
