-- ===== src/ByrealClmm/Tests/Crossing.antt =====
-- A crate with short swap steps, and a pool that has one tick array.
use byreal_titan_integration.Base.{inr, pos, false, [], ◌∷◌, none, some, leb, if◌then◌else◌}
use byreal_titan_integration.ByrealClmm.Library.{Library}
use byreal_titan_integration.ByrealClmm.TickArray.{fixed}
use byreal_titan_integration.ByrealClmm.Core.{Core}
use byreal_titan_integration.ByrealClmm.Tests.{library, pool, ticks}

-- A step takes ten at most, and arrives when it does; there is no further array.
abbrev pub short_steps : Library
short_steps = record library {
  get_tick_offset_in_tick_array = λ start t spacing. inr 0;
  next_tick_array_in_bitmap = λ bitmap start spacing zero_for_one. (false, start);
  compute_swap_step = λ price target liquidity remaining fee base zero_for_one timestamp.
      if leb remaining 10
      then inr (record {
        sqrt_price_next_x64 = price;
        amount_in = remaining;
        amount_out = remaining;
        fee_amount = 0;
      })
      else inr
          (record { sqrt_price_next_x64 = target; amount_in = 9; amount_out = 8; fee_amount = 1 });
}

abbrev pub one_array : Core short_steps
one_array = record {
  market_id = 91;
  program_id = 90;
  reserve_mints = (5, 6);
  pool_state = pool;
  amm_config = some tt;
  bitmap_extension = none;
  dynamic_tick_arrays = (1000, fixed (record { start_tick_index = pos 0; ticks = ticks })) ∷ [];
  token0_vault_amount = 0;
  token1_vault_amount = 0;
  token0_program_id = 1;
  token1_program_id = 1;
  token0_pyth_oracle_data = none;
  token1_pyth_oracle_data = none;
  max_one_side_tick_arrays = 6;
  current_unix_timestamp = pos 77;
}
