-- ===== src/ByrealClmm/Tests.antt =====
-- The venue on a small library: arrays of two ticks, addresses that are numbers, accounts that decode to fixed values.
pub mod Cases
pub mod Crossing
pub mod Quotes
pub mod Updates
pub mod Lives
pub mod Creations
pub mod Loaded
use byreal_titan_integration.Base.{
  ℕ, suc, ◌+◌, ◌-◌, ◌*◌, ◌/◌, ◌%◌, ℤ, pos, negsuc, Bool, true, false, List, [], ◌∷◌, Option, none,
  some, ◌⊎◌, inl, inr, ◌==◌, if◌then◌else◌, leb, min, max,
}
use byreal_titan_integration.TradingVenue.Error.{Pubkey, text}
use byreal_titan_integration.ByrealClmm.Library.{
  Library, PoolState, Price, TickState, Seed, text_seed, key_seed, i32_be_seed, u16_le_seed,
  feed_seed,
}
use byreal_titan_integration.ByrealClmm.TickArray.{DynamicTickArrayState, fixed}
use byreal_titan_integration.ByrealClmm.Core.{Core}

abbrev pub tick : ℕ → ℕ → TickState
tick t gross = record { tick = pos t; liquidity_net = pos 0; liquidity_gross = gross }

abbrev pub pool : PoolState
pool = record {
  token_mint_0 = 5;
  token_mint_1 = 6;
  mint_decimals_0 = 6;
  mint_decimals_1 = 9;
  amm_config = 40;
  token_vault_0 = 50;
  token_vault_1 = 60;
  observation_key = 41;
  tick_spacing = 10;
  tick_current = pos 7;
  sqrt_price_x64 = 1000;
  liquidity = 100;
  open_time = 3;
  token0_pyth_feed_id = 0;
  token1_pyth_feed_id = 0;
  tick_array_bitmap = [];
  arbitrage_fee_buffer_ppm = 0;
  trade_slippage_fee_base_milli_bp = 0;
  trade_slippage_fee_trade_size_threshold = 0;
  imbalance_fee_base_tenths_of_bp = 0;
  imbalance_fee_x = 0;
  others = [];
}

-- The start of the array with `t`.
abbrev pub start_of : ℤ → ℕ → ℤ
start_of (pos t) spacing = pos (t / 20 * 20)
start_of (negsuc t) spacing = negsuc (suc (t / 20) * 20 - 1)

abbrev pub address_of : List Seed → Pubkey → Pubkey
address_of (text_seed s ∷ key_seed k ∷ i32_be_seed (pos n) ∷ rest) program = 1000 + n
address_of _ program = 999

abbrev pub library : Library
library = record {
  AmmConfig = Unit;
  BitmapExtension = Unit;
  DynTickArrayHeader = Unit;
  PriceUpdate = Price;
  Float = ℕ;
  spl_token_id = 1;
  spl_token_2022_id = 2;
  spl_memo_id = 3;
  clock_id = 4;
  pyth_receiver_program_id = 11;
  pyth_price_feed_program_id = 12;
  tick_array_seed = "tick_array";
  tick_array_size = 2;
  find_program_address = address_of;
  is_swap_dynamic_fee_enabled = λ pool. false;
  is_swap_status_enabled = λ pool. true;
  is_overflow_default_tickarray_bitmap = λ pool ticks. false;
  get_array_start_index = start_of;
  get_first_initialized_tick_array = λ pool extension zero_for_one. inr (true, pos 0);
  next_initialized_tick_array_start_index = λ pool extension start zero_for_one. elim start [
    | pos n ↦ (if n == 0 then inr (some (pos 20)) else inr none)
    | negsuc n ↦ inr none
  ];
  swap_v3_dyn_data = λ amount threshold limit is_base_input. amount ∷ threshold ∷ limit ∷ [];
  decode_pool_state = λ bytes. inr pool;
  decode_amm_config = λ bytes. inr tt;
  decode_bitmap_extension = λ bytes. inr tt;
  dyn_discriminator = 1 ∷ [];
  fixed_discriminator = 2 ∷ [];
  dyn_header_len = 8;
  read_dyn_header = λ bytes. tt;
  dyn_start_tick_index = λ header. pos 0;
  dyn_next_initialized_tick_index = λ header ticks cur spacing zero_for_one. inr none;
  dyn_first_initialized_tick_index = λ header ticks zero_for_one. inl [];
  dyn_get_tick_index_in_array = λ header tick spacing. inl [];
  tick_state_len = 1;
  read_tick_state = λ bytes. tick 0 0;
  tick_is_initialized = λ t. leb 1 t.liquidity_gross;
  get_tick_offset_in_tick_array = λ start t spacing. inl [];
  decode_clock = λ bytes. inr (record { epoch = 8; unix_timestamp = pos 77 });
  unpack_token_account = λ bytes. inr 500;
  unpack_token_2022_account = λ bytes. inr 600;
  decode_price_update = λ bytes. inl [];
  get_price_unchecked = λ update feed. some update;
  min_tick = negsuc 99;
  max_tick = pos 100;
  min_sqrt_price_x64 = 1;
  max_sqrt_price_x64 = 100_000;
  tick_array_start_index_range = λ pool. (negsuc 99, pos 100);
  check_tick_array_is_initialized = λ extension t spacing. inr (true, pos 0);
  check_current_tick_array_is_initialized = λ bitmap t spacing. inr (true, pos 0);
  next_tick_array_in_bitmap = λ bitmap start spacing zero_for_one. (true, pos 0);
  next_initialized_tick_array_from_one_bitmap =
      λ extension start spacing zero_for_one. inr (true, pos 0);
  get_sqrt_price_at_tick = λ t. elim t [ pos n ↦ inr (1000 + n) | negsuc n ↦ inr 999 ];
  get_tick_at_sqrt_price = λ price. inr (pos 0);
  compute_swap_step = λ price target liquidity remaining fee base zero_for_one timestamp.
      inr (record {
        sqrt_price_next_x64 = price;
        amount_in = remaining;
        amount_out = remaining;
        fee_amount = 0;
      });
  add_delta = λ liquidity net. inr liquidity;
  calculate_base_trade_fee_rate = λ pool config zero_for_one timestamp. inr 400;
  calculate_price_index = λ p q d0 d1. inr 1;
  price_from_sqrt_price_x64 = λ price. inr price;
  is_token1_quote = λ pool. true;
  quote_amount_from_base = λ base p quote. inr base;
  normalize_trade_size = λ amount decimals. inr amount;
  calculate_dynamic_fee_rate = λ inputs. inr inputs.fee_base;
  float_zero = 0;
  float_of_nat = λ n. n;
  float_div = λ a b. a / b;
  float_mul = λ a b. a * b;
  float_min = min;
  float_max = max;
  float_clamp = λ x lo hi. min (max x lo) hi;
  float_le = leb;
  float_is_finite = λ x. true;
  q64 = 1000;
  fee_rate_denominator_value = 1_000_000;
}

abbrev pub ticks : List TickState
ticks = tick 0 5 ∷ tick 10 0 ∷ []

abbrev pub core : Core library
core = record {
  market_id = 91;
  program_id = 90;
  reserve_mints = (5, 6);
  pool_state = pool;
  amm_config = some tt;
  bitmap_extension = none;
  dynamic_tick_arrays = (1000, fixed (record { start_tick_index = pos 0; ticks = ticks })) ∷ [];
  token0_vault_amount = 0;
  token1_vault_amount = 0;
  token0_program_id = 1;
  token1_program_id = 1;
  token0_pyth_oracle_data =
      some (record { price = pos 3; publish_time = pos 70; exponent = pos 0; conf = 0 });
  token1_pyth_oracle_data =
      some (record { price = pos 4; publish_time = pos 71; exponent = pos 0; conf = 0 });
  max_one_side_tick_arrays = 6;
  current_unix_timestamp = pos 77;
}
