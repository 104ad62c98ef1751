-- ===== src/ByrealClmm/Core.antt =====
-- The state of `ByrealClmmVenue` of byreal_clmm/core.rs, and what it reads off it.
pub mod Checks
use byreal_titan_integration.Base.{
  ℕ, suc, ◌+◌, ◌-◌, ◌*◌, ◌^◌, ◌%◌, ◌/◌, min, max, ℤ, pos, negsuc, ◌+ℤ◌, ◌-ℤ◌, ltb_ℤ, leb_ℤ, Bool,
  true, false, not, ◌&&◌, ◌||◌, List, [], ◌∷◌, ◌++◌, Option, none, some, Map, ◌⊎◌, inl, inr, Result,
  ok, err, ok_or, require, ◌>>=◌, ◌>>◌, ◌==◌, ltb, leb, if◌then◌else◌,
}
use byreal_titan_integration.TradingVenue.Error.{
  Pubkey, Message, text, TradingVenueError, invalid_mint, missing_state, inactive_pool_error,
  static_str, byreal_clmm,
}
use byreal_titan_integration.ByrealClmm.Library.{
  Library, PoolState, Price, text_seed, key_seed, i32_be_seed, u16_le_seed, feed_seed,
}
use byreal_titan_integration.ByrealClmm.TickArray.{DynamicTickArrayState}

abbrev pub zero_pubkey : Pubkey
zero_pubkey = 0

abbrev pub dynamic_max_pyth_age_seconds : ℕ
dynamic_max_pyth_age_seconds = 3600

pub record Core (lib : Library) : Type 0 where
  pub market_id : Pubkey
  pub program_id : Pubkey
  pub reserve_mints : Pubkey × Pubkey
  pub pool_state : PoolState
  pub amm_config : Option lib.AmmConfig
  pub bitmap_extension : Option lib.BitmapExtension
  pub dynamic_tick_arrays : Map (DynamicTickArrayState lib)
  pub token0_vault_amount : ℕ
  pub token1_vault_amount : ℕ
  pub token0_program_id : Pubkey
  pub token1_program_id : Pubkey
  pub token0_pyth_oracle_data : Option Price
  pub token1_pyth_oracle_data : Option Price
  pub max_one_side_tick_arrays : ℕ
  pub current_unix_timestamp : ℤ

-- An i64 read as a u64.
abbrev pub as_u64 : ℤ → ℕ
as_u64 (pos n) = n % 2 ^ 64
as_u64 (negsuc n) = (2 ^ 64 - suc n % 2 ^ 64) % 2 ^ 64

-- The difference of two i64s, which wraps around at the bounds of an i64.
unfoldable pub wrapping_sub_i64 : ℤ → ℤ → ℤ
wrapping_sub_i64 a b =
    let difference = a -ℤ b in
    if ltb_ℤ difference (negsuc (2 ^ 63 - 1))
    then difference +ℤ pos (2 ^ 64)
    else (if ltb_ℤ (pos (2 ^ 63 - 1)) difference then difference -ℤ pos (2 ^ 64) else difference)

module _ (lib : Library) (core : Core lib) where
  unfoldable pub token_mints : Pubkey × Pubkey
  token_mints = (core.pool_state.token_mint_0, core.pool_state.token_mint_1)

  unfoldable pub mint_decimals : ℕ × ℕ
  mint_decimals = (core.pool_state.mint_decimals_0, core.pool_state.mint_decimals_1)

  unfoldable pub tick_array_bitmap_extension_key : Pubkey
  tick_array_bitmap_extension_key =
      lib.find_program_address
        (text_seed "pool_tick_array_bitmap_extension" ∷ key_seed core.market_id ∷ [])
        core.program_id

  unfoldable pub get_price_feed_account_address : (shard_id price_feed_id : ℕ) → Pubkey
  get_price_feed_account_address shard_id price_feed_id =
      lib.find_program_address (u16_le_seed shard_id ∷ feed_seed price_feed_id ∷ [])
        lib.pyth_price_feed_program_id

  unfoldable pub token0_pyth_oracle_pubkey : Option Pubkey
  token0_pyth_oracle_pubkey =
      if core.pool_state.token0_pyth_feed_id == 0
      then none
      else some (get_price_feed_account_address 0 core.pool_state.token0_pyth_feed_id)

  unfoldable pub token1_pyth_oracle_pubkey : Option Pubkey
  token1_pyth_oracle_pubkey =
      if core.pool_state.token1_pyth_feed_id == 0
      then none
      else some (get_price_feed_account_address 0 core.pool_state.token1_pyth_feed_id)

  unfoldable pub get_tick_array_address : ℤ → Pubkey
  get_tick_array_address start_index =
      lib.find_program_address
        (text_seed lib.tick_array_seed ∷ key_seed core.market_id ∷ i32_be_seed start_index ∷ [])
        core.program_id

  -- Whether each of the two mints is the pool's first.
  unfoldable pub validate_mints : (input output : Pubkey) → Result TradingVenueError (Bool × Bool)
  validate_mints input output = do
    let input_is_0 = input == core.reserve_mints.0
    let input_is_1 = input == core.reserve_mints.1
    require (not (not input_is_0 && not input_is_1))
        (invalid_mint (static_str "input mint not part of pool"))
    let output_is_0 = output == core.reserve_mints.0
    let output_is_1 = output == core.reserve_mints.1
    require (not (not output_is_0 && not output_is_1))
        (invalid_mint (static_str "output mint not part of pool"))
    require (not (input == output)) (invalid_mint (static_str "input/output mint must differ"))
    ok (input_is_0, output_is_0)

  unfoldable pub ensure_swap_status_enabled : Result TradingVenueError (Unit {0})
  ensure_swap_status_enabled =
      if lib.is_swap_status_enabled core.pool_state
      then ok tt
      else err (inactive_pool_error core.market_id byreal_clmm)

  unfoldable pub load_dynamic_pyth_prices : Result Message (Price × Price)
  load_dynamic_pyth_prices = do
    token0_price ←
        ok_or core.token0_pyth_oracle_data (text "dynamic fee pyth oracle accounts missing" ∷ [])
    token1_price ←
        ok_or core.token1_pyth_oracle_data (text "dynamic fee pyth oracle accounts missing" ∷ [])
    require (not (leb_ℤ token0_price.price (pos 0) || leb_ℤ token1_price.price (pos 0)))
        (text "pyth price is non-positive" ∷ [])
    let oldest_allowed =
        wrapping_sub_i64 core.current_unix_timestamp (pos dynamic_max_pyth_age_seconds)
    require
        (not (
          ltb_ℤ token0_price.publish_time oldest_allowed
          || ltb_ℤ token1_price.publish_time oldest_allowed))
        (text "pyth price is stale" ∷ [])
    ok (token0_price, token1_price)

  -- The first checks of quoting and of building.
  unfoldable pub ensure_open : Result TradingVenueError (Unit {0})
  ensure_open = do
    require (not (leb_ℤ core.current_unix_timestamp (pos 0)))
        (missing_state (static_str "missing clock; call update_state() with sysvar clock"))
    require (not (leb (as_u64 core.current_unix_timestamp) core.pool_state.open_time))
        (missing_state (static_str "pool is not open yet"))
    ensure_swap_status_enabled

  -- `10u64.checked_pow`
  unfoldable pub input_token_unit : Bool → Option ℕ
  input_token_unit zero_for_one =
      let decimals =
        if zero_for_one then core.pool_state.mint_decimals_0 else core.pool_state.mint_decimals_1 in
      let unit = 10 ^ decimals in if ltb unit (2 ^ 64) then some unit else none

  unfoldable pub dynamic_fee_price_step : Bool → ℕ → Option ℕ
  dynamic_fee_price_step zero_for_one amount = elim (input_token_unit zero_for_one) [
    | none ↦ none
    | some input_unit ↦
        if ltb amount (input_unit / 10)
        then none
        else (let step = min (max (amount / 1_000) (input_unit / 10)) amount in
            if ltb 0 step then some step else none)
  ]
