-- ===== src/ByrealClmm/Library.antt =====
-- What core.rs takes of the crates byreal_clmm, anchor_lang and spl: a field for each function that it calls. A call
-- of theirs gives an error or a value; it does not panic.
use byreal_titan_integration.Base.{ℕ, ℤ, Bool, String, List, Option, ◌⊎◌}
use byreal_titan_integration.TradingVenue.Error.{Pubkey, Message}

-- The public fields of `PoolState` that core.rs reads; `others` is what only the crate reads. A feed id is 0 when all
-- of its bytes are.
pub record PoolState : Type 0 where
  pub token_mint_0 : Pubkey
  pub token_mint_1 : Pubkey
  pub mint_decimals_0 : ℕ
  pub mint_decimals_1 : ℕ
  pub amm_config : Pubkey
  pub token_vault_0 : Pubkey
  pub token_vault_1 : Pubkey
  pub observation_key : Pubkey
  pub tick_spacing : ℕ
  pub tick_current : ℤ
  pub sqrt_price_x64 : ℕ
  pub liquidity : ℕ
  pub open_time : ℕ
  pub token0_pyth_feed_id : ℕ
  pub token1_pyth_feed_id : ℕ
  pub tick_array_bitmap : List ℕ
  pub arbitrage_fee_buffer_ppm : ℕ
  pub trade_slippage_fee_base_milli_bp : ℕ
  pub trade_slippage_fee_trade_size_threshold : ℕ
  pub imbalance_fee_base_tenths_of_bp : ℕ
  pub imbalance_fee_x : ℕ
  pub others : List ℕ

-- `Price` of the Pyth SDK.
pub record Price : Type 0 where
  pub price : ℤ
  pub publish_time : ℤ
  pub exponent : ℤ
  pub conf : ℕ

pub record TickState : Type 0 where
  pub tick : ℤ
  pub liquidity_net : ℤ
  pub liquidity_gross : ℕ

-- A seed of a program address.
pub data Seed : Type 0 where
  text_seed : String → Seed
  key_seed : Pubkey → Seed
  i32_be_seed : ℤ → Seed
  u16_le_seed : ℕ → Seed
  feed_seed : ℕ → Seed

pub record Clock : Type 0 where
  pub epoch : ℕ
  pub unix_timestamp : ℤ

-- `DynamicFeeInputs` of the crate's dynamic_fee_math.
pub record DynamicFeeInputs : Type 0 where
  pub p_0 : ℕ
  pub p_index : ℕ
  pub trade_size : ℕ
  pub quote_value_of_base : ℕ
  pub quote_balance : ℕ
  pub is_buying_base : Bool
  pub fee_base : ℕ
  pub arbitrage_fee_buffer_ppm : ℕ
  pub trade_slippage_fee_base_milli_bp : ℕ
  pub trade_slippage_fee_trade_size_threshold : ℕ
  pub imbalance_fee_base_tenths_of_bp : ℕ
  pub imbalance_fee_x : ℕ

-- What `swap_math::compute_swap_step` gives.
pub record SwapStep : Type 0 where
  pub sqrt_price_next_x64 : ℕ
  pub amount_in : ℕ
  pub amount_out : ℕ
  pub fee_amount : ℕ

pub record Library : Type 1 where
  pub AmmConfig : Type 0
  pub BitmapExtension : Type 0
  pub DynTickArrayHeader : Type 0
  pub PriceUpdate : Type 0
  pub spl_token_id : Pubkey
  pub spl_token_2022_id : Pubkey
  pub spl_memo_id : Pubkey
  pub clock_id : Pubkey
  pub pyth_receiver_program_id : Pubkey
  pub pyth_price_feed_program_id : Pubkey
  pub tick_array_seed : String
  pub tick_array_size : ℕ
  pub find_program_address : List Seed → Pubkey → Pubkey
  pub is_swap_dynamic_fee_enabled : PoolState → Bool
  pub is_swap_status_enabled : PoolState → Bool
  pub is_overflow_default_tickarray_bitmap : PoolState → List ℤ → Bool
  pub get_array_start_index : ℤ → ℕ → ℤ
  pub get_first_initialized_tick_array :
      PoolState → Option BitmapExtension → Bool → Message ⊎ (Bool × ℤ)
  pub next_initialized_tick_array_start_index :
      PoolState → Option BitmapExtension → ℤ → Bool → Message ⊎ Option ℤ
  -- `SwapV3Dyn { amount, other_amount_threshold, sqrt_price_limit_x64, is_base_input }.data()`
  pub swap_v3_dyn_data : ℕ → ℕ → ℕ → Bool → List ℕ
  pub decode_pool_state : List ℕ → Message ⊎ PoolState
  pub decode_amm_config : List ℕ → Message ⊎ AmmConfig
  pub decode_bitmap_extension : List ℕ → Message ⊎ BitmapExtension
  pub dyn_discriminator : List ℕ
  pub fixed_discriminator : List ℕ
  pub dyn_header_len : ℕ
  pub read_dyn_header : List ℕ → DynTickArrayHeader
  pub dyn_start_tick_index : DynTickArrayHeader → ℤ
  pub dyn_next_initialized_tick_index :
      DynTickArrayHeader → List TickState → ℤ → ℕ → Bool → Message ⊎ Option ℕ
  pub dyn_first_initialized_tick_index : DynTickArrayHeader → List TickState → Bool → Message ⊎ ℕ
  pub dyn_get_tick_index_in_array : DynTickArrayHeader → ℤ → ℕ → Message ⊎ ℕ
  pub tick_state_len : ℕ
  pub read_tick_state : List ℕ → TickState
  pub tick_is_initialized : TickState → Bool
  pub get_tick_offset_in_tick_array : ℤ → ℤ → ℕ → Message ⊎ ℕ
  pub decode_clock : List ℕ → Message ⊎ Clock
  pub unpack_token_account : List ℕ → Message ⊎ ℕ
  pub unpack_token_2022_account : List ℕ → Message ⊎ ℕ
  pub decode_price_update : List ℕ → Message ⊎ PriceUpdate
  pub get_price_unchecked : PriceUpdate → ℕ → Option Price
  pub min_tick : ℤ
  pub max_tick : ℤ
  pub min_sqrt_price_x64 : ℕ
  pub max_sqrt_price_x64 : ℕ
  pub tick_array_start_index_range : PoolState → ℤ × ℤ
  pub check_tick_array_is_initialized : BitmapExtension → ℤ → ℕ → Message ⊎ (Bool × ℤ)
  pub check_current_tick_array_is_initialized : List ℕ → ℤ → ℕ → Message ⊎ (Bool × ℤ)
  pub next_tick_array_in_bitmap : List ℕ → ℤ → ℕ → Bool → Bool × ℤ
  pub next_initialized_tick_array_from_one_bitmap :
      BitmapExtension → ℤ → ℕ → Bool → Message ⊎ (Bool × ℤ)
  pub get_sqrt_price_at_tick : ℤ → Message ⊎ ℕ
  pub get_tick_at_sqrt_price : ℕ → Message ⊎ ℤ
  pub compute_swap_step :
      (sqrt_price target liquidity remaining fee_rate : ℕ) (is_base_input zero_for_one : Bool)
      (timestamp : ℕ)
      → Message ⊎ SwapStep
  pub add_delta : ℕ → ℤ → Message ⊎ ℕ
  pub calculate_base_trade_fee_rate : PoolState → AmmConfig → Bool → ℕ → Message ⊎ ℕ
  pub calculate_price_index : Price → Price → ℕ → ℕ → Message ⊎ ℕ
  pub price_from_sqrt_price_x64 : ℕ → Message ⊎ ℕ
  pub is_token1_quote : PoolState → Bool
  pub quote_amount_from_base : ℕ → ℕ → Bool → Message ⊎ ℕ
  pub normalize_trade_size : ℕ → ℕ → Message ⊎ ℕ
  pub calculate_dynamic_fee_rate : DynamicFeeInputs → Message ⊎ ℕ
  -- f64 and what core.rs does with it.
  pub Float : Type 0
  pub float_zero : Float
  pub float_of_nat : ℕ → Float
  pub float_div : Float → Float → Float
  pub float_mul : Float → Float → Float
  pub float_min : Float → Float → Float
  pub float_max : Float → Float → Float
  pub float_clamp : Float → Float → Float → Float
  pub float_le : Float → Float → Bool
  pub float_is_finite : Float → Bool
  pub q64 : ℕ
  pub fee_rate_denominator_value : ℕ
