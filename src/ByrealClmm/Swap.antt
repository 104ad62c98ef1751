-- ===== src/ByrealClmm/Swap.antt =====
-- The fee and the exact-in swap of byreal_clmm/core.rs: `dynamic_fee_rate`, `simulate_swap_steps` and `compute_swap`.
pub mod Arrays
pub mod Starts
pub mod Navigable
pub mod Search
pub mod Loaded
pub mod Steps
pub mod Rounds
pub mod Ends
pub mod Fees
pub mod Totals
use byreal_titan_integration.Base.{
  ℕ, zero, suc, ◌+◌, ◌-◌, ◌^◌, ◌%◌, ℤ, pos, ◌-ℤ◌, eqb_ℤ, Bool, true, false, not, ◌&&◌, ◌||◌, [],
  ◌∷◌, Option, none, some, Result, ok, fault, out_of_fuel, ok_or, require, ◌>>=◌, ◌>>◌, ◌==◌, ltb,
  leb, if◌then◌else◌,
}
use byreal_titan_integration.TradingVenue.Error.{Message, text, number}
use byreal_titan_integration.ByrealClmm.Library.{Library, SwapStep}
use byreal_titan_integration.ByrealClmm.Core.{Core, zero_pubkey, as_u64, load_dynamic_pyth_prices}
use byreal_titan_integration.ByrealClmm.Navigate.{
  TickNavState, called, called_with, init_tick_nav_state, find_next_initialized_tick_with_nav,
  tick_liquidity_net,
}

pub record SwapState : Type 0 where
  pub amount_specified_remaining : ℕ
  pub amount_calculated : ℕ
  pub sqrt_price_x64 : ℕ
  pub tick : ℤ
  pub liquidity : ℕ
  pub fee_amount : ℕ

pub record SwapResult : Type 0 where
  pub amount_in : ℕ
  pub amount_out : ℕ
  pub sqrt_price_x64 : ℕ
  pub fee_rate : ℕ

-- `u64::checked_add` and `u64::checked_sub`.
abbrev pub checked_add : ℕ → ℕ → Option ℕ
checked_add a b = if ltb (a + b) (2 ^ 64) then some (a + b) else none

abbrev pub checked_sub : ℕ → ℕ → Option ℕ
checked_sub a b = if leb b a then some (a - b) else none

-- `-a` of an i128, which the least one does not leave.
abbrev pub neg_i128 : ℤ → ℤ
neg_i128 a = if eqb_ℤ a (pos 0 -ℤ pos (2 ^ 127)) then a else pos 0 -ℤ a

module _ (lib : Library) (core : Core lib) where
  unfoldable pub dynamic_fee_rate :
      (zero_for_one : Bool) (amount_specified : ℕ) (current_timestamp : ℤ) → Result Message ℕ
  dynamic_fee_rate zero_for_one amount_specified current_timestamp = do
    let pool = core.pool_state
    amm_config ← ok_or core.amm_config (text "AMM config not loaded" ∷ [])
    fee_rate ←
        called (
          lib.calculate_base_trade_fee_rate pool amm_config zero_for_one (as_u64 current_timestamp))
    if not (lib.is_swap_dynamic_fee_enabled pool) then ok fee_rate else (do
      require (not (core.token0_program_id == zero_pubkey || core.token1_program_id == zero_pubkey))
          (text "dynamic fee vault accounts missing" ∷ [])
      (token0_price, token1_price) ← load_dynamic_pyth_prices lib core
      p_index ← called (
          lib.calculate_price_index token0_price token1_price pool.mint_decimals_0
            pool.mint_decimals_1)
      p_0 ← called (lib.price_from_sqrt_price_x64 pool.sqrt_price_x64)
      let token1_as_quote = lib.is_token1_quote pool
      let input_is_quote : Bool = if token1_as_quote then not zero_for_one else zero_for_one
      quote_amount ←
          (if input_is_quote
            then ok amount_specified
            else called (lib.quote_amount_from_base amount_specified p_0 token1_as_quote))
      trade_size ← called (
          lib.normalize_trade_size quote_amount
            (if token1_as_quote then pool.mint_decimals_1 else pool.mint_decimals_0))
      let base_amount : ℕ =
          if token1_as_quote then core.token0_vault_amount else core.token1_vault_amount
      let quote_balance : ℕ =
          if token1_as_quote then core.token1_vault_amount else core.token0_vault_amount
      quote_value_of_base ← called (lib.quote_amount_from_base base_amount p_0 token1_as_quote)
      called (
          lib.calculate_dynamic_fee_rate (record {
            p_0 = p_0;
            p_index = p_index;
            trade_size = trade_size;
            quote_value_of_base = quote_value_of_base;
            quote_balance = quote_balance;
            is_buying_base = input_is_quote;
            fee_base = fee_rate;
            arbitrage_fee_buffer_ppm = pool.arbitrage_fee_buffer_ppm;
            trade_slippage_fee_base_milli_bp = pool.trade_slippage_fee_base_milli_bp;
            trade_slippage_fee_trade_size_threshold = pool.trade_slippage_fee_trade_size_threshold;
            imbalance_fee_base_tenths_of_bp = pool.imbalance_fee_base_tenths_of_bp;
            imbalance_fee_x = pool.imbalance_fee_x;
          })))

  -- Where the step aims.
  abbrev pub target_price : Bool → (sqrt_price_next sqrt_price_limit : ℕ) → ℕ
  target_price zero_for_one sqrt_price_next sqrt_price_limit =
      if (zero_for_one && ltb sqrt_price_next sqrt_price_limit)
        || (not zero_for_one && ltb sqrt_price_limit sqrt_price_next)
      then sqrt_price_limit
      else sqrt_price_next

  -- The amounts that a step moves.
  unfoldable pub apply_amounts : SwapState → SwapStep → Result Message SwapState
  apply_amounts state step = do
    fee_amount ←
        ok_or (checked_add state.fee_amount step.fee_amount)
          (text "compute_swap: fee_amount overflow" ∷ [])
    step_amount_in_with_fee ←
        ok_or (checked_add step.amount_in step.fee_amount)
          (text "compute_swap: step.amount_in + fee_amount overflow" ∷ [])
    remaining ←
        ok_or (checked_sub state.amount_specified_remaining step_amount_in_with_fee)
          (text "compute_swap: step.amount_in + fee_amount exceeds remaining" ∷ [])
    amount_calculated ←
        ok_or (checked_add state.amount_calculated step.amount_out)
          (text "compute_swap: amount_calculated overflow when adding amount_out" ∷ [])
    ok (record {
      amount_specified_remaining = remaining;
      amount_calculated = amount_calculated;
      sqrt_price_x64 = step.sqrt_price_next_x64;
      tick = state.tick;
      liquidity = state.liquidity;
      fee_amount = fee_amount;
    })

  -- The tick, and at an initialized tick the liquidity, after a step.
  unfoldable pub cross :
      Bool → (next_tick : ℤ) (sqrt_price_next : ℕ) → SwapState → Result Message SwapState
  cross zero_for_one next_tick sqrt_price_next state =
      if state.sqrt_price_x64 == sqrt_price_next
      then (do
        net ← tick_liquidity_net lib core next_tick
        liq_net ← ok_or net (text "Missing tick array data for tick " ∷ number next_tick ∷ [])
        liquidity ←
            called_with (text "Failed to adjust liquidity at tick " ∷ number next_tick ∷ [])
              (lib.add_delta state.liquidity (if zero_for_one then neg_i128 liq_net else liq_net))
        ok (record state {
          liquidity = liquidity;
          tick = if zero_for_one then next_tick -ℤ pos 1 else next_tick;
        }))
      else (do
        tick ←
            called_with (text "Failed to get tick at sqrt price: " ∷ [])
              (lib.get_tick_at_sqrt_price state.sqrt_price_x64)
        ok (record state { tick = tick }))

  -- One round of the loop.
  unfoldable pub swap_round :
      (fuel fee_rate sqrt_price_limit : ℕ)
      → Bool
      → ℤ
      → SwapState
      → TickNavState
      → Result Message (SwapState × TickNavState)
  swap_round fuel fee_rate sqrt_price_limit zero_for_one current_timestamp state nav = do
    (next_tick, nav') ←
        find_next_initialized_tick_with_nav lib core fuel state.tick zero_for_one nav
    sqrt_price_next ←
        called_with (text "Failed to get sqrt price at tick " ∷ number next_tick ∷ [])
          (lib.get_sqrt_price_at_tick next_tick)
    step ← called_with (text "Swap step computation failed: " ∷ []) (
        lib.compute_swap_step state.sqrt_price_x64
          (target_price zero_for_one sqrt_price_next sqrt_price_limit) state.liquidity
          state.amount_specified_remaining fee_rate true zero_for_one
          (as_u64 current_timestamp % 2 ^ 32))
    moved ← apply_amounts state step
    crossed ← cross zero_for_one next_tick sqrt_price_next moved
    ok (crossed, nav')

  unfoldable pub swap_loop :
      (fuel fee_rate sqrt_price_limit : ℕ)
      → Bool
      → ℤ
      → SwapState
      → TickNavState
      → Result Message SwapState
  swap_loop zero fee_rate sqrt_price_limit zero_for_one current_timestamp state nav =
      if not (state.amount_specified_remaining == 0)
        && not (state.sqrt_price_x64 == sqrt_price_limit)
      then fault out_of_fuel
      else ok state
  swap_loop (suc fuel) fee_rate sqrt_price_limit zero_for_one current_timestamp state nav =
      elim (not (state.amount_specified_remaining == 0)
        && not (state.sqrt_price_x64 == sqrt_price_limit)) [
          | false ↦ ok state
          | true ↦ do
            (state', nav') ←
                swap_round fuel fee_rate sqrt_price_limit zero_for_one current_timestamp state nav
            swap_loop fuel fee_rate sqrt_price_limit zero_for_one current_timestamp state' nav'
        ]

  unfoldable pub simulate_swap_steps :
      (fuel fee_rate amount_specified sqrt_price_limit : ℕ) → Bool → ℤ → Result Message SwapState
  simulate_swap_steps fuel fee_rate amount_specified sqrt_price_limit zero_for_one
        current_timestamp =
      do
        nav ← init_tick_nav_state lib core fuel zero_for_one
        swap_loop fuel fee_rate sqrt_price_limit zero_for_one current_timestamp
            (record {
              amount_specified_remaining = amount_specified;
              amount_calculated = 0;
              sqrt_price_x64 = core.pool_state.sqrt_price_x64;
              tick = core.pool_state.tick_current;
              liquidity = core.pool_state.liquidity;
              fee_amount = 0;
            })
            nav

  unfoldable pub run_swap :
      (fuel : ℕ)
      → Bool
      → (amount_specified sqrt_price_limit : ℕ) → ℤ
      → Result Message (SwapState × ℕ)
  run_swap fuel zero_for_one amount_specified sqrt_price_limit current_timestamp = do
    final_fee ← dynamic_fee_rate zero_for_one amount_specified current_timestamp
    state ←
        simulate_swap_steps fuel final_fee amount_specified sqrt_price_limit zero_for_one
          current_timestamp
    ok (state, final_fee)

  -- `sqrt_price_limit_x64` is `None` at every call.
  unfoldable pub compute_swap :
      (fuel : ℕ) → Bool → (amount_specified : ℕ) → ℤ → Result Message SwapResult
  compute_swap fuel zero_for_one amount_specified current_timestamp = do
    let sqrt_price_limit : ℕ =
        if zero_for_one then lib.min_sqrt_price_x64 + 1 else lib.max_sqrt_price_x64 - 1
    (state, fee_rate) ←
        run_swap fuel zero_for_one amount_specified sqrt_price_limit current_timestamp
    amount_in ←
        ok_or (checked_sub amount_specified state.amount_specified_remaining)
          (text "compute_swap: raw input underflow" ∷ [])
    ok (record {
      amount_in = amount_in;
      amount_out = state.amount_calculated;
      sqrt_price_x64 = state.sqrt_price_x64;
      fee_rate = fee_rate;
    })
