-- ===== src/ByrealClmm/Quote.antt =====
-- The quote of byreal_clmm/core.rs: `marginal_price_from_swap_state`, `actual_curve_price` and
-- `quote_with_price_upper_bound`.
pub mod Ends
pub mod Answers
use Prim.Native.String.{String}
use package.text.Mathlib.Text.{find?}
use byreal_titan_integration.Base.{
  ℕ, ◌+◌, ◌-◌, ◌%◌, ◌^◌, min, ℤ, Bool, true, false, not, ◌&&◌, ◌||◌, [], ◌∷◌, Option, none, some,
  Map, Result, ok, err, fault, map_err, require, ◌>>=◌, ◌>>◌, ◌==◌, ltb, leb, if◌then◌else◌,
}
use byreal_titan_integration.TradingVenue.Error.{
  Message, text, key, number, TradingVenueError, missing_state, math_error, string, static_str,
}
use byreal_titan_integration.TradingVenue.Request.{QuoteRequest}
use byreal_titan_integration.ByrealClmm.Library.{Library}
use byreal_titan_integration.ByrealClmm.TickArray.{DynamicTickArrayState}
use byreal_titan_integration.ByrealClmm.Core.{
  Core, zero_pubkey, ensure_open, validate_mints, load_dynamic_pyth_prices, dynamic_fee_price_step,
}
use byreal_titan_integration.ByrealClmm.Navigate.{called}
use byreal_titan_integration.ByrealClmm.Swap.{SwapResult, dynamic_fee_rate, compute_swap}

-- `msg.contains(phrase)`: a phrase stands within one literal part, since no message of the code puts two together to one.
abbrev pub has_phrase : String → Message → Bool
has_phrase phrase [] = false
has_phrase phrase (text t ∷ rest) =
    let later = has_phrase phrase rest in elim (find? t phrase) [ some i ↦ true | none ↦ later ]
has_phrase phrase (key k ∷ rest) = has_phrase phrase rest
has_phrase phrase (number n ∷ rest) = has_phrase phrase rest

module _ (lib : Library) where
  pub record CoreQuoteResult : Type 0 where
    pub in_amount : ℕ
    pub out_amount : ℕ
    pub not_enough_liquidity : Bool
    pub price : lib.Float

  module _ (core : Core lib) where
    -- The u32 subtraction wraps.
    unfoldable pub marginal_price_from_swap_state :
        Bool → (sqrt_price_x64 fee_rate : ℕ) → Result Message lib.Float
    marginal_price_from_swap_state zero_for_one sqrt_price_x64 fee_rate = do
      price_x64 ← called (lib.price_from_sqrt_price_x64 sqrt_price_x64)
      let pool_price = lib.float_div (lib.float_of_nat price_x64) (lib.float_of_nat lib.q64)
      let kept = (lib.fee_rate_denominator_value + (2 ^ 32 - fee_rate % 2 ^ 32)) % 2 ^ 32
      let fee_multiplier =
          lib.float_div (lib.float_of_nat kept) (lib.float_of_nat lib.fee_rate_denominator_value)
      ok (
          if zero_for_one
          then lib.float_mul pool_price fee_multiplier
          else lib.float_div fee_multiplier pool_price)

    abbrev pub float_positive : lib.Float → Bool
    float_positive x = not (lib.float_le x lib.float_zero)

    -- The price towards the upper bound.
    unfoldable pub lower_curve_price :
        (fuel : ℕ)
        → Bool
        → (amount step : ℕ) → SwapResult
        → (constant_fee_price upper_price : lib.Float) → ℤ
        → Option ℕ
        → Result Message lib.Float
    lower_curve_price fuel zero_for_one amount step swap constant_fee_price upper_price
          current_timestamp none =
        ok upper_price
    lower_curve_price fuel zero_for_one amount step swap constant_fee_price upper_price
          current_timestamp (some upper_bound) =
        if leb upper_bound amount then ok upper_price else (do
          let next_step = min step (upper_bound - amount)
          next_swap ← compute_swap lib core fuel zero_for_one (amount + next_step) current_timestamp
          let lower_price =
              lib.float_div (lib.float_of_nat (next_swap.amount_out - swap.amount_out))
                (lib.float_of_nat next_step)
          if leb next_swap.amount_out swap.amount_out
              then ok upper_price
              else if not (lib.float_is_finite lower_price)
                  || lib.float_le lower_price lib.float_zero
              then ok upper_price
              else if lib.float_le lower_price upper_price
              then ok (lib.float_clamp constant_fee_price lower_price upper_price)
              else ok (lib.float_max constant_fee_price lower_price))

    unfoldable pub actual_curve_price :
        (fuel : ℕ)
        → Bool
        → (amount : ℕ) → SwapResult
        → (constant_fee_price : lib.Float) → ℤ
        → Option ℕ
        → Result Message lib.Float
    actual_curve_price fuel zero_for_one amount swap constant_fee_price current_timestamp
          upper_bound =
        if not (lib.is_swap_dynamic_fee_enabled core.pool_state)
        then ok constant_fee_price
        else elim (dynamic_fee_price_step lib core zero_for_one amount) [
          | none ↦ ok constant_fee_price
          | some step ↦ do
            previous_swap ←
                compute_swap lib core fuel zero_for_one (amount - step) current_timestamp
            let realized_price =
                lib.float_div (lib.float_of_nat (swap.amount_out - previous_swap.amount_out))
                  (lib.float_of_nat step)
            if leb swap.amount_out previous_swap.amount_out
                then ok constant_fee_price
                else lower_curve_price fuel zero_for_one amount step swap constant_fee_price
                    (if lib.float_is_finite realized_price && float_positive realized_price
                      then lib.float_min constant_fee_price realized_price
                      else constant_fee_price)
                    current_timestamp upper_bound
        ]

    -- What quoting asks of the state, before the amount is looked at.
    abbrev pub ensure_config : Option lib.AmmConfig → Result TradingVenueError (Unit {0})
    ensure_config none = err (missing_state (static_str "amm config missing; call update_state()"))
    ensure_config (some config) = ok tt

    unfoldable pub ensure_dynamic_state : Result TradingVenueError (Unit {0})
    ensure_dynamic_state = do
      require (not (core.token0_program_id == zero_pubkey || core.token1_program_id == zero_pubkey))
          (missing_state (
            static_str
              "dynamic fee vault accounts missing; call update_state() with required accounts"))
      map_err (λ e. missing_state (string (text "dynamic pyth state invalid: " ∷ e)))
          (load_dynamic_pyth_prices lib core >>= λ prices. ok tt)

    abbrev pub ensure_arrays : Map (DynamicTickArrayState lib) → Result TradingVenueError (Unit {0})
    ensure_arrays [] = err (
        missing_state
          (static_str "tick arrays missing; call update_state() with required tick accounts"))
    ensure_arrays (a ∷ rest) = ok tt

    unfoldable pub ensure_quotable : Result TradingVenueError (Unit {0})
    ensure_quotable = do
      ensure_open lib core
      ensure_config core.amm_config
      (if lib.is_swap_dynamic_fee_enabled core.pool_state then ensure_dynamic_state else ok tt)
      ensure_arrays core.dynamic_tick_arrays

    unfoldable pub spot_quote : Bool → Result TradingVenueError CoreQuoteResult
    spot_quote zero_for_one = do
      fee_rate ←
          map_err (λ e. math_error (string (text "spot price fee calculation failed: " ∷ e)))
            (dynamic_fee_rate lib core zero_for_one 0 core.current_unix_timestamp)
      price ←
          map_err (λ e. math_error (string (text "spot price calculation failed: " ∷ e)))
            (marginal_price_from_swap_state zero_for_one core.pool_state.sqrt_price_x64 fee_rate)
      ok (record { in_amount = 0; out_amount = 0; not_enough_liquidity = false; price = price })

    -- What an error of the swap becomes.
    unfoldable pub quote_of_error : Message → Result TradingVenueError CoreQuoteResult
    quote_of_error e =
        if has_phrase "Liquidity insufficient" e
        then ok (record {
          in_amount = 0;
          out_amount = 0;
          not_enough_liquidity = true;
          price = lib.float_zero;
        })
        else if has_phrase "dynamic fee" e || has_phrase "pyth" e || has_phrase "vault" e
        then err (missing_state (string (text "compute_swap failed: " ∷ e)))
        else err (math_error (string (text "compute_swap failed: " ∷ e)))

    unfoldable pub priced_quote :
        (fuel : ℕ)
        → Bool
        → (amount : ℕ) → Option ℕ
        → SwapResult
        → Result TradingVenueError CoreQuoteResult
    priced_quote fuel zero_for_one amount upper_bound swap = do
      constant_fee_price ←
          map_err (λ e. math_error (string (text "marginal price calculation failed: " ∷ e)))
            (marginal_price_from_swap_state zero_for_one swap.sqrt_price_x64 swap.fee_rate)
      price ←
          map_err (λ e. math_error (string (text "actual curve price calculation failed: " ∷ e)))
            (actual_curve_price fuel zero_for_one amount swap constant_fee_price
              core.current_unix_timestamp upper_bound)
      ok (record {
        in_amount = swap.amount_in;
        out_amount = swap.amount_out;
        not_enough_liquidity = ltb swap.amount_in amount;
        price = price;
      })

    -- The quote in a direction.
    unfoldable pub answer :
        (fuel : ℕ) → Bool → (amount : ℕ) → Option ℕ → Result TradingVenueError CoreQuoteResult
    answer fuel zero_for_one amount upper_bound =
        if amount == 0
        then spot_quote zero_for_one
        else elim (compute_swap lib core fuel zero_for_one amount core.current_unix_timestamp) [
          | ok swap ↦ priced_quote fuel zero_for_one amount upper_bound swap
          | err e ↦ quote_of_error e
          | fault x ↦ fault x
        ]

    unfoldable pub quote_with_price_upper_bound :
        (fuel : ℕ) → QuoteRequest → Option ℕ → Result TradingVenueError CoreQuoteResult
    quote_with_price_upper_bound fuel request upper_bound = do
      (input_is_0, output_is_0) ← validate_mints lib core request.input_mint request.output_mint
      ensure_quotable
      answer fuel input_is_0 request.amount upper_bound

    -- `quote`
    unfoldable pub core_quote : (fuel : ℕ) → QuoteRequest → Result TradingVenueError CoreQuoteResult
    core_quote fuel request = quote_with_price_upper_bound fuel request none
