-- ===== src/ByrealClmm/Quote/Ends.antt =====
-- The quotes of byreal_clmm/core.rs: `quote_with_price_upper_bound` and the prices of a quote.
use byreal_titan_integration.Base.{
  ℕ, ◌+◌, ◌-◌, min, ◌≡◌, sym, ◌∙◌, inl, inr, Bool, not, ◌||◌, [], ◌∷◌, Option, none, some, Map, ok,
  require, ◌>>=◌, ◌==◌, leb, arith, Option-cases, Result-cases, NoFault, bind-NoFault, ok-NoFault,
  err-NoFault, map_err-NoFault, require-NoFault, then-NoFault, if-NoFault,
}
use byreal_titan_integration.TradingVenue.Error.{Message}
use byreal_titan_integration.TradingVenue.Request.{QuoteRequest}
use byreal_titan_integration.ByrealClmm.Library.{Library}
use byreal_titan_integration.ByrealClmm.TickArray.{DynamicTickArrayState}
use byreal_titan_integration.ByrealClmm.Core.{
  Core, zero_pubkey, ensure_open, ensure_swap_status_enabled, validate_mints,
  load_dynamic_pyth_prices, dynamic_fee_price_step,
}
use byreal_titan_integration.ByrealClmm.Swap.{SwapResult, compute_swap}
use byreal_titan_integration.ByrealClmm.Swap.Fees.{
  called-NoFault, prices-NoFault, dynamic_fee_rate-NoFault,
}
use byreal_titan_integration.ByrealClmm.Quote.{
  marginal_price_from_swap_state, lower_curve_price, actual_curve_price, ensure_config,
  ensure_arrays, ensure_dynamic_state, ensure_quotable, spot_quote, quote_of_error, priced_quote,
  answer, quote_with_price_upper_bound, has_phrase,
}

module _ (lib : Library) (core : Core lib) where
  marginal_price-NoFault :
      (zero_for_one : Bool) (sqrt_price_x64 fee_rate : ℕ)
      → NoFault (marginal_price_from_swap_state lib core zero_for_one sqrt_price_x64 fee_rate)
  unfolding marginal_price_from_swap_state
  marginal_price-NoFault zero_for_one sqrt_price_x64 fee_rate =
      bind-NoFault _ _ (called-NoFault (lib.price_from_sqrt_price_x64 sqrt_price_x64))
        λ price e. ok-NoFault _

  validate_mints-NoFault : (input output : ℕ) → NoFault (validate_mints lib core input output)
  unfolding validate_mints
  validate_mints-NoFault input output x h = ground arith

  validate_mints_direction :
      (input output : ℕ) (flags : Bool × Bool)
      → validate_mints lib core input output ≡ ok flags
      → (input == core.reserve_mints.0) ≡ flags.0
  unfolding validate_mints
  validate_mints_direction input output flags h = ground arith

  ensure_open-NoFault : NoFault (ensure_open lib core)
  unfolding ensure_open ensure_swap_status_enabled
  ensure_open-NoFault x h = ground arith

  spot_quote-NoFault : (zero_for_one : Bool) → NoFault (spot_quote lib core zero_for_one)
  unfolding spot_quote
  spot_quote-NoFault zero_for_one =
      bind-NoFault _ _
        (map_err-NoFault _ _
          (dynamic_fee_rate-NoFault lib core zero_for_one 0 core.current_unix_timestamp))
        λ fee_rate e.
          bind-NoFault _ _
            (map_err-NoFault _ _
              (marginal_price-NoFault zero_for_one core.pool_state.sqrt_price_x64 fee_rate))
            λ price e'. ok-NoFault _

  ensure_config-NoFault : (config : Option lib.AmmConfig) → NoFault (ensure_config lib core config)
  ensure_config-NoFault none = err-NoFault _
  ensure_config-NoFault (some config) = ok-NoFault _

  ensure_arrays-NoFault :
      (arrays : Map (DynamicTickArrayState lib)) → NoFault (ensure_arrays lib core arrays)
  ensure_arrays-NoFault [] = err-NoFault _
  ensure_arrays-NoFault (a ∷ rest) = ok-NoFault _

  ensure_dynamic_state-NoFault : NoFault (ensure_dynamic_state lib core)
  unfolding ensure_dynamic_state
  ensure_dynamic_state-NoFault =
      then-NoFault (require _ _) _
        (require-NoFault
          (not (core.token0_program_id == zero_pubkey || core.token1_program_id == zero_pubkey)) _)
        (map_err-NoFault _ (load_dynamic_pyth_prices lib core >>= λ prices. ok tt)
          (bind-NoFault _ _ (prices-NoFault lib core) λ prices e. ok-NoFault tt))

  ensure_quotable-NoFault : NoFault (ensure_quotable lib core)
  unfolding ensure_quotable
  ensure_quotable-NoFault = then-NoFault _ _ ensure_open-NoFault (
      then-NoFault _ _ (ensure_config-NoFault core.amm_config) (
        then-NoFault _ _
          (if-NoFault (lib.is_swap_dynamic_fee_enabled core.pool_state) _ _
            ensure_dynamic_state-NoFault (ok-NoFault tt))
          (ensure_arrays-NoFault core.dynamic_tick_arrays)))

  module _ (fuel : ℕ) (zero_for_one : Bool)
      (swaps : (amount : ℕ)
        → NoFault
            (compute_swap lib core fuel zero_for_one amount core.current_unix_timestamp)) where
    lower_curve_price-NoFault :
        (amount step : ℕ) (swap : SwapResult) (constant_fee_price upper_price : lib.Float)
        (upper_bound : Option ℕ)
        → NoFault (
            lower_curve_price lib core fuel zero_for_one amount step swap constant_fee_price
              upper_price core.current_unix_timestamp upper_bound)
    unfolding lower_curve_price
    lower_curve_price-NoFault amount step swap constant_fee_price upper_price none = ok-NoFault _
    lower_curve_price-NoFault amount step swap constant_fee_price upper_price (some upper_bound) =
        if-NoFault (leb upper_bound amount) _ _ (ok-NoFault _) (
          bind-NoFault _ _ (swaps (amount + min step (upper_bound - amount)))
            λ next_swap e. λ x h. ground arith)

    actual_curve_price-NoFault :
        (amount : ℕ) (swap : SwapResult) (constant_fee_price : lib.Float) (upper_bound : Option ℕ)
        → NoFault (
            actual_curve_price lib core fuel zero_for_one amount swap constant_fee_price
              core.current_unix_timestamp upper_bound)
    unfolding actual_curve_price
    actual_curve_price-NoFault amount swap constant_fee_price upper_bound =
        if-NoFault (not (lib.is_swap_dynamic_fee_enabled core.pool_state)) _ _ (ok-NoFault _)
          (elim (Option-cases (dynamic_fee_price_step lib core zero_for_one amount)) [
            | inl no_step ↦ rw (no_step) (ok-NoFault _)
            | inr (step, e) ↦ rw (e) (
                bind-NoFault _ _ (swaps (amount - step)) λ previous_swap e'.
                  if-NoFault (leb swap.amount_out previous_swap.amount_out) _ _ (ok-NoFault _)
                    (lower_curve_price-NoFault amount step swap constant_fee_price _ upper_bound))
          ])

    priced_quote-NoFault :
        (amount : ℕ) (upper_bound : Option ℕ) (swap : SwapResult)
        → NoFault (priced_quote lib core fuel zero_for_one amount upper_bound swap)
    unfolding priced_quote
    priced_quote-NoFault amount upper_bound swap =
        bind-NoFault _ _
          (map_err-NoFault _ _
            (marginal_price-NoFault zero_for_one swap.sqrt_price_x64 swap.fee_rate))
          λ constant_fee_price e.
            bind-NoFault _ _
              (map_err-NoFault _ _
                (actual_curve_price-NoFault amount swap constant_fee_price upper_bound))
              λ price e'. ok-NoFault _

    quote_of_error-NoFault : (e : Message) → NoFault (quote_of_error lib core e)
    unfolding quote_of_error
    quote_of_error-NoFault e =
        if-NoFault (has_phrase "Liquidity insufficient" e) _ _ (ok-NoFault _) (
          if-NoFault (has_phrase "dynamic fee" e || has_phrase "pyth" e || has_phrase "vault" e) _ _
            (err-NoFault _) (err-NoFault _))

    answer-NoFault :
        (amount : ℕ) (upper_bound : Option ℕ)
        → NoFault (answer lib core fuel zero_for_one amount upper_bound)
    unfolding answer
    answer-NoFault amount upper_bound =
        if-NoFault (amount == 0) _ _ (spot_quote-NoFault zero_for_one)
          (elim (Result-cases
            (compute_swap lib core fuel zero_for_one amount core.current_unix_timestamp)) [
              | inl (swap, e) ↦ rw (e) (priced_quote-NoFault amount upper_bound swap)
              | inr (inl (e, failed)) ↦ rw (failed) (quote_of_error-NoFault e)
              | inr (inr (x, failed)) ↦ absurd (swaps amount x failed)
            ])

    pub quote-NoFault :
        (request : QuoteRequest) (upper_bound : Option ℕ)
        → (request.input_mint == core.reserve_mints.0) ≡ zero_for_one
        → NoFault (quote_with_price_upper_bound lib core fuel request upper_bound)
    unfolding quote_with_price_upper_bound
    quote-NoFault request upper_bound direction =
        bind-NoFault _ _ (validate_mints-NoFault request.input_mint request.output_mint) λ flags e.
          then-NoFault _ _ ensure_quotable-NoFault (
            rw
              (sym (validate_mints_direction request.input_mint request.output_mint flags e)
                ∙ direction)
              (answer-NoFault request.amount upper_bound))
