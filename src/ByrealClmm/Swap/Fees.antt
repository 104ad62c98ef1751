-- ===== src/ByrealClmm/Swap/Fees.antt =====
-- The fee of byreal_clmm/core.rs, `dynamic_fee_rate`, returns.
use byreal_titan_integration.Base.{
  ℕ, ℤ, pos, Bool, not, ◌||◌, [], ◌∷◌, ◌⊎◌, inl, inr, NoFault, bind-NoFault, ok_or-NoFault,
  ok-NoFault, require-NoFault, then-NoFault, if-NoFault, ◌==◌, leb_ℤ, ltb_ℤ, if◌then◌else◌,
}
use byreal_titan_integration.TradingVenue.Error.{Message, text}
use byreal_titan_integration.ByrealClmm.Library.{Library}
use byreal_titan_integration.ByrealClmm.Core.{
  Core, as_u64, zero_pubkey, dynamic_max_pyth_age_seconds, wrapping_sub_i64,
  load_dynamic_pyth_prices,
}
use byreal_titan_integration.ByrealClmm.Navigate.{called}
use byreal_titan_integration.ByrealClmm.Swap.{dynamic_fee_rate}

pub called-NoFault : {A : Type 0} (r : Message ⊎ A) → NoFault (called r)
called-NoFault (inl e) x h = cc h
called-NoFault (inr a) x h = cc h

module _ (lib : Library) (core : Core lib) where
  pub prices-NoFault : NoFault (load_dynamic_pyth_prices lib core)
  unfolding load_dynamic_pyth_prices
  prices-NoFault =
      let oldest_allowed =
        wrapping_sub_i64 core.current_unix_timestamp (pos dynamic_max_pyth_age_seconds) in
      bind-NoFault _ _ (ok_or-NoFault core.token0_pyth_oracle_data _) λ p0 e0.
        bind-NoFault _ _ (ok_or-NoFault core.token1_pyth_oracle_data _) λ p1 e1.
          then-NoFault _ _
            (require-NoFault (not (leb_ℤ p0.price (pos 0) || leb_ℤ p1.price (pos 0)))
              (text "pyth price is non-positive" ∷ []))
            (then-NoFault _ _
              (require-NoFault
                (not (ltb_ℤ p0.publish_time oldest_allowed || ltb_ℤ p1.publish_time oldest_allowed))
                (text "pyth price is stale" ∷ []))
              (ok-NoFault (p0, p1)))

  pub dynamic_fee_rate-NoFault :
      (zero_for_one : Bool) (amount_specified : ℕ) (current_timestamp : ℤ)
      → NoFault (dynamic_fee_rate lib core zero_for_one amount_specified current_timestamp)
  unfolding dynamic_fee_rate
  dynamic_fee_rate-NoFault zero_for_one amount_specified current_timestamp =
      let pool = core.pool_state in
      let token1_as_quote = lib.is_token1_quote pool in
      let base_amount : ℕ =
        if token1_as_quote then core.token0_vault_amount else core.token1_vault_amount in
      bind-NoFault _ _ (ok_or-NoFault core.amm_config _) λ config e0.
        bind-NoFault _ _
          (called-NoFault
            (lib.calculate_base_trade_fee_rate pool config zero_for_one (as_u64 current_timestamp)))
          λ fee_rate e1.
            if-NoFault (not (lib.is_swap_dynamic_fee_enabled pool)) _ _ (ok-NoFault fee_rate) (
              then-NoFault _ _
                (require-NoFault
                  (not (
                    core.token0_program_id == zero_pubkey || core.token1_program_id == zero_pubkey))
                  (text "dynamic fee vault accounts missing" ∷ []))
                (bind-NoFault _ _ prices-NoFault λ prices e3.
                  bind-NoFault _ _
                    (called-NoFault (
                      lib.calculate_price_index prices.0 prices.1 pool.mint_decimals_0
                        pool.mint_decimals_1))
                    λ p_index e4.
                      bind-NoFault _ _
                        (called-NoFault (lib.price_from_sqrt_price_x64 pool.sqrt_price_x64))
                        λ p_0 e5.
                          bind-NoFault _ _
                            (if-NoFault (if token1_as_quote then not zero_for_one else zero_for_one)
                              _ _ (ok-NoFault amount_specified)
                              (called-NoFault
                                (lib.quote_amount_from_base amount_specified p_0 token1_as_quote)))
                            λ quote e6.
                              bind-NoFault _ _
                                (called-NoFault (
                                  lib.normalize_trade_size quote (
                                    if token1_as_quote
                                    then pool.mint_decimals_1
                                    else pool.mint_decimals_0)))
                                λ size e7.
                                  bind-NoFault _ _
                                    (called-NoFault
                                      (lib.quote_amount_from_base base_amount p_0 token1_as_quote))
                                    λ value e8. called-NoFault (lib.calculate_dynamic_fee_rate _)))
