-- ===== src/ByrealClmm/Swap/Totals.antt =====
-- The whole swap of byreal_clmm/core.rs, `compute_swap`.
use byreal_titan_integration.Base.{
  ℕ, ◌+◌, ◌-◌, ◌≤◌, ◌<◌, ◌≡◌, sym, ap, ◌∙◌, ◌⊎◌, inl, inr, ℤ, Bool, if◌then◌else◌, Result, ok, err,
  NoFault, bind-eq-ok, bind-NoFault, ok-NoFault, ok_or, ok_or-eq-ok, ok_or-NoFault, Result-cases,
  arith,
}
use byreal_titan_integration.TradingVenue.Error.{Message}
use byreal_titan_integration.ByrealClmm.Library.{Library}
use byreal_titan_integration.ByrealClmm.Core.{Core}
use byreal_titan_integration.ByrealClmm.Navigate.{TickNavState, init_tick_nav_state}
use byreal_titan_integration.ByrealClmm.Swap.{
  SwapState, SwapResult, dynamic_fee_rate, swap_loop, simulate_swap_steps, run_swap, compute_swap,
  checked_sub,
}
use byreal_titan_integration.ByrealClmm.Swap.Ends.{
  Left, IsNavigable, IsExactIn, Settled, Ends, swap_loop-Ends,
}
use byreal_titan_integration.ByrealClmm.Swap.Fees.{dynamic_fee_rate-NoFault}
use byreal_titan_integration.ByrealClmm.Swap.Rounds.{checked_sub-eq-some}

module _ (lib : Library) (core : Core lib) (zero_for_one : Bool) (current_timestamp : ℤ) where
  abbrev pub limit : ℕ
  limit = if zero_for_one then lib.min_sqrt_price_x64 + 1 else lib.max_sqrt_price_x64 - 1

  -- With `enough` fuel the first tick array is found or there is an error, and the pool's tick is related to the state there.
  pub record IsStarted (enough : ℕ) (At : ℤ → TickNavState → Type 0) : Type 0 where
    pub ends : (fuel : ℕ) → enough ≤ fuel → NoFault (init_tick_nav_state lib core fuel zero_for_one)
    pub starts :
        (fuel : ℕ) (nav : TickNavState)
        → enough ≤ fuel
        → init_tick_nav_state lib core fuel zero_for_one ≡ ok nav
        → At core.pool_state.tick_current nav

  -- Not more than the request is taken, and less only at the limit.
  pub record Fills (amount_specified : ℕ) (result : SwapResult) : Type 0 where
    pub taken : result.amount_in ≤ amount_specified
    pub whole : (result.amount_in ≡ amount_specified) ⊎ (result.sqrt_price_x64 ≡ limit)

  abbrev pub opening : ℕ → SwapState
  opening amount_specified = record {
    amount_specified_remaining = amount_specified;
    amount_calculated = 0;
    sqrt_price_x64 = core.pool_state.sqrt_price_x64;
    tick = core.pool_state.tick_current;
    liquidity = core.pool_state.liquidity;
    fee_amount = 0;
  }

  Ends-NoFault :
      (fee_rate : ℕ) (state : SwapState) (result : Result Message SwapState)
      → Ends lib core zero_for_one fee_rate limit current_timestamp state result
      → NoFault result
  Ends-NoFault fee_rate state result (inl (e, same)) x h = cc
  Ends-NoFault fee_rate state result (inr (end, same, _)) x h = cc

  Ends-ok :
      (fee_rate : ℕ) (state end : SwapState) (result : Result Message SwapState)
      → Ends lib core zero_for_one fee_rate limit current_timestamp state result
      → result ≡ ok end
      → Settled lib core zero_for_one fee_rate limit current_timestamp state end
  Ends-ok fee_rate state end result (inl (e, same)) h = cc
  Ends-ok fee_rate state end result (inr (end', same, s)) h =
      let there : end' ≡ end = cc (same, h) in rw (sym there) s

  module _ (enough n fuel amount_specified : ℕ) (At : ℤ → TickNavState → Type 0)
      (navigable : IsNavigable lib core zero_for_one enough At) (started : IsStarted enough At)
      (exact : (fee_rate : ℕ) → IsExactIn lib core zero_for_one fee_rate limit current_timestamp)
      (left : Left lib zero_for_one n core.pool_state.tick_current)
      (fuels : enough + n < fuel) where
    loops :
        (fee_rate : ℕ) (nav : TickNavState)
        → init_tick_nav_state lib core fuel zero_for_one ≡ ok nav
        → Ends lib core zero_for_one fee_rate limit current_timestamp (opening amount_specified) (
            swap_loop lib core fuel fee_rate limit zero_for_one current_timestamp
              (opening amount_specified)
              nav)
    loops fee_rate nav e =
        swap_loop-Ends lib core zero_for_one fee_rate limit current_timestamp enough n fuel At
          (opening amount_specified) nav navigable (started.starts fuel nav (omega arith) e)
          (exact fee_rate) left fuels

    pub compute_swap-NoFault :
        NoFault (compute_swap lib core fuel zero_for_one amount_specified current_timestamp)
    unfolding compute_swap run_swap simulate_swap_steps
    compute_swap-NoFault =
        bind-NoFault _ _
          (bind-NoFault (dynamic_fee_rate lib core zero_for_one amount_specified current_timestamp)
            _ (dynamic_fee_rate-NoFault lib core zero_for_one amount_specified current_timestamp)
            λ fee_rate e.
              bind-NoFault _ _
                (bind-NoFault (init_tick_nav_state lib core fuel zero_for_one) _
                  (started.ends fuel (omega arith))
                  λ nav e1.
                    Ends-NoFault fee_rate (opening amount_specified) _ (loops fee_rate nav e1))
                λ state e2. ok-NoFault (state, fee_rate))
          λ r e3.
            bind-NoFault _ _
              (ok_or-NoFault (checked_sub amount_specified r.0.amount_specified_remaining) _)
              λ amount_in e4 x h. cc h

    pub compute_swap-Fills :
        (result : SwapResult)
        → compute_swap lib core fuel zero_for_one amount_specified current_timestamp ≡ ok result
        → Fills amount_specified result
    unfolding compute_swap run_swap simulate_swap_steps
    compute_swap-Fills result h =
        let ((state, rate), e, h1) =
          bind-eq-ok (run_swap lib core fuel zero_for_one amount_specified limit current_timestamp)
            _ result h in
        let (fee_rate, e1, h2) =
          bind-eq-ok (dynamic_fee_rate lib core zero_for_one amount_specified current_timestamp) _
            (state, rate) e in
        let (final, e2, h3) =
          bind-eq-ok
            (simulate_swap_steps lib core fuel fee_rate amount_specified limit zero_for_one
              current_timestamp)
            _ (state, rate) h2 in
        let (nav, e3, h4) =
          bind-eq-ok (init_tick_nav_state lib core fuel zero_for_one) _ final e2 in
        let (amount_in, e4, h5) =
          bind-eq-ok (ok_or (checked_sub amount_specified state.amount_specified_remaining) _) _
            result h1 in
        let same : final ≡ state = cc h3 in
        let s =
          Ends-ok fee_rate (opening amount_specified) state _ (loops fee_rate nav e3)
            (h4 ∙ ap (λ q. ok q) same) in
        let total = checked_sub-eq-some _ _ amount_in (ok_or-eq-ok _ _ e4) in
        let input : amount_in ≡ result.amount_in = cc h5 in
        let price : state.sqrt_price_x64 ≡ result.sqrt_price_x64 = cc h5 in
        record {
          taken = omega (arith, total, input);
          whole = elim s.done [
            | inl none_left ↦ inl (omega (arith, total, input, none_left))
            | inr at_limit ↦ inr (sym price ∙ at_limit)
          ];
        }

    -- Where the searches of the first tick array and of the next tick return on `enough` fuel and find ticks ahead whose
    -- liquidity can be read without a panic, a step of the crate arrives at its target or takes all that remains, and at most `n` ticks lie ahead of the pool's tick, the
    -- swap on more than `enough + n` fuel returns: an error, or a result that takes at most the request, and less only
    -- where the price has come to the limit.
    pub compute_swap_ends :
        ((e : Message) × (compute_swap lib core fuel zero_for_one amount_specified current_timestamp
            ≡ err e))
        ⊎ ((result : SwapResult) × (compute_swap lib core fuel zero_for_one amount_specified
                current_timestamp
              ≡ ok result)
            × Fills amount_specified result)
    compute_swap_ends =
        elim (Result-cases
          (compute_swap lib core fuel zero_for_one amount_specified current_timestamp)) [
            | inl (result, e) ↦ inr (result, e, compute_swap-Fills result e)
            | inr (inl found) ↦ inl found
            | inr (inr (x, e)) ↦ absurd (compute_swap-NoFault x e)
          ]
