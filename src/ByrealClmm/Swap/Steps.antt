-- ===== src/ByrealClmm/Swap/Steps.antt =====
-- `simulate_swap_steps` of byreal_clmm/core.rs over loaded arrays that the pool's program has filled.
use native.Mathlib.Nat.{one-le-mul}
use byreal_titan_integration.Base.{
  ℕ, ◌+◌, ◌≤◌, ◌<◌, ◌≡◌, ◌∙◌, ap, ◌⊎◌, inl, inr, ℤ, Bool, Result, ok, err, ◌>>=◌, Result-cases,
  arith,
}
use byreal_titan_integration.TradingVenue.Error.{Message}
use byreal_titan_integration.ByrealClmm.Library.{Library}
use byreal_titan_integration.ByrealClmm.Core.{Core}
use byreal_titan_integration.ByrealClmm.Navigate.{TickNavState, init_tick_nav_state}
use byreal_titan_integration.ByrealClmm.Swap.{SwapState, simulate_swap_steps, swap_loop}
use byreal_titan_integration.ByrealClmm.Swap.Ends.{Left, IsExactIn, Ends, swap_loop-Ends}
use byreal_titan_integration.ByrealClmm.Swap.Arrays.{span, IsGrid}
use byreal_titan_integration.ByrealClmm.Swap.Starts.{IsBitmap}
use byreal_titan_integration.ByrealClmm.Swap.Navigable.{AllArrays, At}
use byreal_titan_integration.ByrealClmm.Swap.Search.{search-IsNavigable}
use byreal_titan_integration.ByrealClmm.Swap.Loaded.{IsCheck, Left-start, init-IsStarted}
use byreal_titan_integration.ByrealClmm.Swap.Totals.{opening}

module _ (lib : Library) (core : Core lib) (zero_for_one : Bool) (timestamp : ℤ)
    (fee_rate sqrt_price_limit : ℕ) where
  -- What the steps come to that start with an amount.
  abbrev Finishes : ℕ → Result Message SwapState → Type 0
  Finishes amount_specified result =
      ((e : Message) × (result ≡ err e))
      ⊎ ((state : SwapState) × (result ≡ ok state)
          × ((state.amount_specified_remaining ≡ 0) ⊎ (state.sqrt_price_x64 ≡ sqrt_price_limit))
          × (state.amount_specified_remaining + state.fee_amount ≤ amount_specified))

  Ends-Finishes :
      (amount_specified : ℕ) (result result' : Result Message SwapState)
      → result ≡ result'
      → Ends lib core zero_for_one fee_rate sqrt_price_limit timestamp
          (opening lib core zero_for_one timestamp amount_specified)
          result'
      → Finishes amount_specified result
  Ends-Finishes amount_specified result result' same (inl (e, fails)) = inl (e, same ∙ fails)
  Ends-Finishes amount_specified result result' same (inr (state, e, s)) =
      inr (state, same ∙ e, s.done, omega (arith, s.input))

  -- Where the crate's grid of arrays, bitmaps and checks are what it says of them, every loaded array is one that the
  -- pool's program has filled, a step of the crate arrives at its target or takes all that remains, and at most `n` ticks
  -- lie ahead of the pool's tick, the steps of a swap to any price limit end on fuel that is more than twice `n` and the
  -- width of an array and two together: with an error, or with a state in which nothing remains or the price is the
  -- limit, and what remains and the fees are together at most the amount.
  pub loaded_steps_end :
      (n fuel amount_specified : ℕ)
      → IsGrid lib core.pool_state.tick_spacing
      → IsBitmap lib core zero_for_one
      → IsCheck lib core zero_for_one
      → AllArrays lib core zero_for_one core.dynamic_tick_arrays
      → IsExactIn lib core zero_for_one fee_rate sqrt_price_limit timestamp
      → Left lib zero_for_one n core.pool_state.tick_current
      → n + n + span lib core.pool_state.tick_spacing + 2 < fuel
      → ((e : Message) × (simulate_swap_steps lib core fuel fee_rate amount_specified
              sqrt_price_limit zero_for_one timestamp
            ≡ err e))
        ⊎ ((state : SwapState) × (simulate_swap_steps lib core fuel fee_rate amount_specified
                sqrt_price_limit zero_for_one timestamp
              ≡ ok state)
            × ((state.amount_specified_remaining ≡ 0) ⊎ (state.sqrt_price_x64 ≡ sqrt_price_limit))
            × (state.amount_specified_remaining + state.fee_amount ≤ amount_specified))
  unfolding simulate_swap_steps
  loaded_steps_end n fuel amount_specified grid bitmap check arrays exact left enough =
      let m = n + span lib core.pool_state.tick_spacing in
      let start = opening lib core zero_for_one timestamp amount_specified in
      let loop = λ (nav : TickNavState).
        swap_loop lib core fuel fee_rate sqrt_price_limit zero_for_one timestamp start nav in
      let started =
        init-IsStarted lib core zero_for_one grid bitmap check m
          (Left-start lib core zero_for_one zero_for_one n grid left) timestamp in
      elim (Result-cases (init_tick_nav_state lib core fuel zero_for_one)) [
        | inl (nav, e) ↦ Ends-Finishes amount_specified _ (loop nav) (ap (λ r. r >>= loop) e) (
            swap_loop-Ends lib core zero_for_one fee_rate sqrt_price_limit timestamp (m + 2) n fuel
              (At lib core zero_for_one m) start nav
              (search-IsNavigable lib core zero_for_one grid bitmap
                (one-le-mul grid.sized grid.spaced) arrays m)
              (started.starts fuel nav (omega (arith, enough)) e) exact left
              (omega (arith, enough)))
        | inr (inl (x, e)) ↦ inl (x, ap (λ r. r >>= loop) e)
        | inr (inr (x, e)) ↦ absurd (started.ends fuel (omega (arith, enough)) x e)
      ]
