-- ===== src/ByrealClmm/Swap/Rounds.antt =====
-- One round of the swap loop of byreal_clmm/core.rs, `simulate_swap_steps`.
use byreal_titan_integration.Base.{
  ℕ, ◌+◌, ◌<◌, ◌^◌, ◌≡◌, ◌≢◌, refl, sym, ap, ◌∙◌, ◌⊎◌, inl, inr, ℤ, pos, ◌-ℤ◌, Bool, true, [], ◌∷◌,
  some, ◌==◌, ok, ok_or, ok_or-eq-ok, bind-eq-ok, NoFault, bind-NoFault, ok_or-NoFault, Bool-cases,
  ==→ne, if◌then◌else◌, arith, ◌%◌,
}
use byreal_titan_integration.TradingVenue.Error.{Message, text, number}
use byreal_titan_integration.ByrealClmm.Library.{Library, SwapStep}
use byreal_titan_integration.ByrealClmm.Core.{Core, as_u64}
use byreal_titan_integration.ByrealClmm.Navigate.{
  TickNavState, called_with, find_next_initialized_tick_with_nav, tick_liquidity_net,
}
use byreal_titan_integration.ByrealClmm.Swap.{
  SwapState, checked_add, checked_sub, neg_i128, target_price, apply_amounts, cross, swap_round,
}

called_with-NoFault : {A : Type 0} (what : Message) (r : Message ⊎ A) → NoFault (called_with what r)
called_with-NoFault what (inl e) x h = cc h
called_with-NoFault what (inr a) x h = cc h

pub checked_add-eq-some : (a b c : ℕ) → checked_add a b ≡ some c → (c ≡ a + b) × (c < 2 ^ 64)
checked_add-eq-some a b c h = ground arith

pub checked_sub-eq-some : (a b c : ℕ) → checked_sub a b ≡ some c → a ≡ b + c
checked_sub-eq-some a b c h = ground arith

module _ (lib : Library) (core : Core lib) where
  apply_amounts-NoFault :
      (state : SwapState) (step : SwapStep) → NoFault (apply_amounts lib core state step)
  unfolding apply_amounts
  apply_amounts-NoFault state step =
      bind-NoFault _ _ (ok_or-NoFault (checked_add state.fee_amount step.fee_amount) _) λ fee e.
        bind-NoFault _ _ (ok_or-NoFault (checked_add step.amount_in step.fee_amount) _) λ taken e'.
          bind-NoFault _ _ (ok_or-NoFault (checked_sub state.amount_specified_remaining taken) _)
            λ remaining e''.
              bind-NoFault _ _
                (ok_or-NoFault (checked_add state.amount_calculated step.amount_out) _)
                λ out e3 x h. cc h

  -- The amounts and the price before and after a step.
  pub record Moves (step : SwapStep) (state state' : SwapState) : Type 0 where
    pub input :
        state'.amount_specified_remaining + step.amount_in + step.fee_amount
        ≡ state.amount_specified_remaining
    pub output : state'.amount_calculated ≡ state.amount_calculated + step.amount_out
    pub fee : state'.fee_amount ≡ state.fee_amount + step.fee_amount
    pub output_fits : state'.amount_calculated < 2 ^ 64
    pub fee_fits : state'.fee_amount < 2 ^ 64
    pub price : state'.sqrt_price_x64 ≡ step.sqrt_price_next_x64

  pub apply_amounts-Moves :
      (state state' : SwapState) (step : SwapStep)
      → apply_amounts lib core state step ≡ ok state'
      → Moves step state state'
  unfolding apply_amounts
  apply_amounts-Moves state state' step h =
      let (fee, e, h1) =
        bind-eq-ok (ok_or (checked_add state.fee_amount step.fee_amount) _) _ state' h in
      let (taken, e1, h2) =
        bind-eq-ok (ok_or (checked_add step.amount_in step.fee_amount) _) _ state' h1 in
      let (remaining, e2, h3) =
        bind-eq-ok (ok_or (checked_sub state.amount_specified_remaining taken) _) _ state' h2 in
      let (out, e3, h4) =
        bind-eq-ok (ok_or (checked_add state.amount_calculated step.amount_out) _) _ state' h3 in
      let (f, f_fits) = checked_add-eq-some _ _ fee (ok_or-eq-ok _ _ e) in
      let (t, t_fits) = checked_add-eq-some _ _ taken (ok_or-eq-ok _ _ e1) in
      let r = checked_sub-eq-some _ _ remaining (ok_or-eq-ok _ _ e2) in
      let (o, o_fits) = checked_add-eq-some _ _ out (ok_or-eq-ok _ _ e3) in
      let made : SwapState = record state {
        amount_specified_remaining = remaining;
        amount_calculated = out;
        sqrt_price_x64 = step.sqrt_price_next_x64;
        fee_amount = fee;
      } in
      let same : made ≡ state' = cc h4 in
      rw (sym same) (record {
        input = omega (arith, t, r);
        output = o;
        fee = f;
        output_fits = o_fits;
        fee_fits = f_fits;
        price = refl;
      })

  -- After the crossing: the amounts and the price are as they were, and at the price of the next tick the tick is that
  -- one, or the one below it when the price falls.
  pub record Crosses (zero_for_one : Bool) (next_tick : ℤ) (sqrt_price_next : ℕ)
      (state state' : SwapState) : Type 0 where
    pub remaining : state'.amount_specified_remaining ≡ state.amount_specified_remaining
    pub calculated : state'.amount_calculated ≡ state.amount_calculated
    pub fee : state'.fee_amount ≡ state.fee_amount
    pub price : state'.sqrt_price_x64 ≡ state.sqrt_price_x64
    pub tick :
        (state.sqrt_price_x64 ≢ sqrt_price_next)
        ⊎ (state'.tick ≡ (if zero_for_one then next_tick -ℤ pos 1 else next_tick))

  pub cross-Crosses :
      (zero_for_one : Bool) (next_tick : ℤ) (sqrt_price_next : ℕ) (state state' : SwapState)
      → cross lib core zero_for_one next_tick sqrt_price_next state ≡ ok state'
      → Crosses zero_for_one next_tick sqrt_price_next state state'
  unfolding cross
  cross-Crosses zero_for_one next_tick sqrt_price_next state state' h =
      elim (Bool-cases (state.sqrt_price_x64 == sqrt_price_next)) [
        | inl at_next ↦
            let h0 = rw (cross, at_next) at h in
            let (net, e, h1) = bind-eq-ok (tick_liquidity_net lib core next_tick) _ state' h0 in
            let (liq_net, e1, h2) =
              bind-eq-ok
                (ok_or net (text "Missing tick array data for tick " ∷ number next_tick ∷ [])) _
                state' h1 in
            let (liquidity, e2, h3) =
              bind-eq-ok
                (called_with (text "Failed to adjust liquidity at tick " ∷ number next_tick ∷ []) (
                  lib.add_delta state.liquidity
                    (if zero_for_one then neg_i128 liq_net else liq_net)))
                _ state' h2 in
            let made : SwapState = record state {
              liquidity = liquidity;
              tick = if zero_for_one then next_tick -ℤ pos 1 else next_tick;
            } in
            let same : made ≡ state' = cc h3 in
            rw (sym same) (record {
              remaining = refl;
              calculated = refl;
              fee = refl;
              price = refl;
              tick = inr refl;
            })
        | inr away ↦
            let h0 = rw (cross, away) at h in
            let (tick, e, h1) =
              bind-eq-ok
                (called_with (text "Failed to get tick at sqrt price: " ∷ [])
                  (lib.get_tick_at_sqrt_price state.sqrt_price_x64))
                _ state' h0 in
            let made : SwapState = record state { tick = tick } in
            let same : made ≡ state' = cc h1 in
            rw (sym same) (record {
              remaining = refl;
              calculated = refl;
              fee = refl;
              price = refl;
              tick = inl (==→ne state.sqrt_price_x64 sqrt_price_next away);
            })
      ]

  cross-NoFault :
      (zero_for_one : Bool) (next_tick : ℤ) (sqrt_price_next : ℕ) (state : SwapState)
      → NoFault (tick_liquidity_net lib core next_tick)
      → NoFault (cross lib core zero_for_one next_tick sqrt_price_next state)
  unfolding cross
  cross-NoFault zero_for_one next_tick sqrt_price_next state nets =
      elim (Bool-cases (state.sqrt_price_x64 == sqrt_price_next)) [
        | inl at_next ↦
            rw (cross, at_next)
              (bind-NoFault (tick_liquidity_net lib core next_tick) _ nets λ net e.
                bind-NoFault (ok_or net _) _ (ok_or-NoFault net _) λ liq_net e1.
                  bind-NoFault
                    (called_with
                      (text "Failed to adjust liquidity at tick " ∷ number next_tick ∷ [])
                      (lib.add_delta state.liquidity
                        (if zero_for_one then neg_i128 liq_net else liq_net)))
                    _
                    (called_with-NoFault
                      (text "Failed to adjust liquidity at tick " ∷ number next_tick ∷ [])
                      (lib.add_delta state.liquidity
                        (if zero_for_one then neg_i128 liq_net else liq_net)))
                    λ liquidity e2 x h. cc h)
        | inr away ↦
            rw (cross, away)
              (bind-NoFault
                (called_with (text "Failed to get tick at sqrt price: " ∷ [])
                  (lib.get_tick_at_sqrt_price state.sqrt_price_x64))
                _
                (called_with-NoFault (text "Failed to get tick at sqrt price: " ∷ [])
                  (lib.get_tick_at_sqrt_price state.sqrt_price_x64))
                λ tick e x h. cc h)
      ]

  called_with-eq-ok :
      {A : Type 0} (what : Message) (r : Message ⊎ A) (a : A)
      → called_with what r ≡ ok a
      → r ≡ inr a
  called_with-eq-ok what (inl e) a h = cc h
  called_with-eq-ok what (inr b) a h = cc h

  module _ (fuel fee_rate sqrt_price_limit : ℕ) (zero_for_one : Bool) (current_timestamp : ℤ) where
    abbrev pub step_from : SwapState → (sqrt_price_next : ℕ) → Message ⊎ SwapStep
    step_from state sqrt_price_next =
        lib.compute_swap_step state.sqrt_price_x64
          (target_price lib core zero_for_one sqrt_price_next sqrt_price_limit) state.liquidity
          state.amount_specified_remaining fee_rate true zero_for_one
          (as_u64 current_timestamp % 2 ^ 32)

    -- A round that succeeds.
    pub record Round (state : SwapState) (nav : TickNavState) (state' : SwapState)
        (nav' : TickNavState) : Type 0 where
      pub next_tick : ℤ
      pub sqrt_price_next : ℕ
      pub step : SwapStep
      pub moved : SwapState
      pub found :
          find_next_initialized_tick_with_nav lib core fuel state.tick zero_for_one nav
          ≡ ok (next_tick, nav')
      pub stepped : step_from state sqrt_price_next ≡ inr step
      pub moves : Moves step state moved
      pub crosses : Crosses zero_for_one next_tick sqrt_price_next moved state'

    pub swap_round-Round :
        (state : SwapState) (nav : TickNavState) (state' : SwapState) (nav' : TickNavState)
        → swap_round lib core fuel fee_rate sqrt_price_limit zero_for_one current_timestamp state
            nav
          ≡ ok (state', nav')
        → Round state nav state' nav'
    unfolding swap_round
    swap_round-Round state nav state' nav' h =
        let ((next_tick, nav1), e, h1) =
          bind-eq-ok (find_next_initialized_tick_with_nav lib core fuel state.tick zero_for_one nav)
            _ (state', nav') h in
        let (sqrt_price_next, e1, h2) =
          bind-eq-ok
            (called_with (text "Failed to get sqrt price at tick " ∷ number next_tick ∷ [])
              (lib.get_sqrt_price_at_tick next_tick))
            _ (state', nav') h1 in
        let (step, e2, h3) =
          bind-eq-ok
            (called_with (text "Swap step computation failed: " ∷ [])
              (step_from state sqrt_price_next))
            _ (state', nav') h2 in
        let (moved, e3, h4) = bind-eq-ok (apply_amounts lib core state step) _ (state', nav') h3 in
        let (crossed, e4, h5) =
          bind-eq-ok (cross lib core zero_for_one next_tick sqrt_price_next moved) _ (state', nav')
            h4 in
        let same : crossed ≡ state' = cc h5 in
        let same' : nav1 ≡ nav' = cc h5 in
        record {
          next_tick = next_tick;
          sqrt_price_next = sqrt_price_next;
          step = step;
          moved = moved;
          found = e ∙ ap (λ n. ok (next_tick, n)) same';
          stepped =
              called_with-eq-ok (text "Swap step computation failed: " ∷ [])
                (step_from state sqrt_price_next) step e2;
          moves = apply_amounts-Moves state moved step e3;
          crosses =
              cross-Crosses zero_for_one next_tick sqrt_price_next moved state'
                (e4 ∙ ap (λ s. ok s) same);
        }

    pub swap_round-NoFault :
        (state : SwapState) (nav : TickNavState)
        → NoFault (find_next_initialized_tick_with_nav lib core fuel state.tick zero_for_one nav)
        → ((t : ℤ) (nav' : TickNavState)
            → find_next_initialized_tick_with_nav lib core fuel state.tick zero_for_one nav
              ≡ ok (t, nav')
            → NoFault (tick_liquidity_net lib core t))
        → NoFault (
            swap_round lib core fuel fee_rate sqrt_price_limit zero_for_one current_timestamp state
              nav)
    unfolding swap_round
    swap_round-NoFault state nav finds nets =
        let what = λ (t : ℤ). text "Failed to get sqrt price at tick " ∷ number t ∷ [] in
        let failed = text "Swap step computation failed: " ∷ [] in
        bind-NoFault (find_next_initialized_tick_with_nav lib core fuel state.tick zero_for_one nav)
          _ finds
          λ found e.
            bind-NoFault (called_with (what found.0) (lib.get_sqrt_price_at_tick found.0)) _
              (called_with-NoFault (what found.0) (lib.get_sqrt_price_at_tick found.0))
              λ next e1.
                bind-NoFault (called_with failed (step_from state next)) _
                  (called_with-NoFault failed (step_from state next))
                  λ step e2.
                    bind-NoFault (apply_amounts lib core state step) _
                      (apply_amounts-NoFault state step)
                      λ moved e3.
                        bind-NoFault (cross lib core zero_for_one found.0 next moved) _
                          (cross-NoFault zero_for_one found.0 next moved (nets found.0 found.1 e))
                          λ crossed e4 x h. cc h
