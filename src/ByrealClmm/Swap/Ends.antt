-- ===== src/ByrealClmm/Swap/Ends.antt =====
-- The rounds of the swap loop of byreal_clmm/core.rs, together.
use byreal_titan_integration.Base.{
  ℕ, zero, suc, ◌+◌, ◌≤◌, ◌<◌, ◌≡◌, ◌≢◌, refl, ap, ◌∙◌, ◌⊎◌, inl, inr, ℤ, pos, ◌-ℤ◌, ◌+ℤ◌, ◌≤ℤ◌,
  ◌<ℤ◌, Bool, true, false, not, ◌&&◌, ◌==◌, Result, ok, err, ◌>>=◌, NoFault, Bool-cases,
  if◌then◌else◌, arith, -ℤ_parts, +ℤ_parts, Result-cases,
}
use byreal_titan_integration.TradingVenue.Error.{Message}
use byreal_titan_integration.ByrealClmm.Library.{Library, SwapStep}
use byreal_titan_integration.ByrealClmm.Core.{Core}
use byreal_titan_integration.ByrealClmm.Navigate.{
  TickNavState, find_next_initialized_tick_with_nav, tick_liquidity_net,
}
use byreal_titan_integration.ByrealClmm.Swap.{SwapState, target_price, swap_round, swap_loop}
use byreal_titan_integration.ByrealClmm.Swap.Rounds.{
  Round, step_from, swap_round-Round, swap_round-NoFault,
}

module _ (lib : Library) where
  -- `t` lies ahead of `tick`, within the ticks that there are: from `tick` down, or above it.
  abbrev pub Ahead : (zero_for_one : Bool) (tick t : ℤ) → Type 0
  Ahead true tick t = (lib.min_tick ≤ℤ t) × (t ≤ℤ tick)
  Ahead false tick t = (tick <ℤ t) × (t ≤ℤ lib.max_tick)

  -- At most `n` ticks lie ahead.
  abbrev pub Left : (zero_for_one : Bool) (n : ℕ) (tick : ℤ) → Type 0
  Left true n tick = tick <ℤ (lib.min_tick +ℤ pos n)
  Left false n tick = lib.max_tick ≤ℤ (tick +ℤ pos n)

  abbrev pub next_of : Bool → ℤ → ℤ
  next_of zero_for_one t = if zero_for_one then t -ℤ pos 1 else t

  fewer :
      (zero_for_one : Bool) (n : ℕ) (tick t : ℤ)
      → Ahead zero_for_one tick t
      → Left zero_for_one (suc n) tick
      → Left zero_for_one n (next_of zero_for_one t)
  fewer true n tick t (a, b) left = omega (
    arith,
    +ℤ_parts lib.min_tick (pos (suc n)),
    +ℤ_parts lib.min_tick (pos n),
    -ℤ_parts t (pos 1),
  )
  fewer false n tick t (a, b) left = omega (arith, +ℤ_parts tick (pos (suc n)), +ℤ_parts t (pos n))

  out_of_ticks :
      (zero_for_one : Bool) (tick t : ℤ) → Ahead zero_for_one tick t → ¬ Left zero_for_one 0 tick
  out_of_ticks true tick t (a, b) left = omega (arith, +ℤ_parts lib.min_tick (pos 0))
  out_of_ticks false tick t (a, b) left = omega (arith, +ℤ_parts tick (pos 0))

module _ (lib : Library) (core : Core lib) (zero_for_one : Bool) where
  -- The pool's tick arrays, where `At` relates a tick to the navigation state there: with `enough` fuel the search of the
  -- next initialized tick returns, and a tick that it finds lies ahead, is related to the state that it leaves, and has a
  -- liquidity that can be read without a panic.
  pub record IsNavigable (enough : ℕ) (At : ℤ → TickNavState → Type 0) : Type 0 where
    pub ends :
        (fuel : ℕ) (tick : ℤ) (nav : TickNavState)
        → At tick nav
        → enough ≤ fuel
        → NoFault (find_next_initialized_tick_with_nav lib core fuel tick zero_for_one nav)
    pub ahead :
        (fuel : ℕ) (tick t : ℤ) (nav nav' : TickNavState)
        → At tick nav
        → enough ≤ fuel
        → find_next_initialized_tick_with_nav lib core fuel tick zero_for_one nav ≡ ok (t, nav')
        → Ahead lib zero_for_one tick t
          × At (next_of lib zero_for_one t) nav'
          × NoFault (tick_liquidity_net lib core t)

  module _ (fee_rate sqrt_price_limit : ℕ) (current_timestamp : ℤ) where
    -- What the crate says of an exact-in step: it arrives at its target, or all that remains is taken.
    abbrev pub IsExactIn : Type 0
    IsExactIn =
        (state : SwapState) (sqrt_price_next : ℕ) (step : SwapStep)
        → step_from lib core 0 fee_rate sqrt_price_limit zero_for_one current_timestamp state
            sqrt_price_next
          ≡ inr step
        → (step.sqrt_price_next_x64
            ≡ target_price lib core zero_for_one sqrt_price_next sqrt_price_limit)
          ⊎ (step.amount_in + step.fee_amount ≡ state.amount_specified_remaining)

    -- What a loop leaves that has come to its end.
    pub record Settled (state state' : SwapState) : Type 0 where
      pub done :
          (state'.amount_specified_remaining ≡ 0) ⊎ (state'.sqrt_price_x64 ≡ sqrt_price_limit)
      pub input :
          state'.amount_specified_remaining + state'.fee_amount
          ≤ state.amount_specified_remaining + state.fee_amount
      pub remaining : state'.amount_specified_remaining ≤ state.amount_specified_remaining
      pub output : state.amount_calculated ≤ state'.amount_calculated

    abbrev goes_on : SwapState → Bool
    goes_on state =
        not (state.amount_specified_remaining == 0)
        && not (state.sqrt_price_x64 == sqrt_price_limit)

    stops : (state : SwapState) → goes_on state ≡ false → Settled state state
    stops state h = record {
      done = ground arith;
      input = omega arith;
      remaining = omega arith;
      output = omega arith;
    }

    goes_on-true :
        (state : SwapState)
        → goes_on state ≡ true
        → (state.amount_specified_remaining ≢ 0) × (state.sqrt_price_x64 ≢ sqrt_price_limit)
    goes_on-true state h = ground arith

    target_cases :
        (sqrt_price_next price : ℕ)
        → price ≡ target_price lib core zero_for_one sqrt_price_next sqrt_price_limit
        → (price ≡ sqrt_price_limit) ⊎ (price ≡ sqrt_price_next)
    target_cases sqrt_price_next price h = ground arith

    moved_on :
        (fuel : ℕ) (state state' : SwapState) (nav nav' : TickNavState)
        (r : Round lib core fuel fee_rate sqrt_price_limit zero_for_one current_timestamp state nav
          state' nav')
        → IsExactIn
        → goes_on state' ≡ true
        → state'.tick ≡ next_of lib zero_for_one r.next_tick
    moved_on fuel state state' nav nav' r exact on =
        let (remains, away) = goes_on-true state' on in
        elim (exact state r.sqrt_price_next r.step r.stepped) [
          | inl at_target ↦
              elim (target_cases r.sqrt_price_next r.step.sqrt_price_next_x64 at_target) [
                | inl at_limit ↦ absurd (away (r.crosses.price ∙ r.moves.price ∙ at_limit))
                | inr at_next ↦ elim r.crosses.tick [
                  | inl not_next ↦ absurd (not_next (r.moves.price ∙ at_next))
                  | inr same ↦ same
                ]
              ]
          | inr taken ↦
              let left = r.crosses.remaining in
              let input = r.moves.input in absurd (remains (omega arith))
        ]

    -- An error, or a state that is settled.
    abbrev pub Ends : SwapState → Result Message SwapState → Type 0
    Ends state result =
        ((e : Message) × (result ≡ err e))
        ⊎ ((state' : SwapState) × (result ≡ ok state') × Settled state state')

    onward :
        (fuel : ℕ) (state state' end : SwapState) (nav nav' : TickNavState)
        (r : Round lib core fuel fee_rate sqrt_price_limit zero_for_one current_timestamp state nav
          state' nav')
        → Settled state' end
        → Settled state end
    onward fuel state state' end nav nav' r s =
        let left = r.crosses.remaining in
        let input = r.moves.input in
        record {
          done = s.done;
          input = omega (arith, s.input, r.crosses.fee, r.moves.fee);
          remaining = omega (arith, s.remaining);
          output = omega (arith, s.output, r.crosses.calculated, r.moves.output);
        }

    abbrev round_of : ℕ → SwapState × TickNavState → Result Message (SwapState × TickNavState)
    round_of fuel (state, nav) =
        swap_round lib core fuel fee_rate sqrt_price_limit zero_for_one current_timestamp state nav

    abbrev loop_of : ℕ → SwapState × TickNavState → Result Message SwapState
    loop_of fuel (state, nav) =
        swap_loop lib core fuel fee_rate sqrt_price_limit zero_for_one current_timestamp state nav

    stopped :
        (fuel : ℕ) (state : SwapState) (nav : TickNavState)
        → goes_on state ≡ false
        → loop_of fuel (state, nav) ≡ ok state
    unfolding swap_loop
    stopped zero state nav h = rw (swap_loop, h) refl
    stopped (suc fuel) state nav h = rw (swap_loop, h) refl

    goes :
        (fuel : ℕ) (state : SwapState) (nav : TickNavState)
        → goes_on state ≡ true
        → loop_of (suc fuel) (state, nav) ≡ (round_of fuel (state, nav) >>= loop_of fuel)
    unfolding swap_loop
    goes fuel state nav h = rw (swap_loop, h) refl

    one_less :
        (n : ℕ) (tick tick' t : ℤ)
        → Ahead lib zero_for_one tick t
        → Left lib zero_for_one n tick
        → tick' ≡ next_of lib zero_for_one t
        → (m : ℕ) × (n ≡ suc m) × Left lib zero_for_one m tick'
    one_less zero tick tick' t is_ahead left same =
        absurd (out_of_ticks lib zero_for_one tick t is_ahead left)
    one_less (suc m) tick tick' t is_ahead left same =
        (m, refl, rw (same) (fewer lib zero_for_one m tick t is_ahead left))

    after :
        (state state' : SwapState) (result result' : Result Message SwapState)
        → result ≡ result'
        → ((end : SwapState) → Settled state' end → Settled state end)
        → Ends state' result'
        → Ends state result
    after state state' result result' same on (inl (x, e)) = inl (x, same ∙ e)
    after state state' result result' same on (inr (end, e, s)) = inr (end, same ∙ e, on end s)

    -- Where the search of the next tick returns on `enough` fuel and finds ticks ahead whose liquidity can be read without
    -- a panic, a step of the crate arrives at its target or takes all that remains, and at most `n` ticks lie ahead, the swap loop on more than `enough + n` fuel
    -- returns: an error, or a state in which nothing remains or the price is the limit, what remains and the fees together
    -- are no more than at the start, what remains has not grown and the output has not shrunk.
    pub swap_loop-Ends :
        (enough n fuel : ℕ) (At : ℤ → TickNavState → Type 0) (state : SwapState)
        (nav : TickNavState)
        → IsNavigable enough At
        → At state.tick nav
        → IsExactIn
        → Left lib zero_for_one n state.tick
        → enough + n < fuel
        → Ends state (
            swap_loop lib core fuel fee_rate sqrt_price_limit zero_for_one current_timestamp state
              nav)
    swap_loop-Ends enough n zero At state nav navigable at exact left fuels = absurd (omega arith)
    swap_loop-Ends enough n (suc fuel) At state nav navigable at exact left fuels =
        elim (Bool-cases (goes_on state)) [
          | inr stop ↦ inr (state, stopped (suc fuel) state nav stop, stops state stop)
          | inl go ↦
              let found = navigable.ends fuel state.tick nav at (omega arith) in
              let loop = goes fuel state nav go in
              elim (Result-cases (round_of fuel (state, nav))) [
                | inr (inr (x, e)) ↦ absurd (
                    swap_round-NoFault lib core fuel fee_rate sqrt_price_limit zero_for_one
                      current_timestamp state nav found
                      (λ t nav' f.
                        let (_, _, net) =
                          navigable.ahead fuel state.tick t nav nav' at (omega arith) f in
                        net)
                      x e)
                | inr (inl (x, e)) ↦ inl (x, loop ∙ ap (λ q. q >>= loop_of fuel) e)
                | inl ((state', nav'), e) ↦
                    let r =
                      swap_round-Round lib core fuel fee_rate sqrt_price_limit zero_for_one
                        current_timestamp state nav state' nav' e in
                    let on = λ (end : SwapState). onward fuel state state' end nav nav' r in
                    let loop' = loop ∙ ap (λ q. q >>= loop_of fuel) e in
                    elim (Bool-cases (goes_on state')) [
                      | inr stop ↦ inr (
                        state',
                        loop' ∙ stopped fuel state' nav' stop,
                        on state' (stops state' stop),
                      )
                      | inl again ↦
                          let (is_ahead, at', _) =
                            navigable.ahead fuel state.tick r.next_tick nav nav' at (omega arith)
                              r.found in
                          let moved = moved_on fuel state state' nav nav' r exact again in
                          let (m, is_more, left') =
                            one_less n state.tick state'.tick r.next_tick is_ahead left moved in
                          after state state' _ (loop_of fuel (state', nav')) loop' on (
                            swap_loop-Ends enough m fuel At state' nav' navigable (rw (moved) at')
                              exact left' (omega (arith, is_more)))
                    ]
              ]
        ]
