-- ===== src/ByrealClmm/Quote/Answers.antt =====
-- What a quote of byreal_clmm/core.rs says, and that there is one.
use byreal_titan_integration.Base.{
  ℕ, ◌+◌, ◌-◌, ◌≤◌, ◌<◌, ◌≡◌, ◌≢◌, ◌↔◌, refl, sym, inl, inr, ℤ, pos, ◌<ℤ◌, leb_ℤ, Bool, true, false,
  not, [], Option, none, ok, err, map_err, require, require-eq-ok, ◌==◌, ltb, leb, if◌then◌else◌,
  arith, Bool-cases, Result-cases, bind-eq-ok, ok_or, ok_or-eq-ok, ==→ne, ==→eq, leb→lt,
}
use byreal_titan_integration.TradingVenue.Error.{Message}
use byreal_titan_integration.TradingVenue.Request.{QuoteRequest}
use byreal_titan_integration.ByrealClmm.Library.{Library}
use byreal_titan_integration.ByrealClmm.Core.{
  Core, ensure_open, ensure_swap_status_enabled, validate_mints, as_u64,
}
use byreal_titan_integration.ByrealClmm.Swap.{
  SwapResult, checked_sub, dynamic_fee_rate, run_swap, compute_swap,
}
use byreal_titan_integration.ByrealClmm.Swap.Rounds.{checked_sub-eq-some}
use byreal_titan_integration.ByrealClmm.Quote.{
  CoreQuoteResult, marginal_price_from_swap_state, actual_curve_price, ensure_config, ensure_arrays,
  ensure_dynamic_state, ensure_quotable, spot_quote, quote_of_error, priced_quote, answer,
  quote_with_price_upper_bound, has_phrase,
}

if-ne-ok : {E A : Type 0} (t : Bool) (e e' : E) (a : A) → (if t then err e else err e') ≢ ok a
if-ne-ok true e e' a h = cc h
if-ne-ok false e e' a h = cc h

not-true : (t : Bool) → not t ≡ true → t ≡ false
not-true true h = cc h
not-true false h = refl

enabled_lem : {E : Type 0} (t : Bool) (e : E) → (if t then ok tt else err e) ≡ ok tt → t ≡ true
enabled_lem true e h = refl
enabled_lem false e h = cc h

module _ (lib : Library) where
  -- The input is at most the request, and the flag is set just when it is less.
  pub record Tells (amount : ℕ) (q : CoreQuoteResult lib) : Type 0 where
    pub taken : q.in_amount ≤ amount
    pub flagged : (q.not_enough_liquidity ≡ true) ↔ (q.in_amount < amount)

  module _ (core : Core lib) where
    compute_swap_taken :
        (fuel : ℕ) (zero_for_one : Bool) (amount : ℕ) (current_timestamp : ℤ) (swap : SwapResult)
        → compute_swap lib core fuel zero_for_one amount current_timestamp ≡ ok swap
        → swap.amount_in ≤ amount
    unfolding compute_swap
    compute_swap_taken fuel zero_for_one amount current_timestamp swap h =
        let ((state, fee_rate), e, h1) =
          bind-eq-ok
            (run_swap lib core fuel zero_for_one amount
              (if zero_for_one then lib.min_sqrt_price_x64 + 1 else lib.max_sqrt_price_x64 - 1)
              current_timestamp)
            _ swap h in
        let (amount_in, e1, h2) =
          bind-eq-ok (ok_or (checked_sub amount state.amount_specified_remaining) _) _ swap h1 in
        let total = checked_sub-eq-some _ _ amount_in (ok_or-eq-ok _ _ e1) in
        let same : amount_in ≡ swap.amount_in = cc h2 in omega arith

    priced_quote-Tells :
        (fuel : ℕ) (zero_for_one : Bool) (amount : ℕ) (upper_bound : Option ℕ) (swap : SwapResult)
        (q : CoreQuoteResult lib)
        → swap.amount_in ≤ amount
        → priced_quote lib core fuel zero_for_one amount upper_bound swap ≡ ok q
        → Tells amount q
    unfolding priced_quote
    priced_quote-Tells fuel zero_for_one amount upper_bound swap q le h =
        let (constant_fee_price, e, h1) =
          bind-eq-ok
            (map_err _ (
              marginal_price_from_swap_state lib core zero_for_one swap.sqrt_price_x64
                swap.fee_rate))
            _ q h in
        let (price, e1, h2) =
          bind-eq-ok
            (map_err _ (
              actual_curve_price lib core fuel zero_for_one amount swap constant_fee_price
                core.current_unix_timestamp upper_bound))
            _ q h1 in
        let input : swap.amount_in ≡ q.in_amount = cc h2 in
        let flag : ltb swap.amount_in amount ≡ q.not_enough_liquidity = cc h2 in
        record { taken = omega arith; flagged = (λ set. ground arith, λ less. ground arith) }

    spot_quote-Tells :
        (zero_for_one : Bool) (q : CoreQuoteResult lib)
        → spot_quote lib core zero_for_one ≡ ok q
        → Tells 0 q
    unfolding spot_quote
    spot_quote-Tells zero_for_one q h =
        let (fee_rate, e, h1) =
          bind-eq-ok
            (map_err _ (dynamic_fee_rate lib core zero_for_one 0 core.current_unix_timestamp)) _ q
            h in
        let (price, e1, h2) =
          bind-eq-ok
            (map_err _ (
              marginal_price_from_swap_state lib core zero_for_one core.pool_state.sqrt_price_x64
                fee_rate))
            _ q h1 in
        let input : 0 ≡ q.in_amount = cc h2 in
        let flag : false ≡ q.not_enough_liquidity = cc h2 in
        record {
          taken = omega arith;
          flagged = (λ set. cc (flag, set), λ less. absurd (omega arith));
        }

    quote_of_error-Tells :
        (amount : ℕ) (e : Message) (q : CoreQuoteResult lib)
        → amount ≢ 0
        → quote_of_error lib core e ≡ ok q
        → Tells amount q
    unfolding quote_of_error
    quote_of_error-Tells amount e q some_amount h =
        elim (Bool-cases (has_phrase "Liquidity insufficient" e)) [
          | inl short ↦
              let h1 = rw (short) at h in
              let input : 0 ≡ q.in_amount = cc h1 in
              let flag : true ≡ q.not_enough_liquidity = cc h1 in
              record { taken = omega arith; flagged = (λ set. ground arith, λ less. sym flag) }
          | inr other ↦ absurd (if-ne-ok _ _ _ q (rw (other) at h))
        ]

    -- What the state has for a quote.
    pub record IsQuotable (request : QuoteRequest) : Type 0 where
      pub mints :
          (flags : Bool × Bool) × (validate_mints lib core request.input_mint request.output_mint
            ≡ ok flags)
      pub clock : pos 0 <ℤ core.current_unix_timestamp
      pub opened : core.pool_state.open_time < as_u64 core.current_unix_timestamp
      pub enabled : lib.is_swap_status_enabled core.pool_state ≡ true
      pub config : core.amm_config ≢ none
      pub arrays : core.dynamic_tick_arrays ≢ []
      pub dynamic_state :
          lib.is_swap_dynamic_fee_enabled core.pool_state ≡ true
          → ensure_dynamic_state lib core ≡ ok tt

    ensure_open-ok :
        ensure_open lib core ≡ ok tt
        → (pos 0 <ℤ core.current_unix_timestamp)
          × (core.pool_state.open_time < as_u64 core.current_unix_timestamp)
          × (lib.is_swap_status_enabled core.pool_state ≡ true)
    unfolding ensure_open ensure_swap_status_enabled
    ensure_open-ok h =
        let (_, e, h1) =
          bind-eq-ok (require (not (leb_ℤ core.current_unix_timestamp (pos 0))) _) _ tt h in
        let (_, e1, h2) =
          bind-eq-ok
            (require (not (leb (as_u64 core.current_unix_timestamp) core.pool_state.open_time)) _) _
            tt h1 in
        let t = require-eq-ok _ _ e in
        let o = require-eq-ok _ _ e1 in
        (
          ground arith,
          leb→lt (as_u64 core.current_unix_timestamp) _ (not-true _ o),
          enabled_lem (lib.is_swap_status_enabled core.pool_state) _ h2,
        )

    ensure_quotable-ok :
        ensure_quotable lib core ≡ ok tt
        → (ensure_open lib core ≡ ok tt)
          × (ensure_config lib core core.amm_config ≡ ok tt)
          × ((if lib.is_swap_dynamic_fee_enabled core.pool_state
                then ensure_dynamic_state lib core
                else ok tt)
              ≡ ok tt)
          × (ensure_arrays lib core core.dynamic_tick_arrays ≡ ok tt)
    unfolding ensure_quotable
    ensure_quotable-ok h =
        let (_, e, h1) = bind-eq-ok (ensure_open lib core) _ tt h in
        let (_, e1, h2) = bind-eq-ok (ensure_config lib core core.amm_config) _ tt h1 in
        let (_, e2, h3) =
          bind-eq-ok
            (if lib.is_swap_dynamic_fee_enabled core.pool_state
              then ensure_dynamic_state lib core
              else ok tt)
            _ tt h2 in
        (e, e1, e2, h3)

    ensure_quotable-IsQuotable :
        (request : QuoteRequest) (flags : Bool × Bool)
        → validate_mints lib core request.input_mint request.output_mint ≡ ok flags
        → ensure_quotable lib core ≡ ok tt
        → IsQuotable request
    ensure_quotable-IsQuotable request flags mints h =
        let (open_, config, dynamic_state, arrays) = ensure_quotable-ok h in
        let (clock, opened, enabled) = ensure_open-ok open_ in
        record {
          mints = (flags, mints);
          clock = clock;
          opened = opened;
          enabled = enabled;
          config = λ e. cc (rw (e) at config);
          arrays = λ e. cc (rw (e) at arrays);
          dynamic_state = λ on. rw (on) at dynamic_state;
        }

    answer-Tells :
        (fuel : ℕ) (zero_for_one : Bool) (amount : ℕ) (upper_bound : Option ℕ)
        (q : CoreQuoteResult lib)
        → answer lib core fuel zero_for_one amount upper_bound ≡ ok q
        → Tells amount q
    unfolding answer
    answer-Tells fuel zero_for_one amount upper_bound q h = elim (Bool-cases (amount == 0)) [
      | inl nothing ↦ rw (==→eq _ _ nothing) (spot_quote-Tells zero_for_one q (rw (nothing) at h))
      | inr something ↦
          let h1 = rw (something) at h in
          elim (Result-cases
            (compute_swap lib core fuel zero_for_one amount core.current_unix_timestamp)) [
              | inl (swap, e) ↦
                  priced_quote-Tells fuel zero_for_one amount upper_bound swap q
                    (compute_swap_taken fuel zero_for_one amount core.current_unix_timestamp swap e)
                    (rw (e) at h1)
              | inr (inl (e, failed)) ↦
                  quote_of_error-Tells amount e q (==→ne _ _ something) (rw (failed) at h1)
              | inr (inr (x, failed)) ↦ cc (rw (failed) at h1)
            ]
    ]

    -- A quote is returned only for the two mints of the pool, after the pool has opened, with swaps enabled, the configuration
    -- and some tick array loaded, and, where the fee is dynamic, with the vaults' programs known and fresh positive prices.
    -- It takes at most the request, and is flagged as short of liquidity just when it takes less.
    pub quote_with_price_upper_bound_ok :
        (fuel : ℕ) (request : QuoteRequest) (upper_bound : Option ℕ) (q : CoreQuoteResult lib)
        → quote_with_price_upper_bound lib core fuel request upper_bound ≡ ok q
        → IsQuotable request × Tells request.amount q
    unfolding quote_with_price_upper_bound
    quote_with_price_upper_bound_ok fuel request upper_bound q h =
        let (flags, e, h1) =
          bind-eq-ok (validate_mints lib core request.input_mint request.output_mint) _ q h in
        let (_, e1, h2) = bind-eq-ok (ensure_quotable lib core) _ q h1 in
        (
          ensure_quotable-IsQuotable request flags e e1,
          answer-Tells fuel flags.0 request.amount upper_bound q h2,
        )
