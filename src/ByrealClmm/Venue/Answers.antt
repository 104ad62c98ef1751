-- ===== src/ByrealClmm/Venue/Answers.antt =====
-- The method `quote` of src/byreal_clmm/mod.rs.
use byreal_titan_integration.Base.{
  ℕ, ◌+◌, ◌≤◌, ◌<◌, ◌≡◌, ◌↔◌, refl, sym, ◌⊎◌, inl, inr, ℤ, Bool, true, Option, none, some, ok, err,
  require, require-eq-ok, ◌==◌, if◌then◌else◌, arith, Result-cases, bind-eq-ok, NoFault,
  bind-NoFault, ok-NoFault, then-NoFault, require-NoFault,
}
use byreal_titan_integration.TradingVenue.Error.{TradingVenueError}
use byreal_titan_integration.TradingVenue.Request.{exact_in, QuoteRequest, QuoteResult}
use byreal_titan_integration.ByrealClmm.Library.{Library}
use byreal_titan_integration.ByrealClmm.Navigate.{TickNavState}
use byreal_titan_integration.ByrealClmm.Swap.Ends.{Left, IsNavigable, IsExactIn}
use byreal_titan_integration.ByrealClmm.Swap.Totals.{limit, IsStarted, compute_swap-NoFault}
use byreal_titan_integration.ByrealClmm.Quote.{quote_with_price_upper_bound}
use byreal_titan_integration.ByrealClmm.Quote.Ends.{quote-NoFault}
use byreal_titan_integration.ByrealClmm.Quote.Answers.{IsQuotable, quote_with_price_upper_bound_ok}
use byreal_titan_integration.ByrealClmm.Venue.{
  ByrealClmmVenue, ensure_exact_in, bounds_cache_for_mints, quote,
}

ensure_exact_in-ok :
    (request : QuoteRequest) → ensure_exact_in request ≡ ok tt → request.swap_type ≡ exact_in
unfolding ensure_exact_in
ensure_exact_in-ok request h = ground arith

ensure_exact_in-NoFault : (request : QuoteRequest) → NoFault (ensure_exact_in request)
unfolding ensure_exact_in
ensure_exact_in-NoFault request x h = ground arith

-- The upper end of the bounds, if there are any.
abbrev upper_of : Option (ℕ × ℕ) → Option ℕ
upper_of b = elim b [ some (lower, upper) ↦ some upper | none ↦ none ]

module _ (lib : Library) (fuel : ℕ) (v : ByrealClmmVenue lib) (request : QuoteRequest) where
  -- What an answer of the venue says.
  pub record Answers (r : QuoteResult lib.Float) : Type 0 where
    pub initialized : v.initialized ≡ true
    pub exact : request.swap_type ≡ exact_in
    pub quotable : IsQuotable lib v.core request
    pub input_mint : r.input_mint ≡ request.input_mint
    pub output_mint : r.output_mint ≡ request.output_mint
    pub taken : r.amount ≤ request.amount
    pub flagged : (r.not_enough_liquidity ≡ true) ↔ (r.amount < request.amount)
    pub unpriced : r.not_enough_liquidity ≡ true → r.price ≡ lib.float_zero

  -- An answer comes only from a venue that is initialized, to an exact-in request for the two mints of its pool, whose state
  -- has all that a quote needs. It repeats the mints, takes at most the request, is flagged as short of liquidity just when
  -- it takes less, and then has the price zero.
  pub quote_ok : (r : QuoteResult lib.Float) → quote lib fuel v request ≡ ok r → Answers r
  unfolding quote
  quote_ok r h =
      let (_, e, h1) = bind-eq-ok (require v.initialized _) _ r h in
      let (_, e1, h2) = bind-eq-ok (ensure_exact_in request) _ r h1 in
      let upper_bound =
        upper_of (bounds_cache_for_mints lib fuel v request.input_mint request.output_mint) in
      let (q, e2, h3) =
        bind-eq-ok (quote_with_price_upper_bound lib v.core fuel request upper_bound) _ r h2 in
      let (quotable, tells) =
        quote_with_price_upper_bound_ok lib v.core fuel request upper_bound q e2 in
      let made : QuoteResult lib.Float = record {
        input_mint = request.input_mint;
        output_mint = request.output_mint;
        amount = q.in_amount;
        expected_output = q.out_amount;
        not_enough_liquidity = q.not_enough_liquidity;
        price = if q.not_enough_liquidity then lib.float_zero else q.price;
      } in
      let same : made ≡ r = cc h3 in
      rw (sym same) (record {
        initialized = require-eq-ok _ _ e;
        exact = ensure_exact_in-ok request e1;
        quotable = quotable;
        input_mint = refl;
        output_mint = refl;
        taken = tells.taken;
        flagged = tells.flagged;
        unpriced = λ short. rw (short) refl;
      })

  module _ (enough n : ℕ) (At : ℤ → TickNavState → Type 0) (zero_for_one : Bool)
      (direction : (request.input_mint == v.core.reserve_mints.0) ≡ zero_for_one)
      (navigable : IsNavigable lib v.core zero_for_one enough At)
      (started : IsStarted lib v.core zero_for_one v.core.current_unix_timestamp enough At)
      (exact : (fee_rate : ℕ)
        → IsExactIn lib v.core zero_for_one fee_rate
            (limit lib v.core zero_for_one v.core.current_unix_timestamp)
            v.core.current_unix_timestamp)
      (left : Left lib zero_for_one n v.core.pool_state.tick_current)
      (fuels : enough + n < fuel) where
    venue_quote-NoFault : NoFault (quote lib fuel v request)
    unfolding quote
    venue_quote-NoFault = then-NoFault _ _ (require-NoFault v.initialized _) (
        then-NoFault _ _ (ensure_exact_in-NoFault request) (
          bind-NoFault _ _
            (quote-NoFault lib v.core fuel zero_for_one
              (λ amount.
                compute_swap-NoFault lib v.core zero_for_one v.core.current_unix_timestamp enough n
                  fuel amount At navigable started exact left fuels)
              request
              (upper_of (bounds_cache_for_mints lib fuel v request.input_mint request.output_mint))
              direction)
            λ q e. ok-NoFault _))

    -- Where the searches of the first tick array and of the next tick return on `enough` fuel and find ticks ahead whose
    -- liquidity can be read without a panic, a step of the crate arrives at its target or takes all that remains, and at most `n` ticks lie ahead of the pool's tick, all
    -- in the request's direction, a quote on more than `enough + n` fuel returns: an error, or an answer that takes at most
    -- the request, is flagged as short of liquidity just when it takes less, and then has the price zero.
    pub quote_ends :
        ((e : TradingVenueError) × (quote lib fuel v request ≡ err e))
        ⊎ ((r : QuoteResult lib.Float) × (quote lib fuel v request ≡ ok r) × Answers r)
    quote_ends = elim (Result-cases (quote lib fuel v request)) [
      | inl (r, e) ↦ inr (r, e, quote_ok r e)
      | inr (inl found) ↦ inl found
      | inr (inr (x, e)) ↦ absurd (venue_quote-NoFault x e)
    ]
