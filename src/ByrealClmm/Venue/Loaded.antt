-- ===== src/ByrealClmm/Venue/Loaded.antt =====
-- The method `quote` of src/byreal_clmm/mod.rs on loaded arrays that the pool's program has filled.
use native.Mathlib.Nat.{one-le-mul}
use byreal_titan_integration.Base.{ℕ, ◌+◌, ◌<◌, ◌≡◌, ◌⊎◌, Bool, ok, err, ◌==◌, arith}
use byreal_titan_integration.TradingVenue.Error.{TradingVenueError}
use byreal_titan_integration.TradingVenue.Request.{QuoteRequest, QuoteResult}
use byreal_titan_integration.ByrealClmm.Library.{Library}
use byreal_titan_integration.ByrealClmm.Swap.Ends.{Left, IsExactIn}
use byreal_titan_integration.ByrealClmm.Swap.Totals.{limit}
use byreal_titan_integration.ByrealClmm.Swap.Arrays.{span, IsGrid}
use byreal_titan_integration.ByrealClmm.Swap.Starts.{IsBitmap}
use byreal_titan_integration.ByrealClmm.Swap.Navigable.{AllArrays, At}
use byreal_titan_integration.ByrealClmm.Swap.Search.{search-IsNavigable}
use byreal_titan_integration.ByrealClmm.Swap.Loaded.{IsCheck, Left-start, init-IsStarted}
use byreal_titan_integration.ByrealClmm.Venue.{ByrealClmmVenue, quote}
use byreal_titan_integration.ByrealClmm.Venue.Answers.{Answers, quote_ends}

-- Where the crate's grid of arrays, bitmaps and checks are what it says of them, every loaded array is one that the pool's
-- program has filled, a step of the crate arrives at its target or takes all that remains, and at most `n` ticks lie ahead
-- of the pool's tick, all in the request's direction, a quote ends on fuel that is more than twice `n` and the width of an
-- array and two together: with an error, or with an answer that takes at most the request, is flagged as short of
-- liquidity just when it takes less, and then has the price zero.
pub loaded_quote_ends :
    (lib : Library) (v : ByrealClmmVenue lib) (request : QuoteRequest) (zero_for_one : Bool)
    (n fuel : ℕ)
    → (request.input_mint == v.core.reserve_mints.0) ≡ zero_for_one
    → IsGrid lib v.core.pool_state.tick_spacing
    → IsBitmap lib v.core zero_for_one
    → IsCheck lib v.core zero_for_one
    → AllArrays lib v.core zero_for_one v.core.dynamic_tick_arrays
    → ((fee_rate : ℕ)
        → IsExactIn lib v.core zero_for_one fee_rate
            (limit lib v.core zero_for_one v.core.current_unix_timestamp)
            v.core.current_unix_timestamp)
    → Left lib zero_for_one n v.core.pool_state.tick_current
    → n + n + span lib v.core.pool_state.tick_spacing + 2 < fuel
    → ((e : TradingVenueError) × (quote lib fuel v request ≡ err e))
      ⊎ ((r : QuoteResult lib.Float) × (quote lib fuel v request ≡ ok r)
          × Answers lib fuel v request r)
loaded_quote_ends lib v request zero_for_one n fuel direction grid bitmap check arrays exact left
      enough =
    let m = n + span lib v.core.pool_state.tick_spacing in
    quote_ends lib fuel v request (m + 2) n (At lib v.core zero_for_one m) zero_for_one direction
      (search-IsNavigable lib v.core zero_for_one grid bitmap (one-le-mul grid.sized grid.spaced)
        arrays m)
      (init-IsStarted lib v.core zero_for_one grid bitmap check m
        (Left-start lib v.core zero_for_one zero_for_one n grid left) v.core.current_unix_timestamp)
      exact left (omega (arith, enough))
