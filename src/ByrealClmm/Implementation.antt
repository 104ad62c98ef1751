-- ===== src/ByrealClmm/Implementation.antt =====
-- `impl TradingVenue for ByrealClmmVenue` of src/byreal_clmm/mod.rs: the methods as a value of the trait.
use byreal_titan_integration.Base.{ℕ}
use byreal_titan_integration.TradingVenue.Error.{byreal_clmm}
use byreal_titan_integration.TradingVenue.Interface.{TradingVenue}
use byreal_titan_integration.TradingVenue.TokenInfo.{Spl}
use byreal_titan_integration.ByrealClmm.Library.{Library}
use byreal_titan_integration.ByrealClmm.Venue.{ByrealClmmVenue, quote}
use byreal_titan_integration.ByrealClmm.Trade.{generate_swap_instruction}

abbrev pub trading_venue :
    (lib : Library) → (fuel : ℕ) → Spl → ByrealClmmVenue lib → TradingVenue lib.Float
trading_venue lib fuel spl v = record {
  initialized = v.initialized;
  program_id = v.core.program_id;
  market_id = v.core.market_id;
  get_token_info = v.token_info;
  protocol = byreal_clmm;
  quote = quote lib fuel v;
  generate_swap_instruction = generate_swap_instruction lib v spl;
}
