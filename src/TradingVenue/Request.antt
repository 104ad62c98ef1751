-- ===== src/TradingVenue/Request.antt =====
-- The requests and results of trading_venue/mod.rs. A price is of an abstract type of floats.
use byreal_titan_integration.Base.{ℕ, Bool}
use byreal_titan_integration.TradingVenue.Error.{Pubkey}

pub data SwapType : Type 0 where
  exact_in : SwapType
  exact_out : SwapType

pub record QuoteRequest : Type 0 where
  pub input_mint : Pubkey
  pub output_mint : Pubkey
  pub amount : ℕ
  pub swap_type : SwapType

pub record QuoteResult (F : Type 0) : Type 0 where
  pub input_mint : Pubkey
  pub output_mint : Pubkey
  pub amount : ℕ
  pub expected_output : ℕ
  pub not_enough_liquidity : Bool
  pub price : F
