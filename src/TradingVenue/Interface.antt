-- ===== src/TradingVenue/Interface.antt =====
-- The trait `TradingVenue` of trading_venue/mod.rs: its required methods as the fields of a record,
-- its provided methods as functions of such a record.
use byreal_titan_integration.Base.{
  ℕ, zero, suc, ◌+◌, Bool, List, [], ◌∷◌, ◌++◌, map, String, ℤ, Result, ok_or, ◌>>=◌, length,
  get_elem?, ◌==◌, ltb, if◌then◌else◌,
}
use byreal_titan_integration.Solana.{Instruction}
use byreal_titan_integration.TradingVenue.Error.{
  Pubkey, PoolProtocol, protocol_name, TradingVenueError, token_info_index_error,
}
use byreal_titan_integration.TradingVenue.Request.{QuoteRequest, QuoteResult, exact_in}
use byreal_titan_integration.TradingVenue.TokenInfo.{TokenInfo}
use byreal_titan_integration.TradingVenue.Bounds.{find_boundaries}

pub record TradingVenue (F : Type 0) : Type 0 where
  pub initialized : Bool
  pub program_id : Pubkey
  pub market_id : Pubkey
  pub get_token_info : List TokenInfo
  pub protocol : PoolProtocol
  pub quote : QuoteRequest → Result TradingVenueError (QuoteResult F)
  pub generate_swap_instruction : QuoteRequest → Pubkey → Result TradingVenueError Instruction

-- The indices from `i` on, `n` of them, that a u8 holds.
pub u8_indices : ℕ → ℕ → List ℕ
u8_indices i zero = []
u8_indices i (suc n) = if ltb i 256 then i ∷ u8_indices (i + 1) n else u8_indices (i + 1) n

abbrev other_than : ℕ → List ℕ → List (ℕ × ℕ)
other_than i [] = []
other_than i (j ∷ js) = if j == i then other_than i js else (i, j) ∷ other_than i js

abbrev pairs : List ℕ → List ℕ → List (ℕ × ℕ)
pairs [] js = []
pairs (i ∷ is) js = other_than i js ++ pairs is js

module _ {F : Type 0} (v : TradingVenue F) where
  unfoldable pub tradable_mints : List Pubkey
  tradable_mints = map (λ t. t.pubkey) v.get_token_info

  unfoldable pub decimals : List ℤ
  decimals = map (λ t. t.decimals) v.get_token_info

  unfoldable pub directions_num : List (ℕ × ℕ)
  unfolding u8_indices
  directions_num = let indices = u8_indices 0 (length v.get_token_info) in pairs indices indices

  unfoldable pub get_token : ℕ → Result TradingVenueError TokenInfo
  get_token i = ok_or (get_elem? v.get_token_info i) (token_info_index_error i)

  unfoldable pub label : String
  unfolding protocol_name
  label = protocol_name v.protocol

  -- The provided `bounds`.
  unfoldable pub bounds : ℕ → ℕ → Result TradingVenueError (ℕ × ℕ)
  unfolding get_token
  bounds tkn_in_ind tkn_out_ind = do
    input ← get_token tkn_in_ind
    output ← get_token tkn_out_ind
    find_boundaries λ x. v.quote (record {
      input_mint = input.pubkey;
      output_mint = output.pubkey;
      amount = x;
      swap_type = exact_in;
    })
