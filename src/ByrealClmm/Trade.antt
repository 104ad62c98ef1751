-- ===== src/ByrealClmm/Trade.antt =====
-- `bounds` and `generate_swap_instruction` of src/byreal_clmm/mod.rs.
use byreal_titan_integration.Base.{
  ℕ, zero, suc, List, [], ◌∷◌, Option, none, some, Result, err, ok_or, require, get_elem?, ◌>>=◌,
  ◌>>◌, ◌==◌, if◌then◌else◌,
}
use byreal_titan_integration.Solana.{Instruction}
use byreal_titan_integration.TradingVenue.Error.{
  Pubkey, TradingVenueError, boundary_search_failed, invalid_mint, not_initialized,
  token_info_index_error, static_str, pubkey,
}
use byreal_titan_integration.TradingVenue.Request.{QuoteRequest}
use byreal_titan_integration.TradingVenue.TokenInfo.{Spl, TokenInfo, get_associated_token_address}
use byreal_titan_integration.ByrealClmm.Library.{Library}
use byreal_titan_integration.ByrealClmm.Build.{build_swap_instruction}
use byreal_titan_integration.ByrealClmm.Venue.{ByrealClmmVenue, ensure_exact_in}

-- `self.token_info.iter().find(|token| token.pubkey == mint)`
unfoldable pub find_token : Pubkey → List TokenInfo → Option TokenInfo
find_token mint [] = none
find_token mint (t ∷ ts) =
    let rest = find_token mint ts in if t.pubkey == mint then some t else rest

module _ (lib : Library) (v : ByrealClmmVenue lib) where
  abbrev pub cached_bounds : Option (ℕ × ℕ) → Result TradingVenueError (ℕ × ℕ)
  cached_bounds b =
      ok_or b (boundary_search_failed (static_str "bounds cache missing; call update_state()"))

  -- Any other pair of indices.
  abbrev pub no_direction : (tkn_in_ind tkn_out_ind : ℕ) → Result TradingVenueError (ℕ × ℕ)
  no_direction tkn_in_ind tkn_out_ind = do
    input ← ok_or (get_elem? v.token_info tkn_in_ind) (token_info_index_error tkn_in_ind)
    output ← ok_or (get_elem? v.token_info tkn_out_ind) (token_info_index_error tkn_out_ind)
    err (boundary_search_failed (static_str "Byreal CLMM supports only two-token directions"))

  unfoldable pub bounds : (tkn_in_ind tkn_out_ind : ℕ) → Result TradingVenueError (ℕ × ℕ)
  bounds zero (suc zero) = cached_bounds v.bounds_cache.0
  bounds (suc zero) zero = cached_bounds v.bounds_cache.1
  bounds zero zero = no_direction 0 0
  bounds zero (suc (suc n)) = no_direction 0 (suc (suc n))
  bounds (suc zero) (suc n) = no_direction 1 (suc n)
  bounds (suc (suc m)) n = no_direction (suc (suc m)) n

  unfoldable pub generate_swap_instruction :
      Spl → QuoteRequest → (user : Pubkey) → Result TradingVenueError Instruction
  generate_swap_instruction spl request user = do
    require v.initialized (not_initialized (pubkey v.core.market_id))
    ensure_exact_in request
    input_token ←
        ok_or (find_token request.input_mint v.token_info)
          (invalid_mint (pubkey request.input_mint))
    output_token ←
        ok_or (find_token request.output_mint v.token_info)
          (invalid_mint (pubkey request.output_mint))
    build_swap_instruction lib v.core (record {
      user_authority = user;
      source_mint = request.input_mint;
      destination_mint = request.output_mint;
      source_token_account = get_associated_token_address spl input_token user;
      destination_token_account = get_associated_token_address spl output_token user;
      amount = request.amount;
      other_amount_threshold = 0;
    })
