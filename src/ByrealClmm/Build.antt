-- ===== src/ByrealClmm/Build.antt =====
-- `build_swap_instruction` of byreal_clmm/core.rs.
pub mod Shape
use byreal_titan_integration.Base.{
  ℕ, Bool, true, false, List, [], ◌∷◌, ◌++◌, map, Option, none, some, Result, ok, err, ok_or, ◌>>=◌,
  ◌>>◌, if◌then◌else◌,
}
use byreal_titan_integration.Solana.{AccountMeta, readonly, writable, Instruction}
use byreal_titan_integration.TradingVenue.Error.{
  Pubkey, TradingVenueError, missing_state, static_str,
}
use byreal_titan_integration.ByrealClmm.Library.{Library, PoolState}
use byreal_titan_integration.ByrealClmm.Core.{
  Core, ensure_open, validate_mints, tick_array_bitmap_extension_key, token0_pyth_oracle_pubkey,
  token1_pyth_oracle_pubkey,
}
use byreal_titan_integration.ByrealClmm.TickArrays.{live_directional_tick_arrays}

pub record SwapBuildRequest : Type 0 where
  pub user_authority : Pubkey
  pub source_mint : Pubkey
  pub destination_mint : Pubkey
  pub source_token_account : Pubkey
  pub destination_token_account : Pubkey
  pub amount : ℕ
  pub other_amount_threshold : ℕ

module _ (lib : Library) (core : Core lib) where
  -- The accounts up to the bitmap extension.
  abbrev pub fixed_accounts :
      SwapBuildRequest
      → (input_vault output_vault input_vault_mint output_vault_mint : Pubkey) → List AccountMeta
  fixed_accounts request input_vault output_vault input_vault_mint output_vault_mint =
      readonly request.user_authority true
      ∷ readonly core.pool_state.amm_config false
      ∷ writable core.market_id false
      ∷ writable request.source_token_account false
      ∷ writable request.destination_token_account false
      ∷ writable input_vault false
      ∷ writable output_vault false
      ∷ writable core.pool_state.observation_key false
      ∷ readonly lib.spl_token_id false
      ∷ readonly lib.spl_token_2022_id false
      ∷ readonly lib.spl_memo_id false
      ∷ readonly input_vault_mint false
      ∷ readonly output_vault_mint false
      ∷ readonly (tick_array_bitmap_extension_key lib core) false
      ∷ []

  abbrev pub vault_accounts : SwapBuildRequest → Bool → List AccountMeta
  vault_accounts request true =
      fixed_accounts request core.pool_state.token_vault_0 core.pool_state.token_vault_1
        core.pool_state.token_mint_0 core.pool_state.token_mint_1
  vault_accounts request false =
      fixed_accounts request core.pool_state.token_vault_1 core.pool_state.token_vault_0
        core.pool_state.token_mint_1 core.pool_state.token_mint_0

  unfoldable pub oracle_accounts : Bool → Result TradingVenueError (List AccountMeta)
  oracle_accounts false = ok []
  oracle_accounts true = do
    token0_pyth ←
        ok_or (token0_pyth_oracle_pubkey lib core)
          (missing_state (static_str "token0 pyth feed id is not configured"))
    token1_pyth ←
        ok_or (token1_pyth_oracle_pubkey lib core)
          (missing_state (static_str "token1 pyth feed id is not configured"))
    ok (readonly token0_pyth false ∷ readonly token1_pyth false ∷ [])

  unfoldable pub build_swap_instruction : SwapBuildRequest → Result TradingVenueError Instruction
  build_swap_instruction request = do
    ensure_open lib core
    (input_is_0, output_is_0) ← validate_mints lib core request.source_mint request.destination_mint
    live ← live_directional_tick_arrays lib core input_is_0
    oracles ← oracle_accounts (lib.is_swap_dynamic_fee_enabled core.pool_state)
    ok (record {
      program_id = core.program_id;
      accounts = vault_accounts request input_is_0 ++ (map (λ k. writable k false) live ++ oracles);
      payload = lib.swap_v3_dyn_data request.amount request.other_amount_threshold 0 true;
    })
