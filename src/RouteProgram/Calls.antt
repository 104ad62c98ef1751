-- ===== src/RouteProgram/Calls.antt =====
-- The helpers of instructions/swap_route_v3.rs that call other programs, and the venue adapter of
-- instructions/venues/byreal_clmm.rs. An account is passed by its key.
use byreal_titan_integration.Base.{
  ℕ, ◌-◌, Bool, true, false, List, [], ◌∷◌, ◌++◌, Option, get_last?, Result, ok, ok_or, ◌==◌, ltb,
  if◌then◌else◌, to_le_bytes,
}
use byreal_titan_integration.Solana.{AccountMeta, Instruction}
use byreal_titan_integration.TradingVenue.Error.{Pubkey}
use byreal_titan_integration.RouteProgram.State.{
  missing_remaining_account, Venue, byreal_clmm, SwapSpecInputV2,
}
use byreal_titan_integration.RouteProgram.Runtime.{
  AccountInfo, Error, route, create_associated_token_account_idempotent, transfer, transfer_checked,
  close_account, system_transfer, sync_native, venue, Runtime, M, ◌>>=◌, ◌>>◌, pure, lift, load,
  invoke,
}
use byreal_titan_integration.RouteProgram.Accounts.{account_exists, extract_token_amount}

abbrev pub swap_v3_dyn_discriminator : List ℕ
swap_v3_dyn_discriminator = 229 ∷ 46 ∷ 213 ∷ 132 ∷ 105 ∷ 40 ∷ 40 ∷ 228 ∷ []

-- venues/byreal_clmm.rs
unfoldable pub swap_v3_dyn : Pubkey → ℕ → List AccountMeta → Result Error (List Instruction)
swap_v3_dyn venue_program_id amount_in account_metas = ok (
    record {
      program_id = venue_program_id;
      accounts = account_metas;
      payload =
          swap_v3_dyn_discriminator
          ++ (to_le_bytes 8 amount_in ++ (to_le_bytes 8 0 ++ (to_le_bytes 16 0 ++ 1 ∷ [])));
    }
    ∷ [])

module _ (rt : Runtime) where
  -- `for instruction in instructions.iter() { invoke_signed(…)?; }`
  unfoldable pub invoke_all : List Instruction → List AccountInfo → M (Unit {0})
  invoke_all [] account_infos = pure tt
  invoke_all (i ∷ rest) account_infos = do
    invoke rt (venue i account_infos) true
    invoke_all rest account_infos

  unfoldable pub venue_instructions :
      Venue → Pubkey → ℕ → List AccountMeta → Result Error (List Instruction)
  venue_instructions (byreal_clmm zero_for_one) program_id amount metas =
      swap_v3_dyn program_id amount metas

  unfoldable pub perform_cpi_swap :
      ℕ → SwapSpecInputV2 → List AccountMeta → List AccountInfo → M (Unit {0})
  perform_cpi_swap amount swap account_metas account_infos = do
    last ← lift (ok_or (get_last? account_infos) (route missing_remaining_account))
    instructions ← lift (venue_instructions swap.venue last.key amount account_metas)
    invoke_all instructions account_infos

  unfoldable pub transfer_tokens :
      (token_program source target authority : Pubkey) → Option Pubkey → ℕ → ℕ → Bool → M (Unit {0})
  transfer_tokens token_program source target authority mint amount decimals signed =
      if amount == 0
      then pure tt
      else if token_program == rt.token_2022_id
      then (do
        m ← lift (ok_or mint (route missing_remaining_account))
        invoke rt (transfer_checked token_program source m target authority amount decimals) signed)
      else invoke rt (transfer token_program source target authority amount) signed

  unfoldable pub create_titan_pda_ata : (payer titan_pda mint token_program : Pubkey) → M (Unit {0})
  create_titan_pda_ata payer titan_pda mint token_program =
      invoke rt (create_associated_token_account_idempotent payer titan_pda mint token_program)
        false

  unfoldable pub create_user_ata : (payer owner mint token_program : Pubkey) → M (Unit {0})
  create_user_ata payer owner mint token_program =
      invoke rt (create_associated_token_account_idempotent payer owner mint token_program) false

  unfoldable pub close_titan_pda_ata :
      (ata destination titan_pda token_program : Pubkey) → M (Unit {0})
  close_titan_pda_ata ata destination titan_pda token_program =
      invoke rt (close_account token_program ata destination titan_pda) true

  -- `signer_seeds` is `None` at its one call.
  unfoldable pub close_token_account :
      (token_account destination authority token_program : Pubkey) → Bool → M (Unit {0})
  close_token_account token_account destination authority token_program signed =
      invoke rt (close_account token_program token_account destination authority) signed

  unfoldable pub transfer_sol_and_sync : (source wsol_ata token_program : Pubkey) → ℕ → M (Unit {0})
  transfer_sol_and_sync source wsol_ata token_program amount = if amount == 0 then pure tt else (do
    invoke rt (system_transfer source wsol_ata amount) false
    invoke rt (sync_native token_program wsol_ata) false)

  unfoldable pub setup_wsol_input_account :
      (payer owner wsol_ata mint token_program : Pubkey) → ℕ → M Bool
  setup_wsol_input_account payer owner wsol_ata mint token_program amount = do
    ata ← load wsol_ata
    if account_exists ata
        then (do
          current_balance ← lift (extract_token_amount ata)
          (if ltb current_balance amount
              then transfer_sol_and_sync owner wsol_ata token_program (amount - current_balance)
              else pure tt)
          pure false)
        else (do
          invoke rt (create_associated_token_account_idempotent payer owner mint token_program)
              false
          transfer_sol_and_sync owner wsol_ata token_program amount
          pure true)
