-- ===== src/RouteProgram/Tests/Execute.antt =====
-- A route of one leg on the runtime of RouteProgram/Tests.antt, run and put to the theorems about `execute`.
use byreal_titan_integration.Base.{
  ℕ, ◌+◌, ◌*◌, ◌≡◌, refl, true, [], ◌∷◌, ok, arith, ◌≤◌, length, All, none, to_le_bytes,
  from_le_bytes,
}
use byreal_titan_integration.RouteProgram.Runtime.{◌>>◌}
use byreal_titan_integration.RouteProgram.Accounts.{
  slice, account_exists, extract_token_amount, extract_token_owner, extract_mint_decimals, or_zero,
  is_titan_pda_token_account, is_native_mint, get_token_program_for_mint, read_token_ledger,
}
use byreal_titan_integration.RouteProgram.Bitmap.{new, set_bit, is_set}
use byreal_titan_integration.RouteProgram.Calls.{
  swap_v3_dyn, invoke_all, venue_instructions, perform_cpi_swap, transfer_tokens, create_user_ata,
  close_titan_pda_ata,
}
use byreal_titan_integration.RouteProgram.Route.{
  indices_ok, validate, leg_amount, create_missing, snapshot_account, snapshot_loop,
  effective_amount, run_leg, run_legs, close_created, check_account, check_reserved,
}
use byreal_titan_integration.RouteProgram.Execute.{
  Prepared, execute, prepare, take_input, pay_output,
}
use byreal_titan_integration.RouteProgram.Execute.Guards.{
  IsValid, HasAccounts, total_accounts, execute_guards,
}
use byreal_titan_integration.RouteProgram.Execute.Reserve.{execute_keeps_reserves}
use byreal_titan_integration.RouteProgram.Tests.{runtime, context, world, leg, after_route, info}

-- The leg swaps the 400 that came in, for 800 that go to the user; the reserves are back where they were.
route_runs : execute runtime context 400 2 (leg ∷ []) world ≡ ok (tt, after_route)
unfolding execute validate prepare take_input pay_output indices_ok leg_amount create_missing
    snapshot_account snapshot_loop effective_amount run_leg run_legs close_created check_account
    check_reserved swap_v3_dyn invoke_all venue_instructions perform_cpi_swap transfer_tokens
    create_user_ata close_titan_pda_ata new set_bit is_set slice account_exists extract_token_amount
    extract_token_owner extract_mint_decimals is_titan_pda_token_account is_native_mint
    get_token_program_for_mint read_token_ledger to_le_bytes from_le_bytes
route_runs = refl

user_is_paid : extract_token_amount (after_route.accounts 21) ≡ ok 800
unfolding execute validate prepare take_input pay_output indices_ok leg_amount create_missing
    snapshot_account snapshot_loop effective_amount run_leg run_legs close_created check_account
    check_reserved swap_v3_dyn invoke_all venue_instructions perform_cpi_swap transfer_tokens
    create_user_ata close_titan_pda_ata new set_bit is_set slice account_exists extract_token_amount
    extract_token_owner extract_mint_decimals is_titan_pda_token_account is_native_mint
    get_token_program_for_mint read_token_ledger to_le_bytes from_le_bytes
user_is_paid = refl

execute_guards_example :
    IsValid 2 (leg ∷ []) (length context.remaining_accounts)
    × All HasAccounts (leg ∷ [])
    × (2 * 2 + total_accounts (leg ∷ []) ≤ length context.remaining_accounts)
execute_guards_example =
    execute_guards runtime context 400 2 (leg ∷ []) world after_route route_runs

abbrev prepared : Prepared
prepared = record {
  ledger_amount = none;
  input_mint = info 50;
  output_ata_index = 1;
  output_mint = info 51;
  input_mint_decimals = 6;
  output_mint_decimals = 6;
  created_atas = 0;
}

prepare_runs :
    (validate context 2 (leg ∷ []) >> prepare runtime context 2 (leg ∷ [])) world
    ≡ ok (prepared, world)
unfolding validate prepare indices_ok create_missing slice account_exists extract_mint_decimals
    get_token_program_for_mint read_token_ledger to_le_bytes
prepare_runs = refl

titan_account : is_titan_pda_token_account runtime (world.accounts 101) 12 ≡ true
unfolding is_titan_pda_token_account extract_token_owner slice to_le_bytes from_le_bytes
titan_account = refl

execute_keeps_reserves_example :
    (n : ℕ) × (m : ℕ) × (extract_token_amount (world.accounts 101) ≡ ok n)
    × (or_zero (extract_token_amount (after_route.accounts 101)) ≡ ok m)
    × (n ≤ m)
execute_keeps_reserves_example =
    execute_keeps_reserves runtime context 400 2 (leg ∷ []) prepared world world after_route 1
      (info 101) prepare_runs route_runs refl (omega arith) titan_account
