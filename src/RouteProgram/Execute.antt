-- ===== src/RouteProgram/Execute.antt =====
-- `SwapRouteV3::execute` of instructions/swap_route_v3.rs: its stages, in the order of the code, and
-- their composition.
pub mod Guards
pub mod Reserve
pub mod Marks
pub mod Stages
use byreal_titan_integration.Base.{
  ℕ, zero, suc, ◌+◌, ◌-◌, ◌*◌, Bool, true, false, ◌&&◌, List, [], Option, none, some, get_elem?,
  get_last?, get_or, replicate, Result, ok, err, or_panic, if◌then◌else◌,
}
use byreal_titan_integration.TradingVenue.Error.{Pubkey}
use byreal_titan_integration.RouteProgram.State.{max_mints, SwapSpecInputV2}
use byreal_titan_integration.RouteProgram.Runtime.{
  AccountInfo, Runtime, M, ◌>>=◌, ◌>>◌, pure, lift, load,
}
use byreal_titan_integration.RouteProgram.Accounts.{
  account_exists, extract_token_amount, extract_mint_decimals, is_native_mint,
  get_token_program_for_mint, read_token_ledger,
}
use byreal_titan_integration.RouteProgram.Bitmap.{new}
use byreal_titan_integration.RouteProgram.Calls.{
  transfer_tokens, create_user_ata, close_token_account, setup_wsol_input_account,
}
use byreal_titan_integration.RouteProgram.Route.{
  Context, Snapshot, remaining, validate, load_ledger, create_missing, snapshot_loop,
  effective_amount, run_legs, close_created, check_reserved,
}

-- What the first stage reads and makes.
pub record Prepared : Type 0 where
  pub ledger_amount : Option ℕ
  pub input_mint : AccountInfo
  pub output_ata_index : ℕ
  pub output_mint : AccountInfo
  pub input_mint_decimals : ℕ
  pub output_mint_decimals : ℕ
  pub created_atas : ℕ

abbrev pub empty_snapshot : Snapshot
empty_snapshot = record { bitmap = new; balances = []; reserved = replicate max_mints 0 }

abbrev pub is_none : Option ℕ → Bool
is_none none = true
is_none (some _) = false

module _ (rt : Runtime) (ctx : Context) where
  -- From the ledger to the creation of the TitanPDA accounts.
  unfoldable pub prepare : ℕ → List SwapSpecInputV2 → M Prepared
  prepare mints swaps = do
    ledger ← load_ledger ctx.token_ledger
    ledger_amount ← lift (read_token_ledger ledger ctx.input_token_account)
    input_mint ← remaining ctx mints
    last ← lift (or_panic (get_last? swaps))
    output_mint ← remaining ctx (mints + last.to)
    input_account ← load input_mint.key
    input_mint_decimals ← lift (extract_mint_decimals input_account)
    output_account ← load output_mint.key
    output_mint_decimals ← lift (extract_mint_decimals output_account)
    created_atas ← create_missing rt ctx mints 0 mints 0
    pure (record {
      ledger_amount = ledger_amount;
      input_mint = input_mint;
      output_ata_index = last.to;
      output_mint = output_mint;
      input_mint_decimals = input_mint_decimals;
      output_mint_decimals = output_mint_decimals;
      created_atas = created_atas;
    })

  -- The user's tokens go to the first TitanPDA account.
  unfoldable pub take_input : Prepared → ℕ → M (Unit {0})
  take_input p amount = do
    amount' ← effective_amount rt ctx p.ledger_amount amount
    first ← remaining ctx 0
    mint_account ← load p.input_mint.key
    let token_program =
        get_token_program_for_mint rt mint_account ctx.token_program ctx.token_2022_program
    created_wsol_input ←
        (if is_none p.ledger_amount && is_native_mint rt p.input_mint.key
          then setup_wsol_input_account rt ctx.payer ctx.user ctx.input_token_account
              p.input_mint.key token_program amount'
          else pure false)
    transfer_tokens rt token_program ctx.input_token_account first.key ctx.user
        (some p.input_mint.key) amount' p.input_mint_decimals false
    if created_wsol_input
        then close_token_account rt ctx.input_token_account ctx.payer ctx.user token_program false
        else pure tt

  -- What the legs have earned over the reserve goes to the user.
  unfoldable pub pay_output : Prepared → List ℕ → M (Unit {0})
  pay_output p reserved = do
    output_ata ← remaining ctx p.output_ata_index
    account ← load output_ata.key
    raw_output_balance ← lift (extract_token_amount account)
    mint_account ← load p.output_mint.key
    user_account ← load ctx.output_token_account
    let token_program =
        get_token_program_for_mint rt mint_account ctx.token_program ctx.token_2022_program
    (if account_exists user_account
        then pure tt
        else create_user_ata rt ctx.payer ctx.user p.output_mint.key token_program)
    transfer_tokens rt token_program output_ata.key ctx.output_token_account ctx.titan_pda
        (some p.output_mint.key) (raw_output_balance - get_or reserved p.output_ata_index 0)
        p.output_mint_decimals true

  unfoldable pub execute : ℕ → ℕ → List SwapSpecInputV2 → M (Unit {0})
  execute amount mints swaps = do
    validate ctx mints swaps
    p ← prepare mints swaps
    s ← snapshot_loop rt ctx ctx.remaining_accounts 0 mints empty_snapshot
    take_input p amount
    index ← run_legs rt ctx s.reserved swaps (2 * mints)
    pay_output p s.reserved
    close_created rt ctx mints 0 mints p.created_atas
    check_reserved rt ctx ctx.remaining_accounts 0 s.bitmap s.balances 0
