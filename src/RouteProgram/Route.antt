-- ===== src/RouteProgram/Route.antt =====
-- `SwapRouteV3::execute` of instructions/swap_route_v3.rs, in the order of the code. `signer_seeds` is
-- a flag of the call, and what Anchor checks of the named accounts before `execute` is not modelled.
pub mod Amount
pub mod Cpi
use Prim.Native.Nat.{bit_and, bit_or}
use byreal_titan_integration.Base.{
  ℕ, zero, suc, ◌+◌, ◌-◌, ◌*◌, ◌/◌, ◌%◌, ◌^◌, min, Bool, true, false, not, ◌&&◌, ◌||◌, List, [],
  ◌∷◌, ◌++◌, map, Option, none, some, length, get_elem?, get_or, get_last?, set, take, drop,
  replicate, Result, ok, err, ok_or, or_panic, require, ◌==◌, ltb, leb, if◌then◌else◌,
}
use byreal_titan_integration.Solana.{AccountMeta, Account}
use byreal_titan_integration.TradingVenue.Error.{Pubkey}
use byreal_titan_integration.RouteProgram.State.{
  max_swaps, max_mints, SwapSpecInputV2, invalid_swap_input, missing_remaining_account,
  invalid_account_data, reserved_balance_violation,
}
use byreal_titan_integration.RouteProgram.Runtime.{
  AccountInfo, Error, route, World, Runtime, M, ◌>>=◌, ◌>>◌, pure, lift, load,
}
use byreal_titan_integration.RouteProgram.Accounts.{
  account_exists, extract_token_amount, extract_mint_decimals, or_zero, is_titan_pda_token_account,
  is_native_mint, get_token_program_for_mint, read_token_ledger,
}
use byreal_titan_integration.RouteProgram.Bitmap.{TitanPdaBitmap, new, set_bit, is_set}
use byreal_titan_integration.RouteProgram.Calls.{
  perform_cpi_swap, transfer_tokens, create_titan_pda_ata, create_user_ata, close_titan_pda_ata,
  close_token_account, setup_wsol_input_account,
}

-- `Context<SwapRouteV3>`: the named accounts by key, and the remaining accounts.
pub record Context : Type 0 where
  pub payer : Pubkey
  pub user : Pubkey
  pub titan_pda : Pubkey
  pub input_token_account : Pubkey
  pub output_token_account : Pubkey
  pub token_program : Pubkey
  pub token_2022_program : Pubkey
  pub token_ledger : Option Pubkey
  pub remaining_accounts : List AccountInfo

abbrev pub ensure : Bool → Error → M (Unit {0})
ensure test e = lift (require test e)

abbrev pub remaining : Context → ℕ → M AccountInfo
remaining ctx i =
    lift (ok_or (get_elem? ctx.remaining_accounts i) (route missing_remaining_account))

-- The check of every leg's mint indices.
unfoldable pub indices_ok : ℕ → List SwapSpecInputV2 → Bool
indices_ok mints [] = true
indices_ok mints (swap ∷ swaps) =
    (ltb swap.from mints && ltb swap.to mints) && indices_ok mints swaps

-- The guards at the top of `execute`.
unfoldable pub validate : Context → ℕ → List SwapSpecInputV2 → M (Unit {0})
validate ctx mints swaps = do
  ensure (ltb 1 mints && ltb 0 (length swaps)) (route invalid_swap_input)
  ensure (leb (length swaps) max_swaps) (route invalid_swap_input)
  ensure (leb mints max_mints) (route invalid_swap_input)
  ensure (leb (2 * mints) (length ctx.remaining_accounts)) (route missing_remaining_account)
  first ← lift (or_panic (get_elem? swaps 0))
  ensure (first.from == 0) (route invalid_swap_input)
  ensure (indices_ok mints swaps) (route invalid_swap_input)

-- The ledger account's contents, if the ledger is given.
abbrev pub load_ledger : Option Pubkey → M (Option Account)
load_ledger none = pure none
load_ledger (some k) = do a ← load k; pure (some a)

-- One leg's input: its weight's share of what exceeds the reserve, in u128 and cast to a u64.
unfoldable pub leg_amount : ℕ → ℕ → ℕ → ℕ
leg_amount balance reserved weight_nanos =
    let available = balance - reserved in
    let weight = min weight_nanos 1_000_000_000 in
    min (available * weight) (2 ^ 128 - 1) / 1_000_000_000 % 2 ^ 64

abbrev pub leg_metas : Pubkey → List AccountInfo → List AccountMeta
leg_metas titan_pda = map λ a. record {
  pubkey = a.key;
  is_signer = a.key == titan_pda || a.is_signer;
  is_writable = a.is_writable;
}

-- What the loop over the remaining accounts collects.
pub record Snapshot : Type 0 where
  pub bitmap : TitanPdaBitmap
  pub balances : List ℕ
  pub reserved : List ℕ

module _ (rt : Runtime) (ctx : Context) where
  -- `for i in 0..mints_count`, with `n` rounds left: creates the TitanPDA accounts that do not exist, and
  -- marks them in the u16 `created_atas`.
  unfoldable pub create_missing : (n i mints created_atas : ℕ) → M ℕ
  create_missing zero i mints created_atas = pure created_atas
  create_missing (suc n) i mints created_atas = do
    ata ← remaining ctx i
    account ← load ata.key
    created ←
        (if account_exists account then pure created_atas else (do
          mint ← remaining ctx (mints + i)
          mint_account ← load mint.key
          create_titan_pda_ata rt ctx.payer ctx.titan_pda mint.key
              (get_token_program_for_mint rt mint_account ctx.token_program ctx.token_2022_program)
          pure (bit_or created_atas (2 ^ i % 2 ^ 16))))
    create_missing n (i + 1) mints created

  unfoldable pub snapshot_account : AccountInfo → (i mints : ℕ) → Snapshot → M Snapshot
  snapshot_account info i mints s = do
    account ← load info.key
    if ltb i mints
        then (do
          ensure (is_titan_pda_token_account rt account ctx.titan_pda) (route invalid_account_data)
          balance ← lift (extract_token_amount account)
          pure (record {
            bitmap = set_bit s.bitmap i;
            balances = s.balances ++ balance ∷ [];
            reserved = set s.reserved i balance;
          }))
        else if is_titan_pda_token_account rt account ctx.titan_pda
        then (do
          balance ← lift (extract_token_amount account)
          pure (record s { bitmap = set_bit s.bitmap i; balances = s.balances ++ balance ∷ [] }))
        else pure s

  unfoldable pub snapshot_loop : List AccountInfo → (i mints : ℕ) → Snapshot → M Snapshot
  snapshot_loop [] i mints s = pure s
  snapshot_loop (info ∷ infos) i mints s = do
    s' ← snapshot_account info i mints s
    snapshot_loop infos (i + 1) mints s'

  unfoldable pub effective_amount : Option ℕ → ℕ → M ℕ
  effective_amount none amount = pure amount
  effective_amount (some stored) amount = do
    account ← load ctx.input_token_account
    current ← lift (extract_token_amount account)
    ensure (leb stored current) (route invalid_account_data)
    ensure (ltb 0 (current - stored)) (route invalid_account_data)
    pure (current - stored)

  -- One leg, whose accounts begin at `index`; gives the index behind them.
  unfoldable pub run_leg : List ℕ → SwapSpecInputV2 → ℕ → M ℕ
  run_leg reserved swap index = do
    ensure (ltb 0 swap.n_accounts) (route invalid_swap_input)
    ensure (leb (index + swap.n_accounts) (length ctx.remaining_accounts))
        (route missing_remaining_account)
    input_token_account ← remaining ctx swap.from
    account ← load input_token_account.key
    balance ← lift (extract_token_amount account)
    let input_amount = leg_amount balance (get_or reserved swap.from 0) swap.weight_nanos
    let leg_accounts = take swap.n_accounts (drop index ctx.remaining_accounts)
    (if ltb 0 input_amount
        then perform_cpi_swap rt input_amount swap
            (leg_metas ctx.titan_pda (take (swap.n_accounts - 1) leg_accounts)) leg_accounts
        else pure tt)
    pure (index + swap.n_accounts)

  unfoldable pub run_legs : List ℕ → List SwapSpecInputV2 → ℕ → M ℕ
  run_legs reserved [] index = pure index
  run_legs reserved (swap ∷ swaps) index = do
    next ← run_leg reserved swap index
    run_legs reserved swaps next

  -- The loop that closes the accounts which `create_missing` made and which hold nothing.
  unfoldable pub close_created : (n i mints created_atas : ℕ) → M (Unit {0})
  close_created zero i mints created_atas = pure tt
  close_created (suc n) i mints created_atas = do
    (if bit_and created_atas (2 ^ i % 2 ^ 16) == 0 then pure tt else (do
      ata ← remaining ctx i
      account ← load ata.key
      amount ← lift (or_zero (extract_token_amount account))
      (if ltb 0 amount then pure tt else (do
        mint ← remaining ctx (mints + i)
        mint_account ← load mint.key
        close_titan_pda_ata rt ata.key ctx.payer ctx.titan_pda (
            get_token_program_for_mint rt mint_account ctx.token_program ctx.token_2022_program)))))
    close_created n (i + 1) mints created_atas

  unfoldable pub check_account :
      AccountInfo → (i : ℕ) → TitanPdaBitmap → List ℕ → (balance_idx : ℕ) → M ℕ
  check_account info i bitmap balances balance_idx =
      if is_set bitmap i
      then (do
        account ← load info.key
        final_balance ← lift (or_zero (extract_token_amount account))
        balance ← lift (or_panic (get_elem? balances balance_idx))
        ensure (leb balance final_balance) (route reserved_balance_violation)
        pure (balance_idx + 1))
      else pure balance_idx

  -- The last loop: no account of the snapshot has fallen below its balance.
  unfoldable pub check_reserved :
      List AccountInfo → (i : ℕ) → TitanPdaBitmap → List ℕ → (balance_idx : ℕ) → M (Unit {0})
  check_reserved [] i bitmap balances balance_idx = pure tt
  check_reserved (info ∷ infos) i bitmap balances balance_idx = do
    next ← check_account info i bitmap balances balance_idx
    check_reserved infos (i + 1) bitmap balances next
