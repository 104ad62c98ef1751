-- ===== src/RouteProgram/Tests.antt =====
-- The route program run on a small runtime: its transfers move amounts between token accounts, and its venue gives
-- twice what it takes.
pub mod Execute
pub mod Parts
use byreal_titan_integration.Base.{
  ℕ, ◌+◌, ◌-◌, ◌*◌, ◌≡◌, refl, Bool, true, false, List, [], ◌∷◌, ◌++◌, Option, none, some, Result,
  ok, err, fault, take, drop, replicate, get_elem?, ◌==◌, if◌then◌else◌, to_le_bytes, from_le_bytes,
  arith, ◌≤◌, ◌<◌, ◌||◌,
}
use byreal_titan_integration.Solana.{Account, Instruction}
use byreal_titan_integration.TradingVenue.Error.{Pubkey}
use byreal_titan_integration.RouteProgram.State.{SwapSpecInputV2, byreal_clmm}
use byreal_titan_integration.RouteProgram.Runtime.{
  AccountInfo, Error, Call, create_associated_token_account_idempotent, transfer, transfer_checked,
  close_account, system_transfer, sync_native, venue, Store, World, Runtime,
}
use byreal_titan_integration.RouteProgram.Route.{Context}
use byreal_titan_integration.RouteProgram.Execute.{execute}

abbrev balance_of : Account → ℕ
balance_of a = from_le_bytes (take 8 (drop 64 a.bytes))

abbrev with_balance : Account → ℕ → Account
with_balance a n = record a { bytes = take 64 a.bytes ++ (to_le_bytes 8 n ++ drop 72 a.bytes) }

abbrev move_tokens : (source target : Pubkey) → ℕ → Store → Store
move_tokens source target n accounts k =
    if k == source
    then with_balance (accounts k) (balance_of (accounts k) - n)
    else if k == target
    then with_balance (accounts k) (balance_of (accounts k) + n)
    else accounts k

-- A swap of the first two accounts' tokens against the next two.
abbrev swap_tokens : Instruction → List AccountInfo → Store → Store
swap_tokens i (a ∷ b ∷ pool_a ∷ pool_b ∷ rest) accounts =
    let amount = from_le_bytes (take 8 (drop 8 i.payload)) in
    move_tokens pool_b.key b.key (2 * amount) (move_tokens a.key pool_a.key amount accounts)
swap_tokens i _ accounts = accounts

abbrev run_call : Call → Store → Store
run_call (transfer token_program source target authority amount) accounts =
    move_tokens source target amount accounts
run_call (venue i infos) accounts = swap_tokens i infos accounts
run_call _ accounts = accounts

abbrev pub runtime : Runtime
runtime = record {
  invoke = λ call signed accounts. ok (run_call call accounts);
  token_id = 1;
  token_2022_id = 2;
  native_mint = 3;
}

abbrev pub token_account : Pubkey → ℕ → Account
token_account wallet amount = record {
  lamports = 1;
  bytes = to_le_bytes 32 0 ++ (to_le_bytes 32 wallet ++ (to_le_bytes 8 amount ++ replicate 93 0));
  owner = 1;
}

abbrev pub mint_account : Account
mint_account = record { lamports = 1; bytes = replicate 44 0 ++ (6 ∷ replicate 37 0); owner = 1 }

-- The user is 11 and the TitanPDA 12; the mints are 50 and 51.
abbrev pub accounts : Store
accounts k =
    if k == 20
    then token_account 11 1000
    else if k == 21
    then token_account 11 0
    else if k == 100
    then token_account 12 70
    else if k == 101
    then token_account 12 30
    else if k == 200 || k == 201
    then token_account 99 100_000
    else mint_account

abbrev pub info : Pubkey → AccountInfo
info k = record { key = k; is_signer = false; is_writable = true }

abbrev pub context : Context
context = record {
  payer = 10;
  user = 11;
  titan_pda = 12;
  input_token_account = 20;
  output_token_account = 21;
  token_program = 1;
  token_2022_program = 2;
  token_ledger = none;
  remaining_accounts =
      info 100
      ∷ info 101
      ∷ info 50
      ∷ info 51
      ∷ info 100
      ∷ info 101
      ∷ info 200
      ∷ info 201
      ∷ info 300
      ∷ [];
}

abbrev pub world : World
world = record { accounts = accounts; calls = [] }

abbrev pub leg : SwapSpecInputV2
leg = record {
  venue = byreal_clmm true;
  from = 0;
  to = 1;
  weight_nanos = 1_000_000_000;
  n_accounts = 5;
}

abbrev pub final_world : {A : Type 0} → Result Error (A × World) → World
final_world (ok (a, w)) = w
final_world (err e) = world
final_world (fault x) = world

abbrev pub after_route : World
after_route = final_world (execute runtime context 400 2 (leg ∷ []) world)
