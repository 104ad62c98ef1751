-- ===== src/RouteProgram/Accounts.antt =====
-- The account readers of instructions/swap_route_v3.rs.
use byreal_titan_integration.Base.{
  ℕ, ◌-◌, Bool, false, not, ◌&&◌, List, Option, none, some, Result, ok, err, fault, ◌>>=◌, ◌>>◌,
  ok_or, require, length, get_elem?, take, drop, ◌==◌, ltb, leb, if◌then◌else◌, from_le_bytes,
}
use byreal_titan_integration.Solana.{Account}
use byreal_titan_integration.TradingVenue.Error.{Pubkey}
use byreal_titan_integration.RouteProgram.State.{invalid_account_data}
use byreal_titan_integration.RouteProgram.Runtime.{Error, route, Runtime}

-- `bytes.get(lo..hi)`
unfoldable pub slice : ℕ → ℕ → List ℕ → Option (List ℕ)
slice lo hi bytes = if leb hi (length bytes) then some (take (hi - lo) (drop lo bytes)) else none

unfoldable pub account_exists : Account → Bool
account_exists a = ltb 0 a.lamports && ltb 0 (length a.bytes)

unfoldable pub extract_token_amount : Account → Result Error ℕ
unfolding slice
extract_token_amount a = do
  bytes ← ok_or (slice 64 72 a.bytes) (route invalid_account_data)
  ok (from_le_bytes bytes)

unfoldable pub extract_token_owner : Account → Result Error Pubkey
unfolding slice
extract_token_owner a = do
  bytes ← ok_or (slice 32 64 a.bytes) (route invalid_account_data)
  ok (from_le_bytes bytes)

unfoldable pub extract_mint_decimals : Account → Result Error ℕ
extract_mint_decimals a = ok_or (get_elem? a.bytes 44) (route invalid_account_data)

-- `result.unwrap_or(0)`
abbrev pub or_zero : Result Error ℕ → Result Error ℕ
or_zero (ok n) = ok n
or_zero (err e) = ok 0
or_zero (fault x) = fault x

-- `let Ok(owner) = … else { return false }`
abbrev pub owned_by : Pubkey → Result Error Pubkey → Bool
owned_by k (ok owner) = owner == k
owned_by k (err e) = false
owned_by k (fault x) = false

module _ (rt : Runtime) where
  unfoldable pub is_titan_pda_token_account : Account → Pubkey → Bool
  unfolding extract_token_owner
  is_titan_pda_token_account a expected_authority =
      if not (a.owner == rt.token_id) && not (a.owner == rt.token_2022_id)
      then false
      else if ltb (length a.bytes) 165
      then false
      else owned_by expected_authority (extract_token_owner a)

  unfoldable pub is_native_mint : Pubkey → Bool
  is_native_mint mint = mint == rt.native_mint

  -- The mint is given by its account, the programs by their keys.
  unfoldable pub get_token_program_for_mint : Account → Pubkey → Pubkey → Pubkey
  get_token_program_for_mint mint token_program token_2022_program =
      if mint.owner == rt.token_2022_id then token_2022_program else token_program

unfoldable pub read_token_ledger : Option Account → Pubkey → Result Error (Option ℕ)
unfolding slice
read_token_ledger none input_token_account = ok none
read_token_ledger (some ledger) input_token_account = do
  require (not (ltb (length ledger.bytes) 48)) (route invalid_account_data)
  token_account ← ok_or (slice 8 40 ledger.bytes) (route invalid_account_data)
  require (from_le_bytes token_account == input_token_account) (route invalid_account_data)
  amount ← ok_or (slice 40 48 ledger.bytes) (route invalid_account_data)
  ok (some (from_le_bytes amount))
