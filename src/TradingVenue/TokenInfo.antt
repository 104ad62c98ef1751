-- ===== src/TradingVenue/TokenInfo.antt =====
-- trading_venue/token_info.rs. Reading a mint account and deriving an associated token address are the
-- SPL libraries': they are the fields of `Spl`.
use byreal_titan_integration.Base.{
  ℕ, Bool, Option, none, some, List, ℤ, pos, Result, ok, err, ◌==◌, if◌then◌else◌,
}
use byreal_titan_integration.Solana.{Account}
use byreal_titan_integration.TradingVenue.Error.{
  Pubkey, TradingVenueError, deserialization_failed, pubkey,
}

-- What `StateWithExtensions::<Mint>::unpack` finds: the decimals, and by epoch the basis points and the
-- maximum of the transfer fee, if the mint has that extension.
pub record Mint : Type 0 where
  pub decimals : ℕ
  pub transfer_fee_config : Option (ℕ → ℕ × ℕ)

pub record Spl : Type 0 where
  pub token_id : Pubkey
  pub token_2022_id : Pubkey
  pub unpack_mint : List ℕ → Option Mint
  pub associated_token_address : Pubkey → Pubkey → Pubkey → Pubkey

pub record TokenInfo : Type 0 where
  pub pubkey : Pubkey
  pub decimals : ℤ
  pub is_token_2022 : Bool
  pub transfer_fee : Option ℕ
  pub maximum_fee : Option ℕ

module _ (spl : Spl) where
  token_info : Pubkey → Account → ℕ → Mint → Option (ℕ → ℕ × ℕ) → TokenInfo
  token_info k account epoch mint none = record {
    pubkey = k;
    decimals = pos mint.decimals;
    is_token_2022 = account.owner == spl.token_2022_id;
    transfer_fee = none;
    maximum_fee = none;
  }
  token_info k account epoch mint (some get_epoch_fee) = record {
    pubkey = k;
    decimals = pos mint.decimals;
    is_token_2022 = account.owner == spl.token_2022_id;
    transfer_fee = some (get_epoch_fee epoch).0;
    maximum_fee = some (get_epoch_fee epoch).1;
  }

  -- `TokenInfo::new`
  unfoldable pub new : Pubkey → Account → ℕ → Result TradingVenueError TokenInfo
  unfolding token_info
  new k account epoch = elim (spl.unpack_mint account.bytes) [
    | some mint ↦ ok (token_info k account epoch mint mint.transfer_fee_config)
    | none ↦ err (deserialization_failed (pubkey k))
  ]

  unfoldable pub get_token_program : TokenInfo → Pubkey
  get_token_program t = if t.is_token_2022 then spl.token_2022_id else spl.token_id

  unfoldable pub get_associated_token_address : TokenInfo → Pubkey → Pubkey
  unfolding get_token_program
  get_associated_token_address t wallet =
      spl.associated_token_address wallet t.pubkey (get_token_program t)
