-- ===== src/Solana.antt =====
-- The account and instruction types of the Solana SDK, with the fields that the code reads.
use byreal_titan_integration.Base.{ℕ, Bool, true, false, List}
use byreal_titan_integration.TradingVenue.Error.{Pubkey}

pub record AccountMeta : Type 0 where
  pub pubkey : Pubkey
  pub is_signer : Bool
  pub is_writable : Bool

-- `AccountMeta::new` and `AccountMeta::new_readonly`.
abbrev pub writable : Pubkey → Bool → AccountMeta
writable k signer = record { pubkey = k; is_signer = signer; is_writable = true }

abbrev pub readonly : Pubkey → Bool → AccountMeta
readonly k signer = record { pubkey = k; is_signer = signer; is_writable = false }

pub record Instruction : Type 0 where
  pub program_id : Pubkey
  pub accounts : List AccountMeta
  pub payload : List ℕ

-- What an account holds off chain.
pub record Account : Type 0 where
  pub lamports : ℕ
  pub bytes : List ℕ
  pub owner : Pubkey
