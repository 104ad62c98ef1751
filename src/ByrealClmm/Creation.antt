-- ===== src/ByrealClmm/Creation.antt =====
-- `parse_pool_creations` of src/byreal_clmm/mod.rs, with the types of trading_venue/venue_creation.rs.
pub mod Selected
use byreal_titan_integration.Base.{
  ℕ, Bool, not, ◌&&◌, ◌||◌, List, [], ◌∷◌, Option, none, some, length, take, ◌==◌, leb,
  if◌then◌else◌,
}
use byreal_titan_integration.TradingVenue.Error.{Pubkey, PoolProtocol, byreal_clmm}
use byreal_titan_integration.ByrealClmm.TickArray.{bytes_eq}

pub record ParsedInstruction : Type 0 where
  pub program_id : Pubkey
  pub accounts : List Pubkey
  pub bytes : List ℕ

pub record PoolCreation : Type 0 where
  pub protocol : PoolProtocol
  pub pool : Pubkey
  pub mints : List Pubkey

abbrev pub create_pool_discriminator : List ℕ
create_pool_discriminator = 233 ∷ 146 ∷ 209 ∷ 142 ∷ 207 ∷ 104 ∷ 64 ∷ 188 ∷ []

abbrev pub create_pool_decay_fee_discriminator : List ℕ
create_pool_decay_fee_discriminator = 252 ∷ 154 ∷ 210 ∷ 191 ∷ 22 ∷ 217 ∷ 136 ∷ 252 ∷ []

unfoldable pub starts_with_discriminator : List ℕ → List ℕ → Bool
starts_with_discriminator bytes discriminator =
    leb (length discriminator) (length bytes)
    && bytes_eq (take (length discriminator) bytes) discriminator

-- The accounts at the indices 4, 6 and 7, if there are so many.
abbrev pub creation_of : List Pubkey → Option PoolCreation
creation_of (a0 ∷ a1 ∷ a2 ∷ a3 ∷ pool ∷ a5 ∷ mint_0 ∷ mint_1 ∷ rest) =
    some (record { protocol = byreal_clmm; pool = pool; mints = mint_0 ∷ mint_1 ∷ [] })
creation_of _ = none

module _ (byreal_clmm_program_id : Pubkey) where
  -- The closure of `filter_map`.
  unfoldable pub pool_creation : ParsedInstruction → Option PoolCreation
  pool_creation instruction =
      if not (instruction.program_id == byreal_clmm_program_id)
      then none
      else if not (
          starts_with_discriminator instruction.bytes create_pool_discriminator
          || starts_with_discriminator instruction.bytes create_pool_decay_fee_discriminator)
      then none
      else creation_of instruction.accounts

  unfoldable pub parse_pool_creations : List ParsedInstruction → List PoolCreation
  parse_pool_creations [] = []
  parse_pool_creations (instruction ∷ rest) =
      let later = parse_pool_creations rest in
      elim (pool_creation instruction) [ some creation ↦ creation ∷ later | none ↦ later ]
