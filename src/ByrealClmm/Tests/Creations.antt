-- ===== src/ByrealClmm/Tests/Creations.antt =====
-- The creations among three instructions: of another program, of a pool, and with too few accounts.
use byreal_titan_integration.Base.{◌≡◌, ◌↔◌, refl, List, [], ◌∷◌, ◌++◌}
use byreal_titan_integration.TradingVenue.Error.{byreal_clmm}
use byreal_titan_integration.ByrealClmm.Creation.{
  ParsedInstruction, PoolCreation, create_pool_discriminator, create_pool_decay_fee_discriminator,
  starts_with_discriminator, pool_creation, parse_pool_creations,
}
use byreal_titan_integration.ByrealClmm.Creation.Selected.{Selected, parse_pool_creations_iff}

abbrev instructions : List ParsedInstruction
instructions =
    record {
      program_id = 89;
      accounts = 1 ∷ 2 ∷ 3 ∷ 4 ∷ 5 ∷ 6 ∷ 7 ∷ 8 ∷ [];
      bytes = create_pool_discriminator;
    }
    ∷ record {
      program_id = 90;
      accounts = 1 ∷ 2 ∷ 3 ∷ 4 ∷ 91 ∷ 6 ∷ 5 ∷ 6 ∷ 9 ∷ [];
      bytes = create_pool_decay_fee_discriminator ++ 7 ∷ [];
    }
    ∷ record { program_id = 90; accounts = 1 ∷ 2 ∷ []; bytes = create_pool_discriminator }
    ∷ []

abbrev creations : List PoolCreation
creations = record { protocol = byreal_clmm; pool = 91; mints = 5 ∷ 6 ∷ [] } ∷ []

parsed : parse_pool_creations 90 instructions ≡ creations
unfolding parse_pool_creations pool_creation starts_with_discriminator
parsed = refl

parse_pool_creations_iff_example :
    (parse_pool_creations 90 instructions ≡ creations) ↔ Selected 90 instructions creations
parse_pool_creations_iff_example = parse_pool_creations_iff 90 instructions creations
