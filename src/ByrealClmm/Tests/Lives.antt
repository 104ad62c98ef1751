-- ===== src/ByrealClmm/Tests/Lives.antt =====
-- A venue that is made of its pool's account and updated twice.
use byreal_titan_integration.Base.{◌≡◌, refl, pos, false, [], none, ok}
use byreal_titan_integration.Solana.{Account}
use byreal_titan_integration.ByrealClmm.Core.{Core, zero_pubkey}
use byreal_titan_integration.ByrealClmm.Keys.{from_pool_state_account}
use byreal_titan_integration.ByrealClmm.Venue.{
  ByrealClmmVenue, from_account, base_token_info, update_state,
}
use byreal_titan_integration.ByrealClmm.Venue.Lifecycle.{Lives, made, updated, Sane, Lives-Sane}
use byreal_titan_integration.ByrealClmm.Tests.{library, pool}
use byreal_titan_integration.ByrealClmm.Tests.Cases.{cache, spl}

abbrev account : Account
account = record { lamports = 1; bytes = []; owner = 90 }

abbrev first_core : Core library
first_core = record {
  market_id = 91;
  program_id = 90;
  reserve_mints = (5, 6);
  pool_state = pool;
  amm_config = none;
  bitmap_extension = none;
  dynamic_tick_arrays = [];
  token0_vault_amount = 0;
  token1_vault_amount = 0;
  token0_program_id = zero_pubkey;
  token1_program_id = zero_pubkey;
  token0_pyth_oracle_data = none;
  token1_pyth_oracle_data = none;
  max_one_side_tick_arrays = 6;
  current_unix_timestamp = pos 0;
}

abbrev first : ByrealClmmVenue library
first = record {
  core = first_core;
  token_info = base_token_info library first_core;
  initialized = false;
  current_epoch = 0;
  bounds_cache = (none, none);
}

first_made : from_account library 90 91 account ≡ ok first
unfolding from_account from_pool_state_account
first_made = refl

abbrev second : ByrealClmmVenue library
second = (update_state library 10 spl cache tt first).0

abbrev third : ByrealClmmVenue library
third = (update_state library 10 spl cache tt second).0

third-Lives : Lives library 10 spl 90 91 account third
third-Lives = updated second cache tt (updated first cache tt (made first first_made))

Lives-Sane_example : Sane library 10 spl 90 91 account third
Lives-Sane_example = Lives-Sane library 10 spl 90 91 account third third-Lives
