-- ===== src/ByrealClmm/Tests/Updates.antt =====
-- `update_state` on a pool with a dynamic fee: both vaults, one oracle account for both feeds and one of two tick arrays.
use byreal_titan_integration.Base.{pos, ◌≡◌, refl, true, [], ◌∷◌, none, inr, Map, lookup, ok}
use byreal_titan_integration.Solana.{Account}
use byreal_titan_integration.ByrealClmm.Library.{Library, PoolState, Price}
use byreal_titan_integration.ByrealClmm.Core.{
  Core, token0_pyth_oracle_pubkey, token1_pyth_oracle_pubkey, get_price_feed_account_address,
}
use byreal_titan_integration.ByrealClmm.Update.{
  update_state, load_clock, load_pool, load_amm_config, load_vault0, load_vault1, load_oracles,
  oracle_price, load_bitmap_extension, load_tick_arrays,
}
use byreal_titan_integration.ByrealClmm.Keys.{decode_vault_amount, decode_pyth_price}
use byreal_titan_integration.ByrealClmm.Update.Fresh.{Fresh, update_state-Fresh}
use byreal_titan_integration.ByrealClmm.Tests.{library, pool}

abbrev dynamic_pool : PoolState
dynamic_pool = record pool { token0_pyth_feed_id = 21; token1_pyth_feed_id = 22 }

abbrev price : Price
price = record { price = pos 3; publish_time = pos 70; exponent = pos 0; conf = 0 }

abbrev dynamic_library : Library
dynamic_library = record library {
  is_swap_dynamic_fee_enabled = λ pool. true;
  decode_pool_state = λ bytes. inr dynamic_pool;
  fixed_discriminator = 2 ∷ 0 ∷ 0 ∷ 0 ∷ 0 ∷ 0 ∷ 0 ∷ 0 ∷ [];
  decode_price_update = λ bytes. inr price;
}

abbrev start : Core dynamic_library
start = record {
  market_id = 91;
  program_id = 90;
  reserve_mints = (5, 6);
  pool_state = pool;
  amm_config = none;
  bitmap_extension = none;
  dynamic_tick_arrays = [];
  token0_vault_amount = 0;
  token1_vault_amount = 0;
  token0_program_id = 0;
  token1_program_id = 0;
  token0_pyth_oracle_data = none;
  token1_pyth_oracle_data = none;
  max_one_side_tick_arrays = 6;
  current_unix_timestamp = pos 0;
}

abbrev accounts : Map Account
accounts =
    (4, record { lamports = 1; bytes = []; owner = 0 })
    ∷ (91, record { lamports = 1; bytes = []; owner = 90 })
    ∷ (40, record { lamports = 1; bytes = []; owner = 90 })
    ∷ (50, record { lamports = 1; bytes = []; owner = 1 })
    ∷ (60, record { lamports = 1; bytes = []; owner = 2 })
    ∷ (
      1000,
      record {
        lamports = 1;
        bytes =
            2 ∷ 0 ∷ 0 ∷ 0 ∷ 0 ∷ 0 ∷ 0 ∷ 0 ∷ 0 ∷ 0 ∷ 0 ∷ 0 ∷ 0 ∷ 0 ∷ 0 ∷ 0 ∷ 0 ∷ 0 ∷ 0 ∷ 0 ∷ 0 ∷ 0
            ∷ 0 ∷ 0 ∷ 0 ∷ 0 ∷ 0 ∷ 0 ∷ 0 ∷ 0 ∷ 0 ∷ 0 ∷ 0 ∷ 0 ∷ 0 ∷ 0 ∷ 0 ∷ 0 ∷ 0 ∷ 0 ∷ 0 ∷ 0 ∷ 0 ∷ 0
            ∷ 0 ∷ 0 ∷ [];
        owner = 90;
      },
    )
    ∷ (999, record { lamports = 1; bytes = []; owner = 11 })
    ∷ []

abbrev end : Core dynamic_library
end = (update_state dynamic_library accounts start).0

updated : update_state dynamic_library accounts start ≡ (end, ok tt)
unfolding update_state load_clock load_pool load_amm_config load_vault0 load_vault1 load_oracles
    oracle_price decode_pyth_price decode_vault_amount load_bitmap_extension load_tick_arrays lookup
    token0_pyth_oracle_pubkey token1_pyth_oracle_pubkey get_price_feed_account_address
updated = refl

update_state-Fresh_example : Fresh dynamic_library accounts start end
update_state-Fresh_example = update_state-Fresh dynamic_library accounts start end updated
