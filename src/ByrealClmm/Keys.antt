-- ===== src/ByrealClmm/Keys.antt =====
-- How the state of byreal_clmm/core.rs is made of a pool account, which accounts it asks for, and how it decodes
-- them.
use byreal_titan_integration.Base.{
  ℕ, zero, suc, ◌+◌, ◌-◌, ℤ, pos, Bool, true, false, not, ◌||◌, List, [], ◌∷◌, ◌++◌, map, Option,
  none, some, ◌⊎◌, inl, inr, Result, ok, err, fault, String, ok_or, ◌==◌, if◌then◌else◌,
}
use byreal_titan_integration.TradingVenue.Error.{
  Pubkey, Message, text, key, TradingVenueError, deserialization_failed, missing_state, static_str,
  string,
}
use byreal_titan_integration.ByrealClmm.Library.{Library, Price}
use byreal_titan_integration.ByrealClmm.Core.{
  Core, zero_pubkey, tick_array_bitmap_extension_key, token0_pyth_oracle_pubkey,
  token1_pyth_oracle_pubkey, get_tick_array_address,
}
use byreal_titan_integration.ByrealClmm.TickArrays.{collect_dir, fallback_start, insert_sorted}

abbrev pub from_library : {A : Type 0} → String → Message ⊎ A → Result TradingVenueError A
from_library what (inr a) = ok a
from_library what (inl e) = err (deserialization_failed (string (text what ∷ e)))

module _ (lib : Library) where
  -- `ByrealClmmVenue::from_pool_state_account`
  unfoldable pub from_pool_state_account :
      (market_id owner : Pubkey) → List ℕ → Result TradingVenueError (Core lib)
  from_pool_state_account market_id owner pool_state_data =
      elim (from_library "decode PoolState failed: " (lib.decode_pool_state pool_state_data)) [
        | ok pool_state ↦ ok (record {
          market_id = market_id;
          program_id = owner;
          reserve_mints = (pool_state.token_mint_0, pool_state.token_mint_1);
          pool_state = pool_state;
          amm_config = none;
          bitmap_extension = none;
          dynamic_tick_arrays = [];
          token0_vault_amount = 0;
          token1_vault_amount = 0;
          token0_program_id = zero_pubkey;
          token1_program_id = zero_pubkey;
          token0_pyth_oracle_data = none;
          token1_pyth_oracle_data = none;
          max_one_side_tick_arrays = 6;
          current_unix_timestamp = pos 0;
        })
        | err e ↦ err e
        | fault x ↦ fault x
      ]

  -- The loop over the arrays behind the current one, when neither direction gives one.
  unfoldable pub fallback_set : Core lib → (n i : ℕ) → List ℤ → List ℤ
  fallback_set core zero i set = set
  fallback_set core (suc n) i set =
      fallback_set core n (i + 1) (insert_sorted (fallback_start lib core true i) set)

  unfoldable pub all_starts : Core lib → List ℤ
  all_starts core =
      let overflow_default =
        lib.is_overflow_default_tickarray_bitmap core.pool_state
          (core.pool_state.tick_current ∷ []) in
      let has_extension : Bool = elim core.bitmap_extension [ some e ↦ true | none ↦ false ] in
      let collected : List ℤ =
        if has_extension || not overflow_default
        then collect_dir lib core false core.max_one_side_tick_arrays
            (collect_dir lib core true core.max_one_side_tick_arrays [])
        else [] in
      elim collected [
        | [] ↦ fallback_set core (core.max_one_side_tick_arrays - 1) 1 (
            lib.get_array_start_index core.pool_state.tick_current core.pool_state.tick_spacing
            ∷ [])
        | a ∷ rest ↦ a ∷ rest
      ]

  unfoldable pub get_all_tick_array_addresses : Core lib → List Pubkey
  get_all_tick_array_addresses core = map (get_tick_array_address lib core) (all_starts core)

  abbrev pub option_list : Option Pubkey → List Pubkey
  option_list none = []
  option_list (some k) = k ∷ []

  unfoldable pub dynamic_fee_accounts : Core lib → List Pubkey
  dynamic_fee_accounts core =
      if lib.is_swap_dynamic_fee_enabled core.pool_state
      then core.pool_state.token_vault_0
        ∷ core.pool_state.token_vault_1
        ∷ (option_list (token0_pyth_oracle_pubkey lib core)
            ++ option_list (token1_pyth_oracle_pubkey lib core))
      else []

  unfoldable pub accounts_to_update : Core lib → List Pubkey
  accounts_to_update core =
      (core.market_id
        ∷ core.pool_state.amm_config
        ∷ core.pool_state.token_mint_0
        ∷ core.pool_state.token_mint_1
        ∷ tick_array_bitmap_extension_key lib core
        ∷ [])
      ++ (get_all_tick_array_addresses core ++ (dynamic_fee_accounts core ++ lib.clock_id ∷ []))

  unfoldable pub base_accounts_to_update : Core lib → List Pubkey
  base_accounts_to_update core =
      (core.market_id
        ∷ core.pool_state.amm_config
        ∷ core.pool_state.token_mint_0
        ∷ core.pool_state.token_mint_1
        ∷ tick_array_bitmap_extension_key lib core
        ∷ lib.clock_id
        ∷ [])
      ++ dynamic_fee_accounts core

  unfoldable pub decode_vault_amount : Pubkey → List ℕ → String → Result TradingVenueError ℕ
  decode_vault_amount vault_owner vault_data what =
      if vault_owner == lib.spl_token_id
      then from_library what (lib.unpack_token_account vault_data)
      else if vault_owner == lib.spl_token_2022_id
      then from_library what (lib.unpack_token_2022_account vault_data)
      else err (
          deserialization_failed
            (string (text what ∷ text "unsupported token program owner " ∷ key vault_owner ∷ [])))

  unfoldable pub decode_pyth_price : List ℕ → ℕ → Result TradingVenueError Price
  decode_pyth_price account_data expected_feed_id =
      elim (from_library "decode pyth oracle failed: " (lib.decode_price_update account_data)) [
        | ok update ↦
            ok_or (lib.get_price_unchecked update expected_feed_id)
              (missing_state (static_str "pyth feed id mismatch"))
        | err e ↦ err e
        | fault x ↦ fault x
      ]
