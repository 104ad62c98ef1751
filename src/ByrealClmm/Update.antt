-- ===== src/ByrealClmm/Update.antt =====
-- `update_state` of byreal_clmm/core.rs, which keeps what it has changed when it fails.
pub mod Invariant
pub mod Addresses
pub mod Loaded
pub mod Arrays
pub mod Fresh
use byreal_titan_integration.Base.{
  ℕ, zero, suc, ◌+◌, ◌-◌, ℤ, pos, Bool, true, false, not, ◌&&◌, ◌||◌, List, [], ◌∷◌, ◌++◌, map,
  Option, none, some, ◌⊎◌, inl, inr, Map, lookup, insert, Result, ok, err, fault, String, ok_or,
  require, ◌==◌, if◌then◌else◌,
}
use byreal_titan_integration.Solana.{Account}
use byreal_titan_integration.TradingVenue.Error.{
  Pubkey, Message, text, key, TradingVenueError, deserialization_failed, missing_state,
  unsupported_venue, static_str, string,
}
use byreal_titan_integration.ByrealClmm.Library.{Library, PoolState, Price, Clock}
use byreal_titan_integration.ByrealClmm.Core.{
  Core, zero_pubkey, tick_array_bitmap_extension_key, token0_pyth_oracle_pubkey,
  token1_pyth_oracle_pubkey, get_tick_array_address,
}
use byreal_titan_integration.ByrealClmm.TickArrays.{collect_dir, fallback_start, insert_sorted}
use byreal_titan_integration.ByrealClmm.TickArray.{DynamicTickArrayState, from_account_data}
use byreal_titan_integration.ByrealClmm.Keys.{
  from_library, decode_vault_amount, decode_pyth_price, get_all_tick_array_addresses,
}

module _ (lib : Library) where
  -- A step of `update_state`: the state that it leaves, whether or not it succeeds.
  abbrev pub Step : Type 0
  Step = Core lib → Core lib × Result TradingVenueError (Unit {0})

  abbrev pub next_step :
      Core lib × Result TradingVenueError (Unit {0})
      → Step
      → Core lib × Result TradingVenueError (Unit {0})
  next_step (core, ok done) later = later core
  next_step (core, err e) later = (core, err e)
  next_step (core, fault x) later = (core, fault x)

  infixl 5 ◌then◌
  abbrev pub ◌then◌ : Step → Step → Step
  ◌then◌ first later core = next_step (first core) later

  -- A result that is stored, or the error with the state as it was.
  abbrev pub store : {A : Type 0} → (Core lib → A → Core lib) → Result TradingVenueError A → Step
  store set (ok a) core = (set core a, ok tt)
  store set (err e) core = (core, err e)
  store set (fault x) core = (core, fault x)

  module _ (accounts : Map Account) where
    unfoldable pub load_clock : Step
    load_clock core = elim (lookup accounts lib.clock_id) [
      | none ↦ (core, err (missing_state (static_str "missing sysvar clock")))
      | some acc ↦
          store (λ core clock. record core { current_unix_timestamp = clock.unix_timestamp })
            (from_library "decode sysvar clock failed: " (lib.decode_clock acc.bytes)) core
    ]

    unfoldable pub load_pool : Step
    load_pool core = elim (lookup accounts core.market_id) [
      | none ↦ (core, ok tt)
      | some pool_acc ↦
          if not (pool_acc.owner == core.program_id)
          then (
            core,
            err (
                unsupported_venue (
                  string (
                    text "Byreal CLMM pool owner must remain "
                    ∷ key core.program_id
                    ∷ text ", got "
                    ∷ key pool_acc.owner
                    ∷ []))),
          )
          else store
              (λ core pool_state. record core {
                pool_state = pool_state;
                reserve_mints = (pool_state.token_mint_0, pool_state.token_mint_1);
              })
              (from_library "decode PoolState failed: " (lib.decode_pool_state pool_acc.bytes)) core
    ]

    unfoldable pub load_amm_config : Step
    load_amm_config core = elim (lookup accounts core.pool_state.amm_config) [
      | none ↦ (record core { amm_config = none }, ok tt)
      | some amm_acc ↦
          store (λ core config. record core { amm_config = some config })
            (from_library "decode AmmConfig failed: " (lib.decode_amm_config amm_acc.bytes)) core
    ]

    unfoldable pub load_vault0 : Step
    load_vault0 core = elim (lookup accounts core.pool_state.token_vault_0) [
      | none ↦ (record core { token0_vault_amount = 0; token0_program_id = zero_pubkey }, ok tt)
      | some acc ↦
          store
            (λ core amount. record core {
              token0_vault_amount = amount;
              token0_program_id = acc.owner;
            })
            (decode_vault_amount lib acc.owner acc.bytes "decode token0 vault failed: ") core
    ]

    unfoldable pub load_vault1 : Step
    load_vault1 core = elim (lookup accounts core.pool_state.token_vault_1) [
      | none ↦ (record core { token1_vault_amount = 0; token1_program_id = zero_pubkey }, ok tt)
      | some acc ↦
          store
            (λ core amount. record core {
              token1_vault_amount = amount;
              token1_program_id = acc.owner;
            })
            (decode_vault_amount lib acc.owner acc.bytes "decode token1 vault failed: ") core
    ]

    -- One oracle: its account's owner, then its price for the feed.
    unfoldable pub oracle_price :
        Option Pubkey → ℕ → (missing wrong_owner : String) → Result TradingVenueError Price
    oracle_price none feed missing wrong_owner = err (missing_state (static_str missing))
    oracle_price (some oracle) feed missing wrong_owner = elim (lookup accounts oracle) [
      | none ↦ err (missing_state (static_str missing))
      | some acc ↦
          if not (acc.owner == lib.pyth_receiver_program_id)
          then err (missing_state (static_str wrong_owner))
          else decode_pyth_price lib acc.bytes feed
    ]

    abbrev pub check : Result TradingVenueError (Unit {0}) → Step
    check r core = (core, r)

    unfoldable pub load_oracles : Step
    load_oracles core =
        let pyth0 = token0_pyth_oracle_pubkey lib core in
        let pyth1 = token1_pyth_oracle_pubkey lib core in
        if lib.is_swap_dynamic_fee_enabled core.pool_state
        then (check (
                require
                  (not (
                    core.token0_program_id == zero_pubkey || core.token1_program_id == zero_pubkey))
                  (missing_state (
                    static_str
                      "missing dynamic fee vault accounts; call update_state() with required accounts")))
              then check (configured pyth0 "token0 pyth feed id is not configured")
              then check (configured pyth1 "token1 pyth feed id is not configured")
              then store (λ core price. record core { token0_pyth_oracle_data = some price })
                  (oracle_price pyth0 core.pool_state.token0_pyth_feed_id
                    "missing token0 pyth oracle; call update_state() with required accounts"
                    "token0 pyth oracle owner mismatch")
              then store (λ core price. record core { token1_pyth_oracle_data = some price })
                  (oracle_price pyth1 core.pool_state.token1_pyth_feed_id
                    "missing token1 pyth oracle; call update_state() with required accounts"
                    "token1 pyth oracle owner mismatch"))
            core
        else (record core { token0_pyth_oracle_data = none; token1_pyth_oracle_data = none }, ok tt)
      where
        configured : Option Pubkey → String → Result TradingVenueError (Unit {0})
        configured none what = err (missing_state (static_str what))
        configured (some k) what = ok tt

    unfoldable pub load_bitmap_extension : Step
    load_bitmap_extension core = (
      record core {
        bitmap_extension = elim (lookup accounts (tick_array_bitmap_extension_key lib core)) [
          | none ↦ none
          | some acc ↦ elim (lib.decode_bitmap_extension acc.bytes) [
            | inr e ↦ some e
            | inl x ↦ none
          ]
        ];
      },
      ok tt,
    )

    -- The arrays at `keys` that are given and decode, put into `loaded`.
    unfoldable pub decode_tick_arrays :
        (keys : List Pubkey) (loaded : Map (DynamicTickArrayState lib))
        → Map (DynamicTickArrayState lib)
    decode_tick_arrays [] loaded = loaded
    decode_tick_arrays (k ∷ keys) loaded = elim (lookup accounts k) [
      | none ↦ decode_tick_arrays keys loaded
      | some acc ↦ elim (from_account_data lib acc.bytes) [
        | some parsed ↦ decode_tick_arrays keys (insert loaded k parsed)
        | none ↦ decode_tick_arrays keys loaded
      ]
    ]

    unfoldable pub load_tick_arrays : Step
    load_tick_arrays core = (
      record core {
        dynamic_tick_arrays = decode_tick_arrays (get_all_tick_array_addresses lib core) [];
      },
      ok tt,
    )

    unfoldable pub update_state : Step
    update_state =
        load_clock then load_pool then load_amm_config then load_vault0 then load_vault1
        then load_oracles then load_bitmap_extension then load_tick_arrays
