-- ===== src/ByrealClmm/Update/Loaded.antt =====
-- What each step of `update_state` of byreal_clmm/core.rs stores when it succeeds.
use byreal_titan_integration.Base.{
  ℕ, ◌≡◌, refl, sym, ◌⊎◌, inl, inr, Bool, true, false, not, Option, none, some, Map, String, lookup,
  Result, ok, err, fault, require, ◌==◌, ◌||◌, Option-cases, Bool-cases, ==→eq,
}
use byreal_titan_integration.Solana.{Account}
use byreal_titan_integration.TradingVenue.Error.{Pubkey, TradingVenueError, Message}
use byreal_titan_integration.ByrealClmm.Library.{Library, PoolState, Price, Clock}
use byreal_titan_integration.ByrealClmm.Core.{
  Core, zero_pubkey, token0_pyth_oracle_pubkey, token1_pyth_oracle_pubkey,
}
use byreal_titan_integration.ByrealClmm.Keys.{from_library, decode_vault_amount}
use byreal_titan_integration.ByrealClmm.Update.{
  Step, ◌then◌, store, load_clock, load_pool, load_amm_config, load_vault0, load_vault1,
  load_oracles, oracle_price, check,
}

from_library-ok :
    {A : Type 0} (what : String) (r : Message ⊎ A) (a : A) → from_library what r ≡ ok a → r ≡ inr a
from_library-ok what (inr b) a h = cc h
from_library-ok what (inl e) a h = cc h

module _ (lib : Library) where
  store-ok :
      {A : Type 0} (set : Core lib → A → Core lib) (r : Result TradingVenueError A)
      (core end : Core lib)
      → store lib set r core ≡ (end, ok tt)
      → (a : A) × (r ≡ ok a) × (end ≡ set core a)
  store-ok set (ok a) core end h = (a, refl, cc h)
  store-ok set (err e) core end h = cc h
  store-ok set (fault x) core end h = cc h

  -- What is loaded of an account that is given or not.
  abbrev pub PoolFrom : Core lib → Option Account → PoolState → Type 0
  PoolFrom start none pool = pool ≡ start.pool_state
  PoolFrom start (some acc) pool =
      (acc.owner ≡ start.program_id) × (lib.decode_pool_state acc.bytes ≡ inr pool)

  abbrev pub ConfigFrom : Option Account → Option lib.AmmConfig → Type 0
  ConfigFrom none config = config ≡ none
  ConfigFrom (some acc) config =
      (c : lib.AmmConfig) × (lib.decode_amm_config acc.bytes ≡ inr c) × (config ≡ some c)

  abbrev pub VaultFrom : String → Option Account → (amount : ℕ) (program_id : Pubkey) → Type 0
  VaultFrom what none amount program_id = (amount ≡ 0) × (program_id ≡ zero_pubkey)
  VaultFrom what (some acc) amount program_id =
      (decode_vault_amount lib acc.owner acc.bytes what ≡ ok amount) × (program_id ≡ acc.owner)

  module _ (accounts : Map Account) where
    pub clock_loaded :
        (core end : Core lib)
        → load_clock lib accounts core ≡ (end, ok tt)
        → (acc : Account) × (clock : Clock) × (lookup accounts lib.clock_id ≡ some acc)
          × (lib.decode_clock acc.bytes ≡ inr clock)
          × (end ≡ record core { current_unix_timestamp = clock.unix_timestamp })
    unfolding load_clock
    clock_loaded core end h = elim (Option-cases (lookup accounts lib.clock_id)) [
      | inl missing ↦ cc (rw (load_clock, missing) at h)
      | inr (acc, found) ↦
          let (clock, e, same) =
            store-ok _ (from_library "decode sysvar clock failed: " (lib.decode_clock acc.bytes))
              core end (rw (load_clock, found) at h) in
          (acc, clock, found, from_library-ok _ (lib.decode_clock acc.bytes) clock e, same)
    ]

    pub pool_loaded :
        (core end : Core lib)
        → load_pool lib accounts core ≡ (end, ok tt)
        → (pool : PoolState) × (mints : Pubkey × Pubkey) × PoolFrom core
            (lookup accounts core.market_id)
            pool
          × (end ≡ record core { pool_state = pool; reserve_mints = mints })
    unfolding load_pool
    pool_loaded core end h = elim (Option-cases (lookup accounts core.market_id)) [
      | inl missing ↦
          let same : core ≡ end = cc (rw (load_pool, missing) at h) in
          (core.pool_state, core.reserve_mints, rw (missing) refl, sym same)
      | inr (acc, found) ↦ elim (Bool-cases (acc.owner == core.program_id)) [
        | inl own ↦
            let (pool, e, same) =
              store-ok _
                (from_library "decode PoolState failed: " (lib.decode_pool_state acc.bytes)) core
                end (rw (load_pool, found, own) at h) in
            (
              pool,
              (pool.token_mint_0, pool.token_mint_1),
              rw (found)
                  (==→eq _ _ own, from_library-ok _ (lib.decode_pool_state acc.bytes) pool e),
              same,
            )
        | inr other ↦ cc (rw (load_pool, found, other) at h)
      ]
    ]

    pub config_loaded :
        (core end : Core lib)
        → load_amm_config lib accounts core ≡ (end, ok tt)
        → (config : Option lib.AmmConfig) × ConfigFrom
            (lookup accounts core.pool_state.amm_config)
            config
          × (end ≡ record core { amm_config = config })
    unfolding load_amm_config
    config_loaded core end h = elim (Option-cases (lookup accounts core.pool_state.amm_config)) [
      | inl missing ↦
          let e : record core { amm_config = none } ≡ end =
            cc (rw (load_amm_config, missing) at h) in
          (none, rw (missing) refl, sym e)
      | inr (acc, found) ↦
          let (config, e, same) =
            store-ok _ (from_library "decode AmmConfig failed: " (lib.decode_amm_config acc.bytes))
              core end (rw (load_amm_config, found) at h) in
          (
            some config,
            rw (found) (config, from_library-ok _ (lib.decode_amm_config acc.bytes) config e, refl),
            same,
          )
    ]

    pub vault0_loaded :
        (core end : Core lib)
        → load_vault0 lib accounts core ≡ (end, ok tt)
        → (amount : ℕ) × (program_id : Pubkey) × VaultFrom "decode token0 vault failed: "
            (lookup accounts core.pool_state.token_vault_0)
            amount
            program_id
          × (end ≡ record core { token0_vault_amount = amount; token0_program_id = program_id })
    unfolding load_vault0
    vault0_loaded core end h = elim (Option-cases (lookup accounts core.pool_state.token_vault_0)) [
      | inl missing ↦
          let e : record core { token0_vault_amount = 0; token0_program_id = zero_pubkey } ≡ end =
            cc (rw (load_vault0, missing) at h) in
          (0, zero_pubkey, rw (missing) (refl, refl), sym e)
      | inr (acc, found) ↦
          let (amount, e, same) =
            store-ok _ (decode_vault_amount lib acc.owner acc.bytes "decode token0 vault failed: ")
              core end (rw (load_vault0, found) at h) in
          (amount, acc.owner, rw (found) (e, refl), same)
    ]

    pub vault1_loaded :
        (core end : Core lib)
        → load_vault1 lib accounts core ≡ (end, ok tt)
        → (amount : ℕ) × (program_id : Pubkey) × VaultFrom "decode token1 vault failed: "
            (lookup accounts core.pool_state.token_vault_1)
            amount
            program_id
          × (end ≡ record core { token1_vault_amount = amount; token1_program_id = program_id })
    unfolding load_vault1
    vault1_loaded core end h = elim (Option-cases (lookup accounts core.pool_state.token_vault_1)) [
      | inl missing ↦
          let e : record core { token1_vault_amount = 0; token1_program_id = zero_pubkey } ≡ end =
            cc (rw (load_vault1, missing) at h) in
          (0, zero_pubkey, rw (missing) (refl, refl), sym e)
      | inr (acc, found) ↦
          let (amount, e, same) =
            store-ok _ (decode_vault_amount lib acc.owner acc.bytes "decode token1 vault failed: ")
              core end (rw (load_vault1, found) at h) in
          (amount, acc.owner, rw (found) (e, refl), same)
    ]

    -- Both prices, each of its oracle's account, with both vaults' programs known, or neither.
    abbrev pub OraclesFrom :
        Bool
        → PoolState
        → (pyth0 pyth1 : Option Pubkey) (program0 program1 : Pubkey) → Option Price
        → Option Price
        → Type 0
    OraclesFrom false pool pyth0 pyth1 program0 program1 p0 p1 = (p0 ≡ none) × (p1 ≡ none)
    OraclesFrom true pool pyth0 pyth1 program0 program1 p0 p1 =
        (q0 : Price) × (q1 : Price) × (p0 ≡ some q0)
        × (p1 ≡ some q1)
        × (oracle_price lib accounts pyth0 pool.token0_pyth_feed_id
              "missing token0 pyth oracle; call update_state() with required accounts"
              "token0 pyth oracle owner mismatch"
            ≡ ok q0)
        × (oracle_price lib accounts pyth1 pool.token1_pyth_feed_id
              "missing token1 pyth oracle; call update_state() with required accounts"
              "token1 pyth oracle owner mismatch"
            ≡ ok q1)
        × ((program0 == zero_pubkey || program1 == zero_pubkey) ≡ false)

    abbrev pub OraclesOf : Core lib → Option Price → Option Price → Type 0
    OraclesOf core =
        OraclesFrom (lib.is_swap_dynamic_fee_enabled core.pool_state) core.pool_state
          (token0_pyth_oracle_pubkey lib core) (token1_pyth_oracle_pubkey lib core)
          core.token0_program_id core.token1_program_id

    abbrev set_price0 : Core lib → Price → Core lib
    set_price0 core price = record core { token0_pyth_oracle_data = some price }

    abbrev set_price1 : Core lib → Price → Core lib
    set_price1 core price = record core { token1_pyth_oracle_data = some price }

    abbrev two_oracles :
        (a b c : Result TradingVenueError (Unit {0})) (r0 r1 : Result TradingVenueError Price)
        → Step lib
    two_oracles a b c r0 r1 =
        ◌then◌ lib
          (◌then◌ lib
            (◌then◌ lib (◌then◌ lib (check lib accounts a) (check lib accounts b))
              (check lib accounts c))
            (store lib set_price0 r0))
          (store lib set_price1 r1)

    two_oracles-ok :
        (a b c : Result TradingVenueError (Unit {0})) (r0 r1 : Result TradingVenueError Price)
        (core end : Core lib)
        → two_oracles a b c r0 r1 core ≡ (end, ok tt)
        → (q0 : Price) × (q1 : Price) × (a ≡ ok tt)
          × (r0 ≡ ok q0)
          × (r1 ≡ ok q1)
          × (end ≡ record core {
            token0_pyth_oracle_data = some q0;
            token1_pyth_oracle_data = some q1;
          })
    two_oracles-ok (err e) b c r0 r1 core end h = cc h
    two_oracles-ok (fault x) b c r0 r1 core end h = cc h
    two_oracles-ok (ok u) (err e) c r0 r1 core end h = cc h
    two_oracles-ok (ok u) (fault x) c r0 r1 core end h = cc h
    two_oracles-ok (ok u) (ok u') (err e) r0 r1 core end h = cc h
    two_oracles-ok (ok u) (ok u') (fault x) r0 r1 core end h = cc h
    two_oracles-ok (ok u) (ok u') (ok u'') (err e) r1 core end h = cc h
    two_oracles-ok (ok u) (ok u') (ok u'') (fault x) r1 core end h = cc h
    two_oracles-ok (ok u) (ok u') (ok u'') (ok q0) (err e) core end h = cc h
    two_oracles-ok (ok u) (ok u') (ok u'') (ok q0) (fault x) core end h = cc h
    two_oracles-ok (ok u) (ok u') (ok u'') (ok q0) (ok q1) core end h =
        (q0, q1, refl, refl, refl, cc h)

    require-not : (t : Bool) (e : TradingVenueError) → require (not t) e ≡ ok tt → t ≡ false
    require-not true e h = cc h
    require-not false e h = refl

    pub oracles_loaded :
        (core end : Core lib)
        → load_oracles lib accounts core ≡ (end, ok tt)
        → (p0 : Option Price) × (p1 : Option Price) × OraclesOf core p0 p1
          × (end ≡ record core { token0_pyth_oracle_data = p0; token1_pyth_oracle_data = p1 })
    unfolding load_oracles
    oracles_loaded core end h =
        elim (Bool-cases (lib.is_swap_dynamic_fee_enabled core.pool_state)) [
          | inl dynamic ↦
              let (q0, q1, a, e0, e1, same) =
                two_oracles-ok
                  (require
                    (not (
                      core.token0_program_id == zero_pubkey
                      || core.token1_program_id == zero_pubkey))
                    _)
                  _ _
                  (oracle_price lib accounts (token0_pyth_oracle_pubkey lib core)
                    core.pool_state.token0_pyth_feed_id _ _)
                  (oracle_price lib accounts (token1_pyth_oracle_pubkey lib core)
                    core.pool_state.token1_pyth_feed_id _ _)
                  core end (rw (dynamic) at h) in
              (some q0, some q1, rw (dynamic) (q0, q1, refl, refl, e0, e1, require-not _ _ a), same)
          | inr plain ↦
              let e : record core { token0_pyth_oracle_data = none; token1_pyth_oracle_data = none }
                  ≡ end =
                cc (rw (plain) at h) in
              (none, none, rw (plain) (refl, refl), sym e)
        ]
