-- ===== src/ByrealClmm/Update/Invariant.antt =====
-- What `update_state` keeps of the state, whether or not it succeeds.
use byreal_titan_integration.Base.{ℕ, ◌≡◌, refl, List, Map, Result, ok, err, fault, arith}
use byreal_titan_integration.Solana.{Account}
use byreal_titan_integration.TradingVenue.Error.{Pubkey, TradingVenueError}
use byreal_titan_integration.ByrealClmm.Library.{Library}
use byreal_titan_integration.ByrealClmm.Core.{Core}
use byreal_titan_integration.ByrealClmm.Keys.{from_pool_state_account}
use byreal_titan_integration.ByrealClmm.Update.{
  Step, next_step, ◌then◌, store, load_clock, load_pool, load_amm_config, load_vault0, load_vault1,
  load_oracles, load_bitmap_extension, load_tick_arrays, update_state,
}

module _ (lib : Library) where
  -- The mints are the pool's, and the identity is the first state's.
  pub record Keeps (start core : Core lib) : Type 0 where
    pub market : core.market_id ≡ start.market_id
    pub owner : core.program_id ≡ start.program_id
    pub limit : core.max_one_side_tick_arrays ≡ start.max_one_side_tick_arrays
    pub mints : core.reserve_mints ≡ (core.pool_state.token_mint_0, core.pool_state.token_mint_1)

  abbrev Preserves : Step lib → Type 0
  Preserves step = (start core : Core lib) → Keeps start core → Keeps start (step core).0

  then-Preserves :
      (first later : Step lib)
      → Preserves first
      → Preserves later
      → Preserves (λ core. next_step lib (first core) later)
  then-Preserves first later f l start core k = go (first core) (f start core k)
    where
      go :
          (r : Core lib × Result TradingVenueError (Unit {0}))
          → Keeps start r.0
          → Keeps start (next_step lib r later).0
      go (core', ok done) h = l start core' h
      go (core', err e) h = h
      go (core', fault x) h = h

  store-Keeps :
      {A : Type 0} (set : Core lib → A → Core lib) (r : Result TradingVenueError A)
      (start core : Core lib)
      → ((a : A) → Keeps start (set core a))
      → Keeps start core
      → Keeps start (store lib set r core).0
  store-Keeps set (ok a) start core h k = h a
  store-Keeps set (err e) start core h k = k
  store-Keeps set (fault x) start core h k = k

  module _ (accounts : Map Account) where
    load_clock-Preserves : Preserves (load_clock lib accounts)
    unfolding load_clock
    load_clock-Preserves start core k = record {
      market = ground (arith, k.market);
      owner = ground (arith, k.owner);
      limit = ground (arith, k.limit);
      mints = ground (arith, k.mints);
    }

    load_pool-Preserves : Preserves (load_pool lib accounts)
    unfolding load_pool
    load_pool-Preserves start core k = record {
      market = ground (arith, k.market);
      owner = ground (arith, k.owner);
      limit = ground (arith, k.limit);
      mints = ground (arith, k.mints);
    }

    load_amm_config-Preserves : Preserves (load_amm_config lib accounts)
    unfolding load_amm_config
    load_amm_config-Preserves start core k = record {
      market = ground (arith, k.market);
      owner = ground (arith, k.owner);
      limit = ground (arith, k.limit);
      mints = ground (arith, k.mints);
    }

    load_vault0-Preserves : Preserves (load_vault0 lib accounts)
    unfolding load_vault0
    load_vault0-Preserves start core k = record {
      market = ground (arith, k.market);
      owner = ground (arith, k.owner);
      limit = ground (arith, k.limit);
      mints = ground (arith, k.mints);
    }

    load_vault1-Preserves : Preserves (load_vault1 lib accounts)
    unfolding load_vault1
    load_vault1-Preserves start core k = record {
      market = ground (arith, k.market);
      owner = ground (arith, k.owner);
      limit = ground (arith, k.limit);
      mints = ground (arith, k.mints);
    }

    load_bitmap_extension-Preserves : Preserves (load_bitmap_extension lib accounts)
    unfolding load_bitmap_extension
    load_bitmap_extension-Preserves start core k = record {
      market = ground (arith, k.market);
      owner = ground (arith, k.owner);
      limit = ground (arith, k.limit);
      mints = ground (arith, k.mints);
    }

    load_tick_arrays-Preserves : Preserves (load_tick_arrays lib accounts)
    unfolding load_tick_arrays
    load_tick_arrays-Preserves start core k = record {
      market = ground (arith, k.market);
      owner = ground (arith, k.owner);
      limit = ground (arith, k.limit);
      mints = ground (arith, k.mints);
    }

    load_oracles-Preserves : Preserves (load_oracles lib accounts)
    unfolding load_oracles
    load_oracles-Preserves start core k = record {
      market = ground (arith, k.market);
      owner = ground (arith, k.owner);
      limit = ground (arith, k.limit);
      mints = ground (arith, k.mints);
    }

    -- Whether it succeeds or fails, `update_state` leaves the pool's address, its program and the limit of tick arrays as
    -- they are, and the reserve mints those of the pool state that it leaves.
    pub update_state-Keeps :
        (start core : Core lib) → Keeps start core → Keeps start (update_state lib accounts core).0
    unfolding update_state
    update_state-Keeps =
        let s1 = load_clock lib accounts in
        let s2 : Step lib = ◌then◌ lib s1 (load_pool lib accounts) in
        let s3 : Step lib = ◌then◌ lib s2 (load_amm_config lib accounts) in
        let s4 : Step lib = ◌then◌ lib s3 (load_vault0 lib accounts) in
        let s5 : Step lib = ◌then◌ lib s4 (load_vault1 lib accounts) in
        let s6 : Step lib = ◌then◌ lib s5 (load_oracles lib accounts) in
        let s7 : Step lib = ◌then◌ lib s6 (load_bitmap_extension lib accounts) in
        let p1 = load_clock-Preserves in
        let p2 = then-Preserves s1 (load_pool lib accounts) p1 load_pool-Preserves in
        let p3 = then-Preserves s2 (load_amm_config lib accounts) p2 load_amm_config-Preserves in
        let p4 = then-Preserves s3 (load_vault0 lib accounts) p3 load_vault0-Preserves in
        let p5 = then-Preserves s4 (load_vault1 lib accounts) p4 load_vault1-Preserves in
        let p6 = then-Preserves s5 (load_oracles lib accounts) p5 load_oracles-Preserves in
        let p7 =
          then-Preserves s6 (load_bitmap_extension lib accounts) p6
            load_bitmap_extension-Preserves in
        then-Preserves s7 (load_tick_arrays lib accounts) p7 load_tick_arrays-Preserves

  -- A state that is made of a pool account has the pool's mints.
  pub from_pool_state_account-Keeps :
      (market_id owner : Pubkey) (pool_state_data : List ℕ) (core : Core lib)
      → from_pool_state_account lib market_id owner pool_state_data ≡ ok core
      → Keeps core core
  unfolding from_pool_state_account
  from_pool_state_account-Keeps market_id owner pool_state_data core h = record {
    market = refl;
    owner = refl;
    limit = refl;
    mints = ground arith;
  }
