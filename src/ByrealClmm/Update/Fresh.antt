-- ===== src/ByrealClmm/Update/Fresh.antt =====
-- What a successful `update_state` of byreal_clmm/core.rs leaves comes from the accounts that it is given.
use byreal_titan_integration.Base.{
  ℕ, ◌≡◌, refl, sym, ap, inl, inr, [], Option, none, some, Map, lookup, Result, ok, err, fault,
  if◌then◌else◌, contains,
}
use byreal_titan_integration.Solana.{Account}
use byreal_titan_integration.TradingVenue.Error.{Pubkey, TradingVenueError}
use byreal_titan_integration.ByrealClmm.Library.{Library, PoolState, Price, Clock}
use byreal_titan_integration.ByrealClmm.Core.{
  Core, tick_array_bitmap_extension_key, token0_pyth_oracle_pubkey, token1_pyth_oracle_pubkey,
  get_price_feed_account_address,
}
use byreal_titan_integration.ByrealClmm.Keys.{get_all_tick_array_addresses}
use byreal_titan_integration.ByrealClmm.Update.Loaded.{
  PoolFrom, ConfigFrom, VaultFrom, OraclesOf, clock_loaded, pool_loaded, config_loaded,
  vault0_loaded, vault1_loaded, oracles_loaded,
}
use byreal_titan_integration.ByrealClmm.Update.Arrays.{array_at, arrays_fresh}
use byreal_titan_integration.ByrealClmm.Update.{
  Step, next_step, ◌then◌, load_clock, load_pool, load_amm_config, load_vault0, load_vault1,
  load_oracles, load_bitmap_extension, load_tick_arrays, decode_tick_arrays, update_state,
}

module _ (lib : Library) where
  -- A chain of steps succeeds only through both.
  then-ok :
      (r : Core lib × Result TradingVenueError (Unit {0})) (later : Step lib) (end : Core lib)
      → next_step lib r later ≡ (end, ok tt)
      → (mid : Core lib) × (r ≡ (mid, ok tt)) × (later mid ≡ (end, ok tt))
  then-ok (mid, ok done) later end h = (mid, refl, h)
  then-ok (mid, err e) later end h = cc h
  then-ok (mid, fault x) later end h = cc h

  module _ (accounts : Map Account) where
    -- The bitmap extension at `k`, if its account is given and decodes.
    abbrev bitmap_at : Pubkey → Option lib.BitmapExtension
    bitmap_at k = elim (lookup accounts k) [
      | none ↦ none
      | some acc ↦ elim (lib.decode_bitmap_extension acc.bytes) [ inr e ↦ some e | inl x ↦ none ]
    ]

    bitmap_loaded :
        (core end : Core lib)
        → load_bitmap_extension lib accounts core ≡ (end, ok tt)
        → end
          ≡ record core { bitmap_extension = bitmap_at (tick_array_bitmap_extension_key lib core) }
    unfolding load_bitmap_extension
    bitmap_loaded core end h = sym (ap (λ r. r.0) h)

    arrays_loaded :
        (core end : Core lib)
        → load_tick_arrays lib accounts core ≡ (end, ok tt)
        → end ≡ record core {
          dynamic_tick_arrays =
              decode_tick_arrays lib accounts (get_all_tick_array_addresses lib core) [];
        }
    unfolding load_tick_arrays
    arrays_loaded core end h = sym (ap (λ r. r.0) h)

    -- What a successful update leaves, by the account of each part: a part whose account is missing is cleared, except the
    -- pool state, which then stays.
    pub record Fresh (start end : Core lib) : Type 0 where
      pub clock :
          (acc : Account) × (clock : Clock) × (lookup accounts lib.clock_id ≡ some acc)
          × (lib.decode_clock acc.bytes ≡ inr clock)
          × (end.current_unix_timestamp ≡ clock.unix_timestamp)
      pub pool : PoolFrom lib start (lookup accounts start.market_id) end.pool_state
      pub config : ConfigFrom lib (lookup accounts end.pool_state.amm_config) end.amm_config
      pub vault0 :
          VaultFrom lib "decode token0 vault failed: "
            (lookup accounts end.pool_state.token_vault_0)
            end.token0_vault_amount
            end.token0_program_id
      pub vault1 :
          VaultFrom lib "decode token1 vault failed: "
            (lookup accounts end.pool_state.token_vault_1)
            end.token1_vault_amount
            end.token1_program_id
      pub oracles :
          OraclesOf lib accounts end end.token0_pyth_oracle_data end.token1_pyth_oracle_data
      pub bitmap : end.bitmap_extension ≡ bitmap_at (tick_array_bitmap_extension_key lib end)
      pub arrays :
          (k : Pubkey)
          → lookup end.dynamic_tick_arrays k ≡ (
              if contains (get_all_tick_array_addresses lib end) k
              then array_at lib accounts k
              else none)

    -- Each step with what it leaves put in place of the state after it.
    after_clock :
        (core m : Core lib) (P : Core lib → Type 0)
        → load_clock lib accounts core ≡ (m, ok tt)
        → ((acc : Account) (clock : Clock)
            → lookup accounts lib.clock_id ≡ some acc
            → lib.decode_clock acc.bytes ≡ inr clock
            → P (record core { current_unix_timestamp = clock.unix_timestamp }))
        → P m
    after_clock core m P h k =
        let (acc, clock, found, decoded, e) = clock_loaded lib accounts core m h in
        rw (e) (k acc clock found decoded)

    after_pool :
        (core m : Core lib) (P : Core lib → Type 0)
        → load_pool lib accounts core ≡ (m, ok tt)
        → ((pool : PoolState) (mints : Pubkey × Pubkey)
            → PoolFrom lib core (lookup accounts core.market_id) pool
            → P (record core { pool_state = pool; reserve_mints = mints }))
        → P m
    after_pool core m P h k =
        let (pool, mints, from, e) = pool_loaded lib accounts core m h in rw (e) (k pool mints from)

    after_config :
        (core m : Core lib) (P : Core lib → Type 0)
        → load_amm_config lib accounts core ≡ (m, ok tt)
        → ((config : Option lib.AmmConfig)
            → ConfigFrom lib (lookup accounts core.pool_state.amm_config) config
            → P (record core { amm_config = config }))
        → P m
    after_config core m P h k =
        let (config, from, e) = config_loaded lib accounts core m h in rw (e) (k config from)

    after_vault0 :
        (core m : Core lib) (P : Core lib → Type 0)
        → load_vault0 lib accounts core ≡ (m, ok tt)
        → ((amount : ℕ) (program_id : Pubkey)
            → VaultFrom lib "decode token0 vault failed: "
                (lookup accounts core.pool_state.token_vault_0)
                amount
                program_id
            → P (record core { token0_vault_amount = amount; token0_program_id = program_id }))
        → P m
    after_vault0 core m P h k =
        let (amount, program_id, from, e) = vault0_loaded lib accounts core m h in
        rw (e) (k amount program_id from)

    after_vault1 :
        (core m : Core lib) (P : Core lib → Type 0)
        → load_vault1 lib accounts core ≡ (m, ok tt)
        → ((amount : ℕ) (program_id : Pubkey)
            → VaultFrom lib "decode token1 vault failed: "
                (lookup accounts core.pool_state.token_vault_1)
                amount
                program_id
            → P (record core { token1_vault_amount = amount; token1_program_id = program_id }))
        → P m
    after_vault1 core m P h k =
        let (amount, program_id, from, e) = vault1_loaded lib accounts core m h in
        rw (e) (k amount program_id from)

    after_oracles :
        (core m : Core lib) (P : Core lib → Type 0)
        → load_oracles lib accounts core ≡ (m, ok tt)
        → ((p0 p1 : Option Price)
            → OraclesOf lib accounts core p0 p1
            → P (record core { token0_pyth_oracle_data = p0; token1_pyth_oracle_data = p1 }))
        → P m
    after_oracles core m P h k =
        let (p0, p1, from, e) = oracles_loaded lib accounts core m h in rw (e) (k p0 p1 from)

    after_bitmap :
        (core m : Core lib) (P : Core lib → Type 0)
        → load_bitmap_extension lib accounts core ≡ (m, ok tt)
        → ((bitmap : Option lib.BitmapExtension)
            → bitmap ≡ bitmap_at (tick_array_bitmap_extension_key lib core)
            → P (record core { bitmap_extension = bitmap }))
        → P m
    after_bitmap core m P h k = rw (bitmap_loaded core m h) (k _ refl)

    -- The steps that `update_state` takes, with the states between them.
    steps-Fresh :
        (start m1 m2 m3 m4 m5 m6 m7 end : Core lib)
        → load_clock lib accounts start ≡ (m1, ok tt)
        → load_pool lib accounts m1 ≡ (m2, ok tt)
        → load_amm_config lib accounts m2 ≡ (m3, ok tt)
        → load_vault0 lib accounts m3 ≡ (m4, ok tt)
        → load_vault1 lib accounts m4 ≡ (m5, ok tt)
        → load_oracles lib accounts m5 ≡ (m6, ok tt)
        → load_bitmap_extension lib accounts m6 ≡ (m7, ok tt)
        → load_tick_arrays lib accounts m7 ≡ (end, ok tt)
        → Fresh start end
    unfolding token0_pyth_oracle_pubkey token1_pyth_oracle_pubkey get_price_feed_account_address
        tick_array_bitmap_extension_key
    steps-Fresh start m1 m2 m3 m4 m5 m6 m7 end l1 l2 l3 l4 l5 l6 l7 l8 =
        after_clock start m1 (λ m. load_pool lib accounts m ≡ (m2, ok tt) → Fresh start end) l1
          (λ acc clock found decoded l2.
            after_pool _ m2 (λ m. load_amm_config lib accounts m ≡ (m3, ok tt) → Fresh start end) l2
              (λ pool mints of_pool l3.
                after_config _ m3 (λ m. load_vault0 lib accounts m ≡ (m4, ok tt) → Fresh start end)
                  l3
                  (λ config of_config l4.
                    after_vault0 _ m4
                      (λ m. load_vault1 lib accounts m ≡ (m5, ok tt) → Fresh start end) l4
                      (λ amount0 program0 of_vault0 l5.
                        after_vault1 _ m5
                          (λ m. load_oracles lib accounts m ≡ (m6, ok tt) → Fresh start end) l5
                          (λ amount1 program1 of_vault1 l6.
                            after_oracles _ m6
                              (λ m.
                                load_bitmap_extension lib accounts m ≡ (m7, ok tt)
                                → Fresh start end)
                              l6
                              (λ p0 p1 of_oracles l7.
                                after_bitmap _ m7
                                  (λ m.
                                    load_tick_arrays lib accounts m ≡ (end, ok tt)
                                    → Fresh start end)
                                  l7
                                  (λ bitmap of_bitmap l8. rw (arrays_loaded _ end l8) (record {
                                    clock = (acc, clock, found, decoded, refl);
                                    pool = of_pool;
                                    config = of_config;
                                    vault0 = of_vault0;
                                    vault1 = of_vault1;
                                    oracles = of_oracles;
                                    bitmap = of_bitmap;
                                    arrays = arrays_fresh lib accounts _;
                                  }))
                                  l8)
                              l7)
                          l6)
                      l5)
                  l4)
              l3)
          l2

    -- When `update_state` succeeds, all that it leaves is decoded from the accounts it is given: the clock, the pool state
    -- (of an account that the pool's program owns), the configuration, the vaults, with a dynamic fee both oracle prices,
    -- the bitmap extension, and exactly the tick arrays that the new state asks for, is given and can decode. A part whose account is missing is
    -- cleared, but the pool state stays.
    pub update_state-Fresh :
        (start end : Core lib) → update_state lib accounts start ≡ (end, ok tt) → Fresh start end
    unfolding update_state
    update_state-Fresh start end h =
        let s1 = load_clock lib accounts in
        let s2 : Step lib = ◌then◌ lib s1 (load_pool lib accounts) in
        let s3 : Step lib = ◌then◌ lib s2 (load_amm_config lib accounts) in
        let s4 : Step lib = ◌then◌ lib s3 (load_vault0 lib accounts) in
        let s5 : Step lib = ◌then◌ lib s4 (load_vault1 lib accounts) in
        let s6 : Step lib = ◌then◌ lib s5 (load_oracles lib accounts) in
        let s7 : Step lib = ◌then◌ lib s6 (load_bitmap_extension lib accounts) in
        let (m7, r7, l8) = then-ok (s7 start) (load_tick_arrays lib accounts) end h in
        let (m6, r6, l7) = then-ok (s6 start) (load_bitmap_extension lib accounts) m7 r7 in
        let (m5, r5, l6) = then-ok (s5 start) (load_oracles lib accounts) m6 r6 in
        let (m4, r4, l5) = then-ok (s4 start) (load_vault1 lib accounts) m5 r5 in
        let (m3, r3, l4) = then-ok (s3 start) (load_vault0 lib accounts) m4 r4 in
        let (m2, r2, l3) = then-ok (s2 start) (load_amm_config lib accounts) m3 r3 in
        let (m1, r1, l2) = then-ok (s1 start) (load_pool lib accounts) m2 r2 in
        steps-Fresh start m1 m2 m3 m4 m5 m6 m7 end r1 l2 l3 l4 l5 l6 l7 l8
