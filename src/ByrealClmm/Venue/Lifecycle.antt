-- ===== src/ByrealClmm/Venue/Lifecycle.antt =====
-- The venue of src/byreal_clmm/mod.rs from `from_account` on, through any updates.
use byreal_titan_integration.Base.{
  ℕ, ◌≡◌, ◌≢◌, refl, sym, ◌∙◌, ap, ◌⊎◌, inl, inr, true, false, Map, none, Result, ok, err, fault,
  require, bind-eq-ok, require-eq-ok, ◌==◌, ==→eq, arith,
}
use byreal_titan_integration.Solana.{Account}
use byreal_titan_integration.TradingVenue.Error.{Pubkey, TradingVenueError, not_initialized, pubkey}
use byreal_titan_integration.TradingVenue.Request.{QuoteRequest}
use byreal_titan_integration.TradingVenue.TokenInfo.{Spl}
use byreal_titan_integration.ByrealClmm.Library.{Library}
use byreal_titan_integration.ByrealClmm.Core.{Core}
use byreal_titan_integration.ByrealClmm.Keys.{
  accounts_to_update, base_accounts_to_update, from_pool_state_account,
}
use byreal_titan_integration.ByrealClmm.Update as Core_update
use byreal_titan_integration.ByrealClmm.Update.Invariant.{
  Keeps, update_state-Keeps, from_pool_state_account-Keeps,
}
use byreal_titan_integration.ByrealClmm.Trade.{bounds, cached_bounds}
use byreal_titan_integration.ByrealClmm.Venue.{
  AccountsCache, ByrealClmmVenue, with_value, after_core, fetch_account_map, with_mints,
  clock_from_account_map, refresh_token_info, refresh_bounds_cache, finish_update, from_account,
  update_state, quote, base_token_info,
}
use byreal_titan_integration.ByrealClmm.Venue.Settled.{Settles, update_state-Settles}

module _ (lib : Library) (fuel : ℕ) (spl : Spl) where
  module _ (start : Core lib) where
    with_value-core :
        {A S : Type 0} (v : ByrealClmmVenue lib) (r : Result TradingVenueError A)
        (next : A → ByrealClmmVenue lib × Result TradingVenueError S)
        → Keeps lib start v.core
        → ((a : A) → Keeps lib start (next a).0.core)
        → Keeps lib start (with_value lib fuel v r next).0.core
    with_value-core v (ok a) next k h = h a
    with_value-core v (err e) next k h = k
    with_value-core v (fault x) next k h = k

    after_core-core :
        {S : Type 0} (v : ByrealClmmVenue lib) (r : Core lib × Result TradingVenueError (Unit {0}))
        (next : ByrealClmmVenue lib → ByrealClmmVenue lib × Result TradingVenueError S)
        → Keeps lib start r.0
        → ((v' : ByrealClmmVenue lib) → Keeps lib start v'.core → Keeps lib start (next v').0.core)
        → Keeps lib start (after_core lib fuel v r next).0.core
    after_core-core v (core, ok done) next k h = h (record v { core = core }) k
    after_core-core v (core, err e) next k h = k
    after_core-core v (core, fault x) next k h = k

    finish_update-core :
        {S : Type 0} (s : S) (accounts : Map Account) (v : ByrealClmmVenue lib)
        → Keeps lib start v.core
        → Keeps lib start (finish_update lib fuel spl s accounts v).0.core
    unfolding finish_update
    finish_update-core s accounts v k =
        with_value-core v (clock_from_account_map lib accounts) _ k λ clock.
          let v1 = record v { current_epoch = clock.epoch } in
          with_value-core v1 (refresh_token_info lib spl v1.core accounts clock.epoch) _ k λ infos.
            let v2 = record v1 { token_info = infos } in
            with_value-core v2 (refresh_bounds_cache lib fuel v2.core) _ k λ cached. k

    update_state-core :
        (cache : AccountsCache) (s : cache.State) (v : ByrealClmmVenue lib)
        → Keeps lib start v.core
        → Keeps lib start (update_state lib fuel spl cache s v).0.core
    unfolding update_state
    update_state-core cache s v k =
        with_value-core v
          (fetch_account_map cache s (with_mints lib v.core (base_accounts_to_update lib v.core))) _
          k
          λ base.
            after_core-core v (Core_update.update_state lib base.0 v.core) _
              (update_state-Keeps lib base.0 start v.core k)
              λ v1 k1.
                with_value-core v1
                  (fetch_account_map cache base.1
                    (with_mints lib v1.core (accounts_to_update lib v1.core)))
                  _ k1
                  λ accounts.
                    after_core-core v1 (Core_update.update_state lib accounts.0 v1.core) _
                      (update_state-Keeps lib accounts.0 start v1.core k1)
                      λ v2 k2. finish_update-core accounts.1 accounts.0 v2 k2

  module _ (program_id market_id : Pubkey) (account : Account) where
    -- A venue that is made of the pool's account, and updated from any caches, whether or not an update succeeds.
    pub data Lives : ByrealClmmVenue lib → Type 1 where
      made :
          (v : ByrealClmmVenue lib) → from_account lib program_id market_id account ≡ ok v → Lives v
      updated :
          (v : ByrealClmmVenue lib) (cache : AccountsCache) (s : cache.State)
          → Lives v
          → Lives (update_state lib fuel spl cache s v).0

    -- Both directions have their bounds from the first update that succeeds on, and before it nothing is quoted.
    abbrev pub StateOf : ByrealClmmVenue lib → Type 0
    StateOf v =
        ((v.initialized ≡ true)
          × ((b0 : ℕ × ℕ) × (b1 : ℕ × ℕ) × (bounds lib v 0 1 ≡ ok b0) × (bounds lib v 1 0 ≡ ok b1)))
        ⊎ ((v.initialized ≡ false)
            × ((request : QuoteRequest)
                → quote lib fuel v request ≡ err (not_initialized (pubkey market_id)))
            × ((b : ℕ × ℕ) → (bounds lib v 0 1 ≢ ok b) × (bounds lib v 1 0 ≢ ok b)))

    pub record Sane (v : ByrealClmmVenue lib) : Type 0 where
      pub market : v.core.market_id ≡ market_id
      pub program : v.core.program_id ≡ program_id
      pub limit : v.core.max_one_side_tick_arrays ≡ 6
      pub mints :
          v.core.reserve_mints ≡ (v.core.pool_state.token_mint_0, v.core.pool_state.token_mint_1)
      pub state : StateOf v

    unquoted :
        (v : ByrealClmmVenue lib)
        → v.initialized ≡ false
        → v.core.market_id ≡ market_id
        → (request : QuoteRequest)
        → quote lib fuel v request ≡ err (not_initialized (pubkey market_id))
    unfolding quote
    unquoted v closed same request = rw (closed, same) refl

    bounds_of :
        (v v' : ByrealClmmVenue lib)
        → v'.bounds_cache ≡ v.bounds_cache
        → (bounds lib v' 0 1 ≡ bounds lib v 0 1) × (bounds lib v' 1 0 ≡ bounds lib v 1 0)
    unfolding bounds
    bounds_of v v' e = (ap (λ c. cached_bounds lib v c.0) e, ap (λ c. cached_bounds lib v c.1) e)

    pool_fields :
        (owner : Pubkey) (core : Core lib)
        → from_pool_state_account lib market_id owner account.bytes ≡ ok core
        → (core.market_id ≡ market_id)
          × (core.program_id ≡ owner)
          × (core.max_one_side_tick_arrays ≡ 6)
    unfolding from_pool_state_account
    pool_fields owner core h = (ground arith, ground arith, ground arith)

    from_account-Sane :
        (v : ByrealClmmVenue lib) → from_account lib program_id market_id account ≡ ok v → Sane v
    unfolding from_account bounds
    from_account-Sane v h =
        let (_, e0, h1) = bind-eq-ok (require (account.owner == program_id) _) _ v h in
        let (core, e, h2) =
          bind-eq-ok (from_pool_state_account lib market_id account.owner account.bytes) _ v h1 in
        let (market, program, limit) = pool_fields account.owner core e in
        let owned : account.owner ≡ program_id = ==→eq _ _ (require-eq-ok _ _ e0) in
        let keeps =
          from_pool_state_account-Keeps lib market_id account.owner account.bytes core e in
        let same : record {
          core = core;
          token_info = base_token_info lib core;
          initialized = false;
          current_epoch = 0;
          bounds_cache = (none, none);
        }
            ≡ v =
          cc h2 in
        rw (sym same) (record {
          market = market;
          program = program ∙ owned;
          limit = limit;
          mints = keeps.mints;
          state = inr (refl, unquoted _ refl market, λ b. (λ e'. cc e', λ e'. cc e'));
        })

    settled_state :
        {S : Type 0} (v : ByrealClmmVenue lib)
        (r : ByrealClmmVenue lib × Result TradingVenueError S)
        → Settles lib fuel spl v r
        → r.0.core.market_id ≡ market_id
        → StateOf v
        → StateOf r.0
    unfolding bounds
    settled_state v r settles same state = elim settles.outcome [
      | inl (s, succeeds, ready, (b0, b1, cached, e0, e1)) ↦ inl (
        ready,
        (
          b0,
          b1,
          ap (λ c. cached_bounds lib v c.0) cached,
          ap (λ c. cached_bounds lib v c.1) cached,
        ),
      )
      | inr (fails, same_open, same_bounds) ↦
          let (forth, back) = bounds_of v r.0 same_bounds in
          elim state [
            | inl (ready, (b0, b1, e0, e1)) ↦
                inl (same_open ∙ ready, (b0, b1, forth ∙ e0, back ∙ e1))
            | inr (closed, silent, unbounded) ↦ inr (
              same_open ∙ closed,
              unquoted r.0 (same_open ∙ closed) same,
              λ b. (λ e. (unbounded b).0 (sym forth ∙ e), λ e. (unbounded b).1 (sym back ∙ e)),
            )
          ]
    ]

    update_state-Sane :
        (v : ByrealClmmVenue lib) (cache : AccountsCache) (s : cache.State)
        → Sane v
        → Sane (update_state lib fuel spl cache s v).0
    update_state-Sane v cache s sane =
        let keeps =
          update_state-core v.core cache s v
            (record { market = refl; owner = refl; limit = refl; mints = sane.mints }) in
        record {
          market = keeps.market ∙ sane.market;
          program = keeps.owner ∙ sane.program;
          limit = keeps.limit ∙ sane.limit;
          mints = keeps.mints;
          state =
              settled_state v (update_state lib fuel spl cache s v)
                (update_state-Settles lib fuel spl cache s v) (keeps.market ∙ sane.market)
                sane.state;
        }

    -- A venue made of a pool's account keeps, through any sequence of updates from any caches, also those that fail midway,
    -- the pool's address and program, the limit of six tick arrays, and reserve mints that are the pool state's; it either
    -- refuses every quote and has no bounds, or is initialized and has bounds for both directions.
    pub Lives-Sane : (v : ByrealClmmVenue lib) → Lives v → Sane v
    Lives-Sane v (made _ h) = from_account-Sane v h
    Lives-Sane _ (updated v cache s lives) = update_state-Sane v cache s (Lives-Sane v lives)
