-- ===== src/ByrealClmm/Venue/Settled.antt =====
-- What `update_state` of src/byreal_clmm/mod.rs leaves of the venue.
use byreal_titan_integration.Base.{
  ℕ, ◌≡◌, ◌≢◌, refl, sym, ◌⊎◌, inl, inr, true, some, Map, Result, ok, err, fault, bind-eq-ok,
}
use byreal_titan_integration.Solana.{Account}
use byreal_titan_integration.TradingVenue.Error.{TradingVenueError}
use byreal_titan_integration.TradingVenue.TokenInfo.{Spl}
use byreal_titan_integration.TradingVenue.Bounds.{find_boundaries}
use byreal_titan_integration.ByrealClmm.Library.{Library}
use byreal_titan_integration.ByrealClmm.Core.{Core, token_mints}
use byreal_titan_integration.ByrealClmm.Keys.{accounts_to_update, base_accounts_to_update}
use byreal_titan_integration.ByrealClmm.Update as Core_update
use byreal_titan_integration.ByrealClmm.Venue.{
  AccountsCache, ByrealClmmVenue, with_value, after_core, fetch_account_map, with_mints,
  clock_from_account_map, refresh_token_info, quote_for_bounds, refresh_bounds_cache, finish_update,
  update_state,
}

module _ (lib : Library) (fuel : ℕ) (spl : Spl) where
  -- Either the update has succeeded, the venue is initialized and the bounds of both directions are cached, or it has
  -- failed and these are as they were.
  pub record Settles {S : Type 0} (v : ByrealClmmVenue lib)
      (r : ByrealClmmVenue lib × Result TradingVenueError S) : Type 0 where
    pub outcome :
        ((s : S) × (r.1 ≡ ok s)
          × (r.0.initialized ≡ true)
          × ((b0 : ℕ × ℕ) × (b1 : ℕ × ℕ) × (r.0.bounds_cache ≡ (some b0, some b1))
              × (find_boundaries (
                    quote_for_bounds lib fuel r.0.core
                      (token_mints lib r.0.core).0
                      (token_mints lib r.0.core).1)
                  ≡ ok b0)
              × (find_boundaries (
                    quote_for_bounds lib fuel r.0.core
                      (token_mints lib r.0.core).1
                      (token_mints lib r.0.core).0)
                  ≡ ok b1)))
        ⊎ (((s : S) → r.1 ≢ ok s)
            × (r.0.initialized ≡ v.initialized)
            × (r.0.bounds_cache ≡ v.bounds_cache))

  -- A venue whose own fields are still those of the first.
  abbrev Unsettled : ByrealClmmVenue lib → ByrealClmmVenue lib → Type 0
  Unsettled v0 v = (v.initialized ≡ v0.initialized) × (v.bounds_cache ≡ v0.bounds_cache)

  with_value-Settles :
      {A S : Type 0} (v0 v : ByrealClmmVenue lib) (r : Result TradingVenueError A)
      (next : A → ByrealClmmVenue lib × Result TradingVenueError S)
      → Unsettled v0 v
      → ((a : A) → r ≡ ok a → Settles v0 (next a))
      → Settles v0 (with_value lib fuel v r next)
  with_value-Settles v0 v (ok a) next (same, same') h = h a refl
  with_value-Settles v0 v (err e) next (same, same') h = record {
    outcome = inr (λ s e'. cc e', same, same');
  }
  with_value-Settles v0 v (fault x) next (same, same') h = record {
    outcome = inr (λ s e'. cc e', same, same');
  }

  after_core-Settles :
      {S : Type 0} (v0 v : ByrealClmmVenue lib) (r : Core lib × Result TradingVenueError (Unit {0}))
      (next : ByrealClmmVenue lib → ByrealClmmVenue lib × Result TradingVenueError S)
      → Unsettled v0 v
      → ((v' : ByrealClmmVenue lib) → Unsettled v0 v' → Settles v0 (next v'))
      → Settles v0 (after_core lib fuel v r next)
  after_core-Settles v0 v (core, ok done) next same h = h (record v { core = core }) same
  after_core-Settles v0 v (core, err e) next (same, same') h = record {
    outcome = inr (λ s e'. cc e', same, same');
  }
  after_core-Settles v0 v (core, fault x) next (same, same') h = record {
    outcome = inr (λ s e'. cc e', same, same');
  }

  finish_update-Settles :
      {S : Type 0} (s : S) (accounts : Map Account) (v0 v : ByrealClmmVenue lib)
      → Unsettled v0 v
      → Settles v0 (finish_update lib fuel spl s accounts v)
  unfolding finish_update refresh_bounds_cache
  finish_update-Settles s accounts v0 v same =
      with_value-Settles v0 v (clock_from_account_map lib accounts) _ same λ clock read.
        let v1 = record v { current_epoch = clock.epoch } in
        with_value-Settles v0 v1 (refresh_token_info lib spl v1.core accounts clock.epoch) _ same
          λ infos refreshed.
            let v2 = record v1 { token_info = infos } in
            with_value-Settles v0 v2 (refresh_bounds_cache lib fuel v2.core) _ same λ cached found.
              let forth =
                quote_for_bounds lib fuel v2.core (token_mints lib v2.core).0
                  (token_mints lib v2.core).1 in
              let back =
                quote_for_bounds lib fuel v2.core (token_mints lib v2.core).1
                  (token_mints lib v2.core).0 in
              let (b0, e0, h0) = bind-eq-ok (find_boundaries forth) _ cached found in
              let (b1, e1, h1) = bind-eq-ok (find_boundaries back) _ cached h0 in
              let both : (some b0, some b1) ≡ cached = cc h1 in
              record { outcome = inl (s, refl, refl, (b0, b1, sym both, e0, e1)) }

  -- However `update_state` ends, either it has succeeded, and the venue is initialized and has cached for both directions
  -- what the search for bounds finds on its own quotes; or it has failed, and whether the venue is initialized and which
  -- bounds it has cached are as before.
  pub update_state-Settles :
      (cache : AccountsCache) (s : cache.State) (v : ByrealClmmVenue lib)
      → Settles v (update_state lib fuel spl cache s v)
  unfolding update_state
  update_state-Settles cache s v =
      with_value-Settles v v
        (fetch_account_map cache s (with_mints lib v.core (base_accounts_to_update lib v.core))) _
        (refl, refl)
        λ base fetched.
          after_core-Settles v v (Core_update.update_state lib base.0 v.core) _ (refl, refl)
            λ v1 same1.
              with_value-Settles v v1
                (fetch_account_map cache base.1
                  (with_mints lib v1.core (accounts_to_update lib v1.core)))
                _ same1
                λ accounts fetched'.
                  after_core-Settles v v1 (Core_update.update_state lib accounts.0 v1.core) _ same1
                    λ v2 same2. finish_update-Settles accounts.1 accounts.0 v v2 same2
