-- ===== src/ByrealClmm/Core/Checks.antt =====
-- What the checks of byreal_clmm/core.rs let pass.
use byreal_titan_integration.Base.{
  ℕ, ◌-◌, ◌^◌, ◌/◌, ◌≤◌, ◌<◌, ◌≡◌, ◌≢◌, ◌↔◌, ◌⊎◌, inl, inr, sym, min, max, ℤ, pos, ◌-ℤ◌, -ℤ_parts,
  ◌≤ℤ◌, ◌<ℤ◌, leb_ℤ, ltb_ℤ, Bool, true, false, not, ◌||◌, none, some, ok, require, require-eq-ok,
  ok_or, ok_or-eq-ok, bind-eq-ok, [], ◌∷◌, ltb, if◌then◌else◌, arith, Option-cases,
}
use byreal_titan_integration.TradingVenue.Error.{Pubkey, text}
use byreal_titan_integration.ByrealClmm.Library.{Library, Price}
use byreal_titan_integration.ByrealClmm.Core.{
  Core, wrapping_sub_i64, validate_mints, load_dynamic_pyth_prices, input_token_unit,
  dynamic_fee_price_step,
}

module _ (lib : Library) (core : Core lib) where
  -- For a pool of two distinct mints, a pair of mints passes just when it is the pool's pair in either order, and the
  -- flags say which of the two is the pool's first.
  pub validate_mints_iff :
      (input output : Pubkey) (a b : Bool)
      → core.reserve_mints.0 ≢ core.reserve_mints.1
      → (validate_mints lib core input output ≡ ok (a, b)) ↔ (
          ((input ≡ core.reserve_mints.0)
            × (output ≡ core.reserve_mints.1)
            × (a ≡ true)
            × (b ≡ false))
          ⊎ ((input ≡ core.reserve_mints.1)
              × (output ≡ core.reserve_mints.0)
              × (a ≡ false)
              × (b ≡ true)))
  unfolding validate_mints
  validate_mints_iff input output a b apart = (λ h. ground arith, λ h. ground arith)

  no_wrap :
      (t : ℤ) → pos 0 <ℤ t → t ≤ℤ pos (2 ^ 63 - 1) → wrapping_sub_i64 t (pos 3600) ≡ t -ℤ pos 3600
  unfolding wrapping_sub_i64
  no_wrap t positive small = ground (arith, -ℤ_parts t (pos 3600))

  not_older :
      (t : ℤ)
      → pos 0 <ℤ t
      → t ≤ℤ pos (2 ^ 63 - 1)
      → (published : ℤ) → wrapping_sub_i64 t (pos 3600) ≤ℤ published
      → (t -ℤ pos 3600) ≤ℤ published
  not_older t positive small published h = rw (sym (no_wrap t positive small)) h

  -- With a clock that is positive and fits an i64, prices are used only if both are there, are positive and were not
  -- published more than an hour before the clock.
  pub load_dynamic_pyth_prices_ok :
      (p q : Price)
      → pos 0 <ℤ core.current_unix_timestamp
      → core.current_unix_timestamp ≤ℤ pos (2 ^ 63 - 1)
      → load_dynamic_pyth_prices lib core ≡ ok (p, q)
      → (core.token0_pyth_oracle_data ≡ some p)
        × (core.token1_pyth_oracle_data ≡ some q)
        × (pos 0 <ℤ p.price)
        × (pos 0 <ℤ q.price)
        × ((core.current_unix_timestamp -ℤ pos 3600) ≤ℤ p.publish_time)
        × ((core.current_unix_timestamp -ℤ pos 3600) ≤ℤ q.publish_time)
  unfolding load_dynamic_pyth_prices
  load_dynamic_pyth_prices_ok p q positive_clock small h =
      let (p', e, h1) =
        bind-eq-ok
          (ok_or core.token0_pyth_oracle_data
            (text "dynamic fee pyth oracle accounts missing" ∷ []))
          _ (p, q) h in
      let (q', e', h2) =
        bind-eq-ok
          (ok_or core.token1_pyth_oracle_data
            (text "dynamic fee pyth oracle accounts missing" ∷ []))
          _ (p, q) h1 in
      let found = ok_or-eq-ok core.token0_pyth_oracle_data _ e in
      let found' = ok_or-eq-ok core.token1_pyth_oracle_data _ e' in
      let oldest = wrapping_sub_i64 core.current_unix_timestamp (pos 3600) in
      let recent = not_older core.current_unix_timestamp positive_clock small in
      let positive = not (leb_ℤ p'.price (pos 0) || leb_ℤ q'.price (pos 0)) in
      let fresh = not (ltb_ℤ p'.publish_time oldest || ltb_ℤ q'.publish_time oldest) in
      let (_, c, h3) =
        bind-eq-ok (require positive (text "pyth price is non-positive" ∷ [])) _ (p, q) h2 in
      let (_, c', h4) = bind-eq-ok (require fresh (text "pyth price is stale" ∷ [])) _ (p, q) h3 in
      let are_positive = require-eq-ok positive _ c in
      let are_fresh = require-eq-ok fresh _ c' in
      let same : p' ≡ p = cc h4 in
      let same' : q' ≡ q = cc h4 in
      rw (sym same, sym same')
        (
          found,
          found',
          ground arith,
          ground arith,
          recent p'.publish_time (ground arith),
          recent q'.publish_time (ground arith),
        )

  step_bounds :
      (unit amount step : ℕ)
      → (if ltb amount (unit / 10)
          then none
          else (let step' = min (max (amount / 1_000) (unit / 10)) amount in
              if ltb 0 step' then some step' else none))
        ≡ some step
      → (0 < step) × (step ≤ amount) × (unit / 10 ≤ step) × (amount / 1_000 ≤ step)
  step_bounds unit amount step h = ground arith

  -- A price step is positive, at most the amount, at least a tenth of the input token's unit, and at least a thousandth of
  -- the amount, each rounded down.
  pub dynamic_fee_price_step_bounds :
      (zero_for_one : Bool) (amount step : ℕ)
      → dynamic_fee_price_step lib core zero_for_one amount ≡ some step
      → (0 < step)
        × (step ≤ amount)
        × ((unit : ℕ) × (input_token_unit lib core zero_for_one ≡ some unit)
            × (unit / 10 ≤ step)
            × (amount / 1_000 ≤ step))
  unfolding dynamic_fee_price_step
  dynamic_fee_price_step_bounds zero_for_one amount step h =
      elim (Option-cases (input_token_unit lib core zero_for_one)) [
        | inl e ↦ cc (rw (dynamic_fee_price_step, e) at h)
        | inr (unit, e) ↦
            let (a, b, c, d) = step_bounds unit amount step (rw (dynamic_fee_price_step, e) at h) in
            (a, b, (unit, e, c, d))
      ]
