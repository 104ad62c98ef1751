-- ===== src/TradingVenue/Bounds/Refine.antt =====
-- The binary refinements of trading_venue/bounds.rs: each ends, and narrows its bracket to 100 atoms.
use native.Mathlib.Nat.{pow-suc}
use byreal_titan_integration.Base.{
  ℕ, zero, suc, ◌+◌, ◌-◌, ◌*◌, ◌/◌, ◌^◌, ◌≤◌, ◌<◌, ◌≡◌, refl, ◌⊎◌, inl, inr, Result, ok, arith,
  Bool-cases, ltb, ltb→lt, ltb→le, le→ltb,
}
use byreal_titan_integration.TradingVenue.Error.{TradingVenueError}
use byreal_titan_integration.TradingVenue.Request.{QuoteResult}
use byreal_titan_integration.TradingVenue.Bounds.{
  u64_max, wrapping_sub, refine_lower_loop, refine_upper_loop, refine_lower, refine_upper,
}
use byreal_titan_integration.TradingVenue.Bounds.Coarse.{
  IsValidAt, IsInvalidAt, NeverFaults, valid_or_invalid,
}

-- On a bracket of u64s the wrapping difference is the difference.
width : (low high : ℕ) → low ≤ high → high ≤ u64_max → wrapping_sub high low ≡ high - low
width low high le bound = omega arith

halved :
    (low high fuel : ℕ)
    → low ≤ high
    → 100 < high - low
    → high ≤ low + (98 * 2 ^ suc fuel + 2)
    → let mid = high / 2 + low / 2 in
      (low < mid)
      × (mid < high)
      × (mid ≤ low + (98 * 2 ^ fuel + 2))
      × (high ≤ mid + (98 * 2 ^ fuel + 2))
halved low high fuel le wide enough =
    let e = pow-suc 2 fuel in (omega arith, omega arith, omega (arith, e), omega (arith, e))

module _ {F : Type 0} (f : ℕ → Result TradingVenueError (QuoteResult F))
    (total : NeverFaults f) where
  -- `r` is the lower boundary up to 100 atoms: it is valid or the old `high`, and an amount at most
  -- 100 below it is invalid or the old `low`.
  abbrev pub RefinesLower : ℕ → ℕ → ℕ → Type 0
  RefinesLower low high r =
      (low ≤ r)
      × (r ≤ high)
      × ((r ≡ high) ⊎ IsValidAt f r)
      × ((below : ℕ) × (low ≤ below)
          × (below ≤ r)
          × (r ≤ below + 100)
          × ((below ≡ low) ⊎ IsInvalidAt f below))

  abbrev pub RefinesUpper : ℕ → ℕ → ℕ → Type 0
  RefinesUpper low high r =
      (low ≤ r)
      × (r ≤ high)
      × ((r ≡ low) ⊎ IsValidAt f r)
      × ((above : ℕ) × (above ≤ high)
          × (r ≤ above)
          × (above ≤ r + 100)
          × ((above ≡ high) ⊎ IsInvalidAt f above))

  lower_done : (low high : ℕ) → low ≤ high → high ≤ low + 100 → RefinesLower low high high
  lower_done low high le narrow =
      (le, omega arith, inl refl, (low, omega arith, le, narrow, inl refl))

  upper_done : (low high : ℕ) → low ≤ high → high ≤ low + 100 → RefinesUpper low high low
  upper_done low high le narrow =
      (omega arith, le, inl refl, (high, omega arith, le, narrow, inl refl))

  lower_from_mid :
      {low mid high r : ℕ}
      → low ≤ mid
      → mid ≤ high
      → IsValidAt f mid
      → RefinesLower low mid r
      → RefinesLower low high r
  lower_from_mid {low} {mid} {high} {r} le le' valid (a, b, v, rest) =
      (a, omega arith, inr (at_mid v), rest)
    where
      at_mid : (r ≡ mid) ⊎ IsValidAt f r → IsValidAt f r
      at_mid (inl e) = rw e valid
      at_mid (inr v) = v

  lower_from_mid_invalid :
      {low mid high r : ℕ}
      → low ≤ mid
      → IsInvalidAt f mid
      → RefinesLower mid high r
      → RefinesLower low high r
  lower_from_mid_invalid {low} {mid} {high} {r} le invalid (a, b, v, (below, c, d, e, w)) =
      (omega arith, b, v, (below, omega arith, d, e, inr (at_mid w)))
    where
      at_mid : (below ≡ mid) ⊎ IsInvalidAt f below → IsInvalidAt f below
      at_mid (inl e) = rw e invalid
      at_mid (inr w) = w

  upper_from_mid :
      {low mid high r : ℕ}
      → low ≤ mid
      → IsValidAt f mid
      → RefinesUpper mid high r
      → RefinesUpper low high r
  upper_from_mid {low} {mid} {high} {r} le valid (a, b, v, rest) =
      (omega arith, b, inr (at_mid v), rest)
    where
      at_mid : (r ≡ mid) ⊎ IsValidAt f r → IsValidAt f r
      at_mid (inl e) = rw e valid
      at_mid (inr v) = v

  upper_from_mid_invalid :
      {low mid high r : ℕ}
      → mid ≤ high
      → IsInvalidAt f mid
      → RefinesUpper low mid r
      → RefinesUpper low high r
  upper_from_mid_invalid {low} {mid} {high} {r} le invalid (a, b, v, (above, c, d, e, w)) =
      (a, omega arith, v, (above, omega arith, d, e, inr (at_mid w)))
    where
      at_mid : (above ≡ mid) ⊎ IsInvalidAt f above → IsInvalidAt f above
      at_mid (inl e) = rw e invalid
      at_mid (inr w) = w

  refine_lower_loop_lem :
      (fuel low high : ℕ)
      → low ≤ high
      → high ≤ u64_max
      → high ≤ low + (98 * 2 ^ fuel + 2)
      → (r : ℕ) × (refine_lower_loop f (suc fuel) low high ≡ ok r) × RefinesLower low high r
  unfolding refine_lower_loop
  refine_lower_loop_lem zero low high le bound enough = (
    high,
    rw (width low high le bound, le→ltb 100 (high - low) (omega arith)),
    lower_done low high le (omega arith),
  )
  refine_lower_loop_lem (suc fuel) low high le bound enough =
      elim (Bool-cases (ltb 100 (high - low))) [
        | inr narrow ↦ (
          high,
          rw (width low high le bound, narrow),
          lower_done low high le (omega (arith, ltb→le _ _ narrow)),
        )
        | inl wide ↦
            let (lt, gt, left, right) = halved low high fuel le (ltb→lt _ _ wide) enough in
            elim (valid_or_invalid f total (high / 2 + low / 2)) [
              | inl valid ↦
                  let (r, e, h) =
                    refine_lower_loop_lem fuel low (high / 2 + low / 2) (omega arith) (omega arith)
                      left in
                  (
                    r,
                    rw (width low high le bound, wide, valid) e,
                    lower_from_mid (omega arith) (omega arith) valid h,
                  )
              | inr invalid ↦
                  let (r, e, h) =
                    refine_lower_loop_lem fuel (high / 2 + low / 2) high (omega arith) bound
                      right in
                  (
                    r,
                    rw (width low high le bound, wide, invalid) e,
                    lower_from_mid_invalid (omega arith) invalid h,
                  )
            ]
      ]

  refine_upper_loop_lem :
      (fuel low high : ℕ)
      → low ≤ high
      → high ≤ u64_max
      → high ≤ low + (98 * 2 ^ fuel + 2)
      → (r : ℕ) × (refine_upper_loop f (suc fuel) low high ≡ ok r) × RefinesUpper low high r
  unfolding refine_upper_loop
  refine_upper_loop_lem zero low high le bound enough = (
    low,
    rw (width low high le bound, le→ltb 100 (high - low) (omega arith)),
    upper_done low high le (omega arith),
  )
  refine_upper_loop_lem (suc fuel) low high le bound enough =
      elim (Bool-cases (ltb 100 (high - low))) [
        | inr narrow ↦ (
          low,
          rw (width low high le bound, narrow),
          upper_done low high le (omega (arith, ltb→le _ _ narrow)),
        )
        | inl wide ↦
            let (lt, gt, left, right) = halved low high fuel le (ltb→lt _ _ wide) enough in
            elim (valid_or_invalid f total (high / 2 + low / 2)) [
              | inl valid ↦
                  let (r, e, h) =
                    refine_upper_loop_lem fuel (high / 2 + low / 2) high (omega arith) bound
                      right in
                  (
                    r,
                    rw (width low high le bound, wide, valid) e,
                    upper_from_mid (omega arith) valid h,
                  )
              | inr invalid ↦
                  let (r, e, h) =
                    refine_upper_loop_lem fuel low (high / 2 + low / 2) (omega arith) (omega arith)
                      left in
                  (
                    r,
                    rw (width low high le bound, wide, invalid) e,
                    upper_from_mid_invalid (omega arith) invalid h,
                  )
            ]
      ]

  -- On every bracket of u64s the refinement returns, and finds the boundary up to 100 atoms.
  pub refine_lower_lem :
      (low high : ℕ)
      → low ≤ high
      → high ≤ u64_max
      → (r : ℕ) × (refine_lower f low high ≡ ok r) × RefinesLower low high r
  unfolding refine_lower
  refine_lower_lem low high le bound = refine_lower_loop_lem 63 low high le bound (omega arith)

  pub refine_upper_lem :
      (low high : ℕ)
      → low ≤ high
      → high ≤ u64_max
      → (r : ℕ) × (refine_upper f low high ≡ ok r) × RefinesUpper low high r
  unfolding refine_upper
  refine_upper_lem low high le bound = refine_upper_loop_lem 63 low high le bound (omega arith)
