-- ===== src/TradingVenue/Bounds/Coarse.antt =====
-- The coarse search of trading_venue/bounds.rs: it ends, and it brackets both boundaries.
use native.Mathlib.Nat.{pow-suc}
use byreal_titan_integration.Base.{
  ℕ, zero, suc, ◌*◌, ◌^◌, ◌≤◌, ◌<◌, ◌≡◌, refl, sym, ap, ◌≢◌, ◌⊎◌, inl, inr, true, false, Result, ok,
  err, fault, Fault, arith, leb, leb→lt, Bool-cases, ◌==◌, ◌||◌,
}
use byreal_titan_integration.TradingVenue.Error.{TradingVenueError}
use byreal_titan_integration.TradingVenue.Request.{QuoteResult}
use byreal_titan_integration.TradingVenue.Bounds.{
  u64_max, scaling_factor, saturating_mul, probe, lower_loop, upper_loop, find_boundaries_coarse,
}

module _ {F : Type 0} (f : ℕ → Result TradingVenueError (QuoteResult F)) where
  abbrev pub IsValidAt : ℕ → Type 0
  IsValidAt n = probe (f n) ≡ ok true

  abbrev pub IsInvalidAt : ℕ → Type 0
  IsInvalidAt n = probe (f n) ≡ ok false

  -- The quoting function panics at no amount.
  abbrev pub NeverFaults : Type 0
  NeverFaults = (n : ℕ) (x : Fault) → f n ≢ fault x

probe_cases :
    {F : Type 0} (r : Result TradingVenueError (QuoteResult F))
    → ((x : Fault) → r ≢ fault x)
    → (probe r ≡ ok true) ⊎ (probe r ≡ ok false)
unfolding probe
probe_cases (ok q) h = ground arith
probe_cases (err e) h = inr refl
probe_cases (fault x) h = absurd (h x refl)

-- The test that ends either loop, on an amount that is no `u64::MAX` yet.
stop_cases :
    (high : ℕ)
    → high ≤ u64_max
    → 0 < high
    → ((leb (saturating_mul high scaling_factor) high
          || saturating_mul high scaling_factor == u64_max)
        ≡ true)
      ⊎ ((leb (saturating_mul high scaling_factor) high
            || saturating_mul high scaling_factor == u64_max)
          ≡ false)
        × (saturating_mul high scaling_factor ≡ high * 2)
        × (high * 2 < u64_max)
stop_cases high bound positive = ground arith

enough_next :
    (high fuel : ℕ)
    → saturating_mul high scaling_factor ≡ high * 2
    → 2 ^ 64 ≤ high * 2 ^ suc fuel
    → 2 ^ 64 ≤ saturating_mul high scaling_factor * 2 ^ fuel
enough_next high fuel doubled enough =
    rw doubled (omega (arith, ap (λ (t : ℕ). high * t) (pow-suc 2 fuel)))

at_max :
    (high : ℕ)
    → high ≤ u64_max
    → 0 < high
    → leb (saturating_mul high scaling_factor) high ≡ true
    → high ≡ u64_max
at_max high bound positive h = ground arith

wide_enough :
    (high : ℕ)
    → 0 < high
    → leb (saturating_mul high scaling_factor) high ≡ false
    → 2 ^ 64 ≤ saturating_mul high scaling_factor * 2 ^ 64
wide_enough high positive h = ground arith

pow_pos : (i : ℕ) → 0 < 2 ^ i
pow_pos zero = omega arith
pow_pos (suc i) = omega (arith, pow-suc 2 i, pow_pos i)

scaled_cases :
    (high j : ℕ)
    → (high * 2 ^ j ≡ high)
      ⊎ ((i : ℕ) × (high * 2 ^ j ≡ high * 2 * 2 ^ i) × (high * 2 ≤ high * 2 ^ j))
scaled_cases high zero = inl (omega arith)
scaled_cases high (suc i) =
    let e : high * 2 ^ suc i ≡ high * 2 * 2 ^ i =
      omega (arith, ap (λ (t : ℕ). high * t) (pow-suc 2 i)) in
    inr (i, e, rw e (grind (arith, pow_pos i)))

stop_big :
    (high : ℕ)
    → high ≤ u64_max
    → 0 < high
    → (leb (saturating_mul high scaling_factor) high
        || saturating_mul high scaling_factor == u64_max)
      ≡ true
    → u64_max ≤ high * 2
stop_big high bound positive h = ground arith

module _ {F : Type 0} (f : ℕ → Result TradingVenueError (QuoteResult F))
    (total : NeverFaults f) where
  valid_below_max :
      (high : ℕ)
      → (high ≡ u64_max) ⊎ ((k : ℕ) × (high ≡ 2 ^ k) × IsValidAt f high)
      → leb (saturating_mul high scaling_factor) high ≡ false
      → IsValidAt f high
  valid_below_max high (inl top) h = absurd (omega (arith, leb→lt _ _ h))
  valid_below_max high (inr (_, _, valid)) h = valid

  pub valid_or_invalid : (n : ℕ) → IsValidAt f n ⊎ IsInvalidAt f n
  valid_or_invalid n = probe_cases (f n) (total n)

  -- The first bracket: `low` is invalid (or the 0 that is never probed), and `high` is valid unless
  -- the search ran into `u64::MAX`.
  pub record IsLowerBracket (r : ℕ × ℕ) : Type 0 where
    pub ordered : r.0 < r.1
    pub bounded : r.1 ≤ u64_max
    pub low_invalid : (r.0 ≡ 0) ⊎ IsInvalidAt f r.0
    pub high_valid : (r.1 ≡ u64_max) ⊎ ((k : ℕ) × (r.1 ≡ 2 ^ k) × IsValidAt f r.1)

  pub record IsUpperBracket (r : ℕ × ℕ) : Type 0 where
    pub ordered : r.0 ≤ r.1
    pub bounded : r.1 ≤ u64_max
    pub low_valid : IsValidAt f r.0
    pub high_invalid : (r.1 ≡ u64_max) ⊎ IsInvalidAt f r.1

  lower_loop_lem :
      (fuel k low high : ℕ)
      → high ≡ 2 ^ k
      → low < high
      → high < u64_max
      → (2 ^ 64 ≤ high * 2 ^ fuel)
      → (low ≡ 0) ⊎ IsInvalidAt f low
      → (r : ℕ × ℕ) × (lower_loop f fuel low high ≡ ok r) × IsLowerBracket r × (low ≤ r.0)
  unfolding lower_loop
  lower_loop_lem zero k low high power lt bound enough inv = absurd (omega arith)
  lower_loop_lem (suc fuel) k low high power lt bound enough inv = elim (valid_or_invalid high) [
    | inl valid ↦ (
      (low, high),
      rw valid,
      record {
        ordered = lt;
        bounded = omega arith;
        low_invalid = inv;
        high_valid = inr (k, power, valid);
      },
      omega arith,
    )
    | inr invalid ↦ elim (stop_cases high (omega arith) (omega arith)) [
      | inl stop ↦ (
        (high, u64_max),
        rw (invalid, stop),
        record {
          ordered = bound;
          bounded = omega arith;
          low_invalid = inr invalid;
          high_valid = inl refl;
        },
        omega arith,
      )
      | inr (more, doubled, small) ↦
          let (r, e, b, le) =
            lower_loop_lem fuel (suc k) high (saturating_mul high scaling_factor)
              (rw doubled (rw power (sym (pow-suc 2 k)))) (omega arith) (omega arith)
              (enough_next high fuel doubled enough) (inr invalid) in
          (r, rw (invalid, more) e, b, omega arith)
    ]
  ]

  -- A search that ends at `u64::MAX` has found every doubling invalid on its way.
  lower_loop_missed :
      (fuel low high j : ℕ) (r : ℕ × ℕ)
      → high < u64_max
      → 0 < high
      → lower_loop f fuel low high ≡ ok r
      → r.1 ≡ u64_max
      → high * 2 ^ j < u64_max
      → IsInvalidAt f (high * 2 ^ j)
  unfolding lower_loop
  lower_loop_missed zero low high j r bound positive e top small = cc
  lower_loop_missed (suc fuel) low high j r bound positive e top small =
      elim (valid_or_invalid high) [
        | inl valid ↦ ground arith
        | inr invalid ↦ elim (stop_cases high (omega arith) positive) [
          | inl stop ↦ elim (scaled_cases high j) [
            | inl same ↦ rw same invalid
            | inr (i, _, big) ↦ absurd (omega (arith, stop_big high (omega arith) positive stop))
          ]
          | inr (more, doubled, below) ↦ elim (scaled_cases high j) [
            | inl same ↦ rw same invalid
            | inr (i, next, _) ↦ rw next (
                rw doubled at (
                  lower_loop_missed fuel high (saturating_mul high scaling_factor) i r (omega arith)
                    (omega arith) (rw (invalid, more) at e) top (rw doubled (omega arith))))
          ]
        ]
      ]

  upper_loop_lem :
      (fuel low high : ℕ)
      → low < high
      → high ≤ u64_max
      → (2 ^ 64 ≤ high * 2 ^ fuel)
      → IsValidAt f low
      → (r : ℕ × ℕ) × (upper_loop f fuel low high ≡ ok r) × IsUpperBracket r × (low ≤ r.0)
  unfolding upper_loop
  upper_loop_lem zero low high lt bound enough valid = absurd (omega arith)
  upper_loop_lem (suc fuel) low high lt bound enough valid = elim (valid_or_invalid high) [
    | inr invalid ↦ (
      (low, high),
      rw invalid,
      record {
        ordered = omega arith;
        bounded = bound;
        low_valid = valid;
        high_invalid = inr invalid;
      },
      omega arith,
    )
    | inl valid' ↦ elim (stop_cases high (omega arith) (omega arith)) [
      | inl stop ↦ (
        (high, u64_max),
        rw (valid', stop),
        record {
          ordered = bound;
          bounded = omega arith;
          low_valid = valid';
          high_invalid = inl refl;
        },
        omega arith,
      )
      | inr (more, doubled, small) ↦
          let (r, e, b, le) =
            upper_loop_lem fuel high (saturating_mul high scaling_factor) (omega arith)
              (omega arith) (enough_next high fuel doubled enough) valid' in
          (r, rw (valid', more) e, b, omega arith)
    ]
  ]

  -- What the coarse search has found: the first bracket, and behind a valid end of it the second.
  pub record IsCoarse (r : ℕ × ℕ × ℕ × ℕ) : Type 0 where
    pub lower : IsLowerBracket (r.0, r.1)
    pub upper : (r.1 ≡ u64_max) ⊎ IsUpperBracket (r.2, r.3)
    pub ordered : (r.1 ≤ r.2) × (r.2 ≤ r.3)
    pub missed : r.1 ≡ u64_max → (k : ℕ) → 2 ^ k < u64_max → IsInvalidAt f (2 ^ k)

  missed_all :
      (low high : ℕ)
      → lower_loop f 64 0 1 ≡ ok (low, high)
      → high ≡ u64_max
      → (k : ℕ) → 2 ^ k < u64_max
      → IsInvalidAt f (2 ^ k)
  missed_all low high e top k small =
      let one : 1 * 2 ^ k ≡ 2 ^ k = omega arith in
      rw one at
        (lower_loop_missed 64 0 1 k (low, high) (omega arith) (omega arith) e top (rw one small))

  pub find_boundaries_coarse_lem :
      (r : ℕ × ℕ × ℕ × ℕ) × (find_boundaries_coarse f ≡ ok r) × IsCoarse r
  unfolding find_boundaries_coarse
  find_boundaries_coarse_lem =
      let ((low, high), e, b, _) =
        lower_loop_lem 64 0 0 1 refl (omega arith) (omega arith) (omega arith) (inl refl) in
      elim (Bool-cases (leb (saturating_mul high scaling_factor) high)) [
        | inl saturated ↦ (
          (low, high, high, high),
          rw (e, saturated),
          record {
            lower = b;
            upper = inl (at_max high b.bounded (omega (arith, b.ordered)) saturated);
            ordered = omega arith;
            missed = missed_all low high e;
          },
        )
        | inr wider ↦
            let ((low', high'), e', b', le) =
              upper_loop_lem 64 high (saturating_mul high scaling_factor) (leb→lt _ _ wider)
                (omega arith) (wide_enough high (omega (arith, b.ordered)) wider)
                (valid_below_max high b.high_valid wider) in
            (
              (low, high, low', high'),
              rw (e, wider, e'),
              record {
                lower = b;
                upper = inr b';
                ordered = (le, b'.ordered);
                missed = missed_all low high e;
              },
            )
      ]
