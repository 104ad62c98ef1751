-- ===== src/TradingVenue/Bounds/Search.antt =====
-- What `find_boundaries` of trading_venue/bounds.rs promises, and where it falls short.
use mathlib.Core.Path.{subst}
use byreal_titan_integration.Base.{
  ℕ, ◌+◌, ◌^◌, ◌≤◌, ◌<◌, ◌≡◌, sym, ◌≢◌, ◌⊎◌, inl, inr, false, Result, ok, err, arith, Bool-cases,
  ◌==◌, ==→eq, ==→ne, ne→==,
}
use byreal_titan_integration.TradingVenue.Error.{TradingVenueError, no_quotable_value, static_str}
use byreal_titan_integration.TradingVenue.Request.{QuoteResult}
use byreal_titan_integration.TradingVenue.Bounds.{
  u64_max, find_boundaries, refine_lower, refine_upper,
}
use byreal_titan_integration.TradingVenue.Bounds.Coarse.{
  IsValidAt, IsInvalidAt, NeverFaults, IsCoarse, IsUpperBracket, find_boundaries_coarse_lem,
}
use byreal_titan_integration.TradingVenue.Bounds.Refine.{refine_lower_lem, refine_upper_lem}

-- What a pair of bounds is worth: both can be quoted, and within 100 atoms outside each lies an amount
-- that cannot, or the end of the range that was searched.
pub record AreBounds {F : Type 0} (f : ℕ → Result TradingVenueError (QuoteResult F)) (r : ℕ × ℕ)
    : Type 0 where
  pub ordered : r.0 ≤ r.1
  pub fits : r.1 ≤ u64_max
  pub lower_valid : IsValidAt f r.0
  pub upper_valid : IsValidAt f r.1
  pub below : (n : ℕ) × (n ≤ r.0) × (r.0 ≤ n + 100) × ((n ≡ 0) ⊎ IsInvalidAt f n)
  pub above : (n : ℕ) × (r.1 ≤ n) × (n ≤ r.1 + 100) × ((n ≡ u64_max) ⊎ IsInvalidAt f n)

abbrev pub no_value : TradingVenueError
no_value = no_quotable_value (static_str "No quotable value found; exponential search hit u64::MAX")

from_end {ℓ} : (P : ℕ → Type ℓ) {a b : ℕ} → (a ≡ b) ⊎ P a → P b → P a
from_end P (inl e) h = subst P (sym e) h
from_end P (inr h) _ = h

end_or {ℓ κ} : (P : ℕ → Type ℓ) (Q : ℕ → Type κ) {a b : ℕ} → (a ≡ b) ⊎ P a → Q b ⊎ P b → Q a ⊎ P a
end_or P Q (inl e) h = subst (λ n. Q n ⊎ P n) (sym e) h
end_or P Q (inr h) _ = inr h

module _ {F : Type 0} (f : ℕ → Result TradingVenueError (QuoteResult F))
    (total : NeverFaults f) where
  bounds_from :
      (r : ℕ × ℕ × ℕ × ℕ)
      → IsCoarse f total r
      → r.1 ≢ u64_max
      → (lower : ℕ) × (upper : ℕ) × (refine_lower f r.0 r.1 ≡ ok lower)
        × (refine_upper f r.2 r.3 ≡ ok upper)
        × AreBounds f (lower, upper)
        × ((k : ℕ) × (2 ^ k ≤ u64_max) × IsValidAt f (2 ^ k))
  bounds_from r c inside =
      let (k, power, valid) = not_max c.lower.high_valid in
      let upper = not_top c.upper in
      let (lower, e, (a, b, v, (below, _, le, near, w))) =
        refine_lower_lem f total r.0 r.1 (omega (arith, c.lower.ordered)) c.lower.bounded in
      let (upper', e', (a', b', v', (above, _, le', near', w'))) =
        refine_upper_lem f total r.2 r.3 upper.ordered upper.bounded in
      (
        lower,
        upper',
        e,
        e',
        record {
          ordered = omega (arith, c.ordered.0);
          fits = omega (arith, upper.bounded);
          lower_valid = from_end (IsValidAt f) v valid;
          upper_valid = from_end (IsValidAt f) v' upper.low_valid;
          below = (below, le, near, end_or (IsInvalidAt f) (λ n. n ≡ 0) w c.lower.low_invalid);
          above =
              (above, le', near', end_or (IsInvalidAt f) (λ n. n ≡ u64_max) w' upper.high_invalid);
        },
        (k, rw (← power) c.lower.bounded, subst (IsValidAt f) power valid),
      )
    where
      not_max :
          (r.1 ≡ u64_max) ⊎ ((k : ℕ) × (r.1 ≡ 2 ^ k) × IsValidAt f r.1)
          → (k : ℕ) × (r.1 ≡ 2 ^ k) × IsValidAt f r.1
      not_max (inl e) = absurd (inside e)
      not_max (inr h) = h

      not_top :
          (r.1 ≡ u64_max) ⊎ IsUpperBracket f total (r.2, r.3) → IsUpperBracket f total (r.2, r.3)
      not_top (inl e) = absurd (inside e)
      not_top (inr h) = h

  -- The search always returns. Either no power of two can be quoted, and it says so; or some power of
  -- two can, and the bounds that it returns are valid and within 100 atoms of an amount that is not
  -- (or of an end of the range).
  pub find_boundaries_decides :
      ((find_boundaries f ≡ err no_value) × ((k : ℕ) → 2 ^ k < u64_max → IsInvalidAt f (2 ^ k)))
      ⊎ ((r : ℕ × ℕ) × (find_boundaries f ≡ ok r)
          × AreBounds f r
          × ((k : ℕ) × (2 ^ k ≤ u64_max) × IsValidAt f (2 ^ k)))
  unfolding find_boundaries
  find_boundaries_decides =
      let ((low, high, low', high'), e, c) = find_boundaries_coarse_lem f total in
      let apart : (low == high') ≡ false =
        ne→== low high' (λ same. omega (arith, c.lower.ordered, c.ordered)) in
      elim (Bool-cases (high == u64_max)) [
        | inl top ↦ inl (rw (e, apart, top), c.missed (==→eq _ _ top))
        | inr inside ↦
            let (lower, upper, e', e'', b, power) =
              bounds_from (low, high, low', high') c (==→ne _ _ inside) in
            inr ((lower, upper), rw (e, apart, inside, e', e''), b, power)
      ]
