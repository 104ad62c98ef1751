-- ===== src/TradingVenue/Bounds/Interval.antt =====
-- `find_boundaries` of trading_venue/bounds.rs on a venue whose valid amounts are one interval.
use byreal_titan_integration.Base.{
  ℕ, ◌+◌, ◌^◌, ◌≤◌, ◌<◌, ◌≡◌, ◌↔◌, ◌⊎◌, inl, inr, Result, ok, err, arith,
}
use byreal_titan_integration.TradingVenue.Error.{TradingVenueError}
use byreal_titan_integration.TradingVenue.Request.{QuoteResult}
use byreal_titan_integration.TradingVenue.Bounds.{u64_max, find_boundaries}
use byreal_titan_integration.TradingVenue.Bounds.Coarse.{IsValidAt, IsInvalidAt, NeverFaults}
use byreal_titan_integration.TradingVenue.Bounds.Search.{no_value, find_boundaries_decides}

module _ {F : Type 0} (f : ℕ → Result TradingVenueError (QuoteResult F)) where
  -- Exactly the amounts from `lo` to `hi` can be quoted.
  abbrev pub IsInterval : ℕ → ℕ → Type 0
  IsInterval lo hi = (n : ℕ) → IsValidAt f n ↔ ((lo ≤ n) × (n ≤ hi))

  clash : (n : ℕ) → IsValidAt f n → IsInvalidAt f n → ⊥
  clash n v i = cc

  lower_close :
      (lo hi r n : ℕ)
      → 0 < lo
      → IsInterval lo hi
      → r ≤ hi
      → n ≤ r
      → r ≤ n + 100
      → (n ≡ 0) ⊎ IsInvalidAt f n
      → lo ≤ r
      → r < lo + 100
  lower_close lo hi r n pos all fits le near (inl e) above = omega arith
  lower_close lo hi r n pos all fits le near (inr i) above =
      let outside : ¬ (lo ≤ n) = λ h. clash n ((all n).1 (h, omega arith)) i in omega arith

  upper_close :
      (lo hi r n : ℕ)
      → hi < u64_max
      → IsInterval lo hi
      → lo ≤ r
      → r ≤ n
      → n ≤ r + 100
      → (n ≡ u64_max) ⊎ IsInvalidAt f n
      → r ≤ hi
      → hi < r + 100
  upper_close lo hi r n bound all fits le near (inl e) above = omega arith
  upper_close lo hi r n bound all fits le near (inr i) above =
      let outside : ¬ (n ≤ hi) = λ h. clash n ((all n).1 (omega arith, h)) i in omega arith

-- Where the valid amounts are the interval from `lo` to `hi`, away from both ends of the u64s, and it
-- holds a power of two, the search returns bounds inside the interval that miss each end of it by
-- less than 100 atoms.
pub find_boundaries_interval :
    {F : Type 0} (f : ℕ → Result TradingVenueError (QuoteResult F)) (lo hi k : ℕ)
    → NeverFaults f
    → 0 < lo
    → hi < u64_max
    → IsInterval f lo hi
    → lo ≤ 2 ^ k
    → 2 ^ k ≤ hi
    → (r : ℕ × ℕ) × (find_boundaries f ≡ ok r)
      × (lo ≤ r.0)
      × (r.0 < lo + 100)
      × (hi < r.1 + 100)
      × (r.1 ≤ hi)
find_boundaries_interval f lo hi k total pos bound all low high =
    elim (find_boundaries_decides f total) [
      | inl (_, none_valid) ↦
          absurd (clash f (2 ^ k) ((all (2 ^ k)).1 (low, high)) (none_valid k (omega arith)))
      | inr (r, e, b, _) ↦
          let (l, l') = (all r.0).0 b.lower_valid in
          let (u, u') = (all r.1).0 b.upper_valid in
          let (n, le, near, w) = b.below in
          let (m, le', near', w') = b.above in
          (
            r,
            e,
            l,
            lower_close f lo hi r.0 n pos all l' le near w l,
            upper_close f lo hi r.1 m bound all u le' near' w' u',
            u',
          )
    ]

-- Where every valid amount, if there is any, lies in an interval that holds no power of two, the search reports that no
-- amount can be quoted.
pub find_boundaries_missed :
    {F : Type 0} (f : ℕ → Result TradingVenueError (QuoteResult F)) (lo hi : ℕ)
    → NeverFaults f
    → ((n : ℕ) → IsValidAt f n → (lo ≤ n) × (n ≤ hi))
    → ((k : ℕ) → ¬ ((lo ≤ 2 ^ k) × (2 ^ k ≤ hi)))
    → find_boundaries f ≡ err no_value
find_boundaries_missed f lo hi total all gap = elim (find_boundaries_decides f total) [
  | inl (e, _) ↦ e
  | inr (_, _, _, (k, _, valid)) ↦ absurd (gap k (all (2 ^ k) valid))
]
