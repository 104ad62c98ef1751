-- ===== src/ByrealClmm/TickArray/Scan.antt =====
-- What the two scans over a tick array find.
use byreal_titan_integration.Base.{
  ℕ, zero, suc, ◌+◌, ◌≤◌, ◌<◌, ◌≡◌, refl, sym, ◌⊎◌, inl, inr, true, false, List, none, some, ok,
  length, get_elem?, get_elem?_in, Bool-cases, ◌==◌, ==→eq, ==→ne, arith,
}
use byreal_titan_integration.ByrealClmm.Library.{Library, TickState}
use byreal_titan_integration.ByrealClmm.TickArray.{scan_down, scan_up}

module _ (lib : Library) (ticks : List TickState) where
  -- No tick from the index `lo` on and below the index `hi` is initialized.
  abbrev pub NoneIn : ℕ → ℕ → Type 0
  NoneIn lo hi =
      (j : ℕ) (t : TickState)
      → lo ≤ j
      → j < hi
      → get_elem? ticks j ≡ some t
      → lib.tick_is_initialized t ≡ false

  -- An initialized tick at the index `i`.
  pub record Initialized (i : ℕ) (t : TickState) : Type 0 where
    pub there : get_elem? ticks i ≡ some t
    pub set : lib.tick_is_initialized t ≡ true

  same_tick :
      (i j : ℕ) (t u : TickState)
      → j ≡ i
      → get_elem? ticks i ≡ some t
      → get_elem? ticks j ≡ some u
      → lib.tick_is_initialized t ≡ false
      → lib.tick_is_initialized u ≡ false
  same_tick i j t u same e e' clear =
      let found : get_elem? ticks i ≡ some u = rw same at e' in
      let same_state : t ≡ u = cc (e, found) in rw (sym same_state) clear

  NoneIn-suc :
      (lo n : ℕ) (t : TickState)
      → NoneIn lo n
      → get_elem? ticks n ≡ some t
      → lib.tick_is_initialized t ≡ false
      → NoneIn lo (suc n)
  NoneIn-suc lo n t none_below e clear j u le lt e' = elim (Bool-cases (j == n)) [
    | inl same ↦ same_tick n j t u (==→eq j n same) e e' clear
    | inr other ↦ none_below j u le (omega (arith, ==→ne j n other)) e'
  ]

  NoneIn-first :
      (i hi : ℕ) (t : TickState)
      → NoneIn (i + 1) hi
      → get_elem? ticks i ≡ some t
      → lib.tick_is_initialized t ≡ false
      → NoneIn i hi
  NoneIn-first i hi t none_above e clear j u le lt e' = elim (Bool-cases (j == i)) [
    | inl same ↦ same_tick i j t u (==→eq j i same) e e' clear
    | inr other ↦ none_above j u (omega (arith, ==→ne j i other)) lt e'
  ]

  NoneIn-empty : (lo hi : ℕ) → hi ≤ lo → NoneIn lo hi
  NoneIn-empty lo hi h j u le lt e = absurd (omega arith)

  -- The scan down from an index of the array gives the initialized tick of the highest index up to it, or nothing if
  -- there is none.
  pub scan_down_lem :
      (n : ℕ)
      → n < length ticks
      → ((i : ℕ) × (t : TickState) × (scan_down lib ticks n ≡ ok (some t.tick))
          × (i ≤ n)
          × Initialized i t
          × NoneIn (suc i) (suc n))
        ⊎ ((scan_down lib ticks n ≡ ok none) × NoneIn 0 (suc n))
  unfolding scan_down
  scan_down_lem zero h =
      let (t, e) = get_elem?_in ticks zero h in
      elim (Bool-cases (lib.tick_is_initialized t)) [
        | inl set ↦ inl (
          zero,
          t,
          rw (scan_down, e, set) refl,
          omega arith,
          record { there = e; set = set },
          NoneIn-empty 1 1 (omega arith),
        )
        | inr clear ↦ inr (
          rw (scan_down, e, clear) refl,
          NoneIn-suc 0 0 t (NoneIn-empty 0 0 (omega arith)) e clear,
        )
      ]
  scan_down_lem (suc n) h =
      let (t, e) = get_elem?_in ticks (suc n) h in
      elim (Bool-cases (lib.tick_is_initialized t)) [
        | inl set ↦ inl (
          suc n,
          t,
          rw (scan_down, e, set) refl,
          omega arith,
          record { there = e; set = set },
          NoneIn-empty (suc (suc n)) (suc (suc n)) (omega arith),
        )
        | inr clear ↦ elim (scan_down_lem n (omega arith)) [
          | inl (i, u, found, le, init, none_above) ↦ inl (
            i,
            u,
            rw (scan_down, e, clear) found,
            omega arith,
            init,
            NoneIn-suc (suc i) (suc n) t none_above e clear,
          )
          | inr (found, none_below) ↦
              inr (rw (scan_down, e, clear) found, NoneIn-suc 0 (suc n) t none_below e clear)
        ]
      ]

  -- The scan up over the rest of the array from an index gives the initialized tick of the lowest index from it on, or
  -- nothing if there is none.
  pub scan_up_lem :
      (n i : ℕ)
      → i + n ≡ length ticks
      → ((k : ℕ) × (t : TickState) × (scan_up lib ticks n i ≡ ok (some t.tick))
          × (i ≤ k)
          × Initialized k t
          × NoneIn i k)
        ⊎ ((scan_up lib ticks n i ≡ ok none) × NoneIn i (length ticks))
  unfolding scan_up
  scan_up_lem zero i h = inr (refl, NoneIn-empty i (length ticks) (omega arith))
  scan_up_lem (suc n) i h =
      let (t, e) = get_elem?_in ticks i (omega arith) in
      elim (Bool-cases (lib.tick_is_initialized t)) [
        | inl set ↦ inl (
          i,
          t,
          rw (scan_up, e, set) refl,
          omega arith,
          record { there = e; set = set },
          NoneIn-empty i i (omega arith),
        )
        | inr clear ↦ elim (scan_up_lem n (i + 1) (omega arith)) [
          | inl (k, u, found, le, init, none_below) ↦ inl (
            k,
            u,
            rw (scan_up, e, clear) found,
            omega arith,
            init,
            NoneIn-first i k t none_below e clear,
          )
          | inr (found, none_above) ↦
              inr (rw (scan_up, e, clear) found, NoneIn-first i (length ticks) t none_above e clear)
        ]
      ]
