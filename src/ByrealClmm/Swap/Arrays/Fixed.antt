-- ===== src/ByrealClmm/Swap/Arrays/Fixed.antt =====
-- What the fixed tick arrays of byreal_clmm/core.rs answer.
use native.Mathlib.Nat.{
  div-mul-le_self, lt-mul-div-succ, div-lt_iff_lt-mul, mul-le-mul_right, mul_comm,
}
use byreal_titan_integration.Base.{
  ℕ, zero, suc, ◌+◌, ◌-◌, ◌*◌, ◌/◌, ◌≤◌, ◌<◌, ◌≡◌, refl, sym, ◌⊎◌, inl, inr, ℤ, pos, negsuc, ◌+ℤ◌,
  ◌-ℤ◌, ◌≤ℤ◌, ◌<ℤ◌, eqb_ℤ, +ℤ_parts, -ℤ_parts, eq_of_parts, Bool, true, false, List, [], ◌∷◌, some,
  NoFault, length, get_elem?, get_elem?_in, Bool-cases, Sum-cases, Option-cases, ◌==◌, ==→eq, arith,
  pos_part, neg_part,
}
use byreal_titan_integration.ByrealClmm.Library.{Library, TickState}
use byreal_titan_integration.ByrealClmm.TickArray.{
  FixedTickArraySnapshot, fixed_next_initialized_tick, fixed_first_initialized_tick,
  fixed_get_tick_liquidity_net, tick_offset,
}
use byreal_titan_integration.ByrealClmm.TickArray.Scan.{Initialized, scan_down_lem, scan_up_lem}
use byreal_titan_integration.ByrealClmm.Swap.Ends.{Ahead}
use byreal_titan_integration.ByrealClmm.Swap.Arrays.{span, InArray, Own, Finds, IsGrid, IsFilled}

get_elem?_below :
    {A : Type 0} (xs : List A) (i : ℕ) (a : A) → get_elem? xs i ≡ some a → i < length xs
get_elem?_below [] i a h = cc h
get_elem?_below (x ∷ xs) zero a h = omega arith
get_elem?_below (x ∷ xs) (suc i) a h = omega (arith, get_elem?_below xs i a h)

module _ (lib : Library) (spacing : ℕ) where
  module _ (grid : IsGrid lib spacing) (ta : FixedTickArraySnapshot)
      (filled : IsFilled lib spacing ta) where
    abbrev start : ℤ
    start = ta.start_tick_index

    placed_in :
        (i : ℕ) (t : TickState) → Initialized lib ta.ticks i t → InArray lib spacing start t.tick
    placed_in i t init =
        let (at, low, high) = filled.placed i t init in
        let below = get_elem?_below ta.ticks i t init.there in
        let within : suc i * spacing ≤ lib.tick_array_size * spacing =
          mul-le-mul_right spacing (omega (arith, filled.full, below)) in
        rw (at) (
          omega (arith, +ℤ_parts start (pos (i * spacing))),
          omega (
            arith,
            +ℤ_parts start (pos (i * spacing)),
            +ℤ_parts start (pos (span lib spacing)),
            within,
            grid.spaced,
          ),
          rw (at) at low,
          rw (at) at high,
        )

    -- The distance of a tick of the array from its start.
    distance :
        (tick : ℤ)
        → eqb_ℤ (lib.get_array_start_index tick spacing) start ≡ true
        → (d : ℕ) × (tick -ℤ start ≡ pos d) × (d < span lib spacing)
    distance tick here =
        let same : lib.get_array_start_index tick spacing ≡ start =
          eq_of_parts (lib.get_array_start_index tick spacing) start (==→eq _ _ here) in
        let below : start ≤ℤ tick = rw (sym same) (grid.start_below tick) in
        let above : tick <ℤ (start +ℤ pos (span lib spacing)) =
          rw (sym same) (grid.start_above tick) in
        let d = pos_part (tick -ℤ start) in
        (
          d,
          eq_of_parts (tick -ℤ start) (pos d)
              (omega (arith, -ℤ_parts tick start, below, one_part (tick -ℤ start))),
          omega (
            arith,
            -ℤ_parts tick start,
            +ℤ_parts start (pos (span lib spacing)),
            below,
            above,
            one_part (tick -ℤ start),
          ),
        )
      where
        one_part : (a : ℤ) → (pos_part a ≡ 0) ⊎ (neg_part a ≡ 0)
        one_part (pos n) = inr refl
        one_part (negsuc n) = inl refl

    behind :
        (tick : ℤ) (d i : ℕ) (t : TickState)
        → tick -ℤ start ≡ pos d
        → Initialized lib ta.ticks i t
        → i * spacing ≤ d
        → Ahead lib true tick t.tick
    behind tick d i t e init le =
        let (at, low, high) = filled.placed i t init in
        rw (at) (
          rw (at) at low,
          omega (arith, +ℤ_parts start (pos (i * spacing)), rw (e) at (-ℤ_parts tick start)),
        )

    before :
        (tick : ℤ) (d i : ℕ) (t : TickState)
        → tick -ℤ start ≡ pos d
        → Initialized lib ta.ticks i t
        → d < i * spacing
        → Ahead lib false tick t.tick
    before tick d i t e init lt =
        let (at, low, high) = filled.placed i t init in
        rw (at) (
          omega (arith, +ℤ_parts start (pos (i * spacing)), rw (e) at (-ℤ_parts tick start)),
          rw (at) at high,
        )

    further : (d i : ℕ) → d / spacing + 1 ≤ i → d < i * spacing
    further d i le = omega (
      arith,
      mul-le-mul_right spacing le,
      lt-mul-div-succ d grid.spaced,
      mul_comm spacing (d / spacing + 1),
    )

    next_down :
        (tick : ℤ)
        → Finds lib spacing
            (λ t. Own lib spacing tick start × InArray lib spacing start t × Ahead lib true tick t)
            (fixed_next_initialized_tick lib ta tick spacing true)
    unfolding fixed_next_initialized_tick
    next_down tick = elim (Bool-cases (eqb_ℤ (lib.get_array_start_index tick spacing) start)) [
      | inr elsewhere ↦ inl (rw (elsewhere) refl)
      | inl here ↦
          let (d, e, within) = distance tick here in
          let below : d / spacing < lib.tick_array_size =
            (div-lt_iff_lt-mul grid.spaced).1 within in
          let positive : (spacing == 0) ≡ false = ground (arith, grid.spaced) in
          elim (scan_down_lem lib ta.ticks (d / spacing) (omega (arith, filled.full, below))) [
            | inl (i, t, found, le, init, rest) ↦ inr (
              t.tick,
              rw (here, positive, e) found,
              (
                eq_of_parts _ _ (==→eq _ _ here),
                placed_in i t init,
                behind tick d i t e init
                    (omega (arith, mul-le-mul_right spacing le, div-mul-le_self d spacing)),
              ),
            )
            | inr (found, rest) ↦ inl (rw (here, positive, e) found)
          ]
    ]

    next_up :
        (tick : ℤ)
        → Finds lib spacing
            (λ t. Own lib spacing tick start × InArray lib spacing start t × Ahead lib false tick t)
            (fixed_next_initialized_tick lib ta tick spacing false)
    unfolding fixed_next_initialized_tick
    next_up tick = elim (Bool-cases (eqb_ℤ (lib.get_array_start_index tick spacing) start)) [
      | inr elsewhere ↦ inl (rw (elsewhere) refl)
      | inl here ↦
          let (d, e, within) = distance tick here in
          let below : d / spacing < lib.tick_array_size =
            (div-lt_iff_lt-mul grid.spaced).1 within in
          let positive : (spacing == 0) ≡ false = ground (arith, grid.spaced) in
          elim (scan_up_lem lib ta.ticks (lib.tick_array_size - (d / spacing + 1)) (d / spacing + 1)
            (omega (arith, filled.full, below))) [
              | inl (i, t, found, le, init, rest) ↦ inr (
                t.tick,
                rw (here, positive, e) found,
                (
                  eq_of_parts _ _ (==→eq _ _ here),
                  placed_in i t init,
                  before tick d i t e init (further d i le),
                ),
              )
              | inr (found, rest) ↦ inl (rw (here, positive, e) found)
            ]
    ]

    first_down :
        Finds lib spacing (InArray lib spacing start) (fixed_first_initialized_tick lib ta true)
    unfolding fixed_first_initialized_tick
    first_down =
        elim (scan_down_lem lib ta.ticks (lib.tick_array_size - 1)
          (omega (arith, filled.full, grid.sized))) [
            | inl (i, t, found, le, init, rest) ↦ inr (t.tick, found, placed_in i t init)
            | inr (found, rest) ↦ inl found
          ]

    first_up :
        Finds lib spacing (InArray lib spacing start) (fixed_first_initialized_tick lib ta false)
    unfolding fixed_first_initialized_tick
    first_up = elim (scan_up_lem lib ta.ticks lib.tick_array_size 0 (omega (arith, filled.full))) [
      | inl (i, t, found, le, init, rest) ↦ inr (t.tick, found, placed_in i t init)
      | inr (found, rest) ↦ inl found
    ]

    pub fixed_next :
        (zero_for_one : Bool) (tick : ℤ)
        → Finds lib spacing
            (λ t.
              Own lib spacing tick start
              × InArray lib spacing start t
              × Ahead lib zero_for_one tick t)
            (fixed_next_initialized_tick lib ta tick spacing zero_for_one)
    fixed_next true tick = next_down tick
    fixed_next false tick = next_up tick

    pub fixed_first :
        (zero_for_one : Bool)
        → Finds lib spacing
            (InArray lib spacing start)
            (fixed_first_initialized_tick lib ta zero_for_one)
    fixed_first true = first_down
    fixed_first false = first_up

    tick_offset-below :
        (t : ℤ) (o : ℕ) → tick_offset lib ta t spacing ≡ some o → o < lib.tick_array_size
    unfolding tick_offset
    tick_offset-below t o h =
        elim (Bool-cases (eqb_ℤ (lib.get_array_start_index t spacing) start)) [
          | inr elsewhere ↦ cc (rw (elsewhere) at h)
          | inl here ↦ elim (Sum-cases (lib.get_tick_offset_in_tick_array start t spacing)) [
            | inl (e, failed) ↦ cc (rw (here, failed) at h)
            | inr (o', e) ↦
                let same : o' ≡ o = cc (rw (here, e) at h) in
                omega (arith, same, grid.offset_below start t o' e)
          ]
        ]

    pub net_returns : (t : ℤ) → NoFault (fixed_get_tick_liquidity_net lib ta t spacing)
    unfolding fixed_get_tick_liquidity_net
    net_returns t x h = elim (Option-cases (tick_offset lib ta t spacing)) [
      | inl nowhere ↦ cc (rw (fixed_get_tick_liquidity_net, nowhere) at h)
      | inr (o, e) ↦
          let (state, there) =
            get_elem?_in ta.ticks o (omega (arith, filled.full, tick_offset-below t o e)) in
          cc (rw (fixed_get_tick_liquidity_net, e, there) at h)
    ]
