-- ===== src/ByrealClmm/Swap/Arrays.antt =====
-- Loaded tick arrays of byreal_clmm/core.rs that are filled the way the pool's program fills them, and what they should answer.
pub mod Fixed
pub mod Searches
use native.Mathlib.Nat.{
  div-mul-le_self, lt-mul-div-succ, div-lt_iff_lt-mul, mul-le-mul_right, mul_comm,
}
use byreal_titan_integration.Base.{
  ℕ, zero, suc, ◌+◌, ◌-◌, ◌*◌, ◌/◌, ◌≤◌, ◌<◌, ◌≡◌, refl, sym, ◌⊎◌, inl, inr, ℤ, pos, negsuc, ◌+ℤ◌,
  ◌-ℤ◌, ◌≤ℤ◌, ◌<ℤ◌, eqb_ℤ, +ℤ_parts, -ℤ_parts, eq_of_parts, Bool, true, false, List, [], ◌∷◌,
  Option, none, some, Result, ok, NoFault, length, get_elem?, get_elem?_in, Bool-cases, Sum-cases,
  Option-cases, ◌==◌, ==→eq, arith, pos_part, neg_part,
}
use byreal_titan_integration.TradingVenue.Error.{Message}
use byreal_titan_integration.ByrealClmm.Library.{Library, TickState}
use byreal_titan_integration.ByrealClmm.TickArray.{
  FixedTickArraySnapshot, DynamicTickArrayState, dynamic, fixed, fixed_next_initialized_tick,
  fixed_first_initialized_tick, fixed_get_tick_liquidity_net, tick_offset, next_initialized_tick,
  first_initialized_tick, get_tick_liquidity_net, start_tick_index_of,
}
use byreal_titan_integration.ByrealClmm.TickArray.Scan.{Initialized, scan_down_lem, scan_up_lem}
use byreal_titan_integration.ByrealClmm.Swap.Ends.{Ahead}

module _ (lib : Library) (spacing : ℕ) where
  abbrev pub span : ℕ
  span = lib.tick_array_size * spacing

  -- What the crate says of its grid of arrays: each tick lies in the array that starts at its start index, which is its own, and
  -- an offset into an array is one of its ticks.
  pub record IsGrid : Type 0 where
    pub spaced : 0 < spacing
    pub sized : 0 < lib.tick_array_size
    pub start_below : (t : ℤ) → lib.get_array_start_index t spacing ≤ℤ t
    pub start_above : (t : ℤ) → t <ℤ (lib.get_array_start_index t spacing +ℤ pos span)
    pub start_again :
        (t : ℤ)
        → lib.get_array_start_index (lib.get_array_start_index t spacing) spacing
          ≡ lib.get_array_start_index t spacing
    pub offset_below :
        (s t : ℤ) (o : ℕ)
        → lib.get_tick_offset_in_tick_array s t spacing ≡ inr o
        → o < lib.tick_array_size

  -- `t` is a tick of the array that starts at `s`.
  abbrev pub InArray : ℤ → ℤ → Type 0
  InArray s t = (s ≤ℤ t) × (t <ℤ (s +ℤ pos span)) × (lib.min_tick ≤ℤ t) × (t ≤ℤ lib.max_tick)

  -- The array that starts at `s` is the tick's own.
  abbrev pub Own : ℤ → ℤ → Type 0
  Own tick s = lib.get_array_start_index tick spacing ≡ s

  -- A search ends with nothing, or with a tick of the kind `P`.
  abbrev pub Finds : (ℤ → Type 0) → Result Message (Option ℤ) → Type 0
  Finds P r = (r ≡ ok none) ⊎ ((t : ℤ) × (r ≡ ok (some t)) × P t)

  -- An array that the pool's program has filled: all of its ticks are there, and an initialized one knows its place.
  pub record IsFilled (ta : FixedTickArraySnapshot) : Type 0 where
    pub full : length ta.ticks ≡ lib.tick_array_size
    pub placed :
        (i : ℕ) (t : TickState)
        → Initialized lib ta.ticks i t
        → (t.tick ≡ ta.start_tick_index +ℤ pos (i * spacing))
          × (lib.min_tick ≤ℤ t.tick)
          × (t.tick ≤ℤ lib.max_tick)

  -- What the searches of an array answer in a direction.
  pub record IsSearchable (zero_for_one : Bool) (a : DynamicTickArrayState lib) : Type 0 where
    pub next :
        (tick : ℤ)
        → Finds
            (λ t.
              Own tick (start_tick_index_of lib a)
              × InArray (start_tick_index_of lib a) t
              × Ahead lib zero_for_one tick t)
            (next_initialized_tick lib a tick spacing zero_for_one)
    pub first :
        Finds (InArray (start_tick_index_of lib a)) (first_initialized_tick lib a zero_for_one)
    pub net : (t : ℤ) → NoFault (get_tick_liquidity_net lib a t spacing)

  module _ (zero_for_one : Bool) where
    -- What the crate says of the indices into a dynamic array: each is one of its ticks, the tick lies in the array, and
    -- the next one lies ahead of a tick of the same array.
    pub record IsIndexed (header : lib.DynTickArrayHeader) (ticks : List TickState) : Type 0 where
      pub next :
          (tick : ℤ) (i : ℕ)
          → lib.dyn_next_initialized_tick_index header ticks tick spacing zero_for_one
            ≡ inr (some i)
          → (t : TickState) × (get_elem? ticks i ≡ some t)
            × Own tick (lib.dyn_start_tick_index header)
            × InArray (lib.dyn_start_tick_index header) t.tick
            × Ahead lib zero_for_one tick t.tick
      pub first :
          (i : ℕ)
          → lib.dyn_first_initialized_tick_index header ticks zero_for_one ≡ inr i
          → (t : TickState) × (get_elem? ticks i ≡ some t)
            × InArray (lib.dyn_start_tick_index header) t.tick
      pub index :
          (t : ℤ) (i : ℕ)
          → lib.dyn_get_tick_index_in_array header t spacing ≡ inr i
          → i < length ticks

    abbrev pub IsArray : DynamicTickArrayState lib → Type 0
    IsArray (dynamic header ticks) = IsIndexed header ticks
    IsArray (fixed ta) = IsFilled ta
