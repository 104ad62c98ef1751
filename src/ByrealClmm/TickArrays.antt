-- ===== src/ByrealClmm/TickArrays.antt =====
-- The tick arrays that byreal_clmm/core.rs names: `get_swap_tick_arrays`, `get_all_tick_array_addresses` and
-- `live_directional_tick_arrays`.
pub mod Live
use byreal_titan_integration.Base.{
  ℕ, zero, suc, ◌+◌, ◌-◌, ◌*◌, ◌^◌, ℤ, pos, negsuc, ◌+ℤ◌, ◌-ℤ◌, ◌*ℤ◌, ltb_ℤ, eqb_ℤ, Bool, true,
  false, not, ◌&&◌, ◌||◌, List, [], ◌∷◌, ◌++◌, map, Option, none, some, ◌⊎◌, inl, inr, contains_key,
  Result, ok, err, ltb, if◌then◌else◌,
}
use byreal_titan_integration.TradingVenue.Error.{
  Pubkey, Message, text, key, TradingVenueError, missing_state, static_str, string,
}
use byreal_titan_integration.ByrealClmm.Library.{Library, PoolState}
use byreal_titan_integration.ByrealClmm.Core.{Core, get_tick_array_address}

-- The bounds of an i32, and the additions that stop at them.
abbrev pub i32_max : ℤ
i32_max = pos 2_147_483_647

abbrev pub i32_min : ℤ
i32_min = negsuc 2_147_483_647

abbrev pub clamp_i32 : ℤ → ℤ
clamp_i32 a = if ltb_ℤ i32_max a then i32_max else if ltb_ℤ a i32_min then i32_min else a

-- `BTreeSet::insert`
unfoldable pub insert_sorted : ℤ → List ℤ → List ℤ
insert_sorted a [] = a ∷ []
insert_sorted a (b ∷ bs) =
    let rest = insert_sorted a bs in
    if eqb_ℤ a b then b ∷ bs else if ltb_ℤ a b then a ∷ b ∷ bs else b ∷ rest

-- `BTreeSet::insert` of each.
unfoldable pub insert_all : List ℤ → List ℤ → List ℤ
insert_all [] set = set
insert_all (a ∷ rest) set = insert_all rest (insert_sorted a set)

module _ (lib : Library) (core : Core lib) where
  -- `for _ in 1..limit`, with `n` rounds left: the start indices behind `current`, as long as there are some.
  unfoldable pub next_starts : (n : ℕ) (current : ℤ) → Bool → List ℤ
  next_starts zero current zero_for_one = []
  next_starts (suc n) current zero_for_one =
      elim (lib.next_initialized_tick_array_start_index core.pool_state core.bitmap_extension
        current zero_for_one) [
          | inr (some next) ↦ next ∷ next_starts n next zero_for_one
          | inr none ↦ []
          | inl e ↦ []
        ]

  -- The offset of the `i`-th array from the current one: an i32 product, which does not overflow for 6 arrays of 60
  -- ticks and a u16 spacing.
  abbrev pub fallback_offset : ℕ → ℤ
  fallback_offset i = pos (lib.tick_array_size * i * core.pool_state.tick_spacing)

  unfoldable pub fallback_start : Bool → ℕ → ℤ
  fallback_start zero_for_one i =
      let current =
        lib.get_array_start_index core.pool_state.tick_current core.pool_state.tick_spacing in
      if zero_for_one
      then clamp_i32 (current -ℤ fallback_offset i)
      else clamp_i32 (current +ℤ fallback_offset i)

  -- `for i in 1..max`, with `n` rounds left.
  unfoldable pub fallback_starts : Bool → (n i : ℕ) → List ℤ
  fallback_starts zero_for_one zero i = []
  fallback_starts zero_for_one (suc n) i =
      fallback_start zero_for_one i ∷ fallback_starts zero_for_one n (i + 1)

  unfoldable pub swap_starts : Bool → List ℤ
  swap_starts zero_for_one =
      elim (lib.get_first_initialized_tick_array core.pool_state core.bitmap_extension
        zero_for_one) [
          | inr (initialized, first_start) ↦
              first_start ∷ next_starts (core.max_one_side_tick_arrays - 1) first_start zero_for_one
          | inl e ↦
              lib.get_array_start_index core.pool_state.tick_current core.pool_state.tick_spacing
              ∷ fallback_starts zero_for_one (core.max_one_side_tick_arrays - 1) 1
        ]

  unfoldable pub get_swap_tick_arrays : Bool → List Pubkey
  get_swap_tick_arrays zero_for_one =
      map (get_tick_array_address lib core) (swap_starts zero_for_one)

  -- The closure `collect_dir`.
  unfoldable pub collect_dir : Bool → (limit : ℕ) → List ℤ → List ℤ
  collect_dir zero_for_one zero start_indexes = start_indexes
  collect_dir zero_for_one (suc n) start_indexes =
      elim (lib.get_first_initialized_tick_array core.pool_state core.bitmap_extension
        zero_for_one) [
          | inr (initialized, start) ↦
              insert_all (start ∷ next_starts n start zero_for_one) start_indexes
          | inl e ↦ start_indexes
        ]

  -- The loop of `live_directional_tick_arrays`, with what it has found.
  unfoldable pub live_loop :
      List Pubkey → (live : List Pubkey) → Result TradingVenueError (List Pubkey)
  live_loop [] [] = err (
      missing_state (
        static_str
          "no directional tick array accounts available; call update_state() with tick arrays"))
  live_loop [] (a ∷ live) = ok (a ∷ live)
  live_loop (tick_array ∷ rest) [] =
      if contains_key core.dynamic_tick_arrays tick_array
      then live_loop rest (tick_array ∷ [])
      else err (
          missing_state (
            string (
              text "directional first tick array account missing for swap: "
              ∷ key tick_array
              ∷ [])))
  live_loop (tick_array ∷ rest) (a ∷ live) =
      if contains_key core.dynamic_tick_arrays tick_array
      then live_loop rest ((a ∷ live) ++ tick_array ∷ [])
      else live_loop rest (a ∷ live)

  unfoldable pub live_directional_tick_arrays : Bool → Result TradingVenueError (List Pubkey)
  live_directional_tick_arrays zero_for_one = live_loop (get_swap_tick_arrays zero_for_one) []
