-- ===== src/ByrealClmm/Navigate.antt =====
-- How byreal_clmm/core.rs goes from one initialized tick to the next. The loops run on fuel.
use byreal_titan_integration.Base.{
  ℕ, zero, suc, ℤ, leb_ℤ, ltb_ℤ, eqb_ℤ, Bool, true, false, ◌||◌, [], ◌∷◌, ◌++◌, Option, none, some,
  ◌⊎◌, inl, inr, Map, Result, ok, err, fault, out_of_fuel, ok_or, ◌>>=◌, if◌then◌else◌,
}
use byreal_titan_integration.TradingVenue.Error.{Message, text, number}
use byreal_titan_integration.ByrealClmm.Library.{Library}
use byreal_titan_integration.ByrealClmm.TickArray.{
  DynamicTickArrayState, start_tick_index_of, next_initialized_tick, first_initialized_tick,
  get_tick_liquidity_net,
}
use byreal_titan_integration.ByrealClmm.Core.{Core}

-- A call of the library, with the error as it is.
abbrev pub called : {A : Type 0} → Message ⊎ A → Result Message A
called (inr a) = ok a
called (inl e) = err e

-- A call whose error is put behind a text.
abbrev pub called_with : {A : Type 0} → Message → Message ⊎ A → Result Message A
called_with what (inr a) = ok a
called_with what (inl e) = err (what ++ e)

pub record TickNavState : Type 0 where
  pub is_match_pool_current_tick_array : Bool
  pub current_valid_tick_array_start_index : ℤ

module _ (lib : Library) (core : Core lib) where
  unfoldable pub is_overflow_default_tickarray_bitmap : ℤ → Bool
  is_overflow_default_tickarray_bitmap tick_index =
      let (min_start, max_start) = lib.tick_array_start_index_range core.pool_state in
      let start = lib.get_array_start_index tick_index core.pool_state.tick_spacing in
      leb_ℤ max_start start || ltb_ℤ start min_start

  -- The loop of `next_initialized_tick_array_start_index`.
  unfoldable pub next_start_loop : (fuel : ℕ) → ℤ → Bool → Result Message (Option ℤ)
  next_start_loop zero last zero_for_one = fault out_of_fuel
  next_start_loop (suc fuel) last zero_for_one =
      let (found, start) =
        lib.next_tick_array_in_bitmap core.pool_state.tick_array_bitmap last
          core.pool_state.tick_spacing zero_for_one in
      elim found [
        | true ↦ ok (some start)
        | false ↦ do
          bitmap_extension ←
              ok_or core.bitmap_extension (text "Missing tick array bitmap extension account" ∷ [])
          (found', start') ← called (
              lib.next_initialized_tick_array_from_one_bitmap bitmap_extension start
                core.pool_state.tick_spacing zero_for_one)
          elim found' [
            | true ↦ ok (some start')
            | false ↦ elim (ltb_ℤ start' lib.min_tick || ltb_ℤ lib.max_tick start') [
              | true ↦ ok none
              | false ↦ next_start_loop fuel start' zero_for_one
            ]
          ]
      ]

  unfoldable pub next_initialized_tick_array_start_index :
      (fuel : ℕ) → ℤ → Bool → Result Message (Option ℤ)
  next_initialized_tick_array_start_index fuel last zero_for_one =
      next_start_loop fuel (lib.get_array_start_index last core.pool_state.tick_spacing)
        zero_for_one

  unfoldable pub first_initialized_tick_array : (fuel : ℕ) → Bool → Result Message (Bool × ℤ)
  first_initialized_tick_array fuel zero_for_one = do
    let current_start =
        lib.get_array_start_index core.pool_state.tick_current core.pool_state.tick_spacing
    (is_initialized, start_index) ←
        (if is_overflow_default_tickarray_bitmap core.pool_state.tick_current
          then (do
            bitmap_extension ←
                ok_or core.bitmap_extension
                  (text "Missing tick array bitmap extension account" ∷ [])
            called (
                lib.check_tick_array_is_initialized bitmap_extension current_start
                  core.pool_state.tick_spacing))
          else called (
              lib.check_current_tick_array_is_initialized core.pool_state.tick_array_bitmap
                core.pool_state.tick_current core.pool_state.tick_spacing))
    elim is_initialized [
      | true ↦ ok (true, start_index)
      | false ↦ do
        next_start ← next_initialized_tick_array_start_index fuel current_start zero_for_one
        start ←
            ok_or next_start
              (text "Liquidity insufficient: no initialized tick array for direction" ∷ [])
        ok (false, start)
    ]

  unfoldable pub init_tick_nav_state : (fuel : ℕ) → Bool → Result Message TickNavState
  init_tick_nav_state fuel zero_for_one = do
    (is_match, first_start) ← first_initialized_tick_array fuel zero_for_one
    ok (record {
      is_match_pool_current_tick_array = is_match;
      current_valid_tick_array_start_index = first_start;
    })

  -- `.values().find(…)`, in the order of the association list.
  unfoldable pub find_start :
      Map (DynamicTickArrayState lib) → ℤ → Option (DynamicTickArrayState lib)
  find_start [] start_index = none
  find_start ((k, tick_array) ∷ rest) start_index =
      let found = find_start rest start_index in
      if eqb_ℤ (start_tick_index_of lib tick_array) start_index then some tick_array else found

  unfoldable pub loaded_tick_array_by_start_index : ℤ → Option (DynamicTickArrayState lib)
  loaded_tick_array_by_start_index start_index = find_start core.dynamic_tick_arrays start_index

  -- The loop of `find_next_initialized_tick_with_nav`, with the navigation state that it leaves.
  unfoldable pub find_next_initialized_tick_with_nav :
      (fuel : ℕ) → ℤ → Bool → TickNavState → Result Message (ℤ × TickNavState)
  find_next_initialized_tick_with_nav zero current_tick zero_for_one nav = fault out_of_fuel
  find_next_initialized_tick_with_nav (suc fuel) current_tick zero_for_one nav = do
    let spacing = core.pool_state.tick_spacing
    let start_index = nav.current_valid_tick_array_start_index
    tick_array ←
        ok_or (loaded_tick_array_by_start_index start_index)
          (text "Missing tick array data for start_index " ∷ number start_index ∷ [])
    next ← next_initialized_tick lib tick_array current_tick spacing zero_for_one
    elim next [
      | some t ↦ ok (t, nav)
      | none ↦ do
        first ←
            (if nav.is_match_pool_current_tick_array
              then ok none
              else first_initialized_tick lib tick_array zero_for_one)
        elim first [
          | some t ↦ ok (t, record nav { is_match_pool_current_tick_array = true })
          | none ↦ do
            next_arr ← next_initialized_tick_array_start_index fuel start_index zero_for_one
            next_start ←
                ok_or next_arr
                  (text "Liquidity insufficient: no further initialized tick arrays" ∷ [])
            let nav' : TickNavState = record {
              is_match_pool_current_tick_array = true;
              current_valid_tick_array_start_index = next_start;
            }
            next_tick_array ←
                ok_or (loaded_tick_array_by_start_index next_start) (
                  text "Missing tick array data for advanced start_index " ∷ number next_start ∷ [])
            found ← first_initialized_tick lib next_tick_array zero_for_one
            elim found [
              | some t ↦ ok (t, nav')
              | none ↦ find_next_initialized_tick_with_nav fuel current_tick zero_for_one nav'
            ]
        ]
    ]

  unfoldable pub tick_liquidity_net : ℤ → Result Message (Option ℤ)
  tick_liquidity_net tick_index =
      elim (loaded_tick_array_by_start_index
        (lib.get_array_start_index tick_index core.pool_state.tick_spacing)) [
          | none ↦ ok none
          | some tick_array ↦
              get_tick_liquidity_net lib tick_array tick_index core.pool_state.tick_spacing
        ]
