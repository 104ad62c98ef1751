-- ===== src/ByrealClmm/Swap/Navigable.antt =====
-- The search of byreal_clmm/core.rs for the next initialized tick, over loaded arrays that the pool's program has filled.
use byreal_titan_integration.Base.{
  ℕ, suc, ◌<◌, ◌≡◌, sym, inl, inr, ℤ, pos, ◌+ℤ◌, ◌-ℤ◌, ◌≤ℤ◌, ◌<ℤ◌, eqb_ℤ, +ℤ_parts, -ℤ_parts,
  eq_of_parts, Bool, true, false, [], ◌∷◌, All, Map, none, some, Result, ok, err, ◌>>=◌, ok_or,
  NoFault, Bool-cases, Option-cases, ==→eq, arith,
}
use byreal_titan_integration.TradingVenue.Error.{Message, text, number}
use byreal_titan_integration.ByrealClmm.Library.{Library}
use byreal_titan_integration.ByrealClmm.Core.{Core}
use byreal_titan_integration.ByrealClmm.TickArray.{
  DynamicTickArrayState, start_tick_index_of, first_initialized_tick,
}
use byreal_titan_integration.ByrealClmm.Navigate.{
  TickNavState, find_start, loaded_tick_array_by_start_index, find_next_initialized_tick_with_nav,
  tick_liquidity_net, next_initialized_tick_array_start_index,
}
use byreal_titan_integration.ByrealClmm.Swap.Ends.{Ahead, Left, next_of}
use byreal_titan_integration.ByrealClmm.Swap.Arrays.{span, IsGrid, InArray, IsSearchable, IsArray}
use byreal_titan_integration.ByrealClmm.Swap.Arrays.Searches.{IsArray-IsSearchable}
use byreal_titan_integration.ByrealClmm.Swap.Starts.{IsStart, Beyond, IsBitmap}

module _ (lib : Library) (core : Core lib) (zero_for_one : Bool) where
  abbrev spacing : ℕ
  spacing = core.pool_state.tick_spacing

  abbrev Searchable : DynamicTickArrayState lib → Type 0
  Searchable = IsSearchable lib spacing zero_for_one

  -- A loaded array: it is filled, and some tick may lie in it.
  pub record IsLoaded (a : DynamicTickArrayState lib) : Type 0 where
    pub array : IsArray lib spacing zero_for_one a
    pub above : lib.min_tick <ℤ (start_tick_index_of lib a +ℤ pos (span lib spacing))
    pub below : start_tick_index_of lib a ≤ℤ lib.max_tick

  abbrev pub AllArrays : Map (DynamicTickArrayState lib) → Type 0
  AllArrays = All (λ entry. IsLoaded entry.1)

  find_start_lem :
      (arrays : Map (DynamicTickArrayState lib)) (s : ℤ) (a : DynamicTickArrayState lib)
      → AllArrays arrays
      → find_start lib core arrays s ≡ some a
      → IsLoaded a × (start_tick_index_of lib a ≡ s)
  unfolding find_start
  find_start_lem [] s a all h = cc h
  find_start_lem ((k, b) ∷ arrays) s a (array, all) h =
      elim (Bool-cases (eqb_ℤ (start_tick_index_of lib b) s)) [
        | inl here ↦
            let same : b ≡ a = cc (rw (here) at h) in
            rw (sym same) (array, eq_of_parts (start_tick_index_of lib b) s (==→eq _ _ here))
        | inr elsewhere ↦ find_start_lem arrays s a all (rw (elsewhere) at h)
      ]

  -- The navigation stands at an array that is the tick's, or lies ahead of it; at one that lies ahead if it is not the
  -- pool's; going down it may also stand at the array just above the tick.
  abbrev pub Near : Bool → ℤ → ℤ → Type 0
  Near true s tick = s ≤ℤ (tick +ℤ pos 1)
  Near false s tick = tick <ℤ (s +ℤ pos (span lib spacing))

  abbrev pub Further : Bool → ℤ → ℤ → Type 0
  Further true s tick = (s +ℤ pos (span lib spacing)) ≤ℤ tick
  Further false s tick = tick <ℤ s

  pub record At (n : ℕ) (tick : ℤ) (nav : TickNavState) : Type 0 where
    pub at_start : IsStart lib core zero_for_one nav.current_valid_tick_array_start_index
    pub left : Left lib zero_for_one n nav.current_valid_tick_array_start_index
    pub near : Near zero_for_one nav.current_valid_tick_array_start_index tick
    pub unmatched :
        nav.is_match_pool_current_tick_array ≡ false
        → Further zero_for_one nav.current_valid_tick_array_start_index tick

  -- A tick of an array that lies further is ahead.
  pub further_ahead :
      (z : Bool) (s tick t : ℤ) → Further z s tick → InArray lib spacing s t → Ahead lib z tick t
  further_ahead true s tick t f (a, b, low, high) =
      (low, omega (arith, f, b, +ℤ_parts s (pos (span lib spacing))))
  further_ahead false s tick t f (a, b, low, high) = (omega (arith, f, a), high)

  -- So is one of an array beyond the one where the navigation stands.
  pub beyond_further :
      (z : Bool) (s s' tick : ℤ)
      → Near z s tick
      → Beyond lib core zero_for_one z s s'
      → 0 < span lib spacing
      → (t : ℤ) → InArray lib spacing s' t
      → Ahead lib z tick t
  beyond_further true s s' tick near b sized t (low, high, lo, hi) = (
    lo,
    omega (arith, near, b, high, +ℤ_parts tick (pos 1), +ℤ_parts s' (pos (span lib spacing))),
  )
  beyond_further false s s' tick near b sized t (low, high, lo, hi) =
      (omega (arith, near, b, low, +ℤ_parts s (pos (span lib spacing))), hi)

  -- After a tick of the array where the navigation stands it is near again.
  pub close_after_crossing :
      (z : Bool) (s t : ℤ) → InArray lib spacing s t → Near z s (next_of lib z t)
  close_after_crossing true s t (low, high, lo, hi) =
      omega (arith, low, -ℤ_parts t (pos 1), +ℤ_parts (t -ℤ pos 1) (pos 1))
  close_after_crossing false s t (low, high, lo, hi) = high

  pub close_onward :
      (z : Bool) (s s' tick : ℤ)
      → Near z s tick
      → Beyond lib core zero_for_one z s s'
      → Near z s' tick
  close_onward true s s' tick near b =
      omega (arith, near, b, +ℤ_parts tick (pos 1), +ℤ_parts s' (pos (span lib spacing)))
  close_onward false s s' tick near b =
      omega
        (arith, near, b, +ℤ_parts s (pos (span lib spacing)), +ℤ_parts s' (pos (span lib spacing)))

  Left-suc : (z : Bool) (n : ℕ) (s : ℤ) → Left lib z n s → Left lib z (suc n) s
  Left-suc true n s h =
      omega (arith, h, +ℤ_parts lib.min_tick (pos n), +ℤ_parts lib.min_tick (pos (suc n)))
  Left-suc false n s h = omega (arith, h, +ℤ_parts s (pos n), +ℤ_parts s (pos (suc n)))

  pub At-suc : (n : ℕ) (tick : ℤ) (nav : TickNavState) → At n tick nav → At (suc n) tick nav
  At-suc n tick nav at = record {
    at_start = at.at_start;
    left = Left-suc zero_for_one n _ at.left;
    near = at.near;
    unmatched = at.unmatched;
  }

  -- What a search from `tick` ends with.
  pub record Good (n : ℕ) (tick : ℤ) (r : Result Message (ℤ × TickNavState)) : Type 0 where
    pub returns : NoFault r
    pub found :
        (t : ℤ) (nav : TickNavState)
        → r ≡ ok (t, nav)
        → Ahead lib zero_for_one tick t
          × At n (next_of lib zero_for_one t) nav
          × NoFault (tick_liquidity_net lib core t)

  pub err-Good : (n : ℕ) (tick : ℤ) (e : Message) → Good n tick (err e)
  err-Good n tick e = record { returns = λ x h. cc h; found = λ t nav h. cc h }

  pub Good-suc :
      (n : ℕ) (tick : ℤ) (r : Result Message (ℤ × TickNavState))
      → Good n tick r
      → Good (suc n) tick r
  Good-suc n tick r good = record {
    returns = good.returns;
    found = λ t nav h. let (ahead, at, net) = good.found t nav h in (ahead, At-suc n _ nav at, net);
  }

  -- The search in the next array, from the array that starts at `s`.
  abbrev pub onward : ℕ → ℤ → ℤ → Result Message (ℤ × TickNavState)
  onward fuel tick s = do
    next_arr ← next_initialized_tick_array_start_index lib core fuel s zero_for_one
    next_start ←
        ok_or next_arr (text "Liquidity insufficient: no further initialized tick arrays" ∷ [])
    let nav' : TickNavState = record {
      is_match_pool_current_tick_array = true;
      current_valid_tick_array_start_index = next_start;
    }
    next_tick_array ←
        ok_or (loaded_tick_array_by_start_index lib core next_start)
          (text "Missing tick array data for advanced start_index " ∷ number next_start ∷ [])
    found ← first_initialized_tick lib next_tick_array zero_for_one
    elim found [
      | some t ↦ ok (t, nav')
      | none ↦ find_next_initialized_tick_with_nav lib core fuel tick zero_for_one nav'
    ]

  module _ (grid : IsGrid lib spacing) (bitmap : IsBitmap lib core zero_for_one)
      (sized : 0 < span lib spacing) (all : AllArrays core.dynamic_tick_arrays) where
    pub loaded_lem :
        (s : ℤ) (a : DynamicTickArrayState lib)
        → loaded_tick_array_by_start_index lib core s ≡ some a
        → Searchable a × IsLoaded a × (start_tick_index_of lib a ≡ s)
    unfolding loaded_tick_array_by_start_index
    loaded_lem s a h =
        let (loaded, at) = find_start_lem core.dynamic_tick_arrays s a all h in
        (IsArray-IsSearchable lib spacing zero_for_one grid a loaded.array, loaded, at)

    net_returns : (t : ℤ) → NoFault (tick_liquidity_net lib core t)
    unfolding tick_liquidity_net
    net_returns t x h =
        elim (Option-cases
          (loaded_tick_array_by_start_index lib core (lib.get_array_start_index t spacing))) [
            | inl missing ↦ cc (rw (tick_liquidity_net, missing) at h)
            | inr (a, there) ↦
                let (searchable, _, _) = loaded_lem _ a there in
                searchable.net t x (rw (tick_liquidity_net, there) at h)
          ]

    pub ok-Good :
        (n : ℕ) (tick t : ℤ) (nav : TickNavState)
        → Ahead lib zero_for_one tick t
        → At n (next_of lib zero_for_one t) nav
        → Good n tick (ok (t, nav))
    ok-Good n tick t nav ahead at = record {
      returns = λ x h. cc h;
      found = λ t' nav' h.
          let same : t ≡ t' = cc h in
          let same' : nav ≡ nav' = cc h in rw (sym same, sym same') (ahead, at, net_returns t);
    }
