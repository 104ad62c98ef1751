-- ===== src/ByrealClmm/Swap/Arrays/Searches.antt =====
-- What the loaded tick arrays of byreal_clmm/core.rs answer, of either kind.
use byreal_titan_integration.Base.{
  ℕ, refl, inl, inr, Bool, List, none, some, get_elem?_in, Sum-cases,
}
use byreal_titan_integration.ByrealClmm.Library.{Library, TickState}
use byreal_titan_integration.ByrealClmm.TickArray.{
  FixedTickArraySnapshot, DynamicTickArrayState, dynamic, fixed, next_initialized_tick,
  first_initialized_tick, get_tick_liquidity_net, start_tick_index_of,
}
use byreal_titan_integration.ByrealClmm.Swap.Arrays.{
  IsGrid, IsFilled, IsSearchable, IsIndexed, IsArray,
}
use byreal_titan_integration.ByrealClmm.Swap.Arrays.Fixed.{fixed_next, fixed_first, net_returns}

module _ (lib : Library) (spacing : ℕ) (zero_for_one : Bool) where
  dynamic-IsSearchable :
      (header : lib.DynTickArrayHeader) (ticks : List TickState)
      → IsIndexed lib spacing zero_for_one header ticks
      → IsSearchable lib spacing zero_for_one (dynamic header ticks)
  unfolding next_initialized_tick first_initialized_tick get_tick_liquidity_net start_tick_index_of
  dynamic-IsSearchable header ticks indexed = record {
    next = λ tick.
        elim (Sum-cases
          (lib.dyn_next_initialized_tick_index header ticks tick spacing zero_for_one)) [
            | inl (e, failed) ↦ inl (rw (next_initialized_tick, failed) refl)
            | inr (none, nothing) ↦ inl (rw (next_initialized_tick, nothing) refl)
            | inr (some i, e) ↦
                let (t, there, own, within, ahead) = indexed.next tick i e in
                inr (t.tick, rw (next_initialized_tick, e, there) refl, (own, within, ahead))
          ];
    first = elim (Sum-cases (lib.dyn_first_initialized_tick_index header ticks zero_for_one)) [
      | inl (e, failed) ↦ inl (rw (first_initialized_tick, failed) refl)
      | inr (i, e) ↦
          let (t, there, within) = indexed.first i e in
          inr (t.tick, rw (first_initialized_tick, e, there) refl, within)
    ];
    net = λ t x h. elim (Sum-cases (lib.dyn_get_tick_index_in_array header t spacing)) [
      | inl (e, failed) ↦ cc (rw (get_tick_liquidity_net, failed) at h)
      | inr (i, e) ↦
          let (state, there) = get_elem?_in ticks i (indexed.index t i e) in
          cc (rw (get_tick_liquidity_net, e, there) at h)
    ];
  }

  fixed-IsSearchable :
      IsGrid lib spacing
      → (ta : FixedTickArraySnapshot) → IsFilled lib spacing ta
      → IsSearchable lib spacing zero_for_one (fixed ta)
  unfolding next_initialized_tick first_initialized_tick get_tick_liquidity_net start_tick_index_of
  fixed-IsSearchable grid ta filled = record {
    next = λ tick. fixed_next lib spacing grid ta filled zero_for_one tick;
    first = fixed_first lib spacing grid ta filled zero_for_one;
    net = net_returns lib spacing grid ta filled;
  }

  pub IsArray-IsSearchable :
      IsGrid lib spacing
      → (a : DynamicTickArrayState lib) → IsArray lib spacing zero_for_one a
      → IsSearchable lib spacing zero_for_one a
  IsArray-IsSearchable grid (dynamic header ticks) indexed =
      dynamic-IsSearchable header ticks indexed
  IsArray-IsSearchable grid (fixed ta) filled = fixed-IsSearchable grid ta filled
