-- ===== src/ByrealClmm/Swap/Search.antt =====
-- The loop of `find_next_initialized_tick_with_nav` of byreal_clmm/core.rs ends, and with a tick that lies ahead.
use byreal_titan_integration.Base.{
  ℕ, zero, suc, ◌+◌, ◌<◌, inl, inr, ℤ, pos, ◌+ℤ◌, ◌≤ℤ◌, ◌<ℤ◌, +ℤ_parts, Bool, true, false, none,
  some, Bool-cases, Option-cases, Result-cases, arith,
}
use byreal_titan_integration.ByrealClmm.Library.{Library}
use byreal_titan_integration.ByrealClmm.Core.{Core}
use byreal_titan_integration.ByrealClmm.Navigate.{
  TickNavState, loaded_tick_array_by_start_index, find_next_initialized_tick_with_nav,
  next_initialized_tick_array_start_index,
}
use byreal_titan_integration.ByrealClmm.Swap.Ends.{Left, IsNavigable}
use byreal_titan_integration.ByrealClmm.Swap.Arrays.{span, IsGrid, InArray, Own}
use byreal_titan_integration.ByrealClmm.Swap.Starts.{
  IsStart, Beyond, IsBitmap, next_start-Starts, Beyond-Left,
}
use byreal_titan_integration.ByrealClmm.Swap.Navigable.{
  AllArrays, At, Near, Further, Good, err-Good, Good-suc, ok-Good, onward, loaded_lem,
  further_ahead, beyond_further, close_after_crossing, close_onward,
}

module _ (lib : Library) (core : Core lib) (zero_for_one : Bool) where
  abbrev spacing : ℕ
  spacing = core.pool_state.tick_spacing

  -- Where no tick is left there is no array beyond.
  no_room :
      (z : Bool) (s s' : ℤ)
      → Left lib z 0 s
      → Beyond lib core zero_for_one z s s'
      → lib.min_tick <ℤ (s' +ℤ pos (span lib spacing))
      → s' ≤ℤ lib.max_tick
      → ¬ (0 < span lib spacing)
  no_room true s s' left b above below sized =
      omega (arith, left, b, above, +ℤ_parts lib.min_tick (pos 0))
  no_room false s s' left b above below sized =
      omega (arith, left, b, below, sized, +ℤ_parts s (pos 0), +ℤ_parts s (pos (span lib spacing)))

  pub Beyond-keeps :
      (z : Bool) (n : ℕ) (s s' : ℤ)
      → Left lib z n s
      → Beyond lib core zero_for_one z s s'
      → Left lib z n s'
  Beyond-keeps true n s s' left b = omega (arith, left, b, +ℤ_parts s' (pos (span lib spacing)))
  Beyond-keeps false n s s' left b =
      omega (
        arith,
        left,
        b,
        +ℤ_parts s (pos (span lib spacing)),
        +ℤ_parts s (pos n),
        +ℤ_parts s' (pos n),
      )

  abbrev found_at : ℤ → TickNavState
  found_at s = record {
    is_match_pool_current_tick_array = true;
    current_valid_tick_array_start_index = s;
  }

  module _ (grid : IsGrid lib spacing) (bitmap : IsBitmap lib core zero_for_one)
      (sized : 0 < span lib spacing)
      (all : AllArrays lib core zero_for_one core.dynamic_tick_arrays) where
    -- The search that goes on from a further array that has no tick.
    again :
        (n fuel : ℕ) (tick s s' : ℤ)
        → ((m : ℕ)
            → At lib core zero_for_one m tick (found_at s')
            → m + 1 < fuel
            → Good lib core zero_for_one m tick
                (find_next_initialized_tick_with_nav lib core fuel tick zero_for_one (found_at s')))
        → IsStart lib core zero_for_one s'
        → Left lib zero_for_one n s
        → Near lib core zero_for_one zero_for_one s' tick
        → Beyond lib core zero_for_one zero_for_one s s'
        → lib.min_tick <ℤ (s' +ℤ pos (span lib spacing))
        → s' ≤ℤ lib.max_tick
        → n + 1 < suc fuel
        → Good lib core zero_for_one n tick
            (find_next_initialized_tick_with_nav lib core fuel tick zero_for_one (found_at s'))
    again zero fuel tick s s' later at left near b above below enough =
        absurd (no_room zero_for_one s s' left b above below sized)
    again (suc m) fuel tick s s' later at left near b above below enough =
        Good-suc lib core zero_for_one m tick _ (
          later m
            (record {
              at_start = at;
              left = Beyond-Left lib core zero_for_one zero_for_one m s s' sized b left;
              near = near;
              unmatched = λ h. cc h;
            })
            (omega (arith, enough)))

    onward-Good :
        (n fuel : ℕ) (tick s : ℤ)
        → ((m : ℕ) (s' : ℤ)
            → At lib core zero_for_one m tick (found_at s')
            → m + 1 < fuel
            → Good lib core zero_for_one m tick
                (find_next_initialized_tick_with_nav lib core fuel tick zero_for_one (found_at s')))
        → IsStart lib core zero_for_one s
        → Left lib zero_for_one n s
        → Near lib core zero_for_one zero_for_one s tick
        → n + 1 < suc fuel
        → Good lib core zero_for_one n tick (onward lib core zero_for_one fuel tick s)
    onward-Good n fuel tick s later at left near enough =
        let starts =
          next_start-Starts lib core zero_for_one bitmap sized n fuel s at left
            (omega (arith, enough)) in
        elim (Result-cases (next_initialized_tick_array_start_index lib core fuel s zero_for_one)) [
          | inr (inl (x, e)) ↦ rw (e) (err-Good lib core zero_for_one n tick x)
          | inr (inr (x, e)) ↦ absurd (starts.returns x e)
          | inl (none, e) ↦ rw (e) (err-Good lib core zero_for_one n tick _)
          | inl (some s', e) ↦
              let (at', b) = starts.further s' e in
              let near' = close_onward lib core zero_for_one zero_for_one s s' tick near b in
              elim (Option-cases (loaded_tick_array_by_start_index lib core s')) [
                | inl missing ↦ rw (e, missing) (err-Good lib core zero_for_one n tick _)
                | inr (a, there) ↦
                    let (searchable, loaded, same) =
                      loaded_lem lib core zero_for_one grid bitmap sized all s' a there in
                    elim searchable.first [
                      | inl nothing ↦
                          rw (e, there, nothing)
                            (again n fuel tick s s' (λ m. later m s') at' left near' b
                              (rw (same) at loaded.above) (rw (same) at loaded.below) enough)
                      | inr (t, first, within) ↦
                          let within' : InArray lib spacing s' t = rw (same) at within in
                          rw (e, there, first)
                            (ok-Good lib core zero_for_one grid bitmap sized all n tick t
                              (found_at s')
                              (beyond_further lib core zero_for_one zero_for_one s s' tick near b
                                sized t within')
                              (record {
                                at_start = at';
                                left = Beyond-keeps zero_for_one n s s' left b;
                                near =
                                    close_after_crossing lib core zero_for_one zero_for_one s' t
                                      within';
                                unmatched = λ h. cc h;
                              }))
                    ]
              ]
        ]

    -- A tick whose own array it is does not lie away from it.
    not_away :
        (z : Bool) (s tick : ℤ) → Own lib spacing tick s → ¬ Further lib core zero_for_one z s tick
    not_away true s tick own f = omega (arith, f, rw (own) at (grid.start_above tick))
    not_away false s tick own f = omega (arith, f, rw (own) at (grid.start_below tick))

    find-Good :
        (fuel n : ℕ) (tick : ℤ) (nav : TickNavState)
        → At lib core zero_for_one n tick nav
        → n + 1 < fuel
        → Good lib core zero_for_one n tick
            (find_next_initialized_tick_with_nav lib core fuel tick zero_for_one nav)
    unfolding find_next_initialized_tick_with_nav
    find-Good zero n tick nav at enough = absurd (omega arith)
    find-Good (suc fuel) n tick nav at enough =
        let s = nav.current_valid_tick_array_start_index in
        let further =
          onward-Good n fuel tick s (λ m s'. find-Good fuel m tick (found_at s')) at.at_start
            at.left at.near enough in
        elim (Option-cases (loaded_tick_array_by_start_index lib core s)) [
          | inl missing ↦
              rw (find_next_initialized_tick_with_nav, missing)
                (err-Good lib core zero_for_one n tick _)
          | inr (a, there) ↦
              let (searchable, loaded, same) =
                loaded_lem lib core zero_for_one grid bitmap sized all s a there in
              elim (searchable.next tick) [
                | inr (t, next, (own, within, ahead)) ↦
                    let own' : Own lib spacing tick s = rw (same) at own in
                    let within' : InArray lib spacing s t = rw (same) at within in
                    rw (find_next_initialized_tick_with_nav, there, next)
                      (ok-Good lib core zero_for_one grid bitmap sized all n tick t nav ahead
                        (record {
                          at_start = at.at_start;
                          left = at.left;
                          near =
                              close_after_crossing lib core zero_for_one zero_for_one s t within';
                          unmatched =
                              λ h. absurd (not_away zero_for_one s tick own' (at.unmatched h));
                        }))
                | inl nothing ↦ elim (Bool-cases nav.is_match_pool_current_tick_array) [
                  | inl matched ↦
                      rw (find_next_initialized_tick_with_nav, there, nothing, matched) further
                  | inr unmatched ↦ elim searchable.first [
                    | inl none_first ↦
                        rw
                          (
                            find_next_initialized_tick_with_nav, there, nothing, unmatched,
                            none_first,
                          )
                          further
                    | inr (t, first, within) ↦
                        let within' : InArray lib spacing s t = rw (same) at within in
                        rw (find_next_initialized_tick_with_nav, there, nothing, unmatched, first)
                          (ok-Good lib core zero_for_one grid bitmap sized all n tick t (found_at s)
                            (further_ahead lib core zero_for_one zero_for_one s tick t
                              (at.unmatched unmatched) within')
                            (record {
                              at_start = at.at_start;
                              left = at.left;
                              near =
                                  close_after_crossing lib core zero_for_one zero_for_one s t
                                    within';
                              unmatched = λ h. cc h;
                            }))
                  ]
                ]
              ]
        ]

    -- Over such arrays the search is navigable, on more fuel than the ticks left from where it stands.
    pub search-IsNavigable :
        (n : ℕ) → IsNavigable lib core zero_for_one (n + 2) (At lib core zero_for_one n)
    search-IsNavigable n = record {
      ends =
          λ fuel tick nav at enough. (find-Good fuel n tick nav at (omega (arith, enough))).returns;
      ahead = λ fuel tick t nav nav' at enough h.
          (find-Good fuel n tick nav at (omega (arith, enough))).found t nav' h;
    }
