-- ===== src/ByrealClmm/Update/Addresses.antt =====
-- The addresses of the tick arrays do not depend on the arrays that are loaded.
use std.Path.{ap₂}
use byreal_titan_integration.Base.{
  ℕ, zero, suc, ◌+◌, ◌-◌, [], ℤ, ◌≡◌, refl, ap, ◌∙◌, ◌||◌, not, if◌then◌else◌, Bool, true, false,
  List, inl, inr, none, some, Map, ◌∷◌, Sum-cases,
}
use byreal_titan_integration.ByrealClmm.Library.{Library}
use byreal_titan_integration.ByrealClmm.Core.{Core, get_tick_array_address}
use byreal_titan_integration.ByrealClmm.TickArray.{DynamicTickArrayState}
use byreal_titan_integration.ByrealClmm.TickArrays.{
  next_starts, collect_dir, fallback_start, insert_all,
}
use byreal_titan_integration.ByrealClmm.Keys.{
  fallback_set, all_starts, get_all_tick_array_addresses,
}

module _ (lib : Library) (core : Core lib) (arrays : Map (DynamicTickArrayState lib)) where
  abbrev changed : Core lib
  changed = record core { dynamic_tick_arrays = arrays }

  next_starts-same :
      (n : ℕ) (current : ℤ) (zero_for_one : Bool)
      → next_starts lib changed n current zero_for_one ≡ next_starts lib core n current zero_for_one
  unfolding next_starts
  next_starts-same zero current zero_for_one = refl
  next_starts-same (suc n) current zero_for_one =
      elim (Sum-cases (
        lib.next_initialized_tick_array_start_index core.pool_state core.bitmap_extension current
          zero_for_one)) [
            | inl (x, failed) ↦ rw (next_starts, failed) refl
            | inr (none, found) ↦ rw (next_starts, found) refl
            | inr (some next, found) ↦
                rw (next_starts, found)
                  (ap (λ starts. next ∷ starts) (next_starts-same n next zero_for_one))
          ]

  fallback_set-same :
      (n i : ℕ) (set : List ℤ) → fallback_set lib changed n i set ≡ fallback_set lib core n i set
  unfolding fallback_set fallback_start
  fallback_set-same zero i set = refl
  fallback_set-same (suc n) i set = fallback_set-same n (i + 1) _

  collect_dir-same :
      (zero_for_one : Bool) (limit : ℕ) (set : List ℤ)
      → collect_dir lib changed zero_for_one limit set ≡ collect_dir lib core zero_for_one limit set
  unfolding collect_dir
  collect_dir-same zero_for_one zero set = refl
  collect_dir-same zero_for_one (suc n) set =
      elim (Sum-cases
        (lib.get_first_initialized_tick_array core.pool_state core.bitmap_extension zero_for_one)) [
          | inl (x, failed) ↦ rw (collect_dir, failed) refl
          | inr ((initialized, start), found) ↦
              rw (collect_dir, found)
                (ap (λ starts. insert_all (start ∷ starts) set)
                  (next_starts-same n start zero_for_one))
        ]

  all_starts-same : all_starts lib changed ≡ all_starts lib core
  unfolding all_starts
  all_starts-same =
      ap₂ (λ collected fallback. or_fallback (if usable then collected else []) fallback)
        (collect_dir-same false limit (collect_dir lib changed true limit [])
          ∙ ap (collect_dir lib core false limit) (collect_dir-same true limit []))
        (fallback_set-same (limit - 1) 1 (
          lib.get_array_start_index core.pool_state.tick_current core.pool_state.tick_spacing ∷ []))
    where
      limit : ℕ
      limit = core.max_one_side_tick_arrays

      usable : Bool
      usable =
          elim core.bitmap_extension [ some e ↦ true | none ↦ false ]
          || not (
              lib.is_overflow_default_tickarray_bitmap core.pool_state
                (core.pool_state.tick_current ∷ []))

      or_fallback : List ℤ → List ℤ → List ℤ
      or_fallback collected fallback = elim collected [ [] ↦ fallback | a ∷ rest ↦ a ∷ rest ]

  pub get_all_tick_array_addresses-same :
      get_all_tick_array_addresses lib changed ≡ get_all_tick_array_addresses lib core
  unfolding get_all_tick_array_addresses get_tick_array_address
  get_all_tick_array_addresses-same = rw (all_starts-same) refl
