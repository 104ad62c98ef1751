-- ===== src/ByrealClmm/TickArrays/Live.antt =====
-- What `live_directional_tick_arrays` keeps of the arrays of a direction.
use byreal_titan_integration.Base.{
  ℕ, zero, suc, ◌+◌, ◌≤◌, ◌≡◌, refl, ap, ◌∙◌, inl, inr, Bool, List, [], ◌∷◌, ◌++◌, map, length,
  length-map, ℤ, none, some, Bool-cases, Sum-cases, Map, contains_key, ok, err, if◌then◌else◌,
  arith, ◌-◌,
}
use mathlib.Core.List.{append_assoc, append-nil}
use byreal_titan_integration.TradingVenue.Error.{Pubkey, text, key, missing_state, string}
use byreal_titan_integration.ByrealClmm.Library.{Library}
use byreal_titan_integration.ByrealClmm.Core.{Core, get_tick_array_address}
use byreal_titan_integration.ByrealClmm.TickArrays.{
  next_starts, fallback_starts, swap_starts, get_swap_tick_arrays, live_loop,
  live_directional_tick_arrays,
}

-- The arrays that are loaded, in order.
abbrev pub loaded_of : {V : Type 0} → Map V → List Pubkey → List Pubkey
loaded_of m [] = []
loaded_of m (k ∷ ks) = let rest = loaded_of m ks in if contains_key m k then k ∷ rest else rest

module _ (lib : Library) (core : Core lib) where
  live_loop_some :
      (ks : List Pubkey) (a : Pubkey) (live : List Pubkey)
      → live_loop lib core ks (a ∷ live) ≡ ok ((a ∷ live) ++ loaded_of core.dynamic_tick_arrays ks)
  unfolding live_loop
  live_loop_some [] a live = rw (append-nil live) refl
  live_loop_some (k ∷ ks) a live = elim (Bool-cases (contains_key core.dynamic_tick_arrays k)) [
    | inl loaded ↦
        let e : (live ++ k ∷ []) ++ loaded_of core.dynamic_tick_arrays ks
            ≡ live ++ k ∷ loaded_of core.dynamic_tick_arrays ks =
          append_assoc live (k ∷ []) (loaded_of core.dynamic_tick_arrays ks) in
        rw (live_loop, loaded) (live_loop_some ks a (live ++ k ∷ []) ∙ ap (λ l. ok (a ∷ l)) e)
    | inr absent ↦ rw (live_loop, absent) (live_loop_some ks a live)
  ]

  length-next_starts :
      (n : ℕ) (current : ℤ) (zero_for_one : Bool)
      → length (next_starts lib core n current zero_for_one) ≤ n
  unfolding next_starts
  length-next_starts zero current zero_for_one = omega arith
  length-next_starts (suc n) current zero_for_one =
      elim (Sum-cases (
        lib.next_initialized_tick_array_start_index core.pool_state core.bitmap_extension current
          zero_for_one)) [
            | inl (x, e) ↦ rw (next_starts, e) (omega arith)
            | inr (none, e) ↦ rw (next_starts, e) (omega arith)
            | inr (some next, e) ↦
                rw (next_starts, e) (omega (arith, length-next_starts n next zero_for_one))
          ]

  length-fallback_starts :
      (zero_for_one : Bool) (n i : ℕ) → length (fallback_starts lib core zero_for_one n i) ≤ n
  unfolding fallback_starts
  length-fallback_starts zero_for_one zero i = omega arith
  length-fallback_starts zero_for_one (suc n) i =
      omega (arith, length-fallback_starts zero_for_one n (i + 1))

  -- The arrays of a direction begin with one, and are at most as many as the limit.
  pub get_swap_tick_arrays_lem :
      (zero_for_one : Bool)
      → (first : Pubkey) × (rest : List Pubkey) × (get_swap_tick_arrays lib core zero_for_one
          ≡ first ∷ rest)
        × (length rest ≤ core.max_one_side_tick_arrays - 1)
  unfolding get_swap_tick_arrays swap_starts
  get_swap_tick_arrays_lem zero_for_one =
      let address = get_tick_array_address lib core in
      let limit = core.max_one_side_tick_arrays - 1 in
      elim (Sum-cases
        (lib.get_first_initialized_tick_array core.pool_state core.bitmap_extension zero_for_one)) [
          | inl (x, e) ↦
              let rest = fallback_starts lib core zero_for_one limit 1 in
              (
                address (
                    lib.get_array_start_index core.pool_state.tick_current
                      core.pool_state.tick_spacing),
                map address rest,
                rw (get_swap_tick_arrays, swap_starts, e) refl,
                rw (length-map address rest) (length-fallback_starts zero_for_one limit 1),
              )
          | inr ((initialized, first), e) ↦
              let rest = next_starts lib core limit first zero_for_one in
              (
                address first,
                map address rest,
                rw (get_swap_tick_arrays, swap_starts, e) refl,
                rw (length-map address rest) (length-next_starts limit first zero_for_one),
              )
        ]

  -- The live arrays of a direction are its arrays that are loaded, in order, if the first of them is; otherwise there is
  -- an error that names the first.
  pub live_directional_tick_arrays_lem :
      (zero_for_one : Bool) (first : Pubkey) (rest : List Pubkey)
      → get_swap_tick_arrays lib core zero_for_one ≡ first ∷ rest
      → live_directional_tick_arrays lib core zero_for_one ≡ (
          if contains_key core.dynamic_tick_arrays first
          then ok (first ∷ loaded_of core.dynamic_tick_arrays rest)
          else err (
              missing_state (
                string (
                  text "directional first tick array account missing for swap: "
                  ∷ key first
                  ∷ []))))
  unfolding live_directional_tick_arrays live_loop
  live_directional_tick_arrays_lem zero_for_one first rest e =
      elim (Bool-cases (contains_key core.dynamic_tick_arrays first)) [
        | inl loaded ↦ rw (live_directional_tick_arrays, e, loaded) (live_loop_some rest first [])
        | inr absent ↦ rw (live_directional_tick_arrays, e, absent) refl
      ]
