-- ===== src/ByrealClmm/Swap/Loaded.antt =====
-- `compute_swap` of byreal_clmm/core.rs over loaded arrays that the pool's program has filled.
use native.Mathlib.Nat.{one-le-mul}
use byreal_titan_integration.Base.{
  ℕ, ◌+◌, ◌<◌, ◌≡◌, refl, sym, ◌⊎◌, inl, inr, ℤ, pos, +ℤ_parts, Bool, true, false, [], ◌∷◌, some,
  Result, ok, err, if◌then◌else◌, ok_or, ◌>>=◌, NoFault, if-NoFault, ok-NoFault, bind-NoFault,
  bind-eq-ok, ok_or-NoFault, ok_or-eq-ok, Bool-cases, arith,
}
use byreal_titan_integration.TradingVenue.Error.{Message, text}
use byreal_titan_integration.ByrealClmm.Library.{Library}
use byreal_titan_integration.ByrealClmm.Core.{Core}
use byreal_titan_integration.ByrealClmm.Navigate.{
  called, TickNavState, is_overflow_default_tickarray_bitmap,
  next_initialized_tick_array_start_index, first_initialized_tick_array, init_tick_nav_state,
}
use byreal_titan_integration.ByrealClmm.Swap.{SwapResult, compute_swap}
use byreal_titan_integration.ByrealClmm.Swap.Ends.{Left, IsExactIn}
use byreal_titan_integration.ByrealClmm.Swap.Totals.{limit, IsStarted, Fills, compute_swap_ends}
use byreal_titan_integration.ByrealClmm.Swap.Arrays.{span, IsGrid}
use byreal_titan_integration.ByrealClmm.Swap.Starts.{Beyond, IsBitmap, next_start-Starts}
use byreal_titan_integration.ByrealClmm.Swap.Navigable.{AllArrays, At, Near, Further}
use byreal_titan_integration.ByrealClmm.Swap.Search.{Beyond-keeps, search-IsNavigable}

called-NoFault : {A : Type 0} (r : Message ⊎ A) → NoFault (called r)
called-NoFault (inl e) x h = cc h
called-NoFault (inr a) x h = cc h

called-eq-ok : {A : Type 0} (r : Message ⊎ A) (a : A) → called r ≡ ok a → r ≡ inr a
called-eq-ok (inl e) a h = cc h
called-eq-ok (inr b) a h = cc h

module _ (lib : Library) (core : Core lib) (zero_for_one : Bool) where
  abbrev spacing : ℕ
  spacing = core.pool_state.tick_spacing

  abbrev current_start : ℤ
  current_start = lib.get_array_start_index core.pool_state.tick_current spacing

  -- What the crate says of its two checks of the current array: the start that they give is the array's.
  pub record IsCheck : Type 0 where
    pub extension :
        (e : lib.BitmapExtension) (s : ℤ)
        → core.bitmap_extension ≡ some e
        → lib.check_tick_array_is_initialized e current_start spacing ≡ inr (true, s)
        → s ≡ current_start
    pub default :
        (s : ℤ)
        → lib.check_current_tick_array_is_initialized core.pool_state.tick_array_bitmap
            core.pool_state.tick_current spacing
          ≡ inr (true, s)
        → s ≡ current_start

  abbrev by_extension : Result Message (Bool × ℤ)
  by_extension = do
    bitmap_extension ←
        ok_or core.bitmap_extension (text "Missing tick array bitmap extension account" ∷ [])
    called (lib.check_tick_array_is_initialized bitmap_extension current_start spacing)

  abbrev by_default : Result Message (Bool × ℤ)
  by_default = called (
      lib.check_current_tick_array_is_initialized core.pool_state.tick_array_bitmap
        core.pool_state.tick_current spacing)

  abbrev overflows : Bool
  overflows = is_overflow_default_tickarray_bitmap lib core core.pool_state.tick_current

  abbrev checked : Result Message (Bool × ℤ)
  checked = if overflows then by_extension else by_default

  checked-NoFault : NoFault checked
  checked-NoFault =
      if-NoFault overflows by_extension by_default
        (bind-NoFault (ok_or core.bitmap_extension _) _ (ok_or-NoFault core.bitmap_extension _)
          (λ e h. called-NoFault _))
        (called-NoFault _)

  checked_start : IsCheck → (s : ℤ) → checked ≡ ok (true, s) → s ≡ current_start
  checked_start check s h = elim (Bool-cases overflows) [
    | inl over ↦
        let (e, e0, h') = bind-eq-ok (ok_or core.bitmap_extension _) _ (true, s) (rw (over) at h) in
        check.extension e s (ok_or-eq-ok core.bitmap_extension _ e0) (called-eq-ok _ (true, s) h')
    | inr within ↦ check.default s (called-eq-ok _ (true, s) (rw (within) at h))
  ]

  abbrev started_at : ℕ → Bool × ℤ → Result Message (Bool × ℤ)
  started_at fuel (is_initialized, start_index) = elim is_initialized [
    | true ↦ ok (true, start_index)
    | false ↦ do
      next_start ← next_initialized_tick_array_start_index lib core fuel current_start zero_for_one
      start ←
          ok_or next_start
            (text "Liquidity insufficient: no initialized tick array for direction" ∷ [])
      ok (false, start)
  ]

  first_is :
      (fuel : ℕ)
      → first_initialized_tick_array lib core fuel zero_for_one ≡ (checked >>= started_at fuel)
  unfolding first_initialized_tick_array
  first_is fuel = refl

  abbrev nav_of : Bool × ℤ → TickNavState
  nav_of (is_match, s) = record {
    is_match_pool_current_tick_array = is_match;
    current_valid_tick_array_start_index = s;
  }

  pub Left-start :
      (z : Bool) (n : ℕ)
      → IsGrid lib spacing
      → Left lib z n core.pool_state.tick_current
      → Left lib z (n + span lib spacing) current_start
  Left-start true n grid left = omega (
    arith,
    left,
    grid.start_below core.pool_state.tick_current,
    +ℤ_parts lib.min_tick (pos n),
    +ℤ_parts lib.min_tick (pos (n + span lib spacing)),
  )
  Left-start false n grid left = omega (
    arith,
    left,
    grid.start_above core.pool_state.tick_current,
    +ℤ_parts core.pool_state.tick_current (pos n),
    +ℤ_parts current_start (pos (span lib spacing)),
    +ℤ_parts current_start (pos (n + span lib spacing)),
  )

  beside_pool :
      (z : Bool)
      → IsGrid lib spacing
      → Near lib core zero_for_one z current_start core.pool_state.tick_current
  beside_pool true grid = omega (
    arith,
    grid.start_below core.pool_state.tick_current,
    +ℤ_parts core.pool_state.tick_current (pos 1),
  )
  beside_pool false grid = grid.start_above core.pool_state.tick_current

  past_pool :
      (z : Bool) (s : ℤ)
      → IsGrid lib spacing
      → Beyond lib core zero_for_one z current_start s
      → Near lib core zero_for_one z s core.pool_state.tick_current
        × Further lib core zero_for_one z s core.pool_state.tick_current
  past_pool true s grid b = (
    omega (
      arith,
      b,
      grid.start_below core.pool_state.tick_current,
      +ℤ_parts core.pool_state.tick_current (pos 1),
      +ℤ_parts s (pos (span lib spacing)),
    ),
    omega (arith, b, grid.start_below core.pool_state.tick_current),
  )
  past_pool false s grid b = (
    omega (
      arith,
      b,
      grid.start_above core.pool_state.tick_current,
      +ℤ_parts s (pos (span lib spacing)),
    ),
    omega (arith, b, grid.start_above core.pool_state.tick_current),
  )

  module _ (grid : IsGrid lib spacing) (bitmap : IsBitmap lib core zero_for_one) (check : IsCheck)
      (n : ℕ) (left : Left lib zero_for_one n current_start) where
    sized : 0 < span lib spacing
    sized = one-le-mul grid.sized grid.spaced

    abbrev Here : TickNavState → Type 0
    Here = At lib core zero_for_one n core.pool_state.tick_current

    started_at-NoFault : (fuel : ℕ) (r : Bool × ℤ) → n < fuel → NoFault (started_at fuel r)
    started_at-NoFault fuel (true, s) enough = ok-NoFault (true, s)
    started_at-NoFault fuel (false, s) enough =
        bind-NoFault
          (next_initialized_tick_array_start_index lib core fuel current_start zero_for_one) _
          (next_start-Starts lib core zero_for_one bitmap sized n fuel current_start
            (grid.start_again core.pool_state.tick_current) left enough).returns
          (λ o e.
            bind-NoFault (ok_or o _) _ (ok_or-NoFault o _) (λ start e'. ok-NoFault (false, start)))

    started_at-Here :
        (fuel : ℕ) (r found : Bool × ℤ)
        → n < fuel
        → checked ≡ ok r
        → started_at fuel r ≡ ok found
        → Here (nav_of found)
    started_at-Here fuel (true, s) found enough is_checked h =
        let same : (true, s) ≡ found = cc h in
        let at : s ≡ current_start = checked_start check s is_checked in
        rw (sym same, at)
          (record {
            at_start = grid.start_again core.pool_state.tick_current;
            left = left;
            near = beside_pool zero_for_one grid;
            unmatched = λ h. cc h;
          })
    started_at-Here fuel (false, s) found enough is_checked h =
        let (o, e, h1) =
          bind-eq-ok
            (next_initialized_tick_array_start_index lib core fuel current_start zero_for_one) _
            found h in
        let (start, e', h2) = bind-eq-ok (ok_or o _) _ found h1 in
        let same : (false, start) ≡ found = cc h2 in
        let some_start : o ≡ some start = ok_or-eq-ok o _ e' in
        let (at, b) =
          (next_start-Starts lib core zero_for_one bitmap sized n fuel current_start
              (grid.start_again core.pool_state.tick_current) left enough).further
            start (rw (some_start) at e) in
        let (near, further) = past_pool zero_for_one start grid b in
        rw (sym same) (record {
          at_start = at;
          left = Beyond-keeps lib core zero_for_one zero_for_one n current_start start left b;
          near = near;
          unmatched = λ h. further;
        })

    pub init-IsStarted :
        (timestamp : ℤ)
        → IsStarted lib core zero_for_one timestamp (n + 2) (At lib core zero_for_one n)
    unfolding init_tick_nav_state
    init-IsStarted timestamp = record {
      ends = λ fuel enough.
          bind-NoFault (first_initialized_tick_array lib core fuel zero_for_one) _
            (rw (first_is fuel) (
              bind-NoFault checked (started_at fuel) checked-NoFault
                (λ r e. started_at-NoFault fuel r (omega (arith, enough)))))
            (λ r e. ok-NoFault (nav_of r));
      starts = λ fuel nav enough h.
          let (found, e, h1) =
            bind-eq-ok (first_initialized_tick_array lib core fuel zero_for_one) _ nav h in
          let (r, is_checked, h2) =
            bind-eq-ok checked (started_at fuel) found (rw (first_is fuel) at e) in
          let same : nav_of found ≡ nav = cc h1 in
          rw (sym same) (started_at-Here fuel r found (omega (arith, enough)) is_checked h2);
    }

  -- Where the crate's grid of arrays, bitmaps and checks are what it says of them, every loaded array is one that the
  -- pool's program has filled, a step of the crate arrives at its target or takes all that remains, and at most `n` ticks
  -- lie ahead of the pool's tick, the swap ends on fuel that is more than twice `n` and the width of an array and two
  -- together: with an error, or with a result that takes at most the request, and less only where the price has come to
  -- the limit.
  pub loaded_swap_ends :
      (timestamp : ℤ) (n fuel amount_specified : ℕ)
      → IsGrid lib spacing
      → IsBitmap lib core zero_for_one
      → IsCheck
      → AllArrays lib core zero_for_one core.dynamic_tick_arrays
      → ((fee_rate : ℕ)
          → IsExactIn lib core zero_for_one fee_rate
              (limit lib core zero_for_one timestamp)
              timestamp)
      → Left lib zero_for_one n core.pool_state.tick_current
      → n + n + span lib spacing + 2 < fuel
      → ((e : Message) × (compute_swap lib core fuel zero_for_one amount_specified timestamp
            ≡ err e))
        ⊎ ((result : SwapResult) × (compute_swap lib core fuel zero_for_one amount_specified
                timestamp
              ≡ ok result)
            × Fills lib core zero_for_one timestamp amount_specified result)
  loaded_swap_ends timestamp n fuel amount_specified grid bitmap check arrays exact left enough =
      let m = n + span lib spacing in
      compute_swap_ends lib core zero_for_one timestamp (m + 2) n fuel amount_specified
        (At lib core zero_for_one m)
        (search-IsNavigable lib core zero_for_one grid bitmap (one-le-mul grid.sized grid.spaced)
          arrays m)
        (init-IsStarted grid bitmap check m (Left-start zero_for_one n grid left) timestamp) exact
        left (omega (arith, enough))
