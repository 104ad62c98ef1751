-- ===== src/ByrealClmm/Swap/Starts.antt =====
-- How byreal_clmm/core.rs goes from one initialized tick array to the next, when the bitmaps' searches go on.
use byreal_titan_integration.Base.{
  ℕ, zero, suc, ◌<◌, ◌≡◌, refl, sym, inl, inr, ℤ, pos, ◌+ℤ◌, ◌≤ℤ◌, ◌<ℤ◌, ltb_ℤ, +ℤ_parts, Bool,
  true, false, ◌||◌, Option, none, some, Result, ok, err, NoFault, Bool-cases, Sum-cases, ◌>>=◌,
  ok_or, [], ◌∷◌, arith,
}
use byreal_titan_integration.TradingVenue.Error.{Message, text}
use byreal_titan_integration.ByrealClmm.Library.{Library}
use byreal_titan_integration.ByrealClmm.Core.{Core}
use byreal_titan_integration.ByrealClmm.Navigate.{
  called, next_start_loop, next_initialized_tick_array_start_index,
}
use byreal_titan_integration.ByrealClmm.Swap.Ends.{Left}
use byreal_titan_integration.ByrealClmm.Swap.Arrays.{span}

module _ (lib : Library) (core : Core lib) (zero_for_one : Bool) where
  abbrev pub spacing : ℕ
  spacing = core.pool_state.tick_spacing

  abbrev pub IsStart : ℤ → Type 0
  IsStart s = lib.get_array_start_index s spacing ≡ s

  -- `s` lies at least one array further than `last`.
  abbrev pub Beyond : Bool → ℤ → ℤ → Type 0
  Beyond true last s = (s +ℤ pos (span lib spacing)) ≤ℤ last
  Beyond false last s = (last +ℤ pos (span lib spacing)) ≤ℤ s

  abbrev pub NotBehind : Bool → ℤ → ℤ → Type 0
  NotBehind true last s = s ≤ℤ last
  NotBehind false last s = last ≤ℤ s

  abbrev pub in_bitmap : ℤ → Bool × ℤ
  in_bitmap last =
      lib.next_tick_array_in_bitmap core.pool_state.tick_array_bitmap last spacing zero_for_one

  -- What the crate says of its searches from the start of an array: they go on to the start of a further array, which is
  -- initialized if they find one; where the pool's own bitmap has none, they may stay.
  pub record IsBitmap : Type 0 where
    pub finds :
        (last : ℤ)
        → IsStart last
        → (in_bitmap last).0 ≡ true
        → IsStart (in_bitmap last).1 × Beyond zero_for_one last (in_bitmap last).1
    pub misses :
        (last : ℤ)
        → IsStart last
        → (in_bitmap last).0 ≡ false
        → IsStart (in_bitmap last).1 × NotBehind zero_for_one last (in_bitmap last).1
    pub extends :
        (e : lib.BitmapExtension) (last s : ℤ) (found : Bool)
        → core.bitmap_extension ≡ some e
        → IsStart last
        → lib.next_initialized_tick_array_from_one_bitmap e last spacing zero_for_one
          ≡ inr (found, s)
        → IsStart s × Beyond zero_for_one last s

  abbrev outside : ℤ → Bool
  outside s = ltb_ℤ s lib.min_tick || ltb_ℤ lib.max_tick s

  Beyond-NotBehind :
      (z : Bool) (last mid s : ℤ) → NotBehind z last mid → Beyond z mid s → Beyond z last s
  Beyond-NotBehind true last mid s a b = omega arith
  Beyond-NotBehind false last mid s a b =
      omega (arith, +ℤ_parts last (pos (span lib spacing)), +ℤ_parts mid (pos (span lib spacing)))

  Beyond-trans : (z : Bool) (last mid s : ℤ) → Beyond z last mid → Beyond z mid s → Beyond z last s
  Beyond-trans true last mid s a b =
      omega
        (arith, a, b, +ℤ_parts mid (pos (span lib spacing)), +ℤ_parts s (pos (span lib spacing)))
  Beyond-trans false last mid s a b =
      omega
        (arith, a, b, +ℤ_parts last (pos (span lib spacing)), +ℤ_parts mid (pos (span lib spacing)))

  -- One array further on, one tick less is left at least.
  pub Beyond-Left :
      (z : Bool) (n : ℕ) (last s : ℤ)
      → 0 < span lib spacing
      → Beyond z last s
      → Left lib z (suc n) last
      → Left lib z n s
  Beyond-Left true n last s sized b left = omega (
    arith,
    +ℤ_parts s (pos (span lib spacing)),
    +ℤ_parts lib.min_tick (pos (suc n)),
    +ℤ_parts lib.min_tick (pos n),
  )
  Beyond-Left false n last s sized b left = omega (
    arith,
    +ℤ_parts last (pos (span lib spacing)),
    +ℤ_parts last (pos (suc n)),
    +ℤ_parts s (pos n),
  )

  Beyond-outside :
      (z : Bool) (last s : ℤ)
      → 0 < span lib spacing
      → Beyond z last s
      → Left lib z 0 last
      → outside s ≡ true
  Beyond-outside true last s sized b left =
      let below : s <ℤ lib.min_tick = omega (
        arith,
        b,
        left,
        sized,
        +ℤ_parts s (pos (span lib spacing)),
        +ℤ_parts lib.min_tick (pos 0),
      ) in
      ground (arith, below)
  Beyond-outside false last s sized b left =
      let above : lib.max_tick <ℤ s =
        omega
          (arith, b, left, sized, +ℤ_parts last (pos (span lib spacing)), +ℤ_parts last (pos 0)) in
      ground (arith, above)

  -- The search of the next array returns; what it finds is the start of an array further on.
  pub record Starts (last : ℤ) (r : Result Message (Option ℤ)) : Type 0 where
    pub returns : NoFault r
    pub further : (s : ℤ) → r ≡ ok (some s) → IsStart s × Beyond zero_for_one last s

  ok-Starts :
      (last : ℤ) (o : Option ℤ)
      → ((s : ℤ) → o ≡ some s → IsStart s × Beyond zero_for_one last s)
      → Starts last (ok o)
  ok-Starts last o h = record { returns = λ x e. cc e; further = λ s e. h s (cc e) }

  err-Starts : (last : ℤ) (e : Message) → Starts last (err e)
  err-Starts last e = record { returns = λ x h. cc h; further = λ s h. cc h }

  -- A round of the loop, where the pool's own bitmap has led to `start` and has none.
  abbrev elsewhere : ℕ → Option lib.BitmapExtension → ℤ → Result Message (Option ℤ)
  elsewhere fuel extension start = do
    bitmap_extension ← ok_or extension (text "Missing tick array bitmap extension account" ∷ [])
    (found', start') ← called (
        lib.next_initialized_tick_array_from_one_bitmap bitmap_extension start spacing zero_for_one)
    elim found' [
      | true ↦ ok (some start')
      | false ↦ elim (ltb_ℤ start' lib.min_tick || ltb_ℤ lib.max_tick start') [
        | true ↦ ok none
        | false ↦ next_start_loop lib core fuel start' zero_for_one
      ]
    ]

  loop_found :
      (fuel : ℕ) (last : ℤ)
      → (in_bitmap last).0 ≡ true
      → next_start_loop lib core (suc fuel) last zero_for_one ≡ ok (some (in_bitmap last).1)
  unfolding next_start_loop
  loop_found fuel last found = rw (next_start_loop, found) refl

  loop_missed :
      (fuel : ℕ) (last : ℤ)
      → (in_bitmap last).0 ≡ false
      → next_start_loop lib core (suc fuel) last zero_for_one
        ≡ elsewhere fuel core.bitmap_extension (in_bitmap last).1
  unfolding next_start_loop
  loop_missed fuel last missed = rw (next_start_loop, missed) refl

  Starts-later :
      (last mid : ℤ) (r : Result Message (Option ℤ))
      → Beyond zero_for_one last mid
      → Starts mid r
      → Starts last r
  Starts-later last mid r b starts = record {
    returns = starts.returns;
    further =
        λ s e. let (at, b') = starts.further s e in (at, Beyond-trans zero_for_one last mid s b b');
  }

  module _ (bitmap : IsBitmap) (sized : 0 < span lib spacing) where
    -- The state after a miss in the extension: no tick is left, or the loop goes on.
    missed-Starts :
        (n fuel : ℕ) (last s : ℤ)
        → ((m : ℕ)
            → IsStart s
            → Left lib zero_for_one m s
            → m < fuel
            → Starts s (next_start_loop lib core fuel s zero_for_one))
        → IsStart s
        → Beyond zero_for_one last s
        → Left lib zero_for_one n last
        → n < suc fuel
        → outside s ≡ false
        → Starts last (next_start_loop lib core fuel s zero_for_one)
    missed-Starts zero fuel last s later at b left enough inside =
        cc (Beyond-outside zero_for_one last s sized b left, inside)
    missed-Starts (suc n) fuel last s later at b left enough inside =
        Starts-later last s _ b
          (later n at (Beyond-Left zero_for_one n last s sized b left) (omega (arith, enough)))

    stop_or_go_on :
        (n fuel : ℕ) (last s : ℤ) (out : Bool)
        → outside s ≡ out
        → ((m : ℕ)
            → IsStart s
            → Left lib zero_for_one m s
            → m < fuel
            → Starts s (next_start_loop lib core fuel s zero_for_one))
        → IsStart s
        → Beyond zero_for_one last s
        → Left lib zero_for_one n last
        → n < suc fuel
        → Starts last
            (elim out [ true ↦ ok none | false ↦ next_start_loop lib core fuel s zero_for_one ])
    stop_or_go_on n fuel last s true e later at b left enough = ok-Starts last none (λ s' e'. cc e')
    stop_or_go_on n fuel last s false e later at b left enough =
        missed-Starts n fuel last s later at b left enough e

    elsewhere-Starts :
        (n fuel : ℕ) (last start : ℤ) (o : Option lib.BitmapExtension)
        → core.bitmap_extension ≡ o
        → ((m : ℕ) (s : ℤ)
            → IsStart s
            → Left lib zero_for_one m s
            → m < fuel
            → Starts s (next_start_loop lib core fuel s zero_for_one))
        → IsStart start
        → NotBehind zero_for_one last start
        → Left lib zero_for_one n last
        → n < suc fuel
        → Starts last (elsewhere fuel o start)
    elsewhere-Starts n fuel last start none there later at nb left enough = err-Starts last _
    elsewhere-Starts n fuel last start (some e) there later at nb left enough =
        elim (Sum-cases
          (lib.next_initialized_tick_array_from_one_bitmap e start spacing zero_for_one)) [
            | inl (x, failed) ↦ rw (failed) (err-Starts last x)
            | inr ((true, s), found) ↦
                let (at_s, b) = bitmap.extends e start s true there at found in
                rw (found) (
                  ok-Starts last (some s) (λ s' e'.
                    let same : s ≡ s' = cc e' in
                    rw (sym same) (at_s, Beyond-NotBehind zero_for_one last start s nb b)))
            | inr ((false, s), missed) ↦
                let (at_s, b) = bitmap.extends e start s false there at missed in
                let b' = Beyond-NotBehind zero_for_one last start s nb b in
                rw (missed) (
                  stop_or_go_on n fuel last s (outside s) refl (λ m. later m s) at_s b' left enough)
          ]

    next_start_loop-Starts :
        (n fuel : ℕ) (last : ℤ)
        → IsStart last
        → Left lib zero_for_one n last
        → n < fuel
        → Starts last (next_start_loop lib core fuel last zero_for_one)
    next_start_loop-Starts n zero last at left enough = absurd (omega arith)
    next_start_loop-Starts n (suc fuel) last at left enough = elim (Bool-cases (in_bitmap last).0) [
      | inl found ↦ rw (loop_found fuel last found) (
          ok-Starts last (some (in_bitmap last).1) (λ s e.
            let same : (in_bitmap last).1 ≡ s = cc e in rw (sym same) (bitmap.finds last at found)))
      | inr missed ↦
          let (at_start, nb) = bitmap.misses last at missed in
          rw (loop_missed fuel last missed) (
            elsewhere-Starts n fuel last (in_bitmap last).1 core.bitmap_extension refl
              (λ m s. next_start_loop-Starts m fuel s) at_start nb left enough)
    ]

    -- The search from the start of an array returns on more fuel than ticks are left, and finds only the start of an array
    -- further on.
    pub next_start-Starts :
        (n fuel : ℕ) (last : ℤ)
        → IsStart last
        → Left lib zero_for_one n last
        → n < fuel
        → Starts last (next_initialized_tick_array_start_index lib core fuel last zero_for_one)
    unfolding next_initialized_tick_array_start_index
    next_start-Starts n fuel last at left enough =
        rw (next_initialized_tick_array_start_index, at)
          (next_start_loop-Starts n fuel last at left enough)
