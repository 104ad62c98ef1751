-- ===== src/ByrealClmm/TickArray.antt =====
-- `FixedTickArraySnapshot` and `DynamicTickArrayState` of byreal_clmm/core.rs.
pub mod Scan
use byreal_titan_integration.Base.{
  ℕ, zero, suc, ◌+◌, ◌-◌, ◌*◌, ◌/◌, ◌%◌, ◌^◌, ℤ, pos, negsuc, ◌-ℤ◌, ◌+ℤ◌, pos_part, neg_part, eqb_ℤ,
  Bool, true, false, not, ◌||◌, List, [], ◌∷◌, Option, none, some, ◌⊎◌, inl, inr, Result, ok, err,
  or_panic, Fault, fault, panic, ◌>>=◌, length, get_elem?, take, drop, ltb, ◌==◌, if◌then◌else◌,
  from_le_bytes,
}
use byreal_titan_integration.TradingVenue.Error.{Message}
use byreal_titan_integration.ByrealClmm.Library.{Library, TickState}

pub record FixedTickArraySnapshot : Type 0 where
  pub start_tick_index : ℤ
  pub ticks : List TickState

pub data DynamicTickArrayState (lib : Library) : Type 0 where
  dynamic : lib.DynTickArrayHeader → List TickState → DynamicTickArrayState lib
  fixed : FixedTickArraySnapshot → DynamicTickArrayState lib

-- The quotient of i32s, towards zero; what the division of i32::MIN by -1 does is out of reach of a u16 divisor.
abbrev pub div_trunc : ℤ → ℕ → ℤ
div_trunc (pos a) b = pos (a / b)
div_trunc (negsuc a) b = pos 0 -ℤ pos (suc a / b)

-- The bytes of an i32.
abbrev pub i32_from_le : List ℕ → ℤ
i32_from_le bytes =
    let n = from_le_bytes bytes in if ltb n (2 ^ 31) then pos n else pos n -ℤ pos (2 ^ 32)

-- `bytes` in pieces of `size`, `n` of them.
unfoldable pub chunks : (n size : ℕ) → List ℕ → List (List ℕ)
chunks zero size bytes = []
chunks (suc n) size bytes = take size bytes ∷ chunks n size (drop size bytes)

abbrev pub bytes_eq : List ℕ → List ℕ → Bool
bytes_eq [] [] = true
bytes_eq [] (b ∷ bs) = false
bytes_eq (a ∷ more) [] = false
bytes_eq (a ∷ more) (b ∷ bs) = let rest = bytes_eq more bs in if a == b then rest else false

module _ (lib : Library) where
  abbrev pub read_ticks : ℕ → List ℕ → List TickState
  read_ticks n bytes = read_all (chunks n lib.tick_state_len bytes)
    where
      read_all : List (List ℕ) → List TickState
      read_all [] = []
      read_all (b ∷ bs) = lib.read_tick_state b ∷ read_all bs

  -- `FixedTickArraySnapshot::from_account_data`
  unfoldable pub fixed_from_account_data : List ℕ → Option FixedTickArraySnapshot
  fixed_from_account_data bytes =
      if ltb (length bytes) 8
      then none
      else (let body = drop 8 bytes in
          if ltb (length body) (36 + lib.tick_state_len * lib.tick_array_size)
          then none
          else some (record {
            start_tick_index = i32_from_le (take 4 (drop 32 body));
            ticks = read_ticks lib.tick_array_size (drop 36 body);
          }))

  unfoldable pub tick_offset : FixedTickArraySnapshot → ℤ → ℕ → Option ℕ
  tick_offset ta tick_index spacing =
      if not (eqb_ℤ (lib.get_array_start_index tick_index spacing) ta.start_tick_index)
      then none
      else elim (lib.get_tick_offset_in_tick_array ta.start_tick_index tick_index spacing) [
        | inr o ↦ some o
        | inl e ↦ none
      ]

  -- A round of a scan: the tick there, if it is initialized, or what the `rest` finds.
  abbrev pub visit : Option TickState → Result Message (Option ℤ) → Result Message (Option ℤ)
  visit none rest = fault panic
  visit (some tick) rest = if lib.tick_is_initialized tick then ok (some tick.tick) else rest

  -- `while offset >= 0`, from the offset `n` down.
  unfoldable pub scan_down : List TickState → (n : ℕ) → Result Message (Option ℤ)
  scan_down ticks zero = visit (get_elem? ticks zero) (ok none)
  scan_down ticks (suc n) = let rest = scan_down ticks n in visit (get_elem? ticks (suc n)) rest

  -- `while offset < TICK_ARRAY_SIZE`, from the offset `i` up, with `n` rounds left.
  unfoldable pub scan_up : List TickState → (n i : ℕ) → Result Message (Option ℤ)
  scan_up ticks zero i = ok none
  scan_up ticks (suc n) i = let rest = scan_up ticks n (i + 1) in visit (get_elem? ticks i) rest

  unfoldable pub fixed_next_initialized_tick :
      FixedTickArraySnapshot
      → (current_tick_index : ℤ) → (tick_spacing : ℕ) → Bool
      → Result Message (Option ℤ)
  fixed_next_initialized_tick ta current_tick_index tick_spacing zero_for_one =
      if not (eqb_ℤ (lib.get_array_start_index current_tick_index tick_spacing) ta.start_tick_index)
      then ok none
      else if tick_spacing == 0
      then fault panic
      else scan (div_trunc (current_tick_index -ℤ ta.start_tick_index) tick_spacing) zero_for_one
    where
      scan : ℤ → Bool → Result Message (Option ℤ)
      scan (pos offset) true = scan_down ta.ticks offset
      scan (negsuc offset) true = ok none
      scan (pos offset) false = scan_up ta.ticks (lib.tick_array_size - (offset + 1)) (offset + 1)
      scan (negsuc zero) false = scan_up ta.ticks lib.tick_array_size 0
      scan (negsuc (suc offset)) false = fault panic

  unfoldable pub fixed_first_initialized_tick :
      FixedTickArraySnapshot → Bool → Result Message (Option ℤ)
  fixed_first_initialized_tick ta true = scan_down ta.ticks (lib.tick_array_size - 1)
  fixed_first_initialized_tick ta false = scan_up ta.ticks lib.tick_array_size 0

  unfoldable pub fixed_get_tick_liquidity_net :
      FixedTickArraySnapshot → ℤ → ℕ → Result Message (Option ℤ)
  fixed_get_tick_liquidity_net ta tick_index spacing = elim (tick_offset ta tick_index spacing) [
    | none ↦ ok none
    | some offset ↦ do tick ← or_panic (get_elem? ta.ticks offset); ok (some tick.liquidity_net)
  ]

  -- A tick of a dynamic array, by its local index.
  abbrev pub tick_at : List TickState → ℕ → Result Message (Option ℤ)
  tick_at ticks local_idx = do tick ← or_panic (get_elem? ticks local_idx); ok (some tick.tick)

  unfoldable pub decode_dyn_tick_array : List ℕ → Option (lib.DynTickArrayHeader × List TickState)
  decode_dyn_tick_array bytes =
      if ltb (length bytes) 8
      then none
      else if not (bytes_eq (take 8 bytes) lib.dyn_discriminator)
      then none
      else if ltb (length bytes) lib.dyn_header_len
      then none
      else (let ticks_bytes = drop lib.dyn_header_len bytes in
          if lib.tick_state_len == 0 || not (length ticks_bytes % lib.tick_state_len == 0)
          then none
          else some (
            lib.read_dyn_header (take (lib.dyn_header_len - 8) (drop 8 bytes)),
            read_ticks (length ticks_bytes / lib.tick_state_len) ticks_bytes,
          ))

  -- `DynamicTickArrayState::from_account_data`
  unfoldable pub from_account_data : List ℕ → Option (DynamicTickArrayState lib)
  from_account_data bytes =
      if ltb (length bytes) 8
      then none
      else if bytes_eq (take 8 bytes) lib.dyn_discriminator
      then elim (decode_dyn_tick_array bytes) [
        | some (header, ticks) ↦ some (dynamic header ticks)
        | none ↦ none
      ]
      else if bytes_eq (take 8 bytes) lib.fixed_discriminator
      then elim (fixed_from_account_data bytes) [ some ta ↦ some (fixed ta) | none ↦ none ]
      else none

  unfoldable pub start_tick_index_of : DynamicTickArrayState lib → ℤ
  start_tick_index_of (dynamic header ticks) = lib.dyn_start_tick_index header
  start_tick_index_of (fixed ta) = ta.start_tick_index

  unfoldable pub next_initialized_tick :
      DynamicTickArrayState lib → ℤ → ℕ → Bool → Result Message (Option ℤ)
  next_initialized_tick (dynamic header ticks) cur_tick spacing zero_for_one =
      elim (lib.dyn_next_initialized_tick_index header ticks cur_tick spacing zero_for_one) [
        | inr (some local_idx) ↦ tick_at ticks local_idx
        | inr none ↦ ok none
        | inl e ↦ ok none
      ]
  next_initialized_tick (fixed ta) cur_tick spacing zero_for_one =
      fixed_next_initialized_tick ta cur_tick spacing zero_for_one

  unfoldable pub first_initialized_tick :
      DynamicTickArrayState lib → Bool → Result Message (Option ℤ)
  first_initialized_tick (dynamic header ticks) zero_for_one =
      elim (lib.dyn_first_initialized_tick_index header ticks zero_for_one) [
        | inr local_idx ↦ tick_at ticks local_idx
        | inl e ↦ ok none
      ]
  first_initialized_tick (fixed ta) zero_for_one = fixed_first_initialized_tick ta zero_for_one

  unfoldable pub get_tick_liquidity_net :
      DynamicTickArrayState lib → ℤ → ℕ → Result Message (Option ℤ)
  get_tick_liquidity_net (dynamic header ticks) tick_index spacing =
      elim (lib.dyn_get_tick_index_in_array header tick_index spacing) [
        | inr i ↦ do tick ← or_panic (get_elem? ticks i); ok (some tick.liquidity_net)
        | inl e ↦ ok none
      ]
  get_tick_liquidity_net (fixed ta) tick_index spacing =
      fixed_get_tick_liquidity_net ta tick_index spacing
