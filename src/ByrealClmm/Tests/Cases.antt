-- ===== src/ByrealClmm/Tests/Cases.antt =====
-- The theorems about the venue at concrete values.
use byreal_titan_integration.Base.{
  ℕ, suc, ◌+◌, ◌-◌, ◌/◌, ◌≤◌, ◌<◌, ◌≡◌, ◌↔◌, ◌⊎◌, refl, pos, ◌-ℤ◌, ◌≤ℤ◌, ◌<ℤ◌, true, false, List,
  [], ◌∷◌, none, some, Map, contains_key, All, length, ok, err, arith, if◌then◌else◌, lookup, map,
}
use byreal_titan_integration.Solana.{AccountMeta, Instruction, readonly, writable, Account}
use byreal_titan_integration.TradingVenue.Error.{text, key, missing_state, string}
use byreal_titan_integration.ByrealClmm.Library.{Price, TickState}
use byreal_titan_integration.ByrealClmm.Core.{
  wrapping_sub_i64, validate_mints, load_dynamic_pyth_prices, input_token_unit,
  dynamic_fee_price_step, ensure_open, ensure_swap_status_enabled, get_tick_array_address,
  tick_array_bitmap_extension_key,
}
use byreal_titan_integration.ByrealClmm.Core.Checks.{
  validate_mints_iff, load_dynamic_pyth_prices_ok, dynamic_fee_price_step_bounds,
}
use byreal_titan_integration.ByrealClmm.TickArray.{scan_down, scan_up}
use byreal_titan_integration.ByrealClmm.TickArray.Scan.{
  Initialized, NoneIn, scan_down_lem, scan_up_lem,
}
use byreal_titan_integration.ByrealClmm.TickArrays.{
  next_starts, swap_starts, get_swap_tick_arrays, live_loop, live_directional_tick_arrays,
}
use byreal_titan_integration.ByrealClmm.TickArrays.Live.{
  loaded_of, live_directional_tick_arrays_lem,
}
use byreal_titan_integration.ByrealClmm.Build.{
  SwapBuildRequest, oracle_accounts, build_swap_instruction,
}
use byreal_titan_integration.ByrealClmm.Build.Shape.{Directed, build_swap_instruction_ok}
use byreal_titan_integration.TradingVenue.TokenInfo.{Spl}
use byreal_titan_integration.ByrealClmm.Venue
use byreal_titan_integration.ByrealClmm.Venue.{AccountsCache, ByrealClmmVenue}
use byreal_titan_integration.ByrealClmm.Venue.Settled.{Settles, update_state-Settles}
use byreal_titan_integration.ByrealClmm.Tests.{library, core, ticks}

scan_down_lem_example :
    ((i : ℕ) × (t : TickState) × (scan_down library ticks 1 ≡ ok (some t.tick))
      × (i ≤ 1)
      × Initialized library ticks i t
      × NoneIn library ticks (suc i) 2)
    ⊎ ((scan_down library ticks 1 ≡ ok none) × NoneIn library ticks 0 2)
scan_down_lem_example = scan_down_lem library ticks 1 (omega arith)

scan_up_lem_example :
    ((k : ℕ) × (t : TickState) × (scan_up library ticks 2 0 ≡ ok (some t.tick))
      × (0 ≤ k)
      × Initialized library ticks k t
      × NoneIn library ticks 0 k)
    ⊎ ((scan_up library ticks 2 0 ≡ ok none) × NoneIn library ticks 0 2)
scan_up_lem_example = scan_up_lem library ticks 2 0 refl

arrays : get_swap_tick_arrays library core true ≡ 1000 ∷ 1020 ∷ []
unfolding get_swap_tick_arrays swap_starts next_starts get_tick_array_address
arrays = refl

live_directional_tick_arrays_lem_example : live_directional_tick_arrays library core true ≡ (
    if contains_key core.dynamic_tick_arrays 1000
    then ok (1000 ∷ loaded_of core.dynamic_tick_arrays (1020 ∷ []))
    else err (
        missing_state (
          string (text "directional first tick array account missing for swap: " ∷ key 1000 ∷ []))))
live_directional_tick_arrays_lem_example =
    live_directional_tick_arrays_lem library core true 1000 (1020 ∷ []) arrays

validate_mints_iff_example : (validate_mints library core 6 5 ≡ ok (false, true)) ↔ (
    ((6 ≡ core.reserve_mints.0) × (5 ≡ core.reserve_mints.1) × (false ≡ true) × (true ≡ false))
    ⊎ ((6 ≡ core.reserve_mints.1) × (5 ≡ core.reserve_mints.0) × (false ≡ false) × (true ≡ true)))
validate_mints_iff_example = validate_mints_iff library core 6 5 false true (λ e. omega (arith, e))

abbrev price : ℕ → ℕ → Price
price p t = record { price = pos p; publish_time = pos t; exponent = pos 0; conf = 0 }

prices_loaded : load_dynamic_pyth_prices library core ≡ ok (price 3 70, price 4 71)
unfolding load_dynamic_pyth_prices wrapping_sub_i64 ◌-ℤ◌
prices_loaded = refl

load_dynamic_pyth_prices_ok_example :
    (core.token0_pyth_oracle_data ≡ some (price 3 70))
    × (core.token1_pyth_oracle_data ≡ some (price 4 71))
    × (pos 0 <ℤ (price 3 70).price)
    × (pos 0 <ℤ (price 4 71).price)
    × ((core.current_unix_timestamp -ℤ pos 3600) ≤ℤ (price 3 70).publish_time)
    × ((core.current_unix_timestamp -ℤ pos 3600) ≤ℤ (price 4 71).publish_time)
load_dynamic_pyth_prices_ok_example =
    load_dynamic_pyth_prices_ok library core (price 3 70) (price 4 71) (omega arith) (omega arith)
      prices_loaded

step_taken : dynamic_fee_price_step library core true 5_000_000 ≡ some 100_000
unfolding dynamic_fee_price_step input_token_unit
step_taken = refl

dynamic_fee_price_step_bounds_example :
    (0 < 100_000)
    × (100_000 ≤ 5_000_000)
    × ((unit : ℕ) × (input_token_unit library core true ≡ some unit)
        × (unit / 10 ≤ 100_000)
        × (5_000_000 / 1_000 ≤ 100_000))
dynamic_fee_price_step_bounds_example =
    dynamic_fee_price_step_bounds library core true 5_000_000 100_000 step_taken

abbrev request : SwapBuildRequest
request = record {
  user_authority = 12;
  source_mint = 6;
  destination_mint = 5;
  source_token_account = 126;
  destination_token_account = 125;
  amount = 400;
  other_amount_threshold = 0;
}

abbrev built : Instruction
built = record {
  program_id = 90;
  accounts =
      readonly 12 true
      ∷ readonly 40 false
      ∷ writable 91 false
      ∷ writable 126 false
      ∷ writable 125 false
      ∷ writable 60 false
      ∷ writable 50 false
      ∷ writable 41 false
      ∷ readonly 1 false
      ∷ readonly 2 false
      ∷ readonly 3 false
      ∷ readonly 6 false
      ∷ readonly 5 false
      ∷ readonly 999 false
      ∷ writable 1000 false
      ∷ [];
  payload = 400 ∷ 0 ∷ 0 ∷ [];
}

instruction_built : build_swap_instruction library core request ≡ ok built
unfolding build_swap_instruction ensure_open ensure_swap_status_enabled validate_mints
    live_directional_tick_arrays live_loop get_swap_tick_arrays swap_starts next_starts
    get_tick_array_address tick_array_bitmap_extension_key oracle_accounts lookup
instruction_built = refl

build_swap_instruction_ok_example :
    (built.program_id ≡ 90)
    × (built.payload ≡ library.swap_v3_dyn_data 400 0 0 true)
    × ((rest : List AccountMeta) × (built.accounts ≡ readonly 12 true ∷ rest)
        × All (λ m. m.is_signer ≡ false) rest
        × (14 ≤ length rest)
        × (length rest ≤ 16 + (core.max_one_side_tick_arrays - 1)))
    × Directed library core request built
build_swap_instruction_ok_example =
    build_swap_instruction_ok library core request built instruction_built

abbrev accounts : Map Account
accounts =
    (4, record { lamports = 1; bytes = []; owner = 0 })
    ∷ (91, record { lamports = 1; bytes = []; owner = 90 })
    ∷ []

abbrev pub cache : AccountsCache
cache = record {
  State = Unit;
  get_accounts =
      λ s keys. ok (map (λ k. some (record { lamports = 1; bytes = []; owner = 90 })) keys, s);
}

abbrev pub spl : Spl
spl = record {
  token_id = 1;
  token_2022_id = 2;
  unpack_mint = λ bytes. some (record { decimals = 6; transfer_fee_config = none });
  associated_token_address = λ wallet mint program. wallet + mint;
}

abbrev venue : ByrealClmmVenue library
venue = record {
  core = core;
  token_info = [];
  initialized = false;
  current_epoch = 0;
  bounds_cache = (none, none);
}

update_state-Settles_example :
    Settles library 10 spl venue (Venue.update_state library 10 spl cache tt venue)
update_state-Settles_example = update_state-Settles library 10 spl cache tt venue
