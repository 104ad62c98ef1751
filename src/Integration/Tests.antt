-- ===== src/Integration/Tests.antt =====
-- A leg that is built for a small venue and run by the program.
use byreal_titan_integration.Base.{
  ℕ, ◌+◌, ◌-◌, ◌≡◌, ◌≢◌, refl, pos, true, false, [], ◌∷◌, ◌++◌, map, length, take, none, some, All,
  ok, to_le_bytes, if◌then◌else◌, arith, lookup,
}
use byreal_titan_integration.Solana.{Instruction, readonly, writable}
use byreal_titan_integration.TradingVenue.Request.{exact_in, QuoteRequest}
use byreal_titan_integration.TradingVenue.TokenInfo.{Spl, TokenInfo, get_associated_token_address}
use byreal_titan_integration.ByrealClmm.Library.{Library}
use byreal_titan_integration.ByrealClmm.TickArray.{fixed}
use byreal_titan_integration.ByrealClmm.Core.{
  Core, ensure_open, ensure_swap_status_enabled, validate_mints, get_tick_array_address,
  tick_array_bitmap_extension_key,
}
use byreal_titan_integration.ByrealClmm.TickArrays.{
  live_directional_tick_arrays, live_loop, get_swap_tick_arrays, swap_starts, next_starts,
}
use byreal_titan_integration.ByrealClmm.Build.{build_swap_instruction, oracle_accounts}
use byreal_titan_integration.ByrealClmm.Venue.{ByrealClmmVenue, ensure_exact_in}
use byreal_titan_integration.ByrealClmm.Trade.{find_token, generate_swap_instruction}
use byreal_titan_integration.ByrealClmm.Implementation.{trading_venue}
use byreal_titan_integration.ByrealClmm.Tests.{library, pool, ticks}
use byreal_titan_integration.SwapRoute.{
  SwapSpecInputV2, byreal_clmm, build_swap_leg, protocol_to_venue,
  fail_closed_for_transfer_fee_route_mints, assemble_leg_accounts,
}
use byreal_titan_integration.RouteProgram.Runtime.{invoke, venue}
use byreal_titan_integration.RouteProgram.Calls.{swap_v3_dyn_discriminator, perform_cpi_swap}
use byreal_titan_integration.RouteProgram.Route.{leg_metas}
use byreal_titan_integration.RouteProgram.Route.Cpi.{info_of, SignsAs}
use byreal_titan_integration.RouteProgram.Tests.{runtime, world, leg}
use byreal_titan_integration.Integration.{EncodesSwap, perform_cpi_swap-generate_swap_instruction}

abbrev encoding : Library
encoding = record library {
  swap_v3_dyn_data = λ amount threshold limit is_base_input.
      swap_v3_dyn_discriminator
      ++ (to_le_bytes 8 amount
          ++ (to_le_bytes 8 threshold
              ++ (to_le_bytes 16 limit ++ (if is_base_input then 1 else 0) ∷ [])));
}

encoding-EncodesSwap : EncodesSwap encoding
encoding-EncodesSwap amount threshold limit is_base_input = refl

abbrev core : Core encoding
core = record {
  market_id = 91;
  program_id = 90;
  reserve_mints = (5, 6);
  pool_state = pool;
  amm_config = some tt;
  bitmap_extension = none;
  dynamic_tick_arrays = (1000, fixed (record { start_tick_index = pos 0; ticks = ticks })) ∷ [];
  token0_vault_amount = 0;
  token1_vault_amount = 0;
  token0_program_id = 1;
  token1_program_id = 1;
  token0_pyth_oracle_data = none;
  token1_pyth_oracle_data = none;
  max_one_side_tick_arrays = 6;
  current_unix_timestamp = pos 77;
}

abbrev token : ℕ → TokenInfo
token mint = record {
  pubkey = mint;
  decimals = pos 6;
  is_token_2022 = false;
  transfer_fee = none;
  maximum_fee = none;
}

abbrev pool_venue : ByrealClmmVenue encoding
pool_venue = record {
  core = core;
  token_info = token 5 ∷ token 6 ∷ [];
  initialized = true;
  current_epoch = 8;
  bounds_cache = (none, none);
}

abbrev spl : Spl
spl = record {
  token_id = 1;
  token_2022_id = 2;
  unpack_mint = λ bytes. none;
  associated_token_address = λ wallet mint program. wallet + mint;
}

abbrev request : QuoteRequest
request = record { input_mint = 6; output_mint = 5; amount = 400; swap_type = exact_in }

abbrev swap_ix : Instruction
swap_ix = record {
  program_id = 90;
  accounts =
      readonly 12 true
      ∷ readonly 40 false
      ∷ writable 91 false
      ∷ writable 18 false
      ∷ writable 17 false
      ∷ writable 60 false
      ∷ writable 50 false
      ∷ writable 41 false
      ∷ readonly 1 false
      ∷ readonly 2 false
      ∷ readonly 3 false
      ∷ readonly 6 false
      ∷ readonly 5 false
      ∷ readonly 999 false
      ∷ writable 1000 false
      ∷ [];
  payload = encoding.swap_v3_dyn_data 400 0 0 true;
}

generated : generate_swap_instruction encoding pool_venue spl request 12 ≡ ok swap_ix
unfolding generate_swap_instruction ensure_exact_in find_token get_associated_token_address
    build_swap_instruction ensure_open ensure_swap_status_enabled validate_mints
    live_directional_tick_arrays live_loop get_swap_tick_arrays swap_starts next_starts
    get_tick_array_address tick_array_bitmap_extension_key oracle_accounts lookup
generated = refl

abbrev spec : SwapSpecInputV2
spec = record {
  venue = byreal_clmm false;
  from = 0;
  to = 1;
  weight_nanos = 1_000_000_000;
  n_accounts = 16;
}

leg_built :
    build_swap_leg (trading_venue encoding 9 spl pool_venue) request 12 0 1 1_000_000_000
    ≡ ok (spec, assemble_leg_accounts swap_ix 12 90)
unfolding build_swap_leg fail_closed_for_transfer_fee_route_mints protocol_to_venue
    assemble_leg_accounts
leg_built = rw (generated) refl

other : (k : ℕ) → k ≢ 12 → k ≡ 12 → false ≡ true
other k apart same = absurd (apart same)

signs : All (SignsAs 12) swap_ix.accounts
signs = (
  λ e. refl,
  (
    other 40 (λ e. omega (arith, e)),
    (
      other 91 (λ e. omega (arith, e)),
      (
        other 18 (λ e. omega (arith, e)),
        (
          other 17 (λ e. omega (arith, e)),
          (
            other 60 (λ e. omega (arith, e)),
            (
              other 50 (λ e. omega (arith, e)),
              (
                other 41 (λ e. omega (arith, e)),
                (
                  other 1 (λ e. omega (arith, e)),
                  (
                    other 2 (λ e. omega (arith, e)),
                    (
                      other 3 (λ e. omega (arith, e)),
                      (
                        other 6 (λ e. omega (arith, e)),
                        (
                          other 5 (λ e. omega (arith, e)),
                          (
                            other 999 (λ e. omega (arith, e)),
                            (other 1000 (λ e. omega (arith, e)), tt),
                          ),
                        ),
                      ),
                    ),
                  ),
                ),
              ),
            ),
          ),
        ),
      ),
    ),
  ),
)

perform_cpi_swap-generate_swap_instruction_example :
    perform_cpi_swap runtime 400 leg
      (leg_metas 12 (
        take
          (length (map info_of (assemble_leg_accounts swap_ix 12 90)) - 1)
          (map info_of (assemble_leg_accounts swap_ix 12 90))))
      (map info_of (assemble_leg_accounts swap_ix 12 90))
      world
    ≡ invoke runtime (venue swap_ix (map info_of (assemble_leg_accounts swap_ix 12 90))) true world
perform_cpi_swap-generate_swap_instruction_example =
    perform_cpi_swap-generate_swap_instruction encoding 9 spl pool_venue request 12 swap_ix
      generated runtime 0 1 1_000_000_000 spec (assemble_leg_accounts swap_ix 12 90) leg world
      encoding-EncodesSwap leg_built signs
