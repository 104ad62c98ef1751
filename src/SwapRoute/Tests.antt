-- ===== src/SwapRoute/Tests.antt =====
-- The builder of src/swap_route/mod.rs, run on a venue of two tokens.
use byreal_titan_integration.Base.{
  ℕ, ◌%◌, ◌≡◌, refl, ◌↔◌, ◌⊎◌, inl, true, false, Option, none, some, List, [], ◌∷◌, pos, length,
  All, ok, err, arith,
}
use byreal_titan_integration.Solana.{AccountMeta, readonly, writable, Instruction}
use byreal_titan_integration.TradingVenue.Error.{
  Pubkey, byreal_clmm as byreal_clmm_protocol, unsupported_venue, static_str,
}
use byreal_titan_integration.TradingVenue.Request.{QuoteRequest, exact_in}
use byreal_titan_integration.TradingVenue.TokenInfo.{TokenInfo}
use byreal_titan_integration.TradingVenue.Interface.{TradingVenue}
use byreal_titan_integration.RouteProgram.State.{read_swap_route_v3}
use byreal_titan_integration.SwapRoute.{
  byreal_clmm, SwapSpecInputV2, position, protocol_to_venue, byreal_venue, fail_closed,
  fail_closed_for_transfer_fee_route_mints, assemble_leg_accounts, build_swap_leg,
  encode_swap_route_v3_data,
}
use byreal_titan_integration.SwapRoute.Encoding.{on_chain, read-encode_swap_route_v3_data}
use byreal_titan_integration.SwapRoute.Leg.{
  HasFee, IsLegOf, build_swap_leg_ok, protocol_to_venue_directions, build_swap_leg_fee,
}

abbrev token : Pubkey → Option ℕ → TokenInfo
token k fee = record {
  pubkey = k;
  decimals = pos 6;
  is_token_2022 = false;
  transfer_fee = fee;
  maximum_fee = fee;
}

abbrev instruction : Pubkey → Instruction
instruction user = record {
  program_id = 90;
  accounts = readonly user true ∷ writable 71 false ∷ writable 72 false ∷ [];
  payload = 1 ∷ 2 ∷ [];
}

abbrev venue : Option ℕ → TradingVenue (Unit {0})
venue fee = record {
  initialized = true;
  program_id = 90;
  market_id = 91;
  get_token_info = token 5 none ∷ token 6 fee ∷ [];
  protocol = byreal_clmm_protocol;
  quote = λ r. ok (record {
    input_mint = r.input_mint;
    output_mint = r.output_mint;
    amount = r.amount;
    expected_output = r.amount;
    not_enough_liquidity = false;
    price = tt;
  });
  generate_swap_instruction = λ r user. ok (instruction user);
}

abbrev request : QuoteRequest
request = record { input_mint = 6; output_mint = 5; amount = 1000; swap_type = exact_in }

abbrev leg : SwapSpecInputV2
leg = record {
  venue = byreal_clmm false;
  from = 0;
  to = 1;
  weight_nanos = 1_000_000_000;
  n_accounts = 4;
}

abbrev leg_accounts : List AccountMeta
leg_accounts = readonly 12 false ∷ writable 71 false ∷ writable 72 false ∷ readonly 90 false ∷ []

leg_built : build_swap_leg (venue none) request 12 0 1 1_000_000_000 ≡ ok (leg, leg_accounts)
unfolding build_swap_leg fail_closed_for_transfer_fee_route_mints fail_closed assemble_leg_accounts
    protocol_to_venue byreal_venue position
leg_built = refl

build_swap_leg_ok_example :
    ((ix : Instruction) × ((venue none).generate_swap_instruction request 12 ≡ ok ix)
      × IsLegOf 12 90 ix leg_accounts)
    × (protocol_to_venue (venue none) request ≡ ok (byreal_clmm false))
    × (leg.n_accounts ≡ length leg_accounts % 256)
    × ((leg.from ≡ 0) × (leg.to ≡ 1) × (leg.weight_nanos ≡ 1_000_000_000))
    × All (λ t. ¬ HasFee request t) (venue none).get_token_info
build_swap_leg_ok_example =
    build_swap_leg_ok (venue none) request 12 0 1 1_000_000_000 leg leg_accounts leg_built

protocol_to_venue_directions_example :
    (protocol_to_venue (venue none) request ≡ ok (byreal_clmm false)) ↔ (
      ((request.input_mint ≡ 5)
        × (request.output_mint ≡ 6)
        × (byreal_clmm false ≡ byreal_clmm true))
      ⊎ ((request.input_mint ≡ 6)
          × (request.output_mint ≡ 5)
          × (byreal_clmm false ≡ byreal_clmm false)))
protocol_to_venue_directions_example =
    protocol_to_venue_directions (venue none) request (token 5 none) (token 6 none) refl
      (λ e. omega arith) (byreal_clmm false)

some_fee : ¬ (◌≡◌ {A = Option ℕ} (some 25) none)
some_fee e = cc e

build_swap_leg_fee_example :
    build_swap_leg (venue (some 25)) request 12 0 1 1_000_000_000
    ≡ err (
        unsupported_venue (
          static_str
            "Token-2022 transfer-fee route mints require route-level gross/net accounting"))
build_swap_leg_fee_example =
    build_swap_leg_fee (venue (some 25)) request 12 0 1 1_000_000_000 1 (token 6 (some 25)) refl
      (inl refl, some_fee)

read-encode_swap_route_v3_data_example :
    read_swap_route_v3 (encode_swap_route_v3_data 777 2 (leg ∷ []))
    ≡ some ((777, 2, on_chain leg ∷ []), [])
read-encode_swap_route_v3_data_example =
    read-encode_swap_route_v3_data 777 2 (leg ∷ []) (omega arith) (omega arith) (omega arith)
      ((omega arith, omega arith, omega arith, omega arith), tt)
