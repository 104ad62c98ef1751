-- ===== src/Integration.antt =====
-- The parts together: the venue (src/byreal_clmm), the builder of legs (src/swap_route) and the route program (program/).
pub mod Tests
use byreal_titan_integration.Base.{
  ℕ, ◌-◌, ◌≡◌, refl, sym, ap, ◌∙◌, Bool, true, false, List, [], ◌∷◌, ◌++◌, map, length, take, All,
  ok, require, ok_or, bind-eq-ok, to_le_bytes, if◌then◌else◌, ◌>>=◌, ◌>>◌,
}
use byreal_titan_integration.Solana.{AccountMeta, Instruction}
use byreal_titan_integration.TradingVenue.Error.{Pubkey}
use byreal_titan_integration.TradingVenue.Request.{QuoteRequest}
use byreal_titan_integration.TradingVenue.TokenInfo.{Spl}
use byreal_titan_integration.ByrealClmm.Library.{Library}
use byreal_titan_integration.ByrealClmm.Build.{SwapBuildRequest, build_swap_instruction}
use byreal_titan_integration.ByrealClmm.Build.Shape.{build_swap_instruction_ok}
use byreal_titan_integration.ByrealClmm.Venue.{ByrealClmmVenue, ensure_exact_in}
use byreal_titan_integration.ByrealClmm.Trade.{find_token, generate_swap_instruction}
use byreal_titan_integration.ByrealClmm.Implementation.{trading_venue}
use byreal_titan_integration.SwapRoute.{SwapSpecInputV2, build_swap_leg, assemble_leg_accounts}
use byreal_titan_integration.SwapRoute.Leg.{build_swap_leg_accounts}
use byreal_titan_integration.RouteProgram.State.{SwapSpecInputV2 as Swap}
use byreal_titan_integration.RouteProgram.Runtime.{World, Runtime, invoke, venue}
use byreal_titan_integration.RouteProgram.Calls.{swap_v3_dyn_discriminator, perform_cpi_swap}
use byreal_titan_integration.RouteProgram.Route.{leg_metas}
use byreal_titan_integration.RouteProgram.Route.Cpi.{
  info_of, SignsAs, leg_infos, venue_instruction, perform_cpi_swap-assemble_leg_accounts,
}

-- `byreal_clmm::instruction::SwapV3Dyn::data`: Anchor's discriminator of the instruction, then its arguments in Borsh.
abbrev pub EncodesSwap : Library → Type 0
EncodesSwap lib =
    (amount threshold limit : ℕ) (is_base_input : Bool)
    → lib.swap_v3_dyn_data amount threshold limit is_base_input
      ≡ swap_v3_dyn_discriminator
        ++ (to_le_bytes 8 amount
            ++ (to_le_bytes 8 threshold
                ++ (to_le_bytes 16 limit ++ (if is_base_input then 1 else 0) ∷ [])))

module _ (lib : Library) (fuel : ℕ) (spl : Spl) (v : ByrealClmmVenue lib) (request : QuoteRequest)
    (titan_pda : Pubkey) (ix : Instruction)
    (generated : generate_swap_instruction lib v spl request titan_pda ≡ ok ix) where
  generated-fields :
      (ix.program_id ≡ v.core.program_id)
      × (ix.payload ≡ lib.swap_v3_dyn_data request.amount 0 0 true)
  unfolding generate_swap_instruction
  generated-fields =
      let (_, e, h1) = bind-eq-ok (require v.initialized _) _ ix generated in
      let (_, e1, h2) = bind-eq-ok (ensure_exact_in request) _ ix h1 in
      let (input, e2, h3) =
        bind-eq-ok (ok_or (find_token request.input_mint v.token_info) _) _ ix h2 in
      let (output, e3, h4) =
        bind-eq-ok (ok_or (find_token request.output_mint v.token_info) _) _ ix h3 in
      let (program, payload, _, _) = build_swap_instruction_ok lib v.core _ ix h4 in
      (program, payload)

  -- With the crate's encoding of the swap's arguments, when the program runs, with the request's amount, a leg that was
  -- built for this venue, it calls exactly the swap instruction that the venue generates for the TitanPDA, provided that
  -- this has the TitanPDA sign wherever it stands.
  pub perform_cpi_swap-generate_swap_instruction :
      (rt : Runtime) (from to weight_nanos : ℕ) (spec : SwapSpecInputV2)
      (accounts : List AccountMeta) (swap : Swap) (w : World)
      → EncodesSwap lib
      → build_swap_leg (trading_venue lib fuel spl v) request titan_pda from to weight_nanos
        ≡ ok (spec, accounts)
      → All (SignsAs titan_pda) ix.accounts
      → perform_cpi_swap rt request.amount swap
          (leg_metas titan_pda (take (length (map info_of accounts) - 1) (map info_of accounts)))
          (map info_of accounts)
          w
        ≡ invoke rt (venue ix (map info_of accounts)) true w
  perform_cpi_swap-generate_swap_instruction rt from to weight_nanos spec accounts swap w encodes
        built signs =
      let (program, payload) = generated-fields in
      let assembled =
        build_swap_leg_accounts (trading_venue lib fuel spl v) request titan_pda from to
          weight_nanos spec accounts ix built generated in
      let with_payload = λ (bytes : List ℕ). record ix { payload = bytes } in
      let same : venue_instruction v.core.program_id request.amount ix.accounts ≡ ix =
        ap (λ p. venue_instruction p request.amount ix.accounts) (sym program)
        ∙ ap with_payload (sym (payload ∙ encodes request.amount 0 0 true)) in
      rw (assembled) (
        perform_cpi_swap-assemble_leg_accounts rt ix titan_pda v.core.program_id request.amount swap
          w signs
        ∙ ap
            (λ (i : Instruction).
              invoke rt (venue i (leg_infos ix titan_pda v.core.program_id)) true w)
            same)
