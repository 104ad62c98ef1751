-- ===== src/RouteProgram/Tests/Parts.antt =====
-- The parts of the route program at concrete values.
use byreal_titan_integration.Base.{
  ◌+◌, ◌-◌, ◌*◌, ◌≡◌, refl, true, false, ◌&&◌, ◌||◌, [], ◌∷◌, arith, ◌≤◌, ◌<◌, min, ◌==◌, ltb,
  length, take, All,
}
use byreal_titan_integration.Solana.{Instruction, readonly, writable}
use byreal_titan_integration.RouteProgram.Runtime.{venue, invoke}
use byreal_titan_integration.RouteProgram.Bitmap.{new, set_bit, is_set}
use byreal_titan_integration.RouteProgram.Bitmap.Laws.{new-IsBitmap, is_set-set_bit}
use byreal_titan_integration.RouteProgram.Calls.{perform_cpi_swap}
use byreal_titan_integration.RouteProgram.Route.{leg_amount, leg_metas}
use byreal_titan_integration.RouteProgram.Route.Amount.{leg_amount_share}
use byreal_titan_integration.RouteProgram.Route.Cpi.{
  SignsAs, leg_infos, venue_instruction, perform_cpi_swap-assemble_leg_accounts,
}
use byreal_titan_integration.RouteProgram.Tests.{runtime, world, leg}

is_set-set_bit_example : is_set (set_bit new 70) 70 ≡ ((70 == 70 && ltb 70 256) || is_set new 70)
is_set-set_bit_example = is_set-set_bit new 70 70 new-IsBitmap

leg_amount_share_example :
    (leg_amount 1000 100 500_000_000 * 1_000_000_000 ≤ (1000 - 100) * min 500_000_000 1_000_000_000)
    × ((1000 - 100) * min 500_000_000 1_000_000_000
        < (leg_amount 1000 100 500_000_000 + 1) * 1_000_000_000)
    × (leg_amount 1000 100 500_000_000 + min 1000 100 ≤ 1000)
leg_amount_share_example = leg_amount_share 1000 100 500_000_000 (omega arith)

abbrev swap_instruction : Instruction
swap_instruction = record {
  program_id = 90;
  accounts = readonly 12 true ∷ writable 100 false ∷ writable 101 false ∷ [];
  payload = [];
}

signs : All (SignsAs 12) swap_instruction.accounts
signs = ((λ e. refl), ((λ e. absurd (omega (arith, e))), ((λ e. absurd (omega (arith, e))), tt)))

perform_cpi_swap-assemble_leg_accounts_example :
    perform_cpi_swap runtime 400 leg
      (leg_metas 12
        (take (length (leg_infos swap_instruction 12 90) - 1) (leg_infos swap_instruction 12 90)))
      (leg_infos swap_instruction 12 90)
      world
    ≡ invoke runtime
        (venue
          (venue_instruction 90 400 swap_instruction.accounts)
          (leg_infos swap_instruction 12 90))
        true
        world
perform_cpi_swap-assemble_leg_accounts_example =
    perform_cpi_swap-assemble_leg_accounts runtime swap_instruction 12 90 400 leg world signs
