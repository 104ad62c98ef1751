-- ===== src/RouteProgram/Route/Amount.antt =====
-- What a leg of `SwapRouteV3::execute` is given to swap.
use native.Mathlib.Nat.{mul-le-mul_left}
use byreal_titan_integration.Base.{ℕ, ◌+◌, ◌-◌, ◌*◌, ◌^◌, ◌≤◌, ◌<◌, min, arith}
use byreal_titan_integration.RouteProgram.Route.{leg_amount}

share_le : (a w : ℕ) → a * min w 1_000_000_000 ≤ a * 1_000_000_000
share_le a w = mul-le-mul_left a (omega arith)

-- For a balance that fits a u64, the leg's amount is the floor of the weight's share of what exceeds the reserve,
-- the weight counted up to one: neither the multiplication nor the cast to a u64 loses anything. So the leg leaves
-- the reserve.
pub leg_amount_share :
    (balance reserved weight_nanos : ℕ)
    → balance < 2 ^ 64
    → (leg_amount balance reserved weight_nanos * 1_000_000_000
        ≤ (balance - reserved) * min weight_nanos 1_000_000_000)
      × ((balance - reserved) * min weight_nanos 1_000_000_000
          < (leg_amount balance reserved weight_nanos + 1) * 1_000_000_000)
      × (leg_amount balance reserved weight_nanos + min balance reserved ≤ balance)
unfolding leg_amount
leg_amount_share balance reserved weight_nanos h =
    let le = share_le (balance - reserved) weight_nanos in omega arith
