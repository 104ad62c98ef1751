-- ===== src/RouteProgram/Execute/Guards.antt =====
-- The guards of `SwapRouteV3::execute`: what a route that succeeds must have been.
use byreal_titan_integration.Base.{
  ℕ, ◌+◌, ◌*◌, ◌≤◌, ◌<◌, ◌≡◌, true, ◌&&◌, List, [], ◌∷◌, ok, ok_or, or_panic, or_panic-eq-ok,
  length, get_elem?, ltb, leb, ◌==◌, ltb→lt, leb→le, ==→eq, &&-true, some, All, arith,
  if◌then◌else◌, take, drop, ◌-◌, get_or,
}
use byreal_titan_integration.RouteProgram.State.{
  SwapSpecInputV2, invalid_swap_input, missing_remaining_account,
}
use byreal_titan_integration.RouteProgram.Runtime.{
  route, World, Runtime, pure, run-bind, run-lift, require_done, run-require,
}
use byreal_titan_integration.RouteProgram.Accounts.{extract_token_amount}
use byreal_titan_integration.RouteProgram.Calls.{perform_cpi_swap}
use byreal_titan_integration.RouteProgram.Route.{
  Context, indices_ok, validate, leg_amount, leg_metas, run_leg, run_legs,
}
use byreal_titan_integration.RouteProgram.Execute.{execute}
use byreal_titan_integration.RouteProgram.Execute.Stages.{stages}

abbrev pub Indexed : ℕ → SwapSpecInputV2 → Type 0
Indexed mints swap = (swap.from < mints) × (swap.to < mints)

indices_ok_lem :
    (mints : ℕ) (swaps : List SwapSpecInputV2)
    → indices_ok mints swaps ≡ true
    → All (Indexed mints) swaps
unfolding indices_ok
indices_ok_lem mints [] h = tt
indices_ok_lem mints (swap ∷ swaps) h =
    let (here, there) = &&-true _ _ h in
    let (a, b) = &&-true _ _ here in
    ((ltb→lt _ _ a, ltb→lt _ _ b), indices_ok_lem mints swaps there)

-- What `validate` lets pass.
pub record IsValid (mints : ℕ) (swaps : List SwapSpecInputV2) (accounts : ℕ) : Type 0 where
  pub some_mints : 2 ≤ mints
  pub some_swaps : 1 ≤ length swaps
  pub few_swaps : length swaps ≤ 12
  pub few_mints : mints ≤ 12
  pub mint_accounts : 2 * mints ≤ accounts
  pub indexed : All (Indexed mints) swaps
  pub first_leg : (first : SwapSpecInputV2) × (get_elem? swaps 0 ≡ some first) × (first.from ≡ 0)

validate_lem :
    (ctx : Context) (mints : ℕ) (swaps : List SwapSpecInputV2) (w v : World)
    → validate ctx mints swaps w ≡ ok (tt, v)
    → IsValid mints swaps (length ctx.remaining_accounts)
unfolding validate
validate_lem ctx mints swaps w v h =
    let bad = route invalid_swap_input in
    let n = length ctx.remaining_accounts in
    let (a, h1) = run-require (ltb 1 mints && ltb 0 (length swaps)) bad _ w (tt, v) h in
    let (b, h2) = run-require (leb (length swaps) 12) bad _ w (tt, v) h1 in
    let (c, h3) = run-require (leb mints 12) bad _ w (tt, v) h2 in
    let (d, h4) =
      run-require (leb (2 * mints) n) (route missing_remaining_account) _ w (tt, v) h3 in
    let (first, e, h5) = run-lift (or_panic (get_elem? swaps 0)) _ w (tt, v) h4 in
    let (f, h6) = run-require (first.from == 0) bad _ w (tt, v) h5 in
    let g = require_done (indices_ok mints swaps) bad w (tt, v) h6 in
    let (a1, a2) = &&-true (ltb 1 mints) (ltb 0 (length swaps)) a in
    record {
      some_mints = ltb→lt 1 mints a1;
      some_swaps = ltb→lt 0 (length swaps) a2;
      few_swaps = leb→le (length swaps) 12 b;
      few_mints = leb→le mints 12 c;
      mint_accounts = leb→le (2 * mints) n d;
      indexed = indices_ok_lem mints swaps g;
      first_leg = (first, or_panic-eq-ok (get_elem? swaps 0) e, ==→eq first.from 0 f);
    }

-- `swaps.iter().map(|s| s.n_accounts).sum()`
abbrev pub total_accounts : List SwapSpecInputV2 → ℕ
total_accounts [] = 0
total_accounts (swap ∷ swaps) = swap.n_accounts + total_accounts swaps

abbrev pub HasAccounts : SwapSpecInputV2 → Type 0
HasAccounts swap = 0 < swap.n_accounts

module _ (rt : Runtime) (ctx : Context) where
  run_leg_lem :
      (reserved : List ℕ) (swap : SwapSpecInputV2) (index next : ℕ) (w v : World)
      → run_leg rt ctx reserved swap index w ≡ ok (next, v)
      → HasAccounts swap
        × (index + swap.n_accounts ≤ length ctx.remaining_accounts)
        × (next ≡ index + swap.n_accounts)
  unfolding run_leg
  run_leg_lem reserved swap index next w v h =
      let (a, h1) =
        run-require (ltb 0 swap.n_accounts) (route invalid_swap_input) _ w (next, v) h in
      let (b, h2) =
        run-require (leb (index + swap.n_accounts) (length ctx.remaining_accounts))
          (route missing_remaining_account) _ w (next, v) h1 in
      let (input, _, h3) =
        run-lift
          (ok_or (get_elem? ctx.remaining_accounts swap.from) (route missing_remaining_account)) _ w
          (next, v) h2 in
      let (balance, _, h4) =
        run-lift (extract_token_amount (w.accounts input.key)) _ w (next, v) h3 in
      let amount = leg_amount balance (get_or reserved swap.from 0) swap.weight_nanos in
      let leg_accounts = take swap.n_accounts (drop index ctx.remaining_accounts) in
      let (_, v', _, h5) =
        run-bind
          (if ltb 0 amount
            then perform_cpi_swap rt amount swap
                (leg_metas ctx.titan_pda (take (swap.n_accounts - 1) leg_accounts)) leg_accounts
            else pure tt)
          _ w (next, v) h4 in
      (ltb→lt _ _ a, leb→le _ _ b, cc h5)

  run_legs_lem :
      (reserved : List ℕ) (swaps : List SwapSpecInputV2) (index next : ℕ) (w v : World)
      → index ≤ length ctx.remaining_accounts
      → run_legs rt ctx reserved swaps index w ≡ ok (next, v)
      → All HasAccounts swaps × (index + total_accounts swaps ≤ length ctx.remaining_accounts)
  unfolding run_legs
  run_legs_lem reserved [] index next w v le h = (tt, omega arith)
  run_legs_lem reserved (swap ∷ swaps) index next w v le h =
      let (index', w', first, rest) =
        run-bind (run_leg rt ctx reserved swap index) (run_legs rt ctx reserved swaps) w (next, v)
          h in
      let (here, fits, e) = run_leg_lem reserved swap index index' w w' first in
      let (there, fits') = run_legs_lem reserved swaps index' next w' v (omega arith) rest in
      ((here, there), omega arith)

  -- A route succeeds only with 2 to 12 mints, 1 to 12 swaps, two accounts for each mint and behind them at least
  -- one account for each swap and as many as the swaps ask for, the first swap from the first mint and all swaps
  -- between mints that there are.
  pub execute_guards :
      (amount mints : ℕ) (swaps : List SwapSpecInputV2) (w v : World)
      → execute rt ctx amount mints swaps w ≡ ok (tt, v)
      → IsValid mints swaps (length ctx.remaining_accounts)
        × All HasAccounts swaps
        × (2 * mints + total_accounts swaps ≤ length ctx.remaining_accounts)
  execute_guards amount mints swaps w v h =
      let r = stages rt ctx amount mints swaps w v h in
      let valid = validate_lem ctx mints swaps w r.valid r.validate_ok in
      let (some_each, fits) =
        run_legs_lem r.snapshot.reserved swaps (2 * mints) r.index r.paid_in r.swapped
          valid.mint_accounts r.legs_ok in
      (valid, some_each, fits)
