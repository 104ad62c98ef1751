-- ===== src/RouteProgram/Execute/Stages.antt =====
-- The stages of a route that succeeds, for the proofs about `SwapRouteV3::execute`.
use byreal_titan_integration.Base.{ℕ, ◌*◌, ◌≡◌, List, ok}
use byreal_titan_integration.RouteProgram.Runtime.{World, Runtime, run-bind}
use byreal_titan_integration.RouteProgram.State.{SwapSpecInputV2}
use byreal_titan_integration.RouteProgram.Route.{
  Context, Snapshot, validate, snapshot_loop, run_legs, close_created, check_reserved,
}
use byreal_titan_integration.RouteProgram.Execute.{
  Prepared, empty_snapshot, execute, prepare, take_input, pay_output,
}

module _ (rt : Runtime) (ctx : Context) where
  pub record Stages (amount mints : ℕ) (swaps : List SwapSpecInputV2) (w v : World) : Type 0 where
    pub valid : World
    pub prepared : Prepared
    pub taken : World
    pub snapshot : Snapshot
    pub snapped : World
    pub paid_in : World
    pub index : ℕ
    pub swapped : World
    pub paid_out : World
    pub closed : World
    pub validate_ok : validate ctx mints swaps w ≡ ok (tt, valid)
    pub prepare_ok : prepare rt ctx mints swaps valid ≡ ok (prepared, taken)
    pub snapshot_ok :
        snapshot_loop rt ctx ctx.remaining_accounts 0 mints empty_snapshot taken
        ≡ ok (snapshot, snapped)
    pub take_ok : take_input rt ctx prepared amount snapped ≡ ok (tt, paid_in)
    pub legs_ok : run_legs rt ctx snapshot.reserved swaps (2 * mints) paid_in ≡ ok (index, swapped)
    pub pay_ok : pay_output rt ctx prepared snapshot.reserved swapped ≡ ok (tt, paid_out)
    pub close_ok :
        close_created rt ctx mints 0 mints prepared.created_atas paid_out ≡ ok (tt, closed)
    pub check_ok :
        check_reserved rt ctx ctx.remaining_accounts 0 snapshot.bitmap snapshot.balances 0 closed
        ≡ ok (tt, v)

  pub stages :
      (amount mints : ℕ) (swaps : List SwapSpecInputV2) (w v : World)
      → execute rt ctx amount mints swaps w ≡ ok (tt, v)
      → Stages amount mints swaps w v
  unfolding execute
  stages amount mints swaps w v h =
      let (t0, w0, h0, r0) = run-bind (validate ctx mints swaps) _ w (tt, v) h in
      let (p, w1, h1, r1) = run-bind (prepare rt ctx mints swaps) _ w0 (tt, v) r0 in
      let (s, w2, h2, r2) =
        run-bind (snapshot_loop rt ctx ctx.remaining_accounts 0 mints empty_snapshot) _ w1 (tt, v)
          r1 in
      let (t3, w3, h3, r3) = run-bind (take_input rt ctx p amount) _ w2 (tt, v) r2 in
      let (i, w4, h4, r4) =
        run-bind (run_legs rt ctx s.reserved swaps (2 * mints)) _ w3 (tt, v) r3 in
      let (t5, w5, h5, r5) = run-bind (pay_output rt ctx p s.reserved) _ w4 (tt, v) r4 in
      let (t6, w6, h6, r6) =
        run-bind (close_created rt ctx mints 0 mints p.created_atas) _ w5 (tt, v) r5 in
      record {
        valid = w0;
        prepared = p;
        taken = w1;
        snapshot = s;
        snapped = w2;
        paid_in = w3;
        index = i;
        swapped = w4;
        paid_out = w5;
        closed = w6;
        validate_ok = h0;
        prepare_ok = h1;
        snapshot_ok = h2;
        take_ok = h3;
        legs_ok = h4;
        pay_ok = h5;
        close_ok = h6;
        check_ok = r6;
      }
