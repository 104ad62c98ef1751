-- ===== src/RouteProgram/Execute/Marks.antt =====
-- The snapshot loop of `SwapRouteV3::execute`: what it takes of each account.
use byreal_titan_integration.Base.{
  ℕ, ◌+◌, ◌<◌, ◌≡◌, ◌≢◌, sym, ◌∙◌, ◌⊎◌, inl, inr, true, false, List, [], ◌∷◌, ◌++◌, ok, arith, ltb,
  ne→==, Bool-cases, Result-cases,
}
use mathlib.Core.List.{append_assoc, append-nil}
use byreal_titan_integration.RouteProgram.Runtime.{AccountInfo, World, Runtime, run-bind}
use byreal_titan_integration.RouteProgram.Accounts.{
  extract_token_amount, is_titan_pda_token_account,
}
use byreal_titan_integration.RouteProgram.Bitmap.{set_bit, is_set}
use byreal_titan_integration.RouteProgram.Bitmap.Laws.{IsBitmap, set_bit-IsBitmap, is_set-set_bit}
use byreal_titan_integration.RouteProgram.Route.{Context, Snapshot, snapshot_account, snapshot_loop}

module _ (rt : Runtime) (ctx : Context) where
  -- One round of the snapshot takes the account's balance and marks its index, or does neither.
  abbrev pub Takes : AccountInfo → ℕ → World → Snapshot → Snapshot → Type 0
  Takes info i w s s' =
      ((n : ℕ) × (is_titan_pda_token_account rt (w.accounts info.key) ctx.titan_pda ≡ true)
        × (extract_token_amount (w.accounts info.key) ≡ ok n)
        × (s'.bitmap ≡ set_bit s.bitmap i)
        × (s'.balances ≡ s.balances ++ n ∷ []))
      ⊎ ((is_titan_pda_token_account rt (w.accounts info.key) ctx.titan_pda ≡ false)
          × (s'.bitmap ≡ s.bitmap)
          × (s'.balances ≡ s.balances))

  pub snapshot_account_lem :
      (info : AccountInfo) (i mints : ℕ) (s s' : Snapshot) (w w' : World)
      → snapshot_account rt ctx info i mints s w ≡ ok (s', w')
      → (w' ≡ w) × Takes info i w s s'
  unfolding snapshot_account
  snapshot_account_lem info i mints s s' w w' h = elim (Bool-cases (ltb i mints)) [
    | inl own ↦
        elim (Bool-cases (is_titan_pda_token_account rt (w.accounts info.key) ctx.titan_pda)) [
          | inl titan ↦ elim (Result-cases (extract_token_amount (w.accounts info.key))) [
            | inl (n, e) ↦ ground arith
            | inr (inl (x, e)) ↦ cc (rw (own, titan, e) at h)
            | inr (inr (x, e)) ↦ cc (rw (own, titan, e) at h)
          ]
          | inr other ↦ cc (rw (own, other) at h)
        ]
    | inr leg ↦ ground arith
  ]

  -- What the rest of the snapshot leaves of what it has so far.
  pub record Extends (i : ℕ) (w w' : World) (s s' : Snapshot) : Type 0 where
    pub same_world : w' ≡ w
    pub more : (tail : List ℕ) × (s'.balances ≡ s.balances ++ tail)
    pub earlier : (j : ℕ) → j < i → is_set s'.bitmap j ≡ is_set s.bitmap j

  pub Takes-IsBitmap :
      (info : AccountInfo) (i : ℕ) (w : World) (s s' : Snapshot)
      → Takes info i w s s'
      → IsBitmap s.bitmap
      → IsBitmap s'.bitmap
  Takes-IsBitmap info i w s s' (inl (n, _, _, e, _)) b = rw e (set_bit-IsBitmap s.bitmap i b)
  Takes-IsBitmap info i w s s' (inr (_, e, _)) b = rw e b

  pub Takes-is_set :
      (info : AccountInfo) (i j : ℕ) (w : World) (s s' : Snapshot)
      → Takes info i w s s'
      → IsBitmap s.bitmap
      → i ≢ j
      → is_set s'.bitmap j ≡ is_set s.bitmap j
  Takes-is_set info i j w s s' (inl (n, _, _, e, _)) b ne =
      rw e (rw (is_set-set_bit s.bitmap i j b, ne→== i j ne))
  Takes-is_set info i j w s s' (inr (_, e, _)) b ne = rw e

  pub Takes-balances :
      (info : AccountInfo) (i : ℕ) (w : World) (s s' : Snapshot)
      → Takes info i w s s'
      → (tail : List ℕ) × (s'.balances ≡ s.balances ++ tail)
  Takes-balances info i w s s' (inl (n, _, _, _, e)) = (n ∷ [], e)
  Takes-balances info i w s s' (inr (_, _, e)) = ([], e ∙ sym (append-nil s.balances))

  pub snapshot_loop_lem :
      (infos : List AccountInfo) (i mints : ℕ) (s s' : Snapshot) (w w' : World)
      → IsBitmap s.bitmap
      → snapshot_loop rt ctx infos i mints s w ≡ ok (s', w')
      → Extends i w w' s s'
  unfolding snapshot_loop
  snapshot_loop_lem [] i mints s s' w w' b h = record {
    same_world = cc h;
    more = ([], (let e : s' ≡ s = cc h in rw e (sym (append-nil s.balances))));
    earlier = λ j lt. let e : s' ≡ s = cc h in rw e;
  }
  snapshot_loop_lem (info ∷ infos) i mints s s' w w' b h =
      let (s1, w1, first, rest) =
        run-bind (snapshot_account rt ctx info i mints s) (snapshot_loop rt ctx infos (i + 1) mints)
          w (s', w') h in
      let (same, takes) = snapshot_account_lem info i mints s s1 w w1 first in
      let later =
        snapshot_loop_lem infos (i + 1) mints s1 s' w1 w' (Takes-IsBitmap info i w s s1 takes b)
          rest in
      let (t, e) = Takes-balances info i w s s1 takes in
      let (t', e') = later.more in
      record {
        same_world = later.same_world ∙ same;
        more = (t ++ t', e' ∙ rw e (append_assoc s.balances t t'));
        earlier = λ j lt.
            later.earlier j (omega arith)
            ∙ Takes-is_set info i j w s s1 takes b (λ same_index. omega arith);
      }
