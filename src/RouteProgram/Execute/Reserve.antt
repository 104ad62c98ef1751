-- ===== src/RouteProgram/Execute/Reserve.antt =====
-- The reserve check of instructions/swap_route_v3.rs: what a route that succeeds leaves in the TitanPDA's
-- token accounts.
use byreal_titan_integration.Base.{
  ℕ, zero, suc, ◌+◌, ◌≤◌, ◌<◌, ◌≡◌, refl, sym, ◌∙◌, ◌⊎◌, inl, inr, true, false, List, [], ◌∷◌, ◌++◌,
  some, ok, arith, length, length-append, get_elem?, get_elem?-append, ltb, leb, leb→le, eq→==,
  Bool-cases, Option-cases, Result-cases, lt→ltb, ltb→le, ltb→lt,
}
use mathlib.Core.List.{append_assoc}
use byreal_titan_integration.RouteProgram.Runtime.{AccountInfo, World, Runtime, run-bind, ◌>>◌}
use byreal_titan_integration.RouteProgram.Accounts.{
  extract_token_amount, or_zero, is_titan_pda_token_account,
}
use byreal_titan_integration.RouteProgram.Bitmap.{TitanPdaBitmap, is_set}
use byreal_titan_integration.RouteProgram.Bitmap.Laws.{
  IsBitmap, new-IsBitmap, is_set-new, is_set-set_bit,
}
use byreal_titan_integration.RouteProgram.Route.{
  Context, Snapshot, validate, snapshot_account, snapshot_loop, check_account, check_reserved,
}
use byreal_titan_integration.RouteProgram.State.{SwapSpecInputV2}
use byreal_titan_integration.RouteProgram.Execute.{Prepared, empty_snapshot, execute, prepare}
use byreal_titan_integration.RouteProgram.Execute.Stages.{stages}
use byreal_titan_integration.RouteProgram.Execute.Marks.{
  Takes, snapshot_account_lem, Takes-IsBitmap, Takes-is_set, snapshot_loop_lem,
}

module _ (rt : Runtime) (ctx : Context) where
  -- One round of the last loop.
  check_account_lem :
      (info : AccountInfo) (i : ℕ) (bitmap : TitanPdaBitmap) (balances : List ℕ) (idx next : ℕ)
      (v v' : World)
      → check_account rt ctx info i bitmap balances idx v ≡ ok (next, v')
      → (v' ≡ v)
        × (((m : ℕ) × (b : ℕ) × (is_set bitmap i ≡ true)
              × (or_zero (extract_token_amount (v.accounts info.key)) ≡ ok m)
              × (get_elem? balances idx ≡ some b)
              × (b ≤ m)
              × (next ≡ idx + 1))
            ⊎ ((is_set bitmap i ≡ false) × (next ≡ idx)))
  unfolding check_account
  check_account_lem info i bitmap balances idx next v v' h = elim (Bool-cases (is_set bitmap i)) [
    | inl marked ↦ elim (Result-cases (or_zero (extract_token_amount (v.accounts info.key)))) [
      | inl (m, e) ↦ elim (Option-cases (get_elem? balances idx)) [
        | inr (b, e') ↦ elim (Bool-cases (leb b m)) [
          | inl fits ↦
              let h' : ok (idx + 1, v) ≡ ok (next, v') = rw (marked, e, e', fits) at h in
              (cc h', inl (m, b, marked, e, e', leb→le b m fits, cc h'))
          | inr less ↦ cc (rw (marked, e, e', less) at h)
        ]
        | inl e' ↦ cc (rw (marked, e, e') at h)
      ]
      | inr (inl (x, e)) ↦ cc (rw (marked, e) at h)
      | inr (inr (x, e)) ↦ cc (rw (marked, e) at h)
    ]
    | inr clear ↦
        let h' : ok (idx, v) ≡ ok (next, v') = rw clear at h in (cc h', inr (clear, cc h'))
  ]

  -- What the account `info` at the index `i` holds in `v` is not below what it held in `w`, if it was then a
  -- token account of the TitanPDA and the index is within the bitmap.
  abbrev pub Kept : World → World → AccountInfo → ℕ → Type 0
  Kept w v info i =
      i < 256
      → is_titan_pda_token_account rt (w.accounts info.key) ctx.titan_pda ≡ true
      → (n : ℕ) × (m : ℕ) × (extract_token_amount (w.accounts info.key) ≡ ok n)
        × (or_zero (extract_token_amount (v.accounts info.key)) ≡ ok m)
        × (n ≤ m)

  unfoldable pub AllKept : World → World → List AccountInfo → ℕ → Type 0
  AllKept w v [] i = Unit
  AllKept w v (info ∷ infos) i = Kept w v info i × AllKept w v infos (i + 1)

  -- One account, marked in the snapshot and then checked.
  round-Kept :
      (info : AccountInfo) (i : ℕ) (s s1 s' : Snapshot) (tail : List ℕ) (next : ℕ) (w v v1 : World)
      → IsBitmap s.bitmap
      → is_set s.bitmap i ≡ false
      → Takes rt ctx info i w s s1
      → is_set s'.bitmap i ≡ is_set s1.bitmap i
      → s'.balances ≡ s1.balances ++ tail
      → check_account rt ctx info i s'.bitmap s'.balances (length s.balances) v ≡ ok (next, v1)
      → i < 256
      → (v1 ≡ v) × Kept w v info i × (next ≡ length s1.balances)
  round-Kept info i s s1 s' tail next w v v1 good fresh (inl (n, titan, amount, bits, bals)) same
        later h lt =
      let (world, cases) =
        check_account_lem info i s'.bitmap s'.balances (length s.balances) next v v1 h in
      let held : get_elem? s'.balances (length s.balances) ≡ some n =
        rw (later, bals, append_assoc s.balances (n ∷ []) tail)
          (get_elem?-append s.balances n tail) in
      elim cases [
        | inl (m, b, _, after, held', fits, e) ↦
            let same_amount : b ≡ n = cc (held, held') in
            (
              world,
              (λ _ _. (n, m, amount, after, rw (sym same_amount) fits)),
              rw bals (rw (length-append s.balances (n ∷ [])) e),
            )
        | inr (clear, _) ↦
            let set' : is_set s'.bitmap i ≡ true =
              rw (same, bits, is_set-set_bit s.bitmap i i good, eq→== i, lt→ltb i 256 lt) refl in
            cc (set', clear)
      ]
  round-Kept info i s s1 s' tail next w v v1 good fresh (inr (titan, bits, bals)) same later h lt =
      let (world, cases) =
        check_account_lem info i s'.bitmap s'.balances (length s.balances) next v v1 h in
      elim cases [
        | inl (_, _, marked, _, _, _, _) ↦
            let e : is_set s'.bitmap i ≡ false = rw (same, bits, fresh) refl in cc (e, marked)
        | inr (_, e) ↦ (world, (λ _ t. cc (t, titan)), rw bals e)
      ]

  check_reserved_world :
      (infos : List AccountInfo) (i : ℕ) (bitmap : TitanPdaBitmap) (balances : List ℕ) (idx : ℕ)
      (v v' : World)
      → check_reserved rt ctx infos i bitmap balances idx v ≡ ok (tt, v')
      → v' ≡ v
  unfolding check_reserved
  check_reserved_world [] i bitmap balances idx v v' h = cc h
  check_reserved_world (info ∷ infos) i bitmap balances idx v v' h =
      let (next, v1, first, rest) =
        run-bind (check_account rt ctx info i bitmap balances idx)
          (check_reserved rt ctx infos (i + 1) bitmap balances) v (tt, v') h in
      check_reserved_world infos (i + 1) bitmap balances next v1 v' rest
      ∙ (check_account_lem info i bitmap balances idx next v v1 first).0

  AllKept-beyond : (w v : World) (infos : List AccountInfo) (i : ℕ) → 256 ≤ i → AllKept w v infos i
  unfolding AllKept
  AllKept-beyond w v [] i h = tt
  AllKept-beyond w v (info ∷ infos) i h =
      ((λ lt _. absurd (omega arith)), AllKept-beyond w v infos (i + 1) (omega arith))

  loop-AllKept :
      (infos : List AccountInfo) (i mints : ℕ) (s s' : Snapshot) (w w' v v' : World)
      → IsBitmap s.bitmap
      → ((j : ℕ) → i ≤ j → is_set s.bitmap j ≡ false)
      → snapshot_loop rt ctx infos i mints s w ≡ ok (s', w')
      → check_reserved rt ctx infos i s'.bitmap s'.balances (length s.balances) v ≡ ok (tt, v')
      → AllKept w v infos i
  unfolding snapshot_loop check_reserved AllKept
  loop-AllKept [] i mints s s' w w' v v' good fresh taken checked = tt
  loop-AllKept (info ∷ infos) i mints s s' w w' v v' good fresh taken checked =
      let (s1, w1, first, rest) =
        run-bind (snapshot_account rt ctx info i mints s) (snapshot_loop rt ctx infos (i + 1) mints)
          w (s', w') taken in
      let (next, v1, check, checks) =
        run-bind (check_account rt ctx info i s'.bitmap s'.balances (length s.balances))
          (check_reserved rt ctx infos (i + 1) s'.bitmap s'.balances) v (tt, v') checked in
      let (same, takes) = snapshot_account_lem rt ctx info i mints s s1 w w1 first in
      let good1 = Takes-IsBitmap rt ctx info i w s s1 takes good in
      let later = snapshot_loop_lem rt ctx infos (i + 1) mints s1 s' w1 w' good1 rest in
      let (tail, longer) = later.more in
      elim (Bool-cases (ltb i 256)) [
        | inl within ↦
            let (world, kept, e) =
              round-Kept info i s s1 s' tail next w v v1 good (fresh i (omega arith)) takes
                (later.earlier i (omega arith)) longer check (ltb→lt i 256 within) in
            (
              kept,
              loop-AllKept infos (i + 1) mints s1 s' w w' v v' good1
                  (λ j le.
                    Takes-is_set rt ctx info i j w s s1 takes good (λ same_index. omega arith)
                    ∙ fresh j (omega arith))
                  (rw same at rest) (rw (world, e) at checks),
            )
        | inr past ↦ AllKept-beyond w v (info ∷ infos) i (ltb→le i 256 past)
      ]

  AllKept-get_elem? :
      (w v : World) (infos : List AccountInfo) (i j : ℕ) (info : AccountInfo)
      → AllKept w v infos i
      → get_elem? infos j ≡ some info
      → Kept w v info (i + j)
  unfolding AllKept
  AllKept-get_elem? w v [] i j info all h = cc h
  AllKept-get_elem? w v (first ∷ infos) i zero info (here, _) h =
      let e : first ≡ info = cc h in
      let zero_more : i + 0 ≡ i = omega arith in rw (zero_more, sym e) here
  AllKept-get_elem? w v (first ∷ infos) i (suc j) info (_, there) h =
      let shift : i + suc j ≡ i + 1 + j = omega arith in
      rw shift (AllKept-get_elem? w v infos (i + 1) j info there h)

  prepared_world :
      (mints : ℕ) (swaps : List SwapSpecInputV2) (p p' : Prepared) (w valid taken taken' : World)
      → (validate ctx mints swaps >> prepare rt ctx mints swaps) w ≡ ok (p, taken)
      → validate ctx mints swaps w ≡ ok (tt, valid)
      → prepare rt ctx mints swaps valid ≡ ok (p', taken')
      → taken' ≡ taken
  prepared_world mints swaps p p' w valid taken taken' both first second =
      let (t, w', first', second') =
        run-bind (validate ctx mints swaps) (λ done. prepare rt ctx mints swaps) w (p, taken)
          both in
      let same : w' ≡ valid = cc (first, first') in cc (rw same at second', second)

  -- When `execute` succeeds, each of the first 256 remaining accounts that is a token account of the TitanPDA
  -- once the missing ones are created ends with at least the amount it held then; one that is closed counts as
  -- holding nothing.
  pub execute_keeps_reserves :
      (amount mints : ℕ) (swaps : List SwapSpecInputV2) (p : Prepared) (w taken v : World) (i : ℕ)
      (info : AccountInfo)
      → (validate ctx mints swaps >> prepare rt ctx mints swaps) w ≡ ok (p, taken)
      → execute rt ctx amount mints swaps w ≡ ok (tt, v)
      → get_elem? ctx.remaining_accounts i ≡ some info
      → i < 256
      → is_titan_pda_token_account rt (taken.accounts info.key) ctx.titan_pda ≡ true
      → (n : ℕ) × (m : ℕ) × (extract_token_amount (taken.accounts info.key) ≡ ok n)
        × (or_zero (extract_token_amount (v.accounts info.key)) ≡ ok m)
        × (n ≤ m)
  unfolding execute
  execute_keeps_reserves amount mints swaps p w taken v i info prepared done found within titan =
      let r = stages rt ctx amount mints swaps w v done in
      let same =
        prepared_world mints swaps p r.prepared w r.valid taken r.taken prepared r.validate_ok
          r.prepare_ok in
      let world =
        check_reserved_world ctx.remaining_accounts 0 r.snapshot.bitmap r.snapshot.balances 0
          r.closed v r.check_ok in
      let all =
        loop-AllKept ctx.remaining_accounts 0 mints empty_snapshot r.snapshot r.taken r.snapped
          r.closed v new-IsBitmap (λ j le. is_set-new j) r.snapshot_ok r.check_ok in
      AllKept-get_elem? taken v ctx.remaining_accounts 0 i info (rw (same, sym world) at all) found
        (omega arith) titan
