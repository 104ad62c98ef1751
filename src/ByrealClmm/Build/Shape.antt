-- ===== src/ByrealClmm/Build/Shape.antt =====
-- What the instructions that `build_swap_instruction` returns are.
use byreal_titan_integration.Base.{
  ℕ, suc, ◌+◌, ◌-◌, ◌≤◌, ◌≡◌, get_elem?, refl, sym, ◌∙◌, ap, ◌⊎◌, inl, inr, Bool, true, false, List,
  [], ◌∷◌, ◌++◌, map, length, length-append, length-map, some, Bool-cases, All, All-append, ok,
  ok_or, bind-eq-ok, arith, contains_key,
}
use byreal_titan_integration.Solana.{AccountMeta, readonly, writable, Instruction}
use byreal_titan_integration.TradingVenue.Error.{Pubkey, missing_state, static_str}
use byreal_titan_integration.ByrealClmm.Library.{Library}
use byreal_titan_integration.ByrealClmm.Core.{
  Core, ensure_open, validate_mints, token0_pyth_oracle_pubkey, token1_pyth_oracle_pubkey,
}
use byreal_titan_integration.ByrealClmm.TickArrays.{live_directional_tick_arrays}
use byreal_titan_integration.ByrealClmm.TickArrays.Live.{
  loaded_of, get_swap_tick_arrays_lem, live_directional_tick_arrays_lem,
}
use byreal_titan_integration.ByrealClmm.Build.{
  SwapBuildRequest, vault_accounts, oracle_accounts, build_swap_instruction,
}

length-loaded_of :
    {V : Type 0} (m : List (ℕ × V)) (ks : List Pubkey) → length (loaded_of m ks) ≤ length ks
length-loaded_of m [] = omega arith
length-loaded_of m (k ∷ ks) = ground (arith, length-loaded_of m ks)

module _ (lib : Library) (core : Core lib) where
  -- A mint pair that passes is the pool's, in the order that the flags say.
  validate_mints_ok :
      (input output : Pubkey) (a b : Bool)
      → validate_mints lib core input output ≡ ok (a, b)
      → ((a ≡ true) × (input ≡ core.reserve_mints.0) × (output ≡ core.reserve_mints.1))
        ⊎ ((a ≡ false) × (input ≡ core.reserve_mints.1) × (output ≡ core.reserve_mints.0))
  unfolding validate_mints
  validate_mints_ok input output a b h = ground arith

  live_directional_tick_arrays_size :
      (zero_for_one : Bool) (live : List Pubkey)
      → live_directional_tick_arrays lib core zero_for_one ≡ ok live
      → (1 ≤ length live) × (length live ≤ suc (core.max_one_side_tick_arrays - 1))
  live_directional_tick_arrays_size zero_for_one live h =
      let (first, rest, arrays, size) = get_swap_tick_arrays_lem lib core zero_for_one in
      let e = sym (live_directional_tick_arrays_lem lib core zero_for_one first rest arrays) ∙ h in
      elim (Bool-cases (contains_key core.dynamic_tick_arrays first)) [
        | inl loaded ↦
            let e' : ok (first ∷ loaded_of core.dynamic_tick_arrays rest) ≡ ok live =
              rw loaded at e in
            let same : first ∷ loaded_of core.dynamic_tick_arrays rest ≡ live = cc e' in
            rw (sym same)
              (omega arith, omega (arith, size, length-loaded_of core.dynamic_tick_arrays rest))
        | inr absent ↦ cc (rw absent at e)
      ]

  oracle_accounts_ok :
      (dynamic : Bool) (oracles : List AccountMeta)
      → oracle_accounts lib core dynamic ≡ ok oracles
      → All (λ m. m.is_signer ≡ false) oracles × (length oracles ≤ 2)
  unfolding oracle_accounts
  oracle_accounts_ok false oracles h = let e : [] ≡ oracles = cc h in rw (sym e) (tt, omega arith)
  oracle_accounts_ok true oracles h =
      let (first, _, h1) =
        bind-eq-ok
          (ok_or (token0_pyth_oracle_pubkey lib core)
            (missing_state (static_str "token0 pyth feed id is not configured")))
          _ oracles h in
      let (second, _, h2) =
        bind-eq-ok
          (ok_or (token1_pyth_oracle_pubkey lib core)
            (missing_state (static_str "token1 pyth feed id is not configured")))
          _ oracles h1 in
      let e : readonly first false ∷ readonly second false ∷ [] ≡ oracles = cc h2 in
      rw (sym e) ((refl, (refl, tt)), omega arith)

  tick_arrays_unsigned :
      (ks : List Pubkey) → All (λ m. m.is_signer ≡ false) (map (λ k. writable k false) ks)
  tick_arrays_unsigned [] = tt
  tick_arrays_unsigned (k ∷ ks) = (refl, tick_arrays_unsigned ks)

  -- The vaults of a swap from the one mint to the other.
  abbrev pub Directed : SwapBuildRequest → Instruction → Type 0
  Directed request ix =
      ((request.source_mint ≡ core.reserve_mints.0)
        × (request.destination_mint ≡ core.reserve_mints.1)
        × (get_elem? ix.accounts 5 ≡ some (writable core.pool_state.token_vault_0 false))
        × (get_elem? ix.accounts 6 ≡ some (writable core.pool_state.token_vault_1 false)))
      ⊎ ((request.source_mint ≡ core.reserve_mints.1)
          × (request.destination_mint ≡ core.reserve_mints.0)
          × (get_elem? ix.accounts 5 ≡ some (writable core.pool_state.token_vault_1 false))
          × (get_elem? ix.accounts 6 ≡ some (writable core.pool_state.token_vault_0 false)))

  vault_accounts_unsigned :
      (request : SwapBuildRequest) (zero_for_one : Bool)
      → (rest : List AccountMeta) × (vault_accounts lib core request zero_for_one
          ≡ readonly request.user_authority true ∷ rest)
        × All (λ m. m.is_signer ≡ false) rest
        × (length rest ≡ 13)
  vault_accounts_unsigned request true = (
    _,
    refl,
    (
      refl,
      (
        refl,
        (refl, (refl, (refl, (refl, (refl, (refl, (refl, (refl, (refl, (refl, (refl, tt))))))))))),
      ),
    ),
    refl,
  )
  vault_accounts_unsigned request false = (
    _,
    refl,
    (
      refl,
      (
        refl,
        (refl, (refl, (refl, (refl, (refl, (refl, (refl, (refl, (refl, (refl, (refl, tt))))))))))),
      ),
    ),
    refl,
  )

  directed :
      (request : SwapBuildRequest) (a b : Bool) (tail : List AccountMeta) (data_bytes : List ℕ)
      → validate_mints lib core request.source_mint request.destination_mint ≡ ok (a, b)
      → Directed request (record {
        program_id = core.program_id;
        accounts = vault_accounts lib core request a ++ tail;
        payload = data_bytes;
      })
  directed request true b tail data_bytes h =
      elim (validate_mints_ok request.source_mint request.destination_mint true b h) [
        | inl (_, source, destination) ↦ inl (source, destination, refl, refl)
        | inr (wrong, _, _) ↦ cc wrong
      ]
  directed request false b tail data_bytes h =
      elim (validate_mints_ok request.source_mint request.destination_mint false b h) [
        | inl (wrong, _, _) ↦ cc wrong
        | inr (_, source, destination) ↦ inr (source, destination, refl, refl)
      ]

  -- A swap instruction that is built goes to the pool's program, carries the request's amount and threshold with no
  -- price limit, is signed by the user alone, who stands first, has between 15 accounts and 16 more than one direction's
  -- limit of tick arrays, and names the vaults in the direction of the request's mints, which are the pool's two.
  pub build_swap_instruction_ok :
      (request : SwapBuildRequest) (ix : Instruction)
      → build_swap_instruction lib core request ≡ ok ix
      → (ix.program_id ≡ core.program_id)
        × (ix.payload ≡ lib.swap_v3_dyn_data request.amount request.other_amount_threshold 0 true)
        × ((rest : List AccountMeta) × (ix.accounts ≡ readonly request.user_authority true ∷ rest)
            × All (λ m. m.is_signer ≡ false) rest
            × (14 ≤ length rest)
            × (length rest ≤ 16 + (core.max_one_side_tick_arrays - 1)))
        × Directed request ix
  unfolding build_swap_instruction
  build_swap_instruction_ok request ix h =
      let (opened, _, h1) = bind-eq-ok (ensure_open lib core) _ ix h in
      let ((a, b), mints, h2) =
        bind-eq-ok (validate_mints lib core request.source_mint request.destination_mint) _ ix h1 in
      let (live, arrays, h3) = bind-eq-ok (live_directional_tick_arrays lib core a) _ ix h2 in
      let (oracles, feeds, h4) =
        bind-eq-ok (oracle_accounts lib core (lib.is_swap_dynamic_fee_enabled core.pool_state)) _ ix
          h3 in
      let (some_live, few_live) = live_directional_tick_arrays_size a live arrays in
      let (oracles_unsigned, few_oracles) =
        oracle_accounts_ok (lib.is_swap_dynamic_fee_enabled core.pool_state) oracles feeds in
      let tail = map (λ k. writable k false) live ++ oracles in
      let tail_unsigned =
        All-append (λ m. m.is_signer ≡ false) (map (λ k. writable k false) live) oracles
          (tick_arrays_unsigned live, oracles_unsigned) in
      let tail_size : length tail ≡ length live + length oracles =
        length-append (map (λ k. writable k false) live) oracles
        ∙ rw (length-map (λ k. writable k false) live) refl in
      let (rest, e, rest_unsigned, rest_size) = vault_accounts_unsigned request a in
      let payload = lib.swap_v3_dyn_data request.amount request.other_amount_threshold 0 true in
      let made : Instruction = record {
        program_id = core.program_id;
        accounts = vault_accounts lib core request a ++ tail;
        payload = payload;
      } in
      let built : made ≡ ix = cc h4 in
      rw (sym built) (
        refl,
        refl,
        (
          rest ++ tail,
          ap (λ accounts. accounts ++ tail) e,
          All-append (λ m. m.is_signer ≡ false) rest tail (rest_unsigned, tail_unsigned),
          omega (arith, length-append rest tail),
          omega (arith, length-append rest tail),
        ),
        directed request a b tail payload mints,
      )
