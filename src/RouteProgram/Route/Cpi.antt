-- ===== src/RouteProgram/Route/Cpi.antt =====
-- The off-chain builder of a leg (swap_route/mod.rs) and the program's call of the venue
-- (instructions/swap_route_v3.rs) together.
use mathlib.Core.List.{map-append}
use byreal_titan_integration.Base.{
  ℕ, ◌-◌, ◌≡◌, refl, true, false, ◌||◌, List, [], ◌∷◌, ◌++◌, map, length, length-append, take,
  take_append, get_last?, get_last?-append, All, ◌==◌, ==→eq, Bool-cases, inl, inr, arith,
  to_le_bytes, ap, some,
}
use byreal_titan_integration.Solana.{AccountMeta, Instruction, readonly}
use byreal_titan_integration.TradingVenue.Error.{Pubkey}
use byreal_titan_integration.SwapRoute.{clear_signer, assemble_leg_accounts}
use byreal_titan_integration.RouteProgram.State.{SwapSpecInputV2, byreal_clmm}
use byreal_titan_integration.RouteProgram.Runtime.{
  AccountInfo, venue, World, Runtime, invoke, bind-pure,
}
use byreal_titan_integration.RouteProgram.Calls.{
  swap_v3_dyn, swap_v3_dyn_discriminator, venue_instructions, invoke_all, perform_cpi_swap,
}
use byreal_titan_integration.RouteProgram.Route.{leg_metas}

-- The entry that the transaction has for an account of the leg.
abbrev pub info_of : AccountMeta → AccountInfo
info_of m = record { key = m.pubkey; is_signer = m.is_signer; is_writable = m.is_writable }

abbrev pub leg_infos : Instruction → Pubkey → Pubkey → List AccountInfo
leg_infos ix titan_pda program_id = map info_of (assemble_leg_accounts ix titan_pda program_id)

-- An instruction in which the TitanPDA signs wherever it stands.
abbrev pub SignsAs : Pubkey → AccountMeta → Type 0
SignsAs titan_pda m = m.pubkey ≡ titan_pda → m.is_signer ≡ true

-- The venue's instruction as the program builds it.
abbrev pub venue_instruction : Pubkey → ℕ → List AccountMeta → Instruction
venue_instruction program_id amount accounts = record {
  program_id = program_id;
  accounts = accounts;
  payload =
      swap_v3_dyn_discriminator
      ++ (to_le_bytes 8 amount ++ (to_le_bytes 8 0 ++ (to_le_bytes 16 0 ++ 1 ∷ [])));
}

abbrev signed_again : Pubkey → AccountInfo → AccountMeta
signed_again titan_pda a = record {
  pubkey = a.key;
  is_signer = a.key == titan_pda || a.is_signer;
  is_writable = a.is_writable;
}

signed_again-clear_signer :
    (titan_pda : Pubkey) (m : AccountMeta)
    → SignsAs titan_pda m
    → signed_again titan_pda (info_of (clear_signer titan_pda m)) ≡ m
signed_again-clear_signer titan_pda m h = elim (Bool-cases (m.pubkey == titan_pda)) [
  | inl own ↦ rw (own, own, h (==→eq _ _ own)) refl
  | inr other ↦ rw (other, other) refl
]

leg_metas-clear_signer :
    (titan_pda : Pubkey) (accounts : List AccountMeta)
    → All (SignsAs titan_pda) accounts
    → leg_metas titan_pda (map info_of (map (clear_signer titan_pda) accounts)) ≡ accounts
leg_metas-clear_signer titan_pda [] h = refl
leg_metas-clear_signer titan_pda (m ∷ rest) (here, there) =
    rw (signed_again-clear_signer titan_pda m here)
      (ap (λ ms. m ∷ ms) (leg_metas-clear_signer titan_pda rest there))

leg_infos_lem :
    (ix : Instruction) (titan_pda program_id : Pubkey)
    → leg_infos ix titan_pda program_id
      ≡ map info_of (map (clear_signer titan_pda) ix.accounts)
        ++ info_of (readonly program_id false) ∷ []
unfolding assemble_leg_accounts
leg_infos_lem ix titan_pda program_id =
    map-append info_of (map (clear_signer titan_pda) ix.accounts) (readonly program_id false ∷ [])

take_butlast :
    {A : Type 0} (xs : List A) (x : A) → take (length (xs ++ x ∷ []) - 1) (xs ++ x ∷ []) ≡ xs
take_butlast xs x =
    let size : length (xs ++ x ∷ []) - 1 ≡ length xs = omega (arith, length-append xs (x ∷ [])) in
    rw size (take_append xs (x ∷ []))

invoke_all_one :
    (rt : Runtime) (i : Instruction) (infos : List AccountInfo) (w : World)
    → invoke_all rt (i ∷ []) infos w ≡ invoke rt (venue i infos) true w
unfolding invoke_all
invoke_all_one rt i infos w = bind-pure (invoke rt (venue i infos) true) w

perform_cpi_swap_lem :
    (rt : Runtime) (amount : ℕ) (swap : SwapSpecInputV2) (metas : List AccountMeta)
    (infos : List AccountInfo) (last : AccountInfo) (w : World)
    → get_last? infos ≡ some last
    → perform_cpi_swap rt amount swap metas infos w
      ≡ invoke rt (venue (venue_instruction last.key amount metas) infos) true w
unfolding perform_cpi_swap venue_instructions swap_v3_dyn
perform_cpi_swap_lem rt amount swap metas infos last w h =
    elim swap.venue
      as (λ v.
        ◌≡◌ (perform_cpi_swap rt amount (record swap { venue = v }) metas infos w)
          (invoke rt (venue (venue_instruction last.key amount metas) infos) true w)) [
            | byreal_clmm zero_for_one ↦
                rw h (invoke_all_one rt (venue_instruction last.key amount metas) infos w)
          ]

-- The program, given the accounts that the off-chain builder made of a venue's instruction, calls the venue with
-- that instruction's accounts, the TitanPDA signing again, at the program's id that the builder put last.
pub perform_cpi_swap-assemble_leg_accounts :
    (rt : Runtime) (ix : Instruction) (titan_pda program_id : Pubkey) (amount : ℕ)
    (swap : SwapSpecInputV2) (w : World)
    → All (SignsAs titan_pda) ix.accounts
    → perform_cpi_swap rt amount swap
        (leg_metas titan_pda (
          take
            (length (leg_infos ix titan_pda program_id) - 1)
            (leg_infos ix titan_pda program_id)))
        (leg_infos ix titan_pda program_id)
        w
      ≡ invoke rt
          (venue
            (venue_instruction program_id amount ix.accounts)
            (leg_infos ix titan_pda program_id))
          true
          w
perform_cpi_swap-assemble_leg_accounts rt ix titan_pda program_id amount swap w h =
    let front = map info_of (map (clear_signer titan_pda) ix.accounts) in
    let last = info_of (readonly program_id false) in
    rw
      (
        leg_infos_lem ix titan_pda program_id,
        take_butlast front last,
        leg_metas-clear_signer titan_pda ix.accounts h,
      )
      (perform_cpi_swap_lem rt amount swap ix.accounts (front ++ last ∷ []) last w
        (get_last?-append front last))
