-- ===== src/SwapRoute/Leg.antt =====
-- `build_swap_leg` of src/swap_route/mod.rs: what a leg that it returns is, and when it refuses.
use mathlib.Core.Path.{subst}
use byreal_titan_integration.Base.{
  ℕ, zero, suc, ◌+◌, ◌%◌, ◌≡◌, refl, ◌≢◌, ◌↔◌, ◌⊎◌, get_elem?, inl, inr, true, false, none, some,
  List, [], ◌∷◌, ◌++◌, map, arith, length, length-append, length-map, get_last?, get_last?-append,
  All, All-append, ok, err, bind-eq-ok, sym,
}
use byreal_titan_integration.Solana.{AccountMeta, readonly, Instruction}
use byreal_titan_integration.TradingVenue.Error.{Pubkey, unsupported_venue, static_str}
use byreal_titan_integration.TradingVenue.Request.{QuoteRequest}
use byreal_titan_integration.TradingVenue.TokenInfo.{TokenInfo}
use byreal_titan_integration.TradingVenue.Interface.{TradingVenue}
use byreal_titan_integration.SwapRoute.{
  Venue, byreal_clmm, SwapSpecInputV2, protocol_to_venue, fail_closed,
  fail_closed_for_transfer_fee_route_mints, clear_signer, assemble_leg_accounts, build_swap_leg,
}

-- A token of the route that charges a transfer fee.
abbrev pub HasFee : QuoteRequest → TokenInfo → Type 0
HasFee request t =
    ((t.pubkey ≡ request.input_mint) ⊎ (t.pubkey ≡ request.output_mint)) × (t.transfer_fee ≢ none)

fail_closed-ok :
    {F : Type 0} (v : TradingVenue F) (request : QuoteRequest) (tokens : List TokenInfo)
    → fail_closed v request tokens ≡ ok tt
    → All (λ t. ¬ HasFee request t) tokens
unfolding fail_closed
fail_closed-ok v request [] h = tt
fail_closed-ok v request (t ∷ tokens) h =
    (λ fee. ground arith, fail_closed-ok v request tokens (ground arith))

cleared :
    (titan_pda : Pubkey) (ms : List AccountMeta)
    → All (λ m. m.pubkey ≡ titan_pda → m.is_signer ≡ false) (map (clear_signer titan_pda) ms)
cleared titan_pda [] = tt
cleared titan_pda (m ∷ ms) = (λ e. ground arith, cleared titan_pda ms)

cleared_pubkeys :
    (titan_pda program_id : Pubkey) (ms : List AccountMeta)
    → map (λ m. m.pubkey) (map (clear_signer titan_pda) ms ++ readonly program_id false ∷ [])
      ≡ map (λ m. m.pubkey) ms ++ program_id ∷ []
cleared_pubkeys titan_pda program_id [] = refl
cleared_pubkeys titan_pda program_id (m ∷ ms) =
    ground (arith, cleared_pubkeys titan_pda program_id ms)

cleared_writables :
    (titan_pda program_id : Pubkey) (ms : List AccountMeta)
    → map (λ m. m.is_writable) (map (clear_signer titan_pda) ms ++ readonly program_id false ∷ [])
      ≡ map (λ m. m.is_writable) ms ++ false ∷ []
cleared_writables titan_pda program_id [] = refl
cleared_writables titan_pda program_id (m ∷ ms) =
    ground (arith, cleared_writables titan_pda program_id ms)

-- What a leg's account list is, for the venue's own instruction `ix`.
pub record IsLegOf (titan_pda program_id : Pubkey) (ix : Instruction) (accounts : List AccountMeta)
    : Type 0 where
  pub keys : map (λ m. m.pubkey) accounts ≡ map (λ m. m.pubkey) ix.accounts ++ program_id ∷ []
  pub writables :
      map (λ m. m.is_writable) accounts ≡ map (λ m. m.is_writable) ix.accounts ++ false ∷ []
  pub program_last : get_last? accounts ≡ some (readonly program_id false)
  pub unsigned : All (λ m. m.pubkey ≡ titan_pda → m.is_signer ≡ false) accounts
  pub size : length accounts ≡ length ix.accounts + 1

pub assemble_leg_accounts-IsLegOf :
    (ix : Instruction) (titan_pda program_id : Pubkey)
    → IsLegOf titan_pda program_id ix (assemble_leg_accounts ix titan_pda program_id)
unfolding assemble_leg_accounts
assemble_leg_accounts-IsLegOf ix titan_pda program_id = record {
  keys = cleared_pubkeys titan_pda program_id ix.accounts;
  writables = cleared_writables titan_pda program_id ix.accounts;
  program_last =
      get_last?-append (map (clear_signer titan_pda) ix.accounts) (readonly program_id false);
  unsigned =
      All-append _ (map (clear_signer titan_pda) ix.accounts) _
        (cleared titan_pda ix.accounts, (λ e. refl, tt));
  size = rw (length-append (map (clear_signer titan_pda) ix.accounts), length-map) (omega arith);
}

-- A leg that is returned is made from the venue's own swap instruction for the TitanPDA: the same
-- accounts in the same order, the TitanPDA not signing, the program id last and read-only, the
-- account count (a u8) one more than the instruction's; and no token of the route charges a fee.
pub build_swap_leg_ok :
    {F : Type 0} (venue : TradingVenue F) (request : QuoteRequest) (titan_pda : Pubkey)
    (from to weight_nanos : ℕ) (spec : SwapSpecInputV2) (accounts : List AccountMeta)
    → build_swap_leg venue request titan_pda from to weight_nanos ≡ ok (spec, accounts)
    → ((ix : Instruction) × (venue.generate_swap_instruction request titan_pda ≡ ok ix)
        × IsLegOf titan_pda venue.program_id ix accounts)
      × (protocol_to_venue venue request ≡ ok spec.venue)
      × (spec.n_accounts ≡ length accounts % 256)
      × ((spec.from ≡ from) × (spec.to ≡ to) × (spec.weight_nanos ≡ weight_nanos))
      × All (λ t. ¬ HasFee request t) venue.get_token_info
unfolding build_swap_leg fail_closed_for_transfer_fee_route_mints
build_swap_leg_ok venue request titan_pda from to weight_nanos spec accounts h =
    let (done, closed, h1) =
      bind-eq-ok (fail_closed venue request venue.get_token_info) _ (spec, accounts) h in
    let (ix, made, h2) =
      bind-eq-ok (venue.generate_swap_instruction request titan_pda) _ (spec, accounts) h1 in
    let (v, mapped, h3) = bind-eq-ok (protocol_to_venue venue request) _ (spec, accounts) h2 in
    let assembled : assemble_leg_accounts ix titan_pda venue.program_id ≡ accounts = cc h3 in
    (
      (
        ix,
        made,
        subst (IsLegOf titan_pda venue.program_id ix) assembled
            (assemble_leg_accounts-IsLegOf ix titan_pda venue.program_id),
      ),
      ground (arith, mapped, h3),
      ground (arith, h3, assembled),
      (ground (arith, h3), ground (arith, h3), ground (arith, h3)),
      fail_closed-ok venue request venue.get_token_info closed,
    )

-- The accounts of a leg, for the instruction that the venue generates.
pub build_swap_leg_accounts :
    {F : Type 0} (venue : TradingVenue F) (request : QuoteRequest) (titan_pda : Pubkey)
    (from to weight_nanos : ℕ) (spec : SwapSpecInputV2) (accounts : List AccountMeta)
    (ix : Instruction)
    → build_swap_leg venue request titan_pda from to weight_nanos ≡ ok (spec, accounts)
    → venue.generate_swap_instruction request titan_pda ≡ ok ix
    → accounts ≡ assemble_leg_accounts ix titan_pda venue.program_id
unfolding build_swap_leg
build_swap_leg_accounts venue request titan_pda from to weight_nanos spec accounts ix h generated =
    let (done, closed, h1) =
      bind-eq-ok (fail_closed_for_transfer_fee_route_mints venue request) _ (spec, accounts) h in
    let (ix', made, h2) =
      bind-eq-ok (venue.generate_swap_instruction request titan_pda) _ (spec, accounts) h1 in
    let (v, mapped, h3) = bind-eq-ok (protocol_to_venue venue request) _ (spec, accounts) h2 in
    let assembled : assemble_leg_accounts ix' titan_pda venue.program_id ≡ accounts = cc h3 in
    let same : ix' ≡ ix = cc (made, generated) in rw (sym assembled, same) refl

-- The route's direction: with the pool's two distinct mints as its tokens, a request from the first to
-- the second maps to `zero_for_one`, the reverse request to its opposite, and every other pair of
-- mints is refused.
pub protocol_to_venue_directions :
    {F : Type 0} (venue : TradingVenue F) (request : QuoteRequest) (t0 t1 : TokenInfo)
    → venue.get_token_info ≡ t0 ∷ t1 ∷ []
    → t0.pubkey ≢ t1.pubkey
    → (v : Venue)
    → (protocol_to_venue venue request ≡ ok v) ↔ (
        ((request.input_mint ≡ t0.pubkey)
          × (request.output_mint ≡ t1.pubkey)
          × (v ≡ byreal_clmm true))
        ⊎ ((request.input_mint ≡ t1.pubkey)
            × (request.output_mint ≡ t0.pubkey)
            × (v ≡ byreal_clmm false)))
unfolding protocol_to_venue
protocol_to_venue_directions venue request t0 t1 e apart v = (λ h. ground arith, λ h. ground arith)

fail_closed_fee :
    {F : Type 0} (v : TradingVenue F) (request : QuoteRequest) (tokens : List TokenInfo) (i : ℕ)
    (t : TokenInfo)
    → get_elem? tokens i ≡ some t
    → HasFee request t
    → fail_closed v request tokens
      ≡ err (
          unsupported_venue (
            static_str
              "Token-2022 transfer-fee route mints require route-level gross/net accounting"))
unfolding fail_closed
fail_closed_fee v request [] i t e fee = cc
fail_closed_fee v request (x ∷ tokens) zero t e (inl m, fee) = ground arith
fail_closed_fee v request (x ∷ tokens) zero t e (inr m, fee) = ground arith
fail_closed_fee v request (x ∷ tokens) (suc i) t e fee =
    ground (arith, fail_closed_fee v request tokens i t e fee)

-- A token of the route that charges a transfer fee makes the builder refuse, before anything else.
pub build_swap_leg_fee :
    {F : Type 0} (venue : TradingVenue F) (request : QuoteRequest) (titan_pda : Pubkey)
    (from to weight_nanos i : ℕ) (t : TokenInfo)
    → get_elem? venue.get_token_info i ≡ some t
    → HasFee request t
    → build_swap_leg venue request titan_pda from to weight_nanos
      ≡ err (
          unsupported_venue (
            static_str
              "Token-2022 transfer-fee route mints require route-level gross/net accounting"))
unfolding build_swap_leg fail_closed_for_transfer_fee_route_mints
build_swap_leg_fee venue request titan_pda from to weight_nanos i t e fee =
    rw (fail_closed_fee venue request venue.get_token_info i t e fee)
