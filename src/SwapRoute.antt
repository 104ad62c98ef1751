-- ===== src/SwapRoute.antt =====
-- src/swap_route/mod.rs: the off-chain builder of a route leg and of the route instruction's bytes.
pub mod Encoding
pub mod Leg
pub mod Tests
use byreal_titan_integration.Base.{
  ℕ, zero, suc, ◌+◌, ◌%◌, ◌^◌, Bool, true, false, ◌&&◌, ◌||◌, List, [], ◌∷◌, ◌++◌, map, Option,
  none, some, Result, ok, err, ◌>>=◌, ◌>>◌, ok_or, length, ◌==◌, ltb, if◌then◌else◌, to_le_bytes,
}
use byreal_titan_integration.Solana.{AccountMeta, readonly, Instruction}
use byreal_titan_integration.TradingVenue.Error.{
  Pubkey, PoolProtocol, byreal_clmm as byreal_clmm_protocol, TradingVenueError, invalid_mint,
  unsupported_venue, pubkey, static_str,
}
use byreal_titan_integration.TradingVenue.Request.{QuoteRequest}
use byreal_titan_integration.TradingVenue.TokenInfo.{TokenInfo}
use byreal_titan_integration.TradingVenue.Interface.{TradingVenue}

abbrev pub swap_route_v3_discriminator : ℕ
swap_route_v3_discriminator = 42

abbrev pub route_weight_all : ℕ
route_weight_all = 1_000_000_000

pub data Venue : Type 0 where
  byreal_clmm : Bool → Venue

pub record SwapSpecInputV2 : Type 0 where
  pub venue : Venue
  pub from : ℕ
  pub to : ℕ
  pub weight_nanos : ℕ
  pub n_accounts : ℕ

abbrev bool_byte : Bool → ℕ
bool_byte false = 0
bool_byte true = 1

-- The derived `BorshSerialize`.
pub to_borsh_bytes : Venue → List ℕ
to_borsh_bytes (byreal_clmm zero_for_one) = 0 ∷ bool_byte zero_for_one ∷ []

pub serialize : SwapSpecInputV2 → List ℕ
unfolding to_borsh_bytes
serialize s =
    to_borsh_bytes s.venue
    ++ (to_le_bytes 1 s.from
        ++ (to_le_bytes 1 s.to ++ (to_le_bytes 4 s.weight_nanos ++ to_le_bytes 1 s.n_accounts)))

pub serialize_all : List SwapSpecInputV2 → List ℕ
serialize_all [] = []
serialize_all (s ∷ swaps) = serialize s ++ serialize_all swaps

pub encode_swap_route_v3_data : ℕ → ℕ → List SwapSpecInputV2 → List ℕ
encode_swap_route_v3_data amount mints swaps =
    swap_route_v3_discriminator
    ∷ (to_le_bytes 8 amount
        ++ (to_le_bytes 1 mints ++ (to_le_bytes 4 (length swaps % 2 ^ 32) ++ serialize_all swaps)))

-- `tokens.iter().position(|token| token.pubkey == mint)`
pub position : Pubkey → List TokenInfo → Option ℕ
position mint [] = none
position mint (t ∷ ts) =
    let rest = position mint ts in
    if t.pubkey == mint then some 0 else elim rest [ none ↦ none | some i ↦ some (suc i) ]

module _ {F : Type 0} (venue : TradingVenue F) (request : QuoteRequest) where
  byreal_venue : List TokenInfo → Result TradingVenueError Venue
  unfolding position
  byreal_venue tokens = do
    input_index ←
        ok_or (position request.input_mint tokens) (invalid_mint (pubkey request.input_mint))
    output_index ←
        ok_or (position request.output_mint tokens) (invalid_mint (pubkey request.output_mint))
    if input_index == output_index || ltb (length tokens) 2
        then err (invalid_mint (pubkey request.input_mint))
        else ok (byreal_clmm (input_index == 0 && output_index == 1))

  unfoldable pub protocol_to_venue : Result TradingVenueError Venue
  unfolding byreal_venue
  protocol_to_venue = elim venue.protocol [
    | byreal_clmm_protocol ↦ byreal_venue venue.get_token_info
  ]

  fail_closed : List TokenInfo → Result TradingVenueError (Unit {0})
  fail_closed [] = ok tt
  fail_closed (token ∷ tokens) =
      let rest = fail_closed tokens in
      if token.pubkey == request.input_mint || token.pubkey == request.output_mint
      then elim token.transfer_fee [
        | some _ ↦ err (
            unsupported_venue (
              static_str
                "Token-2022 transfer-fee route mints require route-level gross/net accounting"))
        | none ↦ rest
      ]
      else rest

  unfoldable pub fail_closed_for_transfer_fee_route_mints : Result TradingVenueError (Unit {0})
  unfolding fail_closed
  fail_closed_for_transfer_fee_route_mints = fail_closed venue.get_token_info

-- The closure of `assemble_leg_accounts`.
abbrev pub clear_signer : Pubkey → AccountMeta → AccountMeta
clear_signer titan_pda acc =
    if acc.pubkey == titan_pda then record acc { is_signer = false } else acc

unfoldable pub assemble_leg_accounts : Instruction → Pubkey → Pubkey → List AccountMeta
assemble_leg_accounts swap_ix titan_pda venue_program_id =
    map (clear_signer titan_pda) swap_ix.accounts ++ readonly venue_program_id false ∷ []

unfoldable pub build_swap_leg :
    {F : Type 0}
    → TradingVenue F
    → QuoteRequest
    → Pubkey
    → ℕ
    → ℕ
    → ℕ
    → Result TradingVenueError (SwapSpecInputV2 × List AccountMeta)
build_swap_leg venue request titan_pda from to weight_nanos = do
  fail_closed_for_transfer_fee_route_mints venue request
  swap_ix ← venue.generate_swap_instruction request titan_pda
  let accounts = assemble_leg_accounts swap_ix titan_pda venue.program_id
  v ← protocol_to_venue venue request
  ok (
    record {
      venue = v;
      from = from;
      to = to;
      weight_nanos = weight_nanos;
      n_accounts = length accounts % 256;
    },
    accounts,
  )
