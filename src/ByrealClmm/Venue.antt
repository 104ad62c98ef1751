-- ===== src/ByrealClmm/Venue.antt =====
-- `ByrealClmmVenue` of src/byreal_clmm/mod.rs: the core with the tokens, the epoch and the cached bounds. `fuel` is that of
-- the core's quotes.
pub mod Settled
pub mod Answers
pub mod Loaded
pub mod Lifecycle
use byreal_titan_integration.Base.{
  ℕ, zero, suc, ◌+◌, ℤ, pos, ltb_ℤ, Bool, true, false, not, ◌&&◌, ◌||◌, List, [], ◌∷◌, ◌++◌, Option,
  none, some, ◌⊎◌, inl, inr, Map, lookup, insert, contains, Result, ok, err, fault, map_err, ok_or,
  require, ◌>>=◌, ◌>>◌, ◌==◌, if◌then◌else◌,
}
use byreal_titan_integration.Solana.{Account, Instruction}
use byreal_titan_integration.TradingVenue.Error.{
  Pubkey, AccountCacheError, account_cache_error, TradingVenueError, boundary_search_failed,
  deserialization_failed, exact_out_not_supported, invalid_mint, missing_state, not_initialized,
  unsupported_venue, token_info_index_error, static_str, string, pubkey, text, key, byreal_clmm,
}
use byreal_titan_integration.TradingVenue.Request.{
  SwapType, exact_in, exact_out, QuoteRequest, QuoteResult,
}
use byreal_titan_integration.TradingVenue.TokenInfo
use byreal_titan_integration.TradingVenue.TokenInfo.{Spl, TokenInfo, get_associated_token_address}
use byreal_titan_integration.TradingVenue.Bounds.{find_boundaries}
use byreal_titan_integration.ByrealClmm.Library.{Library, PoolState, Clock}
use byreal_titan_integration.ByrealClmm.Core.{Core, token_mints, mint_decimals}
use byreal_titan_integration.ByrealClmm.Keys.{
  accounts_to_update, base_accounts_to_update, from_library, from_pool_state_account,
}
use byreal_titan_integration.ByrealClmm.Update
use byreal_titan_integration.ByrealClmm.Build.{SwapBuildRequest, build_swap_instruction}
use byreal_titan_integration.ByrealClmm.Quote.{
  CoreQuoteResult, core_quote, quote_with_price_upper_bound,
}

-- `&dyn AccountsCache`, with the state that it may keep.
pub record AccountsCache : Type 1 where
  pub State : Type 0
  pub get_accounts : State → List Pubkey → Result AccountCacheError (List (Option Account) × State)

unfoldable pub push_unique : List Pubkey → Pubkey → List Pubkey
push_unique keys k = if contains keys k then keys else keys ++ k ∷ []

-- `keys.iter().copied().zip(accounts)`, into a map of the accounts that there are.
unfoldable pub account_map : List Pubkey → List (Option Account) → Map Account → Map Account
account_map (k ∷ keys) (some account ∷ accounts) m = account_map keys accounts (insert m k account)
account_map (k ∷ keys) (none ∷ accounts) m = account_map keys accounts m
account_map (k ∷ keys) [] m = m
account_map [] accounts m = m

unfoldable pub fetch_account_map :
    (cache : AccountsCache)
    → cache.State
    → List Pubkey
    → Result TradingVenueError (Map Account × cache.State)
fetch_account_map cache s keys = do
  (accounts, s') ← map_err account_cache_error (cache.get_accounts s keys)
  ok (account_map keys accounts [], s')

unfoldable pub ensure_exact_in : QuoteRequest → Result TradingVenueError (Unit {0})
ensure_exact_in request = elim request.swap_type [
  | exact_in ↦ ok tt
  | exact_out ↦ err exact_out_not_supported
]

pub record ByrealClmmVenue (lib : Library) : Type 0 where
  pub core : Core lib
  pub token_info : List TokenInfo
  pub initialized : Bool
  pub current_epoch : ℕ
  pub bounds_cache : Option (ℕ × ℕ) × Option (ℕ × ℕ)

module _ (lib : Library) where
  abbrev pub base_info : Pubkey → ℕ → TokenInfo
  base_info mint decimals = record {
    pubkey = mint;
    decimals = pos decimals;
    is_token_2022 = false;
    transfer_fee = none;
    maximum_fee = none;
  }

  unfoldable pub base_token_info : Core lib → List TokenInfo
  base_token_info core =
      base_info (token_mints lib core).0 (mint_decimals lib core).0
      ∷ base_info (token_mints lib core).1 (mint_decimals lib core).1
      ∷ []

  -- `FromAccount::from_account`
  unfoldable pub from_account :
      (byreal_clmm_program_id : Pubkey)
      → Pubkey
      → Account
      → Result TradingVenueError (ByrealClmmVenue lib)
  from_account byreal_clmm_program_id k account = do
    require (account.owner == byreal_clmm_program_id) (
        unsupported_venue (
          string (
            text "Byreal CLMM pool owner must be production program "
            ∷ key byreal_clmm_program_id
            ∷ text ", got "
            ∷ key account.owner
            ∷ [])))
    core ← from_pool_state_account lib k account.owner account.bytes
    ok (record {
      core = core;
      token_info = base_token_info core;
      initialized = false;
      current_epoch = 0;
      bounds_cache = (none, none);
    })

  unfoldable pub with_mints : Core lib → List Pubkey → List Pubkey
  with_mints core keys =
      push_unique (push_unique keys (token_mints lib core).0) (token_mints lib core).1

  unfoldable pub get_required_pubkeys_for_update : ByrealClmmVenue lib → List Pubkey
  get_required_pubkeys_for_update v = with_mints v.core (accounts_to_update lib v.core)

  unfoldable pub clock_from_account_map : Map Account → Result TradingVenueError Clock
  clock_from_account_map account_map = do
    clock_account ←
        ok_or (lookup account_map lib.clock_id) (missing_state (static_str "sysvar clock"))
    from_library "decode sysvar clock failed: " (lib.decode_clock clock_account.bytes)

  -- One mint of `refresh_token_info`.
  unfoldable pub refreshed :
      Spl → Map Account → (epoch : ℕ) → Pubkey → (decimals : ℕ) → Result TradingVenueError TokenInfo
  refreshed spl account_map epoch mint decimals = do
    account_data ← ok_or (lookup account_map mint) (missing_state (pubkey mint))
    info ←
        map_err
          (λ e.
            deserialization_failed (string (text "failed to decode token mint " ∷ key mint ∷ [])))
          (TokenInfo.new spl mint account_data epoch)
    ok (if ltb_ℤ info.decimals (pos 0) then record info { decimals = pos decimals } else info)

  unfoldable pub refresh_token_info :
      Spl → Core lib → Map Account → (epoch : ℕ) → Result TradingVenueError (List TokenInfo)
  refresh_token_info spl core account_map epoch = do
    info0 ← refreshed spl account_map epoch (token_mints lib core).0 (mint_decimals lib core).0
    info1 ← refreshed spl account_map epoch (token_mints lib core).1 (mint_decimals lib core).1
    ok (info0 ∷ info1 ∷ [])

  module _ (fuel : ℕ) where
    -- The closure `quote_for_bounds`.
    unfoldable pub quote_for_bounds :
        Core lib
        → (input_mint output_mint : Pubkey) → ℕ
        → Result TradingVenueError (QuoteResult lib.Float)
    quote_for_bounds core input_mint output_mint amount = do
      quote ← core_quote lib core fuel (record {
        input_mint = input_mint;
        output_mint = output_mint;
        amount = amount;
        swap_type = exact_in;
      })
      ok (record {
        input_mint = input_mint;
        output_mint = output_mint;
        amount = quote.in_amount;
        expected_output = quote.out_amount;
        not_enough_liquidity = quote.not_enough_liquidity;
        price = lib.float_zero;
      })

    unfoldable pub refresh_bounds_cache :
        Core lib → Result TradingVenueError (Option (ℕ × ℕ) × Option (ℕ × ℕ))
    refresh_bounds_cache core = do
      let mints = token_mints lib core
      first ← find_boundaries (quote_for_bounds core mints.0 mints.1)
      second ← find_boundaries (quote_for_bounds core mints.1 mints.0)
      ok (some first, some second)

    unfoldable pub bounds_cache_for_mints :
        ByrealClmmVenue lib → (input_mint output_mint : Pubkey) → Option (ℕ × ℕ)
    bounds_cache_for_mints v input_mint output_mint =
        let mints = token_mints lib v.core in
        if input_mint == mints.0 && output_mint == mints.1
        then v.bounds_cache.0
        else if input_mint == mints.1 && output_mint == mints.0
        then v.bounds_cache.1
        else none

    unfoldable pub quote :
        ByrealClmmVenue lib → QuoteRequest → Result TradingVenueError (QuoteResult lib.Float)
    quote v request = do
      require v.initialized (not_initialized (pubkey v.core.market_id))
      ensure_exact_in request
      q ←
          quote_with_price_upper_bound lib v.core fuel request
            (elim (bounds_cache_for_mints v request.input_mint request.output_mint) [
              | some (lower, upper) ↦ some upper
              | none ↦ none
            ])
      ok (record {
        input_mint = request.input_mint;
        output_mint = request.output_mint;
        amount = q.in_amount;
        expected_output = q.out_amount;
        not_enough_liquidity = q.not_enough_liquidity;
        price = if q.not_enough_liquidity then lib.float_zero else q.price;
      })

    -- A venue with an error, or the next step from a core that has been updated.
    abbrev pub after_core :
        {S : Type 0}
        → ByrealClmmVenue lib
        → Core lib × Result TradingVenueError (Unit {0})
        → (ByrealClmmVenue lib → ByrealClmmVenue lib × Result TradingVenueError S)
        → ByrealClmmVenue lib × Result TradingVenueError S
    after_core v (core, ok done) next = next (record v { core = core })
    after_core v (core, err e) next = (record v { core = core }, err e)
    after_core v (core, fault x) next = (record v { core = core }, fault x)

    -- The next step with a value, or the venue with the error.
    abbrev pub with_value :
        {A S : Type 0}
        → ByrealClmmVenue lib
        → Result TradingVenueError A
        → (A → ByrealClmmVenue lib × Result TradingVenueError S)
        → ByrealClmmVenue lib × Result TradingVenueError S
    with_value v (ok a) next = next a
    with_value v (err e) next = (v, err e)
    with_value v (fault x) next = (v, fault x)

    -- The end of `update_state`, from the accounts of the second fetch.
    unfoldable pub finish_update :
        {S : Type 0}
        → Spl
        → S
        → Map Account
        → ByrealClmmVenue lib
        → ByrealClmmVenue lib × Result TradingVenueError S
    finish_update spl s accounts v = with_value v (clock_from_account_map accounts) λ clock.
        let v1 = record v { current_epoch = clock.epoch } in
        with_value v1 (refresh_token_info spl v1.core accounts clock.epoch) λ infos.
          let v2 = record v1 { token_info = infos } in
          with_value v2 (refresh_bounds_cache v2.core)
            λ cached. (record v2 { bounds_cache = cached; initialized = true }, ok s)

    -- A failure leaves the venue as it is at that point.
    unfoldable pub update_state :
        Spl
        → (cache : AccountsCache) → cache.State
        → ByrealClmmVenue lib
        → ByrealClmmVenue lib × Result TradingVenueError cache.State
    update_state spl cache s v =
        with_value v
          (fetch_account_map cache s (with_mints v.core (base_accounts_to_update lib v.core)))
          λ base. after_core v (Update.update_state lib base.0 v.core) λ v1.
            with_value v1
              (fetch_account_map cache base.1 (with_mints v1.core (accounts_to_update lib v1.core)))
              λ fetched.
                after_core v1 (Update.update_state lib fetched.0 v1.core)
                  λ v2. finish_update spl fetched.1 fetched.0 v2
