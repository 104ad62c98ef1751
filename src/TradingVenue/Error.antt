-- ===== src/TradingVenue/Error.antt =====
-- trading_venue/protocol.rs, trading_venue/error.rs, and the errors of account_caching/mod.rs.
-- A formatted text is kept as the list of its parts, since what the code reads off it is whether a
-- literal part, or the text of an error inside it, has a phrase.
use byreal_titan_integration.Base.{ℕ, String, List, ℤ}

-- The 32 bytes of an address, read as a number.
abbrev pub Pubkey : Type 0
Pubkey = ℕ

pub data PoolProtocol : Type 0 where
  byreal_clmm : PoolProtocol

-- `impl From<PoolProtocol> for String`, which `label` and `Display` go through.
unfoldable pub protocol_name : PoolProtocol → String
protocol_name byreal_clmm = "ByrealClmm"

pub data Part : Type 0 where
  text : String → Part
  key : Pubkey → Part
  number : ℤ → Part

abbrev pub Message : Type 0
Message = List Part

pub data ErrorInfo : Type 0 where
  pubkey : Pubkey → ErrorInfo
  string : Message → ErrorInfo
  static_str : String → ErrorInfo

pub data AccountCacheError : Type 0 where
  failed_to_fetch_account : Message → AccountCacheError
  failed_to_acquire_write_lock : AccountCacheError
  failed_to_acquire_read_lock : AccountCacheError

pub data TradingVenueError : Type 0 where
  no_account_found : ErrorInfo → TradingVenueError
  from_account_error : ErrorInfo → TradingVenueError
  failed_to_fetch_multiple_account_data : TradingVenueError
  failed_to_fetch_account_data : ErrorInfo → TradingVenueError
  deserialization_failed : ErrorInfo → TradingVenueError
  cache_unlock_failed : TradingVenueError
  not_initialized : ErrorInfo → TradingVenueError
  missing_state : ErrorInfo → TradingVenueError
  invalid_mint : ErrorInfo → TradingVenueError
  checked_math_error : ErrorInfo → TradingVenueError
  amm_method_error : ErrorInfo → TradingVenueError
  exact_out_not_supported : TradingVenueError
  data_conversion_error : ErrorInfo → TradingVenueError
  boundary_search_failed : ErrorInfo → TradingVenueError
  no_quotable_value : ErrorInfo → TradingVenueError
  something_went_wrong : Message → TradingVenueError
  unsupported_venue : ErrorInfo → TradingVenueError
  token_info_index_error : ℕ → TradingVenueError
  math_error : ErrorInfo → TradingVenueError
  deserialization_error : ErrorInfo → TradingVenueError
  inactive_pool_error : Pubkey → PoolProtocol → TradingVenueError
  account_cache_error : AccountCacheError → TradingVenueError
