-- ===== src/AccountCaching.antt =====
-- `RpcClientCache` of account_caching/rpc_cache.rs. The `DashMap` is an association list; the RPC client at the time
-- of a call is an argument of it. Here an operation runs alone; see Interleaved.
pub mod Coherence
pub mod Fetch
pub mod Interleaved
pub mod Session
pub mod Tests
use byreal_titan_integration.Base.{
  ℕ, Bool, true, false, List, [], ◌∷◌, ◌++◌, Option, none, some, Result, ok, err, or_panic, Map,
  lookup, insert, ◌>>=◌, ◌==◌, if◌then◌else◌,
}
use byreal_titan_integration.Solana.{Account}
use byreal_titan_integration.TradingVenue.Error.{Pubkey, AccountCacheError}

abbrev pub AccountCache : Type 0
AccountCache = Map (Option Account)

pub record RpcClient : Type 0 where
  pub get_account : Pubkey → Result AccountCacheError Account
  pub get_multiple_accounts : List Pubkey → Result AccountCacheError (List (Option Account))

abbrev pub reset_cache : AccountCache → AccountCache
reset_cache cache = []

-- `if let Some(value) = self.cache.get(key) { value } else { None }`
abbrev pub or_missing : Option (Option Account) → Option Account
or_missing (some value) = value
or_missing none = none

unfoldable pub get_multiple : AccountCache → List Pubkey → List (Option Account)
get_multiple cache [] = []
get_multiple cache (key ∷ pubkeys) = or_missing (lookup cache key) ∷ get_multiple cache pubkeys

-- An error leaves the cache as it was.
unfoldable pub get_account :
    RpcClient → AccountCache → Pubkey → Result AccountCacheError (Option Account × AccountCache)
get_account rpc cache pubkey = elim (lookup cache pubkey) [
  | some account ↦ ok (account, cache)
  | none ↦ do
    response ← rpc.get_account pubkey
    ok (some response, insert cache pubkey (some response))
]

-- The loop that divides the keys into hits and misses.
unfoldable pub split_hits :
    AccountCache → (pubkeys keys : List Pubkey) → AccountCache → List Pubkey × AccountCache
split_hits cache [] keys result_map = (keys, result_map)
split_hits cache (pubkey ∷ pubkeys) keys result_map = elim (lookup cache pubkey) [
  | some account ↦ split_hits cache pubkeys keys (insert result_map pubkey account)
  | none ↦ split_hits cache pubkeys (keys ++ pubkey ∷ []) result_map
]

-- `for (pubkey, account) in keys.iter().zip(response.iter())`
unfoldable pub store_all :
    List Pubkey
    → List (Option Account)
    → (result_map cache : AccountCache) → AccountCache × AccountCache
store_all (k ∷ keys) (a ∷ response) result_map cache =
    store_all keys response (insert result_map k a) (insert cache k a)
store_all [] response result_map cache = (result_map, cache)
store_all (k ∷ keys) [] result_map cache = (result_map, cache)

-- The last loop, whose `unwrap` panics on a key that is missing.
unfoldable pub collect :
    AccountCache → List Pubkey → Result AccountCacheError (List (Option Account))
collect result_map [] = ok []
collect result_map (pubkey ∷ pubkeys) = do
  item ← or_panic (lookup result_map pubkey)
  rest ← collect result_map pubkeys
  ok (item ∷ rest)

unfoldable pub fetch_missing :
    RpcClient
    → List Pubkey
    → (result_map cache : AccountCache) → Result AccountCacheError (AccountCache × AccountCache)
fetch_missing rpc [] result_map cache = ok (result_map, cache)
fetch_missing rpc (k ∷ keys) result_map cache = do
  response ← rpc.get_multiple_accounts (k ∷ keys)
  ok (store_all (k ∷ keys) response result_map cache)

unfoldable pub get_accounts :
    RpcClient
    → AccountCache
    → List Pubkey
    → Result AccountCacheError (List (Option Account) × AccountCache)
get_accounts rpc cache pubkeys = do
  let (keys, hits) = split_hits cache pubkeys [] []
  (result_map, cache') ← fetch_missing rpc keys hits cache
  result ← collect result_map pubkeys
  ok (result, cache')
