-- ===== src/AccountCaching/Interleaved.antt =====
-- Calls of `RpcClientCache` of account_caching/rpc_cache.rs that run at the same time. A call is a task; what it does at
-- once is one access of the `DashMap`, or one answer of the RPC client, with what the task computes on its own since.
pub mod Agreement
pub mod Alone
use byreal_titan_integration.Base.{
  ℕ, ◌≡◌, List, [], ◌∷◌, ◌++◌, Option, none, some, Result, ok, err, fault, lookup, insert,
}
use byreal_titan_integration.Solana.{Account}
use byreal_titan_integration.TradingVenue.Error.{Pubkey, AccountCacheError}
use byreal_titan_integration.AccountCaching.{AccountCache, RpcClient, collect, reset_cache}

pub data Task : Type 0 where
  -- `get_account`: before its lookup, waiting for the client, with the account to store, and at its end.
  asking : (pubkey : Pubkey) → Task
  fetching : (pubkey : Pubkey) → Task
  storing : (pubkey : Pubkey) (response : Account) → Task
  found : (pubkey : Pubkey) (answer : Result AccountCacheError (Option Account)) → Task
  -- `get_accounts`: in its first loop with `rest` to go, waiting for the client, storing the rest of the response, and at
  -- its end.
  looking : (pubkeys rest keys : List Pubkey) (result_map : AccountCache) → Task
  waiting : (pubkeys keys : List Pubkey) (result_map : AccountCache) → Task
  keeping :
      (pubkeys keys : List Pubkey) (response : List (Option Account)) (result_map : AccountCache)
      → Task
  gathered :
      (pubkeys : List Pubkey) (answer : Result AccountCacheError (List (Option Account))) → Task

pub record State : Type 0 where
  pub cache : AccountCache
  pub tasks : List Task

abbrev answered : Pubkey → Result AccountCacheError Account → Task
answered k (ok response) = storing k response
answered k (err e) = found k (err e)
answered k (fault x) = found k (fault x)

abbrev pub received :
    (pubkeys keys : List Pubkey) (result_map : AccountCache)
    → Result AccountCacheError (List (Option Account))
    → Task
received pubkeys keys result_map (ok response) = keeping pubkeys keys response result_map
received pubkeys keys result_map (err e) = gathered pubkeys (err e)
received pubkeys keys result_map (fault x) = gathered pubkeys (fault x)

-- What a task does next to the cache, and the task afterwards.
unfoldable pub advance : RpcClient → Task → AccountCache → Task × AccountCache
advance rpc (asking k) cache = elim (lookup cache k) [
  | some account ↦ (found k (ok account), cache)
  | none ↦ (fetching k, cache)
]
advance rpc (fetching k) cache = (answered k (rpc.get_account k), cache)
advance rpc (storing k response) cache =
    (found k (ok (some response)), insert cache k (some response))
advance rpc (found k answer) cache = (found k answer, cache)
advance rpc (looking pubkeys (k ∷ rest) keys result_map) cache = elim (lookup cache k) [
  | some account ↦ (looking pubkeys rest keys (insert result_map k account), cache)
  | none ↦ (looking pubkeys rest (keys ++ k ∷ []) result_map, cache)
]
advance rpc (looking pubkeys [] [] result_map) cache =
    (gathered pubkeys (collect result_map pubkeys), cache)
advance rpc (looking pubkeys [] (k ∷ keys) result_map) cache =
    (waiting pubkeys (k ∷ keys) result_map, cache)
advance rpc (waiting pubkeys keys result_map) cache =
    (received pubkeys keys result_map (rpc.get_multiple_accounts keys), cache)
advance rpc (keeping pubkeys (k ∷ keys) (a ∷ response) result_map) cache =
    (keeping pubkeys keys response (insert result_map k a), insert cache k a)
advance rpc (keeping pubkeys [] response result_map) cache =
    (gathered pubkeys (collect result_map pubkeys), cache)
advance rpc (keeping pubkeys (k ∷ keys) [] result_map) cache =
    (gathered pubkeys (collect result_map pubkeys), cache)
advance rpc (gathered pubkeys answer) cache = (gathered pubkeys answer, cache)

-- The client answers at its own time, as `rpcs n` for some `n`. A call may be dropped at any point. `reset_cache`
-- borrows the cache mutably, so that no call is then under way.
pub data Step (rpcs : ℕ → RpcClient) : State → State → Type 0 where
  call_one : (s : State) (k : Pubkey) → Step rpcs s (record s { tasks = asking k ∷ s.tasks })
  call_many :
      (s : State) (pubkeys : List Pubkey)
      → Step rpcs s (record s { tasks = looking pubkeys pubkeys [] [] ∷ s.tasks })
  go_on :
      (cache : AccountCache) (before after : List Task) (t : Task) (n : ℕ)
      → Step rpcs
          (record { cache = cache; tasks = before ++ t ∷ after })
          (record {
            cache = (advance (rpcs n) t cache).1;
            tasks = before ++ (advance (rpcs n) t cache).0 ∷ after;
          })
  drop_call :
      (cache : AccountCache) (before after : List Task) (t : Task)
      → Step rpcs
          (record { cache = cache; tasks = before ++ t ∷ after })
          (record { cache = cache; tasks = before ++ after })
  reset :
      (cache : AccountCache)
      → Step rpcs
          (record { cache = cache; tasks = [] })
          (record { cache = reset_cache cache; tasks = [] })

pub data Reach (rpcs : ℕ → RpcClient) (s : State) : State → Type 0 where
  here : Reach rpcs s s
  next : {t u : State} → Reach rpcs s t → Step rpcs t u → Reach rpcs s u

-- `RpcClientCache::new`
abbrev pub new : State
new = record { cache = []; tasks = [] }
