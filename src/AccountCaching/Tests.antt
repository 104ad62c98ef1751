-- ===== src/AccountCaching/Tests.antt =====
-- The account cache on a client that knows one account.
pub mod Concurrent
use byreal_titan_integration.Base.{
  lookup, ◌≡◌, refl, sym, ◌⊎◌, [], ◌∷◌, Option, none, some, Result, ok, err, map, ◌==◌,
  if◌then◌else◌, length-map, All,
}
use byreal_titan_integration.Solana.{Account}
use byreal_titan_integration.TradingVenue.Error.{Pubkey, AccountCacheError, failed_to_fetch_account}
use byreal_titan_integration.AccountCaching.{
  AccountCache, RpcClient, get_multiple, get_account, split_hits, store_all, collect, fetch_missing,
  get_accounts,
}
use byreal_titan_integration.AccountCaching.Coherence.{Has, Within}
use byreal_titan_integration.AccountCaching.Fetch.{
  IsClient, get_accounts_coherent, get_accounts_cached, get_account_again,
}

abbrev pub account : Account
account = record { lamports = 5; bytes = []; owner = 1 }

abbrev pub known : Pubkey → Option Account
known k = if k == 7 then some account else none

abbrev pub answer_of : Option Account → Result AccountCacheError Account
answer_of (some a) = ok a
answer_of none = err (failed_to_fetch_account [])

abbrev pub client : RpcClient
client = record {
  get_account = λ k. answer_of (known k);
  get_multiple_accounts = λ keys. ok (map known keys);
}

pub client-IsClient : IsClient client
client-IsClient = record {
  same_length = λ keys response e.
      let e' : map known keys ≡ response = cc e in rw (sym e') (length-map known keys);
  never_faults = λ keys x e. cc e;
}

abbrev pub offline : RpcClient
offline = record {
  get_account = λ k. err (failed_to_fetch_account []);
  get_multiple_accounts = λ keys. err (failed_to_fetch_account []);
}

abbrev pub cache : AccountCache
cache = (8, some account) ∷ []

abbrev pub cache_after : AccountCache
cache_after = (9, none) ∷ (7, some account) ∷ cache

pub fetched :
    get_accounts client cache (7 ∷ 8 ∷ 9 ∷ [])
    ≡ ok (some account ∷ some account ∷ none ∷ [], cache_after)
unfolding get_accounts split_hits store_all collect fetch_missing lookup
fetched = refl

get_accounts_coherent_example :
    ((e : AccountCacheError) × (client.get_multiple_accounts
          (split_hits cache (7 ∷ 8 ∷ 9 ∷ []) [] []).0
        ≡ err e)
      × (get_accounts client cache (7 ∷ 8 ∷ 9 ∷ []) ≡ err e))
    ⊎ ((cache' : AccountCache) × (get_accounts client cache (7 ∷ 8 ∷ 9 ∷ [])
          ≡ ok (get_multiple cache' (7 ∷ 8 ∷ 9 ∷ []), cache'))
        × All (Has cache') (7 ∷ 8 ∷ 9 ∷ [])
        × Within cache cache')
get_accounts_coherent_example = get_accounts_coherent client cache (7 ∷ 8 ∷ 9 ∷ []) client-IsClient

all_cached : All (Has cache_after) (9 ∷ 7 ∷ [])
unfolding lookup
all_cached = ((none, refl), ((some account, refl), tt))

get_accounts_cached_example :
    get_accounts offline cache_after (9 ∷ 7 ∷ [])
    ≡ ok (get_multiple cache_after (9 ∷ 7 ∷ []), cache_after)
get_accounts_cached_example = get_accounts_cached offline cache_after (9 ∷ 7 ∷ []) all_cached

one_fetched : get_account client cache 7 ≡ ok (some account, (7, some account) ∷ cache)
unfolding get_account lookup
one_fetched = refl

get_account_again_example :
    (get_account offline ((7, some account) ∷ cache) 7
      ≡ ok (some account, (7, some account) ∷ cache))
    × Within cache ((7, some account) ∷ cache)
get_account_again_example =
    get_account_again client offline cache ((7, some account) ∷ cache) 7 (some account) one_fetched
