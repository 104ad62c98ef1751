-- ===== src/AccountCaching/Session.antt =====
-- Calls of `RpcClientCache` of account_caching/rpc_cache.rs one after the other, while what the client answers changes.
use byreal_titan_integration.Base.{
  ◌≡◌, refl, sym, List, [], ◌∷◌, ◌++◌, Option, some, Result, ok, err, fault, lookup, inl, inr, All,
  All-append, Result-cases, Option-cases, insert, bind-eq-ok,
}
use byreal_titan_integration.Solana.{Account}
use byreal_titan_integration.TradingVenue.Error.{Pubkey, AccountCacheError}
use byreal_titan_integration.AccountCaching.{
  AccountCache, RpcClient, get_multiple, get_account, get_accounts, or_missing,
}
use byreal_titan_integration.AccountCaching.Coherence.{Has, Within, lookup-insert_same}
use byreal_titan_integration.AccountCaching.Fetch.{
  IsClient, get_accounts_coherent, get_account_again,
}

pub data Call : Type 0 where
  get_one : Pubkey → Call
  get_many : List Pubkey → Call

abbrev pub Answer : Type 0
Answer = Pubkey × Option Account

abbrev zip : List Pubkey → List (Option Account) → List Answer
zip (k ∷ keys) (a ∷ rest) = (k, a) ∷ zip keys rest
zip _ _ = []

-- The accounts that a call answers for its keys, none when it fails, and the cache that it leaves.
abbrev one_answers :
    Pubkey
    → AccountCache
    → Result AccountCacheError (Option Account × AccountCache)
    → List Answer × AccountCache
one_answers k cache (ok (a, cache')) = ((k, a) ∷ [], cache')
one_answers k cache (err e) = ([], cache)
one_answers k cache (fault x) = ([], cache)

abbrev many_answers :
    List Pubkey
    → AccountCache
    → Result AccountCacheError (List (Option Account) × AccountCache)
    → List Answer × AccountCache
many_answers keys cache (ok (answer, cache')) = (zip keys answer, cache')
many_answers keys cache (err e) = ([], cache)
many_answers keys cache (fault x) = ([], cache)

unfoldable pub perform : RpcClient → Call → AccountCache → List Answer × AccountCache
perform rpc (get_one k) cache = one_answers k cache (get_account rpc cache k)
perform rpc (get_many keys) cache = many_answers keys cache (get_accounts rpc cache keys)

-- The calls of a session, each with the client as it is then.
unfoldable pub session : List (RpcClient × Call) → AccountCache → List Answer × AccountCache
session [] cache = ([], cache)
session ((rpc, call) ∷ calls) cache =
    let (answers, cache') = perform rpc call cache in
    let (later, end) = session calls cache' in (answers ++ later, end)

abbrev Recorded : AccountCache → Answer → Type 0
Recorded cache (k, a) = lookup cache k ≡ some a

zip-Recorded :
    (cache : AccountCache) (keys : List Pubkey)
    → All (Has cache) keys
    → All (Recorded cache) (zip keys (get_multiple cache keys))
unfolding get_multiple
zip-Recorded cache [] h = tt
zip-Recorded cache (k ∷ keys) ((a, e), h) = (rw (e) refl, zip-Recorded cache keys h)

get_account-Recorded :
    (rpc : RpcClient) (cache cache' : AccountCache) (k : Pubkey) (a : Option Account)
    → get_account rpc cache k ≡ ok (a, cache')
    → lookup cache' k ≡ some a
unfolding get_account
get_account-Recorded rpc cache cache' k a h = elim (Option-cases (lookup cache k)) [
  | inl missing ↦
      let (response, e, h') =
        bind-eq-ok (rpc.get_account k) _ (a, cache') (rw (get_account, missing) at h) in
      let same : insert cache k (some response) ≡ cache' = cc h' in
      let same' : some response ≡ a = cc h' in
      rw (sym same, sym same') (lookup-insert_same cache k (some response))
  | inr (found, hit) ↦
      let h' : ok (found, cache) ≡ ok (a, cache') = rw (get_account, hit) at h in
      let same : cache ≡ cache' = cc h' in
      let same' : found ≡ a = cc h' in rw (sym same, sym same') hit
]

perform_lem :
    (rpc : RpcClient) (call : Call) (cache : AccountCache)
    → IsClient rpc
    → All (Recorded (perform rpc call cache).1) (perform rpc call cache).0
      × Within cache (perform rpc call cache).1
unfolding perform
perform_lem rpc (get_one k) cache client = elim (Result-cases (get_account rpc cache k)) [
  | inl ((a, cache'), h) ↦ rw (h) (
    (get_account-Recorded rpc cache cache' k a h, tt),
    (get_account_again rpc rpc cache cache' k a h).1,
  )
  | inr (inl (e, h)) ↦ rw (h) (tt, λ k a e. e)
  | inr (inr (x, h)) ↦ rw (h) (tt, λ k a e. e)
]
perform_lem rpc (get_many keys) cache client = elim (get_accounts_coherent rpc cache keys client) [
  | inl (e, fails, h) ↦ rw (h) (tt, λ k a e. e)
  | inr (cache', h, there, kept) ↦ rw (h) (zip-Recorded cache' keys there, kept)
]

All-later :
    (cache cache' : AccountCache) (answers : List Answer)
    → Within cache cache'
    → All (Recorded cache) answers
    → All (Recorded cache') answers
All-later cache cache' [] within h = tt
All-later cache cache' ((k, a) ∷ answers) within (e, h) =
    (within k a e, All-later cache cache' answers within h)

session_lem :
    (calls : List (RpcClient × Call)) (cache : AccountCache)
    → All (λ c. IsClient c.0) calls
    → All (Recorded (session calls cache).1) (session calls cache).0
      × Within cache (session calls cache).1
unfolding session
session_lem [] cache clients = (tt, λ k a e. e)
session_lem ((rpc, call) ∷ calls) cache (client, clients) =
    let (now, kept) = perform_lem rpc call cache client in
    let cache' = (perform rpc call cache).1 in
    let end = (session calls cache').1 in
    let (later, kept') = session_lem calls cache' clients in
    (
      All-append (Recorded end) (perform rpc call cache).0 (session calls cache').0
          (All-later cache' end (perform rpc call cache).0 kept' now, later),
      λ k a e. kept' k a (kept k a e),
    )

-- However the accounts change on the chain meanwhile, what the calls of a session answer, one after the other and with no
-- reset, is of one snapshot: there is one map from keys to accounts that every answer of every call, and every entry of
-- the cache before and after, agrees with. The client's contract is that it answers each key it is asked and never panics.
pub session_snapshot :
    (calls : List (RpcClient × Call)) (cache : AccountCache)
    → All (λ c. IsClient c.0) calls
    → (snapshot : Pubkey → Option Account) × All
        (λ answer. answer.1 ≡ snapshot answer.0)
        (session calls cache).0
      × ((k : Pubkey) (a : Option Account) → lookup cache k ≡ some a → a ≡ snapshot k)
      × ((k : Pubkey) (a : Option Account)
          → lookup (session calls cache).1 k ≡ some a
          → a ≡ snapshot k)
session_snapshot calls cache clients =
    let end = (session calls cache).1 in
    let (recorded, kept) = session_lem calls cache clients in
    let agrees : (k : Pubkey) (a : Option Account)
        → lookup end k ≡ some a
        → a ≡ or_missing (lookup end k) =
      λ k a e. rw (e) refl in
    (
      λ k. or_missing (lookup end k),
      all_agree end (session calls cache).0 recorded,
      λ k a e. agrees k a (kept k a e),
      agrees,
    )
  where
    all_agree :
        (end : AccountCache) (answers : List Answer)
        → All (Recorded end) answers
        → All (λ answer. answer.1 ≡ or_missing (lookup end answer.0)) answers
    all_agree end [] h = tt
    all_agree end ((k, a) ∷ answers) (e, h) = (rw (e) refl, all_agree end answers h)
