-- ===== src/AccountCaching/Fetch.antt =====
-- What the two lookups of `RpcClientCache` return and keep.
use byreal_titan_integration.Base.{
  lookup, insert, ◌≡◌, ◌≢◌, refl, sym, ◌⊎◌, inl, inr, true, List, [], ◌∷◌, Option, some, ok, err,
  fault, ◌==◌, ==→eq, contains, length, All, Bool-cases, Option-cases, Result-cases, bind-eq-ok,
  arith, Fault,
}
use byreal_titan_integration.Solana.{Account}
use byreal_titan_integration.TradingVenue.Error.{Pubkey, AccountCacheError}
use byreal_titan_integration.AccountCaching.{
  AccountCache, RpcClient, get_multiple, get_account, split_hits, store_all, collect, fetch_missing,
  get_accounts,
}
use byreal_titan_integration.AccountCaching.Coherence.{
  Has, Within, empty-Within, Misses, split_hits_lem, split-hit, insert-Within, insert-Has,
  Within-insert, lookup-insert_same,
}

record Stored (start m : AccountCache) (keys : List Pubkey) (m' c' : AccountCache) : Type 0 where
  within : Within m' c'
  kept : Within start c'
  still : (k : Pubkey) → Has m k → Has m' k
  covered : (k : Pubkey) → contains keys k ≡ true → Has m' k

store_all_lem :
    (start : AccountCache) (keys : List Pubkey) (response : List (Option Account))
    (m c : AccountCache)
    → length response ≡ length keys
    → All (Misses start) keys
    → Within m c
    → Within start c
    → Stored start m keys (store_all keys response m c).0 (store_all keys response m c).1
unfolding store_all
store_all_lem start [] response m c l miss h h' = record {
  within = h;
  kept = h';
  still = λ k e. e;
  covered = λ k e. cc e;
}
store_all_lem start (k ∷ keys) [] m c l miss h h' = absurd (omega (arith, l))
store_all_lem start (k ∷ keys) (a ∷ response) m c l (miss, misses) h h' =
    let r =
      store_all_lem start keys response (insert m k a) (insert c k a) (omega (arith, l)) misses
        (insert-Within m c k a h) (Within-insert start c k a miss h') in
    record {
      within = r.within;
      kept = r.kept;
      still = λ k' e. r.still k' (insert-Has m k k' a e);
      covered = λ k' e. elim (Bool-cases (k == k')) [
        | inl same ↦
            let e' : k ≡ k' = ==→eq k k' same in r.still k' (a, rw e' (lookup-insert_same m k' a))
        | inr other ↦ r.covered k' (rw other at e)
      ];
    }

collect_lem :
    (m c : AccountCache) (pubkeys : List Pubkey)
    → Within m c
    → All (Has m) pubkeys
    → (collect m pubkeys ≡ ok (get_multiple c pubkeys)) × All (Has c) pubkeys
unfolding collect get_multiple
collect_lem m c [] h all = (refl, tt)
collect_lem m c (k ∷ pubkeys) h ((a, found), all) =
    let (rest, there) = collect_lem m c pubkeys h all in
    (rw (collect, get_multiple, found, h k a found, rest) refl, ((a, h k a found), there))

-- What the client's documentation says of `get_multiple_accounts`: as many accounts as keys; and no call panics.
pub record IsClient (rpc : RpcClient) : Type 0 where
  pub same_length :
      (keys : List Pubkey) (response : List (Option Account))
      → rpc.get_multiple_accounts keys ≡ ok response
      → length response ≡ length keys
  pub never_faults : (keys : List Pubkey) (x : Fault) → rpc.get_multiple_accounts keys ≢ fault x

-- What was missed is stored in the meantime.
all-Has :
    (m m' : AccountCache) (keys pubkeys : List Pubkey)
    → ((k : Pubkey) → Has m k → Has m' k)
    → ((k : Pubkey) → contains keys k ≡ true → Has m' k)
    → All (λ k. Has m k ⊎ (contains keys k ≡ true)) pubkeys
    → All (Has m') pubkeys
all-Has m m' keys [] still stored h = tt
all-Has m m' keys (k ∷ pubkeys) still stored (inl hit, h) =
    (still k hit, all-Has m m' keys pubkeys still stored h)
all-Has m m' keys (k ∷ pubkeys) still stored (inr missed, h) =
    (stored k missed, all-Has m m' keys pubkeys still stored h)

-- The client fails, or what it gives is stored in both maps.
fetch_missing_lem :
    (rpc : RpcClient) (start m : AccountCache) (keys : List Pubkey)
    → IsClient rpc
    → All (Misses start) keys
    → Within m start
    → ((e : AccountCacheError) × (rpc.get_multiple_accounts keys ≡ err e)
        × (fetch_missing rpc keys m start ≡ err e))
      ⊎ ((m' : AccountCache) × (c' : AccountCache) × (fetch_missing rpc keys m start ≡ ok (m', c'))
          × Stored start m keys m' c')
unfolding fetch_missing
fetch_missing_lem rpc start m [] client misses h = inr (
  m,
  start,
  refl,
  record { within = h; kept = λ k a e. e; still = λ k e. e; covered = λ k e. cc e },
)
fetch_missing_lem rpc start m (k ∷ keys) client misses h =
    elim (Result-cases (rpc.get_multiple_accounts (k ∷ keys))) [
      | inl (response, e) ↦
          let r = store_all (k ∷ keys) response m start in
          inr (
            r.0,
            r.1,
            rw (fetch_missing, e) refl,
            store_all_lem start (k ∷ keys) response m start
                (client.same_length (k ∷ keys) response e) misses h (λ k a e. e),
          )
      | inr (inl (x, e)) ↦ inl (x, e, rw (fetch_missing, e) refl)
      | inr (inr (x, e)) ↦ absurd (client.never_faults (k ∷ keys) x e)
    ]

-- With a client that answers for each key it is asked, `get_accounts` gives the error that the client gives for the
-- keys not cached, or what the cache holds for the keys afterwards, in the order of the keys; then all of them are
-- cached, and every entry of the cache before is kept. It never panics.
pub get_accounts_coherent :
    (rpc : RpcClient) (cache : AccountCache) (pubkeys : List Pubkey)
    → IsClient rpc
    → ((e : AccountCacheError) × (rpc.get_multiple_accounts (split_hits cache pubkeys [] []).0
          ≡ err e)
        × (get_accounts rpc cache pubkeys ≡ err e))
      ⊎ ((cache' : AccountCache) × (get_accounts rpc cache pubkeys
            ≡ ok (get_multiple cache' pubkeys, cache'))
          × All (Has cache') pubkeys
          × Within cache cache')
unfolding get_accounts
get_accounts_coherent rpc cache pubkeys client =
    let keys = (split_hits cache pubkeys [] []).0 in
    let hits = (split_hits cache pubkeys [] []).1 in
    let divided = split_hits_lem cache pubkeys [] [] (empty-Within cache) tt in
    elim (fetch_missing_lem rpc cache hits keys client divided.missing divided.within) [
      | inl (e, fails, h) ↦ inl (e, fails, rw (get_accounts, h) refl)
      | inr (m', c', h, stored) ↦
          let (same, all) =
            collect_lem m' c' pubkeys stored.within
              (all-Has hits m' keys pubkeys stored.still stored.covered divided.covered) in
          inr (c', rw (get_accounts, h, same) refl, all, stored.kept)
    ]

no_misses :
    (cache : AccountCache) (pubkeys keys : List Pubkey) (m : AccountCache)
    → All (Has cache) pubkeys
    → (split_hits cache pubkeys keys m).0 ≡ keys
unfolding split_hits
no_misses cache [] keys m all = refl
no_misses cache (k ∷ pubkeys) keys m ((a, hit), all) =
    rw (split-hit cache k pubkeys keys m a hit) (no_misses cache pubkeys keys (insert m k a) all)

-- A call on cached keys only is answered from the cache, whatever the client.
pub get_accounts_cached :
    (rpc : RpcClient) (cache : AccountCache) (pubkeys : List Pubkey)
    → All (Has cache) pubkeys
    → get_accounts rpc cache pubkeys ≡ ok (get_multiple cache pubkeys, cache)
unfolding get_accounts fetch_missing get_multiple
get_accounts_cached rpc cache pubkeys all =
    let hits = (split_hits cache pubkeys [] []).1 in
    let divided = split_hits_lem cache pubkeys [] [] (empty-Within cache) tt in
    let none_missed = no_misses cache pubkeys [] [] all in
    let found =
      collect_lem hits cache pubkeys divided.within (
        all-Has hits hits [] pubkeys (λ k e. e) (λ k e. cc e)
          (rw none_missed at divided.covered)) in
    rw (none_missed, fetch_missing, found.0) refl

-- After `get_account` has returned, the same call of any client returns the same account and leaves the cache; and
-- every entry of the cache before is kept.
pub get_account_again :
    (rpc rpc' : RpcClient) (cache cache' : AccountCache) (k : Pubkey) (a : Option Account)
    → get_account rpc cache k ≡ ok (a, cache')
    → (get_account rpc' cache' k ≡ ok (a, cache')) × Within cache cache'
unfolding get_account
get_account_again rpc rpc' cache cache' k a h = elim (Option-cases (lookup cache k)) [
  | inr (found, hit) ↦
      let h' : ok (found, cache) ≡ ok (a, cache') = rw (get_account, hit) at h in
      let same : cache ≡ cache' = cc h' in
      let same' : found ≡ a = cc h' in
      rw (sym same) (rw (get_account, hit, same') refl, λ k' a' e. e)
  | inl absent ↦
      let (response, e, h') =
        bind-eq-ok (rpc.get_account k) _ (a, cache') (rw (get_account, absent) at h) in
      let same : insert cache k (some response) ≡ cache' = cc h' in
      let same' : some response ≡ a = cc h' in
      rw (sym same, sym same')
        (
          rw (get_account, lookup-insert_same cache k (some response)) refl,
          Within-insert cache cache k (some response) absent (λ k' a' e. e),
        )
]
