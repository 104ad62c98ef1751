-- ===== src/AccountCaching/Interleaved/Alone.antt =====
-- A call of `get_accounts` of account_caching/rpc_cache.rs that no other call interrupts.
use byreal_titan_integration.Base.{
  ℕ, zero, suc, ◌+◌, ◌-◌, ◌≤◌, ◌≡◌, ◌≢◌, ◌⊎◌, inl, inr, All, length-append, arith, refl, ◌∙◌, ap,
  List, [], ◌∷◌, ◌++◌, Option, Result, ok, err, fault, lookup, insert, length, Option-cases,
  Result-cases, ◌>>=◌,
}
use byreal_titan_integration.Solana.{Account}
use byreal_titan_integration.TradingVenue.Error.{Pubkey, AccountCacheError}
use byreal_titan_integration.AccountCaching.{
  AccountCache, RpcClient, collect, get_multiple, split_hits, store_all, fetch_missing,
  get_accounts,
}
use byreal_titan_integration.AccountCaching.Coherence.{
  Has, Within, Misses, empty-Within, split_hits_lem, split-miss, split-hit,
}
use byreal_titan_integration.AccountCaching.Fetch.{IsClient, get_accounts_coherent}
use byreal_titan_integration.AccountCaching.Interleaved.{
  Task, looking, keeping, gathered, advance, received,
}

module _ (rpc : RpcClient) where
  abbrev pub steps : ℕ → Task × AccountCache → Task × AccountCache
  steps zero (t, cache) = (t, cache)
  steps (suc n) (t, cache) = steps n (advance rpc t cache)

  steps_add : (m n : ℕ) (x : Task × AccountCache) → steps (m + n) x ≡ steps n (steps m x)
  steps_add zero n (t, cache) = let e : zero + n ≡ n = omega arith in ap (λ j. steps j (t, cache)) e
  steps_add (suc m) n (t, cache) =
      let e : suc m + n ≡ suc (m + n) = omega arith in
      ap (λ j. steps j (t, cache)) e ∙ steps_add m n (advance rpc t cache)

  over :
      (n : ℕ) (pubkeys : List Pubkey) (answer : Result AccountCacheError (List (Option Account)))
      (cache : AccountCache)
      → steps n (gathered pubkeys answer, cache) ≡ (gathered pubkeys answer, cache)
  unfolding advance
  over zero pubkeys answer cache = refl
  over (suc n) pubkeys answer cache = over n pubkeys answer cache

  look :
      (pubkeys rest keys : List Pubkey) (m cache : AccountCache)
      → steps (length rest) (looking pubkeys rest keys m, cache) ≡ (
        looking pubkeys [] (split_hits cache rest keys m).0 (split_hits cache rest keys m).1,
        cache,
      )
  unfolding advance split_hits
  look pubkeys [] keys m cache = refl
  look pubkeys (k ∷ rest) keys m cache = elim (Option-cases (lookup cache k)) [
    | inl missing ↦ rw (split-miss cache k rest keys m missing) (
        ap (steps (length rest)) (rw (advance, missing) refl)
        ∙ look pubkeys rest (keys ++ k ∷ []) m cache)
    | inr (a, hit) ↦ rw (split-hit cache k rest keys m a hit) (
        ap (steps (length rest)) (rw (advance, hit) refl)
        ∙ look pubkeys rest keys (insert m k a) cache)
  ]

  keep :
      (pubkeys keys : List Pubkey) (response : List (Option Account)) (m cache : AccountCache)
      → steps (suc (length keys)) (keeping pubkeys keys response m, cache) ≡ (
        gathered pubkeys (collect (store_all keys response m cache).0 pubkeys),
        (store_all keys response m cache).1,
      )
  unfolding advance store_all
  keep pubkeys [] response m cache = refl
  keep pubkeys (k ∷ keys) [] m cache = over (suc (length keys)) pubkeys (collect m pubkeys) cache
  keep pubkeys (k ∷ keys) (a ∷ response) m cache =
      keep pubkeys keys response (insert m k a) (insert cache k a)

  -- What a call ends with when its fetch has ended.
  abbrev ended :
      List Pubkey
      → AccountCache
      → Result AccountCacheError (AccountCache × AccountCache)
      → Task × AccountCache
  ended pubkeys cache (ok (m, cache')) = (gathered pubkeys (collect m pubkeys), cache')
  ended pubkeys cache (err e) = (gathered pubkeys (err e), cache)
  ended pubkeys cache (fault x) = (gathered pubkeys (fault x), cache)

  fetch :
      (pubkeys keys : List Pubkey) (m cache : AccountCache)
      → steps (suc (suc (suc (length keys)))) (looking pubkeys [] keys m, cache)
        ≡ ended pubkeys cache (fetch_missing rpc keys m cache)
  unfolding advance fetch_missing
  fetch pubkeys [] m cache = refl
  fetch pubkeys (k ∷ keys) m cache = elim (Result-cases (rpc.get_multiple_accounts (k ∷ keys))) [
    | inl (response, e) ↦
        rw (fetch_missing, e)
          (ap (λ r. steps (suc (suc (length keys))) (received pubkeys (k ∷ keys) m r, cache)) e
            ∙ keep pubkeys (k ∷ keys) response m cache)
    | inr (inl (x, e)) ↦
        rw (fetch_missing, e)
          (ap (λ r. steps (suc (suc (length keys))) (received pubkeys (k ∷ keys) m r, cache)) e
            ∙ over (suc (suc (length keys))) pubkeys (err x) cache)
    | inr (inr (x, e)) ↦
        rw (fetch_missing, e)
          (ap (λ r. steps (suc (suc (length keys))) (received pubkeys (k ∷ keys) m r, cache)) e
            ∙ over (suc (suc (length keys))) pubkeys (fault x) cache)
  ]

  abbrev enough : List Pubkey → AccountCache → ℕ
  enough pubkeys cache =
      length pubkeys + (suc (suc (suc (length (split_hits cache pubkeys [] []).0))))

  whole :
      (pubkeys : List Pubkey) (cache : AccountCache)
      → steps (enough pubkeys cache) (looking pubkeys pubkeys [] [], cache)
        ≡ ended pubkeys cache (
            fetch_missing rpc
              (split_hits cache pubkeys [] []).0
              (split_hits cache pubkeys [] []).1
              cache)
  whole pubkeys cache =
      steps_add (length pubkeys) (suc (suc (suc (length (split_hits cache pubkeys [] []).0))))
        (looking pubkeys pubkeys [] [], cache)
      ∙ (ap (steps (suc (suc (suc (length (split_hits cache pubkeys [] []).0)))))
            (look pubkeys pubkeys [] [] cache)
          ∙ fetch pubkeys (split_hits cache pubkeys [] []).0 (split_hits cache pubkeys [] []).1
              cache)

  collect-errs :
      (m : AccountCache) (pubkeys : List Pubkey) (e : AccountCacheError) → collect m pubkeys ≢ err e
  unfolding collect
  collect-errs m [] e h = cc h
  collect-errs m (k ∷ pubkeys) e h = elim (Option-cases (lookup m k)) [
    | inl missing ↦ cc (rw (collect, missing) at h)
    | inr (a, there) ↦ elim (Result-cases (collect m pubkeys)) [
      | inl (rest, e') ↦ cc (rw (collect, there, e') at h)
      | inr (inl (x, e')) ↦ absurd (collect-errs m pubkeys x e')
      | inr (inr (x, e')) ↦ cc (rw (collect, there, e') at h)
    ]
  ]

  -- What the operation returns, by the fetch that it ends with.
  abbrev returned :
      List Pubkey
      → Result AccountCacheError (AccountCache × AccountCache)
      → Result AccountCacheError (List (Option Account) × AccountCache)
  returned pubkeys r = do (m, c) ← r; result ← collect m pubkeys; ok (result, c)

  finish :
      (pubkeys : List Pubkey) (cache : AccountCache)
      (r : Result AccountCacheError (AccountCache × AccountCache))
      → ((answer : List (Option Account)) (cache' : AccountCache)
          → returned pubkeys r ≡ ok (answer, cache')
          → ended pubkeys cache r ≡ (gathered pubkeys (ok answer), cache'))
        × ((e : AccountCacheError)
            → returned pubkeys r ≡ err e
            → ended pubkeys cache r ≡ (gathered pubkeys (err e), cache))
  finish pubkeys cache (ok (m, c)) = elim (Result-cases (collect m pubkeys)) [
    | inl (result, e) ↦ (λ answer cache' h. rw (e) (cc (rw (e) at h)), λ x h. cc (rw (e) at h))
    | inr (inl (x, e)) ↦ absurd (collect-errs m pubkeys x e)
    | inr (inr (x, e)) ↦ (λ answer cache' h. cc (rw (e) at h), λ x h. cc (rw (e) at h))
  ]
  finish pubkeys cache (err x) = (λ answer cache' h. cc h, λ e h. cc h)
  finish pubkeys cache (fault x) = (λ answer cache' h. cc h, λ e h. cc h)

  as_operation :
      (pubkeys : List Pubkey) (cache : AccountCache)
      → ((answer : List (Option Account)) (cache' : AccountCache)
          → get_accounts rpc cache pubkeys ≡ ok (answer, cache')
          → steps (enough pubkeys cache) (looking pubkeys pubkeys [] [], cache)
            ≡ (gathered pubkeys (ok answer), cache'))
        × ((e : AccountCacheError)
            → get_accounts rpc cache pubkeys ≡ err e
            → steps (enough pubkeys cache) (looking pubkeys pubkeys [] [], cache)
              ≡ (gathered pubkeys (err e), cache))
  unfolding get_accounts
  as_operation pubkeys cache =
      let (answers, fails) = finish pubkeys cache (
        fetch_missing rpc (split_hits cache pubkeys [] []).0 (split_hits cache pubkeys [] []).1
          cache) in
      (
        λ answer cache' h. whole pubkeys cache ∙ answers answer cache' h,
        λ e h. whole pubkeys cache ∙ fails e h,
      )

  misses_bound :
      (cache : AccountCache) (rest keys : List Pubkey) (m : AccountCache)
      → length (split_hits cache rest keys m).0 ≤ length rest + length keys
  unfolding split_hits
  misses_bound cache [] keys m = omega arith
  misses_bound cache (k ∷ rest) keys m = elim (Option-cases (lookup cache k)) [
    | inl missing ↦
        rw (split-miss cache k rest keys m missing)
          (omega (arith, misses_bound cache rest (keys ++ k ∷ []) m, length-append keys (k ∷ [])))
    | inr (a, hit) ↦
        rw (split-hit cache k rest keys m a hit)
          (omega (arith, misses_bound cache rest keys (insert m k a)))
  ]

  -- A call that has ended stays as it is.
  later :
      (n : ℕ) (pubkeys : List Pubkey) (answer : Result AccountCacheError (List (Option Account)))
      (cache cache' : AccountCache)
      → length pubkeys + length pubkeys + 3 ≤ n
      → steps (enough pubkeys cache) (looking pubkeys pubkeys [] [], cache)
        ≡ (gathered pubkeys answer, cache')
      → steps n (looking pubkeys pubkeys [] [], cache) ≡ (gathered pubkeys answer, cache')
  later n pubkeys answer cache cache' many ended =
      let rest = n - enough pubkeys cache in
      let bound = misses_bound cache pubkeys [] [] in
      let e : n ≡ enough pubkeys cache + rest = omega arith in
      ap (λ j. steps j (looking pubkeys pubkeys [] [], cache)) e
      ∙ (steps_add (enough pubkeys cache) rest (looking pubkeys pubkeys [] [], cache)
          ∙ (ap (steps rest) ended ∙ over rest pubkeys answer cache'))

  -- With a client that answers for each key it is asked, a call of `get_accounts` that no other call interrupts ends after
  -- at most two accesses for each key and three steps more. It ends with the client's error for keys that were not cached,
  -- and then the cache is as before; or with what the cache holds for the keys at the end, in their order, and then all of
  -- them are cached and every entry of the cache before is kept.
  pub alone_ends :
      (pubkeys : List Pubkey) (cache : AccountCache) (n : ℕ)
      → IsClient rpc
      → length pubkeys + length pubkeys + 3 ≤ n
      → ((keys : List Pubkey) × (e : AccountCacheError) × All (Misses cache) keys
          × (rpc.get_multiple_accounts keys ≡ err e)
          × (steps n (looking pubkeys pubkeys [] [], cache) ≡ (gathered pubkeys (err e), cache)))
        ⊎ ((cache' : AccountCache) × (steps n (looking pubkeys pubkeys [] [], cache)
              ≡ (gathered pubkeys (ok (get_multiple cache' pubkeys)), cache'))
            × All (Has cache') pubkeys
            × Within cache cache')
  alone_ends pubkeys cache n client many =
      let (answers, fails) = as_operation pubkeys cache in
      elim (get_accounts_coherent rpc cache pubkeys client) [
        | inl (e, refused, h) ↦ inl (
          (split_hits cache pubkeys [] []).0,
          e,
          (split_hits_lem cache pubkeys [] [] (empty-Within cache) tt).missing,
          refused,
          later n pubkeys (err e) cache cache many (fails e h),
        )
        | inr (cache', h, all, kept) ↦ inr (
          cache',
          later n pubkeys (ok (get_multiple cache' pubkeys)) cache cache' many
              (answers (get_multiple cache' pubkeys) cache' h),
          all,
          kept,
        )
      ]
