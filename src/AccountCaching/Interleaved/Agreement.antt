-- ===== src/AccountCaching/Interleaved/Agreement.antt =====
-- Calls that run at the same time answer what is on the chain.
use byreal_titan_integration.Base.{
  ℕ, ◌≡◌, ◌≢◌, refl, sym, ◌⊎◌, inl, inr, true, List, [], ◌∷◌, ◌++◌, Option, some, Result, ok, err,
  fault, Fault, lookup, insert, map, ◌==◌, ==→eq, contains, All, All-append, Bool-cases,
  Option-cases, Result-cases, arith,
}
use byreal_titan_integration.Solana.{Account}
use byreal_titan_integration.TradingVenue.Error.{Pubkey, AccountCacheError}
use byreal_titan_integration.AccountCaching.{AccountCache, RpcClient, collect}
use byreal_titan_integration.AccountCaching.Coherence.{
  Has, contains_front, contains_last, insert-Has, lookup-insert_same,
}
use byreal_titan_integration.AccountCaching.Interleaved.{
  Task, asking, fetching, storing, found, looking, waiting, keeping, gathered, State, advance, Step,
  call_one, call_many, go_on, drop_call, reset, Reach, here, next, new,
}

contains_first : (p : ℕ) (ps : List ℕ) → contains (p ∷ ps) p ≡ true
contains_first p ps = ground arith

contains_later : (p : ℕ) (ps : List ℕ) (k : ℕ) → contains ps k ≡ true → contains (p ∷ ps) k ≡ true
contains_later p ps k h = ground (arith, h)

module _ (chain : Pubkey → Option Account) where
  -- What the client's documentation says of it while the chain holds `chain`: it answers with what is there, in the order
  -- of the keys, or fails; and no call panics.
  pub record Serves (rpc : RpcClient) : Type 0 where
    pub one : (k : Pubkey) (a : Account) → rpc.get_account k ≡ ok a → chain k ≡ some a
    pub one_returns : (k : Pubkey) (x : Fault) → rpc.get_account k ≢ fault x
    pub many :
        (keys : List Pubkey) (response : List (Option Account))
        → rpc.get_multiple_accounts keys ≡ ok response
        → response ≡ map chain keys
    pub many_return : (keys : List Pubkey) (x : Fault) → rpc.get_multiple_accounts keys ≢ fault x

  -- Every entry is what the chain holds.
  abbrev pub Agrees : AccountCache → Type 0
  Agrees m = (k : Pubkey) (a : Option Account) → lookup m k ≡ some a → a ≡ chain k

  -- An answer is the chain's, or an error of the client.
  abbrev pub Right : {A : Type 0} → A → Result AccountCacheError A → Type 0
  Right a (ok answer) = answer ≡ a
  Right a (err e) = Unit
  Right a (fault x) = ⊥

  abbrev Pending : (rest keys : List Pubkey) (m : AccountCache) → Pubkey → Type 0
  Pending rest keys m k = (Has m k ⊎ (contains keys k ≡ true)) ⊎ (contains rest k ≡ true)

  -- What each point of a call keeps of the keys that it has been given.
  abbrev pub Sound : Task → Type 0
  Sound (asking k) = Unit
  Sound (fetching k) = Unit
  Sound (storing k response) = chain k ≡ some response
  Sound (found k answer) = Right (chain k) answer
  Sound (looking pubkeys rest keys m) =
      Agrees m × ((k : Pubkey) → contains pubkeys k ≡ true → Pending rest keys m k)
  Sound (waiting pubkeys keys m) =
      Agrees m × ((k : Pubkey) → contains pubkeys k ≡ true → Pending [] keys m k)
  Sound (keeping pubkeys keys response m) =
      Agrees m
      × (response ≡ map chain keys)
      × ((k : Pubkey) → contains pubkeys k ≡ true → Pending [] keys m k)
  Sound (gathered pubkeys answer) = Right (map chain pubkeys) answer

  insert-Agrees :
      (m : AccountCache) (k : Pubkey) (a : Option Account)
      → Agrees m
      → a ≡ chain k
      → Agrees (insert m k a)
  unfolding lookup
  insert-Agrees m k a h e k' a' e' = elim (Bool-cases (k == k')) [
    | inl same ↦
        let same_key : k ≡ k' = ==→eq k k' same in
        let same_value : a ≡ a' = cc (rw (same) at e') in rw (sym same_value, sym same_key) e
    | inr other ↦ h k' a' (rw (other) at e')
  ]

  collect_lem :
      (m : AccountCache) (pubkeys : List Pubkey)
      → Agrees m
      → ((k : Pubkey) → contains pubkeys k ≡ true → Has m k)
      → collect m pubkeys ≡ ok (map chain pubkeys)
  unfolding collect
  collect_lem m [] h there = refl
  collect_lem m (p ∷ pubkeys) h there =
      let (a, e) = there p (contains_first p pubkeys) in
      rw
        (
          collect,
          e,
          h p a e,
          collect_lem m pubkeys h (λ k e. there k (contains_later p pubkeys k e)),
        )
        refl

  -- The two ends of the loops over keys.
  gathered-Sound :
      (m : AccountCache) (pubkeys : List Pubkey)
      → Agrees m
      → ((k : Pubkey) → contains pubkeys k ≡ true → Pending [] [] m k)
      → Right (map chain pubkeys) (collect m pubkeys)
  gathered-Sound m pubkeys h pending =
      rw (collect_lem m pubkeys h (λ k e. settled k (pending k e))) refl
    where
      settled : (k : Pubkey) → Pending [] [] m k → Has m k
      settled k (inl (inl has)) = has
      settled k (inl (inr none_left)) = cc none_left
      settled k (inr none_left) = cc none_left

  looked-Pending :
      (k : Pubkey) (rest keys : List Pubkey) (m : AccountCache) (a : Option Account) (j : Pubkey)
      → Pending (k ∷ rest) keys m j
      → Pending rest keys (insert m k a) j
  looked-Pending k rest keys m a j (inl (inl has)) = inl (inl (insert-Has m k j a has))
  looked-Pending k rest keys m a j (inl (inr asked)) = inl (inr asked)
  looked-Pending k rest keys m a j (inr left) = elim (Bool-cases (k == j)) [
    | inl same ↦ let e : k ≡ j = ==→eq k j same in inl (inl (a, rw (e) (lookup-insert_same m j a)))
    | inr other ↦ inr (rw (other) at left)
  ]

  missed-Pending :
      (k : Pubkey) (rest keys : List Pubkey) (m : AccountCache) (j : Pubkey)
      → Pending (k ∷ rest) keys m j
      → Pending rest (keys ++ k ∷ []) m j
  missed-Pending k rest keys m j (inl (inl has)) = inl (inl has)
  missed-Pending k rest keys m j (inl (inr asked)) =
      inl (inr (contains_front keys (k ∷ []) j asked))
  missed-Pending k rest keys m j (inr left) = elim (Bool-cases (k == j)) [
    | inl same ↦ let e : k ≡ j = ==→eq k j same in inl (inr (rw (e) (contains_last keys j)))
    | inr other ↦ inr (rw (other) at left)
  ]

  kept-Pending :
      (k : Pubkey) (keys : List Pubkey) (m : AccountCache) (a : Option Account) (j : Pubkey)
      → Pending [] (k ∷ keys) m j
      → Pending [] keys (insert m k a) j
  kept-Pending k keys m a j (inl (inl has)) = inl (inl (insert-Has m k j a has))
  kept-Pending k keys m a j (inl (inr asked)) = elim (Bool-cases (k == j)) [
    | inl same ↦ let e : k ≡ j = ==→eq k j same in inl (inl (a, rw (e) (lookup-insert_same m j a)))
    | inr other ↦ inl (inr (rw (other) at asked))
  ]
  kept-Pending k keys m a j (inr none_left) = cc none_left

  All-split :
      (front back : List Task) → All Sound (front ++ back) → All Sound front × All Sound back
  All-split [] back h = (tt, h)
  All-split (t ∷ front) back (p, h) = let (hf, hb) = All-split front back h in ((p, hf), hb)

  advance-Sound :
      (rpc : RpcClient) (t : Task) (cache : AccountCache)
      → Serves rpc
      → Agrees cache
      → Sound t
      → Agrees (advance rpc t cache).1 × Sound (advance rpc t cache).0
  unfolding advance
  advance-Sound rpc (asking k) cache serves h sound = elim (Option-cases (lookup cache k)) [
    | inl missing ↦ rw (advance, missing) (h, tt)
    | inr (a, hit) ↦ rw (advance, hit) (h, h k a hit)
  ]
  advance-Sound rpc (fetching k) cache serves h sound = elim (Result-cases (rpc.get_account k)) [
    | inl (a, e) ↦ rw (e) (h, serves.one k a e)
    | inr (inl (x, e)) ↦ rw (e) (h, tt)
    | inr (inr (x, e)) ↦ absurd (serves.one_returns k x e)
  ]
  advance-Sound rpc (storing k response) cache serves h sound =
      (insert-Agrees cache k (some response) h (sym sound), sym sound)
  advance-Sound rpc (found k answer) cache serves h sound = (h, sound)
  advance-Sound rpc (looking pubkeys (k ∷ rest) keys m) cache serves h (agrees, pending) =
      elim (Option-cases (lookup cache k)) [
        | inl missing ↦
            rw (advance, missing) (h, (agrees, λ j e. missed-Pending k rest keys m j (pending j e)))
        | inr (a, hit) ↦
            rw (advance, hit)
              (
                h,
                (
                  insert-Agrees m k a agrees (h k a hit),
                  λ j e. looked-Pending k rest keys m a j (pending j e),
                ),
              )
      ]
  advance-Sound rpc (looking pubkeys [] [] m) cache serves h (agrees, pending) =
      (h, gathered-Sound m pubkeys agrees pending)
  advance-Sound rpc (looking pubkeys [] (k ∷ keys) m) cache serves h sound = (h, sound)
  advance-Sound rpc (waiting pubkeys keys m) cache serves h (agrees, pending) =
      elim (Result-cases (rpc.get_multiple_accounts keys)) [
        | inl (response, e) ↦ rw (e) (h, (agrees, serves.many keys response e, pending))
        | inr (inl (x, e)) ↦ rw (e) (h, tt)
        | inr (inr (x, e)) ↦ absurd (serves.many_return keys x e)
      ]
  advance-Sound rpc (keeping pubkeys (k ∷ keys) (a ∷ response) m) cache serves h
        (agrees, e, pending) =
      let first : a ≡ chain k = cc e in
      let rest : response ≡ map chain keys = cc e in
      (
        insert-Agrees cache k a h first,
        (insert-Agrees m k a agrees first, rest, λ j e. kept-Pending k keys m a j (pending j e)),
      )
  advance-Sound rpc (keeping pubkeys [] response m) cache serves h (agrees, e, pending) =
      (h, gathered-Sound m pubkeys agrees pending)
  advance-Sound rpc (keeping pubkeys (k ∷ keys) [] m) cache serves h (agrees, e, pending) = cc e
  advance-Sound rpc (gathered pubkeys answer) cache serves h sound = (h, sound)

  Step-Sound :
      (rpcs : ℕ → RpcClient) {s s' : State}
      → ((n : ℕ) → Serves (rpcs n))
      → Step rpcs s s'
      → Agrees s.cache × All Sound s.tasks
      → Agrees s'.cache × All Sound s'.tasks
  unfolding lookup
  Step-Sound rpcs serves (call_one s k) (h, sound) = (h, (tt, sound))
  Step-Sound rpcs serves (call_many s pubkeys) (h, sound) =
      (h, ((λ k a e. cc e, λ k e. inr e), sound))
  Step-Sound rpcs serves (go_on cache before after t n) (h, sound) =
      let (front, (at_t, back)) = All-split before (t ∷ after) sound in
      let (h', at_t') = advance-Sound (rpcs n) t cache (serves n) h at_t in
      (h', All-append Sound before ((advance (rpcs n) t cache).0 ∷ after) (front, (at_t', back)))
  Step-Sound rpcs serves (drop_call cache before after t) (h, sound) =
      let (front, (at_t, back)) = All-split before (t ∷ after) sound in
      (h, All-append Sound before after (front, back))
  Step-Sound rpcs serves (reset cache) (h, sound) = (λ k a e. cc e, tt)

  Reach-Sound :
      (rpcs : ℕ → RpcClient) {s : State}
      → ((n : ℕ) → Serves (rpcs n))
      → Reach rpcs new s
      → Agrees s.cache × All Sound s.tasks
  unfolding lookup
  Reach-Sound rpcs serves here = (λ k a e. cc e, tt)
  Reach-Sound rpcs serves (next run step) =
      Step-Sound rpcs serves step (Reach-Sound rpcs serves run)

  -- What a call that is over has answered.
  abbrev pub IsRight : Task → Type 0
  IsRight (found k answer) = Right (chain k) answer
  IsRight (gathered pubkeys answer) = Right (map chain pubkeys) answer
  IsRight _ = Unit

  Sound-IsRight : (t : Task) → Sound t → IsRight t
  Sound-IsRight (found k answer) sound = sound
  Sound-IsRight (gathered pubkeys answer) sound = sound
  Sound-IsRight (asking k) sound = tt
  Sound-IsRight (fetching k) sound = tt
  Sound-IsRight (storing k response) sound = tt
  Sound-IsRight (looking pubkeys rest keys m) sound = tt
  Sound-IsRight (waiting pubkeys keys m) sound = tt
  Sound-IsRight (keeping pubkeys keys response m) sound = tt

  all-IsRight : (tasks : List Task) → All Sound tasks → All IsRight tasks
  all-IsRight [] h = tt
  all-IsRight (t ∷ tasks) (p, h) = (Sound-IsRight t p, all-IsRight tasks h)

  -- While a client answers with what the chain holds, or fails, calls of one cache that begin, interleave access by
  -- access, wait for the client and are dropped in any order, with resets in between, never panic: each `get_account` and
  -- `get_accounts` ends with exactly what the chain holds for its keys, in their order, or with an error of the client,
  -- and every entry of the cache is the chain's.
  pub interleaved_answers :
      (rpcs : ℕ → RpcClient) (s : State)
      → ((n : ℕ) → Serves (rpcs n))
      → Reach rpcs new s
      → Agrees s.cache × All IsRight s.tasks
  interleaved_answers rpcs s serves run =
      let (agrees, sound) = Reach-Sound rpcs serves run in (agrees, all-IsRight s.tasks sound)
