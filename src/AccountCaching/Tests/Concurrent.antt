-- ===== src/AccountCaching/Tests/Concurrent.antt =====
-- Calls on the account cache together and one after the other, on a client that knows one account.
use byreal_titan_integration.Base.{
  ℕ, zero, suc, lookup, ◌≢◌, fault, Fault, ◌≡◌, refl, [], ◌∷◌, Option, none, some, ok, err, All,
  List, ◌⊎◌, arith,
}
use byreal_titan_integration.Solana.{Account}
use byreal_titan_integration.TradingVenue.Error.{Pubkey, AccountCacheError, failed_to_fetch_account}
use byreal_titan_integration.AccountCaching.{
  AccountCache, RpcClient, get_multiple, get_account, get_accounts, split_hits, store_all, collect,
  fetch_missing,
}
use byreal_titan_integration.AccountCaching.Coherence.{Has, Within, Misses}
use byreal_titan_integration.AccountCaching.Fetch.{IsClient}
use byreal_titan_integration.AccountCaching.Interleaved.{
  Task, asking, fetching, found, looking, waiting, keeping, gathered, State, advance, call_one,
  call_many, go_on, Reach, here, next, new,
}
use byreal_titan_integration.AccountCaching.Interleaved.Agreement.{
  Serves, Agrees, IsRight, interleaved_answers,
}
use byreal_titan_integration.AccountCaching.Interleaved.Alone.{steps, alone_ends}
use byreal_titan_integration.AccountCaching.Session.{
  Call, get_one, get_many, perform, session, session_snapshot,
}
use byreal_titan_integration.AccountCaching.Tests.{
  account, answer_of, known, client, client-IsClient, cache, offline,
}

answer_of-eq-ok : (o : Option Account) (a : Account) → answer_of o ≡ ok a → o ≡ some a
answer_of-eq-ok (some b) a e = cc e
answer_of-eq-ok none a e = cc e

answer_of-returns : (o : Option Account) (x : Fault) → answer_of o ≢ fault x
answer_of-returns (some b) x e = cc e
answer_of-returns none x e = cc e

client-Serves : Serves known client
client-Serves = record {
  one = λ k a e. answer_of-eq-ok (known k) a e;
  one_returns = λ k x e. answer_of-returns (known k) x e;
  many = λ keys response e. cc e;
  many_return = λ keys x e. cc e;
}

offline-Serves : Serves known offline
offline-Serves = record {
  one = λ k a e. cc e;
  one_returns = λ k x e. cc e;
  many = λ keys response e. cc e;
  many_return = λ keys x e. cc e;
}

-- The client of the later calls does not answer.
abbrev clients : ℕ → RpcClient
clients zero = client
clients (suc n) = offline

clients-Serve : (n : ℕ) → Serves known (clients n)
clients-Serve zero = client-Serves
clients-Serve (suc n) = offline-Serves

abbrev at : AccountCache → List Task → State
at c tasks = record { cache = c; tasks = tasks }

-- While a `get_account` of 7 waits for the client, a `get_accounts` of 7 and 9 fetches both.
abbrev after : State
after = at ((9, none) ∷ (7, some account) ∷ []) (
    found 7 (err (failed_to_fetch_account []))
    ∷ gathered (7 ∷ 9 ∷ []) (ok (some account ∷ none ∷ []))
    ∷ [])

ran : Reach clients new after
unfolding advance lookup collect
ran =
    let asked = (7 ∷ 9 ∷ []) in
    let c7 : AccountCache = (7, some account) ∷ [] in
    let both : AccountCache = (9, none) ∷ c7 in
    let wait = fetching 7 in
    let r1 : Reach clients new (at [] (looking asked asked [] [] ∷ [])) =
      next here (call_many new asked) in
    let r2 : Reach clients new (at [] (asking 7 ∷ looking asked asked [] [] ∷ [])) =
      next r1 (call_one _ 7) in
    let r3 : Reach clients new (at [] (wait ∷ looking asked asked [] [] ∷ [])) =
      next r2 (go_on [] [] (looking asked asked [] [] ∷ []) (asking 7) 0) in
    let r4 : Reach clients new (at [] (wait ∷ looking asked (9 ∷ []) (7 ∷ []) [] ∷ [])) =
      next r3 (go_on [] (wait ∷ []) [] (looking asked asked [] []) 0) in
    let r5 : Reach clients new (at [] (wait ∷ looking asked [] asked [] ∷ [])) =
      next r4 (go_on [] (wait ∷ []) [] (looking asked (9 ∷ []) (7 ∷ []) []) 0) in
    let r6 : Reach clients new (at [] (wait ∷ waiting asked asked [] ∷ [])) =
      next r5 (go_on [] (wait ∷ []) [] (looking asked [] asked []) 0) in
    let r7 : Reach clients new
        (at [] (wait ∷ keeping asked asked (some account ∷ none ∷ []) [] ∷ [])) =
      next r6 (go_on [] (wait ∷ []) [] (waiting asked asked []) 0) in
    let r8 : Reach clients new (at c7 (wait ∷ keeping asked (9 ∷ []) (none ∷ []) c7 ∷ [])) =
      next r7 (go_on [] (wait ∷ []) [] (keeping asked asked (some account ∷ none ∷ []) []) 0) in
    let r9 : Reach clients new (at both (wait ∷ keeping asked [] [] both ∷ [])) =
      next r8 (go_on c7 (wait ∷ []) [] (keeping asked (9 ∷ []) (none ∷ []) c7) 0) in
    let r10 : Reach clients new
        (at both (wait ∷ gathered asked (ok (some account ∷ none ∷ [])) ∷ [])) =
      next r9 (go_on both (wait ∷ []) [] (keeping asked [] [] both) 0) in
    next r10 (go_on both [] (gathered asked (ok (some account ∷ none ∷ [])) ∷ []) wait 1)

interleaved_answers_example : Agrees known after.cache × All (IsRight known) after.tasks
interleaved_answers_example = interleaved_answers known clients after clients-Serve ran

alone_ends_example :
    ((keys : List Pubkey) × (e : AccountCacheError) × All (Misses cache) keys
      × (client.get_multiple_accounts keys ≡ err e)
      × (steps client 9 (looking (7 ∷ 8 ∷ 9 ∷ []) (7 ∷ 8 ∷ 9 ∷ []) [] [], cache)
          ≡ (gathered (7 ∷ 8 ∷ 9 ∷ []) (err e), cache)))
    ⊎ ((cache' : AccountCache) × (steps client 9
            (looking (7 ∷ 8 ∷ 9 ∷ []) (7 ∷ 8 ∷ 9 ∷ []) [] [], cache)
          ≡ (gathered (7 ∷ 8 ∷ 9 ∷ []) (ok (get_multiple cache' (7 ∷ 8 ∷ 9 ∷ []))), cache'))
        × All (Has cache') (7 ∷ 8 ∷ 9 ∷ [])
        × Within cache cache')
alone_ends_example = alone_ends client (7 ∷ 8 ∷ 9 ∷ []) cache 9 client-IsClient (omega arith)

abbrev calls : List (RpcClient × Call)
calls =
    (client, get_many (7 ∷ 9 ∷ []))
    ∷ (offline, get_one 7)
    ∷ (offline, get_one 10)
    ∷ (client, get_many (9 ∷ 8 ∷ []))
    ∷ []

offline-IsClient : IsClient offline
offline-IsClient = record { same_length = λ keys response e. cc e; never_faults = λ keys x e. cc e }

session_snapshot_example :
    (snapshot : Pubkey → Option Account) × All
      (λ answer. answer.1 ≡ snapshot answer.0)
      (session calls cache).0
    × ((k : Pubkey) (a : Option Account) → lookup cache k ≡ some a → a ≡ snapshot k)
    × ((k : Pubkey) (a : Option Account)
        → lookup (session calls cache).1 k ≡ some a
        → a ≡ snapshot k)
session_snapshot_example =
    session_snapshot calls cache
      (client-IsClient, (offline-IsClient, (offline-IsClient, (client-IsClient, tt))))

abbrev seen : List (Pubkey × Option Account)
seen = (7, some account) ∷ (9, none) ∷ (7, some account) ∷ (9, none) ∷ (8, some account) ∷ []

answered : (session calls cache).0 ≡ seen
unfolding session perform get_accounts get_account split_hits store_all collect fetch_missing lookup
answered = refl
