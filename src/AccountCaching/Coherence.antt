-- ===== src/AccountCaching/Coherence.antt =====
-- What `RpcClientCache` keeps between its maps: the results are what the cache holds afterwards.
use byreal_titan_integration.Base.{
  lookup, insert, ℕ, ◌≡◌, refl, sym, ◌∙◌, ◌⊎◌, inl, inr, true, List, [], ◌∷◌, ◌++◌, Option, none,
  some, ◌==◌, ==→eq, contains, All, All-append, Bool-cases, Option-cases, arith,
}
use byreal_titan_integration.Solana.{Account}
use byreal_titan_integration.TradingVenue.Error.{Pubkey}
use byreal_titan_integration.AccountCaching.{AccountCache, split_hits}

abbrev pub Has : AccountCache → Pubkey → Type 0
Has m k = (a : Option Account) × (lookup m k ≡ some a)

-- Every entry of the one map is the other's.
abbrev pub Within : AccountCache → AccountCache → Type 0
Within m c = (k : Pubkey) (a : Option Account) → lookup m k ≡ some a → lookup c k ≡ some a

pub lookup-insert_same :
    (m : AccountCache) (k : Pubkey) (a : Option Account) → lookup (insert m k a) k ≡ some a
unfolding lookup
lookup-insert_same m k a = ground arith

pub empty-Within : (c : AccountCache) → Within [] c
unfolding lookup
empty-Within c k a e = cc e

pub insert-Within :
    (m c : AccountCache) (k : Pubkey) (a : Option Account)
    → Within m c
    → Within (insert m k a) (insert c k a)
unfolding lookup
insert-Within m c k a h k' a' e = elim (Bool-cases (k == k')) [
  | inl same ↦ rw same (rw same at e)
  | inr other ↦ rw other (h k' a' (rw other at e))
]

pub insert-Has :
    (m : AccountCache) (k k' : Pubkey) (a : Option Account) → Has m k' → Has (insert m k a) k'
unfolding lookup
insert-Has m k k' a (b, e) = elim (Bool-cases (k == k')) [
  | inl same ↦ (a, rw same refl)
  | inr other ↦ (b, rw other e)
]

pub Within-insert :
    (c c' : AccountCache) (k : Pubkey) (a : Option Account)
    → lookup c k ≡ none
    → Within c c'
    → Within c (insert c' k a)
unfolding lookup
Within-insert c c' k a missing h k' a' e = elim (Bool-cases (k == k')) [
  | inl same ↦ let e' : k ≡ k' = ==→eq k k' same in cc (missing, rw (sym e') at e)
  | inr other ↦ rw other (h k' a' e)
]

abbrev pub Misses : AccountCache → Pubkey → Type 0
Misses c k = lookup c k ≡ none

-- What the division of `pubkeys`, begun with `keys` and `m`, ends with.
pub record Split (cache : AccountCache) (pubkeys keys : List Pubkey) (m : AccountCache)
    (keys' : List Pubkey) (m' : AccountCache) : Type 0 where
  pub within : Within m' cache
  pub missing : All (Misses cache) keys'
  pub still_hit : (k : Pubkey) → Has m k → Has m' k
  pub still_missed : (k : Pubkey) → contains keys k ≡ true → contains keys' k ≡ true
  pub covered : All (λ k. Has m' k ⊎ (contains keys' k ≡ true)) pubkeys

pub contains_front : (xs ys : List ℕ) (k : ℕ) → contains xs k ≡ true → contains (xs ++ ys) k ≡ true
contains_front [] ys k h = cc h
contains_front (x ∷ xs) ys k h = ground (arith, contains_front xs ys k)

pub contains_last : (xs : List ℕ) (k : ℕ) → contains (xs ++ k ∷ []) k ≡ true
contains_last [] k = ground arith
contains_last (x ∷ xs) k = ground (arith, contains_last xs k)

pub split-miss :
    (cache : AccountCache) (p : Pubkey) (pubkeys keys : List Pubkey) (m : AccountCache)
    → lookup cache p ≡ none
    → split_hits cache (p ∷ pubkeys) keys m ≡ split_hits cache pubkeys (keys ++ p ∷ []) m
unfolding split_hits
split-miss cache p pubkeys keys m e = rw (split_hits, e) refl

pub split-hit :
    (cache : AccountCache) (p : Pubkey) (pubkeys keys : List Pubkey) (m : AccountCache)
    (a : Option Account)
    → lookup cache p ≡ some a
    → split_hits cache (p ∷ pubkeys) keys m ≡ split_hits cache pubkeys keys (insert m p a)
unfolding split_hits
split-hit cache p pubkeys keys m a e = rw (split_hits, e) refl

hit-Within :
    (m cache : AccountCache) (k : Pubkey) (a : Option Account)
    → lookup cache k ≡ some a
    → Within m cache
    → Within (insert m k a) cache
unfolding lookup
hit-Within m cache k a hit h k' a' e = elim (Bool-cases (k == k')) [
  | inl same ↦
      let found : some a ≡ some a' = rw same at e in
      let e' : k ≡ k' = ==→eq k k' same in rw (sym e') (hit ∙ found)
  | inr other ↦ h k' a' (rw other at e)
]

pub split_hits_lem :
    (cache : AccountCache) (pubkeys keys : List Pubkey) (m : AccountCache)
    → Within m cache
    → All (Misses cache) keys
    → Split cache pubkeys keys m
        (split_hits cache pubkeys keys m).0
        (split_hits cache pubkeys keys m).1
unfolding split_hits
split_hits_lem cache [] keys m h missing = record {
  within = h;
  missing = missing;
  still_hit = λ k e. e;
  still_missed = λ k e. e;
  covered = tt;
}
split_hits_lem cache (p ∷ pubkeys) keys m h missing = elim (Option-cases (lookup cache p)) [
  | inl absent ↦
      let r =
        split_hits_lem cache pubkeys (keys ++ p ∷ []) m h
          (All-append (Misses cache) keys (p ∷ []) (missing, (absent, tt))) in
      rw (split-miss cache p pubkeys keys m absent) (record {
        within = r.within;
        missing = r.missing;
        still_hit = r.still_hit;
        still_missed = λ k e. r.still_missed k (contains_front keys (p ∷ []) k e);
        covered = (inr (r.still_missed p (contains_last keys p)), r.covered);
      })
  | inr (a, hit) ↦
      let r =
        split_hits_lem cache pubkeys keys (insert m p a) (hit-Within m cache p a hit h) missing in
      rw (split-hit cache p pubkeys keys m a hit) (record {
        within = r.within;
        missing = r.missing;
        still_hit = λ k e. r.still_hit k (insert-Has m p k a e);
        still_missed = r.still_missed;
        covered = (inl (r.still_hit p (a, lookup-insert_same m p a)), r.covered);
      })
]
