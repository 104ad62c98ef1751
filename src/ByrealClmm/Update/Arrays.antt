-- ===== src/ByrealClmm/Update/Arrays.antt =====
-- The tick arrays that `update_state` of byreal_clmm/core.rs puts into its map.
use byreal_titan_integration.Base.{
  ◌≡◌, refl, sym, ap, inl, inr, Bool, true, false, List, [], ◌∷◌, Option, none, some, Map, lookup,
  insert, ◌==◌, if◌then◌else◌, arith, Option-cases, Bool-cases, ==→eq, contains,
}
use byreal_titan_integration.Solana.{Account}
use byreal_titan_integration.TradingVenue.Error.{Pubkey}
use byreal_titan_integration.ByrealClmm.Library.{Library}
use byreal_titan_integration.ByrealClmm.Core.{Core}
use byreal_titan_integration.ByrealClmm.TickArray.{DynamicTickArrayState, from_account_data}
use byreal_titan_integration.ByrealClmm.Keys.{get_all_tick_array_addresses}
use byreal_titan_integration.ByrealClmm.Update.Addresses.{get_all_tick_array_addresses-same}
use byreal_titan_integration.ByrealClmm.Update.{◌then◌, decode_tick_arrays}

if_same : {A : Type 0} (t : Bool) (a : A) → (if t then a else a) ≡ a
if_same true a = refl
if_same false a = refl

module _ (lib : Library) where
  module _ (accounts : Map Account) where
    -- The array at `k`, if its account is given and decodes.
    abbrev pub array_at : Pubkey → Option (DynamicTickArrayState lib)
    array_at k = elim (lookup accounts k) [
      | none ↦ none
      | some acc ↦ from_account_data lib acc.bytes
    ]

    abbrev or_else : {A : Type 0} → Option A → Option A → Option A
    or_else none b = b
    or_else (some a) b = some a

    decode_tick_arrays-absent :
        (j : Pubkey) (keys : List Pubkey) (loaded : Map (DynamicTickArrayState lib))
        → array_at j ≡ none
        → decode_tick_arrays lib accounts (j ∷ keys) loaded
          ≡ decode_tick_arrays lib accounts keys loaded
    unfolding decode_tick_arrays
    decode_tick_arrays-absent j keys loaded h = ground arith

    decode_tick_arrays-present :
        (j : Pubkey) (keys : List Pubkey) (loaded : Map (DynamicTickArrayState lib))
        (a : DynamicTickArrayState lib)
        → array_at j ≡ some a
        → decode_tick_arrays lib accounts (j ∷ keys) loaded
          ≡ decode_tick_arrays lib accounts keys (insert loaded j a)
    unfolding decode_tick_arrays
    decode_tick_arrays-present j keys loaded a h = ground arith

    decode_tick_arrays_lem :
        (keys : List Pubkey) (loaded : Map (DynamicTickArrayState lib)) (k : Pubkey)
        → lookup (decode_tick_arrays lib accounts keys loaded) k
          ≡ (if contains keys k then or_else (array_at k) (lookup loaded k) else lookup loaded k)
    unfolding decode_tick_arrays lookup
    decode_tick_arrays_lem [] loaded k = refl
    decode_tick_arrays_lem (j ∷ keys) loaded k = elim (Option-cases (array_at j)) [
      | inl absent ↦
          rw (decode_tick_arrays-absent j keys loaded absent, decode_tick_arrays_lem keys loaded k)
            (elim (Bool-cases (j == k)) [
              | inl same ↦
                  let nothing : array_at k ≡ none = rw (sym (==→eq j k same)) absent in
                  rw (same, nothing) (if_same (contains keys k) (lookup loaded k))
              | inr other ↦ rw (other) refl
            ])
      | inr (a, present) ↦
          rw
            (
              decode_tick_arrays-present j keys loaded a present,
              decode_tick_arrays_lem keys (insert loaded j a) k,
            )
            (elim (Bool-cases (j == k)) [
              | inl same ↦
                  let there : array_at k ≡ some a = rw (sym (==→eq j k same)) present in
                  rw (same, there) (if_same (contains keys k) (some a))
              | inr other ↦ rw (other) refl
            ])
    ]

    decode_tick_arrays-fresh :
        (keys : List Pubkey) (k : Pubkey)
        → lookup (decode_tick_arrays lib accounts keys []) k
          ≡ (if contains keys k then array_at k else none)
    unfolding lookup
    decode_tick_arrays-fresh keys k =
        rw (decode_tick_arrays_lem keys [] k)
          (ap (λ o. if contains keys k then o else none) (or_else_none (array_at k)))
      where
        or_else_none : {A : Type 0} (o : Option A) → or_else o none ≡ o
        or_else_none none = refl
        or_else_none (some a) = refl

    pub arrays_fresh :
        (core : Core lib)
        → (let arrays =
              decode_tick_arrays lib accounts (get_all_tick_array_addresses lib core) [] in
            (k : Pubkey)
            → lookup arrays k ≡ (
                if contains
                  (get_all_tick_array_addresses lib (record core { dynamic_tick_arrays = arrays }))
                  k
                then array_at k
                else none))
    arrays_fresh core k =
        rw
          (get_all_tick_array_addresses-same lib core
            (decode_tick_arrays lib accounts (get_all_tick_array_addresses lib core) []))
          (decode_tick_arrays-fresh _ k)
