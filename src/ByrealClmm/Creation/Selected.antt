-- ===== src/ByrealClmm/Creation/Selected.antt =====
-- Which instructions `parse_pool_creations` of src/byreal_clmm/mod.rs takes for the creation of a pool.
use byreal_titan_integration.Base.{
  ℕ, zero, suc, ◌≤◌, ◌≡◌, refl, sym, ap, ◌∙◌, ◌⊎◌, inl, inr, ◌↔◌, Bool, true, false, ◌&&◌, ◌||◌,
  List, [], ◌∷◌, ◌++◌, some, length, take, drop, get_elem?, ◌==◌, ==→eq, leb, Bool-cases,
  Option-cases, arith,
}
use byreal_titan_integration.TradingVenue.Error.{Pubkey, byreal_clmm}
use byreal_titan_integration.ByrealClmm.TickArray.{bytes_eq}
use byreal_titan_integration.ByrealClmm.Creation.{
  ParsedInstruction, PoolCreation, create_pool_discriminator, create_pool_decay_fee_discriminator,
  starts_with_discriminator, creation_of, pool_creation, parse_pool_creations,
}

bytes_eq→eq : (xs ys : List ℕ) → bytes_eq xs ys ≡ true → xs ≡ ys
bytes_eq→eq [] [] h = refl
bytes_eq→eq [] (y ∷ ys) h = cc h
bytes_eq→eq (x ∷ xs) [] h = cc h
bytes_eq→eq (x ∷ xs) (y ∷ ys) h = elim (Bool-cases (x == y)) [
  | inl same ↦
      let first : x ≡ y = ==→eq x y same in
      let rest : xs ≡ ys = bytes_eq→eq xs ys (rw (same) at h) in cc (first, rest)
  | inr other ↦ cc (rw (other) at h)
]

bytes_eq_refl : (xs : List ℕ) → bytes_eq xs xs ≡ true
bytes_eq_refl [] = refl
bytes_eq_refl (x ∷ xs) = ground (arith, bytes_eq_refl xs)

take-drop : (n : ℕ) (xs : List ℕ) → xs ≡ take n xs ++ drop n xs
take-drop zero xs = refl
take-drop (suc n) [] = refl
take-drop (suc n) (x ∷ xs) = ap (λ rest. x ∷ rest) (take-drop n xs)

take_front : (xs ys : List ℕ) → take (length xs) (xs ++ ys) ≡ xs
take_front [] ys = refl
take_front (x ∷ xs) ys = ap (λ rest. x ∷ rest) (take_front xs ys)

length_front : (xs ys : List ℕ) → length xs ≤ length (xs ++ ys)
length_front [] ys = omega arith
length_front (x ∷ xs) ys = omega (arith, length_front xs ys)

and_right : (a b : Bool) → (a && b) ≡ true → b ≡ true
and_right true b h = h
and_right false b h = cc h

abbrev pub StartsWith : List ℕ → List ℕ → Type 0
StartsWith discriminator bytes = (rest : List ℕ) × (bytes ≡ discriminator ++ rest)

starts_with_discriminator-StartsWith :
    (bytes discriminator : List ℕ)
    → (starts_with_discriminator bytes discriminator ≡ true) ↔ StartsWith discriminator bytes
unfolding starts_with_discriminator
starts_with_discriminator-StartsWith bytes discriminator = (
  λ h.
      let same : bytes_eq (take (length discriminator) bytes) discriminator ≡ true =
        and_right _ _ h in
      (
        drop (length discriminator) bytes,
        take-drop (length discriminator) bytes
            ∙ ap (λ front. front ++ drop (length discriminator) bytes) (bytes_eq→eq _ _ same),
      ),
  λ (rest, e).
      let long : leb (length discriminator) (length (discriminator ++ rest)) ≡ true =
        ground (arith, length_front discriminator rest) in
      rw (e, take_front discriminator rest, long) (bytes_eq_refl discriminator),
)

-- The accounts of an instruction that creates `creation`: its pool is the fifth, its mints the seventh and the eighth.
abbrev pub AccountsOf : List Pubkey → PoolCreation → Type 0
AccountsOf accounts creation =
    (creation.protocol ≡ byreal_clmm)
    × (get_elem? accounts 4 ≡ some creation.pool)
    × ((mint_0 : Pubkey) × (mint_1 : Pubkey) × (get_elem? accounts 6 ≡ some mint_0)
        × (get_elem? accounts 7 ≡ some mint_1)
        × (creation.mints ≡ mint_0 ∷ mint_1 ∷ []))

creation_of-AccountsOf :
    (accounts : List Pubkey) (creation : PoolCreation)
    → (creation_of accounts ≡ some creation) ↔ AccountsOf accounts creation
creation_of-AccountsOf [] c = (λ h. cc h, λ (_, pool, _). cc pool)
creation_of-AccountsOf (a ∷ []) c = (λ h. cc h, λ (_, pool, _). cc pool)
creation_of-AccountsOf (a ∷ b ∷ []) c = (λ h. cc h, λ (_, pool, _). cc pool)
creation_of-AccountsOf (a ∷ b ∷ d ∷ []) c = (λ h. cc h, λ (_, pool, _). cc pool)
creation_of-AccountsOf (a ∷ b ∷ d ∷ e ∷ []) c = (λ h. cc h, λ (_, pool, _). cc pool)
creation_of-AccountsOf (a ∷ b ∷ d ∷ e ∷ f ∷ []) c = (λ h. cc h, λ (_, _, (_, _, m, _, _)). cc m)
creation_of-AccountsOf (a ∷ b ∷ d ∷ e ∷ f ∷ g ∷ []) c = (λ h. cc h, λ (_, _, (_, _, m, _, _)). cc m)
creation_of-AccountsOf (a ∷ b ∷ d ∷ e ∷ f ∷ g ∷ i ∷ []) c =
    (λ h. cc h, λ (_, _, (_, _, _, m, _)). cc m)
creation_of-AccountsOf (a ∷ b ∷ d ∷ e ∷ pool ∷ g ∷ mint_0 ∷ mint_1 ∷ rest) c = (
  λ h.
      let same : record { protocol = byreal_clmm; pool = pool; mints = mint_0 ∷ mint_1 ∷ [] } ≡ c =
        cc h in
      rw (sym same) (refl, refl, (mint_0, mint_1, refl, refl, refl)),
  λ (protocol, at_pool, (m0, m1, at_0, at_1, mints)).
      let p : pool ≡ c.pool = cc at_pool in
      let e0 : mint_0 ≡ m0 = cc at_0 in
      let e1 : mint_1 ≡ m1 = cc at_1 in
      let m : mint_0 ∷ mint_1 ∷ [] ≡ c.mints = cc (e0, e1, mints) in
      ap (λ q. some (record { protocol = byreal_clmm; pool = q; mints = mint_0 ∷ mint_1 ∷ [] })) p
      ∙ (ap (λ q. some (record { protocol = byreal_clmm; pool = c.pool; mints = q })) m
          ∙ ap (λ q. some (record { protocol = q; pool = c.pool; mints = c.mints }))
              (sym protocol)),
)

module _ (byreal_clmm_program_id : Pubkey) where
  -- An instruction of the venue's program that creates a pool, and what it creates.
  pub record Creates (instruction : ParsedInstruction) (creation : PoolCreation) : Type 0 where
    pub program : instruction.program_id ≡ byreal_clmm_program_id
    pub kind :
        StartsWith create_pool_discriminator instruction.bytes
        ⊎ StartsWith create_pool_decay_fee_discriminator instruction.bytes
    pub made : AccountsOf instruction.accounts creation

  abbrev is_create_pool : List ℕ → Bool
  is_create_pool bytes =
      starts_with_discriminator bytes create_pool_discriminator
      || starts_with_discriminator bytes create_pool_decay_fee_discriminator

  is_create_pool-StartsWith :
      (bytes : List ℕ)
      → (is_create_pool bytes ≡ true) ↔ (
          StartsWith create_pool_discriminator bytes
          ⊎ StartsWith create_pool_decay_fee_discriminator bytes)
  is_create_pool-StartsWith bytes = (
    λ h. elim (Bool-cases (starts_with_discriminator bytes create_pool_discriminator)) [
      | inl plain ↦
          inl ((starts_with_discriminator-StartsWith bytes create_pool_discriminator).0 plain)
      | inr decay ↦ inr (
          (starts_with_discriminator-StartsWith bytes create_pool_decay_fee_discriminator).0
            (rw (decay) at h))
    ],
    λ kind. elim kind [
      | inl plain ↦
          rw ((starts_with_discriminator-StartsWith bytes create_pool_discriminator).1 plain) refl
      | inr decay ↦ elim (Bool-cases (starts_with_discriminator bytes create_pool_discriminator)) [
        | inl plain ↦ rw (plain) refl
        | inr not_plain ↦
            rw
              (
                not_plain,
                (starts_with_discriminator-StartsWith bytes create_pool_decay_fee_discriminator).1
                    decay,
              )
              refl
      ]
    ],
  )

  pool_creation_iff :
      (instruction : ParsedInstruction) (creation : PoolCreation)
      → (pool_creation byreal_clmm_program_id instruction ≡ some creation)
        ↔ Creates instruction creation
  unfolding pool_creation
  pool_creation_iff instruction creation = (
    λ h. elim (Bool-cases (instruction.program_id == byreal_clmm_program_id)) [
      | inr other_program ↦ cc (rw (pool_creation, other_program) at h)
      | inl own ↦ elim (Bool-cases (is_create_pool instruction.bytes)) [
        | inr other_kind ↦ cc (rw (pool_creation, own, other_kind) at h)
        | inl create ↦ record {
          program = ==→eq _ _ own;
          kind = (is_create_pool-StartsWith instruction.bytes).0 create;
          made =
              (creation_of-AccountsOf instruction.accounts creation).0
                (rw (pool_creation, own, create) at h);
        }
      ]
    ],
    λ c.
        let own : (instruction.program_id == byreal_clmm_program_id) ≡ true =
          ground (arith, c.program) in
        rw (pool_creation, own, (is_create_pool-StartsWith instruction.bytes).1 c.kind)
          ((creation_of-AccountsOf instruction.accounts creation).1 c.made),
  )

  -- The creations of the instructions that create a pool, in their order.
  pub data Selected : List ParsedInstruction → List PoolCreation → Type 0 where
    nothing : Selected [] []
    creates :
        (instruction : ParsedInstruction) (rest : List ParsedInstruction) (creation : PoolCreation)
        (later : List PoolCreation)
        → Creates instruction creation
        → Selected rest later
        → Selected (instruction ∷ rest) (creation ∷ later)
    other :
        (instruction : ParsedInstruction) (rest : List ParsedInstruction)
        (later : List PoolCreation)
        → ((creation : PoolCreation) → ¬ Creates instruction creation)
        → Selected rest later
        → Selected (instruction ∷ rest) later

  parse-Selected :
      (instructions : List ParsedInstruction)
      → Selected instructions (parse_pool_creations byreal_clmm_program_id instructions)
  unfolding parse_pool_creations
  parse-Selected [] = nothing
  parse-Selected (instruction ∷ rest) =
      elim (Option-cases (pool_creation byreal_clmm_program_id instruction)) [
        | inl foreign ↦
            rw (parse_pool_creations, foreign)
              (other instruction rest _
                (λ creation c. cc (foreign, (pool_creation_iff instruction creation).1 c))
                (parse-Selected rest))
        | inr (creation, e) ↦
            rw (parse_pool_creations, e)
              (creates instruction rest creation _ ((pool_creation_iff instruction creation).0 e)
                (parse-Selected rest))
      ]

  Selected-parse :
      (instructions : List ParsedInstruction) (creations : List PoolCreation)
      → Selected instructions creations
      → parse_pool_creations byreal_clmm_program_id instructions ≡ creations
  unfolding parse_pool_creations
  Selected-parse _ _ nothing = refl
  Selected-parse _ _ (creates instruction rest creation later c selected) =
      rw
        (
          parse_pool_creations,
          (pool_creation_iff instruction creation).1 c,
          Selected-parse rest later selected,
        )
        refl
  Selected-parse _ _ (other instruction rest later foreign selected) =
      elim (Option-cases (pool_creation byreal_clmm_program_id instruction)) [
        | inl e ↦ rw (parse_pool_creations, e) (Selected-parse rest later selected)
        | inr (creation, e) ↦
            absurd (foreign creation ((pool_creation_iff instruction creation).0 e))
      ]

  -- `parse_pool_creations` gives the creations of exactly the instructions of the venue's program whose data begins with
  -- one of the two discriminators and that have the accounts, in their order, each with the pool and the mints from their
  -- places among the accounts.
  pub parse_pool_creations_iff :
      (instructions : List ParsedInstruction) (creations : List PoolCreation)
      → (parse_pool_creations byreal_clmm_program_id instructions ≡ creations)
        ↔ Selected instructions creations
  parse_pool_creations_iff instructions creations =
      (λ h. rw (sym h) (parse-Selected instructions), Selected-parse instructions creations)
