-- ===== src/RouteProgram/Runtime.antt =====
-- What the route program sees of the Solana runtime: the accounts, and the calls of other programs.
-- What a call does to the accounts is the runtime's: it is the field `invoke`.
use byreal_titan_integration.Base.{
  ℕ, ◌≡◌, refl, Bool, List, ◌∷◌, Result, ok, err, fault, require, true, false,
}
use byreal_titan_integration.Solana.{Account, Instruction}
use byreal_titan_integration.TradingVenue.Error.{Pubkey}
use byreal_titan_integration.RouteProgram.State.{RouteError}

-- An entry of the transaction's account list; one account may stand in it more than once.
pub record AccountInfo : Type 0 where
  pub key : Pubkey
  pub is_signer : Bool
  pub is_writable : Bool

pub data Error : Type 0 where
  route : RouteError → Error
  program : ℕ → Error

-- The calls that the program makes, by the library function that builds each.
pub data Call : Type 0 where
  create_associated_token_account_idempotent : (payer wallet mint token_program : Pubkey) → Call
  transfer : (token_program source target authority : Pubkey) (amount : ℕ) → Call
  transfer_checked :
      (token_program source mint target authority : Pubkey) (amount decimals : ℕ) → Call
  close_account : (token_program account destination authority : Pubkey) → Call
  system_transfer : (source target : Pubkey) (amount : ℕ) → Call
  sync_native : (token_program account : Pubkey) → Call
  venue : Instruction → List AccountInfo → Call

abbrev pub Store : Type 0
Store = Pubkey → Account

-- The accounts, and the calls that have succeeded so far, latest first; the flag says that the TitanPDA
-- signs by its seeds.
pub record World : Type 0 where
  pub accounts : Store
  pub calls : List (Call × Bool)

pub record Runtime : Type 0 where
  pub invoke : Call → Bool → Store → Result Error Store
  pub token_id : Pubkey
  pub token_2022_id : Pubkey
  pub native_mint : Pubkey

-- An error leaves no new state: the runtime undoes the whole instruction.
abbrev pub M : Type 0 → Type 0
M A = World → Result Error (A × World)

infixl 5 ◌>>=◌ ◌>>◌
abbrev pub ◌>>=◌ : {A B : Type 0} (m : M A) (k : A → M B) → M B
◌>>=◌ m k w = elim (m w) [ ok (a, w') ↦ k a w' | err e ↦ err e | fault x ↦ fault x ]

abbrev pub ◌>>◌ : {B : Type 0} (m : M (Unit {0})) (k : M B) → M B
m >> k = m >>= (λ done. k)

abbrev pub pure : {A : Type 0} → A → M A
pure a w = ok (a, w)

abbrev pub lift : {A : Type 0} → Result Error A → M A
lift (ok a) w = ok (a, w)
lift (err e) w = err e
lift (fault x) w = fault x

abbrev pub load : Pubkey → M Account
load k w = ok (w.accounts k, w)

abbrev pub record_call : Call → Bool → World → Result Error Store → Result Error (Unit {0} × World)
record_call c signed w (ok s) = ok (tt, record { accounts = s; calls = (c, signed) ∷ w.calls })
record_call c signed w (err e) = err e
record_call c signed w (fault x) = fault x

abbrev pub invoke : Runtime → Call → Bool → M (Unit {0})
invoke rt c signed w = record_call c signed w (rt.invoke c signed w.accounts)

-- A sequence succeeds only through a first step that does.
pub run-bind :
    {A B : Type 0} (m : M A) (k : A → M B) (w : World) (r : B × World)
    → (m >>= k) w ≡ ok r
    → (a : A) × (mid : World) × (m w ≡ ok (a, mid)) × (k a mid ≡ ok r)
run-bind {A} {B} m k w r h = go (m w) h
  where
    go :
        (x : Result Error (A × World))
        → (let y : Result Error (B × World) = elim x [
          | ok (a, w') ↦ k a w'
          | err e ↦ err e
          | fault f ↦ fault f
        ] in
            y)
          ≡ ok r
        → (a : A) × (mid : World) × (x ≡ ok (a, mid)) × (k a mid ≡ ok r)
    go (ok (a, mid)) e = (a, mid, refl, e)
    go (err x) e = cc
    go (fault x) e = cc

pub run-require :
    {B : Type 0} (t : Bool) (e : Error) (k : M B) (w : World) (r : B × World)
    → (lift (require t e) >> k) w ≡ ok r
    → (t ≡ true) × (k w ≡ ok r)
run-require true e k w r h = (refl, h)
run-require false e k w r h = cc

pub run-lift :
    {A B : Type 0} (x : Result Error A) (k : A → M B) (w : World) (r : B × World)
    → (lift x >>= k) w ≡ ok r
    → (a : A) × (x ≡ ok a) × (k a w ≡ ok r)
run-lift (ok a) k w r h = (a, refl, h)
run-lift (err e) k w r h = cc
run-lift (fault f) k w r h = cc

pub require_done :
    (t : Bool) (e : Error) (w : World) (r : Unit {0} × World)
    → lift (require t e) w ≡ ok r
    → t ≡ true
require_done true e w r h = refl
require_done false e w r h = cc

pub bind-pure : (m : M (Unit {0})) (w : World) → (m >> pure tt) w ≡ m w
bind-pure m w = go (m w)
  where
    go :
        (x : Result Error (Unit {0} × World))
        → (let y : Result Error (Unit {0} × World) = elim x [
          | ok (a, w') ↦ pure tt w'
          | err e ↦ err e
          | fault f ↦ fault f
        ] in
            y)
          ≡ x
    go (ok (tt, mid)) = refl
    go (err x) = refl
    go (fault x) = refl
