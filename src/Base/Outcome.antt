-- ===== src/Base/Outcome.antt =====
-- Rust's `Result`, with a third way for a call to end: it panics, or the fuel of the model is used up.
use mathlib.Core.Path.{◌≡◌, refl}
use mathlib.Core.Bool.{Bool, true, false}
use mathlib.Core.Option.{Option, none, some}
use mathlib.Core.Logic.{◌⊎◌, inl, inr, ◌≢◌}
use byreal_titan_integration.Base.Tests.{if◌then◌else◌}

pub data Fault : Type 0 where
  panic : Fault
  out_of_fuel : Fault

pub data Result (E A : Type 0) : Type 0 where
  ok : A → Result E A
  err : E → Result E A
  fault : Fault → Result E A

-- A Rust `?`: only a value goes on to the rest.
infixl 5 ◌>>=◌ ◌>>◌
abbrev pub ◌>>=◌ : {E A B : Type 0} (first : Result E A) (next : A → Result E B) → Result E B
fault x >>= next = fault x
err e >>= next = err e
ok a >>= next = next a

abbrev pub ◌>>◌ : {E B : Type 0} (first : Result E (Unit {0})) (next : Result E B) → Result E B
first >> next = first >>= (λ done. next)

module _ {E A : Type 0} where
  -- `Option::ok_or`
  abbrev pub ok_or : Option A → E → Result E A
  ok_or none e = err e
  ok_or (some a) e = ok a

-- `Result::map_err`
abbrev pub map_err : {E F A : Type 0} → (E → F) → Result E A → Result F A
map_err f (ok a) = ok a
map_err f (err e) = err (f e)
map_err f (fault x) = fault x

-- `if !test { return Err(e) }`
abbrev pub require : {E : Type 0} → Bool → E → Result E (Unit {0})
require true e = ok tt
require false e = err e

-- An index, or an `unwrap`, that panics on nothing.
abbrev pub or_panic : {E A : Type 0} → Option A → Result E A
or_panic none = fault panic
or_panic (some a) = ok a

-- The three ways to end, with the equation kept.
pub Result-cases :
    {E A : Type 0} (r : Result E A)
    → ((a : A) × (r ≡ ok a)) ⊎ ((e : E) × (r ≡ err e)) ⊎ ((x : Fault) × (r ≡ fault x))
Result-cases (ok a) = inl (a, refl)
Result-cases (err e) = inr (inl (e, refl))
Result-cases (fault x) = inr (inr (x, refl))

-- A chain returns only through a first step that returns.
pub bind-eq-ok :
    {E A B : Type 0} (first : Result E A) (next : A → Result E B) (b : B)
    → first >>= next ≡ ok b
    → (mid : A) × (first ≡ ok mid) × (next mid ≡ ok b)
bind-eq-ok (fault x) next b h = cc
bind-eq-ok (err e) next b h = cc
bind-eq-ok (ok mid) next b h = (mid, refl, h)

pub require-eq-ok : {E : Type 0} (t : Bool) (e : E) → require t e ≡ ok tt → t ≡ true
require-eq-ok true e h = refl
require-eq-ok false e h = cc

pub ok_or-eq-ok : {E A : Type 0} (o : Option A) (e : E) {a : A} → ok_or o e ≡ ok a → o ≡ some a
ok_or-eq-ok none e h = cc
ok_or-eq-ok (some a) e h = cc

pub or_panic-eq-ok : {E A : Type 0} (o : Option A) {a : A} → or_panic {E = E} o ≡ ok a → o ≡ some a
or_panic-eq-ok none h = cc
or_panic-eq-ok (some a) h = cc

-- Neither a panic nor the end of the fuel.
abbrev pub NoFault : {E A : Type 0} → Result E A → Type 0
NoFault r = (x : Fault) → r ≢ fault x

pub bind-NoFault :
    {E A B : Type 0} (first : Result E A) (next : A → Result E B)
    → NoFault first
    → ((a : A) → first ≡ ok a → NoFault (next a))
    → NoFault (first >>= next)
bind-NoFault (ok a) next h k x e' = k a refl x e'
bind-NoFault (err e) next h k x e' = cc e'
bind-NoFault (fault f) next h k x e' = absurd (h f refl)

pub ok_or-NoFault : {E A : Type 0} (o : Option A) (e : E) → NoFault (ok_or o e)
ok_or-NoFault none e x h = cc h
ok_or-NoFault (some a) e x h = cc h

pub ok-NoFault : {E A : Type 0} (a : A) → NoFault {E = E} (ok a)
ok-NoFault a x h = cc h

pub err-NoFault : {E A : Type 0} (e : E) → NoFault {A = A} (err e)
err-NoFault e x h = cc h

pub map_err-NoFault :
    {E F A : Type 0} (f : E → F) (r : Result E A) → NoFault r → NoFault (map_err f r)
map_err-NoFault f (ok a) h x e = cc e
map_err-NoFault f (err e') h x e = cc e
map_err-NoFault f (fault y) h x e = absurd (h y refl)

pub map_err-eq-ok :
    {E F A : Type 0} (f : E → F) (r : Result E A) {a : A} → map_err f r ≡ ok a → r ≡ ok a
map_err-eq-ok f (ok a) h = cc h
map_err-eq-ok f (err e) h = cc h
map_err-eq-ok f (fault x) h = cc h

pub require-NoFault : {E : Type 0} (t : Bool) (e : E) → NoFault (require t e)
require-NoFault true e x h = cc h
require-NoFault false e x h = cc h

pub then-NoFault :
    {E B : Type 0} (first : Result E (Unit {0})) (next : Result E B)
    → NoFault first
    → NoFault next
    → NoFault (first >> next)
then-NoFault first next h k = bind-NoFault first (λ a. next) h λ a e. k

pub if-NoFault :
    {E A : Type 0} (t : Bool) (a b : Result E A)
    → NoFault a
    → NoFault b
    → NoFault (if t then a else b)
if-NoFault true a b h k = h
if-NoFault false a b h k = k
