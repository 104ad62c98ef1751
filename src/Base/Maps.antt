-- ===== src/Base/Maps.antt =====
-- Hash maps as association lists, the latest entry first.
use Prim.Native.Nat.{ℕ}
use mathlib.Core.Bool.{Bool, true, false}
use mathlib.Core.Option.{Option, none, some}
use mathlib.Core.List.{List, [], ◌∷◌}
use byreal_titan_integration.Base.Tests.{◌==◌, if◌then◌else◌}

abbrev pub Map : Type 0 → Type 0
Map V = List (ℕ × V)

module _ {V : Type 0} where
  -- `get`
  unfoldable pub lookup : Map V → ℕ → Option V
  lookup [] k = none
  lookup ((k', a) ∷ rest) k = let found = lookup rest k in if k' == k then some a else found

  abbrev pub insert : Map V → ℕ → V → Map V
  insert m k a = (k, a) ∷ m

  abbrev pub contains_key : Map V → ℕ → Bool
  contains_key m k = elim (lookup m k) [ some a ↦ true | none ↦ false ]
