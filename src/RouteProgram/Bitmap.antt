-- ===== src/RouteProgram/Bitmap.antt =====
-- `TitanPdaBitmap` of instructions/swap_route_v3.rs: 256 bits in four u64 words.
mod Bits
pub mod Laws
use Prim.Native.Nat.{bit_and, bit_or}
use byreal_titan_integration.Base.{
  ℕ, ◌+◌, ◌/◌, ◌%◌, ◌^◌, Bool, true, false, not, ◌&&◌, List, [], ◌∷◌, get_or, set, ◌==◌, ltb,
  if◌then◌else◌,
}

pub record TitanPdaBitmap : Type 0 where
  pub bits : List ℕ

unfoldable pub new : TitanPdaBitmap
new = record { bits = 0 ∷ 0 ∷ 0 ∷ 0 ∷ [] }

-- `set`; a bit is `1u64 << (index % 64)`, which no shift here overflows.
unfoldable pub set_bit : TitanPdaBitmap → ℕ → TitanPdaBitmap
set_bit b index =
    if ltb index 256
    then record {
      bits = set b.bits (index / 64) (bit_or (get_or b.bits (index / 64) 0) (2 ^ (index % 64)));
    }
    else b

unfoldable pub is_set : TitanPdaBitmap → ℕ → Bool
is_set b index =
    ltb index 256 && not (bit_and (get_or b.bits (index / 64) 0) (2 ^ (index % 64)) == 0)
