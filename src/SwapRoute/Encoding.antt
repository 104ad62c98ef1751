-- ===== src/SwapRoute/Encoding.antt =====
-- The bytes of src/swap_route/mod.rs against the reader that program/.../src/state.rs derives.
use mathlib.Core.List.{append_assoc, append-nil}
use byreal_titan_integration.Base.{
  ℕ, ◌+◌, ◌*◌, ◌%◌, ◌^◌, ◌<◌, ◌≡◌, refl, ◌∙◌, true, false, some, List, [], ◌∷◌, ◌++◌, map, arith,
  length, length-append, All, to_le_bytes, read_le, read_le-to_le_bytes,
}
use byreal_titan_integration.RouteProgram.State
use byreal_titan_integration.RouteProgram.State.{
  bind-some, read_venue, read_swap, read_swaps, read_swap_route_v3,
}
use byreal_titan_integration.SwapRoute.{
  Venue, byreal_clmm, SwapSpecInputV2, to_borsh_bytes, serialize, serialize_all,
  encode_swap_route_v3_data,
}

-- The program's values for the builder's.
abbrev pub on_chain_venue : Venue → State.Venue
on_chain_venue (byreal_clmm z) = State.byreal_clmm z

abbrev pub on_chain : SwapSpecInputV2 → State.SwapSpecInputV2
on_chain s = record {
  venue = on_chain_venue s.venue;
  from = s.from;
  to = s.to;
  weight_nanos = s.weight_nanos;
  n_accounts = s.n_accounts;
}

-- The fields are of their machine types.
abbrev pub Fits : SwapSpecInputV2 → Type 0
Fits s = (s.from < 256) × (s.to < 256) × (s.weight_nanos < 2 ^ 32) × (s.n_accounts < 256)

read_venue-to_borsh_bytes :
    (v : Venue) (rest : List ℕ)
    → read_venue (to_borsh_bytes v ++ rest) ≡ some (on_chain_venue v, rest)
unfolding read_venue to_borsh_bytes
read_venue-to_borsh_bytes (byreal_clmm true) rest = refl
read_venue-to_borsh_bytes (byreal_clmm false) rest = refl

read_swap-serialize :
    (s : SwapSpecInputV2) (rest : List ℕ)
    → Fits s
    → read_swap (serialize s ++ rest) ≡ some (on_chain s, rest)
unfolding read_swap serialize
read_swap-serialize s rest (f, t, w, n) = simp append_assoc (
    bind-some read_venue _ _ (read_venue-to_borsh_bytes s.venue _)
    ∙ bind-some (read_le 1) _ _ (read_le-to_le_bytes 1 s.from _ f)
    ∙ bind-some (read_le 1) _ _ (read_le-to_le_bytes 1 s.to _ t)
    ∙ bind-some (read_le 4) _ _ (read_le-to_le_bytes 4 s.weight_nanos _ w)
    ∙ bind-some (read_le 1) _ _ (read_le-to_le_bytes 1 s.n_accounts _ n))

read_swaps-serialize_all :
    (swaps : List SwapSpecInputV2) (rest : List ℕ)
    → All Fits swaps
    → read_swaps (length swaps) (serialize_all swaps ++ rest) ≡ some (map on_chain swaps, rest)
unfolding read_swaps serialize_all
read_swaps-serialize_all [] rest fits = refl
read_swaps-serialize_all (s ∷ swaps) rest (fit, fits) = simp append_assoc (
    bind-some read_swap _ _ (read_swap-serialize s _ fit)
    ∙ bind-some (read_swaps (length swaps)) _ _ (read_swaps-serialize_all swaps rest fits))

read_count :
    (n : ℕ) (rest : List ℕ)
    → n < 2 ^ 32
    → read_le 4 (to_le_bytes 4 (n % 2 ^ 32) ++ rest) ≡ some (n, rest)
read_count n rest h = let e : n % 2 ^ 32 ≡ n = omega arith in rw e (read_le-to_le_bytes 4 n rest h)

read_all :
    (swaps : List SwapSpecInputV2)
    → All Fits swaps
    → read_swaps (length swaps) (serialize_all swaps) ≡ some (map on_chain swaps, [])
read_all swaps fits = rw append-nil at (read_swaps-serialize_all swaps [] fits)

length-to_borsh_bytes : (v : Venue) → length (to_borsh_bytes v) ≡ 2
unfolding to_borsh_bytes
length-to_borsh_bytes (byreal_clmm z) = refl

length-serialize : (s : SwapSpecInputV2) → length (serialize s) ≡ 9
unfolding serialize to_le_bytes
length-serialize s =
    rw (length-append (to_borsh_bytes s.venue)) (omega (arith, length-to_borsh_bytes s.venue))

length-serialize_all :
    (swaps : List SwapSpecInputV2) → length (serialize_all swaps) ≡ 9 * length swaps
unfolding serialize_all
length-serialize_all [] = refl
length-serialize_all (s ∷ swaps) =
    rw (length-append (serialize s)) (omega (arith, length-serialize s, length-serialize_all swaps))

-- What the program reads from the bytes that the builder writes is the builder's amount, mint count
-- and legs, with nothing left over, provided that each is within its machine type.
pub read-encode_swap_route_v3_data :
    (amount mints : ℕ) (swaps : List SwapSpecInputV2)
    → amount < 2 ^ 64
    → mints < 256
    → length swaps < 2 ^ 32
    → All Fits swaps
    → read_swap_route_v3 (encode_swap_route_v3_data amount mints swaps)
      ≡ some ((amount, mints, map on_chain swaps), [])
unfolding read_swap_route_v3 encode_swap_route_v3_data
read-encode_swap_route_v3_data amount mints swaps a m c fits =
    bind-some (read_le 8) _ _ (read_le-to_le_bytes 8 amount _ a)
    ∙ bind-some (read_le 1) _ _ (read_le-to_le_bytes 1 mints _ m)
    ∙ bind-some (read_le 4) _ _ (read_count (length swaps) _ c)
    ∙ bind-some (read_swaps (length swaps)) _ _ (read_all swaps fits)

-- The instruction data is 14 bytes and 9 for each leg.
pub length-encode_swap_route_v3_data :
    (amount mints : ℕ) (swaps : List SwapSpecInputV2)
    → length (encode_swap_route_v3_data amount mints swaps) ≡ 14 + 9 * length swaps
unfolding encode_swap_route_v3_data to_le_bytes
length-encode_swap_route_v3_data amount mints swaps = omega (arith, length-serialize_all swaps)
