-- ===== src/RouteProgram/State.antt =====
-- program/.../src/state.rs and error.rs: the arguments of `swap_route_v3`, and the reader that
-- `AnchorDeserialize` derives for them: fields in order, numbers little-endian, an enum by the byte of
-- its variant, a `bool` as 0 or 1, a `Vec` behind its u32 length. Anything else is refused.
use byreal_titan_integration.Base.{
  ℕ, zero, suc, Bool, true, false, Option, none, some, List, [], ◌∷◌, ◌==◌, if◌then◌else◌, read_le,
  ◌≡◌,
}

pub data RouteError : Type 0 where
  invalid_swap_input : RouteError
  missing_remaining_account : RouteError
  invalid_account_data : RouteError
  reserved_balance_violation : RouteError

abbrev pub max_swaps : ℕ
max_swaps = 12

abbrev pub max_mints : ℕ
max_mints = 12

pub data Venue : Type 0 where
  byreal_clmm : Bool → Venue

pub record SwapSpecInputV2 : Type 0 where
  pub venue : Venue
  pub from : ℕ
  pub to : ℕ
  pub weight_nanos : ℕ
  pub n_accounts : ℕ

-- A reader gives a value and the bytes behind it.
abbrev pub Reader : Type 0 → Type 0
Reader A = List ℕ → Option (A × List ℕ)

infixl 5 ◌>>=◌
abbrev pub ◌>>=◌ : {A B : Type 0} (r : Reader A) (k : A → Reader B) → Reader B
◌>>=◌ r k bs = elim (r bs) [ none ↦ none | some (a, rest) ↦ k a rest ]

-- A reader that succeeds hands its value and the rest of the input on.
pub bind-some :
    {A B : Type 0} (r : Reader A) (k : A → Reader B) (bs : List ℕ) {a : A} {rest : List ℕ}
    → r bs ≡ some (a, rest)
    → (r >>= k) bs ≡ k a rest
bind-some r k bs e = rw (e, ◌>>=◌)

abbrev pub done : {A : Type 0} → A → Reader A
done a bs = some (a, bs)

read_bool : Reader Bool
read_bool [] = none
read_bool (b ∷ rest) =
    if b == 0 then some (false, rest) else if b == 1 then some (true, rest) else none

unfoldable pub read_venue : Reader Venue
unfolding read_bool
read_venue [] = none
read_venue (variant ∷ rest) =
    if variant == 0 then (read_bool >>= λ z. done (byreal_clmm z)) rest else none

unfoldable pub read_swap : Reader SwapSpecInputV2
read_swap = do
  venue ← read_venue
  from ← read_le 1
  to ← read_le 1
  weight_nanos ← read_le 4
  n_accounts ← read_le 1
  done (record {
    venue = venue;
    from = from;
    to = to;
    weight_nanos = weight_nanos;
    n_accounts = n_accounts;
  })

unfoldable pub read_swaps : ℕ → Reader (List SwapSpecInputV2)
read_swaps zero = done []
read_swaps (suc n) = do swap ← read_swap; swaps ← read_swaps n; done (swap ∷ swaps)

-- `swap_route_v3(ctx, amount: u64, mints: u8, swaps: Vec<SwapSpecInputV2>)` behind discriminator 42.
unfoldable pub read_swap_route_v3 : List ℕ → Option ((ℕ × ℕ × List SwapSpecInputV2) × List ℕ)
read_swap_route_v3 [] = none
read_swap_route_v3 (d ∷ rest) =
    if d == 42
    then (do
      amount ← read_le 8
      mints ← read_le 1
      count ← read_le 4
      swaps ← read_swaps count
      done (amount, mints, swaps))
        rest
    else none
