-- ===== src/RouteProgram/Bitmap/Bits.antt =====
-- One bit of a word: `word & (1 << k)` against `word | (1 << k)`.
use Prim.Native.Nat.{digits, bitwise, bit_and, bit_or, bit_and-bitwise, bit_or-bitwise}
use native.Mathlib.Nat.{pow-suc}
use byreal_titan_integration.Base.{
  ℕ, zero, suc, ◌+◌, ◌*◌, ◌/◌, ◌%◌, ◌^◌, ◌≤◌, min, max, Bool, false, not, ◌||◌, ◌≡◌, refl, arith,
  ◌==◌,
}

-- Any two amounts of fuel that reach the number's own size give the same digits.
module _ (last : ℕ → ℕ) (op : ℕ → ℕ → ℕ) where
  same_digits :
      (fuel x y enough : ℕ)
      → x ≤ enough
      → x ≤ fuel
      → digits last op fuel x y ≡ digits last op enough x y
  same_digits (suc fuel) (suc x) y (suc enough) le le' =
      let smaller : suc x / 2 ≤ enough = omega arith in
      rw (same_digits fuel (suc x / 2) (y / 2) enough smaller (omega arith))
  same_digits (suc fuel) (suc x) y zero le le' = absurd (omega arith)
  same_digits zero (suc x) y enough le le' = absurd (omega arith)
  same_digits (suc fuel) zero y (suc enough) le le' = refl
  same_digits (suc fuel) zero y zero le le' = refl
  same_digits zero zero y (suc enough) le le' = refl
  same_digits zero zero y zero le le' = refl

  lowest_digit :
      (x y : ℕ)
      → bitwise last op (suc x) y ≡ bitwise last op (suc x / 2) (y / 2) * 2 + op (suc x % 2) (y % 2)
  lowest_digit x y = rw (same_digits x (suc x / 2) (y / 2) (suc x / 2) (omega arith) (omega arith))

and_digit : (x y : ℕ) → bit_and x y ≡ bit_and (x / 2) (y / 2) * 2 + min (x % 2) (y % 2)
and_digit (suc x) y = simp bit_and-bitwise (lowest_digit (λ _. 0) min x y)
and_digit zero y = simp bit_and-bitwise (omega arith)

or_digit : (x y : ℕ) → bit_or x y ≡ bit_or (x / 2) (y / 2) * 2 + max (x % 2) (y % 2)
or_digit (suc x) y = simp bit_or-bitwise (lowest_digit (λ e. e) max x y)
or_digit zero y = simp bit_or-bitwise (omega arith)

and_zero : (bound x : ℕ) → x ≤ bound → bit_and x 0 ≡ 0
and_zero zero x h = let e : x ≡ 0 = omega arith in rw e
and_zero (suc bound) x h = omega (arith, and_digit x 0, and_zero bound (x / 2))

or_zero : (bound x : ℕ) → x ≤ bound → bit_or x 0 ≡ x
or_zero zero x h = let e : x ≡ 0 = omega arith in rw e
or_zero (suc bound) x h = omega (arith, or_digit x 0, or_zero bound (x / 2))

pub zero_and : (y : ℕ) → bit_and 0 y ≡ 0
zero_and y = bit_and-bitwise 0 y

abbrev pub test_bit : ℕ → ℕ → Bool
test_bit x k = not (bit_and x (2 ^ k) == 0)

half_pow : (k : ℕ) → (2 ^ suc k / 2 ≡ 2 ^ k) × (2 ^ suc k % 2 ≡ 0)
half_pow k = (omega (arith, pow-suc 2 k), omega (arith, pow-suc 2 k))

test_bit_zero : (x : ℕ) → bit_and x (2 ^ 0) ≡ x % 2
test_bit_zero x = omega (arith, and_digit x 1, and_zero (x / 2) (x / 2) (omega arith))

test_bit-suc : (x k : ℕ) → bit_and x (2 ^ suc k) ≡ bit_and (x / 2) (2 ^ k) * 2
test_bit-suc x k = let (h, m) = half_pow k in rw (and_digit x (2 ^ suc k)) (rw (h, m) (omega arith))

or_half : (x k : ℕ) → bit_or x (2 ^ suc k) / 2 ≡ bit_or (x / 2) (2 ^ k)
or_half x k = let (h, m) = half_pow k in rw (or_digit x (2 ^ suc k)) (rw (h, m) (omega arith))

or_low : (x k : ℕ) → bit_or x (2 ^ suc k) % 2 ≡ x % 2
or_low x k = let (h, m) = half_pow k in rw (or_digit x (2 ^ suc k)) (rw (h, m) (omega arith))

or_one : (x : ℕ) → (bit_or x (2 ^ 0) / 2 ≡ x / 2) × (bit_or x (2 ^ 0) % 2 ≡ 1)
or_one x =
    let e = or_digit x 1 in
    let z = or_zero (x / 2) (x / 2) (omega arith) in (omega (arith, e, z), omega (arith, e, z))

doubled_zero : (x : ℕ) → not (x * 2 == 0) ≡ not (x == 0)
doubled_zero x = ground arith

zero_ne_suc : (j : ℕ) → (0 == suc j) ≡ false
zero_ne_suc j = ground arith

suc_ne_zero : (k : ℕ) → (suc k == 0) ≡ false
suc_ne_zero k = ground arith

suc_eq_suc : (k j : ℕ) → (suc k == suc j) ≡ (k == j)
suc_eq_suc k j = ground arith

-- Setting bit k sets that bit and no other.
pub test_bit-bit_or : (k j x : ℕ) → test_bit (bit_or x (2 ^ k)) j ≡ (k == j || test_bit x j)
test_bit-bit_or zero zero x = rw (test_bit_zero, (or_one x).1)
test_bit-bit_or zero (suc j) x =
    rw (test_bit-suc (bit_or x (2 ^ 0)) j, test_bit-suc x j, (or_one x).0, zero_ne_suc j)
test_bit-bit_or (suc k) zero x =
    rw (test_bit_zero (bit_or x (2 ^ suc k)), or_low, test_bit_zero x, suc_ne_zero k)
test_bit-bit_or (suc k) (suc j) x =
    rw
      (
        test_bit-suc (bit_or x (2 ^ suc k)) j,
        test_bit-suc x j,
        or_half,
        doubled_zero,
        doubled_zero,
        suc_eq_suc k j,
      )
      (test_bit-bit_or k j (x / 2))
