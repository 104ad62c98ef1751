-- ===== src/RouteProgram/Bitmap/Laws.antt =====
-- The laws of `TitanPdaBitmap`.
use Prim.Native.Nat.{bit_or}
use byreal_titan_integration.Base.{
  ℕ, zero, suc, ◌/◌, ◌%◌, ◌^◌, ◌<◌, ◌≡◌, refl, true, false, ◌&&◌, ◌||◌, List, [], ◌∷◌, arith, ltb,
  ltb→lt, ◌==◌, ==→eq, get_or, set, length, Bool-cases, inl, inr, if◌then◌else◌,
}
use byreal_titan_integration.RouteProgram.Bitmap.{TitanPdaBitmap, new, set_bit, is_set}
use byreal_titan_integration.RouteProgram.Bitmap.Bits.{zero_and, test_bit, test_bit-bit_or}

-- Four words.
abbrev pub IsBitmap : TitanPdaBitmap → Type 0
IsBitmap b = length b.bits ≡ 4

length-set : (ws : List ℕ) (i v : ℕ) → length (set ws i v) ≡ length ws
length-set [] i v = refl
length-set (w ∷ ws) zero v = refl
length-set (w ∷ ws) (suc i) v = omega (arith, length-set ws i v)

get_or-set :
    (ws : List ℕ) (i j v : ℕ)
    → i < length ws
    → get_or (set ws i v) j 0 ≡ (if i == j then v else get_or ws j 0)
get_or-set [] i j v h = absurd (omega arith)
get_or-set (w ∷ ws) zero zero v h = ground arith
get_or-set (w ∷ ws) zero (suc j) v h = ground arith
get_or-set (w ∷ ws) (suc i) zero v h = ground arith
get_or-set (w ∷ ws) (suc i) (suc j) v h = ground (arith, get_or-set ws i j v (omega arith))

pub new-IsBitmap : IsBitmap new
unfolding new
new-IsBitmap = refl

pub set_bit-IsBitmap : (b : TitanPdaBitmap) (i : ℕ) → IsBitmap b → IsBitmap (set_bit b i)
unfolding set_bit
set_bit-IsBitmap b i h =
    ground (arith, length-set b.bits (i / 64) (bit_or (get_or b.bits (i / 64) 0) (2 ^ (i % 64))))

same_index : (i j : ℕ) → (i / 64 == j / 64) ≡ true → (i % 64 == j % 64) ≡ (i == j)
same_index i j h = ground arith

no_words : (i : ℕ) → get_or {A = ℕ} (0 ∷ 0 ∷ 0 ∷ 0 ∷ []) i 0 ≡ 0
no_words zero = refl
no_words (suc zero) = refl
no_words (suc (suc zero)) = refl
no_words (suc (suc (suc zero))) = refl
no_words (suc (suc (suc (suc i)))) = refl

other_index : (i j : ℕ) → (i / 64 == j / 64) ≡ false → (i == j) ≡ false
other_index i j h = ground arith

-- A new bitmap has no bit.
pub is_set-new : (j : ℕ) → is_set new j ≡ false
unfolding is_set new
is_set-new j = rw (no_words (j / 64), zero_and) (ground arith)

word_bit :
    (ws : List ℕ) (i j : ℕ)
    → i / 64 < length ws
    → test_bit
        (get_or (set ws (i / 64) (bit_or (get_or ws (i / 64) 0) (2 ^ (i % 64)))) (j / 64) 0)
        (j % 64)
      ≡ (i == j || test_bit (get_or ws (j / 64) 0) (j % 64))
word_bit ws i j h =
    let word = bit_or (get_or ws (i / 64) 0) (2 ^ (i % 64)) in
    elim (Bool-cases (i / 64 == j / 64)) [
      | inl same ↦
          let e : i / 64 ≡ j / 64 = ==→eq _ _ same in
          rw (get_or-set ws (i / 64) (j / 64) word h, same)
            (rw (test_bit-bit_or (i % 64) (j % 64) (get_or ws (i / 64) 0), same_index i j same, e))
      | inr other ↦ rw (get_or-set ws (i / 64) (j / 64) word h, other, other_index i j other)
    ]

-- Setting an index below 256 sets that index and no other; setting one from 256 on changes nothing.
pub is_set-set_bit :
    (b : TitanPdaBitmap) (i j : ℕ)
    → IsBitmap b
    → is_set (set_bit b i) j ≡ ((i == j && ltb i 256) || is_set b j)
unfolding is_set set_bit
is_set-set_bit b i j h = elim (Bool-cases (ltb i 256)) [
  | inr beyond ↦ rw beyond (ground arith)
  | inl below ↦
      rw (below, word_bit b.bits i j (omega (arith, ltb→lt i 256 below)))
        (ground (arith, ltb→lt i 256 below))
]
