-- ===== src/Prelude/Xor.antt =====
-- Exclusive or of numbers and of byte strings.
use Prim.Native.Nat.{
  ℕ, zero, suc, ◌+◌, ◌*◌, ◌/◌, ◌%◌, ◌≤◌, ◌<◌, bit_xor, digits, differ, bit_xor-bitwise,
}
use mathlib.Core.Path.{◌≡◌, refl}
use mathlib.Core.List.{List, [], ◌∷◌}
use native.Mathlib.Omega.{arith}
use bittoro_network.Prelude.Lists.{length}

abbrev xor_digits : ℕ → ℕ → ℕ → ℕ
xor_digits n a b = digits (λ b. b) differ n a b

xor_digits_fuel : (n m a b : ℕ) → a ≤ n → a ≤ m → xor_digits n a b ≡ xor_digits m a b
xor_digits_fuel zero zero a b p q = refl
xor_digits_fuel zero (suc m) zero b p q = refl
xor_digits_fuel zero (suc m) (suc a) b p q = absurd (omega arith)
xor_digits_fuel (suc n) zero zero b p q = refl
xor_digits_fuel (suc n) zero (suc a) b p q = absurd (omega arith)
xor_digits_fuel (suc n) (suc m) zero b p q = refl
xor_digits_fuel (suc n) (suc m) (suc a) b p q =
    omega (arith, xor_digits_fuel n m (suc a / 2) (b / 2) (omega arith) (omega arith))

zero-bit_xor : (b : ℕ) → bit_xor 0 b ≡ b
zero-bit_xor b = bit_xor-bitwise 0 b

differ_sum : (x y : ℕ) → x < 2 → y < 2 → differ x y ≡ (x + y) % 2
differ_sum zero zero p q = refl
differ_sum zero (suc zero) p q = refl
differ_sum (suc zero) zero p q = refl
differ_sum (suc zero) (suc zero) p q = refl
differ_sum (suc (suc x)) y p q = absurd (omega arith)
differ_sum zero (suc (suc y)) p q = absurd (omega arith)
differ_sum (suc zero) (suc (suc y)) p q = absurd (omega arith)

bit_xor_step : (a b : ℕ) → bit_xor a b ≡ bit_xor (a / 2) (b / 2) * 2 + (a + b) % 2
bit_xor_step zero b = omega (arith, zero-bit_xor b, zero-bit_xor (b / 2))
bit_xor_step (suc a) b = omega (
  arith,
  bit_xor-bitwise (suc a) b,
  bit_xor-bitwise (suc a / 2) (b / 2),
  xor_digits_fuel a (suc a / 2) (suc a / 2) (b / 2) (omega arith) (omega arith),
  differ_sum (suc a % 2) (b % 2) (omega arith) (omega arith),
)

bit_xor-half : (a b : ℕ) → bit_xor a b / 2 ≡ bit_xor (a / 2) (b / 2)
bit_xor-half a b = omega (arith, bit_xor_step a b)

bit_xor-odd : (a b : ℕ) → bit_xor a b % 2 ≡ (a + b) % 2
bit_xor-odd a b = omega (arith, bit_xor_step a b)

swap_fuel : (n a b c : ℕ) → a + b + c ≤ n → bit_xor (bit_xor a b) c ≡ bit_xor (bit_xor a c) b
swap_fuel zero zero zero zero h = refl
swap_fuel zero (suc a) b c h = absurd (omega arith)
swap_fuel zero zero (suc b) c h = absurd (omega arith)
swap_fuel zero zero zero (suc c) h = absurd (omega arith)
swap_fuel (suc n) a b c h =
    let smaller = swap_fuel n (a / 2) (b / 2) (c / 2) (omega arith) in
    rw
      (
        bit_xor_step (bit_xor a b) c,
        bit_xor_step (bit_xor a c) b,
        bit_xor-half a b,
        bit_xor-half a c,
        smaller,
      )
      (omega (arith, bit_xor-odd a b, bit_xor-odd a c))

pub bit_xor-swap : (a b c : ℕ) → bit_xor (bit_xor a b) c ≡ bit_xor (bit_xor a c) b
bit_xor-swap a b c = swap_fuel (a + b + c) a b c (omega arith)

cancel_fuel : (n a b : ℕ) → a + b ≤ n → bit_xor (bit_xor a b) b ≡ a
cancel_fuel zero zero zero h = refl
cancel_fuel zero (suc a) b h = absurd (omega arith)
cancel_fuel zero zero (suc b) h = absurd (omega arith)
cancel_fuel (suc n) a b h =
    let smaller = cancel_fuel n (a / 2) (b / 2) (omega arith) in
    rw (bit_xor_step (bit_xor a b) b, bit_xor-half a b, smaller) (omega (arith, bit_xor-odd a b))

pub bit_xor-cancel : (a b : ℕ) → bit_xor (bit_xor a b) b ≡ a
bit_xor-cancel a b = cancel_fuel (a + b) a b (omega arith)

-- Byte by byte; what passes the end of the second string stays as it is.
unfoldable pub xor_bytes : List ℕ → List ℕ → List ℕ
xor_bytes [] s = []
xor_bytes (x ∷ xs) [] = x ∷ xs
xor_bytes (x ∷ xs) (y ∷ ys) = bit_xor x y ∷ xor_bytes xs ys

pub length-xor_bytes : (xs s : List ℕ) → length (xor_bytes xs s) ≡ length xs
unfolding xor_bytes
length-xor_bytes [] s = refl
length-xor_bytes (x ∷ xs) [] = refl
length-xor_bytes (x ∷ xs) (y ∷ ys) = omega (arith, length-xor_bytes xs ys)

pub xor_bytes-swap : (xs s t : List ℕ) → xor_bytes (xor_bytes xs s) t ≡ xor_bytes (xor_bytes xs t) s
unfolding xor_bytes
xor_bytes-swap [] s t = refl
xor_bytes-swap (x ∷ xs) [] [] = refl
xor_bytes-swap (x ∷ xs) [] (z ∷ t) = refl
xor_bytes-swap (x ∷ xs) (y ∷ s) [] = refl
xor_bytes-swap (x ∷ xs) (y ∷ s) (z ∷ t) = rw (bit_xor-swap x y z, xor_bytes-swap xs s t) refl

pub xor_bytes-cancel : (xs s : List ℕ) → xor_bytes (xor_bytes xs s) s ≡ xs
unfolding xor_bytes
xor_bytes-cancel [] s = refl
xor_bytes-cancel (x ∷ xs) [] = refl
xor_bytes-cancel (x ∷ xs) (y ∷ s) = rw (bit_xor-cancel x y, xor_bytes-cancel xs s) refl
