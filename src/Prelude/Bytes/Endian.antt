-- ===== src/Prelude/Bytes/Endian.antt =====
-- Big-endian integers (llarp/util/endian.hpp).
use Prim.Native.Nat.{ℕ, zero, suc, ◌+◌, ◌*◌, ◌/◌, ◌%◌, ◌^◌, ◌<◌}
use mathlib.Core.Path.{◌≡◌, refl}
use mathlib.Core.List.{List, [], ◌∷◌, ◌++◌}
use native.Mathlib.Omega.{arith}
use native.Mathlib.Nat.{pow-suc}
use bittoro_network.Prelude.Lists.{length, length-append}

-- The big-endian bytes of `x`, `n` of them, as htobe16buf, htobe32buf and htobe64buf store them.
unfoldable pub be_bytes : ℕ → ℕ → List ℕ
be_bytes zero x = []
be_bytes (suc n) x = be_bytes n (x / 256) ++ (x % 256 ∷ [])

be_fold : ℕ → List ℕ → ℕ
be_fold acc [] = acc
be_fold acc (b ∷ bs) = be_fold (acc * 256 + b) bs

-- bufbe16toh, bufbe32toh and bufbe64toh: the number that big-endian bytes stand for.
unfoldable pub be_value : List ℕ → ℕ
unfolding be_fold
be_value bs = be_fold 0 bs

be_fold-append :
    (acc : ℕ) (bs : List ℕ) (b : ℕ) → be_fold acc (bs ++ (b ∷ [])) ≡ be_fold acc bs * 256 + b
unfolding be_fold
be_fold-append acc [] b = refl
be_fold-append acc (c ∷ bs) b = be_fold-append (acc * 256 + c) bs b

pub length-be_bytes : (n x : ℕ) → length (be_bytes n x) ≡ n
unfolding be_bytes
length-be_bytes zero x = refl
length-be_bytes (suc n) x =
    omega (arith, length-append (be_bytes n (x / 256)) (x % 256 ∷ []), length-be_bytes n (x / 256))

pub be_value-be_bytes : (n x : ℕ) → x < 256 ^ n → be_value (be_bytes n x) ≡ x
unfolding be_value be_bytes
be_value-be_bytes zero x h = omega arith
be_value-be_bytes (suc n) x h =
    let rec = be_value-be_bytes n (x / 256) (omega (arith, pow-suc 256 n)) in
    omega (arith, be_fold-append 0 (be_bytes n (x / 256)) (x % 256), rec)
