-- ===== src/Iwp/Fragments/Acks.antt =====
-- The bitset of acks against the byte that carries it.
use native.Mathlib.Nat.{pow-suc}
use bittoro_network.Prelude.{
  ℕ, zero, suc, ◌+◌, ◌*◌, ◌/◌, ◌%◌, ◌^◌, ◌<◌, ◌≡◌, refl, ap, List, [], ◌∷◌, Bool, true, false,
  arith, length,
}
use bittoro_network.Iwp.Fragments.{bitset, to_ulong}

pub length-bitset : (n x : ℕ) → length (bitset n x) ≡ n
unfolding bitset
length-bitset zero x = refl
length-bitset (suc n) x = ap suc (length-bitset n (x / 2))

pub to_ulong-bitset : (n x : ℕ) → x < 2 ^ n → to_ulong (bitset n x) ≡ x
unfolding bitset to_ulong
to_ulong-bitset zero x h = omega arith
to_ulong-bitset (suc n) x h =
    let rest = to_ulong-bitset n (x / 2) (omega (arith, pow-suc 2 n)) in ground (arith, rest)

pub bitset-to_ulong : (bs : List Bool) → bitset (length bs) (to_ulong bs) ≡ bs
unfolding bitset to_ulong
bitset-to_ulong [] = refl
bitset-to_ulong (true ∷ bs) =
    let half : (1 + 2 * to_ulong bs) / 2 ≡ to_ulong bs = omega arith in
    let odd : (1 + 2 * to_ulong bs) % 2 ≡ 1 = omega arith in
    rw (half, odd) (ap (◌∷◌ true) (bitset-to_ulong bs))
bitset-to_ulong (false ∷ bs) =
    let half : (0 + 2 * to_ulong bs) / 2 ≡ to_ulong bs = omega arith in
    let even : (0 + 2 * to_ulong bs) % 2 ≡ 0 = omega arith in
    rw (half, even) (ap (◌∷◌ false) (bitset-to_ulong bs))

pub to_ulong_lt : (bs : List Bool) → to_ulong bs < 2 ^ length bs
unfolding to_ulong
to_ulong_lt [] = omega arith
to_ulong_lt (true ∷ bs) = omega (arith, to_ulong_lt bs, pow-suc 2 (length bs))
to_ulong_lt (false ∷ bs) = omega (arith, to_ulong_lt bs, pow-suc 2 (length bs))
