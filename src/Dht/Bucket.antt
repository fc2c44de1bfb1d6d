-- ===== src/Dht/Bucket.antt =====
-- Bucket of llarp/dht/bucket.hpp and the XOR metric of kademlia.hpp. Keys are lists of bytes, and the
-- nodes stand in the order in which the map has them.
pub mod Closest
use bittoro_network.Prelude.{
  ℕ, zero, suc, ◌+◌, ◌*◌, ◌/◌, ◌%◌, ◌≡◌, refl, ap, ◌∙◌, sym, ◌⊎◌, inl, inr, List, [], ◌∷◌, Option,
  none, some, Bool, true, false, ltb, ◌==◌, if◌then◌else◌, replicate, All, arith, subst, Bool-cases,
}
use bittoro_network.Prelude.Bytes.{bytes_eq}

-- The exclusive or of two numbers of `n` bits.
unfoldable pub xor_bits : ℕ → ℕ → ℕ → ℕ
xor_bits zero a b = 0
xor_bits (suc n) a b = (a + b) % 2 + 2 * xor_bits n (a / 2) (b / 2)

-- AlignedBuffer::operator^
unfoldable pub xor_keys : List ℕ → List ℕ → List ℕ
xor_keys [] ys = []
xor_keys (x ∷ xs) [] = []
xor_keys (x ∷ xs) (y ∷ ys) = xor_bits 8 x y ∷ xor_keys xs ys

-- AlignedBuffer::operator<
unfoldable pub less : List ℕ → List ℕ → Bool
less [] ys = false
less (x ∷ xs) [] = false
less (x ∷ xs) (y ∷ ys) =
    let rest = less xs ys in if ltb x y then true else if x == y then rest else false

-- XorMetric::operator()
unfoldable pub closer : List ℕ → List ℕ → List ℕ → Bool
closer us left right = less (xor_keys us left) (xor_keys us right)

-- std::set< Key_t >::count
unfoldable pub member : List ℕ → List (List ℕ) → Bool
member k [] = false
member k (x ∷ xs) = let rest = member k xs in if bytes_eq k x then true else rest

-- The loop of FindClosest and, with keys to exclude, of FindCloseExcluding: the least distance so far
-- and the key that has it.
unfoldable pub close_loop :
    List ℕ → List (List ℕ) → List (List ℕ) → List ℕ → Option (List ℕ) → List ℕ × Option (List ℕ)
close_loop target exclude [] mindist result = (mindist, result)
close_loop target exclude (k ∷ ks) mindist result =
    let next : List ℕ → Option (List ℕ) → List ℕ × Option (List ℕ) = close_loop target exclude ks in
    let dist = xor_keys k target in
    if member k exclude
    then next mindist result
    else if less dist mindist
    then next dist (some k)
    else next mindist result

-- Key_t filled with 0xff
abbrev pub far : List ℕ
far = replicate 32 0xff

-- Bucket::FindClosest: the result, where it is set, and what is returned
unfoldable pub find_closest : List ℕ → List (List ℕ) → Option (List ℕ) × Bool
find_closest target nodes =
    ((close_loop target [] nodes far none).1, elim nodes [ [] ↦ false | k ∷ ks ↦ true ])

-- Bucket::FindCloseExcluding
unfoldable pub find_close_excluding :
    List ℕ → List (List ℕ) → List (List ℕ) → Option (List ℕ) × Bool
find_close_excluding target exclude nodes =
    let r = close_loop target exclude nodes far none in (r.1, less r.0 far)
