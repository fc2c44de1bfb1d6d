-- ===== src/Dht/Tests.antt =====
-- Buckets at concrete inputs.
use bittoro_network.Prelude.{ℕ, ◌≡◌, refl, ◌⊎◌, List, [], ◌∷◌, none, some, true, false, replicate}
use bittoro_network.Dht.Bucket.{
  xor_keys, far, member, find_close_excluding, less, xor_bits, close_loop,
}
use bittoro_network.Dht.Bucket.Closest.{Among, NoneNearer, find_close_excluding_lem}
use bittoro_network.Prelude.Bytes.{bytes_eq}

abbrev nodes : List (List ℕ)
nodes = replicate 32 1 ∷ replicate 32 2 ∷ replicate 32 7 ∷ []

-- The nearest is excluded.
second_nearest :
    find_close_excluding (replicate 32 1) (replicate 32 1 ∷ []) nodes
    ≡ (some (replicate 32 2), true)
unfolding find_close_excluding close_loop less member xor_keys xor_bits bytes_eq
second_nearest = refl

find_close_excluding_example :
    ((k : List ℕ) × Among k nodes
      × (member k (replicate 32 1 ∷ []) ≡ false)
      × (find_close_excluding (replicate 32 1) (replicate 32 1 ∷ []) nodes ≡ (some k, true))
      × NoneNearer (replicate 32 1) (replicate 32 1 ∷ []) (xor_keys k (replicate 32 1)) nodes)
    ⊎ ((find_close_excluding (replicate 32 1) (replicate 32 1 ∷ []) nodes ≡ (none, false))
        × NoneNearer (replicate 32 1) (replicate 32 1 ∷ []) far nodes)
find_close_excluding_example = find_close_excluding_lem (replicate 32 1) (replicate 32 1 ∷ []) nodes
