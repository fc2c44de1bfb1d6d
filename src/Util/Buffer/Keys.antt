-- ===== src/Util/Buffer/Keys.antt =====
-- The comparison of llarp_buffer_t with a string (llarp/util/buffer.cpp).
use bittoro_network.Prelude.{ℕ, ◌≡◌, refl, ap, ◌∙◌, ◌↔◌, List, [], ◌∷◌, ◌++◌, true, arith}
use bittoro_network.Util.Buffer.{equals}

-- A buffer equals a string exactly if the string is a prefix of what lies behind the cursor: bytes
-- that follow it make no difference.
pub equals_prefix :
    (xs str : List ℕ) → (equals xs str ≡ true) ↔ ((rest : List ℕ) × (xs ≡ str ++ rest))
unfolding equals
equals_prefix xs [] = (λ h. (xs, refl), λ h. refl)
equals_prefix [] (c ∷ str) = (λ h. cc, λ (rest, e). cc)
equals_prefix (x ∷ xs) (c ∷ str) = (
  λ h.
      let same : x ≡ c = ground arith in
      let (rest, e) = (equals_prefix xs str).0 (ground arith) in
      (rest, ap (◌∷◌ x) e ∙ ap (λ d. d ∷ (str ++ rest)) same),
  λ (rest, e).
      let same : x ≡ c = cc in
      let tail : xs ≡ str ++ rest = cc in ground (arith, (equals_prefix xs str).1 (rest, tail)),
)
