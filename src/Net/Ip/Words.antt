-- ===== src/Net/Ip/Words.antt =====
-- llarp/net/ip.cpp: the sum over the words of a packet, as ipchksum adds them, and what a store to
-- one of them does to it.
use bittoro_network.Prelude.{
  ℕ, zero, suc, ◌+◌, ◌*◌, ◌<◌, ◌≤◌, ◌≡◌, ◌≢◌, refl, ap, List, [], ◌∷◌, length, arith,
}
use bittoro_network.Net.Ip.{load16, store16}

abbrev pub twice : ℕ → ℕ
twice zero = 0
twice (suc j) = suc (suc (twice j))

pub twice_lem : (j : ℕ) → twice j ≡ j + j
twice_lem zero = refl
twice_lem (suc j) = omega (arith, twice_lem j)

-- The sum over the first so many words
unfoldable pub words_sum : ℕ → List ℕ → ℕ
words_sum zero b = 0
words_sum (suc k) [] = 0
words_sum (suc k) (x ∷ []) = x
words_sum (suc k) (x ∷ (y ∷ b)) = x + 256 * y + words_sum k b

-- ipchksum: the sum over all words, before it is folded and inverted
unfoldable pub total_sum : List ℕ → ℕ
total_sum [] = 0
total_sum (x ∷ []) = x
total_sum (x ∷ (y ∷ b)) = x + 256 * y + total_sum b

-- The same behind the first so many words
unfoldable pub rest_sum : ℕ → List ℕ → ℕ
rest_sum zero b = total_sum b
rest_sum (suc k) [] = 0
rest_sum (suc k) (x ∷ []) = 0
rest_sum (suc k) (x ∷ (y ∷ b)) = rest_sum k b

pub length-store16 : (off v : ℕ) (b : List ℕ) → length (store16 off v b) ≡ length b
length-store16 zero v [] = refl
length-store16 zero v (x ∷ []) = refl
length-store16 zero v (x ∷ (y ∷ b)) = refl
length-store16 (suc off) v [] = refl
length-store16 (suc off) v (x ∷ b) = ap suc (length-store16 off v b)

pub words_sum-store16 :
    (k j v : ℕ) (b : List ℕ)
    → j < k
    → twice j + 2 ≤ length b
    → v < 65536
    → words_sum k (store16 (twice j) v b) + load16 (twice j) b ≡ words_sum k b + v
unfolding words_sum
words_sum-store16 zero j v b lt fits small = absurd (omega arith)
words_sum-store16 (suc k) zero v [] lt fits small = absurd (omega arith)
words_sum-store16 (suc k) zero v (x ∷ []) lt fits small = absurd (omega arith)
words_sum-store16 (suc k) zero v (x ∷ (y ∷ b)) lt fits small = omega arith
words_sum-store16 (suc k) (suc j) v [] lt fits small = absurd (omega arith)
words_sum-store16 (suc k) (suc j) v (x ∷ []) lt fits small = absurd (omega arith)
words_sum-store16 (suc k) (suc j) v (x ∷ (y ∷ b)) lt fits small =
    omega (arith, words_sum-store16 k j v b (omega arith) (omega arith) small)

pub words_sum-beyond :
    (k j v : ℕ) (b : List ℕ) → k ≤ j → words_sum k (store16 (twice j) v b) ≡ words_sum k b
unfolding words_sum
words_sum-beyond zero j v b le = refl
words_sum-beyond (suc k) zero v b le = absurd (omega arith)
words_sum-beyond (suc k) (suc j) v [] le = refl
words_sum-beyond (suc k) (suc j) v (x ∷ []) le = refl
words_sum-beyond (suc k) (suc j) v (x ∷ (y ∷ b)) le =
    omega (arith, words_sum-beyond k j v b (omega arith))

total_sum-store16 :
    (j v : ℕ) (b : List ℕ)
    → twice j + 2 ≤ length b
    → v < 65536
    → total_sum (store16 (twice j) v b) + load16 (twice j) b ≡ total_sum b + v
unfolding total_sum
total_sum-store16 zero v [] fits small = absurd (omega arith)
total_sum-store16 zero v (x ∷ []) fits small = absurd (omega arith)
total_sum-store16 zero v (x ∷ (y ∷ b)) fits small = omega arith
total_sum-store16 (suc j) v [] fits small = absurd (omega arith)
total_sum-store16 (suc j) v (x ∷ []) fits small = absurd (omega arith)
total_sum-store16 (suc j) v (x ∷ (y ∷ b)) fits small =
    omega (arith, total_sum-store16 j v b (omega arith) small)

pub rest_sum-store16 :
    (k j v : ℕ) (b : List ℕ)
    → k ≤ j
    → twice j + 2 ≤ length b
    → v < 65536
    → rest_sum k (store16 (twice j) v b) + load16 (twice j) b ≡ rest_sum k b + v
unfolding rest_sum
rest_sum-store16 zero j v b le fits small = total_sum-store16 j v b fits small
rest_sum-store16 (suc k) zero v b le fits small = absurd (omega arith)
rest_sum-store16 (suc k) (suc j) v [] le fits small = absurd (omega arith)
rest_sum-store16 (suc k) (suc j) v (x ∷ []) le fits small = absurd (omega arith)
rest_sum-store16 (suc k) (suc j) v (x ∷ (y ∷ b)) le fits small =
    rest_sum-store16 k j v b (omega arith) (omega arith) small

pub rest_sum-before :
    (k j v : ℕ) (b : List ℕ) → j < k → rest_sum k (store16 (twice j) v b) ≡ rest_sum k b
unfolding rest_sum
rest_sum-before zero j v b lt = absurd (omega arith)
rest_sum-before (suc k) zero v [] lt = refl
rest_sum-before (suc k) zero v (x ∷ []) lt = refl
rest_sum-before (suc k) zero v (x ∷ (y ∷ b)) lt = refl
rest_sum-before (suc k) (suc j) v [] lt = refl
rest_sum-before (suc k) (suc j) v (x ∷ []) lt = refl
rest_sum-before (suc k) (suc j) v (x ∷ (y ∷ b)) lt = rest_sum-before k j v b (omega arith)

pub load16-store16 :
    (i j v : ℕ) (b : List ℕ) → i ≢ j → load16 (twice i) (store16 (twice j) v b) ≡ load16 (twice i) b
load16-store16 zero zero v b ne = absurd (ne refl)
load16-store16 zero (suc j) v [] ne = refl
load16-store16 zero (suc j) v (x ∷ []) ne = refl
load16-store16 zero (suc j) v (x ∷ (y ∷ b)) ne = refl
load16-store16 (suc i) zero v [] ne = refl
load16-store16 (suc i) zero v (x ∷ []) ne = refl
load16-store16 (suc i) zero v (x ∷ (y ∷ b)) ne = refl
load16-store16 (suc i) (suc j) v [] ne = refl
load16-store16 (suc i) (suc j) v (x ∷ []) ne = refl
load16-store16 (suc i) (suc j) v (x ∷ (y ∷ b)) ne = load16-store16 i j v b (λ e. ne (ap suc e))

pub load16_same :
    (j v : ℕ) (b : List ℕ)
    → twice j + 2 ≤ length b
    → v < 65536
    → load16 (twice j) (store16 (twice j) v b) ≡ v
load16_same zero v [] fits small = absurd (omega arith)
load16_same zero v (x ∷ []) fits small = absurd (omega arith)
load16_same zero v (x ∷ (y ∷ b)) fits small = omega arith
load16_same (suc j) v [] fits small = absurd (omega arith)
load16_same (suc j) v (x ∷ []) fits small = absurd (omega arith)
load16_same (suc j) v (x ∷ (y ∷ b)) fits small = load16_same j v b (omega arith) small
