-- ===== src/Util/Numerals.antt =====
-- Decimal numbers as the C library prints (vsnprintf) and reads (strtoull, atoi) them.
use bittoro_network.Prelude.{
  ℕ, zero, suc, ◌+◌, ◌-◌, ◌*◌, ◌/◌, ◌%◌, ◌^◌, ◌<◌, ◌≤◌, ◌≡◌, refl, ◌∙◌, List, [], ◌∷◌, ◌++◌, Bool,
  true, false, ◌&&◌, ◌||◌, ltb, leb, ◌==◌, if◌then◌else◌, length, length-append, All, All-append,
  arith, dec_lt,
}
use native.Mathlib.Nat.{pow-suc}

-- The digits of a number with at most `n` of them.
unfoldable pub decimal_from : ℕ → ℕ → List ℕ
decimal_from zero x = []
decimal_from (suc n) x =
    let more = decimal_from n (x / 10) in
    if ltb x 10 then (48 + x) ∷ [] else more ++ ((48 + x % 10) ∷ [])

-- "%zu" and PRIu64: twenty digits are enough for 64 bits.
abbrev pub decimal : ℕ → List ℕ
decimal x = decimal_from 20 x

-- isdigit
unfoldable pub is_digit : ℕ → Bool
is_digit c = leb 48 c && leb c 57

-- The value of the digits in front.
unfoldable pub digits_value : ℕ → List ℕ → ℕ
digits_value acc [] = acc
digits_value acc (c ∷ cs) =
    let rest = digits_value (acc * 10 + (c - 48)) cs in if is_digit c then rest else acc

-- isspace
unfoldable pub is_space : ℕ → Bool
is_space c = (c == 32) || (leb 9 c && leb c 13)

unfoldable pub skip_space : List ℕ → List ℕ
skip_space [] = []
skip_space (c ∷ cs) = let rest = skip_space cs in if is_space c then rest else c ∷ cs

-- The sign and the magnitude.
unfoldable pub signed : List ℕ → Bool × ℕ
signed [] = (false, 0)
signed (c ∷ cs) =
    if c == 45
    then (true, digits_value 0 cs)
    else if c == 43
    then (false, digits_value 0 cs)
    else (false, digits_value 0 (c ∷ cs))

-- strtoull(text, nullptr, 10)
unfoldable pub strtoull : List ℕ → ℕ
strtoull text =
    let n = signed (skip_space text) in
    if leb (2 ^ 64) n.1 then 2 ^ 64 - 1 else if n.0 then (2 ^ 64 - n.1) % 2 ^ 64 else n.1

-- atoi(text), of at most nine characters: whether it is negative, and its magnitude
unfoldable pub atoi : List ℕ → Bool × ℕ
atoi text = let n = signed (skip_space text) in (n.0 && ltb 0 n.1, n.1)

abbrev pub IsDigit : ℕ → Type 0
IsDigit c = (48 ≤ c) × (c ≤ 57)

pub decimal_from-IsDigit : (n x : ℕ) → All IsDigit (decimal_from n x)
unfolding decimal_from
decimal_from-IsDigit zero x = tt
decimal_from-IsDigit (suc n) x = elim (dec_lt x 10) [
  | yes lt ↦ let small : ltb x 10 ≡ true = ground arith in rw small ((omega arith, omega arith), tt)
  | no ge ↦
      let big : ltb x 10 ≡ false = ground arith in
      rw big (
        All-append IsDigit (decimal_from n (x / 10)) ((48 + x % 10) ∷ [])
          (decimal_from-IsDigit n (x / 10)) ((omega arith, omega arith), tt))
]

digits_value-append :
    (acc : ℕ) (ds rest : List ℕ)
    → All IsDigit ds
    → digits_value acc (ds ++ rest) ≡ digits_value (digits_value acc ds) rest
unfolding digits_value is_digit
digits_value-append acc [] rest v = refl
digits_value-append acc (c ∷ cs) rest v =
    ground (arith, digits_value-append (acc * 10 + (c - 48)) cs rest v.1)

pub digits_value-decimal_from : (n x : ℕ) → x < 10 ^ n → digits_value 0 (decimal_from n x) ≡ x
unfolding decimal_from digits_value is_digit
digits_value-decimal_from zero x h = omega arith
digits_value-decimal_from (suc n) x h = elim (dec_lt x 10) [
  | yes lt ↦ ground arith
  | no ge ↦
      let big : ltb x 10 ≡ false = ground arith in
      let rec = digits_value-decimal_from n (x / 10) (omega (arith, pow-suc 10 n)) in
      rw big (
        digits_value-append 0 (decimal_from n (x / 10)) ((48 + x % 10) ∷ [])
          (decimal_from-IsDigit n (x / 10))
        ∙ rw rec (ground arith))
]

pub length-decimal_from : (n x : ℕ) → (length (decimal_from n x) ≤ n)
unfolding decimal_from
length-decimal_from zero x = omega arith
length-decimal_from (suc n) x = ground (
  arith,
  length-decimal_from n (x / 10),
  length-append (decimal_from n (x / 10)) ((48 + x % 10) ∷ []),
)

pub decimal_from_small : (n k x : ℕ) → x < 10 ^ k → 0 < k → length (decimal_from n x) ≤ k
unfolding decimal_from
decimal_from_small zero k x h p = omega arith
decimal_from_small (suc n) zero x h p = absurd (omega arith)
decimal_from_small (suc n) (suc k) x h p = elim (dec_lt x 10) [
  | yes lt ↦ ground arith
  | no ge ↦
      let big : ltb x 10 ≡ false = ground arith in
      let power = pow-suc 10 k in
      let pos : 0 < k = elim (dec_lt 0 k) [
        | yes y ↦ y
        | no z ↦ absurd (let e : k ≡ 0 = omega arith in ge (rw e at h))
      ] in
      let rec = decimal_from_small n k (x / 10) (omega (arith, power)) pos in
      rw big (omega (arith, rec, length-append (decimal_from n (x / 10)) ((48 + x % 10) ∷ [])))
]

pub decimal_nonempty : (x : ℕ) → 0 < length (decimal x)
unfolding decimal_from
decimal_nonempty x = ground (arith, length-append (decimal_from 19 (x / 10)) ((48 + x % 10) ∷ []))

-- Digits have neither space nor sign in front.
signed_digits : (ds : List ℕ) → All IsDigit ds → signed (skip_space ds) ≡ (false, digits_value 0 ds)
unfolding signed skip_space is_space
signed_digits [] v = unfold digits_value in refl
signed_digits (c ∷ cs) v =
    let space : ((c == 32) || (leb 9 c && leb c 13)) ≡ false = ground (arith, v.0) in
    let minus : (c == 45) ≡ false = ground (arith, v.0) in
    let plus : (c == 43) ≡ false = ground (arith, v.0) in rw (space, minus, plus)

pub strtoull-decimal : (x : ℕ) → x < 2 ^ 64 → strtoull (decimal x) ≡ x
unfolding strtoull
strtoull-decimal x h =
    let value = digits_value-decimal_from 20 x (omega arith) in
    rw (signed_digits (decimal x) (decimal_from-IsDigit 20 x), value) (ground arith)

pub atoi-decimal : (x : ℕ) → x < 2 ^ 64 → atoi (decimal x) ≡ (false, x)
unfolding atoi
atoi-decimal x h =
    let value = digits_value-decimal_from 20 x (omega arith) in
    rw (signed_digits (decimal x) (decimal_from-IsDigit 20 x), value)
