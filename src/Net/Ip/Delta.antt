-- ===== src/Net/Ip/Delta.antt =====
-- deltaIPv4Checksum of llarp/net/ip.cpp, by the sums that it stands for.
use bittoro_network.Prelude.{
  ℕ, zero, suc, ◌+◌, ◌*◌, ◌/◌, ◌%◌, ◌^◌, ◌<◌, ◌≡◌, List, [], ◌∷◌, All, inl, inr, Bool-cases, ==_iff,
  ◌==◌, arith,
}
use bittoro_network.Net.Ip.{
  add32cs, sub32cs, fold_carry, delta_ipv4_checksum, Change, delta, tcp_sum, load16,
}

abbrev pub IsBytes : List ℕ → Type 0
IsBytes b = All (λ x. x < 256) b

pub load16_bound : (off : ℕ) (b : List ℕ) → IsBytes b → load16 off b < 65536
load16_bound zero [] h = omega arith
load16_bound zero (x ∷ []) h = omega (arith, h.0)
load16_bound zero (x ∷ (y ∷ b)) h = omega (arith, h.0, h.1.0)
load16_bound (suc off) [] h = omega arith
load16_bound (suc off) (x ∷ b) h = load16_bound off b h.1

-- The addresses fit in 32 bits.
abbrev pub InRange : Change → Type 0
InRange a =
    (a.old_src < 2 ^ 32) × (a.old_dst < 2 ^ 32) × (a.new_src < 2 ^ 32) × (a.new_dst < 2 ^ 32)

abbrev pub old_sum : Change → ℕ
old_sum a = add32cs a.old_src + add32cs a.old_dst

abbrev pub new_sum : Change → ℕ
new_sum a = add32cs a.new_src + add32cs a.new_dst

pub fold_carry_lem :
    (s : ℕ) → s < 2 ^ 32 → (q : ℕ) × (fold_carry s + 65535 * q ≡ s) × (fold_carry s < 65536)
unfolding fold_carry
fold_carry_lem s h =
    let once = s % 65536 + s / 65536 in (s / 65536 + once / 65536, omega arith, omega arith)

sub32cs_lem : (x : ℕ) → x < 2 ^ 32 → sub32cs x + add32cs x ≡ 131070
unfolding sub32cs add32cs
sub32cs_lem x h = omega arith

add32cs_bound : (x : ℕ) → x < 2 ^ 32 → add32cs x < 131071
unfolding add32cs
add32cs_bound x h = omega arith

-- A new checksum stands for what the old one did, with the new addresses for the old ones.
abbrev pub Stands : Change → ℕ → ℕ → Type 0
Stands a old v =
    (m : ℕ) × (n : ℕ) × (v + new_sum a + 65535 * m ≡ old + old_sum a + 65535 * n) × (v < 65536)

pub delta-Stands : (a : Change) (old : ℕ) → InRange a → old < 65536 → Stands a old (delta a old)
unfolding delta_ipv4_checksum
delta-Stands a old (os, od, ns, nd) h =
    let s = old + add32cs a.old_src + add32cs a.old_dst + sub32cs a.new_src + sub32cs a.new_dst in
    let src = sub32cs_lem a.new_src ns in
    let dst = sub32cs_lem a.new_dst nd in
    let osb = add32cs_bound a.old_src os in
    let odb = add32cs_bound a.old_dst od in
    let small : s % 2 ^ 32 ≡ s = omega arith in
    let (q, e, lt) = fold_carry_lem (s % 2 ^ 32) (omega arith) in (q, 4, omega arith, lt)

pub tcp_sum-Stands : (a : Change) (old v : ℕ) → Stands a old v → Stands a old (tcp_sum v)
tcp_sum-Stands a old v (m, n, e, lt) = elim (Bool-cases (v == 65535)) [
  | inl top ↦
      let is : v ≡ 65535 = (==_iff v 65535).0 top in rw top (suc m, n, omega arith, omega arith)
  | inr other ↦ rw other (m, n, e, lt)
]
