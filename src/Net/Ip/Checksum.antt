-- ===== src/Net/Ip/Checksum.antt =====
-- UpdateIPv4Address of llarp/net/ip.cpp: the checksums of the packet after it.
use bittoro_network.Prelude.{
  ℕ, ◌+◌, ◌*◌, ◌/◌, ◌%◌, ◌^◌, ◌<◌, ◌≤◌, ◌≡◌, refl, ap, ◌∙◌, List, length, Bool, inl, inr,
  if◌then◌else◌, arith,
}
use bittoro_network.Net.Ip.{
  Change, delta, load16, load32, store16, byte_at, add32cs, header_size, update_payload,
  update_ipv4_address,
}
use bittoro_network.Net.Ip.Words.{
  twice, twice_lem, words_sum, rest_sum, length-store16, words_sum-store16, words_sum-beyond,
  rest_sum-store16, rest_sum-before,
}
use bittoro_network.Net.Ip.Delta.{IsBytes, InRange, old_sum, new_sum, load16_bound, delta-Stands}
use bittoro_network.Net.Ip.Readdress.{
  addresses, readdress, apart, beside, words_sum-readdress, rest_sum-readdress, addresses-readdress,
  loaded,
}
use bittoro_network.Net.Ip.Payload.{carries, Outcome, update_payload-outcome}

-- The words of the header
abbrev pub header_words : List ℕ → ℕ
header_words b = byte_at 0 b % 16 * 2

-- What the checksum of the protocol above is over, as far as the packet has it: the addresses too,
-- if the packet carries the checksum
unfoldable pub upper_sum : Bool → ℕ → List ℕ → ℕ
upper_sum c k b = rest_sum k b + (if c then addresses b else 0)

congruent : (x y m n : ℕ) → x + 65535 * m ≡ y + 65535 * n → x % 65535 ≡ y % 65535
congruent x y m n e = omega (arith, e)

add32cs-halves : (lo hi : ℕ) → lo < 65536 → add32cs (lo + 65536 * hi) ≡ lo + hi
unfolding add32cs
add32cs-halves lo hi h = omega (arith, h)

load32_bound : (off : ℕ) (b : List ℕ) → IsBytes b → load32 off b < 2 ^ 32
load32_bound off b bytes = omega (arith, load16_bound off b bytes, load16_bound (off + 2) b bytes)

-- What stays as it is when the checksum of the protocol above has been changed
abbrev Kept : ℕ → List ℕ → List ℕ → Type 0
Kept k b after =
    (length after ≡ length b)
    × (words_sum k after ≡ words_sum k b)
    × ((i : ℕ) → i < k → load16 (twice i) after ≡ load16 (twice i) b)

kept :
    (k : ℕ) (a : Change) (b : List ℕ) (c : Bool) (after : List ℕ)
    → Outcome k a b c after
    → Kept k b after
kept k a b c after (inl (no_sum, e)) = rw e (refl, refl, (λ i lt. refl))
kept k a b c after (inr (one, j, v, e, le, fits, stands)) = rw e (
  length-store16 (twice j) v b,
  words_sum-beyond k j v b le,
  (λ i lt. apart i j v b (omega (arith, lt, le))),
)

module _ (src dst : ℕ) (b : List ℕ) (bytes : IsBytes b) (s : src < 2 ^ 32) (d : dst < 2 ^ 32)
    (k : ℕ) (room : 10 ≤ k) (fits : twice k ≤ length b) where
  abbrev change : Change
  change = record { old_src = load32 12 b; old_dst = load32 16 b; new_src = src; new_dst = dst }

  abbrev above : List ℕ
  above = update_payload (twice k) change b

  abbrev summed : List ℕ
  summed = store16 10 (delta change (load16 10 above)) above

  change-InRange : InRange change
  change-InRange = (load32_bound 12 b bytes, load32_bound 16 b bytes, s, d)

  old_is : old_sum change ≡ addresses b
  unfolding addresses
  old_is = omega (
    arith,
    add32cs-halves (load16 12 b) (load16 14 b) (load16_bound 12 b bytes),
    add32cs-halves (load16 16 b) (load16 18 b) (load16_bound 16 b bytes),
  )

  new_is : new_sum change ≡ src % 65536 + src / 65536 + dst % 65536 + dst / 65536
  unfolding add32cs
  new_is = omega arith

  outcome : Outcome k change b (carries (twice k) b) above
  outcome = update_payload-outcome change k b change-InRange bytes fits

  above-Kept : Kept k b above
  above-Kept = kept k change b (carries (twice k) b) above outcome

  addresses_kept : addresses summed ≡ addresses b
  unfolding addresses
  addresses_kept =
      let v = delta change (load16 10 above) in
      let (same_length, same_sum, loads) = above-Kept in
      omega (
        arith,
        beside 6 5 v above (omega arith),
        loads 6 (omega arith),
        beside 7 5 v above (omega arith),
        loads 7 (omega arith),
        beside 8 5 v above (omega arith),
        loads 8 (omega arith),
        beside 9 5 v above (omega arith),
        loads 9 (omega arith),
      )

  summed_fits : twice k ≤ length summed
  summed_fits = rw (length-store16 10 (delta change (load16 10 above)) above, above-Kept.0) fits

  header_sums : words_sum k (readdress src dst summed) % 65535 ≡ words_sum k b % 65535
  header_sums =
      let (same_length, same_sum, loads) = above-Kept in
      let small : load16 10 above < 65536 = rw (loads 5 (omega arith)) (load16_bound 10 b bytes) in
      let (m, n, e, lt) = delta-Stands change (load16 10 above) change-InRange small in
      let long : 12 ≤ length above = rw same_length (omega (arith, twice_lem k)) in
      let stored =
        words_sum-store16 k 5 (delta change (load16 10 above)) above (omega arith)
          (omega (arith, long)) lt in
      let moved = words_sum-readdress k src dst summed room summed_fits s d in
      congruent _ _ m n (omega (arith, e, stored, moved, same_sum, old_is, new_is, addresses_kept))

  upper_sums :
      upper_sum (carries (twice k) b) k (readdress src dst summed) % 65535
      ≡ upper_sum (carries (twice k) b) k b % 65535
  unfolding upper_sum
  upper_sums =
      let rest =
        rest_sum-readdress k src dst summed room summed_fits s d
        ∙ rest_sum-before k 5 (delta change (load16 10 above)) above (omega arith) in
      let there = addresses-readdress k src dst summed room summed_fits s d in
      elim outcome [
        | inl (no_sum, same) ↦ rw (no_sum, rest) (ap (λ x. (rest_sum k x + 0) % 65535) same)
        | inr (one, j, v, is, le, in_it, (m, n, e, lt)) ↦
            let stored = rest_sum-store16 k j v b le in_it lt in
            let now : rest_sum k above + load16 (twice j) b ≡ rest_sum k b + v =
              ap (λ x. rest_sum k x + load16 (twice j) b) is ∙ stored in
            rw one (congruent _ _ m n (omega (arith, e, now, rest, there, old_is, new_is)))
      ]

  new_addresses :
      (load32 12 (readdress src dst summed) ≡ src) × (load32 16 (readdress src dst summed) ≡ dst)
  new_addresses =
      let (e0, e1, e2, e3) = loaded k src dst summed room summed_fits s d in
      (omega (arith, e0, e1), omega (arith, e2, e3))

header_size-words : (b : List ℕ) → header_size b ≡ twice (header_words b)
header_size-words b = omega (arith, twice_lem (header_words b))

-- A packet of bytes has a header of at least 20 bytes and at most its own size, and gets two new
-- addresses below 2^32. It has them afterwards, and modulo 65535 two sums over its words are as they
-- were: the sum over the header, and the sum over what is behind it, with both addresses if the
-- packet carries a checksum of TCP, DCCP, UDP or UDP-Lite. So a checksum that was right is right.
pub update_ipv4_address-sums :
    (src dst : ℕ) (b : List ℕ)
    → IsBytes b
    → src < 2 ^ 32
    → dst < 2 ^ 32
    → 20 ≤ header_size b
    → header_size b ≤ length b
    → let after = update_ipv4_address src dst b in
      let k = header_words b in
      (load32 12 after ≡ src)
      × (load32 16 after ≡ dst)
      × (words_sum k after % 65535 ≡ words_sum k b % 65535)
      × (upper_sum (carries (header_size b) b) k after % 65535
          ≡ upper_sum (carries (header_size b) b) k b % 65535)
unfolding update_ipv4_address
update_ipv4_address-sums src dst b bytes s d long inside =
    let k = header_words b in
    let size = header_size-words b in
    let room : 10 ≤ k = omega (arith, long) in
    let fits : twice k ≤ length b = rw⁻¹ size inside in
    let (one, two) = new_addresses src dst b bytes s d k room fits in
    rw size (
      one,
      two,
      header_sums src dst b bytes s d k room fits,
      upper_sums src dst b bytes s d k room fits,
    )
