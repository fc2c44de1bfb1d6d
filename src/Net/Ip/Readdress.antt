-- ===== src/Net/Ip/Readdress.antt =====
-- UpdateIPv4Address of llarp/net/ip.cpp: the new addresses, stored over the packet.
use bittoro_network.Prelude.{ℕ, ◌+◌, ◌/◌, ◌%◌, ◌^◌, ◌<◌, ◌≤◌, ◌≡◌, ◌∙◌, List, length, arith}
use bittoro_network.Net.Ip.{load16, store16, store32}
use bittoro_network.Net.Ip.Words.{
  twice, twice_lem, words_sum, rest_sum, length-store16, words_sum-store16, rest_sum-before,
  load16-store16, load16_same,
}

-- The sum over both addresses, as the checksum of the protocol above counts them
unfoldable pub addresses : List ℕ → ℕ
addresses b = load16 12 b + load16 14 b + load16 16 b + load16 18 b

-- The new addresses, stored over a packet
abbrev pub readdress : ℕ → ℕ → List ℕ → List ℕ
readdress src dst b = store32 16 dst (store32 12 src b)

-- Two words that are not the same: a store to one leaves the other.
pub apart :
    (i j v : ℕ) (b : List ℕ) → i < j → load16 (twice i) (store16 (twice j) v b) ≡ load16 (twice i) b
apart i j v b lt = load16-store16 i j v b (λ e. omega (arith, e))

pub beside :
    (i j v : ℕ) (b : List ℕ) → j < i → load16 (twice i) (store16 (twice j) v b) ≡ load16 (twice i) b
beside i j v b lt = load16-store16 i j v b (λ e. omega (arith, e))

module _ (k src dst : ℕ) (b : List ℕ) (room : 10 ≤ k) (fits : twice k ≤ length b) (s : src < 2 ^ 32)
    (d : dst < 2 ^ 32) where
  abbrev b1 : List ℕ
  b1 = store16 12 (src % 65536) b

  abbrev b2 : List ℕ
  b2 = store16 14 (src / 65536) b1

  abbrev b3 : List ℕ
  b3 = store16 16 (dst % 65536) b2

  long : 20 ≤ length b
  long = omega (arith, twice_lem k)

  long1 : 20 ≤ length b1
  long1 = rw (length-store16 12 (src % 65536) b) long

  long2 : 20 ≤ length b2
  long2 = rw (length-store16 14 (src / 65536) b1) long1

  long3 : 20 ≤ length b3
  long3 = rw (length-store16 16 (dst % 65536) b2) long2

  pub words_sum-readdress :
      words_sum k (readdress src dst b) + addresses b
      ≡ words_sum k b + (src % 65536 + src / 65536 + dst % 65536 + dst / 65536)
  unfolding addresses
  words_sum-readdress =
      let e0 =
        words_sum-store16 k 6 (src % 65536) b (omega arith) (omega (arith, long)) (omega arith) in
      let e1 =
        words_sum-store16 k 7 (src / 65536) b1 (omega arith) (omega (arith, long1)) (omega arith) in
      let e2 =
        words_sum-store16 k 8 (dst % 65536) b2 (omega arith) (omega (arith, long2)) (omega arith) in
      let e3 =
        words_sum-store16 k 9 (dst / 65536) b3 (omega arith) (omega (arith, long3)) (omega arith) in
      let l1 : load16 14 b1 ≡ load16 14 b = beside 7 6 (src % 65536) b (omega arith) in
      let l2 : load16 16 b2 ≡ load16 16 b =
        beside 8 7 (src / 65536) b1 (omega arith) ∙ beside 8 6 (src % 65536) b (omega arith) in
      let l3 : load16 18 b3 ≡ load16 18 b =
        beside 9 8 (dst % 65536) b2 (omega arith)
        ∙ beside 9 7 (src / 65536) b1 (omega arith)
        ∙ beside 9 6 (src % 65536) b (omega arith) in
      omega (arith, e0, e1, e2, e3, l1, l2, l3)

  pub rest_sum-readdress : rest_sum k (readdress src dst b) ≡ rest_sum k b
  rest_sum-readdress =
      rest_sum-before k 9 (dst / 65536) b3 (omega arith)
      ∙ rest_sum-before k 8 (dst % 65536) b2 (omega arith)
      ∙ rest_sum-before k 7 (src / 65536) b1 (omega arith)
      ∙ rest_sum-before k 6 (src % 65536) b (omega arith)

  pub loaded :
      (load16 12 (readdress src dst b) ≡ src % 65536)
      × (load16 14 (readdress src dst b) ≡ src / 65536)
      × (load16 16 (readdress src dst b) ≡ dst % 65536)
      × (load16 18 (readdress src dst b) ≡ dst / 65536)
  loaded = (
    apart 6 9 (dst / 65536) b3 (omega arith)
        ∙ apart 6 8 (dst % 65536) b2 (omega arith)
        ∙ apart 6 7 (src / 65536) b1 (omega arith)
        ∙ load16_same 6 (src % 65536) b (omega (arith, long)) (omega arith),
    apart 7 9 (dst / 65536) b3 (omega arith)
        ∙ apart 7 8 (dst % 65536) b2 (omega arith)
        ∙ load16_same 7 (src / 65536) b1 (omega (arith, long1)) (omega arith),
    apart 8 9 (dst / 65536) b3 (omega arith)
        ∙ load16_same 8 (dst % 65536) b2 (omega (arith, long2)) (omega arith),
    load16_same 9 (dst / 65536) b3 (omega (arith, long3)) (omega arith),
  )

  pub addresses-readdress :
      addresses (readdress src dst b) ≡ src % 65536 + src / 65536 + dst % 65536 + dst / 65536
  unfolding addresses
  addresses-readdress = let (e0, e1, e2, e3) = loaded in omega (arith, e0, e1, e2, e3)
