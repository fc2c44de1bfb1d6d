-- ===== src/Net/Ip.antt =====
-- How llarp/net/ip.cpp changes the addresses of an IPv4 packet: UpdateIPv4Address and what it calls.
-- A packet is its bytes; a read past them gives 0, and a write there does nothing, where the code
-- has an array of 1500 bytes. Numbers of more bytes are read as a little-endian host loads them.
pub mod Words
pub mod Delta
pub mod Payload
pub mod Readdress
pub mod Checksum
use bittoro_network.Prelude.{
  ℕ, zero, suc, ◌+◌, ◌-◌, ◌*◌, ◌/◌, ◌%◌, ◌^◌, List, [], ◌∷◌, Option, none, some, Bool, true, false,
  ◌&&◌, ◌||◌, leb, ltb, ◌==◌, if◌then◌else◌, length,
}

abbrev pub byte_at : ℕ → List ℕ → ℕ
byte_at off [] = 0
byte_at zero (x ∷ xs) = x
byte_at (suc off) (x ∷ xs) = byte_at off xs

-- A uint16_t in memory
abbrev pub load16 : ℕ → List ℕ → ℕ
load16 zero [] = 0
load16 zero (x ∷ []) = x
load16 zero (x ∷ (y ∷ xs)) = x + 256 * y
load16 (suc off) [] = 0
load16 (suc off) (x ∷ xs) = load16 off xs

abbrev pub store16 : ℕ → ℕ → List ℕ → List ℕ
store16 zero v [] = []
store16 zero v (x ∷ []) = x ∷ []
store16 zero v (x ∷ (y ∷ xs)) = v % 256 ∷ (v / 256 ∷ xs)
store16 (suc off) v [] = []
store16 (suc off) v (x ∷ xs) = x ∷ store16 off v xs

-- A uint32_t in memory, as two halves
abbrev pub load32 : ℕ → List ℕ → ℕ
load32 off b = load16 off b + 65536 * load16 (off + 2) b

abbrev pub store32 : ℕ → ℕ → List ℕ → List ℕ
store32 off v b = store16 (off + 2) (v / 65536) (store16 off (v % 65536) b)

-- ADD32CS
unfoldable pub add32cs : ℕ → ℕ
add32cs x = x % 65536 + x / 65536

-- SUB32CS; ~x of 32 bits
unfoldable pub sub32cs : ℕ → ℕ
sub32cs x = (4294967295 - x) % 65536 + (4294967295 - x) / 65536

-- deltaIPv4Checksum: the sum is brought into 16 bits, by two steps that add the carry.
unfoldable pub fold_carry : ℕ → ℕ
fold_carry sum = let once = sum % 65536 + sum / 65536 in ((once + once / 65536) % 2 ^ 32) % 65536

-- deltaIPv4Checksum
unfoldable pub delta_ipv4_checksum : ℕ → ℕ → ℕ → ℕ → ℕ → ℕ
delta_ipv4_checksum old_sum old_src old_dst new_src new_dst =
    fold_carry
      ((old_sum + add32cs old_src + add32cs old_dst + sub32cs new_src + sub32cs new_dst) % 2 ^ 32)

-- The addresses before and after
pub record Change : Type 0 where
  pub old_src : ℕ
  pub old_dst : ℕ
  pub new_src : ℕ
  pub new_dst : ℕ

-- deltaIPv4Checksum of one checksum
abbrev pub delta : Change → ℕ → ℕ
delta a old = delta_ipv4_checksum old a.old_src a.old_dst a.new_src a.new_dst

-- What deltaChecksumIPv4TCP makes of a checksum, whose field is never 0xFFff
abbrev pub tcp_sum : ℕ → ℕ
tcp_sum sum = if sum == 65535 then 0 else sum

-- deltaChecksumIPv4TCP, on the payload from `pld`, with `psz` bytes
unfoldable pub delta_checksum_ipv4_tcp : ℕ → ℕ → ℕ → ℕ → Change → List ℕ → List ℕ
delta_checksum_ipv4_tcp pld psz fragoff chksumoff a b =
    if ltb chksumoff fragoff || ltb psz (chksumoff - fragoff + 2)
    then b
    else (let off = pld + chksumoff - fragoff in store16 off (tcp_sum (delta a (load16 off b))) b)

-- deltaChecksumIPv4UDP
unfoldable pub delta_checksum_ipv4_udp : ℕ → ℕ → ℕ → Change → List ℕ → List ℕ
delta_checksum_ipv4_udp pld psz fragoff a b =
    if ltb 6 fragoff || ltb psz 8
    then b
    else (let off = pld + 6 in
        if load16 off b == 0 then b else store16 off (delta a (load16 off b)) b)

-- UpdateIPv4Address: the checksum of the protocol above
unfoldable pub update_payload : ℕ → Change → List ℕ → List ℕ
update_payload ihs a b =
    let psz = length b - ihs in
    let fragoff = (256 * byte_at 6 b + byte_at 7 b) % 8192 * 8 in
    let protocol = byte_at 9 b in
    if leb ihs (length b)
    then (if protocol == 6
        then delta_checksum_ipv4_tcp ihs psz fragoff 16 a b
        else (if protocol == 17 || protocol == 136
            then delta_checksum_ipv4_udp ihs psz fragoff a b
            else (if protocol == 33 then delta_checksum_ipv4_tcp ihs psz fragoff 6 a b else b)))
    else b

-- The length of the header: four times its ihl
abbrev pub header_size : List ℕ → ℕ
header_size b = byte_at 0 b % 16 * 4

-- IPPacket::UpdateIPv4Address
unfoldable pub update_ipv4_address : ℕ → ℕ → List ℕ → List ℕ
update_ipv4_address new_src new_dst b =
    let a : Change = record {
      old_src = load32 12 b;
      old_dst = load32 16 b;
      new_src = new_src;
      new_dst = new_dst;
    } in
    let above = update_payload (header_size b) a b in
    let summed = store16 10 (delta a (load16 10 above)) above in
    store32 16 new_dst (store32 12 new_src summed)
