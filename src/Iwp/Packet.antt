-- ===== src/Iwp/Packet.antt =====
-- Packets of llarp/iwp/session.cpp and the constants of llarp/iwp/session.hpp,
-- llarp/iwp/message_buffer.hpp, llarp/constants/link_layer.hpp and llarp/crypto/constants.hpp.
-- A packet is the list of its bytes. The HMAC and the nonce stand in front of the plaintext; the
-- HMAC bytes of a fresh packet are whatever memory the allocator returned.
use bittoro_network.Prelude.{
  ℕ, ◌+◌, ◌%◌, ◌≡◌, List, [], ◌∷◌, arith, ltb, if◌then◌else◌, length, get_elem?, some, ◌∙◌,
}
use bittoro_network.Prelude.Bytes.{write_at, length-write_at, get_elem?-write_at_in}

abbrev pub Packet : Type 0
Packet = List ℕ

-- enum Command
pub data Command : Type 0 where
  ping xmit data_fragment acks nack mack clos : Command

-- The byte of a command.
unfoldable pub code : Command → ℕ
code ping = 0
code xmit = 1
code data_fragment = 2
code acks = 3
code nack = 4
code mack = 5
code clos = 0xff

abbrev pub fragment_size : ℕ
fragment_size = 1024

abbrev pub command_overhead : ℕ
command_overhead = 2

abbrev pub hmac_size : ℕ
hmac_size = 32

abbrev pub tun_nonce_size : ℕ
tun_nonce_size = 32

abbrev pub packet_overhead : ℕ
packet_overhead = 64

abbrev pub max_link_msg_size : ℕ
max_link_msg_size = 8192

abbrev pub proto_version : ℕ
proto_version = 0

-- What the allocator and the random source return while one packet is made.
pub record Entropy : Type 0 where
  -- new char[n]
  pub memory : ℕ → List ℕ
  -- randbytes(ptr, n), for the padding and for the nonce
  pub padding : ℕ → List ℕ
  pub nonce : List ℕ
  -- randint()
  pub int : ℕ

-- Each of them fills as many bytes as it is asked for.
pub record IsEntropy (e : Entropy) : Type 0 where
  pub memory_length : (n : ℕ) → length (e.memory n) ≡ n
  pub padding_length : (n : ℕ) → length (e.padding n) ≡ n
  pub nonce_length : length e.nonce ≡ tun_nonce_size

-- The length of the random pad.
unfoldable pub pad_length : Entropy → ℕ → ℕ → ℕ
pad_length e minpad variance =
    if ltb 0 minpad then minpad + (if ltb 0 variance then e.int % variance else 0) else 0

-- The allocation, the pad and the nonce of CreatePacket.
unfoldable pub nonced_packet : Entropy → ℕ → ℕ → Packet
nonced_packet e plainsize pad =
    let pkt = e.memory (packet_overhead + plainsize + pad + command_overhead) in
    let padded =
      if ltb 0 pad
      then write_at (packet_overhead + command_overhead + plainsize) (e.padding pad) pkt
      else pkt in
    write_at hmac_size e.nonce padded

-- CreatePacket
unfoldable pub create_packet : Entropy → Command → ℕ → ℕ → ℕ → Packet
unfolding code nonced_packet
create_packet e cmd plainsize minpad variance =
    write_at packet_overhead (proto_version ∷ code cmd ∷ [])
      (nonced_packet e plainsize (pad_length e minpad variance))

length-nonced_packet :
    (e : Entropy) (plainsize pad : ℕ)
    → IsEntropy e
    → length (nonced_packet e plainsize pad) ≡ packet_overhead + command_overhead + plainsize + pad
unfolding nonced_packet
length-nonced_packet e plainsize pad h = simp length-write_at (
    ground (
      arith,
      h.memory_length (packet_overhead + plainsize + pad + command_overhead),
      length-write_at (packet_overhead + command_overhead + plainsize) (e.padding pad)
          (e.memory (packet_overhead + plainsize + pad + command_overhead)),
    ))

module _ (e : Entropy) (cmd : Command) (plainsize minpad variance : ℕ) (h : IsEntropy e) where
  inner :
      length (nonced_packet e plainsize (pad_length e minpad variance))
      ≡ packet_overhead + command_overhead + plainsize + pad_length e minpad variance
  inner = length-nonced_packet e plainsize (pad_length e minpad variance) h

  -- A packet has room for its overhead, its plaintext and its pad.
  pub length-create_packet :
      length (create_packet e cmd plainsize minpad variance)
      ≡ packet_overhead + command_overhead + plainsize + pad_length e minpad variance
  length-create_packet = unfold create_packet in length-write_at _ _ _ ∙ inner

  -- Behind the overhead stand the protocol's version and the command.
  pub get_elem?-create_packet :
      (get_elem? (create_packet e cmd plainsize minpad variance) packet_overhead
        ≡ some proto_version)
      × (get_elem? (create_packet e cmd plainsize minpad variance) (packet_overhead + 1)
          ≡ some (code cmd))
  get_elem?-create_packet = (
    unfold create_packet in
        get_elem?-write_at_in packet_overhead (proto_version ∷ code cmd ∷ []) _ 0 (omega arith)
          (omega (arith, inner)),
    unfold create_packet in
        get_elem?-write_at_in packet_overhead (proto_version ∷ code cmd ∷ []) _ 1 (omega arith)
          (omega (arith, inner)),
  )
