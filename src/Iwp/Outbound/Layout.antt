-- ===== src/Iwp/Outbound/Layout.antt =====
-- Where the packets of an outbound message hold their fields.
use bittoro_network.Prelude.{ℕ, ◌+◌, ◌<◌, ◌≡◌, some, min, length, take, ◌∙◌, arith, get_elem?}
use bittoro_network.Prelude.Bytes.{
  slice, be_bytes, length-write_at, length-be_bytes, length-slice, fields_lem, slice-write_at_above,
}
use bittoro_network.Iwp.Packet.{
  Packet, Entropy, IsEntropy, create_packet, xmit, data_fragment, code, fragment_size,
  length-create_packet, get_elem?-create_packet, pad_length,
}
use bittoro_network.Iwp.Fragments.{fragment_length}
use bittoro_network.Iwp.Outbound.{OutboundMessage, xmit_packet, data_packet}

module _ (e : Entropy) (h : IsEntropy e) (m : OutboundMessage) (idx : ℕ)
    (inside : idx < length m.content) where
  abbrev n : ℕ
  n = fragment_length (length m.content) idx

  abbrev fresh : Packet
  fresh = create_packet e data_fragment (n + 10) 0 0

  length-fresh : length fresh ≡ 76 + n
  unfolding pad_length
  length-fresh = omega (arith, length-create_packet e data_fragment (n + 10) 0 0 h)

  length-part : length (slice idx n m.content) ≡ n
  length-part = length-slice idx n m.content (ground arith)

  -- A DATA packet holds the offset, the id, the bytes of its fragment and its command.
  pub data_packet_lem :
      (slice 66 2 (data_packet e m idx) ≡ be_bytes 2 idx)
      × (slice 68 8 (data_packet e m idx) ≡ be_bytes 8 m.msg_id)
      × (slice 76 n (data_packet e m idx) ≡ slice idx n m.content)
      × (get_elem? (data_packet e m idx) 65 ≡ some (code data_fragment))
      × (length (data_packet e m idx) ≡ 76 + n)
  data_packet_lem =
      let (first, second, third, before, size) =
        fields_lem 66 68 76 2 8 n (be_bytes 2 idx) (be_bytes 8 m.msg_id) (slice idx n m.content)
          fresh (length-be_bytes 2 idx) (length-be_bytes 8 m.msg_id) length-part (omega arith)
          (omega arith) (omega (arith, length-fresh)) in
      unfold data_packet in
      (
        first,
        second,
        third,
        before 65 (omega arith) ∙ (get_elem?-create_packet e data_fragment (n + 10) 0 0 h).1,
        size ∙ length-fresh,
      )

-- The bytes of the message that an XMIT packet carries.
abbrev pub extra_length : OutboundMessage → ℕ
extra_length m = min (length m.content) fragment_size

module _ (e : Entropy) (h : IsEntropy e) (m : OutboundMessage) (hash : length m.digest ≡ 32) where
  abbrev fresh_xmit : Packet
  fresh_xmit = create_packet e xmit (10 + 32 + extra_length m) 0 0

  length-fresh_xmit : length fresh_xmit ≡ 108 + extra_length m
  unfolding pad_length
  length-fresh_xmit = omega (arith, length-create_packet e xmit (10 + 32 + extra_length m) 0 0 h)

  -- An XMIT packet holds the size, the id and the digest of the message.
  pub xmit_packet_lem :
      (slice 66 2 (xmit_packet e m) ≡ be_bytes 2 (length m.content))
      × (slice 68 8 (xmit_packet e m) ≡ be_bytes 8 m.msg_id)
      × (slice 76 32 (xmit_packet e m) ≡ m.digest)
      × (length (xmit_packet e m) ≡ 108 + extra_length m)
  xmit_packet_lem =
      let (first, second, third, before, size) =
        fields_lem 66 68 76 2 8 32 (be_bytes 2 (length m.content)) (be_bytes 8 m.msg_id) m.digest
          fresh_xmit (length-be_bytes 2 (length m.content)) (length-be_bytes 8 m.msg_id) hash
          (omega arith) (omega arith) (omega (arith, length-fresh_xmit)) in
      let extra = take (extra_length m) m.content in
      unfold xmit_packet in
      (
        slice-write_at_above 66 2 108 extra _ (omega arith) ∙ first,
        slice-write_at_above 68 8 108 extra _ (omega arith) ∙ second,
        slice-write_at_above 76 32 108 extra _ (omega arith) ∙ third,
        length-write_at 108 extra _ ∙ size ∙ length-fresh_xmit,
      )
