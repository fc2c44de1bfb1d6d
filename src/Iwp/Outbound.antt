-- ===== src/Iwp/Outbound.antt =====
-- OutboundMessage of llarp/iwp/message_buffer.hpp and message_buffer.cpp.
pub mod Layout
pub mod Flush
use bittoro_network.Prelude.{
  sub64, ℕ, zero, suc, ◌+◌, ◌-◌, ◌/◌, List, [], ◌∷◌, Option, none, some, Bool, false, ◌&&◌, min,
  ltb, leb, if◌then◌else◌, length, replicate, take, ◌>>=◌,
}
use bittoro_network.Prelude.Bytes.{write_at, slice, be_bytes}
use bittoro_network.Iwp.Packet.{
  Packet, Entropy, create_packet, xmit, data_fragment, fragment_size, command_overhead,
  packet_overhead,
}
use bittoro_network.Iwp.Fragments.{
  bitset, test, all_acked, next16, max_fragments, delivery_timeout, tx_flush_interval,
}

-- Handlers of completion are named by numbers.
pub record OutboundMessage : Type 0 where
  pub content : List ℕ
  pub msg_id : ℕ
  pub acked : List Bool
  pub completed : Option ℕ
  pub last_flush : ℕ
  pub digest : List ℕ
  pub started_at : ℕ

-- OutboundMessage::OutboundMessage
unfoldable pub init : (List ℕ → List ℕ) → ℕ → List ℕ → ℕ → Option ℕ → OutboundMessage
init shorthash msgid msg now handler = record {
  content = msg;
  msg_id = msgid;
  acked = replicate max_fragments false;
  completed = handler;
  last_flush = 0;
  digest = shorthash msg;
  started_at = now;
}

-- OutboundMessage::XMIT
unfoldable pub xmit_packet : Entropy → OutboundMessage → Packet
xmit_packet e m =
    let extra = min (length m.content) fragment_size in
    let p0 = create_packet e xmit (10 + 32 + extra) 0 0 in
    let p1 = write_at (command_overhead + packet_overhead) (be_bytes 2 (length m.content)) p0 in
    let p2 = write_at (2 + command_overhead + packet_overhead) (be_bytes 8 m.msg_id) p1 in
    let p3 = write_at (10 + command_overhead + packet_overhead) m.digest p2 in
    write_at (10 + command_overhead + packet_overhead + 32) (take extra m.content) p3

-- OutboundMessage::Ack
unfoldable pub ack : ℕ → OutboundMessage → OutboundMessage
ack bitmask m = record m { acked = bitset max_fragments bitmask }

-- OutboundMessage::ShouldFlush
unfoldable pub should_flush : ℕ → OutboundMessage → Bool
should_flush now m = leb tx_flush_interval (sub64 now m.last_flush)

-- The packet of FlushUnAcked for the fragment at `idx`.
unfoldable pub data_packet : Entropy → OutboundMessage → ℕ → Packet
data_packet e m idx =
    let size = length m.content in
    let fragsz = if ltb (idx + fragment_size) size then fragment_size else size - idx in
    let p0 = create_packet e data_fragment (fragsz + 10) 0 0 in
    let p1 = write_at (2 + packet_overhead) (be_bytes 2 idx) p0 in
    let p2 = write_at (4 + packet_overhead) (be_bytes 8 m.msg_id) p1 in
    write_at (packet_overhead + 10 + 2) (slice idx fragsz m.content) p2

-- The loop of FlushUnAcked: the packets in the order sent. The `d`-th packet takes the `d`-th
-- entropy. As above nine rounds suffice.
unfoldable pub flush_from : (ℕ → Entropy) → ℕ → OutboundMessage → ℕ → ℕ → Option (List Packet)
flush_from entropy zero m d idx = none
flush_from entropy (suc rounds) m d idx =
    let skipped = flush_from entropy rounds m d (next16 idx) in
    let sent = flush_from entropy rounds m (suc d) (next16 idx) in
    let body : Option (List Packet) = elim (test m.acked (idx / fragment_size)) [
      | none ↦ none
      | some b ↦ if b then skipped else (sent >>= λ ps. some (data_packet (entropy d) m idx ∷ ps))
    ] in
    if ltb idx (length m.content) then body else some []

-- OutboundMessage::FlushUnAcked
unfoldable pub flush_unacked :
    (ℕ → Entropy) → ℕ → ℕ → OutboundMessage → Option (List Packet × OutboundMessage)
flush_unacked entropy d now m =
    flush_from entropy 9 m d 0 >>= λ ps. some (ps, record m { last_flush = now })

-- OutboundMessage::IsTransmitted
unfoldable pub is_transmitted : OutboundMessage → Option Bool
is_transmitted m = all_acked next16 9 0 (length m.content) m.acked

-- OutboundMessage::IsTimedOut
unfoldable pub is_timed_out : ℕ → OutboundMessage → Bool
is_timed_out now m = ltb m.started_at now && ltb delivery_timeout (sub64 now m.started_at)
