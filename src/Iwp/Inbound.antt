-- ===== src/Iwp/Inbound.antt =====
-- InboundMessage of llarp/iwp/message_buffer.hpp and message_buffer.cpp.
pub mod Reassembly
use bittoro_network.Prelude.{
  sub64, ℕ, ◌+◌, ◌/◌, ◌%◌, ◌^◌, List, [], ◌∷◌, Option, some, Bool, false, ◌&&◌, ltb, if◌then◌else◌,
  length, replicate, ◌>>=◌,
}
use bittoro_network.Prelude.Bytes.{write_at, be_bytes, bytes_eq}
use bittoro_network.Iwp.Packet.{
  Packet, Entropy, create_packet, acks, fragment_size, command_overhead, packet_overhead,
}
use bittoro_network.Iwp.Fragments.{
  to_ulong, set_bit, all_acked, next64, max_fragments, delivery_timeout, ack_resend_interval,
}

pub record InboundMessage : Type 0 where
  pub content : List ℕ
  pub digest : List ℕ
  pub msg_id : ℕ
  pub last_ack_sent : ℕ
  pub last_active_at : ℕ
  pub acked : List Bool

-- InboundMessage::InboundMessage
unfoldable pub init : ℕ → ℕ → List ℕ → ℕ → InboundMessage
init msgid sz h now = record {
  content = replicate sz 0;
  digest = h;
  msg_id = msgid;
  last_ack_sent = 0;
  last_active_at = now;
  acked = replicate max_fragments false;
}

-- InboundMessage::HandleData
unfoldable pub handle_data : ℕ → List ℕ → ℕ → InboundMessage → Option InboundMessage
handle_data idx buf now m =
    if ltb (length m.content) (idx + length buf)
    then some m
    else (set_bit m.acked (idx / fragment_size) >>= λ bits.
        some
          (record m { content = write_at idx buf m.content; acked = bits; last_active_at = now }))

-- InboundMessage::AcksBitmask
unfoldable pub acks_bitmask : InboundMessage → ℕ
unfolding to_ulong
acks_bitmask m = to_ulong m.acked % 256

-- InboundMessage::ACKS
unfoldable pub acks_packet : Entropy → InboundMessage → Packet
acks_packet e m =
    let p0 = create_packet e acks 9 16 16 in
    let p1 = write_at (command_overhead + packet_overhead) (be_bytes 8 m.msg_id) p0 in
    write_at (packet_overhead + 10) (acks_bitmask m ∷ []) p1

-- InboundMessage::IsCompleted
unfoldable pub is_completed : InboundMessage → Option Bool
is_completed m = all_acked next64 9 0 (length m.content) m.acked

-- InboundMessage::ShouldSendACKS
unfoldable pub should_send_acks : ℕ → InboundMessage → Bool
should_send_acks now m = ltb ((m.last_ack_sent + ack_resend_interval) % 2 ^ 64) now

-- InboundMessage::IsTimedOut
unfoldable pub is_timed_out : ℕ → InboundMessage → Bool
is_timed_out now m = ltb m.last_active_at now && ltb delivery_timeout (sub64 now m.last_active_at)

-- InboundMessage::Verify
unfoldable pub verify : (List ℕ → List ℕ) → InboundMessage → Bool
verify shorthash m = bytes_eq (shorthash m.content) m.digest
