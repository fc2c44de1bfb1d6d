-- ===== src/Iwp/Session/Tests.antt =====
-- Sessions of the link layer at concrete inputs, handler by handler.
use bittoro_network.Prelude.{
  drop, ℕ, ◌+◌, ◌<◌, ◌≤◌, ◌≡◌, ◌↔◌, refl, List, [], ◌∷◌, ◌++◌, some, none, true, false, length,
  replicate, arith,
}
use bittoro_network.Prelude.Bytes.{be_value, slice}
use bittoro_network.Prelude.Assoc.{find}
use bittoro_network.Iwp.Packet.{Packet}
use bittoro_network.Iwp.Inputs.{
  entropy, entropy-IsEntropy, env, idle, long_message, outbound, inbound,
}
use bittoro_network.Iwp.Outbound.{OutboundMessage, xmit_packet}
use bittoro_network.Iwp.Outbound
use bittoro_network.Iwp.Inbound.{InboundMessage, handle_data, is_completed, acks_packet}
use bittoro_network.Iwp.Inbound
use bittoro_network.Iwp.Fragments.{all_acked}
use bittoro_network.Iwp.Session.{
  Session, delivery_success, send_message_buffer, send_mack, mack_packet,
}
use bittoro_network.Iwp.Session.Handlers.{handle_xmit, handle_data_packet, handle_acks, handle_mack}
use bittoro_network.Iwp.Session.Xmit.{xmit_opens, xmit_reads_before, send_queues_xmit_only}
use bittoro_network.Iwp.Session.Data.{
  AllSmall, handle_data_faults, handle_data_packet_total, handle_data_packet_throws,
}
use bittoro_network.Iwp.Session.Acking.{acks_complete}
use bittoro_network.Iwp.Session.Crypto.{
  Crypto, IsCrypto, seal_packet, decrypt_message_in_place, decrypt_message_in_place-seal_packet,
}
use bittoro_network.Iwp.Session.Macks.{deliver_each, handle_mack-mack_packet, send_mack_empties}

nothing_under {ℓ} : {V : Type ℓ} (k : ℕ) → find {V = V} k [] ≡ none
unfolding find
nothing_under k = refl

-- The first packet of a message of three fragments.
xmit_opens_example :
    (s' : Session) × (handle_xmit env (xmit_packet entropy outbound) idle ≡ some s')
    × (find 9 s'.rx_msgs ≡ some (Inbound.init 9 2100 (replicate 32 5) 1000))
    × (s'.handled ≡ [])
xmit_opens_example =
    xmit_opens env entropy outbound idle entropy-IsEntropy refl (omega arith) (omega arith)
      (omega arith) (nothing_under 9) (nothing_under 9)

-- An XMIT of 108 bytes that announces 256.
abbrev bare_xmit : Packet
bare_xmit = replicate 66 0 ++ (1 ∷ 0 ∷ []) ++ replicate 40 0

announces : be_value (slice 66 2 bare_xmit) ≡ 256
unfolding be_value slice
announces = refl

xmit_reads_before_example : handle_xmit env bare_xmit idle ≡ none
xmit_reads_before_example =
    xmit_reads_before env bare_xmit idle refl (omega (arith, announces)) (nothing_under _)
      (nothing_under _)

-- A message of 2100 bytes under the id 4.
send_queues_xmit_only_example :
    (s' : Session) × (send_message_buffer env long_message (some 77) idle ≡ some (true, s'))
    × (s'.encrypt_next
        ≡ xmit_packet entropy (Outbound.init env.shorthash 4 long_message 1000 (some 77)) ∷ [])
    × (find 4 s'.tx_msgs ≡ some (Outbound.init env.shorthash 4 long_message 1000 (some 77)))
send_queues_xmit_only_example =
    send_queues_xmit_only env long_message (some 77) idle refl (omega arith) (nothing_under 4)

-- A message of 9000 bytes, announced and not yet received.
abbrev large : InboundMessage
large = record {
  content = replicate 9000 0;
  digest = replicate 32 5;
  msg_id = 9;
  last_ack_sent = 0;
  last_active_at = 5;
  acked = replicate 8 false;
}

handle_data_faults_example :
    (handle_data 8192 (1 ∷ 2 ∷ []) 5 large ≡ none) ↔ ((8192 + 2 ≤ 9000) × (8192 ≤ 8192))
handle_data_faults_example = handle_data_faults 8192 (1 ∷ 2 ∷ []) 5 large refl

-- A DATA packet of two bytes at 8192 for the id 9.
abbrev far_data : Packet
far_data =
    replicate 65 0 ++ (2 ∷ 32 ∷ 0 ∷ []) ++ (0 ∷ 0 ∷ 0 ∷ 0 ∷ 0 ∷ 0 ∷ 0 ∷ 9 ∷ []) ++ (1 ∷ 2 ∷ [])

far_data_fields : (be_value (slice 66 2 far_data) ≡ 8192) × (be_value (slice 68 8 far_data) ≡ 9)
unfolding be_value slice
far_data_fields = (refl, refl)

abbrev receiving : InboundMessage → Session
receiving m = record idle { rx_msgs = (9, m) ∷ [] }

under_nine : (m : InboundMessage) → find 9 (receiving m).rx_msgs ≡ some m
unfolding find
under_nine m = refl

handle_data_packet_throws_example : handle_data_packet env far_data (receiving large) ≡ none
handle_data_packet_throws_example =
    handle_data_packet_throws env far_data (receiving large) large (omega arith)
      (rw (far_data_fields.1) (under_nine large)) refl (omega (arith, far_data_fields.0))
      (omega (arith, far_data_fields.0))

only_outstanding :
    (m : InboundMessage) → length m.content < 8192 → length m.acked ≡ 8 → AllSmall (receiving m)
unfolding find
only_outstanding m small wide j m' e = ground arith

handle_data_packet_total_example :
    (s' : Session) × (handle_data_packet env far_data (receiving inbound) ≡ some s')
handle_data_packet_total_example =
    handle_data_packet_total env far_data (receiving inbound)
      (only_outstanding inbound (omega arith) refl)

abbrev sending : Session
sending = record idle { tx_msgs = (9, outbound) ∷ [] }

sent_under_nine : find 9 sending.tx_msgs ≡ some outbound
unfolding find
sent_under_nine = refl

inbound_done : is_completed inbound ≡ some true
unfolding is_completed all_acked
inbound_done = refl

acks_complete_example :
    (s' : Session) × (handle_acks env (acks_packet entropy inbound) sending ≡ some s')
    × (s'.informed ≡ (77, delivery_success) ∷ [])
    × (find 9 s'.tx_msgs ≡ none)
acks_complete_example =
    acks_complete env entropy inbound outbound 77 sending entropy-IsEntropy (omega arith) refl refl
      inbound_done sent_under_nine refl

abbrev batch : List (ℕ × Unit {0})
batch = (9, tt) ∷ (10, tt) ∷ []

handle_mack-mack_packet_example :
    handle_mack env (mack_packet entropy batch) sending ≡ some (deliver_each batch sending)
handle_mack-mack_packet_example =
    handle_mack-mack_packet env entropy batch sending entropy-IsEntropy (omega arith)
      (omega arith, (omega arith, tt))

send_mack_empties_example : (send_mack env (record idle { send_macks = batch })).send_macks ≡ []
send_mack_empties_example = send_mack_empties env (record idle { send_macks = batch })

-- A hash and a cipher that do nothing.
abbrev plain : Crypto
plain = record {
  hmac = λ xs. replicate 32 6;
  xchacha20 = λ nonce xs. xs;
  hmac_succeeds = λ xs. true;
  xchacha20_succeeds = λ nonce xs. true;
}

plain-IsCrypto : IsCrypto plain
plain-IsCrypto = record {
  hmac_runs = λ xs. refl;
  xchacha20_runs = λ nonce xs. refl;
  hash_length = λ xs. refl;
  keeps_length = λ nonce xs. refl;
  undoes = λ nonce xs. refl;
}

decrypt_seal_example :
    (h : List ℕ) × (length h ≡ 32)
    × (decrypt_message_in_place plain (seal_packet plain far_data) ≡ some (h ++ drop 32 far_data))
decrypt_seal_example =
    decrypt_message_in_place-seal_packet plain far_data plain-IsCrypto (omega arith)
