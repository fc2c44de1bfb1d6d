-- ===== src/Iwp/Tests.antt =====
-- Messages and sessions of the link layer at concrete inputs.
use bittoro_network.Prelude.{
  ℕ, ◌+◌, ◌*◌, ◌<◌, ◌≤◌, ◌≡◌, refl, List, [], ◌∷◌, ◌++◌, Option, some, none, true, arith, replicate,
  ◌⊎◌, map,
}
use bittoro_network.Prelude.Bytes.{be_bytes, be_value, slice, slice?, write_at, bytes_eq}
use bittoro_network.Prelude.Assoc.{find, emplace, erase, assign}
use bittoro_network.Iwp.Packet.{Packet, create_packet, code, pad_length}
use bittoro_network.Iwp.Fragments.{all_acked}
use bittoro_network.Iwp.Outbound.{flush_unacked, ack}
use bittoro_network.Iwp.Inbound.{
  InboundMessage, handle_data, verify, is_completed, acks_bitmask, acks_packet,
}
use bittoro_network.Iwp.Inbound
use bittoro_network.Iwp.Inbound.Reassembly.{handle_all, arrivals, Listed, reassembly, init-Agrees}
use bittoro_network.Iwp.Transfer.{transfer_completes, arrival}
use bittoro_network.Iwp.Session.{
  Session, send_mack, send_mack_rounds, mack_bytes, encrypt_and_send, send_ll, mack_packet,
}
use bittoro_network.Iwp.Session.Handlers.{
  handle_xmit, handle_command, short_xmit, finish, queue_mack, handle_all as handle_packets,
}
use bittoro_network.Iwp.Session.Timers.{
  handle_plaintext, tick, pump, pump_messages, pump_rx, pump_tx, queue_work, should_ping,
}
use bittoro_network.Iwp.Inputs.{entropy, entropy-IsEntropy, env, idle, long_message, outbound}
use bittoro_network.Iwp.Outbound.Flush.{AllCarry, missing, flush_unacked_lem}
use bittoro_network.Iwp.Session.Once.{here, next, receives, ticks, delivered_once}
use bittoro_network.Iwp.Session.Replay.{deliveries}

-- An XMIT of an empty message under the id 9.
abbrev empty_xmit : Packet
empty_xmit =
    replicate 64 0 ++ (0 ∷ 1 ∷ 0 ∷ 0 ∷ []) ++ (0 ∷ 0 ∷ 0 ∷ 0 ∷ 0 ∷ 0 ∷ 0 ∷ 9 ∷ []) ++ replicate 32 5

abbrev outcome : Option Session → Session
outcome none = idle
outcome (some s) = s

runs : List Packet → Option Session
unfolding handle_plaintext handle_packets handle_command handle_xmit short_xmit finish queue_mack
    code slice? slice be_value Inbound.init handle_data is_completed all_acked verify bytes_eq find
    erase assign emplace send_mack send_mack_rounds mack_packet create_packet pad_length mack_bytes
    be_bytes encrypt_and_send send_ll write_at pump pump_messages pump_rx pump_tx queue_work
    should_ping
runs ps = handle_plaintext env ps idle

abbrev after : Session
after = outcome (handle_plaintext env (empty_xmit ∷ empty_xmit ∷ []) idle)

received : handle_plaintext env (empty_xmit ∷ empty_xmit ∷ []) idle ≡ some after
unfolding runs
received = refl

after_filter : after.replay_filter ≡ (9, 1000) ∷ []
unfolding runs
after_filter = refl

only_entry : (j at : ℕ) → find j ((9, 1000) ∷ []) ≡ some at → at ≡ 1000
unfolding find
only_entry j at h = ground arith

-- An XMIT and its replay, and a tick within the replay window.
delivered_once_example :
    (deliveries 9 (tick 1500 after).handled ≤ 1)
    × ((find 9 (tick 1500 after).rx_msgs ≡ none) ⊎ (find 9 (tick 1500 after).replay_filter ≡ none))
delivered_once_example =
    delivered_once {s = idle} {t = tick 1500 after} refl refl
      (next (next here (receives env (empty_xmit ∷ empty_xmit ∷ []) received))
        (ticks 1500 (omega arith) fresh past refl))
      9
  where
    fresh : (j at : ℕ) → find j after.replay_filter ≡ some at → 1500 < at + 1200
    fresh j at h = omega (arith, only_entry j at (rw after_filter at h))

    past : (j at : ℕ) → find j after.replay_filter ≡ some at → at ≤ 1500
    past j at h = omega (arith, only_entry j at (rw after_filter at h))

-- Three fragments, the last one first and one of them twice.
abbrev order : List (ℕ × ℕ)
order = (2, 10) ∷ (0, 11) ∷ (2, 12) ∷ (1, 13) ∷ []

reassembly_example :
    (m : InboundMessage) × (handle_all (arrivals long_message order) (Inbound.init 9 2100 [] 5)
      ≡ some m)
    × (((k : ℕ) → k * 1024 < 2100 → Listed k order) → is_completed m ≡ some true)
    × (is_completed m ≡ some true → m.content ≡ long_message)
reassembly_example = reassembly long_message (omega arith) 9 5 [] order (omega arith)

-- A sender of three fragments whose peer has none of them.
transfer_completes_example :
    (ps : List Packet) × (r' : InboundMessage) × (flush_unacked
        (λ d. entropy)
        0
        7
        (ack (acks_bitmask (Inbound.init 9 2100 [] 5)) outbound)
      ≡ some
          (ps, record (ack (acks_bitmask (Inbound.init 9 2100 [] 5)) outbound) { last_flush = 7 }))
    × (handle_all (map (arrival 8) ps) (Inbound.init 9 2100 [] 5) ≡ some r')
    × (is_completed r' ≡ some true)
    × (r'.content ≡ long_message)
transfer_completes_example =
    transfer_completes (λ d. entropy) outbound (Inbound.init 9 2100 [] 5) 0 7 8
      (λ d. entropy-IsEntropy) (omega arith) (omega arith)
      (init-Agrees long_message (omega arith) 9 5 [])

-- A flush of three fragments.
flush_unacked_example :
    (ps : List Packet) × (flush_unacked (λ d. entropy) 0 7 outbound
      ≡ some (ps, record outbound { last_flush = 7 }))
    × AllCarry outbound (missing 9 0 2100 outbound.acked) ps
flush_unacked_example =
    flush_unacked_lem (λ d. entropy) (λ d. entropy-IsEntropy) outbound (omega arith) (omega arith)
      refl 0 7
