-- ===== src/Iwp/Session/Xmit.antt =====
-- HandleXMIT and SendMessageBuffer of llarp/iwp/session.cpp.
use bittoro_network.Prelude.{
  ℕ, ◌+◌, ◌-◌, ◌%◌, ◌^◌, ◌<◌, ◌≤◌, ◌≡◌, refl, ap, ◌∙◌, List, [], ◌∷◌, ◌++◌, Option, some, none,
  true, false, ltb, leb, ◌==◌, if◌then◌else◌, length, arith, min,
}
use bittoro_network.Prelude.Bytes.{slice, be_value, slice?-eq-some, be_value-be_bytes}
use bittoro_network.Prelude.Assoc.{find, emplace, find-emplace}
use bittoro_network.Iwp.Packet.{Packet, Entropy, IsEntropy}
use bittoro_network.Iwp.Outbound.{OutboundMessage, xmit_packet}
use bittoro_network.Iwp.Outbound
use bittoro_network.Iwp.Outbound.Layout.{xmit_packet_lem}
use bittoro_network.Iwp.Inbound
use bittoro_network.Iwp.Session.{
  Session, Env, ready, is_established, send_message_buffer, encrypt_and_send, max_send_queue_size,
}
use bittoro_network.Iwp.Session.Handlers.{handle_xmit, short_xmit}

-- What HandleXMIT reads of a packet that is long enough.
module _ (env : Env) (p : Packet) (s : Session) (long : 108 ≤ length p) where
  abbrev size_of : ℕ
  size_of = be_value (slice 66 2 p)

  abbrev id_of : ℕ
  id_of = be_value (slice 68 8 p)

  abbrev heard : Session
  heard = record s { last_rx = env.now }

  abbrev opened : Session
  opened = record heard {
    rx_msgs = emplace id_of (Inbound.init id_of size_of (slice 76 32 p) env.now) s.rx_msgs;
  }

  fresh_xmit :
      find id_of s.rx_msgs ≡ none
      → find id_of s.replay_filter ≡ none
      → handle_xmit env p s ≡ (
          if length p - 108 == 0
          then short_xmit env id_of size_of p
              (Inbound.init id_of size_of (slice 76 32 p) env.now)
              opened
          else some opened)
  unfolding handle_xmit
  fresh_xmit rx filter =
      let e₁ = slice?-eq-some 66 2 p (omega arith) in
      let e₂ = slice?-eq-some 68 8 p (omega arith) in
      let e₃ = slice?-eq-some 76 32 p (omega arith) in
      let l : ltb (length p) 108 ≡ false = ground arith in rw (l, e₁, e₂, e₃, filter, rx)

-- The first packet of a message of 1 to 8192 bytes, with a digest of 32 bytes and under an id of 64
-- bits that the receiver neither receives nor filters, opens it there under its id, size and digest,
-- with no byte of it yet, and delivers nothing: the bytes that the packet carries are not used.
pub xmit_opens :
    (env : Env) (e : Entropy) (m : OutboundMessage) (s : Session)
    → IsEntropy e
    → length m.digest ≡ 32
    → 0 < length m.content
    → length m.content ≤ 8192
    → m.msg_id < 2 ^ 64
    → find m.msg_id s.rx_msgs ≡ none
    → find m.msg_id s.replay_filter ≡ none
    → (s' : Session) × (handle_xmit env (xmit_packet e m) s ≡ some s')
      × (find m.msg_id s'.rx_msgs
          ≡ some (Inbound.init m.msg_id (length m.content) m.digest env.now))
      × (s'.handled ≡ s.handled)
xmit_opens env e m s good hash nonempty small id_fits rx filter =
    let (f₁, f₂, f₃, size) = xmit_packet_lem e good m hash in
    let p = xmit_packet e m in
    let long : 108 ≤ length p = omega (arith, size) in
    let id : be_value (slice 68 8 p) ≡ m.msg_id =
      ap be_value f₂ ∙ be_value-be_bytes 8 m.msg_id id_fits in
    let sz : be_value (slice 66 2 p) ≡ length m.content =
      ap be_value f₁ ∙ be_value-be_bytes 2 (length m.content) (omega arith) in
    let rest : (length p - 108 == 0) ≡ false = ground (arith, size) in
    (
      opened env p s long,
      fresh_xmit env p s long (rw id rx) (rw id filter) ∙ rw rest refl,
      rw (id, sz, f₃)
          (find-emplace m.msg_id m.msg_id
              (Inbound.init m.msg_id (length m.content) m.digest env.now) s.rx_msgs
            ∙ rw rx (ground arith)),
      refl,
    )

-- An XMIT packet with nothing behind its digest, under an id that is neither received nor filtered,
-- whose announced size exceeds the packet's 108 bytes, is a fault: the receiver reads in front of the
-- packet's memory.
pub xmit_reads_before :
    (env : Env) (p : Packet) (s : Session)
    → length p ≡ 108
    → 108 < be_value (slice 66 2 p)
    → find (be_value (slice 68 8 p)) s.rx_msgs ≡ none
    → find (be_value (slice 68 8 p)) s.replay_filter ≡ none
    → handle_xmit env p s ≡ none
xmit_reads_before env p s size big rx filter =
    let empty : (length p - 108 == 0) ≡ true = ground arith in
    let before : ltb (length p) (min (be_value (slice 66 2 p)) 1024) ≡ true = ground arith in
    fresh_xmit env p s (omega arith) rx filter ∙ rw empty (unfold short_xmit in rw before)

-- An established session with room in its send queue takes a message under an id that is not in use;
-- one packet is queued, its XMIT, however long the message is: the test that should send the
-- fragments at once looks at the buffer that was moved away.
pub send_queues_xmit_only :
    (env : Env) (buf : List ℕ) (h : Option ℕ) (s : Session)
    → s.state ≡ ready
    → length s.tx_msgs < max_send_queue_size
    → find s.tx_id s.tx_msgs ≡ none
    → (s' : Session) × (send_message_buffer env buf h s ≡ some (true, s'))
      × (s'.encrypt_next
          ≡ s.encrypt_next
            ++ (xmit_packet (env.entropy s.made) (Outbound.init env.shorthash s.tx_id buf env.now h)
                ∷ []))
      × (find s.tx_id s'.tx_msgs ≡ some (Outbound.init env.shorthash s.tx_id buf env.now h))
unfolding send_message_buffer encrypt_and_send is_established
send_queues_xmit_only env buf h s up room new =
    let m = Outbound.init env.shorthash s.tx_id buf env.now h in
    let msgs = emplace s.tx_id m s.tx_msgs in
    let s₀ = record s { tx_id = (s.tx_id + 1) % 2 ^ 64; tx_msgs = msgs } in
    let p = xmit_packet (env.entropy s.made) m in
    let s' = record s₀ { encrypt_next = s.encrypt_next ++ (p ∷ []); made = s.made + 1 } in
    let open_queue : leb 1024 (length s.tx_msgs) ≡ false = ground arith in
    let there : find s.tx_id msgs ≡ some m =
      find-emplace s.tx_id s.tx_id m s.tx_msgs ∙ rw new (ground arith) in
    (s', rw (open_queue, there, up) refl, refl, there)
