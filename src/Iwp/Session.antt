-- ===== src/Iwp/Session.antt =====
-- The session of llarp/iwp/session.hpp and session.cpp: its state, and how it sends.
-- The modules below have the handlers of received packets and the timers. `none` is a fault: an
-- uncaught exception or a read outside a packet.
pub mod Handlers
pub mod Timers
pub mod Keeps
pub mod Replay
pub mod Receive
pub mod Delivery
pub mod History
pub mod Ticks
pub mod Once
pub mod Xmit
pub mod Data
pub mod Acking
pub mod Macks
pub mod Crypto
mod Tests
use bittoro_network.Prelude.{
  sub64, ℕ, zero, suc, ◌+◌, ◌-◌, ◌*◌, ◌/◌, ◌%◌, ◌^◌, ◌≡◌, List, [], ◌∷◌, ◌++◌, Option, none, some,
  Bool, true, false, ◌&&◌, min, ltb, leb, ◌==◌, if◌then◌else◌, length, get_elem?, set, replicate,
  take, drop, ◌>>=◌,
}
use bittoro_network.Prelude.Bytes.{write_at, be_bytes}
use bittoro_network.Prelude.Assoc.{find, erase, assign, emplace}
use bittoro_network.Iwp.Packet.{
  Packet, Entropy, create_packet, mack, clos, ping, fragment_size, command_overhead,
  packet_overhead,
}
use bittoro_network.Iwp.Outbound.{OutboundMessage, xmit_packet, flush_unacked}
use bittoro_network.Iwp.Outbound
use bittoro_network.Iwp.Inbound.{InboundMessage}

-- enum class State
pub data State : Type 0 where
  initial introduction link_intro ready closed : State

-- enum class DeliveryStatus
pub data DeliveryStatus : Type 0 where
  delivery_success delivery_dropped : DeliveryStatus

abbrev pub max_send_queue_size : ℕ
max_send_queue_size = 1024

-- 1024 / sizeof(uint64_t)
abbrev pub max_acks_in_mack : ℕ
max_acks_in_mack = 128

abbrev pub ping_interval : ℕ
ping_interval = 5000

-- (ReceivalTimeout * 3) / 2, with ReceivalTimeout = (DeliveryTimeout * 8) / 5
abbrev pub replay_window : ℕ
replay_window = 1200

-- What a call of the session takes from outside: the hash, the random bytes of the packets that it
-- makes, the encryption of one packet, the time of the link layer and the clock.
pub record Env : Type 0 where
  pub shorthash : List ℕ → List ℕ
  pub entropy : ℕ → Entropy
  pub seal : Packet → Packet
  pub now : ℕ
  pub clock : ℕ

pub record Session : Type 0 where
  pub state : State
  -- whether the link layer maps the remote address to this session
  pub mapped : Bool
  pub last_tx : ℕ
  pub last_rx : ℕ
  pub tx_rate : ℕ
  pub rx_rate : ℕ
  pub current_tx : ℕ
  pub current_rx : ℕ
  pub reset_rates_at : ℕ
  pub tx_id : ℕ
  pub rx_msgs : List (ℕ × InboundMessage)
  pub tx_msgs : List (ℕ × OutboundMessage)
  pub replay_filter : List (ℕ × ℕ)
  pub send_macks : List (ℕ × Unit {0})
  pub encrypt_next : List Packet
  -- batches given to the crypto workers
  pub work : List (List Packet)
  -- packets given to the link layer
  pub wire : List Packet
  -- messages given to the link layer, with the ids under which they came
  pub handled : List (ℕ × List ℕ)
  -- completion handlers that were called
  pub informed : List (ℕ × DeliveryStatus)
  -- how many packets were made so far
  pub made : ℕ

-- Session::IsEstablished
unfoldable pub is_established : Session → Bool
is_established s = elim s.state [ ready ↦ true | _ ↦ false ]

-- Session::Send_LL
unfoldable pub send_ll : Env → Packet → Session → Session
send_ll env p s = record s {
  wire = s.wire ++ (p ∷ []);
  last_tx = env.clock;
  tx_rate = (s.tx_rate + length p) % 2 ^ 64;
}

-- Session::EncryptWorker
unfoldable pub encrypt_worker : Env → List Packet → Session → Session
encrypt_worker env [] s = s
encrypt_worker env (p ∷ ps) s = encrypt_worker env ps (send_ll env (env.seal p) s)

-- Session::EncryptAndSend, of a packet that was just made
unfoldable pub encrypt_and_send : Env → Packet → Session → Session
unfolding is_established encrypt_worker
encrypt_and_send env p s =
    let queue = s.encrypt_next ++ (p ∷ []) in
    if is_established s
    then record s { encrypt_next = queue; made = s.made + 1 }
    else encrypt_worker env queue (record s { encrypt_next = []; made = s.made + 1 })

-- EncryptAndSend as the callback that sends each packet of a flush.
unfoldable pub send_all : Env → List Packet → Session → Session
unfolding encrypt_and_send
send_all env [] s = s
send_all env (p ∷ ps) s = send_all env ps (encrypt_and_send env p s)

-- Completed() and InformTimeout(): a handler is called and forgotten.
unfoldable pub inform : OutboundMessage → DeliveryStatus → Session → Session
inform m status s = elim m.completed [
  | none ↦ s
  | some h ↦ record s { informed = s.informed ++ ((h, status) ∷ []) }
]

-- FlushUnAcked on the message of an id, with EncryptAndSend as the callback.
unfoldable pub flush : Env → ℕ → OutboundMessage → Session → Option (OutboundMessage × Session)
flush env now m s = flush_unacked env.entropy s.made now m >>= λ r. some (r.1, send_all env r.0 s)

-- Session::SendMessageBuffer. The result is whether the message was taken. The buffer was moved
-- into the message before its size is tested, and a vector that was moved from is empty.
unfoldable pub send_message_buffer : Env → List ℕ → Option ℕ → Session → Option (Bool × Session)
send_message_buffer env buf completed s =
    if leb max_send_queue_size (length s.tx_msgs)
    then some (false, s)
    else (let msgid = s.tx_id in
        let moved_from : List ℕ = [] in
        let msgs =
          emplace msgid (Outbound.init env.shorthash msgid buf env.now completed) s.tx_msgs in
        let s' = record s { tx_id = (s.tx_id + 1) % 2 ^ 64; tx_msgs = msgs } in
        find msgid msgs >>= λ m.
        let sent = encrypt_and_send env (xmit_packet (env.entropy s.made) m) s' in
        if ltb fragment_size (length moved_from)
        then (flush env env.now m sent >>= λ r.
            some (true, record (r.1) { tx_msgs = assign msgid r.0 msgs }))
        else some (true, sent))

-- The ids of a MACK, one behind the other.
unfoldable pub mack_bytes : List (ℕ × Unit {0}) → List ℕ
mack_bytes [] = []
mack_bytes ((id, _) ∷ ids) = be_bytes 8 id ++ mack_bytes ids

-- One round of the loop of SendMACK.
unfoldable pub mack_packet : Entropy → List (ℕ × Unit {0}) → Packet
mack_packet e ids =
    let num_acks = length ids in
    let p0 = create_packet e mack (1 + num_acks * 8) 16 16 in
    let p1 = write_at (packet_overhead + command_overhead) (num_acks % 256 ∷ []) p0 in
    write_at (3 + packet_overhead) (mack_bytes ids) p1

-- The loop of SendMACK. Each round takes an id at least, so as many rounds as ids suffice.
unfoldable pub send_mack_rounds : Env → ℕ → Session → Session
send_mack_rounds env zero s = s
send_mack_rounds env (suc rounds) s =
    let num_acks = min (length s.send_macks) max_acks_in_mack in
    let packet = mack_packet (env.entropy s.made) (take num_acks s.send_macks) in
    let s' = record s { send_macks = drop num_acks s.send_macks } in
    let rest = send_mack_rounds env rounds (encrypt_and_send env packet s') in
    if ltb 0 (length s.send_macks) then rest else s

-- Session::SendMACK
unfoldable pub send_mack : Env → Session → Session
send_mack env s = send_mack_rounds env (length s.send_macks) s

-- Session::Close
unfoldable pub close : Env → Session → Session
close env s =
    let msg = create_packet (env.entropy s.made) clos 0 16 16 in
    let stopped = encrypt_and_send env msg (record s { state = closed }) in
    let unmapped = encrypt_and_send env msg (record s { state = closed; mapped = false }) in
    elim s.state [ closed ↦ s | ready ↦ unmapped | _ ↦ stopped ]

-- Session::SendKeepAlive
unfoldable pub send_keep_alive : Env → Session → Session
send_keep_alive env s =
    if is_established s
    then encrypt_and_send env (create_packet (env.entropy s.made) ping 0 16 16) s
    else s
