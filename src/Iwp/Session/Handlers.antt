-- ===== src/Iwp/Session/Handlers.antt =====
-- The handlers of received packets, in llarp/iwp/session.cpp. They take decrypted packets.
use bittoro_network.Prelude.{
  ℕ, zero, suc, ◌+◌, ◌-◌, ◌*◌, List, [], ◌∷◌, ◌++◌, Option, none, some, min, ltb, ◌==◌,
  if◌then◌else◌, length, get_elem?, ◌>>=◌,
}
use bittoro_network.Prelude.Bytes.{write_at, slice?, be_bytes, be_value}
use bittoro_network.Prelude.Assoc.{find, erase, assign, emplace}
use bittoro_network.Iwp.Packet.{
  Packet, code, create_packet, nack, xmit, data_fragment, acks, ping, mack, clos, fragment_size,
  command_overhead, packet_overhead,
}
use bittoro_network.Iwp.Outbound.{xmit_packet, ack, is_transmitted}
use bittoro_network.Iwp.Inbound.{InboundMessage, handle_data, is_completed, verify}
use bittoro_network.Iwp.Inbound
use bittoro_network.Iwp.Session.{
  Session, Env, delivery_success, inform, encrypt_and_send, flush, close,
}

-- m_SendMACKs.emplace(rxid)
unfoldable pub queue_mack : ℕ → Session → Session
queue_mack id s = record s { send_macks = emplace id tt s.send_macks }

-- One id of a MACK: the handler of its message is told, and the message leaves the table.
unfoldable pub deliver : ℕ → Session → Session
deliver id s = elim (find id s.tx_msgs) [
  | none ↦ s
  | some m ↦ inform m delivery_success (record s { tx_msgs = erase id s.tx_msgs })
]

-- The loop of HandleMACK over the ids behind `ptr`.
unfoldable pub mack_loop : ℕ → ℕ → Packet → Session → Option Session
mack_loop zero ptr p s = some s
mack_loop (suc n) ptr p s =
    slice? ptr 8 p >>= λ bytes. mack_loop n (ptr + 8) p (deliver (be_value bytes) s)

-- Session::HandleMACK
unfoldable pub handle_mack : Env → Packet → Session → Option Session
handle_mack env p s =
    if ltb (length p) (3 + packet_overhead)
    then some s
    else (get_elem? p (command_overhead + packet_overhead) >>= λ num_acks.
        if ltb (length p) (1 + command_overhead + packet_overhead + num_acks * 8)
        then some s
        else mack_loop num_acks (command_overhead + packet_overhead + 1) p s)

-- Session::HandleNACK
unfoldable pub handle_nack : Env → Packet → Session → Option Session
handle_nack env p s =
    if ltb (length p) (command_overhead + 8 + packet_overhead)
    then some s
    else (slice? (command_overhead + packet_overhead) 8 p >>= λ bytes.
        let s' : Session = elim (find (be_value bytes) s.tx_msgs) [
          | none ↦ s
          | some m ↦ encrypt_and_send env (xmit_packet (env.entropy s.made) m) s
        ] in
        some (record s' { last_rx = env.now }))

-- A message that is complete: to the link layer, into the replay filter, and out of the table.
unfoldable pub finish : Env → ℕ → InboundMessage → Session → Session
unfolding queue_mack
finish env id m s =
    let s' = record s {
      handled = s.handled ++ ((id, m.content) ∷ []);
      replay_filter = emplace id env.now s.replay_filter;
    } in
    let s'' = queue_mack id s' in record s'' { rx_msgs = erase id s''.rx_msgs }

-- The branch of HandleXMIT for a packet with nothing behind the digest: the last `sz` bytes of the
-- packet are taken for the message. A size above the packet's own reads in front of it.
unfoldable pub short_xmit : Env → ℕ → ℕ → Packet → InboundMessage → Session → Option Session
short_xmit env id sz p m s =
    let n = min sz fragment_size in
    (if ltb (length p) n then none else slice? (length p - n) n p) >>= λ buf.
    handle_data 0 buf env.now m >>= λ m'.
    let kept = record s { rx_msgs = assign id m' s.rx_msgs } in
    is_completed m' >>= λ done.
    some (if done then (if verify env.shorthash m' then finish env id m' kept else kept) else kept)

-- Session::HandleXMIT
unfoldable pub handle_xmit : Env → Packet → Session → Option Session
unfolding queue_mack
handle_xmit env p s =
    if ltb (length p) (command_overhead + packet_overhead + 2 + 8 + 32)
    then some s
    else (slice? (command_overhead + packet_overhead) 2 p >>= λ size_bytes.
        slice? (command_overhead + 2 + packet_overhead) 8 p >>= λ id_bytes.
        slice? (command_overhead + 2 + 8 + packet_overhead) 32 p >>= λ h.
        let sz = be_value size_bytes in
        let id = be_value id_bytes in
        let s₁ = record s { last_rx = env.now } in
        let m = Inbound.init id sz h env.now in
        let s₂ = record s₁ { rx_msgs = emplace id m s₁.rx_msgs } in
        let opened : Option Session =
          if length p - (command_overhead + 2 + 8 + packet_overhead + 32) == 0
          then short_xmit env id sz p m s₂
          else some s₂ in
        let fresh : Option Session = elim (find id s₁.rx_msgs) [
          | some _ ↦ some s₁
          | none ↦ opened
        ] in
        elim (find id s₁.replay_filter) [ some _ ↦ some (queue_mack id s₁) | none ↦ fresh ])

-- The part of HandleDATA for an id that is not being received.
unfoldable pub unknown_data : Env → ℕ → Session → Session
unfolding queue_mack
unknown_data env id s =
    let packet =
      write_at (packet_overhead + command_overhead) (be_bytes 8 id)
        (create_packet (env.entropy s.made) nack 8 16 16) in
    elim (find id s.replay_filter) [
      | none ↦ encrypt_and_send env packet s
      | some _ ↦ queue_mack id s
    ]

-- The part of HandleDATA for a message that is being received.
unfoldable pub known_data : Env → ℕ → ℕ → List ℕ → InboundMessage → Session → Option Session
known_data env id offset buf m s = handle_data offset buf env.now m >>= λ m'.
    is_completed m' >>= λ done. some (
      if done
      then (if verify env.shorthash m'
          then finish env id m' s
          else record s { rx_msgs = erase id s.rx_msgs })
      else record s { rx_msgs = assign id m' s.rx_msgs })

-- Session::HandleDATA
unfoldable pub handle_data_packet : Env → Packet → Session → Option Session
handle_data_packet env p s =
    if ltb (length p) (command_overhead + 2 + 8 + packet_overhead)
    then some s
    else (slice? (command_overhead + packet_overhead) 2 p >>= λ offset_bytes.
        slice? (command_overhead + 2 + packet_overhead) 8 p >>= λ id_bytes.
        slice? (packet_overhead + 12) (length p - (packet_overhead + 12)) p >>= λ buf.
        let id = be_value id_bytes in
        let s' = record s { last_rx = env.now } in
        elim (find id s'.rx_msgs) [
          | none ↦ some (unknown_data env id s')
          | some m ↦ known_data env id (be_value offset_bytes) buf m s'
        ])

-- Session::HandleACKS
unfoldable pub handle_acks : Env → Packet → Session → Option Session
handle_acks env p s =
    if ltb (length p) (11 + packet_overhead)
    then some s
    else (slice? (2 + packet_overhead) 8 p >>= λ id_bytes.
        get_elem? p (10 + packet_overhead) >>= λ bitmask.
        let id = be_value id_bytes in
        let s' = record s { last_rx = env.now } in
        elim (find id s'.tx_msgs) [
          | none ↦ some s'
          | some m ↦
              let m' = ack bitmask m in
              is_transmitted m' >>= λ done.
              if done
              then some (inform m' delivery_success (record s' { tx_msgs = erase id s'.tx_msgs }))
              else (flush env env.now m' s' >>= λ r.
                  some (record (r.1) { tx_msgs = assign id r.0 (r.1).tx_msgs }))
        ])

-- Session::HandlePING
unfoldable pub handle_ping : Env → Session → Session
handle_ping env s = record s { last_rx = env.now }

-- The switch of HandlePlaintext. A command that is none of these is ignored.
unfoldable pub handle_command : Env → ℕ → Packet → Session → Option Session
unfolding code
handle_command env c p s =
    if c == code xmit
    then handle_xmit env p s
    else if c == code data_fragment
    then handle_data_packet env p s
    else if c == code acks
    then handle_acks env p s
    else if c == code ping
    then some (handle_ping env s)
    else if c == code nack
    then handle_nack env p s
    else if c == code clos
    then some (close env s)
    else if c == code mack
    then handle_mack env p s
    else some s

-- The loop of HandlePlaintext.
unfoldable pub handle_all : Env → List Packet → Session → Option Session
handle_all env [] s = some s
handle_all env (p ∷ ps) s =
    get_elem? p (packet_overhead + 1) >>= λ c. handle_command env c p s >>= handle_all env ps
