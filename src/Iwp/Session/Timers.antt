-- ===== src/Iwp/Session/Timers.antt =====
-- The periodic work of the session, in llarp/iwp/session.cpp.
use bittoro_network.Prelude.{
  sub64, ℕ, ◌+◌, ◌%◌, ◌^◌, List, [], ◌∷◌, ◌++◌, Option, some, Bool, false, ltb, leb, if◌then◌else◌,
  ◌>>=◌,
}
use bittoro_network.Prelude.Assoc.{emplace, erase_if}
use bittoro_network.Iwp.Packet.{Packet}
use bittoro_network.Iwp.Outbound.{OutboundMessage, should_flush}
use bittoro_network.Iwp.Outbound
use bittoro_network.Iwp.Inbound.{InboundMessage, should_send_acks, acks_packet}
use bittoro_network.Iwp.Inbound
use bittoro_network.Iwp.Session.{
  Session, Env, ready, link_intro, delivery_dropped, inform, is_established, encrypt_and_send,
  send_keep_alive, send_mack, flush, ping_interval, replay_window,
}
use bittoro_network.Iwp.Session.Handlers.{handle_all}

-- Session::ShouldPing
unfoldable pub should_ping : Env → Session → Bool
should_ping env s = if is_established s then ltb ping_interval (sub64 env.now s.last_tx) else false

-- The loop of Pump over the messages that are being received.
unfoldable pub pump_rx :
    Env → List (ℕ × InboundMessage) → Session → List (ℕ × InboundMessage) × Session
pump_rx env [] s = ([], s)
pump_rx env ((id, m) ∷ rest) s =
    let due = should_send_acks env.now m in
    let m' = if due then record m { last_ack_sent = env.now } else m in
    let s' = if due then encrypt_and_send env (acks_packet (env.entropy s.made) m) s else s in
    let (rest', s'') = pump_rx env rest s' in ((id, m') ∷ rest', s'')

-- The loop of Pump over the messages that are being sent.
unfoldable pub pump_tx :
    Env → List (ℕ × OutboundMessage) → Session → Option (List (ℕ × OutboundMessage) × Session)
pump_tx env [] s = some ([], s)
pump_tx env ((id, m) ∷ rest) s =
    (if should_flush env.now m then flush env env.now m s else some (m, s)) >>= λ r.
    pump_tx env rest (r.1) >>= λ q. some ((id, r.0) ∷ q.0, q.1)

-- The first part of Pump, in the states in which it sends.
unfoldable pub pump_messages : Env → Session → Option Session
pump_messages env s =
    let s₁ = if should_ping env s then send_keep_alive env s else s in
    let (rx, s₂) = pump_rx env s₁.rx_msgs s₁ in
    pump_tx env s₂.tx_msgs (record s₂ { rx_msgs = rx }) >>= λ r.
    some (record (r.1) { tx_msgs = r.0 })

-- The second part: what was queued goes to the workers as one batch.
unfoldable pub queue_work : Session → Session
queue_work s = elim s.encrypt_next [
  | [] ↦ s
  | p ∷ ps ↦ record s { work = s.work ++ ((p ∷ ps) ∷ []); encrypt_next = [] }
]

-- Session::Pump, but for the batch of packets to decrypt
unfoldable pub pump : Env → Session → Option Session
pump env s =
    let sent = pump_messages env s in
    let first : Option Session = elim s.state [ ready ↦ sent | link_intro ↦ sent | _ ↦ some s ] in
    first >>= λ s'. some (queue_work s')

-- Session::HandlePlaintext
unfoldable pub handle_plaintext : Env → List Packet → Session → Option Session
handle_plaintext env msgs s = handle_all env msgs s >>= λ s'. pump env (send_mack env s')

-- The first loop of Tick: messages that were not delivered in time.
unfoldable pub tick_tx :
    ℕ → List (ℕ × OutboundMessage) → Session → List (ℕ × OutboundMessage) × Session
tick_tx now [] s = ([], s)
tick_tx now ((id, m) ∷ rest) s =
    let late = Outbound.is_timed_out now m in
    let (rest', s') = tick_tx now rest (if late then inform m delivery_dropped s else s) in
    (if late then rest' else (id, m) ∷ rest', s')

-- The second: messages that stopped arriving go to the replay filter.
unfoldable pub tick_rx :
    ℕ → List (ℕ × InboundMessage) → List (ℕ × ℕ) → List (ℕ × InboundMessage) × List (ℕ × ℕ)
tick_rx now [] filter = ([], filter)
tick_rx now ((id, m) ∷ rest) filter =
    let late = Inbound.is_timed_out now m in
    let (rest', filter') = tick_rx now rest (if late then emplace id now filter else filter) in
    (if late then rest' else (id, m) ∷ rest', filter')

-- Session::ResetRates
unfoldable pub reset_rates : Session → Session
reset_rates s = record s {
  current_tx = s.tx_rate;
  current_rx = s.rx_rate;
  rx_rate = 0;
  tx_rate = 0;
}

-- The second and the third block of Tick: the table of what is received, and the replay filter.
unfoldable pub tick_tables : ℕ → Session → Session
tick_tables now s =
    let (rx, filter) = tick_rx now s.rx_msgs s.replay_filter in
    record s {
      rx_msgs = rx;
      replay_filter = erase_if (λ id at. leb ((at + replay_window) % 2 ^ 64) now) filter;
    }

-- The rates, and the first block of Tick.
unfoldable pub tick_sent : ℕ → Session → Session
unfolding reset_rates
tick_sent now s =
    let s₁ =
      if leb s.reset_rates_at now
      then record (reset_rates s) { reset_rates_at = (now + 1000) % 2 ^ 64 }
      else s in
    let (tx, s₂) = tick_tx now s₁.tx_msgs s₁ in record s₂ { tx_msgs = tx }

-- Session::Tick
unfoldable pub tick : ℕ → Session → Session
tick now s = tick_tables now (tick_sent now s)
