-- ===== src/Iwp/Session/History.antt =====
-- Along any history of a session, of packets received, messages sent and timers run, each message
-- is delivered once. The timer is llarp/iwp/session.cpp's Tick, as long as it comes before the
-- replay window of what was delivered ends.
use bittoro_network.Prelude.{
  ℕ, ◌≡◌, refl, subst, List, [], ◌∷◌, ◌++◌, Option, none, some, arith, if◌then◌else◌, get_elem?,
  >>=-eq-some, some_inj, if_rule,
}
use bittoro_network.Prelude.Assoc.{find, UniqueKeys}
use bittoro_network.Iwp.Packet.{Packet}
use bittoro_network.Iwp.Outbound.{OutboundMessage, should_flush}
use bittoro_network.Iwp.Inbound.{InboundMessage, should_send_acks, acks_packet}
use bittoro_network.Iwp.Session.{
  Session, Env, State, initial, introduction, link_intro, ready, closed, encrypt_and_send, flush,
  send_mack, send_keep_alive,
}
use bittoro_network.Iwp.Session.Handlers.{handle_command, handle_all}
use bittoro_network.Iwp.Session.Timers.{
  pump_rx, pump_tx, pump_messages, queue_work, pump, handle_plaintext, should_ping,
}
use bittoro_network.Iwp.Session.Keeps.{
  Keeps, Keeps-same, Keeps-trans, encrypt_and_send-Keeps, flush-Keeps, send_mack-Keeps,
  send_keep_alive-Keeps,
}
use bittoro_network.Iwp.Session.Replay.{OnceOnly, Keeps-OnceOnly}
use bittoro_network.Iwp.Session.Receive.{Ensures}
use bittoro_network.Iwp.Session.Delivery.{KeepsAll, KeepsAll-some, same, handle_command-OnceOnly}

handle_all-OnceOnly :
    (env : Env) (ps : List Packet) (s : Session) → OnceOnly s → Ensures (handle_all env ps s)
unfolding handle_all
handle_all-OnceOnly env [] s o t e = subst OnceOnly (some_inj e) o
handle_all-OnceOnly env (p ∷ ps) s o t e =
    let (c, _, e₁) = >>=-eq-some (get_elem? p 65) _ e in
    let (s', h, e₂) = >>=-eq-some (handle_command env c p s) _ e₁ in
    handle_all-OnceOnly env ps s' (handle_command-OnceOnly env c p s o s' h) t e₂

pump_rx-find :
    (env : Env) (rx : List (ℕ × InboundMessage)) (s : Session) (j : ℕ)
    → find j rx ≡ none
    → find j (pump_rx env rx s).0 ≡ none
unfolding pump_rx find
pump_rx-find env [] s j h = refl
pump_rx-find env ((id, m) ∷ rx) s j h =
    let s' =
      if should_send_acks env.now m
      then encrypt_and_send env (acks_packet (env.entropy s.made) m) s
      else s in
    ground (arith, pump_rx-find env rx s' j)

pump_rx-UniqueKeys :
    (env : Env) (rx : List (ℕ × InboundMessage)) (s : Session)
    → UniqueKeys rx
    → UniqueKeys (pump_rx env rx s).0
unfolding pump_rx
pump_rx-UniqueKeys env [] s u = tt
pump_rx-UniqueKeys env ((id, m) ∷ rx) s u =
    let s' =
      if should_send_acks env.now m
      then encrypt_and_send env (acks_packet (env.entropy s.made) m) s
      else s in
    (pump_rx-find env rx s' id u.0, pump_rx-UniqueKeys env rx s' u.1)

pump_rx-Keeps :
    (env : Env) (rx : List (ℕ × InboundMessage)) (s : Session) → Keeps s (pump_rx env rx s).1
unfolding pump_rx
pump_rx-Keeps env [] s = same s
pump_rx-Keeps env ((id, m) ∷ rx) s =
    let s' =
      if should_send_acks env.now m
      then encrypt_and_send env (acks_packet (env.entropy s.made) m) s
      else s in
    Keeps-trans {t = s'}
      (if_rule (Keeps s) (should_send_acks env.now m)
        (encrypt_and_send-Keeps env (acks_packet (env.entropy s.made) m) s) (same s))
      (pump_rx-Keeps env rx s')

pump_tx-Keeps :
    (env : Env) (tx : List (ℕ × OutboundMessage)) (s : Session)
    {r : List (ℕ × OutboundMessage) × Session}
    → pump_tx env tx s ≡ some r
    → Keeps s r.1
unfolding pump_tx
pump_tx-Keeps env [] s e = subst (λ q. Keeps s q.1) (some_inj e) (same s)
pump_tx-Keeps env ((id, m) ∷ tx) s e =
    let (r, h, e₁) =
      >>=-eq-some (if should_flush env.now m then flush env env.now m s else some (m, s)) _ e in
    let (q, h₂, e₂) = >>=-eq-some (pump_tx env tx (r.1)) _ e₁ in
    subst (λ x. Keeps s x.1) (some_inj e₂) (Keeps-trans (sent r h) (pump_tx-Keeps env tx (r.1) h₂))
  where
    sent :
        (r : OutboundMessage × Session)
        → (if should_flush env.now m then flush env env.now m s else some (m, s)) ≡ some r
        → Keeps s r.1
    sent r h =
        if_rule (λ x. x ≡ some r → Keeps s r.1) (should_flush env.now m) {x = flush env env.now m s}
          {y = some (m, s)} (flush-Keeps env env.now m s)
          (λ e. subst (λ q. Keeps s q.1) (some_inj e) (same s)) h

pump_messages-Keeps : (env : Env) (s : Session) → KeepsAll s (pump_messages env s)
unfolding pump_messages
pump_messages-Keeps env s t e =
    let s₁ = if should_ping env s then send_keep_alive env s else s in
    let s₂ = (pump_rx env s₁.rx_msgs s₁).1 in
    let rx = (pump_rx env s₁.rx_msgs s₁).0 in
    let s₃ = record s₂ { rx_msgs = rx } in
    let (r, h, e₁) = >>=-eq-some (pump_tx env s₂.tx_msgs s₃) _ e in
    let pinged : Keeps s s₁ =
      if_rule (Keeps s) (should_ping env s) (send_keep_alive-Keeps env s) (same s) in
    let k = pump_rx-Keeps env s₁.rx_msgs s₁ in
    let acked : Keeps s₁ s₃ = record {
      opens_none = pump_rx-find env s₁.rx_msgs s₁;
      unique = pump_rx-UniqueKeys env s₁.rx_msgs s₁;
      same_filter = k.same_filter;
      same_handled = k.same_handled;
    } in
    let s₄ = record (r.1) { tx_msgs = r.0 } in
    subst (Keeps s) (some_inj e₁) (
      Keeps-trans pinged (
        Keeps-trans acked
          (Keeps-trans (pump_tx-Keeps env s₂.tx_msgs s₃ h) (Keeps-same (r.1) s₄ refl refl refl))))

queue_work-Keeps :
    (q : List Packet) (s : Session)
    → Keeps s (elim q [
      | [] ↦ s
      | p ∷ ps ↦ record s { work = s.work ++ ((p ∷ ps) ∷ []); encrypt_next = [] }
    ])
queue_work-Keeps [] s = same s
queue_work-Keeps (p ∷ ps) s =
    Keeps-same s (record s { work = s.work ++ ((p ∷ ps) ∷ []); encrypt_next = [] }) refl refl refl

by_state-Keeps :
    (st : State) (s : Session) (r : Option Session)
    → KeepsAll s r
    → KeepsAll s (elim st [ ready ↦ r | link_intro ↦ r | _ ↦ some s ])
by_state-Keeps ready s r k t e = k t e
by_state-Keeps link_intro s r k t e = k t e
by_state-Keeps initial s r k t e = KeepsAll-some s s (same s) t e
by_state-Keeps introduction s r k t e = KeepsAll-some s s (same s) t e
by_state-Keeps closed s r k t e = KeepsAll-some s s (same s) t e

pub pump-Keeps : (env : Env) (s : Session) → KeepsAll s (pump env s)
unfolding pump queue_work
pump-Keeps env s t e =
    let first : Option Session = elim s.state [
      | ready ↦ pump_messages env s
      | link_intro ↦ pump_messages env s
      | _ ↦ some s
    ] in
    let (s', h, e₁) = >>=-eq-some first (λ s'. some (queue_work s')) e in
    subst (Keeps s) (some_inj e₁) (
      Keeps-trans (by_state-Keeps s.state s (pump_messages env s) (pump_messages-Keeps env s) s' h)
        (queue_work-Keeps s'.encrypt_next s'))

pub handle_plaintext-OnceOnly :
    (env : Env) (ps : List Packet) (s : Session) → OnceOnly s → Ensures (handle_plaintext env ps s)
unfolding handle_plaintext
handle_plaintext-OnceOnly env ps s o t e =
    let (s', h, e₁) = >>=-eq-some (handle_all env ps s) _ e in
    Keeps-OnceOnly (Keeps-trans (send_mack-Keeps env s') (pump-Keeps env (send_mack env s') t e₁))
      (handle_all-OnceOnly env ps s o s' h)
