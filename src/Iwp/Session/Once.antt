-- ===== src/Iwp/Session/Once.antt =====
-- Along any history of a session of llarp/iwp/session.cpp, each message is delivered at most once.
use bittoro_network.Prelude.{
  ℕ, ◌+◌, ◌%◌, ◌^◌, ◌≤◌, ◌<◌, ◌≡◌, refl, subst, List, [], Option, none, some, Bool, false, arith,
  leb, length, >>=-eq-some, some_inj, if_rule, inl, ◌⊎◌,
}
use bittoro_network.Prelude.Assoc.{find, emplace}
use bittoro_network.Iwp.Packet.{Packet}
use bittoro_network.Iwp.Outbound.{OutboundMessage, xmit_packet}
use bittoro_network.Iwp.Outbound
use bittoro_network.Iwp.Session.{
  Session, Env, send_message_buffer, close, replay_window, max_send_queue_size,
}
use bittoro_network.Iwp.Session.Timers.{pump, handle_plaintext, tick}
use bittoro_network.Iwp.Session.Keeps.{
  Keeps, Keeps-same, Keeps-trans, encrypt_and_send-Keeps, close-Keeps,
}
use bittoro_network.Iwp.Session.Replay.{OnceOnly, Keeps-OnceOnly, deliveries}
use bittoro_network.Iwp.Session.Delivery.{same}
use bittoro_network.Iwp.Session.History.{pump-Keeps, handle_plaintext-OnceOnly}
use bittoro_network.Iwp.Session.Ticks.{IsFresh, tick-OnceOnly}

send_message_buffer-Keeps :
    (env : Env) (buf : List ℕ) (h : Option ℕ) (s : Session) (r : Bool × Session)
    → send_message_buffer env buf h s ≡ some r
    → Keeps s r.1
unfolding send_message_buffer
send_message_buffer-Keeps env buf h s r =
    let msgs = emplace s.tx_id (Outbound.init env.shorthash s.tx_id buf env.now h) s.tx_msgs in
    let s' = record s { tx_id = (s.tx_id + 1) % 2 ^ 64; tx_msgs = msgs } in
    if_rule (λ x. x ≡ some r → Keeps s r.1) (leb max_send_queue_size (length s.tx_msgs))
      {x = some (false, s)} (λ e. subst (λ q. Keeps s q.1) (some_inj e) (same s))
      (λ e.
        let (m, _, e₁) = >>=-eq-some (find s.tx_id msgs) _ e in
        let packet = xmit_packet (env.entropy s.made) m in
        subst (λ q. Keeps s q.1) (some_inj e₁)
          (Keeps-trans (Keeps-same s s' refl refl refl) (encrypt_and_send-Keeps env packet s')))

-- What happens to a session: a batch of decrypted packets, a message to send, a pump, a close, and
-- a tick that comes before the replay window of anything filtered ends.
pub data Step (s : Session) : Session → Type 0 where
  receives :
      (env : Env) (ps : List Packet) {s' : Session}
      → handle_plaintext env ps s ≡ some s'
      → Step s s'
  sends :
      (env : Env) (buf : List ℕ) (h : Option ℕ) (taken : Bool) {s' : Session}
      → send_message_buffer env buf h s ≡ some (taken, s')
      → Step s s'
  pumps : (env : Env) {s' : Session} → pump env s ≡ some s' → Step s s'
  closes : (env : Env) {s' : Session} → close env s ≡ s' → Step s s'
  ticks :
      (now : ℕ) {s' : Session}
      → now + replay_window < 2 ^ 64
      → IsFresh now s.replay_filter
      → ((j at : ℕ) → find j s.replay_filter ≡ some at → at ≤ now)
      → tick now s ≡ s'
      → Step s s'

pub data Reach (s : Session) : Session → Type 0 where
  here : Reach s s
  next : {t u : Session} → Reach s t → Step t u → Reach s u

Step-OnceOnly : {s s' : Session} → Step s s' → OnceOnly s → OnceOnly s'
Step-OnceOnly {s} (receives env ps {s'} e) o = handle_plaintext-OnceOnly env ps s o s' e
Step-OnceOnly {s} (sends env buf h taken {s'} e) o =
    Keeps-OnceOnly (send_message_buffer-Keeps env buf h s (taken, s') e) o
Step-OnceOnly {s} (pumps env {s'} e) o = Keeps-OnceOnly (pump-Keeps env s s' e) o
Step-OnceOnly {s} (closes env e) o = subst OnceOnly e (Keeps-OnceOnly (close-Keeps env s) o)
Step-OnceOnly {s} (ticks now fits fresh past e) o =
    subst OnceOnly e (tick-OnceOnly now s fits fresh past o)

Reach-OnceOnly : {s t : Session} → Reach s t → OnceOnly s → OnceOnly t
Reach-OnceOnly here o = o
Reach-OnceOnly (next r st) o = Step-OnceOnly st (Reach-OnceOnly r o)

-- From a session that has received nothing, along any history in which every tick comes within the
-- replay window of all that is filtered, no id is handed to the link layer more than once, and no id
-- is being received while the replay filter holds it.
pub delivered_once :
    {s t : Session}
    → s.rx_msgs ≡ []
    → s.handled ≡ []
    → Reach s t
    → (id : ℕ)
    → (deliveries id t.handled ≤ 1)
      × ((find id t.rx_msgs ≡ none) ⊎ (find id t.replay_filter ≡ none))
delivered_once {s} {t} rx handled r id =
    let o = Reach-OnceOnly r (start rx handled) in (o.once id, o.apart id)
  where
    start : s.rx_msgs ≡ [] → s.handled ≡ [] → OnceOnly s
    start rx handled = record {
      unique = rw rx tt;
      apart = λ j. inl (unfold find in rw rx);
      unfiltered = λ j e. unfold deliveries in rw handled;
      once = λ j. unfold deliveries in rw handled (omega arith);
    }
