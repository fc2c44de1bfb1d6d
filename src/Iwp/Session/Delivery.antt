-- ===== src/Iwp/Session/Delivery.antt =====
-- Every handler of llarp/iwp/session.cpp keeps what Replay states of the tables.
use bittoro_network.Prelude.{
  ℕ, ◌+◌, ◌*◌, ◌≡◌, refl, subst, Option, none, some, ltb, ◌==◌, if◌then◌else◌, length, get_elem?,
  ◌>>=◌, >>=-eq-some, some_inj, if_rule,
}
use bittoro_network.Prelude.Bytes.{slice?, be_value}
use bittoro_network.Prelude.Assoc.{find, assign, erase}
use bittoro_network.Iwp.Packet.{Packet, code, xmit, data_fragment, acks, ping, nack, clos, mack}
use bittoro_network.Iwp.Outbound.{OutboundMessage, xmit_packet, ack, is_transmitted}
use bittoro_network.Iwp.Session.{
  Session, Env, delivery_success, encrypt_and_send, flush, inform, close,
}
use bittoro_network.Iwp.Session.Handlers.{
  handle_acks, handle_nack, handle_mack, handle_ping, handle_command, mack_loop,
}
use bittoro_network.Iwp.Session.Keeps.{
  Keeps, Keeps-same, Keeps-trans, encrypt_and_send-Keeps, flush-Keeps, inform-Keeps, close-Keeps,
  mack_loop-Keeps,
}
use bittoro_network.Iwp.Session.Replay.{OnceOnly, Keeps-OnceOnly}
use bittoro_network.Iwp.Session.Receive.{
  Ensures, heard-Keeps, handle_xmit-OnceOnly, handle_data_packet-OnceOnly,
}

-- A result that leaves the receiving half alone.
abbrev pub KeepsAll : Session → Option Session → Type 0
KeepsAll s r = (t : Session) → r ≡ some t → Keeps s t

pub KeepsAll-some : (s t : Session) → Keeps s t → KeepsAll s (some t)
KeepsAll-some s t k u e = subst (Keeps s) (some_inj e) k

pub same : (s : Session) → Keeps s s
same s = Keeps-same s s refl refl refl

handle_mack-Keeps : (env : Env) (p : Packet) (s : Session) → KeepsAll s (handle_mack env p s)
unfolding handle_mack
handle_mack-Keeps env p s =
    if_rule (KeepsAll s) (ltb (length p) 67) {x = some s} (KeepsAll-some s s (same s)) λ t h.
      let (n, _, h₁) = >>=-eq-some (get_elem? p 66) _ h in
      if_rule (KeepsAll s) (ltb (length p) (67 + n * 8)) {x = some s} {y = mack_loop n 67 p s}
        (KeepsAll-some s s (same s)) (λ u e. mack_loop-Keeps n 67 p s e) t h₁

nack_choice-Keeps :
    (o : Option OutboundMessage) (env : Env) (s : Session)
    → Keeps s
        (elim o [ none ↦ s | some m ↦ encrypt_and_send env (xmit_packet (env.entropy s.made) m) s ])
nack_choice-Keeps none env s = same s
nack_choice-Keeps (some m) env s = encrypt_and_send-Keeps env (xmit_packet (env.entropy s.made) m) s

handle_nack-Keeps : (env : Env) (p : Packet) (s : Session) → KeepsAll s (handle_nack env p s)
unfolding handle_nack
handle_nack-Keeps env p s =
    if_rule (KeepsAll s) (ltb (length p) 74) {x = some s} (KeepsAll-some s s (same s)) λ t h.
      let (bytes, _, h₁) = >>=-eq-some (slice? 66 8 p) _ h in
      let s' : Session = elim (find (be_value bytes) s.tx_msgs) [
        | none ↦ s
        | some m ↦ encrypt_and_send env (xmit_packet (env.entropy s.made) m) s
      ] in
      KeepsAll-some s (record s' { last_rx = env.now })
        (Keeps-trans {t = s'} (nack_choice-Keeps (find (be_value bytes) s.tx_msgs) env s)
          (heard-Keeps env s'))
        t h₁

acks_choice-Keeps :
    (o : Option OutboundMessage) (env : Env) (id bitmask : ℕ) (s : Session)
    → KeepsAll s (elim o [
      | none ↦ some s
      | some m ↦
          let m' = ack bitmask m in
          is_transmitted m' >>= λ done.
          if done
          then some (inform m' delivery_success (record s { tx_msgs = erase id s.tx_msgs }))
          else (flush env env.now m' s >>= λ r.
              some (record (r.1) { tx_msgs = assign id r.0 (r.1).tx_msgs }))
    ])
acks_choice-Keeps none env id bitmask s t h = KeepsAll-some s s (same s) t h
acks_choice-Keeps (some m) env id bitmask s t h =
    let m' = ack bitmask m in
    let (done, _, h₁) = >>=-eq-some (is_transmitted m') _ h in
    let s' = record s { tx_msgs = erase id s.tx_msgs } in
    if_rule (KeepsAll s) done {x = some (inform m' delivery_success s')}
      {y = flush env env.now m' s >>= λ r.
        some (record (r.1) { tx_msgs = assign id r.0 (r.1).tx_msgs })}
      (KeepsAll-some s (inform m' delivery_success s')
        (Keeps-trans (Keeps-same s s' refl refl refl) (inform-Keeps m' delivery_success s')))
      (λ u e.
        let (r, f, e₁) = >>=-eq-some (flush env env.now m' s) _ e in
        let s'' = record (r.1) { tx_msgs = assign id r.0 (r.1).tx_msgs } in
        KeepsAll-some s s''
          (Keeps-trans (flush-Keeps env env.now m' s f) (Keeps-same (r.1) s'' refl refl refl)) u e₁)
      t h₁

handle_acks-Keeps : (env : Env) (p : Packet) (s : Session) → KeepsAll s (handle_acks env p s)
unfolding handle_acks
handle_acks-Keeps env p s =
    if_rule (KeepsAll s) (ltb (length p) 75) {x = some s} (KeepsAll-some s s (same s)) λ t h.
      let (bytes, _, h₁) = >>=-eq-some (slice? 66 8 p) _ h in
      let (mask, _, h₂) = >>=-eq-some (get_elem? p 74) _ h₁ in
      let s' = record s { last_rx = env.now } in
      Keeps-trans (heard-Keeps env s)
        (acks_choice-Keeps (find (be_value bytes) s'.tx_msgs) env (be_value bytes) mask s' t h₂)

pub Keeps_Ensures : {s : Session} {r : Option Session} → OnceOnly s → KeepsAll s r → Ensures r
Keeps_Ensures o k t e = Keeps-OnceOnly (k t e) o

pub handle_command-OnceOnly :
    (env : Env) (c : ℕ) (p : Packet) (s : Session) → OnceOnly s → Ensures (handle_command env c p s)
unfolding handle_command
handle_command-OnceOnly env c p s o =
    if_rule Ensures (c == code xmit) (λ t e. handle_xmit-OnceOnly env p s o e)
      (if_rule Ensures (c == code data_fragment) (λ t e. handle_data_packet-OnceOnly env p s o e)
        (if_rule Ensures (c == code acks) (Keeps_Ensures o (handle_acks-Keeps env p s)) (
          if_rule Ensures (c == code ping)
            (Keeps_Ensures o
              (KeepsAll-some s (handle_ping env s) (unfold handle_ping in heard-Keeps env s)))
            (if_rule Ensures (c == code nack) (Keeps_Ensures o (handle_nack-Keeps env p s)) (
              if_rule Ensures (c == code clos)
                (Keeps_Ensures o (KeepsAll-some s (close env s) (close-Keeps env s)))
                (if_rule Ensures (c == code mack) (Keeps_Ensures o (handle_mack-Keeps env p s))
                  (Keeps_Ensures o (KeepsAll-some s s (same s)))))))))
