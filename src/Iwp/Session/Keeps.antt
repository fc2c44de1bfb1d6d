-- ===== src/Iwp/Session/Keeps.antt =====
-- What the sending half of the session leaves alone: the tables of the receiving half.
use bittoro_network.Prelude.{
  ℕ, zero, suc, ◌+◌, ◌≡◌, refl, ◌∙◌, List, [], ◌∷◌, Option, none, some, false, ltb, length,
  >>=-eq-some, if_rule, some_inj, ◌++◌, min, take, drop, subst, sym,
}
use bittoro_network.Prelude.Bytes.{slice?, be_value}
use bittoro_network.Prelude.Assoc.{find, erase, UniqueKeys}
use bittoro_network.Iwp.Packet.{Packet, create_packet, clos, ping}
use bittoro_network.Iwp.Outbound.{OutboundMessage, flush_unacked}
use bittoro_network.Iwp.Session.{
  Session, Env, State, initial, introduction, link_intro, ready, closed, DeliveryStatus,
  delivery_success, is_established, send_ll, encrypt_worker, encrypt_and_send, send_all, inform,
  flush, send_mack_rounds, send_mack, close, send_keep_alive, mack_packet, max_acks_in_mack,
}
use bittoro_network.Iwp.Session.Handlers.{deliver, mack_loop}

-- No message is opened, delivered or forgotten on the way from `s` to `s'`.
pub record Keeps (s s' : Session) : Type 0 where
  pub opens_none : (j : ℕ) → find j s.rx_msgs ≡ none → find j s'.rx_msgs ≡ none
  pub unique : UniqueKeys s.rx_msgs → UniqueKeys s'.rx_msgs
  pub same_filter : s'.replay_filter ≡ s.replay_filter
  pub same_handled : s'.handled ≡ s.handled

pub Keeps-trans : {s t u : Session} → Keeps s t → Keeps t u → Keeps s u
Keeps-trans k l = record {
  opens_none = λ j h. l.opens_none j (k.opens_none j h);
  unique = λ u. l.unique (k.unique u);
  same_filter = l.same_filter ∙ k.same_filter;
  same_handled = l.same_handled ∙ k.same_handled;
}

-- The tables are the same ones.
pub Keeps-same :
    (s s' : Session)
    → s'.rx_msgs ≡ s.rx_msgs
    → s'.replay_filter ≡ s.replay_filter
    → s'.handled ≡ s.handled
    → Keeps s s'
Keeps-same s s' rx f h = record {
  opens_none = λ j e. rw rx e;
  unique = λ u. subst UniqueKeys (sym rx) u;
  same_filter = f;
  same_handled = h;
}

pub encrypt_worker-Keeps :
    (env : Env) (ps : List Packet) (s : Session) → Keeps s (encrypt_worker env ps s)
unfolding encrypt_worker send_ll
encrypt_worker-Keeps env [] s = Keeps-same s s refl refl refl
encrypt_worker-Keeps env (p ∷ ps) s =
    Keeps-trans (Keeps-same s (send_ll env (env.seal p) s) refl refl refl)
      (encrypt_worker-Keeps env ps (send_ll env (env.seal p) s))

pub encrypt_and_send-Keeps :
    (env : Env) (p : Packet) (s : Session) → Keeps s (encrypt_and_send env p s)
unfolding encrypt_and_send
encrypt_and_send-Keeps env p s =
    let queue = s.encrypt_next ++ (p ∷ []) in
    let kept = record s { encrypt_next = queue; made = s.made + 1 } in
    let taken = record s { encrypt_next = []; made = s.made + 1 } in
    if_rule (Keeps s) (is_established s) (Keeps-same s kept refl refl refl)
      (Keeps-trans (Keeps-same s taken refl refl refl) (encrypt_worker-Keeps env queue taken))

pub send_all-Keeps : (env : Env) (ps : List Packet) (s : Session) → Keeps s (send_all env ps s)
unfolding send_all
send_all-Keeps env [] s = Keeps-same s s refl refl refl
send_all-Keeps env (p ∷ ps) s =
    Keeps-trans (encrypt_and_send-Keeps env p s) (send_all-Keeps env ps (encrypt_and_send env p s))

inform_handler-Keeps :
    (o : Option ℕ) (d : DeliveryStatus) (s : Session)
    → Keeps s (elim o [ none ↦ s | some h ↦ record s { informed = s.informed ++ ((h, d) ∷ []) } ])
inform_handler-Keeps none d s = Keeps-same s s refl refl refl
inform_handler-Keeps (some h) d s = Keeps-same s _ refl refl refl

pub inform-Keeps : (m : OutboundMessage) (d : DeliveryStatus) (s : Session) → Keeps s (inform m d s)
unfolding inform
inform-Keeps m d s = inform_handler-Keeps m.completed d s

pub flush-Keeps :
    (env : Env) (now : ℕ) (m : OutboundMessage) (s : Session) {r : OutboundMessage × Session}
    → flush env now m s ≡ some r
    → Keeps s r.1
unfolding flush
flush-Keeps env now m s {r} h =
    let (q, _, e) = >>=-eq-some (flush_unacked env.entropy s.made now m) _ h in
    subst (λ t. Keeps s t.1) (some_inj e) (send_all-Keeps env q.0 s)

send_mack_rounds-Keeps : (env : Env) (n : ℕ) (s : Session) → Keeps s (send_mack_rounds env n s)
unfolding send_mack_rounds
send_mack_rounds-Keeps env zero s = Keeps-same s s refl refl refl
send_mack_rounds-Keeps env (suc n) s =
    let num_acks = min (length s.send_macks) max_acks_in_mack in
    let packet = mack_packet (env.entropy s.made) (take num_acks s.send_macks) in
    let s' = record s { send_macks = drop num_acks s.send_macks } in
    if_rule (Keeps s) (ltb 0 (length s.send_macks))
      (Keeps-trans (Keeps-same s s' refl refl refl) (
        Keeps-trans (encrypt_and_send-Keeps env packet s')
          (send_mack_rounds-Keeps env n (encrypt_and_send env packet s'))))
      (Keeps-same s s refl refl refl)

pub send_mack-Keeps : (env : Env) (s : Session) → Keeps s (send_mack env s)
unfolding send_mack
send_mack-Keeps env s = send_mack_rounds-Keeps env (length s.send_macks) s

close_by_state-Keeps :
    (st : State) (s a b : Session)
    → Keeps s a
    → Keeps s b
    → Keeps s (elim st [ closed ↦ s | ready ↦ a | _ ↦ b ])
close_by_state-Keeps closed s a b ha hb = Keeps-same s s refl refl refl
close_by_state-Keeps ready s a b ha hb = ha
close_by_state-Keeps initial s a b ha hb = hb
close_by_state-Keeps introduction s a b ha hb = hb
close_by_state-Keeps link_intro s a b ha hb = hb

pub close-Keeps : (env : Env) (s : Session) → Keeps s (close env s)
unfolding close
close-Keeps env s =
    let msg = create_packet (env.entropy s.made) clos 0 16 16 in
    let s₁ = record s { state = closed; mapped = false } in
    let s₂ = record s { state = closed } in
    close_by_state-Keeps s.state s (encrypt_and_send env msg s₁) (encrypt_and_send env msg s₂)
      (Keeps-trans (Keeps-same s s₁ refl refl refl) (encrypt_and_send-Keeps env msg s₁))
      (Keeps-trans (Keeps-same s s₂ refl refl refl) (encrypt_and_send-Keeps env msg s₂))

pub send_keep_alive-Keeps : (env : Env) (s : Session) → Keeps s (send_keep_alive env s)
unfolding send_keep_alive
send_keep_alive-Keeps env s =
    if_rule (Keeps s) (is_established s)
      (encrypt_and_send-Keeps env (create_packet (env.entropy s.made) ping 0 16 16) s)
      (Keeps-same s s refl refl refl)

mack_entry-Keeps :
    (o : Option OutboundMessage) (acked : ℕ) (s : Session)
    → Keeps s (elim o [
      | none ↦ s
      | some m ↦ inform m delivery_success (record s { tx_msgs = erase acked s.tx_msgs })
    ])
mack_entry-Keeps none acked s = Keeps-same s s refl refl refl
mack_entry-Keeps (some m) acked s =
    let s' = record s { tx_msgs = erase acked s.tx_msgs } in
    Keeps-trans (Keeps-same s s' refl refl refl) (inform-Keeps m delivery_success s')

deliver-Keeps : (id : ℕ) (s : Session) → Keeps s (deliver id s)
unfolding deliver
deliver-Keeps id s = mack_entry-Keeps (find id s.tx_msgs) id s

pub mack_loop-Keeps :
    (n ptr : ℕ) (p : Packet) (s : Session) {s' : Session}
    → mack_loop n ptr p s ≡ some s'
    → Keeps s s'
unfolding mack_loop
mack_loop-Keeps zero ptr p s {s'} h = subst (Keeps s) (some_inj h) (Keeps-same s s refl refl refl)
mack_loop-Keeps (suc n) ptr p s h =
    let (bytes, _, e) = >>=-eq-some (slice? ptr 8 p) _ h in
    Keeps-trans (deliver-Keeps (be_value bytes) s)
      (mack_loop-Keeps n (ptr + 8) p (deliver (be_value bytes) s) e)
