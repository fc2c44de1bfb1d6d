-- ===== src/Iwp/Session/Acking.antt =====
-- HandleACKS of llarp/iwp/session.cpp on the acks of a receiver that has the whole message.
use bittoro_network.Prelude.{
  ℕ, ◌+◌, ◌^◌, ◌<◌, ◌≤◌, ◌≡◌, refl, ap, ◌∙◌, [], ◌∷◌, ◌++◌, some, none, true, false, ltb, length,
  get_elem?, arith,
}
use bittoro_network.Prelude.Bytes.{
  slice, be_value, be_bytes, slice?-eq-some, be_value-be_bytes, length-write_at, length-be_bytes,
  slice-write_at_above, slice-write_at_self, get_elem?-write_at_in,
}
use bittoro_network.Prelude.Assoc.{find, erase, find-erase}
use bittoro_network.Iwp.Packet.{
  Packet, Entropy, IsEntropy, create_packet, acks, pad_length, length-create_packet,
}
use bittoro_network.Iwp.Fragments.{max_fragments, next16, next64}
use bittoro_network.Iwp.Fragments.Loop.{all_acked_iff, next16-Counts, next64-Counts}
use bittoro_network.Iwp.Outbound.{OutboundMessage, ack, is_transmitted}
use bittoro_network.Iwp.Inbound.{InboundMessage, acks_packet, acks_bitmask, is_completed}
use bittoro_network.Iwp.Transfer.{ack-acks_bitmask}
use bittoro_network.Iwp.Session.{Session, Env, delivery_success, inform}
use bittoro_network.Iwp.Session.Handlers.{handle_acks}

module _ (e : Entropy) (good : IsEntropy e) (r : InboundMessage) where
  abbrev fresh : Packet
  fresh = create_packet e acks 9 16 16

  length-fresh : length fresh ≡ 75 + pad_length e 16 16
  length-fresh = omega (arith, length-create_packet e acks 9 16 16 good)

  acks_packet_lem :
      (slice 66 8 (acks_packet e r) ≡ be_bytes 8 r.msg_id)
      × (get_elem? (acks_packet e r) 74 ≡ some (acks_bitmask r))
      × (75 ≤ length (acks_packet e r))
  unfolding acks_packet
  acks_packet_lem =
      let inner = length-write_at 66 (be_bytes 8 r.msg_id) fresh in
      (
        slice-write_at_above 66 8 74 (acks_bitmask r ∷ []) _ (omega arith)
            ∙ slice-write_at_self 66 8 (be_bytes 8 r.msg_id) fresh (length-be_bytes 8 r.msg_id)
                (omega (arith, length-fresh)),
        get_elem?-write_at_in 74 (acks_bitmask r ∷ []) _ 0 (omega arith)
            (omega (arith, inner, length-fresh)),
        omega (arith, length-write_at 74 (acks_bitmask r ∷ []) _, inner, length-fresh),
      )

-- What is complete at the receiver is transmitted for the sender that took its acks.
is_completed-is_transmitted :
    (m : OutboundMessage) (r : InboundMessage)
    → length r.acked ≡ max_fragments
    → length r.content ≡ length m.content
    → is_completed r ≡ some true
    → is_transmitted (ack (acks_bitmask r) m) ≡ some true
unfolding is_completed is_transmitted
is_completed-is_transmitted m r wide size done =
    let same = ack-acks_bitmask m r wide in
    let all = (all_acked_iff next64 next64-Counts (length r.content) r.acked wide).0 done in
    let content : (ack (acks_bitmask r) m).content ≡ m.content = unfold ack in refl in
    rw (same, content)
      ((all_acked_iff next16 next16-Counts (length m.content) r.acked wide).1 (rw (← size) all))

-- The acks of a receiver that has all of a message, of the size that the sender has under this id of
-- 64 bits, complete it at the sender: its handler is told of the success, once, and the message
-- leaves the table.
pub acks_complete :
    (env : Env) (e : Entropy) (r : InboundMessage) (m : OutboundMessage) (h : ℕ) (s : Session)
    → IsEntropy e
    → r.msg_id < 2 ^ 64
    → length r.acked ≡ max_fragments
    → length r.content ≡ length m.content
    → is_completed r ≡ some true
    → find r.msg_id s.tx_msgs ≡ some m
    → m.completed ≡ some h
    → (s' : Session) × (handle_acks env (acks_packet e r) s ≡ some s')
      × (s'.informed ≡ s.informed ++ ((h, delivery_success) ∷ []))
      × (find r.msg_id s'.tx_msgs ≡ none)
unfolding handle_acks
acks_complete env e r m h s good id_fits wide size done known handler =
    let (f₁, f₂, long) = acks_packet_lem e good r in
    let p = acks_packet e r in
    let id : be_value (slice 66 8 p) ≡ r.msg_id =
      ap be_value f₁ ∙ be_value-be_bytes 8 r.msg_id id_fits in
    let l : ltb (length p) 75 ≡ false = ground arith in
    let e₁ = slice?-eq-some 66 8 p (omega arith) in
    let t = is_completed-is_transmitted m r wide size done in
    let here : find (be_value (slice 66 8 p)) s.tx_msgs ≡ some m = rw id known in
    let told : (ack (acks_bitmask r) m).completed ≡ some h = unfold ack in handler in
    let cleared = record s {
      last_rx = env.now;
      tx_msgs = erase (be_value (slice 66 8 p)) s.tx_msgs;
    } in
    (
      record cleared { informed = s.informed ++ ((h, delivery_success) ∷ []) },
      rw (l, e₁, f₂, here, t) (unfold inform in rw told refl),
      refl,
      rw id (find-erase r.msg_id r.msg_id s.tx_msgs ∙ ground arith),
    )
