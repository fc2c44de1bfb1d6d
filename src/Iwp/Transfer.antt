-- ===== src/Iwp/Transfer.antt =====
-- A whole exchange between OutboundMessage and InboundMessage of llarp/iwp/message_buffer.cpp.
use bittoro_network.Prelude.{
  ℕ, zero, suc, ◌+◌, ◌-◌, ◌*◌, ◌%◌, ◌^◌, ◌<◌, ◌≤◌, ◌≡◌, refl, ap, ◌∙◌, inl, inr, List, [], ◌∷◌,
  Bool, true, false, some, length, get_elem?, map, arith, lt_get_elem?, subst, All, Bool-cases,
}
use bittoro_network.Prelude.Bytes.{slice, be_value}
use bittoro_network.Iwp.Packet.{Packet, Entropy, IsEntropy, fragment_size}
use bittoro_network.Iwp.Fragments.{max_fragments, to_ulong, next64}
use bittoro_network.Iwp.Fragments.Acks.{bitset-to_ulong, to_ulong_lt}
use bittoro_network.Iwp.Fragments.Loop.{all_acked_iff, next64-Counts}
use bittoro_network.Iwp.Outbound.{OutboundMessage, ack, flush_unacked}
use bittoro_network.Iwp.Outbound.Flush.{AllCarry, missing, flush_unacked_lem}
use bittoro_network.Iwp.Inbound.{InboundMessage, acks_bitmask, is_completed}
use bittoro_network.Iwp.Inbound.Reassembly.{
  Agrees, Listed, arrivals, handle_all, handle_all-Agrees, is_completed-eq,
}

-- What the receiver of a DATA packet reads: offset, bytes and time.
abbrev pub arrival : ℕ → Packet → ℕ × List ℕ × ℕ
arrival now p = (be_value (slice 66 2 p), slice 76 (length p - 76) p, now)

abbrev at_time : ℕ → ℕ → ℕ × ℕ
at_time now k = (k, now)

-- The ack of a receiver gives the sender the receiver's own bitset.
pub ack-acks_bitmask :
    (m : OutboundMessage) (r : InboundMessage)
    → length r.acked ≡ max_fragments
    → (ack (acks_bitmask r) m).acked ≡ r.acked
unfolding ack acks_bitmask
ack-acks_bitmask m r wide =
    let below : to_ulong r.acked % 256 ≡ to_ulong r.acked = omega (arith, bound) in
    rw below (rw (← wide) (bitset-to_ulong r.acked))
  where
    bound : to_ulong r.acked < 256
    bound = rw wide at (to_ulong_lt r.acked)

arrivals_of_packets :
    (m : OutboundMessage) (now : ℕ) (ks : List ℕ) (ps : List Packet)
    → AllCarry m ks ps
    → map (arrival now) ps ≡ arrivals m.content (map (at_time now) ks)
arrivals_of_packets m now [] [] c = refl
arrivals_of_packets m now [] (p ∷ ps) c = absurd c
arrivals_of_packets m now (k ∷ ks) [] c = absurd c
arrivals_of_packets m now (k ∷ ks) (p ∷ ps) c =
    rw ((c.0).offset, (c.0).bytes, arrivals_of_packets m now ks ps c.1) refl

missing-All :
    (now rounds k sz : ℕ) (bits : List Bool)
    → All (λ kt. kt.0 * fragment_size < sz) (map (at_time now) (missing rounds k sz bits))
unfolding missing
missing-All now zero k sz bits = tt
missing-All now (suc rounds) k sz bits = ground (arith, missing-All now rounds (suc k) sz bits)

-- Each fragment that is not acked is missing.
missing-Listed :
    (now rounds k j sz : ℕ) (bits : List Bool)
    → 9 ≤ k + rounds
    → k ≤ j
    → j * fragment_size < sz
    → sz ≤ 8192
    → length bits ≡ max_fragments
    → get_elem? bits j ≡ some false
    → Listed j (map (at_time now) (missing rounds k sz bits))
unfolding missing
missing-Listed now zero k j sz bits n le lt small wide e = absurd (omega arith)
missing-Listed now (suc rounds) k j sz bits n le lt small wide e =
    let same : k ≡ j → get_elem? bits k ≡ get_elem? bits j = ap (get_elem? bits) in
    ground (arith, same, lt_get_elem? bits k, missing-Listed now rounds (suc k) j sz bits)

-- For a message of at most 8192 bytes under an id of 64 bits, and a receiver whose marked fragments
-- agree with it: the sender that takes the receiver's acks flushes packets that, once they arrive,
-- complete the message with the bytes that were sent.
pub transfer_completes :
    (entropy : ℕ → Entropy) (m : OutboundMessage) (r : InboundMessage) (d sent received : ℕ)
    → ((i : ℕ) → IsEntropy (entropy i))
    → length m.content ≤ 8192
    → m.msg_id < 2 ^ 64
    → Agrees m.content r
    → (ps : List Packet) × (r' : InboundMessage) × (flush_unacked entropy d sent
          (ack (acks_bitmask r) m)
        ≡ some (ps, record (ack (acks_bitmask r) m) { last_flush = sent }))
      × (handle_all (map (arrival received) ps) r ≡ some r')
      × (is_completed r' ≡ some true)
      × (r'.content ≡ m.content)
unfolding ack
transfer_completes entropy m r d sent received good small id_fits a =
    let same = ack-acks_bitmask m r a.wide in
    let (ps, flushed, carried) =
      flush_unacked_lem entropy good (ack (acks_bitmask r) m) small id_fits
        (ap length same ∙ a.wide) d sent in
    let ks = missing 9 0 (length m.content) r.acked in
    let carried' =
      subst (λ bits. AllCarry (ack (acks_bitmask r) m) (missing 9 0 (length m.content) bits) ps)
        same carried in
    let (r', handled, a', keep, new) =
      handle_all-Agrees m.content small (map (at_time received) ks) r
        (missing-All received 9 0 (length m.content) r.acked) a in
    let done =
      (all_acked_iff next64 next64-Counts (length r'.content) r'.acked a'.wide).1
        (λ k lt. every_ack a' keep new k (rw (← a'.same_length) lt)) in
    (
      ps,
      r',
      flushed,
      ap (λ xs. handle_all xs r)
            (arrivals_of_packets (ack (acks_bitmask r) m) received ks ps carried')
          ∙ handled,
      (unfold is_completed in done),
      is_completed-eq m.content small r' a' (unfold is_completed in done),
    )
  where
    every_ack :
        {r' : InboundMessage}
        → Agrees m.content r'
        → ((k : ℕ) → get_elem? r.acked k ≡ some true → get_elem? r'.acked k ≡ some true)
        → ((k : ℕ)
            → Listed k (map (at_time received) (missing 9 0 (length m.content) r.acked))
            → get_elem? r'.acked k ≡ some true)
        → (k : ℕ) → k * fragment_size < length m.content
        → get_elem? r'.acked k ≡ some true
    every_ack {r'} a' keep new k lt =
        let (b, e) = lt_get_elem? r.acked k (omega (arith, a.wide)) in
        elim (Bool-cases b) [
          | inl t ↦ keep k (e ∙ ap some t)
          | inr f ↦ new k (
              missing-Listed received 9 0 k (length m.content) r.acked (omega arith) (omega arith)
                lt small a.wide (e ∙ ap some f))
        ]
