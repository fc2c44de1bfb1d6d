-- ===== src/Iwp/Session/Macks.antt =====
-- SendMACK and HandleMACK of llarp/iwp/session.cpp.
use bittoro_network.Prelude.{
  ℕ, zero, suc, ◌+◌, ◌-◌, ◌*◌, ◌%◌, ◌^◌, ◌<◌, ◌≤◌, ◌≡◌, refl, sym, ap, ◌∙◌, List, [], ◌∷◌, ◌++◌,
  some, false, ltb, length, get_elem?, arith, All, drop, take, min, length-append, length_zero, inl,
  if_rule, dec_lt, lt→ltb, length-drop, drop-append, drop-drop,
}
use mathlib.Core.List.{append_assoc}
use bittoro_network.Prelude.Bytes.{
  slice, be_bytes, slice?-eq-some, slice-append, be_value-be_bytes, length-write_at,
  length-be_bytes, drop-write_at, get_elem?-write_at_in, get_elem?-write_at_out, write_at,
}
use bittoro_network.Iwp.Packet.{
  Packet, Entropy, IsEntropy, create_packet, mack, length-create_packet,
}
use bittoro_network.Iwp.Session.{
  Session, Env, encrypt_and_send, encrypt_worker, send_ll, is_established, mack_bytes, mack_packet,
  send_mack, send_mack_rounds, max_acks_in_mack,
}
use bittoro_network.Iwp.Session.Handlers.{deliver, mack_loop, handle_mack}

-- The ids of a batch, one after another.
pub deliver_each : List (ℕ × Unit {0}) → Session → Session
deliver_each [] s = s
deliver_each ((id, _) ∷ ids) s = deliver_each ids (deliver id s)

length-mack_bytes : (ids : List (ℕ × Unit {0})) → length (mack_bytes ids) ≡ length ids * 8
unfolding mack_bytes
length-mack_bytes [] = refl
length-mack_bytes ((id, _) ∷ ids) = omega (
  arith,
  length-append (be_bytes 8 id) (mack_bytes ids),
  length-be_bytes 8 id,
  length-mack_bytes ids,
)

mack_loop_each :
    (ids : List (ℕ × Unit {0})) (ptr : ℕ) (p rest : List ℕ) (s : Session)
    → All (λ id. id.0 < 2 ^ 64) ids
    → drop ptr p ≡ mack_bytes ids ++ rest
    → mack_loop (length ids) ptr p s ≡ some (deliver_each ids s)
unfolding mack_loop deliver_each mack_bytes
mack_loop_each [] ptr p rest s fits e = refl
mack_loop_each ((id, _) ∷ ids) ptr p rest s fits e =
    let split : drop ptr p ≡ be_bytes 8 id ++ (mack_bytes ids ++ rest) =
      e ∙ append_assoc (be_bytes 8 id) (mack_bytes ids) rest in
    let size = length-be_bytes 8 id in
    let long : ptr + 8 ≤ length p = omega (
      arith,
      length-drop ptr p,
      ap length split,
      length-append (be_bytes 8 id) (mack_bytes ids ++ rest),
    ) in
    let here : slice ptr 8 p ≡ be_bytes 8 id =
      rw size at (slice-append ptr p (be_bytes 8 id) (mack_bytes ids ++ rest) split) in
    let next : drop (ptr + 8) p ≡ mack_bytes ids ++ rest =
      sym (drop-drop ptr 8 p)
      ∙ ap (drop 8) split
      ∙ (rw size at (drop-append (be_bytes 8 id) (mack_bytes ids ++ rest))) in
    rw (slice?-eq-some ptr 8 p long, here, be_value-be_bytes 8 id fits.0)
      (mack_loop_each ids (ptr + 8) p rest (deliver id s) fits.1 next)

-- What SendMACK packs HandleMACK unpacks: of a batch of at most 128 ids of 64 bits, each id is
-- delivered at the sender, in order.
pub handle_mack-mack_packet :
    (env : Env) (e : Entropy) (ids : List (ℕ × Unit {0})) (s : Session)
    → IsEntropy e
    → length ids ≤ max_acks_in_mack
    → All (λ id. id.0 < 2 ^ 64) ids
    → handle_mack env (mack_packet e ids) s ≡ some (deliver_each ids s)
unfolding handle_mack mack_packet
handle_mack-mack_packet env e ids s good batch fits =
    let n = length ids in
    let p0 = create_packet e mack (1 + n * 8) 16 16 in
    let p1 = write_at 66 (n % 256 ∷ []) p0 in
    let p = write_at 67 (mack_bytes ids) p1 in
    let l0 = length-create_packet e mack (1 + n * 8) 16 16 good in
    let l1 = length-write_at 66 (n % 256 ∷ []) p0 in
    let l2 = length-write_at 67 (mack_bytes ids) p1 in
    let lb = length-mack_bytes ids in
    let count : get_elem? p 66 ≡ some n =
      get_elem?-write_at_out 67 (mack_bytes ids) p1 66 (inl (omega arith))
      ∙ get_elem?-write_at_in 66 (n % 256 ∷ []) p0 0 (omega arith) (omega (arith, l0))
      ∙ ap some (omega arith) in
    let t₁ : ltb (length p) 67 ≡ false = ground (arith, l0, l1, l2) in
    let t₂ : ltb (length p) (67 + n * 8) ≡ false = ground (arith, l0, l1, l2) in
    rw (t₁, count, t₂)
      (mack_loop_each ids 67 p (drop (67 + length (mack_bytes ids)) p1) s fits
        (drop-write_at 67 (mack_bytes ids) p1 (omega (arith, l0, l1, lb))))

encrypt_worker-send_macks :
    (env : Env) (ps : List Packet) (s : Session)
    → (encrypt_worker env ps s).send_macks ≡ s.send_macks
unfolding encrypt_worker send_ll
encrypt_worker-send_macks env [] s = refl
encrypt_worker-send_macks env (p ∷ ps) s =
    encrypt_worker-send_macks env ps (send_ll env (env.seal p) s)

encrypt_and_send-send_macks :
    (env : Env) (p : Packet) (s : Session) → (encrypt_and_send env p s).send_macks ≡ s.send_macks
unfolding encrypt_and_send
encrypt_and_send-send_macks env p s =
    let taken = record s { encrypt_next = []; made = s.made + 1 } in
    if_rule (λ (t : Session). t.send_macks ≡ s.send_macks) (is_established s) refl
      (encrypt_worker-send_macks env (s.encrypt_next ++ (p ∷ [])) taken)

send_mack_rounds_empty :
    (env : Env) (n : ℕ) (s : Session)
    → length s.send_macks ≤ n
    → length (send_mack_rounds env n s).send_macks ≡ 0
unfolding send_mack_rounds
send_mack_rounds_empty env zero s h = omega arith
send_mack_rounds_empty env (suc n) s h =
    let num_acks = min (length s.send_macks) max_acks_in_mack in
    let packet = mack_packet (env.entropy s.made) (take num_acks s.send_macks) in
    let s' = record s { send_macks = drop num_acks s.send_macks } in
    let sent = encrypt_and_send env packet s' in
    let fewer : length sent.send_macks ≡ length s.send_macks - num_acks =
      ap length (encrypt_and_send-send_macks env packet s') ∙ length-drop num_acks s.send_macks in
    elim (dec_lt 0 (length s.send_macks)) [
      | yes some_left ↦
          rw (lt→ltb _ _ some_left) (send_mack_rounds_empty env n sent (omega (arith, fewer)))
      | no none_left ↦
          let l : ltb 0 (length s.send_macks) ≡ false = ground arith in rw l (omega arith)
    ]

-- The loop of SendMACK ends: after it no ack is pending, however many there were.
pub send_mack_empties : (env : Env) (s : Session) → (send_mack env s).send_macks ≡ []
unfolding send_mack
send_mack_empties env s =
    length_zero _ (send_mack_rounds_empty env (length s.send_macks) s (omega arith))
