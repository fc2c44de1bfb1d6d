-- ===== src/Iwp/Outbound/Flush.antt =====
-- FlushUnAcked sends each fragment that is not acked, and no other.
use bittoro_network.Prelude.{
  ℕ, zero, suc, ◌+◌, ◌-◌, ◌*◌, ◌/◌, ◌^◌, ◌<◌, ◌≤◌, ◌≡◌, ap, ◌∙◌, List, [], ◌∷◌, Bool, true, false,
  some, none, ltb, if◌then◌else◌, length, get_elem?, ◌>>=◌, arith, lt_get_elem?, dec_lt,
}
use bittoro_network.Prelude.Bytes.{slice, be_value, be_value-be_bytes}
use bittoro_network.Iwp.Packet.{Packet, Entropy, IsEntropy, data_fragment, code, fragment_size}
use bittoro_network.Iwp.Fragments.{fragment, fragment_length, max_fragments, next16}
use bittoro_network.Iwp.Fragments.Loop.{next16-Counts}
use bittoro_network.Iwp.Outbound.{OutboundMessage, data_packet, flush_from, flush_unacked}
use bittoro_network.Iwp.Outbound.Layout.{data_packet_lem}

-- What a receiver reads of a DATA packet: its command, the offset, the id and the bytes.
pub record Carries (m : OutboundMessage) (k : ℕ) (p : Packet) : Type 0 where
  pub long : 76 ≤ length p
  pub command : get_elem? p 65 ≡ some (code data_fragment)
  pub offset : be_value (slice 66 2 p) ≡ k * fragment_size
  pub id : be_value (slice 68 8 p) ≡ m.msg_id
  pub bytes : slice 76 (length p - 76) p ≡ fragment m.content k

abbrev pub AllCarry : OutboundMessage → List ℕ → List Packet → Type 0
AllCarry m [] [] = Unit {0}
AllCarry m [] (p ∷ ps) = ⊥
AllCarry m (k ∷ ks) [] = ⊥
AllCarry m (k ∷ ks) (p ∷ ps) = Carries m k p × AllCarry m ks ps

-- The numbers from `k` on of the fragments that are not acked.
unfoldable pub missing : ℕ → ℕ → ℕ → List Bool → List ℕ
missing zero k sz bits = []
missing (suc rounds) k sz bits =
    let rest = missing rounds (suc k) sz bits in
    let body : List ℕ = elim (get_elem? bits k) [
      | none ↦ []
      | some b ↦ if b then rest else k ∷ rest
    ] in
    if ltb (k * fragment_size) sz then body else []

module _ (entropy : ℕ → Entropy) (good : (d : ℕ) → IsEntropy (entropy d)) (m : OutboundMessage)
    (small : length m.content ≤ 8192) (id_fits : m.msg_id < 2 ^ 64)
    (wide : length m.acked ≡ max_fragments) where
  data_packet-Carries :
      (d k : ℕ)
      → k * fragment_size < length m.content
      → Carries m k (data_packet (entropy d) m (k * fragment_size))
  data_packet-Carries d k inside =
      let (f₁, f₂, f₃, f₄, f₅) =
        data_packet_lem (entropy d) (good d) m (k * fragment_size) inside in
      record {
        long = omega (arith, f₅);
        command = f₄;
        offset = ap be_value f₁ ∙ be_value-be_bytes 2 (k * fragment_size) (omega arith);
        id = ap be_value f₂ ∙ be_value-be_bytes 8 m.msg_id id_fits;
        bytes =
            let size : length (data_packet (entropy d) m (k * fragment_size)) - 76
                ≡ fragment_length (length m.content) (k * fragment_size) =
              omega (arith, f₅) in
            rw size f₃;
      }

  flush_from_step :
      (rounds d k : ℕ)
      → flush_from entropy (suc rounds) m d (k * fragment_size) ≡ (
          if ltb (k * fragment_size) (length m.content)
          then elim (get_elem? m.acked k) [
            | none ↦ none
            | some b ↦
                if b
                then flush_from entropy rounds m d (next16 (k * fragment_size))
                else (flush_from entropy rounds m (suc d) (next16 (k * fragment_size)) >>= λ ps.
                    some (data_packet (entropy d) m (k * fragment_size) ∷ ps))
          ]
          else some [])
  unfolding flush_from
  flush_from_step rounds d k = let e : k * fragment_size / fragment_size ≡ k = omega arith in rw e

  flush_skips :
      (rounds d k : ℕ)
      → k * fragment_size < length m.content
      → k ≤ 8
      → get_elem? m.acked k ≡ some true
      → (flush_from entropy (suc rounds) m d (k * fragment_size)
          ≡ flush_from entropy rounds m d (suc k * fragment_size))
        × (missing (suc rounds) k (length m.content) m.acked
            ≡ missing rounds (suc k) (length m.content) m.acked)
  flush_skips rounds d k inside le e =
      (ground (arith, flush_from_step rounds d k, next16-Counts k), unfold missing in ground arith)

  flush_sends :
      (rounds d k : ℕ) (ps : List Packet)
      → k * fragment_size < length m.content
      → k ≤ 8
      → get_elem? m.acked k ≡ some false
      → flush_from entropy rounds m (suc d) (suc k * fragment_size) ≡ some ps
      → (flush_from entropy (suc rounds) m d (k * fragment_size)
          ≡ some (data_packet (entropy d) m (k * fragment_size) ∷ ps))
        × (missing (suc rounds) k (length m.content) m.acked
            ≡ k ∷ missing rounds (suc k) (length m.content) m.acked)
  flush_sends rounds d k ps inside le e f =
      (ground (arith, flush_from_step rounds d k, next16-Counts k), unfold missing in ground arith)

  flush_ends :
      (rounds d k : ℕ)
      → length m.content ≤ k * fragment_size
      → (flush_from entropy (suc rounds) m d (k * fragment_size) ≡ some [])
        × (missing (suc rounds) k (length m.content) m.acked ≡ [])
  flush_ends rounds d k out =
      (ground (arith, flush_from_step rounds d k), unfold missing in ground arith)

  flush_from-AllCarry :
      (rounds d k : ℕ)
      → 9 ≤ k + rounds
      → k ≤ 8
      → (ps : List Packet) × (flush_from entropy rounds m d (k * fragment_size) ≡ some ps)
        × AllCarry m (missing rounds k (length m.content) m.acked) ps
  flush_from-AllCarry zero d k n le = absurd (omega arith)
  flush_from-AllCarry (suc rounds) d k n le = elim (dec_lt (k * fragment_size) (length m.content)) [
    | yes inside ↦
        let (b, e) = lt_get_elem? m.acked k (omega arith) in
        by_ack inside b e (flush_from-AllCarry rounds d (suc k) (omega arith) (omega arith))
          (flush_from-AllCarry rounds (suc d) (suc k) (omega arith) (omega arith))
    | no out ↦ let (f, g) = flush_ends rounds d k (omega arith) in ([], f, rw g tt)
  ]
    where
      Sends : ℕ → ℕ → ℕ → Type 0
      Sends r d' k' =
          (ps : List Packet) × (flush_from entropy r m d' (k' * fragment_size) ≡ some ps)
          × AllCarry m (missing r k' (length m.content) m.acked) ps

      by_ack :
          k * fragment_size < length m.content
          → (b : Bool) → get_elem? m.acked k ≡ some b
          → Sends rounds d (suc k)
          → Sends rounds (suc d) (suc k)
          → Sends (suc rounds) d k
      by_ack inside true e (ps, f, c) _ =
          let (g, h) = flush_skips rounds d k inside le e in (ps, g ∙ f, rw h c)
      by_ack inside false e _ (ps, f, c) =
          let (g, h) = flush_sends rounds d k ps inside le e f in
          (
            data_packet (entropy d) m (k * fragment_size) ∷ ps,
            g,
            rw h (data_packet-Carries d k inside, c),
          )

  -- Of a message of at most 8192 bytes, under an id of 64 bits and with a bitset of eight bits, a
  -- flush returns, and sends one packet for each fragment that is not acked, in order, each with the
  -- offset, the id and the bytes of its fragment.
  pub flush_unacked_lem :
      (d now : ℕ)
      → (ps : List Packet) × (flush_unacked entropy d now m
          ≡ some (ps, record m { last_flush = now }))
        × AllCarry m (missing 9 0 (length m.content) m.acked) ps
  flush_unacked_lem d now =
      let (ps, f, c) = flush_from-AllCarry 9 d 0 (omega arith) (omega arith) in
      (ps, unfold flush_unacked in rw f, c)
