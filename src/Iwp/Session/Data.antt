-- ===== src/Iwp/Session/Data.antt =====
-- HandleDATA of llarp/iwp/session.cpp and HandleData of message_buffer.cpp, for any packet.
use bittoro_network.Prelude.{
  ℕ, ◌+◌, ◌-◌, ◌/◌, ◌<◌, ◌≤◌, ◌≡◌, refl, ◌∙◌, ◌↔◌, List, some, none, true, false, ltb,
  if◌then◌else◌, length, set, length-set, arith, Bool-cases, inl, inr, Option-cases, dec_lt,
}
use bittoro_network.Prelude.Bytes.{
  slice, be_value, slice?-eq-some, write_at, length-write_at, length-slice,
}
use bittoro_network.Prelude.Assoc.{find, erase, assign}
use bittoro_network.Iwp.Packet.{Packet, fragment_size}
use bittoro_network.Iwp.Fragments.{max_fragments, next64}
use bittoro_network.Iwp.Fragments.Loop.{all_acked_total, next64-Counts}
use bittoro_network.Iwp.Inbound.{InboundMessage, handle_data, is_completed, verify}
use bittoro_network.Iwp.Session.{Session, Env}
use bittoro_network.Iwp.Session.Handlers.{known_data, unknown_data, handle_data_packet, finish}

module _ (idx : ℕ) (buf : List ℕ) (now : ℕ) (m : InboundMessage)
    (wide : length m.acked ≡ max_fragments) where
  -- With a bitset of eight bits HandleData throws exactly for a fragment that lies within the message
  -- at an offset of 8192 or more.
  pub handle_data_faults :
      (handle_data idx buf now m ≡ none) ↔ ((idx + length buf ≤ length m.content) × (8192 ≤ idx))
  unfolding handle_data
  handle_data_faults = (λ h. (ground arith, ground arith), λ h. ground arith)

  handle_data_sizes :
      length m.content < 8192
      → (m' : InboundMessage) × (handle_data idx buf now m ≡ some m')
        × (length m'.content ≡ length m.content)
        × (length m'.acked ≡ max_fragments)
  unfolding handle_data
  handle_data_sizes small = elim (Bool-cases (ltb (length m.content) (idx + length buf))) [
    | inl e ↦ (m, rw e refl, refl, wide)
    | inr e ↦
        let m' = record m {
          content = write_at idx buf m.content;
          acked = set m.acked (idx / fragment_size) true;
          last_active_at = now;
        } in
        (
          m',
          ground arith,
          length-write_at idx buf m.content,
          length-set m.acked (idx / fragment_size) true ∙ wide,
        )
  ]

-- Every message that is being received is below the limit, with a bitset of the full width.
abbrev pub AllSmall : Session → Type 0
AllSmall s =
    (j : ℕ) (m : InboundMessage)
    → find j s.rx_msgs ≡ some m
    → (length m.content < 8192) × (length m.acked ≡ max_fragments)

known_data_total :
    (env : Env) (id offset : ℕ) (buf : List ℕ) (m : InboundMessage) (s : Session)
    → length m.content < 8192
    → length m.acked ≡ max_fragments
    → (s' : Session) × (known_data env id offset buf m s ≡ some s')
unfolding known_data
known_data_total env id offset buf m s small wide =
    let (m', e, size, wide') = handle_data_sizes offset buf env.now m wide small in
    let (done, d) =
      all_acked_total next64 next64-Counts (length m'.content) m'.acked wide' (omega arith) in
    let d' : is_completed m' ≡ some done = unfold is_completed in d in
    let failed = record s { rx_msgs = erase id s.rx_msgs } in
    let kept = record s { rx_msgs = assign id m' s.rx_msgs } in
    (
      if done then (if verify env.shorthash m' then finish env id m' s else failed) else kept,
      rw (e, d') refl,
    )

module _ (env : Env) (p : Packet) (s : Session) (long : 76 ≤ length p) where
  abbrev id_of : ℕ
  id_of = be_value (slice 68 8 p)

  abbrev offset_of : ℕ
  offset_of = be_value (slice 66 2 p)

  abbrev bytes_of : List ℕ
  bytes_of = slice 76 (length p - 76) p

  abbrev heard : Session
  heard = record s { last_rx = env.now }

  handle_data_packet_known :
      (m : InboundMessage)
      → find id_of s.rx_msgs ≡ some m
      → handle_data_packet env p s ≡ known_data env id_of offset_of bytes_of m heard
  unfolding handle_data_packet
  handle_data_packet_known m known =
      let e₁ = slice?-eq-some 66 2 p (omega arith) in
      let e₂ = slice?-eq-some 68 8 p (omega arith) in
      let e₃ = slice?-eq-some 76 (length p - 76) p (omega arith) in
      let l : ltb (length p) 76 ≡ false = ground arith in rw (l, e₁, e₂, e₃, known)

  handle_data_packet_unknown :
      find id_of s.rx_msgs ≡ none → handle_data_packet env p s ≡ some (unknown_data env id_of heard)
  unfolding handle_data_packet
  handle_data_packet_unknown unknown =
      let e₁ = slice?-eq-some 66 2 p (omega arith) in
      let e₂ = slice?-eq-some 68 8 p (omega arith) in
      let e₃ = slice?-eq-some 76 (length p - 76) p (omega arith) in
      let l : ltb (length p) 76 ≡ false = ground arith in rw (l, e₁, e₂, e₃, unknown)

handle_data_packet_short :
    (env : Env) (p : Packet) (s : Session) → length p < 76 → handle_data_packet env p s ≡ some s
unfolding handle_data_packet
handle_data_packet_short env p s short = let l : ltb (length p) 76 ≡ true = ground arith in rw l

-- While every message that is being received is shorter than 8192 bytes and has a bitset of eight
-- bits, no DATA packet, whatever its bytes, makes the session throw or read outside the packet.
pub handle_data_packet_total :
    (env : Env) (p : Packet) (s : Session)
    → AllSmall s
    → (s' : Session) × (handle_data_packet env p s ≡ some s')
handle_data_packet_total env p s small = elim (dec_lt (length p) 76) [
  | yes short ↦ (s, handle_data_packet_short env p s short)
  | no long ↦ elim (Option-cases (find (be_value (slice 68 8 p)) s.rx_msgs)) [
    | inl e ↦ (
      unknown_data env (be_value (slice 68 8 p)) (heard env p s (omega arith)),
      handle_data_packet_unknown env p s (omega arith) e,
    )
    | inr (m, e) ↦
        let (fits, wide) = small (be_value (slice 68 8 p)) m e in
        let (s', k) =
          known_data_total env (be_value (slice 68 8 p)) (be_value (slice 66 2 p))
            (slice 76 (length p - 76) p) m (record s { last_rx = env.now }) fits wide in
        (s', handle_data_packet_known env p s (omega arith) m e ∙ k)
  ]
]

-- A DATA packet for a message that is being received, with a fragment that lies within the message
-- at an offset of 8192 or more, makes the session throw: its bitset has eight bits.
pub handle_data_packet_throws :
    (env : Env) (p : Packet) (s : Session) (m : InboundMessage)
    → 76 ≤ length p
    → find (be_value (slice 68 8 p)) s.rx_msgs ≡ some m
    → length m.acked ≡ max_fragments
    → 8192 ≤ be_value (slice 66 2 p)
    → be_value (slice 66 2 p) + (length p - 76) ≤ length m.content
    → handle_data_packet env p s ≡ none
handle_data_packet_throws env p s m long known wide far inside =
    let size : length (slice 76 (length p - 76) p) ≡ length p - 76 =
      length-slice 76 (length p - 76) p (omega arith) in
    let thrown =
      (handle_data_faults (be_value (slice 66 2 p)) (slice 76 (length p - 76) p) env.now m wide).1
        (omega (arith, size), far) in
    handle_data_packet_known env p s long m known ∙ (unfold known_data in rw thrown)
