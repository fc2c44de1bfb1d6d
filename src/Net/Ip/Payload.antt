-- ===== src/Net/Ip/Payload.antt =====
-- llarp/net/ip.cpp: which checksum of the protocol above UpdateIPv4Address changes.
use bittoro_network.Prelude.{
  ℕ, ◌+◌, ◌-◌, ◌*◌, ◌%◌, ◌≤◌, ◌≡◌, ◌⊎◌, refl, List, length, Bool, true, false, ◌&&◌, ◌||◌, not, leb,
  ltb, inl, inr, Bool-cases, ◌==◌, if◌then◌else◌, arith, subst,
}
use bittoro_network.Net.Ip.{
  Change, delta, tcp_sum, load16, store16, byte_at, delta_checksum_ipv4_tcp,
  delta_checksum_ipv4_udp, update_payload,
}
use bittoro_network.Net.Ip.Words.{twice, twice_lem}
use bittoro_network.Net.Ip.Delta.{
  IsBytes, InRange, Stands, load16_bound, delta-Stands, tcp_sum-Stands,
}

-- Do the bytes of a fragment hold the field at this offset of the whole payload?
abbrev pub holds : ℕ → ℕ → ℕ → Bool
holds psz fragoff field = leb fragoff field && leb (field - fragoff + 2) psz

-- The offset of this fragment in the payload
abbrev pub fragment_offset : List ℕ → ℕ
fragment_offset b = (256 * byte_at 6 b + byte_at 7 b) % 8192 * 8

-- Does the packet, with so long a header, carry a checksum of the protocol above: TCP, DCCP, or UDP
-- and UDP-Lite if it is not 0, which stands for none?
abbrev pub carries : ℕ → List ℕ → Bool
carries ihs b =
    let psz = length b - ihs in
    let fragoff = fragment_offset b in
    let protocol = byte_at 9 b in
    if protocol == 6
    then holds psz fragoff 16
    else (if protocol == 17 || protocol == 136
        then holds psz fragoff 6 && not (load16 (ihs + 6) b == 0)
        else (if protocol == 33 then holds psz fragoff 6 else false))

-- The packet is left as it is, or one word of its payload gets a sum that stands for the old one.
abbrev pub Outcome : ℕ → Change → List ℕ → Bool → List ℕ → Type 0
Outcome k a b c after =
    ((c ≡ false) × (after ≡ b))
    ⊎ ((c ≡ true)
        × (j : ℕ) × (v : ℕ) × (after ≡ store16 (twice j) v b)
        × (k ≤ j)
        × (twice j + 2 ≤ length b)
        × Stands a (load16 (twice j) b) v)

skips_lem :
    (psz fragoff field : ℕ)
    → (ltb field fragoff || ltb psz (field - fragoff + 2)) ≡ not (holds psz fragoff field)
skips_lem psz fragoff field = ground arith

holds_lem :
    (psz fragoff field : ℕ)
    → holds psz fragoff field ≡ true
    → (fragoff ≤ field) × (field - fragoff + 2 ≤ psz)
holds_lem psz fragoff field h = (ground arith, ground arith)

module _ (a : Change) (range : InRange a) (k : ℕ) (b : List ℕ) (bytes : IsBytes b)
    (fits : twice k ≤ length b) (f : ℕ) where
  tcp_outcome :
      (field half : ℕ)
      → field ≡ half + half
      → Outcome k a b
          (holds (length b - twice k) (f * 8) field)
          (delta_checksum_ipv4_tcp (twice k) (length b - twice k) (f * 8) field a b)
  unfolding delta_checksum_ipv4_tcp
  tcp_outcome field half even = elim (Bool-cases (holds (length b - twice k) (f * 8) field)) [
    | inl e ↦
        let (before, inside) = holds_lem (length b - twice k) (f * 8) field e in
        let j = k + half - f * 4 in
        let off : twice k + field - f * 8 ≡ twice j = omega (arith, twice_lem k, twice_lem j) in
        let old = load16 (twice j) b in
        inr (
          e,
          j,
          tcp_sum (delta a old),
          rw (skips_lem (length b - twice k) (f * 8) field, e, off) refl,
          omega arith,
          omega (arith, twice_lem k, twice_lem j),
          tcp_sum-Stands a old (delta a old)
              (delta-Stands a old range (load16_bound (twice j) b bytes)),
        )
    | inr e ↦ inl (e, rw (skips_lem (length b - twice k) (f * 8) field, e) refl)
  ]

  udp_outcome :
      Outcome k a b
        (holds (length b - twice k) (f * 8) 6 && not (load16 (twice k + 6) b == 0))
        (delta_checksum_ipv4_udp (twice k) (length b - twice k) (f * 8) a b)
  unfolding delta_checksum_ipv4_udp
  udp_outcome = elim (Bool-cases (holds (length b - twice k) (f * 8) 6)) [
    | inl e ↦
        let (before, inside) = holds_lem (length b - twice k) (f * 8) 6 e in
        let j = k + 3 in
        let off : twice k + 6 ≡ twice j = omega (arith, twice_lem k, twice_lem j) in
        let old = load16 (twice j) b in
        let open_guard : (ltb 6 (f * 8) || ltb (length b - twice k) 8) ≡ false = ground arith in
        elim (Bool-cases (load16 (twice k + 6) b == 0)) [
          | inl unset ↦ inl (rw (e, unset) refl, rw (open_guard, unset) refl)
          | inr set ↦ inr (
            rw (e, set) refl,
            j,
            delta a old,
            rw (open_guard, set, off) refl,
            omega arith,
            omega (arith, twice_lem k, twice_lem j),
            delta-Stands a old range (load16_bound (twice j) b bytes),
          )
        ]
    | inr e ↦
        let shut : (ltb 6 (f * 8) || ltb (length b - twice k) 8) ≡ true = ground arith in
        inl (rw e refl, rw shut refl)
  ]

  -- Of the protocols that have one, the checksum is changed where the fragment holds it.
  payload_outcome :
      f ≡ (256 * byte_at 6 b + byte_at 7 b) % 8192
      → Outcome k a b (carries (twice k) b) (update_payload (twice k) a b)
  unfolding update_payload
  payload_outcome is =
      let inside : leb (twice k) (length b) ≡ true = ground arith in
      let tcp = λ (field half : ℕ) (even : field ≡ half + half).
        subst
          (λ f.
            Outcome k a b (holds (length b - twice k) (f * 8) field)
              (delta_checksum_ipv4_tcp (twice k) (length b - twice k) (f * 8) field a b))
          is (tcp_outcome field half even) in
      let udp =
        subst
          (λ f.
            Outcome k a b
              (holds (length b - twice k) (f * 8) 6 && not (load16 (twice k + 6) b == 0))
              (delta_checksum_ipv4_udp (twice k) (length b - twice k) (f * 8) a b))
          is udp_outcome in
      elim (Bool-cases (byte_at 9 b == 6)) [
        | inl e ↦ rw (inside, e) (tcp 16 8 refl)
        | inr e ↦ elim (Bool-cases (byte_at 9 b == 17 || byte_at 9 b == 136)) [
          | inl e' ↦ rw (inside, e, e') udp
          | inr e' ↦ elim (Bool-cases (byte_at 9 b == 33)) [
            | inl e'' ↦ rw (inside, e, e', e'') (tcp 6 3 refl)
            | inr e'' ↦ rw (inside, e, e', e'') (inl (refl, refl))
          ]
        ]
      ]

pub update_payload-outcome :
    (a : Change) (k : ℕ) (b : List ℕ)
    → InRange a
    → IsBytes b
    → twice k ≤ length b
    → Outcome k a b (carries (twice k) b) (update_payload (twice k) a b)
update_payload-outcome a k b range bytes fits =
    payload_outcome a range k b bytes fits ((256 * byte_at 6 b + byte_at 7 b) % 8192) refl
