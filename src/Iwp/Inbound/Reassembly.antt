-- ===== src/Iwp/Inbound/Reassembly.antt =====
-- A message is rebuilt from its fragments, in whatever order and however often they come.
use bittoro_network.Prelude.{
  ℕ, suc, ◌+◌, ◌-◌, ◌*◌, ◌/◌, ◌<◌, ◌≤◌, ◌≡◌, ◌≢◌, refl, sym, ap, ◌∙◌, ◌⊎◌, inl, inr, List, [], ◌∷◌,
  Option, some, true, false, length, get_elem?, set, ◌>>=◌, arith, get_elem?_ge, list_ext,
  get_elem?-set_self, get_elem?-set_ne, length-set, length-replicate, All, map, dec_lt, ℕ_discrete,
  get_elem?-replicate,
}
use bittoro_network.Prelude.Bytes.{
  write_at, length-write_at, length-slice, get_elem?-slice, get_elem?-write_at_in,
  get_elem?-write_at_out,
}
use bittoro_network.Iwp.Packet.{fragment_size}
use bittoro_network.Iwp.Fragments.{fragment, fragment_length, max_fragments, next64}
use bittoro_network.Iwp.Fragments.Loop.{all_acked_iff, next64-Counts}
use bittoro_network.Iwp.Inbound.{InboundMessage, handle_data, is_completed, init}

-- What has arrived of `src`: the bytes of each acked fragment are those of `src`.
pub record Agrees (src : List ℕ) (m : InboundMessage) : Type 0 where
  pub same_length : length m.content ≡ length src
  pub wide : length m.acked ≡ max_fragments
  pub same_bytes :
      (k i : ℕ)
      → get_elem? m.acked k ≡ some true
      → k * fragment_size ≤ i
      → i < suc k * fragment_size
      → get_elem? m.content i ≡ get_elem? src i

module _ (src : List ℕ) (small : length src ≤ 8192) where
  pub init-Agrees : (msgid now : ℕ) (h : List ℕ) → Agrees src (init msgid (length src) h now)
  unfolding init
  init-Agrees msgid now h = record {
    same_length = length-replicate (length src) 0;
    wide = refl;
    same_bytes = λ k i a le lt.
        absurd (ground (arith, get_elem?-replicate max_fragments false k {b = true}));
  }

  length-fragment :
      (k : ℕ)
      → k * fragment_size < length src
      → length (fragment src k) ≡ fragment_length (length src) (k * fragment_size)
  length-fragment k inside =
      length-slice (k * fragment_size) (fragment_length (length src) (k * fragment_size)) src
        (ground arith)

  fragment-same :
      (k i : ℕ) (xs : List ℕ)
      → k * fragment_size < length src
      → length xs ≡ length src
      → k * fragment_size ≤ i
      → i < suc k * fragment_size
      → get_elem? (write_at (k * fragment_size) (fragment src k) xs) i ≡ get_elem? src i
  fragment-same k i xs inside same le lt =
      let n = fragment_length (length src) (k * fragment_size) in
      let size = length-fragment k inside in
      let room : n ≤ length src - k * fragment_size = ground arith in
      elim (dec_lt i (k * fragment_size + n)) [
        | yes p ↦
            let e : k * fragment_size + (i - k * fragment_size) ≡ i = omega arith in
            ap (get_elem? (write_at (k * fragment_size) (fragment src k) xs)) (sym e)
            ∙ get_elem?-write_at_in (k * fragment_size) (fragment src k) xs (i - k * fragment_size)
                (omega arith) (omega arith)
            ∙ get_elem?-slice (k * fragment_size) n src (i - k * fragment_size) (omega arith)
            ∙ ap (get_elem? src) e
        | no q ↦
            let past : length src ≤ i = ground arith in
            get_elem?_ge _ i
              (omega (arith, length-write_at (k * fragment_size) (fragment src k) xs))
            ∙ sym (get_elem?_ge src i past)
      ]

  -- The bytes of another fragment lie outside of this one.
  apart :
      (j k i : ℕ)
      → k * fragment_size < length src
      → j ≢ k
      → j * fragment_size ≤ i
      → i < suc j * fragment_size
      → (i < k * fragment_size) ⊎ (k * fragment_size + length (fragment src k) ≤ i)
  apart j k i inside ne le lt =
      let short : length (fragment src k) ≤ fragment_size =
        ground (arith, length-fragment k inside) in
      elim (dec_lt j k) [ yes p ↦ inl (omega arith) | no q ↦ inr (omega arith) ]

  -- A fragment of `src` is accepted, and marked.
  pub handle_data-Agrees :
      (k now : ℕ) (m : InboundMessage)
      → k * fragment_size < length src
      → Agrees src m
      → (m' : InboundMessage) × (handle_data (k * fragment_size) (fragment src k) now m ≡ some m')
        × Agrees src m'
        × (m'.acked ≡ set m.acked k true)
  unfolding handle_data
  handle_data-Agrees k now m inside a = (
    record m {
      content = write_at (k * fragment_size) (fragment src k) m.content;
      acked = set m.acked k true;
      last_active_at = now;
    },
    ground (arith, length-fragment k, number),
    record {
      same_length = length-write_at (k * fragment_size) (fragment src k) m.content ∙ a.same_length;
      wide = length-set m.acked k true ∙ a.wide;
      same_bytes = λ j i acked le lt. elim (ℕ_discrete j k) [
        | yes e ↦ fragment-same k i m.content inside a.same_length (omega arith) (omega arith)
        | no ne ↦
            let old : get_elem? m.acked j ≡ some true =
              sym (get_elem?-set_ne m.acked true (λ e. ne (sym e))) ∙ acked in
            get_elem?-write_at_out (k * fragment_size) (fragment src k) m.content i
              (apart j k i inside ne le lt)
            ∙ a.same_bytes j i old le lt
      ];
    },
    refl,
  )
    where
      number : k * fragment_size / fragment_size ≡ k
      number = omega arith

  -- A completed message is `src`.
  pub is_completed-eq :
      (m : InboundMessage) → Agrees src m → is_completed m ≡ some true → m.content ≡ src
  is_completed-eq m a done = list_ext m.content src a.same_length (λ i lt.
      a.same_bytes (i / fragment_size) i
        ((all_acked_iff next64 next64-Counts (length m.content) m.acked a.wide).0
          (unfold is_completed in done) (i / fragment_size) (omega arith))
        (omega arith) (omega arith))

-- The calls of HandleData for a series of arrivals: offset, bytes and time.
unfoldable pub handle_all : List (ℕ × List ℕ × ℕ) → InboundMessage → Option InboundMessage
handle_all [] m = some m
handle_all ((idx, buf, now) ∷ rest) m = handle_data idx buf now m >>= handle_all rest

-- Arrivals of the numbered fragments of a message, at their times.
abbrev pub arrivals : List ℕ → List (ℕ × ℕ) → List (ℕ × List ℕ × ℕ)
arrivals src = map (λ kt. (kt.0 * fragment_size, fragment src kt.0, kt.1))

abbrev pub Listed : ℕ → List (ℕ × ℕ) → Type 0
Listed k [] = ⊥
Listed k (kt ∷ rest) = (kt.0 ≡ k) ⊎ Listed k rest

module _ (src : List ℕ) (small : length src ≤ 8192) where
  pub handle_all-Agrees :
      (ks : List (ℕ × ℕ)) (m : InboundMessage)
      → All (λ kt. kt.0 * fragment_size < length src) ks
      → Agrees src m
      → (m' : InboundMessage) × (handle_all (arrivals src ks) m ≡ some m')
        × Agrees src m'
        × ((k : ℕ) → get_elem? m.acked k ≡ some true → get_elem? m'.acked k ≡ some true)
        × ((k : ℕ) → Listed k ks → get_elem? m'.acked k ≡ some true)
  unfolding handle_all
  handle_all-Agrees [] m v a = (m, refl, a, λ k h. h, λ k l. absurd l)
  handle_all-Agrees ((j, t) ∷ ks) m v a =
      let (m₁, e₁, a₁, set₁) = handle_data-Agrees src small j t m v.0 a in
      let (m₂, e₂, a₂, keep, new) = handle_all-Agrees ks m₁ v.1 a₁ in
      (
        m₂,
        rw e₁ e₂,
        a₂,
        λ k h. keep k (rw set₁ (mark_keeps k h)),
        λ k l. elim l [
          | inl e ↦
              keep k (rw set₁ (rw (← e) (get_elem?-set_self m.acked j true (in_range a.wide v.0))))
          | inr r ↦ new k r
        ],
      )
    where
      in_range : length m.acked ≡ 8 → j * fragment_size < length src → j < length m.acked
      in_range w h = omega arith

      mark_keeps :
          (k : ℕ) → get_elem? m.acked k ≡ some true → get_elem? (set m.acked j true) k ≡ some true
      mark_keeps k h = elim (ℕ_discrete j k) [
        | yes e ↦ rw (← e) (get_elem?-set_self m.acked j true (in_range a.wide v.0))
        | no ne ↦ get_elem?-set_ne m.acked true ne ∙ h
      ]

  -- The fragments of a message of at most 8192 bytes, in any order and with repetitions, are all
  -- accepted; once each of them has come the message is completed; and a completed message has the
  -- bytes that were sent.
  pub reassembly :
      (msgid now : ℕ) (h : List ℕ) (ks : List (ℕ × ℕ))
      → All (λ kt. kt.0 * fragment_size < length src) ks
      → (m : InboundMessage) × (handle_all (arrivals src ks) (init msgid (length src) h now)
          ≡ some m)
        × (((k : ℕ) → k * fragment_size < length src → Listed k ks) → is_completed m ≡ some true)
        × (is_completed m ≡ some true → m.content ≡ src)
  reassembly msgid now h ks v =
      let (m, e, a, _, new) =
        handle_all-Agrees ks (init msgid (length src) h now) v
          (init-Agrees src small msgid now h) in
      (
        m,
        e,
        (λ all.
            unfold is_completed in
            (all_acked_iff next64 next64-Counts (length m.content) m.acked a.wide).1
              (λ k lt. new k (all k (rw (← a.same_length) lt)))),
        is_completed-eq src small m a,
      )
