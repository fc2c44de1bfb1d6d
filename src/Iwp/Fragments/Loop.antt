-- ===== src/Iwp/Fragments/Loop.antt =====
-- What the loop over the fragments of a message finds.
use bittoro_network.Prelude.{
  ℕ, zero, suc, ◌+◌, ◌*◌, ◌/◌, ◌<◌, ◌≤◌, ◌≡◌, List, Bool, true, false, none, some, arith, length,
  get_elem?, ltb, if◌then◌else◌, get_elem?_lt, lt_get_elem?, ap, ◌↔◌,
}
use bittoro_network.Iwp.Packet.{fragment_size}
use bittoro_network.Iwp.Fragments.{all_acked, max_fragments, next16, next64}

-- Every fragment of a message of `sz` bytes is acked.
abbrev pub AllAcked : ℕ → List Bool → Type 0
AllAcked sz bits = (k : ℕ) → k * fragment_size < sz → get_elem? bits k ≡ some true

-- Up to the ninth round the loop's variable does not wrap.
abbrev pub Counts : (ℕ → ℕ) → Type 0
Counts next = (k : ℕ) → k < 9 → next (k * fragment_size) ≡ suc k * fragment_size

all_acked_step :
    (next : ℕ → ℕ) (rounds k sz : ℕ) (bits : List Bool)
    → all_acked next (suc rounds) (k * fragment_size) sz bits ≡ (
        if ltb (k * fragment_size) sz
        then elim (get_elem? bits k) [
          | none ↦ none
          | some b ↦
              if b then all_acked next rounds (next (k * fragment_size)) sz bits else some false
        ]
        else some true)
unfolding all_acked
all_acked_step next rounds k sz bits =
    let e : k * fragment_size / fragment_size ≡ k = omega arith in rw e

module _ (next : ℕ → ℕ) (counts : Counts next) (sz : ℕ) (bits : List Bool)
    (wide : length bits ≡ max_fragments) where
  sound_from :
      (rounds k j : ℕ)
      → all_acked next rounds (k * fragment_size) sz bits ≡ some true
      → k ≤ j
      → j * fragment_size < sz
      → get_elem? bits j ≡ some true
  sound_from zero k j h le lt = unfold all_acked in ground arith
  sound_from (suc rounds) k j h le lt =
      let same : k ≡ j → get_elem? bits k ≡ get_elem? bits j = ap (get_elem? bits) in
      ground (
        arith,
        all_acked_step next rounds k sz bits,
        counts k,
        get_elem?_lt bits k {a = true},
        sound_from rounds (suc k) j,
        same,
      )

  complete_from :
      AllAcked sz bits
      → (rounds k : ℕ) → 9 ≤ k + rounds
      → k ≤ 8
      → all_acked next rounds (k * fragment_size) sz bits ≡ some true
  complete_from all zero k n le = absurd (omega arith)
  complete_from all (suc rounds) k n le = ground (
    arith,
    all_acked_step next rounds k sz bits,
    counts k,
    get_elem?_lt bits k {a = true},
    all k,
    complete_from all rounds (suc k),
  )

  total_from :
      (rounds k : ℕ)
      → 9 ≤ k + rounds
      → sz ≤ 8192
      → k ≤ 8
      → (b : Bool) × (all_acked next rounds (k * fragment_size) sz bits ≡ some b)
  total_from zero k n small le = absurd (omega arith)
  total_from (suc rounds) k n small le = ground (
    arith,
    all_acked_step next rounds k sz bits,
    counts k,
    lt_get_elem? bits k,
    total_from rounds (suc k),
  )

  -- The loop returns, for a message within the limit.
  pub all_acked_total : sz ≤ 8192 → (b : Bool) × (all_acked next 9 0 sz bits ≡ some b)
  all_acked_total small = total_from 9 0 (omega arith) small (omega arith)

  -- And it finds exactly whether every fragment is acked.
  pub all_acked_iff : (all_acked next 9 0 sz bits ≡ some true) ↔ AllAcked sz bits
  all_acked_iff = (
    λ h k lt. sound_from 9 0 k h (omega arith) lt,
    λ all. complete_from all 9 0 (omega arith) (omega arith),
  )

pub next16-Counts : Counts next16
next16-Counts k h = omega arith

pub next64-Counts : Counts next64
next64-Counts k h = omega arith
