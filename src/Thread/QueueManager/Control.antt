-- ===== src/Thread/QueueManager/Control.antt =====
-- The constructor, disable, enable and size of llarp/util/thread/queue_manager.cpp under the
-- invariant.
use bittoro_network.Prelude.{
  ℕ, zero, suc, ◌+◌, ◌-◌, ◌*◌, ◌/◌, ◌^◌, ◌<◌, ◌≤◌, ◌≡◌, refl, ap, sym, ◌∙◌, subst, some, true, ◌==◌,
  replicate, get_elem?, arith, dec_lt, Bool-cases, inl, inr, ◌⊎◌,
}
use native.Mathlib.Omega.{div_fact, mod_fact}
use native.Mathlib.Nat.{mul-le-mul_right}
use bittoro_network.Thread.QueueManager.{
  QueueManager, ElementState, empty, encode_element, next_generation, discard_disabled_flag,
  is_disabled_flag_set, init, num_generations, disable, enable, size, cas_push, circular_difference,
}
use bittoro_network.Thread.QueueManager.Cells.{Sized, combined_index, combined-le}
use bittoro_network.Thread.QueueManager.Invariant.{Inv, slot_after, generation_after}

get_elem?-replicate : {A : Type 0} (n k : ℕ) (x : A) → k < n → get_elem? (replicate n x) k ≡ some x
get_elem?-replicate zero k x h = absurd (omega arith)
get_elem?-replicate (suc n) zero x h = refl
get_elem?-replicate (suc n) (suc k) x h = get_elem?-replicate n k x (omega arith)

quotient-le : (n c : ℕ) → 0 < c → n / c * c ≤ n
quotient-le n zero h = absurd (omega arith)
quotient-le n (suc c) h = grind (arith, div_fact n c, mod_fact n c)

three-le : (n c : ℕ) → 0 < c → 3 * c ≤ n → 3 ≤ n / c
three-le n zero h hc = absurd (omega arith)
three-le n (suc c) h hc = grind (arith, div_fact n c, mod_fact n c)

module _ (c : ℕ) (hc : 0 < c) (fits : 3 * c ≤ 2 ^ 31) where
  three_generations : 3 ≤ num_generations c
  unfolding num_generations
  three_generations = ground (arith, three-le (2 ^ 31) c hc fits)

  generations-lt : num_generations c ≤ 2 ^ 30
  unfolding num_generations
  generations-lt = ground arith

  generations_fit : num_generations c * c ≤ 2 ^ 31
  unfolding num_generations
  generations_fit =
      let below : num_generations c ≤ 2 ^ 31 / c = ground arith in
      grind (arith, quotient-le (2 ^ 31) c hc, below)

  restored : num_generations c - 1 + 1 ≡ num_generations c
  restored = omega (arith, three_generations)

  some_cells : num_generations c * c - 1 + 1 ≡ num_generations c * c
  some_cells =
      let one : 1 * c ≤ num_generations c * c =
        mul-le-mul_right c (omega (arith, three_generations)) in
      omega (arith, hc, one)

  init-Sized : Sized (init c)
  unfolding init
  init-Sized = record {
    positive = hc;
    three = omega (arith, three_generations);
    gens = omega (arith, three_generations, generations-lt);
    combined = rw restored some_cells;
    fits = rw restored generations_fit;
  }

  -- A new queue manager is at its start, with every cell empty.
  pub init-Inv : Inv (init c) 0 0 0 (λ k. empty) (λ k. 0)
  unfolding init combined_index encode_element
  init-Inv = record {
    sized = init-Sized;
    generation = omega arith;
    slot = hc;
    room = omega arith;
    push_at = ground (arith, hc);
    flagged = omega arith;
    pop_at = omega arith;
    stored = λ k hk. get_elem?-replicate c k 0 hk;
    bounded = λ k hk. omega arith;
    round = λ k hk. ground arith;
    held = λ k hk. ground arith;
  }

module _ (m : QueueManager) (b j n : ℕ) (state : ℕ → ElementState) (gen : ℕ → ℕ)
    (inv : Inv m b j n state gen) where
  -- Only the flag of the push index differs.
  abbrev pub flagged_at : ℕ → QueueManager
  flagged_at p = record m { push_index = p }

  reflagged-Inv :
      (p : ℕ)
      → p < 2 ^ 32
      → discard_disabled_flag p ≡ discard_disabled_flag m.push_index
      → Inv (flagged_at p) b j n state gen
  unfolding combined_index next_generation
  reflagged-Inv p lt same = record {
    sized = record {
      positive = inv.sized.positive;
      three = inv.sized.three;
      gens = inv.sized.gens;
      combined = inv.sized.combined;
      fits = inv.sized.fits;
    };
    generation = inv.generation;
    slot = inv.slot;
    room = inv.room;
    push_at = same ∙ inv.push_at;
    flagged = lt;
    pop_at = inv.pop_at;
    stored = inv.stored;
    bounded = inv.bounded;
    round = inv.round;
    held = inv.held;
  }

  -- Disabling and enabling leave the cells and the indices.
  pub disable-Inv : Inv (disable m) b j n state gen
  unfolding disable cas_push
  disable-Inv = elim (Bool-cases (is_disabled_flag_set m.push_index)) [
    | inl off ↦ rw off inv
    | inr open_queue ↦
        let same : (m.push_index == m.push_index) ≡ true = ground arith in
        rw (open_queue, same) (reflagged-Inv (m.push_index + 2 ^ 31) (ground arith) (ground arith))
  ]

  pub enable-Inv : Inv (enable m) b j n state gen
  unfolding enable cas_push
  enable-Inv = elim (Bool-cases (is_disabled_flag_set m.push_index)) [
    | inr open_queue ↦ rw open_queue inv
    | inl off ↦
        let same : (m.push_index == m.push_index) ≡ true = ground arith in
        rw (off, same)
          (reflagged-Inv (discard_disabled_flag m.push_index) (ground arith) (ground arith))
  ]

  -- Both leave all but the push index.
  pub disable-flagged_at : (p : ℕ) × (disable m ≡ flagged_at p)
  unfolding disable cas_push
  disable-flagged_at = elim (Bool-cases (is_disabled_flag_set m.push_index)) [
    | inl off ↦ (m.push_index, rw off refl)
    | inr open_queue ↦
        let same : (m.push_index == m.push_index) ≡ true = ground arith in
        (m.push_index + 2 ^ 31, rw (open_queue, same) refl)
  ]

  pub enable-flagged_at : (p : ℕ) × (enable m ≡ flagged_at p)
  unfolding enable cas_push
  enable-flagged_at = elim (Bool-cases (is_disabled_flag_set m.push_index)) [
    | inr open_queue ↦ (m.push_index, rw open_queue refl)
    | inl off ↦
        let same : (m.push_index == m.push_index) ≡ true = ground arith in
        (discard_disabled_flag m.push_index, rw (off, same) refl)
  ]

  third : 3 * m.capacity ≤ m.max_combined_index + 1
  third =
      let le : 3 * m.capacity ≤ (m.max_generation + 1) * m.capacity =
        mul-le-mul_right m.capacity (omega (arith, inv.sized.three)) in
      omega (arith, le, inv.sized.combined)

  -- The push index is as many cells ahead, or once round the circle less.
  ahead :
      (combined_index m (generation_after m b j n) (slot_after m j n) ≡ combined_index m b j + n)
      ⊎ ((combined_index m (generation_after m b j n) (slot_after m j n)
              + (m.max_combined_index + 1)
            ≡ combined_index m b j + n)
          × (0 < n))
  unfolding combined_index next_generation
  ahead = elim (dec_lt (j + n) m.capacity) [
    | yes inside ↦ inl (ground arith)
    | no past ↦ elim (dec_lt b m.max_generation) [
      | yes below ↦
          let step : (b + 1) * m.capacity ≡ b * m.capacity + m.capacity = grind arith in
          inl (ground (arith, step))
      | no top ↦
          let e : b ≡ m.max_generation = omega (arith, inv.generation) in
          let step : (m.max_generation + 1) * m.capacity
              ≡ m.max_generation * m.capacity + m.capacity =
            grind arith in
          inr (rw e (ground (arith, step, inv.sized.combined, inv.slot)), omega (arith, inv.slot))
    ]
  ]

  plain : discard_disabled_flag m.push_index ≡ m.pop_index + n → size m ≡ some n
  unfolding size circular_difference
  plain e = ground (arith, third, inv.room, inv.sized.fits, inv.sized.combined)

  wrapped :
      discard_disabled_flag m.push_index + (m.max_combined_index + 1) ≡ m.pop_index + n
      → m.pop_index ≤ m.max_combined_index
      → 0 < n
      → size m ≡ some n
  unfolding size circular_difference
  wrapped e lt h = ground (arith, third, inv.room, inv.sized.fits, inv.sized.combined)

  -- The size is how many cells are reserved to push and not to pop.
  pub size_lem : size m ≡ some n
  size_lem = elim ahead [
    | inl e ↦ plain (inv.push_at ∙ e ∙ ap (λ x. x + n) (sym inv.pop_at))
    | inr e ↦
        wrapped
          (ap (λ x. x + (m.max_combined_index + 1)) inv.push_at
            ∙ e.0
            ∙ ap (λ x. x + n) (sym inv.pop_at))
          (subst (λ x. x ≤ m.max_combined_index) (sym inv.pop_at)
            (combined-le m inv.sized b j inv.generation inv.slot))
          (e.1)
  ]
