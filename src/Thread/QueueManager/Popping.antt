-- ===== src/Thread/QueueManager/Popping.antt =====
-- Each outcome of reservePopIndex of llarp/util/thread/queue_manager.cpp, and what it leaves.
use bittoro_network.Prelude.{
  ℕ, zero, suc, ◌-◌, ◌^◌, ◌<◌, ◌≡◌, refl, ap, sym, ◌∙◌, some, true, false, ◌==◌, get_elem?, set,
  arith, dec_lt, Bool-cases, inl, inr,
}
use bittoro_network.Thread.QueueManager.{
  QueueManager, ElementState, empty, writing, full, reading, Reserve, reserved, refused, spinning,
  queue_empty, encode_element, next_generation, next_combined_index, pop_loop, reserve_pop_index,
}
use bittoro_network.Thread.QueueManager.Cells.{
  combined_index, combined-lt, combined-next, next_generation-le,
}
use bittoro_network.Thread.QueueManager.Invariant.{
  Inv, slot_after, generation_after, within, pop_round, is_held, round_of, update, set_stored,
}
use bittoro_network.Thread.QueueManager.Pop.{
  pop_loop_full, pop_loop_writing, pop_loop_empty, pop_loop_reading,
}

-- The cell that is popped next is taken for reading.
abbrev pub popped : QueueManager → ℕ → ℕ → QueueManager
popped m b j = record m {
  states = set m.states j (encode_element b reading);
  pop_index = next_combined_index m (combined_index m b j);
}

-- What reserving a cell to pop comes to.
abbrev pub pop_result : QueueManager → ℕ → ℕ → ElementState → Reserve × QueueManager
pop_result m b j full = (reserved b j, popped m b j)
pop_result m b j writing = (spinning, m)
pop_result m b j _ = (refused queue_empty, m)

module _ (m : QueueManager) (b j n : ℕ) (state : ℕ → ElementState) (gen : ℕ → ℕ)
    (inv : Inv m b j n state gen) where
  abbrev b' : ℕ
  b' = generation_after m b j 1

  abbrev j' : ℕ
  j' = slot_after m j 1

  advance : next_combined_index m (combined_index m b j) ≡ combined_index m b' j'
  advance = combined-next m inv.sized b j inv.generation inv.slot ∙ ground (arith, inv.slot)

  same_slot : 0 < n → slot_after m j' (n - 1) ≡ slot_after m j n
  same_slot h = ground (arith, inv.slot, inv.room)

  same_generation : 0 < n → generation_after m b' j' (n - 1) ≡ generation_after m b j n
  same_generation h = ground (arith, inv.slot, inv.room)

  first-pop_round : pop_round m b j j ≡ b
  first-pop_round = ground arith

  first-within : 0 < n → within m j n j ≡ true
  first-within h = ground arith

  kept_round :
      (k : ℕ)
      → k < m.capacity
      → round_of m (update state j reading k) (update gen j b k) ≡ pop_round m b' j' k
  kept_round k hk = elim (Bool-cases (k == j)) [
    | inl e ↦ let same : k ≡ j = ground arith in rw (e, same) (ground (arith, inv.slot))
    | inr e ↦ rw e (inv.round k hk ∙ ground (arith, inv.slot))
  ]

  less_held :
      0 < n → (k : ℕ) → k < m.capacity → is_held (update state j reading k) ≡ within m j' (n - 1) k
  less_held h k hk = elim (Bool-cases (k == j)) [
    | inl e ↦ let same : k ≡ j = ground arith in rw (e, same) (ground (arith, inv.slot, inv.room))
    | inr e ↦ rw e (inv.held k hk ∙ ground (arith, inv.slot, inv.room))
  ]

  -- The invariant after the cell was taken.
  pub popped-Inv :
      0 < n → Inv (popped m b j) b' j' (n - 1) (update state j reading) (update gen j b)
  unfolding combined_index next_generation
  popped-Inv h = record {
    sized = record {
      positive = inv.sized.positive;
      three = inv.sized.three;
      gens = inv.sized.gens;
      combined = inv.sized.combined;
      fits = inv.sized.fits;
    };
    generation = ground (arith, next_generation-le m inv.sized b inv.generation, inv.generation);
    slot = ground (arith, inv.slot);
    room = omega (arith, inv.room);
    push_at = rw (same_generation h, same_slot h) inv.push_at;
    flagged = inv.flagged;
    pop_at = advance;
    stored = set_stored m state gen inv.stored j b reading inv.slot;
    bounded = λ k hk. ground (arith, inv.bounded k hk, inv.generation);
    round = kept_round;
    held = less_held h;
  }

  round_at : round_of m (state j) (gen j) ≡ b
  round_at = inv.round j inv.slot ∙ first-pop_round

  cell_at :
      (s : ElementState)
      → state j ≡ s
      → round_of m s (gen j) ≡ gen j
      → get_elem? m.states j ≡ some (encode_element b s)
  cell_at s e h =
      let g : gen j ≡ b = sym h ∙ ap (λ x. round_of m x (gen j)) (sym e) ∙ round_at in
      inv.stored j inv.slot ∙ rw (g, e) refl

  pub full_room : state j ≡ full → 0 < n
  full_room e = elim (dec_lt 0 n) [
    | yes h ↦ h
    | no h ↦
        let bad : true ≡ false =
          ap is_held (sym e) ∙ inv.held j inv.slot ∙ ground (arith, inv.slot) in
        absurd (ground (arith, bad))
  ]

  at :
      (rounds saved : ℕ)
      → pop_loop rounds m.pop_index saved m ≡ pop_loop rounds (combined_index m b j) saved m
  at rounds saved = ap (λ loaded. pop_loop rounds loaded saved m) inv.pop_at

  waits :
      (rounds saved : ℕ)
      → state j ≡ writing
      → pop_loop rounds m.pop_index saved m ≡ some (spinning, m)
  unfolding pop_loop
  waits zero saved e = refl
  waits (suc rounds) saved e =
      at (suc rounds) saved
      ∙ pop_loop_writing m inv.sized b j inv.generation inv.slot rounds saved
          (cell_at writing e refl)
      ∙ waits rounds saved e

  empty_twice :
      (rounds : ℕ)
      → state j ≡ empty
      → pop_loop (suc (suc rounds)) m.pop_index (2 ^ 32 - 1) m ≡ some (refused queue_empty, m)
  empty_twice rounds e =
      let cell = cell_at empty e refl in
      let lt = combined-lt m inv.sized b j inv.generation inv.slot in
      let fresh : (2 ^ 32 - 1 == combined_index m b j) ≡ false = ground (arith, lt) in
      let again : (combined_index m b j == combined_index m b j) ≡ true = ground arith in
      at (suc (suc rounds)) (2 ^ 32 - 1)
      ∙ pop_loop_empty m inv.sized b j inv.generation inv.slot (suc rounds) (2 ^ 32 - 1) cell
      ∙ rw fresh (
          at (suc rounds) (combined_index m b j)
          ∙ pop_loop_empty m inv.sized b j inv.generation inv.slot rounds (combined_index m b j)
              cell
          ∙ rw again refl)

  -- Under the invariant, a reservePopIndex of two rounds or more fails no assert: it reserves the cell of
  -- the pop index if that is full, retries while the cell is written, and returns QueueEmpty if it is
  -- empty or still read. Only a reservation changes anything: the cell's state and the pop index.
  pub reserve_pop_lem :
      (rounds : ℕ) → reserve_pop_index (suc (suc rounds)) m ≡ some (pop_result m b j (state j))
  unfolding reserve_pop_index
  reserve_pop_lem rounds = go (state j) refl
    where
      go :
          (s : ElementState)
          → state j ≡ s
          → pop_loop (suc (suc rounds)) m.pop_index (2 ^ 32 - 1) m ≡ some (pop_result m b j s)
      go full e =
          at (suc (suc rounds)) (2 ^ 32 - 1)
          ∙ pop_loop_full m inv.sized b j inv.generation inv.slot (suc rounds) (2 ^ 32 - 1)
              (cell_at full e refl) inv.pop_at
      go writing e = waits (suc (suc rounds)) (2 ^ 32 - 1) e
      go empty e = empty_twice rounds e
      go reading e =
          at (suc (suc rounds)) (2 ^ 32 - 1)
          ∙ pop_loop_reading m inv.sized b j inv.generation inv.slot (suc rounds) (2 ^ 32 - 1)
              (gen j) (inv.bounded j inv.slot) (ap (λ x. round_of m x (gen j)) (sym e) ∙ round_at)
              (inv.stored j inv.slot ∙ ap (λ x. some (encode_element (gen j) x)) e)
