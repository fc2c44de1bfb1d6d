-- ===== src/Thread/QueueManager/Pop.antt =====
-- One round of reservePopIndex of llarp/util/thread/queue_manager.cpp.
use bittoro_network.Prelude.{
  ℕ, suc, ◌+◌, ◌^◌, ◌<◌, ◌≤◌, ◌≡◌, refl, subst, some, true, not, ◌==◌, if◌then◌else◌, get_elem?,
  set, arith,
}
use bittoro_network.Thread.QueueManager.{
  QueueManager, empty, writing, full, reading, reserved, refused, queue_empty, encode_element,
  next_generation, next_combined_index, cas_pop, pop_loop, one_behind, sub32, circular_difference,
}
use bittoro_network.Thread.QueueManager.Cells.{
  Sized, combined_index, generation_of, cell_of, next-one_behind, same-one_behind, next-circular,
  decode_generation-encode, decode_state-encode, encode-eq, encode-ne_state,
}

module _ (m : QueueManager) (sized : Sized m) (b j : ℕ) (hb : b ≤ m.max_generation)
    (hj : j < m.capacity) (rounds saved : ℕ) where
  abbrev pub here : ℕ
  here = combined_index m b j

  -- A full cell of the generation is taken, and the index moves on.
  pub pop_loop_full :
      get_elem? m.states j ≡ some (encode_element b full)
      → m.pop_index ≡ here
      → pop_loop (suc rounds) here saved m
        ≡ some (
          reserved b j,
          record m {
            states = set m.states j (encode_element b reading);
            pop_index = next_combined_index m here;
          },
        )
  unfolding pop_loop cas_pop
  pop_loop_full cell at_here =
      let same : (m.pop_index == here) ≡ true = ground arith in
      rw (generation_of m sized b j hj, cell_of m sized b j hj, cell, encode-eq b full, same) refl

  -- A cell that is being written to is waited for.
  pub pop_loop_writing :
      get_elem? m.states j ≡ some (encode_element b writing)
      → pop_loop (suc rounds) here saved m ≡ pop_loop rounds m.pop_index saved m
  unfolding pop_loop
  pop_loop_writing cell =
      let small : b < 2 ^ 30 = omega (arith, sized.gens) in
      let zero : (sub32 b b == 0) ≡ true = ground arith in
      rw
        (
          generation_of m sized b j hj,
          cell_of m sized b j hj,
          cell,
          encode-ne_state b b writing full (λ e. omega (arith, e)),
          decode_generation-encode b writing small,
          same-one_behind m sized b hb,
          decode_state-encode b writing,
          zero,
        )
        refl

  -- An empty cell is looked at twice.
  pub pop_loop_empty :
      get_elem? m.states j ≡ some (encode_element b empty)
      → pop_loop (suc rounds) here saved m ≡ (
          if not (saved == here)
          then pop_loop rounds m.pop_index here m
          else some (refused queue_empty, m))
  unfolding pop_loop
  pop_loop_empty cell =
      let small : b < 2 ^ 30 = omega (arith, sized.gens) in
      let zero : (sub32 b b == 0) ≡ true = ground arith in
      rw
        (
          generation_of m sized b j hj,
          cell_of m sized b j hj,
          cell,
          encode-ne_state b b empty full (λ e. omega (arith, e)),
          decode_generation-encode b empty small,
          same-one_behind m sized b hb,
          decode_state-encode b empty,
          zero,
        )
        refl

  -- A cell still read in the generation before is not full.
  pub pop_loop_reading :
      (g : ℕ)
      → g ≤ m.max_generation
      → next_generation m g ≡ b
      → get_elem? m.states j ≡ some (encode_element g reading)
      → pop_loop (suc rounds) here saved m ≡ some (refused queue_empty, m)
  unfolding pop_loop
  pop_loop_reading g hg next cell =
      let small : g < 2 ^ 30 = omega (arith, sized.gens) in
      let behind : one_behind m b g ≡ true =
        subst (λ x. one_behind m x g ≡ true) next (next-one_behind m sized g hg) in
      let one : circular_difference b g (m.max_generation + 1) ≡ some 1 =
        subst (λ x. circular_difference x g (m.max_generation + 1) ≡ some 1) next
          (next-circular m sized g hg) in
      rw
        (
          generation_of m sized b j hj,
          cell_of m sized b j hj,
          cell,
          encode-ne_state g b reading full (λ e. omega (arith, e)),
          decode_generation-encode g reading small,
          behind,
          decode_state-encode g reading,
          one,
        )
        refl
