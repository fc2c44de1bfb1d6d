-- ===== src/Thread/QueueManager/Push.antt =====
-- reservePushIndex of llarp/util/thread/queue_manager.cpp under the invariant.
use bittoro_network.Prelude.{
  ℕ, suc, ◌+◌, ◌^◌, ◌<◌, ◌≤◌, ◌≡◌, ◌≢◌, refl, sym, ◌∙◌, subst, Option, some, true, false, not, ◌==◌,
  if◌then◌else◌, get_elem?, set, arith,
}
use bittoro_network.Thread.QueueManager.{
  QueueManager, ElementState, empty, writing, reading, state_code, Reserve, reserved, refused,
  queue_full, encode_element, next_generation, next_combined_index, discard_disabled_flag,
  is_disabled_flag_set, circular_difference, one_behind, asserting, cas_push, push_loop,
}
use bittoro_network.Thread.QueueManager.Cells.{
  Sized, combined_index, combined-lt, generation_of, cell_of, next_generation-ne, next-one_behind,
  next-circular, decode_generation-encode, decode_state-encode, encode-eq, encode-ne_generation,
}

-- What follows when the cell of the index, in a state, is of the generation before.
abbrev pub behind_step : QueueManager → ℕ → ℕ → ℕ → ElementState → Option (Reserve × QueueManager)
behind_step m rounds saved loaded s =
    if state_code s == state_code reading
    then push_loop rounds m.push_index saved m
    else asserting (not (state_code s == state_code empty)) (
        if not (saved == loaded)
        then push_loop rounds m.push_index loaded m
        else some (refused queue_full, m))

-- One round of the loop at the index of the cell `i` in generation `a`.
module _ (m : QueueManager) (sized : Sized m) (a i : ℕ) (ha : a ≤ m.max_generation)
    (hi : i < m.capacity) (rounds saved : ℕ) where
  abbrev pub here : ℕ
  here = combined_index m a i

  here_enabled : is_disabled_flag_set here ≡ false
  here_enabled = ground (arith, combined-lt m sized a i ha hi)

  here_kept : discard_disabled_flag here ≡ here
  here_kept = omega (arith, combined-lt m sized a i ha hi)

  -- An empty cell of the generation is taken, and the index moves on.
  pub push_loop_fresh :
      get_elem? m.states i ≡ some (encode_element a empty)
      → m.push_index ≡ here
      → push_loop (suc rounds) here saved m
        ≡ some (
          reserved a i,
          record m {
            states = set m.states i (encode_element a writing);
            push_index = next_combined_index m here;
          },
        )
  unfolding push_loop cas_push
  push_loop_fresh cell at_here =
      let same : (m.push_index == here) ≡ true = ground arith in
      rw
        (
          here_enabled,
          here_kept,
          generation_of m sized a i hi,
          cell_of m sized a i hi,
          cell,
          encode-eq a empty,
          same,
        )
        refl

  module _ (g : ℕ) (s : ElementState) (hg : g ≤ m.max_generation) (next : next_generation m g ≡ a)
      (cell : get_elem? m.states i ≡ some (encode_element g s)) where
    pub push_loop_behind : push_loop (suc rounds) here saved m ≡ behind_step m rounds saved here s
    unfolding push_loop
    push_loop_behind =
        let small : g < 2 ^ 30 = omega (arith, sized.gens) in
        let other : (encode_element g s == encode_element a empty) ≡ false =
          encode-ne_generation g a s empty small (omega (arith, sized.gens)) (λ e. turn e) in
        let behind : one_behind m a g ≡ true =
          subst (λ x. one_behind m x g ≡ true) next (next-one_behind m sized g hg) in
        let one : circular_difference a g (m.max_generation + 1) ≡ some 1 =
          subst (λ x. circular_difference x g (m.max_generation + 1) ≡ some 1) next
            (next-circular m sized g hg) in
        rw
          (
            here_enabled,
            here_kept,
            generation_of m sized a i hi,
            cell_of m sized a i hi,
            cell,
            other,
            decode_generation-encode g s small,
            behind,
            one,
            decode_state-encode g s,
          )
          refl
      where
        turn : g ≢ a
        turn e = next_generation-ne m sized g hg (next ∙ sym e)
