-- ===== src/Thread/QueueManager/Pushing.antt =====
-- Each outcome of reservePushIndex of llarp/util/thread/queue_manager.cpp, and what it leaves.
use bittoro_network.Prelude.{
  ℕ, zero, suc, ◌+◌, ◌-◌, ◌^◌, ◌<◌, ◌≤◌, ◌≡◌, ◌≢◌, refl, ap, sym, ◌∙◌, subst, some, true, false,
  not, ◌==◌, if◌then◌else◌, get_elem?, set, arith, dec_lt, Bool-cases, inl, inr, ◌⊎◌,
}
use bittoro_network.Thread.QueueManager.{
  QueueManager, ElementState, empty, writing, full, reading, state_code, Reserve, reserved, refused,
  spinning, queue_disabled, queue_full, encode_element, next_generation, next_combined_index,
  discard_disabled_flag, is_disabled_flag_set, push_loop, reserve_push_index,
}
use bittoro_network.Thread.QueueManager.Cells.{
  combined_index, combined-lt, combined-next, next_generation-le,
}
use bittoro_network.Thread.QueueManager.Push.{push_loop_fresh, push_loop_behind, behind_step}
use bittoro_network.Thread.QueueManager.Invariant.{
  Inv, slot_after, generation_after, within, pop_round, is_held, round_of, update, set_stored,
}

-- The cell that is pushed next is taken for writing.
abbrev pub pushed : QueueManager → ℕ → ℕ → QueueManager
pushed m a i = record m {
  states = set m.states i (encode_element a writing);
  push_index = next_combined_index m (combined_index m a i);
}

state-cases : (s : ElementState) → (s ≡ empty) ⊎ ((s ≡ reading) ⊎ (is_held s ≡ true))
state-cases empty = inl refl
state-cases writing = inr (inr refl)
state-cases full = inr (inr refl)
state-cases reading = inr (inl refl)

held-round : (m : QueueManager) (s : ElementState) (g : ℕ) → is_held s ≡ true → round_of m s g ≡ g
held-round m writing g h = refl
held-round m full g h = refl
held-round m empty g h = absurd (ground (arith, h))
held-round m reading g h = absurd (ground (arith, h))

reading-ne_empty : reading ≢ empty
reading-ne_empty p = let bad : 3 ≡ 0 = ap state_code p in absurd (ground (arith, bad))

held-ne_empty : (s : ElementState) → is_held s ≡ true → s ≢ empty
held-ne_empty s h p =
    let bad : false ≡ true = ap is_held (sym p) ∙ h in absurd (ground (arith, bad))

-- What reserving a cell to push comes to when the queue is enabled.
abbrev pub push_result : QueueManager → ℕ → ℕ → ElementState → Reserve × QueueManager
push_result m a i empty = (reserved a i, pushed m a i)
push_result m a i reading = (spinning, m)
push_result m a i _ = (refused queue_full, m)

held-push_result :
    (m : QueueManager) (a i : ℕ) (s : ElementState)
    → is_held s ≡ true
    → (refused queue_full, m) ≡ push_result m a i s
held-push_result m a i writing h = refl
held-push_result m a i full h = refl
held-push_result m a i empty h = absurd (ground (arith, h))
held-push_result m a i reading h = absurd (ground (arith, h))

held-behind_step :
    (m : QueueManager) (s : ElementState) (rounds saved loaded : ℕ)
    → is_held s ≡ true
    → behind_step m rounds saved loaded s ≡ (
        if not (saved == loaded)
        then push_loop rounds m.push_index loaded m
        else some (refused queue_full, m))
held-behind_step m writing rounds saved loaded h = refl
held-behind_step m full rounds saved loaded h = refl
held-behind_step m empty rounds saved loaded h = absurd (ground (arith, h))
held-behind_step m reading rounds saved loaded h = absurd (ground (arith, h))

push_disabled :
    (m : QueueManager) (rounds : ℕ)
    → is_disabled_flag_set m.push_index ≡ true
    → reserve_push_index (suc rounds) m ≡ some (refused queue_disabled, m)
unfolding reserve_push_index push_loop
push_disabled m rounds off = rw off refl

module _ (m : QueueManager) (b j n : ℕ) (state : ℕ → ElementState) (gen : ℕ → ℕ)
    (inv : Inv m b j n state gen) where
  abbrev a : ℕ
  a = generation_after m b j n

  abbrev i : ℕ
  i = slot_after m j n

  pub slot-lt : i < m.capacity
  slot-lt = ground (arith, inv.slot, inv.room)

  generation-le : a ≤ m.max_generation
  generation-le = ground (arith, inv.generation, next_generation-le m inv.sized b inv.generation)

  at_index : is_disabled_flag_set m.push_index ≡ false → m.push_index ≡ combined_index m a i
  at_index open_queue =
      let small : discard_disabled_flag m.push_index ≡ m.push_index = ground arith in
      sym small ∙ inv.push_at

  free_round : n < m.capacity → pop_round m b j i ≡ a
  free_round h = ground (arith, inv.slot)

  free_within : n < m.capacity → within m j n i ≡ false
  free_within h = ground (arith, inv.slot)

  advance :
      n < m.capacity
      → next_combined_index m (combined_index m a i)
        ≡ combined_index m (generation_after m b j (n + 1)) (slot_after m j (n + 1))
  advance h = combined-next m inv.sized a i generation-le slot-lt ∙ ground (arith, inv.slot)

  pub advanced :
      n < m.capacity
      → discard_disabled_flag (next_combined_index m (combined_index m a i))
        ≡ next_combined_index m (combined_index m a i)
  advanced h =
      let lt =
        combined-lt m inv.sized (generation_after m b j (n + 1)) (slot_after m j (n + 1))
          (ground (arith, inv.generation, next_generation-le m inv.sized b inv.generation))
          (ground (arith, inv.slot)) in
      omega (arith, lt, advance h)

  kept_bounded : (k : ℕ) → k < m.capacity → update gen i a k ≤ m.max_generation
  kept_bounded k hk = ground (arith, inv.bounded k hk, generation-le)

  kept_round :
      n < m.capacity
      → (k : ℕ) → k < m.capacity
      → round_of m (update state i writing k) (update gen i a k) ≡ pop_round m b j k
  kept_round h k hk = elim (Bool-cases (k == i)) [
    | inl e ↦ let same : k ≡ i = ground arith in rw (e, same) (sym (free_round h))
    | inr e ↦ rw e (inv.round k hk)
  ]

  wider_held :
      n < m.capacity
      → (k : ℕ) → k < m.capacity
      → is_held (update state i writing k) ≡ within m j (n + 1) k
  wider_held h k hk = elim (Bool-cases (k == i)) [
    | inl e ↦ rw e (ground (arith, inv.slot))
    | inr e ↦ rw e (inv.held k hk ∙ ground (arith, inv.slot))
  ]

  -- The invariant after the cell was taken.
  pub pushed-Inv :
      n < m.capacity → Inv (pushed m a i) b j (n + 1) (update state i writing) (update gen i a)
  unfolding combined_index next_generation
  pushed-Inv h = record {
    sized = record {
      positive = inv.sized.positive;
      three = inv.sized.three;
      gens = inv.sized.gens;
      combined = inv.sized.combined;
      fits = inv.sized.fits;
    };
    generation = inv.generation;
    slot = inv.slot;
    room = omega arith;
    push_at = advanced h ∙ advance h;
    flagged = omega (arith, advanced h);
    pop_at = inv.pop_at;
    stored = set_stored m state gen inv.stored i a writing slot-lt;
    bounded = kept_bounded;
    round = kept_round h;
    held = wider_held h;
  }

  -- The cell of the push index has not been read to the end, or has not been popped.
  stays_behind : state i ≢ empty → next_generation m (gen i) ≡ a
  stays_behind ne = elim (dec_lt n m.capacity) [
    | yes h ↦ elim (state-cases (state i)) [
      | inl e ↦ absurd (ne e)
      | inr (inl e) ↦ ap (λ s. round_of m s (gen i)) (sym e) ∙ inv.round i slot-lt ∙ free_round h
      | inr (inr e) ↦
          let bad : true ≡ false = sym e ∙ inv.held i slot-lt ∙ free_within h in
          absurd (ground (arith, bad))
    ]
    | no h ↦
        let in_window : is_held (state i) ≡ true =
          inv.held i slot-lt ∙ ground (arith, inv.slot, inv.room) in
        let round : gen i ≡ b =
          sym (held-round m (state i) (gen i) in_window)
          ∙ inv.round i slot-lt
          ∙ ground (arith, inv.slot, inv.room) in
        rw round (ground (arith, inv.slot, inv.room))
  ]

  reserve_empty :
      (rounds : ℕ)
      → is_disabled_flag_set m.push_index ≡ false
      → n < m.capacity
      → state i ≡ empty
      → reserve_push_index (suc rounds) m ≡ some (reserved a i, pushed m a i)
  unfolding reserve_push_index
  reserve_empty rounds open_queue h e =
      let index = at_index open_queue in
      let round : gen i ≡ a =
        ap (λ s. round_of m s (gen i)) (sym e) ∙ inv.round i slot-lt ∙ free_round h in
      let cell : get_elem? m.states i ≡ some (encode_element a empty) =
        rw (← round, ← e) (inv.stored i slot-lt) in
      ap (λ loaded. push_loop (suc rounds) loaded (2 ^ 32 - 1) m) index
      ∙ push_loop_fresh m inv.sized a i generation-le slot-lt rounds (2 ^ 32 - 1) cell index

  pub empty-room : state i ≡ empty → n < m.capacity
  empty-room e = elim (dec_lt n m.capacity) [
    | yes h ↦ h
    | no h ↦
        let in_window : is_held (state i) ≡ true =
          inv.held i slot-lt ∙ ground (arith, inv.slot, inv.room) in
        let bad : false ≡ true = ap is_held (sym e) ∙ in_window in absurd (ground (arith, bad))
  ]

  module _ (open_queue : is_disabled_flag_set m.push_index ≡ false) where
    behind :
        (rounds saved : ℕ)
        → state i ≢ empty
        → push_loop (suc rounds) m.push_index saved m
          ≡ behind_step m rounds saved m.push_index (state i)
    behind rounds saved ne =
        subst
          (λ loaded.
            push_loop (suc rounds) loaded saved m ≡ behind_step m rounds saved loaded (state i))
          (sym (at_index open_queue))
          (push_loop_behind m inv.sized a i generation-le slot-lt rounds saved (gen i) (state i)
            (inv.bounded i slot-lt) (stays_behind ne) (inv.stored i slot-lt))

    waits :
        (rounds saved : ℕ)
        → state i ≡ reading
        → push_loop rounds m.push_index saved m ≡ some (spinning, m)
    unfolding push_loop
    waits zero saved e = refl
    waits (suc rounds) saved e =
        behind rounds saved (λ p. reading-ne_empty (sym e ∙ p))
        ∙ ap (behind_step m rounds saved m.push_index) e
        ∙ waits rounds saved e

    full_twice :
        (rounds : ℕ)
        → is_held (state i) ≡ true
        → reserve_push_index (suc (suc rounds)) m ≡ some (refused queue_full, m)
    unfolding reserve_push_index
    full_twice rounds e =
        let ne : state i ≢ empty = λ p. held-ne_empty (state i) e p in
        let fresh : (2 ^ 32 - 1 == m.push_index) ≡ false = ground arith in
        let again : (m.push_index == m.push_index) ≡ true = ground arith in
        behind (suc rounds) (2 ^ 32 - 1) ne
        ∙ held-behind_step m (state i) (suc rounds) (2 ^ 32 - 1) m.push_index e
        ∙ rw fresh (
            behind rounds m.push_index ne
            ∙ held-behind_step m (state i) rounds m.push_index m.push_index e
            ∙ rw again refl)

  -- Under the invariant, a reservePushIndex of two rounds or more fails no assert: on a disabled queue
  -- it returns QueueDisabled, else it reserves the cell of the push index if that is empty, retries
  -- while the cell is still read, and returns QueueFull if it is written or full. Only a reservation
  -- changes anything: the cell's state and the push index.
  pub reserve_push_lem :
      (rounds : ℕ)
      → reserve_push_index (suc (suc rounds)) m
        ≡ some (
            if is_disabled_flag_set m.push_index
            then (refused queue_disabled, m)
            else push_result m a i (state i))
  unfolding reserve_push_index
  reserve_push_lem rounds = elim (Bool-cases (is_disabled_flag_set m.push_index)) [
    | inl off ↦ rw off (push_disabled m (suc rounds) off)
    | inr open_queue ↦ rw open_queue (elim (state-cases (state i)) [
      | inl e ↦ reserve_empty (suc rounds) open_queue (empty-room e) e ∙ rw e refl
      | inr (inl e) ↦ waits open_queue (suc (suc rounds)) (2 ^ 32 - 1) e ∙ rw e refl
      | inr (inr e) ↦ full_twice open_queue rounds e ∙ ap some (held-push_result m a i (state i) e)
    ])
  ]
