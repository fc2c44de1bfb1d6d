-- ===== src/Thread/Queue/Pops.antt =====
-- The first step of a pop from a Queue of llarp/util/thread/queue.hpp, with other threads about.
use bittoro_network.Prelude.{
  ℕ, ◌+◌, ◌-◌, ◌<◌, ◌≡◌, refl, ap, sym, ◌∙◌, subst, some, true, false, ◌==◌, if◌then◌else◌, length,
  get_elem?, lt_get_elem?, arith, Bool-cases, inl, inr,
}
use bittoro_network.Thread.QueueManager.{QueueManager, full, reading}
use bittoro_network.Thread.QueueManager.Invariant.{slot_after, generation_after, update}
use bittoro_network.Thread.QueueManager.Popping.{popped, full_room, popped-Inv}
use bittoro_network.Thread.Queue.System.{System, idle, popping}
use bittoro_network.Thread.Queue.Ghosts.{
  Ghost, has_object, is_busy, is_empty_state, Claim, at_work, attended_elsewhere, Consistent,
  at_cell, Claim-kept, claims-kept,
}
use bittoro_network.Thread.Queue.Finishes.{update_same}

module _ {ℓ} {A : Type ℓ} where
  module _ (s : System A) (b j n : ℕ) (w : Ghost) (c : Consistent s b j n w) (t : ℕ)
      (outside : s.threads t ≡ idle) (ready : w.state j ≡ full) where
    abbrev m : QueueManager
    m = s.queue.manager

    -- The cell that is popped next is taken by the thread.
    abbrev pub begun : System A
    begun = record s {
      queue = record (s.queue) { manager = popped m b j };
      threads = update s.threads t (popping b j s.pops);
      pops = s.pops + 1;
    }

    abbrev pub begun_ghost : Ghost
    begun_ghost = at_cell w j reading b (w.number j) t

    some_held : 0 < n
    some_held = full_room m b j n w.state w.gen (c.inner) ready

    first-number : w.number j ≡ s.pops
    first-number =
        let at_first : slot_after m j 0 ≡ j = ground (arith, c.inner.slot) in
        ap w.number (sym at_first) ∙ c.ordered 0 some_held ∙ omega arith

    shifted : (d : ℕ) → d < n - 1 → slot_after m (slot_after m j 1) d ≡ slot_after m j (d + 1)
    shifted d h = ground (arith, c.inner.slot, c.inner.room)

    order :
        (d : ℕ)
        → d < n - 1
        → update w.number j (w.number j) (slot_after m (slot_after m j 1) d) ≡ s.pops + 1 + d
    order d h =
        update_same w.number j (slot_after m (slot_after m j 1) d)
        ∙ ap w.number (shifted d h)
        ∙ c.ordered (d + 1) (omega arith)
        ∙ omega arith

    numbers :
        (k : ℕ)
        → k < m.capacity
        → is_empty_state (update w.state j reading k) ≡ false
        → update w.number j (w.number j) k < length s.pushes
    numbers k hk h = elim (Bool-cases (k == j)) [
      | inl e ↦ rw e (c.numbered j (c.inner.slot) (rw ready refl))
      | inr e ↦ rw e (
          c.numbered k hk
            (subst (λ x. is_empty_state (if x then reading else w.state k) ≡ false) e h))
    ]

    objects :
        (k : ℕ)
        → k < m.capacity
        → has_object (update w.state j reading k) ≡ true
        → get_elem? s.queue.cells k ≡ some (get_elem? s.pushes (update w.number j (w.number j) k))
    objects k hk h = elim (Bool-cases (k == j)) [
      | inl e ↦
          let same : k ≡ j = ground arith in
          rw (e, same) (c.objects j (c.inner.slot) (rw ready refl))
      | inr e ↦
          rw e
            (c.objects k hk (subst (λ x. has_object (if x then reading else w.state k) ≡ true) e h))
    ]

    free_elsewhere : (t' k : ℕ) → is_busy (w.state k) ≡ true → w.owner k ≡ t' → (k == j) ≡ false
    free_elsewhere t' k busy mine = elim (Bool-cases (k == j)) [
      | inr e ↦ e
      | inl e ↦
          let same : k ≡ j = ground arith in
          let bad : false ≡ true = ap is_busy (sym (ap w.state same ∙ ready)) ∙ busy in
          absurd (ground (arith, bad))
    ]

    watched :
        (k : ℕ)
        → k < m.capacity
        → is_busy (update w.state j reading k) ≡ true
        → at_work (update s.threads t (popping b j s.pops) (update w.owner j t k)) k ≡ true
    watched k hk h = elim (Bool-cases (k == j)) [
      | inl e ↦ let self : (t == t) ≡ true = ground arith in rw (e, self) e
      | inr e ↦
          let there : is_busy (w.state k) ≡ true =
            subst (λ x. is_busy (if x then reading else w.state k) ≡ true) e h in
          rw e (
            attended_elsewhere s.threads t (popping b j s.pops) k (w.owner k)
              (c.attended k hk there) (rw outside refl))
    ]

    mine : Claim m.capacity s.pushes begun_ghost t (popping b j s.pops)
    mine =
        let self : (j == j) ≡ true = ground arith in
        (
          c.inner.slot,
          rw self refl,
          rw self refl,
          rw self refl,
          rw self first-number,
          lt_get_elem? s.pushes s.pops (omega (arith, c.counted, some_held)),
        )

    pub begun_pop-Consistent :
        Consistent begun (generation_after m b j 1) (slot_after m j 1) (n - 1) begun_ghost
    begun_pop-Consistent = record {
      inner = popped-Inv m b j n w.state w.gen (c.inner) some_held;
      storage = c.storage;
      counted = omega (arith, c.counted, some_held);
      ordered = order;
      numbered = numbers;
      objects = objects;
      attended = watched;
      claims =
          claims-kept m.capacity s.pushes begun_ghost s.threads t (popping b j s.pops) mine
            (λ t' ne.
              Claim-kept m.capacity s.pushes s.pushes w j reading b (w.number j) t t' (s.threads t')
                (free_elsewhere t') (λ k v h. h) (c.claims t'));
    }
