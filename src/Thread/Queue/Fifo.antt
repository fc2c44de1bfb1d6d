-- ===== src/Thread/Queue/Fifo.antt =====
-- What the threads on one Queue of llarp/util/thread/queue.hpp can rely on.
use bittoro_network.Prelude.{
  ℕ, zero, suc, ◌+◌, ◌*◌, ◌^◌, ◌<◌, ◌≤◌, ◌≡◌, refl, ap, subst, List, some, none, length, replicate,
  All, arith,
}
use bittoro_network.Thread.QueueManager
use bittoro_network.Thread.QueueManager.{
  QueueManager, ElementState, empty, writing, full, reading, is_disabled_flag_set,
  reserve_push_index, reserve_pop_index, Reserve, reserved, refused, spinning, QueueReturn,
  queue_disabled,
}
use bittoro_network.Thread.QueueManager.Control.{init-Inv, size_lem}
use bittoro_network.Thread.Queue
use bittoro_network.Thread.Queue.{Queue}
use bittoro_network.Thread.Queue.System.{System, Call, Outcome, start, run}
use bittoro_network.Thread.Queue.Runs.{Right, Sound, run-Sound}

length-replicate {ℓ} : {A : Type ℓ} (n : ℕ) (x : A) → length (replicate n x) ≡ n
length-replicate zero x = refl
length-replicate (suc n) x = ap suc (length-replicate n x)

module _ {ℓ} {A : Type ℓ} where
  pub start-Sound :
      (capacity : ℕ)
      → 0 < capacity
      → 3 * capacity ≤ 2 ^ 31
      → Sound capacity (start {A = A} capacity)
  unfolding Queue.new QueueManager.init
  start-Sound capacity positive small = (
    refl,
    (
      0,
      0,
      0,
      (
        record { state = λ k. empty; gen = λ k. 0; number = λ k. 0; owner = λ k. 0 },
        record {
          inner = init-Inv capacity positive small;
          storage = length-replicate capacity none;
          counted = omega arith;
          ordered = λ d h. absurd (omega arith);
          numbered = λ k hk h. absurd (ground (arith, h));
          objects = λ k hk h. absurd (ground (arith, h));
          attended = λ k hk h. absurd (ground (arith, h));
          claims = λ t. refl;
        },
      ),
    ),
  )

  -- Let any threads, one after another, take any steps on a new queue of a capacity that leaves three
  -- generations: each begins a push or a pop, ends the one that it began, disables or enables the
  -- queue. Then no assert fails and no cell without an object is read, and every pop that returns,
  -- returns the value of the push of the same number, where pushes and pops are numbered as they
  -- reserved their cells.
  pub run_fifo :
      (rounds capacity : ℕ) (calls : List (ℕ × Call A))
      → 0 < capacity
      → 3 * capacity ≤ 2 ^ 31
      → (r : List (Outcome A) × System A) × (run (suc (suc rounds)) calls (start capacity) ≡ some r)
        × All (Right (r.1.pushes)) (r.0)
  run_fifo rounds capacity calls positive small =
      let ran =
        run-Sound capacity rounds calls (start capacity) (start-Sound capacity positive small) in
      (ran.0, ran.1, ran.2)

  -- Wherever such a run stands, size succeeds, with the number of pushes less the number of pops that
  -- have a cell, and it is no more than the capacity.
  pub run-size :
      (rounds capacity : ℕ) (calls : List (ℕ × Call A))
      → 0 < capacity
      → 3 * capacity ≤ 2 ^ 31
      → (r : List (Outcome A) × System A) × (n : ℕ) × (run (suc (suc rounds)) calls (start capacity)
          ≡ some r)
        × (Queue.size (r.1.queue) ≡ some n)
        × (length (r.1.pushes) ≡ r.1.pops + n)
        × (n ≤ capacity)
  unfolding Queue.size
  run-size rounds capacity calls positive small =
      let (r, e, right, kept, sound) =
        run-Sound capacity rounds calls (start capacity) (start-Sound capacity positive small) in
      let (same, (b, j, n, (w, c))) = sound in
      (
        r,
        n,
        e,
        size_lem r.1.queue.manager b j n w.state w.gen (c.inner),
        c.counted,
        subst (λ x. n ≤ x) same (c.inner.room),
      )
