-- ===== src/Thread/Tests.antt =====
-- The queue of llarp/util/thread at concrete inputs.
use bittoro_network.Prelude.{
  ℕ, ◌+◌, ◌-◌, ◌^◌, ◌≤◌, ◌≡◌, refl, List, [], ◌∷◌, Option, some, length, All, arith,
}
use bittoro_network.Thread.QueueManager
use bittoro_network.Thread.QueueManager.{
  QueueManager, empty, writing, full, reading, reserved, init, num_generations, reserve_push_index,
  reserve_pop_index, encode_element, next_combined_index, success, queue_full, queue_empty,
  queue_disabled, circular_difference,
}
use bittoro_network.Thread.QueueManager.Invariant.{update}
use bittoro_network.Thread.QueueManager.Pushing.{pushed, reserve_push_lem}
use bittoro_network.Thread.QueueManager.Popping.{reserve_pop_lem}
use bittoro_network.Thread.QueueManager.Control.{init-Inv}
use bittoro_network.Thread.Queue
use bittoro_network.Thread.Queue.{Queue, returned, taken, nothing}
use bittoro_network.Thread.Queue.System.{
  System, Local, idle, popping, pushing, Call, push, pop, finish, Outcome, retries, begun, start,
  step, run,
}
use bittoro_network.Thread.Queue.System
use bittoro_network.Thread.Queue.Runs.{Right}
use bittoro_network.Thread.Queue.Fifo.{run_fifo, run-size}
use bittoro_network.Thread.Queue.Progress.{retry_resumes}
use bittoro_network.Thread.Queue.Spec
use bittoro_network.Thread.Queue.Spec.{Op, Answer, of_push, of_pop, of_count, no_answer, calls}
use bittoro_network.Thread.Queue.Refine.{run_refines}

-- Two pushes that overlap, and a pop.
abbrev overlapping : List (ℕ × Call ℕ)
overlapping =
    (1, push 7)
    ∷ (2, push 8)
    ∷ (2, finish)
    ∷ (3, pop)
    ∷ (1, finish)
    ∷ (3, pop)
    ∷ (4, pop)
    ∷ (4, finish)
    ∷ (3, finish)
    ∷ []

run_fifo_example :
    (r : List (Outcome ℕ) × System ℕ) × (run 2 overlapping (start 2) ≡ some r)
    × All (Right (r.1.pushes)) (r.0)
run_fifo_example = run_fifo 0 2 overlapping (omega arith) (omega arith)

run-size_example :
    (r : List (Outcome ℕ) × System ℕ) × (n : ℕ) × (run 2 overlapping (start 2) ≡ some r)
    × (Queue.size (r.1.queue) ≡ some n)
    × (length (r.1.pushes) ≡ r.1.pops + n)
    × (n ≤ 2)
run-size_example = run-size 0 2 overlapping (omega arith) (omega arith)

abbrev mixed : List (Op ℕ)
mixed =
    Spec.push 4
    ∷ Spec.push 5
    ∷ Spec.push 6
    ∷ Spec.pop
    ∷ Spec.close
    ∷ Spec.push 6
    ∷ Spec.reopen
    ∷ Spec.push 9
    ∷ Spec.count
    ∷ Spec.pop
    ∷ Spec.clear
    ∷ Spec.pop
    ∷ []

run_refines_example :
    calls 2 mixed (Queue.new 2)
    ≡ some (
        of_push (returned success)
        ∷ of_push (returned success)
        ∷ of_push (returned queue_full)
        ∷ of_pop (taken 4)
        ∷ no_answer
        ∷ of_push (returned queue_disabled)
        ∷ no_answer
        ∷ of_push (returned success)
        ∷ of_count 2
        ∷ of_pop (taken 5)
        ∷ no_answer
        ∷ of_pop nothing
        ∷ [])
run_refines_example = run_refines 2 0 mixed (omega arith) (omega arith)

-- A pop has begun on the one cell of the queue.
abbrev begun_pop_calls : List (ℕ × Call ℕ)
begun_pop_calls = (1, push 7) ∷ (1, finish) ∷ (2, pop) ∷ []

abbrev one_cell : System ℕ
one_cell = record {
  queue = record {
    manager = record {
      push_index = 1;
      pop_index = 1;
      capacity = 1;
      max_generation = 2 ^ 30 - 1;
      max_combined_index = 2 ^ 30 - 1;
      states = 3 ∷ [];
    };
    cells = some 7 ∷ [];
    waiting_poppers = 0;
    pop_semaphore = 0;
    waiting_pushers = 0;
    push_semaphore = 0;
  };
  threads = update (update (update (λ t. idle) 1 (pushing 0 0 7)) 1 idle) 2 (popping 0 0 0);
  pushes = 7 ∷ [];
  pops = 1;
}

one_cell_reached :
    run 2 begun_pop_calls (start 1) ≡ some (begun ∷ System.pushed ∷ begun ∷ [], one_cell)
unfolding run step Queue.new init num_generations Queue.finish_push QueueManager.commit_push_index
    reserve_push_index reserve_pop_index QueueManager.push_loop QueueManager.pop_loop
    QueueManager.cas_push QueueManager.cas_pop encode_element next_combined_index
one_cell_reached = refl

push_waits_there : step 2 3 (push 8) one_cell ≡ some (retries, one_cell)
unfolding step reserve_push_index QueueManager.push_loop circular_difference encode_element
push_waits_there = refl

retry_resumes_example :
    (t' : ℕ) × (r : Outcome ℕ × System ℕ) × (after : System ℕ) × (step 2 t' finish one_cell
      ≡ some r)
    × (step 2 3 (push 8) (r.1) ≡ some (begun, after))
retry_resumes_example =
    retry_resumes 1 0 begun_pop_calls (begun ∷ System.pushed ∷ begun ∷ []) one_cell one_cell 3
      (push 8) (omega arith) (omega arith) one_cell_reached push_waits_there

reserve_push_example : reserve_push_index 2 (init 5) ≡ some (reserved 0 0, pushed (init 5) 0 0)
unfolding init
reserve_push_example =
    reserve_push_lem (init 5) 0 0 0 (λ k. empty) (λ k. 0) (init-Inv 5 (omega arith) (omega arith)) 0

reserve_pop_example :
    ◌≡◌ {A = Option (QueueManager.Reserve × QueueManager)}
      (reserve_pop_index 2 (init 5))
      (some (QueueManager.refused queue_empty, init 5))
reserve_pop_example =
    reserve_pop_lem (init 5) 0 0 0 (λ k. empty) (λ k. 0) (init-Inv 5 (omega arith) (omega arith)) 0

-- With two generations, the difference of the first from the second is not 1, which the pushes assert.
two_generations : circular_difference 0 1 2 ≡ some (2 ^ 32 - 1)
unfolding circular_difference
two_generations = refl
