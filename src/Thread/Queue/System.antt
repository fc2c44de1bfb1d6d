-- ===== src/Thread/Queue/System.antt =====
-- Any number of threads that push to and pop from one Queue of llarp/util/thread/queue.hpp. A call
-- has two steps, the reserving of its cell and the rest, with steps of other threads between them.
use bittoro_network.Prelude.{ℕ, ◌+◌, List, [], ◌∷◌, ◌++◌, Option, some, ◌>>=◌}
use bittoro_network.Thread.QueueManager.{
  QueueManager, QueueReturn, Reserve, reserved, refused, spinning, reserve_push_index,
  reserve_pop_index,
}
use bittoro_network.Thread.QueueManager.Invariant.{update}
use bittoro_network.Thread.Queue
use bittoro_network.Thread.Queue.{Queue, finish_push, finish_pop}

-- Where a thread stands: outside, or between the two steps of a push of a value or of a pop, in
-- a generation and a cell. A pop carries how many pops reserved before it.
pub data Local {ℓ} (A : Type ℓ) : Type ℓ where
  idle : Local A
  pushing : ℕ → ℕ → A → Local A
  popping : ℕ → ℕ → ℕ → Local A

pub data Call {ℓ} (A : Type ℓ) : Type ℓ where
  push : A → Call A
  pop : Call A
  finish : Call A
  switch_off : Call A
  switch_on : Call A

-- What a step reports.
pub data Outcome {ℓ} (A : Type ℓ) : Type ℓ where
  begun : Outcome A
  answered : QueueReturn → Outcome A
  retries : Outcome A
  pushed : Outcome A
  got : ℕ → A → Outcome A
  done : Outcome A

-- The queue and the threads, and a log: the values of the pushes in the order in which they
-- reserved, and how many pops did.
pub record System {ℓ} (A : Type ℓ) : Type ℓ where
  pub queue : Queue A
  pub threads : ℕ → Local A
  pub pushes : List A
  pub pops : ℕ

module _ {ℓ} {A : Type ℓ} where
  abbrev pub start : ℕ → System A
  start capacity = record { queue = Queue.new capacity; threads = λ t. idle; pushes = []; pops = 0 }

  abbrev pub begun_push : ℕ → A → System A → Reserve × QueueManager → Option (Outcome A × System A)
  begun_push t value s (reserved generation index, m) = some (
    begun,
    record s {
      queue = record (s.queue) { manager = m };
      threads = update s.threads t (pushing generation index value);
      pushes = s.pushes ++ (value ∷ []);
    },
  )
  begun_push t value s (refused r, m) =
      some (answered r, record s { queue = record (s.queue) { manager = m } })
  begun_push t value s (spinning, m) =
      some (retries, record s { queue = record (s.queue) { manager = m } })

  abbrev pub begun_pop : ℕ → System A → Reserve × QueueManager → Option (Outcome A × System A)
  begun_pop t s (reserved generation index, m) = some (
    begun,
    record s {
      queue = record (s.queue) { manager = m };
      threads = update s.threads t (popping generation index s.pops);
      pops = s.pops + 1;
    },
  )
  begun_pop t s (refused r, m) =
      some (answered r, record s { queue = record (s.queue) { manager = m } })
  begun_pop t s (spinning, m) =
      some (retries, record s { queue = record (s.queue) { manager = m } })

  abbrev pub idle_after : ℕ → Queue A → System A → System A
  idle_after t q s = record s { queue = q; threads = update s.threads t idle }

  abbrev pub step_at : ℕ → ℕ → Local A → Call A → System A → Option (Outcome A × System A)
  step_at rounds t idle (push value) s =
      reserve_push_index rounds s.queue.manager >>= begun_push t value s
  step_at rounds t idle pop s = reserve_pop_index rounds s.queue.manager >>= begun_pop t s
  step_at rounds t idle switch_off s = some (done, record s { queue = Queue.disable s.queue })
  step_at rounds t idle switch_on s = some (done, record s { queue = Queue.enable s.queue })
  step_at rounds t idle finish s = some (done, s)
  step_at rounds t (pushing generation index value) finish s =
      finish_push generation index value s.queue >>= λ q. some (pushed, idle_after t q s)
  step_at rounds t (pushing generation index value) _ s = some (done, s)
  step_at rounds t (popping generation index k) finish s =
      finish_pop generation index s.queue >>= λ r. some (got k (r.0), idle_after t (r.1) s)
  step_at rounds t (popping generation index k) _ s = some (done, s)

  -- The thread `t` takes its next step, if it can make that call where it stands.
  unfoldable pub step : ℕ → ℕ → Call A → System A → Option (Outcome A × System A)
  step rounds t call s = step_at rounds t (s.threads t) call s

  -- Steps one after another, and what they report.
  unfoldable pub run : ℕ → List (ℕ × Call A) → System A → Option (List (Outcome A) × System A)
  run rounds [] s = some ([], s)
  run rounds ((t, call) ∷ calls) s =
      step rounds t call s >>= λ r. run rounds calls (r.1) >>= λ rest. some (r.0 ∷ rest.0, rest.1)
