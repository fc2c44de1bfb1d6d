-- ===== src/Thread/Queue/Spec.antt =====
-- What Queue of llarp/util/thread/queue.hpp is for one thread at a time: a bounded queue of values.
use bittoro_network.Prelude.{
  ℕ, List, [], ◌∷◌, ◌++◌, Option, some, Bool, true, false, ltb, length, ◌>>=◌,
}
use bittoro_network.Thread.QueueManager.{success, queue_disabled, queue_full}
use bittoro_network.Thread.Queue
use bittoro_network.Thread.Queue.{
  Queue, Pushed, returned, Popped, taken, nothing, try_push_back, try_pop_front, size, remove_loop,
  remove_all,
}

-- A call of one thread, and what it returns.
pub data Op {ℓ} (A : Type ℓ) : Type ℓ where
  push : A → Op A
  pop : Op A
  count : Op A
  clear : Op A
  close : Op A
  reopen : Op A

pub data Answer {ℓ} (A : Type ℓ) : Type ℓ where
  of_push : Pushed → Answer A
  of_pop : Popped A → Answer A
  of_count : ℕ → Answer A
  no_answer : Answer A

-- The abstract queue: its values, first in first, and whether pushes are refused.
pub record Fifo {ℓ} (A : Type ℓ) : Type ℓ where
  pub items : List A
  pub closed : Bool

module _ {ℓ} {A : Type ℓ} where
  abbrev pub spec_pop : Bool → List A → Answer A × Fifo A
  spec_pop closed [] = (of_pop nothing, record { items = []; closed = closed })
  spec_pop closed (x ∷ xs) = (of_pop (taken x), record { items = xs; closed = closed })

  abbrev pub spec_push : Bool → Bool → A → Fifo A → Answer A × Fifo A
  spec_push true room v f = (of_push (returned queue_disabled), f)
  spec_push false true v f = (of_push (returned success), record f { items = f.items ++ (v ∷ []) })
  spec_push false false v f = (of_push (returned queue_full), f)

  abbrev pub spec_step : ℕ → Op A → Fifo A → Answer A × Fifo A
  spec_step capacity (push v) f = spec_push f.closed (ltb (length f.items) capacity) v f
  spec_step capacity pop f = spec_pop f.closed f.items
  spec_step capacity count f = (of_count (length f.items), f)
  spec_step capacity clear f = (no_answer, record f { items = [] })
  spec_step capacity close f = (no_answer, record f { closed = true })
  spec_step capacity reopen f = (no_answer, record f { closed = false })

  abbrev pub spec_run : ℕ → List (Op A) → Fifo A → List (Answer A)
  spec_run capacity [] f = []
  spec_run capacity (op ∷ ops) f =
      let r = spec_step capacity op f in r.0 ∷ spec_run capacity ops (r.1)

  -- The same calls on the queue itself.
  abbrev pub call : ℕ → Op A → Queue A → Option (Answer A × Queue A)
  call rounds (push v) q = try_push_back rounds v q >>= λ r. some (of_push (r.0), r.1)
  call rounds pop q = try_pop_front rounds q >>= λ r. some (of_pop (r.0), r.1)
  call rounds count q = size q >>= λ n. some (of_count n, q)
  call rounds clear q = remove_all rounds q >>= λ after. some (no_answer, after)
  call rounds close q = some (no_answer, Queue.disable q)
  call rounds reopen q = some (no_answer, Queue.enable q)

  abbrev pub calls : ℕ → List (Op A) → Queue A → Option (List (Answer A))
  calls rounds [] q = some []
  calls rounds (op ∷ ops) q =
      call rounds op q >>= λ r. calls rounds ops (r.1) >>= λ answers. some (r.0 ∷ answers)
