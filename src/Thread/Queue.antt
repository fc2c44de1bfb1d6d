-- ===== src/Thread/Queue.antt =====
-- Queue of llarp/util/thread/queue.hpp: the objects of a queue, over its QueueManager. A cell with
-- no object is `none`; an outer `none` is a failed assert or a read of no object. A call retries for
-- so many rounds.
pub mod System
pub mod Ghosts
pub mod Pushes
pub mod Finishes
pub mod Pops
pub mod Runs
pub mod Fifo
pub mod Quiet
pub mod Spec
pub mod Removing
pub mod Refine
pub mod Progress
use bittoro_network.Prelude.{
  ℕ, zero, suc, ◌+◌, ◌≡◌, List, [], ◌∷◌, Option, none, some, Bool, true, false, min, ltb, leb,
  if◌then◌else◌, get_elem?, set, replicate, ◌>>=◌,
}
use bittoro_network.Thread.QueueManager
use bittoro_network.Thread.QueueManager.{
  QueueManager, QueueReturn, success, Reserve, reserved, refused, spinning, init,
  reserve_push_index, reserve_pop_index, commit_push_index, commit_pop_index,
}
use bittoro_network.Thread.QueueManager.Clear.{reserve_pop_for_clear, abort_push_index_reservation}

pub record Queue {ℓ} (A : Type ℓ) : Type ℓ where
  pub manager : QueueManager
  pub cells : List (Option A)
  pub waiting_poppers : ℕ
  pub pop_semaphore : ℕ
  pub waiting_pushers : ℕ
  pub push_semaphore : ℕ

-- What a push comes to: a code, or that it still retries.
pub data Pushed : Type 0 where
  returned : QueueReturn → Pushed
  push_retries : Pushed

-- What a pop comes to: a value, no value, or that it still retries.
pub data Popped {ℓ} (A : Type ℓ) : Type ℓ where
  taken : A → Popped A
  nothing : Popped A
  pop_retries : Popped A

-- A semaphore is notified when a thread waits.
abbrev pub notify : ℕ → ℕ → ℕ
notify waiting semaphore = if ltb 0 waiting then semaphore + 1 else semaphore

module _ {ℓ} {A : Type ℓ} where
  -- Queue::Queue
  unfoldable pub new : ℕ → Queue A
  new capacity = record {
    manager = init capacity;
    cells = replicate capacity none;
    waiting_poppers = 0;
    pop_semaphore = 0;
    waiting_pushers = 0;
    push_semaphore = 0;
  }

  -- tryPushBack, from the construction of the object on
  unfoldable pub finish_push : ℕ → ℕ → A → Queue A → Option (Queue A)
  finish_push generation index value q = commit_push_index generation index q.manager >>= λ m.
      some (record q {
        manager = m;
        cells = set q.cells index (some value);
        pop_semaphore = notify q.waiting_poppers q.pop_semaphore;
      })

  abbrev pub after_push : A → Queue A → Reserve × QueueManager → Option (Pushed × Queue A)
  after_push value q (reserved generation index, m) =
      finish_push generation index value (record q { manager = m }) >>= λ after.
      some (returned success, after)
  after_push value q (refused r, m) = some (returned r, record q { manager = m })
  after_push value q (spinning, m) = some (push_retries, record q { manager = m })

  -- Queue::tryPushBack
  unfoldable pub try_push_back : ℕ → A → Queue A → Option (Pushed × Queue A)
  try_push_back rounds value q = reserve_push_index rounds q.manager >>= after_push value q

  -- The object of a cell is destroyed, and the cell given back.
  unfoldable pub dispose : ℕ → ℕ → Queue A → Option (Queue A)
  dispose generation index q = commit_pop_index generation index q.manager >>= λ m.
      some (record q { manager = m; cells = set q.cells index none })

  -- tryPopFront, from the move of the object on, with QueuePopGuard::~QueuePopGuard
  unfoldable pub finish_pop : ℕ → ℕ → Queue A → Option (A × Queue A)
  finish_pop generation index q = get_elem? q.cells index >>= λ object. object >>= λ value.
      dispose generation index q >>= λ after.
      some
        (value, record after { push_semaphore = notify after.waiting_pushers after.push_semaphore })

  abbrev pub after_pop : Queue A → Reserve × QueueManager → Option (Popped A × Queue A)
  after_pop q (reserved generation index, m) =
      finish_pop generation index (record q { manager = m }) >>= λ r. some (taken (r.0), r.1)
  after_pop q (refused r, m) = some (nothing, record q { manager = m })
  after_pop q (spinning, m) = some (pop_retries, record q { manager = m })

  -- Queue::tryPopFront
  unfoldable pub try_pop_front : ℕ → Queue A → Option (Popped A × Queue A)
  try_pop_front rounds q = reserve_pop_index rounds q.manager >>= after_pop q

  -- Queue::disable
  unfoldable pub disable : Queue A → Queue A
  disable q = record q {
    manager = QueueManager.disable q.manager;
    push_semaphore = q.push_semaphore + q.waiting_pushers;
  }

  -- Queue::enable
  unfoldable pub enable : Queue A → Queue A
  enable q = record q { manager = QueueManager.enable q.manager }

  -- Queue::size
  unfoldable pub size : Queue A → Option ℕ
  size q = QueueManager.size q.manager

  -- Queue::enabled
  unfoldable pub enabled : Queue A → Bool
  enabled q = QueueManager.enabled q.manager

  -- Queue::full
  unfoldable pub is_full : Queue A → Option Bool
  is_full q = size q >>= λ s. some (leb q.manager.capacity s)

  -- Queue::empty
  unfoldable pub is_empty : Queue A → Option Bool
  is_empty q = size q >>= λ s. some (leb s 0)

  -- The loop of removeAll, and how many objects it destroys. A pop that still retries is `none`.
  abbrev pub after_removed :
      (Queue A → Option (ℕ × Queue A)) → Queue A → Reserve × QueueManager → Option (ℕ × Queue A)
  after_removed rest q (reserved generation index, m) =
      dispose generation index (record q { manager = m }) >>= λ after.
      rest after >>= λ r. some (suc (r.0), r.1)
  after_removed rest q (refused r, m) = some (0, record q { manager = m })
  after_removed rest q (spinning, m) = none

  unfoldable pub remove_loop : ℕ → ℕ → Queue A → Option (ℕ × Queue A)
  remove_loop rounds zero q = some (0, q)
  remove_loop rounds (suc k) q =
      reserve_pop_index rounds q.manager >>= after_removed (remove_loop rounds k) q

  -- Queue::removeAll
  unfoldable pub remove_all : ℕ → Queue A → Option (Queue A)
  remove_all rounds q = size q >>= λ count. remove_loop rounds count q >>= λ r.
      some
        (record (r.1) { push_semaphore = r.1.push_semaphore + min (r.0 + 1) (r.1.waiting_pushers) })

  abbrev pub after_cleared :
      (Queue A → Option (ℕ × Queue A)) → Queue A → Reserve × QueueManager → Option (ℕ × Queue A)
  after_cleared rest q (reserved generation index, m) =
      dispose generation index (record q { manager = m }) >>= λ after.
      rest after >>= λ r. some (suc (r.0), r.1)
  after_cleared rest q (refused r, m) = some (0, record q { manager = m })
  after_cleared rest q (spinning, m) = none

  -- The loop of QueuePushGuard::~QueuePushGuard, for so many calls of reservePopForClear that
  -- find an object, and how many it destroys. A call that still retries is `none`.
  unfoldable pub clear : ℕ → ℕ → ℕ → ℕ → Queue A → Option (ℕ × Queue A)
  clear zero rounds generation index q = none
  clear (suc calls) rounds generation index q =
      reserve_pop_for_clear rounds generation index q.manager
      >>= after_cleared (clear calls rounds generation index) q

  -- QueuePushGuard::~QueuePushGuard of a guard that was not released
  unfoldable pub roll_back : ℕ → ℕ → ℕ → ℕ → Queue A → Option (Queue A)
  roll_back calls rounds generation index q = clear calls rounds generation index q >>= λ r.
      abort_push_index_reservation generation index (r.1.manager) >>= λ m.
      some (record (r.1) { manager = m; push_semaphore = r.1.push_semaphore + (r.0 + 1) })
