-- ===== src/Util/CoDel.antt =====
-- CoDelQueue of llarp/util/codel.hpp. The array's live items stand below m_QueueIdx, and a slot whose
-- item is destroyed or was never made is `none`; reading it is `none`. How an item gets its time and
-- is asked for it are parameters, and so is the square root in the growth of the interval. Of the
-- items, those that the visitor is called on are returned.
pub mod Visits
pub mod Filters
mod Tests
use bittoro_network.Prelude.{
  ℕ, zero, suc, ◌+◌, ◌-◌, ◌%◌, ◌^◌, ◌≡◌, List, [], ◌∷◌, Option, none, some, Bool, true, false, not,
  min, ltb, ◌==◌, if◌then◌else◌, get_elem?, set, replicate, ◌>>=◌,
}
use bittoro_network.Prelude.{sub64}

pub record CoDelQueue {ℓ} (T : Type ℓ) : Type ℓ where
  pub first_put : ℕ
  pub drop_num : ℕ
  pub next_tick_interval : ℕ
  pub next_tick_at : ℕ
  pub queue_idx : ℕ
  pub queue : List (Option T)

abbrev pub max_size : ℕ
max_size = 1024

abbrev pub drop_ms : ℕ
drop_ms = 5

abbrev pub initial_interval_ms : ℕ
initial_interval_ms = 100

module _ {ℓ} {T : Type ℓ} where
  -- CoDelQueue::CoDelQueue. A slot that was never filled is none, where the array holds an object that
  -- its own constructor made: a read of it is a fault here.
  abbrev pub blank : CoDelQueue T
  blank = record {
    first_put = 0;
    drop_num = 0;
    next_tick_interval = initial_interval_ms;
    next_tick_at = 0;
    queue_idx = 0;
    queue = replicate max_size none;
  }

  module _ (put_time : T → T) (get_time : T → ℕ) where
    -- The item gets its time and is counted.
    abbrev pub put : T → CoDelQueue T → CoDelQueue T
    put item q =
        let stamped = put_time item in
        record q {
          queue = set q.queue q.queue_idx (some stamped);
          first_put = if q.first_put == 0 then get_time stamped else q.first_put;
          queue_idx = q.queue_idx + 1;
        }

    -- CoDelQueue::EmplaceIf
    unfoldable pub emplace_if : (T → Bool) → T → CoDelQueue T → Bool × CoDelQueue T
    emplace_if pred item q =
        if q.queue_idx == max_size
        then (false, q)
        else if not (pred item)
        then (false, record q { queue = set q.queue q.queue_idx none })
        else (true, put item q)

    -- CoDelQueue::Emplace
    unfoldable pub emplace : T → CoDelQueue T → CoDelQueue T
    emplace item q = if q.queue_idx == max_size then q else put item q

  module _ (get_time : T → ℕ) (raised : ℕ → ℕ → ℕ) (filter : T → Bool) where
    abbrev pub finished : ℕ → CoDelQueue T → CoDelQueue T
    finished start q = record q {
      first_put = 0;
      next_tick_at = (start + q.next_tick_interval) % 2 ^ 64;
    }

    abbrev pub visiting : T → Option (List T × CoDelQueue T) → Option (List T × CoDelQueue T)
    visiting item rest = rest >>= λ r. some (item ∷ r.0, r.1)

    -- The last item is dropped, or visited.
    abbrev pub last_item : ℕ → ℕ → ℕ → T → CoDelQueue T → Option (List T × CoDelQueue T)
    last_item start idx lowest item q =
        if ltb drop_ms lowest
        then (let interval = raised q.next_tick_interval (q.drop_num + 1) in
            some (
              [],
              record q {
                queue = set q.queue idx none;
                drop_num = q.drop_num + 1;
                next_tick_interval = interval;
                first_put = 0;
                next_tick_at = (start + interval) % 2 ^ 64;
              },
            ))
        else some (
          item ∷ [],
          finished start (record q {
            queue = set q.queue idx none;
            next_tick_interval = initial_interval_ms;
            drop_num = 0;
          }),
        )

    -- The loop of Process, while m_QueueIdx is `n`.
    unfoldable pub drain : ℕ → ℕ → ℕ → ℕ → CoDelQueue T → Option (List T × CoDelQueue T)
    drain zero start idx lowest q = some ([], finished start q)
    drain (suc n) start idx lowest q =
        let again : ℕ → CoDelQueue T → Option (List T × CoDelQueue T) = drain n start (idx + 1) in
        get_elem? q.queue idx >>= λ slot. slot >>= λ item.
        if filter item
        then some ([], finished start q)
        else (let lower = min (sub64 start (get_time item)) lowest in
            if n == 0
            then last_item start idx lower item (record q { queue_idx = n })
            else visiting item
                (again lower (record q { queue_idx = n; queue = set q.queue idx none })))

    -- CoDelQueue::Process
    unfoldable pub process : ℕ → CoDelQueue T → Option (List T × CoDelQueue T)
    process now q =
        if ltb now q.next_tick_at
        then some ([], q)
        else if q.queue_idx == 1
        then (get_elem? q.queue 0 >>= λ slot. slot >>= λ item.
            some (item ∷ [], record q { queue = set q.queue 0 none; queue_idx = 0; first_put = 0 }))
        else drain q.queue_idx q.first_put 0 (2 ^ 64 - 1) q
