-- ===== src/Thread/QueueManager/Clear.antt =====
-- The rolling back of a push in llarp/util/thread/queue_manager.cpp: reservePopForClear and
-- abortPushIndexReservation.
use bittoro_network.Prelude.{
  ℕ, zero, suc, ◌+◌, ◌*◌, ◌/◌, ◌%◌, ◌^◌, Option, some, ◌&&◌, ◌||◌, not, ltb, leb, ◌==◌,
  if◌then◌else◌, get_elem?, set, ◌>>=◌,
}
use bittoro_network.Thread.QueueManager.{
  QueueManager, success, empty, writing, full, reading, Reserve, reserved, refused, spinning,
  asserting, encode_element, decode_generation, decode_state, state_code, next_combined_index,
  next_generation, circular_difference, cas_pop,
}

-- The loop of reservePopForClear, for so many rounds. `refused success` is its `false`.
unfoldable pub clear_loop : ℕ → ℕ → ℕ → ℕ → QueueManager → Option (Reserve × QueueManager)
clear_loop zero loaded end_generation end_index m = some (spinning, m)
clear_loop (suc rounds) loaded end_generation end_index m =
    let again : ℕ → QueueManager → Option (Reserve × QueueManager) =
      λ next after. clear_loop rounds next end_generation end_index after in
    let end_combined = (end_generation * (m.capacity % 2 ^ 32) + end_index) % 2 ^ 32 in
    let modulo = (m.max_combined_index + 1) % 2 ^ 32 in
    circular_difference end_combined loaded modulo >>= λ d.
    if d == 0
    then some (refused success, m)
    else asserting (not (leb (2 ^ 31) d)) (
        let index = loaded % m.capacity in
        let generation = loaded / m.capacity in
        get_elem? m.states index >>= λ cell.
        if cell == encode_element generation full
        then (let swapped = record m {
          states = set m.states index (encode_element generation reading);
        } in
            some (
              reserved generation index,
              (cas_pop loaded (next_combined_index m loaded) swapped).1,
            ))
        else if (decode_state cell == state_code writing) || (decode_state cell == state_code full)
        then again m.pop_index m
        else (let seen = cas_pop loaded (next_combined_index m loaded) m in again seen.0 seen.1))

-- QueueManager::reservePopForClear
unfoldable pub reserve_pop_for_clear : ℕ → ℕ → ℕ → QueueManager → Option (Reserve × QueueManager)
reserve_pop_for_clear rounds end_generation end_index m =
    asserting (leb end_generation m.max_generation && ltb end_index m.capacity)
      (clear_loop rounds m.pop_index end_generation end_index m)

-- QueueManager::abortPushIndexReservation
unfoldable pub abort_push_index_reservation : ℕ → ℕ → QueueManager → Option QueueManager
abort_push_index_reservation generation index m =
    asserting
      (leb generation m.max_generation
        && ltb index m.capacity
        && ((generation * m.capacity + index) % 2 ^ 32 == m.pop_index))
      (get_elem? m.states index >>= λ cell.
        asserting
          ((decode_state cell == state_code writing)
            && (generation == decode_generation cell)
            && (generation == m.pop_index / m.capacity)
            && (index == m.pop_index % m.capacity))
          (let taken = record m {
            states = set m.states index (encode_element generation reading);
          } in
            let moved = (cas_pop m.pop_index (next_combined_index m m.pop_index) taken).1 in
            some (record moved {
              states = set moved.states index (encode_element (next_generation m generation) empty);
            })))
