-- ===== src/Thread/QueueManager.antt =====
-- QueueManager of llarp/util/thread/queue_manager.hpp and queue_manager.cpp: the indices and the
-- states of the cells of a queue. Each operation runs without another in between, while between its
-- reserving and its committing of a cell any others may run. An outer `none` is a failed assert or a
-- cell out of range.
pub mod Cells
pub mod Invariant
pub mod Push
pub mod Pushing
pub mod Pop
pub mod Popping
pub mod Commits
pub mod Control
pub mod Clear
use bittoro_network.Prelude.{
  ℕ, zero, suc, ◌+◌, ◌-◌, ◌*◌, ◌/◌, ◌%◌, ◌^◌, ◌≡◌, List, [], ◌∷◌, Option, none, some, Bool, true,
  false, ◌&&◌, ◌||◌, not, min, ltb, leb, ◌==◌, if◌then◌else◌, length, get_elem?, set, replicate,
  ◌>>=◌,
}

pub data ElementState : Type 0 where
  empty writing full reading : ElementState

pub data QueueReturn : Type 0 where
  success queue_disabled queue_empty queue_full : QueueReturn

-- What a call of reservePushIndex or reservePopIndex comes to: a generation and an index, a code
-- other than Success, or that it still retries.
pub data Reserve : Type 0 where
  reserved : ℕ → ℕ → Reserve
  refused : QueueReturn → Reserve
  spinning : Reserve

pub record QueueManager : Type 0 where
  pub push_index : ℕ
  pub pop_index : ℕ
  pub capacity : ℕ
  pub max_generation : ℕ
  pub max_combined_index : ℕ
  pub states : List ℕ

-- An assert, and what follows it.
abbrev pub asserting {ℓ} : {A : Type ℓ} → Bool → Option A → Option A
asserting true r = r
asserting false r = none

-- a - b and -a of 32 bits, and the order of int32_t
abbrev pub sub32 : ℕ → ℕ → ℕ
sub32 a b = (a + 2 ^ 32 - b) % 2 ^ 32

abbrev pub signed_ltb : ℕ → ℕ → Bool
signed_ltb a b = ltb ((a + 2 ^ 31) % 2 ^ 32) ((b + 2 ^ 31) % 2 ^ 32)

-- isDisabledFlagSet
abbrev pub is_disabled_flag_set : ℕ → Bool
is_disabled_flag_set i = leb (2 ^ 31) i

-- discardDisabledFlag
abbrev pub discard_disabled_flag : ℕ → ℕ
discard_disabled_flag i = i % 2 ^ 31

abbrev pub state_code : ElementState → ℕ
state_code empty = 0
state_code writing = 1
state_code full = 2
state_code reading = 3

-- encodeElement
unfoldable pub encode_element : ℕ → ElementState → ℕ
encode_element generation state = (generation * 4) % 2 ^ 32 + state_code state

-- decodeGenerationFromElementState
abbrev pub decode_generation : ℕ → ℕ
decode_generation c = c / 4

-- decodeStateFromElementState, as a number
abbrev pub decode_state : ℕ → ℕ
decode_state c = c % 4

-- QueueManager::nextCombinedIndex
unfoldable pub next_combined_index : QueueManager → ℕ → ℕ
next_combined_index m index = if m.max_combined_index == index then 0 else index + 1

-- QueueManager::nextGeneration
unfoldable pub next_generation : QueueManager → ℕ → ℕ
next_generation m generation = if m.max_generation == generation then 0 else generation + 1

-- QueueManager::circularDifference
unfoldable pub circular_difference : ℕ → ℕ → ℕ → Option ℕ
circular_difference start subtract modulo =
    asserting (leb modulo (2 ^ 31) && ltb start modulo && ltb subtract modulo) (
      let difference = sub32 start subtract in
      some (
        if signed_ltb (modulo / 2) difference
        then sub32 difference modulo
        else if signed_ltb difference (sub32 0 (modulo / 2))
        then (difference + modulo) % 2 ^ 32
        else difference))

-- QueueManager::numGenerations
unfoldable pub num_generations : ℕ → ℕ
num_generations capacity = min (2 ^ 31 / capacity) (2 ^ 30)

-- QueueManager::QueueManager
unfoldable pub init : ℕ → QueueManager
init capacity = record {
  push_index = 0;
  pop_index = 0;
  capacity = capacity;
  max_generation = num_generations capacity - 1;
  max_combined_index = num_generations capacity * capacity - 1;
  states = replicate capacity 0;
}

-- compare_exchange_strong on an index: the value seen, and the object after it
unfoldable pub cas_push : ℕ → ℕ → QueueManager → ℕ × QueueManager
cas_push expected new m =
    if m.push_index == expected
    then (expected, record m { push_index = new })
    else (m.push_index, m)

unfoldable pub cas_pop : ℕ → ℕ → QueueManager → ℕ × QueueManager
cas_pop expected new m =
    if m.pop_index == expected then (expected, record m { pop_index = new }) else (m.pop_index, m)

-- The cell is of the generation before `generation`.
abbrev pub one_behind : QueueManager → ℕ → ℕ → Bool
one_behind m generation elem =
    (sub32 generation elem == 1) || (sub32 generation elem == sub32 0 m.max_generation)

-- The loop of reservePushIndex, for so many rounds.
unfoldable pub push_loop : ℕ → ℕ → ℕ → QueueManager → Option (Reserve × QueueManager)
push_loop zero loaded saved m = some (spinning, m)
push_loop (suc rounds) loaded saved m =
    let again : ℕ → ℕ → QueueManager → Option (Reserve × QueueManager) = push_loop rounds in
    let combined = discard_disabled_flag loaded in
    let generation = combined / m.capacity in
    let index = combined % m.capacity in
    if is_disabled_flag_set loaded
    then some (refused queue_disabled, m)
    else (get_elem? m.states index >>= λ cell.
        let elem = decode_generation cell in
        if cell == encode_element generation empty
        then (let swapped = record m {
          states = set m.states index (encode_element generation writing);
        } in
            some (
              reserved generation index,
              (cas_push combined (next_combined_index m combined) swapped).1,
            ))
        else if one_behind m generation elem
        then (circular_difference generation elem (m.max_generation + 1) >>= λ d.
            asserting (d == 1) (
              if decode_state cell == state_code reading
              then again m.push_index saved m
              else asserting (not (decode_state cell == state_code empty)) (
                  if not (saved == loaded)
                  then again m.push_index loaded m
                  else some (refused queue_full, m))))
        else (circular_difference generation elem (m.max_generation + 1) >>= λ d.
            asserting ((d == 0) || leb (2 ^ 31) d) (
              let seen = cas_push combined (next_combined_index m combined) m in
              again seen.0 saved seen.1)))

-- QueueManager::reservePushIndex
unfoldable pub reserve_push_index : ℕ → QueueManager → Option (Reserve × QueueManager)
reserve_push_index rounds m = push_loop rounds m.push_index (2 ^ 32 - 1) m

-- The loop of reservePopIndex, for so many rounds.
unfoldable pub pop_loop : ℕ → ℕ → ℕ → QueueManager → Option (Reserve × QueueManager)
pop_loop zero loaded saved m = some (spinning, m)
pop_loop (suc rounds) loaded saved m =
    let again : ℕ → ℕ → QueueManager → Option (Reserve × QueueManager) = pop_loop rounds in
    let generation = loaded / m.capacity in
    let index = loaded % m.capacity in
    get_elem? m.states index >>= λ cell.
    let elem = decode_generation cell in
    let difference = sub32 generation elem in
    if cell == encode_element generation full
    then (let swapped = record m {
      states = set m.states index (encode_element generation reading);
    } in
        some (reserved generation index, (cas_pop loaded (next_combined_index m loaded) swapped).1))
    else if one_behind m generation elem
    then asserting (decode_state cell == state_code reading) (
        circular_difference generation elem (m.max_generation + 1) >>= λ d.
        asserting (d == 1) (some (refused queue_empty, m)))
    else if (difference == 0) && (decode_state cell == state_code empty)
    then (if not (saved == loaded)
        then again m.pop_index loaded m
        else some (refused queue_empty, m))
    else if not (difference == 0) || (decode_state cell == state_code writing)
    then again m.pop_index saved m
    else (let seen = cas_pop loaded (next_combined_index m loaded) m in again seen.0 saved seen.1)

-- QueueManager::reservePopIndex
unfoldable pub reserve_pop_index : ℕ → QueueManager → Option (Reserve × QueueManager)
reserve_pop_index rounds m = pop_loop rounds m.pop_index (2 ^ 32 - 1) m

-- The asserts of the two commits: the caller holds the cell in this state.
abbrev pub holds : ElementState → ℕ → ℕ → QueueManager → Option QueueManager → Option QueueManager
holds state generation index m r =
    asserting (leb generation m.max_generation && ltb index m.capacity) (
      get_elem? m.states index >>= λ cell.
      asserting ((decode_state cell == state_code state) && (generation == decode_generation cell))
        r)

-- QueueManager::commitPushIndex
unfoldable pub commit_push_index : ℕ → ℕ → QueueManager → Option QueueManager
commit_push_index generation index m =
    holds writing generation index m
      (some (record m { states = set m.states index (encode_element generation full) }))

-- QueueManager::commitPopIndex
unfoldable pub commit_pop_index : ℕ → ℕ → QueueManager → Option QueueManager
commit_pop_index generation index m = holds reading generation index m (
    some (record m {
      states = set m.states index (encode_element (next_generation m generation) empty);
    }))

-- QueueManager::disable
unfoldable pub disable : QueueManager → QueueManager
disable m =
    if is_disabled_flag_set m.push_index
    then m
    else (cas_push m.push_index (m.push_index + 2 ^ 31) m).1

-- QueueManager::enable
unfoldable pub enable : QueueManager → QueueManager
enable m =
    if not (is_disabled_flag_set m.push_index)
    then m
    else (cas_push m.push_index (discard_disabled_flag m.push_index) m).1

-- QueueManager::enabled
unfoldable pub enabled : QueueManager → Bool
enabled m = not (is_disabled_flag_set m.push_index)

-- QueueManager::size
unfoldable pub size : QueueManager → Option ℕ
size m =
    let push = discard_disabled_flag m.push_index in
    let difference = sub32 push m.pop_index in
    if not (leb (2 ^ 31) difference)
    then (if signed_ltb (m.capacity % 2 ^ 32) difference
        then (circular_difference push m.pop_index ((m.max_combined_index + 1) % 2 ^ 32) >>= λ d.
            asserting (leb (2 ^ 31) d) (some 0))
        else some difference)
    else if signed_ltb difference (sub32 0 (m.max_combined_index / 2))
    then (circular_difference push m.pop_index ((m.max_combined_index + 1) % 2 ^ 32) >>= λ d.
        asserting (not (d == 0) && not (leb (2 ^ 31) d))
          (some (min ((difference + m.max_combined_index + 1) % 2 ^ 32) m.capacity)))
    else some 0
