-- ===== src/Path/Timers.antt =====
-- Path::Tick of path.cpp.
use bittoro_network.Prelude.{
  ℕ, List, [], ◌∷◌, Option, none, some, Bool, false, ◌&&◌, leb, ltb, ◌==◌, if◌then◌else◌, sub64,
}
use bittoro_network.Util.DecayingHashSet
use bittoro_network.Path.Status.{
  OwnPath, PathStatus, path_building, path_established, path_timeout, path_failed, path_ignore,
  path_expired, Event, marked_path_fail, Env, expired, enter_state, send_routing_message,
  flush_upstream,
}

abbrev pub path_build_timeout : ℕ
path_build_timeout = 30000

abbrev pub latency_interval : ℕ
latency_interval = 5000

abbrev pub alive_timeout : ℕ
alive_timeout = 60000

-- Tick: the path is given up, for the profiling and by the PathSet.
abbrev pub give_up : PathStatus → ℕ → OwnPath → List Event × OwnPath
give_up st now p = let (told, after) = enter_state st now p in (marked_path_fail ∷ told, after)

-- Tick while the path is building
unfoldable pub tick_building : ℕ → OwnPath → List Event × OwnPath
tick_building now p =
    if p.build_started == 0
    then ([], p)
    else if leb p.build_started now && leb path_build_timeout (sub64 now p.build_started)
    then give_up path_expired now p
    else ([], p)

-- m_CheckForDead, if it is set
abbrev pub looks_dead : Option (ℕ → Bool) → ℕ → Bool
looks_dead none delay = false
looks_dead (some check) delay = check delay

-- Tick: a test of the latency is sent, whatever comes of the sending.
unfoldable pub test_latency : Env → ℕ → OwnPath → List Event × OwnPath
test_latency env now p =
    let q = record p { last_latency_test_id = env.randint; last_latency_test_time = now } in
    let sent = send_routing_message env (env.encode_latency env.randint) q in flush_upstream sent.1

-- Tick: is the path dead?
unfoldable pub check_dead : ℕ → ℕ → OwnPath → List Event × OwnPath
check_dead now dlt p =
    if ltb 0 p.last_recv_message && ltb p.last_recv_message now
    then (if looks_dead p.check_for_dead (sub64 now p.last_recv_message)
        then give_up path_timeout now p
        else ([], p))
    else (if leb alive_timeout dlt && p.last_recv_message == 0
        then (if looks_dead p.check_for_dead dlt then give_up path_timeout now p else ([], p))
        else ([], p))

-- Tick while the path is established
unfoldable pub tick_established : Env → ℕ → OwnPath → List Event × OwnPath
tick_established env now p =
    let dlt = sub64 now p.last_latency_test_time in
    if ltb latency_interval dlt && p.last_latency_test_id == 0
    then test_latency env now p
    else check_dead now dlt p

abbrev pub tick_in : PathStatus → Env → ℕ → OwnPath → List Event × OwnPath
tick_in path_building env now p = tick_building now p
tick_in path_established env now p = tick_established env now p
tick_in path_timeout env now p = ([], p)
tick_in path_failed env now p = ([], p)
tick_in path_ignore env now p = ([], p)
tick_in path_expired env now p = ([], p)

-- Path::Tick
unfoldable pub tick : Env → ℕ → OwnPath → List Event × OwnPath
tick env now p =
    if expired now p
    then ([], p)
    else tick_in p.status env now (record p {
      upstream_filter = DecayingHashSet.decay env.clock now p.upstream_filter;
      downstream_filter = DecayingHashSet.decay env.clock now p.downstream_filter;
    })
