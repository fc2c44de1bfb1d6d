-- ===== src/Path/Status.antt =====
-- Path of llarp/path/path.cpp: what the client keeps of a path, and its status. What a call asks of
-- the rest of the program is in a list of events, in their order; what it is told by the rest of the
-- program (the clocks, random numbers, how a message encodes) is in an Env. Shared hooks are given
-- the path itself, which they are taken to leave as it is.
use Prim.Native.Nat.{bit_and, bit_or}
use bittoro_network.Prelude.{
  ◌%◌, ◌^◌, ℕ, ◌+◌, ◌-◌, List, [], ◌∷◌, ◌++◌, Option, none, some, Bool, true, false, ◌&&◌, ◌||◌,
  not, leb, ltb, ◌==◌, if◌then◌else◌, length, sub64, max,
}
use bittoro_network.Prelude.Bytes.{be_value}
use bittoro_network.Util.DecayingHashSet
use bittoro_network.Util.DecayingHashSet.{DecayingHashSet}
use bittoro_network.Path.Hop.{PathHopConfig, TrafficQueue, enqueue}
use bittoro_network.Path.Transit.{queued}

pub data PathStatus : Type 0 where
  path_building : PathStatus
  path_established : PathStatus
  path_timeout : PathStatus
  path_failed : PathStatus
  path_ignore : PathStatus
  path_expired : PathStatus

pub data Event : Type 0 where
  -- HandlePathBuildFailed, HandlePathBuildTimeout and HandlePathDied of the path's PathSet
  build_failed : Event
  build_timeout : Event
  died : Event
  -- MarkPathFail, MarkPathSuccess and MarkHopFail of the router's profiling
  marked_path_fail : Event
  marked_path_success : Event
  marked_hop_fail : ℕ → Event
  -- PersistSessionUntil
  persisted : ℕ → ℕ → Event
  -- a job of UpstreamWork for the thread pool
  upstream_job : List (List ℕ × List ℕ) → Event
  -- the hook of SetBuildResultHook is called
  built_hook : Event
  -- the hooks of AddObtainExitHandler are called
  exit_result : ℕ → Event

-- Path: its members but the hooks for single messages; the values of the replay filters are the
-- nonces read as numbers.
pub record OwnPath : Type 0 where
  pub hops : List PathHopConfig
  pub intro_latency : ℕ
  pub intro_expires_at : ℕ
  pub build_started : ℕ
  pub last_recv_message : ℕ
  pub last_latency_test_time : ℕ
  pub last_latency_test_id : ℕ
  pub exit_obtain_tx : ℕ
  pub status : PathStatus
  pub role : ℕ
  pub has_built_hook : Bool
  pub check_for_dead : Option (ℕ → Bool)
  pub obtained_exit_hooks : List (ℕ → Bool)
  pub upstream_filter : DecayingHashSet
  pub downstream_filter : DecayingHashSet
  pub upstream_queue : TrafficQueue
  pub downstream_queue : TrafficQueue

pub record Env : Type 0 where
  -- AbstractRouter::Now and time_now_ms
  pub now : ℕ
  pub clock : ℕ
  pub randint : ℕ
  pub random_nonce : List ℕ
  pub random_bytes : ℕ → List ℕ
  -- BEncode of a PathLatencyMessage with this T
  pub encode_latency : ℕ → Option (List ℕ)

abbrev pub role_exit : ℕ
role_exit = 4

abbrev pub role_svc : ℕ
role_svc = 8

-- The lifetime of the first hop; a path has a hop.
abbrev pub first_lifetime : List PathHopConfig → ℕ
first_lifetime [] = 0
first_lifetime (h ∷ rest) = h.lifetime

-- Path::ExpireTime
unfoldable pub expire_time : OwnPath → ℕ
expire_time p = (p.build_started + first_lifetime p.hops) % 2 ^ 64

-- Path::ExpiresSoon
unfoldable pub expires_soon : ℕ → ℕ → OwnPath → Bool
expires_soon now dlt p = leb (sub64 (expire_time p) dlt) now

-- Path::Expired, by the status
abbrev pub expired_in : PathStatus → Bool → Bool
expired_in path_failed over = true
expired_in path_building over = false
expired_in path_established over = over
expired_in path_timeout over = over
expired_in path_ignore over = true
expired_in path_expired over = true

-- Path::Expired
unfoldable pub expired : ℕ → OwnPath → Bool
expired now p = expired_in p.status (leb (expire_time p) now)

abbrev pub is_established : PathStatus → Bool
is_established path_established = true
is_established path_failed = false
is_established path_building = false
is_established path_timeout = false
is_established path_ignore = false
is_established path_expired = false

abbrev pub is_building : PathStatus → Bool
is_building path_building = true
is_building path_established = false
is_building path_failed = false
is_building path_timeout = false
is_building path_ignore = false
is_building path_expired = false

-- Path::IsReady
unfoldable pub is_ready : OwnPath → Bool
is_ready p = ltb 0 p.intro_latency && is_established p.status

-- Path::MarkActive
unfoldable pub mark_active : ℕ → OwnPath → OwnPath
mark_active now p = record p { last_recv_message = max now p.last_recv_message }

-- Path::SupportsAllRoles
unfoldable pub supports_all_roles : ℕ → OwnPath → Bool
supports_all_roles roles p = bit_and p.role roles == roles

-- Path::SupportsAnyRoles
unfoldable pub supports_any_roles : ℕ → OwnPath → Bool
supports_any_roles roles p = roles == 0 || not (bit_or p.role roles == 0)

-- Path::ClearRoles
unfoldable pub clear_roles : ℕ → OwnPath → OwnPath
clear_roles roles p = record p { role = p.role - bit_and p.role roles }

-- EnterState: what the PathSet is told
abbrev pub told : PathStatus → PathStatus → List Event
told path_failed old = build_failed ∷ []
told path_expired old = if is_building old then build_timeout ∷ [] else []
told path_timeout old = if is_established old then died ∷ [] else []
told path_building old = []
told path_established old = []
told path_ignore old = []

-- Path::EnterState
unfoldable pub enter_state : PathStatus → ℕ → OwnPath → List Event × OwnPath
enter_state st now p = (
  told st p.status,
  record p { status = st; build_started = if is_building st then now else p.build_started },
)

-- Path::HandleUpstream
unfoldable pub handle_upstream : ℕ → List ℕ → List ℕ → OwnPath → Bool × OwnPath
handle_upstream clock x y p =
    let (fresh, filter) = DecayingHashSet.insert clock (be_value y) 0 p.upstream_filter in
    if fresh
    then (
      true,
      record p { upstream_filter = filter; upstream_queue = enqueue x y p.upstream_queue },
    )
    else (false, record p { upstream_filter = filter })

-- Path::HandleDownstream
unfoldable pub handle_downstream : ℕ → List ℕ → List ℕ → OwnPath → Bool × OwnPath
handle_downstream clock x y p =
    let (fresh, filter) = DecayingHashSet.insert clock (be_value y) 0 p.downstream_filter in
    if fresh
    then (
      true,
      record p { downstream_filter = filter; downstream_queue = enqueue x y p.downstream_queue },
    )
    else (false, record p { downstream_filter = filter })

abbrev pub upstream_jobs : List (List ℕ × List ℕ) → List Event
upstream_jobs [] = []
upstream_jobs (ev ∷ rest) = upstream_job (ev ∷ rest) ∷ []

-- Path::FlushUpstream
unfoldable pub flush_upstream : OwnPath → List Event × OwnPath
flush_upstream p = (upstream_jobs (queued p.upstream_queue), record p { upstream_queue = none })

-- SendRoutingMessage: smaller messages are filled up to pad_size.
abbrev pub padded : Env → List ℕ → List ℕ
padded env buf = if ltb (length buf) 128 then buf ++ env.random_bytes (128 - length buf) else buf

-- Path::SendRoutingMessage of a message of the daemon's own version that encodes so, if it does
unfoldable pub send_routing_message : Env → Option (List ℕ) → OwnPath → Bool × OwnPath
send_routing_message env none p = (false, p)
send_routing_message env (some encoded) p =
    handle_upstream env.clock (padded env encoded) env.random_nonce p
