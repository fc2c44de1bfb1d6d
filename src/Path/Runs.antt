-- ===== src/Path/Runs.antt =====
-- What can happen to a Path of path.cpp, in any order and at any times.
use bittoro_network.Prelude.{
  none, ℕ, List, [], ◌∷◌, Option, some, Bool, false, ◌||◌, ◌&&◌, not, ◌==◌, ◌>>=◌,
}
use bittoro_network.Path.Status.{
  OwnPath, Env, Event, handle_upstream, handle_downstream, flush_upstream, send_routing_message,
}
use bittoro_network.Path.Timers.{tick}
use bittoro_network.Path.Handlers.{
  handle_path_confirm, handle_path_latency, handle_data_discard, handle_hidden_service_frame,
  handle_close_exit, send_exit_request, send_exit_close, handle_reject_exit, handle_grant_exit,
  handle_transfer_traffic,
}
use bittoro_network.Path.BuildStatus.{Frame, handle_lrsm}

-- The calls, each with what it is given
pub data Call : Type 0 where
  ticks : Env → ℕ → Call
  path_confirm : Env → Call
  path_latency : Env → ℕ → Call
  data_discard : Env → Option Bool → Call
  hidden_service_frame : ℕ → Option Bool → Call
  close_exit : Bool → Call
  exit_request : Env → ℕ → Option (List ℕ) → Call
  exit_close : Env → Option (List ℕ) → Call
  reject_exit : Env → ℕ → ℕ → Bool → Call
  grant_exit : Env → ℕ → Bool → Call
  transfer_traffic : Env → Option (List ℕ → ℕ → Bool) → List (List ℕ) → Call
  lrsm : Env → ℕ → List Frame → Call
  routing_message : Env → Option (List ℕ) → Call
  upstream : ℕ → List ℕ → List ℕ → Call
  downstream : ℕ → List ℕ → List ℕ → Call
  flush : Call

-- The path after it; frames that are too few stop the program.
unfoldable pub call : Call → OwnPath → Option OwnPath
call (ticks env now) p = some (tick env now p).1
call (path_confirm env) p = some (handle_path_confirm env p).2
call (path_latency env l) p = some (handle_path_latency env l p).2
call (data_discard env hook) p = some (handle_data_discard env hook p).1
call (hidden_service_frame now hook) p = some (handle_hidden_service_frame now hook p).1
call (close_exit verified) p = some (handle_close_exit verified p).1
call (exit_request env t encoded) p = some (send_exit_request env t encoded p).1
call (exit_close env encoded) p = some (send_exit_close env encoded p).1
call (reject_exit env t b verified) p = some (handle_reject_exit env t b verified p).2
call (grant_exit env t verified) p = some (handle_grant_exit env t verified p).2
call (transfer_traffic env handler pkts) p = some (handle_transfer_traffic env handler pkts p).2
call (lrsm env status frames) p =
    handle_lrsm env status frames p >>= λ (r : List Event × OwnPath). some r.1
call (routing_message env encoded) p = some (send_routing_message env encoded p).1
call (upstream clock x y) p = some (handle_upstream clock x y p).1
call (downstream clock x y) p = some (handle_downstream clock x y p).1
call flush p = some (flush_upstream p).1

-- The L of a latency message
abbrev latency_of : Call → Option ℕ
latency_of (path_latency env l) = some l
latency_of (ticks env now) = none
latency_of (path_confirm env) = none
latency_of (data_discard env hook) = none
latency_of (hidden_service_frame now hook) = none
latency_of (close_exit verified) = none
latency_of (exit_request env t encoded) = none
latency_of (exit_close env encoded) = none
latency_of (reject_exit env t b verified) = none
latency_of (grant_exit env t verified) = none
latency_of (transfer_traffic env handler pkts) = none
latency_of (lrsm env status frames) = none
latency_of (routing_message env encoded) = none
latency_of (upstream clock x y) = none
latency_of (downstream clock x y) = none
latency_of flush = none

-- Is the call a latency message with the id of the test that is out? The id 0 says that none is.
unfoldable pub answers : Call → OwnPath → Bool
answers c p = elim (latency_of c) [
  | none ↦ false
  | some l ↦ l == p.last_latency_test_id && not (p.last_latency_test_id == 0)
]

-- Is the call a latency message with L = 0 while no test is out?
unfoldable pub is_unasked : Call → OwnPath → Bool
is_unasked c p = elim (latency_of c) [
  | none ↦ false
  | some l ↦ l == 0 && p.last_latency_test_id == 0
]

pub record Run : Type 0 where
  -- Did a call answer the test that was out when it came?
  pub answered : Bool
  -- Was a call a latency message with L = 0 that came while no test was out?
  pub unasked : Bool
  pub path : OwnPath

-- Some calls, each on the path that the one before it leaves
unfoldable pub run : List Call → OwnPath → Option Run
run [] p = some (record { answered = false; unasked = false; path = p })
run (c ∷ cs) p = call c p >>= λ q. run cs q >>= λ (r : Run).
    some (record r { answered = answers c p || r.answered; unasked = is_unasked c p || r.unasked })
