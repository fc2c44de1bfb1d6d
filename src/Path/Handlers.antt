-- ===== src/Path/Handlers.antt =====
-- The handlers of routing messages of Path in path.cpp. Where a message is signed, `verified` is
-- what its Verify returns; a hook that is set is what it returns.
use Prim.Native.Nat.{bit_or}
use bittoro_network.Prelude.{
  ◌%◌, ◌^◌, ℕ, ◌+◌, List, [], ◌∷◌, ◌++◌, Option, none, some, Bool, true, false, ◌&&◌, leb, ltb,
  ◌==◌, if◌then◌else◌, length, take, drop, sub64,
}
use bittoro_network.Prelude.Bytes.{be_value}
use bittoro_network.Path.Journey.{first_router}
use bittoro_network.Path.Status.{
  OwnPath, path_established, Event, marked_path_success, persisted, built_hook, exit_result, Env,
  role_exit, role_svc, is_building, mark_active, supports_any_roles, clear_roles, enter_state,
  send_routing_message, flush_upstream, first_lifetime,
}

-- HandlePathConfirmMessage: the path before it sends its first latency test
abbrev pub confirmed : Env → OwnPath → OwnPath
confirmed env p =
    let q =
      mark_active env.clock
        (record p { intro_expires_at = (p.build_started + first_lifetime p.hops) % 2 ^ 64 }) in
    record q { last_latency_test_id = env.randint; last_latency_test_time = env.clock }

-- Path::HandlePathConfirmMessage
unfoldable pub handle_path_confirm : Env → OwnPath → Bool × List Event × OwnPath
handle_path_confirm env p =
    if is_building p.status
    then (let told =
          marked_path_success
          ∷ (persisted (first_router p.hops) ((p.build_started + first_lifetime p.hops) % 2 ^ 64)
              ∷ []) in
        let (ok, q) = send_routing_message env (env.encode_latency env.randint) (confirmed env p) in
        let (jobs, flushed) = flush_upstream q in
        if ok then (true, told ++ jobs, flushed) else (false, told, q))
    else (false, [], p)

-- HandlePathLatencyMessage: the answer to the test that is out
abbrev pub answered : Env → OwnPath → List Event × OwnPath
answered env p =
    let (told, q) = enter_state path_established env.now (record p {
      intro_latency = sub64 env.now p.last_latency_test_time;
      last_latency_test_id = 0;
    }) in
    (
      told ++ (if p.has_built_hook then built_hook ∷ [] else []),
      record q { has_built_hook = false },
    )

-- Path::HandlePathLatencyMessage, by the L of the message
unfoldable pub handle_path_latency : Env → ℕ → OwnPath → Bool × List Event × OwnPath
handle_path_latency env l p =
    let q = mark_active env.now p in
    if l == q.last_latency_test_id
    then (let (told, after) = answered env q in (true, told, after))
    else (false, [], q)

abbrev hook_or : Bool → Option Bool → Bool
hook_or default none = default
hook_or default (some result) = result

-- Path::HandleDataDiscardMessage
unfoldable pub handle_data_discard : Env → Option Bool → OwnPath → Bool × OwnPath
handle_data_discard env hook p = (hook_or true hook, mark_active env.now p)

-- Path::HandleHiddenServiceFrame, by the clock of the PathSet
unfoldable pub handle_hidden_service_frame : ℕ → Option Bool → OwnPath → Bool × OwnPath
handle_hidden_service_frame now hook p = (hook_or false hook, mark_active now p)

-- Path::HandleCloseExitMessage
unfoldable pub handle_close_exit : Bool → OwnPath → Bool × OwnPath
handle_close_exit verified p =
    if supports_any_roles (role_exit + role_svc) p && verified
    then (true, clear_roles role_exit p)
    else (false, p)

-- Path::SendExitRequest, by the T of the message and what it encodes to
unfoldable pub send_exit_request : Env → ℕ → Option (List ℕ) → OwnPath → Bool × OwnPath
send_exit_request env t encoded p =
    send_routing_message env encoded (record p { exit_obtain_tx = t })

-- Path::SendExitClose
unfoldable pub send_exit_close : Env → Option (List ℕ) → OwnPath → Bool × OwnPath
send_exit_close env encoded p = send_routing_message env encoded (clear_roles role_exit p)

abbrev call_all : List (ℕ → Bool) → ℕ → Bool
call_all [] b = true
call_all (hook ∷ hooks) b = hook b && call_all hooks b

-- Path::InformExitResult
unfoldable pub inform_exit_result : ℕ → OwnPath → Bool × List Event × OwnPath
inform_exit_result b p =
    (call_all p.obtained_exit_hooks b, exit_result b ∷ [], record p { obtained_exit_hooks = [] })

abbrev pub asked_for : ℕ → OwnPath → Bool
asked_for t p = ltb 0 p.exit_obtain_tx && t == p.exit_obtain_tx

-- Path::HandleRejectExitMessage, by the T and the B of the message
unfoldable pub handle_reject_exit : Env → ℕ → ℕ → Bool → OwnPath → Bool × List Event × OwnPath
handle_reject_exit env t b verified p =
    if asked_for t p && verified
    then inform_exit_result b (mark_active env.now p)
    else (false, [], p)

-- Path::HandleGrantExitMessage
unfoldable pub handle_grant_exit : Env → ℕ → Bool → OwnPath → Bool × List Event × OwnPath
handle_grant_exit env t verified p =
    if asked_for t p && verified
    then inform_exit_result 0 (mark_active env.now (record p { role = bit_or p.role role_exit }))
    else (false, [], p)

-- HandleTransferTrafficMessage: the loop over the packets, with what it returns at its end
unfoldable pub traffic_loop :
    Env → (List ℕ → ℕ → Bool) → Bool → List (List ℕ) → OwnPath → Bool × List Event × OwnPath
traffic_loop env handler sent [] p = (sent, [], p)
traffic_loop env handler sent (pkt ∷ pkts) p =
    if leb (length pkt) 8
    then (false, [], p)
    else (let (told, q) =
          if handler (drop 8 pkt) (be_value (take 8 pkt))
          then enter_state path_established env.now (mark_active env.now p)
          else ([], p) in
        let (result, more, after) = traffic_loop env handler sent pkts q in
        (result, told ++ more, after))

-- Path::HandleTransferTrafficMessage, with m_ExitTrafficHandler
unfoldable pub handle_transfer_traffic :
    Env → Option (List ℕ → ℕ → Bool) → List (List ℕ) → OwnPath → Bool × List Event × OwnPath
handle_transfer_traffic env none pkts p = (false, [], p)
handle_transfer_traffic env (some handler) pkts p =
    if supports_any_roles (role_exit + role_svc) p
    then traffic_loop env handler (ltb 0 (length pkts)) pkts p
    else (false, [], p)
