-- ===== src/Path/Latency.antt =====
-- path.cpp: no call but an answered latency test sets the latency of a path.
use bittoro_network.Prelude.{
  ℕ, ◌≡◌, refl, ap, sym, some_inj, >>=-eq-some, List, [], ◌∷◌, ◌∙◌, Option, none, some, Bool, false,
  leb, ltb, ◌==◌, if◌then◌else◌, length, take, drop, inl, inr, Bool-cases, arith,
}
use bittoro_network.Prelude.Bytes.{be_value}
use bittoro_network.Util.DecayingHashSet
use bittoro_network.Path.Status.{
  OwnPath, Event, PathStatus, path_building, path_established, path_timeout, path_failed,
  path_ignore, path_expired, Env, mark_active, clear_roles, enter_state, handle_upstream,
  handle_downstream, flush_upstream, send_routing_message,
}
use bittoro_network.Path.Timers.{
  tick, tick_in, tick_building, tick_established, test_latency, check_dead,
}
use bittoro_network.Path.Handlers.{
  handle_path_confirm, handle_path_latency, confirmed, handle_close_exit, inform_exit_result,
  handle_reject_exit, handle_grant_exit, traffic_loop, handle_transfer_traffic,
}
use bittoro_network.Path.BuildStatus.{Frame, read_frames, succeeded, blame, handle_lrsm}

pub handle_upstream-latency :
    (clock : ℕ) (x y : List ℕ) (p : OwnPath)
    → (handle_upstream clock x y p).1.intro_latency ≡ p.intro_latency
unfolding handle_upstream
handle_upstream-latency clock x y p = ground arith

pub handle_downstream-latency :
    (clock : ℕ) (x y : List ℕ) (p : OwnPath)
    → (handle_downstream clock x y p).1.intro_latency ≡ p.intro_latency
unfolding handle_downstream
handle_downstream-latency clock x y p = ground arith

pub send_routing_message-latency :
    (env : Env) (encoded : Option (List ℕ)) (p : OwnPath)
    → (send_routing_message env encoded p).1.intro_latency ≡ p.intro_latency
unfolding send_routing_message
send_routing_message-latency env none p = refl
send_routing_message-latency env (some encoded) p = handle_upstream-latency env.clock _ _ p

tick_in-latency :
    (st : PathStatus) (env : Env) (now : ℕ) (p : OwnPath)
    → (tick_in st env now p).1.intro_latency ≡ p.intro_latency
unfolding tick_building tick_established test_latency check_dead flush_upstream enter_state
tick_in-latency path_building env now p = ground arith
tick_in-latency path_established env now p = ground (
  arith,
  send_routing_message-latency env (env.encode_latency env.randint)
      (record p { last_latency_test_id = env.randint; last_latency_test_time = now }),
)
tick_in-latency path_timeout env now p = refl
tick_in-latency path_failed env now p = refl
tick_in-latency path_ignore env now p = refl
tick_in-latency path_expired env now p = refl

pub tick-latency :
    (env : Env) (now : ℕ) (p : OwnPath) → (tick env now p).1.intro_latency ≡ p.intro_latency
unfolding tick
tick-latency env now p = ground (
  arith,
  tick_in-latency p.status env now (record p {
    upstream_filter = DecayingHashSet.decay env.clock now p.upstream_filter;
    downstream_filter = DecayingHashSet.decay env.clock now p.downstream_filter;
  }),
)

pub handle_path_confirm-latency :
    (env : Env) (p : OwnPath) → (handle_path_confirm env p).2.intro_latency ≡ p.intro_latency
unfolding handle_path_confirm flush_upstream mark_active
handle_path_confirm-latency env p =
    let kept =
      send_routing_message-latency env (env.encode_latency env.randint) (confirmed env p) in
    ground (arith, kept)

pub handle_path_latency-latency :
    (env : Env) (l : ℕ) (p : OwnPath)
    → (l == p.last_latency_test_id) ≡ false
    → (handle_path_latency env l p).2.intro_latency ≡ p.intro_latency
unfolding handle_path_latency mark_active
handle_path_latency-latency env l p other = rw other refl

pub handle_close_exit-latency :
    (verified : Bool) (p : OwnPath)
    → (handle_close_exit verified p).1.intro_latency ≡ p.intro_latency
unfolding handle_close_exit clear_roles
handle_close_exit-latency verified p = ground arith

pub handle_reject_exit-latency :
    (env : Env) (t b : ℕ) (verified : Bool) (p : OwnPath)
    → (handle_reject_exit env t b verified p).2.intro_latency ≡ p.intro_latency
unfolding handle_reject_exit inform_exit_result mark_active
handle_reject_exit-latency env t b verified p = ground arith

pub handle_grant_exit-latency :
    (env : Env) (t : ℕ) (verified : Bool) (p : OwnPath)
    → (handle_grant_exit env t verified p).2.intro_latency ≡ p.intro_latency
unfolding handle_grant_exit inform_exit_result mark_active
handle_grant_exit-latency env t verified p = ground arith

traffic_loop-latency :
    (env : Env) (handler : List ℕ → ℕ → Bool) (sent : Bool) (pkts : List (List ℕ)) (p : OwnPath)
    → (traffic_loop env handler sent pkts p).2.intro_latency ≡ p.intro_latency
unfolding traffic_loop enter_state mark_active
traffic_loop-latency env handler sent [] p = refl
traffic_loop-latency env handler sent (pkt ∷ pkts) p =
    let q =
      (if handler (drop 8 pkt) (be_value (take 8 pkt))
        then enter_state path_established env.now (mark_active env.now p)
        else ([], p)).1 in
    let kept : q.intro_latency ≡ p.intro_latency = ground arith in
    let rest : (traffic_loop env handler sent pkts q).2.intro_latency ≡ p.intro_latency =
      traffic_loop-latency env handler sent pkts q ∙ kept in
    elim (Bool-cases (leb (length pkt) 8)) [ inl e ↦ rw e refl | inr e ↦ rw e rest ]

pub handle_transfer_traffic-latency :
    (env : Env) (handler : Option (List ℕ → ℕ → Bool)) (pkts : List (List ℕ)) (p : OwnPath)
    → (handle_transfer_traffic env handler pkts p).2.intro_latency ≡ p.intro_latency
unfolding handle_transfer_traffic
handle_transfer_traffic-latency env none pkts p = refl
handle_transfer_traffic-latency env (some handler) pkts p =
    ground (arith, traffic_loop-latency env handler (ltb 0 (length pkts)) pkts p)

pub handle_lrsm-latency :
    (env : Env) (status : ℕ) (frames : List Frame) (p : OwnPath) {r : List Event × OwnPath}
    → handle_lrsm env status frames p ≡ some r
    → r.1.intro_latency ≡ p.intro_latency
unfolding handle_lrsm enter_state
handle_lrsm-latency env status frames p {r = r} made =
    let ((s, who), read, e) = >>=-eq-some (read_frames status p.hops frames) _ made in
    elim (Bool-cases (succeeded s)) [
      | inl ok ↦
          let t : some ((handle_path_confirm env p).1, (handle_path_confirm env p).2) ≡ some r =
            rw ok at e in
          ap (λ (r : List Event × OwnPath). r.1.intro_latency) (sym (some_inj t))
          ∙ handle_path_confirm-latency env p
      | inr bad ↦
          let t : some (
            blame who ∷ (enter_state path_failed env.now p).0,
            (enter_state path_failed env.now p).1,
          )
              ≡ some r =
            rw bad at e in
          ap (λ (r : List Event × OwnPath). r.1.intro_latency) (sym (some_inj t))
    ]
