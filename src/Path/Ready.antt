-- ===== src/Path/Ready.antt =====
-- path.cpp: what must have happened before a path is ready.
use bittoro_network.Prelude.{
  ◌==◌, ◌&&◌, not, ◌⊎◌, arith, ℕ, ◌≡◌, refl, sym, ap, ◌∙◌, List, [], ◌∷◌, some, Bool, true, false,
  ◌||◌, inl, inr, Bool-cases, some_inj, >>=-eq-some,
}
use bittoro_network.Path.Status.{OwnPath, is_ready, mark_active, clear_roles, flush_upstream}
use bittoro_network.Path.Handlers.{
  handle_data_discard, handle_hidden_service_frame, send_exit_request, send_exit_close,
}
use bittoro_network.Path.BuildStatus.{handle_lrsm}
use bittoro_network.Path.Runs.{
  Call, ticks, path_confirm, path_latency, data_discard, hidden_service_frame, close_exit,
  exit_request, exit_close, reject_exit, grant_exit, transfer_traffic, lrsm, routing_message,
  upstream, downstream, flush, call, answers, is_unasked, Run, run,
}
use bittoro_network.Path.Latency.{
  handle_upstream-latency, handle_downstream-latency, send_routing_message-latency, tick-latency,
  handle_path_confirm-latency, handle_path_latency-latency, handle_close_exit-latency,
  handle_reject_exit-latency, handle_grant_exit-latency, handle_transfer_traffic-latency,
  handle_lrsm-latency,
}

becomes : {x q : OwnPath} {v : ℕ} → some x ≡ some q → x.intro_latency ≡ v → q.intro_latency ≡ v
becomes e kept = ap (λ (x : OwnPath). x.intro_latency) (sym (some_inj e)) ∙ kept

not_taken :
    (l id : ℕ)
    → (l == id && not (id == 0)) ≡ false
    → (l == 0 && id == 0) ≡ false
    → (l == id) ≡ false
not_taken l id other asked = ground arith

-- A call that is neither kind of latency message leaves the latency as it is.
call-latency :
    (c : Call) (p q : OwnPath)
    → answers c p ≡ false
    → is_unasked c p ≡ false
    → call c p ≡ some q
    → q.intro_latency ≡ p.intro_latency
unfolding call answers is_unasked mark_active clear_roles flush_upstream handle_data_discard
    handle_hidden_service_frame send_exit_request send_exit_close
call-latency (ticks env now) p q other asked e = becomes e (tick-latency env now p)
call-latency (path_confirm env) p q other asked e = becomes e (handle_path_confirm-latency env p)
call-latency (path_latency env l) p q other asked e =
    becomes e (handle_path_latency-latency env l p (not_taken l p.last_latency_test_id other asked))
call-latency (data_discard env hook) p q other asked e = becomes e refl
call-latency (hidden_service_frame now hook) p q other asked e = becomes e refl
call-latency (close_exit verified) p q other asked e =
    becomes e (handle_close_exit-latency verified p)
call-latency (exit_request env t encoded) p q other asked e =
    becomes e (send_routing_message-latency env encoded _)
call-latency (exit_close env encoded) p q other asked e =
    becomes e (send_routing_message-latency env encoded _)
call-latency (reject_exit env t b verified) p q other asked e =
    becomes e (handle_reject_exit-latency env t b verified p)
call-latency (grant_exit env t verified) p q other asked e =
    becomes e (handle_grant_exit-latency env t verified p)
call-latency (transfer_traffic env handler pkts) p q other asked e =
    becomes e (handle_transfer_traffic-latency env handler pkts p)
call-latency (routing_message env encoded) p q other asked e =
    becomes e (send_routing_message-latency env encoded p)
call-latency (upstream clock x y) p q other asked e =
    becomes e (handle_upstream-latency clock x y p)
call-latency (downstream clock x y) p q other asked e =
    becomes e (handle_downstream-latency clock x y p)
call-latency flush p q other asked e = becomes e refl
call-latency (lrsm env status frames) p q other asked e =
    let (r, read, t) = >>=-eq-some (handle_lrsm env status frames p) _ e in
    becomes t (handle_lrsm-latency env status frames p read)

neither : (a b : Bool) → (a || b) ≡ false → (a ≡ false) × (b ≡ false)
neither true b h = absurd (let t : true ≡ false = h in cc)
neither false b h = (refl, h)

run-latency :
    (cs : List Call) (p : OwnPath) {r : Run}
    → run cs p ≡ some r
    → r.answered ≡ false
    → r.unasked ≡ false
    → r.path.intro_latency ≡ p.intro_latency
unfolding run
run-latency [] p e silent asked = ap (λ (r : Run). r.path.intro_latency) (sym (some_inj e))
run-latency (c ∷ cs) p {r = r} e silent asked =
    let (q, first, e') = >>=-eq-some (call c p) _ e in
    let (more, others, e'') = >>=-eq-some (run cs q) _ e' in
    let is = some_inj e'' in
    let (now, later) =
      neither (answers c p) more.answered (ap (λ (r : Run). r.answered) is ∙ silent) in
    let (now', later') =
      neither (is_unasked c p) more.unasked (ap (λ (r : Run). r.unasked) is ∙ asked) in
    ap (λ (r : Run). r.path.intro_latency) (sym is)
    ∙ run-latency cs q others later later'
    ∙ call-latency c p q now now' first

-- Over any calls on a path that starts with no latency measured, if the path is ready after them,
-- then one of them was a latency message of one of two kinds: its L was the id of the test that was
-- out when it came, which is not 0; or its L was 0 and no test was out, which the code takes for an
-- answer too.
pub is_ready-answers :
    (cs : List Call) (p : OwnPath) {r : Run}
    → p.intro_latency ≡ 0
    → run cs p ≡ some r
    → is_ready r.path ≡ true
    → (r.answered ≡ true) ⊎ (r.unasked ≡ true)
unfolding is_ready
is_ready-answers cs p {r = r} new e ready = elim (Bool-cases r.answered) [
  | inl answered ↦ inl answered
  | inr silent ↦ elim (Bool-cases r.unasked) [
    | inl unasked ↦ inr unasked
    | inr asked ↦ absurd (
        let zero : r.path.intro_latency ≡ 0 = run-latency cs p e silent asked ∙ new in
        let t : false ≡ true = rw zero at ready in cc)
  ]
]
