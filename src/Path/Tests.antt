-- ===== src/Path/Tests.antt =====
-- Paths on concrete inputs.
use bittoro_network.Prelude.{
  ◌⊎◌, ℕ, ◌+◌, ◌*◌, ◌≡◌, refl, ap, map, List, [], ◌∷◌, Option, none, some, true, false, length,
  replicate, take, drop, arith,
}
use bittoro_network.Prelude.Xor.{xor_bytes}
use bittoro_network.Crypto.{
  Sodium, IsKeyExchange, IsStream, encryption_keygen, dh, dh_client, shorthash,
}
use bittoro_network.Path.Hop.{PathHopConfig, CommitRecord, TransitHop}
use bittoro_network.Path.Transit.{queued}
use bittoro_network.Path.Build.{
  new_hop, new_hops, link_hops, hop_keys, commit_record, generate_keys, generate_from,
}
use bittoro_network.Path.Journey.{
  Place, contact, planned, accept_all, heard, travel_up, travel_down, client_sends, client_hears,
  first_router, arrival_nonce, IsNew,
}
use bittoro_network.Path.Built.{IsPlan}
use bittoro_network.Prelude.Assoc.{find, emplace}
use bittoro_network.Prelude.Bytes.{be_value}
use bittoro_network.Util.DecayingHashSet.{DecayingHashSet, contains, insert}
use bittoro_network.Path.Status.{
  OwnPath, path_building, path_expired, path_failed, marked_path_fail, build_timeout,
  marked_hop_fail, build_failed, Env, handle_upstream, send_routing_message, enter_state,
  mark_active, is_ready, flush_upstream,
}
use bittoro_network.Path.BuildStatus.{status_record, handle_lrsm}
use bittoro_network.Path.Handlers.{handle_path_latency, handle_path_confirm}
use bittoro_network.Path.Ticks.{run_ticks, build_times_out}
use bittoro_network.Path.Blame.{handle_lrsm-outcome}
use bittoro_network.Path.Runs.{
  Call, path_confirm, path_latency, Run, run, call, answers, is_unasked,
}
use bittoro_network.Path.Ready.{is_ready-answers}
use bittoro_network.Path.Delivery.{upstream_delivers, downstream_delivers}

abbrev total : List ℕ → ℕ
total [] = 0
total (x ∷ xs) = x + total xs

-- Products in place of curve points, sums in place of hashes
abbrev toy_stream : List ℕ → List ℕ → ℕ → List ℕ
toy_stream n k len = replicate len (total n + total k)

abbrev toy : Sodium
toy = record {
  scalarmult = λ a p. some (total a * total p ∷ []);
  scalarmult_base = λ b. total b ∷ [];
  generichash = λ m k. (3 * total m + total k) ∷ [];
  stream_xor = λ m n k. xor_bytes m (toy_stream n k (length m));
}

toy-IsKeyExchange : IsKeyExchange toy
unfolding IsKeyExchange
toy-IsKeyExchange a b =
    let swap : total a * (total b + 0) ≡ total b * (total a + 0) = ground arith in
    ap (λ n. some (n ∷ [])) swap

toy-IsStream : IsStream toy toy_stream
unfolding IsStream
toy-IsStream buf n k = refl

abbrev first_place : Place
first_place = record { router = 11; scalar = 5 ∷ []; tx = 3; rx = 4 }

abbrev other_places : List Place
other_places =
    record { router = 12; scalar = 6 ∷ []; tx = 7; rx = 8 }
    ∷ (record { router = 13; scalar = 2 ∷ []; tx = 9; rx = 1 } ∷ [])

abbrev draws : ℕ → List ℕ × List ℕ
draws i = ((i + 2) ∷ [], (i + 40) ∷ (i ∷ []))

abbrev built_of :
    Option (List PathHopConfig × List CommitRecord) → List PathHopConfig × List CommitRecord
built_of none = ([], [])
built_of (some built) = built

abbrev a_build : List PathHopConfig × List CommitRecord
unfolding planned new_hops new_hop link_hops contact generate_keys generate_from hop_keys
    commit_record dh_client dh encryption_keygen shorthash
a_build = built_of (generate_keys toy draws (λ r. true) (planned toy (first_place ∷ other_places)))

a_build_made :
    generate_keys toy draws (λ r. true) (planned toy (first_place ∷ other_places)) ≡ some a_build
unfolding planned new_hops new_hop link_hops contact generate_keys generate_from hop_keys
    commit_record dh_client dh encryption_keygen shorthash
a_build_made = refl

places-IsPlan : IsPlan (first_place ∷ other_places)
unfolding IsPlan
places-IsPlan = (
  (λ e. omega (arith, e)),
  (λ e. omega (arith, e)),
  (λ e. omega (arith, e)),
  (
    (λ e. omega (arith, e)),
    (λ e. omega (arith, e)),
    (λ e. omega (arith, e)),
    ((λ e. omega (arith, e)), (λ e. omega (arith, e))),
  ),
)

abbrev some_events : List (List ℕ × List ℕ)
some_events = (72 ∷ (105 ∷ []), 1 ∷ (2 ∷ [])) ∷ ((33 ∷ [], 200 ∷ (7 ∷ [])) ∷ [])

upstream_delivers_example :
    (relays : List (ℕ × TransitHop)) × (accept_all toy
        (λ seconds. true)
        1000
        99
        (first_place ∷ other_places)
        a_build.1
      ≡ some relays)
    × (heard (travel_up toy (λ x t. t) 1000 99 relays (client_sends toy a_build.0 some_events))
        ≡ (72 ∷ (105 ∷ [])) ∷ ((33 ∷ []) ∷ []))
upstream_delivers_example =
    upstream_delivers toy toy-IsKeyExchange toy_stream toy-IsStream (λ x t. t) (λ seconds. true)
      1000 99 first_place other_places draws (λ r. true) places-IsPlan a_build_made some_events
      (omega arith, (omega arith, tt))

abbrev no_nonces : DecayingHashSet
no_nonces = record { cache_interval = 5000; values = [] }

some_events-IsNew :
    IsNew 5000 no_nonces (map (λ (ev : List ℕ × List ℕ). arrival_nonce a_build.0 ev.1) some_events)
unfolding IsNew arrival_nonce xor_bytes a_build contains insert find emplace be_value
some_events-IsNew = (refl, (refl, tt))

downstream_delivers_example :
    (relays : List (ℕ × TransitHop)) × (accept_all toy
        (λ seconds. true)
        1000
        99
        (first_place ∷ other_places)
        a_build.1
      ≡ some relays)
    × (client_hears toy 5000 99 a_build.0 no_nonces
          (travel_down toy (λ x t. t) 1000 relays some_events)
        ≡ (72 ∷ (105 ∷ [])) ∷ ((33 ∷ []) ∷ []))
downstream_delivers_example =
    downstream_delivers toy toy-IsKeyExchange toy_stream toy-IsStream (λ x t. t) (λ seconds. true)
      1000 99 5000 no_nonces first_place other_places draws (λ r. true) places-IsPlan a_build_made
      some_events (omega arith, (omega arith, tt)) some_events-IsNew

abbrev a_path : OwnPath
a_path = record {
  hops = a_build.0;
  intro_latency = 0;
  intro_expires_at = 0;
  build_started = 1000;
  last_recv_message = 0;
  last_latency_test_time = 0;
  last_latency_test_id = 0;
  exit_obtain_tx = 0;
  status = path_building;
  role = 0;
  has_built_hook = true;
  check_for_dead = none;
  obtained_exit_hooks = [];
  upstream_filter = no_nonces;
  downstream_filter = no_nonces;
  upstream_queue = none;
  downstream_queue = none;
}

abbrev env_at : ℕ → Env
env_at now = record {
  now = now;
  clock = now;
  randint = 77;
  random_nonce = now ∷ [];
  random_bytes = λ n. replicate n 1;
  encode_latency = λ t. some (t ∷ []);
}

build_times_out_example :
    ((run_ticks
        ((env_at 2000, 2000) ∷ ((env_at 32000, 32000) ∷ ((env_at 33000, 33000) ∷ [])))
        a_path).0
      ≡ marked_path_fail ∷ (build_timeout ∷ []))
    × ((run_ticks
          ((env_at 2000, 2000) ∷ ((env_at 32000, 32000) ∷ ((env_at 33000, 33000) ∷ [])))
          a_path).1.status
        ≡ path_expired)
build_times_out_example =
    build_times_out ((env_at 2000, 2000) ∷ ((env_at 32000, 32000) ∷ ((env_at 33000, 33000) ∷ [])))
      a_path refl (λ e. omega (arith, e)) (omega arith, (omega arith, (omega arith, tt)))

handle_lrsm-outcome_example :
    handle_lrsm (env_at 1500) 1 (status_record 1 ∷ (status_record 4 ∷ [])) a_path
    ≡ some (marked_hop_fail 13 ∷ (build_failed ∷ []), record a_path { status = path_failed })
unfolding a_build
handle_lrsm-outcome_example =
    handle_lrsm-outcome (env_at 1500) 1 a_path (take 1 a_build.0) (drop 1 a_build.0) (1 ∷ [])
      (status_record 4) [] refl (λ e. omega (arith, e)) refl (refl, tt) refl

abbrev a_run : List Call
a_run = path_confirm (env_at 1500) ∷ (path_latency (env_at 1700) 77 ∷ [])

abbrev end_of : Option Run → Run
end_of none = record { answered = false; unasked = false; path = a_path }
end_of (some r) = r

abbrev a_run_end : Run
unfolding run call answers is_unasked handle_path_confirm handle_path_latency send_routing_message
    handle_upstream enter_state mark_active flush_upstream insert queued first_router a_build
a_run_end = end_of (run a_run a_path)

is_ready-answers_example : (a_run_end.answered ≡ true) ⊎ (a_run_end.unasked ≡ true)
unfolding run call answers is_unasked handle_path_confirm handle_path_latency send_routing_message
    handle_upstream enter_state mark_active flush_upstream insert queued first_router a_build
    a_run_end is_ready find
is_ready-answers_example = is_ready-answers a_run a_path {r = a_run_end} refl refl refl

-- A path that nothing has confirmed is ready after a latency message with L = 0.
ready_unasked : is_ready (handle_path_latency (env_at 1700) 0 a_path).2 ≡ true
unfolding is_ready handle_path_latency mark_active enter_state
ready_unasked = refl
