-- ===== src/Path/Journey.antt =====
-- A built path, and the messages that travel along it: relay.cpp of llarp/messages, the queues of
-- both ends of a link and the work on them. The link messages themselves arrive as they were sent.
use bittoro_network.Prelude.{
  ℕ, ◌≡◌, ◌&&◌, false, List, [], ◌∷◌, ◌++◌, map, Option, some, Bool, ◌==◌, ◌||◌, if◌then◌else◌,
  ◌>>=◌,
}
use bittoro_network.Prelude.Bytes.{be_value}
use bittoro_network.Prelude.Xor.{xor_bytes}
use bittoro_network.Util.DecayingHashSet
use bittoro_network.Util.DecayingHashSet.{DecayingHashSet}
use bittoro_network.Crypto.{Sodium, encryption_keygen}
use bittoro_network.Path.Hop.{RouterContact, PathHopConfig, CommitRecord, TransitHop, RelayMessage}
use bittoro_network.Path.Build.{new_hops, link_hops, handle_decrypted}
use bittoro_network.Path.Transit
use bittoro_network.Path.Transit.{
  Action, sent, parsed, upstream_job, downstream_job, flushed, pumped, receive_upstream,
  receive_downstream, flush_upstream, flush_downstream, handle_all_upstream, handle_all_downstream,
}
use bittoro_network.Path.Layers
use bittoro_network.Path.Layers.{first_tx_id, first_rx_id}

-- A router of the path, with its secret scalar, and the ids drawn for the hop on it
pub record Place : Type 0 where
  pub router : ℕ
  pub scalar : List ℕ
  pub tx : ℕ
  pub rx : ℕ

unfoldable pub contact : Sodium → Place → RouterContact × (ℕ × ℕ)
contact c p =
    let enckey = (encryption_keygen c p.scalar).to_public in
    (record { pubkey = p.router; enckey = enckey }, (p.tx, p.rx))

-- The hops of a path over these places, before it has keys
unfoldable pub planned : Sodium → List Place → List PathHopConfig
planned c ps = link_hops (new_hops (map (contact c) ps))

-- Each router accepts its record, which the one before it passes on.
unfoldable pub accept_all :
    Sodium → (ℕ → Bool) → ℕ → ℕ → List Place → List CommitRecord → Option (List (ℕ × TransitHop))
accept_all c valid now from (p ∷ ps) (r ∷ rs) =
    handle_decrypted c valid now (encryption_keygen c p.scalar) from r >>= λ t.
    accept_all c valid now p.router ps rs >>= λ more. some ((p.router, t) ∷ more)
accept_all c valid now from ps rs = some []

-- What the actions send to one router
unfoldable pub messages_to : ℕ → List Action → List RelayMessage
messages_to r [] = []
messages_to r (sent to msg ∷ acts) =
    let rest = messages_to r acts in if to == r then msg ∷ rest else rest
messages_to r (parsed x id ∷ acts) = messages_to r acts
messages_to r (upstream_job q ∷ acts) = messages_to r acts
messages_to r (downstream_job q ∷ acts) = messages_to r acts
messages_to r (flushed id ∷ acts) = messages_to r acts
messages_to r (pumped ∷ acts) = messages_to r acts

-- What the actions pass to the router's parser of routing messages
unfoldable pub heard : List Action → List (List ℕ)
heard [] = []
heard (sent to msg ∷ acts) = heard acts
heard (parsed x id ∷ acts) = x ∷ heard acts
heard (upstream_job q ∷ acts) = heard acts
heard (downstream_job q ∷ acts) = heard acts
heard (flushed id ∷ acts) = heard acts
heard (pumped ∷ acts) = heard acts

unfoldable pub receive_all_upstream : ℕ → List RelayMessage → TransitHop → TransitHop
receive_all_upstream remote [] t = t
receive_all_upstream remote (msg ∷ msgs) t =
    receive_all_upstream remote msgs (receive_upstream remote msg t).1

unfoldable pub receive_all_downstream : ℕ → List RelayMessage → TransitHop → TransitHop
receive_all_downstream remote [] t = t
receive_all_downstream remote (msg ∷ msgs) t =
    receive_all_downstream remote msgs (receive_downstream remote msg t).1

module _ (c : Sodium) (parse : List ℕ → TransitHop → TransitHop) (now us : ℕ) where
  -- The thread pool runs the jobs for the hop, and the logic thread handles what comes of them.
  unfoldable pub run_jobs : List Action → TransitHop → List Action
  run_jobs [] t = []
  run_jobs (upstream_job q ∷ acts) t =
      (handle_all_upstream parse us now (Transit.upstream_work c t q) t).0 ++ run_jobs acts t
  run_jobs (downstream_job q ∷ acts) t =
      handle_all_downstream (Transit.downstream_work c t q) t ++ run_jobs acts t
  run_jobs (sent to msg ∷ acts) t = run_jobs acts t
  run_jobs (parsed x id ∷ acts) t = run_jobs acts t
  run_jobs (flushed id ∷ acts) t = run_jobs acts t
  run_jobs (pumped ∷ acts) t = run_jobs acts t

  -- One router takes messages from below and works on them.
  unfoldable pub relay_up : ℕ → List RelayMessage → TransitHop → List Action
  relay_up remote msgs t =
      let (jobs, after) = flush_upstream (receive_all_upstream remote msgs t) in run_jobs jobs after

  -- One router takes messages from above and works on them.
  unfoldable pub relay_down : ℕ → List RelayMessage → TransitHop → List Action
  relay_down remote msgs t =
      let (jobs, after) = flush_downstream (receive_all_downstream remote msgs t) in
      run_jobs jobs after

module _ (c : Sodium) (parse : List ℕ → TransitHop → TransitHop) (now : ℕ) where
  -- From router to router up the path, from what `from` does: what the last one does
  unfoldable pub travel_up : ℕ → List (ℕ × TransitHop) → List Action → List Action
  travel_up from [] acts = acts
  travel_up from ((r, t) ∷ rest) acts =
      travel_up r rest (relay_up c parse now r from (messages_to r acts) t)

  -- What is in the downstream queue of the last hop, from router to router down the path: what the
  -- first one does
  unfoldable pub travel_down : List (ℕ × TransitHop) → List (List ℕ × List ℕ) → List Action
  travel_down [] events = []
  travel_down ((r, t) ∷ []) events = handle_all_downstream (Transit.downstream_work c t events) t
  travel_down ((r, t) ∷ ((s, u) ∷ rest)) events =
      let acts = travel_down ((s, u) ∷ rest) events in
      relay_down c parse now r s (messages_to r acts) t

-- Path::Upstream
unfoldable pub first_router : List PathHopConfig → ℕ
first_router [] = 0
first_router (h ∷ rest) = h.rc.pubkey

-- Path::HandleAllUpstream
unfoldable pub client_sends : Sodium → List PathHopConfig → List (List ℕ × List ℕ) → List Action
client_sends c hops events =
    map (sent (first_router hops)) (Layers.upstream_work c hops events) ++ (pumped ∷ [])

-- GetByUpstream on the client, which finds a path by both its ids, and the replay filter of
-- Path::HandleDownstream, which lets a message in whose nonce it does not hold
unfoldable pub owned :
    ℕ → List PathHopConfig → DecayingHashSet → List RelayMessage → List (List ℕ × List ℕ)
owned clock hops filter [] = []
owned clock hops filter (msg ∷ msgs) =
    let ours = msg.pathid == first_tx_id hops || msg.pathid == first_rx_id hops in
    let (fresh, more) = DecayingHashSet.insert clock (be_value msg.y) 0 filter in
    let rest = owned clock hops (if ours then more else filter) msgs in
    if ours && fresh then (msg.x, msg.y) ∷ rest else rest

-- Path::HandleAllDownstream: what the client passes to its parser of routing messages
unfoldable pub client_hears :
    Sodium → ℕ → ℕ → List PathHopConfig → DecayingHashSet → List Action → List (List ℕ)
client_hears c clock us hops filter acts =
    map (λ (m : RelayMessage). m.x)
      (Layers.downstream_work c hops (owned clock hops filter (messages_to us acts)))

-- The nonce under which a message from the end of some hops arrives at the client
unfoldable pub arrival_nonce : List PathHopConfig → List ℕ → List ℕ
arrival_nonce [] n = n
arrival_nonce (h ∷ hs) n = xor_bytes (arrival_nonce hs n) h.nonce_xor

-- None of the nonces, as they arrive one after another, is in the replay filter.
unfoldable pub IsNew : ℕ → DecayingHashSet → List (List ℕ) → Type 0
IsNew clock filter [] = Unit
IsNew clock filter (y ∷ ys) =
    (DecayingHashSet.contains (be_value y) filter ≡ false)
    × IsNew clock (DecayingHashSet.insert clock (be_value y) 0 filter).1 ys
