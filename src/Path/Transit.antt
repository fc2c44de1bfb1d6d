-- ===== src/Path/Transit.antt =====
-- TransitHop of llarp/path/transit_hop.cpp: a hop on a router that relays for others. What a call
-- asks of the rest of the router is in a list of actions, in their order. The gathering queues hand
-- on in order what is pushed to them, and are left out: a call's messages are handed on at once.
use bittoro_network.Prelude.{
  ◌^◌, ℕ, ◌+◌, ◌-◌, ◌%◌, List, [], ◌∷◌, ◌++◌, map, Option, none, some, Bool, true, false, ◌&&◌,
  ◌||◌, leb, ◌==◌, if◌then◌else◌, length, sub64,
}
use bittoro_network.Prelude.Xor.{xor_bytes}
use bittoro_network.Crypto.{Sodium, xchacha20}
use bittoro_network.Path.Hop.{TransitHop, TrafficQueue, RelayMessage, enqueue, encrypted}

pub data Action : Type 0 where
  -- AbstractRouter::SendToOrQueue
  sent : ℕ → RelayMessage → Action
  -- AbstractRouter::ParseRoutingMessageBuffer, with the id of the path
  parsed : List ℕ → ℕ → Action
  -- a job of UpstreamWork or DownstreamWork for the thread pool
  upstream_job : List (List ℕ × List ℕ) → Action
  downstream_job : List (List ℕ × List ℕ) → Action
  -- FlushUpstream of another hop
  flushed : ℕ → Action
  -- LinkManager::PumpLinks
  pumped : Action

-- TransitHop::IsEndpoint
unfoldable pub is_endpoint : ℕ → TransitHop → Bool
is_endpoint us t = t.info.upstream == us

-- TransitHop::ExpireTime
unfoldable pub expire_time : TransitHop → ℕ
expire_time t = (t.started + t.lifetime) % 2 ^ 64

-- TransitHop::Expired
unfoldable pub expired : ℕ → TransitHop → Bool
expired now t = t.destroy || leb (expire_time t) now

-- TransitHop::ExpiresSoon
unfoldable pub expires_soon : ℕ → ℕ → TransitHop → Bool
expires_soon now dlt t = leb (sub64 (expire_time t) dlt) now

-- PathContext::GetByDownstream, where this hop is the only one with its ids
unfoldable pub heard_from_below : ℕ → ℕ → TransitHop → Bool
heard_from_below remote id t =
    (id == t.info.tx_id || id == t.info.rx_id) && t.info.downstream == remote

-- PathContext::GetByUpstream, where this hop is the only one with its ids
unfoldable pub heard_from_above : ℕ → ℕ → TransitHop → Bool
heard_from_above remote id t =
    (id == t.info.tx_id || id == t.info.rx_id) && t.info.upstream == remote

-- RelayUpstreamMessage::HandleMessage
unfoldable pub receive_upstream : ℕ → RelayMessage → TransitHop → Bool × TransitHop
receive_upstream remote msg t =
    if heard_from_below remote msg.pathid t
    then (true, record t { upstream_queue = enqueue msg.x msg.y t.upstream_queue })
    else (false, t)

-- RelayDownstreamMessage::HandleMessage
unfoldable pub receive_downstream : ℕ → RelayMessage → TransitHop → Bool × TransitHop
receive_downstream remote msg t =
    if heard_from_above remote msg.pathid t
    then (true, record t { downstream_queue = enqueue msg.x msg.y t.downstream_queue })
    else (false, t)

-- UpstreamWork and DownstreamWork: one message under `id`
unfoldable pub relay_message : Sodium → TransitHop → ℕ → List ℕ × List ℕ → RelayMessage
relay_message c t id ev = record {
  pathid = id;
  x = encrypted (xchacha20 c ev.0 t.path_key ev.1);
  y = xor_bytes ev.1 t.nonce_xor;
}

-- TransitHop::UpstreamWork
unfoldable pub upstream_work : Sodium → TransitHop → List (List ℕ × List ℕ) → List RelayMessage
upstream_work c t msgs = if t.gathering then map (relay_message c t t.info.tx_id) msgs else []

-- TransitHop::DownstreamWork
unfoldable pub downstream_work : Sodium → TransitHop → List (List ℕ × List ℕ) → List RelayMessage
downstream_work c t msgs = if t.gathering then map (relay_message c t t.info.rx_id) msgs else []

-- A queue that is flushed gives a job if it holds anything.
unfoldable pub queued : TrafficQueue → List (List ℕ × List ℕ)
queued none = []
queued (some q) = q

unfoldable pub job : (List (List ℕ × List ℕ) → Action) → List (List ℕ × List ℕ) → List Action
job work [] = []
job work (ev ∷ rest) = work (ev ∷ rest) ∷ []

-- TransitHop::FlushUpstream
unfoldable pub flush_upstream : TransitHop → List Action × TransitHop
flush_upstream t = (job upstream_job (queued t.upstream_queue), record t { upstream_queue = none })

-- TransitHop::FlushDownstream
unfoldable pub flush_downstream : TransitHop → List Action × TransitHop
flush_downstream t =
    (job downstream_job (queued t.downstream_queue), record t { downstream_queue = none })

-- HandleAllUpstream at the end of the path: each message goes to `parse`, which stands for what the
-- router does to the hop with it.
unfoldable pub parse_all :
    (List ℕ → TransitHop → TransitHop)
    → ℕ
    → List RelayMessage
    → TransitHop
    → List Action × TransitHop
parse_all parse now [] t = ([], t)
parse_all parse now (msg ∷ msgs) t =
    let rest = parse_all parse now msgs (record (parse msg.x t) { last_activity = now }) in
    (parsed msg.x t.info.rx_id ∷ rest.0, rest.1)

-- TransitHop::HandleAllUpstream
unfoldable pub handle_all_upstream :
    (List ℕ → TransitHop → TransitHop)
    → ℕ
    → ℕ
    → List RelayMessage
    → TransitHop
    → List Action × TransitHop
handle_all_upstream parse us now msgs t =
    if is_endpoint us t
    then (let (heard, after) = parse_all parse now msgs t in
        let (jobs, final) = flush_downstream after in
        (
          heard ++ (jobs ++ (map flushed final.flush_others ++ (pumped ∷ []))),
          record final { flush_others = [] },
        ))
    else (map (sent t.info.upstream) msgs ++ (pumped ∷ []), t)

-- TransitHop::HandleAllDownstream
unfoldable pub handle_all_downstream : List RelayMessage → TransitHop → List Action
handle_all_downstream msgs t = map (sent t.info.downstream) msgs ++ (pumped ∷ [])

-- SendRoutingMessage: the random bytes that fill a message up to a multiple of pad_size
abbrev pub padding : ℕ → ℕ
padding sz = if sz % 128 == 0 then 0 else 128 - sz % 128

-- TransitHop::SendRoutingMessage of a message that encodes to `encoded`, if it does; `random` gives
-- so many bytes.
unfoldable pub send_routing_message :
    (ℕ → List ℕ) → List ℕ → ℕ → Option (List ℕ) → TransitHop → Bool × TransitHop
send_routing_message random n us none t = (false, t)
send_routing_message random n us (some encoded) t =
    if is_endpoint us t
    then (
      true,
      record t {
        downstream_queue =
            enqueue (encoded ++ random (padding (length encoded))) n t.downstream_queue;
      },
    )
    else (false, t)
