-- ===== src/Path/Queueing.antt =====
-- transit_hop.cpp and ihophandler.cpp: what a router does with the messages that reach it together.
use bittoro_network.Prelude.{ℕ, ◌≡◌, refl, sym, ap, ◌∙◌, List, [], ◌∷◌, ◌++◌, map, none, some, true}
use mathlib.Core.List.{append_assoc, append-nil}
use bittoro_network.Path.Hop.{TransitHop, TrafficQueue, RelayMessage, enqueue}
use bittoro_network.Path.Transit.{
  heard_from_below, heard_from_above, receive_upstream, receive_downstream, queued,
}
use bittoro_network.Path.Journey.{receive_all_upstream, receive_all_downstream}

abbrev pub event : RelayMessage → List ℕ × List ℕ
event m = (m.x, m.y)

abbrev pub push_all : List RelayMessage → TrafficQueue → TrafficQueue
push_all [] q = q
push_all (m ∷ ms) q = push_all ms (enqueue m.x m.y q)

queued-enqueue :
    (x y : List ℕ) (q : TrafficQueue) → queued (enqueue x y q) ≡ queued q ++ ((x, y) ∷ [])
unfolding queued enqueue
queued-enqueue x y none = refl
queued-enqueue x y (some q) = refl

pub queued-push_all :
    (ms : List RelayMessage) (q : TrafficQueue) → queued (push_all ms q) ≡ queued q ++ map event ms
queued-push_all [] q = sym (append-nil (queued q))
queued-push_all (m ∷ ms) q =
    queued-push_all ms (enqueue m.x m.y q)
    ∙ (rw (queued-enqueue m.x m.y q) (append_assoc (queued q) (event m ∷ []) (map event ms)))

taken_upstream :
    (remote : ℕ) (m : RelayMessage) (t : TransitHop)
    → heard_from_below remote m.pathid t ≡ true
    → (receive_upstream remote m t).1
      ≡ record t { upstream_queue = enqueue m.x m.y t.upstream_queue }
unfolding receive_upstream
taken_upstream remote m t h = rw h refl

taken_downstream :
    (remote : ℕ) (m : RelayMessage) (t : TransitHop)
    → heard_from_above remote m.pathid t ≡ true
    → (receive_downstream remote m t).1
      ≡ record t { downstream_queue = enqueue m.x m.y t.downstream_queue }
unfolding receive_downstream
taken_downstream remote m t h = rw h refl

module _ {ℓ} {A : Type ℓ} (g : A → RelayMessage) (remote : ℕ) where
  pub receive_all_upstream_lem :
      (evs : List A) (t : TransitHop)
      → ((ev : A) → heard_from_below remote (g ev).pathid t ≡ true)
      → receive_all_upstream remote (map g evs) t
        ≡ record t { upstream_queue = push_all (map g evs) t.upstream_queue }
  unfolding receive_all_upstream heard_from_below
  receive_all_upstream_lem [] t ok = refl
  receive_all_upstream_lem (ev ∷ evs) t ok =
      ap (receive_all_upstream remote (map g evs)) (taken_upstream remote (g ev) t (ok ev))
      ∙ receive_all_upstream_lem evs _ ok

  pub receive_all_downstream_lem :
      (evs : List A) (t : TransitHop)
      → ((ev : A) → heard_from_above remote (g ev).pathid t ≡ true)
      → receive_all_downstream remote (map g evs) t
        ≡ record t { downstream_queue = push_all (map g evs) t.downstream_queue }
  unfolding receive_all_downstream heard_from_above
  receive_all_downstream_lem [] t ok = refl
  receive_all_downstream_lem (ev ∷ evs) t ok =
      ap (receive_all_downstream remote (map g evs)) (taken_downstream remote (g ev) t (ok ev))
      ∙ receive_all_downstream_lem evs _ ok
