-- ===== src/Path/Delivery.antt =====
-- path.cpp, pathbuilder.cpp, relay_commit.cpp, relay.cpp and transit_hop.cpp together: a path over
-- routers that the client has picked, from its build to the data that both of its ends hear.
use bittoro_network.Prelude.{
  ℕ, ◌≤◌, ◌≡◌, refl, sym, subst, ◌∙◌, List, [], ◌∷◌, map, some, Bool, true, ◌==◌, ◌||◌, length,
}
use bittoro_network.Util.DecayingHashSet.{DecayingHashSet}
use bittoro_network.Crypto.{Sodium, IsKeyExchange, IsStream}
use bittoro_network.Path.Hop.{PathHopConfig, CommitRecord, TransitHop}
use bittoro_network.Path.Layers
use bittoro_network.Path.Layers.{add_layers, layered, first_tx_id}
use bittoro_network.Path.Build.{generate_keys}
use bittoro_network.Path.Journey.{
  Place, planned, accept_all, messages_to, heard, travel_up, travel_down, client_sends,
  client_hears, arrival_nonce, IsNew, first_router,
}
use bittoro_network.Path.Onion.{length-add_layers, encrypted_fits}
use bittoro_network.Path.Links.{fresh_hops, Linked}
use bittoro_network.Path.Built.{IsPlan, accept_all-generate_from}
use bittoro_network.Path.Work.{==-refl, messages_to-pumped}
use bittoro_network.Path.Upstream.{Fits, load, heard-travel_up}
use bittoro_network.Path.Downstream.{client_hears-travel_down}

at_first : (h : PathHopConfig) → (h.tx_id == h.tx_id || h.tx_id == h.rx_id) ≡ true
at_first h = rw (==-refl h.tx_id) refl

module _ (c : Sodium) (exchange : IsKeyExchange c) (keystream : List ℕ → List ℕ → ℕ → List ℕ)
    (stream : IsStream c keystream) where
  map-layered :
      (h : PathHopConfig) (hs : List PathHopConfig) (evs : List (List ℕ × List ℕ))
      → Fits evs
      → map (layered c (h ∷ hs)) evs ≡ map (load c (h ∷ hs) h.tx_id) evs
  unfolding layered first_tx_id
  map-layered h hs [] fits = refl
  map-layered h hs (ev ∷ evs) fits =
      let fit : length (add_layers c (h ∷ hs) ev.0 ev.1) ≤ 8064 =
        rw (length-add_layers c keystream stream (h ∷ hs) ev.0 ev.1) fits.0 in
      rw (map-layered h hs evs fits.1, encrypted_fits (add_layers c (h ∷ hs) ev.0 ev.1) fit) refl

  sends :
      (h : PathHopConfig) (hs : List PathHopConfig) (evs : List (List ℕ × List ℕ))
      → Fits evs
      → messages_to h.rc.pubkey (client_sends c (h ∷ hs) evs) ≡ map (load c (h ∷ hs) h.tx_id) evs
  unfolding client_sends first_router Layers.upstream_work
  sends h hs evs fits =
      messages_to-pumped h.rc.pubkey (map (layered c (h ∷ hs)) evs) ∙ map-layered h hs evs fits

  module _ (parse : List ℕ → TransitHop → TransitHop) (valid : ℕ → Bool) (now us : ℕ) where
    -- Take a plan with at least one router, whose path ids are not zero and in which no two routers
    -- in a row are the same, and let libsodium do what it is documented to do: the key exchange
    -- agrees and the cipher xors a key stream. If the client generates the keys and the records of
    -- the plan, then every router accepts its record, and buffers of at most 8064 bytes that
    -- UpstreamWork then takes from the client's queue, behind its replay filter, are heard by the
    -- last router as they were, in their order and whatever their nonces in the queue are.
    pub upstream_delivers :
        (p : Place) (ps : List Place) (random : ℕ → List ℕ × List ℕ) (seals : CommitRecord → Bool)
        {built : List PathHopConfig × List CommitRecord}
        → IsPlan (p ∷ ps)
        → generate_keys c random seals (planned c (p ∷ ps)) ≡ some built
        → (events : List (List ℕ × List ℕ)) → Fits events
        → (relays : List (ℕ × TransitHop)) × (accept_all c valid now us (p ∷ ps) built.1
            ≡ some relays)
          × (heard (travel_up c parse now us relays (client_sends c built.0 events))
              ≡ map (λ ev. ev.0) events)
    unfolding generate_keys
    upstream_delivers p ps random seals {built = built} plan made events fits =
        let (linked, accepted, (h, hs, heads, rc, rx)) =
          accept_all-generate_from c exchange valid now (p ∷ ps) random seals 0 plan made in
        (
          fresh_hops valid now us built.0,
          accepted us,
          subst
              (λ ks.
                Linked ks
                → heard (
                    travel_up c parse now us (fresh_hops valid now us ks)
                      (client_sends c ks events))
                  ≡ map (λ ev. ev.0) events)
              (sym heads)
              (λ l.
                heard-travel_up c parse valid now keystream stream h hs l us h.tx_id events _ fits
                  (at_first h) (sends h hs events fits))
              linked,
        )

    -- Take a plan with at least one router, whose path ids are not zero and in which no two routers
    -- in a row are the same, and let libsodium do what it is documented to do: the key exchange
    -- agrees and the cipher xors a key stream. If the client generates the keys and the records of
    -- the plan, then every router accepts its record, and buffers of at most 8064 bytes that are
    -- queued at the last router are heard by the client as they were, in their order, if none of the
    -- nonces, as they arrive at the client, is in its replay filter.
    pub downstream_delivers :
        (clock : ℕ) (filter : DecayingHashSet) (p : Place) (ps : List Place)
        (random : ℕ → List ℕ × List ℕ) (seals : CommitRecord → Bool)
        {built : List PathHopConfig × List CommitRecord}
        → IsPlan (p ∷ ps)
        → generate_keys c random seals (planned c (p ∷ ps)) ≡ some built
        → (events : List (List ℕ × List ℕ)) → Fits events
        → IsNew clock filter (map (λ ev. arrival_nonce built.0 ev.1) events)
        → (relays : List (ℕ × TransitHop)) × (accept_all c valid now us (p ∷ ps) built.1
            ≡ some relays)
          × (client_hears c clock us built.0 filter (travel_down c parse now relays events)
              ≡ map (λ ev. ev.0) events)
    unfolding generate_keys
    downstream_delivers clock filter p ps random seals {built = built} plan made events fits new =
        let (linked, accepted, (h, hs, heads, rc, rx)) =
          accept_all-generate_from c exchange valid now (p ∷ ps) random seals 0 plan made in
        (
          fresh_hops valid now us built.0,
          accepted us,
          subst
              (λ ks.
                Linked ks
                → IsNew clock filter (map (λ ev. arrival_nonce ks ev.1) events)
                → client_hears c clock us ks filter
                    (travel_down c parse now (fresh_hops valid now us ks) events)
                  ≡ map (λ ev. ev.0) events)
              (sym heads)
              (λ l fresh.
                client_hears-travel_down c keystream stream parse valid now clock filter h hs l us
                  events fits fresh)
              linked new,
        )
