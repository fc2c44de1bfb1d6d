-- ===== src/Path/Downstream.antt =====
-- Messages that go down a built path: each router adds its layer, and the client takes them all off.
use bittoro_network.Prelude.{
  ℕ, ◌≤◌, ◌≡◌, refl, sym, ap, subst, ◌∙◌, List, [], ◌∷◌, map, none, some, Bool, true, false, ◌==◌,
  length,
}
use bittoro_network.Prelude.Xor.{xor_bytes, xor_bytes-cancel}
use bittoro_network.Prelude.Bytes.{be_value}
use bittoro_network.Util.DecayingHashSet
use bittoro_network.Util.DecayingHashSet.{DecayingHashSet}
use bittoro_network.Crypto.{Sodium, IsStream, xchacha20}
use bittoro_network.Path.Hop.{PathHopConfig, TransitHop, RelayMessage}
use bittoro_network.Path.Transit.{
  downstream_job, heard_from_above, relay_message, downstream_work, handle_all_downstream,
  flush_downstream, job, queued,
}
use bittoro_network.Path.Layers
use bittoro_network.Path.Layers.{remove_layers, peeled, first_tx_id, first_rx_id}
use bittoro_network.Path.Build.{next_contact}
use bittoro_network.Path.Journey.{
  messages_to, run_jobs, relay_down, travel_down, owned, client_hears, arrival_nonce, IsNew,
}
use bittoro_network.Path.Queueing.{event, queued-push_all, receive_all_downstream_lem}
use bittoro_network.Path.Onion.{length-xchacha20, xchacha20-cancel, encrypted_fits}
use bittoro_network.Path.Links.{fresh_hop, fresh_hops, Linked}
use bittoro_network.Path.Work.{==-refl, either, messages_to-pumped, below_sends}
use bittoro_network.Path.Upstream.{Fits}

-- A buffer with the layers of some hops, as the first of them sends it down
abbrev pub wrap : Sodium → List PathHopConfig → List ℕ × List ℕ → List ℕ × List ℕ
wrap c [] ev = ev
wrap c (h ∷ hs) ev =
    (xchacha20 c (wrap c hs ev).0 h.shared (wrap c hs ev).1, xor_bytes (wrap c hs ev).1 h.nonce_xor)

abbrev pub wrapped : Sodium → ℕ → List PathHopConfig → List ℕ × List ℕ → RelayMessage
wrapped c id hs ev = record { pathid = id; x = (wrap c hs ev).0; y = (wrap c hs ev).1 }

events_of : (c : Sodium) (evs : List (List ℕ × List ℕ)) → map event (map (wrapped c 0 []) evs) ≡ evs
events_of c [] = refl
events_of c (ev ∷ evs) = ap (λ r. ev ∷ r) (events_of c evs)

module _ (c : Sodium) (keystream : List ℕ → List ℕ → ℕ → List ℕ)
    (stream : IsStream c keystream) where
  length-wrap :
      (hs : List PathHopConfig) (ev : List ℕ × List ℕ) → length (wrap c hs ev).0 ≡ length ev.0
  length-wrap [] ev = refl
  length-wrap (h ∷ hs) ev =
      length-xchacha20 c keystream stream (wrap c hs ev).0 h.shared (wrap c hs ev).1
      ∙ length-wrap hs ev

  wrap-nonce :
      (hs : List PathHopConfig) (ev : List ℕ × List ℕ) → (wrap c hs ev).1 ≡ arrival_nonce hs ev.1
  unfolding arrival_nonce
  wrap-nonce [] ev = refl
  wrap-nonce (h ∷ hs) ev = ap (λ n. xor_bytes n h.nonce_xor) (wrap-nonce hs ev)

  -- The client takes off what the hops put on.
  remove_layers-wrap :
      (hs : List PathHopConfig) (ev : List ℕ × List ℕ)
      → remove_layers c hs (wrap c hs ev).0 (wrap c hs ev).1 ≡ ev
  unfolding remove_layers
  remove_layers-wrap [] ev = refl
  remove_layers-wrap (h ∷ hs) ev =
      rw
        (
          xor_bytes-cancel (wrap c hs ev).1 h.nonce_xor,
          xchacha20-cancel c keystream stream (wrap c hs ev).0 h.shared (wrap c hs ev).1,
        )
        (remove_layers-wrap hs ev)

  -- A router puts its layer on.
  relay_wrapped :
      (parse : List ℕ → TransitHop → TransitHop) (valid : ℕ → Bool) (now from : ℕ)
      (h : PathHopConfig) (hs : List PathHopConfig) (id : ℕ) (evs : List (List ℕ × List ℕ))
      → Fits evs
      → map
          (relay_message c (fresh_hop valid now from h (next_contact hs)) h.rx_id)
          (map event (map (wrapped c id hs) evs))
        ≡ map (wrapped c h.rx_id (h ∷ hs)) evs
  unfolding relay_message
  relay_wrapped parse valid now from h hs id [] fits = refl
  relay_wrapped parse valid now from h hs id (ev ∷ evs) fits =
      let fit : length (wrap c (h ∷ hs) ev).0 ≤ 8064 = rw (length-wrap (h ∷ hs) ev) fits.0 in
      rw
        (
          relay_wrapped parse valid now from h hs id evs fits.1,
          encrypted_fits (wrap c (h ∷ hs) ev).0 fit,
        )
        refl

  module _ (parse : List ℕ → TransitHop → TransitHop) (valid : ℕ → Bool) (now : ℕ) where
    relay_down_lem :
        {A : Type 0} (g : A → RelayMessage) (us from remote : ℕ) (evs : List A) (h : PathHopConfig)
        (hs : List PathHopConfig)
        → let t = fresh_hop valid now from h (next_contact hs) in
          ((ev : A) → heard_from_above remote (g ev).pathid t ≡ true)
          → relay_down c parse now us remote (map g evs) t
            ≡ run_jobs c parse now us (job downstream_job (map event (map g evs))) t
    unfolding relay_down flush_downstream
    relay_down_lem g us from remote evs h hs ok =
        let t = fresh_hop valid now from h (next_contact hs) in
        rw (receive_all_downstream_lem g remote evs t ok)
          (rw (queued-push_all (map g evs) none) (unfold queued in refl))

    -- What the first router of some hops sends down has the layers of them all.
    messages_to-travel_down :
        (h : PathHopConfig) (hs : List PathHopConfig)
        → Linked (h ∷ hs)
        → (from : ℕ) (evs : List (List ℕ × List ℕ)) → Fits evs
        → messages_to from (travel_down c parse now (fresh_hops valid now from (h ∷ hs)) evs)
          ≡ map (wrapped c h.rx_id (h ∷ hs)) evs
    unfolding travel_down
    messages_to-travel_down h [] linked from evs fits =
        let t = fresh_hop valid now from h none in
        let same : map event (map (wrapped c 0 []) evs) ≡ evs = events_of c evs in
        let first : messages_to from (handle_all_downstream (downstream_work c t evs) t)
            ≡ map (relay_message c t h.rx_id) evs =
          unfold handle_all_downstream downstream_work in
          messages_to-pumped from (map (relay_message c t h.rx_id) evs) in
        first
        ∙ ap (map (relay_message c t h.rx_id)) (sym same)
        ∙ relay_wrapped parse valid now from h [] 0 evs fits
    messages_to-travel_down h (k ∷ hs) linked from evs fits =
        let us = h.rc.pubkey in
        let t = fresh_hop valid now from h (some k.rc) in
        let ((to_next, same_id, apart), rest) = linked in
        let above = messages_to-travel_down k hs rest us evs fits in
        let ok : (ev : List ℕ × List ℕ)
            → heard_from_above k.rc.pubkey (wrapped c k.rx_id (k ∷ hs) ev).pathid t ≡ true =
          λ ev.
            unfold heard_from_above in
            rw (to_next, same_id, ==-refl k.rx_id, ==-refl k.rc.pubkey) refl in
        let g = wrapped c k.rx_id (k ∷ hs) in
        let jobs = job downstream_job (map event (map g evs)) in
        let step : relay_down c parse now us k.rc.pubkey
              (messages_to us (travel_down c parse now (fresh_hops valid now us (k ∷ hs)) evs)) t
            ≡ run_jobs c parse now us jobs t =
          ap (λ ms. relay_down c parse now us k.rc.pubkey ms t) above
          ∙ relay_down_lem g us from k.rc.pubkey evs h (k ∷ hs) ok in
        ap (messages_to from) step
        ∙ below_sends c parse now us t _ refl
        ∙ relay_wrapped parse valid now from h (k ∷ hs) k.rx_id evs fits

    owned-wrapped :
        (clock : ℕ) (h : PathHopConfig) (hs : List PathHopConfig) (filter : DecayingHashSet)
        (evs : List (List ℕ × List ℕ))
        → IsNew clock filter (map (λ ev. arrival_nonce (h ∷ hs) ev.1) evs)
        → owned clock (h ∷ hs) filter (map (wrapped c h.rx_id (h ∷ hs)) evs)
          ≡ map (wrap c (h ∷ hs)) evs
    unfolding owned first_tx_id first_rx_id IsNew
    owned-wrapped clock h hs filter [] new = refl
    owned-wrapped clock h hs filter (ev ∷ evs) (new, rest) =
        let y = (wrap c (h ∷ hs) ev).1 in
        let same : arrival_nonce (h ∷ hs) ev.1 ≡ y = sym (wrap-nonce (h ∷ hs) ev) in
        let new_y : DecayingHashSet.contains (be_value y) filter ≡ false = rw same at new in
        let rest_y : IsNew clock (DecayingHashSet.insert clock (be_value y) 0 filter).1
            (map (λ ev. arrival_nonce (h ∷ hs) ev.1) evs) =
          subst
            (λ y.
              IsNew clock (DecayingHashSet.insert clock (be_value y) 0 filter).1
                (map (λ ev. arrival_nonce (h ∷ hs) ev.1) evs))
            same rest in
        rw
          (
            either (h.rx_id == h.tx_id) (h.rx_id == h.rx_id) (==-refl h.rx_id),
            DecayingHashSet.insert_new clock (be_value y) 0 filter new_y,
            owned-wrapped clock h hs (DecayingHashSet.insert clock (be_value y) 0 filter).1 evs
                rest_y,
          )
          refl

    peeled-wrap :
        (hs : List PathHopConfig) (evs : List (List ℕ × List ℕ))
        → Fits evs
        → map (λ m. m.x) (map (peeled c hs) (map (wrap c hs) evs)) ≡ map (λ ev. ev.0) evs
    unfolding peeled
    peeled-wrap hs [] fits = refl
    peeled-wrap hs (ev ∷ evs) fits =
        rw (peeled-wrap hs evs fits.1, remove_layers-wrap hs ev, encrypted_fits ev.0 fits.0) refl

    -- The client hears what the last router sends.
    pub client_hears-travel_down :
        (clock : ℕ) (filter : DecayingHashSet) (h : PathHopConfig) (hs : List PathHopConfig)
        → Linked (h ∷ hs)
        → (us : ℕ) (evs : List (List ℕ × List ℕ)) → Fits evs
        → IsNew clock filter (map (λ ev. arrival_nonce (h ∷ hs) ev.1) evs)
        → client_hears c clock us
            (h ∷ hs)
            filter
            (travel_down c parse now (fresh_hops valid now us (h ∷ hs)) evs)
          ≡ map (λ ev. ev.0) evs
    unfolding client_hears
    client_hears-travel_down clock filter h hs linked us evs fits new =
        rw
          (messages_to-travel_down h hs linked us evs fits, owned-wrapped clock h hs filter evs new)
          (unfold Layers.downstream_work in peeled-wrap (h ∷ hs) evs fits)
