-- ===== src/Path/Upstream.antt =====
-- Messages that go up a built path: what each router of it takes in and sends on.
use bittoro_network.Prelude.{
  ℕ, ◌≤◌, ◌≡◌, refl, sym, ap, ◌∙◌, List, [], ◌∷◌, map, none, some, Bool, true, false, ◌==◌, ◌||◌,
  length, All,
}
use bittoro_network.Prelude.Xor.{xor_bytes}
use bittoro_network.Crypto.{Sodium, IsStream}
use bittoro_network.Path.Hop.{PathHopConfig, TransitHop, RelayMessage}
use bittoro_network.Path.Transit.{
  Action, upstream_job, is_endpoint, heard_from_below, relay_message, flush_upstream, job, queued,
}
use bittoro_network.Path.Layers.{add_layers}
use bittoro_network.Path.Build.{next_contact}
use bittoro_network.Path.Journey.{messages_to, heard, run_jobs, relay_up, travel_up}
use bittoro_network.Path.Queueing.{event, queued-push_all, receive_all_upstream_lem}
use bittoro_network.Path.Onion.{peel_first, length-add_layers, encrypted_fits}
use bittoro_network.Path.Links.{fresh_hop, fresh_hops, Linked}
use bittoro_network.Path.Work.{==-refl, not_equal, either, map-map, middle_sends, end_hears}

abbrev pub Fits : List (List ℕ × List ℕ) → Type 0
Fits evs = All (λ ev. length ev.0 ≤ 8064) evs

-- A buffer below the layers of some hops, under the id that the first of them receives with
abbrev pub load : Sodium → List PathHopConfig → ℕ → List ℕ × List ℕ → RelayMessage
load c hs id ev = record { pathid = id; x = add_layers c hs ev.0 ev.1; y = ev.1 }

-- The nonce behind a hop
abbrev past : PathHopConfig → List ℕ × List ℕ → List ℕ × List ℕ
past h ev = (ev.0, xor_bytes ev.1 h.nonce_xor)

Fits-past : (h : PathHopConfig) (evs : List (List ℕ × List ℕ)) → Fits evs → Fits (map (past h) evs)
Fits-past h [] fits = tt
Fits-past h (ev ∷ evs) fits = (fits.0, Fits-past h evs fits.1)

module _ (c : Sodium) (parse : List ℕ → TransitHop → TransitHop) (valid : ℕ → Bool) (now : ℕ) where
  -- The queue of a router is the job for it.
  pub relay_up_lem :
      {A : Type 0} (g : A → RelayMessage) (us from : ℕ) (evs : List A) (h : PathHopConfig)
      (hs : List PathHopConfig)
      → let t = fresh_hop valid now from h (next_contact hs) in
        ((ev : A) → heard_from_below from (g ev).pathid t ≡ true)
        → relay_up c parse now us from (map g evs) t
          ≡ run_jobs c parse now us (job upstream_job (map event (map g evs))) t
  unfolding relay_up flush_upstream
  relay_up_lem g us from evs h hs ok =
      let t = fresh_hop valid now from h (next_contact hs) in
      rw (receive_all_upstream_lem g from evs t ok)
        (rw (queued-push_all (map g evs) none) (unfold queued in refl))

  module _ (keystream : List ℕ → List ℕ → ℕ → List ℕ) (stream : IsStream c keystream) where
    -- A router takes its layer off.
    relay_loads :
        (h : PathHopConfig) (hs : List PathHopConfig) (from id : ℕ) (evs : List (List ℕ × List ℕ))
        → Fits evs
        → map
            (relay_message c (fresh_hop valid now from h (next_contact hs)) h.tx_id)
            (map event (map (load c (h ∷ hs) id) evs))
          ≡ map (load c hs h.tx_id) (map (past h) evs)
    unfolding relay_message
    relay_loads h hs from id [] fits = refl
    relay_loads h hs from id (ev ∷ evs) fits =
        let n = xor_bytes ev.1 h.nonce_xor in
        let fit : length (add_layers c hs ev.0 n) ≤ 8064 =
          rw (length-add_layers c keystream stream hs ev.0 n) fits.0 in
        rw
          (
            relay_loads h hs from id evs fits.1,
            peel_first c keystream stream h hs ev.0 ev.1,
            encrypted_fits (add_layers c hs ev.0 n) fit,
          )
          refl

    -- What reaches the first router of some hops is heard by the last one.
    pub heard-travel_up :
        (h : PathHopConfig) (hs : List PathHopConfig)
        → Linked (h ∷ hs)
        → (from id : ℕ) (evs : List (List ℕ × List ℕ)) (acts : List Action) → Fits evs
        → (id == h.tx_id || id == h.rx_id) ≡ true
        → messages_to h.rc.pubkey acts ≡ map (load c (h ∷ hs) id) evs
        → heard (travel_up c parse now from (fresh_hops valid now from (h ∷ hs)) acts)
          ≡ map (λ ev. ev.0) evs
    unfolding travel_up
    heard-travel_up h [] linked from id evs acts fits known reach =
        let us = h.rc.pubkey in
        let t = fresh_hop valid now from h none in
        let ok : (ev : List ℕ × List ℕ)
            → heard_from_below from (load c (h ∷ []) id ev).pathid t ≡ true =
          λ ev. unfold heard_from_below in rw (known, ==-refl from) refl in
        let end : is_endpoint us t ≡ true = unfold is_endpoint in rw linked (==-refl us) in
        rw (reach, relay_up_lem (load c (h ∷ []) id) us from evs h [] ok)
          (end_hears c parse now us t _ end refl
            ∙ ap (map (λ m. m.x)) (relay_loads h [] from id evs fits)
            ∙ map-map (λ (m : RelayMessage). m.x) (load c [] h.tx_id) (map (past h) evs)
            ∙ (unfold add_layers in map-map (λ (ev : List ℕ × List ℕ). ev.0) (past h) evs))
    heard-travel_up h (k ∷ hs) linked from id evs acts fits known reach =
        let us = h.rc.pubkey in
        let t = fresh_hop valid now from h (some k.rc) in
        let ((to_next, same_id, apart), rest) = linked in
        let ok : (ev : List ℕ × List ℕ)
            → heard_from_below from (load c (h ∷ (k ∷ hs)) id ev).pathid t ≡ true =
          λ ev. unfold heard_from_below in rw (known, ==-refl from) refl in
        let middle : is_endpoint us t ≡ false =
          unfold is_endpoint in rw to_next (not_equal k.rc.pubkey us (λ e. apart (sym e))) in
        let jobs = job upstream_job (map event (map (load c (h ∷ (k ∷ hs)) id) evs)) in
        let sends : messages_to k.rc.pubkey (run_jobs c parse now us jobs t)
            ≡ map (load c (k ∷ hs) h.tx_id) (map (past h) evs) =
          ap (λ r. messages_to r (run_jobs c parse now us jobs t)) (sym to_next)
          ∙ middle_sends c parse now us t _ middle refl
          ∙ relay_loads h (k ∷ hs) from id evs fits in
        let next : (h.tx_id == k.tx_id || h.tx_id == k.rx_id) ≡ true =
          rw same_id (either (k.rx_id == k.tx_id) (k.rx_id == k.rx_id) (==-refl k.rx_id)) in
        let step : relay_up c parse now us from (messages_to us acts) t
            ≡ run_jobs c parse now us jobs t =
          ap (λ ms. relay_up c parse now us from ms t) reach
          ∙ relay_up_lem (load c (h ∷ (k ∷ hs)) id) us from evs h (k ∷ hs) ok in
        ap (λ made. heard (travel_up c parse now us (fresh_hops valid now us (k ∷ hs)) made)) step
        ∙ heard-travel_up k hs rest us h.tx_id (map (past h) evs) _ (Fits-past h evs fits) next
            sends
        ∙ map-map (λ (ev : List ℕ × List ℕ). ev.0) (past h) evs
