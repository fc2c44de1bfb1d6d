-- ===== src/Path/Links.antt =====
-- A path whose build goes through: the hops of the client, and what the routers make of them.
use bittoro_network.Prelude.{
  ℕ, ◌≡◌, ◌≢◌, refl, sym, ap, ◌∙◌, List, [], ◌∷◌, Option, none, some, Bool, true, false, ◌==◌, inl,
  inr, some_inj, subst, Option-cases,
}
use bittoro_network.Crypto.{
  Sodium, IsKeyExchange, encryption_keygen, dh_client, dh_server, shorthash,
}
use bittoro_network.Crypto.Agreement.{dh_client-dh_server}
use bittoro_network.Path.Hop.{RouterContact, PathHopConfig, TransitHop}
use bittoro_network.Path.Build.{
  next_contact, hop_upstream, commit_record, hop_keys, accepted_lifetime, handle_decrypted,
}

-- What a router makes of the record of a hop
abbrev pub fresh_hop : (ℕ → Bool) → ℕ → ℕ → PathHopConfig → Option RouterContact → TransitHop
fresh_hop valid now from k next = record {
  info = record { tx_id = k.tx_id; rx_id = k.rx_id; upstream = k.upstream; downstream = from };
  path_key = k.shared;
  nonce_xor = k.nonce_xor;
  started = now;
  lifetime = accepted_lifetime valid (commit_record k next);
  last_activity = 0;
  destroy = false;
  sequence_num = 0;
  gathering = true;
  upstream_queue = none;
  downstream_queue = none;
  flush_others = [];
}

abbrev pub fresh_hops : (ℕ → Bool) → ℕ → ℕ → List PathHopConfig → List (ℕ × TransitHop)
fresh_hops valid now from [] = []
fresh_hops valid now from (k ∷ ks) =
    (k.rc.pubkey, fresh_hop valid now from k (next_contact ks))
    ∷ fresh_hops valid now k.rc.pubkey ks

-- Each hop forwards to the router of the next one, under the id that the next one receives with.
abbrev pub Linked : List PathHopConfig → Type 0
Linked [] = Unit
Linked (h ∷ []) = h.upstream ≡ h.rc.pubkey
Linked (h ∷ (k ∷ rest)) =
    ((h.upstream ≡ k.rc.pubkey) × (h.tx_id ≡ k.rx_id) × (h.rc.pubkey ≢ k.rc.pubkey))
    × Linked (k ∷ rest)

-- The parts of a hop that its keys leave as they are, and where it forwards to
abbrev pub Keyed : PathHopConfig → Option RouterContact → PathHopConfig → Type 0
Keyed h next k =
    (k.rc ≡ h.rc) × (k.tx_id ≡ h.tx_id) × (k.rx_id ≡ h.rx_id) × (k.upstream ≡ hop_upstream h next)

module _ (c : Sodium) (exchange : IsKeyExchange c) where
  -- A router accepts the record of a hop whose keys are made, if the ids are not zero.
  pub handle_decrypted-hop_keys :
      (valid : ℕ → Bool) (now from : ℕ) (random : List ℕ × List ℕ) (scalar : List ℕ)
      → (h : PathHopConfig) (next : Option RouterContact) {k : PathHopConfig}
      → hop_keys c random h next ≡ some k
      → h.rc.enckey ≡ (encryption_keygen c scalar).to_public
      → (h.tx_id == 0) ≡ false
      → (h.rx_id == 0) ≡ false
      → Keyed h next k
        × (handle_decrypted c valid now (encryption_keygen c scalar) from (commit_record k next)
            ≡ some (fresh_hop valid now from k next))
  unfolding hop_keys handle_decrypted commit_record
  handle_decrypted-hop_keys valid now from random scalar h next {k = k} made key tx rx =
      let ours = encryption_keygen c random.0 in
      let keyed : List ℕ → PathHopConfig = λ secret. record h {
        commkey = ours;
        nonce = random.1;
        shared = secret;
        nonce_xor = shorthash c secret;
        upstream = hop_upstream h next;
      } in
      elim (Option-cases (dh_client c h.rc.enckey ours random.1)) [
        | inl e ↦ absurd (let t : none ≡ some k = rw e at made in cc)
        | inr (secret, e) ↦
            let same : dh_server c ours.to_public (encryption_keygen c scalar) random.1
                ≡ some secret =
              sym (dh_client-dh_server c exchange random.0 scalar random.1)
              ∙ ap (λ pk. dh_client c pk ours random.1) (sym key)
              ∙ e in
            let is : some (keyed secret) ≡ some k = rw e at made in
            subst
              (λ k.
                Keyed h next k
                × (handle_decrypted c valid now (encryption_keygen c scalar) from
                      (commit_record k next)
                    ≡ some (fresh_hop valid now from k next)))
              (some_inj is) ((refl, refl, refl, refl), rw (tx, rx, same) refl)
      ]
