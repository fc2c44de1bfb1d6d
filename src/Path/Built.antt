-- ===== src/Path/Built.antt =====
-- pathbuilder.cpp and relay_commit.cpp together: every router of a plan accepts its record.
use bittoro_network.Prelude.{
  ltb, ℕ, zero, suc, ◌≡◌, ◌≢◌, refl, sym, ap, subst, ◌∙◌, List, [], ◌∷◌, none, some, Bool, false,
  ◌==◌, >>=-eq-some, some_inj, arith,
}
use bittoro_network.Crypto.{Sodium, IsKeyExchange}
use bittoro_network.Path.Hop.{PathHopConfig, CommitRecord}
use bittoro_network.Path.Build.{
  new_hop, new_hops, link_hops, next_contact, hop_upstream, commit_record, hop_keys, generate_from,
  guard,
}
use bittoro_network.Path.Journey.{Place, contact, planned, accept_all}
use bittoro_network.Path.Links.{fresh_hop, fresh_hops, Linked, handle_decrypted-hop_keys}

-- No id of a plan is zero, and no two routers in a row are the same.
unfoldable pub IsPlan : List Place → Type 0
IsPlan [] = Unit
IsPlan (p ∷ []) = (p.tx ≢ 0) × (p.rx ≢ 0)
IsPlan (p ∷ (q ∷ ps)) = (p.tx ≢ 0) × (p.rx ≢ 0) × (p.router ≢ q.router) × IsPlan (q ∷ ps)

-- The first hop is the one of the first place.
abbrev pub Opening : Sodium → List Place → List PathHopConfig → Type 0
Opening c [] ks = ks ≡ []
Opening c (p ∷ ps) ks =
    (k : PathHopConfig) × (rest : List PathHopConfig) × (ks ≡ k ∷ rest)
    × (k.rc ≡ (contact c p).0)
    × (k.rx_id ≡ p.rx)

generate_from-cons :
    (c : Sodium) (random : ℕ → List ℕ × List ℕ) (seals : CommitRecord → Bool) (idx : ℕ)
    (h : PathHopConfig) (rest : List PathHopConfig) {built : List PathHopConfig × List CommitRecord}
    → generate_from c random seals idx (h ∷ rest) ≡ some built
    → (k : PathHopConfig) × (more : List PathHopConfig × List CommitRecord) × (hop_keys c
          (random idx)
          h
          (next_contact rest)
        ≡ some k)
      × (generate_from c random seals (suc idx) rest ≡ some more)
      × ((k ∷ more.0, commit_record k (next_contact rest) ∷ more.1) ≡ built)
unfolding generate_from
generate_from-cons c random seals idx h rest made =
    let (framed, _, made') = >>=-eq-some (guard (ltb idx 8)) _ made in
    let (k, keyed, e) = >>=-eq-some (hop_keys c (random idx) h (next_contact rest)) _ made' in
    let (sealed, _, e'') = >>=-eq-some (guard (seals (commit_record k (next_contact rest)))) _ e in
    let (more, others, e') = >>=-eq-some (generate_from c random seals (suc idx) rest) _ e'' in
    (k, more, keyed, others, some_inj e')

next_contact-planned :
    (c : Sodium) (q : Place) (ps : List Place)
    → next_contact (planned c (q ∷ ps)) ≡ some (contact c q).0
unfolding planned new_hops new_hop link_hops contact
next_contact-planned c q [] = refl
next_contact-planned c q (p ∷ ps) = refl

not_zero : (n : ℕ) → n ≢ 0 → (n == 0) ≡ false
not_zero zero h = absurd (h refl)
not_zero (suc n) h = ground arith

plan_rx : (q : Place) (ps : List Place) → IsPlan (q ∷ ps) → q.rx ≢ 0
unfolding IsPlan
plan_rx q [] plan = plan.1
plan_rx q (p ∷ ps) plan = plan.1

Linked-cons :
    (k k' : PathHopConfig) {ks rest : List PathHopConfig}
    → ks ≡ k' ∷ rest
    → (k.upstream ≡ k'.rc.pubkey) × (k.tx_id ≡ k'.rx_id) × (k.rc.pubkey ≢ k'.rc.pubkey)
    → Linked ks
    → Linked (k ∷ ks)
Linked-cons k k' heads link linked =
    subst (λ ks. Linked ks → Linked (k ∷ ks)) (sym heads) (λ l. (link, l)) linked

module _ (c : Sodium) (exchange : IsKeyExchange c) (valid : ℕ → Bool) (now : ℕ) where
  abbrev Accepted : List Place → List PathHopConfig × List CommitRecord → Type 0
  Accepted ps built =
      Linked built.0
      × ((from : ℕ)
          → accept_all c valid now from ps built.1 ≡ some (fresh_hops valid now from built.0))
      × Opening c ps built.0

  pub accept_all-generate_from :
      (ps : List Place) (random : ℕ → List ℕ × List ℕ) (seals : CommitRecord → Bool) (idx : ℕ)
      {built : List PathHopConfig × List CommitRecord}
      → IsPlan ps
      → generate_from c random seals idx (planned c ps) ≡ some built
      → Accepted ps built
  unfolding IsPlan planned new_hops new_hop link_hops contact generate_from accept_all
  accept_all-generate_from [] random seals idx plan made =
      subst (Accepted []) (some_inj made) (tt, (λ from. refl), refl)
  accept_all-generate_from (p ∷ []) random seals idx plan made =
      let h = new_hop (contact c p) in
      let (k, more, keyed, others, e) = generate_from-cons c random seals idx h [] made in
      let nothing : ([], []) ≡ more = some_inj others in
      let accepted = λ (from : ℕ).
        handle_decrypted-hop_keys c exchange valid now from (random idx) p.scalar h none keyed refl
          (not_zero p.tx plan.0) (not_zero p.rx plan.1) in
      let ((rc, tx, rx, up), same) = accepted 0 in
      subst (Accepted (p ∷ [])) e (
        subst
          (λ (m : List PathHopConfig × List CommitRecord).
            Accepted (p ∷ []) (k ∷ m.0, commit_record k none ∷ m.1))
          nothing
          (
            up ∙ sym (ap (λ r. r.pubkey) rc),
            (λ from.
                rw ((accepted from).1)
                  (ap (λ r. some ((r.pubkey, fresh_hop valid now from k none) ∷ [])) (sym rc))),
            (k, [], refl, rc, rx),
          ))
  accept_all-generate_from (p ∷ (q ∷ ps)) random seals idx plan made =
      let h : PathHopConfig = record (new_hop (contact c p)) { tx_id = q.rx } in
      let next = next_contact (planned c (q ∷ ps)) in
      let (k, more, keyed, others, e) =
        generate_from-cons c random seals idx h (planned c (q ∷ ps)) made in
      let (linked, acc, (k', rest, heads, rc', rx')) =
        accept_all-generate_from (q ∷ ps) random seals (suc idx) (plan.3) others in
      let accepted = λ (from : ℕ).
        handle_decrypted-hop_keys c exchange valid now from (random idx) p.scalar h next keyed refl
          (not_zero q.rx (plan_rx q ps plan.3)) (not_zero p.rx plan.1) in
      let ((rc, tx, rx, up), same) = accepted 0 in
      let next_is : next ≡ some (contact c q).0 = next_contact-planned c q ps in
      let next_of : next_contact more.0 ≡ next =
        ap next_contact heads ∙ ap some rc' ∙ sym next_is in
      let router : p.router ≡ k.rc.pubkey = ap (λ r. r.pubkey) (sym rc) in
      let router' : k'.rc.pubkey ≡ q.router = ap (λ r. r.pubkey) rc' in
      subst (Accepted (p ∷ (q ∷ ps))) e (
        Linked-cons k k' heads
            (
              up ∙ ap (hop_upstream h) next_is ∙ sym router',
              tx ∙ sym rx',
              (λ e. plan.2 (router ∙ e ∙ router')),
            )
            linked,
        (λ from.
            rw ((accepted from).1, acc p.router, next_of)
              (ap (λ r. some ((r, fresh_hop valid now from k next) ∷ fresh_hops valid now r more.0))
                router)),
        (k, more.0, refl, rc, rx),
      )
