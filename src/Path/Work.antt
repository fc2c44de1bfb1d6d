-- ===== src/Path/Work.antt =====
-- transit_hop.cpp: what the work on a queue sends on, and what it passes to the router's parser.
use bittoro_network.Prelude.{
  ℕ, ◌≡◌, ◌≢◌, refl, ap, ◌∙◌, List, [], ◌∷◌, ◌++◌, map, Bool, true, false, ◌==◌, ◌||◌, inl, inr,
  Bool-cases, ==_iff, arith,
}
use mathlib.Core.List.{append-nil}
use bittoro_network.Crypto.{Sodium}
use bittoro_network.Path.Hop.{TransitHop, RelayMessage}
use bittoro_network.Path.Transit.{
  Action, sent, parsed, upstream_job, downstream_job, flushed, pumped, is_endpoint, relay_message,
  upstream_work, downstream_work, queued, job, parse_all, flush_downstream, handle_all_upstream,
  handle_all_downstream,
}
use bittoro_network.Path.Journey.{messages_to, heard, run_jobs}

pub ==-refl : (n : ℕ) → (n == n) ≡ true
==-refl n = ground arith

pub not_equal : (a b : ℕ) → a ≢ b → (a == b) ≡ false
not_equal a b h = elim (Bool-cases (a == b)) [ inl e ↦ absurd (h ((==_iff a b).0 e)) | inr e ↦ e ]

pub either : (a b : Bool) → b ≡ true → (a || b) ≡ true
either true b h = refl
either false b h = h

module _ {ℓ} {A B C : Type ℓ} where
  pub map-map : (g : B → C) (f : A → B) (xs : List A) → map g (map f xs) ≡ map (λ x. g (f x)) xs
  map-map g f [] = refl
  map-map g f (x ∷ xs) = ap (λ ys. g (f x) ∷ ys) (map-map g f xs)

messages_to-append :
    (r : ℕ) (acts others : List Action)
    → messages_to r (acts ++ others) ≡ messages_to r acts ++ messages_to r others
unfolding messages_to
messages_to-append r [] others = refl
messages_to-append r (sent to msg ∷ acts) others =
    rw (messages_to-append r acts others) (ground arith)
messages_to-append r (parsed x id ∷ acts) others = messages_to-append r acts others
messages_to-append r (upstream_job q ∷ acts) others = messages_to-append r acts others
messages_to-append r (downstream_job q ∷ acts) others = messages_to-append r acts others
messages_to-append r (flushed id ∷ acts) others = messages_to-append r acts others
messages_to-append r (pumped ∷ acts) others = messages_to-append r acts others

messages_to-sent : (r : ℕ) (ms : List RelayMessage) → messages_to r (map (sent r) ms) ≡ ms
unfolding messages_to
messages_to-sent r [] = refl
messages_to-sent r (m ∷ ms) = rw (messages_to-sent r ms, ==-refl r) refl

-- What is sent to one router and then pumped
pub messages_to-pumped :
    (r : ℕ) (ms : List RelayMessage) → messages_to r (map (sent r) ms ++ (pumped ∷ [])) ≡ ms
messages_to-pumped r ms =
    messages_to-append r (map (sent r) ms) (pumped ∷ [])
    ∙ rw (messages_to-sent r ms) (unfold messages_to in append-nil ms)

heard-append : (acts others : List Action) → heard (acts ++ others) ≡ heard acts ++ heard others
unfolding heard
heard-append [] others = refl
heard-append (sent to msg ∷ acts) others = heard-append acts others
heard-append (parsed x id ∷ acts) others = ap (λ r. x ∷ r) (heard-append acts others)
heard-append (upstream_job q ∷ acts) others = heard-append acts others
heard-append (downstream_job q ∷ acts) others = heard-append acts others
heard-append (flushed id ∷ acts) others = heard-append acts others
heard-append (pumped ∷ acts) others = heard-append acts others

heard-flushed : (ids : List ℕ) → heard (map flushed ids ++ (pumped ∷ [])) ≡ []
unfolding heard
heard-flushed [] = refl
heard-flushed (id ∷ ids) = heard-flushed ids

heard-job : (q : List (List ℕ × List ℕ)) → heard (job downstream_job q) ≡ []
unfolding heard job
heard-job [] = refl
heard-job (ev ∷ q) = refl

module _ (c : Sodium) (parse : List ℕ → TransitHop → TransitHop) (now us : ℕ) where
  heard-parse_all :
      (ms : List RelayMessage) (t : TransitHop)
      → heard (parse_all parse now ms t).0 ≡ map (λ m. m.x) ms
  unfolding heard parse_all
  heard-parse_all [] t = refl
  heard-parse_all (m ∷ ms) t = ap (λ r. m.x ∷ r) (heard-parse_all ms _)

  -- In the middle of a path all is sent on.
  pub middle_sends :
      (t : TransitHop) (q : List (List ℕ × List ℕ))
      → is_endpoint us t ≡ false
      → t.gathering ≡ true
      → messages_to t.info.upstream (run_jobs c parse now us (job upstream_job q) t)
        ≡ map (relay_message c t t.info.tx_id) q
  unfolding run_jobs job handle_all_upstream upstream_work
  middle_sends t [] middle on = unfold messages_to in refl
  middle_sends t (ev ∷ q) middle on =
      let ms = map (relay_message c t t.info.tx_id) (ev ∷ q) in
      let all : (handle_all_upstream parse us now (upstream_work c t (ev ∷ q)) t).0 ++ []
          ≡ map (sent t.info.upstream) ms ++ (pumped ∷ []) =
        append-nil _ ∙ rw (middle, on) refl in
      rw all (messages_to-pumped t.info.upstream ms)

  -- At the end of a path all is heard.
  pub end_hears :
      (t : TransitHop) (q : List (List ℕ × List ℕ))
      → is_endpoint us t ≡ true
      → t.gathering ≡ true
      → heard (run_jobs c parse now us (job upstream_job q) t)
        ≡ map (λ m. m.x) (map (relay_message c t t.info.tx_id) q)
  unfolding run_jobs job handle_all_upstream upstream_work flush_downstream
  end_hears t [] end on = unfold heard in refl
  end_hears t (ev ∷ q) end on =
      let ms = map (relay_message c t t.info.tx_id) (ev ∷ q) in
      let after = (parse_all parse now ms t).1 in
      let jobs = job downstream_job (queued after.downstream_queue) in
      let rest = map flushed after.flush_others ++ (pumped ∷ []) in
      let all : (handle_all_upstream parse us now (upstream_work c t (ev ∷ q)) t).0 ++ []
          ≡ (parse_all parse now ms t).0 ++ (jobs ++ rest) =
        append-nil _ ∙ rw (end, on) refl in
      let quiet : heard (jobs ++ rest) ≡ [] =
        heard-append jobs rest
        ∙ rw (heard-job (queued after.downstream_queue)) (heard-flushed after.flush_others) in
      ap heard all
      ∙ heard-append (parse_all parse now ms t).0 (jobs ++ rest)
      ∙ rw (heard-parse_all ms t, quiet) (append-nil _)

  -- Down the path all is sent on.
  pub below_sends :
      (t : TransitHop) (q : List (List ℕ × List ℕ))
      → t.gathering ≡ true
      → messages_to t.info.downstream (run_jobs c parse now us (job downstream_job q) t)
        ≡ map (relay_message c t t.info.rx_id) q
  unfolding run_jobs job handle_all_downstream downstream_work
  below_sends t [] on = unfold messages_to in refl
  below_sends t (ev ∷ q) on =
      let ms = map (relay_message c t t.info.rx_id) (ev ∷ q) in
      let all : handle_all_downstream (downstream_work c t (ev ∷ q)) t ++ []
          ≡ map (sent t.info.downstream) ms ++ (pumped ∷ []) =
        append-nil _ ∙ rw on refl in
      rw all (messages_to-pumped t.info.downstream ms)
