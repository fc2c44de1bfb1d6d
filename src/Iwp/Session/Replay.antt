-- ===== src/Iwp/Session/Replay.antt =====
-- A message is delivered once, however often its packets are replayed.
use bittoro_network.Prelude.{
  ℕ, ◌+◌, ◌-◌, min, ◌≤◌, ◌≡◌, ◌≢◌, refl, ◌∙◌, subst, List, [], ◌∷◌, ◌++◌, Option, none, some, arith,
  ltb, ◌==◌, if◌then◌else◌, length, >>=-eq-some, some_inj, if_rule, ◌⊎◌, inl, inr, ℕ_discrete,
}
use bittoro_network.Prelude.Bytes.{slice?, be_bytes, write_at}
use bittoro_network.Prelude.Assoc.{
  find, assign, erase, emplace, find-erase, find-assign, find-emplace, UniqueKeys, erase-UniqueKeys,
  assign-UniqueKeys, emplace-UniqueKeys,
}
use bittoro_network.Iwp.Packet.{
  Packet, create_packet, nack, packet_overhead, command_overhead, fragment_size,
}
use bittoro_network.Iwp.Inbound.{InboundMessage, handle_data, is_completed, verify}
use bittoro_network.Iwp.Session.{Session, Env, encrypt_and_send}
use bittoro_network.Iwp.Session.Handlers.{queue_mack, finish, short_xmit, unknown_data, known_data}
use bittoro_network.Iwp.Session.Keeps.{Keeps, Keeps-same, encrypt_and_send-Keeps}

-- How often a message with an id was given to the link layer.
unfoldable pub deliveries : ℕ → List (ℕ × List ℕ) → ℕ
deliveries id [] = 0
deliveries id ((j, _) ∷ rest) = (if j == id then 1 else 0) + deliveries id rest

deliveries-append :
    (id : ℕ) (xs ys : List (ℕ × List ℕ))
    → deliveries id (xs ++ ys) ≡ deliveries id xs + deliveries id ys
unfolding deliveries
deliveries-append id [] ys = omega arith
deliveries-append id ((j, b) ∷ xs) ys = ground (arith, deliveries-append id xs ys)

-- The table of what is received has distinct ids; no id is received and filtered at once; what was delivered is filtered, and was delivered once.
pub record OnceOnly (s : Session) : Type 0 where
  pub unique : UniqueKeys s.rx_msgs
  pub apart : (j : ℕ) → (find j s.rx_msgs ≡ none) ⊎ (find j s.replay_filter ≡ none)
  pub unfiltered : (j : ℕ) → find j s.replay_filter ≡ none → deliveries j s.handled ≡ 0
  pub once : (j : ℕ) → deliveries j s.handled ≤ 1

pub Keeps-OnceOnly : {s s' : Session} → Keeps s s' → OnceOnly s → OnceOnly s'
Keeps-OnceOnly {s} {s'} k o = record {
  unique = k.unique o.unique;
  apart =
      λ j. elim (o.apart j) [ inl e ↦ inl (k.opens_none j e) | inr e ↦ inr (rw k.same_filter e) ];
  unfiltered = λ j e. rw k.same_handled (o.unfiltered j (rw k.same_filter at e));
  once = λ j. rw k.same_handled (o.once j);
}

finish-OnceOnly :
    (env : Env) (id : ℕ) (m : InboundMessage) (s : Session)
    → find id s.replay_filter ≡ none
    → OnceOnly s
    → OnceOnly (finish env id m s)
unfolding finish deliveries
finish-OnceOnly env id m s new o = record {
  unique = erase-UniqueKeys id s.rx_msgs o.unique;
  apart = λ j.
      ground
        (arith, o.apart j, find-erase id j s.rx_msgs, find-emplace id j env.now s.replay_filter);
  unfiltered = λ j e. ground (
    arith,
    deliveries-append j s.handled ((id, m.content) ∷ []),
    o.unfiltered j,
    find-emplace id j env.now s.replay_filter,
    at_id j,
  );
  once =
      λ j. ground (arith, deliveries-append j s.handled ((id, m.content) ∷ []), o.once j, at_one j);
}
  where
    at_id : (j : ℕ) → id ≡ j → find j s.replay_filter ≡ find id s.replay_filter
    at_id j e = rw e

    at_one : (j : ℕ) → id ≡ j → deliveries j s.handled ≡ 0
    at_one j e = o.unfiltered j (at_id j e ∙ new)

-- A message that is opened, or goes on, under an id that is not filtered.
reopened-OnceOnly :
    (rx : List (ℕ × InboundMessage)) (id : ℕ) (s : Session)
    → UniqueKeys rx
    → ((j : ℕ) → j ≢ id → find j s.rx_msgs ≡ none → find j rx ≡ none)
    → find id s.replay_filter ≡ none
    → OnceOnly s
    → OnceOnly (record s { rx_msgs = rx })
reopened-OnceOnly rx id s u same new o = record {
  unique = u;
  apart = λ j. elim (ℕ_discrete j id) [
    | yes e ↦ inr (rw e new)
    | no ne ↦ elim (o.apart j) [ inl e ↦ inl (same j ne e) | inr e ↦ inr e ]
  ];
  unfiltered = o.unfiltered;
  once = o.once;
}

-- The map may lose entries, and gain one under an id that is not filtered.
assign-OnceOnly :
    (id : ℕ) (m : InboundMessage) (s : Session)
    → find id s.replay_filter ≡ none
    → OnceOnly s
    → OnceOnly (record s { rx_msgs = assign id m s.rx_msgs })
assign-OnceOnly id m s new o =
    reopened-OnceOnly (assign id m s.rx_msgs) id s (assign-UniqueKeys id m s.rx_msgs o.unique)
      (λ j ne e. ground (arith, find-assign id j m s.rx_msgs)) new o

pub emplace-OnceOnly :
    (id : ℕ) (m : InboundMessage) (s : Session)
    → find id s.replay_filter ≡ none
    → OnceOnly s
    → OnceOnly (record s { rx_msgs = emplace id m s.rx_msgs })
emplace-OnceOnly id m s new o =
    reopened-OnceOnly (emplace id m s.rx_msgs) id s (emplace-UniqueKeys id m s.rx_msgs o.unique)
      (λ j ne e. ground (arith, find-emplace id j m s.rx_msgs)) new o

erase-Keeps : (id : ℕ) (s : Session) → Keeps s (record s { rx_msgs = erase id s.rx_msgs })
erase-Keeps id s = record {
  opens_none = λ j e. ground (arith, find-erase id j s.rx_msgs);
  unique = erase-UniqueKeys id s.rx_msgs;
  same_filter = refl;
  same_handled = refl;
}

pub queue_mack-Keeps : (id : ℕ) (s : Session) → Keeps s (queue_mack id s)
unfolding queue_mack
queue_mack-Keeps id s =
    Keeps-same s (record s { send_macks = emplace id tt s.send_macks }) refl refl refl

pub short_xmit-OnceOnly :
    (env : Env) (id sz : ℕ) (p : Packet) (m : InboundMessage) (s : Session) {s' : Session}
    → find id s.replay_filter ≡ none
    → OnceOnly s
    → short_xmit env id sz p m s ≡ some s'
    → OnceOnly s'
unfolding short_xmit
short_xmit-OnceOnly env id sz p m s {s'} new o h =
    let n = min sz fragment_size in
    let (buf, _, h₁) =
      >>=-eq-some (if ltb (length p) n then none else slice? (length p - n) n p) _ h in
    let (m', _, h₂) = >>=-eq-some (handle_data 0 buf env.now m) _ h₁ in
    let (done, _, h₃) = >>=-eq-some (is_completed m') _ h₂ in
    let kept = record s { rx_msgs = assign id m' s.rx_msgs } in
    let o' : OnceOnly kept = assign-OnceOnly id m' s new o in
    subst OnceOnly (some_inj h₃) (
      if_rule OnceOnly done
        (if_rule OnceOnly (verify env.shorthash m') (finish-OnceOnly env id m' kept new o') o') o')

pub known_data-OnceOnly :
    (env : Env) (id offset : ℕ) (buf : List ℕ) (m : InboundMessage) (s : Session) {s' : Session}
    → find id s.replay_filter ≡ none
    → OnceOnly s
    → known_data env id offset buf m s ≡ some s'
    → OnceOnly s'
unfolding known_data
known_data-OnceOnly env id offset buf m s {s'} new o h =
    let (m', _, h₁) = >>=-eq-some (handle_data offset buf env.now m) _ h in
    let (done, _, h₂) = >>=-eq-some (is_completed m') _ h₁ in
    subst OnceOnly (some_inj h₂) (
      if_rule OnceOnly done
        (if_rule OnceOnly (verify env.shorthash m') (finish-OnceOnly env id m' s new o)
          (Keeps-OnceOnly (erase-Keeps id s) o))
        (assign-OnceOnly id m' s new o))

pub unknown_data-Keeps : (env : Env) (id : ℕ) (s : Session) → Keeps s (unknown_data env id s)
unfolding unknown_data
unknown_data-Keeps env id s = by_filter (find id s.replay_filter)
  where
    nack_packet : Packet
    nack_packet =
        write_at (packet_overhead + command_overhead) (be_bytes 8 id)
          (create_packet (env.entropy s.made) nack 8 16 16)

    by_filter :
        (o : Option ℕ)
        → Keeps s (elim o [ none ↦ encrypt_and_send env nack_packet s | some _ ↦ queue_mack id s ])
    by_filter none = encrypt_and_send-Keeps env nack_packet s
    by_filter (some _) = queue_mack-Keeps id s
