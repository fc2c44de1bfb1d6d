-- ===== src/Iwp/Session/Ticks.antt =====
-- Session::Tick of llarp/iwp/session.cpp against the tables of the receiving half.
use bittoro_network.Prelude.{
  ℕ, ◌+◌, ◌%◌, ◌^◌, ◌≤◌, ◌<◌, ◌≡◌, refl, sym, ap, ◌∙◌, List, [], ◌∷◌, none, some, false, arith, leb,
  if◌then◌else◌, if_rule, ◌⊎◌, inl, inr, Option-cases, some_inj,
}
use bittoro_network.Prelude.Assoc.{
  find, emplace, erase_if, find-erase_if_kept, find-erase_if-none, find-emplace, UniqueKeys,
}
use bittoro_network.Iwp.Outbound.{OutboundMessage}
use bittoro_network.Iwp.Outbound
use bittoro_network.Iwp.Inbound.{InboundMessage}
use bittoro_network.Iwp.Inbound
use bittoro_network.Iwp.Session.{Session, delivery_dropped, inform, replay_window}
use bittoro_network.Iwp.Session.Timers.{tick_tx, tick_rx, tick_tables, tick_sent, tick, reset_rates}
use bittoro_network.Iwp.Session.Keeps.{Keeps, Keeps-same, Keeps-trans, inform-Keeps}
use bittoro_network.Iwp.Session.Replay.{OnceOnly, Keeps-OnceOnly}

tick_tx-Keeps :
    (now : ℕ) (tx : List (ℕ × OutboundMessage)) (s : Session) → Keeps s (tick_tx now tx s).1
unfolding tick_tx
tick_tx-Keeps now [] s = Keeps-same s s refl refl refl
tick_tx-Keeps now ((id, m) ∷ tx) s =
    let s' = if Outbound.is_timed_out now m then inform m delivery_dropped s else s in
    Keeps-trans {t = s'}
      (if_rule (Keeps s) (Outbound.is_timed_out now m) (inform-Keeps m delivery_dropped s)
        (Keeps-same s s refl refl refl))
      (tick_tx-Keeps now tx s')

-- The filter to which a late message is added.
abbrev filtered : ℕ → ℕ → InboundMessage → List (ℕ × ℕ) → List (ℕ × ℕ)
filtered now id m filter = if Inbound.is_timed_out now m then emplace id now filter else filter

-- An id that is not received is left alone.
tick_rx_absent :
    (now : ℕ) (rx : List (ℕ × InboundMessage)) (filter : List (ℕ × ℕ)) (j : ℕ)
    → find j rx ≡ none
    → (find j (tick_rx now rx filter).0 ≡ none) × (find j (tick_rx now rx filter).1 ≡ find j filter)
unfolding tick_rx find
tick_rx_absent now [] filter j h = (refl, refl)
tick_rx_absent now ((id, m) ∷ rx) filter j h =
    let rest = tick_rx_absent now rx (filtered now id m filter) j in
    let e = find-emplace id j now filter in (ground (arith, rest), ground (arith, rest, e))

tick_rx-UniqueKeys :
    (now : ℕ) (rx : List (ℕ × InboundMessage)) (filter : List (ℕ × ℕ))
    → UniqueKeys rx
    → UniqueKeys (tick_rx now rx filter).0
unfolding tick_rx
tick_rx-UniqueKeys now [] filter u = tt
tick_rx-UniqueKeys now ((id, m) ∷ rx) filter u =
    let rest = tick_rx-UniqueKeys now rx (filtered now id m filter) u.1 in
    if_rule UniqueKeys (Inbound.is_timed_out now m) rest
      ((tick_rx_absent now rx (filtered now id m filter) id u.0).0, rest)

-- What was filtered stays, and what is added bears the time of the tick.
tick_rx_filter :
    (now : ℕ) (rx : List (ℕ × InboundMessage)) (filter : List (ℕ × ℕ)) (j : ℕ)
    → (find j (tick_rx now rx filter).1 ≡ find j filter)
      ⊎ ((find j filter ≡ none) × (find j (tick_rx now rx filter).1 ≡ some now))
unfolding tick_rx
tick_rx_filter now [] filter j = inl refl
tick_rx_filter now ((id, m) ∷ rx) filter j =
    let rest = tick_rx_filter now rx (filtered now id m filter) j in
    let e = find-emplace id j now filter in ground (arith, rest, e)

abbrev Apart : List (ℕ × InboundMessage) → List (ℕ × ℕ) → Type 0
Apart rx filter = (j : ℕ) → (find j rx ≡ none) ⊎ (find j filter ≡ none)

tail-Apart :
    (now id : ℕ) (m : InboundMessage) (rx : List (ℕ × InboundMessage)) (filter : List (ℕ × ℕ))
    → find id rx ≡ none
    → Apart ((id, m) ∷ rx) filter
    → Apart rx (filtered now id m filter)
unfolding find
tail-Apart now id m rx filter new a j =
    let same : id ≡ j → find j rx ≡ find id rx = λ e. ap (λ k. find k rx) (sym e) in
    ground (arith, a j, new, find-emplace id j now filter, same)

tick_rx-Apart :
    (now : ℕ) (rx : List (ℕ × InboundMessage)) (filter : List (ℕ × ℕ))
    → UniqueKeys rx
    → Apart rx filter
    → Apart (tick_rx now rx filter).0 (tick_rx now rx filter).1
unfolding tick_rx find
tick_rx-Apart now [] filter u a j = inl refl
tick_rx-Apart now ((id, m) ∷ rx) filter u a j =
    let f = filtered now id m filter in
    let rest = tick_rx-Apart now rx f u.1 (tail-Apart now id m rx filter u.0 a) j in
    let (_, head) = tick_rx_absent now rx f id u.0 in
    let same : id ≡ j → find j (tick_rx now rx f).1 ≡ find id (tick_rx now rx f).1 =
      λ e. ap (λ k. find k (tick_rx now rx f).1) (sym e) in
    ground (arith, rest, head, a id, same)

-- Nothing in the filter is older than the replay window.
abbrev pub IsFresh : ℕ → List (ℕ × ℕ) → Type 0
IsFresh now filter = (j at : ℕ) → find j filter ≡ some at → now < at + replay_window

-- Such a filter answers alike before and after it decays.
find-decayed :
    (now : ℕ) (filter : List (ℕ × ℕ)) (j : ℕ)
    → now + replay_window < 2 ^ 64
    → IsFresh now filter
    → ((j at : ℕ) → find j filter ≡ some at → at ≤ now)
    → find j (erase_if (λ id at. leb ((at + replay_window) % 2 ^ 64) now) filter) ≡ find j filter
find-decayed now filter j fits fresh past = elim (Option-cases (find j filter)) [
  | inl e ↦ find-erase_if-none _ j filter e ∙ sym e
  | inr (at, e) ↦
      let kept : leb ((at + replay_window) % 2 ^ 64) now ≡ false =
        ground (arith, fresh j at e, past j at e) in
      find-erase_if_kept (λ id at. leb ((at + replay_window) % 2 ^ 64) now) j at filter e kept
      ∙ sym e
]

tick_sent-Keeps : (now : ℕ) (s : Session) → Keeps s (tick_sent now s)
unfolding tick_sent reset_rates
tick_sent-Keeps now s =
    let reset = record (reset_rates s) { reset_rates_at = (now + 1000) % 2 ^ 64 } in
    let s₁ = if leb s.reset_rates_at now then reset else s in
    let s₂ = (tick_tx now s₁.tx_msgs s₁).1 in
    let s₃ = record s₂ { tx_msgs = (tick_tx now s₁.tx_msgs s₁).0 } in
    let rates : Keeps s s₁ =
      if_rule (Keeps s) (leb s.reset_rates_at now) (Keeps-same s reset refl refl refl)
        (Keeps-same s s refl refl refl) in
    Keeps-trans {t = s₁} rates
      (Keeps-trans {t = s₂} (tick_tx-Keeps now s₁.tx_msgs s₁) (Keeps-same s₂ s₃ refl refl refl))

module _ (now : ℕ) (s : Session) (fits : now + replay_window < 2 ^ 64)
    (fresh : IsFresh now s.replay_filter)
    (past : (j at : ℕ) → find j s.replay_filter ≡ some at → at ≤ now) where
  abbrev added : List (ℕ × ℕ)
  added = (tick_rx now s.rx_msgs s.replay_filter).1

  added_fresh : (j at : ℕ) → find j added ≡ some at → (now < at + replay_window) × (at ≤ now)
  added_fresh j at e = elim (tick_rx_filter now s.rx_msgs s.replay_filter j) [
    | inl h ↦ (fresh j at (sym h ∙ e), past j at (sym h ∙ e))
    | inr h ↦ let same : now ≡ at = some_inj (sym h.1 ∙ e) in (omega arith, omega arith)
  ]

  decayed : (j : ℕ) → find j (tick_tables now s).replay_filter ≡ find j added
  unfolding tick_tables
  decayed j =
      find-decayed now added j fits (λ i at e. (added_fresh i at e).0)
        (λ i at e. (added_fresh i at e).1)

  tick_tables-OnceOnly : OnceOnly s → OnceOnly (tick_tables now s)
  tick_tables-OnceOnly o = record {
    unique = unfold tick_tables in tick_rx-UniqueKeys now s.rx_msgs s.replay_filter o.unique;
    apart = λ j. elim (tick_rx-Apart now s.rx_msgs s.replay_filter o.unique o.apart j) [
      | inl e ↦ inl (unfold tick_tables in e)
      | inr e ↦ inr (decayed j ∙ e)
    ];
    unfiltered = λ j e.
        let gone : find j added ≡ none = sym (decayed j) ∙ e in
        let old : find j s.replay_filter ≡ none =
          ground (arith, tick_rx_filter now s.rx_msgs s.replay_filter j) in
        unfold tick_tables in o.unfiltered j old;
    once = λ j. unfold tick_tables in o.once j;
  }

-- A tick within the replay window of all that is filtered keeps the guarantee.
pub tick-OnceOnly :
    (now : ℕ) (s : Session)
    → now + replay_window < 2 ^ 64
    → IsFresh now s.replay_filter
    → ((j at : ℕ) → find j s.replay_filter ≡ some at → at ≤ now)
    → OnceOnly s
    → OnceOnly (tick now s)
unfolding tick
tick-OnceOnly now s fits fresh past o =
    let k = tick_sent-Keeps now s in
    tick_tables-OnceOnly now (tick_sent now s) fits (λ j at e. fresh j at (rw (← k.same_filter) e))
      (λ j at e. past j at (rw (← k.same_filter) e)) (Keeps-OnceOnly k o)
