-- ===== src/Util/CoDel/Filters.antt =====
-- What a filter of Process of llarp/util/codel.hpp leaves behind.
use bittoro_network.Prelude.{
  ℕ, suc, ◌+◌, ◌-◌, ◌^◌, ◌≤◌, ◌≡◌, ◌≢◌, refl, ap, ◌∙◌, subst, List, [], ◌∷◌, ◌++◌, Option, none,
  some, Bool, true, false, min, ltb, ◌==◌, length, length-append, get_elem?, get_elem?-set_self,
  get_elem?-set_ne, get_elem?_lt, set, All, arith, Bool-cases, inl, inr, sub64,
}
use bittoro_network.Util.CoDel.{CoDelQueue, finished, drain, process}
use bittoro_network.Util.CoDel.Visits.{Stand, Holds}

module _ {ℓ} {T : Type ℓ} (get_time : T → ℕ) (raised : ℕ → ℕ → ℕ) (filter : T → Bool) where
  abbrev Stopped : List T → ℕ → Option (List T × CoDelQueue T) → Type ℓ
  Stopped xs left result =
      (q' : CoDelQueue T) × (result ≡ some (xs, q'))
      × (q'.queue_idx ≡ left)
      × (get_elem? q'.queue 0 ≡ some none)

  -- The loop stops in front of an item that the filter takes, and leaves the count of those behind.
  stops :
      (xs : List T) (y : T) (ys : List T) (start idx lowest : ℕ) (q : CoDelQueue T)
      → Stand get_time (xs ++ (y ∷ ys)) (suc idx) q
      → q.queue_idx ≡ length (xs ++ (y ∷ ys))
      → get_elem? q.queue 0 ≡ some none
      → All (λ x. filter x ≡ false) xs
      → filter y ≡ true
      → Stopped xs
          (suc (length ys))
          (drain get_time raised filter (length (xs ++ (y ∷ ys))) start (suc idx) lowest q)
  unfolding drain
  stops [] y ys start idx lowest q stand e gone pass stop =
      let at : suc idx + 0 ≡ suc idx = omega arith in
      let slot : get_elem? q.queue (suc idx) ≡ some (some y) =
        subst (λ k. get_elem? q.queue k ≡ some (some y)) at (stand 0 y refl) in
      (finished get_time raised filter start q, rw (slot, stop) refl, e, gone)
  stops (x ∷ xs) y ys start idx lowest q stand e gone pass stop =
      let at : suc idx + 0 ≡ suc idx = omega arith in
      let slot : get_elem? q.queue (suc idx) ≡ some (some x) =
        subst (λ k. get_elem? q.queue k ≡ some (some x)) at (stand 0 x refl) in
      let n = length (xs ++ (y ∷ ys)) in
      let later : (n == 0) ≡ false = ground (arith, length-append xs (y ∷ ys)) in
      let q' : CoDelQueue T = record q { queue_idx = n; queue = set q.queue (suc idx) none } in
      let low = min (sub64 start (get_time x)) lowest in
      let step : suc idx + 1 ≡ suc (suc idx) = omega arith in
      let rest : Stopped xs (suc (length ys))
          (drain get_time raised filter n start (suc (suc idx)) low q') =
        stops xs y ys start (suc idx) low q'
          (λ i v h.
            let other : suc idx ≢ suc (suc idx) + i = λ p. omega arith in
            let shift : suc (suc idx) + i ≡ suc idx + suc i = omega arith in
            get_elem?-set_ne q.queue none other ∙ rw shift (stand (suc i) v h))
          refl (get_elem?-set_ne q.queue none (λ p. omega (arith, p)) ∙ gone) (pass.1) stop in
      (rest.0, rw (slot, pass.0, later, step, rest.1) refl, rest.2, rest.3)

  reads_none :
      (now : ℕ) (q : CoDelQueue T) (k : ℕ)
      → q.queue_idx ≡ suc k
      → get_elem? q.queue 0 ≡ some none
      → q.next_tick_at ≤ now
      → process get_time raised filter now q ≡ none
  unfolding process drain
  reads_none now q k e gone h =
      let ticks : ltb now q.next_tick_at ≡ false = ground arith in
      elim (Bool-cases (q.queue_idx == 1)) [
        | inl one ↦ rw (ticks, one, gone) refl
        | inr more ↦
            rw (ticks, more)
              (ap (λ n. drain get_time raised filter n q.first_put 0 (2 ^ 64 - 1) q) e
                ∙ rw gone refl)
      ]

  -- A filter that stops Process behind the first item leaves a queue that counts the items behind from
  -- the front of its array, where they do not stand: the next Process that ticks reads a destroyed item.
  pub filter_strands :
      (now : ℕ) (q : CoDelQueue T) (x : T) (xs : List T) (y : T) (ys : List T)
      → Holds get_time q (x ∷ xs ++ (y ∷ ys))
      → q.next_tick_at ≤ now
      → All (λ z. filter z ≡ false) (x ∷ xs)
      → filter y ≡ true
      → (q' : CoDelQueue T) × (process get_time raised filter now q ≡ some (x ∷ xs, q'))
        × (q'.queue_idx ≡ suc (length ys))
        × ((later : ℕ) → q'.next_tick_at ≤ later → process get_time raised filter later q' ≡ none)
  unfolding process drain
  filter_strands now q x xs y ys held h pass stop =
      let ticks : ltb now q.next_tick_at ≡ false = ground arith in
      let n = length (xs ++ (y ∷ ys)) in
      let more : (q.queue_idx == 1) ≡ false =
        ground (arith, held.counted, length-append xs (y ∷ ys)) in
      let later : (n == 0) ≡ false = ground (arith, length-append xs (y ∷ ys)) in
      let q' : CoDelQueue T = record q { queue_idx = n; queue = set q.queue 0 none } in
      let low = min (sub64 q.first_put (get_time x)) (2 ^ 64 - 1) in
      let rest : Stopped xs (suc (length ys))
          (drain get_time raised filter n q.first_put 1 low q') =
        stops xs y ys q.first_put 0 low q'
          (λ i v e.
            let other : 0 ≢ 1 + i = λ p. omega arith in
            let shift : 1 + i ≡ 0 + suc i = omega arith in
            get_elem?-set_ne q.queue none other ∙ rw shift (held.stand (suc i) v e))
          refl (get_elem?-set_self q.queue 0 none (get_elem?_lt q.queue 0 (held.stand 0 x refl)))
          (pass.1) stop in
      (
        rest.0,
        rw (ticks, more)
            (ap (λ k. drain get_time raised filter k q.first_put 0 (2 ^ 64 - 1) q) (held.counted)
              ∙ rw (held.stand 0 x refl, pass.0, later, rest.1) refl),
        rest.2,
        λ time ticking. reads_none time (rest.0) (length ys) (rest.2) (rest.3) ticking,
      )
