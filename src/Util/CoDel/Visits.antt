-- ===== src/Util/CoDel/Visits.antt =====
-- What Process of llarp/util/codel.hpp visits.
use bittoro_network.Prelude.{
  ℕ, zero, suc, ◌+◌, ◌-◌, ◌^◌, ◌<◌, ◌≤◌, ◌≡◌, ◌≢◌, refl, ap, sym, ◌∙◌, subst, List, [], ◌∷◌, ◌++◌,
  Option, none, some, some_inj, Bool, true, false, min, ltb, ◌==◌, length, length-append,
  length-set, get_elem?, get_elem?-set_self, get_elem?-set_ne, set, take, map, arith, dec_lt,
  Bool-cases, inl, inr, ◌⊎◌, sub64,
}
use mathlib.Core.List.{append_assoc, append-nil}
use bittoro_network.Util.CoDel.{
  CoDelQueue, max_size, initial_interval_ms, put, emplace, finished, drain, process,
}

module _ {ℓ} {T : Type ℓ} (get_time : T → ℕ) where
  -- The items stand in the slots from `idx` on.
  abbrev pub Stand : List T → ℕ → CoDelQueue T → Type ℓ
  Stand xs idx q =
      (i : ℕ) (v : T) → get_elem? xs i ≡ some v → get_elem? q.queue (idx + i) ≡ some (some v)

  -- The queue holds the items, and knows the time of the first.
  pub record Holds (q : CoDelQueue T) (items : List T) : Type ℓ where
    pub counted : q.queue_idx ≡ length items
    pub storage : length q.queue ≡ max_size
    pub room : length items ≤ max_size
    pub stand : Stand items 0 q
    pub first : (v : T) → get_elem? items 0 ≡ some v → q.first_put ≡ get_time v
    pub unset : length items ≡ 0 → q.first_put ≡ 0
    pub timed : (i : ℕ) (v : T) → get_elem? items i ≡ some v → 0 < get_time v

  module _ (put_time : T → T) where
    abbrev pub emplace_all : List T → CoDelQueue T → CoDelQueue T
    emplace_all [] q = q
    emplace_all (x ∷ xs) q = emplace_all xs (emplace put_time get_time x q)

    emplace-tick :
        (x : T) (q : CoDelQueue T) → (emplace put_time get_time x q).next_tick_at ≡ q.next_tick_at
    unfolding emplace
    emplace-tick x q = elim (Bool-cases (q.queue_idx == max_size)) [
      | inl e ↦ rw e refl
      | inr e ↦ rw e refl
    ]

    emplace_all-tick :
        (xs : List T) (q : CoDelQueue T) → (emplace_all xs q).next_tick_at ≡ q.next_tick_at
    emplace_all-tick [] q = refl
    emplace_all-tick (x ∷ xs) q =
        emplace_all-tick xs (emplace put_time get_time x q) ∙ emplace-tick x q

  module _ (put_time : T → T) (clock : (x : T) → 0 < get_time (put_time x)) where
    append-cases :
        (xs : List T) (x : T) (i : ℕ) (v : T)
        → get_elem? (xs ++ (x ∷ [])) i ≡ some v
        → ((i ≡ length xs) × (x ≡ v)) ⊎ ((i < length xs) × (get_elem? xs i ≡ some v))
    append-cases [] x zero v h = inl (refl, some_inj h)
    append-cases [] x (suc i) v h = ground (arith, h)
    append-cases (y ∷ ys) x zero v h = inr (omega arith, h)
    append-cases (y ∷ ys) x (suc i) v h = elim (append-cases ys x i v h) [
      | inl e ↦ inl (ap suc (e.0), e.1)
      | inr e ↦ inr (omega (arith, e.0), e.1)
    ]

    take_nil : (n : ℕ) (items : List T) → items ++ take n [] ≡ items
    take_nil zero items = append-nil items
    take_nil (suc n) items = append-nil items

    take_more :
        (items rest : List T) (x : T)
        → length items < max_size
        → items ++ take (max_size - length items) (x ∷ rest)
          ≡ (items ++ (x ∷ [])) ++ take (max_size - length (items ++ (x ∷ []))) rest
    take_more items rest x h =
        let more : max_size - length items ≡ suc (max_size - length (items ++ (x ∷ []))) =
          omega (arith, length-append items (x ∷ [])) in
        rw more
          (sym (append_assoc items (x ∷ []) (take (max_size - length (items ++ (x ∷ []))) rest)))

    put-Holds :
        (q : CoDelQueue T) (items : List T) (x : T)
        → Holds q items
        → length items < max_size
        → Holds (put put_time get_time x q) (items ++ (put_time x ∷ []))
    put-Holds q items x held h = record {
      counted = rw (length-append items (put_time x ∷ [])) (omega (arith, held.counted));
      storage = length-set q.queue q.queue_idx (some (put_time x)) ∙ held.storage;
      room = omega (arith, length-append items (put_time x ∷ []));
      stand = λ i v e. elim (append-cases items (put_time x) i v e) [
        | inl last ↦
            let at : 0 + i ≡ q.queue_idx = omega (arith, held.counted, last.0) in
            subst (λ k. get_elem? (set q.queue q.queue_idx (some (put_time x))) k ≡ some (some v))
              (sym at)
              (get_elem?-set_self q.queue q.queue_idx (some (put_time x))
                  (omega (arith, held.counted, held.storage))
                ∙ ap (λ y. some (some y)) (last.1))
        | inr before ↦
            let other : q.queue_idx ≢ 0 + i = λ p. omega (arith, held.counted, before.0) in
            get_elem?-set_ne q.queue (some (put_time x)) other ∙ held.stand i v (before.1)
      ];
      first = λ v e. elim (append-cases items (put_time x) 0 v e) [
        | inl last ↦
            let fresh : (q.first_put == 0) ≡ true = ground (arith, held.unset (sym (last.0))) in
            rw fresh (ap get_time (last.1))
        | inr before ↦
            let kept : (q.first_put == 0) ≡ false =
              ground (arith, held.first v (before.1), held.timed 0 v (before.1)) in
            rw kept (held.first v (before.1))
      ];
      unset = λ e. absurd (omega (arith, length-append items (put_time x ∷ [])));
      timed = λ i v e. elim (append-cases items (put_time x) i v e) [
        | inl last ↦ subst (λ y. 0 < get_time y) (last.1) (clock x)
        | inr before ↦ held.timed i v (before.1)
      ];
    }

    pub emplace_all-Holds :
        (xs : List T) (q : CoDelQueue T) (items : List T)
        → Holds q items
        → Holds
            (emplace_all put_time xs q)
            (items ++ take (max_size - length items) (map put_time xs))
    unfolding emplace
    emplace_all-Holds [] q items held =
        subst (Holds q) (sym (take_nil (max_size - length items) items)) held
    emplace_all-Holds (x ∷ xs) q items held = elim (dec_lt (length items) max_size) [
      | yes h ↦
          let open_queue : (q.queue_idx == max_size) ≡ false = ground (arith, held.counted) in
          rw open_queue (
            subst (Holds (emplace_all put_time xs (put put_time get_time x q)))
              (sym (take_more items (map put_time xs) (put_time x) h))
              (emplace_all-Holds xs (put put_time get_time x q) (items ++ (put_time x ∷ []))
                (put-Holds q items x held h)))
      | no h ↦
          let full : (q.queue_idx == max_size) ≡ true = ground (arith, held.counted, held.room) in
          let none_left : max_size - length items ≡ 0 = omega arith in
          rw (full, none_left) (rw none_left at (emplace_all-Holds xs q items held))
    ]

  module _ (raised : ℕ → ℕ → ℕ) where
    abbrev none_filtered : T → Bool
    none_filtered x = false

    -- Once the delay of an item was zero, all that follow are visited.
    abbrev Drained : ℕ → List T → Option (List T × CoDelQueue T) → Type ℓ
    Drained size xs result =
        (q' : CoDelQueue T) × (result ≡ some (xs, q'))
        × (q'.queue_idx ≡ 0)
        × (q'.first_put ≡ 0)
        × (length q'.queue ≡ size)

    drains :
        (xs : List T) (start idx : ℕ) (q : CoDelQueue T)
        → Stand xs idx q
        → q.queue_idx ≡ length xs
        → Drained
            (length q.queue)
            xs
            (drain get_time raised none_filtered (length xs) start idx 0 q)
    unfolding drain
    drains [] start idx q stand e =
        (finished get_time raised none_filtered start q, refl, e, refl, refl)
    drains (x ∷ []) start idx q stand e =
        let at : idx + 0 ≡ idx = omega arith in
        let slot : get_elem? q.queue idx ≡ some (some x) =
          subst (λ k. get_elem? q.queue k ≡ some (some x)) at (stand 0 x refl) in
        let low : min (sub64 start (get_time x)) 0 ≡ 0 = omega arith in
        (
          finished get_time raised none_filtered start (record q {
            queue_idx = 0;
            queue = set q.queue idx none;
            next_tick_interval = initial_interval_ms;
            drop_num = 0;
          }),
          rw (slot, low) refl,
          refl,
          refl,
          length-set q.queue idx none,
        )
    drains (x ∷ y ∷ ys) start idx q stand e =
        let at : idx + 0 ≡ idx = omega arith in
        let slot : get_elem? q.queue idx ≡ some (some x) =
          subst (λ k. get_elem? q.queue k ≡ some (some x)) at (stand 0 x refl) in
        let low : min (sub64 start (get_time x)) 0 ≡ 0 = omega arith in
        let q' : CoDelQueue T = record q {
          queue_idx = suc (length ys);
          queue = set q.queue idx none;
        } in
        let rest : Drained (length q'.queue) (y ∷ ys)
            (drain get_time raised none_filtered (suc (length ys)) start (idx + 1) 0 q') =
          drains (y ∷ ys) start (idx + 1) q'
            (λ i v h.
              let other : idx ≢ idx + 1 + i = λ p. omega arith in
              let shift : idx + 1 + i ≡ idx + suc i = omega arith in
              get_elem?-set_ne q.queue none other ∙ rw shift (stand (suc i) v h))
            refl in
        let later : (suc (length ys) == 0) ≡ false = ground arith in
        (
          rest.0,
          rw (slot, low, later, rest.1) refl,
          rest.2,
          rest.3,
          rest.4 ∙ length-set q.queue idx none,
        )

    pub empty-Holds :
        (q : CoDelQueue T)
        → q.queue_idx ≡ 0
        → q.first_put ≡ 0
        → length q.queue ≡ max_size
        → Holds q []
    empty-Holds q idx unset size = record {
      counted = idx;
      storage = size;
      room = omega arith;
      stand = λ i v h. ground (arith, h);
      first = λ v h. ground (arith, h);
      unset = λ h. unset;
      timed = λ i v h. ground (arith, h);
    }

    -- Nothing is dropped: the delay of the first item is zero.
    process_all :
        (now : ℕ) (q : CoDelQueue T) (items : List T)
        → Holds q items
        → q.next_tick_at ≤ now
        → (q' : CoDelQueue T) × (process get_time raised none_filtered now q ≡ some (items, q'))
          × Holds q' []
    unfolding process drain
    process_all now q [] held h =
        let ticks : ltb now q.next_tick_at ≡ false = ground arith in
        let none_there : q.queue_idx ≡ 0 = held.counted in
        (
          _,
          rw (ticks, none_there) refl,
          empty-Holds (finished get_time raised none_filtered q.first_put q) none_there refl
              (held.storage),
        )
    process_all now q (x ∷ []) held h =
        let ticks : ltb now q.next_tick_at ≡ false = ground arith in
        let one : (q.queue_idx == 1) ≡ true = ground (arith, held.counted) in
        (
          record q { queue = set q.queue 0 none; queue_idx = 0; first_put = 0 },
          rw (ticks, one, held.stand 0 x refl) refl,
          empty-Holds (record q { queue = set q.queue 0 none; queue_idx = 0; first_put = 0 }) refl
              refl (length-set q.queue 0 none ∙ held.storage),
        )
    process_all now q (x ∷ y ∷ ys) held h =
        let ticks : ltb now q.next_tick_at ≡ false = ground arith in
        let more : (q.queue_idx == 1) ≡ false = ground (arith, held.counted) in
        let q' : CoDelQueue T = record q {
          queue_idx = suc (length ys);
          queue = set q.queue 0 none;
        } in
        let rest : Drained (length q'.queue) (y ∷ ys)
            (drain get_time raised none_filtered (suc (length ys)) q.first_put 1 0 q') =
          drains (y ∷ ys) q.first_put 1 q'
            (λ i v e.
              let other : 0 ≢ 1 + i = λ p. omega arith in
              let shift : 1 + i ≡ 0 + suc i = omega arith in
              get_elem?-set_ne q.queue none other ∙ rw shift (held.stand (suc i) v e))
            refl in
        let later : (suc (length ys) == 0) ≡ false = ground arith in
        let low : min (sub64 q.first_put (get_time x)) (2 ^ 64 - 1) ≡ 0 =
          omega (arith, held.first x refl) in
        (
          rest.0,
          rw (ticks, more)
              (ap (λ k. drain get_time raised none_filtered k q.first_put 0 (2 ^ 64 - 1) q)
                  (held.counted)
                ∙ rw (held.stand 0 x refl, low, later, rest.1) refl),
          empty-Holds (rest.0) (rest.2) (rest.3)
              (rest.4 ∙ length-set q.queue 0 none ∙ held.storage),
        )

    -- Items are put into an empty queue and then processed, with no filter and not before the queue's
    -- next tick. When the clock gives them times above zero, the first 1024 are visited, each once and in
    -- order, the queue is empty again, and none is ever dropped for its delay.
    pub process-emplace_all :
        (put_time : T → T)
        → ((x : T) → 0 < get_time (put_time x))
        → (q : CoDelQueue T) (xs : List T) (now : ℕ) → Holds q []
        → q.next_tick_at ≤ now
        → (q' : CoDelQueue T) × (process get_time raised
              (λ x. false)
              now
              (emplace_all put_time xs q)
            ≡ some (take max_size (map put_time xs), q'))
          × Holds q' []
    process-emplace_all put_time clock q xs now held h =
        process_all now (emplace_all put_time xs q) (take max_size (map put_time xs))
          (emplace_all-Holds put_time clock xs q [] held)
          (subst (λ x. x ≤ now) (sym (emplace_all-tick put_time xs q)) h)
