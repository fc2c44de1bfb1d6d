-- ===== src/Thread/Queue/Refine.antt =====
-- Used by one thread at a time, Queue of llarp/util/thread/queue.hpp is a bounded queue of values.
use bittoro_network.Prelude.{
  min, ℕ, zero, suc, ◌+◌, ◌-◌, ◌*◌, ◌^◌, ◌<◌, ◌≤◌, ◌≡◌, refl, ap, sym, ◌∙◌, subst, List, [], ◌∷◌,
  ◌++◌, Option, some, Bool, true, false, ltb, ◌==◌, length, drop, length-drop, get_elem?, arith,
  dec_lt, Bool-cases, inl, inr,
}
use bittoro_network.Thread.QueueManager
use bittoro_network.Thread.QueueManager.{
  QueueManager, is_disabled_flag_set, success, queue_disabled, queue_full,
}
use bittoro_network.Thread.QueueManager.Control.{
  disable-Inv, enable-Inv, disable-flagged_at, enable-flagged_at, size_lem,
}
use bittoro_network.Thread.QueueManager.Invariant.{Inv}
use bittoro_network.Thread.Queue
use bittoro_network.Thread.Queue.{
  Queue, Pushed, returned, Popped, taken, nothing, try_push_back, try_pop_front, size, remove_loop,
  remove_all,
}
use bittoro_network.Thread.Queue.Ghosts.{Ghost, Consistent}
use bittoro_network.Thread.Queue.Quiet.{
  alone, push_disabled, push_full, push_room, pop_none, pop_some,
}
use bittoro_network.Thread.Queue.Fifo.{start-Sound}
use bittoro_network.Thread.Queue.Removing.{with_semaphore, empties}
use bittoro_network.Thread.Queue.Spec.{
  Op, push, pop, count, clear, close, reopen, Answer, of_push, of_pop, of_count, no_answer, Fifo,
  spec_pop, spec_push, spec_step, spec_run, call, calls,
}

disable-disabled :
    (m : QueueManager) → is_disabled_flag_set (QueueManager.disable m).push_index ≡ true
unfolding QueueManager.disable QueueManager.cas_push
disable-disabled m = elim (Bool-cases (is_disabled_flag_set m.push_index)) [
  | inl off ↦ rw off off
  | inr open_queue ↦
      let same : (m.push_index == m.push_index) ≡ true = ground arith in
      rw (open_queue, same) (ground arith)
]

enable-enabled :
    (m : QueueManager)
    → m.push_index < 2 ^ 32
    → is_disabled_flag_set (QueueManager.enable m).push_index ≡ false
unfolding QueueManager.enable QueueManager.cas_push
enable-enabled m lt = elim (Bool-cases (is_disabled_flag_set m.push_index)) [
  | inr open_queue ↦ rw open_queue open_queue
  | inl off ↦
      let same : (m.push_index == m.push_index) ≡ true = ground arith in
      rw (off, same) (ground arith)
]

module _ {ℓ} {A : Type ℓ} where
  drop-append_one :
      (n : ℕ) (xs : List A) (v : A)
      → n ≤ length xs
      → drop n (xs ++ (v ∷ [])) ≡ drop n xs ++ (v ∷ [])
  drop-append_one zero xs v h = refl
  drop-append_one (suc n) [] v h = absurd (omega arith)
  drop-append_one (suc n) (x ∷ xs) v h = drop-append_one n xs v (omega arith)

  drop-next :
      (n : ℕ) (xs : List A) (v : A) → get_elem? xs n ≡ some v → drop n xs ≡ v ∷ drop (n + 1) xs
  drop-next n [] v h = ground (arith, h)
  drop-next zero (x ∷ xs) v h = let same : some x ≡ some v = h in cc
  drop-next (suc n) (x ∷ xs) v h =
      let step : suc n + 1 ≡ suc (n + 1) = omega arith in rw step (drop-next n xs v h)

  length_zero : (xs : List A) → length xs ≡ 0 → xs ≡ []
  length_zero [] h = refl
  length_zero (x ∷ xs) h = absurd (omega arith)

  -- The queue holds the values of the abstract queue.
  abbrev pub Holds : ℕ → Queue A → Fifo A → Type ℓ
  Holds capacity q f =
      (pushes : List A) × (pops : ℕ) × (b : ℕ) × (j : ℕ) × (n : ℕ) × (w : Ghost) × Consistent
        (alone q pushes pops) b j n w
      × (q.manager.capacity ≡ capacity)
      × (is_disabled_flag_set q.manager.push_index ≡ f.closed)
      × (drop pops pushes ≡ f.items)

  abbrev pub Follows : ℕ → Op A → Fifo A → Option (Answer A × Queue A) → Type ℓ
  Follows capacity op f result =
      (q : Queue A) × (result ≡ some ((spec_step capacity op f).0, q))
      × Holds capacity q ((spec_step capacity op f).1)

  module _ (capacity rounds : ℕ) (q : Queue A) (pushes : List A) (pops b j n : ℕ) (w : Ghost)
      (c : Consistent (alone q pushes pops) b j n w) (same : q.manager.capacity ≡ capacity) where
    abbrev fifo : Fifo A
    fifo = record { items = drop pops pushes; closed = is_disabled_flag_set q.manager.push_index }

    length-items : length (drop pops pushes) ≡ n
    length-items = length-drop pops pushes ∙ omega (arith, c.counted)

    here : Holds capacity q fifo
    here = (pushes, pops, b, j, n, w, c, same, refl, refl)

    Follows-by :
        (op : Op A) (result : Option (Answer A × Queue A)) (f : Fifo A) (reply : Answer A)
        (f' : Fifo A)
        → spec_step capacity op f ≡ (reply, f')
        → (q' : Queue A) × (result ≡ some (reply, q')) × Holds capacity q' f'
        → Follows capacity op f result
    Follows-by op result f reply f' spec found =
        subst (λ z. (q' : Queue A) × (result ≡ some (z.0, q')) × Holds capacity q' (z.1)) (sym spec)
          found

    more : (v : A) → drop pops (pushes ++ (v ∷ [])) ≡ drop pops pushes ++ (v ∷ [])
    more v = drop-append_one pops pushes v (omega (arith, c.counted))

    push-Follows : (v : A) → Follows capacity (push v) fifo (call (suc (suc rounds)) (push v) q)
    push-Follows v = elim (Bool-cases (is_disabled_flag_set q.manager.push_index)) [
      | inl off ↦
          Follows-by (push v) (call (suc (suc rounds)) (push v) q) fifo
            (of_push (returned queue_disabled)) fifo
            (ap (λ x. spec_push x (ltb (length (drop pops pushes)) capacity) v fifo) off)
            (q, rw (push_disabled q pushes pops b j n w c rounds v off) refl, here)
      | inr open_queue ↦ elim (dec_lt n q.manager.capacity) [
        | yes room ↦
            let lt : ltb (length (drop pops pushes)) capacity ≡ true =
              ground (arith, length-items, same) in
            let done = push_room q pushes pops b j n w c rounds v open_queue room in
            Follows-by (push v) (call (suc (suc rounds)) (push v) q) fifo
              (of_push (returned success)) (record fifo { items = drop pops pushes ++ (v ∷ []) })
              (ap (λ x. spec_push x (ltb (length (drop pops pushes)) capacity) v fifo) open_queue
                ∙ ap (λ x. spec_push false x v fifo) lt)
              (
                done.0,
                rw (done.1) refl,
                (
                  pushes ++ (v ∷ []),
                  pops,
                  b,
                  j,
                  n + 1,
                  done.4.0,
                  done.4.1,
                  done.2 ∙ same,
                  done.3 ∙ sym open_queue,
                  more v,
                ),
              )
        | no none_left ↦
            let lt : ltb (length (drop pops pushes)) capacity ≡ false =
              ground (arith, length-items, same) in
            Follows-by (push v) (call (suc (suc rounds)) (push v) q) fifo
              (of_push (returned queue_full)) fifo
              (ap (λ x. spec_push x (ltb (length (drop pops pushes)) capacity) v fifo) open_queue
                ∙ ap (λ x. spec_push false x v fifo) lt)
              (
                q,
                rw (push_full q pushes pops b j n w c rounds v open_queue (omega arith)) refl,
                here,
              )
      ]
    ]

    pop-Follows : Follows capacity pop fifo (call (suc (suc rounds)) pop q)
    pop-Follows = elim (dec_lt 0 n) [
      | yes some_left ↦
          let done = pop_some q pushes pops b j n w c rounds some_left in
          let next : drop pops pushes ≡ done.0 ∷ drop (pops + 1) pushes =
            drop-next pops pushes (done.0) (done.3) in
          Follows-by pop (call (suc (suc rounds)) pop q) fifo (of_pop (taken (done.0)))
            (record fifo { items = drop (pops + 1) pushes })
            (ap (spec_pop (is_disabled_flag_set q.manager.push_index)) next)
            (
              done.1,
              rw (done.2) refl,
              (
                pushes,
                pops + 1,
                done.6.0,
                done.6.1,
                n - 1,
                done.6.2,
                done.6.3,
                done.4 ∙ same,
                ap is_disabled_flag_set (done.5),
                refl,
              ),
            )
      | no nothing_left ↦
          let zero_left : n ≡ 0 = omega arith in
          let none_there : drop pops pushes ≡ [] =
            length_zero (drop pops pushes) (length-items ∙ zero_left) in
          Follows-by pop (call (suc (suc rounds)) pop q) fifo (of_pop nothing)
            (record fifo { items = [] })
            (ap (spec_pop (is_disabled_flag_set q.manager.push_index)) none_there)
            (
              q,
              rw (pop_none q pushes pops b j n w c rounds zero_left) refl,
              (pushes, pops, b, j, n, w, c, same, refl, none_there),
            )
    ]

    count-Follows : Follows capacity count fifo (call (suc (suc rounds)) count q)
    unfolding size
    count-Follows =
        Follows-by count (call (suc (suc rounds)) count q) fifo (of_count n) fifo
          (rw length-items refl)
          (q, rw (size_lem q.manager b j n w.state w.gen (c.inner)) refl, here)

    clear-Follows : Follows capacity clear fifo (call (suc (suc rounds)) clear q)
    unfolding remove_all size
    clear-Follows =
        let done = empties rounds n q pushes pops b j w c in
        let semaphore = done.0.push_semaphore + min (n + 1) (done.0.waiting_pushers) in
        let none_left : drop (pops + n) pushes ≡ [] =
          length_zero (drop (pops + n) pushes)
            (length-drop (pops + n) pushes ∙ omega (arith, c.counted)) in
        (
          record (done.0) { push_semaphore = semaphore },
          rw (size_lem q.manager b j n w.state w.gen (c.inner), done.1) refl,
          (
            pushes,
            pops + n,
            done.4.0,
            done.4.1,
            0,
            done.4.2,
            with_semaphore (done.0) pushes (pops + n) (done.4.0) (done.4.1) 0 (done.4.2) semaphore
                (done.4.3),
            done.2 ∙ same,
            ap is_disabled_flag_set (done.3),
            none_left,
          ),
        )

    switch-Follows :
        (op : Op A) (closed : Bool) (other : QueueManager) (semaphore : ℕ)
        → spec_step capacity op fifo ≡ (no_answer, record fifo { closed = closed })
        → Inv other b j n w.state w.gen
        → (p : ℕ) × (other ≡ record (q.manager) { push_index = p })
        → is_disabled_flag_set other.push_index ≡ closed
        → Follows capacity op fifo
            (some (no_answer, record q { manager = other; push_semaphore = semaphore }))
    switch-Follows op closed other semaphore spec inner (p, as_before) flag =
        Follows-by op (some (no_answer, record q { manager = other; push_semaphore = semaphore }))
          fifo no_answer (record fifo { closed = closed }) spec
          (
            record q { manager = other; push_semaphore = semaphore },
            refl,
            subst
                (λ x.
                  is_disabled_flag_set x.push_index ≡ closed
                  → Holds capacity (record q { manager = x; push_semaphore = semaphore })
                      (record fifo { closed = closed }))
                (sym as_before)
                (λ flag'. (
                  pushes,
                  pops,
                  b,
                  j,
                  n,
                  w,
                  record {
                    inner = subst (λ x. Inv x b j n w.state w.gen) as_before inner;
                    storage = c.storage;
                    counted = c.counted;
                    ordered = c.ordered;
                    numbered = c.numbered;
                    objects = c.objects;
                    attended = c.attended;
                    claims = c.claims;
                  },
                  same,
                  flag',
                  refl,
                ))
                flag,
          )

    follows : (op : Op A) → Follows capacity op fifo (call (suc (suc rounds)) op q)
    unfolding Queue.disable Queue.enable
    follows (push v) = push-Follows v
    follows pop = pop-Follows
    follows count = count-Follows
    follows clear = clear-Follows
    follows close =
        switch-Follows close true (QueueManager.disable q.manager)
          (q.push_semaphore + q.waiting_pushers) refl
          (disable-Inv q.manager b j n w.state w.gen (c.inner))
          (disable-flagged_at q.manager b j n w.state w.gen (c.inner)) (disable-disabled q.manager)
    follows reopen =
        switch-Follows reopen false (QueueManager.enable q.manager) q.push_semaphore refl
          (enable-Inv q.manager b j n w.state w.gen (c.inner))
          (enable-flagged_at q.manager b j n w.state w.gen (c.inner))
          (enable-enabled q.manager (c.inner.flagged))

  step-Follows :
      (capacity rounds : ℕ) (op : Op A) (q : Queue A) (f : Fifo A)
      → Holds capacity q f
      → Follows capacity op f (call (suc (suc rounds)) op q)
  step-Follows capacity rounds op q f (pushes, pops, b, j, n, w, c, same, closed, items) =
      subst (λ x. Follows capacity op x (call (suc (suc rounds)) op q))
        (λ i. record { items = items i; closed = closed i })
        (follows capacity rounds q pushes pops b j n w c same op)

  run_follows :
      (capacity rounds : ℕ) (ops : List (Op A)) (q : Queue A) (f : Fifo A)
      → Holds capacity q f
      → calls (suc (suc rounds)) ops q ≡ some (spec_run capacity ops f)
  run_follows capacity rounds [] q f holds = refl
  run_follows capacity rounds (op ∷ ops) q f holds =
      let done : Follows capacity op f (call (suc (suc rounds)) op q) =
        step-Follows capacity rounds op q f holds in
      rw (done.1, run_follows capacity rounds ops (done.0) ((spec_step capacity op f).1) (done.2))
        refl

  -- A new queue of a capacity that leaves three generations, used by one thread at a time, answers any
  -- sequence of tryPushBack, tryPopFront, size, removeAll, disable and enable as the bounded queue of
  -- values does: a push is refused when the queue is disabled or holds as many values as its
  -- capacity, a pop takes the oldest value, and there is none only in an empty queue.
  pub run_refines :
      (capacity rounds : ℕ) (ops : List (Op A))
      → 0 < capacity
      → 3 * capacity ≤ 2 ^ 31
      → calls (suc (suc rounds)) ops (Queue.new capacity)
        ≡ some (spec_run capacity ops (record { items = []; closed = false }))
  unfolding Queue.new QueueManager.init
  run_refines capacity rounds ops positive small =
      let (same, (b, j, n, (w, c))) = start-Sound {A = A} capacity positive small in
      run_follows capacity rounds ops (Queue.new capacity) (record { items = []; closed = false })
        ([], 0, b, j, n, w, c, same, refl, refl)
