-- ===== src/Thread/Queue/Runs.antt =====
-- Whole runs of the threads on one Queue of llarp/util/thread/queue.hpp.
use bittoro_network.Prelude.{
  ℕ, suc, ◌+◌, ◌-◌, ◌≡◌, refl, sym, ◌∙◌, subst, List, [], ◌∷◌, Option, some, get_elem?, All,
  Bool-cases, inl, inr, ◌>>=◌,
}
use bittoro_network.Thread.QueueManager
use bittoro_network.Thread.QueueManager.{
  QueueManager, ElementState, empty, writing, full, reading, is_disabled_flag_set,
  reserve_push_index, reserve_pop_index, Reserve, reserved, refused, spinning, QueueReturn,
  queue_disabled,
}
use bittoro_network.Thread.QueueManager.Invariant.{Inv, slot_after, generation_after}
use bittoro_network.Thread.QueueManager.Pushing.{push_result, reserve_push_lem}
use bittoro_network.Thread.QueueManager.Popping.{pop_result, reserve_pop_lem}
use bittoro_network.Thread.QueueManager.Control.{
  disable-Inv, enable-Inv, disable-flagged_at, enable-flagged_at,
}
use bittoro_network.Thread.Queue
use bittoro_network.Thread.Queue.{Queue}
use bittoro_network.Thread.Queue.System
use bittoro_network.Thread.Queue.System.{
  System, Local, idle, pushing, popping, Call, push, pop, finish, switch_off, switch_on, Outcome,
  begun, answered, retries, got, done, start, begun_push, begun_pop, step_at, step, run,
}
use bittoro_network.Thread.Queue.Ghosts.{Ghost, Consistent}
use bittoro_network.Thread.Queue.Pushes.{begun_push-Consistent, get_elem?-append_some}
use bittoro_network.Thread.Queue.Finishes.{finish_push-Consistent, finish_pop-Consistent}
use bittoro_network.Thread.Queue.Pops.{begun_pop-Consistent}

module _ {ℓ} {A : Type ℓ} where
  abbrev pub Sound : ℕ → System A → Type ℓ
  Sound capacity s =
      (s.queue.manager.capacity ≡ capacity)
      × ((b : ℕ) × (j : ℕ) × (n : ℕ) × ((w : Ghost) × Consistent s b j n w))

  -- A value that was got is that of the push of the same number.
  abbrev pub Right : List A → Outcome A → Type ℓ
  Right pushes (got k v) = get_elem? pushes k ≡ some v
  Right pushes _ = pushes ≡ pushes

  -- The log only grows.
  abbrev pub Kept : List A → List A → Type ℓ
  Kept pushes pushes' = (i : ℕ) (v : A) → get_elem? pushes i ≡ some v → get_elem? pushes' i ≡ some v

  abbrev pub Goes : ℕ → System A → Option (Outcome A × System A) → Type ℓ
  Goes capacity s result =
      (r : Outcome A × System A) × (result ≡ some r)
      × Right (r.1.pushes) (r.0)
      × Kept s.pushes (r.1.pushes)
      × Sound capacity (r.1)

  module _ (s : System A) (b j n : ℕ) (w : Ghost) (c : Consistent s b j n w) (t : ℕ) (rounds : ℕ)
      (capacity : ℕ) (same : s.queue.manager.capacity ≡ capacity) where
    abbrev m : QueueManager
    m = s.queue.manager

    push_at :
        (v : A) (st : ElementState)
        → s.threads t ≡ idle
        → w.state (slot_after m j n) ≡ st
        → Goes capacity s
            (begun_push t v s (push_result m (generation_after m b j n) (slot_after m j n) st))
    push_at v empty e at = (
      (begun, _),
      refl,
      refl,
      get_elem?-append_some s.pushes (v ∷ []),
      (same, (b, j, n + 1, (_, begun_push-Consistent s b j n w c t e v at))),
    )
    push_at v writing e at = ((answered _, s), refl, refl, λ i x h. h, (same, (b, j, n, (w, c))))
    push_at v full e at = ((answered _, s), refl, refl, λ i x h. h, (same, (b, j, n, (w, c))))
    push_at v reading e at = ((retries, s), refl, refl, λ i x h. h, (same, (b, j, n, (w, c))))

    push-Goes :
        (v : A)
        → s.threads t ≡ idle
        → Goes capacity s (reserve_push_index (suc (suc rounds)) m >>= begun_push t v s)
    push-Goes v e =
        rw (reserve_push_lem m b j n w.state w.gen (c.inner) rounds)
          (elim (Bool-cases (is_disabled_flag_set m.push_index)) [
            | inl off ↦
                rw off
                  ((answered queue_disabled, s), refl, refl, λ i x h. h, (same, (b, j, n, (w, c))))
            | inr open_queue ↦ rw open_queue (push_at v (w.state (slot_after m j n)) e refl)
          ])

    pop_at :
        (st : ElementState)
        → s.threads t ≡ idle
        → w.state j ≡ st
        → Goes capacity s (begun_pop t s (pop_result m b j st))
    pop_at full e at = (
      (begun, _),
      refl,
      refl,
      λ i x h. h,
      (
        same,
        (
          generation_after m b j 1,
          slot_after m j 1,
          n - 1,
          (_, begun_pop-Consistent s b j n w c t e at),
        ),
      ),
    )
    pop_at empty e at = ((answered _, s), refl, refl, λ i x h. h, (same, (b, j, n, (w, c))))
    pop_at reading e at = ((answered _, s), refl, refl, λ i x h. h, (same, (b, j, n, (w, c))))
    pop_at writing e at = ((retries, s), refl, refl, λ i x h. h, (same, (b, j, n, (w, c))))

    pop-Goes :
        s.threads t ≡ idle
        → Goes capacity s (reserve_pop_index (suc (suc rounds)) m >>= begun_pop t s)
    pop-Goes e =
        rw (reserve_pop_lem m b j n w.state w.gen (c.inner) rounds) (pop_at (w.state j) e refl)

    nothing-Goes : Goes capacity s (some (done, s))
    nothing-Goes = ((done, s), refl, refl, λ i x h. h, (same, (b, j, n, (w, c))))

    abbrev with_manager : QueueManager → ℕ → System A
    with_manager other semaphore = record s {
      queue = record (s.queue) { manager = other; push_semaphore = semaphore };
    }

    switch-Goes :
        (other : QueueManager) (semaphore : ℕ)
        → Inv other b j n w.state w.gen
        → (p : ℕ) × (other ≡ record m { push_index = p })
        → Goes capacity s (some (done, with_manager other semaphore))
    switch-Goes other semaphore inner (p, as_before) =
        subst (λ x. Goes capacity s (some (done, with_manager x semaphore))) (sym as_before)
          (
            (done, with_manager (record m { push_index = p }) semaphore),
            refl,
            refl,
            λ i x h. h,
            (
              same,
              (
                b,
                j,
                n,
                (
                  w,
                  record {
                    inner = subst (λ x. Inv x b j n w.state w.gen) as_before inner;
                    storage = c.storage;
                    counted = c.counted;
                    ordered = c.ordered;
                    numbered = c.numbered;
                    objects = c.objects;
                    attended = c.attended;
                    claims = c.claims;
                  },
                ),
              ),
            ),
          )

    finish_push-Goes :
        (g i : ℕ) (v : A)
        → s.threads t ≡ pushing g i v
        → Goes capacity s (step_at (suc (suc rounds)) t (pushing g i v) finish s)
    finish_push-Goes g i v e =
        let done = finish_push-Consistent s b j n w c t g i v e in
        rw (done.1)
          ((_, _), refl, refl, λ i x h. h, (done.2 ∙ same, (b, j, n, (done.4.0, done.4.2))))

    finish_pop-Goes :
        (g i k : ℕ)
        → s.threads t ≡ popping g i k
        → Goes capacity s (step_at (suc (suc rounds)) t (popping g i k) finish s)
    finish_pop-Goes g i k e =
        let done = finish_pop-Consistent s b j n w c t g i k e in
        rw (done.1)
          ((_, _), refl, done.4, λ i x h. h, (done.2 ∙ same, (b, j, n, (done.5.0, done.5.2))))

    goes :
        (l : Local A) (call : Call A)
        → s.threads t ≡ l
        → Goes capacity s (step_at (suc (suc rounds)) t l call s)
    unfolding Queue.disable Queue.enable
    goes idle (push v) e = push-Goes v e
    goes idle pop e = pop-Goes e
    goes idle finish e = nothing-Goes
    goes idle switch_off e =
        switch-Goes (QueueManager.disable m) (s.queue.push_semaphore + s.queue.waiting_pushers)
          (disable-Inv m b j n w.state w.gen (c.inner))
          (disable-flagged_at m b j n w.state w.gen (c.inner))
    goes idle switch_on e =
        switch-Goes (QueueManager.enable m) s.queue.push_semaphore
          (enable-Inv m b j n w.state w.gen (c.inner))
          (enable-flagged_at m b j n w.state w.gen (c.inner))
    goes (pushing g i v) finish e = finish_push-Goes g i v e
    goes (popping g i k) finish e = finish_pop-Goes g i k e
    goes (pushing g i v) (push x) e = nothing-Goes
    goes (pushing g i v) pop e = nothing-Goes
    goes (pushing g i v) switch_off e = nothing-Goes
    goes (pushing g i v) switch_on e = nothing-Goes
    goes (popping g i k) (push x) e = nothing-Goes
    goes (popping g i k) pop e = nothing-Goes
    goes (popping g i k) switch_off e = nothing-Goes
    goes (popping g i k) switch_on e = nothing-Goes

  -- One step of any thread fails no assert.
  step-Sound :
      (capacity rounds t : ℕ) (call : Call A) (s : System A)
      → Sound capacity s
      → Goes capacity s (step (suc (suc rounds)) t call s)
  unfolding step
  step-Sound capacity rounds t call s (same, (b, j, n, (w, c))) =
      goes s b j n w c t rounds capacity same (s.threads t) call refl

  Right-Kept :
      (pushes pushes' : List A) (o : Outcome A)
      → Kept pushes pushes'
      → Right pushes o
      → Right pushes' o
  Right-Kept pushes pushes' (got k v) kept right = kept k v right
  Right-Kept pushes pushes' begun kept right = refl
  Right-Kept pushes pushes' (answered r) kept right = refl
  Right-Kept pushes pushes' retries kept right = refl
  Right-Kept pushes pushes' System.pushed kept right = refl
  Right-Kept pushes pushes' done kept right = refl

  abbrev pub Ran : ℕ → System A → Option (List (Outcome A) × System A) → Type ℓ
  Ran capacity s result =
      (r : List (Outcome A) × System A) × (result ≡ some r)
      × All (Right (r.1.pushes)) (r.0)
      × Kept s.pushes (r.1.pushes)
      × Sound capacity (r.1)

  pub run-Sound :
      (capacity rounds : ℕ) (calls : List (ℕ × Call A)) (s : System A)
      → Sound capacity s
      → Ran capacity s (run (suc (suc rounds)) calls s)
  unfolding run
  run-Sound capacity rounds [] s sound = (([], s), refl, _, λ i v h. h, sound)
  run-Sound capacity rounds ((t, call) ∷ calls) s sound =
      let first : Goes capacity s (step (suc (suc rounds)) t call s) =
        step-Sound capacity rounds t call s sound in
      let (r, e, right, kept, after) = first in
      let rest : Ran capacity (r.1) (run (suc (suc rounds)) calls (r.1)) =
        run-Sound capacity rounds calls (r.1) after in
      let (r', e', all, kept', last) = rest in
      (
        (r.0 ∷ r'.0, r'.1),
        rw (e, e') refl,
        (Right-Kept (r.1.pushes) (r'.1.pushes) (r.0) kept' right, all),
        λ i v h. kept' i v (kept i v h),
        last,
      )
