-- ===== src/Thread/Queue/Progress.antt =====
-- What a call on a Queue of llarp/util/thread/queue.hpp that retries waits for.
use bittoro_network.Prelude.{
  ℕ, suc, ◌+◌, ◌-◌, ◌*◌, ◌^◌, ◌<◌, ◌≤◌, ◌≡◌, ◌≢◌, refl, ap, sym, ◌∙◌, subst, List, Option, some,
  Bool, true, false, ◌==◌, if◌then◌else◌, ltb, arith, Bool-cases, inl, inr, some_inj,
}
use bittoro_network.Thread.QueueManager.{
  QueueManager, ElementState, empty, writing, full, reading, state_code, is_disabled_flag_set,
  refused, queue_disabled,
}
use bittoro_network.Thread.QueueManager.Invariant.{slot_after, generation_after}
use bittoro_network.Thread.QueueManager.Pushing.{push_result, reserve_push_lem}
use bittoro_network.Thread.QueueManager.Popping.{pop_result, reserve_pop_lem}
use bittoro_network.Thread.Queue.System
use bittoro_network.Thread.Queue.System.{
  System, Local, idle, pushing, popping, Call, push, pop, finish, switch_off, switch_on, Outcome,
  begun, answered, retries, got, done, start, begun_push, begun_pop, idle_after, step_at, step, run,
}
use bittoro_network.Thread.Queue.Ghosts.{Ghost, Claim, Consistent, at_work}
use bittoro_network.Thread.Queue.Finishes.{finish_push-Consistent, finish_pop-Consistent}
use bittoro_network.Thread.Queue.Runs.{Sound, run-Sound}
use bittoro_network.Thread.Queue.Fifo.{start-Sound}
use bittoro_network.Thread.QueueManager.Pushing.{slot-lt}
use bittoro_network.Thread.QueueManager.Invariant.{update}

reading-ne_writing : reading ≢ writing
reading-ne_writing e = let bad : 3 ≡ 1 = ap state_code e in absurd (ground (arith, bad))

module _ {ℓ} {A : Type ℓ} where
  -- The thread at work on a cell that is read is between the steps of a pop.
  reader :
      (capacity : ℕ) (pushes : List A) (w : Ghost) (t i : ℕ) (l : Local A)
      → Claim capacity pushes w t l
      → at_work l i ≡ true
      → w.state i ≡ reading
      → (g : ℕ) × (k : ℕ) × (l ≡ popping g i k)
  reader capacity pushes w t i idle claim busy e = absurd (ground (arith, busy))
  reader capacity pushes w t i (pushing g i' v) claim busy e =
      let same : i ≡ i' = ground arith in
      absurd (reading-ne_writing (sym e ∙ ap w.state same ∙ claim.1))
  reader capacity pushes w t i (popping g i' k) claim busy e =
      let same : i' ≡ i = ground arith in (g, k, ap (λ x. popping g x k) same)

  writer :
      (capacity : ℕ) (pushes : List A) (w : Ghost) (t i : ℕ) (l : Local A)
      → Claim capacity pushes w t l
      → at_work l i ≡ true
      → w.state i ≡ writing
      → (g : ℕ) × (v : A) × (l ≡ pushing g i v)
  writer capacity pushes w t i idle claim busy e = absurd (ground (arith, busy))
  writer capacity pushes w t i (popping g i' k) claim busy e =
      let same : i ≡ i' = ground arith in
      absurd (reading-ne_writing (sym (claim.1) ∙ ap w.state (sym same) ∙ e))
  writer capacity pushes w t i (pushing g i' v) claim busy e =
      let same : i' ≡ i = ground arith in (g, v, ap (λ x. pushing g x v) same)

  abbrev has_retried : Option (Outcome A × System A) → Bool
  has_retried (some (retries, s)) = true
  has_retried _ = false

  idle_kept :
      (threads : ℕ → Local A) (t t' : ℕ) → threads t ≡ idle → update threads t' idle t ≡ idle
  idle_kept threads t t' e = elim (Bool-cases (t == t')) [
    | inl same ↦ rw same refl
    | inr other ↦ rw other e
  ]

  module _ (s : System A) (b j n : ℕ) (w : Ghost) (c : Consistent s b j n w) (t rounds : ℕ)
      (outside : s.threads t ≡ idle) where
    abbrev m : QueueManager
    m = s.queue.manager

    abbrev slot : ℕ
    slot = slot_after m j n

    abbrev Begins : Call A → Type ℓ
    Begins call = (after : System A) × (step (suc (suc rounds)) t call s ≡ some (begun, after))

    abbrev a : ℕ
    a = generation_after m b j n

    push_steps :
        (v : A)
        → is_disabled_flag_set m.push_index ≡ false
        → step (suc (suc rounds)) t (push v) s
          ≡ begun_push t v s (push_result m a slot (w.state slot))
    unfolding step
    push_steps v open_queue =
        rw (outside, reserve_push_lem m b j n w.state w.gen (c.inner) rounds, open_queue) refl

    pop_steps : step (suc (suc rounds)) t pop s ≡ begun_pop t s (pop_result m b j (w.state j))
    unfolding step
    pop_steps = rw (outside, reserve_pop_lem m b j n w.state w.gen (c.inner) rounds) refl

    push-Begins :
        (v : A) → is_disabled_flag_set m.push_index ≡ false → w.state slot ≡ empty → Begins (push v)
    push-Begins v open_queue e =
        (_, push_steps v open_queue ∙ ap (λ x. begun_push t v s (push_result m a slot x)) e)

    pop-Begins : w.state j ≡ full → Begins pop
    pop-Begins e = (_, pop_steps ∙ ap (λ x. begun_pop t s (pop_result m b j x)) e)

    retried_push :
        (v : A) (st : ElementState)
        → has_retried (begun_push t v s (push_result m a slot st)) ≡ true
        → st ≡ reading
    retried_push v reading h = refl
    retried_push v empty h = absurd (ground (arith, h))
    retried_push v writing h = absurd (ground (arith, h))
    retried_push v full h = absurd (ground (arith, h))

    retried_pop :
        (st : ElementState)
        → has_retried (begun_pop t s (pop_result m b j st)) ≡ true
        → st ≡ writing
    retried_pop writing h = refl
    retried_pop empty h = absurd (ground (arith, h))
    retried_pop reading h = absurd (ground (arith, h))
    retried_pop full h = absurd (ground (arith, h))

    push_waits :
        (v : A)
        → has_retried (step (suc (suc rounds)) t (push v) s) ≡ true
        → (is_disabled_flag_set m.push_index ≡ false) × (w.state slot ≡ reading)
    unfolding step
    push_waits v h = elim (Bool-cases (is_disabled_flag_set m.push_index)) [
      | inl off ↦
          let refuses : step (suc (suc rounds)) t (push v) s
              ≡ begun_push t v s (refused queue_disabled, m) =
            rw (outside, reserve_push_lem m b j n w.state w.gen (c.inner) rounds, off) refl in
          let bad : false ≡ true = sym (ap has_retried refuses) ∙ h in absurd (ground (arith, bad))
      | inr open_queue ↦ (
        open_queue,
        retried_push v (w.state slot) (sym (ap has_retried (push_steps v open_queue)) ∙ h),
      )
    ]

  module _ (s : System A) (b j n : ℕ) (w : Ghost) (c : Consistent s b j n w) (t rounds : ℕ)
      (outside : s.threads t ≡ idle) where
    -- Another thread's step, after which the call begins.
    abbrev Resumes : Call A → Type ℓ
    Resumes call =
        (t' : ℕ) × (r : Outcome A × System A) × (after : System A) × (step (suc (suc rounds)) t'
            finish s
          ≡ some r)
        × (step (suc (suc rounds)) t call (r.1) ≡ some (begun, after))

    push-Resumes :
        (v : A) → has_retried (step (suc (suc rounds)) t (push v) s) ≡ true → Resumes (push v)
    unfolding step
    push-Resumes v h =
        let m = s.queue.manager in
        let i = slot_after m j n in
        let (open_queue, reads) = push_waits s b j n w c t rounds outside v h in
        let t' = w.owner i in
        let at : i < m.capacity = slot-lt m b j n w.state w.gen (c.inner) in
        let (g, k, there) =
          reader m.capacity s.pushes w t' i (s.threads t') (c.claims t')
            (c.attended i at (rw reads refl)) reads in
        let done = finish_pop-Consistent s b j n w c t' g i k there in
        let after : System A = idle_after t' (done.0.1) s in
        let same : slot_after (done.0.1.manager) j n ≡ i =
          ap (λ x. if ltb (j + n) x then j + n else j + n - x) (done.2) in
        let self : (i == i) ≡ true = ground arith in
        let emptied : done.5.0.state (slot_after (done.0.1.manager) j n) ≡ empty =
          ap (done.5.0.state) same ∙ ap (λ f. f i) (done.5.1) ∙ rw self refl in
        let begins =
          push-Begins after b j n (done.5.0) (done.5.2) t rounds (idle_kept s.threads t t' outside)
            v (ap is_disabled_flag_set (done.3) ∙ open_queue) emptied in
        (t', (got k (done.0.0), after), begins.0, rw (there, done.1) refl, begins.1)

    pop-Resumes : has_retried (step (suc (suc rounds)) t pop s) ≡ true → Resumes pop
    unfolding step
    pop-Resumes h =
        let m = s.queue.manager in
        let writes : w.state j ≡ writing =
          retried_pop s b j n w c t rounds outside (w.state j)
            (sym (ap has_retried (pop_steps s b j n w c t rounds outside)) ∙ h) in
        let t' = w.owner j in
        let (g, v, there) =
          writer m.capacity s.pushes w t' j (s.threads t') (c.claims t')
            (c.attended j (c.inner.slot) (rw writes refl)) writes in
        let done = finish_push-Consistent s b j n w c t' g j v there in
        let after : System A = idle_after t' (done.0) s in
        let self : (j == j) ≡ true = ground arith in
        let filled : done.4.0.state j ≡ full = ap (λ f. f j) (done.4.1) ∙ rw self refl in
        let begins =
          pop-Begins after b j n (done.4.0) (done.4.2) t rounds (idle_kept s.threads t t' outside)
            filled in
        (t', (System.pushed, after), begins.0, rw (there, done.1) refl, begins.1)

  module _ (s : System A) (b j n : ℕ) (w : Ghost) (c : Consistent s b j n w) (t rounds : ℕ) where
    abbrev Resumed : Call A → Type ℓ
    Resumed call =
        (t' : ℕ) × (r : Outcome A × System A) × (after : System A) × (step (suc (suc rounds)) t'
            finish s
          ≡ some r)
        × (step (suc (suc rounds)) t call (r.1) ≡ some (begun, after))

    never : {B : Type ℓ} → false ≡ true → B
    never bad = absurd (ground (arith, bad))

    -- Only a thread outside can find that it has to retry.
    resumes :
        (l : Local A) (call : Call A)
        → s.threads t ≡ l
        → has_retried (step_at (suc (suc rounds)) t l call s) ≡ true
        → Resumed call
    unfolding step
    resumes idle (push v) e h = push-Resumes s b j n w c t rounds e v (rw e h)
    resumes idle pop e h = pop-Resumes s b j n w c t rounds e (rw e h)
    resumes (pushing g i v) finish e h =
        never (rw ((finish_push-Consistent s b j n w c t g i v e).1) at h)
    resumes (popping g i k) finish e h =
        never (rw ((finish_pop-Consistent s b j n w c t g i k e).1) at h)
    resumes idle finish e h = never h
    resumes idle switch_off e h = never h
    resumes idle switch_on e h = never h
    resumes (pushing g i v) (push x) e h = never h
    resumes (pushing g i v) pop e h = never h
    resumes (pushing g i v) switch_off e h = never h
    resumes (pushing g i v) switch_on e h = never h
    resumes (popping g i k) (push x) e h = never h
    resumes (popping g i k) pop e h = never h
    resumes (popping g i k) switch_off e h = never h
    resumes (popping g i k) switch_on e h = never h

  -- Wherever a run of any threads on a new queue of a capacity that leaves three generations stands,
  -- a push or a pop that retries waits for one other thread: there is one whose own next step, the
  -- end of the pop or push that it began, succeeds, and after it the same call begins.
  pub retry_resumes :
      (capacity rounds : ℕ) (calls : List (ℕ × Call A)) (outcomes : List (Outcome A))
      (s s' : System A) (t : ℕ) (call : Call A)
      → 0 < capacity
      → 3 * capacity ≤ 2 ^ 31
      → run (suc (suc rounds)) calls (start capacity) ≡ some (outcomes, s)
      → step (suc (suc rounds)) t call s ≡ some (retries, s')
      → (t' : ℕ) × (r : Outcome A × System A) × (after : System A) × (step
            (suc (suc rounds))
            t'
            finish
            s
          ≡ some r)
        × (step (suc (suc rounds)) t call (r.1) ≡ some (begun, after))
  unfolding step
  retry_resumes capacity rounds calls outcomes s s' t call positive small ran retried =
      let ran' =
        run-Sound capacity rounds calls (start capacity) (start-Sound capacity positive small) in
      let same : ran'.0 ≡ (outcomes, s) = some_inj (sym (ran'.1) ∙ ran) in
      let sound : Sound capacity s = subst (λ r. Sound capacity (r.1)) same (ran'.4) in
      let (fixed, (b, j, n, (w, c))) = sound in
      resumes s b j n w c t rounds (s.threads t) call refl (ap has_retried retried)
