-- ===== src/Thread/Queue/Removing.antt =====
-- What removeAll of llarp/util/thread/queue.hpp leaves.
use bittoro_network.Prelude.{
  ℕ, zero, suc, ◌+◌, ◌-◌, ◌≡◌, refl, ◌∙◌, subst, List, Option, some, arith,
}
use bittoro_network.Thread.QueueManager.{QueueManager}
use bittoro_network.Thread.Queue.{Queue, remove_loop}
use bittoro_network.Thread.Queue.Ghosts.{Ghost, Consistent}
use bittoro_network.Thread.Queue.Quiet.{alone, remove_some}

module _ {ℓ} {A : Type ℓ} where
  -- The count of a semaphore does not matter.
  pub with_semaphore :
      (q : Queue A) (pushes : List A) (pops b j n : ℕ) (w : Ghost) (semaphore : ℕ)
      → Consistent (alone q pushes pops) b j n w
      → Consistent (alone (record q { push_semaphore = semaphore }) pushes pops) b j n w
  with_semaphore q pushes pops b j n w semaphore c = record {
    inner = c.inner;
    storage = c.storage;
    counted = c.counted;
    ordered = c.ordered;
    numbered = c.numbered;
    objects = c.objects;
    attended = c.attended;
    claims = c.claims;
  }

  -- The loop of removeAll empties the queue.
  abbrev pub Emptied : QueueManager → List A → ℕ → ℕ → Option (ℕ × Queue A) → Type ℓ
  Emptied m pushes pops k result =
      (q' : Queue A) × (result ≡ some (k, q'))
      × (q'.manager.capacity ≡ m.capacity)
      × (q'.manager.push_index ≡ m.push_index)
      × ((b : ℕ) × (j : ℕ) × (w : Ghost) × Consistent (alone q' pushes (pops + k)) b j 0 w)

  pub empties :
      (rounds k : ℕ) (q : Queue A) (pushes : List A) (pops b j : ℕ) (w : Ghost)
      → Consistent (alone q pushes pops) b j k w
      → Emptied q.manager pushes pops k (remove_loop (suc (suc rounds)) k q)
  unfolding remove_loop
  empties rounds zero q pushes pops b j w c =
      let same : pops ≡ pops + 0 = omega arith in
      (q, refl, refl, refl, (b, j, w, subst (λ x. Consistent (alone q pushes x) b j 0 w) same c))
  empties rounds (suc k) q pushes pops b j w c =
      let step = remove_some q pushes pops b j (suc k) w c rounds k (omega arith) in
      let less : suc k - 1 ≡ k = omega arith in
      let left =
        subst
          (λ x. Consistent (alone (step.0) pushes (pops + 1)) (step.4.0) (step.4.1) x (step.4.2))
          less (step.4.3) in
      let rest : Emptied (step.0.manager) pushes (pops + 1) k
          (remove_loop (suc (suc rounds)) k (step.0)) =
        empties rounds k (step.0) pushes (pops + 1) (step.4.0) (step.4.1) (step.4.2) left in
      let same : pops + 1 + k ≡ pops + suc k = omega arith in
      (
        rest.0,
        step.1 ∙ rw (rest.1) refl,
        rest.2 ∙ step.2,
        rest.3 ∙ step.3,
        (
          rest.4.0,
          rest.4.1,
          rest.4.2,
          subst (λ x. Consistent (alone (rest.0) pushes x) (rest.4.0) (rest.4.1) 0 (rest.4.2)) same
              (rest.4.3),
        ),
      )
