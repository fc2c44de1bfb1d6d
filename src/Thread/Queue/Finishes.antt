-- ===== src/Thread/Queue/Finishes.antt =====
-- The last step of a push to and of a pop from a Queue of llarp/util/thread/queue.hpp.
use bittoro_network.Prelude.{
  ℕ, ◌<◌, ◌≡◌, ◌≢◌, refl, ap, sym, ◌∙◌, subst, Option, some, none, true, false, ◌==◌, if◌then◌else◌,
  length, get_elem?, set, length-set, get_elem?-set_self, get_elem?-set_ne, arith, Bool-cases, inl,
  inr,
}
use bittoro_network.Thread.QueueManager.{QueueManager, ElementState, empty, full, next_generation}
use bittoro_network.Thread.QueueManager.Invariant.{Inv, slot_after, update}
use bittoro_network.Thread.QueueManager.Commits.{written, commit_push, commit_pop}
use bittoro_network.Thread.Queue.{Queue, finish_push, finish_pop, dispose, notify}
use bittoro_network.Thread.Queue.System.{System, idle, pushing, popping, idle_after}
use bittoro_network.Thread.Queue.Ghosts.{
  Ghost, has_object, is_busy, is_empty_state, busy-occupied, Claim, at_work, attended_elsewhere,
  Consistent, at_cell, Claim-kept, claims-kept,
}

pub update_same : (f : ℕ → ℕ) (i k : ℕ) → update f i (f i) k ≡ f k
update_same f i k = elim (Bool-cases (k == i)) [
  | inl e ↦ let same : k ≡ i = ground arith in rw e (ap f (sym same))
  | inr e ↦ rw e refl
]

module _ {ℓ} {A : Type ℓ} where
  module _ (s : System A) (b j n : ℕ) (w : Ghost) (c : Consistent s b j n w) (t : ℕ) where
    abbrev m : QueueManager
    m = s.queue.manager

    module _ (i g : ℕ) (state : ElementState) (object : Option A) (hi : i < m.capacity)
        (owned : w.owner i ≡ t) (busy : is_busy (w.state i) ≡ true) where
      abbrev ghost : Ghost
      ghost = at_cell w i state g (w.number i) t

      -- The thread leaves a cell in a state, with an object or none.
      abbrev left : Queue A → System A
      left q =
          idle_after t
            (record q {
              manager = written m b j n w.state w.gen (c.inner) i hi g state;
              cells = set s.queue.cells i object;
            })
            s

      elsewhere :
          (t' : ℕ)
          → (t' == t) ≡ false
          → (k : ℕ) → is_busy (w.state k) ≡ true
          → w.owner k ≡ t'
          → (k == i) ≡ false
      elsewhere t' ne k at_work mine = elim (Bool-cases (k == i)) [
        | inr e ↦ e
        | inl e ↦
            let same : k ≡ i = ground arith in
            let both : t' ≡ t = sym mine ∙ ap w.owner same ∙ owned in ground arith
      ]

      numbers :
          (k : ℕ)
          → k < m.capacity
          → is_empty_state (update w.state i state k) ≡ false
          → update w.number i (w.number i) k < length s.pushes
      numbers k hk h = elim (Bool-cases (k == i)) [
        | inl e ↦ rw e (c.numbered i hi (busy-occupied (w.state i) busy))
        | inr e ↦ rw e (
            c.numbered k hk
              (subst (λ x. is_empty_state (if x then state else w.state k) ≡ false) e h))
      ]

      objects :
          (has_object state ≡ true → object ≡ get_elem? s.pushes (w.number i))
          → (k : ℕ) → k < m.capacity
          → has_object (update w.state i state k) ≡ true
          → get_elem? (set s.queue.cells i object) k
            ≡ some (get_elem? s.pushes (update w.number i (w.number i) k))
      objects right k hk h = elim (Bool-cases (k == i)) [
        | inl e ↦
            let same : k ≡ i = ground arith in
            let there : has_object state ≡ true =
              subst (λ x. has_object (if x then state else w.state k) ≡ true) e h in
            rw (e, same, get_elem?-set_self s.queue.cells i object (rw (c.storage) hi))
              (ap some (right there))
        | inr e ↦
            let other : i ≢ k = λ p. ground arith in
            let there : has_object (w.state k) ≡ true =
              subst (λ x. has_object (if x then state else w.state k) ≡ true) e h in
            rw (e, get_elem?-set_ne s.queue.cells object other) (c.objects k hk there)
      ]

      watched :
          ((k : ℕ) → (k == i) ≡ false → at_work (s.threads t) k ≡ false)
          → is_busy state ≡ false
          → (k : ℕ) → k < m.capacity
          → is_busy (update w.state i state k) ≡ true
          → at_work (update s.threads t idle (update w.owner i t k)) k ≡ true
      watched only still k hk h = elim (Bool-cases (k == i)) [
        | inl e ↦
            let bad : is_busy state ≡ true =
              subst (λ x. is_busy (if x then state else w.state k) ≡ true) e h in
            absurd (ground (arith, sym still ∙ bad))
        | inr e ↦
            let there : is_busy (w.state k) ≡ true =
              subst (λ x. is_busy (if x then state else w.state k) ≡ true) e h in
            rw e
              (attended_elsewhere s.threads t idle k (w.owner k) (c.attended k hk there) (only k e))
      ]

      pub left-Consistent :
          (q : Queue A)
          → Inv
              (written m b j n w.state w.gen (c.inner) i hi g state)
              b
              j
              n
              (update w.state i state)
              (update w.gen i g)
          → (has_object state ≡ true → object ≡ get_elem? s.pushes (w.number i))
          → ((k : ℕ) → (k == i) ≡ false → at_work (s.threads t) k ≡ false)
          → is_busy state ≡ false
          → Consistent (left q) b j n ghost
      left-Consistent q inner right only still = record {
        inner = inner;
        storage = length-set s.queue.cells i object ∙ c.storage;
        counted = c.counted;
        ordered = λ d h. update_same w.number i (slot_after m j d) ∙ c.ordered d h;
        numbered = numbers;
        objects = objects right;
        attended = watched only still;
        claims = claims-kept m.capacity s.pushes ghost s.threads t idle refl (λ t' ne.
            Claim-kept m.capacity s.pushes s.pushes w i state g (w.number i) t t' (s.threads t')
              (elsewhere t' ne) (λ k v h. h) (c.claims t'));
      }

    -- The object of a push is in its cell, and the cell full.
    pub finish_push-Consistent :
        (g i : ℕ) (v : A)
        → s.threads t ≡ pushing g i v
        → (q : Queue A) × (finish_push g i v s.queue ≡ some q)
          × (q.manager.capacity ≡ m.capacity)
          × (q.manager.push_index ≡ m.push_index)
          × ((w' : Ghost) × (w'.state ≡ update w.state i full)
              × Consistent (idle_after t q s) b j n w')
    unfolding finish_push
    finish_push-Consistent g i v there =
        let (hi, writes, at_g, mine, value) =
          subst (Claim m.capacity s.pushes w t) there (c.claims t) in
        let done = commit_push m b j n w.state w.gen (c.inner) i hi writes in
        let q : Queue A = record (s.queue) {
          manager = written m b j n w.state w.gen (c.inner) i hi (w.gen i) full;
          cells = set s.queue.cells i (some v);
          pop_semaphore = notify s.queue.waiting_poppers s.queue.pop_semaphore;
        } in
        (
          q,
          subst (λ x. finish_push x i v s.queue ≡ some q) at_g (rw (done.0) refl),
          refl,
          refl,
          (
            ghost i (w.gen i) full (some v) hi mine (rw writes refl),
            refl,
            left-Consistent i (w.gen i) full (some v) hi mine (rw writes refl) q (done.1)
                (λ h. sym value) (λ k ne. rw there (ground arith)) refl,
          ),
        )

    -- The value of a pop is that of the push that its cell is numbered with.
    pub finish_pop-Consistent :
        (g i k : ℕ)
        → s.threads t ≡ popping g i k
        → (r : A × Queue A) × (finish_pop g i s.queue ≡ some r)
          × (r.1.manager.capacity ≡ m.capacity)
          × (r.1.manager.push_index ≡ m.push_index)
          × (get_elem? s.pushes k ≡ some (r.0))
          × ((w' : Ghost) × (w'.state ≡ update w.state i empty)
              × Consistent (idle_after t (r.1) s) b j n w')
    unfolding finish_pop dispose
    finish_pop-Consistent g i k there =
        let (hi, reads, at_g, mine, at_k, object_there) =
          subst (Claim m.capacity s.pushes w t) there (c.claims t) in
        let (v, value) = object_there in
        let done = commit_pop m b j n w.state w.gen (c.inner) i hi reads in
        let q : Queue A = record (s.queue) {
          manager =
              written m b j n w.state w.gen (c.inner) i hi (next_generation m (w.gen i)) empty;
          cells = set s.queue.cells i none;
          push_semaphore = notify s.queue.waiting_pushers s.queue.push_semaphore;
        } in
        let object : get_elem? s.queue.cells i ≡ some (some v) =
          c.objects i hi (rw reads refl) ∙ ap some (ap (get_elem? s.pushes) at_k ∙ value) in
        (
          (v, q),
          subst (λ x. finish_pop x i s.queue ≡ some (v, q)) at_g (rw (object, done.0) refl),
          refl,
          refl,
          value,
          (
            ghost i (next_generation m (w.gen i)) empty none hi mine (rw reads refl),
            refl,
            left-Consistent i (next_generation m (w.gen i)) empty none hi mine (rw reads refl) q
                (done.1) (λ h. absurd (ground (arith, h))) (λ k ne. rw there (ground arith)) refl,
          ),
        )

    -- An object that was popped is destroyed.
    pub dispose-Consistent :
        (g i k : ℕ)
        → s.threads t ≡ popping g i k
        → (q : Queue A) × (dispose g i s.queue ≡ some q)
          × (q.manager.capacity ≡ m.capacity)
          × (q.manager.push_index ≡ m.push_index)
          × ((w' : Ghost) × Consistent (idle_after t q s) b j n w')
    unfolding dispose
    dispose-Consistent g i k there =
        let (hi, reads, at_g, mine, at_k, object_there) =
          subst (Claim m.capacity s.pushes w t) there (c.claims t) in
        let done = commit_pop m b j n w.state w.gen (c.inner) i hi reads in
        let q : Queue A = record (s.queue) {
          manager =
              written m b j n w.state w.gen (c.inner) i hi (next_generation m (w.gen i)) empty;
          cells = set s.queue.cells i none;
        } in
        (
          q,
          subst (λ x. dispose x i s.queue ≡ some q) at_g (rw (done.0) refl),
          refl,
          refl,
          (
            ghost i (next_generation m (w.gen i)) empty none hi mine (rw reads refl),
            left-Consistent i (next_generation m (w.gen i)) empty none hi mine (rw reads refl) q
                (done.1) (λ h. absurd (ground (arith, h))) (λ k ne. rw there (ground arith)) refl,
          ),
        )
