-- ===== src/Thread/Queue/Quiet.antt =====
-- A Queue of llarp/util/thread/queue.hpp on which no thread is at work.
use bittoro_network.Prelude.{
  ℕ, zero, suc, ◌+◌, ◌-◌, ◌<◌, ◌≤◌, ◌≡◌, refl, sym, ◌∙◌, subst, List, [], ◌∷◌, ◌++◌, some, true,
  false, get_elem?, arith, Bool-cases, inl, inr, ◌>>=◌,
}
use bittoro_network.Thread.QueueManager.{
  QueueManager, ElementState, empty, writing, full, reading, is_disabled_flag_set,
  discard_disabled_flag, next_combined_index, reserve_push_index, success, queue_disabled,
  queue_full,
}
use bittoro_network.Thread.QueueManager.Cells.{combined_index}
use bittoro_network.Thread.QueueManager.Invariant.{slot_after, generation_after, update, is_held}
use bittoro_network.Thread.QueueManager.Pushing.{push_result, reserve_push_lem, slot-lt, advanced}
use bittoro_network.Thread.QueueManager.Popping.{reserve_pop_lem}
use bittoro_network.Thread.Queue.{
  Queue, returned, taken, nothing, try_push_back, try_pop_front, remove_loop,
}
use bittoro_network.Thread.Queue.System.{System, Local, idle}
use bittoro_network.Thread.Queue.Ghosts.{Ghost, Consistent, is_busy}
use bittoro_network.Thread.Queue.Pushes
use bittoro_network.Thread.Queue.Pops
use bittoro_network.Thread.Queue.Pushes.{begun_push-Consistent}
use bittoro_network.Thread.Queue.Finishes.{
  finish_push-Consistent, finish_pop-Consistent, dispose-Consistent,
}
use bittoro_network.Thread.Queue.Pops.{begun_pop-Consistent}

calm-full : (s : ElementState) → is_busy s ≡ false → is_held s ≡ true → s ≡ full
calm-full full h h' = refl
calm-full empty h h' = absurd (ground (arith, h'))
calm-full writing h h' = absurd (ground (arith, h))
calm-full reading h h' = absurd (ground (arith, h))

calm-empty : (s : ElementState) → is_busy s ≡ false → is_held s ≡ false → s ≡ empty
calm-empty empty h h' = refl
calm-empty full h h' = absurd (ground (arith, h'))
calm-empty writing h h' = absurd (ground (arith, h))
calm-empty reading h h' = absurd (ground (arith, h))

flag_clear : (x : ℕ) → discard_disabled_flag x ≡ x → is_disabled_flag_set x ≡ false
flag_clear x e = ground arith

module _ {ℓ} {A : Type ℓ} where
  back_idle : (l : Local A) (t : ℕ) → update (update (λ x. idle) 0 l) 0 idle t ≡ idle
  back_idle l zero = refl
  back_idle l (suc t) = ground arith

  all_idle : (l : Local A) → update (update (λ x. idle) 0 l) 0 idle ≡ (λ t. idle)
  all_idle l i t = back_idle l t i

  -- The queue alone, with its log.
  abbrev pub alone : Queue A → List A → ℕ → System A
  alone q pushes pops = record { queue = q; threads = λ t. idle; pushes = pushes; pops = pops }

  module _ (q : Queue A) (pushes : List A) (pops : ℕ) (b j n : ℕ) (w : Ghost)
      (c : Consistent (alone q pushes pops) b j n w) where
    abbrev m : QueueManager
    m = q.manager

    abbrev slot : ℕ
    slot = slot_after m j n

    calm : (k : ℕ) → k < m.capacity → is_busy (w.state k) ≡ false
    calm k hk = elim (Bool-cases (is_busy (w.state k))) [
      | inr e ↦ e
      | inl e ↦ let bad : false ≡ true = c.attended k hk e in absurd (ground (arith, bad))
    ]

    in_range : slot < m.capacity
    in_range = slot-lt m b j n w.state w.gen (c.inner)

    fresh : n < m.capacity → w.state slot ≡ empty
    fresh h =
        calm-empty (w.state slot) (calm slot in_range)
          (c.inner.held slot in_range ∙ ground (arith, c.inner.slot))

    filled : m.capacity ≤ n → w.state slot ≡ full
    filled h =
        calm-full (w.state slot) (calm slot in_range)
          (c.inner.held slot in_range ∙ ground (arith, c.inner.slot, c.inner.room))

    ready : 0 < n → w.state j ≡ full
    ready h =
        calm-full (w.state j) (calm j (c.inner.slot))
          (c.inner.held j (c.inner.slot) ∙ ground (arith, c.inner.slot))

    unready : n ≡ 0 → w.state j ≡ empty
    unready h =
        calm-empty (w.state j) (calm j (c.inner.slot))
          (c.inner.held j (c.inner.slot) ∙ ground (arith, c.inner.slot))

    module _ (rounds : ℕ) where
      reserves :
          is_disabled_flag_set m.push_index ≡ false
          → reserve_push_index (suc (suc rounds)) m
            ≡ some (push_result m (generation_after m b j n) slot (w.state slot))
      reserves open_queue =
          reserve_push_lem m b j n w.state w.gen (c.inner) rounds ∙ rw open_queue refl

      pub push_disabled :
          (v : A)
          → is_disabled_flag_set m.push_index ≡ true
          → try_push_back (suc (suc rounds)) v q ≡ some (returned queue_disabled, q)
      unfolding try_push_back
      push_disabled v off = rw (reserve_push_lem m b j n w.state w.gen (c.inner) rounds, off) refl

      pub push_full :
          (v : A)
          → is_disabled_flag_set m.push_index ≡ false
          → m.capacity ≤ n
          → try_push_back (suc (suc rounds)) v q ≡ some (returned queue_full, q)
      unfolding try_push_back
      push_full v open_queue h = rw (reserves open_queue, filled h) refl

      pub push_room :
          (v : A)
          → is_disabled_flag_set m.push_index ≡ false
          → n < m.capacity
          → (q' : Queue A) × (try_push_back (suc (suc rounds)) v q ≡ some (returned success, q'))
            × (q'.manager.capacity ≡ m.capacity)
            × (is_disabled_flag_set q'.manager.push_index ≡ false)
            × ((w' : Ghost) × Consistent (alone q' (pushes ++ (v ∷ [])) pops) b j (n + 1) w')
      unfolding try_push_back
      push_room v open_queue h =
          let s' = Pushes.begun (alone q pushes pops) b j n w c 0 refl v (fresh h) in
          let c' = begun_push-Consistent (alone q pushes pops) b j n w c 0 refl v (fresh h) in
          let done =
            finish_push-Consistent s' b j (n + 1) _ c' 0 (generation_after m b j n) slot v refl in
          (
            done.0,
            rw (reserves open_queue, fresh h, done.1) refl,
            done.2,
            subst (λ x. is_disabled_flag_set x ≡ false) (sym (done.3))
                (flag_clear
                  (next_combined_index m (combined_index m (generation_after m b j n) slot))
                  (advanced m b j n w.state w.gen (c.inner) h)),
            (
              done.4.0,
              subst
                  (λ threads.
                    Consistent
                      (record {
                        queue = done.0;
                        threads = threads;
                        pushes = pushes ++ (v ∷ []);
                        pops = pops;
                      })
                      b j (n + 1) (done.4.0))
                  (all_idle _) (done.4.2),
            ),
          )

      pub pop_none : n ≡ 0 → try_pop_front (suc (suc rounds)) q ≡ some (nothing, q)
      unfolding try_pop_front
      pop_none h = rw (reserve_pop_lem m b j n w.state w.gen (c.inner) rounds, unready h) refl

      pub pop_some :
          0 < n
          → (v : A) × (q' : Queue A) × (try_pop_front (suc (suc rounds)) q ≡ some (taken v, q'))
            × (get_elem? pushes pops ≡ some v)
            × (q'.manager.capacity ≡ m.capacity)
            × (q'.manager.push_index ≡ m.push_index)
            × ((b' : ℕ) × (j' : ℕ) × (w' : Ghost) × Consistent
                  (alone q' pushes (pops + 1))
                  b'
                  j'
                  (n - 1)
                  w')
      unfolding try_pop_front
      pop_some h =
          let s' = Pops.begun (alone q pushes pops) b j n w c 0 refl (ready h) in
          let c' = begun_pop-Consistent (alone q pushes pops) b j n w c 0 refl (ready h) in
          let done = finish_pop-Consistent s' _ _ (n - 1) _ c' 0 b j pops refl in
          (
            done.0.0,
            done.0.1,
            rw (reserve_pop_lem m b j n w.state w.gen (c.inner) rounds, ready h, done.1) refl,
            done.4,
            done.2,
            done.3,
            (
              _,
              _,
              done.5.0,
              subst
                  (λ threads.
                    Consistent
                      (record {
                        queue = done.0.1;
                        threads = threads;
                        pushes = pushes;
                        pops = pops + 1;
                      })
                      (generation_after m b j 1) (slot_after m j 1) (n - 1) (done.5.0))
                  (all_idle _) (done.5.2),
            ),
          )

      pub remove_some :
          (k : ℕ)
          → 0 < n
          → (q' : Queue A) × (remove_loop (suc (suc rounds)) (suc k) q
              ≡ (remove_loop (suc (suc rounds)) k q' >>= λ r. some (suc (r.0), r.1)))
            × (q'.manager.capacity ≡ m.capacity)
            × (q'.manager.push_index ≡ m.push_index)
            × ((b' : ℕ) × (j' : ℕ) × (w' : Ghost) × Consistent
                  (alone q' pushes (pops + 1))
                  b'
                  j'
                  (n - 1)
                  w')
      unfolding remove_loop
      remove_some k h =
          let s' = Pops.begun (alone q pushes pops) b j n w c 0 refl (ready h) in
          let c' = begun_pop-Consistent (alone q pushes pops) b j n w c 0 refl (ready h) in
          let done = dispose-Consistent s' _ _ (n - 1) _ c' 0 b j pops refl in
          (
            done.0,
            rw (reserve_pop_lem m b j n w.state w.gen (c.inner) rounds, ready h, done.1) refl,
            done.2,
            done.3,
            (
              _,
              _,
              done.4.0,
              subst
                  (λ threads.
                    Consistent
                      (record {
                        queue = done.0;
                        threads = threads;
                        pushes = pushes;
                        pops = pops + 1;
                      })
                      (generation_after m b j 1) (slot_after m j 1) (n - 1) (done.4.0))
                  (all_idle _) (done.4.1),
            ),
          )
