-- ===== src/Thread/Queue/Pushes.antt =====
-- The two steps of a push to a Queue of llarp/util/thread/queue.hpp, with other threads about.
use bittoro_network.Prelude.{
  ℕ, zero, suc, ◌+◌, ◌<◌, ◌≡◌, refl, ap, sym, ◌∙◌, subst, List, [], ◌∷◌, ◌++◌, some, true, false,
  ◌==◌, if◌then◌else◌, length, length-append, get_elem?-append_left, get_elem?, arith, dec_lt,
  Bool-cases, inl, inr,
}
use bittoro_network.Thread.QueueManager.{QueueManager, empty, writing}
use bittoro_network.Thread.QueueManager.Invariant.{slot_after, generation_after, update}
use bittoro_network.Thread.QueueManager.Pushing.{pushed, slot-lt, empty-room, pushed-Inv}
use bittoro_network.Thread.Queue.System.{System, idle, pushing}
use bittoro_network.Thread.Queue.Ghosts.{
  Ghost, has_object, is_busy, is_empty_state, object-occupied, Claim, at_work, attended_elsewhere,
  Consistent, at_cell, Claim-kept, claims-kept,
}

module _ {ℓ} {A : Type ℓ} where
  pub get_elem?-append_some :
      (xs ys : List A) (i : ℕ) (v : A) → get_elem? xs i ≡ some v → get_elem? (xs ++ ys) i ≡ some v
  get_elem?-append_some [] ys i v h = ground (arith, h)
  get_elem?-append_some (x ∷ xs) ys zero v h = h
  get_elem?-append_some (x ∷ xs) ys (suc i) v h = get_elem?-append_some xs ys i v h

  get_elem?-append_last : (xs : List A) (v : A) → get_elem? (xs ++ (v ∷ [])) (length xs) ≡ some v
  get_elem?-append_last [] v = refl
  get_elem?-append_last (x ∷ xs) v = get_elem?-append_last xs v

  module _ (s : System A) (b j n : ℕ) (w : Ghost) (c : Consistent s b j n w) (t : ℕ)
      (outside : s.threads t ≡ idle) where
    abbrev m : QueueManager
    m = s.queue.manager

    module _ (v : A) (fresh : w.state (slot_after m j n) ≡ empty) where
      abbrev i : ℕ
      i = slot_after m j n

      abbrev a : ℕ
      a = generation_after m b j n

      -- The cell that is pushed next is taken by the thread.
      abbrev pub begun : System A
      begun = record s {
        queue = record (s.queue) { manager = pushed m a i };
        threads = update s.threads t (pushing a i v);
        pushes = s.pushes ++ (v ∷ []);
      }

      abbrev pub begun_ghost : Ghost
      begun_ghost = at_cell w i writing a (s.pops + n) t

      below : n < m.capacity
      below = empty-room m b j n w.state w.gen (c.inner) fresh

      at-lt : i < m.capacity
      at-lt = slot-lt m b j n w.state w.gen (c.inner)

      other_slot : (d : ℕ) → d < n → (slot_after m j d == i) ≡ false
      other_slot d h = ground (arith, below, c.inner.slot)

      self_slot : (i == i) ≡ true
      self_slot = ground arith

      order : (d : ℕ) → d < n + 1 → update w.number i (s.pops + n) (slot_after m j d) ≡ s.pops + d
      order d h = elim (dec_lt d n) [
        | yes lt ↦ rw (other_slot d lt) (c.ordered d lt)
        | no last ↦ let same : d ≡ n = omega arith in rw (same, self_slot) refl
      ]

      grown : length (s.pushes ++ (v ∷ [])) ≡ length s.pushes + 1
      grown = length-append s.pushes (v ∷ [])

      numbers :
          (k : ℕ)
          → k < m.capacity
          → is_empty_state (update w.state i writing k) ≡ false
          → update w.number i (s.pops + n) k < length (s.pushes ++ (v ∷ []))
      numbers k hk h = elim (Bool-cases (k == i)) [
        | inl e ↦ rw e (omega (arith, grown, c.counted))
        | inr e ↦
            let before : w.number k < length s.pushes =
              c.numbered k hk
                (subst (λ x. is_empty_state (if x then writing else w.state k) ≡ false) e h) in
            rw e (omega (arith, grown, before))
      ]

      objects :
          (k : ℕ)
          → k < m.capacity
          → has_object (update w.state i writing k) ≡ true
          → get_elem? s.queue.cells k
            ≡ some (get_elem? (s.pushes ++ (v ∷ [])) (update w.number i (s.pops + n) k))
      objects k hk h = elim (Bool-cases (k == i)) [
        | inl e ↦
            let bad : false ≡ true =
              subst (λ x. has_object (if x then writing else w.state k) ≡ true) e h in
            absurd (ground (arith, bad))
        | inr e ↦
            let object : has_object (w.state k) ≡ true =
              subst (λ x. has_object (if x then writing else w.state k) ≡ true) e h in
            let lt : w.number k < length s.pushes =
              c.numbered k hk (object-occupied (w.state k) object) in
            rw (e, get_elem?-append_left s.pushes (v ∷ []) (w.number k) lt) (c.objects k hk object)
      ]

      free_elsewhere : (t' k : ℕ) → is_busy (w.state k) ≡ true → w.owner k ≡ t' → (k == i) ≡ false
      free_elsewhere t' k busy mine = elim (Bool-cases (k == i)) [
        | inr e ↦ e
        | inl e ↦
            let same : k ≡ i = ground arith in
            let bad : false ≡ true = ap is_busy (sym (ap w.state same ∙ fresh)) ∙ busy in
            absurd (ground (arith, bad))
      ]

      watched :
          (k : ℕ)
          → k < m.capacity
          → is_busy (update w.state i writing k) ≡ true
          → at_work (update s.threads t (pushing a i v) (update w.owner i t k)) k ≡ true
      watched k hk h = elim (Bool-cases (k == i)) [
        | inl e ↦ let self : (t == t) ≡ true = ground arith in rw (e, self) e
        | inr e ↦
            let there : is_busy (w.state k) ≡ true =
              subst (λ x. is_busy (if x then writing else w.state k) ≡ true) e h in
            rw e (
              attended_elsewhere s.threads t (pushing a i v) k (w.owner k) (c.attended k hk there)
                (rw outside refl))
      ]

      mine : Claim m.capacity (s.pushes ++ (v ∷ [])) begun_ghost t (pushing a i v)
      mine = (
        at-lt,
        rw self_slot refl,
        rw self_slot refl,
        rw self_slot refl,
        rw (self_slot, ← c.counted) (get_elem?-append_last s.pushes v),
      )

      pub begun_push-Consistent : Consistent begun b j (n + 1) begun_ghost
      begun_push-Consistent = record {
        inner = pushed-Inv m b j n w.state w.gen (c.inner) below;
        storage = c.storage;
        counted = omega (arith, grown, c.counted);
        ordered = order;
        numbered = numbers;
        objects = objects;
        attended = watched;
        claims =
            claims-kept m.capacity (s.pushes ++ (v ∷ [])) begun_ghost s.threads t (pushing a i v)
              mine
              (λ t' ne.
                Claim-kept m.capacity s.pushes (s.pushes ++ (v ∷ [])) w i writing a (s.pops + n) t
                  t' (s.threads t') (free_elsewhere t') (get_elem?-append_some s.pushes (v ∷ []))
                  (c.claims t'));
      }
