-- ===== src/Thread/QueueManager/Commits.antt =====
-- commitPushIndex and commitPopIndex of llarp/util/thread/queue_manager.cpp under the invariant.
use bittoro_network.Prelude.{
  ℕ, ◌^◌, ◌<◌, ◌≤◌, ◌≡◌, refl, ap, sym, ◌∙◌, Option, some, true, ltb, leb, ◌==◌, set, arith,
  Bool-cases, inl, inr,
}
use bittoro_network.Thread.QueueManager.{
  QueueManager, ElementState, empty, writing, full, reading, state_code, encode_element,
  next_generation, holds, commit_push_index, commit_pop_index,
}
use bittoro_network.Thread.QueueManager.Cells.{
  combined_index, next_generation-le, decode_generation-encode, decode_state-encode,
}
use bittoro_network.Thread.QueueManager.Invariant.{
  Inv, within, pop_round, is_held, round_of, update, set_stored,
}

module _ (m : QueueManager) (b j n : ℕ) (state : ℕ → ElementState) (gen : ℕ → ℕ)
    (inv : Inv m b j n state gen) (k : ℕ) (hk : k < m.capacity) where
  -- A cell changes its state where it is.
  abbrev pub written : ℕ → ElementState → QueueManager
  written g s = record m { states = set m.states k (encode_element g s) }

  kept_bounded :
      (g : ℕ)
      → g ≤ m.max_generation
      → (c : ℕ) → c < m.capacity
      → update gen k g c ≤ m.max_generation
  kept_bounded g hg c hc = ground (arith, inv.bounded c hc)

  kept_round :
      (g : ℕ) (s : ElementState)
      → round_of m s g ≡ round_of m (state k) (gen k)
      → (c : ℕ) → c < m.capacity
      → round_of m (update state k s c) (update gen k g c) ≡ pop_round m b j c
  kept_round g s same c hc = elim (Bool-cases (c == k)) [
    | inl e ↦
        let at_k : c ≡ k = ground arith in
        rw (e, same) (inv.round k hk ∙ ap (pop_round m b j) (sym at_k))
    | inr e ↦ rw e (inv.round c hc)
  ]

  kept_held :
      (s : ElementState)
      → is_held s ≡ is_held (state k)
      → (c : ℕ) → c < m.capacity
      → is_held (update state k s c) ≡ within m j n c
  kept_held s same c hc = elim (Bool-cases (c == k)) [
    | inl e ↦
        let at_k : c ≡ k = ground arith in
        rw (e, same) (inv.held k hk ∙ ap (within m j n) (sym at_k))
    | inr e ↦ rw e (inv.held c hc)
  ]

  written-Inv :
      (g : ℕ) (s : ElementState)
      → g ≤ m.max_generation
      → round_of m s g ≡ round_of m (state k) (gen k)
      → is_held s ≡ is_held (state k)
      → Inv (written g s) b j n (update state k s) (update gen k g)
  unfolding combined_index next_generation
  written-Inv g s hg same held = record {
    sized = record {
      positive = inv.sized.positive;
      three = inv.sized.three;
      gens = inv.sized.gens;
      combined = inv.sized.combined;
      fits = inv.sized.fits;
    };
    generation = inv.generation;
    slot = inv.slot;
    room = inv.room;
    push_at = inv.push_at;
    flagged = inv.flagged;
    pop_at = inv.pop_at;
    stored = set_stored m state gen inv.stored k g s hk;
    bounded = kept_bounded g hg;
    round = kept_round g s same;
    held = kept_held s held;
  }

  holding : (s : ElementState) (r : Option QueueManager) → state k ≡ s → holds s (gen k) k m r ≡ r
  holding s r e =
      let small : gen k < 2 ^ 30 = omega (arith, inv.sized.gens, inv.bounded k hk) in
      let le : leb (gen k) m.max_generation ≡ true = ground (arith, inv.bounded k hk) in
      let lt : ltb k m.capacity ≡ true = ground arith in
      let same : (state_code s == state_code s) ≡ true = ground arith in
      let same' : (gen k == gen k) ≡ true = ground arith in
      rw
        (
          le,
          lt,
          inv.stored k hk,
          decode_state-encode (gen k) (state k),
          decode_generation-encode (gen k) (state k) small,
          e,
          same,
          same',
        )
        refl

  -- Committing a push fills the cell.
  pub commit_push :
      state k ≡ writing
      → (commit_push_index (gen k) k m ≡ some (written (gen k) full))
        × Inv (written (gen k) full) b j n (update state k full) (update gen k (gen k))
  unfolding commit_push_index
  commit_push e = (
    holding writing (some (written (gen k) full)) e,
    written-Inv (gen k) full (inv.bounded k hk) (rw e refl) (rw e refl),
  )

  -- Committing a pop empties the cell for the next generation.
  pub commit_pop :
      state k ≡ reading
      → (commit_pop_index (gen k) k m ≡ some (written (next_generation m (gen k)) empty))
        × Inv
            (written (next_generation m (gen k)) empty)
            b
            j
            n
            (update state k empty)
            (update gen k (next_generation m (gen k)))
  unfolding commit_pop_index
  commit_pop e = (
    holding reading (some (written (next_generation m (gen k)) empty)) e,
    written-Inv (next_generation m (gen k)) empty
        (next_generation-le m inv.sized (gen k) (inv.bounded k hk)) (rw e refl) (rw e refl),
  )
