-- ===== src/Thread/QueueManager/Invariant.antt =====
-- What holds of a queue manager between any two of its operations.
use bittoro_network.Prelude.{
  ℕ, ◌+◌, ◌-◌, ◌^◌, ◌<◌, ◌≤◌, ◌≡◌, ◌≢◌, ◌∙◌, some, Bool, true, false, ◌&&◌, ◌||◌, ltb, leb, ◌==◌,
  if◌then◌else◌, get_elem?, get_elem?_lt, set, get_elem?-set_self, get_elem?-set_ne, arith,
  Bool-cases, inl, inr,
}
use bittoro_network.Thread.QueueManager.{
  QueueManager, ElementState, writing, full, reading, encode_element, next_generation,
  discard_disabled_flag,
}
use bittoro_network.Thread.QueueManager.Cells.{Sized, combined_index}

-- The cell and the generation `n` cells behind the cell `j` of generation `b`.
abbrev pub slot_after : QueueManager → ℕ → ℕ → ℕ
slot_after m j n = if ltb (j + n) m.capacity then j + n else j + n - m.capacity

abbrev pub generation_after : QueueManager → ℕ → ℕ → ℕ → ℕ
generation_after m b j n = if ltb (j + n) m.capacity then b else next_generation m b

-- Whether the cell `k` is one of the `n` from `j` on.
abbrev pub within : QueueManager → ℕ → ℕ → ℕ → Bool
within m j n k = (leb j k && ltb k (j + n)) || ltb (k + m.capacity) (j + n)

-- The generation in which the cell `k` is popped next.
abbrev pub pop_round : QueueManager → ℕ → ℕ → ℕ → ℕ
pop_round m b j k = if ltb k j then next_generation m b else b

-- Whether a cell in this state was pushed and not yet popped.
abbrev pub is_held : ElementState → Bool
is_held writing = true
is_held full = true
is_held _ = false

abbrev pub round_of : QueueManager → ElementState → ℕ → ℕ
round_of m reading g = next_generation m g
round_of m _ g = g

abbrev pub update {ℓ} : {A : Type ℓ} → (ℕ → A) → ℕ → A → ℕ → A
update f i v k = if k == i then v else f k

-- The pop index stands at the cell `j` of generation `b`, the push index `n` cells on. The cells
-- between are being written or full, the others are empty or still being read.
pub record Inv (m : QueueManager) (b j n : ℕ) (state : ℕ → ElementState) (gen : ℕ → ℕ)
    : Type 0 where
  pub sized : Sized m
  pub generation : b ≤ m.max_generation
  pub slot : j < m.capacity
  pub room : n ≤ m.capacity
  pub push_at :
      discard_disabled_flag m.push_index
      ≡ combined_index m (generation_after m b j n) (slot_after m j n)
  pub flagged : m.push_index < 2 ^ 32
  pub pop_at : m.pop_index ≡ combined_index m b j
  pub stored :
      (k : ℕ) → k < m.capacity → get_elem? m.states k ≡ some (encode_element (gen k) (state k))
  pub bounded : (k : ℕ) → k < m.capacity → gen k ≤ m.max_generation
  pub round : (k : ℕ) → k < m.capacity → round_of m (state k) (gen k) ≡ pop_round m b j k
  pub held : (k : ℕ) → k < m.capacity → is_held (state k) ≡ within m j n k

module _ (m : QueueManager) (state : ℕ → ElementState) (gen : ℕ → ℕ) where
  -- Writing one cell writes its state and its generation.
  pub set_stored :
      ((k : ℕ) → k < m.capacity → get_elem? m.states k ≡ some (encode_element (gen k) (state k)))
      → (i g : ℕ) (s : ElementState) → i < m.capacity
      → (k : ℕ) → k < m.capacity
      → get_elem? (set m.states i (encode_element g s)) k
        ≡ some (encode_element (update gen i g k) (update state i s k))
  set_stored stored i g s hi k hk = elim (Bool-cases (k == i)) [
    | inl e ↦
        let same : k ≡ i = ground arith in
        rw (e, same)
          (get_elem?-set_self m.states i (encode_element g s)
            (get_elem?_lt m.states i (stored i hi)))
    | inr e ↦
        let other : i ≢ k = λ p. ground arith in
        rw e (get_elem?-set_ne m.states (encode_element g s) other ∙ stored k hk)
  ]
