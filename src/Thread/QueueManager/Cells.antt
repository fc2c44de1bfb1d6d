-- ===== src/Thread/QueueManager/Cells.antt =====
-- The arithmetic of llarp/util/thread/queue_manager.cpp: combined indices, generations and cells.
use bittoro_network.Prelude.{
  ℕ, zero, suc, ◌+◌, ◌*◌, ◌/◌, ◌%◌, ◌^◌, ◌<◌, ◌≤◌, ◌≡◌, ◌≢◌, ap, ◌∙◌, some, true, false, ◌==◌,
  if◌then◌else◌, arith, dec_lt,
}
use native.Mathlib.Omega.{div_fact, mod_fact}
use native.Mathlib.Nat.{mul-add-mod_self_right, mod-eq_of_lt}
use bittoro_network.Thread.QueueManager.{
  QueueManager, ElementState, empty, writing, full, reading, state_code, encode_element,
  decode_generation, decode_state, next_combined_index, next_generation, circular_difference,
  one_behind,
}

-- The sizes are those of the constructor, for a capacity that leaves three generations or more.
pub record Sized (m : QueueManager) : Type 0 where
  pub positive : 0 < m.capacity
  pub three : 2 ≤ m.max_generation
  pub gens : m.max_generation < 2 ^ 30
  pub combined : m.max_combined_index + 1 ≡ (m.max_generation + 1) * m.capacity
  pub fits : (m.max_generation + 1) * m.capacity ≤ 2 ^ 31

-- generation * capacity + index
unfoldable pub combined_index : QueueManager → ℕ → ℕ → ℕ
combined_index m g i = g * m.capacity + i

div_unique : (c g i : ℕ) → i < c → (g * c + i) / c ≡ g
div_unique zero g i h = absurd (omega arith)
div_unique (suc k) g i h = grind (arith, div_fact (g * suc k + i) k, mod_fact (g * suc k + i) k)

mod_unique : (c g i : ℕ) → i < c → (g * c + i) % c ≡ i
mod_unique c g i h = mul-add-mod_self_right g c i ∙ mod-eq_of_lt h

module _ (m : QueueManager) (sized : Sized m) where
  pub combined-lt :
      (g i : ℕ) → g ≤ m.max_generation → i < m.capacity → combined_index m g i < 2 ^ 31
  unfolding combined_index
  combined-lt g i hg hi = grind (arith, sized.fits)

  row-le : (g : ℕ) → g ≤ m.max_generation → g * m.capacity + m.capacity ≤ m.max_combined_index + 1
  row-le g hg = grind (arith, sized.combined)

  row-lt :
      (g : ℕ)
      → g < m.max_generation
      → g * m.capacity + m.capacity + m.capacity ≤ m.max_combined_index + 1
  row-lt g hg = grind (arith, sized.combined)

  last_row : m.max_generation * m.capacity + m.capacity ≡ m.max_combined_index + 1
  last_row = grind (arith, sized.combined)

  pub combined-le :
      (g i : ℕ)
      → g ≤ m.max_generation
      → i < m.capacity
      → combined_index m g i ≤ m.max_combined_index
  unfolding combined_index
  combined-le g i hg hi = omega (arith, row-le g hg)

  pub combined-next :
      (g i : ℕ)
      → g ≤ m.max_generation
      → i < m.capacity
      → next_combined_index m (combined_index m g i) ≡ (
          if i + 1 == m.capacity
          then combined_index m (next_generation m g) 0
          else combined_index m g (i + 1))
  unfolding combined_index next_combined_index next_generation
  combined-next g i hg hi = elim (dec_lt (i + 1) m.capacity) [
    | yes inside ↦ ground (arith, row-le g hg)
    | no last ↦ elim (dec_lt g m.max_generation) [
      | yes below ↦
          let step : (g + 1) * m.capacity ≡ g * m.capacity + m.capacity = grind arith in
          ground (arith, row-lt g below, sized.positive, step)
      | no top ↦ let e : g ≡ m.max_generation = omega arith in rw e (ground (arith, last_row))
    ]
  ]

  -- The code finds the generation and the cell of an index again.
  pub generation_of : (g i : ℕ) → i < m.capacity → combined_index m g i / m.capacity ≡ g
  unfolding combined_index
  generation_of g i hi = div_unique m.capacity g i hi

  pub cell_of : (g i : ℕ) → i < m.capacity → combined_index m g i % m.capacity ≡ i
  unfolding combined_index
  cell_of g i hi = mod_unique m.capacity g i hi

  -- Generations follow each other in a circle of three or more.
  pub next_generation-le : (g : ℕ) → g ≤ m.max_generation → next_generation m g ≤ m.max_generation
  unfolding next_generation
  next_generation-le g hg = ground arith

  pub next_generation-ne : (g : ℕ) → g ≤ m.max_generation → next_generation m g ≢ g
  unfolding next_generation
  next_generation-ne g hg e = ground (arith, sized.three)

  pub next-one_behind : (g : ℕ) → g ≤ m.max_generation → one_behind m (next_generation m g) g ≡ true
  unfolding next_generation
  next-one_behind g hg = ground (arith, sized.gens)

  pub same-one_behind : (g : ℕ) → g ≤ m.max_generation → one_behind m g g ≡ false
  same-one_behind g hg = ground (arith, sized.gens, sized.three)

  pub next-circular :
      (g : ℕ)
      → g ≤ m.max_generation
      → circular_difference (next_generation m g) g (m.max_generation + 1) ≡ some 1
  unfolding circular_difference next_generation
  next-circular g hg = ground (arith, sized.gens, sized.three)

-- A cell's number gives back its generation and its state.
pub decode_generation-encode :
    (g : ℕ) (s : ElementState) → g < 2 ^ 30 → decode_generation (encode_element g s) ≡ g
unfolding encode_element
decode_generation-encode g empty h = omega arith
decode_generation-encode g writing h = omega arith
decode_generation-encode g full h = omega arith
decode_generation-encode g reading h = omega arith

pub decode_state-encode :
    (g : ℕ) (s : ElementState) → decode_state (encode_element g s) ≡ state_code s
unfolding encode_element
decode_state-encode g empty = omega arith
decode_state-encode g writing = omega arith
decode_state-encode g full = omega arith
decode_state-encode g reading = omega arith

pub encode-eq : (g : ℕ) (s : ElementState) → (encode_element g s == encode_element g s) ≡ true
encode-eq g s = ground arith

-- Cells differ where their generations or their states do.
pub encode-ne_generation :
    (g g' : ℕ) (s s' : ElementState)
    → g < 2 ^ 30
    → g' < 2 ^ 30
    → g ≢ g'
    → (encode_element g s == encode_element g' s') ≡ false
encode-ne_generation g g' s s' h h' ne =
    ground (arith, decode_generation-encode g s h, decode_generation-encode g' s' h', same)
  where
    same :
        encode_element g s ≡ encode_element g' s'
        → decode_generation (encode_element g s) ≡ decode_generation (encode_element g' s')
    same = ap decode_generation

pub encode-ne_state :
    (g g' : ℕ) (s s' : ElementState)
    → state_code s ≢ state_code s'
    → (encode_element g s == encode_element g' s') ≡ false
encode-ne_state g g' s s' ne =
    ground (arith, decode_state-encode g s, decode_state-encode g' s', same)
  where
    same :
        encode_element g s ≡ encode_element g' s'
        → decode_state (encode_element g s) ≡ decode_state (encode_element g' s')
    same = ap decode_state
