-- ===== src/Thread/Queue/Ghosts.antt =====
-- What holds between any two steps of the threads on one Queue of llarp/util/thread/queue.hpp.
use bittoro_network.Prelude.{
  ℕ, ◌+◌, ◌<◌, ◌≡◌, refl, ap, sym, ◌∙◌, subst, List, some, Bool, true, false, ◌==◌, length,
  get_elem?, arith, Bool-cases, inl, inr,
}
use bittoro_network.Thread.QueueManager.{ElementState, empty, writing, full, reading}
use bittoro_network.Thread.QueueManager.Invariant.{Inv, slot_after, update}
use bittoro_network.Thread.Queue.System.{System, Local, idle, pushing, popping}

-- Of each cell: its state, its generation, the number of the push that reserved it last, and the
-- thread that did so last, to push or to pop.
pub record Ghost : Type 0 where
  pub state : ℕ → ElementState
  pub gen : ℕ → ℕ
  pub number : ℕ → ℕ
  pub owner : ℕ → ℕ

-- Whether an object stands in a cell, and whether a thread is at work on it.
abbrev pub has_object : ElementState → Bool
has_object full = true
has_object reading = true
has_object _ = false

abbrev pub is_busy : ElementState → Bool
is_busy writing = true
is_busy reading = true
is_busy _ = false

abbrev pub is_empty_state : ElementState → Bool
is_empty_state empty = true
is_empty_state _ = false

pub object-occupied : (s : ElementState) → has_object s ≡ true → is_empty_state s ≡ false
object-occupied empty h = absurd (ground (arith, h))
object-occupied writing h = absurd (ground (arith, h))
object-occupied full h = refl
object-occupied reading h = refl

pub busy-occupied : (s : ElementState) → is_busy s ≡ true → is_empty_state s ≡ false
busy-occupied empty h = absurd (ground (arith, h))
busy-occupied writing h = refl
busy-occupied full h = refl
busy-occupied reading h = refl

-- The ghost of a cell `c` changes.
abbrev pub at_cell : Ghost → ℕ → ElementState → ℕ → ℕ → ℕ → Ghost
at_cell w c state g k t = record {
  state = update w.state c state;
  gen = update w.gen c g;
  number = update w.number c k;
  owner = update w.owner c t;
}

module _ {ℓ} {A : Type ℓ} where
  -- What a thread between its two steps relies on.
  abbrev pub Claim : ℕ → List A → Ghost → ℕ → Local A → Type ℓ
  Claim capacity pushes w t idle = pushes ≡ pushes
  Claim capacity pushes w t (pushing g i v) =
      (i < capacity)
      × (w.state i ≡ writing)
      × (w.gen i ≡ g)
      × (w.owner i ≡ t)
      × (get_elem? pushes (w.number i) ≡ some v)
  Claim capacity pushes w t (popping g i k) =
      (i < capacity)
      × (w.state i ≡ reading)
      × (w.gen i ≡ g)
      × (w.owner i ≡ t)
      × (w.number i ≡ k)
      × ((v : A) × (get_elem? pushes k ≡ some v))

  -- Whether a thread is between its two steps at a cell.
  abbrev pub at_work : Local A → ℕ → Bool
  at_work idle k = false
  at_work (pushing g i v) k = k == i
  at_work (popping g i n) k = k == i

  -- A thread that was not at work on a cell can go elsewhere.
  pub attended_elsewhere :
      (threads : ℕ → Local A) (t : ℕ) (l : Local A) (k o : ℕ)
      → at_work (threads o) k ≡ true
      → at_work (threads t) k ≡ false
      → at_work (update threads t l o) k ≡ true
  attended_elsewhere threads t l k o busy free = elim (Bool-cases (o == t)) [
    | inr e ↦ rw e busy
    | inl e ↦
        let same : o ≡ t = ground arith in
        let bad : false ≡ true = sym free ∙ ap (λ x. at_work (threads x) k) (sym same) ∙ busy in
        absurd (ground (arith, bad))
  ]

  -- The pop index stands at the cell `j` of generation `b`, and `n` pushes are not popped.
  pub record Consistent (s : System A) (b j n : ℕ) (w : Ghost) : Type ℓ where
    pub inner : Inv s.queue.manager b j n w.state w.gen
    pub storage : length s.queue.cells ≡ s.queue.manager.capacity
    pub counted : length s.pushes ≡ s.pops + n
    pub ordered : (d : ℕ) → d < n → w.number (slot_after s.queue.manager j d) ≡ s.pops + d
    pub numbered :
        (k : ℕ)
        → k < s.queue.manager.capacity
        → is_empty_state (w.state k) ≡ false
        → w.number k < length s.pushes
    pub objects :
        (k : ℕ)
        → k < s.queue.manager.capacity
        → has_object (w.state k) ≡ true
        → get_elem? s.queue.cells k ≡ some (get_elem? s.pushes (w.number k))
    pub attended :
        (k : ℕ)
        → k < s.queue.manager.capacity
        → is_busy (w.state k) ≡ true
        → at_work (s.threads (w.owner k)) k ≡ true
    pub claims : (t : ℕ) → Claim s.queue.manager.capacity s.pushes w t (s.threads t)

  module _ (capacity : ℕ) (pushes pushes' : List A) (w : Ghost) (c : ℕ) (state : ElementState)
      (g k o : ℕ) where
    -- A claim on another cell stays.
    pub Claim-kept :
        (t : ℕ) (l : Local A)
        → ((i : ℕ) → is_busy (w.state i) ≡ true → w.owner i ≡ t → (i == c) ≡ false)
        → ((i : ℕ) (v : A) → get_elem? pushes i ≡ some v → get_elem? pushes' i ≡ some v)
        → Claim capacity pushes w t l
        → Claim capacity pushes' (at_cell w c state g k o) t l
    Claim-kept t idle other grown claim = refl
    Claim-kept t (pushing g' i v) other grown (hi, writes, at_g, mine, value) =
        let ne = other i (ap is_busy writes) mine in
        (hi, rw ne writes, rw ne at_g, rw ne mine, rw ne (grown (w.number i) v value))
    Claim-kept t (popping g' i k') other grown (hi, reads, at_g, mine, at_k, (v, value)) =
        let ne = other i (ap is_busy reads) mine in
        (hi, rw ne reads, rw ne at_g, rw ne mine, rw ne at_k, (v, grown k' v value))

  -- The claims of all threads stay when a thread `t` gets a new place.
  pub claims-kept :
      (capacity : ℕ) (pushes : List A) (w : Ghost) (threads : ℕ → Local A) (t : ℕ) (l : Local A)
      → Claim capacity pushes w t l
      → ((t' : ℕ) → (t' == t) ≡ false → Claim capacity pushes w t' (threads t'))
      → (t' : ℕ) → Claim capacity pushes w t' (update threads t l t')
  claims-kept capacity pushes w threads t l new others t' = elim (Bool-cases (t' == t)) [
    | inl e ↦
        let same : t' ≡ t = ground arith in
        let self : (t == t) ≡ true = ground arith in
        subst (λ x. Claim capacity pushes w x (update threads t l x)) (sym same) (rw self new)
    | inr e ↦ rw e (others t' e)
  ]
