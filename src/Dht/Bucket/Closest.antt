-- ===== src/Dht/Bucket/Closest.antt =====
-- What FindCloseExcluding of llarp/dht/bucket.hpp finds.
use bittoro_network.Prelude.{
  ℕ, ◌≡◌, refl, ◌∙◌, sym, ◌⊎◌, inl, inr, List, [], ◌∷◌, Option, none, some, true, false, All, arith,
  subst, Bool-cases,
}
use bittoro_network.Dht.Bucket.{xor_keys, less, member, close_loop, far, find_close_excluding}

less_trans : (xs ys zs : List ℕ) → less xs ys ≡ true → less ys zs ≡ true → less xs zs ≡ true
unfolding less
less_trans [] ys zs h k = cc
less_trans (x ∷ xs) [] zs h k = cc
less_trans (x ∷ xs) (y ∷ ys) [] h k = cc
less_trans (x ∷ xs) (y ∷ ys) (z ∷ zs) h k = ground (arith, less_trans xs ys zs)

less_irrefl : (xs : List ℕ) → less xs xs ≡ false
unfolding less
less_irrefl [] = refl
less_irrefl (x ∷ xs) = ground (arith, less_irrefl xs)

-- `k` is one of the keys.
abbrev pub Among : List ℕ → List (List ℕ) → Type 0
Among k [] = ⊥
Among k (j ∷ js) = (j ≡ k) ⊎ Among k js

-- No key that is not excluded is nearer to the target than the distance `d`.
abbrev pub NoneNearer : List ℕ → List (List ℕ) → List ℕ → List (List ℕ) → Type 0
NoneNearer target exclude d ks =
    All (λ j. member j exclude ≡ false → less (xor_keys j target) d ≡ false) ks

-- What the loop gives: the start where no key was nearer, or else a key that is not excluded.
Outcome :
    List ℕ
    → List (List ℕ)
    → List (List ℕ)
    → List ℕ
    → Option (List ℕ)
    → List ℕ × Option (List ℕ)
    → Type 0
Outcome target exclude ks m res r =
    ((r.0 ≡ m) × (r.1 ≡ res))
    ⊎ ((k : List ℕ) × Among k ks
        × (member k exclude ≡ false)
        × (r.1 ≡ some k)
        × (r.0 ≡ xor_keys k target)
        × (less r.0 m ≡ true))

-- A key that is no nearer than the start is no nearer than the outcome.
still :
    (target : List ℕ) (exclude ks : List (List ℕ)) (m x : List ℕ) (res : Option (List ℕ))
    (r : List ℕ × Option (List ℕ))
    → Outcome target exclude ks m res r
    → less x m ≡ false
    → less x r.0 ≡ false
unfolding Outcome
still target exclude ks m x res r (inl (e, _)) h = rw e h
still target exclude ks m x res r (inr (k, _, _, _, _, lt)) h = ground (arith, less_trans x r.0 m)

wider :
    (target : List ℕ) (exclude ks : List (List ℕ)) (k m : List ℕ) (res : Option (List ℕ))
    (r : List ℕ × Option (List ℕ))
    → Outcome target exclude ks m res r
    → Outcome target exclude (k ∷ ks) m res r
unfolding Outcome
wider target exclude ks k m res r (inl e) = inl e
wider target exclude ks k m res r (inr (j, among, within, f, e, lt)) =
    inr (j, inr among, within, f, e, lt)

improved :
    (target : List ℕ) (exclude ks : List (List ℕ)) (k m : List ℕ) (res : Option (List ℕ))
    (r : List ℕ × Option (List ℕ))
    → member k exclude ≡ false
    → less (xor_keys k target) m ≡ true
    → Outcome target exclude ks (xor_keys k target) (some k) r
    → Outcome target exclude (k ∷ ks) m res r
unfolding Outcome
improved target exclude ks k m res r within nearer (inl (e, f)) =
    inr (k, inl refl, within, f, e, rw e nearer)
improved target exclude ks k m res r within nearer (inr (j, among, inside, f, e, lt)) =
    inr (j, inr among, inside, f, e, less_trans r.0 (xor_keys k target) m lt nearer)

close_loop-Outcome :
    (target : List ℕ) (exclude ks : List (List ℕ)) (m : List ℕ) (res : Option (List ℕ))
    → Outcome target exclude ks m res (close_loop target exclude ks m res)
      × NoneNearer target exclude (close_loop target exclude ks m res).0 ks
close_loop-Outcome target exclude [] m res = (unfold close_loop Outcome in inl (refl, refl), tt)
close_loop-Outcome target exclude (k ∷ ks) m res =
    let dist = xor_keys k target in
    let r₁ = close_loop target exclude ks m res in
    let r₂ = close_loop target exclude ks dist (some k) in
    let (o₁, n₁) = close_loop-Outcome target exclude ks m res in
    let (o₂, n₂) = close_loop-Outcome target exclude ks dist (some k) in
    let Goal : List ℕ × Option (List ℕ) → Type 0 =
      λ r. Outcome target exclude (k ∷ ks) m res r × NoneNearer target exclude r.0 (k ∷ ks) in
    elim (Bool-cases (member k exclude)) [
      | inl out ↦
          let e : close_loop target exclude (k ∷ ks) m res ≡ r₁ =
            unfold close_loop in rw out refl in
          subst Goal (sym e) (
            wider target exclude ks k m res r₁ o₁,
            (λ f. absurd (let t : true ≡ false = sym out ∙ f in cc), n₁),
          )
      | inr within ↦ elim (Bool-cases (less dist m)) [
        | inl nearer ↦
            let e : close_loop target exclude (k ∷ ks) m res ≡ r₂ =
              unfold close_loop in rw (within, nearer) refl in
            subst Goal (sym e) (
              improved target exclude ks k m res r₂ within nearer o₂,
              (λ f. still target exclude ks dist dist (some k) r₂ o₂ (less_irrefl dist), n₂),
            )
        | inr far_away ↦
            let e : close_loop target exclude (k ∷ ks) m res ≡ r₁ =
              unfold close_loop in rw (within, far_away) refl in
            subst Goal (sym e) (
              wider target exclude ks k m res r₁ o₁,
              (λ f. still target exclude ks m dist res r₁ o₁ far_away, n₁),
            )
      ]
    ]

-- FindCloseExcluding either returns true with a node that is not excluded and to which no other such
-- node is nearer to the target, or it returns false with no node, and then no node that is not
-- excluded is nearer than the distance of all ones.
pub find_close_excluding_lem :
    (target : List ℕ) (exclude nodes : List (List ℕ))
    → ((k : List ℕ) × Among k nodes
        × (member k exclude ≡ false)
        × (find_close_excluding target exclude nodes ≡ (some k, true))
        × NoneNearer target exclude (xor_keys k target) nodes)
      ⊎ ((find_close_excluding target exclude nodes ≡ (none, false))
          × NoneNearer target exclude far nodes)
unfolding find_close_excluding Outcome
find_close_excluding_lem target exclude nodes =
    let (o, n) = close_loop-Outcome target exclude nodes far none in
    elim o [
      | inl (e, f) ↦ inr (rw (f, e, less_irrefl far) refl, rw e at n)
      | inr (k, among, within, f, e, lt) ↦ inl (k, among, within, rw (f, lt) refl, rw e at n)
    ]
