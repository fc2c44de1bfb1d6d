-- ===== src/Prelude/Assoc.antt =====
-- std::unordered_map and std::map as association lists with numbers for keys, in some order of
-- iteration.
use Prim.Native.Nat.{ℕ, ◌≤◌}
use mathlib.Core.Path.{◌≡◌, refl}
use mathlib.Core.Bool.{Bool, false}
use mathlib.Core.List.{List, [], ◌∷◌}
use mathlib.Core.Option.{Option, none, some}
use native.Mathlib.Omega.{arith}
use bittoro_network.Prelude.Tests.{◌==◌, if◌then◌else◌, if_rule}
use bittoro_network.Prelude.Lists.{length}

module _ {ℓ} {V : Type ℓ} where
  -- m.find(k)
  unfoldable pub find : ℕ → List (ℕ × V) → Option V
  find k [] = none
  find k ((j, v) ∷ m) = if j == k then some v else find k m

  -- m.erase(k)
  unfoldable pub erase : ℕ → List (ℕ × V) → List (ℕ × V)
  erase k [] = []
  erase k ((j, v) ∷ m) = if j == k then erase k m else (j, v) ∷ erase k m

  -- m[k] = v
  unfoldable pub assign : ℕ → V → List (ℕ × V) → List (ℕ × V)
  assign k v [] = (k, v) ∷ []
  assign k v ((j, w) ∷ m) = if j == k then (k, v) ∷ m else (j, w) ∷ assign k v m

  -- m.emplace(k, v): a key that is there keeps its value.
  unfoldable pub emplace : ℕ → V → List (ℕ × V) → List (ℕ × V)
  emplace k v m = elim (find k m) [ some w ↦ m | none ↦ (k, v) ∷ m ]

  -- The loop that erases each entry that a test holds of.
  unfoldable pub erase_if : (ℕ → V → Bool) → List (ℕ × V) → List (ℕ × V)
  erase_if p [] = []
  erase_if p ((j, v) ∷ m) = if p j v then erase_if p m else (j, v) ∷ erase_if p m

  -- The loop that updates each value in place.
  unfoldable pub update_all : (V → V) → List (ℕ × V) → List (ℕ × V)
  update_all f [] = []
  update_all f ((j, v) ∷ m) = (j, f v) ∷ update_all f m

  pub find-erase :
      (k j : ℕ) (m : List (ℕ × V)) → find j (erase k m) ≡ (if k == j then none else find j m)
  unfolding find erase
  find-erase k j [] = ground arith
  find-erase k j ((i, v) ∷ m) = ground (arith, find-erase k j m)

  pub find-assign :
      (k j : ℕ) (v : V) (m : List (ℕ × V))
      → find j (assign k v m) ≡ (if k == j then some v else find j m)
  unfolding find assign
  find-assign k j v [] = ground arith
  find-assign k j v ((i, w) ∷ m) = ground (arith, find-assign k j v m)

  pub find-emplace :
      (k j : ℕ) (v : V) (m : List (ℕ × V))
      → find j (emplace k v m)
        ≡ elim (find j m) [ some w ↦ some w | none ↦ if k == j then some v else none ]
  unfolding find emplace
  find-emplace k j v m = ground arith

  -- A loop of erasures adds no key.
  pub find-erase_if-none :
      (p : ℕ → V → Bool) (j : ℕ) (m : List (ℕ × V)) → find j m ≡ none → find j (erase_if p m) ≡ none
  unfolding find erase_if
  find-erase_if-none p j [] h = refl
  find-erase_if-none p j ((i, w) ∷ m) h = ground (arith, find-erase_if-none p j m)

  -- An entry that the test fails of stays.
  pub find-erase_if_kept :
      (p : ℕ → V → Bool) (j : ℕ) (v : V) (m : List (ℕ × V))
      → find j m ≡ some v
      → p j v ≡ false
      → find j (erase_if p m) ≡ some v
  unfolding find erase_if
  find-erase_if_kept p j v [] h n = cc
  find-erase_if_kept p j v ((i, w) ∷ m) h n = ground (arith, find-erase_if_kept p j v m)

  pub length-erase_if : (p : ℕ → V → Bool) (m : List (ℕ × V)) → length (erase_if p m) ≤ length m
  unfolding erase_if
  length-erase_if p [] = omega arith
  length-erase_if p ((j, v) ∷ m) = ground (arith, length-erase_if p m)

  pub find-update_all :
      (f : V → V) (j : ℕ) (m : List (ℕ × V))
      → find j (update_all f m) ≡ elim (find j m) [ some w ↦ some (f w) | none ↦ none ]
  unfolding find update_all
  find-update_all f j [] = refl
  find-update_all f j ((i, w) ∷ m) = ground (arith, find-update_all f j m)

-- The keys of a map are distinct.
abbrev pub UniqueKeys {ℓ} : {V : Type ℓ} → List (ℕ × V) → Type ℓ
UniqueKeys [] = Unit
UniqueKeys (e ∷ m) = (find (e.0) m ≡ none) × UniqueKeys m

module _ {ℓ} {V : Type ℓ} where
  pub erase-UniqueKeys : (k : ℕ) (m : List (ℕ × V)) → UniqueKeys m → UniqueKeys (erase k m)
  unfolding erase
  erase-UniqueKeys k [] u = tt
  erase-UniqueKeys k ((j, v) ∷ m) u =
      if_rule UniqueKeys (j == k) (erase-UniqueKeys k m u.1)
        (ground (arith, find-erase k j m, u.0), erase-UniqueKeys k m u.1)

  pub assign-UniqueKeys :
      (k : ℕ) (v : V) (m : List (ℕ × V)) → UniqueKeys m → UniqueKeys (assign k v m)
  unfolding assign find
  assign-UniqueKeys k v [] u = (refl, tt)
  assign-UniqueKeys k v ((j, w) ∷ m) u =
      ground (arith, find-assign k j v m, assign-UniqueKeys k v m)

  pub emplace-UniqueKeys :
      (k : ℕ) (v : V) (m : List (ℕ × V)) → UniqueKeys m → UniqueKeys (emplace k v m)
  unfolding emplace
  emplace-UniqueKeys k v m u = ground arith
