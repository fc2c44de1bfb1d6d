-- ===== src/Prelude/Bytes.antt =====
-- Byte buffers: reading and overwriting a region.
mod Endian
pub use Endian.{length-be_bytes, be_value-be_bytes}
unfoldable pub use Endian.{be_bytes, be_value}
use Prim.Native.Nat.{ℕ, zero, suc, ◌+◌, ◌*◌, ◌/◌, ◌%◌, ◌^◌, ◌<◌, ◌≤◌}
use mathlib.Core.Path.{◌≡◌, refl, ap, ◌∙◌}
use mathlib.Core.Logic.{◌⊎◌, inl}
use mathlib.Core.Bool.{Bool, true, false, ◌&&◌}
use mathlib.Core.List.{List, [], ◌∷◌, ◌++◌}
use mathlib.Core.Option.{Option, none, some}
use native.Mathlib.Omega.{arith}
use native.Mathlib.Nat.{pow-suc}
use bittoro_network.Prelude.Tests.{leb, ◌==◌, if◌then◌else◌}
use bittoro_network.Prelude.Lists.{
  length, get_elem?, take, drop, length-append, take-append, length-take, length-drop,
  get_elem?-take, get_elem?-drop,
}

-- The `n` bytes from offset `off`; fewer where the buffer ends.
unfoldable pub slice : ℕ → ℕ → List ℕ → List ℕ
slice off n xs = take n (drop off xs)

-- The same as a read of memory: one that passes the end of the buffer is a fault.
unfoldable pub slice? : ℕ → ℕ → List ℕ → Option (List ℕ)
slice? off n xs = if leb (off + n) (length xs) then some (slice off n xs) else none

overlay : List ℕ → List ℕ → List ℕ
overlay [] xs = xs
overlay (b ∷ bs) [] = []
overlay (b ∷ bs) (x ∷ xs) = b ∷ overlay bs xs

-- Copy `bs` over the bytes from offset `off`. What would pass the end of the buffer is dropped.
unfoldable pub write_at : ℕ → List ℕ → List ℕ → List ℕ
unfolding overlay
write_at zero bs xs = overlay bs xs
write_at (suc off) bs [] = []
write_at (suc off) bs (x ∷ xs) = x ∷ write_at off bs xs

length-overlay : (bs xs : List ℕ) → length (overlay bs xs) ≡ length xs
unfolding overlay
length-overlay [] xs = refl
length-overlay (b ∷ bs) [] = refl
length-overlay (b ∷ bs) (x ∷ xs) = ap suc (length-overlay bs xs)

pub length-write_at : (off : ℕ) (bs xs : List ℕ) → length (write_at off bs xs) ≡ length xs
unfolding write_at
length-write_at zero bs xs = length-overlay bs xs
length-write_at (suc off) bs [] = refl
length-write_at (suc off) bs (x ∷ xs) = ap suc (length-write_at off bs xs)

get_elem?-overlay_in :
    (bs xs : List ℕ) (i : ℕ)
    → i < length bs
    → length bs ≤ length xs
    → get_elem? (overlay bs xs) i ≡ get_elem? bs i
unfolding overlay
get_elem?-overlay_in [] xs i h k = elim h [ ]
get_elem?-overlay_in (b ∷ bs) [] i h k = absurd (omega arith)
get_elem?-overlay_in (b ∷ bs) (x ∷ xs) zero h k = refl
get_elem?-overlay_in (b ∷ bs) (x ∷ xs) (suc i) h k =
    get_elem?-overlay_in bs xs i (omega arith) (omega arith)

get_elem?-overlay_out :
    (bs xs : List ℕ) (i : ℕ) → length bs ≤ i → get_elem? (overlay bs xs) i ≡ get_elem? xs i
unfolding overlay
get_elem?-overlay_out [] xs i h = refl
get_elem?-overlay_out (b ∷ bs) [] i h = refl
get_elem?-overlay_out (b ∷ bs) (x ∷ xs) zero h = absurd (omega arith)
get_elem?-overlay_out (b ∷ bs) (x ∷ xs) (suc i) h = get_elem?-overlay_out bs xs i (omega arith)

-- Inside the region that was written stand the bytes written.
pub get_elem?-write_at_in :
    (off : ℕ) (bs xs : List ℕ) (i : ℕ)
    → i < length bs
    → off + length bs ≤ length xs
    → get_elem? (write_at off bs xs) (off + i) ≡ get_elem? bs i
unfolding write_at
get_elem?-write_at_in zero bs xs i h k =
    let e : 0 + i ≡ i = omega arith in rw e (get_elem?-overlay_in bs xs i h (omega arith))
get_elem?-write_at_in (suc off) bs [] i h k = absurd (omega arith)
get_elem?-write_at_in (suc off) bs (x ∷ xs) i h k =
    let e : suc off + i ≡ suc (off + i) = omega arith in
    rw e (get_elem?-write_at_in off bs xs i h (omega arith))

-- Outside of it nothing changes.
pub get_elem?-write_at_out :
    (off : ℕ) (bs xs : List ℕ) (i : ℕ)
    → (i < off) ⊎ (off + length bs ≤ i)
    → get_elem? (write_at off bs xs) i ≡ get_elem? xs i
unfolding write_at
get_elem?-write_at_out zero bs xs i h = get_elem?-overlay_out bs xs i (omega arith)
get_elem?-write_at_out (suc off) bs [] i h = refl
get_elem?-write_at_out (suc off) bs (x ∷ xs) zero h = refl
get_elem?-write_at_out (suc off) bs (x ∷ xs) (suc i) h =
    get_elem?-write_at_out off bs xs i (omega arith)

take-overlay : (bs xs : List ℕ) → length bs ≤ length xs → take (length bs) (overlay bs xs) ≡ bs
unfolding overlay
take-overlay [] xs h = refl
take-overlay (b ∷ bs) [] h = absurd (omega arith)
take-overlay (b ∷ bs) (x ∷ xs) h = ap (◌∷◌ b) (take-overlay bs xs (omega arith))

drop-overlay : (n : ℕ) (bs xs : List ℕ) → length bs ≤ n → drop n (overlay bs xs) ≡ drop n xs
unfolding overlay
drop-overlay n [] xs h = refl
drop-overlay n (b ∷ bs) [] h = refl
drop-overlay zero (b ∷ bs) (x ∷ xs) h = absurd (omega arith)
drop-overlay (suc n) (b ∷ bs) (x ∷ xs) h = drop-overlay n bs xs (omega arith)

-- A region reads back as what was written to it.
pub slice-write_at_self :
    (off n : ℕ) (bs xs : List ℕ)
    → length bs ≡ n
    → off + n ≤ length xs
    → slice off n (write_at off bs xs) ≡ bs
unfolding slice write_at
slice-write_at_self zero n bs xs e h = rw (← e) (take-overlay bs xs (omega arith))
slice-write_at_self (suc off) n bs [] e h = absurd (omega arith)
slice-write_at_self (suc off) n bs (x ∷ xs) e h = slice-write_at_self off n bs xs e (omega arith)

-- A write above a region leaves it.
pub slice-write_at_above :
    (off n o : ℕ) (bs xs : List ℕ) → off + n ≤ o → slice off n (write_at o bs xs) ≡ slice off n xs
unfolding slice write_at
slice-write_at_above zero zero o bs xs h = refl
slice-write_at_above zero (suc n) zero bs xs h = absurd (omega arith)
slice-write_at_above zero (suc n) (suc o) bs [] h = refl
slice-write_at_above zero (suc n) (suc o) bs (x ∷ xs) h =
    ap (◌∷◌ x) (slice-write_at_above zero n o bs xs (omega arith))
slice-write_at_above (suc off) n zero bs xs h = absurd (omega arith)
slice-write_at_above (suc off) n (suc o) bs [] h = refl
slice-write_at_above (suc off) n (suc o) bs (x ∷ xs) h =
    slice-write_at_above off n o bs xs (omega arith)

-- Nor does one below it change it.
pub slice-write_at_below :
    (off n o : ℕ) (bs xs : List ℕ)
    → o + length bs ≤ off
    → slice off n (write_at o bs xs) ≡ slice off n xs
unfolding slice write_at
slice-write_at_below off n zero bs xs h = ap (take n) (drop-overlay off bs xs (omega arith))
slice-write_at_below zero n (suc o) bs xs h = absurd (omega arith)
slice-write_at_below (suc off) n (suc o) bs [] h = refl
slice-write_at_below (suc off) n (suc o) bs (x ∷ xs) h =
    slice-write_at_below off n o bs xs (omega arith)

pub length-slice : (off n : ℕ) (xs : List ℕ) → off + n ≤ length xs → length (slice off n xs) ≡ n
unfolding slice
length-slice off n xs h = omega (arith, length-take n (drop off xs), length-drop off xs)

pub slice?-eq-some :
    (off n : ℕ) (xs : List ℕ) → off + n ≤ length xs → slice? off n xs ≡ some (slice off n xs)
unfolding slice?
slice?-eq-some off n xs h = ground arith

-- memcmp(a, b) == 0, for two arrays of one size.
unfoldable pub bytes_eq : List ℕ → List ℕ → Bool
bytes_eq [] [] = true
bytes_eq [] (y ∷ ys) = false
bytes_eq (x ∷ xs) [] = false
bytes_eq (x ∷ xs) (y ∷ ys) = (x == y) && bytes_eq xs ys

pub bytes_eq_sound : (xs ys : List ℕ) → bytes_eq xs ys ≡ true → xs ≡ ys
unfolding bytes_eq
bytes_eq_sound [] [] h = refl
bytes_eq_sound [] (y ∷ ys) h = cc
bytes_eq_sound (x ∷ xs) [] h = cc
bytes_eq_sound (x ∷ xs) (y ∷ ys) h = ground (arith, bytes_eq_sound xs ys)

pub bytes_eq_refl : (xs : List ℕ) → bytes_eq xs xs ≡ true
unfolding bytes_eq
bytes_eq_refl [] = refl
bytes_eq_refl (x ∷ xs) = ground (arith, bytes_eq_refl xs)

-- Three fields written one behind another, at `o₁`, `o₂` and `o₃`, read back.
module _ (o₁ o₂ o₃ n₁ n₂ n₃ : ℕ) (a b c d : List ℕ) (ea : length a ≡ n₁) (eb : length b ≡ n₂)
    (ec : length c ≡ n₃) (h₁ : o₁ + n₁ ≤ o₂) (h₂ : o₂ + n₂ ≤ o₃) (h₃ : o₃ + n₃ ≤ length d) where
  abbrev fields : List ℕ
  fields = write_at o₃ c (write_at o₂ b (write_at o₁ a d))

  fields_first : slice o₁ n₁ fields ≡ a
  fields_first =
      slice-write_at_above o₁ n₁ o₃ c _ (omega arith)
      ∙ slice-write_at_above o₁ n₁ o₂ b _ h₁
      ∙ slice-write_at_self o₁ n₁ a d ea (omega arith)

  fields_second : slice o₂ n₂ fields ≡ b
  fields_second =
      slice-write_at_above o₂ n₂ o₃ c _ h₂
      ∙ slice-write_at_self o₂ n₂ b _ eb (omega (arith, length-write_at o₁ a d))

  fields_third : slice o₃ n₃ fields ≡ c
  fields_third =
      slice-write_at_self o₃ n₃ c _ ec
        (omega (arith, length-write_at o₂ b (write_at o₁ a d), length-write_at o₁ a d))

  pub fields_lem :
      (slice o₁ n₁ fields ≡ a)
      × (slice o₂ n₂ fields ≡ b)
      × (slice o₃ n₃ fields ≡ c)
      × ((i : ℕ) → i < o₁ → get_elem? fields i ≡ get_elem? d i)
      × (length fields ≡ length d)
  fields_lem = (
    fields_first,
    fields_second,
    fields_third,
    λ i lt.
        get_elem?-write_at_out o₃ c _ i (inl (omega arith))
        ∙ get_elem?-write_at_out o₂ b _ i (inl (omega arith))
        ∙ get_elem?-write_at_out o₁ a d i (inl lt),
    simp length-write_at,
  )

pub get_elem?-slice :
    (off n : ℕ) (xs : List ℕ) (i : ℕ)
    → i < n
    → get_elem? (slice off n xs) i ≡ get_elem? xs (off + i)
unfolding slice
get_elem?-slice off n xs i h = get_elem?-take n (drop off xs) i h ∙ get_elem?-drop off xs i

overlay-drop : (bs xs : List ℕ) → length bs ≤ length xs → overlay bs xs ≡ bs ++ drop (length bs) xs
unfolding overlay
overlay-drop [] xs h = refl
overlay-drop (b ∷ bs) [] h = absurd (omega arith)
overlay-drop (b ∷ bs) (x ∷ xs) h = ap (◌∷◌ b) (overlay-drop bs xs (omega arith))

-- Behind the point of a write stand the bytes written, and the old ones after them.
pub drop-write_at :
    (off : ℕ) (bs xs : List ℕ)
    → off + length bs ≤ length xs
    → drop off (write_at off bs xs) ≡ bs ++ drop (off + length bs) xs
unfolding write_at
drop-write_at zero bs xs h =
    let e : 0 + length bs ≡ length bs = omega arith in rw e (overlay-drop bs xs (omega arith))
drop-write_at (suc off) bs [] h = absurd (omega arith)
drop-write_at (suc off) bs (x ∷ xs) h =
    let e : suc off + length bs ≡ suc (off + length bs) = omega arith in
    rw e (drop-write_at off bs xs (omega arith))

pub slice-append :
    (off : ℕ) (xs bs rest : List ℕ) → drop off xs ≡ bs ++ rest → slice off (length bs) xs ≡ bs
unfolding slice
slice-append off xs bs rest h = rw h (take-append bs rest)
