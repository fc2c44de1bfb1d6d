-- ===== src/Util/Buffer/Writes.antt =====
-- What a writer of llarp_buffer_t leaves behind: the bytes in front of the cursor.
use bittoro_network.Prelude.{
  take-drop, ℕ, zero, suc, ◌+◌, ◌-◌, ◌<◌, ◌≤◌, ◌≡◌, refl, sym, ap, ◌∙◌, List, [], ◌∷◌, ◌++◌, Bool,
  true, false, ltb, leb, ◌==◌, length, length-append, take, drop, drop-append, arith, length-take,
}
use mathlib.Core.List.{append_assoc, append-nil}
use bittoro_network.Prelude.Bytes.{write_at, length-write_at}
use bittoro_network.Util.Buffer.Reads.{Ahead}
use bittoro_network.Util.Buffer.{Buffer, size_left, write, writef}

-- `b'` comes from `b` by writing `text`.
pub record Wrote (b : Buffer) (text : List ℕ) (b' : Buffer) : Type 0 where
  pub moved : b'.cur ≡ b.cur + length text
  pub same_size : length b'.mem ≡ length b.mem
  pub behind : take b'.cur b'.mem ≡ take b.cur b.mem ++ text

-- Where more room is left than `text` needs, the writer succeeds and writes it.
abbrev pub Emits : (Buffer → Bool × Buffer) → List ℕ → Type 0
Emits f text =
    (b : Buffer)
    → b.cur + length text < length b.mem
    → (b' : Buffer) × (f b ≡ (true, b')) × Wrote b text b'

take_all : (n : ℕ) (xs : List ℕ) → length xs ≤ n → take n xs ≡ xs
take_all zero [] h = refl
take_all (suc n) [] h = refl
take_all zero (x ∷ xs) h = absurd (omega arith)
take_all (suc n) (x ∷ xs) h = ap (◌∷◌ x) (take_all n xs (omega arith))

-- What stands in front of the end of a write.
pub take-write_at :
    (off : ℕ) (bs extra xs : List ℕ)
    → off + length bs + length extra ≤ length xs
    → take (off + length bs) (write_at off (bs ++ extra) xs) ≡ take off xs ++ bs
unfolding write_at
take-write_at zero [] extra xs h = refl
take-write_at zero (c ∷ bs) extra [] h = absurd (omega arith)
take-write_at zero (c ∷ bs) extra (x ∷ xs) h =
    let e : 0 + suc (length bs) ≡ suc (0 + length bs) = omega arith in
    rw e (ap (◌∷◌ c) (take-write_at zero bs extra xs (omega arith)))
take-write_at (suc off) bs extra [] h = absurd (omega arith)
take-write_at (suc off) bs extra (x ∷ xs) h =
    let e : suc off + length bs ≡ suc (off + length bs) = omega arith in
    rw e (ap (◌∷◌ x) (take-write_at off bs extra xs (omega arith)))

pub write-Emits : (text : List ℕ) → Emits (write text) text
unfolding write
write-Emits text b room =
    let t : leb (length text) (size_left b) ≡ true = unfold size_left in ground arith in
    let none_extra : text ++ [] ≡ text = append-nil text in
    (
      record { mem = write_at b.cur text b.mem; cur = b.cur + length text },
      rw t refl,
      record {
        moved = refl;
        same_size = length-write_at b.cur text b.mem;
        behind = rw none_extra at (take-write_at b.cur text [] b.mem (omega arith));
      },
    )

pub writef-Emits : (text : List ℕ) → 0 < length text → Emits (writef text) text
unfolding writef
writef-Emits text nonempty b room =
    let left : size_left b ≡ length b.mem - b.cur = unfold size_left in ground arith in
    let t₁ : (size_left b == 0) ≡ false = ground (arith, left) in
    let t₂ : (length text == 0) ≡ false = ground arith in
    let t₃ : ltb (size_left b) (length text) ≡ false = ground (arith, left) in
    let whole : take (size_left b - 1) text ≡ text =
      take_all (size_left b - 1) text (omega (arith, left)) in
    let b' : Buffer = record {
      mem = write_at b.cur (text ++ (0 ∷ [])) b.mem;
      cur = b.cur + length text;
    } in
    (
      b',
      rw (t₁, whole, t₂, t₃) refl,
      record {
        moved = refl;
        same_size = length-write_at b.cur (text ++ (0 ∷ [])) b.mem;
        behind = take-write_at b.cur text (0 ∷ []) b.mem (omega arith);
      },
    )

pub Wrote-trans :
    {b b' b'' : Buffer} {s t : List ℕ} → Wrote b s b' → Wrote b' t b'' → Wrote b (s ++ t) b''
Wrote-trans {b} {s = s} {t = t} w v = record {
  moved = omega (arith, w.moved, v.moved, length-append s t);
  same_size = v.same_size ∙ w.same_size;
  behind = v.behind ∙ ap (λ xs. xs ++ t) w.behind ∙ append_assoc (take b.cur b.mem) s t;
}

-- Who goes back to where the writer began has the text ahead.
pub Wrote-Ahead :
    {b b' : Buffer} {text : List ℕ}
    → b.cur ≤ length b.mem
    → Wrote b text b'
    → Ahead (record b' { cur = b.cur }) text (drop b'.cur b'.mem)
Wrote-Ahead {b} {b'} {text} inside w =
    let front : length (take b.cur b.mem) ≡ b.cur = omega (arith, length-take b.cur b.mem) in
    let whole : b'.mem ≡ take b.cur b.mem ++ (text ++ drop b'.cur b'.mem) =
      sym (take-drop b'.cur b'.mem)
      ∙ ap (λ xs. xs ++ drop b'.cur b'.mem) w.behind
      ∙ append_assoc (take b.cur b.mem) text (drop b'.cur b'.mem) in
    ap (drop b.cur) whole
    ∙ (rw front at (drop-append (take b.cur b.mem) (text ++ drop b'.cur b'.mem)))
