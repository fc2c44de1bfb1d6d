-- ===== src/Util/Bencode/Roundtrip.antt =====
-- What the writers of llarp/util/bencode.cpp write its readers read.
use bittoro_network.Prelude.{
  ℕ, ◌+◌, ◌^◌, ◌<◌, ◌≡◌, ◌≢◌, refl, ap, ◌∙◌, List, [], ◌∷◌, ◌++◌, some, Bool, true, false, ltb, leb,
  ◌==◌, length, length-append, get_elem?, drop, All, arith, inl,
}
use mathlib.Core.List.{append_assoc}
use bittoro_network.Prelude.Bytes.{write_at, get_elem?-write_at_in, get_elem?-write_at_out}
use bittoro_network.Util.Buffer.{Buffer, advance, size_left, write, writef}
use bittoro_network.Util.Buffer.Reads.{
  Ahead, Ahead-advance, Ahead-head, Ahead-slice, Ahead-room, read_until-text,
}
use bittoro_network.Util.Buffer.Writes.{Wrote-trans, Wrote-Ahead, Emits, write-Emits, writef-Emits}
use bittoro_network.Util.Numerals.{
  decimal, decimal_from, decimal_from-IsDigit, length-decimal_from, decimal_from_small,
  decimal_nonempty, IsDigit, strtoull-decimal, atoi-decimal,
}
use bittoro_network.Util.Bencode.{
  and_then, read_integer, read_string, write_bytestring, write_uint64,
}

abbrev pub int_text : ℕ → List ℕ
int_text x = (105 ∷ decimal x) ++ (101 ∷ [])

abbrev pub string_text : List ℕ → List ℕ
string_text s = (decimal (length s) ++ (58 ∷ [])) ++ s

pub and_then-Emits :
    (f g : Buffer → Bool × Buffer) (s t : List ℕ)
    → Emits f s
    → Emits g t
    → Emits (and_then f g) (s ++ t)
unfolding and_then
and_then-Emits f g s t hf hg b room =
    let size = length-append s t in
    let (b', e, w) = hf b (omega (arith, size)) in
    let (b'', e', w') = hg b' (omega (arith, size, w.moved, w.same_size)) in
    (b'', rw (e, e') refl, Wrote-trans w w')

pub write_uint64-Emits : (x : ℕ) → Emits (write_uint64 x) (int_text x)
unfolding write_uint64
write_uint64-Emits x =
    and_then-Emits (writef (105 ∷ decimal x)) (write (101 ∷ [])) (105 ∷ decimal x) (101 ∷ [])
      (writef-Emits (105 ∷ decimal x) (omega arith)) (write-Emits (101 ∷ []))

pub write_bytestring-Emits : (s : List ℕ) → Emits (write_bytestring s) (string_text s)
unfolding write_bytestring
write_bytestring-Emits s =
    and_then-Emits (writef (decimal (length s) ++ (58 ∷ []))) (write s)
      (decimal (length s) ++ (58 ∷ [])) s
      (writef-Emits (decimal (length s) ++ (58 ∷ []))
        (omega (arith, length-append (decimal (length s)) (58 ∷ []))))
      (write-Emits s)

no_digit : (delim : ℕ) (ds : List ℕ) → 57 < delim → All IsDigit ds → All (λ c. c ≢ delim) ds
no_digit delim [] h v = tt
no_digit delim (d ∷ ds) h v = (omega (arith, v.0), no_digit delim ds h v.1)

pub read_integer-text :
    (b : Buffer) (x : ℕ) (rest : List ℕ)
    → x < 2 ^ 64
    → Ahead b (int_text x) rest
    → read_integer b ≡ some (some x, advance (length (int_text x)) b)
unfolding read_integer
read_integer-text b x rest fits a =
    let tail : List ℕ = decimal x ++ (101 ∷ rest) in
    let a₁ : Ahead b (105 ∷ []) tail =
      a ∙ ap (◌∷◌ 105) (append_assoc (decimal x) (101 ∷ []) rest) in
    let b₁ = advance 1 b in
    let r =
      read_until-text 101 31 b₁ (decimal x) rest
        (no_digit 101 (decimal x) (omega arith) (decimal_from-IsDigit 20 x))
        (omega (arith, length-decimal_from 20 x)) (Ahead-advance b (105 ∷ []) tail a₁) in
    let some_digits : (length (decimal x) == 0) ≡ false = ground (arith, decimal_nonempty x) in
    let e : b.cur + 1 + length (decimal x) + 1 ≡ b.cur + length (int_text x) =
      omega (arith, length-append (decimal x) (101 ∷ [])) in
    rw (Ahead-head b 105 tail a₁, r, some_digits, strtoull-decimal x fits, e)

pub read_string-text :
    (b : Buffer) (s rest : List ℕ)
    → length s < 10 ^ 9
    → Ahead b (string_text s) rest
    → read_string b ≡ some (some s, advance (length (string_text s)) b)
unfolding read_string
read_string-text b s rest fits a =
    let n = decimal (length s) in
    let a₁ : Ahead b n (58 ∷ (s ++ rest)) =
      a ∙ append_assoc (n ++ (58 ∷ [])) s rest ∙ append_assoc n (58 ∷ []) (s ++ rest) in
    let r =
      read_until-text 58 9 b n (s ++ rest)
        (no_digit 58 n (omega arith) (decimal_from-IsDigit 20 (length s)))
        (decimal_from_small 20 9 (length s) fits (omega arith)) a₁ in
    let b₁ = advance (length n) b in
    let b₂ = advance 1 b₁ in
    let a₂ : Ahead b₂ s rest =
      Ahead-advance b₁ (58 ∷ []) (s ++ rest) (Ahead-advance b n (58 ∷ (s ++ rest)) a₁) in
    let some_digits : (length n == 0) ≡ false = ground (arith, decimal_nonempty (length s)) in
    let room : ltb (size_left b₂) (length s) ≡ false = ground (arith, Ahead-room b₂ s rest a₂) in
    let e : b.cur + length n + 1 + length s ≡ b.cur + length (string_text s) =
      omega (arith, length-append (n ++ (58 ∷ [])) s, length-append n (58 ∷ [])) in
    rw (r, some_digits, atoi-decimal (length s) (omega arith), room, Ahead-slice b₂ s rest a₂, e)

-- A number of 64 bits that is written into a buffer with more room than its text needs is read back
-- from there, and both leave the cursor behind it.
pub read_integer-write_uint64 :
    (b : Buffer) (x : ℕ)
    → x < 2 ^ 64
    → b.cur + length (int_text x) < length b.mem
    → (b' : Buffer) × (write_uint64 x b ≡ (true, b'))
      × (read_integer (record b' { cur = b.cur }) ≡ some (some x, b'))
read_integer-write_uint64 b x fits room =
    let (b', e, w) = write_uint64-Emits x b room in
    let a = Wrote-Ahead {b = b} {b' = b'} (omega arith) w in
    (
      b',
      e,
      read_integer-text (record b' { cur = b.cur }) x (drop b'.cur b'.mem) fits a
          ∙ (rw (← w.moved) refl),
    )

-- A string of less than a billion bytes that is written into a buffer with more room than its text
-- needs is read back from there, and both leave the cursor behind it.
pub read_string-write_bytestring :
    (b : Buffer) (s : List ℕ)
    → length s < 10 ^ 9
    → b.cur + length (string_text s) < length b.mem
    → (b' : Buffer) × (write_bytestring s b ≡ (true, b'))
      × (read_string (record b' { cur = b.cur }) ≡ some (some s, b'))
read_string-write_bytestring b s fits room =
    let (b', e, w) = write_bytestring-Emits s b room in
    let a = Wrote-Ahead {b = b} {b' = b'} (omega arith) w in
    (
      b',
      e,
      read_string-text (record b' { cur = b.cur }) s (drop b'.cur b'.mem) fits a
          ∙ (rw (← w.moved) refl),
    )

-- An empty string for which exactly two bytes are left is reported as written, and the byte behind
-- its length is a zero and not the colon: writef accepts a text that fills the room, which vsnprintf
-- cuts for its final zero.
pub write_bytestring_empty :
    (b : Buffer)
    → b.cur + 2 ≡ length b.mem
    → (b' : Buffer) × (write_bytestring [] b ≡ (true, b'))
      × (get_elem? b'.mem b.cur ≡ some 48)
      × (get_elem? b'.mem (b.cur + 1) ≡ some 0)
unfolding write_bytestring and_then writef write decimal_from
write_bytestring_empty b two =
    let left : size_left b ≡ 2 = unfold size_left in ground arith in
    let cut = write_at b.cur (48 ∷ 0 ∷ []) b.mem in
    let any : (n : ℕ) → leb 0 n ≡ true = λ n. ground arith in
    let b' : Buffer = record { mem = write_at (b.cur + 2) [] cut; cur = b.cur + 2 + 0 } in
    let e : b.cur + 0 ≡ b.cur = omega arith in
    (
      b',
      rw (left, any (size_left (record { mem = cut; cur = b.cur + 2 }))) refl,
      get_elem?-write_at_out (b.cur + 2) [] cut b.cur (inl (omega arith))
          ∙ (rw e at
              (get_elem?-write_at_in b.cur (48 ∷ 0 ∷ []) b.mem 0 (omega arith) (omega arith))),
      get_elem?-write_at_out (b.cur + 2) [] cut (b.cur + 1) (inl (omega arith))
          ∙ get_elem?-write_at_in b.cur (48 ∷ 0 ∷ []) b.mem 1 (omega arith) (omega arith),
    )
