-- ===== src/Util/Buffer/Reads.antt =====
-- What a reader of llarp_buffer_t sees: the bytes behind the cursor.
use bittoro_network.Prelude.{
  ℕ, zero, suc, ◌+◌, ◌-◌, ◌^◌, ◌<◌, ◌≤◌, ◌≡◌, ◌≢◌, refl, sym, ap, ◌∙◌, List, [], ◌∷◌, ◌++◌, some,
  true, false, ltb, ◌==◌, length, length-append, length-drop, get_elem?, get_elem?-drop, drop,
  drop-drop, drop-append, All, arith,
}
use bittoro_network.Prelude.Bytes.{
  slice, slice-append, write_at, be_bytes, length-be_bytes, be_value-be_bytes, slice-write_at_self,
  length-write_at,
}
use bittoro_network.Util.Buffer.{Buffer, advance, size_left, scan, read_until, put_uint, read_uint}

-- `text` stands behind the cursor, and `rest` behind it.
abbrev pub Ahead : Buffer → List ℕ → List ℕ → Type 0
Ahead b text rest = drop b.cur b.mem ≡ text ++ rest

pub Ahead-length :
    (b : Buffer) (text rest : List ℕ)
    → Ahead b text rest
    → length b.mem - b.cur ≡ length text + length rest
Ahead-length b text rest a =
    omega (arith, length-drop b.cur b.mem, ap length a, length-append text rest)

pub Ahead-advance :
    (b : Buffer) (text rest : List ℕ) → Ahead b text rest → drop (b.cur + length text) b.mem ≡ rest
Ahead-advance b text rest a =
    sym (drop-drop b.cur (length text) b.mem) ∙ ap (drop (length text)) a ∙ drop-append text rest

pub Ahead-head :
    (b : Buffer) (c : ℕ) (rest : List ℕ) → Ahead b (c ∷ []) rest → get_elem? b.mem b.cur ≡ some c
Ahead-head b c rest a =
    (let e : b.cur + 0 ≡ b.cur = omega arith in
      ap (get_elem? b.mem) (sym e)
      ∙ sym (get_elem?-drop b.cur b.mem 0)
      ∙ ap (λ xs. get_elem? xs 0) a)

pub Ahead-size_left :
    (b : Buffer) (text rest : List ℕ)
    → 0 < length text
    → Ahead b text rest
    → size_left b ≡ length text + length rest
unfolding size_left
Ahead-size_left b text rest p a = ground (arith, Ahead-length b text rest a)

pub Ahead-slice :
    (b : Buffer) (text rest : List ℕ) → Ahead b text rest → slice b.cur (length text) b.mem ≡ text
Ahead-slice b text rest a = slice-append b.cur b.mem text rest a

pub Ahead-room : (b : Buffer) (s rest : List ℕ) → Ahead b s rest → length s ≤ size_left b
unfolding size_left
Ahead-room b s rest a = ground (arith, Ahead-length b s rest a)

scan-text :
    (delim room : ℕ) (b : Buffer) (text rest : List ℕ)
    → All (λ c. c ≢ delim) text
    → length text ≤ room
    → Ahead b text (delim ∷ rest)
    → scan delim room b ≡ some (text, advance (length text) b)
unfolding scan
scan-text delim zero b [] rest v fits a =
    let e : b.cur + 0 ≡ b.cur = omega arith in
    let inside : (b.cur == length b.mem) ≡ false =
      ground (arith, Ahead-length b (delim ∷ []) rest a) in
    rw (inside, Ahead-head b delim rest a, e)
scan-text delim zero b (c ∷ cs) rest v fits a = absurd (omega arith)
scan-text delim (suc room) b [] rest v fits a =
    let e : b.cur + 0 ≡ b.cur = omega arith in
    let inside : (b.cur == length b.mem) ≡ false =
      ground (arith, Ahead-length b (delim ∷ []) rest a) in
    let same : (delim == delim) ≡ true = ground arith in
    rw (inside, Ahead-head b delim rest a, same, e)
scan-text delim (suc room) b (c ∷ cs) rest v fits a =
    let inside : (b.cur == length b.mem) ≡ false =
      ground (arith, Ahead-length b (c ∷ []) (cs ++ (delim ∷ rest)) a) in
    let other : (c == delim) ≡ false = ground (arith, v.0) in
    let rec =
      scan-text delim room (advance 1 b) cs rest v.1 (omega arith)
        (Ahead-advance b (c ∷ []) (cs ++ (delim ∷ rest)) a) in
    let e : b.cur + 1 + length cs ≡ b.cur + suc (length cs) = omega arith in
    rw (inside, Ahead-head b c (cs ++ (delim ∷ rest)) a, other, rec, e)

pub read_until-text :
    (delim room : ℕ) (b : Buffer) (text rest : List ℕ)
    → All (λ c. c ≢ delim) text
    → length text ≤ room
    → Ahead b text (delim ∷ rest)
    → read_until delim room b ≡ some ((text, length text), advance (length text) b)
unfolding read_until
read_until-text delim room b text rest v fits a =
    let b' = advance (length text) b in
    let more : (size_left b' == 0) ≡ false = ground (
      arith,
      Ahead-size_left b' (delim ∷ []) rest (omega arith) (Ahead-advance b text (delim ∷ rest) a),
    ) in
    rw (scan-text delim room b text rest v fits a, more)

size_left_room : (n : ℕ) (b : Buffer) → 0 < n → n ≤ size_left b → b.cur + n ≤ length b.mem
unfolding size_left
size_left_room n b p h = ground arith

-- A number that fits into `n` bytes, one at least, for which there is room, is read back from where it was put,
-- and both leave the cursor behind it.
pub read_uint-put_uint :
    (n i : ℕ) (b : Buffer)
    → i < 256 ^ n
    → 0 < n
    → n ≤ size_left b
    → (b' : Buffer) × (put_uint n i b ≡ (true, b'))
      × (b'.cur ≡ b.cur + n)
      × (read_uint n (record b' { cur = b.cur }) ≡ (some i, b'))
unfolding put_uint read_uint
read_uint-put_uint n i b fits some_bytes room =
    let bytes = be_bytes n i in
    let size = length-be_bytes n i in
    let kept = length-write_at b.cur bytes b.mem in
    let t₁ : ltb (size_left b) n ≡ false = ground arith in
    let t₂ : ltb (size_left (record { mem = write_at b.cur bytes b.mem; cur = b.cur })) n ≡ false =
      unfold size_left in ground (arith, kept) in
    let inside : b.cur + n ≤ length b.mem = size_left_room n b some_bytes room in
    (
      record { mem = write_at b.cur bytes b.mem; cur = b.cur + n },
      rw t₁ refl,
      refl,
      rw (t₂, slice-write_at_self b.cur n bytes b.mem size inside, be_value-be_bytes n i fits) refl,
    )
