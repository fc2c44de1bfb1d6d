-- ===== src/Dns/Name/Roundtrip.antt =====
-- What EncodeName of llarp/dns/name.cpp writes, and DecodeName reads.
use mathlib.Core.List.{append_assoc, append-nil}
use bittoro_network.Prelude.{
  ℕ, zero, suc, ◌+◌, ◌<◌, ◌≤◌, ◌≡◌, ◌≢◌, refl, sym, ap, ◌∙◌, List, [], ◌∷◌, ◌++◌, none, some, Bool,
  true, false, ltb, ◌==◌, if◌then◌else◌, length, length-append, take, drop, All, arith,
}
use bittoro_network.Prelude.Bytes.{write_at, length-write_at}
use bittoro_network.Util.Buffer.{Buffer, advance, size_left}
use bittoro_network.Util.Buffer.Reads.{Ahead, Ahead-advance, Ahead-head, Ahead-slice, Ahead-room}
use bittoro_network.Util.Buffer.Writes.{Wrote, Wrote-trans, Wrote-Ahead, take-write_at}
use bittoro_network.Dns.Name.{
  before_last_dot, trim_with, trim_dot, decode_loop, decode_name, strip_dot, parts_from, poke,
  terminate, encode_parts, encode_name,
}

-- A label of a name: not empty, at most 63 bytes, no dot.
abbrev pub IsLabel : List ℕ → Type 0
IsLabel label = (0 < length label) × (length label ≤ 63) × All (λ c. c ≢ 46) label

-- The name that the labels stand for, with a dot behind the last and without, and its encoding.
abbrev pub dotted : List (List ℕ) → List ℕ
dotted [] = []
dotted (label ∷ labels) = label ++ (46 ∷ dotted labels)

abbrev pub joined : List ℕ → List (List ℕ) → List ℕ
joined label [] = label
joined label (next ∷ labels) = label ++ (46 ∷ joined next labels)

abbrev pub body : List (List ℕ) → List ℕ
body [] = []
body (label ∷ labels) = length label ∷ (label ++ body labels)

dotted-joined :
    (label : List ℕ) (labels : List (List ℕ))
    → dotted (label ∷ labels) ≡ joined label labels ++ (46 ∷ [])
dotted-joined label [] = refl
dotted-joined label (next ∷ labels) =
    ap (λ x. label ++ (46 ∷ x)) (dotted-joined next labels)
    ∙ sym (append_assoc label (46 ∷ joined next labels) (46 ∷ []))

strip_dot-append : (xs : List ℕ) → strip_dot (xs ++ (46 ∷ [])) ≡ xs
strip_dot-append [] = refl
strip_dot-append (x ∷ []) = refl
strip_dot-append (x ∷ y ∷ xs) = ap (◌∷◌ x) (strip_dot-append (y ∷ xs))

before_last_dot-append : (xs : List ℕ) → before_last_dot (xs ++ (46 ∷ [])) ≡ some xs
before_last_dot-append [] = refl
before_last_dot-append (x ∷ xs) = rw (before_last_dot-append xs) refl

parts_from-end :
    (acc label : List ℕ)
    → All (λ c. c ≢ 46) label
    → 0 < length (acc ++ label)
    → parts_from acc label ≡ (acc ++ label) ∷ []
parts_from-end [] [] no_dot h = absurd (omega arith)
parts_from-end (c ∷ cs) [] no_dot h = rw (append-nil cs) refl
parts_from-end acc (c ∷ cs) no_dot h =
    let other : (c == 46) ≡ false = ground (arith, no_dot.0) in
    let assoc : (acc ++ (c ∷ [])) ++ cs ≡ acc ++ (c ∷ cs) = append_assoc acc (c ∷ []) cs in
    rw other (parts_from-end (acc ++ (c ∷ [])) cs (no_dot.1) (rw assoc h) ∙ rw assoc refl)

parts_from-dot :
    (acc label rest : List ℕ)
    → All (λ c. c ≢ 46) label
    → parts_from acc (label ++ (46 ∷ rest)) ≡ (acc ++ label) ∷ parts_from [] rest
parts_from-dot acc [] rest no_dot = rw (append-nil acc) refl
parts_from-dot acc (c ∷ cs) rest no_dot =
    let other : (c == 46) ≡ false = ground (arith, no_dot.0) in
    let assoc : (acc ++ (c ∷ [])) ++ cs ≡ acc ++ (c ∷ cs) = append_assoc acc (c ∷ []) cs in
    rw other (parts_from-dot (acc ++ (c ∷ [])) cs rest (no_dot.1) ∙ rw assoc refl)

parts_from-joined :
    (label : List ℕ) (labels : List (List ℕ))
    → IsLabel label
    → All IsLabel labels
    → parts_from [] (joined label labels) ≡ label ∷ labels
parts_from-joined label [] good all = parts_from-end [] label (good.2) (good.0)
parts_from-joined label (next ∷ labels) good all =
    parts_from-dot [] label (joined next labels) (good.2)
    ∙ ap (◌∷◌ label) (parts_from-joined next labels (all.0) (all.1))

write_at-Wrote :
    (b : Buffer) (text : List ℕ)
    → b.cur + length text ≤ length b.mem
    → Wrote b text (record { mem = write_at b.cur text b.mem; cur = b.cur + length text })
write_at-Wrote b text room = record {
  moved = refl;
  same_size = length-write_at b.cur text b.mem;
  behind =
      let none_extra : text ++ [] ≡ text = append-nil text in
      rw none_extra at (take-write_at b.cur text [] b.mem (omega arith));
}

-- Where there is room for the labels, they are written, and then the end.
encode_parts-body :
    (labels : List (List ℕ)) (b : Buffer)
    → All IsLabel labels
    → b.cur + length (body labels) ≤ length b.mem
    → (b' : Buffer) × (encode_parts labels b ≡ terminate b') × Wrote b (body labels) b'
unfolding encode_parts poke
encode_parts-body [] b good room = (
  b,
  refl,
  record { moved = omega arith; same_size = refl; behind = sym (append-nil (take b.cur b.mem)) },
)
encode_parts-body (label ∷ labels) b good room =
    let size = length-append label (body labels) in
    let inside : ltb b.cur (length b.mem) ≡ true = ground (arith, room) in
    let short : ltb 63 (length label) ≡ false = ground (arith, good.0.1) in
    let some_bytes : (length label == 0) ≡ false = ground (arith, good.0.0) in
    let b₁ : Buffer = record { mem = write_at b.cur (length label ∷ []) b.mem; cur = b.cur + 1 } in
    let w₁ : Wrote b (length label ∷ []) b₁ =
      write_at-Wrote b (length label ∷ []) (omega (arith, room)) in
    let left : ltb (size_left b₁) (length label) ≡ false =
      unfold size_left in ground (arith, w₁.same_size, room, size) in
    let b₂ : Buffer = record { mem = write_at b₁.cur label b₁.mem; cur = b₁.cur + length label } in
    let w₂ : Wrote b₁ label b₂ =
      write_at-Wrote b₁ label (omega (arith, w₁.same_size, room, size)) in
    let rest =
      encode_parts-body labels b₂ (good.1)
        (omega (arith, w₁.same_size, w₂.same_size, room, size)) in
    (
      rest.0,
      rw (short, inside, left, some_bytes) (rest.1),
      Wrote-trans w₁ (Wrote-trans w₂ (rest.2)),
    )

-- The labels that stand ahead, and the end behind them, are read.
decode_loop-body :
    (labels : List (List ℕ)) (b : Buffer) (rounds : ℕ) (rest : List ℕ)
    → All IsLabel labels
    → length labels < rounds
    → Ahead b (body labels ++ (0 ∷ [])) rest
    → decode_loop rounds b
      ≡ some (some (dotted labels), advance (length (body labels ++ (0 ∷ []))) b)
unfolding decode_loop
decode_loop-body labels b zero rest good h ahead = absurd (omega arith)
decode_loop-body [] b (suc rounds) rest good h ahead = rw (Ahead-head b 0 rest ahead) refl
decode_loop-body (label ∷ labels) b (suc rounds) rest good h ahead =
    let wire = body labels ++ (0 ∷ []) in
    let assoc : (label ++ body labels) ++ (0 ∷ []) ≡ label ++ wire =
      append_assoc label (body labels) (0 ∷ []) in
    let b₁ : Buffer = advance 1 b in
    let ahead₁ : Ahead b₁ label (wire ++ rest) =
      Ahead-advance b (length label ∷ []) (((label ++ body labels) ++ (0 ∷ [])) ++ rest) ahead
      ∙ ap (λ x. x ++ rest) assoc
      ∙ append_assoc label wire rest in
    let head = Ahead-head b (length label) (((label ++ body labels) ++ (0 ∷ [])) ++ rest) ahead in
    let short : ltb 63 (length label) ≡ false = ground (arith, good.0.1) in
    let some_bytes : (length label == 0) ≡ false = ground (arith, good.0.0) in
    let left : ltb (size_left b₁) (length label) ≡ false =
      ground (arith, Ahead-room b₁ label (wire ++ rest) ahead₁) in
    let b₂ : Buffer = advance (length label) b₁ in
    let again =
      decode_loop-body labels b₂ rounds rest (good.1) (omega arith)
        (Ahead-advance b₁ label (wire ++ rest) ahead₁) in
    let moved : b.cur + 1 + length label + length wire
        ≡ b.cur + suc (length ((label ++ body labels) ++ (0 ∷ []))) =
      rw assoc (omega (arith, length-append label wire)) in
    rw (head, some_bytes, short, left, again, Ahead-slice b₁ label (wire ++ rest) ahead₁, moved)
      refl

module _ (label : List ℕ) (labels : List (List ℕ)) (good : All IsLabel (label ∷ labels)) where
  encode_name-dotted :
      (b : Buffer) → encode_name (dotted (label ∷ labels)) b ≡ encode_parts (label ∷ labels) b
  unfolding encode_name
  encode_name-dotted b =
      ap (λ name. encode_parts (parts_from [] (strip_dot name)) b) (dotted-joined label labels)
      ∙ ap (λ name. encode_parts (parts_from [] name) b) (strip_dot-append (joined label labels))
      ∙ ap (λ parts. encode_parts parts b) (parts_from-joined label labels (good.0) (good.1))

  trimmed : trim_dot (dotted (label ∷ labels)) ≡ joined label labels
  trimmed =
      ap trim_dot (dotted-joined label labels)
      ∙ ap (trim_with (joined label labels ++ (46 ∷ [])))
          (before_last_dot-append (joined label labels))

  shown :
      (trim : Bool)
      → (if trim then trim_dot (dotted (label ∷ labels)) else dotted (label ∷ labels))
        ≡ (if trim then joined label labels else dotted (label ∷ labels))
  shown true = trimmed
  shown false = refl

  -- A name of one label or more, each of 1 to 63 bytes without a dot, with a dot behind each, is encoded
  -- where there is room for the labels, a length byte for each and the end; and DecodeName, in more rounds
  -- than there are labels, reads the name back from where it begins, with its final dot or, trimmed,
  -- without it, and moves the cursor to where EncodeName left it.
  pub decode_name-encode_name :
      (trim : Bool) (rounds : ℕ) (b : Buffer)
      → length (label ∷ labels) < rounds
      → b.cur + length (body (label ∷ labels)) < length b.mem
      → (b' : Buffer) × (encode_name (dotted (label ∷ labels)) b ≡ some (true, b'))
        × (decode_name rounds trim (record b' { cur = b.cur })
            ≡ some (some (if trim then joined label labels else dotted (label ∷ labels)), b'))
  unfolding decode_name poke
  decode_name-encode_name trim rounds b enough room =
      let wrote = encode_parts-body (label ∷ labels) b good (omega (arith, room)) in
      let b₁ = wrote.0 in
      let w₁ = wrote.2 in
      let inside : ltb b₁.cur (length b₁.mem) ≡ true =
        ground (arith, w₁.moved, w₁.same_size, room) in
      let b₂ : Buffer = record { mem = write_at b₁.cur (0 ∷ []) b₁.mem; cur = b₁.cur + 1 } in
      let w₂ : Wrote b₁ (0 ∷ []) b₂ =
        write_at-Wrote b₁ (0 ∷ []) (omega (arith, w₁.moved, w₁.same_size, room)) in
      let w : Wrote b (body (label ∷ labels) ++ (0 ∷ [])) b₂ = Wrote-trans w₁ w₂ in
      let back : Buffer = record b₂ { cur = b.cur } in
      let ahead = Wrote-Ahead (omega (arith, room)) w in
      let some_left : ltb (size_left back) 1 ≡ false =
        unfold size_left in ground (arith, w.same_size, room) in
      let read =
        decode_loop-body (label ∷ labels) back rounds (drop b₂.cur b₂.mem) good enough ahead in
      let cursor : b.cur + length (body (label ∷ labels) ++ (0 ∷ [])) ≡ b₂.cur = sym (w.moved) in
      (
        b₂,
        encode_name-dotted b ∙ wrote.1 ∙ rw inside refl,
        rw (some_left, read) (rw (shown trim, cursor) refl),
      )

  -- Where only the room for the end is missing, EncodeName writes it outside of the buffer.
  pub encode_name_overrun :
      (b : Buffer)
      → b.cur + length (body (label ∷ labels)) ≡ length b.mem
      → encode_name (dotted (label ∷ labels)) b ≡ none
  unfolding poke
  encode_name_overrun b room =
      let wrote = encode_parts-body (label ∷ labels) b good (omega (arith, room)) in
      let outside : ltb (wrote.0.cur) (length (wrote.0.mem)) ≡ false =
        ground (arith, wrote.2.moved, wrote.2.same_size, room) in
      encode_name-dotted b ∙ wrote.1 ∙ rw outside refl
