-- ===== src/Util/Bencode/Dicts.antt =====
-- Dictionaries of integers, as the BEncode methods write them and bencode_decode_dict reads them.
use bittoro_network.Prelude.{
  ℕ, zero, suc, ◌+◌, ◌^◌, ◌<◌, ◌≤◌, ◌≡◌, refl, ap, ◌∙◌, List, [], ◌∷◌, ◌++◌, Option, some, Bool,
  true, false, ltb, ◌==◌, length, length-append, arith,
}
use mathlib.Core.List.{append_assoc}
use bittoro_network.Util.Buffer.{Buffer, advance, size_left, write}
use bittoro_network.Util.Buffer.Reads.{Ahead, Ahead-advance, Ahead-head, Ahead-size_left}
use bittoro_network.Util.Buffer.Writes.{Emits, write-Emits}
use bittoro_network.Util.Numerals.{decimal_from}
use bittoro_network.Util.Bencode.{
  and_then, read_integer, write_uint64_entry, write_bytestring, write_uint64, start_dict, write_end,
  dict_loop, decode_dict,
}
use bittoro_network.Util.Bencode.Roundtrip.{
  int_text, string_text, and_then-Emits, write_uint64-Emits, write_bytestring-Emits,
  read_integer-text, read_string-text,
}

-- BEncodeWriteDictInt for each key and value, and bencode_end.
unfoldable pub write_entries : List (ℕ × ℕ) → Buffer → Bool × Buffer
write_entries [] = write_end
write_entries ((k, x) ∷ es) = and_then (write_uint64_entry (k ∷ []) x) (write_entries es)

abbrev pub entry_text : ℕ → ℕ → List ℕ
entry_text k x = string_text (k ∷ []) ++ int_text x

abbrev pub entries_text : List (ℕ × ℕ) → List ℕ
entries_text [] = 101 ∷ []
entries_text ((k, x) ∷ es) = entry_text k x ++ entries_text es

abbrev pub dict_text : List (ℕ × ℕ) → List ℕ
dict_text es = (100 ∷ []) ++ entries_text es

write_entries-Emits : (es : List (ℕ × ℕ)) → Emits (write_entries es) (entries_text es)
unfolding write_entries write_uint64_entry write_end
write_entries-Emits [] = write-Emits (101 ∷ [])
write_entries-Emits ((k, x) ∷ es) =
    and_then-Emits (write_uint64_entry (k ∷ []) x) (write_entries es) (entry_text k x)
      (entries_text es)
      (and_then-Emits (write_bytestring (k ∷ [])) (write_uint64 x) (string_text (k ∷ []))
        (int_text x) (write_bytestring-Emits (k ∷ [])) (write_uint64-Emits x))
      (write_entries-Emits es)

pub dict-Emits : (es : List (ℕ × ℕ)) → Emits (and_then start_dict (write_entries es)) (dict_text es)
unfolding start_dict
dict-Emits es =
    and_then-Emits (write (100 ∷ [])) (write_entries es) (100 ∷ []) (entries_text es)
      (write-Emits (100 ∷ [])) (write_entries-Emits es)

pub entries_text_long : (es : List (ℕ × ℕ)) → length es ≤ length (entries_text es)
entries_text_long [] = omega arith
entries_text_long ((k, x) ∷ es) = omega (
  arith,
  length-append (entry_text k x) (entries_text es),
  length-append (string_text (k ∷ [])) (int_text x),
  entries_text_long es,
)

module _ {S : Type 0} (sink : List ℕ → S → Buffer → Option (Bool × S × Buffer)) where
  -- The decoder takes the integer `x` under the key `k` from `s` to `s'`.
  abbrev pub Takes : ℕ → ℕ → S → S → Type 0
  Takes k x s s' =
      (b b' : Buffer) → read_integer b ≡ some (some x, b') → sink (k ∷ []) s b ≡ some (true, s', b')

  abbrev pub TakesAll : List (ℕ × ℕ) → S → S → Type 0
  TakesAll [] s s' = s ≡ s'
  TakesAll ((k, x) ∷ es) s s' = (t : S) × (x < 2 ^ 64) × Takes k x s t × TakesAll es t s'

  dict_loop_entry :
      (n k x : ℕ) (s t : S) (b : Buffer) (rest : List ℕ)
      → x < 2 ^ 64
      → Takes k x s t
      → Ahead b (entry_text k x) rest
      → dict_loop sink (suc n) s b ≡ dict_loop sink n t (advance (length (entry_text k x)) b)
  unfolding dict_loop decimal_from
  dict_loop_entry n k x s t b rest fits takes a =
      let a₁ : Ahead b (string_text (k ∷ [])) (int_text x ++ rest) =
        a ∙ append_assoc (string_text (k ∷ [])) (int_text x) rest in
      let b₁ = advance (length (string_text (k ∷ []))) b in
      let key = read_string-text b (k ∷ []) (int_text x ++ rest) (omega arith) a₁ in
      let value =
        read_integer-text b₁ x rest fits
          (Ahead-advance b (string_text (k ∷ [])) (int_text x ++ rest) a₁) in
      let taken = takes b₁ (advance (length (int_text x)) b₁) value in
      let more : (size_left b == 0) ≡ false =
        ground
          (arith, Ahead-size_left b (string_text (k ∷ [])) (int_text x ++ rest) (omega arith) a₁) in
      let head = Ahead-head b 49 (58 ∷ k ∷ (int_text x ++ rest)) a₁ in
      let e : b.cur + 3 + length (int_text x) ≡ b.cur + length (entry_text k x) = omega arith in
      rw (more, head, key, taken, e)

  dict_loop_end :
      (n : ℕ) (s : S) (b : Buffer) (rest : List ℕ)
      → Ahead b (101 ∷ []) rest
      → dict_loop sink (suc n) s b ≡ some (true, s, advance 1 b)
  unfolding dict_loop
  dict_loop_end n s b rest a =
      let more : (size_left b == 0) ≡ false =
        ground (arith, Ahead-size_left b (101 ∷ []) rest (omega arith) a) in
      rw (more, Ahead-head b 101 rest a)

  dict_loop-entries :
      (es : List (ℕ × ℕ)) (n : ℕ) (s s' : S) (b : Buffer) (rest : List ℕ)
      → length es ≤ n
      → TakesAll es s s'
      → Ahead b (entries_text es) rest
      → dict_loop sink (suc n) s b ≡ some (true, s', advance (length (entries_text es)) b)
  dict_loop-entries [] n s s' b rest h same a =
      dict_loop_end n s b rest a ∙ ap (λ t. some (true, t, advance 1 b)) same
  dict_loop-entries ((k, x) ∷ es) zero s s' b rest h all a = absurd (omega arith)
  dict_loop-entries ((k, x) ∷ es) (suc n) s s' b rest h (t, fits, takes, all) a =
      let text = entry_text k x in
      let a₁ : Ahead b text (entries_text es ++ rest) =
        a ∙ append_assoc text (entries_text es) rest in
      let b₁ = advance (length text) b in
      let e : b.cur + length text + length (entries_text es)
          ≡ b.cur + length (text ++ entries_text es) =
        omega (arith, length-append text (entries_text es)) in
      dict_loop_entry (suc n) k x s t b (entries_text es ++ rest) fits takes a₁
      ∙ dict_loop-entries es n t s' b₁ rest (omega arith) all
          (Ahead-advance b text (entries_text es ++ rest) a₁)
      ∙ (rw e refl)

  pub decode_dict-text :
      (es : List (ℕ × ℕ)) (s s' : S) (b : Buffer) (rest : List ℕ)
      → length es ≤ length b.mem
      → TakesAll es s s'
      → Ahead b (dict_text es) rest
      → decode_dict sink s b ≡ some (true, s', advance (length (dict_text es)) b)
  unfolding decode_dict
  decode_dict-text es s s' b rest h all a =
      let a₁ : Ahead b (100 ∷ []) (entries_text es ++ rest) = a in
      let size = Ahead-size_left b (dict_text es) rest (omega arith) a in
      let long : ltb (size_left b) 2 ≡ false = ground (arith, size, entries_nonempty es) in
      let e : b.cur + 1 + length (entries_text es) ≡ b.cur + length (dict_text es) = omega arith in
      rw (
        long,
        Ahead-head b 100 (entries_text es ++ rest) a₁,
        dict_loop-entries es (length b.mem) s s' (advance 1 b) rest h all
            (Ahead-advance b (100 ∷ []) (entries_text es ++ rest) a₁),
        e,
      )
    where
      entries_nonempty : (es : List (ℕ × ℕ)) → 0 < length (entries_text es)
      entries_nonempty [] = omega arith
      entries_nonempty ((k, x) ∷ es) = omega (
        arith,
        length-append (entry_text k x) (entries_text es),
        length-append (string_text (k ∷ [])) (int_text x),
      )
