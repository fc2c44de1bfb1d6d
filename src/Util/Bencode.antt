-- ===== src/Util/Bencode.antt =====
-- llarp/util/bencode.cpp and bencode.hpp. A function that returns false gives false, or none for its
-- result; the outer `none` is a read outside of the buffer.
pub mod Roundtrip
pub mod Dicts
use bittoro_network.Prelude.{
  ℕ, zero, suc, ◌+◌, ◌-◌, List, [], ◌∷◌, ◌++◌, Option, none, some, Bool, true, false, ltb, leb,
  ◌==◌, if◌then◌else◌, length, get_elem?, ◌>>=◌,
}
use bittoro_network.Prelude.Bytes.{slice}
use bittoro_network.Util.Buffer.{Buffer, advance, size_left, write, writef, read_until, equals}
use bittoro_network.Util.Numerals.{decimal, strtoull, atoi}

-- The second writer runs if the first succeeds.
unfoldable pub and_then :
    (Buffer → Bool × Buffer) → (Buffer → Bool × Buffer) → Buffer → Bool × Buffer
and_then f g b = let r = f b in if r.0 then g r.1 else (false, r.1)

-- bencode_read_integer
unfoldable pub read_integer : Buffer → Option (Option ℕ × Buffer)
read_integer b = get_elem? b.mem b.cur >>= λ c.
    if c == 105
    then (read_until 101 31 (advance 1 b) >>= λ r.
        if (r.0).1 == 0 then some (none, r.1) else some (some (strtoull (r.0).0), advance 1 r.1))
    else some (none, b)

-- bencode_read_string
unfoldable pub read_string : Buffer → Option (Option (List ℕ) × Buffer)
read_string b = read_until 58 9 b >>= λ r.
    let num = atoi (r.0).0 in
    let b' = advance 1 r.1 in
    if (r.0).1 == 0
    then some (none, r.1)
    else if num.0
    then some (none, r.1)
    else if ltb (size_left b') num.1
    then some (none, b')
    else some (some (slice b'.cur num.1 b'.mem), advance num.1 b')

-- bencode_write_bytestring
unfoldable pub write_bytestring : List ℕ → Buffer → Bool × Buffer
write_bytestring bytes = and_then (writef (decimal (length bytes) ++ (58 ∷ []))) (write bytes)

-- bencode_write_uint64
unfoldable pub write_uint64 : ℕ → Buffer → Bool × Buffer
write_uint64 i = and_then (writef (105 ∷ decimal i)) (write (101 ∷ []))

-- bencode_write_uint64_entry, and BEncodeWriteDictInt for a key of one byte
unfoldable pub write_uint64_entry : List ℕ → ℕ → Buffer → Bool × Buffer
write_uint64_entry name i = and_then (write_bytestring name) (write_uint64 i)

-- bencode_start_list
unfoldable pub start_list : Buffer → Bool × Buffer
start_list = write (108 ∷ [])

-- bencode_start_dict
unfoldable pub start_dict : Buffer → Bool × Buffer
start_dict = write (100 ∷ [])

-- bencode_end
unfoldable pub write_end : Buffer → Bool × Buffer
write_end = write (101 ∷ [])

module _ {S : Type 0} where
  -- BEncodeMaybeReadDictInt: the state and the flag `read`
  unfoldable pub maybe_read_dict_int :
      List ℕ → (ℕ → S → S) → List ℕ → S × Bool → Buffer → Option (Bool × (S × Bool) × Buffer)
  maybe_read_dict_int k assign key st b =
      if equals key k
      then (read_integer b >>= λ r. elim r.0 [
        | none ↦ some (false, st, r.1)
        | some i ↦ some (true, (assign i st.0, true), r.1)
      ])
      else some (true, st, b)

  -- The loop of bencode_read_dict, with `sink` as the decoder of a value. Each round moves the
  -- cursor, so more rounds than bytes suffice.
  unfoldable pub dict_loop :
      (List ℕ → S → Buffer → Option (Bool × S × Buffer))
      → ℕ
      → S
      → Buffer
      → Option (Bool × S × Buffer)
  dict_loop sink zero s b = none
  dict_loop sink (suc rounds) s b =
      let next : S → Buffer → Option (Bool × S × Buffer) = dict_loop sink rounds in
      let close : Option (Bool × S × Buffer) =
        (get_elem? b.mem b.cur >>= λ c.
        if c == 101 then some (true, s, advance 1 b) else some (false, s, b)) in
      let entry : Option (Bool × S × Buffer) =
        (read_string b >>= λ r. elim r.0 [
          | none ↦ some (false, s, r.1)
          | some key ↦
              (sink key s r.1 >>= λ t. if t.0 then next t.1 t.2 else some (false, t.1, t.2))
        ]) in
      if size_left b == 0
      then close
      else (get_elem? b.mem b.cur >>= λ c. if c == 101 then close else entry)

  -- bencode_read_dict as bencode_decode_dict calls it
  unfoldable pub decode_dict :
      (List ℕ → S → Buffer → Option (Bool × S × Buffer)) → S → Buffer → Option (Bool × S × Buffer)
  decode_dict sink s b =
      if ltb (size_left b) 2
      then some (false, s, b)
      else (get_elem? b.mem b.cur >>= λ c.
          if c == 100
          then dict_loop sink (suc (length b.mem)) s (advance 1 b)
          else some (false, s, b))
