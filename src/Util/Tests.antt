-- ===== src/Util/Tests.antt =====
-- Buffers and bencode at concrete inputs.
use bittoro_network.Prelude.{
  ℕ, ◌≡◌, refl, List, [], ◌∷◌, some, true, get_elem?, replicate, arith, false, ltb, ◌↔◌, ◌++◌,
}
use bittoro_network.Prelude.Assoc.{find}
use bittoro_network.Util.Buffer.{Buffer, over, put_uint, read_uint, size_left, equals}
use bittoro_network.Util.Buffer.Reads.{read_uint-put_uint}
use bittoro_network.Util.Buffer.Keys.{equals_prefix}
use bittoro_network.Util.DecayingHashSet.{
  DecayingHashSet, contains, insert, decay, contains-decay-insert,
}
use bittoro_network.Util.Numerals.{decimal_from}
use bittoro_network.Util.Bencode.{read_integer, read_string, write_uint64, write_bytestring}
use bittoro_network.Util.Bencode.Roundtrip.{
  read_integer-write_uint64, read_string-write_bytestring, write_bytestring_empty,
}

abbrev page : Buffer
page = over (replicate 64 0)

room_of_page : size_left page ≡ 64
unfolding size_left
room_of_page = refl

read_uint-put_uint_example :
    (b' : Buffer) × (put_uint 8 1234567890123 page ≡ (true, b'))
    × (b'.cur ≡ 8)
    × (read_uint 8 (record b' { cur = 0 }) ≡ (some 1234567890123, b'))
read_uint-put_uint_example =
    read_uint-put_uint 8 1234567890123 page (omega arith) (omega arith)
      (omega (arith, room_of_page))

read_integer-write_uint64_example :
    (b' : Buffer) × (write_uint64 42 page ≡ (true, b'))
    × (read_integer (record b' { cur = 0 }) ≡ some (some 42, b'))
unfolding decimal_from
read_integer-write_uint64_example = read_integer-write_uint64 page 42 (omega arith) (omega arith)

read_string-write_bytestring_example :
    (b' : Buffer) × (write_bytestring (1 ∷ 2 ∷ 3 ∷ []) page ≡ (true, b'))
    × (read_string (record b' { cur = 0 }) ≡ some (some (1 ∷ 2 ∷ 3 ∷ []), b'))
unfolding decimal_from
read_string-write_bytestring_example =
    read_string-write_bytestring page (1 ∷ 2 ∷ 3 ∷ []) (omega arith) (omega arith)

write_bytestring_empty_example :
    (b' : Buffer) × (write_bytestring [] (over (7 ∷ 7 ∷ [])) ≡ (true, b'))
    × (get_elem? b'.mem 0 ≡ some 48)
    × (get_elem? b'.mem 1 ≡ some 0)
write_bytestring_empty_example = write_bytestring_empty (over (7 ∷ 7 ∷ [])) refl

equals_prefix_example :
    (equals (103 ∷ 103 ∷ []) (103 ∷ []) ≡ true)
    ↔ ((rest : List ℕ) × (103 ∷ 103 ∷ [] ≡ (103 ∷ []) ++ rest))
equals_prefix_example = equals_prefix (103 ∷ 103 ∷ []) (103 ∷ [])

abbrev empty_set : DecayingHashSet
empty_set = record { cache_interval = 5000; values = [] }

nothing_there : contains 3 empty_set ≡ false
unfolding contains find
nothing_there = refl

contains-decay-insert_example :
    ((insert 100 3 0 empty_set).0 ≡ true)
    × (contains 3 (decay 100 5099 (insert 100 3 0 empty_set).1) ≡ ltb 5099 5100)
contains-decay-insert_example =
    contains-decay-insert 100 3 0 100 5099 empty_set nothing_there (omega arith)
