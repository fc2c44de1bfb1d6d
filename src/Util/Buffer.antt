-- ===== src/Util/Buffer.antt =====
-- llarp_buffer_t of llarp/util/buffer.hpp and buffer.cpp.
-- `mem` is the memory from `base` on, `sz` bytes of it, and `cur` the distance of the cursor from
-- `base`. `none` is a read outside of the memory.
pub mod Reads
pub mod Writes
pub mod Keys
use bittoro_network.Prelude.{
  ℕ, zero, suc, ◌+◌, ◌-◌, ◌%◌, ◌^◌, ◌*◌, List, [], ◌∷◌, ◌++◌, Option, none, some, Bool, true, false,
  ltb, leb, ◌==◌, if◌then◌else◌, length, get_elem?, take, ◌>>=◌,
}
use bittoro_network.Prelude.Bytes.{write_at, slice, be_bytes, be_value}

pub record Buffer : Type 0 where
  pub mem : List ℕ
  pub cur : ℕ

-- llarp_buffer_t(t), of a container
abbrev pub over : List ℕ → Buffer
over xs = record { mem = xs; cur = 0 }

-- cur += n
abbrev pub advance : ℕ → Buffer → Buffer
advance n b = record b { cur = b.cur + n }

-- llarp_buffer_t::size_left
unfoldable pub size_left : Buffer → ℕ
size_left b = if ltb (length b.mem) b.cur then 0 else length b.mem - b.cur

-- llarp_buffer_t::write
unfoldable pub write : List ℕ → Buffer → Bool × Buffer
write bs b =
    if leb (length bs) (size_left b)
    then (true, record { mem = write_at b.cur bs b.mem; cur = b.cur + length bs })
    else (false, b)

-- llarp_buffer_t::writef, of the text that the format gives. vsnprintf takes the room with the
-- final NUL for what it may write, and returns the length of the text.
unfoldable pub writef : List ℕ → Buffer → Bool × Buffer
writef text b =
    let room = size_left b in
    let stored =
      if room == 0 then b.mem else write_at b.cur (take (room - 1) text ++ (0 ∷ [])) b.mem in
    let b' = record b { mem = stored } in
    if length text == 0
    then (false, b')
    else if ltb room (length text)
    then (false, b')
    else (true, record b' { cur = b.cur + length text })

-- llarp_buffer_t::put_uint16, put_uint32 and put_uint64, of `n` bytes
unfoldable pub put_uint : ℕ → ℕ → Buffer → Bool × Buffer
put_uint n i b =
    if ltb (size_left b) n
    then (false, b)
    else (true, record { mem = write_at b.cur (be_bytes n i) b.mem; cur = b.cur + n })

-- llarp_buffer_t::read_uint16, read_uint32 and read_uint64, of `n` bytes
unfoldable pub read_uint : ℕ → Buffer → Option ℕ × Buffer
read_uint n b =
    if ltb (size_left b) n then (none, b) else (some (be_value (slice b.cur n b.mem)), advance n b)

-- llarp_buffer_t::read_into, of `n` bytes
unfoldable pub read_into : ℕ → Buffer → Option (List ℕ) × Buffer
read_into n b = if leb n (size_left b) then (some (slice b.cur n b.mem), advance n b) else (none, b)

-- The loop of read_until.
unfoldable pub scan : ℕ → ℕ → Buffer → Option (List ℕ × Buffer)
scan delim zero b =
    if b.cur == length b.mem then some ([], b) else (get_elem? b.mem b.cur >>= λ c. some ([], b))
scan delim (suc room) b =
    let rest = scan delim room (advance 1 b) in
    if b.cur == length b.mem
    then some ([], b)
    else (get_elem? b.mem b.cur >>= λ c.
        if c == delim then some ([], b) else (rest >>= λ r. some (c ∷ r.0, r.1)))

-- llarp_buffer_t::read_until: the bytes stored, and how many the caller is told of.
unfoldable pub read_until : ℕ → ℕ → Buffer → Option ((List ℕ × ℕ) × Buffer)
read_until delim room b =
    scan delim room b >>= λ r. some ((r.0, if size_left (r.1) == 0 then 0 else length r.0), r.1)

-- operator==(const llarp_buffer_t&, const char*), of the bytes behind the cursor
unfoldable pub equals : List ℕ → List ℕ → Bool
equals xs [] = true
equals [] (s ∷ str) = false
equals (x ∷ xs) (s ∷ str) = if x == s then equals xs str else false
