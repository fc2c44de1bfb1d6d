-- ===== src/Dns/Name.antt =====
-- DecodeName and EncodeName of llarp/dns/name.cpp, on the bytes of a name. An outer `none` is a read
-- or a write outside of the buffer's memory.
pub mod Roundtrip
use bittoro_network.Prelude.{
  ℕ, zero, suc, ◌+◌, ◌≡◌, List, [], ◌∷◌, ◌++◌, Option, none, some, Bool, true, false, ltb, ◌==◌,
  if◌then◌else◌, length, get_elem?, ◌>>=◌,
}
use bittoro_network.Prelude.Bytes.{write_at, slice}
use bittoro_network.Util.Buffer.{Buffer, advance, size_left}

-- name.substr(0, name.find_last_of('.')), and nothing where there is no dot
abbrev pub before_last_dot : List ℕ → Option (List ℕ)
before_last_dot [] = none
before_last_dot (c ∷ cs) = elim (before_last_dot cs) as (λ r. Option (List ℕ)) [
  | some r ↦ some (c ∷ r)
  | none ↦ if c == 46 then some [] else none
]

abbrev pub trim_with : List ℕ → Option (List ℕ) → List ℕ
trim_with name (some short) = short
trim_with name none = name

abbrev pub trim_dot : List ℕ → List ℕ
trim_dot name = trim_with name (before_last_dot name)

-- The loop of DecodeName, for so many rounds: false, or the labels with a dot behind each.
unfoldable pub decode_loop : ℕ → Buffer → Option (Option (List ℕ) × Buffer)
decode_loop zero b = none
decode_loop (suc rounds) b =
    let again : Buffer → Option (Option (List ℕ) × Buffer) = decode_loop rounds in
    get_elem? b.mem b.cur >>= λ l.
    let b' = advance 1 b in
    if l == 0
    then some (some [], b')
    else if ltb 63 l
    then some (none, b')
    else if ltb (size_left b') l
    then some (none, b')
    else (again (advance l b') >>= λ r.
        some ((r.0 >>= λ name. some (slice b'.cur l b.mem ++ (46 ∷ name))), r.1))

-- DecodeName
unfoldable pub decode_name : ℕ → Bool → Buffer → Option (Option (List ℕ) × Buffer)
decode_name rounds trim b =
    if ltb (size_left b) 1
    then some (none, b)
    else (decode_loop rounds b >>= λ r.
        some ((r.0 >>= λ name. some (if trim then trim_dot name else name)), r.1))

-- The name without its final dot.
abbrev pub strip_dot : List ℕ → List ℕ
strip_dot [] = []
strip_dot (c ∷ []) = if c == 46 then [] else c ∷ []
strip_dot (c ∷ d ∷ cs) = c ∷ strip_dot (d ∷ cs)

abbrev pub last_part : List ℕ → List (List ℕ)
last_part [] = []
last_part (c ∷ cs) = (c ∷ cs) ∷ []

-- What std::getline reads one after another, up to dots: no empty part is read at the end.
abbrev pub parts_from : List ℕ → List ℕ → List (List ℕ)
parts_from acc [] = last_part acc
parts_from acc (c ∷ cs) =
    if c == 46 then acc ∷ parts_from [] cs else parts_from (acc ++ (c ∷ [])) cs

-- *buf->cur = c; buf->cur++
unfoldable pub poke : ℕ → Buffer → Option Buffer
poke c b =
    if ltb b.cur (length b.mem)
    then some (record { mem = write_at b.cur (c ∷ []) b.mem; cur = b.cur + 1 })
    else none

-- The end of a name.
abbrev pub terminate : Buffer → Option (Bool × Buffer)
terminate b = poke 0 b >>= λ b'. some (true, b')

-- The loop of EncodeName.
unfoldable pub encode_parts : List (List ℕ) → Buffer → Option (Bool × Buffer)
encode_parts [] b = terminate b
encode_parts (part ∷ parts) b =
    let rest : Buffer → Option (Bool × Buffer) = encode_parts parts in
    let l = length part in
    if ltb 63 l
    then some (false, b)
    else (poke l b >>= λ b'.
        if ltb (size_left b') l
        then some (false, b')
        else if l == 0
        then terminate b'
        else rest (record { mem = write_at b'.cur part b'.mem; cur = b'.cur + l }))

-- EncodeName
unfoldable pub encode_name : List ℕ → Buffer → Option (Bool × Buffer)
encode_name name b = encode_parts (parts_from [] (strip_dot name)) b
