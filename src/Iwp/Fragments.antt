-- ===== src/Iwp/Fragments.antt =====
-- What llarp/iwp/message_buffer.hpp and message_buffer.cpp share between the two directions: the
-- bitset of acks, the loop over fragments and the constants of time of llarp/iwp/session.hpp.
-- `none` is an uncaught std::out_of_range, or an access past the end of the bitset.
pub mod Acks
pub mod Loop
use bittoro_network.Prelude.{
  ℕ, zero, suc, ◌+◌, ◌-◌, ◌*◌, ◌/◌, ◌%◌, ◌^◌, List, [], ◌∷◌, Option, none, some, Bool, true, false,
  ltb, ◌==◌, if◌then◌else◌, length, get_elem?, set,
}
use bittoro_network.Prelude.Bytes.{slice}
use bittoro_network.Iwp.Packet.{fragment_size}

abbrev pub delivery_timeout : ℕ
delivery_timeout = 500

abbrev pub ack_resend_interval : ℕ
ack_resend_interval = delivery_timeout / 2

abbrev pub tx_flush_interval : ℕ
tx_flush_interval = (delivery_timeout / 5) * 4

-- MAX_LINK_MSG_SIZE / FragmentSize, the width of a bitset of acks.
abbrev pub max_fragments : ℕ
max_fragments = 8

-- std::bitset< n >(x), bit 0 first
unfoldable pub bitset : ℕ → ℕ → List Bool
bitset zero x = []
bitset (suc n) x = (x % 2 == 1) ∷ bitset n (x / 2)

-- to_ulong
unfoldable pub to_ulong : List Bool → ℕ
to_ulong [] = 0
to_ulong (b ∷ bs) = (if b then 1 else 0) + 2 * to_ulong bs

-- test(i) throws, and operator[](i) is undefined, past the width.
abbrev pub test : List Bool → ℕ → Option Bool
test = get_elem?

-- set(i) throws past the width.
abbrev pub set_bit : List Bool → ℕ → Option (List Bool)
set_bit bs i = if ltb i (length bs) then some (set bs i true) else none

-- The loop of IsTransmitted and IsCompleted. `next` is the increment of the loop's variable: a
-- uint16_t in the one, a size_t in the other. The test faults at fragment 8, so nine rounds suffice.
unfoldable pub all_acked : (ℕ → ℕ) → ℕ → ℕ → ℕ → List Bool → Option Bool
all_acked next zero idx sz bits = none
all_acked next (suc rounds) idx sz bits =
    let rest = all_acked next rounds (next idx) sz bits in
    let body : Option Bool = elim (test bits (idx / fragment_size)) [
      | none ↦ none
      | some b ↦ if b then rest else some false
    ] in
    if ltb idx sz then body else some true

abbrev pub next16 : ℕ → ℕ
next16 idx = (idx + fragment_size) % 2 ^ 16

abbrev pub next64 : ℕ → ℕ
next64 idx = (idx + fragment_size) % 2 ^ 64

-- The size of the fragment at `idx` of a message of `size` bytes.
abbrev pub fragment_length : ℕ → ℕ → ℕ
fragment_length size idx = if ltb (idx + fragment_size) size then fragment_size else size - idx

-- Fragment number `k` of a message.
abbrev pub fragment : List ℕ → ℕ → List ℕ
fragment src k = slice (k * fragment_size) (fragment_length (length src) (k * fragment_size)) src
