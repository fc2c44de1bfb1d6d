-- ===== src/Util/DecayingHashSet.antt =====
-- llarp/util/decaying_hashset.hpp. Values are named by numbers; `now` is the argument, or what
-- time_now_ms() returns where the argument is 0.
use bittoro_network.Prelude.{
  ℕ, ◌+◌, ◌%◌, ◌^◌, ◌<◌, ◌≡◌, refl, inl, inr, List, Option, none, some, Bool, true, false, leb, ltb,
  ◌==◌, if◌then◌else◌, arith, Option-cases,
}
use bittoro_network.Prelude.Assoc.{find, emplace, erase_if, find-erase_if-none}

pub record DecayingHashSet : Type 0 where
  pub cache_interval : ℕ
  pub values : List (ℕ × ℕ)

abbrev pub has : Option ℕ → Bool
has none = false
has (some at) = true

-- DecayingHashSet::Contains
unfoldable pub contains : ℕ → DecayingHashSet → Bool
contains v s = has (find v s.values)

-- now == 0 ? time_now_ms() : now
abbrev pub at_now : ℕ → ℕ → ℕ
at_now clock now = if now == 0 then clock else now

-- DecayingHashSet::Insert
unfoldable pub insert : ℕ → ℕ → ℕ → DecayingHashSet → Bool × DecayingHashSet
insert clock v now s =
    let until = (at_now clock now + s.cache_interval) % 2 ^ 64 in
    (
      elim (find v s.values) [ none ↦ true | some at ↦ false ],
      record s { values = emplace v until s.values },
    )

-- DecayingHashSet::Decay
unfoldable pub decay : ℕ → ℕ → DecayingHashSet → DecayingHashSet
decay clock now s = record s { values = erase_if (λ v at. leb at (at_now clock now)) s.values }

contains-none : (v : ℕ) (s : DecayingHashSet) → contains v s ≡ false → find v s.values ≡ none
unfolding contains
contains-none v s h = elim (Option-cases (find v s.values)) [
  | inl e ↦ e
  | inr (at, e) ↦ absurd (let t : has (some at) ≡ false = rw e at h in cc)
]

pub insert_new :
    (clock v now : ℕ) (s : DecayingHashSet) → contains v s ≡ false → (insert clock v now s).0 ≡ true
unfolding insert
insert_new clock v now s h = rw (insert, contains-none v s h) refl

find-erase_if-emplace :
    (p : ℕ → ℕ → Bool) (v until : ℕ) (m : List (ℕ × ℕ))
    → find v m ≡ none
    → find v (erase_if p (emplace v until m)) ≡ (if p v until then none else some until)
unfolding emplace
find-erase_if-emplace p v until m h =
    rw (emplace, h) (unfold erase_if find in ground (arith, find-erase_if-none p v m h))

-- A value that is not in the set is inserted, and after one decay it is there exactly if the decay
-- comes before the end of its interval, as long as that end fits in 64 bits.
pub contains-decay-insert :
    (clock v now clock' later : ℕ) (s : DecayingHashSet)
    → contains v s ≡ false
    → at_now clock now + s.cache_interval < 2 ^ 64
    → ((insert clock v now s).0 ≡ true)
      × (contains v (decay clock' later (insert clock v now s).1)
          ≡ ltb (at_now clock' later) (at_now clock now + s.cache_interval))
unfolding contains insert decay
contains-decay-insert clock v now clock' later s new fits =
    let absent = contains-none v s new in
    let wrap : (at_now clock now + s.cache_interval) % 2 ^ 64
        ≡ at_now clock now + s.cache_interval =
      omega arith in
    let kept =
      find-erase_if-emplace (λ w at. leb at (at_now clock' later)) v
        (at_now clock now + s.cache_interval) s.values absent in
    (rw (insert, absent) refl, rw (insert, decay, wrap, kept) (ground arith))
