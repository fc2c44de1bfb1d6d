-- ===== src/Util/CoDel/Tests.antt =====
-- CoDelQueue of llarp/util/codel.hpp at concrete inputs: an item is its number and its time.
use bittoro_network.Prelude.{ℕ, ◌+◌, ◌≤◌, ◌≡◌, refl, [], ◌∷◌, some, none, false, ltb, arith}
use bittoro_network.Util.CoDel.{CoDelQueue, blank, emplace, process}
use bittoro_network.Util.CoDel.Visits.{
  Holds, emplace_all, empty-Holds, emplace_all-Holds, process-emplace_all,
}
use bittoro_network.Util.CoDel.Filters.{filter_strands}

abbrev Item : Type 0
Item = ℕ × ℕ

abbrev stamp : Item → Item
stamp item = (item.0, item.0 + 1000)

abbrev time_of : Item → ℕ
time_of item = item.1

abbrev raise : ℕ → ℕ → ℕ
raise interval drops = interval + 100

blank-Holds : Holds time_of (blank {T = Item}) []
blank-Holds = empty-Holds time_of raise blank refl refl refl

process-emplace_all_example :
    (q : CoDelQueue Item) × (process time_of raise
        (λ x. false)
        2000
        (emplace_all time_of stamp ((7, 0) ∷ (50, 0) ∷ (900, 0) ∷ []) blank)
      ≡ some ((7, 1007) ∷ (50, 1050) ∷ (900, 1900) ∷ [], q))
    × Holds time_of q []
process-emplace_all_example =
    process-emplace_all time_of raise stamp (λ x. omega arith) blank
      ((7, 0) ∷ (50, 0) ∷ (900, 0) ∷ []) 2000 blank-Holds (omega arith)

abbrev three : CoDelQueue Item
three = emplace_all time_of stamp ((7, 0) ∷ (50, 0) ∷ (900, 0) ∷ []) blank

three-Holds : Holds time_of three ((7, 1007) ∷ (50, 1050) ∷ (900, 1900) ∷ [])
three-Holds =
    emplace_all-Holds time_of stamp (λ x. omega arith) ((7, 0) ∷ (50, 0) ∷ (900, 0) ∷ []) blank []
      blank-Holds

-- The filter takes the items from 50 on.
filter_strands_example :
    (q : CoDelQueue Item) × (process time_of raise (λ item. ltb 49 (item.0)) 2000 three
      ≡ some ((7, 1007) ∷ [], q))
    × (q.queue_idx ≡ 2)
    × ((later : ℕ)
        → q.next_tick_at ≤ later
        → process time_of raise (λ item. ltb 49 (item.0)) later q ≡ none)
unfolding emplace
filter_strands_example =
    filter_strands time_of raise (λ item. ltb 49 (item.0)) 2000 three (7, 1007) [] (50, 1050)
      ((900, 1900) ∷ []) three-Holds (omega arith) (refl, _) refl
