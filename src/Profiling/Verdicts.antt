-- ===== src/Profiling/Verdicts.antt =====
-- When a router is good or bad by its profile (llarp/profiling.cpp).
use bittoro_network.Prelude.{
  ℕ, zero, suc, ◌+◌, ◌*◌, ◌/◌, ◌%◌, ◌^◌, ◌<◌, ◌≤◌, ◌≡◌, ◌≢◌, refl, ◌∙◌, ◌↔◌, ◌⊎◌, List, [], ◌∷◌,
  none, some, true, false, ◌==◌, All, arith,
}
use native.Mathlib.Omega.{div_fact, mod_fact}
use bittoro_network.Prelude.Assoc.{find, find-assign}
use bittoro_network.Profiling.{
  RouterProfile, blank, Profiling, check_is_good, mark, mark_hop_fail, mark_hops_fail,
  mark_path_fail,
}

twice : (f s : ℕ) → 0 < f → (1 < s / f) ↔ (f * 2 ≤ s)
twice zero s h = absurd (omega arith)
twice (suc k) s h =
    (λ q. grind (arith, div_fact s k, mod_fact s k), λ q. grind (arith, div_fact s k, mod_fact s k))

-- A router is good by its failures and successes, whose sum fits in 64 bits, exactly if it never
-- failed and was tried successfully or has chances, or if its tries reached the chances and at least
-- twice as many succeeded, or if they did not and one succeeded or the failures are below the chances.
pub check_is_good_lem :
    (fails success chances : ℕ)
    → fails + success < 2 ^ 64
    → (check_is_good fails success chances ≡ true) ↔ (
        ((0 < fails) × (chances ≤ fails + success) × (fails * 2 ≤ success))
        ⊎ (((fails ≡ 0) ⊎ (fails + success < chances)) × ((0 < success) ⊎ (fails < chances))))
unfolding check_is_good
check_is_good_lem fails success chances fits = ground (arith, twice fails success)

-- No hop of a path is `r`.
abbrev pub Absent : ℕ → List ℕ → Type 0
Absent r hops = All (λ h. h ≢ r) hops

find-mark :
    (j r : ℕ) (change : RouterProfile → RouterProfile) (s : Profiling)
    → j ≢ r
    → find r (mark j change s).profiles ≡ find r s.profiles
unfolding mark
find-mark j r change s ne =
    let other : (j == r) ≡ false = ground arith in find-assign j r _ s.profiles ∙ (rw other refl)

find-mark_hops_fail :
    (now r : ℕ) (hops : List ℕ) (s : Profiling)
    → Absent r hops
    → find r (mark_hops_fail now hops s).profiles ≡ find r s.profiles
unfolding mark_hops_fail mark_hop_fail
find-mark_hops_fail now r [] s away = refl
find-mark_hops_fail now r (h ∷ hops) s away =
    find-mark_hops_fail now r hops (mark_hop_fail now h s) away.1 ∙ find-mark h r _ s away.0

-- What m_Profiles[r] reads.
unfoldable pub profile_of : ℕ → Profiling → RouterProfile
profile_of r s = elim (find r s.profiles) [ none ↦ blank | some p ↦ p ]

-- MarkPathFail leaves the profile of a router that is on the path only as its first hop, or not at
-- all, as it was.
pub find-mark_path_fail :
    (now first r : ℕ) (hops : List ℕ) (s : Profiling)
    → Absent r hops
    → find r (mark_path_fail now (first ∷ hops) s).profiles ≡ find r s.profiles
unfolding mark_path_fail
find-mark_path_fail now first r hops s away = find-mark_hops_fail now r hops s away

-- A router whose failed hops are counted below 2 ^ 64 is counted once more by MarkHopFail, whether it
-- had a profile or not, and no other member but the time of its update changes.
pub mark_hop_fail_counts :
    (now r : ℕ) (s : Profiling)
    → (profile_of r s).path_fail_count + 1 < 2 ^ 64
    → find r (mark_hop_fail now r s).profiles
      ≡ some (record (profile_of r s) {
        path_fail_count = (profile_of r s).path_fail_count + 1;
        last_updated = now;
      })
unfolding mark_hop_fail mark profile_of
mark_hop_fail_counts now r s fits =
    let self : (r == r) ≡ true = ground arith in
    let wrap : ((profile_of r s).path_fail_count + 1) % 2 ^ 64
        ≡ (profile_of r s).path_fail_count + 1 =
      omega arith in
    find-assign r r _ s.profiles ∙ (rw (self, wrap) refl)
