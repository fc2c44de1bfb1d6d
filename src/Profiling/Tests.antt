-- ===== src/Profiling/Tests.antt =====
-- Profiles at concrete inputs.
use bittoro_network.Prelude.{
  ℕ, ◌+◌, ◌*◌, ◌<◌, ◌≤◌, ◌≡◌, ◌↔◌, ◌⊎◌, [], ◌∷◌, some, true, false, replicate, arith,
}
use bittoro_network.Prelude.Assoc.{find}
use bittoro_network.Util.Buffer.{Buffer, over}
use bittoro_network.Util.Numerals.{decimal_from}
use bittoro_network.Util.Bencode.{decode_dict}
use bittoro_network.Profiling.{
  RouterProfile, Profiling, bencode, decode_key, blank, check_is_good, mark_path_fail,
}
use bittoro_network.Profiling.Records.{Fits, decode_dict-bencode}
use bittoro_network.Profiling.Verdicts.{check_is_good_lem, find-mark_path_fail}

abbrev seen : RouterProfile
seen = record {
  connect_timeout_count = 3;
  connect_good_count = 12;
  path_success_count = 40;
  path_fail_count = 2;
  last_updated = 1000;
  last_decay = 900;
  version = 0;
}

seen-Fits : Fits seen
seen-Fits = record {
  timeouts = omega arith;
  goods = omega arith;
  successes = omega arith;
  fails = omega arith;
  updated = omega arith;
  numbered = omega arith;
}

decode_dict-bencode_example :
    (b' : Buffer) × (bencode seen (over (replicate 256 0)) ≡ (true, b'))
    × (decode_dict decode_key blank (record b' { cur = 0 })
        ≡ some (true, record seen { last_decay = 0 }, b'))
unfolding decimal_from
decode_dict-bencode_example =
    decode_dict-bencode (over (replicate 256 0)) seen seen-Fits (omega arith)

check_is_good_example : (check_is_good 3 6 8 ≡ true) ↔ (
    ((0 < 3) × (8 ≤ 3 + 6) × (3 * 2 ≤ 6))
    ⊎ (((◌≡◌ {A = ℕ} 3 0) ⊎ (3 + 6 < 8)) × ((0 < 6) ⊎ (3 < 8))))
check_is_good_example = check_is_good_lem 3 6 8 (omega arith)

abbrev known : Profiling
known = record { profiles = (5, seen) ∷ []; last_save = 0; disabled = false }

find-mark_path_fail_example :
    find 5 (mark_path_fail 2000 (5 ∷ 6 ∷ 7 ∷ []) known).profiles ≡ find 5 known.profiles
find-mark_path_fail_example =
    find-mark_path_fail 2000 5 5 (6 ∷ 7 ∷ []) known (omega arith, (omega arith, tt))
