-- ===== src/Profiling.antt =====
-- RouterProfile and Profiling of llarp/profiling.hpp and profiling.cpp.
-- Counters are 64-bit. A RouterID is a number, and `now` is what time_now_ms() returns.
pub mod Records
pub mod Verdicts
mod Tests
use bittoro_network.Prelude.{
  sub64, ℕ, zero, suc, ◌+◌, ◌-◌, ◌*◌, ◌/◌, ◌%◌, ◌^◌, List, [], ◌∷◌, Option, none, some, Bool, true,
  false, ◌&&◌, not, ltb, leb, ◌==◌, if◌then◌else◌, length, ◌>>=◌,
}
use bittoro_network.Prelude.Assoc.{find, erase, assign, update_all}
use bittoro_network.Util.Buffer.{Buffer}
use bittoro_network.Util.Bencode.{and_then, start_dict, maybe_read_dict_int}
use bittoro_network.Util.Bencode.Dicts.{write_entries}

pub record RouterProfile : Type 0 where
  pub connect_timeout_count : ℕ
  pub connect_good_count : ℕ
  pub path_success_count : ℕ
  pub path_fail_count : ℕ
  pub last_updated : ℕ
  pub last_decay : ℕ
  pub version : ℕ

-- RouterProfile{}
abbrev pub blank : RouterProfile
blank = record {
  connect_timeout_count = 0;
  connect_good_count = 0;
  path_success_count = 0;
  path_fail_count = 0;
  last_updated = 0;
  last_decay = 0;
  version = 0;
}

-- RouterProfile::BEncode
unfoldable pub bencode : RouterProfile → Buffer → Bool × Buffer
bencode p = and_then start_dict (
    write_entries (
      (103, p.connect_good_count)
      ∷ (112, p.path_success_count)
      ∷ (115, p.path_fail_count)
      ∷ (116, p.connect_timeout_count)
      ∷ (117, p.last_updated)
      ∷ (118, p.version)
      ∷ []))

-- The keys in the order in which DecodeKey tries them, with the members that they set.
abbrev pub members : List (ℕ × (ℕ → RouterProfile → RouterProfile))
members =
    (103, λ x p. record p { connect_good_count = x })
    ∷ (116, λ x p. record p { connect_timeout_count = x })
    ∷ (117, λ x p. record p { last_updated = x })
    ∷ (118, λ x p. record p { version = x })
    ∷ (115, λ x p. record p { path_fail_count = x })
    ∷ (112, λ x p. record p { path_success_count = x })
    ∷ []

-- One BEncodeMaybeReadDictInt after another, until one fails.
unfoldable pub decode_members :
    List (ℕ × (ℕ → RouterProfile → RouterProfile))
    → List ℕ
    → RouterProfile × Bool
    → Buffer
    → Option (Bool × (RouterProfile × Bool) × Buffer)
decode_members [] key st b = some (true, st, b)
decode_members ((k, set) ∷ ks) key st b = maybe_read_dict_int (k ∷ []) set key st b >>= λ r.
    if r.0 then decode_members ks key r.1 r.2 else some r

-- RouterProfile::DecodeKey
unfoldable pub decode_key : List ℕ → RouterProfile → Buffer → Option (Bool × RouterProfile × Buffer)
decode_key key p b =
    decode_members members key (p, false) b >>= λ r. some (r.0 && (r.1).1, (r.1).0, r.2)

-- RouterProfile::Decay
unfoldable pub decay : ℕ → RouterProfile → RouterProfile
decay now p = record p {
  connect_good_count = p.connect_good_count / 2;
  connect_timeout_count = p.connect_timeout_count / 2;
  path_success_count = p.path_success_count / 2;
  path_fail_count = p.path_fail_count / 2;
  last_decay = now;
}

-- RouterProfile::Tick, with updateInterval
unfoldable pub tick_profile : ℕ → RouterProfile → RouterProfile
unfolding decay
tick_profile now p =
    if ltb p.last_decay now && ltb 15000 (sub64 now p.last_decay) then decay now p else p

-- RouterProfile::IsGood
unfoldable pub is_good : ℕ → RouterProfile → Bool
is_good chances p =
    let paths = ltb p.path_fail_count ((p.path_success_count * chances) % 2 ^ 64) in
    if ltb chances p.connect_timeout_count
    then ltb p.connect_timeout_count p.connect_good_count && paths
    else paths

-- checkIsGood
unfoldable pub check_is_good : ℕ → ℕ → ℕ → Bool
check_is_good fails success chances =
    if ltb 0 fails && leb chances ((fails + success) % 2 ^ 64)
    then ltb 1 (success / fails)
    else if success == 0
    then ltb fails chances
    else true

-- RouterProfile::IsGoodForConnect
unfoldable pub is_good_for_connect : ℕ → RouterProfile → Bool
is_good_for_connect chances p = check_is_good p.connect_timeout_count p.connect_good_count chances

-- RouterProfile::IsGoodForPath
unfoldable pub is_good_for_path : ℕ → RouterProfile → Bool
is_good_for_path chances p = check_is_good p.path_fail_count p.path_success_count chances

pub record Profiling : Type 0 where
  pub profiles : List (ℕ × RouterProfile)
  pub last_save : ℕ
  pub disabled : Bool

-- Profiling::Disable and Profiling::Enable
unfoldable pub set_disabled : Bool → Profiling → Profiling
set_disabled d s = record s { disabled = d }

-- Profiling::IsBad, IsBadForConnect and IsBadForPath, for one of the tests above
unfoldable pub is_bad_by : (ℕ → RouterProfile → Bool) → ℕ → ℕ → Profiling → Bool
is_bad_by good r chances s =
    if s.disabled
    then false
    else elim (find r s.profiles) [ none ↦ false | some p ↦ not (good chances p) ]

-- Profiling::Tick
unfoldable pub tick : ℕ → Profiling → Profiling
tick now s = record s { profiles = update_all (tick_profile now) s.profiles }

-- m_Profiles[r], which makes a blank profile where there is none, then a change of it
unfoldable pub mark : ℕ → (RouterProfile → RouterProfile) → Profiling → Profiling
mark r change s =
    let p : RouterProfile = elim (find r s.profiles) [ none ↦ blank | some p ↦ p ] in
    record s { profiles = assign r (change p) s.profiles }

-- Profiling::MarkConnectTimeout
unfoldable pub mark_connect_timeout : ℕ → ℕ → Profiling → Profiling
mark_connect_timeout now r = mark r (λ p. record p {
  connect_timeout_count = (p.connect_timeout_count + 1) % 2 ^ 64;
  last_updated = now;
})

-- Profiling::MarkConnectSuccess
unfoldable pub mark_connect_success : ℕ → ℕ → Profiling → Profiling
mark_connect_success now r =
    mark r (λ p. record p {
      connect_good_count = (p.connect_good_count + 1) % 2 ^ 64;
      last_updated = now;
    })

-- Profiling::ClearProfile
unfoldable pub clear_profile : ℕ → Profiling → Profiling
clear_profile r s = record s { profiles = erase r s.profiles }

-- Profiling::MarkHopFail
unfoldable pub mark_hop_fail : ℕ → ℕ → Profiling → Profiling
mark_hop_fail now r =
    mark r
      (λ p. record p { path_fail_count = (p.path_fail_count + 1) % 2 ^ 64; last_updated = now })

-- The loop of MarkPathFail behind the first hop.
unfoldable pub mark_hops_fail : ℕ → List ℕ → Profiling → Profiling
mark_hops_fail now [] s = s
mark_hops_fail now (r ∷ hops) s = mark_hops_fail now hops (mark_hop_fail now r s)

-- Profiling::MarkPathFail: the first hop is not marked.
unfoldable pub mark_path_fail : ℕ → List ℕ → Profiling → Profiling
mark_path_fail now [] s = s
mark_path_fail now (r ∷ hops) s = mark_hops_fail now hops s

-- The loop of MarkPathSuccess.
unfoldable pub mark_hops_success : ℕ → ℕ → List ℕ → Profiling → Profiling
mark_hops_success now sz [] s = s
mark_hops_success now sz (r ∷ hops) s = mark_hops_success now sz hops (
    mark r
      (λ p. record p {
        path_success_count = (p.path_success_count + sz) % 2 ^ 64;
        last_updated = now;
      })
      s)

-- Profiling::MarkPathSuccess
unfoldable pub mark_path_success : ℕ → List ℕ → Profiling → Profiling
mark_path_success now hops s = mark_hops_success now (length hops) hops s

-- Profiling::ShouldSave
unfoldable pub should_save : ℕ → Profiling → Bool
should_save now s = ltb 60000 (sub64 now s.last_save)
