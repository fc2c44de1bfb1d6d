-- ===== src/Path/Ticks.antt =====
-- Path::Tick of path.cpp, called again and again on a path that hears nothing of its build.
use bittoro_network.Prelude.{
  ℕ, ◌+◌, ◌<◌, ◌^◌, ◌≡◌, ◌≢◌, refl, List, [], ◌∷◌, ◌++◌, Bool, true, false, ◌&&◌, ◌||◌, leb,
  if◌then◌else◌, inl, inr, Bool-cases, All, sub64, arith,
}
use bittoro_network.Path.Status.{
  OwnPath, path_building, path_expired, Event, marked_path_fail, build_timeout, Env, expired,
  enter_state,
}
use bittoro_network.Util.DecayingHashSet
use bittoro_network.Path.Work.{not_equal}
use bittoro_network.Path.Timers.{tick, tick_building, give_up}

-- The calls of Tick at some times, with what the path asks for and becomes
unfoldable pub run_ticks : List (Env × ℕ) → OwnPath → List Event × OwnPath
run_ticks [] p = ([], p)
run_ticks ((env, now) ∷ times) p =
    let (told, q) = tick env now p in let (more, after) = run_ticks times q in (told ++ more, after)

-- Is one of the times path::build_timeout behind the start, or later?
abbrev pub overdue : ℕ → List (Env × ℕ) → Bool
overdue started [] = false
overdue started ((env, now) ∷ times) = leb (started + 30000) now || overdue started times

-- The times fit in 64 bits.
abbrev pub InRange : List (Env × ℕ) → Type 0
InRange times = All (λ t. t.1 < 2 ^ 64) times

late :
    (started now : ℕ)
    → now < 2 ^ 64
    → (leb started now && leb 30000 (sub64 now started)) ≡ leb (started + 30000) now
late started now fits = ground arith

abbrev decayed : Env → ℕ → OwnPath → OwnPath
decayed env now p = record p {
  upstream_filter = DecayingHashSet.decay env.clock now p.upstream_filter;
  downstream_filter = DecayingHashSet.decay env.clock now p.downstream_filter;
}

tick_waits :
    (env : Env) (now : ℕ) (p : OwnPath)
    → p.status ≡ path_building
    → p.build_started ≢ 0
    → now < 2 ^ 64
    → tick env now p ≡ (
        if leb (p.build_started + 30000) now
        then give_up path_expired now (decayed env now p)
        else ([], decayed env now p))
unfolding tick expired tick_building enter_state
tick_waits env now p building started fits =
    rw (building, not_equal p.build_started 0 started, late p.build_started now fits) refl

tick_expired :
    (env : Env) (now : ℕ) (p : OwnPath) → p.status ≡ path_expired → tick env now p ≡ ([], p)
unfolding tick
tick_expired env now p gone =
    let over : expired now p ≡ true = unfold expired in rw gone refl in rw over refl

-- A path that has expired stays as it is.
run_ticks-expired :
    (times : List (Env × ℕ)) (p : OwnPath) → p.status ≡ path_expired → run_ticks times p ≡ ([], p)
unfolding run_ticks
run_ticks-expired [] p gone = refl
run_ticks-expired ((env, now) ∷ times) p gone =
    rw (tick_expired env now p gone) (run_ticks-expired times p gone)

-- A path that is building since a time other than 0 is ticked at any times below 2^64, and hears
-- nothing else. If none of the times is path::build_timeout behind its start or later, it stays
-- building and asks for nothing. If one is, it ends as expired, and over all the ticks the path
-- itself marks a failed path in the profiling once, tells the PathSet of a timeout once, and asks for
-- nothing else; what the PathSet does then is not counted.
pub build_times_out :
    (times : List (Env × ℕ)) (p : OwnPath)
    → p.status ≡ path_building
    → p.build_started ≢ 0
    → InRange times
    → ((run_ticks times p).0
        ≡ (if overdue p.build_started times then marked_path_fail ∷ (build_timeout ∷ []) else []))
      × ((run_ticks times p).1.status
          ≡ (if overdue p.build_started times then path_expired else path_building))
unfolding run_ticks
build_times_out [] p building started fits = (refl, building)
build_times_out ((env, now) ∷ times) p building started (fits, rest) =
    let one = tick_waits env now p building started fits in
    elim (Bool-cases (leb (p.build_started + 30000) now)) [
      | inl over ↦
          let q = (give_up path_expired now (decayed env now p)).1 in
          let told : (enter_state path_expired now (decayed env now p)).0 ≡ build_timeout ∷ [] =
            unfold enter_state in rw building refl in
          let gone : q.status ≡ path_expired = unfold enter_state in refl in
          rw (one, over, run_ticks-expired times q gone, told) (refl, gone)
      | inr early ↦
          rw (one, early) (build_times_out times (decayed env now p) building started rest)
    ]
