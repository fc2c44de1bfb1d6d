-- ===== src/Path/Blame.antt =====
-- Path::HandleLRSM of path.cpp: who is blamed for a build that failed.
use bittoro_network.Prelude.{
  ℕ, ◌≡◌, ◌≢◌, refl, List, [], ◌∷◌, ◌++◌, map, none, some, Bool, true, false, if◌then◌else◌, All,
  length, inl, inr, Bool-cases, arith,
}
use mathlib.Core.List.{append-nil}
use bittoro_network.Path.Hop.{PathHopConfig}
use bittoro_network.Path.Status.{
  OwnPath, path_failed, Event, marked_hop_fail, build_failed, Env, enter_state,
}
use bittoro_network.Path.Handlers.{handle_path_confirm}
use bittoro_network.Path.BuildStatus.{
  Frame, undecryptable, malformed, status_record, succeeded, read_frames, handle_lrsm,
}

-- Does the answer of a hop end the reading?
abbrev pub fails : Frame → Bool
fails undecryptable = true
fails malformed = true
fails (status_record s) = if succeeded s then false else true

-- Who is to blame for it
abbrev pub culprit : Frame → PathHopConfig → List PathHopConfig → ℕ
culprit undecryptable h rest = h.rc.pubkey
culprit malformed h rest = h.rc.pubkey
culprit (status_record s) h [] = h.rc.pubkey
culprit (status_record s) h (k ∷ rest) = k.rc.pubkey

abbrev pub AllSucceed : List ℕ → Type 0
AllSucceed statuses = All (λ s. succeeded s ≡ true) statuses

not_succeeded : (s : ℕ) → fails (status_record s) ≡ true → succeeded s ≡ false
not_succeeded s bad = elim (Bool-cases (succeeded s)) [
  | inl e ↦ absurd (let t : false ≡ true = rw e at bad in cc)
  | inr e ↦ e
]

read_frames-failure :
    (status : ℕ) (before : List PathHopConfig) (h : PathHopConfig) (rest : List PathHopConfig)
    (statuses : List ℕ) (f : Frame) (frames : List Frame)
    → length statuses ≡ length before
    → AllSucceed statuses
    → fails f ≡ true
    → (s : ℕ) × (succeeded s ≡ false)
      × (read_frames status (before ++ (h ∷ rest)) (map status_record statuses ++ (f ∷ frames))
          ≡ some (s, some (culprit f h rest)))
unfolding read_frames
read_frames-failure status [] h rest [] undecryptable frames e ok bad = (16, refl, refl)
read_frames-failure status [] h rest [] malformed frames e ok bad = (32, refl, refl)
read_frames-failure status [] h [] [] (status_record s) frames e ok bad =
    let failed : succeeded s ≡ false = not_succeeded s bad in (s, failed, rw failed refl)
read_frames-failure status [] h (k ∷ rest) [] (status_record s) frames e ok bad =
    let failed : succeeded s ≡ false = not_succeeded s bad in (s, failed, rw failed refl)
read_frames-failure status [] h rest (s ∷ statuses) f frames e ok bad = absurd (omega (arith, e))
read_frames-failure status (b ∷ before) h rest [] f frames e ok bad = absurd (omega (arith, e))
read_frames-failure status (b ∷ before) h rest (s ∷ statuses) f frames e ok bad =
    rw (ok.0) (read_frames-failure s before h rest statuses f frames (omega (arith, e)) ok.1 bad)

read_frames-success :
    (status : ℕ) (hops : List PathHopConfig) (statuses : List ℕ) (frames : List Frame)
    → length statuses ≡ length hops
    → AllSucceed statuses
    → succeeded status ≡ true
    → (s : ℕ) × (succeeded s ≡ true)
      × (read_frames status hops (map status_record statuses ++ frames) ≡ some (s, none))
unfolding read_frames
read_frames-success status [] [] frames e ok first = (status, first, refl)
read_frames-success status [] (s ∷ statuses) frames e ok first = absurd (omega (arith, e))
read_frames-success status (h ∷ hops) [] frames e ok first = absurd (omega (arith, e))
read_frames-success status (h ∷ hops) (s ∷ statuses) frames e ok first =
    rw (ok.0) (read_frames-success s hops statuses frames (omega (arith, e)) ok.1 ok.0)

read_all :
    (status : ℕ) (h : PathHopConfig) (rest : List PathHopConfig) (statuses : List ℕ)
    (frames : List Frame)
    → length statuses ≡ length (h ∷ rest)
    → AllSucceed statuses
    → (s : ℕ) × (succeeded s ≡ true)
      × (read_frames status (h ∷ rest) (map status_record statuses ++ frames) ≡ some (s, none))
unfolding read_frames
read_all status h rest [] frames e ok = absurd (omega (arith, e))
read_all status h rest (s ∷ statuses) frames e ok =
    rw (ok.0) (read_frames-success s rest statuses frames (omega (arith, e)) ok.1 ok.0)

-- The end of a build after whose hops one that fails is left, or none
abbrev pub outcome : Env → OwnPath → Frame → List PathHopConfig → List Event × OwnPath
outcome env p f [] = ((handle_path_confirm env p).1, (handle_path_confirm env p).2)
outcome env p f (h ∷ rest) =
    (marked_hop_fail (culprit f h rest) ∷ (build_failed ∷ []), record p { status = path_failed })

-- A path with a hop gets a build status in which the first hops, as many as there are statuses,
-- report success, and the frame behind them is a failure: it does not decrypt, is malformed, or
-- reports no success. If a hop is left for that frame, the path fails, the PathSet is told so,
-- and one router is marked in the profiling: the hop of the frame, or, for a report of no
-- success, the hop behind it, if there is one. If no hop is left, the path does what a
-- confirmed path does.
pub handle_lrsm-outcome :
    (env : Env) (status : ℕ) (p : OwnPath) (before after : List PathHopConfig) (statuses : List ℕ)
    (f : Frame) (frames : List Frame)
    → p.hops ≡ before ++ after
    → length (before ++ after) ≢ 0
    → length statuses ≡ length before
    → AllSucceed statuses
    → fails f ≡ true
    → handle_lrsm env status (map status_record statuses ++ (f ∷ frames)) p
      ≡ some (outcome env p f after)
unfolding handle_lrsm enter_state
handle_lrsm-outcome env status p before (h ∷ rest) statuses f frames hops any same ok bad =
    let (s, failed, read) =
      read_frames-failure status before h rest statuses f frames same ok bad in
    rw (hops, read, failed) refl
handle_lrsm-outcome env status p [] [] statuses f frames hops any same ok bad = absurd (any refl)
handle_lrsm-outcome env status p (b ∷ before) [] statuses f frames hops any same ok bad =
    let (s, fine, read) = read_all status b before statuses (f ∷ frames) same ok in
    rw (hops, append-nil (b ∷ before), read, fine) refl
