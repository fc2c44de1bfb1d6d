-- ===== src/Path/BuildStatus.antt =====
-- Path::HandleLRSM of path.cpp: what the routers of a path answered to its build.
use Prim.Native.Nat.{bit_and}
use bittoro_network.Prelude.{ℕ, List, [], ◌∷◌, Option, none, some, Bool, ◌==◌, if◌then◌else◌, ◌>>=◌}
use bittoro_network.Path.Hop.{PathHopConfig}
use bittoro_network.Path.Status.{
  OwnPath, path_failed, Event, marked_path_fail, marked_hop_fail, Env, enter_state,
}
use bittoro_network.Path.Handlers.{handle_path_confirm}

abbrev pub status_success : ℕ
status_success = 1

abbrev pub status_fail_decrypt_error : ℕ
status_fail_decrypt_error = 16

abbrev pub status_fail_malformed_record : ℕ
status_fail_malformed_record = 32

-- What the frame of a hop holds, under its shared secret
pub data Frame : Type 0 where
  undecryptable : Frame
  malformed : Frame
  status_record : ℕ → Frame

abbrev pub succeeded : ℕ → Bool
succeeded status = bit_and status status_success == status_success

-- The router that is blamed when a hop reports a failure: the next one, if there is one
abbrev pub next_or : PathHopConfig → List PathHopConfig → ℕ
next_or h [] = h.rc.pubkey
next_or h (k ∷ rest) = k.rc.pubkey

-- HandleLRSM: the loop over the hops, for the last status and who is blamed. A hop for which the
-- message has no frame is read past the end of the frames.
unfoldable pub read_frames : ℕ → List PathHopConfig → List Frame → Option (ℕ × Option ℕ)
read_frames status [] frames = some (status, none)
read_frames status (h ∷ rest) [] = none
read_frames status (h ∷ rest) (undecryptable ∷ frames) =
    some (status_fail_decrypt_error, some h.rc.pubkey)
read_frames status (h ∷ rest) (malformed ∷ frames) =
    some (status_fail_malformed_record, some h.rc.pubkey)
read_frames status (h ∷ rest) (status_record s ∷ frames) =
    let more = read_frames s rest frames in
    if succeeded s then more else some (s, some (next_or h rest))

abbrev pub blame : Option ℕ → Event
blame none = marked_path_fail
blame (some router) = marked_hop_fail router

-- Path::HandleLRSM. The logic thread does what it is given in this order.
unfoldable pub handle_lrsm : Env → ℕ → List Frame → OwnPath → Option (List Event × OwnPath)
handle_lrsm env status frames p = read_frames status p.hops frames >>= λ (r : ℕ × Option ℕ).
    if succeeded r.0
    then (let (ok, told, q) = handle_path_confirm env p in some (told, q))
    else (let (told, q) = enter_state path_failed env.now p in some (blame r.1 ∷ told, q))
