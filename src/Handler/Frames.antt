-- ===== src/Handler/Frames.antt =====
-- Handle, handlePingFrame, handleFrames and validExceptFrames.
use sdim.Handler.Types.{Calls, Served, Task, conn_task, frames_task}
use sdim.Conn.Types.{Handle, ClientConn, ClientConnWrap}
use sdim.Conn.Ops.{modify_after_ping_success}
use sdim.Base.Maps.{MapOf}
use sdim.Base.Slices.{Usli}
use sdim.Codec.Frame.{Frame, new_pong_frame, ping, conn, send, forward_ack}
use sdim.Engine.Traffic.{Action, go_on, close_conn}
use sdim.Push.Handlers.{encoded}
use sdim.Base.{
  ℕ, String, List, [], ◌∷◌, Option, none, some, if◌then◌else◌, ◌==◌, Bool, true, false, ◌&&◌, not,
  ◌≡◌,
}

abbrev pub filter : {A : Type 0} → (A → Bool) → List A → List A
filter p [] = []
filter p (x ∷ xs) = if p x then x ∷ filter p xs else filter p xs

-- usli.GroupByIt, of a package that is not in the repository: the elements with a key, in order.
pub record GroupByIt (A : Type 0) : Type 0 where
  pub group_by_it : List A → (A → ℕ) → ℕ → List A
  pub group_by_it-key :
      (xs : List A) (key : A → ℕ) (k : ℕ) → group_by_it xs key k ≡ filter (λ x. key x == k) xs

-- What handleFrames returns: an error, or nil once the pool has the task.
pub data Submitted : Type 0 where
  submit_failed : Submitted
  submitted : Task → Submitted

-- The key of a frame: 0 for a ping, 1 for the others.
unfoldable pub ping_or_other : Frame → ℕ
ping_or_other fr = if fr.header.ftype == ping then 0 else 1

-- The test of handleFrames for a login.
unfoldable pub is_login : List Frame → Option Frame
is_login [] = none
is_login (fr ∷ []) = if fr.header.ftype == conn then some fr else none
is_login (fr ∷ fr' ∷ frs) = none

unfoldable pub valid_except_frames : List Frame → Bool
valid_except_frames [] = true
valid_except_frames (fr ∷ frs) =
    let rest = valid_except_frames frs in
    if not (fr.header.ftype == send) && not (fr.header.ftype == forward_ack) then false else rest

-- The answer of Handle to that of handleFrames.
unfoldable pub after_submit :
    {S U I T : Type 0} → Served S U I T × Submitted → Served S U I T × Action × Option Task
after_submit (s, submit_failed) = (s, close_conn, none)
after_submit (s, submitted task) = (s, go_on, some task)

unfoldable pub handle_ping_frame : {S T : Type 0} → Calls S T → Frame → S → S × Bool
handle_ping_frame calls fr io = calls.write io (encoded (new_pong_frame fr.payload))

module _ {S U I T : Type 0} (calls : Calls S T) where
  -- `sn` is the time of the login frame, and `submit` says whether the pool takes a task.
  unfoldable pub handle_frames : List Frame → ℕ → Bool → Served S U I T → Served S U I T × Submitted
  unfolding is_login valid_except_frames
  handle_frames frs sn submit s = elim (is_login frs) [
    | some fr ↦ (s, if submit then submitted (conn_task fr sn) else submit_failed)
    | none ↦
        if valid_except_frames frs
        then (s, if submit then submitted (frames_task frs) else submit_failed)
        else (record s { io = calls.close s.io }, submit_failed)
  ]

  module _ (users : MapOf ClientConnWrap U) (ids : MapOf ClientConn I) (sl : Usli Handle)
      (groups : GroupByIt Frame) (conn_id : String) (now : ℕ) where
    -- One round of the loop over pings: false when the pong could not be written.
    unfoldable pub after_ping :
        Served S U I T → (Served S U I T → Served S U I T × Bool) → S × Bool → Served S U I T × Bool
    after_ping s later (io, true) =
        later (record s { io = io; cm = modify_after_ping_success users ids sl s.cm conn_id now })
    after_ping s later (io, false) = (record s { io = io }, false)

    unfoldable pub handle_pings : List Frame → Served S U I T → Served S U I T × Bool
    unfolding handle_ping_frame after_ping
    handle_pings [] s = (s, true)
    handle_pings (fr ∷ frs) s = after_ping s (handle_pings frs) (handle_ping_frame calls fr s.io)

    unfoldable pub handle_others :
        List Frame → ℕ → Bool → Served S U I T × Bool → Served S U I T × Action × Option Task
    unfolding handle_frames after_submit
    handle_others frs sn submit (s, false) = (s, close_conn, none)
    handle_others [] sn submit (s, true) = (s, go_on, none)
    handle_others (fr ∷ frs) sn submit (s, true) =
        after_submit (handle_frames (fr ∷ frs) sn submit s)

    -- The last part of the answer is the task that the pool has taken.
    unfoldable pub handle :
        Bool → List Frame → ℕ → Bool → Served S U I T → Served S U I T × Action × Option Task
    unfolding handle_frames after_submit handle_pings handle_others ping_or_other is_login
    handle conn_authed frs sn submit s =
        if not conn_authed
        then (elim (is_login frs) [
          | none ↦ (s, close_conn, none)
          | some fr ↦ after_submit (handle_frames frs sn submit s)
        ])
        else handle_others (groups.group_by_it frs ping_or_other 1) sn submit
            (handle_pings (groups.group_by_it frs ping_or_other 0) s)
