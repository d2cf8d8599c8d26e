-- ===== src/Handler/Guard.antt =====
-- What a batch of frames can set going.
use mathlib.Core.Option.{none-ne-some}
use sdim.Engine.Traffic.{close_conn, Action}
use sdim.Handler.Tasks.{run_task, handle_conn_frame, conn_decoded}
use sdim.Codec.Frame.{
  Frame, conn, Coded, decode_payload, send, forward_ack, coded, code_err, panics,
}
use sdim.Handler.Groups.{others_of, group_by_it-others}
use sdim.Handler.Frames.{
  GroupByIt, ping_or_other, is_login, valid_except_frames, after_submit, handle_frames, handle,
  submitted, handle_others, submit_failed, Submitted, handle_pings,
}
use sdim.Base.Slices.{Usli}
use sdim.Conn.Types.{ClientConnWrap, ClientConn, Handle}
use sdim.Base.Maps.{MapOf}
use sdim.Handler.Types.{Calls, Task, Served, conn_task, ConnFrame, frames_task}
use sdim.Base.{
  true, false, String, ℕ, Bool, List, ◌≡◌, ◌==◌, All, ◌⊎◌, some, ◌∷◌, arith, [], if◌then◌else◌,
  none, refl, not, sym, ◌&&◌, ◌∙◌, Option,
}

-- What the test for a login takes is a login, and nothing stands beside it.
is_login-alone :
    (frs : List Frame) (fr : Frame)
    → is_login frs ≡ some fr
    → (fr.header.ftype ≡ conn) × (frs ≡ fr ∷ [])
unfolding is_login
is_login-alone [] fr e = ground arith
is_login-alone (x ∷ []) fr e = ground arith
is_login-alone (x ∷ y ∷ frs) fr e = ground arith

sent_or_acked :
    (f : ℕ) (rest : Bool)
    → (if not (f == send) && not (f == forward_ack) then false else rest) ≡ true
    → ((f ≡ send) ⊎ (f ≡ forward_ack)) × (rest ≡ true)
sent_or_acked f rest e = ground arith

valid-All :
    (frs : List Frame)
    → valid_except_frames frs ≡ true
    → All (λ fr. (fr.header.ftype ≡ send) ⊎ (fr.header.ftype ≡ forward_ack)) frs
unfolding valid_except_frames
valid-All [] e = tt
valid-All (fr ∷ frs) e =
    let h = sent_or_acked fr.header.ftype (valid_except_frames frs) e in (h.0, valid-All frs h.1)

module _ {S U I T : Type 0} (calls : Calls S T) (users : MapOf ClientConnWrap U)
    (ids : MapOf ClientConn I) (sl : Usli Handle) (groups : GroupByIt Frame) (conn_id : String)
    (now : ℕ) where
  -- The frames of a batch that a login must not share: all of them before the client has logged in,
  -- those that are no pings afterwards.
  abbrev pub beside : Bool → List Frame → List Frame
  beside false frs = frs
  beside true frs = others_of frs

  -- The frames of a task may come from a client that has logged in.
  abbrev pub Permitted : Bool → List Frame → Task → Type 0
  Permitted conn_authed frs (conn_task fr sn) =
      (fr.header.ftype ≡ conn) × (beside conn_authed frs ≡ fr ∷ [])
  Permitted conn_authed frs (frames_task others) =
      (conn_authed ≡ true)
      × (others ≡ others_of frs)
      × All (λ fr. (fr.header.ftype ≡ send) ⊎ (fr.header.ftype ≡ forward_ack)) others

  conn_decoded_remote :
      (fr : Frame) (sn : ℕ) (s : Served S U I T) (d : Coded ConnFrame)
      → (conn_decoded calls users ids sl conn_id fr sn now s d).0.remote ≡ s.remote
  unfolding conn_decoded
  conn_decoded_remote fr sn s code_err = refl
  conn_decoded_remote fr sn s panics = refl
  conn_decoded_remote fr sn s (coded cf) = refl

  -- A login leaves the topic server alone.
  login_keeps_remote :
      (fr : Frame) (sn : ℕ) (s : Served S U I T)
      → (run_task calls users ids sl conn_id now (conn_task fr sn) s).0.remote ≡ s.remote
  unfolding run_task handle_conn_frame
  login_keeps_remote fr sn s =
      conn_decoded_remote fr sn s (decode_payload calls.parse_conn fr.payload)

  abbrev pub AllPermitted : Bool → List Frame → Option Task → Type 0
  AllPermitted conn_authed frs none = Unit
  AllPermitted conn_authed frs (some task) = Permitted conn_authed frs task

  after_submit-Permitted :
      (conn_authed : Bool) (frs others : List Frame) (sn : ℕ) (submit : Bool) (s : Served S U I T)
      → beside conn_authed frs ≡ others
      → (is_login others ≡ none → (conn_authed ≡ true) × (others ≡ others_of frs))
      → AllPermitted conn_authed frs (after_submit (handle_frames calls others sn submit s)).2
  unfolding after_submit handle_frames
  after_submit-Permitted conn_authed frs others sn submit s b h =
      go (is_login others) refl (valid_except_frames others) submit refl
    where
      result : Option Frame → Bool → Bool → Served S U I T × Submitted
      result o v sb = elim o [
        | some fr ↦ (s, if sb then submitted (conn_task fr sn) else submit_failed)
        | none ↦
            if v
            then (s, if sb then submitted (frames_task others) else submit_failed)
            else (record s { io = calls.close s.io }, submit_failed)
      ]

      go :
          (o : Option Frame)
          → is_login others ≡ o
          → (v sb : Bool) → valid_except_frames others ≡ v
          → AllPermitted conn_authed frs (after_submit {T = T} (result o v sb)).2
      go (some fr) e v true q = let a = is_login-alone others fr e in (a.0, b ∙ a.1)
      go (some fr) e v false q = tt
      go none e true true q = let a = h e in (a.0, a.1, valid-All others q)
      go none e true false q = tt
      go none e false sb q = tt

  -- The pool is only given a login, which is the only frame of the batch of a client that has not
  -- logged in, and the only one beside pings of one that has; or, from a client that has, the
  -- frames of the batch that are no pings, in order, when each is a Send frame or an
  -- acknowledgement of a forwarded message. A login does not reach the topic server when it is run:
  -- so no message of a client that has not logged in does.
  pub handle-AllPermitted :
      (conn_authed : Bool) (frs : List Frame) (sn : ℕ) (submit : Bool) (s : Served S U I T)
      → AllPermitted conn_authed frs
          (handle calls users ids sl groups conn_id now conn_authed frs sn submit s).2
        × ((fr : Frame) (sn' : ℕ) (s' : Served S U I T)
            → (run_task calls users ids sl conn_id now (conn_task fr sn') s').0.remote ≡ s'.remote)
  unfolding handle handle_others
  handle-AllPermitted conn_authed frs sn submit s = (by_authed conn_authed, login_keeps_remote)
    where
      others : List Frame
      others = groups.group_by_it frs ping_or_other 1

      alone : Option Frame → Served S U I T × Action × Option Task
      alone o = elim o [
        | none ↦ (s, close_conn, none)
        | some fr ↦ after_submit (handle_frames calls frs sn submit s)
      ]

      by_login : (o : Option Frame) → is_login frs ≡ o → AllPermitted false frs (alone o).2
      by_login none e = tt
      by_login (some fr) e =
          after_submit-Permitted false frs frs sn submit s refl
            (λ q. absurd (none-ne-some fr (sym q ∙ e)))

      by_pings :
          (xs : List Frame) (r : Served S U I T × Bool)
          → others ≡ xs
          → AllPermitted true frs
              (handle_others calls users ids sl groups conn_id now xs sn submit r).2
      by_pings xs (s', false) e = tt
      by_pings [] (s', true) e = tt
      by_pings (x ∷ xs) (s', true) e =
          after_submit-Permitted true frs (x ∷ xs) sn submit s'
            (sym (group_by_it-others groups frs) ∙ e)
            (λ q. (refl, sym e ∙ group_by_it-others groups frs))

      by_authed :
          (b : Bool)
          → AllPermitted b frs (handle calls users ids sl groups conn_id now b frs sn submit s).2
      by_authed false = by_login (is_login frs) refl
      by_authed true =
          by_pings others
            (handle_pings calls users ids sl groups conn_id now
              (groups.group_by_it frs ping_or_other 0) s)
            refl
