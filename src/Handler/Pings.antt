-- ===== src/Handler/Pings.antt =====
-- The pings of a batch.
use sdim.Handler.Recorded.{pinged, Recorded, pinged-Recorded}
use mathlib.Core.Path.{fun_ext}
use sdim.Codec.Wire.{encode, ok}
use sdim.Codec.Layout.{layout, encode-layout_iff}
use mathlib.Core.List.{append-nil, append_assoc}
use sdim.Conn.Ops.{modify_after_ping_success}
use sdim.Push.Handlers.{encoded}
use sdim.Codec.Frame.{Frame, new_pong_frame}
use sdim.Handler.Groups.{pings_of, group_by_it-pings}
use sdim.Handler.Frames.{
  GroupByIt, after_ping, handle_pings, handle_ping_frame, after_submit, handle, handle_frames,
  handle_others, Submitted, ping_or_other, submitted, submit_failed, is_login, valid_except_frames,
}
use sdim.Base.Slices.{Usli}
use sdim.Conn.Types.{ClientConnWrap, ClientConn, Handle}
use sdim.Base.Maps.{MapOf}
use sdim.Handler.Types.{Calls, Served, conn_task, frames_task}
use sdim.Base.{
  true, false, List, ℕ, ◌≡◌, ◌++◌, ◌∷◌, [], String, map, Bool, sym, arith, refl, ◌∙◌, ap, Option,
  subst, some, if◌then◌else◌, none,
}

-- Writes that succeed: `written` is what has been written to the connection.
pub record Writes {S T : Type 0} (calls : Calls S T) (written : S → List (List ℕ)) : Type 0 where
  pub write-succeeds : (s : S) (b : List ℕ) → (calls.write s b).1 ≡ true
  pub written-write : (s : S) (b : List ℕ) → written ((calls.write s b).0) ≡ written s ++ b ∷ []
  pub written-close : (s : S) → written (calls.close s) ≡ written s

module _ {S U I T : Type 0} {calls : Calls S T} {written : S → List (List ℕ)}
    (lawful : Writes calls written) (users : MapOf ClientConnWrap U) (ids : MapOf ClientConn I)
    (sl : Usli Handle) (groups : GroupByIt Frame) (conn_id : String) (now : ℕ) where
  abbrev pongs : List Frame → List (List ℕ)
  pongs frs = map (λ fr. encoded (new_pong_frame fr.payload)) frs

  after_ping-true :
      (s : Served S U I T) (later : Served S U I T → Served S U I T × Bool) (r : S × Bool)
      → r.1 ≡ true
      → after_ping calls users ids sl groups conn_id now s later r
        ≡ later
            (record s { io = r.0; cm = modify_after_ping_success users ids sl s.cm conn_id now })
  unfolding after_ping
  after_ping-true s later (io, true) e = refl
  after_ping-true s later (io, false) e = ground arith

  succeeds : (fr : Frame) (io : S) → (handle_ping_frame calls fr io).1 ≡ true
  unfolding handle_ping_frame
  succeeds fr io = lawful.write-succeeds io (encoded (new_pong_frame fr.payload))

  appended :
      (fr : Frame) (io : S)
      → written ((handle_ping_frame calls fr io).0)
        ≡ written io ++ encoded (new_pong_frame fr.payload) ∷ []
  unfolding handle_ping_frame
  appended fr io = lawful.written-write io (encoded (new_pong_frame fr.payload))

  -- What the handling of the pings comes to, by the code's own steps.
  abbrev Swept : List Frame → Served S U I T → Served S U I T → Type 0
  Swept frs s r =
      (written r.io ≡ written s.io ++ pongs frs)
      × (r.cm ≡ pinged users ids sl conn_id now frs s.cm)
      × (r.remote ≡ s.remote)

  handle_pings-Swept :
      (frs : List Frame) (s : Served S U I T)
      → Swept frs s (handle_pings calls users ids sl groups conn_id now frs s).0
        × ((handle_pings calls users ids sl groups conn_id now frs s).1 ≡ true)
  unfolding handle_pings
  handle_pings-Swept [] s = ((sym (append-nil (written s.io)), refl, refl), refl)
  handle_pings-Swept (fr ∷ frs) s =
      subst (λ r. Swept (fr ∷ frs) s r.0 × (r.1 ≡ true))
        (sym (after_ping-true s later (handle_ping_frame calls fr s.io) (succeeds fr s.io)))
        (first (handle_pings-Swept frs once_pinged))
    where
      later : Served S U I T → Served S U I T × Bool
      later = handle_pings calls users ids sl groups conn_id now frs

      once_pinged : Served S U I T
      once_pinged = record s {
        io = (handle_ping_frame calls fr s.io).0;
        cm = modify_after_ping_success users ids sl s.cm conn_id now;
      }

      first :
          Swept frs once_pinged (later once_pinged).0 × ((later once_pinged).1 ≡ true)
          → Swept (fr ∷ frs) s (later once_pinged).0 × ((later once_pinged).1 ≡ true)
      first h = (
        (
          h.0.0
              ∙ ap (λ l. l ++ pongs frs) (appended fr s.io)
              ∙ append_assoc (written s.io) (encoded (new_pong_frame fr.payload) ∷ []) (pongs frs),
          h.0.1,
          h.0.2,
        ),
        h.1,
      )

  after_submit-Swept :
      (frs others : List Frame) (sn : ℕ) (submit : Bool) (s r : Served S U I T)
      → Swept frs s r
      → Swept frs s (after_submit (handle_frames calls others sn submit r)).0
  unfolding after_submit handle_frames
  after_submit-Swept frs others sn submit s r h =
      go (is_login others) (valid_except_frames others) submit
    where
      result : Option Frame → Bool → Bool → Served S U I T × Submitted
      result o v sb = elim o [
        | some fr ↦ (r, if sb then submitted (conn_task fr sn) else submit_failed)
        | none ↦
            if v
            then (r, if sb then submitted (frames_task others) else submit_failed)
            else (record r { io = calls.close r.io }, submit_failed)
      ]

      go : (o : Option Frame) (v sb : Bool) → Swept frs s (after_submit {T = T} (result o v sb)).0
      go (some fr) v true = h
      go (some fr) v false = h
      go none true true = h
      go none true false = h
      go none false sb = (lawful.written-close r.io ∙ h.0, h.1, h.2)

  -- The answer to a ping on the wire: type 2, with the ping's protocol and request id and `pong`.
  abbrev pub pong_wire : Frame → List ℕ
  pong_wire fr =
      layout 2 fr.payload.payload_protocol fr.payload.req_id (0x70 ∷ 0x6f ∷ 0x6e ∷ 0x67 ∷ [])

  pong_encodes : (fr : Frame) → encode (new_pong_frame fr.payload) ≡ ok (pong_wire fr)
  unfolding new_pong_frame
  pong_encodes fr =
      (encode-layout_iff (new_pong_frame fr.payload) (pong_wire fr)).0.1 (omega arith, refl)

  encoded-pong : (fr : Frame) → encoded (new_pong_frame fr.payload) ≡ pong_wire fr
  unfolding encoded
  encoded-pong fr = rw (pong_encodes fr, encoded) refl

  -- What a batch with these pings has done once they are answered.
  abbrev pub Ponged : List Frame → Served S U I T → Served S U I T → Type 0
  Ponged frs s r =
      (written r.io ≡ written s.io ++ map pong_wire frs)
      × Recorded users ids sl conn_id now frs s.cm r.cm
      × (r.remote ≡ s.remote)

  Swept-Ponged :
      (frs frs' : List Frame) (s r : Served S U I T) → frs ≡ frs' → Swept frs s r → Ponged frs' s r
  Swept-Ponged frs frs' s r e (w, c, t) =
      subst (λ l. Ponged l s r) e
        (
          w ∙ ap (λ (f : Frame → List ℕ). written s.io ++ map f frs) (fun_ext encoded-pong),
          subst (Recorded users ids sl conn_id now frs s.cm) (sym c)
              (pinged-Recorded users ids sl conn_id now frs s.cm),
          t,
        )

  -- While writes succeed, the pings of a batch of a logged-in client are answered before its other
  -- frames are looked at, whatever these are: a frame of type pong, with the ping's protocol and
  -- request id and the body `pong`, for each frame of type ping and no other, in the order of the
  -- pings, and nothing else is written. When there was a ping and the connection is known, it has
  -- the time of the batch as that of its last ping; the manager is otherwise as before, and the
  -- handler itself does not call the topic server.
  pub handle-Ponged :
      (frs : List Frame) (sn : ℕ) (submit : Bool) (s : Served S U I T)
      → Ponged
          (pings_of frs)
          s
          (handle calls users ids sl groups conn_id now true frs sn submit s).0
  unfolding handle handle_others
  handle-Ponged frs sn submit s =
      Swept-Ponged (groups.group_by_it frs ping_or_other 0) (pings_of frs) s
        (handle calls users ids sl groups conn_id now true frs sn submit s).0
        (group_by_it-pings groups frs)
        (go others
          (handle_pings calls users ids sl groups conn_id now
            (groups.group_by_it frs ping_or_other 0) s)
          (handle_pings-Swept (groups.group_by_it frs ping_or_other 0) s))
    where
      others : List Frame
      others = groups.group_by_it frs ping_or_other 1

      go :
          (xs : List Frame) (r : Served S U I T × Bool)
          → Swept (groups.group_by_it frs ping_or_other 0) s r.0 × (r.1 ≡ true)
          → Swept
              (groups.group_by_it frs ping_or_other 0)
              s
              (handle_others calls users ids sl groups conn_id now xs sn submit r).0
      go xs (s', false) h = h.0
      go [] (s', true) h = h.0
      go (x ∷ xs) (s', true) h =
          after_submit-Swept (groups.group_by_it frs ping_or_other 0) (x ∷ xs) sn submit s s' h.0
