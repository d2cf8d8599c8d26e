-- ===== src/Handler/Answers.antt =====
-- The acknowledgements of a batch of Send frames.
use mathlib.Core.Bool.{false≢true}
use mathlib.Core.List.{append_assoc, append-nil}
use sdim.Topic.Types.{MsgContent}
use sdim.Handler.Acks.{
  Queues, Reports, Turn, unsupported, unparsed, empty, asked, Answers, done, passed_over, went_on,
  stopped,
}
use sdim.Handler.Tasks.{
  in_prod, write_send_ack_frame, send_ack_of, after_ack, pass_on, send_decoded, extract_req_id,
  coming_req, continue_task, send_frames, handle_send_frame,
}
use sdim.Codec.Frame.{send, code_err, panics, coded, Coded, Frame, decode_payload, json_payload}
use sdim.Handler.Types.{next_frame, returned, panicked, Calls, Flow, Served, SendFrame}
use sdim.Base.{
  true, false, none, some, Option, List, ℕ, ◌≡◌, [], ◌++◌, Bool, ◌∷◌, refl, sym, ap, ◌∙◌, ◌==◌,
  if◌then◌else◌, ==_iff, subst,
}
use sdim.Handler.Written.{
  panicked_stops, returned_stops, ne_of_false, Named-extract_req_id, Reports-send_ack_of,
  Asks-coming_req, write_coded-Sent,
}

module _ {S U I T : Type 0} {calls : Calls S T} {queued : S → List (List ℕ)}
    (lawful : Queues calls queued) where
  -- What one Send frame comes to on the connection as well.
  abbrev TurnOf : Frame → Served S U I T → Served S U I T × Flow → Type 0
  TurnOf fr s r =
      (mine : List (List ℕ)) × (queued r.0.io ≡ queued s.io ++ mine)
      × (r.0.cm ≡ s.cm)
      × Turn calls fr s.remote r.0.remote mine r.1

  pass_on-TurnOf :
      (fr : Frame) (frb : SendFrame) (content : Option MsgContent) (s : Served S U I T)
      → fr.payload.payload_protocol ≡ 1
      → calls.parse_send fr.payload.body ≡ some frb
      → frb.msg_content ≡ content
      → TurnOf fr s (pass_on calls fr frb content s)
  unfolding pass_on write_send_ack_frame
  pass_on-TurnOf fr frb none s p e c = ([], sym (append-nil (queued s.io)), refl, empty frb p e c)
  pass_on-TurnOf fr frb (some content) s p e c =
      let id = extract_req_id calls.uuid_from_bytes calls.string_of fr in
      let answer = calls.msg_coming s.remote id (coming_req frb content) in
      let ack = in_prod calls.is_prod (send_ack_of frb answer.1) in
      let (mine, q, n, w) = write_coded-Sent lawful fr ack s.io p in
      (
        mine,
        q,
        refl,
        asked frb id (coming_req frb content) answer.0 answer.1 ack mine _ p e
            (Named-extract_req_id calls fr) (Asks-coming_req frb content c) refl
            (subst (λ f. Reports calls frb answer.1 ack (after_ack answer.1 f)) (sym n)
              (Reports-send_ack_of calls frb answer.1))
            w,
      )

  handle_send_frame-TurnOf :
      (fr : Frame) (s : Served S U I T) → TurnOf fr s (handle_send_frame calls fr s)
  unfolding handle_send_frame send_decoded decode_payload
  handle_send_frame-TurnOf fr s =
      go (fr.payload.payload_protocol == json_payload) refl (calls.parse_send fr.payload.body) refl
    where
      decoded : Bool → Option SendFrame → Coded SendFrame
      decoded b o = if b then (elim o [ none ↦ code_err | some frb ↦ coded frb ]) else panics

      go :
          (b : Bool)
          → (fr.payload.payload_protocol == json_payload) ≡ b
          → (o : Option SendFrame) → calls.parse_send fr.payload.body ≡ o
          → TurnOf fr s (send_decoded calls fr s (decoded b o))
      go false p o e = (
        [],
        sym (append-nil (queued s.io)),
        refl,
        unsupported (λ q. false≢true (sym p ∙ (==_iff fr.payload.payload_protocol 1).1 q)),
      )
      go true p none e = (
        [],
        lawful.queued-close s.io ∙ sym (append-nil (queued s.io)),
        refl,
        unparsed ((==_iff fr.payload.payload_protocol 1).0 p) e,
      )
      go true p (some frb) e =
          pass_on-TurnOf fr frb frb.msg_content s ((==_iff fr.payload.payload_protocol 1).0 p) e
            refl

  -- What a list of frames comes to.
  abbrev Answered : List Frame → Served S U I T → Served S U I T × Flow → Type 0
  Answered frs s r =
      (acks : List (List ℕ)) × (queued r.0.io ≡ queued s.io ++ acks)
      × (r.0.cm ≡ s.cm)
      × Answers calls frs s.remote r.0.remote acks r.1

  rest-Answered :
      (fr : Frame) (frs : List Frame) (s : Served S U I T) (r : Served S U I T × Flow)
      → fr.header.ftype ≡ send
      → ((s' : Served S U I T) → Answered frs s' (send_frames calls frs s'))
      → TurnOf fr s r
      → Answered (fr ∷ frs) s (continue_task calls (send_frames calls frs) r)
  unfolding continue_task
  rest-Answered fr frs s (r, next_frame) f ih (mine, q, c, turn) =
      let (acks, w, d, a) = ih r in
      (
        mine ++ acks,
        w ∙ ap (λ l. l ++ acks) q ∙ append_assoc (queued s.io) mine acks,
        d ∙ c,
        went_on fr frs s.remote r.remote _ mine acks _ f turn a,
      )
  rest-Answered fr frs s (r, returned) f ih (mine, q, c, turn) =
      (mine, q, c, stopped fr frs s.remote r.remote mine returned f returned_stops turn)
  rest-Answered fr frs s (r, panicked) f ih (mine, q, c, turn) =
      (mine, q, c, stopped fr frs s.remote r.remote mine panicked f panicked_stops turn)

  -- A task over the frames of a batch takes them in order and passes over those that are no Send
  -- frames. For each Send frame that can be read and has a content, the topic server is asked once,
  -- in the state that the frame before has left, under the frame's request id and with the fields
  -- of the message; and its answer is acknowledged, with the id, the sequence and the time that it
  -- gives for a message that it takes, or with the error code of a failed call or of a refusal. The
  -- acknowledgement is queued on the connection in a frame with the Send frame's own request id,
  -- unless it cannot be formatted or is too large. The task goes on exactly after a message that
  -- was taken; it ends with an error of the server, at a frame that cannot be read, and at one
  -- without content. The connection manager is left alone.
  pub send_frames-Answered :
      (frs : List Frame) (s : Served S U I T) → Answered frs s (send_frames calls frs s)
  unfolding send_frames
  send_frames-Answered [] s = ([], sym (append-nil (queued s.io)), refl, done s.remote)
  send_frames-Answered (fr ∷ frs) s =
      go (fr.header.ftype == send) refl (λ s'. send_frames-Answered frs s')
    where
      go :
          (b : Bool)
          → (fr.header.ftype == send) ≡ b
          → ((s' : Served S U I T) → Answered frs s' (send_frames calls frs s'))
          → Answered (fr ∷ frs) s (
              if b
              then continue_task calls (send_frames calls frs) (handle_send_frame calls fr s)
              else send_frames calls frs s)
      go true e ih =
          rest-Answered fr frs s (handle_send_frame calls fr s) ((==_iff fr.header.ftype send).0 e)
            ih (handle_send_frame-TurnOf fr s)
      go false e ih =
          let (acks, w, c, a) = ih s in
          (acks, w, c, passed_over fr frs s.remote _ acks _ (ne_of_false fr e) a)
