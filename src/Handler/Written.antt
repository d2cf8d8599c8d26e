-- ===== src/Handler/Written.antt =====
-- The acknowledgement of one Send frame: what is asked, what is answered, and its bytes.
use mathlib.Core.Bool.{false≢true}
use mathlib.Core.List.{append-nil}
use sdim.Topic.Types.{MsgContent}
use sdim.Codec.Wire.{encode, ok, err}
use sdim.Codec.Layout.{layout, encode-layout_iff}
use sdim.Handler.Acks.{Queues, Asks, Named, Reports, Sent, sent, unformatted, too_large}
use sdim.Handler.Tasks.{in_prod, send_ack_of, after_ack, extract_req_id, coming_req, write_coded}
use sdim.Codec.Frame.{
  frame_too_large, send_ack, send, code_err, coded, Frame, Payload, new_s2c_frame, new_s2c_frame_of,
  encode_payload,
}
use sdim.Handler.Types.{
  next_frame, returned, panicked, call_failed, not_ok, answered, Calls, SendFrameAck, Flow,
  SendFrame, RpcAnswer, MsgComingResp, transfer_desc,
}
use sdim.Base.{
  true, false, none, some, Option, List, ℕ, ◌≡◌, [], ◌++◌, Bool, ◌≢◌, ◌∷◌, refl, sym, ap, ◌∙◌, ◌==◌,
  inl, inr, String, arith, ◌≤◌, ◌<◌, ◌+◌, length, leb, Bool-cases,
}

is_next : Flow → Bool
is_next next_frame = true
is_next returned = false
is_next panicked = false

pub panicked_stops : panicked ≢ next_frame
unfolding is_next
panicked_stops e = false≢true (ap is_next e)

pub returned_stops : returned ≢ next_frame
unfolding is_next
returned_stops e = false≢true (ap is_next e)

pub ne_of_false : (fr : Frame) → (fr.header.ftype == send) ≡ false → fr.header.ftype ≢ send
ne_of_false fr e q = ground arith

ack_coded :
    (fmt : SendFrameAck → Option (List ℕ)) (pl : Payload) (ack : SendFrameAck) (body : List ℕ)
    → pl.payload_protocol ≡ 1
    → fmt ack ≡ some body
    → new_s2c_frame fmt pl send_ack ack
      ≡ coded (new_s2c_frame_of pl.payload_protocol send_ack pl.req_id body)
unfolding new_s2c_frame encode_payload
ack_coded fmt pl ack body p e = ground arith

ack_uncoded :
    (fmt : SendFrameAck → Option (List ℕ)) (pl : Payload) (ack : SendFrameAck)
    → pl.payload_protocol ≡ 1
    → fmt ack ≡ none
    → new_s2c_frame fmt pl send_ack ack ≡ code_err
unfolding new_s2c_frame encode_payload
ack_uncoded fmt pl ack p e = ground arith

ack_encodes :
    (pl : Payload) (body : List ℕ)
    → 17 + length body ≤ 1048576
    → encode (new_s2c_frame_of pl.payload_protocol send_ack pl.req_id body)
      ≡ ok (layout 6 pl.payload_protocol pl.req_id body)
unfolding new_s2c_frame_of
ack_encodes pl body h =
    (encode-layout_iff (new_s2c_frame_of pl.payload_protocol send_ack pl.req_id body) _).0.1
      (h, refl)

ack_too_large :
    (pl : Payload) (body : List ℕ)
    → 1048576 < 17 + length body
    → encode (new_s2c_frame_of pl.payload_protocol send_ack pl.req_id body) ≡ err frame_too_large
unfolding new_s2c_frame_of
ack_too_large pl body h =
    (encode-layout_iff (new_s2c_frame_of pl.payload_protocol send_ack pl.req_id body) []).1.1 h

module _ {S : Type 0} (async_write : S → List ℕ → S) (close : S → S) (f : Frame) (io : S) where
  encoded_written :
      (b : List ℕ)
      → encode f ≡ ok b
      → write_coded async_write close (coded f) io ≡ (async_write io b, next_frame)
  unfolding write_coded
  encoded_written b e = rw (e, write_coded) refl

  unencoded_closes :
      encode f ≡ err frame_too_large
      → write_coded async_write close (coded f) io ≡ (close io, next_frame)
  unfolding write_coded
  unencoded_closes e = rw (e, write_coded) refl

pub Named-extract_req_id :
    {S T : Type 0} (calls : Calls S T) (fr : Frame)
    → Named calls fr (extract_req_id calls.uuid_from_bytes calls.string_of fr)
unfolding extract_req_id
Named-extract_req_id calls fr = go (calls.uuid_from_bytes fr.payload.req_id) refl
  where
    go :
        (o : Option String)
        → calls.uuid_from_bytes fr.payload.req_id ≡ o
        → Named calls fr (elim o [ none ↦ calls.string_of fr.payload.req_id | some uuid ↦ uuid ])
    go none e = inr (e, refl)
    go (some uuid) e = inl e

pub Reports-send_ack_of :
    {S T : Type 0} (calls : Calls S T) (frb : SendFrame) (answer : RpcAnswer MsgComingResp)
    → Reports calls frb answer
        (in_prod calls.is_prod (send_ack_of frb answer))
        (after_ack answer next_frame)
unfolding in_prod send_ack_of after_ack transfer_desc
Reports-send_ack_of calls frb (answered rd) = ground arith
Reports-send_ack_of calls frb (call_failed e) = ground arith
Reports-send_ack_of calls frb (not_ok code msg) = ground arith

pub Asks-coming_req :
    (frb : SendFrame) (content : MsgContent)
    → frb.msg_content ≡ some content
    → Asks frb (coming_req frb content)
unfolding coming_req
Asks-coming_req frb content e = record {
  same_conv_id = refl;
  same_sender = refl;
  same_receiver = refl;
  same_chat_type = refl;
  same_ttl = refl;
  same_client_unique_id = refl;
  same_msg_content = e;
}

module _ {S T : Type 0} {calls : Calls S T} {queued : S → List (List ℕ)}
    (lawful : Queues calls queued) where
  -- The writing of an acknowledgement goes through, whatever becomes of its bytes.
  abbrev pub Wrote : Frame → SendFrameAck → S → S × Flow → Type 0
  Wrote fr ack io r =
      (mine : List (List ℕ)) × (queued r.0 ≡ queued io ++ mine)
      × (r.1 ≡ next_frame)
      × Sent calls fr ack mine

  pub write_coded-Sent :
      (fr : Frame) (ack : SendFrameAck) (io : S)
      → fr.payload.payload_protocol ≡ 1
      → Wrote fr ack io (
          write_coded calls.async_write calls.close
            (new_s2c_frame calls.fmt_send_ack fr.payload send_ack ack)
            io)
  unfolding write_coded
  write_coded-Sent fr ack io p = go (calls.fmt_send_ack ack) refl
    where
      go :
          (o : Option (List ℕ))
          → calls.fmt_send_ack ack ≡ o
          → Wrote fr ack io (
              write_coded calls.async_write calls.close
                (new_s2c_frame calls.fmt_send_ack fr.payload send_ack ack)
                io)
      go none e =
          rw (ack_uncoded calls.fmt_send_ack fr.payload ack p e)
            ([], lawful.queued-close io ∙ sym (append-nil (queued io)), refl, unformatted e)
      go (some body) e = elim (Bool-cases (leb (17 + length body) 1048576)) [
        | inl small ↦
            let h : 17 + length body ≤ 1048576 = ground arith in
            rw
              (
                ack_coded calls.fmt_send_ack fr.payload ack body p e,
                encoded_written calls.async_write calls.close _ io _
                    (ack_encodes fr.payload body h),
              )
              (
                layout 6 fr.payload.payload_protocol fr.payload.req_id body ∷ [],
                lawful.queued-async_write io _,
                refl,
                sent body e h,
              )
        | inr large ↦
            let h : 1048576 < 17 + length body = ground arith in
            rw
              (
                ack_coded calls.fmt_send_ack fr.payload ack body p e,
                unencoded_closes calls.async_write calls.close _ io
                    (ack_too_large fr.payload body h),
              )
              ([], lawful.queued-close io ∙ sym (append-nil (queued io)), refl, too_large body e h)
      ]
