-- ===== src/Engine/Batch.antt =====
-- OnTraffic on frames that have arrived one after another.
use sdim.Codec.Partial.{decode-proper_prefix}
use mathlib.Core.List.{append_assoc, append-nil}
use native.Mathlib.Nat.{zero-add, suc-add}
use sdim.Codec.Wire.{decode, ok, err}
use sdim.Engine.Traffic.{
  Batch, before, read_frames, stopped, on_traffic, frames, Action, close_conn, go_on, next, hand_on,
}
use sdim.Codec.Roundtrip.{IsWire, wire_len, wire_bytes, stamped, decode-encode, encode-eq-ok_iff}
use sdim.Codec.Net.{GnetConn, Behaves}
use sdim.Base.{
  List, ℕ, ◌∷◌, ◌≤◌, All, ◌++◌, ◌≡◌, [], length, ◌+◌, map, Bool, ap, suc, ◌==◌, refl, false, ◌∙◌,
  true, some, arith,
}
use sdim.Codec.Frame.{Frame, max_payload_size, incomplete_frame}

-- A frame that the codec accepts.
abbrev pub Sendable : Frame → Type 0
Sendable fr = IsWire fr × (wire_len fr.payload ≤ max_payload_size)

abbrev pub stream : List Frame → List ℕ
stream [] = []
stream (fr ∷ frs) = wire_bytes fr ++ stream frs

abbrev pub prepend : List Frame → Batch → Batch
prepend [] b = b
prepend (fr ∷ frs) b = before fr (prepend frs b)

module _ {S : Type 0} (net : GnetConn S) where
  read-ok :
      (n : ℕ) (c c1 : S) (fr : Frame)
      → decode net c ≡ (c1, ok fr)
      → read_frames net (suc n) c ≡ ((read_frames net n c1).0, before fr (read_frames net n c1).1)
  unfolding read_frames next
  read-ok n c c1 fr e = ap (next (read_frames net n)) e

  read-incomplete :
      (n : ℕ) (c : S)
      → decode net c ≡ (c, err incomplete_frame)
      → read_frames net (suc n) c ≡ (c, frames [])
  unfolding read_frames stopped next
  read-incomplete n c e = ap (next (read_frames net n)) e

  go_on_or_close :
      (batch : ℕ) (handle : Bool → List Frame → Action) (authed wake : Bool) (c c' : S) (fr : Frame)
      (frs : List Frame)
      → read_frames net batch c ≡ (c', frames (fr ∷ frs))
      → (length (fr ∷ frs) == batch) ≡ false
      → on_traffic net batch handle (authed, true) wake c
        ≡ (c', handle authed (fr ∷ frs), some (fr ∷ frs))
  unfolding on_traffic hand_on
  go_on_or_close batch handle authed wake c c' fr frs e few =
      ap (hand_on net batch handle (authed, true) wake) e ∙ answer (handle authed (fr ∷ frs)) refl
    where
      answer :
          (a : Action)
          → handle authed (fr ∷ frs) ≡ a
          → hand_on net batch handle (authed, true) wake (c', frames (fr ∷ frs))
            ≡ (c', handle authed (fr ∷ frs), some (fr ∷ frs))
      answer close_conn q = rw q refl
      answer go_on q = rw (q, few) refl

module _ {S : Type 0} (net : GnetConn S) {buffered : S → List ℕ}
    (lawful : Behaves net buffered) where
  read_frames-stream :
      (frs : List Frame) (n : ℕ) (c : S) (rest : List ℕ)
      → All Sendable frs
      → buffered c ≡ stream frs ++ rest
      → (c' : S) × (buffered c' ≡ rest)
        × (read_frames net (length frs + n) c
            ≡ ((read_frames net n c').0, prepend (map stamped frs) (read_frames net n c').1))
  read_frames-stream [] n c rest s b = (c, b, rw (zero-add n) refl)
  read_frames-stream (fr ∷ frs) n c rest s b =
      let (decoded, left) =
        decode-encode net lawful c fr (wire_bytes fr) (stream frs ++ rest) s.0.0
          ((encode-eq-ok_iff fr (wire_bytes fr)).1 (s.0.1, refl))
          (b ∙ append_assoc (wire_bytes fr) (stream frs) rest) in
      let (c', left', e) = read_frames-stream frs n _ rest s.1 left in
      (
        c',
        left',
        rw (suc-add (length frs) n) (
            read-ok net (length frs + n) c _ (stamped fr) decoded
            ∙ ap (λ r. (r.0, before (stamped fr) r.1)) e),
      )

  prepend-frames : (frs gs : List Frame) → prepend frs (frames gs) ≡ frames (frs ++ gs)
  unfolding before
  prepend-frames [] gs = refl
  prepend-frames (fr ∷ frs) gs = ap (before fr) (prepend-frames frs gs)

  -- What has arrived is a number of whole frames, less than a batch, and then a proper prefix of one
  -- more, which may be empty. OnTraffic hands exactly the whole frames to the frame handler, in
  -- order, leaves the prefix in the buffer, and does what the handler says. The connection is
  -- known, the frames are such that Encode takes them, and gnet behaves as documented.
  pub on_traffic-frames :
      (fr last : Frame) (frs : List Frame) (n : ℕ) (c : S) (part : List ℕ) (x : ℕ)
      (missing : List ℕ) (handle : Bool → List Frame → Action) (authed wake : Bool)
      → All Sendable (fr ∷ frs)
      → Sendable last
      → buffered c ≡ stream (fr ∷ frs) ++ part
      → part ++ x ∷ missing ≡ wire_bytes last
      → (c' : S) × (buffered c' ≡ part)
        × (on_traffic net (length (fr ∷ frs) + suc n) handle (authed, true) wake c
            ≡ (c', handle authed (map stamped (fr ∷ frs)), some (map stamped (fr ∷ frs))))
  on_traffic-frames fr last frs n c part x missing handle authed wake s t b p =
      let (c', left, e) = read_frames-stream (fr ∷ frs) (suc n) c part s b in
      let short : read_frames net (suc n) c' ≡ (c', frames []) = read-incomplete net n c' (
        decode-proper_prefix net lawful c' last x missing t.0 t.1
          (ap (λ l. l ++ x ∷ missing) left ∙ p)) in
      let all : prepend (map stamped (fr ∷ frs)) (frames []) ≡ frames (map stamped (fr ∷ frs)) =
        prepend-frames (map stamped (fr ∷ frs)) [] ∙ ap frames (append-nil _) in
      (
        c',
        left,
        go_on_or_close net _ handle authed wake c c' (stamped fr) (map stamped frs)
            (e
              ∙ ap (λ r. (r.0, prepend (map stamped (fr ∷ frs)) r.1)) short
              ∙ ap (λ r. (c', r)) all)
            (fewer (fr ∷ frs)),
      )
    where
      same_length : (gs : List Frame) → length (map stamped gs) ≡ length gs
      same_length [] = refl
      same_length (g ∷ gs) = ap suc (same_length gs)

      fewer : (gs : List Frame) → (length (map stamped gs) == length gs + suc n) ≡ false
      fewer gs = rw (same_length gs) (ground arith)
