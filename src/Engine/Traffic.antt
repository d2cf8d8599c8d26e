-- ===== src/Engine/Traffic.antt =====
-- drive/engine.go: OnTraffic, which reads a batch of frames from a connection and hands it on.
use sdim.Codec.Wire.{decode, err, ok, Result}
use sdim.Codec.Net.{GnetConn}
use sdim.Codec.Frame.{Frame, CodecError, incomplete_frame}
use sdim.Base.{
  List, ◌∷◌, [], ℕ, Bool, suc, Option, none, if◌then◌else◌, not, zero, some, length, ◌==◌, ◌&&◌,
  ltb,
}

pub data Action : Type 0 where
  go_on close_conn : Action

-- How the loop ended: with the frames read so far, or by a refused frame, which drops them.
pub data Batch : Type 0 where
  frames : List Frame → Batch
  refused : CodecError → Batch

unfoldable pub before : Frame → Batch → Batch
before fr (frames frs) = frames (fr ∷ frs)
before fr (refused e) = refused e

unfoldable pub stopped : CodecError → Batch
stopped incomplete_frame = frames []
stopped e = refused e

-- One round of the loop, on what Decode answers, with the rounds that follow.
unfoldable pub next : {S : Type 0} → (S → S × Batch) → S × Result Frame → S × Batch
unfolding before stopped
next later (c, err e) = (c, stopped e)
next later (c, ok fr) = let r = later c in (r.0, before fr r.1)

module _ {S : Type 0} (net : GnetConn S) where
  -- The loop over Decode, for as many rounds as a batch has frames.
  unfoldable pub read_frames : ℕ → S → S × Batch
  unfolding next
  read_frames zero c = (c, frames [])
  read_frames (suc n) c = next (read_frames n) (decode net c)

  -- What follows the loop. `handle` is the frame handler's Handle, `conn` is what ConnHadAuthed
  -- answers, and `wake` says whether Wake succeeds. The last part of the answer is what was handed
  -- on.
  unfoldable pub hand_on :
      ℕ
      → (Bool → List Frame → Action)
      → Bool × Bool
      → Bool
      → S × Batch
      → S × Action × Option (List Frame)
  hand_on batch_read handle conn wake (c, refused e) = (c, close_conn, none)
  hand_on batch_read handle conn wake (c, frames []) = (c, go_on, none)
  hand_on batch_read handle conn wake (c, frames (fr ∷ frs)) =
      if not conn.1 then (c, close_conn, none) else (elim (handle conn.0 (fr ∷ frs)) [
        | close_conn ↦ (c, close_conn, some (fr ∷ frs))
        | go_on ↦
            if (length (fr ∷ frs) == batch_read) && ltb 0 (net.inbound_buffered c)
            then (c, if wake then go_on else close_conn, some (fr ∷ frs))
            else (c, go_on, some (fr ∷ frs))
      ])

  unfoldable pub on_traffic :
      ℕ → (Bool → List Frame → Action) → Bool × Bool → Bool → S → S × Action × Option (List Frame)
  unfolding read_frames hand_on
  on_traffic batch_read handle conn wake c =
      hand_on batch_read handle conn wake (read_frames batch_read c)
