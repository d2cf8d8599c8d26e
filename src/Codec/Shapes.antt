-- ===== src/Codec/Shapes.antt =====
-- What each part of Decode has seen when it accepts a frame.
use mathlib.Core.List.{append_assoc}
use native.Mathlib.Nat.{zero-add, suc-add}
use sdim.Codec.Crc.{checksum_ieee}
use sdim.Codec.Roundtrip.{wire_len, IsWire, stamped, encode-eq-ok_iff, wire_bytes}
use sdim.Codec.Words.{Byte, put_uint16, uint32, put_uint32-uint32, uint32-lt}
use sdim.Codec.Frame.{
  Payload, header_frame_size, Frame, max_payload_size, empty_payload, incomplete_frame, io_err,
}
use sdim.Codec.Wire.{
  payload_buf, header_of, decode_header, decode_payload_buf, decode_sized, decode, header_bytes, ok,
  err, encode,
}
use sdim.Base.{
  List, ℕ, ◌≤◌, take, length, All, get_or, ◌≡◌, ◌+◌, drop, ◌≢◌, suc, arith, ◌++◌, ◌∷◌, [], ap,
  length-drop, length-take, drop_exact, zero, refl, take-append-drop, sym,
}
use sdim.Codec.Net.{GnetConn, bytes, Peeked, short_buffer, peek_err}

module _ {S : Type 0} (net : GnetConn S) where
  pub decode_header-ok :
      (c c' : S) (fr : Frame) (m0 m1 v ft n0 n1 n2 n3 k0 k1 k2 k3 : ℕ)
      → Byte n0
      → Byte n1
      → Byte n2
      → Byte n3
      → Byte k0
      → Byte k1
      → Byte k2
      → Byte k3
      → decode_header net c (m0 ∷ m1 ∷ v ∷ ft ∷ n0 ∷ n1 ∷ n2 ∷ n3 ∷ k0 ∷ k1 ∷ k2 ∷ k3 ∷ [])
        ≡ (c', ok fr)
      → let n = uint32 (n0 ∷ n1 ∷ n2 ∷ n3 ∷ []) in
        let k = uint32 (k0 ∷ k1 ∷ k2 ∷ k3 ∷ []) in
        (m0 ∷ m1 ∷ v ∷ ft ∷ n0 ∷ n1 ∷ n2 ∷ n3 ∷ k0 ∷ k1 ∷ k2 ∷ k3 ∷ [] ≡ header_bytes ft n k)
        × (decode_sized net c ft n k ≡ (c', ok fr))
  unfolding decode_header header_bytes put_uint16
  decode_header-ok c c' fr m0 m1 v ft n0 n1 n2 n3 k0 k1 k2 k3 h0 h1 h2 h3 g0 g1 g2 g3 e =
      ground
        (arith, put_uint32-uint32 n0 n1 n2 n3, put_uint32-uint32 k0 k1 k2 k3, uint32-lt n0 n1 n2 n3)

abbrev pub payload_of : List ℕ → Payload
payload_of buf = record {
  payload_protocol = get_or buf 0 0;
  req_id = take 16 (drop 1 buf);
  body = drop 17 buf;
}

payload_buf-payload_of : (buf : List ℕ) → 17 ≤ length buf → payload_buf (payload_of buf) ≡ buf
unfolding payload_buf
payload_buf-payload_of [] h = absurd (omega arith)
payload_buf-payload_of (x ∷ xs) h = ap (◌∷◌ x) (take-append-drop 16 xs)

wire_len-payload_of : (buf : List ℕ) → 17 ≤ length buf → wire_len (payload_of buf) ≡ length buf
wire_len-payload_of buf h = omega (arith, length-drop 17 buf)

take_beyond {ℓ} :
    {A : Type ℓ} (xs ys : List A) (n : ℕ) → take (length xs + n) (xs ++ ys) ≡ xs ++ take n ys
take_beyond [] ys n = rw zero-add
take_beyond (x ∷ xs) ys n = rw suc-add (ap (◌∷◌ x) (take_beyond xs ys n))

pub take_beyond_exact {ℓ} :
    {A : Type ℓ} (m n : ℕ) (xs ys : List A)
    → length xs ≡ m
    → take (m + n) (xs ++ ys) ≡ xs ++ take n ys
take_beyond_exact m n xs ys e = rw (← e) (take_beyond xs ys n)

pub All-take {ℓ κ} :
    {A : Type ℓ} (P : A → Type κ) (n : ℕ) (xs : List A) → All P xs → All P (take n xs)
All-take P zero xs h = tt
All-take P (suc n) [] h = tt
All-take P (suc n) (x ∷ xs) h = (h.0, All-take P n xs h.1)

All-drop {ℓ κ} : {A : Type ℓ} (P : A → Type κ) (n : ℕ) (xs : List A) → All P xs → All P (drop n xs)
All-drop P zero xs h = h
All-drop P (suc n) [] h = tt
All-drop P (suc n) (x ∷ xs) h = All-drop P n xs h.1

payload_of-IsWire :
    (ft n k : ℕ) (buf : List ℕ)
    → Byte ft
    → All Byte buf
    → 17 ≤ length buf
    → IsWire (record { header = header_of ft n k; payload = payload_of buf })
unfolding header_of
payload_of-IsWire ft n k [] hf hb h = absurd (omega arith)
payload_of-IsWire ft n k (x ∷ xs) hf hb h = record {
  ftype_byte = hf;
  protocol_byte = hb.0;
  req_id_length = length-take 16 xs (omega arith);
  req_id_bytes = All-take Byte 16 xs hb.1;
  body_bytes = All-drop Byte 16 xs hb.1;
}

-- A header that has arrived.
pub split_header :
    (b : List ℕ)
    → header_frame_size ≤ length b
    → (m0 m1 v ft n0 n1 n2 n3 k0 k1 k2 k3 : ℕ) × (rest : List ℕ) × (b
        ≡ m0 ∷ m1 ∷ v ∷ ft ∷ n0 ∷ n1 ∷ n2 ∷ n3 ∷ k0 ∷ k1 ∷ k2 ∷ k3 ∷ rest)
split_header (m0 ∷ m1 ∷ v ∷ ft ∷ n0 ∷ n1 ∷ n2 ∷ n3 ∷ k0 ∷ k1 ∷ k2 ∷ k3 ∷ rest) h =
    (m0, m1, v, ft, n0, n1, n2, n3, k0, k1, k2, k3, rest, refl)
split_header _ h = absurd (omega arith)

-- What an accepted frame stands for in the buffer: a header with no payload, or the bytes that
-- Encode gives for the frame.
pub data Accepted (before after : List ℕ) (fr : Frame) : Type 0 where
  bare :
      (ft : ℕ)
      → fr ≡ record { header = header_of ft 0 0; payload = empty_payload }
      → before ≡ header_bytes ft 0 0 ++ after
      → Accepted before after fr
  whole :
      IsWire fr
      → stamped fr ≡ fr
      → encode fr ≡ ok (wire_bytes fr)
      → before ≡ wire_bytes fr ++ after
      → Accepted before after fr

module _ {S : Type 0} (net : GnetConn S) where
  pub decode_payload_buf-ok :
      (c c' : S) (fr : Frame) (ft n k : ℕ) (h buf : List ℕ)
      → length h ≡ header_frame_size
      → decode_payload_buf net c ft n k (h ++ buf) ≡ (c', ok fr)
      → (k ≡ checksum_ieee buf)
        × (17 ≤ length buf)
        × (c' ≡ net.discard c (header_frame_size + n))
        × (fr ≡ record { header = header_of ft n k; payload = payload_of buf })
  unfolding decode_payload_buf
  decode_payload_buf-ok c c' fr ft n k h buf hh e = ground (arith, drop_exact 12 h buf hh)

  pub decode_sized-empty :
      (c c' : S) (fr : Frame) (ft n k : ℕ)
      → n ≡ 0
      → decode_sized net c ft n k ≡ (c', ok fr)
      → (k ≡ 0)
        × (c' ≡ net.discard c header_frame_size)
        × (fr ≡ record { header = header_of ft 0 0; payload = empty_payload })
  unfolding decode_sized
  decode_sized-empty c c' fr ft n k z e = ground arith

  pub decode_sized-full :
      (c c' : S) (fr : Frame) (ft n k : ℕ)
      → n ≢ 0
      → decode_sized net c ft n k ≡ (c', ok fr)
      → (full : List ℕ) × (n ≤ max_payload_size)
        × (net.peek c (header_frame_size + n) ≡ bytes full)
        × (decode_payload_buf net c ft n k full ≡ (c', ok fr))
  unfolding decode_sized
  decode_sized-full c c' fr ft n k z e = ground arith

pub Accepted-whole :
    (ft : ℕ) (buf after : List ℕ)
    → Byte ft
    → All Byte buf
    → 17 ≤ length buf
    → length buf ≤ max_payload_size
    → Accepted (header_bytes ft (length buf) (checksum_ieee buf) ++ (buf ++ after)) after (record {
      header = header_of ft (length buf) (checksum_ieee buf);
      payload = payload_of buf;
    })
unfolding header_of
Accepted-whole ft buf after hf hb enough small =
    let same = payload_buf-payload_of buf enough in
    let size = wire_len-payload_of buf enough in
    whole (payload_of-IsWire ft _ _ buf hf hb enough) (rw (same, size) refl)
      ((encode-eq-ok_iff _ _).1 (rw size small, refl))
      (rw (same, size) (sym (append_assoc (header_bytes ft _ _) buf after)))

module _ {S : Type 0} (net : GnetConn S) where
  peeked-ok :
      (c c' : S) (fr : Frame) (p : Peeked)
      → (elim p [
        | short_buffer ↦ (c, err incomplete_frame)
        | peek_err e ↦ (c, err (io_err e))
        | bytes buf ↦ decode_header net c buf
      ])
        ≡ (c', ok fr)
      → (buf : List ℕ) × (p ≡ bytes buf) × (decode_header net c buf ≡ (c', ok fr))
  peeked-ok c c' fr (bytes buf) e = (buf, refl, e)
  peeked-ok c c' fr short_buffer e = cc
  peeked-ok c c' fr (peek_err x) e = cc

  pub decode-ok :
      (c c' : S) (fr : Frame)
      → decode net c ≡ (c', ok fr)
      → (buf : List ℕ) × (net.peek c header_frame_size ≡ bytes buf)
        × (decode_header net c buf ≡ (c', ok fr))
  unfolding decode
  decode-ok c c' fr e = peeked-ok c c' fr (net.peek c 12) e
