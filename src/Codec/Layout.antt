-- ===== src/Codec/Layout.antt =====
-- The bytes that Encode writes, against the layout that frame_codec.go describes: magic number,
-- version, type, length and checksum, each in its place, before protocol, request id and body.
use sdim.Base.{ℕ, ◌+◌, ◌%◌, ◌^◌, ◌/◌, ◌≤◌, ◌<◌, ◌≡◌, List, [], ◌∷◌, ◌++◌, length, ◌↔◌, arith, refl}
use sdim.Codec.Words.{put_uint16, put_uint32}
use sdim.Codec.Crc.{checksum_ieee}
use sdim.Codec.Frame.{Frame, frame_too_large}
use sdim.Codec.Wire.{ok, err, encode, payload_buf, header_bytes}

-- Four bytes, the highest first.
abbrev pub big_endian : ℕ → List ℕ
big_endian n = n / 16777216 % 256 ∷ n / 65536 % 256 ∷ n / 256 % 256 ∷ n % 256 ∷ []

-- A frame of a type, a protocol, a request id and a body.
abbrev pub layout : ℕ → ℕ → List ℕ → List ℕ → List ℕ
layout ftype protocol req_id body =
    0xca ∷ 0xfe ∷ 1 ∷ ftype ∷ big_endian (17 + length body)
    ++ (big_endian (checksum_ieee (protocol ∷ req_id ++ body)) ++ protocol ∷ req_id ++ body)

header_bytes-layout :
    (ftype n c : ℕ) (rest : List ℕ)
    → n ≤ 1048576
    → header_bytes ftype n c ++ rest
      ≡ 0xca ∷ 0xfe ∷ 1 ∷ ftype ∷ big_endian n ++ (big_endian c ++ rest)
unfolding header_bytes put_uint16 put_uint32
header_bytes-layout ftype n c rest h = rw (small) refl
  where
    small : n % 2 ^ 32 ≡ n
    small = omega arith

-- Encode returns bytes exactly for a frame whose payload of 17 bytes and the body has at most one
-- mebibyte, and they are: 0xCA 0xFE, the version 1, the type, the length of the payload and the
-- checksum of it, highest byte first in both, then the protocol, the request id and the body. Any
-- other frame is refused as too large.
pub encode-layout_iff :
    (fr : Frame) (bs : List ℕ)
    → ((encode fr ≡ ok bs) ↔ (
        (17 + length fr.payload.body ≤ 1048576)
        × (bs
            ≡ layout fr.header.ftype fr.payload.payload_protocol fr.payload.req_id
                fr.payload.body)))
      × ((encode fr ≡ err frame_too_large) ↔ (1048576 < 17 + length fr.payload.body))
unfolding encode payload_buf
encode-layout_iff fr bs =
    let same =
      header_bytes-layout fr.header.ftype (17 + length fr.payload.body)
        (checksum_ieee (payload_buf fr.payload)) (payload_buf fr.payload) in
    ((λ h. ground (arith, same), λ h. ground (arith, same)), (λ h. ground arith, λ h. ground arith))
