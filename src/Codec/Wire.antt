-- ===== src/Codec/Wire.antt =====
-- frame_codec_impl.go: Encode and Decode.
use sdim.Base.{
  ℕ, ◌+◌, ◌-◌, ◌%◌, ◌^◌, List, [], ◌∷◌, ◌++◌, length, take, drop, get_or, Bool, true, false, ◌&&◌,
  not, ltb, ◌==◌, if◌then◌else◌,
}
use sdim.Codec.Words.{put_uint16, put_uint32, uint32}
use sdim.Codec.Crc.{checksum_ieee}
use sdim.Codec.Net.{GnetConn, bytes, short_buffer, peek_err}
use sdim.Codec.Frame.{
  Frame, FrameHeader, Payload, CodecError, invalid_frame, frame_too_large, incomplete_frame,
  invalid_magic, version_un_support, checksum_failed, io_err, header_frame_size, max_payload_size,
  magic_number, version, req_id_size, empty_payload,
}

pub data Result {ℓ} (A : Type ℓ) : Type ℓ where
  ok : A → Result A
  err : CodecError → Result A

-- The Go slice b[i:j].
abbrev slice : ℕ → ℕ → List ℕ → List ℕ
slice i j b = take (j - i) (drop i b)

-- The bytes under the checksum.
unfoldable pub payload_buf : Payload → List ℕ
payload_buf pl = pl.payload_protocol ∷ pl.req_id ++ pl.body

unfoldable pub header_bytes : ℕ → ℕ → ℕ → List ℕ
unfolding put_uint16 put_uint32
header_bytes ftype payload_len checksum =
    put_uint16 magic_number
    ++ version ∷ ftype ∷ put_uint32 (payload_len % 2 ^ 32)
    ++ put_uint32 checksum

unfoldable pub encode : Frame → Result (List ℕ)
unfolding payload_buf header_bytes
encode fr =
    let payload_len = 1 + req_id_size + length fr.payload.body in
    let buf = payload_buf fr.payload in
    if ltb max_payload_size payload_len
    then err frame_too_large
    else ok (header_bytes fr.header.ftype payload_len (checksum_ieee buf) ++ buf)

-- bytes.Equal
abbrev bytes_equal : List ℕ → List ℕ → Bool
bytes_equal [] [] = true
bytes_equal (x ∷ xs) (y ∷ ys) = x == y && bytes_equal xs ys
bytes_equal _ _ = false

unfoldable pub header_of : ℕ → ℕ → ℕ → FrameHeader
header_of ftype payload_len checksum = record {
  magic = magic_number;
  version = version;
  ftype = ftype;
  payload_len = payload_len;
  check_sum = checksum;
}

module _ {S : Type 0} (net : GnetConn S) where
  -- Steps 6 to 10, once the whole frame is in `full_buf`.
  unfoldable pub decode_payload_buf : S → ℕ → ℕ → ℕ → List ℕ → S × Result Frame
  unfolding header_of
  decode_payload_buf c ftype payload_len checksum full_buf =
      let buf = drop header_frame_size full_buf in
      if not (checksum == checksum_ieee buf)
      then (c, err checksum_failed)
      else if ltb (length buf) (1 + req_id_size)
      then (c, err invalid_frame)
      else (
        net.discard c (header_frame_size + payload_len),
        ok (record {
          header = header_of ftype payload_len checksum;
          payload = record {
            payload_protocol = get_or buf 0 0;
            req_id = slice 1 17 buf;
            body = drop 17 buf;
          };
        }),
      )

  -- Steps 4 and 5, with the fields of the header read.
  unfoldable pub decode_sized : S → ℕ → ℕ → ℕ → S × Result Frame
  unfolding decode_payload_buf header_of
  decode_sized c ftype payload_len checksum =
      if ltb max_payload_size payload_len
      then (c, err frame_too_large)
      else if payload_len == 0
      then (if not (checksum == 0) then (c, err checksum_failed) else (
        net.discard c header_frame_size,
        ok (record { header = header_of ftype 0 0; payload = empty_payload }),
      ))
      else (elim (net.peek c (header_frame_size + payload_len)) [
        | short_buffer ↦ (c, err incomplete_frame)
        | peek_err e ↦ (c, err (io_err e))
        | bytes full_buf ↦ decode_payload_buf c ftype payload_len checksum full_buf
      ])

  unfoldable pub decode_header : S → List ℕ → S × Result Frame
  unfolding decode_sized put_uint16 uint32
  decode_header c buf =
      if not (bytes_equal (put_uint16 magic_number) (slice 0 2 buf))
      then (c, err invalid_magic)
      else if not (get_or buf 2 0 == version)
      then (c, err version_un_support)
      else decode_sized c (get_or buf 3 0) (uint32 (slice 4 8 buf)) (uint32 (slice 8 12 buf))

  unfoldable pub decode : S → S × Result Frame
  unfolding decode_header
  decode c = elim (net.peek c header_frame_size) [
    | short_buffer ↦ (c, err incomplete_frame)
    | peek_err e ↦ (c, err (io_err e))
    | bytes buf ↦ decode_header c buf
  ]
