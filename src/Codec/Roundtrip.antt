-- ===== src/Codec/Roundtrip.antt =====
-- Decode after Encode: the frame comes back and exactly its bytes are consumed.
use sdim.Base.{
  ℕ, ◌+◌, ◌≤◌, ◌<◌, ◌≡◌, refl, ap₂, ◌∙◌, List, ◌++◌, length, false, le→ltb, ◌==◌, ==_iff, ◌↔◌,
  arith, ◌^◌, length-append, take_exact, drop_exact, All,
}
use mathlib.Core.List.{append_assoc}
use sdim.Codec.Words.{Byte, uint32-put_uint32, uint32-put_uint32_mod}
use sdim.Codec.Crc.{checksum_ieee, checksum_ieee-lt}
use sdim.Codec.Net.{GnetConn, Behaves, bytes, peek_prefix, discard_prefix}
use sdim.Codec.Frame.{Frame, Payload, header_frame_size, max_payload_size, req_id_size}
use sdim.Codec.Wire.{
  ok, payload_buf, header_bytes, encode, header_of, decode_payload_buf, decode_sized, decode_header,
  decode,
}

-- What the Go types of a frame say: uint8 fields and an array of 16 bytes.
pub record IsWire (fr : Frame) : Type 0 where
  pub ftype_byte : Byte fr.header.ftype
  pub protocol_byte : Byte fr.payload.payload_protocol
  pub req_id_length : length fr.payload.req_id ≡ req_id_size
  pub req_id_bytes : All Byte fr.payload.req_id
  pub body_bytes : All Byte fr.payload.body

abbrev pub wire_len : Payload → ℕ
wire_len pl = 1 + req_id_size + length pl.body

abbrev pub stamped : Frame → Frame
stamped fr = record fr {
  header = header_of fr.header.ftype (wire_len fr.payload) (checksum_ieee (payload_buf fr.payload));
}

pub length-payload_buf :
    (pl : Payload) → length pl.req_id ≡ req_id_size → length (payload_buf pl) ≡ wire_len pl
unfolding payload_buf
length-payload_buf pl h = omega (arith, length-append pl.req_id pl.body)

pub length-header_bytes : (ft n c : ℕ) → length (header_bytes ft n c) ≡ header_frame_size
unfolding header_bytes
length-header_bytes ft n c = refl

-- The bytes of a frame.
abbrev pub wire_bytes : Frame → List ℕ
wire_bytes fr =
    header_bytes fr.header.ftype (wire_len fr.payload) (checksum_ieee (payload_buf fr.payload))
    ++ payload_buf fr.payload

-- Encode returns the bytes of the frame, or refuses a payload over the limit.
pub encode-eq-ok_iff :
    (fr : Frame) (bs : List ℕ)
    → (encode fr ≡ ok bs) ↔ ((wire_len fr.payload ≤ max_payload_size) × (bs ≡ wire_bytes fr))
unfolding encode
encode-eq-ok_iff fr bs = (λ h. ground arith, λ h. rw (le→ltb _ _ h.0, h.1))

pub length-wire_bytes :
    (fr : Frame)
    → length fr.payload.req_id ≡ req_id_size
    → length (wire_bytes fr) ≡ header_frame_size + wire_len fr.payload
length-wire_bytes fr h =
    length-append (header_bytes fr.header.ftype _ _) _
    ∙ ap₂ ◌+◌ (length-header_bytes _ _ _) (length-payload_buf fr.payload h)

module _ {S : Type 0} (net : GnetConn S) where
  decode_payload_buf-encoded :
      (c : S) (ft n : ℕ) (pl : Payload) (h : List ℕ)
      → length pl.req_id ≡ req_id_size
      → length h ≡ header_frame_size
      → decode_payload_buf net c ft n (checksum_ieee (payload_buf pl)) (h ++ payload_buf pl) ≡ (
        net.discard c (header_frame_size + n),
        ok (record { header = header_of ft n (checksum_ieee (payload_buf pl)); payload = pl }),
      )
  unfolding decode_payload_buf
  decode_payload_buf-encoded c ft n pl h hr hh =
      rw
        (
          drop_exact 12 h (payload_buf pl) hh,
          (==_iff (checksum_ieee (payload_buf pl)) _).1 refl,
          le→ltb (length (payload_buf pl)) 17 (omega (arith, length-payload_buf pl hr)),
        )
        (unfold payload_buf in
          rw (take_exact 16 pl.req_id pl.body hr, drop_exact 16 pl.req_id pl.body hr) refl)

  decode_sized-encoded :
      (c : S) (ft : ℕ) (pl : Payload) (h : List ℕ)
      → length pl.req_id ≡ req_id_size
      → length h ≡ header_frame_size
      → wire_len pl ≤ max_payload_size
      → net.peek c (header_frame_size + wire_len pl) ≡ bytes (h ++ payload_buf pl)
      → decode_sized net c ft (wire_len pl) (checksum_ieee (payload_buf pl)) ≡ (
        net.discard c (header_frame_size + wire_len pl),
        ok (record {
          header = header_of ft (wire_len pl) (checksum_ieee (payload_buf pl));
          payload = pl;
        }),
      )
  unfolding decode_sized
  decode_sized-encoded c ft pl h hr hh small peeked =
      rw (le→ltb max_payload_size (wire_len pl) small, pos, peeked)
        (decode_payload_buf-encoded c ft (wire_len pl) pl h hr hh)
    where
      pos : (wire_len pl == 0) ≡ false
      pos = ground arith

  pub decode_header-header_bytes :
      (c : S) (ft n checksum : ℕ)
      → n < 2 ^ 32
      → checksum < 2 ^ 32
      → decode_header net c (header_bytes ft n checksum) ≡ decode_sized net c ft n checksum
  unfolding decode_header header_bytes
  decode_header-header_bytes c ft n checksum hn hc =
      ap₂ (decode_sized net c ft) (uint32-put_uint32_mod n hn) (uint32-put_uint32 checksum hc)

  -- A connection whose inbound bytes begin with an encoded frame: Decode returns that frame, its
  -- header filled in, and discards exactly its bytes. The frame has the field widths of its Go
  -- types, and gnet behaves as documented.
  pub decode-encode :
      {buffered : S → List ℕ}
      → Behaves net buffered
      → (c : S) (fr : Frame) (bs rest : List ℕ) → IsWire fr
      → encode fr ≡ ok bs
      → buffered c ≡ bs ++ rest
      → (decode net c ≡ (net.discard c (length bs), ok (stamped fr)))
        × (buffered (net.discard c (length bs)) ≡ rest)
  unfolding decode
  decode-encode {buffered} lawful c fr bs rest w e b =
      let (small, shape) = (encode-eq-ok_iff fr bs).0 e in
      let pl : Payload = fr.payload in
      let h : List ℕ =
        header_bytes fr.header.ftype (wire_len pl) (checksum_ieee (payload_buf pl)) in
      let total = length-wire_bytes fr w.req_id_length in
      let whole : buffered c ≡ wire_bytes fr ++ rest = rw (← shape) b in
      let split : buffered c ≡ h ++ (payload_buf pl ++ rest) =
        whole ∙ append_assoc h (payload_buf pl) rest in
      rw (shape, total)
        (
          rw
              (
                peek_prefix lawful c 12 h (payload_buf pl ++ rest) split
                    (length-header_bytes _ _ _),
                decode,
              )
              (decode_header-header_bytes c fr.header.ftype (wire_len pl)
                  (checksum_ieee (payload_buf pl)) (omega arith) (checksum_ieee-lt _)
                ∙ decode_sized-encoded c fr.header.ftype pl h w.req_id_length
                    (length-header_bytes _ _ _) small
                    (peek_prefix lawful c _ (wire_bytes fr) rest whole total)),
          discard_prefix lawful c _ (wire_bytes fr) rest whole total,
        )
