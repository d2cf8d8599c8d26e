-- ===== src/Codec/Examples.antt =====
-- The codec on concrete frames, over a buffer that is a list of bytes.
use sdim.Codec.Shapes.{Accepted}
use sdim.Codec.Words.{put_uint16, put_uint32, uint32, Byte}
use sdim.Codec.Partial.{decode-err, decode-proper_prefix}
use sdim.Codec.Sound.{decode-Accepted}
use sdim.Codec.Wire.{
  encode, decode, header_bytes, ok, payload_buf, decode_header, header_of, err, decode_sized,
}
use sdim.Codec.Roundtrip.{IsWire, wire_len, wire_bytes, encode-eq-ok_iff, stamped, decode-encode}
use sdim.Codec.Layout.{layout, encode-layout_iff}
use sdim.Codec.Frame.{
  frame_too_large, Frame, send, json_payload, max_payload_size, invalid_magic, empty_payload,
  zero_req_id, incomplete_frame,
}
use sdim.Base.{
  ◌<◌, ◌+◌, List, ◌≡◌, ℕ, leb_of_le, ltb→lt, ◌≤◌, ◌∷◌, [], leb_of_lt, Bool, true, ◌↔◌, ◌++◌,
  if◌then◌else◌, refl, leb, ltb, All, arith, drop, length, ◌&&◌, false, take, Bool-cases, inl, inr,
}
use sdim.Codec.Net.{GnetConn, Behaves, bytes, short_buffer}

abbrev pub list_net : GnetConn (List ℕ)
list_net = record {
  peek = λ s n. if leb n (length s) then bytes (take n s) else short_buffer;
  discard = λ s n. drop n s;
  inbound_buffered = length;
}

pub list_net-Behaves : Behaves list_net (λ s. s)
list_net-Behaves = record {
  peek_enough = λ s n h. rw (leb_of_le _ _ h) refl;
  peek_short = λ s n h. rw (leb_of_lt _ _ h) refl;
  buffered-discard = λ s n h. refl;
  inbound-length = λ s. refl;
}

abbrev all_bytes : List ℕ → Bool
all_bytes [] = true
all_bytes (x ∷ xs) = ltb x 256 && all_bytes xs

all_bytes-Byte : (xs : List ℕ) → all_bytes xs ≡ true → All Byte xs
all_bytes-Byte [] h = tt
all_bytes-Byte (x ∷ xs) h = elim (Bool-cases (ltb x 256)) [
  | inl small ↦ (ltb→lt x 256 small, all_bytes-Byte xs (rw small at h))
  | inr large ↦ absurd (none_true (rw large at h))
]
  where
    none_true : ¬ (false ≡ true)
    none_true e = cc

-- A Send frame with the body "hi".
abbrev pub hello : Frame
hello = record {
  header = record { magic = 0; version = 0; ftype = send; payload_len = 0; check_sum = 0 };
  payload = record {
    payload_protocol = json_payload;
    req_id = zero_req_id;
    body = 0x68 ∷ 0x69 ∷ [];
  };
}

pub hello-IsWire : IsWire hello
hello-IsWire = record {
  ftype_byte = ltb→lt _ _ refl;
  protocol_byte = ltb→lt _ _ refl;
  req_id_length = refl;
  req_id_bytes = all_bytes-Byte zero_req_id refl;
  body_bytes = all_bytes-Byte (0x68 ∷ 0x69 ∷ []) refl;
}

pub hello_fits : wire_len hello.payload ≤ max_payload_size
hello_fits = omega arith

encode-hello : encode hello ≡ ok (wire_bytes hello)
encode-hello = (encode-eq-ok_iff hello (wire_bytes hello)).1 (hello_fits, refl)

encode-layout_iff_example :
    ((encode hello ≡ ok (wire_bytes hello)) ↔ (
      (17 + length hello.payload.body ≤ 1048576)
      × (wire_bytes hello
          ≡ layout hello.header.ftype hello.payload.payload_protocol hello.payload.req_id
              hello.payload.body)))
    × ((encode hello ≡ err frame_too_large) ↔ (1048576 < 17 + length hello.payload.body))
encode-layout_iff_example = encode-layout_iff hello (wire_bytes hello)

decode-encode_example :
    (decode list_net (wire_bytes hello ++ 1 ∷ [])
      ≡ (drop (length (wire_bytes hello)) (wire_bytes hello ++ 1 ∷ []), ok (stamped hello)))
    × (drop (length (wire_bytes hello)) (wire_bytes hello ++ 1 ∷ []) ≡ 1 ∷ [])
decode-encode_example =
    decode-encode list_net list_net-Behaves (wire_bytes hello ++ 1 ∷ []) hello (wire_bytes hello)
      (1 ∷ []) hello-IsWire encode-hello refl

-- The first two bytes of the frame.
started : 0xca ∷ 0xfe ∷ 1 ∷ drop 3 (wire_bytes hello) ≡ wire_bytes hello
unfolding header_bytes payload_buf put_uint16 put_uint32
started = refl

decode-proper_prefix_example :
    decode list_net (0xca ∷ 0xfe ∷ []) ≡ (0xca ∷ 0xfe ∷ [], err incomplete_frame)
decode-proper_prefix_example =
    decode-proper_prefix list_net list_net-Behaves (0xca ∷ 0xfe ∷ []) hello 1
      (drop 3 (wire_bytes hello)) hello-IsWire hello_fits started

-- A header with a wrong magic number.
abbrev wrong_magic : List ℕ
wrong_magic = 0xca ∷ 0xff ∷ 1 ∷ 1 ∷ 0 ∷ 0 ∷ 0 ∷ 0 ∷ 0 ∷ 0 ∷ 0 ∷ 0 ∷ []

refused : decode list_net wrong_magic ≡ (wrong_magic, err invalid_magic)
unfolding decode decode_header put_uint16
refused = refl

decode-err_example : wrong_magic ≡ wrong_magic
decode-err_example = decode-err list_net wrong_magic wrong_magic invalid_magic refused

-- A header with no payload, as a Ping may be.
abbrev bare_header : List ℕ
bare_header = 0xca ∷ 0xfe ∷ 1 ∷ 1 ∷ 0 ∷ 0 ∷ 0 ∷ 0 ∷ 0 ∷ 0 ∷ 0 ∷ 0 ∷ []

abbrev bare_frame : Frame
bare_frame = record { header = header_of 1 0 0; payload = empty_payload }

bare_decoded : decode list_net bare_header ≡ ([], ok bare_frame)
unfolding decode decode_header decode_sized put_uint16 uint32
bare_decoded = refl

decode-Accepted_example : Accepted bare_header [] bare_frame
decode-Accepted_example =
    decode-Accepted list_net list_net-Behaves bare_header [] bare_frame
      (all_bytes-Byte bare_header refl) bare_decoded
