-- ===== src/Codec/Partial.antt =====
-- Decode on a frame that has not arrived whole, and on what it refuses.
use sdim.Base.{
  ℕ, ◌+◌, ◌≤◌, ◌<◌, ◌≡◌, refl, ap, ◌∙◌, sym, List, [], ◌∷◌, ◌++◌, length, take, zero, suc, le→ltb,
  ◌==◌, arith, length-append, take_exact, false,
}
use native.Mathlib.Decide.{dec_lt}
use sdim.Codec.Crc.{checksum_ieee, checksum_ieee-lt}
use sdim.Codec.Net.{GnetConn, Behaves, bytes}
use sdim.Codec.Frame.{Frame, CodecError, incomplete_frame, header_frame_size, max_payload_size}
use sdim.Codec.Roundtrip.{
  IsWire, wire_len, wire_bytes, length-wire_bytes, length-header_bytes, decode_header-header_bytes,
}
use sdim.Codec.Wire.{
  err, payload_buf, header_bytes, decode_payload_buf, decode_sized, decode_header, decode,
}

take_prefix {ℓ} :
    {A : Type ℓ} (n : ℕ) (xs ys : List A) → n ≤ length xs → take n (xs ++ ys) ≡ take n xs
take_prefix zero xs ys h = refl
take_prefix (suc n) [] ys h = elim h [ ]
take_prefix (suc n) (x ∷ xs) ys h = ap (◌∷◌ x) (take_prefix n xs ys (omega arith))

module _ {S : Type 0} (net : GnetConn S) where
  decode_sized-short :
      {buffered : S → List ℕ}
      → Behaves net buffered
      → (c : S) (ft n checksum : ℕ) → 0 < n
      → n ≤ max_payload_size
      → length (buffered c) < header_frame_size + n
      → decode_sized net c ft n checksum ≡ (c, err incomplete_frame)
  unfolding decode_sized
  decode_sized-short lawful c ft n checksum pos small short =
      rw (le→ltb max_payload_size n small, nonzero, lawful.peek_short c (12 + n) short) refl
    where
      nonzero : (n == 0) ≡ false
      nonzero = ground arith

  -- While only a proper prefix of an encoded frame has arrived, Decode reports ErrIncompleteFrame
  -- and leaves the connection as it was. The frame fits the limit and gnet behaves as documented.
  pub decode-proper_prefix :
      {buffered : S → List ℕ}
      → Behaves net buffered
      → (c : S) (fr : Frame) (x : ℕ) (missing : List ℕ) → IsWire fr
      → wire_len fr.payload ≤ max_payload_size
      → buffered c ++ x ∷ missing ≡ wire_bytes fr
      → decode net c ≡ (c, err incomplete_frame)
  unfolding decode
  decode-proper_prefix {buffered} lawful c fr x missing w small b =
      elim (dec_lt (length (buffered c)) 12) [
        | yes short ↦ rw (lawful.peek_short c 12 short, decode) refl
        | no enough ↦
            rw (header_seen (omega arith), decode)
              (decode_header-header_bytes net c fr.header.ftype _ _ (omega arith)
                  (checksum_ieee-lt _)
                ∙ decode_sized-short lawful c _ _ _ (omega arith) small (omega (arith, total)))
      ]
    where
      total : length (buffered c) + length (x ∷ missing) ≡ 12 + wire_len fr.payload
      total =
          sym (length-append (buffered c) (x ∷ missing))
          ∙ ap length b
          ∙ length-wire_bytes fr w.req_id_length

      header_seen :
          12 ≤ length (buffered c)
          → net.peek c 12
            ≡ bytes (
                header_bytes fr.header.ftype
                  (wire_len fr.payload)
                  (checksum_ieee (payload_buf fr.payload)))
      header_seen h =
          lawful.peek_enough c 12 h
          ∙ ap bytes (
              sym (take_prefix 12 (buffered c) (x ∷ missing) h)
              ∙ ap (take 12) b
              ∙ take_exact 12 _ (payload_buf fr.payload) (length-header_bytes _ _ _))

  -- Whatever Decode refuses, it consumes nothing.
  pub decode-err : (c c' : S) (e : CodecError) → decode net c ≡ (c', err e) → c' ≡ c
  unfolding decode decode_header decode_sized decode_payload_buf
  decode-err c c' e h = ground arith
