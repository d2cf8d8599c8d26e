-- ===== src/Codec/Sound.antt =====
-- What Decode accepts.
use sdim.Codec.Shapes.{
  Accepted, take_beyond_exact, decode_header-ok, decode-ok, decode_payload_buf-ok, split_header,
  payload_of, Accepted-whole, All-take, decode_sized-empty, bare, decode_sized-full,
}
use mathlib.Core.List.{append_assoc}
use native.Mathlib.Decide.{ℕ_discrete, dec_lt}
use sdim.Codec.Roundtrip.{length-header_bytes}
use sdim.Base.{
  ℕ, ◌≡◌, [], ◌∷◌, arith, List, take, All, length, drop, ◌≤◌, ◌+◌, ◌++◌, ap, take-append-drop,
  length-take, refl, sym, ◌∙◌, length-append, subst, ap₂,
}
use sdim.Codec.Words.{Byte}
use sdim.Codec.Net.{GnetConn, Behaves, bytes, short_buffer, discard_prefix}
use sdim.Codec.Frame.{Frame, header_frame_size, max_payload_size}
use sdim.Codec.Wire.{
  ok, header_bytes, decode_sized, decode_header, header_of, decode_payload_buf, decode,
}

never : {b : List ℕ} → short_buffer ≡ bytes b → ⊥
never e = cc

bytes-injective : {a b : List ℕ} → bytes a ≡ bytes b → a ≡ b
bytes-injective e = cc

Accepted-cast :
    {b b' a a' : List ℕ} {fr fr' : Frame}
    → b ≡ b'
    → a ≡ a'
    → fr ≡ fr'
    → Accepted b' a' fr'
    → Accepted b a fr
Accepted-cast p q r t = rw (p, q, r) t

module _ {S : Type 0} (net : GnetConn S) {buffered : S → List ℕ}
    (lawful : Behaves net buffered) where
  decode_sized-ok :
      (c c' : S) (fr : Frame) (ft n k : ℕ) (rest : List ℕ)
      → Byte ft
      → All Byte rest
      → buffered c ≡ header_bytes ft n k ++ rest
      → decode_sized net c ft n k ≡ (c', ok fr)
      → Accepted (buffered c) (buffered c') fr
  decode_sized-ok c c' fr ft n k rest hf hb b e = elim (ℕ_discrete n 0) [
    | yes z ↦
        let (kz, cz, fz) = decode_sized-empty net c c' fr ft n k z e in
        let after : buffered c' ≡ rest =
          ap buffered cz
          ∙ discard_prefix lawful c 12 (header_bytes ft n k) rest b (length-header_bytes ft n k) in
        Accepted-cast (b ∙ ap₂ (λ n k. header_bytes ft n k ++ rest) z kz) after fz
          (bare ft refl refl)
    | no nz ↦
        let (full, small, seen, e') = decode_sized-full net c c' fr ft n k nz e in
        filled full small seen e'
  ]
    where
      filled :
          (full : List ℕ)
          → n ≤ max_payload_size
          → net.peek c (header_frame_size + n) ≡ bytes full
          → decode_payload_buf net c ft n k full ≡ (c', ok fr)
          → Accepted (buffered c) (buffered c') fr
      filled full small seen e' = elim (dec_lt (length (buffered c)) (12 + n)) [
        | yes short ↦ absurd (never (sym (lawful.peek_short c (12 + n) short) ∙ seen))
        | no enough ↦
            let h = header_bytes ft n k in
            let buf = take n rest in
            let total : length (buffered c) ≡ 12 + length rest =
              omega (arith, ap length b, length-append h rest, length-header_bytes ft n k) in
            let size : length buf ≡ n = length-take n rest (omega arith) in
            let whole_buf : full ≡ h ++ buf = bytes-injective (
              sym seen
              ∙ lawful.peek_enough c (12 + n) (omega arith)
              ∙ ap (λ l. bytes (take (12 + n) l)) b
              ∙ ap bytes (take_beyond_exact 12 n h rest (length-header_bytes ft n k))) in
            let (sum, long, cz, fz) =
              decode_payload_buf-ok net c c' fr ft n k h buf (length-header_bytes ft n k)
                (subst (λ f. decode_payload_buf net c ft n k f ≡ (c', ok fr)) whole_buf e') in
            let parts : buffered c ≡ (h ++ buf) ++ drop n rest =
              b
              ∙ ap (◌++◌ h) (sym (take-append-drop n rest))
              ∙ sym (append_assoc h buf (drop n rest)) in
            Accepted-cast
              (parts
                ∙ append_assoc h buf (drop n rest)
                ∙ ap₂ (λ m j. header_bytes ft m j ++ (buf ++ drop n rest)) (sym size) sum)
              (ap buffered cz
                ∙ discard_prefix lawful c (12 + n) (h ++ buf) (drop n rest) parts
                    (length-append h buf ∙ ap₂ ◌+◌ (length-header_bytes ft n k) size))
              (fz
                ∙ ap₂ (λ n k. record { header = header_of ft n k; payload = payload_of buf })
                    (sym size) sum)
              (Accepted-whole ft buf (drop n rest) hf (All-take Byte n rest hb) long
                (subst (λ m. m ≤ max_payload_size) (sym size) small))
      ]

  decode_header-Accepted :
      (c c' : S) (fr : Frame) (m0 m1 v ft n0 n1 n2 n3 k0 k1 k2 k3 : ℕ) (rest : List ℕ)
      → buffered c ≡ m0 ∷ m1 ∷ v ∷ ft ∷ n0 ∷ n1 ∷ n2 ∷ n3 ∷ k0 ∷ k1 ∷ k2 ∷ k3 ∷ rest
      → All Byte (m0 ∷ m1 ∷ v ∷ ft ∷ n0 ∷ n1 ∷ n2 ∷ n3 ∷ k0 ∷ k1 ∷ k2 ∷ k3 ∷ rest)
      → decode_header net c (m0 ∷ m1 ∷ v ∷ ft ∷ n0 ∷ n1 ∷ n2 ∷ n3 ∷ k0 ∷ k1 ∷ k2 ∷ k3 ∷ [])
        ≡ (c', ok fr)
      → Accepted (buffered c) (buffered c') fr
  decode_header-Accepted c c' fr m0 m1 v ft n0 n1 n2 n3 k0 k1 k2 k3 rest shape hb e =
      let hn = hb.1.1.1.1 in
      let hk = hn.1.1.1.1 in
      let (printed, e') =
        decode_header-ok net c c' fr m0 m1 v ft n0 n1 n2 n3 k0 k1 k2 k3 hn.0 hn.1.0 hn.1.1.0
          hn.1.1.1.0 hk.0 hk.1.0 hk.1.1.0 hk.1.1.1.0 e in
      decode_sized-ok c c' fr ft _ _ rest hb.1.1.1.0 hk.1.1.1.1
        (shape ∙ ap (λ l. l ++ rest) printed) e'

  -- A frame that Decode returns was in the buffer, and is gone from it: either a header alone,
  -- which stands for the empty payload, or exactly the bytes that Encode gives for the frame. The
  -- buffer holds bytes and gnet behaves as documented.
  pub decode-Accepted :
      (c c' : S) (fr : Frame)
      → All Byte (buffered c)
      → decode net c ≡ (c', ok fr)
      → Accepted (buffered c) (buffered c') fr
  decode-Accepted c c' fr hb e =
      let (buf, seen, e') = decode-ok net c c' fr e in
      elim (dec_lt (length (buffered c)) 12) [
        | yes short ↦ absurd (never (sym (lawful.peek_short c 12 short) ∙ seen))
        | no enough ↦
            let (m0, m1, v, ft, n0, n1, n2, n3, k0, k1, k2, k3, rest, shape) =
              split_header (buffered c) (omega arith) in
            let whole_header : buf ≡ m0 ∷ m1 ∷ v ∷ ft ∷ n0 ∷ n1 ∷ n2 ∷ n3 ∷ k0 ∷ k1 ∷ k2 ∷ k3 ∷ [] =
              bytes-injective (
                sym seen
                ∙ lawful.peek_enough c 12 (omega arith)
                ∙ ap (λ l. bytes (take 12 l)) shape) in
            decode_header-Accepted c c' fr m0 m1 v ft n0 n1 n2 n3 k0 k1 k2 k3 rest shape
              (subst (All Byte) shape hb)
              (subst (λ b. decode_header net c b ≡ (c', ok fr)) whole_header e')
      ]
