-- ===== src/Codec/Words.antt =====
-- encoding/binary's BigEndian, over bytes as numbers: two- and four-byte words.
use sdim.Base.{ℕ, ◌+◌, ◌*◌, ◌/◌, ◌%◌, ◌^◌, ◌<◌, ◌≡◌, List, [], ◌∷◌, arith, get_or}

abbrev pub Byte : ℕ → Type 0
Byte b = b < 256

unfoldable pub put_uint16 : ℕ → List ℕ
put_uint16 v = v / 2 ^ 8 % 256 ∷ v % 256 ∷ []

unfoldable pub put_uint32 : ℕ → List ℕ
put_uint32 v = v / 2 ^ 24 % 256 ∷ v / 2 ^ 16 % 256 ∷ v / 2 ^ 8 % 256 ∷ v % 256 ∷ []

unfoldable pub uint32 : List ℕ → ℕ
uint32 b = get_or b 0 0 * 2 ^ 24 + get_or b 1 0 * 2 ^ 16 + get_or b 2 0 * 2 ^ 8 + get_or b 3 0

pub uint32-put_uint32 : (v : ℕ) → v < 2 ^ 32 → uint32 (put_uint32 v) ≡ v
unfolding uint32 put_uint32
uint32-put_uint32 v h = omega arith

-- The length of a payload goes through a conversion to uint32.
pub uint32-put_uint32_mod : (v : ℕ) → v < 2 ^ 32 → uint32 (put_uint32 (v % 2 ^ 32)) ≡ v
unfolding uint32 put_uint32
uint32-put_uint32_mod v h = omega arith

pub uint32-lt :
    (a b c d : ℕ) → Byte a → Byte b → Byte c → Byte d → uint32 (a ∷ b ∷ c ∷ d ∷ []) < 2 ^ 32
unfolding uint32
uint32-lt a b c d ha hb hc hd = omega arith

pub put_uint32-uint32 :
    (a b c d : ℕ)
    → Byte a
    → Byte b
    → Byte c
    → Byte d
    → put_uint32 (uint32 (a ∷ b ∷ c ∷ d ∷ [])) ≡ a ∷ b ∷ c ∷ d ∷ []
unfolding uint32 put_uint32
put_uint32-uint32 a b c d ha hb hc hd = ground arith
