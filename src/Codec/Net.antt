-- ===== src/Codec/Net.antt =====
-- gnet.Conn, as the codec and the drive engine use it: a connection whose inbound buffer is peeked
-- at and discarded from. gnet is a third-party package, so the operations are parameters.
use sdim.Base.{
  ℕ, ◌≤◌, ◌<◌, ◌≡◌, ◌∙◌, ap, List, ◌++◌, length, take, drop, length-append, take_exact, drop_exact,
  arith,
}

-- What Peek returns: the bytes, io.ErrShortBuffer, or another error.
pub data Peeked : Type 0 where
  bytes : List ℕ → Peeked
  short_buffer : Peeked
  peek_err : ℕ → Peeked

pub record GnetConn (S : Type 0) : Type 0 where
  pub peek : S → ℕ → Peeked
  pub discard : S → ℕ → S
  pub inbound_buffered : S → ℕ

-- The documented behaviour: `buffered` is what has arrived and has not been discarded. Peek looks
-- at the first n bytes or reports ErrShortBuffer, and Discard drops them.
pub record Behaves {S : Type 0} (net : GnetConn S) (buffered : S → List ℕ) : Type 0 where
  pub peek_enough :
      (s : S) (n : ℕ) → n ≤ length (buffered s) → net.peek s n ≡ bytes (take n (buffered s))
  pub peek_short : (s : S) (n : ℕ) → length (buffered s) < n → net.peek s n ≡ short_buffer
  pub buffered-discard :
      (s : S) (n : ℕ) → n ≤ length (buffered s) → buffered (net.discard s n) ≡ drop n (buffered s)
  pub inbound-length : (s : S) → net.inbound_buffered s ≡ length (buffered s)

module _ {S : Type 0} {net : GnetConn S} {buffered : S → List ℕ}
    (lawful : Behaves net buffered) where
  -- The first bytes of the buffer, split off by Peek and by Discard.
  pub peek_prefix :
      (c : S) (n : ℕ) (xs ys : List ℕ)
      → buffered c ≡ xs ++ ys
      → length xs ≡ n
      → net.peek c n ≡ bytes xs
  peek_prefix c n xs ys b e =
      lawful.peek_enough c n (omega (arith, ap length b, length-append xs ys))
      ∙ ap (λ b. bytes (take n b)) b
      ∙ ap bytes (take_exact n xs ys e)

  pub discard_prefix :
      (c : S) (n : ℕ) (xs ys : List ℕ)
      → buffered c ≡ xs ++ ys
      → length xs ≡ n
      → buffered (net.discard c n) ≡ ys
  discard_prefix c n xs ys b e =
      lawful.buffered-discard c n (omega (arith, ap length b, length-append xs ys))
      ∙ ap (drop n) b
      ∙ drop_exact n xs ys e
