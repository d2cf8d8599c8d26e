-- ===== src/Engine/Examples.antt =====
-- Two frames and the start of a third, in one batch.
use sdim.Engine.Batch.{stream, on_traffic-frames}
use sdim.Codec.Roundtrip.{wire_bytes, stamped}
use sdim.Codec.Examples.{list_net, hello, list_net-Behaves, hello-IsWire, hello_fits}
use sdim.Engine.Traffic.{on_traffic, go_on}
use sdim.Codec.Words.{put_uint16, put_uint32}
use sdim.Codec.Wire.{header_bytes, payload_buf}
use sdim.Base.{List, ℕ, ◌∷◌, ◌≡◌, [], drop, length, ◌+◌, refl, suc, true, ◌++◌, some, map}

-- What has arrived of the third frame.
abbrev arrived : List ℕ
arrived = 0xca ∷ 0xfe ∷ []

third_started : 0xca ∷ 0xfe ∷ 1 ∷ drop 3 (wire_bytes hello) ≡ wire_bytes hello
unfolding header_bytes payload_buf put_uint16 put_uint32
third_started = refl

on_traffic-frames_example :
    (c' : List ℕ) × (c' ≡ arrived)
    × (on_traffic list_net
          (length (hello ∷ hello ∷ []) + suc 3)
          (λ authed frs. go_on)
          (true, true)
          true
          (stream (hello ∷ hello ∷ []) ++ arrived)
        ≡ (c', go_on, some (map stamped (hello ∷ hello ∷ []))))
on_traffic-frames_example =
    on_traffic-frames list_net list_net-Behaves hello hello (hello ∷ []) 3
      (stream (hello ∷ hello ∷ []) ++ arrived) arrived 1 (drop 3 (wire_bytes hello))
      (λ authed frs. go_on) true true ((hello-IsWire, hello_fits), ((hello-IsWire, hello_fits), tt))
      (hello-IsWire, hello_fits) refl third_started
