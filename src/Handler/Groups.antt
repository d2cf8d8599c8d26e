-- ===== src/Handler/Groups.antt =====
-- The two groups of a batch, by the type that a frame has on the wire.
use mathlib.Core.Path.{fun_ext}
use sdim.Codec.Frame.{Frame, ping}
use sdim.Base.{List, ◌==◌, Bool, not, ◌≡◌, ◌∙◌, ap, arith}
use sdim.Handler.Frames.{GroupByIt, filter, ping_or_other}

-- The pings of a batch, and its other frames, by the type that a frame has on the wire.
abbrev pub pings_of : List Frame → List Frame
pings_of frs = filter (λ fr. fr.header.ftype == ping) frs

abbrev pub others_of : List Frame → List Frame
others_of frs = filter (λ fr. not (fr.header.ftype == ping)) frs

is_ping_key : (fr : Frame) → (ping_or_other fr == 0) ≡ (fr.header.ftype == ping)
unfolding ping_or_other
is_ping_key fr = ground arith

is_other_key : (fr : Frame) → (ping_or_other fr == 1) ≡ not (fr.header.ftype == ping)
unfolding ping_or_other
is_other_key fr = ground arith

pub group_by_it-pings :
    (groups : GroupByIt Frame) (frs : List Frame)
    → groups.group_by_it frs ping_or_other 0 ≡ pings_of frs
group_by_it-pings groups frs =
    groups.group_by_it-key frs ping_or_other 0
    ∙ ap (λ (p : Frame → Bool). filter p frs) (fun_ext is_ping_key)

pub group_by_it-others :
    (groups : GroupByIt Frame) (frs : List Frame)
    → groups.group_by_it frs ping_or_other 1 ≡ others_of frs
group_by_it-others groups frs =
    groups.group_by_it-key frs ping_or_other 1
    ∙ ap (λ (p : Frame → Bool). filter p frs) (fun_ext is_other_key)
