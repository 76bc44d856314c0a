-- ===== src/Proto/Tests.antt =====
-- crates/amber/src/proto.rs: two frames, whole and torn.
use amber.Prelude.{ℕ, List, [], ◌∷◌, arith}
use amber.Proto.{tag_stdout, tag_reply}
use amber.Proto.Frames.{IsRead, written, written-IsRead}

abbrev frames : List (ℕ × List ℕ)
frames = (tag_stdout, 104 ∷ 105 ∷ []) ∷ (tag_reply, []) ∷ []

written-IsRead_example : IsRead frames (written frames)
written-IsRead_example = written-IsRead frames (omega arith, (omega arith, tt))
