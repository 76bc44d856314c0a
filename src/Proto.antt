-- ===== src/Proto.antt =====
-- crates/amber/src/proto.rs: the frames of the control protocol, `[tag][len: u32 LE][payload]`. A stream
-- is the bytes that are still to come; a read that finds too few of them is an error.
pub mod Frames
pub mod Tests
use amber.Prelude.{
  ℕ, zero, suc, ◌+◌, ◌-◌, ◌*◌, ◌/◌, ◌%◌, ◌^◌, ◌≤◌, ◌<◌, min, max, bit_and, bit_or, ◌≡◌, refl, sym,
  ap, ◌∙◌, ◌≢◌, ◌↔◌, ◌⊎◌, inl, inr, Bool, true, false, not, ◌&&◌, ◌||◌, Option, none, some, List,
  [], ◌∷◌, ◌++◌, map, append-nil, append_assoc, arith, ltb, leb, ◌==◌, if◌then◌else◌, Bool-cases,
  Option-cases, ◌>>=◌, is_some, length, get_elem?, get_or, set, take, drop, replicate, All, IsByte,
  keep, length-append, length-set, All-append, All-set, All-get_elem?, wrapping_add, wrapping_sub,
  not_u32, to_le, from_le, ==_iff, ltb→lt, lt→ltb, leb→le, le→leb, length-take, length-drop,
  length-replicate,
}

abbrev pub max_frame : ℕ
max_frame = 16777216

abbrev pub tag_request : ℕ
tag_request = 1

abbrev pub tag_reply : ℕ
tag_reply = 2

abbrev pub tag_stdout : ℕ
tag_stdout = 3

abbrev pub tag_stdin : ℕ
tag_stdin = 4

abbrev pub tag_stderr : ℕ
tag_stderr = 5

pub data FrameRead : Type 0 where
  frame : ℕ → List ℕ → List ℕ → FrameRead
  clean_eof : FrameRead
  cut_off : FrameRead
  too_large : FrameRead

-- The length is cut to a u32.
unfoldable pub write_frame : ℕ → List ℕ → List ℕ
write_frame tag payload = tag ∷ (to_le 4 (length payload) ++ payload)

-- `read_exact` of `n` bytes: they and the rest, or none where the stream ends first.
unfoldable pub read_exact : ℕ → List ℕ → Option (List ℕ × List ℕ)
read_exact n stream = if leb n (length stream) then some (take n stream, drop n stream) else none

unfoldable pub read_payload : ℕ → ℕ → List ℕ → FrameRead
read_payload tag len stream =
    if ltb max_frame len then too_large else elim (read_exact len stream) [
      | none ↦ cut_off
      | some (payload, rest) ↦ frame tag payload rest
    ]

unfoldable pub read_frame : List ℕ → FrameRead
read_frame [] = clean_eof
read_frame (tag ∷ stream) = elim (read_exact 4 stream) [
  | none ↦ cut_off
  | some (len, rest) ↦ read_payload tag (from_le len) rest
]
