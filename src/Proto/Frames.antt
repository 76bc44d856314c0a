-- ===== src/Proto/Frames.antt =====
-- crates/amber/src/proto.rs: what is written as frames is read as those frames, and a torn frame is an error.
use amber.Prelude.{
  ℕ, zero, suc, ◌+◌, ◌^◌, ◌≤◌, ◌<◌, ◌≡◌, refl, ap, ◌∙◌, true, false, none, some, List, [], ◌∷◌,
  ◌++◌, append_assoc, arith, ltb, leb, length, take, All, length-append, to_le, from_le,
  length-take, take_exact, drop_exact, length-to_le, from_le-to_le,
}
use amber.Proto.{
  max_frame, frame, clean_eof, cut_off, write_frame, read_exact, read_payload, read_frame,
}

read_exact-append :
    (xs ys : List ℕ) (n : ℕ) → length xs ≡ n → read_exact n (xs ++ ys) ≡ some (xs, ys)
unfolding read_exact
read_exact-append xs ys n h =
    let long : leb n (length (xs ++ ys)) ≡ true = ground (arith, length-append xs ys, h) in
    rw (long, take_exact xs ys n h, drop_exact xs ys n h) refl

read_exact-short : (n : ℕ) (xs : List ℕ) → length xs < n → read_exact n xs ≡ none
unfolding read_exact
read_exact-short n xs h = let short : leb n (length xs) ≡ false = ground (arith, h) in rw short refl

-- The header of a frame with `n` bytes of payload.
read_frame-length :
    (tag : ℕ) (len ys : List ℕ)
    → length len ≡ 4
    → read_frame (tag ∷ (len ++ ys)) ≡ read_payload tag (from_le len) ys
unfolding read_frame
read_frame-length tag len ys h = rw (read_frame, read_exact-append len ys 4 h) refl

read_frame-header :
    (tag n : ℕ) (ys : List ℕ)
    → n < 256 ^ 4
    → read_frame (tag ∷ (to_le 4 n ++ ys)) ≡ read_payload tag n ys
read_frame-header tag n ys h =
    read_frame-length tag (to_le 4 n) ys (length-to_le 4 n)
    ∙ ap (λ (k : ℕ). read_payload tag k ys) (from_le-to_le 4 n h)

read_frame-torn : (tag : ℕ) (xs : List ℕ) → length xs < 4 → read_frame (tag ∷ xs) ≡ cut_off
unfolding read_frame
read_frame-torn tag xs h = rw (read_frame, read_exact-short 4 xs h) refl

read_payload-whole :
    (tag : ℕ) (payload rest : List ℕ)
    → length payload ≤ max_frame
    → read_payload tag (length payload) (payload ++ rest) ≡ frame tag payload rest
unfolding read_payload
read_payload-whole tag payload rest h =
    let fits : ltb max_frame (length payload) ≡ false = ground (arith, h) in
    rw (fits, read_exact-append payload rest (length payload) refl) refl

read_payload-short :
    (tag n : ℕ) (xs : List ℕ) → n ≤ max_frame → length xs < n → read_payload tag n xs ≡ cut_off
unfolding read_payload
read_payload-short tag n xs h lt =
    let fits : ltb max_frame n ≡ false = ground (arith, h) in
    rw (fits, read_exact-short n xs lt) refl

-- A frame is read back, and what follows it stays.
read_frame-write_frame :
    (tag : ℕ) (payload rest : List ℕ)
    → length payload ≤ max_frame
    → read_frame (write_frame tag payload ++ rest) ≡ frame tag payload rest
unfolding write_frame
read_frame-write_frame tag payload rest h =
    ap (λ (bs : List ℕ). read_frame (tag ∷ bs))
      (append_assoc (to_le 4 (length payload)) payload rest)
    ∙ read_frame-header tag (length payload) (payload ++ rest) (omega (arith, h))
    ∙ read_payload-whole tag payload rest h

-- The bytes of some frames, and the reading of a stream as just those frames to its clean end.
abbrev pub written : List (ℕ × List ℕ) → List ℕ
written [] = []
written ((tag, payload) ∷ frames) = write_frame tag payload ++ written frames

abbrev pub IsRead : List (ℕ × List ℕ) → List ℕ → Type 0
IsRead [] stream = read_frame stream ≡ clean_eof
IsRead ((tag, payload) ∷ frames) stream =
    (rest : List ℕ) × (read_frame stream ≡ frame tag payload rest) × IsRead frames rest

abbrev pub IsSmall : ℕ × List ℕ → Type 0
IsSmall f = length f.1 ≤ max_frame

-- What is written as a sequence of frames of at most 16 MiB is read as that sequence, each tag with its
-- payload, and then as a clean end of the stream.
pub written-IsRead :
    (frames : List (ℕ × List ℕ)) → All IsSmall frames → IsRead frames (written frames)
written-IsRead [] h = unfold read_frame in refl
written-IsRead ((tag, payload) ∷ frames) (h, hs) = (
  written frames,
  read_frame-write_frame tag payload (written frames) h,
  written-IsRead frames hs,
)

-- The stream that ends inside a frame of at most 16 MiB, after its first byte or later, is an error: neither
-- a frame nor a clean end.
pub read_frame-cut_off :
    (tag : ℕ) (payload : List ℕ) (n : ℕ)
    → length payload ≤ max_frame
    → 0 < n
    → n < length (write_frame tag payload)
    → read_frame (take n (write_frame tag payload)) ≡ cut_off
unfolding write_frame
read_frame-cut_off tag payload zero h lo hi = absurd (omega arith)
read_frame-cut_off tag payload (suc k) h lo hi = torn k (
    omega (
      arith,
      hi,
      length-append (to_le 4 (length payload)) payload,
      length-to_le 4 (length payload),
    ))
  where
    early :
        (k : ℕ) → k < 4 → read_frame (tag ∷ take k (to_le 4 (length payload) ++ payload)) ≡ cut_off
    early k lt =
        let bytes = to_le 4 (length payload) ++ payload in
        read_frame-torn tag (take k bytes) (omega (arith, lt, length-take k bytes))

    torn :
        (k : ℕ)
        → k < 4 + length payload
        → read_frame (tag ∷ take k (to_le 4 (length payload) ++ payload)) ≡ cut_off
    torn zero lt = early zero (omega arith)
    torn (suc zero) lt = early (suc zero) (omega arith)
    torn (suc (suc zero)) lt = early (suc (suc zero)) (omega arith)
    torn (suc (suc (suc zero))) lt = early (suc (suc (suc zero))) (omega arith)
    torn (suc (suc (suc (suc j)))) lt =
        read_frame-header tag (length payload) (take j payload) (omega (arith, h))
        ∙ read_payload-short tag (length payload) (take j payload) h
            (omega (arith, lt, length-take j payload))
