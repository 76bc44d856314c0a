-- ===== src/Devices/Ranges.antt =====
-- crates/amber-core/src/virtio.rs: the balloon gives back ranges of guest RAM only.
use amber.Prelude.{
  ℕ, zero, suc, ◌+◌, ◌/◌, ◌≤◌, inl, inr, List, [], ◌∷◌, arith, ◌==◌, Bool-cases, Option-cases, All,
  All-append,
}
use amber.Memory.{GuestRam, host_ptr_at, offset}
use amber.Memory.Access.{offset-some}
use amber.Virtqueue.{Buf}
use amber.Devices.{madvise, inflate_loop, inflate, report, balloon_handle}

module _ (ram : GuestRam) where
  abbrev pub IsInside : List (ℕ × ℕ) → Type 0
  IsInside ranges = All (λ r. r.0 + r.1 ≤ ram.len) ranges

  madvise-IsInside : (gpa len : ℕ) → IsInside (madvise ram gpa len)
  unfolding madvise host_ptr_at
  madvise-IsInside gpa len = elim (Option-cases (offset ram gpa len)) [
    | inl e ↦ rw (madvise, e) tt
    | inr (off, e) ↦ rw (madvise, e) (let s = offset-some ram gpa len e in (omega (arith, s), tt))
  ]

  inflate_loop-IsInside : (addr i rounds : ℕ) → IsInside (inflate_loop ram addr i rounds)
  unfolding inflate_loop
  inflate_loop-IsInside addr i zero = tt
  inflate_loop-IsInside addr i (suc rounds) =
      All-append _ _ _ (madvise-IsInside _ 4096) (inflate_loop-IsInside addr (i + 1) rounds)

  inflate-IsInside : (bufs : List Buf) → IsInside (inflate ram bufs)
  unfolding inflate
  inflate-IsInside [] = tt
  inflate-IsInside (b ∷ bufs) =
      All-append _ _ _ (inflate_loop-IsInside b.addr 0 (b.len / 4)) (inflate-IsInside bufs)

  report-IsInside : (bufs : List Buf) → IsInside (report ram bufs)
  unfolding report
  report-IsInside [] = tt
  report-IsInside (b ∷ bufs) =
      All-append _ _ _ (madvise-IsInside b.addr b.len) (report-IsInside bufs)

  -- Whatever page-frame numbers and ranges the guest hands to the balloon, on any queue, each range
  -- that the host is told to drop lies within the mapping of guest RAM.
  pub balloon_handle-IsInside :
      (queue : ℕ) (bufs : List Buf) → All (λ r. r.0 + r.1 ≤ ram.len) (balloon_handle queue ram bufs)
  unfolding balloon_handle
  balloon_handle-IsInside queue bufs = elim (Bool-cases (queue == 0)) [
    | inl e ↦ rw e (inflate-IsInside bufs)
    | inr e ↦ elim (Bool-cases (queue == 2)) [
      | inl e' ↦ rw (e, e') (report-IsInside bufs)
      | inr e' ↦ rw (e, e') tt
    ]
  ]
