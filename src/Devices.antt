-- ===== src/Devices.antt =====
-- crates/amber-core/src/virtio.rs: the block, entropy and balloon devices. The backing file, the
-- entropy source and the kernel behind `madvise` are the host's: the first two are records of
-- functions over the host's state, and a balloon's answer is the list of the ranges it gives back.
-- The rate limit of the block device only delays the guest and is left out.
pub mod Block
pub mod Ranges
pub mod Tests
use amber.Prelude.{
  ℕ, zero, suc, ◌+◌, ◌-◌, ◌*◌, ◌/◌, ◌%◌, ◌^◌, ◌≤◌, ◌<◌, min, max, bit_and, bit_or, ◌≡◌, refl, sym,
  ap, ◌∙◌, ◌≢◌, ◌↔◌, ◌⊎◌, inl, inr, Bool, true, false, not, ◌&&◌, ◌||◌, Option, none, some, List,
  [], ◌∷◌, ◌++◌, map, append-nil, append_assoc, arith, ltb, leb, ◌==◌, if◌then◌else◌, Bool-cases,
  Option-cases, ◌>>=◌, is_some, length, get_elem?, get_or, set, take, drop, replicate, All, IsByte,
  keep, length-append, length-set, All-append, All-set, All-get_elem?, wrapping_add, wrapping_sub,
  not_u32, to_le, from_le, ==_iff, ltb→lt, lt→ltb, leb→le, le→leb, length-take, length-drop,
  length-replicate,
}
use amber.Memory.{GuestRam, read_u32, read_u64, host_ptr_at}
use amber.Memory
use amber.Virtqueue.{Buf, writable_bufs}

-- `read_at` (none is an error), `write_all_at` and `sync_all` of a file.
pub record Disk (W : Type 0) : Type 0 where
  pub read_at : W → ℕ → ℕ → Option (List ℕ)
  pub write_all_at : W → List ℕ → ℕ → W × Bool
  pub sync_all : W → W × Bool

pub record BlkDevice (W : Type 0) : Type 0 where
  pub disk : W
  pub capacity_sectors : ℕ
  pub writable : Bool

abbrev pub s_ok : ℕ
s_ok = 0

abbrev pub s_ioerr : ℕ
s_ioerr = 1

abbrev pub s_unsupp : ℕ
s_unsupp = 2

abbrev pub readable : List Buf → List Buf
readable bufs = keep (λ b. not b.writable) bufs

-- The buffers between the header and the status.
abbrev pub data_bufs : List Buf → List Buf
data_bufs bufs = take (length bufs - 2) (drop 1 bufs)

-- The address of the last of the buffers `b ∷ bufs`.
abbrev pub status_addr : Buf → List Buf → ℕ
status_addr b [] = b.addr
status_addr b (b' ∷ bufs) = status_addr b' bufs

module _ {W : Type 0} (ops : Disk W) where
  -- A short read is filled with zeros, a failed one is all zeros.
  unfoldable pub read_disk : BlkDevice W → ℕ → ℕ → List ℕ
  read_disk d offset len = elim (ops.read_at d.disk offset len) [
    | some bytes ↦ bytes ++ replicate (len - length bytes) 0
    | none ↦ replicate len 0
  ]

  unfoldable pub features : BlkDevice W → ℕ → ℕ
  features d sel = if sel == 0 && not d.writable then 2 ^ 5 else 0

  unfoldable pub blk_config : BlkDevice W → ℕ → ℕ
  blk_config d off =
      if off == 0
      then d.capacity_sectors % 2 ^ 32
      else if off == 4
      then d.capacity_sectors / 2 ^ 32 % 2 ^ 32
      else 0

  -- T_IN over the writable buffers: the RAM and the bytes written.
  unfoldable pub in_loop : BlkDevice W → GuestRam → List Buf → ℕ → ℕ → GuestRam × ℕ
  in_loop d ram [] offset written = (ram, written)
  in_loop d ram (b ∷ bufs) offset written =
      in_loop d (Memory.write ram b.addr (read_disk d offset b.len)).0 bufs
        (wrapping_add 64 offset b.len) (wrapping_add 32 written b.len)

  -- T_OUT over the readable buffers, up to the first error.
  unfoldable pub out_loop : W → GuestRam → List Buf → ℕ → W × Bool
  out_loop w ram [] offset = (w, true)
  out_loop w ram (b ∷ bufs) offset =
      let r = ops.write_all_at w (Memory.read ram b.addr (replicate b.len 0)).1 offset in
      let rest = out_loop r.0 ram bufs (wrapping_add 64 offset b.len) in
      if r.1 then rest else (r.0, false)

  -- One request: the device, the RAM before the status byte, the status, and the bytes written.
  unfoldable pub serve : BlkDevice W → GuestRam → List Buf → ℕ → ℕ → BlkDevice W × GuestRam × ℕ × ℕ
  serve d ram parts req_type offset =
      if req_type == 0
      then (let r = in_loop d ram (writable_bufs parts) offset 0 in (d, r.0, s_ok, r.1))
      else if req_type == 1 && d.writable
      then (let r = out_loop d.disk ram (readable parts) offset in
          (record d { disk = r.0 }, ram, (if r.1 then s_ok else s_ioerr), 0))
      else if req_type == 1
      then (d, ram, s_ioerr, 0)
      else if req_type == 4
      then (let r = ops.sync_all d.disk in
          if d.writable
          then (record d { disk = r.0 }, ram, (if r.1 then s_ok else s_ioerr), 0)
          else (d, ram, s_ok, 0))
      else (d, ram, s_unsupp, 0)

  -- The answer is not reduced: `written + 1` panics or wraps in the source past the range of a u32.
  unfoldable pub blk_handle : BlkDevice W → GuestRam → List Buf → BlkDevice W × GuestRam × ℕ
  blk_handle d ram [] = (d, ram, 0)
  blk_handle d ram (b ∷ []) = (d, ram, 0)
  blk_handle d ram (b ∷ b' ∷ bufs) =
      let r =
        serve d ram (data_bufs (b ∷ b' ∷ bufs)) (read_u32 ram b.addr)
          (read_u64 ram (wrapping_add 64 b.addr 8) * 512 % 2 ^ 64) in
      (r.0, (Memory.write r.1 (status_addr b' bufs) (r.2 ∷ [])).0, r.3 + 1)

-- `read_exact` of the entropy source.
pub record Entropy (W : Type 0) : Type 0 where
  pub read_exact : W → ℕ → W × Option (List ℕ)

-- The bytes given out are summed as they are: `written += b.len` panics or wraps past a u32.
-- `written += b.len` on a u32: it wraps in a release build, where a debug build panics.
unfoldable pub rng_loop : {W : Type 0} → Entropy W → W → GuestRam → List Buf → ℕ → W × GuestRam × ℕ
rng_loop src w ram [] written = (w, ram, written)
rng_loop src w ram (b ∷ bufs) written =
    let r = src.read_exact w b.len in
    elim r.1 [
      | none ↦ rng_loop src r.0 ram bufs written
      | some bytes ↦
          rng_loop src r.0 (Memory.write ram b.addr bytes).0 bufs (wrapping_add 32 written b.len)
    ]

unfoldable pub rng_handle : {W : Type 0} → Entropy W → W → GuestRam → List Buf → W × GuestRam × ℕ
rng_handle src w ram bufs = rng_loop src w ram (writable_bufs bufs) 0

-- A range that the balloon advises away, by its host offset, if it is in guest RAM.
unfoldable pub madvise : GuestRam → ℕ → ℕ → List (ℕ × ℕ)
madvise ram gpa len = elim (host_ptr_at ram gpa len) [ some off ↦ (off, len) ∷ [] | none ↦ [] ]

-- The page-frame numbers of one inflate buffer, from the `i`th on.
unfoldable pub inflate_loop : GuestRam → ℕ → ℕ → ℕ → List (ℕ × ℕ)
inflate_loop ram addr i zero = []
inflate_loop ram addr i (suc rounds) =
    madvise ram (read_u32 ram (wrapping_add 64 addr (4 * i)) * 4096 % 2 ^ 64) 4096
    ++ inflate_loop ram addr (i + 1) rounds

unfoldable pub inflate : GuestRam → List Buf → List (ℕ × ℕ)
inflate ram [] = []
inflate ram (b ∷ bufs) = inflate_loop ram b.addr 0 (b.len / 4) ++ inflate ram bufs

unfoldable pub report : GuestRam → List Buf → List (ℕ × ℕ)
report ram [] = []
report ram (b ∷ bufs) = madvise ram b.addr b.len ++ report ram bufs

unfoldable pub balloon_handle : ℕ → GuestRam → List Buf → List (ℕ × ℕ)
balloon_handle queue ram bufs =
    if queue == 0 then inflate ram bufs else if queue == 2 then report ram bufs else []
