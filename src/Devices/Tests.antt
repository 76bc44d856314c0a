-- ===== src/Devices/Tests.antt =====
-- crates/amber-core/src/virtio.rs: a disk of zeros and a source that never fails, and the theorems at
-- concrete inputs.
use amber.Devices.{
  arith, Disk, BlkDevice, serve, blk_handle, s_ioerr, Entropy, rng_handle, balloon_handle,
}
use amber.Virtqueue.Tests.{rings, rings-IsRam}
use amber.Prelude.{
  if◌then◌else◌, ◌==◌, ℕ, ◌+◌, ◌^◌, ◌≤◌, ◌≡◌, refl, true, false, some, List, [], ◌∷◌, replicate,
  All,
}
use amber.Virtqueue.{Buf, collect_chain, writable_bufs, sum_len}
use amber.Devices.Block.{blk_handle_readonly, rng_handle-sum_len}
use amber.Devices.Ranges.{balloon_handle-IsInside}

-- The state counts the writes.
abbrev zeros : Disk ℕ
zeros = record {
  read_at = λ w offset n. some (replicate n 0);
  write_all_at = λ w bytes offset. (w + 1, true);
  sync_all = λ w. (w, true);
}

abbrev root_disk : BlkDevice ℕ
root_disk = record { disk = 0; capacity_sectors = 8; writable = false }

abbrev steady : Entropy ℕ
steady = record { read_exact = λ w n. (w, some (replicate n 4)) }

abbrev request : List Buf
request =
    record { addr = 0; len = 16; writable = false }
    ∷ record { addr = 64; len = 8; writable = true }
    ∷ record { addr = 100; len = 1; writable = true }
    ∷ []

blk_handle_readonly_example :
    ((blk_handle zeros root_disk rings request).0 ≡ root_disk)
    × ((parts : List Buf) (offset : ℕ) → (serve zeros root_disk rings parts 1 offset).2 ≡ s_ioerr)
blk_handle_readonly_example = blk_handle_readonly zeros root_disk rings request refl

rng_handle-sum_len_example :
    let bufs = collect_chain rings 0 0 4 in
    let sum = sum_len (writable_bufs bufs) in
    (sum ≤ 2 ^ 32) × ((rng_handle steady 0 rings bufs).2 ≡ (if sum == 2 ^ 32 then 0 else sum))
rng_handle-sum_len_example =
    rng_handle-sum_len steady (λ w n. (replicate n 4, refl)) 0 rings 0 0 4 rings-IsRam (omega arith)

balloon_handle-IsInside_example : All (λ r. r.0 + r.1 ≤ rings.len) (balloon_handle 2 rings request)
balloon_handle-IsInside_example = balloon_handle-IsInside rings 2 request
