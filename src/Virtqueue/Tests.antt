-- ===== src/Virtqueue/Tests.antt =====
-- Chains and rings in a small guest RAM, and the theorems at concrete inputs.
use amber.Prelude.{
  ℕ, zero, suc, ◌+◌, ◌%◌, ◌^◌, ◌≤◌, ◌<◌, ◌≡◌, refl, ◌≢◌, true, List, [], ◌∷◌, arith, length, get_or,
  All, IsByte, wrapping_add,
}
use amber.Memory.{GuestRam, read_u16, read_u32, read_u64, in_range, offset, read}
use amber.Memory.Cells.{cells}
use amber.Memory.Access.{IsRam}
use amber.Virtqueue.{
  Queue, collect_chain, chain_loop, desc_buf, push_used, inject_one, next_rx_capacity, next_head,
  nothing_posted,
}
use amber.Virtqueue.Chain.{IsSafe, last, link, collect_chain_bounds, collect_chain-Linked, desc_at}
use amber.Virtqueue.Used.{slot_at, used_idx, push_used_lem}
use amber.Virtqueue.Inject.{inject_one_fits, Filled, next_bufs}

-- Descriptor table at 0, available ring at 64, used ring at 96, data at 128. Descriptor 0 is a
-- readable buffer of 4 bytes linked to descriptor 2, a writable one of 8.
abbrev image : List ℕ
image =
    128 ∷ 0 ∷ 0 ∷ 0 ∷ 0 ∷ 0 ∷ 0 ∷ 0 ∷ 4 ∷ 0 ∷ 0 ∷ 0 ∷ 1 ∷ 0 ∷ 2 ∷ 0 ∷ 0 ∷ 0 ∷ 0 ∷ 0 ∷ 0 ∷ 0 ∷ 0 ∷ 0
    ∷ 0 ∷ 0 ∷ 0 ∷ 0 ∷ 0 ∷ 0 ∷ 0 ∷ 0 ∷ 136 ∷ 0 ∷ 0 ∷ 0 ∷ 0 ∷ 0 ∷ 0 ∷ 0 ∷ 8 ∷ 0 ∷ 0 ∷ 0 ∷ 2 ∷ 0 ∷ 0
    ∷ 0 ∷ 0 ∷ 0 ∷ 0 ∷ 0 ∷ 0 ∷ 0 ∷ 0 ∷ 0 ∷ 0 ∷ 0 ∷ 0 ∷ 0 ∷ 0 ∷ 0 ∷ 0 ∷ 0 ∷ 0 ∷ 0 ∷ 1 ∷ 0 ∷ 0 ∷ 0 ∷ []

abbrev pub rings : GuestRam
rings = record { host = λ o. get_or image o 0; base = 0; len = 256 }

image-IsByte : (o : ℕ) → get_or image o 0 < 256
image-IsByte o = in_list image o (omega arith)
  where
    in_list : (xs : List ℕ) (o : ℕ) → All IsByte xs → get_or xs o 0 < 256
    in_list [] o h = omega arith
    in_list (x ∷ xs) zero h = h.0
    in_list (x ∷ xs) (suc o) h = in_list xs o h.1

pub rings-IsRam : IsRam rings
rings-IsRam = record { bytes = image-IsByte; fits = omega arith; sized = omega arith }

abbrev pub ring_queue : Queue
ring_queue = record { num = 4; ready = 1; desc = 0; avail = 64; used = 96; last_avail = 0 }

two_buffers : length (collect_chain rings 0 0 4) ≡ 2
unfolding collect_chain chain_loop desc_buf read_u16 read_u32 read_u64 read offset cells in_range
two_buffers = refl

collect_chain_bounds_example :
    (length (collect_chain rings 0 0 4) ≤ 4) × All (IsSafe rings) (collect_chain rings 0 0 4)
collect_chain_bounds_example = collect_chain_bounds rings 0 0 4 rings-IsRam

collect_chain-Linked_example :
    collect_chain rings 0 0 4 ≡ desc_buf rings (desc_at 0 0) ∷ desc_buf rings (desc_at 0 2) ∷ []
unfolding read_u16 read offset cells
collect_chain-Linked_example =
    collect_chain-Linked rings 0 0 4 (0 ∷ 2 ∷ [])
      (link 0 (omega arith) refl (last 2 (omega arith) refl)) (omega arith)

push_used_lem_example :
    (used_idx (push_used rings 96 2 9 4) 96 ≡ (used_idx rings 96 + 1) % 2 ^ 16)
    × (read_u32 (push_used rings 96 2 9 4) (slot_at 96 (used_idx rings 96 % 4)) ≡ 2)
    × (read_u32 (push_used rings 96 2 9 4) (slot_at 96 (used_idx rings 96 % 4) + 4) ≡ 9)
    × (1 ≢ used_idx rings 96 % 4
        → (read_u32 (push_used rings 96 2 9 4) (slot_at 96 1) ≡ read_u32 rings (slot_at 96 1))
          × (read_u32 (push_used rings 96 2 9 4) (slot_at 96 1 + 4)
              ≡ read_u32 rings (slot_at 96 1 + 4)))
push_used_lem_example =
    push_used_lem rings 96 2 9 4 1 rings-IsRam
      (record { low = omega arith; high = omega arith; some_slot = omega arith }) (omega arith)
      (omega arith) (omega arith)

inject_one_fits_example :
    (ram' : GuestRam) × Filled rings (next_bufs rings ring_queue) (1 ∷ 2 ∷ 3 ∷ []) ram'
    × (inject_one rings ring_queue (1 ∷ 2 ∷ 3 ∷ []) ≡ (
      push_used ram' 96 (next_head rings ring_queue) 3 (4 % 2 ^ 16),
      record ring_queue { last_avail = wrapping_add 16 0 1 },
      true,
    ))
unfolding next_rx_capacity nothing_posted next_head collect_chain chain_loop desc_buf read_u16
    read_u32 read_u64 read offset cells in_range
inject_one_fits_example =
    inject_one_fits rings ring_queue (1 ∷ 2 ∷ 3 ∷ []) 8 refl (omega arith) (omega arith)
