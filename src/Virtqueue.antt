-- ===== src/Virtqueue.antt =====
-- crates/amber-core/src/virtio.rs, the split-virtqueue mechanics: descriptor chains, the used ring,
-- and the delivery of one host payload. Every index, address and length is the guest's.
-- Words wrap as `wrapping_add` does. Each walk returns the guest RAM that it leaves.
pub mod Chain
pub mod Used
pub mod Inject
pub mod Tests
use amber.Prelude.{
  ℕ, zero, suc, ◌+◌, ◌-◌, ◌*◌, ◌/◌, ◌%◌, ◌^◌, min, bit_and, Bool, true, false, not, Option, none,
  some, List, [], ◌∷◌, if◌then◌else◌, leb, ltb, ◌==◌, ◌||◌, length, take, drop, wrapping_add, keep,
}
use amber.Memory.{GuestRam, in_range, write, read_u16, read_u32, read_u64, write_u16, write_u32}

abbrev pub queue_max : ℕ
queue_max = 256

abbrev pub virtq_desc_f_next : ℕ
virtq_desc_f_next = 1

abbrev pub virtq_desc_f_write : ℕ
virtq_desc_f_write = 2

-- 16 MiB.
abbrev pub max_desc_len : ℕ
max_desc_len = 16777216

pub record Buf : Type 0 where
  pub addr : ℕ
  pub len : ℕ
  pub writable : Bool

pub record Queue : Type 0 where
  pub num : ℕ
  pub ready : ℕ
  pub desc : ℕ
  pub avail : ℕ
  pub used : ℕ
  pub last_avail : ℕ

abbrev pub default_queue : Queue
default_queue = record { num = 0; ready = 0; desc = 0; avail = 0; used = 0; last_avail = 0 }

-- One descriptor as a buffer: the length is clamped, and 0 unless the buffer is inside guest RAM.
unfoldable pub desc_buf : GuestRam → ℕ → Buf
desc_buf ram d =
    let addr = read_u64 ram d in
    let len = min (read_u32 ram (wrapping_add 64 d 8)) max_desc_len in
    record {
      addr = addr;
      len = if in_range ram addr len then len else 0;
      writable = not (bit_and (read_u16 ram (wrapping_add 64 d 12)) virtq_desc_f_write == 0);
    }

-- `for _ in 0..qsz`, with the rounds left.
unfoldable pub chain_loop : GuestRam → ℕ → ℕ → ℕ → ℕ → List Buf
chain_loop ram desc qsz i zero = []
chain_loop ram desc qsz i (suc rounds) =
    let d = wrapping_add 64 desc (16 * i) in
    let flags = read_u16 ram (wrapping_add 64 d 12) in
    let next = read_u16 ram (wrapping_add 64 d 14) in
    let rest = chain_loop ram desc qsz next rounds in
    if leb qsz i
    then []
    else desc_buf ram d ∷ (if bit_and flags virtq_desc_f_next == 0 then [] else rest)

unfoldable pub collect_chain : GuestRam → ℕ → ℕ → ℕ → List Buf
collect_chain ram desc head qsz = chain_loop ram desc qsz head qsz

unfoldable pub push_used : GuestRam → ℕ → ℕ → ℕ → ℕ → GuestRam
push_used ram used id len qsz =
    if qsz == 0
    then ram
    else (let idx = read_u16 ram (wrapping_add 64 used 2) in
        let elem = wrapping_add 64 used (4 + 8 * (idx % qsz)) in
        let ram = write_u32 ram elem id in
        let ram = write_u32 ram (wrapping_add 64 elem 4) len in
        write_u16 ram (wrapping_add 64 used 2) (wrapping_add 16 idx 1))

-- The sum of the lengths, as a `usize`.
abbrev pub sum_len : List Buf → ℕ
sum_len [] = 0
sum_len (b ∷ bufs) = b.len + sum_len bufs

-- The buffers that the device may write, in chain order.
abbrev pub writable_bufs : List Buf → List Buf
writable_bufs bufs = keep (λ b. b.writable) bufs

-- The head of the chain at the queue's consumed index.
unfoldable pub next_head : GuestRam → Queue → ℕ
next_head ram q =
    let qsz = q.num % 2 ^ 16 in
    let slot = q.last_avail % qsz in read_u16 ram (wrapping_add 64 q.avail (4 + 2 * slot))

-- The queue is not set up, or the guest has posted nothing.
unfoldable pub nothing_posted : GuestRam → Queue → Bool
nothing_posted ram q =
    q.ready == 0 || q.num == 0 || q.last_avail == read_u16 ram (wrapping_add 64 q.avail 2)

unfoldable pub next_rx_capacity : GuestRam → Queue → Option ℕ
next_rx_capacity ram q =
    if nothing_posted ram q
    then none
    else some
        (sum_len (writable_bufs (collect_chain ram q.desc (next_head ram q) (q.num % 2 ^ 16))))

-- The copy loop of `inject_one`: what is left of the payload, spilled over the writable buffers.
-- It returns the RAM and the bytes copied.
unfoldable pub inject_loop : GuestRam → List Buf → List ℕ → ℕ → GuestRam × ℕ
inject_loop ram [] payload off = (ram, off)
inject_loop ram (b ∷ bufs) payload off =
    let n = min b.len (length payload - off) in
    let rest =
      inject_loop (write ram b.addr (take n (drop off payload))).0 bufs payload (off + n) in
    if leb (length payload) off then (ram, off) else rest

unfoldable pub inject_one : GuestRam → Queue → List ℕ → GuestRam × Queue × Bool
inject_one ram q payload =
    if nothing_posted ram q
    then (ram, q, false)
    else (let qsz = q.num % 2 ^ 16 in
        let head = next_head ram q in
        let bufs = collect_chain ram q.desc head qsz in
        let (ram', off) = inject_loop ram (writable_bufs bufs) payload 0 in
        (
          push_used ram' q.used head (off % 2 ^ 32) qsz,
          record q { last_avail = wrapping_add 16 q.last_avail 1 },
          true,
        ))
