-- ===== src/Transport.antt =====
-- crates/amber-core/src/virtio.rs, the virtio-mmio transport: the register state machine around one
-- device and its virtqueues. A device is a record of operations over its own state. The guest RAM
-- behind the attached view is part of the state, and each operation returns the state it leaves.
pub mod Process
pub mod Delivered
pub mod Loop
pub mod Pump
pub mod Snapshot
pub mod Registers
pub mod Valid
pub mod Tests
use amber.Prelude.{
  ℕ, zero, suc, ◌+◌, ◌-◌, ◌*◌, ◌/◌, ◌%◌, ◌^◌, ◌≤◌, ◌<◌, min, max, bit_and, bit_or, ◌≡◌, refl, sym,
  ap, ◌∙◌, ◌≢◌, ◌↔◌, ◌⊎◌, inl, inr, Bool, true, false, not, ◌&&◌, ◌||◌, Option, none, some, List,
  [], ◌∷◌, ◌++◌, map, append-nil, append_assoc, arith, ltb, leb, ◌==◌, if◌then◌else◌, Bool-cases,
  Option-cases, ◌>>=◌, is_some, length, get_elem?, get_or, set, take, drop, replicate, All, IsByte,
  keep, length-append, length-set, All-append, All-set, All-get_elem?, wrapping_add, wrapping_sub,
  not_u32, to_le, from_le, ==_iff, ltb→lt, lt→ltb, leb→le, le→leb, length-take, length-drop,
  length-replicate,
}
use amber.Memory.{GuestRam, read_u16}
use amber.Virtqueue.{
  Buf, Queue, default_queue, queue_max, next_head, collect_chain, push_used, next_rx_capacity,
  inject_one,
}

-- The `VirtioDevice` trait. `handle` may write guest RAM. A device keeps its kind while it runs.
pub record VirtioDevice (D : Type 0) : Type 0 where
  pub device_id : D → ℕ
  pub device_features : D → ℕ → ℕ
  pub config : D → ℕ → ℕ
  pub num_queues : D → ℕ
  pub config_changed : D → Bool
  pub ack_config : D → D
  pub handle : D → ℕ → GuestRam → List Buf → D × GuestRam × ℕ
  pub rx_queue : D → Option ℕ
  pub event_queue : D → Option ℕ
  pub poll_rx : D → ℕ → D × Option (List ℕ)

pub record VirtioMmio (D : Type 0) : Type 0 where
  pub dev : D
  pub ram : Option GuestRam
  pub device_features_sel : ℕ
  pub status : ℕ
  pub queue_sel : ℕ
  pub queues : List Queue
  pub interrupt_status : ℕ
  pub pending_rx : Option (List ℕ)

-- A queue in a snapshot: [num, ready, desc, avail, used, last_avail].
abbrev pub QueueState : Type 0
QueueState = ℕ × ℕ × ℕ × ℕ × ℕ × ℕ

pub record VirtioDevState : Type 0 where
  pub status : ℕ
  pub interrupt_status : ℕ
  pub queues : List QueueState

module _ {D : Type 0} where
  unfoldable pub capture : VirtioMmio D → VirtioDevState
  capture m = record {
    status = m.status;
    interrupt_status = m.interrupt_status;
    queues = map (λ q. (q.num, q.ready, q.desc, q.avail, q.used, q.last_avail)) m.queues;
  }

-- `iter_mut().zip(..)`: queues without a saved state stay as they are.
unfoldable pub restore_queues : List Queue → List QueueState → List Queue
restore_queues [] saved = []
restore_queues (q ∷ qs) [] = q ∷ qs
restore_queues (q ∷ qs) ((num, ready, desc, avail, used, last_avail) ∷ saved) =
    record {
      num = min (num % 2 ^ 32) queue_max;
      ready = ready % 2 ^ 32;
      desc = desc;
      avail = avail;
      used = used;
      last_avail = last_avail % 2 ^ 16;
    }
    ∷ restore_queues qs saved

-- `(a & !0xffff_ffff) | v` and `(a & 0xffff_ffff) | (v << 32)` on a u64.
unfoldable pub set_low : ℕ → ℕ → ℕ
set_low a v = bit_or (bit_and a 0xffff_ffff_0000_0000) v

unfoldable pub set_high : ℕ → ℕ → ℕ
set_high a v = bit_or (bit_and a 0xffff_ffff) (v * 2 ^ 32)

module _ {D : Type 0} where
  unfoldable pub restore : VirtioMmio D → VirtioDevState → VirtioMmio D
  restore m s = record m {
    status = s.status;
    interrupt_status = s.interrupt_status;
    queues = restore_queues m.queues s.queues;
  }

  unfoldable pub attach : VirtioMmio D → GuestRam → VirtioMmio D
  attach m ram = record m { ram = some ram }

  unfoldable pub with_queue : VirtioMmio D → ℕ → (Queue → Queue) → VirtioMmio D
  with_queue m sel f = elim (get_elem? m.queues sel) [
    | none ↦ m
    | some q ↦ record m { queues = set m.queues sel (f q) }
  ]

  unfoldable pub reset : VirtioMmio D → VirtioMmio D
  reset m = record m { interrupt_status = 0; queues = map (λ q. default_queue) m.queues }

  -- `QUEUE_NUM_MAX` of the selected queue.
  unfoldable pub queue_num_max : VirtioMmio D → ℕ
  queue_num_max m = if ltb m.queue_sel (length m.queues) then queue_max else 0

-- `== Some(i)`.
abbrev pub names : Option ℕ → ℕ → Bool
names none i = false
names (some j) i = j == i

module _ {D : Type 0} (ops : VirtioDevice D) where
  unfoldable pub new : D → VirtioMmio D
  new dev = record {
    dev = dev;
    ram = none;
    device_features_sel = 0;
    status = 0;
    queue_sel = 0;
    queues = replicate (max (ops.num_queues dev) 1) default_queue;
    interrupt_status = 0;
    pending_rx = none;
  }

  unfoldable pub irq_level : VirtioMmio D → Bool
  irq_level m = not (m.interrupt_status == 0) || ops.config_changed m.dev

  unfoldable pub read : VirtioMmio D → ℕ → ℕ
  read m offset =
      if offset == 0x000
      then 0x7472_6976
      else if offset == 0x004
      then 2
      else if offset == 0x008
      then ops.device_id m.dev
      else if offset == 0x00c
      then 0x616d_6265
      else if offset == 0x010
      then (let f = ops.device_features m.dev m.device_features_sel in
          if m.device_features_sel == 1 then bit_or f 1 else f)
      else if offset == 0x034
      then queue_num_max m
      else if offset == 0x044
      then (get_or m.queues m.queue_sel default_queue).ready
      else if offset == 0x060
      then bit_or m.interrupt_status (if ops.config_changed m.dev then 2 else 0)
      else if offset == 0x070
      then m.status
      else if offset == 0x0fc
      then 0
      else if leb 0x100 offset
      then ops.config m.dev (offset - 0x100)
      else 0

  -- The state of `process`'s loop: the device, guest RAM, and its copy of the queue.
  abbrev pub Service : Type 0
  Service = D × GuestRam × Queue

  -- One round of the loop: gather the chain at the consumed index, hand it over, publish it.
  unfoldable pub service_one : ℕ → ℕ → Service → Service
  service_one qidx qsz (dev, ram, q) =
      let head = next_head ram q in
      let (dev', ram', written) = ops.handle dev qidx ram (collect_chain ram q.desc head qsz) in
      (
        dev',
        push_used ram' q.used head written qsz,
        record q { last_avail = wrapping_add 16 q.last_avail 1 },
      )

  -- `while q.last_avail != avail_idx && budget > 0`, by recursion on the budget.
  unfoldable pub process_loop : ℕ → ℕ → ℕ → ℕ → Service → Service
  process_loop qidx qsz avail_idx zero s = s
  process_loop qidx qsz avail_idx (suc budget) s =
      let rest = process_loop qidx qsz avail_idx budget (service_one qidx qsz s) in
      if s.2.last_avail == avail_idx then s else rest

  -- The queue that a notify would consume: not a device-driven one, and set up by the driver.
  unfoldable pub notified : VirtioMmio D → ℕ → Option Queue
  notified m qidx =
      if names (ops.rx_queue m.dev) qidx || names (ops.event_queue m.dev) qidx
      then none
      else elim (get_elem? m.queues qidx) [
        | none ↦ none
        | some q ↦ if q.ready == 0 || q.num == 0 then none else some q
      ]

  unfoldable pub service : VirtioMmio D → ℕ → GuestRam → Queue → VirtioMmio D
  service m qidx ram q =
      let qsz = q.num % 2 ^ 16 in
      let avail_idx = read_u16 ram (wrapping_add 64 q.avail 2) in
      let (dev', ram', q') = process_loop qidx qsz avail_idx qsz (m.dev, ram, q) in
      let progressed = not (q.last_avail == avail_idx) && not (qsz == 0) in
      let sta = if progressed then bit_or m.interrupt_status 1 else m.interrupt_status in
      record m {
        dev = dev';
        ram = some ram';
        queues = set m.queues qidx (record q { last_avail = q'.last_avail });
        interrupt_status = sta;
      }

  unfoldable pub process : VirtioMmio D → ℕ → VirtioMmio D
  process m qidx = elim m.ram [
    | none ↦ m
    | some ram ↦ elim (notified m qidx) [ none ↦ m | some q ↦ service m qidx ram q ]
  ]

  unfoldable pub write : VirtioMmio D → ℕ → ℕ → VirtioMmio D
  write m offset value =
      let v = value % 2 ^ 32 in
      let sel = m.queue_sel in
      if offset == 0x014
      then record m { device_features_sel = v }
      else if offset == 0x030
      then record m { queue_sel = v }
      else if offset == 0x038
      then with_queue m sel (λ q. record q { num = min v queue_max })
      else if offset == 0x044
      then with_queue m sel (λ q. record q { ready = v })
      else if offset == 0x050
      then process m v
      else if offset == 0x064
      then (let dev = if bit_and v 2 == 0 then m.dev else ops.ack_config m.dev in
          record m { interrupt_status = bit_and m.interrupt_status (not_u32 v); dev = dev })
      else if offset == 0x070
      then (let m' = record m { status = v } in if v == 0 then reset m' else m')
      else if offset == 0x080
      then with_queue m sel (λ q. record q { desc = set_low q.desc v })
      else if offset == 0x084
      then with_queue m sel (λ q. record q { desc = set_high q.desc v })
      else if offset == 0x090
      then with_queue m sel (λ q. record q { avail = set_low q.avail v })
      else if offset == 0x094
      then with_queue m sel (λ q. record q { avail = set_high q.avail v })
      else if offset == 0x0a0
      then with_queue m sel (λ q. record q { used = set_low q.used v })
      else if offset == 0x0a4
      then with_queue m sel (λ q. record q { used = set_high q.used v })
      else m

  -- What a pump returns: the state and whether anything was delivered.
  abbrev pub Pumped : Type 0
  Pumped = VirtioMmio D × Bool

  -- One payload put into queue `rxq`: `none` where the guest has posted no buffer.
  unfoldable pub deliver : VirtioMmio D → GuestRam → ℕ → Queue → List ℕ → Option (VirtioMmio D)
  deliver m ram rxq q payload =
      let (ram', q', done) = inject_one ram q payload in
      if done then some (record m { ram = some ram'; queues = set m.queues rxq q' }) else none

  -- The loop condition of `pump_rx`: the posted buffer's queue and capacity.
  unfoldable pub posted : VirtioMmio D → ℕ → Option (GuestRam × Queue × ℕ)
  posted m rxq = do
    ram ← m.ram
    q ← get_elem? m.queues rxq
    cap ← next_rx_capacity ram q
    some (ram, q, cap)

  -- `while let Some(cap) = ..` with fuel; `none` means that the fuel ran out. The queue that
  -- `get_mut` finds in the body is the one that the condition saw.
  unfoldable pub pump_loop : ℕ → ℕ → VirtioMmio D → Bool → Option Pumped
  pump_loop rxq zero m any = none
  pump_loop rxq (suc fuel) m any = elim (posted m rxq) [
    | none ↦ some (m, any)
    | some (ram, q, cap) ↦
        let (dev', frame) = ops.poll_rx m.dev cap in
        let m' = record m { dev = dev' } in
        elim frame [
          | none ↦ some (m', any)
          | some payload ↦ elim (deliver m' ram rxq q payload) [
            | none ↦ some (record m' { pending_rx = some payload }, any)
            | some m'' ↦ pump_loop rxq fuel m'' true
          ]
        ]
  ]

  unfoldable pub raise : Pumped → Pumped
  raise (m, any) =
      (if any then record m { interrupt_status = bit_or m.interrupt_status 1 } else m, any)

  -- The payload held back by an earlier pump goes first. `take()` has emptied `pending_rx`; the
  -- first answer says whether the pump goes on.
  unfoldable pub retry_pending : VirtioMmio D → GuestRam → ℕ → Bool × VirtioMmio D × Bool
  retry_pending m ram rxq = elim m.pending_rx [
    | none ↦ (true, m, false)
    | some payload ↦
        let m' = record m { pending_rx = none } in
        elim (get_elem? m.queues rxq) [
          | none ↦ (false, m', false)
          | some q ↦ elim (deliver m' ram rxq q payload) [
            | none ↦ (false, m, false)
            | some m'' ↦ (true, m'', true)
          ]
        ]
  ]

  unfoldable pub pump_rx : ℕ → VirtioMmio D → Option Pumped
  pump_rx fuel m = elim m.ram [
    | none ↦ some (m, false)
    | some ram ↦ elim (ops.rx_queue m.dev) [
      | none ↦ some (m, false)
      | some rxq ↦
          let (on, m', any) = retry_pending m ram rxq in
          if on then pump_loop rxq fuel m' any >>= (λ r. some (raise r)) else some (m', any)
    ]
  ]
