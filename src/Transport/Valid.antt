-- ===== src/Transport/Valid.antt =====
-- The state that every register access, notify and pump keeps: each queue has at most
-- `QUEUE_MAX` entries and fields of their machine widths.
use amber.Prelude.{
  bit_and_mask, bit_and-le, bit_or-lt, ℕ, zero, suc, ◌%◌, ◌^◌, ◌<◌, min, ◌≡◌, inl, inr, Bool, true,
  false, none, some, List, [], ◌∷◌, map, arith, ◌==◌, if◌then◌else◌, Option-cases, ◌>>=◌, get_elem?,
  set, replicate, All, All-set, All-get_elem?, wrapping_add,
}
use amber.Memory.{GuestRam, read_u16}
use amber.Virtqueue.{Queue, default_queue, queue_max}
use amber.Virtqueue.Inject.{inject_one_cases}
use amber.Transport.Snapshot.{IsQueue, IsSaved, restore_queues-IsQueue}
use amber.Transport.{
  VirtioDevState, restore, attach, VirtioDevice, VirtioMmio, set_low, set_high, with_queue, write,
  reset, process, notified, service, process_loop, service_one, Service, deliver, pump_loop,
  pump_rx, retry_pending, raise, new,
}
use amber.Transport.Loop.{Pumping, full, dry, one, pump_loop-Pumping}
use amber.Transport.Delivered.{posted_cap}

-- Every queue of the transport is well formed.
pub record IsValid {D : Type 0} (m : VirtioMmio D) : Type 0 where
  pub queues : All IsQueue m.queues

if_keeps {ℓ} :
    {A : Type 0} (P : A → Type ℓ) (b : Bool) {x y : A} → P x → P y → P (if b then x else y)
if_keeps P true p q = p
if_keeps P false p q = q

default_IsQueue : IsQueue default_queue
default_IsQueue = omega arith

set_low-lt : (a v : ℕ) → v < 2 ^ 32 → a < 2 ^ 64 → set_low a v < 2 ^ 64
unfolding set_low
set_low-lt a v h k =
    bit_or-lt 64 _ v (omega (arith, bit_and-le a 0xffff_ffff_0000_0000)) (omega arith)

set_high-lt : (a v : ℕ) → v < 2 ^ 32 → set_high a v < 2 ^ 64
unfolding set_high
set_high-lt a v h = bit_or-lt 64 _ _ (omega (arith, bit_and_mask 32 a)) (omega arith)

module _ {D : Type 0} where
  with_queue-IsValid :
      (m : VirtioMmio D) (sel : ℕ) (f : Queue → Queue)
      → ((q : Queue) → IsQueue q → IsQueue (f q))
      → IsValid m
      → IsValid (with_queue m sel f)
  unfolding with_queue
  with_queue-IsValid m sel f k v = elim (Option-cases (get_elem? m.queues sel)) [
    | inl e ↦ rw (e, with_queue) v
    | inr (q, e) ↦
        rw (e, with_queue)
          (record {
            queues =
                All-set IsQueue m.queues sel (f q) v.queues
                  (k q (All-get_elem? IsQueue m.queues sel v.queues e));
          })
  ]

  IsValid-if :
      (b : Bool) {x y : VirtioMmio D} → IsValid x → IsValid y → IsValid (if b then x else y)
  IsValid-if true p q = p
  IsValid-if false p q = q

defaults : (qs : List Queue) → All IsQueue (map (λ q. default_queue) qs)
defaults [] = tt
defaults (q ∷ qs) = (default_IsQueue, defaults qs)

module _ {D : Type 0} (ops : VirtioDevice D) where
  process_loop_fits :
      (qidx qsz avail_idx budget : ℕ) (s : Service ops)
      → s.2.last_avail < 2 ^ 16
      → (process_loop ops qidx qsz avail_idx budget s).2.last_avail < 2 ^ 16
  unfolding process_loop service_one
  process_loop_fits qidx qsz avail_idx zero s h = h
  process_loop_fits qidx qsz avail_idx (suc budget) s h =
      if_keeps (λ (t : Service ops). t.2.last_avail < 2 ^ 16) (s.2.last_avail == avail_idx) h
        (process_loop_fits qidx qsz avail_idx budget (service_one ops qidx qsz s) (omega arith))

  named :
      (m : VirtioMmio D) (qidx : ℕ) (q : Queue)
      → notified ops m qidx ≡ some q
      → get_elem? m.queues qidx ≡ some q
  unfolding notified
  named m qidx q e = ground arith

  service-IsValid :
      (m : VirtioMmio D) (qidx : ℕ) (ram : GuestRam) (q : Queue)
      → IsQueue q
      → IsValid m
      → IsValid (service ops m qidx ram q)
  unfolding service
  service-IsValid m qidx ram q h v =
      let qsz = q.num % 2 ^ 16 in
      let avail_idx = read_u16 ram (wrapping_add 64 q.avail 2) in
      let fits = process_loop_fits qidx qsz avail_idx qsz (m.dev, ram, q) h.last_avail in
      record {
        queues =
            All-set IsQueue m.queues qidx
              (record q {
                last_avail = (process_loop ops qidx qsz avail_idx qsz (m.dev, ram, q)).2.last_avail;
              })
              v.queues (omega arith);
      }

  process-IsValid : (m : VirtioMmio D) (qidx : ℕ) → IsValid m → IsValid (process ops m qidx)
  unfolding process
  process-IsValid m qidx v = elim (Option-cases m.ram) [
    | inl e ↦ rw (e, process) v
    | inr (ram, e) ↦ elim (Option-cases (notified ops m qidx)) [
      | inl n ↦ rw (e, n, process) v
      | inr (q, n) ↦
          rw (e, n, process)
            (service-IsValid m qidx ram q
              (All-get_elem? IsQueue m.queues qidx v.queues (named m qidx q n)) v)
    ]
  ]

  -- A driver's write of any value to any register keeps the queues well formed.
  pub write-IsValid :
      (m : VirtioMmio D) (offset value : ℕ) → IsValid m → IsValid (write ops m offset value)
  unfolding write reset
  write-IsValid m offset value v =
      let v32 = value % 2 ^ 32 in
      let word = λ (f : Queue → Queue) (k : (q : Queue) → IsQueue q → IsQueue (f q)).
        with_queue-IsValid m m.queue_sel f k v in
      let low = λ (a : ℕ) (h : a < 2 ^ 64). set_low-lt a v32 (omega arith) h in
      let high = λ (a : ℕ). set_high-lt a v32 (omega arith) in
      IsValid-if (offset == 0x014) (record { queues = v.queues })
        (IsValid-if (offset == 0x030) (record { queues = v.queues })
          (IsValid-if (offset == 0x038)
            (word (λ q. record q { num = min v32 queue_max }) (λ q h. omega arith))
            (IsValid-if (offset == 0x044)
              (word (λ q. record q { ready = v32 }) (λ q h. omega arith))
              (IsValid-if (offset == 0x050) (process-IsValid m v32 v) (
                IsValid-if (offset == 0x064) (record { queues = v.queues })
                  (IsValid-if (offset == 0x070)
                    (IsValid-if (v32 == 0) (record { queues = defaults m.queues })
                      (record { queues = v.queues }))
                    (IsValid-if (offset == 0x080)
                      (word (λ q. record q { desc = set_low q.desc v32 })
                        (λ q h. omega (arith, low q.desc h.desc)))
                      (IsValid-if (offset == 0x084)
                        (word (λ q. record q { desc = set_high q.desc v32 })
                          (λ q h. omega (arith, high q.desc)))
                        (IsValid-if (offset == 0x090)
                          (word (λ q. record q { avail = set_low q.avail v32 })
                            (λ q h. omega (arith, low q.avail h.avail)))
                          (IsValid-if (offset == 0x094)
                            (word (λ q. record q { avail = set_high q.avail v32 })
                              (λ q h. omega (arith, high q.avail)))
                            (IsValid-if (offset == 0x0a0)
                              (word (λ q. record q { used = set_low q.used v32 })
                                (λ q h. omega (arith, low q.used h.used)))
                              (IsValid-if (offset == 0x0a4)
                                (word (λ q. record q { used = set_high q.used v32 })
                                  (λ q h. omega (arith, high q.used)))
                                v))))))))))))

  deliver-IsValid :
      (m m' : VirtioMmio D) (ram : GuestRam) (rxq : ℕ) (q : Queue) (payload : List ℕ)
      → deliver ops m ram rxq q payload ≡ some m'
      → IsQueue q
      → IsValid m
      → IsValid m'
  unfolding deliver
  deliver-IsValid m m' ram rxq q payload e h v = elim (inject_one_cases ram q payload) [
    | inl (_, r) ↦ absurd (ground (arith, r))
    | inr (c, ram', _, _, r) ↦
        let q' = record q { last_avail = wrapping_add 16 q.last_avail 1 } in
        let same : m'.queues ≡ set m.queues rxq q' = ground (arith, r) in
        record { queues = rw same (All-set IsQueue m.queues rxq q' v.queues (omega arith)) }
  ]

  pump_loop-IsValid :
      (rxq fuel : ℕ) (m : VirtioMmio D) (any : Bool) (r : VirtioMmio D × Bool)
      → pump_loop ops rxq fuel m any ≡ some r
      → IsValid m
      → IsValid r.0
  pump_loop-IsValid rxq fuel m any r e v = along (pump_loop-Pumping ops rxq fuel m any r e).1 v
    where
      along :
          {m' last : VirtioMmio D} {frames : List (List ℕ)}
          → Pumping ops rxq m' frames last
          → IsValid m'
          → IsValid last
      along (full m' p) v = v
      along (dry m' ram q room p d) v = record { queues = v.queues }
      along (one m' {m' = m''} ram q room payload p d given rest) v =
          let q' = record q { last_avail = wrapping_add 16 q.last_avail 1 } in
          let valid =
            All-get_elem? IsQueue m'.queues rxq v.queues (posted_cap ops m' rxq ram q room p).1 in
          along rest (
            rw (given.after) (record {
              queues = All-set IsQueue m'.queues rxq q' v.queues (omega (arith, valid));
            }))

  retry_pending-IsValid :
      (m : VirtioMmio D) (ram : GuestRam) (rxq : ℕ)
      → IsValid m
      → IsValid (retry_pending ops m ram rxq).1
  unfolding retry_pending
  retry_pending-IsValid m ram rxq v = elim (Option-cases m.pending_rx) [
    | inl e ↦ rw (retry_pending, e) v
    | inr (payload, e) ↦ elim (Option-cases (get_elem? m.queues rxq)) [
      | inl n ↦ rw (retry_pending, e, n) (record { queues = v.queues })
      | inr (q, n) ↦
          elim (Option-cases (deliver ops (record m { pending_rx = none }) ram rxq q payload)) [
            | inl d ↦ rw (retry_pending, e, n, d) v
            | inr (m', d) ↦
                rw (retry_pending, e, n, d)
                  (deliver-IsValid _ m' ram rxq q payload d
                    (All-get_elem? IsQueue m.queues rxq v.queues n) (record { queues = v.queues }))
          ]
    ]
  ]

  raise-IsValid : (r : VirtioMmio D × Bool) → IsValid r.0 → IsValid (raise ops r).0
  unfolding raise
  raise-IsValid (m, true) v = record { queues = v.queues }
  raise-IsValid (m, false) v = v

  finish-IsValid :
      (rxq fuel : ℕ) (t : Bool × VirtioMmio D × Bool) (r : VirtioMmio D × Bool)
      → (if t.0
          then pump_loop ops rxq fuel t.1 t.2 >>= (λ r. some (raise ops r))
          else some (t.1, t.2))
        ≡ some r
      → IsValid t.1
      → IsValid r.0
  finish-IsValid rxq fuel (false, m, any) r e v =
      let same : m ≡ r.0 = ground (arith, e) in rw (← same) v
  finish-IsValid rxq fuel (true, m, any) r e v =
      elim (Option-cases (pump_loop ops rxq fuel m any)) [
        | inl n ↦ absurd (ground (arith, e, n))
        | inr (r', n) ↦
            let same : raise ops r' ≡ r = ground (arith, e, n) in
            rw (← same) (raise-IsValid r' (pump_loop-IsValid rxq fuel m any r' n v))
      ]

  -- So does a pump of the device's receive queue.
  pub pump_rx-IsValid :
      (fuel : ℕ) (m : VirtioMmio D) (r : VirtioMmio D × Bool)
      → pump_rx ops fuel m ≡ some r
      → IsValid m
      → IsValid r.0
  unfolding pump_rx
  pump_rx-IsValid fuel m r e v = elim (Option-cases m.ram) [
    | inl n ↦ let same : m ≡ r.0 = ground (arith, e, n) in rw (← same) v
    | inr (ram, n) ↦ elim (Option-cases (ops.rx_queue m.dev)) [
      | inl d ↦ let same : m ≡ r.0 = ground (arith, e, n, d) in rw (← same) v
      | inr (rxq, d) ↦
          finish-IsValid rxq fuel (retry_pending ops m ram rxq) r (rw (n, d, pump_rx) at e)
            (retry_pending-IsValid m ram rxq v)
    ]
  ]

  -- What may happen to a transport: a register write by the driver, a pump by the run loop, a
  -- restore from a snapshot of u64 words, any change of guest RAM by the guest, and any change inside the device.
  pub data Event : VirtioMmio D → VirtioMmio D → Type 0 where
    writes : (m : VirtioMmio D) (offset value : ℕ) → Event m (write ops m offset value)
    pumps :
        (m : VirtioMmio D) (fuel : ℕ) (r : VirtioMmio D × Bool)
        → pump_rx ops fuel m ≡ some r
        → Event m r.0
    restores :
        (m : VirtioMmio D) (s : VirtioDevState) → All IsSaved s.queues → Event m (restore m s)
    guest_runs : (m : VirtioMmio D) (ram : GuestRam) → Event m (attach m ram)
    device_runs : (m : VirtioMmio D) (dev : D) → Event m (record m { dev = dev })

  pub data Reach (m : VirtioMmio D) : VirtioMmio D → Type 0 where
    here : Reach m m
    later : {m' m'' : VirtioMmio D} → Reach m m' → Event m' m'' → Reach m m''

  Event-IsValid : {m m' : VirtioMmio D} → Event m m' → IsValid m → IsValid m'
  unfolding restore attach
  Event-IsValid (writes m offset value) v = write-IsValid m offset value v
  Event-IsValid (pumps m fuel r e) v = pump_rx-IsValid fuel m r e v
  Event-IsValid (restores m s h) v = record {
    queues = restore_queues-IsQueue m.queues s.queues v.queues h;
  }
  Event-IsValid (guest_runs m ram) v = record { queues = v.queues }
  Event-IsValid (device_runs m dev) v = record { queues = v.queues }

  replicate-IsQueue : (n : ℕ) → All IsQueue (replicate n default_queue)
  replicate-IsQueue zero = tt
  replicate-IsQueue (suc n) = (default_IsQueue, replicate-IsQueue n)

  Reach-IsValid : {m m' : VirtioMmio D} → Reach m m' → IsValid m → IsValid m'
  Reach-IsValid here v = v
  Reach-IsValid (later r e) v = Event-IsValid e (Reach-IsValid r v)

  -- In every state that a fresh transport can reach, by any sequence of register writes with any
  -- values, pumps, restores of any snapshot, guest stores and device activity, each queue has at
  -- most `QUEUE_MAX` entries and fields of their machine widths.
  pub new-Reach-IsValid : (dev : D) {m : VirtioMmio D} → Reach (new ops dev) m → IsValid m
  unfolding new
  new-Reach-IsValid dev r = Reach-IsValid r (record { queues = replicate-IsQueue _ })
