-- ===== src/Transport/Process.antt =====
-- A notify: how far `process` goes on a queue, and what it leaves alone.
use amber.Prelude.{
  bit_or_step, get_elem?-set-some, ℕ, zero, suc, ◌%◌, ◌^◌, ◌≤◌, ◌<◌, min, bit_or, ◌≡◌, refl, ap,
  ◌∙◌, ◌≢◌, ◌⊎◌, true, none, some, arith, get_elem?, wrapping_add, wrapping_sub,
}
use amber.Memory.{GuestRam, read_u16}
use amber.Virtqueue.{Queue}
use amber.Transport.{
  VirtioDevice, VirtioMmio, Service, service_one, process_loop, notified, service, process,
  irq_level,
}

-- The buffers that the guest has posted and the device has not consumed, in u16 arithmetic.
abbrev pub outstanding : ℕ → ℕ → ℕ
outstanding avail_idx last_avail = wrapping_sub 16 avail_idx last_avail

module _ {D : Type 0} (ops : VirtioDevice D) (qidx qsz avail_idx : ℕ) where
  service_one_last :
      (s : Service ops)
      → (service_one ops qidx qsz s).2.last_avail ≡ wrapping_add 16 s.2.last_avail 1
  unfolding service_one
  service_one_last (dev, ram, q) = refl

  -- The loop consumes what is outstanding, or its budget if that is less.
  process_loop_last :
      (budget : ℕ) (s : Service ops)
      → avail_idx < 2 ^ 16
      → s.2.last_avail < 2 ^ 16
      → (process_loop ops qidx qsz avail_idx budget s).2.last_avail
        ≡ wrapping_add 16 s.2.last_avail (min budget (outstanding avail_idx s.2.last_avail))
  unfolding process_loop
  process_loop_last zero s ha hl = omega arith
  process_loop_last (suc budget) s ha hl =
      ground (arith, process_loop_last budget (service_one ops qidx qsz s), service_one_last s)

bit_or_one : (a : ℕ) → bit_or a 1 ≢ 0
bit_or_one a e = omega (arith, bit_or_step a 1, e)

module _ {D : Type 0} (ops : VirtioDevice D) where
  -- A notify on a queue that is set up and not device-driven consumes exactly the buffers that are
  -- outstanding, or as many as the queue has entries if the guest's index claims more; the queue's
  -- other fields stay. If at least one was consumed the device's line is raised.
  pub service_lem :
      (m : VirtioMmio D) (qidx : ℕ) (ram : GuestRam) (q : Queue)
      → q.last_avail < 2 ^ 16
      → q.num ≤ 256
      → get_elem? m.queues qidx ≡ some q
      → read_u16 ram (wrapping_add 64 q.avail 2) < 2 ^ 16
      → let n = min q.num (outstanding (read_u16 ram (wrapping_add 64 q.avail 2)) q.last_avail) in
        (get_elem? (service ops m qidx ram q).queues qidx
          ≡ some (record q { last_avail = wrapping_add 16 q.last_avail n }))
        × (0 < n → irq_level ops (service ops m qidx ram q) ≡ true)
  unfolding service irq_level
  service_lem m qidx ram q hl hn e ha =
      let avail_idx = read_u16 ram (wrapping_add 64 q.avail 2) in
      let qsz = q.num % 2 ^ 16 in
      let last = process_loop_last ops qidx qsz avail_idx qsz (m.dev, ram, q) ha hl in
      let width : qsz ≡ q.num = omega arith in
      (
        get_elem?-set-some m.queues qidx _ e
            ∙ ap (λ (x : ℕ). some (record q { last_avail = x }))
                (last
                  ∙ ap
                      (λ (x : ℕ).
                        wrapping_add 16 q.last_avail (min x (outstanding avail_idx q.last_avail)))
                      width),
        λ h. ground (arith, bit_or_one m.interrupt_status),
      )

  -- Nothing happens on a notify for a queue that the device drives, that does not exist, or that
  -- the driver has not set up, nor before guest RAM is attached.
  pub process_ignored :
      (m : VirtioMmio D) (qidx : ℕ)
      → (m.ram ≡ none) ⊎ (notified ops m qidx ≡ none)
      → process ops m qidx ≡ m
  unfolding process
  process_ignored m qidx h = ground arith
