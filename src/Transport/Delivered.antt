-- ===== src/Transport/Delivered.antt =====
-- `inject_one` in a transport: one payload put into a queue.
use amber.Prelude.{
  take, subst, ℕ, ◌%◌, ◌^◌, min, ◌≡◌, refl, inl, inr, none, some, List, arith, length, get_elem?,
  set, wrapping_add,
}
use amber.Memory.{GuestRam}
use amber.Virtqueue.{Queue, next_rx_capacity, next_head, push_used}
use amber.Virtqueue.Inject.{inject_one_cases, Filled, next_bufs}
use amber.Transport.{VirtioDevice, VirtioMmio, deliver, posted}

module _ {D : Type 0} (ops : VirtioDevice D) where
  -- One payload in the guest's hands: the posted chain's buffers have its bytes, or the first `room` of
  -- them, the used ring has the chain's head and the count, and the chain is consumed.
  pub record Delivered (rxq : ℕ) (ram : GuestRam) (q : Queue) (room : ℕ) (payload : List ℕ)
      (m m' : VirtioMmio D) : Type 0 where
    pub copied : GuestRam
    pub fills : Filled ram (next_bufs ram q) (take room payload) copied
    pub after : m' ≡ record m {
      ram = some (
          push_used copied q.used
            (next_head ram q)
            (min (length payload) room % 2 ^ 32)
            (q.num % 2 ^ 16));
      queues = set m.queues rxq (record q { last_avail = wrapping_add 16 q.last_avail 1 });
    }

  -- Where the loop condition has seen a buffer, the payload is delivered.
  pub deliver_posted :
      (m' : VirtioMmio D) (rxq : ℕ) (ram : GuestRam) (q : Queue) (room : ℕ) (payload : List ℕ)
      → next_rx_capacity ram q ≡ some room
      → (m'' : VirtioMmio D) × (deliver ops m' ram rxq q payload ≡ some m'')
        × Delivered rxq ram q room payload m' m''
        × (m''.pending_rx ≡ m'.pending_rx)
        × (m''.dev ≡ m'.dev)
  unfolding deliver
  deliver_posted m' rxq ram q room payload e = elim (inject_one_cases ram q payload) [
    | inl (n, _) ↦ cc
    | inr (c, ram', p, f, r) ↦
        let same : c ≡ room = ground arith in
        let m'' = record m' {
          ram = some (
              push_used ram' q.used (next_head ram q) (min (length payload) c % 2 ^ 32)
                (q.num % 2 ^ 16));
          queues = set m'.queues rxq (record q { last_avail = wrapping_add 16 q.last_avail 1 });
        } in
        (
          m'',
          rw r refl,
          subst (λ (k : ℕ). Delivered rxq ram q k payload m' m'') same
              (record { copied = ram'; fills = f; after = refl }),
          refl,
          refl,
        )
  ]

  pub deliver_unposted :
      (m' : VirtioMmio D) (rxq : ℕ) (ram : GuestRam) (q : Queue) (payload : List ℕ)
      → next_rx_capacity ram q ≡ none
      → deliver ops m' ram rxq q payload ≡ none
  unfolding deliver
  deliver_unposted m' rxq ram q payload e = elim (inject_one_cases ram q payload) [
    | inl (_, r) ↦ rw r refl
    | inr (c, ram', p, _, _) ↦ cc
  ]

  pub posted_cap :
      (m : VirtioMmio D) (rxq : ℕ) (ram : GuestRam) (q : Queue) (room : ℕ)
      → posted ops m rxq ≡ some (ram, q, room)
      → (m.ram ≡ some ram)
        × (get_elem? m.queues rxq ≡ some q)
        × (next_rx_capacity ram q ≡ some room)
  unfolding posted
  posted_cap m rxq ram q room e = ground arith
