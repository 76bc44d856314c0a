-- ===== src/Transport/Pump.antt =====
-- `pump_rx`: no payload held back or taken from the device is lost.
use amber.Prelude.{
  sym, ◌>>=◌, subst, ℕ, ◌≡◌, ◌∙◌, inl, inr, Bool, true, false, ◌||◌, none, some, List, arith,
  Option-cases, get_elem?,
}
use amber.Memory.{GuestRam}
use amber.Virtqueue.{Queue, next_rx_capacity}
use amber.Transport.{
  raise, VirtioDevice, VirtioMmio, Pumped, deliver, pump_loop, retry_pending, pump_rx,
}
use amber.Transport.Delivered.{Delivered, deliver_posted, deliver_unposted}
use amber.Transport.Loop.{moved, Pumping, pump_loop-Pumping}

module _ {D : Type 0} (ops : VirtioDevice D) where
  -- The state in which the loop starts: as it was where no payload was held back, else with that payload in the
  -- guest's hands; and whether there was one.
  pub data Retried (rxq : ℕ) (ram : GuestRam) (q : Queue) (m : VirtioMmio D)
      : VirtioMmio D → Bool → Type 0 where
    nothing_held : m.pending_rx ≡ none → Retried rxq ram q m m false
    held_given :
        (payload : List ℕ) (room : ℕ) (m' : VirtioMmio D)
        → m.pending_rx ≡ some payload
        → next_rx_capacity ram q ≡ some room
        → Delivered ops rxq ram q room payload (record m { pending_rx = none }) m'
        → Retried rxq ram q m m' true

  -- What a whole pump does.
  pub data History (rxq : ℕ) (ram : GuestRam) (q : Queue) (m : VirtioMmio D)
      : Pumped ops → Type 0 where
    still_held :
        (payload : List ℕ)
        → m.pending_rx ≡ some payload
        → next_rx_capacity ram q ≡ none
        → History rxq ram q m (m, false)
    went_on :
        (m' last : VirtioMmio D) (any : Bool) (frames : List (List ℕ))
        → Retried rxq ram q m m' any
        → Pumping ops rxq m' frames last
        → last.pending_rx ≡ none
        → History rxq ram q m (raise ops (last, any || moved frames))

  went_on-History :
      (rxq fuel : ℕ) (ram : GuestRam) (q : Queue) (m m' : VirtioMmio D) (any : Bool)
      (r : Pumped ops)
      → Retried rxq ram q m m' any
      → m'.pending_rx ≡ none
      → (pump_loop ops rxq fuel m' any >>= (λ s. some (raise ops s))) ≡ some r
      → History rxq ram q m r
  went_on-History rxq fuel ram q m m' any r retried empty e =
      elim (Option-cases (pump_loop ops rxq fuel m' any)) [
        | inl n ↦ absurd (ground (arith, e, n))
        | inr (s, n) ↦
            let (frames, history, pending, moves) = pump_loop-Pumping ops rxq fuel m' any s n in
            let same : raise ops s ≡ r = ground (arith, e, n) in
            rw (← same) (
              subst (λ (b : Bool). History rxq ram q m (raise ops (s.0, b))) (sym moves)
                (went_on m' s.0 any frames retried history (pending ∙ empty)))
      ]

  -- The two ways in, by what the retry gives.
  pump_rx_on :
      (fuel : ℕ) (m : VirtioMmio D) (rxq : ℕ) (ram : GuestRam) (m' : VirtioMmio D) (any : Bool)
      → m.ram ≡ some ram
      → ops.rx_queue m.dev ≡ some rxq
      → retry_pending ops m ram rxq ≡ (true, m', any)
      → pump_rx ops fuel m ≡ (pump_loop ops rxq fuel m' any >>= (λ s. some (raise ops s)))
  unfolding pump_rx
  pump_rx_on fuel m rxq ram m' any a b c = ground arith

  pump_rx_off :
      (fuel : ℕ) (m : VirtioMmio D) (rxq : ℕ) (ram : GuestRam)
      → m.ram ≡ some ram
      → ops.rx_queue m.dev ≡ some rxq
      → retry_pending ops m ram rxq ≡ (false, m, false)
      → pump_rx ops fuel m ≡ some (m, false)
  unfolding pump_rx
  pump_rx_off fuel m rxq ram a b c = ground arith

  retry_nothing :
      (m : VirtioMmio D) (ram : GuestRam) (rxq : ℕ)
      → m.pending_rx ≡ none
      → retry_pending ops m ram rxq ≡ (true, m, false)
  unfolding retry_pending
  retry_nothing m ram rxq n = ground arith

  module _ (m : VirtioMmio D) (ram : GuestRam) (rxq : ℕ) (q : Queue) (payload : List ℕ) where
    retry_given :
        (m' : VirtioMmio D)
        → m.pending_rx ≡ some payload
        → get_elem? m.queues rxq ≡ some q
        → deliver ops (record m { pending_rx = none }) ram rxq q payload ≡ some m'
        → retry_pending ops m ram rxq ≡ (true, m', true)
    unfolding retry_pending
    retry_given m' n c v = ground arith

    retry_stuck :
        m.pending_rx ≡ some payload
        → get_elem? m.queues rxq ≡ some q
        → deliver ops (record m { pending_rx = none }) ram rxq q payload ≡ none
        → retry_pending ops m ram rxq ≡ (false, m, false)
    unfolding retry_pending
    retry_stuck n c v = ground arith

  -- A pump of a device's receive queue that has enough fuel either finds a payload held back and no buffer for
  -- it, and changes nothing, or is a history that loses and reorders no payload: the one held back goes
  -- first, then each polled one, sized to the buffer that is posted, and the guest has the bytes of each
  -- in its buffers, or as many as there is room for, before the next is polled; none is held back then,
  -- and the interrupt is raised if any moved.
  pub pump_rx-History :
      (fuel : ℕ) (m : VirtioMmio D) (rxq : ℕ) (ram : GuestRam) (q : Queue) (r : Pumped ops)
      → m.ram ≡ some ram
      → ops.rx_queue m.dev ≡ some rxq
      → get_elem? m.queues rxq ≡ some q
      → pump_rx ops fuel m ≡ some r
      → History rxq ram q m r
  pump_rx-History fuel m rxq ram q r a b c e = elim (Option-cases m.pending_rx) [
    | inl n ↦
        went_on-History rxq fuel ram q m m false r (nothing_held n) n
          (sym (pump_rx_on fuel m rxq ram m false a b (retry_nothing m ram rxq n)) ∙ e)
    | inr (payload, n) ↦ elim (Option-cases (next_rx_capacity ram q)) [
      | inl no_buffer ↦
          let stuck =
            deliver_unposted ops (record m { pending_rx = none }) rxq ram q payload no_buffer in
          let now = pump_rx_off fuel m rxq ram a b (retry_stuck m ram rxq q payload n c stuck) in
          let same : (m, false) ≡ r = ground (arith, now, e) in
          rw (← same) (still_held payload n no_buffer)
      | inr (room, p) ↦
          let (m', v, given, k, _) =
            deliver_posted ops (record m { pending_rx = none }) rxq ram q room payload p in
          went_on-History rxq fuel ram q m m' true r (held_given payload room m' n p given) k (
            sym (pump_rx_on fuel m rxq ram m' true a b (retry_given m ram rxq q payload m' n c v))
            ∙ e)
    ]
  ]
