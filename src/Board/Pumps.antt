-- ===== src/Board/Pumps.antt =====
-- crates/amber-core/src/virtio.rs (`pump_rx`) for crates/amber-core/src/vm.rs: a pump that moves nothing leaves the
-- device's interrupt level.
use amber.Prelude.{
  ℕ, zero, suc, ◌≡◌, refl, sym, ap, ◌∙◌, inl, inr, Bool, true, false, none, some, List,
  if◌then◌else◌, Option-cases, ◌>>=◌, get_elem?, set,
}
use amber.Memory.{GuestRam}
use amber.Virtqueue.{Queue, inject_one}
use amber.Transport.{
  VirtioDevice, VirtioMmio, deliver, posted, pump_loop, retry_pending, pump_rx, raise, irq_level,
  Pumped,
}

-- A poll of the device leaves its pending configuration change as it is.
pub record IsQuiet {D : Type 0} (ops : VirtioDevice D) : Type 0 where
  pub kept : (d : D) (room : ℕ) → ops.config_changed (ops.poll_rx d room).0 ≡ ops.config_changed d

module _ {D : Type 0} (ops : VirtioDevice D) (quiet : IsQuiet ops) where
  -- What the level stands on is the same.
  pub record IsLevel (m m' : VirtioMmio D) : Type 0 where
    pub status : m'.interrupt_status ≡ m.interrupt_status
    pub config : ops.config_changed m'.dev ≡ ops.config_changed m.dev

  deliver-IsLevel :
      (m m' : VirtioMmio D) (ram : GuestRam) (rxq : ℕ) (q : Queue) (payload : List ℕ)
      → deliver ops m ram rxq q payload ≡ some m'
      → IsLevel m m'
  unfolding deliver
  deliver-IsLevel m m' ram rxq q payload = go (inject_one ram q payload).2
    where
      after : VirtioMmio D
      after = record m {
        ram = some (inject_one ram q payload).0;
        queues = set m.queues rxq (inject_one ram q payload).1;
      }

      go : (done : Bool) → (if done then some after else none) ≡ some m' → IsLevel m m'
      go false e = absurd (cc e)
      go true e = let same : m' ≡ after = cc e in rw same (record { status = refl; config = refl })

  IsLevel-trans : (m m' m'' : VirtioMmio D) → IsLevel m m' → IsLevel m' m'' → IsLevel m m''
  IsLevel-trans m m' m'' a b = record { status = b.status ∙ a.status; config = b.config ∙ a.config }

  pump_loop-IsLevel :
      (rxq fuel : ℕ) (m : VirtioMmio D) (any : Bool) (r : Pumped ops)
      → pump_loop ops rxq fuel m any ≡ some r
      → IsLevel m r.0
  unfolding pump_loop
  pump_loop-IsLevel rxq zero m any r = λ e. absurd (cc e)
  pump_loop-IsLevel rxq (suc fuel) m any r = elim (Option-cases (posted ops m rxq)) [
    | inl n ↦
        rw (pump_loop, n)
          (λ e. let same : r ≡ (m, any) = cc e in rw same (record { status = refl; config = refl }))
    | inr ((ram, q, room), n) ↦
        let polled = record m { dev = (ops.poll_rx m.dev room).0 } in
        let first : IsLevel m polled = record { status = refl; config = quiet.kept m.dev room } in
        elim (Option-cases (ops.poll_rx m.dev room).1) [
          | inl f ↦ rw (pump_loop, n, f) (λ e. let same : r ≡ (polled, any) = cc e in rw same first)
          | inr (payload, f) ↦ elim (Option-cases (deliver ops polled ram rxq q payload)) [
            | inl v ↦
                rw (pump_loop, n, f, v)
                  (λ e.
                    let same : r ≡ (record polled { pending_rx = some payload }, any) = cc e in
                    rw same (record { status = refl; config = quiet.kept m.dev room }))
            | inr (m', v) ↦
                rw (pump_loop, n, f, v)
                  (λ e.
                    IsLevel-trans m m' r.0
                      (IsLevel-trans m polled m' first
                        (deliver-IsLevel polled m' ram rxq q payload v))
                      (pump_loop-IsLevel rxq fuel m' true r e))
          ]
        ]
  ]

  retry_pending-IsLevel :
      (m : VirtioMmio D) (ram : GuestRam) (rxq : ℕ) → IsLevel m (retry_pending ops m ram rxq).1
  unfolding retry_pending
  retry_pending-IsLevel m ram rxq = elim (Option-cases m.pending_rx) [
    | inl e ↦ rw (retry_pending, e) (record { status = refl; config = refl })
    | inr (payload, e) ↦ elim (Option-cases (get_elem? m.queues rxq)) [
      | inl n ↦ rw (retry_pending, e, n) (record { status = refl; config = refl })
      | inr (q, n) ↦
          elim (Option-cases (deliver ops (record m { pending_rx = none }) ram rxq q payload)) [
            | inl v ↦ rw (retry_pending, e, n, v) (record { status = refl; config = refl })
            | inr (m', v) ↦
                let same =
                  deliver-IsLevel (record m { pending_rx = none }) m' ram rxq q payload v in
                rw (retry_pending, e, n, v) (record { status = same.status; config = same.config })
          ]
    ]
  ]

  raised-quiet : (r : Pumped ops) (m' : VirtioMmio D) → raise ops r ≡ (m', false) → m' ≡ r.0
  unfolding raise
  raised-quiet (m, true) m' e = absurd (cc (ap (λ (x : Pumped ops). x.1) e))
  raised-quiet (m, false) m' e = sym (ap (λ (x : Pumped ops). x.0) e)

  IsLevel-same : (m m' : VirtioMmio D) → m' ≡ m → IsLevel m m'
  IsLevel-same m m' e = rw e (record { status = refl; config = refl })

  -- The rest of a pump, after the retry.
  pumped-IsLevel :
      (fuel rxq : ℕ) (m m' : VirtioMmio D) (on : Bool) (any : Bool)
      → (if on then pump_loop ops rxq fuel m any >>= (λ r. some (raise ops r)) else some (m, any))
        ≡ some (m', false)
      → IsLevel m m'
  pumped-IsLevel fuel rxq m m' false any = λ e. let same : m' ≡ m = cc e in IsLevel-same m m' same
  pumped-IsLevel fuel rxq m m' true any = elim (Option-cases (pump_loop ops rxq fuel m any)) [
    | inl n ↦ rw n (λ e. absurd (cc e))
    | inr (r, n) ↦
        rw n (λ e.
          let same = raised-quiet r m' (cc e) in rw same (pump_loop-IsLevel rxq fuel m any r n))
  ]

  -- A pump that delivers nothing leaves the level.
  pub pump_rx-IsLevel :
      (fuel : ℕ) (m m' : VirtioMmio D)
      → pump_rx ops fuel m ≡ some (m', false)
      → (m'.interrupt_status ≡ m.interrupt_status)
        × (ops.config_changed m'.dev ≡ ops.config_changed m.dev)
  unfolding pump_rx
  pump_rx-IsLevel fuel m m' = elim (Option-cases m.ram) [
    | inl n ↦ rw (pump_rx, n) (λ e. let k = IsLevel-same m m' (cc e) in (k.status, k.config))
    | inr (ram, n) ↦ elim (Option-cases (ops.rx_queue m.dev)) [
      | inl x ↦ rw (pump_rx, n, x) (λ e. let k = IsLevel-same m m' (cc e) in (k.status, k.config))
      | inr (rxq, x) ↦
          let t = retry_pending ops m ram rxq in
          let first = retry_pending-IsLevel m ram rxq in
          rw (pump_rx, n, x)
            (λ e.
              let k = pumped-IsLevel fuel rxq t.1 m' t.0 t.2 e in
              (k.status ∙ first.status, k.config ∙ first.config))
    ]
  ]

  pub irq_level-same :
      (m m' : VirtioMmio D)
      → (m'.interrupt_status ≡ m.interrupt_status)
        × (ops.config_changed m'.dev ≡ ops.config_changed m.dev)
      → irq_level ops m' ≡ irq_level ops m
  unfolding irq_level
  irq_level-same m m' (s, c) = rw (s, c) refl
