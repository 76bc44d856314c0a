-- ===== src/Transport/Loop.antt =====
-- The loop of `pump_rx` as a history, and its end with the device's backlog.
use amber.Prelude.{
  subst, ℕ, zero, suc, ◌<◌, ◌≡◌, refl, ◌∙◌, ◌≢◌, inl, inr, Bool, true, false, ◌||◌, Option, none,
  some, List, [], ◌∷◌, arith, Option-cases,
}
use amber.Memory.{GuestRam}
use amber.Virtqueue.{Queue}
use amber.Transport.{VirtioDevice, VirtioMmio, Pumped, deliver, posted, pump_loop}
use amber.Transport.Delivered.{Delivered, deliver_posted, posted_cap}

-- Whether a pump delivered anything.
abbrev pub moved : List (List ℕ) → Bool
moved [] = false
moved (payload ∷ frames) = true

module _ {D : Type 0} (ops : VirtioDevice D) where
  -- A pump as a history: payloads are polled while a buffer is posted, each sized to that buffer,
  -- and the guest has each before the next is polled.
  pub data Pumping (rxq : ℕ) : VirtioMmio D → List (List ℕ) → VirtioMmio D → Type 0 where
    full : (m : VirtioMmio D) → posted ops m rxq ≡ none → Pumping rxq m [] m
    dry :
        (m : VirtioMmio D) (ram : GuestRam) (q : Queue) (room : ℕ)
        → posted ops m rxq ≡ some (ram, q, room)
        → (ops.poll_rx m.dev room).1 ≡ none
        → Pumping rxq m [] (record m { dev = (ops.poll_rx m.dev room).0 })
    one :
        (m : VirtioMmio D) {m' last : VirtioMmio D} (ram : GuestRam) (q : Queue) (room : ℕ)
        (payload : List ℕ) {rest : List (List ℕ)}
        → posted ops m rxq ≡ some (ram, q, room)
        → (ops.poll_rx m.dev room).1 ≡ some payload
        → Delivered ops rxq ram q room payload (record m { dev = (ops.poll_rx m.dev room).0 }) m'
        → Pumping rxq m' rest last
        → Pumping rxq m (payload ∷ rest) last

  -- What a pump that has its fuel returns: the history's end, and whether anything moved.
  abbrev pub Outcome : ℕ → VirtioMmio D → Bool → Option (Pumped ops) → Type 0
  Outcome rxq m any none = Unit {0}
  Outcome rxq m any (some r) =
      (frames : List (List ℕ)) × Pumping rxq m frames r.0
      × (r.0.pending_rx ≡ m.pending_rx)
      × (r.1 ≡ (any || moved frames))

  or_false : (b : Bool) → b ≡ (b || false)
  or_false true = refl
  or_false false = refl

  or_true : (b : Bool) → true ≡ (b || true)
  or_true true = refl
  or_true false = refl

  Outcome-one :
      (rxq : ℕ) (m m' : VirtioMmio D) (any : Bool) (ram : GuestRam) (q : Queue) (room : ℕ)
      (payload : List ℕ) (r : Option (Pumped ops))
      → posted ops m rxq ≡ some (ram, q, room)
      → (ops.poll_rx m.dev room).1 ≡ some payload
      → Delivered ops rxq ram q room payload (record m { dev = (ops.poll_rx m.dev room).0 }) m'
      → m'.pending_rx ≡ m.pending_rx
      → Outcome rxq m' true r
      → Outcome rxq m any r
  Outcome-one rxq m m' any ram q room payload none e d v k o = tt
  Outcome-one rxq m m' any ram q room payload (some r) e d v k (frames, h, p, b) =
      (payload ∷ frames, one m ram q room payload e d v h, p ∙ k, b ∙ or_true any)

  -- The three ways out of a round.
  module _ (rxq fuel : ℕ) (m : VirtioMmio D) (any : Bool) where
    pump_loop_full : posted ops m rxq ≡ none → pump_loop ops rxq (suc fuel) m any ≡ some (m, any)
    unfolding pump_loop
    pump_loop_full e = ground arith

    pump_loop_dry :
        (ram : GuestRam) (q : Queue) (room : ℕ)
        → posted ops m rxq ≡ some (ram, q, room)
        → (ops.poll_rx m.dev room).1 ≡ none
        → pump_loop ops rxq (suc fuel) m any
          ≡ some (record m { dev = (ops.poll_rx m.dev room).0 }, any)
    unfolding pump_loop
    pump_loop_dry ram q room e d = ground arith

    pump_loop_one :
        (ram : GuestRam) (q : Queue) (room : ℕ) (payload : List ℕ) (m' : VirtioMmio D)
        → posted ops m rxq ≡ some (ram, q, room)
        → (ops.poll_rx m.dev room).1 ≡ some payload
        → deliver ops (record m { dev = (ops.poll_rx m.dev room).0 }) ram rxq q payload ≡ some m'
        → pump_loop ops rxq (suc fuel) m any ≡ pump_loop ops rxq fuel m' true
    unfolding pump_loop
    pump_loop_one ram q room payload m' e d v = ground arith

  pump_loop-Outcome :
      (rxq fuel : ℕ) (m : VirtioMmio D) (any : Bool)
      → Outcome rxq m any (pump_loop ops rxq fuel m any)
  pump_loop-Outcome rxq zero m any = unfold pump_loop in tt
  pump_loop-Outcome rxq (suc fuel) m any = elim (Option-cases (posted ops m rxq)) [
    | inl e ↦ rw (pump_loop_full rxq fuel m any e) ([], full m e, refl, or_false any)
    | inr ((ram, q, room), e) ↦ elim (Option-cases (ops.poll_rx m.dev room).1) [
      | inl d ↦
          rw (pump_loop_dry rxq fuel m any ram q room e d)
            ([], dry m ram q room e d, refl, or_false any)
      | inr (payload, d) ↦
          let (m', v, given, k, _) =
            deliver_posted ops (record m { dev = (ops.poll_rx m.dev room).0 }) rxq ram q room
              payload (posted_cap ops m rxq ram q room e).2 in
          rw (pump_loop_one rxq fuel m any ram q room payload m' e d v) (
            Outcome-one rxq m m' any ram q room payload _ e d given k
              (pump_loop-Outcome rxq fuel m' true))
    ]
  ]

  -- A loop that has its fuel is such a history.
  pub pump_loop-Pumping :
      (rxq fuel : ℕ) (m : VirtioMmio D) (any : Bool) (r : VirtioMmio D × Bool)
      → pump_loop ops rxq fuel m any ≡ some r
      → (frames : List (List ℕ)) × Pumping rxq m frames r.0
        × (r.0.pending_rx ≡ m.pending_rx)
        × (r.1 ≡ (any || moved frames))
  pump_loop-Pumping rxq fuel m any r e =
      subst (Outcome rxq m any) e (pump_loop-Outcome rxq fuel m any)

  module _ (backlog : D → ℕ)
      (drains : (dev : D) (room : ℕ) (payload : List ℕ)
        → (ops.poll_rx dev room).1 ≡ some payload
        → backlog (ops.poll_rx dev room).0 < backlog dev) where
    -- For a device whose backlog falls with each payload it gives, the pump ends: fuel above the
    -- backlog is enough, however many buffers the guest posts.
    pub pump_loop-ne-none :
        (rxq fuel : ℕ) (m : VirtioMmio D) (any : Bool)
        → backlog m.dev < fuel
        → pump_loop ops rxq fuel m any ≢ none
    pump_loop-ne-none rxq zero m any h = absurd (omega arith)
    pump_loop-ne-none rxq (suc fuel) m any h = elim (Option-cases (posted ops m rxq)) [
      | inl e ↦ rw (pump_loop_full rxq fuel m any e) (λ x. cc)
      | inr ((ram, q, room), e) ↦ elim (Option-cases (ops.poll_rx m.dev room).1) [
        | inl d ↦ rw (pump_loop_dry rxq fuel m any ram q room e d) (λ x. cc)
        | inr (payload, d) ↦
            let (m', v, _, _, k) =
              deliver_posted ops (record m { dev = (ops.poll_rx m.dev room).0 }) rxq ram q room
                payload (posted_cap ops m rxq ram q room e).2 in
            let less = drains m.dev room payload d in
            rw (pump_loop_one rxq fuel m any ram q room payload m' e d v)
              (pump_loop-ne-none rxq fuel m' true (rw k (omega arith)))
      ]
    ]
