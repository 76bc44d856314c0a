-- ===== src/Net/Receive.antt =====
-- crates/amber-core/src/net.rs: the rate limit defers frames to the guest; it drops and reorders none.
use amber.Prelude.{
  ℕ, zero, suc, ◌<◌, ◌≡◌, refl, ap, ◌∙◌, ◌⊎◌, inl, inr, true, false, Option, none, some, List, [],
  ◌∷◌, ◌++◌, map, arith, if◌then◌else◌, Option-cases, length,
}
use amber.Net.{
  NetBackend, TokenBucket, NetDevice, rx_header, next_frame, admit_rx, net_poll_rx, net_wants_poll,
}

-- The frames in hand: the deferred one, if any.
abbrev pub held : Option (List ℕ) → List (List ℕ)
held none = []
held (some f) = f ∷ []

module _ {B T : Type 0} (ops : NetBackend B) (lim : TokenBucket T) where
  -- What a poll takes from the backend: a frame only when none is deferred.
  abbrev pub taken : NetDevice B T → List (List ℕ)
  taken d = elim d.pending_rx [ some f ↦ [] | none ↦ held (ops.poll d.backend).1 ]

  -- `n` polls: what they take from the backend, what they give the guest, and the device after them.
  abbrev pub polls : ℕ → NetDevice B T → List (List ℕ) × List (List ℕ) × NetDevice B T
  polls zero d = ([], [], d)
  polls (suc n) d =
      let r = net_poll_rx ops lim d 0 in
      let rest = polls n r.0 in (taken d ++ rest.0, held r.1 ++ rest.1, rest.2)

  -- One poll: the frames in hand and taken go to the guest with the header, or stay in hand.
  abbrev pub IsOrderly : NetDevice B T → NetDevice B T × Option (List ℕ) → Type 0
  IsOrderly d r =
      (map (λ f. rx_header ++ f) (held d.pending_rx ++ taken d)
        ≡ held r.1 ++ map (λ f. rx_header ++ f) (held r.0.pending_rx))

  admit_rx-IsOrderly :
      (d : NetDevice B T) (frame : List ℕ)
      → d.pending_rx ≡ none
      → (((admit_rx ops lim d frame).1 ≡ true) × ((admit_rx ops lim d frame).0.pending_rx ≡ none))
        ⊎ (((admit_rx ops lim d frame).1 ≡ false)
            × ((admit_rx ops lim d frame).0.pending_rx ≡ some frame))
  unfolding admit_rx
  admit_rx-IsOrderly d frame e = ground (arith, e)

  -- The rest of a poll, after the frame in hand or taken is known.
  abbrev admitted_frame : NetDevice B T → Option (List ℕ) → NetDevice B T × Option (List ℕ)
  admitted_frame e none = (e, none)
  admitted_frame e (some frame) =
      if (admit_rx ops lim e frame).1
      then ((admit_rx ops lim e frame).0, some (rx_header ++ frame))
      else ((admit_rx ops lim e frame).0, none)

  poll_after :
      (d e : NetDevice B T) (max_frame : ℕ) (f : Option (List ℕ))
      → next_frame ops lim d ≡ (e, f)
      → net_poll_rx ops lim d max_frame ≡ admitted_frame e f
  unfolding net_poll_rx
  poll_after d e max_frame none q = simp (net_poll_rx, q)
  poll_after d e max_frame (some frame) q = simp (net_poll_rx, q)

  offered :
      (d e : NetDevice B T) (max_frame : ℕ) (f : Option (List ℕ))
      → next_frame ops lim d ≡ (e, f)
      → e.pending_rx ≡ none
      → held d.pending_rx ++ taken d ≡ held f
      → IsOrderly d (net_poll_rx ops lim d max_frame)
  offered d e max_frame f q free h =
      rw (poll_after d e max_frame f q)
        (ap (λ (fs : List (List ℕ)). map (λ f. rx_header ++ f) fs) h ∙ after f)
    where
      after :
          (f : Option (List ℕ))
          → map (λ f. rx_header ++ f) (held f)
            ≡ held (admitted_frame e f).1
              ++ map (λ f. rx_header ++ f) (held (admitted_frame e f).0.pending_rx)
      after none = rw free refl
      after (some frame) = elim (admit_rx-IsOrderly e frame free) [
        | inl (a, k) ↦ rw (a, k) refl
        | inr (a, k) ↦ rw (a, k) refl
      ]

  net_poll_rx-IsOrderly :
      (d : NetDevice B T) (max_frame : ℕ) → IsOrderly d (net_poll_rx ops lim d max_frame)
  unfolding next_frame
  net_poll_rx-IsOrderly d max_frame = elim (Option-cases d.pending_rx) [
    | inl e ↦
        offered d (record d { backend = (ops.poll d.backend).0 }) max_frame (ops.poll d.backend).1
          (simp (next_frame, e)) e (rw e refl)
    | inr (f, e) ↦
        offered d (record d { pending_rx = none }) max_frame (some f) (simp (next_frame, e)) refl
          (rw e refl)
  ]

map-nil : (fs : List (List ℕ)) → map (λ f. rx_header ++ f) fs ≡ [] → fs ≡ []
map-nil [] e = refl
map-nil (f ∷ fs) e = absurd (cc e)

-- After a poll that had a frame, deferred or from the backend, and gave the guest none, the device
-- asks for another poll.
pub net_wants_poll-deferred :
    {B T : Type 0} (ops : NetBackend B) (lim : TokenBucket T) (d : NetDevice B T) (max_frame : ℕ)
    → 0 < length (held d.pending_rx ++ taken ops lim d)
    → (net_poll_rx ops lim d max_frame).1 ≡ none
    → net_wants_poll ops lim (net_poll_rx ops lim d max_frame).0 ≡ true
unfolding net_wants_poll
net_wants_poll-deferred ops lim d max_frame more quiet =
    let same = net_poll_rx-IsOrderly ops lim d max_frame in
    elim (Option-cases (net_poll_rx ops lim d max_frame).0.pending_rx) [
      | inr (f, e) ↦ rw e refl
      | inl e ↦
          let empty = map-nil _ (same ∙ rw (quiet, e) refl) in
          absurd (omega (arith, more, ap length empty))
    ]
