-- ===== src/Vsock/Reach.antt =====
-- crates/amber-core/src/vsock.rs: every packet and every poll keep the bound on buffered bytes.
use amber.Prelude.{
  ℕ, zero, suc, ◌-◌, ◌%◌, ◌^◌, ◌≤◌, min, ◌≡◌, refl, ap, inl, inr, Bool, true, false, ◌&&◌, Option,
  some, List, [], ◌∷◌, arith, ◌==◌, Bool-cases, Option-cases, length, take, drop, All, All-append,
  wrapping_add, length-drop,
}
use amber.Vsock.{guest_window, Conn, VsockDevice, new, send, on_guest_packet, buf_alloc, hdr_len}
use amber.Vsock.Sockets.{Host}
use amber.Vsock.Pump.{
  drain_loop, read_loop, turn, turns, is_empty, retained, serve, accept_loop, greet,
  alloc_host_port, pump, poll_rx, pop_front,
}
use amber.Vsock.Credit.{ReadResult-cases}
use amber.Vsock.Drain.{WriteResult-cases}
use amber.Vsock.Bounded.{IsBounded, on_guest_packet-IsBounded}

module _ {W S : Type 0} (host : Host W S) where
  drain_loop-shrinks :
      (fuel : ℕ) (w : W) (c : Conn S) (changed : Bool)
      → length (drain_loop host fuel w c changed).1.to_host ≤ length c.to_host
  unfolding drain_loop
  drain_loop-shrinks zero w c changed = omega arith
  drain_loop-shrinks (suc fuel) w c changed =
      let front = take (host.first_slice w c.to_host) c.to_host in
      elim (Bool-cases (is_empty c.to_host)) [
        | inl e ↦ rw (drain_loop, e) (omega arith)
        | inr e ↦ elim (WriteResult-cases (host.write w c.stream front).1) [
          | inl (n, a) ↦ elim (Bool-cases (n == 0)) [
            | inl z ↦ rw (drain_loop, e, a, z) (omega arith)
            | inr z ↦
                let ih =
                  drain_loop-shrinks fuel (host.write w c.stream front).0
                    (record c {
                      to_host = drop n c.to_host;
                      fwd_cnt = wrapping_add 32 c.fwd_cnt (n % 2 ^ 32);
                    })
                    true in
                rw (drain_loop, e, a, z) (omega (arith, ih, length-drop n c.to_host))
          ]
          | inr (inl a) ↦ rw (drain_loop, e, a) (omega arith)
          | inr (inr a) ↦ rw (drain_loop, e, a) (omega arith)
        ]
      ]

  read_loop-keeps :
      (fuel m : ℕ) (w : W) (c : Conn S) → (read_loop host fuel m w c).1.to_host ≡ c.to_host
  unfolding read_loop
  read_loop-keeps zero m w c = refl
  read_loop-keeps (suc fuel) m w c =
      let room = min (guest_window c) m in
      elim (Bool-cases (room == 0)) [
        | inl e ↦ rw (read_loop, e) refl
        | inr e ↦ elim (ReadResult-cases (host.read w c.stream room).1) [
          | inl a ↦ rw (read_loop, e, a) refl
          | inr (inl (b, bs, a)) ↦
              rw (read_loop, e, a)
                (read_loop-keeps fuel m (host.read w c.stream room).0
                  (record c { tx_cnt = wrapping_add 32 c.tx_cnt (length (b ∷ bs) % 2 ^ 32) }))
          | inr (inr (inl a)) ↦ rw (read_loop, e, a) refl
          | inr (inr (inr a)) ↦ rw (read_loop, e, a) refl
        ]
      ]

  turn-shrinks :
      (cid m : ℕ) (w : W) (c : Conn S) → length (turn host cid m w c).1.to_host ≤ length c.to_host
  unfolding turn
  turn-shrinks cid m w c =
      let drained = drain_loop host (length c.to_host) w c false in
      let less = drain_loop-shrinks (length c.to_host) w c false in
      elim (Bool-cases drained.1.up) [
        | inl e ↦
            rw (turn, e)
              (omega (
                arith,
                less,
                ap length (read_loop-keeps (guest_window drained.1) m drained.0 drained.1),
              ))
        | inr e ↦ rw (turn, e) less
      ]

  turns-buffered :
      (cid m : ℕ) (w : W) (conns : List (Conn S))
      → All (λ c. length c.to_host ≤ buf_alloc) conns
      → All (λ c. length c.to_host ≤ buf_alloc) (turns host cid m w conns).1
  unfolding turns
  turns-buffered cid m w [] k = tt
  turns-buffered cid m w (c ∷ cs) k =
      let less = turn-shrinks cid m w c in
      (omega (arith, less, k.0), turns-buffered cid m (turn host cid m w c).0 cs k.1)

  retained-buffered :
      (conns : List (Conn S))
      → All (λ c. length c.to_host ≤ buf_alloc) conns
      → All (λ c. length c.to_host ≤ buf_alloc) (retained host conns)
  unfolding retained
  retained-buffered [] k = tt
  retained-buffered (c ∷ cs) k = elim (Bool-cases (c.host_done && is_empty c.to_host)) [
    | inl e ↦ rw (retained, e) (retained-buffered cs k.1)
    | inr e ↦ rw (retained, e) (k.0, retained-buffered cs k.1)
  ]

  serve-IsBounded : (m : ℕ) (d : VsockDevice W S) → IsBounded d → IsBounded (serve host m d)
  unfolding serve
  serve-IsBounded m d k = record {
    buffered = retained-buffered _ (turns-buffered d.guest_cid m d.backend d.conns k.buffered);
  }

  greet-IsBounded :
      (d : VsockDevice W S) (guest_port : ℕ) (stream : S)
      → IsBounded d
      → IsBounded (greet host d guest_port stream)
  unfolding greet alloc_host_port send
  greet-IsBounded d guest_port stream k = record {
    buffered =
        All-append (λ c. length c.to_host ≤ buf_alloc) d.conns _ k.buffered (omega arith, tt);
  }

  accept_loop-IsBounded :
      (fuel : ℕ) (d d' : VsockDevice W S)
      → accept_loop host fuel d ≡ some d'
      → IsBounded d
      → IsBounded d'
  unfolding accept_loop
  accept_loop-IsBounded zero d d' e k = cc
  accept_loop-IsBounded (suc fuel) d d' e k = elim (Option-cases (host.accept d.backend).1) [
    | inl n ↦
        let same : record d { backend = (host.accept d.backend).0 } ≡ d' = ground (arith, e, n) in
        rw (← same) (record { buffered = k.buffered })
    | inr ((guest_port, stream), n) ↦
        accept_loop-IsBounded fuel
          (greet host (record d { backend = (host.accept d.backend).0 }) guest_port stream) d'
          (rw (accept_loop, n) at e)
          (greet-IsBounded _ guest_port stream (record { buffered = k.buffered }))
  ]

  poll_rx-IsBounded :
      (fuel max_frame : ℕ) (d : VsockDevice W S) (r : VsockDevice W S × Option (List ℕ))
      → poll_rx host fuel max_frame d ≡ some r
      → IsBounded d
      → IsBounded r.0
  unfolding poll_rx pump
  poll_rx-IsBounded fuel max_frame d r e k = polled d.rx refl
    where
      popped :
          (d' : VsockDevice W S) → some (pop_front host d') ≡ some r → IsBounded d' → IsBounded r.0
      popped d' e k =
          let same : pop_front host d' ≡ r = ground (arith, e) in
          rw (← same) (record { buffered = k.buffered })

      polled : (rx : List (List ℕ)) → d.rx ≡ rx → IsBounded r.0
      polled (p ∷ ps) q = popped d (rw (poll_rx, q) at e) k
      polled [] q = elim (Option-cases (accept_loop host fuel d)) [
        | inl n ↦ absurd (ground (arith, e, q, n))
        | inr (d', n) ↦
            popped (serve host (max_frame - hdr_len) d') (rw (poll_rx, pump, q, n) at e)
              (serve-IsBounded (max_frame - hdr_len) d' (accept_loop-IsBounded fuel d d' n k))
      ]

  -- What drives the device: a packet out of the TX queue, and a poll of the RX queue.
  pub data Event (d : VsockDevice W S) : VsockDevice W S → Type 0 where
    packets : (pkt : List ℕ) → Event d (on_guest_packet host d pkt)
    polls :
        (fuel max_frame : ℕ) (r : VsockDevice W S × Option (List ℕ))
        → poll_rx host fuel max_frame d ≡ some r
        → Event d r.0

  pub data Reach (d : VsockDevice W S) : VsockDevice W S → Type 0 where
    here : Reach d d
    later : {d' d'' : VsockDevice W S} → Reach d d' → Event d' d'' → Reach d d''

  Event-IsBounded : {d d' : VsockDevice W S} → Event d d' → IsBounded d → IsBounded d'
  Event-IsBounded {d} (packets pkt) k = on_guest_packet-IsBounded host d pkt k
  Event-IsBounded {d} (polls fuel max_frame r e) k = poll_rx-IsBounded fuel max_frame d r e k

  Reach-IsBounded : {d d' : VsockDevice W S} → Reach d d' → IsBounded d → IsBounded d'
  Reach-IsBounded here k = k
  Reach-IsBounded (later r e) k = Event-IsBounded e (Reach-IsBounded r k)

  -- After any sequence of guest packets, whatever their bytes, and polls, with any backend and any
  -- answers of the host's sockets, no connection of a new device buffers more for the host than the
  -- window of 256 KiB that the device advertises.
  pub new-Reach-IsBounded :
      (guest_cid : ℕ) (backend : W) {d : VsockDevice W S}
      → Reach (new guest_cid backend) d
      → All (λ c. length c.to_host ≤ buf_alloc) d.conns
  unfolding new
  new-Reach-IsBounded guest_cid backend r = (Reach-IsBounded r (record { buffered = tt })).buffered
