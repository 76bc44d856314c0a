-- ===== src/Vsock/Pump.antt =====
-- crates/amber-core/src/vsock.rs: the host side of the device, `pump`, and `poll_rx`. The loops over a
-- socket run on fuel: the bytes buffered for the drain, the guest's window for the reads. The loop of
-- accepts runs as long as the host has peers, on fuel that is given, and is `none` without.
use amber.Prelude.{
  ℕ, zero, suc, ◌+◌, ◌-◌, ◌%◌, ◌^◌, min, Bool, true, false, ◌&&◌, Option, none, some, List, [], ◌∷◌,
  ◌++◌, map, ltb, ◌==◌, if◌then◌else◌, ◌>>=◌, length, get_elem?, take, drop, wrapping_add,
}
use amber.Vsock.{
  Conn, VsockDevice, packet, send, find, opened, guest_window, hdr_len, ephemeral_base, op_request,
  op_shutdown, op_rw, op_credit_update,
}
use amber.Vsock.Sockets.{Host, wrote, write_blocked, write_failed, got, read_blocked, read_failed}

abbrev pub next_port : ℕ → ℕ
next_port hp = if ltb (hp + 1) (2 ^ 32) then hp + 1 else ephemeral_base

-- The rounds of `alloc_host_port`, with the port to try next: the port found and the one after it.
unfoldable pub alloc_loop : {S : Type 0} → List (Conn S) → ℕ → ℕ → ℕ → ℕ × ℕ
alloc_loop conns guest_port zero hp = (ephemeral_base, hp)
alloc_loop conns guest_port (suc rounds) hp = elim (find conns guest_port hp) [
  | none ↦ (hp, next_port hp)
  | some i ↦ alloc_loop conns guest_port rounds (next_port hp)
]

abbrev pub is_empty : List ℕ → Bool
is_empty [] = true
is_empty (b ∷ bs) = false

module _ {W S : Type 0} (host : Host W S) where
  unfoldable pub alloc_host_port : VsockDevice W S → ℕ → VsockDevice W S × ℕ
  alloc_host_port d guest_port =
      let r = alloc_loop d.conns guest_port (2 ^ 32 - ephemeral_base) d.next_host_port in
      (record d { next_host_port = r.1 }, r.0)

  -- A host peer's connection: tell the guest with a REQUEST.
  unfoldable pub greet : VsockDevice W S → ℕ → S → VsockDevice W S
  greet d guest_port stream =
      let r = alloc_host_port d guest_port in
      send (record r.0 { conns = r.0.conns ++ (opened guest_port r.1 stream 0 0 false ∷ []) })
        guest_port r.1 op_request 0 []

  unfoldable pub accept_loop : ℕ → VsockDevice W S → Option (VsockDevice W S)
  accept_loop zero d = none
  accept_loop (suc fuel) d =
      let r = host.accept d.backend in
      elim r.1 [
        | none ↦ some (record d { backend = r.0 })
        | some (guest_port, stream) ↦
            accept_loop fuel (greet (record d { backend = r.0 }) guest_port stream)
      ]

  -- Drain `to_host` into the stream: the host's state, the connection, and whether credit changed.
  unfoldable pub drain_loop : ℕ → W → Conn S → Bool → W × Conn S × Bool
  drain_loop zero w c changed = (w, c, changed)
  drain_loop (suc fuel) w c changed =
      let r = host.write w c.stream (take (host.first_slice w c.to_host) c.to_host) in
      if is_empty c.to_host then (w, c, changed) else elim r.1 [
        | wrote n ↦
            if n == 0
            then (r.0, c, changed)
            else drain_loop fuel r.0
                (record c {
                  to_host = drop n c.to_host;
                  fwd_cnt = wrapping_add 32 c.fwd_cnt (n % 2 ^ 32);
                })
                true
        | write_blocked ↦ (r.0, c, changed)
        | write_failed ↦ (r.0, record c { host_done = true }, changed)
      ]

  -- Read from the stream within the credit: the host's state, the connection, and the payloads.
  unfoldable pub read_loop : ℕ → ℕ → W → Conn S → W × Conn S × List (List ℕ)
  read_loop zero max_payload w c = (w, c, [])
  read_loop (suc fuel) max_payload w c =
      let room = min (guest_window c) max_payload in
      let r = host.read w c.stream room in
      if room == 0 then (w, c, []) else elim r.1 [
        | got [] ↦ (r.0, record c { host_done = true }, [])
        | got (b ∷ bs) ↦
            let rest =
              read_loop fuel max_payload r.0
                (record c { tx_cnt = wrapping_add 32 c.tx_cnt (length (b ∷ bs) % 2 ^ 32) }) in
            (rest.0, rest.1, (b ∷ bs) ∷ rest.2)
        | read_blocked ↦ (r.0, c, [])
        | read_failed ↦ (r.0, record c { host_done = true }, [])
      ]

  -- The packets that one turn of a connection queues: a credit update, then the data.
  unfoldable pub turn_packets : ℕ → Conn S → Bool → List (List ℕ) → List (List ℕ)
  turn_packets cid c changed payloads =
      (if changed && c.up
        then packet cid c.guest_port c.host_port op_credit_update c.fwd_cnt [] ∷ []
        else [])
      ++ map (λ payload. packet cid c.guest_port c.host_port op_rw c.fwd_cnt payload) payloads

  -- `for idx in 0..self.conns.len()`, its body.
  unfoldable pub turn : ℕ → ℕ → W → Conn S → W × Conn S × List (List ℕ)
  turn cid max_payload w c =
      let drained = drain_loop (length c.to_host) w c false in
      let fed =
        if drained.1.up
        then read_loop (guest_window drained.1) max_payload drained.0 drained.1
        else (drained.0, drained.1, []) in
      (fed.0, fed.1, turn_packets cid drained.1 drained.2 fed.2)

  unfoldable pub turns : ℕ → ℕ → W → List (Conn S) → W × List (Conn S) × List (List ℕ)
  turns cid max_payload w [] = (w, [], [])
  turns cid max_payload w (c ∷ cs) =
      let now = turn cid max_payload w c in
      let later = turns cid max_payload now.0 cs in (later.0, now.1 ∷ later.1, now.2 ++ later.2)

  abbrev pub dead : Conn S → Bool
  dead c = c.host_done && is_empty c.to_host

  unfoldable pub retained : List (Conn S) → List (Conn S)
  retained [] = []
  retained (c ∷ cs) = let rest = retained cs in if dead c then rest else c ∷ rest

  unfoldable pub shutdowns : ℕ → List (Conn S) → List (List ℕ)
  shutdowns cid [] = []
  shutdowns cid (c ∷ cs) =
      let rest = shutdowns cid cs in
      if dead c then packet cid c.guest_port c.host_port op_shutdown c.fwd_cnt [] ∷ rest else rest

  -- The part of `pump` after the accepts.
  unfoldable pub serve : ℕ → VsockDevice W S → VsockDevice W S
  serve max_payload d =
      let r = turns d.guest_cid max_payload d.backend d.conns in
      record d {
        backend = r.0;
        conns = retained r.1;
        rx = (d.rx ++ r.2) ++ shutdowns d.guest_cid r.1;
      }

  unfoldable pub pump : ℕ → ℕ → VsockDevice W S → Option (VsockDevice W S)
  pump fuel max_payload d = do accepted ← accept_loop fuel d; some (serve max_payload accepted)

  -- Dequeue the next packet.
  abbrev pub pop_front : VsockDevice W S → VsockDevice W S × Option (List ℕ)
  pop_front d = (record d { rx = drop 1 d.rx }, get_elem? d.rx 0)

  unfoldable pub poll_rx : ℕ → ℕ → VsockDevice W S → Option (VsockDevice W S × Option (List ℕ))
  poll_rx fuel max_frame d = elim d.rx [
    | [] ↦ (do pumped ← pump fuel (max_frame - hdr_len) d; some (pop_front pumped))
    | p ∷ ps ↦ some (pop_front d)
  ]
