-- ===== src/Net.antt =====
-- crates/amber-core/src/net.rs: the virtio-net device, between guest rings and a backend that moves
-- frames. The backend (`NetBackend`) and the rate limiter (`debit`, `try_take` of the token bucket, in
-- floating point over wall-clock time) are records of functions over their states.
pub mod Transmit
pub mod Receive
pub mod Tests
use amber.Prelude.{
  ℕ, zero, suc, ◌+◌, ◌-◌, ◌*◌, ◌/◌, ◌%◌, ◌^◌, ◌≤◌, ◌<◌, min, max, bit_and, bit_or, ◌≡◌, refl, sym,
  ap, ◌∙◌, ◌≢◌, ◌↔◌, ◌⊎◌, inl, inr, Bool, true, false, not, ◌&&◌, ◌||◌, Option, none, some, List,
  [], ◌∷◌, ◌++◌, map, append-nil, append_assoc, arith, ltb, leb, ◌==◌, if◌then◌else◌, Bool-cases,
  Option-cases, ◌>>=◌, is_some, length, get_elem?, get_or, set, take, drop, replicate, All, IsByte,
  keep, length-append, length-set, All-append, All-set, All-get_elem?, wrapping_add, wrapping_sub,
  not_u32, to_le, from_le, ==_iff, ltb→lt, lt→ltb, leb→le, le→leb, length-take, length-drop,
  length-replicate,
}
use amber.Memory.{GuestRam}
use amber.Memory
use amber.Virtqueue.{Buf, sum_len}
use amber.Devices.{readable}

pub record NetBackend (B : Type 0) : Type 0 where
  pub send : B → List ℕ → B
  pub poll : B → B × Option (List ℕ)
  pub mac : B → List ℕ
  pub wants_poll : B → Bool

-- A debit answers how long to wait, a take whether the tokens were there.
pub record TokenBucket (T : Type 0) : Type 0 where
  pub debit : T → ℕ → T × Option ℕ
  pub try_take : T → ℕ → T × Bool

pub record NetDevice (B T : Type 0) : Type 0 where
  pub backend : B
  pub mac : List ℕ
  pub tx_limit : Option T
  pub rx_limit : Option T
  pub pending_rx : Option (List ℕ)
  pub tx_debt : Option ℕ

abbrev pub virtio_net_hdr_len : ℕ
virtio_net_hdr_len = 12

abbrev pub max_tx_frame : ℕ
max_tx_frame = 65536

-- The header of a frame for the guest: `num_buffers` is 1.
abbrev pub rx_header : List ℕ
rx_header = 0 ∷ 0 ∷ 0 ∷ 0 ∷ 0 ∷ 0 ∷ 0 ∷ 0 ∷ 0 ∷ 0 ∷ 1 ∷ 0 ∷ []

-- The readable buffers gathered into one frame; a buffer that is not in RAM reads as zeros.
unfoldable pub gather : GuestRam → List Buf → List ℕ → List ℕ
gather ram [] frame = frame
gather ram (b ∷ bufs) frame =
    let n = min b.len (max_tx_frame - length frame) in
    let rest = gather ram bufs (frame ++ (Memory.read ram b.addr (replicate n 0)).1) in
    if leb max_tx_frame (length frame) then frame else rest

unfoldable pub net_features : ℕ → ℕ
net_features sel = if sel == 0 then 2 ^ 5 else if sel == 1 then 1 else 0

-- The byte at an offset of the configuration: the MAC's, or zero.
unfoldable pub mac_byte : List ℕ → ℕ → ℕ
mac_byte mac idx = if ltb idx (length mac) then get_or mac idx 0 else 0

module _ {B T : Type 0} where
  unfoldable pub net_config : NetDevice B T → ℕ → ℕ
  net_config d off = from_le (
      mac_byte d.mac off
      ∷ mac_byte d.mac (off + 1)
      ∷ mac_byte d.mac (off + 2)
      ∷ mac_byte d.mac (off + 3)
      ∷ [])

  unfoldable pub take_throttle : NetDevice B T → NetDevice B T × Option ℕ
  take_throttle d = (record d { tx_debt = none }, d.tx_debt)

module _ {B T : Type 0} (ops : NetBackend B) (lim : TokenBucket T) where
  unfoldable pub net_new : B → Option T → Option T → NetDevice B T
  net_new backend tx rx = record {
    backend = backend;
    mac = ops.mac backend;
    tx_limit = tx;
    rx_limit = rx;
    pending_rx = none;
    tx_debt = none;
  }

  unfoldable pub net_wants_poll : NetDevice B T → Bool
  net_wants_poll d = is_some d.pending_rx || ops.wants_poll d.backend

  -- The debt that a frame leaves on the transmit limit.
  unfoldable pub charge_tx : NetDevice B T → ℕ → NetDevice B T
  charge_tx d n = elim d.tx_limit [
    | none ↦ d
    | some t ↦ record d { tx_limit = some (lim.debit t n).0; tx_debt = (lim.debit t n).1 }
  ]

  -- A notify of queue 1 is a frame to send; the used length is 0.
  unfoldable pub net_handle : NetDevice B T → ℕ → GuestRam → List Buf → NetDevice B T × ℕ
  net_handle d queue ram bufs =
      let frame = gather ram (readable bufs) [] in
      let payload = drop virtio_net_hdr_len frame in
      let charged = charge_tx d (length frame - virtio_net_hdr_len) in
      if (queue == 1) && ltb virtio_net_hdr_len (length frame)
      then (record charged { backend = ops.send charged.backend payload }, 0)
      else (d, 0)

  -- The frame to hand on: the deferred one, else the backend's next.
  unfoldable pub next_frame : NetDevice B T → NetDevice B T × Option (List ℕ)
  next_frame d = elim d.pending_rx [
    | some f ↦ (record d { pending_rx = none }, some f)
    | none ↦ (record d { backend = (ops.poll d.backend).0 }, (ops.poll d.backend).1)
  ]

  -- The receive limit passes a frame, or the frame is deferred.
  unfoldable pub admit_rx : NetDevice B T → List ℕ → NetDevice B T × Bool
  admit_rx d frame = elim d.rx_limit [
    | none ↦ (d, true)
    | some t ↦
        if (lim.try_take t (length frame)).1
        then (record d { rx_limit = some (lim.try_take t (length frame)).0 }, true)
        else (
          record d { rx_limit = some (lim.try_take t (length frame)).0; pending_rx = some frame },
          false,
        )
  ]

  unfoldable pub net_poll_rx : NetDevice B T → ℕ → NetDevice B T × Option (List ℕ)
  net_poll_rx d max_frame =
      let n = next_frame d in
      elim n.1 [
        | none ↦ (n.0, none)
        | some frame ↦
            let a = admit_rx n.0 frame in
            if a.1 then (a.0, some (rx_header ++ frame)) else (a.0, none)
      ]
