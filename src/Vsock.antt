-- ===== src/Vsock.antt =====
-- crates/amber-core/src/vsock.rs: the virtio-vsock device. The backend (`VsockBackend`) and the Unix
-- sockets are the host's: a record of functions over the host's state, each call returning the state
-- it leaves. A packet is a list of bytes. `to_host` and `rx` are lists, front first.
pub mod Sockets
pub mod Packet
pub mod Pump
pub mod Credit
pub mod Drain
pub mod Bounded
pub mod Reach
pub mod Tests
use amber.Prelude.{
  ℕ, zero, suc, ◌+◌, ◌-◌, ◌*◌, ◌/◌, ◌%◌, ◌^◌, ◌≤◌, ◌<◌, min, max, bit_and, bit_or, ◌≡◌, refl, sym,
  ap, ◌∙◌, ◌≢◌, ◌↔◌, ◌⊎◌, inl, inr, Bool, true, false, not, ◌&&◌, ◌||◌, Option, none, some, List,
  [], ◌∷◌, ◌++◌, map, append-nil, append_assoc, arith, ltb, leb, ◌==◌, if◌then◌else◌, Bool-cases,
  Option-cases, ◌>>=◌, is_some, length, get_elem?, get_or, set, take, drop, replicate, All, IsByte,
  keep, length-append, length-set, All-append, All-set, All-get_elem?, wrapping_add, wrapping_sub,
  not_u32, to_le, from_le, ==_iff, ltb→lt, lt→ltb, leb→le, le→leb, length-take, length-drop,
  length-replicate,
}
use amber.Memory.{GuestRam}
use amber.Memory
use amber.Virtqueue.{Buf, sum_len}
use amber.Vsock.Sockets.{
  Host, WriteResult, ReadResult, wrote, write_blocked, write_failed, got, read_blocked, read_failed,
}

abbrev pub hdr_len : ℕ
hdr_len = 44

abbrev pub cid_host : ℕ
cid_host = 2

abbrev pub ephemeral_base : ℕ
ephemeral_base = 1024

abbrev pub buf_alloc : ℕ
buf_alloc = 256 * 1024

abbrev pub max_packet : ℕ
max_packet = hdr_len + buf_alloc

abbrev pub op_request : ℕ
op_request = 1

abbrev pub op_response : ℕ
op_response = 2

abbrev pub op_rst : ℕ
op_rst = 3

abbrev pub op_shutdown : ℕ
op_shutdown = 4

abbrev pub op_rw : ℕ
op_rw = 5

abbrev pub op_credit_update : ℕ
op_credit_update = 6

abbrev pub op_credit_request : ℕ
op_credit_request = 7

pub record Conn (S : Type 0) : Type 0 where
  pub guest_port : ℕ
  pub host_port : ℕ
  pub stream : S
  pub peer_buf_alloc : ℕ
  pub peer_fwd_cnt : ℕ
  pub tx_cnt : ℕ
  pub fwd_cnt : ℕ
  pub to_host : List ℕ
  pub up : Bool
  pub host_done : Bool

pub record VsockDevice (W S : Type 0) : Type 0 where
  pub backend : W
  pub guest_cid : ℕ
  pub conns : List (Conn S)
  pub rx : List (List ℕ)
  pub next_host_port : ℕ

-- A packet for the guest.
unfoldable pub packet : ℕ → ℕ → ℕ → ℕ → ℕ → List ℕ → List ℕ
packet cid guest_port host_port op fwd_cnt payload =
    to_le 8 cid_host
    ++ to_le 8 cid
    ++ to_le 4 host_port
    ++ to_le 4 guest_port
    ++ to_le 4 (length payload)
    ++ to_le 2 1
    ++ to_le 2 op
    ++ to_le 4 0
    ++ to_le 4 buf_alloc
    ++ to_le 4 fwd_cnt
    ++ payload

-- The little-endian field of `w` bytes at `off`.
unfoldable pub field : ℕ → ℕ → List ℕ → ℕ
field off w pkt = from_le (take w (drop off pkt))

abbrev pub modify {ℓ} : {A : Type ℓ} → List A → ℕ → (A → A) → List A
modify [] i f = []
modify (x ∷ xs) zero f = f x ∷ xs
modify (x ∷ xs) (suc i) f = x ∷ modify xs i f

-- The TX chain's bytes, read out of guest RAM buffer by buffer.
unfoldable pub gather : GuestRam → List Buf → List ℕ
gather ram [] = []
gather ram (b ∷ bufs) = (Memory.read ram b.addr (replicate b.len 0)).1 ++ gather ram bufs

abbrev pub readable_bufs : List Buf → List Buf
readable_bufs bufs = keep (λ b. not b.writable) bufs

module _ {S : Type 0} where
  -- The bytes that the guest's credit still allows.
  unfoldable pub guest_window : Conn S → ℕ
  guest_window c = c.peer_buf_alloc - wrapping_sub 32 c.tx_cnt c.peer_fwd_cnt

  unfoldable pub find : List (Conn S) → ℕ → ℕ → Option ℕ
  find [] guest_port host_port = none
  find (c ∷ cs) guest_port host_port =
      let rest = find cs guest_port host_port in
      if c.guest_port == guest_port && c.host_port == host_port
      then some 0
      else (rest >>= (λ i. some (suc i)))

  abbrev pub opened : ℕ → ℕ → S → ℕ → ℕ → Bool → Conn S
  opened guest_port host_port stream peer_buf_alloc peer_fwd_cnt up = record {
    guest_port = guest_port;
    host_port = host_port;
    stream = stream;
    peer_buf_alloc = peer_buf_alloc;
    peer_fwd_cnt = peer_fwd_cnt;
    tx_cnt = 0;
    fwd_cnt = 0;
    to_host = [];
    up = up;
    host_done = false;
  }

  -- The dispatch's changes of one connection.
  abbrev pub refreshed : ℕ → ℕ → Conn S → Conn S
  refreshed window fwd c = record c { peer_buf_alloc = window; peer_fwd_cnt = fwd }

  abbrev pub closed : Conn S → Conn S
  closed c = record c { up = false; host_done = true }

  module _ {W : Type 0} where
    unfoldable pub new : ℕ → W → VsockDevice W S
    new guest_cid backend = record {
      backend = backend;
      guest_cid = guest_cid;
      conns = [];
      rx = [];
      next_host_port = ephemeral_base;
    }

    unfoldable pub send : VsockDevice W S → ℕ → ℕ → ℕ → ℕ → List ℕ → VsockDevice W S
    send d guest_port host_port op fwd_cnt payload = record d {
      rx = d.rx ++ (packet d.guest_cid guest_port host_port op fwd_cnt payload ∷ []);
    }

    -- `if let Some(i) = self.find(gp, hp) { self.conns[i] = f(self.conns[i]) }`.
    unfoldable pub update : VsockDevice W S → ℕ → ℕ → (Conn S → Conn S) → VsockDevice W S
    update d gp hp f = elim (find d.conns gp hp) [
      | none ↦ d
      | some i ↦ record d { conns = modify d.conns i f }
    ]

    unfoldable pub on_request : Host W S → VsockDevice W S → ℕ → ℕ → ℕ → ℕ → VsockDevice W S
    on_request host d gp hp window fwd =
        let r = host.dial d.backend hp in
        elim r.1 [
          | some stream ↦
              send
                (record d {
                  backend = r.0;
                  conns = d.conns ++ (opened gp hp stream window fwd true ∷ []);
                })
                gp hp op_response 0 []
          | none ↦ send (record d { backend = r.0 }) gp hp op_rst 0 []
        ]

    -- OP_RW: buffer the payload, or reset a connection that floods past its window.
    unfoldable pub on_rw : VsockDevice W S → ℕ → ℕ → List ℕ → VsockDevice W S
    on_rw d gp hp payload = elim (find d.conns gp hp >>= (λ i. get_elem? d.conns i)) [
      | none ↦ d
      | some c ↦
          if ltb buf_alloc (length c.to_host + length payload)
          then send (update d gp hp closed) gp hp op_rst 0 []
          else update d gp hp (λ c. record c { to_host = c.to_host ++ payload })
    ]

    unfoldable pub on_credit_request : VsockDevice W S → ℕ → ℕ → VsockDevice W S
    on_credit_request d gp hp =
        send d gp hp op_credit_update
          (elim (find d.conns gp hp >>= (λ i. get_elem? d.conns i)) [
            | none ↦ 0
            | some c ↦ c.fwd_cnt
          ])
          []

    unfoldable pub dispatch :
        Host W S → VsockDevice W S → ℕ → ℕ → ℕ → ℕ → ℕ → List ℕ → VsockDevice W S
    dispatch host d gp hp op window fwd payload =
        if op == op_request
        then on_request host d gp hp window fwd
        else if op == op_response
        then update d gp hp (λ c. record c { up = true })
        else if op == op_rw
        then on_rw d gp hp payload
        else if op == op_credit_request
        then on_credit_request d gp hp
        else if op == op_credit_update
        then d
        else if op == op_shutdown || op == op_rst
        then update d gp hp closed
        else d

    unfoldable pub on_guest_packet : Host W S → VsockDevice W S → List ℕ → VsockDevice W S
    on_guest_packet host d pkt =
        let gp = field 16 4 pkt in
        let hp = field 20 4 pkt in
        if ltb (length pkt) hdr_len
        then d
        else if not (field 8 8 pkt == cid_host)
        then d
        else dispatch host (update d gp hp (refreshed (field 36 4 pkt) (field 40 4 pkt))) gp hp
            (field 30 2 pkt) (field 36 4 pkt) (field 40 4 pkt)
            (take (min (field 24 4 pkt) (length pkt - hdr_len)) (drop hdr_len pkt))

    -- Queue 1 is the guest's transmit queue; it answers that nothing was written.
    unfoldable pub handle :
        Host W S → VsockDevice W S → ℕ → GuestRam → List Buf → VsockDevice W S × ℕ
    handle host d queue ram bufs =
        if queue == 1 && not (ltb max_packet (sum_len (readable_bufs bufs)))
        then (on_guest_packet host d (gather ram (readable_bufs bufs)), 0)
        else (d, 0)

    unfoldable pub config : VsockDevice W S → ℕ → ℕ
    config d off =
        if off == 0
        then d.guest_cid % 2 ^ 32
        else if off == 4
        then d.guest_cid / 2 ^ 32 % 2 ^ 32
        else 0
