-- ===== src/Vsock/Bounded.antt =====
-- crates/amber-core/src/vsock.rs: no guest can make the host buffer more than one window a connection.
use amber.Prelude.{
  ℕ, zero, suc, ◌+◌, ◌≤◌, ◌≡◌, refl, ap, inl, inr, Bool, true, false, not, ◌||◌, some, List, [],
  ◌∷◌, arith, ltb, ◌==◌, if◌then◌else◌, Bool-cases, Option-cases, ◌>>=◌, length, get_elem?, All,
  length-append, All-append,
}
use amber.Vsock.{
  field, cid_host, op_request, op_response, op_rw, op_credit_request, op_credit_update, op_shutdown,
  op_rst, Conn, VsockDevice, send, find, update, modify, closed, on_request, on_rw,
  on_credit_request, dispatch, on_guest_packet, buf_alloc, hdr_len,
}
use amber.Vsock.Sockets.{Host}

-- Each connection buffers at most the window that the device advertises.
pub record IsBounded {W S : Type 0} (d : VsockDevice W S) : Type 0 where
  pub buffered : All (λ c. length c.to_host ≤ buf_alloc) d.conns

IsBounded-if :
    {W S : Type 0} (b : Bool) {x y : VsockDevice W S}
    → IsBounded x
    → IsBounded y
    → IsBounded (if b then x else y)
IsBounded-if true hx hy = hx
IsBounded-if false hx hy = hy

module _ {W S : Type 0} (host : Host W S) where
  modify-buffered :
      (conns : List (Conn S)) (i : ℕ) (f : Conn S → Conn S)
      → ((c : Conn S)
          → get_elem? conns i ≡ some c
          → length c.to_host ≤ buf_alloc
          → length (f c).to_host ≤ buf_alloc)
      → All (λ c. length c.to_host ≤ buf_alloc) conns
      → All (λ c. length c.to_host ≤ buf_alloc) (modify conns i f)
  modify-buffered [] i f h k = tt
  modify-buffered (c ∷ cs) zero f h k = (h c refl k.0, k.1)
  modify-buffered (c ∷ cs) (suc i) f h k = (k.0, modify-buffered cs i f h k.1)

  update-IsBounded :
      (d : VsockDevice W S) (gp hp : ℕ) (f : Conn S → Conn S)
      → ((i : ℕ) (c : Conn S)
          → find d.conns gp hp ≡ some i
          → get_elem? d.conns i ≡ some c
          → length c.to_host ≤ buf_alloc
          → length (f c).to_host ≤ buf_alloc)
      → IsBounded d
      → IsBounded (update d gp hp f)
  unfolding update
  update-IsBounded d gp hp f h k = elim (Option-cases (find d.conns gp hp)) [
    | inl e ↦ rw (update, e) k
    | inr (i, e) ↦
        rw (update, e)
          (record { buffered = modify-buffered d.conns i f (λ c g. h i c e g) k.buffered })
  ]

  send-IsBounded :
      (d : VsockDevice W S) (gp hp op fwd : ℕ) (payload : List ℕ)
      → IsBounded d
      → IsBounded (send d gp hp op fwd payload)
  unfolding send
  send-IsBounded d gp hp op fwd payload k = record { buffered = k.buffered }

  on_request-IsBounded :
      (d : VsockDevice W S) (gp hp window fwd : ℕ)
      → IsBounded d
      → IsBounded (on_request host d gp hp window fwd)
  unfolding on_request
  on_request-IsBounded d gp hp window fwd k = elim (Option-cases (host.dial d.backend hp).1) [
    | inl e ↦ rw (on_request, e) (send-IsBounded _ gp hp _ 0 [] (record { buffered = k.buffered }))
    | inr (stream, e) ↦
        rw (on_request, e)
          (send-IsBounded _ gp hp _ 0 [] (record {
            buffered =
                All-append (λ c. length c.to_host ≤ buf_alloc) d.conns _ k.buffered
                  (omega arith, tt);
          }))
  ]

  on_rw-IsBounded :
      (d : VsockDevice W S) (gp hp : ℕ) (payload : List ℕ)
      → IsBounded d
      → IsBounded (on_rw d gp hp payload)
  unfolding on_rw
  on_rw-IsBounded d gp hp payload k =
      elim (Option-cases (find d.conns gp hp >>= (λ i. get_elem? d.conns i))) [
        | inl e ↦ rw (on_rw, e) k
        | inr (c, e) ↦ elim (Bool-cases (ltb buf_alloc (length c.to_host + length payload))) [
          | inl over ↦
              rw (on_rw, e, over)
                (send-IsBounded _ gp hp _ 0 [] (update-IsBounded d gp hp closed (λ i c f g h. h) k))
          | inr fits ↦
              rw (on_rw, e, fits)
                (update-IsBounded d gp hp _
                  (λ i c' f g h.
                    let same : c' ≡ c = ground (arith, e, f, g) in
                    let total : length c'.to_host ≡ length c.to_host =
                      ap (λ c. length c.to_host) same in
                    ground (arith, fits, total, length-append c'.to_host payload))
                  k)
        ]
      ]

  dispatch-IsBounded :
      (d : VsockDevice W S) (gp hp op window fwd : ℕ) (payload : List ℕ)
      → IsBounded d
      → IsBounded (dispatch host d gp hp op window fwd payload)
  unfolding dispatch on_credit_request
  dispatch-IsBounded d gp hp op window fwd payload k =
      IsBounded-if (op == op_request) (on_request-IsBounded d gp hp window fwd k) (
        IsBounded-if (op == op_response)
          (update-IsBounded d gp hp (λ c. record c { up = true }) (λ i c f g h. h) k)
          (IsBounded-if (op == op_rw) (on_rw-IsBounded d gp hp payload k) (
            IsBounded-if (op == op_credit_request) (send-IsBounded d gp hp _ _ [] k) (
              IsBounded-if (op == op_credit_update) k (
                IsBounded-if (op == op_shutdown || op == op_rst)
                  (update-IsBounded d gp hp closed (λ i c f g h. h) k) k)))))

  pub on_guest_packet-IsBounded :
      (d : VsockDevice W S) (pkt : List ℕ) → IsBounded d → IsBounded (on_guest_packet host d pkt)
  unfolding on_guest_packet
  on_guest_packet-IsBounded d pkt k = IsBounded-if (ltb (length pkt) hdr_len) k (
      IsBounded-if (not (field 8 8 pkt == cid_host)) k (
        dispatch-IsBounded _ _ _ _ _ _ _
          (update-IsBounded d (field 16 4 pkt) (field 20 4 pkt) _ (λ i c f g h. h) k)))
