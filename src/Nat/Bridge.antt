-- ===== src/Nat/Bridge.antt =====
-- crates/amber-net/src/lib.rs (`bridge`): the bytes between a socket of the stack and a host connection. Both
-- are records of functions over their states: `recv` hands over the first bytes received and takes
-- back how many were used, `send_slice` queues what its buffer has room for and answers how many.
use amber.Prelude.{
  take-append-drop, ℕ, zero, suc, ◌≤◌, ◌≡◌, refl, sym, ap, ◌∙◌, ◌⊎◌, inl, inr, Bool, true, not,
  ◌&&◌, List, [], ◌∷◌, ◌++◌, append_assoc, arith, if◌then◌else◌, Bool-cases, length, take, drop,
}

pub data HostRead : Type 0 where
  eof : HostRead
  got : List ℕ → HostRead
  would_block : HostRead
  broken : HostRead

-- A write that fails has taken no byte.
pub record HostStream (H : Type 0) : Type 0 where
  pub write : H → List ℕ → H × ℕ
  pub read : H → ℕ → H × HostRead

pub record TcpSocket (S : Type 0) : Type 0 where
  pub can_recv : S → Bool
  pub front : S → List ℕ
  pub dequeue : S → ℕ → S
  pub can_send : S → Bool
  pub send_slice : S → List ℕ → S × ℕ
  pub close : S → S

module _ {S H : Type 0} (tcp : TcpSocket S) (stream : HostStream H) where
  -- What the guest has sent goes to the host, as far as the host takes it.
  unfoldable pub bridge_in : S → H → S × H
  bridge_in sock host =
      let w = stream.write host (tcp.front sock) in
      if tcp.can_recv sock then (tcp.dequeue sock w.1, w.0) else (sock, host)

  -- What the host has sent goes to the guest.
  unfoldable pub bridge_out : S → H → Bool → S × H × Bool
  bridge_out sock host host_done =
      let r = stream.read host 32768 in
      if tcp.can_send sock && not host_done
      then elim r.1 [
        | eof ↦ (tcp.close sock, r.0, true)
        | got bytes ↦ ((tcp.send_slice sock bytes).0, r.0, host_done)
        | would_block ↦ (sock, r.0, host_done)
        | broken ↦ (tcp.close sock, r.0, true)
      ]
      else (sock, host, host_done)

  unfoldable pub bridge : S → H → Bool → S × H × Bool
  bridge sock host host_done = let i = bridge_in sock host in bridge_out i.0 i.1 host_done

  -- What is documented of the two, by the bytes of the guest that wait in the socket and those that the host
  -- connection has taken.
  pub record IsDocumented (inbox : S → List ℕ) (taken : H → List ℕ) : Type 0 where
    pub front_first : (s : S) → (rest : List ℕ) × (inbox s ≡ tcp.front s ++ rest)
    pub dequeues :
        (s : S) (n : ℕ) → n ≤ length (tcp.front s) → inbox (tcp.dequeue s n) ≡ drop n (inbox s)
    pub sends : (s : S) (bs : List ℕ) → inbox (tcp.send_slice s bs).0 ≡ inbox s
    pub closes : (s : S) → inbox (tcp.close s) ≡ inbox s
    pub writes_at_most : (h : H) (bs : List ℕ) → (stream.write h bs).1 ≤ length bs
    pub writes :
        (h : H) (bs : List ℕ)
        → taken (stream.write h bs).0 ≡ taken h ++ take (stream.write h bs).1 bs
    pub reads : (h : H) (n : ℕ) → taken (stream.read h n).0 ≡ taken h

take_front : (n : ℕ) (xs ys : List ℕ) → n ≤ length xs → take n (xs ++ ys) ≡ take n xs
take_front zero xs ys h = refl
take_front (suc n) [] ys h = absurd (omega arith)
take_front (suc n) (x ∷ xs) ys h =
    ap (λ (zs : List ℕ). x ∷ zs) (take_front n xs ys (omega (arith, h)))

HostRead-cases :
    (r : HostRead)
    → (r ≡ eof) ⊎ ((bytes : List ℕ) × (r ≡ got bytes)) ⊎ (r ≡ would_block) ⊎ (r ≡ broken)
HostRead-cases eof = inl refl
HostRead-cases (got bytes) = inr (inl (bytes, refl))
HostRead-cases would_block = inr (inr (inl refl))
HostRead-cases broken = inr (inr (inr refl))

module _ {S H : Type 0} (tcp : TcpSocket S) (stream : HostStream H) (inbox : S → List ℕ)
    (taken : H → List ℕ) (doc : IsDocumented tcp stream inbox taken) where
  bridge_in_lossless :
      (sock : S) (host : H)
      → let r = bridge_in tcp stream sock host in taken r.1 ++ inbox r.0 ≡ taken host ++ inbox sock
  unfolding bridge_in
  bridge_in_lossless sock host = elim (Bool-cases (tcp.can_recv sock)) [
    | inr e ↦ rw e refl
    | inl e ↦
        let bs = tcp.front sock in
        let n = (stream.write host bs).1 in
        let at_most : n ≤ length bs = doc.writes_at_most host bs in
        let (rest, split) = doc.front_first sock in
        let same : take n bs ≡ take n (inbox sock) =
          sym (take_front n bs rest at_most) ∙ ap (λ (xs : List ℕ). take n xs) (sym split) in
        rw (e, doc.writes host bs, doc.dequeues sock n at_most, same)
          (append_assoc (taken host) (take n (inbox sock)) (drop n (inbox sock))
            ∙ ap (λ (xs : List ℕ). taken host ++ xs) (take-append-drop n (inbox sock)))
  ]

  bridge_out_lossless :
      (sock : S) (host : H) (host_done : Bool)
      → let r = bridge_out tcp stream sock host host_done in
        taken r.1 ++ inbox r.0 ≡ taken host ++ inbox sock
  unfolding bridge_out
  bridge_out_lossless sock host host_done = elim (Bool-cases (tcp.can_send sock && not host_done)) [
    | inr e ↦ rw e refl
    | inl e ↦ elim (HostRead-cases (stream.read host 32768).1) [
      | inl r ↦ rw (bridge_out, e, r, doc.reads host 32768, doc.closes sock) refl
      | inr (inl (bytes, r)) ↦
          rw (bridge_out, e, r, doc.reads host 32768, doc.sends sock bytes) refl
      | inr (inr (inl r)) ↦ rw (bridge_out, e, r, doc.reads host 32768) refl
      | inr (inr (inr r)) ↦ rw (bridge_out, e, r, doc.reads host 32768, doc.closes sock) refl
    ]
  ]

-- In every turn of the bridge, whatever the socket and the host connection answer, no byte that the guest has
-- sent is lost, doubled or reordered on its way to the host: those that the host has taken, followed by
-- those that wait in the socket, are what they were.
pub bridge_lossless :
    {S H : Type 0} (tcp : TcpSocket S) (stream : HostStream H) (inbox : S → List ℕ)
    (taken : H → List ℕ)
    → IsDocumented tcp stream inbox taken
    → (sock : S) (host : H) (host_done : Bool)
    → taken (bridge tcp stream sock host host_done).1
        ++ inbox (bridge tcp stream sock host host_done).0
      ≡ taken host ++ inbox sock
unfolding bridge
bridge_lossless tcp stream inbox taken doc sock host host_done =
    let i = bridge_in tcp stream sock host in
    bridge_out_lossless tcp stream inbox taken doc i.0 i.1 host_done
    ∙ bridge_in_lossless tcp stream inbox taken doc sock host
