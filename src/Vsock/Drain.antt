-- ===== src/Vsock/Drain.antt =====
-- crates/amber-core/src/vsock.rs: the drain of `pump`: what a connection hands to its stream.
use amber.Prelude.{
  take-take, take-add, ◌++◌, append-nil, append_assoc, ap, sym, drop-drop, ℕ, zero, suc, ◌+◌, ◌%◌,
  ◌^◌, ◌≤◌, ◌≡◌, refl, ◌∙◌, ◌⊎◌, inl, inr, Bool, true, List, [], ◌∷◌, arith, ◌==◌, Bool-cases,
  length, take, drop, wrapping_add, length-take, length-drop,
}
use amber.Vsock.{Conn}
use amber.Vsock.Sockets.{Host, WriteResult, wrote, write_blocked, write_failed, IsDocumented}
use amber.Vsock.Pump.{drain_loop, is_empty}
use amber.Vsock.Credit.{IsCounted}

pub WriteResult-cases :
    (r : WriteResult) → ((n : ℕ) × (r ≡ wrote n)) ⊎ (r ≡ write_blocked) ⊎ (r ≡ write_failed)
WriteResult-cases (wrote n) = inl (n, refl)
WriteResult-cases write_blocked = inr (inl refl)
WriteResult-cases write_failed = inr (inr refl)

is_empty-length : (bs : List ℕ) → length bs ≡ 0 → is_empty bs ≡ true
is_empty-length [] h = refl
is_empty-length (b ∷ bs) h = absurd (omega arith)

-- A write of a stream adds the bytes that it says it took to those that the stream has `seen`, from the front
-- of what it was given, and otherwise none.
pub record IsStream {W S : Type 0} (host : Host W S) (seen : W → S → List ℕ) : Type 0 where
  pub write_adds :
      (w : W) (s : S) (bytes : List ℕ) (n : ℕ)
      → (host.write w s bytes).1 ≡ wrote n
      → seen (host.write w s bytes).0 s ≡ seen w s ++ take n bytes
  pub blocked_adds_none :
      (w : W) (s : S) (bytes : List ℕ)
      → (host.write w s bytes).1 ≡ write_blocked
      → seen (host.write w s bytes).0 s ≡ seen w s
  pub failed_adds_none :
      (w : W) (s : S) (bytes : List ℕ)
      → (host.write w s bytes).1 ≡ write_failed
      → seen (host.write w s bytes).0 s ≡ seen w s

module _ {W S : Type 0} (host : Host W S) (seen : W → S → List ℕ) where
  -- What the drain of one turn leaves: the first `n` bytes are gone, and the stream has them.
  abbrev pub Drained : W → Conn S → W × Conn S × Bool → Type 0
  Drained w c r =
      (n : ℕ) × (n ≤ length c.to_host)
      × (seen r.0 c.stream ≡ seen w c.stream ++ take n c.to_host)
      × (r.1.to_host ≡ drop n c.to_host)
      × (r.1.fwd_cnt ≡ wrapping_add 32 c.fwd_cnt n)
      × (r.1.tx_cnt ≡ c.tx_cnt)
      × (r.1.peer_buf_alloc ≡ c.peer_buf_alloc)
      × (r.1.peer_fwd_cnt ≡ c.peer_fwd_cnt)

  -- The connection after the stream has taken `n` bytes.
  abbrev pub flushed : Conn S → ℕ → Conn S
  flushed c n = record c {
    to_host = drop n c.to_host;
    fwd_cnt = wrapping_add 32 c.fwd_cnt (n % 2 ^ 32);
  }

  Drained-more :
      (w w' : W) (c : Conn S) (n : ℕ) (r : W × Conn S × Bool)
      → IsCounted c
      → n ≤ length c.to_host
      → seen w' c.stream ≡ seen w c.stream ++ take n c.to_host
      → Drained w' (flushed c n) r
      → Drained w c r
  Drained-more w w' c n r k h given (n', le, sn, th, fc, tx, ba, pf) = (
    n + n',
    omega (arith, le, h, length-drop n c.to_host),
    sn
        ∙ ap (λ (xs : List ℕ). xs ++ take n' (drop n c.to_host)) given
        ∙ append_assoc (seen w c.stream) (take n c.to_host) (take n' (drop n c.to_host))
        ∙ ap (λ (xs : List ℕ). seen w c.stream ++ xs) (take-add n n' c.to_host),
    th ∙ drop-drop n n' c.to_host,
    fc ∙ omega arith,
    tx,
    ba,
    pf,
  )

  stopped :
      (c c' : Conn S) (w w' : W) (changed : Bool)
      → seen w' c.stream ≡ seen w c.stream
      → c'.to_host ≡ c.to_host
      → c'.fwd_cnt ≡ c.fwd_cnt
      → c'.tx_cnt ≡ c.tx_cnt
      → c'.peer_buf_alloc ≡ c.peer_buf_alloc
      → c'.peer_fwd_cnt ≡ c.peer_fwd_cnt
      → IsCounted c
      → Drained w c (w', c', changed)
  stopped c c' w w' changed sn th fc tx ba pf k =
      let drained = k.drained in
      (
        0,
        omega arith,
        sn ∙ sym (append-nil (seen w c.stream)),
        th,
        fc ∙ omega (arith, drained),
        tx,
        ba,
        pf,
      )

  -- The drain of one turn, on any fuel and whatever the socket answers, takes the first bytes of those
  -- buffered away and counts them in the advertised counter, and what the stream gets in this turn is
  -- those bytes, each once and in their order, if a write takes the front of what it is given.
  pub drain_loop-Drained :
      IsDocumented host
      → IsStream host seen
      → (fuel : ℕ) (w : W) (c : Conn S) (changed : Bool) → IsCounted c
      → Drained w c (drain_loop host fuel w c changed)
  unfolding drain_loop
  drain_loop-Drained doc adds zero w c changed k =
      stopped c c w w changed refl refl refl refl refl refl k
  drain_loop-Drained doc adds (suc fuel) w c changed k =
      let front = take (host.first_slice w c.to_host) c.to_host in
      let w' = (host.write w c.stream front).0 in
      elim (Bool-cases (is_empty c.to_host)) [
        | inl e ↦ rw e (stopped c c w w changed refl refl refl refl refl refl k)
        | inr e ↦ elim (WriteResult-cases (host.write w c.stream front).1) [
          | inl (n, a) ↦ elim (Bool-cases (n == 0)) [
            | inl z ↦
                let none_taken : n ≡ 0 = ground arith in
                let same : seen w' c.stream ≡ seen w c.stream =
                  adds.write_adds w c.stream front n a
                  ∙ ap (λ (j : ℕ). seen w c.stream ++ take j front) none_taken
                  ∙ append-nil (seen w c.stream) in
                rw (e, a, z) (stopped c c w w' changed same refl refl refl refl refl k)
            | inr z ↦
                let given = doc.write_takes w c.stream front n a in
                let taken : seen w' c.stream ≡ seen w c.stream ++ take n c.to_host =
                  adds.write_adds w c.stream front n a
                  ∙ ap (λ (xs : List ℕ). seen w c.stream ++ xs)
                      (take-take n (host.first_slice w c.to_host) c.to_host given) in
                rw (e, a, z)
                  (Drained-more w w' c n (drain_loop host fuel w' (flushed c n) true) k
                    (omega (arith, given, length-take (host.first_slice w c.to_host) c.to_host))
                    taken
                    (drain_loop-Drained doc adds fuel w' (flushed c n) true (record {
                      window = k.window;
                      peer = k.peer;
                      sent = k.sent;
                      drained = omega arith;
                    })))
          ]
          | inr (inl a) ↦
              rw (e, a)
                (stopped c c w w' changed (adds.blocked_adds_none w c.stream front a) refl refl refl
                  refl refl k)
          | inr (inr a) ↦
              rw (e, a)
                (stopped c (record c { host_done = true }) w w' changed
                  (adds.failed_adds_none w c.stream front a) refl refl refl refl refl k)
        ]
      ]

  -- Fuel of the bytes buffered is enough for the drain: any two such fuels give the same.
  pub drain_loop-enough :
      (fuel fuel' : ℕ) (w : W) (c : Conn S) (changed : Bool)
      → length c.to_host ≤ fuel
      → length c.to_host ≤ fuel'
      → drain_loop host fuel w c changed ≡ drain_loop host fuel' w c changed
  unfolding drain_loop
  drain_loop-enough zero zero w c changed h h' = refl
  drain_loop-enough zero (suc fuel') w c changed h h' =
      rw (is_empty-length c.to_host (omega arith)) refl
  drain_loop-enough (suc fuel) zero w c changed h h' =
      rw (is_empty-length c.to_host (omega arith)) refl
  drain_loop-enough (suc fuel) (suc fuel') w c changed h h' =
      let front = take (host.first_slice w c.to_host) c.to_host in
      elim (Bool-cases (is_empty c.to_host)) [
        | inl e ↦ rw e refl
        | inr e ↦ elim (WriteResult-cases (host.write w c.stream front).1) [
          | inl (n, a) ↦ elim (Bool-cases (n == 0)) [
            | inl z ↦ rw (e, a, z) refl
            | inr z ↦
                let shorter = length-drop n c.to_host in
                rw (e, a, z)
                  (drain_loop-enough fuel fuel' (host.write w c.stream front).0 (flushed c n) true
                    (ground (arith, shorter, h, z)) (ground (arith, shorter, h', z)))
          ]
          | inr (inl a) ↦ rw (e, a) refl
          | inr (inr a) ↦ rw (e, a) refl
        ]
      ]
