-- ===== src/Nat/Rewrite.antt =====
-- crates/amber-net/src/lib.rs: the address rewriting of a flow and of its replies undo one another.
use amber.Prelude.{
  ℕ, ◌+◌, ◌≤◌, ◌<◌, ◌≡◌, refl, sym, ap, ◌∙◌, ◌↔◌, inl, inr, Bool, true, false, not, some, List, [],
  ◌∷◌, ◌++◌, arith, Bool-cases, keep,
}
use amber.Nat.{
  Ipv4Addr, Segment, Flow, Backend, guest_ip, gateway, ip_eq, is_flow_of, is_reply_of, find_flow,
  advance_eph, close_flows, accept_inbound, dnat_in, dnat_out,
}
use amber.Nat.Policy.{Reach, start, segment, closing, inbound, maybe_open_flow-cases, new_flow}

-- The flows' ports rise, above `low` and up to `high`.
abbrev Rising : ℕ → List Flow → ℕ → Type 0
Rising low [] high = low ≤ high
Rising low (f ∷ fs) high = (low < f.eph) × Rising f.eph fs high

Rising-weaken :
    (low low' : ℕ) (fs : List Flow) (high : ℕ)
    → low' ≤ low
    → Rising low fs high
    → Rising low' fs high
Rising-weaken low low' [] high h r = omega arith
Rising-weaken low low' (f ∷ fs) high h (a, r) = (omega arith, r)

Rising-append :
    (low : ℕ) (fs : List Flow) (high : ℕ) (f : Flow)
    → high < f.eph
    → Rising low fs high
    → Rising low (fs ++ (f ∷ [])) f.eph
Rising-append low [] high f h r = (omega arith, omega arith)
Rising-append low (g ∷ fs) high f h (a, r) = (a, Rising-append g.eph fs high f h r)

Rising-high :
    (low : ℕ) (fs : List Flow) (high high' : ℕ)
    → high ≤ high'
    → Rising low fs high
    → Rising low fs high'
Rising-high low [] high high' h r = omega arith
Rising-high low (g ∷ fs) high high' h (a, r) = (a, Rising-high g.eph fs high high' h r)

Rising-keep :
    (test : Flow → Bool) (low : ℕ) (fs : List Flow) (high : ℕ)
    → Rising low fs high
    → Rising low (keep test fs) high
Rising-keep test low [] high r = r
Rising-keep test low (f ∷ fs) high (a, r) = kept (test f) (Rising-keep test f.eph fs high r)
  where
    kept :
        (c : Bool)
        → Rising f.eph (keep test fs) high
        → Rising low
            (elim c as (λ _. List Flow) [ true ↦ f ∷ keep test fs | false ↦ keep test fs ])
            high
    kept true rest = (a, rest)
    kept false rest = Rising-weaken f.eph low (keep test fs) high (omega (arith, a)) rest

-- While the ports have not wrapped.
record IsOrdered (n : ℕ) (b : Backend) : Type 0 where
  above : 40000 ≤ b.next_eph
  below : b.next_eph ≤ 40000 + n
  rising : Rising 0 b.flows b.next_eph

advance_eph-step : (eph : ℕ) → 40000 ≤ eph → eph < 65535 → advance_eph eph ≡ eph + 1
unfolding advance_eph
advance_eph-step eph lo hi = omega arith

Reach-IsOrdered :
    (allow_private : Bool) (n : ℕ) (b : Backend)
    → Reach allow_private n b
    → n ≤ 25535
    → IsOrdered n b
unfolding close_flows accept_inbound
Reach-IsOrdered allow_private _ _ start h = record {
  above = omega arith;
  below = omega arith;
  rising = omega arith;
}
Reach-IsOrdered allow_private _ _ (segment n b listens s r) h =
    let k = Reach-IsOrdered allow_private n b r (omega (arith, h)) in
    let step = advance_eph-step b.next_eph k.above (omega (arith, k.below, h)) in
    elim (maybe_open_flow-cases allow_private listens b s) [
      | inl e ↦ rw e (record { above = k.above; below = omega (arith, k.below); rising = k.rising })
      | inr (inl e) ↦ rw e (record {
        above = omega (arith, k.above, step);
        below = omega (arith, k.below, step);
        rising =
            Rising-high 0 b.flows b.next_eph (advance_eph b.next_eph) (omega (arith, step))
              k.rising;
      })
      | inr (inr (e, room, lets, from, syn, ack)) ↦ rw e (record {
        above = omega (arith, k.above, step);
        below = omega (arith, k.below, step);
        rising = Rising-append 0 b.flows b.next_eph (new_flow b s) (omega (arith, step)) k.rising;
      })
    ]
Reach-IsOrdered allow_private _ _ (closing n b closed r) h =
    let k = Reach-IsOrdered allow_private n b r h in
    record {
      above = k.above;
      below = k.below;
      rising = Rising-keep (λ f. not (closed f)) 0 b.flows b.next_eph k.rising;
    }
Reach-IsOrdered allow_private _ _ (inbound n b r) h =
    let k = Reach-IsOrdered allow_private n b r (omega (arith, h)) in
    let step = advance_eph-step b.next_eph k.above (omega (arith, k.below, h)) in
    record {
      above = omega (arith, k.above, step);
      below = omega (arith, k.below, step);
      rising =
          Rising-high 0 b.flows b.next_eph (advance_eph b.next_eph) (omega (arith, step)) k.rising;
    }

find_flow-test :
    (fs : List Flow) (test : Flow → Bool) (f : Flow) → find_flow fs test ≡ some f → test f ≡ true
find_flow-test [] test f = λ e. absurd (cc e)
find_flow-test (g ∷ fs) test f = elim (Bool-cases (test g)) [
  | inl t ↦ rw t (λ e. let same : g ≡ f = cc e in ap test (sym same) ∙ t)
  | inr t ↦ rw t (λ e. find_flow-test fs test f e)
]

find_flow-above :
    (low high : ℕ) (fs : List Flow) (test : Flow → Bool) (f : Flow)
    → Rising low fs high
    → find_flow fs test ≡ some f
    → low < f.eph
find_flow-above low high [] test f r = λ e. absurd (cc e)
find_flow-above low high (g ∷ fs) test f (a, r) = elim (Bool-cases (test g)) [
  | inl t ↦ rw t (λ e. let same : g ≡ f = cc e in rw (sym same) a)
  | inr t ↦ rw t (λ e. omega (arith, a, find_flow-above g.eph high fs test f r e))
]

-- A flow that one test finds is found by any test that it passes and that tells ports apart.
find_flow-same :
    (low high : ℕ) (fs : List Flow) (test test' : Flow → Bool) (f : Flow)
    → Rising low fs high
    → test' f ≡ true
    → ((g : Flow) → test' g ≡ true → g.eph ≡ f.eph)
    → find_flow fs test ≡ some f
    → find_flow fs test' ≡ some f
find_flow-same low high [] test test' f r t' apart = λ e. absurd (cc e)
find_flow-same low high (g ∷ fs) test test' f (a, r) t' apart = elim (Bool-cases (test g)) [
  | inl t ↦ rw t (λ e.
      let same : g ≡ f = cc e in let passes : test' g ≡ true = ap test' same ∙ t' in rw passes e)
  | inr t ↦ rw t (λ e. elim (Bool-cases (test' g)) [
    | inl s ↦
        let higher = find_flow-above g.eph high fs test f r e in
        absurd (omega (arith, higher, apart g s))
    | inr s ↦ rw s (find_flow-same g.eph high fs test test' f r t' apart e)
  ])
]

ip_eq-same : (x y : Ipv4Addr) → ip_eq x y ≡ true → x ≡ y
unfolding ip_eq
ip_eq-same x y e =
    let a : x.a ≡ y.a = ground (arith, e) in
    let b : x.b ≡ y.b = ground (arith, e) in
    let c : x.c ≡ y.c = ground (arith, e) in
    let d : x.d ≡ y.d = ground (arith, e) in λ i. record { a = a i; b = b i; c = c i; d = d i }

ip_eq_self : (x : Ipv4Addr) → ip_eq x x ≡ true
unfolding ip_eq
ip_eq_self x = ground arith

is_flow_of-same :
    (f : Flow) (s : Segment)
    → is_flow_of f s ≡ true
    → (f.guest_port ≡ s.src_port) × (f.ext_ip ≡ s.dst) × (f.ext_port ≡ s.dst_port)
unfolding is_flow_of
is_flow_of-same f s e =
    (ground (arith, e), ip_eq-same f.ext_ip s.dst (ground (arith, e)), ground (arith, e))

is_reply_of_iff :
    (f : Flow) (s : Segment)
    → (is_reply_of f s ≡ true) ↔ ((f.eph ≡ s.src_port) × (f.guest_port ≡ s.dst_port))
unfolding is_reply_of
is_reply_of_iff f s = (λ e. ground (arith, e), λ e. ground (arith, e))

dnat_in-found :
    (b : Backend) (s : Segment) (f : Flow)
    → ip_eq s.src guest_ip ≡ true
    → find_flow b.flows (λ g. is_flow_of g s) ≡ some f
    → dnat_in b s ≡ record s { dst = gateway; dst_port = f.eph }
unfolding dnat_in
dnat_in-found b s f from found = rw (dnat_in, from, found) refl

dnat_out-found :
    (b : Backend) (s : Segment) (f : Flow)
    → ip_eq s.src gateway ≡ true
    → ip_eq s.dst guest_ip ≡ true
    → find_flow b.flows (λ g. is_reply_of g s) ≡ some f
    → dnat_out b s ≡ record s { src = f.ext_ip; src_port = f.ext_port }
unfolding dnat_out
dnat_out-found b s f from to found = rw (dnat_out, from, to, found) refl

-- Before 25,535 ports have been taken, the rewriting of a guest's segment and that of its flow's reply undo one
-- another: a segment that belongs to a flow goes to the gateway at the flow's port, and a segment back
-- from there to the guest's port gets the address and the port that the guest had sent to.
pub dnat_out-dnat_in :
    (allow_private : Bool) (n : ℕ) (b : Backend) (s reply : Segment) (f : Flow)
    → Reach allow_private n b
    → n ≤ 25535
    → ip_eq s.src guest_ip ≡ true
    → find_flow b.flows (λ g. is_flow_of g s) ≡ some f
    → reply.src ≡ (dnat_in b s).dst
    → reply.src_port ≡ (dnat_in b s).dst_port
    → reply.dst ≡ s.src
    → reply.dst_port ≡ s.src_port
    → ((dnat_in b s).dst ≡ gateway)
      × ((dnat_in b s).dst_port ≡ f.eph)
      × ((dnat_out b reply).src ≡ s.dst)
      × ((dnat_out b reply).src_port ≡ s.dst_port)
      × ((dnat_out b reply).dst ≡ s.src)
dnat_out-dnat_in allow_private n b s reply f r h from found src src_port dst dst_port =
    let k = Reach-IsOrdered allow_private n b r h in
    let inn = dnat_in-found b s f from found in
    let (port, ip, ext) =
      is_flow_of-same f s (find_flow-test b.flows (λ g. is_flow_of g s) f found) in
    let back : reply.src_port ≡ f.eph = src_port ∙ ap (λ (t : Segment). t.dst_port) inn in
    let gate : reply.src ≡ gateway = src ∙ ap (λ (t : Segment). t.dst) inn in
    let found' =
      find_flow-same 0 b.next_eph b.flows (λ g. is_flow_of g s) (λ g. is_reply_of g reply) f
        k.rising ((is_reply_of_iff f reply).1 (sym back, port ∙ sym dst_port))
        (λ g e. ((is_reply_of_iff g reply).0 e).0 ∙ back) found in
    let out =
      dnat_out-found b reply f (ap (λ (x : Ipv4Addr). ip_eq x gateway) gate ∙ ip_eq_self gateway)
        (ap (λ (x : Ipv4Addr). ip_eq x guest_ip) dst ∙ from) found' in
    (
      ap (λ (t : Segment). t.dst) inn,
      ap (λ (t : Segment). t.dst_port) inn,
      ap (λ (t : Segment). t.src) out ∙ ip,
      ap (λ (t : Segment). t.src_port) out ∙ ext,
      ap (λ (t : Segment). t.dst) out ∙ dst,
    )
