-- ===== src/Nat/Policy.antt =====
-- crates/amber-net/src/lib.rs: the flow table of every history: what the guest dials, and how many flows there are.
use amber.Prelude.{
  ℕ, suc, ◌≤◌, ◌<◌, ◌≡◌, refl, ◌⊎◌, inl, inr, Bool, true, false, not, ◌||◌, List, [], ◌∷◌, ◌++◌,
  arith, leb, if◌then◌else◌, is_some, length, All, keep, length-append, All-append,
}
use amber.Nat.{
  Segment, Flow, Backend, max_flows, guest_ip, ip_eq, egress_blocked, is_flow_of, find_flow,
  advance_eph, maybe_open_flow, close_flows, accept_inbound,
}

abbrev pub fresh : Backend
fresh = record { flows = []; next_eph = 40000 }

-- The tables of a gateway after `n` frames of the guest and accepted host connections, under one policy.
pub data Reach (allow_private : Bool) : ℕ → Backend → Type 0 where
  start : Reach allow_private 0 fresh
  segment :
      (n : ℕ) (b : Backend) (listens : Bool) (s : Segment)
      → Reach allow_private n b
      → Reach allow_private (suc n) (maybe_open_flow allow_private listens b s)
  closing :
      (n : ℕ) (b : Backend) (closed : Flow → Bool)
      → Reach allow_private n b
      → Reach allow_private n (close_flows closed b)
  inbound :
      (n : ℕ) (b : Backend)
      → Reach allow_private n b
      → Reach allow_private (suc n) (accept_inbound b)

abbrev pub new_flow : Backend → Segment → Flow
new_flow b s = record {
  guest_port = s.src_port;
  ext_ip = s.dst;
  ext_port = s.dst_port;
  eph = advance_eph b.next_eph;
}

-- What a frame makes of the table: nothing, a port taken, or a flow opened with all the guards passed.
pub maybe_open_flow-cases :
    (allow_private listens : Bool) (b : Backend) (s : Segment)
    → (maybe_open_flow allow_private listens b s ≡ b)
      ⊎ (maybe_open_flow allow_private listens b s ≡ record b { next_eph = advance_eph b.next_eph })
      ⊎ ((maybe_open_flow allow_private listens b s ≡ record b {
        flows = b.flows ++ (new_flow b s ∷ []);
        next_eph = advance_eph b.next_eph;
      })
          × (length b.flows < 256)
          × (egress_blocked allow_private s.dst ≡ false)
          × (ip_eq s.src guest_ip ≡ true)
          × (s.syn ≡ true)
          × (s.ack ≡ false))
unfolding maybe_open_flow
maybe_open_flow-cases allow_private listens b s =
    go (not s.syn || (s.ack || not (ip_eq s.src guest_ip))) refl
      (is_some (find_flow b.flows (λ f. is_flow_of f s))) (leb max_flows (length b.flows)) refl
      (egress_blocked allow_private s.dst) refl listens
  where
    opened : Backend
    opened = record b { flows = b.flows ++ (new_flow b s ∷ []); next_eph = advance_eph b.next_eph }

    taken : Backend
    taken = record b { next_eph = advance_eph b.next_eph }

    body : Bool → Bool → Bool → Bool → Bool → Backend
    body no_syn known full blocked listens =
        if no_syn
        then b
        else if known
        then b
        else if full
        then b
        else if blocked
        then b
        else if not listens
        then taken
        else opened

    go :
        (no_syn : Bool)
        → (not s.syn || (s.ack || not (ip_eq s.src guest_ip))) ≡ no_syn
        → (known full : Bool) → leb max_flows (length b.flows) ≡ full
        → (blocked : Bool) → egress_blocked allow_private s.dst ≡ blocked
        → (listens : Bool)
        → (body no_syn known full blocked listens ≡ b)
          ⊎ (body no_syn known full blocked listens ≡ taken)
          ⊎ ((body no_syn known full blocked listens ≡ opened)
              × (length b.flows < 256)
              × (egress_blocked allow_private s.dst ≡ false)
              × (ip_eq s.src guest_ip ≡ true)
              × (s.syn ≡ true)
              × (s.ack ≡ false))
    go true p known full q blocked r listens = inl refl
    go false p true full q blocked r listens = inl refl
    go false p false true q blocked r listens = inl refl
    go false p false false q true r listens = inl refl
    go false p false false q false r false = inr (inl refl)
    go false p false false q false r true =
        inr (
          inr (refl, ground (arith, q), r, ground (arith, p), ground (arith, p), ground (arith, p)))

-- A flow whose destination the policy lets through.
abbrev pub IsAllowed : Bool → Flow → Type 0
IsAllowed allow_private f = egress_blocked allow_private f.ext_ip ≡ false

length-keep : (test : Flow → Bool) (fs : List Flow) → length (keep test fs) ≤ length fs
length-keep test [] = omega arith
length-keep test (f ∷ fs) = ground (arith, length-keep test fs)

keep-IsAllowed :
    (allow_private : Bool) (test : Flow → Bool) (fs : List Flow)
    → All (IsAllowed allow_private) fs
    → All (IsAllowed allow_private) (keep test fs)
keep-IsAllowed allow_private test [] h = tt
keep-IsAllowed allow_private test (f ∷ fs) (here, h) =
    kept (test f) (keep-IsAllowed allow_private test fs h)
  where
    kept :
        (c : Bool)
        → All (IsAllowed allow_private) (keep test fs)
        → All
            (IsAllowed allow_private)
            (elim c as (λ _. List Flow) [ true ↦ f ∷ keep test fs | false ↦ keep test fs ])
    kept true rest = (here, rest)
    kept false rest = rest

-- In every history of the gateway there are at most 256 flows, and each goes to an address that the egress policy
-- lets through: no loopback, link-local, broadcast, unspecified or documentation address, and no
-- private one unless the operator has opted in.
pub Reach-IsAllowed :
    (allow_private : Bool) (n : ℕ) (b : Backend)
    → Reach allow_private n b
    → (length b.flows ≤ 256) × All (IsAllowed allow_private) b.flows
unfolding close_flows accept_inbound
Reach-IsAllowed allow_private _ _ start = (omega arith, tt)
Reach-IsAllowed allow_private _ _ (segment n b listens s r) =
    let (few, safe) = Reach-IsAllowed allow_private n b r in
    elim (maybe_open_flow-cases allow_private listens b s) [
      | inl e ↦ rw e (few, safe)
      | inr (inl e) ↦ rw e (few, safe)
      | inr (inr (e, room, lets, from, syn, ack)) ↦ rw e (
        omega (arith, room, length-append b.flows (new_flow b s ∷ [])),
        All-append (IsAllowed allow_private) b.flows (new_flow b s ∷ []) safe (lets, tt),
      )
    ]
Reach-IsAllowed allow_private _ _ (closing n b closed r) =
    let (few, safe) = Reach-IsAllowed allow_private n b r in
    (
      omega (arith, few, length-keep (λ f. not (closed f)) b.flows),
      keep-IsAllowed allow_private (λ f. not (closed f)) b.flows safe,
    )
Reach-IsAllowed allow_private _ _ (inbound n b r) = Reach-IsAllowed allow_private n b r
