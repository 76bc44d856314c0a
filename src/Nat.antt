-- ===== src/Nat.antt =====
-- crates/amber-net/src/lib.rs: the flows of the user-mode network, its egress policy and its address
-- rewriting. The TCP/IP stack and its parser are a third party's: a frame is what `tcp_tuple` makes
-- of it, a listening socket succeeds or not, and which flows have closed is the stack's answer.
-- `Ipv4Addr`'s tests are written out.
pub mod Policy
pub mod Rewrite
pub mod Bridge
pub mod Tests
use amber.Prelude.{
  keep, ℕ, zero, suc, ◌+◌, ◌-◌, ◌*◌, ◌/◌, ◌%◌, ◌^◌, ◌≤◌, ◌<◌, min, max, bit_and, bit_or, ◌≡◌, refl,
  sym, ap, ◌∙◌, ◌≢◌, ◌↔◌, ◌⊎◌, inl, inr, Bool, true, false, not, ◌&&◌, ◌||◌, Option, none, some,
  List, [], ◌∷◌, ◌++◌, map, append-nil, append_assoc, arith, ltb, leb, ◌==◌, if◌then◌else◌,
  Bool-cases, Option-cases, ◌>>=◌, is_some, length, get_elem?, get_or, set, take, drop, replicate,
  All, IsByte, length-append, length-set, All-append, All-set, All-get_elem?, wrapping_add,
  wrapping_sub, not_u32, to_le, from_le, ==_iff, ltb→lt, lt→ltb, leb→le, le→leb, length-take,
  length-drop, length-replicate,
}

pub record Ipv4Addr : Type 0 where
  pub a : ℕ
  pub b : ℕ
  pub c : ℕ
  pub d : ℕ

-- (src, dst, src_port, dst_port, syn, ack) of a frame.
pub record Segment : Type 0 where
  pub src : Ipv4Addr
  pub dst : Ipv4Addr
  pub src_port : ℕ
  pub dst_port : ℕ
  pub syn : Bool
  pub ack : Bool

pub record Flow : Type 0 where
  pub guest_port : ℕ
  pub ext_ip : Ipv4Addr
  pub ext_port : ℕ
  pub eph : ℕ

pub record Backend : Type 0 where
  pub flows : List Flow
  pub next_eph : ℕ

abbrev pub gateway : Ipv4Addr
gateway = record { a = 10; b = 0; c = 0; d = 1 }

abbrev pub guest_ip : Ipv4Addr
guest_ip = record { a = 10; b = 0; c = 0; d = 2 }

abbrev pub max_flows : ℕ
max_flows = 256

abbrev pub first_eph : ℕ
first_eph = 40000

unfoldable pub ip_eq : Ipv4Addr → Ipv4Addr → Bool
ip_eq x y = x.a == y.a && (x.b == y.b && (x.c == y.c && x.d == y.d))

unfoldable pub is_loopback : Ipv4Addr → Bool
is_loopback ip = ip.a == 127

unfoldable pub is_link_local : Ipv4Addr → Bool
is_link_local ip = ip.a == 169 && ip.b == 254

unfoldable pub is_broadcast : Ipv4Addr → Bool
is_broadcast ip = ip_eq ip (record { a = 255; b = 255; c = 255; d = 255 })

unfoldable pub is_unspecified : Ipv4Addr → Bool
is_unspecified ip = ip_eq ip (record { a = 0; b = 0; c = 0; d = 0 })

unfoldable pub is_documentation : Ipv4Addr → Bool
is_documentation ip =
    (ip.a == 192 && (ip.b == 0 && ip.c == 2))
    || ((ip.a == 198 && (ip.b == 51 && ip.c == 100)) || (ip.a == 203 && (ip.b == 0 && ip.c == 113)))

unfoldable pub is_private : Ipv4Addr → Bool
is_private ip =
    (ip.a == 10) || ((ip.a == 172 && (leb 16 ip.b && leb ip.b 31)) || (ip.a == 192 && ip.b == 168))

-- `allow_private` is whether the operator has opted in.
unfoldable pub egress_blocked : Bool → Ipv4Addr → Bool
egress_blocked allow_private ip =
    if is_loopback ip
      || (is_link_local ip || (is_broadcast ip || (is_unspecified ip || is_documentation ip)))
    then true
    else if is_private ip
    then not allow_private
    else false

unfoldable pub is_flow_of : Flow → Segment → Bool
is_flow_of f s = f.guest_port == s.src_port && (ip_eq f.ext_ip s.dst && f.ext_port == s.dst_port)

abbrev pub find_flow : List Flow → (Flow → Bool) → Option Flow
find_flow [] test = none
find_flow (f ∷ fs) test = if test f then some f else find_flow fs test

-- `next_eph.wrapping_add(1).max(40000)`.
unfoldable pub advance_eph : ℕ → ℕ
advance_eph eph = max (wrapping_add 16 eph 1) first_eph

-- A fresh connection of the guest: the guards in the source's order. `listens` is whether the socket can
-- listen on the new port.
unfoldable pub maybe_open_flow : Bool → Bool → Backend → Segment → Backend
maybe_open_flow allow_private listens n s =
    let eph = advance_eph n.next_eph in
    if not s.syn || (s.ack || not (ip_eq s.src guest_ip))
    then n
    else if is_some (find_flow n.flows (λ f. is_flow_of f s))
    then n
    else if leb max_flows (length n.flows)
    then n
    else if egress_blocked allow_private s.dst
    then n
    else if not listens
    then record n { next_eph = eph }
    else record n {
      flows =
          n.flows
          ++ (record { guest_port = s.src_port; ext_ip = s.dst; ext_port = s.dst_port; eph = eph }
              ∷ []);
      next_eph = eph;
    }

-- `retain`: the flows whose sockets have closed go.
unfoldable pub close_flows : (Flow → Bool) → Backend → Backend
close_flows closed n = record n { flows = keep (λ f. not (closed f)) n.flows }

-- An accepted host connection takes a port for its dial to the guest.
unfoldable pub accept_inbound : Backend → Backend
accept_inbound n = record n { next_eph = advance_eph n.next_eph }

unfoldable pub dnat_in : Backend → Segment → Segment
dnat_in n s =
    if not (ip_eq s.src guest_ip) then s else elim (find_flow n.flows (λ f. is_flow_of f s)) [
      | none ↦ s
      | some f ↦ record s { dst = gateway; dst_port = f.eph }
    ]

unfoldable pub is_reply_of : Flow → Segment → Bool
is_reply_of f s = f.eph == s.src_port && f.guest_port == s.dst_port

unfoldable pub dnat_out : Backend → Segment → Segment
dnat_out n s =
    if not (ip_eq s.src gateway) || not (ip_eq s.dst guest_ip)
    then s
    else elim (find_flow n.flows (λ f. is_reply_of f s)) [
      | none ↦ s
      | some f ↦ record s { src = f.ext_ip; src_port = f.ext_port }
    ]
