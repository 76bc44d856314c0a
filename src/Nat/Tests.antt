-- ===== src/Nat/Tests.antt =====
-- crates/amber-net/src/lib.rs: a guest that opens a connection to a public resolver.
use amber.Prelude.{
  ℕ, suc, ◌≤◌, min, ◌≡◌, refl, sym, ap, true, false, List, [], ◌∷◌, ◌++◌, append-nil, arith, length,
  take, drop, All,
}
use amber.Nat.{
  Ipv4Addr, Segment, Flow, Backend, gateway, guest_ip, egress_blocked, is_loopback, is_link_local,
  is_broadcast, is_unspecified, is_documentation, is_private, is_flow_of, maybe_open_flow,
  advance_eph, ip_eq, dnat_in, dnat_out,
}
use amber.Nat.Bridge.{TcpSocket, HostStream, got, bridge, IsDocumented, bridge_lossless}
use amber.Nat.Policy.{Reach, start, segment, IsAllowed, fresh, Reach-IsAllowed}
use amber.Nat.Rewrite.{dnat_out-dnat_in}

abbrev resolver : Ipv4Addr
resolver = record { a = 8; b = 8; c = 8; d = 8 }

abbrev connect : Segment
connect = record {
  src = guest_ip;
  dst = resolver;
  src_port = 5000;
  dst_port = 443;
  syn = true;
  ack = false;
}

abbrev answer : Segment
answer = record {
  src = gateway;
  dst = guest_ip;
  src_port = 40001;
  dst_port = 5000;
  syn = true;
  ack = true;
}

abbrev flow : Flow
flow = record { guest_port = 5000; ext_ip = resolver; ext_port = 443; eph = 40001 }

abbrev table : Backend
table = record { flows = flow ∷ []; next_eph = 40001 }

table-Reach : Reach false 1 table
unfolding maybe_open_flow is_flow_of ip_eq egress_blocked is_loopback is_link_local is_broadcast
    is_unspecified is_documentation is_private advance_eph
table-Reach = segment 0 fresh true connect start

Reach-IsAllowed_example : (length table.flows ≤ 256) × All (IsAllowed false) table.flows
Reach-IsAllowed_example = Reach-IsAllowed false 1 table table-Reach

dnat_out-dnat_in_example :
    ((dnat_in table connect).dst ≡ gateway)
    × ((dnat_in table connect).dst_port ≡ 40001)
    × ((dnat_out table answer).src ≡ resolver)
    × ((dnat_out table answer).src_port ≡ 443)
    × ((dnat_out table answer).dst ≡ guest_ip)
unfolding dnat_in is_flow_of ip_eq
dnat_out-dnat_in_example =
    dnat_out-dnat_in false 1 table connect answer flow table-Reach (omega arith) refl refl refl refl
      refl refl

-- A socket is the guest's bytes that wait, and a host connection those that it has taken, two at a time.
abbrev queue_socket : TcpSocket (List ℕ)
queue_socket = record {
  can_recv = λ s. true;
  front = λ s. s;
  dequeue = λ s n. drop n s;
  can_send = λ s. true;
  send_slice = λ s bs. (s, 0);
  close = λ s. s;
}

abbrev byte_stream : HostStream (List ℕ)
byte_stream = record {
  write = λ h bs. (h ++ take 2 bs, min 2 (length bs));
  read = λ h n. (h, got (5 ∷ []));
}

take-min : (bs : List ℕ) → take 2 bs ≡ take (min 2 (length bs)) bs
take-min [] = refl
take-min (b ∷ []) = refl
take-min (b ∷ c ∷ bs) = let two : min 2 (suc (suc (length bs))) ≡ 2 = omega arith in rw two refl

byte_stream-IsDocumented : IsDocumented queue_socket byte_stream (λ s. s) (λ h. h)
byte_stream-IsDocumented = record {
  front_first = λ s. ([], sym (append-nil s));
  dequeues = λ s n h. refl;
  sends = λ s bs. refl;
  closes = λ s. refl;
  writes_at_most = λ h bs. omega arith;
  writes = λ h bs. ap (λ (xs : List ℕ). h ++ xs) (take-min bs);
  reads = λ h n. refl;
}

bridge_lossless_example :
    (bridge queue_socket byte_stream (7 ∷ 8 ∷ 9 ∷ []) (1 ∷ []) false).1
      ++ (bridge queue_socket byte_stream (7 ∷ 8 ∷ 9 ∷ []) (1 ∷ []) false).0
    ≡ 1 ∷ 7 ∷ 8 ∷ 9 ∷ []
bridge_lossless_example =
    bridge_lossless queue_socket byte_stream (λ s. s) (λ h. h) byte_stream-IsDocumented
      (7 ∷ 8 ∷ 9 ∷ []) (1 ∷ []) false
