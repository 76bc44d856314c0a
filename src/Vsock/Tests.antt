-- ===== src/Vsock/Tests.antt =====
-- crates/amber-core/src/vsock.rs: a host with a count of chunks to read, and the theorems at concrete
-- inputs.
use amber.Prelude.{
  ◌∙◌, ◌++◌, append-nil, take_exact, ap, sym, ℕ, zero, suc, ◌≤◌, ◌≡◌, true, false, none, some, List,
  [], ◌∷◌, arith, length, take, All, length-take,
}
use amber.Vsock.{Conn, VsockDevice, new, packet, opened, buf_alloc, on_guest_packet}
use amber.Vsock.Sockets.{Host, IsDocumented, ReadResult, wrote, got, read_blocked}
use amber.Vsock.Pump.{drain_loop, read_loop}
use amber.Vsock.Credit.{IsCounted, Fed, read_loop-Fed}
use amber.Vsock.Drain.{IsStream, Drained, drain_loop-Drained}
use amber.Vsock.Reach.{new-Reach-IsBounded, here, later, packets}

-- A chunk of three bytes for each read.
chunk : ℕ → ℕ → ℕ × ReadResult
chunk zero room = (0, read_blocked)
chunk (suc n) room = (n, got (take room (1 ∷ 2 ∷ 3 ∷ [])))

abbrev peer : Host ℕ ℕ
peer = record {
  dial = λ w port. (w, some 5);
  accept = λ w. (w, none);
  write = λ w s bytes. (w, wrote (length bytes));
  read = λ w s room. chunk w room;
  first_slice = λ w bytes. length bytes;
}

chunk_fits : (w room : ℕ) (bytes : List ℕ) → (chunk w room).1 ≡ got bytes → length bytes ≤ room
unfolding chunk
chunk_fits zero room bytes e = cc
chunk_fits (suc w) room bytes e =
    let same : take room (1 ∷ 2 ∷ 3 ∷ []) ≡ bytes = cc in
    omega (arith, ap length same, length-take {A = ℕ} room (1 ∷ 2 ∷ 3 ∷ []))

peer-IsDocumented : IsDocumented peer
peer-IsDocumented = record {
  write_takes = λ w s bytes n e. (let same : length bytes ≡ n = cc in omega arith);
  read_gives = λ w s room bytes e. chunk_fits w room bytes e;
}

abbrev talking : Conn ℕ
talking = record (opened 4000 80 5 7 0 true) { to_host = 9 ∷ 8 ∷ [] }

talking-IsCounted : IsCounted talking
talking-IsCounted = record {
  window = omega arith;
  peer = omega arith;
  sent = omega arith;
  drained = omega arith;
}

read_loop-Fed_example : Fed peer peer-IsDocumented 4 talking (read_loop peer 7 4 2 talking)
read_loop-Fed_example = read_loop-Fed peer peer-IsDocumented 4 7 2 talking talking-IsCounted

-- A stream that keeps what it is given.
abbrev sink : Host (List ℕ) ℕ
sink = record {
  dial = λ w port. (w, some 5);
  accept = λ w. (w, none);
  write = λ w s bytes. (w ++ bytes, wrote (length bytes));
  read = λ w s room. (w, read_blocked);
  first_slice = λ w bytes. 1;
}

sink-IsDocumented : IsDocumented sink
sink-IsDocumented = record {
  write_takes = λ w s bytes n e. let same : length bytes ≡ n = cc e in omega (arith, same);
  read_gives = λ w s room bytes e. absurd (cc e);
}

sink-IsStream : IsStream sink (λ w s. w)
sink-IsStream = record {
  write_adds = λ w s bytes n e.
      let same : length bytes ≡ n = cc e in
      ap (λ (xs : List ℕ). w ++ xs)
        (sym
          (ap (λ (xs : List ℕ). take n xs) (sym (append-nil bytes)) ∙ take_exact bytes [] n same));
  blocked_adds_none = λ w s bytes e. absurd (cc e);
  failed_adds_none = λ w s bytes e. absurd (cc e);
}

drain_loop-Drained_example :
    Drained sink (λ w s. w) (9 ∷ []) talking (drain_loop sink 2 (9 ∷ []) talking false)
drain_loop-Drained_example =
    drain_loop-Drained sink (λ w s. w) sink-IsDocumented sink-IsStream 2 (9 ∷ []) talking false
      talking-IsCounted

-- The guest's REQUEST for port 80.
abbrev dialled : VsockDevice ℕ ℕ
dialled = on_guest_packet peer (new 3 0) (packet 2 80 4000 1 0 [])

new-Reach-IsBounded_example : All (λ c. length c.to_host ≤ buf_alloc) dialled.conns
new-Reach-IsBounded_example =
    new-Reach-IsBounded peer 3 0 (later here (packets (packet 2 80 4000 1 0 [])))
