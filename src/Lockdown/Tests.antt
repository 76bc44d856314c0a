-- ===== src/Lockdown/Tests.antt =====
-- crates/amber-core/src/lockdown.rs: a machine that runs the filter, on a call that opens a socket.
use amber.Prelude.{ℕ, zero, suc, ◌≡◌, refl, false, List, [], ◌∷◌, ◌==◌, if◌then◌else◌, drop}
use amber.Lockdown.{SockFilter, SeccompData, program, arch_aarch64, nr_socket}
use amber.Lockdown.Filter.{IsBpf, program-verdict}

-- The instructions to skip, as a jump leaves them.
abbrev skipping : ℕ → List SockFilter → ℕ → SeccompData → ℕ
skipping n [] acc d = 0
skipping zero (i ∷ rest) acc d =
    let next =
      skipping (if i.code == 0x15 then (if acc == i.k then i.jt else i.jf) else 0) rest
        (if i.code == 0x20 then (if i.k == 0 then d.nr else d.arch) else acc) d in
    if i.code == 0x06 then i.k else next
skipping (suc n) (i ∷ rest) acc d = skipping n rest acc d

abbrev machine : List SockFilter → ℕ → SeccompData → ℕ
machine = skipping 0

skipping-drop :
    (n : ℕ) (p : List SockFilter) (acc : ℕ) (d : SeccompData)
    → skipping n p acc d ≡ machine (drop n p) acc d
skipping-drop zero p acc d = refl
skipping-drop (suc n) [] acc d = refl
skipping-drop (suc n) (i ∷ p) acc d = skipping-drop n p acc d

machine-IsBpf : IsBpf machine
machine-IsBpf = record {
  load_nr = λ rest acc d. refl;
  load_arch = λ rest acc d. refl;
  jump_equal = λ k jt jf rest acc d. skipping-drop (if acc == k then jt else jf) rest acc d;
  return = λ k rest acc d. refl;
}

abbrev socket_call : SeccompData
socket_call = record { nr = nr_socket; arch = arch_aarch64 }

program-verdict_example : machine (program false) 0 socket_call ≡ 0x50001
program-verdict_example = program-verdict machine machine-IsBpf false 0 socket_call
