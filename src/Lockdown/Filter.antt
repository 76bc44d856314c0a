-- ===== src/Lockdown/Filter.antt =====
-- crates/amber-core/src/lockdown.rs: the filter's verdict on every system call.
use amber.Prelude.{
  ℕ, ◌≡◌, refl, sym, ◌∙◌, inl, inr, Bool, true, false, not, ◌&&◌, ◌||◌, List, [], ◌∷◌, ◌++◌, ◌==◌,
  if◌then◌else◌, Bool-cases, drop,
}
use amber.Lockdown.{
  SockFilter, SeccompData, ld_w_abs, jmp_jeq_k, ret_k, ret_allow, nr_execve, nr_execveat, nr_socket,
  stmt, jump, deny, program,
}

-- The documented machine: on the instructions left, the accumulator and the call's data, the answer.
pub record IsBpf (run : List SockFilter → ℕ → SeccompData → ℕ) : Type 0 where
  pub load_nr :
      (rest : List SockFilter) (acc : ℕ) (d : SeccompData)
      → run (stmt ld_w_abs 0 ∷ rest) acc d ≡ run rest d.nr d
  pub load_arch :
      (rest : List SockFilter) (acc : ℕ) (d : SeccompData)
      → run (stmt ld_w_abs 4 ∷ rest) acc d ≡ run rest d.arch d
  pub jump_equal :
      (k jt jf : ℕ) (rest : List SockFilter) (acc : ℕ) (d : SeccompData)
      → run (jump jmp_jeq_k k jt jf ∷ rest) acc d
        ≡ run (drop (if acc == k then jt else jf) rest) acc d
  pub return :
      (k : ℕ) (rest : List SockFilter) (acc : ℕ) (d : SeccompData)
      → run (stmt ret_k k ∷ rest) acc d ≡ k

-- What the sandbox means: another architecture is killed; running another program is refused, and so is a
-- new socket where there is no network; all else goes on.
abbrev pub verdict : Bool → SeccompData → ℕ
verdict net d =
    if not (d.arch == 0xc00000b7)
    then 0x80000000
    else if d.nr == 221 || (d.nr == 281 || (not net && d.nr == 198))
    then 0x50001
    else 0x7fff0000

if-or {ℓ} :
    {A : Type ℓ} (a b : Bool) (x y : A)
    → (if a || b then x else y) ≡ (if a then x else if b then x else y)
if-or true b x y = refl
if-or false b x y = refl

module _ (run : List SockFilter → ℕ → SeccompData → ℕ) (bpf : IsBpf run) where
  run-deny :
      (sysno : ℕ) (rest : List SockFilter) (acc : ℕ) (d : SeccompData)
      → run (deny sysno ++ rest) acc d ≡ (if acc == sysno then 0x50001 else run rest acc d)
  unfolding deny
  run-deny sysno rest acc d = elim (Bool-cases (acc == sysno)) [
    | inl e ↦
        bpf.jump_equal sysno 0 1 (stmt ret_k 0x50001 ∷ rest) acc d
        ∙ rw e (bpf.return 0x50001 rest acc d)
    | inr e ↦ bpf.jump_equal sysno 0 1 (stmt ret_k 0x50001 ∷ rest) acc d ∙ rw e refl
  ]

  run-deny_all :
      (net : Bool) (acc : ℕ) (d : SeccompData)
      → run
          (deny nr_execve
            ++ (deny nr_execveat
                ++ ((if not net then deny nr_socket else []) ++ (stmt ret_k ret_allow ∷ []))))
          acc
          d
        ≡ (if acc == 221 || (acc == 281 || (not net && acc == 198)) then 0x50001 else 0x7fff0000)
  run-deny_all true acc d =
      run-deny 221 (deny 281 ++ (stmt ret_k ret_allow ∷ [])) acc d
      ∙ rw (run-deny 281 (stmt ret_k ret_allow ∷ []) acc d, bpf.return ret_allow [] acc d)
          (sym (
            if-or (acc == 221) (acc == 281 || false) 0x50001 ret_allow
            ∙ rw (if-or (acc == 281) false 0x50001 ret_allow) refl))
  run-deny_all false acc d =
      run-deny 221 (deny 281 ++ (deny 198 ++ (stmt ret_k ret_allow ∷ []))) acc d
      ∙ rw
          (
            run-deny 281 (deny 198 ++ (stmt ret_k ret_allow ∷ [])) acc d,
            run-deny 198 (stmt ret_k ret_allow ∷ []) acc d,
            bpf.return ret_allow [] acc d,
          )
          (sym (
            if-or (acc == 221) (acc == 281 || acc == 198) 0x50001 ret_allow
            ∙ rw (if-or (acc == 281) (acc == 198) 0x50001 ret_allow) refl))

-- A VM's filter kills what calls as another architecture, refuses the running of another program, and a
-- new socket where it has no network, and lets every other system call go on.
pub program-verdict :
    (run : List SockFilter → ℕ → SeccompData → ℕ) (bpf : IsBpf run) (net : Bool) (acc : ℕ)
    (d : SeccompData)
    → run (program net) acc d ≡ verdict net d
unfolding program
program-verdict run bpf net acc d =
    bpf.load_arch _ acc d
    ∙ bpf.jump_equal 0xc00000b7 1 0 _ d.arch d
    ∙ elim (Bool-cases (d.arch == 0xc00000b7)) [
      | inl e ↦ rw e (bpf.load_nr _ d.arch d ∙ run-deny_all run bpf net d.nr d)
      | inr e ↦ rw e (bpf.return 0x80000000 _ d.arch d)
    ]
