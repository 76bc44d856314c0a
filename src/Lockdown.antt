-- ===== src/Lockdown.antt =====
-- crates/amber-core/src/lockdown.rs: the seccomp filter that a VM installs on Linux. The machine that runs it
-- is the kernel's: a function with its documented behaviour on the three instructions used (`IsBpf`).
-- Landlock and the macOS profile are host calls and text.
pub mod Filter
pub mod Tests
use amber.Prelude.{
  ℕ, zero, suc, ◌+◌, ◌-◌, ◌*◌, ◌/◌, ◌%◌, ◌^◌, ◌≤◌, ◌<◌, min, max, bit_and, bit_or, ◌≡◌, refl, sym,
  ap, ◌∙◌, ◌≢◌, ◌↔◌, ◌⊎◌, inl, inr, Bool, true, false, not, ◌&&◌, ◌||◌, Option, none, some, List,
  [], ◌∷◌, ◌++◌, map, append-nil, append_assoc, arith, ltb, leb, ◌==◌, if◌then◌else◌, Bool-cases,
  Option-cases, ◌>>=◌, is_some, length, get_elem?, get_or, set, take, drop, replicate, All, IsByte,
  keep, length-append, length-set, All-append, All-set, All-get_elem?, wrapping_add, wrapping_sub,
  not_u32, to_le, from_le, ==_iff, ltb→lt, lt→ltb, leb→le, le→leb, length-take, length-drop,
  length-replicate,
}

pub record SockFilter : Type 0 where
  pub code : ℕ
  pub jt : ℕ
  pub jf : ℕ
  pub k : ℕ

-- What a filter sees of a system call.
pub record SeccompData : Type 0 where
  pub nr : ℕ
  pub arch : ℕ

-- LD | W | ABS, JMP | JEQ | K and RET | K.
abbrev pub ld_w_abs : ℕ
ld_w_abs = 0x20

abbrev pub jmp_jeq_k : ℕ
jmp_jeq_k = 0x15

abbrev pub ret_k : ℕ
ret_k = 0x06

abbrev pub ret_kill_process : ℕ
ret_kill_process = 0x80000000

abbrev pub ret_errno : ℕ
ret_errno = 0x00050000

abbrev pub ret_allow : ℕ
ret_allow = 0x7fff0000

abbrev pub arch_aarch64 : ℕ
arch_aarch64 = 0xc00000b7

abbrev pub off_nr : ℕ
off_nr = 0

abbrev pub off_arch : ℕ
off_arch = 4

abbrev pub eperm : ℕ
eperm = 1

abbrev pub nr_execve : ℕ
nr_execve = 221

abbrev pub nr_execveat : ℕ
nr_execveat = 281

abbrev pub nr_socket : ℕ
nr_socket = 198

abbrev pub stmt : ℕ → ℕ → SockFilter
stmt code k = record { code = code; jt = 0; jf = 0; k = k }

abbrev pub jump : ℕ → ℕ → ℕ → ℕ → SockFilter
jump code k jt jf = record { code = code; jt = jt; jf = jf; k = k }

-- `if nr == sysno { return ERRNO(EPERM) }`.
unfoldable pub deny : ℕ → List SockFilter
deny sysno = jump jmp_jeq_k sysno 0 1 ∷ stmt ret_k (ret_errno + eperm) ∷ []

unfoldable pub program : Bool → List SockFilter
program net =
    stmt ld_w_abs off_arch
    ∷ jump jmp_jeq_k arch_aarch64 1 0
    ∷ stmt ret_k ret_kill_process
    ∷ stmt ld_w_abs off_nr
    ∷ (deny nr_execve
        ++ (deny nr_execveat
            ++ ((if not net then deny nr_socket else []) ++ (stmt ret_k ret_allow ∷ []))))

-- The filter that the process has after the two `prctl` calls; `none` is an error.
unfoldable pub install_seccomp : Bool → Bool → Bool → Option (List SockFilter)
install_seccomp no_new_privs set_seccomp net =
    if not no_new_privs then none else if not set_seccomp then none else some (program net)
