-- ===== src/Gic/Restore.antt =====
-- crates/amber-hvf/src/gicv2.rs: the blob of a GIC restores that GIC.
use amber.Gic.{GicV2, CpuBank, max_cpus}
use amber.Gic.Blob.{
  reversed, put_flags, put_running, capture_bank, capture_banks, capture_shared, capture,
  take_bytes, take_flags, take_running, restore_bank, restore_banks, restore_shared, restore_v2,
  restore,
}
use amber.Prelude.{
  ℕ, zero, suc, ◌-◌, ◌%◌, ◌^◌, ◌≤◌, min, max, ◌≡◌, refl, sym, ap, ◌∙◌, Bool, true, false, not, List,
  [], ◌∷◌, ◌++◌, append-nil, arith, ◌==◌, if◌then◌else◌, length, take, All, length-append,
}

reversed-append : (xs : List ℕ) (x : ℕ) → reversed (xs ++ (x ∷ [])) ≡ x ∷ reversed xs
unfolding reversed
reversed-append [] x = refl
reversed-append (y ∷ xs) x = ap (λ t. t ++ (y ∷ [])) (reversed-append xs x)

reversed-reversed : (xs : List ℕ) → reversed (reversed xs) ≡ xs
unfolding reversed
reversed-reversed [] = refl
reversed-reversed (x ∷ xs) = reversed-append (reversed xs) x ∙ ap (◌∷◌ x) (reversed-reversed xs)

length-reversed : (xs : List ℕ) → length (reversed xs) ≡ length xs
unfolding reversed
length-reversed [] = refl
length-reversed (x ∷ xs) = omega (arith, length-append (reversed xs) (x ∷ []), length-reversed xs)

take_flags-put_flags :
    (n : ℕ) (fs : List Bool) (rest : List ℕ)
    → length fs ≡ n
    → take_flags n (put_flags fs rest) ≡ (fs, rest)
unfolding take_flags put_flags
take_flags-put_flags zero [] rest e = refl
take_flags-put_flags zero (f ∷ fs) rest e = absurd (omega arith)
take_flags-put_flags (suc n) [] rest e = absurd (omega arith)
take_flags-put_flags (suc n) (true ∷ fs) rest e =
    rw (take_flags-put_flags n fs rest (omega arith)) refl
take_flags-put_flags (suc n) (false ∷ fs) rest e =
    rw (take_flags-put_flags n fs rest (omega arith)) refl

take_bytes-append :
    (n : ℕ) (bs rest : List ℕ) → length bs ≡ n → take_bytes n (bs ++ rest) ≡ (bs, rest)
unfolding take_bytes
take_bytes-append zero [] rest e = refl
take_bytes-append zero (b ∷ bs) rest e = absurd (omega arith)
take_bytes-append (suc n) [] rest e = absurd (omega arith)
take_bytes-append (suc n) (b ∷ bs) rest e = rw (take_bytes-append n bs rest (omega arith)) refl

take_all : (n : ℕ) (xs : List ℕ) → length xs ≤ n → take n xs ≡ xs
take_all zero [] h = refl
take_all zero (x ∷ xs) h = absurd (omega arith)
take_all (suc n) [] h = refl
take_all (suc n) (x ∷ xs) h = ap (◌∷◌ x) (take_all n xs (omega arith))

take_running-put_running :
    (running rest : List ℕ)
    → length running ≤ 255
    → take_running (put_running running rest) ≡ (running, rest)
unfolding take_running put_running
take_running-put_running running rest h =
    let n = min (length running) 255 in
    let whole : take n (reversed running) ≡ reversed running =
      take_all n (reversed running) (omega (arith, length-reversed running)) in
    let got : take_bytes n (reversed running ++ rest) ≡ (reversed running, rest) =
      take_bytes-append n (reversed running) rest (omega (arith, length-reversed running)) in
    rw (whole, got) (ap (λ r. (r, rest)) (reversed-reversed running))

-- The sizes of the arrays, which the source fixes, and a stack that the blob can hold.
pub record IsBank (b : CpuBank) : Type 0 where
  pub enabled : length b.enabled ≡ 32
  pub pending : length b.pending ≡ 32
  pub active : length b.active ≡ 32
  pub priority : length b.priority ≡ 32
  pub level : length b.level ≡ 32
  pub edge : length b.edge ≡ 32
  pub sgi_src : length b.sgi_src ≡ 16
  pub depth : length b.running ≤ 255

pub record IsGic (g : GicV2) : Type 0 where
  pub some_cpu : 1 ≤ length g.cpus
  pub few_cpus : length g.cpus ≤ 8
  pub banks : All IsBank g.cpus
  pub enabled : length g.enabled ≡ 256
  pub pending : length g.pending ≡ 256
  pub active : length g.active ≡ 256
  pub priority : length g.priority ≡ 256
  pub level : length g.level ≡ 256
  pub edge : length g.edge ≡ 256
  pub targets : length g.targets ≡ 256

flag-flag : (f : Bool) → not ((if f then 1 else 0) == 0) ≡ f
flag-flag true = refl
flag-flag false = refl

restore_bank-capture_bank :
    (b : CpuBank) (rest : List ℕ) → IsBank b → restore_bank (capture_bank b rest) ≡ (b, rest)
unfolding restore_bank capture_bank
restore_bank-capture_bank b rest k =
    rw
      (
        flag-flag b.cpu_enabled,
        take_flags-put_flags 32 b.enabled _ k.enabled,
        take_flags-put_flags 32 b.pending _ k.pending,
        take_flags-put_flags 32 b.active _ k.active,
        take_flags-put_flags 32 b.level _ k.level,
        take_flags-put_flags 32 b.edge _ k.edge,
        take_bytes-append 32 b.priority _ k.priority,
        take_bytes-append 16 b.sgi_src _ k.sgi_src,
        take_running-put_running b.running rest k.depth,
      )
      refl

restore_banks-capture_banks :
    (banks : List CpuBank) (rest : List ℕ)
    → All IsBank banks
    → restore_banks (length banks) (capture_banks banks rest) ≡ (banks, rest)
unfolding restore_banks capture_banks
restore_banks-capture_banks [] rest k = refl
restore_banks-capture_banks (b ∷ banks) rest k =
    rw
      (
        restore_bank-capture_bank b (capture_banks banks rest) k.0,
        restore_banks-capture_banks banks rest k.1,
      )
      refl

restore_shared-capture_shared :
    (g : GicV2) → IsGic g → restore_shared g.dist_enabled g.cpus (capture_shared g) ≡ g
unfolding restore_shared capture_shared
restore_shared-capture_shared g k =
    let last : take_bytes 256 g.targets ≡ (g.targets, []) =
      ap (take_bytes 256) (sym (append-nil g.targets))
      ∙ take_bytes-append 256 g.targets [] k.targets in
    rw
      (
        take_flags-put_flags 256 g.enabled _ k.enabled,
        take_flags-put_flags 256 g.pending _ k.pending,
        take_flags-put_flags 256 g.active _ k.active,
        take_flags-put_flags 256 g.level _ k.level,
        take_flags-put_flags 256 g.edge _ k.edge,
        take_bytes-append 256 g.priority _ k.priority,
        last,
      )
      refl

-- A blob captured from a GIC of at most 8 CPUs, with arrays of the source's sizes and stacks of at
-- most 255 entries, restores exactly that GIC, into any GIC that has no more CPUs.
pub restore-capture_gic :
    (g g₀ : GicV2) → IsGic g → length g₀.cpus ≤ length g.cpus → restore g₀ (capture g) ≡ g
unfolding restore restore_v2 capture
restore-capture_gic g g₀ k h =
    let some_cpu = k.some_cpu in
    let few_cpus = k.few_cpus in
    let count : min (max (length g.cpus % 2 ^ 8) 1) max_cpus ≡ length g.cpus = omega arith in
    let none_left : max (length g.cpus) (length g₀.cpus) - length g.cpus ≡ 0 = omega arith in
    rw
      (
        flag-flag g.dist_enabled,
        count,
        none_left,
        restore_banks-capture_banks g.cpus (capture_shared g) k.banks,
        append-nil g.cpus,
      )
      (restore_shared-capture_shared g k)
