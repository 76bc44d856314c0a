-- ===== src/Prelude/Bits.antt =====
-- The bit operations as arithmetic. Both `&` and `|` are folds over binary digits; what holds of
-- every such fold is proved once, and the laws of masks and fields follow digit by digit.
use Prim.Native.Nat.{
  ℕ, zero, suc, ◌+◌, ◌-◌, ◌*◌, ◌/◌, ◌%◌, ◌^◌, ◌≤◌, ◌<◌, min, max, bit_and, bit_or, digits,
  bit_and-bitwise, bit_or-bitwise,
}
use mathlib.Core.Path.{◌≡◌, refl, ap, sym, ◌∙◌}
use native.Mathlib.Omega.{arith}
use native.Mathlib.Nat.{pow-suc, one-le-pow, mod-lt}

module _ (ended : ℕ → ℕ) (digit : ℕ → ℕ → ℕ) where
  digits_of_zero : (rounds y : ℕ) → digits ended digit rounds 0 y ≡ ended y
  digits_of_zero zero y = refl
  digits_of_zero (suc rounds) y = refl

  -- Rounds beyond the number itself add nothing.
  digits_stable :
      (n m x y : ℕ) → x ≤ n → x ≤ m → digits ended digit n x y ≡ digits ended digit m x y
  digits_stable n m zero y hn hm = digits_of_zero n y ∙ sym (digits_of_zero m y)
  digits_stable zero m (suc x) y hn hm = absurd (omega arith)
  digits_stable (suc n) zero (suc x) y hn hm = absurd (omega arith)
  digits_stable (suc n) (suc m) (suc x) y hn hm =
      let low = digit (suc x % 2) (y % 2) in
      ap (λ (high : ℕ). high * 2 + low)
        (digits_stable n m (suc x / 2) (y / 2) (omega arith) (omega arith))

  -- The lowest digit apart from the others.
  digits_split :
      (x y : ℕ)
      → digits ended digit (suc x) (suc x) y
        ≡ digits ended digit (suc x / 2) (suc x / 2) (y / 2) * 2 + digit (suc x % 2) (y % 2)
  digits_split x y =
      let low = digit (suc x % 2) (y % 2) in
      ap (λ (high : ℕ). high * 2 + low)
        (digits_stable x (suc x / 2) (suc x / 2) (y / 2) (omega arith) (omega arith))

pub zero-bit_and : (y : ℕ) → bit_and 0 y ≡ 0
zero-bit_and y = bit_and-bitwise 0 y

zero-bit_or : (y : ℕ) → bit_or 0 y ≡ y
zero-bit_or y = bit_or-bitwise 0 y

pub bit_and_step : (x y : ℕ) → bit_and x y ≡ bit_and (x / 2) (y / 2) * 2 + min (x % 2) (y % 2)
bit_and_step zero y = omega (arith, zero-bit_and)
bit_and_step (suc x) y =
    let here = digits_split (λ b. zero) min x y in omega (arith, here, bit_and-bitwise)

pub bit_or_step : (x y : ℕ) → bit_or x y ≡ bit_or (x / 2) (y / 2) * 2 + max (x % 2) (y % 2)
bit_or_step zero y = omega (arith, zero-bit_or)
bit_or_step (suc x) y =
    let here = digits_split (λ b. b) max x y in omega (arith, here, bit_or-bitwise)

-- Induction by halving both numbers until the first has run out.
halving_rounds :
    (P : ℕ → ℕ → Type 0)
    → ((y : ℕ) → P 0 y)
    → ((x y : ℕ) → P (x / 2) (y / 2) → P x y)
    → (rounds x y : ℕ) → x ≤ rounds
    → P x y
halving_rounds P done more rounds zero y h = done y
halving_rounds P done more zero (suc x) y h = absurd (omega arith)
halving_rounds P done more (suc rounds) (suc x) y h =
    more (suc x) y (halving_rounds P done more rounds (suc x / 2) (y / 2) (omega arith))

by_halving :
    (P : ℕ → ℕ → Type 0)
    → ((y : ℕ) → P 0 y)
    → ((x y : ℕ) → P (x / 2) (y / 2) → P x y)
    → (x y : ℕ) → P x y
by_halving P done more x y = halving_rounds P done more x x y (omega arith)

pub bit_and-zero : (x : ℕ) → bit_and x 0 ≡ 0
bit_and-zero x =
    by_halving (λ x y. bit_and x 0 ≡ 0) (λ y. refl) (λ x y ih. omega (arith, bit_and_step x 0)) x 0

pub bit_or-zero : (x : ℕ) → bit_or x 0 ≡ x
bit_or-zero x =
    by_halving (λ x y. bit_or x 0 ≡ x) (λ y. refl) (λ x y ih. omega (arith, bit_or_step x 0)) x 0

-- `&` takes bits away only.
pub bit_and-le : (x y : ℕ) → bit_and x y ≤ x
bit_and-le =
    by_halving (λ x y. bit_and x y ≤ x) (λ y. omega (arith, zero-bit_and))
      λ x y ih. omega (arith, bit_and_step x y)

pub bit_or_comm : (x y : ℕ) → bit_or x y ≡ bit_or y x
bit_or_comm =
    by_halving (λ x y. bit_or x y ≡ bit_or y x) (λ y. omega (arith, zero-bit_or, bit_or-zero))
      λ x y ih. omega (arith, bit_or_step x y, bit_or_step y x)

-- A field that starts at bit `k + 1`, as twice the field that starts at bit `k`.
shifted : (k field : ℕ) → field * 2 ^ suc k ≡ 2 * (field * 2 ^ k)
shifted k field = let power = pow-suc 2 k in omega (arith, ap (λ (t : ℕ). field * t) power)

-- Below: `up` is the field from bit `k` on, `low` the bits under it.
pub bit_or_fields : (k up low : ℕ) → low < 2 ^ k → bit_or (up * 2 ^ k) low ≡ up * 2 ^ k + low
bit_or_fields zero up low h =
    let none_low : low ≡ 0 = omega arith in
    let one : up * 2 ^ 0 ≡ up = omega arith in
    ap (bit_or (up * 2 ^ 0)) none_low ∙ omega (arith, bit_or-zero (up * 2 ^ 0))
bit_or_fields (suc k) up low h =
    let power = pow-suc 2 k in
    let twice = shifted k up in
    let halves = bit_or_step (up * 2 ^ suc k) low in
    let ih = bit_or_fields k up (low / 2) (omega arith) in
    let half : up * 2 ^ suc k / 2 ≡ up * 2 ^ k = omega arith in
    halves
    ∙ ap (λ (t : ℕ). bit_or t (low / 2) * 2 + max (up * 2 ^ suc k % 2) (low % 2)) half
    ∙ omega arith

-- A mask without low bits works on the upper field alone.
pub bit_and_high :
    (k up low mask : ℕ)
    → low < 2 ^ k
    → bit_and (up * 2 ^ k + low) (mask * 2 ^ k) ≡ bit_and up mask * 2 ^ k
bit_and_high zero up low mask h =
    let whole : up * 2 ^ 0 + low ≡ up = omega arith in
    let same : mask * 2 ^ 0 ≡ mask = omega arith in rw (whole, same) (omega arith)
bit_and_high (suc k) up low mask h =
    let power = pow-suc 2 k in
    let twice = shifted k up in
    let twice_mask = shifted k mask in
    let twice_and = shifted k (bit_and up mask) in
    let half : (up * 2 ^ suc k + low) / 2 ≡ up * 2 ^ k + low / 2 = omega arith in
    let half_mask : mask * 2 ^ suc k / 2 ≡ mask * 2 ^ k = omega arith in
    let ih = bit_and_high k up (low / 2) mask (omega arith) in
    omega (
      arith,
      bit_and_step (up * 2 ^ suc k + low) (mask * 2 ^ suc k),
      ap (λ (t : ℕ). bit_and t (mask * 2 ^ suc k / 2)) half,
      ap (bit_and (up * 2 ^ k + low / 2)) half_mask,
    )

-- A mask of the `k` low bits is the remainder by `2 ^ k`.
mask_fields : (k up low : ℕ) → low < 2 ^ k → bit_and (up * 2 ^ k + low) (2 ^ k - 1) ≡ low
mask_fields zero up low h =
    let none_low : low ≡ 0 = omega arith in bit_and-zero (up * 2 ^ 0 + low) ∙ sym none_low
mask_fields (suc k) up low h =
    let power = pow-suc 2 k in
    let positive = one-le-pow k 2 (omega arith) in
    let twice = shifted k up in
    let half : (up * 2 ^ suc k + low) / 2 ≡ up * 2 ^ k + low / 2 = omega arith in
    let half_mask : (2 ^ suc k - 1) / 2 ≡ 2 ^ k - 1 = omega arith in
    let ih = mask_fields k up (low / 2) (omega arith) in
    omega (
      arith,
      bit_and_step (up * 2 ^ suc k + low) (2 ^ suc k - 1),
      ap (λ (t : ℕ). bit_and t ((2 ^ suc k - 1) / 2)) half,
      ap (bit_and (up * 2 ^ k + low / 2)) half_mask,
    )

pub bit_and_mask : (k x : ℕ) → bit_and x (2 ^ k - 1) ≡ x % 2 ^ k
bit_and_mask k x =
    let positive = one-le-pow k 2 (omega arith) in
    let split : x / 2 ^ k * 2 ^ k + x % 2 ^ k ≡ x = grind arith in
    ap (λ (t : ℕ). bit_and t (2 ^ k - 1)) (sym split)
    ∙ mask_fields k (x / 2 ^ k) (x % 2 ^ k) (mod-lt x positive)

-- `|` stays within the width of its operands.
pub bit_or-lt : (k x y : ℕ) → x < 2 ^ k → y < 2 ^ k → bit_or x y < 2 ^ k
bit_or-lt zero x y hx hy =
    let a : x ≡ 0 = omega arith in
    let b : y ≡ 0 = omega arith in rw (a, b) (omega (arith, zero-bit_or 0))
bit_or-lt (suc k) x y hx hy =
    let power = pow-suc 2 k in
    let ih = bit_or-lt k (x / 2) (y / 2) (omega arith) (omega arith) in
    omega (arith, bit_or_step x y)

-- A mask that has no bit in common with one operand of `&` has none in common with the result.
bit_and_half :
    (x y z : ℕ)
    → bit_and (bit_and x y) z
      ≡ bit_and (bit_and (x / 2) (y / 2)) (z / 2) * 2 + min (min (x % 2) (y % 2)) (z % 2)
bit_and_half x y z =
    let half : bit_and x y / 2 ≡ bit_and (x / 2) (y / 2) = omega (arith, bit_and_step x y) in
    let low : bit_and x y % 2 ≡ min (x % 2) (y % 2) = omega (arith, bit_and_step x y) in
    bit_and_step (bit_and x y) z
    ∙ ap (λ (t : ℕ). bit_and t (z / 2) * 2 + min (bit_and x y % 2) (z % 2)) half
    ∙ ap (λ (t : ℕ). bit_and (bit_and (x / 2) (y / 2)) (z / 2) * 2 + min t (z % 2)) low

pub bit_and-left_none : (x y z : ℕ) → bit_and x z ≡ 0 → bit_and (bit_and x y) z ≡ 0
bit_and-left_none x y =
    by_halving (λ x y. (z : ℕ) → bit_and x z ≡ 0 → bit_and (bit_and x y) z ≡ 0)
      (λ y z h. ap (λ (t : ℕ). bit_and t z) (zero-bit_and y) ∙ zero-bit_and z)
      (λ x y ih z h.
        omega (
          arith,
          bit_and_half x y z,
          bit_and_step x z,
          ih (z / 2) (omega (arith, bit_and_step x z)),
        ))
      x y

pub bit_and-right_none : (x y z : ℕ) → bit_and y z ≡ 0 → bit_and (bit_and x y) z ≡ 0
bit_and-right_none x y =
    by_halving (λ x y. (z : ℕ) → bit_and y z ≡ 0 → bit_and (bit_and x y) z ≡ 0)
      (λ y z h. ap (λ (t : ℕ). bit_and t z) (zero-bit_and y) ∙ zero-bit_and z)
      (λ x y ih z h.
        omega (
          arith,
          bit_and_half x y z,
          bit_and_step y z,
          ih (z / 2) (omega (arith, bit_and_step y z)),
        ))
      x y
