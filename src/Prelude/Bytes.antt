-- ===== src/Prelude/Bytes.antt =====
-- Little-endian bytes (`to_le_bytes`, `from_le_bytes`) and arithmetic on words that wraps.
use Prim.Native.Nat.{ℕ, zero, suc, ◌+◌, ◌-◌, ◌*◌, ◌/◌, ◌%◌, ◌^◌, ◌<◌}
use mathlib.Core.Path.{◌≡◌, refl, ap}
use mathlib.Core.List.{List, [], ◌∷◌}
use native.Mathlib.Omega.{arith}
use native.Mathlib.Nat.{pow-suc}
use amber.Prelude.Lists.{length, All}

abbrev pub IsByte : ℕ → Type 0
IsByte b = b < 256

-- The `w` bytes of a word, lowest first.
abbrev pub to_le : ℕ → ℕ → List ℕ
to_le zero v = []
to_le (suc w) v = (v % 256) ∷ to_le w (v / 256)

abbrev pub from_le : List ℕ → ℕ
from_le [] = 0
from_le (b ∷ bs) = b + 256 * from_le bs

pub length-to_le : (w v : ℕ) → length (to_le w v) ≡ w
length-to_le zero v = refl
length-to_le (suc w) v = ap suc (length-to_le w (v / 256))

pub to_le-IsByte : (w v : ℕ) → All IsByte (to_le w v)
to_le-IsByte zero v = tt
to_le-IsByte (suc w) v = (omega arith, to_le-IsByte w (v / 256))

pub from_le-to_le : (w v : ℕ) → v < 256 ^ w → from_le (to_le w v) ≡ v
from_le-to_le zero v h = omega arith
from_le-to_le (suc w) v h = omega (arith, from_le-to_le w (v / 256) (omega (arith, pow-suc 256 w)))

pub from_le-lt : (bs : List ℕ) → All IsByte bs → from_le bs < 256 ^ length bs
from_le-lt [] h = omega arith
from_le-lt (b ∷ bs) h = omega (arith, from_le-lt bs h.1, pow-suc 256 (length bs))

-- u16, u32 and u64 `wrapping_add`, u32 `wrapping_sub`, and `!v` on a u32.
abbrev pub wrapping_add : ℕ → ℕ → ℕ → ℕ
wrapping_add w a b = (a + b) % 2 ^ w

abbrev pub wrapping_sub : ℕ → ℕ → ℕ → ℕ
wrapping_sub w a b = (a + 2 ^ w - b) % 2 ^ w

abbrev pub not_u32 : ℕ → ℕ
not_u32 v = 0xffff_ffff - v
