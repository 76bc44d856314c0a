-- ===== src/Memory/Cells.antt =====
-- Host memory as a function: `copy_nonoverlapping` out of it (`cells`) and into it (`overwrite`).
use amber.Prelude.{
  ℕ, zero, suc, ◌+◌, ◌≤◌, ◌<◌, ◌≡◌, refl, ap, List, [], ◌∷◌, ◌⊎◌, inl, inr, if◌then◌else◌, ◌==◌,
  arith, length, IsByte, All,
}

-- The `n` bytes from offset `off` on.
unfoldable pub cells : (ℕ → ℕ) → ℕ → ℕ → List ℕ
cells host off zero = []
cells host off (suc n) = host off ∷ cells host (off + 1) n

-- The memory with `bytes` put at offset `off`.
unfoldable pub overwrite : (ℕ → ℕ) → ℕ → List ℕ → ℕ → ℕ
overwrite host off [] o = host o
overwrite host off (b ∷ bytes) o = if o == off then b else overwrite host (off + 1) bytes o

pub length-cells : (host : ℕ → ℕ) (off n : ℕ) → length (cells host off n) ≡ n
unfolding cells
length-cells host off zero = refl
length-cells host off (suc n) = ap suc (length-cells host (off + 1) n)

pub cells-agree :
    (f g : ℕ → ℕ) (off n : ℕ)
    → ((o : ℕ) → off ≤ o → o < off + n → f o ≡ g o)
    → cells f off n ≡ cells g off n
unfolding cells
cells-agree f g off zero h = refl
cells-agree f g off (suc n) h =
    ground (arith, h off, cells-agree f g (off + 1) n (λ o p q. h o (omega arith) (omega arith)))

pub overwrite_outside :
    (host : ℕ → ℕ) (off : ℕ) (bytes : List ℕ) (o : ℕ)
    → (o < off) ⊎ (off + length bytes ≤ o)
    → overwrite host off bytes o ≡ host o
unfolding overwrite
overwrite_outside host off [] o h = refl
overwrite_outside host off (b ∷ bytes) o (inl h) =
    ground (arith, overwrite_outside host (off + 1) bytes o (inl (omega arith)))
overwrite_outside host off (b ∷ bytes) o (inr h) =
    ground (arith, overwrite_outside host (off + 1) bytes o (inr (omega arith)))

pub cells-overwrite_self :
    (host : ℕ → ℕ) (off : ℕ) (bytes : List ℕ)
    → cells (overwrite host off bytes) off (length bytes) ≡ bytes
unfolding cells overwrite
cells-overwrite_self host off [] = refl
cells-overwrite_self host off (b ∷ bytes) = ground (
  arith,
  cells-overwrite_self host (off + 1) bytes,
  cells-agree (overwrite host off (b ∷ bytes)) (overwrite host (off + 1) bytes) (off + 1)
      (length bytes) (λ o p q. ground arith),
)

pub cells-overwrite_disjoint :
    (host : ℕ → ℕ) (off : ℕ) (bytes : List ℕ) (from n : ℕ)
    → (from + n ≤ off) ⊎ (off + length bytes ≤ from)
    → cells (overwrite host off bytes) from n ≡ cells host from n
cells-overwrite_disjoint host off bytes from n (inl h) =
    cells-agree _ host from n (λ o p q. overwrite_outside host off bytes o (inl (omega arith)))
cells-overwrite_disjoint host off bytes from n (inr h) =
    cells-agree _ host from n (λ o p q. overwrite_outside host off bytes o (inr (omega arith)))

pub cells-IsByte :
    (host : ℕ → ℕ) (off n : ℕ) → ((o : ℕ) → IsByte (host o)) → All IsByte (cells host off n)
unfolding cells
cells-IsByte host off zero h = tt
cells-IsByte host off (suc n) h = (h off, cells-IsByte host (off + 1) n h)

pub overwrite-IsByte :
    (host : ℕ → ℕ) (off : ℕ) (bytes : List ℕ) (o : ℕ)
    → IsByte (host o)
    → All IsByte bytes
    → IsByte (overwrite host off bytes o)
unfolding overwrite
overwrite-IsByte host off [] o h k = h
overwrite-IsByte host off (b ∷ bytes) o h k =
    ground (arith, overwrite-IsByte host (off + 1) bytes o h k.1)
