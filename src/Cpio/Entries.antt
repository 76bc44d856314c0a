-- ===== src/Cpio/Entries.antt =====
-- crates/amber-image/src/cpio.rs: an archive read back.
use amber.Prelude.{
  ℕ, zero, suc, ◌+◌, ◌-◌, ◌*◌, ◌/◌, ◌%◌, ◌^◌, ◌≤◌, ◌<◌, ◌≡◌, refl, sym, ap, ◌∙◌, ◌≢◌, inl, inr,
  List, [], ◌∷◌, ◌++◌, append-nil, append_assoc, arith, ltb, ◌==◌, if◌then◌else◌, Bool-cases,
  length, take, drop, replicate, length-append, length-replicate, drop-drop, take_exact, drop_exact,
}
use amber.Cpio.{hex_digit, hex8, header, pad_loop, pad4}

pub record Entry : Type 0 where
  pub name : List ℕ
  pub mode : ℕ
  pub content : List ℕ
  pub major : ℕ
  pub minor : ℕ

-- The reader of the newc format, which is written down apart from the writer.
abbrev from_digit : ℕ → ℕ
from_digit c = if ltb c 58 then c - 48 else c - 87

abbrev value : ℕ → List ℕ → ℕ
value acc [] = acc
value acc (c ∷ cs) = value (acc * 16 + from_digit c) cs

abbrev number_at : ℕ → List ℕ → ℕ
number_at at e = value 0 (take 8 (drop at e))

-- The bytes from `n` on to a multiple of four.
abbrev pub gap : ℕ → ℕ
gap n = (4 - n % 4) % 4

abbrev pub zeros : ℕ → List ℕ
zeros n = replicate n 0

from_digit-hex_digit : (d : ℕ) → d < 16 → from_digit (hex_digit d) ≡ d
unfolding hex_digit
from_digit-hex_digit d h = ground arith

value-hex8 : (v : ℕ) → v < 4294967296 → value 0 (hex8 v) ≡ v
value-hex8 v h =
    rw
      (
        from_digit-hex_digit (v / 268435456 % 16) (omega arith),
        from_digit-hex_digit (v / 16777216 % 16) (omega arith),
        from_digit-hex_digit (v / 1048576 % 16) (omega arith),
        from_digit-hex_digit (v / 65536 % 16) (omega arith),
        from_digit-hex_digit (v / 4096 % 16) (omega arith),
        from_digit-hex_digit (v / 256 % 16) (omega arith),
        from_digit-hex_digit (v / 16 % 16) (omega arith),
        from_digit-hex_digit (v % 16) (omega arith),
      )
      (omega arith)

pad_loop_lem :
    (n : ℕ) (buf : List ℕ) → gap (length buf) ≤ n → pad_loop n buf ≡ buf ++ zeros (gap (length buf))
pad_loop_lem zero buf h =
    let none_left : gap (length buf) ≡ 0 = omega arith in rw none_left (sym (append-nil buf))
pad_loop_lem (suc n) buf h = elim (Bool-cases (length buf % 4 == 0)) [
  | inl e ↦
      let aligned : length buf % 4 ≡ 0 = ground arith in
      let none_left : gap (length buf) ≡ 0 = omega arith in rw (e, none_left) (sym (append-nil buf))
  | inr e ↦
      let left : length buf % 4 ≢ 0 = ground arith in
      let longer : length (buf ++ (0 ∷ [])) ≡ suc (length buf) =
        length-append buf (0 ∷ []) ∙ omega arith in
      let one_less : gap (length buf) ≡ suc (gap (length (buf ++ (0 ∷ [])))) =
        rw longer (omega arith) in
      rw (e, one_less)
        (pad_loop_lem n (buf ++ (0 ∷ [])) (omega arith)
          ∙ append_assoc buf (0 ∷ []) (zeros (gap (length (buf ++ (0 ∷ []))))))
]

pub pad4_lem : (buf : List ℕ) → pad4 buf ≡ buf ++ zeros (gap (length buf))
unfolding pad4
pad4_lem buf = pad_loop_lem 3 buf (omega arith)

-- The reader: with the sizes of the name and of the content, the entry at the front and what follows it.
abbrev split_at : ℕ → ℕ → List ℕ → Entry × List ℕ
split_at n size e =
    let start = 110 + (n + gap (110 + n)) in
    (
      record {
        name = take (n - 1) (drop 110 e);
        mode = number_at 14 e;
        content = take size (drop start e);
        major = number_at 78 e;
        minor = number_at 86 e;
      },
      drop (size + gap size) (drop start e),
    )

abbrev pub read_entry : List ℕ → Entry × List ℕ
read_entry e = split_at (number_at 94 e) (number_at 54 e) e

-- The bytes of one entry before others.
abbrev pub bytes : ℕ → ℕ → Entry → List ℕ → List ℕ
bytes ino nlink e rest =
    header ino e.mode (length e.content) (length (e.name ++ (0 ∷ []))) e.major e.minor nlink
    ++ ((e.name ++ (0 ∷ []))
        ++ (zeros (gap (110 + length (e.name ++ (0 ∷ []))))
            ++ (e.content ++ (zeros (gap (length e.content)) ++ rest))))

pub record Fits (e : Entry) : Type 0 where
  pub name_fits : length e.name < 4294967295
  pub mode_fits : e.mode < 4294967296
  pub content_fits : length e.content < 4294967296
  pub major_fits : e.major < 4294967296
  pub minor_fits : e.minor < 4294967296

module _ (ino nlink : ℕ) (e : Entry) (rest : List ℕ) (fits : Fits e) where
  length-name : length (e.name ++ (0 ∷ [])) ≡ suc (length e.name)
  length-name = length-append e.name (0 ∷ []) ∙ omega arith

  size-bytes : number_at 54 (bytes ino nlink e rest) ≡ length e.content
  size-bytes =
      let small = fits.content_fits in
      value-hex8 (length e.content % 2 ^ 32) (omega arith) ∙ omega arith

  namesize-bytes : number_at 94 (bytes ino nlink e rest) ≡ length (e.name ++ (0 ∷ []))
  namesize-bytes =
      let small = fits.name_fits in
      let one_more = length-name in
      value-hex8 (length (e.name ++ (0 ∷ [])) % 2 ^ 32) (omega arith) ∙ omega arith

  from_content :
      drop
        (110 + (length (e.name ++ (0 ∷ [])) + gap (110 + length (e.name ++ (0 ∷ [])))))
        (bytes ino nlink e rest)
      ≡ e.content ++ (zeros (gap (length e.content)) ++ rest)
  from_content =
      let n = length (e.name ++ (0 ∷ [])) in
      sym (drop-drop 110 (n + gap (110 + n)) (bytes ino nlink e rest))
      ∙ sym (drop-drop n (gap (110 + n)) (drop 110 (bytes ino nlink e rest)))
      ∙ ap (λ (xs : List ℕ). drop (gap (110 + n)) xs) (drop_exact (e.name ++ (0 ∷ [])) _ n refl)
      ∙ drop_exact (zeros (gap (110 + n))) _ (gap (110 + n)) (length-replicate (gap (110 + n)) 0)

  name-bytes : take (length (e.name ++ (0 ∷ [])) - 1) (drop 110 (bytes ino nlink e rest)) ≡ e.name
  name-bytes =
      let one_more = length-name in
      ap (λ (xs : List ℕ). take (length (e.name ++ (0 ∷ [])) - 1) xs)
        (append_assoc e.name (0 ∷ []) _)
      ∙ take_exact e.name _ (length (e.name ++ (0 ∷ [])) - 1) (omega arith)

  after-content :
      drop
        (length e.content + gap (length e.content))
        (e.content ++ (zeros (gap (length e.content)) ++ rest))
      ≡ rest
  after-content =
      let n = length e.content in
      sym (drop-drop n (gap n) _)
      ∙ ap (λ (xs : List ℕ). drop (gap n) xs) (drop_exact e.content _ n refl)
      ∙ drop_exact (zeros (gap n)) rest (gap n) (length-replicate (gap n) 0)

  pub read_entry-bytes : read_entry (bytes ino nlink e rest) ≡ (e, rest)
  read_entry-bytes =
      let w = bytes ino nlink e rest in
      ap (λ (k : ℕ). split_at k (number_at 54 w) w) namesize-bytes
      ∙ ap (λ (k : ℕ). split_at (length (e.name ++ (0 ∷ []))) k w) size-bytes
      ∙ rw
          (
            name-bytes,
            from_content,
            after-content,
            take_exact e.content (zeros (gap (length e.content)) ++ rest) (length e.content) refl,
            value-hex8 e.mode fits.mode_fits,
            value-hex8 e.major fits.major_fits,
            value-hex8 e.minor fits.minor_fits,
          )
          refl
