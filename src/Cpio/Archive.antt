-- ===== src/Cpio/Archive.antt =====
-- crates/amber-image/src/cpio.rs: a whole archive read back.
use amber.Prelude.{
  ℕ, ◌+◌, ◌%◌, bit_or, ◌≡◌, refl, ◌∙◌, List, [], ◌∷◌, ◌++◌, map, append_assoc, arith, length, take,
  All, length-append, wrapping_add, length-replicate,
}
use amber.Cpio.{
  Cpio, new, header, pad4, add_record, dir, file, symlink, char_dev, trailer, finish_gz, s_ifdir,
  s_ifreg, s_iflnk, s_ifchr,
}
use amber.Cpio.Entries.{Entry, Fits, gap, zeros, bytes, read_entry, read_entry-bytes, pad4_lem}

-- What a user of the writer asks for, and the entry that it means.
pub data Item : Type 0 where
  of_dir : List ℕ → ℕ → Item
  of_file : List ℕ → List ℕ → ℕ → Item
  of_symlink : List ℕ → List ℕ → Item
  of_char_dev : List ℕ → ℕ → ℕ → ℕ → Item

abbrev pub add : Cpio → Item → Cpio
add c (of_dir name mode) = dir c name mode
add c (of_file name content mode) = file c name content mode
add c (of_symlink name target) = symlink c name target
add c (of_char_dev name mode major minor) = char_dev c name mode major minor

abbrev entry : List ℕ → ℕ → List ℕ → ℕ → ℕ → Entry
entry name mode content major minor = record {
  name = name;
  mode = mode;
  content = content;
  major = major;
  minor = minor;
}

abbrev pub entry_of : Item → Entry
entry_of (of_dir name mode) = entry name (bit_or s_ifdir mode) [] 0 0
entry_of (of_file name content mode) = entry name (bit_or s_ifreg mode) content 0 0
entry_of (of_symlink name target) = entry name (bit_or s_iflnk 511) target 0 0
entry_of (of_char_dev name mode major minor) = entry name (bit_or s_ifchr mode) [] major minor

abbrev pub add_all : Cpio → List Item → Cpio
add_all c [] = c
add_all c (i ∷ is) = add_all (add c i) is

-- "070701".
abbrev magic : List ℕ
magic = 48 ∷ 55 ∷ 48 ∷ 55 ∷ 48 ∷ 49 ∷ []

-- A reader gets these entries and nothing is left.
pub data IsArchive : List ℕ → List Entry → Type 0 where
  done : IsArchive [] []
  next :
      (e : Entry) (bs rest : List ℕ) (es : List Entry)
      → take 6 bs ≡ magic
      → read_entry bs ≡ (e, rest)
      → IsArchive rest es
      → IsArchive bs (e ∷ es)

abbrev pub last_entry : Entry
last_entry = entry trailer 0 [] 0 0

length-zeros : (n : ℕ) → length (zeros n) ≡ n
length-zeros n = let nothing : ℕ = 0 in length-replicate n nothing

length-pad4 : (buf : List ℕ) → length (pad4 buf) % 4 ≡ 0
length-pad4 buf =
    rw (pad4_lem buf, length-append buf (zeros (gap (length buf))), length-zeros (gap (length buf)))
      (omega arith)

-- What a padded tail adds to an aligned start.
gap-append : (xs ys : List ℕ) → length xs % 4 ≡ 0 → gap (length (xs ++ ys)) ≡ gap (length ys)
gap-append xs ys h = rw (length-append xs ys) (omega arith)

to_right :
    (a b c d e f g : List ℕ)
    → (((((a ++ b) ++ c) ++ d) ++ e) ++ f) ++ g ≡ a ++ (b ++ (c ++ (d ++ (e ++ (f ++ g)))))
to_right a b c d e f g =
    append_assoc ((((a ++ b) ++ c) ++ d) ++ e) f g
    ∙ append_assoc (((a ++ b) ++ c) ++ d) e (f ++ g)
    ∙ append_assoc ((a ++ b) ++ c) d (e ++ (f ++ g))
    ∙ append_assoc (a ++ b) c (d ++ (e ++ (f ++ g)))
    ∙ append_assoc a b (c ++ (d ++ (e ++ (f ++ g))))

buf-add_record :
    (c : Cpio) (e : Entry) (rest : List ℕ)
    → length c.buf % 4 ≡ 0
    → (add_record c e.name e.mode e.content e.major e.minor).buf ++ rest
      ≡ c.buf ++ bytes (wrapping_add 32 c.ino 1) 1 e rest
unfolding add_record
buf-add_record c e rest h =
    let hdr =
      header (wrapping_add 32 c.ino 1) e.mode (length e.content) (length (e.name ++ (0 ∷ [])))
        e.major e.minor 1 in
    let z = e.name ++ (0 ∷ []) in
    let named = (c.buf ++ hdr) ++ z in
    let first : gap (length named) ≡ gap (110 + length z) =
      rw (append_assoc c.buf hdr z, gap-append c.buf (hdr ++ z) h, length-append hdr z) refl in
    let second : gap (length (pad4 named ++ e.content)) ≡ gap (length e.content) =
      gap-append (pad4 named) e.content (length-pad4 named) in
    rw (pad4_lem (pad4 named ++ e.content), second, pad4_lem named, first)
      (to_right c.buf hdr z (zeros (gap (110 + length z))) e.content
        (zeros (gap (length e.content))) rest)

finish_lem : (c : Cpio) → length c.buf % 4 ≡ 0 → finish_gz c ≡ c.buf ++ bytes 0 1 last_entry []
unfolding finish_gz
finish_lem c h =
    let z = trailer ++ (0 ∷ []) in
    let hdr = header 0 0 0 (length z) 0 0 1 in
    let tail : gap (length ((c.buf ++ hdr) ++ z)) ≡ 3 =
      rw (append_assoc c.buf hdr z, gap-append c.buf (hdr ++ z) h) refl in
    rw (pad4_lem ((c.buf ++ hdr) ++ z), tail)
      (append_assoc (c.buf ++ hdr) z (zeros 3) ∙ append_assoc c.buf hdr (z ++ zeros 3))

last_entry-Fits : Fits last_entry
last_entry-Fits = record {
  name_fits = omega arith;
  mode_fits = omega arith;
  content_fits = omega arith;
  major_fits = omega arith;
  minor_fits = omega arith;
}

add-add_record :
    (c : Cpio) (i : Item)
    → let e = entry_of i in add c i ≡ add_record c e.name e.mode e.content e.major e.minor
unfolding dir file symlink char_dev
add-add_record c (of_dir name mode) = refl
add-add_record c (of_file name content mode) = refl
add-add_record c (of_symlink name target) = refl
add-add_record c (of_char_dev name mode major minor) = refl

add-aligned : (c : Cpio) (i : Item) → length (add c i).buf % 4 ≡ 0
unfolding add_record
add-aligned c i = rw (add-add_record c i) (length-pad4 _)

buf-add :
    (c : Cpio) (i : Item) (rest : List ℕ)
    → length c.buf % 4 ≡ 0
    → (add c i).buf ++ rest ≡ c.buf ++ bytes (wrapping_add 32 c.ino 1) 1 (entry_of i) rest
buf-add c i rest h = rw (add-add_record c i) (buf-add_record c (entry_of i) rest h)

finish_gz-add_all :
    (items : List Item) (c : Cpio)
    → length c.buf % 4 ≡ 0
    → All Fits (map entry_of items)
    → (t : List ℕ) × (finish_gz (add_all c items) ≡ c.buf ++ t)
      × IsArchive t (map entry_of items ++ (last_entry ∷ []))
finish_gz-add_all [] c h fits = (
  bytes 0 1 last_entry [],
  finish_lem c h,
  next last_entry (bytes 0 1 last_entry []) [] [] refl
      (read_entry-bytes 0 1 last_entry [] last_entry-Fits) done,
)
finish_gz-add_all (i ∷ is) c h fits =
    let e = entry_of i in
    let (t, whole, reads) = finish_gz-add_all is (add c i) (add-aligned c i) fits.1 in
    (
      bytes (wrapping_add 32 c.ino 1) 1 e t,
      whole ∙ buf-add c i t h,
      next e (bytes (wrapping_add 32 c.ino 1) 1 e t) t (map entry_of is ++ (last_entry ∷ [])) refl
          (read_entry-bytes (wrapping_add 32 c.ino 1) 1 e t fits.0) reads,
    )

-- An initramfs of any directories, files, links and devices, whose sizes and numbers fit in a u32, is read
-- back by a reader of the format as those entries in that order with their contents, and then the trailer,
-- with no byte left.
pub finish_gz-IsArchive :
    (items : List Item)
    → All Fits (map entry_of items)
    → IsArchive (finish_gz (add_all new items)) (map entry_of items ++ (last_entry ∷ []))
finish_gz-IsArchive items fits =
    let (t, whole, reads) = finish_gz-add_all items new refl fits in rw whole reads
