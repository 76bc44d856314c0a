-- ===== src/Cpio/Tests.antt =====
-- crates/amber-image/src/cpio.rs: an initramfs with a directory, a script, a link and the console.
use amber.Prelude.{List, [], ◌∷◌, ◌++◌, map, arith, All}
use amber.Cpio.{new, finish_gz}
use amber.Cpio.Entries.{Fits}
use amber.Cpio.Archive.{
  Item, of_dir, of_file, of_symlink, of_char_dev, add_all, entry_of, last_entry, IsArchive,
  finish_gz-IsArchive,
}

abbrev items : List Item
items =
    of_dir (100 ∷ 101 ∷ 118 ∷ []) 493
    ∷ of_file (105 ∷ 110 ∷ 105 ∷ 116 ∷ []) (35 ∷ 33 ∷ 10 ∷ []) 493
    ∷ of_symlink (115 ∷ 104 ∷ []) (105 ∷ 110 ∷ 105 ∷ 116 ∷ [])
    ∷ of_char_dev (99 ∷ []) 384 5 1
    ∷ []

items-Fits : All Fits (map entry_of items)
items-Fits = (
  record {
    name_fits = omega arith;
    mode_fits = omega arith;
    content_fits = omega arith;
    major_fits = omega arith;
    minor_fits = omega arith;
  },
  (
    record {
      name_fits = omega arith;
      mode_fits = omega arith;
      content_fits = omega arith;
      major_fits = omega arith;
      minor_fits = omega arith;
    },
    (
      record {
        name_fits = omega arith;
        mode_fits = omega arith;
        content_fits = omega arith;
        major_fits = omega arith;
        minor_fits = omega arith;
      },
      (
        record {
          name_fits = omega arith;
          mode_fits = omega arith;
          content_fits = omega arith;
          major_fits = omega arith;
          minor_fits = omega arith;
        },
        tt,
      ),
    ),
  ),
)

finish_gz-IsArchive_example :
    IsArchive (finish_gz (add_all new items)) (map entry_of items ++ (last_entry ∷ []))
finish_gz-IsArchive_example = finish_gz-IsArchive items items-Fits
