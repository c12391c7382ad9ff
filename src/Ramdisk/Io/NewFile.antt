-- ===== src/Ramdisk/Io/NewFile.antt =====
-- A write under a name that is not there makes the file, and the file is read back.
use osprograms.Base.{
  ℕ, ◌^◌, ◌<◌, ◌≡◌, refl, sym, ap, ◌∙◌, true, none, some, List, [], ◌∷◌, ◌++◌, length, get_elem?,
  drop, get_elem?-set_self, get_elem?-lt, All-get, Str,
}
use osprograms.Run.{ok}
use osprograms.Ramdisk.Disk.{Block, Disk, ret}
use osprograms.Ramdisk.Tree.{Ptr, deref, get_file_present_at_dir}
use osprograms.Ramdisk.Tree.Laws.{IsNode}
use osprograms.Ramdisk.Blocks.{get_next_free_block_index}
use osprograms.Ramdisk.Blocks.Table.{IsBlock, IsTable}
use osprograms.Ramdisk.Files.{fits_name, descriptor, pb_openfd}
use osprograms.Ramdisk.Files.Resolve.{Resolves}
use osprograms.Ramdisk.Files.Laws.{find_file-created}
use osprograms.Ramdisk.Files.Full.{new_file}
use osprograms.Ramdisk.Files.Create.{Made, open_or_create-Made, Made-Resolves}
use osprograms.Ramdisk.Io.{pb_write}
use osprograms.Ramdisk.Io.Read.{pb_read}
use osprograms.Ramdisk.Io.Contents.{IsText}
use osprograms.Ramdisk.Io.Stored.{Holds, pb_openfd-Holds, pb_read-pb_write}

module _ (n : ℕ) (path name : Str) (curr : Ptr) (s : Disk) (h : IsNode s.root) (table : IsTable n s)
    (r : Resolves path s.root curr name) (fits : fits_name name ≡ true)
    (missing : get_file_present_at_dir (deref curr s.root) name ≡ none) (i : ℕ)
    (free : get_next_free_block_index s.blocks ≡ some i) (b : Block)
    (there : get_elem? s.blocks i ≡ some b) where
  -- The file that opening makes has the first free block, with what that block held.
  Made-Holds :
      (t : Disk)
      → Made n path name curr s h table r fits missing i free t
      → Holds path name curr i b.block_content t
  Made-Holds t m = record {
    resolves = Made-Resolves n path name curr s h table r fits missing i free t m;
    file = new_file name (some i);
    found = find_file-created path name curr s h r i t m.made;
    first = refl;
    block = record m.block { status = 1; next_block = none };
    there = rw m.claimed (get_elem?-set_self s.blocks i _ (get_elem?-lt s.blocks i b there));
    content_is = ap (λ o. elim o [ some x ↦ x.block_content | none ↦ [] ]) (sym m.was ∙ there);
    alone = refl;
    full = (All-get (IsBlock n) s.blocks i b table.blocks there).1;
  }

  -- Where the path leads to a directory that has no file of its name, the name fits, the table is
  -- safe, and the first free block holds a NUL behind the length of a text, `pb_write` of the text
  -- makes the file and returns the text's length, and `pb_read` from 0 into a longer buffer then
  -- returns that length and writes the text, and a NUL, into it.
  pub pb_read-pb_write_new :
      (text tail : List ℕ)
      → IsText text
      → drop (length text) b.block_content ≡ 0 ∷ tail
      → (size : ℕ) → length text < size
      → size < 2 ^ 64
      → (t : Disk) × (pb_write path text (length text) 0 s ≡ ok (ret (length text)) t)
        × (pb_read path size 0 t
            ≡ ok (record { code = ret (length text); bytes = text ++ (0 ∷ []) }) t)
  unfolding pb_write pb_openfd
  pb_read-pb_write_new text tail plain ended size more word =
      let (u, e, m) =
        open_or_create-Made n path name curr s h table r fits missing i free descriptor in
      let k = Made-Holds u m in
      let (t, w, back) =
        pb_read-pb_write path name curr i [] text b.block_content tail u k ended tt plain size more
          word in
      (t, rw e (rw (pb_openfd-Holds path name curr i b.block_content u k) at w), back)
