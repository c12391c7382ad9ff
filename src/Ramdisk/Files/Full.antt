-- ===== src/Ramdisk/Files/Full.antt =====
-- Opening a new file on a full disk.
use osprograms.Base.{ℕ, ◌≡◌, refl, ap, ◌∙◌, true, Option, none, some, List, ◌∷◌, Str, str_eq_refl}
use osprograms.Run.{ok}
use osprograms.Ramdisk.Disk.{Disk, Ret, ret, enospc}
use osprograms.Ramdisk.Tree.{
  File, Directory, null, node, filein_dir, with_files, Ptr, deref, modify, get_file_present_at_dir,
}
use osprograms.Ramdisk.Tree.Laws.{
  deref-modify, modify-modify, modify-fixed, skeleton, skeleton-modify, IsNode, IsNode→ne_null,
}
use osprograms.Ramdisk.Blocks.Free.{free_subsequent_blocks-none}
use osprograms.Ramdisk.Blocks.{get_next_free_block_index}
use osprograms.Ramdisk.Files.{
  fits_name, take_file, unlink_entry, pb_unlink, add_file, give_block, create_file, open_entry,
  open_or_create,
}
use osprograms.Ramdisk.Files.Resolve.{
  Resolves, with_parent-Resolves, Resolves-IsNode, Resolves-skeleton,
}

abbrev pub new_file : Str → Option ℕ → File
new_file name first = record { file_name = name; first_block = first }

pub skeleton-add_file : (f : File) (d : Directory) → skeleton (add_file f d) ≡ skeleton d
unfolding skeleton add_file
skeleton-add_file f null = refl
skeleton-add_file f (node n s b fs) = refl

pub skeleton-with_files : (fs : List File) (d : Directory) → skeleton (with_files fs d) ≡ skeleton d
unfolding skeleton
skeleton-with_files fs null = refl
skeleton-with_files fs (node n s b gs) = refl

pub with_files-add_file : (f : File) (d : Directory) → with_files (filein_dir d) (add_file f d) ≡ d
unfolding add_file
with_files-add_file f null = refl
with_files-add_file f (node n s b fs) = refl

pub filein_dir-add_file :
    (f : File) (d : Directory) → IsNode d → filein_dir (add_file f d) ≡ f ∷ filein_dir d
unfolding add_file
filein_dir-add_file f null h = absurd h
filein_dir-add_file f (node n s b fs) h = refl

pub take_file-head :
    (name : Str) (first : Option ℕ) (files : List File)
    → take_file name (new_file name first ∷ files) ≡ some (new_file name first, files)
unfolding take_file
take_file-head name first files = rw (str_eq_refl name)

-- Unlinking a file that has just been put in front, and that has no block, takes back the insertion.
unlink-add_file :
    (path name : Str) (curr : Ptr) (s : Disk)
    → IsNode s.root
    → Resolves path s.root curr name
    → pb_unlink path (record s { root = modify curr (add_file (new_file name none)) s.root })
      ≡ ok (ret 0) s
unfolding pb_unlink unlink_entry
unlink-add_file path name curr s h r =
    let f = new_file name none in
    let node = Resolves-IsNode h r in
    let r' = Resolves-skeleton (skeleton-modify curr (add_file f) s.root (skeleton-add_file f)) r in
    let back =
      modify-modify curr (with_files (filein_dir (deref curr s.root))) (add_file f) s.root
      ∙ modify-fixed curr (λ d. with_files (filein_dir (deref curr s.root)) (add_file f d)) s.root
          (with_files-add_file f (deref curr s.root)) in
    rw (with_parent-Resolves (record s { root = modify curr (add_file f) s.root }) unlink_entry r')
      (rw (deref-modify curr (add_file f) s.root (IsNode→ne_null _ node), unlink_entry)
        (rw (filein_dir-add_file f _ node) (
          rw (take_file-head name none, unlink_entry)
            (rw free_subsequent_blocks-none (ap (λ d. ok (ret 0) (record s { root = d })) back)))))

module _ (answer : Option ℕ → Ret) (path name : Str) (curr : Ptr) (s : Disk) (h : IsNode s.root)
    (r : Resolves path s.root curr name) where
  pub create_file-full :
      fits_name name ≡ true
      → get_next_free_block_index s.blocks ≡ none
      → create_file answer path curr name s ≡ ok enospc s
  unfolding create_file give_block
  create_file-full fits full =
      rw fits (rw (full, give_block) (rw (unlink-add_file path name curr s h r)))

  -- Where the path leads to a directory, the name fits, the file is not there and the disk is full,
  -- opening it returns ENOSPC, and the state is
  -- what it was: the entry that was linked for it is gone again.
  pub open_or_create-full :
      fits_name name ≡ true
      → get_file_present_at_dir (deref curr s.root) name ≡ none
      → get_next_free_block_index s.blocks ≡ none
      → open_or_create answer path s ≡ ok enospc s
  unfolding open_or_create open_entry
  open_or_create-full fits missing full =
      rw (with_parent-Resolves s (open_entry answer path) r)
        (rw (missing, open_entry) (create_file-full fits full))
