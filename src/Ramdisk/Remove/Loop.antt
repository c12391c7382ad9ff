-- ===== src/Ramdisk/Remove/Loop.antt =====
-- The loop of `pb_rmdir` over the files of the directory.
use mathlib.Core.Path.{fun_ext}
use osprograms.Base.{
  ℕ, zero, suc, ◌<◌, ◌≡◌, refl, sym, ap, ◌∙◌, some, List, [], ◌∷◌, arith, ◌==◌, if◌then◌else◌,
  lt→ltb, length, All, Str, str_eq_refl,
}
use osprograms.Ramdisk.Paths.{root_path, join, IsName}
use osprograms.Ramdisk.Tree.{
  File, Directory, null, node, filein_dir, with_files, Ptr, deref, modify, traverse_to_dir,
}
use osprograms.Ramdisk.Tree.Laws.{
  deref-modify, modify-modify, modify-fixed, IsNode, IsNode→ne_null, traverse_to_dir-IsValid,
}
use osprograms.Ramdisk.Disk.{Disk}
use osprograms.Run.Returns.{Returns, returns, bind, mono}
use osprograms.Run.Returns
use osprograms.Ramdisk.Blocks.Table.{LinkIn}
use osprograms.Ramdisk.Blocks.Free.{free_subsequent_blocks-Freed}
use osprograms.Ramdisk.Files.{take_file, unlink_entry, pb_unlink}
use osprograms.Ramdisk.Files.Resolve.{with_parent-Resolves, Resolves-join}
use osprograms.Ramdisk.Safe.{IsBacked, IsSafe}
use osprograms.Ramdisk.Safe.Tree.{
  AllFiles-modify, AllFiles-deref, All-filein_dir, AllFiles-with_files, IsNode-modify,
  IsNode-with_files,
}
use osprograms.Ramdisk.Remove.{path_room, remove_files}
use osprograms.Ramdisk.Tree.Stable.{traverse_to_dir-modify}
use osprograms.Ramdisk.Files.Laws.{KeepsSpine-with_files}

-- The file's path, which the handler writes to `filePath`, fits and names the file.
abbrev pub IsEntry : Str → File → Type 0
IsEntry path f = IsName f.file_name × (length (join path f.file_name) < path_room)

with_files-with_files :
    (fs gs : List File) (d : Directory) → with_files fs (with_files gs d) ≡ with_files fs d
with_files-with_files fs gs null = refl
with_files-with_files fs gs (node n s b hs) = refl

filein_dir-with_files :
    (fs : List File) (d : Directory) → IsNode d → filein_dir (with_files fs d) ≡ fs
filein_dir-with_files fs null h = absurd h
filein_dir-with_files fs (node n s b gs) h = refl

with_files-same : (fs : List File) (d : Directory) → filein_dir d ≡ fs → with_files fs d ≡ d
with_files-same fs null h = refl
with_files-same fs (node n s b gs) h = ap (λ x. node n s b x) (sym h)

take_file-first : (f : File) (fs : List File) → take_file f.file_name (f ∷ fs) ≡ some (f, fs)
unfolding take_file
take_file-first f fs = rw (str_eq_refl f.file_name)

module _ (n : ℕ) (path : Str) (long : 0 < length path) (dir : Ptr) where
  -- One round: the first file of the directory is unlinked through its path.
  unlink_first :
      (f : File) (files : List File) (s : Disk)
      → IsSafe n s
      → traverse_to_dir path s.root ≡ some dir
      → filein_dir (deref dir s.root) ≡ f ∷ files
      → IsEntry path f
      → Returns
          (λ _ t. IsSafe n t × (t.root ≡ modify dir (with_files files) s.root))
          (pb_unlink (join path f.file_name) s)
  unfolding pb_unlink unlink_entry
  unlink_first f files s h walk here entry =
      let parent : (if length path == 0 then root_path else path) ≡ path = ground arith in
      let r = Resolves-join path f.file_name s.root dir entry.0 (rw parent walk) in
      let all =
        rw here at
          (All-filein_dir (IsBacked n) _ (AllFiles-deref (IsBacked n) dir s.root h.files)) in
      rw (with_parent-Resolves s unlink_entry r) (
        rw (here, unlink_entry)
          (rw (take_file-first f files, unlink_entry)
            (Returns.bind (free_subsequent_blocks-Freed n f.first_block s h.table (linked all.0))
              λ _ u (d, _). returns (
                record {
                  table = record {
                    size = d.table.size;
                    blocks = d.table.blocks;
                    fresh = d.table.fresh;
                  };
                  root = IsNode-modify dir _ u.root (IsNode-with_files files) (rw d.root h.root);
                  files =
                      AllFiles-modify (IsBacked n) dir _ u.root
                        (λ x. AllFiles-with_files (IsBacked n) files x all.1) (rw d.root h.files);
                },
                rw d.root refl,
              ))))
    where
      linked : IsBacked n f → LinkIn n f.first_block
      linked b = ground arith

  pub dir-IsNode :
      (s : Disk) → IsSafe n s → traverse_to_dir path s.root ≡ some dir → IsNode (deref dir s.root)
  dir-IsNode s h walk = rw walk at (traverse_to_dir-IsValid path s.root h.root)

  modify_twice :
      (files : List File) (d : Directory)
      → modify dir (with_files []) (modify dir (with_files files) d) ≡ modify dir (with_files []) d
  modify_twice files d =
      modify-modify dir _ _ d ∙ ap (λ g. modify dir g d) (fun_ext (with_files-with_files [] files))

  -- The loop over the files removes them all.
  pub remove_files-empty :
      (files : List File) (fuel : ℕ) (s : Disk)
      → IsSafe n s
      → traverse_to_dir path s.root ≡ some dir
      → filein_dir (deref dir s.root) ≡ files
      → All (IsEntry path) files
      → length files < fuel
      → Returns
          (λ _ t. IsSafe n t × (t.root ≡ modify dir (with_files []) s.root))
          (remove_files fuel path dir s)
  unfolding remove_files
  remove_files-empty files zero s h walk here entries enough = absurd (omega arith)
  remove_files-empty [] (suc fuel) s h walk here entries enough =
      rw (here, remove_files)
        (returns (h, sym (modify-fixed dir _ s.root (with_files-same [] _ here))))
  remove_files-empty (f ∷ files) (suc fuel) s h walk here entries enough =
      rw (here, remove_files)
        (rw (lt→ltb _ _ entries.0.1) (
          Returns.bind (unlink_first f files s h walk here entries.0) λ _ t (k, e).
            Returns.mono
              (remove_files-empty files fuel t k
                (rw e (traverse_to_dir-modify _ (KeepsSpine-with_files files) path s.root dir walk))
                (rw e (
                  rw (deref-modify dir _ s.root (IsNode→ne_null _ (dir-IsNode s h walk)))
                    (filein_dir-with_files files _ (dir-IsNode s h walk))))
                entries.1 (omega arith))
              λ _ u (j, e'). (j, e' ∙ rw e (modify_twice files s.root))))
