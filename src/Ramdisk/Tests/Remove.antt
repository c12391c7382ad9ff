-- ===== src/Ramdisk/Tests/Remove.antt =====
-- The theorems on `pb_rmdir` at a directory with a file, and at one with a subdirectory.
use osprograms.Ramdisk.Init.{with_blocks}
use osprograms.Ramdisk.Safe.Init.{with_blocks-IsSafe}
use osprograms.Base.{
  ℕ, ◌≡◌, refl, some, List, [], ◌∷◌, arith, length, replicate, length-replicate, Str, codes,
  strrchr, tokens_from, strtok,
}
use osprograms.Ramdisk.Paths.{root_path, get_file_dir_name, get_parent_path}
use osprograms.Ramdisk.Tree.{
  File, Directory, null, node, down, deref, enter, traverse_tokens, traverse_to_dir, first_named,
}
use osprograms.Run.{fault}
use osprograms.Ramdisk.Disk.{block_size, Disk, ret}
use osprograms.Run.Returns.{Returns}
use osprograms.Ramdisk.Files.Resolve.{Resolves}
use osprograms.Ramdisk.Safe.{IsSafe}
use osprograms.Ramdisk.Remove.{pb_rmdir}
use osprograms.Ramdisk.Remove.Empty.{remaining, pb_rmdir-remaining}
use osprograms.Ramdisk.Remove.Nested.{pb_rmdir-only_child}

abbrev zeros : ℕ → List ℕ
zeros i = replicate block_size 0

length-zeros : (i : ℕ) → length (zeros i) ≡ block_size
length-zeros i = length-replicate {A = ℕ} block_size 0

abbrev table : Disk
table = with_blocks 256 zeros

abbrev with_root : Directory → Disk
with_root d = record table { root = d }

abbrev path : Str
path = codes "/d"

-- `/d` holds the file `f`.
abbrev holding_file : Disk
holding_file = with_root (
    node root_path
      (node (codes "d") null null (record { file_name = codes "f"; first_block = some 3 } ∷ []))
      null [])

-- `/d` holds the directory `c`, which is empty.
abbrev holding_directory : Disk
holding_directory =
    with_root (node root_path (node (codes "d") (node (codes "c") null null []) null []) null [])

holding_file-IsSafe : IsSafe 256 holding_file
holding_file-IsSafe =
    let t = (with_blocks-IsSafe 256 zeros length-zeros).table in
    record {
      table = record { size = t.size; blocks = t.blocks; fresh = t.fresh };
      root = tt;
      files = ((tt, tt, (omega arith, tt)), tt, tt);
    }

path-Resolves :
    (s b : Directory) (fs gs : List File)
    → Resolves path (node root_path (node (codes "d") s null fs) b gs) [] (codes "d")
unfolding get_parent_path get_file_dir_name strrchr traverse_to_dir
path-Resolves s b fs gs = record {
  parent = root_path;
  parent_path = refl;
  entry_name = refl;
  walk = refl;
}

path-walk :
    (s : Directory) (fs : List File)
    → traverse_to_dir path (node root_path (node (codes "d") s null fs) null []) ≡ some (down ∷ [])
unfolding traverse_to_dir traverse_tokens enter strtok tokens_from
path-walk s fs = refl

path-found :
    (s : Directory) (fs : List File)
    → first_named (codes "d") (node (codes "d") s null fs) ≡ some []
unfolding first_named
path-found s fs = refl

pb_rmdir-remaining_example :
    Returns
      (λ c u. (c ≡ ret 0) × IsSafe 256 u × (u.root ≡ remaining (codes "d") [] holding_file.root))
      (pb_rmdir 3 path holding_file)
unfolding deref
pb_rmdir-remaining_example =
    pb_rmdir-remaining 256 path (codes "d") [] [] holding_file holding_file-IsSafe
      (path-Resolves _ _ _ _) (path-found _ _) 2 (omega arith) (path-walk _ _) refl
      (((refl, omega arith), omega arith), tt) (omega arith)

pb_rmdir-only_child_example : pb_rmdir 3 path holding_directory ≡ fault
unfolding deref
pb_rmdir-only_child_example =
    pb_rmdir-only_child path (codes "d") (codes "c") [] [] holding_directory 0 tt
      (path-Resolves _ _ _ _) (path-found _ _) (omega arith) (path-walk _ _) refl refl
      (refl, omega arith) (omega arith)
