-- ===== src/Ramdisk/Tests.antt =====
-- The theorems at disks of 1 MB and of no block, and runs of the handlers.
mod Remove
mod Contents
use osprograms.Base.{
  ℕ, ◌+◌, ◌*◌, ◌%◌, ◌^◌, ◌≤◌, ◌<◌, ◌≡◌, refl, ◌⊎◌, true, none, some, List, [], ◌∷◌, arith, length,
  replicate, length-replicate, Str, codes, strrchr,
}
use osprograms.Ramdisk.Init.{empty_blocks, with_blocks, initialize_file_system}
use osprograms.Ramdisk.Safe.Init.{with_blocks-IsSafe, Formatted, initialize_file_system-Formatted}
use osprograms.Ramdisk.Disk.{block_size, Disk, ret, enoent, enospc}
use osprograms.Ramdisk.Io.{in_first, after_first, is_cut_defined, in_last, pb_write}
use osprograms.Ramdisk.Paths.{root_path, get_file_dir_name, get_parent_path}
use osprograms.Ramdisk.Tree.{deref, traverse_to_dir, find_file, get_file_present_at_dir}
use osprograms.Ramdisk.Tree.Laws.{IsNode}
use osprograms.Run.{ok}
use osprograms.Ramdisk.Serve.{Request, mkdir, opens, unlink, write, serve}
use osprograms.Ramdisk.Safe.Serve.{Served, serve-initialize_file_system}
use osprograms.Run.Returns.{Returns}
use osprograms.Ramdisk.Blocks.{get_next_free_block_index, free_subsequent_blocks}
use osprograms.Ramdisk.Blocks.Table.{IsTable}
use osprograms.Ramdisk.Blocks.Free.{Freed, IsFree, free_subsequent_blocks-Freed}
use osprograms.Ramdisk.Files.{pb_mkdir, pb_unlink, descriptor, open_or_create, pb_openfd}
use osprograms.Ramdisk.Files.Resolve.{Resolves}
use osprograms.Ramdisk.Files.Laws.{pb_getattr-pb_mkdir}
use osprograms.Ramdisk.Files.Full.{open_or_create-full}
use osprograms.Ramdisk.Files.Create.{pb_unlink-pb_openfd}
use osprograms.Ramdisk.Attributes.{directory_stat, pb_getattr}
use osprograms.Ramdisk.Io.Cut.{cut_total}
use osprograms.Ramdisk.Safe.{IsSafe}
use osprograms.Ramdisk.Safe.Entries.{NameFits}
use osprograms.Ramdisk.Safe.Write.{pb_write-Written}

-- Arrays of zeros.
abbrev zeros : ℕ → List ℕ
zeros i = replicate block_size 0

length-zeros : (i : ℕ) → length (zeros i) ≡ block_size
length-zeros i = length-replicate {A = ℕ} block_size 0

abbrev disk : Disk
disk = with_blocks 256 zeros

-- A disk with no block.
abbrev full_disk : Disk
full_disk = with_blocks 0 zeros

abbrev name : Str
name = codes "f"

abbrev path : Str
path = codes "/f"

path_names : get_file_dir_name path ≡ some name
unfolding get_file_dir_name strrchr
path_names = refl

path-NameFits : NameFits path
path-NameFits other e = ground (arith, path_names)

path-Resolves : (n : ℕ) → Resolves path (with_blocks n zeros).root [] name
unfolding get_parent_path get_file_dir_name strrchr traverse_to_dir with_blocks
path-Resolves n = record { parent = root_path; parent_path = refl; entry_name = refl; walk = refl }

disk-IsNode : (n : ℕ) → IsNode (with_blocks n zeros).root
unfolding with_blocks
disk-IsNode n = tt

missing : (n : ℕ) → get_file_present_at_dir (deref [] (with_blocks n zeros).root) name ≡ none
unfolding with_blocks get_file_present_at_dir find_file deref
missing n = refl

free : get_next_free_block_index disk.blocks ≡ some 0
unfolding with_blocks get_next_free_block_index empty_blocks
free = refl

initialize_file_system-Formatted_example :
    ((1 < 2 ^ 21) × (d : Disk) × (initialize_file_system 1 zeros ≡ some d) × Formatted 1 d)
    ⊎ ((2 ^ 21 ≤ 1) × (initialize_file_system 1 zeros ≡ none))
initialize_file_system-Formatted_example = initialize_file_system-Formatted 1 zeros length-zeros

disk-IsSafe : IsSafe 256 disk
disk-IsSafe = (with_blocks-IsSafe 256 zeros length-zeros)

pb_write-Written_example :
    Returns
      (λ r t. IsSafe 256 t × ((r ≡ ret 3) ⊎ ((r ≡ enospc) ⊎ (r ≡ enoent))))
      (pb_write path (codes "abc") 3 0 disk)
pb_write-Written_example =
    pb_write-Written 256 path (codes "abc") 0 disk path-NameFits (omega arith) disk-IsSafe

open_or_create-full_example : open_or_create descriptor path full_disk ≡ ok enospc full_disk
open_or_create-full_example =
    open_or_create-full descriptor path name [] full_disk (disk-IsNode 0) (path-Resolves 0) refl
      (missing 0) no_block
  where
    no_block : get_next_free_block_index full_disk.blocks ≡ none
    no_block = unfold with_blocks get_next_free_block_index empty_blocks in refl

pb_unlink-pb_openfd_example :
    (t : Disk) × (pb_openfd path disk ≡ ok (ret 0) t)
    × Returns
        (λ c u. (c ≡ ret 0) × (u.root ≡ disk.root) × IsFree u (some 0) × IsTable 256 u)
        (pb_unlink path t)
pb_unlink-pb_openfd_example =
    pb_unlink-pb_openfd 256 path name [] disk (disk-IsNode 256) disk-IsSafe.table
      (path-Resolves 256) refl (missing 256) 0 free

pb_getattr-pb_mkdir_example :
    (t : Disk) × (pb_mkdir path disk ≡ ok (ret 0) t)
    × (pb_getattr path t ≡ ok (some (directory_stat 1)) t)
pb_getattr-pb_mkdir_example =
    pb_getattr-pb_mkdir path name [] disk (disk-IsNode 256) (path-Resolves 256) refl refl

free_subsequent_blocks-Freed_example :
    Returns (λ _ t. Freed 256 disk t × IsFree t (some 7)) (free_subsequent_blocks (some 7) disk)
free_subsequent_blocks-Freed_example =
    free_subsequent_blocks-Freed 256 (some 7) disk disk-IsSafe.table (omega arith)

cut_total_example :
    (is_cut_defined 9000 100 ≡ true)
    × (in_first 9000 100 + (block_size * after_first 9000 100 + in_last 9000 100) ≡ 9000)
    × (100 % block_size + in_first 9000 100 ≤ block_size)
    × (in_last 9000 100 < block_size)
cut_total_example = cut_total 9000 100 (omega arith)

abbrev requests : List Request
requests = mkdir path ∷ write path (codes "abc") 0 ∷ unlink path ∷ opens (codes "/f/f") ∷ []

inner-NameFits : NameFits (codes "/f/f")
inner-NameFits other e = ground (arith, inner_names)
  where
    inner_names : get_file_dir_name (codes "/f/f") ≡ some name
    inner_names = unfold get_file_dir_name strrchr in refl

serve-initialize_file_system_example :
    (d : Disk) × (initialize_file_system 1 zeros ≡ some d)
    × Returns (Served 256 requests) (serve requests d)
serve-initialize_file_system_example =
    serve-initialize_file_system 1 zeros requests length-zeros (omega arith)
      (path-NameFits, ((path-NameFits, omega arith), (tt, (inner-NameFits, tt))))
