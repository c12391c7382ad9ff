-- ===== src/Ramdisk/Tests/Contents.antt =====
-- The theorems on the contents of a file at a disk of 1 MB, empty and with a file.
use osprograms.Ramdisk.Io.Stored.{pb_read-text}
use osprograms.Ramdisk.Io.Stored.{
  regular_stat, Holds, pb_read-full, pb_read-pb_write, pb_getattr-pb_write,
}
use osprograms.Ramdisk.Init.{empty_blocks, with_blocks}
use osprograms.Ramdisk.Safe.Init.{with_blocks-IsSafe}
use osprograms.Ramdisk.Blocks.Table.{occupied}
use osprograms.Base.{
  ℕ, zero, suc, ◌≡◌, refl, none, some, List, [], ◌∷◌, ◌++◌, arith, length, get_elem?, replicate,
  length-replicate, Str, codes, strrchr,
}
use osprograms.Run.Returns.{Returns}
use osprograms.Ramdisk.Io.Rewrite.{Rewritten, pb_write-Stores}
use osprograms.Ramdisk.Safe.{IsSafe}
use osprograms.Run.{ok, fault}
use osprograms.Ramdisk.Paths.{root_path, get_file_dir_name, get_parent_path}
use osprograms.Ramdisk.Tree.{
  File, null, node, deref, traverse_to_dir, first_named, get_dir_present_at_dir, find_file,
  get_file_present_at_dir,
}
use osprograms.Ramdisk.Disk.{block_size, Block, Disk, ret}
use osprograms.Ramdisk.Blocks.{next_free, get_next_free_block_index}
use osprograms.Ramdisk.Files.Resolve.{Resolves}
use osprograms.Ramdisk.Attributes.{pb_getattr}
use osprograms.Ramdisk.Io.{pb_write}
use osprograms.Ramdisk.Io.Read.{pb_read}
use osprograms.Ramdisk.Io.Contents.{IsText}
use osprograms.Ramdisk.Io.NewFile.{pb_read-pb_write_new}

abbrev zeros : ℕ → List ℕ
zeros i = replicate block_size 0

length-zeros : (i : ℕ) → length (zeros i) ≡ block_size
length-zeros i = length-replicate {A = ℕ} block_size 0

abbrev disk : Disk
disk = with_blocks 256 zeros

disk-IsSafe : IsSafe 256 disk
disk-IsSafe = (with_blocks-IsSafe 256 zeros length-zeros)

abbrev name : Str
name = codes "f"

abbrev path : Str
path = codes "/f"

abbrev empty_block : Block
empty_block = record { next_block = none; block_content = zeros 0; status = 0 }

path-Resolves : Resolves path disk.root [] name
unfolding get_parent_path get_file_dir_name strrchr traverse_to_dir with_blocks
path-Resolves = record { parent = root_path; parent_path = refl; entry_name = refl; walk = refl }

first_block : get_elem? disk.blocks 0 ≡ some empty_block
unfolding with_blocks empty_blocks
first_block = refl

pb_read-pb_write_new_example :
    (t : Disk) × (pb_write path (codes "abc") 3 0 disk ≡ ok (ret 3) t)
    × (pb_read path 50 0 t ≡ ok (record { code = ret 3; bytes = codes "abc" ++ (0 ∷ []) }) t)
pb_read-pb_write_new_example =
    pb_read-pb_write_new 256 path name [] disk (disk-IsSafe.root) disk-IsSafe.table path-Resolves
      refl missing 0 free empty_block first_block (codes "abc") (replicate 4092 0)
      (refl, (refl, (refl, tt))) refl 50 (omega arith) (omega arith)
  where
    missing : get_file_present_at_dir (deref [] disk.root) name ≡ none
    missing = unfold with_blocks get_file_present_at_dir find_file deref in refl

    free : get_next_free_block_index disk.blocks ≡ some 0
    free = unfold with_blocks get_next_free_block_index empty_blocks next_free in refl

-- `/f` holds the text "ab" in the block 0.
abbrev rest : List ℕ
rest = replicate 4094 0

abbrev used_block : Block
used_block = record { next_block = none; block_content = codes "ab" ++ rest; status = 1 }

abbrev file : File
file = record { file_name = name; first_block = some 0 }

abbrev used : Disk
used = record {
  root = node root_path null null (file ∷ []);
  blocks = used_block ∷ [];
  fresh = zeros;
}

used-Holds : Holds path name [] 0 (codes "ab" ++ rest) used
used-Holds = record {
  resolves =
      unfold get_parent_path get_file_dir_name strrchr traverse_to_dir in
      record { parent = root_path; parent_path = refl; entry_name = refl; walk = refl };
  file = file;
  found = unfold get_file_present_at_dir find_file deref in refl;
  first = refl;
  block = used_block;
  there = refl;
  content_is = refl;
  alone = refl;
  full = refl;
}

pb_read-pb_write_example :
    (t : Disk) × (pb_write path (codes "c") 1 2 used ≡ ok (ret 1) t)
    × (pb_read path 50 0 t ≡ ok (record { code = ret 3; bytes = codes "abc" ++ (0 ∷ []) }) t)
pb_read-pb_write_example =
    pb_read-pb_write path name [] 0 (codes "ab") (codes "c") rest (replicate 4092 0) used used-Holds
      refl (refl, (refl, tt)) (refl, tt) 50 (omega arith) (omega arith)

pb_read-text_example :
    pb_read path 50 1 used ≡ ok (record { code = ret 2; bytes = codes "ab" ++ (0 ∷ []) }) used
pb_read-text_example =
    pb_read-text path name [] 0 (codes "ab") (replicate 4093 0) used used-Holds (refl, (refl, tt))
      50 1 (omega arith) (omega arith) (omega arith)

pb_getattr-pb_write_example :
    (t : Disk) × (pb_write path (codes "c") 1 2 used ≡ ok (ret 1) t)
    × (pb_getattr path t ≡ ok (some (regular_stat 3)) t)
pb_getattr-pb_write_example =
    pb_getattr-pb_write path name [] 0 (codes "ab") (codes "c") rest (replicate 4092 0) used
      used-Holds refl (refl, (refl, tt)) (refl, tt) no_directory refl
  where
    no_directory : get_dir_present_at_dir (deref [] used.root) name ≡ none
    no_directory = unfold get_dir_present_at_dir first_named deref in refl

abbrev long_text : List ℕ
long_text = replicate block_size 97

IsText-replicate : (n : ℕ) → IsText (replicate n 97)
IsText-replicate zero = tt
IsText-replicate (suc n) = (refl, IsText-replicate n)

long-length : length long_text ≡ block_size
long-length = length-replicate {A = ℕ} block_size 97

pb_read-full_example :
    (t : Disk) × (pb_write path long_text (length long_text) 0 used ≡ ok (ret (length long_text)) t)
    × (pb_read path 50 0 t ≡ fault)
pb_read-full_example =
    pb_read-full path name [] 0 long_text (codes "ab" ++ rest) used used-Holds
      (IsText-replicate block_size) long-length 50

-- `/f` holds the text "ab" in the block 0, and there is one more block.
abbrev roomy : Disk
roomy = record used { blocks = used_block ∷ empty_block ∷ [] }

roomy-Holds : Holds path name [] 0 (codes "ab" ++ rest) roomy
roomy-Holds = record {
  resolves = used-Holds.resolves;
  file = file;
  found = unfold get_file_present_at_dir find_file deref in refl;
  first = refl;
  block = used_block;
  there = refl;
  content_is = refl;
  alone = refl;
  full = refl;
}

roomy-IsSafe : IsSafe 2 roomy
roomy-IsSafe = record {
  table = record { size = refl; blocks = ((tt, refl), ((tt, refl), tt)); fresh = length-zeros };
  root = tt;
  files = (tt, tt, (omega arith, tt));
}

abbrev longer_text : List ℕ
longer_text = replicate 5000 97

longer-length : length longer_text ≡ 5000
longer-length = length-replicate {A = ℕ} 5000 97

pb_write-Stores_example :
    Returns
      (Rewritten 2 (occupied roomy.blocks) 0 longer_text)
      (pb_write path longer_text (length longer_text) 0 roomy)
pb_write-Stores_example =
    pb_write-Stores 2 path name [] 0 (codes "ab" ++ rest) longer_text roomy roomy-IsSafe roomy-Holds
      (unfold roomy-Holds in refl) (omega (arith, longer-length)) (omega (arith, longer-length))
