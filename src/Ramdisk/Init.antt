-- ===== src/Ramdisk/Init.antt =====
-- `initializeFileSystem` of fuseLibrary.c.
use osprograms.Base.{
  ℕ, zero, suc, ◌+◌, ◌*◌, ◌/◌, ◌^◌, Option, none, some, List, [], ◌∷◌, ltb, if◌then◌else◌,
}
use osprograms.Ramdisk.Paths.{root_path}
use osprograms.Ramdisk.Tree.{null, node}
use osprograms.Ramdisk.Disk.{Block, Disk}

unfoldable pub empty_blocks : ℕ → (ℕ → List ℕ) → List Block
empty_blocks zero fresh = []
empty_blocks (suc n) fresh =
    record { next_block = none; block_content = fresh 0; status = 0 }
    ∷ empty_blocks n (λ i. fresh (i + 1))

-- `fresh` lists the contents of the arrays that `malloc` returns, call by call.
unfoldable pub with_blocks : ℕ → (ℕ → List ℕ) → Disk
unfolding empty_blocks
with_blocks num_blocks fresh = record {
  root = node root_path null null [];
  blocks = empty_blocks num_blocks fresh;
  fresh = λ i. fresh (i + num_blocks);
}

-- `fsSize*1024` is an `int`; `none` is its overflow.
unfoldable pub initialize_file_system : ℕ → (ℕ → List ℕ) → Option Disk
unfolding with_blocks
initialize_file_system fs_size fresh =
    if ltb (fs_size * 1024) (2 ^ 31) then some (with_blocks (fs_size * 1024 / 4) fresh) else none
