-- ===== src/Ramdisk/Blocks.antt =====
-- The table of blocks: `getNextFreeBlockIndex` and `freeSubsequentBlocks`.
pub mod Table
pub mod Free
use osprograms.Base.{
  ℕ, zero, suc, ◌+◌, Bool, true, false, Option, none, some, List, [], ◌∷◌, ◌==◌, if◌then◌else◌,
  length, get_elem?, set,
}
use osprograms.Run.{ok, fault, out_of_fuel}
use osprograms.Ramdisk.Disk.{Block, Disk, Cmd}

unfoldable pub next_free : ℕ → List Block → Option ℕ
next_free i [] = none
next_free i (b ∷ blocks) =
    let rest = next_free (i + 1) blocks in if b.status == 0 then some i else rest

unfoldable pub get_next_free_block_index : List Block → Option ℕ
unfolding next_free
get_next_free_block_index blocks = next_free 0 blocks

-- `blocks[i]`
unfoldable pub load : ℕ → Cmd Block
load i s = elim (get_elem? s.blocks i) [ none ↦ fault | some b ↦ ok b s ]

abbrev pub is_free : Option Block → Bool
is_free none = false
is_free (some b) = b.status == 0

abbrev pub store : ℕ → Block → Cmd (Unit {0})
store i b s = ok tt (record s { blocks = set s.blocks i b })

-- `free` of the old array and `malloc` of a new one.
abbrev pub clear_block : ℕ → Block → Disk → Disk
clear_block i b s = record s {
  blocks = set s.blocks i (record { next_block = none; block_content = s.fresh 0; status = 0 });
  fresh = λ n. s.fresh (n + 1);
}

-- The loop of `freeSubsequentBlocks`.
unfoldable pub free_from : ℕ → Option ℕ → Cmd (Unit {0})
unfolding load
free_from zero curr s = out_of_fuel
free_from (suc fuel) none s = ok tt s
free_from (suc fuel) (some i) s = elim (get_elem? s.blocks i) [
  | none ↦ fault
  | some b ↦ elim (b.status == 0) [
    | true ↦ ok tt s
    | false ↦ free_from fuel b.next_block (clear_block i b s)
  ]
]

unfoldable pub free_subsequent_blocks : Option ℕ → Cmd (Unit {0})
unfolding free_from
free_subsequent_blocks start s = free_from (length s.blocks + 1) start s
