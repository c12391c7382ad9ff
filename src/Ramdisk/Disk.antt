-- ===== src/Ramdisk/Disk.antt =====
-- The state of fuseLibrary.c, the globals `root` and `blocks`, and the commands over it.
use osprograms.Run.{ok, Program}
use osprograms.Base.{ℕ, Option, List}
use osprograms.Ramdisk.Tree.{Directory}

abbrev pub block_size : ℕ
block_size = 4096

abbrev pub fn_size : ℕ
fn_size = 30

-- `struct block`; its field `index` is never set. `none` is a `nextBlock` of -1.
pub record Block : Type 0 where
  pub next_block : Option ℕ
  pub block_content : List ℕ
  pub status : ℕ

-- `numBlocks` is the length of `blocks`. `fresh` lists what the arrays hold that later calls of
-- `malloc(BlockSize)` return, in the order of these calls.
pub record Disk : Type 0 where
  pub root : Directory
  pub blocks : List Block
  pub fresh : ℕ → List ℕ

-- What a file operation returns: a count or a descriptor, or minus an error number.
pub data Ret : Type 0 where
  ret : ℕ → Ret
  enoent enospc einval minus_one : Ret

abbrev pub Cmd : Type 0 → Type 0
Cmd A = Program Disk A

abbrev pub set_root : Directory → Cmd (Unit {0})
set_root d s = ok tt (record s { root = d })
