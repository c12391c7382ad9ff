-- ===== src/Ramdisk/Safe.antt =====
-- Well-formed states of fuseLibrary.c: every index that the file system holds lies in the table.
pub mod Tree
pub mod Table
pub mod Entries
pub mod Write
pub mod Init
pub mod Serve
use osprograms.Base.{ℕ, ◌<◌, none, some, All}
use osprograms.Ramdisk.Tree.{File, Directory, null, node}
use osprograms.Ramdisk.Tree.Laws.{IsNode}
use osprograms.Ramdisk.Disk.{Disk}
use osprograms.Ramdisk.Blocks.Table.{IsTable}

abbrev pub AllFiles : (File → Type 0) → Directory → Type 0
AllFiles P null = Unit
AllFiles P (node n s b fs) = AllFiles P s × AllFiles P b × All P fs

-- The file has a first block, and it lies in the table.
abbrev pub IsBacked : ℕ → File → Type 0
IsBacked n f = elim f.first_block [ none ↦ ⊥ | some i ↦ i < n ]

pub record IsSafe (n : ℕ) (s : Disk) : Type 0 where
  pub table : IsTable n s
  pub root : IsNode s.root
  pub files : AllFiles (IsBacked n) s.root
