-- ===== src/Ramdisk/Io/Rewrite.antt =====
-- `pb_write` from the start of a file, of more bytes than a block holds.
use osprograms.Ramdisk.Io.Cut.{cut_spills, is_cut_defined-small, int_rounds-small, one_block}
use osprograms.Ramdisk.Io.{
  int_rounds, fits_first, after_first, in_last, splice, seek_write, Cursor, write_blocks,
  write_first, free_rest, write_last, close_chain, or_enospc, write_from, pb_writefile, pb_write,
}
use osprograms.Base.{
  ℕ, ◌+◌, ◌^◌, ◌<◌, ◌≡◌, refl, subst, ◌⊎◌, inl, inr, true, false, Option, none, some, List, [],
  ◌++◌, arith, length, get_elem?, set, take, drop, length-set, get_elem?-set_self, get_elem?-lt,
  length-drop, Str,
}
use osprograms.Ramdisk.Disk.{block_size, Block, Disk, Ret, ret, enospc}
use osprograms.Ramdisk.Blocks.Table.{occupied}
use osprograms.Ramdisk.Io.Spent.{occupied-set_taken}
use osprograms.Ramdisk.Io.Long.{
  copy_in-cases, take-drop, NoRoom, OnWay, OnWay?, write_blocks-OnWay, AtEnd, write_last-AtEnd,
}
use osprograms.Run.{Run, ok, ◌>>=◌}
use osprograms.Run.Returns.{Returns, returns}
use osprograms.Run.Partial.{Partial, gives, faults, then_Partial}
use osprograms.Ramdisk.Tree.{Ptr}
use osprograms.Ramdisk.Io.Stored.{Holds, pb_openfd-Holds}
use osprograms.Ramdisk.Safe.{IsSafe}
use osprograms.Ramdisk.Safe.Write.{Written, pb_writefile-Written}
use osprograms.Ramdisk.Attributes.{ends}
use osprograms.Ramdisk.Io.Chain.{
  IsTaken, Walk, Walk-set, Tip, load_there, take-splice, filled, ended,
}

-- The chain from the block `start` leads to the block `last`, which ends it, and `buf` is what its blocks
-- hold up to the byte `part` of the last one.
pub record Stores (start : ℕ) (buf : List ℕ) (s : Disk) : Type 0 where
  pub last : ℕ
  pub part : ℕ
  pub before : List ℕ
  pub block : Block
  pub walk : Walk s.blocks last start before
  pub there : get_elem? s.blocks last ≡ some block
  pub taken : IsTaken block
  pub ended : block.next_block ≡ none
  pub holds : before ++ take part block.block_content ≡ buf

-- What a result says of the chain.
abbrev pub Kept : ℕ → ℕ → ℕ → List ℕ → Ret → Disk → Type 0
Kept total base start buf (ret n) s = Stores start buf s
Kept total base start buf enospc s = NoRoom total base buf
Kept total base start buf r s = Unit

close_chain-Kept :
    (total base start m : ℕ) (buf : List ℕ) (c : Cursor) (s : Disk)
    → Tip start c.curr m buf s
    → Partial (Kept total base start buf) (close_chain c s)
unfolding close_chain
close_chain-Kept total base start m buf c s tip = rw (load_there c.curr tip.block s tip.there) (
    gives (record {
      last = c.curr;
      part = m;
      before = tip.text;
      block = record tip.block { next_block = none };
      walk = Walk-set s.blocks c.curr start tip.text _ tip.walk;
      there =
          get_elem?-set_self s.blocks c.curr _ (get_elem?-lt s.blocks c.curr tip.block tip.there);
      taken = tip.taken;
      ended = refl;
      holds = tip.holds;
    }))

module _ (path : Str) (i : ℕ) (buf : List ℕ) (b : Block) (s : Disk)
    (there : get_elem? s.blocks i ≡ some b) (taken : IsTaken b) (alone : ends b.next_block ≡ true)
    (long : block_size < length buf) (small : length buf < 2 ^ 31) where
  abbrev all_blocks : ℕ
  all_blocks = length s.blocks

  abbrev taken_blocks : ℕ
  taken_blocks = occupied s.blocks

  spills : fits_first (length buf) 0 ≡ false
  unfolding fits_first
  spills = ground arith

  abbrev first : Block
  first = record b { block_content = splice 0 (take block_size buf) b.block_content }

  abbrev begun : Disk
  begun = record s { blocks = set s.blocks i first }

  there-begun : get_elem? begun.blocks i ≡ some first
  there-begun = get_elem?-set_self s.blocks i first (get_elem?-lt s.blocks i b there)

  abbrev second : Cursor
  second = record { curr = i; wrote = block_size; buf = drop block_size buf }

  begun-OnWay :
      (left : ℕ)
      → block_size + left ≡ length buf
      → OnWay path i buf all_blocks taken_blocks left second begun
  begun-OnWay left e = record {
    written = take block_size buf;
    tip = record {
      text = [];
      block = first;
      walk = ended;
      there = there-begun;
      taken = taken;
      holds = take-splice block_size buf b.block_content (omega (arith, long));
    };
    sum = take-drop block_size buf;
    size = omega (arith, e, length-drop block_size buf);
    used = 0;
    spent = (
      length-set s.blocks i first,
      omega (arith, occupied-set_taken s.blocks i b first there taken),
    );
    filled = omega (arith, e);
  }

  write_last-Kept :
      (o : Option Cursor) (t : Disk)
      → OnWay? path i buf all_blocks taken_blocks (in_last (length buf) 0) o t
      → Partial (Kept all_blocks taken_blocks i buf) (
          or_enospc o
            (λ d. do
              written ← write_last path (in_last (length buf) 0) d
              or_enospc written close_chain)
            t)
  write_last-Kept none t h = gives h
  write_last-Kept (some c) t h =
      then_Partial
        (write_last-AtEnd path i buf all_blocks taken_blocks (in_last (length buf) 0) c t h) close
    where
      close :
          (o : Option Cursor) (t : Disk)
          → AtEnd path i buf all_blocks taken_blocks o t
          → Partial (Kept all_blocks taken_blocks i buf) (or_enospc o close_chain t)
      close none t h = gives h
      close (some c) t (m, tip) = close_chain-Kept all_blocks taken_blocks i m buf c t tip

  behind_first : Partial (Kept all_blocks taken_blocks i buf) (
      (do
        filled ← write_blocks path (int_rounds (after_first (length buf) 0)) second
        or_enospc filled λ d. (do
          written ← write_last path (int_rounds (in_last (length buf) 0)) d
          or_enospc written close_chain))
        begun)
  behind_first =
      let (_, more, parts, short) = cut_spills (length buf) 0 spills small in
      rw
        (
          int_rounds-small (after_first (length buf) 0) (omega arith),
          int_rounds-small (in_last (length buf) 0) (omega arith),
        )
        (then_Partial
          (write_blocks-OnWay path i buf all_blocks taken_blocks (in_last (length buf) 0)
            (after_first (length buf) 0) second begun (begun-OnWay _ (omega arith)))
          write_last-Kept)

  free_rest-begun : free_rest i begun ≡ ok tt begun
  unfolding free_rest
  free_rest-begun = rw (load_there i first begun there-begun) (rw alone)

  write_from-Kept :
      Partial (Kept all_blocks taken_blocks i buf) (write_from path i buf (length buf) 0 s)
  unfolding write_from write_first
  write_from-Kept =
      rw (one_block (length buf) 0 small, spills)
        (elim (copy_in-cases i block_size buf b s there) [
          | inl e ↦ rw e faults
          | inr e ↦ rw e (rw free_rest-begun behind_first)
        ])

  pub pb_writefile-Kept :
      Partial (Kept all_blocks taken_blocks i buf) (pb_writefile path i buf (length buf) 0 s)
  unfolding pb_writefile seek_write
  pb_writefile-Kept = rw (is_cut_defined-small (length buf) 0 small) write_from-Kept

-- What a long write from the start of a file leaves, where `base` blocks of `n` were taken.
abbrev pub Rewritten : ℕ → ℕ → ℕ → List ℕ → Ret → Disk → Type 0
Rewritten n base start buf r s =
    IsSafe n s
    × (((r ≡ ret (length buf)) × Stores start buf s) ⊎ ((r ≡ enospc) × NoRoom n base buf))

module _ {S A : Type 0} {P Q R : A → S → Type 0} where
  both_give :
      {r : Run S A}
      → Returns P r
      → Partial Q r
      → ((a : A) (s : S) → P a s → Q a s → R a s)
      → Returns R r
  both_give (returns p) (gives q) join = returns (join _ _ p q)

rewritten :
    (n base start : ℕ) (buf : List ℕ) (r : Ret) (s : Disk)
    → Written n (length buf) r s
    → Kept n base start buf r s
    → Rewritten n base start buf r s
rewritten n base start buf (ret k) s (safe, inl e) stores = (safe, inl (e, stores))
rewritten n base start buf enospc s (safe, inr e) full = (safe, inr (e, full))
rewritten n base start buf (ret k) s (safe, inr e) kept = absurd cc
rewritten n base start buf r s (safe, inl e) kept = absurd cc
rewritten n base start buf r s (safe, inr e) kept = absurd cc

-- On a well-formed state, where the path names a file of one block, `pb_write` at 0 of more bytes than a
-- block holds and fewer than 2 ^ 31 returns the number of bytes that it was given, and then the chain of
-- the file, over taken blocks to one that ends it, holds these bytes; or it returns ENOSPC, and then the
-- file's block and the free blocks of the state hold fewer bytes. The state stays well-formed.
pub pb_write-Stores :
    (n : ℕ) (path name : Str) (curr : Ptr) (i : ℕ) (content buf : List ℕ) (s : Disk)
    → IsSafe n s
    → (h : Holds path name curr i content s) → IsTaken h.block
    → block_size < length buf
    → length buf < 2 ^ 31
    → Returns (Rewritten n (occupied s.blocks) i buf) (pb_write path buf (length buf) 0 s)
unfolding pb_write
pb_write-Stores n path name curr i content buf s safe h taken long small =
    rw (pb_openfd-Holds path name curr i content s h) (
      both_give
        (pb_writefile-Written n path i buf (length buf) 0 s safe
          (subst (λ k. i < k) safe.table.size (get_elem?-lt s.blocks i h.block h.there)) refl small)
        (subst
          (λ k.
            Partial (Kept k (occupied s.blocks) i buf) (pb_writefile path i buf (length buf) 0 s))
          safe.table.size (pb_writefile-Kept path i buf h.block s h.there taken h.alone long small))
        (rewritten n (occupied s.blocks) i buf))
