-- ===== src/Ramdisk/Io.antt =====
-- `pb_writefile` and `pb_write` of fuseLibrary.c, and the arithmetic and the copies that they share
-- with `pb_readfile`.
pub mod Read
pub mod Offset
pub mod Contents
pub mod Stored
pub mod NewFile
pub mod Chain
pub mod Spent
pub mod Long
pub mod Rewrite
pub mod Cut
use osprograms.Base.{
  ℕ, zero, suc, ◌+◌, ◌-◌, ◌*◌, ◌/◌, ◌%◌, ◌^◌, Bool, ◌&&◌, Option, none, some, List, ◌++◌, ltb, leb,
  ◌==◌, if◌then◌else◌, length, take, drop, Str,
}
use osprograms.Run.{pure, stop, require, ◌>>=◌, ◌>>◌}
use osprograms.Ramdisk.Disk.{block_size, Ret, ret, enoent, enospc, Cmd}
use osprograms.Ramdisk.Blocks.{get_next_free_block_index, load, store, free_subsequent_blocks}
use osprograms.Ramdisk.Files.{pb_unlink, claim, pb_openfd}
use osprograms.Ramdisk.Attributes.{ends}

-- A count held in an `int`: the rounds of `for (i = 0; i < n; i++)`, none if `n` is negative.
abbrev pub int_rounds : ℕ → ℕ
int_rounds n = if ltb (n % 2 ^ 32) (2 ^ 31) then n % 2 ^ 32 else 0

abbrev pub int_is_zero : ℕ → Bool
int_is_zero n = n % 2 ^ 32 == 0

-- How a transfer of `count` bytes at `offset` is cut into blocks, as both functions begin.
unfoldable pub fits_first : ℕ → ℕ → Bool
fits_first count offset = leb count (block_size - offset % block_size)

unfoldable pub in_first : ℕ → ℕ → ℕ
unfolding fits_first
in_first count offset = if fits_first count offset then count else block_size - offset % block_size

-- An `int`, as its 32 bits.
unfoldable pub after_first : ℕ → ℕ → ℕ
unfolding in_first
after_first count offset =
    if fits_first count offset then 0 else (count - in_first count offset) / block_size % 2 ^ 32

-- Whether the sum of the first parts, of type `int`, does not overflow: its second one is negative
-- where the 32 bits say so.
unfoldable pub is_cut_defined : ℕ → ℕ → Bool
unfolding after_first
is_cut_defined count offset =
    if ltb (after_first count offset) (2 ^ 31)
    then ltb (in_first count offset + block_size * after_first count offset) (2 ^ 31)
    else leb (block_size * (2 ^ 32 - after_first count offset)) (2 ^ 31)

-- Also an `int`, as its 32 bits.
unfoldable pub in_last : ℕ → ℕ → ℕ
unfolding after_first
in_last count offset =
    if ltb (in_first count offset + offset % block_size) block_size
    then 0
    else (count
        + (2 ^ 32 - (in_first count offset + block_size * after_first count offset) % 2 ^ 32))
      % 2 ^ 32

-- `memcpy` over the array `old` at an offset.
unfoldable pub splice : ℕ → List ℕ → List ℕ → List ℕ
splice offset new old = take offset old ++ (new ++ drop (offset + length new) old)

-- `memcpy(&blocks[i].blockContent[offset], buf, n)`
unfoldable pub copy_in : ℕ → ℕ → List ℕ → ℕ → Cmd (Unit {0})
unfolding splice
copy_in i offset buf n = do
  b ← load i
  require (leb n (length buf) && leb (offset + n) (length b.block_content))
  store i (record b { block_content = splice offset (take n buf) b.block_content })

-- `currBlock->nextBlock = getNextFreeBlockIndex()`
unfoldable pub extend : ℕ → Cmd (Option ℕ)
extend curr s =
    (do
      b ← load curr
      let next = get_next_free_block_index s.blocks
      store curr (record b { next_block = next })
      pure next)
      s

-- `if (currBlock->nextBlock == -1) { pb_unlink(path); return -ENOSPC; }`, and then `k`. `none` is
-- that return.
abbrev pub on_link : {A : Type 0} → Str → Option ℕ → (ℕ → Cmd (Option A)) → Cmd (Option A)
on_link path none k = do pb_unlink path; pure none
on_link path (some n) k = k n

-- `blocks[i]` at an index that is not -1.
abbrev pub via : {A : Type 0} → Option ℕ → (ℕ → Cmd A) → Cmd A
via none k = stop
via (some n) k = k n

unfoldable pub set_status : ℕ → Cmd (Unit {0})
set_status i = do b ← load i; store i (record b { status = 1 })

-- The loop to the first block of the transfer.
unfoldable pub seek_write : Str → ℕ → ℕ → Cmd (Option ℕ)
unfolding extend set_status
seek_write path zero curr = pure (some curr)
seek_write path (suc k) curr = do
  b ← load curr
  if ends b.next_block
      then (do next ← extend curr; on_link path next λ n. (do claim n; seek_write path k n))
      else via b.next_block λ n. (do set_status n; seek_write path k n)

-- `currBlock`, `wroteBytes` and `buf`.
pub record Cursor : Type 0 where
  pub curr : ℕ
  pub wrote : ℕ
  pub buf : List ℕ

-- The loop over the whole blocks behind the first.
unfoldable pub write_blocks : Str → ℕ → Cursor → Cmd (Option Cursor)
unfolding extend copy_in
write_blocks path zero c = pure (some c)
write_blocks path (suc k) c = do
  next ← extend c.curr
  on_link path next λ n. do
    claim n
    copy_in n 0 c.buf block_size
    write_blocks path k
        (record { curr = n; wrote = c.wrote + block_size; buf = drop block_size c.buf })

-- The copy into the first block.
unfoldable pub write_first : ℕ → List ℕ → ℕ → ℕ → Cmd Cursor
unfolding copy_in
write_first curr buf count offset =
    let room = block_size - offset % block_size in
    if int_is_zero (after_first count offset) && in_last count offset == 0
    then (do
      copy_in curr (offset % block_size) buf count
      pure (record { curr = curr; wrote = count; buf = buf }))
    else (do
      copy_in curr (offset % block_size) buf room
      pure (record { curr = curr; wrote = room; buf = drop room buf }))

-- What the file held behind the first block of the transfer is given back.
unfoldable pub free_rest : ℕ → Cmd (Unit {0})
free_rest curr = do
  b ← load curr
  if ends b.next_block then pure tt else free_subsequent_blocks b.next_block

-- The bytes of the last block.
unfoldable pub write_last : Str → ℕ → Cursor → Cmd (Option Cursor)
unfolding extend copy_in set_status
write_last path zero c = pure (some c)
write_last path (suc n) c = do
  next ← extend c.curr
  on_link path next λ i. do
    set_status i
    copy_in i 0 c.buf (suc n)
    pure (some (record c { curr = i; wrote = c.wrote + suc n }))

-- `currBlock->nextBlock = -1; return wroteBytes;`
unfoldable pub close_chain : Cursor → Cmd Ret
close_chain c = do
  b ← load c.curr
  store c.curr (record b { next_block = none })
  pure (ret c.wrote)

abbrev pub or_enospc : {A : Type 0} → Option A → (A → Cmd Ret) → Cmd Ret
or_enospc none k = pure enospc
or_enospc (some a) k = k a

-- The part of `pb_writefile` behind the loop to the first block, in the block `curr`.
unfoldable pub write_from : Str → ℕ → List ℕ → ℕ → ℕ → Cmd Ret
write_from path curr buf count offset = do
  c ← write_first curr buf count offset
  free_rest curr
  filled ← write_blocks path (int_rounds (after_first count offset)) c
  or_enospc filled λ d. do
    written ← write_last path (int_rounds (in_last count offset)) d
    or_enospc written close_chain

unfoldable pub pb_writefile : Str → ℕ → List ℕ → ℕ → ℕ → Cmd Ret
pb_writefile path start buf count offset = do
  require (is_cut_defined count offset)
  found ← seek_write path (int_rounds (offset / block_size)) start
  or_enospc found λ curr. write_from path curr buf count offset

-- `if (fd < 0) return -ENOENT;`, and else what follows.
abbrev pub with_descriptor : {A : Type 0} → Ret → (ℕ → Cmd A) → Cmd A → Cmd A
with_descriptor (ret i) k failed = k i
with_descriptor _ k failed = failed

unfoldable pub pb_write : Str → List ℕ → ℕ → ℕ → Cmd Ret
pb_write path buf size offset = do
  fd ← pb_openfd path
  with_descriptor fd (λ i. pb_writefile path i buf size offset) (pure enoent)
