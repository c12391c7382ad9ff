-- ===== src/Ramdisk/Io/Read.antt =====
-- `getFileFromPath`, `pb_readfile` and `pb_read` of fuseLibrary.c.
use osprograms.Ramdisk.Io.{
  int_rounds, int_is_zero, after_first, is_cut_defined, in_last, via, with_descriptor,
}
use osprograms.Base.{
  ℕ, zero, suc, ◌+◌, ◌-◌, ◌/◌, ◌%◌, ◌^◌, Bool, true, false, ◌&&◌, Option, none, some, List, [], ◌∷◌,
  ◌++◌, ltb, leb, ◌==◌, if◌then◌else◌, length, take, drop, Str,
}
use osprograms.Ramdisk.Paths.{get_file_dir_name, get_parent_path}
use osprograms.Ramdisk.Tree.{File, deref, traverse_to_dir, get_file_present_at_dir}
use osprograms.Run.{ok, fault, pure, require, ◌>>=◌, ◌>>◌}
use osprograms.Ramdisk.Disk.{block_size, Ret, ret, enoent, einval, Cmd}
use osprograms.Ramdisk.Blocks.{load}
use osprograms.Ramdisk.Files.{pb_openfd}
use osprograms.Ramdisk.Attributes.{strlen, ends, get_file_size}

-- The result of a read: what it returns, and the bytes that it has written to `buf`.
pub record Reply : Type 0 where
  pub code : Ret
  pub bytes : List ℕ

unfoldable pub get_file_from_path : Str → Cmd File
get_file_from_path path s = elim (get_parent_path path) [
  | none ↦ fault
  | some parent ↦ elim (traverse_to_dir parent s.root) [
    | none ↦ fault
    | some curr ↦ elim (get_file_dir_name path) [
      | none ↦ fault
      | some name ↦ elim (get_file_present_at_dir (deref curr s.root) name) [
        | none ↦ fault
        | some f ↦ ok f s
      ]
    ]
  ]
]

-- `count`, a `size_t`, is cut to what the file holds behind `offset`; the difference wraps.
unfoldable pub clip : ℕ → ℕ → ℕ → ℕ
clip size count offset =
    if ltb size ((offset + count) % 2 ^ 64) then (size + 2 ^ 64 - offset) % 2 ^ 64 else count

-- `memcpy` out of `blocks[i].blockContent`, from `offset`.
unfoldable pub copy_out : ℕ → ℕ → ℕ → Cmd (List ℕ)
copy_out i offset n = do
  b ← load i
  require (leb (offset + n) (length b.block_content))
  pure (take n (drop offset b.block_content))

-- The loop to the first block of the transfer; `none` is EINVAL.
unfoldable pub seek_read : ℕ → ℕ → Cmd (Option ℕ)
seek_read zero curr = pure (some curr)
seek_read (suc k) curr = do
  b ← load curr
  if ends b.next_block then pure none else via b.next_block (seek_read k)

-- `strcpy(buf, &content[at])`: the bytes before the NUL, which is written too. The index `at` is
-- `offsetInBlock`, the number of a block.
unfoldable pub read_only : ℕ → ℕ → ℕ → Cmd Reply
read_only curr at room = do
  b ← load curr
  via (strlen (drop at b.block_content)) λ n. (do
    require (ltb n room)
    pure (record { code = ret n; bytes = take n (drop at b.block_content) ++ (0 ∷ []) }))

-- `currBlock`, `readBytes`, and `buf` as far as it is written; `more` is false once the loop has
-- returned for want of a block.
pub record Reader : Type 0 where
  pub curr : ℕ
  pub read : ℕ
  pub out : List ℕ
  pub more : Bool

unfoldable pub read_blocks : ℕ → ℕ → Reader → Cmd Reader
unfolding copy_out
read_blocks room zero r = pure r
read_blocks room (suc k) r = do
  b ← load r.curr
  if ends b.next_block
      then pure (record r { more = false })
      else via b.next_block λ n. (do
        bytes ← copy_out n 0 block_size
        require (leb (r.read + block_size) room)
        read_blocks room k
            (record r { curr = n; read = r.read + block_size; out = r.out ++ bytes }))

-- The last block: `strlen` of a copy of its bytes says how many of them reach `buf`.
unfoldable pub read_last : ℕ → ℕ → Reader → Cmd Reply
unfolding copy_out
read_last room zero r = pure (record { code = ret r.read; bytes = r.out })
read_last room (suc n) r = do
  b ← load r.curr
  if ends b.next_block
      then pure (record { code = einval; bytes = r.out })
      else via b.next_block λ i. (do
        bytes ← copy_out i 0 (suc n)
        via (strlen bytes) λ m. (do
          require (leb (r.read + m) room)
          pure (record { code = ret (r.read + suc n); bytes = r.out ++ take m bytes })))

-- The copy out of the first of several blocks, and the loops behind it.
unfoldable pub read_many : ℕ → ℕ → ℕ → ℕ → Cmd Reply
unfolding copy_out read_blocks read_last
read_many curr room count offset = do
  let part = block_size - offset % block_size
  bytes ← copy_out curr (offset % block_size) part
  require (leb part room)
  r ←
      read_blocks room (int_rounds (after_first count offset))
        (record { curr = curr; read = part; out = bytes; more = true })
  if r.more
      then read_last room (int_rounds (in_last count offset)) r
      else pure (record { code = ret r.read; bytes = r.out })

-- From the loop over the offset on. `room` is the length of `buf`.
unfoldable pub read_at : ℕ → ℕ → ℕ → ℕ → Cmd Reply
unfolding seek_read read_only read_many
read_at start room count offset = do
  require (is_cut_defined count offset)
  found ← seek_read (int_rounds (offset / block_size)) start
  elim found [
    | none ↦ pure (record { code = einval; bytes = [] })
    | some curr ↦
        if int_is_zero (after_first count offset)
          && (in_last count offset == 0 && leb count block_size)
        then read_only curr (offset / block_size) room
        else read_many curr room count offset
  ]

unfoldable pub pb_readfile : Str → ℕ → ℕ → ℕ → Cmd Reply
unfolding get_file_from_path clip read_at get_file_size
pb_readfile path start count offset = do
  f ← get_file_from_path path
  size ← get_file_size f
  read_at start count (clip size count offset) offset

unfoldable pub pb_read : Str → ℕ → ℕ → Cmd Reply
unfolding pb_openfd pb_readfile
pb_read path size offset = do
  fd ← pb_openfd path
  with_descriptor fd (λ i. pb_readfile path i size offset)
      (pure (record { code = enoent; bytes = [] }))
