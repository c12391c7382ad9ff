-- ===== src/Ramdisk/Io/Offset.antt =====
-- What `pb_readfile` does with the offset of a read within one block.
use osprograms.Ramdisk.Io.Cut.{room, cut_fits, is_cut_defined-small}
use osprograms.Ramdisk.Io.{fits_first}
use osprograms.Base.{ℕ, ◌-◌, ◌/◌, ◌≤◌, ◌<◌, ◌≡◌, true, arith, leb}
use osprograms.Ramdisk.Disk.{block_size, Disk}
use osprograms.Ramdisk.Io.Read.{seek_read, read_only, read_at}

-- A read whose offset lies in the first block, and whose count ends there, hands over the text at
-- the start of the block, whatever the two are.
pub read_at_first_block :
    (start room count offset : ℕ) (s : Disk)
    → offset < block_size
    → count ≤ block_size - offset
    → read_at start room count offset s ≡ read_only start 0 room s
unfolding read_at seek_read
read_at_first_block start room count offset s h fits =
    let small : offset / block_size ≡ 0 = omega arith in
    let inside : fits_first count offset ≡ true = unfold fits_first in ground arith in
    let (_, whole, last, _) = cut_fits count offset inside in
    let le : leb count block_size ≡ true = ground arith in
    rw (small, is_cut_defined-small count offset (omega arith), whole, last, le) (rw small)
