-- ===== src/Ramdisk/Io/Cut.antt =====
-- How a transfer is cut into blocks.
use osprograms.Base.{
  ℕ, ◌+◌, ◌-◌, ◌*◌, ◌%◌, ◌^◌, ◌≤◌, ◌<◌, ◌≡◌, inl, inr, true, false, ◌&&◌, arith, ◌==◌, Bool-cases,
}
use osprograms.Ramdisk.Io.{
  int_rounds, int_is_zero, fits_first, in_first, after_first, is_cut_defined, in_last,
}
use osprograms.Ramdisk.Disk.{block_size}

-- What is left of the first block behind the offset.
abbrev pub room : ℕ → ℕ
room offset = block_size - offset % block_size

module _ (count offset : ℕ) where
  -- A transfer that ends in its first block has no other part.
  pub cut_fits :
      fits_first count offset ≡ true
      → (in_first count offset ≡ count)
        × (after_first count offset ≡ 0)
        × (in_last count offset ≡ 0)
        × (offset % block_size + count ≤ block_size)
  unfolding fits_first in_first after_first in_last
  cut_fits h = (rw h, rw h, ground arith, ground arith)

  pub cut_spills :
      fits_first count offset ≡ false
      → count < 2 ^ 31
      → (in_first count offset ≡ room offset)
        × (room offset < count)
        × (room offset + (block_size * after_first count offset + in_last count offset) ≡ count)
        × (in_last count offset < block_size)
  unfolding fits_first in_first after_first in_last
  cut_spills h small = (rw h, ground arith, ground arith, ground arith)

  -- The sum that gives the last part does not overflow.
  pub is_cut_defined-small : count < 2 ^ 31 → is_cut_defined count offset ≡ true
  unfolding is_cut_defined fits_first in_first after_first
  is_cut_defined-small small = ground arith

  -- The parts of a transfer of fewer than 2 ^ 31 bytes, each computed in `int`, add up to it without
  -- overflow, the first one ends with its block at the latest, and the last one is shorter than a
  -- block.
  pub cut_total :
      count < 2 ^ 31
      → (is_cut_defined count offset ≡ true)
        × (in_first count offset + (block_size * after_first count offset + in_last count offset)
            ≡ count)
        × (offset % block_size + in_first count offset ≤ block_size)
        × (in_last count offset < block_size)
  cut_total small = elim (Bool-cases (fits_first count offset)) [
    | inl e ↦
        let (a, b, c, d) = cut_fits e in
        (is_cut_defined-small small, omega arith, omega arith, omega arith)
    | inr e ↦
        let (a, b, c, d) = cut_spills e small in
        (is_cut_defined-small small, omega arith, omega arith, omega arith)
  ]

-- Counts that an `int` holds run the loops as often as the arithmetic says.
pub int_rounds-small : (n : ℕ) → n < 2 ^ 31 → int_rounds n ≡ n
int_rounds-small n h = ground arith

not_one_block :
    (part whole rest count : ℕ)
    → part < count
    → part + (block_size * whole + rest) ≡ count
    → count < 2 ^ 31
    → (int_is_zero whole && rest == 0) ≡ false
not_one_block part whole rest count h e l = ground arith

-- The source tests for a transfer within one block by the two other parts.
pub one_block :
    (count offset : ℕ)
    → count < 2 ^ 31
    → (int_is_zero (after_first count offset) && in_last count offset == 0)
      ≡ fits_first count offset
one_block count offset h = elim (Bool-cases (fits_first count offset)) [
  | inl e ↦ let (a, b, c, d) = cut_fits count offset e in rw (e, b, c)
  | inr e ↦ let (a, b, c, d) = cut_spills count offset e h in rw e (not_one_block _ _ _ count b c h)
]
