-- ===== src/Ramdisk/Safe/Write.antt =====
-- `pb_write` meets no undefined behaviour, keeps the state well-formed, and writes all or nothing.
pub mod Loops
use osprograms.Ramdisk.Io.Cut.{
  room, cut_fits, cut_spills, is_cut_defined-small, int_rounds-small, one_block,
}
use osprograms.Ramdisk.Io.{
  int_rounds, fits_first, after_first, in_last, Cursor, write_blocks, write_first, write_last,
  close_chain, or_enospc, write_from, pb_writefile, pb_write,
}
use osprograms.Ramdisk.Safe.Write.Loops.{
  SameTree-IsSafe, Found, seek_write-Found, At, write_blocks-At, write_last-At,
}
use osprograms.Base.{
  ℕ, ◌+◌, ◌*◌, ◌/◌, ◌%◌, ◌^◌, ◌<◌, ◌≡◌, refl, ap, ◌⊎◌, inl, inr, true, false, Option, none, some,
  List, arith, Bool-cases, length, drop, length-drop, Str,
}
use osprograms.Run.{◌>>=◌, ◌>>◌}
use osprograms.Ramdisk.Disk.{block_size, Disk, Ret, ret, enoent, enospc}
use osprograms.Run.Returns.{Returns, returns, bind, mono}
use osprograms.Run.Returns
use osprograms.Ramdisk.Safe.{IsSafe}
use osprograms.Ramdisk.Safe.Table.{
  SameTree, copy_in-SameTree, free_rest-SameTree, close_chain-SameTree,
}
use osprograms.Ramdisk.Safe.Entries.{NameFits, open_or_create-Opened}
use osprograms.Ramdisk.Files.{descriptor, pb_openfd}

module _ (n : ℕ) where
  -- A write ends with the number of bytes that it was given, or with ENOSPC.
  abbrev pub Written : ℕ → Ret → Disk → Type 0
  Written count r t = IsSafe n t × ((r ≡ ret count) ⊎ (r ≡ enospc))

  finish_write :
      (count left : ℕ) (o : Option Cursor) (s : Disk)
      → At n count left o s
      → Returns (Written count) (or_enospc o close_chain s)
  finish_write count left none s h = returns (h, inr refl)
  finish_write count left (some c) s (h, l, w, b) =
      Returns.mono (close_chain-SameTree n c s h.table l)
        λ r t (d, e). (SameTree-IsSafe n h d, inl (rw e (ap ret w)))

  module _ (path : Str) (curr : ℕ) (buf : List ℕ) (count offset : ℕ) (s : Disk) (h : IsSafe n s)
      (l : curr < n) (size : length buf ≡ count) (small : count < 2 ^ 31) where
    abbrev First : ℕ → List ℕ → Cursor → Disk → Type 0
    First wrote rest c t = SameTree n s t × (c ≡ record { curr = curr; wrote = wrote; buf = rest })

    write_first-fits :
        fits_first count offset ≡ true
        → Returns (First count buf) (write_first curr buf count offset s)
    unfolding write_first
    write_first-fits e =
        rw (one_block count offset small, e)
          (Returns.bind
            (copy_in-SameTree n curr (offset % block_size) buf count s h.table l (omega arith)
              (cut_fits count offset e).3)
            λ _ t d. returns (d, refl))

    write_first-spills :
        fits_first count offset ≡ false
        → Returns
            (First (room offset) (drop (room offset) buf))
            (write_first curr buf count offset s)
    unfolding write_first
    write_first-spills e =
        let (_, more, total, short) = cut_spills count offset e small in
        rw (one_block count offset small, e)
          (Returns.bind
            (copy_in-SameTree n curr (offset % block_size) buf (room offset) s h.table l
              (omega arith) (omega arith))
            λ _ t d. returns (d, refl))

    write_from-fits :
        fits_first count offset ≡ true
        → Returns (Written count) (write_from path curr buf count offset s)
    unfolding write_from write_blocks write_last
    write_from-fits e =
        let (_, whole, last, _) = cut_fits count offset e in
        Returns.bind (write_first-fits e) λ c t (d, is).
          Returns.bind (free_rest-SameTree n curr t d.table l) λ _ u d'.
            rw (is, whole, last)
              (finish_write count (length buf)
                (some (record { curr = curr; wrote = count; buf = buf })) u
                (SameTree-IsSafe n (SameTree-IsSafe n h d) d', l, refl, refl))

    last_block :
        room offset + block_size * after_first count offset + in_last count offset ≡ count
        → in_last count offset < block_size
        → (o : Option Cursor) (v : Disk)
        → At n (room offset + block_size * after_first count offset) (in_last count offset) o v
        → Returns (Written count) (
            or_enospc o
              (λ c. do
                written ← write_last path (in_last count offset) c
                or_enospc written close_chain)
              v)
    last_block sum short none v k = returns (k, inr refl)
    last_block sum short (some c) v (k, m, w, b) =
        Returns.bind (write_last-At n path (in_last count offset) c v k m b short) λ o x q.
          let e : c.wrote + in_last count offset ≡ count = omega arith in
          finish_write count (in_last count offset) o x (rw e at q)

    write_from-spills :
        fits_first count offset ≡ false
        → Returns (Written count) (write_from path curr buf count offset s)
    unfolding write_from
    write_from-spills e =
        let (_, more, total, short) = cut_spills count offset e small in
        Returns.bind (write_first-spills e) λ c t (d, is).
          Returns.bind (free_rest-SameTree n curr t d.table l) λ _ u d'.
            rw
              (
                is,
                int_rounds-small (after_first count offset) (omega arith),
                int_rounds-small (in_last count offset) (omega arith),
              )
              (Returns.bind
                (write_blocks-At n path (after_first count offset) _ u (room offset)
                  (in_last count offset) (SameTree-IsSafe n (SameTree-IsSafe n h d) d') l refl
                  (omega (arith, length-drop (room offset) buf)))
                (last_block (omega arith) short))

  pub pb_writefile-Written :
      (path : Str) (start : ℕ) (buf : List ℕ) (count offset : ℕ) (s : Disk)
      → IsSafe n s
      → start < n
      → length buf ≡ count
      → count < 2 ^ 31
      → Returns (Written count) (pb_writefile path start buf count offset s)
  unfolding pb_writefile
  pb_writefile-Written path start buf count offset s h l size small =
      rw (is_cut_defined-small count offset small)
        (Returns.bind (seek_write-Found n path (int_rounds (offset / block_size)) start s h l) step)
    where
      step :
          (o : Option ℕ) (t : Disk)
          → Found n o t
          → Returns (Written count) (or_enospc o (λ curr. write_from path curr buf count offset) t)
      step none t (k, m) = returns (k, inr refl)
      step (some curr) t (k, m) = elim (Bool-cases (fits_first count offset)) [
        | inl e ↦ write_from-fits path curr buf count offset t k m size small e
        | inr e ↦ write_from-spills path curr buf count offset t k m size small e
      ]

  -- On a well-formed state `pb_write` of fewer than 2 ^ 31 bytes, under a path whose last part has
  -- fewer than 30 bytes, ends without
  -- undefined behaviour. It returns the number of bytes that it was given, ENOSPC or ENOENT, and the state stays
  -- well-formed.
  pub pb_write-Written :
      (path : Str) (buf : List ℕ) (offset : ℕ) (s : Disk)
      → NameFits path
      → length buf < 2 ^ 31
      → IsSafe n s
      → Returns
          (λ r t. IsSafe n t × ((r ≡ ret (length buf)) ⊎ ((r ≡ enospc) ⊎ (r ≡ enoent))))
          (pb_write path buf (length buf) offset s)
  unfolding pb_write pb_openfd
  pb_write-Written path buf offset s fits small h =
      Returns.bind (open_or_create-Opened n descriptor path s fits h) λ fd t (k, a). elim a [
        | inl e ↦ rw e (returns (k, inr (inr refl)))
        | inr (inl e) ↦ rw e (returns (k, inr (inr refl)))
        | inr (inr (i, e, lt)) ↦ rw e (
            Returns.mono (pb_writefile-Written path i buf (length buf) offset t k lt refl small)
              λ r u (j, b). (j, elim b [ inl x ↦ inl x | inr x ↦ inr (inl x) ]))
      ]
