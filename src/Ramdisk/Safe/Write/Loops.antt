-- ===== src/Ramdisk/Safe/Write/Loops.antt =====
-- The loops of `pb_writefile` keep the state well-formed and count what they write.
use osprograms.Base.{
  ℕ, zero, suc, ◌+◌, ◌*◌, ◌<◌, ◌≡◌, refl, inl, inr, false, Option, none, some, arith, Bool-cases,
  length, length-drop, Str,
}
use osprograms.Ramdisk.Disk.{block_size, Disk, Cmd}
use osprograms.Run.Returns.{Returns, returns, bind}
use osprograms.Run.Returns
use osprograms.Ramdisk.Blocks.Table.{LinkIn}
use osprograms.Ramdisk.Io.{on_link, via, seek_write, Cursor, write_blocks, write_last}
use osprograms.Ramdisk.Safe.{IsSafe}
use osprograms.Ramdisk.Safe.Table.{
  SameTree, load-IsBlock, claim-SameTree, set_status-SameTree, extend-SameTree, copy_in-SameTree,
}
use osprograms.Ramdisk.Safe.Entries.{pb_unlink-IsSafe}
use osprograms.Ramdisk.Attributes.{ends}

module _ (n : ℕ) where
  pub SameTree-IsSafe : {s t : Disk} → IsSafe n s → SameTree n s t → IsSafe n t
  SameTree-IsSafe h d = record {
    table = d.table;
    root = rw d.root h.root;
    files = rw d.root h.files;
  }

  -- What the loops of `pb_writefile` give: a block of the table, or `none` after ENOSPC.
  abbrev pub Found : Option ℕ → Disk → Type 0
  Found o t = IsSafe n t × LinkIn n o

  -- The test for a full disk behind each call of `getNextFreeBlockIndex`.
  on_link-Returns :
      {A : Type 0} (Q : Option A → Disk → Type 0) (path : Str) (next : Option ℕ) (s : Disk)
      (k : ℕ → Cmd (Option A))
      → IsSafe n s
      → LinkIn n next
      → ((t : Disk) → IsSafe n t → Q none t)
      → ((i : ℕ) → i < n → Returns Q (k i s))
      → Returns Q (on_link path next k s)
  on_link-Returns Q path none s k h l full next =
      Returns.bind (pb_unlink-IsSafe n path s h) λ r t j. returns (full t j)
  on_link-Returns Q path (some i) s k h l full next = next i l

  via-Returns :
      {A : Type 0} (Q : A → Disk → Type 0) (next : Option ℕ) (s : Disk) (k : ℕ → Cmd A)
      → LinkIn n next
      → ends next ≡ false
      → ((i : ℕ) → i < n → Returns Q (k i s))
      → Returns Q (via next k s)
  via-Returns Q none s k l e h = absurd (ground arith)
  via-Returns Q (some i) s k l e h = h i l

  pub seek_write-Found :
      (path : Str) (k curr : ℕ) (s : Disk)
      → IsSafe n s
      → curr < n
      → Returns Found (seek_write path k curr s)
  unfolding seek_write
  seek_write-Found path zero curr s h l = returns (h, l)
  seek_write-Found path (suc k) curr s h l =
      let (b, e, inside) = load-IsBlock n curr s h.table l in
      rw e (elim (Bool-cases (ends b.next_block)) [
        | inl last ↦ rw last (
            Returns.bind (extend-SameTree n curr s h.table l) λ next t (d, link).
              on_link-Returns Found path next t _ (SameTree-IsSafe h d) link (λ u j. (j, tt))
                λ i m. Returns.bind (claim-SameTree n i t d.table m) λ _ u d'.
                  seek_write-Found path k i u (SameTree-IsSafe (SameTree-IsSafe h d) d') m)
        | inr more ↦ rw more (
            via-Returns Found b.next_block s _ inside.0 more λ i m.
              Returns.bind (set_status-SameTree n i s h.table m)
                λ _ u d. seek_write-Found path k i u (SameTree-IsSafe h d) m)
      ])

  -- A cursor in the table that has written `wrote` bytes and has `left` to write.
  abbrev pub At : ℕ → ℕ → Option Cursor → Disk → Type 0
  At wrote left none t = IsSafe n t
  At wrote left (some c) t = IsSafe n t × (c.curr < n) × (c.wrote ≡ wrote) × (length c.buf ≡ left)

  pub write_blocks-At :
      (path : Str) (k : ℕ) (c : Cursor) (s : Disk) (wrote left : ℕ)
      → IsSafe n s
      → c.curr < n
      → c.wrote ≡ wrote
      → length c.buf ≡ block_size * k + left
      → Returns (At (wrote + block_size * k) left) (write_blocks path k c s)
  unfolding write_blocks
  write_blocks-At path zero c s wrote left h l w b = returns (h, l, omega arith, omega arith)
  write_blocks-At path (suc k) c s wrote left h l w b =
      Returns.bind (extend-SameTree n c.curr s h.table l) λ next t (d, link).
        on_link-Returns (At (wrote + block_size * suc k) left) path next t _ (SameTree-IsSafe h d)
          link (λ u j. j)
          λ i m. Returns.bind (claim-SameTree n i t d.table m) λ _ u d'.
            Returns.bind
              (copy_in-SameTree n i 0 c.buf block_size u d'.table m (omega arith) (omega arith))
              λ _ v d''.
                let safe = SameTree-IsSafe (SameTree-IsSafe (SameTree-IsSafe h d) d') d'' in
                let e : wrote + block_size * suc k ≡ (wrote + block_size) + block_size * k =
                  omega arith in
                rw e (
                  write_blocks-At path k _ v (wrote + block_size) left safe m (omega arith)
                    (omega (arith, length-drop block_size c.buf)))

  pub write_last-At :
      (path : Str) (k : ℕ) (c : Cursor) (s : Disk)
      → IsSafe n s
      → c.curr < n
      → length c.buf ≡ k
      → k < block_size
      → Returns (λ o t. At (c.wrote + k) k o t) (write_last path k c s)
  unfolding write_last
  write_last-At path zero c s h l b m = returns (h, l, omega arith, b)
  write_last-At path (suc k) c s h l b small =
      Returns.bind (extend-SameTree n c.curr s h.table l) λ next t (d, link).
        on_link-Returns (At (c.wrote + suc k) (suc k)) path next t _ (SameTree-IsSafe h d) link
          (λ u j. j)
          λ i m. Returns.bind (set_status-SameTree n i t d.table m) λ _ u d'.
            Returns.bind
              (copy_in-SameTree n i 0 c.buf (suc k) u d'.table m (omega arith) (omega arith))
              λ _ v d''.
                returns (SameTree-IsSafe (SameTree-IsSafe (SameTree-IsSafe h d) d') d'', m, refl, b)
