-- ===== src/Ramdisk/Io/Long.antt =====
-- `pb_writefile` of more bytes than a block holds.
use osprograms.Base.{
  ℕ, zero, suc, ◌+◌, ◌-◌, ◌*◌, ◌≤◌, ◌<◌, ◌≡◌, refl, sym, ap, ◌∙◌, subst, ◌⊎◌, inl, inr, ◌&&◌,
  Option, none, some, List, [], ◌∷◌, ◌++◌, append-nil, append_assoc, arith, leb, Bool-cases,
  Option-cases, length, get_elem?, set, take, drop, length-set, get_elem?-set_self, get_elem?-some,
  get_elem?-lt, length-drop, Str,
}
use osprograms.Run.{ok, fault, pure, ◌>>=◌, ◌>>◌}
use osprograms.Ramdisk.Io.Spent.{Spent, Spent-full, filled-Spent}
use osprograms.Ramdisk.Io.Contents.{take-all}
use osprograms.Run.Partial.{Partial, gives, faults, then_Partial}
use osprograms.Ramdisk.Io.{
  splice, copy_in, extend, on_link, set_status, Cursor, write_blocks, write_last,
}
use osprograms.Ramdisk.Disk.{block_size, Block, Disk, Cmd}
use osprograms.Ramdisk.Blocks.{get_next_free_block_index}
use osprograms.Ramdisk.Files.{pb_unlink, claim}
use osprograms.Ramdisk.Io.Chain.{IsTaken, Tip, load_there, any_run, tied, filled-Tip}
use osprograms.Ramdisk.Blocks.Table.{get_next_free_block_index-lt}

-- A copy faults, or changes the block.
pub copy_in-cases :
    (n m : ℕ) (buf : List ℕ) (c : Block) (u : Disk)
    → get_elem? u.blocks n ≡ some c
    → (copy_in n 0 buf m u ≡ fault)
      ⊎ (copy_in n 0 buf m u
          ≡ ok tt (record u {
            blocks =
                set u.blocks n (record c { block_content = splice 0 (take m buf) c.block_content });
          }))
unfolding copy_in
copy_in-cases n m buf c u there =
    elim (Bool-cases (leb m (length buf) && leb (0 + m) (length c.block_content))) [
      | inl fits ↦ inr (rw (load_there n c u there) (rw fits))
      | inr long ↦ inl (rw (load_there n c u there) (rw long))
    ]

module _ (mark : ℕ → Cmd (Unit {0})) (marked : Block → Block)
    (marks : (n : ℕ) (b : Block) (s : Disk)
      → get_elem? s.blocks n ≡ some b
      → mark n s ≡ ok tt (record s { blocks = set s.blocks n (marked b) }))
    (takes : (b : Block) → IsTaken (marked b)) (path : Str) (buf : List ℕ) (m : ℕ)
    (enough : m ≤ length buf) (start k : ℕ) (written : List ℕ) (s : Disk)
    (tip : Tip start k block_size written s) (total base used : ℕ) (spent : Spent total base used s)
    {A : Type 0} (Q : Option A → Disk → Type 0)
    (gave_up : total ≤ base + used → (t : Disk) → Q none t) (rest : ℕ → Cmd (Option A))
    (go_on : (n : ℕ) (t : Disk)
      → Tip start n m (written ++ take m buf) t
      → Spent total base (suc used) t
      → Partial Q (rest n t)) where
  copies :
      (n : ℕ) (b : Block)
      → get_next_free_block_index s.blocks ≡ some n
      → get_elem? (tied mark marked marks takes path buf m enough start k written s tip n).blocks n
        ≡ some b
      → Partial Q (
          (do copy_in n 0 buf m; rest n)
            (record s {
              blocks =
                  set
                    (tied mark marked marks takes path buf m enough start k written s tip n).blocks
                    n
                    (marked b);
            }))
  copies n b free there =
      let d = tied mark marked marks takes path buf m enough start k written s tip n in
      let u : Disk = record s { blocks = set d.blocks n (marked b) } in
      let here = get_elem?-set_self d.blocks n (marked b) (get_elem?-lt d.blocks n b there) in
      elim (copy_in-cases n m buf (marked b) u here) [
        | inl e ↦ rw e faults
        | inr e ↦ rw e (
            go_on n _
              (filled-Tip mark marked marks takes path buf m enough start k written s tip n b free
                there)
              (filled-Spent mark marked marks takes path buf m enough start k written s tip total
                base used n b spent there))
      ]

  -- The file gets one more block, with the next `m` bytes of the buffer, or the disk is full.
  pub one_block_more :
      Partial Q
        ((do next ← extend k; on_link path next λ n. (do mark n; copy_in n 0 buf m; rest n)) s)
  unfolding extend
  one_block_more =
      rw (load_there k tip.block s tip.there)
        (elim (Option-cases (get_next_free_block_index s.blocks)) [
          | inl full ↦ rw full (
              then_Partial (any_run (pb_unlink path _))
                λ _ t _. gives (gave_up (Spent-full total base used s spent full) t))
          | inr (n, free) ↦
              let d = tied mark marked marks takes path buf m enough start k written s tip n in
              let (b, there) =
                get_elem?-some d.blocks n
                  (rw length-set (get_next_free_block_index-lt s.blocks n free)) in
              rw free (rw (marks n b d there) (copies n b free there))
        ])

-- `claim` and `set_status` are the two ways to mark a block.
claims :
    (n : ℕ) (b : Block) (s : Disk)
    → get_elem? s.blocks n ≡ some b
    → claim n s
      ≡ ok tt (record s { blocks = set s.blocks n (record b { status = 1; next_block = none }) })
unfolding claim
claims n b s there = rw (load_there n b s there) refl

sets :
    (n : ℕ) (b : Block) (s : Disk)
    → get_elem? s.blocks n ≡ some b
    → set_status n s ≡ ok tt (record s { blocks = set s.blocks n (record b { status = 1 }) })
unfolding set_status
sets n b s there = rw (load_there n b s there) refl

pub take-drop : (n : ℕ) (xs : List ℕ) → take n xs ++ drop n xs ≡ xs
take-drop zero xs = refl
take-drop (suc n) [] = refl
take-drop (suc n) (x ∷ xs) = ap (λ r. x ∷ r) (take-drop n xs)

written_all : (buf left written : List ℕ) → length left ≡ 0 → written ++ left ≡ buf → written ≡ buf
written_all buf [] written e sum = sym (append-nil written) ∙ sum
written_all buf (x ∷ left) written e sum = absurd (omega (arith, e))

take-size : (a : List ℕ) (k : ℕ) → length a ≡ k → take k a ≡ a
take-size a k e = subst (λ j. take j a ≡ a) e (take-all a)

-- A table of `total` blocks, of which `base` are taken, and one block more are too few for `buf`.
abbrev pub NoRoom : ℕ → ℕ → List ℕ → Type 0
NoRoom total base buf = block_size * suc (total - base) < length buf

module _ (path : Str) (start : ℕ) (buf : List ℕ) (total base : ℕ) where
  -- All of `buf` is on the chain from `start`, but for what the cursor has left.
  pub record OnWay (left : ℕ) (c : Cursor) (s : Disk) : Type 0 where
    pub written : List ℕ
    pub tip : Tip start c.curr block_size written s
    pub sum : written ++ c.buf ≡ buf
    pub size : length c.buf ≡ left
    pub used : ℕ
    pub spent : Spent total base used s
    pub filled : block_size * suc used + left ≡ length buf

  abbrev pub OnWay? : ℕ → Option Cursor → Disk → Type 0
  OnWay? left none s = NoRoom total base buf
  OnWay? left (some c) s = OnWay left c s

  pub write_blocks-OnWay :
      (left k : ℕ) (c : Cursor) (s : Disk)
      → OnWay (block_size * k + left) c s
      → Partial (OnWay? left) (write_blocks path k c s)
  unfolding write_blocks
  write_blocks-OnWay left zero c s h = gives (record {
    written = h.written;
    tip = h.tip;
    sum = h.sum;
    size = omega (arith, h.size);
    used = h.used;
    spent = h.spent;
    filled = omega (arith, h.filled);
  })
  write_blocks-OnWay left (suc k) c s h =
      one_block_more claim (λ b. record b { status = 1; next_block = none }) claims (λ b. refl) path
        c.buf block_size (omega (arith, h.size)) start c.curr h.written s h.tip total base h.used
        h.spent (OnWay? left) (λ full t. omega (arith, full, h.filled))
        (λ n.
          write_blocks path k
            (record { curr = n; wrote = c.wrote + block_size; buf = drop block_size c.buf }))
        λ n t tip spent. write_blocks-OnWay left k _ t (record {
          written = h.written ++ take block_size c.buf;
          tip = tip;
          sum =
              append_assoc h.written (take block_size c.buf) (drop block_size c.buf)
              ∙ (ap (λ r. h.written ++ r) (take-drop block_size c.buf) ∙ h.sum);
          size = omega (arith, h.size, length-drop block_size c.buf);
          used = suc h.used;
          spent = spent;
          filled = omega (arith, h.filled);
        })

  -- All of `buf` is on the chain.
  abbrev pub AtEnd : Option Cursor → Disk → Type 0
  AtEnd none s = NoRoom total base buf
  AtEnd (some c) s = (m : ℕ) × Tip start c.curr m buf s

  pub write_last-AtEnd :
      (k : ℕ) (c : Cursor) (s : Disk) → OnWay k c s → Partial AtEnd (write_last path k c s)
  unfolding write_last
  write_last-AtEnd zero c s h = gives (
    block_size,
    subst (λ w. Tip start c.curr block_size w s) (written_all buf c.buf h.written h.size h.sum)
        h.tip,
  )
  write_last-AtEnd (suc k) c s h =
      one_block_more set_status (λ b. record b { status = 1 }) sets (λ b. refl) path c.buf (suc k)
        (omega (arith, h.size)) start c.curr h.written s h.tip total base h.used h.spent AtEnd
        (λ full t. omega (arith, full, h.filled))
        (λ n. pure (some (record c { curr = n; wrote = c.wrote + suc k })))
        λ n t tip spent. gives (
          suc k,
          subst (λ w. Tip start n (suc k) w t)
              (ap (λ r. h.written ++ r) (take-size c.buf (suc k) h.size) ∙ h.sum) tip,
        )
