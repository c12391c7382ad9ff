-- ===== src/Ramdisk/Io/Stored.antt =====
-- A file of one block: what `pb_write` leaves in it, and what `pb_read` and `pb_getattr` then say.
use osprograms.Ramdisk.Io.Read.{get_file_from_path, clip, read_only, read_at, pb_readfile, pb_read}
use osprograms.Base.{
  ℕ, zero, suc, ◌+◌, ◌-◌, ◌^◌, ◌≤◌, ◌<◌, ◌≡◌, refl, sym, ap, ◌∙◌, subst, true, false, Option, none,
  some, List, [], ◌∷◌, ◌++◌, append-nil, append_assoc, arith, ltb, lt→ltb, length, get_elem?, take,
  drop, length-append, get_elem?-set_self, get_elem?-lt, take-append, length-drop, Str, str_eq,
}
use osprograms.Ramdisk.Io.Contents.{
  IsText, IsText-append, strlen-text, strlen-none, drop-all, splice-append, spliced, with_block,
  pb_writefile-one,
}
use osprograms.Ramdisk.Attributes.{
  strlen, ends, size_from, get_file_size, regular, Stat, stat_entry, pb_getattr,
}
use osprograms.Ramdisk.Paths.{root_path}
use osprograms.Ramdisk.Tree.{File, Ptr, deref, get_dir_present_at_dir, get_file_present_at_dir}
use native.Mathlib.Numerals.{add-one}
use osprograms.Run.{ok, fault}
use osprograms.Ramdisk.Disk.{block_size, Block, Disk, ret}
use osprograms.Ramdisk.Files.{descriptor, open_entry, open_or_create, pb_openfd}
use osprograms.Ramdisk.Files.Resolve.{Resolves, with_parent-Resolves}
use osprograms.Ramdisk.Io.{splice, pb_write}
use osprograms.Ramdisk.Safe.Table.{length-splice}
use osprograms.Ramdisk.Blocks.{load}
use osprograms.Ramdisk.Io.Offset.{read_at_first_block}

abbrev pub regular_stat : ℕ → Stat
regular_stat size = record { st_mode = regular; st_nlink = 1; st_size = some size }

-- The path names a file, and `content` is what the file's only block holds.
pub record Holds (path name : Str) (curr : Ptr) (i : ℕ) (content : List ℕ) (s : Disk) : Type 0 where
  pub resolves : Resolves path s.root curr name
  pub file : File
  pub found : get_file_present_at_dir (deref curr s.root) name ≡ some file
  pub first : file.first_block ≡ some i
  pub block : Block
  pub there : get_elem? s.blocks i ≡ some block
  pub content_is : block.block_content ≡ content
  pub alone : ends block.next_block ≡ true
  pub full : length content ≡ block_size

-- The loop of `getFileSize` at a block that ends its chain.
module _ (fuel i : ℕ) where
  size_from-alone :
      (n : ℕ) (next : Option ℕ) (content : List ℕ) (status : ℕ) (s : Disk)
      → get_elem? s.blocks i
        ≡ some (record { next_block = next; block_content = content; status = status })
      → ends next ≡ true
      → strlen content ≡ some n
      → size_from (suc fuel) i 0 s ≡ ok n s
  unfolding size_from
  size_from-alone n none content status s there h e =
      rw (there, size_from) (rw e (ap (λ k. ok k s) (omega arith)))
  size_from-alone n (some zero) content status s there h e =
      rw (there, size_from) (rw e (ap (λ k. ok k s) (omega arith)))
  size_from-alone n (some (suc j)) content status s there h e = absurd (ground arith)

  size_from-unended :
      (next : Option ℕ) (content : List ℕ) (status : ℕ) (s : Disk)
      → get_elem? s.blocks i
        ≡ some (record { next_block = next; block_content = content; status = status })
      → strlen content ≡ none
      → size_from (suc fuel) i 0 s ≡ fault
  unfolding size_from
  size_from-unended next content status s there e = rw (there, size_from) (rw (e, size_from))

module _ (path name : Str) (curr : Ptr) (i : ℕ) where
  pub pb_openfd-Holds :
      (content : List ℕ) (s : Disk)
      → Holds path name curr i content s
      → pb_openfd path s ≡ ok (ret i) s
  unfolding pb_openfd open_or_create open_entry
  pb_openfd-Holds content s h =
      rw (with_parent-Resolves s (open_entry descriptor path) h.resolves)
        (rw (h.found, open_entry) (rw h.first))

  -- A write within the block changes its bytes and nothing else of the file.
  pub pb_write-Holds :
      (offset : ℕ) (text content : List ℕ) (s : Disk)
      → Holds path name curr i content s
      → offset < block_size
      → offset + length text ≤ block_size
      → (t : Disk) × (pb_write path text (length text) offset s ≡ ok (ret (length text)) t)
        × Holds path name curr i (splice offset text content) t
        × (t.root ≡ s.root)
  unfolding pb_write
  pb_write-Holds offset text content s h low fits = (
    with_block path i h.block s h.there text offset low fits
        (record (spliced path i h.block s h.there text offset low fits) { next_block = none }),
    rw (pb_openfd-Holds content s h) (
        pb_writefile-one path i h.block s h.there text offset low fits
          (ap length h.content_is ∙ h.full) h.alone),
    record {
      resolves = h.resolves;
      file = h.file;
      found = h.found;
      first = h.first;
      block = record h.block {
        next_block = none;
        block_content = splice offset text h.block.block_content;
      };
      there = get_elem?-set_self s.blocks i _ (get_elem?-lt s.blocks i h.block h.there);
      content_is = rw h.content_is;
      alone = refl;
      full = length-splice 0 offset text content (omega (arith, h.full)) ∙ h.full;
    },
    refl,
  )

  module _ (content : List ℕ) (s : Disk) (h : Holds path name curr i content s) where
    get_file_size-Holds : (n : ℕ) → strlen content ≡ some n → get_file_size h.file s ≡ ok n s
    unfolding get_file_size
    get_file_size-Holds n e =
        rw (h.first, get_file_size)
          (rw add-one (
            size_from-alone (length s.blocks) i n h.block.next_block h.block.block_content
              h.block.status s h.there h.alone (rw h.content_is e)))

    get_file_size-unended : strlen content ≡ none → get_file_size h.file s ≡ fault
    unfolding get_file_size
    get_file_size-unended e =
        rw (h.first, get_file_size)
          (rw add-one (
            size_from-unended (length s.blocks) i h.block.next_block h.block.block_content
              h.block.status s h.there (rw h.content_is e)))

    get_file_from_path-Holds : get_file_from_path path s ≡ ok h.file s
    unfolding get_file_from_path
    get_file_from_path-Holds =
        rw (h.resolves.parent_path, get_file_from_path)
          (rw (h.resolves.walk, get_file_from_path)
            (rw (h.resolves.entry_name, get_file_from_path) (rw (h.found, get_file_from_path))))

    read_only-Holds :
        (n room : ℕ)
        → strlen content ≡ some n
        → n < room
        → read_only i 0 room s ≡ ok (record { code = ret n; bytes = take n content ++ (0 ∷ []) }) s
    unfolding read_only load
    read_only-Holds n room e lt =
        let test : ltb n room ≡ true = lt→ltb n room lt in
        let loaded : load i s ≡ ok h.block s = unfold load in rw (h.there, load) in
        rw loaded (rw h.content_is (rw e (rw test)))

    stat_entry-Holds :
        (n : ℕ)
        → strlen content ≡ some n
        → get_dir_present_at_dir (deref curr s.root) name ≡ none
        → stat_entry (deref curr s.root) name s ≡ ok (some (regular_stat n)) s
    unfolding stat_entry
    stat_entry-Holds n e no_dir =
        rw (no_dir, stat_entry) (rw (h.found, stat_entry) (rw (get_file_size-Holds n e)))

    pb_read-unended : (size : ℕ) → strlen content ≡ none → pb_read path size 0 s ≡ fault
    unfolding pb_read pb_readfile
    pb_read-unended size e =
        rw (pb_openfd-Holds content s h)
          (rw get_file_from_path-Holds (rw (get_file_size-unended e)))

  -- The block holds the text `a`, and then a NUL.
  module _ (a rest : List ℕ) (s : Disk) (h : Holds path name curr i (a ++ (0 ∷ rest)) s)
      (plain : IsText a) where
    length-lt : length a < block_size
    length-lt = omega (arith, h.full, length-append a (0 ∷ rest))

    -- Where the path names a file of one block, which holds the text `a` and a NUL behind it, a read
    -- at any offset up to the end of the text, into a buffer longer than the text, returns the length of all
    -- of the text and writes it from its start, and a NUL, as a read from 0 does.
    pub pb_read-text :
        (size offset : ℕ)
        → length a < size
        → offset ≤ length a
        → offset + size < 2 ^ 64
        → pb_read path size offset s
          ≡ ok (record { code = ret (length a); bytes = a ++ (0 ∷ []) }) s
    unfolding pb_read pb_readfile
    pb_read-text size offset more before_end word =
        let clipped : clip (length a) size offset ≡ length a - offset =
          unfold clip in ground (arith, length-lt) in
        let ended = strlen-text a rest plain in
        rw (pb_openfd-Holds _ s h) (
          rw (get_file_from_path-Holds _ s h) (
            rw (get_file_size-Holds _ s h (length a) ended) (
              ap (λ n. read_at i size n offset s) clipped
              ∙ (read_at_first_block i size (length a - offset) offset s (omega (arith, length-lt))
                    (omega (arith, length-lt))
                  ∙ (read_only-Holds _ s h (length a) size ended more
                      ∙ ap (λ b. ok (record { code = ret (length a); bytes = b ++ (0 ∷ []) }) s)
                          (take-append a (0 ∷ rest)))))))

    pb_getattr-text :
        get_dir_present_at_dir (deref curr s.root) name ≡ none
        → str_eq path root_path ≡ false
        → pb_getattr path s ≡ ok (some (regular_stat (length a))) s
    unfolding pb_getattr
    pb_getattr-text no_dir inner =
        rw (inner, h.resolves.parent_path, pb_getattr)
          (rw (h.resolves.walk, pb_getattr)
            (rw (h.resolves.entry_name, pb_getattr)
              (stat_entry-Holds _ s h (length a) (strlen-text a rest plain) no_dir)))

  -- Where the path names a file of one block, a write of a whole block without a NUL succeeds, and
  -- every `pb_read` from 0 after it measures the block with `strlen` and reads past its end.
  pub pb_read-full :
      (text content : List ℕ) (s : Disk)
      → Holds path name curr i content s
      → IsText text
      → length text ≡ block_size
      → (size : ℕ)
      → (t : Disk) × (pb_write path text (length text) 0 s ≡ ok (ret (length text)) t)
        × (pb_read path size 0 t ≡ fault)
  pb_read-full text content s h plain full size =
      let (t, e, k, same) = pb_write-Holds 0 text content s h (omega arith) (omega arith) in
      (t, e, pb_read-unended _ t k size unended)
    where
      unended : strlen (splice 0 text content) ≡ none
      unended =
          let e : length text ≡ length content = full ∙ sym h.full in
          rw (splice-append [] text content, e)
            (rw drop-all (rw append-nil (strlen-none text plain)))

-- Text is written behind `before`, and a NUL follows it in the block.
module _ (path name : Str) (curr : Ptr) (i : ℕ) (before text rest tail : List ℕ) (s : Disk)
    (h : Holds path name curr i (before ++ rest) s)
    (ended : drop (length text) rest ≡ 0 ∷ tail) where
  sizes : length before + length text < block_size
  sizes =
      let e : suc (length tail) ≡ length rest - length text =
        ap length (sym ended) ∙ length-drop (length text) rest in
      omega (arith, h.full, length-append before rest)

  pub pb_write-text :
      (t : Disk) × (pb_write path text (length text) (length before) s ≡ ok (ret (length text)) t)
      × Holds path name curr i ((before ++ text) ++ (0 ∷ tail)) t
      × (t.root ≡ s.root)
  pb_write-text =
      let (t, e, k, same) =
        pb_write-Holds path name curr i (length before) text (before ++ rest) s h
          (omega (arith, sizes)) (omega (arith, sizes)) in
      (t, e, subst (λ c. Holds path name curr i c t) content k, same)
    where
      content : splice (length before) text (before ++ rest) ≡ (before ++ text) ++ (0 ∷ tail)
      content = rw (splice-append, ended) (sym (append_assoc before text (0 ∷ tail)))

  -- Where the path names a file of one block, which holds a text, and a text is written behind it
  -- that ends in front of a NUL of the block, `pb_write` returns its length, and `pb_read` from 0
  -- into a longer buffer then returns the length of both and writes both, and a NUL, into it.
  pub pb_read-pb_write :
      IsText before
      → IsText text
      → (size : ℕ) → length (before ++ text) < size
      → size < 2 ^ 64
      → (t : Disk) × (pb_write path text (length text) (length before) s ≡ ok (ret (length text)) t)
        × (pb_read path size 0 t
            ≡ ok
                (record {
                  code = ret (length (before ++ text));
                  bytes = (before ++ text) ++ (0 ∷ []);
                })
                t)
  pb_read-pb_write plain plain' size more word =
      let (t, e, k, same) = pb_write-text in
      (
        t,
        e,
        pb_read-text path name curr i (before ++ text) tail t k
            (IsText-append before text plain plain') size 0 more (omega arith)
            (omega (arith, word)),
      )

  -- Where the path names a file of one block, which holds a text, no directory has its name, and a
  -- text is written behind it that ends in front of a NUL of the block, `pb_write` returns its
  -- length, and `pb_getattr` then shows a regular file of the length of both.
  pub pb_getattr-pb_write :
      IsText before
      → IsText text
      → get_dir_present_at_dir (deref curr s.root) name ≡ none
      → str_eq path root_path ≡ false
      → (t : Disk) × (pb_write path text (length text) (length before) s ≡ ok (ret (length text)) t)
        × (pb_getattr path t ≡ ok (some (regular_stat (length (before ++ text)))) t)
  pb_getattr-pb_write plain plain' no_dir inner =
      let (t, e, k, same) = pb_write-text in
      (
        t,
        e,
        pb_getattr-text path name curr i (before ++ text) tail t k
            (IsText-append before text plain plain') (rw same no_dir) inner,
      )
