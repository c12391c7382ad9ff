-- ===== src/Ramdisk/Safe/Serve.antt =====
-- Every state that requests lead to is well-formed.
use osprograms.Base.{
  ℕ, suc, ◌*◌, ◌^◌, ◌<◌, ◌≡◌, refl, ap, inl, inr, some, List, [], ◌∷◌, arith, length, All,
}
use osprograms.Ramdisk.Safe.Init.{initialize_file_system-Formatted}
use osprograms.Run.Returns
use osprograms.Run.Returns.{Returns, returns, bind, mono}
use osprograms.Ramdisk.Disk.{block_size, Disk, Ret, ret}
use osprograms.Ramdisk.Init.{initialize_file_system}
use osprograms.Ramdisk.Files.{pb_open, pb_mknod, pb_access, pb_opendir}
use osprograms.Ramdisk.Serve.{
  Request, mkdir, opens, mknod, unlink, access, opendir, write, pb_oper, serve,
}
use osprograms.Ramdisk.Safe.{IsSafe}
use osprograms.Ramdisk.Safe.Entries.{
  NameFits, pb_mkdir-IsSafe, pb_unlink-IsSafe, open_or_create-Opened,
}
use osprograms.Ramdisk.Safe.Write.{pb_write-Written}

-- The last part of a path that may become a name fits, and a write has less than 2 ^ 31 bytes.
abbrev pub Fits : Request → Type 0
Fits (mkdir path) = NameFits path
Fits (opens path) = NameFits path
Fits (mknod path) = NameFits path
Fits (unlink path) = Unit
Fits (access path) = Unit
Fits (opendir path) = Unit
Fits (write path buf offset) = NameFits path × (length buf < 2 ^ 31)

module _ (n : ℕ) where
  pb_oper-IsSafe :
      (r : Request) (s : Disk) → Fits r → IsSafe n s → Returns (λ _. IsSafe n) (pb_oper r s)
  unfolding pb_oper pb_open pb_mknod pb_access pb_opendir
  pb_oper-IsSafe (mkdir path) s f h = pb_mkdir-IsSafe n path s f h
  pb_oper-IsSafe (opens path) s f h =
      Returns.mono (open_or_create-Opened n (λ _. ret 0) path s f h) λ _ t k. k.0
  pb_oper-IsSafe (mknod path) s f h =
      Returns.mono (open_or_create-Opened n (λ _. ret 0) path s f h) λ _ t k. k.0
  pb_oper-IsSafe (unlink path) s f h = pb_unlink-IsSafe n path s h
  pb_oper-IsSafe (access path) s f h = returns h
  pb_oper-IsSafe (opendir path) s f h = returns h
  pb_oper-IsSafe (write path buf offset) s f h =
      Returns.mono (pb_write-Written n path buf offset s f.0 f.1 h) λ _ t k. k.0

  -- Each request has an answer.
  abbrev pub Served : List Request → List Ret → Disk → Type 0
  Served rs answers t = IsSafe n t × (length answers ≡ length rs)

  pub serve-Served :
      (rs : List Request) (s : Disk) → All Fits rs → IsSafe n s → Returns (Served rs) (serve rs s)
  unfolding serve
  serve-Served [] s f h = returns (h, refl)
  serve-Served (r ∷ rs) s f h =
      Returns.bind (pb_oper-IsSafe r s f.0 h)
        λ _ t k. Returns.bind (serve-Served rs t f.1 k) λ answers u (j, e). returns (j, ap suc e)

-- Of any requests to make, open or unlink entries or to write, in any order, whose names have fewer
-- than 30 bytes and whose writes have less than 2 ^ 31 bytes, a new file system of `fs_size` MB, fewer
-- than 2 ^ 21, where `malloc` gives arrays of a block's size, serves each one: none meets undefined
-- behaviour, and the state that they lead to is well-formed, with as many blocks.
pub serve-initialize_file_system :
    (fs_size : ℕ) (fresh : ℕ → List ℕ) (rs : List Request)
    → ((i : ℕ) → length (fresh i) ≡ block_size)
    → fs_size < 2 ^ 21
    → All Fits rs
    → (d : Disk) × (initialize_file_system fs_size fresh ≡ some d)
      × Returns (Served (fs_size * 256) rs) (serve rs d)
serve-initialize_file_system fs_size fresh rs arrays small fits =
    elim (initialize_file_system-Formatted fs_size fresh arrays) [
      | inl (less, d, made, (safe, _, _)) ↦ (d, made, serve-Served (fs_size * 256) rs d fits safe)
      | inr (more, e) ↦ absurd (omega (arith, small, more))
    ]
