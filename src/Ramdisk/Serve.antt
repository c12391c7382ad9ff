-- ===== src/Ramdisk/Serve.antt =====
-- The table `pb_oper` of fuseLibrary.c: the requests that FUSE passes to the handlers. It has those that
-- may change the disk, but for rmdir, and those that always succeed.
use osprograms.Base.{ℕ, List, [], ◌∷◌, length, Str}
use osprograms.Run.{pure, ◌>>=◌}
use osprograms.Ramdisk.Disk.{Ret, Cmd}
use osprograms.Ramdisk.Files.{pb_mkdir, pb_unlink, pb_open, pb_mknod, pb_access, pb_opendir}
use osprograms.Ramdisk.Io.{pb_write}

pub data Request : Type 0 where
  mkdir opens mknod unlink access opendir : Str → Request
  -- the path, the bytes, and the offset
  write : Str → List ℕ → ℕ → Request

unfoldable pub pb_oper : Request → Cmd Ret
unfolding pb_mkdir pb_open pb_mknod pb_unlink pb_access pb_opendir pb_write
pb_oper (mkdir path) = pb_mkdir path
pb_oper (opens path) = pb_open path
pb_oper (mknod path) = pb_mknod path
pb_oper (unlink path) = pb_unlink path
pb_oper (access path) = pb_access path
pb_oper (opendir path) = pb_opendir path
pb_oper (write path buf offset) = pb_write path buf (length buf) offset

-- The requests are served one after the other.
unfoldable pub serve : List Request → Cmd (List Ret)
unfolding pb_oper
serve [] = pure []
serve (r ∷ rs) = do answer ← pb_oper r; answers ← serve rs; pure (answer ∷ answers)
