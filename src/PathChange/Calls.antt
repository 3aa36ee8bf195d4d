-- ===== src/PathChange/Calls.antt =====
-- iointercept/iointercept.cc on Linux: the library calls that the interception library replaces. Each
-- passes its arguments on to the function that it replaces, with its paths changed. A pointer and an
-- `int` are numbers here, and what a call passes on is a value of `Call`, with the constructors in the
-- words of the C library.
use h_flat.Base.{ℕ, Bool, true, false, List, Option, none, some, Str, eqb, if◌then◌else◌}
use h_flat.World.State.{Run, done}
use h_flat.PathChange.{change, ◌>>=◌}

pub data Call : Type 0 where
  opendir remove unlink rmdir chdir : Str → Call
  utimes utime statfs statvfs fopen realpath chmod lstat mkdir mkfifo stat access truncate pathconf
        creat :
      Str → ℕ → Call
  statfs64 stat64 lstat64 statvfs64 creat64 : Str → ℕ → Call
  mknod chown lchown readlink : Str → ℕ → ℕ → Call
  rename link symlink : Str → Str → Call
  getxattr lgetxattr : Str → ℕ → ℕ → ℕ → Call
  setxattr lsetxattr : Str → ℕ → ℕ → ℕ → ℕ → Call
  open_file open64 : Str → ℕ → Option ℕ → Call
  openat : ℕ → Str → ℕ → Option ℕ → Call
  xmknod : ℕ → Str → ℕ → ℕ → Call
  xstat xstat64 lxstat lxstat64 : ℕ → Str → ℕ → Call
  unlinkat mkdirat mkfifoat : ℕ → Str → ℕ → Call
  linkat : ℕ → Str → ℕ → Str → ℕ → Call
  mknodat readlinkat utimensat : ℕ → Str → ℕ → ℕ → Call
  renameat : ℕ → Str → ℕ → Str → Call
  symlinkat : Str → ℕ → Str → Call

-- `flags & O_CREAT`.
abbrev pub creates : ℕ → Bool
creates flags = if eqb (Prim.Native.Nat.bit_and flags 0o100) 0 then false else true

-- `va_arg` is read only if the file may be created.
abbrev pub mode_arg : ℕ → ℕ → Option ℕ
mode_arg flags mode = if creates flags then some mode else none

module _ (fuel : ℕ) (hash : Str → ℕ) (cwd : Str) (mounts : List Str) where
  abbrev pub changed : Str → Run Str
  changed path = change fuel hash cwd mounts path

  unfoldable pub pc_opendir : Str → Run Call
  unfolding change
  pc_opendir path = do p ← changed path; done (opendir p)

  unfoldable pub pc_remove : Str → Run Call
  unfolding change
  pc_remove path = do p ← changed path; done (remove p)

  unfoldable pub pc_unlink : Str → Run Call
  unfolding change
  pc_unlink path = do p ← changed path; done (unlink p)

  unfoldable pub pc_rmdir : Str → Run Call
  unfolding change
  pc_rmdir path = do p ← changed path; done (rmdir p)

  unfoldable pub pc_chdir : Str → Run Call
  unfolding change
  pc_chdir path = do p ← changed path; done (chdir p)

  unfoldable pub pc_utimes : Str → ℕ → Run Call
  unfolding change
  pc_utimes path times = do p ← changed path; done (utimes p times)

  unfoldable pub pc_utime : Str → ℕ → Run Call
  unfolding change
  pc_utime path buf = do p ← changed path; done (utime p buf)

  unfoldable pub pc_statfs : Str → ℕ → Run Call
  unfolding change
  pc_statfs path buf = do p ← changed path; done (statfs p buf)

  unfoldable pub pc_statvfs : Str → ℕ → Run Call
  unfolding change
  pc_statvfs path buf = do p ← changed path; done (statvfs p buf)

  unfoldable pub pc_fopen : Str → ℕ → Run Call
  unfolding change
  pc_fopen path mode = do p ← changed path; done (fopen p mode)

  unfoldable pub pc_realpath : Str → ℕ → Run Call
  unfolding change
  pc_realpath path resolved = do p ← changed path; done (realpath p resolved)

  unfoldable pub pc_chmod : Str → ℕ → Run Call
  unfolding change
  pc_chmod path mode = do p ← changed path; done (chmod p mode)

  unfoldable pub pc_lstat : Str → ℕ → Run Call
  unfolding change
  pc_lstat path st = do p ← changed path; done (lstat p st)

  unfoldable pub pc_mkdir : Str → ℕ → Run Call
  unfolding change
  pc_mkdir path mode = do p ← changed path; done (mkdir p mode)

  unfoldable pub pc_mkfifo : Str → ℕ → Run Call
  unfolding change
  pc_mkfifo path mode = do p ← changed path; done (mkfifo p mode)

  unfoldable pub pc_stat : Str → ℕ → Run Call
  unfolding change
  pc_stat path st = do p ← changed path; done (stat p st)

  unfoldable pub pc_access : Str → ℕ → Run Call
  unfolding change
  pc_access path i = do p ← changed path; done (access p i)

  unfoldable pub pc_truncate : Str → ℕ → Run Call
  unfolding change
  pc_truncate path offset = do p ← changed path; done (truncate p offset)

  unfoldable pub pc_pathconf : Str → ℕ → Run Call
  unfolding change
  pc_pathconf path i = do p ← changed path; done (pathconf p i)

  unfoldable pub pc_creat : Str → ℕ → Run Call
  unfolding change
  pc_creat path mode = do p ← changed path; done (creat p mode)

  unfoldable pub pc_mknod : Str → ℕ → ℕ → Run Call
  unfolding change
  pc_mknod path mode dev = do p ← changed path; done (mknod p mode dev)

  unfoldable pub pc_chown : Str → ℕ → ℕ → Run Call
  unfolding change
  pc_chown path uid gid = do p ← changed path; done (chown p uid gid)

  unfoldable pub pc_lchown : Str → ℕ → ℕ → Run Call
  unfolding change
  pc_lchown path uid gid = do p ← changed path; done (lchown p uid gid)

  unfoldable pub pc_readlink : Str → ℕ → ℕ → Run Call
  unfolding change
  pc_readlink path buf size = do p ← changed path; done (readlink p buf size)

  unfoldable pub pc_rename : Str → Str → Run Call
  unfolding change
  pc_rename p1 p2 = do q1 ← changed p1; q2 ← changed p2; done (rename q1 q2)

  unfoldable pub pc_link : Str → Str → Run Call
  unfolding change
  pc_link p1 p2 = do q1 ← changed p1; q2 ← changed p2; done (link q1 q2)

  unfoldable pub pc_symlink : Str → Str → Run Call
  unfolding change
  pc_symlink p1 p2 = do q1 ← changed p1; q2 ← changed p2; done (symlink q1 q2)

  unfoldable pub pc_getxattr : Str → ℕ → ℕ → ℕ → Run Call
  unfolding change
  pc_getxattr path name value size = do p ← changed path; done (getxattr p name value size)

  unfoldable pub pc_setxattr : Str → ℕ → ℕ → ℕ → ℕ → Run Call
  unfolding change
  pc_setxattr path name value size flags = do
    p ← changed path
    done (setxattr p name value size flags)

  unfoldable pub pc_open : Str → ℕ → ℕ → Run Call
  unfolding change
  pc_open path flags mode = do p ← changed path; done (open_file p flags (mode_arg flags mode))
