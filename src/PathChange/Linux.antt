-- ===== src/PathChange/Linux.antt =====
-- The library calls of iointercept/iointercept.cc that exist on Linux alone, and what becomes of those
-- that name a directory by a descriptor.
use h_flat.Base.{ℕ, ◌≡◌, true, false, List, [], ◌∷◌, ◌++◌, Str, length, ◌<◌, All, arith}
use h_flat.Paths.{slash}
use h_flat.World.State.{Run, done}
use h_flat.PathChange.{change, real_path, starts_with_slash, ◌>>=◌}
use h_flat.PathChange.Real.{is_clean, real_path_clean}
use h_flat.PathChange.Mounts.{IsElsewhere, below_mounts_elsewhere}
use h_flat.PathChange.Calls.{
  Call, changed, mode_arg, creat64, lgetxattr, linkat, lsetxattr, lstat64, lxstat, lxstat64,
  mkdirat, mkfifoat, mknodat, open64, openat, readlinkat, renameat, stat64, statfs64, statvfs64,
  symlinkat, unlinkat, utimensat, xmknod, xstat, xstat64,
}

module _ (fuel : ℕ) (hash : Str → ℕ) (cwd : Str) (mounts : List Str) where
  unfoldable pub pc_statfs64 : Str → ℕ → Run Call
  unfolding change
  pc_statfs64 path buf = do p ← changed fuel hash cwd mounts path; done (statfs64 p buf)

  unfoldable pub pc_stat64 : Str → ℕ → Run Call
  unfolding change
  pc_stat64 path buf = do p ← changed fuel hash cwd mounts path; done (stat64 p buf)

  unfoldable pub pc_lstat64 : Str → ℕ → Run Call
  unfolding change
  pc_lstat64 path buf = do p ← changed fuel hash cwd mounts path; done (lstat64 p buf)

  unfoldable pub pc_statvfs64 : Str → ℕ → Run Call
  unfolding change
  pc_statvfs64 path buf = do p ← changed fuel hash cwd mounts path; done (statvfs64 p buf)

  unfoldable pub pc_creat64 : Str → ℕ → Run Call
  unfolding change
  pc_creat64 path mode = do p ← changed fuel hash cwd mounts path; done (creat64 p mode)

  unfoldable pub pc_lgetxattr : Str → ℕ → ℕ → ℕ → Run Call
  unfolding change
  pc_lgetxattr path name value size = do
    p ← changed fuel hash cwd mounts path
    done (lgetxattr p name value size)

  unfoldable pub pc_lsetxattr : Str → ℕ → ℕ → ℕ → ℕ → Run Call
  unfolding change
  pc_lsetxattr path name value size flags = do
    p ← changed fuel hash cwd mounts path
    done (lsetxattr p name value size flags)

  unfoldable pub pc_open64 : Str → ℕ → ℕ → Run Call
  unfolding change
  pc_open64 path flags mode = do
    p ← changed fuel hash cwd mounts path
    done (open64 p flags (mode_arg flags mode))

  unfoldable pub pc_openat : ℕ → Str → ℕ → ℕ → Run Call
  unfolding change
  pc_openat dirfd path flags mode = do
    p ← changed fuel hash cwd mounts path
    done (openat dirfd p flags (mode_arg flags mode))

  unfoldable pub pc_xmknod : ℕ → Str → ℕ → ℕ → Run Call
  unfolding change
  pc_xmknod ver path mode dev = do
    p ← changed fuel hash cwd mounts path
    done (xmknod ver p mode dev)

  unfoldable pub pc_xstat : ℕ → Str → ℕ → Run Call
  unfolding change
  pc_xstat ver path buf = do p ← changed fuel hash cwd mounts path; done (xstat ver p buf)

  unfoldable pub pc_xstat64 : ℕ → Str → ℕ → Run Call
  unfolding change
  pc_xstat64 ver path buf = do p ← changed fuel hash cwd mounts path; done (xstat64 ver p buf)

  unfoldable pub pc_lxstat : ℕ → Str → ℕ → Run Call
  unfolding change
  pc_lxstat ver path buf = do p ← changed fuel hash cwd mounts path; done (lxstat ver p buf)

  unfoldable pub pc_lxstat64 : ℕ → Str → ℕ → Run Call
  unfolding change
  pc_lxstat64 ver path buf = do p ← changed fuel hash cwd mounts path; done (lxstat64 ver p buf)

  unfoldable pub pc_unlinkat : ℕ → Str → ℕ → Run Call
  unfolding change
  pc_unlinkat dirfd path flags = do
    p ← changed fuel hash cwd mounts path
    done (unlinkat dirfd p flags)

  unfoldable pub pc_linkat : ℕ → Str → ℕ → Str → ℕ → Run Call
  unfolding change
  pc_linkat olddirfd oldpath newdirfd newpath flags = do
    p ← changed fuel hash cwd mounts oldpath
    q ← changed fuel hash cwd mounts newpath
    done (linkat olddirfd p newdirfd q flags)

  unfoldable pub pc_mkdirat : ℕ → Str → ℕ → Run Call
  unfolding change
  pc_mkdirat dirfd path mode = do p ← changed fuel hash cwd mounts path; done (mkdirat dirfd p mode)

  unfoldable pub pc_mknodat : ℕ → Str → ℕ → ℕ → Run Call
  unfolding change
  pc_mknodat dirfd path mode dev = do
    p ← changed fuel hash cwd mounts path
    done (mknodat dirfd p mode dev)

  unfoldable pub pc_readlinkat : ℕ → Str → ℕ → ℕ → Run Call
  unfolding change
  pc_readlinkat dirfd path buf bufsiz = do
    p ← changed fuel hash cwd mounts path
    done (readlinkat dirfd p buf bufsiz)

  unfoldable pub pc_renameat : ℕ → Str → ℕ → Str → Run Call
  unfolding change
  pc_renameat olddirfd oldpath newdirfd newpath = do
    p ← changed fuel hash cwd mounts oldpath
    q ← changed fuel hash cwd mounts newpath
    done (renameat olddirfd p newdirfd q)

  unfoldable pub pc_symlinkat : Str → ℕ → Str → Run Call
  unfolding change
  pc_symlinkat oldpath newdirfd newpath = do
    p ← changed fuel hash cwd mounts oldpath
    q ← changed fuel hash cwd mounts newpath
    done (symlinkat p newdirfd q)

  unfoldable pub pc_utimensat : ℕ → Str → ℕ → ℕ → Run Call
  unfolding change
  pc_utimensat dirfd path times flags = do
    p ← changed fuel hash cwd mounts path
    done (utimensat dirfd p times flags)

  unfoldable pub pc_mkfifoat : ℕ → Str → ℕ → Run Call
  unfolding change
  pc_mkfifoat dirfd path mode = do
    p ← changed fuel hash cwd mounts path
    done (mkfifoat dirfd p mode)

-- Whatever directory the call names by its descriptor, `openat` opens a relative path below the working
-- directory, below no mount point too: it passes the working directory's path with the relative one
-- behind it. The working directory is absolute, the two together have no double slash and no component
-- that starts with a dot, and lie below no mount point; a fuel of one more than their length is enough.
pub pc_openat_relative :
    (fuel : ℕ) (hash : Str → ℕ) (cwd : Str) (mounts : List Str) (dirfd : ℕ) (path : Str)
    (flags mode : ℕ)
    → starts_with_slash cwd ≡ true
    → starts_with_slash path ≡ false
    → is_clean (cwd ++ (slash ∷ path)) ≡ true
    → length (cwd ++ (slash ∷ path)) < fuel
    → All (λ mnt. IsElsewhere mnt (cwd ++ (slash ∷ path))) mounts
    → pc_openat fuel hash cwd mounts dirfd path flags mode
      ≡ done (openat dirfd (cwd ++ (slash ∷ path)) flags (mode_arg flags mode))
unfolding pc_openat change real_path starts_with_slash
pc_openat_relative fuel hash [] mounts dirfd path flags mode absolute relative clean enough apart =
    absurd (ground arith)
pc_openat_relative fuel hash (c ∷ cwd) mounts dirfd path flags mode absolute relative clean enough
      apart =
    let whole = (c ∷ cwd) ++ (slash ∷ path) in
    let real = real_path_clean fuel (c ∷ cwd) whole clean absolute enough in
    ground (arith, absolute, relative, real, below_mounts_elsewhere hash mounts whole apart)
