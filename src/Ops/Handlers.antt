-- ===== src/Ops/Handlers.antt =====
-- The handlers of src/fuseops that only pass their call on, and `hflat_statfs` of src/fuseops/attr.cc.
use h_flat.Base.{
  ℕ, ◌+◌, ◌-◌, ◌/◌, Bool, Option, require, assertion, none, some, Str, leb, drop, length,
}
use h_flat.World.State.{System, M, ◌>>=◌, ◌>>◌, pure, from_env, lift, Reply, answer, refused}
use h_flat.World.Helper.{eio}
use h_flat.World.Util.{u16_max}
use h_flat.Cluster.Capacity.{Floats, Capacity}
use h_flat.Ops.Create.{hflat_create}
use h_flat.Ops.Truncate.{hflat_truncate}
use h_flat.Ops.Xattr.{XattrFlags, hflat_setxattr, hflat_getxattr}

-- `mode | S_IFDIR`.
abbrev pub as_directory : ℕ → ℕ
as_directory mode = Prim.Native.Nat.bit_or mode 0o040000

-- What `hflat_statfs` fills in of `struct statvfs`.
pub record Statvfs : Type 0 where
  pub f_frsize : ℕ
  pub f_bsize : ℕ
  pub f_blocks : ℕ
  pub f_bavail : ℕ
  pub f_bfree : ℕ
  pub f_namemax : ℕ
  pub f_files : ℕ
  pub f_ffree : ℕ

module _ {S : Type 0} (sys : System S) where
  unfoldable pub hflat_mkdir : ℕ → Str → ℕ → M S ℕ
  unfolding hflat_create
  hflat_mkdir fuel user_path mode = hflat_create sys fuel user_path (as_directory mode)

  unfoldable pub hflat_fcreate : ℕ → Str → ℕ → M S ℕ
  unfolding hflat_create
  hflat_fcreate fuel user_path mode = hflat_create sys fuel user_path mode

  -- The device number is not looked at.
  unfoldable pub hflat_mknod : ℕ → Str → ℕ → ℕ → M S ℕ
  unfolding hflat_create
  hflat_mknod fuel user_path mode rdev = hflat_create sys fuel user_path mode

  unfoldable pub hflat_ftruncate : ℕ → Str → ℕ → M S ℕ
  unfolding hflat_truncate
  hflat_ftruncate fuel user_path offset = hflat_truncate sys fuel user_path offset

  unfoldable pub hflat_fsyncdir : Str → M S ℕ
  hflat_fsyncdir user_path = pure 0

  unfoldable pub hflat_flush : Str → M S ℕ
  hflat_flush user_path = pure 0

  -- The size comes from the result of `GetCapacity`.
  unfoldable pub hflat_statfs :
      {F : Type 0} → Floats S F → (S → Reply (Capacity F) × S) → M S (ℕ × Option Statvfs)
  hflat_statfs floats get_capacity = do
    reply ← from_env get_capacity
    elim reply [
      | refused f ↦ pure (eio, none)
      | answer cap ↦ λ w.
          let bytes = cap.nominal_capacity_in_bytes in
          let used = floats.times (floats.of_ℕ bytes) cap.portion_full in
          let free =
            floats.truncated
              (floats.over (floats.minus (floats.of_ℕ bytes) used) (floats.of_ℕ 4096)) in
          pure
            (
              0,
              some (record {
                f_frsize = 4096;
                f_bsize = sys.block_size;
                f_blocks = bytes / 4096;
                f_bavail = free;
                f_bfree = free;
                f_namemax = sys.limits.name_max;
                f_files = w.inum_base + w.inum_counter;
                f_ffree = u16_max;
              }),
            )
            w
    ]

module _ {S : Type 0} (sys : System S) (fsck : Str → ℕ → M S ℕ) (self_check : M S Bool) where
  -- On one platform the attribute's value starts at a position of the buffer.
  unfoldable pub hflat_setxattr_apple : ℕ → Str → Str → Str → XattrFlags → ℕ → M S ℕ
  unfolding hflat_setxattr
  hflat_setxattr_apple fuel user_path name value flags position = do
    lift (require (leb position (length value)) assertion)
    hflat_setxattr sys fsck self_check fuel user_path name (drop position value) flags

module _ {S : Type 0} (sys : System S) where
  unfoldable pub hflat_getxattr_apple : ℕ → Str → Str → ℕ → ℕ → M S (ℕ × ℕ × Str)
  unfolding hflat_getxattr
  hflat_getxattr_apple fuel user_path name size position = do
    lift (require (leb position size) assertion)
    hflat_getxattr sys fuel user_path name (size - position)
