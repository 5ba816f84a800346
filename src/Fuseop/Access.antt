-- ===== src/Fuseop/Access.antt =====
-- FuseAccessCheck of src/shared/km/fuseop.c. Access masks and modes have 32 bits.
pub mod Masks
pub mod Rights
use winfuse.Fuseop.Right
use winfuse.Status.{status_success, status_access_denied}
use winfuse.Base.{ℕ, ◌+◌, ◌*◌, ◌/◌, ◌^◌, bit_and, bit_or, ◌==◌, if◌then◌else◌}

-- FusePosixDefaultPerm: to synchronize, and to read the security, the attributes and the extended ones.
abbrev pub default_perm : ℕ
default_perm = 0x12_0088

-- FusePosixOwnerDefaultPerm: also to delete, and to write them.
abbrev pub owner_default_perm : ℕ
owner_default_perm = 0x1f_0198

-- STANDARD_RIGHTS_ALL | SPECIFIC_RIGHTS_ALL.
abbrev pub all_rights : ℕ
all_rights = 0x1f_ffff

-- FusePosixMapPermissionToAccessMask.
unfoldable pub map_permission_to_access_mask : ℕ → ℕ → ℕ
map_permission_to_access_mask mode perm =
    let delete_child = if bit_and mode 0o41000 == 0o40000 then Right.delete_child else 0 in
    bit_or (if bit_and perm 4 == 0 then 0 else Right.read_data) (
      bit_or
        (if bit_and perm 2 == 0
          then 0
          else bit_or Right.write_attributes
              (bit_or Right.write_data (bit_or Right.append_data delete_child)))
        (if bit_and perm 1 == 0 then 0 else Right.execute))

-- What the mode gives to a user; ~001000 has 32 bits.
unfoldable pub file_access : ℕ → ℕ → ℕ → ℕ → ℕ → ℕ
unfolding map_permission_to_access_mask
file_access file_uid file_gid file_mode orig_uid orig_gid =
    if orig_uid == file_uid
    then bit_or owner_default_perm (
        map_permission_to_access_mask (bit_and file_mode 0xffff_fdff)
          (bit_and file_mode 0o700 / 2 ^ 6))
    else if orig_gid == file_gid
    then bit_or default_perm
        (map_permission_to_access_mask file_mode (bit_and file_mode 0o070 / 2 ^ 3))
    else bit_or default_perm (map_permission_to_access_mask file_mode (bit_and file_mode 0o007))

-- FuseAccessCheck: the status, and the access that is granted.
unfoldable pub access_check : ℕ → ℕ → ℕ → ℕ → ℕ → ℕ → ℕ × ℕ
unfolding file_access
access_check file_uid file_gid file_mode orig_uid orig_gid desired_access =
    let access = file_access file_uid file_gid file_mode orig_uid orig_gid in
    let required = bit_and desired_access all_rights in
    if required == bit_and access required
    then (
      status_success,
      if bit_and desired_access Right.maximum_allowed == 0 then required else access,
    )
    else (status_access_denied, 0)
