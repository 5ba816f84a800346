-- ===== src/Fusermount/Mapped.antt =====
-- The mount helper of src/fusermount/fusermount.c and the table of mounts of src/wslfuse/device.c agree.
use winfuse.Base.{
  ℕ, ◌≡◌, ◌≢◌, ◌||◌, Bool, true, false, ◌&&◌, Option, none, some, ◌==◌, if◌then◌else◌,
}
use winfuse.Wslfuse.{DeviceState, Outcome, no_id}
use winfuse.Wslfuse.Volume.{IoctlCalls, is_success}
use winfuse.Wslfuse.Sound.{IsSound}
use winfuse.Wslfuse.Table.{table}
use winfuse.Wslfuse.Maps.{MountOf, is_free}
use winfuse.Fusermount.Mounting.{lxmount, Ended, MountCalls, UnmountCalls, is_enoent}

-- Whether the device takes the mount id that get_mnt_id found.
abbrev enters : (f volume_id : ℕ) → IoctlCalls → DeviceState → Option ℕ → Bool
enters f volume_id c w none = false
enters f volume_id c w (some id) = is_success (lxmount f b'+' volume_id id c w).0

-- Whether every call of the mount process succeeds.
abbrev pub mount_succeeds : (f volume_id : ℕ) → MountCalls → DeviceState → Bool
mount_succeeds f volume_id c w =
    c.opens && (c.mounts && enters f volume_id c.ioctl_calls w c.mnt_id)

-- How the mount process ends: well and mounted, or with neither.
pub data Mounts (f volume_id j : ℕ) (c : MountCalls) (w : DeviceState) : Ended → Type 0 where
  mounts_none :
      {e : Ended}
      → mount_succeeds f volume_id c w ≡ false
      → e.exit_code ≡ 1
      → e.mounted ≡ false
      → Mounts f volume_id j c w e
  mounts_one :
      {e : Ended} (id : ℕ) (o : Option ℕ)
      → mount_succeeds f volume_id c w ≡ true
      → c.mnt_id ≡ some id
      → e.exit_code ≡ 0
      → e.mounted ≡ true
      → MountOf w volume_id o
      → is_free w.mounts (table w id) o ≡ true
      → table e.device j ≡ (if j == id then o else table w j)
      → Mounts f volume_id j c w e

-- Whether the device answers that an id was taken off, or is not there.
abbrev is_off : Outcome → Bool
is_off r = is_success r || is_enoent r

-- Whether the device knows the id that get_mnt_id found, and takes it off.
abbrev knows : (f : ℕ) → IoctlCalls → DeviceState → Option ℕ → Bool
knows f c w none = false
knows f c w (some id) = is_success (lxmount f b'?' 0 id c w).0

abbrev takes_off : (f : ℕ) → IoctlCalls → DeviceState → Option ℕ → Bool
takes_off f c w none = false
takes_off f c w (some id) = is_off (lxmount f b'-' 0 id c w).0

-- Whether every call of do_unmount succeeds.
abbrev pub unmount_succeeds : (f : ℕ) → UnmountCalls → DeviceState → Bool
unmount_succeeds f c w =
    c.opens
    && (knows f c.query_calls w c.mnt_id
        && (c.unmounts && takes_off f c.remove_calls c.device c.mnt_id))

-- How do_unmount ends: with an id that was known off the table and no Linux mount, or not well.
pub data Unmounts (f j : ℕ) (c : UnmountCalls) (w : DeviceState) : Ended → Type 0 where
  unmounts_none :
      {e : Ended} → unmount_succeeds f c w ≡ false → e.exit_code ≡ 1 → Unmounts f j c w e
  unmounts_one :
      {e : Ended} (id m : ℕ)
      → unmount_succeeds f c w ≡ true
      → c.mnt_id ≡ some id
      → table w id ≡ some m
      → e.exit_code ≡ 0
      → e.mounted ≡ false
      → table e.device j ≡ (if j == id then none else table c.device j)
      → Unmounts f j c w e

module _ (f j : ℕ) (c : UnmountCalls) (w : DeviceState) (s : IsSound w) (t : IsSound c.device)
    (real_j : j ≢ no_id) where
  abbrev succeeds_with : Option ℕ → Bool
  succeeds_with i =
      c.opens
      && (knows f c.query_calls w i && (c.unmounts && takes_off f c.remove_calls c.device i))
