-- ===== src/Fusermount/Mounting.antt =====
-- do_mount, do_unmount and the mount process of spawn_lxmount_helper of src/fusermount/fusermount.c, on
-- the device of src/wslfuse/device.c. What the system returns is given. Between two calls other
-- processes may change the device, so that each call has a state of its own.
use winfuse.Base.{ℕ, Bool, true, false, not, ◌&&◌, Option, none, some, if◌then◌else◌}
use winfuse.Wslfuse.{DeviceState, Outcome, enoent}
use winfuse.Wslfuse.Volume.{
  IoctlCalls, ioctl_createvolume, ioctl_winmount, ioctl_lxmount, file_ioctl, is_success,
}

abbrev pub is_enoent : Outcome → Bool
is_enoent enoent = true
is_enoent _ = false

-- A request LXMOUNT, in memory of the kernel.
unfoldable pub lxmount :
    (file operation volume_id lx_mount_id : ℕ) → IoctlCalls → DeviceState → Outcome × DeviceState
lxmount f operation volume_id id c w =
    file_ioctl f ioctl_lxmount
      (record c { operation = operation; volume_id = volume_id; lx_mount_id = id }) w

-- How a process ends: its exit code, whether there is a Linux mount, and the device.
pub record Ended : Type 0 where
  pub exit_code : ℕ
  pub mounted : Bool
  pub device : DeviceState

-- What the system returns to the mount process: whether it can open the device, whether mount(2)
-- succeeds, and what get_mnt_id finds. umount2 is taken to succeed.
pub record MountCalls : Type 0 where
  pub opens : Bool
  pub mounts : Bool
  pub mnt_id : Option ℕ
  pub ioctl_calls : IoctlCalls

unfoldable pub associate : (file volume_id : ℕ) → MountCalls → Option ℕ → DeviceState → Ended
associate f volume_id c none w = record { exit_code = 1; mounted = false; device = w }
associate f volume_id c (some id) w =
    let (answer, v) = lxmount f b'+' volume_id id c.ioctl_calls w in
    if not (is_success answer)
    then record { exit_code = 1; mounted = false; device = v }
    else record { exit_code = 0; mounted = true; device = v }

-- The mount process: where it fails after mount(2), it unmounts.
unfoldable pub mount_process : (file volume_id : ℕ) → MountCalls → DeviceState → Ended
unfolding associate
mount_process f volume_id c w =
    if not c.opens
    then record { exit_code = 1; mounted = false; device = w }
    else if not c.mounts
    then record { exit_code = 1; mounted = false; device = w }
    else associate f volume_id c c.mnt_id w

-- What the system returns to do_unmount; `device` is the state of the device after umount2.
pub record UnmountCalls : Type 0 where
  pub opens : Bool
  pub mnt_id : Option ℕ
  pub unmounts : Bool
  pub query_calls : IoctlCalls
  pub remove_calls : IoctlCalls
  pub device : DeviceState

unfoldable pub disassociate : (file : ℕ) → UnmountCalls → Option ℕ → DeviceState → Ended
disassociate f c none w = record { exit_code = 1; mounted = true; device = w }
disassociate f c (some id) w =
    let (known, v) = lxmount f b'?' 0 id c.query_calls w in
    let (removed, u) = lxmount f b'-' 0 id c.remove_calls c.device in
    if not (is_success known)
    then record { exit_code = 1; mounted = true; device = v }
    else if not c.unmounts
    then record { exit_code = 1; mounted = true; device = v }
    else if not (is_success removed) && not (is_enoent removed)
    then record { exit_code = 1; mounted = false; device = u }
    else record { exit_code = 0; mounted = false; device = u }

-- do_unmount.
unfoldable pub do_unmount : (file : ℕ) → UnmountCalls → DeviceState → Ended
unfolding disassociate
do_unmount f c w =
    if not c.opens
    then record { exit_code = 1; mounted = true; device = w }
    else disassociate f c c.mnt_id w

-- What the system returns to do_mount: whether _FUSE_COMMFD is set, the device is opened, the Windows
-- helper is forked and gives a mount point, the file descriptor is sent, and the mount process spawned.
pub record DoMountCalls : Type 0 where
  pub commfd : Bool
  pub opens : Bool
  pub create_calls : IoctlCalls
  pub forks_helper : Bool
  pub helper_answers : Bool
  pub win_mount_calls : IoctlCalls
  pub sends : Bool
  pub spawns : Bool

-- How do_mount ends: its exit code, whether the helper was forked and was waited for, and whether the
-- descriptor of the device was opened and closed.
pub record DoMountEnded : Type 0 where
  pub exit_code : ℕ
  pub helper_forked : Bool
  pub helper_stopped : Bool
  pub fusefd_opened : Bool
  pub fusefd_closed : Bool
  pub device : DeviceState

-- The end of do_mount: the helper is stopped and the descriptor closed, where there are any.
unfoldable pub do_mount_exit : (done helper fusefd : Bool) → DeviceState → DoMountEnded
do_mount_exit done helper fusefd w = record {
  exit_code = if not done then 1 else 0;
  helper_forked = helper;
  helper_stopped = helper;
  fusefd_opened = fusefd;
  fusefd_closed = fusefd;
  device = w;
}

-- do_mount, from the start of the helper on.
unfoldable pub do_mount_helper : (file : ℕ) → DoMountCalls → DeviceState → DoMountEnded
unfolding do_mount_exit
do_mount_helper f c w =
    let (answer, v) = file_ioctl f ioctl_winmount c.win_mount_calls w in
    if not c.forks_helper
    then do_mount_exit false false true w
    else if not c.helper_answers
    then do_mount_exit false true true w
    else if not (is_success answer)
    then do_mount_exit false true true v
    else if not c.sends
    then do_mount_exit false true true v
    else if not c.spawns
    then do_mount_exit false true true v
    else do_mount_exit true true true v

-- do_mount.
unfoldable pub do_mount : (file : ℕ) → DoMountCalls → DeviceState → DoMountEnded
unfolding do_mount_exit do_mount_helper
do_mount f c w =
    let (answer, v) = file_ioctl f ioctl_createvolume c.create_calls w in
    if not c.commfd
    then do_mount_exit false false false w
    else if not c.opens
    then do_mount_exit false false false w
    else if not (is_success answer)
    then do_mount_exit false false true v
    else do_mount_helper f c v
