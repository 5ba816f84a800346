-- ===== src/Wslfuse.antt =====
-- src/wslfuse/device.c: the files that processes open on /dev/fuse, and the mounts that these make.
-- Files and mounts are addresses, and 0 is no address. A function is what a thread does under one lock,
-- the MountListLock of the device or FuseMiscLock. There is one device, so that the test of its address
-- in FuseMiscFileListGetMount holds.
pub mod Volume
pub mod Sound
pub mod Kept
pub mod Requests
pub mod Io
pub mod Gather
pub mod Accounts
pub mod Created
pub mod Given
pub mod Released
pub mod Reach
pub mod Table
pub mod Maps
pub mod Tests
use winfuse.Base.{
  ℕ, ◌+◌, ◌-◌, ◌^◌, Bool, true, false, not, ◌&&◌, Option, none, some, List, [], ◌∷◌, ◌++◌, ◌==◌,
  if◌then◌else◌, erase,
}
use winfuse.Cache.{update, inc32, inc64, dec32}

-- A MOUNT; the list entry is the place in the list of the device.
pub record Mount : Type 0 where
  pub ref_count : ℕ
  pub lx_mount_id : ℕ
  pub file : ℕ

-- A FILE.
pub record DeviceFile : Type 0 where
  pub mount : ℕ
  pub volume_id : ℕ
  pub fuse_instance : ℕ
  pub volume_handle : ℕ
  pub volume_file_object : ℕ
  pub win_mount_handle : ℕ

-- What FileDelete has done with a file, from its last use on: it is taken off FuseMiscFileList, then
-- no mount names it, and then it is no file any longer.
abbrev pub file_absent : ℕ
file_absent = 0

abbrev pub file_open : ℕ
file_open = 1

abbrev pub file_unlisted : ℕ
file_unlisted = 2

abbrev pub file_detached : ℕ
file_detached = 3

-- How many of what the system gives are not given back: instances in memory, instances that were
-- initialized, handles and file objects of volumes, and handles of mount points.
pub record Resources : Type 0 where
  pub instances : ℕ
  pub initialized : ℕ
  pub volume_handles : ℕ
  pub volume_file_objects : ℕ
  pub win_mount_handles : ℕ

-- `mount_list` is that of the device, `file_list` is FuseMiscFileList, and `posted` has the instances
-- to which DESTROY was posted. `holder` is no part of the code: it tells for which file a mount counts
-- a reference, and 0 for none.
pub record DeviceState : Type 0 where
  pub mounts : ℕ → Mount
  pub files : ℕ → DeviceFile
  pub allocated : ℕ → Bool
  pub phase : ℕ → ℕ
  pub holder : ℕ → ℕ
  pub mount_list : List ℕ
  pub file_list : List ℕ
  pub posted : List ℕ
  pub static_volume_id : ℕ
  pub resources : Resources

-- FuseMiscInitialize and FuseMiscRegister: no files and no mounts. Where nothing is allocated, the
-- memory has any content, here 0.
unfoldable pub device_initialize : DeviceState
device_initialize = record {
  mounts = λ _. record { ref_count = 0; lx_mount_id = 0; file = 0 };
  files = λ _. record {
    mount = 0;
    volume_id = 0;
    fuse_instance = 0;
    volume_handle = 0;
    volume_file_object = 0;
    win_mount_handle = 0;
  };
  allocated = λ _. false;
  phase = λ _. file_absent;
  holder = λ _. 0;
  mount_list = [];
  file_list = [];
  posted = [];
  static_volume_id = 0xffff_ffff_ffff_ffff;
  resources = record {
    instances = 0;
    initialized = 0;
    volume_handles = 0;
    volume_file_objects = 0;
    win_mount_handles = 0;
  };
}

-- What the calls return: 0, or the negative of an error number.
pub data Outcome : Type 0 where
  success eexist enoent einval eio enomem enodev eintr efault : Outcome

-- (UINT64)-1, the id of a mount that is not in the list.
abbrev pub no_id : ℕ
no_id = 0xffff_ffff_ffff_ffff

abbrev pub set_mount : DeviceState → ℕ → Mount → DeviceState
set_mount w m mount = record w { mounts = update w.mounts m mount }

abbrev pub set_file : DeviceState → ℕ → DeviceFile → DeviceState
set_file w f file = record w { files = update w.files f file }

-- MountCreate, of memory at `m`.
abbrev pub new_mount : Mount
new_mount = record { ref_count = 1; lx_mount_id = no_id; file = 0 }

-- MountReference.
unfoldable pub mount_reference : DeviceState → ℕ → DeviceState
mount_reference w m =
    let mount = w.mounts m in set_mount w m (record mount { ref_count = inc32 mount.ref_count })

-- MountDereference.
unfoldable pub mount_dereference : DeviceState → ℕ → DeviceState
mount_dereference w m =
    let mount = w.mounts m in
    let v = set_mount w m (record mount { ref_count = dec32 mount.ref_count }) in
    if dec32 mount.ref_count == 0 then record v { allocated = update v.allocated m false } else v

-- DeviceOpen, with the memory that it is given for the mount and for the file.
unfoldable pub device_open : (mount file : ℕ) → DeviceState → Outcome × DeviceState
unfolding mount_dereference
device_open m f w =
    if m == 0
    then (enomem, w)
    else (let v = record (set_mount w m new_mount) { allocated = update w.allocated m true } in
        if f == 0
        then (enomem, mount_dereference v m)
        else (let volume_id = inc64 w.static_volume_id in
            (
              success,
              record v {
                mounts = update v.mounts m (record new_mount { file = f });
                files = update v.files f (record {
                  mount = m;
                  volume_id = volume_id;
                  fuse_instance = 0;
                  volume_handle = 0;
                  volume_file_object = 0;
                  win_mount_handle = 0;
                });
                phase = update v.phase f file_open;
                holder = update v.holder m f;
                static_volume_id = volume_id;
              },
            )))

-- The search of FileIoctlLxMount in the list of the device.
unfoldable pub find_mount : (ℕ → Mount) → (lx_mount_id : ℕ) → List ℕ → Option ℕ
find_mount mounts id [] = none
find_mount mounts id (m ∷ ms) =
    if (mounts m).lx_mount_id == id then some m else find_mount mounts id ms

-- FuseMiscFileListGetMount.
unfoldable pub get_mount : (ℕ → DeviceFile) → (volume_id : ℕ) → List ℕ → Option ℕ
get_mount files id [] = none
get_mount files id (f ∷ fs) =
    if (files f).volume_id == id then some (files f).mount else get_mount files id fs

-- The mount is entered into the list under its id.
unfoldable pub with_id : DeviceState → (mount lx_mount_id : ℕ) → DeviceState
unfolding mount_reference
with_id w m id =
    let v = mount_reference w m in
    record (set_mount v m (record (v.mounts m) { lx_mount_id = id })) {
      mount_list = v.mount_list ++ m ∷ [];
    }

unfoldable pub attach_mount : (lx_mount_id : ℕ) → Option ℕ → DeviceState → Outcome × DeviceState
unfolding with_id
attach_mount id none w = (enoent, w)
attach_mount id (some m) w =
    if not ((w.mounts m).lx_mount_id == no_id) then (eexist, w) else (success, with_id w m id)

-- DESTROY is posted to the instance of a file that still names the mount and has a volume.
unfoldable pub post_destroy : ℕ → DeviceState → DeviceState
post_destroy f w =
    if not (f == 0) && not ((w.files f).volume_file_object == 0)
    then record w { posted = (w.files f).fuse_instance ∷ w.posted }
    else w

-- The mount is taken off the list, and the reference of the list given up.
unfoldable pub without : DeviceState → ℕ → DeviceState
unfolding mount_dereference
without w m =
    mount_dereference
      (record (set_mount w m (record (w.mounts m) { lx_mount_id = no_id })) {
        mount_list = erase m w.mount_list;
      })
      m

unfoldable pub detach_mount : Option ℕ → DeviceState → Outcome × DeviceState
unfolding without post_destroy
detach_mount none w = (enoent, w)
detach_mount (some m) w =
    let mount = w.mounts m in
    if mount.lx_mount_id == no_id
    then (enoent, w)
    else (success, post_destroy mount.file (without w m))

unfoldable pub query_mount : Option ℕ → DeviceState → Outcome
query_mount none w = enoent
query_mount (some m) w = if (w.mounts m).lx_mount_id == no_id then enoent else success

-- The mount that a request is about.
unfoldable pub mount_of : (file lx_mount_id : ℕ) → DeviceState → Option ℕ
unfolding find_mount
mount_of f id w =
    if id == no_id then some (w.files f).mount else find_mount w.mounts id w.mount_list

unfoldable pub add_mount :
    (volume_id lx_mount_id : ℕ) → Option ℕ → DeviceState → Outcome × DeviceState
unfolding attach_mount get_mount
add_mount volume_id id none w = attach_mount id (get_mount w.files volume_id w.file_list) w
add_mount volume_id id (some m) w = (eexist, w)

-- FileIoctlLxMount.
unfoldable pub ioctl_lx_mount :
    (file operation volume_id lx_mount_id : ℕ) → DeviceState → Outcome × DeviceState
unfolding mount_of add_mount detach_mount query_mount
ioctl_lx_mount f operation volume_id id w =
    let m = mount_of f id w in
    if operation == b'+'
    then add_mount volume_id id m w
    else if operation == b'-'
    then detach_mount m w
    else if operation == b'?'
    then (query_mount m w, w)
    else (einval, w)

-- FileDelete, up to the lock of the device, under it, and after it.
unfoldable pub delete_unlist : ℕ → DeviceState → DeviceState
delete_unlist f w =
    let v = record w { phase = update w.phase f file_unlisted } in
    if (w.files f).volume_file_object == 0 then v else record v { file_list = erase f w.file_list }

unfoldable pub delete_detach : ℕ → DeviceState → DeviceState
delete_detach f w =
    let m = (w.files f).mount in
    record (set_mount w m (record (w.mounts m) { file = 0 })) {
      phase = update w.phase f file_detached;
    }

-- The handles are closed, and the instance is finalized, where there are any.
unfoldable pub release_resources : DeviceFile → Resources → Resources
release_resources file r =
    let q =
      (if file.win_mount_handle == 0
        then r
        else record r { win_mount_handles = r.win_mount_handles - 1 }) in
    if file.volume_file_object == 0 then q else record q {
      volume_file_objects = q.volume_file_objects - 1;
      volume_handles = q.volume_handles - 1;
      initialized = q.initialized - 1;
      instances = q.instances - 1;
    }

unfoldable pub delete_finish : ℕ → DeviceState → DeviceState
unfolding mount_dereference release_resources
delete_finish f w =
    let m = (w.files f).mount in
    mount_dereference
      (record w {
        phase = update w.phase f file_absent;
        holder = update w.holder m 0;
        resources = release_resources (w.files f) w.resources;
      })
      m

-- DeviceDelete; the list is left as it is.
unfoldable pub device_delete : List ℕ → DeviceState → DeviceState
unfolding mount_dereference
device_delete [] w = w
device_delete (m ∷ ms) w = device_delete ms (mount_dereference w m)
