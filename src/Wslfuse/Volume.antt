-- ===== src/Wslfuse/Volume.antt =====
-- FileIoctlCreateVolume, FileIoctlWinMount and FileIoctl of src/wslfuse/device.c. What the system
-- returns is given; names and paths are not part of the state.
use winfuse.Base.{
  ℕ, ◌+◌, ◌-◌, ◌/◌, ◌%◌, ◌^◌, Bool, true, false, not, ◌&&◌, [], ◌∷◌, ◌++◌, ◌==◌, ltb, if◌then◌else◌,
}
use winfuse.Status.{nt_success}
use winfuse.Wslfuse.{
  DeviceState, Outcome, success, eio, einval, enomem, efault, Resources, set_file, ioctl_lx_mount,
}

-- What the calls of FileIoctlCreateVolume return: an instance in memory or 0, the status of
-- FuseInstanceInit, and what ZwOpenFile, ObReferenceObjectByHandle, ZwFsControlFile and
-- RtlUnicodeToUTF8N return. `version` is the version of the volume parameters.
pub record VolumeCalls : Type 0 where
  pub version : ℕ
  pub instance : ℕ
  pub init_status : ℕ
  pub open_status : ℕ
  pub handle : ℕ
  pub reference_status : ℕ
  pub object : ℕ
  pub name_status : ℕ
  pub utf8_status : ℕ

-- The variables that the end of FileIoctlCreateVolume tests.
pub record Acquired : Type 0 where
  pub volume_file_object : ℕ
  pub volume_handle : ℕ
  pub init_done_instance : Bool
  pub fuse_instance : ℕ

-- What is given back where it fails.
unfoldable pub volume_cleanup : Acquired → Resources → Resources
volume_cleanup a r = record r {
  volume_file_objects = r.volume_file_objects - (if a.volume_file_object == 0 then 0 else 1);
  volume_handles = r.volume_handles - (if a.volume_handle == 0 then 0 else 1);
  initialized = r.initialized - (if a.init_done_instance then 1 else 0);
  instances = r.instances - (if a.fuse_instance == 0 then 0 else 1);
}

unfoldable pub volume_failed : Acquired → DeviceState → Outcome × DeviceState
volume_failed a w = (eio, record w { resources = volume_cleanup a w.resources })

-- The size of FSP_FSCTL_VOLUME_PARAMS, and of the part that has no version.
abbrev pub volume_params_size : ℕ
volume_params_size = 504

abbrev pub volume_params_v0_size : ℕ
volume_params_v0_size = 456

unfoldable pub volume_opened : (file : ℕ) → VolumeCalls → DeviceState → Outcome × DeviceState
volume_opened f c w = (
  success,
  record (set_file w f (record (w.files f) {
    fuse_instance = c.instance;
    volume_handle = c.handle;
    volume_file_object = c.object;
  })) { file_list = w.file_list ++ f ∷ [] },
)

-- FileIoctlCreateVolume, from the object of the volume on.
unfoldable pub name_volume :
    (file : ℕ) → VolumeCalls → Acquired → DeviceState → Outcome × DeviceState
name_volume f c a w =
    if not (nt_success c.name_status)
    then volume_failed a w
    else if not (nt_success c.utf8_status)
    then volume_failed a w
    else volume_opened f c w

-- From the initialized instance on.
unfoldable pub open_volume :
    (file : ℕ) → VolumeCalls → Acquired → DeviceState → Outcome × DeviceState
open_volume f c a w =
    if not (nt_success c.open_status)
    then volume_failed a w
    else (let b = record a { volume_handle = c.handle } in
        let r = record w.resources { volume_handles = w.resources.volume_handles + 1 } in
        if not (nt_success c.reference_status)
        then volume_failed b (record w { resources = r })
        else (let q = record r { volume_file_objects = r.volume_file_objects + 1 } in
            name_volume f c (record b { volume_file_object = c.object })
              (record w { resources = q })))

-- FileIoctlCreateVolume.
unfoldable pub create_volume : (file : ℕ) → VolumeCalls → DeviceState → Outcome × DeviceState
create_volume f c w =
    let a : Acquired = record {
      volume_file_object = 0;
      volume_handle = 0;
      init_done_instance = false;
      fuse_instance = c.instance;
    } in
    if not ((w.files f).volume_file_object == 0)
    then (eio, w)
    else if ltb volume_params_size (if 0 == c.version then volume_params_v0_size else c.version)
    then (eio, w)
    else if c.instance == 0
    then (eio, w)
    else (let r = record w.resources { instances = w.resources.instances + 1 } in
        if not (nt_success c.init_status)
        then volume_failed a (record w { resources = r })
        else open_volume f c (record a { init_done_instance = true })
            (record w { resources = record r { initialized = r.initialized + 1 } }))

-- What RtlUTF8ToUnicodeN and ZwOpenSymbolicLinkObject return.
pub record WinMountCalls : Type 0 where
  pub utf8_status : ℕ
  pub open_status : ℕ
  pub handle : ℕ

-- FileIoctlWinMount.
unfoldable pub win_mount : (file : ℕ) → WinMountCalls → DeviceState → Outcome × DeviceState
win_mount f c w =
    let file = w.files f in
    if not (file.win_mount_handle == 0)
    then (eio, w)
    else if not (nt_success c.utf8_status)
    then (eio, w)
    else if not (nt_success c.open_status)
    then (eio, w)
    else (
      success,
      record (set_file w f (record file { win_mount_handle = c.handle })) {
        resources = record w.resources { win_mount_handles = w.resources.win_mount_handles + 1 };
      },
    )

-- The size of the argument in the code of a request, and whether it is read or written.
abbrev code_size : ℕ → ℕ
code_size code = code / 2 ^ 16 % 2 ^ 14

abbrev code_read : ℕ → Bool
code_read code = not (code / 2 ^ 31 % 2 == 0)

abbrev code_any : ℕ → Bool
code_any code = not (code / 2 ^ 30 % 4 == 0)

-- FileIoctlBegin: the answer and the buffer, given the memory for it and whether the access to the
-- memory of the caller faults.
unfoldable pub ioctl_begin : (code memory : ℕ) (faults : Bool) → Outcome × ℕ
ioctl_begin code memory faults =
    if code_any code && not (code_size code == 0)
    then if memory == 0 then (enomem, 0) else if faults then (efault, 0) else (success, memory)
    else (success, 0)

abbrev pub is_success : Outcome → Bool
is_success success = true
is_success _ = false

-- FileIoctlEnd: the answer; the buffer is given back.
unfoldable pub ioctl_end : (code : ℕ) → Outcome → (faults : Bool) → Outcome
ioctl_end code error faults =
    if is_success error && (code_read code && not (code_size code == 0))
    then if faults then efault else success
    else error

-- A request: its argument in a buffer in the kernel, and what the system returns for it.
pub record IoctlCalls : Type 0 where
  pub memory : ℕ
  pub begin_faults : Bool
  pub end_faults : Bool
  pub volume_calls : VolumeCalls
  pub win_mount_calls : WinMountCalls
  pub operation : ℕ
  pub volume_id : ℕ
  pub lx_mount_id : ℕ

abbrev pub ioctl_createvolume : ℕ
ioctl_createvolume = 0xc1f8_4643

abbrev pub ioctl_winmount : ℕ
ioctl_winmount = 0x4104_464d

abbrev pub ioctl_lxmount : ℕ
ioctl_lxmount = 0x4018_466d

-- FileIoctl, around the procedure for a code.
unfoldable pub ioctl_around :
    (code : ℕ)
    → IoctlCalls
    → (DeviceState → Outcome × DeviceState)
    → DeviceState
    → Outcome × DeviceState
ioctl_around code c proc w =
    let (error, buffer) = ioctl_begin code c.memory c.begin_faults in
    if not (is_success error)
    then (error, w)
    else (let (answer, v) = proc w in (ioctl_end code answer c.end_faults, v))

-- FileIoctl.
unfoldable pub file_ioctl : (file code : ℕ) → IoctlCalls → DeviceState → Outcome × DeviceState
unfolding ioctl_around
file_ioctl f code c w =
    if code == ioctl_createvolume
    then ioctl_around code c (create_volume f c.volume_calls) w
    else if code == ioctl_winmount
    then ioctl_around code c (win_mount f c.win_mount_calls) w
    else if code == ioctl_lxmount
    then ioctl_around code c (ioctl_lx_mount f c.operation c.volume_id c.lx_mount_id) w
    else (einval, w)
