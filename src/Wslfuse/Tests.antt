-- ===== src/Wslfuse/Tests.antt =====
-- Runs of the calls of src/wslfuse/device.c.
use winfuse.Base.{ℕ, ◌≡◌, ◌≤◌, refl, arith, false, [], ◌∷◌, List, length, ltb, if◌then◌else◌}
use winfuse.Wslfuse.{
  DeviceState, device_initialize, device_open, device_delete, file_absent, ioctl_lx_mount,
  delete_unlist, delete_detach, delete_finish,
}
use winfuse.Wslfuse.Volume.{
  VolumeCalls, IoctlCalls, create_volume, file_ioctl, ioctl_createvolume, ioctl_lxmount,
  ioctl_around, ioctl_begin, ioctl_end, open_volume, name_volume, volume_opened,
}
use winfuse.Wslfuse.Created.{Gives}
use winfuse.Wslfuse.Released.{IsReleased, deleted-IsReleased}
use winfuse.Wslfuse.Reach.{
  Reach, here, next, open_step, ioctl_step, unlist_step, detach_step, finish_step, Reach-IsSound,
}
use winfuse.Wslfuse.Sound.{IsSound}
use winfuse.Wslfuse.Maps.{Maps, ioctl_lx_mount-Maps}
use winfuse.Wslfuse.Io.{take, flatten, input_length, response_buffer}
use winfuse.Wslfuse.Gather.{response_buffer-Gathers}

abbrev pub some_volume : VolumeCalls
some_volume = record {
  version = 504;
  instance = 0x100;
  init_status = 0;
  open_status = 0;
  handle = 0x200;
  reference_status = 0;
  object = 0x300;
  name_status = 0;
  utf8_status = 0;
}

-- A request to enter the mount of volume 0 under the id 77.
abbrev pub some_calls : IoctlCalls
some_calls = record {
  memory = 0x400;
  begin_faults = false;
  end_faults = false;
  volume_calls = some_volume;
  win_mount_calls = record { utf8_status = 0; open_status = 0; handle = 0x500 };
  operation = b'+';
  volume_id = 0;
  lx_mount_id = 77;
}

some_volume-Gives : Gives some_volume
some_volume-Gives = record { handle = λ _. omega arith; object = λ _. omega arith }

-- A process opens the device.
abbrev pub one_file : DeviceState
one_file = (device_open 0x10 0x20 device_initialize).1

-- It makes a volume.
abbrev pub one_volume : DeviceState
one_volume = (file_ioctl 0x20 ioctl_createvolume some_calls one_file).1

pub one_volume-Reach : Reach one_volume
unfolding device_initialize device_open
one_volume-Reach =
    next (next here (open_step 0x10 0x20 refl refl))
      (ioctl_step 0x20 ioctl_createvolume some_calls refl some_volume-Gives (λ _. omega arith))

-- And a mount of it.
abbrev pub one_mount : DeviceState
one_mount = (file_ioctl 0x20 ioctl_lxmount some_calls one_volume).1

pub one_mount-Reach : Reach one_mount
unfolding device_initialize device_open file_ioctl ioctl_around ioctl_begin ioctl_end create_volume
    open_volume name_volume volume_opened
one_mount-Reach =
    next one_volume-Reach
      (ioctl_step 0x20 ioctl_lxmount some_calls refl some_volume-Gives (λ _. omega arith))

-- The mount is entered.
one_mount-listed : one_mount.mount_list ≡ 0x10 ∷ []
unfolding device_initialize device_open file_ioctl ioctl_around ioctl_begin ioctl_end create_volume
    open_volume name_volume volume_opened ioctl_lx_mount
one_mount-listed = refl

Reach-IsSound_example : IsSound one_mount
Reach-IsSound_example = Reach-IsSound one_mount-Reach

-- The file is deleted, and the mount stays.
abbrev no_file : DeviceState
no_file = delete_finish 0x20 (delete_detach 0x20 (delete_unlist 0x20 one_mount))

no_file-Reach : Reach no_file
unfolding device_initialize device_open file_ioctl ioctl_around ioctl_begin ioctl_end create_volume
    open_volume name_volume volume_opened ioctl_lx_mount delete_unlist delete_detach
no_file-Reach =
    next (next (next one_mount-Reach (unlist_step 0x20 refl)) (detach_step 0x20 refl))
      (finish_step 0x20 refl)

no_file-absent : (f : ℕ) → no_file.phase f ≡ file_absent
unfolding device_initialize device_open file_ioctl ioctl_around ioctl_begin ioctl_end create_volume
    open_volume name_volume volume_opened ioctl_lx_mount delete_unlist delete_detach delete_finish
no_file-absent f = ground arith

deleted-IsReleased_example :
    IsReleased no_file.resources
    × ((device_delete no_file.mount_list no_file).allocated 0x10 ≡ false)
deleted-IsReleased_example = deleted-IsReleased no_file 0x10 no_file-Reach no_file-absent

ioctl_lx_mount-Maps_example : Maps one_mount 0x20 0 78 77
ioctl_lx_mount-Maps_example =
    ioctl_lx_mount-Maps one_mount 0x20 0 78 77 (Reach-IsSound one_mount-Reach) (omega arith)
      (omega arith)

abbrev some_vectors : List (List ℕ)
some_vectors = (20 ∷ 0 ∷ 0 ∷ 0 ∷ []) ∷ (1 ∷ 2 ∷ []) ∷ []

response_buffer-Gathers_example :
    (input_length some_vectors ≡ length (flatten some_vectors))
    × (take (input_length some_vectors) (response_buffer 96 some_vectors some_vectors)
        ≡ flatten some_vectors)
    × (length (response_buffer 96 some_vectors [])
        ≤ (if ltb 96 (input_length some_vectors) then input_length some_vectors else 96))
response_buffer-Gathers_example = response_buffer-Gathers 96 some_vectors [] (omega arith)
