-- ===== src/Wslfuse/Reach.antt =====
-- Any interleaving of the calls of src/wslfuse/device.c keeps the references on mounts.
use winfuse.Base.{
  ℕ, ◌≡◌, ◌≢◌, refl, inl, inr, arith, true, false, List, [], ◌∷◌, ◌==◌, if◌then◌else◌, count,
  Bool-cases,
}
use winfuse.Status.{nt_success}
use winfuse.Wslfuse.{
  DeviceState, Outcome, file_open, file_unlisted, file_detached, file_absent, ioctl_lx_mount,
  mount_dereference, device_initialize, device_open, delete_unlist, delete_detach, delete_finish,
  device_delete,
}
use winfuse.Wslfuse.Volume.{
  VolumeCalls, create_volume, win_mount, IoctlCalls, ioctl_begin, is_success, ioctl_around,
  file_ioctl, ioctl_createvolume, ioctl_winmount, ioctl_lxmount,
}
use winfuse.Wslfuse.Created.{Gives, create_volume-Creates}
use winfuse.Wslfuse.Sound.{IsSound}
use winfuse.Wslfuse.Kept.{
  delete_unlist-IsSound, delete_detach-IsSound, delete_finish-IsSound, device_open-IsSound,
  resources-IsSound, volume_opened-IsSound, win_mount-IsSound,
}
use winfuse.Wslfuse.Requests.{lx_mount-IsSound}

module _ (w : DeviceState) (f : ℕ) (s : IsSound w) (open_f : w.phase f ≡ file_open) where
  create_volume-IsSound : (c : VolumeCalls) → Gives c → IsSound (create_volume f c w).1
  create_volume-IsSound c gives =
      let r = create_volume-Creates f c w gives in
      elim (Bool-cases (is_success (create_volume f c w).0)) [
        | inr e ↦ rw (r.failed e) s
        | inl e ↦
            let (none_yet, some_object, made) = r.created e in
            rw made
              (volume_opened-IsSound _ (resources-IsSound w s _) f c open_f none_yet some_object)
      ]

  around-IsSound :
      (code : ℕ) (c : IoctlCalls) (proc : DeviceState → Outcome × DeviceState)
      → IsSound (proc w).1
      → IsSound (ioctl_around code c proc w).1
  unfolding ioctl_around
  around-IsSound code c proc h =
      elim (Bool-cases (is_success (ioctl_begin code c.memory c.begin_faults).0)) [
        | inl e ↦ rw e h
        | inr e ↦ rw e s
      ]

  file_ioctl-IsSound :
      (code : ℕ) (c : IoctlCalls) → Gives c.volume_calls → IsSound (file_ioctl f code c w).1
  unfolding file_ioctl
  file_ioctl-IsSound code c gives = elim (Bool-cases (code == ioctl_createvolume)) [
    | inl a ↦ rw a (
        around-IsSound code c (create_volume f c.volume_calls)
          (create_volume-IsSound c.volume_calls gives))
    | inr a ↦ elim (Bool-cases (code == ioctl_winmount)) [
      | inl b ↦
          rw (a, b)
            (around-IsSound code c (win_mount f c.win_mount_calls)
              (win_mount-IsSound w s f c.win_mount_calls))
      | inr b ↦ elim (Bool-cases (code == ioctl_lxmount)) [
        | inl d ↦
            rw (a, b, d)
              (around-IsSound code c (ioctl_lx_mount f c.operation c.volume_id c.lx_mount_id)
                (lx_mount-IsSound w s f c.operation c.volume_id c.lx_mount_id open_f))
        | inr d ↦ rw (a, b, d) s
      ]
    ]
  ]

-- The calls of any threads, one section under a lock after the other. A file is deleted only after the
-- last call on it, and what the system gives is new.
pub data Step : DeviceState → DeviceState → Type 0 where
  open_step :
      {w : DeviceState} (m f : ℕ)
      → w.allocated m ≡ false
      → w.phase f ≡ file_absent
      → Step w (device_open m f w).1
  ioctl_step :
      {w : DeviceState} (f code : ℕ) (c : IoctlCalls)
      → w.phase f ≡ file_open
      → Gives c.volume_calls
      → (nt_success c.win_mount_calls.open_status ≡ true → c.win_mount_calls.handle ≢ 0)
      → Step w (file_ioctl f code c w).1
  unlist_step : {w : DeviceState} (f : ℕ) → w.phase f ≡ file_open → Step w (delete_unlist f w)
  detach_step : {w : DeviceState} (f : ℕ) → w.phase f ≡ file_unlisted → Step w (delete_detach f w)
  finish_step : {w : DeviceState} (f : ℕ) → w.phase f ≡ file_detached → Step w (delete_finish f w)

pub data Reach : DeviceState → Type 0 where
  here : Reach device_initialize
  next : {w v : DeviceState} → Reach w → Step w v → Reach v

Step-IsSound : {w v : DeviceState} → Step w v → IsSound w → IsSound v
Step-IsSound {w} (open_step m f new absent) s = device_open-IsSound w s m f new absent
Step-IsSound {w} (ioctl_step f code c o gives some_handle) s =
    file_ioctl-IsSound w f s o code c gives
Step-IsSound {w} (unlist_step f o) s = delete_unlist-IsSound w f s o
Step-IsSound {w} (detach_step f u) s = delete_detach-IsSound w f s u
Step-IsSound {w} (finish_step f d) s = delete_finish-IsSound w f s d

device_initialize-IsSound : IsSound device_initialize
unfolding device_initialize count
device_initialize-IsSound = record {
  counted = λ m e. absurd (cc e);
  used = λ m e. absurd (cc e);
  listed = λ m. refl;
  unheld = λ m e. refl;
  held = λ m e. absurd (e refl);
  holds = λ f e. absurd (e refl);
  named = λ m e. absurd (cc e);
  unique = λ m n d. absurd (cc d);
  files_listed = λ f. refl;
  no_address = refl;
}

-- In any interleaving of the calls of any threads, a mount in memory counts exactly the references of
-- the list and of its file, and is freed with the last of them; whatever is in the list, and the mount
-- of every file that is not deleted, is in memory; a mount names its file only while that is there;
-- the ids of mounts are different; and FuseMiscFileList has the open files with a volume, each once.
pub Reach-IsSound : {w : DeviceState} → Reach w → IsSound w
Reach-IsSound here = device_initialize-IsSound
Reach-IsSound (next r step) = Step-IsSound step (Reach-IsSound r)

-- What DeviceDelete finds: each mount that is in memory is in the rest of the list, and counts only
-- the reference of the list.
record OnlyListed (ms : List ℕ) (w : DeviceState) : Type 0 where
  once : (m : ℕ) → count m ms ≡ (if w.allocated m then 1 else 0)
  single : (m : ℕ) → w.allocated m ≡ true → (w.mounts m).ref_count ≡ 1

delete-frees :
    (ms : List ℕ) (w : DeviceState)
    → OnlyListed ms w
    → (m : ℕ) → (device_delete ms w).allocated m ≡ false
unfolding device_delete mount_dereference count
delete-frees [] w o m = ground (arith, o.once m)
delete-frees (n ∷ ms) w o m =
    delete-frees ms (mount_dereference w n)
      (record {
        once = λ x. ground (arith, o.once x, o.once n, o.single n);
        single = λ x e. ground (arith, o.single x, o.once x, o.single n);
      })
      m

-- Where every file was deleted, whatever happened before, DeviceDelete frees every mount.
pub device_delete-frees :
    (w : DeviceState)
    → Reach w
    → ((f : ℕ) → w.phase f ≡ file_absent)
    → (m : ℕ) → (device_delete w.mount_list w).allocated m ≡ false
device_delete-frees w r deleted =
    let s = Reach-IsSound r in
    delete-frees w.mount_list w (record {
      once = λ m. ground (arith, s.listed m, s.counted m, s.used m, s.held m, deleted (w.holder m));
      single = λ m e. ground (arith, s.counted m, s.used m, s.held m, deleted (w.holder m));
    })
