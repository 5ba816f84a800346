-- ===== src/Wslfuse/Released.antt =====
-- When the files of src/wslfuse/device.c are deleted, all that the system gave is given back.
use winfuse.Base.{ℕ, ◌≡◌, refl, arith, false, [], ◌∷◌, count, erase}
use winfuse.Wslfuse.{DeviceState, Resources, file_absent, device_initialize, device_delete}
use winfuse.Wslfuse.Accounts.{Same-Accounts, total, unlist-Same, detach_file-Same}
use winfuse.Wslfuse.Reach.{
  Step, open_step, ioctl_step, unlist_step, detach_step, finish_step, Reach, here, next,
  device_delete-frees,
}
use winfuse.Wslfuse.Given.{Accounted, accounted, ioctl-Accounts, finish-Accounts, open-Accounted}

step-Accounted : {w v : DeviceState} → Step w v → Accounted w → Accounted v
step-Accounted {w} (open_step m f new absent) (accounted l a) = open-Accounted w l a m f absent
step-Accounted {w} (ioctl_step f code c o gives some_handle) (accounted l a) =
    accounted l (ioctl-Accounts w l a f code c o gives some_handle)
step-Accounted {w} (unlist_step f o) (accounted l a) =
    accounted l (Same-Accounts w _ l (unlist-Same f w o) a)
step-Accounted {w} (detach_step f u) (accounted l a) =
    accounted l (Same-Accounts w _ l (detach_file-Same f w u) a)
step-Accounted {w} (finish_step f d) (accounted l a) =
    accounted (erase f l) (finish-Accounts w l a f d)

reach-Accounted : {w : DeviceState} → Reach w → Accounted w
unfolding device_initialize total count
reach-Accounted here = accounted [] (record {
  once = λ f. refl;
  instances = refl;
  initialized = refl;
  volume_handles = refl;
  volume_file_objects = refl;
  win_mount_handles = refl;
})
reach-Accounted (next r t) = step-Accounted t (reach-Accounted r)

-- Nothing that the system gave is left.
pub record IsReleased (r : Resources) : Type 0 where
  pub instances : r.instances ≡ 0
  pub initialized : r.initialized ≡ 0
  pub volume_handles : r.volume_handles ≡ 0
  pub volume_file_objects : r.volume_file_objects ≡ 0
  pub win_mount_handles : r.win_mount_handles ≡ 0

absent-IsReleased :
    (w : DeviceState) → ((f : ℕ) → w.phase f ≡ file_absent) → Accounted w → IsReleased w.resources
unfolding total count
absent-IsReleased w absent (accounted [] a) = record {
  instances = a.instances;
  initialized = a.initialized;
  volume_handles = a.volume_handles;
  volume_file_objects = a.volume_file_objects;
  win_mount_handles = a.win_mount_handles;
}
absent-IsReleased w absent (accounted (f ∷ l) a) = absurd (ground (arith, a.once f, absent f))

-- Where every file was deleted, whatever happened before, with failures of the system in any place:
-- the instances, the handles and the objects that the system gave are given back, and DeviceDelete
-- frees every mount.
pub deleted-IsReleased :
    (w : DeviceState) (m : ℕ)
    → Reach w
    → ((f : ℕ) → w.phase f ≡ file_absent)
    → IsReleased w.resources × ((device_delete w.mount_list w).allocated m ≡ false)
deleted-IsReleased w m r absent =
    (absent-IsReleased w absent (reach-Accounted r), device_delete-frees w r absent m)
