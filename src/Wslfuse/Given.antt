-- ===== src/Wslfuse/Given.antt =====
-- What each call of src/wslfuse/device.c takes from the system, and gives back, stays what files have.
use winfuse.Base.{
  ℕ, ◌+◌, ◌<◌, ◌≡◌, ◌≢◌, refl, inl, inr, arith, true, List, ◌∷◌, ◌==◌, if◌then◌else◌, count, erase,
  count-erase, Bool-cases,
}
use winfuse.Status.{nt_success}
use winfuse.Cache.{update}
use winfuse.Wslfuse.{
  DeviceState, Outcome, Resources, file_absent, file_open, file_detached, device_open,
  delete_finish, release_resources, mount_dereference, ioctl_lx_mount, set_file, set_mount,
  new_mount,
}
use winfuse.Wslfuse.Volume.{
  VolumeCalls, create_volume, volume_opened, win_mount, WinMountCalls, IoctlCalls, ioctl_begin,
  is_success, ioctl_around, file_ioctl, ioctl_createvolume, ioctl_winmount, ioctl_lxmount,
}
use winfuse.Wslfuse.Accounts.{
  Accounts, Same-refl, Same-Accounts, total, total-more, total-erase, total-congr, has_volume,
  has_mount_point, lx_mount-Same, dereference-Same, either,
}
use winfuse.Wslfuse.Created.{Gives, create_volume-Creates}

-- The files that are there.
pub data Accounted (w : DeviceState) : Type 0 where
  accounted : (l : List ℕ) → Accounts w l → Accounted w

module _ (w : DeviceState) (l : List ℕ) (a : Accounts w l) where
  opened-Accounts :
      (f : ℕ) (c : VolumeCalls)
      → w.phase f ≡ file_open
      → (w.files f).volume_file_object ≡ 0
      → c.object ≢ 0
      → (r : Resources) → r.instances ≡ w.resources.instances + 1
      → r.initialized ≡ w.resources.initialized + 1
      → r.volume_handles ≡ w.resources.volume_handles + 1
      → r.volume_file_objects ≡ w.resources.volume_file_objects + 1
      → r.win_mount_handles ≡ w.resources.win_mount_handles
      → Accounts (volume_opened f c (record w { resources = r })).1 l
  unfolding volume_opened
  opened-Accounts f c o none_yet object r e1 e2 e3 e4 e5 =
      let v = (volume_opened f c (record w { resources = r })).1 in
      let one : count f l ≡ 1 = ground (arith, a.once f, o) in
      let more : total (has_volume v) l ≡ total (has_volume w) l + count f l =
        total-more (has_volume w) (has_volume v) l f (λ x d. ground (arith, d))
          (ground (arith, none_yet, object)) in
      let points : total (has_mount_point v) l ≡ total (has_mount_point w) l =
        total-congr (has_mount_point w) (has_mount_point v) l (λ x i. ground arith) in
      record {
        once = a.once;
        instances = omega (arith, e1, a.instances, more, one);
        initialized = omega (arith, e2, a.initialized, more, one);
        volume_handles = omega (arith, e3, a.volume_handles, more, one);
        volume_file_objects = omega (arith, e4, a.volume_file_objects, more, one);
        win_mount_handles = omega (arith, e5, a.win_mount_handles, points);
      }

  pointed-Accounts :
      (f handle : ℕ)
      → w.phase f ≡ file_open
      → ((w.files f).win_mount_handle == 0) ≡ true
      → handle ≢ 0
      → Accounts
          (record (set_file w f (record (w.files f) { win_mount_handle = handle })) {
            resources = record w.resources {
              win_mount_handles = w.resources.win_mount_handles + 1;
            };
          })
          l
  pointed-Accounts f handle o none_yet some_handle =
      let v = set_file w f (record (w.files f) { win_mount_handle = handle }) in
      let one : count f l ≡ 1 = ground (arith, a.once f, o) in
      let points : total (has_mount_point v) l ≡ total (has_mount_point w) l + count f l =
        total-more (has_mount_point w) (has_mount_point v) l f (λ x d. ground (arith, d))
          (ground (arith, none_yet, some_handle)) in
      let same : total (has_volume v) l ≡ total (has_volume w) l =
        total-congr (has_volume w) (has_volume v) l (λ x i. ground arith) in
      record {
        once = a.once;
        instances = omega (arith, a.instances, same);
        initialized = omega (arith, a.initialized, same);
        volume_handles = omega (arith, a.volume_handles, same);
        volume_file_objects = omega (arith, a.volume_file_objects, same);
        win_mount_handles = omega (arith, a.win_mount_handles, points, one);
      }

  win_mount-Accounts :
      (f : ℕ) (c : WinMountCalls)
      → w.phase f ≡ file_open
      → (nt_success c.open_status ≡ true → c.handle ≢ 0)
      → Accounts (win_mount f c w).1 l
  unfolding win_mount
  win_mount-Accounts f c o gives = elim (Bool-cases ((w.files f).win_mount_handle == 0)) [
    | inr e ↦ rw e a
    | inl e ↦ elim (Bool-cases (nt_success c.utf8_status)) [
      | inr u ↦ rw (e, u) a
      | inl u ↦ elim (Bool-cases (nt_success c.open_status)) [
        | inr p ↦ rw (e, u, p) a
        | inl p ↦ rw (e, u, p) (pointed-Accounts f c.handle o e (gives p))
      ]
    ]
  ]

  released-Accounts :
      (f : ℕ) (holder : ℕ → ℕ)
      → w.phase f ≡ file_detached
      → Accounts
          (record w {
            phase = update w.phase f file_absent;
            holder = holder;
            resources = release_resources (w.files f) w.resources;
          })
          (erase f l)
  unfolding release_resources
  released-Accounts f holder d =
      let listed : 0 < count f l = ground (arith, a.once f, d) in
      let volumes = total-erase (has_volume w) l f listed in
      let points = total-erase (has_mount_point w) l f listed in
      record {
        once = λ x. ground (arith, a.once x, d, count-erase x f l);
        instances = ground (arith, a.instances, volumes);
        initialized = ground (arith, a.initialized, volumes);
        volume_handles = ground (arith, a.volume_handles, volumes);
        volume_file_objects = ground (arith, a.volume_file_objects, volumes);
        win_mount_handles = ground (arith, a.win_mount_handles, points);
      }

  pub finish-Accounts :
      (f : ℕ) → w.phase f ≡ file_detached → Accounts (delete_finish f w) (erase f l)
  unfolding delete_finish
  finish-Accounts f d =
      let u = record w {
        phase = update w.phase f file_absent;
        holder = update w.holder (w.files f).mount 0;
        resources = release_resources (w.files f) w.resources;
      } in
      Same-Accounts u _ (erase f l) (dereference-Same u u (w.files f).mount (Same-refl u))
        (released-Accounts f (update w.holder (w.files f).mount 0) d)

  create-Accounts :
      (f : ℕ) (c : VolumeCalls)
      → w.phase f ≡ file_open
      → Gives c
      → Accounts (create_volume f c w).1 l
  create-Accounts f c o gives =
      let r = create_volume-Creates f c w gives in
      elim (Bool-cases (is_success (create_volume f c w).0)) [
        | inr e ↦ rw (r.failed e) a
        | inl e ↦
            let (none_yet, some_object, made) = r.created e in
            rw made (opened-Accounts f c o none_yet some_object _ refl refl refl refl refl)
      ]

  around-Accounts :
      (code : ℕ) (c : IoctlCalls) (proc : DeviceState → Outcome × DeviceState)
      → Accounts (proc w).1 l
      → Accounts (ioctl_around code c proc w).1 l
  unfolding ioctl_around
  around-Accounts code c proc h =
      elim (Bool-cases (is_success (ioctl_begin code c.memory c.begin_faults).0)) [
        | inl e ↦ rw e h
        | inr e ↦ rw e a
      ]

  pub ioctl-Accounts :
      (f code : ℕ) (c : IoctlCalls)
      → w.phase f ≡ file_open
      → Gives c.volume_calls
      → (nt_success c.win_mount_calls.open_status ≡ true → c.win_mount_calls.handle ≢ 0)
      → Accounts (file_ioctl f code c w).1 l
  unfolding file_ioctl
  ioctl-Accounts f code c o gives some_handle =
      either (λ (r : Outcome × DeviceState). Accounts r.1 l) (code == ioctl_createvolume)
        (around-Accounts code c (create_volume f c.volume_calls)
          (create-Accounts f c.volume_calls o gives))
        (either (λ (r : Outcome × DeviceState). Accounts r.1 l) (code == ioctl_winmount)
          (around-Accounts code c (win_mount f c.win_mount_calls)
            (win_mount-Accounts f c.win_mount_calls o some_handle))
          (either (λ (r : Outcome × DeviceState). Accounts r.1 l) (code == ioctl_lxmount)
            (around-Accounts code c (ioctl_lx_mount f c.operation c.volume_id c.lx_mount_id)
              (Same-Accounts w _ l (lx_mount-Same f c.operation c.volume_id c.lx_mount_id w) a))
            a))

  fresh-Accounts :
      (f : ℕ) (v : DeviceState)
      → w.phase f ≡ file_absent
      → ((x : ℕ) → v.phase x ≡ (if f == x then file_open else w.phase x))
      → ((x : ℕ) → x ≢ f → v.files x ≡ w.files x)
      → (v.files f).volume_file_object ≡ 0
      → (v.files f).win_mount_handle ≡ 0
      → v.resources ≡ w.resources
      → Accounts v (f ∷ l)
  unfolding total count
  fresh-Accounts f v absent phase files object handle resources =
      let other : (x : ℕ) → 0 < count x l → v.files x ≡ w.files x =
        (λ x i. files x (λ (e : x ≡ f). ground (arith, a.once x, absent, e))) in
      let volumes : total (has_volume v) l ≡ total (has_volume w) l =
        total-congr (has_volume w) (has_volume v) l (λ x i. rw (other x i) refl) in
      let points : total (has_mount_point v) l ≡ total (has_mount_point w) l =
        total-congr (has_mount_point w) (has_mount_point v) l (λ x i. rw (other x i) refl) in
      record {
        once = λ x. ground (arith, a.once x, absent, phase x);
        instances = rw resources (ground (arith, a.instances, volumes, object));
        initialized = rw resources (ground (arith, a.initialized, volumes, object));
        volume_handles = rw resources (ground (arith, a.volume_handles, volumes, object));
        volume_file_objects = rw resources (ground (arith, a.volume_file_objects, volumes, object));
        win_mount_handles = rw resources (ground (arith, a.win_mount_handles, points, handle));
      }

  pub open-Accounted : (m f : ℕ) → w.phase f ≡ file_absent → Accounted (device_open m f w).1
  unfolding device_open
  open-Accounted m f absent = elim (Bool-cases (m == 0)) [
    | inl e ↦ rw e (accounted l a)
    | inr e ↦ elim (Bool-cases (f == 0)) [
      | inl z ↦
          let v = record (set_mount w m new_mount) { allocated = update w.allocated m true } in
          rw (e, z)
            (accounted l (
              Same-Accounts w (mount_dereference v m) l
                (dereference-Same w v m
                  (record { phase = λ x. refl; files = λ x. refl; resources = refl }))
                a))
      | inr z ↦
          rw (e, z)
            (accounted (f ∷ l) (
              fresh-Accounts f _ absent (λ x. refl) (λ x d. ground (arith, d)) (ground arith)
                (ground arith) refl))
    ]
  ]
