-- ===== src/Wslfuse/Kept.antt =====
-- The requests of src/wslfuse/device.c keep the references on mounts.
use winfuse.Base.{
  ℕ, ◌≡◌, ◌≢◌, inl, inr, arith, true, false, ◌==◌, count-push, count-erase, Bool-cases,
}
use winfuse.Wslfuse.{
  DeviceState, no_id, file_open, file_unlisted, file_detached, file_absent, mount_reference,
  mount_dereference, without, with_id, device_open, delete_unlist, delete_detach, delete_finish,
  Resources,
}
use winfuse.Wslfuse.Volume.{VolumeCalls, volume_opened, WinMountCalls, win_mount}
use winfuse.Wslfuse.Sound.{IsSound, mount_allocated}

module _ (w : DeviceState) (m : ℕ) (s : IsSound w) (live : w.allocated m ≡ true) where
  pub dereference_listed : (w.mounts m).lx_mount_id ≢ no_id → IsSound (without w m)
  unfolding without mount_dereference
  dereference_listed id = record {
    counted = λ x e. ground (arith, s.counted x, s.used x);
    used = λ x e. ground (arith, s.counted x, s.used x);
    listed = λ x. ground (arith, s.listed x, s.used x, s.counted x, count-erase x m w.mount_list);
    unheld = λ x e. ground (arith, s.unheld x, s.counted x, s.used x);
    held = λ x e. ground (arith, s.held x);
    holds = λ f e. ground (arith, s.holds f);
    named = λ x e. ground (arith, s.named x);
    unique = λ x y d e g h. ground (arith, s.unique x y);
    files_listed = λ f. ground (arith, s.files_listed f);
    no_address = ground (arith, s.no_address);
  }

  pub with_id-IsSound :
      (id : ℕ)
      → id ≢ no_id
      → w.holder m ≢ 0
      → (w.mounts m).lx_mount_id ≡ no_id
      → ((x : ℕ) → w.allocated x ≡ true → (w.mounts x).lx_mount_id ≢ id)
      → IsSound (with_id w m id)
  unfolding with_id mount_reference
  with_id-IsSound id real held free new = record {
    counted = λ x e. ground (arith, s.counted x, s.used x);
    used = λ x e. ground (arith, s.counted x, s.used x);
    listed = λ x. ground (arith, s.listed x, count-push x m w.mount_list);
    unheld = λ x e. ground (arith, s.unheld x);
    held = λ x e. ground (arith, s.held x);
    holds = λ f e. ground (arith, s.holds f);
    named = λ x e. ground (arith, s.named x);
    unique = λ x y d e g h. ground (arith, s.unique x y, new x, new y);
    files_listed = λ f. ground (arith, s.files_listed f);
    no_address = ground (arith, s.no_address);
  }

module _ (w : DeviceState) (f : ℕ) (s : IsSound w) where
  pub delete_unlist-IsSound : w.phase f ≡ file_open → IsSound (delete_unlist f w)
  unfolding delete_unlist
  delete_unlist-IsSound open_f = record {
    counted = λ x e. ground (arith, s.counted x);
    used = λ x e. ground (arith, s.used x);
    listed = λ x. ground (arith, s.listed x);
    unheld = λ x e. ground (arith, s.unheld x);
    held = λ x e. ground (arith, s.held x);
    holds = λ g e. ground (arith, s.holds g);
    named = λ x e. ground (arith, s.named x);
    unique = λ x y d e g h. ground (arith, s.unique x y);
    files_listed = λ g. ground (arith, s.files_listed g, count-erase g f w.file_list);
    no_address = ground (arith, s.no_address);
  }

  pub delete_detach-IsSound : w.phase f ≡ file_unlisted → IsSound (delete_detach f w)
  unfolding delete_detach
  delete_detach-IsSound unlisted = record {
    counted = λ x e. ground (arith, s.counted x);
    used = λ x e. ground (arith, s.used x);
    listed = λ x. ground (arith, s.listed x);
    unheld = λ x e. ground (arith, s.unheld x);
    held = λ x e. ground (arith, s.held x);
    holds = λ g e. ground (arith, s.holds g);
    named = λ x e. ground (arith, s.named x, s.holds f, s.held x);
    unique = λ x y d e g h. ground (arith, s.unique x y);
    files_listed = λ g. ground (arith, s.files_listed g);
    no_address = ground (arith, s.no_address);
  }

  pub delete_finish-IsSound : w.phase f ≡ file_detached → IsSound (delete_finish f w)
  unfolding delete_finish mount_dereference
  delete_finish-IsSound det =
      let live : w.allocated (w.files f).mount ≡ true =
        mount_allocated w f s (omega (arith, det)) in
      record {
        counted = λ x e. ground (arith, s.counted x, s.used x, s.holds f, s.no_address);
        used = λ x e. ground (arith, s.counted x, s.used x, s.holds f, s.no_address);
        listed = λ x. ground (arith, s.listed x, s.used x, s.counted x, s.holds f, s.no_address);
        unheld = λ x e. ground (arith, s.unheld x, s.counted x, s.used x, s.holds f, s.no_address);
        held = λ x e. ground (arith, s.held x, s.holds f);
        holds = λ g e. ground (arith, s.holds g, s.holds f);
        named = λ x e. ground (arith, s.named x, s.holds f, s.held x);
        unique = λ x y d e g h. ground (arith, s.unique x y);
        files_listed = λ g. ground (arith, s.files_listed g);
        no_address = ground (arith, s.no_address);
      }

module _ (w : DeviceState) (s : IsSound w) where
  -- A mount and a file in new memory, or no file.
  pub device_open-IsSound :
      (m f : ℕ) → w.allocated m ≡ false → w.phase f ≡ file_absent → IsSound (device_open m f w).1
  unfolding device_open mount_dereference
  device_open-IsSound m f new absent = elim (Bool-cases (m == 0)) [
    | inl e ↦ rw e s
    | inr some_m ↦ elim (Bool-cases (f == 0)) [
      | inl e ↦
          rw (some_m, e)
            (record {
              counted = λ x e. ground (arith, s.counted x);
              used = λ x e. ground (arith, s.used x);
              listed = λ x. ground (arith, s.listed x, new);
              unheld = λ x e. ground (arith, s.unheld x, new);
              held = λ x e. ground (arith, s.held x);
              holds = λ g e. ground (arith, s.holds g);
              named = λ x e. ground (arith, s.named x);
              unique = λ x y d e g h. ground (arith, s.unique x y);
              files_listed = λ g. ground (arith, s.files_listed g);
              no_address = ground (arith, s.no_address);
            })
      | inr some_f ↦
          rw (some_m, some_f)
            (record {
              counted = λ x e. ground (arith, s.counted x, some_f);
              used = λ x e. ground (arith, s.used x);
              listed = λ x. ground (arith, s.listed x, new);
              unheld = λ x e. ground (arith, s.unheld x, new);
              held = λ x e. ground (arith, s.held x, absent);
              holds = λ g e. ground (arith, s.holds g, s.unheld m new, s.no_address);
              named = λ x e. ground (arith, s.named x, s.held x, absent, some_f);
              unique = λ x y d e g h. ground (arith, s.unique x y);
              files_listed = λ g. ground (arith, s.files_listed g, absent);
              no_address = ground (arith, s.no_address, some_f);
            })
    ]
  ]

  pub resources-IsSound : (r : Resources) → IsSound (record w { resources = r })
  resources-IsSound r = record {
    counted = s.counted;
    used = s.used;
    listed = s.listed;
    unheld = s.unheld;
    held = s.held;
    holds = s.holds;
    named = s.named;
    unique = s.unique;
    files_listed = s.files_listed;
    no_address = s.no_address;
  }

  pub volume_opened-IsSound :
      (f : ℕ) (c : VolumeCalls)
      → w.phase f ≡ file_open
      → (w.files f).volume_file_object ≡ 0
      → c.object ≢ 0
      → IsSound (volume_opened f c w).1
  unfolding volume_opened
  volume_opened-IsSound f c open_f none_yet some_object = record {
    counted = λ x e. ground (arith, s.counted x);
    used = λ x e. ground (arith, s.used x);
    listed = λ x. ground (arith, s.listed x);
    unheld = λ x e. ground (arith, s.unheld x);
    held = λ x e. ground (arith, s.held x);
    holds = λ g e. ground (arith, s.holds g);
    named = λ x e. ground (arith, s.named x);
    unique = λ x y d e g h. ground (arith, s.unique x y);
    files_listed = λ g. ground (arith, s.files_listed g, count-push g f w.file_list);
    no_address = ground (arith, s.no_address);
  }

  pub win_mount-IsSound : (f : ℕ) (c : WinMountCalls) → IsSound (win_mount f c w).1
  unfolding win_mount
  win_mount-IsSound f c = record {
    counted = λ x e. ground (arith, s.counted x);
    used = λ x e. ground (arith, s.used x);
    listed = λ x. ground (arith, s.listed x);
    unheld = λ x e. ground (arith, s.unheld x);
    held = λ x e. ground (arith, s.held x);
    holds = λ g e. ground (arith, s.holds g);
    named = λ x e. ground (arith, s.named x);
    unique = λ x y d e g h. ground (arith, s.unique x y);
    files_listed = λ g. ground (arith, s.files_listed g);
    no_address = ground (arith, s.no_address);
  }
