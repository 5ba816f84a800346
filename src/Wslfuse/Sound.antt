-- ===== src/Wslfuse/Sound.antt =====
-- The references that src/wslfuse/device.c counts on mounts.
use winfuse.Base.{
  ℕ, ◌+◌, ◌<◌, ◌≡◌, ◌≢◌, inl, inr, arith, true, false, not, ◌==◌, ◌&&◌, if◌then◌else◌, count,
  Bool-cases,
}
use winfuse.Wslfuse.{DeviceState, no_id, file_open, file_detached, post_destroy}

-- What holds between the sections under locks.
pub record IsSound (w : DeviceState) : Type 0 where
  -- A mount in memory counts a reference for the list, where it has an id, and one for its file.
  pub counted :
      (m : ℕ)
      → w.allocated m ≡ true
      → (w.mounts m).ref_count
        ≡ (if (w.mounts m).lx_mount_id == no_id then 0 else 1) + (if w.holder m == 0 then 0 else 1)
  pub used : (m : ℕ) → w.allocated m ≡ true → 0 < (w.mounts m).ref_count
  -- It is in the list once where it has an id; what is not in memory is not in the list.
  pub listed :
      (m : ℕ)
      → count m w.mount_list
        ≡ (if w.allocated m then if (w.mounts m).lx_mount_id == no_id then 0 else 1 else 0)
  pub unheld : (m : ℕ) → w.allocated m ≡ false → w.holder m ≡ 0
  pub held :
      (m : ℕ) → w.holder m ≢ 0 → (w.phase (w.holder m) ≢ 0) × ((w.files (w.holder m)).mount ≡ m)
  pub holds : (f : ℕ) → w.phase f ≢ 0 → w.holder (w.files f).mount ≡ f
  -- It names its file until that is detached.
  pub named :
      (m : ℕ)
      → w.allocated m ≡ true
      → (w.mounts m).file ≡ (
          if w.holder m == 0
          then 0
          else if w.phase (w.holder m) == file_detached
          then 0
          else w.holder m)
  pub unique :
      (m n : ℕ)
      → w.allocated m ≡ true
      → w.allocated n ≡ true
      → (w.mounts m).lx_mount_id ≢ no_id
      → (w.mounts m).lx_mount_id ≡ (w.mounts n).lx_mount_id
      → m ≡ n
  -- An open file with a volume is in FuseMiscFileList once, and no other.
  pub files_listed :
      (f : ℕ)
      → count f w.file_list ≡ (
          if w.phase f == file_open
          then if (w.files f).volume_file_object == 0 then 0 else 1
          else 0)
  pub no_address : w.phase 0 ≡ 0

-- The mount of a file is in memory.
pub mount_allocated :
    (w : DeviceState) (f : ℕ) → IsSound w → w.phase f ≢ 0 → w.allocated (w.files f).mount ≡ true
mount_allocated w f s h = elim (Bool-cases (w.allocated (w.files f).mount)) [
  | inl e ↦ e
  | inr e ↦ absurd (h (ground (arith, s.unheld _ e, s.holds f h, s.no_address)))
]

pub post_destroy-IsSound : (f : ℕ) (w : DeviceState) → IsSound w → IsSound (post_destroy f w)
unfolding post_destroy
post_destroy-IsSound f w s =
    elim (Bool-cases (not (f == 0) && not ((w.files f).volume_file_object == 0))) [
      | inr e ↦ rw e s
      | inl e ↦ rw e (record {
        counted = s.counted;
        used = s.used;
        listed = s.listed;
        unheld = s.unheld;
        held = s.held;
        holds = s.holds;
        named = s.named;
        unique = s.unique;
        files_listed = s.files_listed;
        no_address = s.no_address;
      })
    ]
