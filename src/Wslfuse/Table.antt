-- ===== src/Wslfuse/Table.antt =====
-- The ids of mounts of src/wslfuse/device.c, as a table.
use winfuse.Base.{
  ℕ, ◌<◌, ◌≡◌, ◌≢◌, ◌↔◌, refl, sym, ap, ◌∙◌, inl, inr, arith, true, not, Option, none, some, List,
  ◌==◌, ◌&&◌, if◌then◌else◌, count, Bool-cases, Option-cases,
}
use winfuse.Wslfuse.{
  Mount, DeviceState, no_id, find_mount, post_destroy, without, mount_dereference,
}
use winfuse.Wslfuse.Sound.{IsSound}
use winfuse.Wslfuse.Kept.{dereference_listed}
use winfuse.Wslfuse.Requests.{find_mount-some, find_mount-none, listed_allocated}

-- The table: the mount with an id.
abbrev pub table : DeviceState → ℕ → Option ℕ
table w id = find_mount w.mounts id w.mount_list

-- A mount is found under its id.
find_mount-eq :
    (mounts : ℕ → Mount) (id m : ℕ) (ms : List ℕ)
    → 0 < count m ms
    → (mounts m).lx_mount_id ≡ id
    → ((n : ℕ) → 0 < count n ms → (mounts n).lx_mount_id ≡ id → n ≡ m)
    → find_mount mounts id ms ≡ some m
find_mount-eq mounts id m ms h e only = elim (Option-cases (find_mount mounts id ms)) [
  | inl none_found ↦ absurd (find_mount-none mounts id m ms none_found h e)
  | inr (n, found) ↦
      let (listed, same) = find_mount-some mounts id n ms found in
      found ∙ ap some (only n listed same)
]

pub table-eq :
    (w : DeviceState) (m id : ℕ)
    → IsSound w
    → id ≢ no_id
    → w.allocated m ≡ true
    → (w.mounts m).lx_mount_id ≡ id
    → table w id ≡ some m
table-eq w m id s real live e =
    find_mount-eq w.mounts id m w.mount_list (ground (arith, s.listed m)) e
      (λ n listed same. ground (arith, s.unique m n live (listed_allocated w s n listed)))

-- A mount in memory has the id.
abbrev pub Has : DeviceState → ℕ → ℕ → Type 0
Has w id n = (w.allocated n ≡ true) × ((w.mounts n).lx_mount_id ≡ id)

pub table-Has : (w : DeviceState) (id n : ℕ) → IsSound w → table w id ≡ some n → Has w id n
table-Has w id n s e =
    let (listed, same) = find_mount-some w.mounts id n w.mount_list e in
    (listed_allocated w s n listed, same)

pub table-none :
    (w : DeviceState) (id : ℕ) → IsSound w → ((n : ℕ) → ¬ Has w id n) → table w id ≡ none
table-none w id s h = elim (Option-cases (table w id)) [
  | inl e ↦ e
  | inr (n, e) ↦ absurd (h n (table-Has w id n s e))
]

pub table-same :
    (w v : DeviceState) (id : ℕ)
    → IsSound w
    → IsSound v
    → id ≢ no_id
    → ((n : ℕ) → Has v id n ↔ Has w id n)
    → table v id ≡ table w id
table-same w v id s t real h = elim (Option-cases (table w id)) [
  | inl e ↦
      table-none v id t (λ n has.
        let (live, same) = (h n).0 has in absurd (cc (e, table-eq w n id s real live same)))
      ∙ sym e
  | inr (n, e) ↦
      let (live, same) = (h n).1 (table-Has w id n s e) in table-eq v n id t real live same ∙ sym e
]

pub table-post_destroy : (w : DeviceState) (f id : ℕ) → table (post_destroy f w) id ≡ table w id
unfolding post_destroy
table-post_destroy w f id =
    elim (Bool-cases (not (f == 0) && not ((w.files f).volume_file_object == 0))) [
      | inl e ↦ rw e refl
      | inr e ↦ rw e refl
    ]

-- The mount `m` is taken off the table, and the others stay.
module _ (w : DeviceState) (m : ℕ) (s : IsSound w) (live : w.allocated m ≡ true)
    (real : (w.mounts m).lx_mount_id ≢ no_id) where
  pub table-dereference_listed :
      (id : ℕ)
      → id ≢ no_id
      → table (without w m) id ≡ (if id == (w.mounts m).lx_mount_id then none else table w id)
  unfolding without mount_dereference
  table-dereference_listed id some_id =
      let t = dereference_listed w m s live real in
      elim (Bool-cases (id == (w.mounts m).lx_mount_id)) [
        | inl e ↦
            rw e (
              table-none (without w m) id t
                (λ n has. ground (arith, e, has.0, has.1, s.unique n m)))
        | inr e ↦ rw e (
            table-same w (without w m) id s t some_id (λ n. (
              λ has. ground (arith, has.0, has.1),
              λ has. ground (arith, has.0, has.1, s.counted n, s.used n),
            )))
      ]
