-- ===== src/Wslfuse/Requests.antt =====
-- FileIoctlLxMount of src/wslfuse/device.c keeps the references on mounts.
use winfuse.Base.{
  ℕ, ◌<◌, ◌≡◌, ◌≢◌, inl, inr, arith, true, none, some, List, [], ◌∷◌, ◌==◌, count, Bool-cases,
  Option-cases, eq_of_==, ne_of_==,
}
use winfuse.Wslfuse.{
  Mount, DeviceFile, DeviceState, no_id, file_open, find_mount, get_mount, attach_mount,
  detach_mount, add_mount, mount_of, ioctl_lx_mount,
}
use winfuse.Wslfuse.Sound.{IsSound, mount_allocated, post_destroy-IsSound}
use winfuse.Wslfuse.Kept.{dereference_listed, with_id-IsSound}

pub find_mount-some :
    (mounts : ℕ → Mount) (id m : ℕ) (ms : List ℕ)
    → find_mount mounts id ms ≡ some m
    → (0 < count m ms) × ((mounts m).lx_mount_id ≡ id)
unfolding find_mount count
find_mount-some mounts id m [] e = absurd (cc e)
find_mount-some mounts id m (n ∷ ms) e = ground (arith, find_mount-some mounts id m ms)

pub find_mount-none :
    (mounts : ℕ → Mount) (id m : ℕ) (ms : List ℕ)
    → find_mount mounts id ms ≡ none
    → 0 < count m ms
    → (mounts m).lx_mount_id ≢ id
unfolding find_mount count
find_mount-none mounts id m [] e h = absurd (omega (arith, h))
find_mount-none mounts id m (n ∷ ms) e h = ground (arith, find_mount-none mounts id m ms)

pub get_mount-some :
    (files : ℕ → DeviceFile) (id m : ℕ) (fs : List ℕ)
    → get_mount files id fs ≡ some m
    → (f : ℕ) × (0 < count f fs) × ((files f).mount ≡ m)
unfolding get_mount count
get_mount-some files id m [] e = absurd (cc e)
get_mount-some files id m (g ∷ fs) e = elim (Bool-cases ((files g).volume_id == id)) [
  | inl t ↦ (g, ground arith, ground arith)
  | inr t ↦ let r = get_mount-some files id m fs (ground arith) in (r.0, ground (arith, r.1), r.2)
]

module _ (w : DeviceState) (s : IsSound w) where
  detach-IsSound : (m : ℕ) → w.allocated m ≡ true → IsSound (detach_mount (some m) w).1
  unfolding detach_mount
  detach-IsSound m live = elim (Bool-cases ((w.mounts m).lx_mount_id == no_id)) [
    | inl e ↦ rw e s
    | inr e ↦ rw e (post_destroy-IsSound _ _ (dereference_listed w m s live (ne_of_== _ _ e)))
  ]

  pub listed_allocated : (m : ℕ) → 0 < count m w.mount_list → w.allocated m ≡ true
  listed_allocated m h = ground (arith, s.listed m)

  pub mount_of_allocated :
      (f id m : ℕ) → w.phase f ≡ file_open → mount_of f id w ≡ some m → w.allocated m ≡ true
  unfolding mount_of
  mount_of_allocated f id m o e = elim (Bool-cases (id == no_id)) [
    | inl t ↦ ground (arith, mount_allocated w f s (omega (arith, o)))
    | inr t ↦ listed_allocated m (find_mount-some w.mounts id m w.mount_list (ground arith)).0
  ]

  -- A mount that is found by the id of a volume is that of an open file.
  pub get_mount_held :
      (volume_id m : ℕ)
      → get_mount w.files volume_id w.file_list ≡ some m
      → (w.allocated m ≡ true) × (w.holder m ≢ 0)
  get_mount_held volume_id m e =
      let (f, in_list, mount_f) = get_mount-some w.files volume_id m w.file_list e in
      let live : w.phase f ≢ 0 = ground (arith, s.files_listed f) in
      (
        ground (arith, mount_allocated w f s live),
        ground (arith, s.holds f live, s.no_address, live),
      )

  add-IsSound :
      (f volume_id id : ℕ)
      → w.phase f ≡ file_open
      → IsSound (add_mount volume_id id (mount_of f id w) w).1
  unfolding add_mount mount_of attach_mount
  add-IsSound f volume_id id o = elim (Bool-cases (id == no_id)) [
    | inl t ↦ rw t s
    | inr t ↦ elim (Option-cases (find_mount w.mounts id w.mount_list)) [
      | inr (m, e) ↦ rw (t, e) s
      | inl e ↦ elim (Option-cases (get_mount w.files volume_id w.file_list)) [
        | inl g ↦ rw (t, e, g) s
        | inr (m, g) ↦
            let (live, held) = get_mount_held volume_id m g in
            elim (Bool-cases ((w.mounts m).lx_mount_id == no_id)) [
              | inr has ↦ rw (t, e, g, has) s
              | inl free ↦
                  rw (t, e, g, free)
                    (with_id-IsSound w m s live id (ne_of_== _ _ t) held (eq_of_== _ _ free)
                      (λ x allocated same.
                        find_mount-none w.mounts id x w.mount_list e (ground (arith, s.listed x))
                          same))
            ]
      ]
    ]
  ]

  pub lx_mount-IsSound :
      (f operation volume_id id : ℕ)
      → w.phase f ≡ file_open
      → IsSound (ioctl_lx_mount f operation volume_id id w).1
  unfolding ioctl_lx_mount
  lx_mount-IsSound f operation volume_id id o = elim (Bool-cases (operation == b'+')) [
    | inl a ↦ rw a (add-IsSound f volume_id id o)
    | inr a ↦ elim (Bool-cases (operation == b'-')) [
      | inl d ↦
          rw (a, d)
            (elim (Option-cases (mount_of f id w)) [
              | inl e ↦ rw e (unfold detach_mount in s)
              | inr (m, e) ↦ rw e (detach-IsSound m (mount_of_allocated f id m o e))
            ])
      | inr d ↦ elim (Bool-cases (operation == b'?')) [
        | inl q ↦ rw (a, d, q) s
        | inr q ↦ rw (a, d, q) s
      ]
    ]
  ]
