-- ===== src/Wslfuse/Maps.antt =====
-- What the requests of FileIoctlLxMount of src/wslfuse/device.c do to the table of ids.
use winfuse.Base.{
  ℕ, ◌<◌, ◌⊎◌, ◌≡◌, ◌≢◌, refl, ap, ◌∙◌, inl, inr, arith, Bool, true, false, Option, none, some,
  List, [], ◌∷◌, count, ◌==◌, ◌&&◌, if◌then◌else◌, Bool-cases, Option-cases, eq_of_==,
}
use winfuse.Wslfuse.{
  Mount, DeviceState, Outcome, success, enoent, no_id, ioctl_lx_mount, mount_of, add_mount,
  get_mount, attach_mount, detach_mount, query_mount, with_id, without, mount_reference,
}
use winfuse.Wslfuse.Volume.{is_success}
use winfuse.Wslfuse.Kept.{with_id-IsSound}
use winfuse.Wslfuse.Sound.{IsSound}
use winfuse.Wslfuse.Requests.{get_mount_held, find_mount-none}
use winfuse.Wslfuse.Table.{
  table, table-Has, table-eq, table-same, table-post_destroy, table-dereference_listed,
}

-- What a request about an id that is in the table or not returns.
abbrev pub found : Option ℕ → Outcome
found none = enoent
found (some m) = success

-- A mount can be entered under an id that no mount has, if it has none itself.
abbrev pub is_free : (ℕ → Mount) → Option ℕ → Option ℕ → Bool
is_free mounts (some n) m = false
is_free mounts none none = false
is_free mounts none (some m) = (mounts m).lx_mount_id == no_id

-- The mount of the open file with a volume id, where there is one.
pub data MountOf (w : DeviceState) (volume_id : ℕ) : Option ℕ → Type 0 where
  no_volume :
      ((f : ℕ) → 0 < count f w.file_list → (w.files f).volume_id ≢ volume_id)
      → MountOf w volume_id none
  volume_of :
      (f : ℕ)
      → 0 < count f w.file_list
      → (w.files f).volume_id ≡ volume_id
      → MountOf w volume_id (some (w.files f).mount)

get_mount-cases :
    (w : DeviceState) (volume_id : ℕ) (l : List ℕ)
    → ((f : ℕ) → 0 < count f l → 0 < count f w.file_list)
    → ((f : ℕ) → 0 < count f w.file_list → 0 < count f l ⊎ (w.files f).volume_id ≢ volume_id)
    → MountOf w volume_id (get_mount w.files volume_id l)
unfolding get_mount count
get_mount-cases w volume_id [] inside rest =
    no_volume (λ f i. elim (rest f i) [ inl h ↦ absurd (omega (arith, h)) | inr d ↦ d ])
get_mount-cases w volume_id (f ∷ l) inside rest =
    elim (Bool-cases ((w.files f).volume_id == volume_id)) [
      | inl e ↦ rw e (volume_of f (inside f (ground arith)) (eq_of_== _ _ e))
      | inr e ↦ rw e (
          get_mount-cases w volume_id l (λ g i. inside g (ground (arith, i)))
            (λ g i. elim (rest g i) [
              | inr d ↦ inr d
              | inl h ↦ elim (Bool-cases (g == f)) [
                | inl same ↦ inr (ground (arith, same, e))
                | inr other ↦ inl (ground (arith, h, other))
              ]
            ]))
    ]

get_mount-MountOf :
    (w : DeviceState) (volume_id : ℕ)
    → MountOf w volume_id (get_mount w.files volume_id w.file_list)
get_mount-MountOf w volume_id = get_mount-cases w volume_id w.file_list (λ f i. i) (λ f i. inl i)

-- The requests '?', '-' and '+' of a file, for an id, and what they do to the table at `j`.
pub record Maps (w : DeviceState) (f volume_id id j : ℕ) : Type 0 where
  pub target : Option ℕ
  pub target_mount : MountOf w volume_id target
  pub queried : ioctl_lx_mount f b'?' volume_id id w ≡ (found (table w id), w)
  pub removed : (ioctl_lx_mount f b'-' volume_id id w).0 ≡ found (table w id)
  pub removed_table :
      table (ioctl_lx_mount f b'-' volume_id id w).1 j ≡ (if j == id then none else table w j)
  pub added :
      is_success (ioctl_lx_mount f b'+' volume_id id w).0 ≡ is_free w.mounts (table w id) target
  pub added_table : table (ioctl_lx_mount f b'+' volume_id id w).1 j ≡ (
      if is_success (ioctl_lx_mount f b'+' volume_id id w).0 && j == id then target else table w j)

module _ (w : DeviceState) (s : IsSound w) (id j : ℕ) (real : id ≢ no_id) (real_j : j ≢ no_id) where
  -- A mount without an id is entered under one that is new.
  table-with_id :
      (m : ℕ)
      → w.allocated m ≡ true
      → w.holder m ≢ 0
      → (w.mounts m).lx_mount_id ≡ no_id
      → table w id ≡ none
      → table (with_id w m id) j ≡ (if j == id then some m else table w j)
  unfolding with_id mount_reference
  table-with_id m live held free new =
      let fresh : ((x : ℕ) → w.allocated x ≡ true → (w.mounts x).lx_mount_id ≢ id) =
        λ x allocated same.
          find_mount-none w.mounts id x w.mount_list new (ground (arith, s.listed x)) same in
      let t = with_id-IsSound w m s live id real held free fresh in
      elim (Bool-cases (j == id)) [
        | inl e ↦ rw e (table-eq (with_id w m id) m j t real_j live (ground (arith, e)))
        | inr e ↦ rw e (
            table-same w (with_id w m id) j s t real_j (λ n.
              (λ has. ground (arith, has.0, has.1, e), λ has. ground (arith, has.0, has.1, e))))
      ]

  remove_table : table (detach_mount (table w id) w).1 j ≡ (if j == id then none else table w j)
  unfolding detach_mount
  remove_table = elim (Option-cases (table w id)) [
    | inl e ↦ rw e (elim (Bool-cases (j == id)) [
      | inl t ↦ rw t (ap (table w) (eq_of_== _ _ t) ∙ e)
      | inr t ↦ rw t refl
    ])
    | inr (m, e) ↦
        let (live, same) = table-Has w id m s e in
        let has_id : (w.mounts m).lx_mount_id ≢ no_id = ground (arith, same, real) in
        let some_id : ((w.mounts m).lx_mount_id == no_id) ≡ false = ground (arith, has_id) in
        rw (e, some_id)
          (table-post_destroy (without w m) (w.mounts m).file j
            ∙ table-dereference_listed w m s live has_id j real_j
            ∙ ap (λ i. if j == i then none else table w j) same)
  ]

  remove_answer : (detach_mount (table w id) w).0 ≡ found (table w id)
  unfolding detach_mount
  remove_answer = elim (Option-cases (table w id)) [
    | inl e ↦ rw e refl
    | inr (m, e) ↦
        let (live, same) = table-Has w id m s e in
        let some_id : ((w.mounts m).lx_mount_id == no_id) ≡ false = ground (arith, same, real) in
        rw (e, some_id) refl
  ]

  query_answer : query_mount (table w id) w ≡ found (table w id)
  unfolding query_mount
  query_answer = elim (Option-cases (table w id)) [
    | inl e ↦ rw e refl
    | inr (m, e) ↦
        let (live, same) = table-Has w id m s e in
        let some_id : ((w.mounts m).lx_mount_id == no_id) ≡ false = ground (arith, same, real) in
        rw (e, some_id) refl
  ]

  add_answer :
      (volume_id : ℕ)
      → is_success (add_mount volume_id id (table w id) w).0
        ≡ is_free w.mounts (table w id) (get_mount w.files volume_id w.file_list)
  unfolding add_mount attach_mount
  add_answer volume_id = elim (Option-cases (table w id)) [
    | inr (m, e) ↦ rw e refl
    | inl e ↦ elim (Option-cases (get_mount w.files volume_id w.file_list)) [
      | inl g ↦ rw (e, g) refl
      | inr (m, g) ↦ elim (Bool-cases ((w.mounts m).lx_mount_id == no_id)) [
        | inl free ↦ rw (e, g, free) refl
        | inr has ↦ rw (e, g, has) refl
      ]
    ]
  ]

  add_table :
      (volume_id : ℕ)
      → table (add_mount volume_id id (table w id) w).1 j ≡ (
          if is_success (add_mount volume_id id (table w id) w).0 && j == id
          then get_mount w.files volume_id w.file_list
          else table w j)
  unfolding add_mount attach_mount
  add_table volume_id = elim (Option-cases (table w id)) [
    | inr (m, e) ↦ rw e refl
    | inl e ↦ elim (Option-cases (get_mount w.files volume_id w.file_list)) [
      | inl g ↦ rw (e, g) refl
      | inr (m, g) ↦ elim (Bool-cases ((w.mounts m).lx_mount_id == no_id)) [
        | inl free ↦
            let (live, held) = get_mount_held w s volume_id m g in
            rw (e, g, free) (table-with_id m live held (eq_of_== _ _ free) e)
        | inr has ↦ rw (e, g, has) refl
      ]
    ]
  ]

-- Where the references are sound, FileIoctlLxMount keeps a table from ids to mounts. A query finds
-- whether the id is in the table and changes nothing; a removal finds the same, and takes just this id
-- off the table; an addition succeeds just where the id is new and a file of FuseMiscFileList has
-- the volume id and a mount without an id, and enters just this mount under the id.
pub ioctl_lx_mount-Maps :
    (w : DeviceState) (f volume_id id j : ℕ)
    → IsSound w
    → id ≢ no_id
    → j ≢ no_id
    → Maps w f volume_id id j
unfolding ioctl_lx_mount mount_of
ioctl_lx_mount-Maps w f volume_id id j s real real_j =
    let named : (id == no_id) ≡ false = ground (arith, real) in
    record {
      target = get_mount w.files volume_id w.file_list;
      target_mount = get_mount-MountOf w volume_id;
      queried = rw named (ap (λ a. (a, w)) (query_answer w s id j real real_j));
      removed = rw named (remove_answer w s id j real real_j);
      removed_table = rw named (remove_table w s id j real real_j);
      added = rw named (add_answer w s id j real real_j volume_id);
      added_table = rw named (add_table w s id j real real_j volume_id);
    }
