-- ===== src/Wslfuse/Accounts.antt =====
-- What the system has given to src/wslfuse/device.c, and not got back, is what the files have.
use winfuse.Base.{
  ℕ, ◌+◌, ◌<◌, ◌≡◌, ◌≢◌, refl, inl, inr, arith, Bool, true, false, not, ◌&&◌, Option, some, none,
  List, [], ◌∷◌, ◌==◌, if◌then◌else◌, count, erase, Bool-cases,
}
use winfuse.Cache.{dec32}
use winfuse.Wslfuse.{
  DeviceState, Outcome, no_id, set_mount, file_absent, ioctl_lx_mount, attach_mount, detach_mount,
  add_mount, mount_of, post_destroy, with_id, without, delete_unlist, delete_detach,
  mount_dereference, mount_reference,
}

-- The sum over files.
unfoldable pub total : (ℕ → ℕ) → List ℕ → ℕ
total g [] = 0
total g (f ∷ l) = g f + total g l

-- Whether a file has a volume, and a handle of its mount point.
abbrev pub has_volume : DeviceState → ℕ → ℕ
has_volume w f = if (w.files f).volume_file_object == 0 then 0 else 1

abbrev pub has_mount_point : DeviceState → ℕ → ℕ
has_mount_point w f = if (w.files f).win_mount_handle == 0 then 0 else 1

pub total-congr :
    (g h : ℕ → ℕ) (l : List ℕ) → ((f : ℕ) → 0 < count f l → h f ≡ g f) → total h l ≡ total g l
unfolding total count
total-congr g h [] e = refl
total-congr g h (f ∷ l) e = ground (arith, e f, total-congr g h l (λ x i. e x (ground (arith, i))))

pub total-erase :
    (g : ℕ → ℕ) (l : List ℕ) (f : ℕ) → 0 < count f l → total g l ≡ total g (erase f l) + g f
unfolding total count erase
total-erase g [] f h = absurd (omega arith)
total-erase g (x ∷ l) f h = ground (arith, total-erase g l f)

-- One file has one more.
pub total-more :
    (g h : ℕ → ℕ) (l : List ℕ) (f : ℕ)
    → ((x : ℕ) → x ≢ f → h x ≡ g x)
    → h f ≡ g f + 1
    → total h l ≡ total g l + count f l
unfolding total count
total-more g h [] f same more = omega arith
total-more g h (x ∷ l) f same more = ground (arith, same x, more, total-more g h l f same more)

-- The files that are there are those of `l`, each once, and what the system has given is theirs.
pub record Accounts (w : DeviceState) (l : List ℕ) : Type 0 where
  pub once : (f : ℕ) → count f l ≡ (if w.phase f == file_absent then 0 else 1)
  pub instances : w.resources.instances ≡ total (has_volume w) l
  pub initialized : w.resources.initialized ≡ total (has_volume w) l
  pub volume_handles : w.resources.volume_handles ≡ total (has_volume w) l
  pub volume_file_objects : w.resources.volume_file_objects ≡ total (has_volume w) l
  pub win_mount_handles : w.resources.win_mount_handles ≡ total (has_mount_point w) l

-- What makes no difference to the account.
pub record Same (w v : DeviceState) : Type 0 where
  pub phase : (f : ℕ) → (v.phase f == file_absent) ≡ (w.phase f == file_absent)
  pub files : (f : ℕ) → v.files f ≡ w.files f
  pub resources : v.resources ≡ w.resources

pub Same-refl : (w : DeviceState) → Same w w
Same-refl w = record { phase = λ f. refl; files = λ f. refl; resources = refl }

pub Same-Accounts : (w v : DeviceState) (l : List ℕ) → Same w v → Accounts w l → Accounts v l
Same-Accounts w v l s a =
    let volumes : total (has_volume v) l ≡ total (has_volume w) l =
      total-congr _ _ l (λ f i. rw (s.files f) refl) in
    let points : total (has_mount_point v) l ≡ total (has_mount_point w) l =
      total-congr _ _ l (λ f i. rw (s.files f) refl) in
    record {
      once = λ f. rw (s.phase f) (a.once f);
      instances = rw (s.resources, volumes) a.instances;
      initialized = rw (s.resources, volumes) a.initialized;
      volume_handles = rw (s.resources, volumes) a.volume_handles;
      volume_file_objects = rw (s.resources, volumes) a.volume_file_objects;
      win_mount_handles = rw (s.resources, points) a.win_mount_handles;
    }

pub either {ℓ κ} :
    {A : Type ℓ} (P : A → Type κ) (b : Bool) {r t : A} → P r → P t → P (if b then r else t)
either P true h k = h
either P false h k = k

post_destroy-Same : (f : ℕ) (w v : DeviceState) → Same w v → Same w (post_destroy f v)
unfolding post_destroy
post_destroy-Same f w v s =
    either (Same w) (not (f == 0) && not ((v.files f).volume_file_object == 0))
      (record { phase = s.phase; files = s.files; resources = s.resources }) s

pub dereference-Same : (w v : DeviceState) (m : ℕ) → Same w v → Same w (mount_dereference v m)
unfolding mount_dereference
dereference-Same w v m s =
    either (Same w) (dec32 (v.mounts m).ref_count == 0)
      (record { phase = s.phase; files = s.files; resources = s.resources })
      (record { phase = s.phase; files = s.files; resources = s.resources })

without-Same : (w : DeviceState) (m : ℕ) → Same w (without w m)
unfolding without
without-Same w m =
    dereference-Same w
      (record (set_mount w m (record (w.mounts m) { lx_mount_id = no_id })) {
        mount_list = erase m w.mount_list;
      })
      m (record { phase = λ f. refl; files = λ f. refl; resources = refl })

attach-Same : (id : ℕ) (m : Option ℕ) (w : DeviceState) → Same w (attach_mount id m w).1
unfolding attach_mount with_id mount_reference
attach-Same id none w = Same-refl w
attach-Same id (some m) w =
    either (λ (r : Outcome × DeviceState). Same w r.1) (not ((w.mounts m).lx_mount_id == no_id))
      (Same-refl w) (record { phase = λ f. refl; files = λ f. refl; resources = refl })

add-Same : (vid id : ℕ) (m : Option ℕ) (w : DeviceState) → Same w (add_mount vid id m w).1
unfolding add_mount
add-Same vid id none w = attach-Same id _ w
add-Same vid id (some m) w = Same-refl w

detach-Same : (m : Option ℕ) (w : DeviceState) → Same w (detach_mount m w).1
unfolding detach_mount
detach-Same none w = Same-refl w
detach-Same (some m) w =
    either (λ (r : Outcome × DeviceState). Same w r.1) ((w.mounts m).lx_mount_id == no_id)
      (Same-refl w) (post_destroy-Same (w.mounts m).file w (without w m) (without-Same w m))

pub lx_mount-Same : (f op vid id : ℕ) (w : DeviceState) → Same w (ioctl_lx_mount f op vid id w).1
unfolding ioctl_lx_mount
lx_mount-Same f op vid id w =
    let m = mount_of f id w in
    either (λ (r : Outcome × DeviceState). Same w r.1) (op == b'+') (add-Same vid id m w)
      (either (λ (r : Outcome × DeviceState). Same w r.1) (op == b'-') (detach-Same m w)
        (either (λ (r : Outcome × DeviceState). Same w r.1) (op == b'?') (Same-refl w)
          (Same-refl w)))

pub unlist-Same : (f : ℕ) (w : DeviceState) → w.phase f ≡ 1 → Same w (delete_unlist f w)
unfolding delete_unlist
unlist-Same f w o = elim (Bool-cases ((w.files f).volume_file_object == 0)) [
  | inl e ↦ rw e (record { phase = λ x. ground (arith, o); files = λ x. refl; resources = refl })
  | inr e ↦ rw e (record { phase = λ x. ground (arith, o); files = λ x. refl; resources = refl })
]

pub detach_file-Same : (f : ℕ) (w : DeviceState) → w.phase f ≡ 2 → Same w (delete_detach f w)
unfolding delete_detach
detach_file-Same f w o = record {
  phase = λ x. ground (arith, o);
  files = λ x. refl;
  resources = refl;
}
