-- ===== src/Fusermount/Limits.antt =====
-- The limits that mount_opt_parse of src/fusermount/fusermount.c keeps.
use winfuse.Base.{
  ◌||◌, ℕ, zero, suc, ◌-◌, ◌*◌, ◌%◌, ◌^◌, ◌<◌, ◌≤◌, ◌≡◌, ◌∙◌, refl, arith, inl, inr, Bool, true,
  false, Option, none, some, List, [], ◌∷◌, ◌++◌, ◌==◌, if◌then◌else◌, length, length-append,
  Bool-cases,
}
use winfuse.Wslfuse.Io.{take}
use winfuse.Fusermount.{parse_options}
use winfuse.Fusermount.Arrays.{Holds, if-Holds, last, IsArray, last-cons, utf8_to_utf16-IsArray}
use winfuse.Fusermount.Options.{
  MountOpts, codes, first_unit, prefix_length, fs_name_length, win_mount_point_size,
  mount_opts_start, backslashes, copy_text, drop_5, with_prefix, with_name, name_fuse, set_option,
  apply_option, apply_options, mount_opts_end, default_name, name_opts, end_opts, mount_opt_parse,
  text_eq, split_value,
}

backslashes-IsArray : (n : ℕ) (xs : List ℕ) → IsArray n xs → IsArray n (backslashes xs)
unfolding backslashes
backslashes-IsArray n [] a = a
backslashes-IsArray zero (c ∷ xs) a = absurd (omega (arith, a.sized))
backslashes-IsArray (suc n) (c ∷ []) a = record {
  sized = ground (arith, a.sized);
  ended = ground (arith, a.ended);
}
backslashes-IsArray (suc n) (c ∷ d ∷ xs) a =
    let ih =
      backslashes-IsArray n (d ∷ xs) (record { sized = omega (arith, a.sized); ended = a.ended }) in
    elim (Bool-cases (c == 0)) [
      | inl e ↦ rw e a
      | inr e ↦ rw e (record {
        sized = omega (arith, ih.sized);
        ended = last-cons _ (backslashes (d ∷ xs)) (omega (arith, ih.sized, a.sized)) ∙ ih.ended;
      })
    ]

copy_text-IsArray : (siz : ℕ) (t : List ℕ) → IsArray siz (copy_text siz t)
unfolding copy_text
copy_text-IsArray zero t = record { sized = refl; ended = refl }
copy_text-IsArray (suc zero) t = record { sized = refl; ended = refl }
copy_text-IsArray (suc (suc n)) [] =
    let ih = copy_text-IsArray (suc n) [] in
    record {
      sized = omega (arith, ih.sized);
      ended = last-cons 0 (copy_text (suc n) []) (omega (arith, ih.sized)) ∙ ih.ended;
    }
copy_text-IsArray (suc (suc n)) (c ∷ t) =
    let ih = copy_text-IsArray (suc n) t in
    record {
      sized = omega (arith, ih.sized);
      ended = last-cons c (copy_text (suc n) t) (omega (arith, ih.sized)) ∙ ih.ended;
    }

last-append : (xs ys : List ℕ) → 0 < length ys → last (xs ++ ys) ≡ last ys
last-append [] ys h = refl
last-append (x ∷ xs) ys h =
    last-cons x (xs ++ ys) (omega (arith, length-append xs ys, h)) ∙ last-append xs ys h

-- FileSystemName, behind the five units of "FUSE-".
join-IsArray :
    (fuse ys : List ℕ)
    → length fuse ≡ fs_name_length
    → IsArray 11 ys
    → IsArray fs_name_length (take 5 fuse ++ ys)
join-IsArray (a ∷ b ∷ c ∷ d ∷ e ∷ fuse) ys h j = record {
  sized = omega (arith, j.sized);
  ended = last-append (a ∷ b ∷ c ∷ d ∷ e ∷ []) ys (omega (arith, j.sized)) ∙ j.ended;
}
join-IsArray fuse ys h j = absurd (omega (arith, h))

length-drop_5 : (fuse : List ℕ) → length fuse ≡ fs_name_length → length (drop_5 fuse) ≡ 11
length-drop_5 (a ∷ b ∷ c ∷ d ∷ e ∷ fuse) h = omega (arith, h)
length-drop_5 fuse h = absurd (omega (arith, h))

-- What every option keeps, of Prefix, FileSystemName, WinMountPoint and SectorsPerAllocationUnit.
record Arrays (prefix file_system_name win_mount_point : List ℕ) (unit : ℕ) : Type 0 where
  prefix_kept : IsArray prefix_length prefix
  file_system_name_kept : IsArray fs_name_length file_system_name
  win_mount_point_kept : IsArray win_mount_point_size win_mount_point
  unit_kept : unit < 2 ^ 16

abbrev Keeps : MountOpts → Type 0
Keeps mo = Arrays mo.prefix mo.file_system_name mo.win_mount_point mo.sectors_per_allocation_unit

start-Keeps : Keeps mount_opts_start
unfolding mount_opts_start
start-Keeps = record {
  prefix_kept = record { sized = refl; ended = refl };
  file_system_name_kept = record { sized = refl; ended = refl };
  win_mount_point_kept = record { sized = refl; ended = refl };
  unit_kept = omega arith;
}

with_prefix-Keeps :
    (o : Option (List ℕ)) (mo : MountOpts)
    → Keeps mo
    → Holds (IsArray prefix_length) o
    → Holds Keeps (with_prefix o mo)
unfolding with_prefix
with_prefix-Keeps none mo k h = absurd h
with_prefix-Keeps (some units) mo k h = record {
  prefix_kept = backslashes-IsArray prefix_length units h;
  file_system_name_kept = k.file_system_name_kept;
  win_mount_point_kept = k.win_mount_point_kept;
  unit_kept = k.unit_kept;
}

with_name-Keeps :
    (fuse : List ℕ) (o : Option (List ℕ)) (mo : MountOpts)
    → Keeps mo
    → Holds (λ units. IsArray fs_name_length (take 5 fuse ++ units)) o
    → Holds Keeps (with_name fuse o mo)
unfolding with_name
with_name-Keeps fuse none mo k h = absurd h
with_name-Keeps fuse (some units) mo k h = record {
  prefix_kept = k.prefix_kept;
  file_system_name_kept = h;
  win_mount_point_kept = k.win_mount_point_kept;
  unit_kept = k.unit_kept;
}

Holds-map :
    {A : Type 0} (P Q : A → Type 0) (o : Option A) → Holds P o → ((x : A) → P x → Q x) → Holds Q o
Holds-map P Q none h g = absurd h
Holds-map P Q (some x) h g = g x h

name_fuse-Keeps :
    (value : List ℕ) (o : Option (List ℕ)) (mo : MountOpts)
    → Keeps mo
    → Holds (IsArray fs_name_length) o
    → Holds Keeps (name_fuse value o mo)
unfolding name_fuse
name_fuse-Keeps value none mo k h = absurd h
name_fuse-Keeps value (some fuse) mo k h = with_name-Keeps fuse _ mo k (
    Holds-map (IsArray 11) (λ units. IsArray fs_name_length (take 5 fuse ++ units)) _
      (utf8_to_utf16-IsArray 11 (2 * fs_name_length - 2 * 5) value (drop_5 fuse)
        (length-drop_5 fuse h.sized) (omega arith))
      (λ units a. join-IsArray fuse units h.sized a))

default_name-Keeps :
    (strtol strtoul : (text : List ℕ) (base : ℕ) → ℕ) (mo : MountOpts)
    → Keeps mo
    → Holds Keeps (default_name strtol strtoul mo)
unfolding default_name
default_name-Keeps strtol strtoul mo k =
    if-Holds Keeps (first_unit mo.file_system_name == 0) _ (some mo)
      (with_name-Keeps [] _ mo k (
        utf8_to_utf16-IsArray fs_name_length (2 * fs_name_length) (codes "FUSE") mo.file_system_name
          k.file_system_name_kept.sized (omega arith)))
      k

name_opts-Keeps :
    (strtol strtoul : (text : List ℕ) (base : ℕ) → ℕ) (o : Option MountOpts)
    → Holds Keeps o
    → Holds Keeps (name_opts strtol strtoul o)
unfolding name_opts
name_opts-Keeps strtol strtoul none h = absurd h
name_opts-Keeps strtol strtoul (some mo) h = default_name-Keeps strtol strtoul mo h

record IsKept (o : Option MountOpts) : Type 0 where
  held : Holds Keeps o

if-IsKept :
    (b : Bool) (o o' : Option MountOpts) → IsKept o → IsKept o' → IsKept (if b then o else o')
if-IsKept true o o' k k' = k
if-IsKept false o o' k k' = k'

same : (mo : MountOpts) → Keeps mo → IsKept (some mo)
same mo k = record { held = k }

module _ (strtol strtoul : (text : List ℕ) (base : ℕ) → ℕ) where
  set_option-IsKept :
      (name value : List ℕ) (mo : MountOpts)
      → Keeps mo
      → IsKept (set_option strtol strtoul name value mo)
  unfolding set_option
  set_option-IsKept name value mo k =
      let win = backslashes-IsArray _ _ (copy_text-IsArray win_mount_point_size value) in
      let volume : IsKept (
          some
            (record mo { win_mount_point = backslashes (copy_text win_mount_point_size value) })) =
        (record {
          held = record {
            prefix_kept = k.prefix_kept;
            file_system_name_kept = k.file_system_name_kept;
            win_mount_point_kept = win;
            unit_kept = k.unit_kept;
          };
        }) in
      let sectors : IsKept
          (some (record mo { sectors_per_allocation_unit = strtoul value 10 % 2 ^ 16 })) =
        (record {
          held = record {
            prefix_kept = k.prefix_kept;
            file_system_name_kept = k.file_system_name_kept;
            win_mount_point_kept = k.win_mount_point_kept;
            unit_kept = omega arith;
          };
        }) in
      let prefix : IsKept (with_prefix _ mo) = (record {
        held = with_prefix-Keeps _ mo k (
            utf8_to_utf16-IsArray prefix_length (2 * prefix_length) value mo.prefix
              k.prefix_kept.sized (omega arith));
      }) in
      let file_system_name : IsKept (name_fuse value _ mo) = (record {
        held = name_fuse-Keeps value _ mo k (
            utf8_to_utf16-IsArray fs_name_length (2 * fs_name_length) (codes "FUSE-")
              mo.file_system_name k.file_system_name_kept.sized (omega arith));
      }) in
      let is = text_eq name in
      if-IsKept (is (codes "Volume")) _ _ volume (
        if-IsKept (is (codes "attr_timeout")) _ _ (same _ k) (
          if-IsKept (is (codes "SectorSize")) _ _ (same _ k) (
            if-IsKept (is (codes "SectorsPerAllocationUnit")) _ _ sectors (
              if-IsKept (is (codes "MaxComponentLength")) _ _ (same _ k) (
                if-IsKept (is (codes "VolumeCreationTime")) _ _ (same _ k) (
                  if-IsKept (is (codes "VolumeSerialNumber")) _ _ (same _ k) (
                    if-IsKept (is (codes "FileInfoTimeout")) _ _ (same _ k) (
                      if-IsKept (is (codes "DirInfoTimeout")) _ _ (same _ k) (
                        if-IsKept (is (codes "EaTimeout")) _ _ (same _ k) (
                          if-IsKept (is (codes "VolumeInfoTimeout")) _ _ (same _ k) (
                            if-IsKept (is (codes "KeepFileCache")) _ _ (same _ k) (
                              if-IsKept (is (codes "UNC") || is (codes "VolumePrefix")) _ _ prefix (
                                if-IsKept (is (codes "FileSystemName")) _ _ file_system_name
                                  (same mo k))))))))))))))

  apply_option-Keeps :
      (o : List ℕ) (mo : MountOpts) → Keeps mo → Holds Keeps (apply_option strtol strtoul o mo)
  unfolding apply_option
  apply_option-Keeps o mo k =
      let (name, value) = split_value o in
      if-Holds Keeps (text_eq name (codes "context")) _ _ (set_option-IsKept _ _ mo k).held
        (set_option-IsKept name value mo k).held

  apply_options-Keeps :
      (os : List (List ℕ)) (o : Option MountOpts)
      → Holds Keeps o
      → Holds Keeps (apply_options strtol strtoul os o)
  unfolding apply_options
  apply_options-Keeps os none h = absurd h
  apply_options-Keeps [] (some mo) h = h
  apply_options-Keeps (o ∷ os) (some mo) h = apply_options-Keeps os _ (apply_option-Keeps o mo h)

-- What mount_opt_parse gives.
pub record IsLimited (mo : MountOpts) : Type 0 where
  pub sector_size_from : 512 ≤ mo.sector_size
  pub sector_size_to : mo.sector_size ≤ 4096
  pub allocation_unit_from : 0 < mo.sector_size * mo.sectors_per_allocation_unit
  pub allocation_unit_to : mo.sectors_per_allocation_unit < 2 ^ 16
  pub component_from : 0 < mo.max_component_length
  pub component_to : mo.max_component_length ≤ 255
  pub prefix_array : IsArray prefix_length mo.prefix
  pub file_system_name_array : IsArray fs_name_length mo.file_system_name
  pub win_mount_point_array : IsArray win_mount_point_size mo.win_mount_point

mul_pos : (a b : ℕ) → 0 < a → 0 < b → 0 < a * b
mul_pos a b h j = grind arith

end_opts-IsLimited :
    (strtol strtoul : (text : List ℕ) (base : ℕ) → ℕ) (now : ℕ) (o : Option MountOpts)
    → Holds Keeps o
    → Holds IsLimited (end_opts strtol strtoul now o)
unfolding end_opts mount_opts_end
end_opts-IsLimited strtol strtoul now none h = absurd h
end_opts-IsLimited strtol strtoul now (some mo) k = record {
  sector_size_from = ground arith;
  sector_size_to = ground arith;
  allocation_unit_from = mul_pos _ _ (ground arith) (ground arith);
  allocation_unit_to = ground (arith, k.unit_kept);
  component_from = ground arith;
  component_to = ground arith;
  prefix_array = k.prefix_kept;
  file_system_name_array = k.file_system_name_kept;
  win_mount_point_array = k.win_mount_point_kept;
}

-- Whatever the text of the options is, and whatever numbers strtol and strtoul read in it,
-- mount_opt_parse gives a result, without a write of utf8_to_utf16 behind the end of Prefix or of
-- FileSystemName. In this, the volume has sectors of 512 to 4096 bytes, an allocation unit that is not
-- 0, and names of 1 to 255 characters, and its texts fill arrays of the sizes that the driver expects,
-- with a 0 at the end.
pub mount_opt_parse-IsLimited :
    (strtol strtoul : (text : List ℕ) (base : ℕ) → ℕ) (opts : List ℕ) (now : ℕ)
    → Holds IsLimited (mount_opt_parse strtol strtoul opts now)
unfolding mount_opt_parse
mount_opt_parse-IsLimited strtol strtoul opts now = end_opts-IsLimited strtol strtoul now _ (
    name_opts-Keeps strtol strtoul _ (
      apply_options-Keeps strtol strtoul (parse_options 4096 opts) (some mount_opts_start)
        start-Keeps))
