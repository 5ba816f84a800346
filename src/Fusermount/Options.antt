-- ===== src/Fusermount/Options.antt =====
-- mount_opt_parse of src/fusermount/fusermount.c. strtol, strtoul and gettimeofday are parameters: the
-- first two give a number of 64 bits, of which the code takes the low ones.
use Prim.Native.Char.{code}
use Prim.Native.String.{String}
use winfuse.Base.{
  ℕ, zero, suc, ◌-◌, ◌*◌, ◌/◌, ◌%◌, ◌^◌, bit_xor, Bool, true, false, not, ◌&&◌, ◌||◌, Option, none,
  some, List, [], ◌∷◌, ◌++◌, ◌==◌, ltb, if◌then◌else◌, replicate,
}
use winfuse.Wslfuse.Io.{take}
use winfuse.Fusermount.{parse_options}
use winfuse.Fusermount.Utf.{utf8_to_utf16}

-- The bytes of a name.
abbrev pub codes : String → List ℕ
codes String.[] = []
codes (String.◌∷◌ c s) = code c ∷ codes s

-- strcmp.
unfoldable pub text_eq : List ℕ → List ℕ → Bool
text_eq [] [] = true
text_eq [] (y ∷ ys) = false
text_eq (x ∷ xs) [] = false
text_eq (x ∷ xs) (y ∷ ys) = let rest = text_eq xs ys in x == y && rest

-- The name and the value around the first '='; a text without one has an empty value.
unfoldable pub split_value : List ℕ → List ℕ × List ℕ
split_value [] = ([], [])
split_value (c ∷ t) =
    let (name, value) = split_value t in
    let rest = (let r : List ℕ × List ℕ = (c ∷ name, value) in r) in
    if c == b'=' then ([], t) else rest

-- The volume parameters that options change, and the struct around them. The two texts are arrays.
pub record MountOpts : Type 0 where
  pub sector_size : ℕ
  pub sectors_per_allocation_unit : ℕ
  pub max_component_length : ℕ
  pub volume_creation_time : ℕ
  pub volume_serial_number : ℕ
  pub file_info_timeout : ℕ
  pub dir_info_timeout : ℕ
  pub ea_timeout : ℕ
  pub volume_info_timeout : ℕ
  pub flush_and_purge_on_cleanup : Bool
  pub dir_info_timeout_valid : Bool
  pub ea_timeout_valid : Bool
  pub volume_info_timeout_valid : Bool
  pub prefix : List ℕ
  pub file_system_name : List ℕ
  pub win_mount_point : List ℕ
  pub set_attr_timeout : Bool
  pub attr_timeout : ℕ
  pub set_file_info_timeout : Bool
  pub set_dir_info_timeout : Bool
  pub set_ea_timeout : Bool
  pub set_volume_info_timeout : Bool
  pub set_keep_file_cache : Bool

-- The units of Prefix and of FileSystemName, and the bytes of WinMountPoint.
abbrev pub prefix_length : ℕ
prefix_length = 192

abbrev pub fs_name_length : ℕ
fs_name_length = 16

abbrev pub win_mount_point_size : ℕ
win_mount_point_size = 260

-- The start of mount_opt_parse: all is 0, but for what follows.
unfoldable pub mount_opts_start : MountOpts
mount_opts_start = record {
  sector_size = 0;
  sectors_per_allocation_unit = 0;
  max_component_length = 0;
  volume_creation_time = 0;
  volume_serial_number = 0;
  file_info_timeout = 1000;
  dir_info_timeout = 0;
  ea_timeout = 0;
  volume_info_timeout = 0;
  flush_and_purge_on_cleanup = true;
  dir_info_timeout_valid = false;
  ea_timeout_valid = false;
  volume_info_timeout_valid = false;
  prefix = replicate prefix_length 0;
  file_system_name = replicate fs_name_length 0;
  win_mount_point = replicate win_mount_point_size 0;
  set_attr_timeout = false;
  attr_timeout = 0;
  set_file_info_timeout = false;
  set_dir_info_timeout = false;
  set_ea_timeout = false;
  set_volume_info_timeout = false;
  set_keep_file_cache = false;
}

-- Slashes of a text up to its 0 become backslashes.
unfoldable pub backslashes : List ℕ → List ℕ
backslashes [] = []
backslashes (c ∷ t) =
    let rest = (if c == b'/' then b'\\' else c) ∷ backslashes t in if c == 0 then c ∷ t else rest

-- strncpy, and a 0 at the end: as many bytes as the array has.
unfoldable pub copy_text : (siz : ℕ) → List ℕ → List ℕ
copy_text zero t = []
copy_text (suc zero) t = 0 ∷ []
copy_text (suc (suc n)) [] = 0 ∷ copy_text (suc n) []
copy_text (suc (suc n)) (c ∷ t) = c ∷ copy_text (suc n) t

abbrev pub first_unit : List ℕ → ℕ
first_unit [] = 0
first_unit (u ∷ units) = u

abbrev pub drop_5 : List ℕ → List ℕ
drop_5 (a ∷ b ∷ c ∷ d ∷ e ∷ t) = t
drop_5 t = []

-- The prefix, with backslashes.
unfoldable pub with_prefix : Option (List ℕ) → MountOpts → Option MountOpts
with_prefix none mo = none
with_prefix (some units) mo = some (record mo { prefix = backslashes units })

-- FileSystemName, of its five first units and what is behind them.
unfoldable pub with_name : (fuse : List ℕ) → Option (List ℕ) → MountOpts → Option MountOpts
with_name fuse none mo = none
with_name fuse (some units) mo = some (record mo { file_system_name = take 5 fuse ++ units })

unfoldable pub name_fuse : (value : List ℕ) → Option (List ℕ) → MountOpts → Option MountOpts
unfolding with_name
name_fuse value none mo = none
name_fuse value (some fuse) mo =
    with_name fuse (utf8_to_utf16 value (drop_5 fuse) (2 * fs_name_length - 2 * 5)) mo

module _ (strtol strtoul : (text : List ℕ) (base : ℕ) → ℕ) where
  -- An option with its value.
  unfoldable pub set_option : (name value : List ℕ) → MountOpts → Option MountOpts
  set_option name value mo =
      let is = text_eq name in
      if is (codes "Volume")
      then some (record mo { win_mount_point = backslashes (copy_text win_mount_point_size value) })
      else if is (codes "attr_timeout")
      then some (record mo { set_attr_timeout = true; attr_timeout = strtol value 10 % 2 ^ 32 })
      else if is (codes "SectorSize")
      then some (record mo { sector_size = strtoul value 10 % 2 ^ 16 })
      else if is (codes "SectorsPerAllocationUnit")
      then some (record mo { sectors_per_allocation_unit = strtoul value 10 % 2 ^ 16 })
      else if is (codes "MaxComponentLength")
      then some (record mo { max_component_length = strtoul value 10 % 2 ^ 16 })
      else if is (codes "VolumeCreationTime")
      then some (record mo { volume_creation_time = strtol value 0 })
      else if is (codes "VolumeSerialNumber")
      then some (record mo { volume_serial_number = strtoul value 16 % 2 ^ 32 })
      else if is (codes "FileInfoTimeout")
      then some
          (record mo { set_file_info_timeout = true; file_info_timeout = strtol value 10 % 2 ^ 32 })
      else if is (codes "DirInfoTimeout")
      then some
          (record mo { set_dir_info_timeout = true; dir_info_timeout = strtol value 10 % 2 ^ 32 })
      else if is (codes "EaTimeout")
      then some (record mo { set_ea_timeout = true; ea_timeout = strtol value 10 % 2 ^ 32 })
      else if is (codes "VolumeInfoTimeout")
      then some (record mo {
        set_volume_info_timeout = true;
        volume_info_timeout = strtol value 10 % 2 ^ 32;
      })
      else if is (codes "KeepFileCache")
      then some (record mo { set_keep_file_cache = true })
      else if is (codes "UNC") || is (codes "VolumePrefix")
      then with_prefix (utf8_to_utf16 value mo.prefix (2 * prefix_length)) mo
      else if is (codes "FileSystemName")
      then name_fuse value (utf8_to_utf16 (codes "FUSE-") mo.file_system_name (2 * fs_name_length))
          mo
      else some mo

  -- A round of mount_opt_parse: an option may stand behind "context=".
  unfoldable pub apply_option : List ℕ → MountOpts → Option MountOpts
  apply_option option mo =
      let (name, value) = split_value option in
      if text_eq name (codes "context")
      then (let (name', value') = split_value value in set_option name' value' mo)
      else set_option name value mo

  -- All of them; `none` where one writes behind the end of an array.
  unfoldable pub apply_options : List (List ℕ) → Option MountOpts → Option MountOpts
  apply_options os none = none
  apply_options [] (some mo) = some mo
  apply_options (o ∷ os) (some mo) = apply_options os (apply_option o mo)

  -- The 32 low and the 32 high bits of the time of creation.
  abbrev serial_number : ℕ → ℕ
  serial_number time = bit_xor (time / 2 ^ 32 % 2 ^ 32) (time % 2 ^ 32)

  -- What mount_opt_parse makes of the options, at the time `now` in units of 100 ns.
  unfoldable pub mount_opts_end : (now : ℕ) → MountOpts → MountOpts
  mount_opts_end now mo =
      let time = (if mo.volume_creation_time == 0 then now else mo.volume_creation_time) in
      record mo {
        file_info_timeout =
            (if not mo.set_file_info_timeout && mo.set_attr_timeout
              then mo.attr_timeout * 1000 % 2 ^ 32
              else mo.file_info_timeout);
        dir_info_timeout_valid = mo.set_dir_info_timeout;
        ea_timeout_valid = mo.set_ea_timeout;
        volume_info_timeout_valid = mo.set_volume_info_timeout;
        flush_and_purge_on_cleanup =
            (if mo.set_keep_file_cache then false else mo.flush_and_purge_on_cleanup);
        sector_size =
            (if ltb mo.sector_size 512 || ltb 4096 mo.sector_size then 4096 else mo.sector_size);
        sectors_per_allocation_unit =
            (if mo.sectors_per_allocation_unit == 0 then 1 else mo.sectors_per_allocation_unit);
        max_component_length =
            (if 0 == mo.max_component_length || ltb 255 mo.max_component_length
              then 255
              else mo.max_component_length);
        volume_creation_time = time;
        volume_serial_number =
            (if 0 == mo.volume_serial_number then serial_number time else mo.volume_serial_number);
      }

  -- FileSystemName, where no option gave it.
  unfoldable pub default_name : MountOpts → Option MountOpts
  default_name mo =
      if first_unit mo.file_system_name == 0
      then with_name [] (utf8_to_utf16 (codes "FUSE") mo.file_system_name (2 * fs_name_length)) mo
      else some mo

  unfoldable pub end_opts : (now : ℕ) → Option MountOpts → Option MountOpts
  unfolding mount_opts_end
  end_opts now none = none
  end_opts now (some mo) = some (mount_opts_end now mo)

  unfoldable pub name_opts : Option MountOpts → Option MountOpts
  unfolding default_name
  name_opts none = none
  name_opts (some mo) = default_name mo

  -- mount_opt_parse, of the text of the options; `none` where it writes behind the end of an array.
  unfoldable pub mount_opt_parse : (opts : List ℕ) (now : ℕ) → Option MountOpts
  unfolding end_opts name_opts apply_options
  mount_opt_parse opts now =
      end_opts now (name_opts (apply_options (parse_options 4096 opts) (some mount_opts_start)))
