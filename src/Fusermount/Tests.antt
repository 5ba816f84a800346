-- ===== src/Fusermount/Tests.antt =====
-- Runs of src/fusermount/fusermount.c.
use Prim.Native.String.{String}
use winfuse.Base.{
  ◌⊎◌, ℕ, List, Option, none, ◌≡◌, ◌≢◌, refl, arith, true, some, [], ◌∷◌, ◌++◌, if◌then◌else◌,
  is_empty,
}
use winfuse.Wslfuse.Tests.{one_mount, some_calls}
use winfuse.Fusermount.{
  parse_options, copy_option, next_byte, opt_parse_arg, parse_rounds, round_of,
}
use winfuse.Fusermount.Escaped.{escape, print, parse_options-print}
use winfuse.Fusermount.Utf.{utf8_to_utf16}
use winfuse.Fusermount.Decoded.{encode_all, first_units, utf8_to_utf16-encode}
use winfuse.Fusermount.Options.{codes, text_eq, mount_opt_parse}
use winfuse.Fusermount.Arrays.{Holds}
use winfuse.Fusermount.Limits.{IsLimited, mount_opt_parse-IsLimited}
use winfuse.Fusermount.Mounting.{MountCalls, UnmountCalls}
use winfuse.Fusermount.Realpath.{
  ParentCalls, not_link, all_resolved, is_resolved, unmount_id, mountpoint_of, get_mnt_id,
  realpath_parent, join_leaf, find_mnt, Lists, unmount_id-finds,
}

parse_options_lem :
    parse_options 4096 (codes "ro,,Volume=X:\\,Y") ≡ codes "ro" ∷ [] ∷ codes "Volume=X:,Y" ∷ []
unfolding parse_options parse_rounds round_of opt_parse_arg copy_option next_byte
parse_options_lem = refl

parse_options-print_example :
    parse_options 16 (print (codes "a,b" ∷ [] ∷ []) ++ escape (codes "c"))
    ≡ (codes "a,b" ∷ [] ∷ []) ++ (if is_empty (codes "c") then [] else codes "c" ∷ [])
parse_options-print_example =
    parse_options-print 16 (codes "a,b" ∷ [] ∷ []) (codes "c") (omega arith) (omega arith)

-- An "A", an e with an acute accent and a euro sign.
utf8_to_utf16-encode_example :
    first_units 4
      (utf8_to_utf16 (encode_all (0x41 ∷ 0xe9 ∷ 0x20ac ∷ [])) (9 ∷ 9 ∷ 9 ∷ 9 ∷ 9 ∷ 9 ∷ []) 12)
    ≡ some ((0x41 ∷ 0xe9 ∷ 0x20ac ∷ []) ++ 0 ∷ [])
utf8_to_utf16-encode_example =
    utf8_to_utf16-encode (0x41 ∷ 0xe9 ∷ 0x20ac ∷ []) (9 ∷ 9 ∷ 9 ∷ 9 ∷ 9 ∷ 9 ∷ []) 12 (omega arith)
      (omega arith) (omega arith)

mount_opt_parse-IsLimited_example :
    Holds IsLimited
      (mount_opt_parse (λ t base. 7) (λ t base. 7) (codes "SectorSize=7,Volume=X:") 1000)
mount_opt_parse-IsLimited_example =
    mount_opt_parse-IsLimited (λ t base. 7) (λ t base. 7) (codes "SectorSize=7,Volume=X:") 1000

abbrev some_mount : MountCalls
some_mount = record { opens = true; mounts = true; mnt_id = some 77; ioctl_calls = some_calls }

abbrev some_unmount : UnmountCalls
some_unmount = record {
  opens = true;
  mnt_id = some 77;
  unmounts = true;
  query_calls = some_calls;
  remove_calls = some_calls;
  device = one_mount;
}

-- "/home/mnt", and "/mnt" in the root directory.
abbrev in_directory : String → ParentCalls
in_directory dir = record {
  copies = true;
  memory = true;
  leaf = codes "mnt";
  resolved = some (codes dir);
  readlink = λ path. not_link;
}

abbrev mount_lines : List (Option (ℕ × List ℕ))
mount_lines = some (20, codes "/") ∷ some (77, codes "/mnt") ∷ some (78, codes "/home/mnt") ∷ []

mount_lines-resolved : all_resolved mount_lines ≡ true
unfolding all_resolved is_resolved
mount_lines-resolved = refl

unmount_id_found :
    unmount_id (some mount_lines) (mountpoint_of true none (in_directory "/home")) ≡ some 78
unfolding unmount_id mountpoint_of get_mnt_id realpath_parent join_leaf find_mnt text_eq
unmount_id_found = refl

-- It is listed under "/mnt", and is not found.
unmount_id_lost : unmount_id (some mount_lines) (mountpoint_of true none (in_directory "/")) ≡ none
unfolding unmount_id mountpoint_of get_mnt_id realpath_parent join_leaf find_mnt text_eq
unmount_id_lost = refl

unmount_id-finds_example :
    let found = unmount_id (some mount_lines) (mountpoint_of true none (in_directory "/home")) in
    Lists (codes "/home/mnt") mount_lines found × ((codes "/home" ≢ codes "/") ⊎ (found ≡ none))
unmount_id-finds_example =
    unmount_id-finds (in_directory "/home") (codes "/home") mount_lines none refl refl refl
      (omega arith) refl mount_lines-resolved
