-- ===== src/Path/Tests.antt =====
-- The theorems about paths at concrete inputs, and runs of both functions.
use winfuse.Base.{ℕ, ◌-◌, ◌≡◌, refl, List, [], ◌∷◌, get_or, arith}
use winfuse.Path.{Memory, PosixString, posix_string, posix_path_prefix, posix_path_suffix}
use winfuse.Path.{find_slash, skip_slashes, suffix_loop}
use winfuse.Path.Prefix.{Splits, posix_path_prefix-Splits}
use winfuse.Path.Suffix.{Parts, posix_path_suffix-Parts}

-- "/usr//bin" at address 16.
abbrev bytes : List ℕ
bytes = b'/' ∷ b'u' ∷ b's' ∷ b'r' ∷ b'/' ∷ b'/' ∷ b'b' ∷ b'i' ∷ b'n' ∷ []

abbrev pub memory : Memory
memory a = get_or bytes (a - 16) 0

abbrev pub usr_bin : PosixString
usr_bin = posix_string 9 16

prefix_of_rooted : posix_path_prefix memory usr_bin ≡ (posix_string 1 16, posix_string 8 17)
unfolding posix_path_prefix find_slash skip_slashes
prefix_of_rooted = refl

prefix_of_relative :
    posix_path_prefix memory (posix_string 8 17) ≡ (posix_string 3 17, posix_string 3 22)
unfolding posix_path_prefix find_slash skip_slashes
prefix_of_relative = refl

suffix_of_rooted : posix_path_suffix memory usr_bin ≡ (posix_string 4 16, posix_string 3 22)
unfolding posix_path_suffix suffix_loop skip_slashes
suffix_of_rooted = refl

suffix_of_name :
    posix_path_suffix memory (posix_string 3 17) ≡ (posix_string 3 17, posix_string 0 17)
unfolding posix_path_suffix suffix_loop skip_slashes
suffix_of_name = refl

posix_path_prefix-Splits_example :
    Splits memory usr_bin (posix_path_prefix memory usr_bin).0 (posix_path_prefix memory usr_bin).1
posix_path_prefix-Splits_example = posix_path_prefix-Splits memory usr_bin (omega arith)

posix_path_suffix-Parts_example :
    Parts memory usr_bin (posix_path_suffix memory usr_bin).0 (posix_path_suffix memory usr_bin).1
    × ((posix_path_suffix memory usr_bin).0.buffer ≡ 16)
posix_path_suffix-Parts_example = posix_path_suffix-Parts memory usr_bin (omega arith)
