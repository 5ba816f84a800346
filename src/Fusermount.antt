-- ===== src/Fusermount.antt =====
-- src/fusermount/fusermount.c: the text of the mount options. A text is the list of its bytes up to its
-- 0, and a pointer into it is what is left.
pub mod Arrays
pub mod Utf
pub mod Escaped
pub mod Decoded
pub mod Options
pub mod Limits
pub mod Mounting
pub mod Realpath
pub mod Mapped
pub mod Tests
use winfuse.Base.{
  ℕ, zero, suc, Bool, true, false, ◌&&◌, ◌||◌, Option, none, some, List, [], ◌∷◌, ◌==◌,
  if◌then◌else◌, is_empty, length,
}

-- The byte that opt_parse_arg copies, and where it goes on; a backslash at the end stands for itself.
unfoldable pub next_byte : ℕ → List ℕ → ℕ × List ℕ
next_byte c [] = (c, [])
next_byte c (x ∷ p) = if c == b'\\' then (x, p) else (c, x ∷ p)

abbrev pub push : ℕ → List ℕ × List ℕ × ℕ → List ℕ × List ℕ × ℕ
push x (t, r, room) = (x ∷ t, r, room)

-- The loop of opt_parse_arg, into a buffer with `room` bytes: what it copies, what is left of the text,
-- and what is left of the room.
unfoldable pub copy_option : (room : ℕ) → List ℕ → List ℕ × List ℕ × ℕ
unfolding next_byte
copy_option zero p = ([], p, zero)
copy_option (suc n) [] = ([], [], suc n)
copy_option (suc n) (c ∷ p) =
    let (x, q) = next_byte c p in
    let rest = push x (copy_option n q) in if c == b',' then ([], c ∷ p, suc n) else rest

abbrev pub skip_comma : List ℕ → List ℕ
skip_comma [] = []
skip_comma (c ∷ p) = p

-- opt_parse_arg: an option and what comes after it.
unfoldable pub opt_parse_arg : (siz : ℕ) → List ℕ → Option (List ℕ × List ℕ)
unfolding copy_option
opt_parse_arg siz opt =
    let (t, r, room) = copy_option siz opt in
    if room == 0 then none else if is_empty t && is_empty r then none else some (t, skip_comma r)

unfoldable pub round_of : Option (List ℕ × List ℕ) → (List ℕ → List (List ℕ)) → List (List ℕ)
round_of none again = []
round_of (some (t, rest)) again = t ∷ again rest

-- The loop of mount_opt_parse: the options, one after the other. A round passes a byte, so that the
-- bytes and one more are enough rounds.
unfoldable pub parse_rounds : (fuel siz : ℕ) → List ℕ → List (List ℕ)
unfolding round_of
parse_rounds zero siz opt = []
parse_rounds (suc fuel) siz opt = round_of (opt_parse_arg siz opt) (parse_rounds fuel siz)

unfoldable pub parse_options : (siz : ℕ) → List ℕ → List (List ℕ)
parse_options siz opt = parse_rounds (suc (length opt)) siz opt
