-- ===== src/Fusermount/Utf.antt =====
-- utf8_to_utf16 of src/fusermount/fusermount.c.
use winfuse.Base.{
  ℕ, zero, suc, ◌+◌, ◌*◌, ◌/◌, ◌%◌, Bool, false, not, Option, none, some, List, [], ◌∷◌, ◌==◌, ltb,
  if◌then◌else◌,
}

-- The unit for what is not a character.
abbrev pub replacement : ℕ
replacement = 0xfffd

-- A continuation byte; the text ends with 0, which is none.
unfoldable pub is_continued : List ℕ → Bool
is_continued [] = false
is_continued (x ∷ src) = not (x / 128 % 2 == 0)

-- What a step of the loop reads: `c` as it ends up, the unit, and what is left of the text.
pub record Step : Type 0 where
  pub c : ℕ
  pub w : ℕ
  pub src : List ℕ

abbrev six_bits : List ℕ → ℕ
six_bits [] = 0
six_bits (x ∷ src) = x % 64

abbrev rest_of : List ℕ → List ℕ
rest_of [] = []
rest_of (x ∷ src) = src

-- The last continuation byte of a character.
unfoldable pub decode_last : ℕ → List ℕ → Step
unfolding is_continued
decode_last c src =
    if not (is_continued src)
    then record { c = c; w = replacement; src = src }
    else record { c = c + six_bits src; w = c + six_bits src; src = rest_of src }

unfoldable pub decode_three : ℕ → List ℕ → Step
unfolding is_continued decode_last
decode_three c src =
    if not (is_continued src)
    then record { c = c; w = replacement; src = src }
    else decode_last (c + six_bits src * 64) (rest_of src)

-- The continuation bytes of a character that has no unit are passed over, up to `n`.
unfoldable pub skip_continued : ℕ → List ℕ → List ℕ
unfolding is_continued
skip_continued zero src = src
skip_continued (suc n) src =
    let rest = skip_continued n (rest_of src) in if is_continued src then rest else src

unfoldable pub decode_one : List ℕ → Step
unfolding decode_last decode_three skip_continued
decode_one [] = record { c = 0; w = 0; src = [] }
decode_one (c ∷ src) =
    if ltb c 0x80
    then record { c = c; w = c; src = src }
    else if ltb c 0xc0
    then record { c = c; w = replacement; src = src }
    else if ltb c 0xe0
    then decode_last (c % 32 * 64) src
    else if ltb c 0xf0
    then decode_three (c % 16 * 4096) src
    else if ltb c 0xf8
    then record { c = c; w = replacement; src = skip_continued 3 src }
    else record { c = c; w = replacement; src = src }

-- The loop: the units that are written where there is room for `room` of them. It ends after a 0.
unfoldable pub decode : (room : ℕ) → List ℕ → List ℕ
decode zero src = []
decode (suc n) src =
    let s = decode_one src in let rest = s.w ∷ decode n s.src in if s.c == 0 then s.w ∷ [] else rest

abbrev pub behind : ℕ → Option (List ℕ) → Option (List ℕ)
behind u none = none
behind u (some t) = some (u ∷ t)

-- The units over those that the destination had; `none` is a write behind its end.
unfoldable pub overwrite : (units dst : List ℕ) → Option (List ℕ)
overwrite [] dst = some dst
overwrite (u ∷ units) [] = none
overwrite (u ∷ units) (d ∷ dst) = behind u (overwrite units dst)

-- A 0 in the last of `room` units, where there is any.
unfoldable pub end_with_0 : (room : ℕ) → List ℕ → Option (List ℕ)
end_with_0 zero dst = some dst
end_with_0 (suc n) [] = none
end_with_0 (suc zero) (d ∷ dst) = some (0 ∷ dst)
end_with_0 (suc (suc n)) (d ∷ dst) = behind d (end_with_0 (suc n) dst)

unfoldable pub end_units : (room : ℕ) → Option (List ℕ) → Option (List ℕ)
unfolding end_with_0
end_units room none = none
end_units room (some dst) = end_with_0 room dst

-- utf8_to_utf16, into a destination with `siz` bytes; `none` where it writes behind the end of the array.
unfoldable pub utf8_to_utf16 : (src dst : List ℕ) (siz : ℕ) → Option (List ℕ)
unfolding end_units
utf8_to_utf16 src dst siz = end_units (siz / 2) (overwrite (decode (siz / 2) src) dst)
