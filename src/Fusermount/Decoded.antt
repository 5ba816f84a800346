-- ===== src/Fusermount/Decoded.antt =====
-- What utf8_to_utf16 of src/fusermount/fusermount.c makes of well-formed UTF-8.
use winfuse.Base.{
  ℕ, zero, suc, ◌+◌, ◌*◌, ◌/◌, ◌%◌, ◌<◌, ◌≤◌, ◌≡◌, ◌∙◌, refl, ap, arith, inl, inr, true, false, sym,
  Option, none, some, List, [], ◌∷◌, ◌++◌, ◌==◌, ltb, if◌then◌else◌, length, Bool-cases,
}
use mathlib.Core.Option.{some-injective}
use winfuse.Wslfuse.Io.{take}
use winfuse.Fusermount.Arrays.{Holds, IsArray, end_with_0-IsArray}
use winfuse.Fusermount.Utf.{
  Step, decode_one, decode, behind, overwrite, end_with_0, end_units, utf8_to_utf16,
}

-- The UTF-8 of a character of the first plane, and of a text of such.
unfoldable pub encode : ℕ → List ℕ
encode c =
    if ltb c 0x80
    then c ∷ []
    else if ltb c 0x800
    then (0xc0 + c / 64) ∷ (0x80 + c % 64) ∷ []
    else (0xe0 + c / 4096) ∷ (0x80 + c / 64 % 64) ∷ (0x80 + c % 64) ∷ []

unfoldable pub encode_all : List ℕ → List ℕ
encode_all [] = []
encode_all (c ∷ cs) = encode c ++ encode_all cs

-- Characters of the first plane other than 0.
abbrev pub InPlane : List ℕ → Type 0
InPlane [] = Unit
InPlane (c ∷ cs) = (0 < c) × (c < 0x1_0000) × InPlane cs

abbrev character : List ℕ → ℕ → Step
character src c = record { c = c; w = c; src = src }

decode-two :
    (a b : ℕ) (src : List ℕ)
    → 0xc0 ≤ a
    → a < 0xe0
    → b / 128 % 2 ≡ 1
    → decode_one (a ∷ b ∷ src) ≡ character src (a % 32 * 64 + b % 64)
unfolding decode_one
decode-two a b src h j k =
    let not_ascii : ltb a 0x80 ≡ false = ground (arith, h) in
    let no_continuation : ltb a 0xc0 ≡ false = ground (arith, h) in
    let two : ltb a 0xe0 ≡ true = ground (arith, j) in rw (not_ascii, no_continuation, two, k) refl

decode-three :
    (a b d : ℕ) (src : List ℕ)
    → 0xe0 ≤ a
    → a < 0xf0
    → b / 128 % 2 ≡ 1
    → d / 128 % 2 ≡ 1
    → decode_one (a ∷ b ∷ d ∷ src) ≡ character src (a % 16 * 4096 + b % 64 * 64 + d % 64)
unfolding decode_one
decode-three a b d src h j k l =
    let not_ascii : ltb a 0x80 ≡ false = ground (arith, h) in
    let no_continuation : ltb a 0xc0 ≡ false = ground (arith, h) in
    let not_two : ltb a 0xe0 ≡ false = ground (arith, h) in
    let three : ltb a 0xf0 ≡ true = ground (arith, j) in
    rw (not_ascii, no_continuation, not_two, three, k, l) refl

decode-encode :
    (c : ℕ) (rest : List ℕ) → c < 0x1_0000 → decode_one (encode c ++ rest) ≡ character rest c
unfolding encode
decode-encode c rest h = elim (Bool-cases (ltb c 0x80)) [
  | inl e ↦ rw e (unfold decode_one in rw e refl)
  | inr e ↦ elim (Bool-cases (ltb c 0x800)) [
    | inl f ↦
        rw (e, f)
          (decode-two (0xc0 + c / 64) (0x80 + c % 64) rest (omega arith) (ground (arith, f))
              (omega arith)
            ∙ ap (character rest) (ground (arith, f)))
    | inr f ↦
        rw (e, f)
          (decode-three (0xe0 + c / 4096) (0x80 + c / 64 % 64) (0x80 + c % 64) rest (omega arith)
              (omega (arith, h)) (omega arith) (omega arith)
            ∙ ap (character rest) (omega (arith, h)))
  ]
]

-- The text and its 0, where there is room for them.
decode-encode_all :
    (cs : List ℕ) (room : ℕ)
    → InPlane cs
    → length cs < room
    → decode room (encode_all cs) ≡ cs ++ 0 ∷ []
unfolding decode encode_all
decode-encode_all cs zero p h = absurd (omega (arith, h))
decode-encode_all [] (suc n) p h = unfold decode_one in refl
decode-encode_all (c ∷ cs) (suc n) p h =
    let one = decode-encode c (encode_all cs) p.1 in
    let more : (c == 0) ≡ false = ground (arith, p.0) in
    rw (one, more) (ap (λ r. c ∷ r) (decode-encode_all cs n p.2 (omega (arith, h))))

-- The first units of an array, if there is one.
unfoldable pub first_units : ℕ → Option (List ℕ) → Option (List ℕ)
first_units n none = none
first_units n (some dst) = some (take n dst)

first_units-behind :
    (n c : ℕ) (o : Option (List ℕ)) (t : List ℕ)
    → first_units n o ≡ some t
    → first_units (suc n) (behind c o) ≡ some (c ∷ t)
unfolding first_units
first_units-behind n c none t h = absurd (cc h)
first_units-behind n c (some dst) t h = ap (λ r. some (c ∷ r)) (some-injective _ _ h)

first_units-one :
    (P : List ℕ → Type 0) (c : ℕ) (o : Option (List ℕ))
    → Holds P o
    → first_units 1 (behind c o) ≡ some (c ∷ [])
unfolding first_units
first_units-one P c none h = absurd h
first_units-one P c (some dst) h = refl

end_units-behind :
    (n u : ℕ) (o : Option (List ℕ))
    → end_units (suc (suc n)) (behind u o) ≡ behind u (end_units (suc n) o)
unfolding end_units
end_units-behind n u none = refl
end_units-behind n u (some dst) = unfold end_with_0 in refl

-- It fills the start of the destination, and the 0 at the end of that does not cut it.
filled :
    (cs dst : List ℕ)
    → length cs < length dst
    → first_units (suc (length cs)) (end_units (length dst) (overwrite (cs ++ 0 ∷ []) dst))
      ≡ some (cs ++ 0 ∷ [])
unfolding overwrite
filled cs [] h = absurd (omega (arith, h))
filled [] (d ∷ []) h = unfold first_units end_units end_with_0 in refl
filled [] (d ∷ e ∷ dst) h =
    ap (first_units 1) (end_units-behind (length dst) 0 (some (e ∷ dst)))
    ∙ first_units-one (IsArray (suc (length dst))) 0 _
        (unfold end_units in end_with_0-IsArray (suc (length dst)) (e ∷ dst) refl)
filled (c ∷ cs) (d ∷ []) h = absurd (omega (arith, h))
filled (c ∷ cs) (d ∷ e ∷ dst) h =
    ap (first_units (suc (suc (length cs)))) (end_units-behind (length dst) c _)
    ∙ first_units-behind (suc (length cs)) c _ _ (filled cs (e ∷ dst) (omega (arith, h)))

-- The UTF-8 of any text of characters of the first plane other than 0 is turned into its UTF-16, which
-- are these characters, with a 0 behind it, at the start of the destination, where that has more units
-- than there are characters; whatever it held before. Nothing is written behind its end.
pub utf8_to_utf16-encode :
    (cs dst : List ℕ) (siz : ℕ)
    → InPlane cs
    → length cs < length dst
    → length dst ≡ siz / 2
    → first_units (suc (length cs)) (utf8_to_utf16 (encode_all cs) dst siz) ≡ some (cs ++ 0 ∷ [])
unfolding utf8_to_utf16
utf8_to_utf16-encode cs dst siz p h room =
    ap (λ units. first_units (suc (length cs)) (end_units (siz / 2) (overwrite units dst)))
      (decode-encode_all cs (siz / 2) p (omega (arith, h, room)))
    ∙ ap (λ n. first_units (suc (length cs)) (end_units n (overwrite (cs ++ 0 ∷ []) dst)))
        (sym room)
    ∙ filled cs dst h
