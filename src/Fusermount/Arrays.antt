-- ===== src/Fusermount/Arrays.antt =====
-- The arrays that the texts of src/fusermount/fusermount.c are written into.
use winfuse.Base.{
  ℕ, zero, suc, ◌/◌, ◌<◌, ◌≤◌, ◌≡◌, ◌∙◌, refl, ap, arith, Bool, true, false, Option, none, some,
  List, [], ◌∷◌, if◌then◌else◌, length,
}
use winfuse.Fusermount.Utf.{
  decode_one, decode, behind, overwrite, end_with_0, end_units, utf8_to_utf16,
}

-- There is a result, of which `P` holds.
abbrev pub Holds : {A : Type 0} (P : A → Type 0) → Option A → Type 0
Holds P none = ⊥
Holds P (some x) = P x

pub if-Holds :
    {A : Type 0} (P : A → Type 0) (b : Bool) (x y : Option A)
    → Holds P x
    → Holds P y
    → Holds P (if b then x else y)
if-Holds P true x y h j = h
if-Holds P false x y h j = j

Holds-behind :
    (P Q : List ℕ → Type 0) (u : ℕ) (o : Option (List ℕ))
    → Holds P o
    → ((t : List ℕ) → P t → Q (u ∷ t))
    → Holds Q (behind u o)
Holds-behind P Q u none h g = absurd h
Holds-behind P Q u (some t) h g = g t h

abbrev pub last : List ℕ → ℕ
last [] = 0
last (x ∷ []) = x
last (x ∷ y ∷ xs) = last (y ∷ xs)

-- An array with `n` elements, of which the last is 0.
pub record IsArray (n : ℕ) (xs : List ℕ) : Type 0 where
  pub sized : length xs ≡ n
  pub ended : last xs ≡ 0

pub last-cons : (x : ℕ) (xs : List ℕ) → 0 < length xs → last (x ∷ xs) ≡ last xs
last-cons x [] h = absurd (omega (arith, h))
last-cons x (y ∷ xs) h = refl

-- Whatever the text is, well-formed or not, no more units are written than there is room for.
length-decode : (room : ℕ) (src : List ℕ) → length (decode room src) ≤ room
unfolding decode
length-decode zero src = omega arith
length-decode (suc n) src = ground (arith, length-decode n (decode_one src).src)

length-overwrite :
    (n : ℕ) (units dst : List ℕ)
    → length dst ≡ n
    → length units ≤ n
    → Holds (λ t. length t ≡ n) (overwrite units dst)
unfolding overwrite
length-overwrite n [] dst h j = h
length-overwrite n (u ∷ units) [] h j = absurd (omega (arith, h, j))
length-overwrite n (u ∷ units) (d ∷ dst) h j =
    Holds-behind (λ t. length t ≡ length dst) (λ t. length t ≡ n) u (overwrite units dst)
      (length-overwrite (length dst) units dst refl (omega (arith, h, j)))
      (λ t e. omega (arith, e, h))

pub end_with_0-IsArray :
    (n : ℕ) (dst : List ℕ) → length dst ≡ n → Holds (IsArray n) (end_with_0 n dst)
unfolding end_with_0
end_with_0-IsArray zero [] h = record { sized = refl; ended = refl }
end_with_0-IsArray zero (d ∷ dst) h = absurd (omega (arith, h))
end_with_0-IsArray (suc n) [] h = absurd (omega (arith, h))
end_with_0-IsArray (suc zero) (d ∷ dst) h = record {
  sized = h;
  ended = last-0 dst (omega (arith, h));
}
  where
    last-0 : (dst : List ℕ) → length dst ≡ 0 → last (0 ∷ dst) ≡ 0
    last-0 [] e = refl
    last-0 (d ∷ dst) e = absurd (omega (arith, e))
end_with_0-IsArray (suc (suc n)) (d ∷ dst) h =
    Holds-behind (IsArray (suc n)) (IsArray (suc (suc n))) d (end_with_0 (suc n) dst)
      (end_with_0-IsArray (suc n) dst (omega (arith, h)))
      (λ t a. record {
        sized = ap suc a.sized;
        ended = last-cons d t (omega (arith, a.sized)) ∙ a.ended;
      })

end_units-IsArray :
    (n : ℕ) (o : Option (List ℕ)) → Holds (λ t. length t ≡ n) o → Holds (IsArray n) (end_units n o)
unfolding end_units
end_units-IsArray n none h = absurd h
end_units-IsArray n (some dst) h = end_with_0-IsArray n dst h

-- With the size of the destination, nothing is written behind its end, and it ends with a 0.
pub utf8_to_utf16-IsArray :
    (n siz : ℕ) (src dst : List ℕ)
    → length dst ≡ n
    → siz / 2 ≡ n
    → Holds (IsArray n) (utf8_to_utf16 src dst siz)
unfolding utf8_to_utf16
utf8_to_utf16-IsArray n siz src dst h room =
    rw room (end_units-IsArray n _ (length-overwrite n (decode n src) dst h (length-decode n src)))
