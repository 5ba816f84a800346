-- ===== src/Fusermount/Escaped.antt =====
-- Options that are escaped are read back by opt_parse_arg of src/fusermount/fusermount.c.
use winfuse.Base.{
  ℕ, zero, suc, ◌+◌, ◌-◌, ◌<◌, ◌≤◌, ◌≡◌, ◌∙◌, refl, sym, ap, arith, inl, inr, false, ◌||◌, none,
  some, List, [], ◌∷◌, ◌++◌, ◌==◌, if◌then◌else◌, is_empty, length, length-append, Bool-cases,
}
use mathlib.Core.List.{append_assoc, append-nil}
use winfuse.Fusermount.{push, copy_option, opt_parse_arg, parse_rounds, parse_options}

-- A backslash before each comma and backslash.
unfoldable pub escape : List ℕ → List ℕ
escape [] = []
escape (c ∷ o) = if c == b',' || c == b'\\' then b'\\' ∷ c ∷ escape o else c ∷ escape o

-- Options that end with a comma each.
unfoldable pub print : List (List ℕ) → List ℕ
unfolding escape
print [] = []
print (o ∷ os) = escape o ++ b',' ∷ print os

-- The options are shorter than the buffer.
abbrev pub Fit : ℕ → List (List ℕ) → Type 0
Fit siz [] = Unit
Fit siz (o ∷ os) = (length o < siz) × Fit siz os

copy-special :
    (n c : ℕ) (q : List ℕ) → copy_option (suc n) (b'\\' ∷ c ∷ q) ≡ push c (copy_option n q)
unfolding copy_option
copy-special n c q = refl

copy-plain :
    (n c : ℕ) (q : List ℕ)
    → (c == b',' || c == b'\\') ≡ false
    → copy_option (suc n) (c ∷ q) ≡ push c (copy_option n q)
unfolding copy_option
copy-plain n c [] e = let no_comma : (c == b',') ≡ false = ground (arith, e) in rw no_comma refl
copy-plain n c (x ∷ q) e =
    let no_comma : (c == b',') ≡ false = ground (arith, e) in
    let no_backslash : (c == b'\\') ≡ false = ground (arith, e) in rw (no_comma, no_backslash) refl

-- Where the text after an option stops the loop, the option is copied whole.
copy-escape :
    (o rest : List ℕ) (room k : ℕ)
    → room ≡ length o + suc k
    → copy_option (suc k) rest ≡ ([], rest, suc k)
    → copy_option room (escape o ++ rest) ≡ (o, rest, suc k)
unfolding escape
copy-escape [] rest room k e stop = let same : room ≡ suc k = omega (arith, e) in rw same stop
copy-escape (c ∷ o) rest zero k e stop = absurd (omega (arith, e))
copy-escape (c ∷ o) rest (suc n) k e stop =
    let ih = copy-escape o rest n k (omega (arith, e)) stop in
    elim (Bool-cases (c == b',' || c == b'\\')) [
      | inl special ↦ rw special (copy-special n c (escape o ++ rest) ∙ ap (push c) ih)
      | inr plain ↦ rw plain (copy-plain n c (escape o ++ rest) plain ∙ ap (push c) ih)
    ]

-- An option and a comma are one round.
parse-option :
    (siz : ℕ) (o rest : List ℕ)
    → length o < siz
    → opt_parse_arg siz (escape o ++ b',' ∷ rest) ≡ some (o, rest)
unfolding opt_parse_arg
parse-option siz o rest h =
    let c =
      copy-escape o (b',' ∷ rest) siz (siz - length o - 1) (omega (arith, h))
        (unfold copy_option in refl) in
    rw c (ground arith)

parse-last :
    (siz : ℕ) (o : List ℕ)
    → length o < siz
    → opt_parse_arg siz (escape o) ≡ (if is_empty o then none else some (o, []))
unfolding opt_parse_arg
parse-last siz o h =
    let c =
      copy-escape o [] siz (siz - length o - 1) (omega (arith, h)) (unfold copy_option in refl) in
    let d = ap (copy_option siz) (sym (append-nil (escape o))) ∙ c in rw d (ground arith)

rounds-empty : (fuel siz : ℕ) → 0 < siz → parse_rounds fuel siz [] ≡ []
unfolding parse_rounds
rounds-empty zero siz h = refl
rounds-empty (suc fuel) siz h =
    let p : opt_parse_arg siz [] ≡ none = unfold escape in parse-last siz [] h in rw p refl

print-rounds :
    (fuel siz : ℕ) (os : List (List ℕ)) (o : List ℕ)
    → Fit siz os
    → length o < siz
    → length os + (if is_empty o then 0 else 1) ≤ fuel
    → parse_rounds fuel siz (print os ++ escape o) ≡ os ++ (if is_empty o then [] else o ∷ [])
unfolding parse_rounds print
print-rounds zero siz [] o fit h enough = ground (arith, enough)
print-rounds zero siz (p ∷ os) o fit h enough = absurd (omega (arith, enough))
print-rounds (suc fuel) siz [] o fit h enough = elim (Bool-cases (is_empty o)) [
  | inl e ↦
      let p : opt_parse_arg siz (escape o) ≡ none = parse-last siz o h ∙ (rw e refl) in
      rw (p, e) refl
  | inr e ↦
      let p : opt_parse_arg siz (escape o) ≡ some (o, []) = parse-last siz o h ∙ (rw e refl) in
      rw (p, e) (ap (λ r. o ∷ r) (rounds-empty fuel siz (omega (arith, h))))
]
print-rounds (suc fuel) siz (p ∷ os) o fit h enough =
    let text = append_assoc (escape p) (b',' ∷ print os) (escape o) in
    let one : opt_parse_arg siz ((escape p ++ b',' ∷ print os) ++ escape o)
        ≡ some (p, print os ++ escape o) =
      ap (opt_parse_arg siz) text ∙ parse-option siz p (print os ++ escape o) fit.0 in
    rw one (ap (λ r. p ∷ r) (print-rounds fuel siz os o fit.1 h (omega (arith, enough))))

length-print : (os : List (List ℕ)) → length os ≤ length (print os)
unfolding print
length-print [] = omega arith
length-print (o ∷ os) = omega (arith, length-append (escape o) (b',' ∷ print os), length-print os)

length-escape : (o : List ℕ) → length o ≤ length (escape o)
unfolding escape
length-escape [] = omega arith
length-escape (c ∷ o) = ground (arith, length-escape o)

is_empty-length : (o : List ℕ) → (if is_empty o then 0 else 1) ≤ length o
is_empty-length [] = omega arith
is_empty-length (c ∷ o) = omega arith

-- Options of any bytes, each shorter than the buffer, with a backslash before each comma and backslash
-- of theirs and a comma between them, are read back one by one, empty ones too, but for an empty one
-- at the end.
pub parse_options-print :
    (siz : ℕ) (os : List (List ℕ)) (o : List ℕ)
    → Fit siz os
    → length o < siz
    → parse_options siz (print os ++ escape o) ≡ os ++ (if is_empty o then [] else o ∷ [])
unfolding parse_options
parse_options-print siz os o fit h =
    print-rounds (suc (length (print os ++ escape o))) siz os o fit h (
      ground (
        arith,
        length-append (print os) (escape o),
        length-print os,
        length-escape o,
        is_empty-length o,
      ))
