-- ===== src/Fuseop/Access/Masks.antt =====
-- The masks of FusePosixMapPermissionToAccessMask of src/shared/km/fuseop.c and their bits.
use winfuse.Base.{
  ℕ, zero, suc, ◌+◌, ◌/◌, ◌^◌, ◌<◌, ◌≡◌, refl, sym, ◌∙◌, inl, inr, ap, bit_and, bit_or, Bool, true,
  false, ◌&&◌, ◌||◌, not, ◌∷◌, [], ◌==◌, if◌then◌else◌, contains, eq_of_==, ne_of_==, arith,
  Bool-cases,
}
use winfuse.Base.Bits.{has_bit, has_bit-bit_and, bit_and_double, bit_and_odd, bit_and_power}
use winfuse.Fuseop.Right
use winfuse.Fuseop.Access.{map_permission_to_access_mask, default_perm, owner_default_perm}

-- The bits of the rights that a user has by a mode, where `owner`, `children`, `r`, `w` and `x` tell
-- whether the user is the owner, may delete what is in the directory, and has the permission bits.
unfoldable pub grants : Bool → Bool → Bool → Bool → Bool → ℕ → Bool
grants owner children r w x i =
    contains i (3 ∷ 7 ∷ 17 ∷ 20 ∷ [])
    || (owner && contains i (4 ∷ 8 ∷ 16 ∷ 18 ∷ 19 ∷ [])
        || (r && i == 0
            || (w && (contains i (1 ∷ 2 ∷ 8 ∷ []) || children && i == 6) || x && i == 5)))

-- The mask of FusePosixMapPermissionToAccessMask, where the tests are decided.
abbrev pub mask : Bool → Bool → Bool → Bool → ℕ
mask children r w x =
    let delete_child = if children then Right.delete_child else 0 in
    bit_or (if not r then 0 else Right.read_data) (
      bit_or
        (if not w
          then 0
          else bit_or Right.write_attributes
              (bit_or Right.write_data (bit_or Right.append_data delete_child)))
        (if not x then 0 else Right.execute))

abbrev pub all_below : ℕ → (ℕ → Bool) → Bool
all_below zero p = true
all_below (suc n) p = p n && all_below n p

pub all_below-at : (n : ℕ) (p : ℕ → Bool) → all_below n p ≡ true → (i : ℕ) → i < n → p i ≡ true
all_below-at zero p h i k = absurd (omega arith)
all_below-at (suc n) p h i k = elim (Bool-cases (i == n)) [
  | inl e ↦ let same : i ≡ n = eq_of_== i n e in rw same (ground arith)
  | inr e ↦ all_below-at n p (ground arith) i (ground (arith, ne_of_== i n e))
]

abbrev both : (Bool → Bool) → Bool
both p = p true && p false

both-at : (p : Bool → Bool) → both p ≡ true → (b : Bool) → p b ≡ true
both-at p h true = ground arith
both-at p h false = ground arith

abbrev same : Bool → Bool → Bool
same true b = b
same false b = not b

same-eq : (a b : Bool) → same a b ≡ true → a ≡ b
same-eq true b h = sym h
same-eq false true h = h
same-eq false false h = refl

abbrev pub base : Bool → ℕ
base owner = if owner then owner_default_perm else default_perm

abbrev agree : Bool → Bool → Bool → Bool → Bool → ℕ → Bool
agree o d r w x i = same (has_bit (bit_or (base o) (mask d r w x)) i) (grants o d r w x i)

abbrev all_x : Bool → Bool → Bool → Bool → Bool → Bool
all_x o d r w x = all_below 21 (agree o d r w x)

abbrev all_w : Bool → Bool → Bool → Bool → Bool
all_w o d r w = both (all_x o d r w)

abbrev all_r : Bool → Bool → Bool → Bool
all_r o d r = both (all_w o d r)

abbrev all_d : Bool → Bool → Bool
all_d o d = both (all_r o d)

abbrev all_o : Bool → Bool
all_o o = both (all_d o)

-- The masks have the bits of the rights.
all_masks : both all_o ≡ true
unfolding grants contains
all_masks = refl

pub has_bit-mask :
    (o d r w x : Bool) (i : ℕ)
    → i < 21
    → has_bit (bit_or (base o) (mask d r w x)) i ≡ grants o d r w x i
has_bit-mask o d r w x i k =
    let each_o = both-at all_o all_masks o in
    let each_d = both-at (all_d o) each_o d in
    let each_r = both-at (all_r o d) each_d r in
    let each_w = both-at (all_w o d r) each_r w in
    let each_x = both-at (all_x o d r w) each_w x in
    same-eq _ _ (all_below-at 21 (agree o d r w x) each_x i k)

-- The tests of the permission bits.
test_two : (n : ℕ) → (bit_and n 4 == 0) ≡ not (has_bit n 2)
test_two n = elim (Bool-cases (has_bit n 2)) [
  | inl e ↦ ground (arith, bit_and_power 2 n, e)
  | inr e ↦ ground (arith, bit_and_power 2 n, e)
]

test_one : (n : ℕ) → (bit_and n 2 == 0) ≡ not (has_bit n 1)
test_one n = elim (Bool-cases (has_bit n 1)) [
  | inl e ↦ ground (arith, bit_and_power 1 n, e)
  | inr e ↦ ground (arith, bit_and_power 1 n, e)
]

test_zero : (n : ℕ) → (bit_and n 1 == 0) ≡ not (has_bit n 0)
test_zero n = ground (arith, bit_and_power 0 n)

test_children :
    (mode : ℕ) → (bit_and mode 0o41000 == 0o40000) ≡ has_bit mode 14 && not (has_bit mode 9)
test_children mode = ground (
  arith,
  bit_and_double mode 8448,
  bit_and_double (mode / 2) 4224,
  bit_and_double (mode / 2 / 2) 2112,
  bit_and_double (mode / 2 / 2 / 2) 1056,
  bit_and_double (mode / 2 / 2 / 2 / 2) 528,
  bit_and_double (mode / 2 / 2 / 2 / 2 / 2) 264,
  bit_and_double (mode / 2 / 2 / 2 / 2 / 2 / 2) 132,
  bit_and_double (mode / 2 / 2 / 2 / 2 / 2 / 2 / 2) 66,
  bit_and_double (mode / 2 / 2 / 2 / 2 / 2 / 2 / 2 / 2) 33,
  bit_and_odd (mode / 2 / 2 / 2 / 2 / 2 / 2 / 2 / 2 / 2) 16,
  bit_and_power 4 (mode / 2 / 2 / 2 / 2 / 2 / 2 / 2 / 2 / 2 / 2),
)

pub map_permission-mask :
    (mode perm : ℕ)
    → map_permission_to_access_mask mode perm
      ≡ mask
          (has_bit mode 14 && not (has_bit mode 9))
          (has_bit perm 2)
          (has_bit perm 1)
          (has_bit perm 0)
unfolding map_permission_to_access_mask
map_permission-mask mode perm =
    rw (test_children mode, test_two perm, test_one perm, test_zero perm) refl

-- The bits that a mask keeps, and those of a field that is shifted down.
pub kept : (n m i : ℕ) → has_bit m i ≡ true → has_bit (bit_and n m) i ≡ has_bit n i
kept n m i h = ground (arith, has_bit-bit_and n m i, h)

has_bit-six : (n i : ℕ) → has_bit (n / 2 ^ 6) i ≡ has_bit n (suc (suc (suc (suc (suc (suc i))))))
has_bit-six n i =
    let halves : n / 2 ^ 6 ≡ n / 2 / 2 / 2 / 2 / 2 / 2 = omega arith in ap (λ m. has_bit m i) halves

has_bit-three : (n i : ℕ) → has_bit (n / 2 ^ 3) i ≡ has_bit n (suc (suc (suc i)))
has_bit-three n i =
    let halves : n / 2 ^ 3 ≡ n / 2 / 2 / 2 = omega arith in ap (λ m. has_bit m i) halves

pub owner_field :
    (mode i : ℕ) → i < 3 → has_bit (bit_and mode 0o700 / 2 ^ 6) i ≡ has_bit mode (6 + i)
owner_field mode zero h = has_bit-six (bit_and mode 0o700) 0 ∙ kept mode 0o700 6 refl
owner_field mode (suc zero) h = has_bit-six (bit_and mode 0o700) 1 ∙ kept mode 0o700 7 refl
owner_field mode (suc (suc zero)) h = has_bit-six (bit_and mode 0o700) 2 ∙ kept mode 0o700 8 refl
owner_field mode (suc (suc (suc i))) h = absurd (omega arith)

pub group_field :
    (mode i : ℕ) → i < 3 → has_bit (bit_and mode 0o070 / 2 ^ 3) i ≡ has_bit mode (3 + i)
group_field mode zero h = has_bit-three (bit_and mode 0o070) 0 ∙ kept mode 0o070 3 refl
group_field mode (suc zero) h = has_bit-three (bit_and mode 0o070) 1 ∙ kept mode 0o070 4 refl
group_field mode (suc (suc zero)) h = has_bit-three (bit_and mode 0o070) 2 ∙ kept mode 0o070 5 refl
group_field mode (suc (suc (suc i))) h = absurd (omega arith)

-- Of ~001000, bit 9 is clear.
pub not_sticky :
    (mode : ℕ)
    → has_bit (bit_and mode 0xffff_fdff) 14 && not (has_bit (bit_and mode 0xffff_fdff) 9)
      ≡ has_bit mode 14 && true
not_sticky mode =
    let cleared : has_bit (bit_and mode 0xffff_fdff) 9 ≡ has_bit mode 9 && false =
      has_bit-bit_and mode 0xffff_fdff 9 in
    ground (arith, kept mode 0xffff_fdff 14 refl, cleared)

pub mask-congr :
    {d e r s w v x y : Bool} (b : ℕ)
    → d ≡ e
    → r ≡ s
    → w ≡ v
    → x ≡ y
    → bit_or b (mask d r w x) ≡ bit_or b (mask e s v y)
mask-congr b p q t u = λ i. bit_or b (mask (p i) (q i) (t i) (u i))
