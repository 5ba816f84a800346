-- ===== src/Fuseop/Access/Rights.antt =====
-- The rights that FuseAccessCheck of src/shared/km/fuseop.c grants, bit by bit.
use winfuse.Base.{
  ℕ_discrete, ◌≢◌, dec_lt, ℕ, ◌+◌, ◌≤◌, ◌<◌, ◌≡◌, ◌↔◌, refl, sym, ◌∙◌, inl, inr, ap, bit_and,
  bit_or, Bool, true, false, ◌&&◌, ◌||◌, not, ◌==◌, if◌then◌else◌, eq_of_==, ne_of_==, arith,
  Bool-cases,
}
use winfuse.Base.Bits.{has_bit, has_bit-bit_and, has_bit_beyond, bit_and_power, mask-bits}
use winfuse.Fuseop.Right
use winfuse.Status.{nt_success, status_success, status_access_denied}
use winfuse.Fuseop.Access.{file_access, access_check, all_rights, default_perm, owner_default_perm}
use winfuse.Fuseop.Access.Masks.{
  grants, mask, all_below, all_below-at, base, has_bit-mask, map_permission-mask, kept, owner_field,
  group_field, not_sticky, mask-congr,
}

-- The class of the user, as the place of its permission bits.
class_shift : Bool → Bool → ℕ
class_shift owner in_group = if owner then 6 else if in_group then 3 else 0

abbrev may_delete_children : Bool → ℕ → Bool
may_delete_children owner mode = has_bit mode 14 && (owner || not (has_bit mode 9))

file_access-mask :
    (file_uid file_gid mode uid gid : ℕ)
    → let owner = uid == file_uid in
      let place = class_shift owner (gid == file_gid) in
      file_access file_uid file_gid mode uid gid
      ≡ bit_or (base owner) (
          mask
            (may_delete_children owner mode)
            (has_bit mode (place + 2))
            (has_bit mode (place + 1))
            (has_bit mode place))
unfolding file_access class_shift
file_access-mask file_uid file_gid mode uid gid = elim (Bool-cases (uid == file_uid)) [
  | inl e ↦
      rw (e, map_permission-mask)
        (mask-congr owner_default_perm (not_sticky mode) (owner_field mode 2 (omega arith))
          (owner_field mode 1 (omega arith)) (owner_field mode 0 (omega arith)))
  | inr e ↦ elim (Bool-cases (gid == file_gid)) [
    | inl f ↦
        rw (e, f, map_permission-mask)
          (mask-congr default_perm refl (group_field mode 2 (omega arith))
            (group_field mode 1 (omega arith)) (group_field mode 0 (omega arith)))
    | inr f ↦
        rw (e, f, map_permission-mask)
          (mask-congr default_perm refl (kept mode 0o007 2 refl) (kept mode 0o007 1 refl)
            (kept mode 0o007 0 refl))
  ]
]

-- The rights of a user by the owner, the group and the mode of a file.
pub has_right : ℕ → ℕ → ℕ → ℕ → ℕ → ℕ → Bool
unfolding grants class_shift
has_right file_uid file_gid mode uid gid i =
    let owner = uid == file_uid in
    let place = class_shift owner (gid == file_gid) in
    grants owner (may_delete_children owner mode) (has_bit mode (place + 2))
      (has_bit mode (place + 1)) (has_bit mode place) i

has_bit-file_access :
    (file_uid file_gid mode uid gid i : ℕ)
    → i < 21
    → has_bit (file_access file_uid file_gid mode uid gid) i
      ≡ has_right file_uid file_gid mode uid gid i
unfolding has_right
has_bit-file_access file_uid file_gid mode uid gid i k =
    rw (file_access-mask file_uid file_gid mode uid gid) (has_bit-mask _ _ _ _ _ i k)

-- The rights that are asked for are the 21 of files.
all_rights_below : all_below 21 (has_bit all_rights) ≡ true
all_rights_below = refl

required_below :
    (desired i : ℕ) → i < 21 → has_bit (bit_and desired all_rights) i ≡ has_bit desired i
required_below desired i k =
    kept desired all_rights i (all_below-at 21 (has_bit all_rights) all_rights_below i k)

required_beyond : (desired i : ℕ) → 21 ≤ i → has_bit (bit_and desired all_rights) i ≡ false
required_beyond desired i k =
    let clear = has_bit_beyond 21 all_rights i (omega arith) k in
    ground (arith, has_bit-bit_and desired all_rights i, clear)

-- What FuseAccessCheck returns for a user who has the rights `has`.
pub record Checks (desired : ℕ) (has : ℕ → Bool) (r : ℕ × ℕ) : Type 0 where
  pub passes : (r.0 ≡ status_success) ↔ ((i : ℕ) → i < 21 → has_bit desired i ≡ true → has i ≡ true)
  pub fails : r.0 ≢ status_success → (r.0 ≡ status_access_denied) × (r.1 ≡ 0)
  pub exact :
      r.0 ≡ status_success
      → has_bit desired 25 ≡ false
      → (i : ℕ) → i < 21
      → has_bit r.1 i ≡ has_bit desired i
  pub maximum :
      r.0 ≡ status_success → has_bit desired 25 ≡ true → (i : ℕ) → i < 21 → has_bit r.1 i ≡ has i
  pub within : (i : ℕ) → i < 21 → has_bit r.1 i ≡ true → has i ≡ true

module _ (file_uid file_gid mode uid gid desired : ℕ) where
  access : ℕ
  access = file_access file_uid file_gid mode uid gid

  has : ℕ → Bool
  has = has_right file_uid file_gid mode uid gid

  -- The test of the masks compares the rights one by one.
  required-has :
      (bit_and desired all_rights ≡ bit_and access (bit_and desired all_rights))
      ↔ ((i : ℕ) → i < 21 → has_bit desired i ≡ true → has i ≡ true)
  unfolding access has
  required-has =
      let required = bit_and desired all_rights in
      let bits = mask-bits access required in
      (
        λ e i k h.
            sym (has_bit-file_access file_uid file_gid mode uid gid i k)
            ∙ bits.0 (sym e) i (required_below desired i k ∙ h),
        λ f. sym (
            bits.1 (λ i h. elim (dec_lt i 21) [
              | yes k ↦
                  has_bit-file_access file_uid file_gid mode uid gid i k
                  ∙ f i k (sym (required_below desired i k) ∙ h)
              | no k ↦ absurd (ground (arith, required_beyond desired i (omega arith), h))
            ])),
      )

  maximum_asked : (bit_and desired Right.maximum_allowed == 0) ≡ not (has_bit desired 25)
  maximum_asked = elim (Bool-cases (has_bit desired 25)) [
    | inl e ↦ ground (arith, bit_and_power 25 desired, e)
    | inr e ↦ ground (arith, bit_and_power 25 desired, e)
  ]

  allowed-Checks :
      bit_and desired all_rights ≡ bit_and access (bit_and desired all_rights)
      → Checks desired has (
        status_success,
        if bit_and desired Right.maximum_allowed == 0 then bit_and desired all_rights else access,
      )
  unfolding access has
  allowed-Checks e =
      let allowed = required-has.0 e in
      elim (Bool-cases (has_bit desired 25)) [
        | inl m ↦
            let all : (bit_and desired Right.maximum_allowed == 0) ≡ false =
              maximum_asked ∙ ap not m in
            rw all (record {
              passes = (λ _. allowed, λ _. refl);
              fails = λ n. absurd (n refl);
              exact = λ _ h. absurd (ground (arith, m, h));
              maximum = λ _ _ i k. has_bit-file_access file_uid file_gid mode uid gid i k;
              within = λ i k h. sym (has_bit-file_access file_uid file_gid mode uid gid i k) ∙ h;
            })
        | inr m ↦
            let some_rights : (bit_and desired Right.maximum_allowed == 0) ≡ true =
              maximum_asked ∙ ap not m in
            rw some_rights (record {
              passes = (λ _. allowed, λ _. refl);
              fails = λ n. absurd (n refl);
              exact = λ _ _ i k. required_below desired i k;
              maximum = λ _ h. absurd (ground (arith, m, h));
              within = λ i k h. allowed i k (sym (required_below desired i k) ∙ h);
            })
      ]

  denied-Checks :
      bit_and desired all_rights ≢ bit_and access (bit_and desired all_rights)
      → Checks desired has (status_access_denied, 0)
  denied-Checks n = record {
    passes = (λ e. absurd (omega arith), λ h. absurd (n (required-has.1 h)));
    fails = λ _. (refl, refl);
    exact = λ e. absurd (omega arith);
    maximum = λ e. absurd (omega arith);
    within = λ i k h. absurd (ground (arith, has_bit_beyond 0 0 i (omega arith) (omega arith), h));
  }

-- FuseAccessCheck, for any owner, group and mode of a file and any user, succeeds exactly where the
-- user has each right of files that is asked for, where the owner has those of the owner's permission
-- bits and the default rights of owners, a member of the group those of the group's bits, and any
-- other user those of the others', each with the default rights, and to delete in a directory takes
-- the permission to write it and, where it is sticky, its owner. Else it denies the access, and
-- grants nothing. It grants what was asked for, or all rights that the user has where MAXIMUM_ALLOWED
-- was asked for, and never more than the user has.
pub access_check-Checks :
    (file_uid file_gid mode uid gid desired : ℕ)
    → Checks desired
        (has_right file_uid file_gid mode uid gid)
        (access_check file_uid file_gid mode uid gid desired)
unfolding access_check has access
access_check-Checks file_uid file_gid mode uid gid desired =
    let access = file_access file_uid file_gid mode uid gid in
    let required = bit_and desired all_rights in
    elim (Bool-cases (required == bit_and access required)) [
      | inl e ↦ rw e (allowed-Checks file_uid file_gid mode uid gid desired (eq_of_== _ _ e))
      | inr e ↦ rw e (denied-Checks file_uid file_gid mode uid gid desired (ne_of_== _ _ e))
    ]

-- A status that is a success is STATUS_SUCCESS.
pub access_check_success :
    (file_uid file_gid mode uid gid desired : ℕ)
    → let r = access_check file_uid file_gid mode uid gid desired in
      nt_success r.0 ≡ true → r ≡ (status_success, r.1)
access_check_success file_uid file_gid mode uid gid desired ok =
    let r = access_check file_uid file_gid mode uid gid desired in
    elim (ℕ_discrete r.0 status_success) [
      | yes e ↦ λ i. (e i, r.1)
      | no n ↦
          let denied = (access_check-Checks file_uid file_gid mode uid gid desired).fails n in
          absurd (ground (arith, denied.0, ok))
    ]
