-- ===== src/Fuseop/Ending.antt =====
-- The loops of src/shared/km/fuseop.c over the entries of a directory.
use winfuse.Base.{
  ℕ, zero, suc, ◌+◌, ◌≤◌, ◌≡◌, ◌∙◌, sym, refl, ap, inl, inr, arith, Bool, true, false, ◌||◌,
  if◌then◌else◌, ltb, Bool-cases,
}
use winfuse.Cache.{Rtl}
use winfuse.Path.{Memory}
use winfuse.Fuseop.{State}
use winfuse.Fuseop.Change.{namelen, align_up8, dirent_name, is_dot, only_dots}
use winfuse.Fuseop.Directory.{Buffer, read_directory_end, directory_round, directory_loop}

module _ (rtl : Rtl) (dir_info_size : ℕ) (b : Buffer) (m : Memory) (end_p : ℕ) where
  abbrev is_last : ℕ → Bool
  is_last p = ltb end_p (p + dirent_name) || ltb end_p (p + dirent_name + namelen m p)

  loop_last :
      (fuel p bytes : ℕ) (s : State)
      → is_last p ≡ true
      → directory_loop rtl dir_info_size fuel b m end_p p bytes s
        ≡ read_directory_end rtl dir_info_size b p bytes s
  unfolding directory_loop directory_round
  loop_last zero p bytes s e = refl
  loop_last (suc fuel) p bytes s e = rw e refl

  -- A round passes an entry, and is in the response.
  next_entry :
      (p fuel : ℕ)
      → is_last p ≡ false
      → end_p ≤ p + suc fuel
      → end_p ≤ p + align_up8 (dirent_name + namelen m p) + fuel
  next_entry p fuel e enough = omega (arith, enough)

  loop_enough :
      (n k p bytes : ℕ) (s : State)
      → end_p ≤ p + n
      → end_p ≤ p + k
      → directory_loop rtl dir_info_size n b m end_p p bytes s
        ≡ directory_loop rtl dir_info_size k b m end_p p bytes s
  unfolding directory_loop
  loop_enough zero k p bytes s h j = sym (loop_last k p bytes s (ground (arith, h)))
  loop_enough (suc n) zero p bytes s h j = loop_last (suc n) p bytes s (ground (arith, j))
  loop_enough (suc n) (suc k) p bytes s h j = elim (Bool-cases (is_last p)) [
    | inl e ↦ loop_last (suc n) p bytes s e ∙ sym (loop_last (suc k) p bytes s e)
    | inr e ↦
        ap (λ again. directory_round rtl dir_info_size again b m end_p p bytes s)
          (λ i more t.
            loop_enough n k (p + align_up8 (dirent_name + namelen m p)) more t (next_entry p n e h)
              (next_entry p k e j) i)
  ]

  dots_last : (fuel p : ℕ) → is_last p ≡ true → only_dots fuel m end_p p ≡ true
  unfolding only_dots
  dots_last zero p e = refl
  dots_last (suc fuel) p e = rw e refl

  dots_enough :
      (n k p : ℕ) → end_p ≤ p + n → end_p ≤ p + k → only_dots n m end_p p ≡ only_dots k m end_p p
  unfolding only_dots
  dots_enough zero k p h j = sym (dots_last k p (ground (arith, h)))
  dots_enough (suc n) zero p h j = dots_last (suc n) p (ground (arith, j))
  dots_enough (suc n) (suc k) p h j = elim (Bool-cases (is_last p)) [
    | inl e ↦ dots_last (suc n) p e ∙ sym (dots_last (suc k) p e)
    | inr e ↦
        ap (λ rest. if is_last p then true else if is_dot m p then rest else false)
          (dots_enough n k (p + align_up8 (dirent_name + namelen m p)) (next_entry p n e h)
            (next_entry p k e j))
  ]

  -- The loops of FuseOpQueryDirectory and of FuseOpSetInformation_SetDelete over the entries of
  -- a response end: from any byte of it on, more rounds than it has bytes change nothing.
  pub directory_loop-only_dots-Ends :
      (fuel p bytes : ℕ) (s : State)
      → end_p ≤ fuel
      → (directory_loop rtl dir_info_size fuel b m end_p p bytes s
          ≡ directory_loop rtl dir_info_size end_p b m end_p p bytes s)
        × (only_dots fuel m end_p p ≡ only_dots end_p m end_p p)
  directory_loop-only_dots-Ends fuel p bytes s enough = (
    loop_enough fuel end_p p bytes s (omega (arith, enough)) (omega arith),
    dots_enough fuel end_p p (omega (arith, enough)) (omega arith),
  )
