-- ===== src/Cache/Oldest.antt =====
-- The generations of src/shared/km/cache.c: the list is in the order of their times, so that its
-- head bounds what may be forgotten.
use winfuse.Base.{
  ℕ, ◌≤◌, ◌<◌, ◌≡◌, ◌⊎◌, inl, inr, refl, Option, none, some, List, [], ◌∷◌, ◌++◌, arith, leb,
  if◌then◌else◌, count, Bool-cases,
}
use winfuse.Cache.{Cache, Gen, update, inc32}
use winfuse.Cache.Gens.{last_gen, reference_last_gen, insert_gen, reference_gen, whole_seconds}

-- The newest generation is older than `time`, or there is none.
abbrev pub IsStale : Cache → ℕ → Type 0
IsStale c time =
    (last_gen c.gen_list ≡ none)
    ⊎ ((g : ℕ) × (last_gen c.gen_list ≡ some g) × ((c.gens g).interrupt_time < time))

abbrev pub bumped : Cache → ℕ → Cache
bumped c g = record c {
  gens = update c.gens g (record (c.gens g) { ref_count = inc32 (c.gens g).ref_count });
}

abbrev pub started : Cache → ℕ → ℕ → Cache
started c time new = record c {
  gens = update c.gens new (record { ref_count = 1; interrupt_time = time });
  gen_list = c.gen_list ++ new ∷ [];
}

module _ {ℓ} (c : Cache) where
  last_cases :
      (P : Cache × Option ℕ → Type ℓ) (time : ℕ)
      → ((g : ℕ)
          → last_gen c.gen_list ≡ some g
          → time ≤ (c.gens g).interrupt_time
          → P (bumped c g, some g))
      → (IsStale c time → P (c, none))
      → P (reference_last_gen c time)
  unfolding reference_last_gen
  last_cases P time found stale = go _ refl
    where
      go :
          (o : Option ℕ)
          → last_gen c.gen_list ≡ o
          → P (elim o [
            | none ↦ (c, none)
            | some g ↦
                if leb time (c.gens g).interrupt_time then (bumped c g, some g) else (c, none)
          ])
      go none e = stale (inl e)
      go (some g) e = elim (Bool-cases (leb time (c.gens g).interrupt_time)) [
        | inl t ↦ rw t (found g e (ground arith))
        | inr t ↦ rw t (stale (inr (g, e, ground arith)))
      ]

stale_newest :
    (c : Cache) (time g : ℕ)
    → IsStale c time
    → last_gen c.gen_list ≡ some g
    → time ≤ (c.gens g).interrupt_time
    → ⊥
stale_newest c time g (inl n) e h = cc
stale_newest c time g (inr (k, e', less)) e h = ground arith

stale_none : (c : Cache) (time : ℕ) → IsStale c time → reference_last_gen c time ≡ (c, none)
stale_none c time s =
    last_cases c (λ r. r ≡ (c, none)) time (λ g e h. absurd (stale_newest c time g s e h))
      (λ _. refl)

insert_stale :
    (c : Cache) (time new : ℕ) → IsStale c time → insert_gen c time new ≡ (started c time new, new)
unfolding insert_gen
insert_stale c time new s = rw (stale_none c time s, insert_gen)

module _ {ℓ} (c : Cache) where
  pub reference_cases :
      (P : Cache × Option ℕ → Type ℓ) (now : ℕ) (allocated : Option ℕ)
      → ((g : ℕ)
          → last_gen c.gen_list ≡ some g
          → whole_seconds now ≤ (c.gens g).interrupt_time
          → P (bumped c g, some g))
      → (allocated ≡ none → P (c, none))
      → ((new : ℕ)
          → allocated ≡ some new
          → IsStale c (whole_seconds now)
          → P (started c (whole_seconds now) new, some new))
      → P (reference_gen c now allocated)
  unfolding reference_gen
  reference_cases P now allocated found failed fresh =
      last_cases c
        (λ r. P (elim r.1 [
          | some g ↦ (r.0, some g)
          | none ↦ elim allocated [
            | none ↦ (c, none)
            | some new ↦ (
              (insert_gen c (whole_seconds now) new).0,
              some (insert_gen c (whole_seconds now) new).1,
            )
          ]
        ]))
        (whole_seconds now) found (λ s. go s allocated refl)
    where
      go :
          IsStale c (whole_seconds now)
          → (o : Option ℕ) → allocated ≡ o
          → P (elim o [
            | none ↦ (c, none)
            | some new ↦ (
              (insert_gen c (whole_seconds now) new).0,
              some (insert_gen c (whole_seconds now) new).1,
            )
          ])
      go s none e = failed e
      go s (some new) e = rw (insert_stale c (whole_seconds now) new s) (fresh new e s)

-- The times of the generations rise along the list.
abbrev pub Rising : (ℕ → Gen) → List ℕ → Type 0
Rising gens [] = Unit {0}
Rising gens (g ∷ gs) =
    ((h : ℕ) → 0 < count h gs → (gens g).interrupt_time ≤ (gens h).interrupt_time) × Rising gens gs

-- The generations in use are distinct, and in the order of their times.
pub record IsOrdered (c : Cache) : Type 0 where
  pub rising : Rising c.gens c.gen_list
  pub distinct : (g : ℕ) → count g c.gen_list ≤ 1
