-- ===== src/Cache/InUse.antt =====
-- What the generations of src/shared/km/cache.c protect: an item that was used since a generation
-- that is still referenced began is not forgotten.
use winfuse.Base.{
  ℕ, ◌+◌, ◌%◌, ◌^◌, ◌≤◌, ◌<◌, ◌≡◌, ◌⊎◌, inl, inr, ap, subst, refl, Bool, Option, none, some, List,
  [], ◌∷◌, ◌++◌, arith, ◌==◌, leb, if◌then◌else◌, count, count-push, count-erase, erase, Bool-cases,
  dec_lt,
}
use winfuse.Cache.{Cache, Gen, update, dec32}
use winfuse.Cache.Expiry.{expiration_routine}
use winfuse.Cache.Gens.{last_gen, reference_gen, dereference_gen, whole_seconds}
use winfuse.Cache.Items.{forget_time}
use winfuse.Cache.Oldest.{IsOrdered, Rising, IsStale, started, bumped, reference_cases}
use winfuse.Cache.Routine.{expiration_routine-Swept}
use winfuse.Cache.Valid.{IsValid}

Rising-congr :
    (g h : ℕ → Gen) (l : List ℕ)
    → ((x : ℕ) → 0 < count x l → (h x).interrupt_time ≡ (g x).interrupt_time)
    → Rising g l
    → Rising h l
unfolding count
Rising-congr g h [] e r = tt
Rising-congr g h (y ∷ l) e r = (
  λ x k. omega (arith, r.0 x k, e x (ground arith), e y (ground arith)),
  Rising-congr g h l (λ x k. e x (ground arith)) r.1,
)

Rising-push :
    (g : ℕ → Gen) (l : List ℕ) (new : ℕ)
    → Rising g l
    → ((x : ℕ) → 0 < count x l → (g x).interrupt_time ≤ (g new).interrupt_time)
    → Rising g (l ++ new ∷ [])
unfolding count
Rising-push g [] new r top = (λ x k. absurd (omega arith), tt)
Rising-push g (y ∷ l) new r top = (
  λ x k. elim (dec_lt 0 (count x l)) [
    | yes m ↦ r.0 x m
    | no m ↦
        let same : x ≡ new = ground (arith, count-push x new l) in rw same (top y (ground arith))
  ],
  Rising-push g l new r.1 (λ x k. top x (ground arith)),
)

Rising-erase : (g : ℕ → Gen) (l : List ℕ) (x : ℕ) → Rising g l → Rising g (erase x l)
unfolding erase count
Rising-erase g [] x r = tt
Rising-erase g (y ∷ l) x r = elim (Bool-cases (x == y)) [
  | inl e ↦ rw e r.1
  | inr e ↦ rw e (λ z k. r.0 z (ground (arith, count-erase z x l)), Rising-erase g l x r.1)
]

-- What the walk to the last generation of a longer list finds.
last_gen-cons :
    (y : ℕ) (l : List ℕ) (last : ℕ)
    → last_gen (y ∷ l) ≡ some last
    → ((last ≡ y) × (last_gen l ≡ none)) ⊎ (last_gen l ≡ some last)
unfolding last_gen
last_gen-cons y l last e = ground arith

last_gen-none : (l : List ℕ) (x : ℕ) → last_gen l ≡ none → count x l ≡ 0
unfolding last_gen count
last_gen-none [] x e = refl
last_gen-none (y ∷ l) x e = absurd (ground arith)

last_nil : (last : ℕ) → last_gen [] ≡ some last → ⊥
unfolding last_gen
last_nil last e = cc

last_gen-listed : (l : List ℕ) (last : ℕ) → last_gen l ≡ some last → 0 < count last l
unfolding count
last_gen-listed [] last e = absurd (last_nil last e)
last_gen-listed (y ∷ l) last e = elim (last_gen-cons y l last e) [
  | inl (same, _) ↦ ground arith
  | inr later ↦ omega (arith, last_gen-listed l last later)
]

-- The last generation of a list is its newest.
last_newest :
    (g : ℕ → Gen) (l : List ℕ) (last x : ℕ)
    → Rising g l
    → last_gen l ≡ some last
    → 0 < count x l
    → (g x).interrupt_time ≤ (g last).interrupt_time
unfolding count
last_newest g [] last x r e k = absurd (omega arith)
last_newest g (y ∷ l) last x r e k = elim (last_gen-cons y l last e) [
  | inl (same, ends) ↦
      let here : x ≡ last = ground (arith, last_gen-none l x ends) in rw here (omega arith)
  | inr later ↦ elim (dec_lt 0 (count x l)) [
    | yes m ↦ last_newest g l last x r.1 later m
    | no m ↦ let here : x ≡ y = ground arith in rw here (r.0 last (last_gen-listed l last later))
  ]
]

-- FuseCacheReferenceGen keeps the generations distinct and in the order of their times, where a new
-- one is at an unused address.
pub reference_gen-IsOrdered :
    (c : Cache) (now : ℕ) (allocated : Option ℕ)
    → IsOrdered c
    → ((new : ℕ) → allocated ≡ some new → count new c.gen_list ≡ 0)
    → IsOrdered (reference_gen c now allocated).0
unfolding count
reference_gen-IsOrdered c now allocated o unused =
    reference_cases c (λ r. IsOrdered r.0) now allocated
      (λ g e h. record {
        rising = Rising-congr c.gens (bumped c g).gens c.gen_list (λ x k. ground arith) o.rising;
        distinct = o.distinct;
      })
      (λ _. o)
      (λ new e s. record {
        rising =
            Rising-push (started c (whole_seconds now) new).gens c.gen_list new
              (Rising-congr c.gens (started c (whole_seconds now) new).gens c.gen_list
                (λ x k. ground (arith, unused new e)) o.rising)
              (λ x k. ground (arith, unused new e, stale_time x s k));
        distinct = λ g. ground (arith, o.distinct g, count-push g new c.gen_list, unused new e);
      })
  where
    stale_time :
        (x : ℕ)
        → IsStale c (whole_seconds now)
        → 0 < count x c.gen_list
        → (c.gens x).interrupt_time ≤ whole_seconds now
    stale_time x (inl n) k = absurd (omega (arith, last_gen-none c.gen_list x n))
    stale_time x (inr (g, e, less)) k =
        omega (arith, last_newest c.gens c.gen_list g x o.rising e k)

abbrev lowered : Cache → ℕ → ℕ → Gen
lowered c g = update c.gens g (record (c.gens g) { ref_count = dec32 (c.gens g).ref_count })

-- FuseCacheDereferenceGen keeps the generations distinct and in the order of their times.
pub dereference_gen-IsOrdered : (c : Cache) (g : ℕ) → IsOrdered c → IsOrdered (dereference_gen c g)
unfolding dereference_gen
dereference_gen-IsOrdered c g o = elim (Bool-cases (g == 0)) [
  | inl z ↦ rw z o
  | inr n ↦ elim (Bool-cases (dec32 (c.gens g).ref_count == 0)) [
    | inl e ↦
        rw (n, e)
          (record {
            rising =
                Rising-erase (lowered c g) c.gen_list g
                  (Rising-congr c.gens (lowered c g) c.gen_list (λ x k. ground arith) o.rising);
            distinct = λ h. omega (arith, o.distinct h, count-erase h g c.gen_list);
          })
    | inr e ↦
        rw (n, e)
          (record {
            rising = Rising-congr c.gens (lowered c g) c.gen_list (λ x k. ground arith) o.rising;
            distinct = o.distinct;
          })
  ]
]

-- No generation begins before the first, and 64 bits hold its time.
abbrev pub AreTimes : Cache → Type 0
AreTimes c =
    (h : ℕ)
    → 0 < count h c.gen_list
    → (0 < (c.gens h).interrupt_time) × ((c.gens h).interrupt_time < 2 ^ 64)

head_oldest :
    (g : ℕ → Gen) (h x : ℕ) (l : List ℕ)
    → Rising g (h ∷ l)
    → 0 < count x (h ∷ l)
    → (g h).interrupt_time ≤ (g x).interrupt_time
unfolding count
head_oldest g h x l r k = elim (dec_lt 0 (count x l)) [
  | yes m ↦ r.0 x m
  | no m ↦ let here : x ≡ h = ground arith in rw here (omega arith)
]

no_gen : (g : ℕ) {l : List ℕ} → l ≡ [] → 0 < count g l → ⊥
unfolding count
no_gen g e k = omega (arith, ap (count g) e)

listed_gen : (g : ℕ) {l k : List ℕ} → l ≡ k → 0 < count g l → 0 < count g k
listed_gen g e h = subst (λ t. 0 < count g t) e h

head_listed : (h : ℕ) (l : List ℕ) {k : List ℕ} → k ≡ h ∷ l → 0 < count h k
unfolding count
head_listed h l e = ground (arith, ap (count h) e)

-- The forget time is before every generation of the list, at whatever time the routine runs.
forget_time_before :
    (c : Cache) (time g : ℕ)
    → IsOrdered c
    → AreTimes c
    → 0 < count g c.gen_list
    → forget_time c time < (c.gens g).interrupt_time
unfolding forget_time
forget_time_before c time g o times k = go c.gen_list refl
  where
    go :
        (l : List ℕ)
        → c.gen_list ≡ l
        → elim l as (λ _. ℕ) [
          | [] ↦ time
          | h ∷ _ ↦
              if leb (c.gens h).interrupt_time time
              then ((c.gens h).interrupt_time + 0xffff_ffff_ffff_ffff) % 2 ^ 64
              else time
        ]
          < (c.gens g).interrupt_time
    go [] e = absurd (no_gen g e k)
    go (h ∷ l) e =
        let oldest =
          head_oldest c.gens h g l (subst (Rising c.gens) e o.rising) (listed_gen g e k) in
        let (pos, fits) = times h (head_listed h l e) in ground arith

-- In a valid cache whose generations are in order, with times from 1 to 2 ^ 64 - 1: while a
-- generation is on the list, FuseCacheExpirationRoutine neither posts as forgotten nor frees an item
-- that was used at the time of that generation or later, at whatever time the routine runs.
pub used_item_stays :
    (refs : ℕ → ℕ) (c : Cache) (time : ℕ) (success : Bool) (g x : ℕ)
    → IsValid refs c
    → IsOrdered c
    → AreTimes c
    → 0 < count g c.gen_list
    → (c.gens g).interrupt_time ≤ (c.items x).last_used_time
    → let r = expiration_routine c time success in (count x r.posted ≡ 0) × (count x r.freed ≡ 0)
used_item_stays refs c time success g x v o times k used =
    let s = expiration_routine-Swept refs c time success v in
    let f = forget_time_before c time g o times k in
    let gone : count x (expiration_routine c time success).freed
          + count x (expiration_routine c time success).posted
        ≡ 0 =
      elim (dec_lt 0 (
        count x (expiration_routine c time success).freed
        + count x (expiration_routine c time success).posted)) [
          | yes h ↦ absurd (omega (arith, s.unused x h))
          | no n ↦ omega arith
        ] in
    (omega arith, omega arith)
