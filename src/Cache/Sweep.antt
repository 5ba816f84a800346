-- ===== src/Cache/Sweep.antt =====
-- FuseCacheExpirationRoutine of src/shared/km/cache.c: what it takes off the cache, and when.
use winfuse.Base.{
  ℕ, zero, suc, ◌+◌, ◌≤◌, ◌<◌, ◌≡◌, ◌∙◌, inl, inr, ap, refl, sym, subst, Bool, true, false, Option,
  none, some, List, [], ◌∷◌, ◌++◌, arith, ◌==◌, leb, if◌then◌else◌, count, count-push, count-erase,
  Bool-cases, dec_lt, length, length-erase,
}
use mathlib.Core.Bool.{false≢true}
use winfuse.Cache.{Cache}
use winfuse.Cache.Cases.{expire_next_cases, forget_next_cases}
use winfuse.Cache.Expiry.{expire_loop, forget_loop}
use winfuse.Cache.Found.{expire-listed}
use winfuse.Cache.Items.{forget_time, forget_next_item, drop_item, expire_next_item}
use winfuse.Cache.Keep.{Keeps, same-Keeps, expire_next-Keeps, listed_head}
use winfuse.Cache.Store.{Keeps-trans}
use winfuse.Cache.Valid.{IsValid, home}

-- Only the reference counts of items change, and no generation does.
pub record SameTimes (c d : Cache) : Type 0 where
  pub gen_list : d.gen_list ≡ c.gen_list
  pub gens : d.gens ≡ c.gens
  pub used : (x : ℕ) → (d.items x).last_used_time ≡ (c.items x).last_used_time

drop-SameTimes : (c : Cache) (x : ℕ) → SameTimes c (drop_item c x)
unfolding drop_item
drop-SameTimes c x = record { gen_list = refl; gens = refl; used = λ y. ground arith }

expire_next-SameTimes :
    {refs : ℕ → ℕ} (c : Cache) (time : ℕ) → IsValid refs c → SameTimes c (expire_next_item c time).0
expire_next-SameTimes c time v =
    expire_next_cases c (λ r. SameTimes c r.0) time (λ _. same)
      (λ x l e _. rw (expire-listed c x v (listed_head x l e)) (drop-SameTimes c x))
      (λ _ _ _ _. same)
  where
    same : SameTimes c c
    same = record { gen_list = refl; gens = refl; used = λ y. refl }

-- A round that goes on has made the list shorter.
expire_next_shorter :
    {refs : ℕ → ℕ} (c : Cache) (time : ℕ)
    → IsValid refs c
    → (expire_next_item c time).1 ≡ true
    → length (expire_next_item c time).0.item_list + 1 ≡ length c.item_list
unfolding drop_item
expire_next_shorter c time v =
    expire_next_cases c (λ r. r.1 ≡ true → length r.0.item_list + 1 ≡ length c.item_list) time
      (λ _ t. absurd (cc))
      (λ x l e _.
        rw (expire-listed c x v (listed_head x l e))
          (λ _. length-erase x c.item_list (listed_head x l e)))
      (λ _ _ _ _ t. absurd (cc))

expire_next_stopped :
    {refs : ℕ → ℕ} (c : Cache) (time : ℕ)
    → IsValid refs c
    → (expire_next_item c time).1 ≡ false
    → (expire_next_item c time).0 ≡ c
expire_next_stopped c time v =
    expire_next_cases c (λ r. r.1 ≡ false → r.0 ≡ c) time (λ _ _. refl)
      (λ x l e _. rw (expire-listed c x v (listed_head x l e)) (λ t. absurd (cc)))
      (λ _ _ _ _ _. refl)

abbrev pub on_lists : Cache → ℕ → ℕ
on_lists c x = count x c.item_list + count x c.forget_list

drop-on_lists :
    {refs : ℕ → ℕ} (c : Cache) (x y : ℕ)
    → IsValid refs c
    → 0 < count x c.item_list
    → refs y ≡ 0
    → on_lists (drop_item c x) y ≡ on_lists c y
unfolding drop_item
drop-on_lists c x y v h z = ground (
  arith,
  count-erase y x c.item_list,
  count-push y x c.forget_list,
  v.once x,
  v.referenced x (omega (arith, h)),
)

expire_next-on_lists :
    {refs : ℕ → ℕ} (c : Cache) (time y : ℕ)
    → IsValid refs c
    → refs y ≡ 0
    → on_lists (expire_next_item c time).0 y ≡ on_lists c y
expire_next-on_lists c time y v z =
    expire_next_cases c (λ r. on_lists r.0 y ≡ on_lists c y) time (λ _. refl)
      (λ x l e _.
        rw (expire-listed c x v (listed_head x l e)) (drop-on_lists c x y v (listed_head x l e) z))
      (λ _ _ _ _. refl)

-- The loop on expired items: with as many rounds as there are items it ends by its test.
pub record Expires (refs : ℕ → ℕ) (c d : Cache) (time : ℕ) : Type 0 where
  pub keeps : Keeps refs c d
  pub times : SameTimes c d
  pub finished : (expire_next_item d time).1 ≡ false
  -- What no file refers to is on one of the lists still.
  pub nothing_lost : (x : ℕ) → refs x ≡ 0 → on_lists d x ≡ on_lists c x

pub expire_loop-Expires :
    {refs : ℕ → ℕ} (fuel : ℕ) (c : Cache) (time : ℕ)
    → IsValid refs c
    → length c.item_list ≤ fuel
    → Expires refs c (expire_loop fuel c time) time
unfolding expire_loop
expire_loop-Expires zero c time v h = record {
  keeps = same-Keeps c v;
  times = record { gen_list = refl; gens = refl; used = λ x. refl };
  finished = ground (arith, expire_next_shorter c time v);
  nothing_lost = λ x z. refl;
}
expire_loop-Expires {refs} (suc n) c time v h = elim (Bool-cases (expire_next_item c time).1) [
  | inl t ↦
      let k = expire_next-Keeps c time v in
      let s = expire_next-SameTimes c time v in
      let r =
        expire_loop-Expires n (expire_next_item c time).0 time k.valid
          (omega (arith, expire_next_shorter c time v t)) in
      rw t (record {
        keeps = Keeps-trans c _ _ k r.keeps;
        times = record {
          gen_list = r.times.gen_list ∙ s.gen_list;
          gens = r.times.gens ∙ s.gens;
          used = λ x. r.times.used x ∙ s.used x;
        };
        finished = r.finished;
        nothing_lost = λ x z. r.nothing_lost x z ∙ expire_next-on_lists c time x v z;
      })
  | inr t ↦ rw t (record {
    keeps = expire_next-Keeps c time v;
    times = expire_next-SameTimes c time v;
    finished = rw (expire_next_stopped c time v t) t;
    nothing_lost = λ x z. expire_next-on_lists c time x v z;
  })
]

pub set_forget-IsValid :
    {refs : ℕ → ℕ} (c : Cache) (l : List ℕ)
    → IsValid refs c
    → ((x : ℕ) → count x c.item_list + count x l ≤ 1)
    → ((x : ℕ) → 0 < count x l → refs x ≡ 0)
    → IsValid refs (record c { forget_list = l })
unfolding home
set_forget-IsValid c l v once unreferenced = record {
  some_bucket = v.some_bucket;
  width = v.width;
  placed = v.placed;
  counted = v.counted;
  bounded = v.bounded;
  capacity_fits = v.capacity_fits;
  once = once;
  referenced = v.referenced;
  refs_fit = v.refs_fit;
  timed = v.timed;
  unreferenced = unreferenced;
}

-- What the loop on forgotten items moves from the head of the Forget list to `taken`: items that
-- have not been used since the forget time. As many rounds as there are items suffice.
pub record Forgets (refs : ℕ → ℕ) (c d : Cache) (time : ℕ) (start taken : List ℕ) : Type 0 where
  pub valid : IsValid refs d
  pub capacity : d.capacity ≡ c.capacity
  pub listed : d.item_list ≡ c.item_list
  pub items : d.items ≡ c.items
  pub count_same : d.item_count ≡ c.item_count
  pub moved :
      (x : ℕ) → count x d.forget_list + count x taken ≡ count x c.forget_list + count x start
  pub unused :
      (x : ℕ) → count x start < count x taken → (c.items x).last_used_time ≤ forget_time c time
  pub finished : forget_next_item d time taken ≡ none
  pub forget_times : forget_time d time ≡ forget_time c time

count-tail :
    (y x : ℕ) (l : List ℕ) {k : List ℕ}
    → k ≡ x ∷ l
    → count y k ≡ (if y == x then 1 else 0) + count y l
unfolding count
count-tail y x l e = ap (count y) e

Forgets-step :
    {refs : ℕ → ℕ} (c : Cache) (time : ℕ) (start : List ℕ) (x : ℕ) (l : List ℕ) (d : Cache)
    (taken : List ℕ)
    → c.forget_list ≡ x ∷ l
    → leb (c.items x).last_used_time (forget_time c time) ≡ true
    → Forgets refs (record c { forget_list = l }) d time (start ++ x ∷ []) taken
    → Forgets refs c d time start taken
unfolding forget_time
Forgets-step c time start x l d taken e old r = record {
  valid = r.valid;
  capacity = r.capacity;
  listed = r.listed;
  items = r.items;
  count_same = r.count_same;
  moved = λ y. ground (arith, r.moved y, count-tail y x l e, count-push y x start);
  unused = λ y k. elim (dec_lt (count y (start ++ x ∷ [])) (count y taken)) [
    | yes more ↦ r.unused y more
    | no less ↦ let same : y ≡ x = ground (arith, count-push y x start) in rw same (ground arith)
  ];
  finished = r.finished;
  forget_times = r.forget_times;
}

pub forget_loop-Forgets :
    {refs : ℕ → ℕ} (fuel : ℕ) (c : Cache) (time : ℕ) (start : List ℕ)
    → IsValid refs c
    → length c.forget_list ≤ fuel
    → let r = forget_loop fuel c time start in Forgets refs c r.0 time start r.1
unfolding forget_loop
forget_loop-Forgets zero c time start v h = record {
  valid = v;
  capacity = refl;
  listed = refl;
  items = refl;
  count_same = refl;
  moved = λ x. refl;
  unused = λ x k. absurd (omega arith);
  forget_times = refl;
  finished =
      forget_next_cases c (λ r. r ≡ none) time start refl
        (λ x l e _. absurd (omega (arith, ap (length {A = ℕ}) e)));
}
forget_loop-Forgets {refs} (suc n) c time start v h =
    forget_next_cases c
      (λ o.
        forget_next_item c time start ≡ o
        → let r = elim o as (λ _. Cache × List ℕ) [
          | none ↦ (c, start)
          | some (c', start') ↦ forget_loop n c' time start'
        ] in
          Forgets refs c r.0 time start r.1)
      time start
      (λ e. record {
        valid = v;
        capacity = refl;
        listed = refl;
        items = refl;
        count_same = refl;
        moved = λ x. refl;
        unused = λ x k. absurd (omega arith);
        finished = e;
        forget_times = refl;
      })
      (λ x l e old _. Forgets-step c time start x l _ _ e old (
        forget_loop-Forgets n (record c { forget_list = l }) time (start ++ x ∷ []) (shrunk x l e)
          (omega (arith, ap (length {A = ℕ}) e))))
      refl
  where
    shrunk :
        (x : ℕ) (l : List ℕ) → c.forget_list ≡ x ∷ l → IsValid refs (record c { forget_list = l })
    shrunk x l e =
        set_forget-IsValid c l v (λ y. omega (arith, v.once y, count-tail y x l e))
          (λ y k. v.unreferenced y (omega (arith, count-tail y x l e)))

first : List ℕ → ℕ
first [] = 0
first (y ∷ l) = y

is_none : Option (Cache × List ℕ) → Bool
is_none none = true
is_none (some r) = false

-- Where the loop ends, the item at the head of the list has been used since the forget time.
pub forget_head :
    (c : Cache) (time : ℕ) (taken : List ℕ) (x : ℕ) (l : List ℕ)
    → forget_next_item c time taken ≡ none
    → c.forget_list ≡ x ∷ l
    → leb (c.items x).last_used_time (forget_time c time) ≡ false
unfolding forget_next_item is_none first
forget_head c time taken x l ended = go c.forget_list (ap is_none ended)
  where
    go :
        (k : List ℕ)
        → is_none (elim k [
          | [] ↦ none
          | y ∷ rest ↦
              if leb (c.items y).last_used_time (forget_time c time)
              then some (record c { forget_list = rest }, taken ++ y ∷ [])
              else none
        ])
          ≡ true
        → k ≡ x ∷ l
        → leb (c.items x).last_used_time (forget_time c time) ≡ false
    go [] e h = absurd (omega (arith, ap (length {A = ℕ}) h))
    go (y ∷ rest) e h = elim (Bool-cases (leb (c.items y).last_used_time (forget_time c time))) [
      | inr used ↦
          let same : y ≡ x = ap first h in
          subst (λ z. leb (c.items z).last_used_time (forget_time c time) ≡ false) same used
      | inl old ↦ absurd (
          false≢true (
            sym (
              ap
                (λ b.
                  is_none
                    (if b then some (record c { forget_list = rest }, taken ++ y ∷ []) else none))
                old)
            ∙ e))
    ]
