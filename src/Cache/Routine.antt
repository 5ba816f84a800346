-- ===== src/Cache/Routine.antt =====
-- FuseCacheExpirationRoutine of src/shared/km/cache.c as a whole.
use winfuse.Base.{
  ℕ, ◌+◌, ◌≤◌, ◌<◌, ◌≡◌, ◌∙◌, sym, inl, inr, ap, refl, Bool, true, false, ◌||◌, List, [], ◌∷◌,
  arith, if◌then◌else◌, count, count-append, Bool-cases, length, is_empty,
}
use winfuse.Cache.{Cache, Item}
use winfuse.Cache.Cases.{expire_next_cases, is_due}
use winfuse.Cache.Expiry.{
  expire_loop, collect, freed_only, to_forget, put_back, Expired, expiration_routine,
}
use winfuse.Cache.Found.{expire-listed}
use winfuse.Cache.Items.{forget_time, expire_next_item}
use winfuse.Cache.Keep.{listed_head}
use winfuse.Cache.Sweep.{
  SameTimes, Expires, Forgets, expire_loop-Expires, forget_loop-Forgets, set_forget-IsValid,
  forget_head,
}
use winfuse.Cache.Valid.{IsValid}

count-split :
    (items : ℕ → Item) (l : List ℕ) (x : ℕ)
    → count x (freed_only items l) + count x (to_forget items l) ≡ count x l
unfolding freed_only to_forget count
count-split items [] x = refl
count-split items (y ∷ l) x = ground (arith, count-split items l x)

freed_only-no_forget :
    (items : ℕ → Item) (l : List ℕ) (x : ℕ)
    → 0 < count x (freed_only items l)
    → (items x).no_forget ≡ true
unfolding freed_only count
freed_only-no_forget items [] x h = absurd (omega arith)
freed_only-no_forget items (y ∷ l) x h = ground (arith, freed_only-no_forget items l x)

to_forget-no_forget :
    (items : ℕ → Item) (l : List ℕ) (x : ℕ)
    → 0 < count x (to_forget items l)
    → (items x).no_forget ≡ false
unfolding to_forget count
to_forget-no_forget items [] x h = absurd (omega arith)
to_forget-no_forget items (y ∷ l) x h = ground (arith, to_forget-no_forget items l x)

not_due :
    {refs : ℕ → ℕ} (c : Cache) (time x : ℕ) (l : List ℕ)
    → IsValid refs c
    → (expire_next_item c time).1 ≡ false
    → c.item_list ≡ x ∷ l
    → is_due c time x ≡ false
not_due c time x l v =
    expire_next_cases c (λ r. r.1 ≡ false → c.item_list ≡ x ∷ l → is_due c time x ≡ false) time
      (λ e _ e'. absurd (cc))
      (λ y k e _. rw (expire-listed c y v (listed_head y k e)) (λ t. absurd (cc)))
      (λ y k e d _ e'. ground (arith, e, e', d))

-- What the routine at `time` makes of a cache.
pub record Swept (refs : ℕ → ℕ) (c : Cache) (time : ℕ) (success : Bool) (r : Expired) : Type 0 where
  pub valid : IsValid refs r.cache
  pub capacity : r.cache.capacity ≡ c.capacity
  -- An item that is freed or posted is off the lists, and goes one way only.
  pub disposed :
      (x : ℕ)
      → count x r.cache.item_list + count x r.cache.forget_list + count x r.freed + count x r.posted
        ≤ count x c.item_list + count x c.forget_list
  -- What no file refers to is still on a list, or freed, or posted.
  pub nothing_lost :
      (x : ℕ)
      → refs x ≡ 0
      → count x r.cache.item_list + count x r.cache.forget_list + count x r.freed + count x r.posted
        ≡ count x c.item_list + count x c.forget_list
  -- Nothing is posted without success; with it, the head of the Forget list has been used since.
  pub posted_only : success ≡ false → r.posted ≡ []
  pub head_used :
      success ≡ true
      → (x : ℕ) (l : List ℕ) → r.cache.forget_list ≡ x ∷ l
      → forget_time c time < (r.cache.items x).last_used_time
  -- No file refers to it, and it has not been used since the forget time.
  pub unreferenced : (x : ℕ) → 0 < count x r.freed + count x r.posted → refs x ≡ 0
  pub unused :
      (x : ℕ)
      → 0 < count x r.freed + count x r.posted
      → (c.items x).last_used_time ≤ forget_time c time
  -- The root is freed without a message, and all others are posted.
  pub roots : (x : ℕ) → 0 < count x r.freed → (r.cache.items x).no_forget ≡ true
  pub others : (x : ℕ) → 0 < count x r.posted → (r.cache.items x).no_forget ≡ false
  -- The item at the head of the list has not expired.
  pub head_fresh : (x : ℕ) (l : List ℕ) → r.cache.item_list ≡ x ∷ l → is_due r.cache time x ≡ false

forget_time_congr :
    (c d : Cache) (time : ℕ) → SameTimes c d → forget_time d time ≡ forget_time c time
unfolding forget_time
forget_time_congr c d time s =
    λ i. forget_time (record d { gen_list = s.gen_list i; gens = s.gens i }) time

empty-count : (x : ℕ) (l : List ℕ) → is_empty l ≡ true → count x l ≡ 0
unfolding count
empty-count x [] e = refl
empty-count x (y ∷ l) e = absurd (cc e)

-- Both loops, from the cache `c` by `b` to `d`, and the items taken.
module _ (refs : ℕ → ℕ) (c b d : Cache) (time : ℕ) (taken : List ℕ) (e : Expires refs c b time)
    (f : Forgets refs b d time [] taken) where
  taken-count : (x : ℕ) → count x d.forget_list + count x taken ≡ count x b.forget_list
  unfolding count
  taken-count x = omega (arith, f.moved x)

  taken_unreferenced : (x : ℕ) → 0 < count x taken → refs x ≡ 0
  taken_unreferenced x h = e.keeps.valid.unreferenced x (omega (arith, taken-count x))

  taken_unused : (x : ℕ) → 0 < count x taken → (c.items x).last_used_time ≤ forget_time c time
  unfolding count
  taken_unused x h =
      omega (arith, f.unused x (omega arith), forget_time_congr c b time e.times, e.times.used x)

  head_not_due : (x : ℕ) (l : List ℕ) → d.item_list ≡ x ∷ l → is_due d time x ≡ false
  head_not_due x l g = rw f.items (not_due b time x l e.keeps.valid e.finished (sym f.listed ∙ g))

  head_has_been_used :
      (x : ℕ) (l : List ℕ) → d.forget_list ≡ x ∷ l → forget_time c time < (d.items x).last_used_time
  head_has_been_used x l g =
      let same : forget_time d time ≡ forget_time c time =
        f.forget_times ∙ forget_time_congr c b time e.times in
      ground (arith, forget_head d time taken x l f.finished g, same)

  split :
      (x : ℕ)
      → count x (freed_only d.items taken) + count x (to_forget d.items taken) ≡ count x taken
  split x = count-split d.items taken x

  keep-Swept :
      (success : Bool) (posted : List ℕ)
      → ((x : ℕ) → count x posted ≡ count x (to_forget d.items taken))
      → (success ≡ false → posted ≡ [])
      → Swept refs c time success
          (record { cache = d; freed = freed_only d.items taken; posted = posted })
  keep-Swept success posted h unposted = record {
    nothing_lost = λ x z.
        omega (arith, split x, h x, taken-count x, e.nothing_lost x z, ap (count x) f.listed);
    posted_only = unposted;
    head_used = λ _. head_has_been_used;
    valid = f.valid;
    capacity = f.capacity ∙ e.keeps.capacity;
    disposed = λ x.
        omega (arith, split x, h x, taken-count x, e.keeps.nothing_new x, ap (count x) f.listed);
    unreferenced = λ x k. taken_unreferenced x (omega (arith, split x, h x));
    unused = λ x k. taken_unused x (omega (arith, split x, h x));
    roots = freed_only-no_forget d.items taken;
    others = λ x k. to_forget-no_forget d.items taken x (omega (arith, h x));
    head_fresh = head_not_due;
  }

  back-Swept : Swept refs c time false (record {
    cache = put_back d (to_forget d.items taken);
    freed = freed_only d.items taken;
    posted = [];
  })
  unfolding put_back count
  back-Swept = record {
    nothing_lost = λ x z. omega (
      arith,
      count-append x (to_forget d.items taken) d.forget_list,
      split x,
      taken-count x,
      e.nothing_lost x z,
      ap (count x) f.listed,
    );
    posted_only = λ _. refl;
    head_used = λ t. absurd (cc t);
    valid =
        set_forget-IsValid d _ f.valid
          (λ x. omega (
            arith,
            count-append x (to_forget d.items taken) d.forget_list,
            split x,
            taken-count x,
            e.keeps.valid.once x,
            ap (count x) f.listed,
          ))
          (λ x k. e.keeps.valid.unreferenced x (
            omega (
              arith,
              count-append x (to_forget d.items taken) d.forget_list,
              split x,
              taken-count x,
            )));
    capacity = f.capacity ∙ e.keeps.capacity;
    disposed = λ x. omega (
      arith,
      count-append x (to_forget d.items taken) d.forget_list,
      split x,
      taken-count x,
      e.keeps.nothing_new x,
      ap (count x) f.listed,
    );
    unreferenced = λ x k. taken_unreferenced x (omega (arith, split x));
    unused = λ x k. taken_unused x (omega (arith, split x));
    roots = freed_only-no_forget d.items taken;
    others = λ x k. absurd (omega arith);
    head_fresh = head_not_due;
  }

  finish-Swept :
      (success : Bool)
      → let forgotten = to_forget d.items taken in
        Swept refs c time success (record {
          cache = if is_empty forgotten || success then d else put_back d forgotten;
          freed = freed_only d.items taken;
          posted = if success then forgotten else [];
        })
  unfolding count
  finish-Swept true = elim (Bool-cases (is_empty (to_forget d.items taken))) [
    | inl t ↦ rw t (keep-Swept true _ (λ x. refl) (λ bad. absurd (cc bad)))
    | inr t ↦ rw t (keep-Swept true _ (λ x. refl) (λ bad. absurd (cc bad)))
  ]
  finish-Swept false = elim (Bool-cases (is_empty (to_forget d.items taken))) [
    | inl t ↦
        rw t
          (keep-Swept false [] (λ x. sym (empty-count x (to_forget d.items taken) t)) (λ _. refl))
    | inr t ↦ rw t back-Swept
  ]

-- FuseCacheExpirationRoutine on a valid cache, whether or not its FORGET message can be posted: the
-- cache is valid again; an item that is freed or posted is off both lists, and is freed or posted
-- once; no file refers to it, and it was last used at the forget time or before; items without FORGET are
-- those that are freed, and the others those that are posted; what no file refers to is never lost, but
-- on a list, freed or posted; nothing is posted where the message cannot be, and where it can, the item
-- at the head of the Forget list that is left was used after the forget time; and the item at the head
-- of the list that is left has not expired.
pub expiration_routine-Swept :
    (refs : ℕ → ℕ) (c : Cache) (time : ℕ) (success : Bool)
    → IsValid refs c
    → Swept refs c time success (expiration_routine c time success)
unfolding expiration_routine collect
expiration_routine-Swept refs c time success v =
    let b = expire_loop (length c.item_list) c time in
    let e = expire_loop-Expires (length c.item_list) c time v (omega arith) in
    let f = forget_loop-Forgets (length b.forget_list) b time [] e.keeps.valid (omega arith) in
    finish-Swept refs c b _ time _ e f success
