-- ===== src/Cache/Store.antt =====
-- FuseCacheSetEntry, and the functions of src/shared/km/cache.c on references, keep the invariant.
use winfuse.Base.{
  ℕ, ◌+◌, ◌-◌, ◌^◌, ◌≤◌, ◌<◌, ◌≡◌, ◌≢◌, ◌∙◌, inl, inr, refl, false, some, List, arith, ◌==◌, leb,
  count, count-push, Bool-cases, erase,
}
use winfuse.Cache.{Cache, Item, Entry, Rtl, update}
use winfuse.Cache.Cases.{expire_next_cases, update_cases, insert_cases, set_cases}
use winfuse.Cache.Entries.{
  new_item, make_room, reference_item, dereference_item, quick_expire_item, insert_entry, set_entry,
  expiration_of,
}
use winfuse.Cache.Found.{expire-listed}
use winfuse.Cache.Hash.{cache_hash}
use winfuse.Cache.Items.{write_item, drop_item, touch_item, update_hashed_item, add_item}
use winfuse.Cache.Keep.{Keeps, update-Keeps, make_room-Keeps, IsFresh-Keeps, listed_head}
use winfuse.Cache.Valid.{
  IsValid, IsFresh, IsPlaced-congr, home, write_item-IsValid, write_fresh-IsValid, add_item-IsValid,
}

-- The item `x` is cached now; every other address stands where it stood, or nowhere.
pub record Stores (refs : ℕ → ℕ) (c d : Cache) (x : ℕ) : Type 0 where
  pub valid : IsValid refs d
  pub capacity : d.capacity ≡ c.capacity
  pub listed : 0 < count x d.item_list
  pub others :
      (y : ℕ)
      → y ≢ x
      → count y d.item_list + count y d.forget_list ≤ count y c.item_list + count y c.forget_list

drop_item-other : (c : Cache) (x y : ℕ) → y ≢ x → (drop_item c x).items y ≡ c.items y
unfolding drop_item
drop_item-other c x y n = ground arith

-- What gives way is not the new item.
pub make_room-other :
    {refs : ℕ → ℕ} (c : Cache) (y : ℕ)
    → IsValid refs c
    → count y c.item_list ≡ 0
    → (make_room c).items y ≡ c.items y
unfolding make_room
make_room-other c y v h = elim (Bool-cases (leb c.capacity c.item_count)) [
  | inr t ↦ rw t refl
  | inl t ↦ rw t (
      expire_next_cases c (λ r. r.0.items y ≡ c.items y) 0xffff_ffff_ffff_ffff (λ _. refl)
        (λ x l e _.
          rw (expire-listed c x v (listed_head x l e))
            (drop_item-other c x y (λ s. ground (arith, listed_head x l e))))
        (λ x l e _. refl))
]

add-Stores :
    {refs : ℕ → ℕ} (c d : Cache) (x : ℕ)
    → Keeps refs c d
    → IsFresh refs d x
    → (d.items x).ref_count ≡ 1
    → (d.items x).expiration_time < 2 ^ 64
    → d.item_count < d.capacity
    → Stores refs c (add_item d x) x
unfolding add_item
add-Stores c d x k f one fits room = record {
  valid = add_item-IsValid d x k.valid f one fits room;
  capacity = k.capacity;
  listed = ground (arith, count-push x x d.item_list);
  others = λ y n. ground (arith, k.nothing_new y, count-push y x d.item_list);
}

-- The second section, where the key is not in the cache: the new item is written, room is made for
-- it, and it is added.
fill-Stores :
    {refs : ℕ → ℕ} (c d : Cache) (x : ℕ) (item : Item)
    → Keeps refs c d
    → IsFresh refs c x
    → 0 < c.capacity
    → item.ref_count ≡ 1
    → item.expiration_time < 2 ^ 64
    → Stores refs c (add_item (make_room (write_item d x item)) x) x
fill-Stores {refs} c d x item k f pos one fits =
    let w = write_item d x item in
    let f' = IsFresh-Keeps c d x k f in
    let v = write_fresh-IsValid d x item k.valid f' in
    let (m, room) = make_room-Keeps w v (omega (arith, k.capacity)) in
    let fresh : IsFresh refs w x = record {
      uncached = f'.uncached;
      unforgotten = f'.unforgotten;
      unshared = f.unshared;
    } in
    let same = make_room-other w x v f'.uncached in
    add-Stores c (make_room w) x
      (record {
        valid = m.valid;
        capacity = m.capacity ∙ k.capacity;
        same_case = m.same_case ∙ k.same_case;
        shrinks = omega (arith, m.shrinks, k.shrinks);
        nothing_new = λ y. omega (arith, m.nothing_new y, k.nothing_new y);
      })
      (IsFresh-Keeps w (make_room w) x m fresh) (ground (arith, same, one))
      (ground (arith, same, fits)) (omega (arith, room, m.capacity))

update-some :
    (rtl : Rtl) {refs : ℕ → ℕ} (c : Cache) (hash parent_ino : ℕ) (name : List ℕ)
    (expiration_time now : ℕ) (entry : Entry) (x : ℕ)
    → IsValid refs c
    → (update_hashed_item rtl c hash parent_ino name expiration_time now entry).1 ≡ some x
    → 0
      < count x
          (update_hashed_item rtl c hash parent_ino name expiration_time now entry).0.item_list
unfolding touch_item
update-some rtl c hash parent_ino name expiration_time now entry x v =
    update_cases rtl c (λ r. r.1 ≡ some x → 0 < count x r.0.item_list) hash parent_ino name
      expiration_time now entry (λ _ e. absurd (cc))
      (λ y found _ e. ground (arith, count-push x y (erase y c.item_list))) (λ y _ _ e. absurd (cc))

pub expiration_of-lt : (now : ℕ) (entry : Entry) → expiration_of now entry < 2 ^ 64
unfolding expiration_of
expiration_of-lt now entry = omega arith

nonzero : (x : ℕ) → 0 < x → (x == 0) ≡ false
nonzero x h = ground arith

pub Keeps-trans : {refs : ℕ → ℕ} (b c d : Cache) → Keeps refs b c → Keeps refs c d → Keeps refs b d
Keeps-trans b c d k m = record {
  valid = m.valid;
  capacity = m.capacity ∙ k.capacity;
  same_case = m.same_case ∙ k.same_case;
  shrinks = omega (arith, m.shrinks, k.shrinks);
  nothing_new = λ y. omega (arith, m.nothing_new y, k.nothing_new y);
}

module _ (rtl : Rtl) {refs : ℕ → ℕ} where
  -- The second section of FuseCacheSetEntry.
  pub insert_entry-Stores :
      (b c : Cache) (hash parent_ino : ℕ) (name : List ℕ) (expiration_time now : ℕ) (entry : Entry)
      (new : ℕ)
      → Keeps refs b c
      → IsFresh refs b new
      → 0 < b.capacity
      → expiration_time < 2 ^ 64
      → let r = insert_entry rtl c hash parent_ino name expiration_time now entry new in
        Stores refs b r.0 r.1
  unfolding new_item
  insert_entry-Stores b c hash parent_ino name expiration_time now entry new k f pos fits =
      insert_cases rtl c (λ r. Stores refs b r.0 r.1) hash parent_ino name expiration_time now entry
        new
        (λ x e. record {
          valid = both.valid;
          capacity = both.capacity;
          listed = update-some rtl c hash parent_ino name expiration_time now entry x k.valid e;
          others = λ y _. both.nothing_new y;
        })
        (λ _. fill-Stores b _ new _ both f pos refl fits)
    where
      both :
          Keeps refs b (update_hashed_item rtl c hash parent_ino name expiration_time now entry).0
      both =
          Keeps-trans b c _ k
            (update-Keeps rtl c hash parent_ino name expiration_time now entry k.valid fits)

  -- FuseCacheSetEntry, on a valid cache that can hold an item and with a new item at an unused
  -- address: the cache is valid again, with the same capacity, the item that is returned is cached,
  -- and no other item is added to the lists.
  pub set_entry-Stores :
      (c : Cache) (now parent_ino : ℕ) (name : List ℕ) (entry : Entry) (new : ℕ)
      → IsValid refs c
      → IsFresh refs c new
      → 0 < c.capacity
      → let r = set_entry rtl c now parent_ino name entry new in Stores refs c r.0 r.1
  set_entry-Stores c now parent_ino name entry new v f pos =
      set_cases rtl c (λ r. Stores refs c r.0 r.1) now parent_ino name entry new
        (λ x e. record {
          valid = u.valid;
          capacity = u.capacity;
          listed = update-some rtl c _ parent_ino name _ now entry x v e;
          others = λ y _. u.nothing_new y;
        })
        (λ _. insert_entry-Stores c _ _ parent_ino name _ now entry new u f pos fits)
    where
      fits : expiration_of now entry < 2 ^ 64
      fits = expiration_of-lt now entry

      u :
          Keeps refs c
            (update_hashed_item rtl c
              (cache_hash rtl parent_ino (some name) c.case_insensitive)
              parent_ino
              name
              (expiration_of now entry)
              now
              entry).0
      u = update-Keeps rtl c _ parent_ino name _ now entry v fits

-- A file takes a reference on an item that is cached, or that a file refers to already.
pub reference_item-IsValid :
    {refs : ℕ → ℕ} (c : Cache) (x : ℕ)
    → IsValid refs c
    → 0 < count x c.item_list + refs x
    → refs x + 2 < 2 ^ 32
    → IsValid (update refs x (refs x + 1)) (reference_item c x)
unfolding reference_item home
reference_item-IsValid {refs} c x v h small = record {
  some_bucket = v.some_bucket;
  width = v.width;
  placed = IsPlaced-congr (home c) _ _ _ (λ y. ground arith) v.placed;
  counted = v.counted;
  bounded = v.bounded;
  capacity_fits = v.capacity_fits;
  once = v.once;
  referenced = λ y g. ground (arith, v.referenced y, v.referenced x, v.once x);
  refs_fit = λ y. ground (arith, v.refs_fit y);
  timed = λ y g. ground (arith, v.timed y);
  unreferenced = λ y g. ground (arith, v.unreferenced y, v.once x);
}

-- A file gives up a reference of its own; the last one hands the item to the Forget list.
pub dereference_item-IsValid :
    {refs : ℕ → ℕ} (c : Cache) (x : ℕ)
    → IsValid refs c
    → 0 < x
    → 0 < refs x
    → IsValid (update refs x (refs x - 1)) (dereference_item c x)
unfolding dereference_item home
dereference_item-IsValid {refs} c x v pos h = rw (nonzero x pos) (record {
  some_bucket = v.some_bucket;
  width = v.width;
  placed = IsPlaced-congr (home c) _ _ _ (λ y. ground arith) v.placed;
  counted = v.counted;
  bounded = v.bounded;
  capacity_fits = v.capacity_fits;
  once = λ y. ground (
    arith,
    v.once y,
    v.unreferenced y,
    v.referenced x,
    v.refs_fit x,
    count-push y x c.forget_list,
  );
  referenced = λ y g. ground (arith, v.referenced y, v.once y, v.refs_fit y);
  refs_fit = λ y. ground (arith, v.refs_fit y);
  timed = λ y g. ground (arith, v.timed y);
  unreferenced = λ y g. ground (
    arith,
    v.unreferenced y,
    v.referenced x,
    v.once x,
    v.refs_fit x,
    count-push y x c.forget_list,
  );
})

-- Asking for a quick expiry changes neither.
pub quick_expire_item-IsValid :
    {refs : ℕ → ℕ} (c : Cache) (x : ℕ) → IsValid refs c → IsValid refs (quick_expire_item c x)
unfolding quick_expire_item
quick_expire_item-IsValid c x v = write_item-IsValid c x _ v refl refl refl
