-- ===== src/Cache/Valid.antt =====
-- The invariant of the cache of src/shared/km/cache.c, and the primitives that keep it.
use winfuse.Base.{
  ℕ, ◌+◌, ◌^◌, ◌≤◌, ◌<◌, ◌≡◌, ◌∙◌, List, [], ◌∷◌, arith, count, erase, length, length-set,
  length-append, length-erase, count-push, count-erase, contains,
}
use winfuse.Base.Chains.{IsPlaced, chain, link-IsPlaced, unlink-IsPlaced, contains-chain}
use winfuse.Cache.{Cache, Item, Rtl}
use winfuse.Cache.Items.{hash_index, write_item, drop_item, touch_item, add_item}

-- The index of the chain that an item belongs to.
unfoldable pub home : Cache → ℕ → ℕ
unfolding hash_index
home c x = hash_index c (c.items x).hash

-- `refs` counts the references that the files hold on each item.
pub record IsValid (refs : ℕ → ℕ) (c : Cache) : Type 0 where
  -- The items of the list are those of the chains, each in the chain of its hash.
  pub some_bucket : 0 < c.item_bucket_count
  pub width : length c.item_buckets ≡ c.item_bucket_count
  pub placed : IsPlaced (home c) c.item_list c.item_buckets
  -- The count is that of the list, and within the capacity.
  pub counted : length c.item_list ≡ c.item_count
  pub bounded : c.item_count ≤ c.capacity
  pub capacity_fits : c.capacity < 2 ^ 32
  -- An item is cached or waits to be forgotten, once, and not both.
  pub once : (x : ℕ) → count x c.item_list + count x c.forget_list ≤ 1
  -- The reference count is that of the files, and one for the cache.
  pub referenced :
      (x : ℕ)
      → 0 < count x c.item_list + refs x
      → (c.items x).ref_count ≡ count x c.item_list + refs x
  pub refs_fit : (x : ℕ) → refs x + 1 < 2 ^ 32
  -- Times fit in 64 bits.
  pub timed : (x : ℕ) → 0 < count x c.item_list → (c.items x).expiration_time < 2 ^ 64
  -- No file refers to an item that waits to be forgotten.
  pub unreferenced : (x : ℕ) → 0 < count x c.forget_list → refs x ≡ 0

home-lt : {refs : ℕ → ℕ} {c : Cache} (x : ℕ) → IsValid refs c → home c x < length c.item_buckets
unfolding home
home-lt x v = omega (arith, v.width, v.some_bucket)

-- What the home chain holds is what the list holds.
pub contains-home :
    {refs : ℕ → ℕ} (c : Cache) (x : ℕ)
    → IsValid refs c
    → contains x (chain c.item_buckets (home c x)) ≡ contains x c.item_list
contains-home c x v = contains-chain (home c) c.item_list c.item_buckets v.placed x

-- The home chains do not change where the hashes do not.
pub IsPlaced-congr :
    (h k : ℕ → ℕ) (l : List ℕ) (bs : List (List ℕ))
    → ((x : ℕ) → h x ≡ k x)
    → IsPlaced h l bs
    → IsPlaced k l bs
IsPlaced-congr h k l bs e p x i = ground (arith, e x, p x i)

pub drop_item-IsValid :
    {refs : ℕ → ℕ} (c : Cache) (x : ℕ)
    → IsValid refs c
    → 0 < count x c.item_list
    → IsValid refs (drop_item c x)
unfolding drop_item home count
drop_item-IsValid c x v h = record {
  some_bucket = v.some_bucket;
  width = length-set c.item_buckets _ _ ∙ v.width;
  placed =
      IsPlaced-congr (home c) _ _ _ (λ y. ground arith)
        (unlink-IsPlaced (home c) c.item_list c.item_buckets v.placed x (home-lt x v));
  counted = ground (arith, length-erase x c.item_list, v.counted, v.bounded, v.capacity_fits);
  bounded = ground (arith, length-erase x c.item_list, v.counted, v.bounded, v.capacity_fits);
  capacity_fits = v.capacity_fits;
  once = λ y. ground (arith, v.once y, count-erase y x c.item_list, count-push y x c.forget_list);
  referenced =
      λ y g. ground (arith, v.referenced y, v.once y, v.refs_fit y, count-erase y x c.item_list);
  refs_fit = v.refs_fit;
  timed = λ y g. ground (arith, v.timed y, count-erase y x c.item_list);
  unreferenced = λ y g. ground (
    arith,
    v.unreferenced y,
    v.referenced x,
    v.once x,
    v.refs_fit x,
    count-push y x c.forget_list,
  );
}

-- An item that is used again moves to the end of the list, with its hash and its references kept.
pub touch_item-IsValid :
    {refs : ℕ → ℕ} (rtl : Rtl) (c : Cache) (x : ℕ) (item : Item)
    → IsValid refs c
    → 0 < count x c.item_list
    → item.hash ≡ (c.items x).hash
    → item.ref_count ≡ (c.items x).ref_count
    → item.expiration_time < 2 ^ 64
    → IsValid refs (touch_item rtl c x item)
unfolding touch_item home
touch_item-IsValid rtl c x item v h same refs_same fits = record {
  some_bucket = v.some_bucket;
  width = v.width;
  placed = λ y i.
      ground
        (arith, v.placed y i, count-push y x (erase x c.item_list), count-erase y x c.item_list);
  counted = omega (
    arith,
    length-append {0} (erase x c.item_list) (x ∷ []),
    length-erase x c.item_list h,
    v.counted,
  );
  bounded = v.bounded;
  capacity_fits = v.capacity_fits;
  once = λ y.
      ground (arith, v.once y, count-push y x (erase x c.item_list), count-erase y x c.item_list);
  referenced = λ y g.
      ground
        (arith, v.referenced y, count-push y x (erase x c.item_list), count-erase y x c.item_list);
  refs_fit = v.refs_fit;
  timed = λ y g.
      ground (arith, v.timed y, count-push y x (erase x c.item_list), count-erase y x c.item_list);
  unreferenced = v.unreferenced;
}

-- A field of an item that is neither its hash, its reference count nor its expiration time.
pub write_item-IsValid :
    {refs : ℕ → ℕ} (c : Cache) (x : ℕ) (item : Item)
    → IsValid refs c
    → item.hash ≡ (c.items x).hash
    → item.ref_count ≡ (c.items x).ref_count
    → item.expiration_time ≡ (c.items x).expiration_time
    → IsValid refs (write_item c x item)
unfolding home
write_item-IsValid c x item v same refs_same time_same = record {
  some_bucket = v.some_bucket;
  width = v.width;
  placed = IsPlaced-congr (home c) _ _ _ (λ y. ground (arith, same)) v.placed;
  counted = v.counted;
  bounded = v.bounded;
  capacity_fits = v.capacity_fits;
  once = v.once;
  referenced = λ y g. ground (arith, v.referenced y);
  refs_fit = v.refs_fit;
  timed = λ y g. ground (arith, v.timed y);
  unreferenced = v.unreferenced;
}

-- An item is at an address that nothing refers to.
pub record IsFresh (refs : ℕ → ℕ) (c : Cache) (x : ℕ) : Type 0 where
  pub uncached : count x c.item_list ≡ 0
  pub unforgotten : count x c.forget_list ≡ 0
  pub unshared : refs x ≡ 0

-- Writing a fresh address changes nothing that counts.
pub write_fresh-IsValid :
    {refs : ℕ → ℕ} (c : Cache) (x : ℕ) (item : Item)
    → IsValid refs c
    → IsFresh refs c x
    → IsValid refs (write_item c x item)
unfolding home
write_fresh-IsValid c x item v f = record {
  some_bucket = v.some_bucket;
  width = v.width;
  placed = λ y i. ground (arith, v.placed y i, f.uncached);
  counted = v.counted;
  bounded = v.bounded;
  capacity_fits = v.capacity_fits;
  once = v.once;
  referenced = λ y g. ground (arith, v.referenced y, f.uncached, f.unshared);
  refs_fit = v.refs_fit;
  timed = λ y g. ground (arith, v.timed y, f.uncached);
  unreferenced = v.unreferenced;
}

-- A fresh item with one reference, that of the cache, is added where there is room.
pub add_item-IsValid :
    {refs : ℕ → ℕ} (c : Cache) (x : ℕ)
    → IsValid refs c
    → IsFresh refs c x
    → (c.items x).ref_count ≡ 1
    → (c.items x).expiration_time < 2 ^ 64
    → c.item_count < c.capacity
    → IsValid refs (add_item c x)
unfolding add_item home count
add_item-IsValid c x v f one fits room = record {
  some_bucket = v.some_bucket;
  width = length-set c.item_buckets _ _ ∙ v.width;
  placed = link-IsPlaced (home c) c.item_list c.item_buckets v.placed x (home-lt x v);
  counted = omega (arith, length-append {0} c.item_list (x ∷ []), v.counted, v.capacity_fits);
  bounded = omega (arith, v.capacity_fits);
  capacity_fits = v.capacity_fits;
  once = λ y. ground (arith, v.once y, count-push y x c.item_list, f.uncached, f.unforgotten);
  referenced = λ y g.
      ground (arith, v.referenced y, count-push y x c.item_list, f.uncached, f.unshared, one);
  refs_fit = v.refs_fit;
  timed = λ y g. ground (arith, v.timed y, count-push y x c.item_list);
  unreferenced = v.unreferenced;
}
