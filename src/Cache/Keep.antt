-- ===== src/Cache/Keep.antt =====
-- The functions of src/shared/km/cache.c on entries keep the invariant of the cache.
use winfuse.Base.{
  ℕ, ◌+◌, ◌^◌, ◌≤◌, ◌<◌, ◌≡◌, inl, inr, refl, ap, Option, none, some, List, ◌∷◌, arith, leb, count,
  erase, length, length-erase, Bool-cases, count-erase, count-push,
}
use winfuse.Cache.{Cache, Item, Entry, Rtl}
use winfuse.Cache.Hash.{cache_hash}
use winfuse.Cache.Items.{
  drop_item, expire_item, expire_next_item, lookup_hashed_item, touch_item, update_hashed_item,
}
use winfuse.Cache.Entries.{make_room, get_entry, remove_entry}
use winfuse.Cache.Cases.{expire_next_cases, get_cases, update_cases}
use winfuse.Cache.Found.{lookup-some, expire-listed}
use winfuse.Cache.Valid.{IsValid, IsFresh, drop_item-IsValid, touch_item-IsValid}

-- What an operation leaves of a cache: the invariant, no more items than before, and no address on
-- a list that was on none.
pub record Keeps (refs : ℕ → ℕ) (c d : Cache) : Type 0 where
  pub valid : IsValid refs d
  pub capacity : d.capacity ≡ c.capacity
  pub same_case : d.case_insensitive ≡ c.case_insensitive
  pub shrinks : d.item_count ≤ c.item_count
  pub nothing_new :
      (x : ℕ)
      → count x d.item_list + count x d.forget_list ≤ count x c.item_list + count x c.forget_list

pub same-Keeps : {refs : ℕ → ℕ} (c : Cache) → IsValid refs c → Keeps refs c c
same-Keeps c v = record {
  valid = v;
  capacity = refl;
  same_case = refl;
  shrinks = omega arith;
  nothing_new = λ x. omega arith;
}

pub drop-Keeps :
    {refs : ℕ → ℕ} (c : Cache) (x : ℕ)
    → IsValid refs c
    → 0 < count x c.item_list
    → Keeps refs c (drop_item c x)
unfolding drop_item
drop-Keeps c x v h = record {
  valid = drop_item-IsValid c x v h;
  capacity = refl;
  same_case = refl;
  shrinks = ground (arith, length-erase x c.item_list, v.counted, v.bounded, v.capacity_fits);
  nothing_new = λ y. ground (arith, count-erase y x c.item_list, count-push y x c.forget_list);
}

pub expire-Keeps :
    {refs : ℕ → ℕ} (c : Cache) (x : ℕ)
    → IsValid refs c
    → 0 < count x c.item_list
    → Keeps refs c (expire_item c x).0
expire-Keeps c x v h = rw (expire-listed c x v h) (drop-Keeps c x v h)

pub listed_head : (x : ℕ) (l : List ℕ) {k : List ℕ} → k ≡ x ∷ l → 0 < count x k
unfolding count
listed_head x l e = ground (arith, ap (count x) e)

pub expire_next-Keeps :
    {refs : ℕ → ℕ} (c : Cache) (time : ℕ)
    → IsValid refs c
    → Keeps refs c (expire_next_item c time).0
expire_next-Keeps {refs} c time v =
    expire_next_cases c (λ r. Keeps refs c r.0) time (λ _. same-Keeps c v)
      (λ x l e _. expire-Keeps c x v (listed_head x l e)) (λ x l e _. same-Keeps c v)

touch-Keeps :
    {refs : ℕ → ℕ} (rtl : Rtl) (c : Cache) (x : ℕ) (item : Item)
    → IsValid refs c
    → 0 < count x c.item_list
    → item.hash ≡ (c.items x).hash
    → item.ref_count ≡ (c.items x).ref_count
    → item.expiration_time < 2 ^ 64
    → Keeps refs c (touch_item rtl c x item)
unfolding touch_item
touch-Keeps rtl c x item v h same refs_same fits = record {
  valid = touch_item-IsValid rtl c x item v h same refs_same fits;
  capacity = refl;
  same_case = refl;
  shrinks = omega arith;
  nothing_new =
      λ y. ground (arith, count-push y x (erase x c.item_list), count-erase y x c.item_list);
}

module _ (rtl : Rtl) where
  pub get_entry-Keeps :
      {refs : ℕ → ℕ} (c : Cache) (now parent_ino : ℕ) (name : List ℕ)
      → IsValid refs c
      → Keeps refs c (get_entry rtl c now parent_ino name).0
  get_entry-Keeps {refs} c now parent_ino name v =
      get_cases rtl c (λ r. Keeps refs c r.0) now parent_ino name (λ _. same-Keeps c v)
        (λ x e _.
          let listed = (lookup-some rtl c _ parent_ino name x v e).0 in
          touch-Keeps rtl c x _ v listed refl refl (v.timed x listed))
        (λ x e _. expire-Keeps c x v (lookup-some rtl c _ parent_ino name x v e).0)

  pub update-Keeps :
      {refs : ℕ → ℕ} (c : Cache) (hash parent_ino : ℕ) (name : List ℕ) (expiration_time now : ℕ)
      (entry : Entry)
      → IsValid refs c
      → expiration_time < 2 ^ 64
      → Keeps refs c (update_hashed_item rtl c hash parent_ino name expiration_time now entry).0
  update-Keeps {refs} c hash parent_ino name expiration_time now entry v fits =
      update_cases rtl c (λ r. Keeps refs c r.0) hash parent_ino name expiration_time now entry
        (λ _. same-Keeps c v)
        (λ x e _.
          touch-Keeps rtl c x _ v (lookup-some rtl c _ parent_ino name x v e).0 refl refl fits)
        (λ x e _. expire-Keeps c x v (lookup-some rtl c _ parent_ino name x v e).0)

  pub remove_entry-Keeps :
      {refs : ℕ → ℕ} (c : Cache) (parent_ino : ℕ) (name : List ℕ)
      → IsValid refs c
      → Keeps refs c (remove_entry rtl c parent_ino name)
  unfolding remove_entry
  remove_entry-Keeps {refs} c parent_ino name v = go _ refl
    where
      go :
          (o : Option ℕ)
          → lookup_hashed_item rtl c
              (cache_hash rtl parent_ino (some name) c.case_insensitive)
              parent_ino
              name
            ≡ o
          → Keeps refs c (elim o as (λ _. Cache) [ none ↦ c | some x ↦ (expire_item c x).0 ])
      go none e = same-Keeps c v
      go (some x) e = expire-Keeps c x v (lookup-some rtl c _ parent_ino name x v e).0

pub IsFresh-Keeps :
    {refs : ℕ → ℕ} (c d : Cache) (x : ℕ) → Keeps refs c d → IsFresh refs c x → IsFresh refs d x
IsFresh-Keeps c d x k f = record {
  uncached = omega (arith, k.nothing_new x, f.uncached, f.unforgotten);
  unforgotten = omega (arith, k.nothing_new x, f.uncached, f.unforgotten);
  unshared = f.unshared;
}

pub drop_item-room :
    {refs : ℕ → ℕ} (c : Cache) (x : ℕ)
    → IsValid refs c
    → 0 < count x c.item_list
    → (drop_item c x).item_count < c.item_count
unfolding drop_item
drop_item-room c x v h =
    ground (arith, length-erase x c.item_list, v.counted, v.bounded, v.capacity_fits)

-- Every 64-bit time has come at the end of time, so that a full cache gives up an item.
pub make_room-Keeps :
    {refs : ℕ → ℕ} (c : Cache)
    → IsValid refs c
    → 0 < c.capacity
    → Keeps refs c (make_room c) × ((make_room c).item_count < c.capacity)
unfolding make_room
make_room-Keeps {refs} c v pos = elim (Bool-cases (leb c.capacity c.item_count)) [
  | inr t ↦ rw t (same-Keeps c v, ground arith)
  | inl t ↦ rw t (
      expire_next_cases c (λ r. Keeps refs c r.0 × (r.0.item_count < c.capacity))
        0xffff_ffff_ffff_ffff (λ e. absurd (ground (arith, v.counted, ap (length {A = ℕ}) e)))
        (λ x l e _. rw (expire-listed c x v (listed_head x l e)) (
          drop-Keeps c x v (listed_head x l e),
          omega (arith, drop_item-room c x v (listed_head x l e), v.bounded),
        ))
        (λ x l e late. absurd (ground (arith, v.timed x (listed_head x l e)))))
]
