-- ===== src/Cache/Entries.antt =====
-- src/shared/km/cache.c: the functions on single entries and items.
use winfuse.Base.{
  ℕ, ◌+◌, ◌*◌, ◌/◌, ◌%◌, ◌^◌, Bool, false, ◌&&◌, Option, none, some, List, [], ◌∷◌, ◌++◌, ◌==◌, ltb,
  leb, if◌then◌else◌,
}
use winfuse.Cache.{Cache, Item, Entry, Rtl, inc32, dec32}
use winfuse.Cache.Hash.{cache_hash}
use winfuse.Cache.Items.{
  write_item, expire_item, expire_next_item, lookup_hashed_item, touch_item, update_hashed_item,
  add_item,
}

abbrev pub root_ino : ℕ
root_ino = 1

-- The root is not looked up, and so it is not forgotten either.
unfoldable pub is_root : ℕ → List ℕ → Bool
is_root parent_ino [] = false
is_root parent_ino (ch ∷ []) = parent_ino == root_ino && ch == b'/'
is_root parent_ino (ch ∷ d ∷ rest) = false

-- The expiration time of FuseCacheSetEntry, in 64 bits: the shorter of the two timeouts from now on.
unfoldable pub expiration_of : ℕ → Entry → ℕ
expiration_of now e =
    let entry_timeout = (e.entry_valid * 10000000 + e.entry_valid_nsec / 100) % 2 ^ 64 in
    let attr_timeout = (e.attr_valid * 10000000 + e.attr_valid_nsec / 100) % 2 ^ 64 in
    (now + (if ltb entry_timeout attr_timeout then entry_timeout else attr_timeout)) % 2 ^ 64

unfoldable pub new_item : ℕ → ℕ → List ℕ → ℕ → ℕ → Entry → Item
unfolding is_root
new_item hash parent_ino name expiration_time now entry = record {
  no_forget = is_root parent_ino name;
  hash = hash;
  parent_ino = parent_ino;
  name = name;
  nlookup = 1;
  expiration_time = expiration_time;
  last_used_time = now;
  entry = entry;
  quick_expiry = 0;
  ref_count = 1;
}

-- A full cache gives up its first item.
unfoldable pub make_room : Cache → Cache
unfolding expire_next_item
make_room c =
    if leb c.capacity c.item_count then (expire_next_item c 0xffff_ffff_ffff_ffff).0 else c

-- FuseCacheReferenceItem.
unfoldable pub reference_item : Cache → ℕ → Cache
reference_item c x = write_item c x (record (c.items x) { ref_count = inc32 (c.items x).ref_count })

-- FuseCacheDereferenceItem; the null item is passed over.
unfoldable pub dereference_item : Cache → ℕ → Cache
dereference_item c x =
    let refs = dec32 (c.items x).ref_count in
    if x == 0 then c else record (write_item c x (record (c.items x) { ref_count = refs })) {
      forget_list = if refs == 0 then c.forget_list ++ x ∷ [] else c.forget_list;
    }

-- FuseCacheQuickExpireItem.
unfoldable pub quick_expire_item : Cache → ℕ → Cache
quick_expire_item c x = write_item c x (record (c.items x) { quick_expiry = 1 })

module _ (rtl : Rtl) where
  -- FuseCacheGetEntry at the time `now`: the entry and its item, or none.
  unfoldable pub get_entry : Cache → ℕ → ℕ → List ℕ → Cache × Option (Entry × ℕ)
  unfolding cache_hash
  get_entry c now parent_ino name =
      let hash = cache_hash rtl parent_ino (some name) c.case_insensitive in
      elim (lookup_hashed_item rtl c hash parent_ino name) [
        | none ↦ (c, none)
        | some x ↦
            if ltb now (c.items x).expiration_time && (c.items x).quick_expiry == 0
            then (
              touch_item rtl c x (record (c.items x) { last_used_time = now }),
              some ((c.items x).entry, x),
            )
            else ((expire_item c x).0, none)
      ]

  -- The second section of FuseCacheSetEntry, with the new item at `new`.
  unfoldable pub insert_entry : Cache → ℕ → ℕ → List ℕ → ℕ → ℕ → Entry → ℕ → Cache × ℕ
  unfolding update_hashed_item new_item make_room add_item
  insert_entry c hash parent_ino name expiration_time now entry new =
      let (c', found) = update_hashed_item rtl c hash parent_ino name expiration_time now entry in
      elim found [
        | some x ↦ (c', x)
        | none ↦ (
          add_item
              (make_room
                (write_item c' new (new_item hash parent_ino name expiration_time now entry)))
              new,
          new,
        )
      ]

  -- FuseCacheSetEntry: both sections, one after the other.
  unfoldable pub set_entry : Cache → ℕ → ℕ → List ℕ → Entry → ℕ → Cache × ℕ
  unfolding update_hashed_item insert_entry expiration_of cache_hash
  set_entry c now parent_ino name entry new =
      let hash = cache_hash rtl parent_ino (some name) c.case_insensitive in
      let expiration_time = expiration_of now entry in
      let (c', found) = update_hashed_item rtl c hash parent_ino name expiration_time now entry in
      elim found [
        | some x ↦ (c', x)
        | none ↦ insert_entry c' hash parent_ino name expiration_time now entry new
      ]

  -- FuseCacheRemoveEntry.
  unfoldable pub remove_entry : Cache → ℕ → List ℕ → Cache
  unfolding lookup_hashed_item expire_item cache_hash
  remove_entry c parent_ino name =
      let hash = cache_hash rtl parent_ino (some name) c.case_insensitive in
      elim (lookup_hashed_item rtl c hash parent_ino name) [
        | none ↦ c
        | some x ↦ (expire_item c x).0
      ]
