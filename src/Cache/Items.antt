-- ===== src/Cache/Items.antt =====
-- src/shared/km/cache.c: the inline functions on items, which run under the mutex.
use winfuse.Base.{
  ℕ, ◌+◌, ◌%◌, ◌^◌, Bool, true, false, ◌&&◌, ◌||◌, not, Option, none, some, List, [], ◌∷◌, ◌++◌,
  ◌==◌, leb, if◌then◌else◌, erase, contains,
}
use winfuse.Base.Chains.{chain, link, unlink}
use winfuse.Cache.{Cache, Item, Entry, Rtl, update, inc32, dec32, inc64}

-- FuseCacheForgetTime; a generation of time 0 wraps around.
unfoldable pub forget_time : Cache → ℕ → ℕ
forget_time c time = elim c.gen_list [
  | [] ↦ time
  | g ∷ _ ↦
      if leb (c.gens g).interrupt_time time
      then ((c.gens g).interrupt_time + 0xffff_ffff_ffff_ffff) % 2 ^ 64
      else time
]

-- FuseCacheForgetNextItem: `none` is FALSE.
unfoldable pub forget_next_item : Cache → ℕ → List ℕ → Option (Cache × List ℕ)
unfolding forget_time
forget_next_item c time forgotten = elim c.forget_list [
  | [] ↦ none
  | x ∷ rest ↦
      if leb (c.items x).last_used_time (forget_time c time)
      then some (record c { forget_list = rest }, forgotten ++ x ∷ [])
      else none
]

unfoldable pub hash_index : Cache → ℕ → ℕ
hash_index c hash = hash % c.item_bucket_count

abbrev pub write_item : Cache → ℕ → Item → Cache
write_item c x item = record c { items = update c.items x item }

-- An item that is in its chain: out of the chain, the list and the count, with one reference less.
unfoldable pub drop_item : Cache → ℕ → Cache
unfolding hash_index
drop_item c x =
    let item = c.items x in
    let refs = dec32 item.ref_count in
    record c {
      item_buckets = unlink c.item_buckets (hash_index c item.hash) x;
      item_list = erase x c.item_list;
      item_count = dec32 c.item_count;
      items = update c.items x (record item { ref_count = refs });
      forget_list = if refs == 0 then c.forget_list ++ x ∷ [] else c.forget_list;
    }

-- FuseCacheExpireItem.
unfoldable pub expire_item : Cache → ℕ → Cache × Bool
unfolding drop_item
expire_item c x =
    if contains x (chain c.item_buckets (hash_index c (c.items x).hash))
    then (drop_item c x, true)
    else (c, false)

-- FuseCacheExpireNextItem.
unfoldable pub expire_next_item : Cache → ℕ → Cache × Bool
unfolding expire_item
expire_next_item c time = elim c.item_list [
  | [] ↦ (c, false)
  | x ∷ _ ↦
      if leb (c.items x).expiration_time time || not ((c.items x).quick_expiry == 0)
      then expire_item c x
      else (c, false)
]

module _ (rtl : Rtl) where
  -- The test of FuseCacheLookupHashedItem.
  unfoldable pub matches : Cache → ℕ → ℕ → List ℕ → ℕ → Bool
  matches c hash parent_ino name x =
      (c.items x).hash == hash
      && ((c.items x).parent_ino == parent_ino
          && rtl.equal_string (c.items x).name name c.case_insensitive)

  unfoldable pub lookup_chain : Cache → ℕ → ℕ → List ℕ → List ℕ → Option ℕ
  unfolding matches
  lookup_chain c hash parent_ino name [] = none
  lookup_chain c hash parent_ino name (x ∷ xs) =
      if matches c hash parent_ino name x then some x else lookup_chain c hash parent_ino name xs

  -- FuseCacheLookupHashedItem.
  unfoldable pub lookup_hashed_item : Cache → ℕ → ℕ → List ℕ → Option ℕ
  unfolding lookup_chain hash_index
  lookup_hashed_item c hash parent_ino name =
      lookup_chain c hash parent_ino name (chain c.item_buckets (hash_index c hash))

  -- The item is used again, and becomes the last of the list.
  unfoldable pub touch_item : Cache → ℕ → Item → Cache
  touch_item c x item = record (write_item c x item) { item_list = erase x c.item_list ++ x ∷ [] }

  -- FuseCacheUpdateHashedItem.
  unfoldable pub update_hashed_item : Cache → ℕ → ℕ → List ℕ → ℕ → ℕ → Entry → Cache × Option ℕ
  unfolding lookup_hashed_item touch_item expire_item
  update_hashed_item c hash parent_ino name expiration_time last_used_time entry =
      elim (lookup_hashed_item c hash parent_ino name) [
        | none ↦ (c, none)
        | some x ↦
            if entry.nodeid == (c.items x).entry.nodeid && (c.items x).quick_expiry == 0
            then (
              touch_item c x (record (c.items x) {
                nlookup = inc64 (c.items x).nlookup;
                expiration_time = expiration_time;
                last_used_time = last_used_time;
                entry = entry;
              }),
              some x,
            )
            else ((expire_item c x).0, none)
      ]

-- FuseCacheAddItem.
unfoldable pub add_item : Cache → ℕ → Cache
unfolding hash_index
add_item c x = record c {
  item_buckets = link c.item_buckets (hash_index c (c.items x).hash) x;
  item_list = c.item_list ++ x ∷ [];
  item_count = inc32 c.item_count;
}
