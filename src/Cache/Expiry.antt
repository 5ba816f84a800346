-- ===== src/Cache/Expiry.antt =====
-- src/shared/km/cache.c: creation and deletion, the periodic expiration, and what becomes of the
-- items that are forgotten.
use winfuse.Base.{
  ℕ, zero, suc, ◌+◌, ◌-◌, ◌*◌, ◌/◌, ◌%◌, ◌^◌, Bool, not, ◌||◌, Option, none, some, List, [], ◌∷◌,
  ◌++◌, ◌==◌, if◌then◌else◌, length, replicate, is_empty,
}
use winfuse.Cache.{Cache, Item, Gen}
use winfuse.Cache.Items.{expire_next_item, forget_next_item}

abbrev pub page_size : ℕ
page_size = 4096

-- FSP_FSCTL_ALIGN_UP to a page.
abbrev pub page_align : ℕ → ℕ
page_align n = (n + (page_size - 1)) / page_size * page_size

-- FuseCacheCreate. `header` is the size of the structure up to the buckets, which holds a FAST_MUTEX
-- of the system, and ULONG is reduced to its width; `gens` and `items` are what the memory happens
-- to hold. `none` is STATUS_INSUFFICIENT_RESOURCES.
unfoldable pub cache_create : ℕ → (ℕ → Gen) → (ℕ → Item) → ℕ → Bool → Bool → Option Cache
cache_create header gens items capacity0 case_insensitive allocated =
    let capacity = if capacity0 == 0 then ((page_size - header) / 8 * 3 / 4) else capacity0 in
    let size = page_align (((capacity * 4) % 2 ^ 32 / 3 * 8 + header) % 2 ^ 32) % 2 ^ 32 in
    let buckets = (size - header) / 8 in
    if not allocated
    then none
    else some (record {
      capacity = capacity;
      case_insensitive = case_insensitive;
      gen_list = [];
      item_list = [];
      forget_list = [];
      item_count = 0;
      item_bucket_count = buckets;
      item_buckets = replicate buckets [];
      gens = gens;
      items = items;
    })

-- FuseCacheDelete: what is freed, the cache itself aside, in order.
unfoldable pub cache_delete : Cache → List ℕ
cache_delete c = c.gen_list ++ (c.item_list ++ c.forget_list)

-- `while (FuseCacheExpireNextItem(Cache, ExpirationTime))`; each round takes an item off the list.
unfoldable pub expire_loop : ℕ → Cache → ℕ → Cache
unfolding expire_next_item
expire_loop zero c time = c
expire_loop (suc fuel) c time =
    let rest = expire_loop fuel (expire_next_item c time).0 time in
    if (expire_next_item c time).1 then rest else (expire_next_item c time).0

-- `while (FuseCacheForgetNextItem(Cache, ExpirationTime, &ForgetList))`.
unfoldable pub forget_loop : ℕ → Cache → ℕ → List ℕ → Cache × List ℕ
unfolding forget_next_item
forget_loop zero c time forgotten = (c, forgotten)
forget_loop (suc fuel) c time forgotten = elim (forget_next_item c time forgotten) [
  | none ↦ (c, forgotten)
  | some (c', forgotten') ↦ forget_loop fuel c' time forgotten'
]

-- The first section of FuseCacheExpirationRoutine: the cache, and the items taken off it.
unfoldable pub collect : Cache → ℕ → Cache × List ℕ
unfolding expire_loop forget_loop
collect c time =
    let c' = expire_loop (length c.item_list) c time in
    forget_loop (length c'.forget_list) c' time []

-- The items that no FORGET is sent for are freed, and the others are left.
unfoldable pub freed_only : (ℕ → Item) → List ℕ → List ℕ
freed_only items [] = []
freed_only items (x ∷ xs) =
    if (items x).no_forget then x ∷ freed_only items xs else freed_only items xs

unfoldable pub to_forget : (ℕ → Item) → List ℕ → List ℕ
to_forget items [] = []
to_forget items (x ∷ xs) =
    if (items x).no_forget then to_forget items xs else x ∷ to_forget items xs

-- The second section: items that could not be posted go back to the head of the Forget list.
unfoldable pub put_back : Cache → List ℕ → Cache
put_back c forgotten = record c { forget_list = forgotten ++ c.forget_list }

-- What FuseCacheExpirationRoutine does: the cache, the items freed, and those posted as FORGET.
pub record Expired : Type 0 where
  pub cache : Cache
  pub freed : List ℕ
  pub posted : List ℕ

-- `success` tells whether FuseProtoPostForget succeeded.
unfoldable pub expiration_routine : Cache → ℕ → Bool → Expired
unfolding collect freed_only to_forget put_back
expiration_routine c time success =
    let (c', taken) = collect c time in
    let forgotten = to_forget c'.items taken in
    record {
      cache = if is_empty forgotten || success then c' else put_back c' forgotten;
      freed = freed_only c'.items taken;
      posted = if success then forgotten else [];
    }

-- FUSE_PROTO_FORGET_ONE.
pub record ForgetOne : Type 0 where
  pub nodeid : ℕ
  pub nlookup : ℕ

-- FuseCacheForgetOne: the message for the first item, the rest of the list, and the item freed.
unfoldable pub forget_one : (ℕ → Item) → List ℕ → Option (ForgetOne × List ℕ × ℕ)
forget_one items [] = none
forget_one items (x ∷ rest) =
    some (record { nodeid = (items x).entry.nodeid; nlookup = (items x).nlookup }, rest, x)
