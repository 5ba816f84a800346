-- ===== src/Cache/History.antt =====
-- The cache of src/shared/km/cache.c over any history of calls: entries are set, looked up and
-- removed, files take and give up references, and the periodic routine runs.
use winfuse.Base.{
  ℕ, ◌+◌, ◌-◌, ◌*◌, ◌/◌, ◌%◌, ◌^◌, ◌≤◌, ◌<◌, ◌≡◌, refl, Bool, true, Option, some, List, [], ◌∷◌,
  arith, ◌==◌, if◌then◌else◌, count, length-replicate, subst, ◌++◌, Bool-cases, inl, inr,
}
use mathlib.Core.Option.{some-injective}
use winfuse.Base.Chains.{replicate-IsPlaced}
use winfuse.Cache.{Cache, Entry, Gen, Item, Rtl, update}
use winfuse.Cache.Entries.{
  get_entry, set_entry, remove_entry, reference_item, dereference_item, quick_expire_item,
}
use winfuse.Cache.Expiry.{cache_create, expiration_routine, page_align, page_size}
use winfuse.Cache.Gens.{reference_gen, dereference_gen, whole_seconds}
use winfuse.Cache.Keep.{get_entry-Keeps, remove_entry-Keeps}
use winfuse.Cache.Oldest.{reference_cases, bumped, started}
use winfuse.Cache.Routine.{expiration_routine-Swept}
use winfuse.Cache.Store.{
  set_entry-Stores, reference_item-IsValid, dereference_item-IsValid, quick_expire_item-IsValid,
}
use winfuse.Cache.Valid.{IsValid, IsFresh, home}

pub data Call : Type 0 where
  get : ℕ → ℕ → List ℕ → Call
  set : ℕ → ℕ → List ℕ → Entry → ℕ → Call
  remove : ℕ → List ℕ → Call
  reference dereference quick_expire : ℕ → Call
  reference_generation : ℕ → Option ℕ → Call
  dereference_generation : ℕ → Call
  expire : ℕ → Bool → Call

-- The cache, with the references that the files hold on each item.
pub record World : Type 0 where
  pub cache : Cache
  pub refs : ℕ → ℕ

-- A new item is at an address that is not in use; a file takes a reference on an item that is cached
-- or that a file refers to, and gives up one that it has.
abbrev pub Allowed : World → Call → Type 0
Allowed w (get now parent name) = Unit {0}
Allowed w (set now parent name entry new) = IsFresh w.refs w.cache new
Allowed w (remove parent name) = Unit {0}
Allowed w (reference x) = (0 < count x w.cache.item_list + w.refs x) × (w.refs x + 2 < 2 ^ 32)
Allowed w (dereference x) = (0 < x) × (0 < w.refs x)
Allowed w (quick_expire x) = Unit {0}
Allowed w (reference_generation now new) = Unit {0}
Allowed w (dereference_generation g) = Unit {0}
Allowed w (expire time success) = Unit {0}

module _ (rtl : Rtl) where
  unfoldable pub run : World → Call → World
  run w (get now parent name) = record w { cache = (get_entry rtl w.cache now parent name).0 }
  run w (set now parent name entry new) = record w {
    cache = (set_entry rtl w.cache now parent name entry new).0;
  }
  run w (remove parent name) = record w { cache = remove_entry rtl w.cache parent name }
  run w (reference x) = record {
    cache = reference_item w.cache x;
    refs = update w.refs x (w.refs x + 1);
  }
  run w (dereference x) = record {
    cache = dereference_item w.cache x;
    refs = update w.refs x (w.refs x - 1);
  }
  run w (quick_expire x) = record w { cache = quick_expire_item w.cache x }
  run w (reference_generation now new) = record w { cache = (reference_gen w.cache now new).0 }
  run w (dereference_generation g) = record w { cache = dereference_gen w.cache g }
  run w (expire time success) = record w { cache = (expiration_routine w.cache time success).cache }

  pub data Reach (w : World) : World → Type 0 where
    here : Reach w w
    step : {t : World} → Reach w t → (a : Call) → Allowed t a → Reach w (run t a)

-- The generations have no part in the invariant.
pub gens-IsValid :
    {refs : ℕ → ℕ} (c : Cache) (l : List ℕ) (g : ℕ → Gen)
    → IsValid refs c
    → IsValid refs (record c { gen_list = l; gens = g })
unfolding home
gens-IsValid c l g v = record {
  some_bucket = v.some_bucket;
  width = v.width;
  placed = v.placed;
  counted = v.counted;
  bounded = v.bounded;
  capacity_fits = v.capacity_fits;
  once = v.once;
  referenced = v.referenced;
  refs_fit = v.refs_fit;
  timed = v.timed;
  unreferenced = v.unreferenced;
}

-- References on generations leave everything else as it is.
reference_gen-IsValid :
    {refs : ℕ → ℕ} (c : Cache) (now : ℕ) (new : Option ℕ)
    → IsValid refs c
    → IsValid refs (reference_gen c now new).0 × ((reference_gen c now new).0.capacity ≡ c.capacity)
reference_gen-IsValid {refs} c now new v =
    reference_cases c (λ r. IsValid refs r.0 × (r.0.capacity ≡ c.capacity)) now new
      (λ g _ _. (gens-IsValid c c.gen_list (bumped c g).gens v, refl)) (λ _. (v, refl))
      (λ g _ _.
        (gens-IsValid c (c.gen_list ++ g ∷ []) (started c (whole_seconds now) g).gens v, refl))

pub dereference_gen-IsValid :
    {refs : ℕ → ℕ} (c : Cache) (g : ℕ)
    → IsValid refs c
    → IsValid refs (dereference_gen c g) × ((dereference_gen c g).capacity ≡ c.capacity)
unfolding dereference_gen
dereference_gen-IsValid c g v = elim (Bool-cases (g == 0)) [
  | inl e ↦ rw e (v, refl)
  | inr e ↦ rw e (gens-IsValid c _ _ v, refl)
]

reference_item_capacity : (c : Cache) (x : ℕ) → 0 < c.capacity → 0 < (reference_item c x).capacity
unfolding reference_item
reference_item_capacity c x h = h

dereference_item_capacity :
    (c : Cache) (x : ℕ) → 0 < c.capacity → 0 < (dereference_item c x).capacity
unfolding dereference_item
dereference_item_capacity c x h = ground arith

quick_expire_item_capacity :
    (c : Cache) (x : ℕ) → 0 < c.capacity → 0 < (quick_expire_item c x).capacity
unfolding quick_expire_item
quick_expire_item_capacity c x h = h

-- The invariant, and a cache that can hold an item.
pub record IsSound (w : World) : Type 0 where
  pub valid : IsValid w.refs w.cache
  pub capacity : 0 < w.cache.capacity

run-IsSound : (rtl : Rtl) (w : World) (a : Call) → IsSound w → Allowed w a → IsSound (run rtl w a)
unfolding run
run-IsSound rtl w (get now parent name) s e =
    let k = get_entry-Keeps rtl w.cache now parent name s.valid in
    record { valid = k.valid; capacity = omega (arith, k.capacity, s.capacity) }
run-IsSound rtl w (set now parent name entry new) s e =
    let k = set_entry-Stores rtl w.cache now parent name entry new s.valid e s.capacity in
    record { valid = k.valid; capacity = omega (arith, k.capacity, s.capacity) }
run-IsSound rtl w (remove parent name) s e =
    let k = remove_entry-Keeps rtl w.cache parent name s.valid in
    record { valid = k.valid; capacity = omega (arith, k.capacity, s.capacity) }
run-IsSound rtl w (reference x) s e = record {
  valid = reference_item-IsValid w.cache x s.valid e.0 e.1;
  capacity = reference_item_capacity w.cache x s.capacity;
}
run-IsSound rtl w (dereference x) s e = record {
  valid = dereference_item-IsValid w.cache x s.valid e.0 e.1;
  capacity = dereference_item_capacity w.cache x s.capacity;
}
run-IsSound rtl w (quick_expire x) s e = record {
  valid = quick_expire_item-IsValid w.cache x s.valid;
  capacity = quick_expire_item_capacity w.cache x s.capacity;
}
run-IsSound rtl w (reference_generation now new) s e =
    let (v, same) = reference_gen-IsValid w.cache now new s.valid in
    record { valid = v; capacity = omega (arith, same, s.capacity) }
run-IsSound rtl w (dereference_generation g) s e =
    let (v, same) = dereference_gen-IsValid w.cache g s.valid in
    record { valid = v; capacity = omega (arith, same, s.capacity) }
run-IsSound rtl w (expire time success) s e =
    let r = expiration_routine-Swept w.refs w.cache time success s.valid in
    record { valid = r.valid; capacity = omega (arith, r.capacity, s.capacity) }

Reach-IsSound : (rtl : Rtl) {w t : World} → IsSound w → Reach rtl w t → IsSound t
Reach-IsSound rtl s here = s
Reach-IsSound rtl s (step {t} r a e) = run-IsSound rtl t a (Reach-IsSound rtl s r) e

abbrev pub initial : Cache → World
initial c = record { cache = c; refs = λ _. 0 }

-- The capacity that FuseCacheCreate takes.
abbrev capacity_or_default : ℕ → ℕ → ℕ
capacity_or_default header capacity =
    if capacity == 0 then ((page_size - header) / 8 * 3 / 4) else capacity

capacity_or_default_bounds :
    (header capacity : ℕ)
    → 0 < header
    → header ≤ 2048
    → capacity < 2 ^ 28
    → (0 < capacity_or_default header capacity) × (capacity_or_default header capacity < 2 ^ 28)
capacity_or_default_bounds header capacity h small fits = elim (Bool-cases (capacity == 0)) [
  | inl z ↦ rw z (omega arith, omega arith)
  | inr n ↦ rw n (ground arith, fits)
]

-- A capacity asks for at least one bucket.
some_bucket_for :
    (header k : ℕ)
    → header ≤ 2048
    → 0 < k
    → k < 2 ^ 28
    → 0 < (page_align (((k * 4) % 2 ^ 32 / 3 * 8 + header) % 2 ^ 32) % 2 ^ 32 - header) / 8
some_bucket_for header k small pos fits = omega arith

initial-IsSound :
    (header : ℕ) (gens : ℕ → Gen) (items : ℕ → Item) (capacity : ℕ) (ci : Bool) (c : Cache)
    → 0 < header
    → header ≤ 2048
    → capacity < 2 ^ 28
    → cache_create header gens items capacity ci true ≡ some c
    → IsSound (initial c)
unfolding cache_create home count
initial-IsSound header gens items capacity ci c some_header small fits e =
    let b = capacity_or_default_bounds header capacity some_header small fits in
    subst (λ k. IsSound (initial k)) (some-injective _ _ e)
      (record {
        valid = record {
          some_bucket = some_bucket_for header _ small b.0 b.1;
          width = length-replicate _ _;
          placed = replicate-IsPlaced _ _;
          counted = refl;
          bounded = omega arith;
          capacity_fits = omega (arith, b.1);
          once = λ x. omega arith;
          referenced = λ x h. absurd (omega arith);
          refs_fit = λ x. omega arith;
          timed = λ x h. absurd (omega arith);
          unreferenced = λ x h. refl;
        };
        capacity = b.0;
      })

-- From the cache that FuseCacheCreate makes, for a capacity below 2 ^ 28 (0 asks for the default) and
-- a header of 1 to 2048 bytes, whatever calls follow in whatever order, where a new item is at an
-- unused address, and a file takes references only on an item that is cached or that a file refers to,
-- and gives up only references that it has: the invariant of the cache holds. So each chain holds the
-- items of its hashes, the count is right and never above the capacity, no item is on two lists or
-- twice on one, the reference count of an item is that of the files and the cache, and no file
-- refers to an item that waits to be forgotten.
pub cache-IsSound :
    (rtl : Rtl) (header : ℕ) (gens : ℕ → Gen) (items : ℕ → Item) (capacity : ℕ) (ci : Bool)
    (c : Cache) {w : World}
    → 0 < header
    → header ≤ 2048
    → capacity < 2 ^ 28
    → cache_create header gens items capacity ci true ≡ some c
    → Reach rtl (initial c) w
    → IsSound w
cache-IsSound rtl header gens items capacity ci c h small fits e r =
    Reach-IsSound rtl (initial-IsSound header gens items capacity ci c h small fits e) r
