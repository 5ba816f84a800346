-- ===== src/Cache/Tests.antt =====
-- The theorems about the cache at a concrete history, with a system whose upper case is that of
-- ASCII.
use winfuse.Base.{
  ℕ, ◌+◌, ◌-◌, ◌≤◌, ◌<◌, ◌≡◌, ◌↔◌, ap, subst, sym, ◌∙◌, refl, Bool, true, false, ◌&&◌, some, List,
  [], ◌∷◌, arith, map, leb, ◌==◌, if◌then◌else◌, replicate, count, ==_refl,
}
use winfuse.Cache.{Attr, Cache, Entry, Gen, Item, Rtl}
use winfuse.Cache.Entries.{get_entry, set_entry, expiration_of, reference_item, dereference_item}
use winfuse.Cache.Expiry.{cache_create, expiration_routine}
use winfuse.Cache.Gens.{reference_gen}
use winfuse.Cache.Got.{Gets, get_entry-Gets}
use winfuse.Cache.History.{
  World, initial, run, Reach, here, step, set, reference_generation, IsSound, cache-IsSound,
}
use winfuse.Cache.InUse.{reference_gen-IsOrdered, used_item_stays, AreTimes}
use winfuse.Cache.Items.{forget_time, forget_next_item}
use winfuse.Cache.Late.{referenced_too_late}
use winfuse.Cache.Meaning.{get_entry-set_entry}
use winfuse.Cache.Oldest.{IsOrdered, Rising}
use winfuse.Cache.Routine.{Swept, expiration_routine-Swept}
use winfuse.Cache.Store.{Stores, set_entry-Stores}
use winfuse.Cache.Valid.{IsFresh}

abbrev pub ascii_upper : ℕ → ℕ
ascii_upper c = if leb b'a' c && leb c b'z' then c - 32 else c

abbrev pub same_chars : List ℕ → List ℕ → Bool
same_chars [] [] = true
same_chars [] (y ∷ ys) = false
same_chars (x ∷ xs) [] = false
same_chars (x ∷ xs) (y ∷ ys) = x == y && same_chars xs ys

same_chars_refl : (xs : List ℕ) → same_chars xs xs ≡ true
same_chars_refl [] = refl
same_chars_refl (x ∷ xs) = rw (==_refl, same_chars_refl xs) refl

same_chars-eq : (xs ys : List ℕ) → same_chars xs ys ≡ true → xs ≡ ys
same_chars-eq [] [] e = refl
same_chars-eq [] (y ∷ ys) e = absurd (cc)
same_chars-eq (x ∷ xs) [] e = absurd (cc)
same_chars-eq (x ∷ xs) (y ∷ ys) e =
    let first : x ≡ y = ground arith in
    let rest : xs ≡ ys = same_chars-eq xs ys (ground arith) in cc

pub same_chars_iff : (xs ys : List ℕ) → (same_chars xs ys ≡ true) ↔ (xs ≡ ys)
same_chars_iff xs ys = (same_chars-eq xs ys, λ e. rw e (same_chars_refl ys))

abbrev pub ascii : Rtl
ascii = record {
  upper_char = ascii_upper;
  equal_string =
      λ a b ci. if ci then same_chars (map ascii_upper a) (map ascii_upper b) else same_chars a b;
  equal_exact = λ a b. same_chars_iff a b;
  equal_upper = λ a b. same_chars_iff (map ascii_upper a) (map ascii_upper b);
}

abbrev pub some_attr : Attr
some_attr = record {
  ino = 7;
  size = 0;
  blocks = 0;
  atime = 0;
  mtime = 0;
  ctime = 0;
  atimensec = 0;
  mtimensec = 0;
  ctimensec = 0;
  mode = 0o100644;
  nlink = 1;
  uid = 0;
  gid = 0;
  rdev = 0;
  blksize = 0;
}

-- An entry that is valid for a second, for the name "a" in the root.
abbrev pub some_entry : Entry
some_entry = record {
  nodeid = 7;
  generation = 0;
  entry_valid = 1;
  attr_valid = 1;
  entry_valid_nsec = 0;
  attr_valid_nsec = 0;
  attr = some_attr;
}

abbrev some_name : List ℕ
some_name = b'a' ∷ []

abbrev no_gens : ℕ → Gen
no_gens g = record { ref_count = 0; interrupt_time = 0 }

abbrev no_items : ℕ → Item
no_items x = record {
  no_forget = false;
  hash = 0;
  parent_ino = 0;
  name = [];
  nlookup = 0;
  expiration_time = 0;
  last_used_time = 0;
  entry = some_entry;
  quick_expiry = 0;
  ref_count = 0;
}

-- The cache for 100 entries, behind a header of 160 bytes.
abbrev pub fresh : Cache
fresh = record {
  capacity = 100;
  case_insensitive = false;
  gen_list = [];
  item_list = [];
  forget_list = [];
  item_count = 0;
  item_bucket_count = 492;
  item_buckets = replicate 492 [];
  gens = no_gens;
  items = no_items;
}

fresh_created : cache_create 160 no_gens no_items 100 false true ≡ some fresh
unfolding cache_create
fresh_created = refl

-- Two seconds, in units of 100 nanoseconds.
abbrev start : ℕ
start = 20000000

abbrev address : ℕ
address = 0x10000

abbrev gen_address : ℕ
gen_address = 0x20000

fresh-IsFresh : IsFresh (λ _. 0) fresh address
unfolding count
fresh-IsFresh = record { uncached = refl; unforgotten = refl; unshared = refl }

-- The entry is set, and a generation begins.
abbrev with_entry : World
with_entry = run ascii (initial fresh) (set start 1 some_name some_entry address)

abbrev with_gen : World
with_gen = run ascii with_entry (reference_generation start (some gen_address))

with_entry-Reach : Reach ascii (initial fresh) with_entry
with_entry-Reach = step here (set start 1 some_name some_entry address) fresh-IsFresh

with_gen-Reach : Reach ascii (initial fresh) with_gen
with_gen-Reach = step with_entry-Reach (reference_generation start (some gen_address)) tt

with_gen-IsSound : IsSound with_gen
with_gen-IsSound =
    cache-IsSound ascii 160 no_gens no_items 100 false fresh (omega arith) (omega arith)
      (omega arith) fresh_created with_gen-Reach

cache-IsSound_example : IsSound with_gen
cache-IsSound_example =
    cache-IsSound ascii 160 no_gens no_items 100 false fresh (omega arith) (omega arith)
      (omega arith) fresh_created with_gen-Reach

fresh-IsSound : IsSound (initial fresh)
fresh-IsSound =
    cache-IsSound ascii 160 no_gens no_items 100 false fresh (omega arith) (omega arith)
      (omega arith) fresh_created here

expiration_routine-Swept_example :
    Swept with_gen.refs with_gen.cache 50000000 true
      (expiration_routine with_gen.cache 50000000 true)
expiration_routine-Swept_example =
    expiration_routine-Swept with_gen.refs with_gen.cache 50000000 true with_gen-IsSound.valid

fresh-Stores :
    let r = set_entry ascii fresh start 1 some_name some_entry address in
    Stores (λ _. 0) fresh r.0 r.1
fresh-Stores =
    set_entry-Stores ascii fresh start 1 some_name some_entry address fresh-IsSound.valid
      fresh-IsFresh (omega arith)

-- Half a second later the entry is still there.
in_time : 25000000 < expiration_of start some_entry
unfolding expiration_of
in_time = omega arith

fresh_got :
    let r = set_entry ascii fresh start 1 some_name some_entry address in
    (get_entry ascii r.0 25000000 1 some_name).1 ≡ some (some_entry, r.1)
fresh_got =
    get_entry-set_entry ascii (λ _. 0) fresh start 25000000 1 some_name some_entry address
      fresh-IsSound.valid fresh-IsFresh (omega arith) in_time

get_entry-set_entry_example :
    let r = set_entry ascii fresh start 1 some_name some_entry address in
    (get_entry ascii r.0 25000000 1 some_name).1 ≡ some (some_entry, r.1)
get_entry-set_entry_example =
    get_entry-set_entry ascii (λ _. 0) fresh start 25000000 1 some_name some_entry address
      fresh-IsSound.valid fresh-IsFresh (omega arith) in_time

get_entry-Gets_example :
    let r = set_entry ascii fresh start 1 some_name some_entry address in
    Gets ascii r.0 (get_entry ascii r.0 25000000 1 some_name).0 25000000 1 some_name some_entry r.1
get_entry-Gets_example =
    get_entry-Gets ascii (λ _. 0) (set_entry ascii fresh start 1 some_name some_entry address).0
      25000000 1 some_name some_entry (set_entry ascii fresh start 1 some_name some_entry address).1
      fresh-Stores.valid fresh_got

fresh-IsOrdered : IsOrdered fresh
unfolding count
fresh-IsOrdered = record { rising = tt; distinct = λ g. omega arith }

unused_gen : (new : ℕ) → some gen_address ≡ some new → count new fresh.gen_list ≡ 0
unfolding count
unused_gen new e = refl

fresh_gen-IsOrdered : IsOrdered (reference_gen fresh start (some gen_address)).0
fresh_gen-IsOrdered =
    reference_gen-IsOrdered fresh start (some gen_address) fresh-IsOrdered unused_gen

-- An item that has expired and waits to be forgotten, as an open request may find it.
abbrev waiting : Cache
waiting = record fresh { forget_list = address ∷ [] }

waiting_late : (waiting.items address).last_used_time ≤ forget_time waiting 30000000
unfolding forget_time
waiting_late = omega arith

referenced_too_late_example :
    (((reference_item waiting address).items address).ref_count ≡ 1)
    × ((e : Cache) × (forget_next_item (reference_item waiting address) 30000000 []
          ≡ some (e, address ∷ [])))
    × (count address (dereference_item (reference_item waiting address) address).forget_list
        ≡ count address [] + 2)
referenced_too_late_example =
    referenced_too_late waiting 30000000 address [] (omega arith) refl refl waiting_late

gen_list_after : with_gen.cache.gen_list ≡ gen_address ∷ []
unfolding run set_entry reference_gen
gen_list_after = refl

gen_time_after : (with_gen.cache.gens gen_address).interrupt_time ≡ start
unfolding run set_entry reference_gen
gen_time_after = refl

used_after : (with_gen.cache.items address).last_used_time ≡ start
unfolding run set_entry reference_gen
used_after = refl

with_gen-IsOrdered : IsOrdered with_gen.cache
unfolding count
with_gen-IsOrdered = record {
  rising =
      subst (Rising with_gen.cache.gens) (sym gen_list_after) (λ h k. absurd (omega arith), tt);
  distinct = λ g. ground (arith, ap (count g) gen_list_after);
}

only_gen : (h : ℕ) → 0 < count h with_gen.cache.gen_list → h ≡ gen_address
unfolding count
only_gen h k = ground (arith, ap (count h) gen_list_after)

with_gen-AreTimes : AreTimes with_gen.cache
with_gen-AreTimes h k =
    let time : (with_gen.cache.gens h).interrupt_time ≡ start =
      ap (λ g. (with_gen.cache.gens g).interrupt_time) (only_gen h k) ∙ gen_time_after in
    (omega (arith, time), omega (arith, time))

gen_listed : 0 < count gen_address with_gen.cache.gen_list
unfolding count
gen_listed = omega (arith, ap (count gen_address) gen_list_after)

-- The entry has expired, and its item is not in use, but the generation keeps it.
used_item_stays_example :
    let r = expiration_routine with_gen.cache 50000000 true in
    (count address r.posted ≡ 0) × (count address r.freed ≡ 0)
used_item_stays_example =
    used_item_stays with_gen.refs with_gen.cache 50000000 true gen_address address
      with_gen-IsSound.valid with_gen-IsOrdered with_gen-AreTimes gen_listed
      (omega (arith, gen_time_after, used_after))
