-- ===== src/File/Tests.antt =====
-- The theorems about files at a concrete instance, whose cache is fresh but for an item on it.
use winfuse.Base.{ℕ, ◌+◌, ◌^◌, ◌<◌, ◌≤◌, ◌≡◌, false, some, [], ◌∷◌, refl, arith, count}
use winfuse.Cache.{Cache, Item}
use winfuse.Cache.Tests.{some_entry}
use winfuse.Cache.Valid.{IsValid, home}
use winfuse.File.{Instance, zero_file, file_create, file_delete, file_instance_fini, attach_item}
use winfuse.File.References.{references}
use winfuse.File.History.{
  Reach, IsSound, create, attach, delete, here, later, reach-IsSound, files-IsSound,
}

-- Every item has the one reference of the cache.
abbrev some_items : ℕ → Item
some_items x = record {
  no_forget = false;
  hash = 0;
  parent_ino = 1;
  name = b'a' ∷ [];
  nlookup = 1;
  expiration_time = 30000000;
  last_used_time = 20000000;
  entry = some_entry;
  quick_expiry = 0;
  ref_count = 1;
}

abbrev item_address : ℕ
item_address = 0x10000

abbrev pub file_address : ℕ
file_address = 0x20000

-- A cache of one chain, with one item.
abbrev one_item : Cache
one_item = record {
  capacity = 10;
  case_insensitive = false;
  gen_list = [];
  item_list = item_address ∷ [];
  forget_list = [];
  item_count = 1;
  item_bucket_count = 1;
  item_buckets = (item_address ∷ []) ∷ [];
  gens = λ g. record { ref_count = 0; interrupt_time = 0 };
  items = some_items;
}

abbrev instance_of_none : Instance
instance_of_none = record { cache = one_item; file_list = []; files = λ f. zero_file }

one_item-IsValid : IsValid (references (λ f. zero_file) []) one_item
unfolding home references count
one_item-IsValid = record {
  some_bucket = omega arith;
  width = refl;
  placed = λ x i. ground arith;
  counted = refl;
  bounded = omega arith;
  capacity_fits = omega arith;
  once = λ x. ground arith;
  referenced = λ x h. ground arith;
  refs_fit = λ x. omega arith;
  timed = λ x h. omega arith;
  unreferenced = λ x h. refl;
}

unused_file : (new : ℕ) → some file_address ≡ some new → count new instance_of_none.file_list ≡ 0
unfolding count
unused_file new e = refl

-- The new file opens the item.
abbrev pub with_file : Instance
with_file = (file_create instance_of_none (some file_address)).0

abbrev pub opened : Instance
opened = attach_item with_file file_address item_address

with_file_listed_once : 0 < count file_address with_file.file_list
unfolding file_create count
with_file_listed_once = omega arith

with_file_null : (with_file.files file_address).cache_item ≡ 0
unfolding file_create
with_file_null = refl

with_file_listed :
    0
    < count item_address with_file.cache.item_list
      + references with_file.files with_file.file_list item_address
unfolding file_create count references
with_file_listed = omega arith

with_file_small : references with_file.files with_file.file_list item_address + 2 < 2 ^ 32
unfolding file_create references
with_file_small = omega arith

opened_listed : 0 < count file_address opened.file_list
unfolding file_create attach_item count
opened_listed = omega arith

none_once : (f : ℕ) → count f instance_of_none.file_list ≤ 1
unfolding count
none_once f = omega arith

opened-Reach : Reach instance_of_none opened
opened-Reach = later (later here (create instance_of_none (some file_address) unused_file)) (
    attach with_file file_address item_address with_file_listed_once with_file_null (omega arith)
      with_file_listed with_file_small)

pub opened-IsSound : IsSound opened
opened-IsSound = reach-IsSound opened-Reach (record { held = one_item-IsValid; once = none_once })

-- A file is created, opened and deleted.
one_file : Reach instance_of_none (file_delete opened file_address)
one_file = later opened-Reach (delete opened file_address opened_listed)

files-IsSound_example :
    IsSound (file_delete opened file_address)
    × IsValid (λ _. 0) (file_instance_fini (file_delete opened file_address)).0
files-IsSound_example =
    files-IsSound one_file (record { held = one_item-IsValid; once = none_once })
