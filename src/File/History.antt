-- ===== src/File/History.antt =====
-- src/shared/km/file.c: the calls on the files of an instance, in any order. Each is one step, as the
-- spin lock and the fast mutex make them.
use winfuse.Base.{
  ℕ, ◌+◌, ◌^◌, ◌<◌, ◌≤◌, ◌≡◌, Option, some, none, refl, arith, count, count-push, count-erase,
}
use winfuse.Cache.Valid.{IsValid}
use winfuse.File.{Instance, file_instance_fini, file_create, file_delete, attach_item}
use winfuse.File.References.{
  references, file_create-IsValid, file_delete-IsValid, file_instance_fini-IsValid,
  attach_item-IsValid,
}

-- FuseFileCreate at an unused address or without memory, an open request that gives a file without an
-- item one that is cached or in use, and FuseFileDelete of a file of the list.
pub data Step : Instance → Instance → Type 0 where
  create :
      (i : Instance) (allocated : Option ℕ)
      → ((new : ℕ) → allocated ≡ some new → count new i.file_list ≡ 0)
      → Step i (file_create i allocated).0
  attach :
      (i : Instance) (f x : ℕ)
      → 0 < count f i.file_list
      → (i.files f).cache_item ≡ 0
      → 0 < x
      → 0 < count x i.cache.item_list + references i.files i.file_list x
      → references i.files i.file_list x + 2 < 2 ^ 32
      → Step i (attach_item i f x)
  delete : (i : Instance) (f : ℕ) → 0 < count f i.file_list → Step i (file_delete i f)

-- What calls can make of an instance.
pub data Reach (i : Instance) : Instance → Type 0 where
  here : Reach i i
  later : {j k : Instance} → Reach i j → Step j k → Reach i k

-- The references on items are those of the files, the cache is valid, and no file is listed twice.
pub record IsSound (i : Instance) : Type 0 where
  pub held : IsValid (references i.files i.file_list) i.cache
  pub once : (f : ℕ) → count f i.file_list ≤ 1

pub step-IsSound : {i j : Instance} → Step i j → IsSound i → IsSound j
unfolding file_create file_delete attach_item count
step-IsSound (create i none unused) s = s
step-IsSound (create i (some new) unused) s = record {
  held = file_create-IsValid i (some new) s.held unused;
  once = λ f. ground (arith, s.once f, unused new refl, count-push f new i.file_list);
}
step-IsSound (attach i f x listed null pos cached small) s = record {
  held = attach_item-IsValid i f x s.held (ground (arith, s.once f)) null pos cached small;
  once = s.once;
}
step-IsSound (delete i f listed) s = record {
  held = file_delete-IsValid i f s.held listed;
  once = λ g. ground (arith, s.once g, count-erase g f i.file_list);
}

pub reach-IsSound : {i j : Instance} → Reach i j → IsSound i → IsSound j
reach-IsSound here s = s
reach-IsSound (later r t) s = step-IsSound t (reach-IsSound r s)

-- From an instance where the references on items are those of the files, the cache is valid and no
-- file is listed twice, any sequence of FuseFileCreate at unused addresses, of opens that give a file
-- without an item one that is cached or in use, with room in its count, and of FuseFileDelete of
-- listed files keeps all of this; and FuseFileInstanceFini then leaves a valid cache that no file
-- refers to.
pub files-IsSound :
    {i j : Instance} → Reach i j → IsSound i → IsSound j × IsValid (λ _. 0) (file_instance_fini j).0
files-IsSound {j = j} r s =
    let sound = reach-IsSound r s in (sound, file_instance_fini-IsValid j sound.held)
