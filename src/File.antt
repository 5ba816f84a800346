-- ===== src/File.antt =====
-- src/shared/km/file.c: the files of an instance, and the references that they hold on items of the
-- cache. A file is its address; a cache item of 0 is none. The spin lock makes each change of the list
-- one step. The lock itself and the volume are not part of the state.
pub mod History
pub mod References
pub mod Tests
use winfuse.Base.{ℕ, ◌+◌, ◌≡◌, Bool, false, Option, none, some, List, [], ◌∷◌, ◌++◌, erase}
use winfuse.Cache.{Cache, update}
use winfuse.Cache.Entries.{dereference_item, reference_item}

-- FUSE_FILE of src/shared/km/shared.h.
pub record File : Type 0 where
  pub ino : ℕ
  pub fh : ℕ
  pub open_flags : ℕ
  pub is_directory : Bool
  pub is_reparse_point : Bool
  pub cache_item : ℕ

-- What FUSE_INSTANCE has for this component.
pub record Instance : Type 0 where
  pub cache : Cache
  pub file_list : List ℕ
  pub files : ℕ → File

abbrev pub zero_file : File
zero_file = record {
  ino = 0;
  fh = 0;
  open_flags = 0;
  is_directory = false;
  is_reparse_point = false;
  cache_item = 0;
}

-- FuseFileInstanceInit.
pub file_instance_init : Instance → Instance
file_instance_init i = record i { file_list = [] }

fini_loop : Cache → (ℕ → File) → List ℕ → Cache
fini_loop c files [] = c
fini_loop c files (f ∷ rest) = fini_loop (dereference_item c (files f).cache_item) files rest

-- FuseFileInstanceFini: the cache, and the files that are freed.
pub file_instance_fini : Instance → Cache × List ℕ
unfolding fini_loop
file_instance_fini i = (fini_loop i.cache i.files i.file_list, i.file_list)

-- FuseFileCreate; `allocated` is the address of the allocation, if it succeeds. No file is
-- STATUS_INSUFFICIENT_RESOURCES.
unfoldable pub file_create : Instance → Option ℕ → Instance × Option ℕ
file_create i none = (i, none)
file_create i (some new) = (
  record i { files = update i.files new zero_file; file_list = i.file_list ++ new ∷ [] },
  some new,
)

-- FuseFileDelete.
unfoldable pub file_delete : Instance → ℕ → Instance
file_delete i f = record i {
  file_list = erase f i.file_list;
  cache = dereference_item i.cache (i.files f).cache_item;
}

-- The end of an open or a create request in src/shared/km/fuseop.c: the file takes a reference on the
-- item that the path lookup returned.
unfoldable pub attach_item : Instance → ℕ → ℕ → Instance
attach_item i f x = record i {
  files = update i.files f (record (i.files f) { cache_item = x });
  cache = reference_item i.cache x;
}
