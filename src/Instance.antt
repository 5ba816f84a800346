-- ===== src/Instance.antt =====
-- FuseInstanceInit and FuseInstanceFini of src/shared/km/instance.c: an instance from its creation to its
-- deletion, over its queue, its files and its cache. The lock and the event have no memory of their own.
pub mod Fini
pub mod Init
pub mod Tests
use winfuse.Base.{
  ℕ, Bool, true, false, not, Option, none, some, List, [], ◌∷◌, ◌++◌, ◌==◌, if◌then◌else◌,
}
use winfuse.Cache.{Cache, Gen, Item}
use winfuse.Cache.Expiry.{cache_create, cache_delete}
use winfuse.Cache.Gens.{dereference_gen}
use winfuse.File.{Instance, zero_file, file_instance_init, file_delete, file_instance_fini}
use winfuse.Ioq.{
  Ioq, Effect, delete_context, clear_request_length, ioq_create, ioq_delete, ioq_post_pending,
}
use winfuse.Status.{nt_success, status_success, status_insufficient_resources}

-- What an instance owns while it is made; a part that is not there is a null pointer.
pub record Made : Type 0 where
  pub ioq : Option Ioq
  pub cache : Option Cache

-- Memory that is given back.
pub data Freed : Type 0 where
  freed_ioq freed_cache : Freed

unfoldable pub free_cache : Option Cache → List Freed
free_cache none = []
free_cache (some c) = freed_cache ∷ []

unfoldable pub free_ioq : Option Ioq → List Freed
free_ioq none = []
free_ioq (some q) = freed_ioq ∷ []

-- How FuseInstanceInit ends: its status, the instance, and what it has given back.
pub record Initialized : Type 0 where
  pub status : ℕ
  pub made : Made
  pub freed : List Freed

-- The end of FuseInstanceInit where it fails. What it deletes is empty but for its own memory.
unfoldable pub init_failed : ℕ → Made → Initialized
unfolding free_cache free_ioq
init_failed status m = record {
  status = status;
  made = record { ioq = none; cache = none };
  freed = free_cache m.cache ++ free_ioq m.ioq;
}

-- What the system gives to FuseInstanceInit: the sizes of the structures with a mutex, whether the
-- memory for the queue and the cache is allocated, what that memory holds, and the context that
-- FuseProtoPostInit creates, or why it cannot.
pub record InitCalls : Type 0 where
  pub ioq_header : ℕ
  pub ioq_allocated : Bool
  pub cache_header : ℕ
  pub cache_allocated : Bool
  pub gens : ℕ → Gen
  pub items : ℕ → Item
  pub context_status : ℕ
  pub context : ℕ

-- FuseProtoPostInit, and the end of FuseInstanceInit.
unfoldable pub init_post : InitCalls → Ioq → Cache → Initialized
unfolding init_failed
init_post s q c =
    if not (nt_success s.context_status)
    then init_failed s.context_status (record { ioq = some q; cache = some c })
    else record {
      status = status_success;
      made = record { ioq = some (ioq_post_pending q s.context).0; cache = some c };
      freed = [];
    }

unfoldable pub init_cache : InitCalls → Ioq → Option Cache → Initialized
unfolding init_failed init_post
init_cache s q none =
    init_failed status_insufficient_resources (record { ioq = some q; cache = none })
init_cache s q (some c) = init_post s q c

unfoldable pub init_ioq : InitCalls → Option Ioq → Initialized
unfolding init_failed init_cache
init_ioq s none = init_failed status_insufficient_resources (record { ioq = none; cache = none })
init_ioq s (some q) =
    init_cache s q (cache_create s.cache_header s.gens s.items 0 false s.cache_allocated)

-- FuseInstanceInit; the names of the cache are case sensitive.
unfoldable pub instance_init : InitCalls → Initialized
unfolding init_ioq
instance_init s = init_ioq s (ioq_create s.ioq_header s.ioq_allocated)

-- What the Fini of a context gives up: the file of a CREATE or a CLOSE, and a generation of the cache;
-- 0 is none.
pub record Held : Type 0 where
  pub file : ℕ
  pub gen : ℕ

-- The Fini of a context, of src/shared/km/fuseop.c.
unfoldable pub context_fini : Held → Instance → Instance
context_fini h i =
    let j = (if h.file == 0 then i else file_delete i h.file) in
    record j { cache = dereference_gen j.cache h.gen }

abbrev pub file_of : Held → List ℕ
file_of h = if h.file == 0 then [] else h.file ∷ []

-- The deletion of the contexts of a queue, and the files that are freed with them.
unfoldable pub delete_contexts : (ℕ → Held) → List Effect → Instance → Instance × List ℕ
unfolding context_fini
delete_contexts held [] i = (i, [])
delete_contexts held (clear_request_length c ∷ es) i = delete_contexts held es i
delete_contexts held (delete_context c ∷ es) i =
    let (j, files) = delete_contexts held es (context_fini (held c) i) in
    (j, file_of (held c) ++ files)

-- What FuseInstanceFini has done: the contexts and the files that it has freed, the cache when it is
-- deleted, and the generations and items that are freed with it.
pub record Finalized : Type 0 where
  pub contexts : List Effect
  pub files : List ℕ
  pub cache : Cache
  pub memory : List ℕ

-- FuseInstanceFini, where a context `c` has what `held c` says.
unfoldable pub instance_fini : (ℕ → Held) → Ioq → Instance → Finalized
unfolding delete_contexts
instance_fini held q i =
    let (j, files) = delete_contexts held (ioq_delete q) i in
    let (c, more) = file_instance_fini j in
    record { contexts = ioq_delete q; files = files ++ more; cache = c; memory = cache_delete c }
