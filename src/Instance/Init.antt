-- ===== src/Instance/Init.antt =====
-- FuseInstanceInit of src/shared/km/instance.c: what it keeps, and what it gives back where it fails.
use winfuse.Base.{◌≡◌, refl, inl, inr, ◌&&◌, List, [], ◌∷◌, ◌++◌, if◌then◌else◌, arith, Bool-cases}
use winfuse.Cache.Expiry.{cache_create}
use winfuse.Instance.{
  Made, Freed, freed_ioq, freed_cache, InitCalls, free_cache, free_ioq, init_failed, init_post,
  init_cache, init_ioq, instance_init,
}
use winfuse.Ioq.{ioq_create}
use winfuse.Status.{nt_success}

-- The memory that the system gives: for the cache only where there is a queue.
unfoldable pub taken : InitCalls → List Freed
taken s =
    (if s.ioq_allocated && s.cache_allocated then freed_cache ∷ [] else [])
    ++ (if s.ioq_allocated then freed_ioq ∷ [] else [])

-- The memory that an instance owns.
unfoldable pub kept : Made → List Freed
unfolding free_cache free_ioq
kept m = free_cache m.cache ++ free_ioq m.ioq

-- FuseInstanceInit succeeds exactly where the system gives it a queue, a cache and a context for INIT;
-- then it keeps all that it was given, and otherwise it has given all of it back.
pub instance_init-balanced :
    (s : InitCalls)
    → let r = instance_init s in
      (nt_success r.status ≡ s.ioq_allocated && (s.cache_allocated && nt_success s.context_status))
      × (r.freed ++ kept r.made ≡ taken s)
      × (kept r.made ≡ (if nt_success r.status then taken s else []))
unfolding instance_init init_ioq init_cache init_post init_failed taken kept free_cache free_ioq
    cache_create ioq_create
instance_init-balanced s = elim (Bool-cases s.ioq_allocated) [
  | inr a ↦ rw a (refl, refl, refl)
  | inl a ↦ elim (Bool-cases s.cache_allocated) [
    | inr b ↦ rw (a, b) (refl, refl, refl)
    | inl b ↦ elim (Bool-cases (nt_success s.context_status)) [
      | inr d ↦ rw (a, b, d) (ground (arith, d), refl, ground (arith, d))
      | inl d ↦ rw (a, b, d) (refl, refl, refl)
    ]
  ]
]
