-- ===== src/Instance/Tests.antt =====
-- The theorem about FuseInstanceFini at an instance with a queued context, whose file and generation
-- are those of the instance.
use winfuse.Base.{ℕ, ◌≤◌, [], ◌∷◌, arith, count}
use winfuse.Cache.{Gen}
use winfuse.Cache.History.{gens-IsValid}
use winfuse.File.{Instance, file_create, attach_item}
use winfuse.File.History.{IsSound}
use winfuse.File.Tests.{opened, opened-IsSound, file_address}
use winfuse.Instance.{Held, instance_fini}
use winfuse.Instance.Fini.{held_files, held_gens, GensHeld, Frees, instance_fini-Frees}
use winfuse.Ioq.{Ioq, ioq_delete}
use winfuse.Ioq.Tests.{fresh}

abbrev context_address : ℕ
context_address = 0x30000

abbrev gen_address : ℕ
gen_address = 0x40000

abbrev all_held : ℕ → Held
all_held c = record { file = file_address; gen = gen_address }

abbrev one_ref : ℕ → Gen
one_ref g = record { ref_count = 1; interrupt_time = 0 }

abbrev one_queued : Ioq
one_queued = record fresh { pending_list = context_address ∷ [] }

abbrev with_generation : Instance
with_generation = record opened {
  cache = record opened.cache { gen_list = gen_address ∷ []; gens = one_ref };
}

with_generation-IsSound : IsSound with_generation
with_generation-IsSound = record {
  held = gens-IsValid opened.cache (gen_address ∷ []) one_ref opened-IsSound.held;
  once = opened-IsSound.once;
}

with_generation_files :
    (f : ℕ) → held_files all_held (ioq_delete one_queued) f ≤ count f with_generation.file_list
unfolding held_files ioq_delete count file_create attach_item
with_generation_files f = omega arith

with_generation-GensHeld :
    GensHeld (held_gens all_held (ioq_delete one_queued)) with_generation.cache
unfolding held_gens ioq_delete count
with_generation-GensHeld = record {
  listed = λ g. ground arith;
  counted = λ g p. ground arith;
  fits = λ g. ground arith;
}

instance_fini-Frees_example :
    Frees one_queued with_generation (instance_fini all_held one_queued with_generation)
instance_fini-Frees_example =
    instance_fini-Frees all_held one_queued with_generation with_generation-IsSound
      with_generation_files with_generation-GensHeld
