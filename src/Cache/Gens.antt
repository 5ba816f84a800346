-- ===== src/Cache/Gens.antt =====
-- src/shared/km/cache.c: FuseCacheReferenceGen and FuseCacheDereferenceGen.
use winfuse.Base.{
  ℕ, ◌*◌, ◌/◌, Option, none, some, List, [], ◌∷◌, ◌++◌, ◌==◌, leb, if◌then◌else◌, erase,
}
use winfuse.Cache.{Cache, update, inc32, dec32}

-- The newest generation, GenList.Blink.
unfoldable pub last_gen : List ℕ → Option ℕ
last_gen [] = none
last_gen (g ∷ gs) = elim (last_gen gs) [ none ↦ some g | some h ↦ some h ]

-- The first section, and the beginning of the second: a reference on the newest generation, if
-- it is new enough.
unfoldable pub reference_last_gen : Cache → ℕ → Cache × Option ℕ
unfolding last_gen
reference_last_gen c time = elim (last_gen c.gen_list) [
  | none ↦ (c, none)
  | some g ↦
      if leb time (c.gens g).interrupt_time
      then (
        record c {
          gens = update c.gens g (record (c.gens g) { ref_count = inc32 (c.gens g).ref_count });
        },
        some g,
      )
      else (c, none)
]

-- The second section, with the new generation at `new`; the generation that was taken tells
-- whether the new one is freed.
unfoldable pub insert_gen : Cache → ℕ → ℕ → Cache × ℕ
unfolding reference_last_gen
insert_gen c time new = elim (reference_last_gen c time).1 [
  | some g ↦ ((reference_last_gen c time).0, g)
  | none ↦ (
    record c {
      gens = update c.gens new (record { ref_count = 1; interrupt_time = time });
      gen_list = c.gen_list ++ new ∷ [];
    },
    new,
  )
]

abbrev pub whole_seconds : ℕ → ℕ
whole_seconds now = now / 10000000 * 10000000

-- `now` is KeQueryInterruptTime; `allocated` is the address of the allocation, if it succeeds. No
-- generation is STATUS_INSUFFICIENT_RESOURCES.
unfoldable pub reference_gen : Cache → ℕ → Option ℕ → Cache × Option ℕ
unfolding reference_last_gen insert_gen
reference_gen c now allocated =
    let time = whole_seconds now in
    elim (reference_last_gen c time).1 [
      | some g ↦ ((reference_last_gen c time).0, some g)
      | none ↦ elim allocated [
        | none ↦ (c, none)
        | some new ↦ ((insert_gen c time new).0, some (insert_gen c time new).1)
      ]
    ]

-- A generation without references leaves the list, and is freed.
unfoldable pub dereference_gen : Cache → ℕ → Cache
dereference_gen c g =
    let refs = dec32 (c.gens g).ref_count in
    if g == 0 then c else record c {
      gens = update c.gens g (record (c.gens g) { ref_count = refs });
      gen_list = if refs == 0 then erase g c.gen_list else c.gen_list;
    }
