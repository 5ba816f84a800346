-- ===== src/Ioq.antt =====
-- src/shared/km/ioq.c: the queue of requests of an instance.
-- A context is its address. A LIST_ENTRY list is the list of the contexts on it, first at the head;
-- a chain of DictNext links is the list of its contexts. The fast mutex makes each function one
-- step. FuseContextDelete and the store to FuseRequest->len are effects, listed in program order.
mod Cases
pub mod Steps
pub mod Sound
pub mod Stop
pub mod Lookup
pub mod Tests
use winfuse.Base.{
  ℕ, ◌+◌, ◌-◌, ◌*◌, ◌/◌, ◌%◌, ◌≡◌, Bool, true, false, ◌&&◌, not, Option, none, some, List, [], ◌∷◌,
  ◌++◌, map, ◌==◌, if◌then◌else◌, is_empty, head?, replicate, erase, contains,
}
use winfuse.Base.Chains.{chain, link, unlink}
use winfuse.Hash.{hash_mix_pointer}

pub record Ioq : Type 0 where
  pub pending_list : List ℕ
  pub process_list : List ℕ
  pub last_context : ℕ
  pub process_bucket_count : ℕ
  pub process_buckets : List (List ℕ)

pub data Effect : Type 0 where
  clear_request_length : ℕ → Effect
  delete_context : ℕ → Effect

abbrev pub ioq_size : ℕ
ioq_size = 1024

-- `header` is the size of the structure up to the buckets, which holds a FAST_MUTEX of the system;
-- `allocated` tells whether the allocation succeeded. `none` is STATUS_INSUFFICIENT_RESOURCES.
unfoldable pub ioq_create : ℕ → Bool → Option Ioq
ioq_create header allocated =
    let bucket_count = (ioq_size - header) / 8 in
    if not allocated
    then none
    else some (record {
      pending_list = [];
      process_list = [];
      last_context = 0;
      process_bucket_count = bucket_count;
      process_buckets = replicate bucket_count [];
    })

-- The contexts that are deleted with the queue.
unfoldable pub ioq_delete : Ioq → List Effect
ioq_delete q = map delete_context q.pending_list ++ map delete_context q.process_list

pub bucket_index : Ioq → ℕ → ℕ
bucket_index q context = hash_mix_pointer context % q.process_bucket_count

pub insert_processing : Ioq → ℕ → Ioq
insert_processing q context = record q {
  process_list = q.process_list ++ context ∷ [];
  process_buckets = link q.process_buckets (bucket_index q context) context;
}

-- `has_request` tells whether FuseRequest of the context is set.
pub ioq_start_processing : Ioq → ℕ → Bool → Ioq × List Effect
unfolding insert_processing
ioq_start_processing q context has_request =
    if not (q.last_context == 0)
    then (if not (context == q.last_context)
        then (
          q,
          (if has_request then clear_request_length context ∷ [] else [])
              ++ delete_context context ∷ [],
        )
        else (insert_processing (record q { last_context = 1 }) context, []))
    else (insert_processing q context, [])

-- The response names its context by `unique`, which the file system chose.
pub ioq_end_processing : Ioq → ℕ → Ioq × Option ℕ
ioq_end_processing q unique =
    let index = bucket_index q unique in
    if contains unique (chain q.process_buckets index)
    then (
      record q {
        process_buckets = unlink q.process_buckets index unique;
        process_list = erase unique q.process_list;
      },
      some unique,
    )
    else (q, none)

pub ioq_post_pending : Ioq → ℕ → Ioq × List Effect
ioq_post_pending q context =
    if not (q.last_context == 0)
    then (q, delete_context context ∷ [])
    else (record q { pending_list = q.pending_list ++ context ∷ [] }, [])

unfoldable pub ioq_post_pending_and_stop : Ioq → ℕ → Ioq × List Effect
ioq_post_pending_and_stop q context =
    if not (q.last_context == 0) then (q, delete_context context ∷ []) else (
      record q { pending_list = context ∷ []; last_context = context },
      map delete_context q.pending_list,
    )

unfoldable pub ioq_next_pending : Ioq → Ioq × Option ℕ
ioq_next_pending q =
    if not (q.last_context == 0) && not (is_empty q.process_list)
    then (q, none)
    else elim q.pending_list [
      | [] ↦ (q, none)
      | c ∷ rest ↦ (record q { pending_list = rest }, some c)
    ]
