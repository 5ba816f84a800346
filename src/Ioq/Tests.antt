-- ===== src/Ioq/Tests.antt =====
-- The theorems about the queue at a concrete history.
use winfuse.Base.{
  ℕ, ◌≡◌, ◌≢◌, refl, true, false, none, some, [], ◌∷◌, arith, replicate, count, contains, erase,
}
use winfuse.Base.Chains.{replicate-IsPlaced}
use winfuse.Hash.{hash_mix_pointer}
use winfuse.Ioq.{
  Ioq, ioq_create, ioq_start_processing, ioq_end_processing, ioq_next_pending,
  ioq_post_pending_and_stop, bucket_index,
}
use winfuse.Ioq.Lookup.{ioq_end_processing_finds, take_all-post_all, post_all, take_all}
use winfuse.Ioq.Sound.{IsChained, ioq_start_processing-IsChained}
use winfuse.Ioq.Steps.{System, create, stop, next, perform, initial, Reach, here, step}
use winfuse.Ioq.Stop.{IsSound, queue-IsSound, queue_drained, last_comes_last}

-- The queue of the 64-bit driver: 115 buckets behind a header of 104 bytes.
abbrev pub fresh : Ioq
fresh = record {
  pending_list = [];
  process_list = [];
  last_context = 0;
  process_bucket_count = 115;
  process_buckets = replicate 115 [];
}

fresh_created : ioq_create 104 true ≡ some fresh
unfolding ioq_create
fresh_created = refl

fresh-IsChained : IsChained fresh
unfolding bucket_index count
fresh-IsChained = record {
  some_bucket = omega arith;
  width = refl;
  placed = replicate-IsPlaced _ 115;
}

abbrev pub destroy : ℕ
destroy = 0x10000

-- The last context is posted, and then taken.
abbrev pub stopped : System
stopped = perform (perform (initial fresh) (create destroy)) (stop destroy)

abbrev pub drained : System
drained = perform stopped next

pub stopped-Reach : Reach (initial fresh) stopped
unfolding perform count
stopped-Reach = step (step here (create destroy) (omega arith, refl)) (stop destroy) (omega arith)

drained-Reach : Reach (initial fresh) drained
drained-Reach = step stopped-Reach next tt

queue-IsSound_example : IsSound drained
queue-IsSound_example = queue-IsSound 104 fresh (omega arith) fresh_created drained-Reach

queue_drained_example :
    ((u : ℕ) → u ≢ drained.last → ioq_end_processing drained.queue u ≡ (drained.queue, none))
    × (ioq_next_pending drained.queue ≡ (drained.queue, none))
unfolding perform ioq_post_pending_and_stop ioq_next_pending
queue_drained_example =
    queue_drained 104 fresh (omega arith) fresh_created drained-Reach (omega arith) refl

last_comes_last_example :
    (destroy ≡ stopped.last) × (stopped.queue.process_list ≡ []) × (drained.queue.pending_list ≡ [])
unfolding perform ioq_post_pending_and_stop ioq_next_pending
last_comes_last_example =
    last_comes_last 104 fresh drained.queue destroy (omega arith) fresh_created stopped-Reach
      (omega arith) refl

-- One request in process.
abbrev busy : Ioq
busy = (ioq_start_processing fresh destroy false).0

busy_found : (ioq_end_processing busy destroy).1 ≡ some destroy
unfolding ioq_start_processing ioq_end_processing hash_mix_pointer contains bucket_index
busy_found = refl

busy_refused : (ioq_end_processing busy 0x20000).1 ≡ none
unfolding ioq_start_processing ioq_end_processing hash_mix_pointer contains bucket_index
busy_refused = refl

ioq_end_processing_finds_example :
    ((contains destroy busy.process_list ≡ true)
      → ((ioq_end_processing busy destroy).1 ≡ some destroy)
        × ((ioq_end_processing busy destroy).0.process_list ≡ erase destroy busy.process_list))
    × ((contains destroy busy.process_list ≡ false)
        → ioq_end_processing busy destroy ≡ (busy, none))
ioq_end_processing_finds_example =
    ioq_end_processing_finds busy destroy
      (ioq_start_processing-IsChained fresh destroy false fresh-IsChained)

take_all-post_all_example :
    take_all 2 (post_all fresh (destroy ∷ 0x20000 ∷ [])) ≡ some destroy ∷ some 0x20000 ∷ []
take_all-post_all_example = take_all-post_all fresh (destroy ∷ 0x20000 ∷ []) refl refl
