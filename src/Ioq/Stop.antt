-- ===== src/Ioq/Stop.antt =====
-- The end of the queue of src/shared/km/ioq.c: what FuseIoqPostPendingAndStop brings about.
use winfuse.Base.{
  ℕ, ◌+◌, ◌<◌, ◌≤◌, ◌≡◌, ◌≢◌, ◌⊎◌, inl, inr, refl, ap, subst, Bool, true, none, some, List, [], ◌∷◌,
  arith, ◌==◌, if◌then◌else◌, count, count-push, count-erase, contains-count, length-replicate,
}
use mathlib.Core.Option.{some-injective}
use winfuse.Base.Chains.{replicate-IsPlaced}
use winfuse.Ioq.{
  Ioq, ioq_end_processing, ioq_next_pending, insert_processing, ioq_create, ioq_size, bucket_index,
}
use winfuse.Ioq.Cases.{start_cases, end_cases, post_cases, stop_cases, next_cases}
use winfuse.Ioq.Sound.{IsChained, IsOwned, perform-IsChained, perform-IsOwned, end_found}
use winfuse.Ioq.Steps.{
  System, Action, create, discard, start, finish, post, stop, next, Enabled, perform, Reach, here,
  step, initial,
}

abbrev pub Only : ℕ → List ℕ → Type 0
Only a l = (x : ℕ) → x ≢ a → count x l ≡ 0

-- No stop yet; the last context waits in the Pending list, alone; or it has been taken from there,
-- and nothing but it is in process.
pub data Phase (q : Ioq) (last : ℕ) : Type 0 where
  running : q.last_context ≡ 0 → Phase q last
  waiting : 0xffff < last → q.last_context ≡ last → q.pending_list ≡ last ∷ [] → Phase q last
  drained :
      0xffff < last
      → (q.last_context ≡ last) ⊎ (q.last_context ≡ 1)
      → q.pending_list ≡ []
      → Only last q.process_list
      → Phase q last

held_address : (s : System) (c : ℕ) → IsOwned s → 0 < count c s.held → 0xffff < c
held_address s c v h = v.address c (omega (arith, v.owned c))

-- What waits alone in the Pending list is in no thread's hands.
pending_not_held :
    (s : System) → IsOwned s → s.queue.pending_list ≡ s.last ∷ [] → 0 < count s.last s.held → ⊥
unfolding count
pending_not_held s v p h = ground (arith, v.owned s.last, v.once s.last, ap (count s.last) p)

start-Phase :
    (s : System) (c : ℕ) (b : Bool)
    → IsOwned s
    → 0 < count c s.held
    → Phase s.queue s.last
    → Phase (perform s (start c b)).queue s.last
unfolding perform insert_processing
start-Phase s c b v e (running z) =
    start_cases s.queue (λ r. Phase r.0 s.last) c b (λ _. running z) (λ n _. absurd (n z))
      (λ n _. absurd (n z))
start-Phase s c b v e (waiting big z p) =
    start_cases s.queue (λ r. Phase r.0 s.last) c b (λ n. absurd (omega arith))
      (λ _ m. absurd (pending_not_held s v p (ground arith))) (λ _ _. waiting big z p)
start-Phase s c b v e (drained big z p o) =
    start_cases s.queue (λ r. Phase r.0 s.last) c b (λ n. absurd (ground arith))
      (λ _ m.
        drained big (inr refl) p
          (λ x d. ground (arith, o x d, count-push x c s.queue.process_list, held_address s c v e)))
      (λ _ _. drained big z p o)

finish-Phase :
    (s : System) (u : ℕ) → Phase s.queue s.last → Phase (perform s (finish u)).queue s.last
unfolding perform
finish-Phase s u (running z) =
    end_cases s.queue (λ r. Phase r.0 s.last) u (λ _. running z) (λ _. running z)
finish-Phase s u (waiting big z p) =
    end_cases s.queue (λ r. Phase r.0 s.last) u (λ _. waiting big z p) (λ _. waiting big z p)
finish-Phase s u (drained big z p o) =
    end_cases s.queue (λ r. Phase r.0 s.last) u
      (λ _. drained big z p (λ x d. omega (arith, o x d, count-erase x u s.queue.process_list)))
      (λ _. drained big z p o)

post-Phase : (s : System) (c : ℕ) → Phase s.queue s.last → Phase (perform s (post c)).queue s.last
unfolding perform
post-Phase s c (running z) =
    post_cases s.queue (λ r. Phase r.0 s.last) c (λ _. running z) (λ _. running z)
post-Phase s c (waiting big z p) =
    post_cases s.queue (λ r. Phase r.0 s.last) c (λ n. absurd (omega arith)) (λ _. waiting big z p)
post-Phase s c (drained big z p o) =
    post_cases s.queue (λ r. Phase r.0 s.last) c (λ n. absurd (ground arith))
      (λ _. drained big z p o)

next-Phase : (s : System) → Phase s.queue s.last → Phase (perform s next).queue s.last
unfolding perform count
next-Phase s (running z) =
    next_cases s.queue (λ r. Phase r.0 s.last) (running z) (λ _ c rest e. running z)
next-Phase s (waiting big z p) =
    next_cases s.queue (λ r. Phase r.0 s.last) (waiting big z p)
      (λ d c rest e. drained big (inl z) (cc) (only d))
  where
    only :
        (s.queue.last_context ≡ 0) ⊎ (s.queue.process_list ≡ []) → Only s.last s.queue.process_list
    only (inl n) = absurd (omega arith)
    only (inr n) = λ x d. rw n refl
next-Phase s (drained big z p o) =
    next_cases s.queue (λ r. Phase r.0 s.last) (drained big z p o) (λ _ c rest e. absurd (cc))

stop-Phase :
    (s : System) (c : ℕ)
    → IsOwned s
    → 0 < count c s.held
    → Phase s.queue s.last
    → Phase (perform s (stop c)).queue (perform s (stop c)).last
unfolding perform
stop-Phase s c v e h =
    stop_cases s.queue (λ r. Phase r.0 (if s.queue.last_context == 0 then c else s.last)) c
      (λ z.
        let t : (if s.queue.last_context == 0 then c else s.last) ≡ c = ground arith in
        rw t (waiting (held_address s c v e) refl refl))
      (λ n.
        let t : (if s.queue.last_context == 0 then c else s.last) ≡ s.last = ground arith in rw t h)

perform-Phase :
    (s : System) (a : Action)
    → IsOwned s
    → Enabled s a
    → Phase s.queue s.last
    → Phase (perform s a).queue (perform s a).last
unfolding perform
perform-Phase s (create c) v e h = h
perform-Phase s (discard c) v e h = h
perform-Phase s (start c b) v e h = start-Phase s c b v e h
perform-Phase s (finish u) v e h = finish-Phase s u h
perform-Phase s (post c) v e h = post-Phase s c h
perform-Phase s (stop c) v e h = stop-Phase s c v e h
perform-Phase s next v e h = next-Phase s h

pub record IsSound (s : System) : Type 0 where
  pub chained : IsChained s.queue
  pub owned : IsOwned s
  pub phase : Phase s.queue s.last

Reach-IsSound : {s t : System} → IsSound s → Reach s t → IsSound t
Reach-IsSound v here = v
Reach-IsSound v (step {t} r a e) =
    let w = Reach-IsSound v r in
    record {
      chained = perform-IsChained t a w.chained;
      owned = perform-IsOwned t a w.chained w.owned e;
      phase = perform-Phase t a w.owned e w.phase;
    }

initial-IsSound :
    (header : ℕ) (q : Ioq)
    → header + 8 ≤ ioq_size
    → ioq_create header true ≡ some q
    → IsSound (initial q)
unfolding ioq_create count bucket_index
initial-IsSound header q h e =
    subst (λ k. IsSound (initial k)) (some-injective _ _ e)
      (record {
        chained = record {
          some_bucket = omega arith;
          width = length-replicate _ _;
          placed = replicate-IsPlaced _ _;
        };
        owned = record {
          owned = λ x. refl;
          once = λ x. omega arith;
          address = λ x h. absurd (omega arith);
        };
        phase = running refl;
      })

-- From the queue that FuseIoqCreate makes, with room for a bucket, whatever threads do that put, post
-- and delete only contexts in their hands, and create them at unused addresses: each context that is allocated
-- stands in exactly one of the Pending list, the Process list and the hands of one thread, and
-- nothing else stands there, so that none is leaked, deleted twice or left on a list when it is
-- deleted; the DictNext chains hold the contexts in process, each in the chain of its hash; and the
-- queue is in one of three phases: not stopped, with the last context alone in the Pending list, or
-- with that context taken from there and no other in process.
pub queue-IsSound :
    (header : ℕ) (q : Ioq) {s : System}
    → header + 8 ≤ ioq_size
    → ioq_create header true ≡ some q
    → Reach (initial q) s
    → IsSound s
queue-IsSound header q h e r = Reach-IsSound (initial-IsSound header q h e) r

Only-last :
    (q : Ioq) (last : ℕ)
    → Phase q last
    → q.last_context ≢ 0
    → q.pending_list ≡ []
    → Only last q.process_list
Only-last q last (running z) stopped p = absurd (stopped z)
Only-last q last (waiting big z p') stopped p = cc
Only-last q last (drained big z p' o) stopped p = o

last_taken :
    (q : Ioq) (last c : ℕ) (rest : List ℕ)
    → Phase q last
    → q.last_context ≢ 0
    → (q.last_context ≡ 0) ⊎ (q.process_list ≡ [])
    → q.pending_list ≡ c ∷ rest
    → (c ≡ last) × (q.process_list ≡ []) × (rest ≡ [])
last_taken q last c rest (running z) stopped d e = absurd (stopped z)
last_taken q last c rest (waiting big z p) stopped (inl n) e = absurd (stopped n)
last_taken q last c rest (waiting big z p) stopped (inr n) e = (cc, n, cc)
last_taken q last c rest (drained big z p o) stopped d e = cc

-- In a stopped queue, in any state that the threads can reach from FuseIoqCreate, whose Pending list
-- is empty: no response but one to the last context finds a context, and nothing is pending.
pub queue_drained :
    (header : ℕ) (q : Ioq) {s : System}
    → header + 8 ≤ ioq_size
    → ioq_create header true ≡ some q
    → Reach (initial q) s
    → s.queue.last_context ≢ 0
    → s.queue.pending_list ≡ []
    → ((u : ℕ) → u ≢ s.last → ioq_end_processing s.queue u ≡ (s.queue, none))
      × (ioq_next_pending s.queue ≡ (s.queue, none))
queue_drained header q {s} h e r stopped p =
    let v = queue-IsSound header q h e r in
    (
      λ u d.
          end_cases s.queue (λ k. k ≡ (s.queue, none)) u
            (λ found. absurd (
              ground (
                arith,
                end_found s.queue u v.chained,
                contains-count u s.queue.process_list,
                Only-last s.queue s.last v.phase stopped p u d,
              )))
            (λ _. refl),
      next_cases s.queue (λ k. k ≡ (s.queue, none)) refl (λ _ c rest m. absurd (cc)),
    )

-- In a stopped queue, in any state that the threads can reach from FuseIoqCreate, what
-- FuseIoqNextPending hands out is the last context; no context is in process then, and the Pending
-- list is left empty.
pub last_comes_last :
    (header : ℕ) (q : Ioq) {s : System} (q' : Ioq) (c : ℕ)
    → header + 8 ≤ ioq_size
    → ioq_create header true ≡ some q
    → Reach (initial q) s
    → s.queue.last_context ≢ 0
    → ioq_next_pending s.queue ≡ (q', some c)
    → (c ≡ s.last) × (s.queue.process_list ≡ []) × (q'.pending_list ≡ [])
last_comes_last header q {s} q' c h e r stopped n =
    next_cases s.queue
      (λ k. k ≡ (q', some c) → (c ≡ s.last) × (s.queue.process_list ≡ []) × (q'.pending_list ≡ []))
      (λ m. cc)
      (λ d c' rest p m.
        let (a, b, t) =
          last_taken s.queue s.last c' rest (queue-IsSound header q h e r).phase stopped d p in
        (ground arith, b, ground arith))
      n
