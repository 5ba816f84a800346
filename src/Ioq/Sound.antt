-- ===== src/Ioq/Sound.antt =====
-- Every context that is alive stands in one place, and the chains agree with the Process list.
use winfuse.Base.{
  ℕ, ◌+◌, ◌-◌, ◌<◌, ◌≤◌, ◌≡◌, ◌≢◌, ◌∙◌, refl, ap, Bool, true, false, List, [], ◌∷◌, map, arith,
  count, erase, contains, length, length-set, count-push, count-erase, contains-count,
}
use winfuse.Base.Chains.{chain, IsPlaced, link-IsPlaced, unlink-IsPlaced, contains-chain}
use winfuse.Ioq.{
  Ioq, delete_context, bucket_index, insert_processing, ioq_start_processing, ioq_end_processing,
}
use winfuse.Ioq.Cases.{start_cases, end_cases, post_cases, stop_cases, next_cases, refusal}
use winfuse.Ioq.Steps.{
  System, Action, create, discard, start, finish, post, stop, next, settle, Enabled, perform, given,
  taken,
}

-- The chains hold what the Process list holds, each context in the chain of its hash.
pub record IsChained (q : Ioq) : Type 0 where
  pub some_bucket : 0 < q.process_bucket_count
  pub width : length q.process_buckets ≡ q.process_bucket_count
  pub placed : IsPlaced (bucket_index q) q.process_list q.process_buckets

-- Each context that is alive is pending, in process, or in the hands of one thread, and in one of
-- these only; what is not alive is nowhere.
pub record IsOwned (s : System) : Type 0 where
  pub owned :
      (x : ℕ)
      → count x s.queue.pending_list + count x s.queue.process_list + count x s.held
        ≡ count x s.alive
  pub once : (x : ℕ) → count x s.alive ≤ 1
  pub address : (x : ℕ) → 0 < count x s.alive → 0xffff < x

pub bucket_index-lt : (q : Ioq) (c : ℕ) → IsChained q → bucket_index q c < length q.process_buckets
unfolding bucket_index
bucket_index-lt q c v = omega (arith, v.width, v.some_bucket)

pub insert_processing-IsChained :
    (q : Ioq) (c : ℕ) → IsChained q → IsChained (insert_processing q c)
unfolding insert_processing bucket_index
insert_processing-IsChained q c v = record {
  some_bucket = v.some_bucket;
  width = length-set q.process_buckets _ _ ∙ v.width;
  placed =
      link-IsPlaced (bucket_index q) q.process_list q.process_buckets v.placed c
        (bucket_index-lt q c v);
}

pub ioq_start_processing-IsChained :
    (q : Ioq) (c : ℕ) (b : Bool) → IsChained q → IsChained (ioq_start_processing q c b).0
unfolding bucket_index
ioq_start_processing-IsChained q c b v =
    start_cases q (λ r. IsChained r.0) c b (λ _. insert_processing-IsChained q c v)
      (λ _ _.
        insert_processing-IsChained _ c
          (record { some_bucket = v.some_bucket; width = v.width; placed = v.placed }))
      (λ _ _. v)

pub ioq_end_processing-IsChained :
    (q : Ioq) (u : ℕ) → IsChained q → IsChained (ioq_end_processing q u).0
unfolding bucket_index
ioq_end_processing-IsChained q u v =
    end_cases q (λ r. IsChained r.0) u
      (λ _. record {
        some_bucket = v.some_bucket;
        width = length-set q.process_buckets _ _ ∙ v.width;
        placed =
            unlink-IsPlaced (bucket_index q) q.process_list q.process_buckets v.placed u
              (bucket_index-lt q u v);
      })
      (λ _. v)

-- The chains agree with the Process list along every step.
pub perform-IsChained :
    (s : System) (a : Action) → IsChained s.queue → IsChained (perform s a).queue
unfolding perform bucket_index
perform-IsChained s (create c) v = v
perform-IsChained s (discard c) v = v
perform-IsChained s (start c b) v = ioq_start_processing-IsChained s.queue c b v
perform-IsChained s (finish u) v = ioq_end_processing-IsChained s.queue u v
perform-IsChained s (post c) v =
    post_cases s.queue (λ r. IsChained r.0) c
      (λ _. record { some_bucket = v.some_bucket; width = v.width; placed = v.placed }) (λ _. v)
perform-IsChained s (stop c) v =
    stop_cases s.queue (λ r. IsChained r.0) c
      (λ _. record { some_bucket = v.some_bucket; width = v.width; placed = v.placed }) (λ _. v)
perform-IsChained s next v =
    next_cases s.queue (λ r. IsChained r.0) v
      (λ _ c rest _. record { some_bucket = v.some_bucket; width = v.width; placed = v.placed })

count-settle_deleted :
    (x : ℕ) (cs alive : List ℕ)
    → count x (settle (map delete_context cs) alive) ≡ count x alive - count x cs
unfolding settle count
count-settle_deleted x [] alive = omega arith
count-settle_deleted x (c ∷ cs) alive =
    ground (arith, count-settle_deleted x cs (erase c alive), count-erase x c alive)

settle-refusal : (c : ℕ) (b : Bool) (alive : List ℕ) → settle (refusal c b) alive ≡ erase c alive
unfolding settle
settle-refusal c true alive = refl
settle-refusal c false alive = refl

-- An owned system after a step, from the counts before and after it.
abbrev BalancedAt : ℕ → System → System → Type 0
BalancedAt x s t =
    (count x t.queue.pending_list + count x t.queue.process_list + count x t.held ≡ count x t.alive)
    × (count x t.alive ≤ count x s.alive)

abbrev Balanced : System → System → Type 0
Balanced s t = (x : ℕ) → BalancedAt x s t

Balanced-IsOwned : (s t : System) → Balanced s t → IsOwned s → IsOwned t
Balanced-IsOwned s t b v = record {
  owned = λ x. (b x).0;
  once = λ x. omega (arith, (b x).1, v.once x);
  address = λ x h. v.address x (omega (arith, (b x).1));
}

-- The response names a context in process, or none.
pub end_found :
    (q : Ioq) (u : ℕ)
    → IsChained q
    → contains u (chain q.process_buckets (bucket_index q u)) ≡ contains u q.process_list
end_found q u v = contains-chain (bucket_index q) q.process_list q.process_buckets v.placed u

perform-Balanced :
    (s : System) (a : Action)
    → IsChained s.queue
    → IsOwned s
    → Enabled s a
    → ((c : ℕ) → a ≢ create c)
    → Balanced s (perform s a)
unfolding perform settle count insert_processing
perform-Balanced s (create c) w v e n x = absurd (n c refl)
perform-Balanced s (discard c) w v e n x =
    ground (arith, v.owned x, count-erase x c s.held, count-erase x c s.alive)
perform-Balanced s (start c b) w v e n x =
    start_cases s.queue (λ r. BalancedAt x s (given s c r)) c b
      (λ _. ground (arith, v.owned x, count-erase x c s.held, count-push x c s.queue.process_list))
      (λ _ _.
        ground (arith, v.owned x, count-erase x c s.held, count-push x c s.queue.process_list))
      (λ _ _. ground (
        arith,
        v.owned x,
        count-erase x c s.held,
        settle-refusal c b s.alive,
        count-erase x c s.alive,
      ))
perform-Balanced s (finish u) w v e n x =
    end_cases s.queue (λ r. BalancedAt x s (taken s r)) u
      (λ found. ground (
        arith,
        v.owned x,
        count-erase x u s.queue.process_list,
        end_found s.queue u w,
        contains-count u s.queue.process_list,
      ))
      (λ _. ground (arith, v.owned x))
perform-Balanced s (post c) w v e n x =
    post_cases s.queue (λ r. BalancedAt x s (given s c r)) c
      (λ _. ground (arith, v.owned x, count-erase x c s.held, count-push x c s.queue.pending_list))
      (λ _. ground (arith, v.owned x, count-erase x c s.held, count-erase x c s.alive))
perform-Balanced s (stop c) w v e n x =
    stop_cases s.queue (λ r. BalancedAt x s (given s c r)) c
      (λ _. ground (
        arith,
        v.owned x,
        v.once x,
        count-erase x c s.held,
        count-settle_deleted x s.queue.pending_list s.alive,
      ))
      (λ _. ground (arith, v.owned x, count-erase x c s.held, count-erase x c s.alive))
perform-Balanced s next w v e n x =
    next_cases s.queue (λ r. BalancedAt x s (taken s r)) (ground (arith, v.owned x))
      (λ _ c rest p. ground (arith, v.owned x, ap (count x) p))

pub perform-IsOwned :
    (s : System) (a : Action) → IsChained s.queue → IsOwned s → Enabled s a → IsOwned (perform s a)
unfolding perform count
perform-IsOwned s (create c) w v e = record {
  owned = λ x. ground (arith, v.owned x);
  once = λ x. ground (arith, v.once x, e.1);
  address = λ x h. ground (arith, v.address x);
}
perform-IsOwned s a w v e = Balanced-IsOwned s _ (perform-Balanced s a w v e (λ c h. cc)) v
