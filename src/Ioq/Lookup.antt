-- ===== src/Ioq/Lookup.antt =====
-- Which context a response finds, and what it leaves behind.
use mathlib.Core.List.{append-nil, append_assoc}
use winfuse.Base.{
  ℕ, zero, suc, ◌<◌, ◌≡◌, refl, ap, Bool, true, false, Option, none, some, List, [], ◌∷◌, ◌++◌, map,
  arith, count, count-push, erase, contains, length, set, contains-count, ==_refl,
}
use winfuse.Base.Chains.{chain, link, unlink}
use winfuse.Ioq.{
  Ioq, bucket_index, insert_processing, ioq_start_processing, ioq_end_processing, ioq_next_pending,
  ioq_post_pending,
}
use winfuse.Ioq.Cases.{start_cases, end_cases}
use winfuse.Ioq.Sound.{IsChained, end_found, bucket_index-lt, insert_processing-IsChained}

-- In a queue whose chains agree with the Process list, FuseIoqEndProcessing finds exactly the
-- contexts in process, and takes them off the list: any other number, whatever the file system sends,
-- is refused and changes nothing.
pub ioq_end_processing_finds :
    (q : Ioq) (u : ℕ)
    → IsChained q
    → ((contains u q.process_list ≡ true)
        → ((ioq_end_processing q u).1 ≡ some u)
          × ((ioq_end_processing q u).0.process_list ≡ erase u q.process_list))
      × ((contains u q.process_list ≡ false) → ioq_end_processing q u ≡ (q, none))
ioq_end_processing_finds q u v = (
  λ h.
      end_cases q (λ r. (r.1 ≡ some u) × (r.0.process_list ≡ erase u q.process_list)) u
        (λ _. (refl, refl)) (λ m. absurd (ground (arith, end_found q u v))),
  λ h.
      end_cases q (λ r. r ≡ (q, none)) u (λ f. absurd (ground (arith, end_found q u v)))
        (λ _. refl),
)

erase-push : (c : ℕ) (l : List ℕ) → count c l ≡ 0 → erase c (l ++ c ∷ []) ≡ l
unfolding erase count
erase-push c [] h = rw ==_refl
erase-push c (x ∷ l) h = ground (arith, erase-push c l)

set-set : (bs : List (List ℕ)) (i : ℕ) (x : List ℕ) → set (set bs i x) i (chain bs i) ≡ bs
set-set [] i x = refl
set-set (b ∷ bs) zero x = refl
set-set (b ∷ bs) (suc i) x = ap (◌∷◌ b) (set-set bs i x)

chain-set : (bs : List (List ℕ)) (i : ℕ) (x : List ℕ) → i < length bs → chain (set bs i x) i ≡ x
chain-set [] i x h = absurd (omega arith)
chain-set (b ∷ bs) zero x h = refl
chain-set (b ∷ bs) (suc i) x h = chain-set bs i x (omega arith)

unlink-link : (bs : List (List ℕ)) (i c : ℕ) → i < length bs → unlink (link bs i c) i c ≡ bs
unfolding erase
unlink-link bs i c h =
    rw (chain-set bs i (c ∷ chain bs i) h, ==_refl c) (set-set bs i (c ∷ chain bs i))

end-insert :
    (q : Ioq) (c : ℕ)
    → IsChained q
    → count c q.process_list ≡ 0
    → ioq_end_processing (insert_processing q c) c ≡ (q, some c)
unfolding insert_processing bucket_index
end-insert q c v h =
    end_cases (insert_processing q c) (λ r. r ≡ (q, some c)) c
      (λ _. rw (
        unlink-link q.process_buckets (bucket_index q c) c (bucket_index-lt q c v),
        erase-push c q.process_list h,
      ))
      (λ m. absurd (
        ground (
          arith,
          end_found (insert_processing q c) c (insert_processing-IsChained q c v),
          contains-count c (q.process_list ++ c ∷ []),
          count-push c c q.process_list,
        )))

-- In a queue that is not stopped, and whose chains agree with the Process list, a request that is put
-- in process and was not there is found by its response, and the queue is then as before.
pub end-start :
    (q : Ioq) (c : ℕ) (b : Bool)
    → IsChained q
    → q.last_context ≡ 0
    → count c q.process_list ≡ 0
    → ioq_end_processing (ioq_start_processing q c b).0 c ≡ (q, some c)
end-start q c b v z h =
    start_cases q (λ r. ioq_end_processing r.0 c ≡ (q, some c)) c b (λ _. end-insert q c v h)
      (λ n. absurd (n z)) (λ n. absurd (n z))

-- Post a list of contexts, one after the other, and take as many as there are.
pub post_all : Ioq → List ℕ → Ioq
post_all q [] = q
post_all q (c ∷ cs) = post_all (ioq_post_pending q c).0 cs

pub take_all : ℕ → Ioq → List (Option ℕ)
take_all zero q = []
take_all (suc n) q = (ioq_next_pending q).1 ∷ take_all n (ioq_next_pending q).0

post_running :
    (q : Ioq) (c : ℕ)
    → q.last_context ≡ 0
    → (ioq_post_pending q c).0 ≡ record q { pending_list = q.pending_list ++ c ∷ [] }
unfolding ioq_post_pending
post_running q c z = simp z

next_running :
    (q : Ioq) (c : ℕ) (cs : List ℕ)
    → q.last_context ≡ 0
    → ioq_next_pending (record q { pending_list = c ∷ cs })
      ≡ (record q { pending_list = cs }, some c)
unfolding ioq_next_pending
next_running q c cs z = simp z

post_all_lem :
    (q : Ioq) (cs : List ℕ)
    → q.last_context ≡ 0
    → post_all q cs ≡ record q { pending_list = q.pending_list ++ cs }
unfolding post_all
post_all_lem q [] z = rw append-nil
post_all_lem q (c ∷ cs) z =
    simp (post_running q c z) (
      simp (post_all_lem (record q { pending_list = q.pending_list ++ c ∷ [] }) cs z, append_assoc))

take_all_lem :
    (q : Ioq) (cs : List ℕ)
    → q.last_context ≡ 0
    → take_all (length cs) (record q { pending_list = cs }) ≡ map some cs
unfolding take_all
take_all_lem q [] z = refl
take_all_lem q (c ∷ cs) z = simp (next_running q c cs z, take_all_lem q cs z)

-- A queue that is not stopped is first in, first out: posting contexts on an empty Pending list and
-- taking as many returns them all, in the order in which they were posted.
pub take_all-post_all :
    (q : Ioq) (cs : List ℕ)
    → q.last_context ≡ 0
    → q.pending_list ≡ []
    → take_all (length cs) (post_all q cs) ≡ map some cs
take_all-post_all q cs z p = rw (post_all_lem q cs z, p) (take_all_lem q cs z)
