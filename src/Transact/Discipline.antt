-- ===== src/Transact/Discipline.antt =====
-- A thread of src/shared/km/instance.c gives up every context that it takes.
use winfuse.Base.{
  ℕ, ◌≡◌, ◌<◌, refl, inl, inr, arith, Bool, true, false, Option, none, some, List, [], ◌∷◌, count,
  erase, Bool-cases, if◌then◌else◌, ◌==◌, ltb, subst, sym, ◌∙◌, ==_refl, ◌||◌, ◌&&◌,
}
use winfuse.Ioq.Steps.{Action, create, discard, start, finish, post, stop, next, take_up}
use winfuse.Proto.{req_sizemin}
use winfuse.Status.{nt_success, status_timeout, status_thread_is_terminating, status_access_denied}
use winfuse.Transact.{
  Thread, finished, call, create_context, process, returned, Processed, call_then, reply,
  settle_request, fetched, fetch_request, wait_init, request_phase, response_phase, Answer,
  bad_answer, instance_transact, post_context, post_init, post_destroy,
}

-- What a call needs of the contexts in the hands of its thread; contexts are made by create_context.
abbrev pub Needs : Action → List ℕ → Type 0
Needs (create c) hand = ⊥
Needs (discard c) hand = 0 < count c hand
Needs (start c b) hand = 0 < count c hand
Needs (post c) hand = 0 < count c hand
Needs (stop c) hand = 0 < count c hand
Needs (finish u) hand = Unit {0}
Needs next hand = Unit {0}

-- The contexts in its hands after a call that has handed it one, or none.
abbrev pub hand_after : Action → Option ℕ → List ℕ → List ℕ
hand_after (create c) o hand = c ∷ hand
hand_after (discard c) o hand = erase c hand
hand_after (start c b) o hand = erase c hand
hand_after (post c) o hand = erase c hand
hand_after (stop c) o hand = erase c hand
hand_after (finish u) o hand = take_up o hand
hand_after next o hand = take_up o hand

-- An operation of the driver itself that has a buffer for a request fills it and waits for the response,
-- but for a FORGET, which has none.
abbrev pub Promise : (with_request : Bool) → Processed → Type 0
Promise with_request p =
    with_request ≡ true → p.continue ≡ false → p.reserved ≡ true → p.forget ≡ true

-- A thread with contexts in its hands uses only those, and ends with none.
pub data Disciplined : List ℕ → Thread → Type 0 where
  at_end : {status : ℕ} → Disciplined [] (finished status)
  at_call :
      {hand : List ℕ} {a : Action} {k : Option ℕ → Thread}
      → Needs a hand
      → ((o : Option ℕ) → Disciplined (hand_after a o hand) (k o))
      → Disciplined hand (call a k)
  at_create :
      {hand : List ℕ} {k : Option ℕ → Thread}
      → ((c : ℕ) → Disciplined (c ∷ hand) (k (some c)))
      → Disciplined hand (k none)
      → Disciplined hand (create_context k)
  at_process :
      {hand : List ℕ} {c : ℕ} {b : Bool} {k : Processed → Thread}
      → 0 < count c hand
      → ((p : Processed) → Promise b p → Disciplined hand (k p))
      → Disciplined hand (process c b k)
  at_returned :
      {hand : List ℕ} {k : ℕ → Thread}
      → ((n : ℕ) → Disciplined hand (k n))
      → Disciplined hand (returned k)

one_held : (c : ℕ) → 0 < count c (c ∷ [])
unfolding count
one_held c = ground arith

given_up : (c : ℕ) → erase c (c ∷ []) ≡ []
unfolding erase
given_up c = rw (==_refl c) refl

-- A call that gives up the only context in hand.
give_up :
    (a : Action) (c : ℕ) (more : Thread)
    → Needs a (c ∷ [])
    → ((o : Option ℕ) → hand_after a o (c ∷ []) ≡ erase c (c ∷ []))
    → Disciplined [] more
    → Disciplined (c ∷ []) (call_then a more)
give_up a c more needs after h =
    at_call needs (λ o. subst (λ hand. Disciplined hand more) (sym (after o ∙ given_up c)) h)

reply-Disciplined :
    (c : ℕ) (more : Thread) → Disciplined [] more → Disciplined (c ∷ []) (reply c more)
unfolding reply
reply-Disciplined c more h = at_returned (λ status.
    give_up (discard c) c _ (one_held c) (λ o. refl)
      (elim (Bool-cases (nt_success status)) [ inl e ↦ rw e h | inr e ↦ rw e at_end ]))

settle_request-Disciplined :
    (c : ℕ) (p : Processed) → Promise true p → Disciplined (c ∷ []) (settle_request c p)
unfolding settle_request
settle_request-Disciplined c p promise = elim (Bool-cases p.continue) [
  | inl e ↦ rw e (give_up (start c true) c _ (one_held c) (λ o. refl) at_end)
  | inr e ↦ elim (Bool-cases p.reserved) [
    | inr f ↦ rw (e, f) (reply-Disciplined c _ at_end)
    | inl f ↦
        let forget = promise refl e f in
        elim (Bool-cases p.forget_left) [
          | inl g ↦ rw (e, f, forget, g) (give_up (post c) c _ (one_held c) (λ o. refl) at_end)
          | inr g ↦ rw (e, f, forget, g) (give_up (discard c) c _ (one_held c) (λ o. refl) at_end)
        ]
  ]
]

finished-Disciplined : (b : Bool) (s t : ℕ) → Disciplined [] (if b then finished s else finished t)
finished-Disciplined true s t = at_end
finished-Disciplined false s t = at_end

fetched-Disciplined :
    (fetch_status internal_request : ℕ) → Disciplined [] (fetched fetch_status internal_request)
unfolding fetched
fetched-Disciplined fetch_status internal_request = elim (Bool-cases (nt_success fetch_status)) [
  | inr e ↦ rw e at_end
  | inl e ↦ elim (Bool-cases (internal_request == 0)) [
    | inl f ↦ rw (e, f) at_end
    | inr f ↦
        rw (e, f)
          (at_create
            (λ c. at_process (one_held c) (λ p promise. settle_request-Disciplined c p promise))
            (at_returned (λ status. finished-Disciplined (nt_success status) _ status)))
  ]
]

fetch_request-Disciplined : Disciplined [] fetch_request
unfolding fetch_request
fetch_request-Disciplined =
    at_returned (λ status. at_returned (λ request. fetched-Disciplined status request))

go_on-Disciplined :
    (version : ℕ)
    → Disciplined []
        (if version == 0xffff_ffff then finished status_access_denied else fetch_request)
go_on-Disciplined version = elim (Bool-cases (version == 0xffff_ffff)) [
  | inl e ↦ rw e at_end
  | inr e ↦ rw e fetch_request-Disciplined
]

wait_init-Disciplined : Disciplined [] wait_init
unfolding wait_init
wait_init-Disciplined = at_returned (λ version. elim (Bool-cases (version == 0)) [
  | inr e ↦ rw e (go_on-Disciplined version)
  | inl e ↦ rw e (
      at_returned (λ wait_status.
        elim (Bool-cases
          (wait_status == status_timeout || wait_status == status_thread_is_terminating)) [
            | inl f ↦ rw f at_end
            | inr f ↦ elim (Bool-cases (nt_success wait_status)) [
              | inr g ↦ rw (f, g) at_end
              | inl g ↦ rw (f, g) (at_returned go_on-Disciplined)
            ]
          ]))
])

request_phase-Disciplined : (wants_request : Bool) → Disciplined [] (request_phase wants_request)
unfolding request_phase
request_phase-Disciplined false = at_end
request_phase-Disciplined true = at_call tt handed
  where
    handed :
        (o : Option ℕ)
        → Disciplined (take_up o []) (elim o [
          | none ↦ wait_init
          | some context ↦ process context true (settle_request context)
        ])
    handed none = wait_init-Disciplined
    handed (some c) = at_process (one_held c) (λ p promise. settle_request-Disciplined c p promise)

answered-Disciplined :
    (c : ℕ) (p : Processed) (more : Thread)
    → Disciplined [] more
    → Disciplined (c ∷ []) (
        if p.continue
        then call_then (post c) more
        else if p.reserved
        then call_then (discard c) more
        else reply c more)
answered-Disciplined c p more h = elim (Bool-cases p.continue) [
  | inl e ↦ rw e (give_up (post c) c more (one_held c) (λ o. refl) h)
  | inr e ↦ elim (Bool-cases p.reserved) [
    | inl f ↦ rw (e, f) (give_up (discard c) c more (one_held c) (λ o. refl) h)
    | inr f ↦ rw (e, f) (reply-Disciplined c more h)
  ]
]

response_phase-Disciplined :
    (unique : ℕ) (more : Thread) → Disciplined [] more → Disciplined [] (response_phase unique more)
unfolding response_phase
response_phase-Disciplined unique more h = at_call tt handed
  where
    handed :
        (o : Option ℕ)
        → Disciplined (take_up o []) (elim o [
          | none ↦ more
          | some c ↦ process c false (λ p.
              if p.continue
              then call_then (post c) more
              else if p.reserved
              then call_then (discard c) more
              else reply c more)
        ])
    handed none = h
    handed (some c) = at_process (one_held c) (λ p _. answered-Disciplined c p more h)

pub instance_transact-Disciplined :
    (answer : Option Answer) (input_buffer_length : ℕ) (wants_request : Bool)
    (output_buffer_length : ℕ)
    → Disciplined []
        (instance_transact answer input_buffer_length wants_request output_buffer_length)
unfolding instance_transact
instance_transact-Disciplined none input wants output =
    elim (Bool-cases (wants && ltb output req_sizemin)) [
      | inl e ↦ rw e at_end
      | inr e ↦ rw e (request_phase-Disciplined wants)
    ]
instance_transact-Disciplined (some a) input wants output = elim (Bool-cases (bad_answer a input)) [
  | inl e ↦ rw e at_end
  | inr e ↦ elim (Bool-cases (wants && ltb output req_sizemin)) [
    | inl f ↦ rw (e, f) at_end
    | inr f ↦ rw (e, f) (response_phase-Disciplined a.unique _ (request_phase-Disciplined wants))
  ]
]

pub post_init-Disciplined : Disciplined [] post_init
unfolding post_init post_context
post_init-Disciplined =
    at_create (λ c. give_up (post c) c _ (one_held c) (λ o. refl) at_end)
      (at_returned (λ status. at_end))

pub post_destroy-Disciplined : Disciplined [] post_destroy
unfolding post_destroy post_context
post_destroy-Disciplined =
    at_create (λ c. give_up (stop c) c _ (one_held c) (λ o. refl) at_end)
      (at_returned (λ status. at_end))
