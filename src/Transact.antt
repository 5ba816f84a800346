-- ===== src/Transact.antt =====
-- FuseInstanceTransact of src/shared/km/instance.c, and the functions of src/shared/km/proto.c that post
-- requests of the driver itself, as threads: what a thread does with the queue and with contexts, in
-- program order. Other threads run between its steps. Text for the debugger, and the buffers, are not
-- part of it.
pub mod Discipline
pub mod Refines
pub mod Tests
use winfuse.Base.{
  ℕ, ◌≡◌, Bool, true, false, ◌&&◌, ◌||◌, not, Option, none, some, ◌==◌, ltb, if◌then◌else◌,
}
use winfuse.Ioq.Steps.{Action, discard, start, finish, post, stop, next}
use winfuse.Proto.{req_sizemin}
use winfuse.Status.{
  nt_success, status_success, status_invalid_parameter, status_buffer_too_small, status_cancelled,
  status_timeout, status_thread_is_terminating, status_access_denied, status_insufficient_resources,
}

-- What FuseContextProcess returns, and what it leaves: whether the request is one of the driver, a
-- FORGET, and one with more to forget.
pub record Processed : Type 0 where
  pub continue : Bool
  pub reserved : Bool
  pub forget : Bool
  pub forget_left : Bool

-- A thread calls a function of the queue or deletes a context, which hands it a context or none; it
-- creates a context, or fails to; it has a context processed, with a buffer for a request or with a
-- response; or it takes a number that the rest of the system returns.
pub data Thread : Type 0 where
  finished : ℕ → Thread
  call : Action → (Option ℕ → Thread) → Thread
  create_context : (Option ℕ → Thread) → Thread
  process : (context : ℕ) (with_request : Bool) → (Processed → Thread) → Thread
  returned : (ℕ → Thread) → Thread

-- A call that hands out no context.
abbrev pub call_then : Action → Thread → Thread
call_then a t = call a (λ _. t)

-- The internal response is given to the file system driver, and the context deleted.
pub reply : ℕ → Thread → Thread
reply context more =
    returned
      (λ status. call_then (discard context) (if nt_success status then more else finished status))

-- The end of FuseInstanceTransact, on a context that a request was made of.
pub settle_request : ℕ → Processed → Thread
unfolding reply
settle_request context p =
    if p.continue
    then call_then (start context true) (finished status_success)
    else if p.reserved
    then (if p.forget
        then call_then (if p.forget_left then post context else discard context)
            (finished status_success)
        else finished status_success)
    else reply context (finished status_success)

-- A new request of the file system driver; where no context can be made of it, its status is given back.
pub fetched : (fetch_status internal_request : ℕ) → Thread
unfolding settle_request
fetched fetch_status internal_request =
    if not (nt_success fetch_status)
    then finished fetch_status
    else if internal_request == 0
    then finished status_success
    else create_context (λ made. elim made [
      | none ↦
          returned
            (λ status. if nt_success status then finished status_success else finished status)
      | some context ↦ process context true (settle_request context)
    ])

pub fetch_request : Thread
unfolding fetched
fetch_request =
    returned (λ fetch_status. returned (λ internal_request. fetched fetch_status internal_request))

-- The version of user mode is 0 before its response to INIT, and -1 where it was refused.
pub wait_init : Thread
unfolding fetch_request
wait_init =
    let go_on : ℕ → Thread =
      λ version. if version == 0xffff_ffff then finished status_access_denied else fetch_request in
    returned (λ version.
      if not (version == 0)
      then go_on version
      else returned (λ wait_status.
        if wait_status == status_timeout || wait_status == status_thread_is_terminating
        then finished status_cancelled
        else if not (nt_success wait_status)
        then finished wait_status
        else returned go_on))

pub request_phase : (wants_request : Bool) → Thread
unfolding settle_request wait_init
request_phase wants_request =
    if not wants_request
    then finished status_success
    else call next (λ pending. elim pending [
      | none ↦ wait_init
      | some context ↦ process context true (settle_request context)
    ])

pub response_phase : (unique : ℕ) → Thread → Thread
unfolding reply
response_phase unique more = call (finish unique) (λ waiting. elim waiting [
  | none ↦ more
  | some context ↦ process context false (λ p.
      if p.continue
      then call_then (post context) more
      else if p.reserved
      then call_then (discard context) more
      else reply context more)
])

-- The length and the context of a response.
pub record Answer : Type 0 where
  pub len : ℕ
  pub unique : ℕ

-- FUSE_PROTO_RSP_HEADER_SIZE is 16.
pub bad_answer : Answer → (input_buffer_length : ℕ) → Bool
bad_answer a input_buffer_length =
    ltb input_buffer_length 16 || (ltb a.len 16 || ltb input_buffer_length a.len)

-- FuseInstanceTransact, with a response or none, and a buffer for a request or none.
pub instance_transact :
    Option Answer
    → (input_buffer_length : ℕ) (wants_request : Bool) (output_buffer_length : ℕ) → Thread
unfolding response_phase request_phase bad_answer
instance_transact answer input_buffer_length wants_request output_buffer_length =
    let short = wants_request && ltb output_buffer_length req_sizemin in
    elim answer [
      | none ↦ if short then finished status_buffer_too_small else request_phase wants_request
      | some a ↦
          if bad_answer a input_buffer_length
          then finished status_invalid_parameter
          else if short
          then finished status_buffer_too_small
          else response_phase a.unique (request_phase wants_request)
    ]

-- A context of the driver itself is posted; the failure to create one is given back.
pub post_context : (ℕ → Action) → Thread
post_context action = create_context (λ made. elim made [
  | none ↦ returned finished
  | some context ↦ call_then (action context) (finished status_success)
])

-- FuseProtoPostInit and FuseProtoPostForget.
pub post_init : Thread
unfolding post_context
post_init = post_context post

-- FuseProtoPostDestroy.
pub post_destroy : Thread
unfolding post_context
post_destroy = post_context stop
