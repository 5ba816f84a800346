-- ===== src/Context.antt =====
-- src/shared/km/context.c, and FuseContextProcess and FuseOpGuardResult_ of src/shared/km/shared.h: a
-- request from its creation to its deletion, and the guard lock that it takes on the way.
-- What the operations of src/shared/km/fuseop.c do is the record Operations. The effects on the guard
-- lock are listed in program order.
pub mod Guards
pub mod Tests
use winfuse.Base.{
  ℕ, ◌%◌, ◌^◌, ◌≡◌, Bool, true, false, ◌&&◌, not, Option, none, some, List, [], ◌∷◌, ◌++◌, ◌==◌,
  leb, if◌then◌else◌,
}

pub data GuardResult : Type 0 where
  guard_cancel guard_false guard_true : GuardResult

abbrev pub is_guard_true : GuardResult → Bool
is_guard_true guard_true = true
is_guard_true _ = false

abbrev pub is_guard_cancel : GuardResult → Bool
is_guard_cancel guard_cancel = true
is_guard_cancel _ = false

-- FuseOpGuardResult_: (TRUE - 1) | 1 is 1, and (FALSE - 1) | 1 is -1.
abbrev pub guard_result : Bool → GuardResult
guard_result true = guard_true
guard_result false = guard_cancel

-- The fields of FUSE_CONTEXT that these functions use; a request or a response of 0 is none.
pub record Context : Type 0 where
  pub internal_request : ℕ
  pub internal_request_kind : ℕ
  pub internal_response_own : Bool
  pub response_kind : ℕ
  pub response_hint : ℕ
  pub status : ℕ
  pub fuse_request : ℕ
  pub fuse_response : ℕ
  pub fuse_request_length : ℕ
  pub op_guard_result : GuardResult
  pub has_fini : Bool

-- The table FuseOperations: which kinds have a procedure and a guard, what the guard returns when it
-- is asked for the lock, and what the procedure does.
pub record Operations : Type 0 where
  pub has_proc : ℕ → Bool
  pub has_guard : ℕ → Bool
  pub acquire : Context → GuardResult
  pub proc : Context → Context × Bool

abbrev pub reserved_kind : ℕ
reserved_kind = 0

abbrev pub status_cancelled : ℕ
status_cancelled = 0xc000_0120

-- FuseContextStatus, of STATUS_INVALID_DEVICE_REQUEST and STATUS_INSUFFICIENT_RESOURCES.
abbrev pub context_status : ℕ → ℕ
context_status s = s % 2 ^ 16

abbrev pub invalid_device_request : ℕ
invalid_device_request = 0xc000_0010

abbrev pub insufficient_resources : ℕ
insufficient_resources = 0xc000_009a

pub data Created : Type 0 where
  failed : ℕ → Created
  created : Context → Created

-- FuseContextCreate; the internal request is its address, its kind and its hint.
pub context_create : Operations → ℕ → ℕ → ℕ → Bool → Created
context_create ops internal_request kind0 hint allocated =
    let kind = if internal_request == 0 then reserved_kind else kind0 in
    if not (ops.has_proc kind)
    then failed (context_status invalid_device_request)
    else if not allocated
    then failed (context_status insufficient_resources)
    else created (record {
      internal_request = internal_request;
      internal_request_kind = kind0;
      internal_response_own = true;
      response_kind = kind;
      response_hint = if internal_request == 0 then 0 else hint;
      status = 0;
      fuse_request = 0;
      fuse_response = 0;
      fuse_request_length = 0;
      op_guard_result = guard_false;
      has_fini = false;
    })

abbrev pub context_kind : Context → ℕ
context_kind c = if c.internal_request == 0 then reserved_kind else c.internal_request_kind

pub data GuardEvent : Type 0 where
  acquired released : GuardEvent

-- The end of FuseContextProcess: a request that is done gives up its guard.
pub run_proc : Operations → Context → Context × Bool × List GuardEvent
run_proc ops c0 =
    let (c, result) = ops.proc c0 in
    if not result && is_guard_true c.op_guard_result
    then (record c { op_guard_result = guard_false }, result, released ∷ [])
    else (c, result, [])

-- FuseContextProcess. A guard that is asked for the lock and returns guard_true has taken it.
pub context_process : Operations → Context → ℕ → ℕ → ℕ → Context × Bool × List GuardEvent
unfolding run_proc
context_process ops c response request length =
    let first = c.fuse_request == 0 && (c.fuse_response == 0 && ops.has_guard (context_kind c)) in
    let asked = record c { op_guard_result = ops.acquire c } in
    let ready = if first then asked else c in
    let taken = if first && is_guard_true (ops.acquire c) then acquired ∷ [] else [] in
    let (done, result, given) = run_proc ops (record ready {
      fuse_request = request;
      fuse_response = response;
      fuse_request_length = length;
    }) in
    if first && is_guard_cancel (ops.acquire c)
    then (record asked { status = status_cancelled }, false, [])
    else (done, result, taken ++ given)

pub data Disposal : Type 0 where
  call_fini free_internal_request free_internal_response free_context : Disposal

-- FuseContextDelete: what it does with the guard, and then what else, in order.
pub context_delete : Context → List GuardEvent × List Disposal
context_delete c = (
  if is_guard_true c.op_guard_result then released ∷ [] else [],
  (if c.has_fini then call_fini ∷ [] else [])
      ++ ((if c.internal_request == 0 then [] else free_internal_request ∷ [])
          ++ ((if c.internal_response_own then [] else free_internal_response ∷ [])
              ++ free_context ∷ [])),
)

-- A response, a request to fill and its length, as FuseInstanceTransact passes them.
pub record Message : Type 0 where
  pub response : ℕ
  pub request : ℕ
  pub length : ℕ

-- FuseInstanceTransact processes a request with one message after the other, while it returns TRUE.
pub process_all : Operations → Context → List Message → Context × List GuardEvent
unfolding context_process
process_all ops c [] = (c, [])
process_all ops c (m ∷ ms) =
    let (next, continue, events) = context_process ops c m.response m.request m.length in
    let (last, more) = process_all ops next ms in
    if continue then (last, events ++ more) else (next, events)
