-- ===== src/Wslfuse/Io.antt =====
-- FileRead and FileWriteVector of src/wslfuse/device.c. FuseInstanceTransact is what it returns.
use winfuse.Base.{
  ℕ, zero, suc, ◌+◌, ◌-◌, ◌%◌, ◌^◌, Bool, ◌&&◌, not, Option, none, some, List, [], ◌∷◌, ◌++◌, ◌==◌,
  ltb, if◌then◌else◌, length,
}
use winfuse.Status.{nt_success, status_cancelled}
use winfuse.Wslfuse.{Outcome, success, einval, eio, enomem, enodev, eintr, efault}

-- STATUS_TIMEOUT.
abbrev pub status_timeout : ℕ
status_timeout = 0x102

abbrev transact_error : ℕ → Outcome
transact_error status = if status_cancelled == status then enodev else eio

-- A round of the loop of FileRead: what FuseInstanceTransact returns, how many bytes it gives, and what
-- LxpThreadWait returns.
pub record ReadRound : Type 0 where
  pub status : ℕ
  pub output_length : ℕ
  pub wait_status : ℕ

-- The loop of FileRead over the rounds so far; `none` waits for the next.
unfoldable pub read_rounds : List ReadRound → Option (Outcome × ℕ)
read_rounds [] = none
read_rounds (r ∷ rs) =
    if not (nt_success r.status)
    then some (transact_error r.status, 0)
    else if not (r.output_length == 0)
    then some (success, r.output_length)
    else if not (status_timeout == r.wait_status)
    then some (eintr, 0)
    else read_rounds rs

-- FileRead, on the object of the volume.
unfoldable pub file_read : (volume_file_object : ℕ) → List ReadRound → Option (Outcome × ℕ)
unfolding read_rounds
file_read object rounds = if object == 0 then some (enodev, 0) else read_rounds rounds

module _ {ℓ} {A : Type ℓ} where
  abbrev pub take : ℕ → List A → List A
  take zero xs = []
  take (suc n) [] = []
  take (suc n) (x ∷ xs) = x ∷ take n xs

  -- The bytes of vectors, one after the other.
  abbrev pub flatten : List (List A) → List A
  flatten [] = []
  flatten (xs ∷ xss) = xs ++ flatten xss

-- The sum of the lengths of the vectors, in 32 bits.
unfoldable pub input_length : List (List ℕ) → ℕ
input_length [] = 0
input_length (v ∷ vs) = (length v % 2 ^ 32 + input_length vs) % 2 ^ 32

-- The copy of the vectors into a buffer with `room` bytes: each is copied while there is room.
unfoldable pub gather : (room : ℕ) → List (List ℕ) → List ℕ
gather room [] = []
gather zero (v ∷ vs) = []
gather (suc n) (v ∷ vs) =
    let l = (if ltb (length v % 2 ^ 32) (suc n) then length v % 2 ^ 32 else suc n) in
    take l v ++ gather (suc n - l) vs

-- The header of a response; `rsp_size` is the size of FUSE_PROTO_RSP.
abbrev pub rsp_header_size : ℕ
rsp_header_size = 16

-- What FuseInstanceTransact is given: a longer response is copied anew into memory, when the vectors may
-- have other bytes.
unfoldable pub response_buffer : (rsp_size : ℕ) (first second : List (List ℕ)) → List ℕ
unfolding input_length gather
response_buffer rsp_size first second =
    let n = input_length first in if ltb rsp_size n then gather n second else gather rsp_size first

-- FileWriteVector: the bytes that it reports. `faults` tells whether an access to the vectors faults.
unfoldable pub write_vector :
    (rsp_size volume_file_object : ℕ)
    → (first second : List (List ℕ)) → (memory : ℕ) (faults : Bool) → (transact : List ℕ → ℕ → ℕ)
    → Outcome × ℕ
unfolding response_buffer
write_vector rsp_size object first second memory faults transact =
    let n = input_length first in
    let status = transact (response_buffer rsp_size first second) n in
    if object == 0
    then (enodev, 0)
    else if ltb n rsp_header_size
    then (einval, 0)
    else if faults
    then (efault, 0)
    else if ltb rsp_size n && memory == 0
    then (enomem, 0)
    else if not (nt_success status)
    then (transact_error status, 0)
    else (success, n)
