-- ===== src/Fuseop.antt =====
-- src/shared/km/fuseop.c: the operations. An operation is a coroutine: it asks user mode, and goes on
-- with the response. Meanwhile other requests change the instance, so that it goes on from a World
-- that it is given. What the system returns, as the time or the address of an allocation, is given too.
-- FuseContextWaitRequest and FuseContextWaitResponse are one point, as nothing that is shared is used
-- between them.
pub mod Right
pub mod Access
pub mod Enosys
pub mod Lookup
pub mod Check
pub mod Create
pub mod Dispose
pub mod Information
pub mod Io
pub mod Reserved
pub mod Security
pub mod Files
pub mod Always
pub mod Alike
pub mod Asked
pub mod Written
pub mod Bounds
pub mod Tests
pub mod Change
pub mod Directory
pub mod Ending
pub mod Listed
use winfuse.Base.{
  ℕ, zero, suc, ◌+◌, ◌≡◌, ◌==◌, Bool, false, List, [], ◌∷◌, if◌then◌else◌, Option, none, some,
}
use winfuse.Cache.{Attr, Cache}
use winfuse.File.{File, Instance}
use winfuse.Path.{Memory, PosixString}
use winfuse.Proto.{FileInfo}
use winfuse.Proto.Errno.{InstanceType, nt_status_from_errno}
use winfuse.Proto.Send.{Request, Response, Origin}
use winfuse.Status.{nt_success, status_success, status_invalid_device_request}
use winfuse.Fuseop.Enosys.{get_opcode_enosys, set_opcode_enosys}

-- The members of FUSE_INSTANCE that operations share: the cache, the files, OpcodeENOSYS, the version
-- of user mode, and whether InitEvent is set.
pub record World : Type 0 where
  pub version_major : ℕ
  pub version_minor : ℕ
  pub init_event : Bool
  pub instance : Instance
  pub opcode_enosys : List ℕ

-- FSP_FSCTL_TRANSACT_REQ of the kinds that look up paths. A path is 0 where it is none.
pub record CreateRequest : Type 0 where
  pub create_options : ℕ
  pub desired_access : ℕ
  pub granted_access : ℕ
  pub access_token : ℕ
  pub security_descriptor_offset : ℕ
  pub user_mode : Bool
  pub has_traverse_privilege : Bool
  pub has_restore_privilege : Bool
  pub open_target_directory : Bool
  pub has_trailing_backslash : Bool
  pub named_stream : Bool

pub data InternalRequest : Type 0 where
  create_request : CreateRequest → InternalRequest
  cleanup_request : (delete : Bool) → InternalRequest
  rename_request : (access_token : ℕ) → InternalRequest
  other_request : InternalRequest

-- The members of FUSE_CONTEXT that belong to a request alone, with those of its response, and the
-- instance that it shares. Lookup and LookupPath begin with the same members. `memory` holds the
-- bytes of the paths.
pub record State : Type 0 where
  pub world : World
  pub instance_type : InstanceType
  pub memory : Memory
  pub internal_request : InternalRequest
  pub origin : Origin
  pub response : Response
  pub file : ℕ
  pub cache_gen : ℕ
  pub cache_item : ℕ
  pub ino : ℕ
  pub name : PosixString
  pub attr : Attr
  pub orig_path : PosixString
  pub remain : PosixString
  pub desired_access : ℕ
  pub granted_access : ℕ
  pub user_mode : Bool
  pub has_traverse_privilege : Bool
  pub disable_cache : Bool
  pub chown : Bool
  pub orig_path2 : PosixString
  pub name2 : PosixString
  pub ino2 : ℕ
  pub status : ℕ
  pub information : ℕ
  pub opened_granted_access : ℕ
  pub opened_user_context : ℕ
  pub response_file_info : FileInfo
  pub opened_disable_cache : Bool

-- A copy between the memory of the caller and a message, by FuseSafeCopyMemory.
pub data Copy : Type 0 where
  to_caller from_caller : (address size : ℕ) → Copy

-- What a request does next: it is done, asks user mode, copies, which gives a status, or takes what the
-- system returns.
pub data Run : Type 0 where
  done : State → Run
  ask : Request → World → (World → Response → Run) → Run
  copy : Copy → (ℕ → Run) → Run
  given : (ℕ → Run) → Run

-- coro_await: one coroutine awaits another.
abbrev pub resume : Run → (State → Run) → Run
resume (done s) k = k s
resume (ask r w f) k = ask r w (λ v a. resume (f v a) k)
resume (copy c f) k = copy c (λ n. resume (f n) k)
resume (given f) k = given (λ n. resume (f n) k)

-- coro_break on a status that is not a success.
abbrev pub on_success : (State → Run) → State → Run
on_success k s = if nt_success s.status then k s else done s

-- Both, as most calls of a coroutine have them.
infixl 10 ◌>>=◌
abbrev pub ◌>>=◌ : Run → (State → Run) → Run
r >>= k = resume r (on_success k)

abbrev pub fail : ℕ → State → Run
fail status s = done (record s { status = status })

-- The `count` bytes from an address on.
pub bytes : Memory → ℕ → ℕ → List ℕ
bytes memory p zero = []
bytes memory p (suc count) = memory p ∷ bytes memory (p + 1) count

abbrev pub name_of : State → List ℕ
name_of s = bytes s.memory s.name.buffer s.name.length

abbrev pub cache_of : State → Cache
cache_of s = s.world.instance.cache

abbrev pub set_cache : State → Cache → State
set_cache s c = record s {
  world = record s.world { instance = record s.world.instance { cache = c } };
}

abbrev pub file_of : State → File
file_of s = s.world.instance.files s.file

-- FUSE_PROTO_SEND_END: the status of the response.
pub receive : State → World → Response → State
receive s w a = record s {
  world = w;
  response = a;
  status = if a.error == 0 then status_success else nt_status_from_errno s.instance_type a.error;
}

-- FUSE_PROTO_SEND_BEGIN and FUSE_PROTO_SEND_END, around a request.
pub send : (State → Request) → State → Run
unfolding receive
send request s = ask (request s) s.world (λ w a. done (receive s w a))

-- FUSE_PROTO_SEND_BEGIN_ and FUSE_PROTO_SEND_END_: an opcode that is known not to be implemented is
-- not sent.
pub send_optional : ℕ → (State → Request) → State → Run
unfolding receive
send_optional opcode request s =
    if get_opcode_enosys s.world.opcode_enosys opcode
    then fail status_invalid_device_request s
    else ask (request s) s.world (λ w a.
      let t = receive s w a in
      done (
        if t.status == status_invalid_device_request
        then record t {
          world = record t.world { opcode_enosys = set_opcode_enosys t.world.opcode_enosys opcode };
        }
        else t))
