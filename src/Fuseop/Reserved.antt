-- ===== src/Fuseop/Reserved.antt =====
-- The requests of the driver itself, and the locks that requests take, of src/shared/km/fuseop.c.
use winfuse.Base.{ℕ, Bool, true, not, ◌==◌, if◌then◌else◌}
use winfuse.Proto.Send.{send_init, send_destroy}
use winfuse.Status.{status_success, status_connection_refused}
use winfuse.Fuseop.{State, Run, done, ◌>>=◌, resume, send, CreateRequest}
use winfuse.Fuseop.Check.{disposition}

abbrev set_version : State → ℕ → ℕ → State
set_version s major minor = record s {
  world = record s.world { version_major = major; version_minor = minor; init_event = true };
}

-- FuseOpReserved_Init, with FUSE_PROTO_VERSION; a version of -1 tells that user mode has another.
pub op_reserved_init : State → Run
op_reserved_init s = do
  t ← send (λ v. send_init v.origin) s
  done (
      if t.response.init_major == 7
      then record (set_version t t.response.init_major t.response.init_minor) {
        status = status_success;
      }
      else record (set_version t 0xffff_ffff t.world.version_minor) {
        status = status_connection_refused;
      })

-- FuseOpReserved_Destroy.
pub op_reserved_destroy : State → Run
op_reserved_destroy s =
    resume (send (λ v. send_destroy v.origin) s) (λ t. done (record t { status = status_success }))

-- The calls of the lock of the instance that guards the operations.
pub data GuardCall : Type 0 where
  acquire_exclusive acquire_shared release_exclusive release_shared no_call : GuardCall

abbrev exclusive : Bool → GuardCall
exclusive acquire = if acquire then acquire_exclusive else release_exclusive

abbrev shared : Bool → GuardCall
shared acquire = if acquire then acquire_shared else release_shared

-- FuseOgCreate: all but FILE_OPEN may change the directory.
pub og_create : CreateRequest → (acquire : Bool) → GuardCall
og_create r acquire = if not (1 == disposition r) then exclusive acquire else shared acquire

-- FuseOgCleanup.
pub og_cleanup : (delete acquire : Bool) → GuardCall
og_cleanup delete acquire = if delete then exclusive acquire else no_call

-- FileRenameInformation and FileDispositionInformation.
abbrev pub rename_information : ℕ
rename_information = 10

abbrev pub disposition_information : ℕ
disposition_information = 13

-- FuseOgSetInformation.
pub og_set_information : (information_class : ℕ) (acquire : Bool) → GuardCall
og_set_information information_class acquire =
    if rename_information == information_class
    then exclusive acquire
    else if disposition_information == information_class
    then shared acquire
    else no_call

-- FuseOgQueryDirectory.
pub og_query_directory : (acquire : Bool) → GuardCall
og_query_directory acquire = shared acquire
