-- ===== src/Fuseop/Security.antt =====
-- FuseOpQuerySecurity and FuseOpSetSecurity of src/shared/km/fuseop.c. Security descriptors are the
-- system's: what it maps them to is given. Of the larger response that FuseOpQuerySecurity allocates,
-- its status is part of the state.
use winfuse.Base.{ℕ, ◌+◌, ◌*◌, ◌/◌, ◌%◌, ◌^◌, not, ◌==◌, ltb, if◌then◌else◌}
use winfuse.Cache.{Attr}
use winfuse.Proto.Send.{send_setattr, zero_attr}
use winfuse.Status.{
  nt_success, status_success, status_insufficient_resources, status_invalid_security_descr,
}
use winfuse.Fuseop.{State, Run, done, given, ◌>>=◌, send, fail, file_of}
use winfuse.Fuseop.Files.{fgetattr, set_context_file}

-- FSP_FSCTL_TRANSACT_RSP_BUFFER_SIZEMAX is `buffer_sizemax`.
pub op_query_security : (buffer_sizemax file : ℕ) → State → Run
op_query_security buffer_sizemax file s = do
  t ← fgetattr (set_context_file s file)
  given λ status. given λ length. given λ response.
      if not (nt_success status)
      then fail status t
      else if ltb buffer_sizemax length
      then fail status_invalid_security_descr t
      else if response == 0
      then fail status_insufficient_resources t
      else done (record t { status = status_success })

-- The attributes that a security descriptor is mapped to; the type of the file stays.
mapped_attr : Attr → (uid gid mode : ℕ) → Attr
mapped_attr attr uid gid mode = record zero_attr {
  uid = uid;
  gid = gid;
  mode = attr.mode / 2 ^ 12 % 2 ^ 4 * 2 ^ 12 + mode % 2 ^ 12;
}

-- Which of them are others than before: FUSE_PROTO_SETATTR_UID, FUSE_PROTO_SETATTR_GID and
-- FUSE_PROTO_SETATTR_MODE.
attr_changes : (old new : Attr) → ℕ
attr_changes old new =
    (if new.uid == old.uid then 0 else 2)
    + (if new.gid == old.gid then 0 else 4)
    + (if new.mode == old.mode then 0 else 1)

-- The changes are sent, where there are any.
set_changes : (old new : Attr) → State → Run
unfolding attr_changes
set_changes old new s =
    if attr_changes old new == 0 then done (record s { status = status_success }) else (do
      t ←
          send
            (λ v.
              let f = file_of v in
              send_setattr v.origin f.is_directory f.ino f.fh new (attr_changes old new))
            s
      done (record t { status = status_success }))

pub op_set_security : (file : ℕ) → State → Run
unfolding mapped_attr set_changes
op_set_security file s = do
  t ← fgetattr (set_context_file s file)
  given λ old_status. given λ new_status. given λ mapped_status. given λ uid. given λ gid.
      given λ mode.
        if not (nt_success old_status)
        then fail old_status t
        else if not (nt_success new_status)
        then fail new_status t
        else if not (nt_success mapped_status)
        then fail mapped_status t
        else set_changes t.response.attr (mapped_attr t.response.attr uid gid mode) t
