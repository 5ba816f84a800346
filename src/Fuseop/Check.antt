-- ===== src/Fuseop/Check.antt =====
-- The checks of src/shared/km/fuseop.c before a file is created, opened, overwritten or renamed.
use winfuse.Base.{ℕ, ◌-◌, ◌/◌, ◌%◌, ◌^◌, Bool, ◌&&◌, not, ◌==◌, if◌then◌else◌, bit_and, bit_or}
use winfuse.Cache.{Rtl}
use winfuse.Path.{PosixString, posix_path_suffix}
use winfuse.Status.{nt_success, status_success, status_object_name_invalid}
use winfuse.Fuseop.{State, Run, done, ◌>>=◌, resume, on_success, fail, CreateRequest}
use winfuse.Fuseop.Access.{access_check}
use winfuse.Fuseop.Lookup.{lookup, lookup_path}
use winfuse.Fuseop.Right

-- FlagOn.
abbrev pub flag_on : ℕ → ℕ → Bool
flag_on x flags = not (bit_and x flags == 0)

-- FILE_DIRECTORY_FILE and FILE_DELETE_ON_CLOSE.
abbrev pub directory_file : ℕ
directory_file = 0x1

abbrev pub delete_on_close : ℕ
delete_on_close = 0x1000

-- FILE_ADD_FILE and FILE_ADD_SUBDIRECTORY, which are other names of the rights to write and append.
abbrev pub add_file : ℕ
add_file = Right.write_data

abbrev pub add_subdirectory : ℕ
add_subdirectory = Right.append_data

abbrev pub disposition : CreateRequest → ℕ
disposition r = r.create_options / 2 ^ 24 % 2 ^ 8

abbrev pub disposition_supersede : ℕ
disposition_supersede = 0

-- What FusePosixPathSuffix leaves, and the suffix.
abbrev pub parent_path : State → PosixString
parent_path s = (posix_path_suffix s.memory s.orig_path).0

abbrev pub suffix_path : State → PosixString
suffix_path s = (posix_path_suffix s.memory s.orig_path).1

abbrev null_string : PosixString
null_string = record { length = 0; maximum_length = 0; buffer = 0 }

-- The access that is granted, but for the rights in `rights` that were not asked for.
unfoldable pub reset_rights : CreateRequest → ℕ → ℕ → ℕ
reset_rights r rights granted =
    if flag_on r.desired_access Right.maximum_allowed
    then granted
    else bit_and granted (bit_or (0xffff_ffff - rights) (bit_and r.desired_access rights))

unfoldable pub set_opened : CreateRequest → State → ℕ → Run
set_opened r s granted =
    done (record s {
      opened_granted_access = bit_or granted r.granted_access;
      status = status_success;
    })

-- DELETE, where the file is to be deleted when it is closed.
abbrev pub delete_right : CreateRequest → ℕ
delete_right r = if flag_on r.create_options delete_on_close then Right.delete else 0

module _ (rtl : Rtl) (generic_all : ℕ) where
  -- FuseCreateCheck; `generic_all` is that of the system's mapping for files.
  unfoldable pub create_check : CreateRequest → State → Run
  unfolding set_opened
  create_check r s =
      let desired =
        if r.has_restore_privilege
        then 0
        else if flag_on r.create_options directory_file
        then add_subdirectory
        else add_file in
      if r.has_trailing_backslash && not (flag_on r.create_options directory_file)
      then fail status_object_name_invalid s
      else (do
        t ← lookup_path rtl (record s { desired_access = desired; remain = parent_path s })
        set_opened r t (
            if flag_on r.desired_access Right.maximum_allowed
            then generic_all
            else r.desired_access))

  -- FuseOpenCheck.
  unfoldable pub open_check : CreateRequest → State → Run
  unfolding set_opened reset_rights
  open_check r s = do
    t ← lookup_path rtl (record s {
      desired_access = bit_or r.desired_access (delete_right r);
      remain = s.orig_path;
    })
    set_opened r t (reset_rights r Right.delete t.granted_access)

  -- FuseOverwriteCheck.
  unfoldable pub overwrite_check : CreateRequest → State → Run
  unfolding set_opened reset_rights
  overwrite_check r s = do
    t ← lookup_path rtl (record s {
      desired_access =
          bit_or
            (bit_or r.desired_access
              (if disposition_supersede == disposition r then Right.delete else Right.write_data))
            (delete_right r);
      remain = s.orig_path;
    })
    set_opened r t (reset_rights r (bit_or Right.delete Right.write_data) t.granted_access)

  -- FuseOpenTargetDirectoryCheck.
  unfoldable pub open_target_directory_check : CreateRequest → State → Run
  unfolding set_opened
  open_target_directory_check r s = do
    t ← lookup_path rtl (record s { desired_access = r.desired_access; remain = parent_path s })
    set_opened r t t.granted_access

  -- The end of FuseRenameCheck: the second path is kept, and the first is cleared.
  unfoldable pub rename_found : State → State
  rename_found s = record s {
    orig_path2 = s.orig_path;
    name2 = s.name;
    ino = 0;
    orig_path = null_string;
    name = null_string;
  }

  -- The check on a file that is to be replaced, which is not made without a token.
  unfoldable pub rename_checked : (access_token : ℕ) → State → Run
  unfolding rename_found
  rename_checked access_token s =
      let check =
        access_check s.attr.uid s.attr.gid s.attr.mode s.origin.uid s.origin.gid Right.delete in
      let checked =
        (if access_token == 0
          then s
          else record s { status = check.0; granted_access = check.1 }) in
      on_success (λ t. done (rename_found (record t { status = status_success }))) checked

  -- FuseRenameCheck; a file of the new name need not exist.
  unfoldable pub rename_check : (access_token : ℕ) → State → Run
  unfolding rename_found rename_checked
  rename_check access_token s = do
    t ← lookup_path rtl (record s { desired_access = 0; remain = parent_path s })
    resume (lookup rtl (record t { ino2 = t.ino; name = suffix_path t })) (λ u.
        if not (nt_success u.status) then done (rename_found u) else rename_checked access_token u)
