-- ===== src/Fuseop/Dispose.antt =====
-- FuseOpCreate of src/shared/km/fuseop.c: the dispositions of CREATE.
use winfuse.Base.{ℕ, ◌||◌, not, ◌==◌, if◌then◌else◌}
use winfuse.Cache.{Rtl}
use winfuse.Status.{
  nt_success, status_success, status_invalid_parameter, status_object_name_invalid,
  status_object_name_not_found,
}
use winfuse.Fuseop.{State, Run, done, ◌>>=◌, resume, fail, CreateRequest}
use winfuse.Fuseop.Check.{
  disposition, suffix_path, create_check, open_check, overwrite_check, open_target_directory_check,
  disposition_supersede,
}
use winfuse.Fuseop.Create.{create, open_file, file_overwritten, file_exists, file_does_not_exist}
use winfuse.Fuseop.Lookup.{lookup, prepare_lookup_path}

abbrev pub disposition_open : ℕ
disposition_open = 1

abbrev pub disposition_create : ℕ
disposition_create = 2

abbrev pub disposition_open_if : ℕ
disposition_open_if = 3

abbrev pub disposition_overwrite : ℕ
disposition_overwrite = 4

abbrev pub disposition_overwrite_if : ℕ
disposition_overwrite_if = 5

module _ (rtl : Rtl) (generic_all sector_size sectors : ℕ) where
  -- FuseOpCreate_FileCreate.
  unfoldable pub op_create_file_create : CreateRequest → State → Run
  op_create_file_create r s = do
    t ← create_check rtl generic_all r s
    create rtl generic_all sector_size sectors r (record t { name = suffix_path t })

  -- FuseOpCreate_FileOpen.
  unfoldable pub op_create_file_open : CreateRequest → State → Run
  op_create_file_open r s = do
    t ← open_check rtl generic_all r s
    open_file rtl generic_all sector_size sectors t

  -- FuseOpCreate_FileOpenIf.
  unfoldable pub op_create_file_open_if : CreateRequest → State → Run
  unfolding op_create_file_create
  op_create_file_open_if r s = resume (open_check rtl generic_all r s) (λ t.
      if nt_success t.status
      then open_file rtl generic_all sector_size sectors t
      else if not (status_object_name_not_found == t.status)
      then done t
      else op_create_file_create r t)

  abbrev pub overwritten : State → State
  overwritten s = record s { information = file_overwritten }

  -- FuseOpCreate_FileOverwrite.
  unfoldable pub op_create_file_overwrite : CreateRequest → State → Run
  op_create_file_overwrite r s = do
    t ← overwrite_check rtl generic_all r s
    u ← open_file rtl generic_all sector_size sectors t
    done (overwritten u)

  -- FuseOpCreate_FileOverwriteIf.
  unfoldable pub op_create_file_overwrite_if : CreateRequest → State → Run
  unfolding op_create_file_create
  op_create_file_overwrite_if r s = resume (overwrite_check rtl generic_all r s) (λ t.
      if nt_success t.status
      then (do u ← open_file rtl generic_all sector_size sectors t; done (overwritten u))
      else if not (status_object_name_not_found == t.status)
      then done t
      else op_create_file_create r t)

  -- FuseOpCreate_FileOpenTargetDirectory: the directory is opened, and the file looked for.
  unfoldable pub op_create_file_open_target_directory : CreateRequest → State → Run
  op_create_file_open_target_directory r s = do
    t ← open_target_directory_check rtl generic_all r s
    u ← open_file rtl generic_all sector_size sectors t
    resume (lookup rtl (record u { name = suffix_path u })) (λ v. done (record v {
      information = if nt_success v.status then file_exists else file_does_not_exist;
      status = status_success;
    }))

  -- FuseOpCreate.
  unfoldable pub op_create : CreateRequest → State → Run
  unfolding op_create_file_create op_create_file_open op_create_file_open_if
      op_create_file_overwrite op_create_file_overwrite_if op_create_file_open_target_directory
  op_create r s = if r.named_stream then fail status_object_name_invalid s else do
    t ← prepare_lookup_path s
    if r.open_target_directory
        then op_create_file_open_target_directory r t
        else if disposition_create == disposition r
        then op_create_file_create r t
        else if disposition_open == disposition r
        then op_create_file_open r t
        else if disposition_open_if == disposition r
        then op_create_file_open_if r t
        else if disposition_overwrite == disposition r
        then op_create_file_overwrite r t
        else if disposition_overwrite_if == disposition r || disposition_supersede == disposition r
        then op_create_file_overwrite_if r t
        else fail status_invalid_parameter t
