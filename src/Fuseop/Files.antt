-- ===== src/Fuseop/Files.antt =====
-- The operations on open files of src/shared/km/fuseop.c.
use winfuse.Base.{ℕ, Bool, ◌&&◌, not, ◌==◌, ltb, if◌then◌else◌}
use winfuse.Cache.{Attr, Rtl}
use winfuse.Cache.Entries.{quick_expire_item, remove_entry}
use winfuse.File.{Instance, file_delete}
use winfuse.Proto.{attr_to_file_info}
use winfuse.Proto.Send.{
  send_fgetattr, send_ftruncate, send_futimens, send_rmdir, send_unlink, send_release,
  send_releasedir, zero_attr, utime_omit,
}
use winfuse.Status.{status_success}
use winfuse.Times.{file_time_to_unix_time}
use winfuse.Fuseop.{State, Run, done, ◌>>=◌, resume, send, name_of, cache_of, set_cache, file_of}
use winfuse.Fuseop.Check.{parent_path, suffix_path}
use winfuse.Fuseop.Lookup.{lookup_path, prepare_lookup_path}

abbrev pub set_context_file : State → ℕ → State
set_context_file s file = record s { file = file }

pub fgetattr : State → Run
fgetattr s = send (λ v. let f = file_of v in send_fgetattr v.origin f.is_directory f.ino f.fh) s

ftruncate : Attr → State → Run
ftruncate attr s = send (λ v. let f = file_of v in send_ftruncate v.origin f.ino f.fh attr) s

module _ (rtl : Rtl) (sector_size sectors : ℕ) where
  -- The file information of a response to GETATTR.
  pub with_info : State → Run
  with_info s = done (record s {
    response_file_info = attr_to_file_info sector_size sectors s.response.attr;
    status = status_success;
  })

  -- An operation that has changed the file: its cached entry is not used any longer.
  pub changed : State → Run
  unfolding with_info
  changed s = with_info (set_cache s (quick_expire_item (cache_of s) (file_of s).cache_item))

  -- FuseOpOverwrite; the size in the context is that of a new context, 0.
  pub op_overwrite : (file : ℕ) → State → Run
  unfolding fgetattr ftruncate changed
  op_overwrite file s = do
    t ← ftruncate zero_attr (set_context_file s file)
    u ← fgetattr t
    changed u

  -- FuseOpCleanup; whatever user mode answers, the entry is removed from the cache.
  pub op_cleanup : (delete : Bool) (file : ℕ) → State → Run
  op_cleanup delete file s = if not delete then done s else do
    t ← prepare_lookup_path (set_context_file s file)
    u ← lookup_path rtl (record t { remain = parent_path t })
    resume
        ((if (file_of u).is_directory
            then send (λ v. send_rmdir v.origin v.ino (name_of v))
            else send (λ v. send_unlink v.origin v.ino (name_of v)))
          (record u { name = suffix_path u }))
        (λ v. done (record (set_cache v (remove_entry rtl (cache_of v) v.ino (name_of v))) {
          status = status_success;
        }))

  -- FuseOpClose; reparse points were not opened.
  pub op_close : (file : ℕ) → State → Run
  op_close file s =
      let t = set_context_file s file in
      let f = file_of t in
      if f.is_reparse_point
      then done t
      else if f.is_directory
      then send (λ v. send_releasedir v.origin f.ino f.fh f.open_flags) t
      else send (λ v. send_release v.origin f.ino f.fh f.open_flags) t

  -- FuseOpClose_ContextFini.
  pub op_close_context_fini : State → Instance
  op_close_context_fini s =
      if s.file == 0 then s.world.instance else file_delete s.world.instance s.file

  -- FuseOpQueryInformation.
  pub op_query_information : (file : ℕ) → State → Run
  unfolding fgetattr with_info
  op_query_information file s = do t ← fgetattr (set_context_file s file); with_info t

  -- The times that SetBasicInfo sends; a time of 0 is left as it is.
  basic_times : (last_access_time last_write_time : ℕ) → Attr
  basic_times last_access_time last_write_time =
      let (atime, atimensec) = file_time_to_unix_time last_access_time in
      let (mtime, mtimensec) = file_time_to_unix_time last_write_time in
      record zero_attr {
        atime = if last_access_time == 0 then 0 else atime;
        atimensec = if last_access_time == 0 then utime_omit else atimensec;
        mtime = if last_write_time == 0 then 0 else mtime;
        mtimensec = if last_write_time == 0 then utime_omit else mtimensec;
      }

  set_times : (last_access_time last_write_time : ℕ) → State → Run
  unfolding basic_times
  set_times last_access_time last_write_time s =
      if last_access_time == 0 && last_write_time == 0
      then done (record s { status = status_success })
      else send
          (λ v.
            let f = file_of v in
            send_futimens v.origin f.is_directory f.ino f.fh
              (basic_times last_access_time last_write_time))
          s

  -- FuseOpSetInformation_SetBasicInfo.
  pub op_set_basic_info : (file last_access_time last_write_time : ℕ) → State → Run
  unfolding fgetattr changed set_times
  op_set_basic_info file last_access_time last_write_time s = do
    t ← set_times last_access_time last_write_time (set_context_file s file)
    u ← fgetattr t
    changed u

  -- FuseOpSetInformation_SetAllocationSize: a file is only made shorter.
  pub op_set_allocation_size : (file allocation_size : ℕ) → State → Run
  unfolding fgetattr ftruncate changed
  op_set_allocation_size file allocation_size s = do
    t ← fgetattr (set_context_file s file)
    u ←
        (if ltb allocation_size t.response.attr.size
          then (do v ← ftruncate (record zero_attr { size = allocation_size }) t; fgetattr v)
          else done t)
    changed u

  -- FuseOpSetInformation_SetFileSize.
  pub op_set_file_size : (file file_size : ℕ) → State → Run
  unfolding fgetattr ftruncate changed
  op_set_file_size file file_size s = do
    t ← ftruncate (record zero_attr { size = file_size }) (set_context_file s file)
    u ← fgetattr t
    changed u
