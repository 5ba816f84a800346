-- ===== src/Fuseop/Change.antt =====
-- More operations on open files of src/shared/km/fuseop.c: deletion, renaming and flushing.
use winfuse.Base.{
  ℕ, zero, suc, ◌+◌, ◌*◌, ◌/◌, ◌%◌, ◌^◌, Bool, true, false, ◌&&◌, ◌||◌, not, ◌==◌, ltb,
  if◌then◌else◌, bit_and,
}
use winfuse.Cache.{Rtl}
use winfuse.Cache.Entries.{remove_entry}
use winfuse.Path.{Memory}
use winfuse.Proto.Send.{send_readdir, send_rename, send_fsync, send_fsyncdir}
use winfuse.Status.{
  nt_success, status_success, status_internal_error, status_directory_not_empty,
  status_object_name_not_found, status_object_path_not_found, status_object_name_collision,
  status_access_denied, status_invalid_device_request,
}
use winfuse.Fuseop.{
  State, Run, done, ◌>>=◌, resume, fail, send, send_optional, cache_of, set_cache, file_of, bytes,
}
use winfuse.Fuseop.Check.{parent_path, suffix_path, rename_check}
use winfuse.Fuseop.Files.{set_context_file, fgetattr, changed}
use winfuse.Fuseop.Io.{rsp_header_size}
use winfuse.Fuseop.Lookup.{lookup_path, prepare_lookup_path, prepare_lookup_path2}

-- The offset of the name in a FUSE_PROTO_DIRENT, and the length of the name, 32 bits at offset 16.
abbrev pub dirent_name : ℕ
dirent_name = 24

unfoldable pub namelen : Memory → ℕ → ℕ
namelen m p = m (p + 16) + 2 ^ 8 * m (p + 17) + 2 ^ 16 * m (p + 18) + 2 ^ 24 * m (p + 19)

-- FSP_FSCTL_ALIGN_UP.
abbrev pub align_up8 : ℕ → ℕ
align_up8 n = (n + 7) / 8 * 8

-- The name is "." or "..".
unfoldable pub is_dot : Memory → ℕ → Bool
unfolding namelen
is_dot m p =
    1 == namelen m p && m (p + 24) == b'.'
    || 2 == namelen m p && (m (p + 24) == b'.' && m (p + 25) == b'.')

-- The loop over the entries from `p` on: whether there are none but "." and "..". A round passes 24
-- bytes at least, so that the bytes are enough rounds.
unfoldable pub only_dots : ℕ → Memory → (end_p p : ℕ) → Bool
unfolding is_dot namelen
only_dots zero m end_p p = true
only_dots (suc fuel) m end_p p =
    let rest = only_dots fuel m end_p (p + align_up8 (dirent_name + namelen m p)) in
    if ltb end_p (p + dirent_name) || ltb end_p (p + dirent_name + namelen m p)
    then true
    else if is_dot m p
    then rest
    else false

-- The entries ".", ".." and one with a name of up to 255 bytes.
abbrev pub set_delete_length : ℕ
set_delete_length = 344

-- FuseOpSetInformation_SetDelete.
pub op_set_delete : (delete : Bool) (file : ℕ) → State → Run
unfolding only_dots
op_set_delete delete file s =
    let t = set_context_file s file in
    if delete && ((file_of t).is_directory && not (file_of t).is_reparse_point)
    then (do
      u ←
          send
            (λ v.
              let f = file_of v in
              send_readdir v.origin f.ino f.fh 0 set_delete_length f.open_flags)
            t
      let len = u.response.len
      if ltb (rsp_header_size + set_delete_length) len
          then fail status_internal_error u
          else fail
              (if only_dots len u.response.content len rsp_header_size
                then status_success
                else status_directory_not_empty)
              u)
    else fail status_success t

module _ (rtl : Rtl) (sector_size sectors : ℕ) where
  -- The new name is taken, unless it is another spelling of the old one; a file is replaced only for a
  -- caller with a token, and a directory never.
  rename_status : (case_sensitive non_existent is_directory : Bool) (access_token : ℕ) → State → ℕ
  rename_status case_sensitive non_existent is_directory access_token s =
      let same_name =
        rtl.equal_string (bytes s.memory s.name.buffer s.name.length)
          (bytes s.memory s.name2.buffer s.name2.length) true in
      if not non_existent && (case_sensitive || (not (s.ino == s.ino2) || not same_name))
      then (if access_token == 0
          then status_object_name_collision
          else if is_directory
          then status_access_denied
          else status_success)
      else status_success

  -- FuseOpSetInformation_Rename from the check of the new name on.
  rename_to : (case_sensitive non_existent is_directory : Bool) (access_token : ℕ) → State → Run
  unfolding rename_status
  rename_to case_sensitive non_existent is_directory access_token s = do
    t ← prepare_lookup_path2 s
    u ← lookup_path rtl (record t { remain = parent_path t })
    let named = record u { name = suffix_path u }
    v ← fail (rename_status case_sensitive non_existent is_directory access_token named) named
    w ←
        send
          (λ x.
            send_rename x.origin x.ino (bytes x.memory x.name.buffer x.name.length) x.ino2
              (bytes x.memory x.name2.buffer x.name2.length))
          v
    let once = remove_entry rtl (cache_of w) w.ino (bytes w.memory w.name.buffer w.name.length)
    done
        (record (set_cache w
          (remove_entry rtl once w.ino2 (bytes w.memory w.name2.buffer w.name2.length))) {
            status = status_success;
          })

  -- FuseOpSetInformation_Rename; the new name may not exist.
  pub op_rename : (case_sensitive : Bool) (access_token file : ℕ) → State → Run
  unfolding rename_to
  op_rename case_sensitive access_token file s = do
    t ← prepare_lookup_path (set_context_file s file)
    resume (rename_check rtl 0 access_token t) (λ u.
        if nt_success u.status
        then rename_to case_sensitive false (bit_and u.attr.mode 0o170000 == 0o040000) access_token
            u
        else if status_object_path_not_found == u.status || status_object_name_not_found == u.status
        then rename_to case_sensitive true false access_token u
        else done u)

  -- FuseOpFlushBuffers; a volume is not flushed.
  pub op_flush_buffers : (file : ℕ) → State → Run
  op_flush_buffers file s =
      let t = set_context_file s file in
      if file == 0
      then fail status_success t
      else resume
          (if (file_of t).is_directory
            then send_optional 30 (λ v. let f = file_of v in send_fsyncdir v.origin f.ino f.fh) t
            else send_optional 20 (λ v. let f = file_of v in send_fsync v.origin f.ino f.fh) t)
          (λ u.
            if not (nt_success u.status) && not (status_invalid_device_request == u.status)
            then done u
            else (do v ← fgetattr u; changed rtl sector_size sectors v))

-- FuseOpQueryVolumeInformation: the status, and the total and the free size.
pub query_volume_sizes : (blocks bfree frsize : ℕ) → ℕ × ℕ
query_volume_sizes blocks bfree frsize = (blocks * frsize % 2 ^ 64, bfree * frsize % 2 ^ 64)
