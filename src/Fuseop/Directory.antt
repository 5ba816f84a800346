-- ===== src/Fuseop/Directory.antt =====
-- FuseOpQueryDirectory of src/shared/km/fuseop.c. The entries of a response to READDIR are a copy of its
-- bytes, `m`, from the header on; the memory of names is that copy.
use winfuse.Base.{
  ℕ, zero, suc, ◌+◌, ◌*◌, ◌/◌, ◌^◌, Bool, true, false, ◌&&◌, ◌||◌, not, none, some, ◌==◌, ltb,
  if◌then◌else◌,
}
use winfuse.Cache.{Rtl}
use winfuse.Cache.Gens.{reference_gen, dereference_gen}
use winfuse.File.{Instance}
use winfuse.Path.{Memory, posix_string, ushort}
use winfuse.Proto.Send.{send_getattr, send_readdir}
use winfuse.Status.{
  nt_success, status_success, status_internal_error, status_insufficient_resources,
  status_object_name_not_found,
}
use winfuse.Fuseop.{
  State, Run, done, copy, given, to_caller, ◌>>=◌, resume, on_success, fail, send, cache_of,
  set_cache, file_of,
}
use winfuse.Fuseop.Change.{namelen, is_dot, align_up8, dirent_name}
use winfuse.Fuseop.Io.{rsp_header_size}
use winfuse.Fuseop.Lookup.{lookup, allocation}

-- Where the entries go: the bytes of the caller.
pub record Buffer : Type 0 where
  pub address : ℕ
  pub length : ℕ

-- A number of 64 bits, the lowest byte first.
abbrev read64 : Memory → ℕ → ℕ
read64 m p =
    m p
    + 2 ^ 8 * m (p + 1)
    + 2 ^ 16 * m (p + 2)
    + 2 ^ 24 * m (p + 3)
    + 2 ^ 32 * m (p + 4)
    + 2 ^ 40 * m (p + 5)
    + 2 ^ 48 * m (p + 6)
    + 2 ^ 56 * m (p + 7)

-- FUSE_PROTO_UNKNOWN_INO.
abbrev unknown_ino : ℕ
unknown_ino = 0xffff_ffff

-- A write of FuseAddDirInfo behind the `bytes` that are there: whether it was added, and the bytes then.
unfoldable pub add_bytes : Buffer → ℕ → ℕ → ℕ → State → (Bool → ℕ → State → Run) → Run
add_bytes b bytes size aligned s k =
    let t = record s { status = status_success } in
    if ltb b.length (bytes + aligned)
    then k false bytes t
    else copy (to_caller (b.address + bytes) size) (λ status.
      if nt_success status
      then k true (bytes + aligned) t
      else k false bytes (record t { status = status }))

-- FuseAddDirInfo without a name: the end of the directory.
unfoldable pub add_end : Buffer → ℕ → State → (Bool → ℕ → State → Run) → Run
unfolding add_bytes
add_end b bytes s k = add_bytes b bytes 2 2 s k

-- The bytes that were added are reported.
abbrev pub report : ℕ → State → Run
report bytes s = done (record s { status = status_success; information = bytes })

module _ (rtl : Rtl) (dir_info_size : ℕ) where
  -- FuseAddDirInfo with a name, of what RtlUTF8ToUnicodeN returns for it; a name that has no such form
  -- is passed over. `dir_info_size` is the size of FSP_FSCTL_DIR_INFO.
  unfoldable pub add_dir_info : Buffer → ℕ → State → (Bool → ℕ → State → Run) → Run
  unfolding add_bytes
  add_dir_info b bytes s k = given λ wide_status. given λ wide_length.
      if not (nt_success wide_status)
      then k true bytes (record s { status = status_success })
      else add_bytes b bytes (dir_info_size + wide_length) (align_up8 (dir_info_size + wide_length))
          s k

  -- What is added, after a lookup: the entry and the end of the directory, or, where there is no such
  -- file, the end.
  abbrev pub then_end : Buffer → Bool → ℕ → State → Run
  then_end b added bytes s =
      if added
      then add_end b bytes s (λ _ more t. on_success (report more) t)
      else on_success (report bytes) s

  unfoldable pub add_by_name : Buffer → State → Run
  unfolding add_dir_info add_end
  add_by_name b s =
      if nt_success s.status
      then add_dir_info b 0 s (then_end b)
      else if status_object_name_not_found == s.status
      then then_end b true 0 s
      else done s

  -- FuseOpQueryDirectory_GetDirInfoByName.
  unfoldable pub get_dir_info_by_name : Buffer → State → Run
  unfolding add_by_name
  get_dir_info_by_name b s = given λ path_status. given λ path. given λ path_length.
      if not (nt_success path_status)
      then fail path_status s
      else resume
          (lookup rtl (record s {
            ino = (file_of s).ino;
            name = record { length = path_length; maximum_length = path_length + 1; buffer = path };
          }))
          (add_by_name b)

  -- The attributes of an entry: those of its inode, for "." and "..", or those that a lookup finds.
  unfoldable pub entry_attr : Memory → ℕ → State → Run
  unfolding is_dot
  entry_attr m p s =
      let n = ushort (namelen m p) in
      let t = record s { memory = m; name = posix_string n (p + dirent_name) } in
      let dots =
        1 == n && m (p + 24) == b'.' || 2 == n && (m (p + 24) == b'.' && m (p + 25) == b'.') in
      if dots
      then (do
        u ←
            send (λ v. send_getattr v.origin v.ino)
              (record t { ino = if unknown_ino == read64 m p then (file_of t).ino else read64 m p })
        done (record u { attr = u.response.attr }))
      else lookup rtl (record t { ino = (file_of t).ino })

  -- The end of FuseOpQueryDirectory_ReadDirectory; no progress tells the end of the directory.
  unfoldable pub read_directory_end : Buffer → ℕ → ℕ → State → Run
  unfolding add_end
  read_directory_end b p bytes s =
      if p == rsp_header_size then add_end b bytes s (λ _. report) else report bytes s

  -- The end of a round: an entry that could not be added ends the loop.
  unfoldable pub after_entry : (ℕ → State → Run) → Buffer → ℕ → Bool → ℕ → State → Run
  unfolding read_directory_end
  after_entry again b p added more s =
      if not (nt_success s.status)
      then done s
      else if not added
      then read_directory_end b p more s
      else again more s

  -- A round of its loop, up to the next.
  unfoldable pub directory_round :
      (ℕ → State → Run) → Buffer → Memory → (end_p p bytes : ℕ) → State → Run
  unfolding entry_attr add_dir_info read_directory_end after_entry
  directory_round again b m end_p p bytes s =
      if ltb end_p (p + dirent_name) || ltb end_p (p + dirent_name + namelen m p)
      then read_directory_end b p bytes s
      else (do t ← entry_attr m p s; add_dir_info b bytes t (after_entry again b p))

  unfoldable pub directory_loop : ℕ → Buffer → Memory → (end_p p bytes : ℕ) → State → Run
  unfolding directory_round read_directory_end
  directory_loop zero b m end_p p bytes s = read_directory_end b p bytes s
  directory_loop (suc fuel) b m end_p p bytes s =
      directory_round (directory_loop fuel b m end_p (p + align_up8 (dirent_name + namelen m p))) b
        m end_p p bytes s

  -- What FuseOpQueryDirectory_ReadDirectory does with a response to READDIR of at most `length` bytes of
  -- entries. A round passes 24 bytes of the response at least, so that its length bounds the rounds.
  unfoldable pub entries_received : Buffer → (length : ℕ) → State → Run
  unfolding directory_loop
  entries_received b length t = given λ buffer.
      let len = t.response.len in
      if not (nt_success t.status)
      then done t
      else if ltb (rsp_header_size + length) len
      then fail status_internal_error t
      else if ltb rsp_header_size len && buffer == 0
      then fail status_insufficient_resources t
      else directory_loop len b t.response.content len rsp_header_size 0 t

  -- FuseOpQueryDirectory_ReadDirectory, from a marker on.
  unfoldable pub read_directory : Buffer → (marker : ℕ) → State → Run
  unfolding entries_received
  read_directory b marker s =
      let length = b.length / (dir_info_size + 48) * 48 in
      resume
        (send
          (λ v. let f = file_of v in send_readdir v.origin f.ino f.fh marker length f.open_flags) s)
        (entries_received b length)

  -- FuseOpQueryDirectory.
  unfoldable pub op_query_directory : Buffer → (by_name : Bool) (file marker : ℕ) → State → Run
  unfolding get_dir_info_by_name read_directory
  op_query_directory b by_name file marker s = given λ now. given λ new.
      let t = record s { file = file } in
      let (c, referenced) = reference_gen (cache_of t) now (allocation new) in
      elim referenced [
        | none ↦ fail status_insufficient_resources (set_cache t c)
        | some gen ↦
            let u = record (set_cache t c) { cache_gen = gen } in
            if by_name then get_dir_info_by_name b u else read_directory b marker u
      ]

-- FuseOpQueryDirectory_ContextFini.
pub op_query_directory_context_fini : State → Instance
op_query_directory_context_fini s =
    let i = s.world.instance in record i { cache = dereference_gen i.cache s.cache_gen }
