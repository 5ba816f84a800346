-- ===== src/Fuseop/Create.antt =====
-- FuseCreate, FuseOpen and the operations of CREATE, of src/shared/km/fuseop.c.
use winfuse.Base.{
  ℕ, ◌+◌, Bool, true, false, ◌&&◌, ◌||◌, not, none, some, ◌==◌, if◌then◌else◌, bit_and, bit_or,
}
use winfuse.Cache.{Entry, Rtl, update}
use winfuse.Cache.Entries.{set_entry}
use winfuse.File.{File, file_create, attach_item}
use winfuse.Proto.{attr_to_file_info}
use winfuse.Proto.Send.{
  send_mkdir, send_mknod, send_create, send_open, send_opendir, send_release, send_releasedir,
  send_lookup_chown,
}
use winfuse.Status.{
  nt_success, status_success, status_insufficient_resources, status_invalid_device_request,
}
use winfuse.Fuseop.{
  State, Run, done, given, ◌>>=◌, resume, fail, send, send_optional, name_of, cache_of, set_cache,
  file_of, CreateRequest,
}
use winfuse.Fuseop.Check.{flag_on, directory_file}
use winfuse.Fuseop.Lookup.{allocation}
use winfuse.Fuseop.Right

-- FILE_OPENED and the other values of Information.
abbrev pub file_opened : ℕ
file_opened = 1

abbrev pub file_created : ℕ
file_created = 2

abbrev pub file_overwritten : ℕ
file_overwritten = 3

abbrev pub file_exists : ℕ
file_exists = 4

abbrev pub file_does_not_exist : ℕ
file_does_not_exist = 5

abbrev pub set_file : State → File → State
set_file s f = record s {
  world = record s.world {
    instance = record s.world.instance { files = update s.world.instance.files s.file f };
  };
}

-- FuseFileCreate, and what follows where it succeeds.
unfoldable pub with_new_file : State → (State → Run) → Run
with_new_file s k = given λ new.
    let (i, file) = file_create s.world.instance (allocation new) in
    elim file [
      | none ↦ fail status_insufficient_resources s
      | some f ↦ k (record s { world = record s.world { instance = i }; file = f })
    ]

-- The file takes the inode, the handle and the item, and a reference on the item.
unfoldable pub attach : State → (fh : ℕ) → (is_directory : Bool) → State
attach s fh is_directory =
    let f = file_of s in
    let t =
      set_file s
        (record f { ino = s.ino; fh = fh; is_directory = f.is_directory || is_directory }) in
    record t {
      world = record t.world { instance = attach_item t.world.instance t.file t.cache_item };
    }

-- FUSE_PROTO_OPEN_DIRECT_IO.
abbrev pub direct_io : ℕ → Bool
direct_io open_flags = flag_on open_flags 1

-- The member Opened of a response to CREATE, with the sizes of VolumeParams.
unfoldable pub fill_opened : (sector_size sectors : ℕ) → State → State
fill_opened sector_size sectors s = record s {
  opened_user_context = s.file;
  response_file_info = attr_to_file_info sector_size sectors s.attr;
  opened_disable_cache = s.disable_cache;
}

abbrev pub origin_flags : State → ℕ
origin_flags s = (file_of s).open_flags

module _ (rtl : Rtl) (generic_all sector_size sectors : ℕ) where
  -- The entry of a file that was made is cached, and the lookup goes on from it.
  unfoldable pub made : State → Entry → (State → Run) → Run
  made s entry k = given λ now. given λ new.
      let (c, item) = set_entry rtl (cache_of s) now s.ino (name_of s) entry new in
      k (record (set_cache s c) { cache_item = item; ino = entry.nodeid; attr = entry.attr })

  -- MKDIR and OPENDIR.
  unfoldable pub create_directory : State → Run
  unfolding made attach
  create_directory s = do
    t ← send (λ v. send_mkdir v.origin v.ino (name_of v) v.attr) s
    made t t.response.entry (λ u. do
      v ← send (λ v. send_opendir v.origin v.ino (origin_flags v)) u
      done (
          attach (record v { disable_cache = direct_io v.response.open_flags }) v.response.open_fh
            true))

  -- MKNOD and OPEN, where CREATE is not implemented.
  unfoldable pub create_node : State → Run
  unfolding made attach
  create_node s = do
    t ← send (λ v. send_mknod v.origin v.ino (name_of v) v.attr) s
    made t t.response.entry (λ u. do
      v ← send (λ v. send_open v.origin v.ino (origin_flags v)) u
      done (
          attach (record v { disable_cache = direct_io v.response.open_flags }) v.response.open_fh
            false))

  -- CREATE, or MKNOD and OPEN.
  unfoldable pub create_file : State → Run
  unfolding made attach create_node
  create_file s =
      resume
        (send_optional 35 (λ v. send_create v.origin v.ino (name_of v) v.attr (origin_flags v)) s)
        (λ t.
          if nt_success t.status
          then made t t.response.entry (λ u. done (
              attach (record u { disable_cache = direct_io u.response.create_open_flags })
                u.response.create_fh false))
          else if not (status_invalid_device_request == t.status)
          then done t
          else create_node t)

  -- The end of FuseCreate. The file is no longer that of the context, so that it stays.
  unfoldable pub create_end : State → State
  create_end s = record s { status = status_success; information = file_created; file = 0 }

  -- The file that could not be given to its owner is released.
  unfoldable pub create_cleanup : State → Run
  create_cleanup s =
      let f = file_of s in
      if f.is_directory
      then send (λ v. send_releasedir v.origin f.ino f.fh f.open_flags) s
      else send (λ v. send_release v.origin f.ino f.fh f.open_flags) s

  -- The owner of the new file, by its security descriptor, which is read again.
  unfoldable pub create_chown : State → Run
  unfolding create_end create_cleanup
  create_chown s = given λ sd_status. given λ uid. given λ gid.
      let t = record s { attr = record s.attr { uid = uid; gid = gid } } in
      if not (nt_success sd_status)
      then create_cleanup (record s { status = sd_status })
      else resume
          (send
            (λ v. let f = file_of v in send_lookup_chown v.origin f.is_directory f.ino f.fh v.attr)
            t)
          (λ u.
            if not (nt_success u.status) && not (status_invalid_device_request == u.status)
            then create_cleanup u
            else done (
                create_end (record u {
                  response_file_info = attr_to_file_info sector_size sectors u.response.attr;
                })))

  -- The mode of the new file, and whether its owner is another than the user.
  unfoldable pub with_mode : CreateRequest → State → (State → Run) → Run
  with_mode r s k =
      if r.security_descriptor_offset == 0
      then k (record s { attr = record s.attr { rdev = 0; mode = 0o777 } })
      else given λ sd_status. given λ uid. given λ gid. given λ mode.
        if not (nt_success sd_status)
        then fail sd_status (record s { attr = record s.attr { rdev = 0; mode = 0o777 } })
        else k (record s {
          attr = record s.attr { rdev = 0; mode = mode };
          chown = not (uid == s.origin.uid) || not (gid == s.origin.gid);
        })

  -- FuseCreate; O_CREAT, O_EXCL and O_RDWR have the bits 0x502.
  unfoldable pub create : CreateRequest → State → Run
  unfolding with_new_file create_directory create_file fill_opened create_end create_chown with_mode
  create r s = with_new_file s (λ t.
      with_mode r (set_file t (record (file_of t) { open_flags = 0x502 })) (λ u. do
        v ← (if flag_on r.create_options directory_file then create_directory u else create_file u)
        let w = fill_opened sector_size sectors v
        if w.chown then create_chown w else done (create_end w)))

  -- O_RDONLY, O_WRONLY or O_RDWR, by the rights to read and to write data.
  unfoldable pub access_flags : ℕ → ℕ
  access_flags granted =
      let asked = bit_and granted (Right.read_data + Right.write_data) in
      if asked == Right.write_data
      then 1
      else if asked == Right.read_data + Right.write_data
      then 2
      else 0

  -- O_APPEND, for a file that is opened to append.
  unfoldable pub append_flags : ℕ → ℕ → ℕ
  append_flags granted flags =
      if flag_on granted Right.append_data
      then bit_or (if flags == 0 then 1 else flags) 8
      else flags

  abbrev is_special : ℕ → Bool
  is_special kind =
      kind == 0o120000
      || (kind == 0o010000 || (kind == 0o020000 || (kind == 0o060000 || kind == 0o140000)))

  -- The end of FuseOpen.
  unfoldable pub opened : State → State
  unfolding fill_opened
  opened s = record (fill_opened sector_size sectors s) {
    status = status_success;
    information = file_opened;
    file = 0;
  }

  -- FuseOpen after the file was made; reparse points are not opened.
  unfoldable pub open_by_type : State → Run
  unfolding attach append_flags opened
  open_by_type s =
      let kind = bit_and s.attr.mode 0o170000 in
      let f = file_of s in
      if is_special kind
      then (let t = attach (record s { disable_cache = true }) f.fh false in
          done (opened (set_file t (record (file_of t) { is_reparse_point = true }))))
      else if kind == 0o040000
      then (do
        t ← send (λ v. send_opendir v.origin v.ino (origin_flags v)) s
        done (
            opened (
              attach (record t { disable_cache = direct_io t.response.open_flags })
                t.response.open_fh true)))
      else (do
        t ←
            send (λ v. send_open v.origin v.ino (origin_flags v))
              (set_file s
                (record f { open_flags = append_flags s.opened_granted_access f.open_flags }))
        done (
            opened (
              attach (record t { disable_cache = direct_io t.response.open_flags })
                t.response.open_fh false)))

  -- FuseOpen.
  unfoldable pub open_file : State → Run
  unfolding with_new_file access_flags open_by_type
  open_file s = with_new_file s (λ t.
      open_by_type
        (set_file t (record (file_of t) { open_flags = access_flags t.opened_granted_access })))
