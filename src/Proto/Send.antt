-- ===== src/Proto/Send.antt =====
-- The messages of src/shared/km/proto.c that the operations send: the members of a request that each
-- of them writes, after the buffer was cleared, and the members of a response.
use winfuse.Base.{
  ℕ, ◌+◌, ◌%◌, ◌^◌, List, [], length, ◌++◌, ◌∷◌, Bool, if◌then◌else◌, bit_or, ◌==◌, not,
}
use winfuse.Cache.{Attr, Entry}

-- What is written of the union of FUSE_PROTO_REQ.
pub data Body : Type 0 where
  no_body : Body
  forget_body : (nlookup : ℕ) → Body
  name_body : List ℕ → Body
  getattr_body : (getattr_flags fh : ℕ) → Body
  setattr_body : (valid fh : ℕ) → Attr → Body
  mkdir_body : (mode umask : ℕ) → List ℕ → Body
  mknod_body : (mode rdev umask : ℕ) → List ℕ → Body
  create_body : (flags mode umask : ℕ) → List ℕ → Body
  open_body : (flags : ℕ) → Body
  release_body : (fh flags : ℕ) → Body
  rename_body : (newdir : ℕ) → List ℕ → List ℕ → Body
  read_body : (fh offset size flags : ℕ) → Body
  write_body : (fh offset size flags : ℕ) → Body
  fsync_body : (fh : ℕ) → Body
  init_body : (major minor : ℕ) → Body

pub record Request : Type 0 where
  pub len : ℕ
  pub opcode : ℕ
  pub unique : ℕ
  pub nodeid : ℕ
  pub uid : ℕ
  pub gid : ℕ
  pub pid : ℕ
  pub body : Body

-- The members of FUSE_PROTO_RSP; those of its union are bytes of user mode, whatever it answers to.
pub record Response : Type 0 where
  pub len : ℕ
  pub error : ℕ
  pub entry : Entry
  pub attr_valid : ℕ
  pub attr_valid_nsec : ℕ
  pub attr : Attr
  pub open_fh : ℕ
  pub open_flags : ℕ
  pub create_fh : ℕ
  pub create_open_flags : ℕ
  pub write_size : ℕ
  pub init_major : ℕ
  pub init_minor : ℕ
  pub statfs_blocks : ℕ
  pub statfs_bfree : ℕ
  pub statfs_frsize : ℕ
  -- The bytes of the message, from its header on.
  pub content : ℕ → ℕ

-- What FuseProtoInitRequest copies from the context: its address, and the user and the process.
pub record Origin : Type 0 where
  pub context : ℕ
  pub uid : ℕ
  pub gid : ℕ
  pub pid : ℕ

-- FuseProtoInitRequest; lengths are cast to 32 bits.
pub init_request : Origin → ℕ → ℕ → ℕ → Body → Request
init_request o len opcode nodeid body = record {
  len = len % 2 ^ 32;
  opcode = opcode;
  unique = o.context;
  nodeid = nodeid;
  uid = o.uid;
  gid = o.gid;
  pid = o.pid;
  body = body;
}

-- A name is copied and a zero byte is put after it.
abbrev c_string : List ℕ → List ℕ
c_string name = name ++ 0 ∷ []

-- The header has 40 bytes, and the members of the union that come before a name add to them.
pub send_lookup : Origin → ℕ → List ℕ → Request
unfolding init_request
send_lookup o ino name = init_request o (40 + length name + 1) 1 ino (name_body (c_string name))

pub send_getattr : Origin → ℕ → Request
unfolding init_request
send_getattr o ino = init_request o 56 3 ino (getattr_body 0 0)

pub send_fgetattr : Origin → Bool → ℕ → ℕ → Request
unfolding init_request
send_fgetattr o is_directory ino fh =
    init_request o 56 3 ino (if is_directory then getattr_body 0 0 else getattr_body 1 fh)

abbrev pub zero_attr : Attr
zero_attr = record {
  ino = 0;
  size = 0;
  blocks = 0;
  atime = 0;
  mtime = 0;
  ctime = 0;
  atimensec = 0;
  mtimensec = 0;
  ctimensec = 0;
  mode = 0;
  nlink = 0;
  uid = 0;
  gid = 0;
  rdev = 0;
  blksize = 0;
}

-- FUSE_PROTO_SETATTR_FH and FUSE_PROTO_SETATTR_SIZE.
pub send_ftruncate : Origin → ℕ → ℕ → Attr → Request
unfolding init_request
send_ftruncate o ino fh attr =
    init_request o 128 4 ino (setattr_body 0x48 fh (record zero_attr { size = attr.size }))

-- FUSE_PROTO_UTIME_OMIT leaves a time as it is.
abbrev pub utime_omit : ℕ
utime_omit = 0x3fff_fffe

pub send_futimens : Origin → Bool → ℕ → ℕ → Attr → Request
unfolding init_request
send_futimens o is_directory ino fh attr =
    let valid = if is_directory then 0 else 0x40 in
    let set_a = not (attr.atimensec == utime_omit) in
    let set_m = not (attr.mtimensec == utime_omit) in
    init_request o 128 4 ino (
      setattr_body (bit_or (bit_or valid (if set_a then 0x10 else 0)) (if set_m then 0x20 else 0))
        (if is_directory then 0 else fh)
        (record zero_attr {
          atime = if set_a then attr.atime else 0;
          atimensec = if set_a then attr.atimensec else 0;
          mtime = if set_m then attr.mtime else 0;
          mtimensec = if set_m then attr.mtimensec else 0;
        }))

-- FUSE_PROTO_SETATTR_UID and FUSE_PROTO_SETATTR_GID.
pub send_lookup_chown : Origin → Bool → ℕ → ℕ → Attr → Request
unfolding init_request
send_lookup_chown o is_directory ino fh attr = init_request o 128 4 ino (
    setattr_body (if is_directory then 0x6 else 0x46) (if is_directory then 0 else fh)
      (record zero_attr { uid = attr.uid; gid = attr.gid }))

pub send_setattr : Origin → Bool → ℕ → ℕ → Attr → ℕ → Request
unfolding init_request
send_setattr o is_directory ino fh attr attr_valid = init_request o 128 4 ino (
    setattr_body (if is_directory then attr_valid else bit_or attr_valid 0x40)
      (if is_directory then 0 else fh)
      (record attr { ino = 0; blocks = 0; nlink = 0; rdev = 0; blksize = 0 }))

pub send_mkdir : Origin → ℕ → List ℕ → Attr → Request
unfolding init_request
send_mkdir o ino name attr =
    init_request o (48 + length name + 1) 9 ino (mkdir_body attr.mode 0 (c_string name))

pub send_mknod : Origin → ℕ → List ℕ → Attr → Request
unfolding init_request
send_mknod o ino name attr =
    init_request o (56 + length name + 1) 8 ino (mknod_body attr.mode attr.rdev 0 (c_string name))

pub send_rmdir : Origin → ℕ → List ℕ → Request
unfolding init_request
send_rmdir o ino name = init_request o (40 + length name + 1) 11 ino (name_body (c_string name))

pub send_unlink : Origin → ℕ → List ℕ → Request
unfolding init_request
send_unlink o ino name = init_request o (40 + length name + 1) 10 ino (name_body (c_string name))

pub send_rename : Origin → ℕ → List ℕ → ℕ → List ℕ → Request
unfolding init_request
send_rename o ino name ino2 name2 =
    init_request o (48 + length name + 1 + length name2 + 1) 12 ino
      (rename_body ino2 (c_string name) (c_string name2))

pub send_create : Origin → ℕ → List ℕ → Attr → ℕ → Request
unfolding init_request
send_create o ino name attr open_flags =
    init_request o (56 + length name + 1) 35 ino
      (create_body open_flags attr.mode 0 (c_string name))

pub send_opendir : Origin → ℕ → ℕ → Request
unfolding init_request
send_opendir o ino open_flags = init_request o 48 27 ino (open_body open_flags)

pub send_open : Origin → ℕ → ℕ → Request
unfolding init_request
send_open o ino open_flags = init_request o 48 14 ino (open_body open_flags)

pub send_releasedir : Origin → ℕ → ℕ → ℕ → Request
unfolding init_request
send_releasedir o ino fh open_flags = init_request o 64 29 ino (release_body fh open_flags)

pub send_release : Origin → ℕ → ℕ → ℕ → Request
unfolding init_request
send_release o ino fh open_flags = init_request o 64 18 ino (release_body fh open_flags)

pub send_readdir : Origin → ℕ → ℕ → ℕ → ℕ → ℕ → Request
unfolding init_request
send_readdir o ino fh next_offset size open_flags =
    init_request o 80 28 ino (read_body fh next_offset size open_flags)

pub send_read : Origin → ℕ → ℕ → ℕ → ℕ → ℕ → ℕ → Request
unfolding init_request
send_read o ino fh start_offset offset size open_flags =
    init_request o 80 15 ino (read_body fh ((start_offset + offset) % 2 ^ 64) size open_flags)

unfoldable pub send_write : Origin → ℕ → ℕ → ℕ → ℕ → ℕ → ℕ → Request
unfolding init_request
send_write o ino fh start_offset offset size open_flags =
    init_request o (80 + size) 16 ino
      (write_body fh ((start_offset + offset) % 2 ^ 64) size open_flags)

pub send_fsyncdir : Origin → ℕ → ℕ → Request
unfolding init_request
send_fsyncdir o ino fh = init_request o 56 30 ino (fsync_body fh)

pub send_fsync : Origin → ℕ → ℕ → Request
unfolding init_request
send_fsync o ino fh = init_request o 56 20 ino (fsync_body fh)

pub send_statfs : Origin → Request
unfolding init_request
send_statfs o = init_request o 40 17 0 no_body

-- FUSE_PROTO_VERSION and FUSE_PROTO_MINOR_VERSION; no read-ahead and no flags.
pub send_init : Origin → Request
unfolding init_request
send_init o = init_request o 56 26 0 (init_body 7 29)

pub send_destroy : Origin → Request
unfolding init_request
send_destroy o = init_request o 40 38 0 no_body

-- FuseProtoFillForget, with the message of FuseCacheForgetOne.
pub fill_forget : Origin → ℕ → ℕ → Request
unfolding init_request
fill_forget o nodeid nlookup = init_request o 48 2 nodeid (forget_body nlookup)
