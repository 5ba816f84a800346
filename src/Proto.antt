-- ===== src/Proto.antt =====
-- src/shared/km/proto.c: FuseAttrToFileInfo, and FuseProtoFillBatchForget, which sends the items that
-- the cache has forgotten. A message is built in a buffer of FUSE_PROTO_REQ_SIZEMIN bytes; a place in
-- it is its offset. DEBUGTEST is TRUE, as in a release.
pub mod Batch
pub mod Info
pub mod Errno
pub mod Send
pub mod Tests
use winfuse.Base.{
  ℕ, zero, suc, ◌+◌, ◌-◌, ◌*◌, ◌/◌, ◌%◌, ◌^◌, ◌≡◌, Option, none, some, List, [], ◌∷◌, ◌==◌, ltb,
  if◌then◌else◌, Bool, ◌||◌, bit_and, length,
}
use winfuse.Cache.{Attr, Item}
use winfuse.Cache.Expiry.{ForgetOne, forget_one}
use winfuse.Times.{unix_time_to_file_time}

abbrev pub req_sizemin : ℕ
req_sizemin = 8192

-- FUSE_PROTO_REQ_SIZE(batch_forget): a header of 40 bytes, the count and its padding.
abbrev pub batch_forget_size : ℕ
batch_forget_size = 48

-- sizeof(FUSE_PROTO_FORGET_ONE).
abbrev pub forget_one_size : ℕ
forget_one_size = 16

-- The loop from P on: the end of the messages, the messages, and the list that is left. Each round
-- passes some bytes, so that the bytes of the buffer are enough rounds.
pub batch_loop : ℕ → (ℕ → Item) → ℕ → List ℕ → ℕ × List ForgetOne × List ℕ
batch_loop zero items p forgotten = (p, [], forgotten)
batch_loop (suc fuel) items p forgotten =
    if ltb p req_sizemin
    then elim (forget_one items forgotten) [
      | none ↦ (p, [], forgotten)
      | some (message, rest, x) ↦
          let (q, messages, left) = batch_loop fuel items (p + forget_one_size) rest in
          (q, message ∷ messages, left)
    ]
    else (p, [], forgotten)

-- A BATCH_FORGET request: its length, its count and its messages.
pub record BatchForget : Type 0 where
  pub len : ℕ
  pub count : ℕ
  pub messages : List ForgetOne

-- The request, and the list that is left for another.
pub fill_batch_forget : (ℕ → Item) → List ℕ → BatchForget × List ℕ
unfolding batch_loop
fill_batch_forget items forgotten =
    let (p, messages, left) = batch_loop req_sizemin items batch_forget_size forgotten in
    (
      record {
        len = p % 2 ^ 32;
        count = (p - batch_forget_size) / forget_one_size % 2 ^ 32;
        messages = messages;
      },
      left,
    )

-- FSP_FSCTL_FILE_INFO.
pub record FileInfo : Type 0 where
  pub file_attributes : ℕ
  pub reparse_tag : ℕ
  pub allocation_size : ℕ
  pub file_size : ℕ
  pub creation_time : ℕ
  pub last_access_time : ℕ
  pub last_write_time : ℕ
  pub change_time : ℕ
  pub index_number : ℕ
  pub hard_links : ℕ
  pub ea_size : ℕ

-- FILE_ATTRIBUTE_DIRECTORY, FILE_ATTRIBUTE_REPARSE_POINT and the reparse tags of Windows.
abbrev pub attribute_directory : ℕ
attribute_directory = 0x10

abbrev pub attribute_reparse_point : ℕ
attribute_reparse_point = 0x400

abbrev pub reparse_tag_nfs : ℕ
reparse_tag_nfs = 0x8000_0014

abbrev pub reparse_tag_symlink : ℕ
reparse_tag_symlink = 0xa000_000c

-- The attributes and the reparse tag for the type of a file, `mode & 0170000`.
pub type_attributes : ℕ → ℕ × ℕ
type_attributes kind =
    if kind == 0o040000
    then (attribute_directory, 0)
    else if kind == 0o010000 || (kind == 0o020000 || (kind == 0o060000 || kind == 0o140000))
    then (attribute_reparse_point, reparse_tag_nfs)
    else if kind == 0o120000
    then (attribute_reparse_point, reparse_tag_symlink)
    else (0, 0)

-- FuseAttrToFileInfo, with the sizes of VolumeParams, whose product must not be 0.
pub attr_to_file_info : ℕ → ℕ → Attr → FileInfo
unfolding type_attributes
attr_to_file_info sector_size sectors_per_allocation_unit attr =
    let allocation_unit = sector_size * sectors_per_allocation_unit in
    let (file_attributes, reparse_tag) = type_attributes (bit_and attr.mode 0o170000) in
    let change_time = unix_time_to_file_time attr.ctime attr.ctimensec in
    record {
      file_attributes = file_attributes;
      reparse_tag = reparse_tag;
      allocation_size =
          (attr.size + allocation_unit + 2 ^ 64 - 1) % 2 ^ 64 / allocation_unit * allocation_unit;
      file_size = attr.size;
      creation_time = change_time;
      last_access_time = unix_time_to_file_time attr.atime attr.atimensec;
      last_write_time = unix_time_to_file_time attr.mtime attr.mtimensec;
      change_time = change_time;
      index_number = attr.ino;
      hard_links = 0;
      ea_size = 0;
    }
