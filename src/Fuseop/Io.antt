-- ===== src/Fuseop/Io.antt =====
-- FuseOpRead and FuseOpWrite of src/shared/km/fuseop.c, as a release compiles them.
use winfuse.Base.{ℕ, zero, suc, ◌+◌, ◌-◌, ◌%◌, ◌^◌, Bool, ◌==◌, ltb, leb, if◌then◌else◌}
use winfuse.Cache.{Attr}
use winfuse.Cache.Entries.{quick_expire_item}
use winfuse.Proto.{attr_to_file_info, req_sizemin}
use winfuse.Proto.Send.{send_read, send_write, send_fgetattr}
use winfuse.Status.{nt_success, status_success, status_internal_error, status_end_of_file}
use winfuse.Fuseop.{
  State, Run, done, copy, given, to_caller, from_caller, ◌>>=◌, fail, send, cache_of, set_cache,
  file_of,
}

-- The members of Context->Read and Context->Write; the length of a round is worked out in it.
pub record Progress : Type 0 where
  pub start_offset : ℕ
  pub remain : ℕ
  pub offset : ℕ

-- FUSE_PROTO_RSP_HEADER_SIZE and FUSE_PROTO_REQ_SIZE(write).
abbrev pub rsp_header_size : ℕ
rsp_header_size = 16

abbrev pub write_size : ℕ
write_size = 80

abbrev pub sub32 : ℕ → ℕ → ℕ
sub32 a b = (a + 2 ^ 32 - b) % 2 ^ 32

-- After a copy that succeeds.
abbrev pub when_copied : State → ℕ → Run → Run
when_copied s status r = if nt_success status then r else fail status s

-- The end of FuseOpRead.
unfoldable pub read_end : Progress → State → Run
read_end p s = done (record s {
  status = if p.offset == 0 then status_end_of_file else status_success;
  information = p.offset;
})

unfoldable pub advance : Progress → ℕ → Progress
advance p transferred = record p {
  remain = sub32 p.remain transferred;
  offset = (p.offset + transferred) % 2 ^ 32;
}

-- A round of the loop of FuseOpRead, up to the next; `address` is where the data goes.
unfoldable pub read_round : (Progress → State → Run) → ℕ → Progress → State → Run
unfolding read_end advance
read_round again address p s = do
  t ←
      send
        (λ v.
          let f = file_of v in
          send_read v.origin f.ino f.fh p.start_offset p.offset p.remain f.open_flags)
        s
  let transferred = sub32 t.response.len rsp_header_size
  if ltb p.remain transferred
      then fail status_internal_error t
      else copy (to_caller (address + p.offset) transferred) (λ status. when_copied t status (
          if ltb transferred p.remain
          then read_end (advance p transferred) t
          else again (advance p transferred) t))

unfoldable pub read_loop : ℕ → ℕ → Progress → State → Run
unfolding read_round read_end
read_loop zero address p s = read_end p s
read_loop (suc fuel) address p s =
    if p.remain == 0 then read_end p s else read_round (read_loop fuel address) address p s

-- FuseOpRead of `length` bytes at `offset`. A round leaves less, so that the bytes are enough rounds.
unfoldable pub op_read : (file offset length address : ℕ) → State → Run
unfolding read_loop
op_read file offset length address s =
    read_loop length address (record { start_offset = offset; remain = length; offset = 0 })
      (record s { file = file })

-- Where the write begins; an offset of -1 is the end of the file.
unfoldable pub write_start : (constrained : Bool) (offset : ℕ) → Attr → ℕ
write_start constrained offset attr =
    if constrained then offset else if offset == 0xffff_ffff_ffff_ffff then attr.size else offset

-- Where it ends; constrained, not behind the end of the file.
unfoldable pub write_stop : (constrained : Bool) (start length : ℕ) → Attr → ℕ
write_stop constrained start length attr =
    let stop = (start + length) % 2 ^ 64 in
    if constrained then (if ltb attr.size stop then attr.size else stop) else stop

module _ (sector_size sectors : ℕ) where
  -- The end of FuseOpWrite: the size of the file has grown to what was written, and the cached entry
  -- is not used any longer.
  unfoldable pub write_end : Attr → Progress → State → Run
  write_end attr p s =
      let end_offset = (p.start_offset + p.offset) % 2 ^ 64 in
      let grown = if ltb attr.size end_offset then record attr { size = end_offset } else attr in
      done (record (set_cache s (quick_expire_item (cache_of s) (file_of s).cache_item)) {
        response_file_info = attr_to_file_info sector_size sectors grown;
        status = status_success;
        information = p.offset;
      })

  -- A round of the loop of FuseOpWrite, up to the next. `more` is what the length of the buffer for
  -- the request has above FUSE_PROTO_REQ_SIZEMIN, below which FuseInstanceTransact refuses it.
  unfoldable pub write_round : (Progress → State → Run) → ℕ → Attr → Progress → State → Run
  unfolding write_end advance
  write_round again address attr p s = given λ more.
      let room = req_sizemin + more - write_size in
      let length = if ltb room p.remain then room else p.remain in
      copy (from_caller (address + p.offset) length) (λ status. when_copied s status (do
        t ←
            send
              (λ v.
                let f = file_of v in
                send_write v.origin f.ino f.fh p.start_offset p.offset length f.open_flags)
              s
        let transferred = t.response.write_size
        if ltb length transferred
            then fail status_internal_error t
            else if ltb transferred length
            then write_end attr (advance p transferred) t
            else again (advance p transferred) t))

  unfoldable pub write_loop : ℕ → ℕ → Attr → Progress → State → Run
  unfolding write_round write_end
  write_loop zero address attr p s = write_end attr p s
  write_loop (suc fuel) address attr p s =
      if p.remain == 0
      then write_end attr p s
      else write_round (write_loop fuel address attr) address attr p s

  -- FuseOpWrite of `length` bytes at `offset`; a round leaves less, so that the bytes are enough rounds.
  unfoldable pub op_write : (constrained : Bool) (file offset length address : ℕ) → State → Run
  unfolding write_loop write_start write_stop
  op_write constrained file offset length address s = do
    t ←
        send (λ v. let f = file_of v in send_fgetattr v.origin f.is_directory f.ino f.fh)
          (record s { file = file })
    let attr = t.response.attr
    let start = write_start constrained offset attr
    let remain = (write_stop constrained start length attr + 2 ^ 64 - start) % 2 ^ 32
    if (if constrained then leb attr.size start else Bool.false)
        then done (record t {
          response_file_info = attr_to_file_info sector_size sectors attr;
          status = status_success;
          information = 0;
        })
        else write_loop remain address attr
            (record { start_offset = start; remain = remain; offset = 0 }) t
