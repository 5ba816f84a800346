-- ===== src/Fuseop/Tests.antt =====
-- Runs of the operations of src/shared/km/fuseop.c.
use winfuse.Base.{◌<◌, ◌≡◌, true, false, arith, [], ◌∷◌}
use winfuse.Cache.Tests.{ascii, some_attr, some_entry}
use winfuse.File.Tests.{with_file, file_address}
use winfuse.Fuseop.{State, CreateRequest, create_request}
use winfuse.Fuseop.Always.{Always}
use winfuse.Fuseop.Bounds.{Within, Reads, op_read-Reads}
use winfuse.Fuseop.Change.{only_dots}
use winfuse.Fuseop.Directory.{Buffer, directory_loop, op_query_directory}
use winfuse.Fuseop.Ending.{directory_loop-only_dots-Ends}
use winfuse.Fuseop.Asked.{Asked}
use winfuse.Fuseop.Written.{WritesUpTo, op_write-WritesUpTo}
use winfuse.Fuseop.Listed.{Fits, op_query_directory-Lists}
use winfuse.Fuseop.Io.{op_read, op_write}
use winfuse.Path.Tests.{memory, usr_bin}
use winfuse.Proto.{attr_to_file_info}
use winfuse.Proto.Errno.{linux}
use winfuse.Proto.Send.{Response}
use winfuse.Fuseop.Access.{access_check}
use winfuse.Fuseop.Access.Rights.{Checks, has_right, access_check-Checks}

access_check-Checks_example :
    Checks 0x20 (has_right 1 1 0o755 2 3) (access_check 1 1 0o755 2 3 0x20)
access_check-Checks_example = access_check-Checks 1 1 0o755 2 3 0x20

abbrev some_response : Response
some_response = record {
  len = 0;
  error = 0;
  entry = some_entry;
  attr_valid = 0;
  attr_valid_nsec = 0;
  attr = some_attr;
  open_fh = 7;
  open_flags = 0;
  create_fh = 0;
  create_open_flags = 0;
  write_size = 0;
  init_major = 7;
  init_minor = 29;
  statfs_blocks = 0;
  statfs_bfree = 0;
  statfs_frsize = 0;
  content = λ _. 0;
}

-- A user opens /usr/bin.
abbrev user_open : CreateRequest
user_open = record {
  create_options = 0x100_0000;
  desired_access = 0x1;
  granted_access = 0;
  access_token = 0;
  security_descriptor_offset = 0;
  user_mode = true;
  has_traverse_privilege = false;
  has_restore_privilege = false;
  open_target_directory = false;
  has_trailing_backslash = false;
  named_stream = false;
}

abbrev user_state : State
user_state = record {
  world = record {
    version_major = 7;
    version_minor = 29;
    init_event = true;
    instance = with_file;
    opcode_enosys = 0 ∷ 0 ∷ [];
  };
  instance_type = linux;
  memory = memory;
  internal_request = create_request user_open;
  origin = record { context = 0x10000; uid = 1; gid = 1; pid = 9 };
  response = some_response;
  file = file_address;
  cache_gen = 0;
  cache_item = 0;
  ino = 1;
  name = usr_bin;
  attr = some_attr;
  orig_path = usr_bin;
  remain = usr_bin;
  desired_access = 0x1;
  granted_access = 0;
  user_mode = true;
  has_traverse_privilege = false;
  disable_cache = false;
  chown = false;
  orig_path2 = usr_bin;
  name2 = usr_bin;
  ino2 = 0;
  status = 0;
  information = 0;
  opened_granted_access = 0;
  opened_user_context = 0;
  response_file_info = attr_to_file_info 512 8 some_attr;
  opened_disable_cache = false;
}

op_read-Reads_example :
    Always (Within 0x5000 9000) (Reads 9000) (op_read file_address 100 9000 0x5000 user_state)
op_read-Reads_example = op_read-Reads file_address 100 9000 0x5000 user_state (omega arith)

op_write-WritesUpTo_example :
    Asked
      (Within 0x5000 9000)
      (WritesUpTo ((false ≡ false) × (100 < 0xffff_ffff_ffff_ffff)) 9000)
      0
      (op_write 512 8 false file_address 100 9000 0x5000 user_state)
op_write-WritesUpTo_example =
    op_write-WritesUpTo 512 8 false file_address 100 9000 0x5000 user_state (omega arith)
      (omega arith)

abbrev some_buffer : Buffer
some_buffer = record { address = 0x5000; length = 4096 }

op_query_directory-Lists_example :
    Always
      (Within 0x5000 4096)
      (Fits 4096)
      (op_query_directory ascii 104 some_buffer false file_address 0 user_state)
op_query_directory-Lists_example =
    op_query_directory-Lists some_buffer ascii 104 false file_address 0 user_state

directory_loop-only_dots-Ends_example :
    (directory_loop ascii 104 500 some_buffer memory 64 16 0 user_state
      ≡ directory_loop ascii 104 64 some_buffer memory 64 16 0 user_state)
    × (only_dots 500 memory 64 16 ≡ only_dots 64 memory 64 16)
directory_loop-only_dots-Ends_example =
    directory_loop-only_dots-Ends ascii 104 some_buffer memory 64 500 16 0 user_state (omega arith)
