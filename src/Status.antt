-- ===== src/Status.antt =====
-- The statuses of Windows that src/shared/km names, and the test of one.
use winfuse.Base.{ℕ, Bool, ltb}

-- NT_SUCCESS: a status of 32 bits that is not negative.
abbrev pub nt_success : ℕ → Bool
nt_success status = ltb status 0x8000_0000

abbrev pub status_access_denied : ℕ
status_access_denied = 0xc000_0022

abbrev pub status_access_violation : ℕ
status_access_violation = 0xc000_0005

abbrev pub status_address_already_associated : ℕ
status_address_already_associated = 0xc000_0238

abbrev pub status_buffer_too_small : ℕ
status_buffer_too_small = 0xc000_0023

abbrev pub status_cancelled : ℕ
status_cancelled = 0xc000_0120

abbrev pub status_connection_aborted : ℕ
status_connection_aborted = 0xc000_0241

abbrev pub status_connection_active : ℕ
status_connection_active = 0xc000_023b

abbrev pub status_connection_invalid : ℕ
status_connection_invalid = 0xc000_023a

abbrev pub status_connection_refused : ℕ
status_connection_refused = 0xc000_0236

abbrev pub status_connection_reset : ℕ
status_connection_reset = 0xc000_020d

abbrev pub status_device_busy : ℕ
status_device_busy = 0x8000_0011

abbrev pub status_directory_not_empty : ℕ
status_directory_not_empty = 0xc000_0101

abbrev pub status_disk_full : ℕ
status_disk_full = 0xc000_007f

abbrev pub status_end_of_file : ℕ
status_end_of_file = 0xc000_0011

abbrev pub status_file_invalid : ℕ
status_file_invalid = 0xc000_0098

abbrev pub status_file_is_a_directory : ℕ
status_file_is_a_directory = 0xc000_00ba

abbrev pub status_host_down : ℕ
status_host_down = 0xc000_0350

abbrev pub status_host_unreachable : ℕ
status_host_unreachable = 0xc000_023d

abbrev pub status_insufficient_resources : ℕ
status_insufficient_resources = 0xc000_009a

abbrev pub status_internal_error : ℕ
status_internal_error = 0xc000_00e5

abbrev pub status_invalid_security_descr : ℕ
status_invalid_security_descr = 0xc000_0079

abbrev pub status_invalid_device_request : ℕ
status_invalid_device_request = 0xc000_0010

abbrev pub status_invalid_handle : ℕ
status_invalid_handle = 0xc000_0008

abbrev pub status_invalid_image_format : ℕ
status_invalid_image_format = 0xc000_007b

abbrev pub status_invalid_parameter : ℕ
status_invalid_parameter = 0xc000_000d

abbrev pub status_io_device_error : ℕ
status_io_device_error = 0xc000_0185

abbrev pub status_lock_not_granted : ℕ
status_lock_not_granted = 0xc000_0055

abbrev pub status_media_write_protected : ℕ
status_media_write_protected = 0xc000_00a2

abbrev pub status_name_too_long : ℕ
status_name_too_long = 0xc000_0106

abbrev pub status_network_unreachable : ℕ
status_network_unreachable = 0xc000_023c

abbrev pub status_not_a_directory : ℕ
status_not_a_directory = 0xc000_0103

abbrev pub status_not_same_device : ℕ
status_not_same_device = 0xc000_00d4

abbrev pub status_no_such_device : ℕ
status_no_such_device = 0xc000_000e

abbrev pub status_object_name_collision : ℕ
status_object_name_collision = 0xc000_0035

abbrev pub status_object_name_invalid : ℕ
status_object_name_invalid = 0xc000_0033

abbrev pub status_object_name_not_found : ℕ
status_object_name_not_found = 0xc000_0034

abbrev pub status_pipe_broken : ℕ
status_pipe_broken = 0xc000_014b

abbrev pub status_possible_deadlock : ℕ
status_possible_deadlock = 0xc000_0194

abbrev pub status_procedure_not_found : ℕ
status_procedure_not_found = 0xc000_007a

abbrev pub status_reparse_point_not_resolved : ℕ
status_reparse_point_not_resolved = 0xc000_0280

abbrev pub status_success : ℕ
status_success = 0x0

abbrev pub status_thread_is_terminating : ℕ
status_thread_is_terminating = 0xc000_004b

abbrev pub status_timeout : ℕ
status_timeout = 0x102

abbrev pub status_too_many_links : ℕ
status_too_many_links = 0xc000_0265

abbrev pub status_too_many_opened_files : ℕ
status_too_many_opened_files = 0xc000_011f

abbrev pub status_transaction_timed_out : ℕ
status_transaction_timed_out = 0xc000_0210

abbrev pub status_object_path_not_found : ℕ
status_object_path_not_found = 0xc000_003a
