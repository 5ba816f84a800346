-- ===== src/Proto/Errno.antt =====
-- FuseNtStatusFromErrno of src/shared/km/proto.c, and its tables in src/shared/km/errno.i.
use mathlib.Core.Bool.{true≢false}
use winfuse.Base.{
  ◌∙◌, sym, ℕ_discrete, ℕ, ◌-◌, ◌^◌, ◌<◌, ◌≡◌, ◌≢◌, refl, arith, Bool, true, false, ◌&&◌, not, List,
  [], ◌∷◌, ◌==◌, leb, if◌then◌else◌, eq_of_==, Bool-cases, inl, inr,
}
use winfuse.Status.{
  nt_success, status_access_denied, status_access_violation, status_address_already_associated,
  status_cancelled, status_connection_aborted, status_connection_active, status_connection_invalid,
  status_connection_refused, status_connection_reset, status_device_busy,
  status_directory_not_empty, status_disk_full, status_end_of_file, status_file_invalid,
  status_file_is_a_directory, status_host_down, status_host_unreachable,
  status_insufficient_resources, status_invalid_device_request, status_invalid_handle,
  status_invalid_image_format, status_invalid_parameter, status_io_device_error,
  status_lock_not_granted, status_media_write_protected, status_name_too_long,
  status_network_unreachable, status_not_a_directory, status_not_same_device, status_no_such_device,
  status_object_name_collision, status_object_name_not_found, status_pipe_broken,
  status_possible_deadlock, status_procedure_not_found, status_reparse_point_not_resolved,
  status_success, status_too_many_links, status_too_many_opened_files, status_transaction_timed_out,
}

pub data InstanceType : Type 0 where
  windows cygwin linux : InstanceType

abbrev Table : Type 0
Table = List (ℕ × ℕ)

windows_table : Table
windows_table =
    (0, status_success)
    ∷ (1, status_access_denied)
    ∷ (2, status_object_name_not_found)
    ∷ (3, status_procedure_not_found)
    ∷ (4, status_cancelled)
    ∷ (5, status_io_device_error)
    ∷ (6, status_file_invalid)
    ∷ (7, status_insufficient_resources)
    ∷ (8, status_invalid_image_format)
    ∷ (9, status_invalid_handle)
    ∷ (12, status_insufficient_resources)
    ∷ (13, status_access_denied)
    ∷ (14, status_access_violation)
    ∷ (16, status_device_busy)
    ∷ (17, status_object_name_collision)
    ∷ (18, status_not_same_device)
    ∷ (19, status_no_such_device)
    ∷ (20, status_not_a_directory)
    ∷ (21, status_file_is_a_directory)
    ∷ (22, status_invalid_parameter)
    ∷ (23, status_too_many_opened_files)
    ∷ (24, status_too_many_opened_files)
    ∷ (27, status_disk_full)
    ∷ (28, status_disk_full)
    ∷ (29, status_invalid_parameter)
    ∷ (30, status_media_write_protected)
    ∷ (31, status_too_many_links)
    ∷ (32, status_pipe_broken)
    ∷ (33, status_invalid_parameter)
    ∷ (34, status_invalid_parameter)
    ∷ (36, status_possible_deadlock)
    ∷ (38, status_name_too_long)
    ∷ (39, status_lock_not_granted)
    ∷ (40, status_invalid_device_request)
    ∷ (41, status_directory_not_empty)
    ∷ (42, status_invalid_parameter)
    ∷ (100, status_address_already_associated)
    ∷ (103, status_connection_active)
    ∷ (105, status_cancelled)
    ∷ (106, status_connection_aborted)
    ∷ (107, status_connection_refused)
    ∷ (108, status_connection_reset)
    ∷ (110, status_host_unreachable)
    ∷ (113, status_connection_active)
    ∷ (114, status_reparse_point_not_resolved)
    ∷ (116, status_host_down)
    ∷ (117, status_connection_reset)
    ∷ (118, status_network_unreachable)
    ∷ (119, status_insufficient_resources)
    ∷ (120, status_end_of_file)
    ∷ (121, status_connection_invalid)
    ∷ (126, status_connection_invalid)
    ∷ (128, status_invalid_handle)
    ∷ (138, status_transaction_timed_out)
    ∷ []

cygwin_table : Table
cygwin_table =
    (0, status_success)
    ∷ (1, status_access_denied)
    ∷ (2, status_object_name_not_found)
    ∷ (3, status_procedure_not_found)
    ∷ (4, status_cancelled)
    ∷ (5, status_io_device_error)
    ∷ (6, status_file_invalid)
    ∷ (7, status_insufficient_resources)
    ∷ (8, status_invalid_image_format)
    ∷ (9, status_invalid_handle)
    ∷ (12, status_insufficient_resources)
    ∷ (13, status_access_denied)
    ∷ (14, status_access_violation)
    ∷ (16, status_device_busy)
    ∷ (17, status_object_name_collision)
    ∷ (18, status_not_same_device)
    ∷ (19, status_no_such_device)
    ∷ (20, status_not_a_directory)
    ∷ (21, status_file_is_a_directory)
    ∷ (22, status_invalid_parameter)
    ∷ (23, status_too_many_opened_files)
    ∷ (24, status_too_many_opened_files)
    ∷ (27, status_disk_full)
    ∷ (28, status_disk_full)
    ∷ (29, status_invalid_parameter)
    ∷ (30, status_media_write_protected)
    ∷ (31, status_too_many_links)
    ∷ (32, status_pipe_broken)
    ∷ (33, status_invalid_parameter)
    ∷ (34, status_invalid_parameter)
    ∷ (45, status_possible_deadlock)
    ∷ (91, status_name_too_long)
    ∷ (46, status_lock_not_granted)
    ∷ (88, status_invalid_device_request)
    ∷ (90, status_directory_not_empty)
    ∷ (138, status_invalid_parameter)
    ∷ (112, status_address_already_associated)
    ∷ (120, status_connection_active)
    ∷ (140, status_cancelled)
    ∷ (113, status_connection_aborted)
    ∷ (111, status_connection_refused)
    ∷ (104, status_connection_reset)
    ∷ (118, status_host_unreachable)
    ∷ (127, status_connection_active)
    ∷ (92, status_reparse_point_not_resolved)
    ∷ (115, status_host_down)
    ∷ (126, status_connection_reset)
    ∷ (114, status_network_unreachable)
    ∷ (105, status_insufficient_resources)
    ∷ (61, status_end_of_file)
    ∷ (67, status_connection_invalid)
    ∷ (128, status_connection_invalid)
    ∷ (108, status_invalid_handle)
    ∷ (116, status_transaction_timed_out)
    ∷ []

linux_table : Table
linux_table =
    (0, status_success)
    ∷ (1, status_access_denied)
    ∷ (2, status_object_name_not_found)
    ∷ (3, status_procedure_not_found)
    ∷ (4, status_cancelled)
    ∷ (5, status_io_device_error)
    ∷ (6, status_file_invalid)
    ∷ (7, status_insufficient_resources)
    ∷ (8, status_invalid_image_format)
    ∷ (9, status_invalid_handle)
    ∷ (12, status_insufficient_resources)
    ∷ (13, status_access_denied)
    ∷ (14, status_access_violation)
    ∷ (16, status_device_busy)
    ∷ (17, status_object_name_collision)
    ∷ (18, status_not_same_device)
    ∷ (19, status_no_such_device)
    ∷ (20, status_not_a_directory)
    ∷ (21, status_file_is_a_directory)
    ∷ (22, status_invalid_parameter)
    ∷ (23, status_too_many_opened_files)
    ∷ (24, status_too_many_opened_files)
    ∷ (27, status_disk_full)
    ∷ (28, status_disk_full)
    ∷ (29, status_invalid_parameter)
    ∷ (30, status_media_write_protected)
    ∷ (31, status_too_many_links)
    ∷ (32, status_pipe_broken)
    ∷ (33, status_invalid_parameter)
    ∷ (34, status_invalid_parameter)
    ∷ (35, status_possible_deadlock)
    ∷ (36, status_name_too_long)
    ∷ (37, status_lock_not_granted)
    ∷ (38, status_invalid_device_request)
    ∷ (39, status_directory_not_empty)
    ∷ (84, status_invalid_parameter)
    ∷ (98, status_address_already_associated)
    ∷ (114, status_connection_active)
    ∷ (125, status_cancelled)
    ∷ (103, status_connection_aborted)
    ∷ (111, status_connection_refused)
    ∷ (104, status_connection_reset)
    ∷ (113, status_host_unreachable)
    ∷ (106, status_connection_active)
    ∷ (40, status_reparse_point_not_resolved)
    ∷ (100, status_host_down)
    ∷ (102, status_connection_reset)
    ∷ (101, status_network_unreachable)
    ∷ (105, status_insufficient_resources)
    ∷ (61, status_end_of_file)
    ∷ (67, status_connection_invalid)
    ∷ (107, status_connection_invalid)
    ∷ (88, status_invalid_handle)
    ∷ (110, status_transaction_timed_out)
    ∷ []

table_of : InstanceType → Table
unfolding windows_table cygwin_table linux_table
table_of windows = windows_table
table_of cygwin = cygwin_table
table_of linux = linux_table

find_status : Table → ℕ → ℕ
find_status [] errno = status_access_denied
find_status ((n, status) ∷ rest) errno = if errno == n then status else find_status rest errno

-- An INT32 in 32 bits: where it is negative, its opposite.
abbrev absolute32 : ℕ → ℕ
absolute32 errno = if leb (2 ^ 31) errno then 2 ^ 32 - errno else errno

unfoldable pub nt_status_from_errno : InstanceType → ℕ → ℕ
unfolding table_of find_status
nt_status_from_errno type errno = find_status (table_of type) (absolute32 errno)

-- Each entry of a table but that of 0 is a failure, and that of 0 is not.
abbrev sound_table : Table → Bool
sound_table [] = true
sound_table ((n, status) ∷ rest) =
    (if n == 0 then status == 0 else not (nt_success status)) && sound_table rest

find_status_fails :
    (t : Table) (errno : ℕ)
    → sound_table t ≡ true
    → errno ≢ 0
    → nt_success (find_status t errno) ≡ false
unfolding find_status
find_status_fails [] errno h n = refl
find_status_fails ((m, status) ∷ rest) errno h n = elim (Bool-cases (errno == m)) [
  | inl e ↦ rw e (ground (arith, eq_of_== errno m e))
  | inr e ↦ rw e (find_status_fails rest errno (ground arith) n)
]

table_of_sound : (type : InstanceType) → sound_table (table_of type) ≡ true
unfolding table_of windows_table cygwin_table linux_table
table_of_sound windows = refl
table_of_sound cygwin = refl
table_of_sound linux = refl

zero_succeeds : (type : InstanceType) → nt_status_from_errno type 0 ≡ 0
unfolding nt_status_from_errno table_of find_status windows_table cygwin_table linux_table
zero_succeeds windows = refl
zero_succeeds cygwin = refl
zero_succeeds linux = refl

-- FuseNtStatusFromErrno makes of an error number of 32 bits, negative or not, a status that is a
-- success exactly where the number is 0, for each type of instance.
pub nt_status_from_errno_fails :
    (type : InstanceType) (errno : ℕ)
    → errno < 2 ^ 32
    → (nt_success (nt_status_from_errno type errno) ≡ true → errno ≡ 0)
      × (nt_status_from_errno type 0 ≡ 0)
unfolding nt_status_from_errno
nt_status_from_errno_fails type errno fits = (
  λ h. elim (ℕ_discrete errno 0) [
    | yes e ↦ e
    | no n ↦ absurd (
        true≢false (
          sym h
          ∙ find_status_fails (table_of type) (absolute32 errno) (table_of_sound type)
              (λ z. n (ground arith))))
  ],
  zero_succeeds type,
)
