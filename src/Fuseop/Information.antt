-- ===== src/Fuseop/Information.antt =====
-- FuseOpSetInformation of src/shared/km/fuseop.c: what of a file is to be set.
use winfuse.Base.{ℕ, Bool, ◌==◌, if◌then◌else◌}
use winfuse.Cache.{Rtl}
use winfuse.Status.{status_invalid_device_request}
use winfuse.Fuseop.{State, Run, fail}
use winfuse.Fuseop.Change.{op_set_delete, op_rename}
use winfuse.Fuseop.Files.{op_set_basic_info, op_set_allocation_size, op_set_file_size}
use winfuse.Fuseop.Reserved.{rename_information, disposition_information}

-- A request SetInformation, which has the fields of its class.
pub record SetInformation : Type 0 where
  pub file_information_class : ℕ
  pub user_context2 : ℕ
  pub last_access_time : ℕ
  pub last_write_time : ℕ
  pub allocation_size : ℕ
  pub file_size : ℕ
  pub delete : Bool
  pub access_token : ℕ

abbrev basic_information : ℕ
basic_information = 4

abbrev allocation_information : ℕ
allocation_information = 19

abbrev end_of_file_information : ℕ
end_of_file_information = 20

module _ (rtl : Rtl) (sector_size sectors : ℕ) where
  pub op_set_information : (case_sensitive : Bool) → SetInformation → State → Run
  op_set_information case_sensitive r s =
      let c = r.file_information_class in
      if c == basic_information
      then op_set_basic_info rtl sector_size sectors r.user_context2 r.last_access_time
          r.last_write_time s
      else if c == allocation_information
      then op_set_allocation_size rtl sector_size sectors r.user_context2 r.allocation_size s
      else if c == end_of_file_information
      then op_set_file_size rtl sector_size sectors r.user_context2 r.file_size s
      else if c == disposition_information
      then op_set_delete r.delete r.user_context2 s
      else if c == rename_information
      then op_rename rtl sector_size sectors case_sensitive r.access_token r.user_context2 s
      else fail status_invalid_device_request s
