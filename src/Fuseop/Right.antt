-- ===== src/Fuseop/Right.antt =====
-- The rights of files of Windows that src/shared/km/fuseop.c names.
use winfuse.Base.{ℕ}

abbrev pub read_data : ℕ
read_data = 0x1

abbrev pub write_data : ℕ
write_data = 0x2

abbrev pub append_data : ℕ
append_data = 0x4

abbrev pub execute : ℕ
execute = 0x20

abbrev pub delete_child : ℕ
delete_child = 0x40

abbrev pub write_attributes : ℕ
write_attributes = 0x100

abbrev pub delete : ℕ
delete = 0x1_0000

abbrev pub maximum_allowed : ℕ
maximum_allowed = 0x200_0000
