-- ===== src/Proto/Tests.antt =====
-- The theorems about messages and file information at concrete inputs.
use winfuse.Base.{ℕ, ◌*◌, ◌≡◌, arith, true, false, List, [], ◌∷◌, length}
use winfuse.Cache.{Attr, Item}
use winfuse.Cache.Tests.{some_entry, some_attr}
use winfuse.Proto.{fill_batch_forget, attr_to_file_info}
use winfuse.Proto.Batch.{Fills, fill_batch_forget-Fills}
use winfuse.Proto.Errno.{linux, nt_status_from_errno, nt_status_from_errno_fails}
use winfuse.Status.{nt_success}
use winfuse.Proto.Info.{Describes, attr_to_file_info-Describes}

abbrev forgotten_items : ℕ → Item
forgotten_items x = record {
  no_forget = false;
  hash = 0;
  parent_ino = 1;
  name = b'a' ∷ [];
  nlookup = 3;
  expiration_time = 30000000;
  last_used_time = 20000000;
  entry = some_entry;
  quick_expiry = 0;
  ref_count = 0;
}

abbrev two_forgotten : List ℕ
two_forgotten = 0x10000 ∷ 0x20000 ∷ []

fill_batch_forget-Fills_example :
    let r = fill_batch_forget forgotten_items two_forgotten in
    Fills forgotten_items 48 two_forgotten (r.0.len, r.0.messages, r.1)
    × (r.0.count ≡ length r.0.messages)
fill_batch_forget-Fills_example = fill_batch_forget-Fills forgotten_items two_forgotten

-- A file of 5000 bytes on a volume with units of 4096 bytes.
abbrev large_attr : Attr
large_attr = record some_attr { size = 5000; mtime = 1577836800; mtimensec = 123456789 }

attr_to_file_info-Describes_example :
    Describes (512 * 8) large_attr (attr_to_file_info 512 8 large_attr)
attr_to_file_info-Describes_example =
    attr_to_file_info-Describes 512 8 large_attr (omega arith) (omega arith)
      (omega arith, omega arith) (omega arith, omega arith) (omega arith, omega arith)

abbrev minus_two : ℕ
minus_two = 0xffff_fffe

nt_status_from_errno_fails_example :
    (nt_success (nt_status_from_errno linux minus_two) ≡ true → minus_two ≡ 0)
    × (nt_status_from_errno linux 0 ≡ 0)
nt_status_from_errno_fails_example = nt_status_from_errno_fails linux minus_two (omega arith)
