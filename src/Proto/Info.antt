-- ===== src/Proto/Info.antt =====
-- The file information that src/shared/km/proto.c makes of the attributes of an inode.
use winfuse.Base.{ℕ, ◌+◌, ◌-◌, ◌*◌, ◌/◌, ◌%◌, ◌^◌, ◌<◌, ◌≤◌, ◌≡◌, refl, arith}
use native.Mathlib.Omega.{div_any}
use native.Mathlib.Nat.{mod-lt, mul_comm}
use winfuse.Cache.{Attr}
use winfuse.Proto.{FileInfo, attr_to_file_info}
use winfuse.Times.{file_time_to_unix_time}
use winfuse.Times.RoundTrip.{file_time_to_unix_time-unix_time_to_file_time}

-- What the allocation size is for a unit, and what the times are.
pub record Describes (unit : ℕ) (attr : Attr) (info : FileInfo) : Type 0 where
  pub units : ℕ
  pub whole_units : info.allocation_size ≡ units * unit
  pub enough : attr.size ≤ info.allocation_size
  pub least : info.allocation_size < attr.size + unit
  pub written :
      file_time_to_unix_time info.last_write_time ≡ (attr.mtime, attr.mtimensec / 100 * 100)
  pub accessed :
      file_time_to_unix_time info.last_access_time ≡ (attr.atime, attr.atimensec / 100 * 100)
  pub changed : file_time_to_unix_time info.change_time ≡ (attr.ctime, attr.ctimensec / 100 * 100)

-- The least multiple of `d` that is not below `n`.
rounded : (n d : ℕ) → 0 < d → (n ≤ (n + d - 1) / d * d) × ((n + d - 1) / d * d < n + d)
rounded n d h =
    let whole = div_any (n + d - 1) d in
    let part = mod-lt (n + d - 1) {m = d} h in
    let swap = mul_comm ((n + d - 1) / d) d in
    (omega (arith, whole, part, swap), omega (arith, whole, part, swap))

-- The sum fits in 64 bits.
wrapped : (n d : ℕ) → 0 < d → n + d < 2 ^ 64 → (n + d + 2 ^ 64 - 1) % 2 ^ 64 ≡ n + d - 1
wrapped n d h k = omega arith

abbrev pub IsTime : ℕ → ℕ → Type 0
IsTime sec nsec = (sec < 910000000000) × (nsec < 1000000000)

-- Where the allocation unit is not 0 and the size leaves room for it in 64 bits, and the times are
-- from 1970 to a bound far ahead: FuseAttrToFileInfo rounds the size up to the least multiple of
-- the allocation unit, and its times convert back to those of the inode, rounded down to hundreds of
-- nanoseconds.
pub attr_to_file_info-Describes :
    (sector_size sectors : ℕ) (attr : Attr)
    → 0 < sector_size * sectors
    → attr.size + sector_size * sectors < 2 ^ 64
    → IsTime attr.atime attr.atimensec
    → IsTime attr.mtime attr.mtimensec
    → IsTime attr.ctime attr.ctimensec
    → Describes (sector_size * sectors) attr (attr_to_file_info sector_size sectors attr)
unfolding attr_to_file_info
attr_to_file_info-Describes sector_size sectors attr pos room a m c =
    let unit = sector_size * sectors in
    let fits = wrapped attr.size unit pos room in
    let r = rounded attr.size unit pos in
    record {
      units = (attr.size + unit + 2 ^ 64 - 1) % 2 ^ 64 / unit;
      whole_units = refl;
      enough = rw fits r.0;
      least = rw fits r.1;
      written = file_time_to_unix_time-unix_time_to_file_time attr.mtime attr.mtimensec m.0 m.1;
      accessed = file_time_to_unix_time-unix_time_to_file_time attr.atime attr.atimensec a.0 a.1;
      changed = file_time_to_unix_time-unix_time_to_file_time attr.ctime attr.ctimensec c.0 c.1;
    }
