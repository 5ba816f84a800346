-- ===== src/Times.antt =====
-- src/shared/km/shared.h: FuseFileTimeToUnixTime and FuseUnixTimeToFileTime.
-- An INT64 is its 64-bit word: one from 2 ^ 63 on is negative, and stands for the magnitude
-- 2 ^ 64 - word. Division and remainder of C round towards 0.
pub mod RoundTrip
pub mod Tests
use winfuse.Base.{ℕ, ◌+◌, ◌-◌, ◌*◌, ◌/◌, ◌%◌, ◌^◌, ◌==◌, ltb, if◌then◌else◌}

-- 1970-01-01 as a file time.
abbrev pub epoch : ℕ
epoch = 116444736000000000

-- The seconds, as a UINT64, and the nanoseconds.
pub file_time_to_unix_time : ℕ → ℕ × ℕ
file_time_to_unix_time file_time0 =
    let file_time = (file_time0 + 2 ^ 64 - epoch) % 2 ^ 64 in
    let magnitude = 2 ^ 64 - file_time in
    let remain = magnitude % 10000000 in
    if ltb file_time (2 ^ 63) then (file_time / 10000000, file_time % 10000000 * 100) else (
      (2 ^ 64 - magnitude / 10000000) % 2 ^ 64,
      (if remain == 0 then 0 else 10000000 - remain) * 100,
    )

pub unix_time_to_file_time : ℕ → ℕ → ℕ
unix_time_to_file_time sec nsec = (sec * 10000000 + nsec / 100 + epoch) % 2 ^ 64
