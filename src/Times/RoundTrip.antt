-- ===== src/Times/RoundTrip.antt =====
-- The conversions of times of src/shared/km/shared.h, one after the other.
use winfuse.Base.{ℕ, ◌+◌, ◌-◌, ◌*◌, ◌/◌, ◌%◌, ◌^◌, ◌<◌, ◌≡◌, arith, ◌==◌, ltb, if◌then◌else◌}
use winfuse.Times.{epoch, file_time_to_unix_time, unix_time_to_file_time}

-- A file time below 2 ^ 63 comes back as it was if it is not before 1970, or is a whole number of
-- seconds before it; any other comes back one second late.
unix_time_to_file_time-file_time_to_unix_time :
    (t : ℕ)
    → t < 2 ^ 63
    → let u = file_time_to_unix_time t in
      unix_time_to_file_time u.0 u.1
      ≡ (if ltb t epoch then (if (epoch - t) % 10000000 == 0 then t else t + 10000000) else t)
unfolding file_time_to_unix_time unix_time_to_file_time
unix_time_to_file_time-file_time_to_unix_time t h = ground arith

-- A Unix time from 1970 on, of less than 910 thousand million seconds, comes back with its
-- nanoseconds rounded down to hundreds.
pub file_time_to_unix_time-unix_time_to_file_time :
    (sec nsec : ℕ)
    → sec < 910000000000
    → nsec < 1000000000
    → file_time_to_unix_time (unix_time_to_file_time sec nsec) ≡ (sec, nsec / 100 * 100)
unfolding file_time_to_unix_time unix_time_to_file_time
file_time_to_unix_time-unix_time_to_file_time sec nsec h k = ground arith

-- A file time below 2 ^ 63 comes back from Unix time as it was if it is not before 1970, or is a whole
-- number of seconds before it, and one second late otherwise. A Unix time from 1970 on, of less than
-- 910 thousand million seconds, comes back from file time with its nanoseconds rounded down to
-- hundreds.
pub times_come_back :
    (t sec nsec : ℕ)
    → t < 2 ^ 63
    → sec < 910000000000
    → nsec < 1000000000
    → let u = file_time_to_unix_time t in
      (unix_time_to_file_time u.0 u.1
        ≡ (if ltb t epoch then (if (epoch - t) % 10000000 == 0 then t else t + 10000000) else t))
      × (file_time_to_unix_time (unix_time_to_file_time sec nsec) ≡ (sec, nsec / 100 * 100))
times_come_back t sec nsec h k l = (
  unix_time_to_file_time-file_time_to_unix_time t h,
  file_time_to_unix_time-unix_time_to_file_time sec nsec k l,
)
