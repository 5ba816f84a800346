-- ===== src/Times/Tests.antt =====
-- The theorems about times at concrete inputs.
use winfuse.Base.{◌≡◌, refl, arith}
use winfuse.Times.{file_time_to_unix_time, unix_time_to_file_time}
use winfuse.Times.RoundTrip.{times_come_back}

-- Half a second before 1970 is the second 0, and its half.
half_before : file_time_to_unix_time 116444735995000000 ≡ (0, 500000000)
unfolding file_time_to_unix_time
half_before = refl

times_come_back_example :
    (unix_time_to_file_time
        (file_time_to_unix_time 116444735995000000).0
        (file_time_to_unix_time 116444735995000000).1
      ≡ 116444736005000000)
    × (file_time_to_unix_time (unix_time_to_file_time 1577836800 123456789)
        ≡ (1577836800, 123456700))
times_come_back_example =
    times_come_back 116444735995000000 1577836800 123456789 (omega arith) (omega arith)
      (omega arith)
