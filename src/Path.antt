-- ===== src/Path.antt =====
-- src/shared/km/path.c: FusePosixPathPrefix and FusePosixPathSuffix.
-- A STRING is a length, a maximum length and the address of its first byte; the bytes themselves
-- are read from a memory, a function from addresses. A loop `while (EndP > P && ...) P++` recurs on
-- the bytes that are left, EndP - P. The (USHORT) casts are kept.
pub mod Prefix
pub mod Suffix
pub mod Tests
use winfuse.Base.{ℕ, zero, suc, ◌+◌, ◌-◌, ◌%◌, ◌^◌, ◌<◌, Bool, ◌&&◌, not, ◌==◌, ltb, if◌then◌else◌}

pub record PosixString : Type 0 where
  pub length : ℕ
  pub maximum_length : ℕ
  pub buffer : ℕ

abbrev pub Memory : Type 0
Memory = ℕ → ℕ

-- `while (EndP > P && '/' != *P) P++`
find_slash : Memory → ℕ → ℕ → ℕ
find_slash mem p zero = p
find_slash mem p (suc left) = if mem p == b'/' then p else find_slash mem (p + 1) left

-- `while (EndP > P && '/' == *P) P++`
pub skip_slashes : Memory → ℕ → ℕ → ℕ
skip_slashes mem p zero = p
skip_slashes mem p (suc left) = if mem p == b'/' then skip_slashes mem (p + 1) left else p

abbrev pub ushort : ℕ → ℕ
ushort n = n % 2 ^ 16

-- A string with its maximum length set to its length, as both functions end.
abbrev pub posix_string : ℕ → ℕ → PosixString
posix_string n p = record { length = n; maximum_length = n; buffer = p }

-- The prefix and the rest.
pub posix_path_prefix : Memory → PosixString → PosixString × PosixString
posix_path_prefix mem path =
    let end_p = path.buffer + path.length in
    let rooted = ltb path.buffer end_p && mem path.buffer == b'/' in
    let p = if rooted then path.buffer else find_slash mem path.buffer path.length in
    let n = if rooted then 1 else ushort (p - path.buffer) in
    let q = skip_slashes mem p (end_p - p) in
    (posix_string n path.buffer, posix_string (ushort (end_p - q)) q)

-- The variables of the loop of FusePosixPathSuffix.
record Scan : Type 0 where
  remain_length : ℕ
  suffix_length : ℕ
  suffix_buffer : ℕ

-- The outer loop from P on; each round passes one byte at least, so that the bytes left are enough
-- rounds.
suffix_loop : Memory → PosixString → ℕ → ℕ → Scan → Scan
suffix_loop mem path zero p s = s
suffix_loop mem path (suc fuel) p s =
    let end_p = path.buffer + path.length in
    let q = skip_slashes mem p (end_p - p) in
    let n = ushort (p - path.buffer) in
    let found = suffix_loop mem path fuel q (record {
      remain_length = if n == 0 then 1 else n;
      suffix_length = ushort (end_p - q);
      suffix_buffer = q;
    }) in
    let onward = suffix_loop mem path fuel (p + 1) s in
    if ltb p end_p then (if mem p == b'/' then found else onward) else s

-- The rest and the suffix.
pub posix_path_suffix : Memory → PosixString → PosixString × PosixString
unfolding suffix_loop
posix_path_suffix mem path =
    let start : Scan = record {
      remain_length = path.length;
      suffix_length = 0;
      suffix_buffer = path.buffer;
    } in
    let s = suffix_loop mem path path.length path.buffer start in
    (posix_string s.remain_length path.buffer, posix_string s.suffix_length s.suffix_buffer)
