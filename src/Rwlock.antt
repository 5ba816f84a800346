-- ===== src/Rwlock.antt =====
-- src/shared/km/shared.h: the read/write lock of an instance, on two semaphores
-- (FUSE_RWLOCK_USE_SEMAPHORE).
-- A step is one call of the system by one thread: a wait that succeeds, a wait that is cancelled, a
-- release, or an interlocked operation with the test of its result. The state counts the threads that
-- stand before each step; threads outside the functions are not counted. A semaphore is its count;
-- a wait is a step only where the count is not 0, and a wait can be cancelled at any time.
pub mod Exclusion
pub mod Tests
use winfuse.Base.{ℕ, ◌+◌, ◌-◌, ◌%◌, ◌^◌, ◌<◌, ◌≡◌, Bool, true, false, ◌==◌, if◌then◌else◌}

pub record Rwlock : Type 0 where
  pub order_sem : ℕ
  pub write_sem : ℕ
  pub readers : ℕ
  -- FuseRwlockEnterWriter: before the wait for WriteSem, before the release of OrderSem after that
  -- wait was cancelled or was granted; then the thread has the lock.
  pub writer_ordered : ℕ
  pub writer_cancelled : ℕ
  pub writer_granted : ℕ
  pub writer_in : ℕ
  -- FuseRwlockEnterReader: before the increment, before the wait for WriteSem, before the decrement
  -- after a cancelled wait, and before the release of OrderSem in failure or success; then the thread
  -- has the lock.
  pub reader_ordered : ℕ
  pub reader_first : ℕ
  pub reader_cancelled : ℕ
  pub reader_failed : ℕ
  pub reader_granted : ℕ
  pub reader_in : ℕ
  -- FuseRwlockLeaveReader: before the release of WriteSem.
  pub reader_last : ℕ

-- FuseRwlockInitialize.
pub rwlock_initialize : Rwlock
rwlock_initialize = record {
  order_sem = 1;
  write_sem = 1;
  readers = 0;
  writer_ordered = 0;
  writer_cancelled = 0;
  writer_granted = 0;
  writer_in = 0;
  reader_ordered = 0;
  reader_first = 0;
  reader_cancelled = 0;
  reader_failed = 0;
  reader_granted = 0;
  reader_in = 0;
  reader_last = 0;
}

pub data Action : Type 0 where
  writer_wait_order writer_wait_write writer_cancel_write : Action
  writer_release_order writer_fail_order leave_writer : Action
  reader_wait_order reader_increment reader_wait_write reader_cancel_write : Action
  reader_decrement reader_release_order reader_fail_order : Action
  leave_reader reader_release_write : Action

-- InterlockedIncrement and InterlockedDecrement on a LONG.
abbrev increment : ℕ → ℕ
increment n = (n + 1) % 2 ^ 32

abbrev decrement : ℕ → ℕ
decrement n = (n + 2 ^ 32 - 1) % 2 ^ 32

-- What a thread that makes the step stands before, and what the system waits for.
abbrev pub Enabled : Rwlock → Action → Type 0
Enabled s writer_wait_order = 0 < s.order_sem
Enabled s writer_wait_write = (0 < s.writer_ordered) × (0 < s.write_sem)
Enabled s writer_cancel_write = 0 < s.writer_ordered
Enabled s writer_release_order = 0 < s.writer_granted
Enabled s writer_fail_order = 0 < s.writer_cancelled
Enabled s leave_writer = 0 < s.writer_in
Enabled s reader_wait_order = 0 < s.order_sem
-- There are fewer than 2 ^ 31 threads.
Enabled s reader_increment = (0 < s.reader_ordered) × (s.reader_in + s.reader_granted + 1 < 2 ^ 31)
Enabled s reader_wait_write = (0 < s.reader_first) × (0 < s.write_sem)
Enabled s reader_cancel_write = 0 < s.reader_first
Enabled s reader_decrement = 0 < s.reader_cancelled
Enabled s reader_release_order = 0 < s.reader_granted
Enabled s reader_fail_order = 0 < s.reader_failed
Enabled s leave_reader = 0 < s.reader_in
Enabled s reader_release_write = 0 < s.reader_last

-- A wait for OrderSem that is cancelled leaves everything as it is.
pub perform : Rwlock → Action → Rwlock
perform s writer_wait_order = record s {
  order_sem = s.order_sem - 1;
  writer_ordered = s.writer_ordered + 1;
}
perform s writer_wait_write = record s {
  write_sem = s.write_sem - 1;
  writer_ordered = s.writer_ordered - 1;
  writer_granted = s.writer_granted + 1;
}
perform s writer_cancel_write = record s {
  writer_ordered = s.writer_ordered - 1;
  writer_cancelled = s.writer_cancelled + 1;
}
perform s writer_release_order = record s {
  order_sem = s.order_sem + 1;
  writer_granted = s.writer_granted - 1;
  writer_in = s.writer_in + 1;
}
perform s writer_fail_order = record s {
  order_sem = s.order_sem + 1;
  writer_cancelled = s.writer_cancelled - 1;
}
perform s leave_writer = record s { write_sem = s.write_sem + 1; writer_in = s.writer_in - 1 }
perform s reader_wait_order = record s {
  order_sem = s.order_sem - 1;
  reader_ordered = s.reader_ordered + 1;
}
perform s reader_increment =
    let n = increment s.readers in
    record s {
      readers = n;
      reader_ordered = s.reader_ordered - 1;
      reader_first = if n == 1 then s.reader_first + 1 else s.reader_first;
      reader_granted = if n == 1 then s.reader_granted else s.reader_granted + 1;
    }
perform s reader_wait_write = record s {
  write_sem = s.write_sem - 1;
  reader_first = s.reader_first - 1;
  reader_granted = s.reader_granted + 1;
}
perform s reader_cancel_write = record s {
  reader_first = s.reader_first - 1;
  reader_cancelled = s.reader_cancelled + 1;
}
perform s reader_decrement = record s {
  readers = decrement s.readers;
  reader_cancelled = s.reader_cancelled - 1;
  reader_failed = s.reader_failed + 1;
}
perform s reader_release_order = record s {
  order_sem = s.order_sem + 1;
  reader_granted = s.reader_granted - 1;
  reader_in = s.reader_in + 1;
}
perform s reader_fail_order = record s {
  order_sem = s.order_sem + 1;
  reader_failed = s.reader_failed - 1;
}
perform s leave_reader =
    let n = decrement s.readers in
    record s {
      readers = n;
      reader_in = s.reader_in - 1;
      reader_last = if n == 0 then s.reader_last + 1 else s.reader_last;
    }
perform s reader_release_write = record s {
  write_sem = s.write_sem + 1;
  reader_last = s.reader_last - 1;
}

pub data Reach : Rwlock → Type 0 where
  here : Reach rwlock_initialize
  step : {s : Rwlock} → Reach s → (a : Action) → Enabled s a → Reach (perform s a)
