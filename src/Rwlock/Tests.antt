-- ===== src/Rwlock/Tests.antt =====
-- The theorems about the lock at a concrete run: a writer gets the lock and leaves, and a reader is
-- then about to wait for it.
use winfuse.Base.{◌+◌, ◌≤◌, ◌<◌, ◌≡◌, ◌⊎◌, refl, arith}
use winfuse.Rwlock.{
  Rwlock, rwlock_initialize, perform, Reach, here, step, writer_wait_order, writer_wait_write,
  writer_release_order, leave_writer, reader_wait_order, reader_increment,
}
use winfuse.Rwlock.Exclusion.{rwlock_excludes, rwlock-Advances, IsFree, Advances}

abbrev writing : Rwlock
writing =
    perform (perform (perform rwlock_initialize writer_wait_order) writer_wait_write)
      writer_release_order

abbrev reading : Rwlock
reading = perform (perform (perform writing leave_writer) reader_wait_order) reader_increment

writing-Reach : Reach writing
unfolding perform rwlock_initialize
writing-Reach =
    step
      (step (step here writer_wait_order (omega arith)) writer_wait_write
        (omega arith, omega arith))
      writer_release_order (omega arith)

reading-Reach : Reach reading
unfolding perform rwlock_initialize
reading-Reach =
    step (step (step writing-Reach leave_writer (omega arith)) reader_wait_order (omega arith))
      reader_increment (omega arith, omega arith)

rwlock_excludes_example :
    (writing.writer_granted + writing.writer_in ≤ 1)
    × (0 < writing.writer_granted + writing.writer_in
        → writing.reader_granted + writing.reader_in ≡ 0)
    × (0 < writing.writer_in + writing.reader_last → writing.write_sem ≡ 0)
    × (0
          < writing.writer_granted + writing.writer_cancelled + writing.reader_granted
            + writing.reader_failed
        → writing.order_sem ≡ 0)
rwlock_excludes_example = rwlock_excludes writing-Reach

rwlock-Advances_example : IsFree reading ⊎ Advances reading
unfolding perform rwlock_initialize
rwlock-Advances_example = rwlock-Advances reading-Reach refl refl
