-- ===== src/Rwlock/Exclusion.antt =====
-- What the lock of src/shared/km/shared.h guarantees, whatever the threads do.
use winfuse.Base.{
  ℕ, ◌+◌, ◌^◌, ◌<◌, ◌≤◌, ◌≡◌, refl, Bool, true, false, dec_lt, arith, ◌==◌, if◌then◌else◌, ◌⊎◌, inl,
  inr,
}
use winfuse.Rwlock.{
  Rwlock, Action, rwlock_initialize, perform, Enabled, Reach, here, step, writer_wait_order,
  writer_wait_write, writer_cancel_write, writer_release_order, writer_fail_order, leave_writer,
  reader_wait_order, reader_increment, reader_wait_write, reader_cancel_write, reader_decrement,
  reader_release_order, reader_fail_order, leave_reader, reader_release_write,
}

-- The threads that have OrderSem.
abbrev ordered : Rwlock → ℕ
ordered s =
    s.writer_ordered + s.writer_cancelled + s.writer_granted + s.reader_ordered + s.reader_first
    + s.reader_cancelled + s.reader_failed + s.reader_granted

-- Readers that have the lock share WriteSem.
abbrev shared : Rwlock → ℕ
shared s = if s.reader_granted + s.reader_in == 0 then 0 else 1

pub record IsValid (s : Rwlock) : Type 0 where
  pub order : s.order_sem + ordered s ≡ 1
  pub write : s.write_sem + s.writer_granted + s.writer_in + s.reader_last + shared s ≡ 1
  pub counted : s.readers ≡ s.reader_first + s.reader_cancelled + s.reader_granted + s.reader_in
  -- The first reader waits for the lock alone.
  pub first : 0 < s.reader_first + s.reader_cancelled → s.reader_granted + s.reader_in ≡ 0
  pub few : s.readers < 2 ^ 31

initialize-IsValid : IsValid rwlock_initialize
unfolding rwlock_initialize
initialize-IsValid = record {
  order = refl;
  write = refl;
  counted = refl;
  first = λ h. absurd (omega arith);
  few = omega arith;
}

perform-IsValid : (s : Rwlock) (a : Action) → IsValid s → Enabled s a → IsValid (perform s a)
unfolding perform
perform-IsValid s writer_wait_order v e =
    ground (arith, v.order, v.write, v.counted, v.first, v.few)
perform-IsValid s writer_wait_write v e =
    ground (arith, v.order, v.write, v.counted, v.first, v.few)
perform-IsValid s writer_cancel_write v e =
    ground (arith, v.order, v.write, v.counted, v.first, v.few)
perform-IsValid s writer_release_order v e =
    ground (arith, v.order, v.write, v.counted, v.first, v.few)
perform-IsValid s writer_fail_order v e =
    ground (arith, v.order, v.write, v.counted, v.first, v.few)
perform-IsValid s leave_writer v e = ground (arith, v.order, v.write, v.counted, v.first, v.few)
perform-IsValid s reader_wait_order v e =
    ground (arith, v.order, v.write, v.counted, v.first, v.few)
perform-IsValid s reader_increment v e = ground (arith, v.order, v.write, v.counted, v.first, v.few)
perform-IsValid s reader_wait_write v e =
    ground (arith, v.order, v.write, v.counted, v.first, v.few)
perform-IsValid s reader_cancel_write v e =
    ground (arith, v.order, v.write, v.counted, v.first, v.few)
perform-IsValid s reader_decrement v e = ground (arith, v.order, v.write, v.counted, v.first, v.few)
perform-IsValid s reader_release_order v e =
    ground (arith, v.order, v.write, v.counted, v.first, v.few)
perform-IsValid s reader_fail_order v e =
    ground (arith, v.order, v.write, v.counted, v.first, v.few)
perform-IsValid s leave_reader v e = ground (arith, v.order, v.write, v.counted, v.first, v.few)
perform-IsValid s reader_release_write v e =
    ground (arith, v.order, v.write, v.counted, v.first, v.few)

Reach-IsValid : {s : Rwlock} → Reach s → IsValid s
Reach-IsValid here = initialize-IsValid
Reach-IsValid (step {s} r a e) = perform-IsValid s a (Reach-IsValid r) e

-- Whatever the threads do, cancelled waits included, while there are fewer than 2 ^ 31 readers:
-- at most one writer has the lock, and no reader has it then; and each semaphore is released only
-- when its count is 0, so that no release exceeds its limit of 1.
pub rwlock_excludes :
    {s : Rwlock}
    → Reach s
    → (s.writer_granted + s.writer_in ≤ 1)
      × (0 < s.writer_granted + s.writer_in → s.reader_granted + s.reader_in ≡ 0)
      × (0 < s.writer_in + s.reader_last → s.write_sem ≡ 0)
      × (0 < s.writer_granted + s.writer_cancelled + s.reader_granted + s.reader_failed
          → s.order_sem ≡ 0)
rwlock_excludes r =
    let v = Reach-IsValid r in
    (
      ground (arith, v.write),
      λ h. ground (arith, v.write),
      λ h. ground (arith, v.write),
      λ h. omega (arith, v.order),
    )

-- A step of a thread that is past the wait for OrderSem, and is neither a cancellation nor the begin
-- of a leave.
pub is_own : Action → Bool
is_own writer_wait_write = true
is_own writer_release_order = true
is_own writer_fail_order = true
is_own reader_increment = true
is_own reader_wait_write = true
is_own reader_decrement = true
is_own reader_release_order = true
is_own reader_fail_order = true
is_own reader_release_write = true
is_own _ = false

-- The lock as it was initialized, up to threads that have not got OrderSem.
pub record IsFree (s : Rwlock) : Type 0 where
  pub order : s.order_sem ≡ 1
  pub write : s.write_sem ≡ 1
  pub none_left : s.readers + s.reader_last ≡ 0

abbrev pub Advances : Rwlock → Type 0
Advances s = (a : Action) × Enabled s a × (is_own a ≡ true)

-- A thread that has OrderSem, and need not wait for a reader or a writer, goes on.
ordered-Advances :
    (s : Rwlock)
    → IsValid s
    → s.writer_in ≡ 0
    → s.reader_in ≡ 0
    → s.reader_last ≡ 0
    → 0 < ordered s
    → Advances s
unfolding is_own
ordered-Advances s v w r l h = elim (dec_lt 0 s.writer_granted) [
  | yes k ↦ (writer_release_order, k, refl)
  | no a ↦ elim (dec_lt 0 s.reader_granted) [
    | yes k ↦ (reader_release_order, k, refl)
    | no b ↦ elim (dec_lt 0 s.writer_ordered) [
      | yes k ↦ (writer_wait_write, (k, ground (arith, v.write)), refl)
      | no c ↦ elim (dec_lt 0 s.reader_first) [
        | yes k ↦ (reader_wait_write, (k, ground (arith, v.write)), refl)
        | no d ↦ elim (dec_lt 0 s.reader_ordered) [
          | yes k ↦ (reader_increment, (k, omega arith), refl)
          | no e ↦ elim (dec_lt 0 s.writer_cancelled) [
            | yes k ↦ (writer_fail_order, k, refl)
            | no f ↦ elim (dec_lt 0 s.reader_cancelled) [
              | yes k ↦ (reader_decrement, k, refl)
              | no g ↦ (reader_fail_order, omega arith, refl)
            ]
          ]
        ]
      ]
    ]
  ]
]

-- Whatever the threads have done, cancelled waits included: when no thread has the lock, it is free,
-- or a thread inside the functions can take a step that needs no cancellation, so that no thread waits
-- for ever for a lock that nobody has.
pub rwlock-Advances :
    {s : Rwlock} → Reach s → s.writer_in ≡ 0 → s.reader_in ≡ 0 → IsFree s ⊎ Advances s
unfolding is_own
rwlock-Advances {s} r w i =
    let v = Reach-IsValid r in
    elim (dec_lt 0 s.reader_last) [
      | yes k ↦ inr (reader_release_write, k, refl)
      | no l ↦ elim (dec_lt 0 (ordered s)) [
        | yes k ↦ inr (ordered-Advances s v w i (omega arith) k)
        | no n ↦ inl (record {
          order = omega (arith, v.order);
          write = ground (arith, v.write);
          none_left = omega (arith, v.counted);
        })
      ]
    ]
