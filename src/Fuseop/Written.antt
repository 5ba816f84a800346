-- ===== src/Fuseop/Written.antt =====
-- What FuseOpWrite of src/shared/km/fuseop.c copies.
use winfuse.Base.{
  ℕ, zero, suc, ◌+◌, ◌-◌, ◌%◌, ◌^◌, ◌<◌, ◌≤◌, ◌≡◌, ◌∙◌, ◌⊎◌, refl, inl, inr, arith, Bool, true,
  false, ◌==◌, ltb, leb, Bool-cases, if◌then◌else◌, eq_of_==, ne_of_==,
}
use winfuse.Cache.{Attr}
use winfuse.Proto.{req_sizemin}
use winfuse.Proto.Send.{send_write}
use winfuse.Status.{nt_success}
use winfuse.Fuseop.{State, Run, Copy}
use winfuse.Fuseop.Asked.{
  asked_size, Asked, at_end, at_copy, at_given, Asked-send, when_copied-Asked, Asked-map,
}
use winfuse.Fuseop.Bounds.{Within, read_within, write_within, Runs, advance-Runs}
use winfuse.Fuseop.Io.{
  Progress, advance, write_end, write_round, write_loop, op_write, write_size, write_start,
  write_stop,
}

-- What is written of `length` bytes, where the last request was for `size` of them.
pub record Writes (length size : ℕ) (s : State) : Type 0 where
  pub bounded : nt_success s.status ≡ true → s.information ≤ length
  -- All of it, unless the last answer of user mode was shorter than what was asked for.
  pub stopped :
      nt_success s.status ≡ true → (s.information ≡ length) ⊎ (s.response.write_size < size)

failed-Writes : (length size : ℕ) (s : State) → nt_success s.status ≡ false → Writes length size s
failed-Writes length size s bad = record {
  bounded = λ ok. absurd (ground (arith, bad, ok));
  stopped = λ ok. absurd (ground (arith, bad, ok));
}

module _ (sector_size sectors : ℕ) (attr : Attr) (length address : ℕ) where
  write_end-Writes :
      (p : Progress) (size : ℕ) (s : State)
      → Runs length p
      → (p.remain ≡ 0) ⊎ (s.response.write_size < size)
      → Asked (Within address length) (Writes length) size (write_end sector_size sectors attr p s)
  unfolding write_end
  write_end-Writes p size s h stop = at_end (record {
    bounded = λ ok. omega (arith, h.whole);
    stopped = λ ok. elim stop [ inl r ↦ inl (omega (arith, h.whole, r)) | inr short ↦ inr short ];
  })

  round-Writes :
      (p : Progress) (size : ℕ) (s : State) (again : Progress → State → Run)
      → Runs length p
      → 0 < p.remain
      → ((q : Progress) (n : ℕ) (t : State)
          → Runs length q
          → q.remain < p.remain
          → Asked (Within address length) (Writes length) n (again q t))
      → Asked
          (Within address length)
          (Writes length)
          size
          (write_round sector_size sectors again address attr p s)
  unfolding write_round asked_size send_write
  round-Writes p size s again h some_left g = at_given (λ more.
      let room = req_sizemin + more - write_size in
      let chunk = if ltb room p.remain then room else p.remain in
      let fits : chunk ≤ p.remain = ground arith in
      let some_bytes : 0 < chunk = ground (arith, some_left) in
      at_copy (write_within (omega arith) (omega (arith, h.whole, fits))) (λ status.
        when_copied-Asked size s status _
          (λ _.
            Asked-send size _ s _
              (λ t _.
                let transferred = t.response.write_size in
                elim (Bool-cases (ltb chunk transferred)) [
                  | inl e ↦ rw e (at_end (failed-Writes length _ _ refl))
                  | inr e ↦
                      let within : transferred ≤ chunk = ground (arith, e) in
                      let a = advance-Runs length transferred p h (omega (arith, within, fits)) in
                      rw e (elim (Bool-cases (ltb transferred chunk)) [
                        | inl less ↦
                            rw less (write_end-Writes _ _ t a.0 (inr (ground (arith, less))))
                        | inr all ↦ rw all (
                            g (advance p transferred) _ t a.0
                              (ground (arith, all, a.1, within, some_bytes)))
                      ])
                ])
              (failed-Writes length))
          (failed-Writes length size)))

  loop-Writes :
      (fuel : ℕ) (p : Progress) (size : ℕ) (s : State)
      → Runs length p
      → p.remain ≤ fuel
      → Asked
          (Within address length)
          (Writes length)
          size
          (write_loop sector_size sectors fuel address attr p s)
  unfolding write_loop
  loop-Writes zero p size s h enough = write_end-Writes p size s h (inl (omega arith))
  loop-Writes (suc fuel) p size s h enough = elim (Bool-cases (p.remain == 0)) [
    | inl e ↦ rw e (write_end-Writes p size s h (inl (eq_of_== _ _ e)))
    | inr e ↦ rw e (
        round-Writes p size s (write_loop sector_size sectors fuel address attr) h
          (omega (arith, ne_of_== _ _ e))
          (λ q n t r less. loop-Writes fuel q n t r (omega (arith, less))))
  ]

Within-map :
    (address small large : ℕ)
    → small ≤ large
    → (c : Copy) → Within address small c
    → Within address large c
Within-map address small large h _ (read_within a b) = read_within a (omega (arith, b, h))
Within-map address small large h _ (write_within a b) = write_within a (omega (arith, b, h))

abbrev remaining : Bool → ℕ → ℕ → Attr → ℕ
remaining constrained offset length attr =
    let start = write_start constrained offset attr in
    (write_stop constrained start length attr + 2 ^ 64 - start) % 2 ^ 32

-- No more is left to write than was asked for; and all of it, where the offset and the size are free.
remaining_bound :
    (constrained : Bool) (offset length : ℕ) (attr : Attr)
    → offset < 2 ^ 64
    → length < 2 ^ 32
    → (if constrained then leb attr.size (write_start constrained offset attr) else false) ≡ false
    → remaining constrained offset length attr ≤ length
unfolding write_start write_stop
remaining_bound true offset length attr a b c = ground (arith, a, b, c)
remaining_bound false offset length attr a b c = ground (arith, a, b)

remaining_all :
    (offset length : ℕ) (attr : Attr)
    → offset < 0xffff_ffff_ffff_ffff
    → length < 2 ^ 32
    → remaining false offset length attr ≡ length
unfolding write_start write_stop
remaining_all offset length attr a b = ground (arith, a, b)

-- The same, where `free` tells that the end of the file does not matter.
pub record WritesUpTo (free : Type 0) (length size : ℕ) (s : State) : Type 0 where
  pub bounded : nt_success s.status ≡ true → s.information ≤ length
  pub stopped :
      free → nt_success s.status ≡ true → (s.information ≡ length) ⊎ (s.response.write_size < size)

remaining-free :
    (constrained : Bool) (offset length : ℕ) (attr : Attr)
    → length < 2 ^ 32
    → (constrained ≡ false) × (offset < 0xffff_ffff_ffff_ffff)
    → remaining constrained offset length attr ≡ length
remaining-free true offset length attr fits f = absurd (ground (arith, f.0))
remaining-free false offset length attr fits f = remaining_all offset length attr f.1 fits

write_loop-WritesUpTo :
    (sector_size sectors : ℕ) (constrained : Bool) (offset length address size : ℕ) (t : State)
    → offset < 2 ^ 64
    → length < 2 ^ 32
    → (if constrained
        then leb t.response.attr.size (write_start constrained offset t.response.attr)
        else false)
      ≡ false
    → Asked
        (Within address length)
        (WritesUpTo ((constrained ≡ false) × (offset < 0xffff_ffff_ffff_ffff)) length)
        size
        (write_loop sector_size sectors
          (remaining constrained offset length t.response.attr)
          address
          t.response.attr
          (record {
            start_offset = write_start constrained offset t.response.attr;
            remain = remaining constrained offset length t.response.attr;
            offset = 0;
          })
          t)
write_loop-WritesUpTo sector_size sectors constrained offset length address size t small fits e =
    let attr = t.response.attr in
    let remain = remaining constrained offset length attr in
    let less = remaining_bound constrained offset length attr small fits e in
    Asked-map _ size (Within-map address remain length less)
      (λ n u w. record {
        bounded = λ ok. omega (arith, w.bounded ok, less);
        stopped = λ f ok.
            let all : remain ≡ length = remaining-free constrained offset length attr fits f in
            elim (w.stopped ok) [ inl done_all ↦ inl (done_all ∙ all) | inr short ↦ inr short ];
      })
      (loop-Writes sector_size sectors attr remain address remain _ size t
        (record { whole = omega arith; small = omega (arith, less, fits) }) (omega arith))

-- Whatever user mode answers, FuseOpWrite of a length below 2 ^ 32 copies only bytes that the caller
-- gave it, and where it succeeds it reports no more than there are. A write that is not constrained
-- to the file, at an offset below 2 ^ 64 - 1, reports all of them, unless the last answer of user mode
-- took fewer bytes than there were in the last WRITE request that it was sent.
pub op_write-WritesUpTo :
    (sector_size sectors : ℕ) (constrained : Bool) (file offset length address : ℕ) (s : State)
    → offset < 2 ^ 64
    → length < 2 ^ 32
    → Asked
        (Within address length)
        (WritesUpTo ((constrained ≡ false) × (offset < 0xffff_ffff_ffff_ffff)) length)
        0
        (op_write sector_size sectors constrained file offset length address s)
unfolding op_write
op_write-WritesUpTo sector_size sectors constrained file offset length address s small fits =
    Asked-send 0 _ (record s { file = file }) _
      (λ t _.
        let attr = t.response.attr in
        let outside =
          if constrained then leb attr.size (write_start constrained offset attr) else false in
        elim (Bool-cases outside) [
          | inl e ↦ rw e (
              at_end (record {
                bounded = λ _. omega arith;
                stopped = λ f _. absurd (ground (arith, f.0, e));
              }))
          | inr e ↦ rw e (
              write_loop-WritesUpTo sector_size sectors constrained offset length address _ t small
                fits e)
        ])
      (λ n t bad. record {
        bounded = λ ok. absurd (ground (arith, bad, ok));
        stopped = λ _ ok. absurd (ground (arith, bad, ok));
      })
