-- ===== src/Fuseop/Bounds.antt =====
-- What FuseOpRead and FuseOpWrite of src/shared/km/fuseop.c copy.
use winfuse.Base.{
  ℕ, zero, suc, ◌+◌, ◌^◌, ◌<◌, ◌≤◌, ◌≡◌, ◌⊎◌, refl, inl, inr, arith, true, false, ◌==◌, ltb,
  Bool-cases, eq_of_==, ne_of_==,
}
use winfuse.Status.{nt_success}
use winfuse.Fuseop.{State, Run, Copy, to_caller, from_caller, send}
use winfuse.Fuseop.Always.{Always, at_end, at_copy, Always-bind, Always-send}
use winfuse.Fuseop.Io.{
  Progress, sub32, advance, when_copied, read_end, read_round, read_loop, op_read, rsp_header_size,
}

-- A copy stays within the `length` bytes of the caller that begin at `address`.
pub data Within (address length : ℕ) : Copy → Type 0 where
  read_within :
      {at size : ℕ}
      → address ≤ at
      → at + size ≤ address + length
      → Within address length (to_caller at size)
  write_within :
      {at size : ℕ}
      → address ≤ at
      → at + size ≤ address + length
      → Within address length (from_caller at size)

-- How far a loop has come: what is left and what is done are the whole.
pub record Runs (length : ℕ) (p : Progress) : Type 0 where
  pub whole : p.remain + p.offset ≡ length
  pub small : length < 2 ^ 32

pub advance-Runs :
    (length transferred : ℕ) (p : Progress)
    → Runs length p
    → transferred ≤ p.remain
    → Runs length (advance p transferred)
      × ((advance p transferred).remain + transferred ≡ p.remain)
unfolding advance
advance-Runs length transferred p h k = (
  record { whole = omega (arith, h.whole, h.small); small = h.small },
  omega (arith, h.whole, h.small),
)

-- What is read: nothing more than asked for, and where it succeeds, something.
pub record Reads (length : ℕ) (s : State) : Type 0 where
  pub bounded : nt_success s.status ≡ true → s.information ≤ length
  pub something : nt_success s.status ≡ true → 0 < s.information
  -- All of it, unless the last answer of user mode was shorter than what was asked for.
  pub stopped :
      nt_success s.status ≡ true
      → (s.information ≡ length) ⊎ (sub32 s.response.len rsp_header_size < length)

read_end-Reads :
    (length address : ℕ) (p : Progress) (s : State)
    → Runs length p
    → (p.remain ≡ 0) ⊎ (sub32 s.response.len rsp_header_size < length)
    → Always (Within address length) (Reads length) (read_end p s)
unfolding read_end
read_end-Reads length address p s h stop = elim (Bool-cases (p.offset == 0)) [
  | inl e ↦ rw e (
      at_end (record {
        bounded = λ ok. absurd (ground arith);
        something = λ ok. absurd (ground arith);
        stopped = λ ok. absurd (ground arith);
      }))
  | inr e ↦ rw e (
      at_end (record {
        bounded = λ ok. omega (arith, h.whole);
        something = λ ok. omega (arith, ne_of_== _ _ e);
        stopped =
            λ ok. elim stop [ inl r ↦ inl (omega (arith, h.whole, r)) | inr short ↦ inr short ];
      }))
]

-- A failure reads nothing that counts.
failed-Reads : (length : ℕ) (s : State) → nt_success s.status ≡ false → Reads length s
failed-Reads length s bad = record {
  bounded = λ ok. absurd (ground (arith, bad, ok));
  something = λ ok. absurd (ground (arith, bad, ok));
  stopped = λ ok. absurd (ground (arith, bad, ok));
}

pub when_copied-Always :
    {C : Copy → Type 0} {P : State → Type 0} (s : State) (status : ℕ) (r : Run)
    → (nt_success status ≡ true → Always C P r)
    → ((t : State) → nt_success t.status ≡ false → P t)
    → Always C P (when_copied s status r)
when_copied-Always s status r f g = elim (Bool-cases (nt_success status)) [
  | inl e ↦ rw e (f e)
  | inr e ↦ rw e (at_end (g (record s { status = status }) e))
]

round-Reads :
    (length address : ℕ) (p : Progress) (s : State) (again : Progress → State → Run)
    → Runs length p
    → ((q : Progress) (t : State)
        → Runs length q
        → q.remain ≡ 0
        → Always (Within address length) (Reads length) (again q t))
    → Always (Within address length) (Reads length) (read_round again address p s)
unfolding read_round
round-Reads length address p s again h g =
    Always-bind {P = λ t. Unit} (send _ s) _ (Always-send _ s (λ v a. tt))
      (λ t _ _.
        let transferred = sub32 t.response.len rsp_header_size in
        elim (Bool-cases (ltb p.remain transferred)) [
          | inl e ↦ rw e (at_end (failed-Reads length _ refl))
          | inr e ↦
              let fits : transferred ≤ p.remain = ground (arith, e) in
              let a = advance-Runs length transferred p h fits in
              rw e (
                at_copy (read_within (omega arith) (omega (arith, h.whole))) (λ status.
                  when_copied-Always t status _
                    (λ _. elim (Bool-cases (ltb transferred p.remain)) [
                      | inl less ↦ rw less (
                          read_end-Reads length address _ t a.0
                            (inr (ground (arith, less, h.whole))))
                      | inr all ↦
                          rw all (g (advance p transferred) t a.0 (ground (arith, all, a.1, fits)))
                    ])
                    (failed-Reads length)))
        ])
      (λ t _ bad. failed-Reads length t bad)

loop-Reads :
    (length fuel address : ℕ) (p : Progress) (s : State)
    → Runs length p
    → p.remain ≤ fuel
    → Always (Within address length) (Reads length) (read_loop fuel address p s)
unfolding read_loop
loop-Reads length zero address p s h enough =
    read_end-Reads length address p s h (inl (omega arith))
loop-Reads length (suc fuel) address p s h enough = elim (Bool-cases (p.remain == 0)) [
  | inl e ↦ rw e (read_end-Reads length address p s h (inl (eq_of_== _ _ e)))
  | inr e ↦ rw e (
      round-Reads length address p s (read_loop fuel address) h
        (λ q t r rest. loop-Reads length fuel address q t r (omega (arith, rest))))
]

-- Whatever user mode answers, FuseOpRead of a length below 2 ^ 32 copies only into the bytes that the
-- caller gave it, and where it succeeds it reports at least one byte and no more than were asked for,
-- and all of them unless the last answer of user mode had fewer than it was asked for.
pub op_read-Reads :
    (file offset length address : ℕ) (s : State)
    → length < 2 ^ 32
    → Always (Within address length) (Reads length) (op_read file offset length address s)
unfolding op_read
op_read-Reads file offset length address s small =
    loop-Reads length length address _ (record s { file = file })
      (record { whole = omega arith; small = small }) (omega arith)
