-- ===== src/Context/Guards.antt =====
-- A request takes the guard lock at most once at a time, and gives it up in the end.
use winfuse.Base.{
  ℕ, ◌+◌, ◌⊎◌, ◌<◌, ◌≡◌, ◌∙◌, subst, sym, ap, refl, arith, Bool, true, false, ◌&&◌, not, Option,
  none, some, List, [], ◌∷◌, ◌++◌, ◌==◌, if◌then◌else◌, Bool-cases, inl, inr,
}
use mathlib.Core.Option.{some-injective}
use winfuse.Context.{
  Message, reserved_kind, process_all, Context, Operations, GuardResult, guard_cancel, guard_false,
  guard_true, is_guard_true, GuardEvent, acquired, released, Created, created, failed,
  context_create, run_proc, context_process, context_delete, context_kind,
}

-- Whether the lock is held after the events; `none` is a lock that is taken twice or given up when it
-- is not held.
unfoldable pub holds : Bool → List GuardEvent → Option Bool
holds held [] = some held
holds false (acquired ∷ es) = holds true es
holds true (acquired ∷ es) = none
holds true (released ∷ es) = holds false es
holds false (released ∷ es) = none

-- What the procedures of the operations keep: the result of the guard, and the messages.
pub record IsProper (ops : Operations) : Type 0 where
  pub guard_kept : (c : Context) → (ops.proc c).0.op_guard_result ≡ c.op_guard_result
  pub request_kept : (c : Context) → (ops.proc c).0.fuse_request ≡ c.fuse_request
  pub response_kept : (c : Context) → (ops.proc c).0.fuse_response ≡ c.fuse_response

-- A request that has not been processed does not hold the lock.
unfoldable pub IsReady : Context → Type 0
IsReady c = c.fuse_request ≡ 0 → c.fuse_response ≡ 0 → is_guard_true c.op_guard_result ≡ false

run_proc-holds :
    (ops : Operations) (c : Context)
    → IsProper ops
    → let r = run_proc ops c in
      holds (is_guard_true c.op_guard_result) r.2 ≡ some (is_guard_true r.0.op_guard_result)
unfolding run_proc holds
run_proc-holds ops c p =
    elim (Bool-cases (not (ops.proc c).1 && is_guard_true (ops.proc c).0.op_guard_result)) [
      | inl t ↦
          let held : is_guard_true c.op_guard_result ≡ true = ground (arith, p.guard_kept c) in
          rw (t, held) refl
      | inr t ↦ rw (t, p.guard_kept c) refl
    ]

-- A request that is done does not hold the lock.
run_proc-done :
    (ops : Operations) (c : Context)
    → let r = run_proc ops c in r.1 ≡ false → is_guard_true r.0.op_guard_result ≡ false
unfolding run_proc
run_proc-done ops c =
    elim (Bool-cases (not (ops.proc c).1 && is_guard_true (ops.proc c).0.op_guard_result)) [
      | inl t ↦ rw t (λ e. refl)
      | inr t ↦ rw t (λ e. ground arith)
    ]

run_proc-messages :
    (ops : Operations) (c : Context)
    → IsProper ops
    → let d = (run_proc ops c).0 in
      (d.fuse_request ≡ c.fuse_request) × (d.fuse_response ≡ c.fuse_response)
unfolding run_proc
run_proc-messages ops c p =
    elim (Bool-cases (not (ops.proc c).1 && is_guard_true (ops.proc c).0.op_guard_result)) [
      | inl t ↦ rw t (p.request_kept c, p.response_kept c)
      | inr t ↦ rw t (p.request_kept c, p.response_kept c)
    ]

-- What one call of FuseContextProcess does with the lock.
pub record Processes (c : Context) (r : Context × Bool × List GuardEvent) : Type 0 where
  pub balanced :
      holds (is_guard_true c.op_guard_result) r.2 ≡ some (is_guard_true r.0.op_guard_result)
  pub done : r.1 ≡ false → is_guard_true r.0.op_guard_result ≡ false
  pub ready : IsReady r.0

GuardResult-cases : (g : GuardResult) → (g ≡ guard_cancel) ⊎ ((g ≡ guard_false) ⊎ (g ≡ guard_true))
GuardResult-cases guard_cancel = inl refl
GuardResult-cases guard_false = inr (inl refl)
GuardResult-cases guard_true = inr (inr refl)

-- After the procedure, a message is there.
run_proc-IsReady :
    (ops : Operations) (d : Context)
    → IsProper ops
    → 0 < d.fuse_response + d.fuse_request
    → IsReady (run_proc ops d).0
unfolding IsReady
run_proc-IsReady ops d p some_message a b =
    let (x, y) = run_proc-messages ops d p in absurd (omega (arith, x, y))

-- On a request that does not hold the lock before its first message, FuseContextProcess with a
-- message keeps the events on the lock in order and the result of the guard in agreement with them,
-- and gives the lock up where it returns FALSE, for procedures that leave the result and the messages
-- alone.
pub context_process-Processes :
    (ops : Operations) (c : Context) (response request length : ℕ)
    → IsProper ops
    → IsReady c
    → 0 < response + request
    → Processes c (context_process ops c response request length)
unfolding context_process holds IsReady
context_process-Processes ops c response request length p ready some_message =
    elim (Bool-cases
      (c.fuse_request == 0 && (c.fuse_response == 0 && ops.has_guard (context_kind c)))) [
        | inr t ↦ rw t (record {
          balanced = run_proc-holds ops (with_message c) p;
          done = run_proc-done ops (with_message c);
          ready = run_proc-IsReady ops (with_message c) p some_message;
        })
        | inl t ↦
            let free : is_guard_true c.op_guard_result ≡ false =
              ready (ground arith) (ground arith) in
            elim (GuardResult-cases (ops.acquire c)) [
              | inl e ↦
                  rw (t, e)
                    (record { balanced = rw free refl; done = λ _. refl; ready = λ a b. refl })
              | inr (inl e) ↦
                  rw (t, e)
                    (record {
                      balanced = rw free (run_proc-holds ops (with_message (asked guard_false)) p);
                      done = run_proc-done ops (with_message (asked guard_false));
                      ready =
                          run_proc-IsReady ops (with_message (asked guard_false)) p some_message;
                    })
              | inr (inr e) ↦
                  rw (t, e)
                    (record {
                      balanced = rw free (run_proc-holds ops (with_message (asked guard_true)) p);
                      done = run_proc-done ops (with_message (asked guard_true));
                      ready = run_proc-IsReady ops (with_message (asked guard_true)) p some_message;
                    })
            ]
      ]
  where
    asked : GuardResult → Context
    asked g = record c { op_guard_result = g }

    with_message : Context → Context
    with_message d = record d {
      fuse_request = request;
      fuse_response = response;
      fuse_request_length = length;
    }

holds-append :
    (held then_held : Bool) (es fs : List GuardEvent)
    → holds held es ≡ some then_held
    → holds held (es ++ fs) ≡ holds then_held fs
unfolding holds
holds-append held then_held [] fs e =
    let same : held ≡ then_held = some-injective _ _ e in rw same refl
holds-append false then_held (acquired ∷ es) fs e = holds-append true then_held es fs e
holds-append true then_held (acquired ∷ es) fs e = absurd (cc)
holds-append true then_held (released ∷ es) fs e = holds-append false then_held es fs e
holds-append false then_held (released ∷ es) fs e = absurd (cc)

abbrev pub AreMessages : List Message → Type 0
AreMessages [] = Unit {0}
AreMessages (m ∷ ms) = (0 < m.response + m.request) × AreMessages ms

process_all-holds :
    (ops : Operations) (ms : List Message) (c : Context)
    → IsProper ops
    → IsReady c
    → AreMessages ms
    → let r = process_all ops c ms in
      holds (is_guard_true c.op_guard_result) r.1 ≡ some (is_guard_true r.0.op_guard_result)
unfolding process_all holds
process_all-holds ops [] c p ready all = refl
process_all-holds ops (m ∷ ms) c p ready all =
    let s = context_process-Processes ops c m.response m.request m.length p ready all.0 in
    elim (Bool-cases (context_process ops c m.response m.request m.length).1) [
      | inl t ↦ rw t (
          holds-append (is_guard_true c.op_guard_result) _
            (context_process ops c m.response m.request m.length).2 _ s.balanced
          ∙ process_all-holds ops ms (context_process ops c m.response m.request m.length).0 p
              s.ready all.1)
      | inr t ↦ rw t s.balanced
    ]

delete-holds :
    (c : Context) → holds (is_guard_true c.op_guard_result) (context_delete c).0 ≡ some false
unfolding context_delete holds
delete-holds c = elim (Bool-cases (is_guard_true c.op_guard_result)) [
  | inl t ↦ rw t refl
  | inr t ↦ rw t refl
]

made_holding : Created → Bool
made_holding (failed s) = false
made_holding (created c) = is_guard_true c.op_guard_result

create_made :
    (ops : Operations) (internal_request kind hint : ℕ) (allocated : Bool)
    → made_holding (context_create ops internal_request kind hint allocated) ≡ false
unfolding context_create made_holding
create_made ops internal_request kind hint allocated =
    elim (Bool-cases (ops.has_proc (if internal_request == 0 then reserved_kind else kind))) [
      | inr t ↦ rw t refl
      | inl t ↦ elim (Bool-cases allocated) [ inl u ↦ rw (t, u) refl | inr u ↦ rw (t, u) refl ]
    ]

-- The context that FuseContextCreate makes has not asked for the lock.
create_free :
    (ops : Operations) (internal_request kind hint : ℕ) (allocated : Bool) (c : Context)
    → context_create ops internal_request kind hint allocated ≡ created c
    → is_guard_true c.op_guard_result ≡ false
unfolding made_holding
create_free ops internal_request kind hint allocated c e =
    sym (ap made_holding e) ∙ create_made ops internal_request kind hint allocated

-- From FuseContextCreate to FuseContextDelete, whatever requests or responses a context is processed with, and
-- wherever it stops, it takes the guard lock only when it does not hold it, gives it up only when it
-- holds it, and does not hold it in the end, for procedures that leave the result of the guard and
-- the messages alone.
pub guard_balanced :
    (ops : Operations) (internal_request kind hint : ℕ) (allocated : Bool) (c : Context)
    (ms : List Message)
    → IsProper ops
    → context_create ops internal_request kind hint allocated ≡ created c
    → AreMessages ms
    → let r = process_all ops c ms in holds false (r.1 ++ (context_delete r.0).0) ≡ some false
unfolding IsReady
guard_balanced ops internal_request kind hint allocated c ms p e all =
    let free = create_free ops internal_request kind hint allocated c e in
    let r = process_all ops c ms in
    let run : holds false r.1 ≡ some (is_guard_true r.0.op_guard_result) =
      subst (λ b. holds b r.1 ≡ some (is_guard_true r.0.op_guard_result)) free
        (process_all-holds ops ms c p (λ _ _. free) all) in
    holds-append false (is_guard_true r.0.op_guard_result) r.1 (context_delete r.0).0 run
    ∙ delete-holds r.0
