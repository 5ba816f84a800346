-- ===== src/Transact/Refines.antt =====
-- The threads of src/shared/km/instance.c beside others, as steps of the queue of src/shared/km/ioq.c.
use winfuse.Base.{
  ℕ, ◌≤◌, ◌≡◌, refl, arith, Bool, Option, none, some, List, [], ◌∷◌, count, erase, count-erase,
}
use winfuse.Ioq.{ioq_end_processing, ioq_next_pending}
use winfuse.Ioq.Steps.{
  System, Action, create, discard, start, finish, post, stop, next, Enabled, perform, given, taken,
  take_up, Reach, step,
}
use winfuse.Transact.{
  Thread, finished, call, create_context, process, returned, Processed, Answer, instance_transact,
}
use winfuse.Transact.Discipline.{
  Needs, hand_after, Promise, Disciplined, at_end, at_call, at_create, at_process, at_returned,
  instance_transact-Disciplined,
}

-- The context that a call hands out.
abbrev pub handed : System → Action → Option ℕ
handed s (finish u) = (ioq_end_processing s.queue u).1
handed s next = (ioq_next_pending s.queue).1
handed s (create c) = none
handed s (discard c) = none
handed s (start c b) = none
handed s (post c) = none
handed s (stop c) = none

-- What the thread `t` comes to, with the system and the contexts in its hands, from a state `s0` where
-- it begins. Between its steps other threads do any steps that leave the contexts in its hands there.
pub data Beside (s0 : System) (t : Thread) : System → List ℕ → Thread → Type 0 where
  begin : {s : System} → Reach s0 s → Beside s0 t s [] t
  others :
      {s : System} {hand : List ℕ} {u : Thread}
      → Beside s0 t s hand u
      → (a : Action) → Enabled s a
      → ((x : ℕ) → count x hand ≤ count x (perform s a).held)
      → Beside s0 t (perform s a) hand u
  calls :
      {s : System} {hand : List ℕ} {a : Action} {k : Option ℕ → Thread}
      → Beside s0 t s hand (call a k)
      → Beside s0 t (perform s a) (hand_after a (handed s a) hand) (k (handed s a))
  makes :
      {s : System} {hand : List ℕ} {k : Option ℕ → Thread}
      → Beside s0 t s hand (create_context k)
      → (c : ℕ) → Enabled s (create c)
      → Beside s0 t (perform s (create c)) (c ∷ hand) (k (some c))
  makes_none :
      {s : System} {hand : List ℕ} {k : Option ℕ → Thread}
      → Beside s0 t s hand (create_context k)
      → Beside s0 t s hand (k none)
  processes :
      {s : System} {hand : List ℕ} {c : ℕ} {b : Bool} {k : Processed → Thread}
      → Beside s0 t s hand (process c b k)
      → (p : Processed) → Promise b p
      → Beside s0 t s hand (k p)
  gets :
      {s : System} {hand : List ℕ} {k : ℕ → Thread}
      → Beside s0 t s hand (returned k)
      → (n : ℕ) → Beside s0 t s hand (k n)

-- What is in hand is held.
abbrev Holds : System → List ℕ → Type 0
Holds s hand = (x : ℕ) → count x hand ≤ count x s.held

Needs-Enabled :
    (s : System) (a : Action) (hand : List ℕ) → Needs a hand → Holds s hand → Enabled s a
Needs-Enabled s (create c) hand n h = absurd n
Needs-Enabled s (discard c) hand n h = omega (arith, n, h c)
Needs-Enabled s (start c b) hand n h = omega (arith, n, h c)
Needs-Enabled s (post c) hand n h = omega (arith, n, h c)
Needs-Enabled s (stop c) hand n h = omega (arith, n, h c)
Needs-Enabled s (finish u) hand n h = tt
Needs-Enabled s next hand n h = tt

erase-Holds :
    (held hand : List ℕ) (c x : ℕ)
    → count x hand ≤ count x held
    → count x (erase c hand) ≤ count x (erase c held)
erase-Holds held hand c x h = omega (arith, count-erase x c held, count-erase x c hand, h)

take_up-Holds :
    (o : Option ℕ) (held hand : List ℕ) (x : ℕ)
    → count x hand ≤ count x held
    → count x (take_up o hand) ≤ count x (take_up o held)
unfolding count
take_up-Holds none held hand x h = h
take_up-Holds (some c) held hand x h = ground (arith, h)

calls-Holds :
    (s : System) (a : Action) (hand : List ℕ)
    → Needs a hand
    → Holds s hand
    → Holds (perform s a) (hand_after a (handed s a) hand)
unfolding perform given taken
calls-Holds s (create c) hand n h = absurd n
calls-Holds s (discard c) hand n h = λ x. erase-Holds s.held hand c x (h x)
calls-Holds s (start c b) hand n h = λ x. erase-Holds s.held hand c x (h x)
calls-Holds s (post c) hand n h = λ x. erase-Holds s.held hand c x (h x)
calls-Holds s (stop c) hand n h = λ x. erase-Holds s.held hand c x (h x)
calls-Holds s (finish u) hand n h = λ x. take_up-Holds _ s.held hand x (h x)
calls-Holds s next hand n h = λ x. take_up-Holds _ s.held hand x (h x)

-- The state that a thread comes to.
record Sound (s0 s : System) (hand : List ℕ) (t : Thread) : Type 0 where
  reached : Reach s0 s
  disciplined : Disciplined hand t
  holds : Holds s hand

call-parts :
    {hand : List ℕ} {a : Action} {k : Option ℕ → Thread}
    → Disciplined hand (call a k)
    → Needs a hand × ((o : Option ℕ) → Disciplined (hand_after a o hand) (k o))
call-parts (at_call n f) = (n, f)

create-parts :
    {hand : List ℕ} {k : Option ℕ → Thread}
    → Disciplined hand (create_context k)
    → ((c : ℕ) → Disciplined (c ∷ hand) (k (some c))) × Disciplined hand (k none)
create-parts (at_create f g) = (f, g)

process-part :
    {hand : List ℕ} {c : ℕ} {b : Bool} {k : Processed → Thread}
    → Disciplined hand (process c b k)
    → (p : Processed) → Promise b p
    → Disciplined hand (k p)
process-part (at_process n f) = f

returned-part :
    {hand : List ℕ} {k : ℕ → Thread}
    → Disciplined hand (returned k)
    → (n : ℕ) → Disciplined hand (k n)
returned-part (at_returned f) = f

-- A thread that is finished has no context in its hands.
pub IsClean : Thread → List ℕ → Type 0
IsClean (finished status) hand = hand ≡ []
IsClean (call a k) hand = Unit
IsClean (create_context k) hand = Unit
IsClean (process c b k) hand = Unit
IsClean (returned k) hand = Unit

Disciplined-IsClean : (t : Thread) (hand : List ℕ) → Disciplined hand t → IsClean t hand
unfolding IsClean
Disciplined-IsClean (finished status) [] at_end = refl
Disciplined-IsClean (finished status) (_ ∷ _) d = elim d [ ]
Disciplined-IsClean (call a k) hand d = tt
Disciplined-IsClean (create_context k) hand d = tt
Disciplined-IsClean (process c b k) hand d = tt
Disciplined-IsClean (returned k) hand d = tt

Beside-Sound :
    {s0 : System} {t : Thread} {s : System} {hand : List ℕ} {u : Thread}
    → Disciplined [] t
    → Beside s0 t s hand u
    → Sound s0 s hand u
unfolding count perform
Beside-Sound d (begin r) = record { reached = r; disciplined = d; holds = λ x. omega arith }
Beside-Sound d (others b a e h) =
    let i = Beside-Sound d b in
    record { reached = step i.reached a e; disciplined = i.disciplined; holds = h }
Beside-Sound {s0} d (calls {s} {hand} {a} b) =
    let i = Beside-Sound d b in
    let (needs, next_part) = call-parts i.disciplined in
    record {
      reached = step i.reached a (Needs-Enabled s a hand needs i.holds);
      disciplined = next_part (handed s a);
      holds = calls-Holds s a hand needs i.holds;
    }
Beside-Sound d (makes b c e) =
    let i = Beside-Sound d b in
    record {
      reached = step i.reached (create c) e;
      disciplined = (create-parts i.disciplined).0 c;
      holds = λ x. ground (arith, i.holds x);
    }
Beside-Sound d (makes_none b) =
    let i = Beside-Sound d b in
    record { reached = i.reached; disciplined = (create-parts i.disciplined).1; holds = i.holds }
Beside-Sound d (processes b p promise) =
    let i = Beside-Sound d b in
    record {
      reached = i.reached;
      disciplined = process-part i.disciplined p promise;
      holds = i.holds;
    }
Beside-Sound d (gets b n) =
    let i = Beside-Sound d b in
    record { reached = i.reached; disciplined = returned-part i.disciplined n; holds = i.holds }

-- FuseInstanceTransact, with any parameters, beside any other threads that leave the contexts in its
-- hands there, where an operation of the driver that has a buffer for a request waits for the response
-- or is a FORGET: all that it does are steps of the system of threads on the queue, each at a time
-- when it is enabled, so that what the queue guarantees holds with it; and when it is finished, it
-- has given up every context that it took or created.
pub instance_transact-Reach :
    (answer : Option Answer) (input_buffer_length : ℕ) (wants_request : Bool)
    (output_buffer_length : ℕ) (s0 s : System) (hand : List ℕ) (t : Thread)
    → Beside s0
        (instance_transact answer input_buffer_length wants_request output_buffer_length)
        s
        hand
        t
    → Reach s0 s × IsClean t hand
instance_transact-Reach answer input wants output s0 s hand t b =
    let i = Beside-Sound (instance_transact-Disciplined answer input wants output) b in
    (i.reached, Disciplined-IsClean t hand i.disciplined)
