-- ===== src/Ioq/Steps.antt =====
-- Threads at work on the queue of src/shared/km/ioq.c, as an interleaving of its functions, each of
-- which holds the mutex. A thread holds a context from its creation, or from the call that took it
-- off the queue, until it puts it back or deletes it, as FuseInstanceTransact does.
use winfuse.Base.{
  ℕ, ◌<◌, ◌≡◌, Bool, Option, none, some, List, [], ◌∷◌, ◌==◌, if◌then◌else◌, count, erase,
}
use winfuse.Ioq.{
  Ioq, Effect, clear_request_length, delete_context, ioq_start_processing, ioq_end_processing,
  ioq_post_pending, ioq_post_pending_and_stop, ioq_next_pending,
}

-- `held` are the contexts in the hands of threads, `alive` those that are allocated, and `last` the
-- context that the first call of FuseIoqPostPendingAndStop has posted.
pub record System : Type 0 where
  pub queue : Ioq
  pub held : List ℕ
  pub alive : List ℕ
  pub last : ℕ

pub data Action : Type 0 where
  create discard : ℕ → Action
  start : ℕ → Bool → Action
  finish : ℕ → Action
  post stop : ℕ → Action
  next : Action

-- What the effects leave of the allocated contexts.
unfoldable pub settle : List Effect → List ℕ → List ℕ
settle [] alive = alive
settle (clear_request_length c ∷ es) alive = settle es alive
settle (delete_context c ∷ es) alive = settle es (erase c alive)

abbrev pub take_up : Option ℕ → List ℕ → List ℕ
take_up none held = held
take_up (some c) held = c ∷ held

-- A context is created at an unused address above the status codes that FuseContextIsStatus tells
-- apart. A thread gives away or deletes what it holds. A response may name any number.
abbrev pub Enabled : System → Action → Type 0
Enabled s (create c) = (0xffff < c) × (count c s.alive ≡ 0)
Enabled s (discard c) = 0 < count c s.held
Enabled s (start c b) = 0 < count c s.held
Enabled s (finish u) = Unit {0}
Enabled s (post c) = 0 < count c s.held
Enabled s (stop c) = 0 < count c s.held
Enabled s next = Unit {0}

-- A context that a call consumes leaves the hands of its thread; the effects settle what is alive.
unfoldable pub given : System → ℕ → Ioq × List Effect → System
given s c (q, effects) = record s {
  queue = q;
  held = erase c s.held;
  alive = settle effects s.alive;
}

unfoldable pub taken : System → Ioq × Option ℕ → System
taken s (q, c) = record s { queue = q; held = take_up c s.held }

unfoldable pub perform : System → Action → System
unfolding given taken settle
perform s (create c) = record s { held = c ∷ s.held; alive = c ∷ s.alive }
perform s (discard c) = record s { held = erase c s.held; alive = erase c s.alive }
perform s (start c b) = given s c (ioq_start_processing s.queue c b)
perform s (finish u) = taken s (ioq_end_processing s.queue u)
perform s (post c) = given s c (ioq_post_pending s.queue c)
perform s (stop c) =
    given (record s { last = if s.queue.last_context == 0 then c else s.last }) c
      (ioq_post_pending_and_stop s.queue c)
perform s next = taken s (ioq_next_pending s.queue)

abbrev pub initial : Ioq → System
initial q = record { queue = q; held = []; alive = []; last = 0 }

pub data Reach (s : System) : System → Type 0 where
  here : Reach s s
  step : {t : System} → Reach s t → (a : Action) → Enabled t a → Reach s (perform t a)
