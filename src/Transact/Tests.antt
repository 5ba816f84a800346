-- ===== src/Transact/Tests.antt =====
-- FuseInstanceTransact takes the last context of a stopped queue, and puts it in process.
use winfuse.Base.{true, false, none, [], ◌∷◌, erase}
use winfuse.Ioq.{ioq_next_pending, ioq_post_pending_and_stop}
use winfuse.Ioq.Steps.{given, taken, settle, System, initial, perform, start, next, Reach}
use winfuse.Ioq.Tests.{fresh, destroy, drained, stopped-Reach}
use winfuse.Transact.{
  Thread, finished, process, call_then, Processed, settle_request, request_phase, instance_transact,
}
use winfuse.Transact.Refines.{Beside, begin, calls, processes, IsClean, instance_transact-Reach}

abbrev sends : Processed
sends = record { continue = true; reserved = true; forget = false; forget_left = false }

abbrev processing : System
processing = perform drained (start destroy true)

-- The calls of the thread.
abbrev transact : Thread
transact = instance_transact none 0 true 8192

takes :
    Beside
      (initial fresh)
      transact
      drained
      (destroy ∷ [])
      (process destroy true (settle_request destroy))
unfolding instance_transact request_phase ioq_next_pending ioq_post_pending_and_stop perform given
    taken settle
takes = calls {a = next} (begin stopped-Reach)

sent :
    Beside
      (initial fresh)
      transact
      drained
      (destroy ∷ [])
      (call_then (start destroy true) (finished 0))
unfolding settle_request
sent = processes takes sends (λ _ e. absurd (cc))

transact-Beside : Beside (initial fresh) transact processing [] (finished 0)
unfolding erase
transact-Beside = calls sent

instance_transact-Reach_example : Reach (initial fresh) processing × IsClean (finished 0) []
instance_transact-Reach_example =
    instance_transact-Reach none 0 true 8192 (initial fresh) processing [] (finished 0)
      transact-Beside
