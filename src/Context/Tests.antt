-- ===== src/Context/Tests.antt =====
-- The theorems about requests with operations that always take the guard and are done at once with a
-- response.
use winfuse.Base.{◌≡◌, refl, arith, true, false, some, List, [], ◌∷◌, ◌++◌, ◌==◌}
use winfuse.Context.{
  Context, Operations, Message, guard_true, guard_false, acquired, released, created,
  context_create, process_all, context_delete,
}
use winfuse.Context.Guards.{holds, IsProper, IsReady, guard_balanced}

-- A request waits as long as it has no response.
abbrev guarded : Operations
guarded = record {
  has_proc = λ k. true;
  has_guard = λ k. true;
  acquire = λ c. guard_true;
  proc = λ c. (c, c.fuse_response == 0);
}

guarded-IsProper : IsProper guarded
guarded-IsProper = record {
  guard_kept = λ c. refl;
  request_kept = λ c. refl;
  response_kept = λ c. refl;
}

-- A request of kind 1 at an address.
abbrev fresh : Context
fresh = record {
  internal_request = 0x10000;
  internal_request_kind = 1;
  internal_response_own = true;
  response_kind = 1;
  response_hint = 5;
  status = 0;
  fuse_request = 0;
  fuse_response = 0;
  fuse_request_length = 0;
  op_guard_result = guard_false;
  has_fini = false;
}

fresh_created : context_create guarded 0x10000 1 5 true ≡ created fresh
unfolding context_create
fresh_created = refl

fresh-IsReady : IsReady fresh
unfolding IsReady
fresh-IsReady a b = refl

-- The request is sent, and its response comes.
abbrev messages : List Message
messages =
    record { response = 0; request = 0x20000; length = 4096 }
    ∷ record { response = 0x30000; request = 0; length = 0 }
    ∷ []

locked_once : (process_all guarded fresh messages).1 ≡ acquired ∷ released ∷ []
unfolding process_all
locked_once = refl

guard_balanced_example :
    let r = process_all guarded fresh messages in
    holds false (r.1 ++ (context_delete r.0).0) ≡ some false
guard_balanced_example =
    guard_balanced guarded 0x10000 1 5 true fresh messages guarded-IsProper fresh_created
      (omega arith, (omega arith, tt))
