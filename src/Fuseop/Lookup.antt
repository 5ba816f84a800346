-- ===== src/Fuseop/Lookup.antt =====
-- FuseLookup, FuseLookupPath and the preparation of a path lookup, of src/shared/km/fuseop.c.
-- The memory of the paths, and with it FspPosixDeletePath, is not part of the state.
use winfuse.Base.{
  ℕ, zero, suc, ◌+◌, Bool, true, false, ◌&&◌, ◌||◌, not, Option, none, some, ◌==◌, if◌then◌else◌,
}
use winfuse.Cache.{Entry, Rtl}
use winfuse.Cache.Entries.{get_entry, set_entry, is_root, root_ino}
use winfuse.Cache.Gens.{reference_gen, dereference_gen}
use winfuse.File.{Instance, file_delete}
use winfuse.Path.{PosixString, posix_path_prefix}
use winfuse.Proto.Send.{Response, send_lookup, send_getattr}
use winfuse.Status.{
  nt_success, status_success, status_invalid_parameter, status_insufficient_resources,
}
use winfuse.Fuseop.{
  State, Run, done, given, ◌>>=◌, on_success, fail, send, name_of, cache_of, set_cache,
  InternalRequest, create_request, cleanup_request, rename_request, other_request,
}
use winfuse.Fuseop.Access.{access_check}
use winfuse.Fuseop.Right

-- An allocation that fails returns 0.
abbrev pub allocation : ℕ → Option ℕ
allocation zero = none
allocation (suc p) = some (suc p)

-- The end of FuseLookup.
unfoldable pub found : State → ℕ → Entry → State
found s item entry = record s {
  cache_item = item;
  ino = entry.nodeid;
  attr = entry.attr;
  status = status_success;
}

-- The entry of the root, of a response to GETATTR.
unfoldable pub root_entry : Response → Entry
root_entry a = record {
  nodeid = root_ino;
  generation = 0;
  entry_valid = a.attr_valid;
  attr_valid = a.attr_valid;
  entry_valid_nsec = a.attr_valid_nsec;
  attr_valid_nsec = a.attr_valid_nsec;
  attr = a.attr;
}

abbrev pub traverse : ℕ
traverse = Right.execute

module _ (rtl : Rtl) where
  unfoldable pub set_found : State → Entry → Run
  unfolding found
  set_found s entry = given λ now. given λ new.
      let (c, item) = set_entry rtl (cache_of s) now s.ino (name_of s) entry new in
      done (found (set_cache s c) item entry)

  -- FuseLookup.
  unfoldable pub lookup : State → Run
  unfolding set_found found root_entry
  lookup s = given λ now.
      let (c, cached) = get_entry rtl (cache_of s) now s.ino (name_of s) in
      let t = set_cache s c in
      elim cached [
        | some (entry, item) ↦ done (found t item entry)
        | none ↦
            if is_root s.ino (name_of s)
            then (do
              u ← send (λ v. send_getattr v.origin v.ino) t
              set_found u (root_entry u.response))
            else (do
              u ← send (λ v. send_lookup v.origin v.ino (name_of v)) t
              set_found u u.response.entry)
      ]

  abbrev pub root_name : State → Bool
  root_name s = 1 == s.name.length && s.memory s.name.buffer == b'/'

  abbrev pub last_name : State → Bool
  last_name s = 0 == s.remain.length

  -- The checks on what was looked up.
  unfoldable pub check_name : State → State
  check_name s =
      let check = access_check s.attr.uid s.attr.gid s.attr.mode s.origin.uid s.origin.gid in
      if s.user_mode
      then (if not (last_name s) && not s.has_traverse_privilege
          then record s { status = (check traverse).0 }
          else if last_name s
          then record s {
            status = (check s.desired_access).0;
            granted_access = (check s.desired_access).1;
          }
          else s)
      else s

  -- The end of a round of the loop.
  unfoldable pub next_name : (State → Run) → State → Run
  next_name again s = if last_name s then done (record s { status = status_success }) else again s

  -- A round of the loop, up to the next.
  unfoldable pub path_round : (State → Run) → State → Run
  unfolding lookup check_name next_name
  path_round again s =
      let (name, remain) = posix_path_prefix s.memory s.remain in
      let t = record s { name = name; remain = remain } in
      if not (root_name t) || (last_name t || t.user_mode && not t.has_traverse_privilege)
      then (do u ← lookup t; on_success (next_name again) (check_name u))
      else next_name again t

  unfoldable pub path_loop : ℕ → State → Run
  unfolding path_round
  path_loop zero s = done s
  path_loop (suc fuel) s = path_round (path_loop fuel) s

  -- FuseLookupPath. A round leaves less of the path, so that its bytes, and one round for an empty
  -- path, are enough.
  unfoldable pub lookup_path : State → Run
  unfolding path_loop
  lookup_path s = path_loop (s.remain.length + 1) (record s { ino = root_ino })

-- The token, the mode and the privilege that FusePrepareLookupPath takes of a request; all kinds of
-- requests that it knows have a path.
record PathArguments : Type 0 where
  access_token : ℕ
  user_mode : Bool
  has_traverse_privilege : Bool

path_arguments : InternalRequest → Option PathArguments
path_arguments (create_request r) = some (record {
  access_token = r.access_token;
  user_mode = r.user_mode;
  has_traverse_privilege = r.has_traverse_privilege;
})
path_arguments (cleanup_request _) =
    some (record { access_token = 0; user_mode = false; has_traverse_privilege = true })
path_arguments (rename_request token) =
    some (record { access_token = token; user_mode = true; has_traverse_privilege = true })
path_arguments other_request = none

-- The exit of FusePrepareLookupPath on a failure: the generation is given up.
prepare_failed : State → ℕ → ℕ → Run
prepare_failed s gen status = fail status (set_cache s (dereference_gen (cache_of s) gen))

-- Where FusePrepareLookupPath succeeds.
prepared : State → PathArguments → ℕ → PosixString → (uid gid pid : ℕ) → Run
prepared s a gen path uid gid pid = done (record s {
  origin = record s.origin { uid = uid; gid = gid; pid = pid };
  orig_path = path;
  cache_gen = gen;
  user_mode = a.user_mode;
  has_traverse_privilege = a.has_traverse_privilege;
  status = status_success;
})

-- The user and the group of a token, with the statuses of ObReferenceObjectByHandle and of both calls
-- of FuseGetTokenUid.
with_token : State → PathArguments → ℕ → PosixString → Run
unfolding prepare_failed prepared
with_token s a gen path =
    if a.access_token == 0
    then prepared s a gen path 0 0 0
    else given λ reference_status.
      if not (nt_success reference_status)
      then prepare_failed s gen reference_status
      else (given λ uid_status. given λ uid.
          if not (nt_success uid_status)
          then prepare_failed s gen uid_status
          else (given λ gid_status. given λ gid. given λ pid.
              if not (nt_success gid_status)
              then prepare_failed s gen gid_status
              else prepared s a gen path uid gid pid))

-- FusePrepareLookupPath, with what FspPosixMapWindowsToPosixPathEx returns.
pub prepare_lookup_path : State → Run
unfolding path_arguments prepare_failed with_token
prepare_lookup_path s = elim (path_arguments s.internal_request) [
  | none ↦ prepare_failed s 0 status_invalid_parameter
  | some a ↦ given λ now. given λ new.
      let (c, referenced) = reference_gen (cache_of s) now (allocation new) in
      let t = set_cache s c in
      elim referenced [
        | none ↦ prepare_failed t 0 status_insufficient_resources
        | some gen ↦ given λ path_status. given λ path. given λ path_length.
            if not (nt_success path_status)
            then prepare_failed t gen path_status
            else with_token t a gen
                (record { length = path_length; maximum_length = path_length + 1; buffer = path })
      ]
]

-- FusePrepareLookupPath2.
pub prepare_lookup_path2 : State → Run
prepare_lookup_path2 s = elim s.internal_request [
  | rename_request token ↦ given λ path_status. given λ path. given λ path_length.
      if not (nt_success path_status)
      then fail path_status s
      else done (record s {
        orig_path = record {
          length = path_length;
          maximum_length = path_length + 1;
          buffer = path;
        };
        status = status_success;
      })
  | _ ↦ fail status_invalid_parameter s
]

is_create : InternalRequest → Bool
is_create (create_request _) = true
is_create _ = false

-- FusePrepareLookupPath_ContextFini.
pub prepare_lookup_path_context_fini : State → Instance
unfolding is_create
prepare_lookup_path_context_fini s =
    let i = s.world.instance in
    let kept =
      if is_create s.internal_request && not (s.file == 0) then file_delete i s.file else i in
    record kept { cache = dereference_gen kept.cache s.cache_gen }
