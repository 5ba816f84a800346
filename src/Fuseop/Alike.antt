-- ===== src/Fuseop/Alike.antt =====
-- What a lookup of one name in src/shared/km/fuseop.c leaves alone.
use winfuse.Base.{ℕ, ◌≡◌, refl, inl, inr, Bool, Option-cases, Bool-cases}
use winfuse.Cache.{Cache, Rtl, Entry}
use winfuse.Cache.Entries.{get_entry, is_root}
use winfuse.Path.{Memory, PosixString}
use winfuse.Proto.Send.{Origin, Request}
use winfuse.Fuseop.{State, Copy, receive, send, ◌>>=◌, name_of, cache_of, set_cache}
use winfuse.Fuseop.Always.{Always, at_end, at_given, Always-bind, Always-send}
use winfuse.Fuseop.Lookup.{lookup, found, set_found}

-- The members that a lookup of one name leaves alone.
abbrev pub fixed : State → Memory × Origin × ℕ × Bool × Bool
fixed s = (s.memory, s.origin, s.desired_access, s.user_mode, s.has_traverse_privilege)

abbrev pub shape : State → (Memory × Origin × ℕ × Bool × Bool) × PosixString
shape s = (fixed s, s.remain)

abbrev pub Alike : State → State → Type 0
Alike s t = shape t ≡ shape s

module _ (rtl : Rtl) where
  set_found-Alike :
      {C : Copy → Type 0} (s t : State) (entry : Entry)
      → Alike s t
      → Always C (Alike s) (set_found rtl t entry)
  unfolding set_found found
  set_found-Alike s t entry h = at_given (λ now. at_given (λ new. at_end h))

  asked-Alike :
      {C : Copy → Type 0} (s : State) (c : Cache) (request : State → Request)
      (entry : State → Entry)
      → Always C (Alike s) (send request (set_cache s c) >>= λ u. set_found rtl u (entry u))
  unfolding receive
  asked-Alike s c request entry =
      Always-bind (send request (set_cache s c)) (λ u. set_found rtl u (entry u))
        (Always-send {P = Alike s} request (set_cache s c) (λ v a. refl))
        (λ u h _. set_found-Alike s u (entry u) h) (λ u h _. h)

  pub lookup-Alike : {C : Copy → Type 0} (s : State) → Always C (Alike s) (lookup rtl s)
  unfolding lookup found
  lookup-Alike s = at_given (λ now.
      elim (Option-cases (get_entry rtl (cache_of s) now s.ino (name_of s)).1) [
        | inl e ↦ rw e (elim (Bool-cases (is_root s.ino (name_of s))) [
          | inl r ↦ rw r (asked-Alike s _ _ _)
          | inr r ↦ rw r (asked-Alike s _ _ _)
        ])
        | inr (x, e) ↦ rw e (at_end refl)
      ])
