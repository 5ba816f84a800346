-- ===== src/Fuseop/Asked.antt =====
-- What an operation of src/shared/km/fuseop.c ends with, next to the size in the request that it sent
-- last, whatever user mode answers and whatever the system returns.
use winfuse.Base.{ℕ, ◌≡◌, true, false, inl, inr, Bool-cases}
use winfuse.Proto.Send.{Body, write_body, Request, Response}
use winfuse.Status.{nt_success}
use winfuse.Fuseop.{State, World, Copy, Run, done, ask, copy, given, ◌>>=◌, send, receive}
use winfuse.Fuseop.Io.{when_copied}

-- The size in a WRITE request.
unfoldable pub asked_size : Body → ℕ
asked_size (write_body fh offset size flags) = size
asked_size body = 0

-- The copies have the property `C`, and the states at the end have `P`, together with the size in the
-- last request. Before the first that is `size`.
pub data Asked (C : Copy → Type 0) (P : ℕ → State → Type 0) : (size : ℕ) → Run → Type 0 where
  at_end : {size : ℕ} {s : State} → P size s → Asked C P size (done s)
  at_ask :
      {size : ℕ} {r : Request} {w : World} {f : World → Response → Run}
      → ((v : World) (a : Response) → Asked C P (asked_size r.body) (f v a))
      → Asked C P size (ask r w f)
  at_copy :
      {size : ℕ} {c : Copy} {f : ℕ → Run}
      → C c
      → ((n : ℕ) → Asked C P size (f n))
      → Asked C P size (copy c f)
  at_given : {size : ℕ} {f : ℕ → Run} → ((n : ℕ) → Asked C P size (f n)) → Asked C P size (given f)

module _ {C : Copy → Type 0} {P : ℕ → State → Type 0} (size : ℕ) where
  -- A request is sent, and a failure ends the chain.
  pub Asked-send :
      (request : State → Request) (s : State) (k : State → Run)
      → ((t : State) → nt_success t.status ≡ true → Asked C P (asked_size (request s).body) (k t))
      → ((n : ℕ) (t : State) → nt_success t.status ≡ false → P n t)
      → Asked C P size (send request s >>= k)
  unfolding send
  Asked-send request s k f g = at_ask (λ v a.
      elim (Bool-cases (nt_success (receive s v a).status)) [
        | inl e ↦ rw e (f (receive s v a) e)
        | inr e ↦ rw e (at_end (g _ (receive s v a) e))
      ])

  pub when_copied-Asked :
      (s : State) (status : ℕ) (r : Run)
      → (nt_success status ≡ true → Asked C P size r)
      → ((t : State) → nt_success t.status ≡ false → P size t)
      → Asked C P size (when_copied s status r)
  when_copied-Asked s status r f g = elim (Bool-cases (nt_success status)) [
    | inl e ↦ rw e (f e)
    | inr e ↦ rw e (at_end (g (record s { status = status }) e))
  ]

pub Asked-map :
    {C D : Copy → Type 0} {P R : ℕ → State → Type 0} (r : Run) (size : ℕ)
    → ((c : Copy) → C c → D c)
    → ((n : ℕ) (s : State) → P n s → R n s)
    → Asked C P size r
    → Asked D R size r
Asked-map (done s) size f g (at_end h) = at_end (g _ s h)
Asked-map (ask q w k) size f g (at_ask h) = at_ask (λ v a. Asked-map (k v a) _ f g (h v a))
Asked-map (copy c k) size f g (at_copy h j) = at_copy (f c h) (λ n. Asked-map (k n) _ f g (j n))
Asked-map (given k) size f g (at_given h) = at_given (λ n. Asked-map (k n) _ f g (h n))
