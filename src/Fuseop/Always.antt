-- ===== src/Fuseop/Always.antt =====
-- What holds of an operation of src/shared/km/fuseop.c whatever user mode answers, whatever other
-- requests do meanwhile, and whatever the system returns.
use winfuse.Base.{ℕ, ◌≡◌, true, false, inl, inr, Bool-cases}
use winfuse.Proto.Send.{Request, Response}
use winfuse.Status.{nt_success}
use winfuse.Fuseop.{
  State, World, Copy, Run, done, ask, copy, given, resume, on_success, ◌>>=◌, send, receive,
}

-- The copies have the property `C`, and the states at the end have `P`.
pub data Always (C : Copy → Type 0) (P : State → Type 0) : Run → Type 0 where
  at_end : {s : State} → P s → Always C P (done s)
  at_ask :
      {r : Request} {w : World} {f : World → Response → Run}
      → ((v : World) (a : Response) → Always C P (f v a))
      → Always C P (ask r w f)
  at_copy : {c : Copy} {f : ℕ → Run} → C c → ((n : ℕ) → Always C P (f n)) → Always C P (copy c f)
  at_given : {f : ℕ → Run} → ((n : ℕ) → Always C P (f n)) → Always C P (given f)

abbrev pub IsAny : Copy → Type 0
IsAny c = Unit

pub Always-on_success :
    {C : Copy → Type 0} {R : State → Type 0} (s : State) (k : State → Run)
    → (nt_success s.status ≡ true → Always C R (k s))
    → (nt_success s.status ≡ false → R s)
    → Always C R (on_success k s)
Always-on_success s k f g = elim (Bool-cases (nt_success s.status)) [
  | inl e ↦ rw e (f e)
  | inr e ↦ rw e (at_end (g e))
]

module _ {C : Copy → Type 0} {P R : State → Type 0} where
  pub Always-resume :
      (r : Run) (k : State → Run)
      → Always C P r
      → ((s : State) → P s → Always C R (k s))
      → Always C R (resume r k)
  Always-resume (done s) k (at_end h) f = f s h
  Always-resume (ask r w g) k (at_ask h) f = at_ask (λ v a. Always-resume (g v a) k (h v a) f)
  Always-resume (copy c g) k (at_copy h j) f = at_copy h (λ n. Always-resume (g n) k (j n) f)
  Always-resume (given g) k (at_given h) f = at_given (λ n. Always-resume (g n) k (h n) f)

  -- Where a failure ends a chain.
  pub Always-bind :
      (r : Run) (k : State → Run)
      → Always C P r
      → ((s : State) → P s → nt_success s.status ≡ true → Always C R (k s))
      → ((s : State) → P s → nt_success s.status ≡ false → R s)
      → Always C R (r >>= k)
  Always-bind r k h f g =
      Always-resume r (on_success k) h (λ s p. Always-on_success s k (f s p) (g s p))

-- A request is sent, and its response received.
pub Always-send :
    {C : Copy → Type 0} {P : State → Type 0} (request : State → Request) (s : State)
    → ((v : World) (a : Response) → P (receive s v a))
    → Always C P (send request s)
unfolding send receive
Always-send request s h = at_ask (λ v a. at_end (h v a))

pub Always-map :
    {C D : Copy → Type 0} {P R : State → Type 0} (r : Run)
    → ((c : Copy) → C c → D c)
    → ((s : State) → P s → R s)
    → Always C P r
    → Always D R r
Always-map (done s) f g (at_end h) = at_end (g s h)
Always-map (ask q w k) f g (at_ask h) = at_ask (λ v a. Always-map (k v a) f g (h v a))
Always-map (copy c k) f g (at_copy h j) = at_copy (f c h) (λ n. Always-map (k n) f g (j n))
Always-map (given k) f g (at_given h) = at_given (λ n. Always-map (k n) f g (h n))
