-- ===== src/Path/Prefix.antt =====
-- What FusePosixPathPrefix splits off, and what it leaves.
use winfuse.Base.{
  ℕ, zero, suc, ◌+◌, ◌-◌, ◌^◌, ◌≤◌, ◌<◌, ◌≡◌, ◌≢◌, arith, eq_of_==, ne_of_==, Bool-cases, ◌==◌, inl,
  inr, refl, subst, ℕ_discrete, dec_lt, ltb, ◌&&◌, true, false,
}
use winfuse.Path.{
  Memory, PosixString, find_slash, skip_slashes, posix_path_prefix, posix_string, ushort,
}

-- Every address from `a` up to `b` has the property.
abbrev pub AllIn : (ℕ → Type 0) → ℕ → ℕ → Type 0
AllIn Q a b = (j : ℕ) → a ≤ j → j < b → Q j

abbrev pub IsSlash : Memory → ℕ → Type 0
IsSlash mem j = mem j ≡ b'/'

abbrev pub IsName : Memory → ℕ → Type 0
IsName mem j = mem j ≢ b'/'

-- `r` is where the first byte without the property stands, or the end.
pub record Stops (Q R : ℕ → Type 0) (p left r : ℕ) : Type 0 where
  pub from : p ≤ r
  pub upto : r ≤ p + left
  pub passed : AllIn Q p r
  pub stopped : r < p + left → R r

Stops-here : {Q R : ℕ → Type 0} (p left : ℕ) → (0 < left → R p) → Stops Q R p left p
Stops-here p left h = record {
  from = omega arith;
  upto = omega arith;
  passed = λ j a b. absurd (omega arith);
  stopped = λ k. h (omega arith);
}

Stops-next :
    {Q R : ℕ → Type 0} (p left : ℕ) {r : ℕ}
    → Q p
    → Stops Q R (p + 1) left r
    → Stops Q R p (suc left) r
Stops-next {Q} p left h s = record {
  from = omega (arith, s.from);
  upto = omega (arith, s.upto);
  passed =
      λ j a b. elim (ℕ_discrete p j) [ yes e ↦ subst Q e h | no n ↦ s.passed j (omega arith) b ];
  stopped = λ k. s.stopped (omega arith);
}

find_slash-Stops :
    (mem : Memory) (p left : ℕ) → Stops (IsName mem) (IsSlash mem) p left (find_slash mem p left)
unfolding find_slash
find_slash-Stops mem p zero = Stops-here p 0 (λ h. absurd (omega arith))
find_slash-Stops mem p (suc left) = elim (Bool-cases (mem p == b'/')) [
  | inl e ↦ rw e (Stops-here p (suc left) (λ _. eq_of_== _ _ e))
  | inr e ↦ rw e (Stops-next p left (ne_of_== _ _ e) (find_slash-Stops mem (p + 1) left))
]

pub skip_slashes-Stops :
    (mem : Memory) (p left : ℕ) → Stops (IsSlash mem) (IsName mem) p left (skip_slashes mem p left)
unfolding skip_slashes
skip_slashes-Stops mem p zero = Stops-here p 0 (λ h. absurd (omega arith))
skip_slashes-Stops mem p (suc left) = elim (Bool-cases (mem p == b'/')) [
  | inl e ↦ rw e (Stops-next p left (eq_of_== _ _ e) (skip_slashes-Stops mem (p + 1) left))
  | inr e ↦ rw e (Stops-here p (suc left) (λ _. ne_of_== _ _ e))
]

-- What the prefix and the rest are, in terms of the bytes of the path.
pub record Splits (mem : Memory) (path prefix remain : PosixString) : Type 0 where
  -- A path that begins with a slash has the prefix "/"; any other, the bytes before its first slash.
  pub rooted : 0 < path.length → IsSlash mem path.buffer → prefix.length ≡ 1
  pub named :
      (0 < path.length → IsName mem path.buffer)
      → AllIn (IsName mem) path.buffer (path.buffer + prefix.length)
  pub begins : prefix.buffer ≡ path.buffer
  pub separated :
      (0 < path.length → IsName mem path.buffer)
      → 0 < remain.length
      → prefix.buffer + prefix.length < remain.buffer
  -- Only slashes stand between the prefix and the rest, and the rest does not begin with one.
  pub ordered : prefix.buffer + prefix.length ≤ remain.buffer
  pub between : AllIn (IsSlash mem) (prefix.buffer + prefix.length) remain.buffer
  pub trimmed : 0 < remain.length → IsName mem remain.buffer
  pub ends : remain.buffer + remain.length ≡ path.buffer + path.length

rooted-Splits :
    (mem : Memory) (path : PosixString) (r : ℕ)
    → path.length < 2 ^ 16
    → 0 < path.length
    → IsSlash mem path.buffer
    → Stops (IsSlash mem) (IsName mem) path.buffer path.length r
    → Splits mem path
        (posix_string 1 path.buffer)
        (posix_string (ushort (path.buffer + path.length - r)) r)
rooted-Splits mem path r small some_byte slash s = record {
  rooted = λ _ _. refl;
  named = λ n. absurd (n some_byte slash);
  separated = λ n. absurd (n some_byte slash);
  begins = refl;
  ordered = past;
  between = λ j a b. s.passed j (omega arith) b;
  trimmed = λ h. s.stopped (omega arith);
  ends = omega (arith, s.upto);
}
  where
    past : path.buffer + 1 ≤ r
    past = elim (ℕ_discrete path.buffer r) [
      | yes e ↦ absurd (s.stopped (omega arith) (subst (IsSlash mem) e slash))
      | no n ↦ omega (arith, s.from)
    ]

relative-Splits :
    (mem : Memory) (path : PosixString) (p r : ℕ)
    → path.length < 2 ^ 16
    → (0 < path.length → IsName mem path.buffer)
    → Stops (IsName mem) (IsSlash mem) path.buffer path.length p
    → Stops (IsSlash mem) (IsName mem) p (path.buffer + path.length - p) r
    → Splits mem path
        (posix_string (ushort (p - path.buffer)) path.buffer)
        (posix_string (ushort (path.buffer + path.length - r)) r)
relative-Splits mem path p r small name f s = record {
  rooted = λ h slash. absurd (name h slash);
  named = λ _ j a b. f.passed j a (omega (arith, f.from, f.upto));
  separated = λ _ h. apart (omega arith);
  begins = refl;
  ordered = omega (arith, f.from, f.upto, s.from);
  between = λ j a b. s.passed j (omega (arith, f.from, f.upto)) b;
  trimmed = λ h. s.stopped (omega arith);
  ends = omega (arith, f.from, f.upto, s.upto);
}
  where
    apart : r < path.buffer + path.length → path.buffer + ushort (p - path.buffer) < r
    apart h = elim (ℕ_discrete p r) [
      | yes e ↦
          absurd
            (s.stopped (omega (arith, f.upto)) (subst (IsSlash mem) e (f.stopped (omega arith))))
      | no n ↦ omega (arith, f.from, f.upto, s.from)
    ]

rooted-test :
    (mem : Memory) (path : PosixString)
    → ltb path.buffer (path.buffer + path.length) && mem path.buffer == b'/' ≡ true
    → (0 < path.length) × IsSlash mem path.buffer
rooted-test mem path e = (ground arith, ground arith)

relative-test :
    (mem : Memory) (path : PosixString)
    → ltb path.buffer (path.buffer + path.length) && mem path.buffer == b'/' ≡ false
    → 0 < path.length
    → IsName mem path.buffer
relative-test mem path e h = ground arith

-- On a path of at most 65535 bytes, FusePosixPathPrefix returns "/" of a path that begins with a
-- slash, and the bytes before the first slash of any other; only slashes stand between the prefix
-- and the rest, the rest does not begin with one, and it ends where the path does.
pub posix_path_prefix-Splits :
    (mem : Memory) (path : PosixString)
    → path.length < 2 ^ 16
    → let r = posix_path_prefix mem path in Splits mem path r.0 r.1
unfolding posix_path_prefix
posix_path_prefix-Splits mem path small =
    elim (Bool-cases (ltb path.buffer (path.buffer + path.length) && mem path.buffer == b'/')) [
      | inl e ↦
          let (h, slash) = rooted-test mem path e in
          rw e (
            rooted-Splits mem path _ small h slash (
              let w : path.buffer + path.length - path.buffer ≡ path.length = omega arith in
              rw w (skip_slashes-Stops mem path.buffer path.length)))
      | inr e ↦ rw e (
          relative-Splits mem path _ _ small (relative-test mem path e)
            (find_slash-Stops mem path.buffer path.length) (skip_slashes-Stops mem _ _))
    ]

-- On a path of 1 to 65535 bytes, FusePosixPathPrefix leaves a rest that is shorter than the path, so
-- that a walk over a path ends.
pub posix_path_prefix_progress :
    (mem : Memory) (path : PosixString)
    → path.length < 2 ^ 16
    → 0 < path.length
    → (posix_path_prefix mem path).1.length < path.length
posix_path_prefix_progress mem path small h =
    let s = posix_path_prefix-Splits mem path small in
    elim (Bool-cases (mem path.buffer == b'/')) [
      | inl e ↦ omega (arith, s.rooted h (eq_of_== _ _ e), s.ordered, s.ends, s.begins)
      | inr e ↦ elim (dec_lt 0 (posix_path_prefix mem path).1.length) [
        | yes more ↦ omega (arith, s.separated (λ _. ne_of_== _ _ e) more, s.ends, s.begins)
        | no none_left ↦ omega arith
      ]
    ]
