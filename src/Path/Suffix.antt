-- ===== src/Path/Suffix.antt =====
-- What FusePosixPathSuffix splits off, and what it leaves.
use winfuse.Base.{
  ℕ, zero, suc, ◌+◌, ◌-◌, ◌^◌, ◌≤◌, ◌<◌, ◌≡◌, ◌⊎◌, arith, eq_of_==, ne_of_==, Bool-cases, ◌==◌, inl,
  inr, refl, subst, sym, ℕ_discrete, ltb, if◌then◌else◌,
}
use winfuse.Path.{
  Memory, PosixString, Scan, skip_slashes, suffix_loop, posix_path_suffix, posix_string, ushort,
}
use winfuse.Path.Prefix.{AllIn, IsSlash, IsName, Stops, skip_slashes-Stops}

-- The last run of slashes before `p` begins at `cut` and ends at `s.suffix_buffer`.
record Found (mem : Memory) (path : PosixString) (p cut : ℕ) (s : Scan) : Type 0 where
  from : path.buffer ≤ cut
  run : cut < s.suffix_buffer
  upto : s.suffix_buffer ≤ p
  slashes : AllIn (IsSlash mem) cut s.suffix_buffer
  names : AllIn (IsName mem) s.suffix_buffer p
  before : path.buffer < cut → IsName mem (cut - 1)
  beyond : s.suffix_buffer < path.buffer + path.length → IsName mem s.suffix_buffer
  remain : s.remain_length ≡ (if cut - path.buffer == 0 then 1 else cut - path.buffer)
  suffix : s.suffix_buffer + s.suffix_length ≡ path.buffer + path.length

-- No slash stands before `p`.
record Missing (mem : Memory) (path : PosixString) (p : ℕ) (s : Scan) : Type 0 where
  names : AllIn (IsName mem) path.buffer p
  remain : s.remain_length ≡ path.length
  suffix : s.suffix_length ≡ 0
  buffer : s.suffix_buffer ≡ path.buffer

abbrev Scanned : Memory → PosixString → ℕ → Scan → Type 0
Scanned mem path p s = ((cut : ℕ) × Found mem path p cut s) ⊎ Missing mem path p s

-- A run of slashes that begins with one is not empty.
past_slash :
    {mem : Memory} (p left q : ℕ)
    → p < p + left
    → IsSlash mem p
    → Stops (IsSlash mem) (IsName mem) p left q
    → p < q
past_slash {mem} p left q h slash s = elim (ℕ_discrete p q) [
  | yes e ↦ absurd (s.stopped (omega arith) (subst (IsSlash mem) e slash))
  | no n ↦ omega (arith, s.from)
]

module _ (mem : Memory) (path : PosixString) (small : path.length < 2 ^ 16) where
  AllIn-step : {Q : ℕ → Type 0} (a p : ℕ) → AllIn Q a p → Q p → AllIn Q a (p + 1)
  AllIn-step {Q} a p h q j from to = elim (ℕ_discrete p j) [
    | yes e ↦ subst Q e q
    | no n ↦ h j from (omega arith)
  ]

  onward-Scanned :
      (p : ℕ) (s : Scan)
      → p < path.buffer + path.length
      → IsName mem p
      → Scanned mem path p s
      → Scanned mem path (p + 1) s
  onward-Scanned p s h name (inl (cut, f)) = inl (
    cut,
    record {
      from = f.from;
      run = f.run;
      upto = omega (arith, f.upto);
      slashes = f.slashes;
      names = AllIn-step _ p f.names name;
      before = f.before;
      beyond = f.beyond;
      remain = f.remain;
      suffix = f.suffix;
    },
  )
  onward-Scanned p s h name (inr m) = inr (record {
    names = AllIn-step _ p m.names name;
    remain = m.remain;
    suffix = m.suffix;
    buffer = m.buffer;
  })

  -- The byte before a slash that a round meets is no slash.
  before_slash :
      (p : ℕ) (s : Scan)
      → p < path.buffer + path.length
      → IsSlash mem p
      → Scanned mem path p s
      → path.buffer < p
      → IsName mem (p - 1)
  before_slash p s h slash (inl (cut, f)) more =
      f.names (p - 1) (omega (arith, within)) (omega arith)
    where
      within : s.suffix_buffer < p
      within = elim (ℕ_discrete s.suffix_buffer p) [
        | yes e ↦ absurd (f.beyond (omega arith) (subst (IsSlash mem) (sym e) slash))
        | no n ↦ omega (arith, f.upto)
      ]
  before_slash p s h slash (inr m) more = m.names (p - 1) (omega arith) (omega arith)

  found-Scanned :
      (p q : ℕ)
      → path.buffer ≤ p
      → p < path.buffer + path.length
      → IsSlash mem p
      → (path.buffer < p → IsName mem (p - 1))
      → Stops (IsSlash mem) (IsName mem) p (path.buffer + path.length - p) q
      → Scanned mem path q (record {
        remain_length = if ushort (p - path.buffer) == 0 then 1 else ushort (p - path.buffer);
        suffix_length = ushort (path.buffer + path.length - q);
        suffix_buffer = q;
      })
  found-Scanned p q from h slash before s = inl (
    p,
    record {
      from = from;
      run = past_slash {mem = mem} p (path.buffer + path.length - p) q (omega arith) slash s;
      upto = omega arith;
      slashes = s.passed;
      names = λ j a b. absurd (omega arith);
      before = before;
      beyond = λ k. s.stopped (omega arith);
      remain = rw fits;
      suffix = omega (arith, s.upto);
    },
  )
    where
      fits : ushort (p - path.buffer) ≡ p - path.buffer
      fits = omega arith

  suffix_loop-Scanned :
      (fuel p : ℕ) (s : Scan)
      → path.buffer ≤ p
      → p ≤ path.buffer + path.length
      → path.buffer + path.length ≤ p + fuel
      → Scanned mem path p s
      → Scanned mem path (path.buffer + path.length) (suffix_loop mem path fuel p s)
  unfolding suffix_loop
  suffix_loop-Scanned zero p s from upto fuel h = subst (λ e. Scanned mem path e s) (omega arith) h
  suffix_loop-Scanned (suc n) p s from upto fuel h =
      elim (Bool-cases (ltb p (path.buffer + path.length))) [
        | inr e ↦
            let last : p ≡ path.buffer + path.length = ground arith in
            rw e (subst (λ t. Scanned mem path t s) last h)
        | inl e ↦
            let more : p < path.buffer + path.length = ground arith in
            let q = skip_slashes mem p (path.buffer + path.length - p) in
            let stops = skip_slashes-Stops mem p (path.buffer + path.length - p) in
            elim (Bool-cases (mem p == b'/')) [
              | inl slash ↦
                  let sl = eq_of_== _ _ slash in
                  let new = found-Scanned p q from more sl (before_slash p s more sl h) stops in
                  rw (e, slash)
                    (suffix_loop-Scanned n q _ (omega (arith, stops.from))
                      (omega (arith, stops.upto))
                      (omega (
                        arith,
                        past_slash {mem = mem} p (path.buffer + path.length - p) q (omega arith) sl
                            stops,
                      ))
                      new)
              | inr name ↦
                  rw (e, name)
                    (suffix_loop-Scanned n (p + 1) s (omega arith) (omega arith) (omega arith)
                      (onward-Scanned p s more (ne_of_== _ _ name) h))
            ]
      ]

-- What FusePosixPathSuffix returns: either the path has no slash, and then the whole of it is the
-- rest and the suffix is empty; or `cut` is where its last run of slashes begins.
pub data Parts (mem : Memory) (path remain suffix : PosixString) : Type 0 where
  whole :
      AllIn (IsName mem) path.buffer (path.buffer + path.length)
      → remain.length ≡ path.length
      → suffix.length ≡ 0
      → Parts mem path remain suffix
  cut_at :
      (cut : ℕ)
      → path.buffer ≤ cut
      → cut < suffix.buffer
      → (path.buffer < cut → IsName mem (cut - 1))
      → AllIn (IsSlash mem) cut suffix.buffer
      → AllIn (IsName mem) suffix.buffer (suffix.buffer + suffix.length)
      → suffix.buffer + suffix.length ≡ path.buffer + path.length
      → remain.length ≡ (if cut - path.buffer == 0 then 1 else cut - path.buffer)
      → Parts mem path remain suffix

Scanned-Parts :
    (mem : Memory) (path : PosixString) (s : Scan)
    → Scanned mem path (path.buffer + path.length) s
    → Parts mem path
        (posix_string s.remain_length path.buffer)
        (posix_string s.suffix_length s.suffix_buffer)
Scanned-Parts mem path s (inr m) = whole m.names m.remain m.suffix
Scanned-Parts mem path s (inl (cut, f)) =
    cut_at cut f.from f.run f.before f.slashes (rw f.suffix f.names) f.suffix f.remain

-- On a path of at most 65535 bytes, FusePosixPathSuffix cuts at the last run of slashes: the suffix is
-- what follows it, without a slash, and the rest what precedes it, or "/" where nothing does; a path
-- without a slash is the rest as a whole, and the suffix is empty. The rest begins where the path
-- does.
pub posix_path_suffix-Parts :
    (mem : Memory) (path : PosixString)
    → path.length < 2 ^ 16
    → let r = posix_path_suffix mem path in Parts mem path r.0 r.1 × (r.0.buffer ≡ path.buffer)
unfolding posix_path_suffix
posix_path_suffix-Parts mem path small = (
  Scanned-Parts mem path _ (
      suffix_loop-Scanned mem path small path.length path.buffer _ (omega arith) (omega arith)
        (omega arith)
        (inr (record {
          names = λ j a b. absurd (omega arith);
          remain = refl;
          suffix = refl;
          buffer = refl;
        }))),
  refl,
)
