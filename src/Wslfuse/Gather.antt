-- ===== src/Wslfuse/Gather.antt =====
-- What FileWriteVector of src/wslfuse/device.c copies.
use winfuse.Base.{
  ℕ, zero, suc, ◌-◌, ◌%◌, ◌^◌, ◌<◌, ◌≤◌, ◌≡◌, ◌∙◌, sym, refl, ap, inl, inr, arith, List, [], ◌∷◌,
  ◌++◌, ltb, if◌then◌else◌, length, length-append, Bool-cases,
}
use mathlib.Core.List.{append-nil}
use winfuse.Wslfuse.Io.{take, flatten, input_length, gather, response_buffer}

take_all : (n : ℕ) (xs : List ℕ) → length xs ≤ n → take n xs ≡ xs
take_all zero [] h = refl
take_all zero (x ∷ xs) h = absurd (omega (arith, h))
take_all (suc n) [] h = refl
take_all (suc n) (x ∷ xs) h = ap (λ r. x ∷ r) (take_all n xs (omega (arith, h)))

take-append :
    (n : ℕ) (xs ys : List ℕ) → length xs ≤ n → take n (xs ++ ys) ≡ xs ++ take (n - length xs) ys
take-append zero [] ys h = refl
take-append zero (x ∷ xs) ys h = absurd (omega (arith, h))
take-append (suc n) [] ys h = let same : suc n ≡ suc n - 0 = omega arith in ap (λ k. take k ys) same
take-append (suc n) (x ∷ xs) ys h =
    let less : suc n - suc (length xs) ≡ n - length xs = omega arith in
    rw less (ap (λ r. x ∷ r) (take-append n xs ys (omega (arith, h))))

take-append_short : (n : ℕ) (xs ys : List ℕ) → n ≤ length xs → take n (xs ++ ys) ≡ take n xs
take-append_short zero xs ys h = refl
take-append_short (suc n) [] ys h = absurd (omega (arith, h))
take-append_short (suc n) (x ∷ xs) ys h =
    ap (λ r. x ∷ r) (take-append_short n xs ys (omega (arith, h)))

take_zero : (xs : List ℕ) → take 0 xs ≡ []
take_zero [] = refl
take_zero (x ∷ xs) = refl

length-take : (n : ℕ) (xs : List ℕ) → length (take n xs) ≤ n
length-take zero xs = omega arith
length-take (suc n) [] = omega arith
length-take (suc n) (x ∷ xs) = omega (arith, length-take n xs)

gather_zero : (vs : List (List ℕ)) → gather 0 vs ≡ []
unfolding gather
gather_zero [] = refl
gather_zero (v ∷ vs) = refl

-- The copy does not leave the buffer.
length-gather : (room : ℕ) (vs : List (List ℕ)) → length (gather room vs) ≤ room
unfolding gather
length-gather room [] = omega arith
length-gather zero (v ∷ vs) = omega arith
length-gather (suc n) (v ∷ vs) =
    let l = (if ltb (length v % 2 ^ 32) (suc n) then length v % 2 ^ 32 else suc n) in
    let fits : l ≤ suc n = ground arith in
    omega (
      arith,
      length-append (take l v) (gather (suc n - l) vs),
      length-take l v,
      length-gather (suc n - l) vs,
      fits,
    )

-- Where the lengths do not overflow, it copies the first bytes of the vectors.
gather-eq :
    (room : ℕ) (vs : List (List ℕ))
    → length (flatten vs) < 2 ^ 32
    → gather room vs ≡ take room (flatten vs)
unfolding gather
gather-eq zero [] h = refl
gather-eq (suc n) [] h = refl
gather-eq zero (v ∷ vs) h = sym (take_zero (v ++ flatten vs))
gather-eq (suc n) (v ∷ vs) h =
    let sum = length-append v (flatten vs) in
    let whole : length v % 2 ^ 32 ≡ length v = omega (arith, sum, h) in
    elim (Bool-cases (ltb (length v) (suc n))) [
      | inl e ↦
          rw (whole, e)
            (ap (λ r. r ++ gather (suc n - length v) vs) (take_all (length v) v (omega arith))
              ∙ ap (λ r. v ++ r) (gather-eq (suc n - length v) vs (omega (arith, sum, h)))
              ∙ sym (take-append (suc n) v (flatten vs) (ground (arith, e))))
      | inr e ↦
          let full : suc n - suc n ≡ 0 = omega arith in
          rw (whole, e)
            (ap (λ r. take (suc n) v ++ r) (ap (λ k. gather k vs) full ∙ gather_zero vs)
              ∙ append-nil (take (suc n) v)
              ∙ sym (take-append_short (suc n) v (flatten vs) (ground (arith, e))))
    ]

input_length-flatten :
    (vs : List (List ℕ)) → length (flatten vs) < 2 ^ 32 → input_length vs ≡ length (flatten vs)
unfolding input_length
input_length-flatten [] h = refl
input_length-flatten (v ∷ vs) h =
    let sum = length-append v (flatten vs) in
    omega (arith, sum, h, input_length-flatten vs (omega (arith, sum, h)))

take-take : (n k : ℕ) (xs : List ℕ) → n ≤ k → take n (take k xs) ≡ take n xs
take-take zero k xs h = take_zero (take k xs) ∙ sym (take_zero xs)
take-take (suc n) zero xs h = absurd (omega (arith, h))
take-take (suc n) (suc k) [] h = refl
take-take (suc n) (suc k) (x ∷ xs) h = ap (λ r. x ∷ r) (take-take n k xs (omega (arith, h)))

-- Where the vectors have fewer than 2^32 bytes, FileWriteVector passes on their number and, at the start
-- of a buffer, all of them one after the other, if they do not change meanwhile; and whatever they
-- change to, it does not copy beyond the end of the buffer.
pub response_buffer-Gathers :
    (rsp_size : ℕ) (vs us : List (List ℕ))
    → length (flatten vs) < 2 ^ 32
    → (input_length vs ≡ length (flatten vs))
      × (take (input_length vs) (response_buffer rsp_size vs vs) ≡ flatten vs)
      × (length (response_buffer rsp_size vs us)
          ≤ (if ltb rsp_size (input_length vs) then input_length vs else rsp_size))
unfolding response_buffer
response_buffer-Gathers rsp_size vs us h =
    let n : input_length vs ≡ length (flatten vs) = input_length-flatten vs h in
    elim (Bool-cases (ltb rsp_size (input_length vs))) [
      | inl e ↦ rw e (
        n,
        ap (take (input_length vs)) (gather-eq (input_length vs) vs h)
            ∙ take-take (input_length vs) (input_length vs) (flatten vs) (omega arith)
            ∙ take_all (input_length vs) (flatten vs) (omega (arith, n)),
        length-gather (input_length vs) us,
      )
      | inr e ↦ rw e (
        n,
        ap (take (input_length vs)) (gather-eq rsp_size vs h)
            ∙ take-take (input_length vs) rsp_size (flatten vs) (ground (arith, e))
            ∙ take_all (input_length vs) (flatten vs) (omega (arith, n)),
        length-gather rsp_size vs,
      )
    ]
