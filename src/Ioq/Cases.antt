-- ===== src/Ioq/Cases.antt =====
-- The branches of the functions of src/shared/km/ioq.c, one principle for each function.
use winfuse.Base.{
  ℕ, ◌≡◌, ◌≢◌, ◌⊎◌, ◌&&◌, not, inl, inr, refl, Bool, true, false, Option, none, some, List, [], ◌∷◌,
  ◌++◌, map, arith, ◌==◌, if◌then◌else◌, erase, contains, is_empty, Bool-cases, eq_of_==, ne_of_==,
}
use winfuse.Base.Chains.{chain, unlink}
use winfuse.Ioq.{
  Ioq, Effect, clear_request_length, delete_context, bucket_index, insert_processing,
  ioq_start_processing, ioq_end_processing, ioq_post_pending, ioq_post_pending_and_stop,
  ioq_next_pending,
}

abbrev pub refusal : ℕ → Bool → List Effect
refusal c b = (if b then clear_request_length c ∷ [] else []) ++ delete_context c ∷ []

module _ {ℓ} (q : Ioq) where
  pub start_cases :
      (P : Ioq × List Effect → Type ℓ) (c : ℕ) (b : Bool)
      → (q.last_context ≡ 0 → P (insert_processing q c, []))
      → (q.last_context ≢ 0
          → c ≡ q.last_context
          → P (insert_processing (record q { last_context = 1 }) c, []))
      → (q.last_context ≢ 0 → c ≢ q.last_context → P (q, refusal c b))
      → P (ioq_start_processing q c b)
  unfolding ioq_start_processing
  start_cases P c b running last other = elim (Bool-cases (q.last_context == 0)) [
    | inl e ↦ rw e (running (eq_of_== _ _ e))
    | inr n ↦ elim (Bool-cases (c == q.last_context)) [
      | inl e ↦ rw (n, e) (last (ne_of_== _ _ n) (eq_of_== _ _ e))
      | inr e ↦ rw (n, e) (other (ne_of_== _ _ n) (ne_of_== _ _ e))
    ]
  ]

  pub end_cases :
      (P : Ioq × Option ℕ → Type ℓ) (u : ℕ)
      → (contains u (chain q.process_buckets (bucket_index q u)) ≡ true
          → P (
            record q {
              process_buckets = unlink q.process_buckets (bucket_index q u) u;
              process_list = erase u q.process_list;
            },
            some u,
          ))
      → (contains u (chain q.process_buckets (bucket_index q u)) ≡ false → P (q, none))
      → P (ioq_end_processing q u)
  unfolding ioq_end_processing
  end_cases P u found missing =
      elim (Bool-cases (contains u (chain q.process_buckets (bucket_index q u)))) [
        | inl e ↦ rw e (found e)
        | inr e ↦ rw e (missing e)
      ]

  pub post_cases :
      (P : Ioq × List Effect → Type ℓ) (c : ℕ)
      → (q.last_context ≡ 0 → P (record q { pending_list = q.pending_list ++ c ∷ [] }, []))
      → (q.last_context ≢ 0 → P (q, delete_context c ∷ []))
      → P (ioq_post_pending q c)
  unfolding ioq_post_pending
  post_cases P c running stopped = elim (Bool-cases (q.last_context == 0)) [
    | inl e ↦ rw e (running (eq_of_== _ _ e))
    | inr n ↦ rw n (stopped (ne_of_== _ _ n))
  ]

  pub stop_cases :
      (P : Ioq × List Effect → Type ℓ) (c : ℕ)
      → (q.last_context ≡ 0
          → P (
            record q { pending_list = c ∷ []; last_context = c },
            map delete_context q.pending_list,
          ))
      → (q.last_context ≢ 0 → P (q, delete_context c ∷ []))
      → P (ioq_post_pending_and_stop q c)
  unfolding ioq_post_pending_and_stop
  stop_cases P c running stopped = elim (Bool-cases (q.last_context == 0)) [
    | inl e ↦ rw e (running (eq_of_== _ _ e))
    | inr n ↦ rw n (stopped (ne_of_== _ _ n))
  ]

  pub next_cases :
      (P : Ioq × Option ℕ → Type ℓ)
      → P (q, none)
      → ((q.last_context ≡ 0) ⊎ (q.process_list ≡ [])
          → (c : ℕ) (rest : List ℕ) → q.pending_list ≡ c ∷ rest
          → P (record q { pending_list = rest }, some c))
      → P (ioq_next_pending q)
  unfolding ioq_next_pending
  next_cases P idle ready =
      go (Bool-cases (not (q.last_context == 0) && not (is_empty q.process_list)))
    where
      pick :
          (q.last_context ≡ 0) ⊎ (q.process_list ≡ [])
          → (l : List ℕ) → q.pending_list ≡ l
          → P (elim l [ [] ↦ (q, none) | c ∷ rest ↦ (record q { pending_list = rest }, some c) ])
      pick h [] e = idle
      pick h (c ∷ rest) e = ready h c rest e

      go :
          (not (q.last_context == 0) && not (is_empty q.process_list) ≡ true)
            ⊎ (not (q.last_context == 0) && not (is_empty q.process_list) ≡ false)
          → P (ioq_next_pending q)
      go (inl e) = rw e idle
      go (inr e) = rw e (pick (ground arith) q.pending_list refl)
