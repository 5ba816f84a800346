-- ===== src/Base/Chains.antt =====
-- A table of chains, each a singly linked list of addresses, beside the list of all that it holds.
-- The I/O queue chains contexts through DictNext, and the entry cache its items.
use winfuse.Base.{
  ℕ, ◌<◌, ◌≡◌, List, [], ◌∷◌, ◌++◌, arith, ◌==◌, if◌then◌else◌, length, get_or, set, replicate,
  count, erase, contains, get_or-set, get_or-replicate, count-push, count-erase, contains-count,
}

abbrev pub chain : List (List ℕ) → ℕ → List ℕ
chain bs i = get_or bs i []

-- Put an address at the head of chain `i`.
abbrev pub link : List (List ℕ) → ℕ → ℕ → List (List ℕ)
link bs i a = set bs i (a ∷ chain bs i)

-- Take an address out of chain `i`.
abbrev pub unlink : List (List ℕ) → ℕ → ℕ → List (List ℕ)
unlink bs i a = set bs i (erase a (chain bs i))

-- Every address of `l` stands in its home chain as often as in `l`, and in no other chain.
abbrev pub IsPlaced : (ℕ → ℕ) → List ℕ → List (List ℕ) → Type 0
IsPlaced home l bs = (x i : ℕ) → count x (chain bs i) ≡ (if i == home x then count x l else 0)

module _ (home : ℕ → ℕ) (l : List ℕ) (bs : List (List ℕ)) (placed : IsPlaced home l bs) where
  pub link-IsPlaced :
      (a : ℕ) → home a < length bs → IsPlaced home (l ++ a ∷ []) (link bs (home a) a)
  unfolding count
  link-IsPlaced a h x i =
      rw (get_or-set bs (home a) i (a ∷ chain bs (home a)) [] h, count-push)
        (ground (arith, placed x i, placed x (home a)))

  pub unlink-IsPlaced :
      (a : ℕ) → home a < length bs → IsPlaced home (erase a l) (unlink bs (home a) a)
  unlink-IsPlaced a h x i =
      rw (get_or-set bs (home a) i (erase a (chain bs (home a))) [] h, count-erase)
        (ground (arith, placed x i, placed x (home a), count-erase x a (chain bs (home a))))

  -- A walk along the home chain finds what the list holds.
  pub contains-chain : (a : ℕ) → contains a (chain bs (home a)) ≡ contains a l
  contains-chain a =
      ground (arith, placed a (home a), contains-count a (chain bs (home a)), contains-count a l)

pub replicate-IsPlaced : (home : ℕ → ℕ) (n : ℕ) → IsPlaced home [] (replicate n [])
unfolding count
replicate-IsPlaced home n x i = ground (arith, get_or-replicate {A = List ℕ} n i [])
