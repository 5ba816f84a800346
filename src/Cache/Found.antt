-- ===== src/Cache/Found.antt =====
-- What the lookup of src/shared/km/cache.c finds: an item of the list with the key, if there is one.
use mathlib.Core.Option.{some-injective}
use winfuse.Base.{
  ℕ, ◌<◌, ◌≡◌, inl, inr, subst, true, false, none, some, List, [], ◌∷◌, arith, count, Bool-cases,
  contains, contains-count,
}
use winfuse.Base.Chains.{chain}
use winfuse.Cache.{Cache, Rtl}
use winfuse.Cache.Items.{
  hash_index, matches, lookup_chain, lookup_hashed_item, expire_item, drop_item,
}
use winfuse.Cache.Valid.{IsValid, home, contains-home}

module _ (rtl : Rtl) where
  lookup_chain-some :
      (c : Cache) (hash parent_ino : ℕ) (name : List ℕ) (xs : List ℕ) (x : ℕ)
      → lookup_chain rtl c hash parent_ino name xs ≡ some x
      → (0 < count x xs) × (matches rtl c hash parent_ino name x ≡ true)
  unfolding lookup_chain count
  lookup_chain-some c hash parent_ino name [] x e = cc
  lookup_chain-some c hash parent_ino name (y ∷ xs) x e =
      elim (Bool-cases (matches rtl c hash parent_ino name y)) [
        | inl m ↦
            let same : y ≡ x = found_here m in
            (ground arith, subst (λ z. matches rtl c hash parent_ino name z ≡ true) same m)
        | inr m ↦
            let (a, b) = lookup_chain-some c hash parent_ino name xs x (found_later m) in
            (omega arith, b)
      ]
    where
      found_here : matches rtl c hash parent_ino name y ≡ true → y ≡ x
      found_here m = some-injective _ _ (rw m at e)

      found_later :
          matches rtl c hash parent_ino name y ≡ false
          → lookup_chain rtl c hash parent_ino name xs ≡ some x
      found_later m = rw m at e

  pub lookup_chain-none :
      (c : Cache) (hash parent_ino : ℕ) (name : List ℕ) (xs : List ℕ) (x : ℕ)
      → lookup_chain rtl c hash parent_ino name xs ≡ none
      → 0 < count x xs
      → matches rtl c hash parent_ino name x ≡ false
  unfolding lookup_chain count
  lookup_chain-none c hash parent_ino name [] x e h = absurd (omega arith)
  lookup_chain-none c hash parent_ino name (y ∷ xs) x e h =
      ground (arith, lookup_chain-none c hash parent_ino name xs x)

  pub matches-key :
      (c : Cache) (hash parent_ino : ℕ) (name : List ℕ) (x : ℕ)
      → matches rtl c hash parent_ino name x ≡ true
      → ((c.items x).hash ≡ hash)
        × ((c.items x).parent_ino ≡ parent_ino)
        × (rtl.equal_string (c.items x).name name c.case_insensitive ≡ true)
  unfolding matches
  matches-key c hash parent_ino name x m = (ground arith, ground arith, ground arith)

  -- What is found stands in the list, and has the key.
  pub lookup-some :
      {refs : ℕ → ℕ} (c : Cache) (hash parent_ino : ℕ) (name : List ℕ) (x : ℕ)
      → IsValid refs c
      → lookup_hashed_item rtl c hash parent_ino name ≡ some x
      → (0 < count x c.item_list) × (matches rtl c hash parent_ino name x ≡ true)
  unfolding lookup_hashed_item home
  lookup-some c hash parent_ino name x v e =
      let (present, m) = lookup_chain-some c hash parent_ino name _ x e in
      let same = (matches-key c hash parent_ino name x m).0 in
      (ground (arith, v.placed x (hash_index c hash), same, present), m)

  -- Where nothing is found, no item of the list has the key.
  pub lookup-none :
      {refs : ℕ → ℕ} (c : Cache) (hash parent_ino : ℕ) (name : List ℕ) (x : ℕ)
      → IsValid refs c
      → lookup_hashed_item rtl c hash parent_ino name ≡ none
      → 0 < count x c.item_list
      → matches rtl c hash parent_ino name x ≡ false
  unfolding lookup_hashed_item home
  lookup-none c hash parent_ino name x v e h =
      elim (Bool-cases (matches rtl c hash parent_ino name x)) [
        | inr m ↦ m
        | inl m ↦
            let same = (matches-key c hash parent_ino name x m).0 in
            lookup_chain-none c hash parent_ino name _ x e
              (ground (arith, v.placed x (hash_index c hash), same))
      ]

-- An item of the list is dropped.
pub expire-listed :
    {refs : ℕ → ℕ} (c : Cache) (x : ℕ)
    → IsValid refs c
    → 0 < count x c.item_list
    → expire_item c x ≡ (drop_item c x, true)
unfolding expire_item home
expire-listed c x v h =
    let t : contains x (chain c.item_buckets (hash_index c (c.items x).hash)) ≡ true =
      ground (arith, contains-home c x v, contains-count x c.item_list) in
    rw t

-- An item that is not in the list is left alone.
pub expire-unlisted :
    {refs : ℕ → ℕ} (c : Cache) (x : ℕ)
    → IsValid refs c
    → count x c.item_list ≡ 0
    → expire_item c x ≡ (c, false)
unfolding expire_item home
expire-unlisted c x v h =
    let t : contains x (chain c.item_buckets (hash_index c (c.items x).hash)) ≡ false =
      ground (arith, contains-home c x v, contains-count x c.item_list) in
    rw t
