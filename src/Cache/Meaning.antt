-- ===== src/Cache/Meaning.antt =====
-- FuseCacheSetEntry and FuseCacheGetEntry of src/shared/km/cache.c: an entry that is set is the one
-- that is got until its time.
use mathlib.Core.Option.{some-injective}
use winfuse.Base.{
  ℕ, ◌%◌, ◌^◌, ◌<◌, ◌≡◌, ◌∙◌, inl, inr, ap, subst, sym, refl, Bool, true, false, some, List, [],
  ◌∷◌, arith, ◌==◌, length, Bool-cases, ==_refl, get_or-set,
}
use winfuse.Base.Chains.{chain}
use winfuse.Cache.{Cache, Entry, Rtl}
use winfuse.Cache.Cases.{get_cases, update_cases, insert_cases, set_cases, is_same, renewed}
use winfuse.Cache.Entries.{get_entry, insert_entry, set_entry, new_item, make_room, expiration_of}
use winfuse.Cache.Found.{matches-key}
use winfuse.Cache.Hash.{cache_hash}
use winfuse.Cache.Items.{
  hash_index, matches, lookup_chain, lookup_hashed_item, touch_item, write_item, add_item,
  update_hashed_item,
}
use winfuse.Cache.Keep.{Keeps, update-Keeps, make_room-Keeps, IsFresh-Keeps}
use winfuse.Cache.Store.{make_room-other, Keeps-trans, expiration_of-lt}
use winfuse.Cache.Valid.{IsValid, IsFresh, write_fresh-IsValid}

module _ (rtl : Rtl) where
  -- A name is its own equal.
  equal_string_refl : (name : List ℕ) (ci : Bool) → rtl.equal_string name name ci ≡ true
  equal_string_refl name false = (rtl.equal_exact name name).1 refl
  equal_string_refl name true = (rtl.equal_upper name name).1 refl

  -- Where the keys of the items are the same, a chain is searched with the same result.
  lookup_chain_congr :
      (c d : Cache) (hash parent_ino : ℕ) (name : List ℕ) (xs : List ℕ)
      → ((y : ℕ) → matches rtl d hash parent_ino name y ≡ matches rtl c hash parent_ino name y)
      → lookup_chain rtl d hash parent_ino name xs ≡ lookup_chain rtl c hash parent_ino name xs
  unfolding lookup_chain
  lookup_chain_congr c d hash parent_ino name [] e = refl
  lookup_chain_congr c d hash parent_ino name (y ∷ xs) e =
      rw (e y, lookup_chain_congr c d hash parent_ino name xs e) refl

  matches-touch :
      (c : Cache) (x y : ℕ) (hash parent_ino : ℕ) (name : List ℕ) (expiration_time now : ℕ)
      (entry : Entry)
      → matches rtl
          (touch_item rtl c x (renewed (c.items x) expiration_time now entry))
          hash
          parent_ino
          name
          y
        ≡ matches rtl c hash parent_ino name y
  unfolding touch_item matches
  matches-touch c x y hash parent_ino name expiration_time now entry = elim (Bool-cases (x == y)) [
    | inl e ↦ let same : x ≡ y = ground arith in rw same (rw ==_refl refl)
    | inr e ↦ rw e refl
  ]

  -- An item that is used again is found as before.
  lookup-touch :
      (c : Cache) (x : ℕ) (hash parent_ino : ℕ) (name : List ℕ) (expiration_time now : ℕ)
      (entry : Entry)
      → lookup_hashed_item rtl
          (touch_item rtl c x (renewed (c.items x) expiration_time now entry))
          hash
          parent_ino
          name
        ≡ lookup_hashed_item rtl c hash parent_ino name
  unfolding lookup_hashed_item touch_item hash_index
  lookup-touch c x hash parent_ino name expiration_time now entry =
      lookup_chain_congr c (touch_item rtl c x (renewed (c.items x) expiration_time now entry)) hash
        parent_ino name (chain c.item_buckets (hash_index c hash))
        (λ y. matches-touch c x y hash parent_ino name expiration_time now entry)

  -- An item that has been added is the first of its chain, and is found.
  lookup-add :
      {refs : ℕ → ℕ} (c : Cache) (x : ℕ) (hash parent_ino : ℕ) (name : List ℕ)
      → IsValid refs c
      → matches rtl c hash parent_ino name x ≡ true
      → lookup_hashed_item rtl (add_item c x) hash parent_ino name ≡ some x
  unfolding lookup_hashed_item add_item hash_index lookup_chain matches
  lookup-add c x hash parent_ino name v m =
      let same = (matches-key rtl c hash parent_ino name x m).0 in
      let lt : hash % c.item_bucket_count < length c.item_buckets =
        omega (arith, v.width, v.some_bucket) in
      let m2 : matches rtl (add_item c x) hash parent_ino name x ≡ true = m in
      rw same (
        rw
          (get_or-set c.item_buckets (hash % c.item_bucket_count) (hash % c.item_bucket_count)
            (x ∷ chain c.item_buckets (hash % c.item_bucket_count)) [] lt)
          (rw (==_refl, m2) refl))

-- What FuseCacheSetEntry leaves: the item `x` is found under the key, with the entry and its time.
record Answers (rtl : Rtl) (ci : Bool) (c : Cache) (x hash parent_ino : ℕ) (name : List ℕ)
    (expiration_time : ℕ) (entry : Entry) : Type 0 where
  same_case : c.case_insensitive ≡ ci
  found : lookup_hashed_item rtl c hash parent_ino name ≡ some x
  time : (c.items x).expiration_time ≡ expiration_time
  content : (c.items x).entry ≡ entry
  quiet : (c.items x).quick_expiry ≡ 0

module _ (rtl : Rtl) where
  touch-Answers :
      (c : Cache) (x hash parent_ino : ℕ) (name : List ℕ) (expiration_time now : ℕ) (entry : Entry)
      → lookup_hashed_item rtl c hash parent_ino name ≡ some x
      → is_same c entry x ≡ true
      → Answers rtl c.case_insensitive
          (touch_item rtl c x (renewed (c.items x) expiration_time now entry))
          x
          hash
          parent_ino
          name
          expiration_time
          entry
  unfolding touch_item
  touch-Answers c x hash parent_ino name expiration_time now entry e same = record {
    same_case = refl;
    found = lookup-touch rtl c x hash parent_ino name expiration_time now entry ∙ e;
    time = rw ==_refl refl;
    content = rw ==_refl refl;
    quiet = rw ==_refl (ground arith);
  }

  update-Answers :
      (c : Cache) (x hash parent_ino : ℕ) (name : List ℕ) (expiration_time now : ℕ) (entry : Entry)
      → let u = update_hashed_item rtl c hash parent_ino name expiration_time now entry in
        u.1 ≡ some x
        → Answers rtl c.case_insensitive u.0 x hash parent_ino name expiration_time entry
  update-Answers c x hash parent_ino name expiration_time now entry =
      update_cases rtl c
        (λ r.
          r.1 ≡ some x
          → Answers rtl c.case_insensitive r.0 x hash parent_ino name expiration_time entry)
        hash parent_ino name expiration_time now entry (λ _ e. absurd (cc))
        (λ y e same e'.
          subst
            (λ z.
              Answers rtl c.case_insensitive
                (touch_item rtl c y (renewed (c.items y) expiration_time now entry)) z hash
                parent_ino name expiration_time entry)
            (some-injective _ _ e')
            (touch-Answers c y hash parent_ino name expiration_time now entry e same))
        (λ y _ _ e. absurd (cc))

  matches_own :
      (c : Cache) (x hash parent_ino : ℕ) (name : List ℕ) (expiration_time now : ℕ) (entry : Entry)
      → c.items x ≡ new_item hash parent_ino name expiration_time now entry
      → matches rtl c hash parent_ino name x ≡ true
  unfolding matches new_item
  matches_own c x hash parent_ino name expiration_time now entry e =
      rw (e, ==_refl hash, ==_refl parent_ino, equal_string_refl rtl name c.case_insensitive) refl

  add-Answers :
      {refs : ℕ → ℕ} (c : Cache) (x hash parent_ino : ℕ) (name : List ℕ) (expiration_time now : ℕ)
      (entry : Entry)
      → IsValid refs c
      → c.items x ≡ new_item hash parent_ino name expiration_time now entry
      → Answers rtl c.case_insensitive (add_item c x) x hash parent_ino name expiration_time entry
  unfolding add_item new_item
  add-Answers c x hash parent_ino name expiration_time now entry v e = record {
    same_case = refl;
    found =
        lookup-add rtl c x hash parent_ino name v
          (matches_own c x hash parent_ino name expiration_time now entry e);
    time = ap (λ i. i.expiration_time) e;
    content = ap (λ i. i.entry) e;
    quiet = ap (λ i. i.quick_expiry) e;
  }

  fill-Answers :
      {refs : ℕ → ℕ} (c d : Cache) (x hash parent_ino : ℕ) (name : List ℕ) (expiration_time now : ℕ)
      (entry : Entry)
      → Keeps refs c d
      → IsFresh refs c x
      → 0 < c.capacity
      → Answers rtl c.case_insensitive
          (add_item
            (make_room (write_item d x (new_item hash parent_ino name expiration_time now entry)))
            x)
          x
          hash
          parent_ino
          name
          expiration_time
          entry
  fill-Answers {refs} c d x hash parent_ino name expiration_time now entry k f pos =
      let item = new_item hash parent_ino name expiration_time now entry in
      let w = write_item d x item in
      let f' = IsFresh-Keeps c d x k f in
      let v = write_fresh-IsValid d x item k.valid f' in
      let (m, room) = make_room-Keeps w v (omega (arith, k.capacity)) in
      let written : w.items x ≡ item = rw ==_refl refl in
      subst
        (λ ci.
          Answers rtl ci (add_item (make_room w) x) x hash parent_ino name expiration_time entry)
        (m.same_case ∙ k.same_case)
        (add-Answers (make_room w) x hash parent_ino name expiration_time now entry m.valid
          (make_room-other w x v f'.uncached ∙ written))

  insert-Answers :
      {refs : ℕ → ℕ} (b c : Cache) (hash parent_ino : ℕ) (name : List ℕ) (expiration_time now : ℕ)
      (entry : Entry) (new : ℕ)
      → Keeps refs b c
      → IsFresh refs b new
      → 0 < b.capacity
      → expiration_time < 2 ^ 64
      → let r = insert_entry rtl c hash parent_ino name expiration_time now entry new in
        Answers rtl b.case_insensitive r.0 r.1 hash parent_ino name expiration_time entry
  insert-Answers b c hash parent_ino name expiration_time now entry new k f pos fits =
      insert_cases rtl c
        (λ r. Answers rtl b.case_insensitive r.0 r.1 hash parent_ino name expiration_time entry)
        hash parent_ino name expiration_time now entry new
        (λ x e.
          subst
            (λ ci.
              Answers rtl ci
                (update_hashed_item rtl c hash parent_ino name expiration_time now entry).0 x hash
                parent_ino name expiration_time entry)
            k.same_case (update-Answers c x hash parent_ino name expiration_time now entry e))
        (λ _.
          fill-Answers b _ new hash parent_ino name expiration_time now entry
            (Keeps-trans b c _ k
              (update-Keeps rtl c hash parent_ino name expiration_time now entry k.valid fits))
            f pos)

  set-Answers :
      {refs : ℕ → ℕ} (c : Cache) (now parent_ino : ℕ) (name : List ℕ) (entry : Entry) (new : ℕ)
      → IsValid refs c
      → IsFresh refs c new
      → 0 < c.capacity
      → let r = set_entry rtl c now parent_ino name entry new in
        Answers rtl c.case_insensitive r.0 r.1
          (cache_hash rtl parent_ino (some name) c.case_insensitive)
          parent_ino
          name
          (expiration_of now entry)
          entry
  set-Answers c now parent_ino name entry new v f pos =
      let hash = cache_hash rtl parent_ino (some name) c.case_insensitive in
      set_cases rtl c
        (λ r.
          Answers rtl c.case_insensitive r.0 r.1 hash parent_ino name (expiration_of now entry)
            entry)
        now parent_ino name entry new
        (λ x e. update-Answers c x hash parent_ino name (expiration_of now entry) now entry e)
        (λ _.
          insert-Answers c _ hash parent_ino name (expiration_of now entry) now entry new
            (update-Keeps rtl c hash parent_ino name (expiration_of now entry) now entry v
              (expiration_of-lt now entry))
            f pos (expiration_of-lt now entry))

  hit_get :
      (c : Cache) (x now parent_ino : ℕ) (name : List ℕ) (expiration_time : ℕ) (entry : Entry)
      (ci : Bool)
      → Answers rtl ci c x
          (cache_hash rtl parent_ino (some name) ci)
          parent_ino
          name
          expiration_time
          entry
      → now < expiration_time
      → (get_entry rtl c now parent_ino name).1 ≡ some (entry, x)
  hit_get c x now parent_ino name expiration_time entry ci a early =
      let found : lookup_hashed_item rtl c
            (cache_hash rtl parent_ino (some name) c.case_insensitive) parent_ino name
          ≡ some x =
        subst
          (λ z.
            lookup_hashed_item rtl c (cache_hash rtl parent_ino (some name) z) parent_ino name
            ≡ some x)
          (sym a.same_case) a.found in
      get_cases rtl c (λ r. r.1 ≡ some (entry, x)) now parent_ino name (λ e. absurd (cc))
        (λ y e fresh.
          let same : y ≡ x = some-injective _ _ (sym e ∙ found) in rw (same, a.content) refl)
        (λ y e stale.
          let same : y ≡ x = some-injective _ _ (sym e ∙ found) in
          absurd (ground (arith, same, early, a.time, a.quiet)))

  -- While the entry has not expired, FuseCacheGetEntry after FuseCacheSetEntry returns the entry
  -- that was set, and the item that FuseCacheSetEntry returned, for any valid cache that can hold an
  -- item and a new item at an unused address, whether the key was cached, cached with another inode, or not cached.
  pub get_entry-set_entry :
      (refs : ℕ → ℕ) (c : Cache) (now later parent_ino : ℕ) (name : List ℕ) (entry : Entry)
      (new : ℕ)
      → IsValid refs c
      → IsFresh refs c new
      → 0 < c.capacity
      → later < expiration_of now entry
      → let r = set_entry rtl c now parent_ino name entry new in
        (get_entry rtl r.0 later parent_ino name).1 ≡ some (entry, r.1)
  get_entry-set_entry refs c now later parent_ino name entry new v f pos early =
      let r = set_entry rtl c now parent_ino name entry new in
      hit_get r.0 r.1 later parent_ino name (expiration_of now entry) entry c.case_insensitive
        (set-Answers c now parent_ino name entry new v f pos) early
