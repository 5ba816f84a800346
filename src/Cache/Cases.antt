-- ===== src/Cache/Cases.antt =====
-- The branches of the functions of src/shared/km/cache.c, one principle for each function.
use winfuse.Base.{
  ℕ, ◌≡◌, inl, inr, refl, Bool, true, false, ◌&&◌, ◌||◌, not, Option, none, some, List, [], ◌∷◌,
  ◌++◌, ◌==◌, leb, ltb, if◌then◌else◌, Bool-cases,
}
use winfuse.Cache.{Cache, Item, Entry, Rtl, inc64}
use winfuse.Cache.Hash.{cache_hash}
use winfuse.Cache.Items.{
  forget_time, forget_next_item, expire_item, expire_next_item, lookup_hashed_item, touch_item,
  update_hashed_item, write_item, add_item,
}
use winfuse.Cache.Entries.{get_entry, insert_entry, set_entry, new_item, make_room, expiration_of}

-- The test of FuseCacheExpireNextItem.
abbrev pub is_due : Cache → ℕ → ℕ → Bool
is_due c time x = leb (c.items x).expiration_time time || not ((c.items x).quick_expiry == 0)

module _ {ℓ} (c : Cache) where
  pub expire_next_cases :
      (P : Cache × Bool → Type ℓ) (time : ℕ)
      → (c.item_list ≡ [] → P (c, false))
      → ((x : ℕ) (l : List ℕ) → c.item_list ≡ x ∷ l → is_due c time x ≡ true → P (expire_item c x))
      → ((x : ℕ) (l : List ℕ) → c.item_list ≡ x ∷ l → is_due c time x ≡ false → P (c, false))
      → P (expire_next_item c time)
  unfolding expire_next_item
  expire_next_cases P time empty due early = go c.item_list refl
    where
      go :
          (l : List ℕ)
          → c.item_list ≡ l
          → P (elim l [
            | [] ↦ (c, false)
            | x ∷ _ ↦
                if leb (c.items x).expiration_time time || not ((c.items x).quick_expiry == 0)
                then expire_item c x
                else (c, false)
          ])
      go [] e = empty e
      go (x ∷ l) e = elim (Bool-cases (is_due c time x)) [
        | inl t ↦ rw t (due x l e t)
        | inr t ↦ rw t (early x l e t)
      ]

  pub forget_next_cases :
      (P : Option (Cache × List ℕ) → Type ℓ) (time : ℕ) (forgotten : List ℕ)
      → P none
      → ((x : ℕ) (l : List ℕ)
          → c.forget_list ≡ x ∷ l
          → leb (c.items x).last_used_time (forget_time c time) ≡ true
          → P (some (record c { forget_list = l }, forgotten ++ x ∷ [])))
      → P (forget_next_item c time forgotten)
  unfolding forget_next_item
  forget_next_cases P time forgotten kept taken = go c.forget_list refl
    where
      go :
          (l : List ℕ)
          → c.forget_list ≡ l
          → P (elim l [
            | [] ↦ none
            | x ∷ rest ↦
                if leb (c.items x).last_used_time (forget_time c time)
                then some (record c { forget_list = rest }, forgotten ++ x ∷ [])
                else none
          ])
      go [] e = kept
      go (x ∷ l) e = elim (Bool-cases (leb (c.items x).last_used_time (forget_time c time))) [
        | inl t ↦ rw t (taken x l e t)
        | inr t ↦ rw t kept
      ]

-- The test of FuseCacheGetEntry.
abbrev pub is_fresh : Cache → ℕ → ℕ → Bool
is_fresh c now x = ltb now (c.items x).expiration_time && (c.items x).quick_expiry == 0

-- The test of FuseCacheUpdateHashedItem.
abbrev pub is_same : Cache → Entry → ℕ → Bool
is_same c entry x = entry.nodeid == (c.items x).entry.nodeid && (c.items x).quick_expiry == 0

-- The item that FuseCacheUpdateHashedItem writes.
abbrev pub renewed : Item → ℕ → ℕ → Entry → Item
renewed item expiration_time last_used_time entry = record item {
  nlookup = inc64 item.nlookup;
  expiration_time = expiration_time;
  last_used_time = last_used_time;
  entry = entry;
}

module _ {ℓ} (rtl : Rtl) (c : Cache) where
  pub get_cases :
      (P : Cache × Option (Entry × ℕ) → Type ℓ) (now parent_ino : ℕ) (name : List ℕ)
      → let found =
          lookup_hashed_item rtl c
            (cache_hash rtl parent_ino (some name) c.case_insensitive)
            parent_ino
            name in
        (found ≡ none → P (c, none))
        → ((x : ℕ)
            → found ≡ some x
            → is_fresh c now x ≡ true
            → P (
              touch_item rtl c x (record (c.items x) { last_used_time = now }),
              some ((c.items x).entry, x),
            ))
        → ((x : ℕ) → found ≡ some x → is_fresh c now x ≡ false → P ((expire_item c x).0, none))
        → P (get_entry rtl c now parent_ino name)
  unfolding get_entry
  get_cases P now parent_ino name missing hit stale = go _ refl
    where
      go :
          (o : Option ℕ)
          → lookup_hashed_item rtl c
              (cache_hash rtl parent_ino (some name) c.case_insensitive)
              parent_ino
              name
            ≡ o
          → P (elim o [
            | none ↦ (c, none)
            | some x ↦
                if ltb now (c.items x).expiration_time && (c.items x).quick_expiry == 0
                then (
                  touch_item rtl c x (record (c.items x) { last_used_time = now }),
                  some ((c.items x).entry, x),
                )
                else ((expire_item c x).0, none)
          ])
      go none e = missing e
      go (some x) e = elim (Bool-cases (is_fresh c now x)) [
        | inl t ↦ rw t (hit x e t)
        | inr t ↦ rw t (stale x e t)
      ]

  pub update_cases :
      (P : Cache × Option ℕ → Type ℓ) (hash parent_ino : ℕ) (name : List ℕ)
      (expiration_time now : ℕ) (entry : Entry)
      → (lookup_hashed_item rtl c hash parent_ino name ≡ none → P (c, none))
      → ((x : ℕ)
          → lookup_hashed_item rtl c hash parent_ino name ≡ some x
          → is_same c entry x ≡ true
          → P (touch_item rtl c x (renewed (c.items x) expiration_time now entry), some x))
      → ((x : ℕ)
          → lookup_hashed_item rtl c hash parent_ino name ≡ some x
          → is_same c entry x ≡ false
          → P ((expire_item c x).0, none))
      → P (update_hashed_item rtl c hash parent_ino name expiration_time now entry)
  unfolding update_hashed_item
  update_cases P hash parent_ino name expiration_time now entry missing hit other = go _ refl
    where
      go :
          (o : Option ℕ)
          → lookup_hashed_item rtl c hash parent_ino name ≡ o
          → P (elim o [
            | none ↦ (c, none)
            | some x ↦
                if entry.nodeid == (c.items x).entry.nodeid && (c.items x).quick_expiry == 0
                then (touch_item rtl c x (renewed (c.items x) expiration_time now entry), some x)
                else ((expire_item c x).0, none)
          ])
      go none e = missing e
      go (some x) e = elim (Bool-cases (is_same c entry x)) [
        | inl t ↦ rw t (hit x e t)
        | inr t ↦ rw t (other x e t)
      ]

  pub insert_cases :
      (P : Cache × ℕ → Type ℓ) (hash parent_ino : ℕ) (name : List ℕ) (expiration_time now : ℕ)
      (entry : Entry) (new : ℕ)
      → let u = update_hashed_item rtl c hash parent_ino name expiration_time now entry in
        ((x : ℕ) → u.1 ≡ some x → P (u.0, x))
        → (u.1 ≡ none
            → P (
              add_item
                  (make_room
                    (write_item u.0 new (new_item hash parent_ino name expiration_time now entry)))
                  new,
              new,
            ))
        → P (insert_entry rtl c hash parent_ino name expiration_time now entry new)
  unfolding insert_entry
  insert_cases P hash parent_ino name expiration_time now entry new found missing = go _ refl
    where
      go :
          (o : Option ℕ)
          → (update_hashed_item rtl c hash parent_ino name expiration_time now entry).1 ≡ o
          → let u = update_hashed_item rtl c hash parent_ino name expiration_time now entry in
            P (elim o [
              | some x ↦ (u.0, x)
              | none ↦ (
                add_item
                    (make_room (
                      write_item u.0 new (new_item hash parent_ino name expiration_time now entry)))
                    new,
                new,
              )
            ])
      go none e = missing e
      go (some x) e = found x e

  pub set_cases :
      (P : Cache × ℕ → Type ℓ) (now parent_ino : ℕ) (name : List ℕ) (entry : Entry) (new : ℕ)
      → let hash = cache_hash rtl parent_ino (some name) c.case_insensitive in
        let u = update_hashed_item rtl c hash parent_ino name (expiration_of now entry) now entry in
        ((x : ℕ) → u.1 ≡ some x → P (u.0, x))
        → (u.1 ≡ none
            → P (insert_entry rtl u.0 hash parent_ino name (expiration_of now entry) now entry new))
        → P (set_entry rtl c now parent_ino name entry new)
  unfolding set_entry
  set_cases P now parent_ino name entry new found missing = go _ refl
    where
      go :
          (o : Option ℕ)
          → let hash = cache_hash rtl parent_ino (some name) c.case_insensitive in
            let u =
              update_hashed_item rtl c hash parent_ino name (expiration_of now entry) now entry in
            u.1 ≡ o
            → P (elim o [
              | some x ↦ (u.0, x)
              | none ↦
                  insert_entry rtl u.0 hash parent_ino name (expiration_of now entry) now entry new
            ])
      go none e = missing e
      go (some x) e = found x e
