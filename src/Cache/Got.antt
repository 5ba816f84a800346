-- ===== src/Cache/Got.antt =====
-- What FuseCacheGetEntry of src/shared/km/cache.c returns to its caller.
use mathlib.Core.Option.{some-injective}
use winfuse.Base.{
  ℕ, ◌<◌, ◌≡◌, subst, refl, true, some, List, [], ◌∷◌, ◌++◌, arith, erase, count, ==_refl,
}
use winfuse.Cache.{Cache, Entry, Rtl}
use winfuse.Cache.Cases.{get_cases, is_fresh}
use winfuse.Cache.Entries.{get_entry}
use winfuse.Cache.Found.{lookup-some, matches-key}
use winfuse.Cache.Hash.{cache_hash}
use winfuse.Cache.Items.{lookup_hashed_item, touch_item}
use winfuse.Cache.Valid.{IsValid}

-- What FuseCacheGetEntry returns: the entry of an item under the key, which has not expired.
pub record Gets (rtl : Rtl) (c d : Cache) (now parent_ino : ℕ) (name : List ℕ) (entry : Entry)
    (x : ℕ) : Type 0 where
  pub cached : 0 < count x c.item_list
  pub parent : (c.items x).parent_ino ≡ parent_ino
  pub named : rtl.equal_string (c.items x).name name c.case_insensitive ≡ true
  pub content : (c.items x).entry ≡ entry
  pub in_time : now < (c.items x).expiration_time
  pub quiet : (c.items x).quick_expiry ≡ 0
  -- It is used now, and is the last of the list.
  pub used : (d.items x).last_used_time ≡ now
  pub last : d.item_list ≡ erase x c.item_list ++ x ∷ []

hit-Gets :
    (rtl : Rtl) {refs : ℕ → ℕ} (c : Cache) (now parent_ino : ℕ) (name : List ℕ) (x : ℕ)
    → IsValid refs c
    → lookup_hashed_item rtl c
        (cache_hash rtl parent_ino (some name) c.case_insensitive)
        parent_ino
        name
      ≡ some x
    → is_fresh c now x ≡ true
    → Gets rtl c
        (touch_item rtl c x (record (c.items x) { last_used_time = now }))
        now
        parent_ino
        name
        (c.items x).entry
        x
unfolding touch_item
hit-Gets rtl c now parent_ino name x v e fresh =
    let (listed, m) = lookup-some rtl c _ parent_ino name x v e in
    let (_, same_parent, same_name) = matches-key rtl c _ parent_ino name x m in
    record {
      cached = listed;
      parent = same_parent;
      named = same_name;
      content = refl;
      in_time = ground arith;
      quiet = ground arith;
      used = rw ==_refl refl;
      last = refl;
    }

-- In a valid cache, FuseCacheGetEntry returns an entry only where an item of the list has the key
-- and the entry, its time has not come and no quick expiry was asked for; it is then the item that
-- was used last.
pub get_entry-Gets :
    (rtl : Rtl) (refs : ℕ → ℕ) (c : Cache) (now parent_ino : ℕ) (name : List ℕ) (entry : Entry)
    (x : ℕ)
    → IsValid refs c
    → let r = get_entry rtl c now parent_ino name in
      r.1 ≡ some (entry, x) → Gets rtl c r.0 now parent_ino name entry x
get_entry-Gets rtl refs c now parent_ino name entry x v =
    get_cases rtl c (λ r. r.1 ≡ some (entry, x) → Gets rtl c r.0 now parent_ino name entry x) now
      parent_ino name (λ _ e. absurd (cc))
      (λ y found fresh e.
        subst {A = Entry × ℕ}
          (λ p.
            Gets rtl c (touch_item rtl c y (record (c.items y) { last_used_time = now })) now
              parent_ino name p.0 p.1)
          (some-injective _ _ e) (hit-Gets rtl c now parent_ino name y v found fresh))
      (λ y _ _ e. absurd (cc))
