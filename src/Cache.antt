-- ===== src/Cache.antt =====
-- src/shared/km/cache.c: the cache of FUSE entries of an instance.
-- Items and generations are addresses; their fields stand in a store, a function from addresses.
-- A LIST_ENTRY list is the list of the addresses on it, first at the head, and a chain of DictNext
-- links is the list of its items. Each section under the fast mutex is one function. Times and
-- counters keep their widths. The system's RtlEqualString and RtlUpperChar are the record Rtl.
pub mod Hash
pub mod Items
pub mod Gens
pub mod Entries
pub mod Expiry
pub mod Valid
mod Cases
pub mod Found
pub mod Keep
pub mod Store
pub mod Sweep
pub mod Routine
pub mod Oldest
pub mod InUse
pub mod History
pub mod Meaning
pub mod Got
pub mod Late
pub mod Tests
use winfuse.Base.{
  ℕ, ◌+◌, ◌-◌, ◌%◌, ◌^◌, ◌≡◌, ◌↔◌, Bool, true, false, List, map, ◌==◌, if◌then◌else◌,
}

-- FUSE_PROTO_ATTR and FUSE_PROTO_ENTRY of src/shared/km/proto.h.
pub record Attr : Type 0 where
  pub ino : ℕ
  pub size : ℕ
  pub blocks : ℕ
  pub atime : ℕ
  pub mtime : ℕ
  pub ctime : ℕ
  pub atimensec : ℕ
  pub mtimensec : ℕ
  pub ctimensec : ℕ
  pub mode : ℕ
  pub nlink : ℕ
  pub uid : ℕ
  pub gid : ℕ
  pub rdev : ℕ
  pub blksize : ℕ

pub record Entry : Type 0 where
  pub nodeid : ℕ
  pub generation : ℕ
  pub entry_valid : ℕ
  pub attr_valid : ℕ
  pub entry_valid_nsec : ℕ
  pub attr_valid_nsec : ℕ
  pub attr : Attr

pub record Gen : Type 0 where
  pub ref_count : ℕ
  pub interrupt_time : ℕ

pub record Item : Type 0 where
  pub no_forget : Bool
  pub hash : ℕ
  pub parent_ino : ℕ
  pub name : List ℕ
  pub nlookup : ℕ
  pub expiration_time : ℕ
  pub last_used_time : ℕ
  pub entry : Entry
  pub quick_expiry : ℕ
  pub ref_count : ℕ

pub record Cache : Type 0 where
  pub capacity : ℕ
  pub case_insensitive : Bool
  pub gen_list : List ℕ
  pub item_list : List ℕ
  pub forget_list : List ℕ
  pub item_count : ℕ
  pub item_bucket_count : ℕ
  pub item_buckets : List (List ℕ)
  pub gens : ℕ → Gen
  pub items : ℕ → Item

-- What the cache relies on of the system: strings compare byte by byte, or after upper-casing.
pub record Rtl : Type 0 where
  pub upper_char : ℕ → ℕ
  pub equal_string : List ℕ → List ℕ → Bool → Bool
  pub equal_exact : (a b : List ℕ) → (equal_string a b false ≡ true) ↔ (a ≡ b)
  pub equal_upper :
      (a b : List ℕ) → (equal_string a b true ≡ true) ↔ (map upper_char a ≡ map upper_char b)

-- A store with one address written.
abbrev pub update {ℓ} : {A : Type ℓ} → (ℕ → A) → ℕ → A → ℕ → A
update f x v y = if x == y then v else f y

abbrev pub inc32 : ℕ → ℕ
inc32 n = (n + 1) % 2 ^ 32

abbrev pub dec32 : ℕ → ℕ
dec32 n = (n + 2 ^ 32 - 1) % 2 ^ 32

abbrev pub inc64 : ℕ → ℕ
inc64 n = (n + 1) % 2 ^ 64
