-- ===== src/Cache/Hash.antt =====
-- src/shared/km/cache.c: hash_chars, hash_upper_chars and FuseCacheHash.
use winfuse.Base.{
  ℕ, ◌+◌, ◌-◌, ◌*◌, ◌%◌, ◌^◌, Bool, Option, none, some, List, [], ◌∷◌, ltb, if◌then◌else◌, bit_xor,
}
use winfuse.Hash.{hash_mix64}
use winfuse.Cache.{Rtl}

-- A char is signed: the conversion to size_t extends its sign.
abbrev char_to_size : ℕ → ℕ
char_to_size c = if ltb c 128 then c else c + 2 ^ 64 - 256

-- The loop of both functions, over the characters as they are added.
hash_from : ℕ → List ℕ → ℕ
hash_from h [] = h
hash_from h (s ∷ rest) = hash_from ((33 * h + char_to_size s) % 2 ^ 64) rest

unfoldable pub hash_chars : List ℕ → ℕ
unfolding hash_from
hash_chars s = hash_from 5381 s

module _ (rtl : Rtl) where
  hash_upper_from : ℕ → List ℕ → ℕ
  hash_upper_from h [] = h
  hash_upper_from h (s ∷ rest) =
      hash_upper_from ((33 * h + char_to_size (rtl.upper_char s)) % 2 ^ 64) rest

  unfoldable pub hash_upper_chars : List ℕ → ℕ
  unfolding hash_upper_from
  hash_upper_chars s = hash_upper_from 5381 s

  unfoldable pub cache_hash : ℕ → Option (List ℕ) → Bool → ℕ
  unfolding hash_mix64 hash_chars hash_upper_chars
  cache_hash parent_ino none case_insensitive = bit_xor (hash_mix64 parent_ino % 2 ^ 32) 0
  cache_hash parent_ino (some name) case_insensitive =
      bit_xor (hash_mix64 parent_ino % 2 ^ 32)
        ((if case_insensitive then hash_upper_chars name else hash_chars name) % 2 ^ 32)
