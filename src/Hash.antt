-- ===== src/Hash.antt =====
-- src/shared/km/shared.h: FuseHashMix32, FuseHashMix64 and FuseHashMixPointer, with the products
-- reduced to the width of the variable. The pointers are those of the 64-bit driver (_WIN64).
use winfuse.Base.{ℕ, ◌*◌, ◌/◌, ◌%◌, ◌^◌, bit_xor}

unfoldable pub hash_mix32 : ℕ → ℕ
hash_mix32 h0 =
    let h1 = bit_xor h0 (h0 / 2 ^ 16) in
    let h2 = (h1 * 0x85ebca6b) % 2 ^ 32 in
    let h3 = bit_xor h2 (h2 / 2 ^ 13) in
    let h4 = (h3 * 0xc2b2ae35) % 2 ^ 32 in bit_xor h4 (h4 / 2 ^ 16)

unfoldable pub hash_mix64 : ℕ → ℕ
hash_mix64 k0 =
    let k1 = bit_xor k0 (k0 / 2 ^ 33) in
    let k2 = (k1 * 0xff51afd7ed558ccd) % 2 ^ 64 in
    let k3 = bit_xor k2 (k2 / 2 ^ 33) in
    let k4 = (k3 * 0xc4ceb9fe1a85ec53) % 2 ^ 64 in bit_xor k4 (k4 / 2 ^ 33)

unfoldable pub hash_mix_pointer : ℕ → ℕ
unfolding hash_mix64
hash_mix_pointer pointer = hash_mix64 pointer % 2 ^ 32
