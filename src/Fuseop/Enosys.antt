-- ===== src/Fuseop/Enosys.antt =====
-- The bitmap of opcodes that user mode does not implement, of src/shared/km/shared.h.
use winfuse.Base.{
  ℕ, ◌*◌, ◌/◌, ◌%◌, ◌^◌, ◌<◌, ◌≡◌, Bool, ◌||◌, ◌&&◌, ◌∙◌, sym, ℕ_discrete, not, List, ◌==◌, bit_and,
  bit_or, get_or, set, length, arith, get_or-set,
}
use winfuse.Base.Bits.{has_bit, bit_and-has_bit, has_bit-bit_or, has_bit-power}

-- FuseInstanceGetOpcodeENOSYS.
unfoldable pub get_opcode_enosys : List ℕ → ℕ → Bool
get_opcode_enosys words opcode =
    not (bit_and (get_or words (opcode / 32) 0) (2 ^ (opcode % 32)) == 0)

-- FuseInstanceSetOpcodeENOSYS.
unfoldable pub set_opcode_enosys : List ℕ → ℕ → List ℕ
set_opcode_enosys words opcode =
    set words (opcode / 32) (bit_or (get_or words (opcode / 32) 0) (2 ^ (opcode % 32)))

get-has_bit :
    (words : List ℕ) (opcode : ℕ)
    → get_opcode_enosys words opcode ≡ has_bit (get_or words (opcode / 32) 0) (opcode % 32)
unfolding get_opcode_enosys
get-has_bit words opcode =
    ground (arith, bit_and-has_bit (get_or words (opcode / 32) 0) (opcode % 32))

-- One word, or another.
set-has_bit :
    (words : List ℕ) (i k j l : ℕ)
    → i < length words
    → has_bit (get_or (set words i (bit_or (get_or words i 0) (2 ^ k))) j 0) l
      ≡ (j == i && l == k) || has_bit (get_or words j 0) l
set-has_bit words i k j l h = elim (ℕ_discrete i j) [
  | yes e ↦
      let here : get_or (set words i (bit_or (get_or words i 0) (2 ^ k))) j 0
          ≡ bit_or (get_or words j 0) (2 ^ k) =
        ground (arith, get_or-set words i j (bit_or (get_or words i 0) (2 ^ k)) 0 h, e) in
      rw here (ground (arith, e, has_bit-bit_or (get_or words j 0) (2 ^ k) l, has_bit-power k l))
  | no n ↦
      let there : get_or (set words i (bit_or (get_or words i 0) (2 ^ k))) j 0 ≡ get_or words j 0 =
        ground (arith, get_or-set words i j (bit_or (get_or words i 0) (2 ^ k)) 0 h, n) in
      rw there (ground (arith, n))
]

same_opcode : (o p : ℕ) → (o / 32 == p / 32 && o % 32 == p % 32) ≡ (o == p)
same_opcode o p = ground arith

-- FuseInstanceGetOpcodeENOSYS after FuseInstanceSetOpcodeENOSYS on an opcode that the bitmap has room
-- for returns TRUE for that opcode, and for another opcode what it did before.
pub get_opcode_enosys-set_opcode_enosys :
    (words : List ℕ) (set_one opcode : ℕ)
    → set_one < 32 * length words
    → get_opcode_enosys (set_opcode_enosys words set_one) opcode
      ≡ (opcode == set_one) || get_opcode_enosys words opcode
unfolding get_opcode_enosys set_opcode_enosys
get_opcode_enosys-set_opcode_enosys words set_one opcode room =
    get-has_bit _ opcode
    ∙ set-has_bit words (set_one / 32) (set_one % 32) (opcode / 32) (opcode % 32) (omega arith)
    ∙ (λ i. same_opcode opcode set_one i || sym (get-has_bit words opcode) i)
