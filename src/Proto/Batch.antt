-- ===== src/Proto/Batch.antt =====
-- What a BATCH_FORGET request of src/shared/km/proto.c holds.
use winfuse.Base.{
  ℕ, zero, suc, ◌+◌, ◌-◌, ◌*◌, ◌/◌, ◌%◌, ◌^◌, ◌<◌, ◌≤◌, ◌≡◌, ◌⊎◌, inl, inr, refl, ap, arith, List,
  [], ◌∷◌, ◌++◌, map, ltb, length, Bool-cases,
}
use winfuse.Cache.{Item}
use winfuse.Cache.Expiry.{ForgetOne, forget_one}
use winfuse.Proto.{batch_loop, fill_batch_forget, req_sizemin, batch_forget_size}

-- The message for an item.
abbrev pub message : (ℕ → Item) → ℕ → ForgetOne
message items x = record { nodeid = (items x).entry.nodeid; nlookup = (items x).nlookup }

-- From the offset `p`: the messages are those of the items that were taken, in order, and the others
-- are left; they end within the buffer, which is full where some are left.
pub record Fills (items : ℕ → Item) (p : ℕ) (l : List ℕ) (r : ℕ × List ForgetOne × List ℕ)
    : Type 0 where
  pub taken : List ℕ
  pub messages : map (message items) taken ≡ r.1
  pub left : taken ++ r.2 ≡ l
  pub ends : r.0 ≡ p + 16 * length r.1
  pub within : r.0 ≤ 8192
  pub full : (r.2 ≡ []) ⊎ (r.0 ≡ 8192)

Fills-none :
    (items : ℕ → Item) (p room : ℕ) (l : List ℕ)
    → 8192 ≡ p + 16 * room
    → (l ≡ []) ⊎ (p ≡ 8192)
    → Fills items p l (p, [], l)
Fills-none items p room l e full = record {
  taken = [];
  messages = refl;
  left = refl;
  ends = omega arith;
  within = omega arith;
  full = full;
}

Fills-one :
    (items : ℕ → Item) (p x : ℕ) (l : List ℕ) (r : ℕ × List ForgetOne × List ℕ)
    → Fills items (p + 16) l r
    → Fills items p (x ∷ l) (r.0, message items x ∷ r.1, r.2)
Fills-one items p x l r f = record {
  taken = x ∷ f.taken;
  messages = ap (λ ms. message items x ∷ ms) f.messages;
  left = ap (λ xs. x ∷ xs) f.left;
  ends = omega (arith, f.ends);
  within = f.within;
  full = f.full;
}

-- `room` is how many messages fit.
batch_loop-Fills :
    (fuel : ℕ) (items : ℕ → Item) (p room : ℕ) (l : List ℕ)
    → 8192 ≡ p + 16 * room
    → room < fuel
    → Fills items p l (batch_loop fuel items p l)
unfolding batch_loop forget_one
batch_loop-Fills zero items p room l e f = absurd (omega arith)
batch_loop-Fills (suc fuel) items p room [] e f = elim (Bool-cases (ltb p req_sizemin)) [
  | inr t ↦ rw t (Fills-none items p room [] e (inl refl))
  | inl t ↦ rw t (Fills-none items p room [] e (inl refl))
]
batch_loop-Fills (suc fuel) items p room (x ∷ rest) e f = elim (Bool-cases (ltb p req_sizemin)) [
  | inr t ↦ rw t (Fills-none items p room (x ∷ rest) e (inr (ground arith)))
  | inl t ↦
      let some_room : 0 < room = ground arith in
      rw t (
        Fills-one items p x rest _
          (batch_loop-Fills fuel items (p + 16) (room - 1) rest (omega arith) (omega arith)))
]

-- The length and the count of the request fit in their 32 bits.
filled :
    (items : ℕ → Item) (l : List ℕ) (r : ℕ × List ForgetOne × List ℕ)
    → Fills items 48 l r
    → Fills items 48 l (r.0 % 2 ^ 32, r.1, r.2) × ((r.0 - 48) / 16 % 2 ^ 32 ≡ length r.1)
filled items l r f = (
  record {
    taken = f.taken;
    messages = f.messages;
    left = f.left;
    ends = omega (arith, f.ends, f.within);
    within = omega (arith, f.within);
    full = small_full r.0 f.within f.full;
  },
  omega (arith, f.ends, f.within),
)
  where
    small_full : (q : ℕ) → q ≤ 8192 → (r.2 ≡ []) ⊎ (q ≡ 8192) → (r.2 ≡ []) ⊎ (q % 2 ^ 32 ≡ 8192)
    small_full q h (inl e) = inl e
    small_full q h (inr e) = inr (omega arith)

-- From the list of the items that the cache has forgotten, FuseProtoFillBatchForget takes items from
-- the head, and sends a message for each, in order; the request is as long as its messages and its
-- count is their number; it fits in the buffer, and is full, or nothing is left.
pub fill_batch_forget-Fills :
    (items : ℕ → Item) (l : List ℕ)
    → let r = fill_batch_forget items l in
      Fills items 48 l (r.0.len, r.0.messages, r.1) × (r.0.count ≡ length r.0.messages)
unfolding fill_batch_forget
fill_batch_forget-Fills items l =
    filled items l (batch_loop req_sizemin items batch_forget_size l)
      (batch_loop-Fills req_sizemin items batch_forget_size 509 l refl (omega arith))
