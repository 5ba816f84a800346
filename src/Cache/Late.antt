-- ===== src/Cache/Late.antt =====
-- A reference on an item of src/shared/km/cache.c that is taken after the item has expired, as the
-- file of a slow open or create request does.
use winfuse.Base.{
  ℕ, ◌+◌, ◌≤◌, ◌<◌, ◌≡◌, refl, true, some, List, [], ◌∷◌, arith, leb, count, count-push,
}
use winfuse.Cache.{Cache}
use winfuse.Cache.Entries.{reference_item, dereference_item}
use winfuse.Cache.Items.{forget_time, forget_next_item}

-- The forget time does not depend on the references.
forget_time-reference :
    (c : Cache) (time x : ℕ) → forget_time (reference_item c x) time ≡ forget_time c time
unfolding forget_time reference_item
forget_time-reference c time x = refl

-- An item at the head of the Forget list is taken when its time has come.
take_head :
    (d : Cache) (time x : ℕ) (rest : List ℕ)
    → d.forget_list ≡ x ∷ rest
    → leb (d.items x).last_used_time (forget_time d time) ≡ true
    → (e : Cache) × (forget_next_item d time [] ≡ some (e, x ∷ []))
unfolding forget_next_item
take_head d time x rest listed late = (record d { forget_list = rest }, rw (listed, late) refl)

-- An item that has expired waits at the head of the Forget list without references, and a file takes
-- a reference on it then: the count is one, and yet the item is taken to be forgotten when its time
-- has come; and giving up the reference puts it on the Forget list a second time.
pub referenced_too_late :
    (c : Cache) (time x : ℕ) (rest : List ℕ)
    → 0 < x
    → c.forget_list ≡ x ∷ rest
    → (c.items x).ref_count ≡ 0
    → (c.items x).last_used_time ≤ forget_time c time
    → let d = reference_item c x in
      ((d.items x).ref_count ≡ 1)
      × ((e : Cache) × (forget_next_item d time [] ≡ some (e, x ∷ [])))
      × (count x (dereference_item d x).forget_list ≡ count x rest + 2)
unfolding reference_item dereference_item forget_next_item forget_time count
referenced_too_late c time x rest pos listed zero late =
    let used : ((reference_item c x).items x).last_used_time ≡ (c.items x).last_used_time =
      ground arith in
    (
      ground arith,
      take_head (reference_item c x) time x rest listed
          (ground (arith, forget_time-reference c time x)),
      ground (arith, listed, count-push x x rest),
    )
