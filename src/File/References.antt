-- ===== src/File/References.antt =====
-- The references on items of the cache are those of the files of src/shared/km/file.c.
use winfuse.Base.{
  ℕ, ◌+◌, ◌-◌, ◌^◌, ◌<◌, ◌≡◌, refl, subst, sym, arith, ◌&&◌, not, Option, none, some, List, [], ◌∷◌,
  ◌++◌, ◌==◌, if◌then◌else◌, count, erase, Bool-cases, inl, inr,
}
use winfuse.Cache.{Cache, update}
use winfuse.Cache.Entries.{dereference_item, reference_item}
use winfuse.Cache.Store.{dereference_item-IsValid, reference_item-IsValid}
use winfuse.Cache.Valid.{IsValid}
use winfuse.File.{
  File, Instance, zero_file, fini_loop, file_instance_fini, file_create, file_delete, attach_item,
}

-- How many of the files refer to an item.
unfoldable pub references : (ℕ → File) → List ℕ → ℕ → ℕ
references files [] x = 0
references files (f ∷ fs) x =
    (if (files f).cache_item == x && not (x == 0) then 1 else 0) + references files fs x

IsValid-congr :
    (refs other : ℕ → ℕ) (c : Cache)
    → ((x : ℕ) → refs x ≡ other x)
    → IsValid refs c
    → IsValid other c
IsValid-congr refs other c e v = subst (λ r. IsValid r c) (λ i x. e x i) v

-- Giving up a null item changes nothing.
dereference_null : (c : Cache) (x : ℕ) → x ≡ 0 → dereference_item c x ≡ c
unfolding dereference_item
dereference_null c x e = rw e refl

-- One file gives up its item.
dereference-IsValid :
    (refs other : ℕ → ℕ) (c : Cache) (y : ℕ)
    → IsValid refs c
    → ((x : ℕ) → refs x ≡ other x + (if y == x && not (x == 0) then 1 else 0))
    → IsValid other (dereference_item c y)
dereference-IsValid refs other c y v e = elim (Bool-cases (y == 0)) [
  | inl z ↦
      let null : y ≡ 0 = ground arith in
      subst (λ d. IsValid other d) (sym (dereference_null c y null))
        (IsValid-congr refs other c (λ x. ground (arith, e x)) v)
  | inr n ↦
      IsValid-congr (update refs y (refs y - 1)) other (dereference_item c y)
        (λ x. ground (arith, e x, e y))
        (dereference_item-IsValid c y v (ground arith) (ground (arith, e y)))
]

fini_loop-IsValid :
    (c : Cache) (files : ℕ → File) (l : List ℕ)
    → IsValid (references files l) c
    → IsValid (λ _. 0) (fini_loop c files l)
unfolding fini_loop references
fini_loop-IsValid c files [] v = v
fini_loop-IsValid c files (f ∷ l) v =
    fini_loop-IsValid (dereference_item c (files f).cache_item) files l (
      dereference-IsValid (references files (f ∷ l)) (references files l) c (files f).cache_item v
        (λ x. ground arith))

-- Where the references on items are those of the files: FuseFileInstanceFini gives up all of them,
-- and leaves a valid cache that no file refers to.
pub file_instance_fini-IsValid :
    (i : Instance)
    → IsValid (references i.files i.file_list) i.cache
    → IsValid (λ _. 0) (file_instance_fini i).0
unfolding file_instance_fini
file_instance_fini-IsValid i v = fini_loop-IsValid i.cache i.files i.file_list v

fini_loop-keeps :
    {P : Cache → Type 0} (c : Cache) (files : ℕ → File) (l : List ℕ)
    → ((d : Cache) (x : ℕ) → P d → P (dereference_item d x))
    → P c
    → P (fini_loop c files l)
unfolding fini_loop
fini_loop-keeps c files [] k p = p
fini_loop-keeps {P = P} c files (f ∷ l) k p =
    fini_loop-keeps {P = P} (dereference_item c (files f).cache_item) files l k
      (k c (files f).cache_item p)

-- What holds of a cache, whichever references are given up, holds after FuseFileInstanceFini.
pub file_instance_fini-keeps :
    {P : Cache → Type 0} (i : Instance)
    → ((d : Cache) (x : ℕ) → P d → P (dereference_item d x))
    → P i.cache
    → P (file_instance_fini i).0
unfolding file_instance_fini
file_instance_fini-keeps {P = P} i k p = fini_loop-keeps {P = P} i.cache i.files i.file_list k p

pub file_instance_fini-files : (i : Instance) → (file_instance_fini i).1 ≡ i.file_list
unfolding file_instance_fini
file_instance_fini-files i = refl

references-erase :
    (files : ℕ → File) (l : List ℕ) (f x : ℕ)
    → 0 < count f l
    → references files l x
      ≡ references files (erase f l) x
        + (if (files f).cache_item == x && not (x == 0) then 1 else 0)
unfolding references erase count
references-erase files [] f x h = absurd (omega arith)
references-erase files (g ∷ l) f x h = ground (arith, references-erase files l f x)

-- Where the references on items are those of the files: FuseFileDelete of a file of the list leaves
-- them those of the files that are left, and the cache valid.
pub file_delete-IsValid :
    (i : Instance) (f : ℕ)
    → IsValid (references i.files i.file_list) i.cache
    → 0 < count f i.file_list
    → IsValid
        (references (file_delete i f).files (file_delete i f).file_list)
        (file_delete i f).cache
unfolding file_delete
file_delete-IsValid i f v h =
    dereference-IsValid (references i.files i.file_list) (references i.files (erase f i.file_list))
      i.cache (i.files f).cache_item v (λ x. references-erase i.files i.file_list f x h)

references_congr :
    (files other : ℕ → File) (l : List ℕ) (x : ℕ)
    → ((f : ℕ) → 0 < count f l → (files f).cache_item ≡ (other f).cache_item)
    → references files l x ≡ references other l x
unfolding references count
references_congr files other [] x e = refl
references_congr files other (f ∷ l) x e =
    ground (arith, e f, references_congr files other l x (λ g h. e g (ground arith)))

references-push :
    (files : ℕ → File) (l : List ℕ) (f x : ℕ)
    → (files f).cache_item ≡ 0
    → references files (l ++ f ∷ []) x ≡ references files l x
unfolding references
references-push files [] f x z = ground arith
references-push files (g ∷ l) f x z = ground (arith, references-push files l f x z)

-- Where the references on items are those of the files, FuseFileCreate leaves them so, whether or not
-- the allocation succeeds, for a new file at an unused address.
pub file_create-IsValid :
    (i : Instance) (allocated : Option ℕ)
    → IsValid (references i.files i.file_list) i.cache
    → ((new : ℕ) → allocated ≡ some new → count new i.file_list ≡ 0)
    → let j = (file_create i allocated).0 in IsValid (references j.files j.file_list) j.cache
unfolding file_create
file_create-IsValid i none v unused = v
file_create-IsValid i (some new) v unused =
    IsValid-congr (references i.files i.file_list)
      (references (update i.files new zero_file) (i.file_list ++ new ∷ [])) i.cache
      (λ x. ground (
        arith,
        references-push (update i.files new zero_file) i.file_list new x (ground arith),
        references_congr i.files (update i.files new zero_file) i.file_list x
            (λ f h. ground (arith, unused new refl)),
      ))
      v

references-attach :
    (files : ℕ → File) (l : List ℕ) (f x y : ℕ)
    → (files f).cache_item ≡ 0
    → references (update files f (record (files f) { cache_item = x })) l y
      ≡ references files l y + (if x == y && not (y == 0) then count f l else 0)
unfolding references count
references-attach files [] f x y z = ground arith
references-attach files (g ∷ l) f x y z = ground (arith, references-attach files l f x y z)

-- Where the references on items are those of the files: a file of the list that has no item yet, and
-- takes one that is cached or that another file has, leaves them so, and the cache valid.
pub attach_item-IsValid :
    (i : Instance) (f x : ℕ)
    → IsValid (references i.files i.file_list) i.cache
    → count f i.file_list ≡ 1
    → (i.files f).cache_item ≡ 0
    → 0 < x
    → 0 < count x i.cache.item_list + references i.files i.file_list x
    → references i.files i.file_list x + 2 < 2 ^ 32
    → let j = attach_item i f x in IsValid (references j.files j.file_list) j.cache
unfolding attach_item
attach_item-IsValid i f x v once z pos listed small =
    IsValid-congr (update (references i.files i.file_list) x (references i.files i.file_list x + 1))
      (references (update i.files f (record (i.files f) { cache_item = x })) i.file_list)
      (reference_item i.cache x)
      (λ y. ground (arith, references-attach i.files i.file_list f x y z))
      (reference_item-IsValid i.cache x v listed small)
